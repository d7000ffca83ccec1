-- ===== src/Tests/Parser.antt =====
-- The normalizer and the extraction at concrete inputs.
use ahp_inspector.Base.{◌≢◌, is_some, some, true, false, ◌≡◌, ◌↔◌, ◌⊎◌, refl}
use ahp_inspector.Shared.Json.{Json, obj, field, end, str, is_object, has}
use ahp_inspector.Shared.Event.{s2c, c2s, EventKind}
use ahp_inspector.Parser.Normalizer.{normalize}
use ahp_inspector.Parser.Normalizer.Shapes.{
  IsNormal, method_of, Notifies, has_method, Answers, normalize-IsNormal, normalize-kind,
  normalize-notification,
}
use ahp_inspector.Parser.Extract.{
  extract_session_id, extract_turn_id, session_from_object, turn_from_object, candidate_objects,
}
use ahp_inspector.Parser.Extract.Found.{FirstOf, places, extract_first}
use ahp_inspector.Tests.Samples.{ping_message, meta_of}

abbrev action_message : Json
action_message = obj (field "method" (str "action") end)

normalize-IsNormal_example : IsNormal (meta_of 0 c2s) (normalize ping_message (meta_of 0 c2s))
normalize-IsNormal_example = normalize-IsNormal ping_message (meta_of 0 c2s)

normalize-kind_example :
    let kind = (normalize ping_message (meta_of 0 c2s)).kind in
    ((kind ≡ EventKind.request) ↔ (
      (is_object (some ping_message) ≡ true)
      × (has_method ping_message ≡ true)
      × (has ping_message "id" ≡ true)))
    × ((kind ≡ EventKind.response) ↔ (
        (is_object (some ping_message) ≡ true)
        × (has_method ping_message ≡ false)
        × Answers ping_message))
    × ((kind ≡ EventKind.parse_error) ↔ (
        (is_object (some ping_message) ≡ false)
        ⊎ ((has_method ping_message ≡ false) × ¬ Answers ping_message)))
normalize-kind_example = normalize-kind ping_message (meta_of 0 c2s)

normalize-notification_example :
    let ev = normalize action_message (meta_of 2 s2c) in
    ((ev.kind ≡ EventKind.action)
      ↔ (Notifies action_message × (method_of action_message ≡ some "action") × (s2c ≡ s2c)))
    × ((ev.kind ≡ EventKind.protocol_notification) ↔ (
        Notifies action_message × (method_of action_message ≡ some "notification") × (s2c ≡ s2c)))
    × ((ev.kind ≡ EventKind.client_notification) ↔ (Notifies action_message × (s2c ≡ c2s)))
    × ((ev.kind ≡ EventKind.server_notification) ↔ (
        Notifies action_message
        × (method_of action_message ≢ some "action")
        × (method_of action_message ≢ some "notification")
        × (s2c ≡ s2c)))
    × (is_some ev.action_type ≡ true
        → (ev.kind ≡ EventKind.action) ⊎ (ev.kind ≡ EventKind.protocol_notification))
normalize-notification_example = normalize-notification action_message (meta_of 2 s2c)

-- parameters whose session stands in their action
abbrev params : Json
params =
    obj (field "action" (obj (field "sessionId" (str "s-1") end)) (field "turnId" (str "t-1") end))

session_test : extract_session_id (some params) ≡ some "s-1"
unfolding extract_session_id candidate_objects session_from_object
session_test = refl

extract_first_example :
    ((extract_session_id (some params) ≡ some "s-1")
      ↔ FirstOf session_from_object "s-1" (places params))
    × ((extract_turn_id (some params) ≡ some "s-1")
        ↔ FirstOf turn_from_object "s-1" (places params))
extract_first_example = extract_first params "s-1"
