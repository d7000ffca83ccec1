-- ===== src/Parser/Normalizer/Shapes.antt =====
-- What every event out of the normalizer satisfies, and which messages become which kind.
use ahp_inspector.Base.{
  ◌≢◌, eq_iff, ap, some_injective, String, Option, none, some, Bool, true, false, is_some, str_eq,
  ◌≡◌, ◌↔◌, ◌⊎◌, inl, inr, arith, Bool-cases,
}
use ahp_inspector.Shared.Json.{Json, get, has, is_object, as_string}
use ahp_inspector.Shared.Event.{
  AhpEvent, NormalizeMeta, c2s, s2c, EventKind, ParseStatus, id_type_of,
}
use ahp_inspector.Shared.ParseError.{make_parse_error_event}
use ahp_inspector.Parser.Normalizer.{notification_shape, shape_of, build, normalize}

pub record IsNormal (meta : NormalizeMeta) (ev : AhpEvent) : Type 0 where
  pub id_tag : ev.id_type ≡ id_type_of ev.id
  pub failed : (ev.parse ≡ ParseStatus.error) ↔ (ev.kind ≡ EventKind.parse_error)
  pub detail : is_some ev.parse_error ≡ true ↔ (ev.kind ≡ EventKind.parse_error)
  pub sequenced : is_some ev.server_seq ≡ true → ev.kind ≡ EventKind.action
  pub named : (ev.kind ≡ EventKind.request) → is_some ev.method ≡ true
  pub from_server : (ev.kind ≡ EventKind.action) → ev.dir ≡ s2c
  pub seq : ev.seq ≡ meta.seq
  pub dir : ev.dir ≡ meta.dir
  pub offset : ev.byte_offset ≡ meta.byte_offset
  pub size : ev.byte_length ≡ meta.byte_length

make_parse_error_event-IsNormal :
    (meta : NormalizeMeta) (reason text : String)
    → IsNormal meta (make_parse_error_event meta reason text)
unfolding make_parse_error_event id_type_of
make_parse_error_event-IsNormal meta reason text = ground arith

build-IsNormal :
    (m : Json) (meta : NormalizeMeta) (method : Option String)
    → IsNormal meta (build m meta method (shape_of m method meta.dir))
unfolding build shape_of notification_shape make_parse_error_event
build-IsNormal m meta none = ground arith
build-IsNormal m meta (some method) = ground arith

-- Every event has the sequence number, direction and byte range of its line, an id type that is the
-- tag of its id, a parse error exactly when its kind says so, a server sequence number only on an
-- action, an action only from the server, and a method on each request.
pub normalize-IsNormal : (raw : Json) (meta : NormalizeMeta) → IsNormal meta (normalize raw meta)
unfolding normalize
normalize-IsNormal raw meta = elim (Bool-cases (is_object (some raw))) [
  | inl e ↦ rw e (build-IsNormal raw meta (as_string (get raw "method")))
  | inr e ↦ rw e (make_parse_error_event-IsNormal meta "non-object payload" _)
]

abbrev pub has_method : Json → Bool
has_method raw = is_some (as_string (get raw "method"))

abbrev pub Answers : Json → Type 0
Answers raw = (has raw "id" ≡ true) × ((has raw "result" ≡ true) ⊎ (has raw "error" ≡ true))

-- A message is read as a request exactly when it is an object with a text for its method and an id;
-- as a response exactly when it is an object with an id and a result or an error, and no text for
-- its method; it is refused exactly when it is no object, or has no text for its method and is no
-- such answer.
pub normalize-kind :
    (raw : Json) (meta : NormalizeMeta)
    → let kind = (normalize raw meta).kind in
      ((kind ≡ EventKind.request)
        ↔ ((is_object (some raw) ≡ true) × (has_method raw ≡ true) × (has raw "id" ≡ true)))
      × ((kind ≡ EventKind.response)
          ↔ ((is_object (some raw) ≡ true) × (has_method raw ≡ false) × Answers raw))
      × ((kind ≡ EventKind.parse_error)
          ↔ ((is_object (some raw) ≡ false) ⊎ ((has_method raw ≡ false) × ¬ Answers raw)))
unfolding normalize build shape_of notification_shape make_parse_error_event
normalize-kind raw meta = (ground arith, ground arith, ground arith)

abbrev pub method_of : Json → Option String
method_of raw = as_string (get raw "method")

-- an object with a method, for which no answer is wanted
abbrev pub Notifies : Json → Type 0
Notifies raw = (is_object (some raw) ≡ true) × (has_method raw ≡ true) × (has raw "id" ≡ false)

abbrev is_method : Option String → String → Bool
is_method none name = false
is_method (some method) name = str_eq method name

is_method_iff : (o : Option String) (name : String) → (is_method o name ≡ true) ↔ (o ≡ some name)
is_method_iff none name = (λ h. cc, λ h. cc)
is_method_iff (some method) name =
    (λ h. ap some ((eq_iff method name).0 h), λ h. (eq_iff method name).1 (some_injective h))

-- An event is an action exactly when its message is a notification by the server under the method
-- `action`, and a protocol notification exactly when it is one under `notification`; a client
-- notification exactly when it is a notification by the client, under whatever method, and a server
-- notification exactly when it is one by the server under any other method. Only an event of the first
-- two kinds has an action type.
pub normalize-notification :
    (raw : Json) (meta : NormalizeMeta)
    → let ev = normalize raw meta in
      ((ev.kind ≡ EventKind.action)
        ↔ (Notifies raw × (method_of raw ≡ some "action") × (meta.dir ≡ s2c)))
      × ((ev.kind ≡ EventKind.protocol_notification)
          ↔ (Notifies raw × (method_of raw ≡ some "notification") × (meta.dir ≡ s2c)))
      × ((ev.kind ≡ EventKind.client_notification) ↔ (Notifies raw × (meta.dir ≡ c2s)))
      × ((ev.kind ≡ EventKind.server_notification) ↔ (
          Notifies raw
          × (method_of raw ≢ some "action")
          × (method_of raw ≢ some "notification")
          × (meta.dir ≡ s2c)))
      × (is_some ev.action_type ≡ true
          → (ev.kind ≡ EventKind.action) ⊎ (ev.kind ≡ EventKind.protocol_notification))
unfolding normalize build shape_of notification_shape make_parse_error_event
normalize-notification raw meta =
    let a = is_method_iff (method_of raw) "action" in
    let n = is_method_iff (method_of raw) "notification" in
    (ground (arith, a, n), ground (arith, a, n), ground arith, ground (arith, a, n), ground arith)
