-- ===== src/Core/Replay/Events.antt =====
-- packages/core/src/replay.ts: the events of a log, one after the other.
use ahp_inspector.Base.{
  ℕ, String, true, false, Option, none, some, List, [], ◌∷◌, ◌++◌, if◌then◌else◌, lookup, string_eq,
  str_eq, or_else,
}
use ahp_inspector.Base.Int.{ℤ}
use ahp_inspector.Base.Text.{append, show}
use ahp_inspector.Shared.Json.{
  Json, Items, nil, cons, null, bool, num, str, arr, obj, get, as_record, as_string, as_number,
  as_array, truthy,
}
use ahp_inspector.Shared.Event.{AhpEvent}
use ahp_inspector.Shared.Correlation.{correlation_key_for_response}
use ahp_inspector.Core.Store.{kind_eq, dir_eq}
use ahp_inspector.Core.Replay.{
  ignored_client_intent, reconnect_missing_resource, info, ReplayResourceKey, ReplayClientIntent,
  ReplayContext, Protocol, add_diagnostic, malformed, details_of, text_or_null,
}
use ahp_inspector.Core.Replay.Decode.{action_type_of, read_action_envelope, read_known_action}
use ahp_inspector.Core.Replay.Snapshots.{install_snapshot, install_snapshots}
use ahp_inspector.Core.Replay.Apply.{apply_envelope, target_of, warn, key_json}

-- `String(value)` of a parsed value
mutual
  text_of : Json → String
  text_of null = "null"
  text_of (bool true) = "true"
  text_of (bool false) = "false"
  text_of (num n) = show n
  text_of (str s) = s
  text_of (arr xs) = join_items xs
  text_of (obj fs) = "[object Object]"

  join_items : Items → String
  join_items nil = ""
  join_items (cons x nil) = element x
  join_items (cons x (cons y xs)) = append (element x) (append "," (join_items (cons y xs)))

  -- an element of an array: null is written as nothing
  element : Json → String
  element null = ""
  element (bool b) = if b then "true" else "false"
  element (num n) = show n
  element (str s) = s
  element (arr xs) = join_items xs
  element (obj fs) = "[object Object]"

unfoldable pub report_missing : ReplayContext → List Json → ℕ → ReplayContext
unfolding add_diagnostic text_of
report_missing ctx [] event_idx = ctx
report_missing ctx (missing ∷ ms) event_idx =
    report_missing
      (add_diagnostic ctx (
        warn reconnect_missing_resource event_idx
          (append "Reconnect could not resume resource " (text_of missing)) (some missing)))
      ms event_idx

unfoldable pub apply_entries : Protocol → ReplayContext → List Json → ℕ → ℤ → ReplayContext
unfolding apply_envelope read_action_envelope
apply_entries protocol ctx [] event_idx event_ts = ctx
apply_entries protocol ctx (entry ∷ entries) event_idx event_ts =
    let next : ReplayContext = elim (read_action_envelope (some entry)) [
      | none ↦ malformed ctx event_idx "Reconnect replay contains malformed action envelope"
      | some envelope ↦ apply_envelope protocol ctx envelope event_idx event_ts
    ] in
    apply_entries protocol next entries event_idx event_ts

-- the missing resources of a reconnect, if they are listed, and then its actions
unfoldable pub replay_result : Protocol → ReplayContext → Json → ℕ → ℤ → ReplayContext
unfolding report_missing apply_entries
replay_result protocol ctx result event_idx event_ts =
    let reported = report_missing ctx (or_else (as_array (get result "missing")) []) event_idx in
    elim (as_array (get result "actions")) [
      | none ↦ malformed reported event_idx "Reconnect replay response has malformed actions"
      | some entries ↦ apply_entries protocol reported entries event_idx event_ts
    ]

unfoldable pub snapshots_of : ReplayContext → Option (List Json) → ℕ → String → ReplayContext
unfolding install_snapshots
snapshots_of ctx none event_idx message = malformed ctx event_idx message
snapshots_of ctx (some values) event_idx message = install_snapshots ctx values event_idx

unfoldable pub reconnect :
    Protocol → ReplayContext → Option Json → Option String → ℕ → ℤ → ReplayContext
unfolding replay_result snapshots_of
reconnect protocol ctx (some result) (some type) event_idx event_ts =
    if str_eq type "snapshot"
    then snapshots_of ctx (as_array (get result "snapshots")) event_idx
        "Reconnect snapshot response has malformed snapshots"
    else if str_eq type "replay"
    then replay_result protocol ctx result event_idx event_ts
    else malformed ctx event_idx "Reconnect response has unknown result type"
reconnect protocol ctx _ _ event_idx event_ts =
    malformed ctx event_idx "Reconnect response has malformed result"

unfoldable pub process_reconnect_result : Protocol → ReplayContext → Json → ℕ → ℤ → ReplayContext
unfolding reconnect action_type_of
process_reconnect_result protocol ctx result event_idx event_ts =
    reconnect protocol ctx (as_record (some result)) (action_type_of (some result)) event_idx
      event_ts

unfoldable pub subscribed : ReplayContext → Option Json → ℕ → ReplayContext
unfolding install_snapshot
subscribed ctx none event_idx = malformed ctx event_idx "Subscribe response has malformed snapshot"
subscribed ctx (some snapshot) event_idx = install_snapshot ctx snapshot event_idx

abbrev pub in_record : Option Json → String → Option Json
in_record value key = elim (as_record value) [ none ↦ none | some fields ↦ get fields key ]

-- the result of a request, by the method that was asked for
unfoldable pub result_of : Protocol → ReplayContext → Option String → Json → ℕ → ℤ → ReplayContext
unfolding process_reconnect_result snapshots_of subscribed
result_of protocol ctx none result event_idx event_ts = ctx
result_of protocol ctx (some method) result event_idx event_ts =
    if str_eq method "initialize"
    then snapshots_of ctx (as_array (in_record (some result) "snapshots")) event_idx
        "Initialize response has malformed snapshots"
    else if str_eq method "subscribe"
    then subscribed ctx (in_record (some result) "snapshot") event_idx
    else if str_eq method "reconnect"
    then process_reconnect_result protocol ctx result event_idx event_ts
    else ctx

unfoldable pub process_response : Protocol → ReplayContext → AhpEvent → ℕ → ReplayContext
unfolding result_of lookup correlation_key_for_response
process_response protocol ctx event event_idx =
    elim (lookup (correlation_key_for_response event) ctx.requests) [
      | none ↦ ctx
      | some asked ↦ elim (in_record event.raw "result") [
        | none ↦ ctx
        | some result ↦ result_of protocol ctx asked.method result event_idx event.ts
      ]
    ]

-- what a client's intent is about: an action and a channel that is not empty
intent_resource : Protocol → Option Json → Option String → Option ReplayResourceKey
unfolding read_known_action
intent_resource protocol (some act) (some channel) =
    some (target_of (read_known_action protocol (some act)) channel)
intent_resource protocol _ _ = none

unfoldable pub record_client_intent : Protocol → ReplayContext → AhpEvent → ℕ → ReplayContext
unfolding intent_resource add_diagnostic action_type_of truthy
record_client_intent protocol ctx event event_idx =
    let params = in_record event.raw "params" in
    let act = as_record (in_record params "action") in
    let client_seq = as_number (in_record params "clientSeq") in
    let action_type = action_type_of act in
    let resource = intent_resource protocol act (truthy (as_string (in_record params "channel"))) in
    let intent : ReplayClientIntent = record {
      event_idx = event_idx;
      ts = event.ts;
      client_seq = client_seq;
      action_type = action_type;
      resource = resource;
      accepted_by_server_seq = none;
    } in
    add_diagnostic (record ctx { intents = ctx.intents ++ intent ∷ [] })
      (record {
        code = ignored_client_intent;
        severity = info;
        event_idx = event_idx;
        message = "Client dispatchAction intent is visible but non-mutating";
        details = details_of (
            ("clientSeq", some (elim client_seq [ none ↦ null | some n ↦ num n ]))
            ∷ ("actionType", some (text_or_null action_type))
            ∷ ("resource", some (elim resource [ none ↦ null | some key ↦ key_json key ]))
            ∷ []);
      })
