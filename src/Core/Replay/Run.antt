-- ===== src/Core/Replay/Run.antt =====
-- packages/core/src/replay.ts: one event of a log, and the replay up to a target.
use ahp_inspector.Base.{
  ℕ, suc, ◌-◌, String, Bool, true, false, ◌&&◌, Option, none, some, List, [], ◌∷◌, if◌then◌else◌,
  insert, string_eq, str_eq, or_else, map, length, ltb, take,
}
use ahp_inspector.Base.Int.{ℤ, pos, negsuc, pos_part}
use ahp_inspector.Base.Text.{append, show}
use ahp_inspector.Shared.Json.{Json, str}
use ahp_inspector.Shared.Event.{
  AhpEvent, ParseErrorDetail, request, response, action, c2s, ok, error,
}
use ahp_inspector.Shared.Event.EventKind.{parse_error as parse_error_kind}
use ahp_inspector.Shared.Correlation.{correlation_key_for_request}
use ahp_inspector.Core.Store.{kind_eq, dir_eq}
use ahp_inspector.Core.Replay.{
  ReplayDiagnostic, invalid_target_index, parse_error, ReplayResourceState, ReplayClientIntent,
  ReplayContext, Protocol, fresh_context, add_diagnostic, malformed, details_of,
}
use ahp_inspector.Core.Replay.Decode.{read_action_envelope}
use ahp_inspector.Core.Replay.Apply.{apply_envelope, warn}
use ahp_inspector.Core.Replay.Events.{in_record, process_response, record_client_intent}

parse_details : Option ParseErrorDetail → Option Json
parse_details none = none
parse_details (some detail) =
    details_of (("reason", some (str detail.reason)) ∷ ("rawText", some (str detail.raw_text)) ∷ [])

parse_reason : Option ParseErrorDetail → String
parse_reason none = "Parse error event encountered during replay"
parse_reason (some detail) = detail.reason

abbrev pub failed : AhpEvent → Bool
failed event = elim event.parse [ error ↦ true | ok ↦ kind_eq.beq event.kind parse_error_kind ]

unfoldable pub action_event : Protocol → ReplayContext → AhpEvent → ℕ → ReplayContext
unfolding apply_envelope read_action_envelope
action_event protocol ctx event event_idx =
    elim (read_action_envelope (in_record event.raw "params")) [
      | none ↦ malformed ctx event_idx "Server action event has malformed params"
      | some envelope ↦ apply_envelope protocol ctx envelope event_idx event.ts
    ]

unfoldable pub process_event : Protocol → ReplayContext → AhpEvent → ℕ → ReplayContext
unfolding action_event process_response record_client_intent insert add_diagnostic parse_details
    parse_reason correlation_key_for_request
process_event protocol ctx event event_idx =
    if failed event
    then add_diagnostic ctx (
        warn parse_error event_idx (parse_reason event.parse_error)
          (parse_details event.parse_error))
    else if kind_eq.beq event.kind request
    then record ctx {
      requests =
          insert (correlation_key_for_request event)
            (record {
              method = event.method;
              params = in_record event.raw "params";
              event_idx = event_idx;
            })
            ctx.requests;
    }
    else if kind_eq.beq event.kind response
    then process_response protocol ctx event event_idx
    else if dir_eq.beq event.dir c2s && str_eq (or_else event.method "") "dispatchAction"
    then record_client_intent protocol ctx event event_idx
    else if kind_eq.beq event.kind action
    then action_event protocol ctx event event_idx
    else ctx

-- the loop, from an index on
unfoldable pub replay_from : Protocol → ReplayContext → List AhpEvent → ℕ → ReplayContext
unfolding process_event
replay_from protocol ctx [] event_idx = ctx
replay_from protocol ctx (event ∷ events) event_idx =
    replay_from protocol (process_event protocol ctx event event_idx) events (suc event_idx)

pub record ReplayResult : Type 0 where
  pub target_index : ℤ
  pub resources : List ReplayResourceState
  pub intents : List ReplayClientIntent
  pub diagnostics : List ReplayDiagnostic

unfoldable pub in_range : ℤ → ℕ → Bool
in_range (pos n) size = ltb n size
in_range (negsuc n) size = false

unfoldable pub outside : ReplayContext → ℤ → ℕ → ReplayContext
unfolding add_diagnostic show
outside ctx target size = add_diagnostic ctx (
    warn invalid_target_index (pos_part target)
      (append "Target index "
        (append (show target) (append " is outside 0.." (show (pos (size - 1))))))
      none)

-- how many events a target takes in: a list has no more than its length
abbrev pub count_of : ℤ → ℕ
count_of (pos n) = suc n
count_of (negsuc n) = 0

-- `replayToIndex`, at an integer target
unfoldable pub replay_to_index : Protocol → List AhpEvent → ℤ → ReplayResult
unfolding replay_from in_range outside
replay_to_index protocol events target =
    let start =
      if in_range target (length events)
      then fresh_context
      else outside fresh_context target (length events) in
    let ctx = replay_from protocol start (take (count_of target) events) 0 in
    record {
      target_index = target;
      resources = map (λ entry. entry.1) ctx.resources;
      intents = ctx.intents;
      diagnostics = ctx.diagnostics;
    }
