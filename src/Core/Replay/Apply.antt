-- ===== src/Core/Replay/Apply.antt =====
-- packages/core/src/replay.ts: the application of an action envelope to its resource.
use ahp_inspector.Base.{
  ℕ, String, Bool, true, false, Option, none, some, List, [], ◌∷◌, if◌then◌else◌, not, lookup,
  insert, Map, string_eq, str_eq, or_else, is_none, ◌&&◌,
}
use ahp_inspector.Base.Int.{ℤ, pos, ◌+ℤ◌, eq_ℤ, ltb_ℤ}
use ahp_inspector.Base.Text.{append, show}
use ahp_inspector.Shared.Json.{Json, str, num, truthy}
use ahp_inspector.Core.Replay.{
  ReplayResourceKind, session, ReplayConfidence, missing_baseline, unknown_action, server_seq_gap,
  server_seq_duplicate, server_seq_out_of_order, scope_creep_blocked, ReplayDiagnosticCode, warning,
  ReplayDiagnostic, ReplayResourceKey, ReplayResourceState, ReplayClientIntent, ReplayContext,
  Protocol, kind_eq, kind_text, resource_map_key, add_diagnostic, malformed_envelope_with,
  put_resource, add_resource_diagnostic, details_of, text_or_null,
}
use ahp_inspector.Core.Replay.Decode.{
  DecodedActionEnvelope, action_type_of, read_known_action, infer_known_action_target,
  is_legacy_session_state,
}
use ahp_inspector.Core.Replay.Legacy.{apply_legacy_session_action}

abbrev pub warn : ReplayDiagnosticCode → ℕ → String → Option Json → ReplayDiagnostic
warn code event_idx message details = record {
  code = code;
  severity = warning;
  event_idx = event_idx;
  message = message;
  details = details;
}

abbrev pub key_json : ReplayResourceKey → Json
key_json key =
    or_else
      (details_of (("kind", some (str (kind_text key.kind))) ∷ ("uri", some (str key.uri)) ∷ []))
      Json.null

abbrev action_type_json : DecodedActionEnvelope → Json
action_type_json envelope = text_or_null (action_type_of (some envelope.action))

abbrev unsupported : DecodedActionEnvelope → ℕ → ReplayDiagnostic
unsupported envelope event_idx =
    warn unknown_action event_idx
      (append "Cannot apply unsupported action "
        (or_else (action_type_of (some envelope.action)) "(missing type)"))
      (some envelope.action)

abbrev blocked : ReplayResourceState → String → ReplayResourceKind → ℕ → ReplayDiagnostic
blocked resource type kind event_idx =
    warn scope_creep_blocked event_idx
      (append "Refusing to apply "
        (append type (append " to " (append (kind_text resource.key.kind) " state"))))
      (details_of (
        ("expected", some (str (kind_text kind)))
        ∷ ("actual", some (str (kind_text resource.key.kind)))
        ∷ []))

abbrev rejected : DecodedActionEnvelope → String → ℕ → ReplayDiagnostic
rejected envelope reason event_idx =
    malformed_envelope_with event_idx "Rejected action envelope is non-mutating" (
      details_of (
        ("rejectionReason", some (str reason))
        ∷ ("actionType", some (action_type_json envelope))
        ∷ []))

abbrev no_baseline : DecodedActionEnvelope → ReplayResourceKey → ℕ → ReplayDiagnostic
no_baseline envelope target event_idx =
    warn missing_baseline event_idx
      (append "No " (append (kind_text target.kind) (append " baseline for " target.uri)))
      (details_of (
        ("target", some (key_json target)) ∷ ("actionType", some (action_type_json envelope)) ∷ []))

seq_details : String → ℤ → ℤ → Option Json
seq_details name n actual = details_of ((name, some (num n)) ∷ ("actual", some (num actual)) ∷ [])

-- the diagnostic of a sequence number behind `last` that does not follow it, and whether the action
-- is applied nevertheless
unfoldable pub seq_diagnostic : String → ℤ → ℤ → ℕ → ReplayDiagnostic × Bool
unfolding seq_details show ◌+ℤ◌
seq_diagnostic uri last server_seq event_idx =
    if ltb_ℤ (last +ℤ pos 1) server_seq
    then (
      warn server_seq_gap event_idx
          (append "Server sequence gap for " (
            append uri (
              append ": expected "
                (append (show (last +ℤ pos 1)) (append ", saw " (show server_seq))))))
          (seq_details "expected" (last +ℤ pos 1) server_seq),
      true,
    )
    else if eq_ℤ server_seq last
    then (
      warn server_seq_duplicate event_idx
          (append "Duplicate server sequence " (append (show server_seq) (append " for " uri)))
          (seq_details "last" last server_seq),
      false,
    )
    else (
      warn server_seq_out_of_order event_idx
          (append "Out-of-order server sequence "
            (append (show server_seq) (append " after " (append (show last) (append " for " uri)))))
          (seq_details "last" last server_seq),
      false,
    )

pub record Decision : Type 0 where
  pub ctx : ReplayContext
  pub resource : ReplayResourceState
  pub apply : Bool

unfoldable pub checked : ReplayContext → ReplayResourceState → ReplayDiagnostic × Bool → Decision
unfolding add_resource_diagnostic
checked ctx resource (diagnostic, apply) =
    let (ctx', resource') = add_resource_diagnostic ctx resource diagnostic in
    record { ctx = ctx'; resource = resource'; apply = apply }

unfoldable pub should_apply_server_seq : ReplayContext → ReplayResourceState → ℤ → ℕ → Decision
unfolding checked seq_diagnostic ◌+ℤ◌
should_apply_server_seq ctx resource server_seq event_idx = elim resource.last_server_seq [
  | none ↦ record { ctx = ctx; resource = resource; apply = true }
  | some last ↦
      if eq_ℤ server_seq (last +ℤ pos 1)
      then record { ctx = ctx; resource = resource; apply = true }
      else checked ctx resource (seq_diagnostic resource.key.uri last server_seq event_idx)
]

-- the first intent of that number that no sequence number has been given yet
unfoldable pub accept : ℤ → ℤ → List ReplayClientIntent → List ReplayClientIntent
accept client_seq server_seq [] = []
accept client_seq server_seq (intent ∷ intents) =
    let same : Bool = elim intent.client_seq [ none ↦ false | some n ↦ eq_ℤ n client_seq ] in
    if same && is_none intent.accepted_by_server_seq
    then record intent { accepted_by_server_seq = some server_seq } ∷ intents
    else intent ∷ accept client_seq server_seq intents

unfoldable pub link_accepted_intent : ReplayContext → DecodedActionEnvelope → ReplayContext
unfolding accept
link_accepted_intent ctx envelope = elim envelope.origin [
  | none ↦ ctx
  | some origin ↦ record ctx { intents = accept origin.client_seq envelope.server_seq ctx.intents }
]

-- `[...resources.values()].find((candidate) => candidate.key.uri === uri)`
unfoldable pub find_uri : String → Map String ReplayResourceState → Option ReplayResourceState
find_uri uri [] = none
find_uri uri ((key, resource) ∷ resources) =
    if str_eq resource.key.uri uri then some resource else find_uri uri resources

abbrev pub target_of : Option String → String → ReplayResourceKey
unfolding infer_known_action_target
target_of none channel = record { kind = ReplayResourceKind.unknown; uri = channel }
target_of (some type) channel = infer_known_action_target type channel

unfoldable pub find_resource :
    ReplayContext → ReplayResourceKey → String → Option ReplayResourceState
unfolding lookup find_uri resource_map_key
find_resource ctx target channel = elim (lookup (resource_map_key target) ctx.resources) [
  | none ↦ find_uri channel ctx.resources
  | some resource ↦ some resource
]

-- the new state of a resource, and the messages logged on the way
unfoldable pub reduce_state :
    Protocol → ReplayResourceState → Json → String → ℤ → Json × List String
unfolding is_legacy_session_state apply_legacy_session_action
reduce_state protocol resource action type event_ts =
    if kind_eq resource.key.kind session && is_legacy_session_state resource.state
    then elim (apply_legacy_session_action resource.state action event_ts) [
      | none ↦ (resource.state, append "Unsupported historical session action: " type ∷ [])
      | some state ↦ (state, [])
    ]
    else if kind_eq resource.key.kind ReplayResourceKind.unknown
    then (resource.state, [])
    else protocol.reduce resource.key.kind resource.state action

abbrev pub logged : String → ℕ → String → ReplayDiagnostic
logged type event_idx message =
    warn unknown_action event_idx message (details_of (("actionType", some (str type)) ∷ []))

-- the messages of a reducer, each as a diagnostic of the resource
unfoldable pub add_logged :
    ReplayContext → ReplayResourceState → ℕ → String → List String → ReplayContext
unfolding add_resource_diagnostic
add_logged ctx resource event_idx type [] = ctx
add_logged ctx resource event_idx type (message ∷ messages) =
    let (ctx', resource') = add_resource_diagnostic ctx resource (logged type event_idx message) in
    add_logged ctx' resource' event_idx type messages

-- an action that cannot be applied, after its sequence number passed
unfoldable pub refuse : ReplayContext → ReplayResourceState → ℤ → ReplayDiagnostic → ReplayContext
unfolding add_resource_diagnostic insert
refuse ctx resource server_seq diagnostic =
    let (ctx', resource') = add_resource_diagnostic ctx resource diagnostic in
    put_resource ctx' (record resource' {
      last_server_seq = some server_seq;
      confidence = ReplayConfidence.unknown;
    })

unfoldable pub reduce_resource :
    Protocol
    → ReplayContext
    → ReplayResourceState
    → DecodedActionEnvelope
    → String
    → ℕ
    → ℤ
    → ReplayContext
unfolding reduce_state add_logged insert
reduce_resource protocol ctx resource envelope type event_idx event_ts =
    let (state, messages) = reduce_state protocol resource envelope.action type event_ts in
    let changed = record resource {
      state = state;
      last_applied_event_idx = event_idx;
      last_server_seq = some envelope.server_seq;
    } in
    add_logged (put_resource ctx changed) changed event_idx type messages

-- behind the check of the sequence number
unfoldable pub apply_accepted :
    Protocol → ReplayContext → ReplayResourceState → DecodedActionEnvelope → ℕ → ℤ → ReplayContext
unfolding reduce_resource refuse read_known_action infer_known_action_target
apply_accepted protocol ctx resource envelope event_idx event_ts =
    elim (read_known_action protocol (some envelope.action)) [
      | none ↦ refuse ctx resource envelope.server_seq (unsupported envelope event_idx)
      | some type ↦
          let kind = (infer_known_action_target type envelope.channel).kind in
          if kind_eq kind ReplayResourceKind.unknown
          then refuse ctx resource envelope.server_seq (unsupported envelope event_idx)
          else if not (kind_eq resource.key.kind kind)
          then refuse ctx resource envelope.server_seq (blocked resource type kind event_idx)
          else reduce_resource protocol ctx resource envelope type event_idx event_ts
    ]

unfoldable pub apply_to :
    Protocol → ReplayContext → ReplayResourceState → DecodedActionEnvelope → ℕ → ℤ → ReplayContext
unfolding apply_accepted should_apply_server_seq link_accepted_intent add_resource_diagnostic truthy
apply_to protocol ctx resource envelope event_idx event_ts =
    elim (truthy envelope.rejection_reason) [
      | some reason ↦ (add_resource_diagnostic ctx resource (rejected envelope reason event_idx)).0
      | none ↦
          let decision = should_apply_server_seq ctx resource envelope.server_seq event_idx in
          if decision.apply
          then apply_accepted protocol (link_accepted_intent decision.ctx envelope)
              decision.resource envelope event_idx event_ts
          else decision.ctx
    ]

unfoldable pub apply_envelope :
    Protocol → ReplayContext → DecodedActionEnvelope → ℕ → ℤ → ReplayContext
unfolding apply_to find_resource add_diagnostic read_known_action infer_known_action_target
apply_envelope protocol ctx envelope event_idx event_ts =
    let target = target_of (read_known_action protocol (some envelope.action)) envelope.channel in
    elim (find_resource ctx target envelope.channel) [
      | none ↦ add_diagnostic ctx (no_baseline envelope target event_idx)
      | some resource ↦ apply_to protocol ctx resource envelope event_idx event_ts
    ]
