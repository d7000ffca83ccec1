-- ===== src/Tests/Replay.antt =====
-- A replay at a concrete log: the snapshots of an initialize response, an action, and one that comes
-- twice.
use ahp_inspector.Base.{
  insert, map, none, some, List, [], ◌∷◌, ◌++◌, ◌≡◌, refl, arith, true, All, IsMap, lookup,
  string_eq,
}
use ahp_inspector.Base.Int.{◌+ℤ◌, pos}
use ahp_inspector.Shared.Json.{
  truthy, as_array, as_number, as_string, as_record, get, Json, obj, field, end, str, num, arr,
  cons, nil,
}
use ahp_inspector.Shared.Event.{AhpEvent, c2s, s2c}
use ahp_inspector.Parser.Normalizer.{normalize}
use ahp_inspector.Core.Replay.{
  add_resource_diagnostic, add_diagnostic, server_seq_duplicate, Protocol, ReplayContext,
  ReplayResourceKey, ReplayResourceState, root, complete, fresh_context, resource_map_key,
}
use ahp_inspector.Core.Replay.Decode.{
  is_legacy_session_state, read_known_action, infer_known_action_target, kind_of_action,
  infer_snapshot_kind, read_action_envelope, action_type_of, read_snapshot, DecodedActionEnvelope,
}
use ahp_inspector.Core.Replay.Apply.{
  apply_to, apply_accepted, reduce_resource, refuse, add_logged, reduce_state, find_resource,
  link_accepted_intent, should_apply_server_seq, checked, seq_diagnostic, apply_envelope,
}
use ahp_inspector.Core.Replay.Confidence.{IsValid}
use ahp_inspector.Core.Replay.Tracking.{Advances}
use ahp_inspector.Core.Replay.Run.{
  replay_from, process_event, action_event, in_range, replay_to_index,
}
use ahp_inspector.Core.Replay.Sequence.{apply_envelope-Advances}
use ahp_inspector.Core.Replay.Prefix.{replay_to_index-append}
use ahp_inspector.Core.Replay.Resources.{IsReplayed, keyed, replay_to_index-IsReplayed}
use ahp_inspector.Core.Replay.Snapshots.{
  install_snapshots, install_snapshot, install_decoded, baseline,
}
use ahp_inspector.Core.Replay.Events.{process_response, result_of, snapshots_of}
use ahp_inspector.Shared.Correlation.{
  id_text, make_correlation_key, correlation_key_for_response, correlation_key_for_request,
}
use ahp_inspector.Base.Text.{show}
use ahp_inspector.Parser.Extract.{extract_turn_id, extract_session_id}
use ahp_inspector.Tests.Samples.{meta_of}

-- a protocol whose reducers keep the last action
abbrev pub protocol : Protocol
protocol = record { introduced = λ type. true; reduce = λ kind state action. (action, []) }

abbrev root_key : ReplayResourceKey
root_key = record { kind = root; uri = "agenthost:/root" }

abbrev root_resource : ReplayResourceState
root_resource = record {
  key = root_key;
  state = obj (field "agents" (arr nil) end);
  baseline_event_idx = 0;
  last_applied_event_idx = 0;
  baseline_from_seq = some (pos 3);
  last_server_seq = some (pos 3);
  confidence = complete;
  diagnostics = [];
}

abbrev context : ReplayContext
context = record fresh_context { resources = (resource_map_key root_key, root_resource) ∷ [] }

abbrev agents_changed : Json
agents_changed = obj (field "type" (str "root/agentsChanged") end)

abbrev envelope : DecodedActionEnvelope
envelope = record {
  channel = "agenthost:/root";
  action = agents_changed;
  server_seq = pos 4;
  origin = none;
  rejection_reason = none;
}

context-IsValid : IsValid 1 context
unfolding lookup
context-IsValid = record {
  unique = (refl, tt);
  sound =
      (record { keyed = refl; clean = λ _. refl; ordered = omega arith; past = omega arith }, tt);
}

apply_envelope-Advances_example :
    (s : ReplayResourceState) × (lookup
        (resource_map_key root_key)
        (apply_envelope protocol context envelope 1 (pos 50)).resources
      ≡ some s)
    × Advances root_resource s
unfolding lookup resource_map_key
apply_envelope-Advances_example =
    apply_envelope-Advances protocol envelope 1 (pos 50) context (resource_map_key root_key)
      root_resource context-IsValid refl

-- the log: a request, its response with a snapshot, an action
abbrev pub initialize : AhpEvent
initialize =
    normalize (obj (field "id" (num (pos 1)) (field "method" (str "initialize") end)))
      (meta_of 0 c2s)

abbrev snapshot : Json
snapshot = obj (
    field "resource" (str "agenthost:/root")
      (field "state" (obj (field "agents" (arr nil) end)) (field "fromSeq" (num (pos 3)) end)))

abbrev pub initialized : AhpEvent
initialized =
    normalize
      (obj (
        field "id" (num (pos 1))
          (field "result" (obj (field "snapshots" (arr (cons snapshot nil)) end)) end)))
      (meta_of 1 s2c)

abbrev params : Json
params = obj (
    field "channel" (str "agenthost:/root")
      (field "serverSeq" (num (pos 4)) (field "action" agents_changed end)))

abbrev pub acted : AhpEvent
acted = normalize (obj (field "method" (str "action") (field "params" params end))) (meta_of 2 s2c)

abbrev pub log : List AhpEvent
log = initialize ∷ initialized ∷ acted ∷ []

replay_to_index-IsReplayed_example :
    All (IsReplayed 2) (replay_to_index protocol (log ++ acted ∷ []) (pos 2)).resources
    × IsMap (keyed (replay_to_index protocol (log ++ acted ∷ []) (pos 2)).resources)
replay_to_index-IsReplayed_example = replay_to_index-IsReplayed protocol (log ++ acted ∷ []) (pos 2)

replay_to_index-append_example :
    replay_to_index protocol (log ++ acted ∷ []) (pos 2) ≡ replay_to_index protocol log (pos 2)
replay_to_index-append_example = replay_to_index-append protocol log (acted ∷ []) 2 (omega arith)

-- the action is applied to the snapshot, and its sequence number kept
sequence_test :
    map (λ resource. resource.last_server_seq) (replay_to_index protocol log (pos 2)).resources
    ≡ some (pos 4) ∷ []
unfolding replay_to_index normalize resource_map_key add_diagnostic add_resource_diagnostic
    read_snapshot action_type_of read_action_envelope infer_snapshot_kind kind_of_action
    infer_known_action_target read_known_action is_legacy_session_state baseline install_decoded
    install_snapshot install_snapshots seq_diagnostic checked should_apply_server_seq
    link_accepted_intent find_resource reduce_state add_logged refuse reduce_resource apply_accepted
    apply_to apply_envelope snapshots_of result_of process_response in_range action_event
    process_event replay_from get as_record as_string as_number as_array truthy
    correlation_key_for_request correlation_key_for_response make_correlation_key id_text show
    lookup insert ◌+ℤ◌ extract_session_id extract_turn_id
sequence_test = refl

-- the action comes twice: the second is refused with a warning
duplicate_test :
    map
      (λ diagnostic. diagnostic.code)
      (replay_to_index protocol (log ++ acted ∷ []) (pos 3)).diagnostics
    ≡ server_seq_duplicate ∷ []
unfolding replay_to_index normalize resource_map_key add_diagnostic add_resource_diagnostic
    read_snapshot action_type_of read_action_envelope infer_snapshot_kind kind_of_action
    infer_known_action_target read_known_action is_legacy_session_state baseline install_decoded
    install_snapshot install_snapshots seq_diagnostic checked should_apply_server_seq
    link_accepted_intent find_resource reduce_state add_logged refuse reduce_resource apply_accepted
    apply_to apply_envelope snapshots_of result_of process_response in_range action_event
    process_event replay_from get as_record as_string as_number as_array truthy
    correlation_key_for_request correlation_key_for_response make_correlation_key id_text show
    lookup insert ◌+ℤ◌ extract_session_id extract_turn_id
duplicate_test = refl
