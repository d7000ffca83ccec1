-- ===== src/Core/Replay/Invariant.antt =====
-- The invariant of a replay's resources at every event.
use ahp_inspector.Base.{
  ℕ, String, Option, none, some, List, [], ◌∷◌, ◌≡◌, refl, ◌∙◌, arith, lookup, string_eq, str_eq,
  if-cases, option-cases, ◌&&◌, or_else,
}
use ahp_inspector.Base.Int.{ℤ}
use ahp_inspector.Shared.Json.{Json, as_array, get, as_record}
use ahp_inspector.Shared.Event.{AhpEvent, request, response, action, c2s}
use ahp_inspector.Shared.Correlation.{correlation_key_for_response}
use ahp_inspector.Core.Store.{kind_eq, dir_eq}
use ahp_inspector.Core.Replay.{
  Protocol, ReplayContext, ReplayResourceState, ReplayResourceKind, ReplayResourceKey,
  resource_map_key, add_diagnostic, malformed,
}
use ahp_inspector.Core.Replay.{kind_eq as same_kind}
use ahp_inspector.Core.Replay.Decode.{
  DecodedSnapshot, DecodedActionEnvelope, read_snapshot, infer_snapshot_kind, read_known_action,
  read_action_envelope, action_type_of,
}
use ahp_inspector.Core.Replay.Snapshots.{
  install_decoded, install_snapshot, install_snapshots, baseline,
}
use ahp_inspector.Core.Replay.Apply.{find_resource, apply_envelope, target_of}
use ahp_inspector.Core.Replay.Events.{
  in_record, report_missing, apply_entries, replay_result, snapshots_of, reconnect,
  process_reconnect_result, subscribed, result_of, process_response, record_client_intent,
}
use ahp_inspector.Core.Replay.Run.{failed, action_event, process_event}
use ahp_inspector.Core.Replay.Confidence.{
  IsValid, Sound, put-IsValid, same-IsValid, find_uri-Sound, lookup-Sound, apply_to-IsValid,
}

module _ (i : ℕ) where
  malformed-IsValid :
      (ctx : ReplayContext) (message : String) → IsValid i ctx → IsValid i (malformed ctx i message)
  unfolding add_diagnostic
  malformed-IsValid ctx message v = same-IsValid ctx _ refl v

  install_decoded-IsValid :
      (ctx : ReplayContext) (snapshot : DecodedSnapshot)
      → IsValid i ctx
      → IsValid i (install_decoded ctx snapshot i)
  unfolding install_decoded baseline add_diagnostic
  install_decoded-IsValid ctx snapshot v =
      if-cases (IsValid i) (same_kind (infer_snapshot_kind snapshot) ReplayResourceKind.unknown) _ _
        (λ _. put-IsValid i _ _ (same-IsValid ctx _ refl v) (record {
          keyed = refl;
          clean = λ c. absurd (ground (arith, c));
          ordered = omega arith;
          past = omega arith;
        }))
        (λ _.
          put-IsValid i ctx _ v
            (record { keyed = refl; clean = λ c. refl; ordered = omega arith; past = omega arith }))

  install_snapshot-IsValid :
      (ctx : ReplayContext) (value : Json)
      → IsValid i ctx
      → IsValid i (install_snapshot ctx value i)
  unfolding install_snapshot
  install_snapshot-IsValid ctx value v =
      option-cases (IsValid i) (read_snapshot value) _ _ (λ _. malformed-IsValid ctx _ v)
        (λ snapshot _. install_decoded-IsValid ctx snapshot v)

  install_snapshots-IsValid :
      (values : List Json) (ctx : ReplayContext)
      → IsValid i ctx
      → IsValid i (install_snapshots ctx values i)
  unfolding install_snapshots
  install_snapshots-IsValid [] ctx v = v
  install_snapshots-IsValid (value ∷ values) ctx v =
      install_snapshots-IsValid values _ (install_snapshot-IsValid ctx value v)

  found_resource-Sound :
      (ctx : ReplayContext) (target : ReplayResourceKey) (channel : String)
      (resource : ReplayResourceState)
      → IsValid i ctx
      → find_resource ctx target channel ≡ some resource
      → Sound i resource
  unfolding find_resource
  found_resource-Sound ctx target channel resource v =
      option-cases (λ o. o ≡ some resource → Sound i resource)
        (lookup (resource_map_key target) ctx.resources) _ _
        (λ _ found. find_uri-Sound i channel ctx.resources resource v.sound found)
        (λ r hit same. lookup-Sound i _ ctx.resources resource v.sound (hit ∙ same))

  module _ (protocol : Protocol) where
    apply_envelope-IsValid :
        (ctx : ReplayContext) (envelope : DecodedActionEnvelope) (ts : ℤ)
        → IsValid i ctx
        → IsValid i (apply_envelope protocol ctx envelope i ts)
    unfolding apply_envelope find_resource add_diagnostic
    apply_envelope-IsValid ctx envelope ts v =
        let target =
          target_of (read_known_action protocol (some envelope.action)) envelope.channel in
        option-cases (IsValid i) (find_resource ctx target envelope.channel) _ _
          (λ _. same-IsValid ctx _ refl v)
          (λ resource found.
            apply_to-IsValid i protocol ctx resource envelope ts v
              (found_resource-Sound ctx target envelope.channel resource v found))

    report_missing-IsValid :
        (ms : List Json) (ctx : ReplayContext) → IsValid i ctx → IsValid i (report_missing ctx ms i)
    unfolding report_missing add_diagnostic
    report_missing-IsValid [] ctx v = v
    report_missing-IsValid (m ∷ ms) ctx v = report_missing-IsValid ms _ (same-IsValid ctx _ refl v)

    apply_entries-IsValid :
        (entries : List Json) (ctx : ReplayContext) (ts : ℤ)
        → IsValid i ctx
        → IsValid i (apply_entries protocol ctx entries i ts)
    unfolding apply_entries
    apply_entries-IsValid [] ctx ts v = v
    apply_entries-IsValid (entry ∷ entries) ctx ts v = apply_entries-IsValid entries _ ts (
        option-cases (IsValid i) (read_action_envelope (some entry)) _ _
          (λ _. malformed-IsValid ctx "Reconnect replay contains malformed action envelope" v)
          (λ envelope _. apply_envelope-IsValid ctx envelope ts v))

    replay_result-IsValid :
        (ctx : ReplayContext) (result : Json) (ts : ℤ)
        → IsValid i ctx
        → IsValid i (replay_result protocol ctx result i ts)
    unfolding replay_result
    replay_result-IsValid ctx result ts v =
        let v' = report_missing-IsValid (or_else (as_array (get result "missing")) []) ctx v in
        option-cases (IsValid i) (as_array (get result "actions")) _ _
          (λ _. malformed-IsValid _ "Reconnect replay response has malformed actions" v')
          (λ entries _. apply_entries-IsValid entries _ ts v')

    snapshots_of-IsValid :
        (ctx : ReplayContext) (values : Option (List Json)) (message : String)
        → IsValid i ctx
        → IsValid i (snapshots_of ctx values i message)
    unfolding snapshots_of
    snapshots_of-IsValid ctx none message v = malformed-IsValid ctx message v
    snapshots_of-IsValid ctx (some values) message v = install_snapshots-IsValid values ctx v

    reconnect-IsValid :
        (ctx : ReplayContext) (result : Option Json) (type : Option String) (ts : ℤ)
        → IsValid i ctx
        → IsValid i (reconnect protocol ctx result type i ts)
    unfolding reconnect
    reconnect-IsValid ctx none type ts v = malformed-IsValid ctx _ v
    reconnect-IsValid ctx (some result) none ts v = malformed-IsValid ctx _ v
    reconnect-IsValid ctx (some result) (some type) ts v =
        if-cases (IsValid i) (str_eq type "snapshot") _ _
          (λ _. snapshots_of-IsValid ctx (as_array (get result "snapshots")) _ v)
          (λ _.
            if-cases (IsValid i) (str_eq type "replay") _ _
              (λ _. replay_result-IsValid ctx result ts v)
              (λ _. malformed-IsValid ctx "Reconnect response has unknown result type" v))

    subscribed-IsValid :
        (ctx : ReplayContext) (snapshot : Option Json)
        → IsValid i ctx
        → IsValid i (subscribed ctx snapshot i)
    unfolding subscribed
    subscribed-IsValid ctx none v = malformed-IsValid ctx _ v
    subscribed-IsValid ctx (some snapshot) v = install_snapshot-IsValid ctx snapshot v

    result_of-IsValid :
        (ctx : ReplayContext) (method : Option String) (result : Json) (ts : ℤ)
        → IsValid i ctx
        → IsValid i (result_of protocol ctx method result i ts)
    unfolding result_of process_reconnect_result
    result_of-IsValid ctx none result ts v = v
    result_of-IsValid ctx (some method) result ts v =
        if-cases (IsValid i) (str_eq method "initialize") _ _
          (λ _. snapshots_of-IsValid ctx (as_array (in_record (some result) "snapshots")) _ v)
          (λ _.
            if-cases (IsValid i) (str_eq method "subscribe") _ _
              (λ _. subscribed-IsValid ctx (in_record (some result) "snapshot") v)
              (λ _.
                if-cases (IsValid i) (str_eq method "reconnect") _ _
                  (λ _.
                    reconnect-IsValid ctx (as_record (some result)) (action_type_of (some result))
                      ts v)
                  (λ _. v)))

    pub process_event-IsValid :
        (ctx : ReplayContext) (event : AhpEvent)
        → IsValid i ctx
        → IsValid i (process_event protocol ctx event i)
    unfolding process_event process_response record_client_intent action_event add_diagnostic
    process_event-IsValid ctx event v =
        if-cases (IsValid i) (failed event) _ _ (λ _. same-IsValid ctx _ refl v)
          (λ _.
            if-cases (IsValid i) (kind_eq.beq event.kind request) _ _
              (λ _. same-IsValid ctx _ refl v)
              (λ _.
                if-cases (IsValid i) (kind_eq.beq event.kind response) _ _
                  (λ _.
                    option-cases (IsValid i)
                      (lookup (correlation_key_for_response event) ctx.requests) _ _ (λ _. v)
                      (λ asked _.
                        option-cases (IsValid i) (in_record event.raw "result") _ _ (λ _. v)
                          (λ result _. result_of-IsValid ctx asked.method result event.ts v)))
                  (λ _.
                    if-cases (IsValid i)
                      (dir_eq.beq event.dir c2s
                        && str_eq (or_else event.method "") "dispatchAction")
                      _ _ (λ _. same-IsValid ctx _ refl v)
                      (λ _.
                        if-cases (IsValid i) (kind_eq.beq event.kind action) _ _
                          (λ _.
                            option-cases (IsValid i)
                              (read_action_envelope (in_record event.raw "params")) _ _
                              (λ _.
                                malformed-IsValid ctx "Server action event has malformed params" v)
                              (λ envelope _. apply_envelope-IsValid ctx envelope event.ts v))
                          (λ _. v)))))
