-- ===== src/Core/Replay/Confidence.antt =====
-- What an action envelope does to a resource: the invariant of the resources of a replay.
use ahp_inspector.Base.{
  ℕ, ◌≤◌, String, Bool, some, List, [], ◌∷◌, ◌≡◌, refl, sym, subst, arith, All, Map, IsMap, lookup,
  string_eq, insert-IsMap, All-insert, str_eq, if-cases, option-cases, not,
}
use ahp_inspector.Base.Int.{ℤ, pos, eq_ℤ, ◌+ℤ◌}
use ahp_inspector.Shared.Json.{truthy}
use ahp_inspector.Core.Replay.{
  Protocol, ReplayContext, ReplayResourceState, ReplayDiagnostic, warning, complete,
  ReplayResourceKind, resource_map_key, kind_eq, put_resource, add_diagnostic,
  add_resource_diagnostic, noted,
}
use ahp_inspector.Core.Replay.Decode.{
  DecodedActionEnvelope, read_known_action, infer_known_action_target,
}
use ahp_inspector.Core.Replay.Apply.{
  should_apply_server_seq, Decision, find_uri, checked, seq_diagnostic, refuse, reduce_resource,
  reduce_state, add_logged, apply_accepted, apply_to, link_accepted_intent, logged,
}

-- An entry stands under the key of its resource, is called complete only if it has no diagnostics, and
-- was applied to last between its baseline and the event `i`.
pub record IsSound (i : ℕ) (entry : String × ReplayResourceState) : Type 0 where
  pub keyed : entry.0 ≡ resource_map_key entry.1.key
  pub clean : entry.1.confidence ≡ complete → entry.1.diagnostics ≡ []
  pub ordered : entry.1.baseline_event_idx ≤ entry.1.last_applied_event_idx
  pub past : entry.1.last_applied_event_idx ≤ i

pub record IsValid (i : ℕ) (ctx : ReplayContext) : Type 0 where
  pub unique : IsMap ctx.resources
  pub sound : All (IsSound i) ctx.resources

abbrev pub Sound : ℕ → ReplayResourceState → Type 0
Sound i resource = IsSound i (resource_map_key resource.key, resource)

pub put-IsValid :
    (i : ℕ) (ctx : ReplayContext) (resource : ReplayResourceState)
    → IsValid i ctx
    → Sound i resource
    → IsValid i (put_resource ctx resource)
put-IsValid i ctx resource v s = record {
  unique = insert-IsMap _ resource ctx.resources v.unique;
  sound = All-insert (IsSound i) _ resource ctx.resources v.sound s;
}

-- a context and a resource of it, both as they should be
abbrev Pair : ℕ → ReplayContext × ReplayResourceState → Type 0
Pair i (ctx, resource) = IsValid i ctx × Sound i resource

noted-Sound :
    (i : ℕ) (resource : ReplayResourceState) (d : ReplayDiagnostic)
    → d.severity ≡ warning
    → Sound i resource
    → Sound i (noted resource d)
noted-Sound i resource d w s = record {
  keyed = refl;
  clean = λ c. absurd (ground (arith, c, w));
  ordered = s.ordered;
  past = s.past;
}

add_resource_diagnostic-Pair :
    (i : ℕ) (ctx : ReplayContext) (resource : ReplayResourceState) (d : ReplayDiagnostic)
    → d.severity ≡ warning
    → IsValid i ctx
    → Sound i resource
    → Pair i (add_resource_diagnostic ctx resource d)
unfolding add_resource_diagnostic add_diagnostic
add_resource_diagnostic-Pair i ctx resource d w v s =
    let s' = noted-Sound i resource d w s in
    let v' = put-IsValid i ctx (noted resource d) v s' in
    (record { unique = v'.unique; sound = v'.sound }, s')

-- a context whose resources are those of another
pub same-IsValid :
    {i : ℕ} (ctx ctx' : ReplayContext)
    → ctx'.resources ≡ ctx.resources
    → IsValid i ctx
    → IsValid i ctx'
same-IsValid {i} ctx ctx' e v = record {
  unique = subst IsMap (sym e) v.unique;
  sound = subst (All (IsSound i)) (sym e) v.sound;
}

seq_diagnostic-warning :
    (uri : String) (last seq : ℤ) (i : ℕ) → (seq_diagnostic uri last seq i).0.severity ≡ warning
unfolding seq_diagnostic
seq_diagnostic-warning uri last seq i = ground arith

module _ (i : ℕ) where
  checked-Pair :
      (ctx : ReplayContext) (resource : ReplayResourceState) (d : ReplayDiagnostic × Bool)
      → d.0.severity ≡ warning
      → IsValid i ctx
      → Sound i resource
      → Pair i ((checked ctx resource d).ctx, (checked ctx resource d).resource)
  unfolding checked
  checked-Pair ctx resource d w v s = add_resource_diagnostic-Pair i ctx resource d.0 w v s

  should_apply-Pair :
      (ctx : ReplayContext) (resource : ReplayResourceState) (seq : ℤ)
      → IsValid i ctx
      → Sound i resource
      → Pair i (
        (should_apply_server_seq ctx resource seq i).ctx,
        (should_apply_server_seq ctx resource seq i).resource,
      )
  unfolding should_apply_server_seq
  should_apply-Pair ctx resource seq v s =
      let P : Decision → Type 0 = λ d. Pair i (d.ctx, d.resource) in
      option-cases P resource.last_server_seq _ _ (λ _. (v, s))
        (λ last _.
          if-cases P (eq_ℤ seq (last +ℤ pos 1)) _ _ (λ _. (v, s))
            (λ _.
              checked-Pair ctx resource (seq_diagnostic resource.key.uri last seq i)
                (seq_diagnostic-warning resource.key.uri last seq i) v s))

  rekeyed : {k : String} {q : ReplayResourceState} → IsSound i (k, q) → Sound i q
  rekeyed s = record { keyed = refl; clean = s.clean; ordered = s.ordered; past = s.past }

  some_injective : {q r : ReplayResourceState} → some q ≡ some r → q ≡ r
  some_injective e = cc

  pub find_uri-Sound :
      (uri : String) (m : Map String ReplayResourceState) (r : ReplayResourceState)
      → All (IsSound i) m
      → find_uri uri m ≡ some r
      → Sound i r
  unfolding find_uri
  find_uri-Sound uri [] r h e = absurd (ground (arith, e))
  find_uri-Sound uri ((k, q) ∷ m) r h e =
      if-cases (λ o. o ≡ some r → Sound i r) (str_eq q.key.uri uri) _ _
        (λ _ same. subst (Sound i) (some_injective same) (rekeyed h.0))
        (λ _. find_uri-Sound uri m r h.1) e

  pub lookup-Sound :
      (key : String) (m : Map String ReplayResourceState) (r : ReplayResourceState)
      → All (IsSound i) m
      → lookup key m ≡ some r
      → Sound i r
  unfolding lookup
  lookup-Sound key [] r h e = absurd (ground (arith, e))
  lookup-Sound key ((k, q) ∷ m) r h e =
      if-cases (λ o. o ≡ some r → Sound i r) (str_eq k key) _ _
        (λ _ same. subst (Sound i) (some_injective same) (rekeyed h.0))
        (λ _. lookup-Sound key m r h.1) e

  refuse-IsValid :
      (ctx : ReplayContext) (resource : ReplayResourceState) (seq : ℤ) (d : ReplayDiagnostic)
      → d.severity ≡ warning
      → IsValid i ctx
      → Sound i resource
      → IsValid i (refuse ctx resource seq d)
  unfolding refuse
  refuse-IsValid ctx resource seq d w v s =
      let (v', s') = add_resource_diagnostic-Pair i ctx resource d w v s in
      put-IsValid i _ _ v' (record {
        keyed = refl;
        clean = λ c. absurd (ground (arith, c));
        ordered = s'.ordered;
        past = s'.past;
      })

  add_logged-IsValid :
      (type : String) (ms : List String) (ctx : ReplayContext) (resource : ReplayResourceState)
      → IsValid i ctx
      → Sound i resource
      → IsValid i (add_logged ctx resource i type ms)
  unfolding add_logged
  add_logged-IsValid type [] ctx resource v s = v
  add_logged-IsValid type (m ∷ ms) ctx resource v s =
      let (v', s') = add_resource_diagnostic-Pair i ctx resource (logged type i m) refl v s in
      add_logged-IsValid type ms _ _ v' s'

  reduce_resource-IsValid :
      (protocol : Protocol) (ctx : ReplayContext) (resource : ReplayResourceState)
      (envelope : DecodedActionEnvelope) (type : String) (ts : ℤ)
      → IsValid i ctx
      → Sound i resource
      → IsValid i (reduce_resource protocol ctx resource envelope type i ts)
  unfolding reduce_resource
  reduce_resource-IsValid protocol ctx resource envelope type ts v s =
      let changed : ReplayResourceState = record resource {
        state = (reduce_state protocol resource envelope.action type ts).0;
        last_applied_event_idx = i;
        last_server_seq = some envelope.server_seq;
      } in
      let s' : Sound i changed = record {
        keyed = refl;
        clean = s.clean;
        ordered = omega (arith, s.ordered, s.past);
        past = omega arith;
      } in
      add_logged-IsValid type (reduce_state protocol resource envelope.action type ts).1
        (put_resource ctx changed) changed (put-IsValid i ctx changed v s') s'

  apply_accepted-IsValid :
      (protocol : Protocol) (ctx : ReplayContext) (resource : ReplayResourceState)
      (envelope : DecodedActionEnvelope) (ts : ℤ)
      → IsValid i ctx
      → Sound i resource
      → IsValid i (apply_accepted protocol ctx resource envelope i ts)
  unfolding apply_accepted
  apply_accepted-IsValid protocol ctx resource envelope ts v s =
      let refused = λ (d : ReplayDiagnostic) (w : d.severity ≡ warning).
        refuse-IsValid ctx resource envelope.server_seq d w v s in
      option-cases (IsValid i) (read_known_action protocol (some envelope.action)) _ _
        (λ _. refused _ refl)
        (λ type _.
          if-cases (IsValid i)
            (kind_eq (infer_known_action_target type envelope.channel).kind
              ReplayResourceKind.unknown)
            _ _ (λ _. refused _ refl)
            (λ _.
              if-cases (IsValid i)
                (not (
                  kind_eq resource.key.kind (infer_known_action_target type envelope.channel).kind))
                _ _ (λ _. refused _ refl)
                (λ _. reduce_resource-IsValid protocol ctx resource envelope type ts v s)))

  link-IsValid :
      (ctx : ReplayContext) (envelope : DecodedActionEnvelope)
      → IsValid i ctx
      → IsValid i (link_accepted_intent ctx envelope)
  unfolding link_accepted_intent
  link-IsValid ctx envelope v =
      option-cases (IsValid i) envelope.origin _ _ (λ _. v) (λ origin _. same-IsValid ctx _ refl v)

  pub apply_to-IsValid :
      (protocol : Protocol) (ctx : ReplayContext) (resource : ReplayResourceState)
      (envelope : DecodedActionEnvelope) (ts : ℤ)
      → IsValid i ctx
      → Sound i resource
      → IsValid i (apply_to protocol ctx resource envelope i ts)
  unfolding apply_to
  apply_to-IsValid protocol ctx resource envelope ts v s =
      let (v', s') = should_apply-Pair ctx resource envelope.server_seq v s in
      option-cases (IsValid i) (truthy envelope.rejection_reason) _ _
        (λ _.
          if-cases (IsValid i) (should_apply_server_seq ctx resource envelope.server_seq i).apply _
            _ (λ _. apply_accepted-IsValid protocol _ _ envelope ts (link-IsValid _ envelope v') s')
            (λ _. v'))
        (λ reason _. (add_resource_diagnostic-Pair i ctx resource _ refl v s).0)
