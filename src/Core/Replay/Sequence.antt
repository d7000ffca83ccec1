-- ===== src/Core/Replay/Sequence.antt =====
-- Sequence numbers: an envelope changes at most one resource, and never takes it back.
use ahp_inspector.Base.{
  ℕ, String, some, List, [], ◌∷◌, ◌≡◌, refl, sym, ap, subst, ◌∙◌, arith, true, not, if◌then◌else◌,
  lookup, string_eq, str_eq, eq_iff, if-cases, option-cases, inl, inr, Bool-cases,
}
use ahp_inspector.Base.Int.{ℤ, pos, ◌+ℤ◌, +ℤ_parts, ◌<ℤ◌, eq_ℤ}
use ahp_inspector.Shared.Json.{truthy}
use ahp_inspector.Core.Replay.{
  Protocol, ReplayContext, ReplayResourceState, ReplayResourceKind, ReplayDiagnostic,
  resource_map_key, add_diagnostic, add_resource_diagnostic, noted, kind_eq,
}
use ahp_inspector.Core.Replay.Decode.{
  DecodedActionEnvelope, read_known_action, infer_known_action_target,
}
use ahp_inspector.Core.Replay.Apply.{
  should_apply_server_seq, Decision, checked, seq_diagnostic, find_resource, refuse,
  reduce_resource, reduce_state, add_logged, logged, apply_accepted, apply_to, apply_envelope,
  link_accepted_intent, target_of,
}
use ahp_inspector.Core.Replay.Confidence.{IsValid}
use ahp_inspector.Core.Replay.Tracking.{
  Later, Advances, Track, Track-start, Track-put, Track-same, Track-noted, found_resource-lookup,
}

-- a context in which only that resource differs, and has advanced
abbrev Moved : ReplayContext → ReplayResourceState → ReplayContext → Type 0
Moved ctx₀ r ctx = (s : ReplayResourceState) × Track ctx₀ r ctx s

-- the resource as it was, but for its diagnostics
record IsIdle (r s : ReplayResourceState) : Type 0 where
  same_key : s.key ≡ r.key
  same_baseline : s.baseline_event_idx ≡ r.baseline_event_idx
  same_state : s.state ≡ r.state
  same_seq : s.last_server_seq ≡ r.last_server_seq

IsIdle-noted : (r : ReplayResourceState) (d : ReplayDiagnostic) → IsIdle r (noted r d)
IsIdle-noted r d = record {
  same_key = refl;
  same_baseline = refl;
  same_state = refl;
  same_seq = refl;
}

-- what the check of a sequence number leaves
Checked : ReplayContext → ReplayResourceState → ℤ → Decision → Type 0
Checked ctx r seq d =
    Track ctx r d.ctx d.resource
    × IsIdle r d.resource
    × (d.apply ≡ true → Later r.last_server_seq seq)

seq_diagnostic-Later :
    (uri : String) (last seq : ℤ) (i : ℕ) → (seq_diagnostic uri last seq i).1 ≡ true → last <ℤ seq
unfolding seq_diagnostic
seq_diagnostic-Later uri last seq i h = ground (arith, h, +ℤ_parts last (pos 1))

next_later : (last seq : ℤ) → eq_ℤ seq (last +ℤ pos 1) ≡ true → last <ℤ seq
next_later last seq h = ground (arith, h, +ℤ_parts last (pos 1))

module _ (ctx : ReplayContext) (r : ReplayResourceState)
    (start : lookup (resource_map_key r.key) ctx.resources ≡ some r) where
  should_apply-Checked : (seq : ℤ) (i : ℕ) → Checked ctx r seq (should_apply_server_seq ctx r seq i)
  unfolding should_apply_server_seq checked Checked
  should_apply-Checked seq i =
      let idle : IsIdle r r = record {
        same_key = refl;
        same_baseline = refl;
        same_state = refl;
        same_seq = refl;
      } in
      let t = Track-start ctx r start in
      option-cases (Checked ctx r seq) r.last_server_seq _ _
        (λ e. (t, idle, λ _. subst (λ o. Later o seq) (sym e) tt))
        (λ last e.
          if-cases (Checked ctx r seq) (eq_ℤ seq (last +ℤ pos 1)) _ _
            (λ next. (t, idle, λ _. subst (λ o. Later o seq) (sym e) (next_later last seq next)))
            (λ _.
              let d = seq_diagnostic r.key.uri last seq i in
              (
                Track-noted ctx ctx r r d.0 t,
                IsIdle-noted r d.0,
                λ apply.
                    subst (λ o. Later o seq) (sym e)
                      (seq_diagnostic-Later r.key.uri last seq i apply),
              )))

-- from here on the number is known to be later
module _ (ctx₀ : ReplayContext) (r : ReplayResourceState) (ctx : ReplayContext)
    (s : ReplayResourceState) (t : Track ctx₀ r ctx s) (idle : IsIdle r s) where
  rises :
      (q : ReplayResourceState) (seq : ℤ)
      → q.key ≡ s.key
      → q.baseline_event_idx ≡ s.baseline_event_idx
      → q.last_server_seq ≡ some seq
      → Later r.last_server_seq seq
      → Advances r q
  rises q seq k b l later = record {
    same_key = k ∙ idle.same_key;
    same_baseline = b ∙ idle.same_baseline;
    moves = inr (seq, l, later);
  }

  refuse-Moved :
      (seq : ℤ) (d : ReplayDiagnostic)
      → Later r.last_server_seq seq
      → Moved ctx₀ r (refuse ctx s seq d)
  unfolding refuse add_resource_diagnostic
  refuse-Moved seq d later =
      let t' = Track-noted ctx₀ ctx r s d t in
      (
        _,
        Track-put ctx₀ (add_resource_diagnostic ctx s d).0 r (noted s d) _ t'
            (rises _ seq refl refl refl later),
      )

add_logged-Moved :
    (type : String) (i : ℕ) (ms : List String) (ctx₀ : ReplayContext) (r : ReplayResourceState)
    (ctx : ReplayContext) (s : ReplayResourceState)
    → Track ctx₀ r ctx s
    → Moved ctx₀ r (add_logged ctx s i type ms)
unfolding add_logged
add_logged-Moved type i [] ctx₀ r ctx s t = (s, t)
add_logged-Moved type i (m ∷ ms) ctx₀ r ctx s t =
    add_logged-Moved type i ms ctx₀ r _ _ (Track-noted ctx₀ ctx r s (logged type i m) t)

module _ (protocol : Protocol) (envelope : DecodedActionEnvelope) (i : ℕ) (ts : ℤ) where
  apply_accepted-Moved :
      (ctx₀ : ReplayContext) (r : ReplayResourceState) (ctx : ReplayContext)
      (s : ReplayResourceState)
      → Track ctx₀ r ctx s
      → IsIdle r s
      → Later r.last_server_seq envelope.server_seq
      → Moved ctx₀ r (apply_accepted protocol ctx s envelope i ts)
  unfolding apply_accepted reduce_resource
  apply_accepted-Moved ctx₀ r ctx s t idle later =
      let refused =
        λ (d : ReplayDiagnostic). refuse-Moved ctx₀ r ctx s t idle envelope.server_seq d later in
      option-cases (Moved ctx₀ r) (read_known_action protocol (some envelope.action)) _ _
        (λ _. refused _)
        (λ type _.
          let kind = (infer_known_action_target type envelope.channel).kind in
          if-cases (Moved ctx₀ r) (kind_eq kind ReplayResourceKind.unknown) _ _ (λ _. refused _)
            (λ _.
              if-cases (Moved ctx₀ r) (not (kind_eq s.key.kind kind)) _ _ (λ _. refused _)
                (λ _.
                  let made = reduce_state protocol s envelope.action type ts in
                  add_logged-Moved type i made.1 ctx₀ r _ _ (
                    Track-put ctx₀ ctx r s _ t (
                      rises ctx₀ r ctx s t idle
                        (record s {
                          state = made.0;
                          last_applied_event_idx = i;
                          last_server_seq = some envelope.server_seq;
                        })
                        envelope.server_seq refl refl refl later)))))

  linked :
      (ctx₀ : ReplayContext) (r : ReplayResourceState) (ctx : ReplayContext)
      (s : ReplayResourceState)
      → Track ctx₀ r ctx s
      → Track ctx₀ r (link_accepted_intent ctx envelope) s
  unfolding link_accepted_intent
  linked ctx₀ r ctx s t =
      option-cases (λ c. Track ctx₀ r c s) envelope.origin _ _ (λ _. t)
        (λ origin _. Track-same ctx₀ ctx _ r s refl t)

  apply_to-Moved :
      (ctx : ReplayContext) (r : ReplayResourceState)
      → lookup (resource_map_key r.key) ctx.resources ≡ some r
      → Moved ctx r (apply_to protocol ctx r envelope i ts)
  unfolding apply_to Checked
  apply_to-Moved ctx r start =
      let decision = should_apply_server_seq ctx r envelope.server_seq i in
      let (t, idle, later) = should_apply-Checked ctx r start envelope.server_seq i in
      option-cases (Moved ctx r) (truthy envelope.rejection_reason) _ _
        (λ _.
          if-cases (Moved ctx r) decision.apply _ _
            (λ apply.
              apply_accepted-Moved ctx r (link_accepted_intent decision.ctx envelope)
                decision.resource (linked ctx r decision.ctx decision.resource t) idle
                (later apply))
            (λ _. (decision.resource, t)))
        (λ reason _. (_, Track-noted ctx ctx r r _ (Track-start ctx r start)))

  same_Advances : (r : ReplayResourceState) → Advances r r
  same_Advances r = record { same_key = refl; same_baseline = refl; moves = inl (refl, refl) }

  some_injective : {a b : ReplayResourceState} → some a ≡ some b → a ≡ b
  some_injective e = cc

  -- what the change of one resource is at any key
  seen :
      (ctx : ReplayContext) (key : String) (r resource : ReplayResourceState) (ctx' : ReplayContext)
      (s : ReplayResourceState)
      → Track ctx r ctx' s
      → lookup (resource_map_key r.key) ctx.resources ≡ some r
      → lookup key ctx.resources ≡ some resource
      → (s : ReplayResourceState) × (lookup key ctx'.resources ≡ some s) × Advances resource s
  seen ctx key r resource ctx' s t start e =
      elim (Bool-cases (str_eq (resource_map_key r.key) key)) [
        | inl same ↦
            let one =
              some_injective
                (sym start ∙ ap (λ k. lookup k ctx.resources) ((eq_iff _ key).0 same) ∙ e) in
            (
              s,
              t.stays key ∙ ap (λ b. if b then some s else lookup key ctx.resources) same,
              subst (λ x. Advances x s) one t.advances,
            )
        | inr other ↦ (
          resource,
          t.stays key ∙ ap (λ b. if b then some s else lookup key ctx.resources) other ∙ e,
          same_Advances resource,
        )
      ]

  -- What an action envelope does to each resource of a context whose map is as a replay keeps it: the
  -- resource is still there, with its kind, its URI and its baseline; and either its state and its
  -- sequence number are as before, or its sequence number has risen, if it had one. This holds of every
  -- envelope and whatever the reducers do.
  pub apply_envelope-Advances :
      (ctx : ReplayContext) (key : String) (resource : ReplayResourceState)
      → IsValid i ctx
      → lookup key ctx.resources ≡ some resource
      → (s : ReplayResourceState) × (lookup key
            (apply_envelope protocol ctx envelope i ts).resources
          ≡ some s)
        × Advances resource s
  unfolding apply_envelope add_diagnostic
  apply_envelope-Advances ctx key resource v e =
      let target = target_of (read_known_action protocol (some envelope.action)) envelope.channel in
      option-cases
        (λ (c : ReplayContext).
          (s : ReplayResourceState) × (lookup key c.resources ≡ some s) × Advances resource s)
        (find_resource ctx target envelope.channel) _ _ (λ _. (resource, e, same_Advances resource))
        (λ r found.
          let start = found_resource-lookup i ctx target envelope.channel r v found in
          let (s, t) = apply_to-Moved ctx r start in seen ctx key r resource _ s t start e)
