-- ===== src/Core/Replay/Resources.antt =====
-- What holds of the resources that a replay returns.
use ahp_inspector.Base.{
  ℕ, suc, zero, ◌+◌, ◌≤◌, String, List, [], ◌∷◌, ◌≡◌, refl, sym, ap, subst, ◌∙◌, arith, length,
  if◌then◌else◌, All, Map, IsMap, string_eq, if-cases, map, take,
}
use ahp_inspector.Base.Int.{ℤ, pos, negsuc, pos_part}
use ahp_inspector.Shared.Event.{AhpEvent}
use ahp_inspector.Core.Replay.{
  Protocol, ReplayContext, ReplayResourceState, complete, fresh_context, resource_map_key,
  add_diagnostic,
}
use ahp_inspector.Core.Replay.Run.{replay_from, replay_to_index, in_range, outside, count_of}
use ahp_inspector.Core.Replay.Confidence.{IsSound, IsValid}
use ahp_inspector.Core.Replay.Invariant.{process_event-IsValid}

weaken :
    (i j : ℕ) (m : Map String ReplayResourceState) → i ≤ j → All (IsSound i) m → All (IsSound j) m
weaken i j [] h a = tt
weaken i j (entry ∷ m) h (s, a) = (
  record { keyed = s.keyed; clean = s.clean; ordered = s.ordered; past = omega (arith, s.past) },
  weaken i j m h a,
)

weaken-IsValid : (i j : ℕ) (ctx : ReplayContext) → i ≤ j → IsValid i ctx → IsValid j ctx
weaken-IsValid i j ctx h v = record {
  unique = v.unique;
  sound = weaken i j ctx.resources h v.sound;
}

replay_from-IsValid :
    (protocol : Protocol) (n : ℕ) (es : List AhpEvent) (j i : ℕ) (ctx : ReplayContext)
    → j ≤ i
    → j ≤ n
    → i + length es ≤ suc n
    → IsValid j ctx
    → IsValid n (replay_from protocol ctx es i)
unfolding replay_from
replay_from-IsValid protocol n [] j i ctx h below fits v = weaken-IsValid j n ctx below v
replay_from-IsValid protocol n (e ∷ es) j i ctx h below fits v =
    replay_from-IsValid protocol n es i (suc i) _ (omega arith) (omega arith) (omega arith)
      (process_event-IsValid i protocol ctx e (weaken-IsValid j i ctx h v))

-- what a caller sees of a resource of a replay up to `n`
pub record IsReplayed (n : ℕ) (resource : ReplayResourceState) : Type 0 where
  pub clean : resource.confidence ≡ complete → resource.diagnostics ≡ []
  pub ordered : resource.baseline_event_idx ≤ resource.last_applied_event_idx
  pub past : resource.last_applied_event_idx ≤ n

values : Map String ReplayResourceState → List ReplayResourceState
values m = map (λ entry. entry.1) m

values-IsReplayed :
    (n : ℕ) (m : Map String ReplayResourceState) → All (IsSound n) m → All (IsReplayed n) (values m)
unfolding values
values-IsReplayed n [] a = tt
values-IsReplayed n (entry ∷ m) (s, a) =
    (record { clean = s.clean; ordered = s.ordered; past = s.past }, values-IsReplayed n m a)

-- the resources under the keys of the code's map
abbrev pub keyed : List ReplayResourceState → Map String ReplayResourceState
keyed = map (λ resource. (resource_map_key resource.key, resource))

keyed-values :
    (n : ℕ) (m : Map String ReplayResourceState) → All (IsSound n) m → keyed (values m) ≡ m
unfolding values
keyed-values n [] a = refl
keyed-values n ((key, r) ∷ m) (s, a) =
    ap (λ k. (k, r) ∷ keyed (values m)) (sym s.keyed) ∙ ap (◌∷◌ (key, r)) (keyed-values n m a)

length-take_le : (n : ℕ) (es : List AhpEvent) → length (take n es) ≤ n
length-take_le zero es = omega arith
length-take_le (suc n) [] = omega arith
length-take_le (suc n) (e ∷ es) = omega (arith, length-take_le n es)

count_le : (target : ℤ) → count_of target ≤ suc (pos_part target)
count_le (pos n) = omega arith
count_le (negsuc n) = omega arith

start-IsValid :
    (target : ℤ) (size : ℕ)
    → IsValid 0 (if in_range target size then fresh_context else outside fresh_context target size)
unfolding outside add_diagnostic
start-IsValid target size =
    if-cases (IsValid 0) (in_range target size) _ _ (λ _. record { unique = tt; sound = tt })
      (λ _. record { unique = tt; sound = tt })

-- Of every resource that a replay returns, whatever the reducers do: it is called complete only if it
-- has no diagnostics, it was applied to last at or behind its baseline, and not behind the target
-- (behind event 0, if the target is negative). No two resources have one kind and URI key.
pub replay_to_index-IsReplayed :
    (protocol : Protocol) (events : List AhpEvent) (target : ℤ)
    → All (IsReplayed (pos_part target)) (replay_to_index protocol events target).resources
      × IsMap (keyed (replay_to_index protocol events target).resources)
unfolding replay_to_index values
replay_to_index-IsReplayed protocol events target =
    let es = take (count_of target) events in
    let v =
      replay_from-IsValid protocol (pos_part target) es 0 0 _ (omega arith) (omega arith)
        (omega (arith, length-take_le (count_of target) events, count_le target))
        (start-IsValid target (length events)) in
    (
      values-IsReplayed (pos_part target) _ v.sound,
      subst IsMap (sym (keyed-values (pos_part target) _ v.sound)) v.unique,
    )
