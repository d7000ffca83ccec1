-- ===== src/Server/StateReplayIndex/Transparent.antt =====
-- The cache of replays is transparent, and stays within its bounds.
use ahp_inspector.Base.{
  ℕ, ◌+◌, ◌<◌, true, ◌&&◌, Option, none, some, List, [], ◌∷◌, ◌++◌, ◌≡◌, refl, sym, ap, subst, ◌∙◌,
  arith, if◌then◌else◌, if-cases, option-cases, Map, IsMap, All, All-insert, All-remove, All-lookup,
  insert-IsMap, remove-IsMap, is_none, lookup-remove, length-insert, length-remove, lookup, insert,
  remove, nat_eq, beq_refl, ltb, leb, length, length-append, get_elem?,
}
use ahp_inspector.Base.Int.{ℤ, pos, negsuc}
use ahp_inspector.Shared.Event.{AhpEvent}
use ahp_inspector.Core.Replay.Run.{replay_to_index}
use ahp_inspector.Core.Replay.Prefix.{replay_to_index-append}
use ahp_inspector.Server.StateReplayIndex.{
  CachedReplay, StateReplayIndex, StateReplayIndexResult, Host, tail_of, record_store_state,
  new_index, clear_cache, reset, prior_tail_preserved, invalidate_if_store_prefix_changed,
  cached_event, delete_cached, evict_to_bounds, store_replay, compute, use_cached, at_cacheable,
  at_target, state_at_index,
}
use ahp_inspector.Server.StateReplayIndex.Cache.{
  total, total-remove, total-insert, IsBounded, evict-IsBounded, evict-All,
}

-- the entry is the replay of these events
abbrev pub IsReplay : Host → List AhpEvent → ℕ × CachedReplay → Type 0
IsReplay host events (n, cached) =
    (n < length events) × (cached.result ≡ replay_to_index host.protocol events (pos n))

-- what the index keeps, with the events that it saw last
pub record IsValid (host : Host) (events : List AhpEvent) (s : StateReplayIndex) : Type 0 where
  pub unique : IsMap s.cache
  pub replays : All (IsReplay host events) s.cache
  pub bounded : IsBounded s.max_entries s.max_cost_bytes s.cache s.cache_cost_bytes
  pub size_seen : s.observed_store_size ≡ length events
  pub tail_seen : s.observed_store_tail ≡ tail_of events

module _ (host : Host) where
  longer :
      (events more : List AhpEvent) (m : Map ℕ CachedReplay)
      → All (IsReplay host events) m
      → All (IsReplay host (events ++ more)) m
  longer events more [] h = tt
  longer events more ((n, cached) ∷ m) ((below, e), h) = (
    (
      omega (arith, below, length-append events more),
      e ∙ sym (replay_to_index-append host.protocol events more n below),
    ),
    longer events more m h,
  )

  -- the new events have the old ones in front, if the test of the code says so
  abbrev pub Honest : List AhpEvent → List AhpEvent → Type 0
  Honest before now =
      prior_tail_preserved host now (length before) (tail_of before) ≡ true
      → (more : List AhpEvent) × (before ++ more ≡ now)

  invalidate-IsValid :
      (before now : List AhpEvent) (s : StateReplayIndex)
      → Honest before now
      → IsValid host before s
      → IsValid host now (invalidate_if_store_prefix_changed host now s)
  unfolding invalidate_if_store_prefix_changed record_store_state clear_cache
  invalidate-IsValid before now s honest v =
      if-cases (λ t. IsValid host now (record_store_state now t))
        (prior_tail_preserved host now s.observed_store_size s.observed_store_tail) _ _
        (λ kept.
          let (more, e) = honest (
            ap (λ n. prior_tail_preserved host now n (tail_of before)) (sym v.size_seen)
            ∙ ap (prior_tail_preserved host now s.observed_store_size) (sym v.tail_seen)
            ∙ kept) in
          record {
            unique = v.unique;
            replays =
                subst (λ es. All (IsReplay host es) s.cache) e
                  (longer before more s.cache v.replays);
            bounded = v.bounded;
            size_seen = refl;
            tail_seen = refl;
          })
        (λ _. record {
          unique = tt;
          replays = tt;
          bounded = record {
            entries = omega arith;
            within = omega arith;
            sum = unfold total in refl;
          };
          size_seen = refl;
          tail_seen = refl;
        })

  module _ (events : List AhpEvent) where
    -- the answer is the replay, and the state that is left is as it should be
    abbrev Answers : ℤ → StateReplayIndexResult × StateReplayIndex → Type 0
    Answers target (answered, s) =
        (answered.result ≡ replay_to_index host.protocol events target) × IsValid host events s

    store-IsValid :
        (s : StateReplayIndex) (n cost : ℕ) (event : Option AhpEvent)
        → IsValid host events s
        → lookup n s.cache ≡ none
        → n < length events
        → IsValid host events
            (store_replay (replay_to_index host.protocol events (pos n)) cost n event s)
    unfolding store_replay evict_to_bounds
    store-IsValid s n cost none v fresh below = v
    store-IsValid s n cost (some event) v fresh below =
        let cached : CachedReplay = record {
          result = replay_to_index host.protocol events (pos n);
          cost_bytes = cost;
          target_event = event;
        } in
        let put = insert n cached s.cache in
        let cost' = s.cache_cost_bytes + cost in
        let (all, map_ok) =
          evict-All (IsReplay host events) s.max_entries s.max_cost_bytes put cost'
            (All-insert (IsReplay host events) n cached s.cache v.replays (below, refl))
            (insert-IsMap n cached s.cache v.unique) in
        if-cases (IsValid host events) (ltb 0 s.max_entries && leb cost s.max_cost_bytes) _ _
          (λ _. record {
            unique = map_ok;
            replays = all;
            bounded =
                evict-IsBounded s.max_entries s.max_cost_bytes put cost'
                  (omega (arith, v.bounded.sum, total-insert n cached s.cache fresh));
            size_seen = v.size_seen;
            tail_seen = v.tail_seen;
          })
          (λ _. v)

    compute-Answers :
        (s : StateReplayIndex) (n : ℕ)
        → IsValid host events s
        → lookup n s.cache ≡ none
        → n < length events
        → Answers (pos n) (compute host events n s)
    unfolding compute
    compute-Answers s n v fresh below =
        (refl, store-IsValid s n _ (get_elem? events n) v fresh below)

    removed : (s : StateReplayIndex) (n : ℕ) → IsMap s.cache → lookup n (remove n s.cache) ≡ none
    removed s n d =
        lookup-remove n n s.cache d ∙ ap (λ b. if b then none else lookup n s.cache) (beq_refl n)

    delete-IsValid :
        (s : StateReplayIndex) (n : ℕ) (cached : CachedReplay)
        → IsValid host events s
        → lookup n s.cache ≡ some cached
        → IsValid host events (delete_cached n cached s)
    unfolding delete_cached
    delete-IsValid s n cached v hit = record {
      unique = remove-IsMap n s.cache v.unique;
      replays = All-remove (IsReplay host events) n s.cache v.replays;
      bounded = record {
        entries = omega (arith, length-remove n s.cache, v.bounded.entries);
        within = omega (arith, v.bounded.within);
        sum = omega (arith, v.bounded.sum, total-remove n cached s.cache hit);
      };
      size_seen = v.size_seen;
      tail_seen = v.tail_seen;
    }

    again_length :
        (s : StateReplayIndex) (n : ℕ) (cached : CachedReplay)
        → IsMap s.cache
        → lookup n s.cache ≡ some cached
        → length (insert n cached (remove n s.cache)) ≡ length s.cache
    again_length s n cached d hit = omega (
      arith,
      length-insert n cached (remove n s.cache),
      length-remove n s.cache,
      ap {B = ℕ} (λ o. if is_none o then 1 else 0) (removed s n d),
      ap {B = ℕ} (λ o. if is_none o then 0 else 1) hit,
    )

    use_cached-Answers :
        (s : StateReplayIndex) (n : ℕ) (cached : CachedReplay)
        → IsValid host events s
        → lookup n s.cache ≡ some cached
        → n < length events
        → Answers (pos n) (use_cached host events n cached s)
    unfolding use_cached
    use_cached-Answers s n cached v hit below =
        let (_, same) = All-lookup (IsReplay host events) n s.cache cached v.replays hit in
        if-cases (Answers (pos n)) (cached_event host events n cached) _ _
          (λ _. (
            same,
            record {
              unique = insert-IsMap n cached _ (remove-IsMap n s.cache v.unique);
              replays =
                  All-insert (IsReplay host events) n cached _
                    (All-remove (IsReplay host events) n s.cache v.replays) (below, same);
              bounded = record {
                entries = omega (arith, again_length s n cached v.unique hit, v.bounded.entries);
                within = v.bounded.within;
                sum = omega (
                  arith,
                  v.bounded.sum,
                  total-remove n cached s.cache hit,
                  total-insert n cached (remove n s.cache) (removed s n v.unique),
                );
              };
              size_seen = v.size_seen;
              tail_seen = v.tail_seen;
            },
          ))
          (λ _.
            compute-Answers _ n (delete-IsValid s n cached v hit)
              (unfold delete_cached in removed s n v.unique) below)

    at_target-Answers :
        (s : StateReplayIndex) (target : ℤ)
        → IsValid host events s
        → Answers target (at_target host events target s)
    unfolding at_target at_cacheable
    at_target-Answers s (pos n) v =
        if-cases (Answers (pos n)) (ltb n (length events)) _ _
          (λ below.
            option-cases (Answers (pos n)) (lookup n s.cache) _ _
              (λ fresh. compute-Answers s n v fresh (ground (arith, below)))
              (λ cached hit. use_cached-Answers s n cached v hit (ground (arith, below))))
          (λ _. (refl, v))
    at_target-Answers s (negsuc n) v = (refl, v)

  -- The cache is transparent: of a state that is valid for the events seen last, an answer for the
  -- events of the moment is their replay to the target, whatever the target, and the state that is left
  -- is valid for these events, with at most `max_entries` replays that cost at most `max_cost_bytes`.
  -- The condition is that the code's test of the last event seen lets through only events that go on
  -- from those seen before.
  pub state_at_index-replay :
      (before events : List AhpEvent) (target : ℤ) (s : StateReplayIndex)
      → Honest before events
      → IsValid host before s
      → ((state_at_index host events target s).0.result
          ≡ replay_to_index host.protocol events target)
        × IsValid host events (state_at_index host events target s).1
  unfolding state_at_index
  state_at_index-replay before events target s honest v =
      at_target-Answers events _ target (invalidate-IsValid before events s honest v)

  -- A new index is valid for the events of its store, and so is one that was reset.
  pub fresh-IsValid :
      (events : List AhpEvent) (max_entries max_cost_bytes : ℕ) (s : StateReplayIndex)
      → IsValid host events (new_index events max_entries max_cost_bytes)
        × IsValid host events (reset events s)
  unfolding new_index reset record_store_state clear_cache total
  fresh-IsValid events max_entries max_cost_bytes s = (nothing, nothing)
    where
      nothing :
          {a b : ℕ}
          → IsValid host events (record {
            max_entries = a;
            max_cost_bytes = b;
            cache = [];
            cache_cost_bytes = 0;
            observed_store_size = length events;
            observed_store_tail = tail_of events;
          })
      nothing = record {
        unique = tt;
        replays = tt;
        bounded = record { entries = omega arith; within = omega arith; sum = refl };
        size_seen = refl;
        tail_seen = refl;
      }
