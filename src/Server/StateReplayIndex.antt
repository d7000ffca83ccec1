-- ===== src/Server/StateReplayIndex.antt =====
-- packages/server/src/state-replay-index.ts: a cache of replays, least recently used first, bounded in
-- entries and bytes. The store is shared with the rest of the server: each call takes its events of the
-- moment. What depends on the identity of JavaScript objects is a parameter: `===` on events, and the
-- size estimate, which counts a shared object once.
mod Cache
pub mod Transparent
use ahp_inspector.Base.{
  ℕ, suc, ◌+◌, ◌-◌, ◌*◌, Bool, true, false, ◌&&◌, ◌||◌, Option, none, some, List, [], ◌∷◌,
  if◌then◌else◌, Map, lookup, insert, remove, nat_eq, ltb, leb, ◌==◌, length, get_elem?,
}
use ahp_inspector.Base.Int.{ℤ, pos, negsuc}
use ahp_inspector.Shared.Event.{AhpEvent}
use ahp_inspector.Core.Replay.{Protocol}
use ahp_inspector.Core.Replay.Run.{ReplayResult, replay_to_index}

pub record StateReplayCacheInfo : Type 0 where
  pub hit : Bool
  pub size : ℕ
  pub max_entries : ℕ

pub record StateReplayIndexResult : Type 0 where
  pub result : ReplayResult
  pub cache : StateReplayCacheInfo

pub record CachedReplay : Type 0 where
  pub result : ReplayResult
  pub cost_bytes : ℕ
  pub target_event : AhpEvent

abbrev pub default_max_replay_cache_bytes : ℕ
default_max_replay_cache_bytes = 8 * 1024 * 1024

pub record StateReplayIndex : Type 0 where
  pub max_entries : ℕ
  pub max_cost_bytes : ℕ
  pub cache : Map ℕ CachedReplay
  pub cache_cost_bytes : ℕ
  pub observed_store_size : ℕ
  pub observed_store_tail : Option AhpEvent

-- what the module gets from elsewhere
pub record Host : Type 0 where
  pub protocol : Protocol
  pub same : AhpEvent → AhpEvent → Bool
  pub estimate : ReplayResult → ℕ → ℕ

abbrev pub tail_of : List AhpEvent → Option AhpEvent
tail_of events = get_elem? events (length events - 1)

unfoldable pub record_store_state : List AhpEvent → StateReplayIndex → StateReplayIndex
record_store_state events s = record s {
  observed_store_size = length events;
  observed_store_tail = tail_of events;
}

unfoldable pub new_index : List AhpEvent → ℕ → ℕ → StateReplayIndex
unfolding record_store_state
new_index events max_entries max_cost_bytes = record_store_state events (record {
  max_entries = max_entries;
  max_cost_bytes = max_cost_bytes;
  cache = [];
  cache_cost_bytes = 0;
  observed_store_size = 0;
  observed_store_tail = none;
})

unfoldable pub clear_cache : StateReplayIndex → StateReplayIndex
clear_cache s = record s { cache = []; cache_cost_bytes = 0 }

unfoldable pub reset : List AhpEvent → StateReplayIndex → StateReplayIndex
unfolding record_store_state clear_cache
reset events s = record_store_state events (clear_cache s)

-- `a === b`, where either may be undefined
abbrev pub same_event : Host → Option AhpEvent → Option AhpEvent → Bool
same_event host none none = true
same_event host (some a) (some b) = host.same a b
same_event host _ _ = false

-- whether the last event seen is still where it was
unfoldable pub prior_tail_preserved : Host → List AhpEvent → ℕ → Option AhpEvent → Bool
prior_tail_preserved host events size tail =
    size == 0 || (leb size (length events) && same_event host (get_elem? events (size - 1)) tail)

unfoldable pub invalidate_if_store_prefix_changed :
    Host → List AhpEvent → StateReplayIndex → StateReplayIndex
unfolding record_store_state clear_cache prior_tail_preserved
invalidate_if_store_prefix_changed host events s = record_store_state events (
    if prior_tail_preserved host events s.observed_store_size s.observed_store_tail
    then s
    else clear_cache s)

unfoldable pub cached_event : Host → List AhpEvent → ℕ → CachedReplay → Bool
cached_event host events n cached = same_event host (some cached.target_event) (get_elem? events n)

unfoldable pub delete_cached : ℕ → CachedReplay → StateReplayIndex → StateReplayIndex
delete_cached n cached s = record s {
  cache = remove n s.cache;
  cache_cost_bytes = s.cache_cost_bytes - cached.cost_bytes;
}

-- the loop, on the entries from the oldest on
unfoldable pub evict : ℕ → ℕ → Map ℕ CachedReplay → ℕ → Map ℕ CachedReplay × ℕ
evict max_entries max_cost [] cost = ([], cost)
evict max_entries max_cost ((n, cached) ∷ cache) cost =
    let fewer = evict max_entries max_cost cache (cost - cached.cost_bytes) in
    if ltb max_entries (length ((n, cached) ∷ cache)) || ltb max_cost cost
    then fewer
    else ((n, cached) ∷ cache, cost)

unfoldable pub evict_to_bounds : StateReplayIndex → StateReplayIndex
unfolding evict
evict_to_bounds s =
    let kept = evict s.max_entries s.max_cost_bytes s.cache s.cache_cost_bytes in
    record s { cache = kept.0; cache_cost_bytes = kept.1 }

abbrev pub answer :
    Bool → ReplayResult → StateReplayIndex → StateReplayIndexResult × StateReplayIndex
answer hit result s = (
  record {
    result = result;
    cache = record { hit = hit; size = length s.cache; max_entries = s.max_entries };
  },
  s,
)

-- a replay that is kept, if it is not too large
unfoldable pub store_replay :
    ReplayResult → ℕ → ℕ → Option AhpEvent → StateReplayIndex → StateReplayIndex
unfolding evict_to_bounds
store_replay result cost n none s = s
store_replay result cost n (some event) s =
    if ltb 0 s.max_entries && leb cost s.max_cost_bytes
    then evict_to_bounds (record s {
      cache =
          insert n (record { result = result; cost_bytes = cost; target_event = event }) s.cache;
      cache_cost_bytes = s.cache_cost_bytes + cost;
    })
    else s

unfoldable pub compute :
    Host → List AhpEvent → ℕ → StateReplayIndex → StateReplayIndexResult × StateReplayIndex
unfolding store_replay
compute host events n s =
    let result = replay_to_index host.protocol events (pos n) in
    answer false result
      (store_replay result (host.estimate result s.max_cost_bytes) n (get_elem? events n) s)

unfoldable pub use_cached :
    Host
    → List AhpEvent
    → ℕ
    → CachedReplay
    → StateReplayIndex
    → StateReplayIndexResult × StateReplayIndex
unfolding compute delete_cached cached_event
use_cached host events n cached s =
    if cached_event host events n cached
    then answer true cached.result (record s { cache = insert n cached (remove n s.cache) })
    else compute host events n (delete_cached n cached s)

-- at a target inside the store
unfoldable pub at_cacheable :
    Host → List AhpEvent → ℕ → StateReplayIndex → StateReplayIndexResult × StateReplayIndex
unfolding compute use_cached
at_cacheable host events n s = elim (lookup n s.cache) [
  | none ↦ compute host events n s
  | some cached ↦ use_cached host events n cached s
]

unfoldable pub at_target :
    Host → List AhpEvent → ℤ → StateReplayIndex → StateReplayIndexResult × StateReplayIndex
unfolding at_cacheable
at_target host events (pos n) s =
    if ltb n (length events)
    then at_cacheable host events n s
    else answer false (replay_to_index host.protocol events (pos n)) s
at_target host events (negsuc n) s =
    answer false (replay_to_index host.protocol events (negsuc n)) s

unfoldable pub state_at_index :
    Host → List AhpEvent → ℤ → StateReplayIndex → StateReplayIndexResult × StateReplayIndex
unfolding at_target invalidate_if_store_prefix_changed
state_at_index host events target s =
    at_target host events target (invalidate_if_store_prefix_changed host events s)
