-- ===== src/Server/StateReplayIndex/Cache.antt =====
-- The cache of replays: its cost is the sum of its entries, and eviction ends within both bounds.
use ahp_inspector.Base.{
  ℕ, ◌+◌, ◌-◌, ◌≤◌, Bool, true, false, ◌||◌, Option, none, some, [], ◌∷◌, ◌≡◌, ap, arith,
  if◌then◌else◌, if-cases, Map, IsMap, All, lookup, insert, remove, nat_eq, ltb, length, ◌==◌,
}
use ahp_inspector.Server.StateReplayIndex.{CachedReplay, evict}

unfoldable pub total : Map ℕ CachedReplay → ℕ
total [] = 0
total ((n, cached) ∷ cache) = cached.cost_bytes + total cache

abbrev cost_of : Option CachedReplay → ℕ
cost_of none = 0
cost_of (some x) = x.cost_bytes

pub total-remove :
    (n : ℕ) (c : CachedReplay) (m : Map ℕ CachedReplay)
    → lookup n m ≡ some c
    → total (remove n m) + c.cost_bytes ≡ total m
unfolding total remove lookup
total-remove n c [] h = absurd (ground (arith, h))
total-remove n c ((j, d) ∷ m) h = pick (j == n) (total-remove n c m) h
  where
    pick :
        (b : Bool)
        → (lookup n m ≡ some c → total (remove n m) + c.cost_bytes ≡ total m)
        → (if b then some d else lookup n m) ≡ some c
        → total (if b then m else (j, d) ∷ remove n m) + c.cost_bytes ≡ d.cost_bytes + total m
    pick true more e = omega (arith, ap cost_of e)
    pick false more e = omega (arith, more e)

pub total-insert :
    (n : ℕ) (c : CachedReplay) (m : Map ℕ CachedReplay)
    → lookup n m ≡ none
    → total (insert n c m) ≡ total m + c.cost_bytes
unfolding total insert lookup
total-insert n c [] h = omega arith
total-insert n c ((j, d) ∷ m) h = ground (arith, h, total-insert n c m)

pub record IsBounded (max_entries max_cost : ℕ) (m : Map ℕ CachedReplay) (cost : ℕ) : Type 0 where
  pub entries : length m ≤ max_entries
  pub within : cost ≤ max_cost
  pub sum : cost ≡ total m

pub evict-IsBounded :
    (max_entries max_cost : ℕ) (m : Map ℕ CachedReplay) (cost : ℕ)
    → cost ≡ total m
    → IsBounded max_entries max_cost
        (evict max_entries max_cost m cost).0
        (evict max_entries max_cost m cost).1
unfolding evict total
evict-IsBounded max_entries max_cost [] cost h = record {
  entries = omega arith;
  within = omega (arith, h);
  sum = h;
}
evict-IsBounded max_entries max_cost ((n, c) ∷ m) cost h =
    if-cases (λ (r : Map ℕ CachedReplay × ℕ). IsBounded max_entries max_cost r.0 r.1)
      (ltb max_entries (length ((n, c) ∷ m)) || ltb max_cost cost) _ _
      (λ _. evict-IsBounded max_entries max_cost m (cost - c.cost_bytes) (omega (arith, h)))
      (λ stays. record { entries = ground (arith, stays); within = ground (arith, stays); sum = h })

pub evict-All :
    (P : ℕ × CachedReplay → Type 0) (max_entries max_cost : ℕ) (m : Map ℕ CachedReplay) (cost : ℕ)
    → All P m
    → IsMap m
    → All P (evict max_entries max_cost m cost).0 × IsMap (evict max_entries max_cost m cost).0
unfolding evict
evict-All P max_entries max_cost [] cost h d = (tt, tt)
evict-All P max_entries max_cost ((n, c) ∷ m) cost h d =
    if-cases (λ (r : Map ℕ CachedReplay × ℕ). All P r.0 × IsMap r.0)
      (ltb max_entries (length ((n, c) ∷ m)) || ltb max_cost cost) _ _
      (λ _. evict-All P max_entries max_cost m (cost - c.cost_bytes) h.1 d.1) (λ _. (h, d))
