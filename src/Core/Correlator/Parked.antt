-- ===== src/Core/Correlator/Parked.antt =====
-- The two maps of the correlator: what an entry says of the event that it points to.
use ahp_inspector.Base.{
  All, ℕ, suc, ◌≤◌, ◌<◌, some, List, [], ◌∷◌, ◌≡◌, ◌≢◌, inl, inr, subst, arith, length, get_elem?,
  Map, lookup, insert, remove, IsMap, string_eq, str_eq, eq_iff, lookup-insert, lookup-remove,
  insert-IsMap, remove-IsMap, length-remove, Bool-cases,
}
use ahp_inspector.Base.Int.{ℤ, negsuc}
use ahp_inspector.Shared.Event.{AhpEvent, EventKind}
use ahp_inspector.Shared.Correlation.{CorrelationKey}
use ahp_inspector.Core.Correlator.{Column, assign, max_pending}

-- The event at `i` is of the kind, has the key, and is not paired.
pub record Waits (es : List AhpEvent) (n : ℕ) (p : Column ℤ) (kind : EventKind)
    (key : AhpEvent → CorrelationKey) (k : CorrelationKey) (i : ℕ) : Type 0 where
  pub event : AhpEvent
  pub at_index : get_elem? es i ≡ some event
  pub of_kind : event.kind ≡ kind
  pub has_key : key event ≡ k
  pub below : i < n
  pub unpaired : p i ≡ some (negsuc 0)

pub record Parked (es : List AhpEvent) (n : ℕ) (p : Column ℤ) (kind : EventKind)
    (key : AhpEvent → CorrelationKey) (m : Map CorrelationKey ℕ) : Type 0 where
  pub is_map : IsMap m
  pub bounded : length m ≤ max_pending
  pub waits : (k : CorrelationKey) (i : ℕ) → lookup k m ≡ some i → Waits es n p kind key k i

module _ {es : List AhpEvent} {n : ℕ} {p : Column ℤ} {kind : EventKind}
    {key : AhpEvent → CorrelationKey} where
  -- two entries that point to one event have one key
  pub Waits-key :
      {k k' : CorrelationKey} {i : ℕ}
      → Waits es n p kind key k i
      → Waits es n p kind key k' i
      → k ≡ k'
  Waits-key w w' = cc (w.at_index, w'.at_index, w.has_key, w'.has_key)

  pub Waits-suc :
      {k : CorrelationKey} {i : ℕ} → Waits es n p kind key k i → Waits es (suc n) p kind key k i
  Waits-suc w = record {
    event = w.event;
    at_index = w.at_index;
    of_kind = w.of_kind;
    has_key = w.has_key;
    below = omega (arith, w.below);
    unpaired = w.unpaired;
  }

  pub Waits-assign :
      {k : CorrelationKey} {i : ℕ} (q : ℕ) (v : ℤ)
      → i ≢ q
      → Waits es n p kind key k i
      → Waits es n (assign q v p) kind key k i
  Waits-assign {i = i} q v h w = record {
    event = w.event;
    at_index = w.at_index;
    of_kind = w.of_kind;
    has_key = w.has_key;
    below = w.below;
    unpaired = ground (arith, w.unpaired);
  }

  pub Parked-nil : Parked es n p kind key []
  unfolding lookup
  Parked-nil = record { is_map = tt; bounded = omega arith; waits = λ k i h. absurd (cc h) }

  module _ {m : Map CorrelationKey ℕ} (h : Parked es n p kind key m) where
    pub Parked-suc : Parked es (suc n) p kind key m
    Parked-suc = record {
      is_map = h.is_map;
      bounded = h.bounded;
      waits = λ k i e. Waits-suc (h.waits k i e);
    }

    pub Parked-assign :
        (q : ℕ) (v : ℤ)
        → ((k : CorrelationKey) (i : ℕ) → lookup k m ≡ some i → i ≢ q)
        → Parked es n (assign q v p) kind key m
    Parked-assign q v apart = record {
      is_map = h.is_map;
      bounded = h.bounded;
      waits = λ k i e. Waits-assign q v (apart k i e) (h.waits k i e);
    }

    pub Parked-remove : (k : CorrelationKey) → Parked es n p kind key (remove k m)
    Parked-remove k = record {
      is_map = remove-IsMap k m h.is_map;
      bounded = omega (arith, length-remove k m, h.bounded);
      waits = λ j i e. h.waits j i (ground (arith, lookup-remove k j m h.is_map));
    }

    pub Parked-insert :
        (k : CorrelationKey) (i : ℕ)
        → Waits es n p kind key k i
        → length (insert k i m) ≤ max_pending
        → Parked es n p kind key (insert k i m)
    Parked-insert k i w small = record {
      is_map = insert-IsMap k i m h.is_map;
      bounded = small;
      waits = λ j x e. elim (Bool-cases (str_eq k j)) [
        | inl same ↦
            subst (λ y. Waits es n p kind key y x) ((eq_iff k j).0 same)
              (subst (Waits es n p kind key k) (ground (arith, lookup-insert k j i m)) w)
        | inr other ↦ h.waits j x (ground (arith, lookup-insert k j i m))
      ];
    }

  module _ {k₀ : CorrelationKey} {i₀ : ℕ} {m : Map CorrelationKey ℕ}
      (h : Parked es n p kind key ((k₀, i₀) ∷ m)) where
    pub Parked-tail : Parked es n p kind key m
    unfolding lookup
    Parked-tail = record {
      is_map = h.is_map.1;
      bounded = omega (arith, h.bounded);
      waits = λ k i e. h.waits k i (ground (arith, eq_iff k₀ k, h.is_map.0));
    }

    pub Parked-head : Waits es n p kind key k₀ i₀
    unfolding lookup
    Parked-head = h.waits k₀ i₀ (ground (arith, eq_iff k₀ k₀))

-- every entry points to an event that is not paired
pub Parked-free :
    {es : List AhpEvent} {n : ℕ} {p : Column ℤ} {kind : EventKind} {key : AhpEvent → CorrelationKey}
    (m : Map CorrelationKey ℕ)
    → Parked es n p kind key m
    → All (λ e. p e.1 ≡ some (negsuc 0)) m
Parked-free [] h = tt
Parked-free ((k, i) ∷ m) h = ((Parked-head h).unpaired, Parked-free m (Parked-tail h))
