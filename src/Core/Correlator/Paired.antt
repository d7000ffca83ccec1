-- ===== src/Core/Correlator/Paired.antt =====
-- The pairs of the correlator: what an index says of the index that it is paired with.
use ahp_inspector.Base.{
  ℕ, suc, ◌≤◌, ◌<◌, Bool, some, List, ◌≡◌, ◌≢◌, ◌⊎◌, inl, inr, subst, arith, get_elem?,
  if◌then◌else◌, ◌==◌, Bool-cases, ==_iff,
}
use ahp_inspector.Base.Int.{ℤ, pos, negsuc}
use ahp_inspector.Shared.Event.{AhpEvent, request, response}
use ahp_inspector.Shared.Correlation.{correlation_key_for_request, correlation_key_for_response}
use ahp_inspector.Core.Correlator.{Column, assign, Status, ok, error}

-- Event `q` is a request, event `r` a response to it, by their keys.
pub record Answers (es : List AhpEvent) (q r : ℕ) : Type 0 where
  pub asked : AhpEvent
  pub reply : AhpEvent
  pub at_q : get_elem? es q ≡ some asked
  pub at_r : get_elem? es r ≡ some reply
  pub is_request : asked.kind ≡ request
  pub is_response : reply.kind ≡ response
  pub same_key : correlation_key_for_request asked ≡ correlation_key_for_response reply

-- Indices `i` and `j` are paired with one another, a request and its response, and both have the
-- outcome for their status.
pub record Pair (es : List AhpEvent) (n : ℕ) (p : Column ℤ) (st : Column Status) (i j : ℕ)
    : Type 0 where
  pub back : p j ≡ some (pos i)
  pub below : (i < n) × (j < n)
  pub answers : Answers es i j ⊎ Answers es j i
  pub settled : ((st i ≡ some ok) × (st j ≡ some ok)) ⊎ ((st i ≡ some error) × (st j ≡ some error))

pub record Paired (es : List AhpEvent) (n : ℕ) (p : Column ℤ) (st : Column Status) : Type 0 where
  pub pairs : (i j : ℕ) → p i ≡ some (pos j) → Pair es n p st i j

module _ {es : List AhpEvent} {n : ℕ} {p : Column ℤ} {st : Column Status}
    (h : Paired es n p st) where
  pub Paired-suc : Paired es (suc n) p st
  Paired-suc = record {
    pairs = λ i j e.
        let w = h.pairs i j e in
        record {
          back = w.back;
          below = omega (arith, w.below);
          answers = w.answers;
          settled = w.settled;
        };
  }

  -- a status of an index that is not paired is free to change
  pub Paired-status : (x : ℕ) (s : Status) → p x ≡ some (negsuc 0) → Paired es n p (assign x s st)
  Paired-status x s free = record {
    pairs = λ i j e.
        let w = h.pairs i j e in
        record {
          back = w.back;
          below = w.below;
          answers = w.answers;
          settled = ground (arith, w.settled, w.back);
        };
  }

  -- the default fill of an index that is not in use
  pub Paired-fill :
      (x : ℕ) (s : Status) → n ≤ x → Paired es n (assign x (negsuc 0) p) (assign x s st)
  Paired-fill x s above = record {
    pairs = λ i j e.
        let old : p i ≡ some (pos j) = ground arith in
        let w = h.pairs i j old in
        record {
          back = ground (arith, w.back, w.below);
          below = w.below;
          answers = w.answers;
          settled = ground (arith, w.settled, w.below);
        };
  }

  module _ (q r : ℕ) (b : Bool) (free_q : p q ≡ some (negsuc 0)) (free_r : p r ≡ some (negsuc 0))
      (bq : q < n) (br : r < n) (ne : q ≢ r) (a : Answers es q r) where
    abbrev p' : Column ℤ
    p' = assign r (pos q) (assign q (pos r) p)

    abbrev st' : Column Status
    st' = let s = if b then error else ok in assign r s (assign q s st)

    new-Pair : Pair es n p' st' q r
    new-Pair = record {
      back = ground arith;
      below = (bq, br);
      answers = inl a;
      settled = ground arith;
    }

    new-Pair_back : Pair es n p' st' r q
    new-Pair_back = record {
      back = ground arith;
      below = (br, bq);
      answers = inr a;
      settled = ground arith;
    }

    old-Pair : (i j : ℕ) → i ≢ q → i ≢ r → p i ≡ some (pos j) → Pair es n p' st' i j
    old-Pair i j iq ir e =
        let w = h.pairs i j e in
        let jq : j ≢ q = ground (arith, w.back) in
        let jr : j ≢ r = ground (arith, w.back) in
        record {
          back = ground (arith, w.back);
          below = w.below;
          answers = w.answers;
          settled = ground (arith, w.settled);
        }

    any-Pair : (i j : ℕ) → p' i ≡ some (pos j) → Pair es n p' st' i j
    any-Pair i j e = elim (Bool-cases (r == i)) [
      | inl at_r ↦
          subst (λ x. Pair es n p' st' x j) ((==_iff r i).0 at_r)
            (subst (Pair es n p' st' r) (ground arith) new-Pair_back)
      | inr not_r ↦ elim (Bool-cases (q == i)) [
        | inl at_q ↦
            subst (λ x. Pair es n p' st' x j) ((==_iff q i).0 at_q)
              (subst (Pair es n p' st' q) (ground arith) new-Pair)
        | inr not_q ↦ old-Pair i j (ground arith) (ground arith) (ground arith)
      ]
    ]

    -- Two free indices, a request and its response, may be paired.
    pub Paired-pair : Paired es n p' st'
    Paired-pair = record { pairs = any-Pair }
