-- ===== src/Core/Correlator/Invariant.antt =====
-- The invariant of the correlator, kept by every operation: the two maps and the pairs.
use ahp_inspector.Base.{
  ℕ, suc, ◌≤◌, ◌<◌, none, some, List, ◌≡◌, ◌≢◌, inl, inr, refl, subst, arith, length, Map, lookup,
  insert, remove, string_eq, str_eq, eq_iff, lookup-insert, lookup-remove, Bool-cases,
}
use ahp_inspector.Base.Int.{ℤ, pos, negsuc}
use ahp_inspector.Shared.Event.{AhpEvent, request, response}
use ahp_inspector.Shared.Correlation.{
  CorrelationKey, correlation_key_for_request, correlation_key_for_response,
}
use ahp_inspector.Core.Store.{EventStore}
use ahp_inspector.Core.Correlator.Parked.{
  Waits, Parked, Parked-nil, Parked-suc, Parked-assign, Parked-remove, Parked-insert,
}
use ahp_inspector.Core.Correlator.Paired.{
  Answers, Paired, Paired-suc, Paired-status, Paired-fill, Paired-pair,
}
use ahp_inspector.Core.Correlator.{
  Correlator, Column, Status, pending, n_a, max_pending, init, pair, mark, fill, park_request,
  park_response,
}

abbrev pub Requests : List AhpEvent → ℕ → Column ℤ → Map CorrelationKey ℕ → Type 0
Requests es n p m = Parked es n p request correlation_key_for_request m

abbrev pub Responses : List AhpEvent → ℕ → Column ℤ → Map CorrelationKey ℕ → Type 0
Responses es n p m = Parked es n p response correlation_key_for_response m

pub record Inv (es : List AhpEvent) (n : ℕ) (c : Correlator) : Type 0 where
  pub requests : Requests es n c.pair_idx c.pending_requests
  pub responses : Responses es n c.pair_idx c.pending_responses
  pub disjoint :
      (k : CorrelationKey) (i : ℕ)
      → lookup k c.pending_requests ≡ some i
      → lookup k c.pending_responses ≡ none
  pub paired : Paired es n c.pair_idx c.status

pub init-Inv : (es : List AhpEvent) → Inv es 0 init
unfolding init
init-Inv es = record {
  requests = Parked-nil;
  responses = Parked-nil;
  disjoint = λ k i h. unfold lookup in refl;
  paired = record { pairs = λ i j e. absurd (cc) };
}

module _ {es : List AhpEvent} {n : ℕ} where
  pub suc-Inv : {c : Correlator} → Inv es n c → Inv es (suc n) c
  suc-Inv v = record {
    requests = Parked-suc v.requests;
    responses = Parked-suc v.responses;
    disjoint = v.disjoint;
    paired = Paired-suc v.paired;
  }

  pub mark-Inv :
      {c : Correlator} (i : ℕ) (s : Status)
      → c.pair_idx i ≡ some (negsuc 0)
      → Inv es n c
      → Inv es n (mark c i s)
  mark-Inv i s free v = record {
    requests = v.requests;
    responses = v.responses;
    disjoint = v.disjoint;
    paired = Paired-status v.paired i s free;
  }

  pub fill-Inv : {c : Correlator} (i : ℕ) → n ≤ i → Inv es n c → Inv es n (fill c i)
  fill-Inv i above v = record {
    requests =
        Parked-assign v.requests i (negsuc 0)
          (λ k x e. ground (arith, (v.requests.waits k x e).below));
    responses =
        Parked-assign v.responses i (negsuc 0)
          (λ k x e. ground (arith, (v.responses.waits k x e).below));
    disjoint = v.disjoint;
    paired = Paired-fill v.paired i n_a above;
  }

  pub remove_request-Inv :
      {c : Correlator} (k : CorrelationKey)
      → Inv es n c
      → Inv es n (record c { pending_requests = remove k c.pending_requests })
  remove_request-Inv {c} k v = record {
    requests = Parked-remove v.requests k;
    responses = v.responses;
    disjoint = λ j i e.
        v.disjoint j i (ground (arith, lookup-remove k j c.pending_requests v.requests.is_map));
    paired = v.paired;
  }

  pub remove_response-Inv :
      {c : Correlator} (k : CorrelationKey)
      → Inv es n c
      → Inv es n (record c { pending_responses = remove k c.pending_responses })
  remove_response-Inv {c} k v = record {
    requests = v.requests;
    responses = Parked-remove v.responses k;
    disjoint = λ j i e.
        ground (arith, v.disjoint j i e, lookup-remove k j c.pending_responses v.responses.is_map);
    paired = v.paired;
  }

  pub park_request-Inv :
      {c : Correlator} (k : CorrelationKey) (i : ℕ)
      → Waits es n c.pair_idx request correlation_key_for_request k i
      → lookup k c.pending_responses ≡ none
      → length (insert k i c.pending_requests) ≤ max_pending
      → Inv es n c
      → Inv es n (park_request c k i)
  unfolding park_request
  park_request-Inv {c} k i w alone small v = mark-Inv i pending w.unpaired (record {
    requests = Parked-insert v.requests k i w small;
    responses = v.responses;
    disjoint = λ j x e. elim (Bool-cases (str_eq k j)) [
      | inl same ↦ subst (λ y. lookup y c.pending_responses ≡ none) ((eq_iff k j).0 same) alone
      | inr other ↦ v.disjoint j x (ground (arith, lookup-insert k j i c.pending_requests))
    ];
    paired = v.paired;
  })

  pub park_response-Inv :
      {c : Correlator} (k : CorrelationKey) (i : ℕ)
      → Waits es n c.pair_idx response correlation_key_for_response k i
      → lookup k c.pending_requests ≡ none
      → length (insert k i c.pending_responses) ≤ max_pending
      → Inv es n c
      → Inv es n (park_response c k i)
  unfolding park_response
  park_response-Inv {c} k i w alone small v = record {
    requests = v.requests;
    responses = Parked-insert v.responses k i w small;
    disjoint = λ j x e.
        ground
          (arith, eq_iff k j, alone, v.disjoint j x e, lookup-insert k j i c.pending_responses);
    paired = v.paired;
  }

  -- A request and its response, both free and out of the maps, may be paired.
  pub pair-Inv :
      {c : Correlator} (store : EventStore) (q r : ℕ)
      → c.pair_idx q ≡ some (negsuc 0)
      → c.pair_idx r ≡ some (negsuc 0)
      → q < n
      → r < n
      → q ≢ r
      → Answers es q r
      → ((k : CorrelationKey) (i : ℕ) → lookup k c.pending_requests ≡ some i → (i ≢ q) × (i ≢ r))
      → ((k : CorrelationKey) (i : ℕ) → lookup k c.pending_responses ≡ some i → (i ≢ q) × (i ≢ r))
      → Inv es n c
      → Inv es n (pair store c q r)
  unfolding pair
  pair-Inv store q r fq fr bq br ne a apart_requests apart_responses v = record {
    requests =
        Parked-assign (Parked-assign v.requests q (pos r) (λ k i e. (apart_requests k i e).0)) r
          (pos q) (λ k i e. (apart_requests k i e).1);
    responses =
        Parked-assign (Parked-assign v.responses q (pos r) (λ k i e. (apart_responses k i e).0)) r
          (pos q) (λ k i e. (apart_responses k i e).1);
    disjoint = v.disjoint;
    paired = Paired-pair v.paired q r _ fq fr bq br ne a;
  }
