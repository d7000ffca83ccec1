-- ===== src/Core/Correlator/Parking.antt =====
-- Parking keeps the invariant of the correlator: an entry with the key is displaced, or the oldest
-- entry makes room.
use ahp_inspector.Base.{
  ℕ, true, none, List, [], ◌∷◌, ◌≡◌, inl, inr, arith, length, leb, Map, lookup, string_eq, eq_iff,
  length-insert, Bool-cases, Option-cases,
}
use ahp_inspector.Shared.Event.{AhpEvent, request, response}
use ahp_inspector.Shared.Correlation.{
  CorrelationKey, correlation_key_for_request, correlation_key_for_response,
}
use ahp_inspector.Core.Correlator.Parked.{Waits, Parked-tail, Parked-head}
use ahp_inspector.Core.Correlator.Invariant.{Inv, mark-Inv, park_request-Inv, park_response-Inv}
use ahp_inspector.Core.Correlator.{
  Correlator, unmatched, orphan, max_pending, evict_request, displace_request, park_request,
  drop_oldest, displace_response, park_response,
}

module _ {es : List AhpEvent} {n : ℕ} (c : Correlator) where
  tail_request-Inv :
      {k₀ : CorrelationKey} {i₀ : ℕ} {m : Map CorrelationKey ℕ}
      → Inv es n (record c { pending_requests = (k₀, i₀) ∷ m })
      → Inv es n (record c { pending_requests = m })
  unfolding lookup
  tail_request-Inv {k₀} v = record {
    requests = Parked-tail v.requests;
    responses = v.responses;
    disjoint = λ k i e. v.disjoint k i (ground (arith, eq_iff k₀ k, v.requests.is_map.0));
    paired = v.paired;
  }

  tail_response-Inv :
      {k₀ : CorrelationKey} {i₀ : ℕ} {m : Map CorrelationKey ℕ}
      → Inv es n (record c { pending_responses = (k₀, i₀) ∷ m })
      → Inv es n (record c { pending_responses = m })
  unfolding lookup
  tail_response-Inv {k₀} v = record {
    requests = v.requests;
    responses = Parked-tail v.responses;
    disjoint = λ k i e. ground (arith, v.disjoint k i e);
    paired = v.paired;
  }

  module _ (k : CorrelationKey) (i : ℕ) where
    evict_request-Inv :
        (m : Map CorrelationKey ℕ)
        → Inv es n (record c { pending_requests = m })
        → Waits es n c.pair_idx request correlation_key_for_request k i
        → lookup k c.pending_responses ≡ none
        → lookup k m ≡ none
        → leb max_pending (length m) ≡ true
        → Inv es n (park_request (evict_request c m) k i)
    unfolding evict_request
    evict_request-Inv [] v w alone new full = absurd (ground arith)
    evict_request-Inv ((k₀, i₀) ∷ m) v w alone new full =
        park_request-Inv k i w alone (ground (arith, length-insert k i m, v.requests.bounded))
          (mark-Inv i₀ unmatched (Parked-head v.requests).unpaired (tail_request-Inv v))

    -- a request is parked, in the place of one with its key, or after the oldest made room
    pub park_new_request-Inv :
        Inv es n c
        → Waits es n c.pair_idx request correlation_key_for_request k i
        → lookup k c.pending_responses ≡ none
        → Inv es n (park_request (displace_request c k) k i)
    unfolding displace_request
    park_new_request-Inv v w alone = elim (Option-cases (lookup k c.pending_requests)) [
      | inr (d, old) ↦
          rw (old, displace_request)
            (park_request-Inv k i w alone
              (ground (arith, length-insert k i c.pending_requests, v.requests.bounded))
              (mark-Inv d orphan (v.requests.waits k d old).unpaired v))
      | inl new ↦ elim (Bool-cases (leb max_pending (length c.pending_requests))) [
        | inl full ↦
            rw (new, full, displace_request)
              (evict_request-Inv c.pending_requests v w alone new full)
        | inr room ↦
            rw (new, room, displace_request)
              (park_request-Inv k i w alone (ground (arith, length-insert k i c.pending_requests))
                v)
      ]
    ]

    drop_oldest-Inv :
        (m : Map CorrelationKey ℕ)
        → Inv es n (record c { pending_responses = m })
        → Waits es n c.pair_idx response correlation_key_for_response k i
        → lookup k c.pending_requests ≡ none
        → lookup k m ≡ none
        → leb max_pending (length m) ≡ true
        → Inv es n (park_response (record c { pending_responses = drop_oldest m }) k i)
    unfolding drop_oldest
    drop_oldest-Inv [] v w alone new full = absurd (ground arith)
    drop_oldest-Inv ((k₀, i₀) ∷ m) v w alone new full =
        park_response-Inv k i w alone (ground (arith, length-insert k i m, v.responses.bounded))
          (tail_response-Inv v)

    -- the same for a response that came early
    pub park_new_response-Inv :
        Inv es n c
        → Waits es n c.pair_idx response correlation_key_for_response k i
        → lookup k c.pending_requests ≡ none
        → Inv es n (park_response (displace_response c k) k i)
    unfolding displace_response
    park_new_response-Inv v w alone = elim (Option-cases (lookup k c.pending_responses)) [
      | inr (d, old) ↦
          rw (old, displace_response)
            (park_response-Inv k i w alone
              (ground (arith, length-insert k i c.pending_responses, v.responses.bounded))
              (mark-Inv d orphan (v.responses.waits k d old).unpaired v))
      | inl new ↦ elim (Bool-cases (leb max_pending (length c.pending_responses))) [
        | inl full ↦
            rw (new, full, displace_response)
              (drop_oldest-Inv c.pending_responses v w alone new full)
        | inr room ↦
            rw (new, room, displace_response)
              (park_response-Inv k i w alone (ground (arith, length-insert k i c.pending_responses))
                v)
      ]
    ]
