-- ===== src/Core/Correlator/Steps.antt =====
-- Every operation of the correlator keeps its invariant.
use ahp_inspector.Base.{
  All, ℕ, suc, some, List, [], ◌∷◌, ◌≡◌, ◌≢◌, inl, inr, refl, sym, subst, arith, get_elem?, Map,
  lookup, remove, string_eq, eq_iff, lookup-remove, Bool-cases, Option-cases,
}
use ahp_inspector.Base.Int.{ℤ, negsuc, leb_ℤ, ◌-ℤ◌}
use ahp_inspector.Shared.Event.{AhpEvent, EventKind, request, response}
use ahp_inspector.Shared.Correlation.{
  CorrelationKey, correlation_key_for_request, correlation_key_for_response,
}
use ahp_inspector.Core.Store.{EventStore}
use ahp_inspector.Core.Correlator.Parked.{Waits, Waits-key, Parked-free}
use ahp_inspector.Core.Correlator.Paired.{Answers}
use ahp_inspector.Core.Correlator.Parking.{park_new_request-Inv, park_new_response-Inv}
use ahp_inspector.Core.Correlator.Invariant.{
  Inv, suc-Inv, mark-Inv, fill-Inv, remove_request-Inv, remove_response-Inv, pair-Inv,
}
use ahp_inspector.Core.Correlator.{
  Correlator, Column, unmatched, mark, fill, on_request, on_response, by_kind, on_event,
  flush_entries, flush,
}

-- a parked request and a parked response are two events
kinds_apart :
    {es : List AhpEvent} {n m : ℕ} {p : Column ℤ} {k k' : CorrelationKey} {i j : ℕ}
    → Waits es n p request correlation_key_for_request k i
    → Waits es m p response correlation_key_for_response k' j
    → i ≢ j
kinds_apart w w' e = cc (w.at_index, w'.at_index, w.of_kind, w'.of_kind, e)

module _ (store : EventStore) (n : ℕ) (c : Correlator) (ev : AhpEvent) where
  -- the new event, at the end of the store, with its slots filled
  record Fresh : Type 0 where
    here : get_elem? store.events n ≡ some ev
    free : c.pair_idx n ≡ some (negsuc 0)

  module _ (v : Inv store.events n c) (f : Fresh) where
    here-Waits :
        (kind : EventKind) (key : AhpEvent → CorrelationKey)
        → ev.kind ≡ kind
        → Waits store.events (suc n) c.pair_idx kind key (key ev) n
    here-Waits kind key e = record {
      event = ev;
      at_index = f.here;
      of_kind = e;
      has_key = refl;
      below = omega arith;
      unpaired = f.free;
    }

    early-Answers :
        (j : ℕ)
        → Waits store.events n c.pair_idx response correlation_key_for_response
            (correlation_key_for_request ev)
            j
        → ev.kind ≡ request
        → Answers store.events n j
    early-Answers j w e = record {
      asked = ev;
      reply = w.event;
      at_q = f.here;
      at_r = w.at_index;
      is_request = e;
      is_response = w.of_kind;
      same_key = sym w.has_key;
    }

    early_requests :
        (k : CorrelationKey) (i j : ℕ)
        → lookup k c.pending_requests ≡ some i
        → Waits store.events n c.pair_idx response correlation_key_for_response
            (correlation_key_for_request ev)
            j
        → (i ≢ n) × (i ≢ j)
    early_requests k i j p w =
        let r = v.requests.waits k i p in (omega (arith, r.below), kinds_apart r w)

    early_responses :
        (j : ℕ)
        → lookup (correlation_key_for_request ev) c.pending_responses ≡ some j
        → Waits store.events n c.pair_idx response correlation_key_for_response
            (correlation_key_for_request ev)
            j
        → (k : CorrelationKey) (i : ℕ)
        → lookup k (remove (correlation_key_for_request ev) c.pending_responses) ≡ some i
        → (i ≢ n) × (i ≢ j)
    early_responses j early w k i p =
        let key = correlation_key_for_request ev in
        let gone = lookup-remove key k c.pending_responses v.responses.is_map in
        let r = v.responses.waits k i (ground (arith, gone)) in
        (
          omega (arith, r.below),
          λ e.
              let same : key ≡ k = Waits-key w (
                subst (Waits store.events n c.pair_idx response correlation_key_for_response k) e
                  r) in
              ground (arith, gone, eq_iff key k),
        )

    on_request-Inv : ev.kind ≡ request → Inv store.events (suc n) (on_request store c n ev)
    unfolding on_request
    on_request-Inv e =
        elim (Option-cases (lookup (correlation_key_for_request ev) c.pending_responses)) [
          | inl alone ↦
              rw (alone, on_request)
                (park_new_request-Inv c _ n (suc-Inv v)
                  (here-Waits request correlation_key_for_request e) alone)
          | inr (j, early) ↦
              let w = v.responses.waits _ j early in
              rw (early, on_request)
                (pair-Inv store n j f.free w.unpaired (omega arith) (omega (arith, w.below))
                  (omega (arith, w.below)) (early-Answers j w e) (λ k i p. early_requests k i j p w)
                  (early_responses j early w)
                  (remove_response-Inv (correlation_key_for_request ev) (suc-Inv v)))
        ]

    late_responses :
        (j : ℕ)
        → Waits store.events n c.pair_idx request correlation_key_for_request
            (correlation_key_for_response ev)
            j
        → (k : CorrelationKey) (i : ℕ) → lookup k c.pending_responses ≡ some i
        → (i ≢ j) × (i ≢ n)
    late_responses j w k i p =
        let r = v.responses.waits k i p in (λ e. kinds_apart w r (sym e), omega (arith, r.below))

    late_requests :
        (j : ℕ)
        → lookup (correlation_key_for_response ev) c.pending_requests ≡ some j
        → Waits store.events n c.pair_idx request correlation_key_for_request
            (correlation_key_for_response ev)
            j
        → (k : CorrelationKey) (i : ℕ)
        → lookup k (remove (correlation_key_for_response ev) c.pending_requests) ≡ some i
        → (i ≢ j) × (i ≢ n)
    late_requests j asked w k i p =
        let key = correlation_key_for_response ev in
        let gone = lookup-remove key k c.pending_requests v.requests.is_map in
        let r = v.requests.waits k i (ground (arith, gone)) in
        (
          λ e.
              let same : key ≡ k = Waits-key w (
                subst (Waits store.events n c.pair_idx request correlation_key_for_request k) e
                  r) in
              ground (arith, gone, eq_iff key k),
          omega (arith, r.below),
        )

    late-Answers :
        (j : ℕ)
        → Waits store.events n c.pair_idx request correlation_key_for_request
            (correlation_key_for_response ev)
            j
        → ev.kind ≡ response
        → Answers store.events j n
    late-Answers j w e = record {
      asked = w.event;
      reply = ev;
      at_q = w.at_index;
      at_r = f.here;
      is_request = w.of_kind;
      is_response = e;
      same_key = w.has_key;
    }

    on_response-Inv : ev.kind ≡ response → Inv store.events (suc n) (on_response store c n ev)
    unfolding on_response
    on_response-Inv e =
        elim (Option-cases (lookup (correlation_key_for_response ev) c.pending_requests)) [
          | inl alone ↦
              rw (alone, on_response)
                (park_new_response-Inv c _ n (suc-Inv v)
                  (here-Waits response correlation_key_for_response e) alone)
          | inr (j, asked) ↦
              let w = v.requests.waits _ j asked in
              rw (asked, on_response)
                (pair-Inv store j n w.unpaired f.free (omega (arith, w.below)) (omega arith)
                  (omega (arith, w.below)) (late-Answers j w e) (late_requests j asked w)
                  (λ k i p. late_responses j w k i p)
                  (remove_request-Inv (correlation_key_for_response ev) (suc-Inv v)))
        ]

    by_kind-Inv :
        (kind : EventKind) → ev.kind ≡ kind → Inv store.events (suc n) (by_kind store c n ev kind)
    unfolding by_kind
    by_kind-Inv request e = on_request-Inv e
    by_kind-Inv response e = on_response-Inv e
    by_kind-Inv _ e = suc-Inv v

-- The event at the end of what was seen keeps the invariant, whatever it is.
pub on_event-Inv :
    (store : EventStore) (n : ℕ) (c : Correlator) (ev : AhpEvent)
    → get_elem? store.events n ≡ some ev
    → Inv store.events n c
    → Inv store.events (suc n) (on_event store c n)
unfolding on_event
on_event-Inv store n c ev here v =
    rw (here, on_event)
      (by_kind-Inv store n (fill c n) ev (fill-Inv n (omega arith) v)
        (record { here = here; free = ground arith }) ev.kind refl)

flush_entries-Inv :
    (store : EventStore) (now timeout : ℤ) (es : List AhpEvent) (n : ℕ)
    (entries : Map CorrelationKey ℕ) (c : Correlator)
    → All (λ e. c.pair_idx e.1 ≡ some (negsuc 0)) entries
    → Inv es n c
    → Inv es n (flush_entries store now timeout entries c)
unfolding flush_entries
flush_entries-Inv store now timeout es n [] c free v = v
flush_entries-Inv store now timeout es n ((k, i) ∷ entries) c free v =
    elim (Option-cases (get_elem? store.ts i)) [
      | inl e ↦ rw e (flush_entries-Inv store now timeout es n entries c free.1 v)
      | inr (ts, e) ↦ elim (Bool-cases (leb_ℤ timeout (now -ℤ ts))) [
        | inl old ↦
            rw (e, old)
              (flush_entries-Inv store now timeout es n entries
                (mark (record c { pending_requests = remove k c.pending_requests }) i unmatched)
                free.1 (mark-Inv i unmatched free.0 (remove_request-Inv k v)))
        | inr young ↦ rw (e, young) (flush_entries-Inv store now timeout es n entries c free.1 v)
      ]
    ]

pub flush-Inv :
    (store : EventStore) (now timeout : ℤ) (n : ℕ) (c : Correlator)
    → Inv store.events n c
    → Inv store.events n (flush store c now timeout)
unfolding flush
flush-Inv store now timeout n c v =
    flush_entries-Inv store now timeout store.events n c.pending_requests c
      (Parked-free c.pending_requests v.requests) v
