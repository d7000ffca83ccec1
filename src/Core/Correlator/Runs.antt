-- ===== src/Core/Correlator/Runs.antt =====
-- The store and its correlator over any run: events are appended, the parked requests are flushed, the
-- changed indexes drained, and a rotation of the log resets both.
use ahp_inspector.Base.{
  ℕ, suc, ◌+◌, ◌-◌, ◌≤◌, ◌<◌, none, some, List, [], ◌∷◌, ◌++◌, ◌≡◌, ◌⊎◌, inl, inr, sym, subst,
  arith, ◌∙◌, length, length-append, get_elem?, lookup, string_eq, get_elem?-append_lt,
  get_elem?-append_length, All, All-get_elem?,
}
use ahp_inspector.Base.Int.{ℤ, pos}
use ahp_inspector.Shared.Event.{AhpEvent, EventKind, id_type_of}
use ahp_inspector.Shared.Correlation.{
  CorrelationKey, opposite, correlation_key_for_request, correlation_key_for_response,
}
use ahp_inspector.Shared.Correlation.Injective.{correlation_keys_iff}
use ahp_inspector.Core.Store.{EventStore, at, empty, append, range_of}
use ahp_inspector.Core.Store
use ahp_inspector.Core.Correlator.Parked.{Waits, Parked}
use ahp_inspector.Core.Correlator.Paired.{Answers, Pair}
use ahp_inspector.Core.Correlator.Invariant.{Inv, init-Inv}
use ahp_inspector.Core.Correlator.Steps.{on_event-Inv, flush-Inv}
use ahp_inspector.Core.Correlator.{
  Correlator, ok, error, init, pair_of, status_of, from_slot, max_pending, on_event,
  on_append_rounds, on_append, flush, reset, drain_changed_indexes,
}

pub record System : Type 0 where
  pub store : EventStore
  pub correlator : Correlator

abbrev pub start : System
start = record { store = empty; correlator = init }

abbrev pub ingest : System → AhpEvent → System
ingest s ev =
    let store' = append s.store ev in
    record { store = store'; correlator = on_append store' s.correlator (range_of s.store) }

pub data Step : System → System → Type 0 where
  ingests : (s : System) (ev : AhpEvent) → Step s (ingest s ev)
  flushes :
      (s : System) (now timeout : ℤ)
      → Step s (record s { correlator = flush s.store s.correlator now timeout })
  drains : (s : System) → Step s (record s { correlator = (drain_changed_indexes s.correlator).1 })
  resets :
      (s : System)
      → Step s (record { store = Store.reset s.store; correlator = reset s.correlator })

pub data Reach : System → Type 0 where
  here : Reach start
  next : {s t : System} → Reach s → Step s t → Reach t

abbrev Good : System → Type 0
Good s = Inv s.store.events (length s.store.events) s.correlator

module _ {es : List AhpEvent} (ev : AhpEvent) where
  Waits-append :
      {p : _} {kind : EventKind} {key : AhpEvent → CorrelationKey} {k : CorrelationKey} {i : ℕ}
      → Waits es (length es) p kind key k i
      → Waits (es ++ ev ∷ []) (length es) p kind key k i
  Waits-append {i = i} w = record {
    event = w.event;
    at_index = get_elem?-append_lt es (ev ∷ []) i w.below ∙ w.at_index;
    of_kind = w.of_kind;
    has_key = w.has_key;
    below = w.below;
    unpaired = w.unpaired;
  }

  Answers-append :
      {q r : ℕ} → q < length es → r < length es → Answers es q r → Answers (es ++ ev ∷ []) q r
  Answers-append {q} {r} bq br a = record {
    asked = a.asked;
    reply = a.reply;
    at_q = get_elem?-append_lt es (ev ∷ []) q bq ∙ a.at_q;
    at_r = get_elem?-append_lt es (ev ∷ []) r br ∙ a.at_r;
    is_request = a.is_request;
    is_response = a.is_response;
    same_key = a.same_key;
  }

  Parked-append :
      {p : _} {kind : EventKind} {key : AhpEvent → CorrelationKey} {m : _}
      → Parked es (length es) p kind key m
      → Parked (es ++ ev ∷ []) (length es) p kind key m
  Parked-append h = record {
    is_map = h.is_map;
    bounded = h.bounded;
    waits = λ k i e. Waits-append (h.waits k i e);
  }

  Pair-append :
      {p : _} {st : _} {i j : ℕ}
      → Pair es (length es) p st i j
      → Pair (es ++ ev ∷ []) (length es) p st i j
  Pair-append {i = i} {j = j} w = record {
    back = w.back;
    below = w.below;
    answers = elim w.answers [
      | inl a ↦ inl (Answers-append w.below.0 w.below.1 a)
      | inr a ↦ inr (Answers-append w.below.1 w.below.0 a)
    ];
    settled = w.settled;
  }

  Inv-append : {c : Correlator} → Inv es (length es) c → Inv (es ++ ev ∷ []) (length es) c
  Inv-append v = record {
    requests = Parked-append v.requests;
    responses = Parked-append v.responses;
    disjoint = v.disjoint;
    paired = record { pairs = λ i j e. Pair-append (v.paired.pairs i j e) };
  }

-- one event appended is one round of the loop
pub on_append_one :
    (store : EventStore) (c : Correlator) (s : EventStore)
    → on_append store c (range_of s) ≡ on_event store c (length s.events)
unfolding on_append on_append_rounds
on_append_one store c s =
    let one : length s.events + 1 - length s.events ≡ 1 = omega arith in rw (one, on_append_rounds)

ingest-Good : (s : System) (ev : AhpEvent) → Good s → Good (ingest s ev)
unfolding append
ingest-Good s ev v =
    let store' = append s.store ev in
    subst (λ k. Inv store'.events k (on_append store' s.correlator (range_of s.store)))
      (omega (arith, length-append s.store.events (ev ∷ [])))
      (subst (Inv store'.events (suc (length s.store.events)))
        (sym (on_append_one store' s.correlator s.store))
        (on_event-Inv store' (length s.store.events) s.correlator ev
          (get_elem?-append_length s.store.events ev []) (Inv-append ev v)))

Step-Good : {s t : System} → Step s t → Good s → Good t
unfolding drain_changed_indexes Store.reset reset
Step-Good (ingests s ev) v = ingest-Good s ev v
Step-Good (flushes s now timeout) v = flush-Inv s.store now timeout _ s.correlator v
Step-Good (drains s) v = record {
  requests = v.requests;
  responses = v.responses;
  disjoint = v.disjoint;
  paired = v.paired;
}
Step-Good (resets s) v = unfold empty in init-Inv []

Reach-Good : {s : System} → Reach s → Good s
Reach-Good here = unfold empty in init-Inv []
Reach-Good (next r st) = Step-Good st (Reach-Good r)

-- After any run, if an event has a partner, the partner has it for its own, one of the two is a
-- request and the other a response with its key, and both have one status, `ok` or `error`.
pub pair_of-partner :
    {s : System}
    → Reach s
    → (i j : ℕ) → pair_of s.correlator i ≡ some j
    → (pair_of s.correlator j ≡ some i)
      × (Answers s.store.events i j ⊎ Answers s.store.events j i)
      × (status_of s.correlator i ≡ status_of s.correlator j)
      × ((status_of s.correlator i ≡ ok) ⊎ (status_of s.correlator i ≡ error))
unfolding pair_of status_of
pair_of-partner {s} r i j e =
    let w = (Reach-Good r).paired.pairs i j (slot e) in
    (ground (arith, w.back), w.answers, ground (arith, w.settled), ground (arith, w.settled))
  where
    slot : from_slot (s.correlator.pair_idx i) ≡ some j → s.correlator.pair_idx i ≡ some (pos j)
    slot h = ground arith

-- After any run, at most 10,000 requests and 10,000 responses are parked, and no key is parked on
-- both sides.
pub parked_bounds :
    {s : System}
    → Reach s
    → (length s.correlator.pending_requests ≤ max_pending)
      × (length s.correlator.pending_responses ≤ max_pending)
      × ((k : CorrelationKey) (i : ℕ)
          → lookup k s.correlator.pending_requests ≡ some i
          → lookup k s.correlator.pending_responses ≡ none)
parked_bounds r = let v = Reach-Good r in (v.requests.bounded, v.responses.bounded, v.disjoint)

Answers-ids :
    {es : List AhpEvent} {q r : ℕ}
    → All (λ e. e.id_type ≡ id_type_of e.id) es
    → Answers es q r
    → (a b : AhpEvent) → get_elem? es q ≡ some a
    → get_elem? es r ≡ some b
    → (a.dir ≡ opposite b.dir) × (a.id ≡ b.id)
Answers-ids {es} {q} {r} tags w a b ea eb =
    (correlation_keys_iff a b (All-get_elem? _ es q a tags ea) (All-get_elem? _ es r b tags eb)).0
      keys
  where
    keys : correlation_key_for_request a ≡ correlation_key_for_response b
    keys = cc (w.at_q, w.at_r, w.same_key, ea, eb)

-- After any run over events whose id type is the tag of their id, as the normalizer makes them, two
-- partners travelled in opposite directions and carry the same id.
pub partners_same_id :
    {s : System}
    → Reach s
    → All (λ e. e.id_type ≡ id_type_of e.id) s.store.events
    → (i j : ℕ) (a b : AhpEvent) → pair_of s.correlator i ≡ some j
    → at s.store i ≡ some a
    → at s.store j ≡ some b
    → (a.dir ≡ opposite b.dir) × (a.id ≡ b.id)
unfolding at
partners_same_id r tags i j a b e ea eb = elim (pair_of-partner r i j e).1 [
  | inl w ↦ Answers-ids tags w a b ea eb
  | inr w ↦ let (d, same) = Answers-ids tags w b a eb ea in (ground (arith, d), sym same)
]
