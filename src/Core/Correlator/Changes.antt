-- ===== src/Core/Correlator/Changes.antt =====
-- What the correlator notes as changed: an index whose slots an operation changes is among the changed
-- indexes, but for the index that the operation adds.
use mathlib.Core.Logic.{◌≢◌}
use ahp_inspector.Base.{
  ℕ, Bool, true, false, ◌||◌, Option, none, some, List, [], ◌∷◌, ◌≡◌, refl, ◌⊎◌, inr, arith, ◌==◌,
  ==_iff, if◌then◌else◌, Map, string_eq, lookup, insert, remove, get_elem?,
}
use ahp_inspector.Base.Int.{ℤ, ◌-ℤ◌, leb_ℤ}
use ahp_inspector.Shared.Event.{AhpEvent, EventKind, request, response}
use ahp_inspector.Core.Store.{EventStore, at}
use ahp_inspector.Shared.Correlation.{
  CorrelationKey, correlation_key_for_request, correlation_key_for_response,
}
use ahp_inspector.Core.Correlator.{
  Correlator, Status, n_a, fill, mark, orphan, pending, unmatched, drop_oldest, add_changed, pair,
  evict_request, displace_request, park_request, on_request, displace_response, park_response,
  on_response, by_kind, on_event, flush_entries, flush, pair_of, latency_of, status_of,
}

-- the index is in the list
abbrev pub listed : List ℕ → ℕ → Bool
listed [] i = false
listed (j ∷ js) i = j == i || listed js i

-- the index is noted as changed, or has the slots that it had
pub record Kept (c d : Correlator) (i : ℕ) : Type 0 where
  pub kept :
      (listed d.changed_indexes i ≡ true)
      ⊎ ((d.pair_idx i ≡ c.pair_idx i)
          × (d.latency_ms i ≡ c.latency_ms i)
          × (d.status i ≡ c.status i))

listed-add_changed : (js : List ℕ) (j i : ℕ) → listed (add_changed js j) i ≡ (j == i || listed js i)
unfolding add_changed
listed-add_changed [] j i = refl
listed-add_changed (k ∷ js) j i = ground (arith, ==_iff k j, listed-add_changed js j i)

module _ (c : Correlator) (i : ℕ) where
  Kept-mark : (d : Correlator) (j : ℕ) (s : Status) → Kept c d i → Kept c (mark d j s) i
  Kept-mark d j s h = ground (arith, listed-add_changed d.changed_indexes j i)

  Kept-pair :
      (store : EventStore) (d : Correlator) (q r : ℕ) → Kept c d i → Kept c (pair store d q r) i
  unfolding pair
  Kept-pair store d q r h = ground (
    arith,
    listed-add_changed d.changed_indexes q i,
    listed-add_changed (add_changed d.changed_indexes q) r i,
  )

  Kept-evict :
      (d : Correlator) (m : Map CorrelationKey ℕ) → Kept c d i → Kept c (evict_request d m) i
  unfolding evict_request
  Kept-evict d [] h = h
  Kept-evict d ((key, old) ∷ rest) h =
      Kept-mark (record d { pending_requests = rest }) old _ (record { kept = h.kept })

  Kept-if : (b : Bool) (d e : Correlator) → Kept c d i → Kept c e i → Kept c (if b then d else e) i
  Kept-if true d e h k = h
  Kept-if false d e h k = k

  Kept-by :
      (o : Option ℕ) (d : Correlator) (f : ℕ → Correlator)
      → Kept c d i
      → ((j : ℕ) → Kept c (f j) i)
      → Kept c (elim o [ none ↦ d | some j ↦ f j ]) i
  Kept-by none d f h k = h
  Kept-by (some j) d f h k = k j

  Kept-displace_request :
      (d : Correlator) (key : CorrelationKey) → Kept c d i → Kept c (displace_request d key) i
  unfolding displace_request
  Kept-displace_request d key h =
      Kept-by (lookup key d.pending_requests) _ (λ old. mark d old orphan)
        (Kept-if _ _ d (Kept-evict d d.pending_requests h) h) (λ old. Kept-mark d old orphan h)

  Kept-displace_response :
      (d : Correlator) (key : CorrelationKey) → Kept c d i → Kept c (displace_response d key) i
  unfolding displace_response
  Kept-displace_response d key h =
      Kept-by (lookup key d.pending_responses) _ (λ old. mark d old orphan)
        (Kept-if _ (record d { pending_responses = drop_oldest d.pending_responses }) d
          (record { kept = h.kept }) h)
        (λ old. Kept-mark d old orphan h)

  Kept-on_request :
      (store : EventStore) (d : Correlator) (n : ℕ) (ev : AhpEvent)
      → Kept c d i
      → Kept c (on_request store d n ev) i
  unfolding on_request park_request
  Kept-on_request store d n ev h =
      let key = correlation_key_for_request ev in
      let room = displace_request d key in
      let taken = record d { pending_responses = remove key d.pending_responses } in
      Kept-by (lookup key d.pending_responses)
        (mark (record room { pending_requests = insert key n room.pending_requests }) n pending)
        (λ early. pair store taken n early)
        (Kept-mark _ n pending (record { kept = (Kept-displace_request d key h).kept }))
        (λ early. Kept-pair store taken n early (record { kept = h.kept }))

  Kept-on_response :
      (store : EventStore) (d : Correlator) (n : ℕ) (ev : AhpEvent)
      → Kept c d i
      → Kept c (on_response store d n ev) i
  unfolding on_response park_response
  Kept-on_response store d n ev h =
      let key = correlation_key_for_response ev in
      let room = displace_response d key in
      let taken = record d { pending_requests = remove key d.pending_requests } in
      Kept-by (lookup key d.pending_requests)
        (record room { pending_responses = insert key n room.pending_responses })
        (λ req. pair store taken req n) (record { kept = (Kept-displace_response d key h).kept })
        (λ req. Kept-pair store taken req n (record { kept = h.kept }))

  Kept-by_kind :
      (store : EventStore) (d : Correlator) (n : ℕ) (ev : AhpEvent) (kind : EventKind)
      → Kept c d i
      → Kept c (by_kind store d n ev kind) i
  unfolding by_kind
  Kept-by_kind store d n ev request h = Kept-on_request store d n ev h
  Kept-by_kind store d n ev response h = Kept-on_response store d n ev h
  Kept-by_kind store d n ev EventKind.client_notification h = h
  Kept-by_kind store d n ev EventKind.server_notification h = h
  Kept-by_kind store d n ev EventKind.action h = h
  Kept-by_kind store d n ev EventKind.protocol_notification h = h
  Kept-by_kind store d n ev EventKind.log h = h
  Kept-by_kind store d n ev EventKind.parse_error h = h

  Kept-fill : (n : ℕ) → n ≢ i → Kept c (fill c n) i
  Kept-fill n ne = record {
    kept = inr (ground (arith, ne), ground (arith, ne), ground (arith, ne));
  }

  -- An event that is added changes no other index without a note.
  pub Kept-on_event :
      (store : EventStore) (n : ℕ) (ev : AhpEvent)
      → n ≢ i
      → at store n ≡ some ev
      → Kept c (on_event store c n) i
  unfolding on_event
  Kept-on_event store n ev ne e =
      rw (e, on_event) (Kept-by_kind store (fill c n) n ev ev.kind (Kept-fill n ne))

  Kept-flush_entry :
      (now timeout : ℤ) (key : CorrelationKey) (j : ℕ) (d : Correlator) (o : Option ℤ)
      → Kept c d i
      → Kept c
          (elim o [
            | none ↦ d
            | some ts ↦
                if leb_ℤ timeout (now -ℤ ts)
                then mark
                    (record d { pending_requests = remove key d.pending_requests })
                    j
                    unmatched
                else d
          ])
          i
  Kept-flush_entry now timeout key j d none h = h
  Kept-flush_entry now timeout key j d (some ts) h =
      let left = record d { pending_requests = remove key d.pending_requests } in
      Kept-if (leb_ℤ timeout (now -ℤ ts)) (mark left j unmatched) d
        (Kept-mark left j unmatched (record { kept = h.kept })) h

  Kept-flush_entries :
      (store : EventStore) (now timeout : ℤ) (m : Map CorrelationKey ℕ) (d : Correlator)
      → Kept c d i
      → Kept c (flush_entries store now timeout m d) i
  unfolding flush_entries
  Kept-flush_entries store now timeout [] d h = h
  Kept-flush_entries store now timeout ((key, j) ∷ m) d h =
      Kept-flush_entries store now timeout m _
        (Kept-flush_entry now timeout key j d (get_elem? store.ts j) h)

  -- A flush changes no index without a note.
  pub Kept-flush : (store : EventStore) (now timeout : ℤ) → Kept c (flush store c now timeout) i
  unfolding flush
  Kept-flush store now timeout =
      Kept-flush_entries store now timeout c.pending_requests c
        (record { kept = inr (refl, refl, refl) })

-- An event that is neither a request nor a response has no partner, no latency and no status.
pub idle_slots :
    (store : EventStore) (c : Correlator) (n : ℕ) (ev : AhpEvent)
    → at store n ≡ some ev
    → ev.kind ≡ EventKind.parse_error
    → (pair_of (on_event store c n) n ≡ none)
      × (latency_of (on_event store c n) n ≡ none)
      × (status_of (on_event store c n) n ≡ n_a)
unfolding on_event by_kind pair_of latency_of status_of
idle_slots store c n ev e k =
    rw (e, on_event) (rw (k, by_kind) (ground arith, ground arith, ground arith))
