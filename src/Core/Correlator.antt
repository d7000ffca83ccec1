-- ===== src/Core/Correlator.antt =====
-- packages/core/src/correlator.ts: pairs requests and responses by their correlation keys. Its columns
-- are JavaScript arrays read by index: functions, `none` for undefined.
mod Parked
pub mod Paired
mod Invariant
mod Parking
mod Steps
pub mod Runs
pub mod Changes
use ahp_inspector.Base.{
  ℕ, zero, suc, ◌+◌, ◌-◌, ◌*◌, Bool, true, false, Option, none, some, List, [], ◌∷◌, ◌++◌, map,
  length, get_elem?, if◌then◌else◌, ◌==◌, leb, is_some, or_else, Map, lookup, insert, remove,
  string_eq,
}
use ahp_inspector.Base.Int.{ℤ, pos, negsuc, ◌-ℤ◌, leb_ℤ}
use ahp_inspector.Shared.Json.{Json, get}
use ahp_inspector.Shared.Event.{AhpEvent, EventKind, request, response}
use ahp_inspector.Shared.Correlation.{
  CorrelationKey, correlation_key_for_request, correlation_key_for_response,
}
use ahp_inspector.Core.Store.{EventStore, AppendRange, at}

-- packages/core/src/types.ts
pub data Status : Type 0 where
  ok error pending unmatched orphan n_a : Status

abbrev pub max_pending : ℕ
max_pending = 10_000

abbrev pub Column {ℓ} : Type ℓ → Type ℓ
Column V = ℕ → Option V

-- `column[i] = v`
abbrev pub assign {ℓ} : {V : Type ℓ} → ℕ → V → Column V → Column V
assign i v column j = if i == j then some v else column j

abbrev pub blank {ℓ} : {V : Type ℓ} → Column V
blank j = none

pub record Correlator : Type 0 where
  pub pending_requests : Map CorrelationKey ℕ
  pub pending_responses : Map CorrelationKey ℕ
  pub changed_indexes : List ℕ
  pub pair_idx : Column ℤ
  pub latency_ms : Column ℤ
  pub status : Column Status

unfoldable pub init : Correlator
init = record {
  pending_requests = [];
  pending_responses = [];
  changed_indexes = [];
  pair_idx = blank;
  latency_ms = blank;
  status = blank;
}

-- `v === undefined || v < 0 ? null : v`
abbrev from_slot : Option ℤ → Option ℕ
from_slot (some (pos n)) = some n
from_slot _ = none

unfoldable pub pair_of : Correlator → ℕ → Option ℕ
pair_of c idx = from_slot (c.pair_idx idx)

unfoldable pub latency_of : Correlator → ℕ → Option ℕ
latency_of c idx = from_slot (c.latency_ms idx)

unfoldable pub status_of : Correlator → ℕ → Status
status_of c idx = or_else (c.status idx) n_a

-- `#changedIndexes.add`: a set, in the order of insertion
unfoldable pub add_changed : List ℕ → ℕ → List ℕ
add_changed [] idx = idx ∷ []
add_changed (j ∷ js) idx = if j == idx then j ∷ js else j ∷ add_changed js idx

unfoldable pub drain_changed_indexes : Correlator → List ℕ × Correlator
drain_changed_indexes c = (c.changed_indexes, record c { changed_indexes = [] })

-- a status, and the note that it changed
abbrev pub mark : Correlator → ℕ → Status → Correlator
mark c idx s = record c {
  status = assign idx s c.status;
  changed_indexes = add_changed c.changed_indexes idx;
}

-- `isErrorResponse`
unfoldable pub is_error_response : AhpEvent → Bool
unfolding get
is_error_response ev = elim ev.raw [ none ↦ false | some r ↦ is_some (get r "error") ]

-- `#pair`, with `respEv && isErrorResponse(respEv)`
unfoldable pub pair : EventStore → Correlator → ℕ → ℕ → Correlator
unfolding is_error_response at add_changed
pair store c req_idx resp_idx =
    let req_ts = or_else (get_elem? store.ts req_idx) (pos 0) in
    let resp_ts = or_else (get_elem? store.ts resp_idx) req_ts in
    let is_error : Bool = elim (at store resp_idx) [
      | none ↦ false
      | some ev ↦ is_error_response ev
    ] in
    let s = if is_error then error else ok in
    record c {
      pair_idx = assign resp_idx (pos req_idx) (assign req_idx (pos resp_idx) c.pair_idx);
      latency_ms = assign req_idx (resp_ts -ℤ req_ts) c.latency_ms;
      status = assign resp_idx s (assign req_idx s c.status);
      changed_indexes = add_changed (add_changed c.changed_indexes req_idx) resp_idx;
    }

-- the oldest entry of a map, `keys().next().value`, dropped and its request marked
evict_request : Correlator → Map CorrelationKey ℕ → Correlator
evict_request c [] = c
evict_request c ((_, old_idx) ∷ rest) =
    mark (record c { pending_requests = rest }) old_idx unmatched

-- makes room for the key of a request that is parked
unfoldable pub displace_request : Correlator → CorrelationKey → Correlator
unfolding evict_request lookup
displace_request c key = elim (lookup key c.pending_requests) [
  | some displaced ↦ mark c displaced orphan
  | none ↦
      if leb max_pending (length c.pending_requests) then evict_request c c.pending_requests else c
]

unfoldable pub park_request : Correlator → CorrelationKey → ℕ → Correlator
park_request c key idx =
    mark (record c { pending_requests = insert key idx c.pending_requests }) idx pending

unfoldable pub on_request : EventStore → Correlator → ℕ → AhpEvent → Correlator
unfolding pair park_request displace_request lookup remove
on_request store c idx ev =
    let key = correlation_key_for_request ev in
    elim (lookup key c.pending_responses) [
      | some early_resp ↦
          pair store (record c { pending_responses = remove key c.pending_responses }) idx
            early_resp
      | none ↦ park_request (displace_request c key) key idx
    ]

drop_oldest : Map CorrelationKey ℕ → Map CorrelationKey ℕ
drop_oldest [] = []
drop_oldest (_ ∷ rest) = rest

unfoldable pub displace_response : Correlator → CorrelationKey → Correlator
unfolding drop_oldest lookup
displace_response c key = elim (lookup key c.pending_responses) [
  | some displaced ↦ mark c displaced orphan
  | none ↦
      if leb max_pending (length c.pending_responses)
      then record c { pending_responses = drop_oldest c.pending_responses }
      else c
]

unfoldable pub park_response : Correlator → CorrelationKey → ℕ → Correlator
park_response c key idx = record c { pending_responses = insert key idx c.pending_responses }

unfoldable pub on_response : EventStore → Correlator → ℕ → AhpEvent → Correlator
unfolding pair park_response displace_response lookup remove
on_response store c idx ev =
    let key = correlation_key_for_response ev in
    elim (lookup key c.pending_requests) [
      | some req_idx ↦
          pair store (record c { pending_requests = remove key c.pending_requests }) req_idx idx
      | none ↦ park_response (displace_response c key) key idx
    ]

-- the default slot fills
abbrev pub fill : Correlator → ℕ → Correlator
fill c i = record c {
  pair_idx = assign i (negsuc 0) c.pair_idx;
  latency_ms = assign i (negsuc 0) c.latency_ms;
  status = assign i n_a c.status;
}

by_kind : EventStore → Correlator → ℕ → AhpEvent → EventKind → Correlator
by_kind store c i ev request = on_request store c i ev
by_kind store c i ev response = on_response store c i ev
by_kind store c i ev _ = c

-- one round of the loop of `#onAppend`
unfoldable pub on_event : EventStore → Correlator → ℕ → Correlator
unfolding by_kind at on_request on_response
on_event store c i = elim (at store i) [
  | none ↦ c
  | some ev ↦ by_kind store (fill c i) i ev ev.kind
]

on_append_rounds : EventStore → Correlator → ℕ → ℕ → Correlator
on_append_rounds store c i zero = c
on_append_rounds store c i (suc rounds) = on_append_rounds store (on_event store c i) (i + 1) rounds

unfoldable pub on_append : EventStore → Correlator → AppendRange → Correlator
unfolding on_append_rounds on_event
on_append store c range = on_append_rounds store c range.from (range.to - range.from)

-- the loop of `flush` over the parked requests; an entry is deleted as it is marked
flush_entries : EventStore → ℤ → ℤ → Map CorrelationKey ℕ → Correlator → Correlator
flush_entries store now_ms timeout_ms [] c = c
flush_entries store now_ms timeout_ms ((key, idx) ∷ entries) c =
    flush_entries store now_ms timeout_ms entries (elim (get_elem? store.ts idx) [
      | none ↦ c
      | some ts ↦
          if leb_ℤ timeout_ms (now_ms -ℤ ts)
          then mark (record c { pending_requests = remove key c.pending_requests }) idx unmatched
          else c
    ])

unfoldable pub flush : EventStore → Correlator → ℤ → ℤ → Correlator
unfolding flush_entries add_changed remove
flush store c now_ms timeout_ms = flush_entries store now_ms timeout_ms c.pending_requests c

unfoldable pub reset : Correlator → Correlator
unfolding init
reset c = init

-- `dispose`, beside the call that unsubscribes
unfoldable pub dispose : Correlator → Correlator
dispose c = record c { pending_requests = []; pending_responses = [] }
