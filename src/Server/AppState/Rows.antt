-- ===== src/Server/AppState/Rows.antt =====
-- packages/server/src/app-state.ts: the rows, and the listener of the store that keeps them in step with
-- the correlator.
use ahp_inspector.Base.{
  ℕ, String, Bool, true, false, ◌&&◌, Option, none, some, List, [], ◌∷◌, ◌++◌, length, get_elem?,
  set, if◌then◌else◌, ltb, leb, ◌==◌, or_else, str_eq, ◌>>=◌,
}
use ahp_inspector.Base.Int.{ℤ, pos, negsuc, ◌+ℤ◌, ltb_ℤ, eq_ℤ}
use ahp_inspector.Shared.Json.{get, is_object, as_number}
use ahp_inspector.Shared.Event.{
  AhpEvent, EventKind, response, server_notification, protocol_notification,
}
use ahp_inspector.Core.Store
use ahp_inspector.Core.Store.{EventStore, at, size, range_of}
use ahp_inspector.Core.Correlator.{
  Correlator, pair_of, latency_of, status_of, on_append, flush, drain_changed_indexes,
}
use ahp_inspector.Core.Row.{EventRow, status_rank}
use ahp_inspector.Core.Projection.{EventRowExtras, band_for, project_row}
use ahp_inspector.Server.SearchIndex.{append_event}
use ahp_inspector.Server.Frames.{PatchUpdate, append_rows, patch}
use ahp_inspector.Server.AppState.{Runtime, AppState, send}

-- `raw.error.code`, where these are objects
error_code_of : AhpEvent → Option ℤ
unfolding get is_object as_number
error_code_of ev = elim ev.raw [
  | none ↦ none
  | some raw ↦
      if is_object (get raw "error")
      then (get raw "error" >>= λ err. as_number (get err "code"))
      else none
]

auth_required : Option String → Bool
auth_required none = false
auth_required (some action_type) = str_eq action_type "notify/authRequired"

auth_failure_by : EventKind → Option ℤ → Option String → Bool
unfolding auth_required
auth_failure_by response (some code) action_type = eq_ℤ code (negsuc 32006)
auth_failure_by protocol_notification code action_type = auth_required action_type
auth_failure_by server_notification code action_type = auth_required action_type
auth_failure_by _ code action_type = false

gap_between : Option ℤ → Option ℤ → Bool
unfolding ◌+ℤ◌
gap_between (some previous) (some seq) = ltb_ℤ (previous +ℤ pos 1) seq
gap_between _ _ = false

-- the largest number seen
latest : Option ℤ → Option ℤ → Option ℤ
latest last none = last
latest none (some seq) = some seq
latest (some last) (some seq) = if ltb_ℤ last seq then some seq else some last

abbrev pub latency : Correlator → ℕ → Option ℤ
latency c idx = latency_of c idx >>= λ n. some (pos n)

method_at : EventStore → Option ℕ → Option String
unfolding at
method_at store none = none
method_at store (some idx) = at store idx >>= λ ev. ev.method

unfoldable pub extras_of : AppState → ℕ → AhpEvent → EventRowExtras
unfolding error_code_of auth_failure_by gap_between pair_of
extras_of s idx ev =
    let ev_seq = or_else (get_elem? s.store.server_seq idx) none in
    record {
      error_code = error_code_of ev;
      server_seq = ev_seq;
      previous_server_seq = s.last_seen_server_seq;
      gap_before = gap_between s.last_seen_server_seq ev_seq;
      is_auth_failure = auth_failure_by ev.kind (error_code_of ev) ev.action_type;
      pair_idx = pair_of s.correlator idx;
    }

-- a row, updated from the correlator, and what is said of it; nothing where it did not change
unfoldable pub patched : Correlator → ℕ → EventRow → EventRow
unfolding status_of latency_of pair_of band_for
patched c idx prev = record prev {
  status = status_of c idx;
  latency_ms = latency c idx;
  latency_band = band_for (latency c idx);
  pair_idx = pair_of c idx;
}

unfoldable pub update_of : EventRow → ℕ → PatchUpdate
update_of row idx = record {
  idx = idx;
  status = row.status;
  latency_ms = row.latency_ms;
  latency_band = row.latency_band;
  summary = row.summary;
  pair_idx = row.pair_idx;
}

abbrev pub same_latency : Option ℤ → Option ℤ → Bool
same_latency none none = true
same_latency (some a) (some b) = eq_ℤ a b
same_latency _ _ = false

abbrev pub same_pair : Option ℕ → Option ℕ → Bool
same_pair none none = true
same_pair (some a) (some b) = a == b
same_pair _ _ = false

unfoldable pub up_to_date : Correlator → ℕ → EventRow → Bool
unfolding status_of latency_of pair_of
up_to_date c idx prev =
    (status_rank prev.status == status_rank (status_of c idx))
    && same_latency prev.latency_ms (latency c idx)
    && same_pair prev.pair_idx (pair_of c idx)

unfoldable pub build_patch_updates :
    Correlator → List ℕ → List EventRow → List EventRow × List PatchUpdate
unfolding patched update_of up_to_date
build_patch_updates c [] rows = (rows, [])
build_patch_updates c (idx ∷ idxs) rows = elim (get_elem? rows idx) [
  | none ↦ build_patch_updates c idxs rows
  | some prev ↦
      let row = patched c idx prev in
      let rest = build_patch_updates c idxs (set rows idx row) in
      let skipped = build_patch_updates c idxs rows in
      if up_to_date c idx prev then skipped else (rest.0, update_of row idx ∷ rest.1)
]

-- `if (updates.length > 0) emit({ kind: "patch", updates })`
abbrev pub send_patch : List PatchUpdate → AppState → AppState
send_patch [] s = s
send_patch (u ∷ us) s = send (patch (u ∷ us)) s

-- `filter`
unfoldable pub select : (ℕ → Bool) → List ℕ → List ℕ
select p [] = []
select p (i ∷ is) = let rest = select p is in if p i then i ∷ rest else rest

-- `drainChangedIndexes`, and the rows at those that are wanted brought up to date
unfoldable pub take_changes : (ℕ → Bool) → AppState → AppState × List PatchUpdate
unfolding build_patch_updates drain_changed_indexes select
take_changes wanted s =
    let changed = (drain_changed_indexes s.correlator).0 in
    let drained = (drain_changed_indexes s.correlator).1 in
    let built = build_patch_updates drained (select wanted changed) s.rows in
    (record s { correlator = drained; rows = built.0 }, built.1)

-- `rows[i] = row`, for an `i` that is at most the number of rows
unfoldable pub put_row : List EventRow → ℕ → EventRow → List EventRow
put_row rows i row = if ltb i (length rows) then set rows i row else rows ++ row ∷ []

-- the timer's tick
unfoldable pub run_flush : ℤ → ℤ → AppState → AppState
unfolding take_changes flush
run_flush now_ms unmatched_timeout_ms s =
    let flushed = record s {
      correlator = flush s.store s.correlator now_ms unmatched_timeout_ms;
    } in
    let changes = take_changes (λ idx. true) flushed in send_patch changes.1 changes.0

module _ (rt : Runtime) where
  unfoldable pub build_row : AppState → ℕ → AhpEvent → EventRow
  unfolding extras_of status_of latency_of project_row method_at
  build_row s idx ev =
      project_row rt.lib rt.summarize ev idx (status_of s.correlator idx) (latency s.correlator idx)
        (extras_of s idx ev) (method_at s.store (pair_of s.correlator idx))

  -- one round of the store's listener: the event at `i` is new
  unfoldable pub add_row : ℕ → AhpEvent → AppState → AppState
  unfolding build_row put_row latest append_event
  add_row i ev s = record s {
    rows = put_row s.rows i (build_row s i ev);
    last_seen_server_seq =
        latest s.last_seen_server_seq (or_else (get_elem? s.store.server_seq i) none);
    search_idx =
        if leb (length s.search_idx.events) i then append_event ev s.search_idx else s.search_idx;
  }

  -- the listener of the store, at the range of one event that `append` gives
  unfoldable pub on_store_append : ℕ → AhpEvent → AppState → AppState
  unfolding add_row build_row take_changes
  on_store_append i ev s =
      let changes = take_changes (λ idx. ltb idx i) (add_row i ev s) in
      send_patch changes.1 (send (append_rows (build_row s i ev ∷ []) i) changes.0)

  -- `store.append(ev)`: the store, its listener the correlator, its listener above
  unfoldable pub store_append : AhpEvent → AppState → AppState
  unfolding Store.append on_append on_store_append
  store_append ev s =
      let store = Store.append s.store ev in
      on_store_append (size s.store) ev
        (record s { store = store; correlator = on_append store s.correlator (range_of s.store) })
