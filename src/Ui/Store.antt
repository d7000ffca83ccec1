-- ===== src/Ui/Store.antt =====
-- packages/ui/src/state/store.ts: the client's store and its reducers. A JavaScript array may have holes,
-- so a slot of `rows` is an option. A reducer that throws gives `none`, and the store stays as it is.
pub mod Slots
pub mod Resume
pub mod Setters
use ahp_inspector.Base.{
  ℕ, zero, suc, ◌+◌, ◌-◌, String, str_eq, Bool, true, false, ◌||◌, Option, none, some, List, [],
  ◌∷◌, ◌++◌, map, length, get_elem?, set, if◌then◌else◌, ◌==◌, ltb, Eq, string_eq, nat_eq, ◌>>=◌,
}
use ahp_inspector.Base.Int.{ℤ, pos, leb_ℤ}
use ahp_inspector.Shared.Json.{truthy}
use ahp_inspector.Shared.Event.{Direction, EventKind}
use ahp_inspector.Core.Correlator.{Status}
use ahp_inspector.Core.Row.{EventRow, LatencyBand}
use ahp_inspector.Server.Frames.{LoadProgress, Phase}
use ahp_inspector.Ui.Filters.{FilterState, app_default_filters, contains}
use ahp_inspector.Ui.Grouping.{GroupingMode, ungrouped}

pub data SelectionSource : Type 0 where
  search explicit : SelectionSource

pub data SearchStatus : Type 0 where
  idle searching ready error : SearchStatus

pub data Connection : Type 0 where
  connecting connected disconnected no_server no_log : Connection

pub data LastOpenRef : Type 0 where
  candidate path : String → LastOpenRef

pub record MetaSummary : Type 0 where
  pub filename : String
  pub event_count : ℕ
  pub session_count : ℕ

-- `undefined` is an absent field, and `null` a value: of `pair_idx` there are both
pub record PatchUpdate : Type 0 where
  pub idx : ℕ
  pub status : Status
  pub latency_ms : Option ℤ
  pub latency_band : Option LatencyBand
  pub summary : Option String
  pub pair_idx : Option (Option ℕ)

pub record StreamBacklog : Type 0 where
  pub queued_frames : ℕ
  pub queued_rows : ℕ

pub data ClientErrorCode : Type 0 where
  read_error watch_fatal oversized_line : ClientErrorCode

pub record ClientError : Type 0 where
  pub code : ClientErrorCode
  pub message : String

abbrev pub idle_load_progress : LoadProgress
idle_load_progress = record {
  phase = Phase.idle;
  loaded_rows = 0;
  loaded_bytes = 0;
  total_bytes = none;
  percent = none;
}

abbrev pub empty_stream_backlog : StreamBacklog
empty_stream_backlog = record { queued_frames = 0; queued_rows = 0 }

abbrev pub detail_min_width : ℤ
detail_min_width = pos 360

abbrev pub detail_default_width : ℤ
detail_default_width = pos 420

abbrev pub detail_max_width : ℤ
detail_max_width = pos 720

pub record AppStore : Type 0 where
  pub rows : List (Option EventRow)
  pub connection : Connection
  pub selected_idx : Option ℕ
  pub selection_source : SelectionSource
  pub meta : Option MetaSummary
  pub load_progress : LoadProgress
  pub stream_backlog : StreamBacklog
  pub search_query : String
  pub search_matches : Option (List ℕ)
  pub search_total : ℕ
  pub search_truncated : Bool
  pub search_status : SearchStatus
  pub search_error : Option String
  pub search_popover_open : Bool
  pub filters : FilterState
  pub grouping : GroupingMode
  pub group_collapsed : List String
  pub detail_width : ℤ
  pub live_paused : Bool
  pub pending_buffer : List EventRow
  pub pending_new_count : ℕ
  pub last_watch_error : Option ClientError
  pub log_key : Option String
  pub rotation_notice : Bool
  pub last_open_ref : Option LastOpenRef
  pub persistence_error : Option String

-- the store as created
abbrev pub new_store : AppStore
new_store = record {
  rows = [];
  connection = connecting;
  selected_idx = none;
  selection_source = explicit;
  meta = none;
  load_progress = idle_load_progress;
  stream_backlog = empty_stream_backlog;
  search_query = "";
  search_matches = none;
  search_total = 0;
  search_truncated = false;
  search_status = SearchStatus.idle;
  search_error = none;
  search_popover_open = false;
  filters = app_default_filters;
  grouping = ungrouped;
  group_collapsed = [];
  detail_width = detail_default_width;
  live_paused = false;
  pending_buffer = [];
  pending_new_count = 0;
  last_watch_error = none;
  log_key = none;
  rotation_notice = false;
  last_open_ref = none;
  persistence_error = none;
}

-- `logSwitchState()` over a store, which keeps the log's key, its reference and the persistence error
abbrev pub log_switch_state : AppStore → AppStore
log_switch_state s = record new_store {
  log_key = s.log_key;
  last_open_ref = s.last_open_ref;
  persistence_error = s.persistence_error;
}

-- `set.add(x)`
unfoldable pub add_to_set {ℓ} : {A : Type ℓ} ⦃e : Eq A⦄ → List A → A → List A
unfolding contains
add_to_set xs x = if contains xs x then xs else xs ++ x ∷ []

-- the sessions seen; at a hole the loop throws
sessions_of : List String → List (Option EventRow) → Option (List String)
unfolding add_to_set truthy
sessions_of seen [] = some seen
sessions_of seen (none ∷ rows) = none
sessions_of seen (some row ∷ rows) =
    sessions_of (elim (truthy row.session_id) [ none ↦ seen | some id ↦ add_to_set seen id ]) rows

unfoldable pub derive_session_count : List (Option EventRow) → Option ℕ
unfolding sessions_of
derive_session_count rows = sessions_of [] rows >>= λ seen. some (length seen)

-- the rows, and the counts of the log that is open
with_meta : List (Option EventRow) → AppStore → Option MetaSummary → Option AppStore
unfolding derive_session_count
with_meta rows s none = some (record s { rows = rows })
with_meta rows s (some meta) = derive_session_count rows >>= λ count. some (record s {
  rows = rows;
  meta = some (record meta { event_count = length rows; session_count = count });
})

unfoldable pub with_rows : List (Option EventRow) → AppStore → Option AppStore
unfolding with_meta
with_rows rows s = with_meta rows s s.meta

-- `next[i] = row`: behind the end there are holes up to `i`
unfoldable pub put_at : List (Option EventRow) → ℕ → EventRow → List (Option EventRow)
put_at [] zero row = some row ∷ []
put_at [] (suc i) row = none ∷ put_at [] i row
put_at (slot ∷ slots) zero row = some row ∷ slots
put_at (slot ∷ slots) (suc i) row = slot ∷ put_at slots i row

-- `next[from + i] = newRows[i]`, one row after the other
unfoldable pub put_all : List (Option EventRow) → ℕ → List EventRow → List (Option EventRow)
unfolding put_at
put_all slots from [] = slots
put_all slots from (row ∷ rows) = put_all (put_at slots from row) (from + 1) rows

unfoldable pub set_rows : List EventRow → AppStore → Option AppStore
unfolding with_rows
set_rows rows s = with_rows (map some rows) s

unfoldable pub append_snapshot_rows : List EventRow → ℕ → AppStore → Option AppStore
unfolding with_rows put_all
append_snapshot_rows new_rows from s = with_rows (put_all s.rows from new_rows) s

unfoldable pub append_rows : List EventRow → ℕ → AppStore → Option AppStore
unfolding with_rows put_all
append_rows new_rows from s =
    if s.live_paused
    then some (record s {
      pending_buffer = s.pending_buffer ++ new_rows;
      pending_new_count = s.pending_new_count + length new_rows;
    })
    else with_rows (put_all s.rows from new_rows) s

abbrev pub new_summary : Option String → Option String → Option String
new_summary none old = old
new_summary (some summary) old = some summary

abbrev pub new_pair : Option (Option ℕ) → Option ℕ → Option ℕ
new_pair none old = old
new_pair (some pair) old = pair

unfoldable pub patch_row : EventRow → PatchUpdate → EventRow
patch_row row u = record row {
  status = u.status;
  latency_ms = u.latency_ms;
  latency_band = u.latency_band;
  summary = new_summary u.summary row.summary;
  pair_idx = new_pair u.pair_idx row.pair_idx;
}

-- the row at the index of the update, if there is one
unfoldable pub patch_slot : List (Option EventRow) → ℕ → PatchUpdate → List (Option EventRow)
unfolding patch_row
patch_slot [] i u = []
patch_slot (none ∷ slots) zero u = none ∷ slots
patch_slot (some row ∷ slots) zero u = some (patch_row row u) ∷ slots
patch_slot (slot ∷ slots) (suc i) u = slot ∷ patch_slot slots i u

-- the first row of the buffer that has the index of the update
unfoldable pub patch_pending : List EventRow → PatchUpdate → List EventRow
unfolding patch_row
patch_pending [] u = []
patch_pending (row ∷ rows) u =
    if row.idx == u.idx then patch_row row u ∷ rows else row ∷ patch_pending rows u

unfoldable pub apply_patch : List PatchUpdate → AppStore → AppStore
unfolding patch_slot patch_pending
apply_patch [] s = s
apply_patch (u ∷ us) s = apply_patch us (record s {
  rows = patch_slot s.rows u.idx u;
  pending_buffer = patch_pending s.pending_buffer u;
})

unfoldable pub flush_rows : List EventRow → AppStore → Option AppStore
unfolding with_rows
flush_rows [] s = some (record s { pending_new_count = 0 })
flush_rows (row ∷ rows) s =
    with_rows (s.rows ++ map some (row ∷ rows))
      (record s { pending_buffer = []; pending_new_count = 0 })

unfoldable pub flush_pending_buffer : AppStore → Option AppStore
unfolding flush_rows
flush_pending_buffer s = flush_rows s.pending_buffer s

abbrev pub set_live_paused : Bool → AppStore → AppStore
set_live_paused paused s = record s { live_paused = paused }

unfoldable pub switch_to_log : String → Option LastOpenRef → AppStore → AppStore
switch_to_log log_key ref s = record (log_switch_state s) {
  log_key = some log_key;
  last_open_ref = ref;
}

unfoldable pub reset_for_log_switch : AppStore → AppStore
reset_for_log_switch s = record (log_switch_state s) { log_key = none }

unfoldable pub reset_for_rotation : AppStore → AppStore
reset_for_rotation s = record s {
  rows = [];
  selected_idx = none;
  search_matches = none;
  search_total = 0;
  search_truncated = false;
  search_status = SearchStatus.idle;
  search_error = none;
  pending_buffer = [];
  pending_new_count = 0;
  load_progress = idle_load_progress;
  stream_backlog = empty_stream_backlog;
}
