-- ===== src/Server/AppState.antt =====
-- packages/server/src/app-state.ts: one open log. The reader's calls go through the line splitter, the
-- normalizer, the store with its two listeners (the correlator first), the rows and the search index;
-- each frame that is emitted is an entry of `sent`. What JavaScript and the caller provide is a
-- `Runtime`; the time of day is asked once for each event, so it is a function of the event's number.
pub mod Rows
pub mod Ingest
mod InStep
pub mod Synced
pub mod Appended
pub mod Calls
mod Offset
pub mod Views
pub mod Account
use ahp_inspector.Base.{
  ℕ, suc, ◌+◌, ◌-◌, ◌*◌, ◌/◌, min, String, Bool, true, false, not, ◌&&◌, ◌||◌, Option, none, some,
  List, [], ◌∷◌, ◌++◌, ◌⊎◌, length, get_elem?, set, if◌then◌else◌, ltb, leb, ◌==◌, or_else, is_some,
  str_eq, ◌>>=◌,
}
use ahp_inspector.Base.Int.{ℤ, pos, negsuc, ◌+ℤ◌, ltb_ℤ, eq_ℤ}
use ahp_inspector.Base.Text.{append, show}
use ahp_inspector.Shared.Json.{Json, get, is_object, as_number}
use ahp_inspector.Shared.Event.{
  AhpEvent, NormalizeMeta, Direction, c2s, EventKind, response, server_notification,
  protocol_notification,
}
use ahp_inspector.Shared.ParseError.{make_parse_error_event}
use ahp_inspector.Parser.Splitter
use ahp_inspector.Parser.Splitter.{
  Units, LineSplitter, SplitLine, new_splitter, push_detailed, checkpoint, finalize_if, Pushed,
  Outcome, result, overflow, LineSplitResult, utf8_byte_length, max_buf_bytes,
}
use ahp_inspector.Parser.Normalizer.{normalize}
use ahp_inspector.Parser.Line.{ParsedLine, parse_line, WireMeta, extract_wire_meta}
use ahp_inspector.Core.Store
use ahp_inspector.Core.Store.{EventStore, at, size, range_of}
use ahp_inspector.Core.Correlator
use ahp_inspector.Core.Correlator.{
  Correlator, Status, pair_of, latency_of, status_of, on_append, flush, drain_changed_indexes,
}
use ahp_inspector.Core.Row.{EventRow, status_rank}
use ahp_inspector.Core.Labels.{TextLibrary}
use ahp_inspector.Core.Projection.{EventRowExtras, band_for, project_row}
use ahp_inspector.Server.SearchIndex
use ahp_inspector.Server.SearchIndex.{
  default_max_search_cache_bytes, SearchIndex, new_search_index, append_event,
}
use ahp_inspector.Server.StateReplayIndex
use ahp_inspector.Server.StateReplayIndex.{StateReplayIndex, new_index}
use ahp_inspector.Server.Frames.{
  WatchError, WatchErrorCode, oversized_line, read_error, Phase, idle, loading, complete,
  RotationReason, PatchUpdate, LoadProgress, SsePayload, append_rows, load_progress, patch,
  rotation, watch_error, HostError, watch_error_payload, format_bytes,
}

pub record Runtime : Type 0 where
  pub lib : TextLibrary
  -- `TextDecoder.decode` of a stream: the bytes held back, a chunk; the text, the bytes held back
  pub decode : List ℕ → List ℕ → Units × List ℕ
  pub parse_json : Units → Json ⊎ String
  pub text_of : Units → String
  pub infer_dir : Json → Direction
  pub now : ℕ → ℤ
  pub summarize : AhpEvent → Option String → String

abbrev pub max_sticky_watch_errors : ℕ
max_sticky_watch_errors = 50

pub record AppState : Type 0 where
  pub store : EventStore
  pub state_replay : StateReplayIndex
  pub correlator : Correlator
  pub rows : List EventRow
  pub search_idx : SearchIndex
  pub splitter : LineSplitter
  pub decoder : List ℕ
  pub seq : ℕ
  pub byte_offset : ℕ
  pub initial_read_loaded_bytes : ℕ
  pub initial_read_total_bytes : Option ℕ
  pub initial_read_phase : Phase
  pub watch_errors : List WatchError
  pub oversized_warning_active : Bool
  pub last_seen_server_seq : Option ℤ
  pub sent : List SsePayload

-- `createAppState`, before the host is asked to watch
unfoldable pub create_app_state : AppState
unfolding Store.empty Correlator.init new_index new_search_index new_splitter
create_app_state = record {
  store = Store.empty;
  state_replay = new_index [] 25 (8 * 1024 * 1024);
  correlator = Correlator.init;
  rows = [];
  search_idx = new_search_index default_max_search_cache_bytes;
  splitter = new_splitter true;
  decoder = [];
  seq = 0;
  byte_offset = 0;
  initial_read_loaded_bytes = 0;
  initial_read_total_bytes = none;
  initial_read_phase = idle;
  watch_errors = [];
  oversized_warning_active = false;
  last_seen_server_seq = none;
  sent = [];
}

-- the oldest warning goes where there are too many
sticky : List WatchError → List WatchError
sticky [] = []
sticky (w ∷ ws) = if ltb max_sticky_watch_errors (length (w ∷ ws)) then ws else w ∷ ws

abbrev pub send : SsePayload → AppState → AppState
send payload s = record s { sent = s.sent ++ payload ∷ [] }

unfoldable pub emit_watch_error : WatchError → AppState → AppState
unfolding sticky
emit_watch_error w s =
    send (watch_error w) (record s { watch_errors = sticky (s.watch_errors ++ w ∷ []) })

unfoldable pub oversized_message : ℕ → String
unfolding format_bytes
oversized_message bytes_dropped = append "Skipped an oversized JSONL line (" (
    append (format_bytes bytes_dropped) (
      append "). The viewer cannot parse lines larger than " (
        append (format_bytes max_buf_bytes) (
          append " (typically a tool result with embedded base64 payload). "
            "Subsequent events in this log will still load."))))

unfoldable pub on_oversized_bytes : ℕ → ℕ → AppState → AppState
unfolding emit_watch_error oversized_message
on_oversized_bytes bytes_dropped terminator_bytes s =
    let counted = record s { byte_offset = s.byte_offset + (bytes_dropped + terminator_bytes) } in
    let warned =
      if s.oversized_warning_active
      then counted
      else emit_watch_error
          (record { code = oversized_line; message = oversized_message bytes_dropped })
          (record counted { oversized_warning_active = true }) in
    if ltb 0 terminator_bytes then record warned { oversized_warning_active = false } else warned

-- the callback of the splitter, once for each line that it dropped
unfoldable pub report_skipped : List (ℕ × ℕ) → AppState → AppState
unfolding on_oversized_bytes
report_skipped [] s = s
report_skipped ((dropped, terminator) ∷ skipped) s =
    report_skipped skipped (on_oversized_bytes dropped terminator s)

-- `Math.min(100, Math.round((loaded / total) * 100))`
percent_of : ℕ → Option ℕ → Option ℕ
percent_of loaded none = none
percent_of loaded (some total) =
    if ltb 0 total then some (min 100 ((loaded * 200 + total) / (2 * total))) else none

unfoldable pub current_load_progress : AppState → LoadProgress
unfolding percent_of
current_load_progress s = record {
  phase = s.initial_read_phase;
  loaded_rows = length s.rows;
  loaded_bytes = s.initial_read_loaded_bytes;
  total_bytes = s.initial_read_total_bytes;
  percent = percent_of s.initial_read_loaded_bytes s.initial_read_total_bytes;
}

unfoldable pub emit_load_progress : Phase → AppState → AppState
unfolding current_load_progress
emit_load_progress phase s =
    let moved = record s { initial_read_phase = phase } in
    send (load_progress (current_load_progress moved)) moved

-- a progress report of the reader, with its two counts
abbrev pub loaded : ℕ → Option ℕ → AppState → AppState
loaded loaded_bytes total_bytes s = record s {
  initial_read_loaded_bytes = loaded_bytes;
  initial_read_total_bytes = total_bytes;
}

unfoldable pub on_initial_read_start : ℕ → AppState → AppState
unfolding emit_load_progress
on_initial_read_start total s = emit_load_progress loading (loaded 0 (some total) s)

unfoldable pub on_initial_read_progress : ℕ → ℕ → AppState → AppState
unfolding emit_load_progress
on_initial_read_progress bytes total s = emit_load_progress loading (loaded bytes (some total) s)

unfoldable pub on_reset : ℕ → RotationReason → AppState → AppState
unfolding Splitter.reset Store.reset StateReplayIndex.reset Correlator.reset SearchIndex.reset
    emit_load_progress
on_reset new_size reason s = send (rotation new_size reason) (
    emit_load_progress idle (record s {
      splitter = Splitter.reset s.splitter;
      decoder = [];
      oversized_warning_active = false;
      byte_offset = 0;
      store = Store.reset s.store;
      state_replay = StateReplayIndex.reset (Store.reset s.store).events s.state_replay;
      correlator = Correlator.reset s.correlator;
      rows = [];
      search_idx = SearchIndex.reset s.search_idx;
      last_seen_server_seq = none;
      initial_read_loaded_bytes = 0;
      initial_read_total_bytes = none;
      watch_errors = [];
    }))

unfoldable pub on_error : HostError → Bool → AppState → AppState
unfolding emit_watch_error watch_error_payload
on_error err fatal s = emit_watch_error (watch_error_payload err fatal) s
