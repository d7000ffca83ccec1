-- ===== src/Ui/Stream.antt =====
-- packages/ui/src/transport/sse-client.ts: the client's end of the stream. Frames of rows and progress are
-- queued and drained in batches by a callback of the browser, which is pending exactly while
-- `drain_scheduled`; the others act at once. A reducer that throws ends its batch.
pub mod Rows
pub mod Mirror
pub mod Tracks
use ahp_inspector.Base.{
  ℕ, zero, suc, String, str_eq, Bool, true, false, not, ◌&&◌, ◌||◌, Option, none, some, List, [],
  ◌∷◌, ◌++◌, if◌then◌else◌,
}
use ahp_inspector.Shared.Json.{truthy}
use ahp_inspector.Core.Row.{EventRow}
use ahp_inspector.Server.Frames as Frames
use ahp_inspector.Server.Frames.{
  LogMeta, SsePayload, snapshot_begin, snapshot_chunk, snapshot_end, load_progress, stream_backlog,
  patch, ping, bye, log_reset, rotation, watch_error, WatchError, WatchErrorCode,
}
use ahp_inspector.Ui.Store.{
  AppStore, new_store, Connection, connecting, connected, disconnected, MetaSummary, PatchUpdate,
  ClientErrorCode, read_error, watch_fatal, oversized_line, set_rows, append_snapshot_rows,
  append_rows, apply_patch, flush_pending_buffer, set_live_paused, reset_for_rotation,
  reset_for_log_switch,
}

abbrev pub max_drain_frames : ℕ
max_drain_frames = 50

pub record Stream : Type 0 where
  pub store : AppStore
  pub queued_frames : List SsePayload
  pub drain_scheduled : Bool
  pub graceful : Bool
  pub closed_by_caller : Bool
  pub has_connected : Bool

-- an update as it arrives: the server writes each field but an absent summary
unfoldable pub arrived : Frames.PatchUpdate → PatchUpdate
arrived u = record {
  idx = u.idx;
  status = u.status;
  latency_ms = u.latency_ms;
  latency_band = u.latency_band;
  summary = u.summary;
  pair_idx = some u.pair_idx;
}

abbrev pub arrived_all : List Frames.PatchUpdate → List PatchUpdate
arrived_all [] = []
arrived_all (u ∷ us) = arrived u ∷ arrived_all us

-- `connectLogStream`, over the store that is there
unfoldable pub connect : AppStore → Stream
connect store = record {
  store = record store { connection = connecting };
  queued_frames = [];
  drain_scheduled = false;
  graceful = false;
  closed_by_caller = false;
  has_connected = false;
}

abbrev pub clear_queued_frames : Stream → Stream
clear_queued_frames s = record s { queued_frames = []; drain_scheduled = false }

unfoldable pub schedule_drain : Stream → Stream
schedule_drain s =
    if s.drain_scheduled || s.graceful || s.closed_by_caller
    then s
    else record s { drain_scheduled = true }

unfoldable pub enqueue : SsePayload → Stream → Stream
unfolding schedule_drain
enqueue frame s =
    if s.closed_by_caller
    then s
    else schedule_drain (record s { queued_frames = s.queued_frames ++ frame ∷ [] })

-- the store after a reducer, and whether it threw
abbrev pub settle : AppStore → Option AppStore → AppStore × Bool
settle s none = (s, true)
settle s (some t) = (t, false)

-- a frame that is drained
unfoldable pub apply_frame : SsePayload → AppStore → AppStore × Bool
unfolding append_snapshot_rows append_rows apply_patch arrived
apply_frame (snapshot_chunk rows from) s = settle s (append_snapshot_rows rows from s)
apply_frame snapshot_end s = (record s { connection = connected }, false)
apply_frame (SsePayload.append_rows rows from) s = settle s (append_rows rows from s)
apply_frame (patch updates) s = (apply_patch (arrived_all updates) s, false)
apply_frame (load_progress progress) s = (record s { load_progress = progress }, false)
apply_frame (stream_backlog frames rows) s =
    (record s { stream_backlog = record { queued_frames = frames; queued_rows = rows } }, false)
apply_frame _ s = (s, false)

-- the stream has shown data
abbrev ends_snapshot : SsePayload → Bool → Bool
ends_snapshot snapshot_end had = true
ends_snapshot _ had = had

-- the loop of `drainFrames`: what it leaves of the queue
unfoldable pub drain_rounds : ℕ → List SsePayload → Stream → Stream
unfolding apply_frame schedule_drain
drain_rounds n [] s = record s { queued_frames = [] }
drain_rounds zero (frame ∷ frames) s = schedule_drain (record s { queued_frames = frame ∷ frames })
drain_rounds (suc n) (frame ∷ frames) s =
    let applied = apply_frame frame s.store in
    let next = record s {
      store = applied.0;
      has_connected = ends_snapshot frame s.has_connected;
    } in
    let rest = drain_rounds n frames next in
    if applied.1 then record next { queued_frames = frames } else rest

-- the callback of the browser
unfoldable pub drain_frames : Stream → Stream
unfolding drain_rounds
drain_frames s =
    if s.drain_scheduled && not s.graceful && not s.closed_by_caller
    then drain_rounds max_drain_frames s.queued_frames (record s { drain_scheduled = false })
    else s

client_error_code : WatchErrorCode → ClientErrorCode
client_error_code WatchErrorCode.watch_fatal = watch_fatal
client_error_code WatchErrorCode.oversized_line = oversized_line
client_error_code _ = read_error

-- `setRows([])`, `setMeta` and, where there is one, `setLogKey`
unfoldable pub begin_snapshot : LogMeta → AppStore → AppStore
unfolding set_rows truthy
begin_snapshot meta s =
    let emptied = (settle s (set_rows [] s)).0 in
    record emptied {
      meta = some (record { filename = meta.filename; event_count = 0; session_count = 0 });
      log_key = elim (truthy (some meta.log_key)) [ none ↦ s.log_key | some key ↦ some key ];
    }

-- an error of the connection; `lost` says that the browser gave up
unfoldable pub on_connection_error : Bool → Stream → Stream
on_connection_error lost s = if s.graceful || s.closed_by_caller then s else record s {
  store = record s.store {
    connection = if s.has_connected || lost then disconnected else connecting;
  };
}

unfoldable pub at_once : SsePayload → Stream → Stream
unfolding begin_snapshot reset_for_rotation reset_for_log_switch client_error_code
at_once (snapshot_begin meta total) s = record (clear_queued_frames s) {
  store = begin_snapshot meta s.store;
}
at_once (rotation size reason) s = record (clear_queued_frames s) {
  store = reset_for_rotation (record s.store { rotation_notice = true });
}
at_once (watch_error err) s = record s {
  store = record s.store {
    last_watch_error = some (record { code = client_error_code err.code; message = err.message });
  };
}
at_once log_reset s = record (clear_queued_frames s) { store = reset_for_log_switch s.store }
at_once bye s = record s { graceful = true; store = record s.store { connection = disconnected } }
at_once _ s = s

-- a frame that arrives; one of the kind `error` is for the browser an error of the connection
unfoldable pub receive : SsePayload → Stream → Stream
unfolding enqueue at_once on_connection_error
receive (snapshot_chunk rows from) s = enqueue (snapshot_chunk rows from) s
receive snapshot_end s = enqueue snapshot_end s
receive (SsePayload.append_rows rows from) s = enqueue (SsePayload.append_rows rows from) s
receive (patch updates) s = enqueue (patch updates) s
receive (load_progress progress) s = enqueue (load_progress progress) s
receive (stream_backlog frames rows) s = enqueue (stream_backlog frames rows) s
receive (SsePayload.error code message) s = on_connection_error false s
receive ping s = s
receive (rotation size reason) s =
    if s.closed_by_caller then s else at_once (rotation size reason) s
receive (watch_error err) s = if s.closed_by_caller then s else at_once (watch_error err) s
receive frame s = if s.closed_by_caller then s else at_once frame s

unfoldable pub close : Stream → Stream
close s = clear_queued_frames (record s { closed_by_caller = true; graceful = true })

-- what happens at the client: a frame, the callback, `onResumeFollowing`, and a call of `setLivePaused`
-- alone, by the pause button and the space bar, which turn the flag around, or with a stored flag
pub data ClientEvent : Type 0 where
  frame : SsePayload → ClientEvent
  callback resume : ClientEvent
  set_paused : Bool → ClientEvent

-- `onResumeFollowing` of packages/ui/src/components/timeline/TimelineRegion.tsx
unfoldable pub resume_following : AppStore → AppStore
unfolding flush_pending_buffer
resume_following s = set_live_paused false (settle s (flush_pending_buffer s)).0

unfoldable pub client_step : ClientEvent → Stream → Stream
unfolding receive drain_frames resume_following
client_step (frame f) s = receive f s
client_step callback s = drain_frames s
client_step (set_paused paused) s = record s { store = set_live_paused paused s.store }
client_step resume s = record s { store = resume_following s.store }

unfoldable pub client_run : List ClientEvent → Stream → Stream
unfolding client_step
client_run [] s = s
client_run (e ∷ es) s = client_run es (client_step e s)
