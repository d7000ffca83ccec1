-- ===== src/Server/LogStream.antt =====
-- packages/server/src/sse-routes.ts: the stream of an open log to one client, behind its snapshot. Frames
-- that the log emits wait in a bounded queue; the writer takes one at a time and awaits its write, and is
-- then `in_flight` with that frame. Each frame that is handed to the transport is an entry of `written`.
-- The size of a frame, which is that of its JSON text, is a parameter.
mod Coalesce
mod Totals
pub mod Queue
pub mod Carries
pub mod Snapshot
use ahp_inspector.Base.{
  ℕ, suc, ◌+◌, ◌-◌, ◌*◌, Bool, true, false, not, ◌&&◌, ◌||◌, Option, none, some, List, [], ◌∷◌,
  ◌++◌, length, if◌then◌else◌, ltb, ◌==◌, is_some, ◌>>=◌,
}
use ahp_inspector.Core.Row.{EventRow}
use ahp_inspector.Server.Frames.{
  SsePayload, snapshot_chunk, append_rows, load_progress, stream_backlog, patch, ping, bye,
  log_reset, error, PatchUpdate, LoadProgress,
}

pub record SseBackpressureLimits : Type 0 where
  pub max_bytes : ℕ
  pub max_frames : ℕ
  pub max_rows : ℕ

abbrev pub default_sse_backpressure_limits : SseBackpressureLimits
default_sse_backpressure_limits = record {
  max_bytes = 4 * 1024 * 1024;
  max_frames = 128;
  max_rows = 10000;
}

pub record QueuedFrame : Type 0 where
  pub payload : SsePayload
  pub byte_length : ℕ
  pub row_count : ℕ
  pub coalesced : Bool

pub data EndReason : Type 0 where
  abort overflow reset : EndReason

pub record LogStream : Type 0 where
  pub queue : List QueuedFrame
  pub in_flight : Option QueuedFrame
  pub pending_bytes : ℕ
  pub pending_frames : ℕ
  pub pending_rows : ℕ
  pub heartbeat_due : Bool
  pub end_reason : Option EndReason
  pub subscribed : Bool
  pub written : List SsePayload

-- a stream that has just subscribed
abbrev pub new_stream : LogStream
new_stream = record {
  queue = [];
  in_flight = none;
  pending_bytes = 0;
  pending_frames = 0;
  pending_rows = 0;
  heartbeat_due = false;
  end_reason = none;
  subscribed = true;
  written = [];
}

unfoldable pub payload_row_count : SsePayload → ℕ
payload_row_count (append_rows rows from) = length rows
payload_row_count (snapshot_chunk rows from) = length rows
payload_row_count (patch updates) = length updates
payload_row_count _ = 0

unfoldable pub coalesce_append : List EventRow → ℕ → SsePayload → Option SsePayload
coalesce_append rows from (append_rows next_rows next_from) =
    if from + length rows == next_from then some (append_rows (rows ++ next_rows) from) else none
coalesce_append rows from _ = none

unfoldable pub coalesce_patch : List PatchUpdate → SsePayload → Option SsePayload
coalesce_patch updates (patch next_updates) = some (patch (updates ++ next_updates))
coalesce_patch updates _ = none

unfoldable pub coalesce_progress : SsePayload → Option SsePayload
coalesce_progress (load_progress progress) = some (load_progress progress)
coalesce_progress _ = none

unfoldable pub coalesce_backlog : SsePayload → Option SsePayload
coalesce_backlog (stream_backlog frames rows) = some (stream_backlog frames rows)
coalesce_backlog _ = none

unfoldable pub coalesce_payloads : SsePayload → SsePayload → Option SsePayload
unfolding coalesce_append coalesce_patch coalesce_progress coalesce_backlog
coalesce_payloads (append_rows rows from) next = coalesce_append rows from next
coalesce_payloads (patch updates) next = coalesce_patch updates next
coalesce_payloads (load_progress progress) next = coalesce_progress next
coalesce_payloads (stream_backlog frames rows) next = coalesce_backlog next
coalesce_payloads _ next = none

-- growing merges are limited to pairs; reports of progress and of the backlog replace each other, and
-- nothing else follows them in one frame
can_coalesce : QueuedFrame → SsePayload → Bool
unfolding coalesce_progress coalesce_backlog
can_coalesce previous next = elim previous.payload [
  | load_progress progress ↦ is_some (coalesce_progress next)
  | stream_backlog frames rows ↦ is_some (coalesce_backlog next)
  | _ ↦ not previous.coalesced
]

-- `queue.at(-1)` and `queue[queue.length - 1] = frame`
unfoldable pub last : List QueuedFrame → Option QueuedFrame
last [] = none
last (frame ∷ []) = some frame
last (frame ∷ next ∷ frames) = last (next ∷ frames)

unfoldable pub set_last : List QueuedFrame → QueuedFrame → List QueuedFrame
set_last [] frame = []
set_last (first ∷ []) frame = frame ∷ []
set_last (first ∷ next ∷ frames) frame = first ∷ set_last (next ∷ frames) frame

-- the last frame, and what it and the payload become together
unfoldable pub merged : Option QueuedFrame → SsePayload → Option (QueuedFrame × SsePayload)
unfolding can_coalesce coalesce_payloads
merged none payload = none
merged (some frame) payload =
    if can_coalesce frame payload
    then (coalesce_payloads frame.payload payload >>= λ p. some (frame, p))
    else none

-- what a frame holds is given back
abbrev pub release : QueuedFrame → LogStream → LogStream
release frame s = record s {
  pending_bytes = s.pending_bytes - frame.byte_length;
  pending_frames = s.pending_frames - 1;
  pending_rows = s.pending_rows - frame.row_count;
}

unfoldable pub release_all : List QueuedFrame → LogStream → LogStream
release_all [] s = s
release_all (frame ∷ frames) s = release_all frames (release frame s)

abbrev pub clear_queued_frames : LogStream → LogStream
clear_queued_frames s = record (release_all s.queue s) { queue = [] }

unfoldable pub request_end : EndReason → LogStream → LogStream
unfolding release_all
request_end reason s =
    if is_some s.end_reason
    then s
    else record (clear_queued_frames s) { end_reason = some reason; subscribed = false }

module _ (limits : SseBackpressureLimits) (size_of : SsePayload → ℕ) where
  abbrev pub make_queued_frame : SsePayload → Bool → QueuedFrame
  make_queued_frame payload coalesced = record {
    payload = payload;
    byte_length = size_of payload;
    row_count = payload_row_count payload;
    coalesced = coalesced;
  }

  abbrev pub exceeds_limits : ℕ → ℕ → ℕ → Bool
  exceeds_limits bytes frames rows =
      ltb limits.max_bytes bytes || ltb limits.max_frames frames || ltb limits.max_rows rows

  unfoldable pub replace_last : QueuedFrame → SsePayload → LogStream → LogStream
  unfolding set_last request_end
  replace_last frame payload s =
      let replacement = make_queued_frame payload true in
      let next_bytes = s.pending_bytes - frame.byte_length + replacement.byte_length in
      let next_rows = s.pending_rows - frame.row_count + replacement.row_count in
      if exceeds_limits next_bytes s.pending_frames next_rows
      then request_end overflow s
      else record s {
        queue = set_last s.queue replacement;
        pending_bytes = next_bytes;
        pending_rows = next_rows;
      }

  unfoldable pub push_frame : SsePayload → LogStream → LogStream
  unfolding request_end
  push_frame payload s =
      let frame = make_queued_frame payload false in
      let next_bytes = s.pending_bytes + frame.byte_length in
      let next_frames = s.pending_frames + 1 in
      let next_rows = s.pending_rows + frame.row_count in
      if exceeds_limits next_bytes next_frames next_rows then request_end overflow s else record s {
        queue = s.queue ++ frame ∷ [];
        pending_bytes = next_bytes;
        pending_frames = next_frames;
        pending_rows = next_rows;
      }

  -- the listener of the open log
  unfoldable pub enqueue : SsePayload → LogStream → LogStream
  unfolding last merged replace_last push_frame
  enqueue payload s = if is_some s.end_reason then s else elim (merged (last s.queue) payload) [
    | none ↦ push_frame payload s
    | some m ↦ replace_last m.0 m.1 s
  ]

-- the next frame of the queue is written, where none is being written
unfoldable pub take_next : Option QueuedFrame → List QueuedFrame → LogStream → LogStream
take_next (some frame) frames s = s
take_next none [] s = s
take_next none (frame ∷ frames) s = record s {
  queue = frames;
  in_flight = some frame;
  written = s.written ++ frame.payload ∷ [];
}

-- one round of `drainQueue` up to its write
unfoldable pub take_frame : LogStream → LogStream
unfolding take_next
take_frame s = if is_some s.end_reason then s else take_next s.in_flight s.queue s

unfoldable pub land : Option QueuedFrame → LogStream → LogStream
land none s = s
land (some frame) s = record (release frame s) { in_flight = none }

-- the rest of the round, behind the write
unfoldable pub frame_written : LogStream → LogStream
unfolding land
frame_written s = land s.in_flight s

-- the loop's heartbeat, where `drainQueue` has just returned
unfoldable pub ping_behind : List QueuedFrame → LogStream → LogStream
ping_behind [] s =
    if s.heartbeat_due && not (is_some s.end_reason) && not (is_some s.in_flight)
    then record s { heartbeat_due = false; written = s.written ++ ping ∷ [] }
    else s
ping_behind (frame ∷ frames) s = s

unfoldable pub write_ping : LogStream → LogStream
unfolding ping_behind
write_ping s = ping_behind s.queue s

-- `writeTermination`
unfoldable pub termination : EndReason → List SsePayload
termination abort = []
termination overflow =
    error "stream-overflow"
      "Live updates exceeded this client's bounded queue; reconnect to resynchronize."
    ∷ log_reset
    ∷ bye
    ∷ []
termination reset = log_reset ∷ bye ∷ []

-- what happens at a stream: a frame of the log, a round of the writer, the end of its write, the timer,
-- the loop's ping, and an end that is asked for
pub data StreamEvent : Type 0 where
  emitted : SsePayload → StreamEvent
  taken wrote timer pinged : StreamEvent
  ended : EndReason → StreamEvent

unfoldable pub stream_step :
    SseBackpressureLimits → (SsePayload → ℕ) → StreamEvent → LogStream → LogStream
unfolding enqueue take_frame frame_written write_ping request_end
stream_step limits size_of (emitted payload) s =
    if s.subscribed then enqueue limits size_of payload s else s
stream_step limits size_of taken s = take_frame s
stream_step limits size_of wrote s = frame_written s
stream_step limits size_of timer s = record s { heartbeat_due = true }
stream_step limits size_of pinged s = write_ping s
stream_step limits size_of (ended reason) s = request_end reason s

unfoldable pub stream_run :
    SseBackpressureLimits → (SsePayload → ℕ) → List StreamEvent → LogStream → LogStream
unfolding stream_step
stream_run limits size_of [] s = s
stream_run limits size_of (e ∷ es) s = stream_run limits size_of es (stream_step limits size_of e s)
