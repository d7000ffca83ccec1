-- ===== src/Tests/Client.antt =====
-- A client that is paused while an open log sends its frames, and then resumed.
use ahp_inspector.Base.{
  not, str_eq, ℕ, ap, is_some, false, ◌++◌, true, none, some, List, [], ◌∷◌, map, ◌≡◌, refl, length,
}
use ahp_inspector.Base.Int.{pos}
use ahp_inspector.Shared.Correlation.{correlation_key_for_request, correlation_key_for_response}
use ahp_inspector.Core.Store.{size}
use ahp_inspector.Server.LogStream.Snapshot.{snapshot_frames}
use ahp_inspector.Pipeline.Snapshot.{apply_frames, snapshot_frames-rows}
use ahp_inspector.Server.Frames.{
  LoadProgress, complete, SsePayload, LogMeta, snapshot_end, append_rows, rotation, shrink,
}
use ahp_inspector.Server.AppState.Calls.{run}
use ahp_inspector.Server.LogStream.{
  LogStream, new_stream, StreamEvent, emitted, taken, wrote, timer, pinged, stream_run,
  default_sse_backpressure_limits, payload_row_count,
}
use ahp_inspector.Server.LogStream.Queue.{Kept, stream_run-Kept, new_stream-Kept}
use ahp_inspector.Server.LogStream.Carries.{
  Carries, emitted_of, stream_run-Carries, new_stream-Carries,
}
use ahp_inspector.Ui.Store.{AppStore, new_store}
use ahp_inspector.Ui.Store.Setters.{collapsed, toggle_group_collapsed, toggle_group_collapsed-turns}
use ahp_inspector.Ui.Store.Resume.{resumed_append, resumed_append-throws}
use ahp_inspector.Ui.Stream.{
  ClientEvent, frame, Stream, callback, set_paused, resume, client_step, client_run,
}
use ahp_inspector.Ui.Stream.Rows.{rows_after_all, Fits, FitsAll}
use ahp_inspector.Ui.Stream.Tracks.{Tracks, frames_of, DropsNone, client_run-Tracks}
use ahp_inspector.Pipeline.EndToEnd.{begun, begun-Tracks, drained_client-rows}
use ahp_inspector.Tests.Rows.{ping_row}
use ahp_inspector.Tests.App.{runtime, calls}

abbrev log_meta : LogMeta
log_meta = record { filename = "a.jsonl"; size_bytes = 3; started_at = pos 0; log_key = "/a.jsonl" }

-- every frame counts for 100 bytes
abbrev size_of : SsePayload → ℕ
size_of payload = 100

abbrev stream_events : List StreamEvent
stream_events =
    map emitted (run runtime calls).sent
    ++ taken ∷ wrote ∷ timer ∷ taken ∷ wrote ∷ taken ∷ wrote ∷ taken ∷ wrote ∷ taken ∷ wrote
      ∷ pinged ∷ []

abbrev stream : LogStream
stream = stream_run default_sse_backpressure_limits size_of stream_events new_stream

abbrev events : List ClientEvent
events = frame snapshot_end ∷ set_paused true ∷ (map frame stream.written ++ callback ∷ resume ∷ [])

emits_test : emitted_of stream_events ≡ (run runtime calls).sent
unfolding run size correlation_key_for_request correlation_key_for_response emitted_of
emits_test = refl

going_test : is_some stream.end_reason ≡ false
unfolding run size correlation_key_for_request correlation_key_for_response stream_run
    payload_row_count
going_test = refl

emptied_test : stream.queue ≡ []
unfolding run size correlation_key_for_request correlation_key_for_response stream_run
    payload_row_count
emptied_test = refl

-- five frames have become four, and the heartbeat
merged_test : length stream.written ≡ 5
unfolding run size correlation_key_for_request correlation_key_for_response stream_run
    payload_row_count
merged_test = refl

frames_of-arriving :
    (fs : List SsePayload) → frames_of (map frame fs ++ callback ∷ resume ∷ []) ≡ fs
unfolding frames_of
frames_of-arriving [] = refl
frames_of-arriving (f ∷ fs) = ap (◌∷◌ f) (frames_of-arriving fs)

arrives_test : frames_of events ≡ snapshot_end ∷ stream.written
unfolding frames_of
arrives_test = ap (◌∷◌ snapshot_end) (frames_of-arriving stream.written)

arriving-DropsNone :
    (fs : List SsePayload) (s : Stream) → DropsNone (map frame fs ++ callback ∷ resume ∷ []) s
unfolding DropsNone
arriving-DropsNone [] s = tt
arriving-DropsNone (f ∷ fs) s = arriving-DropsNone fs (client_step (frame f) s)

drops_test : DropsNone events (begun log_meta 0)
unfolding DropsNone
drops_test = arriving-DropsNone stream.written _

drained_test : (client_run events (begun log_meta 0)).queued_frames ≡ []
unfolding run size correlation_key_for_request correlation_key_for_response stream_run
    payload_row_count client_run begun
drained_test = refl

drained_client-rows_example :
    (client_run events (begun log_meta 0)).store.rows
      ++ map some (client_run events (begun log_meta 0)).store.pending_buffer
    ≡ map some (run runtime calls).rows
drained_client-rows_example =
    drained_client-rows runtime calls default_sse_backpressure_limits size_of stream_events
      emits_test going_test log_meta events arrives_test drops_test emptied_test drained_test

shown_test : length (client_run events (begun log_meta 0)).store.rows ≡ 2
unfolding run size correlation_key_for_request correlation_key_for_response stream_run
    payload_row_count client_run begun
shown_test = refl

stream_run-Kept_example : Kept default_sse_backpressure_limits stream
stream_run-Kept_example =
    stream_run-Kept default_sse_backpressure_limits size_of stream_events new_stream
      (new_stream-Kept default_sse_backpressure_limits)

-- a row arrives while the client is paused, and is drained
abbrev live : List ClientEvent
live =
    set_paused true
    ∷ set_paused false
    ∷ set_paused true
    ∷ frame (append_rows (ping_row ∷ []) 0)
    ∷ frame (rotation 0 shrink)
    ∷ frame (append_rows (ping_row ∷ []) 0)
    ∷ callback
    ∷ []

live-FitsAll : FitsAll Fits [] (frames_of live)
unfolding FitsAll frames_of
live-FitsAll = ((refl, (refl, tt)), (tt, ((refl, (refl, tt)), tt)))

live-DropsNone : DropsNone live (begun log_meta 0)
unfolding DropsNone client_step begun
live-DropsNone = (refl, tt)

client_run-Tracks_example :
    Tracks (client_run live (begun log_meta 0)) (rows_after_all [] (frames_of live))
client_run-Tracks_example =
    client_run-Tracks live (begun log_meta 0) [] live-FitsAll live-DropsNone
      (begun-Tracks log_meta 0)

-- a paused store that shows one row of an open log
abbrev paused : AppStore
paused = record new_store {
  rows = some ping_row ∷ [];
  meta = some (record { filename = "a.jsonl"; event_count = 1; session_count = 0 });
  live_paused = true;
}

resumed_append-throws_example : resumed_append (ping_row ∷ []) (ping_row ∷ []) 1 paused ≡ none
resumed_append-throws_example =
    resumed_append-throws ping_row ping_row [] [] 1 paused
      (record { filename = "a.jsonl"; event_count = 1; session_count = 0 }) refl refl refl

-- a row, a second one that is merged with it, and their writes
abbrev two_rows : List StreamEvent
two_rows =
    emitted (append_rows (ping_row ∷ []) 0)
    ∷ emitted (append_rows (record ping_row { idx = 1 } ∷ []) 1)
    ∷ taken
    ∷ []

two_rows-FitsAll : FitsAll Fits [] (emitted_of two_rows)
unfolding FitsAll emitted_of
two_rows-FitsAll = ((refl, (refl, tt)), ((refl, (refl, tt)), tt))

stream_run-Carries_example :
    Carries []
      (stream_run default_sse_backpressure_limits size_of two_rows new_stream)
      (rows_after_all [] (emitted_of two_rows))
stream_run-Carries_example =
    stream_run-Carries [] default_sse_backpressure_limits size_of two_rows new_stream []
      two_rows-FitsAll (new_stream-Carries [])

-- a log of two rows, whose first read is complete
abbrev progress : LoadProgress
progress = record {
  phase = complete;
  loaded_rows = 2;
  loaded_bytes = 4;
  total_bytes = some 4;
  percent = some 100;
}

snapshot_frames-rows_example :
    (apply_frames (snapshot_frames log_meta (ping_row ∷ ping_row ∷ []) progress) new_store).rows
    ≡ some ping_row ∷ some ping_row ∷ []
snapshot_frames-rows_example =
    snapshot_frames-rows log_meta (ping_row ∷ ping_row ∷ []) progress new_store refl

toggle_group_collapsed-turns_example :
    (collapsed (toggle_group_collapsed "a" new_store) "a" ≡ not (collapsed new_store "a"))
    × (str_eq "a" "b" ≡ false
        → collapsed (toggle_group_collapsed "a" new_store) "b" ≡ collapsed new_store "b")
toggle_group_collapsed-turns_example = toggle_group_collapsed-turns "a" "b" new_store
