-- ===== src/Pipeline/EndToEnd.antt =====
-- The open log, the stream of sse-routes.ts and the client at its end: the client holds the log's rows.
use mathlib.Core.List.{map-append, append-nil}
use ahp_inspector.Base.{
  is_some, ℕ, false, some, List, [], ◌∷◌, ◌++◌, map, ◌≡◌, refl, sym, ap, subst, ◌∙◌,
}
use ahp_inspector.Core.Row.{EventRow}
use ahp_inspector.Server.Frames.{SsePayload, LogMeta, snapshot_begin, snapshot_end}
use ahp_inspector.Server.AppState.{Runtime}
use ahp_inspector.Server.AppState.Calls.{Call, run}
use ahp_inspector.Server.LogStream.{SseBackpressureLimits, new_stream, StreamEvent, stream_run}
use ahp_inspector.Server.LogStream.Carries.{
  payloads, Leads, emitted_of, stream_run-Carries, new_stream-Carries,
}
use ahp_inspector.Ui.Store.{new_store, set_rows, with_rows}
use ahp_inspector.Ui.Stream.{
  Stream, connect, receive, at_once, begin_snapshot, ClientEvent, client_run,
}
use ahp_inspector.Ui.Stream.Rows.{rows_after, rows_after_all, Fits, FitsAll}
use ahp_inspector.Ui.Stream.Tracks.{Tracks, frames_of, DropsNone, client_run-Tracks}
use ahp_inspector.Pipeline.Told.{run-Told}

-- a new client whose snapshot begins
unfoldable pub begun : LogMeta → ℕ → Stream
unfolding receive connect
begun meta total = receive (snapshot_begin meta total) (connect new_store)

pub begun-Tracks : (meta : LogMeta) (total : ℕ) → Tracks (begun meta total) []
unfolding begun receive connect at_once begin_snapshot set_rows with_rows rows_after_all FitsAll
begun-Tracks meta total = record {
  done = [];
  mirror = record { shown = []; no_hole = refl; all = refl; live = λ off. refl };
  numbered = tt;
  ahead = refl;
  fit = tt;
  open_stream = refl;
}

-- what a client that has drained its queue shows, when it was sent frames that lead to these rows
told_client-rows :
    (fs : List SsePayload) (rows : List EventRow) (meta : LogMeta) (total : ℕ)
    (es : List ClientEvent)
    → Leads [] fs rows
    → frames_of es ≡ fs
    → DropsNone es (begun meta total)
    → (client_run es (begun meta total)).queued_frames ≡ []
    → (client_run es (begun meta total)).store.rows
        ++ map some (client_run es (begun meta total)).store.pending_buffer
      ≡ map some rows
unfolding rows_after_all
told_client-rows fs rows meta total es l e drops empty =
    let t =
      client_run-Tracks es (begun meta total) [] (subst (FitsAll Fits []) (sym e) l.1) drops
        (begun-Tracks meta total) in
    let held = (client_run es (begun meta total)).store.pending_buffer in
    let done : t.done ≡ rows =
      ap (rows_after_all t.done) (sym empty) ∙ t.ahead ∙ ap (rows_after_all []) e ∙ l.0 in
    ap (λ slots. slots ++ map some held) t.mirror.no_hole
    ∙ sym (map-append some t.mirror.shown held)
    ∙ ap (map some) (t.mirror.all ∙ done)

module _ (rt : Runtime) (calls : List Call) (limits : SseBackpressureLimits)
    (size_of : SsePayload → ℕ) (ss : List StreamEvent) (emits : emitted_of ss ≡ (run rt calls).sent)
    (going : is_some (stream_run limits size_of ss new_stream).end_reason ≡ false) where
  -- what the stream has written and what it has queued leads to the log's rows
  stream-Leads :
      Leads []
        ((stream_run limits size_of ss new_stream).written
          ++ payloads (stream_run limits size_of ss new_stream).queue)
        (run rt calls).rows
  stream-Leads =
      let told = run-Told rt calls in
      let carried =
        stream_run-Carries [] limits size_of ss new_stream []
          (subst (FitsAll Fits []) (sym emits) told.fit) (new_stream-Carries []) in
      subst (Leads [] _) (ap (rows_after_all []) emits ∙ told.told) (carried.leads going)

  module _ (meta : LogMeta) (es : List ClientEvent)
      (arrives : frames_of es ≡ snapshot_end ∷ (stream_run limits size_of ss new_stream).written)
      (drops : DropsNone es (begun meta 0)) where
    -- Whatever calls reach a new log, however its frames wait in the bounded queue of a stream and are
    -- merged there, and however their arrival at a client is interleaved with the browser's callbacks,
    -- calls of `onResumeFollowing` and calls of `setLivePaused`, those of `setLivePaused(false)` while
    -- rows are held back excepted: if the stream has not ended and both queues are empty, the rows that
    -- the client shows, with those that it holds back, are the rows of the log.
    pub drained_client-rows :
        (stream_run limits size_of ss new_stream).queue ≡ []
        → (client_run es (begun meta 0)).queued_frames ≡ []
        → (client_run es (begun meta 0)).store.rows
            ++ map some (client_run es (begun meta 0)).store.pending_buffer
          ≡ map some (run rt calls).rows
    unfolding rows_after_all FitsAll rows_after
    drained_client-rows drained empty =
        let written = (stream_run limits size_of ss new_stream).written in
        let l : Leads [] written (run rt calls).rows =
          subst (λ fs. Leads [] fs (run rt calls).rows)
            (ap (λ q. written ++ payloads q) drained ∙ append-nil written) stream-Leads in
        told_client-rows (snapshot_end ∷ written) (run rt calls).rows meta 0 es (l.0, (tt, l.1))
          arrives drops empty
