-- ===== src/Ui/Stream/Tracks.antt =====
-- The client keeps track of the server's rows, through its queue, its batches and its pauses.
use ahp_inspector.Base.{
  ℕ, zero, suc, Bool, true, false, not, ◌&&◌, ◌||◌, List, [], ◌∷◌, ◌++◌, ◌≡◌, refl, sym, ap, subst,
  ◌∙◌, if◌then◌else◌,
}
use ahp_inspector.Core.Row.{EventRow}
use ahp_inspector.Server.Frames.{
  SsePayload, snapshot_end, append_rows, load_progress, stream_backlog, patch, ping, rotation,
  watch_error,
}
use ahp_inspector.Ui.Store.{AppStore, set_live_paused, reset_for_rotation}
use ahp_inspector.Ui.Store.Slots.{Numbered}
use ahp_inspector.Ui.Stream.{
  Stream, schedule_drain, enqueue, apply_frame, ends_snapshot, drain_rounds, drain_frames, at_once,
  receive, ClientEvent, frame, callback, set_paused, resume, resume_following, client_step,
  client_run, max_drain_frames,
}
use ahp_inspector.Ui.Stream.Rows.{
  rows_after, rows_after_all, Fits, Waits, FitsAll, rows_after_all-append, FitsAll-append,
  rows_after-Numbered,
}
use ahp_inspector.Ui.Stream.Mirror.{Mirror, apply_frame-Mirror, resume-Mirror}

-- the frames still queued lead from the rows that the store mirrors to the rows
pub record Tracks (s : Stream) (rows : List EventRow) : Type 0 where
  pub done : List EventRow
  pub mirror : Mirror s.store done
  pub numbered : Numbered 0 done
  pub ahead : rows_after_all done s.queued_frames ≡ rows
  pub fit : FitsAll Waits done s.queued_frames
  pub open_stream : s.closed_by_caller ≡ false

schedule_drain-Tracks :
    (s : Stream) (rows : List EventRow) → Tracks s rows → Tracks (schedule_drain s) rows
unfolding schedule_drain
schedule_drain-Tracks s rows t = by (s.drain_scheduled || s.graceful || s.closed_by_caller)
  where
    by : (b : Bool) → Tracks (if b then s else record s { drain_scheduled = true }) rows
    by true = t
    by false = record {
      done = t.done;
      mirror = t.mirror;
      numbered = t.numbered;
      ahead = t.ahead;
      fit = t.fit;
      open_stream = t.open_stream;
    }

drain_rounds-Tracks :
    (n : ℕ) (fs : List SsePayload) (s : Stream) (rows done : List EventRow)
    → Mirror s.store done
    → Numbered 0 done
    → rows_after_all done fs ≡ rows
    → FitsAll Waits done fs
    → s.closed_by_caller ≡ false
    → Tracks (drain_rounds n fs s) rows
unfolding drain_rounds FitsAll rows_after_all
drain_rounds-Tracks n [] s rows done m k e f o = record {
  done = done;
  mirror = m;
  numbered = k;
  ahead = e;
  fit = f;
  open_stream = o;
}
drain_rounds-Tracks zero (g ∷ fs) s rows done m k e f o =
    schedule_drain-Tracks (record s { queued_frames = g ∷ fs }) rows
      (record { done = done; mirror = m; numbered = k; ahead = e; fit = f; open_stream = o })
drain_rounds-Tracks (suc n) (g ∷ fs) s rows done m k e f o =
    let (w, later) = f in
    let (quiet, after) = apply_frame-Mirror g s.store done k w m in
    let next = record s {
      store = (apply_frame g s.store).0;
      has_connected = ends_snapshot g s.has_connected;
    } in
    by next (apply_frame g s.store).1 quiet (
      drain_rounds-Tracks n fs next rows (rows_after done g) after (rows_after-Numbered done g w k)
        e later o)
  where
    by :
        (next : Stream) (threw : Bool)
        → threw ≡ false
        → Tracks (drain_rounds n fs next) rows
        → Tracks (if threw then record next { queued_frames = fs } else drain_rounds n fs next) rows
    by next true q t = cc
    by next false q t = t

drain_frames-Tracks :
    (s : Stream) (rows : List EventRow) → Tracks s rows → Tracks (drain_frames s) rows
unfolding drain_frames
drain_frames-Tracks s rows t = by (s.drain_scheduled && not s.graceful && not s.closed_by_caller)
  where
    by :
        (b : Bool)
        → Tracks
            (if b
              then drain_rounds max_drain_frames s.queued_frames
                  (record s { drain_scheduled = false })
              else s)
            rows
    by true =
        drain_rounds-Tracks max_drain_frames s.queued_frames (record s { drain_scheduled = false })
          rows t.done t.mirror t.numbered t.ahead t.fit t.open_stream
    by false = t

-- a frame that joins the queue
enqueue-Tracks :
    (f : SsePayload) (s : Stream) (rows : List EventRow)
    → Waits rows f
    → Tracks s rows
    → Tracks (enqueue f s) (rows_after rows f)
unfolding enqueue
enqueue-Tracks f s rows w t = by s.closed_by_caller t.open_stream
  where
    joined : Stream
    joined = record s { queued_frames = s.queued_frames ++ f ∷ [] }

    by :
        (b : Bool) → b ≡ false → Tracks (if b then s else schedule_drain joined) (rows_after rows f)
    by true e = cc
    by false e = schedule_drain-Tracks joined (rows_after rows f) (record {
      done = t.done;
      mirror = t.mirror;
      numbered = t.numbered;
      ahead = rows_after_all-append t.done s.queued_frames f ∙ ap (λ xs. rows_after xs f) t.ahead;
      fit =
          FitsAll-append Waits t.done s.queued_frames f t.fit
            (subst (λ xs. Waits xs f) (sym t.ahead) w);
      open_stream = t.open_stream;
    })

receive-Tracks :
    (f : SsePayload) (s : Stream) (rows : List EventRow)
    → Fits rows f
    → Tracks s rows
    → Tracks (receive f s) (rows_after rows f)
unfolding receive rows_after
receive-Tracks (append_rows new_rows from) s rows h t =
    enqueue-Tracks (append_rows new_rows from) s rows h t
receive-Tracks (patch updates) s rows h t = enqueue-Tracks (patch updates) s rows h t
receive-Tracks (load_progress progress) s rows h t =
    enqueue-Tracks (load_progress progress) s rows h t
receive-Tracks (rotation size reason) s rows h t = by s.closed_by_caller t.open_stream
  where
    by : (b : Bool) → b ≡ false → Tracks (if b then s else at_once (rotation size reason) s) []
    by true e = cc
    by false e =
        unfold at_once reset_for_rotation rows_after_all FitsAll in
        record {
          done = [];
          mirror = record { shown = []; no_hole = refl; all = refl; live = λ off. refl };
          numbered = tt;
          ahead = refl;
          fit = tt;
          open_stream = t.open_stream;
        }
receive-Tracks (watch_error err) s rows h t = by s.closed_by_caller t.open_stream
  where
    by : (b : Bool) → b ≡ false → Tracks (if b then s else at_once (watch_error err) s) rows
    by true e = cc
    by false e =
        unfold at_once in
        record {
          done = t.done;
          mirror = record {
            shown = t.mirror.shown;
            no_hole = t.mirror.no_hole;
            all = t.mirror.all;
            live = t.mirror.live;
          };
          numbered = t.numbered;
          ahead = t.ahead;
          fit = t.fit;
          open_stream = t.open_stream;
        }
receive-Tracks snapshot_end s rows h t = enqueue-Tracks snapshot_end s rows h t
receive-Tracks (stream_backlog frames backlog) s rows h t =
    enqueue-Tracks (stream_backlog frames backlog) s rows h t
receive-Tracks ping s rows h t = t
receive-Tracks _ s rows h t = absurd h

-- a change of the store that the rows survive
mirrored :
    (s : Stream) (rows : List EventRow) (t : Tracks s rows) (store : AppStore)
    → Mirror store t.done
    → Tracks (record s { store = store }) rows
mirrored s rows t store m = record {
  done = t.done;
  mirror = m;
  numbered = t.numbered;
  ahead = t.ahead;
  fit = t.fit;
  open_stream = t.open_stream;
}

-- the flag changes, and the buffer is empty if it is off
set_paused-Tracks :
    (paused : Bool) (s : Stream) (rows : List EventRow)
    → (paused ≡ false → s.store.pending_buffer ≡ [])
    → Tracks s rows
    → Tracks (record s { store = set_live_paused paused s.store }) rows
set_paused-Tracks paused s rows empty t =
    mirrored s rows t (set_live_paused paused s.store) (record {
      shown = t.mirror.shown;
      no_hole = t.mirror.no_hole;
      all = t.mirror.all;
      live = empty;
    })

-- the frames among the events
unfoldable pub frames_of : List ClientEvent → List SsePayload
frames_of [] = []
frames_of (frame f ∷ es) = f ∷ frames_of es
frames_of (callback ∷ es) = frames_of es
frames_of (set_paused paused ∷ es) = frames_of es
frames_of (resume ∷ es) = frames_of es

-- each call of `setLivePaused(false)` alone finds no row held back; the other events are free
unfoldable pub DropsNone : List ClientEvent → Stream → Type 0
unfolding client_step
DropsNone [] s = Unit {0}
DropsNone (set_paused false ∷ es) s =
    (s.store.pending_buffer ≡ []) × DropsNone es (client_step (set_paused false) s)
DropsNone (e ∷ es) s = DropsNone es (client_step e s)

-- The arrival of frames that fit, the browser's callbacks, the calls of `onResumeFollowing` and those of
-- `setLivePaused` (the pause button, the space bar) are interleaved in any way, except that no call of
-- `setLivePaused(false)` alone comes while rows are held back. Then a client that tracks the rows goes
-- on to track what the frames make of them.
pub client_run-Tracks :
    (es : List ClientEvent) (s : Stream) (rows : List EventRow)
    → FitsAll Fits rows (frames_of es)
    → DropsNone es s
    → Tracks s rows
    → Tracks (client_run es s) (rows_after_all rows (frames_of es))
unfolding client_run client_step frames_of FitsAll rows_after_all DropsNone
client_run-Tracks [] s rows h d t = t
client_run-Tracks (frame f ∷ es) s rows h d t =
    client_run-Tracks es (receive f s) (rows_after rows f) h.1 d (receive-Tracks f s rows h.0 t)
client_run-Tracks (callback ∷ es) s rows h d t =
    client_run-Tracks es (drain_frames s) rows h d (drain_frames-Tracks s rows t)
client_run-Tracks (set_paused true ∷ es) s rows h d t =
    client_run-Tracks es _ rows h d (set_paused-Tracks true s rows (λ off. cc) t)
client_run-Tracks (set_paused false ∷ es) s rows h d t =
    client_run-Tracks es _ rows h d.1 (set_paused-Tracks false s rows (λ off. d.0) t)
client_run-Tracks (resume ∷ es) s rows h d t =
    client_run-Tracks es _ rows h d
      (mirrored s rows t (resume_following s.store) (resume-Mirror s.store t.done t.mirror))
