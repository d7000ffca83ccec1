-- ===== src/Server/AppState/Views.antt =====
-- packages/server/src/app-state.ts: what the routes and a new listener read from an open log, and how
-- many warnings it keeps for one.
use ahp_inspector.Base.{
  ℕ, suc, ◌+◌, ◌≤◌, Bool, true, false, Option, some, List, [], ◌∷◌, ◌++◌, map, ◌≡◌, refl, sym, ap,
  subst, arith, length, length-append, if-cases, if◌then◌else◌, ltb,
}
use ahp_inspector.Base.Int.{ℤ}
use ahp_inspector.Shared.Event.{AhpEvent}
use ahp_inspector.Parser.Splitter.{
  SplitLine, Outcome, result, overflow, checkpoint, finalize_if, push_detailed,
}
use ahp_inspector.Core.Store.{at, size}
use ahp_inspector.Core.Correlator.{Status, pair_of, latency_of, status_of}
use ahp_inspector.Core.Row.{EventRow}
use ahp_inspector.Server.StateReplayIndex
use ahp_inspector.Server.StateReplayIndex.{Host, StateReplayIndexResult}
use ahp_inspector.Server.Frames.{
  oversized_line, LogMeta, SsePayload, LoadProgress, PatchUpdate, WatchError, watch_error,
}
use ahp_inspector.Server.AppState.{
  Runtime, AppState, create_app_state, max_sticky_watch_errors, sticky, oversized_message,
  emit_watch_error, on_oversized_bytes, report_skipped, current_load_progress, emit_load_progress,
  loaded, on_initial_read_start, on_initial_read_progress, on_reset, on_error,
}
use ahp_inspector.Server.AppState.Rows.{
  take_changes, send_patch, run_flush, add_row, on_store_append, store_append,
}
use ahp_inspector.Server.AppState.Ingest.{
  ingest_line, ingest_lines, is_complete, finalize_valid_tail, take_checkpoint,
  on_initial_read_complete, on_pushed, on_text, on_chunk,
}
use ahp_inspector.Server.AppState.Calls.{
  Call, read_start, read_progress, read_complete, chunk, reset, failed, tick, handle, run_from, run,
}

unfoldable pub snapshot : LogMeta → AppState → LogMeta × List EventRow × LoadProgress
unfolding current_load_progress
snapshot meta s = (meta, s.rows, current_load_progress s)

-- the frames that `subscribe` gives a listener at once
unfoldable pub replayed_warnings : AppState → List SsePayload
replayed_warnings s = map watch_error s.watch_errors

unfoldable pub event_at : AppState → ℕ → Option AhpEvent
unfolding at
event_at s idx = at s.store idx

unfoldable pub correlator_data_for : AppState → ℕ → Option ℕ × Option ℕ × Status
unfolding pair_of latency_of status_of
correlator_data_for s idx =
    (pair_of s.correlator idx, latency_of s.correlator idx, status_of s.correlator idx)

-- the replay's answer, with the number of events, and the cache behind it
unfoldable pub state_at_index : Host → ℤ → AppState → StateReplayIndexResult × ℕ × AppState
unfolding StateReplayIndex.state_at_index size
state_at_index host target s =
    let answered = StateReplayIndex.state_at_index host s.store.events target s.state_replay in
    (answered.0, size s.store, record s { state_replay = answered.1 })

sticky-length :
    (ws : List WatchError)
    → length ws ≤ suc max_sticky_watch_errors
    → length (sticky ws) ≤ max_sticky_watch_errors
unfolding sticky
sticky-length [] h = ground arith
sticky-length (w ∷ ws) h = ground (arith, h)

abbrev IsBounded : AppState → Type 0
IsBounded s = length s.watch_errors ≤ max_sticky_watch_errors

emit_watch_error-IsBounded :
    (w : WatchError) (s : AppState) → IsBounded s → IsBounded (emit_watch_error w s)
unfolding emit_watch_error
emit_watch_error-IsBounded w s h =
    sticky-length (s.watch_errors ++ w ∷ [])
      (omega (arith, h, length-append {0} s.watch_errors (w ∷ [])))

-- a state with the same warnings
kept : (t s : AppState) → t.watch_errors ≡ s.watch_errors → IsBounded s → IsBounded t
kept t s e h = subst (λ ws. length ws ≤ max_sticky_watch_errors) (sym e) h

on_oversized_bytes-IsBounded :
    (dropped terminator : ℕ) (s : AppState)
    → IsBounded s
    → IsBounded (on_oversized_bytes dropped terminator s)
unfolding on_oversized_bytes
on_oversized_bytes-IsBounded dropped terminator s h =
    by s.oversized_warning_active (ltb 0 terminator)
  where
    counted : AppState
    counted = record s { byte_offset = s.byte_offset + (dropped + terminator) }

    warning : WatchError
    warning = record { code = oversized_line; message = oversized_message dropped }

    by :
        (active ended : Bool)
        → IsBounded (
            let told =
              if active
              then counted
              else emit_watch_error warning (record counted { oversized_warning_active = true }) in
            if ended then record told { oversized_warning_active = false } else told)
    by true true = h
    by true false = h
    by false true = emit_watch_error-IsBounded warning s h
    by false false = emit_watch_error-IsBounded warning s h

report_skipped-IsBounded :
    (skipped : List (ℕ × ℕ)) (s : AppState) → IsBounded s → IsBounded (report_skipped skipped s)
unfolding report_skipped
report_skipped-IsBounded [] s h = h
report_skipped-IsBounded ((dropped, terminator) ∷ skipped) s h =
    report_skipped-IsBounded skipped (on_oversized_bytes dropped terminator s)
      (on_oversized_bytes-IsBounded dropped terminator s h)

length-warnings : (ws : List WatchError) → length (map watch_error ws) ≡ length ws
length-warnings [] = refl
length-warnings (w ∷ ws) = ap suc (length-warnings ws)

send_patch-IsBounded :
    (us : List PatchUpdate) (s : AppState) → IsBounded s → IsBounded (send_patch us s)
send_patch-IsBounded [] s h = h
send_patch-IsBounded (u ∷ us) s h = h

module _ (rt : Runtime) where
  ingest_lines-IsBounded :
      (lines : List SplitLine) (s : AppState) → IsBounded s → IsBounded (ingest_lines rt lines s)
  unfolding ingest_lines ingest_line store_append on_store_append take_changes add_row
  ingest_lines-IsBounded [] s h = h
  ingest_lines-IsBounded (line ∷ lines) s h =
      ingest_lines-IsBounded lines (ingest_line rt line s) (send_patch-IsBounded _ _ h)

  take_checkpoint-IsBounded : (s : AppState) → IsBounded s → IsBounded (take_checkpoint rt s)
  unfolding take_checkpoint
  take_checkpoint-IsBounded s h =
      if-cases IsBounded (ltb 0 (checkpoint s.splitter).1) _ _
        (λ e. on_oversized_bytes-IsBounded (checkpoint s.splitter).1 0 _ h) (λ e. h)

  on_pushed-IsBounded : (o : Outcome) (s : AppState) → IsBounded s → IsBounded (on_pushed rt o s)
  unfolding on_pushed
  on_pushed-IsBounded overflow s h = emit_watch_error-IsBounded _ s h
  on_pushed-IsBounded (result r) s h = ingest_lines-IsBounded r.lines _ h

  handle-IsBounded : (call : Call) (s : AppState) → IsBounded s → IsBounded (handle rt call s)
  unfolding handle on_initial_read_start on_initial_read_progress on_initial_read_complete on_chunk
      on_text finalize_valid_tail emit_load_progress on_reset on_error run_flush take_changes
  handle-IsBounded (read_start n) s h = h
  handle-IsBounded (read_progress bytes n) s h = h
  handle-IsBounded (read_complete bytes n) s h =
      let taken = take_checkpoint rt (loaded bytes (some n) s) in
      let finalized = finalize_if (is_complete rt taken) taken.splitter in
      ingest_lines-IsBounded finalized.1 (record taken { splitter = finalized.0 })
        (take_checkpoint-IsBounded (loaded bytes (some n) s) h)
  handle-IsBounded (chunk bytes) s h =
      let decoded = rt.decode s.decoder bytes in
      let pushed = push_detailed s.splitter decoded.0 in
      let begun = record s { decoder = decoded.1; splitter = pushed.splitter } in
      on_pushed-IsBounded pushed.outcome (report_skipped pushed.skipped begun)
        (report_skipped-IsBounded pushed.skipped begun h)
  handle-IsBounded (reset n reason) s h = ground arith
  handle-IsBounded (failed err fatal) s h = emit_watch_error-IsBounded _ s h
  handle-IsBounded (tick now timeout) s h = send_patch-IsBounded _ _ h

  run_from-IsBounded :
      (calls : List Call) (s : AppState) → IsBounded s → IsBounded (run_from rt calls s)
  unfolding run_from
  run_from-IsBounded [] s h = h
  run_from-IsBounded (call ∷ calls) s h =
      run_from-IsBounded calls (handle rt call s) (handle-IsBounded call s h)

  -- Whatever calls reach an open log, a new listener is given at most 50 warnings at once.
  pub replayed_warnings-bound :
      (calls : List Call) → length (replayed_warnings (run rt calls)) ≤ max_sticky_watch_errors
  unfolding run create_app_state replayed_warnings
  replayed_warnings-bound calls = omega (
    arith,
    length-warnings (run rt calls).watch_errors,
    run_from-IsBounded calls create_app_state (ground arith),
  )
