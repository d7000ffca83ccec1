-- ===== src/Pipeline/Told.antt =====
-- Every call leaves the frames that were sent telling the rows.
use ahp_inspector.Base.{ℕ, ◌+◌, some, List, [], ◌∷◌, refl, ltb, Bool-cases, inl, inr}
use ahp_inspector.Parser.Splitter.{
  SplitLine, Outcome, result, overflow, checkpoint, finalize_if, push_detailed,
}
use ahp_inspector.Core.Store.{size}
use ahp_inspector.Server.Frames.{RotationReason, rotation, watch_error_payload}
use ahp_inspector.Server.AppState.{
  Runtime, AppState, create_app_state, on_oversized_bytes, report_skipped, emit_load_progress,
  on_initial_read_start, on_initial_read_progress, on_reset, on_error, loaded,
}
use ahp_inspector.Server.AppState.Ingest.{
  is_complete, ingest_line, ingest_lines, finalize_valid_tail, take_checkpoint,
  on_initial_read_complete, on_pushed, on_text, on_chunk,
}
use ahp_inspector.Server.AppState.Synced.{IsSynced}
use ahp_inspector.Server.AppState.Appended.{store_append-Synced}
use ahp_inspector.Server.AppState.Calls.{
  create_app_state-Synced, take_checkpoint-Synced, report_skipped-Synced, handle-Synced, Call,
  read_start, read_progress, read_complete, chunk, reset, failed, tick, handle, run_from, run,
}
use ahp_inspector.Ui.Stream.Rows.{rows_after, rows_after_all, FitsAll}
use ahp_inspector.Pipeline.Sent.{
  IsTold, emit_watch_error-Told, on_oversized_bytes-Told, progress-Tells, Tells-send,
  run_flush-Told, store_append-Told,
}

report_skipped-Told :
    (skipped : List (ℕ × ℕ)) (s : AppState) → IsTold s → IsTold (report_skipped skipped s)
unfolding report_skipped
report_skipped-Told [] s t = t
report_skipped-Told ((dropped, terminator) ∷ skipped) s t =
    report_skipped-Told skipped (on_oversized_bytes dropped terminator s)
      (on_oversized_bytes-Told dropped terminator s t)

-- the rows are in step with the store, and told
abbrev Sound : AppState → Type 0
Sound s = IsSynced s × IsTold s

reset-Told :
    (size : ℕ) (reason : RotationReason) (s : AppState) → IsTold s → IsTold (on_reset size reason s)
unfolding on_reset emit_load_progress rows_after
reset-Told size reason s t =
    Tells-send _ s.rows (rotation size reason) (progress-Tells s.sent s.rows _ t) tt tt

module _ (rt : Runtime) where
  ingest_lines-Sound :
      (lines : List SplitLine) (s : AppState) → Sound s → Sound (ingest_lines rt lines s)
  unfolding ingest_lines ingest_line
  ingest_lines-Sound [] s h = h
  ingest_lines-Sound (line ∷ lines) s (h, t) =
      ingest_lines-Sound lines (ingest_line rt line s)
        (store_append-Synced rt s _ h, store_append-Told rt s _ h t)

  take_checkpoint-Told : (s : AppState) → IsTold s → IsTold (take_checkpoint rt s)
  unfolding take_checkpoint
  take_checkpoint-Told s t =
      let counted = record s { splitter = (checkpoint s.splitter).0 } in
      elim (Bool-cases (ltb 0 (checkpoint s.splitter).1)) [
        | inl some_bytes ↦
            rw some_bytes (on_oversized_bytes-Told (checkpoint s.splitter).1 0 counted t)
        | inr none_left ↦ rw none_left t
      ]

  on_pushed-Told : (o : Outcome) (s : AppState) → Sound s → IsTold (on_pushed rt o s)
  unfolding on_pushed
  on_pushed-Told overflow s h = emit_watch_error-Told _ s h.1
  on_pushed-Told (result r) s h =
      (ingest_lines-Sound r.lines (record s { byte_offset = s.byte_offset + r.leading_bytes }) h).1

  handle-Told : (call : Call) (s : AppState) → Sound s → IsTold (handle rt call s)
  unfolding handle on_initial_read_start on_initial_read_progress on_initial_read_complete on_chunk
      on_text finalize_valid_tail emit_load_progress on_error
  handle-Told (read_start total) s h = progress-Tells s.sent s.rows _ h.1
  handle-Told (read_progress bytes total) s h = progress-Tells s.sent s.rows _ h.1
  handle-Told (read_complete bytes total) s h =
      let taken = take_checkpoint rt (loaded bytes (some total) s) in
      let finalized = finalize_if (is_complete rt taken) taken.splitter in
      let ingested = ingest_lines rt finalized.1 (record taken { splitter = finalized.0 }) in
      progress-Tells ingested.sent ingested.rows _
        (ingest_lines-Sound finalized.1 (record taken { splitter = finalized.0 })
          (
            take_checkpoint-Synced rt (loaded bytes (some total) s) h.0,
            take_checkpoint-Told (loaded bytes (some total) s) h.1,
          )).1
  handle-Told (chunk bytes) s h =
      let decoded = rt.decode s.decoder bytes in
      let pushed = push_detailed s.splitter decoded.0 in
      let begun = record s { decoder = decoded.1; splitter = pushed.splitter } in
      on_pushed-Told pushed.outcome (report_skipped pushed.skipped begun) (
        report_skipped-Synced pushed.skipped begun h.0,
        report_skipped-Told pushed.skipped begun h.1,
      )
  handle-Told (reset size reason) s h = reset-Told size reason s h.1
  handle-Told (failed err fatal) s h = emit_watch_error-Told (watch_error_payload err fatal) s h.1
  handle-Told (tick now timeout) s h = run_flush-Told now timeout s h.1

  run_from-Told : (calls : List Call) (s : AppState) → Sound s → IsTold (run_from rt calls s)
  unfolding run_from
  run_from-Told [] s h = h.1
  run_from-Told (call ∷ calls) s h =
      run_from-Told calls (handle rt call s) (handle-Synced rt call s h.0, handle-Told call s h)

  -- Whatever calls reach an open log, the frames it has sent, taken in their order, make of no rows the
  -- rows that it holds; each fits the rows before it, and the rows are numbered from zero.
  pub run-Told : (calls : List Call) → IsTold (run rt calls)
  unfolding run create_app_state rows_after_all FitsAll
  run-Told calls =
      run_from-Told calls create_app_state
        (create_app_state-Synced, record { told = refl; fit = tt; numbered = tt })
