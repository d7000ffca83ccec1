-- ===== src/Server/AppState/Calls.antt =====
-- packages/server/src/app-state.ts: the calls that reach an open log, by the host's reader and by the
-- timer, as one data type, and a run of them from the state as created.
use ahp_inspector.Base.{
  ℕ, Bool, List, [], ◌∷◌, ◌≡◌, refl, ltb, ◌+◌, inl, inr, Bool-cases, some, arith,
}
use ahp_inspector.Base.Int.{ℤ}
use ahp_inspector.Parser.Splitter.{
  SplitLine, Outcome, result, overflow, checkpoint, finalize_if, push_detailed,
}
use ahp_inspector.Core.Store
use ahp_inspector.Core.Store.{EventStore}
use ahp_inspector.Server.SearchIndex
use ahp_inspector.Server.SearchIndex.{new_search_index}
use ahp_inspector.Server.Frames.{RotationReason, HostError, WatchError, watch_error_payload}
use ahp_inspector.Server.AppState.{
  Runtime, AppState, create_app_state, emit_watch_error, on_oversized_bytes, report_skipped,
  emit_load_progress, on_initial_read_start, on_initial_read_progress, on_reset, on_error, loaded,
}
use ahp_inspector.Server.AppState.Rows.{run_flush}
use ahp_inspector.Server.AppState.Ingest.{
  is_complete, ingest_line, ingest_lines, finalize_valid_tail, take_checkpoint,
  on_initial_read_complete, on_pushed, on_text, on_chunk,
}
use ahp_inspector.Server.AppState.Synced.{IsSynced, run_flush-Synced}
use ahp_inspector.Server.AppState.Appended.{store_append-Synced}

pub data Call : Type 0 where
  read_start : ℕ → Call
  read_progress read_complete : ℕ → ℕ → Call
  chunk : List ℕ → Call
  reset : ℕ → RotationReason → Call
  failed : HostError → Bool → Call
  tick : ℤ → ℤ → Call

unfoldable pub handle : Runtime → Call → AppState → AppState
unfolding on_initial_read_start on_initial_read_progress on_initial_read_complete on_chunk on_reset
    on_error run_flush
handle rt (read_start total) s = on_initial_read_start total s
handle rt (read_progress bytes total) s = on_initial_read_progress bytes total s
handle rt (read_complete bytes total) s = on_initial_read_complete rt bytes total s
handle rt (chunk bytes) s = on_chunk rt bytes s
handle rt (reset size reason) s = on_reset size reason s
handle rt (failed err fatal) s = on_error err fatal s
handle rt (tick now timeout) s = run_flush now timeout s

-- the calls from the first on
unfoldable pub run_from : Runtime → List Call → AppState → AppState
unfolding handle
run_from rt [] s = s
run_from rt (call ∷ calls) s = run_from rt calls (handle rt call s)

unfoldable pub run : Runtime → List Call → AppState
unfolding run_from create_app_state
run rt calls = run_from rt calls create_app_state

-- what the invariant speaks of is left alone
abbrev Untouched : AppState → AppState → Type 0
Untouched t s =
    (t.store ≡ s.store)
    × (t.rows ≡ s.rows)
    × (t.correlator ≡ s.correlator)
    × (t.search_idx ≡ s.search_idx)

Untouched-Synced : (t s : AppState) → Untouched t s → IsSynced s → IsSynced t
Untouched-Synced t s u h = rw (u.0, u.1, u.2, u.3) h

emit_watch_error-Synced :
    (w : WatchError) (s : AppState) → IsSynced s → IsSynced (emit_watch_error w s)
unfolding emit_watch_error
emit_watch_error-Synced w s h = h

on_oversized_bytes-Untouched :
    (dropped terminator : ℕ) (s : AppState) → Untouched (on_oversized_bytes dropped terminator s) s
unfolding on_oversized_bytes emit_watch_error
on_oversized_bytes-Untouched dropped terminator s =
    (ground arith, ground arith, ground arith, ground arith)

on_oversized_bytes-Synced :
    (dropped terminator : ℕ) (s : AppState)
    → IsSynced s
    → IsSynced (on_oversized_bytes dropped terminator s)
on_oversized_bytes-Synced dropped terminator s =
    Untouched-Synced (on_oversized_bytes dropped terminator s) s
      (on_oversized_bytes-Untouched dropped terminator s)

pub report_skipped-Synced :
    (skipped : List (ℕ × ℕ)) (s : AppState) → IsSynced s → IsSynced (report_skipped skipped s)
unfolding report_skipped
report_skipped-Synced [] s h = h
report_skipped-Synced ((dropped, terminator) ∷ skipped) s h =
    report_skipped-Synced skipped (on_oversized_bytes dropped terminator s)
      (on_oversized_bytes-Synced dropped terminator s h)

pub create_app_state-Synced : IsSynced create_app_state
unfolding create_app_state Store.empty new_search_index
create_app_state-Synced = record {
  behind = record {
    band = λ i row e. absurd (ground (arith, e));
    waits = λ i row e. absurd (ground (arith, e));
  };
  counted = refl;
  indexed = refl;
}

module _ (rt : Runtime) where
  ingest_line-Synced :
      (line : SplitLine) (s : AppState) → IsSynced s → IsSynced (ingest_line rt line s)
  unfolding ingest_line
  ingest_line-Synced line s h = store_append-Synced rt s _ h

  ingest_lines-Synced :
      (lines : List SplitLine) (s : AppState) → IsSynced s → IsSynced (ingest_lines rt lines s)
  unfolding ingest_lines
  ingest_lines-Synced [] s h = h
  ingest_lines-Synced (line ∷ lines) s h =
      ingest_lines-Synced lines (ingest_line rt line s) (ingest_line-Synced line s h)

  pub take_checkpoint-Synced : (s : AppState) → IsSynced s → IsSynced (take_checkpoint rt s)
  unfolding take_checkpoint
  take_checkpoint-Synced s h =
      let counted = record s { splitter = (checkpoint s.splitter).0 } in
      elim (Bool-cases (ltb 0 (checkpoint s.splitter).1)) [
        | inl some_bytes ↦
            rw some_bytes (on_oversized_bytes-Synced (checkpoint s.splitter).1 0 counted h)
        | inr none_left ↦ rw none_left h
      ]

  on_pushed-Synced : (o : Outcome) (s : AppState) → IsSynced s → IsSynced (on_pushed rt o s)
  unfolding on_pushed
  on_pushed-Synced overflow s h = unfold emit_watch_error in h
  on_pushed-Synced (result r) s h =
      ingest_lines-Synced r.lines (record s { byte_offset = s.byte_offset + r.leading_bytes }) h

  pub handle-Synced : (call : Call) (s : AppState) → IsSynced s → IsSynced (handle rt call s)
  unfolding handle on_initial_read_start on_initial_read_progress on_initial_read_complete on_chunk
      on_text finalize_valid_tail emit_load_progress on_reset on_error Store.reset Store.empty
      SearchIndex.reset
  handle-Synced (read_start total) s h = h
  handle-Synced (read_progress bytes total) s h = h
  handle-Synced (read_complete bytes total) s h =
      let taken = take_checkpoint rt (loaded bytes (some total) s) in
      let finalized = finalize_if (is_complete rt taken) taken.splitter in
      ingest_lines-Synced finalized.1 (record taken { splitter = finalized.0 })
        (take_checkpoint-Synced (loaded bytes (some total) s) h)
  handle-Synced (chunk bytes) s h =
      let decoded = rt.decode s.decoder bytes in
      let pushed = push_detailed s.splitter decoded.0 in
      let begun = record s { decoder = decoded.1; splitter = pushed.splitter } in
      on_pushed-Synced pushed.outcome (report_skipped pushed.skipped begun)
        (report_skipped-Synced pushed.skipped begun h)
  handle-Synced (reset size reason) s h = record {
    behind = record {
      band = λ i row e. absurd (ground (arith, e));
      waits = λ i row e. absurd (ground (arith, e));
    };
    counted = refl;
    indexed = refl;
  }
  handle-Synced (failed err fatal) s h = emit_watch_error-Synced (watch_error_payload err fatal) s h
  handle-Synced (tick now timeout) s h = run_flush-Synced now timeout s h

  run_from-Synced : (calls : List Call) (s : AppState) → IsSynced s → IsSynced (run_from rt calls s)
  unfolding run_from
  run_from-Synced [] s h = h
  run_from-Synced (call ∷ calls) s h =
      run_from-Synced calls (handle rt call s) (handle-Synced call s h)

  -- Whatever calls reach an open log, afterwards there is a row for each event of the store, the row
  -- says of its status, its latency and its partner what the correlator says, with the band of that
  -- latency, and the search index holds the events of the store in their order.
  pub run-Synced : (calls : List Call) → IsSynced (run rt calls)
  unfolding run
  run-Synced calls = run_from-Synced calls create_app_state create_app_state-Synced
