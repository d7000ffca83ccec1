-- ===== src/Server/AppState/Account.antt =====
-- The byte offset of the server: with what the splitter holds back it is the number of bytes read since
-- the last reset.
use ahp_inspector.Base.{
  ℕ, ◌+◌, true, List, [], ◌∷◌, ◌≡◌, refl, sym, ap, subst, ◌∙◌, arith, ltb, Bool-cases, inl, inr,
  some,
}
use ahp_inspector.Core.Store
use ahp_inspector.Core.Store.{size, range_of}
use ahp_inspector.Core.Correlator.{on_append}
use ahp_inspector.Shared.Event.{AhpEvent}
use ahp_inspector.Parser.Splitter
use ahp_inspector.Parser.Splitter.{
  Units, SplitLine, LineSplitter, Outcome, result, overflow, LineSplitResult, new_splitter,
  push_detailed, checkpoint, finalize_if, utf8_byte_length,
}
use ahp_inspector.Parser.Splitter.Bytes.{well_formed}
use ahp_inspector.Parser.Splitter.Balance.{IsValid, pending}
use ahp_inspector.Parser.Splitter.Accounting.{
  sum_lines, Accounted, push_detailed-Accounts, closing-Accounts,
}
use ahp_inspector.Parser.Splitter.Tolerant.{push_detailed-Returned, closing-tolerant}
use ahp_inspector.Server.Frames.{append_rows}
use ahp_inspector.Server.AppState.{
  Runtime, AppState, send, create_app_state, emit_watch_error, on_oversized_bytes, report_skipped,
  emit_load_progress, on_initial_read_start, on_initial_read_progress, on_reset, on_error, loaded,
}
use ahp_inspector.Server.AppState.Rows.{
  build_row, run_flush, store_append, on_store_append, add_row, take_changes,
}
use ahp_inspector.Server.AppState.Ingest.{
  is_complete, event_of_line, ingest_line, ingest_lines, finalize_valid_tail, take_checkpoint,
  on_initial_read_complete, on_pushed, on_text, on_chunk,
}
use ahp_inspector.Server.AppState.Calls.{
  Call, read_start, read_progress, read_complete, chunk, reset, failed, tick, handle, run_from, run,
}
use ahp_inspector.Server.AppState.Offset.{
  Counts, send_patch-Counts, run_flush-Counts, on_oversized_bytes-Counts, report_skipped-Counts,
}

-- the offset and what the splitter holds back are `n` bytes together
pub record Account (n : ℕ) (s : AppState) : Type 0 where
  pub total : s.byte_offset + pending s.splitter ≡ n
  pub valid : IsValid s.splitter
  pub tolerant : s.splitter.tolerant ≡ true

Account-Counts : (n : ℕ) (t s : AppState) → Counts t s 0 → Account n s → Account n t
Account-Counts n t s c h = record {
  total = omega (arith, c.1, ap pending c.0, h.total);
  valid = subst IsValid (sym c.0) h.valid;
  tolerant = ap (λ (p : LineSplitter). p.tolerant) c.0 ∙ h.tolerant;
}

-- the bytes of a text that was decoded and given to the splitter, in the state `s`
Account-lines :
    (n bytes : ℕ) (t s : AppState) (splitter : LineSplitter)
    → Account n s
    → t.splitter ≡ splitter
    → t.byte_offset ≡ s.byte_offset + bytes
    → bytes + pending splitter ≡ pending s.splitter
    → IsValid splitter
    → splitter.tolerant ≡ true
    → Account n t
Account-lines n bytes t s splitter h same moved held valid tolerant = record {
  total = omega (arith, h.total, moved, held, ap pending same);
  valid = subst IsValid (sym same) valid;
  tolerant = ap (λ (p : LineSplitter). p.tolerant) same ∙ tolerant;
}

-- a splitter as constructed holds nothing back
new_splitter-IsValid : (IsValid (new_splitter true)) × (pending (new_splitter true) ≡ 0)
unfolding new_splitter well_formed
new_splitter-IsValid = (
  record {
    buf_ok = refl;
    skips = λ off. (refl, refl);
    one = λ on. refl;
    final = λ h. absurd (ground (arith, h));
  },
  unfold utf8_byte_length in refl,
)

-- the bytes read since the last reset, after one more call
unfoldable pub count_call : Runtime → Call → AppState → ℕ → ℕ
unfolding utf8_byte_length
count_call rt (chunk bytes) s n = n + utf8_byte_length (rt.decode s.decoder bytes).0
count_call rt (reset size reason) s n = 0
count_call rt _ s n = n

-- the same after all of them
unfoldable pub bytes_read : Runtime → List Call → AppState → ℕ → ℕ
unfolding count_call handle
bytes_read rt [] s n = n
bytes_read rt (call ∷ calls) s n = bytes_read rt calls (handle rt call s) (count_call rt call s n)

module _ (rt : Runtime) where
  store_append-Counts : (ev : AhpEvent) (s : AppState) → Counts (store_append rt ev s) s 0
  unfolding store_append on_store_append take_changes add_row
  store_append-Counts ev s =
      let i = size s.store in
      let store = Store.append s.store ev in
      let told = record s {
        store = store;
        correlator = on_append store s.correlator (range_of s.store);
      } in
      let changes = take_changes (λ idx. ltb idx i) (add_row rt i ev told) in
      let shown = send (append_rows (build_row rt told i ev ∷ []) i) changes.0 in
      send_patch-Counts changes.1 shown

  ingest_line-Counts :
      (line : SplitLine) (s : AppState)
      → Counts (ingest_line rt line s) s (line.byte_length + line.terminator_bytes)
  unfolding ingest_line
  ingest_line-Counts line s =
      let stored = store_append-Counts (event_of_line rt s line) s in
      (stored.0, omega (arith, stored.1))

  ingest_lines-Counts :
      (lines : List SplitLine) (s : AppState) → Counts (ingest_lines rt lines s) s (sum_lines lines)
  unfolding ingest_lines sum_lines
  ingest_lines-Counts [] s = (refl, omega arith)
  ingest_lines-Counts (line ∷ lines) s =
      let rest = ingest_lines-Counts lines (ingest_line rt line s) in
      let first = ingest_line-Counts line s in (rest.0 ∙ first.0, omega (arith, rest.1, first.1))

  take_checkpoint-Account : (n : ℕ) (s : AppState) → Account n s → Account n (take_checkpoint rt s)
  unfolding take_checkpoint
  take_checkpoint-Account n s h =
      let taken = checkpoint s.splitter in
      let counted = record s { splitter = taken.0 } in
      let closing = closing-Accounts (λ u. true) s.splitter h.valid h.tolerant in
      let mode = (closing-tolerant (λ u. true) s.splitter).0 ∙ h.tolerant in
      elim (Bool-cases (ltb 0 taken.1)) [
        | inl some_bytes ↦
            let told = on_oversized_bytes-Counts taken.1 0 counted in
            rw some_bytes (
              Account-lines n taken.1 (on_oversized_bytes taken.1 0 counted) s taken.0 h told.0
                (omega (arith, told.1)) (omega (arith, closing.0.0)) closing.0.1 mode)
        | inr none_left ↦ rw none_left (
            Account-lines n taken.1 counted s taken.0 h refl (ground (arith, none_left))
              (omega (arith, closing.0.0)) closing.0.1 mode)
      ]

  finalize_valid_tail-Account :
      (n : ℕ) (s : AppState) → Account n s → Account n (finalize_valid_tail rt s)
  unfolding finalize_valid_tail
  finalize_valid_tail-Account n s h =
      let finalized = finalize_if (is_complete rt s) s.splitter in
      let begun = record s { splitter = finalized.0 } in
      let told = ingest_lines-Counts finalized.1 begun in
      let closing = (closing-Accounts (is_complete rt s) s.splitter h.valid h.tolerant).2 in
      Account-lines n (sum_lines finalized.1) (ingest_lines rt finalized.1 begun) s finalized.0 h
        told.0 told.1 (omega (arith, closing.0)) closing.1
        ((closing-tolerant (is_complete rt s) s.splitter).1 ∙ h.tolerant)

  on_text-Account :
      (n : ℕ) (text : Units) (s : AppState)
      → well_formed text ≡ true
      → Account n s
      → Account (n + utf8_byte_length text) (on_text rt text s)
  unfolding on_text
  on_text-Account n text s ok h =
      let pushed = push_detailed s.splitter text in
      let begun = record s { splitter = pushed.splitter } in
      let returned = push_detailed-Returned s.splitter text h.tolerant in
      let lines = returned.returned.0 in
      let told = report_skipped-Counts pushed.skipped begun in
      let counted = report_skipped pushed.skipped begun in
      let led = record counted { byte_offset = counted.byte_offset + lines.leading_bytes } in
      let read = ingest_lines-Counts lines.lines led in
      let account =
        subst
          (λ o.
            Accounted (pending s.splitter + utf8_byte_length text) o pushed.splitter pushed.skipped)
          returned.returned.1 (push_detailed-Accounts s.splitter text h.valid ok) in
      rw returned.returned.1 (
        unfold on_pushed Accounted in
        record {
          total =
              omega
                (arith, h.total, read.1, told.1, account.0, ap pending read.0, ap pending told.0);
          valid = subst IsValid (sym (read.0 ∙ told.0)) account.1;
          tolerant = ap (λ (p : LineSplitter). p.tolerant) (read.0 ∙ told.0) ∙ returned.tolerant;
        })

  module _ (paired : (held bytes : List ℕ) → well_formed (rt.decode held bytes).0 ≡ true) where
    handle-Account :
        (call : Call) (n : ℕ) (s : AppState)
        → Account n s
        → Account (count_call rt call s n) (handle rt call s)
    unfolding handle count_call on_initial_read_start on_initial_read_progress
        on_initial_read_complete on_chunk emit_load_progress on_reset on_error emit_watch_error
        Splitter.reset
    handle-Account (read_start total) n s h = record {
      total = h.total;
      valid = h.valid;
      tolerant = h.tolerant;
    }
    handle-Account (read_progress bytes total) n s h = record {
      total = h.total;
      valid = h.valid;
      tolerant = h.tolerant;
    }
    handle-Account (read_complete bytes total) n s h =
        let begun = loaded bytes (some total) s in
        let done = finalize_valid_tail-Account n (take_checkpoint rt begun) (
          take_checkpoint-Account n begun
            (record { total = h.total; valid = h.valid; tolerant = h.tolerant })) in
        record { total = done.total; valid = done.valid; tolerant = done.tolerant }
    handle-Account (chunk bytes) n s h =
        let decoded = rt.decode s.decoder bytes in
        on_text-Account n decoded.0 (record s { decoder = decoded.1 }) (paired s.decoder bytes)
          (record { total = h.total; valid = h.valid; tolerant = h.tolerant })
    handle-Account (reset size reason) n s h = rw h.tolerant (record {
      total = new_splitter-IsValid.1;
      valid = new_splitter-IsValid.0;
      tolerant = unfold new_splitter in refl;
    })
    handle-Account (failed err fatal) n s h = record {
      total = h.total;
      valid = h.valid;
      tolerant = h.tolerant;
    }
    handle-Account (tick now timeout) n s h =
        Account-Counts n (run_flush now timeout s) s (run_flush-Counts now timeout s) h

    run_from-Account :
        (calls : List Call) (n : ℕ) (s : AppState)
        → Account n s
        → Account (bytes_read rt calls s n) (run_from rt calls s)
    unfolding run_from bytes_read
    run_from-Account [] n s h = h
    run_from-Account (call ∷ calls) n s h =
        run_from-Account calls (count_call rt call s n) (handle rt call s)
          (handle-Account call n s h)

    -- If the decoder yields texts whose surrogates are paired, then after any calls the byte offset of
    -- the server and the bytes that the splitter holds back are together the bytes of the texts decoded
    -- since the last reset, whatever lines were dropped, ended late or begun on the way; and the
    -- splitter is valid and tolerant.
    pub run-Account :
        (calls : List Call) → Account (bytes_read rt calls create_app_state 0) (run rt calls)
    unfolding run
    run-Account calls = run_from-Account calls 0 create_app_state (
        unfold create_app_state in
        record {
          total = new_splitter-IsValid.1;
          valid = new_splitter-IsValid.0;
          tolerant = unfold new_splitter in refl;
        })
