-- ===== src/Server/AppState/Offset.antt =====
-- The operations that leave the splitter alone, and what they add to the byte offset.
use ahp_inspector.Base.{ℕ, ◌+◌, true, List, [], ◌∷◌, ◌≡◌, refl, ◌∙◌, arith}
use ahp_inspector.Base.Int.{ℤ}
use ahp_inspector.Core.Correlator.{flush}
use ahp_inspector.Parser.Splitter.Balance.{sum_skipped}
use ahp_inspector.Server.Frames.{PatchUpdate}
use ahp_inspector.Server.AppState.{AppState, emit_watch_error, on_oversized_bytes, report_skipped}
use ahp_inspector.Server.AppState.Rows.{run_flush, take_changes, send_patch}

-- the splitter and the byte offset of `t` are those of `s`, plus the bytes
abbrev pub Counts : AppState → AppState → ℕ → Type 0
Counts t s n = (t.splitter ≡ s.splitter) × (t.byte_offset ≡ s.byte_offset + n)

pub send_patch-Counts : (us : List PatchUpdate) (s : AppState) → Counts (send_patch us s) s 0
send_patch-Counts [] s = (refl, omega arith)
send_patch-Counts (u ∷ us) s = (refl, omega arith)

pub run_flush-Counts : (now timeout : ℤ) (s : AppState) → Counts (run_flush now timeout s) s 0
unfolding run_flush take_changes
run_flush-Counts now timeout s =
    let flushed = record s { correlator = flush s.store s.correlator now timeout } in
    let changes = take_changes (λ idx. true) flushed in send_patch-Counts changes.1 changes.0

pub on_oversized_bytes-Counts :
    (dropped terminator : ℕ) (s : AppState)
    → Counts (on_oversized_bytes dropped terminator s) s (dropped + terminator)
unfolding on_oversized_bytes emit_watch_error
on_oversized_bytes-Counts dropped terminator s = (ground arith, ground arith)

pub report_skipped-Counts :
    (skipped : List (ℕ × ℕ)) (s : AppState)
    → Counts (report_skipped skipped s) s (sum_skipped skipped)
unfolding report_skipped sum_skipped
report_skipped-Counts [] s = (refl, omega arith)
report_skipped-Counts ((d, t) ∷ skipped) s =
    let rest = report_skipped-Counts skipped (on_oversized_bytes d t s) in
    let first = on_oversized_bytes-Counts d t s in
    (rest.0 ∙ first.0, omega (arith, rest.1, first.1))
