-- ===== src/Parser/Splitter/Tolerant.antt =====
-- The tolerant mode stays on, and in it no call throws.
use ahp_inspector.Base.{
  Bool, true, false, Option, none, some, List, [], ◌∷◌, ◌++◌, ◌≡◌, refl, arith, if◌then◌else◌,
  length, ltb, ◌==◌, if-cases,
}
use ahp_inspector.Parser.Splitter.{
  Units, SplitLine, LineSplitter, Progress, Stage, stop, go, ◌>>=◌, begin, late_terminator,
  after_final, after_final_cr, byte_order_mark, strip_bom, skip_terminator, pending_cr,
  stop_if_empty, skip_line, skip_to_newline, drop_all, resume, strip_cr, until_newline, Pushed,
  result, keep_tail, finish, scan, push_detailed, checkpoint, finalize_if, finalize, report,
  LineSplitResult, newline, max_buf_bytes, set_pending_cr, add_skipped,
}

-- the mode of a stage
abbrev mode : Stage → Bool
mode (stop p) = p.splitter.tolerant
mode (go p) = p.splitter.tolerant

mode-if :
    (t : Bool) (b : Bool) (m k : Stage) → mode m ≡ t → mode k ≡ t → mode (if b then m else k) ≡ t
mode-if t true m k h l = h
mode-if t false m k h l = l

mode-bind :
    (t : Bool) (m : Stage) (f : Progress → Stage)
    → mode m ≡ t
    → ((p : Progress) → p.splitter.tolerant ≡ t → mode (f p) ≡ t)
    → mode (m >>= f) ≡ t
mode-bind t (stop p) f h k = h
mode-bind t (go p) f h k = k p h

module _ (t : Bool) (p : Progress) (h : p.splitter.tolerant ≡ t) where
  mode-after_final : (u : Units) → mode (after_final p u) ≡ t
  unfolding after_final
  mode-after_final [] = h
  mode-after_final (c ∷ []) = ground arith
  mode-after_final (c ∷ d ∷ u) = ground arith

  mode-after_final_cr : (u : Units) → mode (after_final_cr p u) ≡ t
  unfolding after_final_cr
  mode-after_final_cr [] = h
  mode-after_final_cr (c ∷ u) = ground arith

  mode-late_terminator : mode (late_terminator p) ≡ t
  unfolding late_terminator
  mode-late_terminator =
      mode-if t p.splitter.finalized_at_eof _ _
        (mode-if t p.splitter.finalized_pending_cr _ _ (mode-after_final_cr p.rest)
          (mode-after_final p.rest))
        h

  mode-strip_bom : (u : Units) → (strip_bom p u).splitter.tolerant ≡ t
  unfolding strip_bom
  mode-strip_bom [] = h
  mode-strip_bom (c ∷ u) = ground arith

  mode-byte_order_mark : mode (byte_order_mark p) ≡ t
  unfolding byte_order_mark
  mode-byte_order_mark = ground (arith, mode-strip_bom p.rest)

  mode-stop_if_empty : (u : Units) → mode (stop_if_empty p u) ≡ t
  mode-stop_if_empty [] = h
  mode-stop_if_empty (c ∷ u) = h

module _ (t : Bool) (p : Progress) (h : p.splitter.tolerant ≡ t) where
  mode-pending_cr : (u : Units) → mode (pending_cr p u) ≡ t
  unfolding pending_cr
  mode-pending_cr [] = h
  mode-pending_cr (c ∷ u) =
      mode-if t p.splitter.skip_pending_cr _ _
        (mode-if t (c == newline)
          (stop_if_empty (record (report (set_pending_cr p false) 2) { rest = u }) u)
          (go (add_skipped (set_pending_cr p false) 1))
          (mode-stop_if_empty t (record (report (set_pending_cr p false) 2) { rest = u }) h u) h)
        h

  mode-skip_terminator : mode (skip_terminator p) ≡ t
  unfolding skip_terminator
  mode-skip_terminator = mode-if t p.splitter.skipping _ _ (mode-pending_cr p.rest) h

  mode-skip_to_newline : (r : Units × Option Units) → mode (skip_to_newline p r) ≡ t
  unfolding skip_to_newline
  mode-skip_to_newline (before, none) = dropped (strip_cr before)
    where
      dropped : (s : Units × Bool) → (drop_all p s).splitter.tolerant ≡ t
      dropped (text, true) = unfold drop_all in h
      dropped (text, false) = unfold drop_all in h
  mode-skip_to_newline (before, some after) = resumed (strip_cr before)
    where
      resumed : (s : Units × Bool) → mode (resume p s after) ≡ t
      resumed (text, cr) = unfold resume in mode-stop_if_empty t _ h after

  mode-skip_line : mode (skip_line p) ≡ t
  unfolding skip_line
  mode-skip_line = mode-if t p.splitter.skipping _ _ (mode-skip_to_newline (until_newline p.rest)) h

-- the mode is on, and the call returned
pub record Returned (r : Pushed) : Type 0 where
  pub tolerant : r.splitter.tolerant ≡ true
  pub returned : (lines : LineSplitResult) × (r.outcome ≡ result lines)

keep_tail-Returned :
    (p : Progress) (r : List SplitLine × Units)
    → p.splitter.tolerant ≡ true
    → Returned (keep_tail p r)
unfolding keep_tail
keep_tail-Returned p (lines, tail) h =
    if-cases Returned (ltb max_buf_bytes (length tail)) _ _
      (λ long. rw h (record { tolerant = refl; returned = (_, refl) }))
      (λ short. record { tolerant = h; returned = (_, refl) })

finish-Returned : (m : Stage) → mode m ≡ true → Returned (finish m)
unfolding finish
finish-Returned (stop p) h = record { tolerant = h; returned = (_, refl) }
finish-Returned (go p) h = keep_tail-Returned p (scan [] (p.splitter.buf ++ p.rest)) h

-- In the tolerant mode a call on a chunk returns its lines, and leaves the mode on.
pub push_detailed-Returned :
    (s : LineSplitter) (chunk : Units) → s.tolerant ≡ true → Returned (push_detailed s chunk)
unfolding push_detailed
push_detailed-Returned s chunk h =
    let last = λ (r : Progress). skip_line r in
    let third = λ (q : Progress). skip_terminator q >>= last in
    let second = λ (p : Progress). byte_order_mark p >>= third in
    let first = late_terminator (begin s chunk) in
    finish-Returned (first >>= second) (
      mode-bind true first second (mode-late_terminator true (begin s chunk) h) (λ p hp.
        mode-bind true (byte_order_mark p) third (mode-byte_order_mark true p hp) (λ q hq.
          mode-bind true (skip_terminator q) last (mode-skip_terminator true q hq)
            (λ r hr. mode-skip_line true r hr))))

finalize-tolerant :
    (predicate : Units → Bool) (s : LineSplitter) (u : Units)
    → (finalize predicate s u).0.tolerant ≡ s.tolerant
unfolding finalize
finalize-tolerant predicate s [] = refl
finalize-tolerant predicate s (c ∷ u) = ground arith

-- The calls between chunks leave the mode as it is.
pub closing-tolerant :
    (predicate : Units → Bool) (s : LineSplitter)
    → ((checkpoint s).0.tolerant ≡ s.tolerant) × ((finalize_if predicate s).0.tolerant ≡ s.tolerant)
unfolding checkpoint finalize_if
closing-tolerant predicate s = (ground arith, finalize-tolerant predicate s s.buf)
