-- ===== src/Parser/Splitter/Chunks.antt =====
-- Where the chunks of a text are cut does not matter to a splitter that is reading.
use mathlib.Core.List.{append_assoc}
use ahp_inspector.Base.{
  ◌≤◌, Bool, true, false, List, [], ◌++◌, ◌≡◌, refl, sym, ap, ◌∙◌, arith, ltb, length,
  length-append, if◌then◌else◌,
}
use ahp_inspector.Parser.Splitter.{
  Units, SplitLine, LineSplitter, scan, Pushed, result, overflow, keep_tail, finish, push_detailed,
  max_buf_bytes, late_terminator, byte_order_mark, skip_terminator, skip_line,
}
use ahp_inspector.Parser.Splitter.Lines.{scan-append, scan-begun, scan-render, scan-Whole, render}

-- the state behind the byte order mark, with no line dropped and none emitted at the end of the file
abbrev pub reading : Bool → Units → LineSplitter
reading tolerant buf = record {
  buf = buf;
  bom_consumed = true;
  tolerant = tolerant;
  skipping = false;
  skip_bytes_accumulated = 0;
  skip_pending_cr = false;
  finalized_at_eof = false;
  finalized_pending_cr = false;
}

-- the lines that a call returns, none if it throws
abbrev pub lines_of : Pushed → List SplitLine
lines_of q = elim q.outcome [ result r ↦ r.lines | overflow ↦ [] ]

abbrev kept : Bool → List SplitLine × Units → Pushed
kept tolerant (lines, tail) = record {
  outcome = result (record { lines = lines; leading_bytes = 0 });
  splitter = reading tolerant tail;
  skipped = [];
}

choose : (b : Bool) (q r : Pushed) → b ≡ false → (if b then q else r) ≡ r
choose true q r e = absurd (ground (arith, e))
choose false q r e = refl

push_detailed-reading :
    (tolerant : Bool) (buf s : Units)
    → ltb max_buf_bytes (length (scan [] (buf ++ s)).1) ≡ false
    → push_detailed (reading tolerant buf) s ≡ kept tolerant (scan [] (buf ++ s))
unfolding push_detailed finish keep_tail late_terminator byte_order_mark skip_terminator skip_line
push_detailed-reading tolerant buf s short =
    choose (ltb max_buf_bytes (length (scan [] (buf ++ s)).1)) _ _ short

tail_length : (s : Units) → length (scan [] s).1 ≤ length s
tail_length s =
    omega (arith, ap length (scan-render [] s), length-append (render (scan [] s).0) (scan [] s).1)

-- Of a reading splitter, as long as the buffer and the texts together are not above the limit:
-- a call with two texts joined returns the lines that two calls with the one and the other return,
-- and leaves the same state.
pub push_detailed-append :
    (tolerant : Bool) (buf s t : Units)
    → length (buf ++ (s ++ t)) ≤ max_buf_bytes
    → (lines_of (push_detailed (reading tolerant buf) (s ++ t))
        ≡ lines_of (push_detailed (reading tolerant buf) s)
          ++ lines_of (push_detailed (push_detailed (reading tolerant buf) s).splitter t))
      × ((push_detailed (reading tolerant buf) (s ++ t)).splitter
          ≡ (push_detailed (push_detailed (reading tolerant buf) s).splitter t).splitter)
push_detailed-append tolerant buf s t fits =
    let whole = scan-Whole [] (buf ++ s) tt in
    let tail = (scan [] (buf ++ s)).1 in
    let split : scan [] (buf ++ (s ++ t))
        ≡ ((scan [] (buf ++ s)).0 ++ (scan [] (tail ++ t)).0, (scan [] (tail ++ t)).1) =
      ap (scan []) (sym (append_assoc buf s t))
      ∙ scan-append [] (buf ++ s) t
      ∙ ap (λ r. ((scan [] (buf ++ s)).0 ++ r.0, r.1)) (sym (scan-begun [] tail t whole.1)) in
    let joined =
      push_detailed-reading tolerant buf (s ++ t) (ground (arith, tail_length (buf ++ (s ++ t)))) in
    let first = push_detailed-reading tolerant buf s (
      ground (
        arith,
        tail_length (buf ++ s),
        length-append buf s,
        length-append buf (s ++ t),
        length-append s t,
      )) in
    let second = push_detailed-reading tolerant tail t (
      ground (
        arith,
        tail_length (tail ++ t),
        tail_length (buf ++ s),
        length-append tail t,
        length-append buf s,
        length-append buf (s ++ t),
        length-append s t,
      )) in
    rw joined (rw first (rw second (rw split (refl, refl))))

-- A call of a reading splitter loses no text: the lines that it returns, written with their
-- terminators, and the buffer that it leaves are the old buffer and the chunk, when these are
-- together not above the limit.
pub push_detailed-render :
    (tolerant : Bool) (buf s : Units)
    → length (buf ++ s) ≤ max_buf_bytes
    → render (lines_of (push_detailed (reading tolerant buf) s))
        ++ (push_detailed (reading tolerant buf) s).splitter.buf
      ≡ buf ++ s
push_detailed-render tolerant buf s fits =
    rw (push_detailed-reading tolerant buf s (ground (arith, tail_length (buf ++ s))))
      (scan-render [] (buf ++ s))
