-- ===== src/Tests/Splitter.antt =====
-- The line splitter at concrete chunks: a line, a line cut by a chunk, a carriage return at a cut.
use ahp_inspector.Base.{ℕ, ◌+◌, true, false, [], ◌∷◌, ◌++◌, ◌≡◌, refl, arith, length}
use ahp_inspector.Parser.Splitter.Tolerant.{Returned, push_detailed-Returned}
use ahp_inspector.Parser.Splitter.{
  Units, LineSplitter, new_splitter, push_detailed, checkpoint, end_of_input, finalize_if, is_high,
  utf8_byte_length, late_terminator, byte_order_mark, skip_terminator, skip_line, finish, keep_tail,
  scan, line_of, strip_cr,
}
use ahp_inspector.Parser.Splitter.Bytes.{well_formed, encode, utf8_byte_length-encode}
use ahp_inspector.Parser.Splitter.Lines.{render}
use ahp_inspector.Parser.Splitter.Balance.{IsValid, pending, sum_skipped}
use ahp_inspector.Parser.Splitter.Chunks.{
  reading, lines_of, push_detailed-append, push_detailed-render,
}
use ahp_inspector.Parser.Splitter.Accounting.{
  Accounts, sum_lines, push_detailed-Accounts, closing-Accounts,
}

-- "ab\r\nc", and "\ud83d\ude00\n" (one code point beyond U+FFFF)
abbrev first_chunk : Units
first_chunk = 97 ∷ 98 ∷ 13 ∷ 10 ∷ 99 ∷ []

abbrev second_chunk : Units
second_chunk = 0xd83d ∷ 0xde00 ∷ 10 ∷ []

new-IsValid : IsValid (new_splitter true)
unfolding new_splitter well_formed
new-IsValid = record {
  buf_ok = refl;
  skips = λ _. (refl, refl);
  one = λ _. refl;
  final = λ h. absurd (ground (arith, h));
}

push_detailed-Accounts_example :
    Accounts
      (pending (new_splitter true) + utf8_byte_length first_chunk)
      (push_detailed (new_splitter true) first_chunk)
unfolding well_formed
push_detailed-Accounts_example =
    push_detailed-Accounts (new_splitter true) first_chunk new-IsValid refl

-- a splitter in the middle of a line that it drops
abbrev dropping : LineSplitter
dropping = record {
  buf = [];
  bom_consumed = true;
  tolerant = true;
  skipping = true;
  skip_bytes_accumulated = 7;
  skip_pending_cr = true;
  finalized_at_eof = false;
  finalized_pending_cr = false;
}

dropping-IsValid : IsValid dropping
unfolding well_formed
dropping-IsValid = record {
  buf_ok = refl;
  skips = λ h. absurd (ground (arith, h));
  one = λ _. refl;
  final = λ h. absurd (ground (arith, h));
}

closing-Accounts_example :
    ((pending dropping ≡ (checkpoint dropping).1 + pending (checkpoint dropping).0)
      × IsValid (checkpoint dropping).0)
    × ((pending dropping
          ≡ sum_skipped (end_of_input dropping).1 + pending (end_of_input dropping).0)
        × IsValid (end_of_input dropping).0)
    × ((pending dropping
          ≡ sum_lines (finalize_if (λ _. true) dropping).1
            + pending (finalize_if (λ _. true) dropping).0)
        × IsValid (finalize_if (λ _. true) dropping).0)
closing-Accounts_example = closing-Accounts (λ _. true) dropping dropping-IsValid refl

push_detailed-append_example :
    (lines_of (push_detailed (reading false (120 ∷ [])) (first_chunk ++ second_chunk))
      ≡ lines_of (push_detailed (reading false (120 ∷ [])) first_chunk)
        ++ lines_of (
            push_detailed
              (push_detailed (reading false (120 ∷ [])) first_chunk).splitter
              second_chunk))
    × ((push_detailed (reading false (120 ∷ [])) (first_chunk ++ second_chunk)).splitter
        ≡ (push_detailed
            (push_detailed (reading false (120 ∷ [])) first_chunk).splitter
            second_chunk).splitter)
push_detailed-append_example =
    push_detailed-append false (120 ∷ []) first_chunk second_chunk (omega arith)

push_detailed-render_example :
    render (lines_of (push_detailed (reading true (120 ∷ [])) first_chunk))
      ++ (push_detailed (reading true (120 ∷ [])) first_chunk).splitter.buf
    ≡ (120 ∷ []) ++ first_chunk
push_detailed-render_example = push_detailed-render true (120 ∷ []) first_chunk (omega arith)

utf8_byte_length-encode_example :
    (utf8_byte_length second_chunk ≡ length (encode second_chunk))
    × ((c : ℕ)
        → is_high c ≡ true
        → utf8_byte_length (second_chunk ++ c ∷ []) ≡ length (encode (second_chunk ++ c ∷ [])) + 1)
unfolding well_formed
utf8_byte_length-encode_example = utf8_byte_length-encode second_chunk refl

-- one line of two units and two bytes, and the begun one is kept
split_test :
    lines_of (push_detailed (new_splitter true) first_chunk)
    ≡ record { text = 97 ∷ 98 ∷ []; byte_length = 2; terminator_bytes = 2 } ∷ []
unfolding new_splitter push_detailed late_terminator byte_order_mark skip_terminator skip_line
    finish keep_tail scan line_of strip_cr utf8_byte_length
split_test = refl

push_detailed-Returned_example : Returned (push_detailed (new_splitter true) first_chunk)
push_detailed-Returned_example =
    push_detailed-Returned (new_splitter true) first_chunk (unfold new_splitter in refl)
