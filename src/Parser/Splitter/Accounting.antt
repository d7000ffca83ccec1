-- ===== src/Parser/Splitter/Accounting.antt =====
-- Byte accounting of a whole call of `pushDetailed`.
use mathlib.Core.List.{append-nil, append_assoc}
use ahp_inspector.Base.{
  ℕ, ◌+◌, Bool, true, false, List, [], ◌∷◌, ◌++◌, ◌≡◌, refl, sym, ap, subst, ◌∙◌, arith, ltb, ◌==◌,
  ==_iff, if◌then◌else◌, ◌&&◌, if-cases, Bool-cases, inl, inr, length,
}
use ahp_inspector.Parser.Splitter.Bytes.{
  well_formed, well_formed-append, bytes-append, well_formed-split,
}
use ahp_inspector.Parser.Splitter.{
  Units, newline, utf8_byte_length, SplitLine, LineSplitter, unit_bytes, strip_cr, line_of, scan,
  Progress, Stage, stop, go, ◌>>=◌, late_terminator, byte_order_mark, skip_terminator, cr_bytes,
  Pushed, Outcome, result, overflow, keep_tail, finish, start_skipping, push_detailed, begin,
  checkpoint, end_of_input, finalize_if, finalize, max_buf_bytes,
}
use ahp_inspector.Parser.Splitter.Balance.{
  IsValid, Balanced, Holds, sum_skipped, sum_skipped-nil, pending, bytes-cons, well_formed-cons,
  bytes-nil,
}
use ahp_inspector.Parser.Splitter.Leading.{late_terminator-Holds, byte_order_mark-Holds}
use ahp_inspector.Parser.Splitter.Skipping.{
  Gives, NoCr, NotSkipping, skip_terminator-Gives, skip_line-Gives, strip_cr-bytes,
}

-- the bytes of the lines, terminators included
unfoldable pub sum_lines : List SplitLine → ℕ
sum_lines [] = 0
sum_lines (l ∷ ls) = l.byte_length + l.terminator_bytes + sum_lines ls

line_of-bytes :
    (s : Units)
    → well_formed s ≡ true
    → (line_of s).byte_length + (line_of s).terminator_bytes ≡ utf8_byte_length s + 1
unfolding line_of
line_of-bytes s h = widths _ _ (strip_cr s).1 (strip_cr-bytes s h).1
  where
    widths : (a b : ℕ) (cr : Bool) → a + cr_bytes cr ≡ b → a + (if cr then 2 else 1) ≡ b + 1
    widths a b true e = omega (arith, e)
    widths a b false e = omega (arith, e)

Scanned : ℕ → List SplitLine × Units → Type 0
Scanned n (lines, tail) = (sum_lines lines + utf8_byte_length tail ≡ n) × (well_formed tail ≡ true)

scan-Scanned :
    (line s : Units)
    → well_formed (line ++ s) ≡ true
    → Scanned (utf8_byte_length (line ++ s)) (scan line s)
unfolding scan Scanned sum_lines
scan-Scanned line [] h = (
  omega (arith, ap utf8_byte_length (append-nil line)),
  sym (ap well_formed (append-nil line)) ∙ h,
)
scan-Scanned line (c ∷ s) h = elim (Bool-cases (c == newline)) [
  | inl ends ↦
      let nl = (==_iff c newline).0 ends in
      let (ok, rest) = well_formed-split line c s (ground (arith, nl)) h in
      let one : unit_bytes c ≡ 1 = ground (arith, nl) in
      let (total, tail) =
        scan-Scanned [] s (sym (well_formed-cons c s (ground (arith, nl))) ∙ rest) in
      rw ends (
        omega (
          arith,
          total,
          line_of-bytes line ok,
          bytes-append line (c ∷ s) ok,
          bytes-cons c s (ground (arith, nl)),
          one,
        ),
        tail,
      )
  | inr goes_on ↦ rw goes_on (
      subst (λ u. Scanned (utf8_byte_length u) (scan (line ++ c ∷ []) s))
        (append_assoc line (c ∷ []) s)
        (scan-Scanned (line ++ c ∷ []) s (ap well_formed (append_assoc line (c ∷ []) s) ∙ h)))
]

-- what a call accounts for, when it returns
unfoldable pub Accounted : ℕ → Outcome → LineSplitter → List (ℕ × ℕ) → Type 0
Accounted n (result r) s skipped =
    (sum_lines r.lines + r.leading_bytes + sum_skipped skipped + pending s ≡ n) × IsValid s
Accounted n overflow s skipped = s.buf ≡ []

-- the same of a call's record
abbrev pub Accounts : ℕ → Pushed → Type 0
Accounts n q = Accounted n q.outcome q.splitter q.skipped

Accounts-if :
    (n : ℕ) (b : Bool) (q r : Pushed)
    → (b ≡ true → Accounts n q)
    → (b ≡ false → Accounts n r)
    → Accounts n (if b then q else r)
Accounts-if n true q r h k = h refl
Accounts-if n false q r h k = k refl

empty_ok : well_formed [] ≡ true
unfolding well_formed
empty_ok = refl

module _ (n : ℕ) (p : Progress) (lines : List SplitLine) (tail : Units)
    (sc : Scanned (utf8_byte_length (p.splitter.buf ++ p.rest)) (lines, tail)) (b : Balanced n p)
    (quiet : NotSkipping p) where
  joined :
      sum_lines lines
        + utf8_byte_length tail
        + p.splitter.skip_bytes_accumulated
        + cr_bytes p.splitter.skip_pending_cr
        + cr_bytes p.splitter.finalized_pending_cr
        + p.leading_bytes
        + sum_skipped p.skipped
      ≡ n
  unfolding Scanned
  joined = omega (arith, b.total, sc.0, bytes-append p.splitter.buf p.rest b.valid.buf_ok)

  start_skipping-Accounted :
      (t : Units) (cr : Bool)
      → utf8_byte_length t + cr_bytes cr ≡ utf8_byte_length tail
      → Accounted n
          (result (record { lines = lines; leading_bytes = p.leading_bytes }))
          (start_skipping (record p.splitter { buf = [] }) (t, cr))
          p.skipped
  unfolding start_skipping Accounted
  start_skipping-Accounted t true e = (
    ground (arith, joined, e, bytes-nil, b.valid.skips quiet),
    record {
      buf_ok = empty_ok;
      skips = λ off. absurd (ground (arith, off));
      one = λ on. refl;
      final = b.valid.final;
    },
  )
  start_skipping-Accounted t false e = (
    ground (arith, joined, e, bytes-nil, b.valid.skips quiet),
    record {
      buf_ok = empty_ok;
      skips = λ off. absurd (ground (arith, off));
      one = λ on. refl;
      final = b.valid.final;
    },
  )

  keep_tail-Accounts : Accounts n (keep_tail p (lines, tail))
  unfolding keep_tail Accounted Scanned
  keep_tail-Accounts =
      Accounts-if n (ltb max_buf_bytes (length tail)) _ _
        (λ long.
          Accounts-if n p.splitter.tolerant _ _
            (λ drops.
              start_skipping-Accounted (strip_cr tail).0 (strip_cr tail).1
                (strip_cr-bytes tail sc.1).1)
            (λ throws. refl))
        (λ short. (
          omega (arith, joined),
          record {
            buf_ok = sc.1;
            skips = b.valid.skips;
            one = λ on. absurd (ground (arith, on, quiet));
            final = b.valid.final;
          },
        ))

after :
    (R : Progress → Type 0) (n : ℕ) (m : Stage) (f : Progress → Stage)
    → Holds n m
    → ((p : Progress) → Balanced n p → Gives R n (f p))
    → Gives R n (m >>= f)
after R n (stop p) f h k = h
after R n (go p) f h k = k p h

Gives-bind :
    (Q R : Progress → Type 0) (n : ℕ) (m : Stage) (f : Progress → Stage)
    → Gives Q n m
    → ((p : Progress) → Balanced n p → Q p → Gives R n (f p))
    → Gives R n (m >>= f)
Gives-bind Q R n (stop p) f h k = h
Gives-bind Q R n (go p) f (b, q) k = k p b q

finish-Accounts : (n : ℕ) (m : Stage) → Gives NotSkipping n m → Accounts n (finish m)
unfolding finish Accounted sum_lines
finish-Accounts n (stop p) h = (omega (arith, h.0), h.1)
finish-Accounts n (go p) (b, quiet) =
    keep_tail-Accounts n p _ _
      (scan-Scanned [] (p.splitter.buf ++ p.rest)
        (well_formed-append p.splitter.buf p.rest b.valid.buf_ok b.rest_ok))
      b quiet

-- A call on a valid splitter and a chunk whose surrogates are paired accounts for each byte: what the
-- splitter held back and the bytes of the chunk are together the leading bytes, the lines with their
-- terminators, the lines dropped by the callback and what the new state holds back; and the new state
-- is valid. If the call throws, its buffer is empty.
pub push_detailed-Accounts :
    (s : LineSplitter) (chunk : Units)
    → IsValid s
    → well_formed chunk ≡ true
    → Accounts (pending s + utf8_byte_length chunk) (push_detailed s chunk)
unfolding push_detailed
push_detailed-Accounts s chunk v ok =
    let n = pending s + utf8_byte_length chunk in
    finish-Accounts n _ (
      after NotSkipping n (late_terminator (begin s chunk)) _
        (late_terminator-Holds n (begin s chunk)
          (record { total = omega (arith, sum_skipped-nil); rest_ok = ok; valid = v }))
        (λ p b. after NotSkipping n (byte_order_mark p) _ (byte_order_mark-Holds n p b) (λ q c.
          Gives-bind NoCr NotSkipping n (skip_terminator q) _ (skip_terminator-Gives n q c)
            (λ r d quiet. skip_line-Gives n r d quiet))))

checkpoint-Accounts :
    (s : LineSplitter)
    → IsValid s
    → (pending s ≡ (checkpoint s).1 + pending (checkpoint s).0) × IsValid (checkpoint s).0
unfolding checkpoint
checkpoint-Accounts s v =
    if-cases (λ (r : LineSplitter × ℕ). (pending s ≡ r.1 + pending r.0) × IsValid r.0) s.skipping _
      _ (λ on. (omega arith, ground (arith, v, on))) (λ off. (omega arith, v))

reported : (n : ℕ) → sum_skipped (if ltb 0 n && true then (n, 0) ∷ [] else []) ≡ n
unfolding sum_skipped
reported n = ground arith

end_of_input-Accounts :
    (s : LineSplitter)
    → IsValid s
    → s.tolerant ≡ true
    → (pending s ≡ sum_skipped (end_of_input s).1 + pending (end_of_input s).0)
      × IsValid (end_of_input s).0
unfolding end_of_input
end_of_input-Accounts s v tolerant =
    if-cases
      (λ (r : LineSplitter × List (ℕ × ℕ)).
        (pending s ≡ sum_skipped r.1 + pending r.0) × IsValid r.0)
      s.skipping _ _
      (λ on. (
        omega (
          arith,
          reported (s.skip_bytes_accumulated + cr_bytes s.skip_pending_cr),
          ap
              (λ b. sum_skipped (
                if ltb 0 (s.skip_bytes_accumulated + cr_bytes s.skip_pending_cr) && b
                then (s.skip_bytes_accumulated + cr_bytes s.skip_pending_cr, 0) ∷ []
                else []))
              tolerant,
        ),
        ground (arith, v, on),
      ))
      (λ off. (omega (arith, sum_skipped-nil), v))

finalize-Accounts :
    (predicate : Units → Bool) (s : LineSplitter)
    → IsValid s
    → (u : Units) → s.buf ≡ u
    → (pending s ≡ sum_lines (finalize predicate s u).1 + pending (finalize predicate s u).0)
      × IsValid (finalize predicate s u).0
unfolding finalize sum_lines
finalize-Accounts predicate s v [] e = (omega arith, v)
finalize-Accounts predicate s v (c ∷ u) e =
    if-cases
      (λ (r : LineSplitter × List SplitLine).
        (pending s ≡ sum_lines r.1 + pending r.0) × IsValid r.0)
      (predicate (c ∷ u)) _ _
      (λ emitted. (
        omega (arith, ap utf8_byte_length e, bytes-nil),
        record { buf_ok = empty_ok; skips = v.skips; one = λ on. refl; final = λ cr. refl },
      ))
      (λ left. (omega arith, v))

-- The calls between chunks keep the account too. What a valid splitter holds back is, for
-- `checkpoint`, the bytes that it returns and what the new state holds back; for `endOfInput` of the
-- tolerant mode, the bytes given to the callback and what is left; for `finalizeIf`, with whatever
-- predicate, the bytes of the line that it may emit and what is left. Each leaves a valid state.
pub closing-Accounts :
    (predicate : Units → Bool) (s : LineSplitter)
    → IsValid s
    → s.tolerant ≡ true
    → ((pending s ≡ (checkpoint s).1 + pending (checkpoint s).0) × IsValid (checkpoint s).0)
      × ((pending s ≡ sum_skipped (end_of_input s).1 + pending (end_of_input s).0)
          × IsValid (end_of_input s).0)
      × ((pending s ≡ sum_lines (finalize_if predicate s).1 + pending (finalize_if predicate s).0)
          × IsValid (finalize_if predicate s).0)
unfolding finalize_if
closing-Accounts predicate s v tolerant = (
  checkpoint-Accounts s v,
  end_of_input-Accounts s v tolerant,
  finalize-Accounts predicate s v s.buf refl,
)
