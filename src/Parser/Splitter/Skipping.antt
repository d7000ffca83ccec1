-- ===== src/Parser/Splitter/Skipping.antt =====
-- The stages that drop an oversized line keep the balance of bytes, and leave no line half dropped.
use mathlib.Core.List.{append-nil}
use ahp_inspector.Base.{
  ℕ, ◌+◌, Bool, true, false, Option, none, some, [], ◌∷◌, ◌++◌, ◌≡◌, refl, sym, ap, ◌∙◌, arith,
  ◌==◌, ==_iff, if◌then◌else◌, Bool-cases, inl, inr,
}
use ahp_inspector.Parser.Splitter.Bytes.{well_formed, bytes-append, well_formed-split}
use ahp_inspector.Parser.Splitter.Lines.{cr_units, strip_cr-append}
use ahp_inspector.Parser.Splitter.{
  Units, newline, carriage_return, is_high, utf8_byte_length, strip_cr, until_newline, Progress,
  Stage, stop, go, skip_terminator, pending_cr, stop_if_empty, skip_line, skip_to_newline, drop_all,
  resume, cr_bytes,
}
use ahp_inspector.Parser.Splitter.Balance.{
  Balanced, Settled, bytes-cons, well_formed-cons, bytes-nil, head_bytes, tail_ok,
  sum_skipped-append,
}

-- a stage that keeps the balance and establishes more
abbrev pub Gives : (Progress → Type 0) → ℕ → Stage → Type 0
Gives Q n (stop p) = Settled n p
Gives Q n (go p) = Balanced n p × Q p

abbrev pub NoCr : Progress → Type 0
NoCr p = p.splitter.skip_pending_cr ≡ false

abbrev pub NotSkipping : Progress → Type 0
NotSkipping p = p.splitter.skipping ≡ false

Gives-if :
    (Q : Progress → Type 0) (n : ℕ) (b : Bool) (m k : Stage)
    → (b ≡ true → Gives Q n m)
    → (b ≡ false → Gives Q n k)
    → Gives Q n (if b then m else k)
Gives-if Q n true m k h l = h refl
Gives-if Q n false m k h l = l refl

stop_if_empty-Gives :
    (Q : Progress → Type 0) (n : ℕ) (p : Progress) (s : Units)
    → p.rest ≡ s
    → Balanced n p
    → Q p
    → Gives Q n (stop_if_empty p s)
stop_if_empty-Gives Q n p [] e b q =
    (omega (arith, b.total, bytes-nil, ap utf8_byte_length e), b.valid)
stop_if_empty-Gives Q n p (c ∷ s) e b q = (b, q)

pub strip_cr-bytes :
    (s : Units)
    → well_formed s ≡ true
    → (well_formed (strip_cr s).0 ≡ true)
      × (utf8_byte_length (strip_cr s).0 + cr_bytes (strip_cr s).1 ≡ utf8_byte_length s)
strip_cr-bytes s h = parts (strip_cr s).0 (strip_cr s).1 (strip_cr-append s)
  where
    parts :
        (t : Units) (cr : Bool)
        → t ++ cr_units cr ≡ s
        → (well_formed t ≡ true) × (utf8_byte_length t + cr_bytes cr ≡ utf8_byte_length s)
    parts t true e =
        let ok = (well_formed-split t carriage_return [] refl (ap well_formed e ∙ h)).0 in
        (
          ok,
          omega (
            arith,
            ap utf8_byte_length e,
            bytes-append t (carriage_return ∷ []) ok,
            bytes-cons carriage_return [] refl,
            bytes-nil,
          ),
        )
    parts t false e =
        let same = sym (append-nil t) ∙ e in
        (ap well_formed same ∙ h, omega (arith, ap utf8_byte_length same))

-- what stands before the first newline, and what behind it
Splits : Units → Units × Option Units → Type 0
Splits s (before, none) = before ≡ s
Splits s (before, some after) = before ++ newline ∷ after ≡ s

Splits-cons :
    (c : ℕ) (s : Units) (r : Units × Option Units) → Splits s r → Splits (c ∷ s) (c ∷ r.0, r.1)
unfolding Splits
Splits-cons c s (before, none) h = ap (◌∷◌ c) h
Splits-cons c s (before, some after) h = ap (◌∷◌ c) h

until_newline-Splits : (s : Units) → Splits s (until_newline s)
unfolding until_newline Splits
until_newline-Splits [] = refl
until_newline-Splits (c ∷ s) = elim (Bool-cases (c == newline)) [
  | inl nl ↦ rw nl (ap (λ x. x ∷ s) (sym ((==_iff c newline).0 nl)))
  | inr other ↦ rw other (Splits-cons c s (until_newline s) (until_newline-Splits s))
]

module _ (n : ℕ) (p : Progress) (b : Balanced n p) where
  pending_cr-Gives :
      (s : Units) → p.rest ≡ s → p.splitter.skipping ≡ true → Gives NoCr n (pending_cr p s)
  unfolding pending_cr
  pending_cr-Gives [] e k = (omega (arith, b.total, bytes-nil, ap utf8_byte_length e), b.valid)
  pending_cr-Gives (c ∷ s) e k =
      Gives-if NoCr n p.splitter.skip_pending_cr _ _
        (λ cr.
          Gives-if NoCr n (c == newline) _ _
            (λ nl.
              let low : is_high c ≡ false = ground arith in
              stop_if_empty-Gives NoCr n _ s refl
                (record {
                  total = ground (
                    arith,
                    head_bytes b c s e low,
                    sum_skipped-append p.skipped p.splitter.skip_bytes_accumulated 2,
                  );
                  rest_ok = tail_ok b c s e low;
                  valid = ground (arith, b);
                })
                refl)
            (λ _. (
              record { total = ground (arith, b); rest_ok = b.rest_ok; valid = ground (arith, b) },
              refl,
            )))
        (λ none. (b, none))

  pub skip_terminator-Gives : Gives NoCr n (skip_terminator p)
  unfolding skip_terminator
  skip_terminator-Gives =
      Gives-if NoCr n p.splitter.skipping _ _ (pending_cr-Gives p.rest refl)
        (λ quiet. (b, (b.valid.skips quiet).1))

  module _ (k : p.splitter.skipping ≡ true) (quiet : NoCr p) where
    drop_all-Settled :
        (t : Units) (cr : Bool)
        → utf8_byte_length t + cr_bytes cr ≡ utf8_byte_length p.rest
        → Settled n (drop_all p (t, cr))
    unfolding drop_all
    drop_all-Settled t true e = (ground (arith, b.total), ground (arith, b))
    drop_all-Settled t false e = (ground (arith, b.total), ground (arith, b))

    resume-Gives :
        (t : Units) (cr : Bool) (after : Units)
        → utf8_byte_length t + cr_bytes cr + 1 + utf8_byte_length after ≡ utf8_byte_length p.rest
        → well_formed after ≡ true
        → Gives NotSkipping n (resume p (t, cr) after)
    unfolding resume
    resume-Gives t cr after e ok =
        let width : (if cr then 2 else 1) ≡ cr_bytes cr + 1 = ground arith in
        stop_if_empty-Gives NotSkipping n _ after refl
          (record {
            total = omega (
              arith,
              b.total,
              e,
              width,
              ap cr_bytes quiet,
              sum_skipped-append p.skipped (p.splitter.skip_bytes_accumulated + utf8_byte_length t)
                  (if cr then 2 else 1),
            );
            rest_ok = ok;
            valid = ground (arith, b);
          })
          refl

    skip_to_newline-Gives :
        (r : Units × Option Units) → Splits p.rest r → Gives NotSkipping n (skip_to_newline p r)
    unfolding skip_to_newline Splits
    skip_to_newline-Gives (before, none) e =
        drop_all-Settled _ _
          ((strip_cr-bytes before (ap well_formed e ∙ b.rest_ok)).1 ∙ ap utf8_byte_length e)
    skip_to_newline-Gives (before, some after) e =
        let (ok, ok_after) =
          well_formed-split before newline after refl (ap well_formed e ∙ b.rest_ok) in
        resume-Gives _ _ after
          (omega (
            arith,
            (strip_cr-bytes before ok).1,
            bytes-append before (newline ∷ after) ok,
            bytes-cons newline after refl,
            ap utf8_byte_length e,
          ))
          (sym (well_formed-cons newline after refl) ∙ ok_after)

  pub skip_line-Gives : NoCr p → Gives NotSkipping n (skip_line p)
  unfolding skip_line
  skip_line-Gives quiet =
      Gives-if NotSkipping n p.splitter.skipping _ _
        (λ k. skip_to_newline-Gives k quiet (until_newline p.rest) (until_newline-Splits p.rest))
        (λ off. (b, off))
