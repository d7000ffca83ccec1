-- ===== src/Parser/Splitter/Balance.antt =====
-- Byte accounting: a call accounts for each byte once, as leading bytes, as a line with its
-- terminator, as a skipped line, or as pending in the state that it leaves.
use ahp_inspector.Base.{
  ℕ, ◌+◌, Bool, true, false, List, [], ◌∷◌, ◌++◌, ◌≡◌, refl, sym, ap, ◌∙◌, arith, if◌then◌else◌,
}
use ahp_inspector.Parser.Splitter.Bytes.{well_formed}
use ahp_inspector.Parser.Splitter.{
  Units, is_high, unit_bytes, utf8_byte_length, LineSplitter, Progress, Stage, stop, go, ◌>>=◌,
  cr_bytes,
}

unfoldable pub sum_skipped : List (ℕ × ℕ) → ℕ
sum_skipped [] = 0
sum_skipped ((d, t) ∷ es) = d + t + sum_skipped es

pub sum_skipped-nil : sum_skipped [] ≡ 0
unfolding sum_skipped
sum_skipped-nil = refl

pub sum_skipped-append :
    (es : List (ℕ × ℕ)) (d t : ℕ) → sum_skipped (es ++ (d, t) ∷ []) ≡ sum_skipped es + d + t
unfolding sum_skipped
sum_skipped-append [] d t = omega arith
sum_skipped-append ((a, b) ∷ es) d t = omega (arith, sum_skipped-append es d t)

-- What a state holds back: the buffer, the dropped bytes not yet reported, and carriage returns that
-- wait for their newline.
abbrev pub pending : LineSplitter → ℕ
pending s =
    utf8_byte_length s.buf
    + s.skip_bytes_accumulated
    + cr_bytes s.skip_pending_cr
    + cr_bytes s.finalized_pending_cr

pub record IsValid (s : LineSplitter) : Type 0 where
  pub buf_ok : well_formed s.buf ≡ true
  pub skips : s.skipping ≡ false → (s.skip_bytes_accumulated ≡ 0) × (s.skip_pending_cr ≡ false)
  pub one : s.skipping ≡ true → s.buf ≡ []
  pub final : s.finalized_pending_cr ≡ true → s.finalized_at_eof ≡ true

pub record Balanced (n : ℕ) (p : Progress) : Type 0 where
  pub total :
      utf8_byte_length p.rest + pending p.splitter + p.leading_bytes + sum_skipped p.skipped ≡ n
  pub rest_ok : well_formed p.rest ≡ true
  pub valid : IsValid p.splitter

abbrev pub Settled : ℕ → Progress → Type 0
Settled n p =
    (pending p.splitter + p.leading_bytes + sum_skipped p.skipped ≡ n) × IsValid p.splitter

abbrev pub Holds : ℕ → Stage → Type 0
Holds n (stop p) = Settled n p
Holds n (go p) = Balanced n p

pub bytes-cons :
    (c : ℕ) (s : Units)
    → is_high c ≡ false
    → utf8_byte_length (c ∷ s) ≡ unit_bytes c + utf8_byte_length s
unfolding utf8_byte_length
bytes-cons c [] h = ground arith
bytes-cons c (d ∷ s) h = ground arith

pub well_formed-cons : (c : ℕ) (s : Units) → is_high c ≡ false → well_formed (c ∷ s) ≡ well_formed s
unfolding well_formed
well_formed-cons c [] h = ground arith
well_formed-cons c (d ∷ s) h = ground arith

pub bytes-nil : utf8_byte_length [] ≡ 0
unfolding utf8_byte_length
bytes-nil = refl

pub Holds-if :
    (n : ℕ) (b : Bool) (m k : Stage)
    → (b ≡ true → Holds n m)
    → (b ≡ false → Holds n k)
    → Holds n (if b then m else k)
Holds-if n true m k h l = h refl
Holds-if n false m k h l = l refl

pub Holds-bind :
    (n : ℕ) (m : Stage) (f : Progress → Stage)
    → Holds n m
    → ((p : Progress) → Balanced n p → Holds n (f p))
    → Holds n (m >>= f)
Holds-bind n (stop p) f h k = h
Holds-bind n (go p) f h k = k p h

pub Balanced-if :
    {n : ℕ} (b : Bool) (p q : Progress)
    → Balanced n p
    → Balanced n q
    → Balanced n (if b then p else q)
Balanced-if true p q h k = h
Balanced-if false p q h k = k

-- what the counts of an ASCII unit or a byte order mark at the head are
module _ {n : ℕ} {p : Progress} (b : Balanced n p) (c : ℕ) (s : Units) (e : p.rest ≡ c ∷ s)
    (low : is_high c ≡ false) where
  pub head_bytes :
      unit_bytes c
        + utf8_byte_length s
        + pending p.splitter
        + p.leading_bytes
        + sum_skipped p.skipped
      ≡ n
  head_bytes = omega (arith, b.total, ap utf8_byte_length e, bytes-cons c s low)

  pub tail_ok : well_formed s ≡ true
  tail_ok = sym (well_formed-cons c s low) ∙ sym (ap well_formed e) ∙ b.rest_ok
