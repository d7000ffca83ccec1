-- ===== src/Base/Text.antt =====
-- Texts: concatenation by clauses, so that it computes at a literal in front of a variable, and the
-- decimal text of a number (`String(n)`), which is read back.
use Prim.Native.Nat.{ℕ, zero, suc, ◌+◌, ◌-◌, ◌*◌, ◌/◌, ◌%◌, ◌<◌, ◌≤◌}
use Prim.Native.Char.{Char, code}
use Prim.Native.String.{String, [], ◌∷◌}
use mathlib.Core.Path.{◌≡◌, refl, ap, sym, subst, ◌∙◌}
use mathlib.Core.Logic.{inl, inr}
use mathlib.Core.Bool.{Bool, false, ◌&&◌, ◌||◌}
use mathlib.Core.Option.{Option, none, some}
use text.Mathlib.Text.{◌==◌ as str_eq, starts_with}
use native.Mathlib.Omega.{arith}
use ahp_inspector.Base.Tests.{ltb, leb, ◌==◌, if◌then◌else◌, Bool-cases}
use ahp_inspector.Base.Int.{ℤ, pos, negsuc}

-- `a + b` on strings
abbrev pub append : String → String → String
append [] t = t
append (c ∷ s) t = c ∷ append s t

pub append_cancel_left : (s t u : String) → append s t ≡ append s u → t ≡ u
append_cancel_left [] t u h = h
append_cancel_left (c ∷ s) t u h = append_cancel_left s t u (cc)

unfoldable pub digit : ℕ → Char
digit zero = "0"
digit (suc zero) = "1"
digit (suc (suc zero)) = "2"
digit (suc (suc (suc zero))) = "3"
digit (suc (suc (suc (suc zero)))) = "4"
digit (suc (suc (suc (suc (suc zero))))) = "5"
digit (suc (suc (suc (suc (suc (suc zero)))))) = "6"
digit (suc (suc (suc (suc (suc (suc (suc zero))))))) = "7"
digit (suc (suc (suc (suc (suc (suc (suc (suc zero)))))))) = "8"
digit _ = "9"

code-digit : (d : ℕ) → d < 10 → code (digit d) ≡ 48 + d
unfolding digit
code-digit zero h = refl
code-digit (suc zero) h = refl
code-digit (suc (suc zero)) h = refl
code-digit (suc (suc (suc zero))) h = refl
code-digit (suc (suc (suc (suc zero)))) h = refl
code-digit (suc (suc (suc (suc (suc zero))))) h = refl
code-digit (suc (suc (suc (suc (suc (suc zero)))))) h = refl
code-digit (suc (suc (suc (suc (suc (suc (suc zero))))))) h = refl
code-digit (suc (suc (suc (suc (suc (suc (suc (suc zero)))))))) h = refl
code-digit (suc (suc (suc (suc (suc (suc (suc (suc (suc n))))))))) h =
    let e : n ≡ 0 = omega arith in rw e refl

-- the digits of `n` in front of a text, on fuel
show_before : ℕ → ℕ → String → String
show_before zero n rest = rest
show_before (suc f) n rest =
    let more = show_before f (n / 10) (digit (n % 10) ∷ rest) in
    if ltb n 10 then digit n ∷ rest else more

unfoldable pub show_ℕ : ℕ → String
unfolding show_before digit
show_ℕ n = show_before (suc n) n []

-- `String(n)` at an integer
unfoldable pub show : ℤ → String
unfolding show_ℕ
show (pos n) = show_ℕ n
show (negsuc n) = "-" ∷ show_ℕ (suc n)

read_ℕ : ℕ → String → ℕ
read_ℕ acc [] = acc
read_ℕ acc (c ∷ s) = read_ℕ (acc * 10 + (code c - 48)) s

read-digit :
    (d acc : ℕ) (rest : String) → d < 10 → read_ℕ acc (digit d ∷ rest) ≡ read_ℕ (acc * 10 + d) rest
unfolding read_ℕ
read-digit d acc rest h = ap (λ k. read_ℕ k rest) (omega (arith, code-digit d h))

read-show_before :
    (f n : ℕ) (rest : String) → n < f → read_ℕ 0 (show_before f n rest) ≡ read_ℕ n rest
unfolding show_before
read-show_before zero n rest h = elim h [ ]
read-show_before (suc f) n rest h = elim (Bool-cases (ltb n 10)) [
  | inl small ↦
      rw small (read-digit n 0 rest (ground arith) ∙ ap (λ k. read_ℕ k rest) (omega arith))
  | inr big ↦ rw big (
      read-show_before f (n / 10) (digit (n % 10) ∷ rest) (ground arith)
      ∙ read-digit (n % 10) (n / 10) rest (omega arith)
      ∙ ap (λ k. read_ℕ k rest) (omega arith))
]

-- the text begins with a digit
abbrev Begins : String → Type 0
Begins [] = ⊥
Begins (c ∷ s) = 48 ≤ code c

Begins-show_before : (f n : ℕ) (rest : String) → n < f → Begins (show_before f n rest)
unfolding show_before
Begins-show_before zero n rest h = elim h [ ]
Begins-show_before (suc f) n rest h = elim (Bool-cases (ltb n 10)) [
  | inl small ↦ rw small (omega (arith, code-digit n (ground arith)))
  | inr big ↦ rw big (Begins-show_before f (n / 10) (digit (n % 10) ∷ rest) (ground arith))
]

show_ℕ-injective : (m n : ℕ) → show_ℕ m ≡ show_ℕ n → m ≡ n
unfolding show_ℕ read_ℕ
show_ℕ-injective m n h =
    sym (read-show_before (suc m) m [] (omega arith))
    ∙ ap (read_ℕ 0) h
    ∙ read-show_before (suc n) n [] (omega arith)

minus_no_digit : (n : ℕ) (s : String) → show_ℕ n ≡ "-" ∷ s → ⊥
unfolding show_ℕ
minus_no_digit n s h =
    let b : 48 ≤ 45 = subst Begins h (Begins-show_before (suc n) n [] (omega arith)) in omega arith

-- Two integers with one decimal text are one.
pub show-injective : (a b : ℤ) → show a ≡ show b → a ≡ b
unfolding show
show-injective (pos m) (pos n) h = ap pos (show_ℕ-injective m n h)
show-injective (pos m) (negsuc n) h = absurd (minus_no_digit m _ h)
show-injective (negsuc m) (pos n) h = absurd (minus_no_digit n _ (sym h))
show-injective (negsuc m) (negsuc n) h =
    ap negsuc (omega (arith, show_ℕ-injective (suc m) (suc n) (cc)))

-- `text.length`: a character beyond U+FFFF takes two units
unfoldable pub text_length : String → ℕ
text_length [] = 0
text_length (c ∷ s) = (if ltb (code c) 0x10000 then 1 else 2) + text_length s

-- `text.includes(q)`
unfoldable pub includes : String → String → Bool
includes [] q = str_eq q ""
includes (c ∷ s) q = starts_with (c ∷ s) q || includes s q

-- the white space of `trim`
abbrev pub is_space : ℕ → Bool
is_space c =
    (leb 9 c && leb c 13)
    || (c == 32)
    || (c == 0xa0)
    || (c == 0x1680)
    || (leb 0x2000 c && leb c 0x200a)
    || (c == 0x2028)
    || (c == 0x2029)
    || (c == 0x202f)
    || (c == 0x205f)
    || (c == 0x3000)
    || (c == 0xfeff)

trim_start : String → String
trim_start [] = []
trim_start (c ∷ s) = let rest = trim_start s in if is_space (code c) then rest else c ∷ s

trim_end : String → String
trim_end [] = []
trim_end (c ∷ s) =
    let rest = trim_end s in if str_eq rest "" && is_space (code c) then [] else c ∷ rest

unfoldable pub trim : String → String
unfolding trim_start trim_end
trim s = trim_end (trim_start s)

-- `s.slice(0, n)`, less the character that the cut would halve
unfoldable pub slice_units : ℕ → String → String
slice_units n [] = []
slice_units n (c ∷ s) =
    let width = if ltb (code c) 0x10000 then 1 else 2 in
    let rest = slice_units (n - width) s in if leb width n then c ∷ rest else []

-- `s.slice(n)`, less the character that the cut would halve
unfoldable pub drop_units : ℕ → String → String
drop_units n [] = []
drop_units n (c ∷ s) =
    let width = if ltb (code c) 0x10000 then 1 else 2 in
    let rest = drop_units (n - width) s in if n == 0 then c ∷ s else rest

-- runs of white space become one blank: `s.replace(/\s+/g, " ")`; `inside` says that one is running
blanks : Bool → String → String
blanks inside [] = []
blanks inside (c ∷ s) =
    let rest = blanks (is_space (code c)) s in
    if is_space (code c) then (if inside then rest else " " ∷ rest) else c ∷ rest

unfoldable pub collapse_blanks : String → String
unfolding blanks
collapse_blanks s = blanks false s

-- `text.startsWith(word)`, and what stands behind the word
unfoldable pub strip_prefix : String → String → Option String
strip_prefix [] s = some s
strip_prefix (w ∷ ws) [] = none
strip_prefix (w ∷ ws) (c ∷ s) =
    let rest = strip_prefix ws s in if code w == code c then rest else none

-- a letter of ASCII in lower case, for the regular expressions that ignore case
abbrev pub fold_code : ℕ → ℕ
fold_code c = if leb b'A' c && leb c b'Z' then c + 32 else c

-- `strip_prefix` without regard to case, for a word in lower case
unfoldable pub strip_prefix_fold : String → String → Option String
strip_prefix_fold [] s = some s
strip_prefix_fold (w ∷ ws) [] = none
strip_prefix_fold (w ∷ ws) (c ∷ s) =
    let rest = strip_prefix_fold ws s in if code w == fold_code (code c) then rest else none

keep_part : String → Option String → Option String
keep_part [] best = best
keep_part (c ∷ s) best = some (c ∷ s)

-- `s.split(separators).filter(Boolean).at(-1)`: `part` is what stands behind the last separator
last_part_of : (ℕ → Bool) → String → Option String → String → Option String
unfolding keep_part
last_part_of sep part best [] = keep_part part best
last_part_of sep part best (c ∷ s) =
    last_part_of sep (if sep (code c) then [] else append part (c ∷ []))
      (if sep (code c) then keep_part part best else best) s

unfoldable pub last_part : (ℕ → Bool) → String → Option String
unfolding last_part_of
last_part sep s = last_part_of sep [] none s
