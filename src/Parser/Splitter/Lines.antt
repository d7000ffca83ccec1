-- ===== src/Parser/Splitter/Lines.antt =====
-- The loop of the splitter: its lines, written back with their terminators, are the text.
use mathlib.Core.List.{append_assoc, append-nil}
use ahp_inspector.Base.{
  Bool, true, false, List, [], ◌∷◌, ◌++◌, ◌≡◌, ◌≢◌, refl, sym, ap, ◌∙◌, arith, ◌==◌, if◌then◌else◌,
  All, All-append, Bool-cases, ==_iff, inl, inr,
}
use ahp_inspector.Parser.Splitter.{
  Units, newline, carriage_return, SplitLine, strip_cr, line_of, scan,
}

abbrev pub cr_units : Bool → Units
cr_units b = if b then carriage_return ∷ [] else []

pub strip_cr-append : (s : Units) → (strip_cr s).0 ++ cr_units (strip_cr s).1 ≡ s
unfolding strip_cr
strip_cr-append [] = refl
strip_cr-append (c ∷ []) = ground arith
strip_cr-append (c ∷ d ∷ s) = ap (◌∷◌ c) (strip_cr-append (d ∷ s))

-- a line as it stood in the text
abbrev pub render_line : SplitLine → Units
render_line l = l.text ++ (cr_units (l.terminator_bytes == 2) ++ newline ∷ [])

pub render : List SplitLine → Units
render [] = []
render (l ∷ ls) = render_line l ++ render ls

render-append : (ls ms : List SplitLine) → render (ls ++ ms) ≡ render ls ++ render ms
unfolding render
render-append [] ms = refl
render-append (l ∷ ls) ms =
    rw (render-append ls ms) (sym (append_assoc (render_line l) (render ls) (render ms)))

cr_units-width : (b : Bool) → cr_units ((if b then 2 else 1) == 2) ≡ cr_units b
cr_units-width true = refl
cr_units-width false = refl

render_line-line_of : (s : Units) → render_line (line_of s) ≡ s ++ newline ∷ []
unfolding line_of
render_line-line_of s =
    let (text, cr) = strip_cr s in
    ap (λ u. text ++ (u ++ newline ∷ [])) (cr_units-width cr)
    ∙ sym (append_assoc text (cr_units cr) (newline ∷ []))
    ∙ ap (λ u. u ++ newline ∷ []) (strip_cr-append s)

-- Nothing is lost: the text is the lines with their terminators, and the tail behind them.
pub scan-render : (line s : Units) → render (scan line s).0 ++ (scan line s).1 ≡ line ++ s
unfolding scan render
scan-render line [] = sym (append-nil line)
scan-render line (c ∷ s) = elim (Bool-cases (c == newline)) [
  | inl ends ↦ rw ends (
      append_assoc (render_line (line_of line)) (render (scan [] s).0) (scan [] s).1
      ∙ ap (λ u. u ++ (render (scan [] s).0 ++ (scan [] s).1)) (render_line-line_of line)
      ∙ append_assoc line (newline ∷ []) _
      ∙ ap (λ u. line ++ newline ∷ u) (scan-render [] s)
      ∙ ap (λ u. line ++ u ∷ s) (sym ((==_iff c newline).0 ends)))
  | inr goes_on ↦ rw goes_on (scan-render (line ++ c ∷ []) s ∙ append_assoc line (c ∷ []) s)
]

-- no newline inside
abbrev pub Whole : Units → Type 0
Whole = All (λ c. c ≢ newline)

strip_cr-Whole : (s : Units) → Whole s → Whole (strip_cr s).0
unfolding strip_cr
strip_cr-Whole [] h = tt
strip_cr-Whole (c ∷ []) h = ground arith
strip_cr-Whole (c ∷ d ∷ s) h = (h.0, strip_cr-Whole (d ∷ s) h.1)

-- Each line is a piece between newlines, and so is the tail.
pub scan-Whole :
    (line s : Units) → Whole line → All (λ l. Whole l.text) (scan line s).0 × Whole (scan line s).1
unfolding scan line_of
scan-Whole line [] h = (tt, h)
scan-Whole line (c ∷ s) h = elim (Bool-cases (c == newline)) [
  | inl ends ↦
      let (lines, tail) = scan-Whole [] s tt in rw ends ((strip_cr-Whole line h, lines), tail)
  | inr goes_on ↦ rw goes_on (
      scan-Whole (line ++ c ∷ []) s
        (All-append (λ c. c ≢ newline) line (c ∷ []) h (ground arith, tt)))
]

-- A chunk boundary does not matter: the tail of one text goes on in the next.
pub scan-append :
    (line s t : Units)
    → scan line (s ++ t)
      ≡ ((scan line s).0 ++ (scan (scan line s).1 t).0, (scan (scan line s).1 t).1)
unfolding scan
scan-append line [] t = refl
scan-append line (c ∷ s) t = elim (Bool-cases (c == newline)) [
  | inl ends ↦ rw ends (ap (λ r. (line_of line ∷ r.0, r.1)) (scan-append [] s t))
  | inr goes_on ↦ rw goes_on (scan-append (line ++ c ∷ []) s t)
]

-- a buffered piece before the text is the line begun
pub scan-begun : (line b s : Units) → Whole b → scan line (b ++ s) ≡ scan (line ++ b) s
unfolding scan
scan-begun line [] s h = ap (λ l. scan l s) (sym (append-nil line))
scan-begun line (c ∷ b) s h =
    let other : (c == newline) ≡ false = ground (arith, h.0) in
    rw other
      (scan-begun (line ++ c ∷ []) b s h.1 ∙ ap (λ l. scan l s) (append_assoc line (c ∷ []) b))
