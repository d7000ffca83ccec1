-- ===== src/Parser/SplitLines.antt =====
-- packages/parser/src/jsonl.ts: byte counts and the loop over a text. A text is the list of its UTF-16
-- code units.
use ahp_inspector.Base.{
  ℕ, ◌+◌, ◌*◌, Bool, true, false, ◌&&◌, Option, none, some, List, [], ◌∷◌, ◌++◌, ltb, leb, ◌==◌,
  if◌then◌else◌,
}

abbrev pub Units : Type 0
Units = List ℕ

abbrev pub max_buf_bytes : ℕ
max_buf_bytes = 16 * 1024 * 1024

abbrev pub newline : ℕ
newline = 10

abbrev pub carriage_return : ℕ
carriage_return = 13

abbrev pub bom : ℕ
bom = 0xfeff

abbrev pub is_high : ℕ → Bool
is_high c = leb 0xd800 c && leb c 0xdbff

-- bytes of a unit that is no high surrogate
abbrev pub unit_bytes : ℕ → ℕ
unit_bytes c = if ltb c 128 then 1 else if ltb c 2048 then 2 else 3

-- `utf8ByteLength`: a high surrogate takes the unit behind it along
unfoldable pub utf8_byte_length : Units → ℕ
utf8_byte_length [] = 0
utf8_byte_length (c ∷ []) = if is_high c then 4 else unit_bytes c
utf8_byte_length (c ∷ d ∷ s) =
    let both = 4 + utf8_byte_length s in
    let one = unit_bytes c + utf8_byte_length (d ∷ s) in if is_high c then both else one

pub record SplitLine : Type 0 where
  pub text : Units
  pub byte_length : ℕ
  pub terminator_bytes : ℕ

-- A text without its last unit, if that is a carriage return, and whether it was.
unfoldable pub strip_cr : Units → Units × Bool
strip_cr [] = ([], false)
strip_cr (c ∷ []) = if c == carriage_return then ([], true) else (c ∷ [], false)
strip_cr (c ∷ d ∷ s) = let (t, cr) = strip_cr (d ∷ s) in (c ∷ t, cr)

-- the line that a newline ends
unfoldable pub line_of : Units → SplitLine
unfolding strip_cr utf8_byte_length
line_of s =
    let (text, cr) = strip_cr s in
    record {
      text = text;
      byte_length = utf8_byte_length text;
      terminator_bytes = if cr then 2 else 1;
    }

-- the loop over the units: `line` is what stands behind the last newline
unfoldable pub scan : Units → Units → List SplitLine × Units
unfolding line_of
scan line [] = ([], line)
scan line (c ∷ s) =
    let ended = scan [] s in
    let longer = scan (line ++ c ∷ []) s in
    if c == newline then (line_of line ∷ ended.0, ended.1) else longer

-- `indexOf("\n")`: what stands before the first newline, and what behind it
unfoldable pub until_newline : Units → Units × Option Units
until_newline [] = ([], none)
until_newline (c ∷ s) =
    let (before, after) = until_newline s in
    if c == newline then ([], some s) else (c ∷ before, after)
