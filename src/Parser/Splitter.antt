-- ===== src/Parser/Splitter.antt =====
-- packages/parser/src/jsonl.ts: the streaming line splitter. A call of the tolerant mode's callback is an entry of `skipped`; `ParseOverflowError` is the
-- outcome `overflow`.
pub mod Lines
pub mod Balance
mod Leading
mod Skipping
pub mod Bytes
pub mod Chunks
pub mod Accounting
pub mod Tolerant
pub use ahp_inspector.Parser.SplitLines.{SplitLine}
unfoldable pub use ahp_inspector.Parser.SplitLines.{
  Units, max_buf_bytes, newline, carriage_return, bom, is_high, unit_bytes, utf8_byte_length,
  strip_cr, line_of, scan, until_newline,
}
use ahp_inspector.Base.{
  ℕ, suc, ◌+◌, ◌*◌, Bool, true, false, not, ◌&&◌, Option, none, some, List, [], ◌∷◌, ◌++◌, length,
  ltb, leb, ◌==◌, if◌then◌else◌,
}

pub record LineSplitter : Type 0 where
  pub buf : Units
  pub bom_consumed : Bool
  pub tolerant : Bool
  pub skipping : Bool
  pub skip_bytes_accumulated : ℕ
  pub skip_pending_cr : Bool
  pub finalized_at_eof : Bool
  pub finalized_pending_cr : Bool

-- the constructor; `tolerant` says whether the callback is given
unfoldable pub new_splitter : Bool → LineSplitter
new_splitter tolerant = record {
  buf = [];
  bom_consumed = false;
  tolerant = tolerant;
  skipping = false;
  skip_bytes_accumulated = 0;
  skip_pending_cr = false;
  finalized_at_eof = false;
  finalized_pending_cr = false;
}

-- a call in progress: what is left of the chunk, and what was counted
pub record Progress : Type 0 where
  pub splitter : LineSplitter
  pub rest : Units
  pub leading_bytes : ℕ
  pub skipped : List (ℕ × ℕ)

-- an early return, or the next stage
pub data Stage : Type 0 where
  stop go : Progress → Stage

infixl 5 ◌>>=◌
abbrev ◌>>=◌ : Stage → (Progress → Stage) → Stage
stop p >>= f = stop p
go p >>= f = f p

abbrev pub lead : Progress → ℕ → Units → Progress
lead p bytes rest = record p { leading_bytes = p.leading_bytes + bytes; rest = rest }

abbrev pub not_final : Progress → Progress
not_final p = record p { splitter = record p.splitter { finalized_at_eof = false } }

-- behind a line that was emitted at the end of the file: its terminator comes late
after_final : Progress → Units → Stage
after_final p [] = stop p
after_final p (c ∷ []) =
    if c == carriage_return
    then stop (record p { splitter = record p.splitter { finalized_pending_cr = true } })
    else if c == newline
    then go (lead (not_final p) 1 [])
    else go (not_final p)
after_final p (c ∷ d ∷ s) =
    if c == carriage_return && d == newline
    then go (lead (not_final p) 2 s)
    else if c == newline
    then go (lead (not_final p) 1 (d ∷ s))
    else go (not_final p)

-- the same with a carriage return that came alone
after_final_cr : Progress → Units → Stage
after_final_cr p [] = stop p
after_final_cr p (c ∷ s) =
    let q = record p {
      splitter = record p.splitter { finalized_pending_cr = false; finalized_at_eof = false };
    } in
    if c == newline then go (lead q 2 s) else go (record q { rest = carriage_return ∷ c ∷ s })

unfoldable pub late_terminator : Progress → Stage
unfolding after_final after_final_cr
late_terminator p =
    if p.splitter.finalized_at_eof
    then if p.splitter.finalized_pending_cr then after_final_cr p p.rest else after_final p p.rest
    else go p

strip_bom : Progress → Units → Progress
strip_bom p [] = p
strip_bom p (c ∷ s) =
    let q = record p { splitter = record p.splitter { bom_consumed = true } } in
    if c == bom then lead q 3 s else q

unfoldable pub byte_order_mark : Progress → Stage
unfolding strip_bom
byte_order_mark p = go (if p.splitter.bom_consumed then p else strip_bom p p.rest)

-- the callback: the dropped line and its terminator, and the skip is over
abbrev pub report : Progress → ℕ → Progress
report p terminator_bytes = record p {
  splitter = record p.splitter { skip_bytes_accumulated = 0; skipping = false };
  skipped = p.skipped ++ (p.splitter.skip_bytes_accumulated, terminator_bytes) ∷ [];
}

abbrev pub add_skipped : Progress → ℕ → Progress
add_skipped p bytes = record p {
  splitter = record p.splitter {
    skip_bytes_accumulated = p.splitter.skip_bytes_accumulated + bytes;
  };
}

abbrev pub set_pending_cr : Progress → Bool → Progress
set_pending_cr p b = record p { splitter = record p.splitter { skip_pending_cr = b } }

-- `if (s.length === 0) return`
abbrev pub stop_if_empty : Progress → Units → Stage
stop_if_empty p [] = stop p
stop_if_empty p (c ∷ s) = go p

pending_cr : Progress → Units → Stage
pending_cr p [] = stop p
pending_cr p (c ∷ s) =
    let q = set_pending_cr p false in
    if p.splitter.skip_pending_cr
    then (if c == newline
        then stop_if_empty (record (report q 2) { rest = s }) s
        else go (add_skipped q 1))
    else go p

-- the carriage return that a skipped line may end in
unfoldable pub skip_terminator : Progress → Stage
unfolding pending_cr
skip_terminator p = if p.splitter.skipping then pending_cr p p.rest else go p

-- the whole rest belongs to the skipped line; a carriage return at its end waits
drop_all : Progress → Units × Bool → Progress
drop_all p (text, true) = set_pending_cr (add_skipped p (utf8_byte_length text)) true
drop_all p (text, false) = add_skipped p (utf8_byte_length text)

-- the skipped line ends at this newline
resume : Progress → Units × Bool → Units → Stage
resume p (text, cr) after =
    stop_if_empty
      (record (report (add_skipped p (utf8_byte_length text)) (if cr then 2 else 1)) {
        rest = after;
      })
      after

skip_to_newline : Progress → Units × Option Units → Stage
skip_to_newline p (before, none) = stop (drop_all p (strip_cr before))
skip_to_newline p (before, some after) = resume p (strip_cr before) after

unfoldable pub skip_line : Progress → Stage
unfolding skip_to_newline drop_all resume strip_cr until_newline utf8_byte_length
skip_line p = if p.splitter.skipping then skip_to_newline p (until_newline p.rest) else go p

pub record LineSplitResult : Type 0 where
  pub lines : List SplitLine
  pub leading_bytes : ℕ

pub data Outcome : Type 0 where
  result : LineSplitResult → Outcome
  overflow : Outcome

-- what a call returns, the state that it leaves, and the calls of the callback
pub record Pushed : Type 0 where
  pub outcome : Outcome
  pub splitter : LineSplitter
  pub skipped : List (ℕ × ℕ)

-- the tail is too long: its line is dropped from here on
start_skipping : LineSplitter → Units × Bool → LineSplitter
start_skipping s (text, cr) = record s {
  skipping = true;
  skip_bytes_accumulated = utf8_byte_length text;
  skip_pending_cr = if cr then true else s.skip_pending_cr;
}

-- behind the loop: the tail is kept, or it is too long
unfoldable pub keep_tail : Progress → List SplitLine × Units → Pushed
unfolding start_skipping strip_cr utf8_byte_length
keep_tail p (lines, tail) =
    let returned = result (record { lines = lines; leading_bytes = p.leading_bytes }) in
    let emptied = record p.splitter { buf = [] } in
    if ltb max_buf_bytes (length tail)
    then (if p.splitter.tolerant
        then record {
          outcome = returned;
          splitter = start_skipping emptied (strip_cr tail);
          skipped = p.skipped;
        }
        else record { outcome = overflow; splitter = emptied; skipped = p.skipped })
    else record {
      outcome = returned;
      splitter = record p.splitter { buf = tail };
      skipped = p.skipped;
    }

-- the lines of a call that went through, and of one that returned early
unfoldable pub finish : Stage → Pushed
unfolding keep_tail scan
finish (stop p) = record {
  outcome = result (record { lines = []; leading_bytes = p.leading_bytes });
  splitter = p.splitter;
  skipped = p.skipped;
}
finish (go p) = keep_tail p (scan [] (p.splitter.buf ++ p.rest))

abbrev begin : LineSplitter → Units → Progress
begin s chunk = record { splitter = s; rest = chunk; leading_bytes = 0; skipped = [] }

unfoldable pub push_detailed : LineSplitter → Units → Pushed
unfolding finish late_terminator byte_order_mark skip_terminator skip_line
push_detailed s chunk = finish (do
  p ← late_terminator (begin s chunk)
  q ← byte_order_mark p
  r ← skip_terminator q
  skip_line r)

unfoldable pub reset : LineSplitter → LineSplitter
unfolding new_splitter
reset s = new_splitter s.tolerant

abbrev cr_bytes : Bool → ℕ
cr_bytes b = if b then 1 else 0

-- the state, and the call of the callback
unfoldable pub end_of_input : LineSplitter → LineSplitter × List (ℕ × ℕ)
end_of_input s =
    let dropped = s.skip_bytes_accumulated + cr_bytes s.skip_pending_cr in
    let ended = record s {
      skipping = false;
      skip_bytes_accumulated = 0;
      skip_pending_cr = false;
    } in
    if s.skipping
    then (ended, if ltb 0 dropped && s.tolerant then (dropped, 0) ∷ [] else [])
    else (s, [])

unfoldable pub checkpoint : LineSplitter → LineSplitter × ℕ
checkpoint s =
    if s.skipping
    then (record s { skip_bytes_accumulated = 0 }, s.skip_bytes_accumulated)
    else (s, 0)

finalize : (Units → Bool) → LineSplitter → Units → LineSplitter × List SplitLine
finalize predicate s [] = (s, [])
finalize predicate s (c ∷ buf) =
    let text = c ∷ buf in
    if predicate text
    then (
      record s { buf = []; finalized_at_eof = true },
      record { text = text; byte_length = utf8_byte_length text; terminator_bytes = 0 } ∷ [],
    )
    else (s, [])

unfoldable pub finalize_if : (Units → Bool) → LineSplitter → LineSplitter × List SplitLine
unfolding finalize utf8_byte_length
finalize_if predicate s = finalize predicate s s.buf

unfoldable pub flush : LineSplitter → LineSplitter × List Units
flush s = let left = s.buf in (record s { buf = [] }, elim left [ [] ↦ [] | c ∷ t ↦ (c ∷ t) ∷ [] ])
