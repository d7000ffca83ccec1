-- ===== src/Shared/ParseError.antt =====
-- packages/shared/src/parse-error.ts: the event that stands for a line which cannot be read. Its
-- text is cut at a byte budget: `TextEncoder`, `slice`, `TextDecoder`. A character that the cut
-- splits is decoded as U+FFFD, and a byte order mark in front is dropped, as the decoder does.
use Prim.Native.Char.{Char, code}
use Prim.Native.String.{[], ◌∷◌}
use ahp_inspector.Base.{
  ℕ, ◌+◌, ◌-◌, ◌*◌, ◌≤◌, String, none, some, ◌≡◌, ltb, leb, ◌==◌, if◌then◌else◌, arith, Bool-cases,
  inl, inr,
}
use ahp_inspector.Shared.Event.{AhpEvent, NormalizeMeta, EventKind, IdType, MessageId, ParseStatus}

abbrev pub max_raw_text_bytes : ℕ
max_raw_text_bytes = 8 * 1024

-- bytes of a character in UTF-8
abbrev width : Char → ℕ
width c =
    if ltb (code c) 128
    then 1
    else if ltb (code c) 2048
    then 2
    else if ltb (code c) 65536
    then 3
    else 4

abbrev pub utf8_length : String → ℕ
utf8_length [] = 0
utf8_length (c ∷ s) = width c + utf8_length s

-- `decode(bytes.slice(0, n))`
unfoldable pub clip : ℕ → String → String
clip n [] = []
clip n (c ∷ s) =
    let rest = clip (n - width c) s in
    if leb (width c) n then c ∷ rest else if n == 0 then [] else "�" ∷ []

strip_bom : String → String
strip_bom [] = []
strip_bom (c ∷ s) = if code c == 65279 then s else c ∷ s

unfoldable pub capped : String → String
unfolding clip strip_bom
capped raw_text =
    if ltb max_raw_text_bytes (utf8_length raw_text)
    then strip_bom (clip max_raw_text_bytes raw_text)
    else raw_text

unfoldable pub make_parse_error_event : NormalizeMeta → String → String → AhpEvent
make_parse_error_event meta reason raw_text = record {
  seq = meta.seq;
  ts = meta.ts;
  ts_raw = meta.ts_raw;
  dir = meta.dir;
  kind = EventKind.parse_error;
  method = none;
  action_type = none;
  id = MessageId.null;
  id_type = IdType.null;
  session_id = none;
  turn_id = none;
  tool_call_id = none;
  server_seq = none;
  byte_offset = meta.byte_offset;
  byte_length = meta.byte_length;
  raw = none;
  parse = ParseStatus.error;
  parse_error = some (record { reason = reason; raw_text = capped raw_text });
}

-- U+FFFD takes three bytes, for at least one byte left
replacement_bound : (n : ℕ) → utf8_length (if n == 0 then [] else "�" ∷ []) ≤ n + 2
replacement_bound n = elim (Bool-cases (n == 0)) [
  | inl e ↦ rw e (omega arith)
  | inr e ↦ rw e (ground arith)
]

clip_bound : (n : ℕ) (s : String) → utf8_length (clip n s) ≤ n + 2
unfolding clip
clip_bound n [] = omega arith
clip_bound n (c ∷ s) = elim (Bool-cases (leb (width c) n)) [
  | inl fits ↦ rw fits (ground (arith, clip_bound (n - width c) s))
  | inr cut ↦ rw cut (replacement_bound n)
]

strip_bom_bound : (s : String) → utf8_length (strip_bom s) ≤ utf8_length s
unfolding strip_bom
strip_bom_bound [] = omega arith
strip_bom_bound (c ∷ s) = ground arith

-- The text kept on a parse error is the whole text, if that takes at most 8192 bytes, and otherwise
-- takes at most 8194.
pub capped_bound :
    (s : String)
    → (utf8_length s ≤ max_raw_text_bytes → capped s ≡ s)
      × (utf8_length (capped s) ≤ max_raw_text_bytes + 2)
unfolding capped
capped_bound s = (
  λ h. ground arith,
  ground (arith, clip_bound max_raw_text_bytes s, strip_bom_bound (clip max_raw_text_bytes s)),
)
