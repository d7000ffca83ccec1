-- ===== src/Core/Labels.antt =====
-- packages/core/src/row-projection.ts: the short forms of times, ids and texts that a row shows. What
-- the JavaScript library does to texts (`toLowerCase`, `atob`, `decodeURIComponent`, `JSON.parse`,
-- `Date.parse`) is a `TextLibrary`; `none` stands for an exception or a NaN.
use Prim.Native.Char.{Char, code}
use Prim.Native.String.{[], ◌∷◌}
use ahp_inspector.Base.{
  ℕ, ◌-◌, ◌/◌, ◌%◌, String, Bool, true, false, not, ◌&&◌, ◌||◌, Option, none, some, if◌then◌else◌,
  ◌==◌, ltb, leb, or_else, str_eq,
}
use ahp_inspector.Base.Int.{ℤ, pos, negsuc}
use ahp_inspector.Base.Text.{
  append, digit, text_length, slice_units, drop_units, collapse_blanks, strip_prefix,
  strip_prefix_fold, last_part,
}
use ahp_inspector.Shared.Json.{Json, null, get, as_string}
use ahp_inspector.Shared.Stringify.{stringify}

pub record TextLibrary : Type 0 where
  pub lower : String → String
  pub decode_base64 : String → Option String
  pub decode_uri : String → Option String
  pub parse_json : String → Option Json
  pub parse_date : String → Option ℤ

pad2 : ℕ → String → String
unfolding digit
pad2 n rest = digit (n / 10 % 10) ∷ digit (n % 10) ∷ rest

pad3 : ℕ → String → String
unfolding digit
pad3 n rest = digit (n / 100 % 10) ∷ digit (n / 10 % 10) ∷ digit (n % 10) ∷ rest

-- milliseconds since midnight UTC
abbrev pub ms_of_day : ℤ → ℕ
ms_of_day (pos n) = n % 86_400_000
ms_of_day (negsuc n) = 86_399_999 - n % 86_400_000

unfoldable pub format_ts : ℤ → String
unfolding pad2 pad3
format_ts ts =
    let ms = ms_of_day ts in
    pad2 (ms / 3_600_000)
      (":" ∷ pad2 (ms / 60_000 % 60) (":" ∷ pad2 (ms / 1000 % 60) ("." ∷ pad3 (ms % 1000) [])))

abbrev is_digit : Char → Bool
is_digit c = leb b'0' (code c) && leb (code c) b'9'

-- `[0-9a-f]`, in either case
abbrev is_hex : Char → Bool
is_hex c =
    is_digit c
    || (leb b'a' (code c) && leb (code c) b'f')
    || (leb b'A' (code c) && leb (code c) b'F')

abbrev is_dash : Char → Bool
is_dash c = code c == b'-' || code c == b'_'

-- the whole text is `[-_]\d{4}[-_]\d{2}[-_]\d{2}`
is_date_suffix : String → Bool
is_date_suffix (a ∷ y1 ∷ y2 ∷ y3 ∷ y4 ∷ b ∷ m1 ∷ m2 ∷ c ∷ d1 ∷ d2 ∷ []) =
    is_dash a
    && is_digit y1
    && is_digit y2
    && is_digit y3
    && is_digit y4
    && is_dash b
    && is_digit m1
    && is_digit m2
    && is_dash c
    && is_digit d1
    && is_digit d2
is_date_suffix _ = false

strip_date : String → String
unfolding is_date_suffix
strip_date [] = []
strip_date (c ∷ s) = let rest = strip_date s in if is_date_suffix (c ∷ s) then [] else c ∷ rest

-- `/^word[-_:]?/i` taken off
strip_word : String → String → String
unfolding strip_prefix_fold
strip_word word s = elim (strip_prefix_fold word s) [ none ↦ s | some rest ↦ strip_mark rest ]
  where
    strip_mark : String → String
    strip_mark [] = []
    strip_mark (c ∷ s) = if is_dash c || code c == b':' then s else c ∷ s

all_hex : String → Bool
all_hex [] = true
all_hex (c ∷ s) = is_hex c && all_hex s

-- eight digits in front of `-xxxx-`, as a UUID has them
is_uuid : String → Bool
unfolding all_hex
is_uuid (a ∷ b ∷ c ∷ d ∷ e ∷ f ∷ g ∷ h ∷ i ∷ j ∷ k ∷ l ∷ m ∷ n ∷ s) =
    all_hex (a ∷ b ∷ c ∷ d ∷ e ∷ f ∷ g ∷ h ∷ [])
    && code i == b'-'
    && all_hex (j ∷ k ∷ l ∷ m ∷ [])
    && code n == b'-'
is_uuid _ = false

-- what is left of the last segment
shorten : String → String
unfolding all_hex is_uuid text_length slice_units drop_units
shorten label =
    if all_hex label && leb 16 (text_length label)
    then drop_units (text_length label - 8) label
    else if is_uuid label
    then slice_units 8 label
    else if leb (text_length label) 18
    then label
    else append (slice_units 17 label) "…"

unfoldable pub shorten_id_label : String → String → String
unfolding last_part strip_word strip_date shorten
shorten_id_label id word =
    let label = or_else (last_part (λ c. c == b'/' || c == b':') id) id in
    shorten (strip_date (strip_word word label))

unfoldable pub format_turn_short : String → String
unfolding shorten_id_label
format_turn_short turn_id = shorten_id_label turn_id "turn"

-- what stands behind the first slash
behind_slash : String → Option String
behind_slash [] = none
behind_slash (c ∷ s) = let rest = behind_slash s in if code c == b'/' then some s else rest

no_line_end : String → Bool
no_line_end [] = true
no_line_end (c ∷ s) =
    not (code c == 10 || code c == 13 || code c == 0x2028 || code c == 0x2029) && no_line_end s

-- `match[1]` of the resource watch channel
watch_payload : String → Option String
unfolding strip_prefix behind_slash no_line_end
watch_payload id = elim (strip_prefix "ahp-resource-watch://" id) [
  | none ↦ none
  | some rest ↦ elim (behind_slash rest) [
    | none ↦ none
    | some payload ↦ if not (str_eq payload "") && no_line_end payload then some payload else none
  ]
]

-- `-` and `_` of base64url
base64 : String → String
base64 [] = []
base64 (c ∷ s) = (if code c == b'-' then "+" else if code c == b'_' then "/" else c) ∷ base64 s

-- `a ?? b`, where `null` counts as missing
abbrev pub present : Option Json → Option Json → Option Json
present (some null) y = y
present none y = y
present x y = x

-- `parsed.root ?? parsed.uri ?? parsed.resource`, as a text; `null` has no properties
watched_root : Json → Option String
unfolding get as_string
watched_root v = as_string (present (get v "root") (present (get v "uri") (get v "resource")))

watch_label : String → String
unfolding text_length slice_units
watch_label name =
    append "watch:" (if leb (text_length name) 24 then name else append (slice_units 23 name) "…")

module _ (lib : TextLibrary) where
  name_of_root : String → Option String
  unfolding last_part watch_label
  name_of_root root =
      elim (lib.decode_uri (or_else (last_part (λ c. c == b'/' || c == b'\\') root) root)) [
        | none ↦ none
        | some name ↦ some (watch_label name)
      ]

  root_of_payload : String → Option String
  unfolding base64 watched_root
  root_of_payload payload = elim (lib.decode_base64 (base64 payload)) [
    | none ↦ none
    | some json ↦ elim (lib.parse_json json) [ none ↦ none | some v ↦ watched_root v ]
  ]

  unfoldable pub format_resource_watch_channel : String → Option String
  unfolding watch_payload root_of_payload name_of_root
  format_resource_watch_channel session_id = elim (watch_payload session_id) [
    | none ↦ none
    | some payload ↦ elim (root_of_payload payload) [ none ↦ none | some root ↦ name_of_root root ]
  ]

  unfoldable pub format_session_short : String → String
  unfolding format_resource_watch_channel shorten_id_label
  format_session_short session_id =
      or_else (format_resource_watch_channel session_id) (shorten_id_label session_id "session")

-- what the preview prints: the parameters, the result, or the whole
preview_source : Json → Json
unfolding get
preview_source v = or_else (present (get v "params") (present (get v "result") (some v))) v

unfoldable pub payload_preview_of : Option Json → String
unfolding preview_source stringify collapse_blanks slice_units
payload_preview_of none = ""
payload_preview_of (some null) = ""
payload_preview_of (some v) = slice_units 120 (collapse_blanks (stringify (preview_source v)))

unfoldable pub cap_summary : String → String
unfolding text_length slice_units
cap_summary s = if ltb 160 (text_length s) then append (slice_units 159 s) "…" else s
