-- ===== src/Parser/Line.antt =====
-- packages/parser/src/jsonl.ts (`parseLine`) and packages/parser/src/wire-meta.ts. `JSON.parse` is the
-- parameter `parse_json`: a value, or the message of the exception.
use ahp_inspector.Base.{
  ℕ, String, Bool, true, ◌&&◌, Option, none, some, [], ◌∷◌, ◌⊎◌, inl, inr, if◌then◌else◌, str_eq,
}
use ahp_inspector.Base.Int.{ℤ}
use ahp_inspector.Base.Text.{is_space}
use ahp_inspector.Shared.Json.{Json, get, is_object, as_string, truthy}
use ahp_inspector.Shared.Event.{Direction, c2s, s2c}
use ahp_inspector.Parser.SplitLines.{Units}

pub record ParsedLine : Type 0 where
  pub raw : Option Json
  pub text : Units
  pub byte_offset : ℕ
  pub byte_length : ℕ
  pub error : Option String

-- `/^\s*$/`
is_blank : Units → Bool
is_blank [] = true
is_blank (c ∷ s) = is_space c && is_blank s

abbrev parsed_line : Units → ℕ → ℕ → Option Json → Option String → ParsedLine
parsed_line text byte_offset byte_length raw error = record {
  raw = raw;
  text = text;
  byte_offset = byte_offset;
  byte_length = byte_length;
  error = error;
}

unfoldable pub parse_line : (Units → Json ⊎ String) → Units → ℕ → ℕ → ParsedLine
unfolding is_blank
parse_line parse_json text byte_offset byte_length =
    let line = parsed_line text byte_offset byte_length in
    let parsed : ParsedLine = elim (parse_json text) [
      | inl v ↦ line (some v) none
      | inr message ↦ line none (some message)
    ] in
    if is_blank text then line none (some "empty-line") else parsed

pub record WireMeta : Type 0 where
  pub ts : ℤ
  pub ts_raw : String
  pub dir : Option Direction

wire_dir : Option String → Option Direction
wire_dir none = none
wire_dir (some d) = if str_eq d "c2s" then some c2s else if str_eq d "s2c" then some s2c else none

-- the sidecar, `raw._ahpLog`
wire_of : (String → Option ℤ) → Option Json → Option WireMeta
unfolding get as_string truthy wire_dir
wire_of parse_date none = none
wire_of parse_date (some log) = elim (truthy (as_string (get log "ts"))) [
  | none ↦ none
  | some ts_raw ↦ elim (parse_date ts_raw) [
    | none ↦ none
    | some ts ↦
        some (record { ts = ts; ts_raw = ts_raw; dir = wire_dir (as_string (get log "dir")) })
  ]
]

unfoldable pub extract_wire_meta : (String → Option ℤ) → Json → Option WireMeta
unfolding wire_of get is_object
extract_wire_meta parse_date raw =
    if is_object (get raw "_ahpLog") then wire_of parse_date (get raw "_ahpLog") else none
