-- ===== src/Shared/Stringify.antt =====
-- `JSON.stringify` at a parsed value: no white space, keys in order, the escapes of the standard.
use Prim.Native.Char.{Char, code}
use Prim.Native.String.{[], ◌∷◌}
use ahp_inspector.Base.{ℕ, ◌/◌, ◌%◌, String, true, false, ltb, ◌==◌, if◌then◌else◌}
use ahp_inspector.Base.Text.{append, digit, show}
use ahp_inspector.Shared.Json.{Json, num, str, bool, arr, obj, Items, nil, cons, Fields, end, field}

hex : ℕ → Char
unfolding digit
hex n =
    if n == 10
    then "a"
    else if n == 11
    then "b"
    else if n == 12
    then "c"
    else if n == 13
    then "d"
    else if n == 14
    then "e"
    else if n == 15
    then "f"
    else digit n

-- one character of a quoted text, in front of the rest
escape : Char → String → String
unfolding hex
escape c rest =
    let n = code c in
    if n == 34
    then "\\" ∷ "\"" ∷ rest
    else if n == 92
    then "\\" ∷ "\\" ∷ rest
    else if n == 8
    then "\\" ∷ "b" ∷ rest
    else if n == 9
    then "\\" ∷ "t" ∷ rest
    else if n == 10
    then "\\" ∷ "n" ∷ rest
    else if n == 12
    then "\\" ∷ "f" ∷ rest
    else if n == 13
    then "\\" ∷ "r" ∷ rest
    else if ltb n 32
    then append "\\u00" (hex (n / 16) ∷ hex (n % 16) ∷ rest)
    else c ∷ rest

escaped : String → String → String
escaped [] rest = rest
escaped (c ∷ s) rest = escape c (escaped s rest)

quote : String → String → String
unfolding escaped escape
quote s rest = "\"" ∷ escaped s ("\"" ∷ rest)

unfoldable mutual
  unfolding quote show

  stringify_before : Json → String → String
  stringify_before Json.null rest = append "null" rest
  stringify_before (bool true) rest = append "true" rest
  stringify_before (bool false) rest = append "false" rest
  stringify_before (num n) rest = append (show n) rest
  stringify_before (str s) rest = quote s rest
  stringify_before (arr xs) rest = "[" ∷ stringify_items xs rest
  stringify_before (obj fs) rest = "{" ∷ stringify_fields fs rest

  stringify_items : Items → String → String
  stringify_items nil rest = "]" ∷ rest
  stringify_items (cons x nil) rest = stringify_before x ("]" ∷ rest)
  stringify_items (cons x (cons y xs)) rest =
      stringify_before x ("," ∷ stringify_items (cons y xs) rest)

  stringify_fields : Fields → String → String
  stringify_fields end rest = "}" ∷ rest
  stringify_fields (field k v end) rest = quote k (":" ∷ stringify_before v ("}" ∷ rest))
  stringify_fields (field k v (field j w fs)) rest =
      quote k (":" ∷ stringify_before v ("," ∷ stringify_fields (field j w fs) rest))

unfoldable pub stringify : Json → String
unfolding stringify_before stringify_items stringify_fields
stringify v = stringify_before v []
