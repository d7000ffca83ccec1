-- ===== src/Parser/Extract.antt =====
-- packages/parser/src/extract.ts: best-effort session, turn and tool-call ids out of `params`.
pub mod Found
use ahp_inspector.Base.{String, Option, none, some, List, [], ◌∷◌, ◌++◌, if◌then◌else◌, ◌>>=◌}
use ahp_inspector.Base.Text.{append}
use ahp_inspector.Shared.Json.{Json, arr, items, get, is_object, as_string, truthy}

abbrev params_object : Option Json → Option Json
params_object none = none
params_object (some v) = if is_object (some v) then some v else none

-- `objectChild`, and the same test written out elsewhere
abbrev object_child : Json → String → Option Json
object_child parent key = params_object (get parent key)

-- the items of a batch that are objects
objects_of : List Json → List Json
unfolding is_object
objects_of [] = []
objects_of (x ∷ xs) = if is_object (some x) then x ∷ objects_of xs else objects_of xs

abbrev push : Option Json → List Json
push none = []
push (some v) = v ∷ []

unfoldable pub candidate_objects : Json → List Json
unfolding objects_of is_object get
candidate_objects (arr xs) = objects_of (items xs)
candidate_objects p = p ∷ (push (object_child p "action") ++ push (object_child p "notification"))

-- the first that is there: `if (x) return x`, one after another
abbrev pub first : List (Option String) → Option String
first [] = none
first (none ∷ os) = first os
first (some s ∷ os) = some s

-- `typeof value.key === "string"`, through a child that is an object
abbrev string_in : Option Json → String → Option String
string_in none key = none
string_in (some v) key = as_string (get v key)

abbrev text_at : Json → String → Option String
text_at p key = truthy (as_string (get p key))

abbrev scheme_path : Option String → Option String → Option String
scheme_path (some scheme) (some path) = some (append scheme (append ":" path))
scheme_path _ _ = none

unfoldable pub session_from_object : Json → Option String
unfolding get as_string truthy is_object
session_from_object p = first (
    as_string (get p "session")
    ∷ string_in (object_child p "session") "uri"
    ∷ text_at p "sessionId"
    ∷ text_at p "channel"
    ∷ text_at p "terminal"
    ∷ text_at p "resource"
    ∷ text_at p "external"
    ∷ scheme_path (text_at p "scheme") (text_at p "path")
    ∷ truthy (string_in (object_child p "summary") "resource")
    ∷ [])

unfoldable pub turn_from_object : Json → Option String
unfolding get as_string truthy is_object
turn_from_object p = first (text_at p "turnId" ∷ string_in (object_child p "turn") "id" ∷ [])

-- the loop over the candidates: the first text that is not empty
first_truthy : (Json → Option String) → List Json → Option String
unfolding truthy
first_truthy f [] = none
first_truthy f (c ∷ cs) = first (truthy (f c) ∷ first_truthy f cs ∷ [])

unfoldable pub extract_session_id : Option Json → Option String
unfolding first_truthy session_from_object candidate_objects is_object
extract_session_id params = do
  p ← params_object params
  first_truthy session_from_object (candidate_objects p)

unfoldable pub extract_turn_id : Option Json → Option String
unfolding first_truthy turn_from_object candidate_objects is_object
extract_turn_id params = do
  p ← params_object params
  first_truthy turn_from_object (candidate_objects p)

abbrev nested_tool_call : Option Json → Option String
nested_tool_call none = none
nested_tool_call (some action) =
    first
      (as_string (get action "toolCallId") ∷ string_in (object_child action "toolCall") "id" ∷ [])

unfoldable pub extract_tool_call_id : Option Json → Option String
unfolding get as_string truthy is_object
extract_tool_call_id params = do
  p ← params_object params
  first (
      text_at p "toolCallId"
      ∷ string_in (object_child p "toolCall") "id"
      ∷ nested_tool_call (object_child p "action")
      ∷ [])
