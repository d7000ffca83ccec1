-- ===== src/Core/Replay/Legacy.antt =====
-- packages/core/src/replay.ts: actions on a session state of the historical shape. A property that is
-- set to `undefined` is not there: it reads as `undefined` either way.
use ahp_inspector.Base.{
  ℕ, ◌+◌, ◌-◌, ◌*◌, ◌/◌, ◌%◌, ◌^◌, String, Bool, Option, none, some, if◌then◌else◌, str_eq, ltb,
  ◌>>=◌, or_else, is_some,
}
use ahp_inspector.Base.Int.{ℤ, pos, negsuc}
use ahp_inspector.Shared.Json.{
  Json, bool, num, str, obj, Fields, end, field, get, as_record, as_string, as_array,
}
use ahp_inspector.Core.Replay.Decode.{action_type_of}

-- `{...fields, [key]: value}`
put_field : String → Json → Fields → Fields
put_field key value end = field key value end
put_field key value (field k v fs) =
    if str_eq k key then field k value fs else field k v (put_field key value fs)

drop_field : String → Fields → Fields
drop_field key end = end
drop_field key (field k v fs) = if str_eq k key then fs else field k v (drop_field key fs)

unfoldable pub set_key : String → Option Json → Json → Json
unfolding put_field drop_field
set_key key (some value) (obj fs) = obj (put_field key value fs)
set_key key none (obj fs) = obj (drop_field key fs)
set_key key value v = v

-- a number as a 32-bit pattern, and back
to_uint32 : ℤ → ℕ
to_uint32 (pos n) = n % 2 ^ 32
to_uint32 (negsuc n) = 2 ^ 32 - 1 - n % 2 ^ 32

to_int32 : ℕ → ℤ
to_int32 n = if ltb n (2 ^ 31) then pos n else negsuc (2 ^ 32 - 1 - n)

-- `set ? status | flag : status & ~flag` at the flag `1 << k`
unfoldable pub with_legacy_status_flag : ℤ → ℕ → Bool → ℤ
unfolding to_uint32 to_int32
with_legacy_status_flag status k set =
    let u = to_uint32 status in
    let cleared = u - u / 2 ^ k % 2 * 2 ^ k in to_int32 (if set then cleared + 2 ^ k else cleared)

-- `summary: {...state.summary, ...}`
in_summary : (Json → Json) → Json → Json
in_summary f state = elim (get state "summary") [
  | none ↦ state
  | some summary ↦ set_key "summary" (some (f summary)) state
]

flag_set : ℕ → Bool → Json → Json
flag_set k set summary = elim (get summary "status") [
  | some (num status) ↦ set_key "status" (some (num (with_legacy_status_flag status k set))) summary
  | _ ↦ summary
]

-- `value === undefined || ok(value)`, and the property is set to the value
set_if : (Json → Bool) → String → Option Json → Json → Option Json
set_if ok key none state = some (set_key key none state)
set_if ok key (some v) state = if ok v then some (set_key key (some v) state) else none

is_text : Json → Bool
is_text v = is_some (as_string (some v))

is_list : Json → Bool
is_list v = is_some (as_array (some v))

is_record : Json → Bool
is_record v = is_some (as_record (some v))

-- the same with the property of the summary
summary_if : (Json → Bool) → String → Option Json → Json → Option Json
summary_if ok key none state = some (in_summary (set_key key none) state)
summary_if ok key (some v) state =
    if ok v then some (in_summary (set_key key (some v)) state) else none

require_list : String → Option Json → Json → Option Json
require_list key value state = do
  v ← value
  if is_list v then some (set_key key (some v) state) else none

read_flag : ℕ → Option Json → Json → Option Json
read_flag k (some (bool b)) state = some (in_summary (flag_set k b) state)
read_flag k _ state = none

retitled : ℤ → Option Json → Json → Option Json
retitled event_ts title state = do
  text ← as_string title
  some (
      in_summary
        (λ summary.
          set_key "modifiedAt" (some (num event_ts)) (set_key "title" (some (str text)) summary))
        state)

unfoldable pub apply_legacy_session_action : Json → Json → ℤ → Option Json
unfolding in_summary set_if summary_if require_list read_flag retitled flag_set is_text is_list
    is_record
apply_legacy_session_action state action event_ts =
    let type = or_else (action_type_of (some action)) "" in
    let value : String → Option Json = get action in
    if str_eq type "session/ready"
    then some (
        in_summary (set_key "status" (some (num (pos 1))))
          (set_key "lifecycle" (some (str "ready")) state))
    else if str_eq type "session/creationFailed"
    then some (
        set_key "creationError" (value "error")
          (set_key "lifecycle" (some (str "creationFailed")) state))
    else if str_eq type "session/titleChanged"
    then retitled event_ts (value "title") state
    else if str_eq type "session/isReadChanged"
    then read_flag 5 (value "isRead") state
    else if str_eq type "session/isArchivedChanged"
    then read_flag 6 (value "isArchived") state
    else if str_eq type "session/activityChanged"
    then summary_if is_text "activity" (value "activity") state
    else if str_eq type "session/serverToolsChanged"
    then require_list "serverTools" (value "tools") state
    else if str_eq type "session/customizationsChanged"
    then require_list "customizations" (value "customizations") state
    else if str_eq type "session/changesetsChanged"
    then summary_if is_list "changesets" (value "changesets") state
    else if str_eq type "session/metaChanged"
    then set_if is_record "_meta" (value "_meta") state
    else none
