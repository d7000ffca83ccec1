-- ===== src/Parser/Normalizer.antt =====
-- packages/parser/src/normalizer.ts: one JSON-RPC message to one event, without a throw.
pub mod Shapes
use ahp_inspector.Base.{
  String, Option, none, some, Bool, true, false, ◌&&◌, ◌||◌, if◌then◌else◌, is_some, str_eq, ◌>>=◌,
}
use ahp_inspector.Base.Int.{ℤ}
use ahp_inspector.Shared.Json.{
  Json, num, str, null, get, has, is_object, as_record, as_string, as_number,
}
use ahp_inspector.Shared.Stringify.{stringify}
use ahp_inspector.Shared.Event.{
  AhpEvent, NormalizeMeta, Direction, c2s, s2c, EventKind, MessageId, ParseStatus, id_type_of,
}
use ahp_inspector.Shared.ParseError.{make_parse_error_event}
use ahp_inspector.Parser.Extract.{extract_session_id, extract_turn_id, extract_tool_call_id}

unfoldable pub coerce_id : Option Json → MessageId
coerce_id (some (num n)) = MessageId.num n
coerce_id (some (str s)) = MessageId.str s
coerce_id _ = MessageId.null

-- what the discrimination sets
pub record Shape : Type 0 where
  pub kind : EventKind
  pub action_type : Option String
  pub server_seq : Option ℤ

abbrev plain : EventKind → Shape
plain kind = record { kind = kind; action_type = none; server_seq = none }

-- `params?.child`, as a record
abbrev child_record : Option Json → String → Option Json
child_record none key = none
child_record (some v) key = as_record (get v key)

abbrev type_of : Option Json → Option String
type_of none = none
type_of (some v) = as_string (get v "type")

abbrev number_of : Option Json → String → Option ℤ
number_of none key = none
number_of (some v) key = as_number (get v key)

abbrev is_s2c : Direction → Bool
is_s2c s2c = true
is_s2c c2s = false

notification_shape : Json → String → Direction → Shape
unfolding get as_record as_string as_number
notification_shape m method dir =
    let params = as_record (get m "params") in
    if str_eq method "action" && is_s2c dir
    then record {
      kind = EventKind.action;
      action_type = type_of (child_record params "action");
      server_seq = number_of params "serverSeq";
    }
    else if str_eq method "notification" && is_s2c dir
    then record {
      kind = EventKind.protocol_notification;
      action_type = type_of (child_record params "notification");
      server_seq = none;
    }
    else plain (if is_s2c dir then EventKind.server_notification else EventKind.client_notification)

-- the `if` ladder over `hasMethod`, `hasId`, `hasResult` and `hasError`; `none` is its last branch
shape_of : Json → Option String → Direction → Option Shape
unfolding notification_shape
shape_of m (some method) dir =
    if has m "id" then some (plain EventKind.request) else some (notification_shape m method dir)
shape_of m none dir =
    if has m "id" && (has m "result" || has m "error")
    then some (plain EventKind.response)
    else none

build : Json → NormalizeMeta → Option String → Option Shape → AhpEvent
unfolding coerce_id id_type_of make_parse_error_event
build m meta method none = make_parse_error_event meta "unrecognised JSON-RPC shape" (stringify m)
build m meta method (some shape) =
    let id = coerce_id (get m "id") in
    let params = get m "params" in
    record {
      seq = meta.seq;
      ts = meta.ts;
      ts_raw = meta.ts_raw;
      dir = meta.dir;
      kind = shape.kind;
      method = method;
      action_type = shape.action_type;
      id = id;
      id_type = id_type_of id;
      session_id = extract_session_id params;
      turn_id = extract_turn_id params;
      tool_call_id = extract_tool_call_id params;
      server_seq = shape.server_seq;
      byte_offset = meta.byte_offset;
      byte_length = meta.byte_length;
      raw = some m;
      parse = ParseStatus.ok;
      parse_error = none;
    }

unfoldable pub normalize : Json → NormalizeMeta → AhpEvent
unfolding build shape_of is_object as_string get make_parse_error_event
normalize raw meta =
    let method = as_string (get raw "method") in
    if is_object (some raw)
    then build raw meta method (shape_of raw method meta.dir)
    else make_parse_error_event meta "non-object payload" (stringify raw)
