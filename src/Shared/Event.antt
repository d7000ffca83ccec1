-- ===== src/Shared/Event.antt =====
-- packages/shared/src/event.ts: the canonical event envelope.
use ahp_inspector.Base.{ℕ, String, Option}
use ahp_inspector.Base.Int.{ℤ}
use ahp_inspector.Shared.Json.{Json}

pub data Direction : Type 0 where
  c2s s2c : Direction

pub data EventKind : Type 0 where
  request response client_notification server_notification : EventKind
  action protocol_notification log parse_error : EventKind

pub data ParseStatus : Type 0 where
  ok error : ParseStatus

pub data IdType : Type 0 where
  number string null : IdType

-- `number | string | null`
pub data MessageId : Type 0 where
  num : ℤ → MessageId
  str : String → MessageId
  null : MessageId

pub record ParseErrorDetail : Type 0 where
  pub reason : String
  pub raw_text : String

pub record AhpEvent : Type 0 where
  pub seq : ℕ
  pub ts : ℤ
  pub ts_raw : String
  pub dir : Direction
  pub kind : EventKind
  pub method : Option String
  pub action_type : Option String
  pub id : MessageId
  pub id_type : IdType
  pub session_id : Option String
  pub turn_id : Option String
  pub tool_call_id : Option String
  pub server_seq : Option ℤ
  pub byte_offset : ℕ
  pub byte_length : ℕ
  pub raw : Option Json
  pub parse : ParseStatus
  pub parse_error : Option ParseErrorDetail

pub record NormalizeMeta : Type 0 where
  pub seq : ℕ
  pub dir : Direction
  pub ts : ℤ
  pub ts_raw : String
  pub byte_offset : ℕ
  pub byte_length : ℕ

-- `id === null ? "null" : typeof id === "number" ? "number" : "string"`
unfoldable pub id_type_of : MessageId → IdType
id_type_of null = IdType.null
id_type_of (num n) = number
id_type_of (str s) = string
