-- ===== src/Core/Row.antt =====
-- packages/core/src/row-projection.ts: the row that stands for an event on the client, and the tags
-- that depend on one field.
use ahp_inspector.Base.{ℕ, String, Bool, Option, ◌==◌, ◌≡◌, ◌↔◌, true, arith, Eq}
use ahp_inspector.Base.Int.{ℤ}
use ahp_inspector.Shared.Event.{
  Direction, EventKind, request, response, client_notification, server_notification, action,
  protocol_notification, parse_error,
}
use ahp_inspector.Core.Correlator.{Status, ok, error, pending, unmatched, orphan, n_a}

pub data LatencyBand : Type 0 where
  fast normal slow critical : LatencyBand

pub data KindTag : Type 0 where
  req res ntf act bad log : KindTag

pub data ActionFamily : Type 0 where
  text tool_call tool_result status unknown : ActionFamily

pub record EventRow : Type 0 where
  pub idx : ℕ
  pub seq : ℕ
  pub ts : ℤ
  pub ts_fmt : String
  pub dir : Direction
  pub dir_glyph : String
  pub kind : EventKind
  pub kind_tag : KindTag
  pub method : Option String
  pub action_type : Option String
  pub action_family : Option ActionFamily
  pub session_id : Option String
  pub session_short : Option String
  pub turn_id : Option String
  pub turn_short : Option String
  pub key_id : Option String
  pub status : Status
  pub latency_ms : Option ℤ
  pub latency_band : Option LatencyBand
  pub payload_preview : String
  pub summary : Option String
  pub pair_idx : Option ℕ
  pub parse_error_reason : Option String
  pub line_index : Option ℕ
  pub error_code : Option ℤ
  pub server_seq : Option ℤ
  pub previous_server_seq : Option ℤ
  pub gap_before : Bool
  pub is_auth_failure : Bool

abbrev pub status_rank : Status → ℕ
status_rank ok = 0
status_rank error = 1
status_rank pending = 2
status_rank unmatched = 3
status_rank orphan = 4
status_rank n_a = 5

pub status_rank_iff : (a b : Status) → ((status_rank a == status_rank b) ≡ true) ↔ (a ≡ b)
status_rank_iff a b = ground arith

instance abbrev pub status_eq : Eq Status
status_eq = record { beq = λ a b. status_rank a == status_rank b; beq_iff = status_rank_iff }

abbrev pub kind_text : EventKind → String
kind_text request = "request"
kind_text response = "response"
kind_text client_notification = "client-notification"
kind_text server_notification = "server-notification"
kind_text action = "action"
kind_text protocol_notification = "protocol-notification"
kind_text EventKind.log = "log"
kind_text parse_error = "parse-error"

abbrev pub status_text : Status → String
status_text ok = "ok"
status_text error = "error"
status_text pending = "pending"
status_text unmatched = "unmatched"
status_text orphan = "orphan"
status_text n_a = "n/a"
