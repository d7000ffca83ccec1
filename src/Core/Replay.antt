-- ===== src/Core/Replay.antt =====
-- packages/core/src/replay.ts: what a replay keeps, its diagnostics and its map of resources. What
-- packages/protocol exports (a copy of another project's library) is the record `Protocol`. An object
-- that the code shares and changes in place is the entry of the map, changed under its key.
pub mod Decode
pub mod Legacy
pub mod Snapshots
pub mod Apply
pub mod Events
pub mod Run
pub mod Prefix
pub mod Tracking
pub mod Sequence
pub mod Confidence
mod Invariant
pub mod Resources
use ahp_inspector.Base.{
  ℕ, String, Bool, true, false, Option, none, some, List, [], ◌∷◌, ◌++◌, if◌then◌else◌, Map, lookup,
  insert, string_eq, str_eq, map,
}
use ahp_inspector.Base.Int.{ℤ, pos}
use ahp_inspector.Base.Text.{append}
use ahp_inspector.Shared.Json.{
  Json, get, as_record, as_string, Fields, end, field, str, num, obj, null,
}
use ahp_inspector.Shared.Event.{AhpEvent}
use ahp_inspector.Shared.Correlation.{CorrelationKey}

pub data ReplayResourceKind : Type 0 where
  root session chat terminal changeset : ReplayResourceKind
  annotations resource_watch automation automation_run unknown : ReplayResourceKind

pub data ReplayConfidence : Type 0 where
  complete partial unknown : ReplayConfidence

pub data ReplayDiagnosticCode : Type 0 where
  invalid_target_index missing_baseline parse_error unknown_snapshot : ReplayDiagnosticCode
  unknown_action malformed_envelope server_seq_gap : ReplayDiagnosticCode
  server_seq_duplicate server_seq_out_of_order : ReplayDiagnosticCode
  ignored_client_intent reconnect_missing_resource : ReplayDiagnosticCode
  date_now_restore_failed scope_creep_blocked : ReplayDiagnosticCode

pub data Severity : Type 0 where
  info warning error : Severity

pub record ReplayDiagnostic : Type 0 where
  pub code : ReplayDiagnosticCode
  pub severity : Severity
  pub event_idx : ℕ
  pub message : String
  pub details : Option Json

pub record ReplayResourceKey : Type 0 where
  pub kind : ReplayResourceKind
  pub uri : String

pub record ReplayResourceState : Type 0 where
  pub key : ReplayResourceKey
  pub state : Json
  pub baseline_event_idx : ℕ
  pub last_applied_event_idx : ℕ
  pub baseline_from_seq : Option ℤ
  pub last_server_seq : Option ℤ
  pub confidence : ReplayConfidence
  pub diagnostics : List ReplayDiagnostic

pub record ReplayClientIntent : Type 0 where
  pub event_idx : ℕ
  pub ts : ℤ
  pub client_seq : Option ℤ
  pub action_type : Option String
  pub resource : Option ReplayResourceKey
  pub accepted_by_server_seq : Option ℤ

pub record RequestContext : Type 0 where
  pub method : Option String
  pub params : Option Json
  pub event_idx : ℕ

pub record ReplayContext : Type 0 where
  pub resources : Map String ReplayResourceState
  pub requests : Map CorrelationKey RequestContext
  pub intents : List ReplayClientIntent
  pub diagnostics : List ReplayDiagnostic

-- what the code takes from packages/protocol: `Object.hasOwn(ACTION_INTRODUCED_IN, type)`, and the
-- reducers, which return a state and the messages that they log
pub record Protocol : Type 0 where
  pub introduced : String → Bool
  pub reduce : ReplayResourceKind → Json → Json → Json × List String

abbrev pub fresh_context : ReplayContext
fresh_context = record { resources = []; requests = []; intents = []; diagnostics = [] }

abbrev pub kind_text : ReplayResourceKind → String
kind_text root = "root"
kind_text session = "session"
kind_text chat = "chat"
kind_text terminal = "terminal"
kind_text changeset = "changeset"
kind_text annotations = "annotations"
kind_text resource_watch = "resource-watch"
kind_text automation = "automation"
kind_text automation_run = "automation-run"
kind_text ReplayResourceKind.unknown = "unknown"

unfoldable pub resource_map_key : ReplayResourceKey → String
resource_map_key key = append (kind_text key.kind) (append ":" key.uri)

-- `kind === kind`
abbrev pub kind_eq : ReplayResourceKind → ReplayResourceKind → Bool
kind_eq a b = str_eq (kind_text a) (kind_text b)

unfoldable pub add_diagnostic : ReplayContext → ReplayDiagnostic → ReplayContext
add_diagnostic ctx diagnostic = record ctx { diagnostics = ctx.diagnostics ++ diagnostic ∷ [] }

-- the warning for a value of the wrong shape
abbrev pub malformed_envelope_with : ℕ → String → Option Json → ReplayDiagnostic
malformed_envelope_with event_idx message details = record {
  code = malformed_envelope;
  severity = warning;
  event_idx = event_idx;
  message = message;
  details = details;
}

abbrev pub malformed : ReplayContext → ℕ → String → ReplayContext
malformed ctx event_idx message =
    add_diagnostic ctx (malformed_envelope_with event_idx message none)

abbrev pub noted : ReplayResourceState → ReplayDiagnostic → ReplayResourceState
noted resource diagnostic = record resource {
  diagnostics = resource.diagnostics ++ diagnostic ∷ [];
  confidence = elim diagnostic.severity [ info ↦ resource.confidence | _ ↦ partial ];
}

-- the resource of the map, changed in place
abbrev pub put_resource : ReplayContext → ReplayResourceState → ReplayContext
put_resource ctx resource = record ctx {
  resources = insert (resource_map_key resource.key) resource ctx.resources;
}

unfoldable pub add_resource_diagnostic :
    ReplayContext → ReplayResourceState → ReplayDiagnostic → ReplayContext × ReplayResourceState
unfolding add_diagnostic
add_resource_diagnostic ctx resource diagnostic =
    let changed = noted resource diagnostic in
    (add_diagnostic (put_resource ctx changed) diagnostic, changed)

-- an object literal of the details
abbrev pub details_of : List (String × Option Json) → Option Json
details_of entries = some (obj (fields entries))
  where
    fields : List (String × Option Json) → Fields
    fields [] = end
    fields ((key, none) ∷ es) = fields es
    fields ((key, some v) ∷ es) = field key v (fields es)

abbrev pub text_or_null : Option String → Json
text_or_null none = null
text_or_null (some s) = str s
