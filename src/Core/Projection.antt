-- ===== src/Core/Projection.antt =====
-- packages/core/src/row-projection.ts: the row of an event. The one-line summary is the parameter
-- `summarize`.
pub mod Shows
use Prim.Native.Char.{code}
use Prim.Native.String.{[], ◌∷◌}
use ahp_inspector.Base.{
  ℕ, suc, ◌+◌, String, Bool, true, false, ◌||◌, Option, none, some, if◌then◌else◌, ◌==◌, ltb,
  or_else, str_eq, starts_with, ◌>>=◌,
}
use ahp_inspector.Base.Int.{ℤ, pos, negsuc}
use ahp_inspector.Base.Text.{append, text_length, slice_units, drop_units, strip_prefix_fold, trim}
use ahp_inspector.Shared.Json.{truthy}
use ahp_inspector.Shared.Event.{
  AhpEvent, Direction, c2s, s2c, EventKind, request, response, client_notification,
  server_notification, action, protocol_notification, parse_error, MessageId, ParseErrorDetail,
}
use ahp_inspector.Shared.Correlation.{id_text}
use ahp_inspector.Core.Correlator.{Status, n_a}
use ahp_inspector.Core.Row.{
  EventRow, LatencyBand, fast, normal, slow, critical, KindTag, req, res, ntf, act, bad,
  ActionFamily, text, tool_call, tool_result, unknown,
}
use ahp_inspector.Core.Labels.{
  TextLibrary, format_ts, format_session_short, format_turn_short, payload_preview_of, cap_summary,
}

pub record EventRowExtras : Type 0 where
  pub error_code : Option ℤ
  pub server_seq : Option ℤ
  pub previous_server_seq : Option ℤ
  pub gap_before : Bool
  pub is_auth_failure : Bool
  pub pair_idx : Option ℕ

abbrev pub default_extras : EventRowExtras
default_extras = record {
  error_code = none;
  server_seq = none;
  previous_server_seq = none;
  gap_before = false;
  is_auth_failure = false;
  pair_idx = none;
}

unfoldable pub band_for : Option ℤ → Option LatencyBand
band_for none = none
band_for (some (negsuc n)) = none
band_for (some (pos n)) =
    some (
      if ltb n 50
      then fast
      else if ltb n 200
      then normal
      else if ltb n 1000
      then slow
      else critical)

unfoldable pub dir_glyph_for : Direction → String
dir_glyph_for c2s = "→"
dir_glyph_for s2c = "←"

unfoldable pub kind_tag_for : EventKind → KindTag
kind_tag_for request = req
kind_tag_for response = res
kind_tag_for client_notification = ntf
kind_tag_for server_notification = ntf
kind_tag_for protocol_notification = ntf
kind_tag_for action = act
kind_tag_for parse_error = bad
kind_tag_for EventKind.log = KindTag.log

-- the text begins with the word, in either case
begins : String → String → Bool
unfolding strip_prefix_fold
begins word s = elim (strip_prefix_fold word s) [ none ↦ false | some rest ↦ true ]

is_word : String → String → Bool
unfolding strip_prefix_fold
is_word word s = elim (strip_prefix_fold word s) [ none ↦ false | some rest ↦ str_eq rest "" ]

-- `/^tool[._-]?word/i`
is_tool : String → String → Bool
unfolding begins
is_tool word s =
    begins (append "tool" word) s
    || begins (append "tool." word) s
    || begins (append "tool_" word) s
    || begins (append "tool-" word) s

family_of : Option String → ActionFamily
unfolding is_word is_tool begins
family_of none = unknown
family_of (some t) =
    if is_word "text" t
    then text
    else if is_tool "call" t
    then tool_call
    else if is_tool "result" t
    then tool_result
    else if begins "status" t
    then ActionFamily.status
    else unknown

unfoldable pub action_family_for : EventKind → Option String → Option ActionFamily
unfolding family_of
action_family_for action action_type = some (family_of action_type)
action_family_for _ action_type = none

-- `a ?? b`
abbrev first_of : Option String → Option String → Option String
first_of (some x) y = some x
first_of none y = y

unfoldable pub primary_label_for : EventKind → Option String → Option String → Option String
primary_label_for action method action_type = first_of action_type method
primary_label_for protocol_notification method action_type = first_of action_type method
primary_label_for _ method action_type = first_of method action_type

-- `idStr.slice(0, 12)`
key_id_of : MessageId → Option String
unfolding id_text slice_units truthy
key_id_of MessageId.null = none
key_id_of id = elim (truthy (some (id_text id))) [ none ↦ none | some s ↦ some (slice_units 12 s) ]

reason_of : Option ParseErrorDetail → String
reason_of none = "unknown parse error"
reason_of (some detail) = detail.reason

module _ (lib : TextLibrary) (summarize : AhpEvent → Option String → String) where
  unfoldable pub drop_label_prefix : String → Option String → String
  unfolding truthy drop_units trim
  drop_label_prefix summary label = elim (truthy label) [
    | none ↦ summary
    | some l ↦
        let stripped = trim (drop_units (text_length l) summary) in
        if starts_with (lib.lower summary) (append (lib.lower l) " ")
        then (if str_eq stripped "" then summary else stripped)
        else summary
  ]

  unfoldable pub project_error : AhpEvent → ℕ → EventRow
  unfolding format_ts dir_glyph_for cap_summary reason_of
  project_error event idx = record {
    idx = idx;
    seq = event.seq;
    ts = event.ts;
    ts_fmt = format_ts event.ts;
    dir = event.dir;
    dir_glyph = dir_glyph_for event.dir;
    kind = event.kind;
    kind_tag = bad;
    method = none;
    action_type = none;
    action_family = none;
    session_id = none;
    session_short = none;
    turn_id = none;
    turn_short = none;
    key_id = none;
    status = n_a;
    latency_ms = none;
    latency_band = none;
    payload_preview = "";
    summary = some (cap_summary (summarize event none));
    pair_idx = none;
    parse_error_reason = some (reason_of event.parse_error);
    line_index = some (event.seq + 1);
    error_code = none;
    server_seq = none;
    previous_server_seq = none;
    gap_before = false;
    is_auth_failure = false;
  }

  unfoldable pub project_message :
      AhpEvent → ℕ → Status → Option ℤ → EventRowExtras → Option String → EventRow
  unfolding format_ts dir_glyph_for kind_tag_for action_family_for truthy format_session_short
      format_turn_short key_id_of band_for payload_preview_of cap_summary drop_label_prefix
      primary_label_for
  project_message event idx status latency_ms extras pair_method = record {
    idx = idx;
    seq = event.seq;
    ts = event.ts;
    ts_fmt = format_ts event.ts;
    dir = event.dir;
    dir_glyph = dir_glyph_for event.dir;
    kind = event.kind;
    kind_tag = kind_tag_for event.kind;
    method = event.method;
    action_type = event.action_type;
    action_family = action_family_for event.kind event.action_type;
    session_id = event.session_id;
    session_short = truthy event.session_id >>= (λ s. some (format_session_short lib s));
    turn_id = event.turn_id;
    turn_short = truthy event.turn_id >>= (λ t. some (format_turn_short t));
    key_id = key_id_of event.id;
    status = status;
    latency_ms = latency_ms;
    latency_band = band_for latency_ms;
    payload_preview = payload_preview_of event.raw;
    summary = some (
        cap_summary (
          drop_label_prefix (summarize event pair_method)
            (primary_label_for event.kind event.method event.action_type)));
    pair_idx = extras.pair_idx;
    parse_error_reason = none;
    line_index = none;
    error_code = extras.error_code;
    server_seq = extras.server_seq;
    previous_server_seq = extras.previous_server_seq;
    gap_before = extras.gap_before;
    is_auth_failure = extras.is_auth_failure;
  }

  unfoldable pub project :
      AhpEvent → ℕ → Status → Option ℤ → EventRowExtras → Option String → EventKind → EventRow
  unfolding project_error project_message
  project event idx status latency_ms extras pair_method parse_error = project_error event idx
  project event idx status latency_ms extras pair_method _ =
      project_message event idx status latency_ms extras pair_method

  unfoldable pub project_row :
      AhpEvent → ℕ → Status → Option ℤ → EventRowExtras → Option String → EventRow
  unfolding project
  project_row event idx status latency_ms extras pair_method =
      project event idx status latency_ms extras pair_method event.kind
