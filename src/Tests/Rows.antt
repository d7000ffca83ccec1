-- ===== src/Tests/Rows.antt =====
-- The selection of rows: a request `ping`, its response, and another request.
use ahp_inspector.Base.{ℕ, String, Option, none, some, List, [], ◌∷◌, ◌==◌, ◌≡◌, refl, false}
use ahp_inspector.Base.Int.{pos}
use ahp_inspector.Shared.Event.{Direction, c2s, s2c, EventKind, request, response}
use ahp_inspector.Core.Correlator.{ok}
use ahp_inspector.Core.Row.{EventRow, req}
use ahp_inspector.Base.Text.{trim}
use ahp_inspector.Ui.Filters.{
  FilterState, empty_filters, app_default_filters, apply_facets_for_rows, select,
  compute_filtered_rows, visible_search_matches, is_filters_empty, is_default_ping_filter,
  passes_default_ping, apply_facets, contains, text_hides,
}
use ahp_inspector.Ui.Filters.Selection.{
  keep, compute_filtered_rows-facets, visible_search_matches-keep,
}

abbrev row_of : ℕ → Direction → EventKind → Option String → Option ℕ → EventRow
row_of idx dir kind method pair_idx = record {
  idx = idx;
  seq = idx;
  ts = pos idx;
  ts_fmt = "00:00:00.000";
  dir = dir;
  dir_glyph = "→";
  kind = kind;
  kind_tag = req;
  method = method;
  action_type = none;
  action_family = none;
  session_id = none;
  session_short = none;
  turn_id = none;
  turn_short = none;
  key_id = some "1";
  status = ok;
  latency_ms = none;
  latency_band = none;
  payload_preview = "";
  summary = none;
  pair_idx = pair_idx;
  parse_error_reason = none;
  line_index = none;
  error_code = none;
  server_seq = none;
  previous_server_seq = none;
  gap_before = false;
  is_auth_failure = false;
}

abbrev pub ping_row : EventRow
ping_row = row_of 0 c2s request (some "ping") (some 1)

abbrev rows : List EventRow
rows =
    ping_row
    ∷ row_of 1 s2c response none (some 0)
    ∷ row_of 2 c2s request (some "initialize") none
    ∷ []

abbrev lower : String → String
lower text = text

default_test : compute_filtered_rows lower rows app_default_filters ≡ 2 ∷ []
unfolding compute_filtered_rows is_filters_empty is_default_ping_filter passes_default_ping select
    trim
default_test = refl

-- responses hidden
abbrev no_responses : FilterState
no_responses = record empty_filters { kind = response ∷ []; method = "ping" ∷ [] }

hidden_test : compute_filtered_rows lower rows no_responses ≡ 2 ∷ []
unfolding compute_filtered_rows is_filters_empty is_default_ping_filter passes_default_ping select
    trim apply_facets_for_rows apply_facets contains text_hides
hidden_test = refl

compute_filtered_rows-facets_example :
    compute_filtered_rows lower rows app_default_filters
    ≡ select (λ row i. apply_facets_for_rows lower rows row app_default_filters) rows 0
compute_filtered_rows-facets_example =
    compute_filtered_rows-facets lower rows app_default_filters refl

visible_search_matches-keep_example :
    visible_search_matches lower rows app_default_filters (some (λ i. i == 2))
    ≡ keep (λ i. i == 2) (compute_filtered_rows lower rows app_default_filters)
visible_search_matches-keep_example =
    visible_search_matches-keep lower rows app_default_filters (λ i. i == 2)
