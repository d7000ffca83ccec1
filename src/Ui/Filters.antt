-- ===== src/Ui/Filters.antt =====
-- packages/ui/src/state/filters.ts, and the selection of rows of selectors.ts. A filter lists what is
-- hidden. `toLowerCase` is the parameter `lower`; the cut of a typed text at 256 units leaves a
-- character out that it would halve.
pub mod Selection
use ahp_inspector.Base.{
  ℕ, suc, ◌+◌, ◌-◌, String, str_eq, Bool, true, false, not, ◌&&◌, ◌||◌, Option, none, some, List,
  [], ◌∷◌, ◌==◌, if◌then◌else◌, is_some, is_none, ltb, leb, Eq, string_eq, get_elem?, ◌>>=◌,
}
use ahp_inspector.Base.Int.{ℤ, ltb_ℤ}
use ahp_inspector.Base.Text.{append, includes, trim, slice_units}
use ahp_inspector.Shared.Event.{Direction, EventKind}
use ahp_inspector.Shared.Correlation.{dir_text}
use ahp_inspector.Core.Store.{kind_eq, dir_eq}
use ahp_inspector.Core.Correlator.{Status}
use ahp_inspector.Core.Row.{EventRow, status_eq, kind_text, status_text}

pub record FilterState : Type 0 where
  pub direction : List Direction
  pub kind : List EventKind
  pub method : List String
  pub action_type : List String
  pub session : List String
  pub turn : List String
  pub status : List Status
  pub row_text : String
  pub time_from : Option ℤ
  pub time_to : Option ℤ

abbrev pub empty_filters : FilterState
empty_filters = record {
  direction = [];
  kind = [];
  method = [];
  action_type = [];
  session = [];
  turn = [];
  status = [];
  row_text = "";
  time_from = none;
  time_to = none;
}

abbrev pub app_default_filters : FilterState
app_default_filters = record empty_filters { method = "ping" ∷ [] }

-- `xs.length === 0`
abbrev pub is_empty {ℓ} : {A : Type ℓ} → List A → Bool
is_empty [] = true
is_empty (x ∷ xs) = false

-- `xs.includes(x)`
unfoldable pub contains {ℓ} : {A : Type ℓ} ⦃e : Eq A⦄ → List A → A → Bool
contains [] x = false
contains ⦃e⦄ (y ∷ ys) x = e.beq y x || contains ys x

unfoldable pub is_filters_empty : FilterState → Bool
unfolding trim
is_filters_empty f =
    is_empty f.direction
    && is_empty f.kind
    && is_empty f.method
    && is_empty f.action_type
    && is_empty f.session
    && is_empty f.turn
    && is_empty f.status
    && str_eq (trim f.row_text) ""
    && is_none f.time_from
    && is_none f.time_to

-- `parts.filter((part) => part !== null && part !== undefined).join(" ")`
join_present : List (Option String) → Option String
join_present [] = none
join_present (none ∷ parts) = join_present parts
join_present (some part ∷ parts) = elim (join_present parts) [
  | none ↦ some part
  | some rest ↦ some (append part (append " " rest))
]

abbrev text_of : Option String → String
text_of none = ""
text_of (some s) = s

projected_text : EventRow → String
unfolding join_present
projected_text row = text_of (
    join_present (
      row.key_id
      ∷ some row.ts_fmt
      ∷ some (dir_text row.dir)
      ∷ some (kind_text row.kind)
      ∷ row.method
      ∷ row.action_type
      ∷ row.session_id
      ∷ row.session_short
      ∷ row.turn_id
      ∷ row.turn_short
      ∷ some (status_text row.status)
      ∷ some row.payload_preview
      ∷ row.summary
      ∷ row.parse_error_reason
      ∷ []))

-- a dimension that hides the row
abbrev hides {ℓ} : {A : Type ℓ} ⦃e : Eq A⦄ → List A → A → Bool
hides xs x = not (is_empty xs) && contains xs x

abbrev hides_some : List String → Option String → Bool
hides_some xs none = false
hides_some xs (some x) = not (is_empty xs) && contains xs x

unfoldable pub text_hides : (String → String) → String → EventRow → Bool
unfolding projected_text slice_units trim includes
text_hides lower row_text row =
    let wanted = lower (slice_units 256 (trim row_text)) in
    not (str_eq row_text "")
    && (not (str_eq wanted "") && not (includes (lower (projected_text row)) wanted))

abbrev before : Option ℤ → ℤ → Bool
before none ts = false
before (some from) ts = ltb_ℤ ts from

abbrev after : Option ℤ → ℤ → Bool
after none ts = false
after (some to) ts = ltb_ℤ to ts

unfoldable pub apply_facets : (String → String) → EventRow → FilterState → Bool
unfolding text_hides contains
apply_facets lower row f =
    if hides f.direction row.dir
    then false
    else if hides f.kind row.kind
    then false
    else if hides_some f.method row.method
    then false
    else if hides_some f.action_type row.action_type
    then false
    else if hides_some f.session row.session_id
    then false
    else if hides_some f.turn row.turn_id
    then false
    else if hides f.status row.status
    then false
    else if text_hides lower f.row_text row
    then false
    else if before f.time_from row.ts
    then false
    else if after f.time_to row.ts
    then false
    else true

-- `rows[row.pairIdx]?.method ?? null`, if the row has a partner
abbrev pub paired_method : List EventRow → EventRow → Option String
paired_method rows row = elim row.pair_idx [
  | none ↦ none
  | some j ↦ elim (get_elem? rows j) [ none ↦ none | some partner ↦ partner.method ]
]

unfoldable pub apply_facets_for_rows :
    (String → String) → List EventRow → EventRow → FilterState → Bool
unfolding apply_facets contains
apply_facets_for_rows lower rows row f =
    if not (apply_facets lower row f)
    then false
    else if is_some row.method || is_empty f.method
    then true
    else elim (paired_method rows row) [
      | none ↦ true
      | some method ↦ not (contains f.method method)
    ]

unfoldable pub is_default_ping_filter : FilterState → Bool
unfolding trim
is_default_ping_filter f =
    elim f.method [ [] ↦ false | m ∷ ms ↦ is_empty ms && str_eq m "ping" ]
    && is_empty f.direction
    && is_empty f.kind
    && is_empty f.action_type
    && is_empty f.session
    && is_empty f.turn
    && is_empty f.status
    && str_eq (trim f.row_text) ""
    && is_none f.time_from
    && is_none f.time_to

unfoldable pub passes_default_ping : List EventRow → EventRow → Bool
passes_default_ping rows row = elim row.method [
  | some method ↦ not (str_eq method "ping")
  | none ↦ elim (paired_method rows row) [ none ↦ true | some method ↦ not (str_eq method "ping") ]
]

-- the indices of the rows, from `i` on, that pass a test
unfoldable pub select : (EventRow → ℕ → Bool) → List EventRow → ℕ → List ℕ
select visible [] i = []
select visible (row ∷ rows) i =
    let rest = select visible rows (i + 1) in if visible row i then i ∷ rest else rest

unfoldable pub compute_filtered_rows : (String → String) → List EventRow → FilterState → List ℕ
unfolding select is_filters_empty is_default_ping_filter passes_default_ping apply_facets_for_rows
compute_filtered_rows lower rows f =
    let default_ping = is_default_ping_filter f in
    if is_filters_empty f
    then select (λ row i. true) rows 0
    else select
        (λ row i.
          if default_ping
          then passes_default_ping rows row
          else apply_facets_for_rows lower rows row f)
        rows 0

-- `useVisibleSearchMatches`: `has` is the set of matches
unfoldable pub visible_search_matches :
    (String → String) → List EventRow → FilterState → Option (ℕ → Bool) → List ℕ
unfolding select is_filters_empty is_default_ping_filter passes_default_ping apply_facets_for_rows
visible_search_matches lower rows f none = []
visible_search_matches lower rows f (some has) =
    let no_facets = is_filters_empty f in
    let default_ping = not no_facets && is_default_ping_filter f in
    select
      (λ row i.
        has i
        && (if no_facets
            then true
            else if default_ping
            then passes_default_ping rows row
            else apply_facets_for_rows lower rows row f))
      rows 0
