-- ===== src/Ui/Store/Setters.antt =====
-- packages/ui/src/state/store.ts: the actions that set single fields.
use ahp_inspector.Base.{
  ℕ, String, Bool, false, not, ◌||◌, Option, none, some, List, [], ◌∷◌, ◌++◌, ◌≡◌, refl, sym, ap,
  subst, eq_iff, ◌∙◌, arith, str_eq, if◌then◌else◌, Bool-cases, inl, inr, string_eq, nat_eq,
}
use ahp_inspector.Base.Int.{ℤ, leb_ℤ}
use ahp_inspector.Server.Frames.{LoadProgress}
use ahp_inspector.Ui.Filters.{FilterState, app_default_filters, contains}
use ahp_inspector.Ui.Grouping.{GroupingMode}
use ahp_inspector.Ui.Store.{
  AppStore, SelectionSource, SearchStatus, Connection, LastOpenRef, MetaSummary, StreamBacklog,
  ClientError, add_to_set, detail_min_width, detail_max_width,
}

abbrev pub set_load_progress : LoadProgress → AppStore → AppStore
set_load_progress progress s = record s { load_progress = progress }

abbrev pub set_stream_backlog : StreamBacklog → AppStore → AppStore
set_stream_backlog backlog s = record s { stream_backlog = backlog }

abbrev pub set_connection : Connection → AppStore → AppStore
set_connection connection s = record s { connection = connection }

abbrev pub set_meta : Option MetaSummary → AppStore → AppStore
set_meta meta s = record s { meta = meta }

abbrev pub select_idx : Option ℕ → SelectionSource → AppStore → AppStore
select_idx idx source s = record s { selected_idx = idx; selection_source = source }

abbrev pub clear_selection : AppStore → AppStore
clear_selection s = record s { selected_idx = none }

abbrev pub set_search_query : String → AppStore → AppStore
set_search_query query s = record s { search_query = query }

-- `new Set(matches)`
set_of : List ℕ → List ℕ → List ℕ
unfolding add_to_set
set_of seen [] = seen
set_of seen (x ∷ xs) = set_of (add_to_set seen x) xs

set_search_matches : Option (List ℕ) → AppStore → AppStore
unfolding set_of
set_search_matches none s = record s { search_matches = none }
set_search_matches (some matches) s = record s { search_matches = some (set_of [] matches) }

abbrev pub set_search_pending : AppStore → AppStore
set_search_pending s = record s { search_status = SearchStatus.searching; search_error = none }

set_search_result : List ℕ → ℕ → Bool → AppStore → AppStore
unfolding set_of
set_search_result matches total truncated s = record s {
  search_matches = some (set_of [] matches);
  search_total = total;
  search_truncated = truncated;
  search_status = SearchStatus.ready;
  search_error = none;
}

-- no matches, with a status and its message
abbrev no_matches : SearchStatus → Option String → AppStore → AppStore
no_matches status message s = record s {
  search_matches = none;
  search_total = 0;
  search_truncated = false;
  search_status = status;
  search_error = message;
}

abbrev pub set_search_error : String → AppStore → AppStore
set_search_error message s = no_matches SearchStatus.error (some message) s

abbrev pub clear_search_results : AppStore → AppStore
clear_search_results s = no_matches SearchStatus.idle none s

abbrev pub set_search_popover_open : Bool → AppStore → AppStore
set_search_popover_open shown s = record s { search_popover_open = shown }

abbrev pub set_filters : FilterState → AppStore → AppStore
set_filters filters s = record s { filters = filters }

-- `patchFilter(key, value)`; the field is given as its update
abbrev pub patch_filter : (FilterState → FilterState) → AppStore → AppStore
patch_filter patch s = record s { filters = patch s.filters }

abbrev pub clear_filters : AppStore → AppStore
clear_filters s = record s { filters = app_default_filters }

abbrev pub set_grouping : GroupingMode → AppStore → AppStore
set_grouping mode s = record s { grouping = mode }

-- `next.delete(key)`
unfoldable pub delete_from_set : List String → String → List String
delete_from_set [] x = []
delete_from_set (y ∷ ys) x =
    let rest = delete_from_set ys x in if str_eq y x then rest else y ∷ rest

unfoldable pub toggle_group_collapsed : String → AppStore → AppStore
unfolding contains delete_from_set add_to_set
toggle_group_collapsed key s = record s {
  group_collapsed =
      if contains s.group_collapsed key
      then delete_from_set s.group_collapsed key
      else add_to_set s.group_collapsed key;
}

abbrev min_ℤ : ℤ → ℤ → ℤ
min_ℤ a b = if leb_ℤ a b then a else b

abbrev max_ℤ : ℤ → ℤ → ℤ
max_ℤ a b = if leb_ℤ a b then b else a

unfoldable pub set_detail_width : ℤ → AppStore → AppStore
set_detail_width px s = record s {
  detail_width = max_ℤ detail_min_width (min_ℤ detail_max_width px);
}

abbrev pub clear_pending_new_count : AppStore → AppStore
clear_pending_new_count s = record s { pending_new_count = 0 }

abbrev pub set_last_watch_error : Option ClientError → AppStore → AppStore
set_last_watch_error e s = record s { last_watch_error = e }

abbrev pub set_log_key : Option String → AppStore → AppStore
set_log_key key s = record s { log_key = key }

abbrev pub set_rotation_notice : Bool → AppStore → AppStore
set_rotation_notice shown s = record s { rotation_notice = shown }

abbrev pub set_last_open_ref : Option LastOpenRef → AppStore → AppStore
set_last_open_ref ref s = record s { last_open_ref = ref }

abbrev pub set_persistence_error : Option String → AppStore → AppStore
set_persistence_error message s = record s { persistence_error = message }

abbrev pub collapsed : AppStore → String → Bool
collapsed s key = contains s.group_collapsed key

contains-delete_self : (xs : List String) (x : String) → contains (delete_from_set xs x) x ≡ false
unfolding contains delete_from_set
contains-delete_self [] x = refl
contains-delete_self (y ∷ ys) x = elim (Bool-cases (str_eq y x)) [
  | inl same ↦ rw same (contains-delete_self ys x)
  | inr apart ↦ rw apart (ground (arith, apart, contains-delete_self ys x))
]

contains-delete_other :
    (xs : List String) (x z : String)
    → str_eq x z ≡ false
    → contains (delete_from_set xs x) z ≡ contains xs z
unfolding contains delete_from_set
contains-delete_other [] x z h = refl
contains-delete_other (y ∷ ys) x z h = elim (Bool-cases (str_eq y x)) [
  | inl same ↦
      let skipped : str_eq y z ≡ false =
        subst (λ w. str_eq w z ≡ false) (sym ((eq_iff y x).0 same)) h in
      rw (same, skipped) (contains-delete_other ys x z h)
  | inr apart ↦ rw apart (ap (λ b. str_eq y z || b) (contains-delete_other ys x z h))
]

contains-last :
    (xs : List String) (x z : String) → contains (xs ++ x ∷ []) z ≡ contains xs z || str_eq x z
unfolding contains
contains-last [] x z = ground arith
contains-last (y ∷ ys) x z = ground (arith, contains-last ys x z)

-- A toggle turns the group of its key around and leaves every other group as it is.
pub toggle_group_collapsed-turns :
    (key other : String) (s : AppStore)
    → (collapsed (toggle_group_collapsed key s) key ≡ not (collapsed s key))
      × (str_eq key other ≡ false
          → collapsed (toggle_group_collapsed key s) other ≡ collapsed s other)
unfolding toggle_group_collapsed add_to_set
toggle_group_collapsed-turns key other s = elim (Bool-cases (collapsed s key)) [
  | inl closed ↦ rw closed (
    contains-delete_self s.group_collapsed key,
    λ apart. contains-delete_other s.group_collapsed key other apart,
  )
  | inr shown ↦ rw shown (
    contains-last s.group_collapsed key key ∙ ground (arith, (eq_iff key key).1 refl),
    λ apart. contains-last s.group_collapsed key other ∙ ground (arith, apart),
  )
]
