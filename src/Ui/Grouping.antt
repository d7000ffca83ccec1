-- ===== src/Ui/Grouping.antt =====
-- packages/ui/src/state/selectors.ts: the rows shown, under headers for sessions and turns.
use ahp_inspector.Base.{
  ℕ, ◌+◌, String, str_eq, Bool, true, false, ◌&&◌, not, Option, none, some, List, [], ◌∷◌, ◌++◌,
  ◌≡◌, refl, ap, ◌∙◌, if◌then◌else◌, or_else, is_none, Map, lookup, insert, string_eq, get_elem?,
}
use ahp_inspector.Base.Int.{ℤ, ◌-ℤ◌}
use ahp_inspector.Base.Text.{append}
use ahp_inspector.Core.Row.{EventRow}

-- packages/ui/src/state/store.ts
pub data GroupingMode : Type 0 where
  ungrouped session session_turn : GroupingMode

pub data Level : Type 0 where
  session turn : Level

pub record Header : Type 0 where
  pub level : Level
  pub group_key : String
  pub session_id : String
  pub turn_id : Option String
  pub count : ℕ
  pub duration_ms : ℤ

pub data VirtualItem : Type 0 where
  row : ℕ → VirtualItem
  header : Header → VirtualItem

pub record GroupStats : Type 0 where
  pub start_ts : Map String ℤ
  pub end_ts : Map String ℤ
  pub count : Map String ℕ

abbrev session_of : EventRow → String
session_of r = or_else r.session_id "__none__"

abbrev turn_of : EventRow → String
turn_of r = or_else r.turn_id "__none__"

abbrev turn_key : EventRow → String
turn_key r = append (session_of r) (append "::" (turn_of r))

abbrev stats_key : GroupingMode → EventRow → String
stats_key session_turn r = turn_key r
stats_key _ r = session_of r

count_row : GroupingMode → EventRow → GroupStats → GroupStats
count_row mode r stats =
    let key = stats_key mode r in
    record {
      start_ts =
          if is_none (lookup key stats.start_ts)
          then insert key r.ts stats.start_ts
          else stats.start_ts;
      end_ts = insert key r.ts stats.end_ts;
      count = insert key (or_else (lookup key stats.count) 0 + 1) stats.count;
    }

-- the rows at the indices that there are
rows_at : List EventRow → List ℕ → List (ℕ × EventRow)
rows_at rows [] = []
rows_at rows (i ∷ is) = elim (get_elem? rows i) [
  | none ↦ rows_at rows is
  | some r ↦ (i, r) ∷ rows_at rows is
]

gather : GroupingMode → List (ℕ × EventRow) → GroupStats → GroupStats
unfolding count_row
gather mode [] stats = stats
gather mode ((i, r) ∷ rs) stats = gather mode rs (count_row mode r stats)

-- a header, with what was gathered under its key
header_of : GroupStats → Level → String → EventRow → Option String → Header
unfolding lookup ◌-ℤ◌
header_of stats level key r turn_id =
    let start = or_else (lookup key stats.start_ts) r.ts in
    let end = or_else (lookup key stats.end_ts) r.ts in
    record {
      level = level;
      group_key = key;
      session_id = or_else r.session_id "";
      turn_id = turn_id;
      count = or_else (lookup key stats.count) 1;
      duration_ms = end -ℤ start;
    }

-- `value !== last`
abbrev differs : String → Option String → Bool
differs s none = true
differs s (some t) = not (str_eq s t)

abbrev by_turn : GroupingMode → Bool
by_turn session_turn = true
by_turn _ = false

emit :
    GroupingMode
    → GroupStats
    → Option String
    → Option String
    → List (ℕ × EventRow)
    → List VirtualItem
unfolding header_of
emit mode stats last_session last_turn [] = []
emit mode stats last_session last_turn ((i, r) ∷ rs) =
    let new_session = differs (session_of r) last_session in
    let turn_before = if new_session then none else last_turn in
    let new_turn = by_turn mode && differs (turn_of r) turn_before in
    let turn_after = if new_turn then some (turn_of r) else turn_before in
    let rest = emit mode stats (some (session_of r)) turn_after rs in
    (if new_session then header (header_of stats Level.session (session_of r) r none) ∷ [] else [])
    ++ ((if new_turn then header (header_of stats turn (turn_key r) r r.turn_id) ∷ [] else [])
        ++ row i ∷ rest)

plain : List (ℕ × EventRow) → List VirtualItem
plain [] = []
plain ((i, r) ∷ rs) = row i ∷ plain rs

unfoldable pub build_grouped_items : List EventRow → List ℕ → GroupingMode → List VirtualItem
unfolding plain emit gather rows_at insert lookup
build_grouped_items rows idxs ungrouped = plain (rows_at rows idxs)
build_grouped_items rows idxs mode =
    let rs = rows_at rows idxs in
    emit mode (gather mode rs (record { start_ts = []; end_ts = []; count = [] })) none none rs

-- the rows among the items, in their order
pub rows_shown : List VirtualItem → List ℕ
rows_shown [] = []
rows_shown (row i ∷ items) = i ∷ rows_shown items
rows_shown (header h ∷ items) = rows_shown items

-- the indices at which there is a row
pub existing : List EventRow → List ℕ → List ℕ
existing rows [] = []
existing rows (i ∷ is) = elim (get_elem? rows i) [
  | none ↦ existing rows is
  | some r ↦ i ∷ existing rows is
]

indices : List (ℕ × EventRow) → List ℕ
indices [] = []
indices ((i, r) ∷ rs) = i ∷ indices rs

indices-rows_at :
    (rows : List EventRow) (is : List ℕ) → indices (rows_at rows is) ≡ existing rows is
unfolding indices rows_at existing
indices-rows_at rows [] = refl
indices-rows_at rows (i ∷ is) = by (get_elem? rows i) (indices-rows_at rows is)
  where
    by :
        (o : Option EventRow)
        → indices (rows_at rows is) ≡ existing rows is
        → indices (elim o [ none ↦ rows_at rows is | some r ↦ (i, r) ∷ rows_at rows is ])
          ≡ (elim o [ none ↦ existing rows is | some r ↦ i ∷ existing rows is ])
    by none h = h
    by (some r) h = ap (◌∷◌ i) h

rows_shown-plain : (rs : List (ℕ × EventRow)) → rows_shown (plain rs) ≡ indices rs
unfolding rows_shown plain indices
rows_shown-plain [] = refl
rows_shown-plain ((i, r) ∷ rs) = ap (◌∷◌ i) (rows_shown-plain rs)

-- a header, where there is one, shows no row
rows_shown-header :
    (b : Bool) (h : Header) (items : List VirtualItem)
    → rows_shown ((if b then header h ∷ [] else []) ++ items) ≡ rows_shown items
unfolding rows_shown
rows_shown-header true h items = refl
rows_shown-header false h items = refl

rows_shown-emit :
    (mode : GroupingMode) (stats : GroupStats) (rs : List (ℕ × EventRow))
    (last_session last_turn : Option String)
    → rows_shown (emit mode stats last_session last_turn rs) ≡ indices rs
unfolding rows_shown emit indices
rows_shown-emit mode stats [] last_session last_turn = refl
rows_shown-emit mode stats ((i, r) ∷ rs) last_session last_turn =
    let new_session = differs (session_of r) last_session in
    let turn_before : Option String = if new_session then none else last_turn in
    let new_turn = by_turn mode && differs (turn_of r) turn_before in
    let turn_after : Option String = if new_turn then some (turn_of r) else turn_before in
    rows_shown-header new_session (header_of stats Level.session (session_of r) r none) _
    ∙ rows_shown-header new_turn (header_of stats turn (turn_key r) r r.turn_id)
        (row i ∷ emit mode stats (some (session_of r)) turn_after rs)
    ∙ ap (◌∷◌ i) (rows_shown-emit mode stats rs (some (session_of r)) turn_after)

-- However the rows are grouped, the items show exactly the rows at the given indices, in their order;
-- an index without a row is left out.
pub rows_shown-build_grouped_items :
    (rows : List EventRow) (idxs : List ℕ) (mode : GroupingMode)
    → rows_shown (build_grouped_items rows idxs mode) ≡ existing rows idxs
unfolding build_grouped_items
rows_shown-build_grouped_items rows idxs ungrouped =
    rows_shown-plain (rows_at rows idxs) ∙ indices-rows_at rows idxs
rows_shown-build_grouped_items rows idxs session =
    rows_shown-emit session _ (rows_at rows idxs) none none ∙ indices-rows_at rows idxs
rows_shown-build_grouped_items rows idxs session_turn =
    rows_shown-emit session_turn _ (rows_at rows idxs) none none ∙ indices-rows_at rows idxs
