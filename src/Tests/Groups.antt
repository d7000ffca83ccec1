-- ===== src/Tests/Groups.antt =====
-- Grouped rows: two rows of one session and turn.
use ahp_inspector.Base.{ℕ, some, List, [], ◌∷◌, ◌≡◌, refl, lookup, insert}
use ahp_inspector.Base.Int.{◌-ℤ◌}
use ahp_inspector.Core.Row.{EventRow}
use ahp_inspector.Ui.Grouping.{
  session_turn, VirtualItem, row, header, build_grouped_items, rows_shown, existing,
  rows_shown-build_grouped_items,
}
use ahp_inspector.Tests.Rows.{ping_row}

abbrev in_turn : EventRow → EventRow
in_turn r = record r { session_id = some "s"; turn_id = some "t" }

abbrev grouped : List EventRow
grouped = in_turn ping_row ∷ in_turn ping_row ∷ []

-- level by level, the counts of the headers
counts : List VirtualItem → List ℕ
counts [] = []
counts (row i ∷ items) = counts items
counts (header h ∷ items) = h.count ∷ counts items

-- Under sessions and turns, the header of the session says one row, that of its turn says two.
session_count_test : counts (build_grouped_items grouped (0 ∷ 1 ∷ []) session_turn) ≡ 1 ∷ 2 ∷ []
unfolding build_grouped_items counts lookup insert ◌-ℤ◌
session_count_test = refl

rows_shown-build_grouped_items_example :
    rows_shown (build_grouped_items grouped (1 ∷ 7 ∷ 0 ∷ []) session_turn)
    ≡ existing grouped (1 ∷ 7 ∷ 0 ∷ [])
rows_shown-build_grouped_items_example =
    rows_shown-build_grouped_items grouped (1 ∷ 7 ∷ 0 ∷ []) session_turn
