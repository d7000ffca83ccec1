-- ===== src/Pipeline/Patches.antt =====
-- The updates that the server sends make of the rows what it made of them.
use ahp_inspector.Base.{
  ℕ, zero, suc, Option, none, some, List, [], ◌∷◌, ◌≡◌, refl, ap, ◌∙◌, get_elem?, set,
  if◌then◌else◌, String, if-cases,
}
use ahp_inspector.Core.Correlator.{Correlator}
use ahp_inspector.Core.Row.{EventRow}
use ahp_inspector.Server.Frames as Frames
use ahp_inspector.Server.AppState.Rows.{patched, update_of, up_to_date, build_patch_updates}
use ahp_inspector.Ui.Store.{patch_row, new_summary}
use ahp_inspector.Ui.Store.Slots.{patch_at, patch_all}
use ahp_inspector.Ui.Stream.{arrived, arrived_all}

same_summary : (o : Option String) → new_summary o o ≡ o
same_summary none = refl
same_summary (some s) = refl

patch_row-arrived :
    (c : Correlator) (k : ℕ) (row : EventRow)
    → patch_row row (arrived (update_of (patched c k row) k)) ≡ patched c k row
unfolding patch_row arrived update_of patched
patch_row-arrived c k row =
    ap (λ o. record (patched c k row) { summary = o }) (same_summary row.summary)

patch_at-arrived :
    (c : Correlator) (k j : ℕ) (rows : List EventRow) (prev : EventRow)
    → get_elem? rows j ≡ some prev
    → patch_at rows j (arrived (update_of (patched c k prev) k)) ≡ set rows j (patched c k prev)
unfolding patch_at
patch_at-arrived c k j [] prev e = refl
patch_at-arrived c k zero (row ∷ rows) prev e =
    let same : row ≡ prev = cc in
    ap (λ r. r ∷ rows)
      (ap (λ r. patch_row r (arrived (update_of (patched c k prev) k))) same
        ∙ patch_row-arrived c k prev)
patch_at-arrived c k (suc j) (row ∷ rows) prev e = ap (◌∷◌ row) (patch_at-arrived c k j rows prev e)

-- The updates of a drain, applied to the rows before it, give the rows after it.
pub patch_all-build :
    (c : Correlator) (js : List ℕ) (rows : List EventRow)
    → patch_all rows (arrived_all (build_patch_updates c js rows).1)
      ≡ (build_patch_updates c js rows).0
unfolding build_patch_updates patch_all arrived update_of
patch_all-build c [] rows = refl
patch_all-build c (j ∷ js) rows =
    by (get_elem? rows j) refl (patch_all-build c js rows)
      (λ prev. patch_all-build c js (set rows j (patched c j prev)))
  where
    Agree : List EventRow × List Frames.PatchUpdate → Type 0
    Agree r = patch_all rows (arrived_all r.1) ≡ r.0

    by :
        (o : Option EventRow)
        → get_elem? rows j ≡ o
        → patch_all rows (arrived_all (build_patch_updates c js rows).1)
          ≡ (build_patch_updates c js rows).0
        → ((prev : EventRow)
            → patch_all
                (set rows j (patched c j prev))
                (arrived_all (build_patch_updates c js (set rows j (patched c j prev))).1)
              ≡ (build_patch_updates c js (set rows j (patched c j prev))).0)
        → Agree (elim o [
          | none ↦ build_patch_updates c js rows
          | some prev ↦
              let row = patched c j prev in
              let rest = build_patch_updates c js (set rows j row) in
              let skipped = build_patch_updates c js rows in
              if up_to_date c j prev then skipped else (rest.0, update_of row j ∷ rest.1)
        ])
    by none e skip write = skip
    by (some prev) e skip write =
        if-cases Agree (up_to_date c j prev) _ _ (λ fresh. skip)
          (λ stale.
            ap
              (λ xs.
                patch_all xs
                  (arrived_all (build_patch_updates c js (set rows j (patched c j prev))).1))
              (patch_at-arrived c j j rows prev e)
            ∙ write prev)
