-- ===== src/Ui/Store/Slots.antt =====
-- Rows without holes, and where a patch lands in them.
use ahp_inspector.Base.{
  ℕ, zero, suc, ◌+◌, ◌<◌, true, false, Option, none, some, List, [], ◌∷◌, ◌++◌, map, ◌≡◌, refl, sym,
  ap, subst, ◌∙◌, arith, ◌==◌, length, length-append, String,
}
use mathlib.Core.List.{append-nil, append_assoc}
use ahp_inspector.Core.Row.{EventRow}
use ahp_inspector.Ui.Store.{
  AppStore, PatchUpdate, put_at, put_all, patch_row, patch_slot, patch_pending, sessions_of,
  derive_session_count, with_rows, with_meta, MetaSummary,
}

-- a row behind the last one
put_at-length :
    (rows : List EventRow) (row : EventRow)
    → put_at (map some rows) (length rows) row ≡ map some (rows ++ row ∷ [])
unfolding put_at
put_at-length [] row = refl
put_at-length (r ∷ rows) row = ap (◌∷◌ (some r)) (put_at-length rows row)

pub put_all-length :
    (rows new_rows : List EventRow) (n : ℕ)
    → n ≡ length rows
    → put_all (map some rows) n new_rows ≡ map some (rows ++ new_rows)
unfolding put_all
put_all-length rows [] n e = ap (map some) (sym (append-nil rows))
put_all-length rows (row ∷ new_rows) n e =
    ap (λ k. put_all (put_at (map some rows) k row) (n + 1) new_rows) e
    ∙ ap (λ slots. put_all slots (n + 1) new_rows) (put_at-length rows row)
    ∙ put_all-length (rows ++ row ∷ []) new_rows (n + 1)
        (omega (arith, e, length-append {0} rows (row ∷ [])))
    ∙ ap (map some) (append_assoc rows (row ∷ []) new_rows)

sessions_of-present :
    (rows : List EventRow) (seen : List String)
    → (ids : List String) × (sessions_of seen (map some rows) ≡ some ids)
unfolding sessions_of
sessions_of-present [] seen = (seen, refl)
sessions_of-present (row ∷ rows) seen = sessions_of-present rows _

with_meta-present :
    (rows : List EventRow) (s : AppStore) (meta : Option MetaSummary)
    → (t : AppStore) × (with_meta (map some rows) s meta ≡ some t)
      × (t.rows ≡ map some rows)
      × (t.pending_buffer ≡ s.pending_buffer)
      × (t.live_paused ≡ s.live_paused)
unfolding with_meta derive_session_count
with_meta-present rows s none = (record s { rows = map some rows }, refl, refl, refl, refl)
with_meta-present rows s (some meta) =
    let (ids, seen) = sessions_of-present rows [] in
    (
      record s {
        rows = map some rows;
        meta = some (record meta {
          event_count = length (map {B = Option EventRow} some rows);
          session_count = length ids;
        });
      },
      rw seen refl,
      refl,
      refl,
      refl,
    )

-- Rows without holes are taken over, and nothing else but the counts changes.
pub with_rows-present :
    (rows : List EventRow) (s : AppStore)
    → (t : AppStore) × (with_rows (map some rows) s ≡ some t)
      × (t.rows ≡ map some rows)
      × (t.pending_buffer ≡ s.pending_buffer)
      × (t.live_paused ≡ s.live_paused)
unfolding with_rows
with_rows-present rows s = with_meta-present rows s s.meta

-- the row at an index, if there is one, with the update
unfoldable pub patch_at : List EventRow → ℕ → PatchUpdate → List EventRow
unfolding patch_row
patch_at [] i u = []
patch_at (row ∷ rows) zero u = patch_row row u ∷ rows
patch_at (row ∷ rows) (suc i) u = row ∷ patch_at rows i u

unfoldable pub patch_all : List EventRow → List PatchUpdate → List EventRow
unfolding patch_at
patch_all rows [] = rows
patch_all rows (u ∷ us) = patch_all (patch_at rows u.idx u) us

-- the rows are numbered from `k` on
abbrev pub Numbered : ℕ → List EventRow → Type 0
Numbered k [] = Unit {0}
Numbered k (row ∷ rows) = (row.idx ≡ k) × Numbered (suc k) rows

pub Numbered-append :
    (k : ℕ) (xs ys : List EventRow)
    → Numbered k xs
    → Numbered (k + length xs) ys
    → Numbered k (xs ++ ys)
Numbered-append k [] ys n m = subst (λ j. Numbered j ys) (omega arith) m
Numbered-append k (x ∷ xs) ys n m =
    (n.0, Numbered-append (suc k) xs ys n.1 (subst (λ j. Numbered j ys) (omega arith) m))

pub Numbered-drop :
    (k : ℕ) (xs ys : List EventRow) → Numbered k (xs ++ ys) → Numbered (k + length xs) ys
Numbered-drop k [] ys n = subst (λ j. Numbered j ys) (omega arith) n
Numbered-drop k (x ∷ xs) ys n =
    subst (λ j. Numbered j ys) (omega arith) (Numbered-drop (suc k) xs ys n.1)

pub Numbered-patch_at :
    (k : ℕ) (rows : List EventRow) (i : ℕ) (u : PatchUpdate)
    → Numbered k rows
    → Numbered k (patch_at rows i u)
unfolding patch_at patch_row
Numbered-patch_at k [] i u n = tt
Numbered-patch_at k (row ∷ rows) zero u n = (n.0, n.1)
Numbered-patch_at k (row ∷ rows) (suc i) u n = (n.0, Numbered-patch_at (suc k) rows i u n.1)

pub patch_slot-map :
    (rows : List EventRow) (i : ℕ) (u : PatchUpdate)
    → patch_slot (map some rows) i u ≡ map some (patch_at rows i u)
unfolding patch_slot patch_at
patch_slot-map [] i u = refl
patch_slot-map (row ∷ rows) zero u = refl
patch_slot-map (row ∷ rows) (suc i) u = ap (◌∷◌ (some row)) (patch_slot-map rows i u)

-- an update of an index in front of the buffer's rows leaves the buffer alone
patch_pending-lt :
    (k : ℕ) (rows : List EventRow) (u : PatchUpdate)
    → Numbered k rows
    → u.idx < k
    → patch_pending rows u ≡ rows
unfolding patch_pending
patch_pending-lt k [] u n lt = refl
patch_pending-lt k (row ∷ rows) u n lt =
    let apart : (row.idx == u.idx) ≡ false = ground (arith, n.0, lt) in
    rw apart (ap (◌∷◌ row) (patch_pending-lt (suc k) rows u n.1 (omega arith)))

-- in rows that are numbered, the row of an index stands at its place
patch_pending-at :
    (k i : ℕ) (rows : List EventRow) (u : PatchUpdate)
    → Numbered k rows
    → u.idx ≡ k + i
    → patch_pending rows u ≡ patch_at rows i u
unfolding patch_pending patch_at
patch_pending-at k i [] u n e = refl
patch_pending-at k zero (row ∷ rows) u n e =
    let same : (row.idx == u.idx) ≡ true = ground (arith, n.0, e) in rw same refl
patch_pending-at k (suc i) (row ∷ rows) u n e =
    let apart : (row.idx == u.idx) ≡ false = ground (arith, n.0, e) in
    rw apart (ap (◌∷◌ row) (patch_pending-at (suc k) i rows u n.1 (omega arith)))

-- An update lands in the rows that are shown or in the buffer behind them, as it would in all.
pub patch_at-append :
    (k i : ℕ) (shown held : List EventRow) (u : PatchUpdate)
    → Numbered k (shown ++ held)
    → u.idx ≡ k + i
    → patch_at (shown ++ held) i u ≡ patch_at shown i u ++ patch_pending held u
unfolding patch_at
patch_at-append k i [] held u n e = sym (patch_pending-at k i held u n e)
patch_at-append k zero (row ∷ shown) held u n e =
    ap (λ rest. patch_row row u ∷ (shown ++ rest))
      (sym (
        patch_pending-lt (suc k + length shown) held u (Numbered-drop (suc k) shown held n.1)
          (omega arith)))
patch_at-append k (suc i) (row ∷ shown) held u n e =
    ap (◌∷◌ row) (patch_at-append (suc k) i shown held u n.1 (omega arith))
