-- ===== src/Ui/Store/Resume.antt =====
-- Rows that arrive behind a gap: what becomes of a store that is resumed without its buffer.
use ahp_inspector.Base.{
  ℕ, zero, suc, ◌+◌, ◌<◌, true, false, Option, none, some, List, [], ◌∷◌, ◌++◌, ◌≡◌, refl, arith,
  length, get_elem?, String, ◌>>=◌,
}
use ahp_inspector.Core.Row.{EventRow}
use ahp_inspector.Ui.Store.{
  AppStore, MetaSummary, put_at, put_all, sessions_of, derive_session_count, with_meta, with_rows,
  append_rows, set_live_paused,
}

-- a slot without a row
abbrev HoleAt : List (Option EventRow) → ℕ → Type 0
HoleAt slots j = get_elem? slots j ≡ some none

sessions_of-HoleAt :
    (slots : List (Option EventRow)) (j : ℕ) (seen : List String)
    → HoleAt slots j
    → sessions_of seen slots ≡ none
unfolding sessions_of
sessions_of-HoleAt [] j seen h = absurd (ground (arith, h))
sessions_of-HoleAt (none ∷ slots) j seen h = refl
sessions_of-HoleAt (some row ∷ slots) zero seen h = absurd (ground (arith, h))
sessions_of-HoleAt (some row ∷ slots) (suc j) seen h = sessions_of-HoleAt slots j _ h

put_at-HoleAt :
    (slots : List (Option EventRow)) (i j : ℕ) (row : EventRow)
    → j < i
    → HoleAt slots j
    → HoleAt (put_at slots i row) j
unfolding put_at
put_at-HoleAt [] i j row lt h = absurd (ground (arith, h))
put_at-HoleAt (slot ∷ slots) zero j row lt h = absurd (omega (arith, lt))
put_at-HoleAt (slot ∷ slots) (suc i) zero row lt h = h
put_at-HoleAt (slot ∷ slots) (suc i) (suc j) row lt h =
    put_at-HoleAt slots i j row (omega (arith, lt)) h

put_all-HoleAt :
    (slots : List (Option EventRow)) (from j : ℕ) (rows : List EventRow)
    → j < from
    → HoleAt slots j
    → HoleAt (put_all slots from rows) j
unfolding put_all
put_all-HoleAt slots from j [] lt h = h
put_all-HoleAt slots from j (row ∷ rows) lt h =
    put_all-HoleAt (put_at slots from row) (from + 1) j rows (omega (arith, lt))
      (put_at-HoleAt slots from j row lt h)

-- the first slot behind the end
put_at-gap :
    (slots : List (Option EventRow)) (i : ℕ) (row : EventRow)
    → length slots < i
    → HoleAt (put_at slots i row) (length slots)
unfolding put_at
put_at-gap [] zero row lt = absurd (omega (arith, lt))
put_at-gap [] (suc i) row lt = refl
put_at-gap (slot ∷ slots) zero row lt = absurd (omega (arith, lt))
put_at-gap (slot ∷ slots) (suc i) row lt = put_at-gap slots i row (omega (arith, lt))

with_rows-HoleAt :
    (slots : List (Option EventRow)) (j : ℕ) (s : AppStore) (meta : MetaSummary)
    → s.meta ≡ some meta
    → HoleAt slots j
    → with_rows slots s ≡ none
unfolding with_rows with_meta derive_session_count
with_rows-HoleAt slots j s meta e h = rw (e, sessions_of-HoleAt slots j [] h) refl

-- rows that arrive while the store is paused, and the next ones after `setLivePaused(false)`
unfoldable pub resumed_append : List EventRow → List EventRow → ℕ → AppStore → Option AppStore
unfolding append_rows
resumed_append held new_rows from s = append_rows held from s >>= λ t.
    append_rows new_rows (from + length held) (set_live_paused false t)

-- In the store of an open log that is paused, rows arrive and are held back. If the store is then resumed
-- by `setLivePaused(false)` alone, the reducer of the next rows throws.
pub resumed_append-throws :
    (held_row new_row : EventRow) (held new_rows : List EventRow) (from : ℕ) (s : AppStore)
    (meta : MetaSummary)
    → s.meta ≡ some meta
    → s.live_paused ≡ true
    → length s.rows ≡ from
    → resumed_append (held_row ∷ held) (new_row ∷ new_rows) from s ≡ none
unfolding resumed_append append_rows put_all
resumed_append-throws held_row new_row held new_rows from s meta open_log paused counted =
    let resumed = record s {
      pending_buffer = s.pending_buffer ++ held_row ∷ held;
      pending_new_count = s.pending_new_count + length (held_row ∷ held);
      live_paused = false;
    } in
    let at = from + length (held_row ∷ held) in
    let gap =
      put_all-HoleAt (put_at s.rows at new_row) (at + 1) (length s.rows) new_rows
        (omega (arith, counted)) (put_at-gap s.rows at new_row (omega (arith, counted))) in
    rw paused (with_rows-HoleAt _ (length s.rows) resumed meta open_log gap)
