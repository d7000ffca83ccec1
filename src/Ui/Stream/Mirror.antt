-- ===== src/Ui/Stream/Mirror.antt =====
-- The store mirrors the rows, through appends, patches and pauses.
use mathlib.Core.List.{append-nil, append_assoc, map-append}
use ahp_inspector.Base.{
  ℕ, ◌+◌, Bool, true, false, Option, some, List, [], ◌∷◌, ◌++◌, map, ◌≡◌, refl, sym, ap, subst, ◌∙◌,
  arith, length, if◌then◌else◌, Bool-cases, inl, inr,
}
use ahp_inspector.Core.Row.{EventRow}
use ahp_inspector.Server.Frames.{
  SsePayload, snapshot_end, append_rows, load_progress, stream_backlog, patch,
}
use ahp_inspector.Ui.Store as Store
use ahp_inspector.Ui.Store.{
  AppStore, PatchUpdate, with_rows, apply_patch, patch_slot, patch_pending, flush_pending_buffer,
  flush_rows, set_live_paused, reset_for_rotation,
}
use ahp_inspector.Ui.Store.Slots.{
  put_all-length, with_rows-present, patch_at, patch_all, Numbered, Numbered-patch_at,
  patch_slot-map, patch_at-append,
}
use ahp_inspector.Ui.Stream.{arrived_all, settle, apply_frame, resume_following}
use ahp_inspector.Ui.Stream.Rows.{rows_after, Waits}

-- the rows that are shown have no hole, and with the buffer behind them they are the rows; the buffer
-- holds some only while the client is paused
pub record Mirror (s : AppStore) (rows : List EventRow) : Type 0 where
  pub shown : List EventRow
  pub no_hole : s.rows ≡ map some shown
  pub all : shown ++ s.pending_buffer ≡ rows
  pub live : s.live_paused ≡ false → s.pending_buffer ≡ []

if_false : (b : Bool) (x y : Option AppStore) → b ≡ false → (if b then x else y) ≡ y
if_false true x y h = cc
if_false false x y h = refl

append_rows-Mirror :
    (new_rows : List EventRow) (from : ℕ) (s : AppStore) (rows : List EventRow)
    → Mirror s rows
    → from ≡ length rows
    → (t : AppStore) × (Store.append_rows new_rows from s ≡ some t) × Mirror t (rows ++ new_rows)
unfolding Store.append_rows
append_rows-Mirror new_rows from s rows m e = elim (Bool-cases s.live_paused) [
  | inl paused ↦ (
    record s {
      pending_buffer = s.pending_buffer ++ new_rows;
      pending_new_count = s.pending_new_count + length new_rows;
    },
    rw paused refl,
    record {
      shown = m.shown;
      no_hole = m.no_hole;
      all = sym (append_assoc m.shown s.pending_buffer new_rows) ∙ ap (λ xs. xs ++ new_rows) m.all;
      live = λ off. cc (paused, off);
    },
  )
  | inr live ↦
      let empty : s.pending_buffer ≡ [] = m.live live in
      let whole : m.shown ≡ rows =
        sym (append-nil m.shown) ∙ ap (λ xs. m.shown ++ xs) (sym empty) ∙ m.all in
      let w = with_rows-present (m.shown ++ new_rows) s in
      let put : Store.put_all s.rows from new_rows ≡ map some (m.shown ++ new_rows) =
        ap (λ slots. Store.put_all slots from new_rows) m.no_hole
        ∙ put_all-length m.shown new_rows from (e ∙ ap length (sym whole)) in
      (
        w.0,
        if_false s.live_paused _ _ live ∙ ap (λ slots. with_rows slots s) put ∙ w.1,
        record {
          shown = m.shown ++ new_rows;
          no_hole = w.2;
          all =
              ap (λ xs. (m.shown ++ new_rows) ++ xs) (w.3 ∙ empty)
              ∙ append-nil (m.shown ++ new_rows)
              ∙ ap (λ xs. xs ++ new_rows) whole;
          live = λ off. w.3 ∙ empty;
        },
      )
]

-- one update
patch-Mirror :
    (u : PatchUpdate) (s : AppStore) (rows : List EventRow)
    → Numbered 0 rows
    → Mirror s rows
    → Mirror
        (record s {
          rows = patch_slot s.rows u.idx u;
          pending_buffer = patch_pending s.pending_buffer u;
        })
        (patch_at rows u.idx u)
patch-Mirror u s rows n m = record {
  shown = patch_at m.shown u.idx u;
  no_hole = ap (λ slots. patch_slot slots u.idx u) m.no_hole ∙ patch_slot-map m.shown u.idx u;
  all =
      sym (
        patch_at-append 0 u.idx m.shown s.pending_buffer u (subst (Numbered 0) (sym m.all) n)
          (omega arith))
      ∙ ap (λ xs. patch_at xs u.idx u) m.all;
  live = λ off. ap (λ xs. patch_pending xs u) (m.live off) ∙ unfold patch_pending in refl;
}

apply_patch-Mirror :
    (us : List PatchUpdate) (s : AppStore) (rows : List EventRow)
    → Numbered 0 rows
    → Mirror s rows
    → Mirror (apply_patch us s) (patch_all rows us)
unfolding apply_patch patch_all
apply_patch-Mirror [] s rows n m = m
apply_patch-Mirror (u ∷ us) s rows n m =
    apply_patch-Mirror us _ (patch_at rows u.idx u) (Numbered-patch_at 0 rows u.idx u n)
      (patch-Mirror u s rows n m)

pub resume-Mirror :
    (s : AppStore) (rows : List EventRow) → Mirror s rows → Mirror (resume_following s) rows
unfolding resume_following flush_pending_buffer
resume-Mirror s rows m = by s.pending_buffer refl
  where
    by :
        (held : List EventRow)
        → s.pending_buffer ≡ held
        → Mirror (set_live_paused false (settle s (flush_rows held s)).0) rows
    by [] e =
        unfold flush_rows in
        record { shown = m.shown; no_hole = m.no_hole; all = m.all; live = λ off. e }
    by (row ∷ held) e =
        let cleared = record s { pending_buffer = []; pending_new_count = 0 } in
        let w = with_rows-present (m.shown ++ (row ∷ held)) cleared in
        let joined : s.rows ++ map some (row ∷ held) ≡ map some (m.shown ++ (row ∷ held)) =
          ap (λ slots. slots ++ map some (row ∷ held)) m.no_hole
          ∙ sym (map-append some m.shown (row ∷ held)) in
        unfold flush_rows in
        rw (joined, w.1)
          (record {
            shown = m.shown ++ (row ∷ held);
            no_hole = w.2;
            all =
                ap (λ xs. (m.shown ++ (row ∷ held)) ++ xs) w.3
                ∙ append-nil (m.shown ++ (row ∷ held))
                ∙ ap (λ xs. m.shown ++ xs) (sym e)
                ∙ m.all;
            live = λ off. w.3;
          })

-- A frame that fits does not throw, and the store mirrors the rows after it.
pub apply_frame-Mirror :
    (f : SsePayload) (s : AppStore) (rows : List EventRow)
    → Numbered 0 rows
    → Waits rows f
    → Mirror s rows
    → ((apply_frame f s).1 ≡ false) × Mirror (apply_frame f s).0 (rows_after rows f)
unfolding apply_frame rows_after
apply_frame-Mirror (append_rows new_rows from) s rows n h m =
    let done = append_rows-Mirror new_rows from s rows m h.0 in
    (
      ap (λ o. (settle s o).1) done.1,
      subst (λ t. Mirror t (rows ++ new_rows)) (sym (ap (λ o. (settle s o).0) done.1)) done.2,
    )
apply_frame-Mirror (patch updates) s rows n h m =
    (refl, apply_patch-Mirror (arrived_all updates) s rows n m)
apply_frame-Mirror (load_progress progress) s rows n h m =
    (refl, record { shown = m.shown; no_hole = m.no_hole; all = m.all; live = m.live })
apply_frame-Mirror snapshot_end s rows n h m =
    (refl, record { shown = m.shown; no_hole = m.no_hole; all = m.all; live = m.live })
apply_frame-Mirror (stream_backlog frames backlog) s rows n h m =
    (refl, record { shown = m.shown; no_hole = m.no_hole; all = m.all; live = m.live })
apply_frame-Mirror _ s rows n h m = absurd h
