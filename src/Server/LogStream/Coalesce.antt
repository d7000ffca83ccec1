-- ===== src/Server/LogStream/Coalesce.antt =====
-- What two frames become in one says of the rows what they say one after the other.
use mathlib.Core.List.{append_assoc}
use ahp_inspector.Base.{
  some_injective, ℕ, ◌+◌, Bool, true, false, none, some, List, [], ◌∷◌, ◌++◌, ◌≡◌, refl, sym, ap,
  subst, ◌∙◌, arith, length, length-append, if◌then◌else◌, ◌==◌,
}
use ahp_inspector.Core.Row.{EventRow}
use ahp_inspector.Server.Frames.{
  SsePayload, append_rows, load_progress, stream_backlog, patch, PatchUpdate, LoadProgress,
}
use ahp_inspector.Server.LogStream.{
  coalesce_append, coalesce_patch, coalesce_progress, coalesce_backlog, coalesce_payloads,
}
use ahp_inspector.Ui.Store as Store
use ahp_inspector.Ui.Store.Slots.{Numbered, Numbered-append, patch_all}
use ahp_inspector.Ui.Stream.{arrived, arrived_all}
use ahp_inspector.Ui.Stream.Rows.{rows_after, Fits}

-- one frame for two, at these rows
abbrev pub Joins : List EventRow → SsePayload → SsePayload → SsePayload → Type 0
Joins rows p q r = Fits rows r × (rows_after rows r ≡ rows_after (rows_after rows p) q)

patch_all-append :
    (rows : List EventRow) (us vs : List Store.PatchUpdate)
    → patch_all rows (us ++ vs) ≡ patch_all (patch_all rows us) vs
unfolding patch_all
patch_all-append rows [] vs = refl
patch_all-append rows (u ∷ us) vs = patch_all-append _ us vs

arrived_all-append :
    (us vs : List PatchUpdate) → arrived_all (us ++ vs) ≡ arrived_all us ++ arrived_all vs
arrived_all-append [] vs = refl
arrived_all-append (u ∷ us) vs = ap (◌∷◌ (arrived u)) (arrived_all-append us vs)

append-Joins :
    (rows first second : List EventRow) (from next_from : ℕ) (r : SsePayload)
    → coalesce_append first from (append_rows second next_from) ≡ some r
    → Fits rows (append_rows first from)
    → Fits (rows ++ first) (append_rows second next_from)
    → Joins rows (append_rows first from) (append_rows second next_from) r
unfolding coalesce_append rows_after
append-Joins rows first second from next_from r h f g = by (from + length first == next_from) h
  where
    by :
        (b : Bool)
        → (if b then some (append_rows (first ++ second) from) else none) ≡ some r
        → Joins rows (append_rows first from) (append_rows second next_from) r
    by false e = absurd (ground (arith, e))
    by true e =
        subst (Joins rows (append_rows first from) (append_rows second next_from))
          (some_injective e)
          (
            (
              f.0,
              Numbered-append (length rows) first second f.1
                  (subst (λ k. Numbered k second) (length-append {0} rows first) g.1),
            ),
            sym (append_assoc rows first second),
          )

patch-Joins :
    (rows : List EventRow) (us : List PatchUpdate) (q r : SsePayload)
    → coalesce_patch us q ≡ some r
    → Fits rows (patch us)
    → Fits (rows_after rows (patch us)) q
    → Joins rows (patch us) q r
unfolding coalesce_patch rows_after
patch-Joins rows us (patch updates) r h f g =
    subst (Joins rows (patch us) (patch updates)) (some_injective h) (
      tt,
      ap (patch_all rows) (arrived_all-append us updates)
          ∙ patch_all-append rows (arrived_all us) (arrived_all updates),
    )
patch-Joins rows us _ r h f g = absurd (ground (arith, h))

progress-Joins :
    (rows : List EventRow) (p : LoadProgress) (q r : SsePayload)
    → coalesce_progress q ≡ some r
    → Fits rows (load_progress p)
    → Fits (rows_after rows (load_progress p)) q
    → Joins rows (load_progress p) q r
unfolding coalesce_progress rows_after
progress-Joins rows p (load_progress progress) r h f g =
    subst (Joins rows (load_progress p) (load_progress progress)) (some_injective h) (tt, refl)
progress-Joins rows p _ r h f g = absurd (ground (arith, h))

backlog-Joins :
    (rows : List EventRow) (n m : ℕ) (q r : SsePayload)
    → coalesce_backlog q ≡ some r
    → Fits rows (stream_backlog n m)
    → Fits (rows_after rows (stream_backlog n m)) q
    → Joins rows (stream_backlog n m) q r
unfolding coalesce_backlog rows_after
backlog-Joins rows n m (stream_backlog frames backlog) r h f g =
    subst (Joins rows (stream_backlog n m) (stream_backlog frames backlog)) (some_injective h)
      (tt, refl)
backlog-Joins rows n m _ r h f g = absurd (ground (arith, h))

behind_append-Joins :
    (rows first : List EventRow) (from : ℕ) (q r : SsePayload)
    → coalesce_append first from q ≡ some r
    → Fits rows (append_rows first from)
    → Fits (rows ++ first) q
    → Joins rows (append_rows first from) q r
unfolding coalesce_append
behind_append-Joins rows first from (append_rows new_rows start) r h f g =
    append-Joins rows first new_rows from start r (unfold coalesce_append in h) f g
behind_append-Joins rows first from _ r h f g = absurd (ground (arith, h))

-- Two frames that fit one after the other fit as the one frame that they become, which says the same.
pub coalesce_payloads-Joins :
    (rows : List EventRow) (p q r : SsePayload)
    → coalesce_payloads p q ≡ some r
    → Fits rows p
    → Fits (rows_after rows p) q
    → Joins rows p q r
unfolding coalesce_payloads
coalesce_payloads-Joins rows (append_rows new_rows start) q r h f g =
    behind_append-Joins rows new_rows start q r h f (unfold rows_after in g)
coalesce_payloads-Joins rows (load_progress progress) q r h f g =
    progress-Joins rows progress q r h f g
coalesce_payloads-Joins rows (stream_backlog frames backlog) q r h f g =
    backlog-Joins rows frames backlog q r h f g
coalesce_payloads-Joins rows (patch updates) q r h f g = patch-Joins rows updates q r h f g
coalesce_payloads-Joins rows _ q r h f g = absurd (ground (arith, h))
