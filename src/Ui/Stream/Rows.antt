-- ===== src/Ui/Stream/Rows.antt =====
-- What the frames of a stream say of the rows, without queues, buffers and pauses.
use ahp_inspector.Base.{List, [], ◌∷◌, ◌++◌, ◌≡◌, refl, subst, length, arith}
use ahp_inspector.Core.Row.{EventRow}
use ahp_inspector.Server.Frames.{
  SsePayload, snapshot_end, append_rows, load_progress, stream_backlog, patch, ping, rotation,
  watch_error,
}
use ahp_inspector.Ui.Store.{PatchUpdate}
use ahp_inspector.Ui.Store.Slots.{patch_at, patch_all, Numbered, Numbered-patch_at, Numbered-append}
use ahp_inspector.Ui.Stream.{arrived_all}

unfoldable pub rows_after : List EventRow → SsePayload → List EventRow
rows_after rows (append_rows new_rows from) = rows ++ new_rows
rows_after rows (patch updates) = patch_all rows (arrived_all updates)
rows_after rows (rotation size reason) = []
rows_after rows _ = rows

unfoldable pub rows_after_all : List EventRow → List SsePayload → List EventRow
unfolding rows_after
rows_after_all rows [] = rows
rows_after_all rows (f ∷ fs) = rows_after_all (rows_after rows f) fs

-- a live frame of an open log that continues the rows
abbrev pub Fits : List EventRow → SsePayload → Type 0
Fits rows (append_rows new_rows from) = (from ≡ length rows) × Numbered (length rows) new_rows
Fits rows (patch updates) = Unit {0}
Fits rows (rotation size reason) = Unit {0}
Fits rows (load_progress progress) = Unit {0}
Fits rows (watch_error err) = Unit {0}
Fits rows snapshot_end = Unit {0}
Fits rows (stream_backlog frames backlog) = Unit {0}
Fits rows ping = Unit {0}
Fits rows _ = ⊥

-- one that waits in the queue: a rotation does not
abbrev pub Waits : List EventRow → SsePayload → Type 0
Waits rows (append_rows new_rows from) = (from ≡ length rows) × Numbered (length rows) new_rows
Waits rows (patch updates) = Unit {0}
Waits rows (load_progress progress) = Unit {0}
Waits rows snapshot_end = Unit {0}
Waits rows (stream_backlog frames backlog) = Unit {0}
Waits rows _ = ⊥

-- what holds of each frame and the rows before it
unfoldable pub FitsAll :
    (List EventRow → SsePayload → Type 0) → List EventRow → List SsePayload → Type 0
unfolding rows_after
FitsAll P rows [] = Unit {0}
FitsAll P rows (f ∷ fs) = P rows f × FitsAll P (rows_after rows f) fs

pub rows_after_all-append :
    (rows : List EventRow) (fs : List SsePayload) (f : SsePayload)
    → rows_after_all rows (fs ++ f ∷ []) ≡ rows_after (rows_after_all rows fs) f
unfolding rows_after_all
rows_after_all-append rows [] f = refl
rows_after_all-append rows (g ∷ fs) f = rows_after_all-append (rows_after rows g) fs f

pub FitsAll-append :
    (P : List EventRow → SsePayload → Type 0) (rows : List EventRow) (fs : List SsePayload)
    (f : SsePayload)
    → FitsAll P rows fs
    → P (rows_after_all rows fs) f
    → FitsAll P rows (fs ++ f ∷ [])
unfolding FitsAll rows_after_all
FitsAll-append P rows [] f h k = (k, tt)
FitsAll-append P rows (g ∷ fs) f h k = (h.0, FitsAll-append P (rows_after rows g) fs f h.1 k)

pub Numbered-patch_all :
    (rows : List EventRow) (us : List PatchUpdate)
    → Numbered 0 rows
    → Numbered 0 (patch_all rows us)
unfolding patch_all
Numbered-patch_all rows [] n = n
Numbered-patch_all rows (u ∷ us) n =
    Numbered-patch_all (patch_at rows u.idx u) us (Numbered-patch_at 0 rows u.idx u n)

-- Frames that wait leave the rows numbered.
pub rows_after-Numbered :
    (rows : List EventRow) (f : SsePayload)
    → Waits rows f
    → Numbered 0 rows
    → Numbered 0 (rows_after rows f)
unfolding rows_after
rows_after-Numbered rows (append_rows new_rows from) h n =
    Numbered-append 0 rows new_rows n (subst (λ k. Numbered k new_rows) (omega arith) h.1)
rows_after-Numbered rows (patch updates) h n = Numbered-patch_all rows (arrived_all updates) n
rows_after-Numbered rows (load_progress progress) h n = n
rows_after-Numbered rows snapshot_end h n = n
rows_after-Numbered rows (stream_backlog frames backlog) h n = n
rows_after-Numbered rows _ h n = absurd h
