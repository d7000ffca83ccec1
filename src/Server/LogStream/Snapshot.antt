-- ===== src/Server/LogStream/Snapshot.antt =====
-- packages/server/src/sse-routes.ts: the snapshot that a stream begins with, where no end cuts it off.
use ahp_inspector.Base.{
  ℕ, zero, suc, ◌+◌, ◌≤◌, List, [], ◌∷◌, ◌++◌, ◌≡◌, refl, ap, arith, length, take, ◌⊎◌, inl, inr,
}
use ahp_inspector.Core.Row.{EventRow}
use ahp_inspector.Server.Frames.{
  SsePayload, LogMeta, LoadProgress, Phase, idle, loading, complete, snapshot_begin, snapshot_chunk,
  snapshot_end, load_progress,
}

abbrev pub snapshot_chunk_rows : ℕ
snapshot_chunk_rows = 2000

-- `rows.slice(n)`
abbrev pub drop : ℕ → List EventRow → List EventRow
drop zero rows = rows
drop (suc n) [] = []
drop (suc n) (row ∷ rows) = drop n rows

-- the loop over the rows; `fuel` is their number
unfoldable pub snapshot_chunks : ℕ → ℕ → List EventRow → List SsePayload
snapshot_chunks fuel from [] = []
snapshot_chunks zero from (row ∷ rows) = []
snapshot_chunks (suc fuel) from (row ∷ rows) =
    snapshot_chunk (take snapshot_chunk_rows (row ∷ rows)) from
    ∷ snapshot_chunks fuel (from + snapshot_chunk_rows) (drop snapshot_chunk_rows (row ∷ rows))

abbrev pub progress_frames : Phase → LoadProgress → List SsePayload
progress_frames idle progress = []
progress_frames loading progress = load_progress progress ∷ []
progress_frames complete progress = load_progress progress ∷ []

-- what is written before the stream goes live
unfoldable pub snapshot_frames : LogMeta → List EventRow → LoadProgress → List SsePayload
unfolding snapshot_chunks
snapshot_frames meta rows progress =
    snapshot_begin meta (length rows)
    ∷ (snapshot_chunks (length rows) 0 rows
        ++ snapshot_end ∷ progress_frames progress.phase progress)

pub take-drop : (n : ℕ) (rows : List EventRow) → take n rows ++ drop n rows ≡ rows
take-drop zero rows = refl
take-drop (suc n) [] = refl
take-drop (suc n) (row ∷ rows) = ap (◌∷◌ row) (take-drop n rows)

-- nothing is left, or the chunk is full
pub take-full : (n : ℕ) (rows : List EventRow) → (drop n rows ≡ []) ⊎ (length (take n rows) ≡ n)
take-full zero rows = inr refl
take-full (suc n) [] = inl refl
take-full (suc n) (row ∷ rows) = elim (take-full n rows) [
  | inl empty ↦ inl empty
  | inr full ↦ inr (ap suc full)
]

pub drop-length : (n : ℕ) (rows : List EventRow) → length (drop n rows) ≤ length rows
drop-length zero rows = omega arith
drop-length (suc n) [] = omega arith
drop-length (suc n) (row ∷ rows) = omega (arith, drop-length n rows)
