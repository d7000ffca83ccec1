-- ===== src/Pipeline/Snapshot.antt =====
-- What a client makes of the snapshot of a stream.
use mathlib.Core.List.{append-nil, append_assoc}
use ahp_inspector.Base.{
  ℕ, zero, suc, ◌+◌, ◌≤◌, some, List, [], ◌∷◌, ◌++◌, map, ◌≡◌, refl, sym, ap, ◌∙◌, arith, length,
  length-append, take, inl, inr,
}
use ahp_inspector.Core.Row.{EventRow}
use ahp_inspector.Server.Frames.{
  SsePayload, LogMeta, LoadProgress, Phase, idle, loading, complete, snapshot_chunk, snapshot_end,
}
use ahp_inspector.Server.LogStream.Snapshot.{
  snapshot_chunk_rows, drop, snapshot_chunks, snapshot_frames, progress_frames, take-drop,
  take-full, drop-length,
}
use ahp_inspector.Ui.Store.{AppStore, put_all, append_snapshot_rows}
use ahp_inspector.Ui.Store.Slots.{put_all-length, with_rows-present}
use ahp_inspector.Ui.Stream.{apply_frame}

-- the frames, applied one after the other
unfoldable pub apply_frames : List SsePayload → AppStore → AppStore
unfolding apply_frame
apply_frames [] s = s
apply_frames (f ∷ fs) s = apply_frames fs (apply_frame f s).0

apply_frames-append :
    (fs gs : List SsePayload) (s : AppStore)
    → apply_frames (fs ++ gs) s ≡ apply_frames gs (apply_frames fs s)
unfolding apply_frames
apply_frames-append [] gs s = refl
apply_frames-append (f ∷ fs) gs s = apply_frames-append fs gs (apply_frame f s).0

chunk-rows :
    (chunk shown : List EventRow) (from : ℕ) (s : AppStore)
    → s.rows ≡ map some shown
    → from ≡ length shown
    → (apply_frame (snapshot_chunk chunk from) s).0.rows ≡ map some (shown ++ chunk)
unfolding apply_frame append_snapshot_rows
chunk-rows chunk shown from s r e =
    let (t, kept, rows, held, pause) = with_rows-present (shown ++ chunk) s in
    let put = ap (λ slots. put_all slots from chunk) r ∙ put_all-length shown chunk from e in
    rw (put, kept) rows

snapshot_chunks-rows :
    (fuel from : ℕ) (rows shown : List EventRow) (s : AppStore)
    → length rows ≤ fuel
    → s.rows ≡ map some shown
    → from ≡ length shown
    → (apply_frames (snapshot_chunks fuel from rows) s).rows ≡ map some (shown ++ rows)
unfolding snapshot_chunks apply_frames
snapshot_chunks-rows fuel from [] shown s enough r e = r ∙ ap (map some) (sym (append-nil shown))
snapshot_chunks-rows zero from (row ∷ rows) shown s enough r e = absurd (omega (arith, enough))
snapshot_chunks-rows (suc fuel) from (row ∷ rows) shown s enough r e =
    let chunk = take snapshot_chunk_rows (row ∷ rows) in
    let left = drop snapshot_chunk_rows (row ∷ rows) in
    let t = (apply_frame (snapshot_chunk chunk from) s).0 in
    let placed = chunk-rows chunk shown from s r e in
    elim (take-full snapshot_chunk_rows (row ∷ rows)) [
      | inl empty ↦
          ap
            (λ rest. (apply_frames (snapshot_chunks fuel (from + snapshot_chunk_rows) rest) t).rows)
            empty
          ∙ placed
          ∙ ap (map some) (
              ap (◌++◌ shown) (
                sym (append-nil chunk)
                ∙ ap (◌++◌ chunk) (sym empty)
                ∙ take-drop snapshot_chunk_rows (row ∷ rows)))
      | inr full ↦
          snapshot_chunks-rows fuel (from + snapshot_chunk_rows) left (shown ++ chunk) t
            (omega (arith, enough, drop-length 1999 rows)) placed
            (omega (arith, e, full, length-append {0} shown chunk))
          ∙ ap (map some) (
              append_assoc shown chunk left
              ∙ ap (◌++◌ shown) (take-drop snapshot_chunk_rows (row ∷ rows)))
    ]

after_chunks :
    (phase : Phase) (progress : LoadProgress) (s : AppStore)
    → (apply_frames (snapshot_end ∷ progress_frames phase progress) s).rows ≡ s.rows
unfolding apply_frames apply_frame
after_chunks idle progress s = refl
after_chunks loading progress s = refl
after_chunks complete progress s = refl

-- A client whose rows were emptied at the beginning of a snapshot shows the snapshot's rows once it has
-- applied its frames, however many chunks these are.
pub snapshot_frames-rows :
    (meta : LogMeta) (rows : List EventRow) (progress : LoadProgress) (s : AppStore)
    → s.rows ≡ []
    → (apply_frames (snapshot_frames meta rows progress) s).rows ≡ map some rows
unfolding snapshot_frames apply_frames apply_frame
snapshot_frames-rows meta rows progress s r =
    ap (λ t. t.rows) (apply_frames-append (snapshot_chunks (length rows) 0 rows) _ s)
    ∙ after_chunks progress.phase progress (apply_frames (snapshot_chunks (length rows) 0 rows) s)
    ∙ snapshot_chunks-rows (length rows) 0 rows [] s (omega arith) r refl
