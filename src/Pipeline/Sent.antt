-- ===== src/Pipeline/Sent.antt =====
-- The frames that an open log has sent lead from no rows to its rows.
use ahp_inspector.Base.{
  ℕ, ◌+◌, Bool, true, false, List, [], ◌∷◌, ◌++◌, ◌≡◌, sym, ap, subst, ◌∙◌, arith, length, ltb,
  if◌then◌else◌,
}
use ahp_inspector.Base.Int.{ℤ}
use ahp_inspector.Shared.Event.{AhpEvent}
use ahp_inspector.Core.Store.{size}
use ahp_inspector.Core.Correlator.{flush, drain_changed_indexes}
use ahp_inspector.Core.Row.{EventRow}
use ahp_inspector.Server.Frames.{
  LoadProgress, SsePayload, append_rows, load_progress, patch, watch_error, PatchUpdate, WatchError,
  oversized_line,
}
use ahp_inspector.Server.AppState.{
  Runtime, AppState, emit_watch_error, on_oversized_bytes, oversized_message,
}
use ahp_inspector.Server.AppState.Rows.{
  select, take_changes, send_patch, run_flush, store_append, on_store_append, add_row, build_row,
  put_row,
}
use ahp_inspector.Server.AppState.Synced.{IsSynced}
use ahp_inspector.Server.AppState.Appended.{correlated, put_row-end}
use ahp_inspector.Core.Projection.Shows.{project_row-idx}
use ahp_inspector.Ui.Stream.{arrived_all}
use ahp_inspector.Ui.Store.Slots.{Numbered, Numbered-append, patch_all}
use ahp_inspector.Ui.Stream.Rows.{
  rows_after, rows_after_all, Fits, FitsAll, rows_after_all-append, FitsAll-append,
  Numbered-patch_all,
}
use ahp_inspector.Pipeline.Patches.{patch_all-build}

-- the frames sent tell these rows, each fits the rows before it, and the rows are numbered
pub record Tells (sent : List SsePayload) (rows : List EventRow) : Type 0 where
  pub told : rows_after_all [] sent ≡ rows
  pub fit : FitsAll Fits [] sent
  pub numbered : Numbered 0 rows

abbrev pub IsTold : AppState → Type 0
IsTold s = Tells s.sent s.rows

pub Tells-send :
    (sent : List SsePayload) (rows : List EventRow) (f : SsePayload)
    → Tells sent rows
    → Fits rows f
    → Numbered 0 (rows_after rows f)
    → Tells (sent ++ f ∷ []) (rows_after rows f)
Tells-send sent rows f t h n = record {
  told = rows_after_all-append [] sent f ∙ ap (λ xs. rows_after xs f) t.told;
  fit = FitsAll-append Fits [] sent f t.fit (subst (λ xs. Fits xs f) (sym t.told) h);
  numbered = n;
}

warning-Tells :
    (sent : List SsePayload) (rows : List EventRow) (w : WatchError)
    → Tells sent rows
    → Tells (sent ++ watch_error w ∷ []) rows
unfolding rows_after
warning-Tells sent rows w t = Tells-send sent rows (watch_error w) t tt t.numbered

pub emit_watch_error-Told :
    (w : WatchError) (s : AppState) → IsTold s → IsTold (emit_watch_error w s)
unfolding emit_watch_error
emit_watch_error-Told w s t = warning-Tells s.sent s.rows w t

pub on_oversized_bytes-Told :
    (dropped terminator : ℕ) (s : AppState)
    → IsTold s
    → IsTold (on_oversized_bytes dropped terminator s)
unfolding on_oversized_bytes emit_watch_error
on_oversized_bytes-Told dropped terminator s t = by s.oversized_warning_active (ltb 0 terminator)
  where
    warned : (w : WatchError) → Tells (s.sent ++ watch_error w ∷ []) s.rows
    warned w = warning-Tells s.sent s.rows w t

    by :
        (active ended : Bool)
        → IsTold (
            let counted = record s { byte_offset = s.byte_offset + (dropped + terminator) } in
            let told =
              if active
              then counted
              else emit_watch_error
                  (record { code = oversized_line; message = oversized_message dropped })
                  (record counted { oversized_warning_active = true }) in
            if ended then record told { oversized_warning_active = false } else told)
    by true true = t
    by true false = t
    by false true = warned _
    by false false = warned _

pub progress-Tells :
    (sent : List SsePayload) (rows : List EventRow) (p : LoadProgress)
    → Tells sent rows
    → Tells (sent ++ load_progress p ∷ []) rows
unfolding rows_after
progress-Tells sent rows p t = Tells-send sent rows (load_progress p) t tt t.numbered

-- rows that the updates make of those told
send_patch-Told :
    (us : List PatchUpdate) (before : List EventRow) (s : AppState)
    → patch_all before (arrived_all us) ≡ s.rows
    → Tells s.sent before
    → IsTold (send_patch us s)
unfolding patch_all rows_after
send_patch-Told [] before s e t = subst (Tells s.sent) e t
send_patch-Told (u ∷ us) before s e t = subst (Tells (s.sent ++ patch (u ∷ us) ∷ [])) e (
    Tells-send s.sent before (patch (u ∷ us)) t tt
      (Numbered-patch_all before (arrived_all (u ∷ us)) t.numbered))

pub run_flush-Told : (now timeout : ℤ) (s : AppState) → IsTold s → IsTold (run_flush now timeout s)
unfolding run_flush take_changes
run_flush-Told now timeout s t =
    let drained = drain_changed_indexes (flush s.store s.correlator now timeout) in
    send_patch-Told _ s.rows _ (patch_all-build drained.1 (select (λ idx. true) drained.0) s.rows) t

-- the row of a new event, behind the others
append-Tells :
    (sent : List SsePayload) (rows : List EventRow) (row : EventRow) (i : ℕ)
    → Tells sent rows
    → i ≡ length rows
    → row.idx ≡ i
    → Tells (sent ++ append_rows (row ∷ []) i ∷ []) (rows ++ row ∷ [])
unfolding rows_after
append-Tells sent rows row i t e k =
    Tells-send sent rows (append_rows (row ∷ []) i) t (e, (k ∙ e, tt))
      (Numbered-append 0 rows (row ∷ []) t.numbered (omega (arith, k, e), tt))

module _ (rt : Runtime) where
  pub store_append-Told :
      (s : AppState) (ev : AhpEvent) → IsSynced s → IsTold s → IsTold (store_append rt ev s)
  unfolding store_append on_store_append take_changes size add_row
  store_append-Told s ev h t =
      let row = build_row rt (correlated s ev) (length s.store.events) ev in
      let drained = drain_changed_indexes (correlated s ev).correlator in
      let last : put_row s.rows (length s.store.events) row ≡ s.rows ++ row ∷ [] =
        put_row-end s.rows row (length s.store.events) (sym h.counted) in
      let built =
        patch_all-build drained.1 (select (λ idx. ltb idx (length s.store.events)) drained.0)
          (put_row s.rows (length s.store.events) row) in
      send_patch-Told _ (put_row s.rows (length s.store.events) row) _ built (
        subst (Tells _) (sym last) (
          append-Tells s.sent s.rows row (length s.store.events) t (sym h.counted)
            (unfold build_row in project_row-idx rt.lib rt.summarize ev _ _ _ _ _)))
