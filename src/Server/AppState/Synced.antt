-- ===== src/Server/AppState/Synced.antt =====
-- The store's listeners keep the rows and the search index in step with the store and the correlator.
use ahp_inspector.Base.{ℕ, Bool, true, List, [], ◌∷◌, ◌≡◌, refl, sym, ◌∙◌, ◌⊎◌, inl, inr, length}
use ahp_inspector.Base.Int.{ℤ}
use ahp_inspector.Core.Store.{EventStore}
use ahp_inspector.Core.Correlator.{
  Correlator, pair_of, latency_of, status_of, flush, drain_changed_indexes,
}
use ahp_inspector.Core.Correlator.Changes.{listed, Kept, Kept-flush}
use ahp_inspector.Core.Row.{EventRow}
use ahp_inspector.Server.SearchIndex.{SearchIndex}
use ahp_inspector.Server.Frames.{PatchUpdate}
use ahp_inspector.Server.AppState.{AppState}
use ahp_inspector.Server.AppState.Rows.{select, take_changes, run_flush, send_patch}
use ahp_inspector.Server.AppState.InStep.{InStep, Behind, build_patch_updates-Behind, listed-select}

-- each row says what the correlator says of its event, there is a row for each event, and the search
-- index holds the store's events
pub record Synced (store : EventStore) (rows : List EventRow) (c : Correlator) (idx : SearchIndex)
    : Type 0 where
  pub behind : Behind c [] rows
  pub counted : length rows ≡ length store.events
  pub indexed : idx.events ≡ store.events

abbrev pub IsSynced : AppState → Type 0
IsSynced s = Synced s.store s.rows s.correlator s.search_idx

pub InStep-Kept :
    (c d : Correlator) (i : ℕ) (row : EventRow)
    → Kept c d i
    → InStep c i row
    → (listed d.changed_indexes i ≡ true) ⊎ InStep d i row
InStep-Kept c d i row k h = by k.kept
  where
    by :
        (listed d.changed_indexes i ≡ true)
          ⊎ ((d.pair_idx i ≡ c.pair_idx i)
              × (d.latency_ms i ≡ c.latency_ms i)
              × (d.status i ≡ c.status i))
        → (listed d.changed_indexes i ≡ true) ⊎ InStep d i row
    by (inl l) = inl l
    by (inr (p, l, s)) = inr (record {
      status = h.status ∙ sym (unfold status_of in rw s);
      latency = h.latency ∙ sym (unfold latency_of in rw l);
      pair = h.pair ∙ sym (unfold pair_of in rw p);
    })

InStep-drained :
    (c : Correlator) (i : ℕ) (row : EventRow)
    → InStep c i row
    → InStep (drain_changed_indexes c).1 i row
unfolding drain_changed_indexes status_of latency_of pair_of
InStep-drained c i row h = record { status = h.status; latency = h.latency; pair = h.pair }

Behind-drained :
    (c : Correlator) (js : List ℕ) (rows : List EventRow)
    → Behind c js rows
    → Behind (drain_changed_indexes c).1 js rows
Behind-drained c js rows b = record { band = b.band; waits = λ i row e. by i row (b.waits i row e) }
  where
    by :
        (i : ℕ) (row : EventRow)
        → (listed js i ≡ true) ⊎ InStep c i row
        → (listed js i ≡ true) ⊎ InStep (drain_changed_indexes c).1 i row
    by i row (inl l) = inl l
    by i row (inr h) = inr (InStep-drained c i row h)

-- A drain brings up to date what it wants.
pub take_changes-Synced :
    (wanted : ℕ → Bool) (s : AppState)
    → Behind s.correlator (select wanted s.correlator.changed_indexes) s.rows
    → length s.rows ≡ length s.store.events
    → s.search_idx.events ≡ s.store.events
    → IsSynced (take_changes wanted s).0
unfolding take_changes
take_changes-Synced wanted s b counted indexed =
    let changed = (drain_changed_indexes s.correlator).0 in
    let built =
      build_patch_updates-Behind (drain_changed_indexes s.correlator).1
        (select wanted s.correlator.changed_indexes) s.rows
        (Behind-drained s.correlator _ s.rows b) in
    unfold drain_changed_indexes in
    record { behind = built.0; counted = built.1 ∙ counted; indexed = indexed }

pub send_patch-Synced :
    (us : List PatchUpdate) (s : AppState) → IsSynced s → IsSynced (send_patch us s)
send_patch-Synced [] s h = h
send_patch-Synced (u ∷ us) s h = h

-- an index that is noted as changed and wanted waits
pub still :
    (wanted : ℕ → Bool) (c : Correlator) (i : ℕ) (row : EventRow)
    → wanted i ≡ true
    → (listed c.changed_indexes i ≡ true) ⊎ InStep c i row
    → (listed (select wanted c.changed_indexes) i ≡ true) ⊎ InStep c i row
still wanted c i row w (inl l) = inl (listed-select wanted c.changed_indexes i w l)
still wanted c i row w (inr k) = inr k

pub run_flush-Synced :
    (now timeout : ℤ) (s : AppState) → IsSynced s → IsSynced (run_flush now timeout s)
unfolding run_flush
run_flush-Synced now timeout s h =
    let c = flush s.store s.correlator now timeout in
    let flushed = record s { correlator = c } in
    send_patch-Synced _ _ (
      take_changes-Synced (λ idx. true) flushed
        (record { band = h.behind.band; waits = λ i row e. by i row (h.behind.waits i row e) })
        h.counted h.indexed)
  where
    by :
        (i : ℕ) (row : EventRow)
        → (listed [] i ≡ true) ⊎ InStep s.correlator i row
        → (listed (select (λ idx. true) (flush s.store s.correlator now timeout).changed_indexes) i
            ≡ true)
          ⊎ InStep (flush s.store s.correlator now timeout) i row
    by i row (inl l) = cc
    by i row (inr k) =
        still (λ idx. true) (flush s.store s.correlator now timeout) i row refl
          (InStep-Kept s.correlator (flush s.store s.correlator now timeout) i row
            (Kept-flush s.correlator i s.store now timeout) k)
