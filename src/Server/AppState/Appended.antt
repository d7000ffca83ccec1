-- ===== src/Server/AppState/Appended.antt =====
-- An event that is appended gets a row, in step like the others.
use ahp_inspector.Base.{
  some_injective, ℕ, ◌<◌, ◌≤◌, true, false, none, some, List, [], ◌∷◌, ◌++◌, ◌≡◌, refl, sym, ap,
  subst, ◌∙◌, ◌⊎◌, inl, inr, arith, length, get_elem?, length-append, get_elem?-append_lt,
  get_elem?-append_length, lt_of_get_elem?, Bool-cases, ltb, leb, lt→ltb,
}
use ahp_inspector.Shared.Event.{AhpEvent, EventKind}
use ahp_inspector.Core.Store
use ahp_inspector.Core.Store.{EventStore, at, size, range_of}
use ahp_inspector.Core.Correlator.{
  Correlator, n_a, pair_of, latency_of, status_of, on_event, on_append,
}
use ahp_inspector.Core.Correlator.Changes.{listed, Kept, Kept-on_event, idle_slots}
use ahp_inspector.Core.Correlator.Runs.{on_append_one}
use ahp_inspector.Core.Row.{EventRow}
use ahp_inspector.Core.Projection.{band_for}
use ahp_inspector.Core.Projection.Shows.{Shows, project_row-Shows}
use ahp_inspector.Server.SearchIndex.{append_event}
use ahp_inspector.Server.AppState.{Runtime, AppState}
use ahp_inspector.Server.AppState.Rows.{
  latency, select, put_row, build_row, add_row, on_store_append, store_append, extras_of,
}
use ahp_inspector.Server.AppState.InStep.{InStep, Behind}
use ahp_inspector.Server.AppState.Synced.{
  IsSynced, InStep-Kept, take_changes-Synced, send_patch-Synced, still,
}

ge-le : (i n : ℕ) → ltb i n ≡ false → n ≤ i
ge-le i n h = ground arith

pub put_row-end :
    (rows : List EventRow) (row : EventRow) (i : ℕ)
    → i ≡ length rows
    → put_row rows i row ≡ rows ++ row ∷ []
unfolding put_row
put_row-end rows row i e = let full : ltb i (length rows) ≡ false = ground arith in rw full refl

-- the state as the store's second listener finds it
abbrev pub correlated : AppState → AhpEvent → AppState
correlated s ev =
    let store = Store.append s.store ev in
    record s { store = store; correlator = on_append store s.correlator (range_of s.store) }

-- what a row shows is what the correlator says, also where both are silent
Shows-settled :
    (row : EventRow) (c : Correlator) (n : ℕ) (P : Type 0)
    → (P × Shows row n_a none none) ⊎ Shows row (status_of c n) (latency c n) (pair_of c n)
    → (P → (pair_of c n ≡ none) × (latency_of c n ≡ none) × (status_of c n ≡ n_a))
    → Shows row (status_of c n) (latency c n) (pair_of c n)
Shows-settled row c n P (inr shows) silent = shows
Shows-settled row c n P (inl (p, shows)) silent =
    rw ((silent p).0, (silent p).1, (silent p).2) shows

module _ (rt : Runtime) (s : AppState) (ev : AhpEvent) (h : IsSynced s) where
  at_new : at (Store.append s.store ev) (length s.store.events) ≡ some ev
  unfolding at Store.append
  at_new = get_elem?-append_length s.store.events ev []

  one_event :
      on_append (Store.append s.store ev) s.correlator (range_of s.store)
      ≡ on_event (Store.append s.store ev) s.correlator (length s.store.events)
  one_event = on_append_one (Store.append s.store ev) s.correlator s.store

  Kept-old : (i : ℕ) → i < length s.store.events → Kept s.correlator (correlated s ev).correlator i
  Kept-old i lt =
      subst (λ c. Kept s.correlator c i) (sym one_event)
        (Kept-on_event s.correlator i (Store.append s.store ev) (length s.store.events) ev
          (λ e. absurd (omega (arith, e))) at_new)

  new_row : EventRow
  unfolding build_row
  new_row = build_row rt (correlated s ev) (length s.store.events) ev

  Shows-new :
      Shows new_row
        (status_of (correlated s ev).correlator (length s.store.events))
        (latency (correlated s ev).correlator (length s.store.events))
        (pair_of (correlated s ev).correlator (length s.store.events))
  unfolding new_row build_row extras_of
  Shows-new =
      Shows-settled new_row (correlated s ev).correlator (length s.store.events)
        (ev.kind ≡ EventKind.parse_error)
        (project_row-Shows rt.lib rt.summarize ev (length s.store.events) _ _ _ _)
        (λ k.
          subst
            (λ c.
              (pair_of c (length s.store.events) ≡ none)
              × (latency_of c (length s.store.events) ≡ none)
              × (status_of c (length s.store.events) ≡ n_a))
            (sym one_event)
            (idle_slots (Store.append s.store ev) s.correlator (length s.store.events) ev at_new k))

  added : AppState
  added = add_row rt (length s.store.events) ev (correlated s ev)

  rows-added : added.rows ≡ s.rows ++ new_row ∷ []
  unfolding added add_row new_row
  rows-added = put_row-end s.rows new_row (length s.store.events) (sym h.counted)

  waits-old :
      (i : ℕ) (row : EventRow)
      → i < length s.store.events
      → (listed [] i ≡ true) ⊎ InStep s.correlator i row
      → (listed
            (select
              (λ idx. ltb idx (length s.store.events))
              (correlated s ev).correlator.changed_indexes)
            i
          ≡ true)
        ⊎ InStep (correlated s ev).correlator i row
  waits-old i row lt (inl l) = cc
  waits-old i row lt (inr k) =
      still (λ idx. ltb idx (length s.store.events)) (correlated s ev).correlator i row
        (lt→ltb i (length s.store.events) lt)
        (InStep-Kept s.correlator (correlated s ev).correlator i row (Kept-old i lt) k)

  counted-added : length added.rows ≡ length added.store.events
  unfolding added add_row Store.append
  counted-added = omega (
    arith,
    ap length rows-added,
    length-append {0} s.rows (new_row ∷ []),
    length-append {0} s.store.events (ev ∷ []),
    h.counted,
  )

  indexed-added : added.search_idx.events ≡ added.store.events
  unfolding added add_row Store.append append_event
  indexed-added =
      let missing : leb (length s.search_idx.events) (length s.store.events) ≡ true =
        rw h.indexed (ground arith) in
      rw missing (rw h.indexed refl)

  row-last : get_elem? (s.rows ++ new_row ∷ []) (length s.store.events) ≡ some new_row
  row-last =
      subst (λ k. get_elem? (s.rows ++ new_row ∷ []) k ≡ some new_row) h.counted
        (get_elem?-append_length s.rows new_row [])

  row-added :
      (P : ℕ → EventRow → Type 0) (i : ℕ) (row : EventRow)
      → get_elem? added.rows i ≡ some row
      → (i < length s.store.events → get_elem? s.rows i ≡ some row → P i row)
      → P (length s.store.events) new_row
      → P i row
  row-added P i row e old new =
      let at_i : get_elem? (s.rows ++ new_row ∷ []) i ≡ some row =
        subst (λ rows. get_elem? rows i ≡ some row) rows-added e in
      elim (Bool-cases (ltb i (length s.store.events))) [
        | inl lt ↦ old (ground (arith, lt)) (
            sym (get_elem?-append_lt s.rows (new_row ∷ []) i (ground (arith, lt, h.counted)))
            ∙ at_i)
        | inr ge ↦
            let same : length s.store.events ≡ i = omega (
              arith,
              lt_of_get_elem? (s.rows ++ new_row ∷ []) i at_i,
              length-append {0} s.rows (new_row ∷ []),
              h.counted,
              ge-le i (length s.store.events) ge,
            ) in
            let shown : get_elem? (s.rows ++ new_row ∷ []) i ≡ some new_row =
              subst (λ k. get_elem? (s.rows ++ new_row ∷ []) k ≡ some new_row) same row-last in
            subst (λ k. P k row) same
              (subst (P (length s.store.events)) (some_injective (sym shown ∙ at_i)) new)
      ]

  Behind-added :
      Behind added.correlator
        (select (λ idx. ltb idx (length s.store.events)) added.correlator.changed_indexes)
        added.rows
  unfolding added add_row
  Behind-added = record {
    band = λ i row e.
        row-added (λ i row. row.latency_band ≡ band_for row.latency_ms) i row e
          (λ lt e. h.behind.band i row e) (Shows-new.3 ∙ ap band_for (sym Shows-new.1));
    waits = λ i row e.
        row-added
          (λ i row.
            (listed
                (select (λ idx. ltb idx (length s.store.events))
                  (correlated s ev).correlator.changed_indexes)
                i
              ≡ true)
            ⊎ InStep (correlated s ev).correlator i row)
          i row e (λ lt e. waits-old i row lt (h.behind.waits i row e))
          (inr (record { status = Shows-new.0; latency = Shows-new.1; pair = Shows-new.2 }));
  }

  -- The listener of the store leaves the rows in step.
  pub store_append-Synced : IsSynced (store_append rt ev s)
  unfolding store_append on_store_append size added
  store_append-Synced = send_patch-Synced _ _ (
      take_changes-Synced (λ idx. ltb idx (length s.store.events)) added Behind-added counted-added
        indexed-added)
