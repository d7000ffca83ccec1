-- ===== src/Server/AppState/InStep.antt =====
-- The rows are in step with the correlator: what a patch brings up to date.
use ahp_inspector.Base.{
  some_injective, ℕ, Bool, true, false, Option, none, some, List, [], ◌∷◌, ◌≡◌, refl, sym, subst,
  ◌∙◌, ◌⊎◌, inl, inr, arith, ◌==◌, ==_iff, if◌then◌else◌, if-cases, length, get_elem?, set,
  get_elem?-set_self, get_elem?-set_ne, length-set, lt_of_get_elem?, Bool-cases,
}
use ahp_inspector.Base.Int.{ℤ, eq_ℤ_iff}
use ahp_inspector.Core.Correlator.{Correlator, pair_of, status_of}
use ahp_inspector.Core.Correlator.Changes.{listed}
use ahp_inspector.Core.Row.{EventRow, status_rank_iff}
use ahp_inspector.Core.Projection.{band_for}
use ahp_inspector.Server.Frames.{PatchUpdate}
use ahp_inspector.Server.AppState.Rows.{
  latency, patched, update_of, same_latency, same_pair, up_to_date, build_patch_updates, select,
}

-- the row says of its index what the correlator says
pub record InStep (c : Correlator) (i : ℕ) (row : EventRow) : Type 0 where
  pub status : row.status ≡ status_of c i
  pub latency : row.latency_ms ≡ latency c i
  pub pair : row.pair_idx ≡ pair_of c i

-- each row has the band of its latency, and is in step or waits in the list
pub record Behind (c : Correlator) (js : List ℕ) (rows : List EventRow) : Type 0 where
  pub band :
      (i : ℕ) (row : EventRow)
      → get_elem? rows i ≡ some row
      → row.latency_band ≡ band_for row.latency_ms
  pub waits :
      (i : ℕ) (row : EventRow) → get_elem? rows i ≡ some row → (listed js i ≡ true) ⊎ InStep c i row

same_latency-eq : (a b : Option ℤ) → same_latency a b ≡ true → a ≡ b
same_latency-eq none none h = refl
same_latency-eq none (some b) h = cc
same_latency-eq (some a) none h = cc
same_latency-eq (some a) (some b) h = let e : a ≡ b = (eq_ℤ_iff a b).0 h in cc

same_pair-eq : (a b : Option ℕ) → same_pair a b ≡ true → a ≡ b
same_pair-eq none none h = refl
same_pair-eq none (some b) h = cc
same_pair-eq (some a) none h = cc
same_pair-eq (some a) (some b) h = let e : a ≡ b = (==_iff a b).0 h in cc

InStep-up_to_date :
    (c : Correlator) (i : ℕ) (row : EventRow) → up_to_date c i row ≡ true → InStep c i row
unfolding up_to_date
InStep-up_to_date c i row h = record {
  status = (status_rank_iff row.status (status_of c i)).0 (ground (arith, h));
  latency = same_latency-eq row.latency_ms (latency c i) (ground (arith, h));
  pair = same_pair-eq row.pair_idx (pair_of c i) (ground (arith, h));
}

InStep-patched : (c : Correlator) (i : ℕ) (row : EventRow) → InStep c i (patched c i row)
unfolding patched
InStep-patched c i row = record { status = refl; latency = refl; pair = refl }

-- the row at the head of the list is in step, so it need not wait
Behind-drop :
    (c : Correlator) (j : ℕ) (js : List ℕ) (rows : List EventRow)
    → Behind c (j ∷ js) rows
    → ((row : EventRow) → get_elem? rows j ≡ some row → InStep c j row)
    → Behind c js rows
Behind-drop c j js rows b h = record {
  band = b.band;
  waits = λ i row e. other i row e (b.waits i row e);
}
  where
    other :
        (i : ℕ) (row : EventRow)
        → get_elem? rows i ≡ some row
        → (listed (j ∷ js) i ≡ true) ⊎ InStep c i row
        → (listed js i ≡ true) ⊎ InStep c i row
    other i row e (inr k) = inr k
    other i row e (inl l) = elim (Bool-cases (j == i)) [
      | inl same ↦
          let eq : j ≡ i = (==_iff j i).0 same in
          inr (
            subst (λ k. InStep c k row) eq
              (h row (subst (λ k. get_elem? rows k ≡ some row) (sym eq) e)))
      | inr apart ↦ inl (ground (arith, l, apart))
    ]

-- the row at `j` written anew, in step and with its band
Behind-set :
    (c : Correlator) (j : ℕ) (js : List ℕ) (rows : List EventRow) (prev row : EventRow)
    → get_elem? rows j ≡ some prev
    → Behind c (j ∷ js) rows
    → InStep c j row
    → row.latency_band ≡ band_for row.latency_ms
    → Behind c js (set rows j row)
Behind-set c j js rows prev row at_j b k band =
    Behind-drop c j js (set rows j row)
      (record {
        band = λ i r e. cases (λ r. r.latency_band ≡ band_for r.latency_ms) i r e band (b.band i r);
        waits = λ i r e. elim (Bool-cases (j == i)) [
          | inl same ↦ inl (ground (arith, same))
          | inr apart ↦ b.waits i r (sym (other i apart) ∙ e)
        ];
      })
      (λ r e. subst (InStep c j) (some_injective (sym self ∙ e)) k)
  where
    self : get_elem? (set rows j row) j ≡ some row
    self = get_elem?-set_self rows j row (lt_of_get_elem? rows j at_j)

    other : (i : ℕ) → (j == i) ≡ false → get_elem? (set rows j row) i ≡ get_elem? rows i
    other i apart = get_elem?-set_ne rows j i row (λ e. ground (arith, apart, (==_iff j i).1 e))

    cases :
        (P : EventRow → Type 0) (i : ℕ) (r : EventRow)
        → get_elem? (set rows j row) i ≡ some r
        → P row
        → (get_elem? rows i ≡ some r → P r)
        → P r
    cases P i r e p old = elim (Bool-cases (j == i)) [
      | inl same ↦
          subst P
            (some_injective (
              sym self
              ∙ subst (λ k. get_elem? (set rows j row) k ≡ some r) (sym ((==_iff j i).0 same)) e))
            p
      | inr apart ↦ old (sym (other i apart) ∙ e)
    ]

patched-band :
    (c : Correlator) (i : ℕ) (row : EventRow)
    → (patched c i row).latency_band ≡ band_for (patched c i row).latency_ms
unfolding patched
patched-band c i row = refl

-- Once the patches are built no row is behind, and there are as many rows as before.
pub build_patch_updates-Behind :
    (c : Correlator) (js : List ℕ) (rows : List EventRow)
    → Behind c js rows
    → Behind c [] (build_patch_updates c js rows).0
      × (length (build_patch_updates c js rows).0 ≡ length rows)
unfolding build_patch_updates
build_patch_updates-Behind c [] rows b = (b, refl)
build_patch_updates-Behind c (j ∷ js) rows b =
    by (get_elem? rows j) refl
      (λ h. build_patch_updates-Behind c js rows (Behind-drop c j js rows b h))
      (λ prev e. build_patch_updates-Behind c js (set rows j (patched c j prev)) (
        Behind-set c j js rows prev (patched c j prev) e b (InStep-patched c j prev)
          (patched-band c j prev)))
  where
    Fine : List EventRow × List PatchUpdate → Type 0
    Fine r = Behind c [] r.0 × (length r.0 ≡ length rows)

    by :
        (o : Option EventRow)
        → get_elem? rows j ≡ o
        → (((row : EventRow) → get_elem? rows j ≡ some row → InStep c j row)
            → Behind c [] (build_patch_updates c js rows).0
              × (length (build_patch_updates c js rows).0 ≡ length rows))
        → ((prev : EventRow)
            → get_elem? rows j ≡ some prev
            → Behind c [] (build_patch_updates c js (set rows j (patched c j prev))).0
              × (length (build_patch_updates c js (set rows j (patched c j prev))).0
                  ≡ length (set rows j (patched c j prev))))
        → Fine (elim o [
          | none ↦ build_patch_updates c js rows
          | some prev ↦
              let row = patched c j prev in
              let rest = build_patch_updates c js (set rows j row) in
              let skipped = build_patch_updates c js rows in
              if up_to_date c j prev then skipped else (rest.0, update_of row j ∷ rest.1)
        ])
    by none e skip write = skip (λ row h. absurd (ground (arith, sym e ∙ h)))
    by (some prev) e skip write =
        if-cases Fine (up_to_date c j prev) _ _
          (λ fresh. skip (λ row h.
            subst (InStep c j) (some_injective (sym e ∙ h)) (InStep-up_to_date c j prev fresh)))
          (λ stale. ((write prev e).0, (write prev e).1 ∙ length-set rows j (patched c j prev)))

-- what is wanted of a list
pub listed-select :
    (p : ℕ → Bool) (js : List ℕ) (i : ℕ)
    → p i ≡ true
    → listed js i ≡ true
    → listed (select p js) i ≡ true
unfolding select
listed-select p [] i h l = l
listed-select p (j ∷ js) i h l = elim (Bool-cases (j == i)) [
  | inl same ↦
      let e : p j ≡ true = subst (λ k. p k ≡ true) (sym ((==_iff j i).0 same)) h in
      rw e (ground (arith, same))
  | inr apart ↦
      let rest : listed js i ≡ true = ground (arith, l, apart) in
      ground (arith, listed-select p js i h rest)
]
