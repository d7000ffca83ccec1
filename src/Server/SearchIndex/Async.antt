-- ===== src/Server/SearchIndex/Async.antt =====
-- A search that yields: other code may append events or reset the index while it waits.
use mathlib.Core.List.{append_assoc, append-nil}
use ahp_inspector.Base.{
  ℕ, zero, suc, ◌+◌, ◌≤◌, ◌<◌, ◌⊎◌, inl, inr, String, Bool, true, false, ◌&&◌, Option, none, some,
  List, [], ◌∷◌, ◌++◌, ◌≡◌, refl, sym, ap, subst, ◌∙◌, arith, if◌then◌else◌, if-cases, option-cases,
  Bool-cases, leb, ◌==◌, length, length-append, get_elem?-append_lt,
}
use ahp_inspector.Shared.Event.{AhpEvent}
use ahp_inspector.Server.SearchIndex.{
  SearchIndex, ScanResult, Change, appends, resets, change, append_event, reset, visit, yields_at,
  scan_generation, attempts, scan_async,
}
use ahp_inspector.Server.SearchIndex.Texts.{
  IsValid, matches_at, visit-IsAfter, append_event-IsValid, reset-IsValid,
}
use ahp_inspector.Server.SearchIndex.Scan.{hits, cut, found, cut_short, cut_full}

-- The index has gone on from these events, or has been reset since that generation.
abbrev pub Later : List AhpEvent → ℕ → SearchIndex → Type 0
Later events generation t =
    ((t.generation ≡ generation) × ((more : List AhpEvent) × (t.events ≡ events ++ more)))
    ⊎ (generation < t.generation)

-- whether these changes reset the index
abbrev pub has_reset : List Change → Bool
has_reset [] = false
has_reset (appends ev ∷ cs) = has_reset cs
has_reset (resets ∷ cs) = true

change-generation :
    (cs : List Change) (s : SearchIndex)
    → has_reset cs ≡ false
    → (change cs s).generation ≡ s.generation
unfolding change append_event
change-generation [] s h = refl
change-generation (appends ev ∷ cs) s h = change-generation cs (append_event ev s) h
change-generation (resets ∷ cs) s h = absurd (ground (arith, h))

was_reset :
    (cs : List Change) (t : SearchIndex) (generation : ℕ)
    → t.generation ≡ generation
    → generation < (change cs t).generation
    → has_reset cs ≡ true
was_reset cs t generation g newer = elim (Bool-cases (has_reset cs)) [
  | inl yes_it_was ↦ yes_it_was
  | inr none_was ↦ absurd (omega (arith, change-generation cs t none_was, g, newer))
]

module _ (lower : String → String) where
  change-Later :
      (cs : List Change) (events : List AhpEvent) (generation : ℕ) (s : SearchIndex)
      → IsValid lower s
      → Later events generation s
      → IsValid lower (change cs s) × Later events generation (change cs s)
  unfolding change
  change-Later [] events generation s v l = (v, l)
  change-Later (appends ev ∷ cs) events generation s v l =
      change-Later cs events generation (append_event ev s) (append_event-IsValid lower ev s v)
        (grown l)
    where
      grown : Later events generation s → Later events generation (append_event ev s)
      grown (inl (g, (more, e))) =
          unfold append_event in
          inl
            (g, (more ++ ev ∷ [], ap (λ es. es ++ ev ∷ []) e ∙ append_assoc events more (ev ∷ [])))
      grown (inr l) = unfold append_event in inr l
  change-Later (resets ∷ cs) events generation s v l =
      change-Later cs events generation (reset s) (reset-IsValid lower s) (newer l)
    where
      newer : Later events generation s → Later events generation (reset s)
      newer (inl (g, _)) = unfold reset in inr (omega (arith, g))
      newer (inr l) = unfold reset in inr (omega (arith, l))

  matches_at-longer :
      (q : String) (events more : List AhpEvent) (i : ℕ)
      → i < length events
      → matches_at lower q (events ++ more) i ≡ matches_at lower q events i
  unfolding matches_at
  matches_at-longer q events more i h = rw (get_elem?-append_lt events more i h) refl

  -- the search found these, or found the index reset
  abbrev pub Searched :
      (ℕ → List Change) → ℕ → ℕ → List ℕ → Option ScanResult × SearchIndex → Type 0
  Searched others limit generation xs (o, t) =
      IsValid lower t
      × (((o ≡ some (cut limit xs)) × (t.generation ≡ generation))
          ⊎ ((o ≡ none) × (generation < t.generation) × ((i : ℕ) × (has_reset (others i) ≡ true))))

  -- one more index, found or not
  one_more :
      (b : Bool) (matches rest : List ℕ) (i : ℕ)
      → (matches ++ (if b then i ∷ [] else [])) ++ rest ≡ matches ++ (if b then i ∷ rest else rest)
  one_more true matches rest i = append_assoc matches (i ∷ []) rest
  one_more false matches rest i = ap (λ xs. xs ++ rest) (append-nil matches)

  room :
      (b : Bool) (limit i : ℕ) (matches : List ℕ)
      → length matches ≤ limit
      → (b && leb limit (length matches)) ≡ false
      → length (matches ++ (if b then i ∷ [] else [])) ≤ limit
  room true limit i matches h e = ground (arith, h, e, length-append matches (i ∷ []))
  room false limit i matches h e = omega (arith, h, length-append matches [])

  full :
      (b : Bool) (limit i : ℕ) (matches rest : List ℕ)
      → length matches ≤ limit
      → (b && leb limit (length matches)) ≡ true
      → found matches true ≡ cut limit (matches ++ (if b then i ∷ rest else rest))
  full true limit i matches rest h e = cut_full limit i matches rest h (ground (arith, e))
  full false limit i matches rest h e = absurd (ground (arith, e))

  module _ (q : String) (limit yield_every : ℕ) (others : ℕ → List Change) (events : List AhpEvent)
      (generation : ℕ) where
    rounds-Searched :
        (rounds i : ℕ) (matches : List ℕ) (s : SearchIndex) (more : List AhpEvent)
        → length matches ≤ limit
        → IsValid lower s
        → s.generation ≡ generation
        → s.events ≡ events ++ more
        → i + rounds ≤ length events
        → Searched others limit generation
            (matches ++ hits lower q events rounds i)
            (scan_generation lower q limit yield_every generation others rounds i matches s)
    unfolding scan_generation hits
    rounds-Searched zero i matches s more h v g e k =
        if-cases (λ o. Searched others limit generation (matches ++ []) (o, s))
          (generation == s.generation) _ _ (λ _. (v, inl (ap some (cut_short limit matches h), g)))
          (λ other. absurd (ground (arith, g, other)))
    rounds-Searched (suc rounds) i matches s more h v g e k =
        let b = (visit lower q i s).0 in
        let t = (visit lower q i s).1 in
        let (told, seen) = visit-IsAfter lower q i s v in
        let rest = hits lower q events rounds (i + 1) in
        let next = matches ++ (if b then i ∷ [] else []) in
        let right : b ≡ matches_at lower q events i =
          told
          ∙ ap (λ es. matches_at lower q es i) e
          ∙ matches_at-longer q events more i (omega (arith, k)) in
        subst
          (λ c.
            Searched others limit generation (matches ++ (if c then i ∷ rest else rest)) (
              scan_generation lower q limit yield_every generation others (suc rounds) i matches s))
          right
          (if-cases (Searched others limit generation (matches ++ (if b then i ∷ rest else rest)))
            (b && leb limit (length matches)) _ _
            (λ stop. (
              seen.valid,
              inl (ap some (full b limit i matches rest h stop), seen.same_generation ∙ g),
            ))
            (λ goes_on.
              let fits = room b limit i matches h goes_on in
              let onwards =
                λ (u : SearchIndex) (w : IsValid lower u) (a : u.generation ≡ generation)
                    (m : List AhpEvent) (d : u.events ≡ events ++ m).
                  subst
                    (λ xs. Searched others limit generation xs (
                      scan_generation lower q limit yield_every generation others rounds (i + 1)
                        next u))
                    (one_more b matches rest i)
                    (rounds-Searched rounds (i + 1) next u m fits w a d (omega (arith, k))) in
              if-cases
                (Searched others limit generation (matches ++ (if b then i ∷ rest else rest)))
                (yields_at yield_every i) _ _
                (λ _.
                  let (w, l) =
                    change-Later (others i) events generation t seen.valid
                      (inl (seen.same_generation ∙ g, (more, seen.same_events ∙ e))) in
                  let waited = change (others i) t in
                  if-cases
                    (Searched others limit generation (matches ++ (if b then i ∷ rest else rest)))
                    (generation == waited.generation) _ _
                    (λ same. elim l [
                      | inl (a, (m, d)) ↦ onwards waited w a m d
                      | inr newer ↦ absurd (ground (arith, same, newer))
                    ])
                    (λ other. elim l [
                      | inl (a, _) ↦ absurd (ground (arith, other, a))
                      | inr newer ↦ (
                        w,
                        inr (
                          refl,
                          newer,
                          (i, was_reset (others i) t generation (seen.same_generation ∙ g) newer),
                        ),
                      )
                    ]))
                (λ _. onwards t seen.valid (seen.same_generation ∙ g) more (seen.same_events ∙ e))))

  -- One attempt of a search that yields, on a valid index and whatever other code does at the yields:
  -- either it returns the first `limit` matches among the events that were there when it began, and
  -- whether there are more, and the index was not reset; or it returns null, the generation is newer,
  -- and one of the yields reset the index. The index is valid at the end.
  pub scan_generation-Searched :
      (q : String) (limit yield_every : ℕ) (others : ℕ → List Change) (s : SearchIndex)
      → IsValid lower s
      → Searched others limit s.generation
          (hits lower q s.events (length s.events) 0)
          (scan_generation lower q limit yield_every s.generation others (length s.events) 0 [] s)
  scan_generation-Searched q limit yield_every others s v =
      rounds-Searched q limit yield_every others s.events s.generation (length s.events) 0 [] s []
        (omega arith) v refl (sym (append-nil s.events)) (omega arith)

  attempt_found :
      (q : String) (limit yield_every : ℕ) (others : ℕ → ℕ → List Change) (left : ℕ)
      (s : SearchIndex) (r : ScanResult)
      → (scan_generation lower q limit yield_every s.generation
          (others left)
          (length s.events)
          0
          []
          s).0
        ≡ some r
      → (attempts lower q limit yield_every others (suc left) s).0 ≡ some r
  unfolding attempts
  attempt_found q limit yield_every others left s r e =
      option-cases (λ (x : Option ScanResult × SearchIndex). x.0 ≡ some r)
        (scan_generation lower q limit yield_every s.generation (others left) (length s.events) 0 []
          s).0
        _ _ (λ missing. absurd (ground (arith, e, missing))) (λ a there. sym there ∙ e)

  -- A search during which nothing resets the index does not fail: it returns the first `limit` matches
  -- among the events that were there when it began, and whether there are more, whatever is appended
  -- meanwhile.
  pub scan_async-hits :
      (q : String) (limit yield_every : ℕ) (others : ℕ → ℕ → List Change) (s : SearchIndex)
      → IsValid lower s
      → ((attempt i : ℕ) → has_reset (others attempt i) ≡ false)
      → (scan_async lower q limit yield_every others s).0
        ≡ some (cut limit (hits lower q s.events (length s.events) 0))
  unfolding scan_async
  scan_async-hits q limit yield_every others s v quiet =
      elim (scan_generation-Searched q limit yield_every (others 2) s v).1 [
        | inl (e, _) ↦ attempt_found q limit yield_every others 2 s _ e
        | inr (_, _, (i, reset_there)) ↦ absurd (ground (arith, quiet 2 i, reset_there))
      ]
