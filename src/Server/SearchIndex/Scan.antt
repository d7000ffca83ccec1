-- ===== src/Server/SearchIndex/Scan.antt =====
-- A scan finds what a filter of the events finds, cut at the limit.
use mathlib.Core.List.{append_assoc, append-nil}
use ahp_inspector.Base.{
  ℕ, zero, suc, ◌+◌, ◌≤◌, String, Bool, true, false, List, [], ◌∷◌, ◌++◌, ◌≡◌, refl, sym, ap, subst,
  ◌∙◌, arith, if◌then◌else◌, if-cases, ltb, length, length-append, take,
}
use ahp_inspector.Shared.Event.{AhpEvent}
use ahp_inspector.Server.SearchIndex.{SearchIndex, ScanResult, visit, scan_rounds, scan}
use ahp_inspector.Server.SearchIndex.Texts.{IsValid, IsAfter, matches_at, visit-IsAfter}

-- the matching ones of `rounds` indices from `i` on
unfoldable pub hits : (String → String) → String → List AhpEvent → ℕ → ℕ → List ℕ
hits lower q events zero i = []
hits lower q events (suc rounds) i =
    let rest = hits lower q events rounds (i + 1) in
    if matches_at lower q events i then i ∷ rest else rest

-- the first ones, and whether there are more
abbrev pub cut : ℕ → List ℕ → ScanResult
cut limit xs = record { matches = take limit xs; truncated = ltb limit (length xs) }

take_append : (xs ys : List ℕ) → take (length xs) (xs ++ ys) ≡ xs
take_append [] ys = refl
take_append (x ∷ xs) ys = ap (◌∷◌ x) (take_append xs ys)

take_short : (n : ℕ) (xs : List ℕ) → length xs ≤ n → take n xs ≡ xs
take_short zero [] h = refl
take_short zero (x ∷ xs) h = elim h [ ]
take_short (suc n) [] h = refl
take_short (suc n) (x ∷ xs) h = ap (◌∷◌ x) (take_short n xs (omega arith))

abbrev pub found : List ℕ → Bool → ScanResult
found matches truncated = record { matches = matches; truncated = truncated }

found_eq : {a b : List ℕ} {c d : Bool} → a ≡ b → c ≡ d → found a c ≡ found b d
found_eq {b = b} {c = c} p r = ap (λ x. found x c) p ∙ ap (found b) r

-- all fit
pub cut_short :
    (limit : ℕ) (xs : List ℕ) → length xs ≤ limit → found xs false ≡ cut limit (xs ++ [])
cut_short limit xs h =
    found_eq (sym (take_short limit xs h)) (ground (arith, h))
    ∙ ap (cut limit) (sym (append-nil xs))

-- no place for the next one
pub cut_full :
    (limit i : ℕ) (xs ys : List ℕ)
    → length xs ≤ limit
    → limit ≤ length xs
    → found xs true ≡ cut limit (xs ++ i ∷ ys)
cut_full limit i xs ys h k =
    let same : length xs ≡ limit = omega (arith, h, k) in
    found_eq (sym (take_append xs (i ∷ ys)) ∙ ap (λ n. take n (xs ++ i ∷ ys)) same)
      (ground (arith, h, k, length-append xs (i ∷ ys)))

-- the indices found are the matches, and then these; the state is one over the same events
abbrev Gives :
    (String → String) → ℕ → List ℕ → SearchIndex → List ℕ → ScanResult × SearchIndex → Type 0
Gives lower limit matches s xs (r, t) = (r ≡ cut limit (matches ++ xs)) × IsAfter lower s t

Gives-if :
    (lower : String → String) (limit : ℕ) (matches : List ℕ) (s : SearchIndex) (b : Bool)
    (xs ys : List ℕ) (m k : ScanResult × SearchIndex)
    → Gives lower limit matches s xs m
    → Gives lower limit matches s ys k
    → Gives lower limit matches s (if b then xs else ys) (if b then m else k)
Gives-if lower limit matches s true xs ys m k h l = h
Gives-if lower limit matches s false xs ys m k h l = l

pub IsAfter-trans :
    (lower : String → String) (s t u : SearchIndex)
    → IsAfter lower s t
    → IsAfter lower t u
    → IsAfter lower s u
IsAfter-trans lower s t u h k = record {
  same_events = k.same_events ∙ h.same_events;
  same_generation = k.same_generation ∙ h.same_generation;
  valid = k.valid;
}

scan_rounds-Gives :
    (lower : String → String) (q : String) (limit rounds i : ℕ) (matches : List ℕ) (s : SearchIndex)
    → length matches ≤ limit
    → IsValid lower s
    → Gives lower limit matches s
        (hits lower q s.events rounds i)
        (scan_rounds lower q limit rounds i matches s)
unfolding scan_rounds hits
scan_rounds-Gives lower q limit zero i matches s h v =
    (cut_short limit matches h, record { same_events = refl; same_generation = refl; valid = v })
scan_rounds-Gives lower q limit (suc rounds) i matches s h v =
    let (told, seen) = visit-IsAfter lower q i s v in
    let t = (visit lower q i s).1 in
    let rest = hits lower q s.events rounds (i + 1) in
    let same : hits lower q t.events rounds (i + 1) ≡ rest =
      ap (λ es. hits lower q es rounds (i + 1)) seen.same_events in
    subst
      (λ b.
        Gives lower limit matches s (if b then i ∷ rest else rest)
          (scan_rounds lower q limit (suc rounds) i matches s))
      told
      (Gives-if lower limit matches s (visit lower q i s).0 (i ∷ rest) rest _ _
        (if-cases (Gives lower limit matches s (i ∷ rest)) (ltb (length matches) limit) _ _
          (λ room.
            let (r, after) =
              scan_rounds-Gives lower q limit rounds (i + 1) (matches ++ i ∷ []) t
                (ground (arith, room, length-append matches (i ∷ []))) seen.valid in
            (
              r
                  ∙ ap (λ xs. cut limit ((matches ++ i ∷ []) ++ xs)) same
                  ∙ ap (cut limit) (append_assoc matches (i ∷ []) rest),
              IsAfter-trans lower s t _ seen after,
            ))
          (λ full. (cut_full limit i matches rest h (ground (arith, full)), seen)))
        (let (r, after) = scan_rounds-Gives lower q limit rounds (i + 1) matches t h seen.valid in
          (r ∙ ap (λ xs. cut limit (matches ++ xs)) same, IsAfter-trans lower s t _ seen after)))

-- A scan of a valid index finds the first `limit` of the indices whose event matches, in order, and
-- says whether there are more; an event matches if its text, computed anew, includes the query. The
-- cache stays valid and within its bound, and the events as they are.
pub scan-hits :
    (lower : String → String) (q : String) (limit : ℕ) (s : SearchIndex)
    → IsValid lower s
    → ((scan lower q limit s).0 ≡ cut limit (hits lower q s.events (length s.events) 0))
      × IsAfter lower s (scan lower q limit s).1
unfolding scan
scan-hits lower q limit s v =
    scan_rounds-Gives lower q limit (length s.events) 0 [] s (omega arith) v
