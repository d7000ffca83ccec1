-- ===== src/Server/SearchIndex/Texts.antt =====
-- The cached texts of the search index: each is the text of its event, and they fit the bound.
use ahp_inspector.Base.{
  ℕ, ◌+◌, ◌-◌, ◌*◌, ◌≤◌, String, str_eq, Bool, true, false, Option, none, some, List, [], ◌∷◌, ◌++◌,
  ◌≡◌, refl, sym, ap, ◌∙◌, arith, if◌then◌else◌, if-cases, option-cases, Map, IsMap, All,
  All-insert, All-lookup, insert-IsMap, lookup, insert, nat_eq, leb, get_elem?, get_elem?-append_lt,
  lt_of_get_elem?,
}
use ahp_inspector.Base.Text.{includes, text_length}
use ahp_inspector.Shared.Event.{AhpEvent}
use ahp_inspector.Server.SearchIndex.{
  SearchIndex, searchable_text, keep_text, text_for, visit, visit_event, append_event, reset,
  new_search_index,
}

pub total : Map ℕ String → ℕ
total [] = 0
total ((i, text) ∷ m) = text_length text * 2 + total m

pub total-nil : total [] ≡ 0
unfolding total
total-nil = refl

total-insert :
    (i : ℕ) (text : String) (m : Map ℕ String)
    → lookup i m ≡ none
    → total (insert i text m) ≡ total m + text_length text * 2
unfolding total insert lookup
total-insert i text [] h = omega arith
total-insert i text ((j, t) ∷ m) h = ground (arith, h, total-insert i text m)

module _ (lower : String → String) where
  -- the text of the event at that index
  abbrev pub IsText : List AhpEvent → ℕ × String → Type 0
  IsText events (i, text) =
      (event : AhpEvent) × (get_elem? events i ≡ some event) × (text ≡ searchable_text lower event)

  pub record IsValid (s : SearchIndex) : Type 0 where
    pub unique : IsMap s.cached_text
    pub texts : All (IsText s.events) s.cached_text
    pub sum : s.cached_text_bytes ≡ total s.cached_text
    pub bounded : s.cached_text_bytes ≤ s.max_cached_text_bytes

  -- another state, over the same events
  pub record IsAfter (s t : SearchIndex) : Type 0 where
    pub same_events : t.events ≡ s.events
    pub same_generation : t.generation ≡ s.generation
    pub valid : IsValid t

  -- whether the event at an index matches, as a search without a cache would tell
  unfoldable pub matches_at : String → List AhpEvent → ℕ → Bool
  matches_at q events i = if str_eq q "" then true else elim (get_elem? events i) [
    | none ↦ false
    | some event ↦ includes (searchable_text lower event) q
  ]

  text_for-IsAfter :
      (i : ℕ) (event : AhpEvent) (s : SearchIndex)
      → IsValid s
      → get_elem? s.events i ≡ some event
      → ((text_for lower i event s).0 ≡ searchable_text lower event)
        × IsAfter s (text_for lower i event s).1
  unfolding text_for keep_text
  text_for-IsAfter i event s v e =
      let text = searchable_text lower event in
      let stay : IsAfter s s = record { same_events = refl; same_generation = refl; valid = v } in
      option-cases (λ (r : String × SearchIndex). (r.0 ≡ text) × IsAfter s r.1)
        (lookup i s.cached_text) _ _
        (λ fresh. (
          refl,
          if-cases (IsAfter s)
              (leb (text_length text * 2) (s.max_cached_text_bytes - s.cached_text_bytes)) _ _
              (λ fits. record {
                same_events = refl;
                same_generation = refl;
                valid = record {
                  unique = insert-IsMap i text s.cached_text v.unique;
                  texts =
                      All-insert (IsText s.events) i text s.cached_text v.texts (event, e, refl);
                  sum = omega (arith, v.sum, total-insert i text s.cached_text fresh);
                  bounded = ground (arith, fits, v.bounded);
                };
              })
              (λ _. stay),
        ))
        (λ cached hit.
          let (other, at, same) = All-lookup (IsText s.events) i s.cached_text cached v.texts hit in
          (same ∙ ap (searchable_text lower) (some_injective (sym at ∙ e)), stay))
    where
      some_injective : {a b : AhpEvent} → some a ≡ some b → a ≡ b
      some_injective h = cc

  visit_event-IsAfter :
      (q : String) (i : ℕ) (s : SearchIndex) (o : Option AhpEvent)
      → IsValid s
      → get_elem? s.events i ≡ o
      → ((visit_event lower q i o s).0
          ≡ (elim o [ none ↦ false | some event ↦ includes (searchable_text lower event) q ]))
        × IsAfter s (visit_event lower q i o s).1
  unfolding visit_event
  visit_event-IsAfter q i s none v e =
      (refl, record { same_events = refl; same_generation = refl; valid = v })
  visit_event-IsAfter q i s (some event) v e =
      let (same, after) = text_for-IsAfter i event s v e in (ap (λ t. includes t q) same, after)

  -- a visit tells what it should, and keeps the state valid
  pub visit-IsAfter :
      (q : String) (i : ℕ) (s : SearchIndex)
      → IsValid s
      → ((visit lower q i s).0 ≡ matches_at q s.events i) × IsAfter s (visit lower q i s).1
  unfolding visit matches_at
  visit-IsAfter q i s v = both (str_eq q "")
    where
      both :
          (b : Bool)
          → ((if b then (true, s) else visit_event lower q i (get_elem? s.events i) s).0 ≡ (
              if b then true else (elim (get_elem? s.events i) [
                | none ↦ false
                | some event ↦ includes (searchable_text lower event) q
              ])))
            × IsAfter s (if b then (true, s) else visit_event lower q i (get_elem? s.events i) s).1
      both true = (refl, record { same_events = refl; same_generation = refl; valid = v })
      both false = visit_event-IsAfter q i s (get_elem? s.events i) v refl

  texts-longer :
      (events more : List AhpEvent) (m : Map ℕ String)
      → All (IsText events) m
      → All (IsText (events ++ more)) m
  texts-longer events more [] h = tt
  texts-longer events more ((i, text) ∷ m) ((event, at, same), h) = (
    (event, get_elem?-append_lt events more i (lt_of_get_elem? events i at) ∙ at, same),
    texts-longer events more m h,
  )

  pub append_event-IsValid :
      (ev : AhpEvent) (s : SearchIndex) → IsValid s → IsValid (append_event ev s)
  unfolding append_event
  append_event-IsValid ev s v = record {
    unique = v.unique;
    texts = texts-longer s.events (ev ∷ []) s.cached_text v.texts;
    sum = v.sum;
    bounded = v.bounded;
  }

  pub reset-IsValid : (s : SearchIndex) → IsValid (reset s)
  unfolding reset
  reset-IsValid s = record { unique = tt; texts = tt; sum = sym total-nil; bounded = omega arith }

  pub new_search_index-IsValid : (n : ℕ) → IsValid (new_search_index n)
  unfolding new_search_index
  new_search_index-IsValid n = record {
    unique = tt;
    texts = tt;
    sum = sym total-nil;
    bounded = omega arith;
  }
