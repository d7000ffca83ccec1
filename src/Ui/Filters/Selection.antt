-- ===== src/Ui/Filters/Selection.antt =====
-- The short cuts of the selection of rows select what the filter as a whole selects.
use ahp_inspector.Base.{
  ℕ, ◌+◌, String, str_eq, string_eq, eq_iff, Bool, true, false, not, ◌&&◌, Option, none, some, List,
  [], ◌∷◌, ◌≡◌, refl, sym, ap, ◌∙◌, arith, if◌then◌else◌, if-cases,
}
use ahp_inspector.Core.Row.{EventRow}
use ahp_inspector.Base.Text.{trim, slice_units}
use ahp_inspector.Ui.Filters.{
  FilterState, is_empty, contains, is_filters_empty, text_hides, apply_facets, paired_method,
  apply_facets_for_rows, is_default_ping_filter, passes_default_ping, select, compute_filtered_rows,
  visible_search_matches,
}

ping_method :
    (ms : List String)
    → (elim ms as (λ x. Bool) [ [] ↦ false | m ∷ ms ↦ is_empty ms && str_eq m "ping" ]) ≡ true
    → ms ≡ "ping" ∷ []
ping_method [] h = absurd (ground (arith, h))
ping_method (m ∷ []) h = ap (λ x. x ∷ []) ((eq_iff m "ping").0 (ground (arith, h)))
ping_method (m ∷ n ∷ ms) h = absurd (ground (arith, h))

contains_ping : (m : String) → contains ⦃e = string_eq⦄ ("ping" ∷ []) m ≡ str_eq m "ping"
unfolding contains
contains_ping m = ground (arith, eq_iff m "ping", eq_iff "ping" m)

module _ (lower : String → String) (lower_empty : lower "" ≡ "") where
  text_quiet :
      (row_text : String) (row : EventRow)
      → str_eq (trim row_text) "" ≡ true
      → text_hides lower row_text row ≡ false
  unfolding text_hides slice_units
  text_quiet row_text row h =
      let blank : lower (slice_units 256 (trim row_text)) ≡ "" =
        ap (λ s. lower (slice_units 256 s)) ((eq_iff (trim row_text) "").0 h) ∙ lower_empty in
      let same = (eq_iff (lower (slice_units 256 (trim row_text))) "").1 blank in
      ground (arith, same)

  empty_passes :
      (rows : List EventRow) (row : EventRow) (f : FilterState)
      → is_filters_empty f ≡ true
      → apply_facets_for_rows lower rows row f ≡ true
  unfolding is_filters_empty apply_facets_for_rows apply_facets
  empty_passes rows row f h = ground (arith, text_quiet f.row_text row)

  -- with the methods, the pair and the method of the row apart
  agrees :
      (rows : List EventRow) (row : EventRow) (f : FilterState) (o p : Option String)
      → row.method ≡ o
      → paired_method rows row ≡ p
      → is_default_ping_filter f ≡ true
      → passes_default_ping rows row ≡ apply_facets_for_rows lower rows row f
  unfolding is_default_ping_filter apply_facets_for_rows apply_facets passes_default_ping
  agrees rows row f none none e d h = ground (
    arith,
    h,
    e,
    d,
    text_quiet f.row_text row,
    ap is_empty (ping_method f.method (ground (arith, h))),
  )
  agrees rows row f none (some m) e d h = ground (
    arith,
    h,
    e,
    d,
    text_quiet f.row_text row,
    ap is_empty (ping_method f.method (ground (arith, h))),
    ap (λ ms. contains ms m) (ping_method f.method (ground (arith, h))) ∙ contains_ping m,
  )
  agrees rows row f (some m) p e d h = ground (
    arith,
    h,
    e,
    text_quiet f.row_text row,
    ap is_empty (ping_method f.method (ground (arith, h))),
    ap (λ ms. contains ms m) (ping_method f.method (ground (arith, h))) ∙ contains_ping m,
  )

select-cong :
    (p r : EventRow → ℕ → Bool) (rows : List EventRow) (i : ℕ)
    → ((row : EventRow) (j : ℕ) → p row j ≡ r row j)
    → select p rows i ≡ select r rows i
unfolding select
select-cong p r [] i h = refl
select-cong p r (row ∷ rows) i h =
    ap (λ b. if b then i ∷ select p rows (i + 1) else select p rows (i + 1)) (h row i)
    ∙ ap (λ xs. if r row i then i ∷ xs else xs) (select-cong p r rows (i + 1) h)

-- The rows that the client shows are those that pass all facets of the filter, whichever short cut is
-- taken: the empty filter, the default one that hides `ping` and its responses, or neither. The one
-- condition is that the lower case of the empty text is empty.
pub compute_filtered_rows-facets :
    (lower : String → String) (rows : List EventRow) (f : FilterState)
    → lower "" ≡ ""
    → compute_filtered_rows lower rows f
      ≡ select (λ row i. apply_facets_for_rows lower rows row f) rows 0
unfolding compute_filtered_rows
compute_filtered_rows-facets lower rows f blank =
    let all = select (λ row i. apply_facets_for_rows lower rows row f) rows 0 in
    if-cases (λ xs. xs ≡ all) (is_filters_empty f) _ _
      (λ e. select-cong _ _ rows 0 (λ row j. sym (empty_passes lower blank rows row f e)))
      (λ _. select-cong _ _ rows 0 (λ row j.
        if-cases (λ b. b ≡ apply_facets_for_rows lower rows row f) (is_default_ping_filter f) _ _
          (λ d. agrees lower blank rows row f row.method (paired_method rows row) refl refl d)
          (λ _. refl)))

-- those that are in a set
pub keep : (ℕ → Bool) → List ℕ → List ℕ
keep has [] = []
keep has (i ∷ is) = let rest = keep has is in if has i then i ∷ rest else rest

keep-select :
    (has : ℕ → Bool) (p : EventRow → ℕ → Bool) (rows : List EventRow) (i : ℕ)
    → select (λ row j. has j && p row j) rows i ≡ keep has (select p rows i)
unfolding select keep
keep-select has p [] i = refl
keep-select has p (row ∷ rows) i = both (has i) (p row i) refl (keep-select has p rows (i + 1))
  where
    both :
        (a b : Bool)
        → has i ≡ a
        → select (λ row j. has j && p row j) rows (i + 1) ≡ keep has (select p rows (i + 1))
        → (if a && b
            then i ∷ select (λ row j. has j && p row j) rows (i + 1)
            else select (λ row j. has j && p row j) rows (i + 1))
          ≡ keep has (if b then i ∷ select p rows (i + 1) else select p rows (i + 1))
    both true true e ih =
        ap (◌∷◌ i) ih
        ∙ ap
            (λ c.
              if c then i ∷ keep has (select p rows (i + 1)) else keep has (select p rows (i + 1)))
            (sym e)
    both true false e ih = ih
    both false true e ih =
        ih
        ∙ ap
            (λ c.
              if c then i ∷ keep has (select p rows (i + 1)) else keep has (select p rows (i + 1)))
            (sym e)
    both false false e ih = ih

-- The visible matches of a search are the matches among the rows that the client shows.
pub visible_search_matches-keep :
    (lower : String → String) (rows : List EventRow) (f : FilterState) (has : ℕ → Bool)
    → visible_search_matches lower rows f (some has) ≡ keep has (compute_filtered_rows lower rows f)
unfolding visible_search_matches compute_filtered_rows
visible_search_matches-keep lower rows f has = pick (is_filters_empty f) (is_default_ping_filter f)
  where
    pick :
        (no_facets default_ping : Bool)
        → select
            (λ row i.
              has i
              && (if no_facets
                  then true
                  else if not no_facets && default_ping
                  then passes_default_ping rows row
                  else apply_facets_for_rows lower rows row f))
            rows
            0
          ≡ keep has (
              if no_facets
              then select (λ row i. true) rows 0
              else select
                  (λ row i.
                    if default_ping
                    then passes_default_ping rows row
                    else apply_facets_for_rows lower rows row f)
                  rows
                  0)
    pick true default_ping = keep-select has (λ row i. true) rows 0
    pick false default_ping = keep-select has _ rows 0
