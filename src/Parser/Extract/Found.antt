-- ===== src/Parser/Extract/Found.antt =====
-- Which part of a message an extracted session or turn comes from.
use mathlib.Core.Bool.{false≢true}
use mathlib.Core.List.{append-nil}
use ahp_inspector.Base.{
  String, Option, none, some, List, [], ◌∷◌, ◌++◌, map, ◌≡◌, ◌≢◌, ◌↔◌, ◌⊎◌, inl, inr, refl, sym, ap,
  subst, ◌∙◌, some_injective, ◌>>=◌, arith, true, Bool-cases,
}
use ahp_inspector.Shared.Json.{Json, arr, obj, items, get, is_object, truthy}
use ahp_inspector.Parser.Extract.{
  params_object, object_child, objects_of, push, first_truthy, session_from_object,
  turn_from_object, candidate_objects, extract_session_id, extract_turn_id, first,
}

truthy-cases :
    (o : Option String)
    → (truthy o ≡ none) ⊎ ((s : String) × (truthy o ≡ some s) × (o ≡ some s) × (s ≢ ""))
unfolding truthy
truthy-cases none = inl refl
truthy-cases (some String.[]) = inl refl
truthy-cases (some (String.◌∷◌ c s)) = inr (String.◌∷◌ c s, refl, refl, λ e. cc)

truthy_of_ne : (s : String) → s ≢ "" → truthy (some s) ≡ some s
unfolding truthy
truthy_of_ne String.[] h = absurd (h refl)
truthy_of_ne (String.◌∷◌ c s) h = refl

none≢some : {s : String} → ◌≡◌ {A = Option String} none (some s) → ⊥
none≢some h = absurd (ground (arith, h))

-- a value that is there and an object, from which a text is read that is not empty
abbrev pub Gives : (Json → Option String) → Option Json → String → Type 0
Gives f none s = ⊥
Gives f (some v) s = (is_object (some v) ≡ true) × (f v ≡ some s) × (s ≢ "")

-- no such text
abbrev pub Silent : (Json → Option String) → Option Json → Type 0
Silent f o = (s : String) → ¬ Gives f o s

-- the first of these values that gives a text gives this one
abbrev pub FirstOf : (Json → Option String) → String → List (Option Json) → Type 0
FirstOf f s [] = ⊥
FirstOf f s (o ∷ os) = Gives f o s ⊎ (Silent f o × FirstOf f s os)

-- where a text is looked for: in the parameters, their `action` and their `notification`, in this
-- order, and in a batch in its items instead
abbrev pub places : Json → List (Option Json)
places (arr xs) = map some (items xs)
places p = some p ∷ get p "action" ∷ get p "notification" ∷ []

first-none : (o : Option String) → first (none ∷ o ∷ []) ≡ o
first-none none = refl
first-none (some s) = refl

-- the candidates among these values
present : List (Option Json) → List Json
present [] = []
present (o ∷ os) = push (params_object o) ++ present os

module _ (f : Json → Option String) (s : String) where
  -- what a step of the search finds is the text of its value, or what the rest finds
  Step : Option Json → Option String → Option String → Type 0
  Step o found rest = (found ≡ some s) ↔ (Gives f o s ⊎ (Silent f o × (rest ≡ some s)))

  Step-Silent :
      (o : Option Json) (found rest : Option String) → Silent f o → found ≡ rest → Step o found rest
  unfolding Step
  Step-Silent o found rest k e = (λ h. inr (k, sym e ∙ h), back)
    where
      back : Gives f o s ⊎ (Silent f o × (rest ≡ some s)) → found ≡ some s
      back (inl g) = absurd (k s g)
      back (inr r) = e ∙ r.1

  Step-Gives :
      (v : Json) (found rest : Option String) (t : String)
      → Gives f (some v) t
      → found ≡ some t
      → Step (some v) found rest
  unfolding Step
  Step-Gives v found rest t g e =
      (λ h. inl (subst (Gives f (some v)) (some_injective (sym e ∙ h)) g), back)
    where
      back : Gives f (some v) s ⊎ (Silent f (some v) × (rest ≡ some s)) → found ≡ some s
      back (inl x) = e ∙ sym g.1 ∙ x.1
      back (inr r) = absurd (r.0 t g)

  -- one value, in front of the other candidates
  value-Step :
      (o : Option Json) (cs : List Json)
      → Step o (first_truthy f (push (params_object o) ++ cs)) (first_truthy f cs)
  unfolding first_truthy
  value-Step none cs = Step-Silent none _ _ (λ t g. g) refl
  value-Step (some v) cs = elim (Bool-cases (is_object (some v))) [
    | inr e ↦ Step-Silent (some v) _ _ (λ t g. absurd (false≢true (sym e ∙ g.0))) (rw e refl)
    | inl e ↦
        let tried : first_truthy f (push (params_object (some v)) ++ cs)
            ≡ first (truthy (f v) ∷ first_truthy f cs ∷ []) =
          rw e refl in
        elim (truthy-cases (f v)) [
          | inl empty ↦
              Step-Silent (some v) _ _
                (λ t g. absurd (none≢some (sym empty ∙ ap truthy g.1 ∙ truthy_of_ne t g.2)))
                (tried
                  ∙ ap (λ o. first (o ∷ first_truthy f cs ∷ [])) empty
                  ∙ first-none (first_truthy f cs))
          | inr (t, full, text, ne) ↦
              Step-Gives v _ _ t (e, text, ne)
                (tried ∙ ap (λ o. first (o ∷ first_truthy f cs ∷ [])) full)
        ]
  ]

  -- the loop over the candidates among some values
  FirstOf-present :
      (os : List (Option Json)) → (first_truthy f (present os) ≡ some s) ↔ FirstOf f s os
  unfolding first_truthy present Step
  FirstOf-present [] = (λ h. absurd (none≢some h), λ h. absurd h)
  FirstOf-present (o ∷ os) =
      let step = value-Step o (present os) in
      let rest = FirstOf-present os in (λ h. forth rest.0 (step.0 h), λ h. step.1 (forth rest.1 h))
    where
      forth :
          {P Q : Type 0} → (P → Q) → Gives f o s ⊎ (Silent f o × P) → Gives f o s ⊎ (Silent f o × Q)
      forth go (inl g) = inl g
      forth go (inr (k, p)) = inr (k, go p)

-- the objects of a batch are the candidates among its items
objects_of-present : (xs : List Json) → objects_of xs ≡ present (map some xs)
unfolding objects_of present
objects_of-present [] = refl
objects_of-present (x ∷ xs) = elim (Bool-cases (is_object (some x))) [
  | inl e ↦ rw e (ap (◌∷◌ x) (objects_of-present xs))
  | inr e ↦ rw e (objects_of-present xs)
]

-- the candidates of parameters that are an object
candidate_objects-present :
    (p : Json) → is_object (some p) ≡ true → candidate_objects p ≡ present (places p)
unfolding candidate_objects present is_object
candidate_objects-present (arr xs) e = objects_of-present (items xs)
candidate_objects-present (obj fs) e = ap (◌∷◌ (obj fs)) (
    ap (◌++◌ (push (object_child (obj fs) "action")))
      (sym (append-nil (push (object_child (obj fs) "notification")))))
candidate_objects-present _ e = absurd (false≢true e)

-- in parameters that are no object nothing is found
FirstOf-object :
    (f : Json → Option String) (s : String) (p : Json)
    → FirstOf f s (places p)
    → is_object (some p) ≡ true
unfolding is_object get
FirstOf-object f s (arr xs) h = refl
FirstOf-object f s (obj fs) h = refl
FirstOf-object f s _ (inl g) = g.0
FirstOf-object f s _ (inr (k, inl g)) = absurd g
FirstOf-object f s _ (inr (k, inr (l, inl g))) = absurd g
FirstOf-object f s _ (inr (k, inr (l, inr (m, n)))) = absurd n

-- the search of the candidates, for either text
search_first :
    (f : Json → Option String) (s : String) (p : Json)
    → ((params_object (some p) >>= λ q. first_truthy f (candidate_objects q)) ≡ some s)
      ↔ FirstOf f s (places p)
search_first f s p = elim (Bool-cases (is_object (some p))) [
  | inl e ↦
      let same : (params_object (some p) >>= λ q. first_truthy f (candidate_objects q))
          ≡ first_truthy f (present (places p)) =
        rw e (ap (first_truthy f) (candidate_objects-present p e)) in
      let found = FirstOf-present f s (places p) in
      (λ h. found.0 (sym same ∙ h), λ h. same ∙ found.1 h)
  | inr e ↦
      let nothing : (params_object (some p) >>= λ q. first_truthy f (candidate_objects q)) ≡ none =
        rw e refl in
      (
        λ h. absurd (none≢some (sym nothing ∙ h)),
        λ h. absurd (false≢true (sym e ∙ FirstOf-object f s p h)),
      )
]

-- The session of a message is read from the first of these values that is an object and gives a text
-- which is not empty: the parameters, their `action`, their `notification`; or, where the parameters are
-- a batch, its items in order. Likewise its turn.
pub extract_first :
    (p : Json) (s : String)
    → ((extract_session_id (some p) ≡ some s) ↔ FirstOf session_from_object s (places p))
      × ((extract_turn_id (some p) ≡ some s) ↔ FirstOf turn_from_object s (places p))
unfolding extract_session_id extract_turn_id
extract_first p s = (search_first session_from_object s p, search_first turn_from_object s p)
