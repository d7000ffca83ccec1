-- ===== src/Core/Replay/Tracking.antt =====
-- A resource of a replay through the changes of one envelope: where it stands in the map, and what its
-- sequence number allows.
use ahp_inspector.Base.{
  ℕ, String, Bool, Option, none, some, [], ◌∷◌, ◌≡◌, refl, sym, ap, subst, ◌∙◌, arith, true, false,
  if◌then◌else◌, All, Map, IsMap, lookup, lookup-insert, string_eq, str_eq, eq_iff, if-cases,
  option-cases, ◌⊎◌, inl,
}
use ahp_inspector.Base.Int.{ℤ, ◌<ℤ◌}
use ahp_inspector.Core.Replay.{
  ReplayContext, ReplayResourceState, ReplayResourceKey, ReplayDiagnostic, resource_map_key,
  put_resource, add_diagnostic, add_resource_diagnostic, noted,
}
use ahp_inspector.Core.Replay.Apply.{find_resource, find_uri}
use ahp_inspector.Core.Replay.Confidence.{IsSound, IsValid}

-- a number behind the last one, if there is one
abbrev pub Later : Option ℤ → ℤ → Type 0
Later none m = Unit
Later (some n) m = n <ℤ m

-- Key and baseline stay. The state and the sequence number stay, or the number rises.
pub record Advances (r s : ReplayResourceState) : Type 0 where
  pub same_key : s.key ≡ r.key
  pub same_baseline : s.baseline_event_idx ≡ r.baseline_event_idx
  pub moves :
      ((s.state ≡ r.state) × (s.last_server_seq ≡ r.last_server_seq))
      ⊎ ((m : ℤ) × (s.last_server_seq ≡ some m) × Later r.last_server_seq m)

pub record Track (ctx₀ : ReplayContext) (r : ReplayResourceState) (ctx : ReplayContext)
    (s : ReplayResourceState) : Type 0 where
  pub stays :
      (key : String)
      → lookup key ctx.resources
        ≡ (if str_eq (resource_map_key r.key) key then some s else lookup key ctx₀.resources)
  pub advances : Advances r s

pub Track-start :
    (ctx : ReplayContext) (r : ReplayResourceState)
    → lookup (resource_map_key r.key) ctx.resources ≡ some r
    → Track ctx r ctx r
Track-start ctx r e = record {
  stays = λ key.
      if-cases (λ o. lookup key ctx.resources ≡ o) (str_eq (resource_map_key r.key) key) _ _
        (λ same. subst (λ k. lookup k ctx.resources ≡ some r) ((eq_iff _ key).0 same) e)
        (λ _. refl);
  advances = record { same_key = refl; same_baseline = refl; moves = inl (refl, refl) };
}

pub Track-put :
    (ctx₀ ctx : ReplayContext) (r s t : ReplayResourceState)
    → Track ctx₀ r ctx s
    → Advances r t
    → Track ctx₀ r (put_resource ctx t) t
Track-put ctx₀ ctx r s t k a = record {
  stays = λ key.
      lookup-insert (resource_map_key t.key) key t ctx.resources
      ∙ ap (λ o. if str_eq (resource_map_key t.key) key then some t else o) (k.stays key)
      ∙ ap
          (λ q.
            if str_eq (resource_map_key q) key
            then some t
            else (if str_eq (resource_map_key r.key) key
                then some s
                else lookup key ctx₀.resources))
          a.same_key
      ∙ twice (str_eq (resource_map_key r.key) key) (some t) (some s) (lookup key ctx₀.resources);
  advances = a;
}
  where
    twice :
        (b : Bool) (x y z : Option ReplayResourceState)
        → (if b then x else (if b then y else z)) ≡ (if b then x else z)
    twice true x y z = refl
    twice false x y z = refl

-- a context with the resources of another
pub Track-same :
    (ctx₀ ctx ctx' : ReplayContext) (r s : ReplayResourceState)
    → ctx'.resources ≡ ctx.resources
    → Track ctx₀ r ctx s
    → Track ctx₀ r ctx' s
Track-same ctx₀ ctx ctx' r s e k = record {
  stays = λ key. ap (lookup key) e ∙ k.stays key;
  advances = k.advances;
}

pub Track-noted :
    (ctx₀ ctx : ReplayContext) (r s : ReplayResourceState) (d : ReplayDiagnostic)
    → Track ctx₀ r ctx s
    → Track ctx₀ r (add_resource_diagnostic ctx s d).0 (add_resource_diagnostic ctx s d).1
unfolding add_resource_diagnostic add_diagnostic
Track-noted ctx₀ ctx r s d k =
    let a : Advances r (noted s d) = record {
      same_key = k.advances.same_key;
      same_baseline = k.advances.same_baseline;
      moves = k.advances.moves;
    } in
    Track-same ctx₀ (put_resource ctx (noted s d)) _ r (noted s d) refl
      (Track-put ctx₀ ctx r s (noted s d) k a)

-- the entry that a search finds is the one under its own key
module _ (i : ℕ) where
  some_injective : {a b : ReplayResourceState} → some a ≡ some b → a ≡ b
  some_injective e = cc

  lookup-keyed :
      (key : String) (m : Map String ReplayResourceState) (r : ReplayResourceState)
      → All (IsSound i) m
      → lookup key m ≡ some r
      → key ≡ resource_map_key r.key
  unfolding lookup
  lookup-keyed key [] r h e = absurd (ground (arith, e))
  lookup-keyed key ((j, q) ∷ m) r (s, h) e =
      if-cases (λ o. o ≡ some r → key ≡ resource_map_key r.key) (str_eq j key) _ _
        (λ same e.
          sym ((eq_iff j key).0 same)
          ∙ s.keyed
          ∙ ap (λ (x : ReplayResourceState). resource_map_key x.key) (some_injective e))
        (λ _. lookup-keyed key m r h) e

  find_uri-lookup :
      (uri : String) (m : Map String ReplayResourceState) (r : ReplayResourceState)
      → IsMap m
      → All (IsSound i) m
      → find_uri uri m ≡ some r
      → lookup (resource_map_key r.key) m ≡ some r
  unfolding lookup find_uri
  find_uri-lookup uri [] r d h e = absurd (ground (arith, e))
  find_uri-lookup uri ((j, q) ∷ m) r (fresh, d) (s, h) found =
      if-cases
        (λ o.
          o ≡ some r
          → (if str_eq j (resource_map_key r.key)
              then some q
              else lookup (resource_map_key r.key) m)
            ≡ some r)
        (str_eq q.key.uri uri) _ _
        (λ _ e.
          if-cases (λ o. o ≡ some r) (str_eq j (resource_map_key r.key)) _ _ (λ _. e)
            (λ other. absurd (
              differs
                (s.keyed
                  ∙ ap (λ (x : ReplayResourceState). resource_map_key x.key) (some_injective e))
                other)))
        (λ _ e.
          let later = find_uri-lookup uri m r d h e in
          if-cases (λ o. o ≡ some r) (str_eq j (resource_map_key r.key)) _ _
            (λ same.
              absurd (clash (subst (λ k. lookup k m ≡ none) ((eq_iff j _).0 same) fresh) later))
            (λ _. later))
        found
    where
      differs : {a b : String} → a ≡ b → str_eq a b ≡ false → ⊥
      differs {a} {b} e f = ground (arith, (eq_iff a b).1 e, f)

      clash : {o : Option ReplayResourceState} → o ≡ none → o ≡ some r → ⊥
      clash e f = ground (arith, e, f)

pub found_resource-lookup :
    (i : ℕ) (ctx : ReplayContext) (target : ReplayResourceKey) (channel : String)
    (resource : ReplayResourceState)
    → IsValid i ctx
    → find_resource ctx target channel ≡ some resource
    → lookup (resource_map_key resource.key) ctx.resources ≡ some resource
unfolding find_resource
found_resource-lookup i ctx target channel resource v =
    option-cases
      (λ o.
        o ≡ some resource → lookup (resource_map_key resource.key) ctx.resources ≡ some resource)
      (lookup (resource_map_key target) ctx.resources) _ _
      (λ _ found. find_uri-lookup i channel ctx.resources resource v.unique v.sound found)
      (λ r hit same.
        subst (λ k. lookup k ctx.resources ≡ some resource)
          (lookup-keyed i _ ctx.resources resource v.sound (hit ∙ same)) (hit ∙ same))
