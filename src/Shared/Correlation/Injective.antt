-- ===== src/Shared/Correlation/Injective.antt =====
-- Correlation keys keep direction, id type and id apart.
use Prim.Native.Char.{code}
use Prim.Native.Nat.{zero, suc}
use ahp_inspector.Base.{ℕ, String, ◌≡◌, ◌↔◌, refl, sym, ap, ◌∙◌, arith, none}
use ahp_inspector.Base.Text.{append_cancel_left, show-injective}
use ahp_inspector.Shared.Event.{
  Direction, c2s, s2c, IdType, number, string, MessageId, num, str, AhpEvent, id_type_of,
}
use ahp_inspector.Shared.Correlation.{
  dir_text, id_type_text, id_text, make_correlation_key, opposite, correlation_key_for_request,
  correlation_key_for_response,
}

abbrev code_at : ℕ → String → ℕ
code_at n String.[] = 0
code_at zero (String.◌∷◌ c s) = code c
code_at (suc n) (String.◌∷◌ c s) = code_at n s

-- the letter of a key that tells the directions apart, and the one for the id types
abbrev dir_mark : Direction → ℕ
dir_mark c2s = 99
dir_mark s2c = 115

abbrev type_mark : IdType → ℕ
type_mark number = 109
type_mark string = 114
type_mark IdType.null = 108

dir_mark-injective : (d d' : Direction) → dir_mark d ≡ dir_mark d' → d ≡ d'
dir_mark-injective d d' h = ground arith

type_mark-injective : (t t' : IdType) → type_mark t ≡ type_mark t' → t ≡ t'
type_mark-injective t t' h = ground arith

module _ (i : MessageId) where
  key_dir : (d : Direction) (t : IdType) → code_at 3 (make_correlation_key none d t i) ≡ dir_mark d
  unfolding make_correlation_key
  key_dir c2s t = refl
  key_dir s2c t = refl

  key_type :
      (d : Direction) (t : IdType) → code_at 10 (make_correlation_key none d t i) ≡ type_mark t
  unfolding make_correlation_key
  key_type c2s number = refl
  key_type c2s string = refl
  key_type c2s IdType.null = refl
  key_type s2c number = refl
  key_type s2c string = refl
  key_type s2c IdType.null = refl

key_id :
    (d : Direction) (t : IdType) (i i' : MessageId)
    → make_correlation_key none d t i ≡ make_correlation_key none d t i'
    → id_text i ≡ id_text i'
unfolding make_correlation_key
key_id d t i i' h = append_cancel_left "::" _ _ (
    append_cancel_left (id_type_text t) _ _ (
      append_cancel_left "::" _ _ (
        append_cancel_left (dir_text d) _ _
          (append_cancel_left "::" _ _ (append_cancel_left "∅" _ _ h)))))

id_text-injective :
    (i i' : MessageId) → id_type_of i ≡ id_type_of i' → id_text i ≡ id_text i' → i ≡ i'
unfolding id_type_of id_text
id_text-injective (num m) (num n) t h = ap num (show-injective m n h)
id_text-injective (str a) (str b) t h = ap str h
id_text-injective MessageId.null MessageId.null t h = refl
id_text-injective (num m) (str b) t h = cc
id_text-injective (num m) MessageId.null t h = cc
id_text-injective (str a) (num n) t h = cc
id_text-injective (str a) MessageId.null t h = cc
id_text-injective MessageId.null (num n) t h = cc
id_text-injective MessageId.null (str b) t h = cc

make_correlation_key-injective :
    (d d' : Direction) (i i' : MessageId)
    → make_correlation_key none d (id_type_of i) i ≡ make_correlation_key none d' (id_type_of i') i'
    → (d ≡ d') × (i ≡ i')
make_correlation_key-injective d d' i i' h = (same_dir, id_text-injective i i' same_type same_text)
  where
    same_dir : d ≡ d'
    same_dir =
        dir_mark-injective d d'
          (sym (key_dir i d (id_type_of i)) ∙ ap (code_at 3) h ∙ key_dir i' d' (id_type_of i'))

    same_type : id_type_of i ≡ id_type_of i'
    same_type =
        type_mark-injective _ _
          (sym (key_type i d (id_type_of i)) ∙ ap (code_at 10) h ∙ key_type i' d' (id_type_of i'))

    same_text : id_text i ≡ id_text i'
    same_text = key_id d' (id_type_of i') i i' (rw (same_dir, same_type) at h)

-- For events whose id type is the tag of their id, a request and a response have one key exactly
-- when the response travels the other way and carries the same id, as a value: the number 1 and the
-- text "1" are never taken for one another.
pub correlation_keys_iff :
    (q r : AhpEvent)
    → q.id_type ≡ id_type_of q.id
    → r.id_type ≡ id_type_of r.id
    → (correlation_key_for_request q ≡ correlation_key_for_response r)
      ↔ ((q.dir ≡ opposite r.dir) × (q.id ≡ r.id))
unfolding correlation_key_for_request correlation_key_for_response
correlation_keys_iff q r hq hr = (apart, together)
  where
    apart :
        correlation_key_for_request q ≡ correlation_key_for_response r
        → (q.dir ≡ opposite r.dir) × (q.id ≡ r.id)
    apart h = make_correlation_key-injective q.dir (opposite r.dir) q.id r.id (rw (← hq, ← hr) h)

    together :
        (q.dir ≡ opposite r.dir) × (q.id ≡ r.id)
        → correlation_key_for_request q ≡ correlation_key_for_response r
    together (d, i) = rw (hq, hr, d, i)
