-- ===== src/Parser/Splitter/Bytes.antt =====
-- Byte lengths add up over texts whose high surrogates are followed by low ones, and count what an
-- encoder writes.
use ahp_inspector.Base.{
  ℕ, ◌+◌, ◌-◌, ◌*◌, ◌/◌, ◌%◌, length, length-append, Bool, true, false, ◌&&◌, ◌||◌, List, [], ◌∷◌,
  ◌++◌, ◌≡◌, refl, sym, arith, ltb, leb, if◌then◌else◌, Bool-cases, inl, inr,
}
use ahp_inspector.Parser.Splitter.{Units, is_high, unit_bytes, utf8_byte_length}

abbrev pub is_low : ℕ → Bool
is_low c = leb 0xdc00 c && leb c 0xdfff

-- every high surrogate has its low one behind it
unfoldable pub well_formed : Units → Bool
well_formed [] = true
well_formed (c ∷ []) = if is_high c then false else true
well_formed (c ∷ d ∷ s) =
    let both = is_low d && well_formed s in
    let one = well_formed (d ∷ s) in if is_high c then both else one

pub bytes-append :
    (s t : Units)
    → well_formed s ≡ true
    → utf8_byte_length (s ++ t) ≡ utf8_byte_length s + utf8_byte_length t
unfolding utf8_byte_length well_formed
bytes-append [] t h = omega arith
bytes-append (c ∷ []) [] h = omega arith
bytes-append (c ∷ []) (d ∷ t) h = ground arith
bytes-append (c ∷ d ∷ s) t h = elim (Bool-cases (is_high c)) [
  | inl high ↦ rw high (omega (arith, bytes-append s t (ground arith)))
  | inr other ↦ rw other (omega (arith, bytes-append (d ∷ s) t (ground arith)))
]

pub well_formed-append :
    (s t : Units) → well_formed s ≡ true → well_formed t ≡ true → well_formed (s ++ t) ≡ true
unfolding well_formed
well_formed-append [] t h k = k
well_formed-append (c ∷ []) [] h k = h
well_formed-append (c ∷ []) (d ∷ t) h k = ground arith
well_formed-append (c ∷ d ∷ s) t h k =
    ground (arith, well_formed-append s t, well_formed-append (d ∷ s) t)

-- Behind a unit that is no low surrogate, and in front of it, both parts are well formed.
pub well_formed-split :
    (s : Units) (c : ℕ) (t : Units)
    → is_low c ≡ false
    → well_formed (s ++ c ∷ t) ≡ true
    → (well_formed s ≡ true) × (well_formed (c ∷ t) ≡ true)
unfolding well_formed
well_formed-split [] c t low h = (refl, h)
well_formed-split (a ∷ []) c t low h = ground arith
well_formed-split (a ∷ d ∷ s) c t low h =
    ground (arith, well_formed-split s c t low, well_formed-split (d ∷ s) c t low)

-- a unit alone, as an encoder writes it; a lone surrogate becomes U+FFFD
encode_unit : ℕ → List ℕ
encode_unit c =
    if is_high c || is_low c
    then 0xef ∷ 0xbf ∷ 0xbd ∷ []
    else if ltb c 128
    then c ∷ []
    else if ltb c 2048
    then (192 + c / 64) ∷ (128 + c % 64) ∷ []
    else (224 + c / 4096) ∷ (128 + c / 64 % 64) ∷ (128 + c % 64) ∷ []

-- a surrogate pair, one code point
encode_pair : ℕ → ℕ → List ℕ
encode_pair c d =
    let n = 0x10000 + (c - 0xd800) * 1024 + (d - 0xdc00) in
    (240 + n / 262144) ∷ (128 + n / 4096 % 64) ∷ (128 + n / 64 % 64) ∷ (128 + n % 64) ∷ []

-- UTF-8 as `Buffer.from(s, "utf8")` writes it
pub encode : Units → List ℕ
encode [] = []
encode (c ∷ []) = encode_unit c
encode (c ∷ d ∷ s) =
    let both = encode_pair c d ++ encode s in
    let one = encode_unit c ++ encode (d ∷ s) in if is_high c && is_low d then both else one

length-encode_unit : (c : ℕ) → length (encode_unit c) ≡ unit_bytes c
unfolding encode_unit
length-encode_unit c = ground arith

length-encode_pair : (c d : ℕ) (s : List ℕ) → length (encode_pair c d ++ s) ≡ 4 + length s
unfolding encode_pair
length-encode_pair c d s = omega arith

length-encode : (s : Units) → well_formed s ≡ true → length (encode s) ≡ utf8_byte_length s
unfolding utf8_byte_length encode well_formed
length-encode [] h = refl
length-encode (c ∷ []) h = ground (arith, length-encode_unit c)
length-encode (c ∷ d ∷ s) h = elim (Bool-cases (is_high c)) [
  | inl high ↦ rw high (elim (Bool-cases (is_low d)) [
    | inl low ↦
        rw low (omega (arith, length-encode_pair c d (encode s), length-encode s (ground arith)))
    | inr other ↦ absurd (ground arith)
  ])
  | inr other ↦ rw other (
      omega (
        arith,
        length-append (encode_unit c) (encode (d ∷ s)),
        length-encode_unit c,
        length-encode (d ∷ s) (ground arith),
      ))
]

-- the same with a high surrogate at the end, which has no low one
length-encode_cut :
    (s : Units) (c : ℕ)
    → well_formed s ≡ true
    → is_high c ≡ true
    → length (encode (s ++ c ∷ [])) + 1 ≡ utf8_byte_length (s ++ c ∷ [])
unfolding utf8_byte_length encode well_formed
length-encode_cut [] c h high = ground (arith, length-encode_unit c)
length-encode_cut (a ∷ []) c h high = ground (
  arith,
  length-encode_unit a,
  length-encode_unit c,
  length-append (encode_unit a) (encode_unit c),
)
length-encode_cut (a ∷ d ∷ s) c h high = elim (Bool-cases (is_high a)) [
  | inl top ↦ rw top (elim (Bool-cases (is_low d)) [
    | inl low ↦ rw low (
        omega (
          arith,
          length-encode_pair a d (encode (s ++ c ∷ [])),
          length-encode_cut s c (ground arith) high,
        ))
    | inr other ↦ absurd (ground arith)
  ])
  | inr other ↦ rw other (
      omega (
        arith,
        length-append (encode_unit a) (encode (d ∷ (s ++ c ∷ []))),
        length-encode_unit a,
        length-encode_cut (d ∷ s) c (ground arith) high,
      ))
]

-- The byte count is the length of the UTF-8 encoding of a text whose high surrogates all have their
-- low ones; of a well-formed text with one high surrogate more at its end it is one more than that.
pub utf8_byte_length-encode :
    (s : Units)
    → well_formed s ≡ true
    → (utf8_byte_length s ≡ length (encode s))
      × ((c : ℕ)
          → is_high c ≡ true
          → utf8_byte_length (s ++ c ∷ []) ≡ length (encode (s ++ c ∷ [])) + 1)
utf8_byte_length-encode s h =
    (sym (length-encode s h), λ c high. sym (length-encode_cut s c h high))
