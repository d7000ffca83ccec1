-- ===== src/Parser/Splitter/Leading.antt =====
-- The first two stages of a call keep the balance of bytes.
use ahp_inspector.Base.{
  ℕ, true, false, ◌&&◌, [], ◌∷◌, ◌≡◌, refl, sym, ap, ◌∙◌, arith, ◌==◌, Bool-cases, inl, inr,
}
use ahp_inspector.Parser.Splitter.Bytes.{well_formed}
use ahp_inspector.Parser.Splitter.{
  Units, newline, carriage_return, bom, is_high, utf8_byte_length, Progress, lead, not_final,
  late_terminator, after_final, after_final_cr, byte_order_mark, strip_bom,
}
use ahp_inspector.Parser.Splitter.Balance.{
  Balanced, Holds, Holds-if, Balanced-if, bytes-cons, well_formed-cons, bytes-nil, head_bytes,
  tail_ok,
}

module _ (n : ℕ) (p : Progress) (b : Balanced n p) where
  module _ (f : p.splitter.finalized_pending_cr ≡ false)
      (eof : p.splitter.finalized_at_eof ≡ true) where
    not_final-Balanced : Balanced n (not_final p)
    not_final-Balanced = ground (arith, b)

    newline-Balanced :
        (c : ℕ) (s : Units)
        → p.rest ≡ c ∷ s
        → (c == newline) ≡ true
        → Balanced n (lead (not_final p) 1 s)
    newline-Balanced c s e nl =
        let low : is_high c ≡ false = ground arith in
        record {
          total = ground (arith, head_bytes b c s e low);
          rest_ok = tail_ok b c s e low;
          valid = not_final-Balanced.valid;
        }

    after_final-Holds : (s : Units) → p.rest ≡ s → Holds n (after_final p s)
    unfolding after_final
    after_final-Holds [] e = (omega (arith, b.total, bytes-nil, ap utf8_byte_length e), b.valid)
    after_final-Holds (c ∷ []) e =
        Holds-if n (c == carriage_return) _ _
          (λ cr.
            let low : is_high c ≡ false = ground arith in
            (ground (arith, head_bytes b c [] e low, bytes-nil), ground (arith, b)))
          (λ _. Holds-if n (c == newline) _ _ (newline-Balanced c [] e) (λ _. not_final-Balanced))
    after_final-Holds (c ∷ d ∷ s) e =
        Holds-if n (c == carriage_return && d == newline) _ _
          (λ both.
            let lc : is_high c ≡ false = ground arith in
            let ld : is_high d ≡ false = ground arith in
            record {
              total = ground (arith, head_bytes b c (d ∷ s) e lc, bytes-cons d s ld);
              rest_ok = sym (well_formed-cons d s ld) ∙ tail_ok b c (d ∷ s) e lc;
              valid = not_final-Balanced.valid;
            })
          (λ _.
            Holds-if n (c == newline) _ _ (newline-Balanced c (d ∷ s) e) (λ _. not_final-Balanced))

  after_final_cr-Holds :
      (s : Units)
      → p.rest ≡ s
      → p.splitter.finalized_pending_cr ≡ true
      → Holds n (after_final_cr p s)
  unfolding after_final_cr
  after_final_cr-Holds [] e f = (omega (arith, b.total, bytes-nil, ap utf8_byte_length e), b.valid)
  after_final_cr-Holds (c ∷ s) e f =
      Holds-if n (c == newline) _ _
        (λ nl.
          let low : is_high c ≡ false = ground arith in
          record {
            total = ground (arith, head_bytes b c s e low);
            rest_ok = tail_ok b c s e low;
            valid = ground (arith, b);
          })
        (λ _. record {
          total = ground (arith, b, ap utf8_byte_length e, bytes-cons carriage_return (c ∷ s) refl);
          rest_ok =
              well_formed-cons carriage_return (c ∷ s) refl ∙ sym (ap well_formed e) ∙ b.rest_ok;
          valid = ground (arith, b);
        })

  pub late_terminator-Holds : Holds n (late_terminator p)
  unfolding late_terminator
  late_terminator-Holds =
      Holds-if n p.splitter.finalized_at_eof _ _
        (λ eof.
          Holds-if n p.splitter.finalized_pending_cr _ _ (after_final_cr-Holds p.rest refl)
            (λ f. after_final-Holds f eof p.rest refl))
        (λ _. b)

  strip_bom-Balanced : (s : Units) → p.rest ≡ s → Balanced n (strip_bom p s)
  unfolding strip_bom
  strip_bom-Balanced [] e = b
  strip_bom-Balanced (c ∷ s) e = elim (Bool-cases (c == bom)) [
    | inl mark ↦
        let low : is_high c ≡ false = ground arith in
        rw mark (record {
          total = ground (arith, head_bytes b c s e low);
          rest_ok = tail_ok b c s e low;
          valid = ground (arith, b);
        })
    | inr other ↦
        rw other (record { total = b.total; rest_ok = b.rest_ok; valid = ground (arith, b) })
  ]

  pub byte_order_mark-Holds : Holds n (byte_order_mark p)
  unfolding byte_order_mark
  byte_order_mark-Holds =
      Balanced-if p.splitter.bom_consumed p (strip_bom p p.rest) b (strip_bom-Balanced p.rest refl)
