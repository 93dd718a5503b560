-- ===== src/Shared/Reread/Shapes.antt =====
-- The text of a decimal in normal form, shared/json_contract.py.
use headless_blender_charact.Prelude.{
  Bool, Bool-cases, [], any, ap, append-nil, append_assoc, ap₂, arith, drop, false, inl, inr, leb,
  length, length-append, nat_eq, refl, replicate, string_eq, suc, sym, take, true, ℕ, ◌%◌, ◌++◌,
  ◌+◌, ◌-◌, ◌<◌, ◌==◌, ◌∙◌, ◌∷◌, ◌≡◌,
}
use headless_blender_charact.Shared.Rejection.{Text}
use headless_blender_charact.Shared.Decimal.{
  Decimal, canonical_finite, digits, plain_digits, signed, strip_fraction, ℤ,
}
use headless_blender_charact.Shared.Decimal.Digits.{digits-figures, is_figure}
use headless_blender_charact.Shared.Decimal.Plain.{
  drop-append_within, figures_no_point, rstrip-snoc_other, signed-append, signed_no_point,
  take-append_within,
}
use headless_blender_charact.Shared.Decimal.Forms.{canonical_finite_nonzero}
use headless_blender_charact.Shared.Reread.Figures.{digits_last}
use headless_blender_charact.Service.Contract.{list_eq}

plain_last :
    (ds : Text) (d n : ℕ) → (p : Text) × (plain_digits (ds ++ d ∷ []) (ℤ.negsuc n) ≡ p ++ d ∷ [])
unfolding plain_digits
plain_last ds d n =
    let size : length (ds ++ d ∷ []) ≡ suc (length ds) = omega (arith, length-append ds (d ∷ [])) in
    elim (Bool-cases (leb (suc (length ds)) (suc n))) [
      | inl short ↦
          let zeros = replicate (suc n - suc (length ds)) b'0' in
          (
            b'0' ∷ b'.' ∷ zeros ++ ds,
            rw size (rw short (ap (λ s. b'0' ∷ b'.' ∷ s) (sym (append_assoc zeros ds (d ∷ []))))),
          )
      | inr long ↦
          let k = suc (length ds) - suc n in
          (
            take k ds ++ b'.' ∷ drop k ds,
            rw size (
                rw long (
                  ap₂ (λ a b. a ++ b'.' ∷ b) (take-append_within k ds (d ∷ []) (omega arith))
                    (drop-append_within k ds (d ∷ []) (omega arith))
                  ∙ sym (append_assoc (take k ds) (b'.' ∷ drop k ds) (d ∷ [])))),
          )
    ]

-- Nothing is stripped from a normal form.
pub whole_text :
    (b : Bool) (c : ℕ)
    → 0 < c
    → canonical_finite (Decimal.finite b c (ℤ.pos 0)) ≡ signed b (digits c)
unfolding plain_digits strip_fraction
whole_text b c h =
    canonical_finite_nonzero b c (ℤ.pos 0) h
    ∙ ap (λ s. strip_fraction (signed b s)) (append-nil (digits c))
    ∙ rw (signed_no_point b (digits c) (figures_no_point (digits c) (digits-figures c))) refl

strip_kept :
    (p : Text) (d : ℕ)
    → is_figure d ≡ true
    → (d == b'0') ≡ false
    → strip_fraction (p ++ d ∷ []) ≡ p ++ d ∷ []
unfolding strip_fraction
strip_kept p d h k = elim (Bool-cases (any (λ c. c == b'.') (p ++ d ∷ []))) [
  | inl point ↦
      rw point (rw (rstrip-snoc_other b'0' d p k) (rstrip-snoc_other b'.' d p (ground arith)))
  | inr plain ↦ rw plain refl
]

pub fraction_text :
    (b : Bool) (c n : ℕ)
    → (c % 10 == 0) ≡ false
    → canonical_finite (Decimal.finite b c (ℤ.negsuc n))
      ≡ signed b (plain_digits (digits c) (ℤ.negsuc n))
fraction_text b c n h =
    let (ds, shape) = digits_last c in
    let d = b'0' + c % 10 in
    let (p, last) = plain_last ds d n in
    let text_shape = ap (λ s. plain_digits s (ℤ.negsuc n)) shape ∙ last in
    canonical_finite_nonzero b c (ℤ.negsuc n) (ground arith)
    ∙ ap (λ s. strip_fraction (signed b s)) text_shape
    ∙ ap strip_fraction (signed-append b p (d ∷ []))
    ∙ strip_kept (signed b p) d (ground arith) (ground arith)
    ∙ sym (signed-append b p (d ∷ []))
    ∙ ap (signed b) (sym text_shape)
