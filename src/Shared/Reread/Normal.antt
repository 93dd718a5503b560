-- ===== src/Shared/Reread/Normal.antt =====
-- The form in which a canonical number is read back, shared/json_contract.py: no exponent above zero,
-- and no zero at the end of a fraction.
use headless_blender_charact.Prelude.{
  Bool, Bool-cases, ap, ap₂, arith, false, if◌then◌else◌, inl, inr, nat_eq, nat_eqb_iff, refl,
  string_eq, suc, sym, zero, ℕ, ◌%◌, ◌*◌, ◌+◌, ◌/◌, ◌<◌, ◌==◌, ◌^◌, ◌∙◌, ◌≡◌,
}
use headless_blender_charact.Shared.Decimal.{Decimal, canonical_finite, down, up, ℤ}
use headless_blender_charact.Shared.Decimal.Plain.{lower}
use headless_blender_charact.Shared.Decimal.Forms.{
  canonical_finite-lower, forms_agree, times_power_suc,
}

-- -n
unfoldable pub negate : ℕ → ℤ
negate zero = ℤ.pos zero
negate (suc n) = ℤ.negsuc n

unfoldable pub trim : ℕ → Bool → ℕ → Decimal
trim zero b c = Decimal.finite b c (ℤ.pos zero)
trim (suc n) b c =
    let shorter = trim n b (c / 10) in
    if c % 10 == 0 then shorter else Decimal.finite b c (ℤ.negsuc n)

unfoldable pub normal : Decimal → Decimal
unfolding trim up down
normal Decimal.special = Decimal.special
normal (Decimal.finite b c e) =
    if c == 0 then Decimal.finite false 0 (ℤ.pos 0) else trim (down e) b (c * 10 ^ up e)

-- What such a form is.
pub data IsNormal : Decimal → Type 0 where
  none_left : IsNormal (Decimal.finite false 0 (ℤ.pos 0))
  whole_number : (b : Bool) (c : ℕ) → 0 < c → IsNormal (Decimal.finite b c (ℤ.pos 0))
  fraction :
      (b : Bool) (c n : ℕ) → (c % 10 == 0) ≡ false → IsNormal (Decimal.finite b c (ℤ.negsuc n))

trim-IsNormal : (n : ℕ) (b : Bool) (c : ℕ) → 0 < c → IsNormal (trim n b c)
unfolding trim
trim-IsNormal zero b c h = IsNormal.whole_number b c h
trim-IsNormal (suc n) b c h = elim (Bool-cases (c % 10 == 0)) [
  | inl tens ↦ rw tens (trim-IsNormal n b (c / 10) (ground arith))
  | inr more ↦ rw more (IsNormal.fraction b c n more)
]

pub positive_power : (k c : ℕ) → 0 < c → 0 < c * 10 ^ k
positive_power zero c h = omega arith
positive_power (suc k) c h = omega (arith, times_power_suc c k, positive_power k c h)

pub normal-IsNormal : (b : Bool) (c : ℕ) (e : ℤ) → IsNormal (normal (Decimal.finite b c e))
unfolding normal
normal-IsNormal b c e = elim (Bool-cases (c == 0)) [
  | inl none_there ↦ rw none_there IsNormal.none_left
  | inr some_there ↦
      rw some_there
        (trim-IsNormal (down e) b (c * 10 ^ up e) (positive_power (up e) c (ground arith)))
]

lower-negate : (n : ℕ) → lower (negate n) ≡ ℤ.negsuc n
unfolding lower negate
lower-negate zero = refl
lower-negate (suc n) = refl

trim_text :
    (n : ℕ) (b : Bool) (c : ℕ)
    → canonical_finite (trim n b c) ≡ canonical_finite (Decimal.finite b c (negate n))
unfolding trim negate
trim_text zero b c = refl
trim_text (suc n) b c = elim (Bool-cases (c % 10 == 0)) [
  | inl tens ↦
      let whole : c / 10 * 10 ≡ c = ground arith in
      rw tens (
        trim_text n b (c / 10)
        ∙ sym (canonical_finite-lower b (c / 10) (negate n))
        ∙ ap₂ (λ m x. canonical_finite (Decimal.finite b m x)) whole (lower-negate n))
  | inr more ↦ rw more refl
]

normal_zero :
    (b : Bool) (e : ℤ)
    → canonical_finite (normal (Decimal.finite b 0 e)) ≡ canonical_finite (Decimal.finite b 0 e)
unfolding normal canonical_finite
normal_zero b e = refl

pub normal_nonzero :
    (b : Bool) (c : ℕ) (e : ℤ)
    → (c == 0) ≡ false
    → normal (Decimal.finite b c e) ≡ trim (down e) b (c * 10 ^ up e)
unfolding normal
normal_nonzero b c e h = rw h refl

one_times : (m : ℕ) → m * 1 ≡ m
one_times m = omega arith

-- It is written in the same way.
pub normal_text :
    (b : Bool) (c : ℕ) (e : ℤ)
    → canonical_finite (normal (Decimal.finite b c e)) ≡ canonical_finite (Decimal.finite b c e)
unfolding up down negate
normal_text b c e = elim (Bool-cases (c == 0)) [
  | inl none_there ↦ rw ((nat_eqb_iff c 0).0 none_there) (normal_zero b e)
  | inr some_there ↦
      ap canonical_finite (normal_nonzero b c e some_there)
      ∙ trim_text (down e) b (c * 10 ^ up e)
      ∙ forms_agree b (c * 10 ^ up e) c (negate (down e)) e (same_size e)
]
  where
    same_size :
        (x : ℤ)
        → c * 10 ^ up x * 10 ^ (up (negate (down x)) + down x)
          ≡ c * 10 ^ (up x + down (negate (down x)))
    same_size (ℤ.pos n) = one_times (c * 10 ^ n) ∙ ap (λ k. c * 10 ^ k) (omega arith)
    same_size (ℤ.negsuc n) = ap (λ m. m * 10 ^ (0 + suc n)) (one_times c)
