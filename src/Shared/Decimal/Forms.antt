-- ===== src/Shared/Decimal/Forms.antt =====
-- One number, one text, shared/json_contract.py: forms of a decimal that differ in trailing zeros.
use native.Mathlib.Nat.{pow-suc, mul_assoc}
use headless_blender_charact.Prelude.{
  Bool, Bool-cases, ap, ap₂, arith, false, inl, inr, leb, nat_eq, refl, string_eq, suc, sym, true,
  zero, ℕ, ◌*◌, ◌+◌, ◌-◌, ◌<◌, ◌==◌, ◌^◌, ◌∙◌, ◌≡◌, ◌≢◌, ◌⊎◌,
}
use headless_blender_charact.Shared.Rejection.{
  Text, accepted, accepted-injective, bind_passed, root, then_accepted,
}
use headless_blender_charact.Shared.Decimal.{
  Decimal, bounded_decimal, canonical_finite, canonical_number, decimal_below, digits, down,
  plain_digits, signed, strip_fraction, up, validate_decimal_bounds, ℤ,
}
use headless_blender_charact.Shared.Decimal.Digits.{
  digits-figures, digits-times_ten, digits_nonempty,
}
use headless_blender_charact.Shared.Decimal.Plain.{lower, plain_step}

pub canonical_finite_nonzero :
    (b : Bool) (c : ℕ) (e : ℤ)
    → 0 < c
    → canonical_finite (Decimal.finite b c e)
      ≡ strip_fraction (signed b (plain_digits (digits c) e))
unfolding canonical_finite
canonical_finite_nonzero b c e h = let nonzero : (c == 0) ≡ false = ground arith in rw nonzero refl

pub canonical_finite-lower :
    (b : Bool) (c : ℕ) (e : ℤ)
    → canonical_finite (Decimal.finite b (c * 10) (lower e))
      ≡ canonical_finite (Decimal.finite b c e)
unfolding canonical_finite
canonical_finite-lower b zero e = refl
canonical_finite-lower b (suc c) e =
    canonical_finite_nonzero b (suc c * 10) (lower e) (omega arith)
    ∙ ap (λ ds. strip_fraction (signed b (plain_digits ds (lower e))))
        (digits-times_ten (suc c) (omega arith))
    ∙ plain_step b (digits (suc c)) e (digits_nonempty (suc c)) (digits-figures (suc c))
    ∙ sym (canonical_finite_nonzero b (suc c) e (omega arith))

pub times_power_suc : (c k : ℕ) → c * 10 ^ suc k ≡ c * 10 ^ k * 10
times_power_suc c k = ap (◌*◌ c) (pow-suc 10 k) ∙ sym (mul_assoc c (10 ^ k) 10)

lower_by : ℕ → ℤ → ℤ
unfolding lower
lower_by zero e = e
lower_by (suc k) e = lower (lower_by k e)

canonical_finite-lower_by :
    (k : ℕ) (b : Bool) (c : ℕ) (e : ℤ)
    → canonical_finite (Decimal.finite b (c * 10 ^ k) (lower_by k e))
      ≡ canonical_finite (Decimal.finite b c e)
unfolding lower_by
canonical_finite-lower_by zero b c e = let same : c * 1 ≡ c = omega arith in rw same refl
canonical_finite-lower_by (suc k) b c e =
    let more : c * 10 ^ suc k ≡ c * 10 ^ k * 10 = times_power_suc c k in
    ap (λ n. canonical_finite (Decimal.finite b n (lower (lower_by k e)))) more
    ∙ canonical_finite-lower b (c * 10 ^ k) (lower_by k e)
    ∙ canonical_finite-lower_by k b c e

ℤ-ext : (e f : ℤ) → up e + down f ≡ up f + down e → e ≡ f
unfolding up down
ℤ-ext (ℤ.pos m) (ℤ.pos n) h = ap ℤ.pos (omega arith)
ℤ-ext (ℤ.pos m) (ℤ.negsuc n) h = absurd (omega arith)
ℤ-ext (ℤ.negsuc m) (ℤ.pos n) h = absurd (omega arith)
ℤ-ext (ℤ.negsuc m) (ℤ.negsuc n) h = ap ℤ.negsuc (omega arith)

lower-le : (e : ℤ) → up e + down (lower e) ≡ up (lower e) + down e + 1
unfolding up down lower
lower-le (ℤ.pos zero) = refl
lower-le (ℤ.pos (suc n)) = omega arith
lower-le (ℤ.negsuc n) = omega arith

lower_by_distance : (k : ℕ) (e : ℤ) → up e + down (lower_by k e) ≡ up (lower_by k e) + down e + k
unfolding lower_by
lower_by_distance zero e = omega arith
lower_by_distance (suc k) e = omega (arith, lower_by_distance k e, lower-le (lower_by k e))

lower_by_reached : (k : ℕ) (e f : ℤ) → up f + down e ≡ up e + down f + k → e ≡ lower_by k f
lower_by_reached k e f h = ℤ-ext e (lower_by k f) (omega (arith, lower_by_distance k f))

power_cancel : (a k c d : ℕ) → c * 10 ^ a ≡ d * 10 ^ (a + k) → c ≡ d * 10 ^ k
power_cancel zero k c d h =
    let one : c * 10 ^ 0 ≡ c = omega arith in sym one ∙ h ∙ ap (λ n. d * 10 ^ n) (omega arith)
power_cancel (suc a) k c d h =
    let shorter : 10 ^ (suc a + k) ≡ 10 ^ suc (a + k) = ap (λ n. 10 ^ n) (omega arith) in
    let left = times_power_suc c a in
    let right = ap (◌*◌ d) shorter ∙ times_power_suc d (a + k) in
    power_cancel a k c d (omega (arith, left, right, h))

-- Two forms of one size print the same; the first has at least as large an exponent.
forms_ordered :
    (b : Bool) (c d : ℕ) (e f : ℤ) (k : ℕ)
    → up f + down e ≡ up e + down f + k
    → c * 10 ^ (up e + down f) ≡ d * 10 ^ (up f + down e)
    → canonical_finite (Decimal.finite b c e) ≡ canonical_finite (Decimal.finite b d f)
forms_ordered b c d e f k gap h =
    let scale = power_cancel (up e + down f) k c d (h ∙ ap (λ n. d * 10 ^ n) gap) in
    ap₂ (λ n x. canonical_finite (Decimal.finite b n x)) scale (lower_by_reached k e f gap)
    ∙ canonical_finite-lower_by k b d f

distance-cases : (a b : ℕ) → ((k : ℕ) × (b ≡ a + k)) ⊎ ((k : ℕ) × (a ≡ b + k))
distance-cases a b = elim (Bool-cases (leb a b)) [
  | inl small ↦ inl (b - a, ground arith)
  | inr large ↦ inr (a - b, ground arith)
]

pub forms_agree :
    (b : Bool) (c d : ℕ) (e f : ℤ)
    → c * 10 ^ (up e + down f) ≡ d * 10 ^ (up f + down e)
    → canonical_finite (Decimal.finite b c e) ≡ canonical_finite (Decimal.finite b d f)
forms_agree b c d e f h = elim (distance-cases (up e + down f) (up f + down e)) [
  | inl (k, gap) ↦ forms_ordered b c d e f k gap h
  | inr (k, gap) ↦ sym (forms_ordered b d c f e k gap (sym h))
]

zeros_alike :
    (c d : ℕ) (e f : ℤ)
    → (c ≡ 0) × (d ≡ 0)
    → canonical_finite (Decimal.finite false c e) ≡ canonical_finite (Decimal.finite true d f)
unfolding canonical_finite
zeros_alike c d e f (p, q) = rw p (rw q refl)

forms_equal :
    (x y : Decimal)
    → x ≢ Decimal.special
    → y ≢ Decimal.special
    → decimal_below x y ≡ false
    → decimal_below y x ≡ false
    → canonical_finite x ≡ canonical_finite y
unfolding decimal_below
forms_equal Decimal.special y p q h k = absurd (p refl)
forms_equal (Decimal.finite b c e) Decimal.special p q h k = absurd (q refl)
forms_equal (Decimal.finite false c e) (Decimal.finite false d f) p q h k =
    forms_agree false c d e f (ground arith)
forms_equal (Decimal.finite true c e) (Decimal.finite true d f) p q h k =
    forms_agree true c d e f (ground arith)
forms_equal (Decimal.finite false c e) (Decimal.finite true d f) p q h k =
    zeros_alike c d e f (ground arith)
forms_equal (Decimal.finite true c e) (Decimal.finite false d f) p q h k =
    sym (zeros_alike d c f e (ground arith))

pub number_read :
    (x : Decimal) (s : Text)
    → canonical_number x ≡ accepted s
    → (x ≢ Decimal.special) × (s ≡ canonical_finite x)
unfolding canonical_number bounded_decimal validate_decimal_bounds
number_read Decimal.special s h = cc
number_read (Decimal.finite b c e) s h =
    let x = Decimal.finite b c e in
    let (d, bounded, printed) =
      bind_passed (bounded_decimal x root) (λ v. accepted (canonical_finite v)) s h in
    (
      λ same. cc,
      sym (accepted-injective printed)
          ∙ ap canonical_finite (then_accepted (validate_decimal_bounds x root) x d bounded),
    )

-- Two decimals that the bounds admit and of which neither is below the other (`1`, `1.0`, `1e0`; `0`
-- and `-0`) have one and the same canonical text.
pub canonical_number-same :
    (x y : Decimal) (s t : Text)
    → canonical_number x ≡ accepted s
    → canonical_number y ≡ accepted t
    → decimal_below x y ≡ false
    → decimal_below y x ≡ false
    → s ≡ t
canonical_number-same x y s t h k below above =
    let (p, here) = number_read x s h in
    let (q, there) = number_read y t k in here ∙ forms_equal x y p q below above ∙ sym there
