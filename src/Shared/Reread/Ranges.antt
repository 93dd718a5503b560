-- ===== src/Shared/Reread/Ranges.antt =====
-- A number within a range of shared/character_spec.py is read back, and its normal form is within the
-- same range.
use headless_blender_charact.Prelude.{
  Bool-cases, ap, ap₂, arith, false, inl, inr, ltb, nat_eq, not, refl, string_eq, suc, sym, true,
  zero, ℕ, ◌%◌, ◌&&◌, ◌*◌, ◌+◌, ◌/◌, ◌==◌, ◌^◌, ◌∙◌, ◌≡◌,
}
use headless_blender_charact.Shared.Decimal.{Decimal, decimal_below, down, up, ℤ}
use headless_blender_charact.Shared.Decimal.Forms.{times_power_suc}
use headless_blender_charact.Shared.Reread.Normal.{
  negate, normal, normal_nonzero, positive_power, trim,
}
use headless_blender_charact.Service.Contract.{list_eq}

-- x < y, both times ten
ltb_tenfold : (x y : ℕ) → ltb (x * 10) (y * 10) ≡ ltb x y
ltb_tenfold x y = ground arith

-- c times a power, and ten times it
tenfold : (c k : ℕ) → c * 10 * 10 ^ k ≡ c * 10 ^ k * 10
tenfold c k = ground arith

longer_power : (f u n : ℕ) → f * 10 ^ (u + suc n) ≡ f * 10 ^ (u + n) * 10
longer_power f u n = ap (λ k. f * 10 ^ k) (omega arith) ∙ times_power_suc f (u + n)

joined_powers : (c n k : ℕ) → c * 10 ^ n * 10 ^ k ≡ c * 10 ^ (n + k)
joined_powers c n zero = omega (arith, ap (λ k. c * 10 ^ k) (n_zero n))
  where
    n_zero : (n : ℕ) → n + 0 ≡ n
    n_zero n = omega arith
joined_powers c n (suc k) =
    times_power_suc (c * 10 ^ n) k
    ∙ ap (λ m. m * 10) (joined_powers c n k)
    ∙ sym (longer_power c n k)

below_scaled :
    (c k f u n : ℕ)
    → ltb (c * 10 * 10 ^ (0 + k)) (f * 10 ^ (u + suc n)) ≡ ltb (c * 10 ^ (0 + k)) (f * 10 ^ (u + n))
below_scaled c k f u n =
    ap₂ ltb (tenfold c (0 + k)) (longer_power f u n)
    ∙ ltb_tenfold (c * 10 ^ (0 + k)) (f * 10 ^ (u + n))

above_scaled :
    (c k f u n : ℕ)
    → ltb (f * 10 ^ (u + suc n)) (c * 10 * 10 ^ (0 + k)) ≡ ltb (f * 10 ^ (u + n)) (c * 10 ^ (0 + k))
above_scaled c k f u n =
    ap₂ ltb (longer_power f u n) (tenfold c (0 + k))
    ∙ ltb_tenfold (f * 10 ^ (u + n)) (c * 10 ^ (0 + k))

-- A zero less at the end of a fraction changes no comparison.
below_lower :
    (c n : ℕ) (x : Decimal)
    → decimal_below (Decimal.finite false (c * 10) (ℤ.negsuc n)) x
      ≡ decimal_below (Decimal.finite false c (negate n)) x
unfolding decimal_below up down negate
below_lower c n Decimal.special = refl
below_lower c n (Decimal.finite true f g) = refl
below_lower c zero (Decimal.finite false f g) = below_scaled c (down g) f (up g) 0
below_lower c (suc n) (Decimal.finite false f g) = below_scaled c (down g) f (up g) (suc n)

above_lower :
    (c n : ℕ) (x : Decimal)
    → decimal_below x (Decimal.finite false (c * 10) (ℤ.negsuc n))
      ≡ decimal_below x (Decimal.finite false c (negate n))
unfolding decimal_below up down negate
above_lower c n Decimal.special = refl
above_lower c n (Decimal.finite true f g) =
    let same : (c * 10 == 0) ≡ (c == 0) = ground arith in ap (λ z. not (f == 0 && z)) same
above_lower c zero (Decimal.finite false f g) = above_scaled c (down g) f (up g) 0
above_lower c (suc n) (Decimal.finite false f g) = above_scaled c (down g) f (up g) (suc n)

trim_below :
    (n c : ℕ) (x : Decimal)
    → (decimal_below (trim n false c) x ≡ decimal_below (Decimal.finite false c (negate n)) x)
      × (decimal_below x (trim n false c) ≡ decimal_below x (Decimal.finite false c (negate n)))
unfolding trim negate
trim_below zero c x = (refl, refl)
trim_below (suc n) c x = elim (Bool-cases (c % 10 == 0)) [
  | inl tens ↦
      let whole : c / 10 * 10 ≡ c = ground arith in
      let (left, right) = trim_below n (c / 10) x in
      rw tens (
        (
          left
              ∙ sym (below_lower (c / 10) n x)
              ∙ ap (λ m. decimal_below (Decimal.finite false m (ℤ.negsuc n)) x) whole,
          right
              ∙ sym (above_lower (c / 10) n x)
              ∙ ap (λ m. decimal_below x (Decimal.finite false m (ℤ.negsuc n))) whole,
        ))
  | inr more ↦ rw more ((refl, refl))
]

pub times_one : (c : ℕ) → c * 10 ^ 0 ≡ c
times_one c = omega arith

zero_kept : (c n : ℕ) → (c * 10 ^ n == 0) ≡ (c == 0)
zero_kept zero n = let nothing : 0 * 10 ^ n ≡ 0 = omega arith in rw nothing refl
zero_kept (suc c) n = ground (arith, positive_power n (suc c) (omega arith))

-- A coefficient that takes up an exponent above zero changes no comparison.
joined_below :
    (c : ℕ) (e : ℤ) (x : Decimal)
    → (decimal_below (Decimal.finite false (c * 10 ^ up e) (negate (down e))) x
        ≡ decimal_below (Decimal.finite false c e) x)
      × (decimal_below x (Decimal.finite false (c * 10 ^ up e) (negate (down e)))
          ≡ decimal_below x (Decimal.finite false c e))
unfolding decimal_below up down negate
joined_below c (ℤ.negsuc n) x = (
  ap (λ m. decimal_below (Decimal.finite false m (ℤ.negsuc n)) x) (times_one c),
  ap (λ m. decimal_below x (Decimal.finite false m (ℤ.negsuc n))) (times_one c),
)
joined_below c (ℤ.pos n) Decimal.special = (refl, refl)
joined_below c (ℤ.pos n) (Decimal.finite true f g) =
    let same : (c * 10 ^ n == 0) ≡ (c == 0) = zero_kept c n in
    (refl, ap (λ z. not (f == 0 && z)) same)
joined_below c (ℤ.pos n) (Decimal.finite false f g) =
    let same = joined_powers c n (0 + down g) ∙ ap (λ k. c * 10 ^ (n + k)) (zero_plus (down g)) in
    (ap (λ z. ltb z (f * 10 ^ (up g + 0))) same, ap (λ z. ltb (f * 10 ^ (up g + 0)) z) same)
  where
    zero_plus : (k : ℕ) → 0 + k ≡ k
    zero_plus k = omega arith

pub normal_below :
    (c : ℕ) (e : ℤ) (x : Decimal)
    → (c == 0) ≡ false
    → (decimal_below (normal (Decimal.finite false c e)) x
        ≡ decimal_below (Decimal.finite false c e) x)
      × (decimal_below x (normal (Decimal.finite false c e))
          ≡ decimal_below x (Decimal.finite false c e))
normal_below c e x nonzero =
    let same = normal_nonzero false c e nonzero in
    let (left, right) = trim_below (down e) (c * 10 ^ up e) x in
    let (left_too, right_too) = joined_below c e x in
    (
      ap (λ d. decimal_below d x) same ∙ left ∙ left_too,
      ap (λ d. decimal_below x d) same ∙ right ∙ right_too,
    )
