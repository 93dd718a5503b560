-- ===== src/Shared/Reread/Settled.antt =====
-- The numbers that shared/character_spec.py accepts are read back within their limits.
use native.Mathlib.Nat.{mul-le-mul_right}
use headless_blender_charact.Prelude.{
  Bool, ap, arith, false, leb, length, ltb, nat_eq, not, refl, string_eq, subst, suc, sym, true,
  zero, ℕ, ◌&&◌, ◌*◌, ◌+◌, ◌<◌, ◌==◌, ◌^◌, ◌∙◌, ◌≡◌, ◌≤◌,
}
use headless_blender_charact.Shared.Rejection.{
  Checked, ContractCode, Text, passes, reject_if, root, ◌>>◌,
}
use headless_blender_charact.Shared.Decimal.{
  Decimal, canonical_finite, decimal_below, digits, down, max_number_abs_exponent,
  max_number_significant_digits, up, validate_decimal_bounds, ℤ,
}
use headless_blender_charact.Shared.Decimal.Forms.{times_power_suc}
use headless_blender_charact.Shared.Reread.Normal.{
  normal, normal_nonzero, normal_text, positive_power,
}
use headless_blender_charact.Shared.Reread.Numbers.{rereads}
use headless_blender_charact.Shared.Reread.Sizes.{
  IsShort, length-digits_most, power_positive, trim-IsShort,
}
use headless_blender_charact.Service.Contract.{list_eq}
use headless_blender_charact.Shared.Readers.{tenths, whole}
use headless_blender_charact.Shared.Readers.Accepted.{within}
use headless_blender_charact.Shared.Reread.Ranges.{normal_below, times_one}

-- A number of a range is read back, and its normal form is in that range.
pub record IsSettled (lo hi d : Decimal) : Type 0 where
  pub normal_within : within lo hi (normal d) ≡ true
  pub back : rereads d ≡ true

guards_passed :
    (x y : Bool) (c : ContractCode) (p : Text) (rest : Checked (Unit {0}))
    → passes (reject_if x c p >> (reject_if y c p >> rest)) ≡ true
    → (x ≡ false) × (y ≡ false)
unfolding passes
guards_passed true y c p rest h = cc
guards_passed false true c p rest h = cc
guards_passed false false c p rest h = (refl, refl)

admitted : (a b : ℕ) → ltb a b ≡ false → b ≤ a
admitted a b h = ground arith

inside_still :
    (a b x y z w : Bool)
    → (a && not x && not y) ≡ true
    → b ≡ true
    → z ≡ x
    → w ≡ y
    → (b && not z && not w) ≡ true
inside_still a b x y z w h k l m = ground arith

short_too : (n : ℕ) (b : Bool) → n ≤ 288 → b ≡ true → (leb n 288 && b) ≡ true
short_too n b h k = ground arith

bounds_known :
    (b : Bool) (c : ℕ) (e : ℤ)
    → passes (validate_decimal_bounds (Decimal.finite b c e) root) ≡ true
    → (length (digits c) ≤ 256) × (up e + down e ≤ 1024)
unfolding validate_decimal_bounds
bounds_known b c e h =
    let (few, small) =
      guards_passed (ltb max_number_significant_digits (length (digits c)))
        (ltb max_number_abs_exponent (up e + down e)) ContractCode.numeric_limit root _ h in
    (admitted 256 (length (digits c)) few, admitted 1024 (up e + down e) small)

joined_digits :
    (c : ℕ) (e : ℤ)
    → length (digits c) ≤ 256
    → c * 10 ^ up e ≤ 1000 * 10 ^ down e
    → length (digits (c * 10 ^ up e)) ≤ 256
unfolding up down
joined_digits c (ℤ.pos n) few most = omega (arith, length-digits_most 3 (c * 10 ^ n) (omega arith))
joined_digits c (ℤ.negsuc n) few most =
    omega (arith, few, ap (λ m. length (digits m)) (times_one c))

normal-IsShort :
    (c : ℕ) (e : ℤ)
    → 0 < c
    → passes (validate_decimal_bounds (Decimal.finite false c e) root) ≡ true
    → 10 ^ down e ≤ 10 * (c * 10 ^ up e)
    → c * 10 ^ up e ≤ 1000 * 10 ^ down e
    → IsShort (normal (Decimal.finite false c e))
normal-IsShort c e h bounded least most =
    let (few, small) = bounds_known false c e bounded in
    subst IsShort (sym (normal_nonzero false c e (ground arith))) (
      trim-IsShort (down e) false (c * 10 ^ up e) (positive_power (up e) c h)
        (joined_digits c e few most) (omega arith) least)

settled :
    (lo hi : Decimal) (c : ℕ) (e : ℤ)
    → 0 < c
    → 10 ^ down e ≤ 10 * (c * 10 ^ up e)
    → c * 10 ^ up e ≤ 1000 * 10 ^ down e
    → within lo hi (Decimal.finite false c e) ≡ true
    → IsSettled lo hi (Decimal.finite false c e)
unfolding within rereads
settled lo hi c e h least most inside =
    let short = normal-IsShort c e h (ground arith) least most in
    let nonzero : (c == 0) ≡ false = ground arith in
    let (below_lo, _) = normal_below c e lo nonzero in
    let (_, above_hi) = normal_below c e hi nonzero in
    let size = ap length (normal_text false c e) in
    record {
      normal_within =
          inside_still (passes (validate_decimal_bounds (Decimal.finite false c e) root)) _
            (decimal_below (Decimal.finite false c e) lo)
            (decimal_below hi (Decimal.finite false c e)) _ _ inside short.bounded below_lo
            above_hi;
      back = short_too _ _ (omega (arith, size, short.short)) short.bounded;
    }

positive_times : (l P : ℕ) → 0 < l → P ≤ l * P
positive_times l P h = let once : 1 * P ≤ l * P = mul-le-mul_right P h in omega (arith, once)

positive_part : (c k : ℕ) → 0 < c * 10 ^ k → 0 < c
positive_part zero k h =
    let nothing : 0 * 10 ^ k ≡ 0 = omega arith in absurd (omega (arith, nothing, h))
positive_part (suc c) k h = omega arith

settled_between :
    (lo hi : Decimal) (c : ℕ) (e : ℤ) (k l h : ℕ)
    → 0 < l
    → h ≤ 1000
    → c * 10 ^ up e ≤ k
    → k ≤ 10 * (c * 10 ^ up e)
    → l * 10 ^ down e ≤ k
    → k ≤ h * 10 ^ down e
    → within lo hi (Decimal.finite false c e) ≡ true
    → IsSettled lo hi (Decimal.finite false c e)
settled_between lo hi c e k l h some_least few above below least most inside =
    let P = 10 ^ down e in
    let at_least = positive_times l P some_least in
    let at_most : h * P ≤ 1000 * P = mul-le-mul_right P few in
    let one = power_positive (down e) in
    settled lo hi c e (positive_part c (up e) (omega (arith, at_least, least, below, one)))
      (omega (arith, at_least, least, below)) (omega (arith, at_most, most, above)) inside

no_part : (c k : ℕ) → c * 10 ^ k ≤ 0 → c ≡ 0
no_part zero k h = refl
no_part (suc c) k h = absurd (omega (arith, positive_power k (suc c) (omega arith), h))

special_outside : (lo hi : Decimal) → ¬ (within lo hi Decimal.special ≡ true)
unfolding within validate_decimal_bounds passes
special_outside lo hi h = cc

sides :
    (lo hi d : Decimal)
    → within lo hi d ≡ true
    → (decimal_below d lo ≡ false) × (decimal_below hi d ≡ false)
unfolding within
sides lo hi d h =
    outer (passes (validate_decimal_bounds d root)) (decimal_below d lo) (decimal_below hi d) h
  where
    outer : (a x y : Bool) → (a && not x && not y) ≡ true → (x ≡ false) × (y ≡ false)
    outer a x y h = ground arith

pub not_below : (a b : ℕ) → ltb a b ≡ false → b ≤ a
not_below a b h = ground arith

no_minus : (c l : ℕ) → 0 < l → ¬ (not (c == 0 && l == 0) ≡ false)
no_minus c l h = ground arith

one_more : (c : ℕ) (e : ℤ) → c * 10 ^ (up e + 1) ≡ c * 10 ^ up e * 10
one_more c e = ap (λ k. c * 10 ^ k) (omega arith) ∙ times_power_suc c (up e)

none_more : (c k : ℕ) → c * 10 ^ (k + 0) ≡ c * 10 ^ k
none_more c k = ap (λ k. c * 10 ^ k) (omega arith)

none_before : (c k : ℕ) → c * 10 ^ (0 + k) ≡ c * 10 ^ k
none_before c k = ap (λ k. c * 10 ^ k) (omega arith)

-- Tenths, of which the least is not zero.
pub tenths-IsSettled :
    (l h : ℕ) (d : Decimal)
    → 0 < l
    → h ≤ 1000
    → within (tenths l) (tenths h) d ≡ true
    → IsSettled (tenths l) (tenths h) d
unfolding within decimal_below up down
tenths-IsSettled l h Decimal.special some_least few inside =
    absurd (special_outside (tenths l) (tenths h) inside)
tenths-IsSettled l h (Decimal.finite true c e) some_least few inside =
    absurd
      (no_minus c l some_least (sides (tenths l) (tenths h) (Decimal.finite true c e) inside).0)
tenths-IsSettled l h (Decimal.finite false c e) some_least few inside =
    let (left, right) = sides (tenths l) (tenths h) (Decimal.finite false c e) inside in
    let k = c * 10 ^ up e * 10 in
    settled_between (tenths l) (tenths h) c e k l h some_least few (omega arith) (omega arith)
      (omega (arith, not_below _ _ left, one_more c e, none_before l (down e)))
      (omega (arith, not_below _ _ right, one_more c e, none_before h (down e))) inside

-- Whole numbers, of which the least is not zero.
pub whole-IsSettled :
    (l h : ℕ) (d : Decimal)
    → 0 < l
    → h ≤ 1000
    → within (whole l) (whole h) d ≡ true
    → IsSettled (whole l) (whole h) d
unfolding within decimal_below up down
whole-IsSettled l h Decimal.special some_least few inside =
    absurd (special_outside (whole l) (whole h) inside)
whole-IsSettled l h (Decimal.finite true c e) some_least few inside =
    absurd (no_minus c l some_least (sides (whole l) (whole h) (Decimal.finite true c e) inside).0)
whole-IsSettled l h (Decimal.finite false c e) some_least few inside =
    let (left, right) = sides (whole l) (whole h) (Decimal.finite false c e) inside in
    let k = c * 10 ^ up e in
    settled_between (whole l) (whole h) c e k l h some_least few (omega arith) (omega arith)
      (omega (arith, not_below _ _ left, none_more c (up e), none_before l (down e)))
      (omega (arith, not_below _ _ right, none_more c (up e), none_before h (down e))) inside

zero-IsSettled : (b : Bool) (e : ℤ) → IsSettled (whole 0) (whole 0) (Decimal.finite b 0 e)
unfolding within rereads normal validate_decimal_bounds passes decimal_below canonical_finite
zero-IsSettled b e = record { normal_within = refl; back = refl }

-- Nothing but zero.
pub nothing-IsSettled :
    (d : Decimal) → within (whole 0) (whole 0) d ≡ true → IsSettled (whole 0) (whole 0) d
unfolding within decimal_below up down
nothing-IsSettled Decimal.special inside = absurd (special_outside (whole 0) (whole 0) inside)
nothing-IsSettled (Decimal.finite true c e) inside =
    let left = (sides (whole 0) (whole 0) (Decimal.finite true c e) inside).0 in
    let none_there : c ≡ 0 = ground arith in
    subst (λ n. IsSettled (whole 0) (whole 0) (Decimal.finite true n e)) (sym none_there)
      (zero-IsSettled true e)
nothing-IsSettled (Decimal.finite false c e) inside =
    let right = not_below _ _ (sides (whole 0) (whole 0) (Decimal.finite false c e) inside).1 in
    let none_there : c ≡ 0 = no_part c (up e) (omega (arith, right, none_more c (up e))) in
    subst (λ n. IsSettled (whole 0) (whole 0) (Decimal.finite false n e)) (sym none_there)
      (zero-IsSettled false e)
