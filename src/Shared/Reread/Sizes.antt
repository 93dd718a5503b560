-- ===== src/Shared/Reread/Sizes.antt =====
-- How many figures a number has, and how long the canonical text of a number is,
-- shared/json_contract.py.
use native.Mathlib.Nat.{pow-suc}
use headless_blender_charact.Prelude.{
  Bool, Bool-cases, [], ap, arith, drop, false, if◌then◌else◌, inl, inr, leb, leb→le, length,
  length-append, ltb, nat_eq, refl, replicate, string_eq, suc, take, true, zero, ℕ, ◌%◌, ◌*◌, ◌+◌,
  ◌-◌, ◌/◌, ◌<◌, ◌==◌, ◌^◌, ◌∙◌, ◌∷◌, ◌≡◌, ◌≤◌,
}
use headless_blender_charact.Shared.Rejection.{ContractCode, Text, passes, reject_if, root, ◌>>◌}
use headless_blender_charact.Shared.Decimal.{
  Decimal, adjusted_magnitude, canonical_finite, digits, digits_within, down,
  max_number_abs_exponent, max_number_significant_digits, plain_digits, signed, up,
  validate_decimal_bounds, ℤ,
}
use headless_blender_charact.Shared.Decimal.Digits.{
  digits_nonempty, digits_within-enough, digits_within_large, digits_within_small, size-cases,
}
use headless_blender_charact.Shared.Reread.Normal.{trim}
use headless_blender_charact.Shared.Reread.Shapes.{fraction_text, whole_text}
use headless_blender_charact.Shared.Reread.Fractions.{length-zeros, take-append-drop}

length-digits_large : (c : ℕ) → 10 ≤ c → length (digits c) ≡ suc (length (digits (c / 10)))
unfolding digits
length-digits_large c h =
    let last = (b'0' + c % 10) ∷ [] in
    ap length (digits_within_large c c h)
    ∙ length-append (digits_within c (c / 10)) last
    ∙ ap (λ s. length s + 1)
        (digits_within-enough c (suc (c / 10)) (c / 10) (omega arith) (omega arith))
    ∙ omega arith

length-digits_small : (c : ℕ) → c < 10 → length (digits c) ≡ 1
unfolding digits
length-digits_small c h = ap length (digits_within_small c c h)

pub power_positive : (m : ℕ) → 1 ≤ 10 ^ m
power_positive zero = omega arith
power_positive (suc m) = omega (arith, pow-suc 10 m, power_positive m)

pub length-digits_least : (m c : ℕ) → 10 ^ m ≤ c → m < length (digits c)
length-digits_least zero c h = digits_nonempty c
length-digits_least (suc m) c h =
    let large : 10 ≤ c = omega (arith, h, pow-suc 10 m, power_positive m) in
    omega (
      arith,
      length-digits_large c large,
      length-digits_least m (c / 10) (omega (arith, h, pow-suc 10 m)),
    )

pub length-digits_most : (m c : ℕ) → c < 10 ^ suc m → length (digits c) ≤ suc m
length-digits_most zero c h = omega (arith, length-digits_small c (omega (arith, h)))
length-digits_most (suc m) c h = elim (size-cases c) [
  | inl small ↦ omega (arith, length-digits_small c small)
  | inr large ↦ omega (
    arith,
    length-digits_large c large,
    length-digits_most m (c / 10) (omega (arith, h, pow-suc 10 (suc m))),
  )
]

-- The text of a fraction that is not below one tenth is hardly longer than its figures.
length-plain_digits :
    (ds : Text) (n : ℕ) → suc n ≤ length ds → length (plain_digits ds (ℤ.negsuc n)) ≤ length ds + 2
unfolding plain_digits
length-plain_digits ds n h = elim (Bool-cases (leb (length ds) (suc n))) [
  | inl few ↦
      let zeros : Text = replicate (suc n - length ds) b'0' in
      rw few (
        omega (
          arith,
          length-append zeros ds,
          length-zeros (suc n - length ds),
          leb→le (length ds) (suc n) few,
        ))
  | inr many ↦
      let k = length ds - suc n in
      rw many (
        omega (
          arith,
          length-append (take k ds) (b'.' ∷ drop k ds),
          length-append (take k ds) (drop k ds),
          ap length (take-append-drop k ds),
        ))
]

pub length-signed : (b : Bool) (s : Text) → length (signed b s) ≤ length s + 1
length-signed true s = omega arith
length-signed false s = omega arith

three_guards :
    (x y z : Bool) (c : ContractCode) (p : Text)
    → x ≡ false
    → y ≡ false
    → z ≡ false
    → passes (reject_if x c p >> (reject_if y c p >> reject_if z c p)) ≡ true
unfolding passes
three_guards x y z c p h k l = rw h (rw k (rw l refl))

not_above : (a b : ℕ) → b ≤ a → ltb a b ≡ false
not_above a b h = ground arith

adjusted_small :
    (c : ℕ) (e : ℤ)
    → length (digits c) ≤ 256
    → up e ≡ 0
    → down e ≤ 1024
    → adjusted_magnitude c e ≤ 1024
unfolding adjusted_magnitude
adjusted_small c e few none_up small = omega arith

bounds_made :
    (b : Bool) (c : ℕ) (e : ℤ)
    → (c == 0) ≡ false
    → length (digits c) ≤ 256
    → up e ≡ 0
    → down e ≤ 1024
    → passes (validate_decimal_bounds (Decimal.finite b c e) root) ≡ true
unfolding validate_decimal_bounds
bounds_made b c e nonzero few none_up small =
    three_guards (ltb max_number_significant_digits (length (digits c)))
      (ltb max_number_abs_exponent (up e + down e))
      (ltb max_number_abs_exponent (if c == 0 then 0 else adjusted_magnitude c e))
      ContractCode.numeric_limit root (not_above 256 (length (digits c)) few)
      (not_above 1024 (up e + down e) (omega arith))
      (rw nonzero (not_above 1024 (adjusted_magnitude c e) (adjusted_small c e few none_up small)))

-- Short enough to be read, and within the bounds.
pub record IsShort (d : Decimal) : Type 0 where
  pub bounded : passes (validate_decimal_bounds d root) ≡ true
  pub short : length (canonical_finite d) ≤ 288

-- A number with few figures that is not below one tenth, without the zeros at the end of its fraction.
pub trim-IsShort :
    (n : ℕ) (b : Bool) (c : ℕ)
    → 0 < c
    → length (digits c) ≤ 256
    → n ≤ 1024
    → 10 ^ n ≤ 10 * c
    → IsShort (trim n b c)
unfolding trim up down
trim-IsShort zero b c h few small least = record {
  bounded = bounds_made b c (ℤ.pos 0) (ground arith) few refl (omega arith);
  short = omega (arith, few, length-signed b (digits c), ap length (whole_text b c h));
}
trim-IsShort (suc n) b c h few small least = elim (Bool-cases (c % 10 == 0)) [
  | inl tens ↦
      let whole : c / 10 * 10 ≡ c = ground arith in
      let large : 10 ≤ c = omega (arith, whole) in
      rw tens (
        trim-IsShort n b (c / 10) (omega arith) (omega (arith, few, length-digits_large c large))
          (omega arith) (omega (arith, least, whole, pow-suc 10 n)))
  | inr more ↦
      let reach = length-digits_least n c (omega (arith, least, pow-suc 10 n)) in
      rw more (record {
        bounded = bounds_made b c (ℤ.negsuc n) (ground arith) few refl small;
        short = omega (
          arith,
          few,
          length-signed b (plain_digits (digits c) (ℤ.negsuc n)),
          length-plain_digits (digits c) n reach,
          ap length (fraction_text b c n more),
        );
      })
]
