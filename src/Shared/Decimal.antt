-- ===== src/Shared/Decimal.antt =====
-- The numbers of shared/json_contract.py: Python's `Decimal` and `int`, the bounds on them, and their
-- canonical text.
pub mod Digits
pub mod Plain
pub mod Forms
use headless_blender_charact.Prelude.{
  Bool, [], any, drop, false, if◌then◌else◌, leb, length, ltb, nat_eq, not, replicate, string_eq,
  suc, take, true, zero, ℕ, ◌%◌, ◌&&◌, ◌*◌, ◌++◌, ◌+◌, ◌-◌, ◌/◌, ◌==◌, ◌^◌, ◌∷◌,
}
use headless_blender_charact.Shared.Rejection.{
  Checked, ContractCode, Text, accepted, reject_if, rejection, root, ◌>>=◌, ◌>>◌,
}

-- An exponent: `negsuc n` is -(n + 1).
pub data ℤ : Type 0 where
  pos negsuc : ℕ → ℤ

-- `Decimal.as_tuple()` with its digits read as one number, or an infinity or a NaN.
pub data Decimal : Type 0 where
  finite : Bool → ℕ → ℤ → Decimal
  special : Decimal

abbrev pub max_number_significant_digits : ℕ
max_number_significant_digits = 256

abbrev pub max_number_abs_exponent : ℕ
max_number_abs_exponent = 1024

-- `max(e, 0)` and `max(-e, 0)`
unfoldable pub up : ℤ → ℕ
up (ℤ.pos n) = n
up (ℤ.negsuc n) = 0

unfoldable pub down : ℤ → ℕ
down (ℤ.pos n) = 0
down (ℤ.negsuc n) = suc n

-- The decimal digits of a number below a power of ten, as characters; the first argument is fuel.
unfoldable pub digits_within : ℕ → ℕ → Text
digits_within zero n = []
digits_within (suc fuel) n = elim (ltb n 10) [
  | true ↦ (b'0' + n) ∷ []
  | false ↦ digits_within fuel (n / 10) ++ (b'0' + n % 10) ∷ []
]

-- `str(n)`; a number has fewer digits than itself and one more.
unfoldable pub digits : ℕ → Text
unfolding digits_within
digits n = digits_within (suc n) n

-- `abs(value.adjusted())`, of a number that is not zero
unfoldable pub adjusted_magnitude : ℕ → ℤ → ℕ
unfolding digits up down
adjusted_magnitude coefficient exponent =
    let reach = length (digits coefficient) - 1 + up exponent in
    (reach - down exponent) + (down exponent - reach)

-- `_validate_decimal_bounds`
unfoldable pub validate_decimal_bounds : Decimal → Text → Checked (Unit {0})
unfolding digits up down adjusted_magnitude
validate_decimal_bounds Decimal.special path = rejection ContractCode.nonfinite_number path
validate_decimal_bounds (Decimal.finite sign coefficient exponent) path = do
  reject_if (ltb max_number_significant_digits (length (digits coefficient)))
      ContractCode.numeric_limit path
  reject_if (ltb max_number_abs_exponent (up exponent + down exponent)) ContractCode.numeric_limit
      path
  reject_if
      (ltb max_number_abs_exponent
        (if coefficient == 0 then 0 else adjusted_magnitude coefficient exponent))
      ContractCode.numeric_limit path

-- `bounded_decimal_value` of a `Decimal`
unfoldable pub bounded_decimal : Decimal → Text → Checked Decimal
unfolding validate_decimal_bounds
bounded_decimal d path = do validate_decimal_bounds d path; accepted d

-- `bounded_decimal_value` of an `int`, given by its sign and its size: `bit_length() > 851` says
-- that the size is at least 2 ** 851.
unfoldable pub bounded_integer : Bool → ℕ → Text → Checked Decimal
unfolding bounded_decimal
bounded_integer negative n path = do
  reject_if (leb (2 ^ 851) n) ContractCode.numeric_limit path
  bounded_decimal (Decimal.finite negative n (ℤ.pos 0)) path

-- The size of a decimal times a power of ten that makes it whole.
abbrev scaled : ℕ → ℤ → ℕ → ℕ
scaled coefficient exponent by = coefficient * 10 ^ (up exponent + by)

abbrev size_below : ℕ → ℤ → ℕ → ℤ → Bool
size_below c e d f = ltb (scaled c e (down f)) (scaled d f (down e))

-- `a < b`; a comparison with a NaN raises in Python, but the bounds are checked first.
unfoldable pub decimal_below : Decimal → Decimal → Bool
unfolding up down
decimal_below (Decimal.finite false c e) (Decimal.finite false d f) = size_below c e d f
decimal_below (Decimal.finite false c e) (Decimal.finite true d f) = false
decimal_below (Decimal.finite true c e) (Decimal.finite false d f) = not (c == 0 && d == 0)
decimal_below (Decimal.finite true c e) (Decimal.finite true d f) = size_below d f c e
decimal_below _ _ = false

-- `text.rstrip(character)`
unfoldable pub rstrip : ℕ → Text → Text
rstrip c [] = []
rstrip c (x ∷ s) = let rest = rstrip c s in cons_unless (x == c) rest
  where
    cons_unless : Bool → Text → Text
    cons_unless true [] = []
    cons_unless _ rest = x ∷ rest

-- `format(value, "f")` without the sign
unfoldable pub plain_digits : Text → ℤ → Text
plain_digits ds (ℤ.pos n) = ds ++ replicate n b'0'
plain_digits ds (ℤ.negsuc n) =
    if leb (length ds) (suc n)
    then b'0' ∷ b'.' ∷ replicate (suc n - length ds) b'0' ++ ds
    else take (length ds - suc n) ds ++ b'.' ∷ drop (length ds - suc n) ds

-- `if "." in rendered: rendered = rendered.rstrip("0").rstrip(".")`
unfoldable pub strip_fraction : Text → Text
unfolding rstrip
strip_fraction s = if any (λ c. c == b'.') s then rstrip b'.' (rstrip b'0' s) else s

abbrev pub signed : Bool → Text → Text
signed negative s = if negative then b'-' ∷ s else s

unfoldable pub canonical_finite : Decimal → Text
unfolding digits plain_digits strip_fraction
canonical_finite Decimal.special = []
canonical_finite (Decimal.finite sign coefficient exponent) =
    if coefficient == 0
    then b'0' ∷ []
    else strip_fraction (signed sign (plain_digits (digits coefficient) exponent))

-- `_canonical_number` of a `Decimal`
unfoldable pub canonical_number : Decimal → Checked Text
unfolding bounded_decimal canonical_finite
canonical_number d = do value ← bounded_decimal d root; accepted (canonical_finite value)

-- `_canonical_number` of an `int`; `-0` is no `int`.
unfoldable pub canonical_integer : Bool → ℕ → Checked Text
unfolding digits
canonical_integer negative n = do
  reject_if (leb (2 ^ 851) n) ContractCode.numeric_limit root
  reject_if (ltb max_number_significant_digits (length (digits n))) ContractCode.numeric_limit root
  accepted (signed (negative && not (n == 0)) (digits n))
