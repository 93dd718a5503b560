-- ===== src/Shared/Readers.antt =====
-- shared/character_spec.py: what its readers share: the value of a key, numbers in a range, presets,
-- and arrays without repetition.
pub mod Accepted
use headless_blender_charact.Prelude.{
  Bool, List, Option, [], false, nat_eq, none, not, some, string_eq, ℕ, ◌++◌, ◌+◌, ◌==◌, ◌||◌, ◌∷◌,
}
use headless_blender_charact.Shared.Rejection.{
  Checked, ContractCode, Text, accepted, reject_if, rejection, root, ◌>>=◌, ◌>>◌,
}
use headless_blender_charact.Shared.Decimal.{
  Decimal, bounded_decimal, bounded_integer, decimal_below, digits, ℤ,
}
use headless_blender_charact.Service.Contract.{list_eq}
use headless_blender_charact.Service.Dict.{Dict, lookup}
use headless_blender_charact.Shared.Json.{Value, among}

-- `value[key]`
unfoldable pub item : Dict Text Value → Text → Checked Value
item value key = found (lookup key value)
  where
    found : Option Value → Checked Value
    found none = rejection ContractCode.key_error root
    found (some v) = accepted v

-- `value.get(key, default)`
unfoldable pub get_default : Dict Text Value → Text → Value → Value
get_default value key default = found (lookup key value)
  where
    found : Option Value → Value
    found none = default
    found (some v) = v

-- `Decimal("n")`
abbrev pub whole : ℕ → Decimal
whole n = Decimal.finite false n (ℤ.pos 0)

-- `Decimal("0.7")` and the like: a number of tenths
abbrev pub tenths : ℕ → Decimal
tenths n = Decimal.finite false n (ℤ.negsuc 0)

-- `bounded_decimal_value`
unfoldable pub bounded_decimal_value : Value → Text → Checked Decimal
unfolding bounded_decimal bounded_integer
bounded_decimal_value (Value.number d) path = bounded_decimal d path
bounded_decimal_value (Value.integer negative n) path = bounded_integer negative n path
bounded_decimal_value _ path = rejection ContractCode.expected_number path

-- `_decimal`
unfoldable pub decimal_in : Value → Text → Decimal → Decimal → Checked Decimal
unfolding bounded_decimal_value decimal_below
decimal_in value path minimum maximum = do
  n ← bounded_decimal_value value path
  reject_if (decimal_below n minimum || decimal_below maximum n) ContractCode.number_out_of_range
      path
  accepted n

-- `_enum`
unfoldable pub enum : Value → Text → List Text → Checked Text
unfolding among
enum (Value.text s) path choices =
    reject_if (not (among s choices)) ContractCode.invalid_enum path >> accepted s
enum _ path choices = rejection ContractCode.invalid_enum path

-- `value == "..."`
unfoldable pub is_text : Value → Text → Bool
is_text (Value.text s) t = s == t
is_text _ t = false

-- `f"{path}[{index}]"`
unfoldable pub indexed_path : Text → ℕ → Text
unfolding digits
indexed_path path index = path ++ b'[' ∷ digits index ++ b']' ∷ []

-- The loop over an array whose elements are read one by one and must differ from those before.
unfoldable pub collect :
    (Value → Text → Checked Text) → Text → ℕ → List Text → List Value → Checked (List Text)
unfolding indexed_path among
collect read path index seen [] = accepted seen
collect read path index seen (v ∷ vs) = do
  s ← read v (indexed_path path index)
  reject_if (among s seen) ContractCode.duplicate_item (indexed_path path index)
  collect read path (index + 1) (seen ++ s ∷ []) vs
