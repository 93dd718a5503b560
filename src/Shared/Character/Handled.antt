-- ===== src/Shared/Character/Handled.antt =====
-- Which statements of shared/character_spec.py end in a value or in a `ContractValidationError`, and
-- never in the `KeyError` of a missing key.
use headless_blender_charact.Prelude.{
  Bool, Bool-cases, List, [], any, ap, arith, false, if◌then◌else◌, inl, inr, leb, length, ltb,
  nat_eq, not, refl, string_eq, true, ℕ, ◌++◌, ◌+◌, ◌==◌, ◌^◌, ◌||◌, ◌∙◌, ◌∷◌, ◌≡◌,
}
use headless_blender_charact.Shared.Rejection.{
  Checked, ContractCode, Text, accepted, reject_if, rejected, rejection, ◌>>=◌, ◌>>◌,
}
use headless_blender_charact.Shared.Decimal.{
  Decimal, adjusted_magnitude, bounded_decimal, bounded_integer, decimal_below, digits, down,
  max_number_abs_exponent, max_number_significant_digits, up, validate_decimal_bounds, ℤ,
}
use headless_blender_charact.Service.Contract.{list_eq}
use headless_blender_charact.Service.Dict.{Dict, member}
use headless_blender_charact.Shared.Json.{
  Value, among, entries, reject_extra_fields, require_fields, require_object,
}
use headless_blender_charact.Shared.Readers.{
  bounded_decimal_value, collect, decimal_in, enum, indexed_path, item,
}

unfoldable pub is_key_error : ContractCode → Bool
is_key_error ContractCode.key_error = true
is_key_error _ = false

unfoldable pub raises_key_error {ℓ} : {V : Type ℓ} → Checked V → Bool
unfolding is_key_error
raises_key_error (rejected e) = is_key_error e.code
raises_key_error (accepted v) = false

-- It raises no `KeyError`.
pub record Handled {ℓ} {V : Type ℓ} (m : Checked V) : Type 0 where
  pub handled : raises_key_error m ≡ false

pub Handled-bind {ℓ κ} :
    {V : Type ℓ} {W : Type κ} (m : Checked V) {next : V → Checked W}
    → Handled m
    → ((v : V) → m ≡ accepted v → Handled (next v))
    → Handled (m >>= next)
unfolding raises_key_error
Handled-bind (rejected e) h each = record { handled = h.handled }
Handled-bind (accepted v) h each = each v refl

pub Handled-accepted {ℓ} : {V : Type ℓ} (v : V) → Handled (accepted v)
unfolding raises_key_error
Handled-accepted v = record { handled = refl }

pub Handled-rejection {ℓ} :
    {V : Type ℓ} (c : ContractCode) (p : Text)
    → is_key_error c ≡ false
    → Handled {V = V} (rejection c p)
unfolding raises_key_error
Handled-rejection c p h = record { handled = h }

pub Handled-guard :
    (b : Bool) (c : ContractCode) (p : Text) → is_key_error c ≡ false → Handled (reject_if b c p)
Handled-guard true c p h = Handled-rejection c p h
Handled-guard false c p h = Handled-accepted tt

pub Handled-then {ℓ} :
    {W : Type ℓ} (b : Bool) (c : ContractCode) (p : Text) {next : Checked W}
    → is_key_error c ≡ false
    → Handled next
    → Handled (reject_if b c p >> next)
Handled-then b c p h rest = Handled-bind (reject_if b c p) (Handled-guard b c p h) λ _ _. rest

require_object-Handled : (v : Value) (p : Text) → Handled (require_object v p)
unfolding require_object is_key_error
require_object-Handled (Value.object fs) p = Handled-accepted (entries fs)
require_object-Handled Value.null p = Handled-rejection ContractCode.expected_object p refl
require_object-Handled (Value.boolean b) p = Handled-rejection ContractCode.expected_object p refl
require_object-Handled (Value.text s) p = Handled-rejection ContractCode.expected_object p refl
require_object-Handled (Value.number d) p = Handled-rejection ContractCode.expected_object p refl
require_object-Handled (Value.integer b n) p = Handled-rejection ContractCode.expected_object p refl
require_object-Handled (Value.array vs) p = Handled-rejection ContractCode.expected_object p refl

reject_extra_fields-Handled :
    (d : Dict Text Value) (allowed : List Text) (p : Text)
    → Handled (reject_extra_fields d allowed p)
unfolding reject_extra_fields is_key_error
reject_extra_fields-Handled d allowed p = Handled-guard _ ContractCode.extra_property p refl

require_fields-Handled :
    (d : Dict Text Value) (required : List Text) (p : Text) → Handled (require_fields d required p)
unfolding require_fields is_key_error
require_fields-Handled d required p = Handled-guard _ ContractCode.missing_property p refl

-- Every required key is there.
unfoldable pub HasFields : Dict Text Value → List Text → Type 0
HasFields d required = (key : Text) → among key required ≡ true → member key d ≡ true

HasFields-required :
    (d : Dict Text Value) (required : List Text)
    → any (λ k. not (member k d)) required ≡ false
    → HasFields d required
unfolding HasFields among
HasFields-required d [] h key k = cc
HasFields-required d (r ∷ required) h key k = elim (Bool-cases (key == r)) [
  | inl same ↦
      let equal : key ≡ r = (list_eq.beq_iff key r).0 same in
      ap (λ x. member x d) equal ∙ ground arith
  | inr other ↦ HasFields-required d required (ground arith) key (ground arith)
]

require_fields-HasFields :
    (d : Dict Text Value) (required : List Text) (p : Text) (u : Unit {0})
    → require_fields d required p ≡ accepted u
    → HasFields d required
unfolding require_fields
require_fields-HasFields d required p u h = HasFields-required d required (ground arith)

pub item-Handled :
    (d : Dict Text Value) (required : List Text) (key : Text)
    → HasFields d required
    → among key required ≡ true
    → Handled (item d key)
unfolding HasFields item raises_key_error
item-Handled d required key has known = record { handled = ground (arith, has key known) }

-- `require_object`, `reject_extra_fields` and `require_fields`, and then what reads the fields.
pub object-Handled {ℓ} :
    {W : Type ℓ} (raw : Value) (allowed required : List Text) (p : Text)
    (next : Dict Text Value → Checked W)
    → ((d : Dict Text Value) → HasFields d required → Handled (next d))
    → Handled (
        require_object raw p >>= λ d.
        reject_extra_fields d allowed p >> (require_fields d required p >> next d))
object-Handled raw allowed required p next each =
    Handled-bind (require_object raw p) (require_object-Handled raw p) λ d _.
      Handled-bind (reject_extra_fields d allowed p) (reject_extra_fields-Handled d allowed p)
        λ _ _.
          Handled-bind (require_fields d required p) (require_fields-Handled d required p)
            λ u h. each d (require_fields-HasFields d required p u h)

validate_decimal_bounds-Handled : (d : Decimal) (p : Text) → Handled (validate_decimal_bounds d p)
unfolding validate_decimal_bounds is_key_error
validate_decimal_bounds-Handled Decimal.special p =
    Handled-rejection ContractCode.nonfinite_number p refl
validate_decimal_bounds-Handled (Decimal.finite b c e) p =
    let size = if c == 0 then 0 else adjusted_magnitude c e in
    Handled-then (ltb max_number_significant_digits (length (digits c))) ContractCode.numeric_limit
      p refl
      (Handled-then (ltb max_number_abs_exponent (up e + down e)) ContractCode.numeric_limit p refl
        (Handled-guard (ltb max_number_abs_exponent size) ContractCode.numeric_limit p refl))

bounded_decimal-Handled : (d : Decimal) (p : Text) → Handled (bounded_decimal d p)
unfolding bounded_decimal
bounded_decimal-Handled d p =
    Handled-bind (validate_decimal_bounds d p) (validate_decimal_bounds-Handled d p)
      λ _ _. Handled-accepted d

bounded_decimal_value-Handled : (v : Value) (p : Text) → Handled (bounded_decimal_value v p)
unfolding bounded_decimal_value bounded_integer is_key_error
bounded_decimal_value-Handled (Value.number d) p = bounded_decimal-Handled d p
bounded_decimal_value-Handled (Value.integer b n) p =
    Handled-then (leb (2 ^ 851) n) ContractCode.numeric_limit p refl
      (bounded_decimal-Handled (Decimal.finite b n (ℤ.pos 0)) p)
bounded_decimal_value-Handled Value.null p = Handled-rejection ContractCode.expected_number p refl
bounded_decimal_value-Handled (Value.boolean b) p =
    Handled-rejection ContractCode.expected_number p refl
bounded_decimal_value-Handled (Value.text s) p =
    Handled-rejection ContractCode.expected_number p refl
bounded_decimal_value-Handled (Value.array vs) p =
    Handled-rejection ContractCode.expected_number p refl
bounded_decimal_value-Handled (Value.object fs) p =
    Handled-rejection ContractCode.expected_number p refl

pub decimal_in-Handled : (v : Value) (p : Text) (lo hi : Decimal) → Handled (decimal_in v p lo hi)
unfolding decimal_in is_key_error
decimal_in-Handled v p lo hi =
    Handled-bind (bounded_decimal_value v p) (bounded_decimal_value-Handled v p) λ n _.
      Handled-then (decimal_below n lo || decimal_below hi n) ContractCode.number_out_of_range p
        refl (Handled-accepted n)

pub enum-Handled : (v : Value) (p : Text) (choices : List Text) → Handled (enum v p choices)
unfolding enum is_key_error
enum-Handled (Value.text s) p choices =
    Handled-then _ ContractCode.invalid_enum p refl (Handled-accepted s)
enum-Handled Value.null p choices = Handled-rejection ContractCode.invalid_enum p refl
enum-Handled (Value.boolean b) p choices = Handled-rejection ContractCode.invalid_enum p refl
enum-Handled (Value.number d) p choices = Handled-rejection ContractCode.invalid_enum p refl
enum-Handled (Value.integer b n) p choices = Handled-rejection ContractCode.invalid_enum p refl
enum-Handled (Value.array vs) p choices = Handled-rejection ContractCode.invalid_enum p refl
enum-Handled (Value.object fs) p choices = Handled-rejection ContractCode.invalid_enum p refl

pub collect-Handled :
    (read : Value → Text → Checked Text)
    → ((v : Value) (p : Text) → Handled (read v p))
    → (path : Text) (index : ℕ) (seen : List Text) (vs : List Value)
    → Handled (collect read path index seen vs)
unfolding collect is_key_error
collect-Handled read reads path index seen [] = Handled-accepted seen
collect-Handled read reads path index seen (v ∷ vs) =
    Handled-bind (read v (indexed_path path index)) (reads v (indexed_path path index)) λ s _.
      Handled-then _ ContractCode.duplicate_item _ refl
        (collect-Handled read reads path (index + 1) (seen ++ s ∷ []) vs)
