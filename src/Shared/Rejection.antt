-- ===== src/Shared/Rejection.antt =====
-- `ContractValidationError` of shared/json_contract.py as a value: its code and its path. A message
-- is for people and is not modelled.
use headless_blender_charact.Prelude.{
  Bool, List, [], arith, false, not, refl, subst, true, ℕ, ◌&&◌, ◌∷◌, ◌≡◌,
}

-- A Python `str` is the list of its code points, surrogates included.
abbrev pub Text : Type 0
Text = List ℕ

-- `not text`
unfoldable pub is_blank : Text → Bool
is_blank [] = true
is_blank _ = false

-- The codes that shared/json_contract.py and shared/character_spec.py raise.
pub data ContractCode : Type 0 where
  nonfinite_number numeric_limit invalid_number expected_number duplicate_key : ContractCode
  invalid_unicode invalid_utf8 payload_too_large invalid_json excessive_nesting : ContractCode
  expected_object extra_property missing_property number_out_of_range invalid_enum : ContractCode
  invalid_slug unsupported_version invalid_name invalid_palette invalid_color : ContractCode
  duplicate_item invalid_components incompatible_components : ContractCode
  unsupported_contract_value : ContractCode
  -- Python's own `KeyError`, for a key that is missing, which is no rejection
  key_error : ContractCode

pub record ContractValidationError : Type 0 where
  pub code : ContractCode
  pub path : Text

-- What a reader of the contract returns, or what it raises.
pub data Checked {ℓ} (Value : Type ℓ) : Type ℓ where
  rejected : ContractValidationError → Checked Value
  accepted : Value → Checked Value

-- Statements in sequence: the first rejection ends them.
abbrev pub ◌>>=◌ {κ ℓ} : {V : Type κ} {W : Type ℓ} → Checked V → (V → Checked W) → Checked W
rejected e >>= next = rejected e
accepted v >>= next = next v

infixl 5 ◌>>=◌
abbrev pub ◌>>◌ {ℓ} : {W : Type ℓ} → Checked (Unit {0}) → Checked W → Checked W
statement >> next = statement >>= λ _. next

infixl 5 ◌>>◌
abbrev pub rejection {ℓ} : {V : Type ℓ} → ContractCode → Text → Checked V
rejection c p = rejected (record { code = c; path = p })

-- `if test: raise ContractValidationError(code, ..., path)`
abbrev pub reject_if : Bool → ContractCode → Text → Checked (Unit {0})
reject_if true c p = rejection c p
reject_if false c p = accepted tt

-- `"$"`, the path of the whole document
abbrev pub root : Text
root = b'$' ∷ []

-- A statement that went through: its test did not hold, and the rest accepts.
pub reject_if_passed {ℓ} :
    {V : Type ℓ} (b : Bool) (c : ContractCode) (p : Text) (next : Checked V) (v : V)
    → (reject_if b c p >> next) ≡ accepted v
    → (b ≡ false) × (next ≡ accepted v)
reject_if_passed b c p next v h = ground arith

pub bind_passed {κ ℓ} :
    {V : Type κ} {W : Type ℓ} (m : Checked V) (next : V → Checked W) (w : W)
    → (m >>= next) ≡ accepted w
    → (v : V) × (m ≡ accepted v) × (next v ≡ accepted w)
bind_passed (rejected e) next w h = cc
bind_passed (accepted v) next w h = (v, refl, h)

pub accepted-injective {ℓ} : {V : Type ℓ} {v w : V} → accepted v ≡ accepted w → v ≡ w
accepted-injective h = cc

pub then_accepted {ℓ} :
    {V : Type ℓ} (m : Checked (Unit {0})) (x v : V) → (m >> accepted x) ≡ accepted v → v ≡ x
then_accepted (rejected e) x v h = cc
then_accepted (accepted u) x v h = cc

-- It was no rejection.
unfoldable pub passes {ℓ} : {V : Type ℓ} → Checked V → Bool
passes (rejected _) = false
passes (accepted _) = true

pub passes_then : (m n : Checked (Unit {0})) → passes (m >> n) ≡ (passes m && passes n)
unfolding passes
passes_then (rejected e) n = refl
passes_then (accepted u) n = refl

pub passes_guard : (b : Bool) (c : ContractCode) (p : Text) → passes (reject_if b c p) ≡ not b
unfolding passes
passes_guard b c p = ground arith

-- Whatever is accepted has a property.
pub record Ensures {ℓ κ} {V : Type ℓ} (P : V → Type κ) (m : Checked V) : Type (ℓ ⊔ κ) where
  pub ensured : (v : V) → m ≡ accepted v → P v

module _ {ℓ κ} {V : Type ℓ} {P : V → Type κ} where
  pub Ensures-bind {ι} :
      {U : Type ι} (m : Checked U) {next : U → Checked V}
      → ((u : U) → m ≡ accepted u → Ensures P (next u))
      → Ensures P (m >>= next)
  Ensures-bind m {next} each = record {
    ensured = λ v h. let (u, here, rest) = bind_passed m next v h in (each u here).ensured v rest;
  }

  pub Ensures-accepted : {v : V} → P v → Ensures P (accepted v)
  Ensures-accepted p = record { ensured = λ w h. subst P (accepted-injective h) p }
