-- ===== src/Shared/Json.antt =====
-- shared/json_contract.py: JSON values as Python holds them, the checks on objects, and nesting.
pub mod Nesting
pub mod Canonical
pub mod Numbers
pub mod Strings
pub mod Decode
pub mod Shrinking
pub mod Behind
pub mod Branches
pub mod Fuel
use headless_blender_charact.Prelude.{
  Bool, List, [], any, false, ltb, nat_eq, not, string_eq, ℕ, ◌+◌, ◌==◌, ◌||◌, ◌∷◌,
}
use headless_blender_charact.Shared.Rejection.{
  Checked, ContractCode, Text, accepted, reject_if, rejection, root, ◌>>◌,
}
use headless_blender_charact.Shared.Decimal.{Decimal}
use headless_blender_charact.Service.Contract.{list_eq}
use headless_blender_charact.Service.Dict.{Dict, insert, member}

-- A `float` is not modelled: decoding makes a `Decimal` of every number. An `integer` is its sign and
-- its size. An object keeps its pairs in order.
mutual
  pub data Value : Type 0 where
    null : Value
    boolean : Bool → Value
    text : Text → Value
    number : Decimal → Value
    integer : Bool → ℕ → Value
    array : Items → Value
    object : Fields → Value

  pub data Items : Type 0 where
    nil : Items
    cons : Value → Items → Items

  pub data Fields : Type 0 where
    end : Fields
    field : Text → Value → Fields → Fields

-- An object as the `dict` it is, and back.
unfoldable pub entries : Fields → Dict Text Value
entries Fields.end = []
entries (Fields.field k v fs) = (k, v) ∷ entries fs

unfoldable pub fields : Dict Text Value → Fields
fields [] = Fields.end
fields ((k, v) ∷ d) = Fields.field k v (fields d)

-- An array as the `list` it is, and back.
unfoldable pub elements : Items → List Value
elements Items.nil = []
elements (Items.cons v vs) = v ∷ elements vs

unfoldable pub items : List Value → Items
items [] = Items.nil
items (v ∷ vs) = Items.cons v (items vs)

unfoldable pub duplicates_from : Dict Text Value → Dict Text Value → Checked (Dict Text Value)
duplicates_from result [] = accepted result
duplicates_from result ((k, v) ∷ pairs) =
    reject_if (member k result) ContractCode.duplicate_key root
    >> duplicates_from (insert k v result) pairs

-- `_object_without_duplicates`
unfoldable pub object_without_duplicates : Dict Text Value → Checked (Dict Text Value)
unfolding duplicates_from
object_without_duplicates = duplicates_from []

abbrev pub max_json_nesting : ℕ
max_json_nesting = 32

-- `_check_nesting`
unfoldable mutual
  pub check_nesting : ℕ → Value → Checked (Unit {0})
  check_nesting depth (Value.array vs) =
      reject_if (ltb max_json_nesting depth) ContractCode.excessive_nesting root
      >> check_items (depth + 1) vs
  check_nesting depth (Value.object fs) =
      reject_if (ltb max_json_nesting depth) ContractCode.excessive_nesting root
      >> check_fields (depth + 1) fs
  check_nesting depth _ = reject_if (ltb max_json_nesting depth) ContractCode.excessive_nesting root

  pub check_items : ℕ → Items → Checked (Unit {0})
  check_items depth Items.nil = accepted tt
  check_items depth (Items.cons v vs) = check_nesting depth v >> check_items depth vs

  pub check_fields : ℕ → Fields → Checked (Unit {0})
  check_fields depth Fields.end = accepted tt
  check_fields depth (Fields.field k v fs) = check_nesting depth v >> check_fields depth fs

unfoldable pub require_object : Value → Text → Checked (Dict Text Value)
unfolding entries
require_object (Value.object fs) path = accepted (entries fs)
require_object _ path = rejection ContractCode.expected_object path

-- `key in allowed_set`
unfoldable pub among : Text → List Text → Bool
among k [] = false
among k (a ∷ allowed) = (k == a) || among k allowed

unfoldable pub keys_of : Dict Text Value → List Text
keys_of [] = []
keys_of ((k, _) ∷ d) = k ∷ keys_of d

unfoldable pub reject_extra_fields : Dict Text Value → List Text → Text → Checked (Unit {0})
unfolding keys_of among
reject_extra_fields value allowed path =
    reject_if (any (λ k. not (among k allowed)) (keys_of value)) ContractCode.extra_property path

unfoldable pub require_fields : Dict Text Value → List Text → Text → Checked (Unit {0})
require_fields value required path =
    reject_if (any (λ k. not (member k value)) required) ContractCode.missing_property path
