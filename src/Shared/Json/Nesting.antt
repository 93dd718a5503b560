-- ===== src/Shared/Json/Nesting.antt =====
-- The depth that `_check_nesting` of shared/json_contract.py admits.
use headless_blender_charact.Prelude.{
  arith, leb, ltb, max, nat_eq, refl, string_eq, suc, true, ℕ, ◌+◌, ◌==◌, ◌||◌, ◌↔◌, ◌∙◌, ◌≡◌, ◌≤◌,
}
use headless_blender_charact.Shared.Rejection.{
  Checked, ContractCode, passes, passes_guard, passes_then, reject_if, root, ◌>>◌,
}
use headless_blender_charact.Service.Contract.{list_eq}
use headless_blender_charact.Shared.Json.{
  Fields, Items, Value, check_fields, check_items, check_nesting, max_json_nesting,
}

-- How far below a value its deepest part lies.
unfoldable mutual
  pub height : Value → ℕ
  height (Value.array vs) = height_items vs
  height (Value.object fs) = height_fields fs
  height _ = 0

  pub height_items : Items → ℕ
  height_items Items.nil = 0
  height_items (Items.cons v vs) = max (suc (height v)) (height_items vs)

  pub height_fields : Fields → ℕ
  height_fields Fields.end = 0
  height_fields (Fields.field k v fs) = max (suc (height v)) (height_fields fs)

scalar_exact :
    (d : ℕ)
    → passes (reject_if (ltb max_json_nesting d) ContractCode.excessive_nesting root)
      ≡ leb (d + 0) 32
scalar_exact d =
    passes_guard (ltb max_json_nesting d) ContractCode.excessive_nesting root ∙ ground arith

level_exact :
    (d h : ℕ) (m : Checked (Unit {0}))
    → passes m ≡ ((h == 0) || leb (d + h) 32)
    → passes (reject_if (ltb max_json_nesting d) ContractCode.excessive_nesting root >> m)
      ≡ leb (d + h) 32
level_exact d h m below =
    passes_then (reject_if (ltb max_json_nesting d) ContractCode.excessive_nesting root) m
    ∙ ground
        (arith, below, passes_guard (ltb max_json_nesting d) ContractCode.excessive_nesting root)

each_exact :
    (d h k : ℕ) (m n : Checked (Unit {0}))
    → passes m ≡ leb (d + 1 + h) 32
    → passes n ≡ ((k == 0) || leb (d + k) 32)
    → passes (m >> n) ≡ ((max (suc h) k == 0) || leb (d + max (suc h) k) 32)
each_exact d h k m n first rest = passes_then m n ∙ ground (arith, first, rest)

mutual
  unfolding check_nesting height passes

  nesting_exact : (v : Value) (d : ℕ) → passes (check_nesting d v) ≡ leb (d + height v) 32
  nesting_exact (Value.array vs) d =
      level_exact d (height_items vs) (check_items (d + 1) vs) (items_exact vs d)
  nesting_exact (Value.object fs) d =
      level_exact d (height_fields fs) (check_fields (d + 1) fs) (fields_exact fs d)
  nesting_exact Value.null d = scalar_exact d
  nesting_exact (Value.boolean b) d = scalar_exact d
  nesting_exact (Value.text s) d = scalar_exact d
  nesting_exact (Value.number x) d = scalar_exact d
  nesting_exact (Value.integer b n) d = scalar_exact d

  -- with no element nothing is checked
  items_exact :
      (vs : Items) (d : ℕ)
      → passes (check_items (d + 1) vs) ≡ ((height_items vs == 0) || leb (d + height_items vs) 32)
  items_exact Items.nil d = refl
  items_exact (Items.cons v vs) d =
      each_exact d (height v) (height_items vs) (check_nesting (d + 1) v) (check_items (d + 1) vs)
        (nesting_exact v (d + 1)) (items_exact vs d)

  fields_exact :
      (fs : Fields) (d : ℕ)
      → passes (check_fields (d + 1) fs)
        ≡ ((height_fields fs == 0) || leb (d + height_fields fs) 32)
  fields_exact Fields.end d = refl
  fields_exact (Fields.field k v fs) d =
      each_exact d (height v) (height_fields fs) (check_nesting (d + 1) v) (check_fields (d + 1) fs)
        (nesting_exact v (d + 1)) (fields_exact fs d)

-- `_check_nesting` passes a document if and only if no part of it lies more than 32 levels below the
-- whole; otherwise it is rejected.
pub check_nesting-height : (v : Value) → (passes (check_nesting 0 v) ≡ true) ↔ (height v ≤ 32)
check_nesting-height v =
    let exact = nesting_exact v 0 in
    (λ p. ground (arith, exact, p), λ small. exact ∙ ground (arith, small))
