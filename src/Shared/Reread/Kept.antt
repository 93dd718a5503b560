-- ===== src/Shared/Reread/Kept.antt =====
-- The normal form of a document has the same canonical text and the same height,
-- shared/json_contract.py.
use headless_blender_charact.Prelude.{
  Bool, List, ap, ap₂, leb, length, max, refl, sort_by, suc, sym, true, ℕ, ◌∙◌, ◌≡◌,
}
use headless_blender_charact.Shared.Rejection.{Text, accepted, bind_passed, passes, root}
use headless_blender_charact.Shared.Decimal.{
  Decimal, bounded_decimal, canonical_finite, canonical_number, validate_decimal_bounds, ℤ,
}
use headless_blender_charact.Shared.Json.{Fields, Items, Value, entries}
use headless_blender_charact.Shared.Json.Canonical.{
  canonical_fragment, item_fragments, join_members, join_object, key_leb, member_fragments,
}
use headless_blender_charact.Shared.Reread.Normal.{normal, normal_text}
use headless_blender_charact.Shared.Reread.Numbers.{rereads}
use headless_blender_charact.Shared.Reread.Members.{ascending_keys, sorted_keys}
use headless_blender_charact.Shared.Reread.Openings.{
  decimal_of_integer, normal_fields, normal_items, normal_value, readable, readable_fields,
  readable_items,
}
use headless_blender_charact.Shared.Reread.Starts.{
  ascending_fragments, ascending_normal, integer_text, number_text,
}
use headless_blender_charact.Shared.Reread.Steps.{and_both}
use headless_blender_charact.Shared.Readers.Accepted.{passes_unit}
use headless_blender_charact.Shared.Json.Nesting.{height, height_fields, height_items}

canonical_normal :
    (d : Decimal) (t : Text)
    → rereads d ≡ true
    → t ≡ canonical_finite d
    → (b : Bool) × (c : ℕ) × (e : ℤ) × (d ≡ Decimal.finite b c e)
    → canonical_number (normal d) ≡ accepted t
unfolding rereads canonical_number bounded_decimal
canonical_normal d t r shape (b, c, e, same) =
    let admitted : passes (validate_decimal_bounds (normal d) root) ≡ true =
      (and_both (leb (length (canonical_finite d)) 288) _ r).1 in
    rw (passes_unit (validate_decimal_bounds (normal d) root) admitted) (
      ap accepted (
        ap (λ x. canonical_finite (normal x)) same
        ∙ normal_text b c e
        ∙ ap canonical_finite (sym same)
        ∙ sym shape))

object_kept :
    (fs : Fields) (t : Text)
    → ascending_keys (entries fs) ≡ true
    → canonical_fragment (Value.object fs) ≡ accepted t
    → ((parts : List Text)
        → join_members (member_fragments fs) ≡ accepted parts
        → join_members (member_fragments (normal_fields fs)) ≡ accepted parts)
    → canonical_fragment (Value.object (normal_fields fs)) ≡ accepted t
unfolding canonical_fragment join_object
object_kept fs t ordered h kept =
    let same = sorted_keys (member_fragments fs) (ascending_fragments fs ∙ ordered) in
    let (parts, made, last) =
      bind_passed (join_members (sort_by key_leb (member_fragments fs))) _ t h in
    let again =
      sorted_keys (member_fragments (normal_fields fs))
        (ascending_fragments (normal_fields fs) ∙ ascending_normal fs ∙ ordered) in
    rw again (rw (kept parts (ap join_members (sym same) ∙ made)) last)

mutual
  unfolding canonical_fragment readable normal_value

  pub fragment_kept :
      (v : Value) (t : Text)
      → readable v ≡ true
      → canonical_fragment v ≡ accepted t
      → canonical_fragment (normal_value v) ≡ accepted t
  fragment_kept Value.null t r h = h
  fragment_kept (Value.boolean b) t r h = h
  fragment_kept (Value.text s) t r h = h
  fragment_kept (Value.number d) t r h =
      let (b, c, e, same, shape) = number_text d t h in canonical_normal d t r shape (b, c, e, same)
  fragment_kept (Value.integer b n) t r h =
      canonical_normal (decimal_of_integer b n) t r (integer_text b n t h) (b, n, ℤ.pos 0, refl)
  fragment_kept (Value.array vs) t r h =
      let (parts, made, last) = bind_passed (item_fragments vs) _ t h in
      rw (items_kept vs parts r made) last
  fragment_kept (Value.object fs) t r h =
      let (ordered, inner) = and_both (ascending_keys (entries fs)) (readable_fields fs) r in
      object_kept fs t ordered h (λ parts made. members_kept fs parts inner made)

  items_kept :
      (vs : Items) (parts : List Text)
      → readable_items vs ≡ true
      → item_fragments vs ≡ accepted parts
      → item_fragments (normal_items vs) ≡ accepted parts
  items_kept Items.nil parts r h = h
  items_kept (Items.cons v vs) parts r h =
      let (s, hs, h1) = bind_passed (canonical_fragment v) _ parts h in
      let (others, ho, h2) = bind_passed (item_fragments vs) _ parts h1 in
      let (first, later) = and_both (readable v) (readable_items vs) r in
      rw (fragment_kept v s first hs) (rw (items_kept vs others later ho) h2)

  members_kept :
      (fs : Fields) (parts : List Text)
      → readable_fields fs ≡ true
      → join_members (member_fragments fs) ≡ accepted parts
      → join_members (member_fragments (normal_fields fs)) ≡ accepted parts
  members_kept Fields.end parts r h = h
  members_kept (Fields.field k v fs) parts r h =
      let (s, hs, h1) = bind_passed (canonical_fragment v) _ parts h in
      let (others, ho, h2) = bind_passed (join_members (member_fragments fs)) _ parts h1 in
      let (first, later) = and_both (readable v) (readable_fields fs) r in
      rw (fragment_kept v s first hs) (rw (members_kept fs others later ho) h2)

mutual
  unfolding height normal_value

  pub height_kept : (v : Value) → height (normal_value v) ≡ height v
  height_kept Value.null = refl
  height_kept (Value.boolean b) = refl
  height_kept (Value.text s) = refl
  height_kept (Value.number d) = refl
  height_kept (Value.integer b n) = refl
  height_kept (Value.array vs) = items_height_kept vs
  height_kept (Value.object fs) = fields_height_kept fs

  items_height_kept : (vs : Items) → height_items (normal_items vs) ≡ height_items vs
  items_height_kept Items.nil = refl
  items_height_kept (Items.cons v vs) =
      ap₂ (λ a b. max (suc a) b) (height_kept v) (items_height_kept vs)

  fields_height_kept : (fs : Fields) → height_fields (normal_fields fs) ≡ height_fields fs
  fields_height_kept Fields.end = refl
  fields_height_kept (Fields.field k v fs) =
      ap₂ (λ a b. max (suc a) b) (height_kept v) (fields_height_kept fs)
