-- ===== src/Shared/Reread/Widths.antt =====
-- How long the canonical bytes of a document can be, shared/json_contract.py.
use headless_blender_charact.Prelude.{
  Bool, List, [], ap, arith, between, false, leb, leb→le, length, length-append, ltb, nat_eq, not,
  sort_by, string_eq, sym, true, ℕ, ◌&&◌, ◌*◌, ◌++◌, ◌+◌, ◌==◌, ◌^◌, ◌||◌, ◌∙◌, ◌∷◌, ◌≡◌, ◌≤◌,
}
use headless_blender_charact.Shared.Rejection.{
  ContractCode, Ensures, Ensures-accepted, Ensures-bind, Text, accepted, accepted-injective,
  bind_passed, passes, reject_if_passed, root,
}
use headless_blender_charact.Shared.Decimal.{
  Decimal, canonical_finite, canonical_integer, canonical_number, digits,
  max_number_significant_digits, validate_decimal_bounds,
}
use headless_blender_charact.Service.Contract.{Bytes, list_eq}
use headless_blender_charact.Shared.Json.{Fields, Items, Value, entries}
use headless_blender_charact.Shared.Json.Canonical.{
  canonical_fragment, canonical_json_bytes, comma_join, dumps_text, encode_utf8, escape_character,
  escape_text, item_fragments, join_members, join_object, key_leb, member_fragments, utf8_character,
}
use headless_blender_charact.Shared.Reread.Normal.{normal}
use headless_blender_charact.Shared.Reread.Numbers.{rereads}
use headless_blender_charact.Shared.Reread.Members.{ascending_keys, sorted_keys}
use headless_blender_charact.Shared.Reread.Openings.{readable, readable_fields, readable_items}
use headless_blender_charact.Shared.Decimal.Forms.{number_read}
use headless_blender_charact.Shared.Reread.Starts.{ascending_fragments}
use headless_blender_charact.Shared.Reread.Steps.{and_both}
use headless_blender_charact.Shared.Reread.Enough.{bracketed_length}
use headless_blender_charact.Shared.Json.Shrinking.{either, refuses}
use headless_blender_charact.Shared.Reread.Settled.{not_below}
use headless_blender_charact.Shared.Reread.Sizes.{length-signed}

-- No fragment is longer than this: a character is written with at most six, a number with at most 288.
unfoldable mutual
  pub width : Value → ℕ
  width (Value.text s) = 6 * length s + 2
  width (Value.array vs) = width_items vs + 2
  width (Value.object fs) = width_fields fs + 2
  width _ = 288

  pub width_items : Items → ℕ
  width_items Items.nil = 0
  width_items (Items.cons v vs) = width v + 1 + width_items vs

  pub width_fields : Fields → ℕ
  width_fields Fields.end = 0
  width_fields (Fields.field k v fs) = 6 * length k + width v + 4 + width_fields fs

escape_character_most : (c : ℕ) → length (escape_character c) ≤ 6
unfolding escape_character
escape_character_most c = ground arith

escape_text_most : (s : Text) → length (escape_text s) ≤ 6 * length s
unfolding escape_text
escape_text_most [] = omega arith
escape_text_most (c ∷ s) = omega (
  arith,
  escape_character_most c,
  escape_text_most s,
  length-append (escape_character c) (escape_text s),
)

dumps_text_most : (s : Text) → length (dumps_text s) ≤ 6 * length s + 2
unfolding dumps_text
dumps_text_most s = omega (arith, escape_text_most s, length-append (escape_text s) (b'"' ∷ []))

comma_join_most :
    (s : Text) (parts : List Text)
    → length (comma_join (s ∷ parts)) ≤ length s + 1 + length (comma_join parts)
unfolding comma_join
comma_join_most s [] = omega arith
comma_join_most s (t ∷ parts) = omega (arith, length-append s (b',' ∷ comma_join (t ∷ parts)))

utf8_character_most : (c : ℕ) → Ensures (λ b. length b ≤ 4) (utf8_character c)
unfolding utf8_character
utf8_character_most c = either (ltb c 128) (Ensures-accepted (omega arith)) (
    either (ltb c 2048) (Ensures-accepted (omega arith)) (
      either (between 55296 57343 c || ltb 1114111 c) (refuses _)
        (either (ltb c 65536) (Ensures-accepted (omega arith)) (Ensures-accepted (omega arith)))))

encode_utf8_most : (s : Text) → Ensures (λ b. length b ≤ 4 * length s) (encode_utf8 s)
unfolding encode_utf8
encode_utf8_most [] = Ensures-accepted (omega arith)
encode_utf8_most (c ∷ s) = Ensures-bind (utf8_character c) λ first h.
    Ensures-bind (encode_utf8 s) λ rest k. Ensures-accepted (
      omega (
        arith,
        length-append first rest,
        (utf8_character_most c).ensured first h,
        (encode_utf8_most s).ensured rest k,
      ))

canonical_number_most :
    (d : Decimal) (t : Text) → rereads d ≡ true → canonical_number d ≡ accepted t → length t ≤ 288
unfolding rereads
canonical_number_most d t r h =
    let (_, same) = number_read d t h in
    let (short, _) =
      and_both (leb (length (canonical_finite d)) 288)
        (passes (validate_decimal_bounds (normal d) root)) r in
    omega (arith, ap length same, leb→le (length (canonical_finite d)) 288 short)

canonical_integer_most :
    (b : Bool) (n : ℕ) (t : Text) → canonical_integer b n ≡ accepted t → length t ≤ 288
unfolding canonical_integer
canonical_integer_most b n t h =
    let (_, checked) = reject_if_passed (leb (2 ^ 851) n) ContractCode.numeric_limit root _ t h in
    let (few, last) =
      reject_if_passed (ltb max_number_significant_digits (length (digits n)))
        ContractCode.numeric_limit root _ t checked in
    omega (
      arith,
      ap length (accepted-injective last),
      length-signed (b && not (n == 0)) (digits n),
      not_below 256 (length (digits n)) few,
    )

-- the first of some parts, and the others
joined_width :
    (a b : ℕ) (s : Text) (others parts : List Text)
    → s ∷ others ≡ parts
    → length s ≤ a
    → length (comma_join others) ≤ b
    → length (comma_join parts) ≤ a + 1 + b
joined_width a b s others parts e h k =
    omega (arith, h, k, comma_join_most s others, ap (λ l. length (comma_join l)) e)

mutual
  unfolding canonical_fragment readable width join_object

  pub fragment_width :
      (v : Value) (t : Text)
      → readable v ≡ true
      → canonical_fragment v ≡ accepted t
      → length t ≤ width v
  fragment_width Value.null t r h = omega (arith, ap length (accepted-injective h))
  fragment_width (Value.boolean true) t r h = omega (arith, ap length (accepted-injective h))
  fragment_width (Value.boolean false) t r h = omega (arith, ap length (accepted-injective h))
  fragment_width (Value.text s) t r h =
      omega (arith, dumps_text_most s, ap length (accepted-injective h))
  fragment_width (Value.number d) t r h = canonical_number_most d t r h
  fragment_width (Value.integer b n) t r h = canonical_integer_most b n t h
  fragment_width (Value.array vs) t r h =
      let (parts, made, last) = bind_passed (item_fragments vs) _ t h in
      omega (
        arith,
        items_width vs parts r made,
        bracketed_length b'[' b']' (comma_join parts) t (accepted-injective last),
      )
  fragment_width (Value.object fs) t r h =
      let (ordered, inner) = and_both (ascending_keys (entries fs)) (readable_fields fs) r in
      let sorted = sorted_keys (member_fragments fs) (ascending_fragments fs ∙ ordered) in
      let (parts, made, last) =
        bind_passed (join_members (sort_by key_leb (member_fragments fs))) _ t h in
      omega (
        arith,
        fields_width fs parts inner (ap join_members (sym sorted) ∙ made),
        bracketed_length b'{' b'}' (comma_join parts) t (accepted-injective last),
      )

  items_width :
      (vs : Items) (parts : List Text)
      → readable_items vs ≡ true
      → item_fragments vs ≡ accepted parts
      → length (comma_join parts) ≤ width_items vs
  items_width Items.nil parts r h =
      omega (arith, ap (λ l. length (comma_join l)) (accepted-injective h))
  items_width (Items.cons v vs) parts r h =
      let (s, hs, h1) = bind_passed (canonical_fragment v) _ parts h in
      let (others, ho, h2) = bind_passed (item_fragments vs) _ parts h1 in
      let (first, later) = and_both (readable v) (readable_items vs) r in
      joined_width (width v) (width_items vs) s others parts (accepted-injective h2)
        (fragment_width v s first hs) (items_width vs others later ho)

  fields_width :
      (fs : Fields) (parts : List Text)
      → readable_fields fs ≡ true
      → join_members (member_fragments fs) ≡ accepted parts
      → length (comma_join parts) ≤ width_fields fs
  fields_width Fields.end parts r h =
      omega (arith, ap (λ l. length (comma_join l)) (accepted-injective h))
  fields_width (Fields.field k v fs) parts r h =
      let (s, hs, h1) = bind_passed (canonical_fragment v) _ parts h in
      let (others, ho, h2) = bind_passed (join_members (member_fragments fs)) _ parts h1 in
      let (first, later) = and_both (readable v) (readable_fields fs) r in
      let whole =
        joined_width (6 * length k + width v + 3) (width_fields fs) (dumps_text k ++ b':' ∷ s)
          others parts (accepted-injective h2)
          (omega (
            arith,
            fragment_width v s first hs,
            dumps_text_most k,
            length-append (dumps_text k) (b':' ∷ s),
          ))
          (fields_width fs others later ho) in
      omega (arith, whole)

-- Four bytes for each character, at most.
pub canonical_json_bytes-width :
    (v : Value) (bytes : Bytes)
    → readable v ≡ true
    → canonical_json_bytes v ≡ accepted bytes
    → length bytes ≤ 4 * width v
unfolding canonical_json_bytes
canonical_json_bytes-width v bytes r h =
    let (t, made, encoded) = bind_passed (canonical_fragment v) encode_utf8 bytes h in
    omega (arith, fragment_width v t r made, (encode_utf8_most t).ensured bytes encoded)
