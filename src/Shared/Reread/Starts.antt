-- ===== src/Shared/Reread/Starts.antt =====
-- How the canonical texts of values begin, shared/json_contract.py, and that neither printing nor
-- reading changes the keys of an object.
use headless_blender_charact.Prelude.{
  Bool, Bool-cases, [], all, ap, ap₂, arith, false, inl, inr, leb, length, ltb, nat_eq, nat_eqb,
  nat_eqb_iff, not, refl, sort_by, string_eq, sym, true, ℕ, ◌&&◌, ◌++◌, ◌==◌, ◌^◌, ◌||◌, ◌∙◌, ◌∷◌,
  ◌≡◌,
}
use headless_blender_charact.Shared.Rejection.{
  ContractCode, Text, accepted, accepted-injective, bind_passed, reject_if_passed, root,
}
use headless_blender_charact.Shared.Decimal.{
  Decimal, canonical_finite, canonical_integer, canonical_number, digits, digits_within,
  max_number_significant_digits, signed, ℤ,
}
use headless_blender_charact.Service.Patterns.{codes}
use headless_blender_charact.Service.Contract.{list_eq}
use headless_blender_charact.Shared.Json.{Fields, Value, entries, fields}
use headless_blender_charact.Shared.Json.Canonical.{
  canonical_fragment, comma_join, dumps_text, escape_text, item_fragments, join_members,
  join_object, key_leb, member_fragments, text_leb,
}
use headless_blender_charact.Shared.Reread.Numbers.{canonical_first}
use headless_blender_charact.Shared.Reread.Members.{ascending_keys}
use headless_blender_charact.Shared.Reread.Openings.{
  decimal_of_integer, normal_fields, normal_value, starts_value,
}
use headless_blender_charact.Shared.Decimal.Forms.{number_read}
use headless_blender_charact.Shared.Decimal.Digits.{is_figure}
use headless_blender_charact.Shared.Reread.Shapes.{whole_text}

and_true : (b : Bool) → (b && not false) ≡ b
and_true true = refl
and_true false = refl

zero_written :
    (b : Bool)
    → signed (b && not (nat_eqb 0 0)) (digits 0) ≡ canonical_finite (decimal_of_integer b 0)
unfolding digits digits_within canonical_finite
zero_written true = refl
zero_written false = refl

pub integer_text :
    (b : Bool) (n : ℕ) (t : Text)
    → canonical_integer b n ≡ accepted t
    → t ≡ canonical_finite (decimal_of_integer b n)
unfolding canonical_integer
integer_text b n t h =
    let (_, h1) = reject_if_passed (leb (2 ^ 851) n) ContractCode.numeric_limit root _ t h in
    let (_, h2) =
      reject_if_passed (ltb max_number_significant_digits (length (digits n)))
        ContractCode.numeric_limit root _ t h1 in
    sym (accepted-injective h2) ∙ written b n
  where
    written :
        (b : Bool) (n : ℕ)
        → signed (b && not (n == 0)) (digits n) ≡ canonical_finite (decimal_of_integer b n)
    written b n = elim (Bool-cases (n == 0)) [
      | inl none_there ↦ rw ((nat_eqb_iff n 0).0 none_there) (zero_written b)
      | inr some_there ↦
          rw some_there
            (ap (λ x. signed x (digits n)) (and_true b) ∙ sym (whole_text b n (ground arith)))
    ]

pub number_text :
    (d : Decimal) (t : Text)
    → canonical_number d ≡ accepted t
    → (b : Bool) × (c : ℕ) × (e : ℤ) × (d ≡ Decimal.finite b c e) × (t ≡ canonical_finite d)
number_text Decimal.special t h = absurd ((number_read Decimal.special t h).0 refl)
number_text (Decimal.finite b c e) t h = (b, c, e, refl, (number_read (Decimal.finite b c e) t h).1)

pub number_starts :
    (x : ℕ)
    → (x == b'-' || is_figure x) ≡ true
    → (starts_value x ≡ true) × ((x == b'"' || x == b'{' || x == b'[') ≡ false)
unfolding starts_value
number_starts x h = (ground arith, ground arith)

-- How the text of a value start_shape.
pub value_starts :
    (v : Value) (t : Text)
    → canonical_fragment v ≡ accepted t
    → (c : ℕ) × (s : Text) × (t ≡ c ∷ s) × (starts_value c ≡ true)
unfolding canonical_fragment starts_value dumps_text join_object
value_starts Value.null t h = (b'n', codes "ull", sym (accepted-injective h), refl)
value_starts (Value.boolean true) t h = (b't', codes "rue", sym (accepted-injective h), refl)
value_starts (Value.boolean false) t h = (b'f', codes "alse", sym (accepted-injective h), refl)
value_starts (Value.text s) t h =
    (b'"', escape_text s ++ b'"' ∷ [], sym (accepted-injective h), refl)
value_starts (Value.number d) t h =
    let (b, c, e, same, shape) = number_text d t h in
    let (x, s, start_shape, known) = canonical_first b c e in
    (x, s, shape ∙ ap canonical_finite same ∙ start_shape, (number_starts x known).0)
value_starts (Value.integer b n) t h =
    let (x, s, start_shape, known) = canonical_first b n (ℤ.pos 0) in
    (x, s, integer_text b n t h ∙ start_shape, (number_starts x known).0)
value_starts (Value.array vs) t h =
    let (parts, _, made) = bind_passed (item_fragments vs) _ t h in
    (b'[', comma_join parts ++ b']' ∷ [], sym (accepted-injective made), refl)
value_starts (Value.object fs) t h =
    let (parts, _, made) =
      bind_passed (join_members (sort_by key_leb (member_fragments fs))) _ t h in
    (b'{', comma_join parts ++ b'}' ∷ [], sym (accepted-injective made), refl)

-- Keys do not change with what stands behind them.
keys_normal :
    (p : Text → Bool) (fs : Fields)
    → all (λ j. p j.0) (entries (normal_fields fs)) ≡ all (λ j. p j.0) (entries fs)
unfolding entries normal_value
keys_normal p Fields.end = refl
keys_normal p (Fields.field k v fs) = ap (λ b. p k && b) (keys_normal p fs)

keys_fragments :
    (p : Text → Bool) (fs : Fields)
    → all (λ j. p j.0) (member_fragments fs) ≡ all (λ j. p j.0) (entries fs)
unfolding entries canonical_fragment
keys_fragments p Fields.end = refl
keys_fragments p (Fields.field k v fs) = ap (λ b. p k && b) (keys_fragments p fs)

pub ascending_normal :
    (fs : Fields) → ascending_keys (entries (normal_fields fs)) ≡ ascending_keys (entries fs)
unfolding entries normal_value ascending_keys
ascending_normal Fields.end = refl
ascending_normal (Fields.field k v fs) =
    ap₂ ◌&&◌ (keys_normal (λ j. text_leb k j && not (j == k)) fs) (ascending_normal fs)

pub ascending_fragments :
    (fs : Fields) → ascending_keys (member_fragments fs) ≡ ascending_keys (entries fs)
unfolding entries canonical_fragment ascending_keys
ascending_fragments Fields.end = refl
ascending_fragments (Fields.field k v fs) =
    ap₂ ◌&&◌ (keys_fragments (λ j. text_leb k j && not (j == k)) fs) (ascending_fragments fs)

pub fields-entries : (fs : Fields) → fields (entries fs) ≡ fs
unfolding fields entries
fields-entries Fields.end = refl
fields-entries (Fields.field k v fs) = ap (Fields.field k v) (fields-entries fs)
