-- ===== src/Shared/Reread/Openings.antt =====
-- Which documents are read back, shared/json_contract.py, and how the reader takes their first steps.
use headless_blender_charact.Prelude.{
  Bool, [], ap, append_assoc, arith, false, inl, inr, length, length-append, nat_eq, refl,
  string_eq, suc, true, ℕ, ◌&&◌, ◌++◌, ◌==◌, ◌||◌, ◌∷◌, ◌≡◌, ◌≤◌, ◌⊎◌,
}
use headless_blender_charact.Shared.Rejection.{Text, accepted, ◌>>=◌}
use headless_blender_charact.Shared.Decimal.{Decimal, ℤ}
use headless_blender_charact.Service.Contract.{list_eq}
use headless_blender_charact.Shared.Decimal.Digits.{is_figure}
use headless_blender_charact.Shared.Json.{
  Fields, Items, Value, entries, fields, object_without_duplicates,
}
use headless_blender_charact.Shared.Json.Canonical.{dumps_text, escape_character, escape_text}
use headless_blender_charact.Shared.Json.Strings.{scan_string}
use headless_blender_charact.Shared.Json.Decode.{
  Opening, is_space, opening, scan_colon, scan_items, scan_members, scan_scalar, scan_value,
  skip_space,
}
use headless_blender_charact.Shared.Reread.Normal.{normal}
use headless_blender_charact.Shared.Reread.Numbers.{rereads}
use headless_blender_charact.Shared.Reread.Members.{ascending_keys}
use headless_blender_charact.Shared.Reread.Strings.{scan_string-escape_text}
use headless_blender_charact.Shared.Json.Behind.{after_member}

-- An integer is written as a decimal without exponent.
abbrev pub decimal_of_integer : Bool → ℕ → Decimal
decimal_of_integer b n = Decimal.finite b n (ℤ.pos 0)

-- Numbers that may be read back, and objects with their keys in order.
unfoldable mutual
  unfolding rereads ascending_keys entries

  pub readable : Value → Bool
  readable (Value.number d) = rereads d
  readable (Value.integer b n) = rereads (decimal_of_integer b n)
  readable (Value.array vs) = readable_items vs
  readable (Value.object fs) = ascending_keys (entries fs) && readable_fields fs
  readable _ = true

  pub readable_items : Items → Bool
  readable_items Items.nil = true
  readable_items (Items.cons v vs) = readable v && readable_items vs

  pub readable_fields : Fields → Bool
  readable_fields Fields.end = true
  readable_fields (Fields.field k v fs) = readable v && readable_fields fs

-- A document as it is read back: its numbers in normal form.
unfoldable mutual
  unfolding normal

  pub normal_value : Value → Value
  normal_value (Value.number d) = Value.number (normal d)
  normal_value (Value.integer b n) = Value.number (normal (decimal_of_integer b n))
  normal_value (Value.array vs) = Value.array (normal_items vs)
  normal_value (Value.object fs) = Value.object (normal_fields fs)
  normal_value v = v

  pub normal_items : Items → Items
  normal_items Items.nil = Items.nil
  normal_items (Items.cons v vs) = Items.cons (normal_value v) (normal_items vs)

  pub normal_fields : Fields → Fields
  normal_fields Fields.end = Fields.end
  normal_fields (Fields.field k v fs) = Fields.field k (normal_value v) (normal_fields fs)

-- The first characters of values.
unfoldable pub starts_value : ℕ → Bool
starts_value c =
    c == b'"'
    || c == b'{'
    || c == b'['
    || c == b'n'
    || c == b't'
    || c == b'f'
    || c == b'-'
    || is_figure c

pub skip_start : (c : ℕ) (s : Text) → starts_value c ≡ true → skip_space (c ∷ s) ≡ c ∷ s
unfolding skip_space starts_value
skip_start c s h = let no_space : is_space c ≡ false = ground arith in rw no_space refl

start_no_space : (c : ℕ) → starts_value c ≡ true → is_space c ≡ false
unfolding starts_value
start_no_space c h = ground arith

other_start :
    (c : ℕ) (s : Text)
    → starts_value c ≡ true
    → (c == b'"' || c == b'{' || c == b'[') ≡ false
    → opening (c ∷ s) ≡ Opening.other_opening
unfolding opening starts_value
other_start c s h k = ground arith

opening_start :
    (c : ℕ) (s : Text)
    → starts_value c ≡ true
    → (opening (c ∷ s) ≡ Opening.quote)
      ⊎ (opening (c ∷ s) ≡ Opening.brace)
      ⊎ (opening (c ∷ s) ≡ Opening.bracket)
      ⊎ (opening (c ∷ s) ≡ Opening.other_opening)
unfolding opening starts_value
opening_start c s h = ground arith

pub array_step :
    (fuel c : ℕ) (s : Text)
    → starts_value c ≡ true
    → scan_value (suc fuel) (b'[' ∷ c ∷ s)
      ≡ (scan_items fuel (c ∷ s) >>= λ r. accepted (Value.array r.0, r.1))
unfolding scan_value
array_step fuel c s h =
    let rest =
      ap (λ x. scan_items fuel x >>= λ r. accepted (Value.array r.0, r.1)) (skip_start c s h) in
    rw (start_no_space c h, scan_value)
      (elim (opening_start c s h) [
        | inl q ↦ rw q rest
        | inr (inl b) ↦ rw b rest
        | inr (inr (inl b)) ↦ rw b rest
        | inr (inr (inr o)) ↦ rw o rest
      ])

pub scalar_step :
    (fuel c : ℕ) (s : Text)
    → starts_value c ≡ true
    → (c == b'"' || c == b'{' || c == b'[') ≡ false
    → scan_value (suc fuel) (c ∷ s) ≡ scan_scalar (c ∷ s)
unfolding scan_value scan_scalar
scalar_step fuel c s h k = rw (other_start c s h k, scan_value) refl

pub text_step :
    (fuel : ℕ) (s : Text)
    → scan_value (suc fuel) (b'"' ∷ s)
      ≡ (scan_string (suc (length s)) s >>= λ r. accepted (Value.text r.0, r.1))
unfolding scan_value
text_step fuel s = refl

pub empty_array_step :
    (fuel : ℕ) (s : Text)
    → scan_value (suc fuel) (b'[' ∷ b']' ∷ s) ≡ accepted (Value.array Items.nil, s)
unfolding scan_value
empty_array_step fuel s = refl

pub empty_object_step :
    (fuel : ℕ) (s : Text)
    → scan_value (suc fuel) (b'{' ∷ b'}' ∷ s) ≡ accepted (Value.object Fields.end, s)
unfolding scan_value
empty_object_step fuel s = refl

pub object_step :
    (fuel : ℕ) (s : Text)
    → scan_value (suc fuel) (b'{' ∷ b'"' ∷ s) ≡ (
        scan_members fuel (b'"' ∷ s) >>= λ r.
        object_without_duplicates r.0 >>= λ d. accepted (Value.object (fields d), r.1))
unfolding scan_value
object_step fuel s = refl

pub items_last :
    (fuel : ℕ) (s r : Text) (v : Value)
    → scan_value fuel s ≡ accepted (v, b']' ∷ r)
    → scan_items (suc fuel) s ≡ accepted (Items.cons v Items.nil, r)
unfolding scan_value
items_last fuel s r v h = rw h refl

pub items_more :
    (fuel c : ℕ) (s r : Text) (v : Value)
    → starts_value c ≡ true
    → scan_value fuel s ≡ accepted (v, b',' ∷ c ∷ r)
    → scan_items (suc fuel) s
      ≡ (scan_items fuel (c ∷ r) >>= λ others. accepted (Items.cons v others.0, others.1))
unfolding scan_value
items_more fuel c s r v h k = rw k (rw (start_no_space c h) refl)

length-escape_character : (c : ℕ) → 1 ≤ length (escape_character c)
unfolding escape_character
length-escape_character c = ground arith

length-escape_text : (s : Text) → length s ≤ length (escape_text s)
unfolding escape_text
length-escape_text [] = omega arith
length-escape_text (c ∷ s) = omega (
  arith,
  length-append (escape_character c) (escape_text s),
  length-escape_character c,
  length-escape_text s,
)

-- The string behind an opening quote, with the fuel the reader takes.
pub string_read :
    (s rest : Text)
    → scan_string (suc (length (escape_text s ++ b'"' ∷ rest))) (escape_text s ++ b'"' ∷ rest)
      ≡ accepted (s, rest)
string_read s rest =
    scan_string-escape_text s rest _
      (omega (arith, length-append (escape_text s) (b'"' ∷ rest), length-escape_text s))

pub key_shape : (k s : Text) → dumps_text k ++ s ≡ b'"' ∷ (escape_text k ++ b'"' ∷ s)
unfolding dumps_text
key_shape k s = ap (◌∷◌ b'"') (append_assoc (escape_text k) (b'"' ∷ []) s)

-- A member: its key, a colon, and a value.
pub member_step :
    (fuel c : ℕ) (k s : Text)
    → starts_value c ≡ true
    → scan_members (suc fuel) (b'"' ∷ (escape_text k ++ b'"' ∷ b':' ∷ c ∷ s))
      ≡ (scan_value fuel (c ∷ s) >>= λ first. after_member fuel k first)
unfolding scan_value scan_colon after_member
member_step fuel c k s h =
    rw (string_read k (b':' ∷ c ∷ s), scan_members) (rw (start_no_space c h, scan_colon) refl)
