-- ===== src/Shared/Json/Decode.antt =====
-- shared/json_contract.py: `decode_json_document`, with the part of Python's json.loads that it uses.
use headless_blender_charact.Prelude.{
  Bool, Option, [], drop, false, if◌then◌else◌, length, ltb, nat_eq, none, not, some, string_eq,
  suc, true, zero, ℕ, ◌*◌, ◌+◌, ◌==◌, ◌||◌, ◌∷◌,
}
use headless_blender_charact.Shared.Rejection.{
  Checked, ContractCode, Text, accepted, is_blank, reject_if, rejection, root, ◌>>=◌, ◌>>◌,
}
use headless_blender_charact.Service.Patterns.{codes}
use headless_blender_charact.Service.Contract.{Bytes, list_eq}
use headless_blender_charact.Service.Dict.{Dict}
use headless_blender_charact.Shared.Json.{
  Fields, Items, Value, check_nesting, fields, object_without_duplicates,
}
use headless_blender_charact.Shared.Json.Numbers.{invalid, scan_number}
use headless_blender_charact.Shared.Json.Strings.{decode_utf8, scan_string}

abbrev pub is_space : ℕ → Bool
is_space c = c == b' ' || c == 9 || c == 10 || c == 13

unfoldable pub skip_space : Text → Text
skip_space [] = []
skip_space (c ∷ s) = let rest = skip_space s in if is_space c then rest else c ∷ s

-- What is behind a prefix.
unfoldable pub behind : Text → Text → Option Text
behind [] s = some s
behind (p ∷ prefix) [] = none
behind (p ∷ prefix) (c ∷ s) = let rest = behind prefix s in if p == c then rest else none

-- A word that is there, or the other words.
unfoldable pub first_of :
    Option Text → Checked Value → Option (Checked (Value × Text)) → Option (Checked (Value × Text))
first_of none v otherwise = otherwise
first_of (some rest) v otherwise = some (v >>= λ w. accepted (w, rest))

-- `_reject_nonfinite_constant`
abbrev pub reject_nonfinite_constant : Checked Value
reject_nonfinite_constant = rejection ContractCode.nonfinite_number root

-- `null`, `true`, `false`, and the constants that `parse_constant` is called on
unfoldable pub scan_word : Text → Option (Checked (Value × Text))
unfolding behind first_of
scan_word s = first_of (behind (codes "null") s) (accepted Value.null) (
    first_of (behind (codes "true") s) (accepted (Value.boolean true)) (
      first_of (behind (codes "false") s) (accepted (Value.boolean false)) (
        first_of (behind (codes "NaN") s) reject_nonfinite_constant (
          first_of (behind (codes "Infinity") s) reject_nonfinite_constant
            (first_of (behind (codes "-Infinity") s) reject_nonfinite_constant none)))))

unfoldable pub word_or_number : Option (Checked (Value × Text)) → Text → Checked (Value × Text)
unfolding scan_number
word_or_number none s = scan_number s
word_or_number (some r) s = r

-- A word or a number.
unfoldable pub scan_scalar : Text → Checked (Value × Text)
unfolding scan_word word_or_number
scan_scalar s = word_or_number (scan_word s) s

-- The character with which a part of the document begins.
pub data Opening : Type 0 where
  quote brace bracket comma close_brace close_bracket other_opening nothing : Opening

unfoldable pub opening : Text → Opening
opening [] = Opening.nothing
opening (c ∷ _) =
    if c == b'"'
    then Opening.quote
    else if c == b'{'
    then Opening.brace
    else if c == b'['
    then Opening.bracket
    else if c == b','
    then Opening.comma
    else if c == b'}'
    then Opening.close_brace
    else if c == b']'
    then Opening.close_bracket
    else Opening.other_opening

-- `:` behind a key
unfoldable pub scan_colon : Text → Checked Text
unfolding skip_space
scan_colon [] = invalid
scan_colon (c ∷ s) = if c == b':' then accepted (skip_space s) else invalid

-- A value at the front of a text, the elements of an array from a value on, and the members of an
-- object from a key on, each with what is behind it. The first argument is fuel.
unfoldable mutual
  unfolding skip_space scan_scalar opening scan_string scan_colon object_without_duplicates fields

  pub scan_value : ℕ → Text → Checked (Value × Text)
  scan_value zero s = invalid
  scan_value (suc fuel) s = elim (opening s) [
    | Opening.quote ↦ scan_string (length s) (drop 1 s) >>= λ r. accepted (Value.text r.0, r.1)
    | Opening.brace ↦ elim (opening (skip_space (drop 1 s))) [
      | Opening.close_brace ↦ accepted (Value.object Fields.end, drop 1 (skip_space (drop 1 s)))
      | _ ↦ scan_members fuel (skip_space (drop 1 s)) >>= λ r.
          object_without_duplicates r.0 >>= λ d. accepted (Value.object (fields d), r.1)
    ]
    | Opening.bracket ↦ elim (opening (skip_space (drop 1 s))) [
      | Opening.close_bracket ↦ accepted (Value.array Items.nil, drop 1 (skip_space (drop 1 s)))
      | _ ↦ scan_items fuel (skip_space (drop 1 s)) >>= λ r. accepted (Value.array r.0, r.1)
    ]
    | _ ↦ scan_scalar s
  ]

  pub scan_items : ℕ → Text → Checked (Items × Text)
  scan_items zero s = invalid
  scan_items (suc fuel) s = scan_value fuel s >>= λ first. elim (opening (skip_space first.1)) [
    | Opening.comma ↦ scan_items fuel (skip_space (drop 1 (skip_space first.1))) >>= λ others.
        accepted (Items.cons first.0 others.0, others.1)
    | Opening.close_bracket ↦ accepted (Items.cons first.0 Items.nil, drop 1 (skip_space first.1))
    | _ ↦ invalid
  ]

  pub scan_members : ℕ → Text → Checked (Dict Text Value × Text)
  scan_members zero s = invalid
  scan_members (suc fuel) s = elim (opening s) [
    | Opening.quote ↦ scan_string (length s) (drop 1 s) >>= λ key.
        scan_colon (skip_space key.1) >>= λ behind_colon. scan_value fuel behind_colon >>= λ first.
        elim (opening (skip_space first.1)) [
          | Opening.comma ↦
              scan_members fuel (skip_space (drop 1 (skip_space first.1))) >>= λ others.
              accepted ((key.0, first.0) ∷ others.0, others.1)
          | Opening.close_brace ↦ accepted ((key.0, first.0) ∷ [], drop 1 (skip_space first.1))
          | _ ↦ invalid
        ]
    | _ ↦ invalid
  ]

-- `json.loads` with the hooks of `decode_json_document`. Each call on the way takes a character, or
-- stands before one that does, so twice the length is fuel enough.
unfoldable pub loads : Text → Checked Value
unfolding scan_value skip_space is_blank
loads s = scan_value (2 * length s + 2) (skip_space s) >>= λ r.
    reject_if (not (is_blank (skip_space r.1))) ContractCode.invalid_json root >> accepted r.0

-- `decode_json_document` of bytes, with `max_bytes`
unfoldable pub decode_json_document : Option ℕ → Bytes → Checked Value
unfolding loads decode_utf8 check_nesting
decode_json_document max_bytes raw = do
  reject_if (too_long max_bytes) ContractCode.payload_too_large root
  s ← decode_utf8 raw
  value ← loads s
  check_nesting 0 value
  accepted value
  where
    too_long : Option ℕ → Bool
    too_long none = false
    too_long (some most) = ltb most (length raw)
