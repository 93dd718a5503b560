-- ===== src/Shared/Json/Canonical.antt =====
-- shared/json_contract.py: canonical JSON text and its UTF-8 bytes.
pub mod Order
use headless_blender_charact.Prelude.{
  Bool, List, String, [], between, false, if◌then◌else◌, ltb, nat_eq, sort_by, string_eq, true, ℕ,
  ◌%◌, ◌&&◌, ◌++◌, ◌+◌, ◌-◌, ◌/◌, ◌==◌, ◌||◌, ◌∷◌,
}
use headless_blender_charact.Shared.Rejection.{
  Checked, ContractCode, Text, accepted, rejection, root, ◌>>=◌, ◌>>◌,
}
use headless_blender_charact.Shared.Decimal.{canonical_integer, canonical_number}
use headless_blender_charact.Service.Patterns.{codes}
use headless_blender_charact.Service.Contract.{Bytes, Environment, list_eq}
use headless_blender_charact.Service.Dict.{Dict}
use headless_blender_charact.Shared.Json.{Fields, Items, Value}

-- `a <= b` of two `str`: code point by code point
unfoldable pub text_leb : Text → Text → Bool
text_leb [] t = true
text_leb (a ∷ s) [] = false
text_leb (a ∷ s) (b ∷ t) = ltb a b || (a == b && text_leb s t)

unfoldable pub hex_figure : ℕ → ℕ
hex_figure n = if ltb n 10 then b'0' + n else b'a' + (n - 10)

-- One character as `json.dumps(..., ensure_ascii=False)` writes it.
unfoldable pub escape_character : ℕ → Text
unfolding hex_figure
escape_character c =
    if c == b'"'
    then b'\\' ∷ b'"' ∷ []
    else if c == b'\\'
    then b'\\' ∷ b'\\' ∷ []
    else if c == 10
    then b'\\' ∷ b'n' ∷ []
    else if c == 13
    then b'\\' ∷ b'r' ∷ []
    else if c == 9
    then b'\\' ∷ b't' ∷ []
    else if c == 12
    then b'\\' ∷ b'f' ∷ []
    else if c == 8
    then b'\\' ∷ b'b' ∷ []
    else if ltb c 32
    then b'\\' ∷ b'u' ∷ b'0' ∷ b'0' ∷ hex_figure (c / 16) ∷ hex_figure (c % 16) ∷ []
    else c ∷ []

unfoldable pub escape_text : Text → Text
unfolding escape_character
escape_text [] = []
escape_text (c ∷ s) = escape_character c ++ escape_text s

-- `json.dumps(value, ensure_ascii=False)` of a `str`
unfoldable pub dumps_text : Text → Text
unfolding escape_text
dumps_text s = b'"' ∷ escape_text s ++ b'"' ∷ []

-- `",".join(fragments)`
unfoldable pub comma_join : List Text → Text
comma_join [] = []
comma_join (s ∷ []) = s
comma_join (s ∷ t ∷ rest) = s ++ b',' ∷ comma_join (t ∷ rest)

-- A key before another in `sorted(keys)`.
abbrev pub key_leb {ℓ} : {A : Type ℓ} → Text × A → Text × A → Bool
key_leb a b = text_leb a.0 b.0

-- The members of an object in the order of their keys, and the first rejection among them.
unfoldable pub join_members : Dict Text (Checked Text) → Checked (List Text)
unfolding dumps_text
join_members [] = accepted []
join_members ((k, fragment) ∷ rest) = do
  s ← fragment
  others ← join_members rest
  accepted ((dumps_text k ++ b':' ∷ s) ∷ others)

unfoldable pub join_object : Dict Text (Checked Text) → Checked Text
unfolding join_members comma_join text_leb
join_object members = do
  parts ← join_members (sort_by key_leb members)
  accepted (b'{' ∷ comma_join parts ++ b'}' ∷ [])

-- `_canonical_fragment`; its path is used only for values that no `Value` stands for.
unfoldable mutual
  unfolding join_object dumps_text comma_join

  pub canonical_fragment : Value → Checked Text
  canonical_fragment Value.null = accepted (codes "null")
  canonical_fragment (Value.boolean true) = accepted (codes "true")
  canonical_fragment (Value.boolean false) = accepted (codes "false")
  canonical_fragment (Value.text s) = accepted (dumps_text s)
  canonical_fragment (Value.number d) = canonical_number d
  canonical_fragment (Value.integer negative n) = canonical_integer negative n
  canonical_fragment (Value.object fs) = join_object (member_fragments fs)
  canonical_fragment (Value.array vs) = do
    parts ← item_fragments vs
    accepted (b'[' ∷ comma_join parts ++ b']' ∷ [])

  pub item_fragments : Items → Checked (List Text)
  item_fragments Items.nil = accepted []
  item_fragments (Items.cons v vs) = do
    s ← canonical_fragment v
    others ← item_fragments vs
    accepted (s ∷ others)

  pub member_fragments : Fields → Dict Text (Checked Text)
  member_fragments Fields.end = []
  member_fragments (Fields.field k v fs) = (k, canonical_fragment v) ∷ member_fragments fs

-- The UTF-8 bytes of a code point; a surrogate has none, nor has a number that is no code point.
unfoldable pub utf8_character : ℕ → Checked Bytes
utf8_character c =
    if ltb c 128
    then accepted (c ∷ [])
    else if ltb c 2048
    then accepted ((192 + c / 64) ∷ (128 + c % 64) ∷ [])
    else if between 55296 57343 c || ltb 1114111 c
    then rejection ContractCode.invalid_unicode root
    else if ltb c 65536
    then accepted ((224 + c / 4096) ∷ (128 + c / 64 % 64) ∷ (128 + c % 64) ∷ [])
    else accepted
        ((240 + c / 262144) ∷ (128 + c / 4096 % 64) ∷ (128 + c / 64 % 64) ∷ (128 + c % 64) ∷ [])

-- `text.encode("utf-8", "strict")`
unfoldable pub encode_utf8 : Text → Checked Bytes
unfolding utf8_character
encode_utf8 [] = accepted []
encode_utf8 (c ∷ s) = do first ← utf8_character c; rest ← encode_utf8 s; accepted (first ++ rest)

unfoldable pub canonical_json_bytes : Value → Checked Bytes
unfolding canonical_fragment encode_utf8
canonical_json_bytes v = do s ← canonical_fragment v; encode_utf8 s

-- `canonical_sha256`, with the digest given
unfoldable pub canonical_sha256 : Environment → Value → Checked String
unfolding canonical_json_bytes
canonical_sha256 env v = do bytes ← canonical_json_bytes v; accepted (env.sha256_hex bytes)
