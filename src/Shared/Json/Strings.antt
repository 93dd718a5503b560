-- ===== src/Shared/Json/Strings.antt =====
-- shared/json_contract.py: the strings of Python's json.loads, and its UTF-8 decoder.
use headless_blender_charact.Prelude.{
  Bool, Option, [], between, false, if◌then◌else◌, ltb, nat_eq, none, not, some, string_eq, suc,
  true, zero, ℕ, ◌&&◌, ◌*◌, ◌+◌, ◌-◌, ◌==◌, ◌||◌, ◌∷◌,
}
use headless_blender_charact.Shared.Rejection.{
  Checked, ContractCode, Text, accepted, rejection, root, ◌>>=◌,
}
use headless_blender_charact.Service.Patterns.{is_digit}
use headless_blender_charact.Service.Contract.{Bytes, list_eq}
use headless_blender_charact.Shared.Json.Numbers.{invalid}

unfoldable pub hex_of : ℕ → Option ℕ
unfolding is_digit
hex_of c =
    if is_digit c
    then some (c - b'0')
    else if between b'a' b'f' c
    then some (c - b'a' + 10)
    else if between b'A' b'F' c
    then some (c - b'A' + 10)
    else none

unfoldable pub join_hex : Option ℕ → Option ℕ → Option ℕ → Option ℕ → Checked ℕ
join_hex (some w) (some x) (some y) (some z) = accepted (((w * 16 + x) * 16 + y) * 16 + z)
join_hex _ _ _ _ = invalid

-- Four hexadecimal figures, and what is behind them.
unfoldable pub scan_hex : Text → Checked (ℕ × Text)
unfolding hex_of join_hex
scan_hex (a ∷ b ∷ c ∷ d ∷ s) =
    join_hex (hex_of a) (hex_of b) (hex_of c) (hex_of d) >>= λ n. accepted (n, s)
scan_hex _ = invalid

-- The second half of a pair.
unfoldable pub join_halves : ℕ → Text → ℕ × Text → Checked (ℕ × Text)
join_halves high rest (low, behind_low) =
    if between 56320 57343 low
    then accepted (65536 + (high - 55296) * 1024 + (low - 56320), behind_low)
    else accepted (high, rest)

unfoldable pub second_half : ℕ → Text → Checked (ℕ × Text)
unfolding scan_hex join_halves
second_half high (c ∷ u ∷ rest) =
    if c == b'\\' && u == b'u'
    then (scan_hex rest >>= join_halves high (c ∷ u ∷ rest))
    else accepted (high, c ∷ u ∷ rest)
second_half high rest = accepted (high, rest)

-- Behind `\\u`: a character, or two escapes that make one.
unfoldable pub scan_unicode : Text → Checked (ℕ × Text)
unfolding scan_hex second_half
scan_unicode s = do
  first ← scan_hex s
  if between 55296 56319 first.0 then second_half first.0 first.1 else accepted first

-- Behind a backslash.
unfoldable pub scan_escape : Text → Checked (ℕ × Text)
unfolding scan_unicode
scan_escape [] = invalid
scan_escape (e ∷ s) =
    if e == b'"' || e == b'\\' || e == b'/'
    then accepted (e, s)
    else if e == b'n'
    then accepted (10, s)
    else if e == b'r'
    then accepted (13, s)
    else if e == b't'
    then accepted (9, s)
    else if e == b'f'
    then accepted (12, s)
    else if e == b'b'
    then accepted (8, s)
    else if e == b'u'
    then scan_unicode s
    else invalid

-- One character of a string, from its first character on.
unfoldable pub scan_character : ℕ → Text → Checked (ℕ × Text)
unfolding scan_escape
scan_character c s =
    if c == b'\\' then scan_escape s else if ltb c 32 then invalid else accepted (c, s)

-- Behind the opening quote; the first argument is fuel, one for each character.
unfoldable pub scan_string : ℕ → Text → Checked (Text × Text)
unfolding scan_character
scan_string zero s = invalid
scan_string (suc fuel) [] = invalid
scan_string (suc fuel) (c ∷ s) = elim (c == b'"') [
  | true ↦ accepted ([], s)
  | false ↦ scan_character c s >>= λ first.
      scan_string fuel first.1 >>= λ others. accepted (first.0 ∷ others.0, others.1)
]

-- What a byte says at the start of a character: it is one, or it begins one of `suc n` more bytes,
-- with its own bits and the least code point that needs so many.
pub data LeadByte : Type 0 where
  ascii : ℕ → LeadByte
  begins : ℕ → ℕ → ℕ → LeadByte
  broken : LeadByte

unfoldable pub lead_byte : ℕ → LeadByte
lead_byte b =
    if ltb b 128
    then LeadByte.ascii b
    else if between 192 223 b
    then LeadByte.begins 0 (b - 192) 128
    else if between 224 239 b
    then LeadByte.begins 1 (b - 224) 2048
    else if between 240 247 b
    then LeadByte.begins 2 (b - 240) 65536
    else LeadByte.broken

abbrev pub bad_utf8 : Checked Text
bad_utf8 = rejection ContractCode.invalid_utf8 root

-- Too small for its bytes, too large, or a surrogate.
unfoldable pub is_no_scalar : ℕ → ℕ → Bool
is_no_scalar least c = ltb c least || ltb 1114111 c || between 55296 57343 c

abbrev pub then_text : ℕ → Checked Text → Checked Text
then_text c rest = rest >>= λ s. accepted (c ∷ s)

-- `raw.decode("utf-8", "strict")`: at the start of a character, and inside one, where the numbers are
-- how many bytes follow the next one, what was read, and the least code point.
unfoldable mutual
  unfolding lead_byte is_no_scalar

  pub decode_utf8 : Bytes → Checked Text
  decode_utf8 [] = accepted []
  decode_utf8 (b ∷ rest) = elim (lead_byte b) [
    | LeadByte.ascii c ↦ then_text c (decode_utf8 rest)
    | LeadByte.begins more c least ↦ decode_inside more c least rest
    | LeadByte.broken ↦ bad_utf8
  ]

  pub decode_inside : ℕ → ℕ → ℕ → Bytes → Checked Text
  decode_inside more c least [] = bad_utf8
  decode_inside zero c least (b ∷ rest) =
      if between 128 191 b && not (is_no_scalar least (c * 64 + (b - 128)))
      then then_text (c * 64 + (b - 128)) (decode_utf8 rest)
      else bad_utf8
  decode_inside (suc more) c least (b ∷ rest) =
      if between 128 191 b then decode_inside more (c * 64 + (b - 128)) least rest else bad_utf8
