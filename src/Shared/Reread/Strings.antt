-- ===== src/Shared/Reread/Strings.antt =====
-- A string that `json.dumps` wrote is read back, shared/json_contract.py.
use headless_blender_charact.Prelude.{
  Bool-cases, Option, Option-cases, [], ap, append_assoc, arith, between, false, if◌then◌else◌, inl,
  inr, length, ltb, ltb→lt, nat_eq, none, refl, some, string_eq, suc, true, zero, ℕ, ◌%◌, ◌*◌, ◌++◌,
  ◌+◌, ◌-◌, ◌/◌, ◌<◌, ◌==◌, ◌∙◌, ◌∷◌, ◌≡◌,
}
use headless_blender_charact.Shared.Rejection.{Checked, Text, accepted, ◌>>=◌}
use headless_blender_charact.Service.Patterns.{is_digit}
use headless_blender_charact.Service.Contract.{list_eq}
use headless_blender_charact.Shared.Json.Canonical.{escape_character, escape_text, hex_figure}
use headless_blender_charact.Shared.Json.Strings.{
  hex_of, scan_character, scan_escape, scan_hex, scan_string, scan_unicode,
}

hex_read : (n : ℕ) → n < 16 → hex_of (hex_figure n) ≡ some n
unfolding hex_of hex_figure is_digit
hex_read n h = elim (Bool-cases (ltb n 10)) [
  | inl small ↦ let same : b'0' + n - b'0' ≡ n = omega arith in ground (arith, same)
  | inr large ↦ let same : b'a' + (n - 10) - b'a' + 10 ≡ n = ground arith in ground (arith, same)
]

abbrev then_character : ℕ → Checked (Text × Text) → Checked (Text × Text)
then_character c m = m >>= λ others. accepted (c ∷ others.0, others.1)

scan_step :
    (fuel c e : ℕ) (s rest : Text)
    → (e == b'"') ≡ false
    → scan_character e s ≡ accepted (c, rest)
    → scan_string (suc fuel) (e ∷ s) ≡ then_character c (scan_string fuel rest)
unfolding scan_string
scan_step fuel c e s rest h k = rw (h, scan_string) (rw k refl)

control_read :
    (c : ℕ) (rest : Text)
    → c < 32
    → scan_unicode (b'0' ∷ b'0' ∷ hex_figure (c / 16) ∷ hex_figure (c % 16) ∷ rest)
      ≡ accepted (c, rest)
unfolding scan_unicode scan_hex
control_read c rest h =
    let whole : (0 + c / 16) * 16 + c % 16 ≡ c = omega arith in
    let plain : between 55296 56319 c ≡ false = ground arith in
    rw (hex_read (c / 16) (omega arith))
      (rw (hex_read (c % 16) (omega arith)) (rw whole (rw plain refl)))

escaped_back :
    (fuel c e : ℕ) (behind_escape rest : Text)
    → scan_escape (e ∷ behind_escape) ≡ accepted (c, rest)
    → scan_string (suc fuel) (b'\\' ∷ e ∷ behind_escape) ≡ then_character c (scan_string fuel rest)
unfolding scan_character
escaped_back fuel c e s rest h = scan_step fuel c b'\\' (e ∷ s) rest refl h

-- the characters with an escape of their own
named_escape : ℕ → Option ℕ
named_escape c =
    if c == b'"'
    then some b'"'
    else if c == b'\\'
    then some b'\\'
    else if c == 10
    then some b'n'
    else if c == 13
    then some b'r'
    else if c == 9
    then some b't'
    else if c == 12
    then some b'f'
    else if c == 8
    then some b'b'
    else none

escape_named : (c e : ℕ) → named_escape c ≡ some e → escape_character c ≡ b'\\' ∷ e ∷ []
unfolding named_escape escape_character
escape_named c e h = ground arith

escape_control :
    (c : ℕ)
    → named_escape c ≡ none
    → ltb c 32 ≡ true
    → escape_character c
      ≡ b'\\' ∷ b'u' ∷ b'0' ∷ b'0' ∷ hex_figure (c / 16) ∷ hex_figure (c % 16) ∷ []
unfolding named_escape escape_character
escape_control c h low = ground arith

escape_plain :
    (c : ℕ)
    → named_escape c ≡ none
    → ltb c 32 ≡ false
    → (escape_character c ≡ c ∷ []) × ((c == b'"') ≡ false) × ((c == b'\\') ≡ false)
unfolding named_escape escape_character
escape_plain c h high = (ground arith, ground arith, ground arith)

named_back :
    (c e : ℕ) (rest : Text) → named_escape c ≡ some e → scan_escape (e ∷ rest) ≡ accepted (c, rest)
unfolding named_escape scan_escape
named_back c e rest h = ground arith

character_back :
    (fuel c : ℕ) (rest : Text)
    → scan_string (suc fuel) (escape_character c ++ rest) ≡ then_character c (scan_string fuel rest)
unfolding scan_character scan_escape
character_back fuel c rest = elim (Option-cases (named_escape c)) [
  | inr (e, named) ↦
      rw (escape_named c e named) (escaped_back fuel c e rest rest (named_back c e rest named))
  | inl unnamed ↦ elim (Bool-cases (ltb c 32)) [
    | inl low ↦ rw (escape_control c unnamed low) (
        escaped_back fuel c b'u' (b'0' ∷ b'0' ∷ hex_figure (c / 16) ∷ hex_figure (c % 16) ∷ rest)
          rest (control_read c rest (ltb→lt c 32 low)))
    | inr high ↦
        let (shape, no_quote, no_backslash) = escape_plain c unnamed high in
        rw shape (scan_step fuel c c rest rest no_quote (rw no_backslash (rw high refl)))
  ]
]

-- Behind the opening quote, what `json.dumps` wrote is read back up to the closing quote.
pub scan_string-escape_text :
    (s rest : Text) (fuel : ℕ)
    → length s < fuel
    → scan_string fuel (escape_text s ++ b'"' ∷ rest) ≡ accepted (s, rest)
unfolding escape_text scan_string
scan_string-escape_text s rest zero h = absurd (omega arith)
scan_string-escape_text [] rest (suc fuel) h = refl
scan_string-escape_text (c ∷ s) rest (suc fuel) h =
    ap (scan_string (suc fuel)) (append_assoc (escape_character c) (escape_text s) (b'"' ∷ rest))
    ∙ character_back fuel c (escape_text s ++ b'"' ∷ rest)
    ∙ ap (then_character c) (scan_string-escape_text s rest fuel (omega arith))
