-- ===== src/Shared/Json/Numbers.antt =====
-- shared/json_contract.py: `_bounded_decimal`, and the number tokens of Python's json.loads.
use headless_blender_charact.Prelude.{
  Bool, [], false, foldl, if◌then◌else◌, leb, length, ltb, nat_eq, string_eq, suc, true, ℕ, ◌*◌,
  ◌++◌, ◌+◌, ◌-◌, ◌==◌, ◌||◌, ◌∷◌,
}
use headless_blender_charact.Shared.Rejection.{
  Checked, ContractCode, Text, accepted, reject_if, rejection, root, ◌>>=◌, ◌>>◌,
}
use headless_blender_charact.Shared.Decimal.{
  Decimal, max_number_significant_digits, validate_decimal_bounds, ℤ,
}
use headless_blender_charact.Service.Patterns.{is_digit}
use headless_blender_charact.Service.Contract.{list_eq}
use headless_blender_charact.Shared.Json.{Value}

abbrev pub invalid {ℓ} : {A : Type ℓ} → Checked A
invalid = rejection ContractCode.invalid_json root

-- The figures at the front, and what is behind them.
unfoldable pub span_figures : Text → Text × Text
unfolding is_digit
span_figures [] = ([], [])
span_figures (c ∷ s) =
    let (ds, rest) = span_figures s in if is_digit c then (c ∷ ds, rest) else ([], c ∷ s)

-- `int(digits)`
unfoldable pub value_of : Text → ℕ
value_of = foldl (λ n c. n * 10 + (c - b'0')) 0

-- A JSON number: its sign, figures before and behind the point, and its exponent.
pub record NumberToken : Type 0 where
  pub negative : Bool
  pub whole_part : Text
  pub fraction : Text
  pub exponent_negative : Bool
  pub exponent : Text
  -- how many characters it has
  pub size : ℕ

-- a - b
unfoldable pub minus : ℕ → ℕ → ℤ
minus a b = if leb b a then ℤ.pos (a - b) else ℤ.negsuc (b - a - 1)

-- `Decimal(token)`. An exponent of more than 18 figures, which Python's `Decimal` refuses, is
-- refused by the bounds here.
unfoldable pub decimal_of : NumberToken → Decimal
unfolding value_of minus
decimal_of t = Decimal.finite t.negative (value_of (t.whole_part ++ t.fraction)) (
    if t.exponent_negative
    then minus 0 (value_of t.exponent + length t.fraction)
    else minus (value_of t.exponent) (length t.fraction))

-- `_bounded_decimal`
unfoldable pub bounded_token : NumberToken → Checked Decimal
unfolding decimal_of validate_decimal_bounds
bounded_token t = do
  reject_if (ltb (max_number_significant_digits + 32) t.size) ContractCode.numeric_limit root
  validate_decimal_bounds (decimal_of t) root
  accepted (decimal_of t)

-- `(\.\d+)?`: the figures, and what is behind them
unfoldable pub scan_fraction : Text → Text × Text
unfolding span_figures
scan_fraction [] = ([], [])
scan_fraction (c ∷ s) = found (c == b'.') (span_figures s)
  where
    found : Bool → Text × Text → Text × Text
    found true (d ∷ ds, rest) = (d ∷ ds, rest)
    found _ _ = ([], c ∷ s)

-- a sign in front of an exponent: whether it is a minus, and what is behind it
unfoldable pub scan_sign : Text → Bool × Text
scan_sign [] = (false, [])
scan_sign (c ∷ s) =
    if c == b'-' then (true, s) else if c == b'+' then (false, s) else (false, c ∷ s)

-- `([eE][-+]?\d+)?`
unfoldable pub scan_exponent : Text → Bool × Text × Text
unfolding span_figures scan_sign
scan_exponent [] = (false, [], [])
scan_exponent (c ∷ s) =
    let (negative, figures) = scan_sign s in
    found (c == b'e' || c == b'E') negative (span_figures figures)
  where
    found : Bool → Bool → Text × Text → Bool × Text × Text
    found true negative (d ∷ ds, rest) = (negative, d ∷ ds, rest)
    found _ _ _ = (false, [], c ∷ s)

-- `0|[1-9]\d*`: the figures, and what is behind them
unfoldable pub scan_whole : Text → Text × Text
unfolding span_figures is_digit
scan_whole [] = ([], [])
scan_whole (c ∷ s) = if c == b'0' then (c ∷ [], s) else span_figures (c ∷ s)

-- A token, if it has figures.
unfoldable pub finish_number : Text → NumberToken → Text → Checked (Value × Text)
unfolding bounded_token
finish_number [] t rest = invalid
finish_number (c ∷ s) t rest = bounded_token t >>= λ d. accepted (Value.number d, rest)

-- Python's number pattern, at the front of a text without its minus sign.
unfoldable pub scan_unsigned : Bool → ℕ → Text → Checked (Value × Text)
unfolding scan_whole scan_fraction scan_exponent finish_number
scan_unsigned negative total s =
    let (figures, behind_whole) = scan_whole s in
    let (fraction, behind_fraction) = scan_fraction behind_whole in
    let (exponent_negative, exponent, rest) = scan_exponent behind_fraction in
    finish_number figures
      (record {
        negative = negative;
        whole_part = figures;
        fraction = fraction;
        exponent_negative = exponent_negative;
        exponent = exponent;
        size = total - length rest;
      })
      rest

unfoldable pub scan_number : Text → Checked (Value × Text)
unfolding scan_unsigned
scan_number [] = invalid
scan_number (c ∷ s) =
    if c == b'-'
    then scan_unsigned true (suc (length s)) s
    else scan_unsigned false (suc (length s)) (c ∷ s)
