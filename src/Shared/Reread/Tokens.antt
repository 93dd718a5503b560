-- ===== src/Shared/Reread/Tokens.antt =====
-- Number tokens without an exponent are read back, shared/json_contract.py.
use headless_blender_charact.Prelude.{
  Bool, [], all, ap, append-nil, arith, false, length, ltb, nat_eq, refl, string_eq, sym, true, ℕ,
  ◌++◌, ◌+◌, ◌-◌, ◌<◌, ◌==◌, ◌||◌, ◌∙◌, ◌∷◌, ◌≡◌, ◌≤◌,
}
use headless_blender_charact.Shared.Rejection.{Text, accepted, passes, root}
use headless_blender_charact.Shared.Decimal.{
  Decimal, digits, digits_within, down, max_number_significant_digits, up, validate_decimal_bounds,
  ℤ,
}
use headless_blender_charact.Shared.Decimal.Digits.{digits-figures, is_figure}
use headless_blender_charact.Shared.Json.{Value}
use headless_blender_charact.Shared.Json.Numbers.{
  NumberToken, bounded_token, decimal_of, minus, scan_exponent, scan_fraction, scan_unsigned,
  scan_whole, value_of,
}
use headless_blender_charact.Shared.Reread.Figures.{
  digits_first, ends-stops, ends_number, span_all, stops, value_digits,
}
use headless_blender_charact.Service.Contract.{list_eq}
use headless_blender_charact.Shared.Readers.Accepted.{passes_unit}

no_fraction : (rest : Text) → ends_number rest ≡ true → scan_fraction rest ≡ ([], rest)
unfolding scan_fraction ends_number
no_fraction [] h = refl
no_fraction (c ∷ rest) h = let plain : (c == b'.') ≡ false = ground arith in rw plain refl

no_exponent : (rest : Text) → ends_number rest ≡ true → scan_exponent rest ≡ (false, [], rest)
unfolding scan_exponent ends_number
no_exponent [] h = refl
no_exponent (c ∷ rest) h =
    let plain : (c == b'e' || c == b'E') ≡ false = ground arith in rw plain refl

pub fraction_read :
    (f : ℕ) (fs rest : Text)
    → all is_figure (f ∷ fs) ≡ true
    → stops rest ≡ true
    → scan_fraction (b'.' ∷ (f ∷ fs) ++ rest) ≡ (f ∷ fs, rest)
unfolding scan_fraction
fraction_read f fs rest h k = rw (span_all (f ∷ fs) rest h k) refl

pub whole_read :
    (d : ℕ) (ds rest : Text)
    → (d == b'0') ≡ false
    → all is_figure (d ∷ ds) ≡ true
    → stops rest ≡ true
    → scan_whole ((d ∷ ds) ++ rest) ≡ (d ∷ ds, rest)
unfolding scan_whole
whole_read d ds rest z h k = rw z (span_all (d ∷ ds) rest h k)

pub zero_read : (rest : Text) → scan_whole (b'0' ∷ rest) ≡ (b'0' ∷ [], rest)
unfolding scan_whole
zero_read rest = refl

token_bounded :
    (t : NumberToken) (d : Decimal)
    → t.size ≤ 288
    → decimal_of t ≡ d
    → passes (validate_decimal_bounds d root) ≡ true
    → bounded_token t ≡ accepted d
unfolding bounded_token
token_bounded t d h e k =
    let short : ltb (max_number_significant_digits + 32) t.size ≡ false = ground arith in
    let admitted : passes (validate_decimal_bounds (decimal_of t) root) ≡ true =
      ap (λ x. passes (validate_decimal_bounds x root)) e ∙ k in
    rw short
      (rw (passes_unit (validate_decimal_bounds (decimal_of t) root) admitted) (ap accepted e))

-- A token without an exponent, read from its figures.
pub plain_read :
    (b : Bool) (total w : ℕ) (ws fs s middle rest : Text) (d : Decimal)
    → scan_whole s ≡ (w ∷ ws, middle)
    → scan_fraction middle ≡ (fs, rest)
    → ends_number rest ≡ true
    → total - length rest ≤ 288
    → Decimal.finite b (value_of ((w ∷ ws) ++ fs)) (minus 0 (length fs)) ≡ d
    → passes (validate_decimal_bounds d root) ≡ true
    → scan_unsigned b total s ≡ accepted (Value.number d, rest)
unfolding scan_unsigned decimal_of
plain_read b total w ws fs s middle rest d e1 e2 stop short same bounded = rw e1 (
    rw e2 (
      rw (no_exponent rest stop) (
        rw
          (token_bounded
            (record {
              negative = b;
              whole_part = w ∷ ws;
              fraction = fs;
              exponent_negative = false;
              exponent = [];
              size = total - length rest;
            })
            d short same bounded)
          refl)))

pub whole_number_read :
    (b : Bool) (total c : ℕ) (rest : Text)
    → 0 < c
    → ends_number rest ≡ true
    → total - length rest ≤ 288
    → passes (validate_decimal_bounds (Decimal.finite b c (ℤ.pos 0)) root) ≡ true
    → scan_unsigned b total (digits c ++ rest)
      ≡ accepted (Value.number (Decimal.finite b c (ℤ.pos 0)), rest)
unfolding minus
whole_number_read b total c rest h stop short bounded =
    let (d, ds, shape, nonzero) = digits_first c h in
    let figures = ap (all is_figure) (sym shape) ∙ digits-figures c in
    let value = ap value_of (append-nil (d ∷ ds) ∙ sym shape) ∙ value_digits c in
    ap (λ s. scan_unsigned b total (s ++ rest)) shape
    ∙ plain_read b total d ds [] ((d ∷ ds) ++ rest) rest rest (Decimal.finite b c (ℤ.pos 0))
        (whole_read d ds rest nonzero figures (ends-stops rest stop)) (no_fraction rest stop) stop
        short (ap (λ m. Decimal.finite b m (ℤ.pos 0)) value) bounded

pub zero_number_read :
    (total : ℕ) (rest : Text)
    → ends_number rest ≡ true
    → total - length rest ≤ 288
    → scan_unsigned false total (b'0' ∷ rest)
      ≡ accepted (Value.number (Decimal.finite false 0 (ℤ.pos 0)), rest)
unfolding minus value_of validate_decimal_bounds passes digits digits_within up down
zero_number_read total rest stop short =
    plain_read false total b'0' [] [] (b'0' ∷ rest) rest rest (Decimal.finite false 0 (ℤ.pos 0))
      (zero_read rest) (no_fraction rest stop) stop short refl refl
