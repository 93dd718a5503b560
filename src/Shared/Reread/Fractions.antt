-- ===== src/Shared/Reread/Fractions.antt =====
-- Fractions are read back, shared/json_contract.py.
use headless_blender_charact.Prelude.{
  Bool, Bool-cases, [], all, ap, append_assoc, ap₂, arith, drop, inl, inr, leb, leb→le, length,
  length-append, refl, replicate, suc, sym, take, true, zero, ℕ, ◌&&◌, ◌++◌, ◌+◌, ◌-◌, ◌<◌, ◌∙◌,
  ◌∷◌, ◌≡◌, ◌≤◌,
}
use headless_blender_charact.Shared.Rejection.{Text, accepted, passes, root}
use headless_blender_charact.Shared.Decimal.{
  Decimal, digits, plain_digits, validate_decimal_bounds, ℤ,
}
use headless_blender_charact.Service.Patterns.{is_digit}
use headless_blender_charact.Shared.Decimal.Digits.{digits-figures, is_figure}
use headless_blender_charact.Shared.Json.{Value}
use headless_blender_charact.Shared.Json.Numbers.{minus, scan_unsigned, scan_whole, value_of}
use headless_blender_charact.Shared.Reread.Figures.{
  digits_first, ends-stops, ends_number, stops, value_digits, value_zeros,
}
use headless_blender_charact.Shared.Reread.Tokens.{fraction_read, plain_read, whole_read, zero_read}

minus-length : (fs : Text) (n : ℕ) → length fs ≡ suc n → minus 0 (length fs) ≡ ℤ.negsuc n
unfolding minus
minus-length fs n h = rw h (ground arith)

all-zeros : (k : ℕ) → all is_figure (replicate k b'0') ≡ true
all-zeros zero = refl
all-zeros (suc k) = all-zeros k

all-append : (p : ℕ → Bool) (s t : Text) → all p (s ++ t) ≡ (all p s && all p t)
all-append p [] t = refl
all-append p (x ∷ s) t = ground (arith, all-append p s t)

pub length-zeros : (k : ℕ) → length {A = ℕ} (replicate k b'0') ≡ k
length-zeros zero = refl
length-zeros (suc k) = ap suc (length-zeros k)

-- A fraction by its figures before the point, of which there are some, and those behind it.
fraction_figures_read :
    (b : Bool) (total w n c : ℕ) (ws fs s rest : Text)
    → scan_whole s ≡ (w ∷ ws, b'.' ∷ fs ++ rest)
    → all is_figure fs ≡ true
    → length fs ≡ suc n
    → value_of ((w ∷ ws) ++ fs) ≡ c
    → ends_number rest ≡ true
    → total - length rest ≤ 288
    → passes (validate_decimal_bounds (Decimal.finite b c (ℤ.negsuc n)) root) ≡ true
    → scan_unsigned b total s ≡ accepted (Value.number (Decimal.finite b c (ℤ.negsuc n)), rest)
fraction_figures_read b total w n c ws [] s rest e1 h size value stop short bounded =
    absurd (omega (arith, size))
fraction_figures_read b total w n c ws (f ∷ fs) s rest e1 h size value stop short bounded =
    plain_read b total w ws (f ∷ fs) s (b'.' ∷ (f ∷ fs) ++ rest) rest
      (Decimal.finite b c (ℤ.negsuc n)) e1 (fraction_read f fs rest h (ends-stops rest stop)) stop
      short (ap₂ (λ m x. Decimal.finite b m x) value (minus-length (f ∷ fs) n size)) bounded

pub take-append-drop : (k : ℕ) (s : Text) → take k s ++ drop k s ≡ s
take-append-drop zero s = refl
take-append-drop (suc k) [] = refl
take-append-drop (suc k) (x ∷ s) = ap (◌∷◌ x) (take-append-drop k s)

length-drop : (k : ℕ) (s : Text) → length (drop k s) ≡ length s - k
length-drop zero s = omega arith
length-drop (suc k) [] = omega arith
length-drop (suc k) (x ∷ s) = omega (arith, length-drop k s)

pub take_first : (k d : ℕ) (ds : Text) → 0 < k → take k (d ∷ ds) ≡ d ∷ take (k - 1) ds
take_first zero d ds h = absurd (omega arith)
take_first (suc k) d ds h = let same : suc k - 1 ≡ k = omega arith in rw same refl

-- with more figures than the fraction has
long_fraction_read :
    (b : Bool) (total c n k : ℕ) (rest : Text)
    → 0 < c
    → ends_number rest ≡ true
    → total - length rest ≤ 288
    → passes (validate_decimal_bounds (Decimal.finite b c (ℤ.negsuc n)) root) ≡ true
    → length (digits c) ≡ k + suc n
    → 0 < k
    → scan_unsigned b total ((take k (digits c) ++ b'.' ∷ drop k (digits c)) ++ rest)
      ≡ accepted (Value.number (Decimal.finite b c (ℤ.negsuc n)), rest)
unfolding stops is_digit
long_fraction_read b total c n k rest h stop short bounded size some_whole =
    let (d, ds, shape, nonzero) = digits_first c h in
    let front = ap (take k) shape ∙ take_first k d ds some_whole in
    let fs = drop k (digits c) in
    let together = take-append-drop k (digits c) in
    let figures =
      sym (all-append is_figure (take k (digits c)) fs)
      ∙ ap (all is_figure) together
      ∙ digits-figures c in
    let front_figures : all is_figure (d ∷ take (k - 1) ds) ≡ true =
      ap (all is_figure) (sym front) ∙ ground (arith, figures) in
    let value = ap (λ s. value_of (s ++ fs)) (sym front) ∙ ap value_of together ∙ value_digits c in
    ap (scan_unsigned b total) (append_assoc (take k (digits c)) (b'.' ∷ fs) rest)
    ∙ fraction_figures_read b total d n c (take (k - 1) ds) fs
        (take k (digits c) ++ (b'.' ∷ fs ++ rest)) rest
        (ap (λ s. scan_whole (s ++ (b'.' ∷ fs ++ rest))) front
          ∙ whole_read d (take (k - 1) ds) (b'.' ∷ fs ++ rest) nonzero front_figures refl)
        (ground (arith, figures)) (length-drop k (digits c) ∙ omega (arith, size)) value stop short
        bounded

pub fraction_number_read :
    (b : Bool) (total c n : ℕ) (rest : Text)
    → 0 < c
    → ends_number rest ≡ true
    → total - length rest ≤ 288
    → passes (validate_decimal_bounds (Decimal.finite b c (ℤ.negsuc n)) root) ≡ true
    → scan_unsigned b total (plain_digits (digits c) (ℤ.negsuc n) ++ rest)
      ≡ accepted (Value.number (Decimal.finite b c (ℤ.negsuc n)), rest)
unfolding plain_digits value_of
fraction_number_read b total c n rest h stop short bounded =
    elim (Bool-cases (leb (length (digits c)) (suc n))) [
      | inl few ↦
          let zeros : Text = replicate (suc n - length (digits c)) b'0' in
          let fs : Text = zeros ++ digits c in
          rw few (
            fraction_figures_read b total 48 n c [] fs (b'0' ∷ b'.' ∷ fs ++ rest) rest
              (zero_read (b'.' ∷ fs ++ rest))
              (all-append is_figure zeros (digits c)
                ∙ ap₂ ◌&&◌ (all-zeros (suc n - length (digits c))) (digits-figures c))
              (length-append zeros (digits c)
                ∙ omega (
                  arith,
                  length-zeros (suc n - length (digits c)),
                  leb→le (length (digits c)) (suc n) few,
                ))
              (value_zeros (suc n - length (digits c)) (digits c) ∙ value_digits c) stop short
              bounded)
      | inr many ↦ rw many (
          long_fraction_read b total c n (length (digits c) - suc n) rest h stop short bounded
            (ground arith) (ground arith))
    ]
