-- ===== src/Shared/Reread/Figures.antt =====
-- Figures are read back, shared/json_contract.py: runs of figures, their value, and the last one.
use headless_blender_charact.Prelude.{
  Bool, [], all, ap, arith, false, foldl, inl, inr, nat_eq, not, refl, replicate, string_eq, suc,
  true, zero, ℕ, ◌%◌, ◌*◌, ◌++◌, ◌+◌, ◌-◌, ◌/◌, ◌<◌, ◌==◌, ◌||◌, ◌∙◌, ◌∷◌, ◌≡◌,
}
use headless_blender_charact.Shared.Rejection.{Text}
use headless_blender_charact.Shared.Decimal.{digits, digits_within}
use headless_blender_charact.Service.Patterns.{is_digit}
use headless_blender_charact.Shared.Decimal.Digits.{
  digits_within_large, digits_within_small, is_figure, size-cases,
}
use headless_blender_charact.Shared.Json.Numbers.{span_figures, value_of}

-- What may stand behind a number: nothing, or no part of one.
unfoldable pub ends_number : Text → Bool
unfolding is_digit
ends_number [] = true
ends_number (c ∷ _) = not (is_digit c || c == b'.' || c == b'e' || c == b'E')

figure_digit : (c : ℕ) → is_figure c ≡ true → is_digit c ≡ true
unfolding is_digit
figure_digit c h = h

-- behind which a run of figures stops
unfoldable pub stops : Text → Bool
unfolding is_digit
stops [] = true
stops (c ∷ _) = not (is_digit c)

pub ends-stops : (rest : Text) → ends_number rest ≡ true → stops rest ≡ true
unfolding ends_number stops
ends-stops [] h = refl
ends-stops (c ∷ rest) h = ground arith

pub span_all :
    (ds rest : Text)
    → all is_figure ds ≡ true
    → stops rest ≡ true
    → span_figures (ds ++ rest) ≡ (ds, rest)
unfolding span_figures stops is_digit
span_all [] [] h k = refl
span_all [] (c ∷ rest) h k = ground arith
span_all (d ∷ ds) rest h k =
    let others = span_all ds rest (ground arith) k in
    let digit = figure_digit d (ground arith) in rw others (rw digit refl)

value_snoc :
    (ds : Text) (n d : ℕ)
    → foldl (λ m c. m * 10 + (c - b'0')) n (ds ++ d ∷ [])
      ≡ foldl (λ m c. m * 10 + (c - b'0')) n ds * 10 + (d - b'0')
value_snoc [] n d = refl
value_snoc (c ∷ ds) n d = value_snoc ds (n * 10 + (c - b'0')) d

value_within : (f n : ℕ) → n < f → value_of (digits_within f n) ≡ n
unfolding value_of
value_within zero n h = absurd (omega arith)
value_within (suc f) n h = elim (size-cases n) [
  | inl small ↦ rw (digits_within_small f n small) (omega arith)
  | inr large ↦ rw (digits_within_large f n large) (
      value_snoc (digits_within f (n / 10)) 0 (b'0' + n % 10)
      ∙ omega (arith, value_within f (n / 10) (omega arith)))
]

pub value_digits : (n : ℕ) → value_of (digits n) ≡ n
unfolding digits
value_digits n = value_within (suc n) n (omega arith)

pub value_zeros : (k : ℕ) (ds : Text) → value_of (replicate k b'0' ++ ds) ≡ value_of ds
unfolding value_of
value_zeros zero ds = refl
value_zeros (suc k) ds = value_zeros k ds

-- The figures of a number: all but the last, and the last.
pub digits_last : (n : ℕ) → (ds : Text) × (digits n ≡ ds ++ (b'0' + n % 10) ∷ [])
unfolding digits
digits_last n = elim (size-cases n) [
  | inl small ↦
      let same : n ≡ n % 10 = omega arith in
      ([], digits_within_small n n small ∙ ap (λ d. (b'0' + d) ∷ []) same)
  | inr large ↦ (digits_within n (n / 10), digits_within_large n n large)
]

-- The first figure of a number that is not zero.
first_within :
    (f n : ℕ)
    → n < f
    → 0 < n
    → (d : ℕ) × (ds : Text) × (digits_within f n ≡ d ∷ ds) × ((d == b'0') ≡ false)
first_within zero n h k = absurd (omega arith)
first_within (suc f) n h k = elim (size-cases n) [
  | inl small ↦ (b'0' + n, [], digits_within_small f n small, ground arith)
  | inr large ↦
      let (d, ds, shape, nonzero) = first_within f (n / 10) (omega arith) (omega arith) in
      (
        d,
        ds ++ (b'0' + n % 10) ∷ [],
        digits_within_large f n large ∙ ap (λ s. s ++ (b'0' + n % 10) ∷ []) shape,
        nonzero,
      )
]

pub digits_first :
    (n : ℕ) → 0 < n → (d : ℕ) × (ds : Text) × (digits n ≡ d ∷ ds) × ((d == b'0') ≡ false)
unfolding digits
digits_first n h = first_within (suc n) n (omega arith) h
