-- ===== src/Shared/Decimal/Digits.antt =====
-- The digits of a number, shared/json_contract.py: they do not depend on the fuel, and a zero is
-- added at their end when the number is multiplied by ten.
use headless_blender_charact.Prelude.{
  Bool, [], all, ap, ap₂, arith, between, inl, inr, length, length-append, refl, suc, sym, true,
  zero, ℕ, ◌%◌, ◌*◌, ◌++◌, ◌+◌, ◌/◌, ◌<◌, ◌∙◌, ◌∷◌, ◌≡◌, ◌≤◌, ◌⊎◌,
}
use headless_blender_charact.Shared.Rejection.{Text}
use headless_blender_charact.Shared.Decimal.{digits, digits_within}

pub digits_within_small : (f n : ℕ) → n < 10 → digits_within (suc f) n ≡ (b'0' + n) ∷ []
unfolding digits_within
digits_within_small f n h = ground arith

pub digits_within_large :
    (f n : ℕ) → 10 ≤ n → digits_within (suc f) n ≡ digits_within f (n / 10) ++ (b'0' + n % 10) ∷ []
unfolding digits_within
digits_within_large f n h = ground arith

pub size-cases : (n : ℕ) → (n < 10) ⊎ (10 ≤ n)
size-cases n = ground arith

pub digits_within-enough : (f g n : ℕ) → n < f → n < g → digits_within f n ≡ digits_within g n
digits_within-enough zero g n h k = absurd (omega arith)
digits_within-enough (suc f) zero n h k = absurd (omega arith)
digits_within-enough (suc f) (suc g) n h k = elim (size-cases n) [
  | inl small ↦ digits_within_small f n small ∙ sym (digits_within_small g n small)
  | inr large ↦
      let smaller = digits_within-enough f g (n / 10) (omega arith) (omega arith) in
      digits_within_large f n large
      ∙ ap (λ s. s ++ (b'0' + n % 10) ∷ []) smaller
      ∙ sym (digits_within_large g n large)
]

pub digits-times_ten : (c : ℕ) → 0 < c → digits (c * 10) ≡ digits c ++ b'0' ∷ []
unfolding digits
digits-times_ten c h =
    let tenth : c * 10 / 10 ≡ c = omega arith in
    let last : b'0' + c * 10 % 10 ≡ b'0' = omega arith in
    let fuel = digits_within-enough (c * 10) (suc c) c (omega arith) (omega arith) in
    digits_within_large (c * 10) (c * 10) (omega arith)
    ∙ ap₂ (λ m d. digits_within (c * 10) m ++ d ∷ []) tenth last
    ∙ ap (λ s. s ++ b'0' ∷ []) fuel

abbrev pub is_figure : ℕ → Bool
is_figure c = between b'0' b'9' c

all-snoc :
    (p : ℕ → Bool) (s : Text) (x : ℕ) → all p s ≡ true → p x ≡ true → all p (s ++ x ∷ []) ≡ true
all-snoc p [] x h k = ground arith
all-snoc p (y ∷ s) x h k = ground (arith, all-snoc p s x)

pub digits_within-figures : (f n : ℕ) → all is_figure (digits_within f n) ≡ true
unfolding digits_within
digits_within-figures zero n = refl
digits_within-figures (suc f) n = elim (size-cases n) [
  | inl small ↦ rw (digits_within_small f n small) (ground arith)
  | inr large ↦ rw (digits_within_large f n large) (
      all-snoc is_figure (digits_within f (n / 10)) (b'0' + n % 10)
        (digits_within-figures f (n / 10)) (ground arith))
]

pub digits-figures : (n : ℕ) → all is_figure (digits n) ≡ true
unfolding digits
digits-figures n = digits_within-figures (suc n) n

pub digits_nonempty : (n : ℕ) → 0 < length (digits n)
unfolding digits
digits_nonempty n = elim (size-cases n) [
  | inl small ↦ rw (digits_within_small n n small) (omega arith)
  | inr large ↦
      rw (digits_within_large n n large)
        (omega (arith, length-append (digits_within n (n / 10)) ((b'0' + n % 10) ∷ [])))
]
