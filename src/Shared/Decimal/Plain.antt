-- ===== src/Shared/Decimal/Plain.antt =====
-- The text of a decimal, shared/json_contract.py: a zero behind the point is not seen.
use headless_blender_charact.Prelude.{
  Bool, Bool-cases, [], all, any, ap, append-nil, append_assoc, ap₂, arith, drop, false, inl, inr,
  leb, length, length-append, nat_eq, nat_eqb_iff, refl, replicate, string_eq, suc, sym, take, true,
  zero, ℕ, ◌++◌, ◌-◌, ◌<◌, ◌==◌, ◌||◌, ◌∙◌, ◌∷◌, ◌≡◌, ◌≤◌,
}
use headless_blender_charact.Shared.Rejection.{Text}
use headless_blender_charact.Shared.Decimal.{plain_digits, rstrip, signed, strip_fraction, ℤ}
use headless_blender_charact.Shared.Decimal.Digits.{is_figure}

-- The exponent less one.
unfoldable pub lower : ℤ → ℤ
lower (ℤ.pos zero) = ℤ.negsuc zero
lower (ℤ.pos (suc n)) = ℤ.pos n
lower (ℤ.negsuc n) = ℤ.negsuc (suc n)

abbrev is_point : ℕ → Bool
is_point c = c == b'.'

any-snoc : (p : ℕ → Bool) (s : Text) (x : ℕ) → any p (s ++ x ∷ []) ≡ (any p s || p x)
any-snoc p [] x = ground arith
any-snoc p (y ∷ s) x = ground (arith, any-snoc p s x)

rstrip-snoc_same : (c : ℕ) (s : Text) → rstrip c (s ++ c ∷ []) ≡ rstrip c s
unfolding rstrip
rstrip-snoc_same c [] = ground (arith, nat_eqb_iff c c)
rstrip-snoc_same c (y ∷ s) = rw (rstrip-snoc_same c s) refl

pub rstrip-snoc_other :
    (c x : ℕ) (s : Text) → (x == c) ≡ false → rstrip c (s ++ x ∷ []) ≡ s ++ x ∷ []
unfolding rstrip
rstrip-snoc_other c x [] h = rw h refl
rstrip-snoc_other c x (y ∷ []) h = rw h (ground arith)
rstrip-snoc_other c x (y ∷ z ∷ s) h = rw (rstrip-snoc_other c x (z ∷ s) h) (ground arith)

rstrip_absent : (c : ℕ) (s : Text) → any (λ x. x == c) s ≡ false → rstrip c s ≡ s
unfolding rstrip
rstrip_absent c [] h = refl
rstrip_absent c (y ∷ []) h = ground arith
rstrip_absent c (y ∷ z ∷ s) h =
    let rest = rstrip_absent c (z ∷ s) (ground arith) in rw rest (ground arith)

-- A zero behind the point is not seen.
strip_fraction-snoc :
    (s : Text) → any is_point s ≡ true → strip_fraction (s ++ b'0' ∷ []) ≡ strip_fraction s
unfolding strip_fraction
strip_fraction-snoc s h = rw (any-snoc is_point s b'0') (rw h (rw (rstrip-snoc_same b'0' s) refl))

-- Nor is a point with a single zero behind it.
strip_fraction_whole :
    (s : Text) → any is_point s ≡ false → strip_fraction (s ++ b'.' ∷ b'0' ∷ []) ≡ strip_fraction s
unfolding strip_fraction
strip_fraction_whole s h =
    let point : any is_point (s ++ b'.' ∷ []) ≡ true = rw (any-snoc is_point s b'.') (rw h refl) in
    let plain : strip_fraction s ≡ s = rw h refl in
    let pointed : strip_fraction (s ++ b'.' ∷ []) ≡ s = rw point (
      rw (rstrip-snoc_other b'0' b'.' s refl)
        (rw (rstrip-snoc_same b'.' s) (rstrip_absent b'.' s h))) in
    ap strip_fraction (sym (append_assoc s (b'.' ∷ []) (b'0' ∷ [])))
    ∙ strip_fraction-snoc (s ++ b'.' ∷ []) point
    ∙ pointed
    ∙ sym plain

pub take-append_within : (k : ℕ) (xs ys : Text) → k ≤ length xs → take k (xs ++ ys) ≡ take k xs
take-append_within zero xs ys h = refl
take-append_within (suc k) [] ys h = absurd (omega arith)
take-append_within (suc k) (x ∷ xs) ys h = ap (◌∷◌ x) (take-append_within k xs ys (omega arith))

pub drop-append_within :
    (k : ℕ) (xs ys : Text) → k ≤ length xs → drop k (xs ++ ys) ≡ drop k xs ++ ys
drop-append_within zero xs ys h = refl
drop-append_within (suc k) [] ys h = absurd (omega arith)
drop-append_within (suc k) (x ∷ xs) ys h = drop-append_within k xs ys (omega arith)

take_all : (xs : Text) → take (length xs) xs ≡ xs
take_all [] = refl
take_all (x ∷ xs) = ap (◌∷◌ x) (take_all xs)

drop_all : (xs : Text) → drop (length xs) xs ≡ []
drop_all [] = refl
drop_all (x ∷ xs) = drop_all xs

pub signed-append : (b : Bool) (s t : Text) → signed b (s ++ t) ≡ signed b s ++ t
signed-append true s t = refl
signed-append false s t = refl

pub figures_no_point : (s : Text) → all is_figure s ≡ true → any is_point s ≡ false
figures_no_point [] h = refl
figures_no_point (x ∷ s) h = ground (arith, figures_no_point s)

pub signed_no_point :
    (b : Bool) (s : Text) → any is_point s ≡ false → any is_point (signed b s) ≡ false
signed_no_point true s h = h
signed_no_point false s h = h

pub signed_point : (b : Bool) (s : Text) → any is_point s ≡ true → any is_point (signed b s) ≡ true
signed_point true s h = h
signed_point false s h = h

pub any-append : (p : ℕ → Bool) (s t : Text) → any p (s ++ t) ≡ (any p s || any p t)
any-append p [] t = refl
any-append p (x ∷ s) t = ground (arith, any-append p s t)

replicate_no_point : (n : ℕ) → any is_point (replicate n b'0') ≡ false
replicate_no_point zero = refl
replicate_no_point (suc n) = replicate_no_point n

-- The same digits with a zero more, at one exponent less.
plain_digits_whole :
    (ds : Text)
    → 0 < length ds
    → plain_digits (ds ++ b'0' ∷ []) (ℤ.negsuc zero) ≡ ds ++ b'.' ∷ b'0' ∷ []
unfolding plain_digits
plain_digits_whole ds h =
    let size : length (ds ++ b'0' ∷ []) ≡ suc (length ds) =
      omega (arith, length-append ds (b'0' ∷ [])) in
    let long : leb (suc (length ds)) 1 ≡ false = ground arith in
    let cut : suc (length ds) - 1 ≡ length ds = omega arith in
    rw size (
      rw long (
        rw cut (
          ap₂ (λ a b. a ++ b'.' ∷ b)
            (take-append_within (length ds) ds (b'0' ∷ []) (omega arith) ∙ take_all ds)
            (drop-append_within (length ds) ds (b'0' ∷ []) (omega arith)
              ∙ ap (λ s. s ++ b'0' ∷ []) (drop_all ds)))))

plain_digits_fraction :
    (ds : Text) (n : ℕ)
    → plain_digits (ds ++ b'0' ∷ []) (ℤ.negsuc (suc n)) ≡ plain_digits ds (ℤ.negsuc n) ++ b'0' ∷ []
unfolding plain_digits
plain_digits_fraction ds n =
    let size : length (ds ++ b'0' ∷ []) ≡ suc (length ds) =
      omega (arith, length-append ds (b'0' ∷ [])) in
    elim (Bool-cases (leb (length ds) (suc n))) [
      | inl short ↦
          let still : leb (suc (length ds)) (suc (suc n)) ≡ true = ground arith in
          let gap : suc (suc n) - suc (length ds) ≡ suc n - length ds = omega arith in
          rw size (
            rw still (
              rw short (
                ap (λ s. b'0' ∷ b'.' ∷ s)
                  (ap (λ k. replicate k b'0' ++ (ds ++ b'0' ∷ [])) gap
                    ∙ sym (append_assoc (replicate (suc n - length ds) b'0') ds (b'0' ∷ []))))))
      | inr long ↦
          let still : leb (suc (length ds)) (suc (suc n)) ≡ false = ground arith in
          let k = length ds - suc n in
          let cut : suc (length ds) - suc (suc n) ≡ k = omega arith in
          rw size (
            rw still (
              rw long (
                rw cut (
                  ap₂ (λ a b. a ++ b'.' ∷ b) (take-append_within k ds (b'0' ∷ []) (omega arith))
                    (drop-append_within k ds (b'0' ∷ []) (omega arith))
                  ∙ sym (append_assoc (take k ds) (b'.' ∷ drop k ds) (b'0' ∷ []))))))
    ]

pub plain_digits_point : (ds : Text) (n : ℕ) → any is_point (plain_digits ds (ℤ.negsuc n)) ≡ true
unfolding plain_digits
plain_digits_point ds n = elim (Bool-cases (leb (length ds) (suc n))) [
  | inl short ↦ rw short refl
  | inr long ↦ rw long (
      rw (any-append is_point (take (length ds - suc n) ds) (b'.' ∷ drop (length ds - suc n) ds))
        (ground arith))
]

-- One zero more and one exponent less print the same.
pub plain_step :
    (b : Bool) (ds : Text) (e : ℤ)
    → 0 < length ds
    → all is_figure ds ≡ true
    → strip_fraction (signed b (plain_digits (ds ++ b'0' ∷ []) (lower e)))
      ≡ strip_fraction (signed b (plain_digits ds e))
unfolding lower plain_digits
plain_step b ds (ℤ.pos (suc n)) h k =
    ap (λ s. strip_fraction (signed b s))
      (ap (λ s. s) (append_assoc ds (b'0' ∷ []) (replicate n b'0')))
plain_step b ds (ℤ.pos zero) h k =
    ap (λ s. strip_fraction (signed b s)) (plain_digits_whole ds h)
    ∙ ap strip_fraction (signed-append b ds (b'.' ∷ b'0' ∷ []))
    ∙ strip_fraction_whole (signed b ds) (signed_no_point b ds (figures_no_point ds k))
    ∙ ap (λ s. strip_fraction (signed b s)) (sym (append-nil ds))
plain_step b ds (ℤ.negsuc n) h k =
    ap (λ s. strip_fraction (signed b s)) (plain_digits_fraction ds n)
    ∙ ap strip_fraction (signed-append b (plain_digits ds (ℤ.negsuc n)) (b'0' ∷ []))
    ∙ strip_fraction-snoc (signed b (plain_digits ds (ℤ.negsuc n)))
        (signed_point b (plain_digits ds (ℤ.negsuc n)) (plain_digits_point ds n))
