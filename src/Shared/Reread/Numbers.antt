-- ===== src/Shared/Reread/Numbers.antt =====
-- A canonical number is read back in its normal form, shared/json_contract.py.
use headless_blender_charact.Prelude.{
  Bool, Bool-cases, [], all, ap, arith, drop, false, inl, inr, leb, length, length-append, nat_eq,
  none, refl, replicate, string_eq, suc, sym, take, true, ℕ, ◌&&◌, ◌++◌, ◌-◌, ◌<◌, ◌==◌, ◌||◌, ◌∙◌,
  ◌∷◌, ◌≡◌, ◌≤◌,
}
use headless_blender_charact.Shared.Rejection.{Text, accepted, passes, root}
use headless_blender_charact.Shared.Decimal.{
  Decimal, canonical_finite, digits, plain_digits, signed, validate_decimal_bounds, ℤ,
}
use headless_blender_charact.Shared.Decimal.Digits.{digits-figures, is_figure}
use headless_blender_charact.Shared.Json.{Value}
use headless_blender_charact.Shared.Json.Numbers.{scan_number, scan_unsigned}
use headless_blender_charact.Shared.Json.Decode.{behind, scan_scalar, scan_word}
use headless_blender_charact.Shared.Reread.Normal.{IsNormal, normal, normal-IsNormal, normal_text}
use headless_blender_charact.Shared.Reread.Figures.{digits_first, ends_number}
use headless_blender_charact.Service.Contract.{list_eq}
use headless_blender_charact.Shared.Reread.Shapes.{fraction_text, whole_text}
use headless_blender_charact.Shared.Reread.Tokens.{whole_number_read, zero_number_read}
use headless_blender_charact.Shared.Reread.Fractions.{fraction_number_read, take_first}

-- What must hold of a number for its canonical text to be read back: it has at most 288 characters,
-- and the bounds admit its normal form.
unfoldable pub rereads : Decimal → Bool
rereads d =
    leb (length (canonical_finite d)) 288 && passes (validate_decimal_bounds (normal d) root)

-- no word begins with a figure, nor with a minus and a figure
no_word : (f : ℕ) (s : Text) → is_figure f ≡ true → scan_word (f ∷ s) ≡ none
unfolding scan_word behind
no_word f s h =
    let n : (110 == f) ≡ false = ground arith in
    let t : (116 == f) ≡ false = ground arith in
    let l : (102 == f) ≡ false = ground arith in
    let a : (78 == f) ≡ false = ground arith in
    let i : (73 == f) ≡ false = ground arith in
    let m : (45 == f) ≡ false = ground arith in rw n (rw t (rw l (rw a (rw i (rw m refl)))))

no_word_minus : (f : ℕ) (s : Text) → is_figure f ≡ true → scan_word (b'-' ∷ f ∷ s) ≡ none
unfolding scan_word behind
no_word_minus f s h = let i : (73 == f) ≡ false = ground arith in rw i refl

signed_read :
    (b : Bool) (f : ℕ) (fs t rest : Text) (v : Value)
    → t ≡ f ∷ fs
    → is_figure f ≡ true
    → ((total : ℕ)
        → total - length rest ≤ length (signed b t)
        → scan_unsigned b total (t ++ rest) ≡ accepted (v, rest))
    → scan_scalar (signed b t ++ rest) ≡ accepted (v, rest)
unfolding scan_scalar scan_number
signed_read true f fs t rest v shape figure reads =
    let word = ap (λ s. scan_word (b'-' ∷ s ++ rest)) shape ∙ no_word_minus f (fs ++ rest) figure in
    rw word (reads (suc (length (t ++ rest))) (omega (arith, length-append t rest)))
signed_read false f fs t rest v shape figure reads =
    let word = ap (λ s. scan_word (s ++ rest)) shape ∙ no_word f (fs ++ rest) figure in
    let no_minus : (f == b'-') ≡ false = ground arith in
    rw word (
      ap (λ s. scan_number (s ++ rest)) shape
      ∙ rw no_minus (
          ap (λ s. scan_unsigned false (suc (length (fs ++ rest))) (s ++ rest)) (sym shape)
          ∙ reads (suc (length (fs ++ rest)))
              (omega (arith, length-append fs rest, ap length shape))))

plain_first :
    (c n : ℕ)
    → 0 < c
    → (f : ℕ) × (fs : Text) × (plain_digits (digits c) (ℤ.negsuc n) ≡ f ∷ fs) × (is_figure f ≡ true)
unfolding plain_digits
plain_first c n h = elim (Bool-cases (leb (length (digits c)) (suc n))) [
  | inl few ↦
      (b'0', b'.' ∷ replicate (suc n - length (digits c)) b'0' ++ digits c, rw few refl, refl)
  | inr many ↦
      let (d, ds, shape, nonzero) = digits_first c h in
      let k = length (digits c) - suc n in
      let front = ap (take k) shape ∙ take_first k d ds (ground arith) in
      let figures = ap (all is_figure) (sym shape) ∙ digits-figures c in
      (
        d,
        take (k - 1) ds ++ b'.' ∷ drop k (digits c),
        rw many (ap (λ s. s ++ b'.' ∷ drop k (digits c)) front),
        ground (arith, figures),
      )
]

number_back :
    (d : Decimal) (rest : Text)
    → IsNormal d
    → passes (validate_decimal_bounds d root) ≡ true
    → length (canonical_finite d) ≤ 288
    → ends_number rest ≡ true
    → scan_scalar (canonical_finite d ++ rest) ≡ accepted (Value.number d, rest)
unfolding canonical_finite
number_back d rest IsNormal.none_left bounded short stop =
    signed_read false b'0' [] (b'0' ∷ []) rest _ refl refl
      (λ total h. zero_number_read total rest stop (omega (arith, h)))
number_back d rest (IsNormal.whole_number b c h) bounded short stop =
    let (f, fs, shape, _) = digits_first c h in
    let figures = ap (all is_figure) (sym shape) ∙ digits-figures c in
    ap (λ s. scan_scalar (s ++ rest)) (whole_text b c h)
    ∙ signed_read b f fs (digits c) rest (Value.number (Decimal.finite b c (ℤ.pos 0))) shape
        (ground (arith, figures))
        (λ total k.
          whole_number_read b total c rest h stop
            (omega (arith, k, short, ap length (whole_text b c h))) bounded)
number_back d rest (IsNormal.fraction b c n h) bounded short stop =
    let positive : 0 < c = ground arith in
    let (f, fs, shape, figure) = plain_first c n positive in
    ap (λ s. scan_scalar (s ++ rest)) (fraction_text b c n h)
    ∙ signed_read b f fs (plain_digits (digits c) (ℤ.negsuc n)) rest
        (Value.number (Decimal.finite b c (ℤ.negsuc n))) shape figure
        (λ total k.
          fraction_number_read b total c n rest positive stop
            (omega (arith, k, short, ap length (fraction_text b c n h))) bounded)

-- A number that may be read back is, in its normal form, up to what no number continues with.
pub scan_scalar-canonical_finite :
    (b : Bool) (c : ℕ) (e : ℤ) (rest : Text)
    → rereads (Decimal.finite b c e) ≡ true
    → ends_number rest ≡ true
    → scan_scalar (canonical_finite (Decimal.finite b c e) ++ rest)
      ≡ accepted (Value.number (normal (Decimal.finite b c e)), rest)
unfolding rereads
scan_scalar-canonical_finite b c e rest h stop =
    let same = normal_text b c e in
    ap (λ s. scan_scalar (s ++ rest)) (sym same)
    ∙ number_back (normal (Decimal.finite b c e)) rest (normal-IsNormal b c e) (ground arith)
        (ground (arith, same)) stop

signed_first :
    (b : Bool) (f : ℕ) (fs t : Text)
    → t ≡ f ∷ fs
    → is_figure f ≡ true
    → (c : ℕ) × (s : Text) × (signed b t ≡ c ∷ s) × ((c == b'-' || is_figure c) ≡ true)
signed_first true f fs t e h = (b'-', t, refl, refl)
signed_first false f fs t e h = (f, fs, e, ground arith)

normal_first :
    (d : Decimal)
    → IsNormal d
    → (c : ℕ) × (s : Text) × (canonical_finite d ≡ c ∷ s) × ((c == b'-' || is_figure c) ≡ true)
unfolding canonical_finite
normal_first d IsNormal.none_left = (b'0', [], refl, refl)
normal_first d (IsNormal.whole_number b c h) =
    let (f, fs, shape, _) = digits_first c h in
    let figures = ap (all is_figure) (sym shape) ∙ digits-figures c in
    let (x, s, signed_shape, known) =
      signed_first b f fs (digits c) shape (ground (arith, figures)) in
    (x, s, whole_text b c h ∙ signed_shape, known)
normal_first d (IsNormal.fraction b c n h) =
    let (f, fs, shape, figure) = plain_first c n (ground arith) in
    let (x, s, signed_shape, known) =
      signed_first b f fs (plain_digits (digits c) (ℤ.negsuc n)) shape figure in
    (x, s, fraction_text b c n h ∙ signed_shape, known)

-- The first character of a canonical number.
pub canonical_first :
    (b : Bool) (c : ℕ) (e : ℤ)
    → (x : ℕ) × (s : Text) × (canonical_finite (Decimal.finite b c e) ≡ x ∷ s)
      × ((x == b'-' || is_figure x) ≡ true)
canonical_first b c e =
    let (x, s, shape, known) =
      normal_first (normal (Decimal.finite b c e)) (normal-IsNormal b c e) in
    (x, s, sym (normal_text b c e) ∙ shape, known)
