-- ===== src/Shared/Json/Shrinking.antt =====
-- How much of a text the readers of Python's json.loads leave, shared/json_contract.py: no more than
-- they were given.
use headless_blender_charact.Prelude.{
  Bool, Bool-cases, Option, String, [], ap, arith, between, drop, false, if◌then◌else◌, inl, inr,
  length, nat_eq, none, refl, some, string_eq, suc, true, zero, ℕ, ◌&&◌, ◌-◌, ◌==◌, ◌∷◌, ◌≡◌, ◌≤◌,
}
use headless_blender_charact.Shared.Rejection.{
  Checked, ContractValidationError, Ensures, Ensures-accepted, Ensures-bind, Text, accepted,
  rejected, ◌>>=◌,
}
use headless_blender_charact.Service.Patterns.{codes}
use headless_blender_charact.Service.Contract.{list_eq}
use headless_blender_charact.Shared.Json.{Value}
use headless_blender_charact.Shared.Json.Numbers.{
  NumberToken, bounded_token, finish_number, scan_exponent, scan_fraction, scan_number, scan_sign,
  scan_unsigned, scan_whole, span_figures,
}
use headless_blender_charact.Shared.Json.Strings.{
  hex_of, join_halves, join_hex, scan_character, scan_escape, scan_hex, scan_string, scan_unicode,
  second_half,
}
use headless_blender_charact.Shared.Json.Decode.{
  behind, first_of, scan_colon, scan_scalar, scan_word, skip_space, word_or_number,
}

-- What is read leaves at most so many characters.
abbrev pub Leaves {ℓ} : {V : Type ℓ} → ℕ → Checked (V × Text) → Type ℓ
Leaves n m = Ensures (λ r. length r.1 ≤ n) m

pub skip_space_shorter : (s : Text) → length (skip_space s) ≤ length s
unfolding skip_space
skip_space_shorter [] = omega arith
skip_space_shorter (c ∷ s) = ground (arith, skip_space_shorter s)

pub drop_shorter : (s : Text) → length (drop 1 s) ≤ length s - 1
drop_shorter [] = omega arith
drop_shorter (c ∷ s) = omega arith

pub refuses {ℓ κ} :
    {V : Type ℓ} {P : V → Type κ} (e : ContractValidationError) → Ensures P (rejected e)
refuses e = record { ensured = λ v h. cc }

leaves {ℓ} :
    {V : Type ℓ} (n : ℕ) (m : Checked (V × Text))
    → ((r : V × Text) → m ≡ accepted r → length r.1 ≤ n)
    → Leaves n m
leaves n m each = record { ensured = each }

pub Leaves-more {ℓ} :
    {V : Type ℓ} (n k : ℕ) (m : Checked (V × Text)) → n ≤ k → Leaves n m → Leaves k m
Leaves-more n k m h l = record { ensured = λ r e. omega (arith, h, l.ensured r e) }

pub Leaves-bind {ℓ κ} :
    {U : Type ℓ} {V : Type κ} (n k : ℕ) (m : Checked (U × Text))
    {next : U × Text → Checked (V × Text)}
    → Leaves n m
    → ((u : U × Text) → length u.1 ≤ n → Leaves k (next u))
    → Leaves k (m >>= next)
Leaves-bind n k m l each = Ensures-bind m λ u h. each u (l.ensured u h)

pub Leaves-accepted {ℓ} :
    {V : Type ℓ} (n : ℕ) (r : V × Text) → length r.1 ≤ n → Leaves n (accepted r)
Leaves-accepted n r h = Ensures-accepted h

-- whichever branch is taken
pub either {ℓ κ} :
    {V : Type ℓ} {P : V → Type κ} (b : Bool) {m n : Checked V}
    → Ensures P m
    → Ensures P n
    → Ensures P (if b then m else n)
either true l r = l
either false l r = r

scan_hex-Leaves : (s : Text) → Leaves (length s) (scan_hex s)
unfolding scan_hex
scan_hex-Leaves (a ∷ b ∷ c ∷ d ∷ s) =
    Ensures-bind (join_hex (hex_of a) (hex_of b) (hex_of c) (hex_of d))
      λ n h. Leaves-accepted (length (a ∷ b ∷ c ∷ d ∷ s)) (n, s) (omega arith)
scan_hex-Leaves [] = refuses _
scan_hex-Leaves (a ∷ []) = refuses _
scan_hex-Leaves (a ∷ b ∷ []) = refuses _
scan_hex-Leaves (a ∷ b ∷ c ∷ []) = refuses _

second_half-Leaves : (high : ℕ) (s : Text) → Leaves (length s) (second_half high s)
unfolding second_half join_halves
second_half-Leaves high (c ∷ u ∷ rest) =
    either (c == b'\\' && u == b'u')
      (Leaves-bind (length rest) (length (c ∷ u ∷ rest)) (scan_hex rest) (scan_hex-Leaves rest)
        λ r h.
          either (between 56320 57343 r.0)
            (Leaves-accepted (length (c ∷ u ∷ rest)) _ (omega (arith, h)))
            (Leaves-accepted (length (c ∷ u ∷ rest)) _ (omega arith)))
      (Leaves-accepted (length (c ∷ u ∷ rest)) _ (omega arith))
second_half-Leaves high [] = Leaves-accepted 0 _ (omega arith)
second_half-Leaves high (c ∷ []) = Leaves-accepted 1 _ (omega arith)

scan_unicode-Leaves : (s : Text) → Leaves (length s) (scan_unicode s)
unfolding scan_unicode
scan_unicode-Leaves s = Leaves-bind (length s) (length s) (scan_hex s) (scan_hex-Leaves s) λ r h.
    either (between 55296 56319 r.0)
      (Leaves-more (length r.1) (length s) (second_half r.0 r.1) h (second_half-Leaves r.0 r.1))
      (Leaves-accepted (length s) r h)

scan_escape-Leaves : (s : Text) → Leaves (length s) (scan_escape s)
unfolding scan_escape
scan_escape-Leaves [] = refuses _
scan_escape-Leaves (e ∷ s) =
    let kept : (x : ℕ) → Leaves (suc (length s)) (accepted (x, s)) =
      λ x. Leaves-accepted (suc (length s)) (x, s) (omega arith) in
    either _ (kept e) (
      either _ (kept 10) (
        either _ (kept 13) (
          either _ (kept 9) (
            either _ (kept 12) (
              either _ (kept 8) (
                either _
                  (Leaves-more (length s) (suc (length s)) (scan_unicode s) (omega arith)
                    (scan_unicode-Leaves s))
                  (refuses _)))))))

scan_character-Leaves : (c : ℕ) (s : Text) → Leaves (length s) (scan_character c s)
unfolding scan_character
scan_character-Leaves c s =
    either _ (scan_escape-Leaves s)
      (either _ (refuses _) (Leaves-accepted (length s) (c, s) (omega arith)))

pub scan_string-Leaves : (fuel : ℕ) (s : Text) → Leaves (length s) (scan_string fuel s)
unfolding scan_string
scan_string-Leaves zero s = refuses _
scan_string-Leaves (suc fuel) [] = refuses _
scan_string-Leaves (suc fuel) (c ∷ s) = elim (Bool-cases (c == b'"')) [
  | inl end_of ↦ rw (end_of, scan_string) (Leaves-accepted (suc (length s)) ([], s) (omega arith))
  | inr inside ↦
      rw (inside, scan_string)
        (Leaves-bind (length s) (suc (length s)) (scan_character c s) (scan_character-Leaves c s)
          λ x h.
            Leaves-bind (length x.1) (suc (length s)) (scan_string fuel x.1)
              (scan_string-Leaves fuel x.1)
              λ r k. Leaves-accepted (suc (length s)) _ (omega (arith, h, k)))
]

pub span_figures_shorter : (s : Text) → length (span_figures s).1 ≤ length s
unfolding span_figures
span_figures_shorter [] = omega arith
span_figures_shorter (c ∷ s) = ground (arith, span_figures_shorter s)

scan_whole_shorter : (s : Text) → length (scan_whole s).1 ≤ length s
unfolding scan_whole
scan_whole_shorter [] = omega arith
scan_whole_shorter (c ∷ s) = ground (arith, span_figures_shorter (c ∷ s))

scan_fraction_shorter : (s : Text) → length (scan_fraction s).1 ≤ length s
unfolding scan_fraction
scan_fraction_shorter [] = omega arith
scan_fraction_shorter (c ∷ s) = ground (arith, span_figures_shorter s)

scan_sign_shorter : (s : Text) → length (scan_sign s).1 ≤ length s
unfolding scan_sign
scan_sign_shorter [] = omega arith
scan_sign_shorter (c ∷ s) = ground arith

scan_exponent_shorter : (s : Text) → length (scan_exponent s).2 ≤ length s
unfolding scan_exponent
scan_exponent_shorter [] = omega arith
scan_exponent_shorter (c ∷ s) =
    ground (arith, span_figures_shorter (scan_sign s).1, scan_sign_shorter s)

finish_number-Leaves :
    (n : ℕ) (figures : Text) (t : NumberToken) (rest : Text)
    → length rest ≤ n
    → Leaves n (finish_number figures t rest)
unfolding finish_number
finish_number-Leaves n [] t rest h = refuses _
finish_number-Leaves n (c ∷ s) t rest h =
    Ensures-bind (bounded_token t) λ d k. Leaves-accepted n (Value.number d, rest) h

scan_unsigned-Leaves :
    (b : Bool) (total : ℕ) (s : Text) → Leaves (length s) (scan_unsigned b total s)
unfolding scan_unsigned
scan_unsigned-Leaves b total s =
    let (figures, behind_whole) = scan_whole s in
    let (fraction, behind_fraction) = scan_fraction behind_whole in
    let (exponent_negative, exponent, rest) = scan_exponent behind_fraction in
    finish_number-Leaves (length s) figures
      (record {
        negative = b;
        whole_part = figures;
        fraction = fraction;
        exponent_negative = exponent_negative;
        exponent = exponent;
        size = total - length rest;
      })
      rest
      (omega (
        arith,
        scan_whole_shorter s,
        scan_fraction_shorter behind_whole,
        scan_exponent_shorter behind_fraction,
      ))

scan_number-Leaves : (s : Text) → Leaves (length s) (scan_number s)
unfolding scan_number
scan_number-Leaves [] = refuses _
scan_number-Leaves (c ∷ s) =
    either (c == b'-')
      (Leaves-more (length s) (suc (length s)) _ (omega arith)
        (scan_unsigned-Leaves true (suc (length s)) s))
      (scan_unsigned-Leaves false (suc (length s)) (c ∷ s))

behind_shorter : (p s rest : Text) → behind p s ≡ some rest → length rest ≤ length s
unfolding behind
behind_shorter [] s rest h = let same : s ≡ rest = cc in omega (arith, ap length same)
behind_shorter (q ∷ p) [] rest h = cc
behind_shorter (q ∷ p) (c ∷ s) rest h = ground (arith, behind_shorter p s rest)

first_of-Leaves :
    (s : Text) (o : Option Text) (v : Checked Value) (other : Option (Checked (Value × Text)))
    → ((rest : Text) → o ≡ some rest → length rest ≤ length s)
    → Leaves (length s) (word_or_number other s)
    → Leaves (length s) (word_or_number (first_of o v other) s)
unfolding first_of word_or_number
first_of-Leaves s none v other short l = l
first_of-Leaves s (some rest) v other short l =
    Ensures-bind v λ w h. Leaves-accepted (length s) (w, rest) (short rest refl)

pub scan_scalar-Leaves : (s : Text) → Leaves (length s) (scan_scalar s)
unfolding scan_scalar scan_word word_or_number
scan_scalar-Leaves s = word "null" _ _ (
    word "true" _ _ (
      word "false" _ _
        (word "NaN" _ _ (word "Infinity" _ _ (word "-Infinity" _ _ (scan_number-Leaves s))))))
  where
    word :
        (w : String) (v : Checked Value) (other : Option (Checked (Value × Text)))
        → Leaves (length s) (word_or_number other s)
        → Leaves (length s) (word_or_number (first_of (behind (codes w) s) v other) s)
    word w v other l = first_of-Leaves s (behind (codes w) s) v other (behind_shorter (codes w) s) l

pub scan_colon_leaves : (s : Text) → Ensures (λ r. length r ≤ length s) (scan_colon s)
unfolding scan_colon
scan_colon_leaves [] = refuses _
scan_colon_leaves (c ∷ s) =
    either (c == b':') (Ensures-accepted (omega (arith, skip_space_shorter s))) (refuses _)
