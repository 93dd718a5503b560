-- ===== src/Shared/Reread/Single.antt =====
-- A value that is no array and no object is read back, shared/json_contract.py, and how much fuel that
-- takes.
use headless_blender_charact.Prelude.{
  Bool, List, ap, append_assoc, arith, false, max, refl, suc, sym, true, zero, ℕ, ◌++◌, ◌∙◌, ◌∷◌,
  ◌≡◌, ◌≤◌,
}
use headless_blender_charact.Shared.Rejection.{Text, accepted, accepted-injective}
use headless_blender_charact.Shared.Decimal.{Decimal, canonical_finite, ℤ}
use headless_blender_charact.Service.Patterns.{codes}
use headless_blender_charact.Shared.Json.{Fields, Items, Value}
use headless_blender_charact.Shared.Json.Canonical.{comma_join, dumps_text, escape_text}
use headless_blender_charact.Shared.Json.Decode.{
  behind, opening, scan_scalar, scan_value, scan_word,
}
use headless_blender_charact.Shared.Reread.Normal.{normal}
use headless_blender_charact.Shared.Reread.Figures.{ends_number}
use headless_blender_charact.Shared.Reread.Numbers.{
  canonical_first, rereads, scan_scalar-canonical_finite,
}
use headless_blender_charact.Shared.Reread.Openings.{
  key_shape, normal_value, scalar_step, string_read, text_step,
}
use headless_blender_charact.Shared.Reread.Starts.{number_starts}

unfoldable mutual
  pub need : Value → ℕ
  need (Value.array vs) = suc (need_items vs)
  need (Value.object fs) = suc (need_fields fs)
  need _ = 1

  pub need_items : Items → ℕ
  need_items Items.nil = 0
  need_items (Items.cons v vs) = suc (max (need v) (need_items vs))

  pub need_fields : Fields → ℕ
  need_fields Fields.end = 0
  need_fields (Fields.field k v fs) = suc (max (need v) (need_fields fs))

-- The first text of a joined list, and what may stand behind it.
pub join_more :
    (s t : Text) (rest : List Text) (behind : Text)
    → comma_join (s ∷ t ∷ rest) ++ behind ≡ s ++ (b',' ∷ comma_join (t ∷ rest) ++ behind)
unfolding comma_join
join_more s t rest behind = append_assoc s (b',' ∷ comma_join (t ∷ rest)) behind

-- Fuel that is not used up.
pub with_fuel :
    (fuel : ℕ) (Reads : ℕ → Type 0)
    → 1 ≤ fuel
    → ((f : ℕ) → fuel ≡ suc f → Reads (suc f))
    → Reads fuel
with_fuel zero Reads h next = absurd (omega arith)
with_fuel (suc f) Reads h next = next f refl

-- How one value is read back, before whatever no number continues with.
unfoldable pub IsRead : Value → Text → ℕ → Type 0
IsRead v t fuel =
    (rest : Text)
    → ends_number rest ≡ true
    → scan_value fuel (t ++ rest) ≡ accepted (normal_value v, rest)

pub scalar_back :
    (fuel : ℕ) (v : Value) (d : Decimal) (t : Text)
    → 1 ≤ fuel
    → (b : Bool) × (c : ℕ) × (e : ℤ) × (d ≡ Decimal.finite b c e) × (t ≡ canonical_finite d)
    → rereads d ≡ true
    → normal_value v ≡ Value.number (normal d)
    → IsRead v t fuel
unfolding IsRead
scalar_back fuel v d t h (b, c, e, same, shape) r n rest stop =
    let (x, s, start_shape, known) = canonical_first b c e in
    let (starts, scalar) = number_starts x known in
    let begun = shape ∙ ap canonical_finite same ∙ start_shape in
    with_fuel fuel (λ f. scan_value f (t ++ rest) ≡ accepted (normal_value v, rest)) h
      (λ f _.
        ap (λ q. scan_value (suc f) (q ++ rest)) begun
        ∙ scalar_step f x (s ++ rest) starts scalar
        ∙ ap (λ q. scan_scalar (q ++ rest)) (sym start_shape)
        ∙ scan_scalar-canonical_finite b c e rest (sym (ap rereads same) ∙ r) stop
        ∙ ap (λ q. accepted (q, rest)) (ap (λ q. Value.number (normal q)) (sym same) ∙ sym n))

pub word_back :
    (fuel : ℕ) (v : Value) (word t : Text)
    → 1 ≤ fuel
    → accepted word ≡ accepted t
    → ((f : ℕ) (rest : Text) → scan_value (suc f) (word ++ rest) ≡ accepted (normal_value v, rest))
    → IsRead v t fuel
unfolding IsRead
word_back fuel v word t h e reads rest stop =
    ap (λ q. scan_value fuel (q ++ rest)) (sym (accepted-injective e))
    ∙ with_fuel fuel (λ f. scan_value f (word ++ rest) ≡ accepted (normal_value v, rest)) h
        (λ f _. reads f rest)

pub text_back :
    (s : Text) (f : ℕ) (rest : Text)
    → scan_value (suc f) (dumps_text s ++ rest) ≡ accepted (Value.text s, rest)
text_back s f rest =
    ap (scan_value (suc f)) (key_shape s rest)
    ∙ text_step f (escape_text s ++ b'"' ∷ rest)
    ∙ rw (string_read s rest) refl

pub null_back :
    (f : ℕ) (rest : Text) → scan_value (suc f) (codes "null" ++ rest) ≡ accepted (Value.null, rest)
unfolding scan_value scan_scalar scan_word behind opening
null_back f rest = refl

pub true_back :
    (f : ℕ) (rest : Text)
    → scan_value (suc f) (codes "true" ++ rest) ≡ accepted (Value.boolean true, rest)
unfolding scan_value scan_scalar scan_word behind opening
true_back f rest = refl

pub false_back :
    (f : ℕ) (rest : Text)
    → scan_value (suc f) (codes "false" ++ rest) ≡ accepted (Value.boolean false, rest)
unfolding scan_value scan_scalar scan_word behind opening
false_back f rest = refl

pub need_positive : (v : Value) → 1 ≤ need v
unfolding need
need_positive Value.null = omega arith
need_positive (Value.boolean b) = omega arith
need_positive (Value.text s) = omega arith
need_positive (Value.number d) = omega arith
need_positive (Value.integer b n) = omega arith
need_positive (Value.array vs) = omega arith
need_positive (Value.object fs) = omega arith
