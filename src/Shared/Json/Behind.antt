-- ===== src/Shared/Json/Behind.antt =====
-- What the reader of Python's json.loads does behind a value, shared/json_contract.py, and what a
-- step of a reader is.
use headless_blender_charact.Prelude.{
  [], arith, drop, inl, inr, length, refl, sym, ℕ, ◌+◌, ◌∙◌, ◌∷◌, ◌≡◌, ◌≤◌, ◌⊎◌,
}
use headless_blender_charact.Shared.Rejection.{Checked, Text, accepted, ◌>>=◌}
use headless_blender_charact.Service.Dict.{Dict}
use headless_blender_charact.Shared.Json.{Items, Value}
use headless_blender_charact.Shared.Json.Numbers.{invalid}
use headless_blender_charact.Shared.Json.Decode.{
  Opening, opening, scan_items, scan_members, skip_space,
}
use headless_blender_charact.Shared.Json.Shrinking.{
  Leaves, Leaves-accepted, drop_shorter, refuses, skip_space_shorter,
}

-- what the reader does behind an element of an array
unfoldable pub after_element : ℕ → Value × Text → Checked (Items × Text)
after_element fuel first = elim (opening (skip_space first.1)) [
  | Opening.comma ↦ scan_items fuel (skip_space (drop 1 (skip_space first.1))) >>= λ others.
      accepted (Items.cons first.0 others.0, others.1)
  | Opening.close_bracket ↦ accepted (Items.cons first.0 Items.nil, drop 1 (skip_space first.1))
  | _ ↦ invalid
]

-- what the reader does behind the value of a member
unfoldable pub after_member : ℕ → Text → Value × Text → Checked (Dict Text Value × Text)
after_member fuel k first = elim (opening (skip_space first.1)) [
  | Opening.comma ↦ scan_members fuel (skip_space (drop 1 (skip_space first.1))) >>= λ others.
      accepted ((k, first.0) ∷ others.0, others.1)
  | Opening.close_brace ↦ accepted ((k, first.0) ∷ [], drop 1 (skip_space first.1))
  | _ ↦ invalid
]

-- A step of a reader at a text of length `n`: it ends without another step, or goes on with another
-- reader at a shorter text, and leaves no more than that one.
pub data Step {ℓ κ} {V : Type ℓ} {U : Type κ} (n : ℕ) (next_reader : ℕ → Text → Checked (U × Text))
    (reader : ℕ → Checked (V × Text)) : Type (ℓ ⊔ κ) where
  ends :
      (m : Checked (V × Text)) → ((f : ℕ) → reader f ≡ m) → Leaves n m → Step n next_reader reader
  goes_on :
      (t : Text) (next : U × Text → Checked (V × Text))
      → length t + 1 ≤ n
      → ((f : ℕ) → reader f ≡ (next_reader f t >>= next))
      → ((u : U × Text) → Leaves (length u.1) (next u))
      → Step n next_reader reader

-- What is behind a first character and the space after it.
behind_first :
    (s : Text) → (opening s ≡ Opening.nothing) ⊎ (length (skip_space (drop 1 s)) + 1 ≤ length s)
unfolding opening
behind_first [] = inl refl
behind_first (c ∷ s) = inr (omega (arith, skip_space_shorter s))

pub behind_known :
    (s : Text) (o : Opening)
    → opening s ≡ o
    → ¬ (o ≡ Opening.nothing)
    → length (skip_space (drop 1 s)) + 1 ≤ length s
behind_known s o e known = elim (behind_first s) [
  | inl blank ↦ absurd (known (sym e ∙ blank))
  | inr some_text ↦ some_text
]

pub after_element_step :
    (first : Value × Text) → Step (length first.1) scan_items (λ f. after_element f first)
unfolding after_element
after_element_step first = step (opening rest) refl
  where
    rest : Text
    rest = skip_space first.1

    other :
        ((f : ℕ) → after_element f first ≡ invalid)
        → Step (length first.1) scan_items (λ f. after_element f first)
    other same = Step.ends invalid same (refuses _)

    step :
        (o : Opening)
        → opening rest ≡ o
        → Step (length first.1) scan_items (λ f. after_element f first)
    step Opening.comma e =
        Step.goes_on (skip_space (drop 1 rest))
          (λ others. accepted (Items.cons first.0 others.0, others.1))
          (omega (arith, behind_known rest Opening.comma e (λ h. cc), skip_space_shorter first.1))
          (λ f. rw (e, after_element) refl)
          (λ others. Leaves-accepted (length others.1) _ (omega arith))
    step Opening.close_bracket e =
        Step.ends (accepted (Items.cons first.0 Items.nil, drop 1 rest))
          (λ f. rw (e, after_element) refl)
          (Leaves-accepted (length first.1) _
            (omega (arith, drop_shorter rest, skip_space_shorter first.1)))
    step Opening.quote e = other (λ f. rw (e, after_element) refl)
    step Opening.brace e = other (λ f. rw (e, after_element) refl)
    step Opening.bracket e = other (λ f. rw (e, after_element) refl)
    step Opening.close_brace e = other (λ f. rw (e, after_element) refl)
    step Opening.other_opening e = other (λ f. rw (e, after_element) refl)
    step Opening.nothing e = other (λ f. rw (e, after_element) refl)

pub after_member_step :
    (k : Text) (first : Value × Text)
    → Step (length first.1) scan_members (λ f. after_member f k first)
unfolding after_member
after_member_step k first = step (opening rest) refl
  where
    rest : Text
    rest = skip_space first.1

    other :
        ((f : ℕ) → after_member f k first ≡ invalid)
        → Step (length first.1) scan_members (λ f. after_member f k first)
    other same = Step.ends invalid same (refuses _)

    step :
        (o : Opening)
        → opening rest ≡ o
        → Step (length first.1) scan_members (λ f. after_member f k first)
    step Opening.comma e =
        Step.goes_on (skip_space (drop 1 rest))
          (λ others. accepted ((k, first.0) ∷ others.0, others.1))
          (omega (arith, behind_known rest Opening.comma e (λ h. cc), skip_space_shorter first.1))
          (λ f. rw (e, after_member) refl)
          (λ others. Leaves-accepted (length others.1) _ (omega arith))
    step Opening.close_brace e =
        Step.ends (accepted ((k, first.0) ∷ [], drop 1 rest)) (λ f. rw (e, after_member) refl)
          (Leaves-accepted (length first.1) _
            (omega (arith, drop_shorter rest, skip_space_shorter first.1)))
    step Opening.quote e = other (λ f. rw (e, after_member) refl)
    step Opening.brace e = other (λ f. rw (e, after_member) refl)
    step Opening.bracket e = other (λ f. rw (e, after_member) refl)
    step Opening.close_bracket e = other (λ f. rw (e, after_member) refl)
    step Opening.other_opening e = other (λ f. rw (e, after_member) refl)
    step Opening.nothing e = other (λ f. rw (e, after_member) refl)
