-- ===== src/Shared/Json/Branches.antt =====
-- The ways the reader of Python's json.loads takes, shared/json_contract.py: which one depends on the
-- text alone, and each goes on with a shorter text.
use headless_blender_charact.Prelude.{
  arith, drop, inl, inr, length, refl, suc, ℕ, ◌+◌, ◌≡◌, ◌≤◌, ◌⊎◌,
}
use headless_blender_charact.Shared.Rejection.{
  Checked, Ensures-bind, Text, accepted, rejected, ◌>>=◌,
}
use headless_blender_charact.Service.Dict.{Dict}
use headless_blender_charact.Shared.Json.{Fields, Items, Value, fields, object_without_duplicates}
use headless_blender_charact.Shared.Json.Numbers.{invalid}
use headless_blender_charact.Shared.Json.Strings.{scan_string}
use headless_blender_charact.Shared.Json.Decode.{
  Opening, opening, scan_colon, scan_items, scan_members, scan_scalar, scan_value, skip_space,
}
use headless_blender_charact.Shared.Json.Shrinking.{
  Leaves, Leaves-accepted, Leaves-bind, drop_shorter, scan_colon_leaves, scan_scalar-Leaves,
  scan_string-Leaves, skip_space_shorter,
}
use headless_blender_charact.Shared.Json.Behind.{Step, after_element, after_member, behind_known}

-- A reader that goes on with the elements of an array or the members of an object.
abbrev pub ValueStep : Text → Type 0
ValueStep s =
    Step (length s) scan_items (λ f. scan_value (suc f) s)
    ⊎ Step (length s) scan_members (λ f. scan_value (suc f) s)

abbrev then_array : Items × Text → Checked (Value × Text)
then_array r = accepted (Value.array r.0, r.1)

abbrev then_object : Dict Text Value × Text → Checked (Value × Text)
then_object r = object_without_duplicates r.0 >>= λ d. accepted (Value.object (fields d), r.1)

array_step : (s : Text) → opening s ≡ Opening.bracket → ValueStep s
unfolding scan_value
array_step s e = step (opening inner) refl
  where
    inner : Text
    inner = skip_space (drop 1 s)

    shorter : length inner + 1 ≤ length s
    shorter = behind_known s Opening.bracket e (λ h. cc)

    elements : ((f : ℕ) → scan_value (suc f) s ≡ (scan_items f inner >>= then_array)) → ValueStep s
    elements same = inl (
        Step.goes_on inner then_array (omega (arith, shorter)) same
          (λ r. Leaves-accepted (length r.1) _ (omega arith)))

    step : (o : Opening) → opening inner ≡ o → ValueStep s
    step Opening.close_bracket i = inl (
        Step.ends (accepted (Value.array Items.nil, drop 1 inner))
          (λ f. rw (e, scan_value) (rw i refl))
          (Leaves-accepted (length s) _ (omega (arith, shorter, drop_shorter inner))))
    step Opening.quote i = elements (λ f. rw (e, scan_value) (rw i refl))
    step Opening.brace i = elements (λ f. rw (e, scan_value) (rw i refl))
    step Opening.bracket i = elements (λ f. rw (e, scan_value) (rw i refl))
    step Opening.comma i = elements (λ f. rw (e, scan_value) (rw i refl))
    step Opening.close_brace i = elements (λ f. rw (e, scan_value) (rw i refl))
    step Opening.other_opening i = elements (λ f. rw (e, scan_value) (rw i refl))
    step Opening.nothing i = elements (λ f. rw (e, scan_value) (rw i refl))

object_step : (s : Text) → opening s ≡ Opening.brace → ValueStep s
unfolding scan_value
object_step s e = step (opening inner) refl
  where
    inner : Text
    inner = skip_space (drop 1 s)

    shorter : length inner + 1 ≤ length s
    shorter = behind_known s Opening.brace e (λ h. cc)

    members :
        ((f : ℕ) → scan_value (suc f) s ≡ (scan_members f inner >>= then_object)) → ValueStep s
    members same = inr (
        Step.goes_on inner then_object (omega (arith, shorter)) same (λ r.
          Ensures-bind (object_without_duplicates r.0)
            λ d h. Leaves-accepted (length r.1) (Value.object (fields d), r.1) (omega arith)))

    step : (o : Opening) → opening inner ≡ o → ValueStep s
    step Opening.close_brace i = inr (
        Step.ends (accepted (Value.object Fields.end, drop 1 inner))
          (λ f. rw (e, scan_value) (rw i refl))
          (Leaves-accepted (length s) _ (omega (arith, shorter, drop_shorter inner))))
    step Opening.quote i = members (λ f. rw (e, scan_value) (rw i refl))
    step Opening.brace i = members (λ f. rw (e, scan_value) (rw i refl))
    step Opening.bracket i = members (λ f. rw (e, scan_value) (rw i refl))
    step Opening.comma i = members (λ f. rw (e, scan_value) (rw i refl))
    step Opening.close_bracket i = members (λ f. rw (e, scan_value) (rw i refl))
    step Opening.other_opening i = members (λ f. rw (e, scan_value) (rw i refl))
    step Opening.nothing i = members (λ f. rw (e, scan_value) (rw i refl))

pub value_step : (s : Text) → ValueStep s
unfolding scan_value
value_step s = step (opening s) refl
  where
    scalar : ((f : ℕ) → scan_value (suc f) s ≡ scan_scalar s) → ValueStep s
    scalar same = inl (Step.ends (scan_scalar s) same (scan_scalar-Leaves s))

    step : (o : Opening) → opening s ≡ o → ValueStep s
    step Opening.bracket e = array_step s e
    step Opening.brace e = object_step s e
    step Opening.quote e = inl (
        Step.ends (scan_string (length s) (drop 1 s) >>= λ r. accepted (Value.text r.0, r.1))
          (λ f. rw (e, scan_value) refl)
          (Leaves-bind (length (drop 1 s)) (length s) (scan_string (length s) (drop 1 s))
            (scan_string-Leaves (length s) (drop 1 s))
            λ r h.
              Leaves-accepted (length s) (Value.text r.0, r.1) (omega (arith, h, drop_shorter s))))
    step Opening.comma e = scalar (λ f. rw (e, scan_value) refl)
    step Opening.close_brace e = scalar (λ f. rw (e, scan_value) refl)
    step Opening.close_bracket e = scalar (λ f. rw (e, scan_value) refl)
    step Opening.other_opening e = scalar (λ f. rw (e, scan_value) refl)
    step Opening.nothing e = scalar (λ f. rw (e, scan_value) refl)

abbrev pub keyed : Text → Text → Checked (Text × Text)
keyed k b = accepted (k, b)

-- Reading the members of an object: no key, or the text behind a key and its colon.
abbrev pub scan_key : Text → Checked (Text × Text)
scan_key s =
    scan_string (length s) (drop 1 s) >>= λ key. scan_colon (skip_space key.1) >>= keyed key.0

pub scan_key-Leaves : (s : Text) → Leaves (length s) (scan_key s)
scan_key-Leaves s =
    Leaves-bind (length (drop 1 s)) (length s) (scan_string (length s) (drop 1 s))
      (scan_string-Leaves (length s) (drop 1 s))
      λ key h. Ensures-bind (scan_colon (skip_space key.1)) λ rest k.
        Leaves-accepted (length s) (key.0, rest)
          (omega (
            arith,
            h,
            drop_shorter s,
            skip_space_shorter key.1,
            (scan_colon_leaves (skip_space key.1)).ensured rest k,
          ))

bind_value {ℓ} :
    {W : Type ℓ} (k : Text) (c : Checked Text) (next : Text → Text → Checked W)
    → (c >>= next k) ≡ ((c >>= keyed k) >>= λ q. next q.0 q.1)
bind_value k (rejected e) next = refl
bind_value k (accepted b) next = refl

bind_key {ℓ} :
    {W : Type ℓ} (m : Checked (Text × Text)) (c : Text × Text → Checked Text)
    (next : Text → Text → Checked W)
    → (m >>= λ key. c key >>= next key.0)
      ≡ ((m >>= λ key. c key >>= keyed key.0) >>= λ q. next q.0 q.1)
bind_key (rejected e) c next = refl
bind_key (accepted key) c next = bind_value key.0 (c key) next

pub members_step :
    (s : Text)
    → ((f : ℕ) → scan_members (suc f) s ≡ invalid)
      ⊎ ((f : ℕ)
          → scan_members (suc f) s
            ≡ (scan_key s >>= λ key. scan_value f key.1 >>= after_member f key.0))
unfolding scan_members after_member
members_step s = step (opening s) refl
  where
    step :
        (o : Opening)
        → opening s ≡ o
        → ((f : ℕ) → scan_members (suc f) s ≡ invalid)
          ⊎ ((f : ℕ)
              → scan_members (suc f) s
                ≡ (scan_key s >>= λ key. scan_value f key.1 >>= after_member f key.0))
    step Opening.quote e = inr λ f.
        rw (e, scan_members)
          (bind_key (scan_string (length s) (drop 1 s)) (λ key. scan_colon (skip_space key.1))
            (λ k b. scan_value f b >>= after_member f k))
    step Opening.brace e = inl (λ f. rw (e, scan_members) refl)
    step Opening.bracket e = inl (λ f. rw (e, scan_members) refl)
    step Opening.comma e = inl (λ f. rw (e, scan_members) refl)
    step Opening.close_brace e = inl (λ f. rw (e, scan_members) refl)
    step Opening.close_bracket e = inl (λ f. rw (e, scan_members) refl)
    step Opening.other_opening e = inl (λ f. rw (e, scan_members) refl)
    step Opening.nothing e = inl (λ f. rw (e, scan_members) refl)

pub items_step : (f : ℕ) (s : Text) → scan_items (suc f) s ≡ (scan_value f s >>= after_element f)
unfolding scan_items after_element
items_step f s = refl
