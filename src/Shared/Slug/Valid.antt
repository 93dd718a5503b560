-- ===== src/Shared/Slug/Valid.antt =====
-- The slug that a name gives is a slug, shared/character_spec.py.
use headless_blender_charact.Prelude.{
  Bool, Bool-cases, [], ap, arith, false, inl, inr, length, map, nat_eq, not, refl, string_eq, suc,
  take, true, zero, ℕ, ◌&&◌, ◌==◌, ◌||◌, ◌∙◌, ◌∷◌, ◌≡◌, ◌≢◌, ◌≤◌, ◌⊎◌,
}
use headless_blender_charact.Shared.Rejection.{Text, accepted, is_blank}
use headless_blender_charact.Shared.Decimal.{rstrip}
use headless_blender_charact.Service.Patterns.{headed, is_alnum, is_digit, is_lower, is_lower_alnum}
use headless_blender_charact.Shared.Slug.{
  dash_runs, lower_ascii, lstrip, name_pattern, safe_slug_from_name, slug_from, slug_pattern,
  slug_text,
}

-- A slug that may end in a dash; the flag is as in `slug_from`.
single : Bool → Text → Bool
single after [] = true
single after (c ∷ s) =
    let rest = single (is_lower_alnum c) s in (is_lower_alnum c || (after && c == b'-')) && rest

dash_no_alnum : is_lower_alnum b'-' ≡ false
unfolding is_lower_alnum is_lower is_digit
dash_no_alnum = refl

dash_other : (c : ℕ) → is_lower_alnum c ≡ true → c ≢ b'-'
dash_other c h e = let known = dash_no_alnum in let moved = ap is_lower_alnum e in cc

not_dash : (c : ℕ) → is_lower_alnum c ≡ true → (c == b'-') ≡ false
not_dash c h = elim (Bool-cases (c == b'-')) [
  | inl dash ↦ absurd (dash_other c h ((nat_eq.beq_iff c b'-').0 dash))
  | inr other ↦ other
]

single-dash_runs : (begun : Bool) (s : Text) → single (not begun) (dash_runs begun s) ≡ true
unfolding single dash_runs
single-dash_runs begun [] = refl
single-dash_runs true (c ∷ s) =
    ground (arith, dash_no_alnum, single-dash_runs (not (is_lower_alnum c)) s)
single-dash_runs false (c ∷ s) =
    ground (arith, dash_no_alnum, single-dash_runs (not (is_lower_alnum c)) s)

single-take : (n : ℕ) (b : Bool) (s : Text) → single b s ≡ true → single b (take n s) ≡ true
unfolding single
single-take zero b s h = refl
single-take (suc n) b [] h = refl
single-take (suc n) b (c ∷ s) h = ground (arith, single-take n (is_lower_alnum c) s)

-- the last step of `rstrip`, by what is left behind the character
rstrip_step :
    (c x : ℕ) (s : Text)
    → ((x ≡ c) × (rstrip c s ≡ []) × (rstrip c (x ∷ s) ≡ []))
      ⊎ ((rstrip c (x ∷ s) ≡ x ∷ rstrip c s) × (((x == c) ≡ false) ⊎ (rstrip c s ≢ [])))
unfolding rstrip
rstrip_step c x s = elim (Bool-cases (x == c)) [
  | inl alike ↦ step (rstrip c s) refl alike
  | inr other ↦ inr (rw other refl, inl other)
]
  where
    step :
        (r : Text)
        → rstrip c s ≡ r
        → (x == c) ≡ true
        → ((x ≡ c) × (rstrip c s ≡ []) × (rstrip c (x ∷ s) ≡ []))
          ⊎ ((rstrip c (x ∷ s) ≡ x ∷ rstrip c s) × (((x == c) ≡ false) ⊎ (rstrip c s ≢ [])))
    step [] e alike = inl ((nat_eq.beq_iff x c).0 alike, e, rw alike (rw e refl))
    step (y ∷ r) e alike = inr (rw alike (rw e refl), inr (λ none_left. cc))

single-rstrip : (b : Bool) (s : Text) → single b s ≡ true → single b (rstrip b'-' s) ≡ true
unfolding single rstrip
single-rstrip b [] h = refl
single-rstrip b (c ∷ s) h = elim (rstrip_step b'-' c s) [
  | inl (_, _, gone) ↦ rw gone refl
  | inr (kept, _) ↦ rw kept (ground (arith, single-rstrip (is_lower_alnum c) s))
]

slug_step :
    (b : Bool) (c : ℕ) (r : Text)
    → ((c == b'-') ≡ false) ⊎ (r ≢ [])
    → (r ≡ []) ⊎ (slug_from (is_lower_alnum c) r ≡ true)
    → (is_lower_alnum c || (b && c == b'-')) ≡ true
    → slug_from b (c ∷ r) ≡ true
unfolding slug_from
slug_step b c r (inl other) (inl e) k = rw e (ground arith)
slug_step b c r (inr some_left) (inl e) k = absurd (some_left e)
slug_step b c r why (inr rest) k = ground arith

-- Without dashes at its end it is a slug, or nothing.
slug_from-rstrip :
    (b : Bool) (s : Text)
    → single b s ≡ true
    → (rstrip b'-' s ≡ []) ⊎ (slug_from b (rstrip b'-' s) ≡ true)
unfolding single slug_from rstrip
slug_from-rstrip b [] h = inl refl
slug_from-rstrip b (c ∷ s) h = elim (rstrip_step b'-' c s) [
  | inl (_, _, gone) ↦ inl gone
  | inr (kept, why) ↦
      let rest = slug_from-rstrip (is_lower_alnum c) s (ground arith) in
      inr (rw kept (slug_step b c (rstrip b'-' s) why rest (ground arith)))
]

length-rstrip : (c : ℕ) (s : Text) → length (rstrip c s) ≤ length s
unfolding rstrip
length-rstrip c [] = omega arith
length-rstrip c (x ∷ s) = elim (rstrip_step c x s) [
  | inl (_, _, gone) ↦ rw gone (omega arith)
  | inr (kept, _) ↦ rw kept (omega (arith, length-rstrip c s))
]

length-take : (n : ℕ) (s : Text) → length (take n s) ≤ n
length-take zero s = omega arith
length-take (suc n) [] = omega arith
length-take (suc n) (x ∷ s) = omega (arith, length-take n s)

-- A text that begins with a letter or a digit keeps its beginning.
rstrip_kept : (c : ℕ) (s : Text) → is_lower_alnum c ≡ true → rstrip b'-' (c ∷ s) ≡ c ∷ rstrip b'-' s
rstrip_kept c s h = elim (rstrip_step b'-' c s) [
  | inl (dash, _, _) ↦ absurd (dash_other c h dash)
  | inr (kept, _) ↦ kept
]

lower_alnum : (c : ℕ) → is_alnum c ≡ true → is_lower_alnum (lower_ascii c) ≡ true
unfolding is_alnum lower_ascii is_lower_alnum is_lower is_digit
lower_alnum c h = ground arith

lstrip_kept : (c : ℕ) (s : Text) → is_lower_alnum c ≡ true → lstrip b'-' (c ∷ s) ≡ c ∷ s
unfolding lstrip
lstrip_kept c s h = rw (not_dash c h) refl

dash_runs_kept :
    (c : ℕ) (s : Text) → is_lower_alnum c ≡ true → dash_runs false (c ∷ s) ≡ c ∷ dash_runs false s
unfolding dash_runs
dash_runs_kept c s h = rw h refl

-- what is left of a name whose first character is a letter or a digit
tail_of : Text → Text
tail_of s = rstrip b'-' (take 47 (rstrip b'-' (dash_runs false (map lower_ascii s))))

slug_text_shape :
    (c : ℕ) (s : Text)
    → is_lower_alnum (lower_ascii c) ≡ true
    → slug_text (c ∷ s) ≡ lower_ascii c ∷ tail_of s
unfolding slug_text tail_of
slug_text_shape c s h =
    let d = lower_ascii c in
    let runs = dash_runs false (map lower_ascii s) in
    ap (λ x. rstrip b'-' (take 48 (rstrip b'-' (lstrip b'-' x))))
      (dash_runs_kept d (map lower_ascii s) h)
    ∙ ap (λ x. rstrip b'-' (take 48 (rstrip b'-' x))) (lstrip_kept d runs h)
    ∙ ap (λ x. rstrip b'-' (take 48 x)) (rstrip_kept d runs h)
    ∙ rstrip_kept d (take 47 (rstrip b'-' runs)) h

slug_text_valid :
    (c : ℕ) (s : Text)
    → is_lower_alnum (lower_ascii c) ≡ true
    → (slug_pattern (slug_text (c ∷ s)) ≡ true)
      × (length (slug_text (c ∷ s)) ≤ 48)
      × (is_blank (slug_text (c ∷ s)) ≡ false)
unfolding slug_pattern is_blank tail_of
slug_text_valid c s h =
    let d = lower_ascii c in
    let runs = dash_runs false (map lower_ascii s) in
    let within = take 47 (rstrip b'-' runs) in
    let tidy =
      single-take 47 true (rstrip b'-' runs)
        (single-rstrip true runs (single-dash_runs false (map lower_ascii s))) in
    rw (slug_text_shape c s h) (
      slug_step false d (rstrip b'-' within) (inl (not_dash d h))
          (rw h (slug_from-rstrip true within tidy)) (ground (arith, h)),
      omega (arith, length-rstrip b'-' within, length-take 47 (rstrip b'-' runs)),
      refl,
    )

-- Whatever name the pattern admits, the slug made of it is accepted and is itself a slug of at most
-- 48 characters.
pub safe_slug_from_name-IsSlug :
    (name : Text)
    → name_pattern name ≡ true
    → (slug : Text) × (safe_slug_from_name name ≡ accepted slug)
      × (slug_pattern slug ≡ true)
      × (length slug ≤ 48)
unfolding name_pattern headed safe_slug_from_name
safe_slug_from_name-IsSlug [] h = cc
safe_slug_from_name-IsSlug (c ∷ s) h =
    let (valid, short, some_left) = slug_text_valid c s (lower_alnum c (ground arith)) in
    (slug_text (c ∷ s), rw some_left refl, valid, short)
