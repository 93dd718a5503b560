-- ===== src/Service/State/Owners.antt =====
-- state.py: the checks of `publish_success` on the identifiers that the artifacts carry.
use headless_blender_charact.Prelude.{
  Bool, List, [], all, any, arith, false, keep, map, nat_eq, not, refl, string_eq, subst, sym, true,
  ℕ, ◌&&◌, ◌==◌, ◌↔◌, ◌∙◌, ◌∷◌, ◌≡◌,
}
use headless_blender_charact.Service.Errors.{ok}
use headless_blender_charact.Service.Contract.{Uuid, list_eq}
use headless_blender_charact.Service.Models.Artifact.{ArtifactRecord}
use headless_blender_charact.Service.Storage.{distinct}
use headless_blender_charact.Service.State.Publication.{sole}

-- What passes a test passes it again.
keep-keep : (p : ℕ → Bool) (xs : List ℕ) → keep p (keep p xs) ≡ keep p xs
keep-keep p [] = refl
keep-keep p (x ∷ xs) = ground (arith, keep-keep p xs)

head_is :
    (x y : ℕ) (zs : List ℕ)
    → keep (λ z. not (z == x)) (y ∷ zs) ≡ []
    → ((y == x) ≡ true) × (keep (λ z. not (z == x)) zs ≡ [])
head_is x y zs h = (ground arith, ground arith)

-- If no other number is in the list, it has only this one.
only :
    (x : ℕ) (xs : List ℕ)
    → keep (λ y. not (y == x)) (distinct xs) ≡ []
    → all (λ y. y == x) xs ≡ true
unfolding distinct
only x [] h = refl
only x (y ∷ ys) h =
    let (b, rest) = head_is x y (keep (λ z. not (z == y)) (distinct ys)) h in
    let e : y ≡ x = ground (arith, b, nat_eq.beq_iff y x) in
    let k : keep (λ z. not (z == x)) (distinct ys) ≡ [] =
      sym (keep-keep (λ z. not (z == x)) (distinct ys))
      ∙ subst (λ w. keep (λ z. not (z == x)) (keep (λ z. not (z == w)) (distinct ys)) ≡ []) e
          rest in
    both (y == x) _ b (only x ys k)
  where
    both : (a b : Bool) → a ≡ true → b ≡ true → (a && b) ≡ true
    both a b p q = ground (arith, p, q)

all-map :
    {A : Type 0} (p : ℕ → Bool) (f : A → ℕ) (xs : List A) → all p (map f xs) ≡ all (λ x. p (f x)) xs
all-map p f [] = refl
all-map p f (x ∷ xs) = ground (arith, all-map p f xs)

any-not : {A : Type 0} (p : A → Bool) (xs : List A) → any (λ x. not (p x)) xs ≡ not (all p xs)
any-not p [] = refl
any-not p (x ∷ xs) = ground (arith, any-not p xs)

pub all_pass :
    {A : Type 0} (p : A → Bool) (xs : List A) → any (λ x. not (p x)) xs ≡ false → all p xs ≡ true
all_pass p xs h = ground (arith, any-not p xs)

sole_only : (i : ℕ) (xs : List ℕ) → sole (distinct xs) ≡ ok i → all (λ y. y == i) xs ≡ true
unfolding sole distinct
sole_only i [] h = refl
sole_only i (x ∷ xs) h =
    let (e, f) = single (keep (λ z. not (z == x)) (distinct xs)) h in
    subst (λ j. all (λ y. y == j) (x ∷ xs) ≡ true) f (both (nat_eq.beq_iff x x) (only x xs e))
  where
    single : (zs : List ℕ) → sole (x ∷ zs) ≡ ok i → (zs ≡ []) × (x ≡ i)
    single [] p = (refl, ok_ok p)
      where
        ok_ok : ok x ≡ ok i → x ≡ i
        ok_ok q = ground arith
    single (z ∷ zs) p = cc

    both :
        ((x == x) ≡ true) ↔ (x ≡ x)
        → all (λ y. y == x) xs ≡ true
        → ((x == x) && all (λ y. y == x) xs) ≡ true
    both p q = ground (arith, p, q, reflx)
      where
        reflx : x ≡ x
        reflx = refl

-- The artifacts all name the attempt that the check picks.
pub sole_attempt :
    (i : Uuid) (records : List ArtifactRecord)
    → sole (distinct (map (λ r. r.attempt_id) records)) ≡ ok i
    → all (λ r. r.attempt_id == i) records ≡ true
sole_attempt i records h = sym (all-map (λ y. y == i) (λ r. r.attempt_id) records) ∙ sole_only i _ h
