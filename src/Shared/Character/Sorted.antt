-- ===== src/Shared/Character/Sorted.antt =====
-- `tuple(sorted(components))` of shared/character_spec.py: sorting what is sorted changes nothing, and
-- texts stay known and different.
use headless_blender_charact.Prelude.{
  Bool, List, [], all, ap, arith, insert_by, length, nat_eq, not, refl, sort_by, string_eq, suc,
  true, ◌&&◌, ◌++◌, ◌==◌, ◌||◌, ◌∙◌, ◌∷◌, ◌≡◌,
}
use headless_blender_charact.Shared.Rejection.{Text}
use headless_blender_charact.Service.Contract.{list_eq}
use headless_blender_charact.Shared.Json.{among}
use headless_blender_charact.Shared.Json.Canonical.{text_leb}
use headless_blender_charact.Shared.Json.Canonical.Order.{text_leb_total, text_leb_trans}
use headless_blender_charact.Shared.Readers.Accepted.{fresh}

abbrev sorted : List Text → List Text
sorted = sort_by text_leb

abbrev put : Text → List Text → List Text
put = insert_by text_leb

all-put : (p : Text → Bool) (x : Text) (l : List Text) → all p (put x l) ≡ (p x && all p l)
all-put p x [] = ground arith
all-put p x (y ∷ l) = ground (arith, all-put p x l)

pub all-sorted : (p : Text → Bool) (l : List Text) → all p (sort_by text_leb l) ≡ all p l
all-sorted p [] = refl
all-sorted p (x ∷ l) = all-put p x (sorted l) ∙ ground (arith, all-sorted p l)

length-put : (x : Text) (l : List Text) → length (put x l) ≡ suc (length l)
length-put x [] = refl
length-put x (y ∷ l) = ground (arith, length-put x l)

pub length-sorted : (l : List Text) → length (sort_by text_leb l) ≡ length l
length-sorted [] = refl
length-sorted (x ∷ l) = length-put x (sorted l) ∙ ap suc (length-sorted l)

among-put : (k x : Text) (l : List Text) → among k (put x l) ≡ ((k == x) || among k l)
unfolding among
among-put k x [] = refl
among-put k x (y ∷ l) = ground (arith, among-put k x l)

pub among-sorted : (k : Text) (l : List Text) → among k (sort_by text_leb l) ≡ among k l
unfolding among
among-sorted k [] = refl
among-sorted k (x ∷ l) = among-put k x (sorted l) ∙ ground (arith, among-sorted k l)

-- Ascending: each text is at most those behind it.
ascending : List Text → Bool
ascending [] = true
ascending (x ∷ l) = all (text_leb x) l && ascending l

all-above :
    (x y : Text) (l : List Text)
    → text_leb x y ≡ true
    → all (text_leb y) l ≡ true
    → all (text_leb x) l ≡ true
all-above x y [] h k = refl
all-above x y (z ∷ l) h k = ground (arith, text_leb_trans x y z, all-above x y l)

ascending-put : (x : Text) (l : List Text) → ascending l ≡ true → ascending (put x l) ≡ true
unfolding ascending
ascending-put x [] h = refl
ascending-put x (y ∷ l) h =
    ground (arith, ascending-put x l, all-put (text_leb y) x l, text_leb_total x y, all-above x y l)

ascending-sorted : (l : List Text) → ascending (sorted l) ≡ true
unfolding ascending
ascending-sorted [] = refl
ascending-sorted (x ∷ l) = ascending-put x (sorted l) (ascending-sorted l)

put_first : (x : Text) (l : List Text) → all (text_leb x) l ≡ true → put x l ≡ x ∷ l
put_first x [] h = refl
put_first x (y ∷ l) h = ground arith

sorted_already : (l : List Text) → ascending l ≡ true → sorted l ≡ l
unfolding ascending
sorted_already [] h = refl
sorted_already (x ∷ l) h =
    ap (put x) (sorted_already l (ground arith)) ∙ put_first x l (ground arith)

pub sorted-sorted : (l : List Text) → sort_by text_leb (sort_by text_leb l) ≡ sort_by text_leb l
sorted-sorted l = sorted_already (sorted l) (ascending-sorted l)

-- No text occurs twice.
distinct : List Text → Bool
distinct [] = true
distinct (x ∷ l) = not (among x l) && distinct l

among-snoc : (k : Text) (l : List Text) (x : Text) → among k (l ++ x ∷ []) ≡ (among k l || (k == x))
unfolding among
among-snoc k [] x = ground arith
among-snoc k (y ∷ l) x = ground (arith, among-snoc k l x)

same_text_sym : (a b : Text) → (a == b) ≡ (b == a)
same_text_sym a b = ground (arith, list_eq.beq_iff a b, list_eq.beq_iff b a)

all-new :
    (seen : List Text) (s : Text) (l : List Text)
    → all (λ x. not (among x (seen ++ s ∷ []))) l
      ≡ (all (λ x. not (among x seen)) l && not (among s l))
unfolding among
all-new seen s [] = refl
all-new seen s (x ∷ l) = ground (arith, all-new seen s l, among-snoc x seen s, same_text_sym x s)

fresh-distinct :
    (seen l : List Text) → fresh seen l ≡ (all (λ x. not (among x seen)) l && distinct l)
unfolding fresh distinct
fresh-distinct seen [] = refl
fresh-distinct seen (s ∷ l) = ground (arith, fresh-distinct (seen ++ s ∷ []) l, all-new seen s l)

distinct-put : (x : Text) (l : List Text) → distinct (put x l) ≡ (not (among x l) && distinct l)
unfolding distinct among
distinct-put x [] = refl
distinct-put x (y ∷ l) = ground (arith, distinct-put x l, among-put y x l, same_text_sym x y)

distinct-sorted : (l : List Text) → distinct (sorted l) ≡ distinct l
unfolding distinct
distinct-sorted [] = refl
distinct-sorted (x ∷ l) =
    distinct-put x (sorted l) ∙ ground (arith, distinct-sorted l, among-sorted x l)

all-unseen : (l : List Text) → all (λ x. not (among x [])) l ≡ true
unfolding among
all-unseen [] = refl
all-unseen (x ∷ l) = all-unseen l

pub fresh-sorted : (l : List Text) → fresh [] l ≡ true → fresh [] (sort_by text_leb l) ≡ true
fresh-sorted l h =
    fresh-distinct [] (sorted l)
    ∙ ground (arith, all-unseen (sorted l), all-unseen l, distinct-sorted l, fresh-distinct [] l)
