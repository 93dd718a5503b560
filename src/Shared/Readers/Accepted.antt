-- ===== src/Shared/Readers/Accepted.antt =====
-- What the readers of shared/character_spec.py accept, and that they accept it again.
use headless_blender_charact.Prelude.{
  Bool, List, [], all, ap, append-nil, append_assoc, arith, false, leb, length, map, not, refl, suc,
  sym, true, ℕ, ◌&&◌, ◌++◌, ◌+◌, ◌^◌, ◌||◌, ◌∙◌, ◌∷◌, ◌≡◌,
}
use headless_blender_charact.Shared.Rejection.{
  Checked, ContractCode, Text, accepted, accepted-injective, bind_passed, passes, passes_guard,
  passes_then, reject_if_passed, rejected, root,
}
use headless_blender_charact.Shared.Decimal.{
  Decimal, bounded_decimal, bounded_integer, decimal_below, validate_decimal_bounds, ℤ,
}
use headless_blender_charact.Shared.Json.{Value, among}
use headless_blender_charact.Shared.Readers.{
  bounded_decimal_value, collect, decimal_in, enum, indexed_path,
}

-- A number that the bounds admit, between two others.
unfoldable pub within : Decimal → Decimal → Decimal → Bool
within minimum maximum d =
    passes (validate_decimal_bounds d root)
    && not (decimal_below d minimum)
    && not (decimal_below maximum d)

validate_paths :
    (d : Decimal) (p q : Text)
    → passes (validate_decimal_bounds d p) ≡ passes (validate_decimal_bounds d q)
unfolding validate_decimal_bounds passes
validate_paths Decimal.special p q = refl
validate_paths (Decimal.finite b c e) p q = simp (passes_then, passes_guard)

pub passes_unit : (m : Checked (Unit {0})) → passes m ≡ true → m ≡ accepted tt
unfolding passes
passes_unit (rejected e) h = cc
passes_unit (accepted u) h = refl

bounded_again :
    (d : Decimal) (p q : Text) (e : Decimal)
    → bounded_decimal d p ≡ accepted e
    → (e ≡ d) × (passes (validate_decimal_bounds d q) ≡ true)
unfolding bounded_decimal passes
bounded_again d p q e h =
    let (u, went, last) = bind_passed (validate_decimal_bounds d p) (λ _. accepted d) e h in
    (sym (accepted-injective last), validate_paths d q p ∙ ap passes went)

value_bounded :
    (v : Value) (p : Text) (e : Decimal)
    → bounded_decimal_value v p ≡ accepted e
    → passes (validate_decimal_bounds e root) ≡ true
unfolding bounded_decimal_value bounded_integer
value_bounded (Value.number d) p e h =
    let (same, bounded) = bounded_again d p root e h in rw same bounded
value_bounded (Value.integer b n) p e h =
    let (_, bounded_int) = reject_if_passed (leb (2 ^ 851) n) ContractCode.numeric_limit p _ e h in
    let (same, bounded) = bounded_again (Decimal.finite b n (ℤ.pos 0)) p root e bounded_int in
    rw same bounded
value_bounded Value.null p e h = cc
value_bounded (Value.boolean b) p e h = cc
value_bounded (Value.text s) p e h = cc
value_bounded (Value.array vs) p e h = cc
value_bounded (Value.object fs) p e h = cc

pub decimal_in-within :
    (v : Value) (p : Text) (lo hi d : Decimal)
    → decimal_in v p lo hi ≡ accepted d
    → within lo hi d ≡ true
unfolding decimal_in within
decimal_in-within v p lo hi d h =
    let (n, read, checked) = bind_passed (bounded_decimal_value v p) _ d h in
    let (inside, last) =
      reject_if_passed (decimal_below n lo || decimal_below hi n) ContractCode.number_out_of_range p
        (accepted n) d checked in
    let bounded = value_bounded v p n read in
    rw (sym (accepted-injective last)) (ground (arith, inside, bounded))

pub within-decimal_in :
    (p : Text) (lo hi d : Decimal)
    → within lo hi d ≡ true
    → decimal_in (Value.number d) p lo hi ≡ accepted d
unfolding within decimal_in bounded_decimal_value bounded_decimal
within-decimal_in p lo hi d h =
    let bounded : passes (validate_decimal_bounds d root) ≡ true = ground arith in
    let inside : (decimal_below d lo || decimal_below hi d) ≡ false = ground arith in
    rw (passes_unit (validate_decimal_bounds d p) (validate_paths d p root ∙ bounded))
      (rw inside refl)

pub enum-among :
    (v : Value) (p : Text) (choices : List Text) (s : Text)
    → enum v p choices ≡ accepted s
    → among s choices ≡ true
unfolding enum
enum-among (Value.text t) p choices s h =
    let (known, last) =
      reject_if_passed (not (among t choices)) ContractCode.invalid_enum p (accepted t) s h in
    rw (sym (accepted-injective last)) (ground (arith, known))
enum-among Value.null p choices s h = cc
enum-among (Value.boolean b) p choices s h = cc
enum-among (Value.number d) p choices s h = cc
enum-among (Value.integer b n) p choices s h = cc
enum-among (Value.array vs) p choices s h = cc
enum-among (Value.object fs) p choices s h = cc

pub among-enum :
    (p : Text) (choices : List Text) (s : Text)
    → among s choices ≡ true
    → enum (Value.text s) p choices ≡ accepted s
unfolding enum
among-enum p choices s h = rw h refl

-- Each text is new among those before it.
unfoldable pub fresh : List Text → List Text → Bool
unfolding among
fresh seen [] = true
fresh seen (s ∷ l) = not (among s seen) && fresh (seen ++ s ∷ []) l

-- What an array may hold once read: texts that are good, and all different.
pub collect-fresh :
    (read : Value → Text → Checked Text) (good : Text → Bool)
    → ((v : Value) (p s : Text) → read v p ≡ accepted s → good s ≡ true)
    → (path : Text) (index : ℕ) (seen : List Text) (vs : List Value) (r : List Text)
    → collect read path index seen vs ≡ accepted r
    → (l : List Text) × (r ≡ seen ++ l)
      × (all good l ≡ true)
      × (fresh seen l ≡ true)
      × (length l ≡ length vs)
unfolding collect fresh
collect-fresh read good reads path index seen [] r h =
    ([], sym (accepted-injective h) ∙ sym (append-nil seen), refl, refl, refl)
collect-fresh read good reads path index seen (v ∷ vs) r h =
    let (s, here, checked) = bind_passed (read v (indexed_path path index)) _ r h in
    let (new, rest) =
      reject_if_passed (among s seen) ContractCode.duplicate_item (indexed_path path index) _ r
        checked in
    let (l, shape, goods, news, size) =
      collect-fresh read good reads path (index + 1) (seen ++ s ∷ []) vs r rest in
    (
      s ∷ l,
      shape ∙ append_assoc seen (s ∷ []) l,
      ground (arith, reads v (indexed_path path index) s here, goods),
      ground (arith, new, news),
      ap suc size,
    )

pub fresh-collect :
    (read : Value → Text → Checked Text) (good : Text → Bool)
    → ((p s : Text) → good s ≡ true → read (Value.text s) p ≡ accepted s)
    → (path : Text) (index : ℕ) (seen l : List Text) → all good l ≡ true
    → fresh seen l ≡ true
    → collect read path index seen (map Value.text l) ≡ accepted (seen ++ l)
unfolding collect fresh
fresh-collect read good reads path index seen [] h k = ap accepted (sym (append-nil seen))
fresh-collect read good reads path index seen (s ∷ l) h k =
    let here : read (Value.text s) (indexed_path path index) ≡ accepted s =
      reads (indexed_path path index) s (ground arith) in
    let new : among s seen ≡ false = ground arith in
    rw here (
      rw new (
        fresh-collect read good reads path (index + 1) (seen ++ s ∷ []) l (ground arith)
          (ground arith)
        ∙ ap accepted (append_assoc seen (s ∷ []) l)))
