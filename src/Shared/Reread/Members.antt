-- ===== src/Shared/Reread/Members.antt =====
-- The members of a canonical object are in order, so that sorting them changes nothing, and all
-- different, so that reading them finds no duplicate key, shared/json_contract.py.
use headless_blender_charact.Prelude.{
  Bool, [], all, ap, append-nil, append_assoc, arith, false, insert_by, nat_eq, not, refl, sort_by,
  string_eq, sym, true, ◌&&◌, ◌++◌, ◌==◌, ◌||◌, ◌∙◌, ◌∷◌, ◌≡◌,
}
use headless_blender_charact.Shared.Rejection.{Text, accepted}
use headless_blender_charact.Service.Contract.{list_eq}
use headless_blender_charact.Service.Dict.{Dict, insert, lookup, member}
use headless_blender_charact.Shared.Json.{Value, duplicates_from, object_without_duplicates}
use headless_blender_charact.Shared.Json.Canonical.{key_leb, text_leb}

-- Each key is below those behind it.
unfoldable pub ascending_keys {ℓ} : {A : Type ℓ} → Dict Text A → Bool
ascending_keys [] = true
ascending_keys ((k, _) ∷ d) = all (λ j. text_leb k j.0 && not (j.0 == k)) d && ascending_keys d

insert_first {ℓ} :
    {A : Type ℓ} (m : Text × A) (d : Dict Text A)
    → all (λ j. text_leb m.0 j.0 && not (j.0 == m.0)) d ≡ true
    → insert_by key_leb m d ≡ m ∷ d
insert_first m [] h = refl
insert_first m (n ∷ d) h = ground arith

pub sorted_keys {ℓ} :
    {A : Type ℓ} (d : Dict Text A) → ascending_keys d ≡ true → sort_by key_leb d ≡ d
unfolding ascending_keys
sorted_keys [] h = refl
sorted_keys (m ∷ d) h =
    ap (insert_by key_leb m) (sorted_keys d (ground arith)) ∙ insert_first m d (ground arith)

insert_new {ℓ} :
    {A : Type ℓ} (k : Text) (v : A) (d : Dict Text A)
    → member k d ≡ false
    → insert k v d ≡ d ++ (k, v) ∷ []
unfolding insert lookup
insert_new k v [] h = refl
insert_new k v ((j, w) ∷ d) h = ground (arith, insert_new k v d)

member_append {ℓ} :
    {A : Type ℓ} (k j : Text) (v : A) (d : Dict Text A)
    → member k (d ++ (j, v) ∷ []) ≡ (member k d || j == k)
unfolding lookup
member_append k j v [] = ground arith
member_append k j v ((i, w) ∷ d) = ground (arith, member_append k j v d)

-- the keys are new to what was read before
new_keys {ℓ} : {A : Type ℓ} → Dict Text A → Dict Text A → Bool
new_keys seen d = all (λ j. not (member j.0 seen)) d

new_keys-snoc {ℓ} :
    {A : Type ℓ} (k : Text) (v : A) (seen d : Dict Text A)
    → new_keys seen d ≡ true
    → all (λ j. text_leb k j.0 && not (j.0 == k)) d ≡ true
    → new_keys (seen ++ (k, v) ∷ []) d ≡ true
unfolding new_keys
new_keys-snoc k v seen [] h g = refl
new_keys-snoc k v seen (j ∷ d) h g = ground (
  arith,
  member_append j.0 k v seen,
  list_eq.beq_iff j.0 k,
  list_eq.beq_iff k j.0,
  new_keys-snoc k v seen d,
)

duplicates_none :
    (seen d : Dict Text Value)
    → ascending_keys d ≡ true
    → new_keys seen d ≡ true
    → duplicates_from seen d ≡ accepted (seen ++ d)
unfolding duplicates_from ascending_keys new_keys
duplicates_none seen [] h g = ap accepted (sym (append-nil seen))
duplicates_none seen ((k, v) ∷ d) h g =
    let unseen : member k seen ≡ false = ground arith in
    rw unseen (
      ap (λ s. duplicates_from s d) (insert_new k v seen unseen)
      ∙ duplicates_none (seen ++ (k, v) ∷ []) d (ground arith)
          (new_keys-snoc k v seen d (ground arith) (ground arith))
      ∙ ap accepted (append_assoc seen ((k, v) ∷ []) d))

new_at_first : (d : Dict Text Value) → new_keys [] d ≡ true
unfolding new_keys lookup
new_at_first [] = refl
new_at_first (j ∷ d) = new_at_first d

pub object_without_duplicates-ascending :
    (d : Dict Text Value) → ascending_keys d ≡ true → object_without_duplicates d ≡ accepted d
unfolding object_without_duplicates
object_without_duplicates-ascending d h = duplicates_none [] d h (new_at_first d)
