-- ===== src/Service/Dict.antt =====
-- Python's `dict`, which the service's tables use: an association list in insertion order. A write
-- to a key that is present keeps its place. The service iterates over `values()`.
use headless_blender_charact.Prelude.{
  Bool, Eq, List, Option, [], all, arith, bit, count, false, if◌then◌else◌, is_some, nat_eq, none,
  refl, some, string_eq, true, ◌+◌, ◌==◌, ◌∷◌, ◌≡◌, ◌≤◌,
}

abbrev pub Dict {ℓ κ} : Type ℓ → Type κ → Type (ℓ ⊔ κ)
Dict K V = List (K × V)

module _ {ℓ κ} {K : Type ℓ} {V : Type κ} where
  -- `d.values()`
  unfoldable pub values : Dict K V → List V
  values [] = []
  values ((_, v) ∷ d) = v ∷ values d

module _ {ℓ κ} {K : Type ℓ} {V : Type κ} ⦃e : Eq K⦄ where
  -- `d.get(k)`
  unfoldable pub lookup : K → Dict K V → Option V
  lookup k [] = none
  lookup k ((j, v) ∷ d) = if j == k then some v else lookup k d

  -- `d[k] = v`
  unfoldable pub insert : K → V → Dict K V → Dict K V
  insert k v [] = (k, v) ∷ []
  insert k v ((j, w) ∷ d) = if j == k then (j, v) ∷ d else (j, w) ∷ insert k v d

  -- `d.pop(k, None)`
  unfoldable pub remove : K → Dict K V → Dict K V
  remove k [] = []
  remove k ((j, v) ∷ d) = let rest = remove k d in if j == k then d else (j, v) ∷ rest

  -- `k in d`
  abbrev pub member : K → Dict K V → Bool
  member k d = is_some (lookup k d)

  pub lookup-insert :
      (k j : K) (v : V) (d : Dict K V)
      → lookup j (insert k v d) ≡ (if k == j then some v else lookup j d)
  unfolding lookup insert
  lookup-insert k j v [] = refl
  lookup-insert k j v ((i, w) ∷ d) =
      ground (arith, e.beq_iff k j, e.beq_iff i k, e.beq_iff i j, lookup-insert k j v d)

  pub lookup-insert_self : (k : K) (v : V) (d : Dict K V) → lookup k (insert k v d) ≡ some v
  lookup-insert_self k v d = ground (arith, lookup-insert k k v d, e.beq_iff k k)

  -- A write exchanges one value of the table for another, or adds one.
  pub count-insert :
      (p : V → Bool) (k : K) (v old : V) (d : Dict K V)
      → lookup k d ≡ some old
      → count p (values (insert k v d)) + bit (p old) ≡ count p (values d) + bit (p v)
  unfolding lookup insert values
  count-insert p k v old [] h = ground arith
  count-insert p k v old ((j, w) ∷ d) h = ground (arith, count-insert p k v old d)

  pub count-insert_new :
      (p : V → Bool) (k : K) (v : V) (d : Dict K V)
      → lookup k d ≡ none
      → count p (values (insert k v d)) ≡ count p (values d) + bit (p v)
  unfolding lookup insert values
  count-insert_new p k v [] h = ground arith
  count-insert_new p k v ((j, w) ∷ d) h = ground (arith, count-insert_new p k v d)

  -- Writing a value that fails a test never raises the number of values that pass it.
  pub count-insert_le :
      (p : V → Bool) (k : K) (v : V) (d : Dict K V)
      → p v ≡ false
      → count p (values (insert k v d)) ≤ count p (values d)
  unfolding insert values
  count-insert_le p k v [] h = ground arith
  count-insert_le p k v ((j, w) ∷ d) h = ground (arith, count-insert_le p k v d)

  -- Whatever is looked up is one of the values.
  pub all-lookup :
      (p : V → Bool) (k : K) (v : V) (d : Dict K V)
      → all p (values d) ≡ true
      → lookup k d ≡ some v
      → p v ≡ true
  unfolding lookup values
  all-lookup p k v [] h l = ground arith
  all-lookup p k v ((j, w) ∷ d) h l = ground (arith, all-lookup p k v d)

  pub all-insert :
      (p : V → Bool) (k : K) (v : V) (d : Dict K V)
      → all p (values d) ≡ true
      → p v ≡ true
      → all p (values (insert k v d)) ≡ true
  unfolding insert values
  all-insert p k v [] h l = ground arith
  all-insert p k v ((j, w) ∷ d) h l = ground (arith, all-insert p k v d)
