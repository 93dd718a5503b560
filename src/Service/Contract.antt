-- ===== src/Service/Contract.antt =====
-- What the service takes from elsewhere: the request contract of shared/character_spec.py
-- (`validate_build_request` on bytes), and the digests of Python's hashlib and hmac. Bytes are
-- numbers. A moment is its number of microseconds, timezone-aware, as `utc_now` returns it.
use headless_blender_charact.Prelude.{
  Bool, Eq, List, Option, String, [], arith, false, nat_eq, refl, some, string_eq, true, ℕ, ◌&&◌,
  ◌*◌, ◌==◌, ◌↔◌, ◌∷◌, ◌≡◌,
}
use headless_blender_charact.Service.Patterns.{sha256_pattern}

abbrev pub Bytes : Type 0
Bytes = List ℕ

-- `UUID`: its 128-bit number.
abbrev pub Uuid : Type 0
Uuid = ℕ

abbrev pub Datetime : Type 0
Datetime = ℕ

-- `timedelta(seconds=n)`
abbrev pub seconds : ℕ → ℕ
seconds n = n * 1000000

module _ {ℓ} {A : Type ℓ} ⦃e : Eq A⦄ where
  unfoldable pub same_list : List A → List A → Bool
  same_list [] [] = true
  same_list (x ∷ xs) (y ∷ ys) = x == y && same_list xs ys
  same_list _ _ = false

  pub same_list_sound : (xs ys : List A) → same_list xs ys ≡ true → xs ≡ ys
  unfolding same_list
  same_list_sound [] [] h = refl
  same_list_sound [] (y ∷ ys) h = cc
  same_list_sound (x ∷ xs) [] h = cc
  same_list_sound (x ∷ xs) (y ∷ ys) h = ground (arith, e.beq_iff x y, same_list_sound xs ys)

  pub same_list_self : (xs : List A) → same_list xs xs ≡ true
  unfolding same_list
  same_list_self [] = refl
  same_list_self (x ∷ xs) = ground (arith, e.beq_iff x x, same_list_self xs)

  pub same_list_iff : (xs ys : List A) → (same_list xs ys ≡ true) ↔ (xs ≡ ys)
  same_list_iff xs ys = (same_list_sound xs ys, λ p. rw p (same_list_self ys))

-- `bytes == bytes`
instance abbrev pub list_eq : Eq (List ℕ)
list_eq = record { beq = same_list; beq_iff = same_list_iff }

-- The parts of a validated `BuildRequest` that the service reads.
pub record Validated : Type 0 where
  pub request_sha256 : String
  pub spec_sha256 : String
  pub canonical_bytes : Bytes

-- `none` is a `ContractValidationError`.
pub record Environment : Type 0 where
  pub validate_build_request : Bytes → Option Validated
  -- `hashlib.sha256(data).hexdigest()`
  pub sha256_hex : Bytes → String
  -- `hmac.new(secret, key, hashlib.sha256).hexdigest()`
  pub hmac_sha256_hex : Bytes → Bytes → String

-- What the code relies on: canonical bytes validate to themselves, and digests are hexadecimal.
pub record IsLawful (env : Environment) : Type 0 where
  pub canonical_again :
      (payload : Bytes) (v : Validated)
      → env.validate_build_request payload ≡ some v
      → env.validate_build_request v.canonical_bytes ≡ some v
  pub digest_hex : (payload : Bytes) → sha256_pattern (env.sha256_hex payload) ≡ true
