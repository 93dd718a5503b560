-- ===== src/Service/Idempotency.antt =====
-- service/src/hbcb_service/idempotency.py: request fingerprints and Idempotency-Key digests.
use headless_blender_charact.Prelude.{
  Option, String, any, between, length, ltb, nat_eq, none, not, some, string_eq, ◌==◌, ◌||◌,
}
use headless_blender_charact.Service.Errors.{
  Code, ErrorClass, Result, contract_error, err, failure, ok, raise_if, raised, ◌>>=◌, ◌>>◌,
}
use headless_blender_charact.Service.Patterns.{codes, idempotency_key_pattern, sha256_pattern}
use headless_blender_charact.Service.Contract.{Bytes, Environment, Validated, list_eq}

pub record RequestFingerprint : Type 0 where
  pub request_sha256 : String
  pub spec_sha256 : String
  pub canonical_request : Bytes

unfoldable pub check_validated : RequestFingerprint → Option Validated → Result RequestFingerprint
check_validated f none = err (failure Code.invalid_fingerprint)
check_validated f (some v) = do
  raise_if (not (v.canonical_bytes == f.canonical_request)) (failure Code.invalid_fingerprint)
  raise_if (not (v.request_sha256 == f.request_sha256)) (failure Code.invalid_fingerprint)
  raise_if (not (v.spec_sha256 == f.spec_sha256)) (failure Code.invalid_fingerprint)
  ok f

-- `RequestFingerprint.__post_init__`
unfoldable pub check_fingerprint : Environment → RequestFingerprint → Result RequestFingerprint
unfolding check_validated
check_fingerprint env f = do
  raise_if (not (sha256_pattern f.request_sha256)) (failure Code.invalid_fingerprint)
  raise_if (not (sha256_pattern f.spec_sha256)) (failure Code.invalid_fingerprint)
  raise_if (not (between 1 65536 (length f.canonical_request))) (failure Code.invalid_fingerprint)
  check_validated f (env.validate_build_request f.canonical_request)

unfoldable pub fingerprint_of : Environment → Option Validated → Result RequestFingerprint
unfolding check_fingerprint
fingerprint_of env none = err contract_error
fingerprint_of env (some v) = check_fingerprint env (record {
  request_sha256 = v.request_sha256;
  spec_sha256 = v.spec_sha256;
  canonical_request = v.canonical_bytes;
})

-- `RequestFingerprint.from_request`, of a request as bytes
unfoldable pub from_request : Environment → Bytes → Result RequestFingerprint
unfolding fingerprint_of
from_request env payload = fingerprint_of env (env.validate_build_request payload)

unfoldable pub validate_idempotency_key : String → Result Bytes
validate_idempotency_key value = do
  raise_if (any (λ c. ltb 127 c) (codes value)) (failure Code.invalid_idempotency_key)
  raise_if (not (between 8 128 (length (codes value)))) (failure Code.invalid_idempotency_key)
  raise_if (not (idempotency_key_pattern value)) (failure Code.invalid_idempotency_key)
  ok (codes value)

unfoldable pub digest_idempotency_key : Environment → Bytes → String → Result String
unfolding validate_idempotency_key
digest_idempotency_key env secret value = do
  key ← validate_idempotency_key value
  raise_if (not (between 32 128 (length secret))) (failure Code.invalid_idempotency_secret)
  ok (env.hmac_sha256_hex secret key)

unfoldable pub require_same_request : String → String → Result (Unit {0})
require_same_request existing supplied = do
  raise_if (not (sha256_pattern existing) || not (sha256_pattern supplied))
      (failure Code.invalid_fingerprint)
  raise_if (not (existing == supplied))
      (raised ErrorClass.idempotency_conflict Code.idempotency_conflict)
