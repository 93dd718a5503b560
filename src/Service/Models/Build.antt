-- ===== src/Service/Models/Build.antt =====
-- `BuildRecord` of models.py and its `__post_init__`. Types rule out the `isinstance` failures.
use headless_blender_charact.Prelude.{
  Bool, Option, String, any, between, false, if◌then◌else◌, is_some, length, ltb, nat_eq, none, not,
  some, string_eq, true, xor, ℕ, ◌&&◌, ◌*◌, ◌==◌, ◌||◌,
}
use headless_blender_charact.Service.Errors.{Code, Result, err, failure, ok, raise_if, ◌>>◌}
use headless_blender_charact.Service.Patterns.{is_parent, object_key_pattern, parts_of}
use headless_blender_charact.Service.Contract.{
  Bytes, Datetime, Environment, Uuid, Validated, list_eq,
}
use headless_blender_charact.Service.Models.Status.{
  BuildStatus, is_status, is_terminal, require_safe_code, require_sha256,
}

abbrev pub max_published_bytes : ℕ
max_published_bytes = 2 * 1024 * 1024 * 1024

pub record BuildRecord : Type 0 where
  pub build_id : Uuid
  pub request_sha256 : String
  pub spec_sha256 : String
  pub canonical_request : Bytes
  pub status : BuildStatus
  pub state_version : ℕ
  pub max_attempts : ℕ
  pub cancel_requested_at : Option Datetime
  pub terminal_code : Option String
  pub manifest_object_key : Option String
  pub manifest_sha256 : Option String
  pub manifest_bytes : Option ℕ
  pub created_at : Datetime
  pub updated_at : Datetime
  pub finished_at : Option Datetime
  pub published_at : Option Datetime

-- `status in (FAILED, CANCELED, NEEDS_REVIEW)`
abbrev pub is_failure : BuildStatus → Bool
is_failure BuildStatus.failed = true
is_failure BuildStatus.canceled = true
is_failure BuildStatus.needs_review = true
is_failure _ = false

-- The stored bytes are a canonical request, and the digests are its own.
check_request_again : BuildRecord → Option Validated → Result (Unit {0})
check_request_again r none = err (failure Code.invalid_request_bytes)
check_request_again r (some v) = do
  raise_if (not (v.canonical_bytes == r.canonical_request)) (failure Code.invalid_request_bytes)
  raise_if (not (v.request_sha256 == r.request_sha256)) (failure Code.invalid_request_hash)
  raise_if (not (v.spec_sha256 == r.spec_sha256)) (failure Code.invalid_spec_hash)

unfoldable pub check_request : Environment → BuildRecord → Result (Unit {0})
unfolding check_request_again
check_request env r = do
  require_sha256 r.request_sha256
  require_sha256 r.spec_sha256
  raise_if (not (between 1 65536 (length r.canonical_request))) (failure Code.invalid_request_bytes)
  check_request_again r (env.validate_build_request r.canonical_request)

-- The manifest evidence of a success.
unfoldable pub check_evidence :
    Option String → Option String → Option ℕ → Option Datetime → Result (Unit {0})
check_evidence (some key) (some sha) (some size) (some _) = do
  require_sha256 sha
  raise_if (not (object_key_pattern key) || any is_parent (parts_of key))
      (failure Code.invalid_success_state)
  raise_if (not (between 1 max_published_bytes size)) (failure Code.invalid_success_state)
check_evidence _ _ _ _ = err (failure Code.invalid_success_state)

unfoldable pub check_manifest : BuildRecord → Result (Unit {0})
unfolding check_evidence
check_manifest r =
    if is_status r.status BuildStatus.succeeded
    then check_evidence r.manifest_object_key r.manifest_sha256 r.manifest_bytes r.published_at
    else raise_if
        (is_some r.manifest_object_key
          || is_some r.manifest_sha256
          || is_some r.manifest_bytes
          || is_some r.published_at)
        (failure Code.invalid_manifest_state)

unfoldable pub check_lifecycle : BuildRecord → Result (Unit {0})
unfolding xor
check_lifecycle r = do
  raise_if (not (between 1 5 r.max_attempts)) (failure Code.invalid_max_attempts)
  require_safe_code false r.terminal_code
  raise_if (ltb r.updated_at r.created_at) (failure Code.invalid_timestamp)
  raise_if (xor (is_terminal r.status) (is_some r.finished_at))
      (failure Code.invalid_terminal_state)
  raise_if (xor (is_failure r.status) (is_some r.terminal_code))
      (failure Code.invalid_terminal_state)

-- `BuildRecord.__post_init__`
unfoldable pub build_post_init : Environment → BuildRecord → Result (Unit {0})
unfolding check_request check_lifecycle check_manifest
build_post_init env r = do
  check_request env r
  check_lifecycle r
  check_manifest r
  raise_if (is_status r.status BuildStatus.canceled && not (is_some r.cancel_requested_at))
      (failure Code.invalid_canceled_state)

-- The constructor: the record, or what it raises.
unfoldable pub check_build : Environment → BuildRecord → Result BuildRecord
check_build env r = do build_post_init env r; ok r
