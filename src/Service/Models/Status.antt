-- ===== src/Service/Models/Status.antt =====
-- The statuses and the transition policy of models.py.
use headless_blender_charact.Prelude.{
  Bool, Option, String, arith, false, nat_eqb, none, not, refl, some, true, ℕ, ◌↔◌, ◌≡◌,
}
use headless_blender_charact.Service.Errors.{Code, Result, conflict, failure, raise_if}
use headless_blender_charact.Service.Patterns.{safe_code_pattern, sha256_pattern}

pub data BuildStatus : Type 0 where
  validating queued running geometry_qa rendering succeeded failed canceled needs_review :
      BuildStatus

pub data AttemptStatus : Type 0 where
  leased running succeeded failed needs_review canceled timed_out lost : AttemptStatus

-- Its place in the declaration, for `is`.
abbrev pub build_rank : BuildStatus → ℕ
build_rank BuildStatus.validating = 0
build_rank BuildStatus.queued = 1
build_rank BuildStatus.running = 2
build_rank BuildStatus.geometry_qa = 3
build_rank BuildStatus.rendering = 4
build_rank BuildStatus.succeeded = 5
build_rank BuildStatus.failed = 6
build_rank BuildStatus.canceled = 7
build_rank BuildStatus.needs_review = 8

abbrev pub attempt_rank : AttemptStatus → ℕ
attempt_rank AttemptStatus.leased = 0
attempt_rank AttemptStatus.running = 1
attempt_rank AttemptStatus.succeeded = 2
attempt_rank AttemptStatus.failed = 3
attempt_rank AttemptStatus.needs_review = 4
attempt_rank AttemptStatus.canceled = 5
attempt_rank AttemptStatus.timed_out = 6
attempt_rank AttemptStatus.lost = 7

-- `a is b`
abbrev pub is_status : BuildStatus → BuildStatus → Bool
is_status a b = nat_eqb (build_rank a) (build_rank b)

abbrev pub is_attempt_status : AttemptStatus → AttemptStatus → Bool
is_attempt_status a b = nat_eqb (attempt_rank a) (attempt_rank b)

pub is_status_iff : (a b : BuildStatus) → (is_status a b ≡ true) ↔ (a ≡ b)
is_status_iff a b = (λ h. ground arith, λ h. ground arith)

-- `status in TERMINAL_BUILD_STATUSES`
abbrev pub is_terminal : BuildStatus → Bool
is_terminal BuildStatus.succeeded = true
is_terminal BuildStatus.failed = true
is_terminal BuildStatus.canceled = true
is_terminal BuildStatus.needs_review = true
is_terminal _ = false

-- `status in (LEASED, RUNNING)`
abbrev pub is_active : AttemptStatus → Bool
is_active AttemptStatus.leased = true
is_active AttemptStatus.running = true
is_active _ = false

-- `target in ALLOWED_BUILD_TRANSITIONS[current]`
unfoldable pub allowed : BuildStatus → BuildStatus → Bool
allowed BuildStatus.validating BuildStatus.queued = true
allowed BuildStatus.validating BuildStatus.failed = true
allowed BuildStatus.validating BuildStatus.canceled = true
allowed BuildStatus.queued BuildStatus.running = true
allowed BuildStatus.queued BuildStatus.canceled = true
allowed BuildStatus.running BuildStatus.queued = true
allowed BuildStatus.running BuildStatus.geometry_qa = true
allowed BuildStatus.running BuildStatus.failed = true
allowed BuildStatus.running BuildStatus.canceled = true
allowed BuildStatus.running BuildStatus.needs_review = true
allowed BuildStatus.geometry_qa BuildStatus.rendering = true
allowed BuildStatus.geometry_qa BuildStatus.failed = true
allowed BuildStatus.geometry_qa BuildStatus.canceled = true
allowed BuildStatus.geometry_qa BuildStatus.needs_review = true
allowed BuildStatus.rendering BuildStatus.failed = true
allowed BuildStatus.rendering BuildStatus.canceled = true
allowed BuildStatus.rendering BuildStatus.needs_review = true
allowed _ _ = false

unfoldable pub require_transition : BuildStatus → BuildStatus → Result (Unit {0})
require_transition current target =
    raise_if (not (allowed current target)) (conflict Code.invalid_transition)

-- `BuildStatus.value`
unfoldable pub status_value : BuildStatus → String
status_value BuildStatus.validating = "validating"
status_value BuildStatus.queued = "queued"
status_value BuildStatus.running = "running"
status_value BuildStatus.geometry_qa = "geometry_qa"
status_value BuildStatus.rendering = "rendering"
status_value BuildStatus.succeeded = "succeeded"
status_value BuildStatus.failed = "failed"
status_value BuildStatus.canceled = "canceled"
status_value BuildStatus.needs_review = "needs_review"

-- Every status is a safe code, so an event can bear it as its type.
pub status_value_safe : (s : BuildStatus) → safe_code_pattern (status_value s) ≡ true
unfolding status_value safe_code_pattern
status_value_safe BuildStatus.validating = refl
status_value_safe BuildStatus.queued = refl
status_value_safe BuildStatus.running = refl
status_value_safe BuildStatus.geometry_qa = refl
status_value_safe BuildStatus.rendering = refl
status_value_safe BuildStatus.succeeded = refl
status_value_safe BuildStatus.failed = refl
status_value_safe BuildStatus.canceled = refl
status_value_safe BuildStatus.needs_review = refl

-- `require_sha256`, `require_safe_code`
unfoldable pub require_sha256 : String → Result (Unit {0})
require_sha256 value = raise_if (not (sha256_pattern value)) (failure Code.invalid_sha256)

unfoldable pub require_safe_code : Bool → Option String → Result (Unit {0})
require_safe_code required none = raise_if required (failure Code.invalid_reason_code)
require_safe_code required (some value) =
    raise_if (not (safe_code_pattern value)) (failure Code.invalid_reason_code)
