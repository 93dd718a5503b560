-- ===== src/Service/Models/Attempt.antt =====
-- `AttemptRecord` of models.py and its `__post_init__`.
use headless_blender_charact.Prelude.{
  Bool, Option, String, between, false, is_some, leb, none, not, some, xor, ℕ,
}
use headless_blender_charact.Service.Errors.{Code, Result, failure, ok, raise_if, ◌>>◌}
use headless_blender_charact.Service.Patterns.{worker_id_pattern}
use headless_blender_charact.Service.Contract.{Datetime, Uuid}
use headless_blender_charact.Service.Models.Status.{
  AttemptStatus, is_active, require_safe_code, require_sha256,
}

pub record AttemptRecord : Type 0 where
  pub attempt_id : Uuid
  pub build_id : Uuid
  pub attempt_number : ℕ
  pub status : AttemptStatus
  pub worker_id : String
  pub lease_token_sha256 : String
  pub lease_expires_at : Datetime
  pub heartbeat_at : Datetime
  pub started_at : Option Datetime
  pub finished_at : Option Datetime
  pub exit_code : Option ℕ
  pub reason_code : Option String

abbrev exit_code_outside : Option ℕ → Bool
exit_code_outside none = false
exit_code_outside (some n) = not (leb n 255)

-- `AttemptRecord.__post_init__`
unfoldable pub attempt_post_init : AttemptRecord → Result (Unit {0})
unfolding xor
attempt_post_init a = do
  raise_if (not (between 1 5 a.attempt_number)) (failure Code.invalid_attempt_number)
  raise_if (not (worker_id_pattern a.worker_id)) (failure Code.invalid_worker_id)
  require_sha256 a.lease_token_sha256
  raise_if (xor (not (is_active a.status)) (is_some a.finished_at))
      (failure Code.invalid_attempt_state)
  raise_if (exit_code_outside a.exit_code) (failure Code.invalid_exit_code)
  require_safe_code false a.reason_code

unfoldable pub check_attempt : AttemptRecord → Result AttemptRecord
check_attempt a = do attempt_post_init a; ok a
