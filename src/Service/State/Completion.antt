-- ===== src/Service/State/Completion.antt =====
-- `complete_attempt` of state.py.
use headless_blender_charact.Prelude.{
  Bool, Option, String, false, if◌then◌else◌, is_some, ltb, none, not, some, true, ℕ, ◌&&◌, ◌+◌,
}
use headless_blender_charact.Service.Errors.{Code, Result, conflict, ok, raise_if, ◌>>=◌, ◌>>◌}
use headless_blender_charact.Service.Contract.{Datetime, Environment, Uuid}
use headless_blender_charact.Service.Models.Status.{
  AttemptStatus, BuildStatus, is_active, is_attempt_status, is_status, is_terminal,
  require_safe_code, status_value,
}
use headless_blender_charact.Service.Models.Build.{BuildRecord, check_build}
use headless_blender_charact.Service.Models.Attempt.{AttemptRecord, check_attempt}
use headless_blender_charact.Service.Models.Event.{BuildEvent}
use headless_blender_charact.Service.State.Store.{
  Exec, Store, append_event, append_outbox, attempt_for, get_build, lease_digest, pure, reading,
  retry_delay, write_attempt, write_build, ◌⨾◌,
}
use headless_blender_charact.Service.State.Leasing.{require_lease}

pub record AttemptCompletion : Type 0 where
  pub build : BuildRecord
  pub attempt : AttemptRecord
  pub requeued : Bool
  pub exhausted : Bool

-- `status in (FAILED, NEEDS_REVIEW, CANCELED, TIMED_OUT)`
abbrev pub is_outcome : AttemptStatus → Bool
is_outcome AttemptStatus.failed = true
is_outcome AttemptStatus.needs_review = true
is_outcome AttemptStatus.canceled = true
is_outcome AttemptStatus.timed_out = true
is_outcome _ = false

-- `status in (FAILED, TIMED_OUT)`
abbrev pub is_retryable_outcome : AttemptStatus → Bool
is_retryable_outcome AttemptStatus.failed = true
is_retryable_outcome AttemptStatus.timed_out = true
is_retryable_outcome _ = false

abbrev pub operator_reason : String
operator_reason = "canceled_by_operator"

-- `can_retry`
abbrev pub can_retry : Bool → AttemptStatus → Bool → ℕ → ℕ → Bool
can_retry cancel_wins status retryable number limit =
    not cancel_wins && is_retryable_outcome status && retryable && ltb number limit

-- The status of the build after an attempt with that final status, without a retry.
abbrev pub outcome_target : AttemptStatus → BuildStatus
outcome_target AttemptStatus.canceled = BuildStatus.canceled
outcome_target AttemptStatus.needs_review = BuildStatus.needs_review
outcome_target _ = BuildStatus.failed

-- `now if terminal else None`, `reason if terminal else None`
abbrev pub when : {A : Type 0} → Bool → A → Option A
when true a = some a
when false a = none

-- The outcome, of an attempt whose lease holds and whose build runs.
unfoldable pub completion_of :
    Environment
    → Datetime
    → AttemptRecord
    → BuildRecord
    → AttemptStatus
    → Option ℕ
    → String
    → Bool
    → Result AttemptCompletion
completion_of env now a build status exit_code reason_code retryable = do
  let cancel_wins = is_some build.cancel_requested_at
  raise_if (is_attempt_status status AttemptStatus.canceled && not cancel_wins)
      (conflict Code.cancel_requires_request)
  let final_status = if cancel_wins then AttemptStatus.canceled else status
  let final_reason = if cancel_wins then operator_reason else reason_code
  let retry = can_retry cancel_wins status retryable a.attempt_number build.max_attempts
  let target = if retry then BuildStatus.queued else outcome_target final_status
  let terminal = is_terminal target
  attempt ← check_attempt (record a {
    status = final_status;
    finished_at = some now;
    exit_code = exit_code;
    reason_code = some final_reason;
  })
  updated ← check_build env (record build {
    status = target;
    state_version = build.state_version + 1;
    terminal_code = when terminal final_reason;
    updated_at = now;
    finished_at = when terminal now;
  })
  ok (record {
    build = updated;
    attempt = attempt;
    requeued = retry;
    exhausted = not retry && retryable && not cancel_wins && is_retryable_outcome status;
  })

-- The completion, and the delay before a retry.
unfoldable pub complete_plan :
    Environment
    → Datetime
    → Uuid
    → String
    → AttemptStatus
    → Option ℕ
    → String
    → Bool
    → ℕ
    → Store
    → Result (AttemptCompletion × ℕ)
unfolding completion_of
complete_plan env now attempt_id lease_token status exit_code reason_code retryable delay_seconds
      s =
    do
      token_sha256 ← lease_digest env lease_token
      delay ← retry_delay delay_seconds
      raise_if (not (is_outcome status)) (conflict Code.invalid_attempt_outcome)
      require_safe_code true (some reason_code)
      a ← attempt_for attempt_id s
      require_lease is_active a token_sha256 now
      build ← get_build a.build_id s
      raise_if (not (is_status build.status BuildStatus.running)) (conflict Code.invalid_attempt)
      done ← completion_of env now a build status exit_code reason_code retryable
      ok (done, delay)

-- `"retry_queued" if can_retry else target.value`
abbrev pub completion_type : Bool → BuildStatus → String
completion_type retry target = if retry then "retry_queued" else status_value target

-- The event of a completion or of a recovery.
abbrev pub completion_event : AttemptCompletion → ℕ → BuildEvent
completion_event c n = record {
  build_id = c.build.build_id;
  sequence = n;
  event_type = completion_type c.requeued c.build.status;
  from_status = some BuildStatus.running;
  to_status = c.build.status;
  reason_code = c.attempt.reason_code;
  created_at = c.build.updated_at;
  attempt_id = some c.attempt.attempt_id;
}

-- `if can_retry: self._append_outbox(…)`
unfoldable pub requeue_if : Bool → Uuid → ℕ → Datetime → Exec (Unit {0})
requeue_if false build_id build_version available_at = pure tt
requeue_if true build_id build_version available_at =
    append_outbox build_id build_version available_at

unfoldable pub complete_commit : Uuid → AttemptCompletion × ℕ → Exec AttemptCompletion
complete_commit attempt_id (c, delay) =
    write_attempt attempt_id c.attempt
    ⨾ write_build c.build.build_id c.build
    ⨾ append_event c.build.build_id (completion_event c)
    ⨾ requeue_if c.requeued c.build.build_id c.build.state_version (c.build.updated_at + delay)
    ⨾ pure c

unfoldable pub complete_attempt :
    Environment
    → Datetime
    → Uuid
    → String
    → AttemptStatus
    → Option ℕ
    → String
    → Bool
    → ℕ
    → Exec AttemptCompletion
complete_attempt env now attempt_id lease_token status exit_code reason_code retryable
      delay_seconds =
    reading
      (complete_plan env now attempt_id lease_token status exit_code reason_code retryable
        delay_seconds)
      (complete_commit attempt_id)
