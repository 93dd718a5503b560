-- ===== src/Service/Worker/Policy.antt =====
-- worker.py: the meaning of the builder's exit codes, and the outcomes it reports.
use headless_blender_charact.Prelude.{
  Bool, Option, String, between, false, if◌then◌else◌, nat_eq, some, string_eq, true, ℕ, ◌==◌,
}
use headless_blender_charact.Service.Models.Status.{AttemptStatus}

pub record ExitPolicy : Type 0 where
  pub status : AttemptStatus
  pub reason_code : String
  pub retryable : Bool

abbrev pub policy : AttemptStatus → String → Bool → ExitPolicy
policy status reason_code retryable = record {
  status = status;
  reason_code = reason_code;
  retryable = retryable;
}

unfoldable pub exit_policy : ℕ → ExitPolicy
exit_policy exit_code =
    if exit_code == 11
    then policy AttemptStatus.needs_review "builder_needs_review" false
    else if exit_code == 124
    then policy AttemptStatus.timed_out "builder_timeout" true
    else if exit_code == 2
    then policy AttemptStatus.failed "builder_cli_contract" false
    else if exit_code == 3
    then policy AttemptStatus.failed "builder_invalid_request" false
    else if exit_code == 4
    then policy AttemptStatus.failed "builder_filesystem" true
    else if exit_code == 10
    then policy AttemptStatus.failed "blender_failed" true
    else if exit_code == 12
    then policy AttemptStatus.failed "builder_internal" true
    else if between 128 255 exit_code
    then policy AttemptStatus.failed "builder_signaled" true
    else policy AttemptStatus.failed "builder_failed" true

-- How a result is to be recorded, unless the artifacts are to be published or the lease is lost.
pub record Outcome : Type 0 where
  pub outcome_status : AttemptStatus
  pub outcome_exit_code : Option ℕ
  pub outcome_reason : String
  pub outcome_retryable : Bool

abbrev pub outcome : AttemptStatus → Option ℕ → String → Bool → Outcome
outcome status exit_code reason_code retryable = record {
  outcome_status = status;
  outcome_exit_code = exit_code;
  outcome_reason = reason_code;
  outcome_retryable = retryable;
}

-- The four completions of worker.py that do not depend on the exit policy.
abbrev pub canceled_outcome : ℕ → Outcome
canceled_outcome exit_code =
    outcome AttemptStatus.canceled (some exit_code) "canceled_by_operator" false

abbrev pub timeout_outcome : Outcome
timeout_outcome = outcome AttemptStatus.timed_out (some 124) "builder_timeout" true

abbrev pub failed_outcome : Option ℕ → String → Outcome
failed_outcome exit_code reason_code = outcome AttemptStatus.failed exit_code reason_code true

abbrev pub policy_outcome : ℕ → Outcome
policy_outcome exit_code =
    outcome (exit_policy exit_code).status (some exit_code) (exit_policy exit_code).reason_code
      (exit_policy exit_code).retryable
