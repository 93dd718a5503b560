-- ===== src/Service/Worker/Acceptance.antt =====
-- worker.py's `exit_policy` against the checks of state.py's `complete_attempt`.
use headless_blender_charact.Prelude.{
  Bool, between, false, if◌then◌else◌, nat_eq, not, refl, some, string_eq, true, ℕ, ◌&&◌, ◌==◌, ◌≡◌,
}
use headless_blender_charact.Service.Errors.{ok}
use headless_blender_charact.Service.Patterns.{
  headed, is_digit, is_lower, is_lower_alnum, safe_code_pattern,
}
use headless_blender_charact.Service.Models.Status.{
  AttemptStatus, is_attempt_status, require_safe_code,
}
use headless_blender_charact.Service.State.Completion.{is_outcome, is_retryable_outcome}
use headless_blender_charact.Service.Worker.Policy.{ExitPolicy, exit_policy, policy}

pub record IsAccepted (p : ExitPolicy) : Type 0 where
  pub taken : is_outcome p.status ≡ true
  pub not_canceled : is_attempt_status p.status AttemptStatus.canceled ≡ false
  pub safe_reason : require_safe_code true (some p.reason_code) ≡ ok tt
  pub retry_allowed : p.retryable && not (is_retryable_outcome p.status) ≡ false

choice-IsAccepted :
    (b : Bool) (p q : ExitPolicy) → IsAccepted p → IsAccepted q → IsAccepted (if b then p else q)
choice-IsAccepted true p q x y = x
choice-IsAccepted false p q x y = y

-- Whatever the exit code, the outcome is one that `complete_attempt` takes, it is not CANCELED, its
-- reason is a safe code, and it asks for a retry only with a status that may be retried.
pub exit_policy-IsAccepted : (n : ℕ) → IsAccepted (exit_policy n)
unfolding exit_policy require_safe_code safe_code_pattern is_lower is_lower_alnum headed is_digit
exit_policy-IsAccepted n =
    choice-IsAccepted (n == 11) (policy AttemptStatus.needs_review "builder_needs_review" false) _
      (record { taken = refl; not_canceled = refl; safe_reason = refl; retry_allowed = refl })
      (choice-IsAccepted (n == 124) (policy AttemptStatus.timed_out "builder_timeout" true) _
        (record { taken = refl; not_canceled = refl; safe_reason = refl; retry_allowed = refl })
        (choice-IsAccepted (n == 2) (policy AttemptStatus.failed "builder_cli_contract" false) _
          (record { taken = refl; not_canceled = refl; safe_reason = refl; retry_allowed = refl })
          (choice-IsAccepted (n == 3) (policy AttemptStatus.failed "builder_invalid_request" false)
            _
            (record { taken = refl; not_canceled = refl; safe_reason = refl; retry_allowed = refl })
            (choice-IsAccepted (n == 4) (policy AttemptStatus.failed "builder_filesystem" true) _
              (record {
                taken = refl;
                not_canceled = refl;
                safe_reason = refl;
                retry_allowed = refl;
              })
              (choice-IsAccepted (n == 10) (policy AttemptStatus.failed "blender_failed" true) _
                (record {
                  taken = refl;
                  not_canceled = refl;
                  safe_reason = refl;
                  retry_allowed = refl;
                })
                (choice-IsAccepted (n == 12) (policy AttemptStatus.failed "builder_internal" true) _
                  (record {
                    taken = refl;
                    not_canceled = refl;
                    safe_reason = refl;
                    retry_allowed = refl;
                  })
                  (choice-IsAccepted (between 128 255 n)
                    (policy AttemptStatus.failed "builder_signaled" true) _
                    (record {
                      taken = refl;
                      not_canceled = refl;
                      safe_reason = refl;
                      retry_allowed = refl;
                    })
                    ((record {
                      taken = refl;
                      not_canceled = refl;
                      safe_reason = refl;
                      retry_allowed = refl;
                    })))))))))
