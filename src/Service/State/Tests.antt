-- ===== src/Service/State/Tests.antt =====
-- Runs of the state store of state.py on concrete calls, and the theorems of its modules at them.
use headless_blender_charact.Prelude.{
  List, [], false, if◌then◌else◌, is_some, length, nat_eq, none, refl, some, string_eq, true, ◌+◌,
  ◌<◌, ◌∷◌, ◌≡◌, ◌≤◌, ◌⊎◌,
}
use headless_blender_charact.Service.State.Fixtures.{
  after, cancel_calls, canceled_build, counting, first_calls, leased, leased_build_run, more_calls,
  run, running_build, test_env, test_settings, token_a,
}
use headless_blender_charact.Service.Errors.{ok}
use headless_blender_charact.Service.Contract.{seconds}
use headless_blender_charact.Service.Dict.{insert, lookup}
use headless_blender_charact.Service.Models.Status.{AttemptStatus, BuildStatus, is_attempt_status}
use headless_blender_charact.Service.Models.Event.{BuildEvent}
use headless_blender_charact.Service.State.Store.{Store, new_outbox, next_dispatch_count}
use headless_blender_charact.Service.State.Submit.{queued_event, validated_event}
use headless_blender_charact.Service.State.Leasing.{AttemptHeartbeat, heartbeat_attempt}
use headless_blender_charact.Service.State.Completion.{
  AttemptCompletion, complete_attempt, is_retryable_outcome,
}
use headless_blender_charact.Service.State.Outbox.{
  dispatch_all, dispatch_arguments, dispatch_checked, dispatch_one, dispatch_outbox, dispatch_rest,
  dispatch_row, due_rows, handed_on, outbox_in_order, store_row,
}
use headless_blender_charact.Service.State.Fence.{live_count}
use headless_blender_charact.Service.State.Machine.{perform_all, perform_all-IsAudited}
use headless_blender_charact.Service.State.Audit.{IsAudited}
use headless_blender_charact.Service.State.Lifecycle.{
  Continues, builds_continue, terminal_final_record,
}
use headless_blender_charact.Service.State.Exclusion.{
  Holds, heartbeat_attempt-Holds, live_at_most_one,
}
use headless_blender_charact.Service.State.Verdicts.{complete_attempt_verdict}
use headless_blender_charact.Service.State.Spent.{IsSpent, complete_attempt-IsSpent}
use headless_blender_charact.Service.State.Dispatch.{dispatch_outbox-AreDispatched}
use headless_blender_charact.Service.State.Turns.{AreDispatched}

cancel_run : lookup 7 (after cancel_calls).builds ≡ some canceled_build
unfolding run
cancel_run = refl

terminal_final_record_example :
    lookup 7 (perform_all counting test_env test_settings more_calls (after cancel_calls)).builds
    ≡ some canceled_build
terminal_final_record_example =
    terminal_final_record counting test_env test_settings cancel_calls more_calls 7 canceled_build
      cancel_run refl

perform_all-IsAudited_example : IsAudited (after first_calls)
perform_all-IsAudited_example = perform_all-IsAudited counting test_env test_settings first_calls

live_at_most_one_example : live_count 7 (after first_calls) ≤ 1
live_at_most_one_example = live_at_most_one counting test_env test_settings first_calls 7

-- The lease of the first calls is live.
live_run : live_count 7 (after first_calls) ≡ 1
unfolding run live_count
live_run = refl

abbrev canceled_log : List BuildEvent
canceled_log =
    validated_event 7 1000
    ∷ queued_event 7 1000
    ∷ record {
      build_id = 7;
      sequence = 3;
      event_type = "canceled";
      from_status = some BuildStatus.queued;
      to_status = BuildStatus.canceled;
      reason_code = some "canceled_by_operator";
      created_at = 1500;
      attempt_id = none;
    }
    ∷ []

canceled_log_run : lookup 7 (after cancel_calls).events ≡ some canceled_log
unfolding run
canceled_log_run = refl

builds_continue_example :
    Continues 7 canceled_build canceled_log
      (perform_all counting test_env test_settings more_calls (after cancel_calls))
builds_continue_example =
    builds_continue counting test_env test_settings cancel_calls more_calls 7 canceled_build
      canceled_log cancel_run canceled_log_run

leased_run : lookup 21 (after first_calls).attempts ≡ some leased
unfolding run
leased_run = refl

abbrev answer : AttemptHeartbeat
answer = record {
  build_id = 7;
  attempt_id = 21;
  lease_expires_at = 20004000;
  cancel_requested = false;
}

answer_run : (heartbeat_attempt test_env 4000 21 token_a 20 (after first_calls)).0 ≡ ok answer
unfolding run
answer_run = refl

heartbeat_attempt-Holds_example :
    Holds test_env (after first_calls) 21 token_a 4000 leased
    × (answer.lease_expires_at ≡ 4000 + seconds 20)
    × (lookup 21 (heartbeat_attempt test_env 4000 21 token_a 20 (after first_calls)).1.attempts
        ≡ some (record leased { heartbeat_at = 4000; lease_expires_at = 4000 + seconds 20 }))
heartbeat_attempt-Holds_example =
    heartbeat_attempt-Holds test_env 4000 21 token_a (after first_calls) leased leased_run 20 answer
      answer_run

-- The first of two attempts fails, and may be retried.
abbrev completion : AttemptCompletion
completion = record {
  build = record running_build {
    status = BuildStatus.queued;
    state_version = 3;
    updated_at = 4000;
  };
  attempt = record leased {
    status = AttemptStatus.failed;
    finished_at = some 4000;
    exit_code = some 2;
    reason_code = some "render_failed";
  };
  requeued = true;
  exhausted = false;
}

completion_run :
    (complete_attempt test_env 4000 21 token_a AttemptStatus.failed
      (some 2)
      "render_failed"
      true
      10
      (after first_calls)).0
    ≡ ok completion
unfolding run
completion_run = refl

abbrev completed : Store
completed =
    (complete_attempt test_env 4000 21 token_a AttemptStatus.failed (some 2) "render_failed" true 10
      (after first_calls)).1

complete_attempt_verdict_example :
    Holds test_env (after first_calls) 21 token_a 4000 leased
    × (running_build.status ≡ BuildStatus.running)
    × (lookup 21 completed.attempts ≡ some completion.attempt)
    × (lookup 7 completed.builds ≡ some completion.build)
    × ((is_some running_build.cancel_requested_at ≡ true)
          × (completion.attempt.status ≡ AttemptStatus.canceled)
          × (completion.build.status ≡ BuildStatus.canceled)
          × ((completion.requeued ≡ false) × (completed.outbox ≡ (after first_calls).outbox))
        ⊎ ((is_some running_build.cancel_requested_at ≡ false)
            × (completion.attempt.status ≡ AttemptStatus.failed)
            × ((completion.build.status ≡ BuildStatus.queued)
                  × (is_retryable_outcome AttemptStatus.failed ≡ true)
                  × (true ≡ true)
                  × (leased.attempt_number < running_build.max_attempts)
                  × ((completion.requeued ≡ true)
                      × (completed.outbox
                          ≡ insert
                              (after first_calls).next_outbox_id
                              (new_outbox
                                (after first_calls).next_outbox_id
                                7
                                (running_build.state_version + 1)
                                (4000 + seconds 10))
                              (after first_calls).outbox))
                ⊎ ((completion.build.status ≡ (
                      if is_attempt_status AttemptStatus.failed AttemptStatus.needs_review
                      then BuildStatus.needs_review
                      else BuildStatus.failed))
                    × ((completion.requeued ≡ false)
                        × (completed.outbox ≡ (after first_calls).outbox))))))
complete_attempt_verdict_example =
    complete_attempt_verdict test_env 4000 21 token_a AttemptStatus.failed (some 2) "render_failed"
      true 10 (after first_calls) completion leased running_build completion_run leased_run
      leased_build_run

complete_attempt-IsSpent_example :
    IsSpent 21
      (complete_attempt test_env 4000 21 token_a AttemptStatus.failed
        (some 2)
        "render_failed"
        true
        10
        (after first_calls)).1
complete_attempt-IsSpent_example =
    complete_attempt-IsSpent test_env 4000 21 token_a AttemptStatus.failed (some 2) "render_failed"
      true 10 (after first_calls) completion completion_run

dispatch_run : (dispatch_outbox counting 1000 5 1 (after first_calls) 0).0 ≡ ok (1, 0)
unfolding run dispatch_outbox dispatch_checked dispatch_arguments dispatch_all dispatch_one
    dispatch_row dispatch_rest handed_on store_row due_rows outbox_in_order next_dispatch_count
dispatch_run = refl

dispatch_outbox-AreDispatched_example :
    AreDispatched counting 1000
      (seconds 1)
      (after first_calls).builds
      (due_rows 1000 5 (after first_calls))
      (after first_calls)
      0
      1
      0
      (dispatch_outbox counting 1000 5 1 (after first_calls) 0)
    × (1 + 0 ≡ length (due_rows 1000 5 (after first_calls)))
    × (1 + 0 ≤ 5)
dispatch_outbox-AreDispatched_example =
    dispatch_outbox-AreDispatched counting 1000 5 1 1 0 (after first_calls) 0 dispatch_run
