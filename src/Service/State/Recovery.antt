-- ===== src/Service/State/Recovery.antt =====
-- `recover_expired_attempts` of state.py.
use headless_blender_charact.Prelude.{
  Bool, List, [], between, false, if◌then◌else◌, is_some, keep, leb, ltb, nat_eq, not, some,
  sort_by, string_eq, take, true, ℕ, ◌&&◌, ◌+◌, ◌==◌, ◌||◌, ◌∷◌,
}
use headless_blender_charact.Service.Errors.{Code, Result, conflict, ok, raise_if, ◌>>=◌, ◌>>◌}
use headless_blender_charact.Service.Contract.{Datetime, Environment, list_eq}
use headless_blender_charact.Service.Dict.{values}
use headless_blender_charact.Service.Models.Status.{
  AttemptStatus, BuildStatus, is_active, is_status, is_terminal,
}
use headless_blender_charact.Service.Models.Build.{BuildRecord, check_build}
use headless_blender_charact.Service.Models.Attempt.{AttemptRecord, check_attempt}
use headless_blender_charact.Service.State.Store.{
  Exec, Store, append_event, get_build, proceed, pure, reading, retry_delay, write_attempt,
  write_build, ◌⨾◌,
}
use headless_blender_charact.Service.State.Completion.{
  AttemptCompletion, completion_event, operator_reason, requeue_if, when,
}

-- The completion of one attempt whose lease has expired. An attempt whose build has left RUNNING
-- is closed and the build stays as it is.
unfoldable pub lost_completion :
    Environment → Datetime → AttemptRecord → BuildRecord → Result AttemptCompletion
lost_completion env now a build = do
  let running = is_status build.status BuildStatus.running
  let cancel_wins = is_some build.cancel_requested_at
  let retry = running && not cancel_wins && ltb a.attempt_number build.max_attempts
  let target =
      if not running
      then build.status
      else if cancel_wins
      then BuildStatus.canceled
      else if retry
      then BuildStatus.queued
      else BuildStatus.failed
  let reason = if cancel_wins then operator_reason else "worker_lost"
  let terminal = is_terminal target
  attempt ← check_attempt (record a {
    status = if cancel_wins then AttemptStatus.canceled else AttemptStatus.lost;
    finished_at = some now;
    reason_code = some reason;
  })
  let moved = check_build env (record build {
    status = target;
    state_version = build.state_version + 1;
    terminal_code = when terminal reason;
    updated_at = now;
    finished_at = when terminal now;
  })
  updated ← if is_status target build.status then ok build else moved
  ok (record {
    build = updated;
    attempt = attempt;
    requeued = retry;
    exhausted = running && not retry && not cancel_wins;
  })

-- The completion, and whether the build moved.
unfoldable pub recover_plan :
    Environment → Datetime → AttemptRecord → Store → Result (AttemptCompletion × Bool)
unfolding lost_completion
recover_plan env now a s = do
  build ← get_build a.build_id s
  done ← lost_completion env now a build
  ok (done, not (is_status done.build.status build.status))

-- What is written only if the build moved.
unfoldable pub recover_build : Datetime → AttemptCompletion × Bool → Exec (Unit {0})
recover_build available_at (c, false) = pure tt
recover_build available_at (c, true) =
    write_build c.build.build_id c.build
    ⨾ append_event c.build.build_id (completion_event c)
    ⨾ requeue_if c.requeued c.build.build_id c.build.state_version available_at

-- One turn of the loop.
unfoldable pub recover_one : Environment → Datetime → ℕ → AttemptRecord → Exec AttemptCompletion
recover_one env now delay a = reading (recover_plan env now a) (λ r.
    recover_build (now + delay) r ⨾ write_attempt r.0.attempt.attempt_id r.0.attempt ⨾ pure r.0)

-- `results.append(…)`
abbrev pub adding :
    AttemptCompletion → Exec (List AttemptCompletion) → Exec (List AttemptCompletion)
adding c rest s = proceed (rest s).0 (λ cs. pure (c ∷ cs)) (rest s).1

unfoldable pub recover_all :
    Environment → Datetime → ℕ → List AttemptRecord → Exec (List AttemptCompletion)
recover_all env now delay [] s = (ok [], s)
recover_all env now delay (a ∷ rest) s =
    proceed (recover_one env now delay a s).0 (λ c. adding c (recover_all env now delay rest))
      (recover_one env now delay a s).1

-- `key=lambda attempt: (attempt.lease_expires_at, attempt.attempt_number)`
abbrev pub expires_first : AttemptRecord → AttemptRecord → Bool
expires_first a b =
    ltb a.lease_expires_at b.lease_expires_at
    || (a.lease_expires_at == b.lease_expires_at && leb a.attempt_number b.attempt_number)

abbrev pub is_expired : Datetime → AttemptRecord → Bool
is_expired now a = is_active a.status && leb a.lease_expires_at now

unfoldable pub expired_attempts : Datetime → ℕ → Store → List AttemptRecord
expired_attempts now limit s =
    take limit (sort_by expires_first (keep (is_expired now) (values s.attempts)))

unfoldable pub recovery_arguments : ℕ → ℕ → Result ℕ
recovery_arguments delay_seconds limit = do
  delay ← retry_delay delay_seconds
  raise_if (not (between 1 1000 limit)) (conflict Code.invalid_recovery_limit)
  ok delay

unfoldable pub recover_expired_attempts :
    Environment → Datetime → ℕ → ℕ → Exec (List AttemptCompletion)
recover_expired_attempts env now delay_seconds limit s =
    proceed (recovery_arguments delay_seconds limit)
      (λ delay. recover_all env now delay (expired_attempts now limit s)) s
