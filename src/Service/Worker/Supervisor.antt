-- ===== src/Service/Worker/Supervisor.antt =====
-- `WorkerSupervisor` of worker.py up to one launch result, with its heartbeat monitor. The launcher,
-- the reader of its output and the object store are outside.
use headless_blender_charact.Prelude.{
  Bool, List, Option, String, [], between, false, if◌then◌else◌, leb, nat_eq, none, not, some,
  string_eq, suc, true, zero, ℕ, ◌==◌, ◌||◌, ◌∷◌,
}
use headless_blender_charact.Service.Worker.Action.{
  Act, World, after_try, on_outside, on_queue, on_repository, raises, returns, ◌>>=◌, ◌>>◌,
}
use headless_blender_charact.Service.Worker.Launch.{LaunchResult, LaunchTermination}
use headless_blender_charact.Service.Worker.Policy.{
  Outcome, canceled_outcome, failed_outcome, policy_outcome, timeout_outcome,
}
use headless_blender_charact.Service.Errors.{Code, ErrorClass, Result, err, is_service, ok, raised}
use headless_blender_charact.Service.Contract.{Bytes, Uuid, list_eq}
use headless_blender_charact.Service.Models.Status.{AttemptStatus, BuildStatus, is_status}
use headless_blender_charact.Service.Models.Build.{BuildRecord}
use headless_blender_charact.Service.Models.Artifact.{ArtifactRecord}
use headless_blender_charact.Service.Storage.{publication_order}
use headless_blender_charact.Service.State.Leasing.{AttemptHeartbeat, AttemptLease}
use headless_blender_charact.Service.State.Completion.{AttemptCompletion}
use headless_blender_charact.Service.Queue.Message.{BuildQueue, QueueMessage}

pub record Repository (R W : Type 0) : Type 0 where
  -- the delay and the limit
  pub recover_expired_attempts : ℕ → ℕ → Act R (List AttemptCompletion)
  -- the callback, the limit and the delay
  pub dispatch_outbox : (Uuid → W → Result String × W) → ℕ → ℕ → R → W → Result (ℕ × ℕ) × R × W
  -- the build, the worker, the token and the duration
  pub lease_build : Uuid → String → String → ℕ → Act R (Option AttemptLease)
  pub heartbeat_attempt : Uuid → String → ℕ → Act R AttemptHeartbeat
  -- the attempt, the token, the outcome and the delay
  pub complete_attempt :
      Uuid → String → AttemptStatus → Option ℕ → String → Bool → ℕ → Act R AttemptCompletion
  pub publish_attempt_success : Uuid → String → List ArtifactRecord → Act R BuildRecord

pub record Outside (O Paths : Type 0) : Type 0 where
  -- `BuilderLauncher.execute`, with what the monitor answers when it is polled last
  pub execute : Bytes → Uuid → Result Bool → Act O (LaunchResult Paths)
  pub cleanup : Paths → Act O (Unit {0})
  -- artifact_io.py, with the build, the attempt, the namespace and the bucket
  pub records_from_output :
      Paths → BuildRecord → Uuid → String → String → Act O (List ArtifactRecord)
  -- `ArtifactStorage.store_file`
  pub store_file : ArtifactRecord → Paths → Act O ArtifactRecord
  -- `secrets.token_urlsafe(32)`
  pub fresh_token : O → String × O
  -- how often the heartbeat thread runs before the supervisor's next step
  pub turns : O → ℕ × O
  -- `stop.is_set()`
  pub stopped : O → Bool × O

pub record WorkerSettings : Type 0 where
  pub deployment_namespace : String
  pub storage_bucket : String
  pub worker_id : String
  pub lease_seconds : ℕ
  pub retry_delay_seconds : ℕ

-- `WorkerSupervisor.__init__`
unfoldable pub check_settings : WorkerSettings → Result WorkerSettings
check_settings c =
    if not (between 5 300 c.lease_seconds)
    then err (raised ErrorClass.worker_error Code.lease_duration_invalid)
    else if not (leb c.retry_delay_seconds 300)
    then err (raised ErrorClass.worker_error Code.retry_delay_invalid)
    else ok c

-- `exc.code in ("lease_expired", "lease_fence_mismatch", "lease_not_active")`
abbrev pub is_lost_lease : Code → Bool
is_lost_lease Code.lease_expired = true
is_lost_lease Code.lease_fence_mismatch = true
is_lost_lease Code.lease_not_active = true
is_lost_lease _ = false

abbrev pub is_cancel_requested : Code → Bool
is_cancel_requested Code.cancel_requested = true
is_cancel_requested _ = false

-- `completion.build.status in (FAILED, NEEDS_REVIEW)`
abbrev pub is_dead : BuildStatus → Bool
is_dead BuildStatus.failed = true
is_dead BuildStatus.needs_review = true
is_dead _ = false

-- `stored.append(…)`, unless the loop has ended early.
abbrev pub with_stored :
    ArtifactRecord → Option (List ArtifactRecord) → Option (List ArtifactRecord)
with_stored stored none = none
with_stored stored (some others) = some (stored ∷ others)

abbrev pub ignore : {V A : Type 0} → Act V A → Act V (Unit {0})
ignore m = m >>= λ _. returns tt

module _ {R W O Paths : Type 0} (repository : Repository R W) (queue : BuildQueue W)
    (outside : Outside O Paths) (c : WorkerSettings) where
  -- What a heartbeat tells the monitor.
  unfoldable pub hear : Result AttemptHeartbeat → World R W O → World R W O
  hear (err e) v = record v { lost = true }
  hear (ok h) v = if h.cancel_requested then record v { cancel = true } else v

  -- One turn of `_LeaseMonitor._run`; the thread has ended once the lease is lost.
  unfoldable pub monitor_turn : Uuid → String → World R W O → World R W O
  unfolding hear
  monitor_turn attempt_id token v =
      let (r, t) = repository.heartbeat_attempt attempt_id token c.lease_seconds v.repository in
      if v.lost then v else hear r (record v { repository = t })

  unfoldable pub monitor_turns : ℕ → Uuid → String → World R W O → World R W O
  monitor_turns zero attempt_id token v = v
  monitor_turns (suc n) attempt_id token v =
      monitor_turns n attempt_id token (monitor_turn attempt_id token v)

  -- The heartbeat thread runs between two steps of the supervisor.
  unfoldable pub let_monitor_run : Uuid → String → Act (World R W O) (Unit {0})
  let_monitor_run attempt_id token v =
      let (n, o) = outside.turns v.outside in
      (ok tt, monitor_turns n attempt_id token (record v { outside = o }))

  -- `_LeaseMonitor.probe`
  unfoldable pub probe_answer : World R W O → Result Bool
  probe_answer v =
      if v.lost then err (raised ErrorClass.worker_error Code.lease_lost) else ok v.cancel

  unfoldable pub probe : AttemptLease → String → Act (World R W O) Bool
  unfolding probe_answer
  probe lease token = let_monitor_run lease.attempt.attempt_id token >> λ v. (probe_answer v, v)

  -- `_complete`
  unfoldable pub complete : AttemptLease → String → Outcome → Act (World R W O) AttemptCompletion
  complete lease token o =
      let_monitor_run lease.attempt.attempt_id token
      >> on_repository (
          repository.complete_attempt lease.attempt.attempt_id token o.outcome_status
            o.outcome_exit_code o.outcome_reason o.outcome_retryable c.retry_delay_seconds)

  -- `_settle_message`
  unfoldable pub settle_message : QueueMessage → AttemptCompletion → Act (World R W O) (Unit {0})
  settle_message m done =
      if done.requeued || is_status done.build.status BuildStatus.canceled
      then on_queue (queue.acknowledge m)
      else if is_dead done.build.status
      then on_queue (ignore (queue.dead_letter m))
      else on_queue (queue.acknowledge m)

  unfoldable pub complete_and_settle :
      QueueMessage → AttemptLease → String → Outcome → Act (World R W O) (Unit {0})
  complete_and_settle m lease token o = do done ← complete lease token o; settle_message m done

  -- The loop over the artifacts. `none`: the build was canceled, and that is recorded.
  unfoldable pub store_all :
      QueueMessage
      → AttemptLease
      → String
      → LaunchResult Paths
      → List ArtifactRecord
      → Act (World R W O) (Option (List ArtifactRecord))
  store_all m lease token result [] = returns (some [])
  store_all m lease token result (r ∷ rest) =
      let later = store_all m lease token result rest in
      probe lease token >>= λ asked.
      if asked
      then complete_and_settle m lease token (canceled_outcome result.exit_code) >> returns none
      else on_outside (outside.store_file r result.paths) >>= λ stored.
          later >>= λ others. returns (with_stored stored others)

  unfoldable pub publish_stored :
      QueueMessage
      → AttemptLease
      → String
      → LaunchResult Paths
      → Option (List ArtifactRecord)
      → Act (World R W O) (Option BuildRecord)
  publish_stored m lease token result none = returns none
  publish_stored m lease token result (some stored) = probe lease token >>= λ asked.
      if asked
      then complete_and_settle m lease token (canceled_outcome result.exit_code) >> returns none
      else let_monitor_run lease.attempt.attempt_id token
        >> on_repository (repository.publish_attempt_success lease.attempt.attempt_id token stored)
        >>= λ build. returns (some build)

  -- The body of the `try` of `_handle_result`. `none`: it has returned early.
  unfoldable pub publish_output :
      QueueMessage
      → AttemptLease
      → String
      → LaunchResult Paths
      → Act (World R W O) (Option BuildRecord)
  unfolding publish_stored
  publish_output m lease token result = do
    records ← on_outside (
        outside.records_from_output result.paths lease.build lease.attempt.attempt_id
          c.deployment_namespace c.storage_bucket)
    ordered ← λ v. (publication_order records, v)
    stored ← store_all m lease token result ordered
    publish_stored m lease token result stored

  -- Its `except` and `else` clauses.
  unfoldable pub after_publication :
      QueueMessage
      → AttemptLease
      → String
      → LaunchResult Paths
      → Result (Option BuildRecord)
      → Act (World R W O) (Unit {0})
  after_publication m lease token result (ok none) = returns tt
  after_publication m lease token result (ok (some build)) = on_queue (queue.acknowledge m)
  after_publication m lease token result (err (raised ErrorClass.state_conflict code)) =
      if is_lost_lease code
      then returns tt
      else if is_cancel_requested code
      then complete_and_settle m lease token (canceled_outcome result.exit_code)
      else complete_and_settle m lease token
          (failed_outcome (some result.exit_code) "publication_failed")
  after_publication m lease token result (err e) =
      if is_service e
      then complete_and_settle m lease token
          (failed_outcome (some result.exit_code) "artifact_verification_failed")
      else raises e

  unfoldable pub handle_completed :
      QueueMessage → AttemptLease → String → LaunchResult Paths → Act (World R W O) (Unit {0})
  handle_completed m lease token result =
      if not (result.exit_code == 0)
      then complete_and_settle m lease token (policy_outcome result.exit_code)
      else after_try (publish_output m lease token result) (after_publication m lease token result)

  unfoldable pub handle_termination :
      LaunchTermination
      → QueueMessage
      → AttemptLease
      → String
      → LaunchResult Paths
      → Act (World R W O) (Unit {0})
  unfolding handle_completed
  handle_termination LaunchTermination.lease_lost m lease token result = returns tt
  handle_termination LaunchTermination.canceled m lease token result =
      complete_and_settle m lease token (canceled_outcome result.exit_code)
  handle_termination LaunchTermination.timed_out m lease token result =
      complete_and_settle m lease token timeout_outcome
  handle_termination LaunchTermination.completed m lease token result =
      handle_completed m lease token result

  -- `_handle_result`
  unfoldable pub handle_result :
      QueueMessage → AttemptLease → String → LaunchResult Paths → Act (World R W O) (Unit {0})
  unfolding handle_termination
  handle_result m lease token result = handle_termination result.termination m lease token result
