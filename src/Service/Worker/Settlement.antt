-- ===== src/Service/Worker/Settlement.antt =====
-- What serving a message does to the in-memory queue: `_settle_message`, `_handle_result` and the
-- rest of `process_once` of worker.py, on every path of errors.
use headless_blender_charact.Prelude.{
  List, Option, String, [], arith, false, none, refl, some, subst, suc, sym, true, zero, ℕ, ◌∙◌,
  ◌∷◌, ◌≡◌,
}
use headless_blender_charact.Service.Worker.Action.{Act, World, on_outside, returns, ◌>>◌}
use headless_blender_charact.Service.Worker.Launch.{LaunchResult, LaunchTermination}
use headless_blender_charact.Service.Worker.Policy.{Outcome, canceled_outcome}
use headless_blender_charact.Service.Worker.Supervisor.{
  Outside, Repository, WorkerSettings, after_publication, complete, complete_and_settle,
  handle_completed, handle_result, handle_termination, hear, is_cancel_requested, is_lost_lease,
  let_monitor_run, monitor_turn, monitor_turns, probe, publish_output, publish_stored,
  settle_message, store_all, with_stored,
}
use headless_blender_charact.Service.Worker.Rounds.{
  after_launch, after_lease, clean_up, forgive, is_build_not_found, launch, rescue, run_attempt,
}
use headless_blender_charact.Service.Worker.Safety.{
  IsSafe, Settles, Settles-refl, acknowledge-IsSafe, after_try-IsSafe, bind-IsSafe, choice-IsSafe,
  dead_letter-IsSafe, on_outside-IsSafe, on_repository-IsSafe, raises-IsSafe, returns-IsSafe,
  then-IsSafe,
}
use headless_blender_charact.Service.Errors.{
  ErrorClass, Result, contract_error, err, is_service, key_error, ok, raised, unexpected,
}
use headless_blender_charact.Service.Contract.{Uuid}
use headless_blender_charact.Service.Models.Build.{BuildRecord}
use headless_blender_charact.Service.Models.Artifact.{ArtifactRecord}
use headless_blender_charact.Service.Storage.{publication_order}
use headless_blender_charact.Service.State.Leasing.{AttemptLease}
use headless_blender_charact.Service.State.Completion.{AttemptCompletion}
use headless_blender_charact.Service.Queue.Message.{QueueMessage}
use headless_blender_charact.Service.Queue.Memory.{MemoryQueue, memory_queue}

module _ {R O Paths : Type 0} (repository : Repository R MemoryQueue) (outside : Outside O Paths)
    (c : WorkerSettings) (m : QueueMessage) where
  turn_queue :
      (i : Uuid) (token : String) (v : World R MemoryQueue O)
      → (monitor_turn repository memory_queue outside c i token v).queue ≡ v.queue
  unfolding monitor_turn hear
  turn_queue i token v = ground arith

  turns-Settles :
      (n : ℕ) (i : Uuid) (token : String) (v : World R MemoryQueue O)
      → (monitor_turns repository memory_queue outside c n i token v).queue ≡ v.queue
  unfolding monitor_turns monitor_turn
  turns-Settles zero i token v = refl
  turns-Settles (suc n) i token v =
      turns-Settles n i token (monitor_turn repository memory_queue outside c i token v)
      ∙ turn_queue i token v

  let_monitor_run-IsSafe :
      (i : Uuid) (token : String)
      → IsSafe m (let_monitor_run repository memory_queue outside c i token)
  unfolding let_monitor_run
  let_monitor_run-IsSafe i token = record {
    safe = λ v.
        let (n, o) = outside.turns v.outside in
        subst (Settles m v.queue) (sym (turns-Settles n i token (record v { outside = o })))
          (Settles-refl m v.queue);
  }

  probe-IsSafe :
      (lease : AttemptLease) (token : String)
      → IsSafe m (probe repository memory_queue outside c lease token)
  unfolding probe
  probe-IsSafe lease token =
      then-IsSafe m _ _ (let_monitor_run-IsSafe lease.attempt.attempt_id token)
        (record { safe = λ v. Settles-refl m v.queue })

  complete-IsSafe :
      (lease : AttemptLease) (token : String) (o : Outcome)
      → IsSafe m (complete repository memory_queue outside c lease token o)
  unfolding complete
  complete-IsSafe lease token o =
      then-IsSafe m _ _ (let_monitor_run-IsSafe lease.attempt.attempt_id token)
        (on_repository-IsSafe m _)

  settle_message-IsSafe :
      (done : AttemptCompletion)
      → IsSafe m (settle_message repository memory_queue outside c m done)
  unfolding settle_message
  settle_message-IsSafe done =
      choice-IsSafe m _ _ _ (acknowledge-IsSafe m)
        (choice-IsSafe m _ _ _ (dead_letter-IsSafe m) (acknowledge-IsSafe m))

  complete_and_settle-IsSafe :
      (lease : AttemptLease) (token : String) (o : Outcome)
      → IsSafe m (complete_and_settle repository memory_queue outside c m lease token o)
  unfolding complete_and_settle
  complete_and_settle-IsSafe lease token o =
      bind-IsSafe m _ _ (complete-IsSafe lease token o) settle_message-IsSafe

  module _ (lease : AttemptLease) (token : String) (result : LaunchResult Paths) where
    canceled-IsSafe :
        {A : Type 0}
        → IsSafe m (
            complete_and_settle repository memory_queue outside c m lease token
              (canceled_outcome result.exit_code)
            >> returns {A = Option A} none)
    canceled-IsSafe =
        then-IsSafe m _ _ (complete_and_settle-IsSafe lease token _) (returns-IsSafe m none)

    store_all-IsSafe :
        (records : List ArtifactRecord)
        → IsSafe m (store_all repository memory_queue outside c m lease token result records)
    unfolding store_all
    store_all-IsSafe [] = returns-IsSafe m (some [])
    store_all-IsSafe (r ∷ rest) = bind-IsSafe m _ _ (probe-IsSafe lease token) (λ asked.
        choice-IsSafe m asked _ _ canceled-IsSafe (
          bind-IsSafe m _ _ (on_outside-IsSafe m _) (λ stored.
            bind-IsSafe m _ _ (store_all-IsSafe rest)
              (λ others. returns-IsSafe m (with_stored stored others)))))

    publish_stored-IsSafe :
        (stored : Option (List ArtifactRecord))
        → IsSafe m (publish_stored repository memory_queue outside c m lease token result stored)
    unfolding publish_stored
    publish_stored-IsSafe none = returns-IsSafe m none
    publish_stored-IsSafe (some stored) = bind-IsSafe m _ _ (probe-IsSafe lease token) (λ asked.
        choice-IsSafe m asked _ _ canceled-IsSafe (
          bind-IsSafe m _ _
            (then-IsSafe m _ _ (let_monitor_run-IsSafe lease.attempt.attempt_id token)
              (on_repository-IsSafe m _))
            (λ build. returns-IsSafe m (some build))))

    publish_output-IsSafe :
        IsSafe m (publish_output repository memory_queue outside c m lease token result)
    unfolding publish_output
    publish_output-IsSafe =
        bind-IsSafe m {A = List ArtifactRecord} (on_outside read) _ (on_outside-IsSafe m read)
          (λ records.
            bind-IsSafe m {A = List ArtifactRecord} (λ v. (publication_order records, v)) _
              (record { safe = λ v. Settles-refl m v.queue })
              (λ ordered. bind-IsSafe m _ _ (store_all-IsSafe ordered) publish_stored-IsSafe))
      where
        read : Act O (List ArtifactRecord)
        read =
            outside.records_from_output result.paths lease.build lease.attempt.attempt_id
              c.deployment_namespace c.storage_bucket

    after_publication-IsSafe :
        (r : Result (Option BuildRecord))
        → IsSafe m (after_publication repository memory_queue outside c m lease token result r)
    unfolding after_publication
    after_publication-IsSafe (ok none) = returns-IsSafe m tt
    after_publication-IsSafe (ok (some build)) = acknowledge-IsSafe m
    after_publication-IsSafe (err (raised ErrorClass.state_conflict code)) =
        choice-IsSafe m (is_lost_lease code) _ _ (returns-IsSafe m tt) (
          choice-IsSafe m (is_cancel_requested code) _ _ (complete_and_settle-IsSafe lease token _)
            (complete_and_settle-IsSafe lease token _))
    after_publication-IsSafe (err (raised ErrorClass.service_error code)) =
        complete_and_settle-IsSafe lease token _
    after_publication-IsSafe (err (raised ErrorClass.idempotency_conflict code)) =
        complete_and_settle-IsSafe lease token _
    after_publication-IsSafe (err (raised ErrorClass.storage_error code)) =
        complete_and_settle-IsSafe lease token _
    after_publication-IsSafe (err (raised ErrorClass.queue_error code)) =
        complete_and_settle-IsSafe lease token _
    after_publication-IsSafe (err (raised ErrorClass.worker_error code)) =
        complete_and_settle-IsSafe lease token _
    after_publication-IsSafe (err (raised ErrorClass.authorization_error code)) =
        complete_and_settle-IsSafe lease token _
    after_publication-IsSafe (err (raised ErrorClass.configuration_error code)) =
        complete_and_settle-IsSafe lease token _
    after_publication-IsSafe (err (raised ErrorClass.migration_error code)) =
        complete_and_settle-IsSafe lease token _
    after_publication-IsSafe (err key_error) = raises-IsSafe m key_error
    after_publication-IsSafe (err contract_error) = raises-IsSafe m contract_error
    after_publication-IsSafe (err unexpected) = raises-IsSafe m unexpected

    termination-IsSafe :
        (t : LaunchTermination)
        → IsSafe m (handle_termination repository memory_queue outside c t m lease token result)
    unfolding handle_termination handle_completed
    termination-IsSafe LaunchTermination.lease_lost = returns-IsSafe m tt
    termination-IsSafe LaunchTermination.canceled = complete_and_settle-IsSafe lease token _
    termination-IsSafe LaunchTermination.timed_out = complete_and_settle-IsSafe lease token _
    termination-IsSafe LaunchTermination.completed =
        choice-IsSafe m _ _ _ (complete_and_settle-IsSafe lease token _)
          (after_try-IsSafe m _ _ publish_output-IsSafe after_publication-IsSafe)

    handle_result-IsSafe :
        IsSafe m (handle_result repository memory_queue outside c m lease token result)
    unfolding handle_result
    handle_result-IsSafe = termination-IsSafe result.termination

  forgive-IsSafe : (r : Result (Unit {0})) → IsSafe m (forgive repository memory_queue outside c r)
  unfolding forgive
  forgive-IsSafe (ok _) = returns-IsSafe m tt
  forgive-IsSafe (err e) =
      choice-IsSafe m (is_service e) _ _ (returns-IsSafe m tt) (raises-IsSafe m e)

  rescue-IsSafe :
      (lease : AttemptLease) (token : String) (r : Result (Unit {0}))
      → IsSafe m (rescue repository memory_queue outside c m lease token r)
  unfolding rescue
  rescue-IsSafe lease token (ok _) = returns-IsSafe m tt
  rescue-IsSafe lease token (err e) =
      after_try-IsSafe m _ _ (complete_and_settle-IsSafe lease token _) forgive-IsSafe

  clean_up-IsSafe :
      (p : Option Paths) (r : Result (Unit {0}))
      → IsSafe m (clean_up repository memory_queue outside c p r)
  unfolding clean_up
  clean_up-IsSafe none r = record { safe = λ v. Settles-refl m v.queue }
  clean_up-IsSafe (some paths) r =
      then-IsSafe m _ _
        (after_try-IsSafe m _ _ (on_outside-IsSafe m (outside.cleanup paths)) forgive-IsSafe)
        (record { safe = λ v. Settles-refl m v.queue })

  after_launch-IsSafe :
      (lease : AttemptLease) (token : String) (r : Result (LaunchResult Paths))
      → IsSafe m (after_launch repository memory_queue outside c m lease token r)
  unfolding after_launch
  after_launch-IsSafe lease token (err e) =
      after_try-IsSafe m _ _ (rescue-IsSafe lease token (err e)) (clean_up-IsSafe none)
  after_launch-IsSafe lease token (ok result) =
      after_try-IsSafe m _ _
        (after_try-IsSafe m _ _ (handle_result-IsSafe lease token result)
          (rescue-IsSafe lease token))
        (clean_up-IsSafe (some result.paths))

  run_attempt-IsSafe :
      (lease : AttemptLease) (token : String)
      → IsSafe m (run_attempt repository memory_queue outside c m lease token)
  unfolding run_attempt launch
  run_attempt-IsSafe lease token = record {
    safe = λ v.
        (after_try-IsSafe m (launch repository memory_queue outside c lease token) _
            (record { safe = λ t. (probe-IsSafe lease token).safe t })
            (after_launch-IsSafe lease token)).safe
          (record v { lost = false; cancel = false });
  }

  -- Serving a claimed message never makes another message ready and never releases the claim of
  -- another: whatever the repository answers to the lease, whatever the builder, the object store
  -- and the heartbeat thread do, and whichever errors are raised and handled on the way.
  pub after_lease-Settles :
      (token : String) (r : Result (Option AttemptLease)) (v : World R MemoryQueue O)
      → Settles m v.queue (after_lease repository memory_queue outside c m token r v).1.queue
  unfolding after_lease
  after_lease-Settles token (ok none) v =
      (then-IsSafe m _ _ (acknowledge-IsSafe m) (returns-IsSafe m true)).safe v
  after_lease-Settles token (ok (some lease)) v =
      (then-IsSafe m _ _ (run_attempt-IsSafe lease token) (returns-IsSafe m true)).safe v
  after_lease-Settles token (err e) v =
      (choice-IsSafe m (is_build_not_found repository memory_queue outside c e) _ _
          (then-IsSafe m _ _ (dead_letter-IsSafe m) (returns-IsSafe m true))
          (raises-IsSafe m e)).safe
        v
