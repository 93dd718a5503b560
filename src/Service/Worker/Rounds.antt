-- ===== src/Service/Worker/Rounds.antt =====
-- `process_once` and `run_forever` of worker.py.
use headless_blender_charact.Prelude.{
  Bool, Option, String, false, if◌then◌else◌, none, some, suc, true, zero, ℕ,
}
use headless_blender_charact.Service.Worker.Action.{
  Act, World, after_try, on_outside, on_queue, on_repository, raises, returns, ◌>>=◌, ◌>>◌,
}
use headless_blender_charact.Service.Worker.Launch.{LaunchResult}
use headless_blender_charact.Service.Worker.Policy.{failed_outcome}
use headless_blender_charact.Service.Worker.Supervisor.{
  Outside, Repository, WorkerSettings, complete_and_settle, handle_result, ignore, probe,
}
use headless_blender_charact.Service.Errors.{
  Code, Error, ErrorClass, Result, err, is_service, ok, raised,
}
use headless_blender_charact.Service.State.Leasing.{AttemptLease}
use headless_blender_charact.Service.Queue.Message.{BuildQueue, QueueMessage}

module _ {R W O Paths : Type 0} (repository : Repository R W) (queue : BuildQueue W)
    (outside : Outside O Paths) (c : WorkerSettings) where
  -- `except ServiceError: pass`
  unfoldable pub forgive : Result (Unit {0}) → Act (World R W O) (Unit {0})
  forgive (ok _) = returns tt
  forgive (err e) = if is_service e then returns tt else raises e

  -- The `except Exception` clause of an attempt.
  unfoldable pub rescue :
      QueueMessage → AttemptLease → String → Result (Unit {0}) → Act (World R W O) (Unit {0})
  unfolding forgive
  rescue m lease token (ok _) = returns tt
  rescue m lease token (err e) =
      after_try
        (complete_and_settle repository queue outside c m lease token
          (failed_outcome none "worker_internal"))
        forgive

  -- The `finally` clause: an error of it replaces the one at hand.
  unfoldable pub clean_up : Option Paths → Result (Unit {0}) → Act (World R W O) (Unit {0})
  unfolding forgive
  clean_up none r = λ v. (r, v)
  clean_up (some paths) r = after_try (on_outside (outside.cleanup paths)) forgive >> λ v. (r, v)

  unfoldable pub after_launch :
      QueueMessage
      → AttemptLease
      → String
      → Result (LaunchResult Paths)
      → Act (World R W O) (Unit {0})
  unfolding clean_up
  after_launch m lease token (err e) = after_try (rescue m lease token (err e)) (clean_up none)
  after_launch m lease token (ok result) =
      after_try
        (after_try (handle_result repository queue outside c m lease token result)
          (rescue m lease token))
        (clean_up (some result.paths))

  -- The monitor is started, the builder runs, and its result is handled.
  unfoldable pub launch : AttemptLease → String → Act (World R W O) (LaunchResult Paths)
  launch lease token v =
      let (r, t) = probe repository queue outside c lease token v in
      on_outside (outside.execute lease.build.canonical_request lease.attempt.attempt_id r) t

  unfoldable pub run_attempt : QueueMessage → AttemptLease → String → Act (World R W O) (Unit {0})
  unfolding after_launch launch
  run_attempt m lease token v =
      after_try (launch lease token) (after_launch m lease token)
        (record v { lost = false; cancel = false })

  unfoldable pub is_build_not_found : Error → Bool
  is_build_not_found (raised ErrorClass.state_conflict Code.build_not_found) = true
  is_build_not_found _ = false

  -- What follows the attempt to lease the build of a message.
  unfoldable pub after_lease :
      QueueMessage → String → Result (Option AttemptLease) → Act (World R W O) Bool
  unfolding is_build_not_found
  after_lease m token (ok none) = on_queue (queue.acknowledge m) >> returns true
  after_lease m token (ok (some lease)) = run_attempt m lease token >> returns true
  after_lease m token (err e) =
      if is_build_not_found e
      then on_queue (ignore (queue.dead_letter m)) >> returns true
      else raises e

  unfoldable pub serve : Option QueueMessage → Act (World R W O) Bool
  serve none v = returns false v
  serve (some m) v =
      let (token, o) = outside.fresh_token v.outside in
      after_try
        (on_repository (repository.lease_build m.build_id c.worker_id token c.lease_seconds))
        (after_lease m token) (record v { outside = o })

  unfoldable pub dispatch : Act (World R W O) (ℕ × ℕ)
  dispatch v =
      let (r, s, q) =
        repository.dispatch_outbox queue.enqueue 100 c.retry_delay_seconds v.repository v.queue in
      (r, record v { repository = s; queue = q })

  -- `true`: a message was claimed.
  unfoldable pub process_once : ℕ → Act (World R W O) Bool
  unfolding serve dispatch
  process_once block_ms = do
    recovered ← on_repository (repository.recover_expired_attempts c.retry_delay_seconds 100)
    counts ← dispatch
    message ← on_queue (queue.claim c.worker_id block_ms)
    serve message

  -- `except ServiceError` of the loop: the error is logged.
  after_round : Result Bool → Act (World R W O) (Unit {0})
  after_round (ok _) = returns tt
  after_round (err e) = if is_service e then returns tt else raises e

  -- At most so many rounds of `run_forever`, which ends only when it is stopped or an error that is
  -- not a `ServiceError` escapes.
  unfoldable pub run_rounds : ℕ → ℕ → Act (World R W O) (Unit {0})
  unfolding after_round
  run_rounds block_ms zero v = returns tt v
  run_rounds block_ms (suc n) v =
      let (stop, o) = outside.stopped v.outside in
      let rest = run_rounds block_ms n in
      if stop
      then (ok tt, record v { outside = o })
      else (after_try (process_once block_ms) after_round >> rest) (record v { outside = o })
