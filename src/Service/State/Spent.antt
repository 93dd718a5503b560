-- ===== src/Service/State/Spent.antt =====
-- A lease is spent by the completion of its attempt, in state.py.
use headless_blender_charact.Prelude.{
  Bool, List, Option, String, ap, arith, false, nat_eq, refl, some, string_eq, subst, sym, ℕ, ◌≡◌,
}
use headless_blender_charact.Service.Errors.{Error, Result, err, ok}
use headless_blender_charact.Service.Contract.{Datetime, Environment, Uuid}
use headless_blender_charact.Service.Dict.{lookup, lookup-insert_self}
use headless_blender_charact.Service.Models.Status.{AttemptStatus, is_active}
use headless_blender_charact.Service.Models.Build.{BuildRecord}
use headless_blender_charact.Service.Models.Attempt.{AttemptRecord, check_attempt}
use headless_blender_charact.Service.Models.Artifact.{ArtifactRecord}
use headless_blender_charact.Service.State.Store.{
  Exec, Settings, Store, append_event, append_outbox, attempt_for, proceed, reading, write_attempt,
  write_build, ◌⨾◌,
}
use headless_blender_charact.Service.State.Leasing.{
  heartbeat_answer, heartbeat_attempt, heartbeat_plan, require_lease,
}
use headless_blender_charact.Service.State.Completion.{
  AttemptCompletion, complete_attempt, complete_commit, complete_plan, completion_of, requeue_if,
}
use headless_blender_charact.Service.State.Publication.{
  fenced_build, publish_attempt_success, publish_success,
}
use headless_blender_charact.Service.State.Verdicts.{reading_inv}

-- What anyone who comes with a lease of that attempt meets: nothing returns, nothing is written.
pub record IsSpent (i : Uuid) (t : Store) : Type 0 where
  pub heartbeat_raises :
      (env : Environment) (now : Datetime) (token : String) (lease_seconds : ℕ)
      → (e : Error) × (heartbeat_attempt env now i token lease_seconds t ≡ (err e, t))
  pub complete_raises :
      (env : Environment) (now : Datetime) (token : String) (status : AttemptStatus)
      (exit_code : Option ℕ) (reason_code : String) (retryable : Bool) (delay_seconds : ℕ)
      → (e : Error) × (complete_attempt env now i token status exit_code reason_code retryable
            delay_seconds t
          ≡ (err e, t))
  pub publish_raises :
      (env : Environment) (c : Settings) (checked_at now : Datetime) (token : String)
      (records : List ArtifactRecord)
      → (e : Error) × (publish_attempt_success env c checked_at now i token records t ≡ (err e, t))

-- A plan that cannot succeed leaves the store as it is.
refuses :
    {P A : Type 0} (plan : Store → Result P) (commit : P → Exec A) (t : Store)
    → ((p : P) → plan t ≡ ok p → ⊥)
    → (e : Error) × (reading plan commit t ≡ (err e, t))
refuses {P} {A} plan commit t never = go (plan t) refl
  where
    go : (r : Result P) → plan t ≡ r → (e : Error) × (proceed r commit t ≡ (err e, t))
    go (ok p) h = absurd (never p h)
    go (err e) h = (e, refl)

module _ (i : Uuid) (t : Store) (a : AttemptRecord) (found_a : lookup i t.attempts ≡ some a)
    (over : is_active a.status ≡ false) where
  heartbeat_refused :
      (env : Environment) (now : Datetime) (token : String) (lease_seconds : ℕ) (p : AttemptRecord)
      → heartbeat_plan env now i token lease_seconds t ≡ ok p
      → ⊥
  unfolding heartbeat_plan attempt_for require_lease
  heartbeat_refused env now token lease_seconds p h = ground arith

  complete_refused :
      (env : Environment) (now : Datetime) (token : String) (status : AttemptStatus)
      (exit_code : Option ℕ) (reason_code : String) (retryable : Bool) (delay_seconds : ℕ)
      (p : AttemptCompletion × ℕ)
      → complete_plan env now i token status exit_code reason_code retryable delay_seconds t ≡ ok p
      → ⊥
  unfolding complete_plan attempt_for require_lease
  complete_refused env now token status exit_code reason_code retryable delay_seconds p h =
      ground arith

  publish_refused :
      (env : Environment) (checked_at : Datetime) (token : String) (p : BuildRecord)
      → fenced_build env checked_at i token t ≡ ok p
      → ⊥
  unfolding fenced_build attempt_for require_lease
  publish_refused env checked_at token p h = ground arith

  inactive-IsSpent : IsSpent i t
  unfolding heartbeat_attempt complete_attempt publish_attempt_success
  inactive-IsSpent = record {
    heartbeat_raises = λ env now token secs.
        refuses (heartbeat_plan env now i token secs)
          (λ p. write_attempt i p ⨾ heartbeat_answer i p) t (heartbeat_refused env now token secs);
    complete_raises = λ env now token status code reason retry delay.
        refuses (complete_plan env now i token status code reason retry delay) (complete_commit i) t
          (complete_refused env now token status code reason retry delay);
    publish_raises = λ env c checked_at now token records.
        refuses (fenced_build env checked_at i token)
          (λ build. publish_success env c now build.build_id build.state_version records) t
          (publish_refused env checked_at token);
  }

module _ (env : Environment) (now : Datetime) (i : Uuid) (token : String) (status : AttemptStatus)
    (exit_code : Option ℕ) (reason_code : String) (retryable : Bool) (delay_seconds : ℕ) (s : Store)
    (c : AttemptCompletion) where
  abbrev plan : Store → Result (AttemptCompletion × ℕ)
  plan = complete_plan env now i token status exit_code reason_code retryable delay_seconds

  closing :
      (x : AttemptCompletion) (delay : ℕ)
      → plan s ≡ ok (x, delay)
      → is_active x.attempt.status ≡ false
  unfolding complete_plan completion_of check_attempt
  closing x delay h = ground arith

  kept_attempt :
      (x : AttemptCompletion) (delay : ℕ)
      → lookup i (complete_commit i (x, delay) s).1.attempts ≡ some x.attempt
  unfolding complete_commit write_attempt write_build append_event requeue_if append_outbox
  kept_attempt x delay = ground (arith, lookup-insert_self i x.attempt s.attempts)

  -- Once `complete_attempt` has returned, the lease is spent: in the store it left, every heartbeat,
  -- second completion and publication for that attempt raises and writes nothing, at any moment and
  -- with any token.
  pub complete_attempt-IsSpent :
      (complete_attempt env now i token status exit_code reason_code retryable delay_seconds s).0
        ≡ ok c
      → IsSpent i
          (complete_attempt env now i token status exit_code reason_code retryable delay_seconds
            s).1
  unfolding complete_attempt
  complete_attempt-IsSpent h =
      let ((x, delay), q, e) = reading_inv plan (complete_commit i) s c h in
      subst (IsSpent i) (sym (ap (λ r. (proceed r (complete_commit i) s).1) q)) (
        inactive-IsSpent i (complete_commit i (x, delay) s).1 x.attempt (kept_attempt x delay)
          (closing x delay q))
