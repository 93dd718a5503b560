-- ===== src/Service/State/Fence/Outcomes.antt =====
-- The methods of state.py that close an attempt, and those that leave the attempts alone, keep to
-- the fence.
use headless_blender_charact.Prelude.{
  Bool, List, Option, String, [], ap, arith, false, nat_eq, refl, string_eq, true, ℕ, ◌+◌, ◌∷◌, ◌≡◌,
}
use headless_blender_charact.Service.Errors.{Result, err, ok}
use headless_blender_charact.Service.Contract.{Datetime, Environment, Uuid}
use headless_blender_charact.Service.Dict.{insert}
use headless_blender_charact.Service.Models.Status.{AttemptStatus, is_active}
use headless_blender_charact.Service.Models.Build.{check_build}
use headless_blender_charact.Service.Models.Attempt.{AttemptRecord, check_attempt}
use headless_blender_charact.Service.State.Store.{Exec, Store, proceed, pure, write_attempt, ◌⨾◌}
use headless_blender_charact.Service.State.Completion.{
  AttemptCompletion, complete_attempt, complete_commit, complete_plan, completion_event,
}
use headless_blender_charact.Service.State.Recovery.{
  adding, expired_attempts, recover_all, recover_build, recover_expired_attempts, recover_one,
  recover_plan, recovery_arguments,
}
use headless_blender_charact.Service.State.Fence.{Claims, Claims-IsFenced, IsFenced, closes, keeps}
use headless_blender_charact.Service.State.Fence.Effects.{
  KeepsAttempts, KeepsAttempts-advance, KeepsAttempts-pure, KeepsAttempts-requeue_if,
  KeepsAttempts-then, reading_rule,
}

module _ (env : Environment) (now : Datetime) (attempt_id : Uuid) (lease_token : String)
    (status : AttemptStatus) (exit_code : Option ℕ) (reason_code : String) (retryable : Bool)
    (delay_seconds : ℕ) (s : Store) where
  completed_inactive :
      (c : AttemptCompletion) (delay : ℕ)
      → complete_plan env now attempt_id lease_token status exit_code reason_code retryable
          delay_seconds s
        ≡ ok (c, delay)
      → is_active c.attempt.status ≡ false
  unfolding complete_plan check_build check_attempt
  completed_inactive c delay h = ground arith

  pub complete_attempt-Claims :
      Claims s
        (complete_attempt env now attempt_id lease_token status exit_code reason_code retryable
          delay_seconds s).1
  unfolding complete_attempt complete_commit write_attempt
  complete_attempt-Claims =
      reading_rule (Claims s)
        (complete_plan env now attempt_id lease_token status exit_code reason_code retryable
          delay_seconds)
        (complete_commit attempt_id) s (keeps refl) go
    where
      go :
          (p : AttemptCompletion × ℕ)
          → complete_plan env now attempt_id lease_token status exit_code reason_code retryable
              delay_seconds s
            ≡ ok p
          → Claims s (complete_commit attempt_id p s).1
      go (c, delay) h = closes attempt_id c.attempt (completed_inactive c delay h) (
          (KeepsAttempts-advance c.build.build_id c.build.build_id c.build (completion_event c) _ (
              KeepsAttempts-then _ (pure c) (KeepsAttempts-requeue_if _ _ _ _)
                (KeepsAttempts-pure c))).at
            _)

module _ (env : Environment) (now : Datetime) (a : AttemptRecord) (delay : ℕ) (s : Store) where
  lost_inactive :
      (p : AttemptCompletion × Bool)
      → recover_plan env now a s ≡ ok p
      → is_active p.0.attempt.status ≡ false
  unfolding recover_plan check_build check_attempt
  lost_inactive (c, moved) h = ground arith

  recover_build-KeepsAttempts :
      (at : Datetime) (p : AttemptCompletion × Bool) → KeepsAttempts (recover_build at p)
  unfolding recover_build
  recover_build-KeepsAttempts at (c, false) = KeepsAttempts-pure tt
  recover_build-KeepsAttempts at (c, true) =
      KeepsAttempts-advance c.build.build_id c.build.build_id c.build (completion_event c) _
        (KeepsAttempts-requeue_if _ _ _ _)

  recover_one-Claims : Claims s (recover_one env now delay a s).1
  unfolding recover_one write_attempt
  recover_one-Claims = reading_rule (Claims s) (recover_plan env now a) commit s (keeps refl) go
    where
      commit : AttemptCompletion × Bool → Exec AttemptCompletion
      commit p =
          recover_build (now + delay) p
          ⨾ write_attempt p.0.attempt.attempt_id p.0.attempt
          ⨾ pure p.0

      closing :
          (p : AttemptCompletion × Bool)
          → recover_plan env now a s ≡ ok p
          → (r : Result (Unit {0})) (t : Store) → t.attempts ≡ s.attempts
          → Claims s
              (proceed {B = AttemptCompletion} r
                (λ _. write_attempt p.0.attempt.attempt_id p.0.attempt ⨾ pure p.0)
                t).1
      closing p h (ok _) t e =
          closes p.0.attempt.attempt_id p.0.attempt (lost_inactive p h)
            (ap (insert p.0.attempt.attempt_id p.0.attempt) e)
      closing p h (err _) t e = keeps e

      go :
          (p : AttemptCompletion × Bool) → recover_plan env now a s ≡ ok p → Claims s (commit p s).1
      go p h =
          closing p h (recover_build (now + delay) p s).0 (recover_build (now + delay) p s).1
            ((recover_build-KeepsAttempts (now + delay) p).at s)

-- Collecting results changes nothing.
adding-attempts :
    (c : AttemptCompletion) (rest : Exec (List AttemptCompletion)) (s : Store)
    → (adding c rest s).1.attempts ≡ (rest s).1.attempts
adding-attempts c rest s = go (rest s).0
  where
    go :
        (r : Result (List AttemptCompletion))
        → (proceed r (λ cs. pure (c ∷ cs)) (rest s).1).1.attempts ≡ (rest s).1.attempts
    go (ok _) = refl
    go (err _) = refl

recover_all-IsFenced :
    (env : Environment) (now : Datetime) (delay : ℕ) (lost : List AttemptRecord) (s : Store)
    → IsFenced s
    → IsFenced (recover_all env now delay lost s).1
unfolding recover_all
recover_all-IsFenced env now delay [] s f = f
recover_all-IsFenced env now delay (a ∷ rest) s f =
    let first = Claims-IsFenced f (recover_one-Claims env now a delay s) in
    go (recover_one env now delay a s).0 first (recover_all-IsFenced env now delay rest t first)
  where
    t : Store
    t = (recover_one env now delay a s).1

    go :
        (r : Result AttemptCompletion)
        → IsFenced t
        → IsFenced (recover_all env now delay rest t).1
        → IsFenced (proceed r (λ c. adding c (recover_all env now delay rest)) t).1
    go (err e) first more = first
    go (ok c) first more =
        Claims-IsFenced more (keeps (adding-attempts c (recover_all env now delay rest) t))

pub recover_expired_attempts-IsFenced :
    (env : Environment) (now : Datetime) (delay_seconds limit : ℕ) (s : Store)
    → IsFenced s
    → IsFenced (recover_expired_attempts env now delay_seconds limit s).1
unfolding recover_expired_attempts
recover_expired_attempts-IsFenced env now delay_seconds limit s f =
    go (recovery_arguments delay_seconds limit)
  where
    go :
        (r : Result ℕ)
        → IsFenced
            (proceed r (λ delay. recover_all env now delay (expired_attempts now limit s)) s).1
    go (ok delay) = recover_all-IsFenced env now delay (expired_attempts now limit s) s f
    go (err e) = f
