-- ===== src/Service/State/Fence/Leases.antt =====
-- The methods of state.py that claim or renew an attempt keep to the fence.
use headless_blender_charact.Prelude.{
  Option, Option-cases, String, any, ap, arith, false, inl, inr, nat_eq, none, refl, some,
  string_eq, subst, sym, ℕ, ◌+◌, ◌≡◌,
}
use headless_blender_charact.Service.Errors.{Result, ok}
use headless_blender_charact.Service.Contract.{Datetime, Environment, Uuid, seconds}
use headless_blender_charact.Service.Dict.{lookup, values}
use headless_blender_charact.Service.Models.Status.{is_active}
use headless_blender_charact.Service.Models.Build.{check_build}
use headless_blender_charact.Service.Models.Attempt.{AttemptRecord, check_attempt}
use headless_blender_charact.Service.State.Store.{
  Store, attempt_for, attempts_of, lease_duration, pure, write_attempt, ◌⨾◌,
}
use headless_blender_charact.Service.State.Leasing.{
  AttemptLease, heartbeat_answer, heartbeat_attempt, heartbeat_plan, lease_build, lease_commit,
  lease_event, lease_plan, register_plan, register_running_attempt,
}
use headless_blender_charact.Service.State.Fence.{
  Claims, claims, is_live_of, keeps, live_count, renews,
}
use headless_blender_charact.Service.State.Fence.Effects.{
  KeepsAttempts-advance, KeepsAttempts-pure, count-any, count-kept, reading_rule,
}

module _ (env : Environment) (attempt_id : Uuid) (now : Datetime) (build_id : Uuid)
    (worker_id lease_token : String) (lease_seconds : ℕ) (s : Store) where
  abbrev lease_planned : Result (Option AttemptLease)
  lease_planned = lease_plan env attempt_id now build_id worker_id lease_token lease_seconds s

  leased_attempt :
      (l : AttemptLease)
      → lease_planned ≡ ok (some l)
      → (l.attempt.build_id ≡ build_id)
        × (lookup l.attempt.attempt_id s.attempts ≡ none)
        × (any (λ a. is_active a.status) (attempts_of build_id s) ≡ false)
  unfolding lease_plan check_build check_attempt
  leased_attempt l h = ground arith

  pub lease_build-Claims :
      Claims s (lease_build env attempt_id now build_id worker_id lease_token lease_seconds s).1
  unfolding lease_build lease_commit write_attempt live_count attempts_of
  lease_build-Claims =
      reading_rule (Claims s)
        (lease_plan env attempt_id now build_id worker_id lease_token lease_seconds)
        (lease_commit build_id) s (keeps refl) go
    where
      go : (p : Option AttemptLease) → lease_planned ≡ ok p → Claims s (lease_commit build_id p s).1
      go none h = keeps refl
      go (some l) h =
          let (own, new, free) = leased_attempt l h in
          claims l.attempt.attempt_id l.attempt new
            (subst (λ b. live_count b s ≡ 0) (sym own)
              (count-kept build_id (values s.attempts) free))
            ((KeepsAttempts-advance build_id build_id l.build (lease_event build_id l)
                (pure (some l)) (KeepsAttempts-pure (some l))).at
              _)

module _ (env : Environment) (now : Datetime) (attempt_id : Uuid) (lease_token : String)
    (lease_seconds : ℕ) (s : Store) where
  abbrev renewal : Result AttemptRecord
  renewal = heartbeat_plan env now attempt_id lease_token lease_seconds s

  renewed :
      (v : AttemptRecord)
      → renewal ≡ ok v
      → (a : AttemptRecord) × (lookup attempt_id s.attempts ≡ some a)
        × (v ≡ record a { heartbeat_at = now; lease_expires_at = now + seconds lease_seconds })
  unfolding heartbeat_plan attempt_for check_attempt lease_duration
  renewed v h = elim (Option-cases (lookup attempt_id s.attempts)) [
    | inl missing ↦ absurd (ground arith)
    | inr (a, was) ↦ (a, was, ground arith)
  ]

  answer-attempts :
      (v : AttemptRecord) (t : Store) → (heartbeat_answer attempt_id v t).1.attempts ≡ t.attempts
  unfolding heartbeat_answer
  answer-attempts v t = ground arith

  pub heartbeat_attempt-Claims :
      Claims s (heartbeat_attempt env now attempt_id lease_token lease_seconds s).1
  unfolding heartbeat_attempt write_attempt
  heartbeat_attempt-Claims =
      reading_rule (Claims s) (heartbeat_plan env now attempt_id lease_token lease_seconds)
        (λ a. write_attempt attempt_id a ⨾ heartbeat_answer attempt_id a) s (keeps refl) go
    where
      go :
          (v : AttemptRecord)
          → renewal ≡ ok v
          → Claims s ((write_attempt attempt_id v ⨾ heartbeat_answer attempt_id v) s).1
      go v h =
          let (a, was, is_renewed) = renewed v h in
          renews attempt_id a v was (ap (λ x. x.build_id) is_renewed)
            (ap (λ x. x.status) is_renewed) (answer-attempts v _)

module _ (a : AttemptRecord) (s : Store) where
  registered :
      register_plan a s ≡ ok tt
      → (lookup a.attempt_id s.attempts ≡ none)
        × (any (is_live_of a.build_id) (values s.attempts) ≡ false)
  unfolding register_plan
  registered h = ground arith

  pub register_running_attempt-Claims : Claims s (register_running_attempt a s).1
  unfolding register_running_attempt write_attempt live_count
  register_running_attempt-Claims =
      reading_rule (Claims s) (register_plan a) (λ _. write_attempt a.attempt_id a ⨾ pure a) s
        (keeps refl)
        (λ p h.
          let (new, free) = registered h in
          claims a.attempt_id a new (count-any (is_live_of a.build_id) (values s.attempts) free)
            refl)
