-- ===== src/Service/State/Grants.antt =====
-- What `lease_build` of state.py grants, and when it grants nothing.
use headless_blender_charact.Prelude.{
  Option, String, ap, arith, false, nat_eq, none, refl, some, string_eq, subst, sym, ℕ, ◌+◌, ◌∙◌,
  ◌≡◌, ◌≤◌,
}
use headless_blender_charact.Service.Errors.{Result, ok}
use headless_blender_charact.Service.Patterns.{codes}
use headless_blender_charact.Service.Contract.{Datetime, Environment, Uuid, seconds}
use headless_blender_charact.Service.Dict.{lookup, lookup-insert_self}
use headless_blender_charact.Service.Models.Status.{BuildStatus, is_status}
use headless_blender_charact.Service.Models.Build.{BuildRecord, check_build}
use headless_blender_charact.Service.Models.Attempt.{check_attempt}
use headless_blender_charact.Service.State.Store.{
  Store, append_event, attempts_of, get_build, lease_digest, lease_duration, proceed, write_attempt,
  write_build,
}
use headless_blender_charact.Service.State.Leasing.{
  AttemptLease, last_number, lease_build, lease_commit, lease_event, lease_plan, lease_queued,
}
use headless_blender_charact.Service.State.Verdicts.{Yields, Yields-pure, Yields-then, reading_inv}

module _ (env : Environment) (i : Uuid) (now : Datetime) (b : Uuid) (worker token : String)
    (secs : ℕ) (s : Store) (r : BuildRecord) (found_r : lookup b s.builds ≡ some r) where
  abbrev planned : Result (Option AttemptLease)
  planned = lease_plan env i now b worker token secs s

  -- A lease that is granted.
  pub record IsGranted (l : AttemptLease) (t : Store) : Type 0 where
    pub was_queued : r.status ≡ BuildStatus.queued
    pub running : l.build.status ≡ BuildStatus.running
    pub next_number : l.attempt.attempt_number ≡ last_number (attempts_of b s) + 1
    pub in_limit : l.attempt.attempt_number ≤ r.max_attempts
    pub fresh_attempt : lookup i s.attempts ≡ none
    pub own_token : l.attempt.lease_token_sha256 ≡ env.sha256_hex (codes token)
    pub expires : l.attempt.lease_expires_at ≡ now + seconds secs
    pub attempt_written : lookup i t.attempts ≡ some l.attempt
    pub build_written : lookup b t.builds ≡ some l.build

  plan_granted :
      (l : AttemptLease)
      → planned ≡ ok (some l)
      → (r.status ≡ BuildStatus.queued)
        × (l.build.status ≡ BuildStatus.running)
        × (l.attempt.attempt_number ≡ last_number (attempts_of b s) + 1)
        × (l.attempt.attempt_number ≤ r.max_attempts)
        × (lookup i s.attempts ≡ none)
        × (l.attempt.lease_token_sha256 ≡ env.sha256_hex (codes token))
        × (l.attempt.lease_expires_at ≡ now + seconds secs)
        × (l.attempt.attempt_id ≡ i)
  unfolding lease_plan get_build lease_digest lease_duration lease_queued check_attempt check_build
  plan_granted l h = ground arith

  plan_nothing : planned ≡ ok none → is_status r.status BuildStatus.queued ≡ false
  unfolding lease_plan get_build lease_queued
  plan_nothing h = ground arith

  committed :
      (l : AttemptLease)
      → (lease_commit b (some l) s).0 ≡ ok (some l)
      → (lookup l.attempt.attempt_id (lease_commit b (some l) s).1.attempts ≡ some l.attempt)
        × (lookup b (lease_commit b (some l) s).1.builds ≡ some l.build)
  unfolding lease_commit write_attempt write_build append_event
  committed l h = ground (
    arith,
    lookup-insert_self l.attempt.attempt_id l.attempt s.attempts,
    lookup-insert_self b l.build s.builds,
  )

  -- How a call ends that returns.
  pub data Grants (o : Option AttemptLease) (t : Store) : Type 0 where
    granted : (l : AttemptLease) → o ≡ some l → IsGranted l t → Grants o t
    not_queued : o ≡ none → is_status r.status BuildStatus.queued ≡ false → t ≡ s → Grants o t

  returned : (l : AttemptLease) → Yields (some l) (lease_commit b (some l))
  unfolding lease_commit
  returned l = Yields-then (write_attempt l.attempt.attempt_id l.attempt) _ (some l) (
      Yields-then (write_build b l.build) _ (some l)
        (Yields-then (append_event b (lease_event b l)) _ (some l) (Yields-pure (some l))))

  plan-Grants :
      (p o : Option AttemptLease)
      → planned ≡ ok p
      → (lease_commit b p s).0 ≡ ok o
      → Grants o (lease_commit b p s).1
  unfolding lease_commit
  plan-Grants none o q e = not_queued (ground arith) (plan_nothing q) refl
  plan-Grants (some l) o q e =
      let own : o ≡ some l = (returned l).value s o e in
      let (was_queued, running, number, in_limit, fresh_attempt, own_token, expires, own_id) =
        plan_granted l q in
      let (attempt_written, build_written) = committed l (e ∙ ap ok own) in
      granted l own (record {
        was_queued = was_queued;
        running = running;
        next_number = number;
        in_limit = in_limit;
        fresh_attempt = fresh_attempt;
        own_token = own_token;
        expires = expires;
        attempt_written =
            subst (λ k. lookup k (lease_commit b (some l) s).1.attempts ≡ some l.attempt) own_id
              attempt_written;
        build_written = build_written;
      })

  -- A call that returns either grants a lease or answers that there is none to have. It grants one
  -- only for a QUEUED build: the build is then RUNNING, and a new attempt is written with the number
  -- after the highest so far, within the build's limit, the digest of the token, and an expiry the
  -- asked time after the present. Otherwise the build was not QUEUED, and the store is unchanged.
  pub lease_build-Grants :
      (o : Option AttemptLease)
      → (lease_build env i now b worker token secs s).0 ≡ ok o
      → Grants o (lease_build env i now b worker token secs s).1
  unfolding lease_build
  lease_build-Grants o h =
      let (p, q, e) =
        reading_inv (lease_plan env i now b worker token secs) (lease_commit b) s o h in
      subst (Grants o) (sym (ap (λ x. (proceed x (lease_commit b) s).1) q)) (plan-Grants p o q e)
