-- ===== src/Service/State/Verdicts.antt =====
-- What `complete_attempt` of state.py decides, and that a lease is spent by it.
use headless_blender_charact.Prelude.{
  Bool, Option, String, ap, arith, false, if◌then◌else◌, inl, inr, is_some, nat_eq, refl, some,
  string_eq, subst, sym, true, ℕ, ◌+◌, ◌<◌, ◌∙◌, ◌≡◌, ◌⊎◌,
}
use headless_blender_charact.Service.Errors.{Result, err, ok}
use headless_blender_charact.Service.Patterns.{codes}
use headless_blender_charact.Service.Contract.{Datetime, Environment, Uuid, seconds}
use headless_blender_charact.Service.Dict.{Dict, insert, lookup, lookup-insert_self}
use headless_blender_charact.Service.Models.Status.{AttemptStatus, BuildStatus, is_attempt_status}
use headless_blender_charact.Service.Models.Build.{BuildRecord, check_build}
use headless_blender_charact.Service.Models.Attempt.{AttemptRecord, check_attempt}
use headless_blender_charact.Service.Models.Event.{OutboxRecord, check_outbox}
use headless_blender_charact.Service.State.Store.{
  Exec, Store, append_event, append_outbox, attempt_for, get_build, lease_digest, new_outbox,
  proceed, pure, reading, retry_delay, write_attempt, write_build, ◌⨾◌,
}
use headless_blender_charact.Service.State.Leasing.{require_lease}
use headless_blender_charact.Service.State.Completion.{
  AttemptCompletion, complete_attempt, complete_commit, complete_plan, completion_event,
  is_retryable_outcome, requeue_if,
}
use headless_blender_charact.Service.State.Exclusion.{Holds}

-- A method that returned got past its plan.
pub reading_inv :
    {P A : Type 0} (plan : Store → Result P) (commit : P → Exec A) (s : Store) (x : A)
    → (reading plan commit s).0 ≡ ok x
    → (p : P) × (plan s ≡ ok p) × ((commit p s).0 ≡ ok x)
reading_inv {P} {A} plan commit s x h = go (plan s) refl h
  where
    go :
        (r : Result P)
        → plan s ≡ r
        → (proceed r commit s).0 ≡ ok x
        → (p : P) × (plan s ≡ ok p) × ((commit p s).0 ≡ ok x)
    go (ok p) e h = (p, e, h)
    go (err e') e h = cc

-- An action that returns one value, if it returns.
pub record Yields {A : Type 0} (x : A) (k : Exec A) : Type 0 where
  pub value : (s : Store) (y : A) → (k s).0 ≡ ok y → y ≡ x

pub Yields-pure : {A : Type 0} (x : A) → Yields x (pure x)
Yields-pure x = record { value = λ s y h. cc }

pub Yields-then :
    {A : Type 0} (m : Exec (Unit {0})) (k : Exec A) (x : A) → Yields x k → Yields x (m ⨾ k)
Yields-then {A} m k x v = record { value = λ s y h. go (m s).0 (m s).1 y h }
  where
    go :
        (r : Result (Unit {0})) (t : Store) (y : A)
        → (proceed {B = A} r (λ _. k) t).0 ≡ ok y
        → y ≡ x
    go (ok _) t y h = v.value t y h
    go (err _) t y h = cc

module _ (env : Environment) (now : Datetime) (i : Uuid) (token : String) (status : AttemptStatus)
    (exit_code : Option ℕ) (reason_code : String) (retryable : Bool) (delay_seconds : ℕ) (s : Store)
    (c : AttemptCompletion) where
  abbrev plan : Store → Result (AttemptCompletion × ℕ)
  plan = complete_plan env now i token status exit_code reason_code retryable delay_seconds

  abbrev call : Result AttemptCompletion × Store
  call = complete_attempt env now i token status exit_code reason_code retryable delay_seconds s

  abbrev commit : ℕ → Result AttemptCompletion × Store
  commit delay = complete_commit i (c, delay) s

  -- The completion that is returned is the planned one, and is committed.
  planned :
      call.0 ≡ ok c
      → (delay : ℕ) × (plan s ≡ ok (c, delay))
        × ((commit delay).0 ≡ ok c)
        × ((commit delay).1 ≡ call.1)
  unfolding complete_attempt complete_commit
  planned h =
      let ((x, delay), p, q) = reading_inv plan (complete_commit i) s c h in
      let own : x ≡ c = sym ((returns x delay).value s c q) in
      (
        delay,
        subst (λ y. plan s ≡ ok (y, delay)) own p,
        subst (λ y. (complete_commit i (y, delay) s).0 ≡ ok c) own q,
        subst (λ y. (complete_commit i (y, delay) s).1 ≡ call.1) own
            (sym (ap (λ z. (proceed z (complete_commit i) s).1) p)),
      )
    where
      returns : (x : AttemptCompletion) (delay : ℕ) → Yields x (complete_commit i (x, delay))
      returns x delay = Yields-then (write_attempt i x.attempt) _ x (
          Yields-then (write_build x.build.build_id x.build) _ x (
            Yields-then (append_event x.build.build_id (completion_event x)) _ x (
              Yields-then
                (requeue_if x.requeued x.build.build_id x.build.state_version
                  (x.build.updated_at + delay))
                _ x (Yields-pure x))))

  -- The outbox row of a retry.
  abbrev retry_row : ℕ → OutboxRecord
  retry_row delay =
      new_outbox s.next_outbox_id c.build.build_id c.build.state_version
        (c.build.updated_at + delay)

  committed :
      (delay : ℕ)
      → (commit delay).0 ≡ ok c
      → (lookup i (commit delay).1.attempts ≡ some c.attempt)
        × (lookup c.build.build_id (commit delay).1.builds ≡ some c.build)
        × ((c.requeued ≡ false) × ((commit delay).1.outbox ≡ s.outbox)
            ⊎ ((c.requeued ≡ true)
                × ((commit delay).1.outbox ≡ insert s.next_outbox_id (retry_row delay) s.outbox)))
  unfolding complete_commit write_attempt write_build append_event requeue_if append_outbox
      check_outbox
  committed delay h = ground (
    arith,
    lookup-insert_self i c.attempt s.attempts,
    lookup-insert_self c.build.build_id c.build s.builds,
  )

  module _ (a : AttemptRecord) (r : BuildRecord) (h : call.0 ≡ ok c)
      (found_a : lookup i s.attempts ≡ some a) (found_r : lookup a.build_id s.builds ≡ some r) where
    abbrev retried_outbox : Dict ℕ OutboxRecord
    retried_outbox =
        insert s.next_outbox_id
          (new_outbox s.next_outbox_id r.build_id (r.state_version + 1)
            (now + seconds delay_seconds))
          s.outbox

    -- The verdict, given what is known of a retry and of the other outcomes.
    abbrev Verdict : Type 0 → Type 0 → Type 0
    Verdict retry other =
        (is_some r.cancel_requested_at ≡ true)
          × (c.attempt.status ≡ AttemptStatus.canceled)
          × (c.build.status ≡ BuildStatus.canceled)
          × other
        ⊎ ((is_some r.cancel_requested_at ≡ false)
            × (c.attempt.status ≡ status)
            × ((c.build.status ≡ BuildStatus.queued)
                  × (is_retryable_outcome status ≡ true)
                  × (retryable ≡ true)
                  × (a.attempt_number < r.max_attempts)
                  × retry
                ⊎ ((c.build.status ≡ (
                      if is_attempt_status status AttemptStatus.needs_review
                      then BuildStatus.needs_review
                      else BuildStatus.failed))
                    × other)))

    Verdict-map :
        {retry retry' other other' : Type 0}
        → (retry → retry')
        → (other → other')
        → Verdict retry other
        → Verdict retry' other'
    Verdict-map f g (inl (p, q, r, o)) = inl (p, q, r, g o)
    Verdict-map f g (inr (p, q, inl (u, v, w, x, o))) = inr (p, q, inl (u, v, w, x, f o))
    Verdict-map f g (inr (p, q, inr (u, o))) = inr (p, q, inr (u, g o))

    decided :
        (delay : ℕ)
        → plan s ≡ ok (c, delay)
        → Holds env s i token now a
          × (r.status ≡ BuildStatus.running)
          × Verdict (c.requeued ≡ true) (c.requeued ≡ false)
    unfolding complete_plan get_build attempt_for check_build check_attempt require_lease
        lease_digest
    decided delay p = (
      ground (arith, string_eq.beq_iff a.lease_token_sha256 (env.sha256_hex (codes token))),
      ground arith,
      ground arith,
    )

    -- The next version of the build, made at this moment.
    renewed :
        (delay : ℕ)
        → plan s ≡ ok (c, delay)
        → (c.build.build_id ≡ r.build_id)
          × (c.build.state_version ≡ r.state_version + 1)
          × (c.build.updated_at ≡ now)
    unfolding complete_plan get_build attempt_for check_build check_attempt
    renewed delay p = (ground arith, ground arith, ground arith)

    delayed : (delay : ℕ) → plan s ≡ ok (c, delay) → delay ≡ seconds delay_seconds
    unfolding complete_plan retry_delay
    delayed delay p = ground arith

    -- What is left in the outbox, by whether the build goes back to the queue.
    outbox_left :
        (o : Dict ℕ OutboxRecord) (delay : ℕ)
        → c.build.build_id ≡ r.build_id
        → c.build.state_version ≡ r.state_version + 1
        → c.build.updated_at ≡ now
        → delay ≡ seconds delay_seconds
        → (c.requeued ≡ false) × (o ≡ s.outbox)
          ⊎ ((c.requeued ≡ true) × (o ≡ insert s.next_outbox_id (retry_row delay) s.outbox))
        → (c.requeued ≡ true → (c.requeued ≡ true) × (o ≡ retried_outbox))
          × (c.requeued ≡ false → (c.requeued ≡ false) × (o ≡ s.outbox))
    outbox_left o delay e1 e2 e3 e4 (inl (f, p)) = (λ g. cc, λ _. (f, p))
    outbox_left o delay e1 e2 e3 e4 (inr (f, p)) = (λ _. (f, p ∙ rw (e1, e2, e3, e4) refl), λ g. cc)

    -- A completion that returns was asked for by the holder of a live lease on a running build, and
    -- leaves the returned attempt and build in the store. If cancellation was requested, it wins:
    -- attempt and build are CANCELED and the outbox is as before. Otherwise the attempt gets the
    -- reported status, and the build either goes back to the queue, then the outcome was a failure or
    -- a timeout that may be retried, the attempt was not the last one, and the outbox has one new
    -- row, for the next version of the build, available after the delay; or it ends, as NEEDS_REVIEW
    -- if that was reported and else as FAILED, and the outbox is as before.
    pub complete_attempt_verdict :
        Holds env s i token now a
        × (r.status ≡ BuildStatus.running)
        × (lookup i call.1.attempts ≡ some c.attempt)
        × (lookup r.build_id call.1.builds ≡ some c.build)
        × Verdict
            ((c.requeued ≡ true) × (call.1.outbox ≡ retried_outbox))
            ((c.requeued ≡ false) × (call.1.outbox ≡ s.outbox))
    complete_attempt_verdict =
        let (delay, p, q, left) = planned h in
        let (holds, was_running, verdict) = decided delay p in
        let (e1, e2, e3) = renewed delay p in
        let e4 : delay ≡ seconds delay_seconds = delayed delay p in
        let (attempt, build, outbox) = committed delay q in
        let (retry, other) = outbox_left call.1.outbox delay e1 e2 e3 e4 (
          subst
            (λ t.
              (c.requeued ≡ false) × (t.outbox ≡ s.outbox)
              ⊎ ((c.requeued ≡ true)
                  × (t.outbox ≡ insert s.next_outbox_id (retry_row delay) s.outbox)))
            left outbox) in
        (
          holds,
          was_running,
          subst (λ t. lookup i t.attempts ≡ some c.attempt) left attempt,
          subst (λ t. lookup r.build_id t.builds ≡ some c.build) left
              (subst (λ b. lookup b (commit delay).1.builds ≡ some c.build) e1 build),
          Verdict-map retry other verdict,
        )
