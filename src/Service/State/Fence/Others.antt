-- ===== src/Service/State/Fence/Others.antt =====
-- The methods of state.py that publish, and those that leave the attempts alone, keep to the fence.
use headless_blender_charact.Prelude.{
  List, Option, String, [], arith, none, refl, some, true, ℕ, ◌∷◌, ◌≡◌,
}
use headless_blender_charact.Service.Errors.{Result, err, ok, ◌>>◌}
use headless_blender_charact.Service.Contract.{Bytes, Datetime, Environment, Uuid}
use headless_blender_charact.Service.Models.Status.{BuildStatus}
use headless_blender_charact.Service.Models.Build.{BuildRecord}
use headless_blender_charact.Service.Models.Attempt.{attempt_post_init, check_attempt}
use headless_blender_charact.Service.Models.Artifact.{ArtifactRecord}
use headless_blender_charact.Service.Models.Event.{OutboxRecord, check_outbox}
use headless_blender_charact.Service.Idempotency.{RequestFingerprint}
use headless_blender_charact.Service.State.Store.{
  Exec, Settings, Store, append_event, append_outbox, pure, write_attempt, write_build, ◌⨾◌,
}
use headless_blender_charact.Service.State.Submit.{
  Submission, fresh, remember_request, replayed, submit, submit_commit, submit_plan, write_log,
}
use headless_blender_charact.Service.State.Outbox.{
  dispatch_all, dispatch_arguments, dispatch_checked, dispatch_one, dispatch_outbox, due_rows,
  mark_outbox_dispatched, mark_outbox_error,
}
use headless_blender_charact.Service.State.Transitions.{
  cancel_commit, cancel_event, cancel_plan, request_cancel, transition, transition_commit,
  transition_event, transition_plan,
}
use headless_blender_charact.Service.State.Publication.{
  Publication, closed_attempt, fenced_build, publish_attempt_success, publish_commit, publish_plan,
  publish_success, success_event, write_artifacts, write_closed,
}
use headless_blender_charact.Service.State.Fence.{Claims, closes, keeps}
use headless_blender_charact.Service.State.Fence.Effects.{
  KeepsAttempts, KeepsAttempts-advance, KeepsAttempts-append_outbox, KeepsAttempts-pure,
  KeepsAttempts-requeue_if, KeepsAttempts-then, reading_rule,
}

module _ (env : Environment) (c : Settings) (now : Datetime) (build_id : Uuid)
    (expected_version : ℕ) (records : List ArtifactRecord) (s : Store) where
  pub publish_success-Claims :
      Claims s (publish_success env c now build_id expected_version records s).1
  unfolding publish_success publish_commit write_artifacts write_closed write_attempt check_attempt
  publish_success-Claims =
      reading_rule (Claims s) (publish_plan env c now build_id expected_version records)
        (publish_commit build_id) s (keeps refl)
        (λ p h. go p (attempt_post_init (closed_attempt p.moment p.attempt)))
    where
      finish : Publication → Exec BuildRecord
      finish p =
          write_build build_id p.build
          ⨾ append_event build_id (success_event build_id p)
          ⨾ pure p.build

      go :
          (p : Publication) (r : Result (Unit {0}))
          → Claims s
              ((write_closed p.attempt_id (do r; ok (closed_attempt p.moment p.attempt)) ⨾ finish p)
                (write_artifacts build_id p.artifacts s).1).1
      go p (err e) = keeps refl
      go p (ok _) = closes p.attempt_id (closed_attempt p.moment p.attempt) refl (
          (KeepsAttempts-advance build_id build_id p.build (success_event build_id p) (pure p.build)
              (KeepsAttempts-pure p.build)).at
            _)

pub publish_attempt_success-Claims :
    (env : Environment) (c : Settings) (checked_at now : Datetime) (attempt_id : Uuid)
    (lease_token : String) (records : List ArtifactRecord) (s : Store)
    → Claims s (publish_attempt_success env c checked_at now attempt_id lease_token records s).1
unfolding publish_attempt_success
publish_attempt_success-Claims env c checked_at now attempt_id lease_token records s =
    reading_rule (Claims s) (fenced_build env checked_at attempt_id lease_token)
      (λ build. publish_success env c now build.build_id build.state_version records) s (keeps refl)
      (λ build h. publish_success-Claims env c now build.build_id build.state_version records s)

pub transition-Claims :
    (env : Environment) (now : Datetime) (build_id : Uuid) (expected_version : ℕ)
    (target : BuildStatus) (reason_code : Option String) (s : Store)
    → Claims s (transition env now build_id expected_version target reason_code s).1
unfolding transition transition_commit
transition-Claims env now build_id expected_version target reason_code s =
    reading_rule (Claims s) (transition_plan env now build_id expected_version target reason_code)
      (transition_commit build_id) s (keeps refl) (λ p h. keeps (go p))
  where
    go :
        (p : BuildRecord × BuildRecord × Option String)
        → (transition_commit build_id p s).1.attempts ≡ s.attempts
    go (u, v, reason) =
        (KeepsAttempts-advance build_id v.build_id u (transition_event v u reason) _ (
            KeepsAttempts-then _ (pure u) (KeepsAttempts-requeue_if _ _ _ _)
              (KeepsAttempts-pure u))).at
          s

pub request_cancel-Claims :
    (env : Environment) (now : Datetime) (build_id : Uuid) (expected_version : ℕ) (s : Store)
    → Claims s (request_cancel env now build_id expected_version s).1
unfolding request_cancel cancel_commit
request_cancel-Claims env now build_id expected_version s =
    reading_rule (Claims s) (cancel_plan env now build_id expected_version) (cancel_commit build_id)
      s (keeps refl) (λ p h. keeps (go p))
  where
    go :
        (p : BuildRecord × Option BuildStatus)
        → (cancel_commit build_id p s).1.attempts ≡ s.attempts
    go (u, none) = refl
    go (u, some before) =
        (KeepsAttempts-advance build_id build_id u (cancel_event build_id u before) (pure u)
            (KeepsAttempts-pure u)).at
          s

remember_request_attempts :
    (d : Option String) (f : RequestFingerprint) (b : Uuid) (s : Store)
    → (remember_request d f b s).1.attempts ≡ s.attempts
unfolding remember_request
remember_request_attempts d f b s = ground arith

pub submit-Claims :
    (env : Environment) (c : Settings) (build_id : Uuid) (now : Datetime) (request : Bytes)
    (key : Option String) (s : Store)
    → Claims s (submit env c build_id now request key s).1
unfolding submit submit_commit write_build write_log
submit-Claims env c build_id now request key s =
    reading_rule (Claims s) (submit_plan env c build_id now request key) submit_commit s
      (keeps refl) (λ p h. keeps (go p))
  where
    remembered :
        (d : Option String) (f : RequestFingerprint) (b : Uuid)
        → KeepsAttempts (remember_request d f b)
    remembered d f b = record { at = remember_request_attempts d f b }

    go : (p : Submission) → (submit_commit p s).1.attempts ≡ s.attempts
    go (replayed r) = refl
    go (fresh d f r log) =
        (KeepsAttempts-then (remember_request d f r.build_id) _ (remembered d f r.build_id) (
            KeepsAttempts-then (append_outbox r.build_id r.state_version r.created_at)
              (pure (record { build = r; created = true })) (KeepsAttempts-append_outbox _ _ _)
              (KeepsAttempts-pure _))).at
          _

pub mark_outbox_dispatched-Claims :
    (now : Datetime) (i : ℕ) (s : Store) → Claims s (mark_outbox_dispatched now i s).1
unfolding mark_outbox_dispatched
mark_outbox_dispatched-Claims now i s = keeps (ground arith)

pub mark_outbox_error-Claims :
    (i : ℕ) (reason_code : String) (s : Store) → Claims s (mark_outbox_error i reason_code s).1
unfolding mark_outbox_error
mark_outbox_error-Claims i reason_code s = keeps (ground arith)

module _ {Q : Type 0} (enqueue : Uuid → Q → Result String × Q) (now : Datetime) where
  dispatch_one-attempts :
      (delay : ℕ) (r : OutboxRecord) (s : Store) (q : Q)
      → (dispatch_one enqueue now delay r s q).1.attempts ≡ s.attempts
  unfolding dispatch_one check_outbox
  dispatch_one-attempts delay r s q = ground arith

  dispatch_all-attempts :
      (delay : ℕ) (rows : List OutboxRecord) (s : Store) (q : Q)
      → (dispatch_all enqueue now delay rows s q).1.attempts ≡ s.attempts
  unfolding dispatch_all
  dispatch_all-attempts delay [] s q = refl
  dispatch_all-attempts delay (r ∷ rows) s q =
      let t = dispatch_one enqueue now delay r s q in
      ground (arith, dispatch_one-attempts delay r s q, dispatch_all-attempts delay rows t.1 t.2)

  pub dispatch_outbox-Claims :
      (limit delay_seconds : ℕ) (s : Store) (q : Q)
      → Claims s (dispatch_outbox enqueue now limit delay_seconds s q).1
  unfolding dispatch_outbox dispatch_checked
  dispatch_outbox-Claims limit delay_seconds s q = go (dispatch_arguments delay_seconds limit)
    where
      go : (r : Result ℕ) → Claims s (dispatch_checked enqueue now limit r s q).1
      go (err e) = keeps refl
      go (ok delay) = keeps (dispatch_all-attempts delay (due_rows now limit s) s q)
