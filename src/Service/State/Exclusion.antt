-- ===== src/Service/State/Exclusion.antt =====
-- Mutual exclusion of the workers of a build, over any calls of state.py, and what a lease is worth.
use headless_blender_charact.Prelude.{
  List, String, [], arith, nat_eq, some, string_eq, true, ℕ, ◌+◌, ◌<◌, ◌∷◌, ◌≡◌, ◌≤◌,
}
use headless_blender_charact.Service.Errors.{Result, ok}
use headless_blender_charact.Service.Patterns.{codes}
use headless_blender_charact.Service.Contract.{Datetime, Environment, Uuid, seconds}
use headless_blender_charact.Service.Dict.{lookup, lookup-insert, values}
use headless_blender_charact.Service.Models.Status.{is_active}
use headless_blender_charact.Service.Models.Attempt.{AttemptRecord, check_attempt}
use headless_blender_charact.Service.State.Store.{
  Settings, Store, attempt_for, empty_store, lease_digest, lease_duration, write_attempt,
}
use headless_blender_charact.Service.State.Leasing.{
  AttemptHeartbeat, heartbeat_answer, heartbeat_attempt, heartbeat_plan, require_lease,
}
use headless_blender_charact.Service.State.Fence.{Claims-IsFenced, IsFenced, live_count}
use headless_blender_charact.Service.State.Fence.Leases.{
  heartbeat_attempt-Claims, lease_build-Claims, register_running_attempt-Claims,
}
use headless_blender_charact.Service.State.Fence.Outcomes.{
  complete_attempt-Claims, recover_expired_attempts-IsFenced,
}
use headless_blender_charact.Service.State.Fence.Others.{
  dispatch_outbox-Claims, mark_outbox_dispatched-Claims, mark_outbox_error-Claims,
  publish_attempt_success-Claims, publish_success-Claims, request_cancel-Claims, submit-Claims,
  transition-Claims,
}
use headless_blender_charact.Service.State.Machine.{
  Call, cancels, completes, dispatches, heartbeats, leases, marks_dispatched, marks_error, perform,
  perform_all, publishes, publishes_attempt, recovers, registers, submits, transitions,
}

empty_store-IsFenced : IsFenced empty_store
unfolding live_count empty_store values
empty_store-IsFenced = record { single = λ b. omega arith }

module _ {Q : Type 0} (enqueue : Uuid → Q → Result String × Q) (env : Environment)
    (c : Settings) where
  perform-IsFenced :
      (call : Call Q) (s : Store) → IsFenced s → IsFenced (perform enqueue env c call s)
  unfolding perform
  perform-IsFenced (submits b now request key) s f =
      Claims-IsFenced f (submit-Claims env c b now request key s)
  perform-IsFenced (registers a) s f = Claims-IsFenced f (register_running_attempt-Claims a s)
  perform-IsFenced (leases a now b worker token secs) s f =
      Claims-IsFenced f (lease_build-Claims env a now b worker token secs s)
  perform-IsFenced (heartbeats now a token secs) s f =
      Claims-IsFenced f (heartbeat_attempt-Claims env now a token secs s)
  perform-IsFenced (completes now a token status code reason retry delay) s f =
      Claims-IsFenced f (complete_attempt-Claims env now a token status code reason retry delay s)
  perform-IsFenced (publishes_attempt checked now a token records) s f =
      Claims-IsFenced f (publish_attempt_success-Claims env c checked now a token records s)
  perform-IsFenced (publishes now b version records) s f =
      Claims-IsFenced f (publish_success-Claims env c now b version records s)
  perform-IsFenced (recovers now delay limit) s f =
      recover_expired_attempts-IsFenced env now delay limit s f
  perform-IsFenced (marks_dispatched now i) s f =
      Claims-IsFenced f (mark_outbox_dispatched-Claims now i s)
  perform-IsFenced (marks_error i reason) s f =
      Claims-IsFenced f (mark_outbox_error-Claims i reason s)
  perform-IsFenced (dispatches now limit delay q) s f =
      Claims-IsFenced f (dispatch_outbox-Claims enqueue now limit delay s q)
  perform-IsFenced (transitions now b version target reason) s f =
      Claims-IsFenced f (transition-Claims env now b version target reason s)
  perform-IsFenced (cancels now b version) s f =
      Claims-IsFenced f (request_cancel-Claims env now b version s)

  calls-IsFenced :
      (calls : List (Call Q)) (s : Store)
      → IsFenced s
      → IsFenced (perform_all enqueue env c calls s)
  unfolding perform_all
  calls-IsFenced [] s f = f
  calls-IsFenced (call ∷ calls) s f =
      calls-IsFenced calls (perform enqueue env c call s) (perform-IsFenced call s f)

  -- From an empty store, any calls lead to a store in which no build has two attempts that are
  -- LEASED or RUNNING: no two workers ever hold the same build.
  pub live_at_most_one :
      (calls : List (Call Q)) (b : Uuid)
      → live_count b (perform_all enqueue env c calls empty_store) ≤ 1
  live_at_most_one calls b = (calls-IsFenced calls empty_store empty_store-IsFenced).single b

-- What a lease must be for a call under it to return.
pub record Holds (env : Environment) (s : Store) (i : Uuid) (token : String) (now : Datetime)
    (a : AttemptRecord) : Type 0 where
  pub found_attempt : lookup i s.attempts ≡ some a
  pub live : is_active a.status ≡ true
  pub own_token : a.lease_token_sha256 ≡ env.sha256_hex (codes token)
  pub not_expired : now < a.lease_expires_at

module _ (env : Environment) (now : Datetime) (i : Uuid) (token : String) (s : Store)
    (a : AttemptRecord) (found_a : lookup i s.attempts ≡ some a) where
  -- A renewal that returns was asked for by the holder of a live lease: the attempt is LEASED or
  -- RUNNING, the token has the digest that was leased, and the lease has not expired. It sets the
  -- expiry to the asked time after the present, and the answer says so.
  pub heartbeat_attempt-Holds :
      (lease_seconds : ℕ) (b : AttemptHeartbeat)
      → (heartbeat_attempt env now i token lease_seconds s).0 ≡ ok b
      → Holds env s i token now a
        × (b.lease_expires_at ≡ now + seconds lease_seconds)
        × (lookup i (heartbeat_attempt env now i token lease_seconds s).1.attempts
            ≡ some
                (record a { heartbeat_at = now; lease_expires_at = now + seconds lease_seconds }))
  unfolding heartbeat_attempt heartbeat_plan heartbeat_answer attempt_for require_lease lease_digest
      lease_duration check_attempt write_attempt
  heartbeat_attempt-Holds lease_seconds b h = ground (
    arith,
    lookup-insert i i
        (record a { heartbeat_at = now; lease_expires_at = now + seconds lease_seconds })
        s.attempts,
    (string_eq.beq_iff a.lease_token_sha256 (env.sha256_hex (codes token))),
  )
