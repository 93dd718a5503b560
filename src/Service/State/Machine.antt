-- ===== src/Service/State/Machine.antt =====
-- The state store as a machine: its calls in any order, by any callers. The lock of state.py makes
-- each call one step, so an interleaving of threads is a list of calls.
use headless_blender_charact.Prelude.{Bool, List, Option, String, [], ℕ, ◌∷◌}
use headless_blender_charact.Service.Errors.{Result}
use headless_blender_charact.Service.Contract.{Bytes, Datetime, Environment, Uuid}
use headless_blender_charact.Service.Models.Status.{AttemptStatus, BuildStatus}
use headless_blender_charact.Service.Models.Attempt.{AttemptRecord}
use headless_blender_charact.Service.Models.Artifact.{ArtifactRecord}
use headless_blender_charact.Service.State.Store.{Settings, Store, empty_store}
use headless_blender_charact.Service.State.Submit.{submit}
use headless_blender_charact.Service.State.Leasing.{
  heartbeat_attempt, lease_build, register_running_attempt,
}
use headless_blender_charact.Service.State.Completion.{complete_attempt}
use headless_blender_charact.Service.State.Recovery.{recover_expired_attempts}
use headless_blender_charact.Service.State.Outbox.{
  dispatch_outbox, mark_outbox_dispatched, mark_outbox_error,
}
use headless_blender_charact.Service.State.Transitions.{request_cancel, transition}
use headless_blender_charact.Service.State.Publication.{publish_attempt_success, publish_success}
use headless_blender_charact.Service.State.Moves.{Moves, Runs, Runs-trans, here, next}
use headless_blender_charact.Service.State.Audit.{IsAudited, Runs-IsAudited, empty_store-IsAudited}
use headless_blender_charact.Service.State.Moves.Leasing.{
  heartbeat_attempt-Moves, lease_build-Moves, register_running_attempt-Moves,
}
use headless_blender_charact.Service.State.Moves.Completion.{complete_attempt-Moves}
use headless_blender_charact.Service.State.Moves.Recovery.{recover_expired_attempts-Runs}
use headless_blender_charact.Service.State.Moves.Transitions.{
  request_cancel-Moves, transition-Moves,
}
use headless_blender_charact.Service.State.Moves.Publication.{
  publish_attempt_success-Moves, publish_success-Moves,
}
use headless_blender_charact.Service.State.Moves.Submit.{
  dispatch_outbox-Moves, mark_outbox_dispatched-Moves, mark_outbox_error-Moves, submit-Moves,
}

-- The methods of `InMemoryStateStore` that write, with what they read from outside: the moment, a
-- fresh identifier, and the queue behind the callback of `dispatch_outbox`.
pub data Call (Q : Type 0) : Type 0 where
  submits : Uuid → Datetime → Bytes → Option String → Call Q
  registers : AttemptRecord → Call Q
  leases : Uuid → Datetime → Uuid → String → String → ℕ → Call Q
  heartbeats : Datetime → Uuid → String → ℕ → Call Q
  completes : Datetime → Uuid → String → AttemptStatus → Option ℕ → String → Bool → ℕ → Call Q
  publishes_attempt : Datetime → Datetime → Uuid → String → List ArtifactRecord → Call Q
  publishes : Datetime → Uuid → ℕ → List ArtifactRecord → Call Q
  recovers : Datetime → ℕ → ℕ → Call Q
  marks_dispatched : Datetime → ℕ → Call Q
  marks_error : ℕ → String → Call Q
  dispatches : Datetime → ℕ → ℕ → Q → Call Q
  transitions : Datetime → Uuid → ℕ → BuildStatus → Option String → Call Q
  cancels : Datetime → Uuid → ℕ → Call Q

module _ {Q : Type 0} (enqueue : Uuid → Q → Result String × Q) (env : Environment)
    (c : Settings) where
  -- The store after one call, whether it returned or raised.
  unfoldable pub perform : Call Q → Store → Store
  perform (submits b now request key) s = (submit env c b now request key s).1
  perform (registers a) s = (register_running_attempt a s).1
  perform (leases a now b worker token secs) s = (lease_build env a now b worker token secs s).1
  perform (heartbeats now a token secs) s = (heartbeat_attempt env now a token secs s).1
  perform (completes now a token status code reason retry delay) s =
      (complete_attempt env now a token status code reason retry delay s).1
  perform (publishes_attempt checked now a token records) s =
      (publish_attempt_success env c checked now a token records s).1
  perform (publishes now b version records) s = (publish_success env c now b version records s).1
  perform (recovers now delay limit) s = (recover_expired_attempts env now delay limit s).1
  perform (marks_dispatched now i) s = (mark_outbox_dispatched now i s).1
  perform (marks_error i reason) s = (mark_outbox_error i reason s).1
  perform (dispatches now limit delay q) s = (dispatch_outbox enqueue now limit delay s q).1
  perform (transitions now b version target reason) s =
      (transition env now b version target reason s).1
  perform (cancels now b version) s = (request_cancel env now b version s).1

  unfoldable pub perform_all : List (Call Q) → Store → Store
  perform_all [] s = s
  perform_all (call ∷ calls) s = perform_all calls (perform call s)

  one : {s t : Store} → Moves s t → Runs s t
  one m = next here m

  pub perform-Runs : (call : Call Q) (s : Store) → IsAudited s → Runs s (perform call s)
  unfolding perform
  perform-Runs (submits b now request key) s v = one (submit-Moves env c b now request key s)
  perform-Runs (registers a) s v = one (register_running_attempt-Moves a s)
  perform-Runs (leases a now b worker token secs) s v =
      one (lease_build-Moves env a now b worker token secs s v)
  perform-Runs (heartbeats now a token secs) s v =
      one (heartbeat_attempt-Moves env now a token secs s)
  perform-Runs (completes now a token status code reason retry delay) s v =
      one (complete_attempt-Moves env now a token status code reason retry delay s v)
  perform-Runs (publishes_attempt checked now a token records) s v =
      one (publish_attempt_success-Moves env c checked now a token records s v)
  perform-Runs (publishes now b version records) s v =
      one (publish_success-Moves env c now b version records s v)
  perform-Runs (recovers now delay limit) s v =
      recover_expired_attempts-Runs env now delay limit s v
  perform-Runs (marks_dispatched now i) s v = one (mark_outbox_dispatched-Moves now i s)
  perform-Runs (marks_error i reason) s v = one (mark_outbox_error-Moves i reason s)
  perform-Runs (dispatches now limit delay q) s v =
      one (dispatch_outbox-Moves enqueue now limit delay s q)
  perform-Runs (transitions now b version target reason) s v =
      one (transition-Moves env now b version s target reason v)
  perform-Runs (cancels now b version) s v = one (request_cancel-Moves env now b version s v)

  pub perform_all-Runs :
      (calls : List (Call Q)) (s : Store) → IsAudited s → Runs s (perform_all calls s)
  unfolding perform_all
  perform_all-Runs [] s v = here
  perform_all-Runs (call ∷ calls) s v =
      let first = perform-Runs call s v in
      Runs-trans first (perform_all-Runs calls (perform call s) (Runs-IsAudited v first))

  -- From an empty store, any calls lead to a store in which every build has a complete event log:
  -- numbered from 1 without a gap, each event starting where the one before it ended, the last one
  -- ending in the status of the build, and one event more than the version of the build.
  pub perform_all-IsAudited : (calls : List (Call Q)) → IsAudited (perform_all calls empty_store)
  perform_all-IsAudited calls =
      Runs-IsAudited empty_store-IsAudited
        (perform_all-Runs calls empty_store empty_store-IsAudited)
