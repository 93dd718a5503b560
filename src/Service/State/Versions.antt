-- ===== src/Service/State/Versions.antt =====
-- Optimistic concurrency in state.py: an expected version is good for one change.
use headless_blender_charact.Prelude.{
  Bool, List, Option, String, arith, false, nat_eq, refl, some, string_eq, ℕ, ◌+◌, ◌<◌, ◌==◌, ◌∙◌,
  ◌≡◌,
}
use headless_blender_charact.Service.State.Moves.{here, next}
use headless_blender_charact.Service.State.Audit.{Runs-IsAudited}
use headless_blender_charact.Service.State.Machine.{
  Call, perform_all, perform_all-IsAudited, perform_all-Runs,
}
use headless_blender_charact.Service.State.Lifecycle.{Runs-version}
use headless_blender_charact.Service.State.Moves.Transitions.{transition-Moves}
use headless_blender_charact.Service.Errors.{Code, Result, conflict, err, ok}
use headless_blender_charact.Service.Contract.{Datetime, Environment, Uuid, list_eq}
use headless_blender_charact.Service.Dict.{lookup, lookup-insert_self}
use headless_blender_charact.Service.Models.Status.{BuildStatus, is_status}
use headless_blender_charact.Service.Models.Build.{BuildRecord, check_build}
use headless_blender_charact.Service.Models.Artifact.{ArtifactRecord}
use headless_blender_charact.Service.Models.Event.{BuildEvent}
use headless_blender_charact.Service.State.Store.{
  Exec, Settings, Store, append_event, append_outbox, empty_store, get_build, proceed, pure,
  require_version, write_build, ◌⨾◌,
}
use headless_blender_charact.Service.State.Completion.{requeue_if}
use headless_blender_charact.Service.State.Transitions.{
  cancel_plan, request_cancel, transition, transition_commit, transition_event, transition_plan,
}
use headless_blender_charact.Service.State.Publication.{publish_plan, publish_success}
use headless_blender_charact.Service.State.Verdicts.{Yields, Yields-pure, Yields-then, reading_inv}

record KeepsBuilds {A : Type 0} (k : Exec A) : Type 0 where
  kept : (s : Store) → (k s).1.builds ≡ s.builds

KeepsBuilds-pure : {A : Type 0} (x : A) → KeepsBuilds (pure x)
KeepsBuilds-pure x = record { kept = λ s. refl }

KeepsBuilds-then :
    {A : Type 0} (m : Exec (Unit {0})) (k : Exec A)
    → KeepsBuilds m
    → KeepsBuilds k
    → KeepsBuilds (m ⨾ k)
KeepsBuilds-then {A} m k x y = record { kept = λ s. go (m s).0 (m s).1 ∙ x.kept s }
  where
    go : (r : Result (Unit {0})) (t : Store) → (proceed {B = A} r (λ _. k) t).1.builds ≡ t.builds
    go (ok _) t = y.kept t
    go (err _) t = refl

append_event-KeepsBuilds : (b : Uuid) (e : ℕ → BuildEvent) → KeepsBuilds (append_event b e)
unfolding append_event
append_event-KeepsBuilds b e = record { kept = λ s. ground arith }

requeue_if-KeepsBuilds :
    (again : Bool) (b : Uuid) (v : ℕ) (t : Datetime) → KeepsBuilds (requeue_if again b v t)
unfolding requeue_if append_outbox
requeue_if-KeepsBuilds again b v t = record { kept = λ s. ground arith }

-- What all users of the old version are told.
pub record IsStale (b : Uuid) (version : ℕ) (t : Store) : Type 0 where
  pub cancel_refused :
      (env : Environment) (now : Datetime)
      → request_cancel env now b version t ≡ (err (conflict Code.stale_state_version), t)
  pub transition_refused :
      (env : Environment) (now : Datetime) (target : BuildStatus) (reason : Option String)
      → transition env now b version target reason t ≡ (err (conflict Code.stale_state_version), t)
  pub publish_refused :
      (env : Environment) (c : Settings) (now : Datetime) (records : List ArtifactRecord)
      → publish_success env c now b version records t ≡ (err (conflict Code.stale_state_version), t)

pub stale :
    (b : Uuid) (version : ℕ) (t : Store) (r : BuildRecord)
    → lookup b t.builds ≡ some r
    → version < r.state_version
    → IsStale b version t
unfolding request_cancel cancel_plan transition transition_plan publish_success publish_plan
    get_build require_version
stale b version t r h k =
    let other : (version == r.state_version) ≡ false = ground arith in
    record {
      cancel_refused = λ env now. ground arith;
      transition_refused = λ env now target reason. ground arith;
      publish_refused = λ env c now records. ground arith;
    }

module _ (env : Environment) (now : Datetime) (b : Uuid) (version : ℕ) (target : BuildStatus)
    (reason : Option String) (s : Store) (r : BuildRecord) where
  abbrev plan : Result (BuildRecord × BuildRecord × Option String)
  plan = transition_plan env now b version target reason s

  planned_version :
      (updated current : BuildRecord) (why : Option String)
      → plan ≡ ok (updated, current, why)
      → updated.state_version ≡ version + 1
  unfolding transition_plan get_build require_version check_build
  planned_version updated current why q =
      ground (arith, nat_eq.beq_iff version current.state_version)

  abbrev after_write : BuildRecord → BuildRecord → Option String → Exec BuildRecord
  after_write updated current why =
      append_event current.build_id (transition_event current updated why)
      ⨾ requeue_if (is_status updated.status BuildStatus.queued) b updated.state_version
          updated.updated_at
      ⨾ pure updated

  returned :
      (updated current : BuildRecord) (why : Option String)
      → Yields updated (transition_commit b (updated, current, why))
  unfolding transition_commit
  returned updated current why =
      Yields-then (write_build b updated) (after_write updated current why) updated (
        Yields-then (append_event current.build_id (transition_event current updated why)) _ updated
          (Yields-then
            (requeue_if (is_status updated.status BuildStatus.queued) b updated.state_version
              updated.updated_at)
            _ updated (Yields-pure updated)))

  written :
      (updated current : BuildRecord) (why : Option String)
      → lookup b (transition_commit b (updated, current, why) s).1.builds ≡ some updated
  unfolding transition_commit write_build
  written updated current why =
      rw ((keeps updated current why).kept (write_build b updated s).1)
        (lookup-insert_self b updated s.builds)
    where
      keeps :
          (updated current : BuildRecord) (why : Option String)
          → KeepsBuilds (after_write updated current why)
      keeps updated current why =
          KeepsBuilds-then (append_event current.build_id (transition_event current updated why)) _
            (append_event-KeepsBuilds current.build_id _)
            (KeepsBuilds-then
              (requeue_if (is_status updated.status BuildStatus.queued) b updated.state_version
                updated.updated_at)
              _ (requeue_if-KeepsBuilds _ b updated.state_version updated.updated_at)
              (KeepsBuilds-pure updated))

  -- A transition that returns leaves the build with the next version.
  pub transition_version :
      (transition env now b version target reason s).0 ≡ ok r
      → (lookup b (transition env now b version target reason s).1.builds ≡ some r)
        × (r.state_version ≡ version + 1)
  unfolding transition
  transition_version h =
      let ((updated, current, why), q, e) =
        reading_inv (transition_plan env now b version target reason) (transition_commit b) s r h in
      let own : r ≡ updated = (returned updated current why).value s r e in
      (rw (own, q) (written updated current why), rw own (planned_version updated current why q))

module _ {Q : Type 0} (enqueue : Uuid → Q → Result String × Q) (env : Environment) (c : Settings)
    (before after : List (Call Q)) (now : Datetime) (b : Uuid) (version : ℕ) (target : BuildStatus)
    (reason : Option String) (r : BuildRecord) where
  abbrev earlier : Store
  earlier = perform_all enqueue env c before empty_store

  abbrev left : Store
  left = (transition env now b version target reason earlier).1

  -- A transition that returns, after any calls, has used up the version it was asked with: the build
  -- has the next version in the store it left, and after any further calls a cancellation, transition
  -- or publication that expects the old version raises `stale_state_version` and leaves the store as
  -- it is.
  pub transition-IsStale :
      (transition env now b version target reason earlier).0 ≡ ok r
      → (lookup b left.builds ≡ some r)
        × (r.state_version ≡ version + 1)
        × IsStale b version (perform_all enqueue env c after left)
  transition-IsStale h =
      let (found_there, one_up) = transition_version env now b version target reason earlier r h in
      let audited = perform_all-IsAudited enqueue env c before in
      let moved = next here (transition-Moves env now b version earlier target reason audited) in
      let audited_after = Runs-IsAudited audited moved in
      let (x, found_later, grown) =
        Runs-version b r audited_after (perform_all-Runs enqueue env c after left audited_after)
          found_there in
      (found_there, one_up, stale b version _ x found_later (omega (arith, grown, one_up)))
