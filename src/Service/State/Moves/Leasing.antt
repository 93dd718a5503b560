-- ===== src/Service/State/Moves/Leasing.antt =====
-- `lease_build`, `heartbeat_attempt` and `register_running_attempt` keep to the life cycle.
use headless_blender_charact.Prelude.{
  List, Option, Option-cases, String, arith, inl, inr, length, nat_eq, none, refl, some, string_eq,
  ℕ, ◌+◌, ◌≡◌,
}
use headless_blender_charact.Service.Errors.{Result, ok}
use headless_blender_charact.Service.Contract.{Datetime, Environment, Uuid}
use headless_blender_charact.Service.Dict.{lookup}
use headless_blender_charact.Service.Models.Status.{BuildStatus}
use headless_blender_charact.Service.Models.Build.{BuildRecord, check_build}
use headless_blender_charact.Service.Models.Attempt.{AttemptRecord, check_attempt}
use headless_blender_charact.Service.Models.Event.{BuildEvent}
use headless_blender_charact.Service.State.Store.{Store, get_build, pure, write_attempt}
use headless_blender_charact.Service.State.Leasing.{
  AttemptLease, heartbeat_answer, heartbeat_attempt, lease_build, lease_commit, lease_event,
  lease_plan, register_running_attempt,
}
use headless_blender_charact.Service.State.Moves.{IsMove, Moves, edge, stays}
use headless_blender_charact.Service.State.Moves.Effects.{
  KeepsTables-pure, Moves-frame, advance-Moves, event_post_init_ok, event_types_safe, no_reason,
  reading-Moves,
}
use headless_blender_charact.Service.State.Audit.{IsAudited}

module _ (env : Environment) (attempt_id : Uuid) (now : Datetime) (build_id : Uuid)
    (worker_id lease_token : String) (lease_seconds : ℕ) (s : Store) where
  abbrev planned : Result (Option AttemptLease)
  planned = lease_plan env attempt_id now build_id worker_id lease_token lease_seconds s

  -- A lease is of a build of the table.
  leased_build :
      (l : AttemptLease)
      → planned ≡ ok (some l)
      → (r : BuildRecord) × (lookup build_id s.builds ≡ some r)
  unfolding lease_plan get_build
  leased_build l h = elim (Option-cases (lookup build_id s.builds)) [
    | inl missing ↦ absurd (ground arith)
    | inr old ↦ old
  ]

  -- What a lease makes of that build.
  pub leased_record :
      (l : AttemptLease) (r : BuildRecord)
      → planned ≡ ok (some l)
      → lookup build_id s.builds ≡ some r
      → (r.status ≡ BuildStatus.queued)
        × (l.build ≡ record r {
          status = BuildStatus.running;
          state_version = r.state_version + 1;
          updated_at = now;
        })
  unfolding lease_plan get_build check_build check_attempt
  leased_record l r h k = ground arith

  leased-IsMove :
      (l : AttemptLease) (r : BuildRecord) (log : List BuildEvent)
      → planned ≡ ok (some l)
      → lookup build_id s.builds ≡ some r
      → IsMove r l.build log (lease_event build_id l (length log + 1))
  unfolding edge
  leased-IsMove l r log h k = ground (arith, leased_record l r h k)

  pub lease_build-Moves :
      IsAudited s
      → Moves s (lease_build env attempt_id now build_id worker_id lease_token lease_seconds s).1
  unfolding lease_build lease_commit write_attempt
  lease_build-Moves v = reading-Moves plan (lease_commit build_id) s go
    where
      plan : Store → Result (Option AttemptLease)
      plan = lease_plan env attempt_id now build_id worker_id lease_token lease_seconds

      go : (p : Option AttemptLease) → planned ≡ ok p → Moves s (lease_commit build_id p s).1
      go none h = stays refl refl
      go (some l) h =
          let (r, was) = leased_build l h in
          let (log, had, _) = v.log_of build_id r was in
          Moves-frame refl refl (
            advance-Moves (pure (some l)) build_id r l.build log (lease_event build_id l) _ was had
              (event_post_init_ok _ (omega arith) event_types_safe.0 (no_reason tt))
              (leased-IsMove l r log h was) (KeepsTables-pure (some l)))

module _ (env : Environment) (now : Datetime) (attempt_id : Uuid) (lease_token : String)
    (lease_seconds : ℕ) (s : Store) where
  pub heartbeat_attempt-Moves :
      Moves s (heartbeat_attempt env now attempt_id lease_token lease_seconds s).1
  unfolding heartbeat_attempt heartbeat_answer write_attempt
  heartbeat_attempt-Moves = stays (ground arith) (ground arith)

pub register_running_attempt-Moves :
    (a : AttemptRecord) (s : Store) → Moves s (register_running_attempt a s).1
unfolding register_running_attempt write_attempt
register_running_attempt-Moves a s = stays (ground arith) (ground arith)
