-- ===== src/Service/State/Moves/Publication.antt =====
-- `publish_success` and `publish_attempt_success` keep to the life cycle.
use headless_blender_charact.Prelude.{
  List, Option-cases, String, ap, arith, inl, inr, length, nat_eq, refl, some, string_eq, sym, true,
  ℕ, ◌+◌, ◌≡◌,
}
use headless_blender_charact.Service.Errors.{Result, err, ok}
use headless_blender_charact.Service.Contract.{Datetime, Environment, Uuid}
use headless_blender_charact.Service.Dict.{lookup}
use headless_blender_charact.Service.Models.Status.{BuildStatus}
use headless_blender_charact.Service.Models.Build.{BuildRecord, check_build}
use headless_blender_charact.Service.Models.Attempt.{AttemptRecord, check_attempt}
use headless_blender_charact.Service.Models.Artifact.{ArtifactRecord}
use headless_blender_charact.Service.Models.Event.{BuildEvent}
use headless_blender_charact.Service.State.Store.{
  Exec, Settings, Store, append_event, get_build, pure, write_attempt, write_build, ◌⨾◌,
}
use headless_blender_charact.Service.State.Publication.{
  Publication, closed_attempt, fenced_build, is_publishable, publish_attempt_success,
  publish_commit, publish_plan, publish_success, success_event, write_artifacts, write_closed,
}
use headless_blender_charact.Service.State.Moves.{IsMove, Moves, SameRequest, edge, stays}
use headless_blender_charact.Service.State.Moves.Effects.{
  KeepsTables-pure, Moves-frame, advance-Moves, event_post_init_ok, event_types_safe, no_reason,
  reading-Moves,
}
use headless_blender_charact.Service.State.Audit.{IsAudited}

-- A build that may be published moves along an edge.
publishable-edge :
    (a b : BuildStatus) → is_publishable a ≡ true → b ≡ BuildStatus.succeeded → edge a b ≡ true
unfolding edge
publishable-edge a b h k = ground arith

module _ (env : Environment) (c : Settings) (now : Datetime) (build_id : Uuid)
    (expected_version : ℕ) (records : List ArtifactRecord) (s : Store) where
  abbrev planned : Result Publication
  planned = publish_plan env c now build_id expected_version records s

  module _ (p : Publication) (h : planned ≡ ok p) where
    published_build : (r : BuildRecord) × (lookup build_id s.builds ≡ some r)
    unfolding publish_plan get_build
    published_build = elim (Option-cases (lookup build_id s.builds)) [
      | inl missing ↦ absurd (ground arith)
      | inr old ↦ old
    ]

    pub published_record :
        (r : BuildRecord)
        → lookup build_id s.builds ≡ some r
        → (is_publishable r.status ≡ true)
          × (p.before ≡ r.status)
          × (p.build.status ≡ BuildStatus.succeeded)
          × (p.build.state_version ≡ r.state_version + 1)
          × SameRequest r p.build
    unfolding publish_plan get_build check_build
    published_record r k = ground arith

    published-IsMove :
        (r : BuildRecord) (log : List BuildEvent)
        → lookup build_id s.builds ≡ some r
        → IsMove r p.build log (success_event build_id p (length log + 1))
    published-IsMove r log k =
        let (fits, before, status, version, same) = published_record r k in
        record {
          version = version;
          on_edge = publishable-edge r.status p.build.status fits status;
          sequence = refl;
          before = ap some before;
          after = sym status;
          same = same;
        }

  pub publish_success-Moves :
      IsAudited s → Moves s (publish_success env c now build_id expected_version records s).1
  unfolding publish_success publish_commit write_artifacts write_closed write_attempt
  publish_success-Moves v =
      reading-Moves (publish_plan env c now build_id expected_version records)
        (publish_commit build_id) s go
    where
      finish : Publication → Exec BuildRecord
      finish p =
          write_build build_id p.build
          ⨾ append_event build_id (success_event build_id p)
          ⨾ pure p.build

      closed :
          (p : Publication)
          → planned ≡ ok p
          → (t : Store) → t.builds ≡ s.builds
          → t.events ≡ s.events
          → Moves s (finish p t).1
      closed p h t x y =
          let (r, was) = published_build p h in
          let (log, had, _) = v.log_of build_id r was in
          Moves-frame x y (
            advance-Moves (pure p.build) build_id r p.build log (success_event build_id p) t
              (rw x was) (rw y had)
              (event_post_init_ok _ (omega arith) event_types_safe.4 (no_reason tt))
              (published-IsMove p h r log was) (KeepsTables-pure p.build))

      go : (p : Publication) → planned ≡ ok p → Moves s (publish_commit build_id p s).1
      go p h = after (check_attempt (closed_attempt p.moment p.attempt))
        where
          t : Store
          t = (write_artifacts build_id p.artifacts s).1

          after :
              (r : Result AttemptRecord) → Moves s ((write_closed p.attempt_id r ⨾ finish p) t).1
          after (err e) = stays refl refl
          after (ok a) = closed p h (write_attempt p.attempt_id a t).1 refl refl

module _ (env : Environment) (c : Settings) (checked_at now : Datetime) (attempt_id : Uuid)
    (lease_token : String) (records : List ArtifactRecord) (s : Store) where
  pub publish_attempt_success-Moves :
      IsAudited s
      → Moves s (publish_attempt_success env c checked_at now attempt_id lease_token records s).1
  unfolding publish_attempt_success
  publish_attempt_success-Moves v =
      reading-Moves (fenced_build env checked_at attempt_id lease_token)
        (λ build. publish_success env c now build.build_id build.state_version records) s
        (λ build h. publish_success-Moves env c now build.build_id build.state_version records s v)
