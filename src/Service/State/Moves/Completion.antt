-- ===== src/Service/State/Moves/Completion.antt =====
-- `complete_attempt` keeps to the life cycle.
use headless_blender_charact.Prelude.{
  Bool, List, Option, Option-cases, String, arith, false, inl, inr, length, nat_eq, refl, some,
  string_eq, subst, sym, true, ℕ, ◌+◌, ◌∙◌, ◌≡◌,
}
use headless_blender_charact.Service.Errors.{Result, ok}
use headless_blender_charact.Service.Contract.{Datetime, Environment, Uuid}
use headless_blender_charact.Service.Dict.{lookup}
use headless_blender_charact.Service.Models.Status.{AttemptStatus, BuildStatus, require_safe_code}
use headless_blender_charact.Service.Models.Build.{BuildRecord, check_build}
use headless_blender_charact.Service.Models.Attempt.{
  AttemptRecord, attempt_post_init, check_attempt,
}
use headless_blender_charact.Service.Models.Event.{BuildEvent}
use headless_blender_charact.Service.State.Store.{Store, attempt_for, get_build, write_attempt}
use headless_blender_charact.Service.State.Completion.{
  AttemptCompletion, complete_attempt, complete_commit, complete_plan, completion_event,
}
use headless_blender_charact.Service.State.Moves.{IsMove, Moves, SameRequest, edge}
use headless_blender_charact.Service.State.Moves.Effects.{
  KeepsTables-requeue_if, KeepsTables-then_pure, Moves-frame, advance-Moves, completion_type_safe,
  event_post_init_ok, reading-Moves,
}
use headless_blender_charact.Service.State.Audit.{IsAudited}

module _ (env : Environment) (now : Datetime) (attempt_id : Uuid) (lease_token : String)
    (status : AttemptStatus) (exit_code : Option ℕ) (reason_code : String) (retryable : Bool)
    (delay_seconds : ℕ) (s : Store) where
  abbrev planned : Result (AttemptCompletion × ℕ)
  planned =
      complete_plan env now attempt_id lease_token status exit_code reason_code retryable
        delay_seconds s

  -- The attempt and the build that a completion is of.
  pub completed :
      (c : AttemptCompletion) (delay : ℕ)
      → planned ≡ ok (c, delay)
      → (a : AttemptRecord) × (lookup attempt_id s.attempts ≡ some a)
        × (r : BuildRecord) × (lookup a.build_id s.builds ≡ some r)
  unfolding complete_plan get_build attempt_for
  completed c delay h = elim (Option-cases (lookup attempt_id s.attempts)) [
    | inl missing ↦ absurd (ground arith)
    | inr (a, found_a) ↦ elim (Option-cases (lookup a.build_id s.builds)) [
      | inl missing ↦ absurd (ground arith)
      | inr (r, found_r) ↦ (a, found_a, r, found_r)
    ]
  ]

  module _ (c : AttemptCompletion) (delay : ℕ) (a : AttemptRecord) (r : BuildRecord)
      (h : planned ≡ ok (c, delay)) (found_a : lookup attempt_id s.attempts ≡ some a)
      (found_r : lookup a.build_id s.builds ≡ some r) where
    pub completed_record :
        (r.status ≡ BuildStatus.running)
        × (c.build.state_version ≡ r.state_version + 1)
        × (edge BuildStatus.running c.build.status ≡ true)
        × SameRequest r c.build
    unfolding complete_plan get_build attempt_for check_build check_attempt edge
    completed_record = ground arith

    -- The reason that is recorded is a safe code.
    pub completed_reason : require_safe_code false c.attempt.reason_code ≡ ok tt
    unfolding complete_plan get_build attempt_for check_build check_attempt attempt_post_init
    completed_reason = ground arith

    completed-IsMove :
        (log : List BuildEvent) → IsMove r c.build log (completion_event c (length log + 1))
    completed-IsMove log =
        let (runs, version, on_edge, same) = completed_record in
        record {
          version = version;
          on_edge = rw runs on_edge;
          sequence = refl;
          before = rw runs;
          after = refl;
          same = same;
        }

  pub complete_attempt-Moves :
      IsAudited s
      → Moves s
          (complete_attempt env now attempt_id lease_token status exit_code reason_code retryable
            delay_seconds s).1
  unfolding complete_attempt complete_commit write_attempt
  complete_attempt-Moves v = reading-Moves plan (complete_commit attempt_id) s go
    where
      plan : Store → Result (AttemptCompletion × ℕ)
      plan =
          complete_plan env now attempt_id lease_token status exit_code reason_code retryable
            delay_seconds

      go : (p : AttemptCompletion × ℕ) → planned ≡ ok p → Moves s (complete_commit attempt_id p s).1
      go (c, delay) h =
          let (a, found_a, r, found_r) = completed c delay h in
          let (log, had, good) = v.log_of a.build_id r found_r in
          let key : c.build.build_id ≡ a.build_id =
            (completed_record c delay a r h found_a found_r).3.build_id ∙ good.build_id in
          Moves-frame refl refl (
            advance-Moves _ c.build.build_id r c.build log (completion_event c) _
              (subst (λ k. lookup k s.builds ≡ some r) (sym key) found_r)
              (subst (λ k. lookup k s.events ≡ some log) (sym key) had)
              (event_post_init_ok _ (omega arith) (completion_type_safe c.requeued c.build.status)
                (completed_reason c delay a r h found_a found_r))
              (completed-IsMove c delay a r h found_a found_r log)
              (KeepsTables-then_pure _ c (KeepsTables-requeue_if _ _ _ _)))
