-- ===== src/Service/State/Moves/Recovery.antt =====
-- `recover_expired_attempts` keeps to the life cycle: one move for each attempt at most.
use headless_blender_charact.Prelude.{
  Bool, List, Option-cases, [], arith, false, inl, inr, length, nat_eq, refl, some, string_eq,
  subst, sym, true, ℕ, ◌+◌, ◌∙◌, ◌∷◌, ◌≡◌,
}
use headless_blender_charact.Service.Errors.{Result, err, ok}
use headless_blender_charact.Service.Contract.{Datetime, Environment}
use headless_blender_charact.Service.Dict.{lookup}
use headless_blender_charact.Service.Models.Status.{BuildStatus, require_safe_code}
use headless_blender_charact.Service.Models.Build.{BuildRecord, check_build}
use headless_blender_charact.Service.Models.Attempt.{
  AttemptRecord, attempt_post_init, check_attempt,
}
use headless_blender_charact.Service.Models.Event.{BuildEvent}
use headless_blender_charact.Service.State.Store.{
  Exec, Store, get_build, proceed, pure, write_attempt, ◌⨾◌,
}
use headless_blender_charact.Service.State.Completion.{AttemptCompletion, completion_event}
use headless_blender_charact.Service.State.Recovery.{
  adding, expired_attempts, recover_all, recover_build, recover_expired_attempts, recover_one,
  recover_plan, recovery_arguments,
}
use headless_blender_charact.Service.State.Moves.{
  IsMove, Moves, Runs, Runs-trans, SameRequest, edge, here, next, stays,
}
use headless_blender_charact.Service.State.Moves.Effects.{
  KeepsTables, KeepsTables-requeue_if, KeepsTables-then_pure, KeepsTables-write_attempt, Moves-then,
  advance-Moves, completion_type_safe, event_post_init_ok, reading-Moves,
}
use headless_blender_charact.Service.State.Audit.{IsAudited, Moves-IsAudited}

module _ (env : Environment) (now : Datetime) (a : AttemptRecord) (s : Store) where
  abbrev planned : Result (AttemptCompletion × Bool)
  planned = recover_plan env now a s

  lost_build :
      (c : AttemptCompletion) (moved : Bool)
      → planned ≡ ok (c, moved)
      → (r : BuildRecord) × (lookup a.build_id s.builds ≡ some r)
  unfolding recover_plan get_build
  lost_build c moved h = elim (Option-cases (lookup a.build_id s.builds)) [
    | inl missing ↦ absurd (ground arith)
    | inr old ↦ old
  ]

  module _ (c : AttemptCompletion) (r : BuildRecord) (h : planned ≡ ok (c, true))
      (found_r : lookup a.build_id s.builds ≡ some r) where
    lost_record :
        (r.status ≡ BuildStatus.running)
        × (c.build.state_version ≡ r.state_version + 1)
        × (edge BuildStatus.running c.build.status ≡ true)
        × SameRequest r c.build
    unfolding recover_plan get_build check_build check_attempt edge
    lost_record = ground arith

    lost_reason : require_safe_code false c.attempt.reason_code ≡ ok tt
    unfolding recover_plan get_build check_build check_attempt attempt_post_init
    lost_reason = ground arith

    lost-IsMove :
        (log : List BuildEvent) → IsMove r c.build log (completion_event c (length log + 1))
    lost-IsMove log =
        let (runs, version, on_edge, same) = lost_record in
        record {
          version = version;
          on_edge = rw runs on_edge;
          sequence = refl;
          before = rw runs;
          after = refl;
          same = same;
        }

  pub recover_one-Moves : (delay : ℕ) → IsAudited s → Moves s (recover_one env now delay a s).1
  unfolding recover_one recover_build
  recover_one-Moves delay v = reading-Moves (recover_plan env now a) commit s (λ p h. go p h)
    where
      commit : AttemptCompletion × Bool → Exec AttemptCompletion
      commit r =
          recover_build (now + delay) r
          ⨾ write_attempt r.0.attempt.attempt_id r.0.attempt
          ⨾ pure r.0

      keeps :
          (c : AttemptCompletion)
          → KeepsTables (write_attempt c.attempt.attempt_id c.attempt ⨾ pure c)
      keeps c = KeepsTables-then_pure _ c (KeepsTables-write_attempt c.attempt.attempt_id c.attempt)

      go : (p : AttemptCompletion × Bool) → planned ≡ ok p → Moves s (commit p s).1
      go (c, false) h =
          Moves-then (recover_build (now + delay) (c, false)) _ s (keeps c) (stays refl refl)
      go (c, true) h =
          let (r, found_r) = lost_build c true h in
          let (log, had, good) = v.log_of a.build_id r found_r in
          let key : c.build.build_id ≡ a.build_id =
            (lost_record c r h found_r).3.build_id ∙ good.build_id in
          Moves-then (recover_build (now + delay) (c, true)) _ s (keeps c) (
            advance-Moves _ c.build.build_id r c.build log (completion_event c) s
              (subst (λ k. lookup k s.builds ≡ some r) (sym key) found_r)
              (subst (λ k. lookup k s.events ≡ some log) (sym key) had)
              (event_post_init_ok _ (omega arith) (completion_type_safe c.requeued c.build.status)
                (lost_reason c r h found_r))
              (lost-IsMove c r h found_r log) (KeepsTables-requeue_if _ _ _ _))

-- Collecting a result changes nothing.
adding_state :
    (c : AttemptCompletion) (rest : Exec (List AttemptCompletion)) (s : Store)
    → (adding c rest s).1 ≡ (rest s).1
adding_state c rest s = go (rest s).0
  where
    go :
        (r : Result (List AttemptCompletion))
        → (proceed r (λ cs. pure (c ∷ cs)) (rest s).1).1 ≡ (rest s).1
    go (ok _) = refl
    go (err _) = refl

-- The whole loop is a run, and the log stays complete all along.
pub recover_all-Runs :
    (env : Environment) (now : Datetime) (delay : ℕ) (lost : List AttemptRecord) (s : Store)
    → IsAudited s
    → Runs s (recover_all env now delay lost s).1
unfolding recover_all
recover_all-Runs env now delay [] s v = here
recover_all-Runs env now delay (a ∷ rest) s v =
    let first = recover_one-Moves env now a s delay v in
    go (recover_one env now delay a s).0 (next here first) (
      recover_all-Runs env now delay rest (recover_one env now delay a s).1
        (Moves-IsAudited v first))
  where
    t : Store
    t = (recover_one env now delay a s).1

    go :
        (r : Result AttemptCompletion)
        → Runs s t
        → Runs t (recover_all env now delay rest t).1
        → Runs s (proceed r (λ c. adding c (recover_all env now delay rest)) t).1
    go (err e) one more = one
    go (ok c) one more =
        rw (adding_state c (recover_all env now delay rest) t) (Runs-trans one more)

pub recover_expired_attempts-Runs :
    (env : Environment) (now : Datetime) (delay_seconds limit : ℕ) (s : Store)
    → IsAudited s
    → Runs s (recover_expired_attempts env now delay_seconds limit s).1
unfolding recover_expired_attempts
recover_expired_attempts-Runs env now delay_seconds limit s v =
    go (recovery_arguments delay_seconds limit)
  where
    go :
        (r : Result ℕ)
        → Runs s (proceed r (λ delay. recover_all env now delay (expired_attempts now limit s)) s).1
    go (ok delay) = recover_all-Runs env now delay (expired_attempts now limit s) s v
    go (err e) = here
