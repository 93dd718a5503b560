-- ===== src/Service/State/Moves/Transitions.antt =====
-- `transition` and `request_cancel` keep to the life cycle.
use headless_blender_charact.Prelude.{
  Bool, List, Option, Option-cases, String, arith, false, if◌then◌else◌, inl, inr, length, nat_eq,
  none, refl, some, string_eq, subst, sym, true, ℕ, ◌+◌, ◌≡◌,
}
use headless_blender_charact.Service.Errors.{Result, ok}
use headless_blender_charact.Service.Contract.{Datetime, Environment, Uuid}
use headless_blender_charact.Service.Dict.{lookup}
use headless_blender_charact.Service.Models.Status.{
  BuildStatus, allowed, is_status, require_safe_code, require_transition,
}
use headless_blender_charact.Service.Models.Build.{BuildRecord, check_build}
use headless_blender_charact.Service.Models.Event.{BuildEvent}
use headless_blender_charact.Service.State.Store.{
  Store, append_event, get_build, pure, write_build, ◌⨾◌,
}
use headless_blender_charact.Service.State.Completion.{requeue_if}
use headless_blender_charact.Service.State.Transitions.{
  cancel_commit, cancel_event, cancel_plan, is_waiting, request_cancel, transition,
  transition_commit, transition_event, transition_plan,
}
use headless_blender_charact.Service.State.Moves.{
  IsMove, Moves, SameRequest, allowed-edge, edge, stays,
}
use headless_blender_charact.Service.State.Moves.Effects.{
  KeepsTables-pure, KeepsTables-requeue_if, KeepsTables-then_pure, advance-Moves,
  event_post_init_ok, event_types_safe, operator_reason_passes, operator_reason_safe, reading-Moves,
  status_type_safe,
}
use headless_blender_charact.Service.State.Audit.{IsAudited}

module _ (env : Environment) (now : Datetime) (build_id : Uuid) (expected_version : ℕ)
    (s : Store) where
  module _ (target : BuildStatus) (reason_code : Option String) where
    abbrev transition_planned : Result (BuildRecord × BuildRecord × Option String)
    transition_planned = transition_plan env now build_id expected_version target reason_code s

    module _ (updated current : BuildRecord) (reason : Option String)
        (h : transition_planned ≡ ok (updated, current, reason)) where
      transition_current : lookup build_id s.builds ≡ some current
      unfolding transition_plan get_build check_build
      transition_current = ground arith

      transition_record :
          (allowed current.status target ≡ true)
          × (updated.status ≡ target)
          × (updated.state_version ≡ current.state_version + 1)
          × SameRequest current updated
      unfolding transition_plan get_build check_build require_transition
      transition_record = ground arith

      transition_reason_safe : require_safe_code false reason ≡ ok tt
      unfolding transition_plan get_build check_build require_safe_code
      transition_reason_safe = ground (arith, operator_reason_safe)

      transition-IsMove :
          (log : List BuildEvent)
          → IsMove current updated log (transition_event current updated reason (length log + 1))
      transition-IsMove log =
          let (fits, status, version, same) = transition_record in
          record {
            version = version;
            on_edge = allowed-edge current.status updated.status (rw status fits);
            sequence = refl;
            before = refl;
            after = refl;
            same = same;
          }

    pub transition-Moves :
        IsAudited s → Moves s (transition env now build_id expected_version target reason_code s).1
    unfolding transition transition_commit
    transition-Moves v = reading-Moves plan (transition_commit build_id) s go
      where
        plan : Store → Result (BuildRecord × BuildRecord × Option String)
        plan = transition_plan env now build_id expected_version target reason_code

        go :
            (p : BuildRecord × BuildRecord × Option String)
            → transition_planned ≡ ok p
            → Moves s (transition_commit build_id p s).1
        go (updated, current, reason) h =
            let was = transition_current updated current reason h in
            let (log, had, good) = v.log_of build_id current was in
            let own : build_id ≡ current.build_id = sym good.build_id in
            subst
              (λ k.
                Moves s
                  ((write_build build_id updated
                      ⨾ append_event k (transition_event current updated reason)
                      ⨾ requeue_if (is_status updated.status BuildStatus.queued) build_id
                          updated.state_version updated.updated_at
                      ⨾ pure updated)
                    s).1)
              own
              (advance-Moves _ build_id current updated log
                (transition_event current updated reason) s was had
                (event_post_init_ok _ (omega arith) (status_type_safe updated.status)
                  (transition_reason_safe updated current reason h))
                (transition-IsMove updated current reason h log)
                (KeepsTables-then_pure _ updated (KeepsTables-requeue_if _ _ _ _)))

  module _ (updated : BuildRecord) (before : BuildStatus)
      (h : cancel_plan env now build_id expected_version s ≡ ok (updated, some before)) where
    cancel_current : (r : BuildRecord) × (lookup build_id s.builds ≡ some r)
    unfolding cancel_plan get_build
    cancel_current = elim (Option-cases (lookup build_id s.builds)) [
      | inl missing ↦ absurd (ground arith)
      | inr old ↦ old
    ]

    cancel_record :
        (r : BuildRecord)
        → lookup build_id s.builds ≡ some r
        → (r.status ≡ before)
          × (updated.state_version ≡ r.state_version + 1)
          × (edge before updated.status ≡ true)
          × SameRequest r updated
    unfolding cancel_plan get_build check_build edge
    cancel_record r k = ground arith

    cancel-IsMove :
        (r : BuildRecord) (log : List BuildEvent)
        → lookup build_id s.builds ≡ some r
        → IsMove r updated log (cancel_event build_id updated before (length log + 1))
    cancel-IsMove r log k =
        let (status, version, on_edge, same) = cancel_record r k in
        record {
          version = version;
          on_edge = rw status on_edge;
          sequence = refl;
          before = rw status;
          after = refl;
          same = same;
        }

    cancel_type_safe :
        require_safe_code true (some (if is_waiting before then "canceled" else "cancel_requested"))
        ≡ ok tt
    cancel_type_safe = go (is_waiting before)
      where
        go :
            (t : Bool)
            → require_safe_code true (some (if t then "canceled" else "cancel_requested")) ≡ ok tt
        go true = event_types_safe.2
        go false = event_types_safe.3

  pub request_cancel-Moves :
      IsAudited s → Moves s (request_cancel env now build_id expected_version s).1
  unfolding request_cancel cancel_commit
  request_cancel-Moves v =
      reading-Moves (cancel_plan env now build_id expected_version) (cancel_commit build_id) s go
    where
      go :
          (p : BuildRecord × Option BuildStatus)
          → cancel_plan env now build_id expected_version s ≡ ok p
          → Moves s (cancel_commit build_id p s).1
      go (updated, none) h = stays refl refl
      go (updated, some before) h =
          let (r, was) = cancel_current updated before h in
          let (log, had, _) = v.log_of build_id r was in
          advance-Moves (pure updated) build_id r updated log (cancel_event build_id updated before)
            s was had
            (event_post_init_ok _ (omega arith) (cancel_type_safe updated before h)
              operator_reason_passes)
            (cancel-IsMove updated before h r log was) (KeepsTables-pure updated)
