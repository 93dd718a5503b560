-- ===== src/Service/State/Transitions.antt =====
-- `transition` and `request_cancel` of state.py.
use headless_blender_charact.Prelude.{
  Bool, Option, String, false, if◌then◌else◌, is_some, nat_eq, none, not, some, string_eq, true, ℕ,
  ◌+◌, ◌==◌,
}
use headless_blender_charact.Service.Errors.{Code, Result, conflict, ok, raise_if, ◌>>=◌, ◌>>◌}
use headless_blender_charact.Service.Contract.{Datetime, Environment, Uuid, list_eq}
use headless_blender_charact.Service.Models.Status.{
  BuildStatus, is_status, is_terminal, require_safe_code, require_transition, status_value,
}
use headless_blender_charact.Service.Models.Build.{BuildRecord, check_build}
use headless_blender_charact.Service.Models.Event.{BuildEvent}
use headless_blender_charact.Service.State.Store.{
  Exec, Store, append_event, get_build, pure, reading, require_version, write_build, ◌⨾◌,
}
use headless_blender_charact.Service.State.Completion.{operator_reason, requeue_if, when}

-- The reason that the checks of `transition` leave, or what they raise.
unfoldable pub transition_reason :
    BuildRecord → BuildStatus → Option String → Result (Option String)
transition_reason current BuildStatus.failed reason_code = do
  require_safe_code true reason_code
  ok reason_code
transition_reason current BuildStatus.needs_review reason_code = do
  require_safe_code true reason_code
  ok reason_code
transition_reason current BuildStatus.canceled reason_code = do
  raise_if (not (is_some current.cancel_requested_at)) (conflict Code.cancel_requires_request)
  raise_if (elim reason_code [ none ↦ false | some r ↦ not (r == operator_reason) ])
      (conflict Code.invalid_reason_code)
  ok (some operator_reason)
transition_reason current _ reason_code = do
  raise_if (is_some reason_code) (conflict Code.unexpected_reason)
  ok none

-- `reason_code if terminal else None`
abbrev pub when_terminal : {A : Type 0} → Bool → Option A → Option A
when_terminal true o = o
when_terminal false o = none

-- The updated record, the one it replaces, and the reason.
unfoldable pub transition_plan :
    Environment
    → Datetime
    → Uuid
    → ℕ
    → BuildStatus
    → Option String
    → Store
    → Result (BuildRecord × BuildRecord × Option String)
unfolding transition_reason
transition_plan env now build_id expected_version target reason_code s = do
  current ← get_build build_id s
  require_version current expected_version
  raise_if (is_status target BuildStatus.succeeded) (conflict Code.success_requires_artifacts)
  require_transition current.status target
  reason ← transition_reason current target reason_code
  updated ← check_build env (record current {
    status = target;
    state_version = current.state_version + 1;
    terminal_code = when_terminal (is_terminal target) reason;
    updated_at = now;
    finished_at = when (is_terminal target) now;
  })
  ok (updated, current, reason)

-- `_append_event`
abbrev pub transition_event : BuildRecord → BuildRecord → Option String → ℕ → BuildEvent
transition_event current updated reason n = record {
  build_id = current.build_id;
  sequence = n;
  event_type = status_value updated.status;
  from_status = some current.status;
  to_status = updated.status;
  reason_code = reason;
  created_at = updated.updated_at;
  attempt_id = none;
}

unfoldable pub transition_commit :
    Uuid → BuildRecord × BuildRecord × Option String → Exec BuildRecord
transition_commit build_id (updated, current, reason) =
    write_build build_id updated
    ⨾ append_event current.build_id (transition_event current updated reason)
    ⨾ requeue_if (is_status updated.status BuildStatus.queued) build_id updated.state_version
        updated.updated_at
    ⨾ pure updated

unfoldable pub transition :
    Environment → Datetime → Uuid → ℕ → BuildStatus → Option String → Exec BuildRecord
transition env now build_id expected_version target reason_code =
    reading (transition_plan env now build_id expected_version target reason_code)
      (transition_commit build_id)

-- `status in (VALIDATING, QUEUED)`
abbrev pub is_waiting : BuildStatus → Bool
is_waiting BuildStatus.validating = true
is_waiting BuildStatus.queued = true
is_waiting _ = false

-- The updated record and the status that it replaces; `none` leaves the build as it is.
unfoldable pub cancel_plan :
    Environment → Datetime → Uuid → ℕ → Store → Result (BuildRecord × Option BuildStatus)
cancel_plan env now build_id expected_version s = do
  current ← get_build build_id s
  require_version current expected_version
  raise_if (is_terminal current.status) (conflict Code.terminal_build)
  let immediate = is_waiting current.status
  let asked = check_build env (record current {
    status = if immediate then BuildStatus.canceled else current.status;
    state_version = current.state_version + 1;
    cancel_requested_at = some now;
    terminal_code = when immediate operator_reason;
    updated_at = now;
    finished_at = when immediate now;
  })
  updated ← if is_some current.cancel_requested_at then ok current else asked
  ok (updated, if is_some current.cancel_requested_at then none else some current.status)

abbrev pub cancel_event : Uuid → BuildRecord → BuildStatus → ℕ → BuildEvent
cancel_event build_id updated before n = record {
  build_id = build_id;
  sequence = n;
  event_type = if is_waiting before then "canceled" else "cancel_requested";
  from_status = some before;
  to_status = updated.status;
  reason_code = some operator_reason;
  created_at = updated.updated_at;
  attempt_id = none;
}

unfoldable pub cancel_commit : Uuid → BuildRecord × Option BuildStatus → Exec BuildRecord
cancel_commit build_id (build, none) = pure build
cancel_commit build_id (updated, some before) =
    write_build build_id updated
    ⨾ append_event build_id (cancel_event build_id updated before)
    ⨾ pure updated

unfoldable pub request_cancel : Environment → Datetime → Uuid → ℕ → Exec BuildRecord
request_cancel env now build_id expected_version =
    reading (cancel_plan env now build_id expected_version) (cancel_commit build_id)
