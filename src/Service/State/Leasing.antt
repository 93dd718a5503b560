-- ===== src/Service/State/Leasing.antt =====
-- `register_running_attempt`, `lease_build` and `heartbeat_attempt` of state.py.
use headless_blender_charact.Prelude.{
  Bool, List, Option, String, [], any, if◌then◌else◌, is_some, leb, ltb, max, nat_eq, none, not,
  some, string_eq, ℕ, ◌&&◌, ◌+◌, ◌==◌, ◌||◌, ◌∷◌,
}
use headless_blender_charact.Service.Errors.{Code, Result, conflict, err, ok, raise_if, ◌>>=◌, ◌>>◌}
use headless_blender_charact.Service.Contract.{Datetime, Environment, Uuid, list_eq}
use headless_blender_charact.Service.Dict.{member, values}
use headless_blender_charact.Service.Models.Status.{
  AttemptStatus, BuildStatus, is_active, is_attempt_status, is_status,
}
use headless_blender_charact.Service.Models.Build.{BuildRecord, check_build}
use headless_blender_charact.Service.Models.Attempt.{AttemptRecord, check_attempt}
use headless_blender_charact.Service.Models.Event.{BuildEvent}
use headless_blender_charact.Service.State.Store.{
  Exec, Store, append_event, attempt_for, attempts_of, get_build, lease_digest, lease_duration,
  pure, reading, write_attempt, write_build, ◌⨾◌,
}

pub record AttemptLease : Type 0 where
  pub build : BuildRecord
  pub attempt : AttemptRecord

pub record AttemptHeartbeat : Type 0 where
  pub build_id : Uuid
  pub attempt_id : Uuid
  pub lease_expires_at : Datetime
  pub cancel_requested : Bool

unfoldable pub register_plan : AttemptRecord → Store → Result (Unit {0})
register_plan a s = do
  raise_if (not (is_attempt_status a.status AttemptStatus.running)) (conflict Code.invalid_attempt)
  build ← get_build a.build_id s
  raise_if (not (is_status build.status BuildStatus.running)) (conflict Code.invalid_attempt)
  raise_if (ltb build.max_attempts a.attempt_number) (conflict Code.invalid_attempt)
  raise_if
      (member a.attempt_id s.attempts
        || any (λ x. x.build_id == a.build_id && x.attempt_number == a.attempt_number)
            (values s.attempts))
      (conflict Code.attempt_conflict)
  raise_if (any (λ x. x.build_id == a.build_id && is_active x.status) (values s.attempts))
      (conflict Code.active_attempt_conflict)

unfoldable pub register_running_attempt : AttemptRecord → Exec AttemptRecord
register_running_attempt a = reading (register_plan a) (λ _. write_attempt a.attempt_id a ⨾ pure a)

-- `max((attempt.attempt_number for attempt in existing), default=0)`
unfoldable pub last_number : List AttemptRecord → ℕ
last_number [] = 0
last_number (a ∷ rest) = max a.attempt_number (last_number rest)

abbrev pub new_attempt : Uuid → Uuid → ℕ → String → String → ℕ → Datetime → AttemptRecord
new_attempt attempt_id build_id number worker_id token_sha256 duration now = record {
  attempt_id = attempt_id;
  build_id = build_id;
  attempt_number = number;
  status = AttemptStatus.running;
  worker_id = worker_id;
  lease_token_sha256 = token_sha256;
  lease_expires_at = now + duration;
  heartbeat_at = now;
  started_at = some now;
  finished_at = none;
  exit_code = none;
  reason_code = none;
}

-- The part of `lease_build` that a queued build reaches.
unfoldable pub lease_queued :
    Environment
    → Uuid
    → Datetime
    → Uuid
    → BuildRecord
    → String
    → String
    → ℕ
    → Store
    → Result AttemptLease
lease_queued env attempt_id now build_id build worker_id token_sha256 duration s = do
  let existing = attempts_of build_id s
  raise_if (any (λ a. is_active a.status) existing) (conflict Code.active_attempt_conflict)
  let number = last_number existing + 1
  raise_if (ltb build.max_attempts number) (conflict Code.retry_policy_exhausted)
  raise_if (member attempt_id s.attempts) (conflict Code.attempt_id_collision)
  attempt ←
      check_attempt (new_attempt attempt_id build_id number worker_id token_sha256 duration now)
  updated ← check_build env (record build {
    status = BuildStatus.running;
    state_version = build.state_version + 1;
    updated_at = now;
  })
  ok (record { build = updated; attempt = attempt })

abbrev offered : Result AttemptLease → Result (Option AttemptLease)
offered (err e) = err e
offered (ok l) = ok (some l)

-- `none`: the build is not queued.
unfoldable pub lease_plan :
    Environment
    → Uuid
    → Datetime
    → Uuid
    → String
    → String
    → ℕ
    → Store
    → Result (Option AttemptLease)
unfolding lease_queued
lease_plan env attempt_id now build_id worker_id lease_token lease_seconds s = do
  token_sha256 ← lease_digest env lease_token
  duration ← lease_duration lease_seconds
  build ← get_build build_id s
  let grant = lease_queued env attempt_id now build_id build worker_id token_sha256 duration s
  if is_status build.status BuildStatus.queued then offered grant else ok none

abbrev pub lease_event : Uuid → AttemptLease → ℕ → BuildEvent
lease_event build_id l n = record {
  build_id = build_id;
  sequence = n;
  event_type = "attempt_started";
  from_status = some BuildStatus.queued;
  to_status = BuildStatus.running;
  reason_code = none;
  created_at = l.build.updated_at;
  attempt_id = some l.attempt.attempt_id;
}

unfoldable pub lease_commit : Uuid → Option AttemptLease → Exec (Option AttemptLease)
lease_commit build_id none = pure none
lease_commit build_id (some l) =
    write_attempt l.attempt.attempt_id l.attempt
    ⨾ write_build build_id l.build
    ⨾ append_event build_id (lease_event build_id l)
    ⨾ pure (some l)

unfoldable pub lease_build :
    Environment → Uuid → Datetime → Uuid → String → String → ℕ → Exec (Option AttemptLease)
lease_build env attempt_id now build_id worker_id lease_token lease_seconds =
    reading (lease_plan env attempt_id now build_id worker_id lease_token lease_seconds)
      (lease_commit build_id)

-- The fence of every call that a lease authorises: the attempt is live, the token is the one that
-- was leased, and the lease has not expired.
unfoldable pub require_lease :
    (AttemptStatus → Bool) → AttemptRecord → String → Datetime → Result (Unit {0})
require_lease live a token_sha256 now = do
  raise_if (not (live a.status)) (conflict Code.lease_not_active)
  raise_if (not (a.lease_token_sha256 == token_sha256)) (conflict Code.lease_fence_mismatch)
  raise_if (leb a.lease_expires_at now) (conflict Code.lease_expired)

unfoldable pub heartbeat_plan :
    Environment → Datetime → Uuid → String → ℕ → Store → Result AttemptRecord
heartbeat_plan env now attempt_id lease_token lease_seconds s = do
  token_sha256 ← lease_digest env lease_token
  duration ← lease_duration lease_seconds
  a ← attempt_for attempt_id s
  require_lease is_active a token_sha256 now
  check_attempt (record a { heartbeat_at = now; lease_expires_at = now + duration })

-- The renewal is written before the build is read.
unfoldable pub heartbeat_answer : Uuid → AttemptRecord → Exec AttemptHeartbeat
heartbeat_answer attempt_id a = reading (get_build a.build_id) (λ build. pure (record {
  build_id = build.build_id;
  attempt_id = attempt_id;
  lease_expires_at = a.lease_expires_at;
  cancel_requested = is_some build.cancel_requested_at;
}))

unfoldable pub heartbeat_attempt :
    Environment → Datetime → Uuid → String → ℕ → Exec AttemptHeartbeat
heartbeat_attempt env now attempt_id lease_token lease_seconds =
    reading (heartbeat_plan env now attempt_id lease_token lease_seconds)
      (λ a. write_attempt attempt_id a ⨾ heartbeat_answer attempt_id a)
