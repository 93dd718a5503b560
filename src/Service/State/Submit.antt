-- ===== src/Service/State/Submit.antt =====
-- `submit` of state.py.
use headless_blender_charact.Prelude.{
  Bool, List, Option, String, [], false, nat_eq, none, not, some, string_eq, true, ◌==◌, ◌∷◌,
}
use headless_blender_charact.Service.Errors.{
  Code, ErrorClass, Result, conflict, err, key_error, ok, raise_if, raised, ◌>>=◌, ◌>>◌,
}
use headless_blender_charact.Service.Contract.{Bytes, Datetime, Environment, Uuid, list_eq}
use headless_blender_charact.Service.Dict.{insert, lookup, member}
use headless_blender_charact.Service.Models.Status.{BuildStatus}
use headless_blender_charact.Service.Models.Build.{BuildRecord, check_build}
use headless_blender_charact.Service.Models.Event.{BuildEvent, check_event}
use headless_blender_charact.Service.Idempotency.{
  RequestFingerprint, digest_idempotency_key, from_request, require_same_request,
}
use headless_blender_charact.Service.State.Store.{
  Exec, Settings, Store, append_outbox, pure, reading, write_build, ◌⨾◌,
}

pub record BuildReservation : Type 0 where
  pub build : BuildRecord
  pub created : Bool

-- The record of a new build.
abbrev pub new_build : Settings → RequestFingerprint → Uuid → Datetime → BuildRecord
new_build c f build_id now = record {
  build_id = build_id;
  request_sha256 = f.request_sha256;
  spec_sha256 = f.spec_sha256;
  canonical_request = f.canonical_request;
  status = BuildStatus.queued;
  state_version = 1;
  max_attempts = c.max_attempts;
  cancel_requested_at = none;
  terminal_code = none;
  manifest_object_key = none;
  manifest_sha256 = none;
  manifest_bytes = none;
  created_at = now;
  updated_at = now;
  finished_at = none;
  published_at = none;
}

-- Its first two events.
abbrev pub validated_event : Uuid → Datetime → BuildEvent
validated_event build_id now = record {
  build_id = build_id;
  sequence = 1;
  event_type = "validated";
  from_status = none;
  to_status = BuildStatus.validating;
  reason_code = none;
  created_at = now;
  attempt_id = none;
}

abbrev pub queued_event : Uuid → Datetime → BuildEvent
queued_event build_id now = record {
  build_id = build_id;
  sequence = 2;
  event_type = "queued";
  from_status = some BuildStatus.validating;
  to_status = BuildStatus.queued;
  reason_code = none;
  created_at = now;
  attempt_id = none;
}

-- What `submit` does once it has looked at the key: answer with the build of an earlier request,
-- or make a new one.
pub data Submission : Type 0 where
  replayed : BuildRecord → Submission
  fresh : Option String → RequestFingerprint → BuildRecord → List BuildEvent → Submission

-- The digest of the key, if there is a key.
unfoldable pub optional_digest : Environment → Settings → Option String → Result (Option String)
optional_digest env c none = ok none
optional_digest env c (some key) = do
  digest ← digest_idempotency_key env c.idempotency_secret key
  ok (some digest)

-- `self._builds[build_id]`
abbrev pub indexed : {A : Type 0} → Option A → Result A
indexed none = err key_error
indexed (some a) = ok a

unfoldable pub replay_submission :
    RequestFingerprint → Store → String × Bytes × Uuid → Result Submission
replay_submission f s (request_sha256, canonical_request, build_id) = do
  require_same_request request_sha256 f.request_sha256
  raise_if (not (canonical_request == f.canonical_request))
      (raised ErrorClass.idempotency_conflict Code.idempotency_conflict)
  build ← indexed (lookup build_id s.builds)
  ok (replayed build)

unfoldable pub new_submission :
    Environment
    → Settings
    → Uuid
    → Datetime
    → Option String
    → RequestFingerprint
    → Store
    → Result Submission
new_submission env c build_id now digest f s = do
  raise_if (member build_id s.builds) (conflict Code.build_id_collision)
  build ← check_build env (new_build c f build_id now)
  first ← check_event (validated_event build_id now)
  second ← check_event (queued_event build_id now)
  ok (fresh digest f build (first ∷ second ∷ []))

-- `self._idempotency[key_digest]`, if there is a digest and it is known
abbrev pub known_request : Option String → Store → Option (String × Bytes × Uuid)
known_request none s = none
known_request (some digest) s = lookup digest s.idempotency

unfoldable pub decide_submission :
    Environment
    → Settings
    → Uuid
    → Datetime
    → Option String
    → RequestFingerprint
    → Store
    → Option (String × Bytes × Uuid)
    → Result Submission
unfolding replay_submission new_submission
decide_submission env c build_id now digest f s none = new_submission env c build_id now digest f s
decide_submission env c build_id now digest f s (some known) = replay_submission f s known

unfoldable pub submit_plan :
    Environment → Settings → Uuid → Datetime → Bytes → Option String → Store → Result Submission
unfolding optional_digest decide_submission
submit_plan env c build_id now request key s = do
  f ← from_request env request
  digest ← optional_digest env c key
  decide_submission env c build_id now digest f s (known_request digest s)

-- `self._events[build_id] = events`
unfoldable pub write_log : Uuid → List BuildEvent → Exec (Unit {0})
write_log build_id log s = (ok tt, record s { events = insert build_id log s.events })

-- `self._idempotency[key_digest] = …`, if there is a key
unfoldable pub remember_request : Option String → RequestFingerprint → Uuid → Exec (Unit {0})
remember_request none f build_id s = (ok tt, s)
remember_request (some digest) f build_id s = (
  ok tt,
  record s {
    idempotency = insert digest (f.request_sha256, f.canonical_request, build_id) s.idempotency;
  },
)

unfoldable pub submit_commit : Submission → Exec BuildReservation
submit_commit (replayed build) = pure (record { build = build; created = false })
submit_commit (fresh digest f build log) =
    write_build build.build_id build
    ⨾ write_log build.build_id log
    ⨾ remember_request digest f build.build_id
    ⨾ append_outbox build.build_id build.state_version build.created_at
    ⨾ pure (record { build = build; created = true })

-- `submit`. The fresh identifier and the moment are read only when a build is made.
unfoldable pub submit :
    Environment → Settings → Uuid → Datetime → Bytes → Option String → Exec BuildReservation
submit env c build_id now request key =
    reading (submit_plan env c build_id now request key) submit_commit
