-- ===== src/Service/State/Publication.antt =====
-- `publish_success` and `publish_attempt_success` of state.py.
use headless_blender_charact.Prelude.{
  Bool, List, String, [], any, false, is_some, ltb, map, nat_eq, none, not, some, string_eq, true,
  ℕ, ◌+◌, ◌==◌, ◌||◌, ◌∷◌,
}
use headless_blender_charact.Service.Errors.{Code, Result, conflict, err, ok, raise_if, ◌>>=◌, ◌>>◌}
use headless_blender_charact.Service.Contract.{Datetime, Environment, Uuid, list_eq}
use headless_blender_charact.Service.Dict.{Dict, insert, lookup, member}
use headless_blender_charact.Service.Models.Status.{AttemptStatus, BuildStatus, is_attempt_status}
use headless_blender_charact.Service.Models.Build.{BuildRecord, check_build, max_published_bytes}
use headless_blender_charact.Service.Models.Attempt.{AttemptRecord, check_attempt}
use headless_blender_charact.Service.Models.Artifact.{ArtifactRecord}
use headless_blender_charact.Service.Models.Event.{BuildEvent}
use headless_blender_charact.Service.Storage.{artifact_object_key, by_name, distinct, is_exact_set}
use headless_blender_charact.Service.State.Store.{
  Exec, Settings, Store, append_event, attempt_for, found, get_build, lease_digest, pure, reading,
  require_version, write_attempt, write_build, ◌⨾◌,
}
use headless_blender_charact.Service.State.Submit.{indexed}
use headless_blender_charact.Service.State.Leasing.{require_lease}

-- `{record.attempt_id for record in records}` has one element: that element.
unfoldable pub sole : List Uuid → Result Uuid
sole (x ∷ []) = ok x
sole _ = err (conflict Code.artifact_attempt_mismatch)

-- The loop over the object keys.
unfoldable pub check_keys : String → Uuid → Uuid → List ArtifactRecord → Result (Unit {0})
check_keys namespace build_id attempt_id [] = ok tt
check_keys namespace build_id attempt_id (r ∷ rest) = do
  let others = check_keys namespace build_id attempt_id rest
  expected ← artifact_object_key namespace build_id attempt_id r.relative_path
  raise_if (not (r.object_key == expected)) (conflict Code.artifact_key_mismatch)
  others

unfoldable pub total_bytes : List ArtifactRecord → ℕ
total_bytes [] = 0
total_bytes (r ∷ rest) = r.bytes + total_bytes rest

-- What the nine artifacts must satisfy, for an attempt of the store.
unfoldable pub check_evidence_set :
    Settings → Uuid → Uuid → List ArtifactRecord → Store → Result AttemptRecord
check_evidence_set c build_id attempt_id records s = do
  a ← found (lookup attempt_id s.attempts) Code.attempt_not_found
  raise_if (not (a.build_id == build_id) || not (is_attempt_status a.status AttemptStatus.running))
      (conflict Code.invalid_attempt)
  raise_if (any (λ r. not (r.bucket == c.storage_bucket)) records)
      (conflict Code.artifact_bucket_mismatch)
  raise_if (any (λ r. elim r.version_id [ none ↦ true | some v ↦ v == "" ]) records)
      (conflict Code.artifact_version_missing)
  check_keys c.deployment_namespace build_id attempt_id records
  raise_if (ltb max_published_bytes (total_bytes records)) (conflict Code.artifact_budget)
  raise_if (member build_id s.artifacts) (conflict Code.artifacts_already_published)
  ok a

pub record Publication : Type 0 where
  pub build : BuildRecord
  pub before : BuildStatus
  pub attempt_id : Uuid
  pub attempt : AttemptRecord
  pub artifacts : Dict String ArtifactRecord
  pub moment : Datetime

-- `status in (RUNNING, RENDERING)`
abbrev pub is_publishable : BuildStatus → Bool
is_publishable BuildStatus.running = true
is_publishable BuildStatus.rendering = true
is_publishable _ = false

unfoldable pub publish_plan :
    Environment → Settings → Datetime → Uuid → ℕ → List ArtifactRecord → Store → Result Publication
unfolding sole
publish_plan env c now build_id expected_version records s = do
  current ← get_build build_id s
  require_version current expected_version
  raise_if (not (is_publishable current.status)) (conflict Code.invalid_transition)
  raise_if (is_some current.cancel_requested_at) (conflict Code.cancel_requested)
  raise_if (not (is_exact_set records)) (conflict Code.artifact_set_mismatch)
  raise_if (any (λ r. not (r.build_id == build_id)) records) (conflict Code.artifact_owner_mismatch)
  attempt_id ← sole (distinct (map (λ r. r.attempt_id) records))
  a ← check_evidence_set c build_id attempt_id records s
  manifest ← indexed (lookup "manifest.json" (by_name records))
  updated ← check_build env (record current {
    status = BuildStatus.succeeded;
    state_version = current.state_version + 1;
    terminal_code = none;
    manifest_object_key = some manifest.object_key;
    manifest_sha256 = some manifest.sha256;
    manifest_bytes = some manifest.bytes;
    updated_at = now;
    finished_at = some now;
    published_at = some now;
  })
  ok (record {
    build = updated;
    before = current.status;
    attempt_id = attempt_id;
    attempt = a;
    artifacts = by_name records;
    moment = now;
  })

-- `self._artifacts[build_id] = by_name`
unfoldable pub write_artifacts : Uuid → Dict String ArtifactRecord → Exec (Unit {0})
write_artifacts build_id d s = (ok tt, record s { artifacts = insert build_id d s.artifacts })

-- The attempt, closed with success. It is made after the artifacts are written.
abbrev pub closed_attempt : Datetime → AttemptRecord → AttemptRecord
closed_attempt now a = record a {
  status = AttemptStatus.succeeded;
  finished_at = some now;
  exit_code = some 0;
  reason_code = none;
}

unfoldable pub write_closed : Uuid → Result AttemptRecord → Exec (Unit {0})
write_closed attempt_id (err e) s = (err e, s)
write_closed attempt_id (ok a) s = write_attempt attempt_id a s

abbrev pub success_event : Uuid → Publication → ℕ → BuildEvent
success_event build_id p n = record {
  build_id = build_id;
  sequence = n;
  event_type = "succeeded";
  from_status = some p.before;
  to_status = BuildStatus.succeeded;
  reason_code = none;
  created_at = p.moment;
  attempt_id = some p.attempt_id;
}

unfoldable pub publish_commit : Uuid → Publication → Exec BuildRecord
publish_commit build_id p =
    write_artifacts build_id p.artifacts
    ⨾ write_closed p.attempt_id (check_attempt (closed_attempt p.moment p.attempt))
    ⨾ write_build build_id p.build
    ⨾ append_event build_id (success_event build_id p)
    ⨾ pure p.build

unfoldable pub publish_success :
    Environment → Settings → Datetime → Uuid → ℕ → List ArtifactRecord → Exec BuildRecord
publish_success env c now build_id expected_version records =
    reading (publish_plan env c now build_id expected_version records) (publish_commit build_id)

unfoldable pub fenced_build : Environment → Datetime → Uuid → String → Store → Result BuildRecord
fenced_build env checked_at attempt_id lease_token s = do
  token_sha256 ← lease_digest env lease_token
  a ← attempt_for attempt_id s
  require_lease (λ t. is_attempt_status t AttemptStatus.running) a token_sha256 checked_at
  get_build a.build_id s

-- The clock is read twice: for the lease, and for the publication.
unfoldable pub publish_attempt_success :
    Environment
    → Settings
    → Datetime
    → Datetime
    → Uuid
    → String
    → List ArtifactRecord
    → Exec BuildRecord
publish_attempt_success env c checked_at now attempt_id lease_token records =
    reading (fenced_build env checked_at attempt_id lease_token)
      (λ build. publish_success env c now build.build_id build.state_version records)
