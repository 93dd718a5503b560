-- ===== src/Service/State/Fixtures.antt =====
-- Concrete settings, calls and records, for the tests of state.py's model.
use headless_blender_charact.Prelude.{
  List, String, [], if◌then◌else◌, nat_eq, none, refl, replicate, some, string_eq, ℕ, ◌+◌, ◌∷◌, ◌≡◌,
}
use headless_blender_charact.Service.Errors.{Result, ok}
use headless_blender_charact.Service.Patterns.{
  codes, lease_token_pattern, safe_code_pattern, sha256_pattern, worker_id_pattern,
}
use headless_blender_charact.Service.Contract.{Bytes, Environment, Uuid, same_list}
use headless_blender_charact.Service.Dict.{insert, lookup, values}
use headless_blender_charact.Service.Models.Status.{
  AttemptStatus, BuildStatus, require_safe_code, require_sha256, status_value,
}
use headless_blender_charact.Service.Models.Build.{
  BuildRecord, build_post_init, check_build, check_lifecycle, check_manifest, check_request,
}
use headless_blender_charact.Service.Models.Attempt.{
  AttemptRecord, attempt_post_init, check_attempt,
}
use headless_blender_charact.Service.Models.Artifact.{ArtifactRecord}
use headless_blender_charact.Service.Models.Event.{
  check_event, check_outbox, event_post_init, outbox_post_init,
}
use headless_blender_charact.Service.Idempotency.{check_fingerprint, from_request}
use headless_blender_charact.Service.State.Store.{
  Settings, Store, append_event, append_outbox, attempt_for, attempts_of, empty_store, get_build,
  lease_digest, lease_duration, require_version, retry_delay, write_attempt, write_build,
}
use headless_blender_charact.Service.State.Submit.{
  remember_request, submit, submit_commit, submit_plan, write_log,
}
use headless_blender_charact.Service.State.Leasing.{
  heartbeat_answer, heartbeat_attempt, heartbeat_plan, last_number, lease_build, lease_commit,
  lease_plan, require_lease,
}
use headless_blender_charact.Service.State.Completion.{
  complete_attempt, complete_commit, complete_plan, requeue_if,
}
use headless_blender_charact.Service.State.Transitions.{cancel_commit, cancel_plan, request_cancel}
use headless_blender_charact.Service.State.Machine.{
  Call, cancels, heartbeats, leases, perform, perform_all, submits,
}

abbrev pub hex_a : String
hex_a = "aaaaaaaaaaaaaaaaaaaaaaaaaaaaaaaaaaaaaaaaaaaaaaaaaaaaaaaaaaaaaaaa"

abbrev pub hex_b : String
hex_b = "bbbbbbbbbbbbbbbbbbbbbbbbbbbbbbbbbbbbbbbbbbbbbbbbbbbbbbbbbbbbbbbb"

abbrev pub token_a : String
token_a = "token-a-token-a-token-a-token-a-token-a-tok"

abbrev pub token_b : String
token_b = "token-b-token-b-token-b-token-b-token-b-tok"

abbrev pub test_env : Environment
test_env = record {
  validate_build_request = λ payload.
      some (record { request_sha256 = hex_a; spec_sha256 = hex_b; canonical_bytes = payload });
  sha256_hex = λ payload. if same_list payload (codes token_a) then hex_a else hex_b;
  hmac_sha256_hex = λ secret key. hex_b;
}

abbrev pub test_settings : Settings
test_settings = record {
  idempotency_secret = replicate 32 1;
  max_attempts = 2;
  deployment_namespace = "local";
  storage_bucket = "hbcb-artifacts";
}

-- A queue that counts what it is given.
abbrev pub counting : Uuid → ℕ → Result String × ℕ
counting build_id n = (ok "1-0", n + 1)

abbrev pub request : Bytes
request = b'{' ∷ b'}' ∷ []

abbrev pub first_calls : List (Call ℕ)
first_calls =
    submits 7 1000 request none
    ∷ leases 21 2000 7 "worker-1" token_a 30
    ∷ heartbeats 3000 21 token_a 30
    ∷ []

abbrev pub cancel_calls : List (Call ℕ)
cancel_calls = submits 7 1000 request none ∷ cancels 1500 7 1 ∷ []

abbrev pub more_calls : List (Call ℕ)
more_calls =
    leases 21 2000 7 "worker-1" token_a 30 ∷ submits 8 2500 request none ∷ cancels 2600 7 2 ∷ []

abbrev pub after : List (Call ℕ) → Store
after calls = perform_all counting test_env test_settings calls empty_store

-- What a test computes with.
unfoldable pub run : List (Call ℕ) → Store
unfolding perform_all perform empty_store submit submit_plan submit_commit from_request
    check_fingerprint check_build build_post_init check_request check_lifecycle check_manifest
    sha256_pattern same_list lookup insert values write_build write_log remember_request
    append_outbox check_outbox outbox_post_init check_event event_post_init require_safe_code
    safe_code_pattern require_sha256 request_cancel cancel_plan cancel_commit get_build
    require_version append_event lease_build lease_plan lease_commit lease_digest lease_duration
    lease_token_pattern attempts_of last_number check_attempt attempt_post_init worker_id_pattern
    write_attempt heartbeat_attempt heartbeat_plan heartbeat_answer attempt_for require_lease
    status_value complete_attempt complete_plan complete_commit requeue_if retry_delay
run calls = perform_all counting test_env test_settings calls empty_store

abbrev pub canceled_build : BuildRecord
canceled_build = record {
  build_id = 7;
  request_sha256 = hex_a;
  spec_sha256 = hex_b;
  canonical_request = request;
  status = BuildStatus.canceled;
  state_version = 2;
  max_attempts = 2;
  cancel_requested_at = some 1500;
  terminal_code = some "canceled_by_operator";
  manifest_object_key = none;
  manifest_sha256 = none;
  manifest_bytes = none;
  created_at = 1000;
  updated_at = 1500;
  finished_at = some 1500;
  published_at = none;
}

abbrev pub leased : AttemptRecord
leased = record {
  attempt_id = 21;
  build_id = 7;
  attempt_number = 1;
  status = AttemptStatus.running;
  worker_id = "worker-1";
  lease_token_sha256 = hex_a;
  lease_expires_at = 30003000;
  heartbeat_at = 3000;
  started_at = some 2000;
  finished_at = none;
  exit_code = none;
  reason_code = none;
}

abbrev pub running_build : BuildRecord
running_build = record canceled_build {
  status = BuildStatus.running;
  cancel_requested_at = none;
  terminal_code = none;
  updated_at = 2000;
  finished_at = none;
}

abbrev pub artifact : String → String → String → ArtifactRecord
artifact path key content_type = record {
  build_id = 7;
  attempt_id = 21;
  relative_path = path;
  bucket = "hbcb-artifacts";
  object_key = key;
  sha256 = hex_a;
  bytes = 100;
  content_type = content_type;
  created_at = 4500;
  etag = some "e1";
  version_id = some "v1";
}

abbrev pub manifest : ArtifactRecord
manifest =
    artifact "manifest.json"
      "local/v1/builds/00000000-0000-0000-0000-000000000007/attempts/00000000-0000-0000-0000-000000000015/complete-v1/manifest.json"
      "application/json"

abbrev pub nine : List ArtifactRecord
nine =
    artifact "model.blend"
      "local/v1/builds/00000000-0000-0000-0000-000000000007/attempts/00000000-0000-0000-0000-000000000015/complete-v1/model.blend"
      "application/x-blender"
    ∷ artifact "model.glb"
        "local/v1/builds/00000000-0000-0000-0000-000000000007/attempts/00000000-0000-0000-0000-000000000015/complete-v1/model.glb"
        "model/gltf-binary"
    ∷ artifact "model.stl"
        "local/v1/builds/00000000-0000-0000-0000-000000000007/attempts/00000000-0000-0000-0000-000000000015/complete-v1/model.stl"
        "model/stl"
    ∷ artifact "preview.png"
        "local/v1/builds/00000000-0000-0000-0000-000000000007/attempts/00000000-0000-0000-0000-000000000015/complete-v1/preview.png"
        "image/png"
    ∷ artifact "diagnostics/front.png"
        "local/v1/builds/00000000-0000-0000-0000-000000000007/attempts/00000000-0000-0000-0000-000000000015/complete-v1/diagnostics/front.png"
        "image/png"
    ∷ artifact "diagnostics/side.png"
        "local/v1/builds/00000000-0000-0000-0000-000000000007/attempts/00000000-0000-0000-0000-000000000015/complete-v1/diagnostics/side.png"
        "image/png"
    ∷ artifact "diagnostics/back.png"
        "local/v1/builds/00000000-0000-0000-0000-000000000007/attempts/00000000-0000-0000-0000-000000000015/complete-v1/diagnostics/back.png"
        "image/png"
    ∷ artifact "qa.json"
        "local/v1/builds/00000000-0000-0000-0000-000000000007/attempts/00000000-0000-0000-0000-000000000015/complete-v1/qa.json"
        "application/json"
    ∷ manifest
    ∷ []

abbrev pub published : BuildRecord
published = record running_build {
  status = BuildStatus.succeeded;
  state_version = 3;
  manifest_object_key = some manifest.object_key;
  manifest_sha256 = some hex_a;
  manifest_bytes = some 100;
  updated_at = 5000;
  finished_at = some 5000;
  published_at = some 5000;
}

pub leased_build_run : lookup 7 (after first_calls).builds ≡ some running_build
unfolding run
leased_build_run = refl
