-- ===== src/Service/State/Examples.antt =====
-- The theorems on single methods of state.py, at concrete calls.
use headless_blender_charact.Prelude.{
  List, [], false, nat_eq, none, refl, some, string_eq, true, ℕ, ◌+◌, ◌∷◌, ◌≡◌,
}
use headless_blender_charact.Service.State.Fixtures.{
  after, counting, first_calls, leased, leased_build_run, manifest, nine, published, request, run,
  running_build, test_env, test_settings, token_a,
}
use headless_blender_charact.Service.Errors.{ok}
use headless_blender_charact.Service.Patterns.{
  idempotency_key_pattern, is_parent, namespace_pattern, object_key_pattern, parts_of,
}
use headless_blender_charact.Service.Contract.{seconds}
use headless_blender_charact.Service.Dict.{insert, lookup}
use headless_blender_charact.Service.Models.Status.{
  AttemptStatus, BuildStatus, allowed, require_transition,
}
use headless_blender_charact.Service.Models.Build.{BuildRecord, check_evidence}
use headless_blender_charact.Service.Models.Artifact.{required_published_artifacts}
use headless_blender_charact.Service.Idempotency.{digest_idempotency_key, validate_idempotency_key}
use headless_blender_charact.Service.Storage.{
  artifact_object_key, by_name, distinct, is_exact_set, uuid_text,
}
use headless_blender_charact.Service.State.Store.{empty_store, retry_delay}
use headless_blender_charact.Service.State.Submit.{BuildReservation, submit}
use headless_blender_charact.Service.State.Leasing.{AttemptLease, lease_build}
use headless_blender_charact.Service.State.Completion.{AttemptCompletion, requeue_if}
use headless_blender_charact.Service.State.Recovery.{
  expired_attempts, lost_completion, recover_all, recover_build, recover_expired_attempts,
  recover_one, recover_plan, recovery_arguments,
}
use headless_blender_charact.Service.State.Transitions.{
  transition, transition_commit, transition_plan, transition_reason,
}
use headless_blender_charact.Service.State.Publication.{
  check_evidence_set, check_keys, publish_commit, publish_plan, publish_success, sole, total_bytes,
  write_artifacts, write_closed,
}
use headless_blender_charact.Service.State.Machine.{Call, cancels, perform_all, submits}
use headless_blender_charact.Service.State.Versions.{IsStale, transition-IsStale}
use headless_blender_charact.Service.State.Replay.{submit_replayed}
use headless_blender_charact.Service.State.Evidence.{IsEvident, publish_success-IsEvident}
use headless_blender_charact.Service.State.Lost.{recover_expired_attempts-AreLost}
use headless_blender_charact.Service.State.Grants.{Grants, lease_build-Grants}
use headless_blender_charact.Service.State.Recovered.{AreLost}

abbrev reservation : BuildReservation
reservation = record {
  build = record running_build {
    status = BuildStatus.queued;
    state_version = 1;
    updated_at = 1000;
  };
  created = true;
}

submit_run :
    (submit test_env test_settings 7 1000 request (some "key-00001") empty_store).0 ≡ ok reservation
unfolding run digest_idempotency_key validate_idempotency_key idempotency_key_pattern
submit_run = refl

submit_replayed_example :
    submit test_env test_settings 9 5000 request
      (some "key-00001")
      (submit test_env test_settings 7 1000 request (some "key-00001") empty_store).1
    ≡ (
      ok (record { build = reservation.build; created = false }),
      (submit test_env test_settings 7 1000 request (some "key-00001") empty_store).1,
    )
submit_replayed_example =
    submit_replayed test_env test_settings request "key-00001" 7 1000 empty_store reservation 9 5000
      submit_run

abbrev checking : BuildRecord
checking = record running_build {
  status = BuildStatus.geometry_qa;
  state_version = 3;
  updated_at = 4000;
}

transition_run :
    (transition test_env 4000 7 2 BuildStatus.geometry_qa none (after first_calls)).0 ≡ ok checking
unfolding run transition transition_plan transition_reason transition_commit require_transition
    allowed
transition_run = refl

transition-IsStale_example :
    (lookup 7
        (transition test_env 4000 7 2 BuildStatus.geometry_qa none (after first_calls)).1.builds
      ≡ some checking)
    × (checking.state_version ≡ 2 + 1)
    × IsStale 7 2 (
        perform_all counting test_env test_settings
          (cancels 5000 7 3 ∷ [])
          (transition test_env 4000 7 2 BuildStatus.geometry_qa none (after first_calls)).1)
transition-IsStale_example =
    transition-IsStale counting test_env test_settings first_calls (cancels 5000 7 3 ∷ []) 4000 7 2
      BuildStatus.geometry_qa none checking transition_run

publish_run :
    (publish_success test_env test_settings 5000 7 2 nine (after first_calls)).0 ≡ ok published
unfolding run publish_success publish_plan publish_commit sole distinct check_evidence_set
    check_keys total_bytes write_artifacts write_closed is_exact_set by_name
    required_published_artifacts artifact_object_key uuid_text check_evidence object_key_pattern
    namespace_pattern parts_of is_parent
publish_run = refl

nine_manifest : lookup "manifest.json" (by_name nine) ≡ some manifest
unfolding lookup insert by_name
nine_manifest = refl

publish_success-IsEvident_example :
    IsEvident test_env test_settings 5000 7 2 nine
      (after first_calls)
      published
      running_build
      manifest
      leased_build_run
      nine_manifest
      (publish_success test_env test_settings 5000 7 2 nine (after first_calls)).1
publish_success-IsEvident_example =
    publish_success-IsEvident test_env test_settings 5000 7 2 nine (after first_calls) published
      running_build manifest leased_build_run nine_manifest publish_run

-- The lease of the first calls has expired, and the build is queued again.
abbrev lost_attempt : AttemptCompletion
lost_attempt = record {
  build = record running_build {
    status = BuildStatus.queued;
    state_version = 3;
    updated_at = 40000000;
  };
  attempt = record leased {
    status = AttemptStatus.lost;
    finished_at = some 40000000;
    reason_code = some "worker_lost";
  };
  requeued = true;
  exhausted = false;
}

recover_run :
    (recover_expired_attempts test_env 40000000 1 10 (after first_calls)).0 ≡ ok (lost_attempt ∷ [])
unfolding run recover_expired_attempts recovery_arguments recover_all recover_one recover_plan
    lost_completion recover_build expired_attempts requeue_if retry_delay
recover_run = refl

recover_expired_attempts-AreLost_example :
    AreLost
      (40000000 + seconds 1)
      (after first_calls)
      (expired_attempts 40000000 10 (after first_calls))
      (lost_attempt ∷ [])
      (recover_expired_attempts test_env 40000000 1 10 (after first_calls)).1
recover_expired_attempts-AreLost_example =
    recover_expired_attempts-AreLost test_env 40000000 1 10 (after first_calls) (lost_attempt ∷ [])
      recover_run

abbrev queued_calls : List (Call ℕ)
queued_calls = submits 7 1000 request none ∷ []

queued_run : lookup 7 (after queued_calls).builds ≡ some reservation.build
unfolding run
queued_run = refl

abbrev granted_lease : AttemptLease
granted_lease = record {
  build = running_build;
  attempt = record leased { heartbeat_at = 2000; lease_expires_at = 30002000 };
}

lease_run :
    (lease_build test_env 21 2000 7 "worker-1" token_a 30 (after queued_calls)).0
    ≡ ok (some granted_lease)
unfolding run
lease_run = refl

lease_build-Grants_example :
    Grants test_env 21 2000 7 "worker-1" token_a 30
      (after queued_calls)
      reservation.build
      queued_run
      (some granted_lease)
      (lease_build test_env 21 2000 7 "worker-1" token_a 30 (after queued_calls)).1
lease_build-Grants_example =
    lease_build-Grants test_env 21 2000 7 "worker-1" token_a 30 (after queued_calls)
      reservation.build queued_run (some granted_lease) lease_run
