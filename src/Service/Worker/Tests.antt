-- ===== src/Service/Worker/Tests.antt =====
-- A worker at work on a repository that grants no lease and accepts every publication.
use headless_blender_charact.Prelude.{
  List, String, [], false, nat_eq, none, refl, some, string_eq, ℕ, ◌++◌, ◌+◌, ◌∷◌, ◌≡◌,
}
use headless_blender_charact.Service.State.Fixtures.{
  leased, nine, published, running_build, token_a,
}
use headless_blender_charact.Service.Worker.Action.{World}
use headless_blender_charact.Service.Worker.Launch.{LaunchResult, LaunchTermination}
use headless_blender_charact.Service.Worker.Policy.{exit_policy}
use headless_blender_charact.Service.Worker.Supervisor.{
  Outside, Repository, WorkerSettings, hear, let_monitor_run, monitor_turn, monitor_turns, probe,
  probe_answer, publish_output, publish_stored, store_all,
}
use headless_blender_charact.Service.Worker.Rounds.{after_lease}
use headless_blender_charact.Service.Worker.Safety.{Settles}
use headless_blender_charact.Service.Worker.Settlement.{after_lease-Settles}
use headless_blender_charact.Service.Worker.Uploads.{LogsUploads}
use headless_blender_charact.Service.Worker.Publication.{manifest_uploaded_last}
use headless_blender_charact.Service.Worker.Acceptance.{IsAccepted, exit_policy-IsAccepted}
use headless_blender_charact.Service.Errors.{Code, conflict, err, ok}
use headless_blender_charact.Service.Dict.{insert, lookup}
use headless_blender_charact.Service.Models.Artifact.{required_published_artifacts}
use headless_blender_charact.Service.Storage.{
  by_name, distinct, is_exact_set, pick, publication_order,
}
use headless_blender_charact.Service.Storage.Order.{upload_order}
use headless_blender_charact.Service.State.Leasing.{AttemptLease}
use headless_blender_charact.Service.Queue.Message.{QueueMessage}
use headless_blender_charact.Service.Queue.Memory.{MemoryQueue, memory_queue}

abbrev test_repository : Repository ℕ MemoryQueue
test_repository = record {
  recover_expired_attempts = λ delay limit s. (ok [], s);
  dispatch_outbox = λ put limit delay s q. (ok (0, 0), s, q);
  lease_build = λ b worker token secs s. (ok none, s);
  heartbeat_attempt = λ i token secs s. (
    ok (record { build_id = 7; attempt_id = i; lease_expires_at = 9000; cancel_requested = false }),
    s + 1,
  );
  complete_attempt =
      λ i token status code reason retry delay s. (err (conflict Code.lease_expired), s);
  publish_attempt_success = λ i token records s. (ok published, s);
}

-- The world outside is the log of uploads; the heartbeat thread runs twice between two steps.
abbrev test_outside : Outside (List String) (Unit {0})
test_outside = record {
  execute = λ request i r o.
      (ok (record { paths = tt; exit_code = 0; termination = LaunchTermination.completed }), o);
  cleanup = λ p o. (ok tt, o);
  records_from_output = λ p build i namespace bucket o. (ok nine, o);
  store_file = λ r p o. (ok r, o ++ r.relative_path ∷ []);
  fresh_token = λ o. (token_a, o);
  turns = λ o. (2, o);
  stopped = λ o. (false, o);
}

abbrev worker_settings : WorkerSettings
worker_settings = record {
  deployment_namespace = "local";
  storage_bucket = "hbcb-artifacts";
  worker_id = "worker-1";
  lease_seconds = 30;
  retry_delay_seconds = 1;
}

test_outside-LogsUploads : LogsUploads test_outside (λ o. o)
test_outside-LogsUploads = record {
  uploaded = λ r stored p o h. refl;
  turns_silent = λ o. refl;
  read_silent = λ p build i namespace bucket o. refl;
}

abbrev message : QueueMessage
message = record { build_id = 7; receipt = "1-0" }

abbrev test_lease : AttemptLease
test_lease = record { build = running_build; attempt = leased }

abbrev result : LaunchResult (Unit {0})
result = record { paths = tt; exit_code = 0; termination = LaunchTermination.completed }

abbrev start : World ℕ MemoryQueue (List String)
start = record {
  repository = 0;
  queue = record {
    ready = [];
    claimed = ("1-0", message) ∷ [];
    dead = [];
    dead_letter_max_entries = 3;
    next = 2;
  };
  outside = [];
  lost = false;
  cancel = false;
}

publish_run :
    (publish_output test_repository memory_queue test_outside worker_settings message test_lease
      token_a result start).0
    ≡ ok (some published)
unfolding publish_output publish_stored store_all probe probe_answer let_monitor_run monitor_turns
    monitor_turn hear publication_order is_exact_set by_name distinct pick lookup insert
    required_published_artifacts
publish_run = refl

manifest_uploaded_last_example :
    (publish_output test_repository memory_queue test_outside worker_settings message test_lease
      token_a result start).1.outside
    ≡ [] ++ upload_order
manifest_uploaded_last_example =
    manifest_uploaded_last test_repository memory_queue test_outside worker_settings (λ o. o)
      test_outside-LogsUploads message test_lease token_a result published start publish_run

after_lease-Settles_example :
    Settles message start.queue
      (after_lease test_repository memory_queue test_outside worker_settings message token_a
        (ok (some test_lease))
        start).1.queue
after_lease-Settles_example =
    after_lease-Settles test_repository test_outside worker_settings message token_a
      (ok (some test_lease)) start

exit_policy-IsAccepted_example : IsAccepted (exit_policy 124)
exit_policy-IsAccepted_example = exit_policy-IsAccepted 124
