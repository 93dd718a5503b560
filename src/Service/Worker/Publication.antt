-- ===== src/Service/Worker/Publication.antt =====
-- The order in which the worker uploads and publishes, in `_handle_result` of worker.py.
use headless_blender_charact.Prelude.{
  Bool, List, Option, String, ap, false, if◌then◌else◌, none, refl, some, sym, true, ◌++◌, ◌∙◌, ◌≡◌,
}
use headless_blender_charact.Service.Worker.Action.{
  Act, World, carry, on_outside, on_repository, returns, ◌>>=◌, ◌>>◌,
}
use headless_blender_charact.Service.Worker.Launch.{LaunchResult}
use headless_blender_charact.Service.Worker.Supervisor.{
  Outside, Repository, WorkerSettings, let_monitor_run, probe, publish_output, publish_stored,
  store_all,
}
use headless_blender_charact.Service.Worker.Uploads.{
  LogsUploads, bind_ok, giving_up, giving_up_none, monitor_log, none_not_ok, paths_of, probe_log,
  store_all-Uploads,
}
use headless_blender_charact.Service.Errors.{Result, err, ok}
use headless_blender_charact.Service.Models.Build.{BuildRecord}
use headless_blender_charact.Service.Models.Artifact.{ArtifactRecord}
use headless_blender_charact.Service.Storage.{publication_order}
use headless_blender_charact.Service.Storage.Order.{publication_order_paths, upload_order}
use headless_blender_charact.Service.State.Leasing.{AttemptLease}
use headless_blender_charact.Service.Queue.Message.{BuildQueue, QueueMessage}

module _ {R W O Paths : Type 0} (repository : Repository R W) (queue : BuildQueue W)
    (outside : Outside O Paths) (c : WorkerSettings) (log : O → List String)
    (l : LogsUploads outside log) (m : QueueMessage) (lease : AttemptLease) (token : String)
    (result : LaunchResult Paths) where
  abbrev probing : Act (World R W O) Bool
  probing = probe repository queue outside c lease token

  abbrev publishing : List ArtifactRecord → Act (World R W O) (Option BuildRecord)
  publishing stored =
      let_monitor_run repository queue outside c lease.attempt.attempt_id token
      >> on_repository (repository.publish_attempt_success lease.attempt.attempt_id token stored)
      >>= λ build. returns (some build)

  publishing_log :
      (stored : List ArtifactRecord) (v : World R W O)
      → log (publishing stored v).1.outside ≡ log v.outside
  unfolding let_monitor_run
  publishing_log stored v =
      let w = (let_monitor_run repository queue outside c lease.attempt.attempt_id token v).1 in
      let (r, t) =
        repository.publish_attempt_success lease.attempt.attempt_id token stored w.repository in
      go r (record w { repository = t })
        (monitor_log repository queue outside c log l lease.attempt.attempt_id token v)
    where
      go :
          (r : Result BuildRecord) (w : World R W O)
          → log w.outside ≡ log v.outside
          → log (carry {B = Option BuildRecord} r (λ b. returns (some b)) w).1.outside
            ≡ log v.outside
      go (ok b) w h = h
      go (err e) w h = h

  publish_stored_log :
      (o : Option (List ArtifactRecord)) (build : BuildRecord) (v : World R W O)
      → (publish_stored repository queue outside c m lease token result o v).0 ≡ ok (some build)
      → (stored : List ArtifactRecord) × (o ≡ some stored)
        × (log (publish_stored repository queue outside c m lease token result o v).1.outside
            ≡ log v.outside)
  unfolding publish_stored
  publish_stored_log none build v h = absurd (none_not_ok build _ refl h)
  publish_stored_log (some stored) build v h =
      let (b, _, e) = bind_ok probing f v (some build) h in
      (
        stored,
        refl,
        ap (λ p. log p.1.outside) e
            ∙ branch b (probing v).1 (sym (ap (λ p. p.0) e) ∙ h)
            ∙ probe_log repository queue outside c log l m lease token result v,
      )
    where
      f : Bool → Act (World R W O) (Option BuildRecord)
      f asked =
          if asked
          then giving_up repository queue outside c log l m lease token result
          else publishing stored

      branch :
          (b : Bool) (w : World R W O)
          → (f b w).0 ≡ ok (some build)
          → log (f b w).1.outside ≡ log w.outside
      branch true w h =
          absurd (giving_up_none repository queue outside c log l m lease token result w build h)
      branch false w h = publishing_log stored w

  -- If the worker publishes a success, then in the course of it exactly nine uploads have finished,
  -- in a fixed order: the eight other artifacts first, and the manifest last. This holds for every
  -- repository, queue and builder output, given that a finished upload is logged once and nothing
  -- else writes the log.
  pub manifest_uploaded_last :
      (build : BuildRecord) (v : World R W O)
      → (publish_output repository queue outside c m lease token result v).0 ≡ ok (some build)
      → log (publish_output repository queue outside c m lease token result v).1.outside
        ≡ log v.outside ++ upload_order
  unfolding publish_output paths_of
  manifest_uploaded_last build v h =
      let (records, _, e1) = bind_ok read order v (some build) h in
      let w1 = (read v).1 in
      let (ordered, p, e2) =
        bind_ok (sorted records) store w1 (some build) (sym (ap (λ p. p.0) e1) ∙ h) in
      let (o, q, e3) =
        bind_ok (storing ordered) publish_it w1 (some build) (sym (ap (λ p. p.0) (e1 ∙ e2)) ∙ h) in
      let w2 = (storing ordered w1).1 in
      let (stored, own, same) =
        publish_stored_log o build w2 (sym (ap (λ p. p.0) (e1 ∙ e2 ∙ e3)) ∙ h) in
      ap (λ p. log p.1.outside) (e1 ∙ e2 ∙ e3)
      ∙ same
      ∙ (store_all-Uploads repository queue outside c log l m lease token result ordered).adds
          stored w1 (q ∙ ap ok own)
      ∙ ap (λ t. t ++ paths_of repository queue outside c log l m lease token result ordered)
          (l.read_silent result.paths lease.build lease.attempt.attempt_id c.deployment_namespace
            c.storage_bucket v.outside)
      ∙ ap (λ names. log v.outside ++ names) (publication_order_paths records ordered p)
    where
      read : Act (World R W O) (List ArtifactRecord)
      read = on_outside (
          outside.records_from_output result.paths lease.build lease.attempt.attempt_id
            c.deployment_namespace c.storage_bucket)

      sorted : List ArtifactRecord → Act (World R W O) (List ArtifactRecord)
      sorted records v = (publication_order records, v)

      storing : List ArtifactRecord → Act (World R W O) (Option (List ArtifactRecord))
      storing = store_all repository queue outside c m lease token result

      publish_it : Option (List ArtifactRecord) → Act (World R W O) (Option BuildRecord)
      publish_it = publish_stored repository queue outside c m lease token result

      store : List ArtifactRecord → Act (World R W O) (Option BuildRecord)
      store ordered = storing ordered >>= publish_it

      order : List ArtifactRecord → Act (World R W O) (Option BuildRecord)
      order records = sorted records >>= store
