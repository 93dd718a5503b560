-- ===== src/Service/State/Evidence.antt =====
-- What `publish_success` of state.py has checked when it returns, and what it has written.
use headless_blender_charact.Prelude.{
  List, all, any, ap, arith, false, is_some, map, nat_eq, not, some, string_eq, subst, sym, true, ℕ,
  ◌==◌, ◌∙◌, ◌≡◌, ◌≤◌,
}
use headless_blender_charact.Service.Errors.{Result, ok}
use headless_blender_charact.Service.Contract.{Datetime, Environment, Uuid, list_eq}
use headless_blender_charact.Service.Dict.{lookup, lookup-insert_self}
use headless_blender_charact.Service.Models.Status.{AttemptStatus, BuildStatus}
use headless_blender_charact.Service.Models.Build.{BuildRecord, check_build, max_published_bytes}
use headless_blender_charact.Service.Models.Attempt.{AttemptRecord, check_attempt}
use headless_blender_charact.Service.Models.Artifact.{ArtifactRecord}
use headless_blender_charact.Service.Storage.{by_name, distinct, is_exact_set}
use headless_blender_charact.Service.State.Store.{
  Exec, Settings, Store, append_event, get_build, proceed, pure, require_version, write_attempt,
  write_build, ◌⨾◌,
}
use headless_blender_charact.Service.State.Publication.{
  Publication, check_evidence_set, check_keys, closed_attempt, is_publishable, publish_commit,
  publish_plan, publish_success, sole, success_event, total_bytes, write_artifacts, write_closed,
}
use headless_blender_charact.Service.State.Verdicts.{Yields, Yields-pure, Yields-then, reading_inv}
use headless_blender_charact.Service.State.Owners.{all_pass, sole_attempt}

module _ (env : Environment) (c : Settings) (now : Datetime) (b : Uuid) (version : ℕ)
    (records : List ArtifactRecord) (s : Store) (r : BuildRecord) where
  abbrev plan : Result Publication
  plan = publish_plan env c now b version records s

  abbrev rest : Publication → Exec BuildRecord
  rest p =
      write_closed p.attempt_id (check_attempt (closed_attempt p.moment p.attempt))
      ⨾ write_build b p.build
      ⨾ append_event b (success_event b p)
      ⨾ pure p.build

  returned : (p : Publication) → Yields p.build (publish_commit b p)
  unfolding publish_commit
  returned p = Yields-then (write_artifacts b p.artifacts) (rest p) p.build (
      Yields-then (write_closed p.attempt_id (check_attempt (closed_attempt p.moment p.attempt))) _
        p.build
        (Yields-then (write_build b p.build) _ p.build
          (Yields-then (append_event b (success_event b p)) _ p.build (Yields-pure p.build))))

  module _ (current : BuildRecord) (m : ArtifactRecord) (found : lookup b s.builds ≡ some current)
      (has_manifest : lookup "manifest.json" (by_name records) ≡ some m) where
    planned :
        (p : Publication)
        → plan ≡ ok p
        → (current.state_version ≡ version)
          × (is_publishable current.status ≡ true)
          × (is_some current.cancel_requested_at ≡ false)
          × (is_exact_set records ≡ true)
          × (total_bytes records ≤ max_published_bytes)
          × (check_keys c.deployment_namespace b p.attempt_id records ≡ ok tt)
          × (lookup p.attempt_id s.attempts ≡ some p.attempt)
          × (p.attempt.build_id ≡ b)
          × (p.attempt.status ≡ AttemptStatus.running)
          × (p.build.status ≡ BuildStatus.succeeded)
          × (p.build.manifest_sha256 ≡ some m.sha256)
          × (p.build.manifest_object_key ≡ some m.object_key)
          × (p.artifacts ≡ by_name records)
          × (p.moment ≡ now)
    unfolding publish_plan get_build require_version check_build check_evidence_set
    planned p h = ground (arith, nat_eq.beq_iff version current.state_version)

    -- What the artifacts themselves carry.
    named :
        (p : Publication)
        → plan ≡ ok p
        → (any (λ x. not (x.build_id == b)) records ≡ false)
          × (sole (distinct (map (λ x. x.attempt_id) records)) ≡ ok p.attempt_id)
          × (any (λ x. not (x.bucket == c.storage_bucket)) records ≡ false)
    unfolding publish_plan get_build require_version check_build check_evidence_set
    named p h = (ground arith, ground arith, ground arith)

    committed :
        (p : Publication)
        → (publish_commit b p s).0 ≡ ok r
        → (lookup b (publish_commit b p s).1.artifacts ≡ some p.artifacts)
          × (lookup p.attempt_id (publish_commit b p s).1.attempts
              ≡ some (closed_attempt p.moment p.attempt))
          × (lookup b (publish_commit b p s).1.builds ≡ some p.build)
    unfolding publish_commit write_artifacts write_closed write_attempt write_build append_event
        check_attempt
    committed p h = ground (
      arith,
      lookup-insert_self b p.artifacts s.artifacts,
      lookup-insert_self p.attempt_id (closed_attempt p.moment p.attempt) s.attempts,
      lookup-insert_self b p.build s.builds,
    )

    -- The evidence behind a success, and what it leaves in the store.
    pub record IsEvident (t : Store) : Type 0 where
      pub version_used : current.state_version ≡ version
      pub publishable : is_publishable current.status ≡ true
      pub not_canceled : is_some current.cancel_requested_at ≡ false
      pub exact_set : is_exact_set records ≡ true
      pub in_budget : total_bytes records ≤ max_published_bytes
      pub attempt_id : Uuid
      pub attempt : AttemptRecord
      pub of_build : all (λ x. x.build_id == b) records ≡ true
      pub of_attempt : all (λ x. x.attempt_id == attempt_id) records ≡ true
      pub in_bucket : all (λ x. x.bucket == c.storage_bucket) records ≡ true
      pub own_keys : check_keys c.deployment_namespace b attempt_id records ≡ ok tt
      pub found_attempt : lookup attempt_id s.attempts ≡ some attempt
      pub own_attempt : attempt.build_id ≡ b
      pub was_running : attempt.status ≡ AttemptStatus.running
      pub succeeded : r.status ≡ BuildStatus.succeeded
      pub manifest_digest : r.manifest_sha256 ≡ some m.sha256
      pub manifest_key : r.manifest_object_key ≡ some m.object_key
      pub written : lookup b t.builds ≡ some r
      pub artifacts : lookup b t.artifacts ≡ some (by_name records)
      pub closed : lookup attempt_id t.attempts ≡ some (closed_attempt now attempt)

    plan-IsEvident :
        (p : Publication)
        → plan ≡ ok p
        → (publish_commit b p s).0 ≡ ok r
        → IsEvident (publish_commit b p s).1
    plan-IsEvident p q e =
        let (
          version_used, publishable, not_canceled, exact_set, in_budget, own_keys, found_attempt,
          own_attempt, was_running, succeeded, digest, key, own_artifacts, moment,
        ) =
          planned p q in
        let (build_named, attempt_named, bucket_named) = named p q in
        let (artifacts, closed, written) = committed p e in
        let own : r ≡ p.build = (returned p).value s r e in
        record {
          version_used = version_used;
          publishable = publishable;
          not_canceled = not_canceled;
          exact_set = exact_set;
          in_budget = in_budget;
          attempt_id = p.attempt_id;
          attempt = p.attempt;
          of_build = all_pass (λ x. x.build_id == b) records build_named;
          of_attempt = sole_attempt p.attempt_id records attempt_named;
          in_bucket = all_pass (λ x. x.bucket == c.storage_bucket) records bucket_named;
          own_keys = own_keys;
          found_attempt = found_attempt;
          own_attempt = own_attempt;
          was_running = was_running;
          succeeded = rw own succeeded;
          manifest_digest = rw own digest;
          manifest_key = rw own key;
          written = rw own written;
          artifacts = artifacts ∙ ap some own_artifacts;
          closed = closed ∙ ap (λ t. some (closed_attempt t p.attempt)) moment;
        }

    -- A publication that returns had the expected version of a RUNNING or RENDERING build without a
    -- request for cancellation, and the exact set of nine artifacts, within the byte limit. Every
    -- artifact names that build, one and the same attempt and the store's bucket, and stands under
    -- the key of that attempt, which is RUNNING and belongs to that build. It leaves the build
    -- SUCCEEDED with the manifest's digest and key, those artifacts as the build's artifacts, and
    -- that attempt closed with exit code 0.
    pub publish_success-IsEvident :
        (publish_success env c now b version records s).0 ≡ ok r
        → IsEvident (publish_success env c now b version records s).1
    unfolding publish_success
    publish_success-IsEvident h =
        let (p, q, e) =
          reading_inv (publish_plan env c now b version records) (publish_commit b) s r h in
        subst IsEvident (sym (ap (λ x. (proceed x (publish_commit b) s).1) q))
          (plan-IsEvident p q e)
