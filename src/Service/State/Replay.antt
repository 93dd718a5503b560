-- ===== src/Service/State/Replay.antt =====
-- Idempotent submission: what `submit` of state.py answers to a key that it has seen.
use headless_blender_charact.Prelude.{
  List, String, ap, arith, false, nat_eq, none, some, string_eq, subst, sym, true, ◌≡◌,
}
use headless_blender_charact.Service.Errors.{Result, ok}
use headless_blender_charact.Service.Patterns.{sha256_pattern}
use headless_blender_charact.Service.Contract.{Bytes, Datetime, Environment, Uuid, same_list_self}
use headless_blender_charact.Service.Dict.{lookup, lookup-insert_self}
use headless_blender_charact.Service.Models.Build.{BuildRecord, check_build}
use headless_blender_charact.Service.Models.Event.{BuildEvent}
use headless_blender_charact.Service.Idempotency.{
  RequestFingerprint, check_fingerprint, check_validated, digest_idempotency_key, fingerprint_of,
  from_request, require_same_request,
}
use headless_blender_charact.Service.State.Store.{
  Settings, Store, append_outbox, found, proceed, write_build,
}
use headless_blender_charact.Service.State.Submit.{
  BuildReservation, Submission, decide_submission, fresh, new_submission, optional_digest,
  remember_request, replay_submission, replayed, submit, submit_commit, submit_plan, write_log,
}
use headless_blender_charact.Service.State.Verdicts.{reading_inv}

module _ (env : Environment) (c : Settings) (request : Bytes) (key : String) where
  abbrev again : Uuid → Datetime → Store → Result BuildReservation × Store
  again b now s = submit env c b now request (some key) s

  fingerprint_pattern :
      (f : RequestFingerprint)
      → from_request env request ≡ ok f
      → sha256_pattern f.request_sha256 ≡ true
  unfolding from_request fingerprint_of check_fingerprint check_validated
  fingerprint_pattern f h = ground arith

  -- A store that remembers the request under the digest of the key.
  record Remembers (s : Store) (build : BuildRecord) : Type 0 where
    print : RequestFingerprint
    digest : String
    its_print : from_request env request ≡ ok print
    its_digest : digest_idempotency_key env c.idempotency_secret key ≡ ok digest
    its_entry :
        lookup digest s.idempotency
        ≡ some (print.request_sha256, print.canonical_request, build.build_id)
    its_build : lookup build.build_id s.builds ≡ some build

  replays :
      (s : Store) (build : BuildRecord)
      → Remembers s build
      → (b : Uuid) (now : Datetime)
      → again b now s ≡ (ok (record { build = build; created = false }), s)
  unfolding submit submit_plan optional_digest decide_submission replay_submission
      require_same_request submit_commit
  replays s build m b now = ground (
    arith,
    fingerprint_pattern m.print m.its_print,
    m.its_print,
    m.its_digest,
    m.its_entry,
    m.its_build,
    string_eq.beq_iff m.print.request_sha256 m.print.request_sha256,
    same_list_self m.print.canonical_request,
  )

  always_digest :
      (b : Uuid) (now : Datetime) (s : Store) (f : RequestFingerprint) (build : BuildRecord)
      (log : List BuildEvent)
      → submit_plan env c b now request (some key) s ≡ ok (fresh none f build log)
      → ⊥
  unfolding submit_plan optional_digest decide_submission replay_submission new_submission
  always_digest b now s f build log h = ground arith

  fresh_facts :
      (b : Uuid) (now : Datetime) (s : Store) (d : String) (f : RequestFingerprint)
      (build : BuildRecord) (log : List BuildEvent)
      → submit_plan env c b now request (some key) s ≡ ok (fresh (some d) f build log)
      → (from_request env request ≡ ok f)
        × (digest_idempotency_key env c.idempotency_secret key ≡ ok d)
        × (build.request_sha256 ≡ f.request_sha256)
  unfolding submit_plan optional_digest decide_submission replay_submission new_submission
      check_build
  fresh_facts b now s d f build log h = ground arith

  replay_facts :
      (b : Uuid) (now : Datetime) (s : Store) (build : BuildRecord)
      → submit_plan env c b now request (some key) s ≡ ok (replayed build)
      → (b2 : Uuid) (now2 : Datetime)
      → submit_plan env c b2 now2 request (some key) s ≡ ok (replayed build)
  unfolding submit_plan optional_digest decide_submission replay_submission new_submission
      check_build
  replay_facts b now s build h b2 now2 = ground arith

  module _ (b : Uuid) (now : Datetime) (s : Store) (r : BuildReservation) where
    abbrev left : Store
    left = (again b now s).1

    -- What a fresh submission leaves behind, if it returns.
    fresh_left :
        (d : String) (f : RequestFingerprint) (build : BuildRecord) (log : List BuildEvent)
        → (submit_commit (fresh (some d) f build log) s).0 ≡ ok r
        → (r.build ≡ build)
          × (lookup d (submit_commit (fresh (some d) f build log) s).1.idempotency
              ≡ some (f.request_sha256, f.canonical_request, build.build_id))
          × (lookup build.build_id (submit_commit (fresh (some d) f build log) s).1.builds
              ≡ some build)
    unfolding submit_commit write_build write_log remember_request append_outbox
    fresh_left d f build log h = ground (
      arith,
      lookup-insert_self build.build_id build s.builds,
      lookup-insert_self d (f.request_sha256, f.canonical_request, build.build_id) s.idempotency,
    )

    -- The answer to the same submission, at a later moment.
    record IsReplayed (b2 : Uuid) (now2 : Datetime) (t : Store) : Type 0 where
      replay : again b2 now2 t ≡ (ok (record { build = r.build; created = false }), t)

    kept-IsReplayed :
        (build : BuildRecord) (b2 : Uuid) (now2 : Datetime)
        → submit_plan env c b now request (some key) s ≡ ok (replayed build)
        → (submit_commit (replayed build) s).0 ≡ ok r
        → IsReplayed b2 now2 (submit_commit (replayed build) s).1
    unfolding submit submit_commit
    kept-IsReplayed build b2 now2 q e =
        let same : r.build ≡ build = ground arith in
        record { replay = rw (replay_facts b now s build q b2 now2, same) }

    made-IsReplayed :
        (d : String) (f : RequestFingerprint) (build : BuildRecord) (log : List BuildEvent)
        (b2 : Uuid) (now2 : Datetime)
        → submit_plan env c b now request (some key) s ≡ ok (fresh (some d) f build log)
        → (submit_commit (fresh (some d) f build log) s).0 ≡ ok r
        → IsReplayed b2 now2 (submit_commit (fresh (some d) f build log) s).1
    made-IsReplayed d f build log b2 now2 q e =
        let (print, digest, _) = fresh_facts b now s d f build log q in
        let (own, entry, found) = fresh_left d f build log e in
        let known : Remembers (submit_commit (fresh (some d) f build log) s).1 build = record {
          print = f;
          digest = d;
          its_print = print;
          its_digest = digest;
          its_entry = entry;
          its_build = found;
        } in
        record { replay = rw own (replays _ build known b2 now2) }

    plan-IsReplayed :
        (p : Submission) (b2 : Uuid) (now2 : Datetime)
        → submit_plan env c b now request (some key) s ≡ ok p
        → (submit_commit p s).0 ≡ ok r
        → IsReplayed b2 now2 (submit_commit p s).1
    plan-IsReplayed (replayed build) b2 now2 q e = kept-IsReplayed build b2 now2 q e
    plan-IsReplayed (fresh none f build log) b2 now2 q e =
        absurd (always_digest b now s f build log q)
    plan-IsReplayed (fresh (some d) f build log) b2 now2 q e =
        made-IsReplayed d f build log b2 now2 q e

    left_is :
        (p : Submission)
        → submit_plan env c b now request (some key) s ≡ ok p
        → left ≡ (submit_commit p s).1
    unfolding submit
    left_is p q = ap (λ x. (proceed x submit_commit s).1) q

    -- A submission with a key that returned is answered the same again: submitting the same request
    -- with the same key to the store it left returns the same build, marked as not created, and
    -- changes nothing, at any moment and whatever identifier is fresh.
    pub submit_replayed :
        (b2 : Uuid) (now2 : Datetime)
        → (again b now s).0 ≡ ok r
        → again b2 now2 left ≡ (ok (record { build = r.build; created = false }), left)
    unfolding submit
    submit_replayed b2 now2 h =
        let (p, q, e) =
          reading_inv (submit_plan env c b now request (some key)) submit_commit s r h in
        (subst (IsReplayed b2 now2) (sym (left_is p q)) (plan-IsReplayed p b2 now2 q e)).replay
