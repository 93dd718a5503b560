-- ===== src/Service/Worker/Uploads.antt =====
-- What the worker uploads in the loop of `_handle_result` of worker.py.
use headless_blender_charact.Prelude.{
  Bool, List, Option, String, [], ap, append-nil, append_assoc, arith, false, if◌then◌else◌, map,
  none, refl, some, suc, sym, true, zero, ℕ, ◌++◌, ◌∙◌, ◌∷◌, ◌≡◌,
}
use headless_blender_charact.Service.Worker.Action.{
  Act, World, carry, on_outside, returns, ◌>>=◌, ◌>>◌,
}
use headless_blender_charact.Service.Worker.Launch.{LaunchResult}
use headless_blender_charact.Service.Worker.Policy.{canceled_outcome}
use headless_blender_charact.Service.Worker.Supervisor.{
  Outside, Repository, WorkerSettings, complete_and_settle, hear, let_monitor_run, monitor_turn,
  monitor_turns, probe, store_all, with_stored,
}
use headless_blender_charact.Service.Errors.{Result, err, ok}
use headless_blender_charact.Service.Contract.{Uuid}
use headless_blender_charact.Service.Models.Build.{BuildRecord}
use headless_blender_charact.Service.Models.Artifact.{ArtifactRecord}
use headless_blender_charact.Service.State.Leasing.{AttemptLease}
use headless_blender_charact.Service.Queue.Message.{BuildQueue, QueueMessage}

-- A list of what has been uploaded, kept by the world outside: a finished upload is added to it, and
-- neither the thread's schedule nor the reader of the output changes it.
pub record LogsUploads {O Paths : Type 0} (outside : Outside O Paths) (log : O → List String)
    : Type 0 where
  pub uploaded :
      (r stored : ArtifactRecord) (p : Paths) (o : O)
      → (outside.store_file r p o).0 ≡ ok stored
      → log (outside.store_file r p o).1 ≡ log o ++ r.relative_path ∷ []
  pub turns_silent : (o : O) → log (outside.turns o).1 ≡ log o
  pub read_silent :
      (p : Paths) (build : BuildRecord) (i : Uuid) (namespace bucket : String) (o : O)
      → log (outside.records_from_output p build i namespace bucket o).1 ≡ log o

-- An action that returned went through its first step, and then was the rest.
pub bind_ok :
    {V A B : Type 0} (k : Act V A) (f : A → Act V B) (v : V) (b : B)
    → ((k >>= f) v).0 ≡ ok b
    → (a : A) × ((k v).0 ≡ ok a) × ((k >>= f) v ≡ f a (k v).1)
bind_ok {V} {A} {B} k f v b h = go (k v).0 refl h
  where
    go :
        (r : Result A)
        → (k v).0 ≡ r
        → (carry r f (k v).1).0 ≡ ok b
        → (a : A) × ((k v).0 ≡ ok a) × (carry (k v).0 f (k v).1 ≡ f a (k v).1)
    go (ok a) e h = (a, e, ap (λ r. carry r f (k v).1) e)
    go (err x) e h = cc

pub none_not_ok : {A : Type 0} (x : A) (r : Result (Option A)) → ok none ≡ r → r ≡ ok (some x) → ⊥
none_not_ok x r p q = cc

module _ {R W O Paths : Type 0} (repository : Repository R W) (queue : BuildQueue W)
    (outside : Outside O Paths) (c : WorkerSettings) (log : O → List String)
    (l : LogsUploads outside log) where
  turns_outside :
      (n : ℕ) (i : Uuid) (token : String) (v : World R W O)
      → (monitor_turns repository queue outside c n i token v).outside ≡ v.outside
  unfolding monitor_turns monitor_turn hear
  turns_outside zero i token v = refl
  turns_outside (suc n) i token v =
      turns_outside n i token (monitor_turn repository queue outside c i token v) ∙ ground arith

  pub monitor_log :
      (i : Uuid) (token : String) (v : World R W O)
      → log (let_monitor_run repository queue outside c i token v).1.outside ≡ log v.outside
  unfolding let_monitor_run
  monitor_log i token v =
      let (n, o) = outside.turns v.outside in
      ap log (turns_outside n i token (record v { outside = o })) ∙ l.turns_silent v.outside

  module _ (m : QueueMessage) (lease : AttemptLease) (token : String)
      (result : LaunchResult Paths) where
    abbrev pub probing : Act (World R W O) Bool
    probing = probe repository queue outside c lease token

    pub probe_log : (v : World R W O) → log (probing v).1.outside ≡ log v.outside
    unfolding probe let_monitor_run
    probe_log v = monitor_log lease.attempt.attempt_id token v

    -- The way out of a canceled build does not return an artifact.
    abbrev pub giving_up : {A : Type 0} → Act (World R W O) (Option A)
    giving_up =
        complete_and_settle repository queue outside c m lease token
          (canceled_outcome result.exit_code)
        >> returns none

    pub giving_up_none :
        {A : Type 0} (v : World R W O) (x : A) → (giving_up {A = A} v).0 ≡ ok (some x) → ⊥
    giving_up_none {A} v x h =
        let (_, _, e) =
          bind_ok
            (complete_and_settle repository queue outside c m lease token
              (canceled_outcome result.exit_code))
            (λ _. returns {A = Option A} none) v (some x) h in
        cc

    unfoldable pub paths_of : List ArtifactRecord → List String
    paths_of = map (λ r. r.relative_path)

    -- An action that, if it returns artifacts, has uploaded these paths.
    pub record Uploads (names : List String) (k : Act (World R W O) (Option (List ArtifactRecord)))
        : Type 0 where
      pub adds :
          (stored : List ArtifactRecord) (v : World R W O)
          → (k v).0 ≡ ok (some stored)
          → log (k v).1.outside ≡ log v.outside ++ names

    abbrev uploading :
        ArtifactRecord
        → Act (World R W O) (Option (List ArtifactRecord))
        → Act (World R W O) (Option (List ArtifactRecord))
    uploading r later = on_outside (outside.store_file r result.paths) >>= λ stored.
        later >>= λ others. returns (with_stored stored others)

    uploading-Uploads :
        (r : ArtifactRecord) (names : List String)
        (later : Act (World R W O) (Option (List ArtifactRecord)))
        → Uploads names later
        → Uploads (r.relative_path ∷ names) (uploading r later)
    uploading-Uploads r names later x = record { adds = go }
      where
        go :
            (stored : List ArtifactRecord) (v : World R W O)
            → (uploading r later v).0 ≡ ok (some stored)
            → log (uploading r later v).1.outside ≡ log v.outside ++ r.relative_path ∷ names
        go stored v h =
            let put : Act (World R W O) ArtifactRecord =
              on_outside (outside.store_file r result.paths) in
            let (s, es, e) =
              bind_ok put (λ s. later >>= λ others. returns (with_stored s others)) v (some stored)
                h in
            let (others, eo, e') =
              bind_ok later (λ others. returns (with_stored s others)) (put v).1 (some stored)
                (sym (ap (λ p. p.0) e) ∙ h) in
            finish others s (put v).1 eo (e ∙ e') (l.uploaded r s result.paths v.outside es)
          where
            finish :
                (others : Option (List ArtifactRecord)) (s : ArtifactRecord) (w : World R W O)
                → (later w).0 ≡ ok others
                → uploading r later v ≡ (ok (with_stored s others), (later w).1)
                → log w.outside ≡ log v.outside ++ r.relative_path ∷ []
                → log (uploading r later v).1.outside ≡ log v.outside ++ r.relative_path ∷ names
            finish none s w eo e a = absurd (none_not_ok stored _ (sym (ap (λ p. p.0) e)) h)
            finish (some os) s w eo e a =
                ap (λ p. log p.1.outside) e
                ∙ x.adds os w eo
                ∙ ap (λ t. t ++ names) a
                ∙ append_assoc (log v.outside) (r.relative_path ∷ []) names

    -- Every step probes first, and gives up when the build is canceled.
    probed-Uploads :
        (names : List String) (k : Act (World R W O) (Option (List ArtifactRecord)))
        → Uploads names k
        → Uploads names (probing >>= λ asked. if asked then giving_up else k)
    probed-Uploads names k x = record { adds = go }
      where
        f : Bool → Act (World R W O) (Option (List ArtifactRecord))
        f asked = if asked then giving_up else k

        branch :
            (b : Bool) (stored : List ArtifactRecord) (w : World R W O)
            → (f b w).0 ≡ ok (some stored)
            → log (f b w).1.outside ≡ log w.outside ++ names
        branch true stored w h = absurd (giving_up_none w stored h)
        branch false stored w h = x.adds stored w h

        go :
            (stored : List ArtifactRecord) (v : World R W O)
            → ((probing >>= f) v).0 ≡ ok (some stored)
            → log ((probing >>= f) v).1.outside ≡ log v.outside ++ names
        go stored v h =
            let (b, _, e) = bind_ok probing f v (some stored) h in
            ap (λ p. log p.1.outside) e
            ∙ branch b stored (probing v).1 (sym (ap (λ p. p.0) e) ∙ h)
            ∙ ap (λ t. t ++ names) (probe_log v)

    pub store_all-Uploads :
        (records : List ArtifactRecord)
        → Uploads
            (paths_of records)
            (store_all repository queue outside c m lease token result records)
    unfolding store_all paths_of
    store_all-Uploads [] = record { adds = λ stored v h. sym (append-nil (log v.outside)) }
    store_all-Uploads (r ∷ rest) =
        probed-Uploads _ _ (uploading-Uploads r (paths_of rest) _ (store_all-Uploads rest))
