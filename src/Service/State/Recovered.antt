-- ===== src/Service/State/Recovered.antt =====
-- One turn of the loop of `recover_expired_attempts` of state.py: its completion and what it writes.
use headless_blender_charact.Prelude.{
  Bool, List, Option, [], ap, arith, false, if◌then◌else◌, is_some, nat_eq, none, not, refl, some,
  string_eq, subst, sym, true, ℕ, ◌&&◌, ◌+◌, ◌<◌, ◌∙◌, ◌∷◌, ◌≡◌, ◌≤◌, ◌⊎◌,
}
use headless_blender_charact.Service.Models.Event.{check_outbox}
use headless_blender_charact.Service.Errors.{Code, Result, err, ok, ◌>>=◌}
use headless_blender_charact.Service.Contract.{Datetime, Environment}
use headless_blender_charact.Service.Dict.{insert, lookup}
use headless_blender_charact.Service.Models.Status.{AttemptStatus, BuildStatus, is_status}
use headless_blender_charact.Service.Models.Build.{BuildRecord, check_build}
use headless_blender_charact.Service.Models.Attempt.{AttemptRecord, check_attempt}
use headless_blender_charact.Service.State.Store.{
  Exec, Store, append_event, append_outbox, found, get_build, new_outbox, proceed, pure,
  write_attempt, write_build, ◌⨾◌,
}
use headless_blender_charact.Service.State.Completion.{AttemptCompletion, requeue_if}
use headless_blender_charact.Service.State.Recovery.{
  lost_completion, recover_build, recover_one, recover_plan,
}
use headless_blender_charact.Service.State.Verdicts.{Yields, Yields-pure, Yields-then, reading_inv}

-- The verdict on one attempt, given its build at that moment.
pub record IsLost (a : AttemptRecord) (build : BuildRecord) (c : AttemptCompletion) : Type 0 where
  pub same_attempt : c.attempt.attempt_id ≡ a.attempt_id
  pub same_build : c.build.build_id ≡ build.build_id
  pub closed :
      c.attempt.status
      ≡ (if is_some build.cancel_requested_at then AttemptStatus.canceled else AttemptStatus.lost)
  pub verdict :
      (is_status build.status BuildStatus.running ≡ false)
        × (c.build ≡ build)
        × (c.requeued ≡ false)
      ⊎ ((build.status ≡ BuildStatus.running)
          × (c.build.state_version ≡ build.state_version + 1)
          × ((is_some build.cancel_requested_at ≡ true)
                × (c.build.status ≡ BuildStatus.canceled)
                × (c.requeued ≡ false)
              ⊎ ((is_some build.cancel_requested_at ≡ false)
                  × ((a.attempt_number < build.max_attempts)
                        × (c.build.status ≡ BuildStatus.queued)
                        × (c.requeued ≡ true)
                      ⊎ ((build.max_attempts ≤ a.attempt_number)
                          × (c.build.status ≡ BuildStatus.failed)
                          × (c.requeued ≡ false)
                          × (c.exhausted ≡ true))))))

-- What is left in the store: the attempt, the build if it was running, a row for it if it is queued
-- again, which waits for the delay.
pub record Leaves (available_at : Datetime) (s : Store) (build : BuildRecord)
    (c : AttemptCompletion) (t : Store) : Type 0 where
  pub attempt : t.attempts ≡ insert c.attempt.attempt_id c.attempt s.attempts
  pub builds : t.builds ≡ (
      if is_status build.status BuildStatus.running
      then insert c.build.build_id c.build s.builds
      else s.builds)
  pub outbox : t.outbox ≡ (
      if c.requeued
      then insert s.next_outbox_id
          (new_outbox s.next_outbox_id c.build.build_id c.build.state_version available_at)
          s.outbox
      else s.outbox)

-- One turn for each attempt, in order, in the store that the turn before has left.
pub data AreLost (available_at : Datetime)
    : Store → List AttemptRecord → List AttemptCompletion → Store → Type 0 where
  done : (s : Store) → AreLost available_at s [] [] s
  lost_one :
      {s t u : Store} {a : AttemptRecord} {c : AttemptCompletion} {rest : List AttemptRecord}
      {others : List AttemptCompletion} (build : BuildRecord)
      → lookup a.build_id s.builds ≡ some build
      → IsLost a build c
      → Leaves available_at s build c t
      → AreLost available_at t rest others u
      → AreLost available_at s (a ∷ rest) (c ∷ others) u

pub record IsTurn (available_at : Datetime) (s : Store) (a : AttemptRecord) (c : AttemptCompletion)
    (t : Store) : Type 0 where
  pub build : BuildRecord
  pub has : lookup a.build_id s.builds ≡ some build
  pub lost : IsLost a build c
  pub leaves : Leaves available_at s build c t

module _ (env : Environment) (now : Datetime) where
  completion_parts :
      (a : AttemptRecord) (build : BuildRecord) (c : AttemptCompletion)
      → lost_completion env now a build ≡ ok c
      → IsLost a build c
  unfolding lost_completion check_attempt check_build
  completion_parts a build c h = record {
    same_attempt = ground arith;
    same_build = ground arith;
    closed = ground arith;
    verdict = ground arith;
  }

  -- The build moves if it was running, and only then it can be queued again.
  completion_moves :
      (a : AttemptRecord) (build : BuildRecord) (c : AttemptCompletion)
      → lost_completion env now a build ≡ ok c
      → (not (is_status c.build.status build.status) ≡ is_status build.status BuildStatus.running)
        × (c.requeued && is_status build.status BuildStatus.running ≡ c.requeued)
  unfolding lost_completion check_attempt check_build
  completion_moves a build c h = (ground arith, ground arith)

  -- The end of `recover_plan`.
  abbrev with_moved : BuildRecord → AttemptCompletion → Result (AttemptCompletion × Bool)
  with_moved build c = ok (c, not (is_status c.build.status build.status))

  completion_in :
      (build : BuildRecord) (r : Result AttemptCompletion) (c : AttemptCompletion) (moved : Bool)
      → (r >>= with_moved build) ≡ ok (c, moved)
      → (r ≡ ok c) × (moved ≡ not (is_status c.build.status build.status))
  completion_in build (ok d) c moved h = (ground arith, ground arith)
  completion_in build (err e) c moved h = cc

  -- What a turn has planned, for the build of the store.
  record IsPlanned (a : AttemptRecord) (o : Option BuildRecord) (c : AttemptCompletion)
      (moved : Bool) : Type 0 where
    pub build : BuildRecord
    pub has : o ≡ some build
    pub lost : IsLost a build c
    pub moves : moved ≡ is_status build.status BuildStatus.running
    pub queued : c.requeued && moved ≡ c.requeued

  IsPlanned-parts :
      (a : AttemptRecord) (o : Option BuildRecord) (c : AttemptCompletion) (moved : Bool)
      → (found o Code.build_not_found >>= λ build.
          lost_completion env now a build >>= with_moved build)
        ≡ ok (c, moved)
      → IsPlanned a o c moved
  IsPlanned-parts a none c moved h = cc
  IsPlanned-parts a (some build) c moved h =
      let (p, m) = completion_in build _ c moved h in
      let (n, k) = completion_moves a build c p in
      record {
        build = build;
        has = refl;
        lost = completion_parts a build c p;
        moves = m ∙ n;
        queued = rw (m, n) k;
      }

  abbrev commit : Datetime → AttemptCompletion → Bool → Exec AttemptCompletion
  commit available_at c moved =
      recover_build available_at (c, moved) ⨾ write_attempt c.attempt.attempt_id c.attempt ⨾ pure c

  returned :
      (available_at : Datetime) (c : AttemptCompletion) (moved : Bool)
      → Yields c (commit available_at c moved)
  returned available_at c moved =
      Yields-then (recover_build available_at (c, moved)) _ c
        (Yields-then (write_attempt c.attempt.attempt_id c.attempt) _ c (Yields-pure c))

  -- What a turn writes, if it returns.
  abbrev Writes : Datetime → Store → AttemptCompletion → Bool → Store → Type 0
  Writes available_at s c moved t =
      (t.attempts ≡ insert c.attempt.attempt_id c.attempt s.attempts)
      × (t.builds ≡ (if moved then insert c.build.build_id c.build s.builds else s.builds))
      × (t.outbox ≡ (
          if c.requeued && moved
          then insert s.next_outbox_id
              (new_outbox s.next_outbox_id c.build.build_id c.build.state_version available_at)
              s.outbox
          else s.outbox))

  committed :
      (available_at : Datetime) (s : Store) (c d : AttemptCompletion) (moved : Bool)
      → (commit available_at c moved s).0 ≡ ok d
      → Writes available_at s c moved (commit available_at c moved s).1
  unfolding recover_build write_attempt write_build append_event requeue_if append_outbox
      check_outbox
  committed available_at s c d false h = (ground arith, ground arith, ground arith)
  committed available_at s c d true h = (ground arith, ground arith, ground arith)

  turn_of :
      (available_at : Datetime) (s : Store) (a : AttemptRecord) (c : AttemptCompletion)
      (moved : Bool) (t : Store)
      → IsPlanned a (lookup a.build_id s.builds) c moved
      → Writes available_at s c moved t
      → IsTurn available_at s a c t
  turn_of available_at s a c moved t p (attempts, builds, outbox) = record {
    build = p.build;
    has = p.has;
    lost = p.lost;
    leaves = record {
      attempt = attempts;
      builds =
          subst (λ b. t.builds ≡ (if b then insert c.build.build_id c.build s.builds else s.builds))
            p.moves builds;
      outbox =
          subst
            (λ b. t.outbox ≡ (
              if b
              then insert s.next_outbox_id
                  (new_outbox s.next_outbox_id c.build.build_id c.build.state_version available_at)
                  s.outbox
              else s.outbox))
            p.queued outbox;
    };
  }

  pub recovered_one :
      (delay : ℕ) (a : AttemptRecord) (s : Store) (c : AttemptCompletion)
      → (recover_one env now delay a s).0 ≡ ok c
      → IsTurn (now + delay) s a c (recover_one env now delay a s).1
  unfolding recover_one recover_plan get_build
  recovered_one delay a s c h =
      let act : AttemptCompletion × Bool → Exec AttemptCompletion =
        λ r. commit (now + delay) r.0 r.1 in
      let ((x, moved), q, e) = reading_inv (recover_plan env now a) act s c h in
      let own : x ≡ c = sym ((returned (now + delay) x moved).value s c e) in
      let turn : IsTurn (now + delay) s a x (commit (now + delay) x moved s).1 =
        turn_of (now + delay) s a x moved (commit (now + delay) x moved s).1
          (IsPlanned-parts a (lookup a.build_id s.builds) x moved q)
          (committed (now + delay) s x c moved e) in
      subst (λ y. IsTurn (now + delay) s a y (recover_one env now delay a s).1) own
        (subst (λ t. IsTurn (now + delay) s a x t) (sym (ap (λ z. (proceed z act s).1) q)) turn)
