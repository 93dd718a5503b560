-- ===== src/Service/State/Moves/Effects.antt =====
-- What the writes of state.py do to the builds and the event logs, for the proofs about its methods.
use headless_blender_charact.Prelude.{
  Bool, List, String, [], ap, arith, false, length, nat_eq, none, refl, some, string_eq, true, ℕ,
  ◌++◌, ◌+◌, ◌<◌, ◌∙◌, ◌∷◌, ◌≡◌,
}
use headless_blender_charact.Service.Errors.{Result, err, ok}
use headless_blender_charact.Service.Patterns.{safe_code_pattern}
use headless_blender_charact.Service.Contract.{Datetime, Uuid}
use headless_blender_charact.Service.Dict.{insert, lookup}
use headless_blender_charact.Service.Models.Status.{
  BuildStatus, require_safe_code, status_value, status_value_safe,
}
use headless_blender_charact.Service.Models.Build.{BuildRecord}
use headless_blender_charact.Service.Models.Attempt.{AttemptRecord}
use headless_blender_charact.Service.Models.Event.{
  BuildEvent, check_event, check_outbox, event_post_init,
}
use headless_blender_charact.Service.State.Store.{
  Exec, Store, append_event, append_outbox, proceed, pure, reading, write_attempt, write_build, ◌⨾◌,
}
use headless_blender_charact.Service.State.Completion.{completion_type, operator_reason, requeue_if}
use headless_blender_charact.Service.State.Moves.{IsMove, Moves, moves, opens, stays}

-- An action that leaves the builds and their logs alone.
pub record KeepsTables {A : Type 0} (k : Exec A) : Type 0 where
  pub builds : (s : Store) → (k s).1.builds ≡ s.builds
  pub events : (s : Store) → (k s).1.events ≡ s.events

pub KeepsTables-pure : {A : Type 0} (a : A) → KeepsTables (pure a)
KeepsTables-pure a = record { builds = λ s. refl; events = λ s. refl }

pub append_outbox_builds :
    (b : Uuid) (v : ℕ) (now : Datetime) (s : Store) → (append_outbox b v now s).1.builds ≡ s.builds
unfolding append_outbox check_outbox
append_outbox_builds b v now s = ground arith

pub append_outbox_events :
    (b : Uuid) (v : ℕ) (now : Datetime) (s : Store) → (append_outbox b v now s).1.events ≡ s.events
unfolding append_outbox check_outbox
append_outbox_events b v now s = ground arith

pub append_outbox_attempts :
    (b : Uuid) (v : ℕ) (now : Datetime) (s : Store)
    → (append_outbox b v now s).1.attempts ≡ s.attempts
unfolding append_outbox check_outbox
append_outbox_attempts b v now s = ground arith

pub KeepsTables-append_outbox :
    (b : Uuid) (v : ℕ) (now : Datetime) → KeepsTables (append_outbox b v now)
KeepsTables-append_outbox b v now = record {
  builds = append_outbox_builds b v now;
  events = append_outbox_events b v now;
}

pub KeepsTables-requeue_if :
    (t : Bool) (b : Uuid) (v : ℕ) (now : Datetime) → KeepsTables (requeue_if t b v now)
unfolding requeue_if
KeepsTables-requeue_if false b v now = KeepsTables-pure tt
KeepsTables-requeue_if true b v now = KeepsTables-append_outbox b v now

-- A last value changes nothing.
pub then_pure :
    {A : Type 0} (m : Exec (Unit {0})) (a : A) (s : Store) → ((m ⨾ pure a) s).1 ≡ (m s).1
then_pure {A} m a s = go (m s).0
  where
    go : (r : Result (Unit {0})) → (proceed {B = A} r (λ _. pure a) (m s).1).1 ≡ (m s).1
    go (ok _) = refl
    go (err _) = refl

pub KeepsTables-then_pure :
    {A : Type 0} (m : Exec (Unit {0})) (a : A) → KeepsTables m → KeepsTables (m ⨾ pure a)
KeepsTables-then_pure m a h = record {
  builds = λ s. ap (λ t. t.builds) (then_pure m a s) ∙ h.builds s;
  events = λ s. ap (λ t. t.events) (then_pure m a s) ∙ h.events s;
}

pub KeepsTables-then :
    {A : Type 0} (m : Exec (Unit {0})) (k : Exec A)
    → KeepsTables m
    → KeepsTables k
    → KeepsTables (m ⨾ k)
KeepsTables-then {A} m k hm hk = record {
  builds = λ s. go_builds (m s).0 s;
  events = λ s. go_events (m s).0 s;
}
  where
    go_builds :
        (r : Result (Unit {0})) (s : Store)
        → (proceed {B = A} r (λ _. k) (m s).1).1.builds ≡ s.builds
    go_builds (ok _) s = hk.builds (m s).1 ∙ hm.builds s
    go_builds (err _) s = hm.builds s

    go_events :
        (r : Result (Unit {0})) (s : Store)
        → (proceed {B = A} r (λ _. k) (m s).1).1.events ≡ s.events
    go_events (ok _) s = hk.events (m s).1 ∙ hm.events s
    go_events (err _) s = hm.events s

-- A good event is appended.
pub append_event_run :
    (b : Uuid) (make : ℕ → BuildEvent) (log : List BuildEvent) (s : Store)
    → lookup b s.events ≡ some log
    → event_post_init (make (length log + 1)) ≡ ok tt
    → append_event b make s
      ≡ (ok tt, record s { events = insert b (log ++ make (length log + 1) ∷ []) s.events })
unfolding append_event check_event
append_event_run b make log s h k = ground arith

pub event_post_init_ok :
    (e : BuildEvent)
    → 0 < e.sequence
    → require_safe_code true (some e.event_type) ≡ ok tt
    → require_safe_code false e.reason_code ≡ ok tt
    → event_post_init e ≡ ok tt
unfolding event_post_init
event_post_init_ok e p q r = ground arith

-- An event type that the program spells out, and the absence of a reason, pass.
abbrev IsSafeType : String → Type 0
IsSafeType t = require_safe_code true (some t) ≡ ok tt

pub event_types_safe :
    IsSafeType "attempt_started"
    × IsSafeType "retry_queued"
    × IsSafeType "canceled"
    × IsSafeType "cancel_requested"
    × IsSafeType "succeeded"
unfolding require_safe_code safe_code_pattern
event_types_safe = (refl, refl, refl, refl, refl)

pub status_type_safe : (b : BuildStatus) → IsSafeType (status_value b)
unfolding require_safe_code
status_type_safe b = rw (status_value_safe b)

pub completion_type_safe : (t : Bool) (b : BuildStatus) → IsSafeType (completion_type t b)
completion_type_safe true b = event_types_safe.1
completion_type_safe false b = status_type_safe b

pub operator_reason_safe : safe_code_pattern operator_reason ≡ true
unfolding safe_code_pattern
operator_reason_safe = refl

pub operator_reason_passes : require_safe_code false (some operator_reason) ≡ ok tt
unfolding require_safe_code safe_code_pattern
operator_reason_passes = refl

pub no_reason : Unit {0} → require_safe_code false none ≡ ok tt
unfolding require_safe_code
no_reason _ = refl

-- Only the builds and the logs of the first store count.
pub Moves-frame :
    {s t u : Store} → t.builds ≡ s.builds → t.events ≡ s.events → Moves t u → Moves s u
Moves-frame p q (stays x y) = stays (x ∙ p) (y ∙ q)
Moves-frame p q (opens b r now new made x y) =
    opens b r now (rw p at new) made (rw p at x) (rw q at y)
Moves-frame p q (moves b r r' log e was had m x y) =
    moves b r r' log e (rw p at was) (rw q at had) m (rw p at x) (rw q at y)

-- The write of a build and of its event, whatever follows.
pub advance-Moves :
    {A : Type 0} (k : Exec A) (b : Uuid) (r r' : BuildRecord) (log : List BuildEvent)
    (make : ℕ → BuildEvent) (s : Store)
    → lookup b s.builds ≡ some r
    → lookup b s.events ≡ some log
    → event_post_init (make (length log + 1)) ≡ ok tt
    → IsMove r r' log (make (length log + 1))
    → KeepsTables k
    → Moves s ((write_build b r' ⨾ append_event b make ⨾ k) s).1
unfolding write_build
advance-Moves k b r r' log make s was had good m keeps =
    rw (append_event_run b make log (record s { builds = insert b r' s.builds }) had good)
      (moves b r r' log (make (length log + 1)) was had m (keeps.builds _) (keeps.events _))

-- A method that reads and then writes.
pub reading-Moves :
    {P A : Type 0} (plan : Store → Result P) (commit : P → Exec A) (s : Store)
    → ((p : P) → plan s ≡ ok p → Moves s (commit p s).1)
    → Moves s (reading plan commit s).1
reading-Moves {P} {A} plan commit s h = go (plan s) h
  where
    go :
        (r : Result P)
        → ((p : P) → r ≡ ok p → Moves s (commit p s).1)
        → Moves s (proceed r commit s).1
    go (ok p) h = h p refl
    go (err e) h = stays refl refl

-- And only those of the last one.
pub Moves-to : {s t u : Store} → u.builds ≡ t.builds → u.events ≡ t.events → Moves s t → Moves s u
Moves-to p q (stays x y) = stays (p ∙ x) (q ∙ y)
Moves-to p q (opens b r now new made x y) = opens b r now new made (p ∙ x) (q ∙ y)
Moves-to p q (moves b r r' log e was had m x y) = moves b r r' log e was had m (p ∙ x) (q ∙ y)

-- A tail that leaves the tables alone.
pub Moves-then :
    {A : Type 0} (m : Exec (Unit {0})) (k : Exec A) (s : Store)
    → KeepsTables k
    → Moves s (m s).1
    → Moves s ((m ⨾ k) s).1
Moves-then {A} m k s keeps h = go (m s).0
  where
    go : (r : Result (Unit {0})) → Moves s (proceed {B = A} r (λ _. k) (m s).1).1
    go (ok _) = Moves-to (keeps.builds (m s).1) (keeps.events (m s).1) h
    go (err _) = h

pub KeepsTables-write_attempt : (i : Uuid) (a : AttemptRecord) → KeepsTables (write_attempt i a)
unfolding write_attempt
KeepsTables-write_attempt i a = record { builds = λ s. refl; events = λ s. refl }
