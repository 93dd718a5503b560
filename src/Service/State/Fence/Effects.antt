-- ===== src/Service/State/Fence/Effects.antt =====
-- Which steps of state.py leave the attempts alone.
use headless_blender_charact.Prelude.{
  Bool, List, [], any, arith, count, false, keep, nat_eq, refl, string_eq, true, ℕ, ◌&&◌, ◌==◌, ◌∙◌,
  ◌∷◌, ◌≡◌,
}
use headless_blender_charact.Service.Errors.{Result, err, ok}
use headless_blender_charact.Service.Contract.{Datetime, Uuid, list_eq}
use headless_blender_charact.Service.Models.Status.{is_active}
use headless_blender_charact.Service.Models.Build.{BuildRecord}
use headless_blender_charact.Service.Models.Attempt.{AttemptRecord}
use headless_blender_charact.Service.Models.Event.{BuildEvent, check_event, check_outbox}
use headless_blender_charact.Service.State.Store.{
  Exec, Store, append_event, append_outbox, proceed, pure, reading, write_build, ◌⨾◌,
}
use headless_blender_charact.Service.State.Completion.{requeue_if}

pub record KeepsAttempts {A : Type 0} (k : Exec A) : Type 0 where
  pub at : (s : Store) → (k s).1.attempts ≡ s.attempts

pub KeepsAttempts-pure : {A : Type 0} (a : A) → KeepsAttempts (pure a)
KeepsAttempts-pure a = record { at = λ s. refl }

pub KeepsAttempts-then :
    {A : Type 0} (m : Exec (Unit {0})) (k : Exec A)
    → KeepsAttempts m
    → KeepsAttempts k
    → KeepsAttempts (m ⨾ k)
KeepsAttempts-then {A} m k hm hk = record { at = λ s. go (m s).0 s }
  where
    go :
        (r : Result (Unit {0})) (s : Store)
        → (proceed {B = A} r (λ _. k) (m s).1).1.attempts ≡ s.attempts
    go (ok _) s = hk.at (m s).1 ∙ hm.at s
    go (err _) s = hm.at s

pub KeepsAttempts-write_build : (b : Uuid) (r : BuildRecord) → KeepsAttempts (write_build b r)
unfolding write_build
KeepsAttempts-write_build b r = record { at = λ s. refl }

pub KeepsAttempts-append_event :
    (b : Uuid) (make : ℕ → BuildEvent) → KeepsAttempts (append_event b make)
unfolding append_event check_event
KeepsAttempts-append_event b make = record { at = λ s. ground arith }

pub KeepsAttempts-append_outbox :
    (b : Uuid) (v : ℕ) (now : Datetime) → KeepsAttempts (append_outbox b v now)
unfolding append_outbox check_outbox
KeepsAttempts-append_outbox b v now = record { at = λ s. ground arith }

pub KeepsAttempts-requeue_if :
    (t : Bool) (b : Uuid) (v : ℕ) (now : Datetime) → KeepsAttempts (requeue_if t b v now)
unfolding requeue_if
KeepsAttempts-requeue_if false b v now = KeepsAttempts-pure tt
KeepsAttempts-requeue_if true b v now = KeepsAttempts-append_outbox b v now

-- A build, its event, and a tail.
pub KeepsAttempts-advance :
    {A : Type 0} (b c : Uuid) (r : BuildRecord) (make : ℕ → BuildEvent) (k : Exec A)
    → KeepsAttempts k
    → KeepsAttempts (write_build b r ⨾ append_event c make ⨾ k)
KeepsAttempts-advance b c r make k h =
    KeepsAttempts-then (write_build b r) (append_event c make ⨾ k) (KeepsAttempts-write_build b r)
      (KeepsAttempts-then (append_event c make) k (KeepsAttempts-append_event c make) h)

-- No attempt of a list passes a test that none of it passes.
pub count-any :
    (p : AttemptRecord → Bool) (xs : List AttemptRecord) → any p xs ≡ false → count p xs ≡ 0
count-any p [] h = refl
count-any p (x ∷ xs) h = ground (arith, count-any p xs)

-- Looking among the attempts of a build is looking for a live attempt of it.
pub count-kept :
    (b : Uuid) (xs : List AttemptRecord)
    → any (λ a. is_active a.status) (keep (λ a. a.build_id == b) xs) ≡ false
    → count (λ a. a.build_id == b && is_active a.status) xs ≡ 0
count-kept b [] h = refl
count-kept b (x ∷ xs) h = ground (arith, count-kept b xs)

-- What holds of the store before and after each outcome holds after a method that reads and then
-- writes.
pub reading_rule {ℓ} :
    {P A : Type 0} (R : Store → Type ℓ) (plan : Store → Result P) (commit : P → Exec A) (s : Store)
    → R s
    → ((p : P) → plan s ≡ ok p → R (commit p s).1)
    → R (reading plan commit s).1
reading_rule {P} {A} R plan commit s base h = go (plan s) h
  where
    go : (r : Result P) → ((p : P) → r ≡ ok p → R (commit p s).1) → R (proceed r commit s).1
    go (ok p) h = h p refl
    go (err e) h = base
