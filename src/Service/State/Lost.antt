-- ===== src/Service/State/Lost.antt =====
-- What `recover_expired_attempts` of state.py does with the attempts whose lease has expired.
use headless_blender_charact.Prelude.{List, [], arith, refl, subst, ℕ, ◌+◌, ◌∷◌, ◌≡◌}
use headless_blender_charact.Service.Errors.{Result, err, ok}
use headless_blender_charact.Service.Contract.{Datetime, Environment, seconds}
use headless_blender_charact.Service.Models.Attempt.{AttemptRecord}
use headless_blender_charact.Service.State.Store.{Store, proceed, pure, retry_delay}
use headless_blender_charact.Service.State.Completion.{AttemptCompletion}
use headless_blender_charact.Service.State.Recovery.{
  adding, expired_attempts, recover_all, recover_expired_attempts, recover_one, recovery_arguments,
}
use headless_blender_charact.Service.State.Recovered.{AreLost, IsTurn, recovered_one}

module _ (env : Environment) (now : Datetime) where
  recovered_all :
      (delay : ℕ) (rows : List AttemptRecord) (s : Store) (cs : List AttemptCompletion)
      → (recover_all env now delay rows s).0 ≡ ok cs
      → AreLost (now + delay) s rows cs (recover_all env now delay rows s).1
  unfolding recover_all
  recovered_all delay [] s cs h =
      subst (λ ds. AreLost (now + delay) s [] ds s) (ok_ok h) (AreLost.done s)
    where
      ok_ok : ok [] ≡ ok cs → [] ≡ cs
      ok_ok p = ground arith
  recovered_all delay (a ∷ rest) s cs h =
      head (recover_one env now delay a s).0 (recover_one env now delay a s).1
        (recovered_one env now delay a s) (recovered_all delay rest) h
    where
      tail :
          (c : AttemptCompletion) (t : Store)
          → IsTurn (now + delay) s a c t
          → (r : Result (List AttemptCompletion)) (u : Store)
          → ((others : List AttemptCompletion)
              → r ≡ ok others
              → AreLost (now + delay) t rest others u)
          → (proceed r (λ others. pure (c ∷ others)) u).0 ≡ ok cs
          → AreLost (now + delay) s (a ∷ rest) cs (proceed r (λ others. pure (c ∷ others)) u).1
      tail c t v (err e) u l h = cc
      tail c t v (ok others) u l h =
          let own : c ∷ others ≡ cs = ground arith in
          subst (λ ds. AreLost (now + delay) s (a ∷ rest) ds u) own
            (AreLost.lost_one v.build v.has v.lost v.leaves (l others refl))

      head :
          (r : Result AttemptCompletion) (t : Store)
          → ((c : AttemptCompletion) → r ≡ ok c → IsTurn (now + delay) s a c t)
          → ((t : Store) (others : List AttemptCompletion)
              → (recover_all env now delay rest t).0 ≡ ok others
              → AreLost (now + delay) t rest others (recover_all env now delay rest t).1)
          → (proceed r (λ c. adding c (recover_all env now delay rest)) t).0 ≡ ok cs
          → AreLost
              (now + delay)
              s
              (a ∷ rest)
              cs
              (proceed r (λ c. adding c (recover_all env now delay rest)) t).1
      head (err e) t one l h = cc
      head (ok c) t one l h =
          tail c t (one c refl) (recover_all env now delay rest t).0
            (recover_all env now delay rest t).1 (l t) h

  -- A recovery that returns has one turn for each attempt whose lease has expired, the first to
  -- expire first and up to the limit, each in the store that the turn before has left. The attempt is
  -- closed in the store, as CANCELED if the store's build of that attempt has a request for
  -- cancellation, and else as LOST. If that build has left RUNNING, it stays as it is. Otherwise its
  -- next version is written: CANCELED if that was requested, and else QUEUED with one new row in the
  -- outbox, available after the delay, or FAILED after its last attempt.
  pub recover_expired_attempts-AreLost :
      (delay_seconds limit : ℕ) (s : Store) (cs : List AttemptCompletion)
      → (recover_expired_attempts env now delay_seconds limit s).0 ≡ ok cs
      → AreLost
          (now + seconds delay_seconds)
          s
          (expired_attempts now limit s)
          cs
          (recover_expired_attempts env now delay_seconds limit s).1
  unfolding recover_expired_attempts recovery_arguments retry_delay
  recover_expired_attempts-AreLost delay_seconds limit s cs h =
      go (recovery_arguments delay_seconds limit) (λ delay e. ground arith) h
    where
      go :
          (r : Result ℕ)
          → ((delay : ℕ) → r ≡ ok delay → delay ≡ seconds delay_seconds)
          → (proceed r (λ delay. recover_all env now delay (expired_attempts now limit s)) s).0
            ≡ ok cs
          → AreLost
              (now + seconds delay_seconds)
              s
              (expired_attempts now limit s)
              cs
              (proceed r (λ delay. recover_all env now delay (expired_attempts now limit s)) s).1
      go (ok delay) delayed h =
          subst
            (λ n.
              AreLost (now + n) s (expired_attempts now limit s) cs
                (recover_all env now delay (expired_attempts now limit s) s).1)
            (delayed delay refl) (recovered_all delay (expired_attempts now limit s) s cs h)
      go (err e) delayed h = cc
