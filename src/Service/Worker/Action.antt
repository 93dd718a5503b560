-- ===== src/Service/Worker/Action.antt =====
-- What the supervisor of worker.py runs over: a repository, a queue, everything outside, and the two
-- flags of its heartbeat monitor. A call returns or raises, and leaves a world behind either way.
use headless_blender_charact.Prelude.{Bool}
use headless_blender_charact.Service.Errors.{Error, Result, err, ok}

pub record World (R W O : Type 0) : Type 0 where
  pub repository : R
  pub queue : W
  -- the launcher, the object store, the heartbeat thread's schedule, the source of tokens
  pub outside : O
  -- `_LeaseMonitor._lost` and `_LeaseMonitor._cancel`
  pub lost : Bool
  pub cancel : Bool

abbrev pub Act : Type 0 → Type 0 → Type 0
Act V A = V → Result A × V

abbrev pub carry : {V A B : Type 0} → Result A → (A → Act V B) → Act V B
carry (ok a) f v = f a v
carry (err e) f v = (err e, v)

infixl 5 ◌>>=◌ ◌>>◌
abbrev pub ◌>>=◌ : {V A B : Type 0} → Act V A → (A → Act V B) → Act V B
◌>>=◌ m f v = carry (m v).0 f (m v).1

abbrev pub ◌>>◌ : {V B : Type 0} → Act V (Unit {0}) → Act V B → Act V B
◌>>◌ m k v = carry (m v).0 (λ _. k) (m v).1

abbrev pub returns : {V A : Type 0} → A → Act V A
returns a v = (ok a, v)

abbrev pub raises : {V A : Type 0} → Error → Act V A
raises e v = (err e, v)

-- `try: m`, and its `except`, `else` and `finally` clauses as one function of how `m` ended.
abbrev pub after_try : {V A B : Type 0} → Act V A → (Result A → Act V B) → Act V B
after_try m f v = f (m v).0 (m v).1

module _ {R W O : Type 0} where
  -- A call of the repository, of the queue, and of something outside.
  abbrev pub on_repository : {A : Type 0} → Act R A → Act (World R W O) A
  on_repository m v = let (r, t) = m v.repository in (r, record v { repository = t })

  abbrev pub on_queue : {A : Type 0} → Act W A → Act (World R W O) A
  on_queue m v = let (r, t) = m v.queue in (r, record v { queue = t })

  abbrev pub on_outside : {A : Type 0} → Act O A → Act (World R W O) A
  on_outside m v = let (r, t) = m v.outside in (r, record v { outside = t })
