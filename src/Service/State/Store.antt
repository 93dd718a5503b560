-- ===== src/Service/State/Store.antt =====
-- state.py: the tables of `InMemoryStateStore`, its constructor, and the steps that its methods
-- share. A method is a function from the store to a result and the store left behind, also when it
-- raises. The lock makes a method one step. Clock readings and fresh identifiers are arguments.
use headless_blender_charact.Prelude.{
  Bool, List, Option, String, [], any, between, if◌then◌else◌, keep, leb, length, min, nat_eq, none,
  not, some, sort_by, string_eq, ℕ, ◌&&◌, ◌++◌, ◌+◌, ◌==◌, ◌||◌, ◌∷◌,
}
use headless_blender_charact.Service.Errors.{
  Code, Result, conflict, err, key_error, ok, raise_if, ◌>>◌,
}
use headless_blender_charact.Service.Patterns.{
  bucket_pattern, codes, has_dot_dot, lease_token_pattern, namespace_pattern,
}
use headless_blender_charact.Service.Contract.{Bytes, Datetime, Environment, Uuid, list_eq, seconds}
use headless_blender_charact.Service.Dict.{Dict, insert, lookup, member, values}
use headless_blender_charact.Service.Models.Build.{BuildRecord}
use headless_blender_charact.Service.Models.Attempt.{AttemptRecord}
use headless_blender_charact.Service.Models.Artifact.{ArtifactRecord}
use headless_blender_charact.Service.Models.Event.{
  BuildEvent, OutboxRecord, check_event, check_outbox, max_dispatch_count,
}

pub record Store : Type 0 where
  pub builds : Dict Uuid BuildRecord
  -- digest of a key ↦ digest of the request, the request, its build
  pub idempotency : Dict String (String × Bytes × Uuid)
  pub events : Dict Uuid (List BuildEvent)
  pub artifacts : Dict Uuid (Dict String ArtifactRecord)
  pub attempts : Dict Uuid AttemptRecord
  pub outbox : Dict ℕ OutboxRecord
  pub next_outbox_id : ℕ

-- The arguments of the constructor.
pub record Settings : Type 0 where
  pub idempotency_secret : Bytes
  pub max_attempts : ℕ
  pub deployment_namespace : String
  pub storage_bucket : String

unfoldable pub empty_store : Store
empty_store = record {
  builds = [];
  idempotency = [];
  events = [];
  artifacts = [];
  attempts = [];
  outbox = [];
  next_outbox_id = 1;
}

-- `InMemoryStateStore.__init__`
unfoldable pub open_store : Settings → Result Store
unfolding empty_store
open_store c = do
  raise_if (not (between 32 128 (length c.idempotency_secret)))
      (conflict Code.invalid_idempotency_secret)
  raise_if (not (between 1 5 c.max_attempts)) (conflict Code.invalid_max_attempts)
  raise_if (not (namespace_pattern c.deployment_namespace)) (conflict Code.invalid_namespace)
  raise_if (not (bucket_pattern c.storage_bucket) || has_dot_dot (codes c.storage_bucket))
      (conflict Code.invalid_bucket)
  ok empty_store

abbrev pub Exec : Type 0 → Type 0
Exec A = Store → Result A × Store

abbrev pub proceed : {A B : Type 0} → Result A → (A → Exec B) → Exec B
proceed (ok a) f s = f a s
proceed (err e) f s = (err e, s)

-- A method reads the store and may raise; only then it writes.
abbrev pub reading : {P A : Type 0} → (Store → Result P) → (P → Exec A) → Exec A
reading plan commit s = proceed (plan s) commit s

-- One write, then the rest, unless the write raised.
infixr 4 ◌⨾◌
abbrev pub ◌⨾◌ : {A : Type 0} → Exec (Unit {0}) → Exec A → Exec A
◌⨾◌ m k s = proceed (m s).0 (λ _. k) (m s).1

abbrev pub pure : {A : Type 0} → A → Exec A
pure a s = (ok a, s)

abbrev pub found : {A : Type 0} → Option A → Code → Result A
found none c = err (conflict c)
found (some a) c = ok a

unfoldable pub get_build : Uuid → Store → Result BuildRecord
get_build build_id s = found (lookup build_id s.builds) Code.build_not_found

unfoldable pub attempt_for : Uuid → Store → Result AttemptRecord
attempt_for attempt_id s = found (lookup attempt_id s.attempts) Code.attempt_not_found

unfoldable pub events_for : Uuid → Store → Result (List BuildEvent)
events_for build_id s = found (lookup build_id s.events) Code.build_not_found

-- `self._artifacts.get(build_id, {})`
abbrev artifacts_or_none : Option (Dict String ArtifactRecord) → Dict String ArtifactRecord
artifacts_or_none none = []
artifacts_or_none (some d) = d

unfoldable pub artifacts_for : Uuid → Store → Result (Dict String ArtifactRecord)
artifacts_for build_id s = do
  raise_if (not (member build_id s.builds)) (conflict Code.build_not_found)
  ok (artifacts_or_none (lookup build_id s.artifacts))

-- The attempts of a build, in the order of the table.
unfoldable pub attempts_of : Uuid → Store → List AttemptRecord
attempts_of build_id s = keep (λ a. a.build_id == build_id) (values s.attempts)

unfoldable pub attempts_for : Uuid → Store → Result (List AttemptRecord)
unfolding attempts_of
attempts_for build_id s = do
  raise_if (not (member build_id s.builds)) (conflict Code.build_not_found)
  ok (sort_by (λ a b. leb a.attempt_number b.attempt_number) (attempts_of build_id s))

-- `self._builds[build_id] = build`
unfoldable pub write_build : Uuid → BuildRecord → Exec (Unit {0})
write_build build_id build s = (ok tt, record s { builds = insert build_id build s.builds })

-- `self._attempts[attempt_id] = attempt`
unfoldable pub write_attempt : Uuid → AttemptRecord → Exec (Unit {0})
write_attempt attempt_id a s = (ok tt, record s { attempts = insert attempt_id a s.attempts })

add_event : Uuid → List BuildEvent → Result BuildEvent → Exec (Unit {0})
add_event build_id log (err e) s = (err e, s)
add_event build_id log (ok e) s =
    (ok tt, record s { events = insert build_id (log ++ e ∷ []) s.events })

extend_log : Uuid → (ℕ → BuildEvent) → Option (List BuildEvent) → Exec (Unit {0})
unfolding add_event
extend_log build_id event none s = (err key_error, s)
extend_log build_id event (some log) s =
    add_event build_id log (check_event (event (length log + 1))) s

-- `self._events[build_id].append(BuildEvent(…, sequence=len(self._events[build_id]) + 1, …))`
unfoldable pub append_event : Uuid → (ℕ → BuildEvent) → Exec (Unit {0})
unfolding extend_log
append_event build_id event s = extend_log build_id event (lookup build_id s.events) s

-- The record that `_append_outbox` makes.
abbrev pub new_outbox : ℕ → Uuid → ℕ → Datetime → OutboxRecord
new_outbox outbox_id build_id build_version available_at = record {
  outbox_id = outbox_id;
  build_id = build_id;
  build_version = build_version;
  available_at = available_at;
  dispatched_at = none;
  dispatch_count = 0;
  last_error_code = none;
}

-- A row is for a given version of a given build.
abbrev pub is_row_for : Uuid → ℕ → OutboxRecord → Bool
is_row_for build_id build_version r = r.build_id == build_id && r.build_version == build_version

-- The identifier is used up before the record is made, so also if that raises.
put_outbox : ℕ → Result OutboxRecord → Exec (Unit {0})
put_outbox outbox_id (err e) s = (err e, record s { next_outbox_id = outbox_id + 1 })
put_outbox outbox_id (ok row) s =
    (ok tt, record s { outbox = insert outbox_id row s.outbox; next_outbox_id = outbox_id + 1 })

-- `_append_outbox`
unfoldable pub append_outbox : Uuid → ℕ → Datetime → Exec (Unit {0})
unfolding put_outbox
append_outbox build_id build_version now s =
    if any (is_row_for build_id build_version) (values s.outbox)
    then (err (conflict Code.duplicate_outbox), s)
    else put_outbox s.next_outbox_id
        (check_outbox (new_outbox s.next_outbox_id build_id build_version now)) s

-- `_require_version`
unfoldable pub require_version : BuildRecord → ℕ → Result (Unit {0})
require_version build expected =
    raise_if (not (expected == build.state_version)) (conflict Code.stale_state_version)

-- `_lease_digest`
unfoldable pub lease_digest : Environment → String → Result String
lease_digest env token = do
  raise_if (not (lease_token_pattern token)) (conflict Code.invalid_lease_token)
  ok (env.sha256_hex (codes token))

-- `_lease_duration`
unfoldable pub lease_duration : ℕ → Result ℕ
lease_duration n = do
  raise_if (not (between 5 300 n)) (conflict Code.invalid_lease_duration)
  ok (seconds n)

-- `_retry_delay`
unfoldable pub retry_delay : ℕ → Result ℕ
retry_delay n = do raise_if (not (leb n 300)) (conflict Code.invalid_retry_delay); ok (seconds n)

-- `_next_dispatch_count`
unfoldable pub next_dispatch_count : ℕ → ℕ
next_dispatch_count n = min (n + 1) max_dispatch_count
