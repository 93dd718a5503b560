-- ===== src/Service/State/Lifecycle.antt =====
-- What a caller of state.py can rely on over any number of calls: terminal builds are final,
-- a request never changes, versions only grow, and event logs are only appended to.
use headless_blender_charact.Prelude.{
  Bool-cases, List, String, [], ap, append-nil, append_assoc, arith, false, inl, inr, nat_eq,
  nat_eqb, nat_eqb_iff, some, some-injective, string_eq, subst, sym, true, ◌++◌, ◌==◌, ◌∙◌, ◌∷◌,
  ◌≡◌, ◌≤◌,
}
use headless_blender_charact.Service.State.Audit.{IsAudited}
use headless_blender_charact.Service.Errors.{Result}
use headless_blender_charact.Service.Contract.{Environment, Uuid, list_eq}
use headless_blender_charact.Service.Dict.{Dict, insert, lookup, lookup-insert}
use headless_blender_charact.Service.Models.Status.{BuildStatus, is_terminal}
use headless_blender_charact.Service.Models.Build.{BuildRecord}
use headless_blender_charact.Service.Models.Event.{BuildEvent}
use headless_blender_charact.Service.State.Store.{Settings, Store, empty_store}
use headless_blender_charact.Service.State.Moves.{
  IsMove, Moves, Runs, SameRequest, edge, here, moves, next, opens, stays,
}
use headless_blender_charact.Service.State.Machine.{
  Call, perform_all, perform_all-IsAudited, perform_all-Runs,
}

-- No edge leaves a terminal status.
terminal_final : (a b : BuildStatus) → is_terminal a ≡ true → edge a b ≡ true → ⊥
unfolding edge
terminal_final a b h k = ground arith

-- The record of another build, or a new build, is not touched.
lookup-other :
    (b c : Uuid) (r r' : BuildRecord) (d : Dict Uuid BuildRecord)
    → (b == c) ≡ false
    → lookup c d ≡ some r
    → lookup c (insert b r' d) ≡ some r
lookup-other b c r r' d e h = rw (lookup-insert b c r' d, e) h

Moves-terminal :
    {s t : Store} (c : Uuid) (r : BuildRecord)
    → is_terminal r.status ≡ true
    → Moves s t
    → lookup c s.builds ≡ some r
    → lookup c t.builds ≡ some r
Moves-terminal c r f (stays p q) h = rw p h
Moves-terminal {s = s} c r f (opens b n now new made p q) h =
    rw p (ground (arith, lookup-insert b c n s.builds, nat_eqb_iff b c))
Moves-terminal {s = s} c r f (moves b x x' log e was had m p q) h =
    rw p (elim (Bool-cases (nat_eqb b c)) [
      | inl same ↦
          let key : b ≡ c = (nat_eqb_iff b c).0 same in
          let own : x ≡ r = some-injective x r (sym was ∙ ap (λ k. lookup k s.builds) key ∙ h) in
          absurd (
            terminal_final r.status x'.status f
              (subst (λ y. edge y.status x'.status ≡ true) own m.on_edge))
      | inr other ↦ lookup-other b c r x' s.builds other h
    ])

pub Runs-terminal :
    {s t : Store} (c : Uuid) (r : BuildRecord)
    → is_terminal r.status ≡ true
    → Runs s t
    → lookup c s.builds ≡ some r
    → lookup c t.builds ≡ some r
Runs-terminal c r f here h = h
Runs-terminal c r f (next q m) h = Moves-terminal c r f m (Runs-terminal c r f q h)

-- What a later store has of a build: the same request, a version that is no lower, and a log that
-- begins with the earlier one.
pub record Continues (c : Uuid) (r : BuildRecord) (log : List BuildEvent) (t : Store) : Type 0 where
  pub record_after : BuildRecord
  pub log_after : List BuildEvent
  pub found_after : lookup c t.builds ≡ some record_after
  pub events_after : lookup c t.events ≡ some log_after
  pub same : SameRequest r record_after
  pub version_le : r.state_version ≤ record_after.state_version
  pub added : List BuildEvent
  pub extends : log_after ≡ log ++ added

SameRequest-refl : (r : BuildRecord) → SameRequest r r
SameRequest-refl r = ground arith

SameRequest-trans : (p q r : BuildRecord) → SameRequest p q → SameRequest q r → SameRequest p r
SameRequest-trans p q r x y = record {
  build_id = y.build_id ∙ x.build_id;
  request_sha256 = y.request_sha256 ∙ x.request_sha256;
  spec_sha256 = y.spec_sha256 ∙ x.spec_sha256;
  canonical_request = y.canonical_request ∙ x.canonical_request;
  max_attempts = y.max_attempts ∙ x.max_attempts;
  created_at = y.created_at ∙ x.created_at;
}

-- A table after a write at one key, read at any key, where the key was there.
module _ (c : Uuid) (r : BuildRecord) (log : List BuildEvent) (s t : Store) where
  -- A move of this very build adds one event.
  continue_here :
      (x x' : BuildRecord) (l : List BuildEvent) (e : BuildEvent) (k : Continues c r log s)
      → lookup c s.builds ≡ some x
      → lookup c s.events ≡ some l
      → IsMove x x' l e
      → lookup c t.builds ≡ some x'
      → lookup c t.events ≡ some (l ++ e ∷ [])
      → Continues c r log t
  continue_here x x' l e k was had m p q =
      let own : k.record_after ≡ x = some-injective k.record_after x (sym k.found_after ∙ was) in
      let its : k.log_after ≡ l = some-injective k.log_after l (sym k.events_after ∙ had) in
      record {
        record_after = x';
        log_after = l ++ e ∷ [];
        found_after = p;
        events_after = q;
        same = SameRequest-trans r x x' (subst (SameRequest r) own k.same) m.same;
        version_le = ground (arith, k.version_le, m.version, own);
        added = k.added ++ e ∷ [];
        extends = rw (← its) (rw k.extends (append_assoc log k.added (e ∷ [])));
      }

  -- A move of another build changes nothing here.
  continue_elsewhere :
      (b : Uuid) (x : BuildRecord) (l : List BuildEvent) (k : Continues c r log s)
      → (b == c) ≡ false
      → t.builds ≡ insert b x s.builds
      → t.events ≡ insert b l s.events
      → Continues c r log t
  continue_elsewhere b x l k other p q = record {
    record_after = k.record_after;
    log_after = k.log_after;
    found_after = rw p (lookup-other b c k.record_after x s.builds other k.found_after);
    events_after = rw q (rw (lookup-insert b c l s.events, other) k.events_after);
    same = k.same;
    version_le = k.version_le;
    added = k.added;
    extends = k.extends;
  }

starts :
    (c : Uuid) (r : BuildRecord) (log : List BuildEvent) (s : Store)
    → lookup c s.builds ≡ some r
    → lookup c s.events ≡ some log
    → Continues c r log s
starts c r log s h k = record {
  record_after = r;
  log_after = log;
  found_after = h;
  events_after = k;
  same = SameRequest-refl r;
  version_le = omega arith;
  added = [];
  extends = sym (append-nil log);
}

Continues-Moves :
    {s t : Store} (c : Uuid) (r : BuildRecord) (log : List BuildEvent)
    → Continues c r log s
    → Moves s t
    → Continues c r log t
Continues-Moves {s = s} {t = t} c r log k (stays p q) = record {
  record_after = k.record_after;
  log_after = k.log_after;
  found_after = rw p k.found_after;
  events_after = rw q k.events_after;
  same = k.same;
  version_le = k.version_le;
  added = k.added;
  extends = k.extends;
}
Continues-Moves {s = s} {t = t} c r log k (opens b n now new made p q) =
    elim (Bool-cases (nat_eqb b c)) [
      | inl same ↦
          let key : b ≡ c = (nat_eqb_iff b c).0 same in
          absurd (ground (arith, k.found_after, ap (λ i. lookup i s.builds) key))
      | inr other ↦ continue_elsewhere c r log s t b n _ k other p q
    ]
Continues-Moves {s = s} {t = t} c r log k (moves b x x' l e was had m p q) =
    elim (Bool-cases (nat_eqb b c)) [
      | inl same ↦
          let key : b ≡ c = (nat_eqb_iff b c).0 same in
          continue_here c r log s t x x' l e k (subst (λ i. lookup i s.builds ≡ some x) key was)
            (subst (λ i. lookup i s.events ≡ some l) key had) m
            (rw p (rw (lookup-insert b c x' s.builds, same)))
            (rw q (rw (lookup-insert b c (l ++ e ∷ []) s.events, same)))
      | inr other ↦ continue_elsewhere c r log s t b x' _ k other p q
    ]

Continues-Runs :
    {s t : Store} (c : Uuid) (r : BuildRecord) (log : List BuildEvent)
    → Continues c r log s
    → Runs s t
    → Continues c r log t
Continues-Runs c r log k here = k
Continues-Runs c r log k (next q m) = Continues-Moves c r log (Continues-Runs c r log k q) m

-- The record of a build later on, whose version is no lower.
pub Runs-version :
    {s t : Store} (b : Uuid) (r : BuildRecord)
    → IsAudited s
    → Runs s t
    → lookup b s.builds ≡ some r
    → (x : BuildRecord) × (lookup b t.builds ≡ some x) × (r.state_version ≤ x.state_version)
Runs-version b r v run h =
    let (log, k, _) = v.log_of b r h in
    let later = Continues-Runs b r log (starts b r log _ h k) run in
    (later.record_after, later.found_after, later.version_le)

module _ {Q : Type 0} (enqueue : Uuid → Q → Result String × Q) (env : Environment) (c : Settings)
    (before after : List (Call Q)) (b : Uuid) (r : BuildRecord) where
  abbrev earlier : Store
  earlier = perform_all enqueue env c before empty_store

  later_run : Runs earlier (perform_all enqueue env c after earlier)
  later_run =
      perform_all-Runs enqueue env c after earlier (perform_all-IsAudited enqueue env c before)

  -- Once a build of a store that calls have led to is SUCCEEDED, FAILED, CANCELED or NEEDS_REVIEW,
  -- no further calls change its record.
  pub terminal_final_record :
      lookup b earlier.builds ≡ some r
      → is_terminal r.status ≡ true
      → lookup b (perform_all enqueue env c after earlier).builds ≡ some r
  terminal_final_record h f = Runs-terminal b r f later_run h

  -- Further calls keep every build of the store, with its request, its digests, its retry limit
  -- and its creation time; its version does not fall; and its event log is only appended to.
  pub builds_continue :
      (log : List BuildEvent)
      → lookup b earlier.builds ≡ some r
      → lookup b earlier.events ≡ some log
      → Continues b r log (perform_all enqueue env c after earlier)
  builds_continue log h k = Continues-Runs b r log (starts b r log earlier h k) later_run
