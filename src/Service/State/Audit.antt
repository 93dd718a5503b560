-- ===== src/Service/State/Audit.antt =====
-- The event log of a build, as an auditor reads it: numbered from 1 without a gap, each event
-- starting from the status in which the one before it ended.
use headless_blender_charact.Prelude.{
  Bool, Bool-cases, List, Option, [], arith, if◌then◌else◌, inl, inr, length, nat_eq, nat_eqb,
  nat_eqb_iff, none, some, some-injective, string_eq, subst, subst₂, suc, sym, true, ℕ, ◌&&◌, ◌++◌,
  ◌+◌, ◌==◌, ◌∙◌, ◌∷◌, ◌≡◌,
}
use headless_blender_charact.Service.Contract.{Datetime, Uuid, list_eq}
use headless_blender_charact.Service.Dict.{Dict, insert, lookup, lookup-insert}
use headless_blender_charact.Service.Models.Status.{BuildStatus, build_rank}
use headless_blender_charact.Service.Models.Build.{BuildRecord}
use headless_blender_charact.Service.Models.Event.{BuildEvent}
use headless_blender_charact.Service.State.Store.{Store, empty_store}
use headless_blender_charact.Service.State.Submit.{queued_event, validated_event}
use headless_blender_charact.Service.State.Moves.{
  IsMove, IsNew, Moves, Runs, here, moves, next, opens, stays,
}

abbrev optional_rank : Option BuildStatus → ℕ
optional_rank none = 0
optional_rank (some b) = suc (build_rank b)

abbrev same_from : Option BuildStatus → Option BuildStatus → Bool
same_from a b = optional_rank a == optional_rank b

same_from_self : (a : Option BuildStatus) → same_from a a ≡ true
same_from_self a = ground arith

-- The number of events read and the status in which they end, if nothing is wrong.
unfoldable pub replay : ℕ → Option BuildStatus → List BuildEvent → Option (ℕ × Option BuildStatus)
replay n from [] = some (n, from)
replay n from (e ∷ rest) =
    let later = replay (suc n) (some e.to_status) rest in
    if e.sequence == suc n && same_from e.from_status from then later else none

-- One more event that fits.
pub replay-append :
    (n : ℕ) (from : Option BuildStatus) (log : List BuildEvent) (e : BuildEvent) (m : ℕ)
    (end : Option BuildStatus)
    → replay n from log ≡ some (m, end)
    → e.sequence ≡ suc m
    → e.from_status ≡ end
    → replay n from (log ++ e ∷ []) ≡ some (suc m, some e.to_status)
unfolding replay
replay-append n from [] e m end h p q = ground (arith, same_from_self from)
replay-append n from (x ∷ log) e m end h p q =
    ground (arith, replay-append (suc n) (some x.to_status) log e m end)

pub replay-length :
    (n : ℕ) (from : Option BuildStatus) (log : List BuildEvent) (m : ℕ) (end : Option BuildStatus)
    → replay n from log ≡ some (m, end)
    → m ≡ n + length log
unfolding replay
replay-length n from [] m end h = ground arith
replay-length n from (x ∷ log) m end h =
    ground (arith, replay-length (suc n) (some x.to_status) log m end)

-- The log of a build is complete: it replays to the status of the record, with one event for each
-- version and one for the validation.
pub record IsLogOf (b : Uuid) (r : BuildRecord) (log : List BuildEvent) : Type 0 where
  pub build_id : r.build_id ≡ b
  pub replays : replay 0 none log ≡ some (suc r.state_version, some r.status)

pub record IsAudited (s : Store) : Type 0 where
  pub log_of :
      (b : Uuid) (r : BuildRecord)
      → lookup b s.builds ≡ some r
      → (log : List BuildEvent) × (lookup b s.events ≡ some log) × IsLogOf b r log

-- A move keeps the log complete.
log-moves :
    (b : Uuid) (r r' : BuildRecord) (log : List BuildEvent) (e : BuildEvent)
    → IsLogOf b r log
    → IsMove r r' log e
    → IsLogOf b r' (log ++ e ∷ [])
log-moves b r r' log e h m = record {
  build_id = ground (arith, m.same, h.build_id);
  replays = ground (
    arith,
    replay-length 0 none log (suc r.state_version) (some r.status) h.replays,
    replay-append 0 none log e (suc r.state_version) (some r.status) h.replays,
    m.version,
    m.sequence,
  );
}

opened_log :
    (b : Uuid) (r : BuildRecord) (now : Datetime)
    → IsNew b r
    → IsLogOf b r (validated_event b now ∷ queued_event b now ∷ [])
unfolding replay
opened_log b r now h = ground arith

-- Every build of a table has its log in another.
abbrev Covers : Dict Uuid BuildRecord → Dict Uuid (List BuildEvent) → Type 0
Covers builds events =
    (b : Uuid) (r : BuildRecord)
    → lookup b builds ≡ some r
    → (log : List BuildEvent) × (lookup b events ≡ some log) × IsLogOf b r log

Covers-insert :
    (builds : Dict Uuid BuildRecord) (events : Dict Uuid (List BuildEvent)) (b : Uuid)
    (r : BuildRecord) (log : List BuildEvent)
    → Covers builds events
    → IsLogOf b r log
    → Covers (insert b r builds) (insert b log events)
Covers-insert builds events b r log v new c x h = elim (Bool-cases (nat_eqb b c)) [
  | inl e ↦
      let at_b : some r ≡ some x = rw e at (rw (lookup-insert b c r builds) at h) in
      let key : b ≡ c = (nat_eqb_iff b c).0 e in
      (
        log,
        rw (lookup-insert b c log events, e),
        subst₂ (λ k y. IsLogOf k y log) key (some-injective r x at_b) new,
      )
  | inr e ↦
      let at_c : lookup c builds ≡ some x = rw e at (rw (lookup-insert b c r builds) at h) in
      let old = v c x at_c in (old.0, rw (lookup-insert b c log events, e) old.1, old.2)
]

-- The log that the table holds is the one that the audit speaks of.
pub its_log :
    {s : Store}
    → IsAudited s
    → (b : Uuid) (r : BuildRecord) (log : List BuildEvent) → lookup b s.builds ≡ some r
    → lookup b s.events ≡ some log
    → IsLogOf b r log
its_log v b r log h k =
    let old = v.log_of b r h in subst (IsLogOf b r) (some-injective old.0 log (sym old.1 ∙ k)) old.2

-- A store that is fit for an audit stays so under every move.
pub Moves-IsAudited : {s s' : Store} → IsAudited s → Moves s s' → IsAudited s'
Moves-IsAudited {s = s} {s' = s'} v (stays p q) = record {
  log_of = subst₂ Covers (sym p) (sym q) v.log_of;
}
Moves-IsAudited {s = s} {s' = s'} v (opens b r now new made p q) = record {
  log_of = subst₂ Covers (sym p) (sym q) (
      Covers-insert s.builds s.events b r (validated_event b now ∷ queued_event b now ∷ []) v.log_of
        (opened_log b r now made));
}
Moves-IsAudited {s = s} {s' = s'} v (moves b r r' log e was had m p q) = record {
  log_of = subst₂ Covers (sym p) (sym q) (
      Covers-insert s.builds s.events b r' (log ++ e ∷ []) v.log_of
        (log-moves b r r' log e (its_log v b r log was had) m));
}

pub Runs-IsAudited : {s t : Store} → IsAudited s → Runs s t → IsAudited t
Runs-IsAudited v here = v
Runs-IsAudited v (next r m) = Moves-IsAudited (Runs-IsAudited v r) m

pub empty_store-IsAudited : IsAudited empty_store
unfolding empty_store lookup
empty_store-IsAudited = record { log_of = λ b r h. absurd (ground arith) }
