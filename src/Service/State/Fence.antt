-- ===== src/Service/State/Fence.antt =====
-- The fence of state.py: how its methods may change the attempts, so that no build ever has two
-- live attempts. The children show that the methods keep to it.
pub mod Effects
pub mod Leases
pub mod Outcomes
pub mod Others
use headless_blender_charact.Prelude.{
  Bool, Bool-cases, arith, count, false, inl, inr, nat_eq, nat_eqb, nat_eqb_iff, none, some,
  string_eq, subst, ℕ, ◌&&◌, ◌==◌, ◌≡◌, ◌≤◌,
}
use headless_blender_charact.Service.Contract.{Uuid, list_eq}
use headless_blender_charact.Service.Dict.{
  Dict, count-insert, count-insert_le, count-insert_new, insert, lookup, values,
}
use headless_blender_charact.Service.Models.Status.{is_active}
use headless_blender_charact.Service.Models.Attempt.{AttemptRecord}
use headless_blender_charact.Service.State.Store.{Store}

-- A live attempt of a given build.
abbrev pub is_live_of : Uuid → AttemptRecord → Bool
is_live_of b a = a.build_id == b && is_active a.status

-- The number of live attempts of a build.
unfoldable pub live_count : Uuid → Store → ℕ
live_count b s = count (is_live_of b) (values s.attempts)

pub record IsFenced (s : Store) : Type 0 where
  pub single : (b : Uuid) → live_count b s ≤ 1

-- A method leaves the attempts alone, writes one that is not live, renews one in place, or claims a
-- build that has no live attempt.
pub data Claims (s t : Store) : Type 0 where
  keeps : t.attempts ≡ s.attempts → Claims s t
  closes :
      (i : Uuid) (v : AttemptRecord)
      → is_active v.status ≡ false
      → t.attempts ≡ insert i v s.attempts
      → Claims s t
  renews :
      (i : Uuid) (a v : AttemptRecord)
      → lookup i s.attempts ≡ some a
      → v.build_id ≡ a.build_id
      → v.status ≡ a.status
      → t.attempts ≡ insert i v s.attempts
      → Claims s t
  claims :
      (i : Uuid) (v : AttemptRecord)
      → lookup i s.attempts ≡ none
      → live_count v.build_id s ≡ 0
      → t.attempts ≡ insert i v s.attempts
      → Claims s t

live-closes :
    (b i : Uuid) (v : AttemptRecord) (d : Dict Uuid AttemptRecord)
    → is_active v.status ≡ false
    → count (is_live_of b) (values (insert i v d)) ≤ count (is_live_of b) (values d)
live-closes b i v d h = count-insert_le (is_live_of b) i v d (ground arith)

live-renews :
    (b i : Uuid) (a v : AttemptRecord) (d : Dict Uuid AttemptRecord)
    → lookup i d ≡ some a
    → v.build_id ≡ a.build_id
    → v.status ≡ a.status
    → count (is_live_of b) (values (insert i v d)) ≡ count (is_live_of b) (values d)
live-renews b i a v d h p q =
    let same : is_live_of b v ≡ is_live_of b a = rw (p, q) in
    ground (arith, count-insert (is_live_of b) i v a d h, same)

live-claims :
    (b i : Uuid) (v : AttemptRecord) (d : Dict Uuid AttemptRecord)
    → lookup i d ≡ none
    → count (is_live_of v.build_id) (values d) ≡ 0
    → count (is_live_of b) (values d) ≤ 1
    → count (is_live_of b) (values (insert i v d)) ≤ 1
live-claims b i v d h free single = elim (Bool-cases (nat_eqb v.build_id b)) [
  | inl same ↦
      let key : v.build_id ≡ b = (nat_eqb_iff v.build_id b).0 same in
      let none_live : count (is_live_of b) (values d) ≡ 0 =
        subst (λ k. count (is_live_of k) (values d) ≡ 0) key free in
      ground (arith, count-insert_new (is_live_of b) i v d h, none_live)
  | inr other ↦ ground (arith, count-insert_new (is_live_of b) i v d h)
]

pub Claims-IsFenced : {s t : Store} → IsFenced s → Claims s t → IsFenced t
unfolding live_count
Claims-IsFenced f (keeps p) = record { single = λ b. rw p (f.single b) }
Claims-IsFenced {s = s} f (closes i v h p) = record {
  single = λ b. rw p (omega (arith, live-closes b i v s.attempts h, f.single b));
}
Claims-IsFenced {s = s} f (renews i a v h x y p) = record {
  single = λ b. rw p (omega (arith, live-renews b i a v s.attempts h x y, f.single b));
}
Claims-IsFenced {s = s} f (claims i v h free p) = record {
  single = λ b. rw p (live-claims b i v s.attempts h free (f.single b));
}
