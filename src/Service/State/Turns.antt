-- ===== src/Service/State/Turns.antt =====
-- One turn of the loop of `dispatch_outbox` of state.py, and the whole loop turn by turn.
use headless_blender_charact.Prelude.{
  Bool, List, Option, String, [], ap, arith, bit, count, false, if◌then◌else◌, nat_eq, none, not,
  refl, some, string_eq, sym, true, ℕ, ◌+◌, ◌∙◌, ◌∷◌, ◌≡◌,
}
use headless_blender_charact.Service.Errors.{Code, Error, Result, err, ok}
use headless_blender_charact.Service.Contract.{Datetime, Uuid}
use headless_blender_charact.Service.Dict.{Dict, insert, lookup}
use headless_blender_charact.Service.Models.Status.{BuildStatus, is_status}
use headless_blender_charact.Service.Models.Build.{BuildRecord}
use headless_blender_charact.Service.Models.Event.{OutboxRecord, check_outbox}
use headless_blender_charact.Service.State.Store.{Store, found, get_build, next_dispatch_count}
use headless_blender_charact.Service.State.Outbox.{
  dispatch_one, dispatch_row, dispatched_row, handed_on, store_row,
}

-- A row that the queue did not take.
abbrev postponed_row : Datetime → ℕ → OutboxRecord → OutboxRecord
postponed_row now delay r = record r {
  available_at = now + delay;
  dispatch_count = next_dispatch_count r.dispatch_count;
  last_error_code = some "redis_unavailable";
}

-- A row as it is written back, and whether it counts as dispatched.
abbrev pub Verdict : Type 0
Verdict = OutboxRecord × Bool

-- The rows are written back one after another.
abbrev pub written : List Verdict → Dict ℕ OutboxRecord → Dict ℕ OutboxRecord
written [] o = o
written ((r, sent) ∷ rest) o = written rest (insert r.outbox_id r o)

abbrev one_row : Bool → Result (ℕ × ℕ)
one_row sent = ok (if sent then (1, 0) else (0, 1))

abbrev pub dispatched_count : List Verdict → ℕ
dispatched_count vs = count (λ v. v.1) vs

abbrev pub failed_count : List Verdict → ℕ
failed_count vs = count (λ v. not v.1) vs

module _ {Q : Type 0} (enqueue : Uuid → Q → Result String × Q) (now : Datetime) (delay : ℕ)
    (builds : Dict Uuid BuildRecord) where
  -- One row: its build has left QUEUED, or the queue takes the build, or the queue raises.
  pub data Turn (r : OutboxRecord) (q : Q) : Verdict → Q → Type 0 where
    moved_on :
        (build : BuildRecord)
        → lookup r.build_id builds ≡ some build
        → is_status build.status BuildStatus.queued ≡ false
        → Turn r q (dispatched_row now r, true) q
    handed_over :
        (build : BuildRecord) (receipt : String) (next : Q)
        → lookup r.build_id builds ≡ some build
        → build.status ≡ BuildStatus.queued
        → enqueue r.build_id q ≡ (ok receipt, next)
        → Turn r q (dispatched_row now r, true) next
    postponed :
        (build : BuildRecord) (e : Error) (next : Q)
        → lookup r.build_id builds ≡ some build
        → build.status ≡ BuildStatus.queued
        → enqueue r.build_id q ≡ (err e, next)
        → Turn r q (postponed_row now delay r, false) next

  -- One turn for each row, in order, on the queue that the turn before has left.
  pub data Turns : List OutboxRecord → Q → List Verdict → Q → Type 0 where
    no_turn : (q : Q) → Turns [] q [] q
    next_turn :
        {r : OutboxRecord} {q q1 q2 : Q} {v : Verdict} {rest : List OutboxRecord}
        {vs : List Verdict}
        → Turn r q v q1
        → Turns rest q1 vs q2
        → Turns (r ∷ rest) q (v ∷ vs) q2

  pub record AreDispatched (rows : List OutboxRecord) (s : Store) (q : Q) (d f : ℕ)
      (x : Result (ℕ × ℕ) × Store × Q) : Type 0 where
    pub verdicts : List Verdict
    pub turns : Turns rows q verdicts x.2
    pub dispatched : d ≡ dispatched_count verdicts
    pub failed : f ≡ failed_count verdicts
    pub left : x.1 ≡ record s { outbox = written verdicts s.outbox }

  pub record IsTurn (r : OutboxRecord) (s : Store) (q : Q) (d f : ℕ)
      (x : Result (ℕ × ℕ) × Store × Q) : Type 0 where
    pub verdict : Verdict
    pub turn : Turn r q verdict x.2
    pub dispatched : d ≡ bit verdict.1
    pub failed : f ≡ bit (not verdict.1)
    pub left : x.1 ≡ record s { outbox = insert verdict.0.outbox_id verdict.0 s.outbox }

  check_outbox_same : (row y : OutboxRecord) → check_outbox row ≡ ok y → y ≡ row
  unfolding check_outbox
  check_outbox_same row y h = ground arith

  module _ (r : OutboxRecord) (s : Store) (q : Q) (d f : ℕ) where
    stored :
        (c : Result OutboxRecord) (sent : Bool) (row : OutboxRecord) (q' : Q)
        → ((y : OutboxRecord) → c ≡ ok y → y ≡ row)
        → row.outbox_id ≡ r.outbox_id
        → Turn r q (row, sent) q'
        → (store_row enqueue r.outbox_id (c, sent) s q').0 ≡ ok (d, f)
        → IsTurn r s q d f (store_row enqueue r.outbox_id (c, sent) s q')
    unfolding store_row
    stored (err e) sent row q' same key turn h = cc
    stored (ok y) sent row q' same key turn h = record {
      verdict = (row, sent);
      turn = turn;
      dispatched = (sums sent h).0;
      failed = (sums sent h).1;
      left = rw (same y refl, key) refl;
    }
      where
        sums : (b : Bool) → one_row b ≡ ok (d, f) → (d ≡ bit b) × (f ≡ bit (not b))
        sums true k = (ground arith, ground arith)
        sums false k = (ground arith, ground arith)

    -- The turn, by the status of the build and the answer of the queue.
    row_turn :
        (build : BuildRecord) (queued : Bool) (x : Result String × Q)
        → lookup r.build_id builds ≡ some build
        → is_status build.status BuildStatus.queued ≡ queued
        → enqueue r.build_id q ≡ x
        → (if queued
            then store_row enqueue r.outbox_id (handed_on enqueue now delay r x.0) s x.1
            else store_row enqueue r.outbox_id (check_outbox (dispatched_row now r), true) s q).0
          ≡ ok (d, f)
        → IsTurn r s q d f (
            if queued
            then store_row enqueue r.outbox_id (handed_on enqueue now delay r x.0) s x.1
            else store_row enqueue r.outbox_id (check_outbox (dispatched_row now r), true) s q)
    unfolding handed_on
    row_turn build false x has is answer h =
        stored (check_outbox (dispatched_row now r)) true (dispatched_row now r) q
          (check_outbox_same _) refl (moved_on build has is) h
    row_turn build true (ok receipt, next) has is answer h =
        stored (check_outbox (dispatched_row now r)) true (dispatched_row now r) next
          (check_outbox_same _) refl (handed_over build receipt next has (ground arith) answer) h
    row_turn build true (err e, next) has is answer h =
        stored (check_outbox (postponed_row now delay r)) false (postponed_row now delay r) next
          (check_outbox_same _) refl (postponed build e next has (ground arith) answer) h

    pub one_turn :
        s.builds ≡ builds
        → (dispatch_one enqueue now delay r s q).0 ≡ ok (d, f)
        → IsTurn r s q d f (dispatch_one enqueue now delay r s q)
    unfolding dispatch_one dispatch_row get_build
    one_turn own h = go (lookup r.build_id s.builds) refl h
      where
        go :
            (o : Option BuildRecord)
            → lookup r.build_id s.builds ≡ o
            → (dispatch_row enqueue now delay r (found o Code.build_not_found) s q).0 ≡ ok (d, f)
            → IsTurn r s q d f (dispatch_row enqueue now delay r (found o Code.build_not_found) s q)
        go none e k = cc
        go (some build) e k =
            row_turn build (is_status build.status BuildStatus.queued) (enqueue r.build_id q)
              (ap (lookup r.build_id) (sym own) ∙ e) refl refl k
