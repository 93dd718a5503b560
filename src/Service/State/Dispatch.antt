-- ===== src/Service/State/Dispatch.antt =====
-- What `dispatch_outbox` of state.py does with each due row, what it counts and what it leaves.
use headless_blender_charact.Prelude.{
  List, String, [], ap, arith, length, refl, subst, suc, take, zero, ℕ, ◌+◌, ◌∙◌, ◌∷◌, ◌≡◌, ◌≤◌,
}
use headless_blender_charact.Service.Errors.{Result, err, ok}
use headless_blender_charact.Service.Contract.{Datetime, Uuid, seconds}
use headless_blender_charact.Service.Dict.{Dict}
use headless_blender_charact.Service.Models.Build.{BuildRecord}
use headless_blender_charact.Service.Models.Event.{OutboxRecord}
use headless_blender_charact.Service.State.Store.{Store, retry_delay}
use headless_blender_charact.Service.State.Outbox.{
  counted, dispatch_all, dispatch_arguments, dispatch_checked, dispatch_one, dispatch_outbox,
  dispatch_rest, due_rows,
}
use headless_blender_charact.Service.State.Turns.{
  AreDispatched, IsTurn, Turns, Verdict, dispatched_count, failed_count, next_turn, no_turn,
  one_turn, written,
}

length-take_le : {A : Type 0} (n : ℕ) (xs : List A) → length (take n xs) ≤ n
length-take_le zero xs = omega arith
length-take_le (suc n) [] = omega arith
length-take_le (suc n) (x ∷ xs) = omega (arith, length-take_le n xs)

module _ {Q : Type 0} (enqueue : Uuid → Q → Result String × Q) (now : Datetime) (delay : ℕ)
    (builds : Dict Uuid BuildRecord) where
  turns_of :
      (rows : List OutboxRecord) (s : Store) (q : Q) (d f : ℕ)
      → s.builds ≡ builds
      → (dispatch_all enqueue now delay rows s q).0 ≡ ok (d, f)
      → AreDispatched enqueue now delay builds rows s q d f
          (dispatch_all enqueue now delay rows s q)
  unfolding dispatch_all dispatch_rest
  turns_of [] s q d f own h = record {
    verdicts = [];
    turns = no_turn q;
    dispatched = ground arith;
    failed = ground arith;
    left = refl;
  }
  turns_of (r ∷ rest) s q d f own h =
      go (dispatch_one enqueue now delay r s q)
        (λ d f. one_turn enqueue now delay builds r s q d f own) (turns_of rest) h
    where
      go :
          (x : Result (ℕ × ℕ) × Store × Q)
          → ((d f : ℕ) → x.0 ≡ ok (d, f) → IsTurn enqueue now delay builds r s q d f x)
          → ((t : Store) (p : Q) (d f : ℕ)
              → t.builds ≡ builds
              → (dispatch_all enqueue now delay rest t p).0 ≡ ok (d, f)
              → AreDispatched enqueue now delay builds rest t p d f
                  (dispatch_all enqueue now delay rest t p))
          → (dispatch_rest enqueue x (dispatch_all enqueue now delay rest)).0 ≡ ok (d, f)
          → AreDispatched enqueue now delay builds
              (r ∷ rest)
              s
              q
              d
              f
              (dispatch_rest enqueue x (dispatch_all enqueue now delay rest))
      go (err e, t, p) one others h = cc
      go (ok (d1, f1), t, p) one others h =
          sum (dispatch_all enqueue now delay rest t p).0
            (dispatch_all enqueue now delay rest t p).1 (dispatch_all enqueue now delay rest t p).2
            (one d1 f1 refl)
            (λ d f. others t p d f (ap (λ z. z.builds) (one d1 f1 refl).left ∙ own)) h
        where
          sum :
              (y : Result (ℕ × ℕ)) (t' : Store) (p' : Q)
              → IsTurn enqueue now delay builds r s q d1 f1 (ok (d1, f1), t, p)
              → ((d f : ℕ)
                  → y ≡ ok (d, f)
                  → AreDispatched enqueue now delay builds rest t p d f (y, t', p'))
              → counted d1 f1 y ≡ ok (d, f)
              → AreDispatched enqueue now delay builds (r ∷ rest) s q d f (counted d1 f1 y, t', p')
          sum (err e) t' p' w l k = cc
          sum (ok (d2, f2)) t' p' w l k =
              let m : AreDispatched enqueue now delay builds rest t p d2 f2 (ok (d2, f2), t', p') =
                l d2 f2 refl in
              record {
                verdicts = w.verdict ∷ m.verdicts;
                turns = next_turn w.turn m.turns;
                dispatched = ground (arith, w.dispatched, m.dispatched);
                failed = ground (arith, w.failed, m.failed);
                left =
                    subst (λ z. t' ≡ record z { outbox = written m.verdicts z.outbox }) w.left
                      m.left;
              }

-- Every verdict counts once.
count_both : (vs : List Verdict) → dispatched_count vs + failed_count vs ≡ length vs
count_both [] = omega arith
count_both (v ∷ vs) = ground (arith, count_both vs)

module _ {Q : Type 0} (enqueue : Uuid → Q → Result String × Q) (now : Datetime) where
  length-Turns :
      {delay : ℕ} {builds : Dict Uuid BuildRecord} {rows : List OutboxRecord} {q q' : Q}
      {vs : List Verdict}
      → Turns enqueue now delay builds rows q vs q'
      → length vs ≡ length rows
  length-Turns (no_turn q) = refl
  length-Turns (next_turn turn rest) = ap suc (length-Turns rest)

  -- A dispatch that returns has taken the first `limit` of the due rows, in the order of their
  -- identifiers, and each had one turn, on the queue that the turn before has left. If the build has
  -- left QUEUED, the queue is not asked and the row is written back as dispatched; so it is if the
  -- queue takes the build. If the queue raises, the row is written back available after the delay and
  -- not dispatched, with the error code and the next dispatch count. The two numbers count the rows of
  -- either kind, they add up to the rows taken, and nothing but those rows is written.
  pub dispatch_outbox-AreDispatched :
      (limit delay_seconds d f : ℕ) (s : Store) (q : Q)
      → (dispatch_outbox enqueue now limit delay_seconds s q).0 ≡ ok (d, f)
      → AreDispatched enqueue now
          (seconds delay_seconds)
          s.builds
          (due_rows now limit s)
          s
          q
          d
          f
          (dispatch_outbox enqueue now limit delay_seconds s q)
        × (d + f ≡ length (due_rows now limit s))
        × (d + f ≤ limit)
  unfolding dispatch_outbox dispatch_checked dispatch_arguments due_rows retry_delay
  dispatch_outbox-AreDispatched limit delay_seconds d f s q h =
      go (dispatch_arguments delay_seconds limit) (λ delay e. ground arith) h
    where
      go :
          (r : Result ℕ)
          → ((delay : ℕ) → r ≡ ok delay → delay ≡ seconds delay_seconds)
          → (dispatch_checked enqueue now limit r s q).0 ≡ ok (d, f)
          → AreDispatched enqueue now
              (seconds delay_seconds)
              s.builds
              (due_rows now limit s)
              s
              q
              d
              f
              (dispatch_checked enqueue now limit r s q)
            × (d + f ≡ length (due_rows now limit s))
            × (d + f ≤ limit)
      go (err e) delayed h = cc
      go (ok delay) delayed h =
          let m : AreDispatched enqueue now delay s.builds (due_rows now limit s) s q d f
              (dispatch_all enqueue now delay (due_rows now limit s) s q) =
            turns_of enqueue now delay s.builds (due_rows now limit s) s q d f refl h in
          let all_rows : d + f ≡ length (due_rows now limit s) =
            ground (arith, m.dispatched, m.failed, count_both m.verdicts, length-Turns m.turns) in
          (
            subst
                (λ n.
                  AreDispatched enqueue now n s.builds (due_rows now limit s) s q d f
                    (dispatch_all enqueue now delay (due_rows now limit s) s q))
                (delayed delay refl) m,
            all_rows,
            rw all_rows (length-take_le limit _),
          )
