-- ===== src/Service/Queue/Retention.antt =====
-- The in-memory queue of queue.py under any calls, and how many dead letters it keeps.
use headless_blender_charact.Prelude.{
  List, String, [], arith, drop, length, refl, suc, zero, ℕ, ◌++◌, ◌+◌, ◌-◌, ◌∙◌, ◌∷◌, ◌≡◌, ◌≤◌,
}
use headless_blender_charact.Service.Errors.{Result, err, ok}
use headless_blender_charact.Service.Contract.{Uuid}
use headless_blender_charact.Service.Queue.Message.{QueueMessage, check_message, claim_arguments}
use headless_blender_charact.Service.Queue.Memory.{
  MemoryQueue, acknowledge, after_message, append_bounded, buried, claim, claim_checked,
  claim_ready, dead_letter, enqueue, made_ready, open_queue, receipt_of, release, requeue,
  with_message,
}

pub data QueueCall : Type 0 where
  enqueues : Uuid → QueueCall
  claims : String → ℕ → QueueCall
  acknowledges requeues buries : QueueMessage → QueueCall

unfoldable pub perform_queue : QueueCall → MemoryQueue → MemoryQueue
perform_queue (enqueues b) q = (enqueue b q).1
perform_queue (claims consumer block_ms) q = (claim consumer block_ms q).1
perform_queue (acknowledges m) q = (acknowledge m q).1
perform_queue (requeues m) q = (requeue m q).1
perform_queue (buries m) q = (dead_letter m q).1

unfoldable pub perform_queue_all : List QueueCall → MemoryQueue → MemoryQueue
perform_queue_all [] q = q
perform_queue_all (call ∷ calls) q = perform_queue_all calls (perform_queue call q)

record IsBounded (limit : ℕ) (q : MemoryQueue) : Type 0 where
  its_limit : q.dead_letter_max_entries ≡ limit
  dead_le : length q.dead ≤ limit

length-drop : {A : Type 0} (n : ℕ) (xs : List A) → length (drop n xs) ≡ length xs - n
length-drop zero xs = omega arith
length-drop (suc n) [] = omega arith
length-drop (suc n) (x ∷ xs) = omega (arith, length-drop n xs)

append_bounded_le :
    (limit : ℕ) (dead : List QueueMessage) (m : QueueMessage)
    → length (append_bounded limit dead m) ≤ limit
unfolding append_bounded
append_bounded_le limit dead m =
    omega (arith, length-drop (length (dead ++ m ∷ []) - limit) (dead ++ m ∷ []))

module _ (limit : ℕ) where
  -- A step that leaves the dead letters alone.
  same-IsBounded :
      (q t : MemoryQueue)
      → t.dead ≡ q.dead
      → t.dead_letter_max_entries ≡ q.dead_letter_max_entries
      → IsBounded limit q
      → IsBounded limit t
  same-IsBounded q t d l v = record { its_limit = l ∙ v.its_limit; dead_le = rw d v.dead_le }

  message-IsBounded :
      (b : Uuid) (use_it : MemoryQueue → QueueMessage → MemoryQueue) (q : MemoryQueue)
      → IsBounded limit q
      → ((t : MemoryQueue) (m : QueueMessage) → IsBounded limit t → IsBounded limit (use_it t m))
      → IsBounded limit (with_message q b use_it).1
  unfolding with_message after_message
  message-IsBounded b use_it q v keeps =
      go (check_message (record { build_id = b; receipt = receipt_of q.next }))
    where
      next : IsBounded limit (record q { next = q.next + 1 })
      next = same-IsBounded q _ refl refl v

      go :
          (r : Result QueueMessage)
          → IsBounded limit
              (after_message (record q { next = q.next + 1 }) (receipt_of q.next) use_it r).1
      go (ok m) = keeps _ m next
      go (err e) = next

  release-IsBounded :
      (m : QueueMessage) (q : MemoryQueue) → IsBounded limit q → IsBounded limit (release m q)
  unfolding release
  release-IsBounded m q v = same-IsBounded q _ refl refl v

  enqueue-IsBounded :
      (b : Uuid) (q : MemoryQueue) → IsBounded limit q → IsBounded limit (enqueue b q).1
  unfolding enqueue
  enqueue-IsBounded b q v =
      message-IsBounded b made_ready q v (λ t m w. same-IsBounded t (made_ready t m) refl refl w)

  dead_letter-IsBounded :
      (m : QueueMessage) (q : MemoryQueue) → IsBounded limit q → IsBounded limit (dead_letter m q).1
  unfolding dead_letter buried
  dead_letter-IsBounded m q v =
      message-IsBounded m.build_id buried (release m q) (release-IsBounded m q v) (λ t d w. record {
        its_limit = w.its_limit;
        dead_le = rw w.its_limit (append_bounded_le limit t.dead d);
      })

  claim-IsBounded :
      (consumer : String) (block_ms : ℕ) (q : MemoryQueue)
      → IsBounded limit q
      → IsBounded limit (claim consumer block_ms q).1
  unfolding claim claim_checked
  claim-IsBounded consumer block_ms q v = checked (claim_arguments consumer block_ms)
    where
      ready : (l : List QueueMessage) → IsBounded limit (claim_ready l q).1
      ready [] = v
      ready (m ∷ rest) = same-IsBounded q _ refl refl v

      checked : (r : Result (Unit {0})) → IsBounded limit (claim_checked r q).1
      checked (err e) = v
      checked (ok _) = ready q.ready

  perform-IsBounded :
      (call : QueueCall) (q : MemoryQueue)
      → IsBounded limit q
      → IsBounded limit (perform_queue call q)
  unfolding perform_queue acknowledge requeue
  perform-IsBounded (enqueues b) q v = enqueue-IsBounded b q v
  perform-IsBounded (claims consumer block_ms) q v = claim-IsBounded consumer block_ms q v
  perform-IsBounded (acknowledges m) q v = release-IsBounded m q v
  perform-IsBounded (requeues m) q v =
      enqueue-IsBounded m.build_id (release m q) (release-IsBounded m q v)
  perform-IsBounded (buries m) q v = dead_letter-IsBounded m q v

  calls-IsBounded :
      (calls : List QueueCall) (q : MemoryQueue)
      → IsBounded limit q
      → IsBounded limit (perform_queue_all calls q)
  unfolding perform_queue_all
  calls-IsBounded [] q v = v
  calls-IsBounded (call ∷ calls) q v =
      calls-IsBounded calls (perform_queue call q) (perform-IsBounded call q v)

  opened-IsBounded : (q : MemoryQueue) → open_queue limit ≡ ok q → IsBounded limit q
  unfolding open_queue
  opened-IsBounded q h = record { its_limit = ground arith; dead_le = ground arith }

  -- A queue that was opened with a limit never keeps more dead letters than that, whatever calls
  -- are made on it and with whatever messages.
  pub dead_letters_le_limit :
      (q : MemoryQueue) (calls : List QueueCall)
      → open_queue limit ≡ ok q
      → length (perform_queue_all calls q).dead ≤ limit
  dead_letters_le_limit q calls h = (calls-IsBounded calls q (opened-IsBounded q h)).dead_le
