-- ===== src/Service/Queue/Fifo.antt =====
-- The order in which the in-memory queue of queue.py delivers, under any calls.
use headless_blender_charact.Prelude.{
  Bool-cases, List, Option, String, [], ap, append-nil, append_assoc, inl, inr, refl, some, sym, ℕ,
  ◌++◌, ◌∙◌, ◌∷◌, ◌≡◌,
}
use headless_blender_charact.Service.Errors.{Result, err, ok}
use headless_blender_charact.Service.Contract.{Uuid}
use headless_blender_charact.Service.Queue.Message.{
  QueueMessage, check_message, claim_arguments, receipt_pattern,
}
use headless_blender_charact.Service.Queue.Memory.{
  MemoryQueue, acknowledge, after_message, buried, claim, claim_checked, claim_ready, dead_letter,
  enqueue, made_ready, receipt_of, release, requeue, with_message,
}
use headless_blender_charact.Service.Queue.Retention.{
  QueueCall, acknowledges, buries, claims, enqueues, perform_queue, perform_queue_all, requeues,
}

-- The message that a call makes ready, by its receipt; none if it raises.
unfoldable pub entry : Uuid → Result String → List QueueMessage
entry b (ok receipt) = record { build_id = b; receipt = receipt } ∷ []
entry b (err e) = []

-- The messages that enter the queue: those of `enqueue`, and those of `requeue`.
unfoldable pub entered : QueueCall → MemoryQueue → List QueueMessage
unfolding entry
entered (enqueues b) q = entry b (enqueue b q).0
entered (requeues m) q = entry m.build_id (requeue m q).0
entered _ q = []

unfoldable pub handed : Result (Option QueueMessage) → List QueueMessage
handed (ok (some m)) = m ∷ []
handed _ = []

-- The messages that `claim` returns.
unfoldable pub delivered : QueueCall → MemoryQueue → List QueueMessage
unfolding handed
delivered (claims consumer block_ms) q = handed (claim consumer block_ms q).0
delivered _ q = []

-- Both in the order of the calls.
unfoldable pub all_entered : List QueueCall → MemoryQueue → List QueueMessage
unfolding entered
all_entered [] q = []
all_entered (call ∷ calls) q = entered call q ++ all_entered calls (perform_queue call q)

unfoldable pub all_delivered : List QueueCall → MemoryQueue → List QueueMessage
unfolding delivered
all_delivered [] q = []
all_delivered (call ∷ calls) q = delivered call q ++ all_delivered calls (perform_queue call q)

-- One message that is made ready stands behind those that were.
message_last :
    (b : Uuid) (q : MemoryQueue)
    → q.ready ++ entry b (with_message q b made_ready).0 ≡ (with_message q b made_ready).1.ready
unfolding with_message after_message entry check_message
message_last b q = elim (Bool-cases (receipt_pattern (receipt_of q.next))) [
  | inl good ↦ rw good refl
  | inr bad ↦ rw bad (append-nil q.ready)
]

-- A message that is buried makes none ready.
buried_ready : (b : Uuid) (q : MemoryQueue) → q.ready ++ [] ≡ (with_message q b buried).1.ready
unfolding with_message after_message check_message buried
buried_ready b q = elim (Bool-cases (receipt_pattern (receipt_of q.next))) [
  | inl good ↦ rw good (append-nil q.ready)
  | inr bad ↦ rw bad (append-nil q.ready)
]

-- A claim takes the first of those that are ready, if it takes one.
claim_first :
    (consumer : String) (block_ms : ℕ) (q : MemoryQueue)
    → q.ready ++ [] ≡ handed (claim consumer block_ms q).0 ++ (claim consumer block_ms q).1.ready
unfolding claim claim_checked claim_ready handed
claim_first consumer block_ms q = append-nil q.ready ∙ checked (claim_arguments consumer block_ms)
  where
    ready :
        (l : List QueueMessage)
        → q.ready ≡ l
        → l ≡ handed (claim_ready l q).0 ++ (claim_ready l q).1.ready
    ready [] h = sym h
    ready (m ∷ rest) h = refl

    checked :
        (r : Result (Unit {0}))
        → q.ready ≡ handed (claim_checked r q).0 ++ (claim_checked r q).1.ready
    checked (err e) = refl
    checked (ok _) = ready q.ready refl

call_in_order :
    (call : QueueCall) (q : MemoryQueue)
    → q.ready ++ entered call q ≡ delivered call q ++ (perform_queue call q).ready
unfolding entered delivered perform_queue enqueue requeue release acknowledge dead_letter
call_in_order (enqueues b) q = message_last b q
call_in_order (requeues m) q = message_last m.build_id (release m q)
call_in_order (acknowledges m) q = append-nil q.ready
call_in_order (claims consumer block_ms) q = claim_first consumer block_ms q
call_in_order (buries m) q = buried_ready m.build_id (release m q)

-- The queue is first in, first out, and loses and doubles nothing: over any calls, the messages that
-- were ready, followed by those that `enqueue` and `requeue` made ready, are those that `claim` has
-- delivered, in the same order, followed by those that are still ready.
pub delivered_in_order :
    (calls : List QueueCall) (q : MemoryQueue)
    → q.ready ++ all_entered calls q ≡ all_delivered calls q ++ (perform_queue_all calls q).ready
unfolding all_entered all_delivered perform_queue_all
delivered_in_order [] q = append-nil q.ready
delivered_in_order (call ∷ calls) q =
    let t = perform_queue call q in
    sym (append_assoc q.ready (entered call q) (all_entered calls t))
    ∙ ap (λ l. l ++ all_entered calls t) (call_in_order call q)
    ∙ append_assoc (delivered call q) t.ready (all_entered calls t)
    ∙ ap (λ l. delivered call q ++ l) (delivered_in_order calls t)
    ∙ sym
        (append_assoc (delivered call q) (all_delivered calls t) (perform_queue_all calls t).ready)
