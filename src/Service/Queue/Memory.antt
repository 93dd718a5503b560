-- ===== src/Service/Queue/Memory.antt =====
-- `InMemoryBuildQueue` of queue.py. The lock makes each method one step.
use Prim.Native.String.{◌++◌ as join}
use headless_blender_charact.Prelude.{
  List, Option, String, [], between, drop, get_or, if◌then◌else◌, length, ltb, nat_eq, none, not,
  some, string_eq, suc, zero, ℕ, ◌%◌, ◌++◌, ◌+◌, ◌-◌, ◌/◌, ◌∷◌,
}
use headless_blender_charact.Service.Errors.{Code, Result, err, ok, raise_if, ◌>>◌}
use headless_blender_charact.Service.Contract.{Uuid}
use headless_blender_charact.Service.Dict.{Dict, insert, remove}
use headless_blender_charact.Service.Queue.Message.{
  BuildQueue, QueueMessage, check_message, claim_arguments, max_dead_letter_max_entries,
  queue_failure,
}

pub record MemoryQueue : Type 0 where
  pub ready : List QueueMessage
  pub claimed : Dict String QueueMessage
  pub dead : List QueueMessage
  pub dead_letter_max_entries : ℕ
  pub next : ℕ

unfoldable pub open_queue : ℕ → Result MemoryQueue
open_queue limit = do
  raise_if (not (between 1 max_dead_letter_max_entries limit))
      (queue_failure Code.invalid_dead_letter_limit)
  ok (record { ready = []; claimed = []; dead = []; dead_letter_max_entries = limit; next = 1 })

abbrev digit_texts : List String
digit_texts = "0" ∷ "1" ∷ "2" ∷ "3" ∷ "4" ∷ "5" ∷ "6" ∷ "7" ∷ "8" ∷ "9" ∷ []

-- `str(n)`, with as much fuel as there are digits; `n + 1` is enough for `n`.
decimal : ℕ → ℕ → String
decimal zero n = ""
decimal (suc fuel) n =
    let rest = decimal fuel (n / 10) in
    if ltb n 10 then get_or digit_texts n "" else join rest (get_or digit_texts (n % 10) "")

-- `f"{n}-0"`
unfoldable pub receipt_of : ℕ → String
unfolding decimal
receipt_of n = join (decimal (suc n) n) "-0"

-- The receipt, and the message put where it belongs, unless the message is refused.
unfoldable pub after_message :
    MemoryQueue
    → String
    → (MemoryQueue → QueueMessage → MemoryQueue)
    → Result QueueMessage
    → Result String × MemoryQueue
after_message q receipt use_it (err e) = (err e, q)
after_message q receipt use_it (ok m) = (ok receipt, use_it q m)

-- A message with the next receipt; the number is used up also if the message is refused.
unfoldable pub with_message :
    MemoryQueue → Uuid → (MemoryQueue → QueueMessage → MemoryQueue) → Result String × MemoryQueue
unfolding after_message
with_message q build_id use_it =
    after_message (record q { next = q.next + 1 }) (receipt_of q.next) use_it
      (check_message (record { build_id = build_id; receipt = receipt_of q.next }))

-- `self._ready.append(message)`
abbrev pub made_ready : MemoryQueue → QueueMessage → MemoryQueue
made_ready q m = record q { ready = q.ready ++ m ∷ [] }

unfoldable pub enqueue : Uuid → MemoryQueue → Result String × MemoryQueue
unfolding with_message
enqueue build_id q = with_message q build_id made_ready

unfoldable pub claim_ready :
    List QueueMessage → MemoryQueue → Result (Option QueueMessage) × MemoryQueue
claim_ready [] q = (ok none, q)
claim_ready (m ∷ rest) q =
    (ok (some m), record q { ready = rest; claimed = insert m.receipt m q.claimed })

unfoldable pub claim_checked :
    Result (Unit {0}) → MemoryQueue → Result (Option QueueMessage) × MemoryQueue
unfolding claim_ready
claim_checked (err e) q = (err e, q)
claim_checked (ok _) q = claim_ready q.ready q

unfoldable pub claim : String → ℕ → MemoryQueue → Result (Option QueueMessage) × MemoryQueue
unfolding claim_checked
claim consumer block_ms q = claim_checked (claim_arguments consumer block_ms) q

-- `self._claimed.pop(message.receipt, None)`
unfoldable pub release : QueueMessage → MemoryQueue → MemoryQueue
release m q = record q { claimed = remove m.receipt q.claimed }

unfoldable pub acknowledge : QueueMessage → MemoryQueue → Result (Unit {0}) × MemoryQueue
unfolding release
acknowledge m q = (ok tt, release m q)

unfoldable pub requeue : QueueMessage → MemoryQueue → Result String × MemoryQueue
unfolding release enqueue
requeue m q = enqueue m.build_id (release m q)

-- `deque(maxlen=limit).append(m)`: the oldest entries fall out.
unfoldable pub append_bounded : ℕ → List QueueMessage → QueueMessage → List QueueMessage
append_bounded limit dead m = let longer = dead ++ m ∷ [] in drop (length longer - limit) longer

-- `self._dead.append(message)`
unfoldable pub buried : MemoryQueue → QueueMessage → MemoryQueue
unfolding append_bounded
buried q m = record q { dead = append_bounded q.dead_letter_max_entries q.dead m }

unfoldable pub dead_letter : QueueMessage → MemoryQueue → Result String × MemoryQueue
unfolding release with_message buried
dead_letter m q = with_message (release m q) m.build_id buried

-- The queue as the contract sees it.
abbrev pub memory_queue : BuildQueue MemoryQueue
memory_queue = record {
  enqueue = enqueue;
  claim = claim;
  acknowledge = acknowledge;
  requeue = requeue;
  dead_letter = dead_letter;
}
