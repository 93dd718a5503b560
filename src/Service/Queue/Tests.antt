-- ===== src/Service/Queue/Tests.antt =====
-- The in-memory queue at concrete calls.
use headless_blender_charact.Prelude.{
  List, [], length, nat_eq, none, refl, some, string_eq, ℕ, ◌++◌, ◌+◌, ◌∷◌, ◌≡◌, ◌≤◌,
}
use headless_blender_charact.Service.Errors.{ok}
use headless_blender_charact.Service.Patterns.{worker_id_pattern}
use headless_blender_charact.Service.Dict.{insert, remove}
use headless_blender_charact.Service.Queue.Message.{
  after_dash, check_message, claim_arguments, receipt_pattern, skip_digits,
}
use headless_blender_charact.Service.Queue.Memory.{
  MemoryQueue, after_message, append_bounded, buried, claim, claim_checked, claim_ready,
  dead_letter, enqueue, open_queue, receipt_of, release, requeue, with_message,
}
use headless_blender_charact.Service.Queue.Retention.{
  QueueCall, buries, claims, dead_letters_le_limit, enqueues, perform_queue, perform_queue_all,
  requeues,
}
use headless_blender_charact.Service.Queue.Redis.{
  RedisClient, Reply, ack_reply, answered, cons, nil, nothing, number, redis_acknowledge, sequence,
  settled, stream_name, text,
}
use headless_blender_charact.Service.Queue.Settled.{
  IsAcknowledged, redis_acknowledge-IsAcknowledged,
}
use headless_blender_charact.Service.Queue.Fifo.{
  all_delivered, all_entered, delivered, delivered_in_order, handed,
}

abbrev small : MemoryQueue
small = record { ready = []; claimed = []; dead = []; dead_letter_max_entries = 1; next = 1 }

abbrev some_calls : List QueueCall
some_calls =
    enqueues 7
    ∷ claims "worker-1" 0
    ∷ buries (record { build_id = 7; receipt = "1-0" })
    ∷ buries (record { build_id = 8; receipt = "9-0" })
    ∷ []

open_run : open_queue 1 ≡ ok small
unfolding open_queue
open_run = refl

dead_letters_le_limit_example : length (perform_queue_all some_calls small).dead ≤ 1
dead_letters_le_limit_example = dead_letters_le_limit 1 small some_calls open_run

-- Two messages are buried, and the younger one is kept.
dead_run : (perform_queue_all some_calls small).dead ≡ record { build_id = 8; receipt = "3-0" } ∷ []
unfolding perform_queue_all perform_queue enqueue claim claim_checked claim_ready claim_arguments
    worker_id_pattern dead_letter buried append_bounded with_message after_message check_message
    receipt_pattern skip_digits after_dash receipt_of release remove insert
dead_run = refl

-- Two builds are enqueued, the first one is claimed and requeued, and the second one is claimed.
abbrev turn_calls : List QueueCall
turn_calls =
    enqueues 7
    ∷ enqueues 8
    ∷ claims "worker-1" 0
    ∷ requeues (record { build_id = 7; receipt = "1-0" })
    ∷ claims "worker-1" 0
    ∷ []

turn_run :
    all_delivered turn_calls small
    ≡ record { build_id = 7; receipt = "1-0" } ∷ record { build_id = 8; receipt = "2-0" } ∷ []
unfolding all_delivered delivered handed perform_queue enqueue claim claim_checked claim_ready
    claim_arguments worker_id_pattern requeue with_message after_message check_message
    receipt_pattern skip_digits after_dash receipt_of release remove insert
turn_run = refl

delivered_in_order_example :
    [] ++ all_entered turn_calls small
    ≡ all_delivered turn_calls small ++ (perform_queue_all turn_calls small).ready
delivered_in_order_example = delivered_in_order turn_calls small

-- A client that settles every message.
abbrev pair_of_ones : Reply
pair_of_ones = sequence (cons (number 1) (cons (number 1) nil))

abbrev settling : RedisClient ℕ
settling = record {
  xadd = λ stream build w. (some (text "1-0"), w + 1);
  xreadgroup = λ stream group consumer count block w. (some nothing, w);
  xautoclaim = λ stream group consumer w. (none, w);
  eval_ack = λ stream group receipt w. (some pair_of_ones, w);
  eval_move = λ stream target group receipt build limit w. (none, w);
}

acknowledge_run : (redis_acknowledge settling "local" 10 "1-0" 0).0 ≡ ok tt
unfolding redis_acknowledge answered ack_reply settled
acknowledge_run = refl

redis_acknowledge-IsAcknowledged_example :
    (r : Reply) × ((settling.eval_ack (stream_name "local") "workers-v1" "1-0" 0).0 ≡ some r)
    × IsAcknowledged r
redis_acknowledge-IsAcknowledged_example =
    redis_acknowledge-IsAcknowledged settling "local" 10 "1-0" 0 acknowledge_run
