-- ===== src/Service/Queue/Settled.antt =====
-- What a settled message of `RedisStreamsQueue` of queue.py tells of the client's answer.
use headless_blender_charact.Prelude.{
  Bool-cases, Option, String, ap, arith, inl, inr, leb, nat_eq, nat_eqb, nat_eqb_iff, none, not,
  refl, some, string_eq, true, ℕ, ◌&&◌, ◌==◌, ◌≡◌,
}
use headless_blender_charact.Service.Errors.{Code, ok, raise_if, ◌>>=◌}
use headless_blender_charact.Service.Contract.{list_eq}
use headless_blender_charact.Service.Queue.Message.{queue_failure}
use headless_blender_charact.Service.Queue.Redis.{
  RedisClient, Reply, ack_reply, answered, bytes, cons, mapping, nil, nothing, number,
  redis_acknowledge, sequence, settled, stream_name, text,
}

-- Acknowledged and deleted together: both, or neither since it was settled before.
pub data IsSettled (acknowledged deleted : Reply) : Type 0 where
  both : acknowledged ≡ number 1 → deleted ≡ number 1 → IsSettled acknowledged deleted
  before : acknowledged ≡ number 0 → deleted ≡ number 0 → IsSettled acknowledged deleted

numbers-IsSettled : (n m : ℕ) → n == m && leb n 1 ≡ true → IsSettled (number n) (number m)
numbers-IsSettled n m h = elim (Bool-cases (nat_eqb n 1)) [
  | inl one ↦
      both (ap number (ground (arith, nat_eqb_iff n 1, nat_eqb_iff n m)))
        (ap number (ground (arith, nat_eqb_iff n 1, nat_eqb_iff n m)))
  | inr other ↦
      before (ap number (ground (arith, nat_eqb_iff n 1, nat_eqb_iff n m)))
        (ap number (ground (arith, nat_eqb_iff n 1, nat_eqb_iff n m)))
]

settled-IsSettled : (a d : Reply) → settled a d ≡ true → IsSettled a d
unfolding settled
settled-IsSettled (number n) (number m) h = numbers-IsSettled n m h
settled-IsSettled nothing d h = cc
settled-IsSettled (bytes s) d h = cc
settled-IsSettled (text s) d h = cc
settled-IsSettled (sequence s) d h = cc
settled-IsSettled (mapping f) d h = cc
settled-IsSettled (number n) nothing h = cc
settled-IsSettled (number n) (bytes s) h = cc
settled-IsSettled (number n) (text s) h = cc
settled-IsSettled (number n) (sequence s) h = cc
settled-IsSettled (number n) (mapping f) h = cc

-- The answer of the acknowledging script.
pub record IsAcknowledged (r : Reply) : Type 0 where
  pub acknowledged : Reply
  pub deleted : Reply
  pub shape : r ≡ sequence (cons acknowledged (cons deleted nil))
  pub settles : IsSettled acknowledged deleted

ack_pair :
    (a d : Reply)
    → raise_if (not (settled a d)) (queue_failure Code.invalid_queue_response) ≡ ok tt
    → settled a d ≡ true
ack_pair a d h = ground arith

ack_reply-IsAcknowledged : (r : Reply) → ack_reply r ≡ ok tt → IsAcknowledged r
unfolding ack_reply
ack_reply-IsAcknowledged (sequence (cons a (cons d nil))) h = record {
  acknowledged = a;
  deleted = d;
  shape = refl;
  settles = settled-IsSettled a d (ack_pair a d h);
}
ack_reply-IsAcknowledged (sequence (cons a (cons d (cons x rest)))) h = cc
ack_reply-IsAcknowledged (sequence (cons a nil)) h = cc
ack_reply-IsAcknowledged (sequence nil) h = cc
ack_reply-IsAcknowledged nothing h = cc
ack_reply-IsAcknowledged (number n) h = cc
ack_reply-IsAcknowledged (bytes s) h = cc
ack_reply-IsAcknowledged (text s) h = cc
ack_reply-IsAcknowledged (mapping f) h = cc

module _ {W : Type 0} (client : RedisClient W) (namespace : String) (limit : ℕ) where
  -- An acknowledgement returns only if the script was answered, with a pair of counts that says the
  -- message was acknowledged and deleted, or was neither because it had been settled before. A
  -- message that was acknowledged and not deleted, or deleted and not acknowledged, raises.
  pub redis_acknowledge-IsAcknowledged :
      (receipt : String) (w : W)
      → (redis_acknowledge client namespace limit receipt w).0 ≡ ok tt
      → (r : Reply) × ((client.eval_ack (stream_name namespace) "workers-v1" receipt w).0 ≡ some r)
        × IsAcknowledged r
  unfolding redis_acknowledge answered
  redis_acknowledge-IsAcknowledged receipt w h =
      go (client.eval_ack (stream_name namespace) "workers-v1" receipt w).0 refl h
    where
      go :
          (o : Option Reply)
          → (client.eval_ack (stream_name namespace) "workers-v1" receipt w).0 ≡ o
          → (answered o >>= ack_reply) ≡ ok tt
          → (r : Reply) × ((client.eval_ack (stream_name namespace) "workers-v1" receipt w).0
              ≡ some r)
            × IsAcknowledged r
      go none p h = cc
      go (some r) p h = (r, p, ack_reply-IsAcknowledged r h)
