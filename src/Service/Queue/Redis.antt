-- ===== src/Service/Queue/Redis.antt =====
-- `RedisStreamsQueue` of queue.py: how it reads the answers of the redis client. The client and the
-- two Lua scripts run outside; a call of the client is a function that answers or raises.
use Prim.Native.String.{◌++◌ as join}
use headless_blender_charact.Prelude.{
  Bool, List, Option, String, [], any, between, false, if◌then◌else◌, keep, leb, length, ltb,
  nat_eq, none, not, some, string_eq, true, ℕ, ◌&&◌, ◌*◌, ◌+◌, ◌-◌, ◌==◌, ◌∷◌,
}
use headless_blender_charact.Service.Errors.{
  Code, Error, Result, err, ok, raise_if, unexpected, ◌>>=◌, ◌>>◌,
}
use headless_blender_charact.Service.Patterns.{codes, is_digit}
use headless_blender_charact.Service.Contract.{Uuid, list_eq, same_list}
use headless_blender_charact.Service.Storage.{uuid_text}
use headless_blender_charact.Service.Queue.Message.{
  QueueMessage, after_dash, claim_arguments, queue_failure, skip_digits,
}

-- What the client may answer.
mutual
  pub data Reply : Type 0 where
    nothing : Reply
    number : ℕ → Reply
    bytes : List ℕ → Reply
    text : String → Reply
    sequence : Replies → Reply
    mapping : Fields → Reply

  pub data Replies : Type 0 where
    nil : Replies
    cons : Reply → Replies → Replies

  pub data Fields : Type 0 where
    end : Fields
    field : Reply → Reply → Fields → Fields

-- `none`: the client raised.
pub record RedisClient (W : Type 0) : Type 0 where
  pub xadd : String → String → W → Option Reply × W
  -- the stream, the group, the consumer, the count, the time to block
  pub xreadgroup : String → String → String → ℕ → ℕ → W → Option Reply × W
  pub xautoclaim : String → String → String → W → Option Reply × W
  pub eval_ack : String → String → String → W → Option Reply × W
  pub eval_move : String → String → String → String → String → ℕ → W → Option Reply × W

abbrev malformed : Error
malformed = queue_failure Code.invalid_queue_message

-- A text of given code points, among those of the program's own texts.
abbrev same_codes : List ℕ → String → Bool
same_codes s t = same_list s (codes t)

-- `_text`, as code points
unfoldable pub text_of : Reply → Result (List ℕ)
text_of (bytes s) = do raise_if (any (λ c. ltb 127 c) s) malformed; ok s
text_of (text s) = ok (codes s)
text_of _ = err malformed

-- The value of a hexadecimal digit.
hex_value : ℕ → Option ℕ
hex_value c =
    if is_digit c
    then some (c - b'0')
    else if between b'a' b'f' c
    then some (c - b'a' + 10)
    else if between b'A' b'F' c
    then some (c - b'A' + 10)
    else none

hex_number : ℕ → List ℕ → Option ℕ
hex_number acc [] = some acc
hex_number acc (c ∷ s) = elim (hex_value c) [ none ↦ none | some v ↦ hex_number (acc * 16 + v) s ]

-- `UUID(text)`, for texts without the prefixes and braces that no canonical text has
parse_uuid : List ℕ → Option Uuid
unfolding hex_value hex_number
parse_uuid s =
    let digits = keep (λ c. not (c == b'-')) s in
    if length digits == 32 then hex_number 0 digits else none

-- `_canonical_uuid`
unfoldable pub canonical_uuid : Reply → Result Uuid
unfolding text_of parse_uuid uuid_text
canonical_uuid value = do
  s ← text_of value
  parsed ← elim (parse_uuid s) [ none ↦ err malformed | some u ↦ ok u ]
  raise_if (not (same_codes s (uuid_text parsed))) malformed
  ok parsed

-- `_receipt`, as code points
unfoldable pub receipt_reply : Reply → Result (List ℕ)
unfolding text_of is_digit skip_digits after_dash
receipt_reply value = do
  s ← text_of value
  raise_if (not ((elim s [ [] ↦ false | c ∷ rest ↦ is_digit c ]) && after_dash (skip_digits s)))
      (queue_failure Code.invalid_queue_response)
  ok s

-- A message as the adapter returns it.
pub record Delivery : Type 0 where
  pub build_id : Uuid
  pub receipt : List ℕ

-- `_message`
unfoldable pub message_of : Reply → Result Delivery
message_of (sequence (cons receipt_raw (cons (mapping (field key value end)) nil))) = do
  k ← text_of key
  raise_if (not (same_codes k "build_id")) malformed
  build_id ← canonical_uuid value
  receipt ← receipt_reply receipt_raw
  ok (record { build_id = build_id; receipt = receipt })
message_of _ = err malformed

-- Every element of a sequence is a receipt.
receipts_of : Replies → Result (Unit {0})
receipts_of nil = ok tt
receipts_of (cons r rest) = let others = receipts_of rest in do receipt_reply r >>= (λ _. others)

-- `not self._sequence(entries) or len(entries) > 1`
at_most_one : Reply → Result Replies
at_most_one (sequence nil) = ok nil
at_most_one (sequence (cons e nil)) = ok (cons e nil)
at_most_one _ = err malformed

-- `if not entries: return None`, and `return self._message(entries[0])`
first_entry : Replies → Result (Option Delivery)
first_entry nil = ok none
first_entry (cons e rest) = do m ← message_of e; ok (some m)

deleted_of : Reply → Result (Unit {0})
deleted_of (sequence deleted) = receipts_of deleted
deleted_of _ = err malformed

-- The answer of XAUTOCLAIM, in `_reclaim_stale`: the next start, the entries, and perhaps the
-- deleted receipts.
unfoldable pub reclaim_reply : Reply → Result (Option Delivery)
unfolding receipts_of at_most_one first_entry deleted_of
reclaim_reply (sequence (cons start (cons entries nil))) = do
  r ← receipt_reply start
  es ← at_most_one entries
  first_entry es
reclaim_reply (sequence (cons start (cons entries (cons deleted nil)))) = do
  r ← receipt_reply start
  es ← at_most_one entries
  deleted_of deleted
  first_entry es
reclaim_reply _ = err malformed

-- `not response`
is_falsy : Reply → Bool
is_falsy nothing = true
is_falsy (number n) = n == 0
is_falsy (bytes s) = length s == 0
is_falsy (text s) = length (codes s) == 0
is_falsy (sequence nil) = true
is_falsy (mapping end) = true
is_falsy _ = false

-- `a, b = value`
unpack_pair : Reply → Result (Reply × Reply)
unpack_pair (sequence (cons a (cons b nil))) = ok (a, b)
unpack_pair (mapping (field a _ (field b _ end))) = ok (a, b)
unpack_pair _ = err unexpected

sole_entry : Reply → Result Reply
sole_entry (sequence (cons e nil)) = ok e
sole_entry _ = err malformed

read_entries : String → Reply → Result (Option Delivery)
unfolding unpack_pair sole_entry
read_entries stream (sequence (cons group nil)) = do
  (name, entries) ← unpack_pair group
  s ← text_of name
  raise_if (not (same_codes s stream)) malformed
  e ← sole_entry entries
  m ← message_of e
  ok (some m)
read_entries stream _ = err malformed

-- The answer of XREADGROUP, in `claim`.
unfoldable pub read_reply : String → Reply → Result (Option Delivery)
unfolding is_falsy read_entries
read_reply stream response = if is_falsy response then ok none else read_entries stream response

-- `results[i] in (0, 1)`, both settled or both not
unfoldable pub settled : Reply → Reply → Bool
settled (number n) (number m) = n == m && leb n 1
settled _ _ = false

-- The answer of the acknowledging script.
unfoldable pub ack_reply : Reply → Result (Unit {0})
unfolding settled
ack_reply (sequence (cons acknowledged (cons deleted nil))) =
    raise_if (not (settled acknowledged deleted)) (queue_failure Code.invalid_queue_response)
ack_reply _ = err (queue_failure Code.invalid_queue_response)

-- The answer of the moving script, in `_move`.
unfoldable pub move_reply : Reply → Result (List ℕ)
unfolding settled
move_reply (sequence (cons receipt (cons acknowledged (cons deleted nil)))) = do
  raise_if (not (settled acknowledged deleted)) (queue_failure Code.invalid_queue_response)
  receipt_reply receipt
move_reply _ = err (queue_failure Code.invalid_queue_response)

-- `self.stream`, `self.dead_stream`
abbrev pub stream_name : String → String
stream_name namespace = join "hbcb:{" (join namespace "}:builds:v1")

abbrev pub dead_stream_name : String → String
dead_stream_name namespace = join "hbcb:{" (join namespace "}:dead:v1")

-- `except Exception as exc: raise QueueError("queue_unavailable", …)`
unfoldable pub answered : Option Reply → Result Reply
answered none = err (queue_failure Code.queue_unavailable)
answered (some r) = ok r

module _ {W : Type 0} (client : RedisClient W) (namespace : String)
    (dead_letter_max_entries : ℕ) where
  read_new : String → ℕ → Result (Option Delivery) × W → Result (Option Delivery) × W
  read_new consumer block_ms (err e, w) = (err e, w)
  read_new consumer block_ms (ok (some m), w) = (ok (some m), w)
  read_new consumer block_ms (ok none, w) =
      let (r, w') = client.xreadgroup (stream_name namespace) "workers-v1" consumer 1 block_ms w in
      (do response ← answered r; read_reply (stream_name namespace) response, w')

  reclaim_stale : String → W → Result (Option Delivery) × W
  reclaim_stale consumer w =
      let (r, w') = client.xautoclaim (stream_name namespace) "workers-v1" consumer w in
      (do response ← answered r; reclaim_reply response, w')

  claim_if : Result (Unit {0}) → String → ℕ → W → Result (Option Delivery) × W
  unfolding answered read_new reclaim_stale
  claim_if (err e) consumer block_ms w = (err e, w)
  claim_if (ok _) consumer block_ms w = read_new consumer block_ms (reclaim_stale consumer w)

  -- `claim`
  unfoldable pub redis_claim : String → ℕ → W → Result (Option Delivery) × W
  unfolding claim_if
  redis_claim consumer block_ms w = claim_if (claim_arguments consumer block_ms) consumer block_ms w

  -- `enqueue`
  unfoldable pub redis_enqueue : Uuid → W → Result (List ℕ) × W
  unfolding answered
  redis_enqueue build_id w =
      let (r, w') = client.xadd (stream_name namespace) (uuid_text build_id) w in
      (do receipt ← answered r; receipt_reply receipt, w')

  -- `acknowledge`
  unfoldable pub redis_acknowledge : String → W → Result (Unit {0}) × W
  unfolding answered
  redis_acknowledge receipt w =
      let (r, w') = client.eval_ack (stream_name namespace) "workers-v1" receipt w in
      (do results ← answered r; ack_reply results, w')

  -- `_move`
  unfoldable pub redis_move : String → ℕ → QueueMessage → W → Result (List ℕ) × W
  unfolding answered
  redis_move target max_entries m w =
      let (r, w') =
        client.eval_move (stream_name namespace) target "workers-v1" m.receipt
          (uuid_text m.build_id) max_entries w in
      (do results ← answered r; move_reply results, w')

  unfoldable pub redis_requeue : QueueMessage → W → Result (List ℕ) × W
  redis_requeue m w = redis_move (stream_name namespace) 0 m w

  unfoldable pub redis_dead_letter : QueueMessage → W → Result (List ℕ) × W
  redis_dead_letter m w = redis_move (dead_stream_name namespace) dead_letter_max_entries m w
