-- ===== src/Service/Queue/Message.antt =====
-- `QueueMessage`, the queue contract `BuildQueue`, and the limits of queue.py.
use headless_blender_charact.Prelude.{
  Bool, List, Option, String, [], all, false, if◌then◌else◌, leb, nat_eq, not, string_eq, ℕ, ◌&&◌,
  ◌==◌, ◌∷◌,
}
use headless_blender_charact.Service.Errors.{
  Code, Error, ErrorClass, Result, ok, raise_if, raised, ◌>>◌,
}
use headless_blender_charact.Service.Patterns.{codes, is_digit, worker_id_pattern}
use headless_blender_charact.Service.Contract.{Uuid, list_eq}

pub record QueueMessage : Type 0 where
  pub build_id : Uuid
  pub receipt : String

-- Some digits, then the rest of the text.
unfoldable pub skip_digits : List ℕ → List ℕ
skip_digits [] = []
skip_digits (c ∷ s) = let rest = skip_digits s in if is_digit c then rest else c ∷ s

-- ^[0-9]+-[0-9]+$
unfoldable pub after_dash : List ℕ → Bool
after_dash [] = false
after_dash (c ∷ []) = false
after_dash (c ∷ d ∷ s) = c == b'-' && all is_digit (d ∷ s)

unfoldable pub receipt_pattern : String → Bool
unfolding is_digit skip_digits after_dash
receipt_pattern s =
    (elim (codes s) [ [] ↦ false | c ∷ rest ↦ is_digit c ]) && after_dash (skip_digits (codes s))

abbrev pub queue_failure : Code → Error
queue_failure c = raised ErrorClass.queue_error c

-- `QueueMessage.__post_init__`
unfoldable pub check_message : QueueMessage → Result QueueMessage
check_message m = do
  raise_if (not (receipt_pattern m.receipt)) (queue_failure Code.invalid_queue_message)
  ok m

abbrev pub max_dead_letter_max_entries : ℕ
max_dead_letter_max_entries = 1000000

-- What both adapters check before they claim.
unfoldable pub claim_arguments : String → ℕ → Result (Unit {0})
claim_arguments consumer block_ms = do
  raise_if (not (worker_id_pattern consumer)) (queue_failure Code.invalid_consumer)
  raise_if (not (leb block_ms 60000)) (queue_failure Code.invalid_block_timeout)

-- `BuildQueue`, over the state of an adapter
pub record BuildQueue (W : Type 0) : Type 0 where
  pub enqueue : Uuid → W → Result String × W
  pub claim : String → ℕ → W → Result (Option QueueMessage) × W
  pub acknowledge : QueueMessage → W → Result (Unit {0}) × W
  pub requeue : QueueMessage → W → Result String × W
  pub dead_letter : QueueMessage → W → Result String × W
