-- ===== src/Service/Errors.antt =====
-- service/src/hbcb_service/errors.py: the errors of the service as values. An `except` clause reads
-- the class and the code; messages are not modelled. `key_error` is Python's own `KeyError`, and
-- `contract_error` is a `ContractValidationError` of shared/json_contract.py.
use headless_blender_charact.Prelude.{Bool, false, true}

-- The subclasses of `ServiceError`, with the base class first.
pub data ErrorClass : Type 0 where
  service_error authorization_error configuration_error idempotency_conflict state_conflict :
      ErrorClass
  storage_error queue_error migration_error worker_error : ErrorClass

-- The codes that the modelled files raise.
pub data Code : Type 0 where
  invalid_lease_token invalid_lease_duration invalid_retry_delay invalid_idempotency_secret : Code
  invalid_max_attempts invalid_namespace invalid_bucket idempotency_conflict : Code
  build_id_collision build_not_found invalid_attempt attempt_conflict active_attempt_conflict : Code
  attempt_not_found retry_policy_exhausted attempt_id_collision lease_not_active : Code
  lease_fence_mismatch lease_expired invalid_attempt_outcome cancel_requires_request : Code
  invalid_recovery_limit outbox_not_found outbox_already_dispatched invalid_outbox_limit : Code
  success_requires_artifacts invalid_reason_code unexpected_reason terminal_build : Code
  invalid_transition cancel_requested artifact_set_mismatch artifact_owner_mismatch : Code
  artifact_attempt_mismatch artifact_bucket_mismatch artifact_version_missing : Code
  artifact_key_mismatch artifact_budget artifacts_already_published duplicate_outbox : Code
  stale_state_version invalid_sha256 invalid_request_bytes invalid_request_hash : Code
  invalid_spec_hash invalid_timestamp invalid_terminal_state invalid_success_state : Code
  invalid_manifest_state invalid_canceled_state invalid_attempt_number invalid_worker_id : Code
  invalid_attempt_state invalid_exit_code invalid_artifact invalid_event invalid_outbox : Code
  invalid_fingerprint invalid_idempotency_key invalid_artifact_path : Code
  invalid_dead_letter_limit invalid_consumer invalid_block_timeout invalid_queue_message : Code
  invalid_queue_response queue_unavailable queue_initialization_failed : Code
  lease_duration_invalid retry_delay_invalid lease_lost : Code
  artifact_tree_invalid artifact_hash_mismatch manifest_provenance_mismatch : Code
  other_code : Code

pub data Error : Type 0 where
  raised : ErrorClass → Code → Error
  key_error contract_error unexpected : Error

-- What a call returns, or what it raises.
pub data Result {ℓ} (Value : Type ℓ) : Type ℓ where
  err : Error → Result Value
  ok : Value → Result Value

-- Statements in sequence: the first error ends them.
abbrev pub ◌>>=◌ {κ ℓ} : {V : Type κ} {W : Type ℓ} → Result V → (V → Result W) → Result W
err raising >>= next = err raising
ok value >>= next = next value

infixl 5 ◌>>=◌
abbrev pub ◌>>◌ {ℓ} : {W : Type ℓ} → Result (Unit {0}) → Result W → Result W
statement >> next = statement >>= λ _. next

infixl 5 ◌>>◌
-- `if test: raise error`
abbrev pub raise_if : Bool → Error → Result (Unit {0})
raise_if true e = err e
raise_if false e = ok tt

abbrev pub conflict : Code → Error
conflict c = raised ErrorClass.state_conflict c

abbrev pub failure : Code → Error
failure c = raised ErrorClass.service_error c

-- `except StateConflict`
abbrev pub is_conflict : Error → Bool
is_conflict (raised ErrorClass.state_conflict _) = true
is_conflict _ = false

-- `except ServiceError`: every class of this file, and no other exception.
abbrev pub is_service : Error → Bool
is_service (raised _ _) = true
is_service _ = false
