-- ===== src/Lib.antt =====
-- Verification of the headless Blender character builder: the contracts under shared (JSON documents
-- and character requests), and the build service under service/src/hbcb_service (the state store, the
-- queue, the artifact order and the worker).
--
-- A request is a JSON document. shared/json_contract.py decodes it strictly, within bounds on its size,
-- its nesting and its numbers, and writes documents in one canonical form; shared/character_spec.py
-- reads the character from it and writes it back, and what is written is what fingerprints are made of.
-- The service takes a character request, stores it as a build, hands the build to one worker at a
-- time through a queue, and publishes nine artifacts or records why there are none. The state store
-- (state.py) is the authority: it holds builds, attempts, events, artifacts and an outbox of queue
-- messages to send. The queue (queue.py) delivers build identifiers, perhaps more than once. The
-- worker (worker.py) claims a message, leases the build, runs the builder, uploads and publishes,
-- renewing its lease from a second thread. The PostgreSQL repository keeps the same contract as
-- state.py.
--
-- Where what is modelled:
--   Prelude and its children        names of the library, tests on numbers, lists, equality
--   Shared/Rejection                ContractValidationError of shared/json_contract.py as a value
--   Shared/Decimal                  Python's Decimal, its bounds and its canonical text
--                                   (_validate_decimal_bounds, _canonical_number)
--   Shared/Json                     JSON values, the checks on objects, _check_nesting
--   Shared/Json/Canonical           canonical_json_bytes, canonical_sha256
--   Shared/Json/Numbers, Strings, Decode
--                                   decode_json_document, with what it uses of json.loads and of the
--                                   UTF-8 decoder
--   Shared/Slug                     _safe_slug_from_name of shared/character_spec.py
--   Shared/Readers                  what the readers of shared/character_spec.py share
--   Shared/Character/Parts, Spec, Request
--                                   Proportions, BaseSpec, CharacterSpec, BuildRequest and
--                                   validate_build_request of bytes
--   Service/Errors                  errors.py: error classes and codes as values, results
--   Service/Patterns                the regular expressions, as tests on whole texts
--   Service/Contract                what comes from shared/character_spec.py, hashlib and hmac
--   Service/Dict                    Python's dict as an association list in insertion order
--   Service/Models                  models.py: statuses, transition policy, records and their checks
--   Service/Idempotency             idempotency.py: fingerprints and Idempotency-Key digests
--   Service/Storage                 storage.py: artifact_object_key and publication_order
--   Service/Queue                   queue.py: QueueMessage, InMemoryBuildQueue, and how
--                                   RedisStreamsQueue reads what its client answers
--   Service/State/Store             state.py: the tables, the constructor and the shared steps
--   Service/State/Submit            submit
--   Service/State/Leasing           register_running_attempt, lease_build, heartbeat_attempt
--   Service/State/Completion        complete_attempt
--   Service/State/Recovery          recover_expired_attempts
--   Service/State/Outbox            pending_outbox, mark_outbox_dispatched, mark_outbox_error,
--                                   dispatch_outbox
--   Service/State/Transitions       transition, request_cancel
--   Service/State/Publication       publish_success, publish_attempt_success
--   Service/State/Machine           any sequence of those calls
--   Service/State/Moves             the abstract life cycle of builds, which every call keeps to
--   Service/State/Fence             how each call changes the number of live attempts of a build
--   Service/Worker/Policy, Launch   exit_policy of worker.py, LaunchResult of launcher.py
--   Service/Worker/Supervisor       the heartbeat monitor, _complete, _settle_message,
--                                   _handle_result
--   Service/Worker/Rounds           process_once and run_forever
-- The other files under Shared (among them Shared/Reread), Service/Queue, Service/State and
-- Service/Worker hold proofs, named for what they prove; Tests, Examples and Fixtures hold concrete
-- runs. Files without a folder before their name are those of service/src/hbcb_service.
--
-- How a document corresponds. A Python `str` is the list of its code points; a JSON value is a tree
-- whose objects keep their pairs in order, as a `dict` does; a `Decimal` is its sign, its coefficient
-- and its exponent. A reader returns what it accepts or the code and the path of its rejection; the
-- guards stand in the order of the source, so the first failing one decides. A key that is missing
-- where the source subscripts is a rejection of its own, `key_error`, for Python's `KeyError`. The
-- service takes `validate_build_request` as a parameter (Service/Contract); the function itself is
-- `validate_build_request_bytes` of Shared/Character/Request.
--
-- How the state corresponds. A method of state.py is a function from a store to a result and the
-- store left behind, also when it raises: what was written before the raise stays written. Its first
-- part (the `..._plan`) reads the store and may raise; its second part (`..._commit`) writes, in the
-- order of the source. The lock makes a method one step, so threads interleave as a list of calls.
-- Readings of the clock and fresh identifiers are arguments, so nothing is assumed of them: a clock
-- may stand still or go back, and identifiers may collide. A moment is a number of microseconds in
-- UTC, an identifier its 128-bit number, bytes are lists of numbers. Python's integers are unbounded,
-- and so are these; dispatch counts are capped where the source caps them.
--
-- The worker runs over an interface of the repository, one of the queue, and one of what is outside:
-- the launcher, the reader of the builder's output, the object store, the source of tokens, and a
-- schedule that says how often the heartbeat thread runs before each step of the supervisor. The
-- polling inside the launcher is one answer of the monitor.
--
-- Fuel. `decimal` of the queue's receipts gets one more than the number, which has fewer digits, and so
-- does `digits` of a coefficient. A string is scanned with one unit for each character left. A document
-- is read with twice its length and two more: an array or an object takes one unit to open and one for
-- each part, and each of those takes a character.
-- `run_rounds` runs a given number of rounds of `run_forever`, which does not end by itself. All
-- other loops are structural.
--
-- Not modelled: the messages of errors and the log; `require_utc`, since a moment has no time zone;
-- tests of the Python type of an argument, which the types here make; the object store behind
-- storage.py, the Redis server and its two scripts, PostgreSQL (repository.py, migrations.py), HTTP
-- (api.py, auth.py), processes (launcher.py) and maintenance*.py; a Python `float` as a JSON number,
-- which decoding never makes; `decode_json_document` of a `str`; the labels of keys in messages; a
-- `RecursionError` of json.loads, for which the source reports `invalid_json` and the model goes on to
-- `excessive_nesting`; exponents beyond those that Python's `Decimal` takes, which the source refuses as
-- `invalid_number` and the model as `numeric_limit`; shared/quality_report.py, build_manifest.py (but for
-- the byte budget) and source_revision.py; the code under blender/, which calls Blender; builder_cli/ and
-- experimental_modeling/.
pub mod Prelude
pub mod Shared
pub mod Service
