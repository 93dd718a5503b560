-- ===== src/Service/Models/Event.antt =====
-- `BuildEvent` and `OutboxRecord` of models.py.
use headless_blender_charact.Prelude.{Option, String, false, ltb, some, true, ℕ, ◌-◌, ◌^◌}
use headless_blender_charact.Service.Errors.{Code, Result, failure, ok, raise_if, ◌>>◌}
use headless_blender_charact.Service.Contract.{Datetime, Uuid}
use headless_blender_charact.Service.Models.Status.{BuildStatus, require_safe_code}

-- `MAX_DISPATCH_COUNT`
abbrev pub max_dispatch_count : ℕ
max_dispatch_count = 2 ^ 63 - 1

pub record BuildEvent : Type 0 where
  pub build_id : Uuid
  pub sequence : ℕ
  pub event_type : String
  pub from_status : Option BuildStatus
  pub to_status : BuildStatus
  pub reason_code : Option String
  pub created_at : Datetime
  pub attempt_id : Option Uuid

-- `BuildEvent.__post_init__`
unfoldable pub event_post_init : BuildEvent → Result (Unit {0})
event_post_init e = do
  raise_if (ltb e.sequence 1) (failure Code.invalid_event)
  require_safe_code true (some e.event_type)
  require_safe_code false e.reason_code

unfoldable pub check_event : BuildEvent → Result BuildEvent
check_event e = do event_post_init e; ok e

pub record OutboxRecord : Type 0 where
  pub outbox_id : ℕ
  pub build_id : Uuid
  pub build_version : ℕ
  pub available_at : Datetime
  pub dispatched_at : Option Datetime
  pub dispatch_count : ℕ
  pub last_error_code : Option String

-- `OutboxRecord.__post_init__`
unfoldable pub outbox_post_init : OutboxRecord → Result (Unit {0})
outbox_post_init o = do
  raise_if (ltb o.outbox_id 1) (failure Code.invalid_outbox)
  raise_if (ltb max_dispatch_count o.dispatch_count) (failure Code.invalid_outbox)
  require_safe_code false o.last_error_code

unfoldable pub check_outbox : OutboxRecord → Result OutboxRecord
check_outbox o = do outbox_post_init o; ok o
