-- ===== src/Service/State/Outbox.antt =====
-- The outbox of state.py: `pending_outbox`, `mark_outbox_dispatched`, `mark_outbox_error` and
-- `dispatch_outbox`.
use headless_blender_charact.Prelude.{
  Bool, List, String, [], between, false, if◌then◌else◌, is_some, keep, leb, map, nat_eq, none, not,
  some, sort_by, string_eq, take, true, ℕ, ◌&&◌, ◌+◌, ◌∷◌,
}
use headless_blender_charact.Service.Errors.{Code, Result, conflict, err, ok, raise_if, ◌>>=◌, ◌>>◌}
use headless_blender_charact.Service.Contract.{Datetime, Uuid}
use headless_blender_charact.Service.Dict.{insert, lookup}
use headless_blender_charact.Service.Models.Status.{BuildStatus, is_status, require_safe_code}
use headless_blender_charact.Service.Models.Build.{BuildRecord}
use headless_blender_charact.Service.Models.Event.{OutboxRecord, check_outbox}
use headless_blender_charact.Service.State.Store.{
  Exec, Store, found, get_build, next_dispatch_count, pure, reading, retry_delay, ◌⨾◌,
}

-- `[item for _, item in sorted(self._outbox.items())]`
unfoldable pub outbox_in_order : Store → List OutboxRecord
outbox_in_order s = map (λ p. p.1) (sort_by (λ p q. leb p.0 q.0) s.outbox)

unfoldable pub pending_outbox : Store → List OutboxRecord
unfolding outbox_in_order
pending_outbox s = keep (λ r. not (is_some r.dispatched_at)) (outbox_in_order s)

-- `self._outbox[outbox_id] = record`
unfoldable pub write_outbox : ℕ → OutboxRecord → Exec (Unit {0})
write_outbox outbox_id r s = (ok tt, record s { outbox = insert outbox_id r s.outbox })

-- The row once it is dispatched.
abbrev pub dispatched_row : Datetime → OutboxRecord → OutboxRecord
dispatched_row now r = record r {
  dispatched_at = some now;
  dispatch_count = next_dispatch_count r.dispatch_count;
  last_error_code = none;
}

-- The row, and whether it is new.
mark_dispatched_plan : Datetime → ℕ → Store → Result (OutboxRecord × Bool)
mark_dispatched_plan now outbox_id s = do
  current ← found (lookup outbox_id s.outbox) Code.outbox_not_found
  let marked = check_outbox (dispatched_row now current)
  updated ← if is_some current.dispatched_at then ok current else marked
  ok (updated, not (is_some current.dispatched_at))

write_if_new : ℕ → OutboxRecord × Bool → Exec OutboxRecord
write_if_new outbox_id (r, false) = pure r
write_if_new outbox_id (r, true) = write_outbox outbox_id r ⨾ pure r

unfoldable pub mark_outbox_dispatched : Datetime → ℕ → Exec OutboxRecord
unfolding mark_dispatched_plan write_if_new write_outbox
mark_outbox_dispatched now outbox_id =
    reading (mark_dispatched_plan now outbox_id) (write_if_new outbox_id)

mark_error_plan : ℕ → String → Store → Result OutboxRecord
mark_error_plan outbox_id reason_code s = do
  require_safe_code true (some reason_code)
  current ← found (lookup outbox_id s.outbox) Code.outbox_not_found
  raise_if (is_some current.dispatched_at) (conflict Code.outbox_already_dispatched)
  check_outbox (record current {
    dispatch_count = next_dispatch_count current.dispatch_count;
    last_error_code = some reason_code;
  })

unfoldable pub mark_outbox_error : ℕ → String → Exec OutboxRecord
unfolding mark_error_plan write_outbox
mark_outbox_error outbox_id reason_code =
    reading (mark_error_plan outbox_id reason_code) (λ r. write_outbox outbox_id r ⨾ pure r)

unfoldable pub due_rows : Datetime → ℕ → Store → List OutboxRecord
due_rows now limit s =
    take limit
      (keep (λ r. not (is_some r.dispatched_at) && leb r.available_at now) (outbox_in_order s))

unfoldable pub dispatch_arguments : ℕ → ℕ → Result ℕ
dispatch_arguments delay_seconds limit = do
  delay ← retry_delay delay_seconds
  raise_if (not (between 1 1000 limit)) (conflict Code.invalid_outbox_limit)
  ok delay

-- `dispatched += …`, `failed += …`, unless the rest of the loop raises
abbrev pub counted : ℕ → ℕ → Result (ℕ × ℕ) → Result (ℕ × ℕ)
counted d f (err e) = err e
counted d f (ok (d', f')) = ok (d + d', f + f')

-- The callback works on a queue of its own, and may raise.
module _ {Q : Type 0} (enqueue : Uuid → Q → Result String × Q) where
  -- The row after one attempt to hand it on, and whether it was dispatched.
  unfoldable pub handed_on :
      Datetime → ℕ → OutboxRecord → Result String → Result OutboxRecord × Bool
  handed_on now delay r (ok _) = (check_outbox (dispatched_row now r), true)
  handed_on now delay r (err _) = (
    check_outbox (record r {
      available_at = now + delay;
      dispatch_count = next_dispatch_count r.dispatch_count;
      last_error_code = some "redis_unavailable";
    }),
    false,
  )

  unfoldable pub store_row : ℕ → Result OutboxRecord × Bool → Store → Q → Result (ℕ × ℕ) × Store × Q
  store_row outbox_id (err e, sent) s q = (err e, s, q)
  store_row outbox_id (ok r, sent) s q =
      (ok (if sent then (1, 0) else (0, 1)), record s { outbox = insert outbox_id r s.outbox }, q)

  unfoldable pub dispatch_row :
      Datetime → ℕ → OutboxRecord → Result BuildRecord → Store → Q → Result (ℕ × ℕ) × Store × Q
  dispatch_row now delay r (err e) s q = (err e, s, q)
  dispatch_row now delay r (ok build) s q =
      let (sent, q') = enqueue r.build_id q in
      if is_status build.status BuildStatus.queued
      then store_row r.outbox_id (handed_on now delay r sent) s q'
      else store_row r.outbox_id (check_outbox (dispatched_row now r), true) s q

  -- One turn of the loop, with what it adds to `dispatched` and to `failed`.
  unfoldable pub dispatch_one : Datetime → ℕ → OutboxRecord → Store → Q → Result (ℕ × ℕ) × Store × Q
  unfolding handed_on store_row dispatch_row
  dispatch_one now delay r s q = dispatch_row now delay r (get_build r.build_id s) s q

  unfoldable pub dispatch_rest :
      Result (ℕ × ℕ) × Store × Q
      → (Store → Q → Result (ℕ × ℕ) × Store × Q)
      → Result (ℕ × ℕ) × Store × Q
  dispatch_rest (err e, s, q) rest = (err e, s, q)
  dispatch_rest (ok (d, f), s, q) rest = let (r, s', q') = rest s q in (counted d f r, s', q')

  unfoldable pub dispatch_all :
      Datetime → ℕ → List OutboxRecord → Store → Q → Result (ℕ × ℕ) × Store × Q
  unfolding dispatch_rest
  dispatch_all now delay [] s q = (ok (0, 0), s, q)
  dispatch_all now delay (r ∷ rest) s q =
      dispatch_rest (dispatch_one now delay r s q) (dispatch_all now delay rest)

  unfoldable pub dispatch_checked : Datetime → ℕ → Result ℕ → Store → Q → Result (ℕ × ℕ) × Store × Q
  dispatch_checked now limit (err e) s q = (err e, s, q)
  dispatch_checked now limit (ok delay) s q = dispatch_all now delay (due_rows now limit s) s q

  -- The numbers of rows dispatched and failed.
  unfoldable pub dispatch_outbox : Datetime → ℕ → ℕ → Store → Q → Result (ℕ × ℕ) × Store × Q
  dispatch_outbox now limit delay_seconds s q =
      dispatch_checked now limit (dispatch_arguments delay_seconds limit) s q
