-- ===== src/Service/State/Moves/Submit.antt =====
-- `submit` keeps to the life cycle, and so do the methods of the outbox, which leave the builds alone.
use headless_blender_charact.Prelude.{
  List, Option, String, [], arith, nat_eq, none, refl, some, string_eq, subst₂, sym, true, ℕ, ◌∷◌,
  ◌≡◌,
}
use headless_blender_charact.Service.Errors.{Result, err, ok}
use headless_blender_charact.Service.Contract.{Bytes, Datetime, Environment, Uuid}
use headless_blender_charact.Service.Dict.{insert, lookup}
use headless_blender_charact.Service.Models.Build.{BuildRecord, check_build}
use headless_blender_charact.Service.Models.Event.{
  BuildEvent, OutboxRecord, check_event, check_outbox,
}
use headless_blender_charact.Service.Idempotency.{RequestFingerprint}
use headless_blender_charact.Service.State.Store.{
  Exec, Settings, Store, append_outbox, pure, write_build, ◌⨾◌,
}
use headless_blender_charact.Service.State.Submit.{
  BuildReservation, Submission, fresh, new_build, queued_event, remember_request, replayed, submit,
  submit_commit, submit_plan, validated_event, write_log,
}
use headless_blender_charact.Service.State.Outbox.{
  dispatch_all, dispatch_arguments, dispatch_checked, dispatch_one, dispatch_outbox, due_rows,
  mark_outbox_dispatched, mark_outbox_error,
}
use headless_blender_charact.Service.State.Moves.{Moves, opens, stays}
use headless_blender_charact.Service.State.Moves.Effects.{
  KeepsTables, KeepsTables-append_outbox, KeepsTables-then, KeepsTables-then_pure, reading-Moves,
}

remember_request-KeepsTables :
    (d : Option String) (f : RequestFingerprint) (b : Uuid) → KeepsTables (remember_request d f b)
unfolding remember_request
remember_request-KeepsTables none f b = record { builds = λ s. refl; events = λ s. refl }
remember_request-KeepsTables (some d) f b = record { builds = λ s. refl; events = λ s. refl }

module _ (env : Environment) (c : Settings) (build_id : Uuid) (now : Datetime) (request : Bytes)
    (key : Option String) (s : Store) where
  abbrev planned : Result Submission
  planned = submit_plan env c build_id now request key s

  pub fresh_submission :
      (d : Option String) (f : RequestFingerprint) (r : BuildRecord) (log : List BuildEvent)
      → planned ≡ ok (fresh d f r log)
      → (lookup build_id s.builds ≡ none)
        × (r ≡ new_build c f build_id now)
        × (log ≡ validated_event build_id now ∷ queued_event build_id now ∷ [])
  unfolding submit_plan check_build check_event
  fresh_submission d f r log h = ground arith

  pub submit-Moves : Moves s (submit env c build_id now request key s).1
  unfolding submit submit_commit write_build write_log
  submit-Moves = reading-Moves (submit_plan env c build_id now request key) submit_commit s go
    where
      tail : Option String → RequestFingerprint → BuildRecord → Exec BuildReservation
      tail d f r =
          remember_request d f r.build_id
          ⨾ append_outbox r.build_id r.state_version r.created_at
          ⨾ pure (record { build = r; created = true })

      made : Option String → RequestFingerprint → BuildRecord → List BuildEvent → Store
      made d f r log =
          (tail d f r (record s {
            builds = insert r.build_id r s.builds;
            events = insert r.build_id log s.events;
          })).1

      keeps :
          (d : Option String) (f : RequestFingerprint) (r : BuildRecord) → KeepsTables (tail d f r)
      keeps d f r =
          KeepsTables-then (remember_request d f r.build_id) _
            (remember_request-KeepsTables d f r.build_id)
            (KeepsTables-then_pure _ _
              (KeepsTables-append_outbox r.build_id r.state_version r.created_at))

      go : (p : Submission) → planned ≡ ok p → Moves s (submit_commit p s).1
      go (replayed r) h = stays refl refl
      go (fresh d f r log) h =
          let (new, is_new, is_log) = fresh_submission d f r log h in
          let first = new_build c f build_id now in
          subst₂ (λ x y. Moves s (made d f x y)) (sym is_new) (sym is_log)
            (opens build_id first now new
              (record { build_id = refl; version = refl; queued = refl })
              ((keeps d f first).builds _) ((keeps d f first).events _))

pub mark_outbox_dispatched-Moves :
    (now : Datetime) (outbox_id : ℕ) (s : Store)
    → Moves s (mark_outbox_dispatched now outbox_id s).1
unfolding mark_outbox_dispatched
mark_outbox_dispatched-Moves now outbox_id s = stays (ground arith) (ground arith)

pub mark_outbox_error-Moves :
    (outbox_id : ℕ) (reason_code : String) (s : Store)
    → Moves s (mark_outbox_error outbox_id reason_code s).1
unfolding mark_outbox_error
mark_outbox_error-Moves outbox_id reason_code s = stays (ground arith) (ground arith)

module _ {Q : Type 0} (enqueue : Uuid → Q → Result String × Q) (now : Datetime) where
  dispatch_one-builds :
      (delay : ℕ) (r : OutboxRecord) (s : Store) (q : Q)
      → ((dispatch_one enqueue now delay r s q).1.builds ≡ s.builds)
        × ((dispatch_one enqueue now delay r s q).1.events ≡ s.events)
  unfolding dispatch_one check_outbox
  dispatch_one-builds delay r s q = (ground arith, ground arith)

  dispatch_all-builds :
      (delay : ℕ) (rows : List OutboxRecord) (s : Store) (q : Q)
      → ((dispatch_all enqueue now delay rows s q).1.builds ≡ s.builds)
        × ((dispatch_all enqueue now delay rows s q).1.events ≡ s.events)
  unfolding dispatch_all
  dispatch_all-builds delay [] s q = (refl, refl)
  dispatch_all-builds delay (r ∷ rows) s q =
      let t = dispatch_one enqueue now delay r s q in
      ground (arith, dispatch_one-builds delay r s q, dispatch_all-builds delay rows t.1 t.2)

  pub dispatch_outbox-Moves :
      (limit delay_seconds : ℕ) (s : Store) (q : Q)
      → Moves s (dispatch_outbox enqueue now limit delay_seconds s q).1
  unfolding dispatch_outbox dispatch_checked
  dispatch_outbox-Moves limit delay_seconds s q = go (dispatch_arguments delay_seconds limit)
    where
      go : (r : Result ℕ) → Moves s (dispatch_checked enqueue now limit r s q).1
      go (err e) = stays refl refl
      go (ok delay) = let (b, e) = dispatch_all-builds delay (due_rows now limit s) s q in stays b e
