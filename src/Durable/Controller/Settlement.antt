-- ===== src/Durable/Controller/Settlement.antt =====
-- The settlement half of `DurableJobController`: `checkpoint`, `release`, `apply_outcome` and
-- `complete_success` of src/pybus/durable.py. `now` is the controller's clock reading, `later` the
-- store's.
use pybus.Codec.{Stdlib}
use pybus.Durable.Controller.{ControllerError, identity, recurrence_misuse, store_error}
use pybus.Durable.Envelope.{MessageEnvelope}
use pybus.Durable.Queries.{StoreError}
use pybus.Durable.Series.{
  HandlerResult, complete_recurring_success, end_recurrence, schedule_next_occurrence,
}
use pybus.Durable.Settle.{
  CommandDeliveryOutcome, apply_outcome, checkpoint_settlement, release_delivery,
}
use pybus.Durable.Types.{CommandDeliveryStatus, Db}
use pybus.Prelude.{Bool, Option, String, false, if◌then◌else◌, is_some, none, some, true, ℕ, ◌+◌}
use pybus.Prelude.Exec.{Exec, Result, err, ok, ◌>>=◌}
use pybus.Recurrence.{Calendar}

abbrev pub Controlled : Type 0 → Type 0
Controlled A = Exec Db ControllerError A

abbrev pub from_store : {A : Type 0} → Result StoreError A × Db → Result ControllerError A × Db
from_store (ok a, db) = (ok a, db)
from_store (err e, db) = (err (store_error e), db)

-- `isinstance(handler_result, (ScheduleNextOccurrence, EndRecurrence))`
abbrev pub wants_recurrence : HandlerResult → Bool
wants_recurrence (schedule_next_occurrence at) = true
wants_recurrence end_recurrence = true
wants_recurrence _ = false

module _ (lib : Stdlib) (now later delay : ℕ) where
  unfoldable pub checkpoint_envelope :
      MessageEnvelope
      → CommandDeliveryStatus
      → String
      → Option String
      → ℕ
      → ℕ
      → Option ℕ
      → Controlled (Unit {0})
  unfolding identity checkpoint_settlement
  checkpoint_envelope e status source_queue destination_queue count max_retries last_attempt_at db =
      elim (identity e) [
        | err error ↦ (err error, db)
        | ok none ↦ (ok tt, db)
        | ok (some (record_id, generation)) ↦ from_store (
            checkpoint_settlement lib later
              (record {
                record_id = record_id;
                generation = generation;
                status = status;
                source_queue = source_queue;
                destination_queue = destination_queue;
                retry_count = count;
                max_retries = max_retries;
                reconciliation_due_at = now + delay;
                last_attempt_at = last_attempt_at;
              })
              db)
      ]

  unfoldable pub release_envelope : MessageEnvelope → Controlled (Unit {0})
  unfolding identity release_delivery
  release_envelope e db = elim (identity e) [
    | err error ↦ (err error, db)
    | ok none ↦ (ok tt, db)
    | ok (some (record_id, generation)) ↦
        from_store (release_delivery lib later record_id generation (now + delay) db)
  ]

  unfoldable pub apply_controlled : CommandDeliveryOutcome → Controlled (Unit {0})
  unfolding apply_outcome
  apply_controlled o db =
      if is_some o.durable_record_id
      then from_store (apply_outcome lib later o (now + delay) db)
      else (ok tt, db)

  -- What is left to do when the store has not taken the completion as that of an occurrence.
  unfoldable pub complete_one_off :
      CommandDeliveryOutcome → HandlerResult → Bool → Controlled (Unit {0})
  unfolding apply_controlled
  complete_one_off o result handled db =
      if handled
      then (ok tt, db)
      else if wants_recurrence result
      then (err recurrence_misuse, db)
      else apply_controlled o db

  -- The store is one of series; `id` and `message_id` are the ids that it makes for a successor.
  unfoldable pub complete_success :
      Calendar → ℕ → String → CommandDeliveryOutcome → HandlerResult → ℕ → Controlled (Unit {0})
  unfolding complete_recurring_success complete_one_off
  complete_success cal id message_id o result completed_at = do
    handled ←
        λ db. from_store (complete_recurring_success lib cal id message_id o result completed_at db)
    complete_one_off o result handled
