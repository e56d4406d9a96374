-- ===== src/Durable/Series.antt =====
-- `cancel_recurring` and `complete_recurring_success` of
-- src/pybus/integrations/django_durable/store.py. A `uuid4` is an argument.
pub mod Completion
use mathlib.Core.Option
use pybus.Codec.{Stdlib}
use pybus.Durable.Queries.{
  Store, StoreError, cancel_occurrence, does_not_exist, find_series, finish_series,
  invalid_message_definition, is_active, is_running, job_series_not_found, recurrence_error,
  save_job, validation_error, write_series,
}
use pybus.Durable.Schedule.{
  create_job, draft_row, find_occurrence, is_occurrence, latest_occurrence,
}
use pybus.Durable.Settle.{CommandDeliveryOutcome, outcome_filter, succeed_row}
use pybus.Durable.Types.{
  Db, DurableJob, DurableJobState, JobSeries, JobSeriesState, claimed, indeterminate, pending,
  published, settling,
}
use pybus.Prelude.{
  Bool, Option, String, false, first_where, if◌then◌else◌, leb, none, not, some, true, ℕ, ◌+◌,
}
use pybus.Prelude.Exec.{Result, atomic, err, ok, ◌>>◌}
use pybus.Recurrence.{Calendar, Recurrence, bounded, next_cadence_at}

-- What a handler of a recurring job returned: None, `ScheduleNextOccurrence(at)`, `EndRecurrence()` or
-- anything else.
pub data HandlerResult : Type 0 where
  nothing : HandlerResult
  schedule_next_occurrence : ℕ → HandlerResult
  end_recurrence : HandlerResult
  other : HandlerResult

-- The live states that a cancellation ends; a running job is left to its handler.
abbrev pub is_cancellable : DurableJobState → Bool
is_cancellable pending = true
is_cancellable claimed = true
is_cancellable published = true
is_cancellable settling = true
is_cancellable indeterminate = true
is_cancellable _ = false

-- The rows of an active series and of its latest occurrence, cancelled.
unfoldable pub cancel_rows : ℕ → JobSeries → DurableJob → Db → Db
unfolding finish_series save_job
cancel_rows cancelled_at s j db =
    let db' = finish_series s.id JobSeriesState.cancelled cancelled_at db in
    if is_cancellable j.state
    then save_job (is_occurrence s.id s.latest_occurrence_number) (cancel_occurrence cancelled_at)
        db'
    else db'

unfoldable pub cancel_locked : ℕ → JobSeries → Store (JobSeries × DurableJob)
unfolding latest_occurrence cancel_rows
cancel_locked cancelled_at s db = elim (find_occurrence s.id s.latest_occurrence_number db.jobs) [
  | none ↦ (err does_not_exist, db)
  | some j ↦
      if is_active s.state
      then (
        ok (
          record s { state = JobSeriesState.cancelled; finished_at = some cancelled_at },
          (if is_cancellable j.state then cancel_occurrence cancelled_at j else j),
        ),
        cancel_rows cancelled_at s j db,
      )
      else (ok (s, j), db)
]

unfoldable pub cancel_recurring : Stdlib → String → ℕ → Store (JobSeries × DurableJob)
unfolding cancel_locked find_series
cancel_recurring lib series_id cancelled_at db = elim (lib.parse_uuid series_id) [
  | none ↦ (err job_series_not_found, db)
  | some i ↦ elim (find_series i db.series) [
    | none ↦ (err job_series_not_found, db)
    | some s ↦ atomic (cancel_locked cancelled_at s) db
  ]
]

-- `_recurrence`
abbrev pub series_recurrence : JobSeries → Recurrence
series_recurrence s = record { cadence = s.cadence; timezone = s.timezone; ends_at = s.ends_at }

-- When the next occurrence runs; `ok none` ends the series.
unfoldable pub next_run : Calendar → JobSeries → HandlerResult → ℕ → Result StoreError (Option ℕ)
unfolding next_cadence_at bounded
next_run cal s nothing completed_at =
    elim (next_cadence_at cal (series_recurrence s) s.starts_at completed_at) [
      | err e ↦ err (recurrence_error e)
      | ok at ↦ ok at
    ]
next_run cal s (schedule_next_occurrence at) completed_at =
    if leb at completed_at then err invalid_message_definition else ok (bounded s.ends_at at)
next_run cal s end_recurrence completed_at = ok none
next_run cal s other completed_at = err invalid_message_definition

-- The row of the next occurrence.
unfoldable pub successor : ℕ → String → JobSeries → ℕ → ℕ → DurableJob
unfolding draft_row
successor id message_id s completed_at next_at =
    draft_row id
      (record {
        message_id = message_id;
        message_type = s.message_type;
        version = s.version;
        payload = s.payload;
        headers = s.headers;
        created_at = completed_at;
        available_at = next_at;
        queue = s.queue;
        fingerprint = s.fingerprint;
        idempotency_key = none;
      })
      (some s.id) (some (s.latest_occurrence_number + 1))

unfoldable pub advance_series : ℕ → String → JobSeries → ℕ → Option ℕ → Store Bool
unfolding successor create_job finish_series write_series
advance_series id message_id s completed_at none db =
    (ok true, finish_series s.id JobSeriesState.completed completed_at db)
advance_series id message_id s completed_at (some next_at) db =
    (do
      create_job (successor id message_id s completed_at next_at)
      λ db'. (
        ok true,
        write_series s.id
            (λ r. record r { latest_occurrence_number = s.latest_occurrence_number + 1 }) db',
      ))
      db

unfoldable pub succeed_running :
    Calendar → ℕ → String → HandlerResult → ℕ → (DurableJob → Bool) → JobSeries → Store Bool
unfolding next_run advance_series save_job succeed_row
succeed_running cal id message_id result completed_at owned s db =
    let db' = save_job owned (succeed_row completed_at) db in
    if not (is_active s.state) then (ok true, db') else elim (next_run cal s result completed_at) [
      | err e ↦ (err e, db')
      | ok at ↦ advance_series id message_id s completed_at at db'
    ]

abbrev pub is_recurrence_result : HandlerResult → Bool
is_recurrence_result other = false
is_recurrence_result _ = true

-- The body of the transaction, over the locked series and the row as the filter `owned` reads it again.
unfoldable pub complete_locked :
    Calendar
    → ℕ
    → String
    → HandlerResult
    → ℕ
    → (DurableJob → Bool)
    → JobSeries
    → Option DurableJob
    → Store Bool
unfolding succeed_running
complete_locked cal id message_id result completed_at owned s none db = (ok true, db)
complete_locked cal id message_id result completed_at owned s (some j) db =
    if not (is_running j.state)
    then (ok true, db)
    else if not (is_recurrence_result result)
    then (err invalid_message_definition, db)
    else succeed_running cal id message_id result completed_at owned s db

unfoldable pub complete_series :
    Calendar → ℕ → String → HandlerResult → ℕ → (DurableJob → Bool) → ℕ → Store Bool
unfolding complete_locked find_series first_where
complete_series cal id message_id result completed_at owned i db = elim (find_series i db.series) [
  | none ↦ (err does_not_exist, db)
  | some s ↦
      complete_locked cal id message_id result completed_at owned s (first_where owned db.jobs) db
]

-- No such row, or a row of no series: False, and the outcome is settled as that of a one-off job.
unfoldable pub complete_found :
    Calendar → ℕ → String → HandlerResult → ℕ → (DurableJob → Bool) → Option (Option ℕ) → Store Bool
unfolding complete_series
complete_found cal id message_id result completed_at owned (some (some i)) db =
    atomic (complete_series cal id message_id result completed_at owned i) db
complete_found cal id message_id result completed_at owned _ db = (ok false, db)

unfoldable pub complete_recurring_success :
    Stdlib → Calendar → ℕ → String → CommandDeliveryOutcome → HandlerResult → ℕ → Store Bool
unfolding complete_found first_where
complete_recurring_success lib cal id message_id o result completed_at db =
    elim o.durable_record_id [
      | none ↦ (ok false, db)
      | some record_id ↦ elim o.durable_generation [
        | none ↦ (ok false, db)
        | some generation ↦ elim (lib.parse_uuid record_id) [
          | none ↦ (err validation_error, db)
          | some i ↦
              let owned = outcome_filter o i generation in
              complete_found cal id message_id result completed_at owned
                (Option.map (λ j. j.series) (first_where owned db.jobs)) db
        ]
      ]
    ]
