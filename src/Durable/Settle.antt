-- ===== src/Durable/Settle.antt =====
-- `checkpoint_settlement`, `release_delivery`, `apply_outcome`, `_guarded_series_update` and
-- `_finish_dead_letter_from_outcome` of src/pybus/integrations/django_durable/store.py.
-- `now` is `timezone.now()`. A filter on a text that is no UUID raises ValidationError.
use pybus.Codec.{Stdlib}
use pybus.Durable.Publish.{fail_active_series}
use pybus.Durable.Queries.{
  Store, cancel_occurrence, is_active, is_cancelled, is_running, is_settling, lock_series, or_text,
  runtime_error, validation_error, write_jobs,
}
use pybus.Durable.Types.{
  CommandDeliveryStatus, DurableJob, DurableJobState, JobSeries, continued, published,
  retry_scheduled, settling,
}
use pybus.Prelude.{
  Bool, Option, String, any, eqb, first_where, if◌then◌else◌, is_some, keep, leb, length, none, not,
  opt_eqb, some, ℕ, ◌&&◌, ◌==◌,
}
use pybus.Prelude.Exec.{atomic, err, ok, pure, ◌>>=◌}

-- `CommandDeliveryOutcome` of src/pybus/delivery.py
pub record CommandDeliveryOutcome : Type 0 where
  pub status : CommandDeliveryStatus
  pub message_id : String
  pub message_type : String
  pub version : ℕ
  pub source_queue : String
  pub destination_queue : Option String
  pub retry_count : ℕ
  pub max_retries : ℕ
  pub durable_record_id : Option String
  pub durable_generation : Option ℕ

pub record DurableSettlement : Type 0 where
  pub record_id : String
  pub generation : ℕ
  pub status : CommandDeliveryStatus
  pub source_queue : String
  pub destination_queue : Option String
  pub retry_count : ℕ
  pub max_retries : ℕ
  pub reconciliation_due_at : ℕ
  pub last_attempt_at : Option ℕ

-- `_guarded_series_update` of a row that belongs to a series, under the series' lock. `guard` is the
-- filters with the expected state. The answer is the number of rows written.
unfoldable pub guarded_locked :
    (DurableJob → Bool) → (DurableJob → DurableJob) → ℕ → JobSeries → Store ℕ
unfolding write_jobs
guarded_locked guard values cancelled_at s db =
    if not (any guard db.jobs)
    then (ok 0, db)
    else if is_cancelled s.state
    then (ok 1, write_jobs guard (cancel_occurrence cancelled_at) db)
    else if not (is_active s.state)
    then (ok 0, db)
    else (ok 1, write_jobs guard values db)

-- The branch of a one-off job writes with no lock.
unfoldable pub guarded_found :
    (DurableJob → Bool) → (DurableJob → DurableJob) → ℕ → Option JobSeries → Store ℕ
unfolding write_jobs guarded_locked
guarded_found guard values cancelled_at none db =
    (ok (length (keep guard db.jobs)), write_jobs guard values db)
guarded_found guard values cancelled_at (some s) db = guarded_locked guard values cancelled_at s db

unfoldable pub guarded_series_update :
    (DurableJob → Bool) → (DurableJobState → Bool) → (DurableJob → DurableJob) → ℕ → Store ℕ
unfolding guarded_found lock_series first_where
guarded_series_update filters expected values cancelled_at db = elim (first_where filters db.jobs) [
  | none ↦ (ok 0, db)
  | some snapshot ↦
      atomic
        (do
          series ← lock_series snapshot.series
          guarded_found (λ j. filters j && expected j.state) values cancelled_at series)
        db
]

-- `if updated != 1: raise RuntimeError`
unfoldable pub require_one : ℕ → Store (Unit {0})
require_one n db = if eqb n 1 then (ok tt, db) else (err runtime_error, db)

-- The filters of a settlement, for the row `i`.
unfoldable pub settlement_filter : DurableSettlement → ℕ → DurableJob → Bool
settlement_filter s i j =
    eqb j.id i
    && eqb j.generation s.generation
    && leb j.retry_count s.retry_count
    && opt_eqb j.max_retries (some s.max_retries)

unfoldable pub checkpoint_row : DurableSettlement → DurableJob → DurableJob
checkpoint_row s j = record j {
  state = settling;
  retry_count = s.retry_count;
  settlement_status = some s.status;
  settlement_source = some s.source_queue;
  settlement_destination = s.destination_queue;
  queue = or_text s.destination_queue s.source_queue;
  reconciliation_due_at = some s.reconciliation_due_at;
  last_attempt_at = if is_some s.last_attempt_at then s.last_attempt_at else j.last_attempt_at;
}

unfoldable pub checkpoint_settlement : Stdlib → ℕ → DurableSettlement → Store (Unit {0})
unfolding guarded_series_update require_one
checkpoint_settlement lib now s db = elim (lib.parse_uuid s.record_id) [
  | none ↦ (err validation_error, db)
  | some i ↦
      (do
        updated ← guarded_series_update (settlement_filter s i) is_running (checkpoint_row s) now
        require_one updated)
        db
]

unfoldable pub release_row : ℕ → DurableJob → DurableJob
release_row reconciliation_due_at j = record j {
  state = published;
  reconciliation_due_at = some reconciliation_due_at;
  started_at = none;
}

unfoldable pub release_delivery : Stdlib → ℕ → String → ℕ → ℕ → Store (Unit {0})
unfolding guarded_series_update require_one
release_delivery lib now record_id generation reconciliation_due_at db =
    elim (lib.parse_uuid record_id) [
      | none ↦ (err validation_error, db)
      | some i ↦
          (do
            updated ←
                guarded_series_update (λ j. eqb j.id i && eqb j.generation generation) is_running
                  (release_row reconciliation_due_at) now
            require_one updated)
            db
    ]

-- The filters of `apply_outcome`.
unfoldable pub outcome_filter : CommandDeliveryOutcome → ℕ → ℕ → DurableJob → Bool
outcome_filter o i generation j =
    eqb j.id i
    && eqb j.generation generation
    && j.message_id == o.message_id
    && j.message_type == o.message_type
    && eqb j.version o.version

unfoldable pub succeed_row : ℕ → DurableJob → DurableJob
succeed_row finished_at j = record j {
  state = DurableJobState.succeeded;
  lease_owner = none;
  lease_expires_at = none;
  reconciliation_due_at = none;
  finished_at = some finished_at;
}

unfoldable pub dead_letter_settled : CommandDeliveryOutcome → ℕ → DurableJob → DurableJob
dead_letter_settled o finished_at j = record j {
  state = DurableJobState.dead_lettered;
  queue = or_text o.destination_queue o.source_queue;
  lease_owner = none;
  lease_expires_at = none;
  reconciliation_due_at = none;
  finished_at = some finished_at;
}

unfoldable pub dead_letter_outcome_locked :
    CommandDeliveryOutcome → ℕ → ℕ → ℕ → Option JobSeries → Store (Unit {0})
unfolding write_jobs fail_active_series
dead_letter_outcome_locked o i generation finished_at series db =
    let owned =
      λ (j : DurableJob). eqb j.id i && eqb j.generation generation && is_settling j.state in
    if any owned db.jobs
    then (
      ok tt,
      fail_active_series series finished_at
          (write_jobs owned (dead_letter_settled o finished_at) db),
    )
    else (ok tt, db)

-- `_finish_dead_letter_from_outcome`
unfoldable pub finish_dead_letter_from_outcome :
    CommandDeliveryOutcome → ℕ → ℕ → ℕ → Store (Unit {0})
unfolding dead_letter_outcome_locked lock_series first_where
finish_dead_letter_from_outcome o i generation now db =
    elim (first_where (outcome_filter o i generation) db.jobs) [
      | none ↦ (ok tt, db)
      | some snapshot ↦
          atomic
            (do
              series ← lock_series snapshot.series
              dead_letter_outcome_locked o i generation now series)
            db
    ]

unfoldable pub republish_row : CommandDeliveryOutcome → ℕ → DurableJob → DurableJob
republish_row o reconciliation_due_at j = record j {
  state = published;
  queue = or_text o.destination_queue o.source_queue;
  retry_count = o.retry_count;
  settlement_status = none;
  settlement_source = none;
  settlement_destination = none;
  reconciliation_due_at = some reconciliation_due_at;
}

unfoldable pub republish : CommandDeliveryOutcome → ℕ → ℕ → ℕ → ℕ → Store (Unit {0})
unfolding guarded_series_update
republish o i generation now reconciliation_due_at = do
  updated ←
      guarded_series_update (outcome_filter o i generation) is_settling
        (republish_row o reconciliation_due_at) now
  pure tt

unfoldable pub apply_status :
    CommandDeliveryStatus → CommandDeliveryOutcome → ℕ → ℕ → ℕ → ℕ → Store (Unit {0})
unfolding finish_dead_letter_from_outcome republish write_jobs
apply_status CommandDeliveryStatus.started o i generation now due db = (ok tt, db)
apply_status CommandDeliveryStatus.succeeded o i generation now due db = (
  ok tt,
  write_jobs (λ j. outcome_filter o i generation j && is_running j.state) (succeed_row now) db,
)
apply_status CommandDeliveryStatus.dead_lettered o i generation now due db =
    finish_dead_letter_from_outcome o i generation now db
apply_status retry_scheduled o i generation now due db = republish o i generation now due db
apply_status continued o i generation now due db = republish o i generation now due db

unfoldable pub apply_identified :
    Stdlib → ℕ → CommandDeliveryOutcome → ℕ → Option String → Option ℕ → Store (Unit {0})
unfolding apply_status
apply_identified lib now o due (some record_id) (some generation) db =
    elim (lib.parse_uuid record_id) [
      | none ↦ (err validation_error, db)
      | some i ↦ apply_status o.status o i generation now due db
    ]
apply_identified lib now o due _ _ db = (ok tt, db)

unfoldable pub apply_outcome : Stdlib → ℕ → CommandDeliveryOutcome → ℕ → Store (Unit {0})
unfolding apply_identified
apply_outcome lib now o due =
    apply_identified lib now o due o.durable_record_id o.durable_generation
