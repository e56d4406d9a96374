-- ===== src/Durable/Schedule.antt =====
-- `schedule` and `schedule_recurring` of src/pybus/integrations/django_durable/store.py, with the
-- constraints of src/pybus/integrations/django_durable/models.py. A `uuid4` is an argument.
-- The column `anchor_local` is read by nothing.
pub mod Idempotency
use pybus.Codec.{Fields, Value}
use pybus.Durable.Queries.{
  Store, StoreError, does_not_exist, durable_job_conflict, integrity_error, zone_not_found,
}
use pybus.Durable.Types.{Db, DurableJob, JobSeries, JobSeriesState, is_terminal, pending}
use pybus.Prelude.{
  Bool, List, Option, String, [], any, eqb, false, first_where, if◌then◌else◌, none, not, some, ℕ,
  ◌&&◌, ◌++◌, ◌==◌, ◌||◌, ◌∷◌,
}
use pybus.Prelude.Exec.{Result, atomic, err, ok, pure, ◌>>=◌, ◌>>◌}
use pybus.Recurrence.{Calendar, Recurrence}

pub record DurableJobDraft : Type 0 where
  pub message_id : String
  pub message_type : String
  pub version : ℕ
  pub payload : Value
  pub headers : Fields
  pub created_at : ℕ
  pub available_at : ℕ
  pub queue : String
  pub fingerprint : String
  pub idempotency_key : Option String

pub record JobSeriesDraft : Type 0 where
  pub first_occurrence : DurableJobDraft
  pub recurrence : Recurrence
  pub starts_at : ℕ
  pub fingerprint : String
  pub idempotency_key : Option String

-- A unique column holds no text twice; NULL is no value.
abbrev pub same_key : Option String → Option String → Bool
same_key (some s) (some t) = s == t
same_key _ _ = false

abbrev pub same_number : Option ℕ → Option ℕ → Bool
same_number (some a) (some b) = eqb a b
same_number _ _ = false

-- Two rows that the constraints of the table do not allow together.
unfoldable pub conflicts : DurableJob → DurableJob → Bool
conflicts new j =
    eqb j.id new.id
    || j.message_id == new.message_id
    || same_key j.idempotency_key new.idempotency_key
    || same_number j.series new.series && same_number j.occurrence_number new.occurrence_number
    || same_number j.series new.series && not (is_terminal j.state) && not (is_terminal new.state)

-- `DurableJob.objects.create`
unfoldable pub create_job : DurableJob → Store DurableJob
unfolding conflicts
create_job new db =
    if any (conflicts new) db.jobs
    then (err integrity_error, db)
    else (ok new, record db { jobs = db.jobs ++ new ∷ [] })

-- The row of a draft, with the defaults of the model.
unfoldable pub draft_row : ℕ → DurableJobDraft → Option ℕ → Option ℕ → DurableJob
draft_row id d series occurrence_number = record {
  id = id;
  message_id = d.message_id;
  message_type = d.message_type;
  version = d.version;
  payload = d.payload;
  headers = d.headers;
  created_at = d.created_at;
  available_at = d.available_at;
  queue = d.queue;
  fingerprint = d.fingerprint;
  idempotency_key = d.idempotency_key;
  series = series;
  occurrence_number = occurrence_number;
  state = pending;
  generation = 0;
  retry_count = 0;
  max_retries = none;
  lease_owner = none;
  lease_expires_at = none;
  reconciliation_due_at = none;
  indeterminate_reason = none;
  settlement_status = none;
  settlement_source = none;
  settlement_destination = none;
  last_attempt_at = none;
  started_at = none;
  finished_at = none;
}

-- After an IntegrityError: the job of the same key, if it is the same job.
unfoldable pub existing_job : DurableJobDraft → String → Option DurableJob → Store DurableJob
existing_job d key none db = (err does_not_exist, db)
existing_job d key (some j) db =
    if j.fingerprint == d.fingerprint then (ok j, db) else (err durable_job_conflict, db)

unfoldable pub find_key : String → List DurableJob → Option DurableJob
unfolding first_where
find_key key = first_where (λ j. same_key j.idempotency_key (some key))

unfoldable pub recover_job : DurableJobDraft → Option String → Store DurableJob
unfolding existing_job find_key
recover_job d none db = (err integrity_error, db)
recover_job d (some key) db = existing_job d key (find_key key db.jobs) db

-- `try: … except IntegrityError: …`; the failed `atomic` block has left nothing behind.
abbrev pub on_integrity_error :
    {A : Type 0} → Store A → Result StoreError A × Db → Result StoreError A × Db
on_integrity_error handler (err integrity_error, db) = handler db
on_integrity_error handler (r, db) = (r, db)

unfoldable pub schedule : ℕ → DurableJobDraft → Store DurableJob
unfolding create_job draft_row recover_job
schedule id d db =
    on_integrity_error (recover_job d d.idempotency_key)
      (atomic (create_job (draft_row id d none none)) db)

unfoldable pub series_conflicts : JobSeries → JobSeries → Bool
series_conflicts new s = eqb s.id new.id || same_key s.idempotency_key new.idempotency_key

-- `JobSeries.objects.create`
unfoldable pub create_series : JobSeries → Store JobSeries
unfolding series_conflicts
create_series new db =
    if any (series_conflicts new) db.series
    then (err integrity_error, db)
    else (ok new, record db { series = db.series ++ new ∷ [] })

unfoldable pub series_row : ℕ → JobSeriesDraft → JobSeries
series_row id d = record {
  id = id;
  message_type = d.first_occurrence.message_type;
  version = d.first_occurrence.version;
  payload = d.first_occurrence.payload;
  headers = d.first_occurrence.headers;
  queue = d.first_occurrence.queue;
  cadence = d.recurrence.cadence;
  timezone = d.recurrence.timezone;
  starts_at = d.starts_at;
  ends_at = d.recurrence.ends_at;
  fingerprint = d.fingerprint;
  idempotency_key = d.idempotency_key;
  state = JobSeriesState.active;
  latest_occurrence_number = 1;
  created_at = d.first_occurrence.created_at;
  finished_at = none;
}

unfoldable pub is_occurrence : ℕ → ℕ → DurableJob → Bool
is_occurrence series number j =
    same_number j.series (some series) && same_number j.occurrence_number (some number)

-- `.get(series=…, occurrence_number=…)`
unfoldable pub find_occurrence : ℕ → ℕ → List DurableJob → Option DurableJob
unfolding first_where is_occurrence
find_occurrence series number = first_where (is_occurrence series number)

unfoldable pub latest_occurrence : JobSeries → Store (JobSeries × DurableJob)
unfolding find_occurrence
latest_occurrence s db = elim (find_occurrence s.id s.latest_occurrence_number db.jobs) [
  | none ↦ (err does_not_exist, db)
  | some j ↦ (ok (s, j), db)
]

unfoldable pub existing_series : JobSeriesDraft → Option JobSeries → Store (JobSeries × DurableJob)
unfolding latest_occurrence
existing_series d none db = (err durable_job_conflict, db)
existing_series d (some s) db =
    if s.fingerprint == d.fingerprint
    then latest_occurrence s db
    else (err durable_job_conflict, db)

unfoldable pub recover_series : JobSeriesDraft → Option String → Store (JobSeries × DurableJob)
unfolding existing_series first_where
recover_series d none db = (err integrity_error, db)
recover_series d (some key) db =
    existing_series d (first_where (λ s. same_key s.idempotency_key (some key)) db.series) db

-- The series with its latest occurrence: `_series_record` and `_record` are read off the two rows.
unfoldable pub schedule_recurring :
    Calendar → ℕ → ℕ → JobSeriesDraft → Store (JobSeries × DurableJob)
unfolding create_series create_job series_row draft_row recover_series
schedule_recurring cal series_id job_id d db = elim (cal.zone d.recurrence.timezone) [
  | none ↦ (err zone_not_found, db)
  | some zone ↦ on_integrity_error (recover_series d d.idempotency_key) (
      atomic
        (do
          series ← create_series (series_row series_id d)
          occurrence ← create_job (draft_row job_id d.first_occurrence (some series_id) (some 1))
          pure (series, occurrence))
        db)
]
