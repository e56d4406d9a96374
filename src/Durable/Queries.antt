-- ===== src/Durable/Queries.antt =====
-- The row filters and row writes that the methods of `DjangoDurableJobStore` share
-- (src/pybus/integrations/django_durable/store.py), over the tables as lists.
use pybus.Durable.Types.{
  CommandDeliveryStatus, Db, DurableJob, DurableJobState, JobSeries, JobSeriesState, claimed,
  indeterminate, pending, published, running, settling,
}
use pybus.Prelude.{
  Bool, List, Option, String, eqb, false, first_where, if◌then◌else◌, is_some, none, some, some_and,
  true, update_first, update_where, ℕ, ◌==◌,
}
use pybus.Prelude.Exec.{Exec, err, ok}
use pybus.Recurrence.{RecurrenceError}

-- The exceptions that the store lets out.
pub data StoreError : Type 0 where
  worker_abort integrity_error durable_job_conflict invalid_message_definition : StoreError
  job_series_not_found does_not_exist validation_error runtime_error zone_not_found : StoreError
  recurrence_error : RecurrenceError → StoreError

abbrev pub Store : Type 0 → Type 0
Store A = Exec Db StoreError A

abbrev pub is_pending : DurableJobState → Bool
is_pending pending = true
is_pending _ = false

abbrev pub is_claimed : DurableJobState → Bool
is_claimed claimed = true
is_claimed _ = false

abbrev pub is_running : DurableJobState → Bool
is_running running = true
is_running _ = false

abbrev pub is_settling : DurableJobState → Bool
is_settling settling = true
is_settling _ = false

-- `{PUBLISHED, INDETERMINATE}`
abbrev pub is_sent : DurableJobState → Bool
is_sent published = true
is_sent indeterminate = true
is_sent _ = false

abbrev pub is_active : JobSeriesState → Bool
is_active JobSeriesState.active = true
is_active _ = false

abbrev pub is_cancelled : JobSeriesState → Bool
is_cancelled JobSeriesState.cancelled = true
is_cancelled _ = false

abbrev pub is_dead_letter : Option CommandDeliveryStatus → Bool
is_dead_letter (some CommandDeliveryStatus.dead_lettered) = true
is_dead_letter _ = false

abbrev pub by_id : ℕ → DurableJob → Bool
by_id i j = eqb j.id i

unfoldable pub find_series : ℕ → List JobSeries → Option JobSeries
unfolding first_where
find_series i = first_where (λ s. eqb s.id i)

-- The filter on `series__state`, which a row with no series does not pass.
unfoldable pub series_is : (JobSeriesState → Bool) → List JobSeries → DurableJob → Bool
unfolding find_series
series_is p series j = some_and (λ i. some_and (λ s. p s.state) (find_series i series)) j.series

-- `Q(series__isnull=True) | Q(series__state=ACTIVE)`
unfoldable pub series_open : List JobSeries → DurableJob → Bool
unfolding series_is
series_open series j = if is_some j.series then series_is is_active series j else true

-- `_cancel_occurrence`, and the same five assignments where they are written out.
unfoldable pub cancel_occurrence : ℕ → DurableJob → DurableJob
cancel_occurrence cancelled_at j = record j {
  state = DurableJobState.cancelled;
  lease_owner = none;
  lease_expires_at = none;
  reconciliation_due_at = none;
  finished_at = some cancelled_at;
}

-- `.filter(…).update(…)`: a write to the rows that pass.
unfoldable pub write_jobs : (DurableJob → Bool) → (DurableJob → DurableJob) → Db → Db
unfolding update_where
write_jobs p f db = record db { jobs = update_where p f db.jobs }

-- `model.save(update_fields=…)` on the row that the filter found.
unfoldable pub save_job : (DurableJob → Bool) → (DurableJob → DurableJob) → Db → Db
unfolding update_first
save_job p f db = record db { jobs = update_first p f db.jobs }

unfoldable pub write_series : ℕ → (JobSeries → JobSeries) → Db → Db
unfolding update_where
write_series i f db = record db { series = update_where (λ s. eqb s.id i) f db.series }

-- `_finish_series`
unfoldable pub finish_series : ℕ → JobSeriesState → ℕ → Db → Db
unfolding write_series
finish_series i state finished_at =
    write_series i (λ s. record s { state = state; finished_at = some finished_at })

-- `_lock_series`: `get` raises if there is no such row.
unfoldable pub lock_series : Option ℕ → Store (Option JobSeries)
unfolding find_series
lock_series none db = (ok none, db)
lock_series (some i) db = elim (find_series i db.series) [
  | none ↦ (err does_not_exist, db)
  | some s ↦ (ok (some s), db)
]

-- `state=…` between two values of the column.
unfoldable pub state_number : DurableJobState → ℕ
state_number pending = 0
state_number claimed = 1
state_number published = 2
state_number running = 3
state_number settling = 4
state_number indeterminate = 5
state_number DurableJobState.succeeded = 6
state_number DurableJobState.dead_lettered = 7
state_number DurableJobState.cancelled = 8

unfoldable pub same_state : DurableJobState → DurableJobState → Bool
unfolding state_number
same_state s t = eqb (state_number s) (state_number t)

-- Python's `x or y` on texts: a missing or empty `x` gives way.
abbrev pub or_text : Option String → String → String
or_text none y = y
or_text (some x) y = if x == "" then y else x
