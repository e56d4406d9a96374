-- ===== src/Durable/Claim.antt =====
-- `DjangoDurableJobStore.claim`: src/pybus/integrations/django_durable/store.py.
-- The row lock makes the body one step, so the guarded last update finds the row as it was read; its
-- count is tested all the same.
pub mod Order
pub mod Choice
use mathlib.Core.Option
use pybus.Codec.{Fields, Value}
use pybus.Durable.Life.{find_job}
use pybus.Durable.Queries.{
  Store, cancel_occurrence, is_cancelled, is_claimed, is_pending, is_running, is_sent, is_settling,
  same_state, series_is, series_open, worker_abort, write_jobs,
}
use pybus.Durable.Types.{
  CommandDeliveryStatus, Db, DurableJob, JobSeries, claimed, handler_outcome, indeterminate,
}
use pybus.Prelude.{
  Bool, List, Option, String, [], any, eqb, false, if◌then◌else◌, is_some, leb, ltb, none, some,
  some_and, true, ℕ, ◌&&◌, ◌+◌, ◌||◌, ◌∷◌,
}
use pybus.Prelude.Exec.{err, ok}

-- `DurableJobClaim` of src/pybus/durable.py
pub record DurableJobClaim : Type 0 where
  pub id : ℕ
  pub message_id : String
  pub message_type : String
  pub version : ℕ
  pub payload : Value
  pub headers : Fields
  pub created_at : ℕ
  pub queue : String
  pub generation : ℕ
  pub retry_count : ℕ
  pub settlement_status : Option CommandDeliveryStatus
  pub settlement_source : Option String
  pub last_attempt_at : Option ℕ

-- `DurableJobClaim.from_record(self._record(model))`
unfoldable pub from_record : DurableJob → DurableJobClaim
from_record j = record {
  id = j.id;
  message_id = j.message_id;
  message_type = j.message_type;
  version = j.version;
  payload = j.payload;
  headers = j.headers;
  created_at = j.created_at;
  queue = j.queue;
  generation = j.generation;
  retry_count = j.retry_count;
  settlement_status = j.settlement_status;
  settlement_source = j.settlement_source;
  last_attempt_at = j.last_attempt_at;
}

-- `lease_expires_at__lt=now`
abbrev pub lease_expired : ℕ → DurableJob → Bool
lease_expired now j = some_and (λ t. ltb t now) j.lease_expires_at

-- `reconciliation_due_at__lte=now`
abbrev pub is_due : ℕ → DurableJob → Bool
is_due now j = some_and (λ t. leb t now) j.reconciliation_due_at

unfoldable pub cancelled_reclaimable : ℕ → List JobSeries → DurableJob → Bool
cancelled_reclaimable now series j =
    (is_claimed j.state && lease_expired now j
      || (is_sent j.state || is_running j.state || is_settling j.state) && is_due now j)
    && series_is is_cancelled series j

-- A running job whose outcome never came, with no retry left.
unfoldable pub exhausted : ℕ → List JobSeries → DurableJob → Bool
exhausted now series j =
    series_open series j
    && is_running j.state
    && is_due now j
    && some_and (λ m. leb m j.retry_count) j.max_retries

unfoldable pub mark_exhausted : DurableJob → DurableJob
mark_exhausted j = record j {
  state = indeterminate;
  reconciliation_due_at = none;
  indeterminate_reason = some handler_outcome;
}

unfoldable pub claimable : ℕ → DurableJob → Bool
claimable now j =
    is_pending j.state
    || is_claimed j.state && lease_expired now j
    || is_sent j.state && is_due now j
    || is_running j.state && is_due now j
    || is_settling j.state && is_due now j

-- The filter of the query that picks a job.
unfoldable pub eligible : ℕ → List JobSeries → DurableJob → Bool
eligible now series j = claimable now j && series_open series j && leb j.available_at now

-- `order_by("created_at", "id")`
unfoldable pub comes_before : DurableJob → DurableJob → Bool
comes_before a b = ltb a.created_at b.created_at || eqb a.created_at b.created_at && ltb a.id b.id

unfoldable pub sooner : DurableJob → Option DurableJob → Option DurableJob
sooner j none = some j
sooner j (some k) = if comes_before k j then some k else some j

-- `.filter(p).order_by("created_at", "id").first()`
unfoldable pub earliest : (DurableJob → Bool) → List DurableJob → Option DurableJob
unfolding sooner comes_before
earliest p [] = none
earliest p (j ∷ js) = let rest = earliest p js in if p j then sooner j rest else rest

-- `claim_values`. With no settlement pending, its two queues are cleared.
unfoldable pub claim_row : String → ℕ → ℕ → DurableJob → DurableJob
claim_row worker_id now lease_expires_at j = record j {
  state = claimed;
  generation = j.generation + 1;
  retry_count = if is_running j.state then j.retry_count + 1 else j.retry_count;
  lease_owner = some worker_id;
  lease_expires_at = some lease_expires_at;
  reconciliation_due_at = none;
  indeterminate_reason = none;
  last_attempt_at = if is_running j.state then some now else j.last_attempt_at;
  settlement_source = if is_some j.settlement_status then j.settlement_source else none;
  settlement_destination = if is_some j.settlement_status then j.settlement_destination else none;
}

-- `.filter(id=model.id, state=previous_state, generation=previous_generation)`
unfoldable pub same_version : DurableJob → DurableJob → Bool
same_version model j =
    eqb j.id model.id && same_state model.state j.state && eqb j.generation model.generation

-- The two bulk updates that come before the query.
unfoldable pub sweep : ℕ → Db → Db
unfolding write_jobs
sweep now db =
    write_jobs (exhausted now db.series) mark_exhausted
      (write_jobs (cancelled_reclaimable now db.series) (cancel_occurrence now) db)

-- The guarded update of the picked row, and the claim of the row read back.
unfoldable pub take_job : String → ℕ → ℕ → Option DurableJob → Store (Option DurableJobClaim)
unfolding write_jobs find_job
take_job worker_id now lease_expires_at none db = (ok none, db)
take_job worker_id now lease_expires_at (some model) db =
    let db' = write_jobs (same_version model) (claim_row worker_id now lease_expires_at) db in
    if any (same_version model) db.jobs
    then (ok (Option.map from_record (find_job model.id db'.jobs)), db')
    else (ok none, db')

unfoldable pub claim : Bool → String → ℕ → ℕ → Store (Option DurableJobClaim)
unfolding sweep earliest take_job
claim true worker_id now lease_expires_at db = (err worker_abort, db)
claim false worker_id now lease_expires_at db =
    let swept = sweep now db in
    take_job worker_id now lease_expires_at (earliest (eligible now swept.series) swept.jobs) swept
