-- ===== src/Durable/Types.antt =====
-- The states of a durable job and of a series, and the rows of the two tables:
-- src/pybus/durable.py, src/pybus/recurrence.py, src/pybus/delivery.py and
-- src/pybus/integrations/django_durable/models.py. An aware datetime is its instant, in
-- microseconds; a UUID is its 128-bit number. The column `updated_at` is read by nothing.
use pybus.Codec.{Fields, Value}
use pybus.Prelude.{Bool, List, Option, String, false, true, ℕ}
use pybus.Recurrence.{RecurrenceCadence}

pub data DurableJobState : Type 0 where
  pending claimed published running settling indeterminate : DurableJobState
  succeeded dead_lettered cancelled : DurableJobState

pub data JobSeriesState : Type 0 where
  active completed failed cancelled : JobSeriesState

pub data CommandDeliveryStatus : Type 0 where
  started succeeded continued retry_scheduled dead_lettered : CommandDeliveryStatus

pub data DurableDeliveryDecision : Type 0 where
  proceed drop abort : DurableDeliveryDecision

-- The two texts that the column `indeterminate_reason` takes.
pub data IndeterminateReason : Type 0 where
  handler_outcome publication_acknowledgement : IndeterminateReason

pub record JobSeries : Type 0 where
  pub id : ℕ
  pub message_type : String
  pub version : ℕ
  pub payload : Value
  pub headers : Fields
  pub queue : String
  pub cadence : RecurrenceCadence
  pub timezone : String
  pub starts_at : ℕ
  pub ends_at : Option ℕ
  pub fingerprint : String
  pub idempotency_key : Option String
  pub state : JobSeriesState
  pub latest_occurrence_number : ℕ
  pub created_at : ℕ
  pub finished_at : Option ℕ

pub record DurableJob : Type 0 where
  pub id : ℕ
  pub message_id : String
  pub message_type : String
  pub version : ℕ
  pub payload : Value
  pub headers : Fields
  pub created_at : ℕ
  pub available_at : ℕ
  pub queue : String
  pub fingerprint : String
  pub idempotency_key : Option String
  pub series : Option ℕ
  pub occurrence_number : Option ℕ
  pub state : DurableJobState
  pub generation : ℕ
  pub retry_count : ℕ
  pub max_retries : Option ℕ
  pub lease_owner : Option String
  pub lease_expires_at : Option ℕ
  pub reconciliation_due_at : Option ℕ
  pub indeterminate_reason : Option IndeterminateReason
  pub settlement_status : Option CommandDeliveryStatus
  pub settlement_source : Option String
  pub settlement_destination : Option String
  pub last_attempt_at : Option ℕ
  pub started_at : Option ℕ
  pub finished_at : Option ℕ

-- The two tables of one database.
pub record Db : Type 0 where
  pub jobs : List DurableJob
  pub series : List JobSeries

abbrev pub is_terminal : DurableJobState → Bool
is_terminal DurableJobState.succeeded = true
is_terminal DurableJobState.dead_lettered = true
is_terminal DurableJobState.cancelled = true
is_terminal _ = false
