-- ===== src/Durable/Admit.antt =====
-- `admit_delivery` of src/pybus/integrations/django_durable/store.py: whether a delivered copy of a
-- durable job may reach its handler. `now` is `timezone.now()`.
pub mod Fits
pub mod Fencing
use pybus.Codec.{Fields, Stdlib, Value, dict, dumps}
use pybus.Durable.Life.{find_job}
use pybus.Durable.Queries.{
  Store, by_id, cancel_occurrence, is_active, is_cancelled, is_running, lock_series, save_job,
}
use pybus.Durable.Types.{
  DurableDeliveryDecision, DurableJob, DurableJobState, IndeterminateReason, JobSeries, claimed,
  drop, indeterminate, is_terminal, proceed, publication_acknowledgement, published, running,
  settling,
}
use pybus.Prelude.{
  Bool, Option, String, eqb, false, if◌then◌else◌, is_some, ltb, none, not, opt_eqb, or_else, some,
  true, ℕ, ◌&&◌, ◌==◌, ◌||◌,
}
use pybus.Prelude.Exec.{atomic, ok, ◌>>=◌, ◌>>◌}

pub record DurableDeliveryAdmission : Type 0 where
  pub record_id : String
  pub generation : ℕ
  pub source_queue : String
  pub retry_count : ℕ
  pub max_retries : ℕ
  pub message_id : String
  pub message_type : String
  pub version : ℕ
  pub payload : Value
  pub application_headers : Fields
  pub last_attempt_at : Option ℕ
  pub admitted_at : Option ℕ
  pub reconciliation_due_at : Option ℕ

-- `{CLAIMED, PUBLISHED, SETTLING, INDETERMINATE}`
abbrev pub is_deliverable : DurableJobState → Bool
is_deliverable claimed = true
is_deliverable published = true
is_deliverable settling = true
is_deliverable indeterminate = true
is_deliverable _ = false

-- The job is indeterminate for another reason than an unconfirmed publication.
abbrev pub outcome_unknown : DurableJobState → Option IndeterminateReason → Bool
outcome_unknown indeterminate (some publication_acknowledgement) = false
outcome_unknown indeterminate _ = true
outcome_unknown _ _ = false

-- What is done with the locked row.
pub data Verdict : Type 0 where
  refuse : DurableDeliveryDecision → Verdict
  cancel_and_drop : Verdict
  admit : Verdict

-- Two texts are compared if both values serialize.
abbrev pub same_text : Option String → Option String → Option Bool
same_text (some s) (some t) = some (s == t)
same_text _ _ = none

unfoldable pub same_wire : Stdlib → Value → Value → Option Bool
same_wire lib v w = same_text (dumps lib v) (dumps lib w)

-- What the admission says of the message is what the row holds.
unfoldable pub same_message : DurableDeliveryAdmission → DurableJob → Bool → Bool → Bool
same_message a j payload headers =
    j.message_id == a.message_id
    && j.message_type == a.message_type
    && eqb j.version a.version
    && payload
    && headers
    && j.queue == a.source_queue
    && opt_eqb j.last_attempt_at a.last_attempt_at

unfoldable pub retries_verdict : DurableDeliveryAdmission → DurableJob → Verdict
retries_verdict a j =
    if ltb a.retry_count j.retry_count
    then refuse drop
    else if ltb j.retry_count a.retry_count
    then refuse DurableDeliveryDecision.abort
    else if is_some j.max_retries && not (opt_eqb j.max_retries (some a.max_retries))
    then refuse DurableDeliveryDecision.abort
    else admit

unfoldable pub message_verdict :
    Option Bool → Option Bool → DurableDeliveryAdmission → DurableJob → Verdict
unfolding same_message retries_verdict
message_verdict (some payload) (some headers) a j =
    if same_message a j payload headers
    then retries_verdict a j
    else refuse DurableDeliveryDecision.abort
message_verdict _ _ a j = refuse DurableDeliveryDecision.abort

-- `series is not None and series.state != ACTIVE`
abbrev pub series_closed : Option JobSeries → Bool
series_closed none = false
series_closed (some s) = not (is_active s.state)

abbrev pub series_cancelled : Option JobSeries → Bool
series_cancelled none = false
series_cancelled (some s) = is_cancelled s.state

unfoldable pub verdict : Stdlib → DurableDeliveryAdmission → Option JobSeries → DurableJob → Verdict
unfolding same_wire message_verdict
verdict lib a series j =
    if ltb j.generation a.generation
    then refuse DurableDeliveryDecision.abort
    else if ltb a.generation j.generation || is_terminal j.state || is_running j.state
    then refuse drop
    else if series_closed series
    then (if series_cancelled series && not (is_terminal j.state)
        then cancel_and_drop
        else refuse drop)
    else if not (is_deliverable j.state)
    then refuse DurableDeliveryDecision.abort
    else if outcome_unknown j.state j.indeterminate_reason
    then refuse drop
    else message_verdict (same_wire lib j.payload a.payload)
        (same_wire lib (dict j.headers) (dict a.application_headers)) a j

-- The row of an admitted delivery.
unfoldable pub admit_row : ℕ → DurableDeliveryAdmission → DurableJob → DurableJob
admit_row now a j = record j {
  state = running;
  retry_count = a.retry_count;
  max_retries = if is_some j.max_retries then j.max_retries else some a.max_retries;
  queue = a.source_queue;
  reconciliation_due_at = a.reconciliation_due_at;
  settlement_status = none;
  settlement_source = none;
  settlement_destination = none;
  indeterminate_reason = none;
  started_at = if is_some j.started_at then j.started_at else some (or_else a.admitted_at now);
}

unfoldable pub carry_out :
    ℕ → DurableDeliveryAdmission → DurableJob → Verdict → Store DurableDeliveryDecision
unfolding save_job
carry_out now a j (refuse d) db = (ok d, db)
carry_out now a j cancel_and_drop db = (ok drop, save_job (by_id j.id) (cancel_occurrence now) db)
carry_out now a j admit db = (ok proceed, save_job (by_id j.id) (admit_row now a) db)

unfoldable pub admit_locked :
    Stdlib → ℕ → DurableDeliveryAdmission → ℕ → Option JobSeries → Store DurableDeliveryDecision
unfolding verdict carry_out find_job
admit_locked lib now a i series db = elim (find_job i db.jobs) [
  | none ↦ (ok DurableDeliveryDecision.abort, db)
  | some j ↦ carry_out now a j (verdict lib a series j) db
]

unfoldable pub admit_snapshot :
    Stdlib → ℕ → DurableDeliveryAdmission → ℕ → Store DurableDeliveryDecision
unfolding admit_locked lock_series find_job
admit_snapshot lib now a i db = elim (find_job i db.jobs) [
  | none ↦ (ok DurableDeliveryDecision.abort, db)
  | some snapshot ↦
      atomic (do series ← lock_series snapshot.series; admit_locked lib now a i series) db
]

unfoldable pub admit_delivery :
    Stdlib → ℕ → DurableDeliveryAdmission → Store DurableDeliveryDecision
unfolding admit_snapshot
admit_delivery lib now a db = elim (lib.parse_uuid a.record_id) [
  | none ↦ (ok DurableDeliveryDecision.abort, db)
  | some i ↦ admit_snapshot lib now a i db
]
