-- ===== src/Durable/Admit/Fits.antt =====
-- Which admissions fit a stored row: the verdict of `admit_delivery` as a predicate.
use pybus.Codec.{Stdlib, dict}
use pybus.Durable.Admit.{
  DurableDeliveryAdmission, admit, is_deliverable, message_verdict, outcome_unknown,
  retries_verdict, same_message, same_wire, series_closed, verdict,
}
use pybus.Durable.Types.{DurableJob, JobSeries}
use pybus.Prelude.{
  Bool, Option, arith, eq_iff, false, is_some, not, opt_eqb, some, true, ◌&&◌, ◌↔◌, ◌≡◌,
}

-- What an admitted copy agrees on with the stored row.
pub record Fits (lib : Stdlib) (a : DurableDeliveryAdmission) (s : Option JobSeries)
    (j : DurableJob) : Type 0 where
  pub generation : a.generation ≡ j.generation
  pub deliverable : is_deliverable j.state ≡ true
  pub known : outcome_unknown j.state j.indeterminate_reason ≡ false
  pub series_open : series_closed s ≡ false
  pub message_id : j.message_id ≡ a.message_id
  pub message_type : j.message_type ≡ a.message_type
  pub version : j.version ≡ a.version
  pub payload : same_wire lib j.payload a.payload ≡ some true
  pub headers : same_wire lib (dict j.headers) (dict a.application_headers) ≡ some true
  pub queue : j.queue ≡ a.source_queue
  pub last_attempt_at : opt_eqb j.last_attempt_at a.last_attempt_at ≡ true
  pub retry_count : a.retry_count ≡ j.retry_count
  pub max_retries :
      (is_some j.max_retries && not (opt_eqb j.max_retries (some a.max_retries))) ≡ false

module _ (lib : Stdlib) (a : DurableDeliveryAdmission) (s : Option JobSeries) (j : DurableJob) where
  retries_verdict-admit :
      retries_verdict a j ≡ admit
      → (a.retry_count ≡ j.retry_count)
        × ((is_some j.max_retries && not (opt_eqb j.max_retries (some a.max_retries))) ≡ false)
  unfolding retries_verdict
  retries_verdict-admit h = ground arith

  message_verdict-admit :
      (p h : Option Bool)
      → message_verdict p h a j ≡ admit
      → (retries_verdict a j ≡ admit)
        × (p ≡ some true)
        × (h ≡ some true)
        × (j.message_id ≡ a.message_id)
        × (j.message_type ≡ a.message_type)
        × (j.version ≡ a.version)
        × (j.queue ≡ a.source_queue)
        × (opt_eqb j.last_attempt_at a.last_attempt_at ≡ true)
  unfolding message_verdict same_message
  message_verdict-admit (some p) (some h) e = ground (
    arith,
    eq_iff j.message_id a.message_id,
    eq_iff j.message_type a.message_type,
    eq_iff j.queue a.source_queue,
  )
  message_verdict-admit _ _ e = cc

  state_verdict-admit :
      verdict lib a s j ≡ admit
      → (message_verdict
            (same_wire lib j.payload a.payload)
            (same_wire lib (dict j.headers) (dict a.application_headers))
            a
            j
          ≡ admit)
        × (a.generation ≡ j.generation)
        × (is_deliverable j.state ≡ true)
        × (outcome_unknown j.state j.indeterminate_reason ≡ false)
        × (series_closed s ≡ false)
  unfolding verdict
  state_verdict-admit e = ground arith

  pub verdict-Fits : verdict lib a s j ≡ admit → Fits lib a s j
  verdict-Fits e =
      let (at_message, generation, deliverable, known, open_series) = state_verdict-admit e in
      let (at_retries, payload, headers, id, kind, version, queue, attempt) =
        message_verdict-admit _ _ at_message in
      let (retries, limit) = retries_verdict-admit at_retries in
      record {
        generation = generation;
        deliverable = deliverable;
        known = known;
        series_open = open_series;
        message_id = id;
        message_type = kind;
        version = version;
        payload = payload;
        headers = headers;
        queue = queue;
        last_attempt_at = attempt;
        retry_count = retries;
        max_retries = limit;
      }

  Fits-verdict : Fits lib a s j → verdict lib a s j ≡ admit
  unfolding verdict message_verdict same_message retries_verdict
  Fits-verdict h = ground (
    arith,
    eq_iff j.message_id a.message_id,
    eq_iff j.message_type a.message_type,
    eq_iff j.queue a.source_queue,
  )

-- The locked row is admitted exactly if the admission fits it: the same generation, message, queue,
-- payload and headers on the wire, retries and attempt time, a state in which a copy may be under way,
-- and a series, if any, that is active.
pub verdict-admit_iff :
    (lib : Stdlib) (a : DurableDeliveryAdmission) (s : Option JobSeries) (j : DurableJob)
    → (verdict lib a s j ≡ admit) ↔ Fits lib a s j
verdict-admit_iff lib a s j = (verdict-Fits lib a s j, Fits-verdict lib a s j)
