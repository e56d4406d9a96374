-- ===== src/Examples/Deliveries.antt =====
-- Deliveries of the billing job: the first copy is admitted, further ones are dropped.
use mathlib.Core.Option
use pybus.Codec.{dict, dumps, encode_value, end, field, int}
use pybus.Codec.Dict.{get}
use pybus.Durable.Admit.{admit, admit_delivery, verdict}
use pybus.Durable.Admit.Fencing.{Names}
use pybus.Durable.Admit.Fits.{Fits, verdict-admit_iff}
use pybus.Durable.Claim.{from_record}
use pybus.Durable.Controller.{admit_envelope, decided, retry_count_of}
use pybus.Durable.Controller.Delivery.{Deliverable, delivered_copy_proceeds, payload_retries_block}
use pybus.Durable.Controller.RoundTrip.{Readable, admit_envelope-delivery_envelope, claim_admission}
use pybus.Durable.Envelope.{delivery_envelope, has_reserved}
use pybus.Durable.Life.{find_job}
use pybus.Durable.Queries.{lock_series}
use pybus.Durable.Run.{Call, claim_one, deliver, history, release}
use pybus.Durable.Run.Fencing.{admitted_once}
use pybus.Durable.Types.{Db, DurableJob, proceed, running}
use pybus.Examples.Sample.{claimed_db, claimed_job, sample_admission, sample_calendar, sample_lib}
use pybus.Prelude.{List, [], arith, false, none, refl, some, ◌↔◌, ◌∷◌, ◌≡◌, ◌≢◌}
use pybus.Prelude.Exec.{ok}
use pybus.Prelude.Int.{pos}
use pybus.Retries.{valid_retry_count}

pub claimed_job-Names : Names sample_lib sample_admission claimed_db 1 claimed_job none
unfolding find_job lock_series
claimed_job-Names = record { parsed = refl; found = refl; series = refl }

pub proceeds : (admit_delivery sample_lib 40 sample_admission claimed_db).0 ≡ ok proceed
unfolding admit_delivery find_job lock_series dumps encode_value
proceeds = refl

-- The copy is delivered again, a publisher asks for work, and a release names no job.
abbrev pub in_between : List Call
in_between =
    deliver 41 sample_admission ∷ claim_one false "w" 42 90 ∷ release 43 "no uuid" 1 400 ∷ []

admitted_once_example :
    (admit_delivery sample_lib 60 sample_admission (
      history sample_lib sample_calendar in_between
        (admit_delivery sample_lib 40 sample_admission claimed_db).1)).0
    ≢ ok proceed
admitted_once_example =
    admitted_once sample_lib sample_calendar 40 60 sample_admission sample_admission claimed_db 1
      claimed_job none in_between claimed_job-Names proceeds (λ e. cc, tt) refl (omega arith)

verdict-admit_iff_example :
    (verdict sample_lib sample_admission none claimed_job ≡ admit)
    ↔ Fits sample_lib sample_admission none claimed_job
verdict-admit_iff_example = verdict-admit_iff sample_lib sample_admission none claimed_job

pub claimed_job-Readable : Readable sample_lib (from_record claimed_job)
unfolding from_record dumps encode_value has_reserved
claimed_job-Readable = record {
  uuid = refl;
  written = refl;
  attempt = λ t h. cc;
  payload = refl;
  headers = refl;
  unreserved = refl;
  named = refl;
  numbered = omega arith;
}

claimed_job-Deliverable : Deliverable claimed_db claimed_job none 10
unfolding find_job lock_series
claimed_job-Deliverable = record {
  found = refl;
  series = refl;
  series_open = refl;
  waits = refl;
  known = refl;
  limit = refl;
}

delivered_copy_proceeds_example :
    let e = delivery_envelope sample_lib "m0" (from_record claimed_job) in
    let (decision, db') =
      admit_envelope sample_lib 40 41 300 e "pybus.jobs"
        (retry_count_of sample_lib false e)
        10
        claimed_db in
    (decision ≡ ok (some proceed))
    × (Option.map (λ (k : DurableJob). k.state) (find_job 1 db'.jobs) ≡ some running)
unfolding valid_retry_count
delivered_copy_proceeds_example =
    delivered_copy_proceeds sample_lib 40 41 300 10 "m0" false claimed_db claimed_job none
      claimed_job-Readable claimed_job-Deliverable refl

admit_envelope-delivery_envelope_example :
    admit_envelope sample_lib 40 41 300
      (delivery_envelope sample_lib "m0" (from_record claimed_job))
      "pybus.jobs"
      0
      10
      claimed_db
    ≡ decided (
        admit_delivery sample_lib 41
          (claim_admission sample_lib (from_record claimed_job) "pybus.jobs" 0 10 40 300)
          claimed_db)
admit_envelope-delivery_envelope_example =
    admit_envelope-delivery_envelope sample_lib "m0" (from_record claimed_job) claimed_job-Readable
      40 41 300 "pybus.jobs" 0 10 claimed_db

-- The same job, with a payload that counts retries of its own.
abbrev counting_job : DurableJob
counting_job = record claimed_job { payload = dict (field "retries" (int (pos 5)) end) }

abbrev counting_db : Db
counting_db = record { jobs = counting_job ∷ []; series = [] }

counting_job-Readable : Readable sample_lib (from_record counting_job)
unfolding from_record dumps encode_value has_reserved
counting_job-Readable = record {
  uuid = refl;
  written = refl;
  attempt = λ t h. cc;
  payload = refl;
  headers = refl;
  unreserved = refl;
  named = refl;
  numbered = omega arith;
}

payload_retries_block_example :
    let e = delivery_envelope sample_lib "m0" (from_record counting_job) in
    (admit_envelope sample_lib 40 41 300 e "pybus.jobs"
      (retry_count_of sample_lib false e)
      10
      counting_db).0
    ≢ ok (some proceed)
unfolding find_job lock_series valid_retry_count get
payload_retries_block_example =
    payload_retries_block sample_lib 40 41 300 10 "m0" counting_db counting_job none 4
      counting_job-Readable refl refl refl refl
