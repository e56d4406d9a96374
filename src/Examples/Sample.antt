-- ===== src/Examples/Sample.antt =====
-- A small database, and a library of standard functions for it.
use pybus.Codec.{Stdlib, Value, dict, end, text}
use pybus.Durable.Admit.{DurableDeliveryAdmission}
use pybus.Durable.Schedule.{DurableJobDraft}
use pybus.Durable.Types.{Db, DurableJob, claimed, pending, running}
use pybus.Prelude.{
  Option, String, [], if◌then◌else◌, none, some, ◌%◌, ◌*◌, ◌+◌, ◌-◌, ◌/◌, ◌==◌, ◌∷◌,
}
use pybus.Prelude.Int.{pos}
use pybus.Recurrence.{Calendar, Zone, day_length}

abbrev pub first_uuid : String
first_uuid = "00000000-0000-0000-0000-000000000001"

-- JSON text of the few values in use.
abbrev pub sample_json : Value → Option String
sample_json (text s) = some s
sample_json (dict end) = some "{}"
sample_json _ = some "null"

abbrev pub sample_lib : Stdlib
sample_lib = record {
  datetime_text = λ d. "2026-01-01T00:00:00+00:00";
  date_text = λ d. "2026-01-01";
  time_text = λ t. "00:00:00";
  uuid_text = λ u. first_uuid;
  parse_datetime = λ s. none;
  parse_date = λ s. none;
  parse_time = λ s. none;
  parse_uuid = λ s. if s == first_uuid then some 1 else none;
  json_dumps = sample_json;
  parse_int = λ s. if s == "3" then some (pos 3) else none;
}

-- A zone without an offset, and months of thirty days.
abbrev pub sample_zone : Zone
sample_zone = record { to_wall = λ t. t; of_wall = λ fold w. w }

abbrev pub sample_calendar : Calendar
sample_calendar = record {
  zone = λ name. some sample_zone;
  is_blank = λ name. name == "";
  year = λ w. w / day_length / 360 + 1;
  month = λ w. w / day_length / 30 % 12 + 1;
  day = λ w. w / day_length % 30 + 1;
  month_length = λ y m. 30;
  replace = λ w y m d. ((y - 1) * 360 + (m - 1) * 30 + (d - 1)) * day_length + w % day_length;
}

abbrev pub sample_draft : DurableJobDraft
sample_draft = record {
  message_id = "m1";
  message_type = "billing.generate";
  version = 1;
  payload = text "student 7";
  headers = end;
  created_at = 10;
  available_at = 10;
  queue = "pybus.jobs";
  fingerprint = "f1";
  idempotency_key = some "bill:7";
}

abbrev pub empty_db : Db
empty_db = record { jobs = []; series = [] }

-- The row of the draft after it was scheduled, claimed, and admitted.
abbrev pub planned_job : DurableJob
planned_job = record {
  id = 1;
  message_id = "m1";
  message_type = "billing.generate";
  version = 1;
  payload = text "student 7";
  headers = end;
  created_at = 10;
  available_at = 10;
  queue = "pybus.jobs";
  fingerprint = "f1";
  idempotency_key = some "bill:7";
  series = none;
  occurrence_number = none;
  state = pending;
  generation = 0;
  retry_count = 0;
  max_retries = none;
  lease_owner = none;
  lease_expires_at = none;
  reconciliation_due_at = none;
  indeterminate_reason = none;
  settlement_status = none;
  settlement_source = none;
  settlement_destination = none;
  last_attempt_at = none;
  started_at = none;
  finished_at = none;
}

abbrev pub claimed_job : DurableJob
claimed_job = record planned_job {
  state = claimed;
  generation = 1;
  lease_owner = some "w";
  lease_expires_at = some 50;
}

abbrev pub running_job : DurableJob
running_job = record planned_job {
  state = running;
  generation = 1;
  max_retries = some 10;
  reconciliation_due_at = some 300;
  started_at = some 40;
}

abbrev pub planned_db : Db
planned_db = record { jobs = planned_job ∷ []; series = [] }

abbrev pub claimed_db : Db
claimed_db = record { jobs = claimed_job ∷ []; series = [] }

abbrev pub sample_admission : DurableDeliveryAdmission
sample_admission = record {
  record_id = first_uuid;
  generation = 1;
  source_queue = "pybus.jobs";
  retry_count = 0;
  max_retries = 10;
  message_id = "m1";
  message_type = "billing.generate";
  version = 1;
  payload = text "student 7";
  application_headers = end;
  last_attempt_at = none;
  admitted_at = some 40;
  reconciliation_due_at = some 300;
}
