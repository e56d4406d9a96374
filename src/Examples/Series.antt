-- ===== src/Examples/Series.antt =====
-- A running occurrence of a daily series, whose handler asks for a next run in the past.
use pybus.Codec.{end, text}
use pybus.Durable.Queries.{find_series}
use pybus.Durable.Series.{HandlerResult, complete_recurring_success, next_run}
use pybus.Durable.Series.Completion.{AllOrNothing, complete_recurring_success-AllOrNothing}
use pybus.Durable.Settle.{CommandDeliveryOutcome, outcome_filter}
use pybus.Durable.Types.{CommandDeliveryStatus, Db, DurableJob, JobSeries, JobSeriesState}
use pybus.Examples.Sample.{first_uuid, running_job, sample_calendar, sample_lib}
use pybus.Prelude.{[], map, none, refl, some, ◌+◌, ◌∷◌, ◌≡◌}
use pybus.Recurrence.{daily, day_length, next_cadence_at}

abbrev sample_series : JobSeries
sample_series = record {
  id = 9;
  message_type = "billing.generate";
  version = 1;
  payload = text "student 7";
  headers = end;
  queue = "pybus.jobs";
  cadence = daily;
  timezone = "UTC";
  starts_at = 10;
  ends_at = none;
  fingerprint = "f9";
  idempotency_key = none;
  state = JobSeriesState.active;
  latest_occurrence_number = 1;
  created_at = 10;
  finished_at = none;
}

abbrev series_job : DurableJob
series_job = record running_job { series = some 9; occurrence_number = some 1 }

abbrev series_db : Db
series_db = record { jobs = series_job ∷ []; series = sample_series ∷ [] }

abbrev sample_outcome : CommandDeliveryOutcome
sample_outcome = record {
  status = CommandDeliveryStatus.succeeded;
  message_id = "m1";
  message_type = "billing.generate";
  version = 1;
  source_queue = "pybus.jobs";
  destination_queue = none;
  retry_count = 0;
  max_retries = 10;
  durable_record_id = some first_uuid;
  durable_generation = some 1;
}

-- With no wish of the handler the next day is planned.
series_advances :
    map
      (λ (j : DurableJob). j.available_at)
      (complete_recurring_success sample_lib sample_calendar 2 "m2" sample_outcome
        HandlerResult.nothing 60 series_db).1.jobs
    ≡ 10 ∷ (day_length + 10) ∷ []
unfolding complete_recurring_success outcome_filter find_series next_run next_cadence_at
series_advances = refl

complete_recurring_success-AllOrNothing_example :
    AllOrNothing sample_calendar sample_series series_job HandlerResult.nothing 60 series_db (
      complete_recurring_success sample_lib sample_calendar 2 "m2" sample_outcome
        HandlerResult.nothing 60 series_db)
unfolding outcome_filter find_series
complete_recurring_success-AllOrNothing_example =
    complete_recurring_success-AllOrNothing sample_lib sample_calendar 2 "m2" sample_outcome
      HandlerResult.nothing 60 series_db first_uuid 1 1 9 sample_series series_job refl refl refl
      refl refl refl refl
