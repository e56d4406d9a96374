-- ===== src/Examples/Reaping.antt =====
-- A reaper that takes back the claim of the billing job, on a transport that works.
use pybus.Codec.Dict.{get}
use pybus.Durable.Claim.{from_record}
use pybus.Durable.Controller.{admit_envelope, retry_count_of}
use pybus.Durable.Envelope.{delivery_envelope}
use pybus.Durable.Life.{find_job}
use pybus.Durable.Queries.{lock_series}
use pybus.Durable.Types.{proceed}
use pybus.Examples.Deliveries.{claimed_job-Readable}
use pybus.Examples.Sample.{claimed_db, claimed_job, sample_lib}
use pybus.Prelude.{[], arith, false, none, refl, some, ◌∷◌, ◌≡◌, ◌≢◌}
use pybus.Prelude.Exec.{ok}
use pybus.Redis.{
  RedisReaperRunner, StaleClaim, is_exhausted, reap_once, reclaim_count, reclaim_envelope,
  reclaim_target,
}
use pybus.Redis.Orders.{IsOrderly, nothing_yet}
use pybus.Redis.Orders.Rounds.{reap_once-IsOrderly}
use pybus.Redis.Reclaiming.{reclaimed_times, reclaimed_times-target}
use pybus.Redis.Refusals.{reclaimed_copy_refused}

abbrev bill_claim : StaleClaim
bill_claim = record {
  claim_receipt = "r1";
  decoded = some (delivery_envelope sample_lib "m0" (from_record claimed_job));
  raw_base64 = "";
}

abbrev sample_reaper : RedisReaperRunner
sample_reaper = record {
  reaper_lib = sample_lib;
  reaped_channels = "pybus.jobs" ∷ [];
  failed_channel = "pybus.jobs.failed";
  max_reclaim_attempts = 5;
  reconcile_orphaned = λ log channel. some 0;
  stale_claims = λ log channel. some (bill_claim ∷ []);
  publish_fails = λ log queue e. false;
  ack_fails = λ log receipt. false;
  clock = λ log. 60;
  uuid_of = λ log. "m9";
}

reap_once-IsOrderly_example : IsOrderly sample_reaper (reap_once sample_reaper []).1
reap_once-IsOrderly_example = reap_once-IsOrderly sample_reaper [] nothing_yet

reclaimed_times-target_example :
    reclaim_target sample_reaper "pybus.jobs" (
      reclaimed_times sample_reaper "pybus.jobs"
        (λ n. "m9")
        (λ n. 60)
        5
        (delivery_envelope sample_lib "m0" (from_record claimed_job)))
    ≡ "pybus.jobs.failed"
unfolding delivery_envelope from_record reclaim_count get
reclaimed_times-target_example =
    reclaimed_times-target sample_reaper "pybus.jobs" (λ n. "m9") (λ n. 60) 5
      (delivery_envelope sample_lib "m0" (from_record claimed_job)) (omega arith)

reclaimed_copy_refused_example :
    let copy =
      reclaim_envelope sample_reaper "m9" "pybus.jobs" 60
        (delivery_envelope sample_lib "m0" (from_record claimed_job)) in
    (admit_envelope sample_lib 70 71 300 copy "pybus.jobs"
      (retry_count_of sample_lib false copy)
      10
      claimed_db).0
    ≢ ok (some proceed)
unfolding delivery_envelope from_record reclaim_count get is_exhausted find_job lock_series
reclaimed_copy_refused_example =
    reclaimed_copy_refused sample_reaper 70 71 300 10 60 "m0" "m9" false claimed_db claimed_job none
      claimed_job-Readable refl refl refl
