-- ===== src/Examples/DurableJobs.antt =====
-- The durable job store on a small database: one billing job, scheduled, claimed and delivered.
use mathlib.Core.Option
use pybus.Codec.{dumps, encode_value}
use pybus.Durable.Admit.{admit_delivery, admit_row}
use pybus.Durable.Claim.{
  DurableJobClaim, cancelled_reclaimable, claim, claim_row, claimable, comes_before, eligible,
  exhausted, from_record, same_version, sweep,
}
use pybus.Durable.Claim.Choice.{IsClaimed, claim-none, claim-some}
use pybus.Durable.Life.{Later, find_job}
use pybus.Durable.Queries.{durable_job_conflict, same_state, series_open}
use pybus.Durable.Run.{Call, claim_one, deliver, history, plan}
use pybus.Durable.Run.Constraints.{Distinct, history-Distinct}
use pybus.Durable.Run.Invariant.{AllSound, IsSound, history-AllSound}
use pybus.Durable.Run.Lifetime.{history_keeps_job}
use pybus.Durable.Run.Liveness.{claim_progress}
use pybus.Durable.Schedule.{draft_row, schedule}
use pybus.Durable.Schedule.Idempotency.{schedule-schedule}
use pybus.Durable.Types.{DurableJob, running}
use pybus.Examples.Sample.{
  claimed_db, claimed_job, empty_db, planned_db, planned_job, sample_admission, sample_calendar,
  sample_draft, sample_lib,
}
use pybus.Prelude.{
  All, List, [], arith, false, if◌then◌else◌, none, refl, some, true, ◌&&◌, ◌==◌, ◌∷◌, ◌≡◌, ◌≢◌,
}
use pybus.Prelude.Exec.{err, ok}

abbrev calls : List Call
calls = plan 1 sample_draft ∷ claim_one false "w" 20 50 ∷ deliver 40 sample_admission ∷ []

job_runs :
    Option.map (λ j. j.state) (find_job 1 (history sample_lib sample_calendar calls empty_db).jobs)
    ≡ some running
unfolding history schedule claim admit_delivery series_open cancelled_reclaimable exhausted eligible
    claimable same_version same_state claim_row admit_row from_record find_job dumps encode_value
job_runs = refl

abbrev more_calls : List Call
more_calls = claim_one false "w" 20 50 ∷ deliver 40 sample_admission ∷ []

history_keeps_job_example :
    (k : DurableJob) × (find_job 1 (history sample_lib sample_calendar more_calls planned_db).jobs
      ≡ some k)
    × Later planned_job k
unfolding find_job
history_keeps_job_example =
    history_keeps_job sample_lib sample_calendar more_calls planned_db 1 planned_job refl

history-AllSound_example : AllSound (history sample_lib sample_calendar calls empty_db)
history-AllSound_example = history-AllSound sample_lib sample_calendar calls empty_db (refl, tt) tt

history-Distinct_example : Distinct (history sample_lib sample_calendar calls empty_db).jobs
history-Distinct_example = history-Distinct sample_lib sample_calendar calls empty_db tt

schedule-schedule_example : schedule 2 sample_draft (schedule 1 sample_draft empty_db).1 ≡ (
  (if planned_job.fingerprint == sample_draft.fingerprint
      then ok planned_job
      else err durable_job_conflict),
  (schedule 1 sample_draft empty_db).1,
)
unfolding schedule draft_row
schedule-schedule_example =
    schedule-schedule 1 2 sample_draft sample_draft "bill:7" empty_db planned_job refl refl refl

-- The claim that the worker `w` gets.
abbrev first_claim : DurableJobClaim
unfolding from_record
first_claim = from_record claimed_job

claim_returns : (claim false "w" 20 50 planned_db).0 ≡ ok (some first_claim)
unfolding claim series_open cancelled_reclaimable exhausted eligible claimable same_version
    same_state claim_row from_record find_job first_claim
claim_returns = refl

claim-some_example :
    (m : DurableJob) × (find_job 1 (sweep 20 planned_db).jobs ≡ some m)
    × (eligible 20 [] m ≡ true)
    × All (λ k. (eligible 20 [] k && comes_before k m) ≡ false) (sweep 20 planned_db).jobs
    × (k : DurableJob) × (find_job 1 (claim false "w" 20 50 planned_db).1.jobs ≡ some k)
    × IsClaimed "w" 20 50 m k
    × (first_claim ≡ from_record k)
unfolding first_claim
claim-some_example = claim-some "w" 20 50 planned_db first_claim (tt, tt) claim_returns

claim-none_example : All (λ j. eligible 30 [] j ≡ false) (sweep 30 claimed_db).jobs
unfolding claim series_open cancelled_reclaimable exhausted eligible claimable same_version
    same_state claim_row from_record find_job
claim-none_example = claim-none "v" 30 60 claimed_db (tt, tt) refl

claimed_job-IsSound : IsSound claimed_job
claimed_job-IsSound = ground arith

claim_progress_example : (claim false "v" 51 90 claimed_db).0 ≢ ok none
unfolding find_job exhausted series_open
claim_progress_example =
    claim_progress "v" 51 90 claimed_db 1 claimed_job (tt, tt) refl claimed_job-IsSound refl refl
      refl refl (omega arith)
