-- ===== src/Examples/Runner.antt =====
-- One round of the runner, with a publisher that raises.
use mathlib.Core.Option
use pybus.Durable.Claim.{
  cancelled_reclaimable, claim, claim_row, claimable, eligible, exhausted, from_record,
  same_version,
}
use pybus.Durable.Life.{find_job}
use pybus.Durable.Publish.{holds_claim, indeterminate_row, mark_publish_indeterminate}
use pybus.Durable.Queries.{same_state, series_open}
use pybus.Durable.Run.{Call, claim_one, history}
use pybus.Durable.Runner.{run_once}
use pybus.Durable.Runner.Steps.{RoundOf, run_once-history}
use pybus.Durable.Types.{indeterminate}
use pybus.Examples.Sample.{planned_db, sample_calendar, sample_lib}
use pybus.Prelude.{List, false, refl, some, true, ◌∷◌, ◌≡◌}

job_in_doubt :
    Option.map
      (λ j. j.state)
      (find_job 1 (run_once sample_lib (λ e q. true) "w" "m0" 30 300 20 21 false planned_db).1.jobs)
    ≡ some indeterminate
unfolding run_once claim series_open cancelled_reclaimable exhausted eligible claimable same_version
    same_state claim_row from_record find_job mark_publish_indeterminate holds_claim
    indeterminate_row
job_in_doubt = refl

run_once-history_example :
    let claiming = claim false "w" 20 50 planned_db in
    let out = run_once sample_lib (λ e q. true) "w" "m0" 30 300 20 21 false planned_db in
    (cs : List Call) × RoundOf sample_lib
      (λ e q. true)
      "m0"
      300
      20
      21
      claiming.1
      claiming.0
      cs
      out.0
    × (out.1 ≡ history sample_lib sample_calendar (claim_one false "w" 20 50 ∷ cs) planned_db)
run_once-history_example =
    run_once-history sample_lib sample_calendar (λ e q. true) "w" "m0" 30 300 20 21 false planned_db
