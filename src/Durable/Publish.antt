-- ===== src/Durable/Publish.antt =====
-- `mark_published`, `mark_publish_indeterminate` and `_finish_dead_letter_from_claim` of
-- src/pybus/integrations/django_durable/store.py: what the publisher writes after a claim.
use pybus.Durable.Claim.{DurableJobClaim}
use pybus.Durable.Life.{find_job}
use pybus.Durable.Queries.{
  Store, finish_series, is_active, is_claimed, is_dead_letter, lock_series, write_jobs,
}
use pybus.Durable.Types.{
  Db, DurableJob, DurableJobState, JobSeries, JobSeriesState, indeterminate,
  publication_acknowledgement, published, settling,
}
use pybus.Prelude.{Bool, Option, any, eqb, if◌then◌else◌, is_some, none, some, ℕ, ◌&&◌}
use pybus.Prelude.Exec.{atomic, ok, ◌>>=◌}

-- `.filter(id=claim.id, generation=claim.generation, state=CLAIMED)`
unfoldable pub holds_claim : DurableJobClaim → DurableJob → Bool
holds_claim c j = eqb j.id c.id && eqb j.generation c.generation && is_claimed j.state

-- `_fail_active_series`
unfoldable pub fail_active_series : Option JobSeries → ℕ → Db → Db
fail_active_series none finished_at db = db
fail_active_series (some s) finished_at db =
    if is_active s.state then finish_series s.id JobSeriesState.failed finished_at db else db

unfoldable pub dead_letter_claimed : ℕ → DurableJob → DurableJob
dead_letter_claimed finished_at j = record j {
  state = DurableJobState.dead_lettered;
  reconciliation_due_at = none;
  lease_owner = none;
  lease_expires_at = none;
  finished_at = some finished_at;
  indeterminate_reason = none;
}

-- Under the series' lock: nothing if the claim is no longer held.
unfoldable pub dead_letter_locked : DurableJobClaim → ℕ → Option JobSeries → Store (Unit {0})
unfolding write_jobs fail_active_series
dead_letter_locked c finished_at series db =
    if any (holds_claim c) db.jobs
    then (
      ok tt,
      fail_active_series series finished_at
          (write_jobs (holds_claim c) (dead_letter_claimed finished_at) db),
    )
    else (ok tt, db)

unfoldable pub finish_dead_letter_from_claim : DurableJobClaim → ℕ → Store (Unit {0})
unfolding dead_letter_locked lock_series find_job
finish_dead_letter_from_claim c finished_at db = elim (find_job c.id db.jobs) [
  | none ↦ (ok tt, db)
  | some snapshot ↦
      atomic (do series ← lock_series snapshot.series; dead_letter_locked c finished_at series) db
]

-- A settlement that the claim carried is now on the wire.
unfoldable pub publish_row : DurableJobClaim → ℕ → DurableJob → DurableJob
publish_row c reconciliation_due_at j = record j {
  state = published;
  reconciliation_due_at = some reconciliation_due_at;
  settlement_status = if is_some c.settlement_status then none else j.settlement_status;
  settlement_source = if is_some c.settlement_status then none else j.settlement_source;
  settlement_destination = if is_some c.settlement_status then none else j.settlement_destination;
}

unfoldable pub mark_published : DurableJobClaim → ℕ → ℕ → Store (Unit {0})
unfolding finish_dead_letter_from_claim write_jobs
mark_published c now reconciliation_due_at db =
    if is_dead_letter c.settlement_status
    then finish_dead_letter_from_claim c now db
    else (ok tt, write_jobs (holds_claim c) (publish_row c reconciliation_due_at) db)

unfoldable pub indeterminate_row : DurableJobClaim → ℕ → DurableJob → DurableJob
indeterminate_row c reconciliation_due_at j = record j {
  state = if is_some c.settlement_status then settling else indeterminate;
  reconciliation_due_at = some reconciliation_due_at;
  indeterminate_reason =
      if is_some c.settlement_status then none else some publication_acknowledgement;
}

unfoldable pub mark_publish_indeterminate : DurableJobClaim → ℕ → ℕ → Store (Unit {0})
unfolding write_jobs
mark_publish_indeterminate c now reconciliation_due_at db =
    (ok tt, write_jobs (holds_claim c) (indeterminate_row c reconciliation_due_at) db)
