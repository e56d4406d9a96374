-- ===== src/Durable/Moves/Publisher.antt =====
-- Operations of the publisher: `claim`, `mark_published`, `mark_publish_indeterminate`.
use pybus.Durable.Admit.{DurableDeliveryAdmission}
use pybus.Durable.Claim.{
  DurableJobClaim, cancelled_reclaimable, claim, claim_row, earliest, eligible, exhausted,
  mark_exhausted, same_version, sweep, take_job,
}
use pybus.Durable.Guards.{
  cancelled_reclaimable-live, earliest_holds, eligible-live, exhausted-running, holds_claim-claimed,
  same_version-live,
}
use pybus.Durable.Life.{find_job}
use pybus.Durable.Moves.Basic.{
  Laws, Moves, atomic_bind-Moves, fail_active_series-Moves, if-Moves, lock_series-Moves,
}
use pybus.Durable.Publish.{
  dead_letter_claimed, dead_letter_locked, finish_dead_letter_from_claim, holds_claim,
  indeterminate_row, mark_publish_indeterminate, mark_published, publish_row,
}
use pybus.Durable.Queries.{cancel_occurrence, is_dead_letter, lock_series, write_jobs}
use pybus.Durable.Types.{Db, DurableJob, JobSeries, is_terminal}
use pybus.Prelude.{
  Bool, Option, Option-cases, String, any, false, inl, inr, none, refl, some, true, ℕ, ◌≡◌,
}

module _ {R : Db → Db → Type 0} {Q : DurableJob → DurableJob → Type 0}
    {A : DurableDeliveryAdmission → Type 0} {Y : ℕ → Type 0} (L : Laws R Q A Y) where
  pub sweep-Moves : (now : ℕ) (db : Db) → R db (sweep now db)
  unfolding sweep
  sweep-Moves now db =
      L.compose db _ _
        (L.write (cancelled_reclaimable now db.series) (cancel_occurrence now)
          (λ j h. L.cancelling now j (cancelled_reclaimable-live now db.series j h)) db)
        (L.write (exhausted now db.series) mark_exhausted
          (λ j h. L.exhausting j (exhausted-running now db.series j h))
          (write_jobs (cancelled_reclaimable now db.series) (cancel_occurrence now) db))

  take_job-Moves :
      (w : String) (now lease : ℕ) (m : Option DurableJob) (db : Db)
      → ((model : DurableJob) → m ≡ some model → is_terminal model.state ≡ false)
      → R db (take_job w now lease m db).1
  unfolding take_job
  take_job-Moves w now lease none db h = L.stay db
  take_job-Moves w now lease (some model) db h =
      let moved =
        L.write (same_version model) (claim_row w now lease)
          (λ j p. L.claiming w now lease j (same_version-live model j (h model refl) p)) db in
      if-Moves L (any (same_version model) db.jobs) db _ _ (λ _. moved) (λ _. moved)

  pub claim-Moves :
      (inside : Bool) (w : String) (now lease : ℕ) → Moves R (claim inside w now lease)
  unfolding claim
  claim-Moves true w now lease db = L.stay db
  claim-Moves false w now lease db =
      let swept = sweep now db in
      L.compose db swept _ (sweep-Moves now db) (
        take_job-Moves w now lease (earliest (eligible now swept.series) swept.jobs) swept
          (λ m e. eligible-live now swept.series m (earliest_holds _ swept.jobs m e)))

  dead_letter_locked-Moves :
      (c : DurableJobClaim) (at : ℕ) (s : Option JobSeries) → Moves R (dead_letter_locked c at s)
  unfolding dead_letter_locked
  dead_letter_locked-Moves c at s db =
      if-Moves L (any (holds_claim c) db.jobs) db _ _
        (λ _.
          L.compose db _ _
            (L.write (holds_claim c) (dead_letter_claimed at)
              (λ j h. L.dead_lettering at j (holds_claim-claimed c j h)) db)
            (fail_active_series-Moves L s at _))
        (λ _. L.stay db)

  finish_dead_letter_from_claim-Moves :
      (c : DurableJobClaim) (at : ℕ) → Moves R (finish_dead_letter_from_claim c at)
  unfolding finish_dead_letter_from_claim
  finish_dead_letter_from_claim-Moves c at db = elim (Option-cases (find_job c.id db.jobs)) [
    | inl e ↦ rw (e, finish_dead_letter_from_claim) (L.stay db)
    | inr (j, e) ↦
        rw (e, finish_dead_letter_from_claim)
          (atomic_bind-Moves L (lock_series j.series) (dead_letter_locked c at)
            (lock_series-Moves L j.series) (dead_letter_locked-Moves c at) db)
  ]

  pub mark_published-Moves :
      (c : DurableJobClaim) (now due : ℕ) → Moves R (mark_published c now due)
  unfolding mark_published
  mark_published-Moves c now due db =
      if-Moves L (is_dead_letter c.settlement_status) db _ _
        (λ _. finish_dead_letter_from_claim-Moves c now db)
        (λ _.
          L.write (holds_claim c) (publish_row c due)
            (λ j h. L.publishing c due j (holds_claim-claimed c j h)) db)

  pub mark_publish_indeterminate-Moves :
      (c : DurableJobClaim) (now due : ℕ) → Moves R (mark_publish_indeterminate c now due)
  unfolding mark_publish_indeterminate
  mark_publish_indeterminate-Moves c now due db =
      L.write (holds_claim c) (indeterminate_row c due)
        (λ j h. L.doubting c due j (holds_claim-claimed c j h)) db
