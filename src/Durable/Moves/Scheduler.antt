-- ===== src/Durable/Moves/Scheduler.antt =====
-- `schedule`, `schedule_recurring`, `cancel_recurring`.
use pybus.Codec.{Stdlib}
use pybus.Durable.Admit.{DurableDeliveryAdmission}
use pybus.Durable.Guards.{cancellable-live, recover_job-reads, recover_series-reads}
use pybus.Durable.Moves.Basic.{
  Laws, Moves, atomic-Moves, atomic_bind-Moves, bind-Moves, finish_series-Moves, if-Moves,
  if_db-Moves,
}
use pybus.Durable.Queries.{
  Store, StoreError, cancel_occurrence, find_series, finish_series, integrity_error, is_active,
}
use pybus.Durable.Schedule.{
  DurableJobDraft, JobSeriesDraft, conflicts, create_job, create_series, draft_row, find_occurrence,
  is_occurrence, on_integrity_error, recover_job, recover_series, schedule, schedule_recurring,
  series_conflicts, series_row,
}
use pybus.Durable.Series.{cancel_locked, cancel_recurring, cancel_rows, is_cancellable}
use pybus.Durable.Types.{Db, DurableJob, JobSeries, JobSeriesState}
use pybus.Prelude.{Option, Option-cases, String, [], any, inl, inr, none, some, ℕ, ◌++◌, ◌∷◌, ◌≡◌}
use pybus.Prelude.Exec.{Result, err, ok, pure, ◌>>=◌}
use pybus.Recurrence.{Calendar}

module _ {R : Db → Db → Type 0} {Q : DurableJob → DurableJob → Type 0}
    {A : DurableDeliveryAdmission → Type 0} {Y : ℕ → Type 0} (L : Laws R Q A Y) where
  pub create_job-Moves :
      (id : ℕ) (d : DurableJobDraft) (s n : Option ℕ) → Moves R (create_job (draft_row id d s n))
  unfolding create_job
  create_job-Moves id d s n db =
      if-Moves L (any (conflicts (draft_row id d s n)) db.jobs) db _ _ (λ _. L.stay db)
        (λ free. L.append id d s n db free)

  -- A handler of the IntegrityError that itself only reads.
  on_integrity_error-Moves :
      {B : Type 0} (handler : Store B) (db : Db) (r : Result StoreError B × Db)
      → ((b : Db) → (handler b).1 ≡ b)
      → R db r.1
      → R db (on_integrity_error handler r).1
  on_integrity_error-Moves handler db (err integrity_error, db') reads h = rw (reads db') h
  on_integrity_error-Moves handler db (r, db') reads h = h

  pub schedule-Moves : (id : ℕ) (d : DurableJobDraft) → Moves R (schedule id d)
  unfolding schedule
  schedule-Moves id d db =
      on_integrity_error-Moves (recover_job d d.idempotency_key) db _
        (recover_job-reads d d.idempotency_key)
        (atomic-Moves L (create_job (draft_row id d none none)) (create_job-Moves id d none none)
          db)

  create_series-Moves : (s : JobSeries) → Moves R (create_series s)
  unfolding create_series
  create_series-Moves s db =
      if-Moves L (any (series_conflicts s) db.series) db (err integrity_error, db)
        (ok s, record db { series = db.series ++ s ∷ [] }) (λ _. L.stay db)
        (λ _. L.change_series db (db.series ++ s ∷ []))

  pub schedule_recurring-Moves :
      (cal : Calendar) (series_id job_id : ℕ) (d : JobSeriesDraft)
      → Moves R (schedule_recurring cal series_id job_id d)
  unfolding schedule_recurring
  schedule_recurring-Moves cal series_id job_id d db =
      elim (Option-cases (cal.zone d.recurrence.timezone)) [
        | inl e ↦ rw (e, schedule_recurring) (L.stay db)
        | inr (z, e) ↦
            rw (e, schedule_recurring)
              (on_integrity_error-Moves (recover_series d d.idempotency_key) db _
                (recover_series-reads d d.idempotency_key)
                (atomic_bind-Moves L (create_series (series_row series_id d))
                  (λ s.
                    create_job (draft_row job_id d.first_occurrence (some series_id) (some 1))
                    >>= λ j. pure (s, j))
                  (create_series-Moves (series_row series_id d))
                  (λ s.
                    bind-Moves L
                      (create_job (draft_row job_id d.first_occurrence (some series_id) (some 1)))
                      (λ j. pure (s, j))
                      (create_job-Moves job_id d.first_occurrence (some series_id) (some 1))
                      (λ j db'. L.stay db'))
                  db))
      ]

  cancel_rows-Moves :
      (at : ℕ) (s : JobSeries) (j : DurableJob) (db : Db)
      → find_occurrence s.id s.latest_occurrence_number db.jobs ≡ some j
      → R db (cancel_rows at s j db)
  unfolding cancel_rows find_occurrence
  cancel_rows-Moves at s j db found =
      let finished = finish_series s.id JobSeriesState.cancelled at db in
      if_db-Moves L (is_cancellable j.state) db _ _
        (λ h. L.compose db finished _ (finish_series-Moves L s.id _ at db) (
          L.save (is_occurrence s.id s.latest_occurrence_number) (cancel_occurrence at) finished j
            (unfold finish_series in found) (L.cancelling at j (cancellable-live j.state h))))
        (λ _. finish_series-Moves L s.id _ at db)

  cancel_locked-Moves : (at : ℕ) (s : JobSeries) → Moves R (cancel_locked at s)
  unfolding cancel_locked
  cancel_locked-Moves at s db =
      elim (Option-cases (find_occurrence s.id s.latest_occurrence_number db.jobs)) [
        | inl e ↦ rw (e, cancel_locked) (L.stay db)
        | inr (j, e) ↦
            rw (e, cancel_locked)
              (if-Moves L (is_active s.state) db _ _ (λ _. cancel_rows-Moves at s j db e)
                (λ _. L.stay db))
      ]

  pub cancel_recurring-Moves :
      (lib : Stdlib) (series_id : String) (at : ℕ) → Moves R (cancel_recurring lib series_id at)
  unfolding cancel_recurring
  cancel_recurring-Moves lib series_id at db = elim (Option-cases (lib.parse_uuid series_id)) [
    | inl e ↦ rw (e, cancel_recurring) (L.stay db)
    | inr (i, e) ↦ elim (Option-cases (find_series i db.series)) [
      | inl q ↦ rw (e, cancel_recurring) (rw (q, cancel_recurring) (L.stay db))
      | inr (s, q) ↦
          rw (e, q, cancel_recurring)
            (atomic-Moves L (cancel_locked at s) (cancel_locked-Moves at s) db)
    ]
  ]
