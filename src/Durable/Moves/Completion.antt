-- ===== src/Durable/Moves/Completion.antt =====
-- `complete_recurring_success`.
use pybus.Codec.{Stdlib}
use pybus.Durable.Admit.{DurableDeliveryAdmission}
use pybus.Durable.Guards.{not_running-false}
use pybus.Durable.Moves.Basic.{Laws, Moves, atomic-Moves, bind-Moves, finish_series-Moves, if-Moves}
use pybus.Durable.Moves.Scheduler.{create_job-Moves}
use pybus.Durable.Queries.{find_series, is_active, is_running, save_job, write_series}
use pybus.Durable.Schedule.{create_job}
use pybus.Durable.Series.{
  HandlerResult, advance_series, complete_found, complete_locked, complete_recurring_success,
  complete_series, is_recurrence_result, next_run, succeed_running, successor,
}
use pybus.Durable.Settle.{CommandDeliveryOutcome, outcome_filter, succeed_row}
use pybus.Durable.Types.{Db, DurableJob, JobSeries, JobSeriesState, running}
use pybus.Prelude.{
  Bool, Option, Option-cases, String, first_where, inl, inr, none, not, refl, some, true, ℕ, ◌+◌,
  ◌≡◌,
}
use pybus.Prelude.Exec.{Result-cases, ok}
use pybus.Recurrence.{Calendar}

module _ {R : Db → Db → Type 0} {Q : DurableJob → DurableJob → Type 0}
    {A : DurableDeliveryAdmission → Type 0} {Y : ℕ → Type 0} (L : Laws R Q A Y) where
  advance_series-Moves :
      (id : ℕ) (message_id : String) (s : JobSeries) (at : ℕ) (next_at : Option ℕ)
      → Moves R (advance_series id message_id s at next_at)
  unfolding advance_series
  advance_series-Moves id message_id s at none db =
      finish_series-Moves L s.id JobSeriesState.completed at db
  advance_series-Moves id message_id s at (some next_at) db =
      bind-Moves L (create_job (successor id message_id s at next_at))
        (λ j db'. (
          ok true,
          write_series s.id
              (λ r. record r { latest_occurrence_number = s.latest_occurrence_number + 1 }) db',
        ))
        (unfold successor in
          create_job-Moves L id _ (some s.id) (some (s.latest_occurrence_number + 1)))
        (λ j db'. L.change_series db' _) db

  succeed_running-Moves :
      (cal : Calendar) (id : ℕ) (message_id : String) (result : HandlerResult) (at : ℕ)
      (owned : DurableJob → Bool) (s : JobSeries) (db : Db) (j : DurableJob)
      → first_where owned db.jobs ≡ some j
      → j.state ≡ running
      → R db (succeed_running cal id message_id result at owned s db).1
  unfolding succeed_running
  succeed_running-Moves cal id message_id result at owned s db j found runs =
      let db' = save_job owned (succeed_row at) db in
      let saved = L.save owned (succeed_row at) db j found (L.succeeding at j runs) in
      if-Moves L (not (is_active s.state)) db _ _ (λ _. saved)
        (λ _. elim (Result-cases (next_run cal s result at)) [
          | inl (e, q) ↦ rw (q, succeed_running) saved
          | inr (t, q) ↦
              rw (q, succeed_running)
                (L.compose db db' _ saved (advance_series-Moves id message_id s at t db'))
        ])

  complete_locked-Moves :
      (cal : Calendar) (id : ℕ) (message_id : String) (result : HandlerResult) (at : ℕ)
      (owned : DurableJob → Bool) (s : JobSeries) (j : Option DurableJob) (db : Db)
      → first_where owned db.jobs ≡ j
      → R db (complete_locked cal id message_id result at owned s j db).1
  unfolding complete_locked
  complete_locked-Moves cal id message_id result at owned s none db found = L.stay db
  complete_locked-Moves cal id message_id result at owned s (some j) db found =
      if-Moves L (not (is_running j.state)) db _ _ (λ _. L.stay db)
        (λ runs.
          if-Moves L (not (is_recurrence_result result)) db _ _ (λ _. L.stay db)
            (λ _.
              succeed_running-Moves cal id message_id result at owned s db j found
                (not_running-false j.state runs)))

  complete_series-Moves :
      (cal : Calendar) (id : ℕ) (message_id : String) (result : HandlerResult) (at : ℕ)
      (owned : DurableJob → Bool) (i : ℕ)
      → Moves R (complete_series cal id message_id result at owned i)
  unfolding complete_series
  complete_series-Moves cal id message_id result at owned i db =
      elim (Option-cases (find_series i db.series)) [
        | inl e ↦ rw (e, complete_series) (L.stay db)
        | inr (s, e) ↦
            rw (e, complete_series)
              (complete_locked-Moves cal id message_id result at owned s (first_where owned db.jobs)
                db refl)
      ]

  complete_found-Moves :
      (cal : Calendar) (id : ℕ) (message_id : String) (result : HandlerResult) (at : ℕ)
      (owned : DurableJob → Bool) (snapshot : Option (Option ℕ))
      → Moves R (complete_found cal id message_id result at owned snapshot)
  unfolding complete_found
  complete_found-Moves cal id message_id result at owned none db = L.stay db
  complete_found-Moves cal id message_id result at owned (some none) db = L.stay db
  complete_found-Moves cal id message_id result at owned (some (some i)) db =
      atomic-Moves L (complete_series cal id message_id result at owned i)
        (complete_series-Moves cal id message_id result at owned i) db

  pub complete_recurring_success-Moves :
      (lib : Stdlib) (cal : Calendar) (id : ℕ) (message_id : String) (o : CommandDeliveryOutcome)
      (result : HandlerResult) (at : ℕ)
      → Moves R (complete_recurring_success lib cal id message_id o result at)
  unfolding complete_recurring_success
  complete_recurring_success-Moves lib cal id message_id o result at db =
      elim (Option-cases o.durable_record_id) [
        | inl e ↦ rw (e, complete_recurring_success) (L.stay db)
        | inr (r, e) ↦ elim (Option-cases o.durable_generation) [
          | inl g ↦ rw (e, g, complete_recurring_success) (L.stay db)
          | inr (n, g) ↦ elim (Option-cases (lib.parse_uuid r)) [
            | inl p ↦ rw (e, g, p, complete_recurring_success) (L.stay db)
            | inr (i, p) ↦
                rw (e, g, p, complete_recurring_success)
                  (complete_found-Moves cal id message_id result at (outcome_filter o i n) _ db)
          ]
        ]
      ]
