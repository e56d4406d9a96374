-- ===== src/Durable/Moves/Outcome.antt =====
-- `apply_outcome`, status by status.
use pybus.Codec.{Stdlib}
use pybus.Durable.Admit.{DurableDeliveryAdmission}
use pybus.Durable.Guards.{&&-right, is_running-eq, is_settling-eq, settling-live}
use pybus.Durable.Moves.Basic.{
  Laws, Moves, atomic_bind-Moves, bind-Moves, fail_active_series-Moves, if-Moves, lock_series-Moves,
}
use pybus.Durable.Moves.Worker.{guarded_series_update-Moves}
use pybus.Durable.Queries.{is_running, is_settling, lock_series}
use pybus.Durable.Settle.{
  CommandDeliveryOutcome, apply_identified, apply_outcome, apply_status, dead_letter_outcome_locked,
  dead_letter_settled, finish_dead_letter_from_outcome, guarded_series_update, outcome_filter,
  republish, republish_row, succeed_row,
}
use pybus.Durable.Types.{
  CommandDeliveryStatus, Db, DurableJob, JobSeries, continued, retry_scheduled,
}
use pybus.Prelude.{
  Option, Option-cases, String, any, eqb, first_where, inl, inr, none, some, ℕ, ◌&&◌,
}
use pybus.Prelude.Exec.{pure}

module _ {R : Db → Db → Type 0} {Q : DurableJob → DurableJob → Type 0}
    {A : DurableDeliveryAdmission → Type 0} {Y : ℕ → Type 0} (L : Laws R Q A Y) where
  dead_letter_outcome_locked-Moves :
      (o : CommandDeliveryOutcome) (i generation at : ℕ) (s : Option JobSeries)
      → Moves R (dead_letter_outcome_locked o i generation at s)
  unfolding dead_letter_outcome_locked
  dead_letter_outcome_locked-Moves o i generation at s db =
      let owned =
        λ (j : DurableJob). eqb j.id i && eqb j.generation generation && is_settling j.state in
      if-Moves L (any owned db.jobs) db _ _
        (λ _.
          L.compose db _ _
            (L.write owned (dead_letter_settled o at)
              (λ j h. L.dead_lettering_settled o at j (is_settling-eq j.state (&&-right _ _ h))) db)
            (fail_active_series-Moves L s at _))
        (λ _. L.stay db)

  finish_dead_letter_from_outcome-Moves :
      (o : CommandDeliveryOutcome) (i generation now : ℕ)
      → Moves R (finish_dead_letter_from_outcome o i generation now)
  unfolding finish_dead_letter_from_outcome
  finish_dead_letter_from_outcome-Moves o i generation now db =
      elim (Option-cases (first_where (outcome_filter o i generation) db.jobs)) [
        | inl e ↦ rw (e, finish_dead_letter_from_outcome) (L.stay db)
        | inr (j, e) ↦
            rw (e, finish_dead_letter_from_outcome)
              (atomic_bind-Moves L (lock_series j.series)
                (dead_letter_outcome_locked o i generation now) (lock_series-Moves L j.series)
                (dead_letter_outcome_locked-Moves o i generation now) db)
      ]

  republish-Moves :
      (o : CommandDeliveryOutcome) (i generation now due : ℕ)
      → Moves R (republish o i generation now due)
  unfolding republish
  republish-Moves o i generation now due =
      bind-Moves L
        (guarded_series_update (outcome_filter o i generation) is_settling (republish_row o due)
          now)
        (λ updated. pure tt)
        (guarded_series_update-Moves L (outcome_filter o i generation) is_settling
          (republish_row o due) now (λ j _ h. L.republishing o due j (is_settling-eq j.state h))
          settling-live)
        (λ updated db. L.stay db)

  apply_status-Moves :
      (status : CommandDeliveryStatus) (o : CommandDeliveryOutcome) (i generation now due : ℕ)
      → Moves R (apply_status status o i generation now due)
  unfolding apply_status
  apply_status-Moves CommandDeliveryStatus.started o i generation now due db = L.stay db
  apply_status-Moves CommandDeliveryStatus.succeeded o i generation now due db =
      L.write (λ j. outcome_filter o i generation j && is_running j.state) (succeed_row now)
        (λ j h.
          L.succeeding now j
            (is_running-eq j.state (&&-right (outcome_filter o i generation j) _ h)))
        db
  apply_status-Moves CommandDeliveryStatus.dead_lettered o i generation now due db =
      finish_dead_letter_from_outcome-Moves o i generation now db
  apply_status-Moves retry_scheduled o i generation now due db =
      republish-Moves o i generation now due db
  apply_status-Moves continued o i generation now due db = republish-Moves o i generation now due db

  apply_identified-Moves :
      (lib : Stdlib) (now : ℕ) (o : CommandDeliveryOutcome) (due : ℕ) (r : Option String)
      (g : Option ℕ)
      → Moves R (apply_identified lib now o due r g)
  unfolding apply_identified
  apply_identified-Moves lib now o due none g db = L.stay db
  apply_identified-Moves lib now o due (some r) none db = L.stay db
  apply_identified-Moves lib now o due (some r) (some g) db =
      elim (Option-cases (lib.parse_uuid r)) [
        | inl e ↦ rw (e, apply_identified) (L.stay db)
        | inr (i, e) ↦ rw (e, apply_identified) (apply_status-Moves o.status o i g now due db)
      ]

  pub apply_outcome-Moves :
      (lib : Stdlib) (now : ℕ) (o : CommandDeliveryOutcome) (due : ℕ)
      → Moves R (apply_outcome lib now o due)
  unfolding apply_outcome
  apply_outcome-Moves lib now o due =
      apply_identified-Moves lib now o due o.durable_record_id o.durable_generation
