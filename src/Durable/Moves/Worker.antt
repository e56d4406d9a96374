-- ===== src/Durable/Moves/Worker.antt =====
-- Operations of the worker: `admit_delivery`, `checkpoint_settlement`, `release_delivery`,
-- `apply_outcome`.
use mathlib.Core.Path.{subst}
use pybus.Codec.{Stdlib}
use pybus.Durable.Admit.{
  DurableDeliveryAdmission, Verdict, admit, admit_delivery, admit_locked, admit_row, admit_snapshot,
  cancel_and_drop, carry_out, is_deliverable, refuse, verdict,
}
use pybus.Durable.Guards.{
  &&-left, &&-right, find_job-own, is_running-eq, running-live, verdict-admit, verdict-cancel,
}
use pybus.Durable.Life.{find_job}
use pybus.Durable.Moves.Basic.{
  Laws, Moves, atomic_bind-Moves, bind-Moves, if-Moves, lock_series-Moves,
}
use pybus.Durable.Queries.{
  by_id, cancel_occurrence, is_active, is_cancelled, is_running, lock_series,
}
use pybus.Durable.Settle.{
  DurableSettlement, checkpoint_row, checkpoint_settlement, guarded_found, guarded_locked,
  guarded_series_update, release_delivery, release_row, require_one, settlement_filter,
}
use pybus.Durable.Types.{Db, DurableJob, DurableJobState, JobSeries, is_terminal}
use pybus.Prelude.{
  Bool, Option, Option-cases, String, any, arith, eqb, eqb→eq, false, first_where, inl, inr, none,
  not, refl, some, sym, true, ℕ, ◌&&◌, ◌≡◌,
}

module _ {R : Db → Db → Type 0} {Q : DurableJob → DurableJob → Type 0}
    {A : DurableDeliveryAdmission → Type 0} {Y : ℕ → Type 0} (L : Laws R Q A Y) where
  -- A verdict is carried out where the row allows it.
  carry_out-Moves :
      (now : ℕ) (a : DurableDeliveryAdmission) (j : DurableJob) (v : Verdict) (db : Db)
      → A a
      → (v ≡ cancel_and_drop → is_terminal j.state ≡ false)
      → (v ≡ admit → is_deliverable j.state ≡ true)
      → find_job j.id db.jobs ≡ some j
      → R db (carry_out now a j v db).1
  unfolding carry_out find_job
  carry_out-Moves now a j (refuse d) db good live deliverable found = L.stay db
  carry_out-Moves now a j cancel_and_drop db good live deliverable found =
      L.save (by_id j.id) (cancel_occurrence now) db j found (L.cancelling now j (live refl))
  carry_out-Moves now a j admit db good live deliverable found =
      L.save (by_id j.id) (admit_row now a) db j found (L.admitting now a j good (deliverable refl))

  admit_locked-Moves :
      (lib : Stdlib) (now : ℕ) (a : DurableDeliveryAdmission) (i : ℕ) (s : Option JobSeries)
      → A a
      → Moves R (admit_locked lib now a i s)
  unfolding admit_locked
  admit_locked-Moves lib now a i s good db = elim (Option-cases (find_job i db.jobs)) [
    | inl e ↦ rw (e, admit_locked) (L.stay db)
    | inr (j, e) ↦
        rw (e, admit_locked)
          (carry_out-Moves now a j (verdict lib a s j) db good (verdict-cancel lib a s j)
            (verdict-admit lib a s j) (find_job-own i db.jobs j e))
  ]

  admit_snapshot-Moves :
      (lib : Stdlib) (now : ℕ) (a : DurableDeliveryAdmission) (i : ℕ)
      → A a
      → Moves R (admit_snapshot lib now a i)
  unfolding admit_snapshot
  admit_snapshot-Moves lib now a i good db = elim (Option-cases (find_job i db.jobs)) [
    | inl e ↦ rw (e, admit_snapshot) (L.stay db)
    | inr (j, e) ↦
        rw (e, admit_snapshot)
          (atomic_bind-Moves L (lock_series j.series) (admit_locked lib now a i)
            (lock_series-Moves L j.series) (λ s. admit_locked-Moves lib now a i s good) db)
  ]

  pub admit_delivery-Moves :
      (lib : Stdlib) (now : ℕ) (a : DurableDeliveryAdmission)
      → A a
      → Moves R (admit_delivery lib now a)
  unfolding admit_delivery
  admit_delivery-Moves lib now a good db = elim (Option-cases (lib.parse_uuid a.record_id)) [
    | inl e ↦ rw (e, admit_delivery) (L.stay db)
    | inr (i, e) ↦ rw (e, admit_delivery) (admit_snapshot-Moves lib now a i good db)
  ]

  guarded_locked-Moves :
      (guard : DurableJob → Bool) (values : DurableJob → DurableJob) (at : ℕ) (s : JobSeries)
      → ((j : DurableJob) → guard j ≡ true → Q j (values j))
      → ((j : DurableJob) → guard j ≡ true → is_terminal j.state ≡ false)
      → Moves R (guarded_locked guard values at s)
  unfolding guarded_locked
  guarded_locked-Moves guard values at s good live db =
      if-Moves L (not (any guard db.jobs)) db _ _ (λ _. L.stay db)
        (λ _.
          if-Moves L (is_cancelled s.state) db _ _
            (λ _. L.write guard (cancel_occurrence at) (λ j h. L.cancelling at j (live j h)) db)
            (λ _.
              if-Moves L (not (is_active s.state)) db _ _ (λ _. L.stay db)
                (λ _. L.write guard values good db)))

  guarded_found-Moves :
      (guard : DurableJob → Bool) (values : DurableJob → DurableJob) (at : ℕ) (s : Option JobSeries)
      → ((j : DurableJob) → guard j ≡ true → Q j (values j))
      → ((j : DurableJob) → guard j ≡ true → is_terminal j.state ≡ false)
      → Moves R (guarded_found guard values at s)
  unfolding guarded_found
  guarded_found-Moves guard values at none good live db = L.write guard values good db
  guarded_found-Moves guard values at (some s) good live db =
      guarded_locked-Moves guard values at s good live db

  pub guarded_series_update-Moves :
      (filters : DurableJob → Bool) (expected : DurableJobState → Bool)
      (values : DurableJob → DurableJob) (at : ℕ)
      → ((j : DurableJob) → filters j ≡ true → expected j.state ≡ true → Q j (values j))
      → ((s : DurableJobState) → expected s ≡ true → is_terminal s ≡ false)
      → Moves R (guarded_series_update filters expected values at)
  unfolding guarded_series_update
  guarded_series_update-Moves filters expected values at good live db =
      elim (Option-cases (first_where filters db.jobs)) [
        | inl e ↦ rw (e, guarded_series_update) (L.stay db)
        | inr (j, e) ↦
            let guard = λ (k : DurableJob). filters k && expected k.state in
            rw (e, guarded_series_update)
              (atomic_bind-Moves L (lock_series j.series) (guarded_found guard values at)
                (lock_series-Moves L j.series)
                (λ s.
                  guarded_found-Moves guard values at s
                    (λ k h. good k (&&-left (filters k) _ h) (&&-right (filters k) _ h))
                    (λ k h. live k.state (&&-right (filters k) _ h)))
                db)
      ]

  require_one-Moves : (n : ℕ) → Moves R (require_one n)
  unfolding require_one
  require_one-Moves n db = if-Moves L (eqb n 1) db _ _ (λ _. L.stay db) (λ _. L.stay db)

  settled_id :
      (s : DurableSettlement) (i : ℕ) (j : DurableJob) → settlement_filter s i j ≡ true → j.id ≡ i
  unfolding settlement_filter
  settled_id s i j f = ground arith

  pub checkpoint_settlement-Moves :
      (lib : Stdlib) (now : ℕ) (s : DurableSettlement)
      → ((i : ℕ) → lib.parse_uuid s.record_id ≡ some i → Y i)
      → Moves R (checkpoint_settlement lib now s)
  unfolding checkpoint_settlement
  checkpoint_settlement-Moves lib now s may db = elim (Option-cases (lib.parse_uuid s.record_id)) [
    | inl e ↦ rw (e, checkpoint_settlement) (L.stay db)
    | inr (i, e) ↦
        rw (e, checkpoint_settlement)
          (bind-Moves L
            (guarded_series_update (settlement_filter s i) is_running (checkpoint_row s) now)
            require_one
            (guarded_series_update-Moves (settlement_filter s i) is_running (checkpoint_row s) now
              (λ j f h.
                L.checkpointing s j (subst Y (sym (settled_id s i j f)) (may i e))
                  (is_running-eq j.state h))
              running-live)
            require_one-Moves db)
  ]

  pub release_delivery-Moves :
      (lib : Stdlib) (now : ℕ) (record_id : String) (generation due : ℕ)
      → ((i : ℕ) → lib.parse_uuid record_id ≡ some i → Y i)
      → Moves R (release_delivery lib now record_id generation due)
  unfolding release_delivery
  release_delivery-Moves lib now record_id generation due may db =
      elim (Option-cases (lib.parse_uuid record_id)) [
        | inl e ↦ rw (e, release_delivery) (L.stay db)
        | inr (i, e) ↦
            rw (e, release_delivery)
              (bind-Moves L
                (guarded_series_update (λ j. eqb j.id i && eqb j.generation generation) is_running
                  (release_row due) now)
                require_one
                (guarded_series_update-Moves (λ j. eqb j.id i && eqb j.generation generation)
                  is_running (release_row due) now
                  (λ j f h.
                    L.releasing due j
                      (subst Y (sym (eqb→eq j.id i (&&-left (eqb j.id i) _ f))) (may i e))
                      (is_running-eq j.state h))
                  running-live)
                require_one-Moves db)
      ]
