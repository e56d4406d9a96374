-- ===== src/Durable/Moves/Basic.antt =====
-- The laws: what the writes of the store have to keep, given that admissions are in `A` and that the jobs
-- whose settlement is checkpointed, or whose delivery is released, have ids in `Y`.
use pybus.Durable.Admit.{DurableDeliveryAdmission, admit_row, is_deliverable}
use pybus.Durable.Claim.{DurableJobClaim, claim_row, mark_exhausted}
use pybus.Durable.Publish.{dead_letter_claimed, fail_active_series, indeterminate_row, publish_row}
use pybus.Durable.Queries.{
  Store, StoreError, cancel_occurrence, find_series, finish_series, is_active, lock_series,
  save_job, write_jobs,
}
use pybus.Durable.Schedule.{DurableJobDraft, conflicts, draft_row}
use pybus.Durable.Settle.{
  CommandDeliveryOutcome, DurableSettlement, checkpoint_row, dead_letter_settled, release_row,
  republish_row, succeed_row,
}
use pybus.Durable.Types.{
  Db, DurableJob, JobSeries, JobSeriesState, claimed, is_terminal, running, settling,
}
use pybus.Prelude.{
  Bool, List, Option, Option-cases, String, [], any, false, first_where, if◌then◌else◌, inl, inr,
  none, refl, some, true, ℕ, ◌++◌, ◌∷◌, ◌≡◌,
}
use pybus.Prelude.Exec.{Result, atomic, continue, err, ok, rolled_back, ◌>>=◌}

pub record Laws (R : Db → Db → Type 0) (Q : DurableJob → DurableJob → Type 0)
    (A : DurableDeliveryAdmission → Type 0) (Y : ℕ → Type 0) : Type 0 where
  pub stay : (db : Db) → R db db
  pub compose : (a b c : Db) → R a b → R b c → R a c
  pub write :
      (p : DurableJob → Bool) (f : DurableJob → DurableJob)
      → ((j : DurableJob) → p j ≡ true → Q j (f j))
      → (db : Db) → R db (write_jobs p f db)
  pub save :
      (p : DurableJob → Bool) (f : DurableJob → DurableJob) (db : Db) (j : DurableJob)
      → first_where p db.jobs ≡ some j
      → Q j (f j)
      → R db (save_job p f db)
  pub change_series : (db : Db) (series : List JobSeries) → R db (record db { series = series })
  pub append :
      (id : ℕ) (d : DurableJobDraft) (s n : Option ℕ) (db : Db)
      → any (conflicts (draft_row id d s n)) db.jobs ≡ false
      → R db (record db { jobs = db.jobs ++ draft_row id d s n ∷ [] })
  pub cancelling :
      (at : ℕ) (j : DurableJob) → is_terminal j.state ≡ false → Q j (cancel_occurrence at j)
  pub exhausting : (j : DurableJob) → j.state ≡ running → Q j (mark_exhausted j)
  pub claiming :
      (w : String) (now lease : ℕ) (j : DurableJob)
      → is_terminal j.state ≡ false
      → Q j (claim_row w now lease j)
  pub dead_lettering :
      (at : ℕ) (j : DurableJob) → j.state ≡ claimed → Q j (dead_letter_claimed at j)
  pub publishing :
      (c : DurableJobClaim) (due : ℕ) (j : DurableJob)
      → j.state ≡ claimed
      → Q j (publish_row c due j)
  pub doubting :
      (c : DurableJobClaim) (due : ℕ) (j : DurableJob)
      → j.state ≡ claimed
      → Q j (indeterminate_row c due j)
  pub admitting :
      (now : ℕ) (a : DurableDeliveryAdmission) (j : DurableJob)
      → A a
      → is_deliverable j.state ≡ true
      → Q j (admit_row now a j)
  pub checkpointing :
      (s : DurableSettlement) (j : DurableJob)
      → Y j.id
      → j.state ≡ running
      → Q j (checkpoint_row s j)
  pub releasing : (due : ℕ) (j : DurableJob) → Y j.id → j.state ≡ running → Q j (release_row due j)
  pub succeeding : (at : ℕ) (j : DurableJob) → j.state ≡ running → Q j (succeed_row at j)
  pub dead_lettering_settled :
      (o : CommandDeliveryOutcome) (at : ℕ) (j : DurableJob)
      → j.state ≡ settling
      → Q j (dead_letter_settled o at j)
  pub republishing :
      (o : CommandDeliveryOutcome) (due : ℕ) (j : DurableJob)
      → j.state ≡ settling
      → Q j (republish_row o due j)

-- `m` moves the database along `R`, whether it returns or raises.
abbrev pub Moves : (Db → Db → Type 0) → {A : Type 0} → Store A → Type 0
Moves R m = (db : Db) → R db (m db).1

module _ {R : Db → Db → Type 0} {Q : DurableJob → DurableJob → Type 0}
    {A : DurableDeliveryAdmission → Type 0} {Y : ℕ → Type 0} (L : Laws R Q A Y) where
  rolled_back-Moves :
      {B : Type 0} (db : Db) (r : Result StoreError B × Db) → R db r.1 → R db (rolled_back db r).1
  rolled_back-Moves db (ok a, db') h = h
  rolled_back-Moves db (err e, db') h = L.stay db

  pub atomic-Moves : {B : Type 0} (m : Store B) → Moves R m → Moves R (atomic m)
  atomic-Moves m h db = rolled_back-Moves db (m db) (h db)

  continue-Moves :
      {B C : Type 0} (db : Db) (r : Result StoreError B × Db) (f : B → Store C)
      → R db r.1
      → ((b : B) → Moves R (f b))
      → R db (continue r.0 f r.1).1
  continue-Moves db (ok b, db') f h k = L.compose db db' _ h (k b db')
  continue-Moves db (err e, db') f h k = h

  pub bind-Moves :
      {B C : Type 0} (m : Store B) (f : B → Store C)
      → Moves R m
      → ((b : B) → Moves R (f b))
      → Moves R (m >>= f)
  bind-Moves m f h k db = continue-Moves db (m db) f (h db) k

  pub atomic_bind-Moves :
      {B C : Type 0} (m : Store B) (f : B → Store C)
      → Moves R m
      → ((b : B) → Moves R (f b))
      → Moves R (atomic (m >>= f))
  atomic_bind-Moves m f h k = atomic-Moves (m >>= f) (bind-Moves m f h k)

  pub if-Moves :
      {B : Type 0} (b : Bool) (db : Db) (x y : Result StoreError B × Db)
      → (b ≡ true → R db x.1)
      → (b ≡ false → R db y.1)
      → R db (if b then x else y).1
  if-Moves true db x y hx hy = hx refl
  if-Moves false db x y hx hy = hy refl

  pub if_db-Moves :
      (b : Bool) (db x y : Db)
      → (b ≡ true → R db x)
      → (b ≡ false → R db y)
      → R db (if b then x else y)
  if_db-Moves true db x y hx hy = hx refl
  if_db-Moves false db x y hx hy = hy refl

  pub lock_series-Moves : (i : Option ℕ) → Moves R (lock_series i)
  unfolding lock_series
  lock_series-Moves none db = L.stay db
  lock_series-Moves (some i) db = elim (Option-cases (find_series i db.series)) [
    | inl e ↦ rw (e, lock_series) (L.stay db)
    | inr (s, e) ↦ rw (e, lock_series) (L.stay db)
  ]

  pub finish_series-Moves :
      (i : ℕ) (state : JobSeriesState) (at : ℕ) (db : Db) → R db (finish_series i state at db)
  unfolding finish_series
  finish_series-Moves i state at db = L.change_series db _

  pub fail_active_series-Moves :
      (s : Option JobSeries) (at : ℕ) (db : Db) → R db (fail_active_series s at db)
  unfolding fail_active_series
  fail_active_series-Moves none at db = L.stay db
  fail_active_series-Moves (some s) at db =
      if_db-Moves (is_active s.state) db _ _ (λ _. finish_series-Moves s.id _ at db)
        (λ _. L.stay db)
