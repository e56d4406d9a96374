-- ===== src/Durable/Schedule/Idempotency.antt =====
-- An idempotency key identifies one job.
use mathlib.Core.Path.{subst}
use pybus.Durable.Queries.{StoreError, durable_job_conflict}
use pybus.Durable.Schedule.{
  DurableJobDraft, conflicts, create_job, draft_row, existing_job, find_key, recover_job, same_key,
  schedule,
}
use pybus.Durable.Types.{Db, DurableJob}
use pybus.Prelude.{
  Bool-cases, List, Option, String, [], any, ap, arith, eq_refl, false, if◌then◌else◌, inl, inr,
  none, some, sym, true, ℕ, ◌++◌, ◌==◌, ◌∙◌, ◌∷◌, ◌≡◌,
}
use pybus.Prelude.Exec.{Result, err, ok}

conflict_of_key :
    (id : ℕ) (d : DurableJobDraft) (key : String) (js : List DurableJob) (j : DurableJob)
    → d.idempotency_key ≡ some key
    → find_key key js ≡ some j
    → any (conflicts (draft_row id d none none)) js ≡ true
unfolding find_key conflicts draft_row
conflict_of_key id d key [] j k h = cc
conflict_of_key id d key (x ∷ xs) j k h =
    elim (Bool-cases (same_key x.idempotency_key (some key))) [
      | inl e ↦
          let clash : same_key x.idempotency_key d.idempotency_key ≡ true = rw k e in ground arith
      | inr e ↦ ground (arith, conflict_of_key id d key xs j k (rw e at h))
    ]

find_key-append :
    (id : ℕ) (d : DurableJobDraft) (key : String) (js : List DurableJob)
    → d.idempotency_key ≡ some key
    → any (conflicts (draft_row id d none none)) js ≡ false
    → find_key key (js ++ draft_row id d none none ∷ []) ≡ some (draft_row id d none none)
unfolding find_key conflicts draft_row
find_key-append id d key [] k h = rw k (rw (eq_refl key))
find_key-append id d key (x ∷ xs) k h =
    let free : same_key x.idempotency_key d.idempotency_key ≡ false = ground arith in
    let other : same_key x.idempotency_key (some key) ≡ false = rw k at free in
    rw other (find_key-append id d key xs k (ground arith))

-- Once its key is taken, a draft yields the job of the key or a conflict, and writes nothing.
schedule_taken :
    (id : ℕ) (d : DurableJobDraft) (key : String) (db : Db) (j : DurableJob)
    → d.idempotency_key ≡ some key
    → find_key key db.jobs ≡ some j
    → schedule id d db
      ≡ ((if j.fingerprint == d.fingerprint then ok j else err durable_job_conflict), db)
unfolding schedule
schedule_taken id d key db j k h =
    rw (conflict_of_key id d key db.jobs j k h, create_job)
      (rw (k, recover_job) (rw (h, recover_job) split))
  where
    split :
        existing_job d key (some j) db
        ≡ ((if j.fingerprint == d.fingerprint then ok j else err durable_job_conflict), db)
    split = elim (Bool-cases (j.fingerprint == d.fingerprint)) [
      | inl e ↦ rw (e, existing_job)
      | inr e ↦ rw (e, existing_job)
    ]

existing_job-found :
    (d : DurableJobDraft) (key : String) (o : Option DurableJob) (db : Db) (j : DurableJob)
    → (existing_job d key o db).0 ≡ ok j
    → (o ≡ some j) × ((existing_job d key o db).1 ≡ db)
unfolding existing_job
existing_job-found d key none db j h = cc
existing_job-found d key (some k) db j h = elim (Bool-cases (k.fingerprint == d.fingerprint)) [
  | inl e ↦
      let both : ◌≡◌ {A = Result StoreError DurableJob} (ok k) (ok j) = rw (e, existing_job) at h in
      (cc, rw (e, existing_job))
  | inr e ↦
      let both : ◌≡◌ {A = Result StoreError DurableJob} (err durable_job_conflict) (ok j) =
        rw (e, existing_job) at h in
      cc
]

-- A job that was scheduled under a key is the one that the key finds.
schedule-find_key :
    (id : ℕ) (d : DurableJobDraft) (key : String) (db : Db) (j : DurableJob)
    → d.idempotency_key ≡ some key
    → (schedule id d db).0 ≡ ok j
    → find_key key (schedule id d db).1.jobs ≡ some j
unfolding schedule
schedule-find_key id d key db j k h =
    elim (Bool-cases (any (conflicts (draft_row id d none none)) db.jobs)) [
      | inl e ↦
          let told : (existing_job d key (find_key key db.jobs) db).0 ≡ ok j =
            rw (k, recover_job) at (rw (e, create_job) at h) in
          let (found, same) = existing_job-found d key (find_key key db.jobs) db j told in
          rw (e, create_job)
            (rw (k, recover_job)
              (subst (λ (b : Db). find_key key b.jobs ≡ some j) (sym same) found))
      | inr e ↦
          let both : ◌≡◌ {A = Result StoreError DurableJob} (ok (draft_row id d none none)) (ok j) =
            rw (e, create_job) at h in
          let same : draft_row id d none none ≡ j = cc in
          rw (e, create_job) (find_key-append id d key db.jobs k e ∙ ap some same)
    ]

-- Scheduling under a key that a job was scheduled under, with success, returns that very job if the
-- fingerprints agree, and a conflict if not; either way nothing is written.
pub schedule-schedule :
    (id id' : ℕ) (d d' : DurableJobDraft) (key : String) (db : Db) (j : DurableJob)
    → d.idempotency_key ≡ some key
    → d'.idempotency_key ≡ some key
    → (schedule id d db).0 ≡ ok j
    → schedule id' d' (schedule id d db).1 ≡ (
      (if j.fingerprint == d'.fingerprint then ok j else err durable_job_conflict),
      (schedule id d db).1,
    )
schedule-schedule id id' d d' key db j k k' h =
    schedule_taken id' d' key (schedule id d db).1 j k' (schedule-find_key id d key db j k h)
