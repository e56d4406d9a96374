-- ===== src/Durable/Run/Lifetime.antt =====
-- What every history keeps of a job.
use pybus.Codec.{Stdlib}
use pybus.Durable.Admit.{admit_row}
use pybus.Durable.Claim.{claim_row, mark_exhausted}
use pybus.Durable.Life.{
  Evolves, Evolves-append, Evolves-refl, Evolves-trans, Evolves-update_first, Evolves-update_where,
  Identity, Later, Later-refl, Later-trans, Later-write, find_job, find_job-Evolves,
}
use pybus.Durable.Moves.Basic.{Laws}
use pybus.Durable.Publish.{dead_letter_claimed, indeterminate_row, publish_row}
use pybus.Durable.Queries.{cancel_occurrence, save_job, write_jobs}
use pybus.Durable.Run.{Admissions, Call, deliver, history}
use pybus.Durable.Run.Histories.{Admissions-Lawful, history-Moves}
use pybus.Durable.Settle.{
  checkpoint_row, dead_letter_settled, release_row, republish_row, succeed_row,
}
use pybus.Durable.Types.{Db, DurableJob}
use pybus.Prelude.{List, [], ap, arith, refl, some, ℕ, ◌∷◌, ◌≡◌}
use pybus.Recurrence.{Calendar}

Later-Laws : Laws (λ a b. Evolves Later a.jobs b.jobs) Later (λ _. Unit) (λ _. Unit)
unfolding write_jobs save_job cancel_occurrence mark_exhausted claim_row dead_letter_claimed
    publish_row indeterminate_row admit_row checkpoint_row release_row succeed_row
    dead_letter_settled republish_row
Later-Laws = record {
  stay = λ db. Evolves-refl Later Later-refl db.jobs;
  compose = λ a b c.
      Evolves-trans Later (λ i j k. Later-trans {i = i} {j = j} {k = k}) a.jobs b.jobs c.jobs;
  write = λ p f h db. Evolves-update_where Later Later-refl p f h db.jobs;
  save = λ p f db j found h. Evolves-update_first Later Later-refl p f db.jobs j found h;
  change_series = λ db series. Evolves-refl Later Later-refl db.jobs;
  append = λ id d s n db _. Evolves-append Later Later-refl db.jobs _;
  cancelling = λ at j h. Later-write j _ refl (omega arith) (ground arith);
  exhausting = λ j h. Later-write j _ refl (omega arith) (ground arith);
  claiming = λ w now lease j h. Later-write j _ refl (omega arith) (ground arith);
  dead_lettering = λ at j h. Later-write j _ refl (omega arith) (ground arith);
  publishing = λ c due j h. Later-write j _ refl (omega arith) (ground arith);
  doubting = λ c due j h. Later-write j _ refl (omega arith) (ground arith);
  admitting = λ now a j _ h. Later-write j _ refl (omega arith) (ground arith);
  checkpointing = λ s j _ h. Later-write j _ refl (omega arith) (ground arith);
  releasing = λ due j _ h. Later-write j _ refl (omega arith) (ground arith);
  succeeding = λ at j h. Later-write j _ refl (omega arith) (ground arith);
  dead_lettering_settled = λ o at j h. Later-write j _ refl (omega arith) (ground arith);
  republishing = λ o due j h. Later-write j _ refl (omega arith) (ground arith);
}

pub any_admission :
    (lib : Stdlib) (cal : Calendar) (cs : List Call) → Admissions lib cal (λ _. Unit) cs
any_admission lib cal [] = tt
any_admission lib cal (deliver now a ∷ cs) = (tt, any_admission lib cal cs)
any_admission lib cal (_ ∷ cs) = any_admission lib cal cs

-- A job that is in the table is in it after every history of calls of the store, as a later version of
-- itself: the same message under the same id, key, series and number, a generation that is not older,
-- a state that the life cycle leads to, and if the job had succeeded, was dead-lettered or was
-- cancelled, the very same row.
pub history_keeps_job :
    (lib : Stdlib) (cal : Calendar) (cs : List Call) (db : Db) (i : ℕ) (j : DurableJob)
    → find_job i db.jobs ≡ some j
    → (k : DurableJob) × (find_job i (history lib cal cs db).jobs ≡ some k) × Later j k
history_keeps_job lib cal cs db i j found =
    find_job-Evolves Later (λ j k l. ap (λ (r : Identity). r.id) l.same) i db.jobs _ j
      (history-Moves lib cal Later-Laws cs db
        (Admissions-Lawful lib cal (λ _. Unit) cs (any_admission lib cal cs)))
      found
