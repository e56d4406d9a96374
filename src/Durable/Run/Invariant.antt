-- ===== src/Durable/Run/Invariant.antt =====
-- What holds of every row of a table that the store has written.
use pybus.Codec.{Stdlib}
use pybus.Durable.Admit.{DurableDeliveryAdmission, admit_row, is_deliverable}
use pybus.Durable.Claim.{DurableJobClaim, claim_row, mark_exhausted}
use pybus.Durable.Moves.Basic.{Laws}
use pybus.Durable.Publish.{dead_letter_claimed, indeterminate_row, publish_row}
use pybus.Durable.Queries.{cancel_occurrence, save_job, write_jobs}
use pybus.Durable.Run.{Admissions, Call, history}
use pybus.Durable.Run.Histories.{Admissions-Lawful, history-Moves}
use pybus.Durable.Schedule.{DurableJobDraft, draft_row}
use pybus.Durable.Settle.{
  CommandDeliveryOutcome, DurableSettlement, checkpoint_row, dead_letter_settled, release_row,
  republish_row, succeed_row,
}
use pybus.Durable.Types.{
  Db, DurableJob, DurableJobState, claimed, handler_outcome, indeterminate, is_terminal, pending,
  publication_acknowledgement, published, running, settling,
}
use pybus.Prelude.{
  All, All-append, All-update_first, All-update_where, Bool, List, Option, String, [], arith, false,
  is_some, none, some, true, ℕ, ◌<◌, ◌∷◌, ◌≡◌, ◌⊎◌,
}
use pybus.Recurrence.{Calendar}

-- `PUBLISHED`, `RUNNING` or `SETTLING`: an outcome is awaited.
abbrev pub is_awaiting : DurableJobState → Bool
is_awaiting published = true
is_awaiting running = true
is_awaiting settling = true
is_awaiting _ = false

-- The states that a job reaches only through a claim.
abbrev pub was_claimed : DurableJobState → Bool
was_claimed pending = false
was_claimed DurableJobState.cancelled = false
was_claimed _ = true

-- A job that has ended holds no lease and no deadline, and has its end recorded; a claimed one has a
-- lease that runs out; one whose outcome is awaited has a deadline; an indeterminate one has a deadline
-- exactly if its publication is what is in doubt; a running one knows its retry limit; the generation
-- is 0 as long as the job is pending and above 0 after a claim.
pub record IsSound (j : DurableJob) : Type 0 where
  pub ended :
      is_terminal j.state ≡ true
      → (j.lease_owner ≡ none)
        × (j.lease_expires_at ≡ none)
        × (j.reconciliation_due_at ≡ none)
        × (is_some j.finished_at ≡ true)
  pub leased : j.state ≡ claimed → is_some j.lease_expires_at ≡ true
  pub awaited : is_awaiting j.state ≡ true → is_some j.reconciliation_due_at ≡ true
  pub unsure :
      j.state ≡ indeterminate
      → ((j.indeterminate_reason ≡ some publication_acknowledgement)
          × (is_some j.reconciliation_due_at ≡ true))
        ⊎ ((j.indeterminate_reason ≡ some handler_outcome) × (j.reconciliation_due_at ≡ none))
  pub limited : j.state ≡ running → is_some j.max_retries ≡ true
  pub fresh : j.state ≡ pending → j.generation ≡ 0
  pub numbered : was_claimed j.state ≡ true → 0 < j.generation

-- Each write of the store keeps a row sound.
module _ (j : DurableJob) (v : IsSound j) where
  cancel_occurrence-IsSound : (at : ℕ) → IsSound (cancel_occurrence at j)
  unfolding cancel_occurrence
  cancel_occurrence-IsSound at = ground arith

  mark_exhausted-IsSound : j.state ≡ running → IsSound (mark_exhausted j)
  unfolding mark_exhausted
  mark_exhausted-IsSound h = ground arith

  claim_row-IsSound : (w : String) (now lease : ℕ) → IsSound (claim_row w now lease j)
  unfolding claim_row
  claim_row-IsSound w now lease = ground arith

  dead_letter_claimed-IsSound : (at : ℕ) → j.state ≡ claimed → IsSound (dead_letter_claimed at j)
  unfolding dead_letter_claimed
  dead_letter_claimed-IsSound at h = ground arith

  publish_row-IsSound :
      (c : DurableJobClaim) (due : ℕ) → j.state ≡ claimed → IsSound (publish_row c due j)
  unfolding publish_row
  publish_row-IsSound c due h = ground arith

  indeterminate_row-IsSound :
      (c : DurableJobClaim) (due : ℕ) → j.state ≡ claimed → IsSound (indeterminate_row c due j)
  unfolding indeterminate_row
  indeterminate_row-IsSound c due h = ground arith

  admit_row-IsSound :
      (now : ℕ) (a : DurableDeliveryAdmission)
      → is_some a.reconciliation_due_at ≡ true
      → is_deliverable j.state ≡ true
      → IsSound (admit_row now a j)
  unfolding admit_row
  admit_row-IsSound now a due h = ground arith

  checkpoint_row-IsSound :
      (s : DurableSettlement) → j.state ≡ running → IsSound (checkpoint_row s j)
  unfolding checkpoint_row
  checkpoint_row-IsSound s h = ground arith

  release_row-IsSound : (due : ℕ) → j.state ≡ running → IsSound (release_row due j)
  unfolding release_row
  release_row-IsSound due h = ground arith

  succeed_row-IsSound : (at : ℕ) → j.state ≡ running → IsSound (succeed_row at j)
  unfolding succeed_row
  succeed_row-IsSound at h = ground arith

  dead_letter_settled-IsSound :
      (o : CommandDeliveryOutcome) (at : ℕ)
      → j.state ≡ settling
      → IsSound (dead_letter_settled o at j)
  unfolding dead_letter_settled
  dead_letter_settled-IsSound o at h = ground arith

  republish_row-IsSound :
      (o : CommandDeliveryOutcome) (due : ℕ) → j.state ≡ settling → IsSound (republish_row o due j)
  unfolding republish_row
  republish_row-IsSound o due h = ground arith

draft_row-IsSound : (id : ℕ) (d : DurableJobDraft) (s n : Option ℕ) → IsSound (draft_row id d s n)
unfolding draft_row
draft_row-IsSound id d s n = ground arith

abbrev pub AllSound : Db → Type 0
AllSound db = All IsSound db.jobs

-- An admission says when its outcome is due, as `DurableJobController.admit` always does.
abbrev pub HasDeadline : DurableDeliveryAdmission → Type 0
HasDeadline a = is_some a.reconciliation_due_at ≡ true

IsSound-Laws :
    Laws (λ a b. AllSound a → AllSound b) (λ j k. IsSound j → IsSound k) HasDeadline (λ _. Unit)
unfolding write_jobs save_job
IsSound-Laws = record {
  stay = λ db h. h;
  compose = λ a b c p q h. q (p h);
  write = λ p f h db. All-update_where IsSound p f h db.jobs;
  save = λ p f db j found h. All-update_first IsSound p f db.jobs j found h;
  change_series = λ db series h. h;
  append = λ id d s n db _ h.
      All-append IsSound db.jobs (draft_row id d s n ∷ []) h (draft_row-IsSound id d s n, tt);
  cancelling = λ at j h v. cancel_occurrence-IsSound j v at;
  exhausting = λ j h v. mark_exhausted-IsSound j v h;
  claiming = λ w now lease j h v. claim_row-IsSound j v w now lease;
  dead_lettering = λ at j h v. dead_letter_claimed-IsSound j v at h;
  publishing = λ c due j h v. publish_row-IsSound j v c due h;
  doubting = λ c due j h v. indeterminate_row-IsSound j v c due h;
  admitting = λ now a j due h v. admit_row-IsSound j v now a due h;
  checkpointing = λ s j _ h v. checkpoint_row-IsSound j v s h;
  releasing = λ due j _ h v. release_row-IsSound j v due h;
  succeeding = λ at j h v. succeed_row-IsSound j v at h;
  dead_lettering_settled = λ o at j h v. dead_letter_settled-IsSound j v o at h;
  republishing = λ o due j h v. republish_row-IsSound j v o due h;
}

-- Every history of calls of the store whose admissions carry a deadline leaves every row of the
-- table sound, if every row was sound before.
pub history-AllSound :
    (lib : Stdlib) (cal : Calendar) (cs : List Call) (db : Db)
    → Admissions lib cal HasDeadline cs
    → AllSound db
    → AllSound (history lib cal cs db)
history-AllSound lib cal cs db due =
    history-Moves lib cal IsSound-Laws cs db (Admissions-Lawful lib cal HasDeadline cs due)
