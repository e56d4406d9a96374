-- ===== src/Durable/Series/Completion.antt =====
-- What the success of a recurring job leads to: `complete_recurring_success` of
-- src/pybus/integrations/django_durable/store.py.
use mathlib.Core.Option
use mathlib.Core.Path.{subst}
use pybus.Codec.{Stdlib}
use pybus.Durable.Queries.{
  StoreError, find_series, finish_series, integrity_error, invalid_message_definition, is_active,
  is_running, save_job, write_series,
}
use pybus.Durable.Schedule.{conflicts, create_job, draft_row}
use pybus.Durable.Series.{
  HandlerResult, advance_series, complete_found, complete_locked, complete_recurring_success,
  complete_series, is_recurrence_result, next_run, succeed_running, successor,
}
use pybus.Durable.Settle.{CommandDeliveryOutcome, outcome_filter, succeed_row}
use pybus.Durable.Types.{Db, DurableJob, DurableJobState, JobSeries, pending, running}
use pybus.Prelude.{
  Bool, Bool-cases, List, String, [], any, ap, arith, false, first_where, inl, inr, none, refl,
  some, sym, true, update_first, ℕ, ◌++◌, ◌+◌, ◌∙◌, ◌∷◌, ◌≡◌, ◌⊎◌,
}
use pybus.Prelude.Exec.{Result, Result-cases, err, ok, rolled_back}
use pybus.Recurrence.{Calendar}

-- A row of the table is such.
pub data SomeRow (P : DurableJob → Type 0) : List DurableJob → Type 0 where
  at_head : {j : DurableJob} {js : List DurableJob} → P j → SomeRow P (j ∷ js)
  further : {j : DurableJob} {js : List DurableJob} → SomeRow P js → SomeRow P (j ∷ js)

SomeRow-append :
    (P : DurableJob → Type 0) (xs ys : List DurableJob) → SomeRow P xs → SomeRow P (xs ++ ys)
SomeRow-append P [] ys h = elim h [ ]
SomeRow-append P (x ∷ xs) ys (at_head p) = at_head p
SomeRow-append P (x ∷ xs) ys (further h) = further (SomeRow-append P xs ys h)

SomeRow-last :
    (P : DurableJob → Type 0) (xs : List DurableJob) (y : DurableJob)
    → P y
    → SomeRow P (xs ++ y ∷ [])
SomeRow-last P [] y p = at_head p
SomeRow-last P (x ∷ xs) y p = further (SomeRow-last P xs y p)

SomeRow-update_first :
    (P : DurableJob → Type 0) (p : DurableJob → Bool) (f : DurableJob → DurableJob)
    (xs : List DurableJob) (j : DurableJob)
    → first_where p xs ≡ some j
    → P (f j)
    → SomeRow P (update_first p f xs)
unfolding update_first first_where
SomeRow-update_first P p f [] j h q = cc
SomeRow-update_first P p f (x ∷ xs) j h q = elim (Bool-cases (p x)) [
  | inl e ↦
      let same : j ≡ x = ground arith in
      rw (e, update_first) (at_head (subst (λ (t : DurableJob). P (f t)) same q))
  | inr e ↦ rw (e, update_first) (further (SomeRow-update_first P p f xs j (ground arith) q))
]

-- The row `k` is the row `j`, succeeded.
pub record IsSucceeded (at : ℕ) (j k : DurableJob) : Type 0 where
  pub same : (k.id ≡ j.id) × (k.message_id ≡ j.message_id) × (k.generation ≡ j.generation)
  pub state : k.state ≡ DurableJobState.succeeded
  pub ended :
      (k.lease_owner ≡ none)
      × (k.lease_expires_at ≡ none)
      × (k.reconciliation_due_at ≡ none)
      × (k.finished_at ≡ some at)

-- The row `k` is the next occurrence of the series, which waits for its time.
pub record IsNext (s : JobSeries) (next_at : ℕ) (k : DurableJob) : Type 0 where
  pub place : (k.series ≡ some s.id) × (k.occurrence_number ≡ some (s.latest_occurrence_number + 1))
  pub work :
      (k.message_type ≡ s.message_type)
      × (k.version ≡ s.version)
      × (k.payload ≡ s.payload)
      × (k.headers ≡ s.headers)
      × (k.queue ≡ s.queue)
  pub waits : (k.state ≡ pending) × (k.generation ≡ 0) × (k.available_at ≡ next_at)

-- What the series comes to: it was closed already, it ends, or it goes on at a next time.
pub data Sequel (cal : Calendar) (s : JobSeries) (result : HandlerResult) (at : ℕ) (db : Db)
    : Type 0 where
  was_closed : is_active s.state ≡ false → Sequel cal s result at db
  ends : is_active s.state ≡ true → next_run cal s result at ≡ ok none → Sequel cal s result at db
  goes_on :
      {next_at : ℕ}
      → is_active s.state ≡ true
      → next_run cal s result at ≡ ok (some next_at)
      → SomeRow (IsNext s next_at) db.jobs
      → Sequel cal s result at db

-- Either nothing has happened, and an error is raised, or the job has succeeded, and its series has come to
-- its sequel.
abbrev pub AllOrNothing :
    Calendar
    → JobSeries
    → DurableJob
    → HandlerResult
    → ℕ
    → Db
    → Result StoreError Bool × Db
    → Type 0
AllOrNothing cal s j result at db out =
    ((e : StoreError) × (out ≡ (err e, db)))
    ⊎ ((out.0 ≡ ok true) × SomeRow (IsSucceeded at j) out.1.jobs × Sequel cal s result at out.1)

succeed_row-IsSucceeded : (at : ℕ) (j : DurableJob) → IsSucceeded at j (succeed_row at j)
unfolding succeed_row
succeed_row-IsSucceeded at j = record {
  same = (refl, refl, refl);
  state = refl;
  ended = (refl, refl, refl, refl);
}

successor-IsNext :
    (id : ℕ) (message_id : String) (s : JobSeries) (at next_at : ℕ)
    → IsNext s next_at (successor id message_id s at next_at)
unfolding successor draft_row
successor-IsNext id message_id s at next_at = record {
  place = (refl, refl);
  work = (refl, refl, refl, refl, refl);
  waits = (refl, refl, refl);
}

module _ (cal : Calendar) (id : ℕ) (message_id : String) (result : HandlerResult) (at : ℕ)
    (owned : DurableJob → Bool) (s : JobSeries) (j : DurableJob) (db : Db)
    (found : first_where owned db.jobs ≡ some j) where
  save_job-IsSucceeded : SomeRow (IsSucceeded at j) (save_job owned (succeed_row at) db).jobs
  unfolding save_job
  save_job-IsSucceeded =
      SomeRow-update_first (IsSucceeded at j) owned (succeed_row at) db.jobs j found
        (succeed_row-IsSucceeded at j)

  succeed_running-AllOrNothing :
      AllOrNothing cal s j result at db
        (rolled_back db (succeed_running cal id message_id result at owned s db))
  unfolding succeed_running advance_series create_job write_series finish_series
  succeed_running-AllOrNothing = elim (Bool-cases (is_active s.state)) [
    | inr shut ↦ rw (succeed_running, shut) (inr (refl, save_job-IsSucceeded, was_closed shut))
    | inl active ↦ elim (Result-cases (next_run cal s result at)) [
      | inl (e, bad) ↦ rw (succeed_running, active, bad) (inl (e, refl))
      | inr (none, last) ↦
          rw (succeed_running, active, last) (inr (refl, save_job-IsSucceeded, ends active last))
      | inr (some next_at, more) ↦
          let new = successor id message_id s at next_at in
          let after = save_job owned (succeed_row at) db in
          elim (Bool-cases (any (conflicts new) after.jobs)) [
            | inl clash ↦
                rw (succeed_running, active, more, advance_series, create_job, clash)
                  (inl (integrity_error, refl))
            | inr free ↦
                rw (succeed_running, active, more, advance_series, create_job, free)
                  (inr (
                    refl,
                    SomeRow-append (IsSucceeded at j) after.jobs (new ∷ []) save_job-IsSucceeded,
                    goes_on active more (
                        SomeRow-last (IsNext s next_at) after.jobs new
                          (successor-IsNext id message_id s at next_at)),
                  ))
          ]
    ]
  ]

complete_found-AllOrNothing :
    (cal : Calendar) (id : ℕ) (message_id : String) (result : HandlerResult) (at i : ℕ)
    (owned : DurableJob → Bool) (s : JobSeries) (j : DurableJob) (db : Db)
    → first_where owned db.jobs ≡ some j
    → find_series i db.series ≡ some s
    → j.state ≡ running
    → AllOrNothing cal s j result at db
        (complete_found cal id message_id result at owned (some (some i)) db)
unfolding complete_found complete_series complete_locked
complete_found-AllOrNothing cal id message_id result at i owned s j db found of is_busy =
    let busy : is_running j.state ≡ true = rw is_busy refl in
    elim (Bool-cases (is_recurrence_result result)) [
      | inl fit ↦
          rw (complete_found, complete_series, of, found, complete_locked, busy, fit)
            (succeed_running-AllOrNothing cal id message_id result at owned s j db found)
      | inr misfit ↦
          rw (complete_found, complete_series, of, found, complete_locked, busy, misfit)
            (inl (invalid_message_definition, refl))
    ]

-- The success of a running job of a series is all or nothing. Either an error is raised and the database is
-- as it was, or true is returned, the table has the row of the job as succeeded, without lease and deadline
-- and with its end, and, if the series was active and has a next time, it also has a pending row with the
-- series' message, the next number and that time.
pub complete_recurring_success-AllOrNothing :
    (lib : Stdlib) (cal : Calendar) (id : ℕ) (message_id : String) (o : CommandDeliveryOutcome)
    (result : HandlerResult) (at : ℕ) (db : Db) (r : String) (n i k : ℕ) (s : JobSeries)
    (j : DurableJob)
    → o.durable_record_id ≡ some r
    → o.durable_generation ≡ some n
    → lib.parse_uuid r ≡ some i
    → first_where (outcome_filter o i n) db.jobs ≡ some j
    → j.series ≡ some k
    → find_series k db.series ≡ some s
    → j.state ≡ running
    → AllOrNothing cal s j result at db
        (complete_recurring_success lib cal id message_id o result at db)
unfolding complete_recurring_success outcome_filter
complete_recurring_success-AllOrNothing lib cal id message_id o result at db r n i k s j named
      numbered parsed found of there is_busy =
    let owned = outcome_filter o i n in
    let snapshot : Option.map (λ (x : DurableJob). x.series) (first_where owned db.jobs)
        ≡ some (some k) =
      ap (Option.map (λ (x : DurableJob). x.series)) found ∙ ap some of in
    let same : complete_recurring_success lib cal id message_id o result at db
        ≡ complete_found cal id message_id result at owned (some (some k)) db =
      rw (named, numbered, parsed, complete_recurring_success)
        (ap (λ v. complete_found cal id message_id result at owned v db) snapshot) in
    subst (AllOrNothing cal s j result at db) (sym same)
      (complete_found-AllOrNothing cal id message_id result at k owned s j db found there is_busy)
