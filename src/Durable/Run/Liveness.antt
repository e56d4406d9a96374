-- ===== src/Durable/Run/Liveness.antt =====
-- No job is forgotten: a sound row that has not ended can be claimed again in time.
use mathlib.Core.Path.{subst}
use pybus.Durable.Admit.{outcome_unknown}
use pybus.Durable.Claim.{
  cancelled_reclaimable, claim, claimable, eligible, exhausted, mark_exhausted, sweep,
}
use pybus.Durable.Claim.Choice.{claim-none}
use pybus.Durable.Life.{find_job}
use pybus.Durable.Queries.{by_id, cancel_occurrence, series_open, write_jobs}
use pybus.Durable.Run.Constraints.{Distinct}
use pybus.Durable.Run.Invariant.{IsSound}
use pybus.Durable.Types.{Db, DurableJob, JobSeries, is_terminal}
use pybus.Prelude.{
  All-first_where, Bool, Bool-cases, List, Option, String, [], arith, eqb, false, inl, inr, is_some,
  leb, le→leb, ltb, max, none, or_else, refl, some, some_and, suc, sym, true, update_where, ℕ, ◌<◌,
  ◌∷◌, ◌≡◌, ◌≢◌, ◌≤◌,
}
use pybus.Prelude.Exec.{ok}

-- From this time on nothing in the row itself keeps it from being claimed.
abbrev pub wake_up : DurableJob → ℕ
wake_up j =
    max j.available_at
      (max (suc (or_else j.lease_expires_at 0)) (or_else j.reconciliation_due_at 0))

wake_up-parts :
    (j : DurableJob) (now : ℕ)
    → wake_up j ≤ now
    → (j.available_at ≤ now)
      × (or_else j.lease_expires_at 0 < now)
      × (or_else j.reconciliation_due_at 0 ≤ now)
wake_up-parts j now h = omega arith

some_and-lt :
    (o : Option ℕ) (now : ℕ)
    → is_some o ≡ true
    → or_else o 0 < now
    → some_and (λ t. ltb t now) o ≡ true
some_and-lt none now h l = cc
some_and-lt (some t) now h l = ground arith

some_and-le :
    (o : Option ℕ) (now : ℕ)
    → is_some o ≡ true
    → or_else o 0 ≤ now
    → some_and (λ t. leb t now) o ≡ true
some_and-le none now h l = cc
some_and-le (some t) now h l = le→leb t now l

claimable_in_time :
    (j : DurableJob) (now : ℕ)
    → IsSound j
    → is_terminal j.state ≡ false
    → outcome_unknown j.state j.indeterminate_reason ≡ false
    → wake_up j ≤ now
    → claimable now j ≡ true
unfolding claimable
claimable_in_time j now v live known late =
    let (_, lease, due) = wake_up-parts j now late in
    ground (
      arith,
      some_and-lt j.lease_expires_at now,
      some_and-le j.reconciliation_due_at now,
      v.leased,
      v.awaited,
      v.unsure,
    )

eligible_in_time :
    (j : DurableJob) (series : List JobSeries) (now : ℕ)
    → IsSound j
    → is_terminal j.state ≡ false
    → outcome_unknown j.state j.indeterminate_reason ≡ false
    → series_open series j ≡ true
    → wake_up j ≤ now
    → eligible now series j ≡ true
unfolding eligible
eligible_in_time j series now v live known open_series late = ground (
  arith,
  claimable_in_time j now v live known late,
  le→leb j.available_at now (wake_up-parts j now late).0,
)

find_job-skipped :
    (p : DurableJob → Bool) (f : DurableJob → DurableJob) (i : ℕ) (js : List DurableJob)
    (m : DurableJob)
    → ((j : DurableJob) → (f j).id ≡ j.id)
    → find_job i js ≡ some m
    → p m ≡ false
    → find_job i (update_where p f js) ≡ some m
unfolding find_job update_where
find_job-skipped p f i [] m keeps h q = cc
find_job-skipped p f i (j ∷ js) m keeps h q = elim (Bool-cases (eqb j.id i)) [
  | inl e ↦
      let found : some j ≡ some m = rw e at h in
      let same : j ≡ m = cc in
      let passes : p j ≡ false = subst (λ (t : DurableJob). p t ≡ false) (sym same) q in
      rw passes (rw e found)
  | inr e ↦
      let rest = find_job-skipped p f i js m keeps (rw e at h) q in
      elim (Bool-cases (p j)) [
        | inl b ↦ let kept : eqb (f j).id i ≡ false = rw (keeps j) e in rw b (rw kept rest)
        | inr b ↦ rw b (rw e rest)
      ]
]

open_not_cancelled :
    (now : ℕ) (series : List JobSeries) (j : DurableJob)
    → series_open series j ≡ true
    → cancelled_reclaimable now series j ≡ false
unfolding series_open cancelled_reclaimable
open_not_cancelled now series j h = ground arith

-- A claim outside a transaction, on a table that keeps its constraints, finds a job whenever some
-- sound row has not ended, is not given up with an unknown outcome, is not out of retries, stands
-- in no series or in an active one, and its start, its lease and its deadline are over.
pub claim_progress :
    (w : String) (now lease : ℕ) (db : Db) (i : ℕ) (j : DurableJob)
    → Distinct db.jobs
    → find_job i db.jobs ≡ some j
    → IsSound j
    → is_terminal j.state ≡ false
    → outcome_unknown j.state j.indeterminate_reason ≡ false
    → exhausted now db.series j ≡ false
    → series_open db.series j ≡ true
    → wake_up j ≤ now
    → (claim false w now lease db).0 ≢ ok none
claim_progress w now lease db i j d found v live known left open_series late e =
    let kept : find_job i (sweep now db).jobs ≡ some j =
      unfold sweep write_jobs in
      find_job-skipped (exhausted now db.series) mark_exhausted i _ j
        (λ k. unfold mark_exhausted in refl)
        (find_job-skipped (cancelled_reclaimable now db.series) (cancel_occurrence now) i db.jobs j
          (λ k. unfold cancel_occurrence in refl) found
          (open_not_cancelled now db.series j open_series))
        left in
    let none_left : eligible now db.series j ≡ false =
      unfold find_job in
      All-first_where (λ k. eligible now db.series k ≡ false) (by_id i) (sweep now db).jobs j kept
        (claim-none w now lease db d e) in
    let some_left = eligible_in_time j db.series now v live known open_series late in cc
