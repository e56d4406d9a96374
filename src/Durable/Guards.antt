-- ===== src/Durable/Guards.antt =====
-- What the row filters of the store say of a row that passes.
use mathlib.Core.Path.{subst}
use pybus.Codec.{Stdlib}
use pybus.Durable.Admit.{
  DurableDeliveryAdmission, admit, cancel_and_drop, is_deliverable, message_verdict,
  retries_verdict, verdict,
}
use pybus.Durable.Claim.{
  DurableJobClaim, cancelled_reclaimable, claimable, comes_before, earliest, eligible, exhausted,
  same_version, sooner,
}
use pybus.Durable.Life.{find_job}
use pybus.Durable.Publish.{holds_claim}
use pybus.Durable.Queries.{by_id, is_running, is_settling, same_state}
use pybus.Durable.Schedule.{DurableJobDraft, JobSeriesDraft, recover_job, recover_series}
use pybus.Durable.Series.{is_cancellable}
use pybus.Durable.Types.{
  Db, DurableJob, DurableJobState, JobSeries, claimed, is_terminal, running, settling,
}
use pybus.Prelude.{
  Bool, Bool-cases, List, Option, String, [], arith, eqb→eq, false, first_where, first_where_holds,
  inl, inr, none, not, some, sym, true, ℕ, ◌&&◌, ◌∷◌, ◌≡◌, ◌⊎◌,
}

pub cancelled_reclaimable-live :
    (now : ℕ) (series : List JobSeries) (j : DurableJob)
    → cancelled_reclaimable now series j ≡ true
    → is_terminal j.state ≡ false
unfolding cancelled_reclaimable
cancelled_reclaimable-live now series j h = ground arith

pub exhausted-running :
    (now : ℕ) (series : List JobSeries) (j : DurableJob)
    → exhausted now series j ≡ true
    → j.state ≡ running
unfolding exhausted
exhausted-running now series j h = ground arith

pub eligible-live :
    (now : ℕ) (series : List JobSeries) (j : DurableJob)
    → eligible now series j ≡ true
    → is_terminal j.state ≡ false
unfolding eligible claimable
eligible-live now series j h = ground arith

pub same_state-eq : (s t : DurableJobState) → same_state s t ≡ true → s ≡ t
unfolding same_state
same_state-eq s t h = ground arith

pub same_version-live :
    (model j : DurableJob)
    → is_terminal model.state ≡ false
    → same_version model j ≡ true
    → is_terminal j.state ≡ false
unfolding same_version
same_version-live model j h e =
    subst (λ (s : DurableJobState). is_terminal s ≡ false)
      (same_state-eq model.state j.state (ground arith)) h

pub holds_claim-claimed :
    (c : DurableJobClaim) (j : DurableJob) → holds_claim c j ≡ true → j.state ≡ claimed
unfolding holds_claim
holds_claim-claimed c j h = ground arith

pub is_running-eq : (s : DurableJobState) → is_running s ≡ true → s ≡ running
is_running-eq s h = ground arith

pub is_settling-eq : (s : DurableJobState) → is_settling s ≡ true → s ≡ settling
is_settling-eq s h = ground arith

pub &&-left : (a b : Bool) → a && b ≡ true → a ≡ true
&&-left a b h = ground arith

pub &&-right : (a b : Bool) → a && b ≡ true → b ≡ true
&&-right a b h = ground arith

pub sooner-cases :
    (j : DurableJob) (o : Option DurableJob) (m : DurableJob)
    → sooner j o ≡ some m
    → (m ≡ j) ⊎ (o ≡ some m)
unfolding sooner
sooner-cases j none m h = inl (ground arith)
sooner-cases j (some k) m h = elim (Bool-cases (comes_before k j)) [
  | inl e ↦ inr (rw e at h)
  | inr e ↦ inl (ground arith)
]

pub earliest_holds :
    (p : DurableJob → Bool) (js : List DurableJob) (m : DurableJob)
    → earliest p js ≡ some m
    → p m ≡ true
unfolding earliest
earliest_holds p [] m h = cc
earliest_holds p (j ∷ js) m h = elim (Bool-cases (p j)) [
  | inl e ↦ elim (sooner-cases j (earliest p js) m (rw e at h)) [
    | inl q ↦ rw q e
    | inr q ↦ earliest_holds p js m q
  ]
  | inr e ↦ earliest_holds p js m (rw e at h)
]

pub running-live : (s : DurableJobState) → is_running s ≡ true → is_terminal s ≡ false
running-live s h = ground arith

pub settling-live : (s : DurableJobState) → is_settling s ≡ true → is_terminal s ≡ false
settling-live s h = ground arith

pub find_job-own :
    (i : ℕ) (js : List DurableJob) (j : DurableJob)
    → find_job i js ≡ some j
    → find_job j.id js ≡ some j
unfolding find_job
find_job-own i js j h =
    let e : j.id ≡ i = eqb→eq j.id i (first_where_holds (by_id i) js h) in
    subst (λ (k : ℕ). first_where (by_id k) js ≡ some j) (sym e) h

pub verdict-cancel :
    (lib : Stdlib) (a : DurableDeliveryAdmission) (s : Option JobSeries) (j : DurableJob)
    → verdict lib a s j ≡ cancel_and_drop
    → is_terminal j.state ≡ false
unfolding verdict retries_verdict message_verdict
verdict-cancel lib a s j h = ground arith

pub verdict-admit :
    (lib : Stdlib) (a : DurableDeliveryAdmission) (s : Option JobSeries) (j : DurableJob)
    → verdict lib a s j ≡ admit
    → is_deliverable j.state ≡ true
unfolding verdict
verdict-admit lib a s j h = ground arith

pub cancellable-live : (s : DurableJobState) → is_cancellable s ≡ true → is_terminal s ≡ false
cancellable-live s h = ground arith

-- The handlers of an IntegrityError read, and write nothing.
pub recover_job-reads :
    (d : DurableJobDraft) (key : Option String) (db : Db) → (recover_job d key db).1 ≡ db
unfolding recover_job
recover_job-reads d key db = ground arith

pub recover_series-reads :
    (d : JobSeriesDraft) (key : Option String) (db : Db) → (recover_series d key db).1 ≡ db
unfolding recover_series
recover_series-reads d key db = ground arith

pub not_running-false : (s : DurableJobState) → not (is_running s) ≡ false → s ≡ running
not_running-false s h = ground arith
