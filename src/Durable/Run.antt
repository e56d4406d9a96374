-- ===== src/Durable/Run.antt =====
-- A history of the store: calls of its operations one after the other, in any order, by any number of
-- publishers, workers and schedulers. Row locks and transactions make each call one step.
pub mod Histories
pub mod Lifetime
pub mod Invariant
pub mod Constraints
pub mod Liveness
pub mod Fencing
use pybus.Codec.{Stdlib}
use pybus.Durable.Admit.{DurableDeliveryAdmission, admit_delivery}
use pybus.Durable.Claim.{DurableJobClaim, claim}
use pybus.Durable.Publish.{mark_publish_indeterminate, mark_published}
use pybus.Durable.Schedule.{DurableJobDraft, JobSeriesDraft, schedule, schedule_recurring}
use pybus.Durable.Series.{HandlerResult, cancel_recurring, complete_recurring_success}
use pybus.Durable.Settle.{
  CommandDeliveryOutcome, DurableSettlement, apply_outcome, checkpoint_settlement, release_delivery,
}
use pybus.Durable.Types.{Db}
use pybus.Prelude.{Bool, List, String, [], some, ℕ, ◌∷◌, ◌≡◌}
use pybus.Recurrence.{Calendar}

pub data Call : Type 0 where
  plan : ℕ → DurableJobDraft → Call
  plan_series : ℕ → ℕ → JobSeriesDraft → Call
  cancel_series : String → ℕ → Call
  complete : ℕ → String → CommandDeliveryOutcome → HandlerResult → ℕ → Call
  claim_one : Bool → String → ℕ → ℕ → Call
  confirm : DurableJobClaim → ℕ → ℕ → Call
  doubt : DurableJobClaim → ℕ → ℕ → Call
  deliver : ℕ → DurableDeliveryAdmission → Call
  checkpoint : ℕ → DurableSettlement → Call
  release : ℕ → String → ℕ → ℕ → Call
  settle : ℕ → CommandDeliveryOutcome → ℕ → Call

module _ (lib : Stdlib) (cal : Calendar) where
  -- The database that a call leaves, whether it returns or raises.
  unfoldable pub perform : Call → Db → Db
  perform (plan id d) db = (schedule id d db).1
  perform (plan_series series_id id d) db = (schedule_recurring cal series_id id d db).1
  perform (cancel_series series_id at) db = (cancel_recurring lib series_id at db).1
  perform (complete id message_id o result at) db =
      (complete_recurring_success lib cal id message_id o result at db).1
  perform (claim_one inside w now lease) db = (claim inside w now lease db).1
  perform (confirm c now due) db = (mark_published c now due db).1
  perform (doubt c now due) db = (mark_publish_indeterminate c now due db).1
  perform (deliver now a) db = (admit_delivery lib now a db).1
  perform (checkpoint now s) db = (checkpoint_settlement lib now s db).1
  perform (release now record_id generation due) db =
      (release_delivery lib now record_id generation due db).1
  perform (settle now o due) db = (apply_outcome lib now o due db).1

  unfoldable pub history : List Call → Db → Db
  unfolding perform
  history [] db = db
  history (c ∷ cs) db = history cs (perform c db)

  -- What the laws ask of an admission, of each admission of a history.
  abbrev pub Admissions : (DurableDeliveryAdmission → Type 0) → List Call → Type 0
  Admissions A [] = Unit
  Admissions A (deliver now a ∷ cs) = A a × Admissions A cs
  Admissions A (c ∷ cs) = Admissions A cs

  -- Also what they ask of the jobs that are checkpointed or released.
  abbrev pub Lawful : (DurableDeliveryAdmission → Type 0) → (ℕ → Type 0) → List Call → Type 0
  Lawful A Y [] = Unit
  Lawful A Y (deliver now a ∷ cs) = A a × Lawful A Y cs
  Lawful A Y (checkpoint now s ∷ cs) =
      ((i : ℕ) → lib.parse_uuid s.record_id ≡ some i → Y i) × Lawful A Y cs
  Lawful A Y (release now record_id generation due ∷ cs) =
      ((i : ℕ) → lib.parse_uuid record_id ≡ some i → Y i) × Lawful A Y cs
  Lawful A Y (c ∷ cs) = Lawful A Y cs
