-- ===== src/Durable/Run/Histories.antt =====
-- A relation with the laws of `Moves` holds between the ends of every history.
use pybus.Codec.{Stdlib}
use pybus.Durable.Admit.{DurableDeliveryAdmission}
use pybus.Durable.Moves.Basic.{Laws}
use pybus.Durable.Moves.Completion.{complete_recurring_success-Moves}
use pybus.Durable.Moves.Outcome.{apply_outcome-Moves}
use pybus.Durable.Moves.Publisher.{
  claim-Moves, mark_publish_indeterminate-Moves, mark_published-Moves,
}
use pybus.Durable.Moves.Scheduler.{cancel_recurring-Moves, schedule-Moves, schedule_recurring-Moves}
use pybus.Durable.Moves.Worker.{
  admit_delivery-Moves, checkpoint_settlement-Moves, release_delivery-Moves,
}
use pybus.Durable.Run.{
  Admissions, Call, Lawful, cancel_series, checkpoint, claim_one, complete, confirm, deliver, doubt,
  history, perform, plan, plan_series, release, settle,
}
use pybus.Durable.Types.{Db, DurableJob}
use pybus.Prelude.{List, [], ℕ, ◌∷◌}
use pybus.Recurrence.{Calendar}

module _ (lib : Stdlib) (cal : Calendar) {R : Db → Db → Type 0}
    {Q : DurableJob → DurableJob → Type 0} {A : DurableDeliveryAdmission → Type 0} {Y : ℕ → Type 0}
    (L : Laws R Q A Y) where
  perform-Moves :
      (c : Call) (cs : List Call) (db : Db)
      → Lawful lib cal A Y (c ∷ cs)
      → R db (perform lib cal c db) × Lawful lib cal A Y cs
  unfolding perform
  perform-Moves (plan id d) cs db h = (schedule-Moves L id d db, h)
  perform-Moves (plan_series series_id id d) cs db h =
      (schedule_recurring-Moves L cal series_id id d db, h)
  perform-Moves (cancel_series series_id at) cs db h =
      (cancel_recurring-Moves L lib series_id at db, h)
  perform-Moves (complete id message_id o result at) cs db h =
      (complete_recurring_success-Moves L lib cal id message_id o result at db, h)
  perform-Moves (claim_one inside w now lease) cs db h = (claim-Moves L inside w now lease db, h)
  perform-Moves (confirm c now due) cs db h = (mark_published-Moves L c now due db, h)
  perform-Moves (doubt c now due) cs db h = (mark_publish_indeterminate-Moves L c now due db, h)
  perform-Moves (deliver now a) cs db h = (admit_delivery-Moves L lib now a h.0 db, h.1)
  perform-Moves (checkpoint now s) cs db h = (checkpoint_settlement-Moves L lib now s h.0 db, h.1)
  perform-Moves (release now record_id generation due) cs db h =
      (release_delivery-Moves L lib now record_id generation due h.0 db, h.1)
  perform-Moves (settle now o due) cs db h = (apply_outcome-Moves L lib now o due db, h)

  pub history-Moves :
      (cs : List Call) (db : Db) → Lawful lib cal A Y cs → R db (history lib cal cs db)
  unfolding history
  history-Moves [] db h = L.stay db
  history-Moves (c ∷ cs) db h =
      let (moved, rest) = perform-Moves c cs db h in
      L.compose db (perform lib cal c db) _ moved (history-Moves cs (perform lib cal c db) rest)

-- Without a condition on what is given back, the admissions are all that matters.
pub Admissions-Lawful :
    (lib : Stdlib) (cal : Calendar) (A : DurableDeliveryAdmission → Type 0) (cs : List Call)
    → Admissions lib cal A cs
    → Lawful lib cal A (λ _. Unit) cs
Admissions-Lawful lib cal A [] h = tt
Admissions-Lawful lib cal A (deliver now a ∷ cs) h = (h.0, Admissions-Lawful lib cal A cs h.1)
Admissions-Lawful lib cal A (checkpoint now s ∷ cs) h =
    (λ i e. tt, Admissions-Lawful lib cal A cs h)
Admissions-Lawful lib cal A (release now record_id generation due ∷ cs) h =
    (λ i e. tt, Admissions-Lawful lib cal A cs h)
Admissions-Lawful lib cal A (plan id d ∷ cs) h = Admissions-Lawful lib cal A cs h
Admissions-Lawful lib cal A (plan_series series_id id d ∷ cs) h = Admissions-Lawful lib cal A cs h
Admissions-Lawful lib cal A (cancel_series series_id at ∷ cs) h = Admissions-Lawful lib cal A cs h
Admissions-Lawful lib cal A (complete id message_id o result at ∷ cs) h =
    Admissions-Lawful lib cal A cs h
Admissions-Lawful lib cal A (claim_one inside w now lease ∷ cs) h = Admissions-Lawful lib cal A cs h
Admissions-Lawful lib cal A (confirm c now due ∷ cs) h = Admissions-Lawful lib cal A cs h
Admissions-Lawful lib cal A (doubt c now due ∷ cs) h = Admissions-Lawful lib cal A cs h
Admissions-Lawful lib cal A (settle now o due ∷ cs) h = Admissions-Lawful lib cal A cs h
