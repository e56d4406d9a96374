-- ===== src/Listener/Histories/Controlling.antt =====
-- The methods of DurableJobController, src/pybus/durable.py, as calls of the store: each makes one or none,
-- but for a completion, which makes at most two.
use pybus.Codec.Dict.{get}
use pybus.Durable.Admit.{DurableDeliveryAdmission, admit_delivery}
use pybus.Durable.Controller.{
  admission, admit_envelope, admit_identified, decided, identity, last_attempt_of, present,
}
use pybus.Durable.Controller.Settlement.{
  apply_controlled, checkpoint_envelope, complete_one_off, complete_success, from_store,
  release_envelope, wants_recurrence,
}
use pybus.Durable.Envelope.{MessageEnvelope}
use pybus.Durable.Queries.{StoreError}
use pybus.Durable.Run.{checkpoint, complete, deliver, history, release, settle}
use pybus.Durable.Series.{HandlerResult, complete_recurring_success}
use pybus.Durable.Settle.{
  CommandDeliveryOutcome, DurableSettlement, apply_outcome, checkpoint_settlement, release_delivery,
}
use pybus.Durable.Types.{CommandDeliveryStatus, Db, DurableDeliveryDecision}
use pybus.Listener.{Listener}
use pybus.Listener.Histories.{Work, compose, stay}
use pybus.Prelude.{
  Bool, Bool-cases, Option, String, [], ap, false, inl, inr, is_some, none, refl, some, sym, true,
  ℕ, ◌+◌, ◌==◌, ◌∷◌, ◌≡◌,
}
use pybus.Prelude.Exec.{Result, Result-cases, continue, err, ok}

module _ (l : Listener) where
  db-from_store : {A : Type 0} (x : Result StoreError A × Db) → (from_store x).1 ≡ x.1
  db-from_store (ok a, db) = refl
  db-from_store (err e, db) = refl

  db-decided : (x : Result StoreError DurableDeliveryDecision × Db) → (decided x).1 ≡ x.1
  db-decided (ok d, db) = refl
  db-decided (err e, db) = refl

  module _ (now later delay : ℕ) where
    pub checkpoint_envelope-Work :
        (e : MessageEnvelope) (status : CommandDeliveryStatus) (source_queue : String)
        (destination_queue : Option String) (count max_retries : ℕ) (last_attempt_at : Option ℕ)
        (db : Db)
        → Work l db
            (checkpoint_envelope l.lib now later delay e status source_queue destination_queue count
              max_retries last_attempt_at db).1
    unfolding checkpoint_envelope history
    checkpoint_envelope-Work e status source_queue destination_queue count max_retries
          last_attempt_at db =
        elim (Result-cases (identity e)) [
          | inl (error, bad) ↦ rw (checkpoint_envelope, bad) (stay l db)
          | inr (none, without) ↦ rw (checkpoint_envelope, without) (stay l db)
          | inr (some (record_id, generation), known) ↦
              let settlement : DurableSettlement = record {
                record_id = record_id;
                generation = generation;
                status = status;
                source_queue = source_queue;
                destination_queue = destination_queue;
                retry_count = count;
                max_retries = max_retries;
                reconciliation_due_at = now + delay;
                last_attempt_at = last_attempt_at;
              } in
              (
                checkpoint later settlement ∷ [],
                tt,
                rw (checkpoint_envelope, known)
                    (db-from_store (checkpoint_settlement l.lib later settlement db)),
              )
        ]

    pub release_envelope-Work :
        (e : MessageEnvelope) (db : Db) → Work l db (release_envelope l.lib now later delay e db).1
    unfolding release_envelope history
    release_envelope-Work e db = elim (Result-cases (identity e)) [
      | inl (error, bad) ↦ rw (release_envelope, bad) (stay l db)
      | inr (none, without) ↦ rw (release_envelope, without) (stay l db)
      | inr (some (record_id, generation), known) ↦ (
        release later record_id generation (now + delay) ∷ [],
        tt,
        rw (release_envelope, known)
            (db-from_store (release_delivery l.lib later record_id generation (now + delay) db)),
      )
    ]

    pub apply_controlled-Work :
        (o : CommandDeliveryOutcome) (db : Db)
        → Work l db (apply_controlled l.lib now later delay o db).1
    unfolding apply_controlled history
    apply_controlled-Work o db = elim (Bool-cases (is_some o.durable_record_id)) [
      | inl durable ↦ (
        settle later o (now + delay) ∷ [],
        tt,
        rw (apply_controlled, durable)
            (db-from_store (apply_outcome l.lib later o (now + delay) db)),
      )
      | inr plain ↦ rw (apply_controlled, plain) (stay l db)
    ]

    pub admit_envelope-Work :
        (e : MessageEnvelope) (source_queue : String) (count max_retries : ℕ) (db : Db)
        → Work l db (admit_envelope l.lib now later delay e source_queue count max_retries db).1
    unfolding admit_envelope admit_identified history
    admit_envelope-Work e source_queue count max_retries db = elim (Result-cases (identity e)) [
      | inl (error, bad) ↦ rw (admit_envelope, bad) (stay l db)
      | inr (none, without) ↦ rw (admit_envelope, without, admit_identified) (stay l db)
      | inr (some (record_id, generation), known) ↦
          rw (admit_envelope, known) (admit_known record_id generation)
    ]
      where
        admit_known :
            (record_id : String) (generation : ℕ)
            → Work l db
                (admit_identified l.lib now later delay e source_queue count max_retries
                  (some (record_id, generation))
                  db).1
        admit_known record_id generation = elim (Bool-cases (e.message_kind == "command")) [
          | inr event ↦ rw (admit_identified, event) (stay l db)
          | inl command ↦
              elim (Result-cases (last_attempt_of l.lib (present (get "last_attempt" e.headers)))) [
                | inl (error, bad) ↦ rw (admit_identified, command, bad) (stay l db)
                | inr (last, in_time) ↦
                    let a : DurableDeliveryAdmission =
                      admission e source_queue count max_retries now delay record_id generation
                        last in
                    (
                      deliver later a ∷ [],
                      (unfold admission in refl, tt),
                      rw (admit_identified, command, in_time)
                          (db-decided (admit_delivery l.lib later a db)),
                    )
              ]
        ]

    pub complete_success-Work :
        (id : ℕ) (message_id : String) (o : CommandDeliveryOutcome) (r : HandlerResult)
        (completed_at : ℕ) (db : Db)
        → Work l db
            (complete_success l.lib now later delay l.calendar id message_id o r completed_at db).1
    unfolding complete_success complete_one_off history
    complete_success-Work id message_id o r completed_at db =
        go (complete_recurring_success l.lib l.calendar id message_id o r completed_at db) refl
      where
        one_off :
            (handled : Bool) (db' : Db)
            → Work l db' (complete_one_off l.lib now later delay o r handled db').1
        one_off true db' = stay l db'
        one_off false db' = elim (Bool-cases (wants_recurrence r)) [
          | inl misused ↦ rw (complete_one_off, misused) (stay l db')
          | inr used ↦ rw (complete_one_off, used) (apply_controlled-Work o db')
        ]

        go :
            (x : Result StoreError Bool × Db)
            → complete_recurring_success l.lib l.calendar id message_id o r completed_at db ≡ x
            → Work l db
                (continue
                  (from_store x).0
                  (complete_one_off l.lib now later delay o r)
                  (from_store x).1).1
        go (ok handled, db') same =
            compose l db db' (complete_one_off l.lib now later delay o r handled db').1
              (complete id message_id o r completed_at ∷ [], tt, ap (λ y. y.1) (sym same))
              (one_off handled db')
        go (err error, db') same =
            (complete id message_id o r completed_at ∷ [], tt, ap (λ y. y.1) (sym same))
