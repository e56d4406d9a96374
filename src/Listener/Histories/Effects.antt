-- ===== src/Listener/Histories/Effects.antt =====
-- The effects of src/pybus/listener.py, as calls of the store.
use pybus.Durable.Controller.Settlement.{apply_controlled, checkpoint_envelope}
use pybus.Durable.Envelope.{MessageEnvelope}
use pybus.Durable.Settle.{CommandDeliveryOutcome}
use pybus.Durable.Types.{CommandDeliveryStatus}
use pybus.Listener.{
  Listener, ListenerError, Purpose, World, claim_recovery, observation_raised, observed,
  worker_aborted,
}
use pybus.Listener.Effects.{
  ack_claim, apply_durable_outcome, checkpoint_with, command_delivery_outcome, hand_over, log_event,
  notify_command_outcome, notify_observers, observe, raise_failures, restore_and_abort,
  settle_after_claim, sleep,
}
use pybus.Listener.Histories.{
  Works, bind-Works, catching-Works, keep_db, pure-Works, raise-Works, stay,
}
use pybus.Listener.Histories.Controlling.{apply_controlled-Work, checkpoint_envelope-Work}
use pybus.Listener.Settling.{continuation_sleep, pause}
use pybus.Prelude.{
  Bool, Bool-cases, List, Option, String, [], eqb, false, if◌then◌else◌, inl, inr, none, refl, some,
  true, ℕ, ◌==◌, ◌∙◌, ◌∷◌, ◌≡◌,
}
use pybus.Prelude.Exec.{pure, raise}

module _ (l : Listener) where
  settle_after_claim-Works :
      (purpose : Purpose) (queue : String) (c : MessageEnvelope)
      → Works l (settle_after_claim l purpose queue c)
  unfolding settle_after_claim
  settle_after_claim-Works purpose queue c w = elim (Bool-cases (l.publish_raises w.log queue c)) [
    | inl raises ↦ rw (settle_after_claim, raises) (stay l w.db)
    | inr sends ↦ rw (settle_after_claim, sends) (stay l w.db)
  ]

  pub ack_claim-Works : (receipt : Option String) → Works l (ack_claim l receipt)
  unfolding ack_claim
  ack_claim-Works none w = stay l w.db
  ack_claim-Works (some r) w = elim (Bool-cases (l.ack_raises w.log r)) [
    | inl raises ↦ rw (ack_claim, raises) (stay l w.db)
    | inr acks ↦ rw (ack_claim, acks) (stay l w.db)
  ]

  pub hand_over-Works :
      (purpose : Purpose) (queue : String) (c : MessageEnvelope) (receipt : Option String)
      → Works l (hand_over l purpose queue c receipt)
  unfolding hand_over
  hand_over-Works purpose queue c receipt =
      bind-Works l (settle_after_claim l purpose queue c) (λ _. ack_claim l receipt)
        (settle_after_claim-Works purpose queue c) (λ _. ack_claim-Works receipt)

  pub restore-Works :
      (A : Type 0) (error : ListenerError) (channel : String) (c : MessageEnvelope)
      (receipt : Option String)
      → Works l (restore_and_abort l {A = A} error channel c receipt)
  unfolding restore_and_abort
  restore-Works A error channel c receipt =
      bind-Works l (hand_over l claim_recovery channel c receipt) (λ _. raise error)
        (hand_over-Works claim_recovery channel c receipt) (λ _. raise-Works l A error)

  pub sleep-Works : (delay : ℕ) → Works l (sleep l delay)
  unfolding sleep
  sleep-Works delay w = elim (Bool-cases (eqb delay 0)) [
    | inl none_at_all ↦ rw (sleep, none_at_all) (stay l w.db)
    | inr waits ↦ elim (Bool-cases (l.sleep_raises w.log delay)) [
      | inl raises ↦ rw (sleep, waits, raises) (stay l w.db)
      | inr sleeps ↦ rw (sleep, waits, sleeps) (stay l w.db)
    ]
  ]

  pub continuation_sleep-Works : (delay : ℕ) → Works l (continuation_sleep l delay)
  unfolding continuation_sleep
  continuation_sleep-Works delay w = elim (Bool-cases (eqb delay 0)) [
    | inl none_at_all ↦ rw (continuation_sleep, none_at_all) (stay l w.db)
    | inr waits ↦ elim (Bool-cases (l.sleep_raises w.log delay)) [
      | inl raises ↦ rw (continuation_sleep, waits, raises) (stay l w.db)
      | inr sleeps ↦ rw (continuation_sleep, waits, sleeps) (stay l w.db)
    ]
  ]

  pub pause-Works : (delay : ℕ) → Works l (pause l delay)
  pause-Works delay w = elim (Bool-cases (eqb delay 0)) [
    | inl none_at_all ↦ rw (none_at_all) (stay l w.db)
    | inr waits ↦ rw (waits) (stay l w.db)
  ]

  db-observe :
      (o : CommandDeliveryOutcome) (ks : List ℕ) (failed : Bool) (w : World)
      → (observe l o ks failed w).1.db ≡ w.db
  unfolding observe
  db-observe o [] failed w = refl
  db-observe o (k ∷ ks) failed w = elim (Bool-cases (l.observer_raises w.log k o)) [
    | inl raises ↦ rw (observe, raises, db-observe o ks true (log_event (observation_raised k o) w))
    | inr takes ↦ rw (observe, takes, db-observe o ks failed (log_event (observed k o) w))
  ]

  notify_observers-Works :
      (o : CommandDeliveryOutcome) (failed : Bool) → Works l (notify_observers l o failed)
  unfolding notify_observers
  notify_observers-Works o failed w =
      keep_db l w.db (notify_observers l o failed w).1.db
        (same_after (observe l o l.observers failed w) ∙ db-observe o l.observers failed w)
    where
      same_after : (x : Bool × World) → (raise_failures l x).1.db ≡ x.1.db
      same_after (true, w') = refl
      same_after (false, w') = refl

  apply_durable-Works :
      (o : CommandDeliveryOutcome) (controller : Option ℕ)
      → Works l (apply_durable_outcome l o controller)
  unfolding apply_durable_outcome
  apply_durable-Works o none w = notify_observers-Works o false w
  apply_durable-Works o (some delay) w =
      catching-Works l (apply_controlled l.lib (l.now w.log) (l.store_now w.log) delay o)
        (λ _. notify_observers l o true) (λ _. notify_observers l o false)
        (apply_controlled-Work l (l.now w.log) (l.store_now w.log) delay o)
        (λ _. notify_observers-Works o true) (λ _. notify_observers-Works o false) w

  module _ (e : MessageEnvelope) where
    pub notify-Works :
        (status : CommandDeliveryStatus) (source_queue : String) (destination_queue : Option String)
        (count max_retries : ℕ) (apply_durable : Bool)
        → Works l (
            notify_command_outcome l e status source_queue destination_queue count max_retries
              apply_durable)
    unfolding notify_command_outcome
    notify-Works status source_queue destination_queue count max_retries apply_durable w =
        elim (Bool-cases (e.message_kind == "command")) [
          | inl told ↦
              rw (notify_command_outcome, told)
                (apply_durable-Works
                  (command_delivery_outcome l e status source_queue destination_queue count
                    max_retries)
                  (if apply_durable then l.controller else none) w)
          | inr untold ↦ rw (notify_command_outcome, untold) (stay l w.db)
        ]

    pub checkpoint_with-Works :
        (status : CommandDeliveryStatus) (source_queue : String) (destination_queue : Option String)
        (count max_retries : ℕ) (last_attempt_at : Option ℕ) (receipt : Option String)
        (controller : Option ℕ)
        → Works l (
            checkpoint_with l e status source_queue destination_queue count max_retries
              last_attempt_at receipt controller)
    unfolding checkpoint_with
    checkpoint_with-Works status source_queue destination_queue count max_retries last_attempt_at
          receipt none w =
        stay l w.db
    checkpoint_with-Works status source_queue destination_queue count max_retries last_attempt_at
          receipt (some delay) w =
        catching-Works l
          (checkpoint_envelope l.lib (l.now w.log) (l.store_now w.log) delay e status source_queue
            destination_queue count max_retries last_attempt_at)
          (λ _. restore_and_abort l worker_aborted source_queue e receipt) pure
          (checkpoint_envelope-Work l (l.now w.log) (l.store_now w.log) delay e status source_queue
            destination_queue count max_retries last_attempt_at)
          (λ _. restore-Works (Unit {0}) worker_aborted source_queue e receipt)
          (λ u. pure-Works l u) w
