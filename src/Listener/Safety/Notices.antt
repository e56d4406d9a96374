-- ===== src/Listener/Safety/Notices.antt =====
-- The effects of src/pybus/listener.py that leave a claim as it is: the calls of the observers and of
-- the controller, and the waits.
use pybus.Durable.Controller.{ControllerError}
use pybus.Durable.Controller.Settlement.{apply_controlled, checkpoint_envelope}
use pybus.Durable.Envelope.{MessageEnvelope}
use pybus.Durable.Settle.{CommandDeliveryOutcome}
use pybus.Durable.Types.{CommandDeliveryStatus, Db}
use pybus.Listener.{
  Listener, World, observation_failed, observation_raised, observed, worker_aborted,
}
use pybus.Listener.Effects.{
  apply_durable_outcome, catch_result, catching, checkpoint_durable_settlement, checkpoint_with,
  command_delivery_outcome, log_event, notify_command_outcome, notify_observers, observe,
  raise_failures, restore_and_abort, sleep,
}
use pybus.Listener.Safety.{Phase, is_closed, is_doubtful, is_unsettled, may_fail, phase, step}
use pybus.Listener.Safety.Rules.{Ensures, catching-Ensures, implies_lem, meets, pure-Ensures}
use pybus.Listener.Safety.Settlements.{restore-Ensures}
use pybus.Listener.Settling.{continuation_sleep, pause}
use pybus.Prelude.{
  Bool, Bool-cases, List, Option, String, [], eqb, false, if◌then◌else◌, inl, inr, none, refl, some,
  true, ℕ, ◌==◌, ◌||◌, ◌∙◌, ◌∷◌, ◌≡◌,
}
use pybus.Prelude.Exec.{Result, err, ok, pure}

module _ (l : Listener) (e : MessageEnvelope) (receipt : Option String) where
  -- The observers do not touch the claim.
  phase-observe :
      (o : CommandDeliveryOutcome) (ks : List ℕ) (failed : Bool) (w : World)
      → phase l e receipt (observe l o ks failed w).1.log ≡ phase l e receipt w.log
  unfolding observe phase step
  phase-observe o [] failed w = refl
  phase-observe o (k ∷ ks) failed w = elim (Bool-cases (l.observer_raises w.log k o)) [
    | inl raises ↦
        rw (observe, raises, phase-observe o ks true (log_event (observation_raised k o) w))
    | inr takes ↦ rw (observe, takes, phase-observe o ks failed (log_event (observed k o) w))
  ]

  module _ (P : Phase → Bool)
      (allowed : (p : Phase) → P p ≡ true → may_fail l e observation_failed p ≡ true) where
    observers-Ensures :
        (o : CommandDeliveryOutcome) (failed : Bool)
        → Ensures l e receipt P (notify_observers l o failed) (λ _. P)
    unfolding notify_observers
    observers-Ensures o failed w before =
        go (observe l o l.observers failed w) (phase-observe o l.observers failed w)
      where
        go :
            (x : Bool × World)
            → phase l e receipt x.1.log ≡ phase l e receipt w.log
            → meets l e
                (λ (u : Unit {0}). P)
                (raise_failures l x).0
                (phase l e receipt (raise_failures l x).1.log)
              ≡ true
        go (true, w') same = rw (same, allowed (phase l e receipt w.log) before)
        go (false, w') same = rw (same, before)

    applied-Ensures :
        (o : CommandDeliveryOutcome) (controller : Option ℕ)
        → Ensures l e receipt P (apply_durable_outcome l o controller) (λ _. P)
    unfolding apply_durable_outcome
    applied-Ensures o none w before = observers-Ensures o false w before
    applied-Ensures o (some delay) w before =
        catching-Ensures l e receipt P (λ _. P)
          (apply_controlled l.lib (l.now w.log) (l.store_now w.log) delay o)
          (λ _. notify_observers l o true) (λ _. notify_observers l o false)
          (λ _. observers-Ensures o true) (λ _. observers-Ensures o false) w before

    -- `_notify_command_outcome`
    pub notify-Ensures :
        (status : CommandDeliveryStatus) (source_queue : String) (destination_queue : Option String)
        (count max_retries : ℕ) (apply_durable : Bool)
        → Ensures l e receipt P
            (notify_command_outcome l e status source_queue destination_queue count max_retries
              apply_durable)
            (λ _. P)
    unfolding notify_command_outcome
    notify-Ensures status source_queue destination_queue count max_retries apply_durable w before =
        elim (Bool-cases (e.message_kind == "command")) [
          | inl told ↦ rw (
            notify_command_outcome,
            told,
            applied-Ensures
                (command_delivery_outcome l e status source_queue destination_queue count
                  max_retries)
                (if apply_durable then l.controller else none) w before,
          )
          | inr untold ↦ rw (notify_command_outcome, untold, before)
        ]

  phase-observers :
      (o : CommandDeliveryOutcome) (failed : Bool) (w : World)
      → phase l e receipt (notify_observers l o failed w).1.log ≡ phase l e receipt w.log
  unfolding notify_observers
  phase-observers o failed w =
      same_after (observe l o l.observers failed w) ∙ phase-observe o l.observers failed w
    where
      same_after :
          (x : Bool × World)
          → phase l e receipt (raise_failures l x).1.log ≡ phase l e receipt x.1.log
      same_after (true, w') = refl
      same_after (false, w') = refl

  phase-apply :
      (o : CommandDeliveryOutcome) (controller : Option ℕ) (w : World)
      → phase l e receipt (apply_durable_outcome l o controller w).1.log ≡ phase l e receipt w.log
  unfolding apply_durable_outcome catching
  phase-apply o none w = phase-observers o false w
  phase-apply o (some delay) w =
      go (apply_controlled l.lib (l.now w.log) (l.store_now w.log) delay o w.db)
    where
      go :
          (x : Result ControllerError (Unit {0}) × Db)
          → phase l e receipt
              (catch_result x.0
                (λ _. notify_observers l o true)
                (λ _. notify_observers l o false)
                (record w { db = x.1 })).1.log
            ≡ phase l e receipt w.log
      go (ok u, db) = phase-observers o false (record w { db = db })
      go (err error, db) = phase-observers o true (record w { db = db })

  -- A notice never moves the claim.
  pub phase-notify :
      (status : CommandDeliveryStatus) (source_queue : String) (destination_queue : Option String)
      (count max_retries : ℕ) (apply_durable : Bool) (w : World)
      → phase l e receipt
          (notify_command_outcome l e status source_queue destination_queue count max_retries
            apply_durable w).1.log
        ≡ phase l e receipt w.log
  unfolding notify_command_outcome
  phase-notify status source_queue destination_queue count max_retries apply_durable w =
      elim (Bool-cases (e.message_kind == "command")) [
        | inl told ↦ rw (
          notify_command_outcome,
          told,
          phase-apply
              (command_delivery_outcome l e status source_queue destination_queue count max_retries)
              (if apply_durable then l.controller else none) w,
        )
        | inr untold ↦ rw (notify_command_outcome, untold)
      ]

  checkpoint_with-Ensures :
      (status : CommandDeliveryStatus) (source_queue : String) (destination_queue : Option String)
      (count max_retries : ℕ) (last_attempt_at controller : Option ℕ)
      → Ensures l e receipt is_unsettled
          (checkpoint_with l e status source_queue destination_queue count max_retries
            last_attempt_at receipt controller)
          (λ _. is_unsettled)
  unfolding checkpoint_with
  checkpoint_with-Ensures status source_queue destination_queue count max_retries last_attempt_at
        none w before =
      before
  checkpoint_with-Ensures status source_queue destination_queue count max_retries last_attempt_at
        (some delay) w before =
      catching-Ensures l e receipt is_unsettled (λ _. is_unsettled)
        (checkpoint_envelope l.lib (l.now w.log) (l.store_now w.log) delay e status source_queue
          destination_queue count max_retries last_attempt_at)
        (λ _. restore_and_abort l worker_aborted source_queue e receipt) pure
        (λ _.
          restore-Ensures l e worker_aborted source_queue receipt (λ _. is_unsettled)
            (implies_lem is_closed (may_fail l e worker_aborted) (unfold may_fail in refl)))
        (λ a. pure-Ensures l e receipt is_unsettled (λ _. is_unsettled) a (λ _ h. h)) w before

  -- `_checkpoint_durable_settlement`: what the store does not take goes back to the queue.
  pub checkpoint-Ensures :
      (status : CommandDeliveryStatus) (source_queue : String) (destination_queue : Option String)
      (count max_retries : ℕ) (last_attempt_at : Option ℕ)
      → Ensures l e receipt is_unsettled
          (checkpoint_durable_settlement l e status source_queue destination_queue count max_retries
            last_attempt_at receipt)
          (λ _. is_unsettled)
  unfolding checkpoint_durable_settlement
  checkpoint-Ensures status source_queue destination_queue count max_retries last_attempt_at =
      checkpoint_with-Ensures status source_queue destination_queue count max_retries
        last_attempt_at l.controller

  -- The waits.
  pub sleep-Ensures :
      (delay : ℕ) → Ensures l e receipt is_unsettled (sleep l delay) (λ _. is_unsettled)
  unfolding sleep phase step may_fail
  sleep-Ensures delay w before = elim (Bool-cases (eqb delay 0)) [
    | inl zero_delay ↦ rw (sleep, zero_delay, before)
    | inr waits ↦ elim (Bool-cases (l.sleep_raises w.log delay)) [
      | inl raises ↦ rw (sleep, waits, raises, may_fail, phase, step, before)
      | inr sleeps ↦ rw (sleep, waits, sleeps, phase, step, before)
    ]
  ]

  pub continuation_sleep-Ensures :
      (delay : ℕ)
      → Ensures l e receipt is_unsettled (continuation_sleep l delay) (λ _. is_unsettled)
  unfolding continuation_sleep phase step may_fail
  continuation_sleep-Ensures delay w before = elim (Bool-cases (eqb delay 0)) [
    | inl zero_delay ↦ rw (continuation_sleep, zero_delay, before)
    | inr waits ↦ elim (Bool-cases (l.sleep_raises w.log delay)) [
      | inl raises ↦ rw (
        continuation_sleep,
        waits,
        raises,
        may_fail,
        phase,
        step,
        implies_lem is_unsettled (λ p. is_doubtful p || is_unsettled p) refl
            (phase l e receipt w.log) before,
      )
      | inr sleeps ↦ rw (continuation_sleep, waits, sleeps, phase, step, before)
    ]
  ]

  pub pause-Ensures :
      (delay : ℕ) → Ensures l e receipt is_unsettled (pause l delay) (λ _. is_unsettled)
  unfolding phase step
  pause-Ensures delay w before = elim (Bool-cases (eqb delay 0)) [
    | inl zero_delay ↦ rw (zero_delay, before)
    | inr waits ↦ rw (waits, phase, step, before)
  ]
