-- ===== src/Listener/Effects.antt =====
-- The effects of a delivery: publishing, acknowledging, and the calls of the controller and of the
-- observers: src/pybus/listener.py.
use pybus.Codec.{Value, bool, int, text}
use pybus.Codec.Dict.{get}
use pybus.Durable.Controller.{ControllerError}
use pybus.Durable.Controller.Settlement.{Controlled, apply_controlled, checkpoint_envelope}
use pybus.Durable.Envelope.{MessageEnvelope, durable_generation_header, durable_record_header}
use pybus.Durable.Settle.{CommandDeliveryOutcome}
use pybus.Durable.Types.{CommandDeliveryStatus}
use pybus.Listener.{
  Action, Event, Listener, ListenerError, Purpose, World, ack_failed, acked, claim_recovery,
  indeterminate_delivery, observation_failed, observation_raised, observed, send_failed, sent,
  sleep_failed, sleep_raised, slept, worker_aborted,
}
use pybus.Prelude.{
  Bool, List, Option, String, [], eqb, false, if◌then◌else◌, none, some, true, ℕ, ◌==◌, ◌∷◌,
}
use pybus.Prelude.Exec.{Result, err, ok, pure, raise, ◌>>◌}
use pybus.Prelude.Int.{pos}

abbrev pub log_event : Event → World → World
log_event ev w = record w { log = ev ∷ w.log }

-- `try: m except Exception: h`, where `m` is a call of the controller.
abbrev pub catch_result :
    {A B : Type 0}
    → Result ControllerError A
    → (ControllerError → Action B)
    → (A → Action B)
    → Action B
catch_result (ok a) h k = k a
catch_result (err e) h k = h e

unfoldable pub catching :
    {A B : Type 0} → Controlled A → (ControllerError → Action B) → (A → Action B) → Action B
catching m h k w = let (r, db') = m w.db in catch_result r h k (record w { db = db' })

module _ (l : Listener) where
  -- `_settle_after_claim` of a publication. What raises may have been published all the same.
  unfoldable pub settle_after_claim : Purpose → String → MessageEnvelope → Action (Unit {0})
  settle_after_claim purpose queue e w =
      if l.publish_raises w.log queue e
      then (err indeterminate_delivery, log_event (send_failed purpose queue e) w)
      else (ok tt, log_event (sent purpose queue e) w)

  -- `_ack_claim`
  unfoldable pub ack_claim : Option String → Action (Unit {0})
  ack_claim none w = (ok tt, w)
  ack_claim (some receipt) w =
      if l.ack_raises w.log receipt
      then (err indeterminate_delivery, log_event (ack_failed receipt) w)
      else (ok tt, log_event (acked receipt) w)

  -- The publication, then the acknowledgement of the claim.
  unfoldable pub hand_over : Purpose → String → MessageEnvelope → Option String → Action (Unit {0})
  unfolding settle_after_claim ack_claim
  hand_over purpose queue e receipt = settle_after_claim purpose queue e >> ack_claim receipt

  unfoldable pub sleep : ℕ → Action (Unit {0})
  sleep delay w =
      if eqb delay 0
      then (ok tt, w)
      else if l.sleep_raises w.log delay
      then (err sleep_failed, log_event (sleep_raised delay) w)
      else (ok tt, log_event (slept delay) w)

  -- `_restore_claimed_command_and_abort`: the message goes back unchanged, then `error` is raised.
  unfoldable pub restore_and_abort :
      {A : Type 0} → ListenerError → String → MessageEnvelope → Option String → Action A
  unfolding hand_over
  restore_and_abort error channel e receipt =
      hand_over claim_recovery channel e receipt >> raise error

  abbrev pub text_header : Option Value → Option String
  text_header (some (text s)) = some s
  text_header _ = none

  -- A negative generation is that of no row, and counts as none; a `bool` is an `int`.
  abbrev pub number_header : Option Value → Option ℕ
  number_header (some (int (pos n))) = some n
  number_header (some (bool b)) = some (if b then 1 else 0)
  number_header _ = none

  unfoldable pub command_delivery_outcome :
      MessageEnvelope
      → CommandDeliveryStatus
      → String
      → Option String
      → ℕ
      → ℕ
      → CommandDeliveryOutcome
  unfolding get
  command_delivery_outcome e status source_queue destination_queue count max_retries = record {
    status = status;
    message_id = e.message_id;
    message_type = e.message_type;
    version = e.version;
    source_queue = source_queue;
    destination_queue = destination_queue;
    retry_count = count;
    max_retries = max_retries;
    durable_record_id = text_header (get durable_record_header e.headers);
    durable_generation = number_header (get durable_generation_header e.headers);
  }

  -- The loop over the observers; each is called, and the answer says whether one has raised.
  unfoldable pub observe : CommandDeliveryOutcome → List ℕ → Bool → World → Bool × World
  observe o [] failed w = (failed, w)
  observe o (k ∷ ks) failed w =
      if l.observer_raises w.log k o
      then observe o ks true (log_event (observation_raised k o) w)
      else observe o ks failed (log_event (observed k o) w)

  abbrev pub raise_failures : Bool × World → Result ListenerError (Unit {0}) × World
  raise_failures (true, w) = (err observation_failed, w)
  raise_failures (false, w) = (ok tt, w)

  unfoldable pub notify_observers : CommandDeliveryOutcome → Bool → Action (Unit {0})
  unfolding observe
  notify_observers o failed w = raise_failures (observe o l.observers failed w)

  unfoldable pub apply_durable_outcome : CommandDeliveryOutcome → Option ℕ → Action (Unit {0})
  unfolding catching apply_controlled notify_observers
  apply_durable_outcome o none w = notify_observers o false w
  apply_durable_outcome o (some delay) w =
      catching (apply_controlled l.lib (l.now w.log) (l.store_now w.log) delay o)
        (λ _. notify_observers o true) (λ _. notify_observers o false) w

  -- `_notify_command_outcome`
  unfoldable pub notify_command_outcome :
      MessageEnvelope
      → CommandDeliveryStatus
      → String
      → Option String
      → ℕ
      → ℕ
      → Bool
      → Action (Unit {0})
  unfolding command_delivery_outcome apply_durable_outcome
  notify_command_outcome e status source_queue destination_queue count max_retries apply_durable w =
      if e.message_kind == "command"
      then apply_durable_outcome
          (command_delivery_outcome e status source_queue destination_queue count max_retries)
          (if apply_durable then l.controller else none) w
      else (ok tt, w)

  -- The checkpoint with a controller of this delay, if there is one.
  unfoldable pub checkpoint_with :
      MessageEnvelope
      → CommandDeliveryStatus
      → String
      → Option String
      → ℕ
      → ℕ
      → Option ℕ
      → Option String
      → Option ℕ
      → Action (Unit {0})
  unfolding catching checkpoint_envelope restore_and_abort
  checkpoint_with e status source_queue destination_queue count max_retries last_attempt_at receipt
        none w =
      (ok tt, w)
  checkpoint_with e status source_queue destination_queue count max_retries last_attempt_at receipt
        (some delay) w =
      catching
        (checkpoint_envelope l.lib (l.now w.log) (l.store_now w.log) delay e status source_queue
          destination_queue count max_retries last_attempt_at)
        (λ _. restore_and_abort worker_aborted source_queue e receipt) pure w

  -- `_checkpoint_durable_settlement`
  unfoldable pub checkpoint_durable_settlement :
      MessageEnvelope
      → CommandDeliveryStatus
      → String
      → Option String
      → ℕ
      → ℕ
      → Option ℕ
      → Option String
      → Action (Unit {0})
  unfolding checkpoint_with
  checkpoint_durable_settlement e status source_queue destination_queue count max_retries
        last_attempt_at receipt =
      checkpoint_with e status source_queue destination_queue count max_retries last_attempt_at
        receipt l.controller
