-- ===== src/Listener/Histories/Settling.antt =====
-- The settlements of src/pybus/listener.py, as calls of the store.
use pybus.Durable.Envelope.{MessageEnvelope}
use pybus.Durable.Queries.{or_text}
use pybus.Durable.Types.{CommandDeliveryStatus, continued, retry_scheduled}
use pybus.Listener.{
  Action, HandlerSpec, Listener, Purpose, ResponseMessage, continuation, dead_letter_publication,
  max_retries_for, response_publication, retry_count, retry_requeue, terminal_queue, unknown_queue,
}
use pybus.Listener.Effects.{checkpoint_durable_settlement, hand_over, notify_command_outcome, sleep}
use pybus.Listener.Histories.{Works, bind-Works, choose-Works, raise-Works}
use pybus.Listener.Histories.Effects.{
  checkpoint_with-Works, continuation_sleep-Works, hand_over-Works, notify-Works, pause-Works,
  sleep-Works,
}
use pybus.Listener.Settling.{
  continuation_sleep, continue_processing, dead_letter, dead_letter_envelope, default_reply_queue,
  handle_failed_delivery, pause, publish_response, requeue, requeue_now, response_envelope,
  retry_envelope, settle_as, unknown_target,
}
use pybus.Prelude.{Option, String, if◌then◌else◌, ltb, none, some, true, ℕ, ◌+◌, ◌==◌}
use pybus.Prelude.Exec.{raise, ◌>>◌}

module _ (l : Listener) (e : MessageEnvelope) where
  settle_as-Works :
      (purpose : Purpose) (status : CommandDeliveryStatus) (channel destination : String)
      (copy : MessageEnvelope) (count max_retries : ℕ) (last_attempt_at : Option ℕ)
      (receipt : Option String)
      → Works l (
          settle_as l purpose status channel destination e copy count max_retries last_attempt_at
            receipt)
  unfolding settle_as checkpoint_durable_settlement
  settle_as-Works purpose status channel destination copy count max_retries last_attempt_at
        receipt =
      let told : Action (Unit {0}) =
        notify_command_outcome l e status channel (some destination) count max_retries true in
      bind-Works l
        (checkpoint_durable_settlement l e status channel (some destination) count max_retries
          last_attempt_at receipt)
        (λ _. hand_over l purpose destination copy receipt >> told)
        (checkpoint_with-Works l e status channel (some destination) count max_retries
          last_attempt_at receipt l.controller)
        (λ _.
          bind-Works l (hand_over l purpose destination copy receipt) (λ _. told)
            (hand_over-Works l purpose destination copy receipt)
            (λ _. notify-Works l e status channel (some destination) count max_retries true))

  pub requeue-Works :
      (channel : String) (max_retries : ℕ) (receipt : Option String)
      → Works l (requeue l channel e max_retries receipt)
  unfolding requeue requeue_now
  requeue-Works channel max_retries receipt =
      bind-Works l (sleep l (l.next_delay (retry_count l e)))
        (λ _. requeue_now l channel e max_retries receipt)
        (sleep-Works l (l.next_delay (retry_count l e)))
        (λ _ w.
          settle_as-Works retry_requeue retry_scheduled channel channel
            (retry_envelope l e (l.fresh_text w.log) (l.now w.log)) (retry_count l e + 1)
            max_retries (some (l.now w.log)) receipt w)

  pub dead_letter-Works :
      (channel : String) (max_retries : ℕ) (receipt : Option String)
      → Works l (dead_letter l channel e max_retries receipt)
  unfolding dead_letter
  dead_letter-Works channel max_retries receipt w =
      settle_as-Works dead_letter_publication CommandDeliveryStatus.dead_lettered channel
        l.dead_letter_channel (dead_letter_envelope l e (l.fresh_text w.log) channel)
        (retry_count l e) max_retries none receipt w

  pub handle_failed_delivery-Works :
      (channel : String) (spec : HandlerSpec) (receipt : Option String)
      → Works l (handle_failed_delivery l channel e spec receipt)
  unfolding handle_failed_delivery
  handle_failed_delivery-Works channel spec receipt =
      let again : Action (Unit {0}) = requeue l channel e (max_retries_for l spec) receipt in
      choose-Works l (ltb (retry_count l e) (max_retries_for l spec)) (pause l spec.delay >> again)
        (dead_letter l channel e (max_retries_for l spec) receipt)
        (bind-Works l (pause l spec.delay) (λ _. again) (pause-Works l spec.delay)
          (λ _. requeue-Works channel (max_retries_for l spec) receipt))
        (dead_letter-Works channel (max_retries_for l spec) receipt)

  pub continue_processing-Works :
      (channel : String) (queue : Option String) (delay max_retries : ℕ) (receipt : Option String)
      → Works l (continue_processing l channel e queue delay max_retries receipt)
  unfolding continue_processing
  continue_processing-Works channel queue delay max_retries receipt =
      let target : String = or_text queue channel in
      let send : Action (Unit {0}) =
        settle_as l continuation continued channel target e e (retry_count l e) max_retries none
          receipt in
      choose-Works l (target == l.dead_letter_channel) (raise terminal_queue)
        (if unknown_target l queue target channel
          then raise unknown_queue
          else (continuation_sleep l delay >> send))
        (raise-Works l (Unit {0}) terminal_queue)
        (choose-Works l (unknown_target l queue target channel) (raise unknown_queue)
          (continuation_sleep l delay >> send) (raise-Works l (Unit {0}) unknown_queue)
          (bind-Works l (continuation_sleep l delay) (λ _. send) (continuation_sleep-Works l delay)
            (λ _.
              settle_as-Works continuation continued channel target e (retry_count l e) max_retries
                none receipt)))

  pub publish_response-Works :
      (response : ResponseMessage) (receipt : Option String)
      → Works l (publish_response l e response receipt)
  unfolding publish_response
  publish_response-Works response receipt w =
      hand_over-Works l response_publication (or_text e.reply_to default_reply_queue)
        (response_envelope l e response (l.fresh_text w.log) (l.store_now w.log)) receipt w
