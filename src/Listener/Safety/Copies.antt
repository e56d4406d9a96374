-- ===== src/Listener/Safety/Copies.antt =====
-- The phase of a claim through `_requeue`, `_dead_letter`, `_continue_processing`, `_publish_response`
-- and `_handle_failed_delivery` of src/pybus/listener.py: each sends the message on and closes the claim,
-- or raises in a phase that its exception allows.
use pybus.Durable.Envelope.{MessageEnvelope}
use pybus.Durable.Queries.{or_text}
use pybus.Durable.Types.{CommandDeliveryStatus, continued, retry_scheduled}
use pybus.Listener.{
  Action, HandlerSpec, Listener, Purpose, ResponseMessage, continuation, dead_letter_publication,
  max_retries_for, observation_failed, response_publication, retry_count, retry_requeue,
  terminal_queue, unknown_queue,
}
use pybus.Listener.Effects.{checkpoint_durable_settlement, hand_over, notify_command_outcome, sleep}
use pybus.Listener.Safety.{carries, gives_up, is_closed, is_unsettled, may_fail}
use pybus.Listener.Safety.Limits.{
  IsLimit, dead_letter_envelope-carries, reached-gives_up, retry_envelope-carries,
}
use pybus.Listener.Safety.Notices.{
  checkpoint-Ensures, continuation_sleep-Ensures, notify-Ensures, pause-Ensures, sleep-Ensures,
}
use pybus.Listener.Safety.Rules.{Ensures, bind-Ensures, choose-Ensures, implies_lem, raise-Ensures}
use pybus.Listener.Safety.Settlements.{hand_over-Ensures, is_same_message_refl}
use pybus.Listener.Settling.{
  continuation_sleep, continue_processing, dead_letter, dead_letter_envelope, default_reply_queue,
  handle_failed_delivery, pause, publish_response, requeue, requeue_now, response_envelope,
  retry_envelope, settle_as, unknown_target,
}
use pybus.Prelude.{
  Option, String, eq_refl, false, if◌then◌else◌, ltb, none, refl, some, true, ℕ, ◌+◌, ◌==◌, ◌≡◌,
}
use pybus.Prelude.Exec.{raise, ◌>>◌}

module _ (l : Listener) (e : MessageEnvelope) (receipt : Option String) where
  -- A settlement that sends a right copy on.
  settle_as-Ensures :
      (purpose : Purpose) (status : CommandDeliveryStatus) (channel destination : String)
      (copy : MessageEnvelope) (count max_retries : ℕ) (last_attempt_at : Option ℕ)
      → carries l purpose e copy ≡ true
      → Ensures l e receipt is_unsettled
          (settle_as l purpose status channel destination e copy count max_retries last_attempt_at
            receipt)
          (λ _. is_closed)
  unfolding settle_as
  settle_as-Ensures purpose status channel destination copy count max_retries last_attempt_at
        right =
      let told : Action (Unit {0}) =
        notify_command_outcome l e status channel (some destination) count max_retries true in
      bind-Ensures l e receipt is_unsettled (λ _. is_unsettled) (λ _. is_closed)
        (checkpoint_durable_settlement l e status channel (some destination) count max_retries
          last_attempt_at receipt)
        (λ _. hand_over l purpose destination copy receipt >> told)
        (checkpoint-Ensures l e receipt status channel (some destination) count max_retries
          last_attempt_at)
        (λ _.
          bind-Ensures l e receipt is_unsettled (λ _. is_closed) (λ _. is_closed)
            (hand_over l purpose destination copy receipt) (λ _. told)
            (hand_over-Ensures l e receipt purpose destination copy right)
            (λ _.
              notify-Ensures l e receipt is_closed
                (implies_lem is_closed (may_fail l e observation_failed) (unfold may_fail in refl))
                status channel (some destination) count max_retries true))

  -- `_continue_processing`
  pub continue_processing-Ensures :
      (channel : String) (queue : Option String) (delay max_retries : ℕ)
      → Ensures l e receipt is_unsettled
          (continue_processing l channel e queue delay max_retries receipt)
          (λ _. is_closed)
  unfolding continue_processing may_fail
  continue_processing-Ensures channel queue delay max_retries =
      let target : String = or_text queue channel in
      let send : Action (Unit {0}) =
        settle_as l continuation continued channel target e e (retry_count l e) max_retries none
          receipt in
      choose-Ensures l e receipt is_unsettled (λ _. is_closed) (target == l.dead_letter_channel)
        (raise terminal_queue)
        (if unknown_target l queue target channel
          then raise unknown_queue
          else (continuation_sleep l delay >> send))
        (λ _.
          raise-Ensures l e receipt {A = Unit {0}} is_unsettled (λ _. is_closed) terminal_queue
            (λ p h. h))
        (λ _.
          choose-Ensures l e receipt is_unsettled (λ _. is_closed)
            (unknown_target l queue target channel) (raise unknown_queue)
            (continuation_sleep l delay >> send)
            (λ _.
              raise-Ensures l e receipt {A = Unit {0}} is_unsettled (λ _. is_closed) unknown_queue
                (λ p h. h))
            (λ _.
              bind-Ensures l e receipt is_unsettled (λ _. is_unsettled) (λ _. is_closed)
                (continuation_sleep l delay) (λ _. send)
                (continuation_sleep-Ensures l e receipt delay)
                (λ _.
                  settle_as-Ensures continuation continued channel target e (retry_count l e)
                    max_retries none (unfold carries in is_same_message_refl e))))

  -- `_publish_response`
  pub publish_response-Ensures :
      (response : ResponseMessage)
      → Ensures l e receipt is_unsettled (publish_response l e response receipt) (λ _. is_closed)
  unfolding publish_response
  publish_response-Ensures response w =
      hand_over-Ensures l e receipt response_publication (or_text e.reply_to default_reply_queue)
        (response_envelope l e response (l.fresh_text w.log) (l.store_now w.log))
        (unfold carries response_envelope in eq_refl e.message_id) w

  module _ (named : (e.message_id == "") ≡ false) where
    -- `_requeue`
    pub requeue-Ensures :
        (channel : String) (max_retries : ℕ)
        → IsLimit l e max_retries
        → ltb (retry_count l e) max_retries ≡ true
        → Ensures l e receipt is_unsettled
            (requeue l channel e max_retries receipt)
            (λ _. is_closed)
    unfolding requeue requeue_now
    requeue-Ensures channel max_retries limit within =
        bind-Ensures l e receipt is_unsettled (λ _. is_unsettled) (λ _. is_closed)
          (sleep l (l.next_delay (retry_count l e)))
          (λ _. requeue_now l channel e max_retries receipt)
          (sleep-Ensures l e receipt (l.next_delay (retry_count l e)))
          (λ _ w.
            settle_as-Ensures retry_requeue retry_scheduled channel channel
              (retry_envelope l e (l.fresh_text w.log) (l.now w.log)) (retry_count l e + 1)
              max_retries (some (l.now w.log))
              (retry_envelope-carries l e (l.fresh_text w.log) (l.now w.log) max_retries named limit
                within)
              w)

    -- `_dead_letter`
    pub dead_letter-Ensures :
        (channel : String) (max_retries : ℕ)
        → gives_up l e ≡ true
        → Ensures l e receipt is_unsettled
            (dead_letter l channel e max_retries receipt)
            (λ _. is_closed)
    unfolding dead_letter
    dead_letter-Ensures channel max_retries over w =
        settle_as-Ensures dead_letter_publication CommandDeliveryStatus.dead_lettered channel
          l.dead_letter_channel (dead_letter_envelope l e (l.fresh_text w.log) channel)
          (retry_count l e) max_retries none
          (dead_letter_envelope-carries l e (l.fresh_text w.log) channel named over) w

    -- `_handle_failed_delivery`
    pub handle_failed_delivery-Ensures :
        (channel : String) (spec : HandlerSpec)
        → IsLimit l e (max_retries_for l spec)
        → Ensures l e receipt is_unsettled
            (handle_failed_delivery l channel e spec receipt)
            (λ _. is_closed)
    unfolding handle_failed_delivery
    handle_failed_delivery-Ensures channel spec limit =
        let again : Action (Unit {0}) = requeue l channel e (max_retries_for l spec) receipt in
        choose-Ensures l e receipt is_unsettled (λ _. is_closed)
          (ltb (retry_count l e) (max_retries_for l spec)) (pause l spec.delay >> again)
          (dead_letter l channel e (max_retries_for l spec) receipt)
          (λ within.
            bind-Ensures l e receipt is_unsettled (λ _. is_unsettled) (λ _. is_closed)
              (pause l spec.delay) (λ _. again) (pause-Ensures l e receipt spec.delay)
              (λ _. requeue-Ensures channel (max_retries_for l spec) limit within))
          (λ reached.
            dead_letter-Ensures channel (max_retries_for l spec)
              (reached-gives_up l e (max_retries_for l spec) limit reached))
