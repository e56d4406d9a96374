-- ===== src/Listener/Histories/Deliveries/Listening.antt =====
-- The completion of a delivery and the loop of a worker, src/pybus/listener.py, as calls of the store.
use mathlib.Core.Path.{subst}
use pybus.Durable.Controller.{ControllerError}
use pybus.Durable.Controller.Settlement.{complete_success}
use pybus.Durable.Envelope.{MessageEnvelope}
use pybus.Durable.Run.Invariant.{AllSound, history-AllSound}
use pybus.Durable.Settle.{CommandDeliveryOutcome}
use pybus.Durable.Types.{CommandDeliveryStatus}
use pybus.Listener.{
  Action, Claimed, HandlerOutcome, Listener, ListenerError, ResponseMessage, World, decode_failed,
  handler_not_found, indeterminate_delivery, key_of, observation_failed, retry_count, sleep_failed,
  terminal_queue, took, transport_failed, unknown_queue, worker_aborted,
}
use pybus.Listener.Batches.{buffer_batched_message, flush_ready_batches}
use pybus.Listener.Dispatching.{
  Dispatched, Looped, claim_settled, completion, finished, is_durable, notice, ran, refused,
  run_handlers, settled, verify_durable_configuration,
}
use pybus.Listener.Dispatching.Claiming.{
  active_channels, admit_claimed, after_completion, after_delivery, after_loop, announce_success,
  answer, claim_first, claim_from, command_max_retries, complete_delivery, complete_with, conclude,
  concluding, deliver_claimed, deliver_envelope, deliver_first, dispatch, dispatch_admitted,
  dispatch_decoded, first_failed, has_batched_handlers, is_invalid_definition, is_watched, listen,
  listen_once, listened, or_next, recover, reply_of, retried, start,
}
use pybus.Listener.Effects.{ack_claim, command_delivery_outcome, log_event}
use pybus.Listener.Histories.{
  AllWorking-Admissions, Work, Works, bind-Works, catching-Works, choose-Works, compose, pure-Works,
  raise-Works, stay,
}
use pybus.Listener.Histories.Batches.{
  buffer-Works, flush_ready_batches-Works, just-Works, undecodable-Works,
}
use pybus.Listener.Histories.Controlling.{complete_success-Work}
use pybus.Listener.Histories.Deliveries.{
  admit-Works, fail-Works, run_handlers-Works, start-Works, verify-Works,
}
use pybus.Listener.Histories.Effects.{ack_claim-Works, notify-Works}
use pybus.Listener.Histories.Settling.{dead_letter-Works, publish_response-Works, requeue-Works}
use pybus.Listener.Settling.{dead_letter, dead_letter_undecodable, publish_response, requeue}
use pybus.Prelude.{
  Bool, List, Option, Option-cases, String, [], false, if◌then◌else◌, inl, inr, none, not, refl,
  some, suc, sym, true, zero, ℕ, ◌∷◌,
}
use pybus.Prelude.Exec.{Result, err, ok, pure, raise, ◌>>=◌, ◌>>◌}
use pybus.Registry.{Handler, handlers_for}
use pybus.Retries.{should_retry}

abbrev pub Answer : Type 0
Answer = Option (List HandlerOutcome)

module _ (l : Listener) where
  module _ (channel : String) (e : MessageEnvelope) (receipt : Option String) where
    announce_success-Works :
        (os : List HandlerOutcome) (max_retries : ℕ)
        → Works l (announce_success l channel e receipt os max_retries)
    unfolding announce_success
    announce_success-Works os max_retries =
        bind-Works l
          (notice l channel e receipt CommandDeliveryStatus.succeeded max_retries
            (not (is_durable e)))
          (λ _. pure (finished os))
          (notify-Works l e CommandDeliveryStatus.succeeded channel none (retry_count l e)
            max_retries (not (is_durable e)))
          (λ _. pure-Works l (finished os))

    after_completion-Works :
        (first : Handler) (error : ControllerError)
        → Works l (after_completion l channel e receipt first error)
    after_completion-Works first error =
        choose-Works l (is_invalid_definition error) (first_failed l channel e receipt first)
          (raise observation_failed)
          (fail-Works l channel e receipt (l.spec_for first) claim_settled)
          (raise-Works l Dispatched observation_failed)

    complete_with-Works :
        (first : Handler) (os : List HandlerOutcome) (max_retries : ℕ) (controller : Option ℕ)
        → Works l (complete_with l channel e receipt first os max_retries controller)
    unfolding complete_with
    complete_with-Works first os max_retries none w = announce_success-Works os max_retries w
    complete_with-Works first os max_retries (some delay) w =
        let o : CommandDeliveryOutcome =
          command_delivery_outcome l e CommandDeliveryStatus.succeeded channel none
            (retry_count l e) max_retries in
        catching-Works l
          (complete_success l.lib (l.now w.log) (l.store_now w.log) delay l.calendar
            (l.fresh_id w.log) (l.fresh_text w.log) o (completion os) (l.now w.log))
          (after_completion l channel e receipt first)
          (λ _. announce_success l channel e receipt os max_retries)
          (complete_success-Work l (l.now w.log) (l.store_now w.log) delay (l.fresh_id w.log)
            (l.fresh_text w.log) o (completion os) (l.now w.log))
          (after_completion-Works first) (λ _. announce_success-Works os max_retries) w

    after_loop-Works :
        (first : Handler) (max_retries : ℕ) (looped : Looped)
        → Works l (after_loop l channel e receipt first max_retries looped)
    unfolding complete_delivery
    after_loop-Works first max_retries settled = pure-Works l claim_settled
    after_loop-Works first max_retries (ran os) =
        choose-Works l (is_watched l e) (complete_delivery l channel e receipt first os max_retries)
          (pure (finished os))
          (complete_with-Works first os max_retries (if is_durable e then l.controller else none))
          (pure-Works l (finished os))

    decoded-Works :
        (first : Handler) (hs : List Handler)
        → Works l (dispatch_decoded l channel e receipt first hs)
    unfolding dispatch_decoded
    decoded-Works first hs =
        let all : List Handler = first ∷ hs in
        let buffered : Action (Unit {0}) =
          buffer_batched_message l e receipt >> flush_ready_batches l in
        let began : Action Looped =
          start l channel e receipt all >> run_handlers l channel e receipt all in
        choose-Works l (has_batched_handlers l all) (buffered >> pure claim_settled)
          (began >>= after_loop l channel e receipt first (command_max_retries l all))
          (bind-Works l buffered (λ _. pure claim_settled)
            (bind-Works l (buffer_batched_message l e receipt) (λ _. flush_ready_batches l)
              (buffer-Works l e receipt) (λ _. flush_ready_batches-Works l))
            (λ _. pure-Works l claim_settled))
          (bind-Works l began (after_loop l channel e receipt first (command_max_retries l all))
            (bind-Works l (start l channel e receipt all)
              (λ _. run_handlers l channel e receipt all) (start-Works l channel e receipt all)
              (λ _. run_handlers-Works l channel e receipt all))
            (after_loop-Works first (command_max_retries l all)))

    admitted-Works :
        (hs : List Handler) (admitted : Bool)
        → Works l (dispatch_admitted l channel e receipt hs admitted)
    unfolding dispatch_admitted
    admitted-Works hs false w = stay l w.db
    admitted-Works [] true w = stay l w.db
    admitted-Works (h ∷ hs) true w =
        choose-Works l (l.decodes e) (dispatch_decoded l channel e receipt h hs)
          (raise decode_failed) (decoded-Works h hs) (raise-Works l Dispatched decode_failed) w

    dispatch-Works : Works l (dispatch l channel e receipt)
    unfolding dispatch
    dispatch-Works =
        let hs : List Handler = handlers_for (key_of e) l.registry in
        bind-Works l (admit_claimed l channel e receipt hs)
          (dispatch_admitted l channel e receipt hs) (admit-Works l channel e receipt hs)
          (admitted-Works hs)

    then_none : (m : Action (Unit {0})) → Works l m → Works l (m >> pure {A = Answer} none)
    then_none m keeps = bind-Works l m (λ _. pure none) keeps (λ _ w. stay l w.db)

    retried-Works : Works l (retried l channel e receipt)
    unfolding retried
    retried-Works =
        let m : ℕ = l.retry_policy.max_retries in
        choose-Works l (should_retry l.retry_policy (retry_count l e))
          (requeue l channel e m receipt >> pure none)
          (dead_letter l channel e m receipt >> pure none)
          (then_none (requeue l channel e m receipt) (requeue-Works l e channel m receipt))
          (then_none (dead_letter l channel e m receipt) (dead_letter-Works l e channel m receipt))

    recover-Works : (error : ListenerError) → Works l (recover l channel e receipt error)
    unfolding recover
    recover-Works indeterminate_delivery w = stay l w.db
    recover-Works worker_aborted w = stay l w.db
    recover-Works observation_failed w = stay l w.db
    recover-Works handler_not_found w =
        then_none (dead_letter l channel e l.retry_policy.max_retries receipt)
          (dead_letter-Works l e channel l.retry_policy.max_retries receipt) w
    recover-Works decode_failed w = retried-Works w
    recover-Works sleep_failed w = retried-Works w
    recover-Works unknown_queue w = retried-Works w
    recover-Works terminal_queue w = retried-Works w
    recover-Works transport_failed w = retried-Works w

    answer-Works :
        (os : List HandlerOutcome) (reply : Option ResponseMessage)
        → Works l (answer l channel e receipt os reply)
    answer-Works os none =
        bind-Works l (ack_claim l receipt) (λ _. pure (listened os)) (ack_claim-Works l receipt)
          (λ _. pure-Works l (listened os))
    answer-Works os (some r) =
        bind-Works l (publish_response l e r receipt) (λ _. pure (listened os))
          (publish_response-Works l e r receipt) (λ _. pure-Works l (listened os))

    conclude-Works : (d : Dispatched) → Works l (conclude l channel e receipt d)
    unfolding conclude
    conclude-Works claim_settled w = stay l w.db
    conclude-Works refused w = then_none (ack_claim l receipt) (ack_claim-Works l receipt) w
    conclude-Works (finished os) w = answer-Works os (reply_of l channel e receipt os) w

    deliver-Works : Works l (deliver_envelope l channel e receipt)
    unfolding deliver_envelope
    deliver-Works =
        bind-Works l (verify_durable_configuration l channel e receipt)
          (λ _ w. concluding l channel e receipt (dispatch l channel e receipt w))
          (verify-Works l channel e receipt)
          (λ _ w. go w (dispatch l channel e receipt w) (dispatch-Works w))
      where
        go :
            (w : World) (x : Result ListenerError Dispatched × World)
            → Work l w.db x.1.db
            → Work l w.db (concluding l channel e receipt x).1.db
        go w (ok d, w') h =
            compose l w.db w'.db (conclude l channel e receipt d w').1.db h (conclude-Works d w')
        go w (err error, w') h =
            compose l w.db w'.db (recover l channel e receipt error w').1.db h
              (recover-Works error w')

  claim_from-Works : (channel : String) → Works l (claim_from l channel)
  unfolding claim_from
  claim_from-Works channel w =
      just-Works l (l.consume w.log channel) w.db (log_event (took channel) w) refl

  or_next-Works :
      (channel : String) (rest : Action (Option (String × Claimed))) (claimed : Option Claimed)
      → Works l rest
      → Works l (or_next l channel rest claimed)
  or_next-Works channel rest none keeps w = keeps w
  or_next-Works channel rest (some raw) keeps w = stay l w.db

  claim_first-Works : (cs : List String) → Works l (claim_first l cs)
  unfolding claim_first
  claim_first-Works [] w = stay l w.db
  claim_first-Works (c ∷ cs) w =
      bind-Works l (claim_from l c) (or_next l c (claim_first l cs)) (claim_from-Works c)
        (λ claimed. or_next-Works c (claim_first l cs) claimed (claim_first-Works cs)) w

  deliver_claimed-Works :
      (channel : String) (raw : Claimed) → Works l (deliver_claimed l channel raw)
  unfolding deliver_claimed
  deliver_claimed-Works channel raw w = elim (Option-cases raw.envelope) [
    | inl bad ↦
        rw (deliver_claimed, bad)
          (bind-Works l (dead_letter_undecodable l channel raw) (λ _. pure {A = Answer} none)
            (undecodable-Works l channel raw) (λ _ w'. stay l w'.db) w)
    | inr (e, good) ↦ rw (deliver_claimed, good) (deliver-Works channel e raw.receipt w)
  ]

  deliver_first-Works : (claimed : Option (String × Claimed)) → Works l (deliver_first l claimed)
  deliver_first-Works none w = stay l w.db
  deliver_first-Works (some (channel, raw)) w = deliver_claimed-Works channel raw w

  listen_once-Works : (channels : List String) → Works l (listen_once l channels)
  unfolding listen_once
  listen_once-Works channels =
      let began : Action (Option (String × Claimed)) =
        flush_ready_batches l >> claim_first l (active_channels l channels) in
      bind-Works l began (deliver_first l)
        (bind-Works l (flush_ready_batches l) (λ _. claim_first l (active_channels l channels))
          (flush_ready_batches-Works l) (λ _. claim_first-Works (active_channels l channels)))
        deliver_first-Works

  after_delivery-Works :
      (rest : Action (List (List HandlerOutcome))) (a : Answer)
      → Works l rest
      → Works l (after_delivery l rest a)
  after_delivery-Works rest none keeps w = stay l w.db
  after_delivery-Works rest (some os) keeps w =
      bind-Works l rest (λ oss. pure (os ∷ oss)) keeps (λ oss w'. stay l w'.db) w

  listen-Works : (n : ℕ) (channels : List String) → Works l (listen l n channels)
  unfolding listen
  listen-Works zero channels w = stay l w.db
  listen-Works (suc n) channels w =
      bind-Works l (listen_once l channels) (after_delivery l (listen l n channels))
        (listen_once-Works channels)
        (λ a. after_delivery-Works (listen l n channels) a (listen-Works n channels)) w

-- Whatever the transport, the handlers, the observers and the clocks do, and whether it returns or
-- raises, a worker that listens leaves every row of the table sound, if every row was sound before.
pub listen-AllSound :
    (l : Listener) (max_messages : ℕ) (channels : List String) (w : World)
    → AllSound w.db
    → AllSound (listen l max_messages channels w).1.db
listen-AllSound l n channels w sound =
    let (cs, working, same) = listen-Works l n channels w in
    subst AllSound (sym same)
      (history-AllSound l.lib l.calendar cs w.db (AllWorking-Admissions l cs working) sound)
