-- ===== src/Listener/Safety/Dispatches/Delivery.antt =====
-- The phase of a claim through `listen_once` of src/pybus/listener.py, from the claim of a message for
-- handlers that are not batched.
use pybus.Durable.Envelope.{MessageEnvelope}
use pybus.Listener.{
  Action, HandlerOutcome, Listener, ListenerError, ResponseMessage, World, decode_failed,
  handler_not_found, indeterminate_delivery, key_of, observation_failed, retry_count, sleep_failed,
  terminal_queue, transport_failed, unknown_queue, worker_aborted,
}
use pybus.Listener.Dispatching.{
  Dispatched, claim_settled, finished, refused, verify_durable_configuration,
}
use pybus.Listener.Dispatching.Claiming.{
  answer, conclude, concluding, deliver_envelope, dispatch, has_batched_handlers, listened, recover,
  reply_of, retried,
}
use pybus.Listener.Effects.{ack_claim}
use pybus.Listener.Safety.{
  Phase, gives_up, held, is_closed, is_held, is_unsettled, may_end, may_fail, may_return, phase,
}
use pybus.Listener.Safety.Copies.{dead_letter-Ensures, publish_response-Ensures, requeue-Ensures}
use pybus.Listener.Safety.Dispatches.{held_is_unsettled, on_dispatched, verify-Ensures}
use pybus.Listener.Safety.Dispatches.Completion.{dispatch-Ensures}
use pybus.Listener.Safety.Limits.{policy_IsLimit, reached-gives_up}
use pybus.Listener.Safety.Rules.{
  Ensures, bind-Ensures, choose-Ensures, implies_lem, meets, pure-Ensures, weaken-Ensures,
}
use pybus.Listener.Safety.Settlements.{consume-Ensures}
use pybus.Listener.Settling.{dead_letter, publish_response, requeue}
use pybus.Prelude.{List, Option, String, arith, false, none, refl, some, true, ◌==◌, ◌≡◌}
use pybus.Prelude.Exec.{Result, err, ok, pure, ◌>>◌}
use pybus.Registry.{handlers_for}
use pybus.Retries.{should_retry}

module _ (l : Listener) (channel : String) (e : MessageEnvelope) (receipt : Option String) where
  closed-may_return : (p : Phase) → is_closed p ≡ true → may_return receipt p ≡ true
  closed-may_return = implies_lem is_closed (may_return receipt) (unfold may_return in refl)

  -- The answer to a request, or the acknowledgement.
  answer-Ensures :
      (os : List HandlerOutcome) (reply : Option ResponseMessage)
      → Ensures l e receipt is_held (answer l channel e receipt os reply) (λ _. may_return receipt)
  answer-Ensures os none =
      bind-Ensures l e receipt is_held (λ _. may_return receipt) (λ _. may_return receipt)
        (ack_claim l receipt) (λ _. pure (listened os)) (consume-Ensures l e receipt)
        (λ _.
          pure-Ensures l e receipt (may_return receipt) (λ _. may_return receipt) (listened os)
            (λ p h. h))
  answer-Ensures os (some r) =
      bind-Ensures l e receipt is_held (λ _. is_closed) (λ _. may_return receipt)
        (publish_response l e r receipt) (λ _. pure (listened os))
        (weaken-Ensures l e receipt is_unsettled is_held (λ _. is_closed)
          (publish_response l e r receipt) held_is_unsettled
          (publish_response-Ensures l e receipt r))
        (λ _.
          pure-Ensures l e receipt is_closed (λ _. may_return receipt) (listened os)
            closed-may_return)

  conclude-Ensures :
      (d : Dispatched)
      → Ensures l e receipt
          (on_dispatched d)
          (conclude l channel e receipt d)
          (λ _. may_return receipt)
  unfolding conclude
  conclude-Ensures claim_settled =
      pure-Ensures l e receipt is_closed (λ (r : Option (List HandlerOutcome)). may_return receipt)
        none closed-may_return
  conclude-Ensures refused =
      bind-Ensures l e receipt is_held (λ _. may_return receipt) (λ _. may_return receipt)
        (ack_claim l receipt) (λ _. pure none) (consume-Ensures l e receipt)
        (λ _.
          pure-Ensures l e receipt (may_return receipt)
            (λ (r : Option (List HandlerOutcome)). may_return receipt) none (λ p h. h))
  conclude-Ensures (finished os) = answer-Ensures os (reply_of l channel e receipt os)

  module _ (named : (e.message_id == "") ≡ false) where
    -- The `except` clauses of `listen_once`.
    sent_on-Ensures :
        (m : Action (Unit {0}))
        → Ensures l e receipt is_unsettled m (λ _. is_closed)
        → Ensures l e receipt is_unsettled
            (m >> pure none)
            (λ (r : Option (List HandlerOutcome)). may_return receipt)
    sent_on-Ensures m keeps =
        bind-Ensures l e receipt is_unsettled (λ _. is_closed) (λ _. may_return receipt) m
          (λ _. pure none) keeps
          (λ _.
            pure-Ensures l e receipt is_closed
              (λ (r : Option (List HandlerOutcome)). may_return receipt) none closed-may_return)

    retried-Ensures :
        Ensures l e receipt is_unsettled
          (retried l channel e receipt)
          (λ (r : Option (List HandlerOutcome)). may_return receipt)
    unfolding retried should_retry
    retried-Ensures =
        choose-Ensures l e receipt is_unsettled
          (λ (r : Option (List HandlerOutcome)). may_return receipt)
          (should_retry l.retry_policy (retry_count l e))
          (requeue l channel e l.retry_policy.max_retries receipt >> pure none)
          (dead_letter l channel e l.retry_policy.max_retries receipt >> pure none)
          (λ within. sent_on-Ensures (requeue l channel e l.retry_policy.max_retries receipt) (
            requeue-Ensures l e receipt named channel l.retry_policy.max_retries
              (policy_IsLimit l e) within))
          (λ reached. sent_on-Ensures (dead_letter l channel e l.retry_policy.max_retries receipt) (
            dead_letter-Ensures l e receipt named channel l.retry_policy.max_retries
              (reached-gives_up l e l.retry_policy.max_retries (policy_IsLimit l e) reached)))

    recover-Ensures :
        (error : ListenerError)
        → Ensures l e receipt
            (may_fail l e error)
            (recover l channel e receipt error)
            (λ (r : Option (List HandlerOutcome)). may_return receipt)
    unfolding recover may_fail
    recover-Ensures indeterminate_delivery w before = before
    recover-Ensures worker_aborted w before = before
    recover-Ensures observation_failed w before = before
    recover-Ensures handler_not_found w before =
        sent_on-Ensures (dead_letter l channel e l.retry_policy.max_retries receipt)
          (dead_letter-Ensures l e receipt named channel l.retry_policy.max_retries
            (unfold gives_up in ground (arith, before)))
          w (ground (arith, before))
    recover-Ensures decode_failed w before = retried-Ensures w before
    recover-Ensures sleep_failed w before = retried-Ensures w before
    recover-Ensures unknown_queue w before = retried-Ensures w before
    recover-Ensures terminal_queue w before = retried-Ensures w before
    recover-Ensures transport_failed w before = retried-Ensures w before

    pub deliver_envelope-may_end :
        has_batched_handlers l (handlers_for (key_of e) l.registry) ≡ false
        → (w : World) → phase l e receipt w.log ≡ held
        → may_end l e receipt
            (deliver_envelope l channel e receipt w).0
            (phase l e receipt (deliver_envelope l channel e receipt w).1.log)
          ≡ true
    unfolding deliver_envelope may_end
    deliver_envelope-may_end single w fresh = to_end (deliver_envelope l channel e receipt w) (
        bind-Ensures l e receipt is_held (λ _. is_held)
          (λ (r : Option (List HandlerOutcome)). may_return receipt)
          (verify_durable_configuration l channel e receipt)
          (λ _ w. concluding l channel e receipt (dispatch l channel e receipt w))
          (verify-Ensures l channel e receipt)
          (λ _ w before.
            go (dispatch l channel e receipt w)
              (dispatch-Ensures l channel e receipt named single w before))
          w (rw (fresh)))
      where
        go :
            (x : Result ListenerError Dispatched × World)
            → meets l e on_dispatched x.0 (phase l e receipt x.1.log) ≡ true
            → meets l e
                (λ (r : Option (List HandlerOutcome)). may_return receipt)
                (concluding l channel e receipt x).0
                (phase l e receipt (concluding l channel e receipt x).1.log)
              ≡ true
        go (ok d, w') h = conclude-Ensures d w' h
        go (err error, w') h = recover-Ensures error w' h

        to_end :
            (x : Result ListenerError (Option (List HandlerOutcome)) × World)
            → meets l e (λ r. may_return receipt) x.0 (phase l e receipt x.1.log) ≡ true
            → may_end l e receipt x.0 (phase l e receipt x.1.log) ≡ true
        to_end (ok a, w') h = h
        to_end (err error, w') h = h
