-- ===== src/Listener/Dispatching/Claiming.antt =====
-- `_dispatch` as a whole, and the loop of the worker around it: `listen_once` and `_consume_envelope`
-- of src/pybus/listener.py.
use pybus.Durable.Controller.{ControllerError, recurrence_misuse, store_error}
use pybus.Durable.Controller.Settlement.{complete_success}
use pybus.Durable.Envelope.{MessageEnvelope}
use pybus.Durable.Queries.{invalid_message_definition}
use pybus.Durable.Series.{HandlerResult}
use pybus.Durable.Types.{CommandDeliveryStatus}
use pybus.Listener.{
  Action, Claimed, HandlerOutcome, Listener, ListenerError, ResponseMessage, World, decode_failed,
  handler_not_found, indeterminate_delivery, key_of, max_retries_for, observation_failed, responded,
  retry_count, returned, took, worker_aborted,
}
use pybus.Listener.Batches.{buffer_batched_message, flush_ready_batches, just}
use pybus.Listener.Dispatching.{
  Dispatched, Looped, admit_durable_delivery, announce_start, claim_settled, completion, finished,
  is_command, is_durable, notice, ran, refused, restore, run_handlers, settled,
  verify_durable_configuration,
}
use pybus.Listener.Effects.{
  ack_claim, catching, command_delivery_outcome, log_event, notify_command_outcome,
  restore_and_abort,
}
use pybus.Listener.Settling.{
  dead_letter, dead_letter_undecodable, handle_failed_delivery, publish_response, requeue,
}
use pybus.Prelude.{
  Bool, List, Option, String, [], any, false, if◌then◌else◌, keep, none, not, some, suc, true, zero,
  ℕ, ◌&&◌, ◌==◌, ◌||◌, ◌∷◌,
}
use pybus.Prelude.Exec.{Result, err, ok, pure, raise, ◌>>=◌, ◌>>◌}
use pybus.Registry.{Handler, handlers_for}
use pybus.Retries.{should_retry}

-- `len(handlers) > 1`, and `len(handlers) != 1`
abbrev pub is_many : List Handler → Bool
is_many (h ∷ k ∷ hs) = true
is_many _ = false

abbrev pub is_one : List Handler → Bool
is_one (h ∷ []) = true
is_one _ = false

-- The first response among the results, if it is the only result.
abbrev pub only_response : List HandlerOutcome → Option ResponseMessage
only_response (responded r ∷ []) = some r
only_response _ = none

-- The errors of the controller that are an `InvalidMessageDefinitionError`, on completion.
abbrev pub is_invalid_definition : ControllerError → Bool
is_invalid_definition recurrence_misuse = true
is_invalid_definition (store_error invalid_message_definition) = true
is_invalid_definition _ = false

-- What `listen_once` returns: `None` if that is what the one handler has returned.
abbrev pub listened : List HandlerOutcome → Option (List HandlerOutcome)
listened (returned HandlerResult.nothing ∷ []) = none
listened os = some os

module _ (l : Listener) where
  -- `command_max_retries`
  abbrev pub command_max_retries : List Handler → ℕ
  command_max_retries [] = l.retry_policy.max_retries
  command_max_retries (h ∷ hs) = max_retries_for l (l.spec_for h)

  -- `_has_batched_handlers`
  unfoldable pub has_batched_handlers : List Handler → Bool
  has_batched_handlers hs = any (λ h. (l.spec_for h).batched) hs

  abbrev pub is_filled_list : List ℕ → Bool
  is_filled_list [] = false
  is_filled_list (k ∷ ks) = true

  -- The commands of which the observers or the durable controller are told.
  unfoldable pub is_watched : MessageEnvelope → Bool
  unfolding is_durable
  is_watched e = is_command e && (is_filled_list l.observers || is_durable e)

  module _ (channel : String) (e : MessageEnvelope) (receipt : Option String) where
    -- `first` is `handlers[0]`.
    abbrev pub first_failed : Handler → Action Dispatched
    first_failed first =
        handle_failed_delivery l channel e (l.spec_for first) receipt >> pure claim_settled

    abbrev pub after_completion : Handler → ControllerError → Action Dispatched
    after_completion first error =
        if is_invalid_definition error then first_failed first else raise observation_failed

    unfoldable pub announce_success : List HandlerOutcome → ℕ → Action Dispatched
    unfolding notify_command_outcome is_durable retry_count
    announce_success os max_retries =
        notice l channel e receipt CommandDeliveryStatus.succeeded max_retries (not (is_durable e))
        >> pure (finished os)

    -- The completion by a controller of this delay, if there is one.
    unfoldable pub complete_with : Handler → List HandlerOutcome → ℕ → Option ℕ → Action Dispatched
    unfolding catching complete_success command_delivery_outcome announce_success retry_count
    complete_with first os max_retries none w = announce_success os max_retries w
    complete_with first os max_retries (some delay) w =
        catching
          (complete_success l.lib (l.now w.log) (l.store_now w.log) delay l.calendar
            (l.fresh_id w.log) (l.fresh_text w.log)
            (command_delivery_outcome l e CommandDeliveryStatus.succeeded channel none
              (retry_count l e) max_retries)
            (completion os) (l.now w.log))
          (after_completion first) (λ _. announce_success os max_retries) w

    -- After every handler has succeeded on a watched command.
    unfoldable pub complete_delivery : Handler → List HandlerOutcome → ℕ → Action Dispatched
    unfolding complete_with is_durable
    complete_delivery first os max_retries =
        complete_with first os max_retries (if is_durable e then l.controller else none)

    abbrev pub after_loop : Handler → ℕ → Looped → Action Dispatched
    after_loop first max_retries settled = pure claim_settled
    after_loop first max_retries (ran os) =
        if is_watched e then complete_delivery first os max_retries else pure (finished os)

    unfoldable pub start : List Handler → Action (Unit {0})
    unfolding is_watched announce_start restore_and_abort
    start hs =
        if is_watched e
        then (if is_one hs
            then announce_start l channel e receipt (command_max_retries hs)
            else restore l channel e receipt worker_aborted)
        else pure tt

    -- `_dispatch` once the message is decoded; the handlers are `first` and `hs`.
    unfoldable pub dispatch_decoded : Handler → List Handler → Action Dispatched
    unfolding has_batched_handlers buffer_batched_message flush_ready_batches start run_handlers
        complete_delivery
    dispatch_decoded first hs =
        if has_batched_handlers (first ∷ hs)
        then (buffer_batched_message l e receipt >> flush_ready_batches l >> pure claim_settled)
        else (start (first ∷ hs)
            >> run_handlers l channel e receipt (first ∷ hs)
            >>= after_loop first (command_max_retries (first ∷ hs)))

    unfoldable pub dispatch_admitted : List Handler → Bool → Action Dispatched
    unfolding dispatch_decoded
    dispatch_admitted hs false = pure refused
    dispatch_admitted [] true = raise handler_not_found
    dispatch_admitted (h ∷ hs) true =
        if l.decodes e then dispatch_decoded h hs else raise decode_failed

    unfoldable pub admit_claimed : List Handler → Action Bool
    unfolding admit_durable_delivery restore_and_abort is_durable
    admit_claimed hs =
        if not (is_command e && is_durable e)
        then pure true
        else if is_many hs
        then restore l channel e receipt worker_aborted
        else admit_durable_delivery l channel e receipt (command_max_retries hs)

    -- `_dispatch`
    unfoldable pub dispatch : Action Dispatched
    unfolding handlers_for admit_claimed dispatch_admitted
    dispatch =
        let hs = handlers_for (key_of e) l.registry in admit_claimed hs >>= dispatch_admitted hs

    -- `except Exception`
    unfoldable pub retried : Action (Option (List HandlerOutcome))
    unfolding requeue dead_letter should_retry retry_count
    retried =
        if should_retry l.retry_policy (retry_count l e)
        then requeue l channel e l.retry_policy.max_retries receipt >> pure none
        else dead_letter l channel e l.retry_policy.max_retries receipt >> pure none

    -- The `except` clauses of `listen_once`.
    unfoldable pub recover : ListenerError → Action (Option (List HandlerOutcome))
    unfolding retried dead_letter
    recover indeterminate_delivery = raise indeterminate_delivery
    recover worker_aborted = raise worker_aborted
    recover observation_failed = raise observation_failed
    recover handler_not_found =
        dead_letter l channel e l.retry_policy.max_retries receipt >> pure none
    recover _ = retried

    abbrev pub reply_of : List HandlerOutcome → Option ResponseMessage
    reply_of os = if e.message_kind == "request" then only_response os else none

    abbrev pub answer :
        List HandlerOutcome → Option ResponseMessage → Action (Option (List HandlerOutcome))
    answer os none = ack_claim l receipt >> pure (listened os)
    answer os (some r) = publish_response l e r receipt >> pure (listened os)

    -- The end of `listen_once`.
    unfoldable pub conclude : Dispatched → Action (Option (List HandlerOutcome))
    unfolding publish_response ack_claim
    conclude claim_settled = pure none
    conclude refused = ack_claim l receipt >> pure none
    conclude (finished os) = answer os (reply_of os)

    abbrev pub concluding :
        Result ListenerError Dispatched × World
        → Result ListenerError (Option (List HandlerOutcome)) × World
    concluding (ok d, w) = conclude d w
    concluding (err error, w) = recover error w

    -- `listen_once` of a message that is claimed and decoded to an envelope.
    unfoldable pub deliver_envelope : Action (Option (List HandlerOutcome))
    unfolding verify_durable_configuration dispatch recover conclude
    deliver_envelope =
        verify_durable_configuration l channel e receipt >> λ w. concluding (dispatch w)

  -- `_active_channels`
  unfoldable pub active_channels : List String → List String
  active_channels channels = keep (λ c. not (c == l.dead_letter_channel)) channels

  unfoldable pub claim_from : String → Action (Option Claimed)
  claim_from channel w = just (l.consume w.log channel) (log_event (took channel) w)

  abbrev pub or_next :
      String
      → Action (Option (String × Claimed))
      → Option Claimed
      → Action (Option (String × Claimed))
  or_next channel rest none = rest
  or_next channel rest (some raw) = pure (some (channel, raw))

  -- `_consume_envelope`, up to the decoding.
  unfoldable pub claim_first : List String → Action (Option (String × Claimed))
  unfolding claim_from
  claim_first [] = pure none
  claim_first (c ∷ cs) = claim_from c >>= or_next c (claim_first cs)

  unfoldable pub deliver_claimed : String → Claimed → Action (Option (List HandlerOutcome))
  unfolding dead_letter_undecodable deliver_envelope
  deliver_claimed channel raw = elim raw.envelope [
    | none ↦ dead_letter_undecodable l channel raw >> pure none
    | some e ↦ deliver_envelope channel e raw.receipt
  ]

  abbrev pub deliver_first : Option (String × Claimed) → Action (Option (List HandlerOutcome))
  deliver_first none = pure none
  deliver_first (some (channel, raw)) = deliver_claimed channel raw

  -- `listen_once`
  unfoldable pub listen_once : List String → Action (Option (List HandlerOutcome))
  unfolding flush_ready_batches claim_first deliver_claimed active_channels
  listen_once channels =
      flush_ready_batches l >> claim_first (active_channels channels) >>= deliver_first

  abbrev pub after_delivery :
      Action (List (List HandlerOutcome))
      → Option (List HandlerOutcome)
      → Action (List (List HandlerOutcome))
  after_delivery rest none = pure []
  after_delivery rest (some os) = rest >>= λ oss. pure (os ∷ oss)

  -- `listen`, with `max_messages`; with none it has no end of its own.
  unfoldable pub listen : ℕ → List String → Action (List (List HandlerOutcome))
  unfolding listen_once
  listen zero channels = pure []
  listen (suc max_messages) channels =
      listen_once channels >>= after_delivery (listen max_messages channels)
