-- ===== src/Listener/Safety.antt =====
-- What may happen to a claimed message: the effects of a delivery, src/pybus/listener.py, read as the
-- moves of an automaton.
pub mod Rules
pub mod Settlements
pub mod Notices
pub mod Limits
pub mod Copies
pub mod Dispatches
pub mod Retrying
pub mod Admissions
pub mod Fences
use pybus.Durable.Envelope.{MessageEnvelope}
use pybus.Listener.{
  Event, HandlerOutcome, Listener, ListenerError, Log, Purpose, ack_failed, acked, batch_ran,
  continue_processing_on, dead_letter_publication, handler_not_found, handler_ran,
  indeterminate_delivery, key_of, max_retries_for, observation_failed, observation_raised, observed,
  raised, responded, response_publication, retry_count, retry_requeue, returned, send_failed, sent,
  sized, sleep_raised, slept, took, worker_aborted,
}
use pybus.Prelude.{
  Bool, List, Option, String, [], any, eqb, false, is_some, ltb, map, not, some_and, true, ℕ, ◌&&◌,
  ◌+◌, ◌==◌, ◌||◌, ◌∷◌,
}
use pybus.Prelude.Exec.{Result, err, ok}
use pybus.Registry.{Handler, handlers_for}

-- `held`: claimed, and no more. `owed`: a handler has failed or asked for a continuation, so the message
-- must not be given up. `copied`: sent on. `closed`: sent on and acknowledged. `consumed`: acknowledged
-- only. `doubtful`: a publication or an acknowledgement has raised, and may have happened or not.
-- `broken`: any other order of effects.
pub data Phase : Type 0 where
  held owed copied closed consumed doubtful broken : Phase

unfoldable pub is_same_message : MessageEnvelope → MessageEnvelope → Bool
is_same_message e c =
    c.message_id == e.message_id
    && c.message_type == e.message_type
    && c.message_kind == e.message_kind
    && eqb c.version e.version

abbrev pub no_handlers_for : List Handler → Bool
no_handlers_for [] = true
no_handlers_for (h ∷ hs) = false

module _ (l : Listener) where
  -- The limits of retries that a delivery of the message goes by.
  unfoldable pub limits : MessageEnvelope → List ℕ
  unfolding handlers_for
  limits e =
      l.retry_policy.max_retries
      ∷ map (λ h. max_retries_for l (l.spec_for h)) (handlers_for (key_of e) l.registry)

  -- A retry is within one of the limits, and counts one more than the message.
  unfoldable pub retries_on : MessageEnvelope → MessageEnvelope → Bool
  unfolding limits retry_count
  retries_on e c =
      any (λ m. ltb (retry_count l e) m) (limits e) && eqb (retry_count l c) (retry_count l e + 1)

  -- A message is given up when a limit is reached, or when it has no handler.
  unfoldable pub gives_up : MessageEnvelope → Bool
  unfolding limits retry_count handlers_for
  gives_up e =
      no_handlers_for (handlers_for (key_of e) l.registry)
      || any (λ m. not (ltb (retry_count l e) m)) (limits e)

  -- The envelope sent for `e` is its message, or the answer to it.
  unfoldable pub carries : Purpose → MessageEnvelope → MessageEnvelope → Bool
  unfolding is_same_message retries_on gives_up
  carries response_publication e c = some_and (λ s. s == e.message_id) c.causation_id
  carries retry_requeue e c = is_same_message e c && retries_on e c
  carries dead_letter_publication e c = is_same_message e c && gives_up e
  carries _ e c = is_same_message e c

-- The flags: whether the envelope is right, and whether an acknowledgement is still to come.
abbrev pub after_send : Bool → Bool → Phase → Phase
after_send true true held = copied
after_send true true owed = copied
after_send true false held = closed
after_send true false owed = closed
after_send _ _ _ = broken

abbrev pub after_send_failure : Phase → Phase
after_send_failure held = doubtful
after_send_failure owed = doubtful
after_send_failure _ = broken

-- The flag: whether it is the claim's receipt.
abbrev pub after_ack : Bool → Phase → Phase
after_ack true held = consumed
after_ack true copied = closed
after_ack _ _ = broken

abbrev pub after_ack_failure : Bool → Phase → Phase
after_ack_failure true held = doubtful
after_ack_failure true copied = doubtful
after_ack_failure _ _ = broken

abbrev pub after_handler : HandlerOutcome → Phase → Phase
after_handler raised held = owed
after_handler (continue_processing_on queue delay) held = owed
after_handler (responded r) held = held
after_handler (returned r) held = held
after_handler _ _ = broken

module _ (l : Listener) (e : MessageEnvelope) (receipt : Option String) where
  abbrev pub is_receipt : String → Bool
  is_receipt s = some_and (λ r. r == s) receipt

  unfoldable pub step : Event → Phase → Phase
  unfolding carries
  step (sent purpose queue c) p = after_send (carries l purpose e c) (is_some receipt) p
  step (send_failed purpose queue c) p = after_send_failure p
  step (acked s) p = after_ack (is_receipt s) p
  step (ack_failed s) p = after_ack_failure (is_receipt s) p
  step (handler_ran h o) p = after_handler o p
  step (batch_ran h failed) p = broken
  step (sized queue) p = p
  step (took queue) p = p
  step (observed k o) p = p
  step (observation_raised k o) p = p
  step (slept delay) p = p
  step (sleep_raised delay) p = p

  -- The phase after the events of a log that begins with the claim.
  unfoldable pub phase : Log → Phase
  unfolding step
  phase [] = held
  phase (ev ∷ log) = step ev (phase log)

abbrev pub is_held : Phase → Bool
is_held held = true
is_held _ = false

abbrev pub is_owed : Phase → Bool
is_owed owed = true
is_owed _ = false

abbrev pub is_unsettled : Phase → Bool
is_unsettled p = is_held p || is_owed p

abbrev pub is_closed : Phase → Bool
is_closed closed = true
is_closed _ = false

abbrev pub is_copied : Phase → Bool
is_copied copied = true
is_copied _ = false

abbrev pub is_consumed : Phase → Bool
is_consumed consumed = true
is_consumed _ = false

abbrev pub is_doubtful : Phase → Bool
is_doubtful doubtful = true
is_doubtful _ = false

-- The phases that an exception may leave a claim in.
unfoldable pub may_fail : Listener → MessageEnvelope → ListenerError → Phase → Bool
unfolding handlers_for
may_fail l e indeterminate_delivery p = is_doubtful p || is_unsettled p
may_fail l e worker_aborted p = is_closed p
may_fail l e observation_failed p = is_closed p || is_held p
may_fail l e handler_not_found p =
    is_unsettled p && no_handlers_for (handlers_for (key_of e) l.registry)
may_fail l e _ p = is_unsettled p

-- Those that a return may: with no receipt there is nothing to acknowledge.
unfoldable pub may_return : Option String → Phase → Bool
may_return receipt p = is_closed p || is_consumed p || (is_held p && not (is_some receipt))

unfoldable pub may_end :
    {A : Type 0}
    → Listener
    → MessageEnvelope
    → Option String
    → Result ListenerError A
    → Phase
    → Bool
unfolding may_fail may_return
may_end l e receipt (ok a) p = may_return receipt p
may_end l e receipt (err error) p = may_fail l e error p
