-- ===== src/Listener/Dispatching.antt =====
-- From the claim of a message to its settlement: `listen_once`, `_dispatch` and what they call, in
-- src/pybus/listener.py.
pub mod Claiming
use pybus.Codec.{null}
use pybus.Durable.Controller.{admit_envelope, identity, instant}
use pybus.Durable.Controller.Settlement.{release_envelope, wants_recurrence}
use pybus.Durable.Envelope.{MessageEnvelope}
use pybus.Durable.Series.{HandlerResult}
use pybus.Durable.Types.{CommandDeliveryStatus, DurableDeliveryDecision}
use pybus.Listener.{
  Action, HandlerOutcome, HandlerSpec, Listener, ListenerError, World, continue_processing_on,
  handler_ran, indeterminate_delivery, is_typed, max_retries_for, observation_failed, raised,
  responded, retry_count, returned, slept, worker_aborted,
}
use pybus.Listener.Effects.{catching, log_event, notify_command_outcome, restore_and_abort}
use pybus.Listener.Settling.{continue_processing, handle_failed_delivery}
use pybus.Prelude.{
  Bool, List, Option, String, [], eqb, false, if◌then◌else◌, is_some, ltb, none, not, some,
  some_and, true, ℕ, ◌&&◌, ◌+◌, ◌==◌, ◌||◌, ◌∷◌,
}
use pybus.Prelude.Exec.{Result, err, ok, pure, raise, ◌>>=◌, ◌>>◌}
use pybus.Registry.{Handler}
use pybus.Retries.{resolve_last_attempt}

-- What `_dispatch` returns: the admission was refused, the claim is settled, or the handlers' results.
pub data Dispatched : Type 0 where
  refused claim_settled : Dispatched
  finished : List HandlerOutcome → Dispatched

-- `identity(envelope) is not None`
unfoldable pub is_durable : MessageEnvelope → Bool
unfolding identity
is_durable e = elim (identity e) [ err error ↦ false | ok known ↦ is_some known ]

abbrev pub is_command : MessageEnvelope → Bool
is_command e = e.message_kind == "command"

-- What the durable controller is told of the first result.
abbrev pub completion : List HandlerOutcome → HandlerResult
completion (returned r ∷ rest) = r
completion _ = HandlerResult.other

-- What the loop over the handlers comes to.
pub data Looped : Type 0 where
  settled : Looped
  ran : List HandlerOutcome → Looped

abbrev pub add_result : HandlerOutcome → Looped → Looped
add_result o settled = settled
add_result o (ran os) = ran (o ∷ os)

module _ (l : Listener) (channel : String) (e : MessageEnvelope) (receipt : Option String) where
  abbrev pub restore : {A : Type 0} → ListenerError → Action A
  restore error = restore_and_abort l error channel e receipt

  -- `_verify_durable_configuration`
  unfoldable pub verify_durable_configuration : Action (Unit {0})
  unfolding identity restore_and_abort
  verify_durable_configuration = elim (identity e) [
    | err error ↦ restore worker_aborted
    | ok none ↦ pure tt
    | ok (some known) ↦
        if not (is_some l.controller)
        then restore worker_aborted
        else if not (is_command e)
        then restore worker_aborted
        else pure tt
  ]

  abbrev pub by_decision : Option DurableDeliveryDecision → Action Bool
  by_decision none = pure true
  by_decision (some DurableDeliveryDecision.proceed) = pure true
  by_decision (some DurableDeliveryDecision.drop) = pure false
  by_decision (some DurableDeliveryDecision.abort) = restore worker_aborted

  -- The admission by a controller of this delay, if there is one.
  unfoldable pub admit_with : ℕ → Option ℕ → Action Bool
  unfolding catching admit_envelope restore_and_abort retry_count
  admit_with max_retries none w = (ok true, w)
  admit_with max_retries (some delay) w =
      catching
        (admit_envelope l.lib (l.now w.log) (l.store_now w.log) delay e channel (retry_count l e)
          max_retries)
        (λ _. restore worker_aborted) by_decision w

  -- `_admit_durable_delivery`
  unfoldable pub admit_durable_delivery : ℕ → Action Bool
  unfolding admit_with
  admit_durable_delivery max_retries = admit_with max_retries l.controller

  -- `_should_delay`: the message's last attempt is less than the handler's delay ago.
  unfoldable pub should_delay : HandlerSpec → World → Bool
  unfolding resolve_last_attempt is_typed
  should_delay spec w =
      not (eqb spec.delay 0)
      && some_and (λ last. ltb (l.now w.log) (last + spec.delay))
          (elim (resolve_last_attempt l.lib (if is_typed l e then null else e.payload) e.headers) [
            | none ↦ none
            | some d ↦ instant d
          ])

  abbrev pub notice : CommandDeliveryStatus → ℕ → Bool → Action (Unit {0})
  notice status max_retries apply_durable =
      notify_command_outcome l e status channel none (retry_count l e) max_retries apply_durable

  -- The release of a durable admission, if a controller of this delay has given it.
  unfoldable pub release_with : Option ℕ → Action (Unit {0})
  unfolding catching release_envelope
  release_with none w = (ok tt, w)
  release_with (some delay) w =
      catching (release_envelope l.lib (l.now w.log) (l.store_now w.log) delay e)
        (λ _. raise indeterminate_delivery) pure w

  -- After `STARTED` was not taken: the admission is released, then the message goes back.
  unfoldable pub give_up_start : {A : Type 0} → Action A
  unfolding release_with restore_and_abort is_durable
  give_up_start =
      release_with (if is_durable e then l.controller else none) >> restore observation_failed

  abbrev pub after_start :
      Result ListenerError (Unit {0}) × World → Result ListenerError (Unit {0}) × World
  after_start (ok u, w) = (ok tt, w)
  after_start (err observation_failed, w) = give_up_start w
  after_start (err error, w) = (err error, w)

  unfoldable pub announce_start : ℕ → Action (Unit {0})
  unfolding notify_command_outcome give_up_start retry_count
  announce_start max_retries w =
      after_start (notice CommandDeliveryStatus.started max_retries true w)

  -- One handler: its result, or `none` when the claim is settled.
  unfoldable pub settle_outcome : HandlerSpec → HandlerOutcome → Action (Option HandlerOutcome)
  unfolding handle_failed_delivery continue_processing
  settle_outcome spec raised = handle_failed_delivery l channel e spec receipt >> pure none
  settle_outcome spec (continue_processing_on queue delay) =
      continue_processing l channel e queue delay (max_retries_for l spec) receipt >> pure none
  settle_outcome spec (responded r) = pure (some (responded r))
  settle_outcome spec (returned r) =
      if wants_recurrence r && (not (is_command e) || not (is_durable e))
      then handle_failed_delivery l channel e spec receipt >> pure none
      else pure (some (returned r))

  unfoldable pub call_handler : Handler → World → HandlerOutcome × World
  call_handler h w = let o = l.handle w.log h e in (o, log_event (handler_ran h o) w)

  unfoldable pub run_handler : Handler → Action (Option HandlerOutcome)
  unfolding should_delay call_handler settle_outcome
  run_handler h w =
      let spec = l.spec_for h in
      let called =
        call_handler h (if should_delay spec w then log_event (slept spec.delay) w else w) in
      settle_outcome spec called.0 called.1

  abbrev pub go_on : Action Looped → Option HandlerOutcome → Action Looped
  go_on rest none = pure settled
  go_on rest (some o) = rest >>= λ looped. pure (add_result o looped)

  -- The loop over the handlers.
  unfoldable pub run_handlers : List Handler → Action Looped
  unfolding run_handler
  run_handlers [] = pure (ran [])
  run_handlers (h ∷ hs) = run_handler h >>= go_on (run_handlers hs)
