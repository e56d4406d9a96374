-- ===== src/Listener/Safety/Dispatches/Handling.antt =====
-- The phase of a claim while its handlers run: the announcement, the loop over the handlers and the
-- completion of `_dispatch` in src/pybus/listener.py.
use pybus.Durable.Controller.Settlement.{wants_recurrence}
use pybus.Durable.Envelope.{MessageEnvelope}
use pybus.Durable.Types.{CommandDeliveryStatus}
use pybus.Listener.{
  Action, HandlerOutcome, HandlerSpec, Listener, ListenerError, World, continue_processing_on,
  decode_failed, handler_not_found, handler_ran, indeterminate_delivery, max_retries_for,
  observation_failed, raised, responded, retry_count, returned, sleep_failed, slept, terminal_queue,
  transport_failed, unknown_queue, worker_aborted,
}
use pybus.Listener.Dispatching.{
  Looped, add_result, after_start, announce_start, call_handler, go_on, is_command, is_durable,
  notice, ran, run_handler, run_handlers, settle_outcome, settled, should_delay,
}
use pybus.Listener.Dispatching.Claiming.{command_max_retries, is_one, is_watched, start}
use pybus.Listener.Effects.{log_event, restore_and_abort}
use pybus.Listener.Safety.{
  Phase, after_handler, is_closed, is_held, is_owed, is_unsettled, phase, step,
}
use pybus.Listener.Safety.Copies.{continue_processing-Ensures, handle_failed_delivery-Ensures}
use pybus.Listener.Safety.Dispatches.{
  abort-Ensures, give_up-Ensures, held_is_unsettled, held_observation_allowed, on_looped,
  on_outcome,
}
use pybus.Listener.Safety.Limits.{IsLimit}
use pybus.Listener.Safety.Notices.{notify-Ensures, phase-notify}
use pybus.Listener.Safety.Rules.{
  Ensures, bind-Ensures, choose-Ensures, implies_lem, meets, pure-Ensures, weaken-Ensures,
}
use pybus.Listener.Settling.{continue_processing, handle_failed_delivery}
use pybus.Prelude.{
  All, Bool, Bool-cases, List, Option, String, [], ap, false, if◌then◌else◌, inl, inr, none, not,
  refl, some, true, ℕ, ◌&&◌, ◌==◌, ◌||◌, ◌∙◌, ◌∷◌, ◌≡◌,
}
use pybus.Prelude.Exec.{Result, err, ok, pure, ◌>>◌}
use pybus.Registry.{Handler}

-- The phases in which a handler leaves a claim that was held.
abbrev pub on_call : HandlerOutcome → Phase → Bool
on_call raised = is_owed
on_call (continue_processing_on queue delay) = is_owed
on_call (responded r) = is_held
on_call (returned r) = is_held

call_lem :
    (o : HandlerOutcome) (p : Phase) → is_held p ≡ true → on_call o (after_handler o p) ≡ true
call_lem raised = implies_lem is_held (λ p. is_owed (after_handler raised p)) refl
call_lem (continue_processing_on queue delay) =
    implies_lem is_held (λ p. is_owed (after_handler (continue_processing_on queue delay) p)) refl
call_lem (responded r) = implies_lem is_held (λ p. is_held (after_handler (responded r) p)) refl
call_lem (returned r) = implies_lem is_held (λ p. is_held (after_handler (returned r) p)) refl

on_looped-add_result :
    (o : HandlerOutcome) (looped : Looped) (p : Phase)
    → on_looped looped p ≡ true
    → on_looped (add_result o looped) p ≡ true
on_looped-add_result o settled p h = h
on_looped-add_result o (ran os) p h = h

module _ (l : Listener) (channel : String) (e : MessageEnvelope) (receipt : Option String) where
  -- The announcement of the start either is taken, or gives the message back.
  announce_start-Ensures :
      (max_retries : ℕ)
      → Ensures l e receipt is_held (announce_start l channel e receipt max_retries) (λ _. is_held)
  unfolding announce_start
  announce_start-Ensures max_retries w before =
      go (notice l channel e receipt CommandDeliveryStatus.started max_retries true w)
        (notify-Ensures l e receipt is_held (held_observation_allowed l channel e receipt)
          CommandDeliveryStatus.started channel none (retry_count l e) max_retries true w before)
        (ap is_held (
            phase-notify l e receipt CommandDeliveryStatus.started channel none (retry_count l e)
              max_retries true w)
          ∙ before)
    where
      go :
          (x : Result ListenerError (Unit {0}) × World)
          → meets l e (λ (u : Unit {0}). is_held) x.0 (phase l e receipt x.1.log) ≡ true
          → is_held (phase l e receipt x.1.log) ≡ true
          → meets l e
              (λ (u : Unit {0}). is_held)
              (after_start l channel e receipt x).0
              (phase l e receipt (after_start l channel e receipt x).1.log)
            ≡ true
      go (ok u, w') h held_after = held_after
      go (err observation_failed, w') h held_after =
          give_up-Ensures l channel e receipt w' held_after
      go (err indeterminate_delivery, w') h held_after = h
      go (err worker_aborted, w') h held_after = h
      go (err handler_not_found, w') h held_after = h
      go (err decode_failed, w') h held_after = h
      go (err sleep_failed, w') h held_after = h
      go (err unknown_queue, w') h held_after = h
      go (err terminal_queue, w') h held_after = h
      go (err transport_failed, w') h held_after = h

  pub start-Ensures :
      (hs : List Handler)
      → Ensures l e receipt is_held (start l channel e receipt hs) (λ _. is_held)
  unfolding start
  start-Ensures hs =
      choose-Ensures l e receipt is_held (λ _. is_held) (is_watched l e)
        (if is_one hs
          then announce_start l channel e receipt (command_max_retries l hs)
          else restore_and_abort l worker_aborted channel e receipt)
        (pure tt)
        (λ _.
          choose-Ensures l e receipt is_held (λ _. is_held) (is_one hs)
            (announce_start l channel e receipt (command_max_retries l hs))
            (restore_and_abort l worker_aborted channel e receipt)
            (λ _. announce_start-Ensures (command_max_retries l hs))
            (λ _. abort-Ensures l channel e receipt (λ (u : Unit {0}). is_held)))
        (λ _. pure-Ensures l e receipt is_held (λ _. is_held) tt (λ p h. h))

  module _ (named : (e.message_id == "") ≡ false) where
    -- What is left of a claim after its handler has failed.
    pub fail-Ensures :
        {A : Type 0} (P : Phase → Bool) (Q : A → Phase → Bool) (spec : HandlerSpec) (a : A)
        → IsLimit l e (max_retries_for l spec)
        → ((p : Phase) → P p ≡ true → is_unsettled p ≡ true)
        → ((p : Phase) → is_closed p ≡ true → Q a p ≡ true)
        → Ensures l e receipt P (handle_failed_delivery l channel e spec receipt >> pure a) Q
    fail-Ensures P Q spec a limit low high =
        bind-Ensures l e receipt P (λ _. is_closed) Q
          (handle_failed_delivery l channel e spec receipt) (λ _. pure a)
          (weaken-Ensures l e receipt is_unsettled P (λ _. is_closed)
            (handle_failed_delivery l channel e spec receipt) low
            (handle_failed_delivery-Ensures l e receipt named channel spec limit))
          (λ _. pure-Ensures l e receipt is_closed Q a high)

    settle_outcome-Ensures :
        (spec : HandlerSpec) (o : HandlerOutcome)
        → IsLimit l e (max_retries_for l spec)
        → Ensures l e receipt (on_call o) (settle_outcome l channel e receipt spec o) on_outcome
    unfolding settle_outcome
    settle_outcome-Ensures spec raised limit w before =
        fail-Ensures is_owed on_outcome spec none limit (implies_lem is_owed is_unsettled refl)
          (λ p h. h) w before
    settle_outcome-Ensures spec (continue_processing_on queue delay) limit w before =
        let go_on : Action (Unit {0}) =
          continue_processing l channel e queue delay (max_retries_for l spec) receipt in
        bind-Ensures l e receipt is_owed (λ _. is_closed) on_outcome go_on (λ _. pure none)
          (weaken-Ensures l e receipt is_unsettled is_owed (λ _. is_closed) go_on
            (implies_lem is_owed is_unsettled refl)
            (continue_processing-Ensures l e receipt channel queue delay (max_retries_for l spec)))
          (λ _. pure-Ensures l e receipt is_closed on_outcome none (λ p h. h)) w before
    settle_outcome-Ensures spec (responded r) limit w before =
        pure-Ensures l e receipt is_held on_outcome (some (responded r)) (λ p h. h) w before
    settle_outcome-Ensures spec (returned r) limit w before =
        elim (Bool-cases (wants_recurrence r && (not (is_command e) || not (is_durable e)))) [
          | inl misused ↦ rw (
            settle_outcome,
            misused,
            fail-Ensures is_held on_outcome spec none limit held_is_unsettled (λ p h. h) w before,
          )
          | inr used ↦ rw (settle_outcome, used, before)
        ]

    run_handler-Ensures :
        (h : Handler)
        → IsLimit l e (max_retries_for l (l.spec_for h))
        → Ensures l e receipt is_held (run_handler l channel e receipt h) on_outcome
    unfolding run_handler call_handler phase step
    run_handler-Ensures h limit w before =
        go
          (if should_delay l channel e receipt (l.spec_for h) w
            then log_event (slept (l.spec_for h).delay) w
            else w)
          (wait-keeps (should_delay l channel e receipt (l.spec_for h) w))
      where
        wait-keeps :
            (b : Bool)
            → is_held
                (phase l e receipt (if b then log_event (slept (l.spec_for h).delay) w else w).log)
              ≡ true
        wait-keeps true = before
        wait-keeps false = before

        go :
            (w' : World)
            → is_held (phase l e receipt w'.log) ≡ true
            → meets l e on_outcome
                (settle_outcome l channel e receipt
                  (l.spec_for h)
                  (call_handler l channel e receipt h w').0
                  (call_handler l channel e receipt h w').1).0
                (phase l e receipt
                  (settle_outcome l channel e receipt
                    (l.spec_for h)
                    (call_handler l channel e receipt h w').0
                    (call_handler l channel e receipt h w').1).1.log)
              ≡ true
        go w' held_before =
            settle_outcome-Ensures (l.spec_for h) (l.handle w'.log h e) limit
              (log_event (handler_ran h (l.handle w'.log h e)) w')
              (call_lem (l.handle w'.log h e) (phase l e receipt w'.log) held_before)

    go_on-Ensures :
        (rest : Action Looped) (o : Option HandlerOutcome)
        → Ensures l e receipt is_held rest on_looped
        → Ensures l e receipt (on_outcome o) (go_on l channel e receipt rest o) on_looped
    go_on-Ensures rest none keeps = pure-Ensures l e receipt is_closed on_looped settled (λ p h. h)
    go_on-Ensures rest (some o) keeps =
        bind-Ensures l e receipt is_held on_looped on_looped rest
          (λ looped. pure (add_result o looped)) keeps
          (λ looped.
            pure-Ensures l e receipt (on_looped looped) on_looped (add_result o looped)
              (on_looped-add_result o looped))

    pub run_handlers-Ensures :
        (hs : List Handler)
        → All (λ h. IsLimit l e (max_retries_for l (l.spec_for h))) hs
        → Ensures l e receipt is_held (run_handlers l channel e receipt hs) on_looped
    unfolding run_handlers
    run_handlers-Ensures [] limited = pure-Ensures l e receipt is_held on_looped (ran []) (λ p h. h)
    run_handlers-Ensures (h ∷ hs) limited =
        let rest : Action Looped = run_handlers l channel e receipt hs in
        let keeps : Ensures l e receipt is_held rest on_looped =
          run_handlers-Ensures hs limited.1 in
        bind-Ensures l e receipt is_held on_outcome on_looped (run_handler l channel e receipt h)
          (go_on l channel e receipt rest) (run_handler-Ensures h limited.0)
          (λ o. go_on-Ensures rest o keeps)
