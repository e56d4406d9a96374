-- ===== src/Listener/Histories/Deliveries.antt =====
-- A delivery, and the loop of a worker, src/pybus/listener.py, as calls of the store.
pub mod Listening
use pybus.Durable.Controller.{admit_envelope, identity}
use pybus.Durable.Controller.Settlement.{release_envelope, wants_recurrence}
use pybus.Durable.Envelope.{MessageEnvelope}
use pybus.Durable.Types.{CommandDeliveryStatus, DurableDeliveryDecision}
use pybus.Listener.{
  Action, HandlerOutcome, HandlerSpec, Listener, ListenerError, World, continue_processing_on,
  decode_failed, handler_not_found, handler_ran, indeterminate_delivery, max_retries_for,
  observation_failed, raised, responded, retry_count, returned, sleep_failed, slept, terminal_queue,
  transport_failed, unknown_queue, worker_aborted,
}
use pybus.Listener.Dispatching.{
  Looped, add_result, admit_durable_delivery, admit_with, after_start, announce_start, by_decision,
  call_handler, give_up_start, go_on, is_command, is_durable, notice, ran, release_with,
  run_handler, run_handlers, settle_outcome, settled, should_delay, verify_durable_configuration,
}
use pybus.Listener.Dispatching.Claiming.{
  admit_claimed, command_max_retries, is_many, is_one, is_watched, start,
}
use pybus.Listener.Effects.{log_event, restore_and_abort}
use pybus.Listener.Histories.{
  Work, Works, bind-Works, catching-Works, choose-Works, compose, pure-Works, raise-Works, stay,
}
use pybus.Listener.Histories.Controlling.{admit_envelope-Work, release_envelope-Work}
use pybus.Listener.Histories.Effects.{notify-Works, restore-Works}
use pybus.Listener.Histories.Settling.{continue_processing-Works, handle_failed_delivery-Works}
use pybus.Listener.Settling.{continue_processing, handle_failed_delivery}
use pybus.Prelude.{
  Bool, Bool-cases, List, Option, String, [], false, if◌then◌else◌, inl, inr, is_some, none, not,
  some, true, ℕ, ◌&&◌, ◌||◌, ◌∷◌,
}
use pybus.Prelude.Exec.{Result, Result-cases, err, ok, pure, raise, ◌>>◌}
use pybus.Registry.{Handler}

module _ (l : Listener) (channel : String) (e : MessageEnvelope) (receipt : Option String) where
  give_back-Works :
      (A : Type 0) (error : ListenerError)
      → Works l (restore_and_abort l {A = A} error channel e receipt)
  give_back-Works A error = restore-Works l A error channel e receipt

  pub verify-Works : Works l (verify_durable_configuration l channel e receipt)
  unfolding verify_durable_configuration
  verify-Works w = elim (Result-cases (identity e)) [
    | inl (error, bad) ↦
        rw (verify_durable_configuration, bad) (give_back-Works (Unit {0}) worker_aborted w)
    | inr (none, without) ↦ rw (verify_durable_configuration, without) (stay l w.db)
    | inr (some known, durable) ↦
        rw (verify_durable_configuration, durable)
          (choose-Works l (not (is_some l.controller))
            (restore_and_abort l worker_aborted channel e receipt)
            (if not (is_command e)
              then restore_and_abort l worker_aborted channel e receipt
              else pure tt)
            (give_back-Works (Unit {0}) worker_aborted)
            (choose-Works l (not (is_command e))
              (restore_and_abort l worker_aborted channel e receipt) (pure tt)
              (give_back-Works (Unit {0}) worker_aborted) (pure-Works l tt))
            w)
  ]

  by_decision-Works :
      (d : Option DurableDeliveryDecision) → Works l (by_decision l channel e receipt d)
  by_decision-Works none w = stay l w.db
  by_decision-Works (some DurableDeliveryDecision.proceed) w = stay l w.db
  by_decision-Works (some DurableDeliveryDecision.drop) w = stay l w.db
  by_decision-Works (some DurableDeliveryDecision.abort) w = give_back-Works Bool worker_aborted w

  admit_with-Works :
      (max_retries : ℕ) (controller : Option ℕ)
      → Works l (admit_with l channel e receipt max_retries controller)
  unfolding admit_with
  admit_with-Works max_retries none w = stay l w.db
  admit_with-Works max_retries (some delay) w =
      catching-Works l
        (admit_envelope l.lib (l.now w.log) (l.store_now w.log) delay e channel (retry_count l e)
          max_retries)
        (λ _. restore_and_abort l worker_aborted channel e receipt)
        (by_decision l channel e receipt)
        (admit_envelope-Work l (l.now w.log) (l.store_now w.log) delay e channel (retry_count l e)
          max_retries)
        (λ _. give_back-Works Bool worker_aborted) by_decision-Works w

  pub admit-Works : (hs : List Handler) → Works l (admit_claimed l channel e receipt hs)
  unfolding admit_claimed admit_durable_delivery
  admit-Works hs =
      choose-Works l (not (is_command e && is_durable e)) (pure true)
        (if is_many hs
          then restore_and_abort l worker_aborted channel e receipt
          else admit_durable_delivery l channel e receipt (command_max_retries l hs))
        (pure-Works l true)
        (choose-Works l (is_many hs) (restore_and_abort l worker_aborted channel e receipt)
          (admit_durable_delivery l channel e receipt (command_max_retries l hs))
          (give_back-Works Bool worker_aborted)
          (admit_with-Works (command_max_retries l hs) l.controller))

  release_with-Works :
      (controller : Option ℕ) → Works l (release_with l channel e receipt controller)
  unfolding release_with
  release_with-Works none w = stay l w.db
  release_with-Works (some delay) w =
      catching-Works l (release_envelope l.lib (l.now w.log) (l.store_now w.log) delay e)
        (λ _. raise indeterminate_delivery) pure
        (release_envelope-Work l (l.now w.log) (l.store_now w.log) delay e)
        (λ _. raise-Works l (Unit {0}) indeterminate_delivery) (λ u. pure-Works l u) w

  give_up-Works : Works l (give_up_start l channel e receipt {A = Unit {0}})
  unfolding give_up_start
  give_up-Works =
      let controller : Option ℕ = if is_durable e then l.controller else none in
      bind-Works l (release_with l channel e receipt controller)
        (λ _. restore_and_abort l observation_failed channel e receipt)
        (release_with-Works controller) (λ _. give_back-Works (Unit {0}) observation_failed)

  announce_start-Works :
      (max_retries : ℕ) → Works l (announce_start l channel e receipt max_retries)
  unfolding announce_start
  announce_start-Works max_retries w =
      go (notice l channel e receipt CommandDeliveryStatus.started max_retries true w) (
        notify-Works l e CommandDeliveryStatus.started channel none (retry_count l e) max_retries
          true w)
    where
      go :
          (x : Result ListenerError (Unit {0}) × World)
          → Work l w.db x.1.db
          → Work l w.db (after_start l channel e receipt x).1.db
      go (ok u, w') h = h
      go (err observation_failed, w') h =
          compose l w.db w'.db (give_up_start l channel e receipt {A = Unit {0}} w').1.db h
            (give_up-Works w')
      go (err indeterminate_delivery, w') h = h
      go (err worker_aborted, w') h = h
      go (err handler_not_found, w') h = h
      go (err decode_failed, w') h = h
      go (err sleep_failed, w') h = h
      go (err unknown_queue, w') h = h
      go (err terminal_queue, w') h = h
      go (err transport_failed, w') h = h

  pub start-Works : (hs : List Handler) → Works l (start l channel e receipt hs)
  unfolding start
  start-Works hs =
      choose-Works l (is_watched l e)
        (if is_one hs
          then announce_start l channel e receipt (command_max_retries l hs)
          else restore_and_abort l worker_aborted channel e receipt)
        (pure tt)
        (choose-Works l (is_one hs) (announce_start l channel e receipt (command_max_retries l hs))
          (restore_and_abort l worker_aborted channel e receipt)
          (announce_start-Works (command_max_retries l hs))
          (give_back-Works (Unit {0}) worker_aborted))
        (pure-Works l tt)

  pub fail-Works :
      {A : Type 0} (spec : HandlerSpec) (a : A)
      → Works l (handle_failed_delivery l channel e spec receipt >> pure a)
  fail-Works spec a =
      bind-Works l (handle_failed_delivery l channel e spec receipt) (λ _. pure a)
        (handle_failed_delivery-Works l e channel spec receipt) (λ _. pure-Works l a)

  settle_outcome-Works :
      (spec : HandlerSpec) (o : HandlerOutcome)
      → Works l (settle_outcome l channel e receipt spec o)
  unfolding settle_outcome
  settle_outcome-Works spec raised w = fail-Works {A = Option HandlerOutcome} spec none w
  settle_outcome-Works spec (continue_processing_on queue delay) w =
      bind-Works l (continue_processing l channel e queue delay (max_retries_for l spec) receipt)
        (λ _. pure none)
        (continue_processing-Works l e channel queue delay (max_retries_for l spec) receipt)
        (λ _. pure-Works l {A = Option HandlerOutcome} none) w
  settle_outcome-Works spec (responded r) w = stay l w.db
  settle_outcome-Works spec (returned r) w =
      elim (Bool-cases (wants_recurrence r && (not (is_command e) || not (is_durable e)))) [
        | inl misused ↦
            rw (settle_outcome, misused) (fail-Works {A = Option HandlerOutcome} spec none w)
        | inr used ↦ rw (settle_outcome, used) (stay l w.db)
      ]

  run_handler-Works : (h : Handler) → Works l (run_handler l channel e receipt h)
  unfolding run_handler call_handler
  run_handler-Works h w = go (should_delay l channel e receipt (l.spec_for h) w)
    where
      go :
          (b : Bool)
          → Work l w.db
              (settle_outcome l channel e receipt
                (l.spec_for h)
                (call_handler l channel e receipt h
                  (if b then log_event (slept (l.spec_for h).delay) w else w)).0
                (call_handler l channel e receipt h
                  (if b then log_event (slept (l.spec_for h).delay) w else w)).1).1.db
      go true =
          let w' : World = log_event (slept (l.spec_for h).delay) w in
          settle_outcome-Works (l.spec_for h) (l.handle w'.log h e)
            (log_event (handler_ran h (l.handle w'.log h e)) w')
      go false =
          settle_outcome-Works (l.spec_for h) (l.handle w.log h e)
            (log_event (handler_ran h (l.handle w.log h e)) w)

  go_on-Works :
      (rest : Action Looped) (o : Option HandlerOutcome)
      → Works l rest
      → Works l (go_on l channel e receipt rest o)
  go_on-Works rest none keeps = pure-Works l settled
  go_on-Works rest (some o) keeps =
      bind-Works l rest (λ looped. pure (add_result o looped)) keeps
        (λ looped. pure-Works l (add_result o looped))

  pub run_handlers-Works : (hs : List Handler) → Works l (run_handlers l channel e receipt hs)
  unfolding run_handlers
  run_handlers-Works [] = pure-Works l (ran [])
  run_handlers-Works (h ∷ hs) =
      let rest : Action Looped = run_handlers l channel e receipt hs in
      let keeps : Works l rest = run_handlers-Works hs in
      bind-Works l (run_handler l channel e receipt h) (go_on l channel e receipt rest)
        (run_handler-Works h) (λ o. go_on-Works rest o keeps)
