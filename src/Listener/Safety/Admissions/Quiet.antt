-- ===== src/Listener/Safety/Admissions/Quiet.antt =====
-- A durable copy that is not admitted reaches no handler: src/pybus/listener.py.
use mathlib.Core.Path.{subst}
use pybus.Durable.Controller.{admit_envelope, identity}
use pybus.Durable.Envelope.{MessageEnvelope}
use pybus.Durable.Types.{Db, proceed}
use pybus.Listener.{
  HandlerOutcome, Listener, ListenerError, World, decode_failed, handler_not_found,
  indeterminate_delivery, key_of, observation_failed, retry_count, sleep_failed, terminal_queue,
  transport_failed, unknown_queue, worker_aborted,
}
use pybus.Listener.Dispatching.{
  admit_durable_delivery, admit_with, is_command, is_durable, verify_durable_configuration,
}
use pybus.Listener.Dispatching.Claiming.{
  admit_claimed, command_max_retries, conclude, concluding, deliver_envelope, dispatch,
  dispatch_admitted, is_many, recover,
}
use pybus.Listener.Effects.{ack_claim, catching, restore_and_abort}
use pybus.Listener.Safety.Admissions.{
  Refuses, Stops, Stops-bind, admit_envelope-known, by_decision-Refuses, restore-Stops, runs,
}
use pybus.Prelude.{
  Bool, Bool-cases, List, Option, Option-cases, String, ap, false, inl, inr, none, refl, some, sym,
  true, ℕ, ◌≡◌, ◌≢◌, ◌⊎◌,
}
use pybus.Prelude.Exec.{Result, continue, err, ok, pure, ◌>>◌}
use pybus.Registry.{Handler, handlers_for}

-- Whatever the clocks read, no copy of this message is told to proceed.
abbrev pub NeverProceeds : Listener → String → MessageEnvelope → Db → Type 0
NeverProceeds l channel e db =
    (now later delay m : ℕ)
    → (admit_envelope l.lib now later delay e channel (retry_count l e) m db).0 ≢ ok (some proceed)

module _ (l : Listener) (channel : String) (e : MessageEnvelope) (receipt : Option String)
    (known : String × ℕ) (names : identity e ≡ ok (some known)) (w : World)
    (shut : NeverProceeds l channel e w.db) where
  admit_with-Refuses :
      (m delay : ℕ) → Refuses l channel e w.log (admit_with l channel e receipt m (some delay) w)
  unfolding admit_with catching
  admit_with-Refuses m delay =
      by_decision-Refuses l channel e receipt w
        (admit_envelope l.lib (l.now w.log) (l.store_now w.log) delay e channel (retry_count l e) m
          w.db)
        (record {
          unwelcome = shut (l.now w.log) (l.store_now w.log) delay m;
          known =
              admit_envelope-known l.lib (l.now w.log) (l.store_now w.log) delay e channel
                (retry_count l e) m w.db known names;
        })

  admit_claimed-Refuses :
      (hs : List Handler) (delay : ℕ)
      → l.controller ≡ some delay
      → is_command e ≡ true
      → Refuses l channel e w.log (admit_claimed l channel e receipt hs w)
  unfolding admit_claimed admit_durable_delivery is_durable
  admit_claimed-Refuses hs delay controlled command = elim (Bool-cases (is_many hs)) [
    | inl many ↦
        rw (admit_claimed, command, is_durable, names, many)
          (inl (restore-Stops l channel e Bool receipt w))
    | inr few ↦
        rw (admit_claimed, command, is_durable, names, few, admit_durable_delivery, controlled)
          (admit_with-Refuses (command_max_retries l hs) delay)
  ]

  -- No handler has run, however the delivery ends.
  abbrev Quiet : {A : Type 0} → Result ListenerError A × World → Type 0
  Quiet x = runs x.1.log ≡ runs w.log

  refused_ack-Quiet :
      (receipt' : Option String) (w' : World)
      → w'.log ≡ w.log
      → Quiet ((ack_claim l receipt' >> pure {A = Option (List HandlerOutcome)} none) w')
  unfolding ack_claim runs
  refused_ack-Quiet none w' same = ap runs same
  refused_ack-Quiet (some s) w' same = elim (Bool-cases (l.ack_raises w'.log s)) [
    | inl fails ↦ rw (ack_claim, fails) (ap runs same)
    | inr acks ↦ rw (ack_claim, acks) (ap runs same)
  ]

  concluding-Quiet :
      (hs : List Handler) (x : Result ListenerError Bool × World)
      → Refuses l channel e w.log x
      → Quiet (
          concluding l channel e receipt
            (continue x.0 (dispatch_admitted l channel e receipt hs) x.1))
  unfolding dispatch_admitted conclude recover
  concluding-Quiet hs x (inr (w', same, log)) =
      subst
        (λ (y : Result ListenerError Bool × World). Quiet (
          concluding l channel e receipt
            (continue y.0 (dispatch_admitted l channel e receipt hs) y.1)))
        (sym same) (refused_ack-Quiet receipt w' log)
  concluding-Quiet hs (ok b, w') (inl s) = elim s.abort [ inl e ↦ cc | inr e ↦ cc ]
  concluding-Quiet hs (err error, w') (inl s) = stopped error s.silent s.abort
    where
      stopped :
          (error' : ListenerError)
          → runs w'.log ≡ runs w.log
          → (◌≡◌ {A = Result ListenerError Bool} (err error') (err worker_aborted))
            ⊎ (◌≡◌ {A = Result ListenerError Bool} (err error') (err indeterminate_delivery))
          → Quiet (recover l channel e receipt error' w')
      stopped worker_aborted silent h = silent
      stopped indeterminate_delivery silent h = silent
      stopped observation_failed silent h = silent
      stopped handler_not_found silent h = elim h [ inl e ↦ cc | inr e ↦ cc ]
      stopped decode_failed silent h = elim h [ inl e ↦ cc | inr e ↦ cc ]
      stopped sleep_failed silent h = elim h [ inl e ↦ cc | inr e ↦ cc ]
      stopped unknown_queue silent h = elim h [ inl e ↦ cc | inr e ↦ cc ]
      stopped terminal_queue silent h = elim h [ inl e ↦ cc | inr e ↦ cc ]
      stopped transport_failed silent h = elim h [ inl e ↦ cc | inr e ↦ cc ]

  verified :
      (delay : ℕ)
      → l.controller ≡ some delay
      → is_command e ≡ true
      → verify_durable_configuration l channel e receipt w ≡ (ok tt, w)
  unfolding verify_durable_configuration
  verified delay controlled command =
      rw (verify_durable_configuration, names, controlled, command) refl

  uncontrolled-Stops :
      l.controller ≡ none → Stops w.log (verify_durable_configuration l channel e receipt w)
  unfolding verify_durable_configuration
  uncontrolled-Stops without =
      let stops = restore-Stops l channel e (Unit {0}) receipt w in
      let same : verify_durable_configuration l channel e receipt w
          ≡ restore_and_abort l worker_aborted channel e receipt w =
        rw (verify_durable_configuration, names, without) refl in
      subst (λ (x : Result ListenerError (Unit {0}) × World). Stops w.log x) (sym same) stops

  not_command-Stops :
      (delay : ℕ)
      → l.controller ≡ some delay
      → is_command e ≡ false
      → Stops w.log (verify_durable_configuration l channel e receipt w)
  unfolding verify_durable_configuration
  not_command-Stops delay controlled event =
      let stops = restore-Stops l channel e (Unit {0}) receipt w in
      let same : verify_durable_configuration l channel e receipt w
          ≡ restore_and_abort l worker_aborted channel e receipt w =
        rw (verify_durable_configuration, names, controlled, event) refl in
      subst (λ (x : Result ListenerError (Unit {0}) × World). Stops w.log x) (sym same) stops

  -- A durable copy that is not told to proceed reaches no handler.
  pub unadmitted-Quiet : Quiet (deliver_envelope l channel e receipt w)
  unfolding deliver_envelope dispatch
  unadmitted-Quiet = elim (Option-cases l.controller) [
    | inl without ↦
        (Stops-bind w.log (verify_durable_configuration l channel e receipt w)
          (λ _ w'. concluding l channel e receipt (dispatch l channel e receipt w'))
          (uncontrolled-Stops without)).silent
    | inr (delay, controlled) ↦ elim (Bool-cases (is_command e)) [
      | inr event ↦
          (Stops-bind w.log (verify_durable_configuration l channel e receipt w)
            (λ _ w'. concluding l channel e receipt (dispatch l channel e receipt w'))
            (not_command-Stops delay controlled event)).silent
      | inl command ↦
          let hs = handlers_for (key_of e) l.registry in
          let quiet : Quiet (concluding l channel e receipt (dispatch l channel e receipt w)) =
            concluding-Quiet hs (admit_claimed l channel e receipt hs w)
              (admit_claimed-Refuses hs delay controlled command) in
          subst
            (λ (x : Result ListenerError (Unit {0}) × World). Quiet (
              continue x.0
                (λ _ w'. concluding l channel e receipt (dispatch l channel e receipt w')) x.1))
            (sym (verified delay controlled command)) quiet
    ]
  ]
