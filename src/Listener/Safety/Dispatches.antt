-- ===== src/Listener/Safety/Dispatches.antt =====
-- The phase of a claim through `_dispatch` of src/pybus/listener.py.
pub mod Handling
pub mod Completion
pub mod Delivery
use pybus.Durable.Controller.{admit_envelope, identity}
use pybus.Durable.Controller.Settlement.{release_envelope}
use pybus.Durable.Envelope.{MessageEnvelope}
use pybus.Durable.Types.{DurableDeliveryDecision}
use pybus.Listener.{
  HandlerOutcome, Listener, ListenerError, indeterminate_delivery, observation_failed, retry_count,
  worker_aborted,
}
use pybus.Listener.Dispatching.{
  Dispatched, Looped, admit_durable_delivery, admit_with, by_decision, claim_settled, finished,
  give_up_start, is_command, is_durable, ran, refused, release_with, settled,
  verify_durable_configuration,
}
use pybus.Listener.Dispatching.Claiming.{admit_claimed, command_max_retries, is_many}
use pybus.Listener.Effects.{restore_and_abort}
use pybus.Listener.Safety.{Phase, is_closed, is_held, is_unsettled, may_fail}
use pybus.Listener.Safety.Rules.{
  Ensures, bind-Ensures, catching-Ensures, choose-Ensures, implies_lem, pure-Ensures, raise-Ensures,
  weaken-Ensures,
}
use pybus.Listener.Safety.Settlements.{restore-Ensures}
use pybus.Prelude.{
  Bool, List, Option, String, if◌then◌else◌, inl, inr, is_some, none, not, refl, some, true, ℕ,
  ◌&&◌, ◌≡◌,
}
use pybus.Prelude.Exec.{Result-cases, pure, raise}
use pybus.Registry.{Handler}

abbrev pub on_outcome : Option HandlerOutcome → Phase → Bool
on_outcome none = is_closed
on_outcome (some o) = is_held

abbrev pub on_looped : Looped → Phase → Bool
on_looped settled = is_closed
on_looped (ran os) = is_held

abbrev pub on_dispatched : Dispatched → Phase → Bool
on_dispatched claim_settled = is_closed
on_dispatched refused = is_held
on_dispatched (finished os) = is_held

pub held_is_unsettled : (p : Phase) → is_held p ≡ true → is_unsettled p ≡ true
held_is_unsettled = implies_lem is_held is_unsettled refl

module _ (l : Listener) (channel : String) (e : MessageEnvelope) (receipt : Option String) where
  give_back-Ensures :
      {A : Type 0} (error : ListenerError) (Q : A → Phase → Bool)
      → ((p : Phase) → is_closed p ≡ true → may_fail l e error p ≡ true)
      → Ensures l e receipt is_held (restore_and_abort l error channel e receipt) Q
  give_back-Ensures error Q allowed =
      weaken-Ensures l e receipt is_unsettled is_held Q
        (restore_and_abort l error channel e receipt) held_is_unsettled
        (restore-Ensures l e error channel receipt Q allowed)

  pub abort-Ensures :
      {A : Type 0} (Q : A → Phase → Bool)
      → Ensures l e receipt is_held (restore_and_abort l worker_aborted channel e receipt) Q
  abort-Ensures Q =
      give_back-Ensures worker_aborted Q
        (implies_lem is_closed (may_fail l e worker_aborted) (unfold may_fail in refl))

  -- `_verify_durable_configuration`
  pub verify-Ensures :
      Ensures l e receipt is_held (verify_durable_configuration l channel e receipt) (λ _. is_held)
  unfolding verify_durable_configuration
  verify-Ensures w before = elim (Result-cases (identity e)) [
    | inl (error, bad) ↦
        rw (verify_durable_configuration, bad, abort-Ensures (λ (u : Unit {0}). is_held) w before)
    | inr (none, without) ↦ rw (verify_durable_configuration, without, before)
    | inr (some known, durable) ↦ rw (
      verify_durable_configuration,
      durable,
      choose-Ensures l e receipt is_held (λ _. is_held) (not (is_some l.controller))
          (restore_and_abort l worker_aborted channel e receipt)
          (if not (is_command e)
            then restore_and_abort l worker_aborted channel e receipt
            else pure tt)
          (λ _. abort-Ensures (λ (u : Unit {0}). is_held))
          (λ _.
            choose-Ensures l e receipt is_held (λ _. is_held) (not (is_command e))
              (restore_and_abort l worker_aborted channel e receipt) (pure tt)
              (λ _. abort-Ensures (λ (u : Unit {0}). is_held))
              (λ _. pure-Ensures l e receipt is_held (λ _. is_held) tt (λ p h. h)))
          w before,
    )
  ]

  by_decision-Ensures :
      (d : Option DurableDeliveryDecision)
      → Ensures l e receipt is_held (by_decision l channel e receipt d) (λ _. is_held)
  by_decision-Ensures none w before = before
  by_decision-Ensures (some DurableDeliveryDecision.proceed) w before = before
  by_decision-Ensures (some DurableDeliveryDecision.drop) w before = before
  by_decision-Ensures (some DurableDeliveryDecision.abort) w before =
      abort-Ensures (λ (b : Bool). is_held) w before

  admit_with-Ensures :
      (max_retries : ℕ) (controller : Option ℕ)
      → Ensures l e receipt is_held
          (admit_with l channel e receipt max_retries controller)
          (λ _. is_held)
  unfolding admit_with
  admit_with-Ensures max_retries none w before = before
  admit_with-Ensures max_retries (some delay) w before =
      catching-Ensures l e receipt is_held (λ _. is_held)
        (admit_envelope l.lib (l.now w.log) (l.store_now w.log) delay e channel (retry_count l e)
          max_retries)
        (λ _. restore_and_abort l worker_aborted channel e receipt)
        (by_decision l channel e receipt) (λ _. abort-Ensures (λ (b : Bool). is_held))
        by_decision-Ensures w before

  admit_durable-Ensures :
      (max_retries : ℕ)
      → Ensures l e receipt is_held
          (admit_durable_delivery l channel e receipt max_retries)
          (λ _. is_held)
  unfolding admit_durable_delivery
  admit_durable-Ensures max_retries = admit_with-Ensures max_retries l.controller

  pub admit-Ensures :
      (hs : List Handler)
      → Ensures l e receipt is_held (admit_claimed l channel e receipt hs) (λ _. is_held)
  unfolding admit_claimed
  admit-Ensures hs =
      choose-Ensures l e receipt is_held (λ _. is_held) (not (is_command e && is_durable e))
        (pure true)
        (if is_many hs
          then restore_and_abort l worker_aborted channel e receipt
          else admit_durable_delivery l channel e receipt (command_max_retries l hs))
        (λ _. pure-Ensures l e receipt is_held (λ _. is_held) true (λ p h. h))
        (λ _.
          choose-Ensures l e receipt is_held (λ _. is_held) (is_many hs)
            (restore_and_abort l worker_aborted channel e receipt)
            (admit_durable_delivery l channel e receipt (command_max_retries l hs))
            (λ _. abort-Ensures (λ (b : Bool). is_held))
            (λ _. admit_durable-Ensures (command_max_retries l hs)))

  observation_allowed : (p : Phase) → is_closed p ≡ true → may_fail l e observation_failed p ≡ true
  observation_allowed =
      implies_lem is_closed (may_fail l e observation_failed) (unfold may_fail in refl)

  pub held_observation_allowed :
      (p : Phase) → is_held p ≡ true → may_fail l e observation_failed p ≡ true
  held_observation_allowed =
      implies_lem is_held (may_fail l e observation_failed) (unfold may_fail in refl)

  release_with-Ensures :
      (controller : Option ℕ)
      → Ensures l e receipt is_held (release_with l channel e receipt controller) (λ _. is_held)
  unfolding release_with
  release_with-Ensures none w before = before
  release_with-Ensures (some delay) w before =
      catching-Ensures l e receipt is_held (λ (u : Unit {0}). is_held)
        (release_envelope l.lib (l.now w.log) (l.store_now w.log) delay e)
        (λ _. raise indeterminate_delivery) pure
        (λ _.
          raise-Ensures l e receipt is_held (λ (u : Unit {0}). is_held) indeterminate_delivery
            (implies_lem is_held (may_fail l e indeterminate_delivery) (unfold may_fail in refl)))
        (λ u. pure-Ensures l e receipt is_held (λ _. is_held) u (λ p h. h)) w before

  pub give_up-Ensures :
      Ensures l e receipt is_held (give_up_start l channel e receipt {A = Unit {0}}) (λ _. is_held)
  unfolding give_up_start
  give_up-Ensures =
      let controller : Option ℕ = if is_durable e then l.controller else none in
      bind-Ensures l e receipt is_held (λ _. is_held) (λ _. is_held)
        (release_with l channel e receipt controller)
        (λ _. restore_and_abort l observation_failed channel e receipt)
        (release_with-Ensures controller)
        (λ _. give_back-Ensures observation_failed (λ (u : Unit {0}). is_held) observation_allowed)
