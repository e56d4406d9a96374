-- ===== src/Listener/Safety/Dispatches/Completion.antt =====
-- The phase of a claim through the completion of `_dispatch`, src/pybus/listener.py, for handlers that are
-- not batched.
use pybus.Durable.Controller.{ControllerError}
use pybus.Durable.Controller.Settlement.{complete_success}
use pybus.Durable.Envelope.{MessageEnvelope}
use pybus.Durable.Types.{CommandDeliveryStatus}
use pybus.Listener.{
  Action, HandlerOutcome, Listener, key_of, max_retries_for, observation_failed, retry_count,
}
use pybus.Listener.Dispatching.{
  Looped, claim_settled, completion, finished, is_durable, notice, ran, run_handlers, settled,
}
use pybus.Listener.Dispatching.Claiming.{
  admit_claimed, after_completion, after_loop, announce_success, command_max_retries,
  complete_delivery, complete_with, dispatch, dispatch_admitted, dispatch_decoded, first_failed,
  has_batched_handlers, is_invalid_definition, is_watched, start,
}
use pybus.Listener.Effects.{command_delivery_outcome}
use pybus.Listener.Safety.{is_closed, is_held, may_fail, phase}
use pybus.Listener.Safety.Dispatches.{
  admit-Ensures, held_is_unsettled, held_observation_allowed, on_dispatched, on_looped,
}
use pybus.Listener.Safety.Dispatches.Handling.{fail-Ensures, run_handlers-Ensures, start-Ensures}
use pybus.Listener.Safety.Limits.{IsLimit, handlers_AreLimits}
use pybus.Listener.Safety.Notices.{notify-Ensures}
use pybus.Listener.Safety.Rules.{
  Ensures, bind-Ensures, catching-Ensures, choose-Ensures, pure-Ensures, raise-Ensures,
}
use pybus.Prelude.{
  All, Bool, Bool-cases, List, Option, String, [], false, if◌then◌else◌, inl, inr, none, not, refl,
  some, true, ℕ, ◌==◌, ◌∷◌, ◌≡◌,
}
use pybus.Prelude.Exec.{pure, raise, ◌>>◌}
use pybus.Registry.{Handler, handlers_for}

module _ (l : Listener) (channel : String) (e : MessageEnvelope) (receipt : Option String) where
  announce_success-Ensures :
      (os : List HandlerOutcome) (max_retries : ℕ)
      → Ensures l e receipt is_held
          (announce_success l channel e receipt os max_retries)
          on_dispatched
  unfolding announce_success
  announce_success-Ensures os max_retries =
      bind-Ensures l e receipt is_held (λ _. is_held) on_dispatched
        (notice l channel e receipt CommandDeliveryStatus.succeeded max_retries
          (not (is_durable e)))
        (λ _. pure (finished os))
        (notify-Ensures l e receipt is_held (held_observation_allowed l channel e receipt)
          CommandDeliveryStatus.succeeded channel none (retry_count l e) max_retries
          (not (is_durable e)))
        (λ _. pure-Ensures l e receipt is_held on_dispatched (finished os) (λ p h. h))

  module _ (named : (e.message_id == "") ≡ false) where
    first_failed-Ensures :
        (first : Handler)
        → IsLimit l e (max_retries_for l (l.spec_for first))
        → Ensures l e receipt is_held (first_failed l channel e receipt first) on_dispatched
    first_failed-Ensures first limit =
        fail-Ensures l channel e receipt named is_held on_dispatched (l.spec_for first)
          claim_settled limit held_is_unsettled (λ p h. h)

    after_completion-Ensures :
        (first : Handler) (error : ControllerError)
        → IsLimit l e (max_retries_for l (l.spec_for first))
        → Ensures l e receipt is_held
            (after_completion l channel e receipt first error)
            on_dispatched
    after_completion-Ensures first error limit =
        choose-Ensures l e receipt is_held on_dispatched (is_invalid_definition error)
          (first_failed l channel e receipt first) (raise observation_failed)
          (λ _. first_failed-Ensures first limit)
          (λ _.
            raise-Ensures l e receipt is_held on_dispatched observation_failed
              (held_observation_allowed l channel e receipt))

    complete_with-Ensures :
        (first : Handler) (os : List HandlerOutcome) (max_retries : ℕ) (controller : Option ℕ)
        → IsLimit l e (max_retries_for l (l.spec_for first))
        → Ensures l e receipt is_held
            (complete_with l channel e receipt first os max_retries controller)
            on_dispatched
    unfolding complete_with
    complete_with-Ensures first os max_retries none limit w before =
        announce_success-Ensures os max_retries w before
    complete_with-Ensures first os max_retries (some delay) limit w before =
        catching-Ensures l e receipt is_held on_dispatched
          (complete_success l.lib (l.now w.log) (l.store_now w.log) delay l.calendar
            (l.fresh_id w.log) (l.fresh_text w.log)
            (command_delivery_outcome l e CommandDeliveryStatus.succeeded channel none
              (retry_count l e) max_retries)
            (completion os) (l.now w.log))
          (after_completion l channel e receipt first)
          (λ _. announce_success l channel e receipt os max_retries)
          (λ error. after_completion-Ensures first error limit)
          (λ _. announce_success-Ensures os max_retries) w before

    complete-Ensures :
        (first : Handler) (os : List HandlerOutcome) (max_retries : ℕ)
        → IsLimit l e (max_retries_for l (l.spec_for first))
        → Ensures l e receipt is_held
            (complete_delivery l channel e receipt first os max_retries)
            on_dispatched
    unfolding complete_delivery
    complete-Ensures first os max_retries limit =
        complete_with-Ensures first os max_retries (if is_durable e then l.controller else none)
          limit

    after_loop-Ensures :
        (first : Handler) (max_retries : ℕ) (looped : Looped)
        → IsLimit l e (max_retries_for l (l.spec_for first))
        → Ensures l e receipt
            (on_looped looped)
            (after_loop l channel e receipt first max_retries looped)
            on_dispatched
    after_loop-Ensures first max_retries settled limit =
        pure-Ensures l e receipt is_closed on_dispatched claim_settled (λ p h. h)
    after_loop-Ensures first max_retries (ran os) limit =
        choose-Ensures l e receipt is_held on_dispatched (is_watched l e)
          (complete_delivery l channel e receipt first os max_retries) (pure (finished os))
          (λ _. complete-Ensures first os max_retries limit)
          (λ _. pure-Ensures l e receipt is_held on_dispatched (finished os) (λ p h. h))

    decoded-Ensures :
        (first : Handler) (hs : List Handler)
        → has_batched_handlers l (first ∷ hs) ≡ false
        → All (λ h. IsLimit l e (max_retries_for l (l.spec_for h))) (first ∷ hs)
        → Ensures l e receipt is_held (dispatch_decoded l channel e receipt first hs) on_dispatched
    unfolding dispatch_decoded
    decoded-Ensures first hs single limited w before =
        let max_retries : ℕ = command_max_retries l (first ∷ hs) in
        let began : Action Looped =
          start l channel e receipt (first ∷ hs) >> run_handlers l channel e receipt (first ∷ hs) in
        rw (
          dispatch_decoded,
          single,
          bind-Ensures l e receipt is_held on_looped on_dispatched began
              (after_loop l channel e receipt first max_retries)
              (bind-Ensures l e receipt is_held (λ _. is_held) on_looped
                (start l channel e receipt (first ∷ hs))
                (λ _. run_handlers l channel e receipt (first ∷ hs))
                (start-Ensures l channel e receipt (first ∷ hs))
                (λ _. run_handlers-Ensures l channel e receipt named (first ∷ hs) limited))
              (λ looped. after_loop-Ensures first max_retries looped limited.0) w before,
        )

    admitted-Ensures :
        (hs : List Handler) (admitted : Bool)
        → has_batched_handlers l hs ≡ false
        → hs ≡ handlers_for (key_of e) l.registry
        → All (λ h. IsLimit l e (max_retries_for l (l.spec_for h))) hs
        → Ensures l e receipt is_held
            (dispatch_admitted l channel e receipt hs admitted)
            on_dispatched
    unfolding dispatch_admitted may_fail
    admitted-Ensures hs false single known limited w before = before
    admitted-Ensures [] true single known limited w before =
        rw (may_fail, ← known, held_is_unsettled (phase l e receipt w.log) before)
    admitted-Ensures (h ∷ hs) true single known limited w before = elim (Bool-cases (l.decodes e)) [
      | inl decodes ↦ rw (dispatch_admitted, decodes, decoded-Ensures h hs single limited w before)
      | inr fails ↦
          rw
            (dispatch_admitted, fails, may_fail, held_is_unsettled (phase l e receipt w.log) before)
    ]

    pub dispatch-Ensures :
        has_batched_handlers l (handlers_for (key_of e) l.registry) ≡ false
        → Ensures l e receipt is_held (dispatch l channel e receipt) on_dispatched
    unfolding dispatch
    dispatch-Ensures single =
        let hs : List Handler = handlers_for (key_of e) l.registry in
        bind-Ensures l e receipt is_held (λ _. is_held) on_dispatched
          (admit_claimed l channel e receipt hs) (dispatch_admitted l channel e receipt hs)
          (admit-Ensures l channel e receipt hs)
          (λ admitted. admitted-Ensures hs admitted single refl (handlers_AreLimits l e))
