-- ===== src/Listener/Safety/Settlements.antt =====
-- The phase of a claim through the effects and the settlements of src/pybus/listener.py.
use pybus.Durable.Envelope.{MessageEnvelope}
use pybus.Listener.{Listener, ListenerError, Purpose, claim_recovery}
use pybus.Listener.Effects.{ack_claim, hand_over, restore_and_abort, settle_after_claim}
use pybus.Listener.Safety.{
  Phase, after_ack, after_ack_failure, after_send, after_send_failure, carries, is_closed,
  is_copied, is_doubtful, is_held, is_same_message, is_unsettled, may_fail, may_return, phase, step,
}
use pybus.Listener.Safety.Rules.{Ensures, bind-Ensures, implies_lem, raise-Ensures}
use pybus.Prelude.{
  Bool, Bool-cases, Option, String, eq_refl, eqb_refl, false, inl, inr, none, refl, some, true, ◌≡◌,
}
use pybus.Prelude.Exec.{raise}

pub is_same_message_refl : (e : MessageEnvelope) → is_same_message e e ≡ true
unfolding is_same_message
is_same_message_refl e = rw (
  is_same_message,
  eq_refl e.message_id,
  eq_refl e.message_type,
  eq_refl e.message_kind,
  eqb_refl e.version,
)

module _ (l : Listener) (e : MessageEnvelope) where
  send-Ensures :
      (r : String) (purpose : Purpose) (queue : String) (c : MessageEnvelope)
      → carries l purpose e c ≡ true
      → Ensures l e (some r) is_unsettled (settle_after_claim l purpose queue c) (λ _. is_copied)
  unfolding settle_after_claim phase step may_fail
  send-Ensures r purpose queue c right w before =
      elim (Bool-cases (l.publish_raises w.log queue c)) [
        | inl raises ↦ rw (
          raises,
          settle_after_claim,
          phase,
          step,
          may_fail,
          implies_lem is_unsettled (λ p. is_doubtful (after_send_failure p)) refl
              (phase l e (some r) w.log) before,
        )
        | inr sends ↦ rw (
          sends,
          settle_after_claim,
          phase,
          step,
          right,
          implies_lem is_unsettled (λ p. is_copied (after_send true true p)) refl
              (phase l e (some r) w.log) before,
        )
      ]

  ack-Ensures :
      (r : String) (P Q : Phase → Bool)
      → ((p : Phase) → P p ≡ true → Q (after_ack true p) ≡ true)
      → ((p : Phase) → P p ≡ true → is_doubtful (after_ack_failure true p) ≡ true)
      → Ensures l e (some r) P (ack_claim l (some r)) (λ _. Q)
  unfolding ack_claim phase step may_fail
  ack-Ensures r P Q settles wavers w before = elim (Bool-cases (l.ack_raises w.log r)) [
    | inl raises ↦ rw (
      raises,
      ack_claim,
      phase,
      step,
      may_fail,
      eq_refl r,
      wavers (phase l e (some r) w.log) before,
    )
    | inr acks ↦
        rw (acks, ack_claim, phase, step, eq_refl r, settles (phase l e (some r) w.log) before)
  ]

  -- The publication of a right envelope, then the acknowledgement: the claim is closed.
  pub hand_over-Ensures :
      (receipt : Option String) (purpose : Purpose) (queue : String) (c : MessageEnvelope)
      → carries l purpose e c ≡ true
      → Ensures l e receipt is_unsettled (hand_over l purpose queue c receipt) (λ _. is_closed)
  unfolding hand_over settle_after_claim ack_claim phase step may_fail
  hand_over-Ensures none purpose queue c right w before =
      elim (Bool-cases (l.publish_raises w.log queue c)) [
        | inl raises ↦ rw (
          raises,
          hand_over,
          settle_after_claim,
          ack_claim,
          phase,
          step,
          may_fail,
          implies_lem is_unsettled (λ p. is_doubtful (after_send_failure p)) refl
              (phase l e none w.log) before,
        )
        | inr sends ↦ rw (
          sends,
          hand_over,
          settle_after_claim,
          ack_claim,
          phase,
          step,
          right,
          implies_lem is_unsettled (λ p. is_closed (after_send true false p)) refl
              (phase l e none w.log) before,
        )
      ]
  hand_over-Ensures (some r) purpose queue c right w before =
      bind-Ensures l e (some r) is_unsettled (λ _. is_copied) (λ _. is_closed)
        (settle_after_claim l purpose queue c) (λ _. ack_claim l (some r))
        (send-Ensures r purpose queue c right)
        (λ _.
          ack-Ensures r is_copied is_closed
            (implies_lem is_copied (λ p. is_closed (after_ack true p)) refl)
            (implies_lem is_copied (λ p. is_doubtful (after_ack_failure true p)) refl))
        w before

  -- The acknowledgement of a message that is not sent on.
  pub consume-Ensures :
      (receipt : Option String)
      → Ensures l e receipt is_held (ack_claim l receipt) (λ _. may_return receipt)
  unfolding ack_claim may_return
  consume-Ensures none w before = rw (
    ack_claim,
    implies_lem is_held (may_return none) (unfold may_return in refl) (phase l e none w.log) before,
  )
  consume-Ensures (some r) w before =
      ack-Ensures r is_held (may_return (some r))
        (implies_lem is_held (λ p. may_return (some r) (after_ack true p))
          (unfold may_return in refl))
        (implies_lem is_held (λ p. is_doubtful (after_ack_failure true p)) refl) w before

  -- `_restore_claimed_command_and_abort`
  pub restore-Ensures :
      {A : Type 0} (error : ListenerError) (channel : String) (receipt : Option String)
      (Q : A → Phase → Bool)
      → ((p : Phase) → is_closed p ≡ true → may_fail l e error p ≡ true)
      → Ensures l e receipt is_unsettled (restore_and_abort l error channel e receipt) Q
  unfolding restore_and_abort
  restore-Ensures error channel receipt Q allowed =
      bind-Ensures l e receipt is_unsettled (λ _. is_closed) Q
        (hand_over l claim_recovery channel e receipt) (λ _. raise error)
        (hand_over-Ensures receipt claim_recovery channel e
          (unfold carries in is_same_message_refl e))
        (λ _. raise-Ensures l e receipt is_closed Q error allowed)
