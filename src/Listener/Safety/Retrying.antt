-- ===== src/Listener/Safety/Retrying.antt =====
-- How often src/pybus/listener.py sends a message again.
use mathlib.Core.Bool.{false≢true}
use mathlib.Core.Path.{subst}
use pybus.Durable.Envelope.{MessageEnvelope}
use pybus.Listener.{
  Event, HandlerOutcome, Listener, ListenerError, Log, Purpose, World, ack_failed, acked, batch_ran,
  continue_processing_on, decode_failed, handler_not_found, handler_ran, indeterminate_delivery,
  key_of, max_retries_for, observation_failed, observation_raised, observed, raised, responded,
  retry_count, retry_requeue, returned, send_failed, sent, sized, sleep_failed, sleep_raised, slept,
  terminal_queue, took, transport_failed, unknown_queue, worker_aborted,
}
use pybus.Listener.Dispatching.Claiming.{deliver_envelope, has_batched_handlers}
use pybus.Listener.Safety.{
  after_ack, after_ack_failure, after_handler, after_send, broken, carries, held, is_receipt,
  is_same_message, limits, may_end, may_fail, may_return, phase, retries_on, step,
}
use pybus.Listener.Safety.Dispatches.Delivery.{deliver_envelope-may_end}
use pybus.Listener.Safety.Rules.{below}
use pybus.Prelude.{
  Bool, Bool-cases, List, Option, String, [], any, ap, arith, eq_iff, false, inl, inr, is_some, ltb,
  map, max, refl, suc, sym, true, zero, ℕ, ◌++◌, ◌+◌, ◌-◌, ◌<◌, ◌==◌, ◌∙◌, ◌∷◌, ◌≡◌, ◌≢◌, ◌≤◌,
}
use pybus.Prelude.Exec.{Result, err, ok}
use pybus.Registry.{handlers_for}

-- The message `d` is the `n`th retry of `e`: each is sent in a delivery of the one before.
pub data Retries (l : Listener) : MessageEnvelope → MessageEnvelope → ℕ → Type 0 where
  untried : (e : MessageEnvelope) → Retries l e e 0
  tried :
      (e c d : MessageEnvelope) (n : ℕ) (channel queue : String) (receipt : Option String)
      (w : World) (later earlier : Log)
      → phase l e receipt w.log ≡ held
      → (deliver_envelope l channel e receipt w).1.log
        ≡ later ++ sent retry_requeue queue c ∷ earlier
      → Retries l c d n
      → Retries l e d (suc n)

unfoldable pub largest : List ℕ → ℕ
largest [] = 0
largest (m ∷ ms) = max m (largest ms)

below-largest : (k : ℕ) (ms : List ℕ) → any (λ m. ltb k m) ms ≡ true → k < largest ms
unfolding largest
below-largest k [] h = cc
below-largest k (m ∷ ms) h = elim (Bool-cases (ltb k m)) [
  | inl below ↦ ground (arith, below)
  | inr above ↦
      let rest : k < largest ms = below-largest k ms (ground (arith, h, above)) in
      omega (arith, rest)
]

after_send-broken : (a b : Bool) → after_send a b broken ≡ broken
after_send-broken true true = refl
after_send-broken true false = refl
after_send-broken false b = refl

after_ack-broken : (a : Bool) → after_ack a broken ≡ broken
after_ack-broken true = refl
after_ack-broken false = refl

after_ack_failure-broken : (a : Bool) → after_ack_failure a broken ≡ broken
after_ack_failure-broken true = refl
after_ack_failure-broken false = refl

after_handler-broken : (o : HandlerOutcome) → after_handler o broken ≡ broken
after_handler-broken raised = refl
after_handler-broken (continue_processing_on queue delay) = refl
after_handler-broken (responded r) = refl
after_handler-broken (returned r) = refl

module _ (l : Listener) (e : MessageEnvelope) (receipt : Option String) where
  -- What is broken stays broken.
  step-broken : (ev : Event) → step l e receipt ev broken ≡ broken
  unfolding step
  step-broken (sent purpose queue c) = after_send-broken (carries l purpose e c) (is_some receipt)
  step-broken (send_failed purpose queue c) = refl
  step-broken (acked s) = after_ack-broken (is_receipt l e receipt s)
  step-broken (ack_failed s) = after_ack_failure-broken (is_receipt l e receipt s)
  step-broken (handler_ran h o) = after_handler-broken o
  step-broken (batch_ran h failed) = refl
  step-broken (sized queue) = refl
  step-broken (took queue) = refl
  step-broken (observed k o) = refl
  step-broken (observation_raised k o) = refl
  step-broken (slept delay) = refl
  step-broken (sleep_raised delay) = refl

  -- What was sent in a log whose phase is not broken was right.
  sent-carries :
      (purpose : Purpose) (queue : String) (c : MessageEnvelope) (later earlier : Log)
      → phase l e receipt (later ++ sent purpose queue c ∷ earlier) ≢ broken
      → carries l purpose e c ≡ true
  unfolding phase step
  sent-carries purpose queue c [] earlier intact = elim (Bool-cases (carries l purpose e c)) [
    | inl right ↦ right
    | inr wrong ↦ absurd (intact (rw (phase, step, wrong)))
  ]
  sent-carries purpose queue c (ev ∷ later) earlier intact =
      sent-carries purpose queue c later earlier
        (λ b. intact (ap (step l e receipt ev) b ∙ step-broken ev))

  broken_cannot_end :
      {A : Type 0} (r : Result ListenerError A) → may_end l e receipt r broken ≡ false
  unfolding may_end may_fail may_return
  broken_cannot_end (ok a) = refl
  broken_cannot_end (err indeterminate_delivery) = refl
  broken_cannot_end (err worker_aborted) = refl
  broken_cannot_end (err observation_failed) = refl
  broken_cannot_end (err handler_not_found) = refl
  broken_cannot_end (err decode_failed) = refl
  broken_cannot_end (err sleep_failed) = refl
  broken_cannot_end (err unknown_queue) = refl
  broken_cannot_end (err terminal_queue) = refl
  broken_cannot_end (err transport_failed) = refl

  -- In a delivery that began with a held claim.
  delivered-carries :
      (channel : String) (purpose : Purpose) (queue : String) (c : MessageEnvelope) (w : World)
      (later earlier : Log)
      → (e.message_id == "") ≡ false
      → has_batched_handlers l (handlers_for (key_of e) l.registry) ≡ false
      → phase l e receipt w.log ≡ held
      → (deliver_envelope l channel e receipt w).1.log ≡ later ++ sent purpose queue c ∷ earlier
      → carries l purpose e c ≡ true
  delivered-carries channel purpose queue c w later earlier named single fresh log =
      sent-carries purpose queue c later earlier (λ b.
        let delivered : Result ListenerError (Option (List HandlerOutcome)) × World =
          deliver_envelope l channel e receipt w in
        let ends : may_end l e receipt delivered.0 (phase l e receipt delivered.1.log) ≡ true =
          deliver_envelope-may_end l channel e receipt named single w fresh in
        let now_broken : phase l e receipt delivered.1.log ≡ broken =
          ap (phase l e receipt) log ∙ b in
        let impossible : may_end l e receipt delivered.0 broken ≡ true =
          ap (may_end l e receipt delivered.0) (sym now_broken) ∙ ends in
        false≢true (sym (broken_cannot_end delivered.0) ∙ impossible))

-- A retry has the key and the id of its message.
key_of-same : (e c : MessageEnvelope) → is_same_message e c ≡ true → key_of c ≡ key_of e
unfolding is_same_message
key_of-same e c same =
    let kind : c.message_kind ≡ e.message_kind =
      (eq_iff c.message_kind e.message_kind).0 (ground (arith, same)) in
    let type : c.message_type ≡ e.message_type =
      (eq_iff c.message_type e.message_type).0 (ground (arith, same)) in
    rw (kind, type)

message_id-same : (e c : MessageEnvelope) → is_same_message e c ≡ true → c.message_id ≡ e.message_id
unfolding is_same_message
message_id-same e c same = (eq_iff c.message_id e.message_id).0 (ground (arith, same))

-- A message for handlers that are not batched is sent again at most as often as the largest of its limits
-- allows beyond the retries that it has counted.
pub Retries-bounded :
    (l : Listener) (e d : MessageEnvelope) (n : ℕ)
    → (e.message_id == "") ≡ false
    → has_batched_handlers l (handlers_for (key_of e) l.registry) ≡ false
    → Retries l e d n
    → n ≤ largest (limits l e) - retry_count l e
unfolding carries retries_on limits
Retries-bounded l e d zero named single (untried _) = omega arith
Retries-bounded l e d (suc n) named single
      (tried _ c _ _ channel queue receipt w later earlier fresh log rest) =
    let right : carries l retry_requeue e c ≡ true =
      delivered-carries l e receipt channel retry_requeue queue c w later earlier named single fresh
        log in
    let same : is_same_message e c ≡ true = ground (arith, right) in
    let key : key_of c ≡ key_of e = key_of-same e c same in
    let within : retry_count l e < largest (limits l e) =
      below-largest (retry_count l e) (limits l e) (ground (arith, right)) in
    let counts : retry_count l c ≡ retry_count l e + 1 = ground (arith, right) in
    let bounded : n ≤ largest (limits l c) - retry_count l c =
      Retries-bounded l c d n (rw (message_id-same e c same, named))
        (subst (λ k. has_batched_handlers l (handlers_for k l.registry) ≡ false) (sym key) single)
        rest in
    let one : limits l c ≡ limits l e =
      ap
        (λ k.
          l.retry_policy.max_retries
          ∷ map (λ h. max_retries_for l (l.spec_for h)) (handlers_for k l.registry))
        key in
    let again : n ≤ largest (limits l e) - retry_count l c =
      subst (λ ms. n ≤ largest ms - retry_count l c) one bounded in
    omega (arith, within, counts, again)
