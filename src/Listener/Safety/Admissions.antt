-- ===== src/Listener/Safety/Admissions.antt =====
-- What keeps a message from its handlers: src/pybus/listener.py.
pub mod Quiet
use pybus.Codec.{Stdlib}
use pybus.Codec.Dict.{get}
use pybus.Durable.Admit.{admit_delivery}
use pybus.Durable.Controller.{
  ControllerError, Decided, admission, admit_envelope, admit_identified, decided, identity,
  last_attempt_of, not_a_command, present,
}
use pybus.Durable.Envelope.{MessageEnvelope}
use pybus.Durable.Queries.{StoreError}
use pybus.Durable.Types.{Db, DurableDeliveryDecision, proceed}
use pybus.Listener.{
  Action, Listener, ListenerError, Log, World, batch_ran, claim_recovery, handler_ran,
  indeterminate_delivery, sent, worker_aborted,
}
use pybus.Listener.Dispatching.{by_decision, restore}
use pybus.Listener.Effects.{
  ack_claim, catch_result, hand_over, log_event, restore_and_abort, settle_after_claim,
}
use pybus.Prelude.{
  Bool, Bool-cases, Option, String, [], ap, false, inl, inr, none, refl, some, ℕ, ◌+◌, ◌==◌, ◌∷◌,
  ◌≡◌, ◌≢◌, ◌⊎◌,
}
use pybus.Prelude.Exec.{Result, Result-cases, continue, err, ok, raise, ◌>>◌}

-- The handlers that have run.
unfoldable pub runs : Log → ℕ
runs [] = 0
runs (handler_ran h o ∷ log) = runs log + 1
runs (batch_ran h failed ∷ log) = runs log + 1
runs (_ ∷ log) = runs log

-- The action has raised what the worker ends with, and no handler has run.
pub record Stops {A : Type 0} (log : Log) (x : Result ListenerError A × World) : Type 0 where
  pub silent : runs x.1.log ≡ runs log
  pub abort : (x.0 ≡ err worker_aborted) ⊎ (x.0 ≡ err indeterminate_delivery)

pub Stops-bind :
    {A B : Type 0} (log : Log) (x : Result ListenerError A × World) (f : A → Action B)
    → Stops log x
    → Stops {A = B} log (continue x.0 f x.1)
Stops-bind log (ok a, w') f s = elim s.abort [ inl e ↦ cc | inr e ↦ cc ]
Stops-bind {A = A} {B = B} log (err error, w') f s = record {
  silent = s.silent;
  abort = elim s.abort [
    | inl e ↦ let same : error ≡ worker_aborted = cc in inl (ap err same)
    | inr e ↦ let same : error ≡ indeterminate_delivery = cc in inr (ap err same)
  ];
}

module _ (l : Listener) (channel : String) (e : MessageEnvelope) where
  pub restore-Stops :
      (A : Type 0) (receipt : Option String) (w : World)
      → Stops {A = A} w.log (restore_and_abort l worker_aborted channel e receipt w)
  unfolding restore_and_abort hand_over settle_after_claim ack_claim runs
  restore-Stops A receipt w = elim (Bool-cases (l.publish_raises w.log channel e)) [
    | inl fails ↦
        rw (restore_and_abort, hand_over, settle_after_claim, fails)
          (record { silent = refl; abort = inr refl })
    | inr goes ↦ rw (restore_and_abort, hand_over, settle_after_claim, goes) (acknowledged receipt)
  ]
    where
      acknowledged :
          (receipt' : Option String)
          → Stops {A = A} w.log (
              (ack_claim l receipt' >> raise worker_aborted)
                (log_event (sent claim_recovery channel e) w))
      acknowledged none = record { silent = refl; abort = inl refl }
      acknowledged (some s) =
          elim (Bool-cases (l.ack_raises (log_event (sent claim_recovery channel e) w).log s)) [
            | inl fails ↦ rw (ack_claim, fails) (record { silent = refl; abort = inr refl })
            | inr acks ↦ rw (ack_claim, acks) (record { silent = refl; abort = inl refl })
          ]

  -- The action has stopped so, or says no with the log as it was.
  abbrev pub Refuses : Log → Result ListenerError Bool × World → Type 0
  Refuses log x = Stops log x ⊎ ((w' : World) × (x ≡ (ok false, w')) × (w'.log ≡ log))

  -- Neither told to proceed nor left alone.
  pub record IsUnadmitted (r : Result ControllerError (Option DurableDeliveryDecision))
      : Type 0 where
    pub unwelcome : r ≢ ok (some proceed)
    pub known : r ≢ ok none

  pub by_decision-Refuses :
      (receipt : Option String) (w : World) (x : Decided × Db)
      → IsUnadmitted x.0
      → Refuses w.log (
          catch_result x.0
            (λ _. restore l channel e receipt worker_aborted)
            (by_decision l channel e receipt)
            (record w { db = x.1 }))
  by_decision-Refuses receipt w (err error, db) u =
      inl (restore-Stops Bool receipt (record w { db = db }))
  by_decision-Refuses receipt w (ok none, db) u = absurd (u.known refl)
  by_decision-Refuses receipt w (ok (some DurableDeliveryDecision.proceed), db) u =
      absurd (u.unwelcome refl)
  by_decision-Refuses receipt w (ok (some DurableDeliveryDecision.drop), db) u =
      inr (record w { db = db }, refl, refl)
  by_decision-Refuses receipt w (ok (some DurableDeliveryDecision.abort), db) u =
      inl (restore-Stops Bool receipt (record w { db = db }))

decided-known : (x : Result StoreError DurableDeliveryDecision × Db) → (decided x).0 ≢ ok none
decided-known (ok d, db) h = cc
decided-known (err e, db) h = cc

-- A copy that names a job is told something, or the question fails.
pub admit_envelope-known :
    (lib : Stdlib) (now later delay : ℕ) (e : MessageEnvelope) (queue : String) (count m : ℕ)
    (db : Db) (known : String × ℕ)
    → identity e ≡ ok (some known)
    → (admit_envelope lib now later delay e queue count m db).0 ≢ ok none
unfolding admit_envelope admit_identified
admit_envelope-known lib now later delay e queue count m db (r, g) names h =
    elim (Bool-cases (e.message_kind == "command")) [
      | inr event ↦
          let wrong : ◌≡◌ {A = Decided} (err not_a_command) (ok none) =
            rw (admit_envelope, names, admit_identified, event) at h in
          cc
      | inl command ↦
          elim (Result-cases (last_attempt_of lib (present (get "last_attempt" e.headers)))) [
            | inl (error, bad) ↦
                let wrong : ◌≡◌ {A = Decided} (err error) (ok none) =
                  rw (admit_envelope, names, admit_identified, command, bad) at h in
                cc
            | inr (last, timely) ↦
                let told = rw (admit_envelope, names, admit_identified, command, timely) at h in
                decided-known
                  (admit_delivery lib later (admission e queue count m now delay r g last) db) told
          ]
    ]
