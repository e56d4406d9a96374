-- ===== src/Listener/Safety/Fences.antt =====
-- A durable job that a handler has, and the further copies of it that workers take:
-- src/pybus/listener.py with the store.
use mathlib.Core.Path.{subst}
use pybus.Codec.{Stdlib}
use pybus.Codec.Dict.{get}
use pybus.Durable.Admit.{DurableDeliveryAdmission, admit_delivery}
use pybus.Durable.Admit.Fencing.{Names}
use pybus.Durable.Controller.{
  Decided, admission, admit_envelope, admit_identified, decided, identity, last_attempt_of,
  not_a_command, present,
}
use pybus.Durable.Envelope.{MessageEnvelope}
use pybus.Durable.Queries.{StoreError}
use pybus.Durable.Run.{Call, history}
use pybus.Durable.Run.Fencing.{Holds, admitted_once}
use pybus.Durable.Types.{Db, DurableDeliveryDecision, DurableJob, JobSeries, proceed}
use pybus.Listener.{Listener, World, retry_count}
use pybus.Listener.Dispatching.Claiming.{deliver_envelope}
use pybus.Listener.Safety.Admissions.{runs}
use pybus.Listener.Safety.Admissions.Quiet.{unadmitted-Quiet}
use pybus.Prelude.{Bool-cases, List, Option, String, ap, inl, inr, refl, some, ℕ, ◌==◌, ◌≡◌, ◌≤◌}
use pybus.Prelude.Exec.{Result, Result-cases, err, ok}

decided-proceed :
    (x : Result StoreError DurableDeliveryDecision × Db)
    → (decided x).0 ≡ ok (some proceed)
    → x.0 ≡ ok proceed
decided-proceed (ok d, db) h = let same : d ≡ proceed = cc in ap ok same
decided-proceed (err e, db) h = cc

-- What a delivered copy has been told came from the store's answer about the job that it names.
admit_envelope-proceed :
    (lib : Stdlib) (now later delay : ℕ) (e : MessageEnvelope) (queue : String) (count m : ℕ)
    (db : Db) (r : String) (g : ℕ)
    → identity e ≡ ok (some (r, g))
    → (admit_envelope lib now later delay e queue count m db).0 ≡ ok (some proceed)
    → (last : Option ℕ) × ((admit_delivery lib later
          (admission e queue count m now delay r g last)
          db).0
        ≡ ok proceed)
unfolding admit_envelope admit_identified
admit_envelope-proceed lib now later delay e queue count m db r g names h =
    elim (Bool-cases (e.message_kind == "command")) [
      | inr event ↦
          let wrong : ◌≡◌ {A = Decided} (err not_a_command) (ok (some proceed)) =
            rw (admit_envelope, names, admit_identified, event) at h in
          cc
      | inl command ↦
          elim (Result-cases (last_attempt_of lib (present (get "last_attempt" e.headers)))) [
            | inl (error, bad) ↦
                let wrong : ◌≡◌ {A = Decided} (err error) (ok (some proceed)) =
                  rw (admit_envelope, names, admit_identified, command, bad) at h in
                cc
            | inr (last, timely) ↦
                let told = rw (admit_envelope, names, admit_identified, command, timely) at h in
                (
                  last,
                  decided-proceed
                      (admit_delivery lib later (admission e queue count m now delay r g last) db)
                      told,
                )
          ]
    ]

-- Once a copy of a durable job has been told to proceed, a worker that takes a copy of that generation or
-- an earlier one runs no handler, whatever calls of the store have come in between, by whomever, as long
-- as none of them has checkpointed the settlement of the job or released its delivery.
pub handled_once :
    (l : Listener) (now : ℕ) (a : DurableDeliveryAdmission) (db : Db) (i : ℕ) (j : DurableJob)
    (s : Option JobSeries) (cs : List Call) (channel : String) (e : MessageEnvelope)
    (receipt : Option String) (g : ℕ) (w : World)
    → Names l.lib a db i j s
    → (admit_delivery l.lib now a db).0 ≡ ok proceed
    → Holds l.lib i cs
    → w.db ≡ history l.lib l.calendar cs (admit_delivery l.lib now a db).1
    → identity e ≡ ok (some (a.record_id, g))
    → g ≤ a.generation
    → runs (deliver_envelope l channel e receipt w).1.log ≡ runs w.log
handled_once l now a db i j s cs channel e receipt g w n told holds same names le =
    unadmitted-Quiet l channel e receipt (a.record_id, g) names w
      (λ now' later delay m h.
        let count = retry_count l e in
        let (last, again) =
          admit_envelope-proceed l.lib now' later delay e channel count m w.db a.record_id g names
            h in
        let b = admission e channel count m now' delay a.record_id g last in
        admitted_once l.lib l.calendar now later a b db i j s cs n told holds
          (unfold admission in refl) (unfold admission in le)
          (subst (λ (x : Db). (admit_delivery l.lib later b x).0 ≡ ok proceed) same again))
