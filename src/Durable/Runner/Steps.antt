-- ===== src/Durable/Runner/Steps.antt =====
-- A round of the runner as calls of the store: src/pybus/durable.py.
use pybus.Codec.{Stdlib}
use pybus.Durable.Claim.{DurableJobClaim, claim}
use pybus.Durable.Envelope.{MessageEnvelope, delivery_envelope}
use pybus.Durable.Publish.{mark_publish_indeterminate, mark_published}
use pybus.Durable.Queries.{StoreError}
use pybus.Durable.Run.{Call, claim_one, confirm, doubt, history}
use pybus.Durable.Runner.{
  Ran, after_claim, claim_failed, publication_and_state_indeterminate, publication_indeterminate,
  publication_state_indeterminate, publish_claim, record_doubt, record_published, run_once,
}
use pybus.Durable.Types.{Db}
use pybus.Prelude.{
  Bool, Bool-cases, List, Option, String, [], false, inl, inr, none, refl, some, true, ℕ, ◌+◌, ◌∷◌,
  ◌≡◌,
}
use pybus.Prelude.Exec.{Result, err, ok}
use pybus.Recurrence.{Calendar}

-- What follows a claim: the calls of the store, and what the runner returns or raises. A publication that
-- raised is put in doubt, and one that did not is
-- recorded, either with a deadline after the delay; the claim is returned only if the store took the record.
pub data RoundOf (lib : Stdlib) (raises : MessageEnvelope → String → Bool) (fresh : String)
    (delay now later : ℕ) (db : Db)
    : Result StoreError (Option DurableJobClaim) → List Call → Ran → Type 0 where
  unclaimed :
      {e : StoreError}
      → RoundOf lib raises fresh delay now later db (err e) [] (err (claim_failed e))
  idle : RoundOf lib raises fresh delay now later db (ok none) [] (ok none)
  doubted :
      {c : DurableJobClaim}
      → raises (delivery_envelope lib fresh c) c.queue ≡ true
      → (mark_publish_indeterminate c now (later + delay) db).0 ≡ ok tt
      → RoundOf lib raises fresh delay now later db
          (ok (some c))
          (doubt c now (later + delay) ∷ [])
          (err publication_indeterminate)
  doubt_lost :
      {c : DurableJobClaim} {e : StoreError}
      → raises (delivery_envelope lib fresh c) c.queue ≡ true
      → (mark_publish_indeterminate c now (later + delay) db).0 ≡ err e
      → RoundOf lib raises fresh delay now later db
          (ok (some c))
          (doubt c now (later + delay) ∷ [])
          (err publication_and_state_indeterminate)
  sent :
      {c : DurableJobClaim}
      → raises (delivery_envelope lib fresh c) c.queue ≡ false
      → (mark_published c later (later + delay) db).0 ≡ ok tt
      → RoundOf lib raises fresh delay now later db
          (ok (some c))
          (confirm c later (later + delay) ∷ [])
          (ok (some c))
  record_lost :
      {c : DurableJobClaim} {e : StoreError}
      → raises (delivery_envelope lib fresh c) c.queue ≡ false
      → (mark_published c later (later + delay) db).0 ≡ err e
      → RoundOf lib raises fresh delay now later db
          (ok (some c))
          (confirm c later (later + delay) ∷ [])
          (err publication_state_indeterminate)

module _ (lib : Stdlib) (cal : Calendar) (raises : MessageEnvelope → String → Bool)
    (worker_id fresh : String) (lease_duration delay now later : ℕ) where
  -- The calls of a round are the ones that the database and the outcome show.
  abbrev Round : Result StoreError (Option DurableJobClaim) → Db → Ran × Db → Type 0
  Round r db out =
      (cs : List Call) × RoundOf lib raises fresh delay now later db r cs out.0
      × (out.1 ≡ history lib cal cs db)

  record_doubt-RoundOf :
      (c : DurableJobClaim) (db : Db) (x : Result StoreError (Unit {0}))
      → raises (delivery_envelope lib fresh c) c.queue ≡ true
      → (mark_publish_indeterminate c now (later + delay) db).0 ≡ x
      → RoundOf lib raises fresh delay now later db
          (ok (some c))
          (doubt c now (later + delay) ∷ [])
          (record_doubt x)
  unfolding record_doubt
  record_doubt-RoundOf c db (ok _) failed kept = doubted failed kept
  record_doubt-RoundOf c db (err error) failed lost = doubt_lost failed lost

  record_published-RoundOf :
      (c : DurableJobClaim) (db : Db) (x : Result StoreError (Unit {0}))
      → raises (delivery_envelope lib fresh c) c.queue ≡ false
      → (mark_published c later (later + delay) db).0 ≡ x
      → RoundOf lib raises fresh delay now later db
          (ok (some c))
          (confirm c later (later + delay) ∷ [])
          (record_published c x)
  unfolding record_published
  record_published-RoundOf c db (ok _) went kept = sent went kept
  record_published-RoundOf c db (err error) went lost = record_lost went lost

  publish_claim-Round :
      (c : DurableJobClaim) (db : Db)
      → Round
          (ok (some c))
          db
          (publish_claim lib raises worker_id fresh lease_duration delay now later c db)
  unfolding publish_claim history
  publish_claim-Round c db = elim (Bool-cases (raises (delivery_envelope lib fresh c) c.queue)) [
    | inl e ↦ (
      doubt c now (later + delay) ∷ [],
      rw (e, publish_claim) (record_doubt-RoundOf c db _ e refl),
      rw (e, publish_claim) refl,
    )
    | inr e ↦ (
      confirm c later (later + delay) ∷ [],
      rw (e, publish_claim) (record_published-RoundOf c db _ e refl),
      rw (e, publish_claim) refl,
    )
  ]

  after_claim-Round :
      (r : Result StoreError (Option DurableJobClaim)) (db : Db)
      → Round r db (after_claim lib raises worker_id fresh lease_duration delay now later r db)
  unfolding after_claim history
  after_claim-Round (err e) db = ([], unclaimed, refl)
  after_claim-Round (ok none) db = ([], idle, refl)
  after_claim-Round (ok (some c)) db = publish_claim-Round c db

-- A round of the runner claims once, and then: with no claim, does nothing more; puts the claim's
-- publication in doubt if the publisher raised, and records it as published if it did not, and makes no
-- other call. It returns the claim exactly if the publisher did not raise and the store took the record,
-- and raises what the publisher's and the store's answers call for.
pub run_once-history :
    (lib : Stdlib) (cal : Calendar) (raises : MessageEnvelope → String → Bool)
    (worker_id fresh : String) (lease_duration delay now later : ℕ) (inside : Bool) (db : Db)
    → let claiming = claim inside worker_id now (now + lease_duration) db in
      let out = run_once lib raises worker_id fresh lease_duration delay now later inside db in
      (cs : List Call) × RoundOf lib raises fresh delay now later claiming.1 claiming.0 cs out.0
      × (out.1 ≡ history lib cal (claim_one inside worker_id now (now + lease_duration) ∷ cs) db)
unfolding run_once history
run_once-history lib cal raises w fresh lease delay now later inside db =
    let (r, db') = claim inside w now (now + lease) db in
    after_claim-Round lib cal raises w fresh lease delay now later r db'
