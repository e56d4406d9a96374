-- ===== src/Durable/Runner.antt =====
-- `DurableJobRunner.run_once` of src/pybus/durable.py: one claim, published and recorded. The publisher
-- is a parameter that says of an envelope and a queue whether publishing raises; times are
-- microseconds, with `later` the clock reading after publishing.
pub mod Steps
use pybus.Codec.{Stdlib}
use pybus.Durable.Claim.{DurableJobClaim, claim}
use pybus.Durable.Envelope.{MessageEnvelope, delivery_envelope}
use pybus.Durable.Publish.{mark_publish_indeterminate, mark_published}
use pybus.Durable.Queries.{StoreError}
use pybus.Durable.Types.{Db}
use pybus.Prelude.{Bool, Option, String, if◌then◌else◌, none, some, ℕ, ◌+◌}
use pybus.Prelude.Exec.{Result, err, ok}

pub data RunnerError : Type 0 where
  claim_failed : StoreError → RunnerError
  publication_indeterminate : RunnerError
  publication_and_state_indeterminate : RunnerError
  publication_state_indeterminate : RunnerError

abbrev pub Ran : Type 0
Ran = Result RunnerError (Option DurableJobClaim)

-- After a publisher that raised.
unfoldable pub record_doubt : Result StoreError (Unit {0}) → Ran
record_doubt (err e) = err publication_and_state_indeterminate
record_doubt (ok _) = err publication_indeterminate

unfoldable pub record_published : DurableJobClaim → Result StoreError (Unit {0}) → Ran
record_published c (err e) = err publication_state_indeterminate
record_published c (ok _) = ok (some c)

module _ (lib : Stdlib) (raises : MessageEnvelope → String → Bool) (worker_id fresh : String)
    (lease_duration delay now later : ℕ) where
  unfoldable pub publish_claim : DurableJobClaim → Db → Ran × Db
  unfolding record_doubt record_published mark_published mark_publish_indeterminate
      delivery_envelope
  publish_claim c db =
      if raises (delivery_envelope lib fresh c) c.queue
      then (let (r, db') = mark_publish_indeterminate c now (later + delay) db in
          (record_doubt r, db'))
      else (let (r, db') = mark_published c later (later + delay) db in (record_published c r, db'))

  unfoldable pub after_claim : Result StoreError (Option DurableJobClaim) → Db → Ran × Db
  unfolding publish_claim
  after_claim (err e) db = (err (claim_failed e), db)
  after_claim (ok none) db = (ok none, db)
  after_claim (ok (some c)) db = publish_claim c db

  -- `inside` says whether the caller is in a transaction.
  unfoldable pub run_once : Bool → Db → Ran × Db
  unfolding after_claim claim
  run_once inside db =
      let (r, db') = claim inside worker_id now (now + lease_duration) db in after_claim r db'
