-- ===== src/Durable/Controller/RoundTrip.antt =====
-- From a claim to its admission: the envelope of a claim, read back by the worker that receives it:
-- src/pybus/durable.py, with src/pybus/listener.py for the retries.
use pybus.Codec.{Stdlib, dict, dumps}
use pybus.Codec.Dict.{get}
use pybus.Durable.Admit.{DurableDeliveryAdmission, admit_delivery}
use pybus.Durable.Claim.{DurableJobClaim}
use pybus.Durable.Controller.{
  admission, admit_envelope, admit_identified, decided, identity, identity_of, instant,
  last_attempt_of, present,
}
use pybus.Durable.Controller.Headers.{
  attempt_text, get-generation, get-last_attempt, get-record, select-delivery_headers,
}
use pybus.Durable.Envelope.{delivery_envelope, delivery_headers, has_reserved, in_utc}
use pybus.Durable.Types.{Db}
use pybus.Listener.{retry_count}
use pybus.Prelude.{
  Option, String, ap, arith, false, is_some, le→leb, none, refl, some, true, ℕ, ◌+◌, ◌<◌, ◌==◌, ◌≡◌,
}
use pybus.Prelude.Exec.{ok}

-- A claim whose envelope can be read: its id and its attempt time come back from their texts, its
-- payload and headers serialize, and the application has set no reserved header.
pub record Readable (lib : Stdlib) (c : DurableJobClaim) : Type 0 where
  pub uuid : lib.parse_uuid (lib.uuid_text c.id) ≡ some c.id
  pub written : (lib.uuid_text c.id == "") ≡ false
  pub attempt :
      (t : ℕ)
      → c.last_attempt_at ≡ some t
      → lib.parse_datetime (lib.datetime_text (in_utc t)) ≡ some (in_utc t)
  pub payload : is_some (dumps lib c.payload) ≡ true
  pub headers : is_some (dumps lib (dict c.headers)) ≡ true
  pub unreserved : has_reserved c.headers ≡ false
  pub named : (c.message_id == "") ≡ false
  pub numbered : 0 < c.generation

-- What the store is asked about a claim.
abbrev pub claim_admission :
    Stdlib → DurableJobClaim → String → ℕ → ℕ → ℕ → ℕ → DurableDeliveryAdmission
claim_admission lib c source_queue retry_count max_retries now delay = record {
  record_id = lib.uuid_text c.id;
  generation = c.generation;
  source_queue = source_queue;
  retry_count = retry_count;
  max_retries = max_retries;
  message_id = c.message_id;
  message_type = c.message_type;
  version = c.version;
  payload = c.payload;
  application_headers = c.headers;
  last_attempt_at = c.last_attempt_at;
  admitted_at = some now;
  reconciliation_due_at = some (now + delay);
}

instant-in_utc : (t : ℕ) → instant (in_utc t) ≡ some t
instant-in_utc t = ap some (omega arith)

module _ (lib : Stdlib) (fresh : String) (c : DurableJobClaim) (r : Readable lib c) where
  pub identity-delivery_envelope :
      identity (delivery_envelope lib fresh c) ≡ ok (some (lib.uuid_text c.id, c.generation))
  unfolding identity delivery_envelope identity_of
  identity-delivery_envelope =
      rw (get-record lib c, get-generation lib c)
        (rw (r.written) (rw (le→leb 1 c.generation r.numbered) refl))

  last_attempt-parsed :
      (t : Option ℕ)
      → c.last_attempt_at ≡ t
      → last_attempt_of lib (present (attempt_text lib c t)) ≡ ok t
  unfolding last_attempt_of
  last_attempt-parsed none h = refl
  last_attempt-parsed (some t) h = rw (r.attempt t h) (rw (instant-in_utc t) refl)

  last_attempt-delivery_envelope :
      last_attempt_of lib (present (get "last_attempt" (delivery_headers lib c)))
      ≡ ok c.last_attempt_at
  last_attempt-delivery_envelope =
      rw (get-last_attempt lib c r.unreserved) (last_attempt-parsed c.last_attempt_at refl)

  admission-delivery_envelope :
      (q : String) (n m now delay : ℕ)
      → admission
          (delivery_envelope lib fresh c)
          q
          n
          m
          now
          delay
          (lib.uuid_text c.id)
          c.generation
          c.last_attempt_at
        ≡ claim_admission lib c q n m now delay
  unfolding admission delivery_envelope
  admission-delivery_envelope q n m now delay =
      rw (select-delivery_headers lib c r.unreserved, r.named) refl

  -- The envelope of a readable claim leads the store to be asked about exactly that claim: its id,
  -- generation, message, payload, application headers and attempt time come through unchanged.
  pub admit_envelope-delivery_envelope :
      (now later delay : ℕ) (source_queue : String) (retry_count max_retries : ℕ) (db : Db)
      → admit_envelope lib now later delay
          (delivery_envelope lib fresh c)
          source_queue
          retry_count
          max_retries
          db
        ≡ decided (
            admit_delivery lib later
              (claim_admission lib c source_queue retry_count max_retries now delay)
              db)
  unfolding admit_envelope admit_identified admission delivery_envelope
  admit_envelope-delivery_envelope now later delay q n m db =
      rw (identity-delivery_envelope, last_attempt-delivery_envelope, admit_envelope)
        (ap (λ (a : DurableDeliveryAdmission). decided (admit_delivery lib later a db))
          (admission-delivery_envelope q n m now delay))
