-- ===== src/Durable/Controller/Delivery.antt =====
-- The delivery of a claimed job, from the row to the admission of its copy: src/pybus/durable.py,
-- src/pybus/listener.py and src/pybus/integrations/django_durable/store.py together.
use mathlib.Core.Option
use pybus.Codec.{Stdlib, Value, dict, dumps, null}
use pybus.Durable.Admit.{
  DurableDeliveryAdmission, Verdict, admit, admit_delivery, admit_row, carry_out, is_deliverable,
  outcome_unknown, same_text, same_wire, series_closed,
}
use pybus.Durable.Admit.Fencing.{
  Names, SeriesOf, proceed_row, admit_delivery_lem, find_job-admitted,
}
use pybus.Durable.Admit.Fits.{Fits, verdict-admit_iff}
use pybus.Durable.Claim.{DurableJobClaim, from_record}
use pybus.Durable.Controller.{admit_envelope, decided, retry_count_of}
use pybus.Durable.Controller.Headers.{get-retries}
use pybus.Durable.Controller.RoundTrip.{Readable, admit_envelope-delivery_envelope, claim_admission}
use pybus.Durable.Envelope.{delivery_envelope}
use pybus.Durable.Life.{find_job}
use pybus.Durable.Queries.{StoreError}
use pybus.Durable.Types.{Db, DurableDeliveryDecision, DurableJob, JobSeries, proceed, running}
use pybus.Listener.{is_typed}
use pybus.Prelude.{
  Bool, Bool-cases, Option, String, ap, arith, eq_refl, eqb, eqb_refl, eqb→eq, false, if◌then◌else◌,
  inl, inr, is_some, none, not, opt_eqb, refl, some, suc, sym, true, ℕ, ◌&&◌, ◌∙◌, ◌≡◌, ◌≢◌,
}
use pybus.Prelude.Exec.{Result, err, ok}
use pybus.Retries.{mapping_get, resolve_retry_count, valid_retry_count}

same_text_refl : (s : Option String) → is_some s ≡ true → same_text s s ≡ some true
same_text_refl none h = cc
same_text_refl (some s) h = rw (eq_refl s) refl

same_wire_refl :
    (lib : Stdlib) (v : Value) → is_some (dumps lib v) ≡ true → same_wire lib v v ≡ some true
unfolding same_wire
same_wire_refl lib v h = same_text_refl (dumps lib v) h

opt_eqb_refl : (o : Option ℕ) → opt_eqb o o ≡ true
opt_eqb_refl none = refl
opt_eqb_refl (some n) = eqb_refl n

-- The retries that the receiver sees are those of the claim, if the message keeps its payload to
-- itself or has no valid count there.
pub retry_count_of-delivery_envelope :
    (lib : Stdlib) (fresh : String) (c : DurableJobClaim) (is_typed : Bool)
    → Readable lib c
    → valid_retry_count lib (mapping_get "retries" (if is_typed then null else c.payload)) ≡ none
    → retry_count_of lib is_typed (delivery_envelope lib fresh c) ≡ c.retry_count
unfolding retry_count_of resolve_retry_count delivery_envelope
retry_count_of-delivery_envelope lib fresh c is_typed r h =
    rw (get-retries lib c r.unreserved) (elim (Bool-cases (eqb c.retry_count 0)) [
      | inl e ↦ rw (e, h) (sym (eqb→eq c.retry_count 0 e))
      | inr e ↦ rw e (unfold valid_retry_count in refl)
    ])

-- What has to hold for the copy of a row to be admitted: the row waits for it, its series is active,
-- and the receiver's retry limit is the one that the row knows.
pub record Deliverable (db : Db) (j : DurableJob) (s : Option JobSeries) (max_retries : ℕ)
    : Type 0 where
  pub found : find_job j.id db.jobs ≡ some j
  pub series : SeriesOf db j s
  pub series_open : series_closed s ≡ false
  pub waits : is_deliverable j.state ≡ true
  pub known : outcome_unknown j.state j.indeterminate_reason ≡ false
  pub limit : (is_some j.max_retries && not (opt_eqb j.max_retries (some max_retries))) ≡ false

module _ (lib : Stdlib) (now later delay max_retries : ℕ) (fresh : String) (db : Db)
    (j : DurableJob) (s : Option JobSeries) where
  abbrev row_admission : DurableDeliveryAdmission
  row_admission = claim_admission lib (from_record j) j.queue j.retry_count max_retries now delay

  row-Names :
      Readable lib (from_record j)
      → Deliverable db j s max_retries
      → Names lib row_admission db j.id j s
  unfolding from_record
  row-Names r d = record { parsed = r.uuid; found = d.found; series = d.series }

  row-Fits :
      Readable lib (from_record j) → Deliverable db j s max_retries → Fits lib row_admission s j
  unfolding from_record
  row-Fits r d = record {
    generation = refl;
    deliverable = d.waits;
    known = d.known;
    series_open = d.series_open;
    message_id = refl;
    message_type = refl;
    version = refl;
    payload = same_wire_refl lib j.payload r.payload;
    headers = same_wire_refl lib (dict j.headers) r.headers;
    queue = refl;
    last_attempt_at = opt_eqb_refl j.last_attempt_at;
    retry_count = refl;
    max_retries = d.limit;
  }

  row_admitted :
      Readable lib (from_record j)
      → Deliverable db j s max_retries
      → admit_delivery lib later row_admission db ≡ carry_out later row_admission j admit db
  row_admitted r d =
      admit_delivery_lem lib later row_admission db j.id j s (row-Names r d)
      ∙ ap (λ (v : Verdict). carry_out later row_admission j v db)
          ((verdict-admit_iff lib row_admission s j).1 (row-Fits r d))

carried_out :
    (later : ℕ) (a : DurableDeliveryAdmission) (db : Db) (j : DurableJob)
    → find_job j.id db.jobs ≡ some j
    → let (decision, db') = decided (carry_out later a j admit db) in
      (decision ≡ ok (some proceed))
      × (Option.map (λ (k : DurableJob). k.state) (find_job j.id db'.jobs) ≡ some running)
unfolding carry_out admit_row
carried_out later a db j found = (
  refl,
  ap (Option.map (λ (k : DurableJob). k.state)) (find_job-admitted later a db j.id j found),
)

-- A copy of a job is told to proceed, and the row is left running, if the claim is readable, the
-- row waits for the copy, its series is active, the copy comes on the queue of the job with the
-- retry limit that the row knows, if it knows one, and the payload of an untyped message has no
-- valid count under the key `retries`.
pub delivered_copy_proceeds :
    (lib : Stdlib) (now later delay max_retries : ℕ) (fresh : String) (is_typed : Bool) (db : Db)
    (j : DurableJob) (s : Option JobSeries)
    → Readable lib (from_record j)
    → Deliverable db j s max_retries
    → valid_retry_count lib (mapping_get "retries" (if is_typed then null else j.payload)) ≡ none
    → let e = delivery_envelope lib fresh (from_record j) in
      let (decision, db') =
        admit_envelope lib now later delay e j.queue
          (retry_count_of lib is_typed e)
          max_retries
          db in
      (decision ≡ ok (some proceed))
      × (Option.map (λ k. k.state) (find_job j.id db'.jobs) ≡ some running)
delivered_copy_proceeds lib now later delay m fresh is_typed db j s r d h =
    let retries : retry_count_of lib is_typed (delivery_envelope lib fresh (from_record j))
        ≡ j.retry_count =
      unfold from_record in
      retry_count_of-delivery_envelope lib fresh (from_record j) is_typed r h in
    let asked =
      admit_envelope-delivery_envelope lib fresh (from_record j) r now later delay j.queue
        j.retry_count m db in
    rw retries (
      rw asked (
        rw (row_admitted lib now later delay m fresh db j s r d)
          (carried_out later (row_admission lib now later delay m fresh db j s) db j d.found)))

payload_count :
    (lib : Stdlib) (fresh : String) (j : DurableJob) (n : ℕ)
    → Readable lib (from_record j)
    → j.retry_count ≡ 0
    → valid_retry_count lib (mapping_get "retries" j.payload) ≡ some n
    → retry_count_of lib false (delivery_envelope lib fresh (from_record j)) ≡ n
unfolding retry_count_of resolve_retry_count delivery_envelope from_record
payload_count lib fresh j n r zero_count counted =
    rw (get-retries lib (from_record j) r.unreserved)
      (rw (zero_count) (rw counted (unfold valid_retry_count in refl)))

pub decided-proceed :
    (r : Result StoreError DurableDeliveryDecision × Db)
    → (decided r).0 ≡ ok (some proceed)
    → r.0 ≡ ok proceed
decided-proceed (ok d, db) h = cc
decided-proceed (err e, db) h = cc

-- If the receiver has no typed class for the message, and the payload holds a positive count of its
-- own under the key `retries`, then no copy of a job without retries is told to proceed: the receiver
-- takes that count for its own.
pub payload_retries_block :
    (lib : Stdlib) (now later delay max_retries : ℕ) (fresh : String) (db : Db) (j : DurableJob)
    (s : Option JobSeries) (n : ℕ)
    → Readable lib (from_record j)
    → find_job j.id db.jobs ≡ some j
    → SeriesOf db j s
    → j.retry_count ≡ 0
    → valid_retry_count lib (mapping_get "retries" j.payload) ≡ some (suc n)
    → let e = delivery_envelope lib fresh (from_record j) in
      (admit_envelope lib now later delay e j.queue (retry_count_of lib false e) max_retries db).0
      ≢ ok (some proceed)
payload_retries_block lib now later delay m fresh db j s n r found series zero_count counted told =
    let seen_count : retry_count_of lib false (delivery_envelope lib fresh (from_record j))
        ≡ suc n =
      payload_count lib fresh j (suc n) r zero_count counted in
    let asked =
      admit_envelope-delivery_envelope lib fresh (from_record j) r now later delay j.queue (suc n) m
        db in
    let answer = rw (seen_count, asked) at told in
    let a = claim_admission lib (from_record j) j.queue (suc n) m now delay in
    let proceeds = decided-proceed (admit_delivery lib later a db) answer in
    let (fits, _, _) =
      proceed_row lib later a db j.id j s
        (record { parsed = unfold from_record in r.uuid; found = found; series = series })
        proceeds in
    let clash : suc n ≡ j.retry_count = fits.retry_count in omega (arith, clash, zero_count)
