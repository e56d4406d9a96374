-- ===== src/Redis/Refusals.antt =====
-- The reaper against the admission of durable jobs: src/pybus/integrations/redis.py with
-- src/pybus/durable.py and src/pybus/integrations/django_durable/store.py.
use pybus.Codec.{Fields, Stdlib, int, null, text}
use pybus.Codec.Dict.{get, get-put_ne, put}
use pybus.Durable.Admit.{DurableDeliveryAdmission, admit_delivery}
use pybus.Durable.Admit.Fencing.{SeriesOf, proceed_row}
use pybus.Durable.Claim.{from_record}
use pybus.Durable.Controller.{
  admission, admit_envelope, admit_identified, decided, identity, last_attempt_of, present,
  retry_count_of,
}
use pybus.Durable.Controller.Delivery.{decided-proceed, retry_count_of-delivery_envelope}
use pybus.Durable.Controller.RoundTrip.{Readable, identity-delivery_envelope}
use pybus.Durable.Envelope.{
  MessageEnvelope, delivery_envelope, durable_generation_header, durable_record_header, in_utc,
}
use pybus.Durable.Life.{find_job}
use pybus.Durable.Types.{Db, DurableJob, JobSeries, proceed}
use pybus.Listener.{is_typed}
use pybus.Listener.Settling.{copy_envelope}
use pybus.Prelude.{
  Bool, Bool-cases, Option, String, arith, false, if◌then◌else◌, inl, inr, refl, some, true, ℕ, ◌+◌,
  ◌==◌, ◌∙◌, ◌≡◌, ◌≢◌,
}
use pybus.Prelude.Exec.{Result-cases, ok}
use pybus.Prelude.Int.{pos}
use pybus.Redis.{RedisReaperRunner, is_exhausted, reclaim_count, reclaim_envelope, reclaim_headers}
use pybus.Retries.{valid_retry_count}
use pybus.Retries.Laws.{resolve_retry_count-put}

-- A copy that counts other retries than the row is not told to proceed.
admit_envelope-miscounted :
    (lib : Stdlib) (now later delay max_retries : ℕ) (e : MessageEnvelope)
    (queue record_id : String) (generation n : ℕ) (db : Db) (j : DurableJob) (s : Option JobSeries)
    → identity e ≡ ok (some (record_id, generation))
    → lib.parse_uuid record_id ≡ some j.id
    → find_job j.id db.jobs ≡ some j
    → SeriesOf db j s
    → n ≢ j.retry_count
    → (admit_envelope lib now later delay e queue n max_retries db).0 ≢ ok (some proceed)
unfolding admit_envelope admit_identified admission
admit_envelope-miscounted lib now later delay m e queue record_id generation n db j s known parsed
      found series other_count told =
    let asked : (admit_identified lib now later delay e queue n m (some (record_id, generation))
          db).0
        ≡ ok (some proceed) =
      rw (known, admit_envelope) at told in
    elim (Bool-cases (e.message_kind == "command")) [
      | inr event ↦ let refused_kind = rw (admit_identified, event) at asked in cc
      | inl command ↦
          elim (Result-cases (last_attempt_of lib (present (get "last_attempt" e.headers)))) [
            | inl (error, bad) ↦
                let refused_time = rw (admit_identified, command, bad) at asked in cc
            | inr (last, in_time) ↦
                let a : DurableDeliveryAdmission =
                  admission e queue n m now delay record_id generation last in
                let answer : (decided (admit_delivery lib later a db)).0 ≡ ok (some proceed) =
                  rw (admit_identified, command, in_time) at asked in
                let (fits, _, _) =
                  proceed_row lib later a db j.id j s
                    (record { parsed = parsed; found = found; series = series })
                    (decided-proceed (admit_delivery lib later a db) answer) in
                other_count fits.retry_count
          ]
    ]

module _ (r : RedisReaperRunner) (channel fresh : String) (now : ℕ) (e : MessageEnvelope)
    (more : is_exhausted r e ≡ false) where
  -- The two headers that name the row are left alone.
  get-reclaim_envelope :
      (k : String)
      → ("last_attempt" == k) ≡ false
      → ("retries" == k) ≡ false
      → get k (reclaim_envelope r fresh channel now e).headers ≡ get k e.headers
  unfolding reclaim_envelope reclaim_headers copy_envelope
  get-reclaim_envelope k a b =
      let counted : Fields = put "retries" (int (pos (reclaim_count r e + 1))) e.headers in
      rw (reclaim_envelope, reclaim_headers, more)
        (get-put_ne "last_attempt" k (text (r.reaper_lib.datetime_text (in_utc now))) counted a
          ∙ get-put_ne "retries" k (int (pos (reclaim_count r e + 1))) e.headers b)

  identity-reclaim_envelope : identity (reclaim_envelope r fresh channel now e) ≡ identity e
  unfolding identity
  identity-reclaim_envelope = rw (
    identity,
    get-reclaim_envelope durable_record_header refl refl,
    get-reclaim_envelope durable_generation_header refl refl,
  )

  retry_count_of-reclaim_envelope :
      (is_typed : Bool)
      → retry_count_of r.reaper_lib is_typed (reclaim_envelope r fresh channel now e)
        ≡ reclaim_count r e + 1
  unfolding retry_count_of reclaim_envelope reclaim_headers copy_envelope
  retry_count_of-reclaim_envelope is_typed =
      rw (retry_count_of, reclaim_envelope, reclaim_headers, more)
        (resolve_retry_count-put r.reaper_lib (if is_typed then null else e.payload)
          (text (r.reaper_lib.datetime_text (in_utc now))) (reclaim_count r e + 1) e.headers)

-- A copy of a job that the reaper has sent to its channel again is not told to proceed, whatever the state
-- of the row, if the claim of the row is readable and the row has kept its count of retries: the reaper counts
-- the reclaim as a retry of the job, and the row does not.
pub reclaimed_copy_refused :
    (r : RedisReaperRunner) (now later delay max_retries reaped_at : ℕ)
    (first_id second_id : String) (is_typed : Bool) (db : Db) (j : DurableJob)
    (s : Option JobSeries)
    → Readable r.reaper_lib (from_record j)
    → find_job j.id db.jobs ≡ some j
    → SeriesOf db j s
    → is_exhausted r (delivery_envelope r.reaper_lib first_id (from_record j)) ≡ false
    → let copy =
        reclaim_envelope r second_id j.queue reaped_at
          (delivery_envelope r.reaper_lib first_id (from_record j)) in
      (admit_envelope r.reaper_lib now later delay copy j.queue
        (retry_count_of r.reaper_lib is_typed copy)
        max_retries
        db).0
      ≢ ok (some proceed)
reclaimed_copy_refused r now later delay m reaped_at first_id second_id is_typed db j s readable
      found series more =
    let e : MessageEnvelope = delivery_envelope r.reaper_lib first_id (from_record j) in
    let counted : reclaim_count r e ≡ j.retry_count =
      (unfold reclaim_count retry_count_of from_record in
        retry_count_of-delivery_envelope r.reaper_lib first_id (from_record j) true readable
          (unfold valid_retry_count in refl)) in
    let seen : retry_count_of r.reaper_lib is_typed
          (reclaim_envelope r second_id j.queue reaped_at e)
        ≡ reclaim_count r e + 1 =
      retry_count_of-reclaim_envelope r j.queue second_id reaped_at e more is_typed in
    admit_envelope-miscounted r.reaper_lib now later delay m
      (reclaim_envelope r second_id j.queue reaped_at e) j.queue (r.reaper_lib.uuid_text j.id)
      j.generation
      (retry_count_of r.reaper_lib is_typed (reclaim_envelope r second_id j.queue reaped_at e)) db j
      s
      (identity-reclaim_envelope r j.queue second_id reaped_at e more
        ∙ (unfold from_record in
            identity-delivery_envelope r.reaper_lib first_id (from_record j) readable))
      (unfold from_record in readable.uuid) found series
      (λ same. absurd (omega (arith, same, seen, counted)))
