-- ===== src/Durable/Controller/Headers.antt =====
-- The headers of a delivery envelope: src/pybus/durable.py.
use pybus.Codec.{Fields, Stdlib, Value, end, field, int, text}
use pybus.Codec.Dict.{get, get-put_ne, get-put_self, put, select}
use pybus.Durable.Claim.{DurableJobClaim}
use pybus.Durable.Envelope.{
  attempt_header, dead_letter_header, delivery_headers, durable_generation_header,
  durable_record_header, has_reserved, in_utc, is_reserved, retries_header, text_or_null,
}
use pybus.Durable.Queries.{is_dead_letter}
use pybus.Prelude.{
  Bool, Bool-cases, Option, String, ap, arith, eq_iff, eqb, false, if◌then◌else◌, inl, inr, none,
  not, refl, some, true, ℕ, ◌==◌, ◌∙◌, ◌≡◌,
}
use pybus.Prelude.Int.{pos}

select-put :
    (p : String → Bool) (k : String) (v : Value) (d : Fields)
    → p k ≡ false
    → select p (put k v d) ≡ select p d
unfolding select put
select-put p k v end h = rw h refl
select-put p k v (field j w rest) h = elim (Bool-cases (j == k)) [
  | inl e ↦
      let same : p j ≡ false = ap p ((eq_iff j k).0 e) ∙ h in rw (e, put) (rw (same, select) refl)
  | inr e ↦ rw (e, put) (rw (select-put p k v rest h) refl)
]

select_all : (d : Fields) → has_reserved d ≡ false → select (λ k. not (is_reserved k)) d ≡ d
unfolding select has_reserved
select_all end h = refl
select_all (field k v rest) h = elim (Bool-cases (is_reserved k)) [
  | inl e ↦ ground (arith, e, h)
  | inr e ↦ rw (e, select) (rw (select_all rest (ground (arith, e, h))) refl)
]

get-reserved :
    (k : String) (d : Fields) → is_reserved k ≡ true → has_reserved d ≡ false → get k d ≡ none
unfolding get has_reserved
get-reserved k end r h = refl
get-reserved k (field j v rest) r h = elim (Bool-cases (j == k)) [
  | inl e ↦
      let same : is_reserved j ≡ true = ap is_reserved ((eq_iff j k).0 e) ∙ r in
      ground (arith, same, h)
  | inr e ↦ rw (e, get) (get-reserved k rest r (ground (arith, h)))
]

-- Each step of the envelope writes one reserved key.
module _ (k : String) (d : Fields) (r : is_reserved k ≡ true) where
  select-put_reserved :
      (v : Value)
      → select (λ k. not (is_reserved k)) (put k v d) ≡ select (λ k. not (is_reserved k)) d
  select-put_reserved v = select-put (λ k. not (is_reserved k)) k v d (rw r refl)

select-retries_header :
    (n : ℕ) (d : Fields)
    → select (λ k. not (is_reserved k)) (retries_header n d) ≡ select (λ k. not (is_reserved k)) d
unfolding retries_header
select-retries_header n d = elim (Bool-cases (eqb n 0)) [
  | inl e ↦ rw e refl
  | inr e ↦ rw e (select-put_reserved "retries" d (unfold is_reserved in refl) (int (pos n)))
]

select-attempt_header :
    (lib : Stdlib) (t : Option ℕ) (d : Fields)
    → select (λ k. not (is_reserved k)) (attempt_header lib t d)
      ≡ select (λ k. not (is_reserved k)) d
unfolding attempt_header
select-attempt_header lib none d = refl
select-attempt_header lib (some t) d =
    select-put_reserved "last_attempt" d (unfold is_reserved in refl)
      (text (lib.datetime_text (in_utc t)))

select-dead_letter_header :
    (c : DurableJobClaim) (d : Fields)
    → select (λ k. not (is_reserved k)) (dead_letter_header c d)
      ≡ select (λ k. not (is_reserved k)) d
unfolding dead_letter_header
select-dead_letter_header c d = elim (Bool-cases (is_dead_letter c.settlement_status)) [
  | inl e ↦ rw e (
      select-put_reserved "dead_lettered_from" d (unfold is_reserved in refl)
        (text_or_null c.settlement_source))
  | inr e ↦ rw e refl
]

module _ (lib : Stdlib) (c : DurableJobClaim) where
  abbrev timed_headers : Fields
  timed_headers = attempt_header lib c.last_attempt_at (retries_header c.retry_count c.headers)

  abbrev lettered_headers : Fields
  lettered_headers = dead_letter_header c timed_headers

  -- The headers that a handler sees are those of the job.
  pub select-delivery_headers :
      has_reserved c.headers ≡ false
      → select (λ k. not (is_reserved k)) (delivery_headers lib c) ≡ c.headers
  unfolding delivery_headers
  select-delivery_headers h =
      select-put_reserved durable_generation_header
        (put durable_record_header (text (lib.uuid_text c.id)) lettered_headers)
        (unfold is_reserved in refl) (int (pos c.generation))
      ∙ select-put_reserved durable_record_header lettered_headers (unfold is_reserved in refl)
          (text (lib.uuid_text c.id))
      ∙ select-dead_letter_header c timed_headers
      ∙ select-attempt_header lib c.last_attempt_at (retries_header c.retry_count c.headers)
      ∙ select-retries_header c.retry_count c.headers
      ∙ select_all c.headers h

  pub get-generation :
      get durable_generation_header (delivery_headers lib c) ≡ some (int (pos c.generation))
  unfolding delivery_headers
  get-generation =
      get-put_self durable_generation_header (int (pos c.generation))
        (put durable_record_header (text (lib.uuid_text c.id)) lettered_headers)

  pub get-record :
      get durable_record_header (delivery_headers lib c) ≡ some (text (lib.uuid_text c.id))
  unfolding delivery_headers
  get-record =
      get-put_ne durable_generation_header durable_record_header (int (pos c.generation))
        (put durable_record_header (text (lib.uuid_text c.id)) lettered_headers) refl
      ∙ get-put_self durable_record_header (text (lib.uuid_text c.id)) lettered_headers

  -- The outer three keys say nothing of the timing and of the retries.
  get-delivery_headers :
      (k : String)
      → (durable_generation_header == k) ≡ false
      → (durable_record_header == k) ≡ false
      → ("dead_lettered_from" == k) ≡ false
      → get k (delivery_headers lib c) ≡ get k timed_headers
  unfolding delivery_headers dead_letter_header
  get-delivery_headers k g r l =
      get-put_ne durable_generation_header k (int (pos c.generation))
        (put durable_record_header (text (lib.uuid_text c.id)) lettered_headers) g
      ∙ get-put_ne durable_record_header k (text (lib.uuid_text c.id)) lettered_headers r
      ∙ elim (Bool-cases (is_dead_letter c.settlement_status)) [
        | inl e ↦
            rw (e, dead_letter_header)
              (get-put_ne "dead_lettered_from" k (text_or_null c.settlement_source) timed_headers l)
        | inr e ↦ rw (e, dead_letter_header) refl
      ]

  abbrev pub attempt_text : Option ℕ → Option Value
  attempt_text none = none
  attempt_text (some t) = some (text (lib.datetime_text (in_utc t)))

  get-attempt_header :
      (t : Option ℕ) (n : ℕ)
      → has_reserved c.headers ≡ false
      → get "last_attempt" (attempt_header lib t (retries_header n c.headers)) ≡ attempt_text t
  unfolding attempt_header retries_header
  get-attempt_header none n h = elim (Bool-cases (eqb n 0)) [
    | inl e ↦
        rw (e, retries_header)
          (get-reserved "last_attempt" c.headers (unfold is_reserved in refl) h)
    | inr e ↦
        rw (e, retries_header)
          (get-put_ne "retries" "last_attempt" (int (pos n)) c.headers refl
            ∙ get-reserved "last_attempt" c.headers (unfold is_reserved in refl) h)
  ]
  get-attempt_header (some t) n h =
      get-put_self "last_attempt" (text (lib.datetime_text (in_utc t))) (retries_header n c.headers)

  pub get-last_attempt :
      has_reserved c.headers ≡ false
      → get "last_attempt" (delivery_headers lib c) ≡ attempt_text c.last_attempt_at
  get-last_attempt h =
      get-delivery_headers "last_attempt" refl refl refl
      ∙ get-attempt_header c.last_attempt_at c.retry_count h

  abbrev pub retries_value : ℕ → Option Value
  retries_value n = if eqb n 0 then none else some (int (pos n))

  get-retries_header :
      (n : ℕ)
      → has_reserved c.headers ≡ false
      → get "retries" (retries_header n c.headers) ≡ retries_value n
  unfolding retries_header
  get-retries_header n h = elim (Bool-cases (eqb n 0)) [
    | inl e ↦
        rw (e, retries_header) (get-reserved "retries" c.headers (unfold is_reserved in refl) h)
    | inr e ↦ rw (e, retries_header) (get-put_self "retries" (int (pos n)) c.headers)
  ]

  get-attempt_header_ne :
      (t : Option ℕ) (d : Fields) → get "retries" (attempt_header lib t d) ≡ get "retries" d
  unfolding attempt_header
  get-attempt_header_ne none d = refl
  get-attempt_header_ne (some t) d =
      get-put_ne "last_attempt" "retries" (text (lib.datetime_text (in_utc t))) d refl

  pub get-retries :
      has_reserved c.headers ≡ false
      → get "retries" (delivery_headers lib c) ≡ retries_value c.retry_count
  get-retries h =
      get-delivery_headers "retries" refl refl refl
      ∙ get-attempt_header_ne c.last_attempt_at (retries_header c.retry_count c.headers)
      ∙ get-retries_header c.retry_count h
