-- ===== src/Listener/Safety/Limits.antt =====
-- The copies that src/pybus/listener.py sends on: they are the message, a retry counts one more and is
-- within a limit, and what is given up has reached one.
use pybus.Codec.{Fields, Value, int, null, text}
use pybus.Codec.Dict.{put}
use pybus.Durable.Controller.{retry_count_of}
use pybus.Durable.Envelope.{MessageEnvelope, in_utc}
use pybus.Listener.{
  Listener, dead_letter_publication, is_typed, key_of, max_retries_for, retry_count, retry_requeue,
}
use pybus.Listener.Safety.{carries, gives_up, is_same_message, limits, retries_on}
use pybus.Listener.Safety.Rules.{below}
use pybus.Listener.Settling.{copied_payload, copy_envelope, dead_letter_envelope, retry_envelope}
use pybus.Prelude.{
  All, Bool, List, String, [], any, arith, eq_refl, eqb_refl, false, if◌then◌else◌, ltb, map, not,
  true, ℕ, ◌+◌, ◌==◌, ◌∷◌, ◌≡◌,
}
use pybus.Prelude.Int.{pos}
use pybus.Registry.{Handler, handlers_for}
use pybus.Retries.Laws.{resolve_retry_count-put}

-- The copies are the message, whose id is not empty.
copy_envelope-is_same_message :
    (e : MessageEnvelope) (fresh : String) (payload : Value) (headers : Fields)
    → (e.message_id == "") ≡ false
    → is_same_message e (copy_envelope e fresh payload headers) ≡ true
unfolding copy_envelope is_same_message
copy_envelope-is_same_message e fresh payload headers named = rw (
  copy_envelope,
  is_same_message,
  named,
  eq_refl e.message_id,
  eq_refl e.message_type,
  eq_refl e.message_kind,
  eqb_refl e.version,
)

module _ (l : Listener) (e : MessageEnvelope) where
  -- A limit that a delivery of the message goes by: what holds of it holds of one of them.
  abbrev pub IsLimit : ℕ → Type 0
  IsLimit m = (p : ℕ → Bool) → p m ≡ true → any p (limits l e) ≡ true

  pub policy_IsLimit : IsLimit l.retry_policy.max_retries
  unfolding limits
  policy_IsLimit p h = rw (limits, h)

  spread :
      (hs : List Handler) (xs : List ℕ)
      → ((p : ℕ → Bool)
          → any p (map (λ h. max_retries_for l (l.spec_for h)) hs) ≡ true
          → any p xs ≡ true)
      → All (λ h. (p : ℕ → Bool) → p (max_retries_for l (l.spec_for h)) ≡ true → any p xs ≡ true) hs
  spread [] xs into = tt
  spread (h ∷ hs) xs into =
      ((λ p here. into p (rw here)), spread hs xs (λ p there. into p (ground (arith, there))))

  pub handlers_AreLimits :
      All (λ h. IsLimit (max_retries_for l (l.spec_for h))) (handlers_for (key_of e) l.registry)
  unfolding limits
  handlers_AreLimits =
      spread (handlers_for (key_of e) l.registry) (limits l e) (λ p there. ground (arith, there))

  -- The copy counts one more.
  retry_count-retry_envelope :
      (fresh : String) (now : ℕ)
      → retry_count l (retry_envelope l e fresh now) ≡ retry_count l e + 1
  unfolding retry_envelope retry_count retry_count_of copy_envelope
  retry_count-retry_envelope fresh now =
      resolve_retry_count-put l.lib
        (if is_typed l e
          then null
          else copied_payload l.lib (is_typed l e) now (retry_count l e) e.payload)
        (text (l.lib.datetime_text (in_utc now))) (retry_count l e + 1) e.headers

  pub retry_envelope-carries :
      (fresh : String) (now m : ℕ)
      → (e.message_id == "") ≡ false
      → IsLimit m
      → ltb (retry_count l e) m ≡ true
      → carries l retry_requeue e (retry_envelope l e fresh now) ≡ true
  unfolding carries retries_on
  retry_envelope-carries fresh now m named limit below =
      let same : is_same_message e (retry_envelope l e fresh now) ≡ true =
        (unfold retry_envelope in
          copy_envelope-is_same_message e fresh
            (copied_payload l.lib (is_typed l e) now (retry_count l e) e.payload)
            (put "last_attempt" (text (l.lib.datetime_text (in_utc now)))
              (put "retries" (int (pos (retry_count l e + 1))) e.headers))
            named) in
      let within : any (λ k. ltb (retry_count l e) k) (limits l e) ≡ true =
        limit (λ k. ltb (retry_count l e) k) below in
      rw (same, within, retry_count-retry_envelope fresh now, eqb_refl (retry_count l e + 1))

  pub dead_letter_envelope-carries :
      (fresh channel : String)
      → (e.message_id == "") ≡ false
      → gives_up l e ≡ true
      → carries l dead_letter_publication e (dead_letter_envelope l e fresh channel) ≡ true
  unfolding carries dead_letter_envelope
  dead_letter_envelope-carries fresh channel named over = rw (
    copy_envelope-is_same_message e fresh e.payload
        (put "dead_lettered_from" (text channel) e.headers) named,
    over,
  )

  pub reached-gives_up : (m : ℕ) → IsLimit m → ltb (retry_count l e) m ≡ false → gives_up l e ≡ true
  unfolding gives_up
  reached-gives_up m limit reached =
      ground (arith, limit (λ k. not (ltb (retry_count l e) k)) (rw (reached)))
