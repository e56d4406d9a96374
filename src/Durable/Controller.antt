-- ===== src/Durable/Controller.antt =====
-- `DurableJobController` of src/pybus/durable.py: what a worker tells the store of a delivery.
-- `delay` is the policy's reconciliation delay in microseconds; clock readings are arguments.
pub mod Headers
pub mod RoundTrip
pub mod Delivery
pub mod Settlement
use pybus.Codec.{DateTime, Stdlib, Value, int, null, text}
use pybus.Codec.Dict.{get, select}
use pybus.Durable.Admit.{DurableDeliveryAdmission, admit_delivery}
use pybus.Durable.Envelope.{
  MessageEnvelope, durable_generation_header, durable_record_header, is_reserved,
}
use pybus.Durable.Queries.{StoreError}
use pybus.Durable.Types.{Db, DurableDeliveryDecision}
use pybus.Prelude.{
  Bool, Option, String, if◌then◌else◌, leb, none, not, some, ℕ, ◌*◌, ◌+◌, ◌-◌, ◌==◌,
}
use pybus.Prelude.Exec.{Result, err, ok}
use pybus.Prelude.Int.{negsuc, pos}
use pybus.Retries.{resolve_retry_count}

pub data ControllerError : Type 0 where
  invalid_identity not_a_command invalid_timing recurrence_misuse : ControllerError
  store_error : StoreError → ControllerError

-- `headers.get(key)`, where a null is as good as no value.
abbrev pub present : Option Value → Option Value
present (some null) = none
present v = v

-- `isinstance(record_id, str) and record_id`
abbrev pub record_text : Option Value → Option String
record_text (some (text s)) = if s == "" then none else some s
record_text _ = none

-- An `int` of at least 1 that is no `bool`
abbrev pub generation_number : Option Value → Option ℕ
generation_number (some (int (pos n))) = if leb 1 n then some n else none
generation_number _ = none

abbrev pub both : Option String → Option ℕ → Result ControllerError (Option (String × ℕ))
both (some s) (some n) = ok (some (s, n))
both _ _ = err invalid_identity

unfoldable pub identity_of :
    Option Value → Option Value → Result ControllerError (Option (String × ℕ))
identity_of none none = ok none
identity_of r g = both (record_text r) (generation_number g)

unfoldable pub identity : MessageEnvelope → Result ControllerError (Option (String × ℕ))
unfolding get identity_of
identity e =
    identity_of (present (get durable_record_header e.headers))
      (present (get durable_generation_header e.headers))

abbrev pub minute : ℕ
minute = 60 * 1000000

-- The instant of an aware datetime; `none` for a naive one.
abbrev pub instant : DateTime → Option ℕ
instant d = elim d.offset [
  | none ↦ none
  | some (pos n) ↦ some (d.wall - n * minute)
  | some (negsuc n) ↦ some (d.wall + (n + 1) * minute)
]

abbrev pub timed : Option ℕ → Result ControllerError (Option ℕ)
timed none = err invalid_timing
timed (some t) = ok (some t)

abbrev pub parsed_timing : Option DateTime → Result ControllerError (Option ℕ)
parsed_timing none = err invalid_timing
parsed_timing (some d) = timed (instant d)

unfoldable pub last_attempt_of : Stdlib → Option Value → Result ControllerError (Option ℕ)
last_attempt_of lib none = ok none
last_attempt_of lib (some (text s)) = parsed_timing (lib.parse_datetime s)
last_attempt_of lib (some _) = err invalid_timing

-- The admission that is passed to the store.
unfoldable pub admission :
    MessageEnvelope → String → ℕ → ℕ → ℕ → ℕ → String → ℕ → Option ℕ → DurableDeliveryAdmission
unfolding select is_reserved
admission e source_queue retry_count max_retries now delay record_id generation last_attempt_at =
    record {
      record_id = record_id;
      generation = generation;
      source_queue = source_queue;
      retry_count = retry_count;
      max_retries = max_retries;
      message_id = e.message_id;
      message_type = e.message_type;
      version = e.version;
      payload = e.payload;
      application_headers = select (λ k. not (is_reserved k)) e.headers;
      last_attempt_at = last_attempt_at;
      admitted_at = some now;
      reconciliation_due_at = some (now + delay);
    }

abbrev pub Decided : Type 0
Decided = Result ControllerError (Option DurableDeliveryDecision)

abbrev pub decided : Result StoreError DurableDeliveryDecision × Db → Decided × Db
decided (ok d, db) = (ok (some d), db)
decided (err e, db) = (err (store_error e), db)

-- `now` is the controller's clock reading, `later` the store's.
module _ (lib : Stdlib) (now later delay : ℕ) where
  unfoldable pub admit_identified :
      MessageEnvelope → String → ℕ → ℕ → Option (String × ℕ) → Db → Decided × Db
  unfolding admission last_attempt_of admit_delivery
  admit_identified e source_queue retry_count max_retries none db = (ok none, db)
  admit_identified e source_queue retry_count max_retries (some (record_id, generation)) db =
      if not (e.message_kind == "command")
      then (err not_a_command, db)
      else elim (last_attempt_of lib (present (get "last_attempt" e.headers))) [
        | err error ↦ (err error, db)
        | ok last ↦ decided (
            admit_delivery lib later
              (admission e source_queue retry_count max_retries now delay record_id generation last)
              db)
      ]

  unfoldable pub admit_envelope : MessageEnvelope → String → ℕ → ℕ → Db → Decided × Db
  unfolding identity admit_identified
  admit_envelope e source_queue retry_count max_retries db = elim (identity e) [
    | err error ↦ (err error, db)
    | ok known ↦ admit_identified e source_queue retry_count max_retries known db
  ]

-- `Listener._retry_count`: a typed message keeps its payload to itself.
unfoldable pub retry_count_of : Stdlib → Bool → MessageEnvelope → ℕ
unfolding resolve_retry_count
retry_count_of lib is_typed e =
    resolve_retry_count lib (if is_typed then null else e.payload) e.headers
