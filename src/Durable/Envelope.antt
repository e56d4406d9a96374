-- ===== src/Durable/Envelope.antt =====
-- The envelope of a delivery: `MessageEnvelope.create` of src/pybus/envelope.py,
-- `DurableJobClaim.delivery_envelope` of src/pybus/durable.py, and the reserved headers of
-- src/pybus/bus.py. An aware time of the database is written in UTC.
use pybus.Codec.{DateTime, Fields, Stdlib, Value, end, field, int, null, text}
use pybus.Codec.Dict.{put}
use pybus.Durable.Claim.{DurableJobClaim}
use pybus.Durable.Queries.{is_dead_letter, or_text}
use pybus.Prelude.{Bool, Option, String, eqb, false, if◌then◌else◌, none, some, ℕ, ◌==◌, ◌||◌}
use pybus.Prelude.Int.{pos}

pub record MessageEnvelope : Type 0 where
  pub message_id : String
  pub message_type : String
  pub message_kind : String
  pub version : ℕ
  pub payload : Value
  pub headers : Fields
  pub created_at : ℕ
  pub correlation_id : Option String
  pub causation_id : Option String
  pub reply_to : Option String
  pub expires_at : Option ℕ
  pub content_type : Option String
  pub content_encoding : Option String

abbrev pub durable_record_header : String
durable_record_header = "pybus_durable_record"

abbrev pub durable_generation_header : String
durable_generation_header = "pybus_durable_generation"

-- The keys that admission takes out of the headers, and that an application may not set.
unfoldable pub is_reserved : String → Bool
is_reserved k =
    k == durable_record_header
    || k == durable_generation_header
    || k == "dead_lettered_from"
    || k == "last_attempt"
    || k == "retries"

-- `_copy_headers` refuses headers with a reserved key.
unfoldable pub has_reserved : Fields → Bool
unfolding is_reserved
has_reserved end = false
has_reserved (field k v rest) = is_reserved k || has_reserved rest

-- An instant in microseconds, as an aware datetime in UTC.
abbrev pub in_utc : ℕ → DateTime
in_utc t = record { wall = t; offset = some (pos 0) }

abbrev pub text_or_null : Option String → Value
text_or_null none = null
text_or_null (some s) = text s

-- `if self.retry_count: headers["retries"] = self.retry_count`
unfoldable pub retries_header : ℕ → Fields → Fields
unfolding put
retries_header retry_count headers =
    if eqb retry_count 0 then headers else put "retries" (int (pos retry_count)) headers

unfoldable pub attempt_header : Stdlib → Option ℕ → Fields → Fields
unfolding put
attempt_header lib none headers = headers
attempt_header lib (some t) headers =
    put "last_attempt" (text (lib.datetime_text (in_utc t))) headers

unfoldable pub dead_letter_header : DurableJobClaim → Fields → Fields
unfolding put
dead_letter_header c headers =
    if is_dead_letter c.settlement_status
    then put "dead_lettered_from" (text_or_null c.settlement_source) headers
    else headers

unfoldable pub delivery_headers : Stdlib → DurableJobClaim → Fields
unfolding retries_header attempt_header dead_letter_header put
delivery_headers lib c = put durable_generation_header (int (pos c.generation)) (
    put durable_record_header (text (lib.uuid_text c.id)) (
      dead_letter_header c
        (attempt_header lib c.last_attempt_at (retries_header c.retry_count c.headers))))

-- `MessageEnvelope.create` falls back on a fresh id, `fresh`, for an empty one.
unfoldable pub delivery_envelope : Stdlib → String → DurableJobClaim → MessageEnvelope
unfolding delivery_headers
delivery_envelope lib fresh c = record {
  message_id = or_text (some c.message_id) fresh;
  message_type = c.message_type;
  message_kind = "command";
  version = c.version;
  payload = c.payload;
  headers = delivery_headers lib c;
  created_at = c.created_at;
  correlation_id = none;
  causation_id = none;
  reply_to = none;
  expires_at = none;
  content_type = none;
  content_encoding = none;
}
