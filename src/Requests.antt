-- ===== src/Requests.antt =====
-- src/pybus/request_response.py: requests that wait for their responses. A call that holds the condition's
-- lock is one step; a round of the waiting loop is a step of its own, so that any interleaving of threads
-- is a list of steps. Times are in microseconds, with the timeout; the codec of the payload is a parameter.
pub mod Laws
pub mod Waiting
pub mod Answers
use mathlib.Core.Option
use pybus.Codec.{Fields, Value}
use pybus.Durable.Envelope.{MessageEnvelope}
use pybus.Durable.Queries.{or_text}
use pybus.Listener.{ResponseMessage}
use pybus.Prelude.{Bool, Option, String, if◌then◌else◌, leb, none, some, some_and, ℕ, ◌+◌, ◌==◌}
use pybus.Prelude.Exec.{Exec, err, ok, raise}

pub record RequestTicket : Type 0 where
  pub ticket_correlation : String
  pub request_id : String
  pub reply_queue : String
  pub valid_until : Option ℕ

-- What the coordinator reads of a `RequestMessage`.
pub record RequestMessage : Type 0 where
  pub request_type : String
  pub request_version : ℕ
  pub request_payload : Value
  pub request_headers : Fields
  pub given_correlation : Option String
  pub given_causation : Option String
  pub request_content_type : Option String
  pub request_content_encoding : Option String

-- `encode(headers)` and `encode(payload, context=headers)` of the payload codec
pub record PayloadCodec : Type 0 where
  pub encode_headers : Fields → Fields
  pub encode_payload : Value → Fields → Value

-- The two dictionaries of the coordinator.
pub record RequestResponseCoordinator : Type 0 where
  pub responses : String → Option MessageEnvelope
  pub deadlines : String → Option ℕ

abbrev pub new_coordinator : RequestResponseCoordinator
new_coordinator = record { responses = λ c. none; deadlines = λ c. none }

pub data CoordinatorError : Type 0 where
  no_correlation_id message_timeout : CoordinatorError

abbrev pub Coordinated : Type 0 → Type 0
Coordinated A = Exec RequestResponseCoordinator CoordinatorError A

abbrev pub put_key : {A : Type 0} → String → Option A → (String → Option A) → String → Option A
put_key k v d k' = if k' == k then v else d k'

-- `fresh_request` and `fresh_correlation` are the ids that are made when none is given.
unfoldable pub prepare_request :
    PayloadCodec
    → RequestMessage
    → Option ℕ
    → Option String
    → String
    → ℕ
    → String
    → String
    → MessageEnvelope × RequestTicket
prepare_request codec m timeout message_id reply_to created_at fresh_request fresh_correlation =
    let given_id : String = or_text message_id fresh_request in
    let correlation : String = or_text m.given_correlation fresh_correlation in
    let until : Option ℕ = Option.map (λ t. created_at + t) timeout in
    (
      record {
        message_id = or_text (some given_id) fresh_request;
        message_type = m.request_type;
        message_kind = "request";
        version = m.request_version;
        payload = codec.encode_payload m.request_payload m.request_headers;
        headers = codec.encode_headers m.request_headers;
        created_at = created_at;
        correlation_id = some correlation;
        causation_id = m.given_causation;
        reply_to = some reply_to;
        expires_at = until;
        content_type = m.request_content_type;
        content_encoding = m.request_content_encoding;
      },
      record {
        ticket_correlation = correlation;
        request_id = given_id;
        reply_queue = reply_to;
        valid_until = until;
      },
    )

unfoldable pub prepare_response :
    PayloadCodec → MessageEnvelope → ResponseMessage → Option String → ℕ → String → MessageEnvelope
prepare_response codec e response message_id created_at fresh = record {
  message_id = or_text message_id fresh;
  message_type = response.message_type;
  message_kind = "response";
  version = response.version;
  payload = codec.encode_payload response.payload response.headers;
  headers = codec.encode_headers response.headers;
  created_at = created_at;
  correlation_id = e.correlation_id;
  causation_id = some e.message_id;
  reply_to = e.reply_to;
  expires_at = response.expires_at;
  content_type = response.content_type;
  content_encoding = response.content_encoding;
}

-- `deadline is not None and now >= deadline`
abbrev pub has_passed : ℕ → Option ℕ → Bool
has_passed now deadline = some_and (λ d. leb d now) deadline

-- `_evict_expired`
unfoldable pub evict_expired : ℕ → RequestResponseCoordinator → RequestResponseCoordinator
evict_expired now k = record {
  responses = λ c. if has_passed now (k.deadlines c) then none else k.responses c;
  deadlines = λ c. if has_passed now (k.deadlines c) then none else k.deadlines c;
}

abbrev pub put_response :
    String → MessageEnvelope → RequestResponseCoordinator → RequestResponseCoordinator
put_response c e k = record k { responses = put_key c (some e) k.responses }

unfoldable pub store_correlated : String → MessageEnvelope → ℕ → Coordinated (Unit {0})
unfolding evict_expired
store_correlated c e now k =
    let evicted : RequestResponseCoordinator = evict_expired now k in
    (ok tt, if has_passed now (k.deadlines c) then evicted else put_response c e evicted)

-- `store_response`; `now` is the clock under the lock.
unfoldable pub store_response : MessageEnvelope → ℕ → Coordinated (Unit {0})
unfolding store_correlated
store_response e now = elim e.correlation_id [
  | none ↦ raise no_correlation_id
  | some c ↦ if c == "" then raise no_correlation_id else store_correlated c e now
]

abbrev pub forget : String → RequestResponseCoordinator → RequestResponseCoordinator
forget c k = record {
  responses = put_key c none k.responses;
  deadlines = put_key c none k.deadlines;
}

unfoldable pub take_response : String → Coordinated (Option MessageEnvelope)
take_response c k = (ok (k.responses c), forget c k)

-- The start of `wait_for_response`, which sets a deadline if there is a timeout.
unfoldable pub begin_wait : String → Option ℕ → ℕ → Coordinated (Option ℕ)
begin_wait c none now k = (ok none, k)
begin_wait c (some timeout) now k = (
  ok (some (now + timeout)),
  record k { deadlines = put_key c (some (now + timeout)) k.deadlines },
)

-- A round of the loop of `wait_for_response`: the response, a timeout, or another wait.
unfoldable pub poll_response : String → Option ℕ → ℕ → Coordinated (Option MessageEnvelope)
poll_response c deadline now k = elim (k.responses c) [
  | some e ↦ (ok (some e), forget c k)
  | none ↦ (if has_passed now deadline then err message_timeout else ok none, k)
]
