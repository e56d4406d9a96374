-- ===== src/Listener.antt =====
-- src/pybus/listener.py: what becomes of a message that was claimed from the transport. The outside of
-- the listener, that is the transport, the handlers, the observers, the payload decoder, clocks and
-- fresh ids, is a parameter whose answers may depend on everything that has happened: on the log of the
-- effects so far, the newest first.
pub mod Effects
pub mod Settling
pub mod Batches
pub mod Dispatching
pub mod Safety
pub mod Histories
use pybus.Codec.{Fields, Stdlib, Value}
use pybus.Durable.Controller.{retry_count_of}
use pybus.Durable.Envelope.{MessageEnvelope}
use pybus.Durable.Series.{HandlerResult}
use pybus.Durable.Settle.{CommandDeliveryOutcome}
use pybus.Durable.Types.{Db}
use pybus.Prelude.{Bool, List, Option, String, is_some, or_else, ℕ}
use pybus.Prelude.Exec.{Exec}
use pybus.Queues.{QueueTopology}
use pybus.Recurrence.{Calendar}
use pybus.Registry.{Handler, Registry, message_class_for}
use pybus.Registry.Table.{Key}
use pybus.Retries.{RetryPolicy}
use pybus.Stores.Memory.{consume, consume_many, size}

-- The actions that `_settle_after_claim` names.
pub data Purpose : Type 0 where
  retry_requeue dead_letter_publication continuation claim_recovery : Purpose
  decode_failure_publication response_publication batch_buffering : Purpose

pub record ResponseMessage : Type 0 where
  pub message_type : String
  pub version : ℕ
  pub payload : Value
  pub headers : Fields
  pub expires_at : Option ℕ
  pub content_type : Option String
  pub content_encoding : Option String

-- What a handler did: it raised, or returned `ContinueProcessing(queue, delay)`, a response, or a result
-- of another kind. A delay is in microseconds.
pub data HandlerOutcome : Type 0 where
  raised : HandlerOutcome
  continue_processing_on : Option String → ℕ → HandlerOutcome
  responded : ResponseMessage → HandlerOutcome
  returned : HandlerResult → HandlerOutcome

pub data Event : Type 0 where
  sent : Purpose → String → MessageEnvelope → Event
  send_failed : Purpose → String → MessageEnvelope → Event
  acked : String → Event
  ack_failed : String → Event
  handler_ran : Handler → HandlerOutcome → Event
  batch_ran : Handler → Bool → Event
  sized took : String → Event
  observed : ℕ → CommandDeliveryOutcome → Event
  observation_raised : ℕ → CommandDeliveryOutcome → Event
  slept : ℕ → Event
  sleep_raised : ℕ → Event

abbrev pub Log : Type 0
Log = List Event

-- What the listener reads of `HandlerSpec`, in src/pybus/handlers.py.
pub record HandlerSpec : Type 0 where
  pub retry_limit : Option ℕ
  pub delay : ℕ
  pub batched : Bool
  pub batch_size : ℕ
  pub max_wait : ℕ

-- A message that the transport has handed out: its receipt, the envelope that it decodes to, and for
-- one that does not decode its bytes in base64 and the name of the exception.
pub record Claimed : Type 0 where
  pub receipt : Option String
  pub envelope : Option MessageEnvelope
  pub raw_message : String
  pub error_type : String

-- A listener's attributes, and the outside; `none` is an exception.
pub record Listener : Type 0 where
  pub lib : Stdlib
  pub calendar : Calendar
  pub registry : Registry
  pub spec_for : Handler → HandlerSpec
  pub retry_policy : RetryPolicy
  pub next_delay : ℕ → ℕ
  pub dead_letter_channel : String
  pub topology : Option QueueTopology
  -- The reconciliation delay of the durable job controller, if there is one.
  pub controller : Option ℕ
  pub observers : List ℕ
  pub decodes : MessageEnvelope → Bool
  pub handle : Log → Handler → MessageEnvelope → HandlerOutcome
  -- Whether the transport has `size` and `consume_many`.
  pub has_size : Bool
  pub has_consume_many : Bool
  pub size : Log → String → Option ℕ
  pub consume_many : Log → String → ℕ → Option (List Claimed)
  pub consume : Log → String → Option (Option Claimed)
  pub batch_raises : Log → Handler → List MessageEnvelope → Bool
  pub publish_raises : Log → String → MessageEnvelope → Bool
  pub ack_raises : Log → String → Bool
  pub observer_raises : Log → ℕ → CommandDeliveryOutcome → Bool
  pub sleep_raises : Log → ℕ → Bool
  pub now : Log → ℕ
  pub store_now : Log → ℕ
  pub fresh_id : Log → ℕ
  pub fresh_text : Log → String

-- The listener's own state are the two dictionaries of its batches.
pub record World : Type 0 where
  pub batch_started_at : String → Option ℕ
  pub batch_retry_after : String → Option ℕ
  pub db : Db
  pub log : Log

-- The exceptions that a delivery may end with; `observation_failed` is a `WorkerAbortError` too.
pub data ListenerError : Type 0 where
  indeterminate_delivery worker_aborted observation_failed handler_not_found : ListenerError
  decode_failed sleep_failed unknown_queue terminal_queue transport_failed : ListenerError

abbrev pub Action : Type 0 → Type 0
Action A = Exec World ListenerError A

abbrev pub key_of : MessageEnvelope → Key
key_of e = (e.message_kind, e.message_type)

module _ (l : Listener) where
  -- `_is_typed`
  unfoldable pub is_typed : MessageEnvelope → Bool
  unfolding message_class_for
  is_typed e = is_some (message_class_for (key_of e) l.registry)

  -- `_retry_count`
  unfoldable pub retry_count : MessageEnvelope → ℕ
  unfolding is_typed retry_count_of
  retry_count e = retry_count_of l.lib (is_typed e) e

  -- `self.retry_policy.max_retries if spec.retry_limit is None else spec.retry_limit`
  abbrev pub max_retries_for : HandlerSpec → ℕ
  max_retries_for spec = or_else spec.retry_limit l.retry_policy.max_retries
