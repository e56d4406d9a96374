-- ===== src/Listener/Settling.antt =====
-- How a claimed message is settled: sent again, dead-lettered, continued on another queue, or answered:
-- src/pybus/listener.py. `fresh` is the id that `MessageEnvelope.create` makes for an empty one.
use pybus.Codec.{Fields, Stdlib, Value, dict, end, field, int, text}
use pybus.Codec.Dict.{put}
use pybus.Durable.Envelope.{MessageEnvelope, in_utc}
use pybus.Durable.Queries.{or_text}
use pybus.Durable.Types.{CommandDeliveryStatus, continued, retry_scheduled}
use pybus.Listener.{
  Action, Claimed, HandlerSpec, Listener, Purpose, ResponseMessage, continuation,
  dead_letter_publication, decode_failure_publication, indeterminate_delivery, is_typed,
  max_retries_for, response_publication, retry_count, retry_requeue, sleep_raised, slept,
  terminal_queue, unknown_queue,
}
use pybus.Listener.Effects.{
  checkpoint_durable_settlement, hand_over, log_event, notify_command_outcome, sleep,
}
use pybus.Prelude.{
  Bool, Option, String, eqb, false, if◌then◌else◌, is_some, ltb, none, not, some, true, ℕ, ◌&&◌,
  ◌+◌, ◌==◌,
}
use pybus.Prelude.Exec.{err, ok, raise, ◌>>◌, ◌>>◌}
use pybus.Prelude.Int.{pos}
use pybus.Queues.{has_queue}
use pybus.Retries.{next_retry_payload}

abbrev pub default_reply_queue : String
default_reply_queue = "pybus.responses"

-- `payload` of the copy; a typed message keeps its payload to itself.
abbrev pub copied_payload : Stdlib → Bool → ℕ → ℕ → Value → Value
copied_payload lib false now retries (dict d) =
    dict (next_retry_payload lib (in_utc now) (some retries) d)
copied_payload lib is_typed now retries payload = payload

-- `MessageEnvelope.create` with the fields of `e`, but for these.
unfoldable pub copy_envelope : MessageEnvelope → String → Value → Fields → MessageEnvelope
copy_envelope e fresh payload headers = record e {
  message_id = or_text (some e.message_id) fresh;
  payload = payload;
  headers = headers;
}

module _ (l : Listener) where
  unfoldable pub retry_envelope : MessageEnvelope → String → ℕ → MessageEnvelope
  unfolding copy_envelope retry_count is_typed next_retry_payload put
  retry_envelope e fresh now =
      copy_envelope e fresh (copied_payload l.lib (is_typed l e) now (retry_count l e) e.payload) (
        put "last_attempt" (text (l.lib.datetime_text (in_utc now)))
          (put "retries" (int (pos (retry_count l e + 1))) e.headers))

  unfoldable pub dead_letter_envelope : MessageEnvelope → String → String → MessageEnvelope
  unfolding copy_envelope put
  dead_letter_envelope e fresh channel =
      copy_envelope e fresh e.payload (put "dead_lettered_from" (text channel) e.headers)

  -- The checkpoint, the publication, the acknowledgement and the notice that all settlements share.
  unfoldable pub settle_as :
      Purpose
      → CommandDeliveryStatus
      → String
      → String
      → MessageEnvelope
      → MessageEnvelope
      → ℕ
      → ℕ
      → Option ℕ
      → Option String
      → Action (Unit {0})
  unfolding checkpoint_durable_settlement hand_over notify_command_outcome
  settle_as purpose status channel destination e copy count max_retries last_attempt_at receipt = do
    checkpoint_durable_settlement l e status channel (some destination) count max_retries
        last_attempt_at receipt
    hand_over l purpose destination copy receipt
    notify_command_outcome l e status channel (some destination) count max_retries true

  unfoldable pub requeue_now : String → MessageEnvelope → ℕ → Option String → Action (Unit {0})
  unfolding retry_envelope settle_as retry_count
  requeue_now channel e max_retries receipt w =
      settle_as retry_requeue retry_scheduled channel channel e
        (retry_envelope e (l.fresh_text w.log) (l.now w.log)) (retry_count l e + 1) max_retries
        (some (l.now w.log)) receipt w

  -- `_requeue`
  unfoldable pub requeue : String → MessageEnvelope → ℕ → Option String → Action (Unit {0})
  unfolding sleep requeue_now retry_count
  requeue channel e max_retries receipt = do
    sleep l (l.next_delay (retry_count l e))
    requeue_now channel e max_retries receipt

  -- `_dead_letter`
  unfoldable pub dead_letter : String → MessageEnvelope → ℕ → Option String → Action (Unit {0})
  unfolding dead_letter_envelope settle_as retry_count
  dead_letter channel e max_retries receipt w =
      settle_as dead_letter_publication CommandDeliveryStatus.dead_lettered channel
        l.dead_letter_channel e (dead_letter_envelope e (l.fresh_text w.log) channel)
        (retry_count l e) max_retries none receipt w

  -- `time.sleep`, which does not raise.
  abbrev pub pause : ℕ → Action (Unit {0})
  pause delay w = (ok tt, if eqb delay 0 then w else log_event (slept delay) w)

  -- `_handle_failed_delivery`
  unfoldable pub handle_failed_delivery :
      String → MessageEnvelope → HandlerSpec → Option String → Action (Unit {0})
  unfolding requeue dead_letter retry_count
  handle_failed_delivery channel e spec receipt =
      if ltb (retry_count l e) (max_retries_for l spec)
      then pause spec.delay >> requeue channel e (max_retries_for l spec) receipt
      else dead_letter channel e (max_retries_for l spec) receipt

  -- `continuation.queue is not None and …`
  unfoldable pub unknown_target : Option String → String → String → Bool
  unfolding has_queue
  unknown_target queue target channel =
      is_some queue
      && not (target == channel)
      && (elim l.topology [ none ↦ false | some t ↦ not (has_queue t target) ])

  -- The delay of a continuation: what raises here is an `IndeterminateDeliveryError`.
  unfoldable pub continuation_sleep : ℕ → Action (Unit {0})
  continuation_sleep delay w =
      if eqb delay 0
      then (ok tt, w)
      else if l.sleep_raises w.log delay
      then (err indeterminate_delivery, log_event (sleep_raised delay) w)
      else (ok tt, log_event (slept delay) w)

  -- `_continue_processing`
  unfoldable pub continue_processing :
      String → MessageEnvelope → Option String → ℕ → ℕ → Option String → Action (Unit {0})
  unfolding unknown_target continuation_sleep settle_as retry_count
  continue_processing channel e queue delay max_retries receipt =
      let target = or_text queue channel in
      if target == l.dead_letter_channel
      then raise terminal_queue
      else if unknown_target queue target channel
      then raise unknown_queue
      else do
        continuation_sleep delay
        settle_as continuation continued channel target e e (retry_count l e) max_retries none
            receipt

  -- The envelope of a response; its payload and headers are encoded ones.
  unfoldable pub response_envelope :
      MessageEnvelope → ResponseMessage → String → ℕ → MessageEnvelope
  response_envelope e response fresh now = record {
    message_id = fresh;
    message_type = response.message_type;
    message_kind = "response";
    version = response.version;
    payload = response.payload;
    headers = response.headers;
    created_at = now;
    correlation_id = e.correlation_id;
    causation_id = some e.message_id;
    reply_to = some (or_text e.reply_to default_reply_queue);
    expires_at = response.expires_at;
    content_type = response.content_type;
    content_encoding = response.content_encoding;
  }

  -- `_publish_response`; `store_now` is the system's clock.
  unfoldable pub publish_response :
      MessageEnvelope → ResponseMessage → Option String → Action (Unit {0})
  unfolding response_envelope hand_over
  publish_response e response receipt w =
      let answer = response_envelope e response (l.fresh_text w.log) (l.store_now w.log) in
      let queue = or_text e.reply_to default_reply_queue in
      hand_over l response_publication queue answer receipt w

  -- The envelope that stands for a message that does not decode.
  unfoldable pub poison_envelope : String → Claimed → String → ℕ → MessageEnvelope
  poison_envelope channel raw fresh now = record {
    message_id = fresh;
    message_type = "pybus.message.decode_failed";
    message_kind = "event";
    version = 1;
    payload = dict (
        field "raw_message" (text raw.raw_message) (
          field "raw_message_encoding" (text "base64")
            (field "error_type" (text raw.error_type) end)));
    headers = field "dead_lettered_from" (text channel) end;
    created_at = now;
    correlation_id = none;
    causation_id = none;
    reply_to = none;
    expires_at = none;
    content_type = none;
    content_encoding = none;
  }

  -- `_dead_letter_undecodable`
  unfoldable pub dead_letter_undecodable : String → Claimed → Action (Unit {0})
  unfolding poison_envelope hand_over
  dead_letter_undecodable channel raw w =
      let poison = poison_envelope channel raw (l.fresh_text w.log) (l.store_now w.log) in
      hand_over l decode_failure_publication l.dead_letter_channel poison raw.receipt w
