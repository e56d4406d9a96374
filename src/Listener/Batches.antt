-- ===== src/Listener/Batches.antt =====
-- The messages of batched handlers, which wait in a buffer queue of their own: `_flush_ready_batches`,
-- `_buffer_batched_message` and `_flush_batch` of src/pybus/listener.py.
use pybus.Durable.Envelope.{MessageEnvelope}
use pybus.Listener.{
  Action, Claimed, HandlerSpec, Listener, World, batch_buffering, batch_ran, max_retries_for,
  retry_count, sized, took, transport_failed,
}
use pybus.Listener.Effects.{ack_claim, hand_over, log_event}
use pybus.Listener.Settling.{dead_letter, dead_letter_undecodable, requeue}
use pybus.Prelude.{
  Bool, List, Option, String, [], eqb, false, if◌then◌else◌, leb, ltb, none, not, or_else, some,
  some_and, true, ℕ, ◌+◌, ◌==◌, ◌||◌, ◌∷◌,
}
use pybus.Prelude.Exec.{err, ok, pure, ◌>>=◌, ◌>>=◌, ◌>>◌, ◌>>◌}
use pybus.Prelude.Texts.{concat}
use pybus.Registry.{Handler, items}
use pybus.Registry.Table.{Key}

-- `batched_buffer_key`, in src/pybus/batching.py
unfoldable pub batched_buffer_key : String → String
batched_buffer_key message_type = concat "batched:" message_type

-- A dictionary, as a function.
abbrev pub put_at : String → Option ℕ → (String → Option ℕ) → String → Option ℕ
put_at k v d k' = if k' == k then v else d k'

abbrev pub set_started : String → Option ℕ → World → World
set_started t v w = record w { batch_started_at = put_at t v w.batch_started_at }

abbrev pub set_backoff : String → Option ℕ → World → World
set_backoff t v w = record w { batch_retry_after = put_at t v w.batch_retry_after }

-- What a batch is made of: the envelopes that decode, with their receipts.
abbrev pub Taken : Type 0
Taken = List (MessageEnvelope × Option String)

abbrev pub just : {A : Type 0} → Option A → Action A
just none w = (err transport_failed, w)
just (some a) w = (ok a, w)

module _ (l : Listener) where
  unfoldable pub size_of : String → Action ℕ
  size_of queue w = just (l.size w.log queue) (log_event (sized queue) w)

  unfoldable pub take_many : String → ℕ → Action (List Claimed)
  take_many queue n w = just (l.consume_many w.log queue n) (log_event (took queue) w)

  -- The loop that decodes the messages of a batch.
  unfoldable pub decode_batch : String → List Claimed → Action Taken
  unfolding dead_letter_undecodable
  decode_batch queue [] = pure []
  decode_batch queue (raw ∷ raws) =
      let rest = decode_batch queue raws in
      elim raw.envelope [
        | none ↦ dead_letter_undecodable l queue raw >> rest
        | some e ↦
            if l.decodes e
            then (rest >>= λ taken. pure ((e, raw.receipt) ∷ taken))
            else dead_letter_undecodable l queue raw >> rest
      ]

  -- The loop after a failure; the answer says whether a message was sent again.
  unfoldable pub settle_failed_batch : String → HandlerSpec → Taken → Bool → Action Bool
  unfolding requeue dead_letter retry_count
  settle_failed_batch queue spec [] requeued = pure requeued
  settle_failed_batch queue spec ((e, receipt) ∷ taken) requeued =
      let again = settle_failed_batch queue spec taken true in
      let rest = settle_failed_batch queue spec taken requeued in
      if ltb (retry_count l e) (max_retries_for l spec)
      then requeue l queue e (max_retries_for l spec) receipt >> again
      else dead_letter l queue e (max_retries_for l spec) receipt >> rest

  unfoldable pub ack_all : Taken → Action (Unit {0})
  unfolding ack_claim
  ack_all [] = pure tt
  ack_all ((e, receipt) ∷ taken) = ack_claim l receipt >> ack_all taken

  abbrev pub clear_batch : String → Action (Unit {0})
  clear_batch t w = (ok tt, set_backoff t none (set_started t none w))

  abbrev pub back_off : String → ℕ → Bool → Action (Unit {0})
  back_off t max_wait requeued w =
      (ok tt, set_backoff t (if requeued then some (l.now w.log + max_wait) else none) w)

  abbrev pub only_envelopes : Taken → List MessageEnvelope
  only_envelopes [] = []
  only_envelopes ((e, receipt) ∷ taken) = e ∷ only_envelopes taken

  unfoldable pub settle_batch : String → Handler → HandlerSpec → Taken → Action (Unit {0})
  unfolding settle_failed_batch ack_all batched_buffer_key
  settle_batch t handler spec taken w =
      let failed : Bool = l.batch_raises w.log handler (only_envelopes taken) in
      let after : Action (Unit {0}) =
        (if failed
          then (settle_failed_batch (batched_buffer_key t) spec taken false
              >>= back_off t spec.max_wait)
          else (ack_all taken >> clear_batch t)) in
      after (log_event (batch_ran handler failed) w)

  unfoldable pub run_batch : String → Handler → HandlerSpec → Taken → Action (Unit {0})
  unfolding settle_batch
  run_batch t handler spec [] = clear_batch t
  run_batch t handler spec (one ∷ taken) = settle_batch t handler spec (one ∷ taken)

  abbrev pub decode_and_run : String → Handler → HandlerSpec → List Claimed → Action (Unit {0})
  decode_and_run t handler spec [] = pure tt
  decode_and_run t handler spec (raw ∷ raws) =
      decode_batch (batched_buffer_key t) (raw ∷ raws) >>= run_batch t handler spec

  -- `_flush_batch`
  unfoldable pub flush_batch : String → Handler → HandlerSpec → Action (Unit {0})
  unfolding take_many decode_batch run_batch batched_buffer_key
  flush_batch t handler spec =
      take_many (batched_buffer_key t) spec.batch_size >>= decode_and_run t handler spec

  unfoldable pub batch_in_backoff : String → World → Bool
  batch_in_backoff t w = some_and (λ retry_at. ltb (l.now w.log) retry_at) (w.batch_retry_after t)

  -- What `_flush_ready_batches` does once the size of the buffer is known.
  unfoldable pub flush_sized : String → Handler → HandlerSpec → ℕ → Action (Unit {0})
  unfolding flush_batch
  flush_sized t handler spec buffer_size w =
      let started_at : ℕ = or_else (w.batch_started_at t) (l.now w.log) in
      let is_ready : Bool =
        leb spec.batch_size buffer_size || leb (started_at + spec.max_wait) (l.now w.log) in
      if eqb buffer_size 0
      then (ok tt, set_started t none w)
      else (if is_ready then flush_batch t handler spec else pure tt)
          (set_started t (some started_at) w)

  unfoldable pub flush_handler : String → Handler → Action (Unit {0})
  unfolding batch_in_backoff size_of flush_sized batched_buffer_key
  flush_handler t handler w =
      if not (l.spec_for handler).batched || batch_in_backoff t w
      then (ok tt, w)
      else (size_of (batched_buffer_key t) >>= flush_sized t handler (l.spec_for handler)) w

  unfoldable pub flush_handlers : String → List Handler → Action (Unit {0})
  unfolding flush_handler
  flush_handlers t [] = pure tt
  flush_handlers t (h ∷ hs) = flush_handler t h >> flush_handlers t hs

  unfoldable pub flush_items : List (Key × List Handler) → Action (Unit {0})
  unfolding flush_handlers
  flush_items [] = pure tt
  flush_items ((key, hs) ∷ rest) =
      let after = flush_items rest in
      if key.0 == "event" then flush_handlers key.1 hs >> after else after

  -- `_flush_ready_batches`
  unfoldable pub flush_ready_batches : Action (Unit {0})
  unfolding flush_items
  flush_ready_batches =
      if not l.has_size || not l.has_consume_many then pure tt else flush_items (items l.registry)

  abbrev pub mark_started : String → ℕ → Action (Unit {0})
  mark_started t buffer_size w =
      (ok tt, if eqb buffer_size 0 then set_started t (some (l.now w.log)) w else w)

  -- `_buffer_batched_message`; the decoded message has the envelope's type.
  unfoldable pub buffer_batched_message : MessageEnvelope → Option String → Action (Unit {0})
  unfolding size_of batched_buffer_key hand_over
  buffer_batched_message e receipt =
      let queue = batched_buffer_key e.message_type in
      if not l.has_size then pure tt else (do
        buffer_size ← size_of queue
        mark_started e.message_type buffer_size
        hand_over l batch_buffering queue e receipt)
