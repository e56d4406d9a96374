-- ===== src/Listener/Histories/Batches.antt =====
-- The batches of src/pybus/listener.py, as calls of the store.
use pybus.Durable.Envelope.{MessageEnvelope}
use pybus.Durable.Types.{Db}
use pybus.Listener.{
  Action, Claimed, HandlerSpec, Listener, World, batch_buffering, batch_ran,
  decode_failure_publication, max_retries_for, retry_count, sized, took,
}
use pybus.Listener.Batches.{
  Taken, ack_all, back_off, batch_in_backoff, batched_buffer_key, buffer_batched_message,
  clear_batch, decode_and_run, decode_batch, flush_batch, flush_handler, flush_handlers,
  flush_items, flush_ready_batches, flush_sized, just, mark_started, only_envelopes, run_batch,
  set_started, settle_batch, settle_failed_batch, size_of, take_many,
}
use pybus.Listener.Effects.{ack_claim, hand_over, log_event}
use pybus.Listener.Histories.{Work, Works, bind-Works, choose-Works, keep_db, pure-Works, stay}
use pybus.Listener.Histories.Effects.{ack_claim-Works, hand_over-Works}
use pybus.Listener.Histories.Settling.{dead_letter-Works, requeue-Works}
use pybus.Listener.Settling.{dead_letter, dead_letter_undecodable, poison_envelope, requeue}
use pybus.Prelude.{
  Bool, Bool-cases, List, Option, Option-cases, String, [], eqb, false, if◌then◌else◌, inl, inr,
  leb, ltb, none, not, or_else, refl, some, true, ℕ, ◌+◌, ◌==◌, ◌||◌, ◌∷◌, ◌≡◌,
}
use pybus.Prelude.Exec.{pure, ◌>>=◌, ◌>>◌}
use pybus.Registry.{Handler, items}
use pybus.Registry.Table.{Key}

module _ (l : Listener) where
  pub just-Works :
      {A : Type 0} (a : Option A) (db : Db) (w : World) → w.db ≡ db → Work l db (just a w).1.db
  just-Works none db w same = keep_db l db w.db same
  just-Works (some a) db w same = keep_db l db w.db same

  pub size_of-Works : (queue : String) → Works l (size_of l queue)
  unfolding size_of
  size_of-Works queue w = just-Works (l.size w.log queue) w.db (log_event (sized queue) w) refl

  take_many-Works : (queue : String) (n : ℕ) → Works l (take_many l queue n)
  unfolding take_many
  take_many-Works queue n w =
      just-Works (l.consume_many w.log queue n) w.db (log_event (took queue) w) refl

  pub undecodable-Works :
      (channel : String) (raw : Claimed) → Works l (dead_letter_undecodable l channel raw)
  unfolding dead_letter_undecodable
  undecodable-Works channel raw w =
      hand_over-Works l decode_failure_publication l.dead_letter_channel
        (poison_envelope l channel raw (l.fresh_text w.log) (l.store_now w.log)) raw.receipt w

  decode_batch-Works : (queue : String) (raws : List Claimed) → Works l (decode_batch l queue raws)
  unfolding decode_batch
  decode_batch-Works queue [] w = stay l w.db
  decode_batch-Works queue (raw ∷ raws) w =
      let rest : Action Taken = decode_batch l queue raws in
      let keeps : Works l rest = decode_batch-Works queue raws in
      let poison : Works l (dead_letter_undecodable l queue raw >> rest) =
        bind-Works l (dead_letter_undecodable l queue raw) (λ _. rest) (undecodable-Works queue raw)
          (λ _. keeps) in
      elim (Option-cases raw.envelope) [
        | inl bad ↦ rw (decode_batch, bad) (poison w)
        | inr (e, good) ↦
            rw (decode_batch, good)
              (choose-Works l (l.decodes e) (rest >>= λ taken. pure ((e, raw.receipt) ∷ taken))
                (dead_letter_undecodable l queue raw >> rest)
                (bind-Works l rest (λ taken. pure ((e, raw.receipt) ∷ taken)) keeps
                  (λ taken. pure-Works l ((e, raw.receipt) ∷ taken)))
                poison w)
      ]

  settle_failed_batch-Works :
      (queue : String) (spec : HandlerSpec) (taken : Taken) (requeued : Bool)
      → Works l (settle_failed_batch l queue spec taken requeued)
  unfolding settle_failed_batch
  settle_failed_batch-Works queue spec [] requeued = pure-Works l requeued
  settle_failed_batch-Works queue spec ((e, receipt) ∷ taken) requeued =
      let m : ℕ = max_retries_for l spec in
      choose-Works l (ltb (retry_count l e) m)
        (requeue l queue e m receipt >> settle_failed_batch l queue spec taken true)
        (dead_letter l queue e m receipt >> settle_failed_batch l queue spec taken requeued)
        (bind-Works l (requeue l queue e m receipt)
          (λ _. settle_failed_batch l queue spec taken true) (requeue-Works l e queue m receipt)
          (λ _. settle_failed_batch-Works queue spec taken true))
        (bind-Works l (dead_letter l queue e m receipt)
          (λ _. settle_failed_batch l queue spec taken requeued)
          (dead_letter-Works l e queue m receipt)
          (λ _. settle_failed_batch-Works queue spec taken requeued))

  ack_all-Works : (taken : Taken) → Works l (ack_all l taken)
  unfolding ack_all
  ack_all-Works [] = pure-Works l tt
  ack_all-Works ((e, receipt) ∷ taken) =
      bind-Works l (ack_claim l receipt) (λ _. ack_all l taken) (ack_claim-Works l receipt)
        (λ _. ack_all-Works taken)

  settle_batch-Works :
      (t : String) (handler : Handler) (spec : HandlerSpec) (taken : Taken)
      → Works l (settle_batch l t handler spec taken)
  unfolding settle_batch
  settle_batch-Works t handler spec taken w =
      let failed : Bool = l.batch_raises w.log handler (only_envelopes l taken) in
      let again : Action Bool = settle_failed_batch l (batched_buffer_key t) spec taken false in
      choose-Works l failed (again >>= back_off l t spec.max_wait)
        (ack_all l taken >> clear_batch l t)
        (bind-Works l again (back_off l t spec.max_wait)
          (settle_failed_batch-Works (batched_buffer_key t) spec taken false)
          (λ requeued w'. stay l w'.db))
        (bind-Works l (ack_all l taken) (λ _. clear_batch l t) (ack_all-Works taken)
          (λ _ w'. stay l w'.db))
        (log_event (batch_ran handler failed) w)

  run_batch-Works :
      (t : String) (handler : Handler) (spec : HandlerSpec) (taken : Taken)
      → Works l (run_batch l t handler spec taken)
  unfolding run_batch
  run_batch-Works t handler spec [] w = stay l w.db
  run_batch-Works t handler spec (one ∷ taken) w = settle_batch-Works t handler spec (one ∷ taken) w

  decode_and_run-Works :
      (t : String) (handler : Handler) (spec : HandlerSpec) (raws : List Claimed)
      → Works l (decode_and_run l t handler spec raws)
  decode_and_run-Works t handler spec [] = pure-Works l tt
  decode_and_run-Works t handler spec (raw ∷ raws) =
      bind-Works l (decode_batch l (batched_buffer_key t) (raw ∷ raws)) (run_batch l t handler spec)
        (decode_batch-Works (batched_buffer_key t) (raw ∷ raws)) (run_batch-Works t handler spec)

  flush_batch-Works :
      (t : String) (handler : Handler) (spec : HandlerSpec) → Works l (flush_batch l t handler spec)
  unfolding flush_batch
  flush_batch-Works t handler spec =
      bind-Works l (take_many l (batched_buffer_key t) spec.batch_size)
        (decode_and_run l t handler spec) (take_many-Works (batched_buffer_key t) spec.batch_size)
        (decode_and_run-Works t handler spec)

  flush_sized-Works :
      (t : String) (handler : Handler) (spec : HandlerSpec) (buffer_size : ℕ)
      → Works l (flush_sized l t handler spec buffer_size)
  unfolding flush_sized
  flush_sized-Works t handler spec buffer_size w =
      let started_at : ℕ = or_else (w.batch_started_at t) (l.now w.log) in
      let is_ready : Bool =
        leb spec.batch_size buffer_size || leb (started_at + spec.max_wait) (l.now w.log) in
      elim (Bool-cases (eqb buffer_size 0)) [
        | inl empty ↦ rw (flush_sized, empty) (stay l w.db)
        | inr filled ↦
            rw (flush_sized, filled)
              (choose-Works l is_ready (flush_batch l t handler spec) (pure tt)
                (flush_batch-Works t handler spec) (pure-Works l tt)
                (set_started t (some started_at) w))
      ]

  flush_handler-Works : (t : String) (handler : Handler) → Works l (flush_handler l t handler)
  unfolding flush_handler
  flush_handler-Works t handler w =
      let spec : HandlerSpec = l.spec_for handler in
      elim (Bool-cases (not spec.batched || batch_in_backoff l t w)) [
        | inl idle ↦ rw (flush_handler, idle) (stay l w.db)
        | inr due ↦
            rw (flush_handler, due)
              (bind-Works l (size_of l (batched_buffer_key t)) (flush_sized l t handler spec)
                (size_of-Works (batched_buffer_key t)) (flush_sized-Works t handler spec) w)
      ]

  flush_handlers-Works : (t : String) (hs : List Handler) → Works l (flush_handlers l t hs)
  unfolding flush_handlers
  flush_handlers-Works t [] = pure-Works l tt
  flush_handlers-Works t (h ∷ hs) =
      bind-Works l (flush_handler l t h) (λ _. flush_handlers l t hs) (flush_handler-Works t h)
        (λ _. flush_handlers-Works t hs)

  flush_items-Works : (rows : List (Key × List Handler)) → Works l (flush_items l rows)
  unfolding flush_items
  flush_items-Works [] = pure-Works l tt
  flush_items-Works ((key, hs) ∷ rest) =
      let after : Action (Unit {0}) = flush_items l rest in
      let keeps : Works l after = flush_items-Works rest in
      choose-Works l (key.0 == "event") (flush_handlers l key.1 hs >> after) after
        (bind-Works l (flush_handlers l key.1 hs) (λ _. after) (flush_handlers-Works key.1 hs)
          (λ _. keeps))
        keeps

  pub flush_ready_batches-Works : Works l (flush_ready_batches l)
  unfolding flush_ready_batches
  flush_ready_batches-Works =
      choose-Works l (not l.has_size || not l.has_consume_many) (pure tt)
        (flush_items l (items l.registry)) (pure-Works l tt) (flush_items-Works (items l.registry))

  pub buffer-Works :
      (e : MessageEnvelope) (receipt : Option String) → Works l (buffer_batched_message l e receipt)
  unfolding buffer_batched_message
  buffer-Works e receipt =
      let queue : String = batched_buffer_key e.message_type in
      let put_in : Action (Unit {0}) = hand_over l batch_buffering queue e receipt in
      choose-Works l (not l.has_size) (pure tt)
        (size_of l queue >>= λ n. mark_started l e.message_type n >> put_in) (pure-Works l tt)
        (bind-Works l (size_of l queue) (λ n. mark_started l e.message_type n >> put_in)
          (size_of-Works queue)
          (λ n.
            bind-Works l (mark_started l e.message_type n) (λ _. put_in) (λ w. marked (eqb n 0) w)
              (λ _. hand_over-Works l batch_buffering queue e receipt)))
    where
      marked :
          (b : Bool) (w : World)
          → Work l w.db (if b then set_started e.message_type (some (l.now w.log)) w else w).db
      marked true w = stay l w.db
      marked false w = stay l w.db
