-- ===== src/Redis/Orders.antt =====
-- What a round of the reaper does to the claims: src/pybus/integrations/redis.py.
pub mod Rounds
use pybus.Codec.{Fields, dict, text}
use pybus.Codec.Dict.{get}
use pybus.Durable.Envelope.{MessageEnvelope}
use pybus.Prelude.{List, String, [], none, some, ◌+◌, ◌<◌, ◌∷◌, ◌≡◌, ◌≤◌, ◌⊎◌}
use pybus.Redis.{
  ReaperEvent, ReaperLog, RedisReaperRunner, StaleClaim, claim_ack_failed, claim_acked,
  reclaim_count, reconciled, republish_failed, republished, stale_read,
}

-- One of the claims of a list.
pub data IsOneOf (s : StaleClaim) : List StaleClaim → Type 0 where
  first : {ss : List StaleClaim} → IsOneOf s (s ∷ ss)
  later : {t : StaleClaim} {ss : List StaleClaim} → IsOneOf s ss → IsOneOf s (t ∷ ss)

-- The runner has read the claim among the stale claims of the channel.
pub data WasRead (r : RedisReaperRunner) (channel : String) (s : StaleClaim)
    : ReaperLog → Type 0 where
  just_read :
      {log : ReaperLog} {ss : List StaleClaim}
      → r.stale_claims log channel ≡ some ss
      → IsOneOf s ss
      → WasRead r channel s (stale_read channel ∷ log)
  before :
      {event : ReaperEvent} {log : ReaperLog}
      → WasRead r channel s log
      → WasRead r channel s (event ∷ log)

-- The envelope says what the message says, under the message's id if it has one.
pub record SaysTheSame (e c : MessageEnvelope) : Type 0 where
  pub own : (e.message_id ≡ "") ⊎ (c.message_id ≡ e.message_id)
  pub about :
      (c.message_type ≡ e.message_type)
      × (c.message_kind ≡ e.message_kind)
      × (c.version ≡ e.version)
      × (c.payload ≡ e.payload)
  pub thread :
      (c.correlation_id ≡ e.correlation_id)
      × (c.causation_id ≡ e.causation_id)
      × (c.reply_to ≡ e.reply_to)

-- The claim's message stands in the envelope: a decoded one is sent back to its channel with one retry
-- more below the limit, and to the dead-letter channel, its origin noted, from the limit on; of one that
-- does not decode, the bytes are sent to the dead-letter channel.
pub data IsSentFor (r : RedisReaperRunner) (channel : String) (s : StaleClaim) (c : MessageEnvelope)
    : String → Type 0 where
  sent_back :
      {e : MessageEnvelope}
      → s.decoded ≡ some e
      → reclaim_count r e < r.max_reclaim_attempts
      → SaysTheSame e c
      → reclaim_count r c ≡ reclaim_count r e + 1
      → IsSentFor r channel s c channel
  dead_lettered_one :
      {e : MessageEnvelope}
      → s.decoded ≡ some e
      → r.max_reclaim_attempts ≤ reclaim_count r e
      → SaysTheSame e c
      → get "dead_lettered_from" c.headers ≡ some (text channel)
      → IsSentFor r channel s c r.failed_channel
  poison :
      {d : Fields}
      → s.decoded ≡ none
      → c.message_type ≡ "pybus.message.decode_failed"
      → c.payload ≡ dict d
      → get "raw_message" d ≡ some (text s.raw_base64)
      → get "dead_lettered_from" c.headers ≡ some (text channel)
      → IsSentFor r channel s c r.failed_channel

-- Only messages of claims that were read are sent, each where it belongs, and a claim is acknowledged only
-- right after its own message was sent.
pub data IsOrderly (r : RedisReaperRunner) : ReaperLog → Type 0 where
  nothing_yet : IsOrderly r []
  sent_on :
      {channel queue : String} {s : StaleClaim} {c : MessageEnvelope} {log : ReaperLog}
      → WasRead r channel s log
      → IsSentFor r channel s c queue
      → IsOrderly r log
      → IsOrderly r (republished queue c ∷ log)
  acked_for :
      {channel queue : String} {s : StaleClaim} {c : MessageEnvelope} {log : ReaperLog}
      → WasRead r channel s log
      → IsSentFor r channel s c queue
      → IsOrderly r (republished queue c ∷ log)
      → IsOrderly r (claim_acked s.claim_receipt ∷ republished queue c ∷ log)
  not_sent :
      {queue : String} {c : MessageEnvelope} {log : ReaperLog}
      → IsOrderly r log
      → IsOrderly r (republish_failed queue c ∷ log)
  not_acked :
      {receipt : String} {log : ReaperLog}
      → IsOrderly r log
      → IsOrderly r (claim_ack_failed receipt ∷ log)
  asked :
      {channel : String} {log : ReaperLog}
      → IsOrderly r log
      → IsOrderly r (reconciled channel ∷ log)
  looked :
      {channel : String} {log : ReaperLog}
      → IsOrderly r log
      → IsOrderly r (stale_read channel ∷ log)
