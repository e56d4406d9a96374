-- ===== src/Redis.antt =====
-- `RedisReaperRunner` of src/pybus/integrations/redis.py, which takes back the claims of workers that have
-- died. The transport is a parameter, whose answers may depend on the log of what the runner has done.
pub mod Reclaiming
pub mod Refusals
pub mod Orders
use pybus.Codec.{Fields, Stdlib, dict, end, field, int, null, text}
use pybus.Codec.Dict.{put}
use pybus.Durable.Envelope.{MessageEnvelope, in_utc}
use pybus.Listener.Settling.{copy_envelope}
use pybus.Prelude.{Bool, List, Option, String, [], if◌then◌else◌, leb, none, some, ℕ, ◌+◌, ◌∷◌}
use pybus.Prelude.Exec.{Exec, err, ok, pure, ◌>>=◌, ◌>>=◌, ◌>>◌, ◌>>◌}
use pybus.Prelude.Int.{pos}
use pybus.Retries.{resolve_retry_count}

-- A stale claim: its receipt, the envelope that it decodes to, and its bytes in base64.
pub record StaleClaim : Type 0 where
  pub claim_receipt : String
  pub decoded : Option MessageEnvelope
  pub raw_base64 : String

pub data ReaperEvent : Type 0 where
  republished republish_failed : String → MessageEnvelope → ReaperEvent
  claim_acked claim_ack_failed : String → ReaperEvent
  reconciled stale_read : String → ReaperEvent

abbrev pub ReaperLog : Type 0
ReaperLog = List ReaperEvent

-- The runner's attributes, and the outside; `none` is an exception.
pub record RedisReaperRunner : Type 0 where
  pub reaper_lib : Stdlib
  pub reaped_channels : List String
  pub failed_channel : String
  pub max_reclaim_attempts : ℕ
  pub reconcile_orphaned : ReaperLog → String → Option ℕ
  pub stale_claims : ReaperLog → String → Option (List StaleClaim)
  pub publish_fails : ReaperLog → String → MessageEnvelope → Bool
  pub ack_fails : ReaperLog → String → Bool
  pub clock : ReaperLog → ℕ
  pub uuid_of : ReaperLog → String

pub data ReaperError : Type 0 where
  indeterminate_reclaim transport_raised : ReaperError

abbrev pub Reaping : Type 0 → Type 0
Reaping A = Exec ReaperLog ReaperError A

module _ (r : RedisReaperRunner) where
  -- `_settle_after_claim` of a publication
  unfoldable pub republish : String → MessageEnvelope → Reaping (Unit {0})
  republish queue c log =
      if r.publish_fails log queue c
      then (err indeterminate_reclaim, republish_failed queue c ∷ log)
      else (ok tt, republished queue c ∷ log)

  -- `_ack_claim`
  unfoldable pub ack_stale : String → Reaping (Unit {0})
  ack_stale receipt log =
      if r.ack_fails log receipt
      then (err indeterminate_reclaim, claim_ack_failed receipt ∷ log)
      else (ok tt, claim_acked receipt ∷ log)

  -- The retries in the headers; the payload is not asked.
  unfoldable pub reclaim_count : MessageEnvelope → ℕ
  unfolding resolve_retry_count
  reclaim_count e = resolve_retry_count r.reaper_lib null e.headers

  -- `retries >= self.policy.max_reclaim_attempts`
  unfoldable pub is_exhausted : MessageEnvelope → Bool
  unfolding reclaim_count
  is_exhausted e = leb r.max_reclaim_attempts (reclaim_count e)

  unfoldable pub reclaim_headers : String → ℕ → MessageEnvelope → Fields
  unfolding is_exhausted put
  reclaim_headers channel now e =
      if is_exhausted e
      then put "dead_lettered_from" (text channel) e.headers
      else put "last_attempt" (text (r.reaper_lib.datetime_text (in_utc now)))
          (put "retries" (int (pos (reclaim_count e + 1))) e.headers)

  unfoldable pub reclaim_envelope : String → String → ℕ → MessageEnvelope → MessageEnvelope
  unfolding copy_envelope reclaim_headers
  reclaim_envelope fresh channel now e =
      copy_envelope e fresh e.payload (reclaim_headers channel now e)

  unfoldable pub reclaim_target : String → MessageEnvelope → String
  unfolding is_exhausted
  reclaim_target channel e = if is_exhausted e then r.failed_channel else channel

  -- What stands for a claim that does not decode.
  unfoldable pub stale_poison : String → String → StaleClaim → ℕ → MessageEnvelope
  stale_poison fresh channel s now = record {
    message_id = fresh;
    message_type = "pybus.message.decode_failed";
    message_kind = "event";
    version = 1;
    payload = dict (
        field "raw_message" (text s.raw_base64) (
          field "raw_message_encoding" (text "base64")
            (field "error_type" (text "ReaperDecodeError") end)));
    headers = field "dead_lettered_from" (text channel) end;
    created_at = now;
    correlation_id = none;
    causation_id = none;
    reply_to = none;
    expires_at = none;
    content_type = none;
    content_encoding = none;
  }

  unfoldable pub reclaim_decoded : String → String → MessageEnvelope → Reaping (Unit {0})
  unfolding reclaim_envelope reclaim_target republish ack_stale
  reclaim_decoded channel receipt e log =
      (republish (reclaim_target channel e)
            (reclaim_envelope (r.uuid_of log) channel (r.clock log) e)
          >> ack_stale receipt)
        log

  -- `_dead_letter_undecodable` of the runner
  unfoldable pub dead_letter_stale : String → StaleClaim → Reaping (Unit {0})
  unfolding stale_poison republish ack_stale
  dead_letter_stale channel s log =
      (republish r.failed_channel (stale_poison (r.uuid_of log) channel s (r.clock log))
          >> ack_stale s.claim_receipt)
        log

  -- `_reclaim`
  unfoldable pub reclaim : String → StaleClaim → Reaping (Unit {0})
  unfolding reclaim_decoded dead_letter_stale
  reclaim channel s = elim s.decoded [
    | none ↦ dead_letter_stale channel s
    | some e ↦ reclaim_decoded channel s.claim_receipt e
  ]

  unfoldable pub reclaim_all : String → List StaleClaim → ℕ → Reaping ℕ
  unfolding reclaim
  reclaim_all channel [] reclaimed = pure reclaimed
  reclaim_all channel (s ∷ ss) reclaimed =
      reclaim channel s >> reclaim_all channel ss (reclaimed + 1)

  abbrev pub answered : {A : Type 0} → Option A → Reaping A
  answered none log = (err transport_raised, log)
  answered (some a) log = (ok a, log)

  -- One channel of `run_once`, and the loop over the channels.
  unfoldable pub reap_channel : String → ℕ → Reaping ℕ
  unfolding reclaim_all
  reap_channel channel reclaimed = do
    orphans ← λ log. answered (r.reconcile_orphaned log channel) (reconciled channel ∷ log)
    stale ← λ log. answered (r.stale_claims log channel) (stale_read channel ∷ log)
    reclaim_all channel stale (reclaimed + orphans)

  unfoldable pub reap_channels : List String → ℕ → Reaping ℕ
  unfolding reap_channel
  reap_channels [] reclaimed = pure reclaimed
  reap_channels (c ∷ cs) reclaimed = reap_channel c reclaimed >>= reap_channels cs

  -- `RedisReaperRunner.run_once`
  unfoldable pub reap_once : Reaping ℕ
  unfolding reap_channels
  reap_once = reap_channels r.reaped_channels 0
