-- ===== src/Redis/Reclaiming.antt =====
-- What becomes of a message that is reclaimed over and over: src/pybus/integrations/redis.py.
use pybus.Codec.{null, text}
use pybus.Durable.Envelope.{MessageEnvelope, in_utc}
use pybus.Listener.Settling.{copy_envelope}
use pybus.Prelude.{String, arith, eqb, false, if◌then◌else◌, suc, zero, ℕ, ◌+◌, ◌≡◌, ◌≤◌}
use pybus.Redis.{
  RedisReaperRunner, is_exhausted, reclaim_count, reclaim_envelope, reclaim_headers, reclaim_target,
}
use pybus.Retries.Laws.{resolve_retry_count-put}

module _ (r : RedisReaperRunner) (channel : String) where
  -- The message after reclaims by workers that die each time, with their ids and clocks.
  unfoldable pub reclaimed_times : (ℕ → String) → (ℕ → ℕ) → ℕ → MessageEnvelope → MessageEnvelope
  unfolding reclaim_envelope
  reclaimed_times fresh now zero e = e
  reclaimed_times fresh now (suc n) e =
      reclaim_envelope r (fresh n) channel (now n) (reclaimed_times fresh now n e)

  -- A reclaim below the limit counts one more.
  pub reclaim_count-reclaim_envelope :
      (fresh : String) (now : ℕ) (e : MessageEnvelope)
      → is_exhausted r e ≡ false
      → reclaim_count r (reclaim_envelope r fresh channel now e) ≡ reclaim_count r e + 1
  unfolding reclaim_envelope reclaim_headers copy_envelope reclaim_count
  reclaim_count-reclaim_envelope fresh now e more =
      rw (reclaim_envelope, reclaim_headers, more)
        (resolve_retry_count-put r.reaper_lib null (text (r.reaper_lib.datetime_text (in_utc now)))
          (reclaim_count r e + 1) e.headers)

  reclaim_count-times :
      (fresh : ℕ → String) (now : ℕ → ℕ) (n : ℕ) (e : MessageEnvelope)
      → reclaim_count r e + n ≤ r.max_reclaim_attempts
      → reclaim_count r (reclaimed_times fresh now n e) ≡ reclaim_count r e + n
  unfolding reclaimed_times is_exhausted
  reclaim_count-times fresh now zero e within = omega arith
  reclaim_count-times fresh now (suc n) e within =
      let so_far : reclaim_count r (reclaimed_times fresh now n e) ≡ reclaim_count r e + n =
        reclaim_count-times fresh now n e (omega (arith, within)) in
      let more : is_exhausted r (reclaimed_times fresh now n e) ≡ false =
        ground (arith, so_far, within) in
      omega (
        arith,
        so_far,
        reclaim_count-reclaim_envelope (fresh n) (now n) (reclaimed_times fresh now n e) more,
      )

-- A message whose workers die each time is sent to its channel as long as its reclaims, of which it has
-- counted no more than the limit, stay below it, and then to the dead-letter channel.
pub reclaimed_times-target :
    (r : RedisReaperRunner) (channel : String) (fresh : ℕ → String) (now : ℕ → ℕ) (n : ℕ)
    (e : MessageEnvelope)
    → reclaim_count r e + n ≤ r.max_reclaim_attempts
    → reclaim_target r channel (reclaimed_times r channel fresh now n e)
      ≡ (if eqb (reclaim_count r e + n) r.max_reclaim_attempts then r.failed_channel else channel)
unfolding reclaim_target is_exhausted
reclaimed_times-target r channel fresh now n e within =
    ground (arith, reclaim_count-times r channel fresh now n e within, within)
