-- ===== src/Redis/Orders/Rounds.antt =====
-- A round of the reaper keeps to the order: src/pybus/integrations/redis.py.
use mathlib.Core.Path.{subst}
use pybus.Codec.{text}
use pybus.Codec.Dict.{get, get-put_self}
use pybus.Durable.Envelope.{MessageEnvelope}
use pybus.Listener.Settling.{copy_envelope}
use pybus.Prelude.{
  Bool-cases, List, Option, Option-cases, String, [], ap, arith, eq_iff, inl, inr, none, refl, some,
  sym, true, ℕ, ◌+◌, ◌<◌, ◌==◌, ◌∙◌, ◌∷◌, ◌≡◌, ◌≤◌,
}
use pybus.Prelude.Exec.{Result, continue, err, ok, ◌>>=◌, ◌>>◌}
use pybus.Redis.{
  ReaperError, ReaperLog, Reaping, RedisReaperRunner, StaleClaim, ack_stale, answered,
  dead_letter_stale, is_exhausted, reap_channel, reap_channels, reap_once, reclaim, reclaim_all,
  reclaim_count, reclaim_decoded, reclaim_envelope, reclaim_headers, reclaim_target, reconciled,
  republish, republished, stale_poison, stale_read,
}
use pybus.Redis.Orders.{
  IsOneOf, IsOrderly, IsSentFor, SaysTheSame, WasRead, acked_for, asked, before, dead_lettered_one,
  first, just_read, later, looked, not_acked, not_sent, poison, sent_back, sent_on,
}
use pybus.Redis.Reclaiming.{reclaim_count-reclaim_envelope}

module _ (r : RedisReaperRunner) where
  -- The second log is orderly, and goes on from the first.
  record Continues (log log' : ReaperLog) : Type 0 where
    orderly : IsOrderly r log'
    reads : (channel : String) (s : StaleClaim) → WasRead r channel s log → WasRead r channel s log'

  -- The action goes on in order from an orderly log on which `P` holds.
  abbrev Keeps : (ReaperLog → Type 0) → {A : Type 0} → Reaping A → Type 0
  Keeps P m = (log : ReaperLog) → IsOrderly r log → P log → Continues log (m log).1

  send_and_ack-Keeps :
      (channel queue : String) (s : StaleClaim) (c : MessageEnvelope) (log : ReaperLog)
      → IsSentFor r channel s c queue
      → WasRead r channel s log
      → IsOrderly r log
      → Continues log ((republish r queue c >> ack_stale r s.claim_receipt) log).1
  unfolding republish ack_stale
  send_and_ack-Keeps channel queue s c log right read orderly =
      elim (Bool-cases (r.publish_fails log queue c)) [
        | inl fails ↦
            rw (republish, fails)
              (record { orderly = not_sent orderly; reads = λ ch t h. before h })
        | inr sends ↦
            let went = sent_on read right orderly in
            elim (Bool-cases (r.ack_fails (republished queue c ∷ log) s.claim_receipt)) [
              | inl fails ↦
                  rw (republish, sends, ack_stale, fails)
                    (record { orderly = not_acked went; reads = λ ch t h. before (before h) })
              | inr acks ↦
                  rw (republish, sends, ack_stale, acks)
                    (record {
                      orderly = acked_for read right went;
                      reads = λ ch t h. before (before h);
                    })
            ]
      ]

  copy-SaysTheSame :
      (e : MessageEnvelope) (fresh channel : String) (now : ℕ)
      → SaysTheSame e (reclaim_envelope r fresh channel now e)
  unfolding reclaim_envelope copy_envelope
  copy-SaysTheSame e fresh channel now = record {
    own = elim (Bool-cases (e.message_id == "")) [
      | inl empty ↦ inl ((eq_iff e.message_id "").0 empty)
      | inr named ↦ inr (rw (named) refl)
    ];
    about = (refl, refl, refl, refl);
    thread = (refl, refl, refl);
  }

  exhausted-get :
      (e : MessageEnvelope) (fresh channel : String) (now : ℕ)
      → is_exhausted r e ≡ true
      → get "dead_lettered_from" (reclaim_envelope r fresh channel now e).headers
        ≡ some (text channel)
  unfolding reclaim_envelope copy_envelope reclaim_headers
  exhausted-get e fresh channel now spent =
      rw (reclaim_headers, spent) (get-put_self "dead_lettered_from" (text channel) e.headers)

  reclaimed-IsSentFor :
      (channel : String) (s : StaleClaim) (e : MessageEnvelope) (fresh : String) (now : ℕ)
      → s.decoded ≡ some e
      → IsSentFor r channel s (reclaim_envelope r fresh channel now e) (reclaim_target r channel e)
  unfolding reclaim_target
  reclaimed-IsSentFor channel s e fresh now good = elim (Bool-cases (is_exhausted r e)) [
    | inl spent ↦
        let target : reclaim_target r channel e ≡ r.failed_channel =
          rw (reclaim_target, spent) refl in
        let limit : r.max_reclaim_attempts ≤ reclaim_count r e =
          unfold is_exhausted in ground (arith, spent) in
        subst (IsSentFor r channel s (reclaim_envelope r fresh channel now e)) (sym target) (
          dead_lettered_one good limit (copy-SaysTheSame e fresh channel now)
            (exhausted-get e fresh channel now spent))
    | inr more ↦
        let target : reclaim_target r channel e ≡ channel = rw (reclaim_target, more) refl in
        let below : reclaim_count r e < r.max_reclaim_attempts =
          unfold is_exhausted in ground (arith, more) in
        subst (IsSentFor r channel s (reclaim_envelope r fresh channel now e)) (sym target) (
          sent_back good below (copy-SaysTheSame e fresh channel now)
            (reclaim_count-reclaim_envelope r channel fresh now e more))
  ]

  poison-IsSentFor :
      (channel : String) (s : StaleClaim) (fresh : String) (now : ℕ)
      → s.decoded ≡ none
      → IsSentFor r channel s (stale_poison r fresh channel s now) r.failed_channel
  unfolding stale_poison get
  poison-IsSentFor channel s fresh now bad = poison bad refl refl refl refl

  reclaim-Keeps :
      (channel : String) (s : StaleClaim) → Keeps (WasRead r channel s) (reclaim r channel s)
  unfolding reclaim reclaim_decoded dead_letter_stale
  reclaim-Keeps channel s log orderly read = elim (Option-cases s.decoded) [
    | inl bad ↦
        rw (reclaim, bad)
          (send_and_ack-Keeps channel r.failed_channel s
            (stale_poison r (r.uuid_of log) channel s (r.clock log)) log
            (poison-IsSentFor channel s (r.uuid_of log) (r.clock log) bad) read orderly)
    | inr (e, good) ↦
        rw (reclaim, good)
          (send_and_ack-Keeps channel (reclaim_target r channel e) s
            (reclaim_envelope r (r.uuid_of log) channel (r.clock log) e) log
            (reclaimed-IsSentFor channel s e (r.uuid_of log) (r.clock log) good) read orderly)
  ]

  bind-Keeps :
      {A B : Type 0} (P : ReaperLog → Type 0) (Q : A → ReaperLog → Type 0) (m : Reaping A)
      (f : A → Reaping B)
      → Keeps P m
      → ((log : ReaperLog) (a : A) → IsOrderly r log → P log → (m log).0 ≡ ok a → Q a (m log).1)
      → ((a : A) → Keeps (Q a) (f a))
      → Keeps P (m >>= f)
  bind-Keeps {A = A} {B = B} P Q m f hm hq hf log orderly p =
      go (m log) (hm log orderly p) (λ a h. hq log a orderly p h)
    where
      go :
          (x : Result ReaperError A × ReaperLog)
          → Continues log x.1
          → ((a : A) → x.0 ≡ ok a → Q a x.1)
          → Continues log (continue x.0 f x.1).1
      go (err error, log') k q = k
      go (ok a, log') k q =
          let next = hf a log' k.orderly (q a refl) in
          record { orderly = next.orderly; reads = λ ch s h. next.reads ch s (k.reads ch s h) }

  AllRead : String → List StaleClaim → ReaperLog → Type 0
  AllRead channel ss log = (s : StaleClaim) → IsOneOf s ss → WasRead r channel s log

  reclaim_all-Keeps :
      (channel : String) (ss : List StaleClaim) (n : ℕ)
      → Keeps (AllRead channel ss) (reclaim_all r channel ss n)
  unfolding reclaim_all AllRead
  reclaim_all-Keeps channel [] n log orderly reads = record {
    orderly = orderly;
    reads = λ ch s h. h;
  }
  reclaim_all-Keeps channel (s ∷ ss) n log orderly reads =
      bind-Keeps (AllRead channel (s ∷ ss)) (λ _. AllRead channel ss) (reclaim r channel s)
        (λ _. reclaim_all r channel ss (n + 1))
        (λ log' ordered read. reclaim-Keeps channel s log' ordered (read s first))
        (λ log' _ ordered read h t one.
          (reclaim-Keeps channel s log' ordered (read s first)).reads channel t
            (read t (later one)))
        (λ _. reclaim_all-Keeps channel ss (n + 1)) log orderly reads

  -- Whether the transport answers or raises, the log is the one with the question.
  answered-Continues :
      {A : Type 0} (o : Option A) (log log' : ReaperLog)
      → Continues log log'
      → Continues log (answered r o log').1
  answered-Continues none log log' k = k
  answered-Continues (some a) log log' k = k

  answered-read :
      (channel : String) (log : ReaperLog) (o : Option (List StaleClaim)) (ss : List StaleClaim)
      → r.stale_claims log channel ≡ o
      → (answered r o (stale_read channel ∷ log)).0 ≡ ok ss
      → AllRead channel ss (answered r o (stale_read channel ∷ log)).1
  unfolding AllRead
  answered-read channel log none ss read h = cc
  answered-read channel log (some xs) ss read h =
      let same : xs ≡ ss = cc in λ s one. just_read (read ∙ ap some same) one

  read_and_reclaim-Keeps :
      (channel : String) (n : ℕ)
      → Keeps
          (λ _. Unit {0})
          ((λ log. answered r (r.stale_claims log channel) (stale_read channel ∷ log)) >>= λ stale.
            reclaim_all r channel stale n)
  read_and_reclaim-Keeps channel n =
      bind-Keeps (λ _. Unit {0}) (AllRead channel)
        (λ log. answered r (r.stale_claims log channel) (stale_read channel ∷ log))
        (λ stale. reclaim_all r channel stale n)
        (λ log orderly _.
          answered-Continues (r.stale_claims log channel) log (stale_read channel ∷ log)
            (record { orderly = looked orderly; reads = λ ch s h. before h }))
        (λ log ss orderly _ h. answered-read channel log (r.stale_claims log channel) ss refl h)
        (λ ss. reclaim_all-Keeps channel ss n)

  reap_channel-Keeps : (channel : String) (n : ℕ) → Keeps (λ _. Unit {0}) (reap_channel r channel n)
  unfolding reap_channel
  reap_channel-Keeps channel n =
      bind-Keeps (λ _. Unit {0}) (λ _ _. Unit {0})
        (λ log. answered r (r.reconcile_orphaned log channel) (reconciled channel ∷ log))
        (λ orphans.
          (λ log. answered r (r.stale_claims log channel) (stale_read channel ∷ log)) >>= λ stale.
          reclaim_all r channel stale (n + orphans))
        (λ log orderly _.
          answered-Continues (r.reconcile_orphaned log channel) log (reconciled channel ∷ log)
            (record { orderly = asked orderly; reads = λ ch s h. before h }))
        (λ log a orderly _ h. tt) (λ orphans. read_and_reclaim-Keeps channel (n + orphans))

  reap_channels-Keeps : (cs : List String) (n : ℕ) → Keeps (λ _. Unit {0}) (reap_channels r cs n)
  unfolding reap_channels
  reap_channels-Keeps [] n log orderly p = record { orderly = orderly; reads = λ ch s h. h }
  reap_channels-Keeps (c ∷ cs) n log orderly p =
      bind-Keeps (λ _. Unit {0}) (λ _ _. Unit {0}) (reap_channel r c n) (reap_channels r cs)
        (reap_channel-Keeps c n) (λ log' a ordered _ h. tt) (reap_channels-Keeps cs) log orderly p

-- In a round of the reaper, whether it returns or raises, each message that is sent is the message of a
-- claim that the transport has shown as stale, sent back with one retry more below the limit, and to the
-- dead-letter channel otherwise or if it does not decode; and each claim that is acknowledged is one whose
-- own message was sent immediately before; if all this held of the log before.
pub reap_once-IsOrderly :
    (r : RedisReaperRunner) (log : ReaperLog) → IsOrderly r log → IsOrderly r (reap_once r log).1
unfolding reap_once
reap_once-IsOrderly r log orderly =
    (reap_channels-Keeps r r.reaped_channels 0 log orderly tt).orderly
