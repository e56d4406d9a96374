-- ===== src/Examples/Listening.antt =====
-- A worker that takes the billing job, whose handler fails, and what becomes of the copies.
use pybus.Codec.{dumps, encode_value}
use pybus.Codec.Dict.{get}
use pybus.Durable.Admit.{admit_delivery, admit_row}
use pybus.Durable.Claim.{from_record}
use pybus.Durable.Controller.{identity}
use pybus.Durable.Envelope.{MessageEnvelope, delivery_envelope}
use pybus.Durable.Run.{history}
use pybus.Durable.Run.Invariant.{AllSound, IsSound}
use pybus.Durable.Settle.{checkpoint_row, outcome_filter, settlement_filter}
use pybus.Examples.Deliveries.{claimed_job-Names, in_between, proceeds}
use pybus.Examples.Sample.{claimed_db, claimed_job, sample_admission, sample_calendar, sample_lib}
use pybus.Listener.{Listener, Log, World, raised, retry_count}
use pybus.Listener.Dispatching.Claiming.{deliver_envelope, has_batched_handlers, listen}
use pybus.Listener.Histories.Deliveries.Listening.{listen-AllSound}
use pybus.Listener.Safety.{closed, limits, phase}
use pybus.Listener.Safety.Admissions.{runs}
use pybus.Listener.Safety.Fences.{handled_once}
use pybus.Listener.Safety.Retrying.{Retries, Retries-bounded, largest, tried, untried}
use pybus.Listener.Settling.{retry_envelope}
use pybus.Prelude.{[], arith, drop, false, none, refl, some, take, true, ◌-◌, ◌∷◌, ◌≡◌, ◌≤◌}
use pybus.Registry.{Handler, handlers_for}
use pybus.Registry.Table.{get_item, key_eq}

abbrev bill_handler : Handler
bill_handler = record { object_id = 1; spec = none; func_spec = none }

abbrev bill_envelope : MessageEnvelope
bill_envelope = delivery_envelope sample_lib "m0" (from_record claimed_job)

abbrev sample_listener : Listener
sample_listener = record {
  lib = sample_lib;
  calendar = sample_calendar;
  registry = record {
    handlers = (("command", "billing.generate"), bill_handler ∷ []) ∷ [];
    message_classes = [];
  };
  spec_for = λ h. record {
    retry_limit = some 2;
    delay = 0;
    batched = false;
    batch_size = 100;
    max_wait = 10;
  };
  retry_policy = record { max_retries = 10 };
  next_delay = λ retries. 0;
  dead_letter_channel = "pybus.jobs.failed";
  topology = none;
  controller = some 300;
  observers = 7 ∷ [];
  decodes = λ e. true;
  handle = λ log h e. raised;
  has_size = true;
  has_consume_many = true;
  size = λ log queue. some 0;
  consume_many = λ log queue n. some [];
  consume = λ log queue. some (
      some (record {
        receipt = some "r1";
        envelope = some bill_envelope;
        raw_message = "";
        error_type = "";
      }));
  batch_raises = λ log h es. false;
  publish_raises = λ log queue e. false;
  ack_raises = λ log receipt. false;
  observer_raises = λ log k o. false;
  sleep_raises = λ log delay. false;
  now = λ log. 40;
  store_now = λ log. 41;
  fresh_id = λ log. 9;
  fresh_text = λ log. "m9";
}

abbrev claimed_world : World
claimed_world = record {
  batch_started_at = λ t. none;
  batch_retry_after = λ t. none;
  db = claimed_db;
  log = [];
}

-- The failed job is sent again, and its claim is closed.
sent_on :
    phase sample_listener bill_envelope
      (some "r1")
      (deliver_envelope sample_listener "pybus.jobs" bill_envelope (some "r1") claimed_world).1.log
    ≡ closed
unfolding deliver_envelope phase delivery_envelope from_record get_item key_eq dumps encode_value
    settlement_filter admit_row outcome_filter checkpoint_row
sent_on = refl

abbrev bill_log : Log
bill_log =
    (deliver_envelope sample_listener "pybus.jobs" bill_envelope (some "r1") claimed_world).1.log

abbrev bill_retry : MessageEnvelope
bill_retry = retry_envelope sample_listener bill_envelope "m9" 40

bill_retry-Retries : Retries sample_listener bill_envelope bill_retry 1
unfolding deliver_envelope phase delivery_envelope from_record get_item key_eq dumps encode_value
    settlement_filter admit_row outcome_filter checkpoint_row
bill_retry-Retries =
    tried bill_envelope bill_retry bill_retry 0 "pybus.jobs" "pybus.jobs" (some "r1") claimed_world
      (take 2 bill_log) (drop 3 bill_log) refl refl (untried bill_retry)

Retries-bounded_example :
    1 ≤ largest (limits sample_listener bill_envelope) - retry_count sample_listener bill_envelope
unfolding has_batched_handlers handlers_for delivery_envelope from_record get_item key_eq
Retries-bounded_example =
    Retries-bounded sample_listener bill_envelope bill_retry 1 refl refl bill_retry-Retries

claimed_job-Sound : IsSound claimed_job
claimed_job-Sound = ground arith

listen-AllSound_example : AllSound (listen sample_listener 2 ("pybus.jobs" ∷ []) claimed_world).1.db
listen-AllSound_example =
    listen-AllSound sample_listener 2 ("pybus.jobs" ∷ []) claimed_world (claimed_job-Sound, tt)

-- The world of a worker to whom the copy comes after another one was admitted.
abbrev late_world : World
late_world = record claimed_world {
  db =
      history sample_lib sample_calendar in_between
        (admit_delivery sample_lib 40 sample_admission claimed_db).1;
}

handled_once_example :
    runs (deliver_envelope sample_listener "pybus.jobs" bill_envelope (some "r1") late_world).1.log
    ≡ runs late_world.log
unfolding identity get delivery_envelope from_record
handled_once_example =
    handled_once sample_listener 40 sample_admission claimed_db 1 claimed_job none in_between
      "pybus.jobs" bill_envelope (some "r1") 1 late_world claimed_job-Names proceeds (λ e. cc, tt)
      refl refl (omega arith)
