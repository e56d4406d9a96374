-- ===== src/Lib.antt =====
-- A verification library for pybus, a message bus for Python with durable jobs.
--
-- The program. A scheduler writes durable jobs into a database. A publisher claims due jobs under a
-- lease and publishes their envelopes on a transport. A worker that receives an envelope asks the
-- store for admission, runs the handlers that the registry names, and settles the delivery: the job
-- succeeds, is retried, continues on another queue, or is dead-lettered. A job may belong to a series,
-- whose next occurrence is planned when one succeeds. Every claim starts a new generation, which fences
-- off the copies of older ones.
--
-- Which file models which part:
--   Durable/Types: the states and the rows of the two tables: src/pybus/durable.py,
--     src/pybus/recurrence.py, src/pybus/delivery.py,
--     src/pybus/integrations/django_durable/models.py.
--   Durable/Queries, Schedule, Series, Claim, Publish, Admit, Settle: DjangoDurableJobStore of
--     src/pybus/integrations/django_durable/store.py, one function for each method and one for each
--     part of a long method. Claim/Order and Claim/Choice, Admit/Fits and Admit/Fencing,
--     Schedule/Idempotency and Series/Completion hold their theorems.
--   Durable/Life: what may become of a row. Durable/Guards and Durable/Moves: every write of the store
--     as one of a few kinds of moves. Durable/Run: histories of calls, and what all of them keep.
--   Durable/Envelope and Durable/Controller: delivery_envelope and DurableJobController, both of
--     src/pybus/durable.py, with the retry count of src/pybus/listener.py.
--   Durable/Runner: DurableJobRunner.run_once of src/pybus/durable.py.
--   Listener: the class of src/pybus/listener.py. Listener/Effects is what a delivery does to its outside,
--     Listener/Settling how a message is sent on or answered, Listener/Batches the batched handlers,
--     Listener/Dispatching the way from a claim to its settlement. Listener/Safety reads the effects of a
--     delivery as the moves of an automaton, and Listener/Safety/Admissions and Fences are about what keeps
--     a copy from its handlers; Listener/Histories reads what a worker does to the database as calls of
--     the store.
--   Redis: RedisReaperRunner of src/pybus/integrations/redis.py; Redis/Orders says in which order its
--     effects may come.
--   Requests: RequestResponseCoordinator of src/pybus/request_response.py.
--   Recurrence: next_cadence_at of src/pybus/recurrence.py.
--   Registry: src/pybus/registry.py. Queues: src/pybus/queues.py. Retries: src/pybus/retries.py.
--   Codec: encode_value of src/pybus/_codec.py and dumps of src/pybus/serializer.py.
--   Stores: src/pybus/inbox.py, src/pybus/outbox.py, src/pybus/batching.py and
--     src/pybus/transports/memory.py.
--   Prelude: lists, options, Boolean tests, and methods that change a state and may raise.
--   Examples: the same on concrete inputs.
--
-- How state and time are modelled. The database is the record Db of two lists of rows; a method is a
-- function from it to a result or an error and the database that it leaves. transaction.atomic is
-- `atomic`, which takes the writes back on an error. The row locks make a call one step, so that any
-- interleaving of publishers, workers and schedulers is a list of calls, a history; the lock of the
-- coordinator does the same for requests. A clock reading, a
-- fresh UUID and a lease time are arguments. An aware time is its instant in microseconds.
--
-- What is a parameter: the record Stdlib, for the texts of dates and UUIDs, for json.dumps and for int;
-- the record Calendar, for datetime, calendar and zoneinfo; the publisher of the runner; the transport
-- of the reaper; the payload codec of the coordinator; and, as fields of the record Listener, the
-- transport, the handlers, the observers, the decoding of a payload, the delays of the retry policy and
-- the clocks of a worker, whose answers may depend on the log of all that the worker has done. What a
-- theorem needs of them is a hypothesis of it.
--
-- Loops are recursion on the list that they run over. The search for the next slot of a schedule runs
-- on fuel, slot_fuel; four rounds are enough for a daily or weekly schedule in a zone whose offset
-- stays below a day. For a monthly one the fuel is a bound of the model.
--
-- What is not modelled: the construction of messages by the dispatcher, so that the decoder of a worker
-- only says whether it raises; the commands of the Redis transport; the routing and the composition of
-- buses; the scheduling API in front of the store; the payload codecs; delays, which are floats; the
-- worker's threads and signals; decorators over Python reflection; Django settings. Text that is too
-- long for its column, and dates after the year 9999, are accepted here.
pub mod Prelude
pub mod Codec
pub mod Queues
pub mod Retries
pub mod Stores
pub mod Recurrence
pub mod Durable
pub mod Registry
pub mod Listener
pub mod Redis
pub mod Requests
pub mod Examples
