-- ===== src/Examples/Parts.antt =====
-- The smaller parts on concrete inputs: queues, retries and the stores in memory.
use pybus.Codec.{DateTime, Fields, dict, end, field, int}
use pybus.Codec.Dict.{get}
use pybus.Examples.Sample.{sample_lib}
use pybus.Prelude.{String, [], if◌then◌else◌, none, refl, some, true, ◌++◌, ◌+◌, ◌==◌, ◌∷◌, ◌≡◌}
use pybus.Prelude.Exec.{err}
use pybus.Prelude.Int.{pos}
use pybus.Queues.{declare_queues, default_queue_topology, has_queue, is_in, queues}
use pybus.Queues.Laws.{
  IsUnique, IsUnique-declare_queues, declare_queues_idem, has_queue-declare_queues,
}
use pybus.Registry.{items}
use pybus.Retries.{next_retry_payload, resolve_retry_count, valid_retry_count}
use pybus.Retries.Laws.{retry_is_counted}
use pybus.Stores.Batching.{BatchBuffer, add_items, flush, flush-add_items}
use pybus.Stores.Inbox.{
  InMemoryInboxStore, duplicate_message, record_message, seen, seen-record_message,
}
use pybus.Stores.Memory.{MemoryTransport, consume_many, consume_many-publish_all, publish_all}
use pybus.Stores.Outbox.{InMemoryOutboxStore, add, claim_messages, claims_join, waiting}

has_queue-declare_queues_example :
    has_queue (declare_queues ("mail" ∷ "pybus.jobs" ∷ []) default_queue_topology) "mail" ≡ true
unfolding has_queue
has_queue-declare_queues_example =
    has_queue-declare_queues ("mail" ∷ "pybus.jobs" ∷ []) default_queue_topology "mail" refl

declare_queues_idem_example :
    declare_queues ("mail" ∷ []) (declare_queues ("mail" ∷ []) default_queue_topology)
    ≡ declare_queues ("mail" ∷ []) default_queue_topology
declare_queues_idem_example = declare_queues_idem ("mail" ∷ []) default_queue_topology

default_queue_topology-IsUnique : IsUnique (queues default_queue_topology)
unfolding queues is_in
default_queue_topology-IsUnique = (refl, (refl, (refl, tt)))

IsUnique-declare_queues_example :
    IsUnique (queues (declare_queues ("mail" ∷ []) default_queue_topology))
IsUnique-declare_queues_example =
    IsUnique-declare_queues ("mail" ∷ []) default_queue_topology default_queue_topology-IsUnique

abbrev attempted_at : DateTime
attempted_at = record { wall = 7; offset = some (pos 0) }

abbrev two_retries : Fields
two_retries = field "retries" (int (pos 2)) end

retry_is_counted_example :
    resolve_retry_count sample_lib
      (dict (
        next_retry_payload sample_lib attempted_at
          (some (resolve_retry_count sample_lib (dict two_retries) end))
          two_retries))
      end
    ≡ resolve_retry_count sample_lib (dict two_retries) end + 1
unfolding valid_retry_count get
retry_is_counted_example = retry_is_counted sample_lib attempted_at two_retries end end refl

abbrev empty_inbox : InMemoryInboxStore
empty_inbox = record { ttl = some 100; entries = [] }

seen-record_message_example :
    ((seen 150 "m1" (record_message 50 51 "m1" empty_inbox).1).0 ≡ true)
    × ((record_message 150 150 "m1" (record_message 50 51 "m1" empty_inbox).1).0
        ≡ err duplicate_message)
unfolding record_message
seen-record_message_example = seen-record_message 50 51 150 "m1" empty_inbox refl refl

abbrev one_waiting : InMemoryOutboxStore
one_waiting = record { queue = (1, "a") ∷ []; records = [] }

claims_join_example :
    (waiting (add 2 5 "b" one_waiting).1.queue ≡ "a" ∷ "b" ∷ [])
    × ((claim_messages 1 6 (add 2 5 "b" one_waiting).1).0
          ++ (claim_messages 1 7 (claim_messages 1 6 (add 2 5 "b" one_waiting).1).1).0
        ≡ (claim_messages 2 6 (add 2 5 "b" one_waiting).1).0)
claims_join_example = claims_join 1 1 6 7 2 5 "b" one_waiting

abbrev empty_transport : MemoryTransport
empty_transport = record { queues = λ channel. [] }

consume_many-publish_all_example :
    let t = publish_all "jobs" ("a" ∷ "b" ∷ []) empty_transport in
    let (items, left) = consume_many "jobs" 1 t in
    (items ≡ "a" ∷ [])
    × (left.queues "jobs" ≡ "b" ∷ [])
    × ((if "jobs" == "mail" then t.queues "mail" else left.queues "mail") ≡ t.queues "mail")
consume_many-publish_all_example =
    consume_many-publish_all "jobs" "mail" ("a" ∷ "b" ∷ []) 1 empty_transport

abbrev empty_buffer : BatchBuffer String
empty_buffer = record { batch_size = 3; max_wait = 10; items = []; first_item_at = none }

flush-add_items_example :
    let b' = add_items (("a", 5) ∷ ("b", 8) ∷ []) (flush empty_buffer).1 in
    ((flush b').0 ≡ "a" ∷ "b" ∷ []) × ((flush b').1.items ≡ []) × (b'.first_item_at ≡ some 5)
flush-add_items_example = flush-add_items "a" 5 (("b", 8) ∷ []) empty_buffer
