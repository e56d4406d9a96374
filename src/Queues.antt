-- ===== src/Queues.antt =====
-- src/pybus/queues.py: the queues that an application declares.
pub mod Laws
use pybus.Durable.Queries.{or_text}
use pybus.Prelude.{Bool, List, Option, String, [], false, if◌then◌else◌, ◌++◌, ◌==◌, ◌||◌, ◌∷◌}

pub record QueueTopology : Type 0 where
  pub default_queue : String
  pub slow_queue : String
  pub dead_letter_queue : String
  pub extra_queues : List String

abbrev pub default_queue_topology : QueueTopology
default_queue_topology = record {
  default_queue = "pybus.jobs";
  slow_queue = "pybus.jobs.slow";
  dead_letter_queue = "pybus.jobs.failed";
  extra_queues = [];
}

-- `queue_name in queues`
unfoldable pub is_in : String → List String → Bool
is_in q [] = false
is_in q (x ∷ xs) = x == q || is_in q xs

unfoldable pub with_queue_names :
    QueueTopology → Option String → Option String → Option String → QueueTopology
with_queue_names t default_queue slow_queue dead_letter_queue = record t {
  default_queue = or_text default_queue t.default_queue;
  slow_queue = or_text slow_queue t.slow_queue;
  dead_letter_queue = or_text dead_letter_queue t.dead_letter_queue;
}

unfoldable pub queues : QueueTopology → List String
queues t = t.default_queue ∷ t.slow_queue ∷ t.dead_letter_queue ∷ t.extra_queues

unfoldable pub has_queue : QueueTopology → String → Bool
unfolding is_in queues
has_queue t q = is_in q (queues t)

-- The loop of `declare_queues`; `t` is not changed by it.
unfoldable pub declare_loop : QueueTopology → List String → List String → List String
unfolding has_queue
declare_loop t extras [] = extras
declare_loop t extras (q ∷ qs) =
    declare_loop t (if has_queue t q || is_in q extras then extras else extras ++ q ∷ []) qs

unfoldable pub declare_queues : List String → QueueTopology → QueueTopology
unfolding declare_loop
declare_queues names t = record t { extra_queues = declare_loop t t.extra_queues names }

unfoldable pub declare_queue : String → QueueTopology → QueueTopology
unfolding declare_queues
declare_queue name = declare_queues (name ∷ [])

unfoldable pub resolve : QueueTopology → Option String → String
resolve t queue_name = or_text queue_name t.default_queue
