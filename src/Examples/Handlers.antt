-- ===== src/Examples/Handlers.antt =====
-- A registry for one command.
use pybus.Prelude.{[], none, refl, some, true, ◌∷◌, ◌≡◌}
use pybus.Prelude.Exec.{err, ok}
use pybus.Registry.{
  Handler, Registry, RegistryError, allows_multiple, batched_registered, handlers_for, is_batched,
  message_class_for, register, require_handler,
}
use pybus.Registry.Contents.{Registered, register-Registered}
use pybus.Registry.Invariant.{IsWellFormed, register-IsWellFormed, require_handler-register}
use pybus.Registry.Laws.{register-err}
use pybus.Registry.Table.{Key, get_item, key_eq, set_default}

abbrev one_order : Handler
one_order = record { object_id = 1; spec = none; func_spec = none }

abbrev another_order : Handler
another_order = record { object_id = 2; spec = some true; func_spec = none }

abbrev order_key : Key
order_key = ("command", "order.place")

abbrev empty_registry : Registry
empty_registry = record { handlers = []; message_classes = [] }

abbrev one_registered : Registry
one_registered = record {
  handlers = (order_key, one_order ∷ []) ∷ [];
  message_classes = (order_key, 7) ∷ [];
}

register-err_example :
    (register order_key another_order (some 7) none one_registered).1 ≡ one_registered
unfolding register get_item key_eq set_default is_batched
register-err_example =
    register-err order_key another_order (some 7) none one_registered batched_registered refl

register-Registered_example :
    Registered order_key one_order
      (some 7)
      (allows_multiple none "command")
      empty_registry
      (register order_key one_order (some 7) none empty_registry).1
unfolding register get_item
register-Registered_example =
    register-Registered order_key one_order one_order (some 7) none empty_registry refl

empty_registry-IsWellFormed : IsWellFormed empty_registry
unfolding handlers_for message_class_for get_item
empty_registry-IsWellFormed = record { unrepeated = λ j. tt; lone = λ j h. cc; classed = λ j h. cc }

register-IsWellFormed_example :
    IsWellFormed (register order_key one_order (some 7) none empty_registry).1
register-IsWellFormed_example =
    register-IsWellFormed order_key one_order (some 7) none empty_registry
      empty_registry-IsWellFormed

require_handler-register_example :
    (require_handler order_key (register order_key one_order (some 7) none empty_registry).1
      ≡ ok one_order)
    × ((e : RegistryError) × ((register order_key another_order none none
            (register order_key one_order (some 7) none empty_registry).1).0
          ≡ err e))
unfolding register get_item
require_handler-register_example =
    require_handler-register order_key one_order one_order another_order (some 7) none none
      empty_registry refl refl
