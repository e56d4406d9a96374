-- ===== src/Registry.antt =====
-- src/pybus/registry.py: which handlers take which messages. A handler is its identity with what
-- `_is_batched` reads of it; a message class is its identity.
pub mod Table
pub mod Laws
pub mod Contents
pub mod Invariant
use pybus.Prelude.{
  Bool, List, Option, String, [], any, eqb, false, if◌then◌else◌, is_some, none, not, or_else, some,
  true, ℕ, ◌&&◌, ◌++◌, ◌==◌, ◌||◌, ◌∷◌,
}
use pybus.Prelude.Exec.{Exec, Result, err, ok}
use pybus.Registry.Table.{Key, KeyDict, get_item, set_default, set_item}

pub record Handler : Type 0 where
  pub object_id : ℕ
  pub spec : Option Bool
  pub func_spec : Option Bool

pub record Registry : Type 0 where
  pub handlers : KeyDict (List Handler)
  pub message_classes : KeyDict ℕ

-- The raises of `register`.
pub data RegistryError : Type 0 where
  cannot_mix_handlers different_classes duplicate_handler : RegistryError
  batched_registered handler_registered : RegistryError

-- The raises of `require_handler`.
pub data HandlerError : Type 0 where
  no_handlers multiple_handlers : HandlerError

-- `_is_batched`; a spec holds its `is_batched`.
unfoldable pub is_batched : Handler → Bool
is_batched h = if is_some h.spec then or_else h.spec false else or_else h.func_spec false

-- The checks of the message class, before anything is written.
unfoldable pub class_error : Option ℕ → Option ℕ → List Handler → Option RegistryError
class_error none none existing = none
class_error none (some d) existing = some cannot_mix_handlers
class_error (some c) none [] = none
class_error (some c) none (h ∷ hs) = some cannot_mix_handlers
class_error (some c) (some d) existing = if eqb c d then none else some different_classes

-- `bool(handlers)`
abbrev pub is_filled : List Handler → Bool
is_filled [] = false
is_filled (h ∷ hs) = true

-- The checks of the handler, after the class is written.
unfoldable pub handler_error : Bool → Handler → List Handler → Option RegistryError
unfolding is_batched
handler_error allow h existing =
    if any (λ k. eqb k.object_id h.object_id) existing
    then some duplicate_handler
    else if is_filled existing && (is_batched h || any is_batched existing)
    then some batched_registered
    else if not allow && is_filled existing
    then some handler_registered
    else none

-- `if message_class is not None: self._message_classes[key] = message_class`
unfoldable pub set_class : Key → Option ℕ → Registry → Registry
set_class key none r = r
set_class key (some c) r = record r { message_classes = set_item key c r.message_classes }

unfoldable pub handlers_for : Key → Registry → List Handler
handlers_for key r = or_else (get_item key r.handlers) []

unfoldable pub message_class_for : Key → Registry → Option ℕ
message_class_for key r = get_item key r.message_classes

-- The end of `register`: `setdefault`, the checks, `append`.
unfoldable pub append_handler : Key → Bool → Handler → Exec Registry RegistryError Handler
unfolding handler_error handlers_for
append_handler key allow h r =
    let existing = handlers_for key r in
    let r' : Registry = record r { handlers = set_default key [] r.handlers } in
    elim (handler_error allow h existing) [
      | some e ↦ (err e, r')
      | none ↦ (ok h, record r' { handlers = set_item key (existing ++ h ∷ []) r'.handlers })
    ]

-- `allow_multiple`, with its default.
unfoldable pub allows_multiple : Option Bool → String → Bool
allows_multiple none message_kind = message_kind == "event"
allows_multiple (some b) message_kind = b

unfoldable pub register :
    Key → Handler → Option ℕ → Option Bool → Exec Registry RegistryError Handler
unfolding class_error set_class append_handler message_class_for handlers_for allows_multiple
register key h message_class allow_multiple r =
    elim (class_error message_class (message_class_for key r) (handlers_for key r)) [
      | some e ↦ (err e, r)
      | none ↦
          append_handler key (allows_multiple allow_multiple key.0) h
            (set_class key message_class r)
    ]

abbrev pub one_handler : List Handler → Result HandlerError Handler
one_handler [] = err no_handlers
one_handler (h ∷ []) = ok h
one_handler (h ∷ k ∷ hs) = err multiple_handlers

unfoldable pub require_handler : Key → Registry → Result HandlerError Handler
unfolding handlers_for
require_handler key r = one_handler (handlers_for key r)

unfoldable pub has_handlers : Key → Registry → Bool
unfolding handlers_for
has_handlers key r = is_filled (handlers_for key r)

unfoldable pub clear : Registry → Registry
clear r = record { handlers = []; message_classes = [] }

-- The keys with their handlers, in the order of their first registration.
unfoldable pub items : Registry → List (Key × List Handler)
items r = r.handlers
