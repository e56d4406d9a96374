-- ===== src/Registry/Laws.antt =====
-- Registration: src/pybus/registry.py.
use pybus.Prelude.{
  Bool, List, Option, Option-cases, [], arith, eqb→eq, inl, inr, none, refl, some, true, ℕ, ◌++◌,
  ◌∙◌, ◌∷◌, ◌≡◌,
}
use pybus.Prelude.Exec.{err, ok}
use pybus.Registry.{
  Handler, Registry, RegistryError, allows_multiple, append_handler, class_error, handler_error,
  handlers_for, is_filled, message_class_for, register, set_class,
}
use pybus.Registry.Table.{Key, KeyDict, get_item, set_default, set_item, set_item-get_item}

set_default_filled :
    {A : Type 0} (k : Key) (a b : A) (t : KeyDict A) → get_item k t ≡ some b → set_default k a t ≡ t
unfolding set_default
set_default_filled k a b t h = rw (h, set_default) refl

handler_error-filled :
    (allow : Bool) (h : Handler) (hs : List Handler) (e : RegistryError)
    → handler_error allow h hs ≡ some e
    → is_filled hs ≡ true
unfolding handler_error
handler_error-filled allow h [] e q = ground arith
handler_error-filled allow h (k ∷ hs) e q = refl

-- A class that passes the checks before a handler was there is the class that was there.
class_error-filled :
    (c : ℕ) (old : Option ℕ) (hs : List Handler)
    → class_error (some c) old hs ≡ none
    → is_filled hs ≡ true
    → old ≡ some c
unfolding class_error
class_error-filled c none [] h f = ground arith
class_error-filled c none (k ∷ hs) h f = ground arith
class_error-filled c (some d) hs h f = ground (arith, eqb→eq c d)

set_class-same :
    (key : Key) (mc : Option ℕ) (r : Registry)
    → class_error mc (message_class_for key r) (handlers_for key r) ≡ none
    → is_filled (handlers_for key r) ≡ true
    → set_class key mc r ≡ r
unfolding set_class message_class_for
set_class-same key none r h f = refl
set_class-same key (some c) r h f = rw (
    set_item-get_item key c r.message_classes
      (class_error-filled c (message_class_for key r) (handlers_for key r) h f))

pub handlers_for-set_class :
    (key j : Key) (mc : Option ℕ) (r : Registry)
    → handlers_for j (set_class key mc r) ≡ handlers_for j r
unfolding handlers_for set_class
handlers_for-set_class key j none r = refl
handlers_for-set_class key j (some c) r = refl

pub append_handler_refused :
    (key : Key) (allow : Bool) (h : Handler) (r : Registry) (e : RegistryError)
    → handler_error allow h (handlers_for key r) ≡ some e
    → append_handler key allow h r ≡ (err e, record r { handlers = set_default key [] r.handlers })
unfolding append_handler
append_handler_refused key allow h r e q = rw (q, append_handler) refl

pub append_handler_passed :
    (key : Key) (allow : Bool) (h : Handler) (r : Registry)
    → handler_error allow h (handlers_for key r) ≡ none
    → append_handler key allow h r ≡ (
      ok h,
      record r {
        handlers = set_item key (handlers_for key r ++ h ∷ []) (set_default key [] r.handlers);
      },
    )
unfolding append_handler
append_handler_passed key allow h r q = rw (q, append_handler) refl

pub register_refused :
    (key : Key) (h : Handler) (mc : Option ℕ) (am : Option Bool) (r : Registry) (e : RegistryError)
    → class_error mc (message_class_for key r) (handlers_for key r) ≡ some e
    → register key h mc am r ≡ (err e, r)
unfolding register
register_refused key h mc am r e q = rw (q, register) refl

pub register_passed :
    (key : Key) (h : Handler) (mc : Option ℕ) (am : Option Bool) (r : Registry)
    → class_error mc (message_class_for key r) (handlers_for key r) ≡ none
    → register key h mc am r ≡ append_handler key (allows_multiple am key.0) h (set_class key mc r)
unfolding register
register_passed key h mc am r q = rw (q, register) refl

handlers_for-filled :
    (key : Key) (r : Registry)
    → is_filled (handlers_for key r) ≡ true
    → set_default key [] r.handlers ≡ r.handlers
unfolding handlers_for
handlers_for-filled key r f = elim (Option-cases (get_item key r.handlers)) [
  | inl none_there ↦ ground (arith, none_there)
  | inr (hs, there) ↦ set_default_filled key [] hs r.handlers there
]

append_handler-err :
    (key : Key) (allow : Bool) (h : Handler) (r : Registry) (e : RegistryError)
    → (append_handler key allow h r).0 ≡ err e
    → (is_filled (handlers_for key r) ≡ true) × ((append_handler key allow h r).1 ≡ r)
append_handler-err key allow h r e q =
    elim (Option-cases (handler_error allow h (handlers_for key r))) [
      | inl passed ↦ let wrong = rw (append_handler_passed key allow h r passed) at q in cc
      | inr (f, refused) ↦
          let filled = handler_error-filled allow h (handlers_for key r) f refused in
          (
            filled,
            rw (append_handler_refused key allow h r f refused)
                (rw (handlers_for-filled key r filled) refl),
          )
    ]

-- A registration that raises leaves the registry as it was, whichever check refused it.
pub register-err :
    (key : Key) (h : Handler) (message_class : Option ℕ) (allow_multiple : Option Bool)
    (r : Registry) (e : RegistryError)
    → (register key h message_class allow_multiple r).0 ≡ err e
    → (register key h message_class allow_multiple r).1 ≡ r
register-err key h mc am r e q =
    elim (Option-cases (class_error mc (message_class_for key r) (handlers_for key r))) [
      | inl passed ↦
          let whole = register_passed key h mc am r passed in
          let (filled, same) =
            append_handler-err key (allows_multiple am key.0) h (set_class key mc r) e
              (rw whole at q) in
          rw whole (
            same
            ∙ set_class-same key mc r passed (rw (handlers_for-set_class key key mc r) at filled))
      | inr (f, refused) ↦ rw (register_refused key h mc am r f refused) refl
    ]
