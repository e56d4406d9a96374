-- ===== src/Registry/Contents.antt =====
-- What a registration leaves behind: src/pybus/registry.py.
use pybus.Prelude.{
  Bool, Bool-cases, List, Option, Option-cases, [], false, if◌then◌else◌, inl, inr, is_some, none,
  refl, some, ℕ, ◌&&◌, ◌++◌, ◌∙◌, ◌∷◌, ◌≡◌,
}
use pybus.Prelude.Exec.{ok}
use pybus.Registry.{
  Handler, Registry, allows_multiple, append_handler, class_error, handler_error, handlers_for,
  message_class_for, register, set_class,
}
use pybus.Registry.Laws.{
  append_handler_passed, append_handler_refused, handlers_for-set_class, register_passed,
  register_refused,
}
use pybus.Registry.Table.{Key, KeyDict, get_item, get_item-set_item, key_eq, set_default, set_item}

get_item-set_default_ne :
    {A : Type 0} (k j : Key) (a : A) (t : KeyDict A)
    → key_eq k j ≡ false
    → get_item j (set_default k a t) ≡ get_item j t
unfolding set_default
get_item-set_default_ne k j a t h = elim (Option-cases (get_item k t)) [
  | inl fresh ↦ rw (fresh, set_default) (get_item-set_item k j a t ∙ rw h refl)
  | inr (b, there) ↦ rw (there, set_default) refl
]

handlers_for-set_item :
    (key j : Key) (hs : List Handler) (r : Registry)
    → handlers_for j (record r { handlers = set_item key hs (set_default key [] r.handlers) })
      ≡ (if key_eq key j then hs else handlers_for j r)
unfolding handlers_for
handlers_for-set_item key j hs r =
    rw (get_item-set_item key j hs (set_default key [] r.handlers))
      (elim (Bool-cases (key_eq key j)) [
        | inl e ↦ rw e refl
        | inr e ↦ rw e (rw (get_item-set_default_ne key j [] r.handlers e) refl)
      ])

message_class_for-set_class :
    (key j : Key) (mc : Option ℕ) (r : Registry)
    → message_class_for j (set_class key mc r)
      ≡ (if key_eq key j && is_some mc then mc else message_class_for j r)
unfolding message_class_for set_class
message_class_for-set_class key j none r = elim (Bool-cases (key_eq key j)) [
  | inl e ↦ rw e refl
  | inr e ↦ rw e refl
]
message_class_for-set_class key j (some c) r =
    get_item-set_item key j c r.message_classes
    ∙ elim (Bool-cases (key_eq key j)) [ inl e ↦ rw e refl | inr e ↦ rw e refl ]

message_class_for-handlers :
    (j : Key) (hs : KeyDict (List Handler)) (r : Registry)
    → message_class_for j (record r { handlers = hs }) ≡ message_class_for j r
unfolding message_class_for
message_class_for-handlers j hs r = refl

-- The checks that a handler has passed when it is registered, and the registry that it stands in.
pub record Registered (key : Key) (h : Handler) (mc : Option ℕ) (allow : Bool) (r r' : Registry)
    : Type 0 where
  pub class_fits : class_error mc (message_class_for key r) (handlers_for key r) ≡ none
  pub handler_fits : handler_error allow h (handlers_for key r) ≡ none
  pub handlers :
      (j : Key)
      → handlers_for j r'
        ≡ (if key_eq key j then handlers_for key r ++ h ∷ [] else handlers_for j r)
  pub classes :
      (j : Key)
      → message_class_for j r' ≡ (if key_eq key j && is_some mc then mc else message_class_for j r)

append_handler-ok :
    (key : Key) (allow : Bool) (h k : Handler) (r : Registry)
    → (append_handler key allow h r).0 ≡ ok k
    → handler_error allow h (handlers_for key r) ≡ none
append_handler-ok key allow h k r q =
    elim (Option-cases (handler_error allow h (handlers_for key r))) [
      | inl passed ↦ passed
      | inr (f, refused) ↦
          let wrong = rw (append_handler_refused key allow h r f refused) at q in cc
    ]

register_class-ok :
    (key : Key) (h k : Handler) (mc : Option ℕ) (am : Option Bool) (r : Registry)
    → (register key h mc am r).0 ≡ ok k
    → class_error mc (message_class_for key r) (handlers_for key r) ≡ none
register_class-ok key h k mc am r q =
    elim (Option-cases (class_error mc (message_class_for key r) (handlers_for key r))) [
      | inl passed ↦ passed
      | inr (f, refused) ↦ let wrong = rw (register_refused key h mc am r f refused) at q in cc
    ]

-- A registration that returns has appended the handler to those of its key and set the class of the
-- key if it gave one; every other key has the handlers and the class that it had.
pub register-Registered :
    (key : Key) (h k : Handler) (message_class : Option ℕ) (allow_multiple : Option Bool)
    (r : Registry)
    → (register key h message_class allow_multiple r).0 ≡ ok k
    → Registered key h message_class
        (allows_multiple allow_multiple key.0)
        r
        (register key h message_class allow_multiple r).1
register-Registered key h k mc am r q =
    let allow = allows_multiple am key.0 in
    let class_fits = register_class-ok key h k mc am r q in
    let whole = register_passed key h mc am r class_fits in
    let fits = append_handler-ok key allow h k (set_class key mc r) (rw whole at q) in
    let left = append_handler_passed key allow h (set_class key mc r) fits in
    record {
      class_fits = class_fits;
      handler_fits = rw (handlers_for-set_class key key mc r) at fits;
      handlers = λ j.
          rw (whole, left)
            (handlers_for-set_item key j (handlers_for key (set_class key mc r) ++ h ∷ [])
                (set_class key mc r)
              ∙ rw (handlers_for-set_class key key mc r, handlers_for-set_class key j mc r) refl);
      classes = λ j.
          rw (whole, left)
            (message_class_for-handlers j _ (set_class key mc r)
              ∙ message_class_for-set_class key j mc r);
    }
