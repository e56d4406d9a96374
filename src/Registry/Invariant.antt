-- ===== src/Registry/Invariant.antt =====
-- The invariant of the registry: src/pybus/registry.py.
use pybus.Prelude.{
  All, All-append, Bool, Bool-cases, List, Option, [], any, any-append, arith, eqb, false, inl, inr,
  is_some, none, refl, sym, true, ℕ, ◌++◌, ◌∙◌, ◌∷◌, ◌≡◌,
}
use pybus.Prelude.Exec.{Result-cases, err, ok}
use pybus.Registry.{
  Handler, Registry, RegistryError, allows_multiple, handler_error, handlers_for, is_batched,
  is_filled, message_class_for, register, require_handler,
}
use pybus.Registry.Contents.{Registered, register-Registered}
use pybus.Registry.Laws.{register-err}
use pybus.Registry.Table.{Key, key_eq, key_eq_refl}

abbrev is_lone : List Handler → Bool
is_lone (h ∷ []) = true
is_lone _ = false

abbrev Unrepeated : List Handler → Type 0
Unrepeated [] = Unit
Unrepeated (h ∷ hs) = All (λ k. eqb h.object_id k.object_id ≡ false) hs × Unrepeated hs

Unrepeated-append :
    (h : Handler) (hs : List Handler)
    → any (λ k. eqb k.object_id h.object_id) hs ≡ false
    → Unrepeated hs
    → Unrepeated (hs ++ h ∷ [])
Unrepeated-append h [] q u = (tt, tt)
Unrepeated-append h (k ∷ hs) q u = (
  All-append (λ j. eqb k.object_id j.object_id ≡ false) hs (h ∷ []) u.0 (ground arith, tt),
  Unrepeated-append h hs (ground arith) u.1,
)

-- No handler stands twice under a key, a batched one stands alone there, and a key with a message
-- class has a handler.
pub record IsWellFormed (r : Registry) : Type 0 where
  pub unrepeated : (j : Key) → Unrepeated (handlers_for j r)
  pub lone :
      (j : Key) → any is_batched (handlers_for j r) ≡ true → is_lone (handlers_for j r) ≡ true
  pub classed :
      (j : Key) → is_some (message_class_for j r) ≡ true → is_filled (handlers_for j r) ≡ true

handler_error-Unrepeated :
    (allow : Bool) (h : Handler) (hs : List Handler)
    → handler_error allow h hs ≡ none
    → Unrepeated hs
    → Unrepeated (hs ++ h ∷ [])
handler_error-Unrepeated allow h hs q u =
    Unrepeated-append h hs (unfold handler_error in ground (arith, q)) u

handler_error-lone :
    (allow : Bool) (h : Handler) (hs : List Handler)
    → handler_error allow h hs ≡ none
    → any is_batched (hs ++ h ∷ []) ≡ true
    → is_lone (hs ++ h ∷ []) ≡ true
unfolding handler_error
handler_error-lone allow h [] q b = refl
handler_error-lone allow h (k ∷ hs) q b = ground (arith, q, b, any-append is_batched hs (h ∷ []))

append-filled : (h : Handler) (hs : List Handler) → is_filled (hs ++ h ∷ []) ≡ true
append-filled h [] = refl
append-filled h (k ∷ hs) = refl

Registered-IsWellFormed :
    (key : Key) (h : Handler) (mc : Option ℕ) (allow : Bool) (r r' : Registry)
    → Registered key h mc allow r r'
    → IsWellFormed r
    → IsWellFormed r'
Registered-IsWellFormed key h mc allow r r' g w = record {
  unrepeated = λ j. rw (g.handlers j) (elim (Bool-cases (key_eq key j)) [
    | inl e ↦
        rw e
          (handler_error-Unrepeated allow h (handlers_for key r) g.handler_fits (w.unrepeated key))
    | inr e ↦ rw e (w.unrepeated j)
  ]);
  lone = λ j. rw (g.handlers j) (elim (Bool-cases (key_eq key j)) [
    | inl e ↦ rw e (handler_error-lone allow h (handlers_for key r) g.handler_fits)
    | inr e ↦ rw e (w.lone j)
  ]);
  classed = λ j.
      rw (g.handlers j, g.classes j)
        (elim (Bool-cases (key_eq key j)) [
          | inl e ↦ rw e (λ _. append-filled h (handlers_for key r))
          | inr e ↦ rw e (w.classed j)
        ]);
}

-- A registration keeps a well-formed registry well-formed, whether it returns or raises.
pub register-IsWellFormed :
    (key : Key) (h : Handler) (message_class : Option ℕ) (allow_multiple : Option Bool)
    (r : Registry)
    → IsWellFormed r
    → IsWellFormed (register key h message_class allow_multiple r).1
register-IsWellFormed key h mc am r w = elim (Result-cases (register key h mc am r).0) [
  | inl (e, raised) ↦ rw (register-err key h mc am r e raised) w
  | inr (k, returned) ↦
      Registered-IsWellFormed key h mc (allows_multiple am key.0) r (register key h mc am r).1
        (register-Registered key h k mc am r returned) w
]

exclusive-empty : (h : Handler) (hs : List Handler) → handler_error false h hs ≡ none → hs ≡ []
unfolding handler_error
exclusive-empty h [] q = refl
exclusive-empty h (k ∷ hs) q = ground (arith, q)

-- The handler of a message kind that takes one handler only is the one that was registered for it,
-- and a second registration for the same key raises.
pub require_handler-register :
    (key : Key) (h k again : Handler) (mc mc' : Option ℕ) (am : Option Bool) (r : Registry)
    → allows_multiple am key.0 ≡ false
    → (register key h mc am r).0 ≡ ok k
    → (require_handler key (register key h mc am r).1 ≡ ok h)
      × ((e : RegistryError) × ((register key again mc' am (register key h mc am r).1).0 ≡ err e))
unfolding require_handler
require_handler-register key h k again mc mc' am r one q =
    let g = register-Registered key h k mc am r q in
    let none_before = exclusive-empty h (handlers_for key r) (rw one at g.handler_fits) in
    let now : handlers_for key (register key h mc am r).1 ≡ h ∷ [] =
      g.handlers key ∙ rw (key_eq_refl key, none_before) refl in
    (
      rw now refl,
      elim (Result-cases (register key again mc' am (register key h mc am r).1).0) [
        | inl raised ↦ raised
        | inr (other_k, second) ↦
            let g' =
              register-Registered key again other_k mc' am (register key h mc am r).1 second in
            let nothing_there =
              exclusive-empty again (handlers_for key (register key h mc am r).1)
                (rw one at g'.handler_fits) in
            let absurd_path : h ∷ [] ≡ [] = sym now ∙ nothing_there in cc
      ],
    )
