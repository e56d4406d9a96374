-- ===== src/Queues/Laws.antt =====
-- What a declaration does to a topology.
use mathlib.Core.Path.{subst}
use pybus.Prelude.{
  Bool-cases, List, String, [], ap, arith, eq_iff, eq_refl, false, if◌then◌else◌, inl, inr, refl,
  true, ◌++◌, ◌==◌, ◌||◌, ◌∙◌, ◌∷◌, ◌≡◌,
}
use pybus.Queues.{QueueTopology, declare_loop, declare_queues, has_queue, is_in, queues}

is_in-append : (q : String) (xs ys : List String) → is_in q (xs ++ ys) ≡ (is_in q xs || is_in q ys)
unfolding is_in
is_in-append q [] ys = refl
is_in-append q (x ∷ xs) ys = ground (arith, is_in-append q xs ys)

is_in_self : (q : String) (xs : List String) → is_in q (xs ++ q ∷ []) ≡ true
is_in_self q xs = rw is_in-append (unfold is_in in ground (arith, eq_refl q))

-- What the loop starts with stays in it.
is_in-declare_loop :
    (t : QueueTopology) (q : String) (extras names : List String)
    → is_in q extras ≡ true
    → is_in q (declare_loop t extras names) ≡ true
unfolding declare_loop
is_in-declare_loop t q extras [] h = h
is_in-declare_loop t q extras (n ∷ ns) h = elim (Bool-cases (has_queue t n || is_in n extras)) [
  | inl e ↦ rw e (is_in-declare_loop t q extras ns h)
  | inr e ↦
      rw e (
        is_in-declare_loop t q (extras ++ n ∷ []) ns
          (is_in-append q extras (n ∷ []) ∙ ground arith))
]

declared_is_in :
    (t : QueueTopology) (q : String) (extras names : List String)
    → is_in q names ≡ true
    → (has_queue t q || is_in q (declare_loop t extras names)) ≡ true
unfolding declare_loop
declared_is_in t q extras [] h = unfold is_in in cc
declared_is_in t q extras (n ∷ ns) h = elim (Bool-cases (is_in q ns)) [
  | inl e ↦
      declared_is_in t q (if has_queue t n || is_in n extras then extras else extras ++ n ∷ []) ns e
  | inr e ↦
      let own : n ≡ q = (eq_iff n q).0 (unfold is_in in ground arith) in
      elim (Bool-cases (has_queue t n || is_in n extras)) [
        | inl old ↦ rw old (
            subst (λ (m : String). (has_queue t m || is_in m (declare_loop t extras ns)) ≡ true) own
              (ground (arith, is_in-declare_loop t n extras ns)))
        | inr new ↦ rw new (
            subst
              (λ (m : String).
                (has_queue t m || is_in m (declare_loop t (extras ++ n ∷ []) ns)) ≡ true)
              own
              (ground (arith, is_in-declare_loop t n (extras ++ n ∷ []) ns (is_in_self n extras))))
      ]
]

has_queue-extra :
    (t : QueueTopology) (extras : List String) (q : String)
    → has_queue (record t { extra_queues = extras }) q
      ≡ (t.default_queue == q || t.slow_queue == q || t.dead_letter_queue == q || is_in q extras)
unfolding has_queue
has_queue-extra t extras q = ground arith

-- Every queue of the topology, and every name that is declared, is a queue of the result.
pub has_queue-declare_queues :
    (names : List String) (t : QueueTopology) (q : String)
    → (has_queue t q || is_in q names) ≡ true
    → has_queue (declare_queues names t) q ≡ true
unfolding declare_queues
has_queue-declare_queues names t q h =
    rw (has_queue-extra t (declare_loop t t.extra_queues names) q) (
      ground (
        arith,
        declared_is_in t q t.extra_queues names,
        is_in-declare_loop t q t.extra_queues names,
        has_queue-extra t t.extra_queues q,
      ))

declare_loop-known :
    (t : QueueTopology) (extras names : List String)
    → ((q : String) → is_in q names ≡ true → has_queue t q ≡ true)
    → declare_loop t extras names ≡ extras
unfolding declare_loop
declare_loop-known t extras [] h = refl
declare_loop-known t extras (n ∷ ns) h =
    let known : has_queue t n ≡ true = h n (unfold is_in in ground (arith, eq_refl n)) in
    rw known (declare_loop-known t extras ns (λ q e. h q (unfold is_in in ground arith)))

-- Declaring the same names a second time changes nothing.
pub declare_queues_idem :
    (names : List String) (t : QueueTopology)
    → declare_queues names (declare_queues names t) ≡ declare_queues names t
declare_queues_idem names t =
    let again =
      declare_loop-known (declare_queues names t) (declare_queues names t).extra_queues names
        (λ q e. has_queue-declare_queues names t q (ground arith)) in
    unfold declare_queues in ap (λ (extras : List String). record t { extra_queues = extras }) again

-- No name occurs twice.
abbrev pub IsUnique : List String → Type 0
IsUnique [] = Unit
IsUnique (x ∷ xs) = (is_in x xs ≡ false) × IsUnique xs

IsUnique-append :
    (q : String) (xs : List String) → is_in q xs ≡ false → IsUnique xs → IsUnique (xs ++ q ∷ [])
IsUnique-append q [] h u = (unfold is_in in refl, tt)
IsUnique-append q (x ∷ xs) h u = (
  is_in-append x xs (q ∷ []) ∙ unfold is_in in ground (arith, u.0, eq_iff x q, eq_iff q x),
  IsUnique-append q xs (unfold is_in in ground arith) u.1,
)

IsUnique-declare_loop :
    (t : QueueTopology) (extras names : List String)
    → IsUnique (queues (record t { extra_queues = extras }))
    → IsUnique (queues (record t { extra_queues = declare_loop t extras names }))
unfolding declare_loop queues
IsUnique-declare_loop t extras [] u = u
IsUnique-declare_loop t extras (n ∷ ns) u = elim (Bool-cases (has_queue t n || is_in n extras)) [
  | inl e ↦ rw e (IsUnique-declare_loop t extras ns u)
  | inr e ↦ rw e (
      IsUnique-declare_loop t (extras ++ n ∷ []) ns (
        IsUnique-append n (t.default_queue ∷ t.slow_queue ∷ t.dead_letter_queue ∷ extras)
          (unfold has_queue is_in in ground arith) u))
]

-- A topology without repeated names has none after a declaration.
pub IsUnique-declare_queues :
    (names : List String) (t : QueueTopology)
    → IsUnique (queues t)
    → IsUnique (queues (declare_queues names t))
unfolding declare_queues
IsUnique-declare_queues names t u = IsUnique-declare_loop t t.extra_queues names u
