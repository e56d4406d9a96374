-- ===== src/Registry/Table.antt =====
-- Python's `dict` with pairs of texts as keys, in insertion order: src/pybus/registry.py.
use pybus.Prelude.{
  Bool, Bool-cases, List, Option, String, [], ap, arith, eq_iff, eq_refl, if◌then◌else◌, inl, inr,
  none, refl, some, sym, true, ◌&&◌, ◌==◌, ◌∷◌, ◌≡◌,
}

abbrev pub Key : Type 0
Key = String × String

abbrev pub KeyDict : Type 0 → Type 0
KeyDict A = List (Key × A)

unfoldable pub key_eq : Key → Key → Bool
key_eq k l = k.0 == l.0 && k.1 == l.1

module _ {A : Type 0} where
  unfoldable pub get_item : Key → KeyDict A → Option A
  get_item k [] = none
  get_item k ((l, a) ∷ t) = if key_eq l k then some a else get_item k t

  unfoldable pub set_item : Key → A → KeyDict A → KeyDict A
  set_item k a [] = (k, a) ∷ []
  set_item k a ((l, b) ∷ t) =
      let rest = set_item k a t in if key_eq l k then (l, a) ∷ t else (l, b) ∷ rest

  -- `setdefault`
  unfoldable pub set_default : Key → A → KeyDict A → KeyDict A
  unfolding get_item set_item
  set_default k a t = elim (get_item k t) [ none ↦ set_item k a t | some b ↦ t ]

key_eq_lem : (k l : Key) → key_eq k l ≡ true → k ≡ l
unfolding key_eq
key_eq_lem (a, b) (c, d) h = ground (arith, eq_iff a c, eq_iff b d)

pub key_eq_refl : (k : Key) → key_eq k k ≡ true
unfolding key_eq
key_eq_refl (a, b) = rw (eq_refl a, eq_refl b) refl

key_eq_trade : (l k j : Key) → key_eq l k ≡ true → key_eq l j ≡ key_eq k j
key_eq_trade l k j h = ap (λ (m : Key). key_eq m j) (key_eq_lem l k h)

key_eq_turn : (k j l : Key) → key_eq k j ≡ true → key_eq l j ≡ key_eq l k
key_eq_turn k j l h = ap (λ (m : Key). key_eq l m) (sym (key_eq_lem k j h))

module _ {A : Type 0} where
  pub get_item-set_item :
      (k j : Key) (a : A) (t : KeyDict A)
      → get_item j (set_item k a t) ≡ (if key_eq k j then some a else get_item j t)
  unfolding get_item set_item
  get_item-set_item k j a [] = refl
  get_item-set_item k j a ((l, b) ∷ t) = elim (Bool-cases (key_eq l k)) [
    | inl e ↦
        rw (e, get_item, key_eq_trade l k j e)
          (elim (Bool-cases (key_eq k j)) [ inl f ↦ rw f | inr f ↦ rw f ])
    | inr e ↦ ground (arith, e, get_item-set_item k j a t, key_eq_turn k j l)
  ]

  -- Writing what is there changes nothing.
  pub set_item-get_item :
      (k : Key) (a : A) (t : KeyDict A) → get_item k t ≡ some a → set_item k a t ≡ t
  unfolding get_item set_item
  set_item-get_item k a [] h = cc
  set_item-get_item k a ((l, b) ∷ t) h = elim (Bool-cases (key_eq l k)) [
    | inl e ↦ ground (arith, e, h)
    | inr e ↦ ground (arith, e, set_item-get_item k a t (rw e at h))
  ]
