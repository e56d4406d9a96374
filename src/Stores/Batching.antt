-- ===== src/Stores/Batching.antt =====
-- src/pybus/batching.py: items that are handed over together, when there are enough of them or the
-- first has waited long enough. Times and the longest wait are in microseconds.
use mathlib.Core.List.{append-nil, append_assoc}
use pybus.Prelude.{
  Bool, List, Option, [], leb, length, none, or_else, refl, some, some_and, sym, ℕ, ◌++◌, ◌+◌, ◌||◌,
  ◌∙◌, ◌∷◌, ◌≡◌,
}

pub record BatchBuffer {ℓ} (T : Type ℓ) : Type ℓ where
  pub batch_size : ℕ
  pub max_wait : ℕ
  pub items : List T
  pub first_item_at : Option ℕ

module _ {ℓ} {T : Type ℓ} where
  -- `now - first_item_at >= max_wait`
  unfoldable pub ready : ℕ → BatchBuffer T → Bool
  ready now b =
      leb b.batch_size (length b.items)
      || some_and (λ first. leb (first + b.max_wait) now) b.first_item_at

  unfoldable pub add_item : T → ℕ → BatchBuffer T → Bool × BatchBuffer T
  unfolding ready
  add_item item now b =
      let b' : BatchBuffer T = record b {
        items = b.items ++ item ∷ [];
        first_item_at = some (or_else b.first_item_at now);
      } in
      (ready now b', b')

  unfoldable pub flush : BatchBuffer T → List T × BatchBuffer T
  flush b = (b.items, record b { items = []; first_item_at = none })

  -- One addition after the other, each at its time.
  abbrev pub add_items : List (T × ℕ) → BatchBuffer T → BatchBuffer T
  add_items [] b = b
  add_items ((item, now) ∷ rest) b = add_items rest (add_item item now b).1

  abbrev pub only_items : List (T × ℕ) → List T
  only_items [] = []
  only_items ((item, now) ∷ rest) = item ∷ only_items rest

  items-add_items :
      (xs : List (T × ℕ)) (b : BatchBuffer T) → (add_items xs b).items ≡ b.items ++ only_items xs
  unfolding add_item
  items-add_items [] b = sym (append-nil b.items)
  items-add_items ((x, now) ∷ xs) b =
      items-add_items xs (add_item x now b).1 ∙ append_assoc b.items (x ∷ []) (only_items xs)

  first-add_items :
      (xs : List (T × ℕ)) (b : BatchBuffer T) (first : ℕ)
      → b.first_item_at ≡ some first
      → (add_items xs b).first_item_at ≡ some first
  unfolding add_item
  first-add_items [] b first h = h
  first-add_items ((x, now) ∷ xs) b first h = first-add_items xs (add_item x now b).1 first (rw h)

  -- A flush hands over every item that was added, in order, and leaves a buffer that is empty; the wait
  -- is counted from the first addition after the last flush.
  pub flush-add_items :
      (x : T) (first : ℕ) (xs : List (T × ℕ)) (b : BatchBuffer T)
      → let b' = add_items ((x, first) ∷ xs) (flush b).1 in
        ((flush b').0 ≡ x ∷ only_items xs)
        × ((flush b').1.items ≡ [])
        × (b'.first_item_at ≡ some first)
  unfolding flush
  flush-add_items x first xs b = (
    items-add_items xs (add_item x first (flush b).1).1 ∙ unfold add_item in refl,
    refl,
    first-add_items xs (add_item x first (flush b).1).1 first (unfold add_item in refl),
  )
