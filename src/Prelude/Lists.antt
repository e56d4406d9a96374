-- ===== src/Prelude/Lists.antt =====
-- Lists: membership and quantifiers that compute, the first match, and a guarded update.
use Prim.Native.Nat.{ℕ, zero, suc, ◌+◌}
use native.Mathlib.Nat.{zero-add, suc-add}
use mathlib.Core.Path.{◌≡◌, refl, sym, subst, ap}
use mathlib.Core.Logic.{inl, inr}
use mathlib.Core.Bool.{Bool, true, false, ◌||◌}
use mathlib.Core.Option.{Option, none, some}
use mathlib.Core.List.{List, [], ◌∷◌, ◌++◌}
use native.Mathlib.Omega.{arith}
use pybus.Prelude.Tests.{if◌then◌else◌, Bool-cases}

abbrev pub All {ℓ κ} : {A : Type ℓ} → (A → Type κ) → List A → Type κ
All P [] = Unit
All P (x ∷ xs) = P x × All P xs

module _ {ℓ} {A : Type ℓ} where
  abbrev pub length : List A → ℕ
  length [] = 0
  length (x ∷ xs) = suc (length xs)

  pub length-append : (xs ys : List A) → length (xs ++ ys) ≡ length xs + length ys
  length-append [] ys = omega arith
  length-append (x ∷ xs) ys = omega (arith, length-append xs ys)

  abbrev pub any : (A → Bool) → List A → Bool
  any p [] = false
  any p (x ∷ xs) = p x || any p xs

  pub any-append : (p : A → Bool) (xs ys : List A) → any p (xs ++ ys) ≡ (any p xs || any p ys)
  any-append p [] ys = refl
  any-append p (x ∷ xs) ys = ground (arith, any-append p xs ys)

  abbrev pub keep : (A → Bool) → List A → List A
  keep p [] = []
  keep p (x ∷ xs) = let rest = keep p xs in if p x then x ∷ rest else rest

  -- `.filter(p).first()`
  unfoldable pub first_where : (A → Bool) → List A → Option A
  first_where p [] = none
  first_where p (x ∷ xs) = let rest = first_where p xs in if p x then some x else rest

  -- `.filter(p).update(…)`
  unfoldable pub update_where : (A → Bool) → (A → A) → List A → List A
  update_where p f [] = []
  update_where p f (x ∷ xs) = (if p x then f x else x) ∷ update_where p f xs

  -- `model.save()` on the row that a query found
  unfoldable pub update_first : (A → Bool) → (A → A) → List A → List A
  update_first p f [] = []
  update_first p f (x ∷ xs) = let rest = x ∷ update_first p f xs in if p x then f x ∷ xs else rest

  pub first_where_holds :
      (p : A → Bool) (xs : List A) {x : A} → first_where p xs ≡ some x → p x ≡ true
  unfolding first_where
  first_where_holds p [] h = ground arith
  first_where_holds p (y ∷ xs) {x} h = elim (Bool-cases (p y)) [
    | inl e ↦ ground (arith)
    | inr e ↦ first_where_holds p xs (ground arith)
  ]

module _ {ℓ κ} {A : Type ℓ} (P : A → Type κ) where
  pub All-append : (xs ys : List A) → All P xs → All P ys → All P (xs ++ ys)
  All-append [] ys hx hy = hy
  All-append (x ∷ xs) ys hx hy = (hx.0, All-append xs ys hx.1 hy)

  All-if : (b : Bool) (x y : A) → (b ≡ true → P y) → P x → P (if b then y else x)
  All-if true x y h p = h refl
  All-if false x y h p = p

  pub All-update_where :
      (p : A → Bool) (f : A → A)
      → ((x : A) → p x ≡ true → P x → P (f x))
      → (xs : List A) → All P xs
      → All P (update_where p f xs)
  unfolding update_where
  All-update_where p f h [] a = tt
  All-update_where p f h (x ∷ xs) a =
      (All-if (p x) x (f x) (λ e. h x e a.0) a.0, All-update_where p f h xs a.1)

  pub All-first_where :
      (p : A → Bool) (xs : List A) (x : A) → first_where p xs ≡ some x → All P xs → P x
  unfolding first_where
  All-first_where p [] x h a = cc
  All-first_where p (y ∷ ys) x h a = elim (Bool-cases (p y)) [
    | inl e ↦ let found : some y ≡ some x = rw e at h in let same : y ≡ x = cc in subst P same a.0
    | inr e ↦ All-first_where p ys x (rw e at h) a.1
  ]

  pub All-update_first :
      (p : A → Bool) (f : A → A) (xs : List A) (x : A)
      → first_where p xs ≡ some x
      → (P x → P (f x))
      → All P xs
      → All P (update_first p f xs)
  unfolding update_first first_where
  All-update_first p f [] x h k a = tt
  All-update_first p f (y ∷ ys) x h k a = elim (Bool-cases (p y)) [
    | inl e ↦
        let found : some y ≡ some x = rw e at h in
        let same : y ≡ x = cc in
        rw (e, update_first) (subst (λ (t : A). P t → P (f t)) (sym same) k a.0, a.1)
    | inr e ↦ rw (e, update_first) (a.0, All-update_first p f ys x (rw e at h) k a.1)
  ]

pub All-imp {ℓ κ μ} :
    {A : Type ℓ} {P : A → Type κ} {Q : A → Type μ} (xs : List A)
    → ((x : A) → P x → Q x)
    → All P xs
    → All Q xs
All-imp [] h a = tt
All-imp (x ∷ xs) h a = (h x a.0, All-imp xs h a.1)

module _ {ℓ} {A : Type ℓ} where
  abbrev pub take : ℕ → List A → List A
  take zero xs = []
  take (suc n) [] = []
  take (suc n) (x ∷ xs) = x ∷ take n xs

  abbrev pub drop : ℕ → List A → List A
  drop zero xs = xs
  drop (suc n) [] = []
  drop (suc n) (x ∷ xs) = drop n xs

  take-nil : (n : ℕ) → take n [] ≡ []
  take-nil zero = refl
  take-nil (suc n) = refl

  pub take-add : (n m : ℕ) (xs : List A) → take n xs ++ take m (drop n xs) ≡ take (n + m) xs
  take-add zero m xs = rw zero-add
  take-add (suc n) m [] = rw (take-nil m) (rw (take-nil (suc n + m)))
  take-add (suc n) m (x ∷ xs) = rw suc-add (ap (λ (l : List A). x ∷ l) (take-add n m xs))
