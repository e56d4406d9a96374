-- ===== src/Durable/Claim/Order.antt =====
-- The row that a claim picks: the first by creation time, then id, of those that pass the filter.
use mathlib.Core.Path.{subst}
use pybus.Durable.Claim.{comes_before, earliest, sooner}
use pybus.Durable.Guards.{sooner-cases}
use pybus.Durable.Types.{DurableJob}
use pybus.Prelude.{
  All, All-imp, Bool, Bool-cases, List, Option, [], arith, false, inl, inr, none, refl, some, sym,
  true, ◌&&◌, ◌∷◌, ◌≡◌,
}

comes_before-asym : (j k : DurableJob) → comes_before k j ≡ true → comes_before j k ≡ false
unfolding comes_before
comes_before-asym j k h = ground arith

comes_before-negtrans :
    (x k j : DurableJob)
    → comes_before x k ≡ false
    → comes_before k j ≡ false
    → comes_before x j ≡ false
unfolding comes_before
comes_before-negtrans x k j h g = ground arith

comes_before_irrefl : (j : DurableJob) → comes_before j j ≡ false
unfolding comes_before
comes_before_irrefl j = ground arith

pub All-earliest :
    (P : DurableJob → Type 0) (p : DurableJob → Bool) (js : List DurableJob) (m : DurableJob)
    → earliest p js ≡ some m
    → All P js
    → P m
unfolding earliest
All-earliest P p [] m h a = cc
All-earliest P p (j ∷ js) m h a = elim (Bool-cases (p j)) [
  | inl e ↦ elim (sooner-cases j (earliest p js) m (rw e at h)) [
    | inl q ↦ subst P (sym q) a.0
    | inr q ↦ All-earliest P p js m q a.1
  ]
  | inr e ↦ All-earliest P p js m (rw e at h) a.1
]

pub earliest-none :
    (p : DurableJob → Bool) (js : List DurableJob)
    → earliest p js ≡ none
    → All (λ j. p j ≡ false) js
unfolding earliest
earliest-none p [] h = tt
earliest-none p (j ∷ js) h = elim (Bool-cases (p j)) [
  | inl e ↦ absurd (sooner-some j (earliest p js) (rw e at h))
  | inr e ↦ (e, earliest-none p js (rw e at h))
]
  where
    sooner-some : (k : DurableJob) (o : Option DurableJob) → sooner k o ≡ none → ⊥
    sooner-some k o q = ground arith

-- `sooner j o` does not come after `j`, nor after the row in `o`.
sooner_first :
    (p : DurableJob → Bool) (j : DurableJob) (o : Option DurableJob) (m : DurableJob)
    (js : List DurableJob)
    → ((k : DurableJob) → o ≡ some k → All (λ x. (p x && comes_before x k) ≡ false) js)
    → (o ≡ none → All (λ x. p x ≡ false) js)
    → sooner j o ≡ some m
    → (comes_before j m ≡ false) × All (λ x. (p x && comes_before x m) ≡ false) js
unfolding sooner
sooner_first p j none m js h n e =
    let same : j ≡ m = cc in
    subst
      (λ (t : DurableJob).
        (comes_before j t ≡ false) × All (λ x. (p x && comes_before x t) ≡ false) js)
      same (comes_before_irrefl j, All-imp js (λ x q. ground arith) (n refl))
sooner_first p j (some k) m js h n e = elim (Bool-cases (comes_before k j)) [
  | inl b ↦
      let found : some k ≡ some m = rw b at e in
      let same : k ≡ m = cc in
      subst
        (λ (t : DurableJob).
          (comes_before j t ≡ false) × All (λ x. (p x && comes_before x t) ≡ false) js)
        same (comes_before-asym j k b, h k refl)
  | inr b ↦
      let found : some j ≡ some m = rw b at e in
      let same : j ≡ m = cc in
      subst
        (λ (t : DurableJob).
          (comes_before j t ≡ false) × All (λ x. (p x && comes_before x t) ≡ false) js)
        same
        (
          comes_before_irrefl j,
          All-imp js (λ x q. ground (arith, comes_before-negtrans x k j)) (h k refl),
        )
]

pub earliest_first :
    (p : DurableJob → Bool) (js : List DurableJob) (m : DurableJob)
    → earliest p js ≡ some m
    → All (λ x. (p x && comes_before x m) ≡ false) js
unfolding earliest
earliest_first p [] m h = tt
earliest_first p (j ∷ js) m h = elim (Bool-cases (p j)) [
  | inl e ↦
      let (own, rest) =
        sooner_first p j (earliest p js) m js (earliest_first p js) (earliest-none p js)
          (rw e at h) in
      (ground arith, rest)
  | inr e ↦ (ground arith, earliest_first p js m (rw e at h))
]
