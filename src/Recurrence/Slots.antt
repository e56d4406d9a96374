-- ===== src/Recurrence/Slots.antt =====
-- The search for the next slot: src/pybus/recurrence.py.
use mathlib.Core.Path.{subst}
use pybus.Prelude.{
  Bool-cases, ap, arith, eqb, false, inl, inr, leb, ltb, ltb→lt, refl, some, suc, true, zero, ℕ,
  ◌+◌, ◌<◌, ◌∙◌, ◌≡◌, ◌≤◌,
}
use pybus.Prelude.Exec.{ok}
use pybus.Recurrence.{
  Calendar, Recurrence, Zone, bounded, candidate_local, day_length, later_reading, resolve_local,
  search_slot,
}

-- What is documented of a time zone: its offset is less than a day, and a wall-clock reading that is
-- skipped, taken with the offset before the gap, comes out later.
pub record IsSteady (z : Zone) : Type 0 where
  pub ahead : (t : ℕ) → z.to_wall t < t + day_length
  pub behind : (t : ℕ) → t < z.to_wall t + day_length
  pub forward : (v : ℕ) → v ≤ z.to_wall (z.of_wall false v)

later_reading-total :
    (z : Zone) (v first second : ℕ)
    → ltb v (z.to_wall first) ≡ true
    → (c : ℕ) × (later_reading z v first second ≡ some c) × (v ≤ z.to_wall c)
unfolding later_reading
later_reading-total z v first second h = elim (Bool-cases (ltb v (z.to_wall second))) [
  | inl e ↦ elim (Bool-cases (leb first second)) [
    | inl l ↦ (first, rw (h, later_reading) (rw e (rw l refl)), ground (arith, h))
    | inr l ↦ (second, rw (h, later_reading) (rw e (rw l refl)), ground (arith, e))
  ]
  | inr e ↦ (first, rw (h, later_reading) (rw e refl), ground (arith, h))
]

-- Every reading resolves, and not to an earlier one.
pub resolve_local-total :
    (z : Zone) (v : ℕ) → IsSteady z → (c : ℕ) × (resolve_local z v ≡ some c) × (v ≤ z.to_wall c)
unfolding resolve_local
resolve_local-total z v steady = elim (Bool-cases (eqb (z.to_wall (z.of_wall false v)) v)) [
  | inl e ↦ (z.of_wall false v, rw (e, resolve_local) refl, steady.forward v)
  | inr e ↦ elim (Bool-cases (eqb (z.to_wall (z.of_wall true v)) v)) [
    | inl e' ↦ (z.of_wall true v, rw (e, resolve_local) (rw e' refl), ground (arith, e'))
    | inr e' ↦
        let (c, found, le) =
          later_reading-total z v (z.of_wall false v) (z.of_wall true v)
            (ground (arith, e, steady.forward v)) in
        (c, rw (e, resolve_local) (rw e' found), le)
  ]
]

-- `k` is the first step at which the sequence `f` passes `after`.
pub record FirstAfter (f : ℕ → ℕ) (after index k : ℕ) : Type 0 where
  pub late : after < f (index + k)
  pub early : (i : ℕ) → i < k → f (index + i) ≤ after

module _ (cal : Calendar) (z : Zone) (r : Recurrence) (anchor after : ℕ) (f : ℕ → ℕ)
    (resolved : (i : ℕ)
      → resolve_local z (candidate_local cal anchor r.cadence i) ≡ some (f i)) where
  search_slot-late :
      (fuel index : ℕ)
      → ltb after (f index) ≡ true
      → search_slot cal z r anchor after (suc fuel) index ≡ ok (bounded r.ends_at (f index))
  unfolding search_slot
  search_slot-late fuel index h = rw (resolved index, search_slot) (rw h refl)

  search_slot-early :
      (fuel index : ℕ)
      → ltb after (f index) ≡ false
      → search_slot cal z r anchor after (suc fuel) index
        ≡ search_slot cal z r anchor after fuel (index + 1)
  unfolding search_slot
  search_slot-early fuel index h = rw (resolved index, search_slot) (rw h refl)

  later_step :
      (index m : ℕ) → after < f (index + m) → ltb after (f index) ≡ false → (n : ℕ) × (m ≡ suc n)
  later_step index zero late e =
      let here : after < f index = subst (λ (i : ℕ). after < f i) (omega arith) late in
      ground (arith, here, e)
  later_step index (suc n) late e = (n, refl)

  early_step :
      (index k : ℕ)
      → ltb after (f index) ≡ false
      → FirstAfter f after (index + 1) k
      → (i : ℕ) → i < suc k
      → f (index + i) ≤ after
  early_step index k e first zero l =
      let here : f index ≤ after = ground (arith, e) in
      subst (λ (i : ℕ). f i ≤ after) (omega arith) here
  early_step index k e first (suc i) l =
      subst (λ (i : ℕ). f i ≤ after) (omega arith) (first.early i (omega (arith, l)))

  FirstAfter-step :
      (index k : ℕ)
      → ltb after (f index) ≡ false
      → FirstAfter f after (index + 1) k
      → FirstAfter f after index (suc k)
  FirstAfter-step index k e first = record {
    late = subst (λ (i : ℕ). after < f i) (omega arith) first.late;
    early = early_step index k e first;
  }

  pub search_slot_lem :
      (fuel index m : ℕ)
      → m < fuel
      → after < f (index + m)
      → (k : ℕ) × (search_slot cal z r anchor after fuel index
          ≡ ok (bounded r.ends_at (f (index + k))))
        × FirstAfter f after index k
  search_slot_lem zero index m h late = let no_fuel : ⊥ = omega (arith, h) in absurd no_fuel
  search_slot_lem (suc fuel) index m h late = elim (Bool-cases (ltb after (f index))) [
    | inl e ↦ (
      0,
      search_slot-late fuel index e ∙ ap (λ (i : ℕ). ok (bounded r.ends_at (f i))) (omega arith),
      record {
        late = subst (λ (i : ℕ). after < f i) (omega arith) (ltb→lt after (f index) e);
        early = λ i l. omega (arith, l);
      },
    )
    | inr e ↦
        let (n, same) = later_step index m late e in
        let further : after < f (index + 1 + n) =
          subst (λ (i : ℕ). after < f i) (omega (arith, same)) late in
        let (k, found, first) =
          search_slot_lem fuel (index + 1) n (omega (arith, h, same)) further in
        (
          suc k,
          search_slot-early fuel index e
              ∙ found
              ∙ ap (λ (i : ℕ). ok (bounded r.ends_at (f i))) (omega arith),
          FirstAfter-step index k e first,
        )
  ]
