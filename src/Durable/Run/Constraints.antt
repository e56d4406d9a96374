-- ===== src/Durable/Run/Constraints.antt =====
-- The constraints of the job table (src/pybus/integrations/django_durable/models.py): no two rows with
-- one id, one message id, one idempotency key or one number in a series, and no two live rows of one
-- series. `create` tests them; no other write of the store can break them.
use mathlib.Core.Path.{subst}
use pybus.Codec.{Stdlib}
use pybus.Durable.Admit.{admit_row}
use pybus.Durable.Claim.{claim_row, mark_exhausted, sweep}
use pybus.Durable.Life.{Identity, identity}
use pybus.Durable.Moves.Basic.{Laws}
use pybus.Durable.Moves.Publisher.{sweep-Moves}
use pybus.Durable.Publish.{dead_letter_claimed, indeterminate_row, publish_row}
use pybus.Durable.Queries.{cancel_occurrence, save_job, write_jobs}
use pybus.Durable.Run.{Call, history}
use pybus.Durable.Run.Histories.{Admissions-Lawful, history-Moves}
use pybus.Durable.Run.Lifetime.{any_admission}
use pybus.Durable.Schedule.{conflicts, draft_row, same_key, same_number}
use pybus.Durable.Settle.{
  checkpoint_row, dead_letter_settled, release_row, republish_row, succeed_row,
}
use pybus.Durable.Types.{Db, DurableJob, is_terminal}
use pybus.Prelude.{
  All, All-append, Bool, Bool-cases, List, [], any, arith, eqb, false, first_where, inl, inr, not,
  refl, some, sym, true, update_first, update_where, ℕ, ◌&&◌, ◌++◌, ◌==◌, ◌||◌, ◌∷◌, ◌≡◌,
}
use pybus.Recurrence.{Calendar}

abbrev pub Distinct : List DurableJob → Type 0
Distinct [] = Unit
Distinct (j ∷ js) = All (λ k. conflicts k j ≡ false) js × Distinct js

-- A row that stands for the same job, and has ended if it had.
record Shadows (old new : DurableJob) : Type 0 where
  same : identity new ≡ identity old
  ended : is_terminal old.state ≡ true → is_terminal new.state ≡ true

Shadows-refl : (j : DurableJob) → Shadows j j
Shadows-refl j = record { same = refl; ended = λ h. h }

-- A write to a row that has not ended.
Shadows-write :
    (old new : DurableJob)
    → identity new ≡ identity old
    → is_terminal old.state ≡ false
    → Shadows old new
Shadows-write old new same h = record { same = same; ended = λ t. absurd (ground arith) }

-- `conflicts` reads the identities of the rows, and whether they have ended.
clash : Identity → Bool → Identity → Bool → Bool
clash new new_ended i ended =
    eqb i.id new.id
    || i.message_id == new.message_id
    || same_key i.idempotency_key new.idempotency_key
    || same_number i.series new.series && same_number i.occurrence_number new.occurrence_number
    || same_number i.series new.series && not ended && not new_ended

clash-ended :
    (new i : Identity) (new_ended new_ended' ended ended' : Bool)
    → (new_ended ≡ true → new_ended' ≡ true)
    → (ended ≡ true → ended' ≡ true)
    → clash new new_ended i ended ≡ false
    → clash new new_ended' i ended' ≡ false
unfolding clash
clash-ended new i a a' b b' p q h = ground arith

conflicts-Shadows :
    (x y x' y' : DurableJob)
    → Shadows x x'
    → Shadows y y'
    → conflicts x y ≡ false
    → conflicts x' y' ≡ false
unfolding conflicts clash
conflicts-Shadows x y x' y' p q h =
    let end = λ (j : DurableJob). is_terminal j.state in
    subst (λ (i : Identity). clash i (end x') (identity y') (end y') ≡ false) (sym p.same)
      (subst (λ (i : Identity). clash (identity x) (end x') i (end y') ≡ false) (sym q.same)
        (clash-ended (identity x) (identity y) (end x) (end x') (end y) (end y') p.ended q.ended h))

-- A table of the same length, with a shadow for each row.
abbrev ShadowsAll : List DurableJob → List DurableJob → Type 0
ShadowsAll [] [] = Unit
ShadowsAll (x ∷ xs) (y ∷ ys) = Shadows x y × ShadowsAll xs ys
ShadowsAll _ _ = ⊥

ShadowsAll-refl : (xs : List DurableJob) → ShadowsAll xs xs
ShadowsAll-refl [] = tt
ShadowsAll-refl (x ∷ xs) = (Shadows-refl x, ShadowsAll-refl xs)

ShadowsAll-update_where :
    (p : DurableJob → Bool) (f : DurableJob → DurableJob)
    → ((j : DurableJob) → p j ≡ true → Shadows j (f j))
    → (xs : List DurableJob) → ShadowsAll xs (update_where p f xs)
unfolding update_where
ShadowsAll-update_where p f h [] = tt
ShadowsAll-update_where p f h (x ∷ xs) = (
  elim (Bool-cases (p x)) [ inl e ↦ rw e (h x e) | inr e ↦ rw e (Shadows-refl x) ],
  ShadowsAll-update_where p f h xs,
)

ShadowsAll-update_first :
    (p : DurableJob → Bool) (f : DurableJob → DurableJob) (xs : List DurableJob) (j : DurableJob)
    → first_where p xs ≡ some j
    → Shadows j (f j)
    → ShadowsAll xs (update_first p f xs)
unfolding update_first first_where
ShadowsAll-update_first p f [] j h k = tt
ShadowsAll-update_first p f (x ∷ xs) j h k = elim (Bool-cases (p x)) [
  | inl e ↦
      let found : some x ≡ some j = rw e at h in
      let same : j ≡ x = cc in
      rw (e, update_first) (subst (λ (t : DurableJob). Shadows t (f t)) same k, ShadowsAll-refl xs)
  | inr e ↦ rw (e, update_first) (Shadows-refl x, ShadowsAll-update_first p f xs j (rw e at h) k)
]

unclashed-ShadowsAll :
    (x x' : DurableJob) (xs ys : List DurableJob)
    → Shadows x x'
    → ShadowsAll xs ys
    → All (λ k. conflicts k x ≡ false) xs
    → All (λ k. conflicts k x' ≡ false) ys
unclashed-ShadowsAll x x' [] [] p q h = tt
unclashed-ShadowsAll x x' [] (y ∷ ys) p q h = absurd q
unclashed-ShadowsAll x x' (k ∷ ks) [] p q h = absurd q
unclashed-ShadowsAll x x' (k ∷ ks) (y ∷ ys) p q h =
    (conflicts-Shadows k x y x' q.0 p h.0, unclashed-ShadowsAll x x' ks ys p q.1 h.1)

Distinct-ShadowsAll : (xs ys : List DurableJob) → ShadowsAll xs ys → Distinct xs → Distinct ys
Distinct-ShadowsAll [] [] q h = tt
Distinct-ShadowsAll [] (y ∷ ys) q h = absurd q
Distinct-ShadowsAll (x ∷ xs) [] q h = absurd q
Distinct-ShadowsAll (x ∷ xs) (y ∷ ys) q h =
    (unclashed-ShadowsAll x y xs ys q.0 q.1 h.0, Distinct-ShadowsAll xs ys q.1 h.1)

Distinct-append :
    (new : DurableJob) (xs : List DurableJob)
    → any (conflicts new) xs ≡ false
    → Distinct xs
    → Distinct (xs ++ new ∷ [])
Distinct-append new [] h d = (tt, tt)
Distinct-append new (x ∷ xs) h d = (
  All-append (λ k. conflicts k x ≡ false) xs (new ∷ []) d.0 (ground arith, tt),
  Distinct-append new xs (ground arith) d.1,
)

constraint_laws : Laws (λ a b. Distinct a.jobs → Distinct b.jobs) Shadows (λ _. Unit) (λ _. Unit)
unfolding write_jobs save_job cancel_occurrence mark_exhausted claim_row dead_letter_claimed
    publish_row indeterminate_row admit_row checkpoint_row release_row succeed_row
    dead_letter_settled republish_row
constraint_laws = record {
  stay = λ db h. h;
  compose = λ a b c p q h. q (p h);
  write = λ p f h db. Distinct-ShadowsAll db.jobs _ (ShadowsAll-update_where p f h db.jobs);
  save = λ p f db j found h.
      Distinct-ShadowsAll db.jobs _ (ShadowsAll-update_first p f db.jobs j found h);
  change_series = λ db series h. h;
  append = λ id d s n db free. Distinct-append (draft_row id d s n) db.jobs free;
  cancelling = λ at j h. Shadows-write j _ refl h;
  exhausting = λ j h. Shadows-write j _ refl (ground arith);
  claiming = λ w now lease j h. Shadows-write j _ refl h;
  dead_lettering = λ at j h. Shadows-write j _ refl (ground arith);
  publishing = λ c due j h. Shadows-write j _ refl (ground arith);
  doubting = λ c due j h. Shadows-write j _ refl (ground arith);
  admitting = λ now a j _ h. Shadows-write j _ refl (ground arith);
  checkpointing = λ s j _ h. Shadows-write j _ refl (ground arith);
  releasing = λ due j _ h. Shadows-write j _ refl (ground arith);
  succeeding = λ at j h. Shadows-write j _ refl (ground arith);
  dead_lettering_settled = λ o at j h. Shadows-write j _ refl (ground arith);
  republishing = λ o due j h. Shadows-write j _ refl (ground arith);
}

pub sweep-Distinct : (now : ℕ) (db : Db) → Distinct db.jobs → Distinct (sweep now db).jobs
sweep-Distinct now db = sweep-Moves constraint_laws now db

-- Every history of calls of the store keeps the constraints of the job table, if they hold before:
-- no two rows share an id, a message id, an idempotency key or a number in a series, and no series
-- has two live rows.
pub history-Distinct :
    (lib : Stdlib) (cal : Calendar) (cs : List Call) (db : Db)
    → Distinct db.jobs
    → Distinct (history lib cal cs db).jobs
history-Distinct lib cal cs db =
    history-Moves lib cal constraint_laws cs db
      (Admissions-Lawful lib cal (λ _. Unit) cs (any_admission lib cal cs))
