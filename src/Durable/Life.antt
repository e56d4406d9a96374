-- ===== src/Durable/Life.antt =====
-- The life of a durable job: which state may follow which, and what a row keeps while the operations
-- of the store act on the table.
use mathlib.Core.Path.{subst}
use pybus.Codec.{Fields, Value}
use pybus.Durable.Types.{
  DurableJob, DurableJobState, claimed, indeterminate, is_terminal, pending, published, running,
  settling,
}
use pybus.Prelude.{
  Bool, Bool-cases, List, Option, String, [], ap, arith, eqb, false, first_where, if◌then◌else◌,
  inl, inr, refl, some, true, update_first, update_where, ℕ, ◌++◌, ◌∙◌, ◌∷◌, ◌≡◌, ◌≤◌,
}

-- One write of the store to the column `state`.
abbrev pub may_follow : DurableJobState → DurableJobState → Bool
may_follow pending claimed = true
may_follow claimed claimed = true
may_follow published claimed = true
may_follow running claimed = true
may_follow settling claimed = true
may_follow indeterminate claimed = true
may_follow claimed published = true
may_follow running published = true
may_follow settling published = true
may_follow claimed running = true
may_follow published running = true
may_follow settling running = true
may_follow indeterminate running = true
may_follow claimed settling = true
may_follow running settling = true
may_follow claimed indeterminate = true
may_follow running indeterminate = true
may_follow running DurableJobState.succeeded = true
may_follow claimed DurableJobState.dead_lettered = true
may_follow settling DurableJobState.dead_lettered = true
may_follow pending DurableJobState.cancelled = true
may_follow claimed DurableJobState.cancelled = true
may_follow published DurableJobState.cancelled = true
may_follow running DurableJobState.cancelled = true
may_follow settling DurableJobState.cancelled = true
may_follow indeterminate DurableJobState.cancelled = true
may_follow _ _ = false

pub data Route (s : DurableJobState) : DurableJobState → Type 0 where
  here : Route s s
  next : {t u : DurableJobState} → Route s t → may_follow t u ≡ true → Route s u

pub Route-trans : {s t u : DurableJobState} → Route s t → Route t u → Route s u
Route-trans r here = r
Route-trans r (next q e) = next (Route-trans r q) e

-- What a row is created with and no operation writes again.
pub record Identity : Type 0 where
  pub id : ℕ
  pub message_id : String
  pub message_type : String
  pub version : ℕ
  pub payload : Value
  pub headers : Fields
  pub created_at : ℕ
  pub available_at : ℕ
  pub fingerprint : String
  pub idempotency_key : Option String
  pub series : Option ℕ
  pub occurrence_number : Option ℕ

abbrev pub identity : DurableJob → Identity
identity j = record {
  id = j.id;
  message_id = j.message_id;
  message_type = j.message_type;
  version = j.version;
  payload = j.payload;
  headers = j.headers;
  created_at = j.created_at;
  available_at = j.available_at;
  fingerprint = j.fingerprint;
  idempotency_key = j.idempotency_key;
  series = j.series;
  occurrence_number = j.occurrence_number;
}

-- A later version of a row: the same job, no older generation, a state on a route of the life cycle,
-- and the very same row if the job had ended.
pub record Later (old new : DurableJob) : Type 0 where
  pub same : identity new ≡ identity old
  pub generation : old.generation ≤ new.generation
  pub route : Route old.state new.state
  pub final : is_terminal old.state ≡ true → new ≡ old

pub Later-refl : (j : DurableJob) → Later j j
Later-refl j = record { same = refl; generation = omega arith; route = here; final = λ _. refl }

pub Later-trans : {i j k : DurableJob} → Later i j → Later j k → Later i k
Later-trans {i} {j} {k} p q = record {
  same = q.same ∙ p.same;
  generation = omega arith;
  route = Route-trans p.route q.route;
  final =
      λ t. let e = p.final t in q.final (ap (λ (r : DurableJob). is_terminal r.state) e ∙ t) ∙ e;
}

terminal_is_last : (s t : DurableJobState) → may_follow s t ≡ true → is_terminal s ≡ true → ⊥
terminal_is_last s t e f = ground arith

-- One write is a later version.
pub Later-write :
    (old new : DurableJob)
    → identity new ≡ identity old
    → old.generation ≤ new.generation
    → may_follow old.state new.state ≡ true
    → Later old new
Later-write old new same g e = record {
  same = same;
  generation = g;
  route = next here e;
  final = λ t. absurd (terminal_is_last old.state new.state e t);
}

-- The table grows at its end, and each row gives way to one that `Q` relates it to.
abbrev pub Evolves : (DurableJob → DurableJob → Type 0) → List DurableJob → List DurableJob → Type 0
Evolves Q [] ys = Unit
Evolves Q (x ∷ xs) [] = ⊥
Evolves Q (x ∷ xs) (y ∷ ys) = Q x y × Evolves Q xs ys

unfoldable pub find_job : ℕ → List DurableJob → Option DurableJob
unfolding first_where
find_job i = first_where (λ j. eqb j.id i)

module _ (Q : DurableJob → DurableJob → Type 0) where
  pub Evolves-trans :
      ((i j k : DurableJob) → Q i j → Q j k → Q i k)
      → (xs ys zs : List DurableJob) → Evolves Q xs ys
      → Evolves Q ys zs
      → Evolves Q xs zs
  Evolves-trans t [] ys zs p q = tt
  Evolves-trans t (x ∷ xs) [] zs p q = absurd p
  Evolves-trans t (x ∷ xs) (y ∷ ys) [] p q = absurd q
  Evolves-trans t (x ∷ xs) (y ∷ ys) (z ∷ zs) p q =
      (t x y z p.0 q.0, Evolves-trans t xs ys zs p.1 q.1)

  -- A job that is in the table stays in it, if rows keep their ids.
  pub find_job-Evolves :
      ((j k : DurableJob) → Q j k → k.id ≡ j.id)
      → (i : ℕ) (xs ys : List DurableJob) (j : DurableJob) → Evolves Q xs ys
      → find_job i xs ≡ some j
      → (k : DurableJob) × (find_job i ys ≡ some k) × Q j k
  unfolding find_job
  find_job-Evolves ids i [] ys j p h = cc
  find_job-Evolves ids i (x ∷ xs) [] j p h = absurd p
  find_job-Evolves ids i (x ∷ xs) (y ∷ ys) j p h = elim (Bool-cases (eqb x.id i)) [
    | inl e ↦
        let same : x ≡ j = ground arith in
        (y, ground (arith, ids x y p.0), subst (λ (t : DurableJob). Q t y) same p.0)
    | inr e ↦
        let (k, found, later) = find_job-Evolves ids i xs ys j p.1 (ground arith) in
        (k, ground (arith, ids x y p.0), later)
  ]

module _ (Q : DurableJob → DurableJob → Type 0) (same : (j : DurableJob) → Q j j) where
  pub Evolves-refl : (xs : List DurableJob) → Evolves Q xs xs
  Evolves-refl [] = tt
  Evolves-refl (x ∷ xs) = (same x, Evolves-refl xs)

  pub Evolves-append : (xs ys : List DurableJob) → Evolves Q xs (xs ++ ys)
  Evolves-append [] ys = tt
  Evolves-append (x ∷ xs) ys = (same x, Evolves-append xs ys)

  evolves_if : (b : Bool) (x y : DurableJob) → (b ≡ true → Q x y) → Q x (if b then y else x)
  evolves_if true x y h = h refl
  evolves_if false x y h = same x

  pub Evolves-update_where :
      (p : DurableJob → Bool) (f : DurableJob → DurableJob)
      → ((j : DurableJob) → p j ≡ true → Q j (f j))
      → (xs : List DurableJob) → Evolves Q xs (update_where p f xs)
  unfolding update_where
  Evolves-update_where p f h [] = tt
  Evolves-update_where p f h (x ∷ xs) =
      (evolves_if (p x) x (f x) (h x), Evolves-update_where p f h xs)

  pub Evolves-update_first :
      (p : DurableJob → Bool) (f : DurableJob → DurableJob) (xs : List DurableJob) (j : DurableJob)
      → first_where p xs ≡ some j
      → Q j (f j)
      → Evolves Q xs (update_first p f xs)
  unfolding update_first first_where
  Evolves-update_first p f [] j h l = tt
  Evolves-update_first p f (x ∷ xs) j h l = elim (Bool-cases (p x)) [
    | inl e ↦
        let found : j ≡ x = ground arith in
        rw (e, update_first) (subst (λ (t : DurableJob). Q t (f t)) found l, Evolves-refl xs)
    | inr e ↦ rw (e, update_first) (same x, Evolves-update_first p f xs j (ground arith) l)
  ]
