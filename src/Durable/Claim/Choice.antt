-- ===== src/Durable/Claim/Choice.antt =====
-- What `claim` returns, and what it leaves in the table.
use mathlib.Core.Path.{subst}
use pybus.Durable.Claim.{
  DurableJobClaim, claim, claim_row, comes_before, earliest, eligible, from_record, same_version,
  sweep, take_job,
}
use pybus.Durable.Claim.Order.{All-earliest, earliest-none, earliest_first}
use pybus.Durable.Guards.{earliest_holds, sooner-cases}
use pybus.Durable.Life.{find_job}
use pybus.Durable.Queries.{StoreError, is_running, same_state, write_jobs}
use pybus.Durable.Run.Constraints.{Distinct, sweep-Distinct}
use pybus.Durable.Schedule.{conflicts}
use pybus.Durable.Types.{Db, DurableJob, DurableJobState, claimed, running}
use pybus.Prelude.{
  All, Bool, Bool-cases, List, Option, Option-cases, String, [], any, ap, arith, eqb, eqb_refl,
  false, inl, inr, none, refl, some, sym, true, update_where, ℕ, ◌&&◌, ◌+◌, ◌∷◌, ◌≡◌, ◌≢◌, ◌⊎◌,
}
use pybus.Prelude.Exec.{Result, ok}

same_state_refl : (s : DurableJobState) → same_state s s ≡ true
unfolding same_state
same_state_refl s = ground arith

same_version_refl : (j : DurableJob) → same_version j j ≡ true
unfolding same_version
same_version_refl j = ground (arith, same_state_refl j.state)

any-earliest :
    (p : DurableJob → Bool) (js : List DurableJob) (m : DurableJob)
    → earliest p js ≡ some m
    → any (same_version m) js ≡ true
unfolding earliest
any-earliest p [] m h = cc
any-earliest p (j ∷ js) m h = elim (Bool-cases (p j)) [
  | inl e ↦ elim (sooner-cases j (earliest p js) m (rw e at h)) [
    | inl q ↦
        let own : same_version m j ≡ true =
          subst (λ (t : DurableJob). same_version m t ≡ true) q (same_version_refl m) in
        ground arith
    | inr q ↦ ground (arith, any-earliest p js m q)
  ]
  | inr e ↦ ground (arith, any-earliest p js m (rw e at h))
]

other_id : (j m : DurableJob) → conflicts m j ≡ false → eqb j.id m.id ≡ false
unfolding conflicts
other_id j m h = ground arith

pub find_job-earliest :
    (p : DurableJob → Bool) (js : List DurableJob) (m : DurableJob)
    → Distinct js
    → earliest p js ≡ some m
    → find_job m.id js ≡ some m
unfolding earliest find_job
find_job-earliest p [] m d h = cc
find_job-earliest p (j ∷ js) m d h = elim (Bool-cases (p j)) [
  | inl e ↦ elim (sooner-cases j (earliest p js) m (rw e at h)) [
    | inl q ↦ rw q (rw (eqb_refl j.id))
    | inr q ↦
        rw (other_id j m (All-earliest (λ k. conflicts k j ≡ false) p js m q d.0))
          (find_job-earliest p js m d.1 q)
  ]
  | inr e ↦
      let q : earliest p js ≡ some m = rw e at h in
      rw (other_id j m (All-earliest (λ k. conflicts k j ≡ false) p js m q d.0))
        (find_job-earliest p js m d.1 q)
]

pub find_job-update_where :
    (p : DurableJob → Bool) (f : DurableJob → DurableJob) (i : ℕ) (js : List DurableJob)
    (m : DurableJob)
    → ((j : DurableJob) → (f j).id ≡ j.id)
    → find_job i js ≡ some m
    → p m ≡ true
    → find_job i (update_where p f js) ≡ some (f m)
unfolding find_job update_where
find_job-update_where p f i [] m keeps h q = cc
find_job-update_where p f i (j ∷ js) m keeps h q = elim (Bool-cases (eqb j.id i)) [
  | inl e ↦
      let found : some j ≡ some m = rw e at h in
      let same : j ≡ m = cc in
      let passes : p j ≡ true = subst (λ (t : DurableJob). p t ≡ true) (sym same) q in
      let kept : eqb (f j).id i ≡ true = rw (keeps j) e in
      rw passes (rw kept (ap (λ (t : DurableJob). some (f t)) same))
  | inr e ↦
      let rest = find_job-update_where p f i js m keeps (rw e at h) q in
      elim (Bool-cases (p j)) [
        | inl b ↦ let kept : eqb (f j).id i ≡ false = rw (keeps j) e in rw b (rw kept rest)
        | inr b ↦ rw b (rw e rest)
      ]
]

-- A row that was picked is found again, and written.
module _ (w : String) (now lease : ℕ) (t : Db) (p : DurableJob → Bool) (m : DurableJob)
    (d : Distinct t.jobs) (h : earliest p t.jobs ≡ some m) where
  find_job-taken :
      find_job m.id (write_jobs (same_version m) (claim_row w now lease) t).jobs
      ≡ some (claim_row w now lease m)
  unfolding write_jobs claim_row
  find_job-taken =
      find_job-update_where (same_version m) (claim_row w now lease) m.id t.jobs m (λ j. refl)
        (find_job-earliest p t.jobs m d h) (same_version_refl m)

  take_job-taken : take_job w now lease (some m) t ≡ (
    ok (some (from_record (claim_row w now lease m))),
    write_jobs (same_version m) (claim_row w now lease) t,
  )
  unfolding take_job
  take_job-taken = rw (any-earliest p t.jobs m h) (rw find_job-taken refl)

-- If a claim outside a transaction, on a table that keeps its constraints, returns nothing, then no
-- row of the swept table may be claimed.
pub claim-none :
    (w : String) (now lease : ℕ) (db : Db)
    → Distinct db.jobs
    → (claim false w now lease db).0 ≡ ok none
    → All (λ j. eligible now db.series j ≡ false) (sweep now db).jobs
unfolding claim
claim-none w now lease db d h =
    let t = sweep now db in
    let p = eligible now t.series in
    elim (Option-cases (earliest p t.jobs)) [
      | inl e ↦ unfold sweep in earliest-none p t.jobs e
      | inr (m, e) ↦
          let taken = take_job-taken w now lease t p m (sweep-Distinct now db d) e in
          let found : (take_job w now lease (some m) t).0 ≡ ok none =
            subst (λ (o : Option DurableJob). (take_job w now lease o t).0 ≡ ok none) e h in
          let clear : ◌≡◌ {A = Result StoreError (Option DurableJobClaim)}
              (ok (some (from_record (claim_row w now lease m)))) (ok none) =
            rw taken at found in
          cc
    ]

-- A row `k` is the row `j` as claimed: in the claimed state, of the next generation, with the worker's
-- lease, no deadline and no doubt; an attempt that was running when it was overtaken has been counted as
-- a retry, made now, and otherwise count and time are the old ones; the message, its key, series, queue
-- and limit are kept.
pub record IsClaimed (w : String) (now lease : ℕ) (j k : DurableJob) : Type 0 where
  pub state : k.state ≡ claimed
  pub generation : k.generation ≡ j.generation + 1
  pub owner : k.lease_owner ≡ some w
  pub expiry : k.lease_expires_at ≡ some lease
  pub deadline : k.reconciliation_due_at ≡ none
  pub reason : k.indeterminate_reason ≡ none
  pub counted :
      ((j.state ≡ running) × (k.retry_count ≡ j.retry_count + 1) × (k.last_attempt_at ≡ some now))
      ⊎ ((j.state ≢ running)
          × (k.retry_count ≡ j.retry_count)
          × (k.last_attempt_at ≡ j.last_attempt_at))
  pub message :
      (k.id ≡ j.id)
      × (k.message_id ≡ j.message_id)
      × (k.message_type ≡ j.message_type)
      × (k.version ≡ j.version)
      × (k.payload ≡ j.payload)
      × (k.headers ≡ j.headers)
  pub place : (k.queue ≡ j.queue) × (k.series ≡ j.series) × (k.max_retries ≡ j.max_retries)

is_running-running : (j : DurableJob) → is_running j.state ≡ true → j.state ≡ running
is_running-running j h = ground arith

is_running-other : (j : DurableJob) → is_running j.state ≡ false → j.state ≢ running
is_running-other j h e = ground arith

claim_row-IsClaimed :
    (w : String) (now lease : ℕ) (j : DurableJob)
    → IsClaimed w now lease j (claim_row w now lease j)
unfolding claim_row
claim_row-IsClaimed w now lease j = record {
  state = refl;
  generation = refl;
  owner = refl;
  expiry = refl;
  deadline = refl;
  reason = refl;
  counted = elim (Bool-cases (is_running j.state)) [
    | inl busy ↦ inl (is_running-running j busy, rw (busy) refl, rw (busy) refl)
    | inr idle ↦ inr (is_running-other j idle, rw (idle) refl, rw (idle) refl)
  ];
  message = (refl, refl, refl, refl, refl, refl);
  place = (refl, refl, refl);
}

-- A claim outside a transaction, on a table that keeps its constraints, that returns a job has
-- picked an eligible row of the swept table before which no other eligible row comes, by creation
-- time and then by id; the row it leaves under that id is the picked one, claimed: of the next
-- generation, with the caller's lease, and with one more retry exactly if the job was running; and the
-- claim shows that row.
pub claim-some :
    (w : String) (now lease : ℕ) (db : Db) (c : DurableJobClaim)
    → Distinct db.jobs
    → (claim false w now lease db).0 ≡ ok (some c)
    → (m : DurableJob) × (find_job c.id (sweep now db).jobs ≡ some m)
      × (eligible now db.series m ≡ true)
      × All (λ k. (eligible now db.series k && comes_before k m) ≡ false) (sweep now db).jobs
      × (k : DurableJob) × (find_job c.id (claim false w now lease db).1.jobs ≡ some k)
      × IsClaimed w now lease m k
      × (c ≡ from_record k)
unfolding claim
claim-some w now lease db c d h =
    let t = sweep now db in
    let p = eligible now t.series in
    elim (Option-cases (earliest p t.jobs)) [
      | inl e ↦
          let lost : ◌≡◌ {A = Result StoreError (Option DurableJobClaim)} (ok none) (ok (some c)) =
            unfold take_job in
            subst (λ (o : Option DurableJob). (take_job w now lease o t).0 ≡ ok (some c)) e h in
          cc
      | inr (m, e) ↦
          let dt = sweep-Distinct now db d in
          let taken = take_job-taken w now lease t p m dt e in
          let written = find_job-taken w now lease t p m dt e in
          let found : (take_job w now lease (some m) t).0 ≡ ok (some c) =
            subst (λ (o : Option DurableJob). (take_job w now lease o t).0 ≡ ok (some c)) e h in
          let both : ◌≡◌ {A = Result StoreError (Option DurableJobClaim)}
              (ok (some (from_record (claim_row w now lease m)))) (ok (some c)) =
            rw taken at found in
          let shown : c ≡ from_record (claim_row w now lease m) = cc in
          let own : c.id ≡ m.id =
            unfold from_record claim_row in ap (λ (x : DurableJobClaim). x.id) shown in
          let left : find_job m.id (take_job w now lease (earliest p t.jobs) t).1.jobs
              ≡ some (claim_row w now lease m) =
            subst
              (λ (o : Option DurableJob).
                find_job m.id (take_job w now lease o t).1.jobs ≡ some (claim_row w now lease m))
              (sym e) (rw taken written) in
          unfold sweep in
          (
            m,
            subst (λ (i : ℕ). find_job i t.jobs ≡ some m) (sym own)
                (find_job-earliest p t.jobs m dt e),
            earliest_holds p t.jobs m e,
            earliest_first p t.jobs m e,
            claim_row w now lease m,
            subst
                (λ (i : ℕ).
                  find_job i (take_job w now lease (earliest p t.jobs) t).1.jobs
                  ≡ some (claim_row w now lease m))
                (sym own) left,
            claim_row-IsClaimed w now lease m,
            shown,
          )
    ]
