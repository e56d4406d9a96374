-- ===== src/Durable/Run/Fencing.antt =====
-- One copy of a generation at a time is with a handler, whatever the other callers of the store do.
use pybus.Codec.{Stdlib}
use pybus.Durable.Admit.{DurableDeliveryAdmission, admit_delivery, admit_row, admit_snapshot}
use pybus.Durable.Admit.Fencing.{Names, proceed_row}
use pybus.Durable.Admit.Fits.{Fits}
use pybus.Durable.Claim.{claim_row, mark_exhausted}
use pybus.Durable.Life.{
  Evolves, Evolves-append, Evolves-refl, Evolves-trans, Evolves-update_first, Evolves-update_where,
  find_job, find_job-Evolves,
}
use pybus.Durable.Moves.Basic.{Laws}
use pybus.Durable.Publish.{dead_letter_claimed, indeterminate_row, publish_row}
use pybus.Durable.Queries.{StoreError, by_id, cancel_occurrence, lock_series, save_job, write_jobs}
use pybus.Durable.Run.{
  Call, Lawful, cancel_series, checkpoint, claim_one, complete, confirm, deliver, doubt, history,
  plan, plan_series, release, settle,
}
use pybus.Durable.Run.Histories.{history-Moves}
use pybus.Durable.Settle.{
  checkpoint_row, dead_letter_settled, release_row, republish_row, succeed_row,
}
use pybus.Durable.Types.{
  Db, DurableDeliveryDecision, DurableJob, JobSeries, handler_outcome, indeterminate, is_terminal,
  proceed, running,
}
use pybus.Prelude.{
  List, Option, String, [], ap, arith, eqb→eq, first_where_holds, inl, inr, refl, some, true, ℕ,
  ◌<◌, ◌∙◌, ◌∷◌, ◌≡◌, ◌≢◌, ◌≤◌, ◌⊎◌,
}
use pybus.Prelude.Exec.{Result, Result-cases, err, ok}
use pybus.Recurrence.{Calendar}

-- No copy of the generation `g` or an earlier one may reach a handler: the row is of a later generation,
-- or it is of this one and has ended, is running, or has an outcome that nobody knows.
pub record IsFenced (g : ℕ) (j : DurableJob) : Type 0 where
  pub reached : g ≤ j.generation
  pub closed :
      (g < j.generation)
      ⊎ ((is_terminal j.state ≡ true)
          ⊎ ((j.state ≡ running)
              ⊎ ((j.state ≡ indeterminate) × (j.indeterminate_reason ≡ some handler_outcome))))

-- A write to the row of the id `i` leaves it fenced.
record Fences (i g : ℕ) (j k : DurableJob) : Type 0 where
  same : k.id ≡ j.id
  fence : j.id ≡ i → IsFenced g j → IsFenced g k

Fences-refl : (i g : ℕ) (j : DurableJob) → Fences i g j j
Fences-refl i g j = record { same = refl; fence = λ e h. h }

Fences-trans : (i g : ℕ) (j k l : DurableJob) → Fences i g j k → Fences i g k l → Fences i g j l
Fences-trans i g j k l p q = record {
  same = q.same ∙ p.same;
  fence = λ e h. q.fence (p.same ∙ e) (p.fence e h);
}

Fences-Laws :
    (i g : ℕ)
    → Laws (λ a b. Evolves (Fences i g) a.jobs b.jobs) (Fences i g) (λ _. Unit) (λ k. k ≢ i)
unfolding write_jobs save_job cancel_occurrence mark_exhausted claim_row dead_letter_claimed
    publish_row indeterminate_row admit_row checkpoint_row release_row succeed_row
    dead_letter_settled republish_row
Fences-Laws i g = record {
  stay = λ db. Evolves-refl (Fences i g) (Fences-refl i g) db.jobs;
  compose = λ a b c. Evolves-trans (Fences i g) (Fences-trans i g) a.jobs b.jobs c.jobs;
  write = λ p f h db. Evolves-update_where (Fences i g) (Fences-refl i g) p f h db.jobs;
  save =
      λ p f db j found h. Evolves-update_first (Fences i g) (Fences-refl i g) p f db.jobs j found h;
  change_series = λ db series. Evolves-refl (Fences i g) (Fences-refl i g) db.jobs;
  append = λ id d s n db _. Evolves-append (Fences i g) (Fences-refl i g) db.jobs _;
  cancelling = λ at j h. record { same = refl; fence = λ e v. ground arith };
  exhausting = λ j h. record { same = refl; fence = λ e v. ground arith };
  claiming = λ w now lease j h. record { same = refl; fence = λ e v. ground arith };
  dead_lettering = λ at j h. record { same = refl; fence = λ e v. ground arith };
  publishing = λ c due j h. record { same = refl; fence = λ e v. ground arith };
  doubting = λ c due j h. record { same = refl; fence = λ e v. ground arith };
  admitting = λ now a j _ h. record { same = refl; fence = λ e v. ground arith };
  checkpointing = λ s j other h. record { same = refl; fence = λ e v. absurd (other e) };
  releasing = λ due j other h. record { same = refl; fence = λ e v. absurd (other e) };
  succeeding = λ at j h. record { same = refl; fence = λ e v. ground arith };
  dead_lettering_settled = λ o at j h. record { same = refl; fence = λ e v. ground arith };
  republishing = λ o due j h. record { same = refl; fence = λ e v. ground arith };
}

-- No call of the history checkpoints the settlement of the job `i`, or releases its delivery.
abbrev pub Holds : Stdlib → ℕ → List Call → Type 0
Holds lib i [] = Unit
Holds lib i (checkpoint now s ∷ cs) = (lib.parse_uuid s.record_id ≢ some i) × Holds lib i cs
Holds lib i (release now record_id generation due ∷ cs) =
    (lib.parse_uuid record_id ≢ some i) × Holds lib i cs
Holds lib i (c ∷ cs) = Holds lib i cs

Holds-other :
    (lib : Stdlib) (i : ℕ) (t : String)
    → lib.parse_uuid t ≢ some i
    → (k : ℕ) → lib.parse_uuid t ≡ some k
    → k ≢ i
Holds-other lib i t other k e same = other (e ∙ ap some same)

Holds-Lawful :
    (lib : Stdlib) (cal : Calendar) (i : ℕ) (cs : List Call)
    → Holds lib i cs
    → Lawful lib cal (λ _. Unit) (λ k. k ≢ i) cs
Holds-Lawful lib cal i [] h = tt
Holds-Lawful lib cal i (checkpoint now s ∷ cs) h =
    (Holds-other lib i s.record_id h.0, Holds-Lawful lib cal i cs h.1)
Holds-Lawful lib cal i (release now record_id generation due ∷ cs) h =
    (Holds-other lib i record_id h.0, Holds-Lawful lib cal i cs h.1)
Holds-Lawful lib cal i (deliver now a ∷ cs) h = (tt, Holds-Lawful lib cal i cs h)
Holds-Lawful lib cal i (plan id d ∷ cs) h = Holds-Lawful lib cal i cs h
Holds-Lawful lib cal i (plan_series series_id id d ∷ cs) h = Holds-Lawful lib cal i cs h
Holds-Lawful lib cal i (cancel_series series_id at ∷ cs) h = Holds-Lawful lib cal i cs h
Holds-Lawful lib cal i (complete id message_id o result at ∷ cs) h = Holds-Lawful lib cal i cs h
Holds-Lawful lib cal i (claim_one inside w now lease ∷ cs) h = Holds-Lawful lib cal i cs h
Holds-Lawful lib cal i (confirm c now due ∷ cs) h = Holds-Lawful lib cal i cs h
Holds-Lawful lib cal i (doubt c now due ∷ cs) h = Holds-Lawful lib cal i cs h
Holds-Lawful lib cal i (settle now o due ∷ cs) h = Holds-Lawful lib cal i cs h

IsFenced-Fits :
    (lib : Stdlib) (b : DurableDeliveryAdmission) (g : ℕ) (s : Option JobSeries) (k : DurableJob)
    → b.generation ≤ g
    → IsFenced g k
    → Fits lib b s k
    → ⊥
IsFenced-Fits lib b g s k le v f = ground (arith, f.generation, f.deliverable, f.known, v.closed)

lock_series-err :
    (i : Option ℕ) (db : Db) (e : StoreError)
    → (lock_series i db).0 ≡ err e
    → lock_series i db ≡ (err e, db)
unfolding lock_series
lock_series-err i db e h = ground arith

-- What a copy finds when it is told to proceed.
proceed-Fits :
    (lib : Stdlib) (now : ℕ) (b : DurableDeliveryAdmission) (db : Db) (i : ℕ) (k : DurableJob)
    → lib.parse_uuid b.record_id ≡ some i
    → find_job i db.jobs ≡ some k
    → (admit_delivery lib now b db).0 ≡ ok proceed
    → (s : Option JobSeries) × Fits lib b s k
unfolding admit_delivery
proceed-Fits lib now b db i k named found told = elim (Result-cases (lock_series k.series db).0) [
  | inl (e, bad) ↦
      let gone = lock_series-err k.series db e bad in
      let failed : ◌≡◌ {A = Result StoreError DurableDeliveryDecision} (err e) (ok proceed) =
        rw (admit_delivery, named, admit_snapshot, found, gone) at told in
      cc
  | inr (s, good) ↦
      let n : Names lib b db i k s = record { parsed = named; found = found; series = good } in
      (s, (proceed_row lib now b db i k s n told).0)
]

-- Once a copy of a job has been told to proceed, no copy of that generation or an earlier one is told so
-- again, whatever calls of the store come in between, by whomever, as long as none of them checkpoints
-- the settlement of the job or releases its delivery.
pub admitted_once :
    (lib : Stdlib) (cal : Calendar) (now later : ℕ) (a b : DurableDeliveryAdmission) (db : Db)
    (i : ℕ) (j : DurableJob) (s : Option JobSeries) (cs : List Call)
    → Names lib a db i j s
    → (admit_delivery lib now a db).0 ≡ ok proceed
    → Holds lib i cs
    → b.record_id ≡ a.record_id
    → b.generation ≤ a.generation
    → (admit_delivery lib later b (history lib cal cs (admit_delivery lib now a db).1)).0
      ≢ ok proceed
admitted_once lib cal now later a b db i j s cs n told holds same le again =
    let (fits, found, _) = proceed_row lib now a db i j s n told in
    let admitted : Db = (admit_delivery lib now a db).1 in
    let fenced : IsFenced a.generation (admit_row now a j) =
      unfold admit_row in
      record { reached = omega (arith, fits.generation); closed = inr (inr (inl refl)) } in
    let own : (admit_row now a j).id ≡ i =
      eqb→eq _ i (unfold find_job in first_where_holds (by_id i) admitted.jobs found) in
    let moved =
      history-Moves lib cal (Fences-Laws i a.generation) cs admitted
        (Holds-Lawful lib cal i cs holds) in
    let (k, there, kept) =
      find_job-Evolves (Fences i a.generation) (λ x y q. q.same) i admitted.jobs
        (history lib cal cs admitted).jobs (admit_row now a j) moved found in
    let (s', fits') =
      proceed-Fits lib later b (history lib cal cs admitted) i k (ap lib.parse_uuid same ∙ n.parsed)
        there again in
    IsFenced-Fits lib b a.generation s' k le (kept.fence own fenced) fits'
