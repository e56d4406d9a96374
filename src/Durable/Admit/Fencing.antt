-- ===== src/Durable/Admit/Fencing.antt =====
-- Which copies of a durable job reach its handler.
use mathlib.Core.Path.{subst}
use pybus.Codec.{Stdlib, dict}
use pybus.Durable.Admit.{
  DurableDeliveryAdmission, Verdict, admit, admit_delivery, admit_locked, admit_row, admit_snapshot,
  cancel_and_drop, carry_out, message_verdict, refuse, retries_verdict, same_wire, verdict,
}
use pybus.Durable.Admit.Fits.{Fits, verdict-Fits}
use pybus.Durable.Life.{find_job}
use pybus.Durable.Queries.{by_id, lock_series, save_job}
use pybus.Durable.Types.{Db, DurableJob, JobSeries, proceed, running}
use pybus.Prelude.{
  Bool, Bool-cases, List, Option, [], ap, arith, eqb, eqb→eq, first_where_holds, inl, inr, is_some,
  none, or_else, refl, some, sym, true, update_first, ℕ, ◌∙◌, ◌∷◌, ◌≡◌, ◌≢◌, ◌⊎◌,
}
use pybus.Prelude.Exec.{ok, rolled_back}

find_job-update_first :
    (i : ℕ) (f : DurableJob → DurableJob) (js : List DurableJob) (j : DurableJob)
    → ((k : DurableJob) → (f k).id ≡ k.id)
    → find_job i js ≡ some j
    → find_job i (update_first (by_id i) f js) ≡ some (f j)
unfolding find_job update_first
find_job-update_first i f [] j keeps h = cc
find_job-update_first i f (x ∷ xs) j keeps h = elim (Bool-cases (eqb x.id i)) [
  | inl e ↦
      let found : some x ≡ some j = rw e at h in
      let same : x ≡ j = cc in
      let kept : eqb (f x).id i ≡ true = rw (keeps x) e in
      rw e (rw kept (ap (λ (t : DurableJob). some (f t)) same))
  | inr e ↦ rw e (rw e (find_job-update_first i f xs j keeps (rw e at h)))
]

-- The series that a row names, as the lock finds it.
abbrev pub SeriesOf : Db → DurableJob → Option JobSeries → Type 0
SeriesOf db j s = (lock_series j.series db).0 ≡ ok s

lock_series_lem :
    (i : Option ℕ) (db : Db) (s : Option JobSeries)
    → (lock_series i db).0 ≡ ok s
    → lock_series i db ≡ (ok s, db)
unfolding lock_series
lock_series_lem i db s h = ground arith

lock_series-jobs :
    (i : Option ℕ) (db : Db) (jobs : List DurableJob) (s : Option JobSeries)
    → (lock_series i db).0 ≡ ok s
    → (lock_series i (record db { jobs = jobs })).0 ≡ ok s
unfolding lock_series
lock_series-jobs i db jobs s h = ground arith

pub find_job-admitted :
    (now : ℕ) (a : DurableDeliveryAdmission) (db : Db) (i : ℕ) (j : DurableJob)
    → find_job i db.jobs ≡ some j
    → find_job i (carry_out now a j admit db).1.jobs ≡ some (admit_row now a j)
unfolding carry_out save_job find_job admit_row
find_job-admitted now a db i j h =
    let own : j.id ≡ i = eqb→eq j.id i (first_where_holds (by_id i) db.jobs h) in
    subst
      (λ (k : ℕ).
        find_job i (update_first (by_id k) (admit_row now a) db.jobs) ≡ some (admit_row now a j))
      (sym own) (find_job-update_first i (admit_row now a) db.jobs j (λ k. refl) h)

admitted-SeriesOf :
    (now : ℕ) (a : DurableDeliveryAdmission) (db : Db) (j : DurableJob) (s : Option JobSeries)
    → SeriesOf db j s
    → SeriesOf (carry_out now a j admit db).1 (admit_row now a j) s
unfolding carry_out save_job admit_row
admitted-SeriesOf now a db j s h = lock_series-jobs j.series db _ s h

-- The row `j` of the id that an admission names.
pub record Names (lib : Stdlib) (a : DurableDeliveryAdmission) (db : Db) (i : ℕ) (j : DurableJob)
    (s : Option JobSeries) : Type 0 where
  pub parsed : lib.parse_uuid a.record_id ≡ some i
  pub found : find_job i db.jobs ≡ some j
  pub series : SeriesOf db j s

-- With its row and series at hand, an admission carries out its verdict.
pub admit_delivery_lem :
    (lib : Stdlib) (now : ℕ) (a : DurableDeliveryAdmission) (db : Db) (i : ℕ) (j : DurableJob)
    (s : Option JobSeries)
    → Names lib a db i j s
    → admit_delivery lib now a db ≡ carry_out now a j (verdict lib a s j) db
unfolding admit_delivery
admit_delivery_lem lib now a db i j s n =
    rw (n.parsed, admit_delivery)
      (rw (n.found, admit_snapshot)
        (rw (lock_series_lem j.series db s n.series)
          (rw (n.found, admit_locked) (settled (verdict lib a s j)))))
  where
    settled : (v : Verdict) → rolled_back db (carry_out now a j v db) ≡ carry_out now a j v db
    settled (refuse d) = refl
    settled cancel_and_drop = refl
    settled admit = refl

not_message_proceed :
    (a : DurableDeliveryAdmission) (j : DurableJob) (p h : Option Bool)
    → message_verdict p h a j ≢ refuse proceed
unfolding message_verdict retries_verdict
not_message_proceed a j p h e = ground arith

not_refuse_proceed :
    (lib : Stdlib) (a : DurableDeliveryAdmission) (s : Option JobSeries) (j : DurableJob)
    → verdict lib a s j ≢ refuse proceed
unfolding verdict
not_refuse_proceed lib a s j e = ground (
  arith,
  not_message_proceed a j (same_wire lib j.payload a.payload)
      (same_wire lib (dict j.headers) (dict a.application_headers)),
)

carry_out-proceed :
    (now : ℕ) (a : DurableDeliveryAdmission) (j : DurableJob) (v : Verdict) (db : Db)
    → v ≢ refuse proceed
    → (carry_out now a j v db).0 ≡ ok proceed
    → v ≡ admit
unfolding carry_out
carry_out-proceed now a j (refuse d) db no_proceed h =
    let same : d ≡ proceed = cc in absurd (no_proceed (ap refuse same))
carry_out-proceed now a j cancel_and_drop db no_proceed h = cc
carry_out-proceed now a j admit db no_proceed h = refl

-- A row `k` is the row `j` as the admission admits it: running, with the admission's retries, queue and
-- deadline, no settlement pending and no doubt, its retry limit the old one or else the admission's, its
-- start the first one, and its message, generation and lease as they were.
pub record IsAdmitted (now : ℕ) (a : DurableDeliveryAdmission) (j k : DurableJob) : Type 0 where
  pub state : k.state ≡ running
  pub retries : k.retry_count ≡ a.retry_count
  pub deadline : k.reconciliation_due_at ≡ a.reconciliation_due_at
  pub queue : k.queue ≡ a.source_queue
  pub limit :
      ((is_some j.max_retries ≡ true) × (k.max_retries ≡ j.max_retries))
      ⊎ ((j.max_retries ≡ none) × (k.max_retries ≡ some a.max_retries))
  pub settlement :
      (k.settlement_status ≡ none)
      × (k.settlement_source ≡ none)
      × (k.settlement_destination ≡ none)
  pub reason : k.indeterminate_reason ≡ none
  pub start :
      ((is_some j.started_at ≡ true) × (k.started_at ≡ j.started_at))
      ⊎ ((j.started_at ≡ none) × (k.started_at ≡ some (or_else a.admitted_at now)))
  pub message :
      (k.id ≡ j.id)
      × (k.generation ≡ j.generation)
      × (k.message_id ≡ j.message_id)
      × (k.payload ≡ j.payload)
      × (k.headers ≡ j.headers)
      × (k.series ≡ j.series)
      × (k.lease_owner ≡ j.lease_owner)

pub proceed_row :
    (lib : Stdlib) (now : ℕ) (a : DurableDeliveryAdmission) (db : Db) (i : ℕ) (j : DurableJob)
    (s : Option JobSeries)
    → Names lib a db i j s
    → (admit_delivery lib now a db).0 ≡ ok proceed
    → Fits lib a s j
      × (find_job i (admit_delivery lib now a db).1.jobs ≡ some (admit_row now a j))
      × Names lib a (admit_delivery lib now a db).1 i (admit_row now a j) s
proceed_row lib now a db i j s n h =
    let whole = admit_delivery_lem lib now a db i j s n in
    let told : (carry_out now a j (verdict lib a s j) db).0 ≡ ok proceed = rw whole at h in
    let v = carry_out-proceed now a j (verdict lib a s j) db (not_refuse_proceed lib a s j) told in
    let left : admit_delivery lib now a db ≡ carry_out now a j admit db =
      whole ∙ ap (λ (u : Verdict). carry_out now a j u db) v in
    let found = find_job-admitted now a db i j n.found in
    (
      verdict-Fits lib a s j v,
      rw left found,
      rw left (record {
        parsed = n.parsed;
        found = found;
        series = admitted-SeriesOf now a db j s n.series;
      }),
    )
