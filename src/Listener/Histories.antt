-- ===== src/Listener/Histories.antt =====
-- What a worker does to the database, src/pybus/listener.py, as calls of the store.
pub mod Controlling
pub mod Effects
pub mod Settling
pub mod Batches
pub mod Deliveries
use pybus.Durable.Controller.{ControllerError}
use pybus.Durable.Controller.Settlement.{Controlled}
use pybus.Durable.Run.{
  Admissions, Call, cancel_series, checkpoint, claim_one, complete, confirm, deliver, doubt,
  history, perform, plan, plan_series, release, settle,
}
use pybus.Durable.Run.Invariant.{HasDeadline}
use pybus.Durable.Types.{Db}
use pybus.Listener.{Action, Listener, ListenerError, World}
use pybus.Listener.Effects.{catch_result, catching}
use pybus.Prelude.{Bool, List, [], ap, false, if◌then◌else◌, refl, sym, true, ◌++◌, ◌∙◌, ◌∷◌, ◌≡◌}
use pybus.Prelude.Exec.{Result, continue, err, ok, pure, raise, ◌>>=◌}

-- Calls of a worker: admissions, each of which says when its outcome is due, checkpoints, releases,
-- outcomes and completions.
abbrev pub AllWorking : List Call → Type 0
AllWorking [] = Unit
AllWorking (complete id message_id o result at ∷ cs) = AllWorking cs
AllWorking (deliver now a ∷ cs) = HasDeadline a × AllWorking cs
AllWorking (checkpoint now s ∷ cs) = AllWorking cs
AllWorking (release now record_id generation due ∷ cs) = AllWorking cs
AllWorking (settle now o due ∷ cs) = AllWorking cs
AllWorking (_ ∷ cs) = ⊥

AllWorking-append : (xs ys : List Call) → AllWorking xs → AllWorking ys → AllWorking (xs ++ ys)
AllWorking-append [] ys hx hy = hy
AllWorking-append (complete id message_id o result at ∷ xs) ys hx hy = AllWorking-append xs ys hx hy
AllWorking-append (deliver now a ∷ xs) ys hx hy = (hx.0, AllWorking-append xs ys hx.1 hy)
AllWorking-append (checkpoint now s ∷ xs) ys hx hy = AllWorking-append xs ys hx hy
AllWorking-append (release now record_id generation due ∷ xs) ys hx hy =
    AllWorking-append xs ys hx hy
AllWorking-append (settle now o due ∷ xs) ys hx hy = AllWorking-append xs ys hx hy
AllWorking-append (plan id d ∷ xs) ys hx hy = absurd hx
AllWorking-append (plan_series series_id id d ∷ xs) ys hx hy = absurd hx
AllWorking-append (cancel_series series_id at ∷ xs) ys hx hy = absurd hx
AllWorking-append (claim_one inside w now lease ∷ xs) ys hx hy = absurd hx
AllWorking-append (confirm c now due ∷ xs) ys hx hy = absurd hx
AllWorking-append (doubt c now due ∷ xs) ys hx hy = absurd hx

pub AllWorking-Admissions :
    (l : Listener) (cs : List Call) → AllWorking cs → Admissions l.lib l.calendar HasDeadline cs
AllWorking-Admissions l [] h = tt
AllWorking-Admissions l (deliver now a ∷ cs) h = (h.0, AllWorking-Admissions l cs h.1)
AllWorking-Admissions l (complete id message_id o result at ∷ cs) h = AllWorking-Admissions l cs h
AllWorking-Admissions l (checkpoint now s ∷ cs) h = AllWorking-Admissions l cs h
AllWorking-Admissions l (release now record_id generation due ∷ cs) h = AllWorking-Admissions l cs h
AllWorking-Admissions l (settle now o due ∷ cs) h = AllWorking-Admissions l cs h
AllWorking-Admissions l (plan id d ∷ cs) h = absurd h
AllWorking-Admissions l (plan_series series_id id d ∷ cs) h = absurd h
AllWorking-Admissions l (cancel_series series_id at ∷ cs) h = absurd h
AllWorking-Admissions l (claim_one inside w now lease ∷ cs) h = absurd h
AllWorking-Admissions l (confirm c now due ∷ cs) h = absurd h
AllWorking-Admissions l (doubt c now due ∷ cs) h = absurd h

module _ (l : Listener) where
  -- The second database is what some calls of a worker leave of the first.
  abbrev pub Work : Db → Db → Type 0
  Work db db' = (cs : List Call) × AllWorking cs × (db' ≡ history l.lib l.calendar cs db)

  history-append :
      (xs ys : List Call) (db : Db)
      → history l.lib l.calendar (xs ++ ys) db
        ≡ history l.lib l.calendar ys (history l.lib l.calendar xs db)
  unfolding history
  history-append [] ys db = refl
  history-append (x ∷ xs) ys db = history-append xs ys (perform l.lib l.calendar x db)

  pub stay : (db : Db) → Work db db
  unfolding history
  stay db = ([], tt, refl)

  pub keep_db : (db db' : Db) → db' ≡ db → Work db db'
  unfolding history
  keep_db db db' same = ([], tt, same)

  pub compose : (a b c : Db) → Work a b → Work b c → Work a c
  compose a b c (xs, hx, ex) (ys, hy, ey) = (
    xs ++ ys,
    AllWorking-append xs ys hx hy,
    ey ∙ ap (history l.lib l.calendar ys) ex ∙ sym (history-append xs ys a),
  )

  -- The action leaves the database as calls of a worker do, whether it returns or raises.
  abbrev pub Works : {A : Type 0} → Action A → Type 0
  Works m = (w : World) → Work w.db (m w).1.db

  pub pure-Works : {A : Type 0} (a : A) → Works (pure a)
  pure-Works a w = stay w.db

  pub raise-Works : (A : Type 0) (error : ListenerError) → Works (raise {A = A} error)
  raise-Works A error w = stay w.db

  pub bind-Works :
      {A B : Type 0} (m : Action A) (f : A → Action B)
      → Works m
      → ((a : A) → Works (f a))
      → Works (m >>= f)
  bind-Works {A = A} {B = B} m f hm hf w = go (m w) (hm w)
    where
      go :
          (x : Result ListenerError A × World)
          → Work w.db x.1.db
          → Work w.db (continue x.0 f x.1).1.db
      go (ok a, w') h = compose w.db w'.db (f a w').1.db h (hf a w')
      go (err error, w') h = h

  pub choose-Works :
      {A : Type 0} (b : Bool) (m n : Action A) → Works m → Works n → Works (if b then m else n)
  choose-Works true m n hm hn = hm
  choose-Works false m n hm hn = hn

  pub catching-Works :
      {A B : Type 0} (m : Controlled A) (h : ControllerError → Action B) (k : A → Action B)
      → ((db : Db) → Work db (m db).1)
      → ((error : ControllerError) → Works (h error))
      → ((a : A) → Works (k a))
      → Works (catching m h k)
  unfolding catching
  catching-Works {A = A} {B = B} m h k hm hh hk w = go (m w.db) (hm w.db)
    where
      go :
          (x : Result ControllerError A × Db)
          → Work w.db x.1
          → Work w.db (catch_result x.0 h k (record w { db = x.1 })).1.db
      go (ok a, db) begun =
          compose w.db db (k a (record w { db = db })).1.db begun (hk a (record w { db = db }))
      go (err error, db) begun =
          compose w.db db (h error (record w { db = db })).1.db begun
            (hh error (record w { db = db }))
