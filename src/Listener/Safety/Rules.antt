-- ===== src/Listener/Safety/Rules.antt =====
-- Rules for the phase of a claim, one for each way of putting actions together, and one for each of the
-- effects that do not touch the claim.
use pybus.Durable.Controller.{ControllerError}
use pybus.Durable.Controller.Settlement.{Controlled}
use pybus.Durable.Envelope.{MessageEnvelope}
use pybus.Durable.Types.{Db}
use pybus.Listener.{Action, Listener, ListenerError, World}
use pybus.Listener.Effects.{catch_result, catching}
use pybus.Listener.Safety.{
  Phase, broken, closed, consumed, copied, doubtful, held, may_fail, owed, phase,
}
use pybus.Prelude.{
  Bool, Option, String, arith, false, if◌then◌else◌, not, refl, true, ◌&&◌, ◌||◌, ◌≡◌,
}
use pybus.Prelude.Exec.{Result, continue, err, ok, pure, raise, ◌>>=◌}

abbrev pub OnPhase : Type 0
OnPhase = Phase → Bool

module _ (l : Listener) (e : MessageEnvelope) {A : Type 0} (Q : A → OnPhase) where
  abbrev pub meets : Result ListenerError A → OnPhase
  meets (ok a) = Q a
  meets (err error) = may_fail l e error

-- `a` implies `b`.
abbrev pub below : Bool → Bool → Bool
below a b = not a || b

below_lem : (a b : Bool) → below a b ≡ true → a ≡ true → b ≡ true
below_lem true b h a = h
below_lem false b h a = cc

-- The same for tests on a phase, tried on each of the phases.
abbrev pub implies : OnPhase → OnPhase → Bool
implies P Q =
    below (P held) (Q held)
    && below (P owed) (Q owed)
    && below (P copied) (Q copied)
    && below (P closed) (Q closed)
    && below (P consumed) (Q consumed)
    && below (P doubtful) (Q doubtful)
    && below (P broken) (Q broken)

pub implies_lem : (P Q : OnPhase) → implies P Q ≡ true → (p : Phase) → P p ≡ true → Q p ≡ true
implies_lem P Q h held = below_lem (P held) (Q held) (ground arith)
implies_lem P Q h owed = below_lem (P owed) (Q owed) (ground arith)
implies_lem P Q h copied = below_lem (P copied) (Q copied) (ground arith)
implies_lem P Q h closed = below_lem (P closed) (Q closed) (ground arith)
implies_lem P Q h consumed = below_lem (P consumed) (Q consumed) (ground arith)
implies_lem P Q h doubtful = below_lem (P doubtful) (Q doubtful) (ground arith)
implies_lem P Q h broken = below_lem (P broken) (Q broken) (ground arith)

module _ (l : Listener) (e : MessageEnvelope) (receipt : Option String) where
  abbrev pub phase_of : World → Phase
  phase_of w = phase l e receipt w.log

  -- From a phase in `P` the action returns in `Q`, or raises in a phase that its exception may leave.
  abbrev pub Ensures : {A : Type 0} → OnPhase → Action A → (A → OnPhase) → Type 0
  Ensures P m Q =
      (w : World) → P (phase_of w) ≡ true → meets l e Q (m w).0 (phase_of (m w).1) ≡ true

  pub pure-Ensures :
      {A : Type 0} (P : OnPhase) (Q : A → OnPhase) (a : A)
      → ((p : Phase) → P p ≡ true → Q a p ≡ true)
      → Ensures P (pure a) Q
  pure-Ensures P Q a h w held_before = h (phase_of w) held_before

  pub raise-Ensures :
      {A : Type 0} (P : OnPhase) (Q : A → OnPhase) (error : ListenerError)
      → ((p : Phase) → P p ≡ true → may_fail l e error p ≡ true)
      → Ensures P (raise error) Q
  raise-Ensures P Q error h w before = h (phase_of w) before

  pub bind-Ensures :
      {A B : Type 0} (P : OnPhase) (Q : A → OnPhase) (R : B → OnPhase) (m : Action A)
      (f : A → Action B)
      → Ensures P m Q
      → ((a : A) → Ensures (Q a) (f a) R)
      → Ensures P (m >>= f) R
  bind-Ensures {A = A} {B = B} P Q R m f hm hf w before = go (m w) (hm w before)
    where
      go :
          (x : Result ListenerError A × World)
          → meets l e Q x.0 (phase_of x.1) ≡ true
          → meets l e R (continue x.0 f x.1).0 (phase_of (continue x.0 f x.1).1) ≡ true
      go (ok a, w') h = hf a w' h
      go (err error, w') h = h

  pub catching-Ensures :
      {A B : Type 0} (P : OnPhase) (Q : B → OnPhase) (m : Controlled A)
      (h : ControllerError → Action B) (k : A → Action B)
      → ((error : ControllerError) → Ensures P (h error) Q)
      → ((a : A) → Ensures P (k a) Q)
      → Ensures P (catching m h k) Q
  unfolding catching
  catching-Ensures {A = A} {B = B} P Q m h k hh hk w before = go (m w.db)
    where
      go :
          (x : Result ControllerError A × Db)
          → meets l e Q
              (catch_result x.0 h k (record w { db = x.1 })).0
              (phase_of (catch_result x.0 h k (record w { db = x.1 })).1)
            ≡ true
      go (ok a, db) = hk a (record w { db = db }) before
      go (err error, db) = hh error (record w { db = db }) before

  pub choose-Ensures :
      {A : Type 0} (P : OnPhase) (Q : A → OnPhase) (b : Bool) (m n : Action A)
      → (b ≡ true → Ensures P m Q)
      → (b ≡ false → Ensures P n Q)
      → Ensures P (if b then m else n) Q
  choose-Ensures P Q true m n hm hn = hm refl
  choose-Ensures P Q false m n hm hn = hn refl

  pub weaken-Ensures :
      {A : Type 0} (P P' : OnPhase) (Q : A → OnPhase) (m : Action A)
      → ((p : Phase) → P' p ≡ true → P p ≡ true)
      → Ensures P m Q
      → Ensures P' m Q
  weaken-Ensures P P' Q m h hm w before = hm w (h (phase_of w) before)
