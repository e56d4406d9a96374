-- ===== src/Requests/Waiting.antt =====
-- A response that waits for its request while other threads use the coordinator:
-- src/pybus/request_response.py.
use mathlib.Core.Path.{subst}
use pybus.Durable.Envelope.{MessageEnvelope}
use pybus.Prelude.{
  All, Bool, Bool-cases, List, Option, Option-cases, String, [], ap, arith, eq_iff, eq_refl, false,
  if◌then◌else◌, inl, inr, ltb, none, not, some, some_and, sym, true, ℕ, ◌&&◌, ◌+◌, ◌<◌, ◌==◌, ◌||◌,
  ◌∙◌, ◌∷◌, ◌≡◌,
}
use pybus.Prelude.Exec.{raise}
use pybus.Requests.{
  Coordinated, RequestResponseCoordinator, begin_wait, evict_expired, forget, has_passed,
  no_correlation_id, poll_response, put_key, put_response, store_correlated, store_response,
  take_response,
}
use pybus.Requests.Laws.{Step, beginning, polling, run_step, run_steps, storing, taking}

module _ (c : String) (d : ℕ) where
  -- A step that does not concern the wait for `c`, and that comes before its deadline if it stores.
  abbrev pub is_quiet : Step → Bool
  is_quiet (storing e now) = ltb now d && not (some_and (λ c'. c' == c) e.correlation_id)
  is_quiet (taking c') = not (c == c')
  is_quiet (beginning c' timeout now) = not (c == c')
  is_quiet (polling c' deadline now) = not (c == c')

  -- The response, if it is there, waits, with its deadline.
  pub record Waits (v : Option MessageEnvelope) (k : RequestResponseCoordinator) : Type 0 where
    pub kept : k.responses c ≡ v
    pub due : k.deadlines c ≡ some d

  put_key-ne :
      {A : Type 0} (c' : String) (v : Option A) (f : String → Option A)
      → (c == c') ≡ false
      → put_key c' v f c ≡ f c
  put_key-ne c' v f apart = rw (apart)

  evict-Waits :
      (now : ℕ) (v : Option MessageEnvelope) (k : RequestResponseCoordinator)
      → ltb now d ≡ true
      → Waits v k
      → Waits v (evict_expired now k)
  unfolding evict_expired
  evict-Waits now v k early w =
      let ahead : has_passed now (k.deadlines c) ≡ false = rw (w.due) (ground (arith, early)) in
      record { kept = rw (evict_expired, ahead, w.kept); due = rw (evict_expired, ahead, w.due) }

  forget-Waits :
      (c' : String) (v : Option MessageEnvelope) (k : RequestResponseCoordinator)
      → (c == c') ≡ false
      → Waits v k
      → Waits v (forget c' k)
  forget-Waits c' v k apart w = record {
    kept = put_key-ne c' none k.responses apart ∙ w.kept;
    due = put_key-ne c' none k.deadlines apart ∙ w.due;
  }

  store_correlated-Waits :
      (c' : String) (e' : MessageEnvelope) (now : ℕ) (v : Option MessageEnvelope)
      (k : RequestResponseCoordinator)
      → ltb now d ≡ true
      → (c' == c) ≡ false
      → Waits v k
      → Waits v (store_correlated c' e' now k).1
  unfolding store_correlated
  store_correlated-Waits c' e' now v k early apart w =
      let still : Waits v (evict_expired now k) = evict-Waits now v k early w in
      elim (Bool-cases (has_passed now (k.deadlines c'))) [
        | inl late ↦ rw (store_correlated, late) still
        | inr timely ↦
            rw (store_correlated, timely)
              (record {
                kept =
                    put_key-ne c' (some e') (evict_expired now k).responses
                      (ground (arith, apart, eq_iff c' c, eq_iff c c'))
                    ∙ still.kept;
                due = still.due;
              })
      ]

  store-Waits :
      (e' : MessageEnvelope) (now : ℕ) (v : Option MessageEnvelope) (k : RequestResponseCoordinator)
      → ltb now d ≡ true
      → some_and (λ c'. c' == c) e'.correlation_id ≡ false
      → Waits v k
      → Waits v (store_response e' now k).1
  unfolding store_response
  store-Waits e' now v k early apart w = elim (Option-cases e'.correlation_id) [
    | inl without ↦ rw (store_response, without) w
    | inr (c', given) ↦ elim (Bool-cases (c' == "")) [
      | inl empty ↦ rw (store_response, given, empty) w
      | inr named ↦
          rw (store_response, given, named)
            (store_correlated-Waits c' e' now v k early (rw given at apart) w)
    ]
  ]

  step-Waits :
      (s : Step) (v : Option MessageEnvelope) (k : RequestResponseCoordinator)
      → is_quiet s ≡ true
      → Waits v k
      → Waits v (run_step s k)
  unfolding run_step take_response begin_wait poll_response
  step-Waits (storing e' now) v k quiet w =
      store-Waits e' now v k (ground (arith, quiet)) (ground (arith, quiet)) w
  step-Waits (taking c') v k quiet w = forget-Waits c' v k (ground (arith, quiet)) w
  step-Waits (beginning c' none now) v k quiet w = w
  step-Waits (beginning c' (some timeout) now) v k quiet w = record {
    kept = w.kept;
    due = put_key-ne c' (some (now + timeout)) k.deadlines (ground (arith, quiet)) ∙ w.due;
  }
  step-Waits (polling c' deadline now) v k quiet w = elim (Option-cases (k.responses c')) [
    | inl nothing_yet ↦ rw (run_step, poll_response, nothing_yet) w
    | inr (e', there) ↦
        rw (run_step, poll_response, there) (forget-Waits c' v k (ground (arith, quiet)) w)
  ]

  pub steps-Waits :
      (ss : List Step) (v : Option MessageEnvelope) (k : RequestResponseCoordinator)
      → All (λ s. is_quiet s ≡ true) ss
      → Waits v k
      → Waits v (run_steps ss k)
  unfolding run_steps
  steps-Waits [] v k quiet w = w
  steps-Waits (s ∷ ss) v k quiet w =
      steps-Waits ss v (run_step s k) quiet.1 (step-Waits s v k quiet.0 w)

  -- So may a step be before the response has come; the wait itself may also look for it in time.
  abbrev pub is_early : Step → Bool
  is_early (polling c' deadline now) = not (c == c') || not (has_passed now deadline)
  is_early s = is_quiet s

  poll-Waits :
      (c' : String) (deadline : Option ℕ) (now : ℕ) (k : RequestResponseCoordinator)
      → is_early (polling c' deadline now) ≡ true
      → Waits none k
      → Waits none (poll_response c' deadline now k).1
  unfolding poll_response
  poll-Waits c' deadline now k early w = elim (Bool-cases (c == c')) [
    | inr apart ↦
        unfold run_step in step-Waits (polling c' deadline now) none k (ground (arith, apart)) w
    | inl same ↦
        let own : c ≡ c' = (eq_iff c c').0 same in
        let empty : k.responses c' ≡ none = subst (λ t. k.responses t ≡ none) own w.kept in
        rw (poll_response, empty) w
  ]

  early_step-Waits :
      (s : Step) (k : RequestResponseCoordinator)
      → is_early s ≡ true
      → Waits none k
      → Waits none (run_step s k)
  unfolding run_step
  early_step-Waits (storing e now) k early w = step-Waits (storing e now) none k early w
  early_step-Waits (taking c') k early w = step-Waits (taking c') none k early w
  early_step-Waits (beginning c' timeout now) k early w =
      step-Waits (beginning c' timeout now) none k early w
  early_step-Waits (polling c' deadline now) k early w = poll-Waits c' deadline now k early w

  pub early_steps-Waits :
      (ss : List Step) (k : RequestResponseCoordinator)
      → All (λ s. is_early s ≡ true) ss
      → Waits none k
      → Waits none (run_steps ss k)
  unfolding run_steps
  early_steps-Waits [] k early w = w
  early_steps-Waits (s ∷ ss) k early w =
      early_steps-Waits ss (run_step s k) early.1 (early_step-Waits s k early.0 w)

  -- A response that comes in time is kept.
  pub stored-Waits :
      (e : MessageEnvelope) (now : ℕ) (k : RequestResponseCoordinator)
      → e.correlation_id ≡ some c
      → (c == "") ≡ false
      → k.deadlines c ≡ some d
      → now < d
      → Waits (some e) (store_response e now k).1
  unfolding store_response store_correlated evict_expired
  stored-Waits e now k given named set early =
      let ahead : has_passed now (k.deadlines c) ≡ false = rw (set) (ground (arith, early)) in
      let by_id : Option String → RequestResponseCoordinator = λ o.
        let step : Coordinated (Unit {0}) = elim o [
          | none ↦ raise no_correlation_id
          | some c' ↦ if c' == "" then raise no_correlation_id else store_correlated c' e now
        ] in
        (step k).1 in
      let whole : (store_response e now k).1 ≡ put_response c e (evict_expired now k) =
        ap by_id given ∙ rw (named, store_correlated, ahead) in
      subst (λ (k' : RequestResponseCoordinator). Waits (some e) k') (sym whole)
        (record { kept = rw (eq_refl c); due = rw (evict_expired, ahead, set) })
