-- ===== src/Requests/Laws.antt =====
-- Which response a waiting request gets: src/pybus/request_response.py.
use pybus.Durable.Envelope.{MessageEnvelope}
use pybus.Prelude.{
  Bool-cases, List, Option, Option-cases, String, [], ap, eq_iff, false, inl, inr, le→leb, none,
  some, sym, true, ℕ, ◌==◌, ◌∙◌, ◌∷◌, ◌≡◌, ◌≤◌,
}
use pybus.Prelude.Exec.{Result, ok}
use pybus.Requests.{
  CoordinatorError, RequestResponseCoordinator, begin_wait, evict_expired, forget, has_passed,
  new_coordinator, poll_response, put_key, store_correlated, store_response, take_response,
}

-- The steps of the threads that share a coordinator.
pub data Step : Type 0 where
  storing : MessageEnvelope → ℕ → Step
  taking : String → Step
  beginning : String → Option ℕ → ℕ → Step
  polling : String → Option ℕ → ℕ → Step

unfoldable pub run_step : Step → RequestResponseCoordinator → RequestResponseCoordinator
unfolding store_response take_response begin_wait poll_response
run_step (storing e now) k = (store_response e now k).1
run_step (taking c) k = (take_response c k).1
run_step (beginning c timeout now) k = (begin_wait c timeout now k).1
run_step (polling c deadline now) k = (poll_response c deadline now k).1

unfoldable pub run_steps : List Step → RequestResponseCoordinator → RequestResponseCoordinator
unfolding run_step
run_steps [] k = k
run_steps (s ∷ ss) k = run_steps ss (run_step s k)

-- Each response is kept under its own correlation id.
pub record IsCorrelated (k : RequestResponseCoordinator) : Type 0 where
  pub own : (c : String) (e : MessageEnvelope) → k.responses c ≡ some e → e.correlation_id ≡ some c

put_key-own :
    (c : String) (f : String → Option MessageEnvelope) (v : Option MessageEnvelope)
    → ((c' : String) (e : MessageEnvelope) → f c' ≡ some e → e.correlation_id ≡ some c')
    → ((e : MessageEnvelope) → v ≡ some e → e.correlation_id ≡ some c)
    → (c' : String) (e : MessageEnvelope) → put_key c v f c' ≡ some e
    → e.correlation_id ≡ some c'
put_key-own c f v old new c' e h = elim (Bool-cases (c' == c)) [
  | inl same ↦ let key : c' ≡ c = (eq_iff c' c).0 same in new e (rw same at h) ∙ ap some (sym key)
  | inr apart ↦ old c' e (rw apart at h)
]

forget-IsCorrelated :
    (c : String) (k : RequestResponseCoordinator) → IsCorrelated k → IsCorrelated (forget c k)
forget-IsCorrelated c k v = record { own = put_key-own c k.responses none v.own (λ e h. cc) }

evict-IsCorrelated :
    (now : ℕ) (k : RequestResponseCoordinator) → IsCorrelated k → IsCorrelated (evict_expired now k)
unfolding evict_expired
evict-IsCorrelated now k v = record {
  own = λ c e h. elim (Bool-cases (has_passed now (k.deadlines c))) [
    | inl gone ↦ let nothing_kept : none ≡ some e = rw gone at h in cc
    | inr kept ↦ v.own c e (rw kept at h)
  ];
}

store-IsCorrelated :
    (e : MessageEnvelope) (now : ℕ) (k : RequestResponseCoordinator)
    → IsCorrelated k
    → IsCorrelated (store_response e now k).1
unfolding store_response store_correlated
store-IsCorrelated e now k v = elim (Option-cases e.correlation_id) [
  | inl without ↦ rw (store_response, without) v
  | inr (c, given) ↦ elim (Bool-cases (c == "")) [
    | inl empty ↦ rw (store_response, given, empty) v
    | inr named ↦ elim (Bool-cases (has_passed now (k.deadlines c))) [
      | inl late ↦
          rw (store_response, given, named, store_correlated, late) (evict-IsCorrelated now k v)
      | inr timely ↦
          rw (store_response, given, named, store_correlated, timely)
            (record {
              own =
                  put_key-own c (evict_expired now k).responses (some e)
                    (evict-IsCorrelated now k v).own
                    (λ e' h.
                      let same : e ≡ e' = cc in
                      ap (λ (x : MessageEnvelope). x.correlation_id) (sym same) ∙ given);
            })
    ]
  ]
]

step-IsCorrelated :
    (s : Step) (k : RequestResponseCoordinator) → IsCorrelated k → IsCorrelated (run_step s k)
unfolding run_step take_response begin_wait poll_response
step-IsCorrelated (storing e now) k v = store-IsCorrelated e now k v
step-IsCorrelated (taking c) k v = forget-IsCorrelated c k v
step-IsCorrelated (beginning c none now) k v = v
step-IsCorrelated (beginning c (some timeout) now) k v = record { own = v.own }
step-IsCorrelated (polling c deadline now) k v = elim (Option-cases (k.responses c)) [
  | inl nothing_yet ↦ rw (run_step, poll_response, nothing_yet) v
  | inr (e, there) ↦ rw (run_step, poll_response, there) (forget-IsCorrelated c k v)
]

steps-IsCorrelated :
    (ss : List Step) (k : RequestResponseCoordinator)
    → IsCorrelated k
    → IsCorrelated (run_steps ss k)
unfolding run_steps
steps-IsCorrelated [] k v = v
steps-IsCorrelated (s ∷ ss) k v = steps-IsCorrelated ss (run_step s k) (step-IsCorrelated s k v)

-- What a wait returns was kept under the id.
poll_response-found :
    (c : String) (deadline : Option ℕ) (now : ℕ) (e : MessageEnvelope)
    (k : RequestResponseCoordinator)
    → (poll_response c deadline now k).0 ≡ ok (some e)
    → k.responses c ≡ some e
unfolding poll_response
poll_response-found c deadline now e k told = elim (Option-cases (k.responses c)) [
  | inl nothing_yet ↦ elim (Bool-cases (has_passed now deadline)) [
    | inl timed_out ↦ let no_answer = rw (poll_response, nothing_yet, timed_out) at told in cc
    | inr waits ↦ let no_answer = rw (poll_response, nothing_yet, waits) at told in cc
  ]
  | inr (e', there) ↦
      let answer : ◌≡◌ {A = Result CoordinatorError (Option MessageEnvelope)} (ok (some e'))
          (ok (some e)) =
        rw (poll_response, there) at told in
      there ∙ cc
]

-- Whatever the threads have done with a new coordinator, a wait that returns gives a response with the
-- correlation id that is waited for.
pub answer_correlated :
    (ss : List Step) (c : String) (deadline : Option ℕ) (now : ℕ) (e : MessageEnvelope)
    → (poll_response c deadline now (run_steps ss new_coordinator)).0 ≡ ok (some e)
    → e.correlation_id ≡ some c
answer_correlated ss c deadline now e told =
    (steps-IsCorrelated ss new_coordinator (record { own = λ c' e' h. cc })).own c e
      (poll_response-found c deadline now e (run_steps ss new_coordinator) told)

-- A response that comes at the deadline of its wait or later is not kept, and the deadline is forgotten.
pub late_response_dropped :
    (e : MessageEnvelope) (c : String) (d now : ℕ) (k : RequestResponseCoordinator)
    → e.correlation_id ≡ some c
    → (c == "") ≡ false
    → k.deadlines c ≡ some d
    → d ≤ now
    → let after = (store_response e now k).1 in
      (after.responses c ≡ none) × (after.deadlines c ≡ none)
unfolding store_response store_correlated evict_expired
late_response_dropped e c d now k given named set late =
    let passed : has_passed now (k.deadlines c) ≡ true = rw (set) (le→leb d now late) in
    rw (store_response, given, named, store_correlated, passed, evict_expired)
      (rw (passed), rw (passed))
