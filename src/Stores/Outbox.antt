-- ===== src/Stores/Outbox.antt =====
-- src/pybus/outbox.py: messages that wait to be dispatched. The queue holds the record objects that the
-- table holds too; of an object only the two times change, and they change in the table here.
use pybus.Prelude.{
  List, Option, String, [], ap, drop, eqb, none, refl, some, suc, take, take-add, update_where,
  zero, ℕ, ◌++◌, ◌+◌, ◌∷◌, ◌≡◌,
}

pub record OutboxRecord : Type 0 where
  pub receipt : ℕ
  pub message : String
  pub created_at : ℕ
  pub claimed_at : Option ℕ
  pub dispatched_at : Option ℕ

pub record InMemoryOutboxStore : Type 0 where
  pub queue : List (ℕ × String)
  pub records : List OutboxRecord

-- `add`; the receipt is a `uuid4`, `now` the time of creation.
unfoldable pub add : ℕ → ℕ → String → InMemoryOutboxStore → ℕ × InMemoryOutboxStore
add receipt now message s = (
  receipt,
  record {
    queue = s.queue ++ (receipt, message) ∷ [];
    records =
        s.records
        ++ record {
          receipt = receipt;
          message = message;
          created_at = now;
          claimed_at = none;
          dispatched_at = none;
        }
          ∷ [];
  },
)

unfoldable pub set_claimed : ℕ → ℕ → List OutboxRecord → List OutboxRecord
unfolding update_where
set_claimed receipt now =
    update_where (λ r. eqb r.receipt receipt) (λ r. record r { claimed_at = some now })

-- The loop of `claim`: `min(limit, len(queue))` rounds.
unfoldable pub claim_loop :
    ℕ → ℕ → List (ℕ × String) → List OutboxRecord → List String × InMemoryOutboxStore
unfolding set_claimed
claim_loop zero now queue records = ([], record { queue = queue; records = records })
claim_loop (suc n) now [] records = ([], record { queue = []; records = records })
claim_loop (suc n) now ((receipt, message) ∷ queue) records =
    let (taken, s) = claim_loop n now queue (set_claimed receipt now records) in
    (message ∷ taken, s)

unfoldable pub claim_messages : ℕ → ℕ → InMemoryOutboxStore → List String × InMemoryOutboxStore
unfolding claim_loop
claim_messages limit now s = claim_loop limit now s.queue s.records

unfoldable pub complete_receipt : ℕ → ℕ → InMemoryOutboxStore → InMemoryOutboxStore
unfolding update_where
complete_receipt receipt now s = record s {
  records =
      update_where (λ r. eqb r.receipt receipt) (λ r. record r { dispatched_at = some now })
        s.records;
}

-- The messages that wait, in order.
abbrev pub waiting : List (ℕ × String) → List String
waiting [] = []
waiting ((receipt, message) ∷ queue) = message ∷ waiting queue

waiting-append : (xs ys : List (ℕ × String)) → waiting (xs ++ ys) ≡ waiting xs ++ waiting ys
waiting-append [] ys = refl
waiting-append ((r, m) ∷ xs) ys = ap (λ (l : List String). m ∷ l) (waiting-append xs ys)

claim_loop-waiting :
    (n now : ℕ) (queue : List (ℕ × String)) (records : List OutboxRecord)
    → ((claim_loop n now queue records).0 ≡ take n (waiting queue))
      × (waiting (claim_loop n now queue records).1.queue ≡ drop n (waiting queue))
unfolding claim_loop
claim_loop-waiting zero now queue records = (refl, refl)
claim_loop-waiting (suc n) now [] records = (refl, refl)
claim_loop-waiting (suc n) now ((r, m) ∷ queue) records =
    let (oldest, left) = claim_loop-waiting n now queue (set_claimed r now records) in
    (ap (λ (l : List String). m ∷ l) oldest, left)

-- A claim takes the oldest messages that wait, as many as its limit allows, and leaves the others in
-- their order.
pub claim_messages-oldest :
    (limit now : ℕ) (s : InMemoryOutboxStore)
    → ((claim_messages limit now s).0 ≡ take limit (waiting s.queue))
      × (waiting (claim_messages limit now s).1.queue ≡ drop limit (waiting s.queue))
unfolding claim_messages
claim_messages-oldest limit now s = claim_loop-waiting limit now s.queue s.records

-- A message that is added waits behind all others, and what two claims return is what one claim of both
-- limits returns: nothing is lost between them and nothing comes twice.
pub claims_join :
    (n m now later receipt created : ℕ) (message : String) (s : InMemoryOutboxStore)
    → let s' = (add receipt created message s).1 in
      let (first, left) = claim_messages n now s' in
      (waiting s'.queue ≡ waiting s.queue ++ message ∷ [])
      × (first ++ (claim_messages m later left).0 ≡ (claim_messages (n + m) now s').0)
unfolding add
claims_join n m now later receipt created message s =
    let s' = (add receipt created message s).1 in
    let left = (claim_messages n now s').1 in
    let (one, rest) = claim_messages-oldest n now s' in
    (
      waiting-append s.queue ((receipt, message) ∷ []),
      rw one (
          rw (claim_messages-oldest m later left).0 (
            rw rest
              (rw (claim_messages-oldest (n + m) now s').0 (take-add n m (waiting s'.queue))))),
    )
