-- ===== src/Stores/Memory.antt =====
-- src/pybus/transports/memory.py: queues in memory, as a function from channels.
use mathlib.Core.List.{append-nil, append_assoc}
use pybus.Prelude.{
  Bool-cases, List, Option, String, [], ap, drop, eq_refl, if◌then◌else◌, inl, inr, length, none,
  refl, some, suc, sym, take, zero, ℕ, ◌++◌, ◌==◌, ◌∙◌, ◌∷◌, ◌≡◌,
}

pub record MemoryTransport : Type 0 where
  pub queues : String → List String

abbrev pub set_queue : String → List String → MemoryTransport → MemoryTransport
set_queue channel messages t = record {
  queues = λ c. if channel == c then messages else t.queues c;
}

unfoldable pub publish : String → String → MemoryTransport → MemoryTransport
publish channel message t = set_queue channel (t.queues channel ++ message ∷ []) t

unfoldable pub consume : String → MemoryTransport → Option String × MemoryTransport
consume channel t = elim (t.queues channel) [
  | [] ↦ (none, t)
  | m ∷ ms ↦ (some m, set_queue channel ms t)
]

unfoldable pub size : String → MemoryTransport → ℕ
size channel t = length (t.queues channel)

-- `while queue and len(items) < limit`, with `limit - len(items)` rounds left.
unfoldable pub consume_loop : ℕ → List String → List String × List String
consume_loop zero queue = ([], queue)
consume_loop (suc n) [] = ([], [])
consume_loop (suc n) (m ∷ queue) = let (items, left) = consume_loop n queue in (m ∷ items, left)

unfoldable pub consume_many : String → ℕ → MemoryTransport → List String × MemoryTransport
unfolding consume_loop
consume_many channel limit t =
    let (items, left) = consume_loop limit (t.queues channel) in (items, set_queue channel left t)

-- Publications of a batch, in order.
abbrev pub publish_all : String → List String → MemoryTransport → MemoryTransport
publish_all channel [] t = t
publish_all channel (m ∷ ms) t = publish_all channel ms (publish channel m t)

queues-publish :
    (channel m : String) (t : MemoryTransport)
    → (publish channel m t).queues channel ≡ t.queues channel ++ m ∷ []
unfolding publish
queues-publish channel m t = rw (eq_refl channel)

queues-publish_all :
    (channel : String) (ms : List String) (t : MemoryTransport)
    → (publish_all channel ms t).queues channel ≡ t.queues channel ++ ms
queues-publish_all channel [] t = sym (append-nil (t.queues channel))
queues-publish_all channel (m ∷ ms) t =
    let step = append_assoc (t.queues channel) (m ∷ []) ms in
    queues-publish_all channel ms (publish channel m t)
    ∙ ap (λ (l : List String). l ++ ms) (queues-publish channel m t)
    ∙ step

consume_loop_lem :
    (n : ℕ) (queue : List String) → consume_loop n queue ≡ (take n queue, drop n queue)
unfolding consume_loop
consume_loop_lem zero queue = refl
consume_loop_lem (suc n) [] = refl
consume_loop_lem (suc n) (m ∷ queue) =
    ap (λ (r : List String × List String). (m ∷ r.0, r.1)) (consume_loop_lem n queue)

-- After a batch of publications a bulk consume returns the oldest messages of the channel, old ones
-- first and then the batch in its order, up to its limit; the rest stays, and no other channel changes.
pub consume_many-publish_all :
    (channel another : String) (ms : List String) (limit : ℕ) (t : MemoryTransport)
    → let t' = publish_all channel ms t in
      let (items, left) = consume_many channel limit t' in
      (items ≡ take limit (t.queues channel ++ ms))
      × (left.queues channel ≡ drop limit (t.queues channel ++ ms))
      × ((if channel == another then t'.queues another else left.queues another)
          ≡ t'.queues another)
unfolding consume_many
consume_many-publish_all channel another ms limit t =
    let q = queues-publish_all channel ms t in
    (
      rw (consume_loop_lem limit ((publish_all channel ms t).queues channel)) (rw q),
      rw (eq_refl channel)
          (rw (consume_loop_lem limit ((publish_all channel ms t).queues channel)) (rw q)),
      elim (Bool-cases (channel == another)) [ inl e ↦ rw e | inr e ↦ rw e ],
    )
