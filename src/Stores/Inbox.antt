-- ===== src/Stores/Inbox.antt =====
-- src/pybus/inbox.py: the ids of messages that were processed, for a time. Clock readings are
-- arguments, in microseconds; so is the time to live.
use pybus.Prelude.{
  Bool, Bool-cases, List, Option, String, [], any, any-append, arith, eq_refl, false, if◌then◌else◌,
  inl, inr, is_some, keep, leb, ltb, none, or_else, refl, some, true, ℕ, ◌&&◌, ◌++◌, ◌+◌, ◌==◌, ◌∙◌,
  ◌∷◌, ◌≡◌,
}
use pybus.Prelude.Exec.{Exec, Result, err, ok}

pub record InboxEntry : Type 0 where
  pub message_id : String
  pub seen_at : ℕ

pub record InMemoryInboxStore : Type 0 where
  pub ttl : Option ℕ
  pub entries : List InboxEntry

pub data DuplicateMessageError : Type 0 where
  duplicate_message : DuplicateMessageError

-- `entry.seen_at >= now - ttl`
abbrev pub is_kept : ℕ → ℕ → InboxEntry → Bool
is_kept now ttl e = leb now (e.seen_at + ttl)

unfoldable pub prune : ℕ → InMemoryInboxStore → InMemoryInboxStore
prune now s = elim s.ttl [
  | none ↦ s
  | some ttl ↦ record s { entries = keep (is_kept now ttl) s.entries }
]

unfoldable pub has_entry : String → List InboxEntry → Bool
has_entry m = any (λ e. e.message_id == m)

unfoldable pub seen : ℕ → String → InMemoryInboxStore → Bool × InMemoryInboxStore
unfolding prune has_entry
seen now m s = let s' = prune now s in (has_entry m s'.entries, s')

-- `now` is read to prune, `later` for the new entry.
unfoldable pub record_message :
    ℕ → ℕ → String → Exec InMemoryInboxStore DuplicateMessageError (Unit {0})
unfolding prune has_entry
record_message now later m s =
    let s' = prune now s in
    if has_entry m s'.entries then (err duplicate_message, s') else (
      ok tt,
      record s' { entries = s'.entries ++ record { message_id = m; seen_at = later } ∷ [] },
    )

has_entry-keep :
    (now ttl : ℕ) (m : String) (es : List InboxEntry)
    → has_entry m (keep (is_kept now ttl) es) ≡ any (λ e. e.message_id == m && is_kept now ttl e) es
unfolding has_entry
has_entry-keep now ttl m [] = refl
has_entry-keep now ttl m (e ∷ es) = ground (arith, has_entry-keep now ttl m es)

-- What `seen` answers: the message was recorded, at a time that is not too long ago.
abbrev pub seen_within : Option ℕ → ℕ → String → List InboxEntry → Bool
seen_within none now m es = any (λ e. e.message_id == m) es
seen_within (some ttl) now m es = any (λ e. e.message_id == m && is_kept now ttl e) es

seen_lem :
    (now : ℕ) (m : String) (ttl : Option ℕ) (es : List InboxEntry)
    → (seen now m (record { ttl = ttl; entries = es })).0 ≡ seen_within ttl now m es
unfolding seen has_entry
seen_lem now m none es = refl
seen_lem now m (some ttl) es = has_entry-keep now ttl m es

-- The entries that `prune` leaves, by the time to live.
abbrev pruned : Option ℕ → ℕ → List InboxEntry → List InboxEntry
pruned none now es = es
pruned (some ttl) now es = keep (is_kept now ttl) es

seen-pruned :
    (now : ℕ) (m : String) (ttl : Option ℕ) (es : List InboxEntry)
    → (seen now m (record { ttl = ttl; entries = es })).0 ≡ has_entry m (pruned ttl now es)
unfolding seen
seen-pruned now m none es = refl
seen-pruned now m (some ttl) es = refl

abbrev entry : String → ℕ → InboxEntry
entry m at = record { message_id = m; seen_at = at }

record_message_lem :
    (now later : ℕ) (m : String) (ttl : Option ℕ) (es : List InboxEntry)
    → record_message now later m (record { ttl = ttl; entries = es }) ≡ (
        if has_entry m (pruned ttl now es)
        then (err duplicate_message, record { ttl = ttl; entries = pruned ttl now es })
        else (ok tt, record { ttl = ttl; entries = pruned ttl now es ++ entry m later ∷ [] }))
unfolding record_message
record_message_lem now later m none es = refl
record_message_lem now later m (some ttl) es = refl

has_entry-new :
    (at later : ℕ) (m : String) (ttl : Option ℕ) (es : List InboxEntry)
    → (is_some ttl && ltb (later + or_else ttl 0) at) ≡ false
    → has_entry m (pruned ttl at (es ++ entry m later ∷ [])) ≡ true
unfolding has_entry
has_entry-new at later m none es live =
    any-append (λ e. e.message_id == m) es (entry m later ∷ []) ∙ ground (arith, eq_refl m)
has_entry-new at later m (some ttl) es live =
    unfold has_entry in
    has_entry-keep at ttl m (es ++ entry m later ∷ [])
    ∙ (any-append (λ e. e.message_id == m && is_kept at ttl e) es (entry m later ∷ [])
        ∙ ground (arith, eq_refl m))

-- A message that was recorded is seen, and recording it again raises, as long as its entry lives: always
-- with no time to live, and up to and including the last moment of it otherwise.
pub seen-record_message :
    (now later at : ℕ) (m : String) (s : InMemoryInboxStore)
    → (record_message now later m s).0 ≡ ok tt
    → (is_some s.ttl && ltb (later + or_else s.ttl 0) at) ≡ false
    → ((seen at m (record_message now later m s).1).0 ≡ true)
      × ((record_message at at m (record_message now later m s).1).0 ≡ err duplicate_message)
seen-record_message now later at m s h live =
    elim (Bool-cases (has_entry m (pruned s.ttl now s.entries))) [
      | inl e ↦
          let raised : ◌≡◌ {A = Result DuplicateMessageError (Unit {0})} (err duplicate_message)
              (ok tt) =
            rw e at (rw (record_message_lem now later m s.ttl s.entries) at h) in
          cc
      | inr e ↦
          let es = pruned s.ttl now s.entries ++ entry m later ∷ [] in
          let left : record_message now later m s ≡ (ok tt, record { ttl = s.ttl; entries = es }) =
            record_message_lem now later m s.ttl s.entries ∙ rw e in
          let there = has_entry-new at later m s.ttl (pruned s.ttl now s.entries) live in
          rw left
            (seen-pruned at m s.ttl es ∙ there, rw (record_message_lem at at m s.ttl es) (rw there))
    ]
