-- ===== src/Retries/Laws.antt =====
-- A retry is counted, wherever the count is read.
use pybus.Codec.{DateTime, Fields, Stdlib, Value, dict, int, text}
use pybus.Codec.Dict.{get, get-put_ne, get-put_self, put}
use pybus.Prelude.{false, none, refl, some, ℕ, ◌+◌, ◌==◌, ◌∙◌, ◌≡◌}
use pybus.Prelude.Int.{pos}
use pybus.Retries.{next_retry_payload, resolve_retry_count, valid_retry_count}

last_not_retries : ("last_attempt" == "retries") ≡ false
last_not_retries = refl

-- A payload that was prepared for the next retry carries one retry more than were counted before, by
-- the header if it has a valid one, else by the payload: a consumer that sees no retry header reads
-- exactly that.
pub retry_is_counted :
    (lib : Stdlib) (attempted_at : DateTime) (payload headers rest : Fields)
    → valid_retry_count lib (get "retries" rest) ≡ none
    → resolve_retry_count lib
        (dict (
          next_retry_payload lib attempted_at
            (some (resolve_retry_count lib (dict payload) headers))
            payload))
        rest
      ≡ resolve_retry_count lib (dict payload) headers + 1
unfolding resolve_retry_count next_retry_payload
retry_is_counted lib attempted_at payload headers rest h =
    let n = resolve_retry_count lib (dict payload) headers in
    let counted = put "retries" (int (pos (n + 1))) payload in
    let read : get "retries" (put "last_attempt" (text (lib.datetime_text attempted_at)) counted)
        ≡ some (int (pos (n + 1))) =
      get-put_ne "last_attempt" "retries" _ counted last_not_retries
      ∙ get-put_self "retries" (int (pos (n + 1))) payload in
    rw h (rw read refl)

-- The count of a message that is sent again is the one that was written.
pub resolve_retry_count-put :
    (lib : Stdlib) (payload attempt : Value) (n : ℕ) (headers : Fields)
    → resolve_retry_count lib payload
        (put "last_attempt" attempt (put "retries" (int (pos n)) headers))
      ≡ n
unfolding resolve_retry_count valid_retry_count
resolve_retry_count-put lib payload attempt n headers =
    let found : get "retries" (put "last_attempt" attempt (put "retries" (int (pos n)) headers))
        ≡ some (int (pos n)) =
      get-put_ne "last_attempt" "retries" attempt (put "retries" (int (pos n)) headers) refl
      ∙ get-put_self "retries" (int (pos n)) headers in
    rw (resolve_retry_count, found, valid_retry_count)
