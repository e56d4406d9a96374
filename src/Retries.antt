-- ===== src/Retries.antt =====
-- src/pybus/retries.py: how often a message has been tried. The delays are floats: they are no part of
-- the model, nor is the validation of a policy.
pub mod Laws
use pybus.Codec.{DateTime, Fields, Stdlib, Value, dict, int, text}
use pybus.Codec.Dict.{get, put}
use pybus.Prelude.{Bool, Option, String, if◌then◌else◌, is_some, ltb, none, or_else, some, ℕ, ◌+◌}
use pybus.Prelude.Int.{negsuc, pos, ℤ}

abbrev pub default_retry_limit : ℕ
default_retry_limit = 10

pub record RetryPolicy : Type 0 where
  pub max_retries : ℕ

unfoldable pub should_retry : RetryPolicy → ℕ → Bool
should_retry p retries = ltb retries p.max_retries

pub record RetryState : Type 0 where
  pub retries : ℕ
  pub last_attempt : Option ℕ
  pub first_attempt : Option ℕ

unfoldable pub bump : ℕ → RetryState → RetryState
bump attempted_at s = record {
  retries = s.retries + 1;
  last_attempt = some attempted_at;
  first_attempt = some (or_else s.first_attempt attempted_at);
}

abbrev pub non_negative : ℤ → Option ℕ
non_negative (pos n) = some n
non_negative (negsuc n) = none

abbrev pub bind_int : Option ℤ → Option ℕ
bind_int none = none
bind_int (some n) = non_negative n

-- `_valid_retry_count`
unfoldable pub valid_retry_count : Stdlib → Option Value → Option ℕ
valid_retry_count lib (some (int n)) = non_negative n
valid_retry_count lib (some (text s)) = bind_int (lib.parse_int s)
valid_retry_count lib _ = none

abbrev pub aware : Option DateTime → Option DateTime
aware none = none
aware (some d) = if is_some d.offset then some d else none

-- `_valid_datetime`
unfoldable pub valid_datetime : Stdlib → Option Value → Option DateTime
valid_datetime lib (some (text s)) = aware (lib.parse_datetime s)
valid_datetime lib _ = none

-- `payload.get(key)` if the payload is a mapping
abbrev pub mapping_get : String → Value → Option Value
mapping_get k (dict d) = get k d
mapping_get k _ = none

unfoldable pub resolve_retry_count : Stdlib → Value → Fields → ℕ
unfolding valid_retry_count
resolve_retry_count lib payload headers =
    or_else (valid_retry_count lib (get "retries" headers))
      (or_else (valid_retry_count lib (mapping_get "retries" payload)) 0)

unfoldable pub resolve_last_attempt : Stdlib → Value → Fields → Option DateTime
unfolding valid_datetime
resolve_last_attempt lib payload headers = elim (valid_datetime lib (get "last_attempt" headers)) [
  | some d ↦ some d
  | none ↦ valid_datetime lib (mapping_get "last_attempt" payload)
]

unfoldable pub next_retry_payload : Stdlib → DateTime → Option ℕ → Fields → Fields
unfolding valid_retry_count
next_retry_payload lib attempted_at retries payload =
    let current = or_else retries (or_else (valid_retry_count lib (get "retries" payload)) 0) in
    put "last_attempt" (text (lib.datetime_text attempted_at))
      (put "retries" (int (pos (current + 1))) payload)
