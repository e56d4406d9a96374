-- ===== src/Recurrence.antt =====
-- src/pybus/recurrence.py: the next slot of a daily, weekly or monthly schedule that keeps the local
-- wall-clock time of its anchor. An instant is the microseconds of UTC since the first day of year 1,
-- a wall-clock reading the microseconds that a clock in the zone shows since then. `datetime`,
-- `calendar` and `zoneinfo` are the parameter `Calendar`; that dates end with year 9999 is not
-- modelled.
pub mod Slots
pub mod Cadence
use pybus.Prelude.{
  Bool, Option, String, eqb, false, if◌then◌else◌, leb, ltb, max, min, none, some, some_and, suc,
  true, zero, ℕ, ◌%◌, ◌*◌, ◌+◌, ◌-◌, ◌/◌,
}
use pybus.Prelude.Exec.{Result, err, ok}

pub data RecurrenceCadence : Type 0 where
  daily weekly monthly : RecurrenceCadence

-- `fold` is true for the second reading of a repeated hour.
pub record Zone : Type 0 where
  pub to_wall : ℕ → ℕ
  pub of_wall : Bool → ℕ → ℕ

pub record Calendar : Type 0 where
  pub zone : String → Option Zone
  pub is_blank : String → Bool
  pub year : ℕ → ℕ
  pub month : ℕ → ℕ
  pub day : ℕ → ℕ
  pub month_length : ℕ → ℕ → ℕ
  pub replace : ℕ → ℕ → ℕ → ℕ → ℕ

pub data RecurrenceError : Type 0 where
  unknown_timezone unresolvable out_of_fuel : RecurrenceError

pub record Recurrence : Type 0 where
  pub cadence : RecurrenceCadence
  pub timezone : String
  pub ends_at : Option ℕ

abbrev pub day_length : ℕ
day_length = 86400000000

-- `_zone`
unfoldable pub get_zone : Calendar → String → Result RecurrenceError Zone
get_zone cal name =
    if cal.is_blank name
    then err unknown_timezone
    else elim (cal.zone name) [ none ↦ err unknown_timezone | some z ↦ ok z ]

-- `year * 12 + month - 1`; a month counts from 1
unfoldable pub month_index : Calendar → ℕ → ℕ
month_index cal w = cal.year w * 12 + cal.month w - 1

-- `_initial_index`, of the anchor and the reference as wall-clock readings. Each difference is negative
-- where the subtraction stops at 0, and `max` makes it 1 either way.
unfoldable pub initial_index : Calendar → RecurrenceCadence → ℕ → ℕ → ℕ
unfolding month_index
initial_index cal daily anchor after = max 1 (after / day_length - anchor / day_length)
initial_index cal weekly anchor after = max 1 ((after / day_length - anchor / day_length) / 7)
initial_index cal monthly anchor after = max 1 (month_index cal after - month_index cal anchor)

-- `_candidate_local`
unfoldable pub candidate_local : Calendar → ℕ → RecurrenceCadence → ℕ → ℕ
unfolding month_index
candidate_local cal anchor daily index = anchor + index * day_length
candidate_local cal anchor weekly index = anchor + index * (7 * day_length)
candidate_local cal anchor monthly index =
    let target = month_index cal anchor + index in
    let year = target / 12 in
    let month = target % 12 + 1 in
    cal.replace anchor year month (min (cal.day anchor) (cal.month_length year month))

-- The last resort of `_resolve_local`: the earlier of the readings that come out after `value`.
unfoldable pub later_reading : Zone → ℕ → ℕ → ℕ → Option ℕ
later_reading z value first second =
    if ltb value (z.to_wall first)
    then (if ltb value (z.to_wall second)
        then some (if leb first second then first else second)
        else some first)
    else if ltb value (z.to_wall second)
    then some second
    else none

-- `_resolve_local`, as the instant of its result; `none` is a ValueError.
unfoldable pub resolve_local : Zone → ℕ → Option ℕ
unfolding later_reading
resolve_local z value =
    let first = z.of_wall false value in
    let second = z.of_wall true value in
    if eqb (z.to_wall first) value
    then some first
    else if eqb (z.to_wall second) value
    then some second
    else later_reading z value first second

-- `ends_at is not None and candidate >= ends_at`
unfoldable pub bounded : Option ℕ → ℕ → Option ℕ
bounded ends_at candidate = if some_and (λ e. leb e candidate) ends_at then none else some candidate

-- The loop of `next_cadence_at`, on fuel.
unfoldable pub search_slot :
    Calendar → Zone → Recurrence → ℕ → ℕ → ℕ → ℕ → Result RecurrenceError (Option ℕ)
unfolding resolve_local candidate_local bounded
search_slot cal z r anchor after zero index = err out_of_fuel
search_slot cal z r anchor after (suc fuel) index =
    let rest = search_slot cal z r anchor after fuel (index + 1) in
    elim (resolve_local z (candidate_local cal anchor r.cadence index)) [
      | none ↦ err unresolvable
      | some candidate ↦ if ltb after candidate then ok (bounded r.ends_at candidate) else rest
    ]

-- Rounds of the loop; a daily or weekly schedule needs four if offsets stay below a day.
abbrev pub slot_fuel : ℕ
slot_fuel = 6

unfoldable pub search_in_zone :
    Calendar → Recurrence → ℕ → ℕ → Zone → Result RecurrenceError (Option ℕ)
unfolding search_slot initial_index
search_in_zone cal r starts_at after z =
    search_slot cal z r (z.to_wall starts_at) after slot_fuel
      (initial_index cal r.cadence (z.to_wall starts_at) (z.to_wall after))

unfoldable pub next_cadence_at : Calendar → Recurrence → ℕ → ℕ → Result RecurrenceError (Option ℕ)
unfolding get_zone search_in_zone
next_cadence_at cal r starts_at after = elim (get_zone cal r.timezone) [
  | err e ↦ err e
  | ok z ↦ search_in_zone cal r starts_at after z
]
