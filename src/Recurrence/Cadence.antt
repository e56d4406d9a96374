-- ===== src/Recurrence/Cadence.antt =====
-- `next_cadence_at` of daily and weekly schedules: src/pybus/recurrence.py.
use pybus.Prelude.{arith, or_else, refl, some, ℕ, ◌*◌, ◌+◌, ◌<◌, ◌≡◌, ◌≤◌}
use pybus.Prelude.Exec.{ok}
use pybus.Recurrence.{
  Calendar, Recurrence, RecurrenceCadence, Zone, bounded, candidate_local, daily, day_length,
  get_zone, initial_index, monthly, next_cadence_at, resolve_local, search_in_zone, slot_fuel,
  weekly,
}
use pybus.Recurrence.Slots.{FirstAfter, IsSteady, resolve_local-total, search_slot_lem}

-- The length of a daily or weekly step in days.
abbrev pub step_days : RecurrenceCadence → ℕ
step_days daily = 1
step_days weekly = 7
step_days monthly = 0

-- From the first index that is tried, the third candidate on comes out two days after the reference.
candidate_local-late :
    (cal : Calendar) (cadence : RecurrenceCadence) (anchor after : ℕ)
    → 0 < step_days cadence
    → after + 2 * day_length
      ≤ candidate_local cal anchor cadence (initial_index cal cadence anchor after + 3)
unfolding candidate_local initial_index
candidate_local-late cal daily anchor after h = omega arith
candidate_local-late cal weekly anchor after h = omega arith
candidate_local-late cal monthly anchor after h = omega (arith, h)

-- An instant whose reading comes two days after that of another is later.
later-instant :
    (z : Zone) (after c v : ℕ)
    → IsSteady z
    → z.to_wall after + 2 * day_length ≤ v
    → v ≤ z.to_wall c
    → after < c
later-instant z after c v steady far le =
    omega (arith, far, le, steady.ahead c, steady.behind after)

-- The instants of the slots of a schedule.
abbrev pub slot : Calendar → Zone → RecurrenceCadence → ℕ → ℕ → ℕ
slot cal z cadence anchor i = or_else (resolve_local z (candidate_local cal anchor cadence i)) 0

slot_lem :
    (cal : Calendar) (z : Zone) (cadence : RecurrenceCadence) (anchor i : ℕ)
    → IsSteady z
    → (resolve_local z (candidate_local cal anchor cadence i) ≡ some (slot cal z cadence anchor i))
      × (candidate_local cal anchor cadence i ≤ z.to_wall (slot cal z cadence anchor i))
slot_lem cal z cadence anchor i steady =
    let (c, found, le) = resolve_local-total z (candidate_local cal anchor cadence i) steady in
    (rw found refl, rw found le)

-- The next occurrence of a daily or weekly schedule in a steady zone is found within the fuel: it is
-- the first slot after the reference, counted from the index that the search starts at, or none if
-- that slot is not before the end of the schedule.
pub next_cadence_at-first :
    (cal : Calendar) (r : Recurrence) (starts_at after : ℕ) (z : Zone)
    → get_zone cal r.timezone ≡ ok z
    → IsSteady z
    → 0 < step_days r.cadence
    → let anchor = z.to_wall starts_at in
      let index = initial_index cal r.cadence anchor (z.to_wall after) in
      let slots = slot cal z r.cadence anchor in
      (k : ℕ) × (next_cadence_at cal r starts_at after ≡ ok (bounded r.ends_at (slots (index + k))))
      × FirstAfter slots after index k
unfolding next_cadence_at search_in_zone
next_cadence_at-first cal r starts_at after z zoned steady h =
    let anchor = z.to_wall starts_at in
    let index = initial_index cal r.cadence anchor (z.to_wall after) in
    let (_, far) = slot_lem cal z r.cadence anchor (index + 3) steady in
    let late =
      later-instant z after (slot cal z r.cadence anchor (index + 3))
        (candidate_local cal anchor r.cadence (index + 3)) steady
        (candidate_local-late cal r.cadence anchor (z.to_wall after) h) far in
    let (k, found, first) =
      search_slot_lem cal z r anchor after (slot cal z r.cadence anchor)
        (λ i. (slot_lem cal z r.cadence anchor i steady).0) slot_fuel index 3 (omega arith) late in
    (k, rw (zoned, next_cadence_at) found, first)
