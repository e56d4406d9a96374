-- ===== src/Examples/Schedules.antt =====
-- A daily schedule that ends.
use pybus.Examples.Sample.{sample_calendar, sample_zone}
use pybus.Prelude.{arith, refl, some, ℕ, ◌*◌, ◌+◌, ◌≡◌}
use pybus.Prelude.Exec.{ok}
use pybus.Recurrence.{
  Recurrence, bounded, daily, day_length, get_zone, initial_index, next_cadence_at,
}
use pybus.Recurrence.Cadence.{next_cadence_at-first, slot}
use pybus.Recurrence.Slots.{FirstAfter, IsSteady}

abbrev daily_report : Recurrence
daily_report = record { cadence = daily; timezone = "UTC"; ends_at = some (9 * day_length) }

sample_zone-IsSteady : IsSteady sample_zone
sample_zone-IsSteady = record {
  ahead = λ t. omega arith;
  behind = λ t. omega arith;
  forward = λ v. omega arith;
}

next_run_found :
    next_cadence_at sample_calendar daily_report 5 (3 * day_length + 5)
    ≡ ok (some (4 * day_length + 5))
unfolding next_cadence_at
next_run_found = refl

next_cadence_at-first_example :
    let index = initial_index sample_calendar daily 5 (3 * day_length + 5) in
    let slots = slot sample_calendar sample_zone daily 5 in
    (k : ℕ) × (next_cadence_at sample_calendar daily_report 5 (3 * day_length + 5)
      ≡ ok (bounded (some (9 * day_length)) (slots (index + k))))
    × FirstAfter slots (3 * day_length + 5) index k
unfolding get_zone
next_cadence_at-first_example =
    next_cadence_at-first sample_calendar daily_report 5 (3 * day_length + 5) sample_zone refl
      sample_zone-IsSteady (omega arith)
