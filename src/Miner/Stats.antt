-- ===== src/Miner/Stats.antt =====
-- Times of day on the day circle (src/pae/miner/stats.py). A minute is counted as 60 seconds, the
-- resolution of `minutes_of_day`, so that a time of day is a whole number below `day_minutes`.
pub mod Circle
pub mod Clusters
use hass_ai.Prelude.{ℕ, ◌+◌, ◌-◌, ◌*◌, ◌%◌, ltb, if◌then◌else◌}
use hass_ai.Prelude.Int.{ℤ, pos, pos_part, neg_part, sub_ℕ, ◌-ℤ◌}

-- One minute.
abbrev pub minute : ℕ
minute = 60

-- DAY_MINUTES
abbrev pub day_minutes : ℕ
day_minutes = 1440 * minute

-- The wall clock in the local time zone; `fold` and the date play no part in the minute of the day.
pub record LocalTime : Type 0 where
  pub hour : ℕ
  pub minutes : ℕ
  pub seconds : ℕ

-- A time zone, and the offset that a timestamp has in it: the zone database is no part of the program.
-- `date` is `dt.astimezone(tz).date()`, `midnight` the timestamp of a date's first second.
pub record Zone : Type 0 where
  pub date : ℕ → ℕ
  pub clock : ℕ → LocalTime
  pub midnight : ℕ → ℕ

unfoldable pub minutes_of_day : LocalTime → ℕ
minutes_of_day local = local.hour * 60 * minute + local.minutes * minute + local.seconds

-- Python's `a % DAY_MINUTES`, which is not negative for a positive modulus.
unfoldable pub mod_day : ℤ → ℕ
mod_day d = (pos_part d + (day_minutes - neg_part d % day_minutes)) % day_minutes

unfoldable pub circular_diff : ℤ → ℤ → ℤ
unfolding mod_day ◌-ℤ◌
circular_diff a b =
    let d = mod_day (a -ℤ b) in if ltb (720 * minute) d then sub_ℕ d day_minutes else pos d

-- minutes_of_day(dt, tz)
abbrev pub local_minute : Zone → ℕ → ℕ
local_minute tz t = minutes_of_day (tz.clock t)
