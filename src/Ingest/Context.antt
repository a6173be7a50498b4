-- ===== src/Ingest/Context.antt =====
-- `day_type` and `season` of src/pae/ingest/context.py. The holiday calendar and the travel calendar are
-- parameters; a date is the number of its day, 1 being a Monday, with its month beside it.
use hass_ai.Prelude.{ℕ, ◌+◌, ◌%◌, Bool, false, ◌||◌, Option, none, some, leb, nat_eq, if◌then◌else◌}

pub data DayType : Type 0 where
  weekday weekend holiday travel : DayType

pub data Season : Type 0 where
  winter spring summer fall : Season

abbrev is_travel_day : Option (ℕ → Bool) → ℕ → Bool
is_travel_day none day = false
is_travel_day (some calendar) day = calendar day

unfoldable pub day_type : (ℕ → Bool) → Option (ℕ → Bool) → ℕ → DayType
day_type us_holidays calendar day =
    if is_travel_day calendar day
    then travel
    else if us_holidays day
    then holiday
    else if leb 5 ((day + 6) % 7)
    then weekend
    else weekday

unfoldable pub season : ℕ → Season
season month =
    if nat_eq month 12 || nat_eq month 1 || nat_eq month 2
    then winter
    else if nat_eq month 3 || nat_eq month 4 || nat_eq month 5
    then spring
    else if nat_eq month 6 || nat_eq month 7 || nat_eq month 8
    then summer
    else fall
