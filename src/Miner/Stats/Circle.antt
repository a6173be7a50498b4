-- ===== src/Miner/Stats/Circle.antt =====
-- The laws of `circular_diff` (src/pae/miner/stats.py).
use hass_ai.Prelude.{◌+◌, ◌*◌, ◌%◌, ◌≤◌, ◌<◌, ◌≡◌, arith}
use hass_ai.Prelude.Int.{ℤ, pos, pos_part, neg_part, abs, ◌+ℤ◌}
use hass_ai.Miner.Stats.{minute, day_minutes, mod_day, circular_diff, LocalTime, minutes_of_day}

-- The local wall clock gives a time of day.
pub minutes_of_day-lt_day :
    (t : LocalTime) → t.hour < 24 → t.minutes < 60 → t.seconds < 60 → minutes_of_day t < day_minutes
unfolding minutes_of_day
minutes_of_day-lt_day t h m s = omega arith

pub mod_day-lt : (d : ℤ) → mod_day d < day_minutes
unfolding mod_day
mod_day-lt d = omega arith

-- `circular_diff` is minimal: it never passes half a day, and reaches -half a day never.
pub circular_diff_bounds :
    (a b : ℤ)
    → (abs (circular_diff a b) ≤ 720 * minute) × (neg_part (circular_diff a b) < 720 * minute)
unfolding circular_diff
circular_diff_bounds a b = ground arith

-- Swapping the two times keeps the distance.
pub abs-circular_diff_comm : (a b : ℤ) → abs (circular_diff a b) ≡ abs (circular_diff b a)
unfolding circular_diff
abs-circular_diff_comm a b = ground arith

-- It is the difference of the two times up to whole days.
pub circular_diff_mod :
    (a b : ℤ)
    → (pos_part (circular_diff a b) + neg_part a + pos_part b) % day_minutes
      ≡ (neg_part (circular_diff a b) + pos_part a + neg_part b) % day_minutes
unfolding circular_diff
circular_diff_mod a b = ground arith

-- A whole day more on either side changes nothing.
pub circular_diff-add_day : (a b : ℤ) → circular_diff (a +ℤ pos day_minutes) b ≡ circular_diff a b
unfolding circular_diff ◌+ℤ◌
circular_diff-add_day a b = ground arith
