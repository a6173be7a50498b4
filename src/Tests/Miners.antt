-- ===== src/Tests/Miners.antt =====
-- The two miners and a run of them, on a week in a house with a motion sensor and a lamp.
use hass_ai.Prelude.{
  ℕ, ◌+◌, ◌*◌, ◌≤◌, ◌≡◌, refl, map, false, String, Option, none, some, List, [], ◌∷◌, ◌++◌, length,
  All, arith, nat_eq, if◌then◌else◌,
}
use hass_ai.Prelude.Int.{pos}
use hass_ai.Db.Models.{manual, automation}
use hass_ai.Miner.Types.{MinedEvent}
use hass_ai.Miner.Stats.Clusters.{Timed, numbered, cluster_minutes, total, cluster_minutes-total}
use hass_ai.Miner.Stats.{minutes_of_day}
use hass_ai.Miner.Sun.{call_all, sun_minutes-uncached}
use hass_ai.Miner.Pairs.{PairSettings, mine_event_pairs}
use hass_ai.Miner.Pairs.Candidates.{IsObserved, event_pairs_founded}
use hass_ai.Miner.Tod.{TodSettings, Figures}
use hass_ai.Miner.Tod.Mine.{mine_time_of_day}
use hass_ai.Miner.Tod.Bounds.{IsMined, mine_time_of_day-IsMined}
use hass_ai.Miner.Upsert.{insert_best, upsert_one}
use hass_ai.Miner.Upsert.Keys.{pattern_count}
use hass_ai.Miner.Run.{MinerSettings, run_mining}
use hass_ai.Miner.Run.Support.{IsShareRow, run_mining-IsShareRow}
use hass_ai.Miner.Run.Kept.{IsGrown, run_mining-IsGrown}
use hass_ai.Tests.Samples.{lamp, lamp_pattern, utc}

abbrev motion : ℕ → MinedEvent
motion t = record {
  time = t;
  entity_id = "binary_sensor.hall";
  domain = "binary_sensor";
  old_state = some "off";
  new_state = some "on";
  triggered_by = automation;
  user_id = none;
}

abbrev switched : ℕ → MinedEvent
switched t = record {
  time = t;
  entity_id = lamp;
  domain = "light";
  old_state = some "off";
  new_state = some "on";
  triggered_by = manual;
  user_id = some "ann";
}

-- At 07:15 someone comes in and switches the lamp on half a minute later.
abbrev morning : ℕ → List MinedEvent
morning d = motion (d * 86400 + 26100) ∷ switched (d * 86400 + 26130) ∷ []

abbrev week : List MinedEvent
week = morning 1 ++ morning 2 ++ morning 3 ++ morning 4

abbrev pair_settings : PairSettings
pair_settings = record {
  window = 300;
  min_gap = 2;
  min_pairs = 4;
  min_confidence = 6000;
  min_lift = 300;
}

event_pairs_founded_example :
    All (IsObserved pair_settings utc week 4) (mine_event_pairs pair_settings utc 4 259230 week)
event_pairs_founded_example = event_pairs_founded pair_settings utc 4 259230 week

one_pair :
    map (λ c. c.pattern_key) (mine_event_pairs pair_settings utc 4 259230 week)
    ≡ "pair:binary_sensor.hall:on->light.hall:on" ∷ []
unfolding mine_event_pairs
one_pair = refl

abbrev tod_settings : TodSettings
tod_settings = record {
  min_support = 5000;
  min_occurrences = 4;
  tolerance = 2700;
  cluster_gap = 5400;
  schedule_std = 120;
  sun_std = 300;
  sun_min_span_days = 10;
}

-- The mean is the first time, and nothing deviates.
abbrev figures : Figures
figures = record {
  mean = λ ms. elim ms [ [] ↦ 0 | m ∷ _ ↦ m ];
  std = λ ms. 0;
  deviation = λ os. 0;
  average = λ os. pos 0;
  two_digits = λ n. "14";
}

abbrev weekday : ℕ → String
weekday t = "weekday"

abbrev four_days : String → ℕ
four_days day_type = 4

mine_time_of_day-IsMined_example :
    All
      (IsMined tod_settings utc weekday four_days week)
      (mine_time_of_day tod_settings figures utc none weekday four_days week)
mine_time_of_day-IsMined_example =
    mine_time_of_day-IsMined tod_settings figures utc none weekday four_days week

one_habit :
    map (λ c. c.pattern_key) (mine_time_of_day tod_settings figures utc none weekday four_days week)
    ≡ "tod:light.hall:on:weekday:14" ∷ []
unfolding mine_time_of_day minutes_of_day
one_habit = refl

-- 23:50, 07:15 and 00:10: two clusters, the first across midnight.
abbrev times : List ℕ
times = 85800 ∷ 26100 ∷ 600 ∷ []

abbrev is_index : ℕ → Timed → ℕ
is_index i t = if nat_eq t.index i then 1 else 0

cluster_minutes-total_example : total (is_index 2) (cluster_minutes 5400 times) ≡ 1
unfolding numbered
cluster_minutes-total_example = cluster_minutes-total (is_index 2) 5400 times

two_clusters :
    map (λ c. map (λ t. t.index) c) (cluster_minutes 5400 times) ≡ (0 ∷ 2 ∷ []) ∷ (1 ∷ []) ∷ []
unfolding cluster_minutes
two_clusters = refl

-- The sun rises at 06:00 and sets at 20:00, but not on day 2.
abbrev sun_of : ℕ → Option (ℕ × ℕ)
sun_of d = if nat_eq d 2 then none else some (d * 86400 + 21600, d * 86400 + 72000)

sun_minutes-uncached_example :
    call_all sun_of utc (1 ∷ 2 ∷ 1 ∷ []) [] ≡ some (21600, 72000) ∷ none ∷ some (21600, 72000) ∷ []
unfolding minutes_of_day
sun_minutes-uncached_example = sun_minutes-uncached sun_of utc (1 ∷ 2 ∷ 1 ∷ []) [] tt

abbrev miner_settings : MinerSettings
miner_settings = record {
  lookback_days = 28;
  tod = tod_settings;
  pairs = pair_settings;
  figures = figures;
  tz = utc;
  sun = none;
  us_holidays = λ d. false;
}

run_mining-IsShareRow_example :
    All IsShareRow (run_mining miner_settings 432000 week (lamp_pattern ∷ [])).0
run_mining-IsShareRow_example =
    run_mining-IsShareRow miner_settings 432000 week (lamp_pattern ∷ [])
      ((omega arith, omega arith), tt)

run_mining-IsGrown_example :
    IsGrown (lamp_pattern ∷ []) (run_mining miner_settings 432000 week (lamp_pattern ∷ [])).0
    × (pattern_count "tod:light.hall:on:weekday:14"
          (run_mining miner_settings 432000 week (lamp_pattern ∷ [])).0
        ≤ 1)
run_mining-IsGrown_example =
    run_mining-IsGrown miner_settings 432000 week "tod:light.hall:on:weekday:14" (lamp_pattern ∷ [])
      (omega arith)

two_rows : length (run_mining miner_settings 432000 week (lamp_pattern ∷ [])).0 ≡ 2
unfolding run_mining minutes_of_day insert_best upsert_one
two_rows = refl
