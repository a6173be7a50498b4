-- ===== src/Miner/Tod/Mine.antt =====
-- The second loop of `mine_time_of_day` (src/pae/miner/tod.py). With a tolerance of 0 the source divides by
-- zero; the settings give a positive one.
use Prim.Native.String.{◌++◌ as append}
use hass_ai.Prelude.{
  ℕ, ◌*◌, ◌/◌, String, Option, none, some, List, [], ◌∷◌, ◌++◌, map, length, last_n, ltb, nat_eq,
  if◌then◌else◌,
}
use hass_ai.Prelude.Distinct.{distinct}
use hass_ai.Prelude.Sort.{sort_by}
use hass_ai.Db.Models.{time_of_day}
use hass_ai.Miner.Ratio.{round_div, ratio_one}
use hass_ai.Miner.Stats.{Zone, minute, day_minutes, local_minute}
use hass_ai.Miner.Stats.Clusters.{Timed, cluster_minutes}
use hass_ai.Miner.Types.{MinedEvent, PatternCandidate}
use hass_ai.Miner.Pairs.{head_or}
use hass_ai.Miner.Tod.{
  TodSettings, Figures, Habit, Suspicion, suspicion, count_within, pick, dates, tenth, group_events,
}

-- consistency / (2 * tolerance_minutes / DAY_MINUTES), to its second decimal.
abbrev lift_of : ℕ → ℕ → ℕ → ℕ
lift_of tolerance within n = round_div (within * day_minutes * 100) (n * (2 * tolerance))

-- PatternCandidate(...) of a cluster.
abbrev tod_candidate :
    TodSettings
    → Figures
    → Habit
    → ℕ
    → List MinedEvent
    → List ℕ
    → ℕ
    → List ℕ
    → Suspicion
    → PatternCandidate
tod_candidate s f h total_days cevs cmins active times sus =
    let mean = f.mean cmins in
    let within = count_within s.tolerance mean cmins in
    record {
      kind = time_of_day;
      pattern_key = append "tod:" (
          append h.entity_id (
            append ":" (
              append h.action (
                append ":"
                  (append h.day_type (append ":" (f.two_digits (mean / (30 * minute)))))))));
      entity_id = h.entity_id;
      action = h.action;
      day_type = some h.day_type;
      trigger_entity_id = none;
      trigger_state = none;
      tod_minutes = some (tenth mean);
      tod_std_minutes = some (tenth (f.std cmins));
      support = round_div (active * ratio_one) total_days;
      confidence = round_div (active * ratio_one) total_days;
      lift = lift_of s.tolerance within (length cmins);
      temporal_consistency = some (round_div (within * ratio_one) (length cmins));
      occurrences = length cevs;
      days_observed = total_days;
      suspected_schedule = sus.suspected;
      evidence = record {
        schedule_anchor = sus.anchor;
        sun_offset = sus.sun_offset;
        sample_times = last_n 10 times;
        n_a = none;
        n_b = none;
      };
      first_seen = head_or 0 times;
      last_seen = head_or 0 (last_n 1 times);
    }

module _ (s : TodSettings) (f : Figures) (tz : Zone) (sun : Option (ℕ → Option (ℕ × ℕ))) where
  -- The body of the inner loop; an empty list is its `continue`.
  unfoldable pub mine_cluster : Habit → ℕ → List Timed → List PatternCandidate
  unfolding distinct round_div sort_by suspicion count_within pick
  mine_cluster h total_days cluster =
      let cevs = pick h.events cluster in
      let cmins = map (λ t. t.minutes) cluster in
      let active = length (distinct (dates tz cevs)) in
      if ltb (length cevs) s.min_occurrences
      then []
      else if ltb (active * ratio_one) (s.min_support * total_days)
      then []
      else (tod_candidate s f h total_days cevs cmins active
            (sort_by (λ t. t) (map (λ e. e.time) cevs))
            (suspicion s f tz sun (f.std cmins) cevs cmins)
          ∷ [])

  unfoldable pub mine_clusters : Habit → ℕ → List (List Timed) → List PatternCandidate
  unfolding mine_cluster
  mine_clusters h total_days [] = []
  mine_clusters h total_days (c ∷ cs) = mine_cluster h total_days c ++ mine_clusters h total_days cs

  -- The body of the outer loop.
  unfoldable pub mine_habit : (String → ℕ) → Habit → List PatternCandidate
  unfolding mine_clusters cluster_minutes
  mine_habit days_observed h =
      if nat_eq (days_observed h.day_type) 0
      then []
      else (mine_clusters h (days_observed h.day_type)
          (cluster_minutes s.cluster_gap (map (λ e. local_minute tz e.time) h.events)))

  unfoldable pub mine_habits : (String → ℕ) → List Habit → List PatternCandidate
  unfolding mine_habit
  mine_habits days_observed [] = []
  mine_habits days_observed (h ∷ hs) = mine_habit days_observed h ++ mine_habits days_observed hs

  unfoldable pub mine_time_of_day :
      (ℕ → String) → (String → ℕ) → List MinedEvent → List PatternCandidate
  unfolding mine_habits group_events
  mine_time_of_day day_type_for days_observed events =
      mine_habits days_observed (group_events day_type_for events [])
