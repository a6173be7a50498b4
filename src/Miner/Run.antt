-- ===== src/Miner/Run.antt =====
-- `day_type_of`, `load_events` and `run_mining` of src/pae/miner/service.py. The metrics and the log are
-- not modelled; the transaction is the function from the stored patterns to the new ones.
pub mod Support
pub mod Kept
use hass_ai.Prelude.{
  ℕ, ◌+◌, ◌-◌, ◌*◌, ◌/◌, String, Bool, true, false, not, ◌&&◌, ◌||◌, Option, none, some, List, [],
  ◌∷◌, ◌++◌, map, length, filter, sum_by, ltb, leb, nat_eq, str_eq, if◌then◌else◌, max, is_empty,
}
use hass_ai.Prelude.Distinct.{distinct}
use hass_ai.Prelude.Sort.{sort_by}
use hass_ai.Db.Models.{is_time_of_day, Pattern}
use hass_ai.Shadow.Evaluate.{weekday_of}
use hass_ai.Miner.Stats.{Zone, minute}
use hass_ai.Miner.Types.{MinedEvent, PatternCandidate}
use hass_ai.Miner.Pairs.{PairSettings, head_or, mine_event_pairs}
use hass_ai.Miner.Tod.{TodSettings, Figures, dates}
use hass_ai.Miner.Tod.Mine.{mine_time_of_day}
use hass_ai.Miner.Reconcile.{ExistingKey, reconcile_keys}
use hass_ai.Miner.Upsert.{dedupe_candidates, upsert_patterns}

pub record MiningResult : Type 0 where
  pub events_loaded : ℕ
  pub days_observed : ℕ
  pub tod_patterns : ℕ
  pub pair_patterns : ℕ

-- The holidays are a parameter.
abbrev pub day_type_of : (ℕ → Bool) → ℕ → String
day_type_of us_holidays d = if leb 5 (weekday_of d) || us_holidays d then "weekend" else "weekday"

-- SELECT ... WHERE time >= since ORDER BY time
unfoldable pub load_events : ℕ → List MinedEvent → List MinedEvent
unfolding sort_by
load_events since rows = sort_by (λ e. e.time) (filter (λ e. leb since e.time) rows)

-- days_by_type[day_type]
abbrev pub days_by_type : (ℕ → Bool) → List ℕ → String → ℕ
days_by_type us_holidays observed day_type =
    sum_by (λ d. if str_eq (day_type_of us_holidays d) day_type then 1 else 0) observed

abbrev pub key_of : Pattern → ExistingKey
key_of p = record {
  pattern_key = p.pattern_key;
  entity_id = p.entity_id;
  action = p.action;
  day_type = p.day_type;
  tod_minutes = p.tod_minutes;
}

-- SELECT ... WHERE kind = 'time_of_day'
abbrev pub existing_keys : List Pattern → List ExistingKey
existing_keys patterns = map key_of (filter (λ p. is_time_of_day p.kind) patterns)

-- events[-1].time
abbrev last_time : ℕ → List ℕ → ℕ
last_time d [] = d
last_time d (t ∷ ts) = last_time t ts

-- span_minutes, with at least one minute.
abbrev pub span_of : List MinedEvent → ℕ
span_of events =
    let times = map (λ e. e.time) events in max (last_time 0 times - head_or 0 times) minute

-- The settings and the parameters of a run.
pub record MinerSettings : Type 0 where
  pub lookback_days : ℕ
  pub tod : TodSettings
  pub pairs : PairSettings
  pub figures : Figures
  pub tz : Zone
  pub sun : Option (ℕ → Option (ℕ × ℕ))
  pub us_holidays : ℕ → Bool

module _ (s : MinerSettings) where
  -- `tod` and `pairs` of a run, before the keys are reconciled.
  unfoldable pub mined_tod : List MinedEvent → List PatternCandidate
  unfolding mine_time_of_day distinct
  mined_tod events =
      mine_time_of_day s.tod s.figures s.tz s.sun (λ t. day_type_of s.us_holidays (s.tz.date t))
        (days_by_type s.us_holidays (distinct (dates s.tz events))) events

  unfoldable pub mined_pairs : List MinedEvent → List PatternCandidate
  unfolding mine_event_pairs distinct
  mined_pairs events =
      mine_event_pairs s.pairs s.tz (length (distinct (dates s.tz events))) (span_of events) events

  -- dedupe_candidates(tod + pairs)
  unfoldable pub mined : List MinedEvent → List Pattern → List PatternCandidate
  unfolding mined_tod mined_pairs reconcile_keys dedupe_candidates
  mined events patterns = dedupe_candidates (
      reconcile_keys s.tod.tolerance (existing_keys patterns) (mined_tod events)
      ++ mined_pairs events)

  -- The patterns after the run, and its result.
  unfoldable pub run_mining : ℕ → List MinedEvent → List Pattern → List Pattern × MiningResult
  unfolding load_events mined upsert_patterns
  run_mining now rows patterns =
      let events = load_events (now - s.lookback_days * (1440 * minute)) rows in
      if is_empty events
      then (
        patterns,
        record { events_loaded = 0; days_observed = 0; tod_patterns = 0; pair_patterns = 0 },
      )
      else (
        upsert_patterns now (mined events patterns) patterns,
        record {
          events_loaded = length events;
          days_observed = length (distinct (dates s.tz events));
          tod_patterns =
              length (reconcile_keys s.tod.tolerance (existing_keys patterns) (mined_tod events));
          pair_patterns = length (mined_pairs events);
        },
      )
