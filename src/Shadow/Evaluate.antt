-- ===== src/Shadow/Evaluate.antt =====
-- `evaluate_day` of src/pae/shadow/service.py: one automation replayed against the events of one local
-- day. An exception that the source does not catch is `raised`.
pub mod Scores
pub mod Accepted
pub mod Adjacent
use hass_ai.Prelude.{
  not, is_some, false, ℕ, ◌+◌, ◌%◌, String, Bool, true, ◌&&◌, Option, none, some, List, [], ◌∷◌,
  ◌++◌, map, length, filter, any, all, ltb, leb, nat_eq, str_eq, opt_eq, if◌then◌else◌, split_once,
}
use hass_ai.Prelude.Int.{ℤ, pos, abs, sub_ℕ, leb_ℤ, ◌-ℤ◌}
use hass_ai.Db.Models.{Json, Kind, is_event_pair, Source, is_manual}
use hass_ai.Miner.Stats.{day_minutes, Zone, local_minute, circular_diff}
use hass_ai.Proposer.Schema.Clock.{parse_hms, parse_offset}
use hass_ai.Proposer.Schema.Automation.{
  Trigger, time_trigger, sun_trigger, state_trigger, Condition, time_condition, state_condition,
  sun_condition, ServiceAction, Automation, service_state, model_validate,
}
use hass_ai.Proposer.Validate.{SunMinutes, sun_minute}

pub record DayScore : Type 0 where
  pub expected_fires : ℕ
  pub human_matches : ℕ
  pub human_total : ℕ

-- `time` is a timestamp; a state that is absent in the database is `none`.
pub record ShadowEvent : Type 0 where
  pub time : ℕ
  pub entity_id : String
  pub new_state : Option String
  pub triggered_by : Source

-- The keyword arguments of `evaluate_day` that a run keeps fixed.
pub record Window : Type 0 where
  pub tolerance_minutes : ℕ
  pub pair_window_minutes : ℕ

pub data Outcome : Type 0 where
  scored : DayScore → Outcome
  skipped raised : Outcome

-- Day 1 of the proleptic calendar is a Monday; WEEKDAYS are counted from Monday, 0.
abbrev pub weekday_of : ℕ → ℕ
weekday_of day = (day + 6) % 7

abbrev condition_passes : ℕ → Condition → Bool
condition_passes day (time_condition none after before) = true
condition_passes day (time_condition (some days) after before) = any (nat_eq (weekday_of day)) days
condition_passes day (state_condition e s) = true
condition_passes day (sun_condition a b) = true

-- _day_passes_conditions
unfoldable pub day_passes_conditions : List Condition → ℕ → Bool
day_passes_conditions conditions day = all (condition_passes day) conditions

-- _relative_minute
unfoldable pub relative_minute : Zone → ℕ → ShadowEvent → ℤ
relative_minute tz day ev =
    let raw = local_minute tz ev.time in
    let ev_day = tz.date ev.time in
    if ltb ev_day day
    then sub_ℕ raw day_minutes
    else if ltb day ev_day
    then pos (raw + day_minutes)
    else pos raw

-- An event of the entity in the state.
abbrev pub is_state : String → Option String → ShadowEvent → Bool
is_state entity state e = str_eq e.entity_id entity && opt_eq e.new_state state

-- The ValueError of _parse_hms, which is called on the days that pass, or of _parse_offset, which is called
-- where the sun has minutes.
unfoldable pub fire_raises : Option SunMinutes → ℕ → List Condition → Trigger → Bool
unfolding parse_hms day_passes_conditions
fire_raises sun day conditions (time_trigger at) =
    day_passes_conditions conditions day && not (is_some (parse_hms at))
fire_raises none day conditions (sun_trigger event offset) = false
fire_raises (some sun) day conditions (sun_trigger event offset) =
    is_some (sun day) && not (is_some (parse_offset offset))
fire_raises sun day conditions (state_trigger e to from) = false

-- _fire_minutes, where it does not raise.
unfoldable pub fire_minutes :
    Zone → Option SunMinutes → ℕ → List ShadowEvent → List Condition → Trigger → Option (List ℤ)
fire_minutes tz sun day day_events conditions (time_trigger at) =
    if day_passes_conditions conditions day
    then elim (parse_hms at) [ none ↦ none | some t ↦ some (pos t ∷ []) ]
    else some []
fire_minutes tz none day day_events conditions (sun_trigger event offset) = none
fire_minutes tz (some sun) day day_events conditions (sun_trigger event offset) =
    elim (sun_minute event offset (sun day)) [
      | none ↦ none
      | some t ↦ some (if day_passes_conditions conditions day then t ∷ [] else [])
    ]
fire_minutes tz sun day day_events conditions (state_trigger e to from) =
    some (map (λ ev. pos (local_minute tz ev.time)) (filter (is_state e (some to)) day_events))

-- _in_window
unfoldable pub in_window : Window → Kind → ℤ → ℤ → Bool
in_window w kind ev_minute fire_minute =
    if is_event_pair kind
    then leb_ℤ (pos 0) (ev_minute -ℤ fire_minute)
      && leb_ℤ (ev_minute -ℤ fire_minute) (pos w.pair_window_minutes)
    else leb (abs (circular_diff ev_minute fire_minute)) w.tolerance_minutes

-- The manual events of the entity in the expected state.
abbrev pub is_human : String → String → ShadowEvent → Bool
is_human entity state e = is_state entity (some state) e && is_manual e.triggered_by

-- human_minutes, and adjacent_human_minutes
unfoldable pub human_minutes : Zone → ℕ → String → String → List ShadowEvent → List ℤ
human_minutes tz day entity state events =
    map (relative_minute tz day) (filter (is_human entity state) events)

-- The number of fires with a candidate in their window.
unfoldable pub matches : Window → Kind → List ℤ → List ℤ → ℕ
matches w kind candidates fires =
    length (filter (λ m. any (λ ev_m. in_window w kind ev_m m) candidates) fires)

abbrev pub zero_score : DayScore
zero_score = record { expected_fires = 0; human_matches = 0; human_total = 0 }

abbrev pub add_scores : DayScore → DayScore → DayScore
add_scores a b = record {
  expected_fires = a.expected_fires + b.expected_fires;
  human_matches = a.human_matches + b.human_matches;
  human_total = a.human_total + b.human_total;
}

-- action.service.split(".", 1)[1], then SERVICE_STATE[service_name]
abbrev pub expected_state : String × Option String → Option String
expected_state (domain, none) = none
expected_state (domain, some name) = service_state name

-- The raise of a later action is a raise of the loop.
abbrev pub add_rest : DayScore → Option DayScore → Option DayScore
add_rest first none = none
add_rest first (some rest) = some (add_scores first rest)

module _ (tz : Zone) (w : Window) (kind : Kind) (day : ℕ)
    (day_events adjacent_events : List ShadowEvent) (fires : List ℤ) where
  -- The body of the inner loop.
  unfoldable pub score_entity : String → String → DayScore
  score_entity state entity =
      let own = human_minutes tz day entity state day_events in
      let adjacent = human_minutes tz day entity state adjacent_events in
      record {
        expected_fires = length fires;
        human_matches = matches w kind (own ++ adjacent) fires;
        human_total = length own;
      }

  unfoldable pub score_targets : String → List String → DayScore
  score_targets state [] = zero_score
  score_targets state (e ∷ es) = add_scores (score_entity state e) (score_targets state es)

  -- One action: the KeyError of SERVICE_STATE, or the scores of its targets before the rest's.
  abbrev pub score_action : Option String → List String → Option DayScore → Option DayScore
  score_action none target rest = none
  score_action (some state) target rest = add_rest (score_targets state target) rest

  unfoldable pub score_actions : List ServiceAction → Option DayScore
  score_actions [] = some zero_score
  score_actions (a ∷ actions) =
      score_action (expected_state (split_once "." a.service)) a.target (score_actions actions)

abbrev to_outcome : Option DayScore → Outcome
to_outcome none = raised
to_outcome (some s) = scored s

unfoldable pub score_fires :
    Zone
    → Window
    → Kind
    → ℕ
    → List ShadowEvent
    → List ShadowEvent
    → List ServiceAction
    → Option (List ℤ)
    → Outcome
score_fires tz w kind day day_events adjacent_events actions none = skipped
score_fires tz w kind day day_events adjacent_events actions (some fires) =
    to_outcome (score_actions tz w kind day day_events adjacent_events fires actions)

-- parsed.trigger[0]; `model_validate` leaves exactly one.
unfoldable pub score_automation :
    Zone
    → Option SunMinutes
    → Window
    → Kind
    → ℕ
    → List ShadowEvent
    → List ShadowEvent
    → Automation
    → List Trigger
    → Outcome
unfolding score_fires fire_raises
score_automation tz sun w kind day day_events adjacent_events a [] = raised
score_automation tz sun w kind day day_events adjacent_events a (trig ∷ _) =
    if fire_raises sun day a.condition trig
    then raised
    else score_fires tz w kind day day_events adjacent_events a.action
        (fire_minutes tz sun day day_events a.condition trig)

abbrev score_parsed :
    Zone
    → Option SunMinutes
    → Window
    → Kind
    → ℕ
    → List ShadowEvent
    → List ShadowEvent
    → Option Automation
    → Outcome
score_parsed tz sun w kind day day_events adjacent_events none = skipped
score_parsed tz sun w kind day day_events adjacent_events (some a) =
    score_automation tz sun w kind day day_events adjacent_events a a.trigger

unfoldable pub evaluate_day :
    (Json → Option Automation)
    → Zone
    → Option SunMinutes
    → Window
    → Kind
    → ℕ
    → List ShadowEvent
    → List ShadowEvent
    → Json
    → Outcome
unfolding score_automation
evaluate_day decode tz sun w kind day day_events adjacent_events automation =
    score_parsed tz sun w kind day day_events adjacent_events (model_validate decode automation)
