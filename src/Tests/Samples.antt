-- ===== src/Tests/Samples.antt =====
-- A house with a lamp, and what the jobs read of it.
use hass_ai.Prelude.{String, true, false, Option, none, some, [], ◌∷◌, Dict, ◌+◌, ◌*◌, ◌/◌, ◌%◌}
use hass_ai.Db.Models.{
  Json, boolean, text, Fields, done, field, time_of_day, Pattern, candidate, proposed, Proposal,
  shadowing, ShadowResult, Database, manual,
}
use hass_ai.Miner.Types.{PatternCandidate}
use hass_ai.Miner.Stats.{Zone}
use hass_ai.Proposer.Gates.{Thresholds}
use hass_ai.Proposer.Group.{ProposalGroup}
use hass_ai.Proposer.Schema.Automation.{Automation, time_trigger}
use hass_ai.Proposer.Validate.{SunMinutes}
use hass_ai.Shadow.Evaluate.{ShadowEvent, Window}

abbrev pub lamp : String
lamp = "light.hall"

abbrev pub lamp_pattern : Pattern
lamp_pattern = record {
  pattern_key = "tod:light.hall:on:weekday:14";
  kind = time_of_day;
  entity_id = lamp;
  action = "on";
  day_type = some "weekday";
  trigger_entity_id = none;
  trigger_state = none;
  tod_minutes = some 25800;
  tod_std_minutes = some 300;
  support = 9000;
  confidence = 9000;
  lift = 1500;
  temporal_consistency = some 9500;
  occurrences = 20;
  days_observed = 25;
  suspected_schedule = false;
  status = candidate;
  evidence = record {
    schedule_anchor = none;
    sun_offset = none;
    sample_times = [];
    n_a = none;
    n_b = none;
  };
  first_seen = 100;
  last_seen = 200;
  mined_at = 300;
}

abbrev pub lamp_candidate : PatternCandidate
lamp_candidate = record {
  kind = time_of_day;
  pattern_key = "tod:light.hall:on:weekday:14";
  entity_id = lamp;
  action = "on";
  day_type = some "weekday";
  trigger_entity_id = none;
  trigger_state = none;
  tod_minutes = some 25800;
  tod_std_minutes = some 300;
  support = 9000;
  confidence = 9000;
  lift = 1500;
  temporal_consistency = some 9500;
  occurrences = 20;
  days_observed = 25;
  suspected_schedule = false;
  evidence = record {
    schedule_anchor = none;
    sun_offset = none;
    sample_times = [];
    n_a = none;
    n_b = none;
  };
  first_seen = 100;
  last_seen = 200;
}

abbrev pub thresholds : Thresholds
thresholds = record {
  tod_min_consistency = 8000;
  tod_max_std_minutes = 1200;
  tod_min_support = 6000;
  tod_min_days = 10;
  min_occurrences = 6;
  pair_min_confidence = 7000;
  pair_min_lift = 200;
}

abbrev pub lamp_group : ProposalGroup
lamp_group = record {
  kind = time_of_day;
  day_type = some "weekday";
  group_key = "tod:weekday:14:a";
  patterns = lamp_pattern ∷ [];
  mean_minutes = 25800;
  trigger_entity_id = none;
  trigger_state = none;
}

abbrev pub domains : Dict String
domains = (lamp, "light") ∷ []

abbrev pub lamp_automation : Automation
lamp_automation = record {
  trigger = time_trigger "07:10:00" ∷ [];
  condition = [];
  action = record { service = "light.turn_on"; target = lamp ∷ [] } ∷ [];
}

-- A decoder that takes the draft "lamp".
abbrev pub decode : Json → Option Automation
decode (text _) = some lamp_automation
decode _ = none

abbrev pub dump : Automation → Json
dump a = text "lamp"

abbrev pub answer : Fields
answer = field "propose" (boolean true) (
    field "title" (text "Hall light")
      (field "rationale" (text "On at 07:10") (field "automation" (text "lamp") done)))

-- The same without a title.
abbrev pub untitled : Fields
untitled =
    field "propose" (boolean true)
      (field "rationale" (text "On") (field "automation" (text "lamp") done))

-- A second answer that declines and has a valid automation.
abbrev pub declining : Fields
declining = field "propose" (boolean false) (
    field "title" (text "Hall light")
      (field "rationale" (text "On at 07:10") (field "automation" (text "lamp") done)))

abbrev pub sun : Option SunMinutes
sun = none

-- UTC; days are counted by their number.
abbrev pub utc : Zone
utc = record {
  date = λ t. t / 86400;
  clock = λ t. record { hour = t % 86400 / 3600; minutes = t % 3600 / 60; seconds = t % 60 };
  midnight = λ d. d * 86400;
}

abbrev pub window : Window
window = record { tolerance_minutes = 2700; pair_window_minutes = 900 }

-- Someone switches the lamp on at 07:15 of the second day.
abbrev pub switched_on : ShadowEvent
switched_on = record {
  time = 86400 + 26100;
  entity_id = lamp;
  new_state = some "on";
  triggered_by = manual;
}

abbrev pub lamp_proposal : Proposal
lamp_proposal = record {
  id = 1;
  group_key = "tod:weekday:14:a";
  kind = time_of_day;
  title = "Hall light";
  rationale = "On at 07:10";
  automation_json = text "lamp";
  source_pattern_keys = "tod:light.hall:on:weekday:14" ∷ [];
  entity_ids = lamp ∷ [];
  model_name = "m";
  prompt_version = 1;
  status = shadowing;
  reject_reason = none;
  last_eligible_at = 50;
  created_at = 10;
  updated_at = 10;
}

abbrev pub database : Database
database = record {
  patterns = record lamp_pattern { status = proposed } ∷ [];
  proposals = lamp_proposal ∷ [];
  shadow_results = [];
  next_id = 2;
}

-- A day on which the lamp was expected and switched on.
abbrev pub scored_day : ShadowResult
scored_day = record {
  proposal_id = 1;
  day = 1;
  expected_fires = 1;
  human_matches = 1;
  human_total = 1;
}
