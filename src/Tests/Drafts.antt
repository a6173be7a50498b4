-- ===== src/Tests/Drafts.antt =====
-- The sample draft through `validate_proposal`, and the sample proposal through the shadow evaluator.
use hass_ai.Prelude.{lookup, split_once, ◌≡◌, refl, some, [], ◌∷◌}
use hass_ai.Db.Models.{text, time_of_day}
use hass_ai.Miner.Stats.{minutes_of_day, circular_diff, mod_day}
use hass_ai.Proposer.Group.{entity_ids, sorted_set, insert_text}
use hass_ai.Proposer.Schema.Clock.{parse_hms}
use hass_ai.Proposer.Schema.Automation.{model_validate, services_of}
use hass_ai.Proposer.Validate.{
  validate_proposal, allowed_entities, check_entities, check_actions, check_trigger, messages,
}
use hass_ai.Shadow.Evaluate.{
  evaluate_day, scored, score_fires, score_automation, score_actions, score_targets, score_entity,
  fire_raises, fire_minutes, human_minutes, matches, day_passes_conditions, in_window,
  relative_minute,
}
use hass_ai.Proposer.Schema.Automation.{service_state}
use hass_ai.Shadow.Run.{
  run_shadow_eval, plans, needed_days, missing_days, involved_entities, earliest_day, all_entities,
  event_window, fetch, by_day, adjacent_events, plan_rows, day_rows,
}
use hass_ai.Tests.Samples.{
  utc, window, switched_on, lamp_proposal, scored_day, lamp_group, lamp_automation, domains, decode,
  sun,
}

pub decoded : model_validate decode (text "lamp") ≡ some lamp_automation
unfolding model_validate parse_hms
decoded = refl

pub accepted :
    validate_proposal decode lamp_group domains sun 3 (text "lamp") ≡ (some lamp_automation, [])
unfolding validate_proposal model_validate parse_hms allowed_entities entity_ids sorted_set
    insert_text check_entities check_actions check_trigger messages services_of lookup split_once
    circular_diff mod_day
accepted = refl

pub day_scored :
    evaluate_day decode utc sun window time_of_day 1 (switched_on ∷ []) [] (text "lamp")
    ≡ scored (record { expected_fires = 1; human_matches = 1; human_total = 1 })
unfolding evaluate_day model_validate parse_hms score_fires score_automation score_actions
    score_targets score_entity fire_raises fire_minutes human_minutes matches day_passes_conditions
    in_window service_state split_once lookup minutes_of_day circular_diff mod_day relative_minute
day_scored = refl

-- Two days of the sample proposal, the first without an action.
pub evaluated :
    run_shadow_eval decode utc sun window 30 180000 (lamp_proposal ∷ []) (switched_on ∷ []) []
    ≡ some (
        record { proposal_id = 1; day = 0; expected_fires = 1; human_matches = 0; human_total = 0 }
        ∷ scored_day
        ∷ [])
unfolding run_shadow_eval plans needed_days missing_days involved_entities earliest_day all_entities
    event_window fetch by_day adjacent_events plan_rows day_rows evaluate_day model_validate
    parse_hms score_fires score_automation score_actions score_targets score_entity fire_raises
    fire_minutes human_minutes matches day_passes_conditions in_window service_state split_once
    lookup minutes_of_day circular_diff mod_day relative_minute
evaluated = refl
