-- ===== src/Tests/Shadowing.antt =====
-- The theorems of the shadow evaluator, where they are used.
use hass_ai.Prelude.{refl, ◌+◌, ◌*◌, ◌≤◌, true, List, [], ◌∷◌, ◌≡◌, ◌≢◌, arith, ◌↔◌}
use hass_ai.Prelude.Int.{pos}
use hass_ai.Db.Models.{text, time_of_day, event_pair}
use hass_ai.Miner.Stats.{day_minutes}
use hass_ai.Shadow.Evaluate.{evaluate_day, raised, in_window, relative_minute}
use hass_ai.Shadow.Evaluate.Scores.{evaluate_day-coverage}
use hass_ai.Shadow.Evaluate.Accepted.{evaluate_day-ne_raised}
use hass_ai.Shadow.Evaluate.Adjacent.{ExtendsOutcome, evaluate_day-adjacent, in_window-pair, axis}
use hass_ai.Shadow.Run.Counts.{key_count}
use hass_ai.Shadow.Run.Unique.{run_shadow_eval_unique}
use hass_ai.Prelude.{ap, Option}
use hass_ai.Proposer.Schema.Automation.{Automation}
use hass_ai.Proposer.Validate.{Message}
use hass_ai.Tests.Drafts.{accepted, decoded, day_scored, evaluated}
use hass_ai.Tests.Samples.{
  lamp_group, lamp_automation, domains, decode, dump, sun, utc, window, switched_on, lamp_proposal,
  scored_day,
}

evaluate_day-ne_raised_example :
    evaluate_day decode utc sun window time_of_day 1 (switched_on ∷ []) [] (dump lamp_automation)
    ≢ raised
evaluate_day-ne_raised_example =
    evaluate_day-ne_raised decode dump lamp_group domains sun 3 (text "lamp") lamp_automation
      (ap (λ (r : Option Automation × List Message). r.0) accepted) refl utc sun window time_of_day
      1 (switched_on ∷ []) []

evaluate_day-coverage_example : 1 ≤ 1
evaluate_day-coverage_example =
    evaluate_day-coverage decode utc sun window time_of_day 1 (switched_on ∷ []) (text "lamp")
      lamp_automation (record { expected_fires = 1; human_matches = 1; human_total = 1 }) decoded
      (tt, tt) day_scored

evaluate_day-adjacent_example :
    ExtendsOutcome
      (evaluate_day decode utc sun window time_of_day 1 [] [] (text "lamp"))
      (evaluate_day decode utc sun window time_of_day 1 [] (switched_on ∷ []) (text "lamp"))
evaluate_day-adjacent_example =
    evaluate_day-adjacent decode utc sun window time_of_day 1 [] (switched_on ∷ []) (text "lamp")

in_window-pair_example :
    (in_window window event_pair (relative_minute utc 1 switched_on) (pos 26000) ≡ true) ↔ (
      (1 * day_minutes + 26000 ≤ axis utc switched_on)
      × (axis utc switched_on ≤ 1 * day_minutes + 26000 + 900))
in_window-pair_example = in_window-pair window utc 1 switched_on 26000 (omega arith) (omega arith)

run_shadow_eval_unique_example :
    key_count 1 1 (
      record { proposal_id = 1; day = 0; expected_fires = 1; human_matches = 0; human_total = 0 }
      ∷ scored_day
      ∷ [])
    ≤ 1
run_shadow_eval_unique_example =
    run_shadow_eval_unique decode utc sun window 30 180000 (lamp_proposal ∷ []) (switched_on ∷ [])
      []
      (record { proposal_id = 1; day = 0; expected_fires = 1; human_matches = 0; human_total = 0 }
        ∷ scored_day
        ∷ [])
      (λ id day. omega arith) (λ id. ground arith) evaluated 1 1
