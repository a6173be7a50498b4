-- ===== src/Tests/Proposing.antt =====
-- The theorems of the proposer, where they are used.
use hass_ai.Prelude.{
  lookup, split_once, ℕ, none, some, [], ◌∷◌, ◌≡◌, refl, All, In, ◌↔◌, length, ◌+◌, ◌≤◌, lookup,
}
use hass_ai.Db.Models.{text}
use hass_ai.Proposer.Gates.{eligible_patterns}
use hass_ai.Proposer.Gates.Eligible.{IsEligible, In-eligible_patterns_iff}
use hass_ai.Proposer.Schema.Automation.{model_validate, services_of}
use hass_ai.Proposer.Schema.Clock.{parse_hms}
use hass_ai.Miner.Stats.{circular_diff, mod_day}
use hass_ai.Proposer.Validate.{
  validate_proposal, allowed_entities, check_entities, check_actions, check_trigger, messages,
}
use hass_ai.Proposer.Validate.Rules.{IsAccepted}
use hass_ai.Proposer.Validate.Accepted.{validate_proposal_iff, validate_proposal-messages}
use hass_ai.Proposer.Service.{
  process_from, process_group, decide, get_field, examine, content_field_errors, Llm,
  process_groups, decide,
}
use hass_ai.Proposer.Service.Groups.{IsFounded, process_groups-IsFounded, process_groups-counters}
use hass_ai.Proposer.Service.Retried.{IsAlike, process_groups-retry_propose}
use hass_ai.Proposer.Group.{entity_ids, sorted_set, insert_text}
use hass_ai.Db.Models.{time_of_day}
use hass_ai.Proposer.Group.{ProposalGroup}
use hass_ai.Proposer.Grouping.{
  Formats, build_groups, tod_groups, by_day_type, put_member, sort_members, insert_member,
  split_clusters, close_tod, digest, joined, entity_actions, insert_pair, by_trigger,
}
use hass_ai.Proposer.Grouping.Partition.{grouped, build_groups-grouped}
use hass_ai.Tests.Samples.{
  lamp_pattern, thresholds, lamp, lamp_group, domains, lamp_automation, decode, dump, answer,
  untitled, declining, sun,
}

In-eligible_patterns_iff_example :
    In lamp_pattern (eligible_patterns thresholds (lamp ∷ []) (lamp_pattern ∷ [])) ↔ (
      In lamp_pattern (lamp_pattern ∷ [])
      × IsEligible thresholds (lamp ∷ []) (lamp_pattern ∷ []) lamp_pattern)
In-eligible_patterns_iff_example =
    In-eligible_patterns_iff thresholds (lamp ∷ []) (lamp_pattern ∷ []) lamp_pattern

validate_proposal_iff_example :
    ((validate_proposal decode lamp_group domains sun 3 (text "lamp")).0 ≡ some lamp_automation) ↔ (
      (model_validate decode (text "lamp") ≡ some lamp_automation)
      × IsAccepted lamp_group domains sun 3 lamp_automation)
validate_proposal_iff_example =
    validate_proposal_iff decode lamp_group domains sun 3 (text "lamp") lamp_automation

validate_proposal-messages_example :
    ((validate_proposal decode lamp_group domains sun 3 (text "lamp")).1 ≡ [])
    ↔ ((a : _) × ((validate_proposal decode lamp_group domains sun 3 (text "lamp")).0 ≡ some a))
validate_proposal-messages_example =
    validate_proposal-messages decode lamp_group domains sun 3 (text "lamp")

-- A model that has one answer.
abbrev ready_llm : Llm ℕ
ready_llm n request = (n + 1, some (record { content = answer; model = "m" }))

-- A model that forgets the title and declines when it is told.
abbrev wavering_llm : Llm ℕ
wavering_llm n request = elim request.feedback [
  | [] ↦ (n + 1, some (record { content = untitled; model = "m" }))
  | _ ∷ _ ↦ (n + 1, some (record { content = declining; model = "m" }))
]

process_groups-IsFounded_example :
    All
      (IsFounded ready_llm decode dump domains sun 3 1000 [] (lamp_group ∷ []))
      (process_groups ready_llm decode dump domains sun 3 1000 [] 0 (lamp_group ∷ [])).inserts
process_groups-IsFounded_example =
    process_groups-IsFounded ready_llm decode dump domains sun 3 1000 [] 0 (lamp_group ∷ [])

process_groups-counters_example :
    let r = process_groups ready_llm decode dump domains sun 3 1000 [] 0 (lamp_group ∷ []) in
    (r.counters.groups_considered ≡ 1)
    × (r.counters.generated + r.counters.declined + r.counters.validation_failed
          + r.counters.skipped_existing
        ≤ r.counters.groups_considered)
    × (length r.inserts ≡ r.counters.generated)
process_groups-counters_example =
    process_groups-counters ready_llm decode dump domains sun 3 1000 [] 0 (lamp_group ∷ [])

-- The same model where it does not decline the retry.
abbrev insisting_llm : Llm ℕ
insisting_llm n request = elim request.feedback [
  | [] ↦ (n + 1, some (record { content = untitled; model = "m" }))
  | _ ∷ _ ↦ (n + 1, some (record { content = answer; model = "m" }))
]

abbrev wavering : IsAlike wavering_llm insisting_llm
unfolding get_field
wavering = record { asked = λ s g. refl; retried = λ s g e es. (refl, (refl, refl, refl, refl)) }

process_groups-retry_propose_example :
    process_groups wavering_llm decode dump domains sun 3 1000 [] 0 (lamp_group ∷ [])
    ≡ process_groups insisting_llm decode dump domains sun 3 1000 [] 0 (lamp_group ∷ [])
process_groups-retry_propose_example =
    process_groups-retry_propose wavering_llm insisting_llm wavering decode dump domains sun 3 1000
      [] 0 (lamp_group ∷ [])

-- The declined automation is stored.
declined_stored :
    length
      (process_groups wavering_llm decode dump domains sun 3 1000 [] 0 (lamp_group ∷ [])).inserts
    ≡ 1
unfolding process_groups process_from process_group decide get_field examine validate_proposal
    content_field_errors model_validate parse_hms allowed_entities entity_ids sorted_set insert_text
    check_entities check_actions check_trigger messages services_of lookup split_once circular_diff
    mod_day
declined_stored = refl

-- A hash that is the text, and a mean that is the first time.
abbrev formats : Formats
formats = record {
  hexdigest = λ t. t;
  two_digits = λ n. "14";
  circular_mean = λ ms. elim ms [ [] ↦ 0 | m ∷ _ ↦ m ];
}

abbrev hall_group : ProposalGroup
hall_group = record {
  kind = time_of_day;
  day_type = some "weekday";
  group_key = "tod:weekday:14:light.hall=on";
  patterns = lamp_pattern ∷ [];
  mean_minutes = 25800;
  trigger_entity_id = none;
  trigger_state = none;
}

build_groups-grouped_example : grouped (λ p. 1) (hall_group ∷ []) ≡ 1
unfolding build_groups tod_groups by_day_type put_member sort_members insert_member split_clusters
    close_tod digest joined entity_actions insert_pair by_trigger
build_groups-grouped_example =
    build_groups-grouped (λ p. 1) formats 1200 (lamp_pattern ∷ []) (hall_group ∷ []) refl
