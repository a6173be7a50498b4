-- ===== src/Proposer/Validate.antt =====
-- `validate_proposal` of src/pae/proposer/schema.py. A message is a constructor with the values that the
-- source formats into it; those of pydantic are one `schema_error`. The sun calculation and today's date
-- are parameters.
pub mod Rules
pub mod Accepted
use hass_ai.Prelude.{
  ℕ, ◌*◌, String, Bool, false, Option, none, some, List, [], ◌∷◌, ◌++◌, ltb, is_some, Dict, elem,
  str_eq, opt_eq, lookup, split_once, if◌then◌else◌, not,
}
use hass_ai.Prelude.Int.{ℤ, pos, abs, ◌+ℤ◌}
use hass_ai.Db.Models.{Json, is_time_of_day}
use hass_ai.Miner.Stats.{minute, circular_diff}
use hass_ai.Proposer.Group.{ProposalGroup, entity_ids}
use hass_ai.Proposer.Schema.Clock.{parse_hms, parse_offset}
use hass_ai.Proposer.Schema.Automation.{
  Trigger, time_trigger, sun_trigger, state_trigger, SunEvent, sunrise, sunset, Condition,
  time_condition, state_condition, sun_condition, ServiceAction, Automation, services_of,
  model_validate,
}

pub data Message : Type 0 where
  schema_error sun_disabled wrong_tod_trigger wrong_pair_trigger trigger_mismatch : Message
  not_in_group not_in_registry malformed_service service_not_allowed : String → Message
  domain_mismatch : (service entity_id : String) → Message
  too_far : (minutes : ℤ) (mean : ℕ) → Message

-- `SunCalculator.sun_minutes`: sunrise and sunset of a date.
abbrev pub SunMinutes : Type 0
SunMinutes = ℕ → Option (ℕ × ℕ)

-- group.entity_ids, and the trigger entity if there is one
unfoldable pub allowed_entities : ProposalGroup → List String
allowed_entities group = elim group.trigger_entity_id [
  | none ↦ entity_ids group
  | some e ↦ if str_eq e "" then entity_ids group else e ∷ entity_ids group
]

abbrev pub trigger_entities : List Trigger → List String
trigger_entities [] = []
trigger_entities (state_trigger e to from ∷ ts) = e ∷ trigger_entities ts
trigger_entities (time_trigger _ ∷ ts) = trigger_entities ts
trigger_entities (sun_trigger _ _ ∷ ts) = trigger_entities ts

abbrev pub condition_entities : List Condition → List String
condition_entities [] = []
condition_entities (state_condition e s ∷ cs) = e ∷ condition_entities cs
condition_entities (time_condition _ _ _ ∷ cs) = condition_entities cs
condition_entities (sun_condition _ _ ∷ cs) = condition_entities cs

abbrev pub action_entities : List ServiceAction → List String
action_entities [] = []
action_entities (a ∷ as_) = a.target ++ action_entities as_

-- `referenced`
abbrev pub referenced : Automation → List String
referenced a =
    trigger_entities a.trigger ++ (condition_entities a.condition ++ action_entities a.action)

unfoldable pub check_entities : List String → Dict String → List String → List Message
check_entities allowed domains [] = []
check_entities allowed domains (e ∷ es) =
    let rest = check_entities allowed domains es in
    if elem e allowed
    then (if is_some (lookup e domains) then rest else not_in_registry e ∷ rest)
    else not_in_group e ∷ rest

-- registry_domains.get(e) not in (None, s_domain)
abbrev other_domain : Option String → String → Bool
other_domain none d = false
other_domain (some d') d = not (str_eq d' d)

check_domains : Dict String → String → String → List String → List Message
check_domains domains service domain [] = []
check_domains domains service domain (e ∷ es) =
    let rest = check_domains domains service domain es in
    if other_domain (lookup e domains) domain then domain_mismatch service e ∷ rest else rest

check_service : Dict String → ServiceAction → String × Option String → List Message
unfolding check_domains
check_service domains a (domain, none) = malformed_service a.service ∷ []
check_service domains a (domain, some name) =
    (if elem name (services_of domain) then [] else service_not_allowed a.service ∷ [])
    ++ check_domains domains a.service domain a.target

unfoldable pub check_actions : Dict String → List ServiceAction → List Message
unfolding check_service
check_actions domains [] = []
check_actions domains (a ∷ as_) =
    check_service domains a (split_once "." a.service) ++ check_actions domains as_

-- The comparison with the mined mean; `minutes` is `None` where the sun does not rise or set.
check_grace : ℕ → ℕ → Option ℤ → List Message
check_grace grace mean none = []
check_grace grace mean (some minutes) =
    if ltb grace (abs (circular_diff minutes (pos mean))) then too_far minutes mean ∷ [] else []

abbrev pub pick : SunEvent → ℕ × ℕ → ℕ
pick sunrise sm = sm.0
pick sunset sm = sm.1

-- The sun's minute of the event plus the offset; behind `model_validate` the offset parses.
unfoldable pub sun_minute : SunEvent → String → Option (ℕ × ℕ) → Option ℤ
sun_minute event offset none = none
sun_minute event offset (some sm) = elim (parse_offset offset) [
  | none ↦ none
  | some o ↦ some (pos (pick event sm) +ℤ o)
]

abbrev opt_pos : Option ℕ → Option ℤ
opt_pos none = none
opt_pos (some t) = some (pos t)

check_tod : ℕ → ProposalGroup → Option SunMinutes → ℕ → Trigger → List Message
unfolding check_grace sun_minute
check_tod grace group sun today (time_trigger at) =
    check_grace grace group.mean_minutes (opt_pos (parse_hms at))
check_tod grace group none today (sun_trigger event offset) = sun_disabled ∷ []
check_tod grace group (some sun) today (sun_trigger event offset) =
    check_grace grace group.mean_minutes (sun_minute event offset (sun today))
check_tod grace group sun today (state_trigger e to from) = wrong_tod_trigger ∷ []

check_pair : ProposalGroup → Trigger → List Message
check_pair group (state_trigger e to from) =
    if opt_eq (some e) group.trigger_entity_id
    then (if opt_eq (some to) group.trigger_state then [] else trigger_mismatch ∷ [])
    else trigger_mismatch ∷ []
check_pair group (time_trigger _) = wrong_pair_trigger ∷ []
check_pair group (sun_trigger _ _) = wrong_pair_trigger ∷ []

-- `trig = parsed.trigger[0]`; `model_validate` leaves exactly one.
unfoldable pub check_trigger :
    ℕ → ProposalGroup → Option SunMinutes → ℕ → List Trigger → List Message
unfolding check_tod check_pair
check_trigger grace group sun today [] = []
check_trigger grace group sun today (trig ∷ _) =
    if is_time_of_day group.kind
    then check_tod grace group sun today trig
    else check_pair group trig

-- grace_minutes
abbrev pub default_grace : ℕ
default_grace = 60 * minute

unfoldable pub messages :
    ProposalGroup → Dict String → Option SunMinutes → ℕ → Automation → List Message
messages group domains sun today a =
    check_entities (allowed_entities group) domains (referenced a)
    ++ (check_actions domains a.action ++ check_trigger default_grace group sun today a.trigger)

abbrev verdict : Automation → List Message → Option Automation × List Message
verdict a [] = (some a, [])
verdict a (m ∷ ms) = (none, m ∷ ms)

judge :
    ProposalGroup
    → Dict String
    → Option SunMinutes
    → ℕ
    → Option Automation
    → Option Automation × List Message
judge group domains sun today none = (none, schema_error ∷ [])
judge group domains sun today (some a) = verdict a (messages group domains sun today a)

unfoldable pub validate_proposal :
    (Json → Option Automation)
    → ProposalGroup
    → Dict String
    → Option SunMinutes
    → ℕ
    → Json
    → Option Automation × List Message
unfolding judge
validate_proposal decode group domains sun today json =
    judge group domains sun today (model_validate decode json)
