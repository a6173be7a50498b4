-- ===== src/Proposer/Schema/Automation.antt =====
-- The pydantic models of src/pae/proposer/schema.py. What pydantic itself does (the shape of the JSON,
-- `extra="forbid"`, the tagged unions and literals, `_listify`) is the parameter `decode`; the field
-- validators and the length bounds are here.
use hass_ai.Prelude.{
  refl, arith, ◌≡◌, arith, ◌≡◌, ℕ, String, Bool, true, false, ◌&&◌, Option, none, some, List, [],
  ◌∷◌, all, is_some, Dict, lookup, is_empty, if◌then◌else◌,
}
use hass_ai.Db.Models.{Json}
use hass_ai.Proposer.Schema.Clock.{parse_hms, parse_offset}

pub data SunEvent : Type 0 where
  sunrise sunset : SunEvent

pub data Trigger : Type 0 where
  time_trigger : (at : String) → Trigger
  sun_trigger : (event : SunEvent) (offset : String) → Trigger
  state_trigger : (entity_id to : String) (from : Option String) → Trigger

-- The days of WEEKDAYS are counted from Monday, 0.
pub data Condition : Type 0 where
  time_condition : (weekday : Option (List ℕ)) (after before : Option String) → Condition
  state_condition : (entity_id state : String) → Condition
  sun_condition : (after before : Option SunEvent) → Condition

pub record ServiceAction : Type 0 where
  pub service : String
  pub target : List String

pub record Automation : Type 0 where
  pub trigger : List Trigger
  pub condition : List Condition
  pub action : List ServiceAction

-- ALLOWED_SERVICES
abbrev pub allowed_services : Dict (List String)
allowed_services =
    ("light", "turn_on" ∷ "turn_off" ∷ [])
    ∷ ("switch", "turn_on" ∷ "turn_off" ∷ [])
    ∷ ("fan", "turn_on" ∷ "turn_off" ∷ [])
    ∷ ("media_player", "turn_on" ∷ "turn_off" ∷ [])
    ∷ ("lock", "lock" ∷ "unlock" ∷ [])
    ∷ ("cover", "open_cover" ∷ "close_cover" ∷ [])
    ∷ []

-- SERVICE_STATE
abbrev pub service_states : Dict String
service_states =
    ("turn_on", "on")
    ∷ ("turn_off", "off")
    ∷ ("lock", "locked")
    ∷ ("unlock", "unlocked")
    ∷ ("open_cover", "open")
    ∷ ("close_cover", "closed")
    ∷ []

-- ALLOWED_SERVICES.get(domain, set())
unfoldable pub services_of : String → List String
unfolding lookup
services_of domain = elim (lookup domain allowed_services) [ none ↦ [] | some s ↦ s ]

-- SERVICE_STATE[name]; `none` is the KeyError
unfoldable pub service_state : String → Option String
unfolding lookup
service_state name = lookup name service_states

-- `_at_is_time` and `_offset_ok`
abbrev pub trigger_valid : Trigger → Bool
trigger_valid (time_trigger at) = is_some (parse_hms at)
trigger_valid (sun_trigger event offset) = is_some (parse_offset offset)
trigger_valid (state_trigger entity_id to from) = true

abbrev absent_or_time : Option String → Bool
absent_or_time none = true
absent_or_time (some v) = is_some (parse_hms v)

-- `_after_before_are_times`
abbrev condition_valid : Condition → Bool
condition_valid (time_condition weekday after before) =
    absent_or_time after && absent_or_time before
condition_valid (state_condition entity_id state) = true
condition_valid (sun_condition after before) = true

abbrev exactly_one : List Trigger → Bool
exactly_one (t ∷ []) = true
exactly_one _ = false

abbrev not_empty : List ServiceAction → Bool
not_empty [] = false
not_empty (a ∷ as_) = true

abbrev pub has_target : ServiceAction → Bool
has_target a = if is_empty a.target then false else true

unfoldable pub fields_valid : Automation → Bool
fields_valid a =
    exactly_one a.trigger
    && all trigger_valid a.trigger
    && all condition_valid a.condition
    && not_empty a.action
    && all has_target a.action

-- Automation.model_validate; `none` is the ValidationError.
unfoldable pub model_validate : (Json → Option Automation) → Json → Option Automation
unfolding fields_valid
model_validate decode json = elim (decode json) [
  | none ↦ none
  | some a ↦ if fields_valid a then some a else none
]

pub fields_valid-model_validate :
    (decode : Json → Option Automation) (json : Json) (a : Automation)
    → model_validate decode json ≡ some a
    → fields_valid a ≡ true
unfolding model_validate
fields_valid-model_validate decode json a h = ground arith

exactly_one-cons : (ts : List Trigger) → exactly_one ts ≡ true → (t : Trigger) × (ts ≡ t ∷ [])
exactly_one-cons [] h = cc
exactly_one-cons (t ∷ []) h = (t, refl)
exactly_one-cons (t ∷ u ∷ ts) h = cc

-- What parses has one trigger.
pub trigger-model_validate :
    (decode : Json → Option Automation) (json : Json) (a : Automation)
    → model_validate decode json ≡ some a
    → (t : Trigger) × (a.trigger ≡ t ∷ [])
unfolding fields_valid
trigger-model_validate decode json a h =
    exactly_one-cons a.trigger (ground (arith, fields_valid-model_validate decode json a h))
