-- ===== src/Proposer/Validate/Rules.antt =====
-- What an acceptable automation is, for `validate_proposal` (src/pae/proposer/schema.py), apart from the
-- order of its tests.
use hass_ai.Prelude.{
  ℕ, ◌≤◌, String, ◌≡◌, Bool, true, false, Option, none, some, List, [], ◌∷◌, All, In, Dict, lookup,
  split_once,
}
use hass_ai.Prelude.Int.{ℤ, pos, abs}
use hass_ai.Db.Models.{is_time_of_day}
use hass_ai.Miner.Stats.{circular_diff}
use hass_ai.Proposer.Group.{ProposalGroup}
use hass_ai.Proposer.Schema.Clock.{parse_hms}
use hass_ai.Proposer.Schema.Automation.{
  Trigger, time_trigger, sun_trigger, state_trigger, ServiceAction, Automation, services_of,
}
use hass_ai.Proposer.Validate.{SunMinutes, allowed_entities, referenced, sun_minute, default_grace}

-- Part of the mined group, and in the registry.
abbrev pub IsKnown : List String → Dict String → String → Type 0
IsKnown allowed domains e = In e allowed × ((d : String) × (lookup e domains ≡ some d))

-- An allowed service of its domain, on entities that the registry puts in no other domain.
pub record IsAllowedAction (domains : Dict String) (a : ServiceAction) : Type 0 where
  pub domain : String
  pub name : String
  pub service : split_once "." a.service ≡ (domain, some name)
  pub allowed : In name (services_of domain)
  pub same_domain : All (λ e. (d : String) → lookup e domains ≡ some d → d ≡ domain) a.target

abbrev pub IsNear : ℕ → ℤ → Type 0
IsNear mean t = abs (circular_diff t (pos mean)) ≤ default_grace

-- A time or sun trigger within the grace period of the mined mean.
abbrev pub FitsTod : ProposalGroup → Option SunMinutes → ℕ → Trigger → Type 0
FitsTod g sun today (time_trigger at) =
    (t : ℕ) → parse_hms at ≡ some t → IsNear g.mean_minutes (pos t)
FitsTod g none today (sun_trigger event offset) = ⊥
FitsTod g (some sun) today (sun_trigger event offset) =
    (t : ℤ) → sun_minute event offset (sun today) ≡ some t → IsNear g.mean_minutes t
FitsTod g sun today (state_trigger e to from) = ⊥

-- The mined trigger entity and state.
abbrev pub FitsPair : ProposalGroup → Trigger → Type 0
FitsPair g (state_trigger e to from) = (some e ≡ g.trigger_entity_id) × (some to ≡ g.trigger_state)
FitsPair g (time_trigger _) = ⊥
FitsPair g (sun_trigger _ _) = ⊥

abbrev pub FitsKind : Bool → ProposalGroup → Option SunMinutes → ℕ → Trigger → Type 0
FitsKind true g sun today t = FitsTod g sun today t
FitsKind false g sun today t = FitsPair g t

abbrev pub FitsTrigger : ProposalGroup → Option SunMinutes → ℕ → List Trigger → Type 0
FitsTrigger g sun today [] = Unit
FitsTrigger g sun today (t ∷ _) = FitsKind (is_time_of_day g.kind) g sun today t

pub record IsAccepted (g : ProposalGroup) (domains : Dict String) (sun : Option SunMinutes)
    (today : ℕ) (a : Automation) : Type 0 where
  pub known : All (IsKnown (allowed_entities g) domains) (referenced a)
  pub services : All (IsAllowedAction domains) a.action
  pub trigger : FitsTrigger g sun today a.trigger
