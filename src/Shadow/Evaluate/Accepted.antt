-- ===== src/Shadow/Evaluate/Accepted.antt =====
-- `evaluate_day` (src/pae/shadow/service.py) on an automation that the proposer accepted.
use hass_ai.Prelude.{
  all, false, ℕ, String, ◌≡◌, refl, ◌≢◌, true, Option, none, some, List, [], ◌∷◌, arith, In→elem,
  elem, All, is_some, Option-cases, inl, inr, Dict, split_once,
}
use hass_ai.Prelude.Int.{ℤ}
use hass_ai.Db.Models.{Json, Kind}
use hass_ai.Miner.Stats.{Zone}
use hass_ai.Proposer.Group.{ProposalGroup}
use hass_ai.Proposer.Schema.Automation.{
  trigger_valid, fields_valid, fields_valid-model_validate, model_validate, time_trigger,
  sun_trigger, state_trigger, Condition, trigger-model_validate, Trigger, ServiceAction, Automation,
  services_of, service_state,
}
use hass_ai.Proposer.Validate.{SunMinutes, validate_proposal}
use hass_ai.Proposer.Validate.Rules.{IsAllowedAction}
use hass_ai.Proposer.Validate.Accepted.{validate_proposal_iff}
use hass_ai.Shadow.Evaluate.{
  ShadowEvent, Window, raised, fire_minutes, fire_raises, expected_state, score_actions,
  score_fires, score_automation, evaluate_day,
}

-- Every service of ALLOWED_SERVICES has an entry in SERVICE_STATE.
service_state-services_of :
    (domain name : String)
    → elem name (services_of domain) ≡ true
    → is_some (service_state name) ≡ true
unfolding services_of service_state
service_state-services_of domain name h = ground arith

expected_state-some :
    (domains : Dict String) (a : ServiceAction)
    → IsAllowedAction domains a
    → expected_state (split_once "." a.service) ≢ none
expected_state-some domains a ok h = ground (
  arith,
  ok.service,
  h,
  service_state-services_of ok.domain ok.name,
  In→elem ok.name (services_of ok.domain) ok.allowed,
)

module _ (tz : Zone) (w : Window) (kind : Kind) (day : ℕ) (own adjacent : List ShadowEvent) where
  score_actions-some :
      (domains : Dict String) (fires : List ℤ) (actions : List ServiceAction)
      → All (IsAllowedAction domains) actions
      → score_actions tz w kind day own adjacent fires actions ≢ none
  unfolding score_actions
  score_actions-some domains fires [] ok h = cc
  score_actions-some domains fires (a ∷ actions) ok h =
      elim (Option-cases (expected_state (split_once "." a.service))) [
        | inl bad ↦ expected_state-some domains a ok.0 bad
        | inr (state, good) ↦
            elim (Option-cases (score_actions tz w kind day own adjacent fires actions)) [
              | inl bad ↦ score_actions-some domains fires actions ok.1 bad
              | inr (rest, later) ↦ absurd (ground (arith, good, later))
            ]
      ]

  score_fires-ne_raised :
      (domains : Dict String) (fires : Option (List ℤ)) (actions : List ServiceAction)
      → All (IsAllowedAction domains) actions
      → score_fires tz w kind day own adjacent actions fires ≢ raised
  unfolding score_fires
  score_fires-ne_raised domains none actions ok h = cc
  score_fires-ne_raised domains (some fires) actions ok h =
      ground (arith, score_actions-some domains fires actions ok)

  trigger_valid-fires :
      (sun : Option SunMinutes) (cs : List Condition) (t : Trigger)
      → trigger_valid t ≡ true
      → fire_raises sun day cs t ≡ false
  unfolding fire_raises
  trigger_valid-fires sun cs (time_trigger at) ok = ground (arith, ok)
  trigger_valid-fires none cs (sun_trigger event offset) ok = refl
  trigger_valid-fires (some f) cs (sun_trigger event offset) ok = ground (arith, ok)
  trigger_valid-fires sun cs (state_trigger e to from) ok = refl

  score_automation-ne_raised :
      (domains : Dict String) (sun : Option SunMinutes) (a : Automation) (ts : List Trigger)
      → ts ≢ []
      → all trigger_valid ts ≡ true
      → All (IsAllowedAction domains) a.action
      → score_automation tz sun w kind day own adjacent a ts ≢ raised
  unfolding score_automation
  score_automation-ne_raised domains sun a [] full valid ok h = full refl
  score_automation-ne_raised domains sun a (t ∷ ts) full valid ok h =
      let fires = trigger_valid-fires sun a.condition t (ground (arith, valid)) in
      score_fires-ne_raised domains (fire_minutes tz sun day own a.condition t) a.action ok
        (rw fires at h)

triggers-model_validate :
    (decode : Json → Option Automation) (json : Json) (a : Automation)
    → model_validate decode json ≡ some a
    → all trigger_valid a.trigger ≡ true
unfolding fields_valid
triggers-model_validate decode json a h =
    ground (arith, fields_valid-model_validate decode json a h)

-- What was parsed once parses again from its dump.
model_validate-dump :
    (decode : Json → Option Automation) (json stored : Json) (a : Automation)
    → model_validate decode json ≡ some a
    → decode stored ≡ some a
    → model_validate decode stored ≡ some a
unfolding model_validate
model_validate-dump decode json stored a h again =
    ground (arith, again, fields_valid-model_validate decode json a h)

-- The evaluator raises nothing on the stored dump of an automation that `validate_proposal` accepted, if the
-- dump decodes to the automation again: its time or offset parses, its services have a name behind the dot,
-- and each name has a state, for every kind, day, zone, sun, window and event list.
pub evaluate_day-ne_raised :
    (decode : Json → Option Automation) (dump : Automation → Json) (g : ProposalGroup)
    (domains : Dict String) (sun : Option SunMinutes) (today : ℕ) (json : Json) (a : Automation)
    → (validate_proposal decode g domains sun today json).0 ≡ some a
    → decode (dump a) ≡ some a
    → (tz : Zone) (later_sun : Option SunMinutes) (w : Window) (kind : Kind) (day : ℕ)
      (own adjacent : List ShadowEvent)
    → evaluate_day decode tz later_sun w kind day own adjacent (dump a) ≢ raised
unfolding evaluate_day
evaluate_day-ne_raised decode dump g domains sun today json a accepted again tz later_sun w kind day
      own adjacent h =
    let (parsed, ok) = (validate_proposal_iff decode g domains sun today json a).0 accepted in
    let (t, one) = trigger-model_validate decode json a parsed in
    let stored = model_validate-dump decode json (dump a) a parsed again in
    score_automation-ne_raised tz w kind day own adjacent domains later_sun a a.trigger
      (λ e. ground (arith, one, e)) (triggers-model_validate decode json a parsed) ok.services
      (ground (arith, stored))
