-- ===== src/Shadow/Evaluate/Adjacent.antt =====
-- The events of the adjacent days in `evaluate_day` (src/pae/shadow/service.py), and their axis.
use hass_ai.Prelude.{
  Bool-cases, inl, inr, ◌↔◌, ◌*◌, ℕ, ◌+◌, ◌≤◌, String, ◌≡◌, refl, true, Option, none, some, List,
  [], ◌∷◌, ◌++◌, arith, any-append, split_once,
}
use hass_ai.Prelude.Int.{ℤ, pos, ◌-ℤ◌}
use hass_ai.Db.Models.{Json, Kind, event_pair}
use hass_ai.Miner.Stats.{day_minutes, Zone, local_minute}
use hass_ai.Proposer.Schema.Automation.{Trigger, ServiceAction, Automation, model_validate}
use hass_ai.Proposer.Validate.{SunMinutes}
use hass_ai.Shadow.Evaluate.{
  score_action, score_parsed, to_outcome, add_rest, DayScore, ShadowEvent, Window, Outcome, scored,
  skipped, raised, fire_raises, fire_minutes, in_window, human_minutes, matches, relative_minute,
  score_entity, score_targets, score_actions, expected_state, score_fires, score_automation,
  evaluate_day,
}

-- The second score counts the same fires and the same manual actions, and no fewer matches.
abbrev pub Extends : DayScore → DayScore → Type 0
Extends a b =
    (a.expected_fires ≡ b.expected_fires)
    × (a.human_total ≡ b.human_total)
    × (a.human_matches ≤ b.human_matches)

-- Where one evaluation gives a score, the other gives one that extends it.
abbrev ExtendsOption : Option DayScore → Option DayScore → Type 0
ExtendsOption none none = Unit
ExtendsOption (some a) (some b) = Extends a b
ExtendsOption _ _ = ⊥

abbrev pub ExtendsOutcome : Outcome → Outcome → Type 0
ExtendsOutcome (scored a) (scored b) = Extends a b
ExtendsOutcome skipped skipped = Unit
ExtendsOutcome raised raised = Unit
ExtendsOutcome _ _ = ⊥

matches-append_le :
    (w : Window) (kind : Kind) (own adjacent fires : List ℤ)
    → matches w kind (own ++ []) fires ≤ matches w kind (own ++ adjacent) fires
unfolding matches
matches-append_le w kind own adjacent [] = omega arith
matches-append_le w kind own adjacent (m ∷ ms) = ground (
  arith,
  matches-append_le w kind own adjacent ms,
  any-append (λ ev_m. in_window w kind ev_m m) own [],
  any-append (λ ev_m. in_window w kind ev_m m) own adjacent,
)

add_rest-Extends :
    (a b : DayScore) (r s : Option DayScore)
    → Extends a b
    → ExtendsOption r s
    → ExtendsOption (add_rest a r) (add_rest b s)
add_rest-Extends a b none none p q = tt
add_rest-Extends a b (some r) (some s) p q = omega arith
add_rest-Extends a b none (some s) p q = absurd q
add_rest-Extends a b (some r) none p q = absurd q

to_outcome-Extends :
    (a b : Option DayScore) → ExtendsOption a b → ExtendsOutcome (to_outcome a) (to_outcome b)
to_outcome-Extends none none h = tt
to_outcome-Extends (some a) (some b) h = h
to_outcome-Extends none (some b) h = absurd h
to_outcome-Extends (some a) none h = absurd h

ExtendsOutcome-refl : (r : Outcome) → ExtendsOutcome r r
ExtendsOutcome-refl (scored s) = (refl, refl, omega arith)
ExtendsOutcome-refl skipped = tt
ExtendsOutcome-refl raised = tt

module _ (tz : Zone) (w : Window) (kind : Kind) (day : ℕ) (own adjacent : List ShadowEvent) where
  module _ (fires : List ℤ) where
    score_entity-Extends :
        (state entity : String)
        → Extends
            (score_entity tz w kind day own [] fires state entity)
            (score_entity tz w kind day own adjacent fires state entity)
    unfolding score_entity human_minutes
    score_entity-Extends state entity = (
      refl,
      refl,
      matches-append_le w kind (human_minutes tz day entity state own)
          (human_minutes tz day entity state adjacent) fires,
    )

    score_targets-Extends :
        (state : String) (es : List String)
        → Extends
            (score_targets tz w kind day own [] fires state es)
            (score_targets tz w kind day own adjacent fires state es)
    unfolding score_targets
    score_targets-Extends state [] = omega arith
    score_targets-Extends state (e ∷ es) =
        omega (arith, score_entity-Extends state e, score_targets-Extends state es)

    score_action-Extends :
        (o : Option String) (target : List String) (r s : Option DayScore)
        → ExtendsOption r s
        → ExtendsOption
            (score_action tz w kind day own [] fires o target r)
            (score_action tz w kind day own adjacent fires o target s)
    score_action-Extends none target r s h = tt
    score_action-Extends (some state) target r s h =
        add_rest-Extends _ _ r s (score_targets-Extends state target) h

    score_actions-Extends :
        (actions : List ServiceAction)
        → ExtendsOption
            (score_actions tz w kind day own [] fires actions)
            (score_actions tz w kind day own adjacent fires actions)
    unfolding score_actions
    score_actions-Extends [] = omega arith
    score_actions-Extends (a ∷ actions) =
        score_action-Extends (expected_state (split_once "." a.service)) a.target _ _
          (score_actions-Extends actions)

  score_fires-Extends :
      (fires : Option (List ℤ)) (actions : List ServiceAction)
      → ExtendsOutcome
          (score_fires tz w kind day own [] actions fires)
          (score_fires tz w kind day own adjacent actions fires)
  unfolding score_fires
  score_fires-Extends none actions = tt
  score_fires-Extends (some fires) actions =
      to_outcome-Extends _ _ (score_actions-Extends fires actions)

  score_automation-Extends :
      (sun : Option SunMinutes) (a : Automation) (ts : List Trigger)
      → ExtendsOutcome
          (score_automation tz sun w kind day own [] a ts)
          (score_automation tz sun w kind day own adjacent a ts)
  unfolding score_automation
  score_automation-Extends sun a [] = tt
  score_automation-Extends sun a (t ∷ ts) = elim (Bool-cases (fire_raises sun day a.condition t)) [
    | inl raises ↦ rw raises tt
    | inr fires ↦
        rw fires (score_fires-Extends (fire_minutes tz sun day own a.condition t) a.action)
  ]

  score_parsed-Extends :
      (sun : Option SunMinutes) (o : Option Automation)
      → ExtendsOutcome
          (score_parsed tz sun w kind day own [] o)
          (score_parsed tz sun w kind day own adjacent o)
  score_parsed-Extends sun none = tt
  score_parsed-Extends sun (some a) = score_automation-Extends sun a a.trigger

-- The events of the adjacent days take part in the matching only: with them a day is evaluated or not
-- as without them, its expected fires and its manual actions are the same, and no match is lost.
pub evaluate_day-adjacent :
    (decode : Json → Option Automation) (tz : Zone) (sun : Option SunMinutes) (w : Window)
    (kind : Kind) (day : ℕ) (own adjacent : List ShadowEvent) (json : Json)
    → ExtendsOutcome
        (evaluate_day decode tz sun w kind day own [] json)
        (evaluate_day decode tz sun w kind day own adjacent json)
unfolding evaluate_day
evaluate_day-adjacent decode tz sun w kind day own adjacent json =
    score_parsed-Extends tz w kind day own adjacent sun (model_validate decode json)

-- The local date and the wall-clock minute of an event on one axis, on which a day has 1440 minutes.
abbrev pub axis : Zone → ShadowEvent → ℕ
axis tz ev = tz.date ev.time * day_minutes + local_minute tz ev.time

-- For a pair and an event of the day or of the day before or after it: the event is in the window of a fire
-- exactly if by local date and wall clock it stands no earlier than the fire and at most the window later,
-- midnight or not. A change of the clock between the two is not compensated.
pub in_window-pair :
    (w : Window) (tz : Zone) (day : ℕ) (ev : ShadowEvent) (m : ℕ)
    → tz.date ev.time ≤ day + 1
    → day ≤ tz.date ev.time + 1
    → (in_window w event_pair (relative_minute tz day ev) (pos m) ≡ true) ↔ (
        (day * day_minutes + m ≤ axis tz ev)
        × (axis tz ev ≤ day * day_minutes + m + w.pair_window_minutes))
unfolding in_window relative_minute ◌-ℤ◌
in_window-pair w tz day ev m after before =
    (λ h. (ground arith, ground arith), λ (a, b). ground arith)
