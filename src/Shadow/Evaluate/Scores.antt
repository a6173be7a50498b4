-- ===== src/Shadow/Evaluate/Scores.antt =====
-- The bounds of the scores of `evaluate_day` (src/pae/shadow/service.py).
use hass_ai.Prelude.{
  inr, All, inl, ℕ, ◌≤◌, String, ◌≡◌, refl, subst, Option, none, some, List, [], ◌∷◌, ◌++◌, arith,
  length, length-filter-le, Option-cases, split_once,
}
use hass_ai.Prelude.Int.{ℤ}
use hass_ai.Db.Models.{Json, Kind}
use hass_ai.Miner.Stats.{Zone}
use hass_ai.Proposer.Schema.Automation.{
  Trigger, time_trigger, sun_trigger, state_trigger, Condition, ServiceAction, Automation,
  model_validate,
}
use hass_ai.Proposer.Validate.{SunMinutes}
use hass_ai.Shadow.Evaluate.{
  DayScore, ShadowEvent, Window, scored, fire_minutes, human_minutes, matches, zero_score,
  add_scores, score_entity, score_targets, score_actions, expected_state, score_automation,
  evaluate_day,
}

-- A property of scores that sums keep and that every entity's score has, every day's score has.
module _ (P : DayScore → Type 0) (P_zero : P zero_score)
    (P_add : (a b : DayScore) → P a → P b → P (add_scores a b)) where
  module _ (tz : Zone) (w : Window) (kind : Kind) (day : ℕ) (own adjacent : List ShadowEvent)
      (fires : List ℤ)
      (P_entity : (state entity : String)
        → P (score_entity tz w kind day own adjacent fires state entity)) where
    score_targets_ind :
        (state : String) (es : List String)
        → P (score_targets tz w kind day own adjacent fires state es)
    unfolding score_targets
    score_targets_ind state [] = P_zero
    score_targets_ind state (e ∷ es) = P_add _ _ (P_entity state e) (score_targets_ind state es)

    score_actions_ind :
        (actions : List ServiceAction) (s : DayScore)
        → score_actions tz w kind day own adjacent fires actions ≡ some s
        → P s
    unfolding score_actions
    score_actions_ind [] s h = subst P (ground arith) P_zero
    score_actions_ind (a ∷ actions) s h =
        elim (Option-cases (expected_state (split_once "." a.service))) [
          | inl bad ↦ absurd (ground (arith, bad))
          | inr (state, good) ↦
              elim (Option-cases (score_actions tz w kind day own adjacent fires actions)) [
                | inl bad ↦ absurd (ground (arith, good, bad))
                | inr (rest, later) ↦ subst P (ground (arith, good, later)) (
                    P_add (score_targets tz w kind day own adjacent fires state a.target) rest
                      (score_targets_ind state a.target) (score_actions_ind actions rest later))
              ]
        ]

record Scored (decode : Json → Option Automation) (tz : Zone) (sun : Option SunMinutes) (w : Window)
    (kind : Kind) (day : ℕ) (own adjacent : List ShadowEvent) (json : Json) (s : DayScore)
    : Type 0 where
  automation : Automation
  parsed : model_validate decode json ≡ some automation
  trigger : Trigger
  others : List Trigger
  triggers : automation.trigger ≡ trigger ∷ others
  fires : List ℤ
  fired : fire_minutes tz sun day own automation.condition trigger ≡ some fires
  summed : score_actions tz w kind day own adjacent fires automation.action ≡ some s

module _ (decode : Json → Option Automation) (tz : Zone) (sun : Option SunMinutes) (w : Window)
    (kind : Kind) (day : ℕ) (own adjacent : List ShadowEvent) (json : Json) (s : DayScore) where
  triggers_scored :
      (a : Automation) (ts : List Trigger)
      → model_validate decode json ≡ some a
      → a.trigger ≡ ts
      → score_automation tz sun w kind day own adjacent a ts ≡ scored s
      → Scored decode tz sun w kind day own adjacent json s
  unfolding score_automation
  triggers_scored a [] p e h = cc
  triggers_scored a (t ∷ ts) p e h =
      elim (Option-cases (fire_minutes tz sun day own a.condition t)) [
        | inl bad ↦ absurd (ground (arith, bad))
        | inr (fires, good) ↦
            elim (Option-cases (score_actions tz w kind day own adjacent fires a.action)) [
              | inl bad ↦ absurd (ground (arith, good, bad))
              | inr (r, summed) ↦ record {
                automation = a;
                parsed = p;
                trigger = t;
                others = ts;
                triggers = e;
                fires = fires;
                fired = good;
                summed = ground (arith, good, summed);
              }
            ]
      ]

  evaluate_day-Scored :
      evaluate_day decode tz sun w kind day own adjacent json ≡ scored s
      → Scored decode tz sun w kind day own adjacent json s
  unfolding evaluate_day
  evaluate_day-Scored h = elim (Option-cases (model_validate decode json)) [
    | inl bad ↦ absurd (ground (arith, bad))
    | inr (a, good) ↦ triggers_scored a a.trigger good refl (ground (arith, good))
  ]

-- A day never has more matches than expected fires: precision stays in [0, 1].
pub evaluate_day-matches_le :
    (decode : Json → Option Automation) (tz : Zone) (sun : Option SunMinutes) (w : Window)
    (kind : Kind) (day : ℕ) (own adjacent : List ShadowEvent) (json : Json) (s : DayScore)
    → evaluate_day decode tz sun w kind day own adjacent json ≡ scored s
    → s.human_matches ≤ s.expected_fires
unfolding matches score_entity
evaluate_day-matches_le decode tz sun w kind day own adjacent json s h =
    let r = evaluate_day-Scored decode tz sun w kind day own adjacent json s h in
    score_actions_ind (λ t. t.human_matches ≤ t.expected_fires) (omega arith)
      (λ a b p q. omega arith) tz w kind day own adjacent r.fires
      (λ state entity. length-filter-le _ r.fires) r.automation.action s r.summed

-- A trigger on the clock or the sun; a state trigger fires as often as its state is entered.
abbrev pub IsOncePerDay : Trigger → Type 0
IsOncePerDay (time_trigger _) = Unit
IsOncePerDay (sun_trigger _ _) = Unit
IsOncePerDay (state_trigger _ _ _) = ⊥

length-fire_minutes_le :
    (tz : Zone) (sun : Option SunMinutes) (day : ℕ) (own : List ShadowEvent) (cs : List Condition)
    (t : Trigger) (fires : List ℤ)
    → IsOncePerDay t
    → fire_minutes tz sun day own cs t ≡ some fires
    → length fires ≤ 1
unfolding fire_minutes
length-fire_minutes_le tz sun day own cs (time_trigger at) fires o h = ground arith
length-fire_minutes_le tz none day own cs (sun_trigger e offset) fires o h = cc
length-fire_minutes_le tz (some f) day own cs (sun_trigger e offset) fires o h = ground arith
length-fire_minutes_le tz sun day own cs (state_trigger e to from) fires o h = absurd o

matches-le_candidates :
    (w : Window) (kind : Kind) (own fires : List ℤ)
    → length fires ≤ 1
    → matches w kind (own ++ []) fires ≤ length own
unfolding matches
matches-le_candidates w kind own [] h = omega arith
matches-le_candidates w kind [] (m ∷ []) h = omega arith
matches-le_candidates w kind [] (m ∷ n ∷ ms) h = absurd (omega arith)
matches-le_candidates w kind (x ∷ own) (m ∷ []) h = ground arith
matches-le_candidates w kind (x ∷ own) (m ∷ n ∷ ms) h = absurd (omega arith)

length-human_minutes :
    (tz : Zone) (day : ℕ) (entity state : String) → human_minutes tz day entity state [] ≡ []
unfolding human_minutes
length-human_minutes tz day entity state = refl

-- With a trigger on the clock or the sun, and no events of the adjacent days, a day never has more
-- matches than manual actions: coverage stays in [0, 1] there.
pub evaluate_day-coverage :
    (decode : Json → Option Automation) (tz : Zone) (sun : Option SunMinutes) (w : Window)
    (kind : Kind) (day : ℕ) (own : List ShadowEvent) (json : Json) (a : Automation) (s : DayScore)
    → model_validate decode json ≡ some a
    → All IsOncePerDay a.trigger
    → evaluate_day decode tz sun w kind day own [] json ≡ scored s
    → s.human_matches ≤ s.human_total
unfolding score_entity
evaluate_day-coverage decode tz sun w kind day own json a s p once h =
    let r = evaluate_day-Scored decode tz sun w kind day own [] json s h in
    let same : a ≡ r.automation = ground (arith, p, r.parsed) in
    let first : IsOncePerDay r.trigger =
      (subst (All IsOncePerDay) r.triggers
        (subst (λ (b : Automation). All IsOncePerDay b.trigger) same once)).0 in
    let few =
      length-fire_minutes_le tz sun day own r.automation.condition r.trigger r.fires first
        r.fired in
    score_actions_ind (λ t. t.human_matches ≤ t.human_total) (omega arith) (λ a b p q. omega arith)
      tz w kind day own [] r.fires
      (λ state entity.
        rw (length-human_minutes tz day entity state)
          (matches-le_candidates w kind (human_minutes tz day entity state own) r.fires few))
      r.automation.action s r.summed
