-- ===== src/Shadow/Run/Unique.antt =====
-- The unique index of `shadow_results` over `run_shadow_eval` (src/pae/shadow/service.py).
use hass_ai.Prelude.{
  ◌⊎◌, append-nil, ap, ◌∙◌, ap, ℕ, ◌+◌, ◌≤◌, ◌≡◌, refl, Option, none, some, List, [], ◌∷◌, ◌++◌,
  arith, sum_by-append, any, filter, if◌then◌else◌, Bool-cases, inl, inr, String,
}
use hass_ai.Db.Models.{Json, Proposal, ShadowResult}
use hass_ai.Miner.Stats.{Zone}
use hass_ai.Proposer.Schema.Automation.{Automation}
use hass_ai.Proposer.Validate.{SunMinutes}
use hass_ai.Shadow.Evaluate.{ShadowEvent, Window}
use hass_ai.Shadow.Run.{
  all_entities, event_window, earliest_day, fetch, insert_rows, run_shadow_eval, score_plans,
  in_shadow, has_key, Plan, plans, plan_rows,
}
use hass_ai.Shadow.Run.Counts.{
  key_count, id_count, key_count-absent, plan_rows-count, plans-known, plans-count, id_count-filter,
}

module _ (decode : Json → Option Automation) (tz : Zone) (sun : Option SunMinutes) (w : Window)
    (today : ℕ) (planned : List Plan) (events : List ShadowEvent)
    (existing results : List ShadowResult) where
  insert_rows-some :
      (r : Option (List ShadowResult))
      → insert_rows existing r ≡ some results
      → (rows : List ShadowResult) × (r ≡ some rows) × (results ≡ existing ++ rows)
  insert_rows-some none h = cc
  insert_rows-some (some rows) h = (rows, refl, ground arith)

  score_plans-rows :
      (first : Option ℕ) (entities : List String)
      → score_plans decode tz sun w today planned events existing first entities ≡ some results
      → (fetched : List ShadowEvent) × (rows : List ShadowResult) × (results ≡ existing ++ rows)
        × ((rows ≡ []) ⊎ (plan_rows decode tz sun w fetched planned ≡ some rows))
  unfolding score_plans
  score_plans-rows none es h = ([], [], ground (arith, append-nil existing), inl refl)
  score_plans-rows (some first) [] h = ([], [], ground (arith, append-nil existing), inl refl)
  score_plans-rows (some first) (e ∷ es) h =
      let fetched = fetch (e ∷ es) (event_window tz w.tolerance_minutes first today) events in
      let (rows, made, added) = insert_rows-some (plan_rows decode tz sun w fetched planned) h in
      (fetched, rows, added, inr made)

module _ (decode : Json → Option Automation) (tz : Zone) (sun : Option SunMinutes) (w : Window)
    (lookback now : ℕ) (proposals : List Proposal) (events : List ShadowEvent)
    (existing results : List ShadowResult) where
  abbrev planned : List Plan
  planned =
      plans decode tz lookback (tz.date now) existing (filter (λ p. in_shadow p.status) proposals)

  -- A run that ends leaves the table alone or adds the rows of its plans.
  pub run_shadow_eval-rows :
      run_shadow_eval decode tz sun w lookback now proposals events existing ≡ some results
      → (fetched : List ShadowEvent) × (rows : List ShadowResult) × (results ≡ existing ++ rows)
        × ((rows ≡ []) ⊎ (plan_rows decode tz sun w fetched planned ≡ some rows))
  unfolding run_shadow_eval
  run_shadow_eval-rows h =
      score_plans-rows decode tz sun w (tz.date now) planned events existing results
        (earliest_day planned none) (all_entities planned) h

  -- After a run no proposal has two rows for one day, if there were none before and the proposals'
  -- identities are distinct: the insertion never meets the unique index.
  pub run_shadow_eval_unique :
      ((id day : ℕ) → key_count id day existing ≤ 1)
      → ((id : ℕ) → id_count id proposals ≤ 1)
      → run_shadow_eval decode tz sun w lookback now proposals events existing ≡ some results
      → (id day : ℕ) → key_count id day results ≤ 1
  run_shadow_eval_unique once distinct h id day =
      let (fetched, rows, e, source) = run_shadow_eval-rows h in
      let kept = filter (λ p. in_shadow p.status) proposals in
      let total : key_count id day results ≡ key_count id day existing + key_count id day rows =
        ap (key_count id day) e
        ∙ sum_by-append (λ r. if has_key id day r then 1 else 0) existing rows in
      elim source [
        | inl none_new ↦ omega (arith, total, ap (key_count id day) none_new, once id day)
        | inr made ↦
            let bound = plan_rows-count decode tz sun w fetched id day planned rows made in
            elim (Bool-cases (any (has_key id day) existing)) [
              | inl known ↦ omega (
                arith,
                total,
                bound,
                once id day,
                plans-known decode tz lookback (tz.date now) existing id day kept known,
              )
              | inr fresh ↦ omega (
                arith,
                total,
                bound,
                key_count-absent id day existing fresh,
                plans-count decode tz lookback (tz.date now) existing id day kept,
                id_count-filter id (λ p. in_shadow p.status) proposals,
                distinct id,
              )
            ]
      ]
