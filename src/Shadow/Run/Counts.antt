-- ===== src/Shadow/Run/Counts.antt =====
-- How many days and rows the planning and the scoring of src/pae/shadow/service.py come to.
use hass_ai.Prelude.{
  nat_eq_iff, ap, ◌∙◌, ap, ℕ, zero, suc, ◌+◌, ◌-◌, ◌≤◌, ◌<◌, ◌≡◌, refl, Bool, true, false, Option,
  none, some, List, [], ◌∷◌, ◌++◌, arith, sum_by, sum_by-append, any, filter, nat_eq, if◌then◌else◌,
  Bool-cases, inl, inr, max, String,
}
use hass_ai.Db.Models.{Json, Proposal, ShadowResult}
use hass_ai.Miner.Stats.{Zone}
use hass_ai.Proposer.Schema.Automation.{Automation}
use hass_ai.Proposer.Validate.{SunMinutes}
use hass_ai.Shadow.Evaluate.{ShadowEvent, Window, Outcome, scored, skipped, raised}
use hass_ai.Shadow.Run.{
  has_key, missing_days, needed_days, involved_entities, Plan, add_plan, plans, add_row, day_rows,
  plan_rows, join_rows,
}

-- How many rows have the key.
abbrev pub key_count : ℕ → ℕ → List ShadowResult → ℕ
key_count id day rows = sum_by (λ r. if has_key id day r then 1 else 0) rows

abbrev day_count : ℕ → List ℕ → ℕ
day_count day days = sum_by (λ d. if nat_eq d day then 1 else 0) days

abbrev pub id_count : ℕ → List Proposal → ℕ
id_count id ps = sum_by (λ p. if nat_eq p.id id then 1 else 0) ps

abbrev plan_count : ℕ → ℕ → List Plan → ℕ
plan_count id day ps = sum_by (λ p. if nat_eq p.proposal.id id then day_count day p.days else 0) ps

module _ (id : ℕ) (existing : List ShadowResult) (day : ℕ) where
  missing_days-below :
      (start n : ℕ) → day < start → day_count day (missing_days id existing start n) ≡ 0
  unfolding missing_days
  missing_days-below start zero h = omega arith
  missing_days-below start (suc n) h =
      ground (arith, missing_days-below (start + 1) n (omega arith))

  missing_days-once : (start n : ℕ) → day_count day (missing_days id existing start n) ≤ 1
  unfolding missing_days
  missing_days-once start zero = omega arith
  missing_days-once start (suc n) =
      ground (arith, missing_days-once (start + 1) n, missing_days-below (start + 1) n)

  missing_days-known :
      (start n : ℕ)
      → any (has_key id day) existing ≡ true
      → day_count day (missing_days id existing start n) ≡ 0
  unfolding missing_days
  missing_days-known start zero h = omega arith
  missing_days-known start (suc n) h = elim (Bool-cases (nat_eq start day)) [
    | inl same ↦
        let e = (nat_eq_iff start day).0 same in
        ground
          (arith, ap (λ d. any (has_key id d) existing) e ∙ h, missing_days-known (start + 1) n h)
    | inr other ↦ ground (arith, missing_days-known (start + 1) n h)
  ]

pub key_count-absent :
    (id day : ℕ) (rows : List ShadowResult)
    → any (has_key id day) rows ≡ false
    → key_count id day rows ≡ 0
key_count-absent id day [] h = omega arith
key_count-absent id day (r ∷ rows) h = ground (arith, key_count-absent id day rows)

module _ (decode : Json → Option Automation) (tz : Zone) (sun : Option SunMinutes) (w : Window)
    (events : List ShadowEvent) (id day : ℕ) where
  add_row-count :
      (i d : ℕ) (o : Outcome) (r : Option (List ShadowResult)) (rows : List ShadowResult)
      → add_row i d o r ≡ some rows
      → (rest : List ShadowResult) × (r ≡ some rest)
        × (key_count id day rows
            ≤ key_count id day rest + (if nat_eq i id then (if nat_eq d day then 1 else 0) else 0))
  add_row-count i d o none rows h = cc
  add_row-count i d raised (some rest) rows h = cc
  add_row-count i d skipped (some rest) rows h = (rest, refl, ground arith)
  add_row-count i d (scored s) (some rest) rows h = (rest, refl, ground arith)

  day_rows-count :
      (p : Proposal) (ds : List ℕ) (rows : List ShadowResult)
      → day_rows decode tz sun w events p ds ≡ some rows
      → key_count id day rows ≤ (if nat_eq p.id id then day_count day ds else 0)
  unfolding day_rows
  day_rows-count p [] rows h = ground arith
  day_rows-count p (d ∷ ds) rows h =
      let (rest, later, bound) =
        add_row-count p.id d _ (day_rows decode tz sun w events p ds) rows h in
      ground (arith, bound, day_rows-count p ds rest later)

  join_rows-some :
      (r s : Option (List ShadowResult)) (rows : List ShadowResult)
      → join_rows decode tz sun w events r s ≡ some rows
      → (a b : List ShadowResult) × (r ≡ some a) × (s ≡ some b) × (rows ≡ a ++ b)
  join_rows-some none s rows h = cc
  join_rows-some (some a) none rows h = cc
  join_rows-some (some a) (some b) rows h = (a, b, refl, refl, ground arith)

  pub plan_rows-count :
      (ps : List Plan) (rows : List ShadowResult)
      → plan_rows decode tz sun w events ps ≡ some rows
      → key_count id day rows ≤ plan_count id day ps
  unfolding plan_rows
  plan_rows-count [] rows h = ground arith
  plan_rows-count (p ∷ ps) rows h =
      let (a, b, first, later, e) = join_rows-some _ (plan_rows decode tz sun w events ps) rows h in
      omega (
        arith,
        ap (key_count id day) e,
        sum_by-append (λ r. if has_key id day r then 1 else 0) a b,
        day_rows-count p.proposal p.days a first,
        plan_rows-count ps b later,
      )

module _ (decode : Json → Option Automation) (tz : Zone) (lookback today : ℕ)
    (existing : List ShadowResult) (id day : ℕ) where
  add_plan-count :
      (p : Proposal) (ds : List ℕ) (es : Option (List String)) (rest : List Plan)
      → plan_count id day (add_plan p ds es rest)
        ≤ plan_count id day rest + (if nat_eq p.id id then day_count day ds else 0)
  add_plan-count p [] es rest = ground arith
  add_plan-count p (d ∷ ds) none rest = ground arith
  add_plan-count p (d ∷ ds) (some es) rest = ground arith

  needed_days-once : (p : Proposal) → day_count day (needed_days tz lookback today existing p) ≤ 1
  unfolding needed_days
  needed_days-once p =
      let start = max (tz.date p.created_at) (today - lookback) in
      missing_days-once p.id existing day start (today - start)

  needed_days-known :
      (p : Proposal)
      → p.id ≡ id
      → any (has_key id day) existing ≡ true
      → day_count day (needed_days tz lookback today existing p) ≡ 0
  unfolding needed_days
  needed_days-known p e h =
      let start = max (tz.date p.created_at) (today - lookback) in
      missing_days-known p.id existing day start (today - start)
        (ap (λ i. any (has_key i day) existing) e ∙ h)

  pub plans-count :
      (ps : List Proposal)
      → plan_count id day (plans decode tz lookback today existing ps) ≤ id_count id ps
  unfolding plans
  plans-count [] = omega arith
  plans-count (p ∷ ps) =
      let days = needed_days tz lookback today existing p in
      ground (
        arith,
        plans-count ps,
        needed_days-once p,
        add_plan-count p days (involved_entities decode p.automation_json)
            (plans decode tz lookback today existing ps),
      )

  pub plans-known :
      (ps : List Proposal)
      → any (has_key id day) existing ≡ true
      → plan_count id day (plans decode tz lookback today existing ps) ≡ 0
  unfolding plans
  plans-known [] h = omega arith
  plans-known (p ∷ ps) h =
      let days = needed_days tz lookback today existing p in
      let bound =
        add_plan-count p days (involved_entities decode p.automation_json)
          (plans decode tz lookback today existing ps) in
      elim (Bool-cases (nat_eq p.id id)) [
        | inl same ↦
            ground
              (arith, plans-known ps h, needed_days-known p ((nat_eq_iff p.id id).0 same) h, bound)
        | inr other ↦ ground (arith, plans-known ps h, bound, other)
      ]

pub id_count-filter :
    (id : ℕ) (keep : Proposal → Bool) (ps : List Proposal)
    → id_count id (filter keep ps) ≤ id_count id ps
id_count-filter id keep [] = omega arith
id_count-filter id keep (p ∷ ps) = ground (arith, id_count-filter id keep ps)
