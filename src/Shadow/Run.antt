-- ===== src/Shadow/Run.antt =====
-- `run_shadow_eval` of src/pae/shadow/service.py, the statements on the database as functions on the
-- tables. An exception that leaves the run is `none`: the transaction is rolled back.
pub mod Counts
pub mod Unique
use hass_ai.Prelude.{
  ℕ, zero, suc, ◌+◌, ◌-◌, String, Bool, true, false, ◌&&◌, Option, none, some, List, [], ◌∷◌, ◌++◌,
  filter, any, ltb, leb, nat_eq, elem, if◌then◌else◌, min, max,
}
use hass_ai.Db.Models.{Json, Status, Proposal, ShadowResult}
use hass_ai.Miner.Stats.{day_minutes, Zone, local_minute}
use hass_ai.Proposer.Schema.Automation.{Automation, model_validate}
use hass_ai.Proposer.Validate.{SunMinutes, trigger_entities, action_entities}
use hass_ai.Shadow.Evaluate.{
  DayScore, ShadowEvent, Window, Outcome, scored, skipped, raised, evaluate_day,
}

-- Proposal.status.in_(SHADOW_STATUSES)
abbrev pub in_shadow : Status → Bool
in_shadow Status.shadowing = true
in_shadow Status.approved = true
in_shadow Status.rejected = false
in_shadow Status.stale = false

-- The key of the unique index of `shadow_results`.
abbrev pub has_key : ℕ → ℕ → ShadowResult → Bool
has_key id day r = nat_eq r.proposal_id id && nat_eq r.day day

-- [start + i for i in range(n) if (p.id, start + i) not in existing]
unfoldable pub missing_days : ℕ → List ShadowResult → ℕ → ℕ → List ℕ
missing_days id existing start zero = []
missing_days id existing start (suc n) =
    let rest = missing_days id existing (start + 1) n in
    if any (has_key id start) existing then rest else start ∷ rest

-- From the creation day or the lookback floor, whichever is later, through yesterday.
unfoldable pub needed_days : Zone → ℕ → ℕ → List ShadowResult → Proposal → List ℕ
unfolding missing_days
needed_days tz lookback today existing p =
    let start = max (tz.date p.created_at) (today - lookback) in
    missing_days p.id existing start (today - start)

-- _involved_entities; `none` is the ValidationError.
unfoldable pub involved_entities : (Json → Option Automation) → Json → Option (List String)
involved_entities decode json = elim (model_validate decode json) [
  | none ↦ none
  | some a ↦ some (trigger_entities a.trigger ++ action_entities a.action)
]

pub record Plan : Type 0 where
  pub proposal : Proposal
  pub days : List ℕ
  pub entities : List String

abbrev add_plan : Proposal → List ℕ → Option (List String) → List Plan → List Plan
add_plan p [] entities rest = rest
add_plan p (d ∷ ds) none rest = rest
add_plan p (d ∷ ds) (some es) rest = record { proposal = p; days = d ∷ ds; entities = es } ∷ rest

unfoldable pub plans :
    (Json → Option Automation) → Zone → ℕ → ℕ → List ShadowResult → List Proposal → List Plan
plans decode tz lookback today existing [] = []
plans decode tz lookback today existing (p ∷ ps) =
    add_plan p (needed_days tz lookback today existing p)
      (involved_entities decode p.automation_json) (plans decode tz lookback today existing ps)

abbrev pub min_day : Option ℕ → ℕ → Option ℕ
min_day none d = some d
min_day (some e) d = some (min e d)

abbrev pub earliest : List ℕ → Option ℕ → Option ℕ
earliest [] acc = acc
earliest (d ∷ ds) acc = earliest ds (min_day acc d)

unfoldable pub earliest_day : List Plan → Option ℕ → Option ℕ
earliest_day [] acc = acc
earliest_day (p ∷ ps) acc = earliest_day ps (earliest p.days acc)

unfoldable pub all_entities : List Plan → List String
all_entities [] = []
all_entities (p ∷ ps) = p.entities ++ all_entities ps

-- _event_window: the half-open range of timestamps.
unfoldable pub event_window : Zone → ℕ → ℕ → ℕ → ℕ × ℕ
event_window tz tolerance earliest today =
    (tz.midnight earliest - tolerance, tz.midnight today + tolerance)

unfoldable pub fetch : List String → ℕ × ℕ → List ShadowEvent → List ShadowEvent
fetch entities (start, end) events =
    filter (λ e. elem e.entity_id entities && (leb start e.time && ltb e.time end)) events

-- by_day.get(d, [])
unfoldable pub by_day : Zone → List ShadowEvent → ℕ → List ShadowEvent
by_day tz events d = filter (λ e. nat_eq (tz.date e.time) d) events

-- _adjacent_events
unfoldable pub adjacent_events : Zone → ℕ → List ShadowEvent → ℕ → List ShadowEvent
unfolding by_day
adjacent_events tz tolerance events day =
    filter (λ e. leb (day_minutes - tolerance) (local_minute tz e.time))
      (by_day tz events (day - 1))
    ++ filter (λ e. leb (local_minute tz e.time) tolerance) (by_day tz events (day + 1))

abbrev pub row_of : ℕ → ℕ → DayScore → ShadowResult
row_of id day s = record {
  proposal_id = id;
  day = day;
  expected_fires = s.expected_fires;
  human_matches = s.human_matches;
  human_total = s.human_total;
}

-- One round of the loop over the days, before the rows of the later rounds.
abbrev add_row : ℕ → ℕ → Outcome → Option (List ShadowResult) → Option (List ShadowResult)
add_row id day outcome none = none
add_row id day raised (some rest) = none
add_row id day skipped (some rest) = some rest
add_row id day (scored s) (some rest) = some (row_of id day s ∷ rest)

module _ (decode : Json → Option Automation) (tz : Zone) (sun : Option SunMinutes) (w : Window)
    (events : List ShadowEvent) where
  unfoldable pub day_rows : Proposal → List ℕ → Option (List ShadowResult)
  day_rows p [] = some []
  day_rows p (d ∷ ds) =
      add_row p.id d
        (evaluate_day decode tz sun w p.kind d (by_day tz events d)
          (adjacent_events tz w.tolerance_minutes events d) p.automation_json)
        (day_rows p ds)

  abbrev join_rows :
      Option (List ShadowResult) → Option (List ShadowResult) → Option (List ShadowResult)
  join_rows none s = none
  join_rows (some r) none = none
  join_rows (some r) (some s) = some (r ++ s)

  unfoldable pub plan_rows : List Plan → Option (List ShadowResult)
  plan_rows [] = some []
  plan_rows (p ∷ ps) = join_rows (day_rows p.proposal p.days) (plan_rows ps)

abbrev insert_rows : List ShadowResult → Option (List ShadowResult) → Option (List ShadowResult)
insert_rows existing none = none
insert_rows existing (some rows) = some (existing ++ rows)

-- The part of the run behind the plans. The chunks of INSERT_CHUNK rows make up one insertion: they
-- are of one transaction.
score_plans :
    (Json → Option Automation)
    → Zone
    → Option SunMinutes
    → Window
    → ℕ
    → List Plan
    → List ShadowEvent
    → List ShadowResult
    → Option ℕ
    → List String
    → Option (List ShadowResult)
score_plans decode tz sun w today planned events existing none entities = some existing
score_plans decode tz sun w today planned events existing (some first) [] = some existing
score_plans decode tz sun w today planned events existing (some first) (e ∷ es) =
    insert_rows existing (
      plan_rows decode tz sun w
        (fetch (e ∷ es) (event_window tz w.tolerance_minutes first today) events) planned)

unfoldable pub run_shadow_eval :
    (Json → Option Automation)
    → Zone
    → Option SunMinutes
    → Window
    → ℕ
    → ℕ
    → List Proposal
    → List ShadowEvent
    → List ShadowResult
    → Option (List ShadowResult)
unfolding score_plans
run_shadow_eval decode tz sun w lookback now proposals events existing =
    let today = tz.date now in
    let planned =
      plans decode tz lookback today existing (filter (λ p. in_shadow p.status) proposals) in
    score_plans decode tz sun w today planned events existing (earliest_day planned none)
      (all_entities planned)
