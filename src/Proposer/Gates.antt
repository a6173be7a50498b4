-- ===== src/Proposer/Gates.antt =====
-- Which patterns the language model may see (src/pae/proposer/gates.py).
pub mod Eligible
use hass_ai.Prelude.{
  ℕ, String, Bool, true, false, ◌||◌, Option, none, some, List, [], ◌∷◌, ltb, if◌then◌else◌, elem,
}
use hass_ai.Db.Models.{
  Kind, time_of_day, event_pair, other_kind, is_time_of_day, is_rejected, Pattern,
}

-- The keyword arguments of `eligible_patterns`, in the units of the columns they are compared with.
pub record Thresholds : Type 0 where
  pub tod_min_consistency : ℕ
  pub tod_max_std_minutes : ℕ
  pub tod_min_support : ℕ
  pub tod_min_days : ℕ
  pub min_occurrences : ℕ
  pub pair_min_confidence : ℕ
  pub pair_min_lift : ℕ

-- `None in ids` is false: the registry and the flagged set hold texts alone.
abbrev pub opt_elem : Option String → List String → Bool
opt_elem none ids = false
opt_elem (some e) ids = elem e ids

unfoldable pub sched_flagged_entities : List Pattern → List String
sched_flagged_entities [] = []
sched_flagged_entities (p ∷ ps) =
    let rest = sched_flagged_entities ps in
    if is_time_of_day p.kind
    then (if p.suspected_schedule then p.entity_id ∷ rest else rest)
    else rest

-- `v is None or v < low`
abbrev pub missing_or_below : Option ℕ → ℕ → Bool
missing_or_below none low = true
missing_or_below (some v) low = ltb v low

-- `v is None or v > high`
abbrev pub missing_or_above : Option ℕ → ℕ → Bool
missing_or_above none high = true
missing_or_above (some v) high = ltb high v

-- The branch on the kind: true where the loop reaches `out.append`.
passes_kind : Thresholds → List String → List String → Pattern → Kind → Bool
passes_kind t flagged registry_ids p time_of_day =
    if missing_or_below p.temporal_consistency t.tod_min_consistency
    then false
    else if missing_or_above p.tod_std_minutes t.tod_max_std_minutes
    then false
    else if ltb p.support t.tod_min_support || ltb p.days_observed t.tod_min_days
    then false
    else true
passes_kind t flagged registry_ids p event_pair =
    if opt_elem p.trigger_entity_id flagged
    then false
    else if opt_elem p.trigger_entity_id registry_ids
    then (if ltb p.confidence t.pair_min_confidence || ltb p.lift t.pair_min_lift
        then false
        else true)
    else false
passes_kind t flagged registry_ids p (other_kind _) = false

-- The body of the loop, its `continue`s in order.
unfoldable pub passes : Thresholds → List String → List String → Pattern → Bool
unfolding passes_kind
passes t flagged registry_ids p =
    if p.suspected_schedule || is_rejected p.status
    then false
    else if elem p.entity_id flagged
    then false
    else if elem p.entity_id registry_ids
    then (if ltb p.occurrences t.min_occurrences
        then false
        else passes_kind t flagged registry_ids p p.kind)
    else false

keep : Thresholds → List String → List String → List Pattern → List Pattern
keep t flagged registry_ids [] = []
keep t flagged registry_ids (p ∷ ps) =
    let rest = keep t flagged registry_ids ps in
    if passes t flagged registry_ids p then p ∷ rest else rest

unfoldable pub eligible_patterns : Thresholds → List String → List Pattern → List Pattern
unfolding keep
eligible_patterns t registry_ids patterns =
    keep t (sched_flagged_entities patterns) registry_ids patterns
