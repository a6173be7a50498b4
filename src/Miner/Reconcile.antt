-- ===== src/Miner/Reconcile.antt =====
-- `reconcile_keys` of src/pae/miner/service.py: a time-of-day candidate adopts the key of the pattern that
-- was mined before for the same habit.
pub mod Adopted
use hass_ai.Prelude.{
  ℕ, String, Bool, true, false, ◌&&◌, Option, none, some, List, [], ◌∷◌, leb, str_eq, opt_eq, elem,
  if◌then◌else◌,
}
use hass_ai.Prelude.Int.{pos, abs}
use hass_ai.Db.Models.{is_time_of_day}
use hass_ai.Miner.Stats.{circular_diff}
use hass_ai.Miner.Types.{PatternCandidate}

-- A row of `existing`.
pub record ExistingKey : Type 0 where
  pub pattern_key : String
  pub entity_id : String
  pub action : String
  pub day_type : Option String
  pub tod_minutes : Option ℕ

-- The tuple that `index` is keyed by.
abbrev pub is_same_habit : PatternCandidate → ExistingKey → Bool
is_same_habit c row =
    str_eq row.entity_id c.entity_id
    && (str_eq row.action c.action && opt_eq row.day_type c.day_type)

-- abs(circular_diff(c.tod_minutes, minutes))
abbrev pub distance : ℕ → ℕ → ℕ
distance minutes mined = abs (circular_diff (pos minutes) (pos mined))

-- `best_key` and `best_dist`.
pub record Best : Type 0 where
  pub key : Option String
  pub dist : ℕ

-- The body of the inner loop; a row without minutes is not in the index.
abbrev pub consider : PatternCandidate → ℕ → ExistingKey → Option ℕ → Best → Best
consider c minutes row none best = best
consider c minutes row (some mined) best =
    if is_same_habit c row && leb (distance minutes mined) best.dist
    then record { key = some row.pattern_key; dist = distance minutes mined }
    else best

unfoldable pub best_match : PatternCandidate → ℕ → List ExistingKey → Best → Best
unfolding circular_diff
best_match c minutes [] best = best
best_match c minutes (row ∷ rows) best =
    best_match c minutes rows (consider c minutes row row.tod_minutes best)

-- A tuple of `scored` without its index: a stable sort keeps the order of the list.  An infinite distance
-- is none.
pub record Scored : Type 0 where
  pub dist : Option ℕ
  pub candidate : PatternCandidate
  pub key : Option String

-- best_dist if best_key else inf
abbrev distance_of : Best → Option ℕ
distance_of best = elim best.key [
  | none ↦ none
  | some k ↦ if str_eq k "" then none else some best.dist
]

abbrev scored_as : PatternCandidate → Best → Scored
scored_as c best = record { dist = distance_of best; candidate = c; key = best.key }

abbrev score_minutes : ℕ → List ExistingKey → PatternCandidate → Option ℕ → Scored
score_minutes tolerance existing c none = scored_as c (record { key = none; dist = tolerance })
score_minutes tolerance existing c (some minutes) =
    if is_time_of_day c.kind
    then scored_as c (best_match c minutes existing (record { key = none; dist = tolerance }))
    else scored_as c (record { key = none; dist = tolerance })

unfoldable pub score : ℕ → List ExistingKey → PatternCandidate → Scored
unfolding best_match
score tolerance existing c = score_minutes tolerance existing c c.tod_minutes

abbrev no_farther : Option ℕ → Option ℕ → Bool
no_farther none none = true
no_farther none (some e) = false
no_farther (some d) none = true
no_farther (some d) (some e) = leb d e

unfoldable pub insert_scored : Scored → List Scored → List Scored
insert_scored s [] = s ∷ []
insert_scored s (t ∷ ts) =
    let rest = insert_scored s ts in if no_farther s.dist t.dist then s ∷ t ∷ ts else t ∷ rest

-- sorted(scored), the nearest first
unfoldable pub sort_scored : ℕ → List ExistingKey → List PatternCandidate → List Scored
unfolding score insert_scored
sort_scored tolerance existing [] = []
sort_scored tolerance existing (c ∷ cs) =
    insert_scored (score tolerance existing c) (sort_scored tolerance existing cs)

-- The last loop: a key is adopted by the first that claims it.
unfoldable pub assign : List String → List Scored → List PatternCandidate
assign claimed [] = []
assign claimed (s ∷ ss) =
    let unclaimed = assign claimed ss in
    elim s.key [
      | none ↦ s.candidate ∷ unclaimed
      | some k ↦
          let claiming = assign (k ∷ claimed) ss in
          if elem k claimed
          then s.candidate ∷ unclaimed
          else record s.candidate { pattern_key = k } ∷ claiming
    ]

unfoldable pub reconcile_keys : ℕ → List ExistingKey → List PatternCandidate → List PatternCandidate
unfolding assign sort_scored
reconcile_keys tolerance existing candidates = assign [] (sort_scored tolerance existing candidates)
