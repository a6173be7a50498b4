-- ===== src/Miner/Upsert.antt =====
-- `dedupe_candidates` and `upsert_patterns` of src/pae/miner/service.py. The chunks of UPSERT_CHUNK rows
-- are statements of one transaction, and no key stands in two candidates behind `dedupe_candidates`, so
-- the rows are upserted one by one.
pub mod Keys
use hass_ai.Prelude.{
  ℕ, String, Bool, List, [], ◌∷◌, ◌++◌, any, update_where, ltb, str_eq, if◌then◌else◌, min,
}
use hass_ai.Db.Models.{PatternStatus, candidate, Pattern}
use hass_ai.Miner.Types.{PatternCandidate}

-- best[c.pattern_key] = c, where it is missing or has fewer occurrences; a dict keeps the place of a key.
unfoldable pub insert_best : PatternCandidate → List PatternCandidate → List PatternCandidate
insert_best c [] = c ∷ []
insert_best c (d ∷ ds) =
    let rest = insert_best c ds in
    if str_eq d.pattern_key c.pattern_key
    then (if ltb d.occurrences c.occurrences then c else d) ∷ ds
    else d ∷ rest

unfoldable pub best_of : List PatternCandidate → List PatternCandidate → List PatternCandidate
best_of best [] = best
best_of best (c ∷ cs) = best_of (insert_best c best) cs

unfoldable pub dedupe_candidates : List PatternCandidate → List PatternCandidate
unfolding best_of
dedupe_candidates candidates = best_of [] candidates

-- The columns of `refresh`, and the earlier `first_seen`; the rest of the row stays.
abbrev pub refresh : PatternCandidate → ℕ → Pattern → Pattern
refresh c mined_at p = record p {
  support = c.support;
  confidence = c.confidence;
  lift = c.lift;
  temporal_consistency = c.temporal_consistency;
  tod_minutes = c.tod_minutes;
  tod_std_minutes = c.tod_std_minutes;
  occurrences = c.occurrences;
  days_observed = c.days_observed;
  suspected_schedule = c.suspected_schedule;
  last_seen = c.last_seen;
  evidence = c.evidence;
  mined_at = mined_at;
  first_seen = min p.first_seen c.first_seen;
}

-- A new row has the column's default status.
abbrev pub as_row : PatternCandidate → ℕ → Pattern
as_row c mined_at = record {
  pattern_key = c.pattern_key;
  kind = c.kind;
  entity_id = c.entity_id;
  action = c.action;
  day_type = c.day_type;
  trigger_entity_id = c.trigger_entity_id;
  trigger_state = c.trigger_state;
  tod_minutes = c.tod_minutes;
  tod_std_minutes = c.tod_std_minutes;
  support = c.support;
  confidence = c.confidence;
  lift = c.lift;
  temporal_consistency = c.temporal_consistency;
  occurrences = c.occurrences;
  days_observed = c.days_observed;
  suspected_schedule = c.suspected_schedule;
  status = candidate;
  evidence = c.evidence;
  first_seen = c.first_seen;
  last_seen = c.last_seen;
  mined_at = mined_at;
}

abbrev pub has_pattern_key : String → Pattern → Bool
has_pattern_key key p = str_eq p.pattern_key key

-- INSERT ... ON CONFLICT (pattern_key) DO UPDATE
unfoldable pub upsert_one : ℕ → PatternCandidate → List Pattern → List Pattern
upsert_one mined_at c patterns =
    if any (has_pattern_key c.pattern_key) patterns
    then update_where (has_pattern_key c.pattern_key) (refresh c mined_at) patterns
    else patterns ++ as_row c mined_at ∷ []

unfoldable pub upsert_patterns : ℕ → List PatternCandidate → List Pattern → List Pattern
upsert_patterns mined_at [] patterns = patterns
upsert_patterns mined_at (c ∷ cs) patterns =
    upsert_patterns mined_at cs (upsert_one mined_at c patterns)
