-- ===== src/Miner/Types.antt =====
-- What the miners read and produce (src/pae/miner/types.py). Ratios are whole numbers of their last
-- stored digit, as in the rows of the table.
use hass_ai.Prelude.{ℕ, String, Bool, Option, List, [], ◌∷◌}
use hass_ai.Db.Models.{Kind, Source, Evidence}

-- ACTIONABLE_DOMAINS
abbrev pub actionable_domains : List String
actionable_domains = "light" ∷ "switch" ∷ "climate" ∷ "cover" ∷ "lock" ∷ "fan" ∷ "media_player" ∷ []

pub record MinedEvent : Type 0 where
  pub time : ℕ
  pub entity_id : String
  pub domain : String
  pub old_state : Option String
  pub new_state : Option String
  pub triggered_by : Source
  pub user_id : Option String

pub record PatternCandidate : Type 0 where
  pub kind : Kind
  pub pattern_key : String
  pub entity_id : String
  pub action : String
  pub day_type : Option String
  pub trigger_entity_id : Option String
  pub trigger_state : Option String
  pub tod_minutes : Option ℕ
  pub tod_std_minutes : Option ℕ
  pub support : ℕ
  pub confidence : ℕ
  pub lift : ℕ
  pub temporal_consistency : Option ℕ
  pub occurrences : ℕ
  pub days_observed : ℕ
  pub suspected_schedule : Bool
  pub evidence : Evidence
  pub first_seen : ℕ
  pub last_seen : ℕ
