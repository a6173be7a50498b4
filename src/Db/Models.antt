-- ===== src/Db/Models.antt =====
-- The rows of the tables (src/pae/db/models.py). A timestamp is a number of seconds, a date the number
-- of its day; a stored ratio is the whole number of its last stored digit, so a support of 0.6125 is
-- 6125 and a lift of 3.25 is 325.
use hass_ai.Prelude.{ℕ, String, Bool, Option, List, true, false}
use hass_ai.Prelude.Int.{ℤ}

-- A JSON value, as it stands in a JSONB column or comes from a decoder.
mutual
  pub data Json : Type 0 where
    null : Json
    boolean : Bool → Json
    number : ℕ → Json
    text : String → Json
    array : Items → Json
    object : Fields → Json

  pub data Items : Type 0 where
    end : Items
    item : Json → Items → Items

  pub data Fields : Type 0 where
    done : Fields
    field : String → Json → Fields → Fields

-- The `kind` column; the code tests for the first two and skips a row of any other.
pub data Kind : Type 0 where
  time_of_day event_pair : Kind
  other_kind : String → Kind

-- `triggered_by` of an event.
pub data Source : Type 0 where
  manual automation pae : Source

pub data PatternStatus : Type 0 where
  candidate proposed rejected : PatternStatus

pub data Status : Type 0 where
  shadowing approved rejected stale : Status

abbrev pub is_manual : Source → Bool
is_manual manual = true
is_manual automation = false
is_manual pae = false

abbrev pub is_time_of_day : Kind → Bool
is_time_of_day time_of_day = true
is_time_of_day event_pair = false
is_time_of_day (other_kind _) = false

abbrev pub is_event_pair : Kind → Bool
is_event_pair time_of_day = false
is_event_pair event_pair = true
is_event_pair (other_kind _) = false

abbrev pub is_candidate : PatternStatus → Bool
is_candidate candidate = true
is_candidate proposed = false
is_candidate PatternStatus.rejected = false

abbrev pub is_proposed : PatternStatus → Bool
is_proposed candidate = false
is_proposed proposed = true
is_proposed PatternStatus.rejected = false

-- status == "rejected" of a pattern
abbrev pub is_rejected : PatternStatus → Bool
is_rejected candidate = false
is_rejected proposed = false
is_rejected PatternStatus.rejected = true

-- sun_offset_mean_minutes and sun_offset_std_minutes of the evidence.
pub record SunOffset : Type 0 where
  pub mean : ℤ
  pub std : ℕ

-- The `evidence` column of a pattern.
pub record Evidence : Type 0 where
  pub schedule_anchor : Option String
  pub sun_offset : Option SunOffset
  pub sample_times : List ℕ
  pub n_a : Option ℕ
  pub n_b : Option ℕ

pub record Pattern : Type 0 where
  pub pattern_key : String
  pub kind : Kind
  pub entity_id : String
  pub action : String
  pub day_type : Option String
  pub trigger_entity_id : Option String
  pub trigger_state : Option String
  pub tod_minutes : Option ℕ
  pub tod_std_minutes : Option ℕ
  pub support : ℕ
  pub confidence : ℕ
  pub lift : ℕ
  pub temporal_consistency : Option ℕ
  pub occurrences : ℕ
  pub days_observed : ℕ
  pub suspected_schedule : Bool
  pub status : PatternStatus
  pub evidence : Evidence
  pub first_seen : ℕ
  pub last_seen : ℕ
  pub mined_at : ℕ

pub record Proposal : Type 0 where
  pub id : ℕ
  pub group_key : String
  pub kind : Kind
  pub title : String
  pub rationale : String
  pub automation_json : Json
  pub source_pattern_keys : List String
  pub entity_ids : List String
  pub model_name : String
  pub prompt_version : ℕ
  pub status : Status
  pub reject_reason : Option String
  pub last_eligible_at : ℕ
  pub created_at : ℕ
  pub updated_at : ℕ

pub record ShadowResult : Type 0 where
  pub proposal_id : ℕ
  pub day : ℕ
  pub expected_fires : ℕ
  pub human_matches : ℕ
  pub human_total : ℕ

-- The tables that the proposer, the review UI and the shadow evaluator write. `next_id` is the sequence
-- behind the proposals' autoincremented identities.
pub record Database : Type 0 where
  pub patterns : List Pattern
  pub proposals : List Proposal
  pub shadow_results : List ShadowResult
  pub next_id : ℕ
