-- ===== src/Tests/Running.antt =====
-- A run of the proposer from a database without proposals.
use hass_ai.Prelude.{true, ℕ, ◌+◌, ◌≡◌, ◌⊎◌, none, some, List, [], ◌∷◌, arith}
use hass_ai.Db.Models.{Database}
use hass_ai.Ingest.Registry.{RegistryRow}
use hass_ai.Proposer.Group.{ProposalGroup}
use hass_ai.Proposer.Service.{Llm}
use hass_ai.Proposer.Lifecycle.{repeats_key}
use hass_ai.Proposer.Run.{decisions, ProposerSettings, ProposeResult, run_groups, run_proposing}
use hass_ai.Proposer.Run.Founded.{IsRun, run_proposing-IsRun}
use hass_ai.Tests.Samples.{lamp_pattern, thresholds, lamp, decode, dump, answer, sun}

abbrev hall_light : RegistryRow
hall_light = record {
  entity_id = lamp;
  domain = "light";
  friendly_name = some "Hall";
  area_id = none;
  area_name = none;
  device_id = none;
  device_class = none;
  updated_at = 1;
}

-- A model that has one answer.
abbrev willing_llm : Llm ℕ
willing_llm n request = (n + 1, some (record { content = answer; model = "m" }))

abbrev proposer : ProposerSettings ℕ
proposer = record {
  thresholds = thresholds;
  group_window = 1200;
  stale_days = 14;
  formats = record {
    hexdigest = λ t. t;
    two_digits = λ n. "14";
    circular_mean = λ ms. elim ms [ [] ↦ 0 | m ∷ _ ↦ m ];
  };
  llm = willing_llm;
  decode = decode;
  dump = dump;
  sun = sun;
  today = 3;
  now = 2000000;
}

abbrev mined_only : Database
mined_only = record {
  patterns = lamp_pattern ∷ [];
  proposals = [];
  shadow_results = [];
  next_id = 1;
}

run_proposing-IsRun_example :
    ((run_groups proposer (hall_light ∷ []) mined_only ≡ none)
      × (run_proposing proposer (hall_light ∷ []) mined_only 0 ≡ none))
    ⊎ ((groups : List ProposalGroup) × (run_groups proposer (hall_light ∷ []) mined_only
          ≡ some groups)
        × (((repeats_key (decisions proposer (hall_light ∷ []) mined_only 0 groups).inserts ≡ true)
              × (run_proposing proposer (hall_light ∷ []) mined_only 0 ≡ none))
            ⊎ ((after : Database) × (result : ProposeResult) × (run_proposing proposer
                    (hall_light ∷ [])
                    mined_only
                    0
                  ≡ some (after, result))
                × IsRun proposer (hall_light ∷ []) 0 mined_only after groups)))
run_proposing-IsRun_example =
    run_proposing-IsRun proposer (hall_light ∷ []) 0 mined_only (omega arith)
