-- ===== src/Proposer/Run.antt =====
-- `run_proposing` of src/pae/proposer/service.py: what it reads, decides and writes in its transaction, from
-- tables that nothing else changes meanwhile (Proposer.Lifecycle has the interleavings). An exception rolls
-- the transaction back and is `none`. Metrics and the log are not modelled.
pub mod Founded
use hass_ai.Prelude.{
  ℕ, ◌-◌, ◌*◌, String, Bool, true, false, Option, none, some, List, [], ◌∷◌, map, filter, length,
  lookup, Dict, if◌then◌else◌,
}
use hass_ai.Db.Models.{Json, Status, Proposal, Database}
use hass_ai.Ingest.Registry.{RegistryRow}
use hass_ai.Miner.Stats.{minute}
use hass_ai.Proposer.Gates.{Thresholds, eligible_patterns}
use hass_ai.Proposer.Group.{ProposalGroup}
use hass_ai.Proposer.Grouping.{Formats, build_groups}
use hass_ai.Proposer.Schema.Automation.{Automation}
use hass_ai.Proposer.Validate.{SunMinutes}
use hass_ai.Proposer.Service.{Llm, Counters, Progress, process_groups}
use hass_ai.Proposer.Lifecycle.{
  is_live, is_stale, gone_stale, mark_proposed, insert_drafts, revive_stale, touch_live, Writes,
  breaks_index, repeats_key, write_run,
}

pub record ProposeResult : Type 0 where
  pub counters : Counters
  pub stale_marked : ℕ

-- The settings and the parameters of a run.
pub record ProposerSettings (S : Type 0) : Type 0 where
  pub thresholds : Thresholds
  pub group_window : ℕ
  pub stale_days : ℕ
  pub formats : Formats
  pub llm : Llm S
  pub decode : Json → Option Automation
  pub dump : Automation → Json
  pub sun : Option SunMinutes
  pub today : ℕ
  pub now : ℕ

-- registry_ids
abbrev pub registry_ids : List RegistryRow → List String
registry_ids rows = map (λ r. r.entity_id) rows

-- registry_domains
abbrev pub registry_domains : List RegistryRow → Dict String
registry_domains rows = map (λ r. (r.entity_id, r.domain)) rows

-- existing: the group key is unique in the table.
abbrev pub existing_statuses : List Proposal → Dict Status
existing_statuses ps = map (λ p. (p.group_key, p.status)) ps

abbrev status_is : (Status → Bool) → Option Status → Bool
status_is test none = false
status_is test (some s) = test s

-- [g.group_key for g in groups if ... existing.get(g.group_key) ...]
unfoldable pub keys_with : (Status → Bool) → Dict Status → List ProposalGroup → List String
unfolding lookup
keys_with test existing groups =
    map (λ g. g.group_key) (filter (λ g. status_is test (lookup g.group_key existing)) groups)

module _ {S : Type 0} (s : ProposerSettings S) (registry : List RegistryRow) where
  -- The groups of the eligible patterns, where build_groups does not raise.
  unfoldable pub run_groups : Database → Option (List ProposalGroup)
  unfolding eligible_patterns build_groups
  run_groups db =
      build_groups s.formats s.group_window
        (eligible_patterns s.thresholds (registry_ids registry) db.patterns)

  -- The call of _process_groups.
  abbrev pub decisions : Database → S → List ProposalGroup → Progress S
  decisions db llm_state groups =
      process_groups s.llm s.decode s.dump (registry_domains registry) s.sun s.today s.now
        (existing_statuses db.proposals) llm_state groups

  abbrev pub writes_of : Database → S → List ProposalGroup → Writes
  writes_of db llm_state groups =
      let p = decisions db llm_state groups in
      record {
        live_keys = keys_with is_live (existing_statuses db.proposals) groups;
        stale_keys = keys_with is_stale (existing_statuses db.proposals) groups;
        inserts = p.inserts;
        status_updates = p.status_updates;
      }

  abbrev pub cutoff : ℕ
  cutoff = s.now - s.stale_days * (1440 * minute)

  -- len(gone_stale), read behind the other writes.
  abbrev stale_count : Writes → Database → ℕ
  stale_count w db = length (
      gone_stale cutoff (
        mark_proposed w.status_updates (
          insert_drafts s.now w.inserts
            (revive_stale s.now w.stale_keys (touch_live s.now w.live_keys db)))))

  abbrev pub result_of : Database → S → List ProposalGroup → ProposeResult
  result_of db llm_state groups = record {
    counters = (decisions db llm_state groups).counters;
    stale_marked = stale_count (writes_of db llm_state groups) db;
  }

  abbrev pub run_with :
      Database → S → Option (List ProposalGroup) → Option (Database × ProposeResult)
  run_with db llm_state none = none
  run_with db llm_state (some groups) =
      let w = writes_of db llm_state groups in
      if breaks_index w.inserts db.proposals
      then none
      else some (write_run s.now cutoff w db, result_of db llm_state groups)

  unfoldable pub run_proposing : Database → S → Option (Database × ProposeResult)
  unfolding run_groups process_groups keys_with write_run repeats_key
  run_proposing db llm_state = run_with db llm_state (run_groups db)
