-- ===== src/Proposer/Lifecycle.antt =====
-- The statements of `run_proposing` of src/pae/proposer/service.py on the tables, and the steps by which
-- the jobs and the review UI change them.
pub mod Tracks
pub mod Statements
pub mod Terminal
pub mod Race
use hass_ai.Prelude.{
  ℕ, suc, ◌+◌, ◌-◌, String, Bool, true, false, ◌&&◌, ◌||◌, Option, none, some, List, [], ◌∷◌, ◌++◌,
  map, filter, any, update_where, ltb, nat_eq, str_eq, elem, if◌then◌else◌, is_empty,
}
use hass_ai.Db.Models.{
  Status, PatternStatus, is_candidate, is_proposed, Pattern, Proposal, ShadowResult, Database,
}
use hass_ai.Miner.Types.{PatternCandidate}
use hass_ai.Miner.Upsert.{upsert_patterns}
use hass_ai.Proposer.Repo.{approve_proposal, reject_proposal}
use hass_ai.Proposer.Service.{Draft}

-- Proposal.status.in_(LIVE_STATUSES)
abbrev pub is_live : Status → Bool
is_live Status.shadowing = true
is_live Status.approved = true
is_live Status.rejected = false
is_live Status.stale = false

abbrev pub is_stale : Status → Bool
is_stale Status.stale = true
is_stale Status.shadowing = false
is_stale Status.approved = false
is_stale Status.rejected = false

-- The update of `live_keys`.
unfoldable pub touch_live : ℕ → List String → Database → Database
touch_live now keys db = record db {
  proposals =
      update_where (λ p. elem p.group_key keys)
        (λ p. record p { last_eligible_at = now; updated_at = now }) db.proposals;
}

-- The update of `stale_keys`, which tests the status once more.
unfoldable pub revive_stale : ℕ → List String → Database → Database
revive_stale now keys db = record db {
  proposals =
      update_where (λ p. elem p.group_key keys && is_stale p.status)
        (λ p. record p { status = Status.shadowing; last_eligible_at = now; updated_at = now })
        db.proposals;
}

abbrev pub proposal_of : ℕ → ℕ → Draft → Proposal
proposal_of id now d = record {
  id = id;
  group_key = d.group_key;
  kind = d.kind;
  title = d.title;
  rationale = d.rationale;
  automation_json = d.automation_json;
  source_pattern_keys = d.source_pattern_keys;
  entity_ids = d.entity_ids;
  model_name = d.model_name;
  prompt_version = 1;
  status = d.status;
  reject_reason = none;
  last_eligible_at = d.last_eligible_at;
  created_at = now;
  updated_at = now;
}

-- The rows in the order of the INSERT, whose identities the sequence gives; `breaks_index` says when the
-- INSERT raises instead.
unfoldable pub insert_drafts : ℕ → List Draft → Database → Database
insert_drafts now [] db = db
insert_drafts now (d ∷ ds) db = insert_drafts now ds (record db {
  proposals = db.proposals ++ proposal_of db.next_id now d ∷ [];
  next_id = db.next_id + 1;
})

-- The update of `status_updates`.
unfoldable pub mark_proposed : List String → Database → Database
mark_proposed keys db = record db {
  patterns =
      update_where (λ p. elem p.pattern_key keys && is_candidate p.status)
        (λ p. record p { status = PatternStatus.proposed }) db.patterns;
}

-- The rows of `gone_stale`.
abbrev pub has_lapsed : ℕ → Proposal → Bool
has_lapsed cutoff p = is_live p.status && ltb p.last_eligible_at cutoff

unfoldable pub gone_stale : ℕ → Database → List Proposal
gone_stale cutoff db = filter (has_lapsed cutoff) db.proposals

abbrev pub has_id : List ℕ → Proposal → Bool
has_id ids p = any (nat_eq p.id) ids

-- The update of `stale_ids`, by identity alone.
unfoldable pub mark_stale : ℕ → List ℕ → Database → Database
mark_stale now ids db = record db {
  proposals =
      update_where (has_id ids) (λ p. record p { status = Status.stale; updated_at = now })
        db.proposals;
}

-- The update of `revert_keys`.
unfoldable pub revert_patterns : List String → Database → Database
revert_patterns keys db = record db {
  patterns =
      update_where (λ p. elem p.pattern_key keys && is_proposed p.status)
        (λ p. record p { status = PatternStatus.candidate }) db.patterns;
}

abbrev pub ids_of : List Proposal → List ℕ
ids_of ps = map (λ p. p.id) ps

abbrev pub keys_of : List Proposal → List String
keys_of [] = []
keys_of (p ∷ ps) = p.source_pattern_keys ++ keys_of ps

-- The staleness sweep; with no row selected its updates match nothing.
unfoldable pub sweep : ℕ → ℕ → Database → Database
unfolding gone_stale mark_stale revert_patterns
sweep now cutoff db =
    let gone = gone_stale cutoff db in
    revert_patterns (keys_of gone) (mark_stale now (ids_of gone) db)

-- What a run decided before it writes: from tables that it read at the start of its transaction.
pub record Writes : Type 0 where
  pub live_keys : List String
  pub stale_keys : List String
  pub inserts : List Draft
  pub status_updates : List String

-- Two of the rows have one group key.
unfoldable pub repeats_key : List Draft → Bool
repeats_key [] = false
repeats_key (d ∷ ds) = any (λ e. str_eq e.group_key d.group_key) ds || repeats_key ds

abbrev pub is_keyed_as : String → Proposal → Bool
is_keyed_as key p = str_eq p.group_key key

-- The INSERT raises an IntegrityError: the unique index on the group key of a proposal.
abbrev pub breaks_index : List Draft → List Proposal → Bool
breaks_index ds ps = any (λ d. any (is_keyed_as d.group_key) ps) ds || repeats_key ds

-- The statements of the transaction, where the INSERT does not raise.
unfoldable pub write_run : ℕ → ℕ → Writes → Database → Database
unfolding sweep mark_proposed insert_drafts revive_stale touch_live
write_run now cutoff w db = sweep now cutoff (
    mark_proposed w.status_updates
      (insert_drafts now w.inserts (revive_stale now w.stale_keys (touch_live now w.live_keys db))))

-- The transaction; where the INSERT raises it is rolled back.
unfoldable pub apply_run : ℕ → ℕ → Writes → Database → Database
unfolding write_run repeats_key
apply_run now cutoff w db =
    if breaks_index w.inserts db.proposals then db else write_run now cutoff w db

-- One change of the tables: a decision of the operator, or the writes of a job. The writes of a proposer
-- run may rest on any earlier reading of the tables.
pub data Step : Database → Database → Type 0 where
  approve : (id now : ℕ) (db : Database) → Step db (approve_proposal id now db)
  reject :
      (id now : ℕ) (reason : Option String) (db : Database)
      → Step db (reject_proposal id reason now db)
  run : (now cutoff : ℕ) (w : Writes) (db : Database) → Step db (apply_run now cutoff w db)
  mine :
      (mined_at : ℕ) (cs : List PatternCandidate) (db : Database)
      → Step db (record db { patterns = upsert_patterns mined_at cs db.patterns })
  score : (rows : List ShadowResult) (db : Database) → Step db (record db { shadow_results = rows })

pub data Reach (start : Database) : Database → Type 0 where
  here : Reach start start
  next : {db db' : Database} → Reach start db → Step db db' → Reach start db'
