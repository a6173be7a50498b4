-- ===== src/Proposer/Service.antt =====
-- `_process_groups` of src/pae/proposer/service.py. The language model is a parameter with a state of its
-- own; a request is the group, and on the retry the errors of the first answer.
pub mod Backed
pub mod Groups
pub mod Asked
pub mod Retried
use hass_ai.Prelude.{
  lookup, ℕ, ◌+◌, String, Bool, false, not, ◌&&◌, ◌||◌, Option, none, some, List, [], ◌∷◌, ◌++◌,
  map, all, any, codes, str_eq, Dict, if◌then◌else◌, leb, nat_eq,
}
use hass_ai.Db.Models.{Json, boolean, text, object, Fields, done, field, Kind, Status}
use hass_ai.Proposer.Group.{ProposalGroup, entity_ids, insert_text}
use hass_ai.Proposer.Schema.Automation.{Automation}
use hass_ai.Proposer.Validate.{Message, SunMinutes, validate_proposal}

pub data Complaint : Type 0 where
  about : Message → Complaint
  missing : String → Complaint

pub record Request : Type 0 where
  pub group : ProposalGroup
  pub feedback : List Complaint

-- LLMResponse; `content` is a JSON object.
pub record Response : Type 0 where
  pub content : Fields
  pub model : String

-- chat_json: `none` is the LLMError.
abbrev pub Llm : Type 0 → Type 0
Llm S = S → Request → S × Option Response

-- content.get(key)
unfoldable pub get_field : String → Fields → Option Json
get_field key done = none
get_field key (field k v rest) = if str_eq k key then some v else get_field key rest

abbrev pub is_true : Option Json → Bool
is_true (some (boolean b)) = b
is_true _ = false

abbrev pub or_empty_object : Option Json → Json
or_empty_object none = object done
or_empty_object (some j) = j

-- content.get("automation", {})
abbrev pub automation_of : Fields → Json
automation_of content = or_empty_object (get_field "automation" content)

-- A blank by its code point, as `strip` takes it.
abbrev is_blank : ℕ → Bool
is_blank c =
    any (nat_eq c) (32 ∷ 133 ∷ 160 ∷ 5760 ∷ 8232 ∷ 8233 ∷ 8239 ∷ 8287 ∷ 12288 ∷ [])
    || (leb 9 c && leb c 13)
    || (leb 28 c && leb c 31)
    || (leb 8192 c && leb c 8202)

abbrev pub is_text : Option Json → Bool
is_text (some (text s)) = not (all is_blank (codes s))
is_text _ = false

-- _content_field_errors
unfoldable pub content_field_errors : Fields → List Complaint
content_field_errors content =
    (if is_text (get_field "title" content) then [] else missing "title" ∷ [])
    ++ (if is_text (get_field "rationale" content) then [] else missing "rationale" ∷ [])

abbrev text_of : Option Json → String
text_of (some (text s)) = s
text_of _ = ""

-- A row for `inserts`.
pub record Draft : Type 0 where
  pub group_key : String
  pub kind : Kind
  pub title : String
  pub rationale : String
  pub automation_json : Json
  pub source_pattern_keys : List String
  pub entity_ids : List String
  pub model_name : String
  pub status : Status
  pub last_eligible_at : ℕ

pub record Counters : Type 0 where
  pub groups_considered : ℕ
  pub generated : ℕ
  pub declined : ℕ
  pub validation_failed : ℕ
  pub skipped_existing : ℕ

-- What becomes of a group.
pub data Decision : Type 0 where
  keep_existing revive llm_failed decline invalid : Decision
  propose : Draft → Decision

abbrev pub pattern_keys : ProposalGroup → List String
pattern_keys g = map (λ p. p.pattern_key) g.patterns

-- sorted(set(group.entity_ids) | ({trigger} if trigger else set()))
abbrev draft_entities : ProposalGroup → List String
draft_entities g = elim g.trigger_entity_id [
  | none ↦ entity_ids g
  | some e ↦ if str_eq e "" then entity_ids g else insert_text e (entity_ids g)
]

module _ {S : Type 0} (llm : Llm S) (decode : Json → Option Automation) (dump : Automation → Json)
    (domains : Dict String) (sun : Option SunMinutes) (today now : ℕ) where
  -- The automation of an answer with all the complaints about the answer.
  unfoldable pub examine : ProposalGroup → Fields → Option Automation × List Complaint
  examine g content =
      let r = validate_proposal decode g domains sun today (automation_of content) in
      (r.0, map about r.1 ++ content_field_errors content)

  abbrev pub draft : ProposalGroup → Response → Automation → Draft
  draft g resp a = record {
    group_key = g.group_key;
    kind = g.kind;
    title = text_of (get_field "title" resp.content);
    rationale = text_of (get_field "rationale" resp.content);
    automation_json = dump a;
    source_pattern_keys = pattern_keys g;
    entity_ids = draft_entities g;
    model_name = resp.model;
    status = Status.shadowing;
    last_eligible_at = now;
  }

  -- `parsed` is there where no complaint is; without it `model_dump` raises, which no answer brings about.
  abbrev accept : ProposalGroup → Response → Option Automation × List Complaint → Decision
  accept g resp (some a, []) = propose (draft g resp a)
  accept g resp (none, []) = invalid
  accept g resp (parsed, e ∷ es) = invalid

  -- The answer to the retry.
  abbrev second : ProposalGroup → Option Response → Decision
  second g none = invalid
  second g (some resp) = accept g resp (examine g resp.content)

  abbrev retry : ProposalGroup → List Complaint → S → S × Decision
  retry g errors s =
      let (s', answer) = llm s (record { group = g; feedback = errors }) in (s', second g answer)

  abbrev judge_first :
      ProposalGroup → Response → S → Option Automation × List Complaint → S × Decision
  judge_first g resp s (parsed, []) = (s, accept g resp (parsed, []))
  judge_first g resp s (parsed, e ∷ es) = retry g (e ∷ es) s

  -- The answer to the first request.
  abbrev first : ProposalGroup → S → Option Response → S × Decision
  first g s none = (s, llm_failed)
  first g s (some resp) =
      if is_true (get_field "propose" resp.content)
      then judge_first g resp s (examine g resp.content)
      else (s, decline)

  abbrev ask : ProposalGroup → S → S × Decision
  ask g s = let (s', answer) = llm s (record { group = g; feedback = [] }) in first g s' answer

  unfoldable pub decide : ProposalGroup → Option Status → S → S × Decision
  decide g (some Status.rejected) s = (s, keep_existing)
  decide g (some Status.shadowing) s = (s, keep_existing)
  decide g (some Status.approved) s = (s, keep_existing)
  decide g (some Status.stale) s = (s, revive)
  decide g none s = ask g s

-- The variables of the loop.
pub record Progress (S : Type 0) : Type 0 where
  pub state : S
  pub counters : Counters
  pub inserts : List Draft
  pub status_updates : List String

abbrev pub tally : Counters → Decision → Counters
tally c keep_existing = record c { skipped_existing = c.skipped_existing + 1 }
tally c revive = record c { skipped_existing = c.skipped_existing + 1 }
tally c llm_failed = c
tally c decline = record c { declined = c.declined + 1 }
tally c invalid = record c { validation_failed = c.validation_failed + 1 }
tally c (propose d) = record c { generated = c.generated + 1 }

abbrev pub drafts_of : Decision → List Draft
drafts_of (propose d) = d ∷ []
drafts_of _ = []

-- The patterns that become proposed: those of a new or a revived proposal.
abbrev pub updates_of : ProposalGroup → Decision → List String
updates_of g (propose d) = pattern_keys g
updates_of g revive = pattern_keys g
updates_of g _ = []

abbrev pub note : {S : Type 0} → ProposalGroup → Progress S → S × Decision → Progress S
note g p (s, d) = record {
  state = s;
  counters = tally (record p.counters { groups_considered = p.counters.groups_considered + 1 }) d;
  inserts = p.inserts ++ drafts_of d;
  status_updates = p.status_updates ++ updates_of g d;
}

abbrev pub new_counters : Counters
new_counters = record {
  groups_considered = 0;
  generated = 0;
  declined = 0;
  validation_failed = 0;
  skipped_existing = 0;
}

abbrev pub start : {S : Type 0} → S → Progress S
start s = record { state = s; counters = new_counters; inserts = []; status_updates = [] }

module _ {S : Type 0} (llm : Llm S) (decode : Json → Option Automation) (dump : Automation → Json)
    (domains : Dict String) (sun : Option SunMinutes) (today now : ℕ) (existing : Dict Status) where
  -- One round of the loop.
  unfoldable pub process_group : Progress S → ProposalGroup → Progress S
  process_group p g =
      note g p
        (decide llm decode dump domains sun today now g (lookup g.group_key existing) p.state)

  unfoldable pub process_from : Progress S → List ProposalGroup → Progress S
  process_from p [] = p
  process_from p (g ∷ gs) = process_from (process_group p g) gs

  -- _process_groups
  unfoldable pub process_groups : S → List ProposalGroup → Progress S
  unfolding process_from
  process_groups s groups = process_from (start s) groups
