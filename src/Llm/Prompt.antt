-- ===== src/Llm/Prompt.antt =====
-- The prompt of src/pae/llm/prompt.py. The formats of numbers and times are parameters; the system text and
-- the response schema are constants that nothing reads.
pub mod Named
use Prim.Native.String.{◌++◌ as append}
use hass_ai.Prelude.{
  ℕ, ◌*◌, ◌/◌, ◌%◌, String, Bool, true, false, Option, none, some, List, [], ◌∷◌, ◌++◌, map, last_n,
  is_empty, str_eq, truthy, or_text, Dict, lookup, if◌then◌else◌,
}
use hass_ai.Db.Models.{Pattern, is_time_of_day}
use hass_ai.Miner.Stats.{minute}
use hass_ai.Proposer.Group.{ProposalGroup, sorted_set, entity_ids}

pub record RegistryInfo : Type 0 where
  pub friendly_name : Option String
  pub area_name : Option String
  pub device_class : Option String

-- `:02d`, `str`, a ratio as `:.2f`, a lift as `:.1f`, minutes as `:.0f`, `isoformat`, and the quotation mark.
pub record PromptFormats : Type 0 where
  pub two_digits : ℕ → String
  pub decimal : ℕ → String
  pub two_places : ℕ → String
  pub one_place : ℕ → String
  pub whole_minutes : ℕ → String
  pub isoformat : ℕ → String
  pub quote : String

abbrev concat : List String → String
concat [] = ""
concat (s ∷ ss) = append s (concat ss)

-- sep.join(parts)
abbrev pub join : String → List String → String
join sep [] = ""
join sep (s ∷ []) = s
join sep (s ∷ t ∷ ss) = append s (append sep (join sep (t ∷ ss)))

abbrev labelled : String → Option String → List String
labelled label o = if truthy o then append label (or_text o "") ∷ [] else []

module _ (f : PromptFormats) where
  -- _entity_line
  abbrev entity_line : String → Option RegistryInfo → String
  entity_line entity_id none = append "- " entity_id
  entity_line entity_id (some info) = join ", " (
      concat
          ("- " ∷ entity_id ∷ ": " ∷ f.quote ∷ or_text info.friendly_name entity_id ∷ f.quote ∷ [])
        ∷ labelled "area: " info.area_name
      ++ labelled "class: " info.device_class)

  -- _hhmm
  abbrev pub hhmm : ℕ → String
  hhmm t = append (f.two_digits (t / (60 * minute))) (append ":" (f.two_digits (t / minute % 60)))

  abbrev or_zero : Option ℕ → ℕ
  or_zero none = 0
  or_zero (some n) = n

  -- The recent occurrences of a pattern, if there are some.
  abbrev sample_lines : List ℕ → List String
  sample_lines times =
      if is_empty times
      then []
      else append "  recent occurrences: " (join ", " (map f.isoformat times)) ∷ []

  abbrev tod_lines : Pattern → List String
  tod_lines p =
      concat (
        "- "
        ∷ p.entity_id
        ∷ " -> "
        ∷ p.action
        ∷ " at ~"
        ∷ hhmm (or_zero p.tod_minutes)
        ∷ " (±"
        ∷ f.whole_minutes (or_zero p.tod_std_minutes)
        ∷ " min, "
        ∷ f.decimal p.occurrences
        ∷ " times over "
        ∷ f.decimal p.days_observed
        ∷ " days, support "
        ∷ f.two_places p.support
        ∷ ", consistency "
        ∷ f.two_places (or_zero p.temporal_consistency)
        ∷ ")"
        ∷ [])
      ∷ sample_lines (last_n 3 p.evidence.sample_times)

  abbrev pair_line : Pattern → String
  pair_line p = concat (
      "- "
      ∷ p.entity_id
      ∷ " -> "
      ∷ p.action
      ∷ " (confidence "
      ∷ f.two_places p.confidence
      ∷ ", lift "
      ∷ f.one_place p.lift
      ∷ ", "
      ∷ f.decimal p.occurrences
      ∷ " times)"
      ∷ [])

  abbrev all_tod_lines : List Pattern → List String
  all_tod_lines [] = []
  all_tod_lines (p ∷ ps) = tod_lines p ++ all_tod_lines ps

  -- entity_ids, with the trigger entity if there is one, sorted.
  unfoldable pub prompt_entities : ProposalGroup → List String
  unfolding entity_ids sorted_set
  prompt_entities g =
      if truthy g.trigger_entity_id
      then sorted_set (or_text g.trigger_entity_id "" ∷ entity_ids g)
      else sorted_set (entity_ids g)

  abbrev or_none : Option String → String
  or_none o = elim o [ none ↦ "None" | some s ↦ s ]

  abbrev habit_lines : String → ProposalGroup → List String
  habit_lines tz_key g =
      if is_time_of_day g.kind
      then concat (
          "Habit: on "
          ∷ or_none g.day_type
          ∷ " days, around "
          ∷ hhmm g.mean_minutes
          ∷ " local ("
          ∷ tz_key
          ∷ "), these manual actions occur together:"
          ∷ [])
        ∷ all_tod_lines g.patterns
      else concat (
          "Habit: after "
          ∷ or_none g.trigger_entity_id
          ∷ " changes to '"
          ∷ or_none g.trigger_state
          ∷ "', these manual actions follow within minutes:"
          ∷ [])
        ∷ map pair_line g.patterns

  -- The lines of the user message.
  unfoldable pub build_messages : ProposalGroup → Dict RegistryInfo → String → List String
  unfolding prompt_entities lookup
  build_messages g registry tz_key =
      ("Entities:" ∷ map (λ e. entity_line e (lookup e registry)) (prompt_entities g))
      ++ ("" ∷ [])
      ++ habit_lines tz_key g
      ++ ("" ∷ "Draft the automation, or decline." ∷ [])
