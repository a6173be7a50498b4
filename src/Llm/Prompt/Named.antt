-- ===== src/Llm/Prompt/Named.antt =====
-- Whom the prompt (src/pae/llm/prompt.py) names, and whom the validation (src/pae/proposer/schema.py) allows.
use hass_ai.Prelude.{
  ◌≡◌, refl, ap, inl, inr, ◌||◌, Bool-cases, String, Option, none, some, List, [], ◌∷◌, truthy,
  or_text, str_eq, elem, eq_iff, arith, if◌then◌else◌,
}
use hass_ai.Proposer.Group.{ProposalGroup, insert_text, sorted_set, entity_ids}
use hass_ai.Proposer.Validate.{allowed_entities}
use hass_ai.Llm.Prompt.{PromptFormats, prompt_entities}

elem-insert_text :
    (e s : String) (ts : List String) → elem e (insert_text s ts) ≡ (str_eq s e || elem e ts)
unfolding insert_text
elem-insert_text e s [] = refl
elem-insert_text e s (t ∷ ts) = elim (Bool-cases (str_eq t s)) [
  | inl same ↦
      let keyed : str_eq t e ≡ str_eq s e = ap (λ x. str_eq x e) ((eq_iff t s).0 same) in
      ground (arith, same, keyed)
  | inr other ↦ ground (arith, other, elem-insert_text e s ts)
]

elem-sorted_set : (e : String) (ts : List String) → elem e (sorted_set ts) ≡ elem e ts
unfolding sorted_set
elem-sorted_set e [] = refl
elem-sorted_set e (t ∷ ts) =
    ground (arith, elem-insert_text e t (sorted_set ts), elem-sorted_set e ts)

-- For every group, the entities that the prompt names are exactly those that the validation of the draft
-- allows: the language model is given no entity that it must not use, and misses none.
pub prompt_entities_allowed :
    (f : PromptFormats) (g : ProposalGroup) (e : String)
    → elem e (prompt_entities f g) ≡ elem e (allowed_entities g)
unfolding prompt_entities allowed_entities
prompt_entities_allowed f g e = by_entity g.trigger_entity_id
  where
    by_entity :
        (o : Option String)
        → elem e (
            if truthy o
            then sorted_set (or_text o "" ∷ entity_ids g)
            else sorted_set (entity_ids g))
          ≡ elem e (elim o [
            | none ↦ entity_ids g
            | some t ↦ if str_eq t "" then entity_ids g else t ∷ entity_ids g
          ])
    by_entity none = elem-sorted_set e (entity_ids g)
    by_entity (some t) = elim (Bool-cases (str_eq t "")) [
      | inl empty ↦ rw empty (elem-sorted_set e (entity_ids g))
      | inr named ↦ rw named (elem-sorted_set e (t ∷ entity_ids g))
    ]
