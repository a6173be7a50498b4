-- ===== src/Proposer/Group.antt =====
-- A proposal candidate (ProposalGroup of src/pae/proposer/grouping.py) and its derived lists.
use Prim.Native.Nat.{Ordering}
use Prim.Native.String.{compare}
use hass_ai.Prelude.{
  ℕ, String, Bool, true, false, Option, List, [], ◌∷◌, map, str_eq, if◌then◌else◌,
}
use hass_ai.Db.Models.{Kind, Pattern}

-- A pair group has no mean: its `mean_minutes` is 0, which nothing reads.
pub record ProposalGroup : Type 0 where
  pub kind : Kind
  pub day_type : Option String
  pub group_key : String
  pub patterns : List Pattern
  pub mean_minutes : ℕ
  pub trigger_entity_id : Option String
  pub trigger_state : Option String

abbrev pub text_lt : String → String → Bool
text_lt s t = elim (compare s t) [ Ordering.lt ↦ true | _ ↦ false ]

-- `sorted(set(...))`: insert each text where it belongs, unless it stands there.
unfoldable pub insert_text : String → List String → List String
insert_text s [] = s ∷ []
insert_text s (t ∷ ts) =
    let rest = insert_text s ts in
    if str_eq t s then t ∷ ts else if text_lt s t then s ∷ t ∷ ts else t ∷ rest

unfoldable pub sorted_set : List String → List String
unfolding insert_text
sorted_set [] = []
sorted_set (s ∷ ss) = insert_text s (sorted_set ss)

unfoldable pub entity_ids : ProposalGroup → List String
unfolding sorted_set
entity_ids g = sorted_set (map (λ p. p.entity_id) g.patterns)
