-- ===== src/Proposer/Service/Asked.antt =====
-- When `_process_groups` of src/pae/proposer/service.py asks the language model, and what a retry does.
use hass_ai.Prelude.{
  is_some, ◌∙◌, ℕ, String, ◌≡◌, refl, ap, true, Option, none, some, List, [], ◌∷◌, ◌++◌, All,
  lookup, Dict, append-nil,
}
use hass_ai.Db.Models.{Json, Status}
use hass_ai.Proposer.Group.{ProposalGroup}
use hass_ai.Proposer.Schema.Automation.{Automation}
use hass_ai.Proposer.Validate.{SunMinutes}
use hass_ai.Proposer.Service.{
  start, Llm, Draft, decide, Progress, drafts_of, note, process_group, process_from, process_groups,
}

module _ {S : Type 0} (llm : Llm S) (decode : Json → Option Automation) (dump : Automation → Json)
    (domains : Dict String) (sun : Option SunMinutes) (today now : ℕ) where
  decide-quiet :
      (g : ProposalGroup) (o : Option Status) (s : S)
      → is_some o ≡ true
      → let r = decide llm decode dump domains sun today now g o s in
        (r.0 ≡ s) × (drafts_of r.1 ≡ [])
  unfolding decide
  decide-quiet g none s h = cc
  decide-quiet g (some Status.rejected) s h = (refl, refl)
  decide-quiet g (some _) s h = (refl, refl)

  process_from-quiet :
      (existing : Dict Status) (gs : List ProposalGroup) (p : Progress S)
      → All (λ g. is_some (lookup g.group_key existing) ≡ true) gs
      → let r = process_from llm decode dump domains sun today now existing p gs in
        (r.state ≡ p.state) × (r.inserts ≡ p.inserts)
  unfolding process_from process_group
  process_from-quiet existing [] p h = (refl, refl)
  process_from-quiet existing (g ∷ gs) p h =
      let r =
        decide llm decode dump domains sun today now g (lookup g.group_key existing) p.state in
      let (same, none_made) = decide-quiet g (lookup g.group_key existing) p.state h.0 in
      let (states, drafts) = process_from-quiet existing gs (note g p r) h.1 in
      (
        states ∙ same,
        drafts ∙ (ap (λ (ds : List Draft). p.inserts ++ ds) none_made ∙ append-nil p.inserts),
      )

  -- The language model is not asked about a group that has a proposal, whatever its status: where all
  -- have one, its state is as before and nothing is stored.
  pub process_groups-quiet :
      (existing : Dict Status) (s : S) (groups : List ProposalGroup)
      → All (λ g. is_some (lookup g.group_key existing) ≡ true) groups
      → let r = process_groups llm decode dump domains sun today now existing s groups in
        (r.state ≡ s) × (r.inserts ≡ [])
  unfolding process_groups
  process_groups-quiet existing s groups h = process_from-quiet existing groups (start s) h
