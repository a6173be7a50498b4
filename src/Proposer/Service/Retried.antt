-- ===== src/Proposer/Service/Retried.antt =====
-- What a run (`_process_groups` of src/pae/proposer/service.py) reads of the answer to a retry.
use hass_ai.Prelude.{
  map, ◌++◌, if◌then◌else◌, String, ◌∙◌, ℕ, ◌≡◌, refl, ap, Bool-cases, inl, inr, Option, none, some,
  List, [], ◌∷◌, lookup, Dict,
}
use hass_ai.Db.Models.{Json, Fields, Status}
use hass_ai.Proposer.Group.{ProposalGroup}
use hass_ai.Proposer.Schema.Automation.{Automation}
use hass_ai.Proposer.Validate.{validate_proposal, SunMinutes}
use hass_ai.Proposer.Service.{
  or_empty_object, about, missing, is_text, start, is_true, Complaint, Request, Response, Llm,
  get_field, propose, content_field_errors, examine, draft, accept, second, judge_first, first,
  Decision, decide, Progress, note, process_group, process_from, process_groups,
}

-- The same automation, title, rationale and model name; `propose` and all else may differ.
abbrev pub IsSameDraft : Option Response → Option Response → Type 0
IsSameDraft none none = Unit
IsSameDraft (some r) (some q) =
    (r.model ≡ q.model)
    × (get_field "automation" r.content ≡ get_field "automation" q.content)
    × (get_field "title" r.content ≡ get_field "title" q.content)
    × (get_field "rationale" r.content ≡ get_field "rationale" q.content)
IsSameDraft _ _ = ⊥

-- Two models that answer every first request alike, and every retry up to `propose` and unread fields.
pub record IsAlike {S : Type 0} (llm other : Llm S) : Type 0 where
  pub asked :
      (s : S) (g : ProposalGroup)
      → llm s (record { group = g; feedback = [] }) ≡ other s (record { group = g; feedback = [] })
  pub retried :
      (s : S) (g : ProposalGroup) (e : Complaint) (es : List Complaint)
      → let request : Request = record { group = g; feedback = e ∷ es } in
        ((llm s request).0 ≡ (other s request).0)
        × IsSameDraft (llm s request).1 (other s request).1

module _ {S : Type 0} (llm other : Llm S) (alike : IsAlike llm other)
    (decode : Json → Option Automation) (dump : Automation → Json) (domains : Dict String)
    (sun : Option SunMinutes) (today now : ℕ) where
  examine-same :
      (g : ProposalGroup) (c d : Fields)
      → get_field "automation" c ≡ get_field "automation" d
      → get_field "title" c ≡ get_field "title" d
      → get_field "rationale" c ≡ get_field "rationale" d
      → examine llm decode dump domains sun today now g c
        ≡ examine other decode dump domains sun today now g d
  unfolding examine content_field_errors
  examine-same g c d automation title rationale = λ i.
      let r = validate_proposal decode g domains sun today (or_empty_object (automation i)) in
      (
        r.0,
        map about r.1
            ++ ((if is_text (title i) then [] else missing "title" ∷ [])
                ++ (if is_text (rationale i) then [] else missing "rationale" ∷ [])),
      )

  accept-same :
      (g : ProposalGroup) (r q : Response) (e : Option Automation × List Complaint)
      → ((a : Automation)
          → draft llm decode dump domains sun today now g r a
            ≡ draft other decode dump domains sun today now g q a)
      → accept llm decode dump domains sun today now g r e
        ≡ accept other decode dump domains sun today now g q e
  accept-same g r q (some a, []) same = ap (λ d. propose d) (same a)
  accept-same g r q (none, []) same = refl
  accept-same g r q (some a, e ∷ es) same = refl
  accept-same g r q (none, e ∷ es) same = refl

  second-same :
      (g : ProposalGroup) (o p : Option Response)
      → IsSameDraft o p
      → second llm decode dump domains sun today now g o
        ≡ second other decode dump domains sun today now g p
  second-same g none none same = refl
  second-same g none (some q) same = absurd same
  second-same g (some r) none same = absurd same
  second-same g (some r) (some q) (model, automation, title, rationale) =
      accept-same g r q (examine llm decode dump domains sun today now g r.content)
        (λ a. rw (title, rationale, model) refl)
      ∙ ap (accept other decode dump domains sun today now g q)
          (examine-same g r.content q.content automation title rationale)

  judge_first-same :
      (g : ProposalGroup) (r : Response) (s : S) (e : Option Automation × List Complaint)
      → judge_first llm decode dump domains sun today now g r s e
        ≡ judge_first other decode dump domains sun today now g r s e
  judge_first-same g r s (o, []) =
      ap (λ (d : Decision). (s, d)) (accept-same g r r (o, []) (λ a. refl))
  judge_first-same g r s (o, e ∷ es) =
      let (state, same) = alike.retried s g e es in
      let decision =
        second-same g (llm s (record { group = g; feedback = e ∷ es })).1
          (other s (record { group = g; feedback = e ∷ es })).1 same in
      λ i. (state i, decision i)

  first-same :
      (g : ProposalGroup) (s : S) (o : Option Response)
      → first llm decode dump domains sun today now g s o
        ≡ first other decode dump domains sun today now g s o
  first-same g s none = refl
  first-same g s (some r) = elim (Bool-cases (is_true (get_field "propose" r.content))) [
    | inl wanted ↦ rw wanted (
        judge_first-same g r s (examine llm decode dump domains sun today now g r.content)
        ∙ ap (judge_first other decode dump domains sun today now g r s)
            (examine-same g r.content r.content refl refl refl))
    | inr declined ↦ rw declined refl
  ]

  decide-same :
      (g : ProposalGroup) (o : Option Status) (s : S)
      → decide llm decode dump domains sun today now g o s
        ≡ decide other decode dump domains sun today now g o s
  unfolding decide
  decide-same g none s =
      let request : Request = record { group = g; feedback = [] } in
      first-same g (llm s request).0 (llm s request).1
      ∙ ap (λ (t : S × Option Response). first other decode dump domains sun today now g t.0 t.1)
          (alike.asked s g)
  decide-same g (some Status.rejected) s = refl
  decide-same g (some Status.shadowing) s = refl
  decide-same g (some Status.approved) s = refl
  decide-same g (some Status.stale) s = refl

  process_from-same :
      (existing : Dict Status) (gs : List ProposalGroup) (p : Progress S)
      → process_from llm decode dump domains sun today now existing p gs
        ≡ process_from other decode dump domains sun today now existing p gs
  unfolding process_from process_group
  process_from-same existing [] p = refl
  process_from-same existing (g ∷ gs) p =
      let status = lookup g.group_key existing in
      process_from-same existing gs
        (note g p (decide llm decode dump domains sun today now g status p.state))
      ∙ ap
          (λ (t : S × Decision).
            process_from other decode dump domains sun today now existing (note g p t) gs)
          (decide-same g status p.state)

  -- A run does not read the `propose` of an answer to a retry: for two models that answer every first request
  -- alike, and every retry with the same automation, title, rationale and model name, one with `propose` and
  -- the other declining, the counters, the rows to insert and the patterns to mark are the same, for all
  -- groups and existing proposals.
  pub process_groups-retry_propose :
      (existing : Dict Status) (s : S) (groups : List ProposalGroup)
      → process_groups llm decode dump domains sun today now existing s groups
        ≡ process_groups other decode dump domains sun today now existing s groups
  unfolding process_groups
  process_groups-retry_propose existing s groups = process_from-same existing groups (start s)
