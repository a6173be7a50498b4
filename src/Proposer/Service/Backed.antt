-- ===== src/Proposer/Service/Backed.antt =====
-- The answers behind the rows that `_process_groups` of src/pae/proposer/service.py stores.
use hass_ai.Prelude.{
  sym, append-eq-nil, Bool-cases, ◌∙◌, ℕ, String, ◌≡◌, refl, ap, true, Option, none, some, List, [],
  ◌∷◌, map, arith, Dict, inl, inr,
}
use hass_ai.Db.Models.{null, boolean, number, text, array, object, Json, Fields, Status}
use hass_ai.Proposer.Group.{ProposalGroup}
use hass_ai.Proposer.Schema.Automation.{Automation}
use hass_ai.Proposer.Validate.{Message, SunMinutes, validate_proposal}
use hass_ai.Proposer.Service.{
  about, is_true, Complaint, Request, Response, Llm, get_field, automation_of, content_field_errors,
  is_text, text_of, Draft, propose, examine, draft, accept, second, judge_first, first, decide,
}

map-eq-nil : (ms : List Message) → map about ms ≡ [] → ms ≡ []
map-eq-nil [] h = refl
map-eq-nil (m ∷ ms) h = cc

content_field_errors-nil :
    (content : Fields)
    → content_field_errors content ≡ []
    → (is_text (get_field "title" content) ≡ true)
      × (is_text (get_field "rationale" content) ≡ true)
unfolding content_field_errors
content_field_errors-nil content h = ground arith

text_of_lem : (o : Option Json) → is_text o ≡ true → o ≡ some (text (text_of o))
text_of_lem none h = cc
text_of_lem (some (text s)) h = refl
text_of_lem (some null) h = cc
text_of_lem (some (boolean b)) h = cc
text_of_lem (some (number n)) h = cc
text_of_lem (some (array a)) h = cc
text_of_lem (some (object f)) h = cc

module _ {S : Type 0} (llm : Llm S) (decode : Json → Option Automation) (dump : Automation → Json)
    (domains : Dict String) (sun : Option SunMinutes) (today now : ℕ) where
  -- The model gave the response to a request about the group, in one of its states.
  pub record IsAnswer (g : ProposalGroup) (response : Response) : Type 0 where
    pub asked : S
    pub request : Request
    pub about_group : request.group ≡ g
    pub answered : (llm asked request).1 ≡ some response

  -- A stored row comes from an answer of the model that nobody complained about.
  pub record Backed (g : ProposalGroup) (d : Draft) : Type 0 where
    pub response : Response
    pub answer : IsAnswer g response
    pub automation : Automation
    pub accepted :
        validate_proposal decode g domains sun today (automation_of response.content)
        ≡ (some automation, [])
    pub titled : get_field "title" response.content ≡ some (text d.title)
    pub explained : get_field "rationale" response.content ≡ some (text d.rationale)
    pub readable :
        (is_text (some (text d.title)) ≡ true) × (is_text (some (text d.rationale)) ≡ true)
    pub dumped : (d.automation_json ≡ dump automation) × (d.model_name ≡ response.model)
    pub stored : d ≡ draft llm decode dump domains sun today now g response automation

  accept-Backed :
      (g : ProposalGroup) (resp : Response) (e : Option Automation × List Complaint) (d : Draft)
      → IsAnswer g resp
      → examine llm decode dump domains sun today now g resp.content ≡ e
      → accept llm decode dump domains sun today now g resp e ≡ propose d
      → Backed g d
  unfolding examine
  accept-Backed g resp (some a, []) d from x h =
      let r = validate_proposal decode g domains sun today (automation_of resp.content) in
      let (no_message, no_field) =
        append-eq-nil (map about r.1) (content_field_errors resp.content)
          (ap (λ (t : Option Automation × List Complaint). t.1) x) in
      let (titled, explained) = content_field_errors-nil resp.content no_field in
      let same : d ≡ draft llm decode dump domains sun today now g resp a = ground arith in
      let title : get_field "title" resp.content ≡ some (text d.title) =
        text_of_lem _ titled ∙ ap (λ (e : Draft). some (text e.title)) (sym same) in
      let rationale : get_field "rationale" resp.content ≡ some (text d.rationale) =
        text_of_lem _ explained ∙ ap (λ (e : Draft). some (text e.rationale)) (sym same) in
      record {
        response = resp;
        answer = from;
        automation = a;
        accepted = λ i. (
          (ap (λ (t : Option Automation × List Complaint). t.0) x) i,
          map-eq-nil r.1 no_message i,
        );
        titled = title;
        explained = rationale;
        readable = (ap is_text (sym title) ∙ titled, ap is_text (sym rationale) ∙ explained);
        dumped =
            (ap (λ (e : Draft). e.automation_json) same, ap (λ (e : Draft). e.model_name) same);
        stored = same;
      }
  accept-Backed g resp (none, []) d from x h = cc
  accept-Backed g resp (some a, e ∷ es) d from x h = cc
  accept-Backed g resp (none, e ∷ es) d from x h = cc

  answer-IsAnswer :
      (g : ProposalGroup) (s : S) (errors : List Complaint) (resp : Response)
      → (llm s (record { group = g; feedback = errors })).1 ≡ some resp
      → IsAnswer g resp
  answer-IsAnswer g s errors resp h = record {
    asked = s;
    request = record { group = g; feedback = errors };
    about_group = refl;
    answered = h;
  }

  second-Backed :
      (g : ProposalGroup) (o : Option Response) (d : Draft)
      → ((resp : Response) → o ≡ some resp → IsAnswer g resp)
      → second llm decode dump domains sun today now g o ≡ propose d
      → Backed g d
  second-Backed g none d from h = cc
  second-Backed g (some resp) d from h = accept-Backed g resp _ d (from resp refl) refl h

  judge_first-Backed :
      (g : ProposalGroup) (resp : Response) (s : S) (e : Option Automation × List Complaint)
      (d : Draft)
      → IsAnswer g resp
      → examine llm decode dump domains sun today now g resp.content ≡ e
      → (judge_first llm decode dump domains sun today now g resp s e).1 ≡ propose d
      → Backed g d
  judge_first-Backed g resp s (o, []) d from x h = accept-Backed g resp (o, []) d from x h
  judge_first-Backed g resp s (o, e ∷ es) d from x h =
      second-Backed g (llm s (record { group = g; feedback = e ∷ es })).1 d
        (answer-IsAnswer g s (e ∷ es)) h

  first-Backed :
      (g : ProposalGroup) (s : S) (o : Option Response) (d : Draft)
      → ((resp : Response) → o ≡ some resp → IsAnswer g resp)
      → (first llm decode dump domains sun today now g s o).1 ≡ propose d
      → Backed g d
  first-Backed g s none d from h = cc
  first-Backed g s (some resp) d from h =
      elim (Bool-cases (is_true (get_field "propose" resp.content))) [
        | inl yes_please ↦
            judge_first-Backed g resp s _ d (from resp refl) refl (rw yes_please at h)
        | inr declined ↦ absurd (ground (arith, declined))
      ]

  pub decide-Backed :
      (g : ProposalGroup) (o : Option Status) (s : S) (d : Draft)
      → (decide llm decode dump domains sun today now g o s).1 ≡ propose d
      → (o ≡ none) × Backed g d
  unfolding decide
  decide-Backed g none s d h = (
    refl,
    first-Backed g (llm s (record { group = g; feedback = [] })).0
        (llm s (record { group = g; feedback = [] })).1 d (answer-IsAnswer g s []) h,
  )
  decide-Backed g (some Status.rejected) s d h = cc
  decide-Backed g (some Status.shadowing) s d h = cc
  decide-Backed g (some Status.approved) s d h = cc
  decide-Backed g (some Status.stale) s d h = cc
