-- ===== src/Scripts/Flow.antt =====
-- The script that creates the weather helpers: ha/weather/helpers.py. The answers of Home Assistant are a
-- parameter, a function of all calls so far with the new one last; what is printed is not modelled.
pub mod DryRun
pub mod Calls
use hass_ai.Prelude.{
  ℕ, zero, suc, String, Bool, true, false, not, Option, none, some, List, [], ◌∷◌, ◌++◌, elem,
  str_eq, opt_eq, Dict, lookup, is_some, if◌then◌else◌,
}
use hass_ai.Db.Models.{Json, object, done}

pub record Helper : Type 0 where
  pub handler : String
  pub title : String
  pub menu : Option String
  pub steps : Dict Json

-- The calls of `api` by their path and body.
pub data Call : Type 0 where
  list_entries : Call
  start_flow : String → Call
  choose_menu : String → String → Call
  submit_form : String → Json → Call
  abort_flow : String → Call

pub data FlowType : Type 0 where
  menu_type form_type created_type : FlowType
  other_type : String → FlowType

-- The flow that a call answers; `errors` says whether there are some.
pub record FlowReply : Type 0 where
  pub flow_id : String
  pub flow_type : FlowType
  pub step_id : String
  pub errors : Bool

pub data Outcome : Type 0 where
  dry_run_ok created did_not_converge : Outcome
  form_errors unexpected_type : Outcome
  -- An exception of a call, or a menu that the helper does not have.
  raised : Outcome

-- What a flow came to, the last flow that was read, and the calls so far.
pub record Progress : Type 0 where
  pub outcome : Outcome
  pub flow : FlowReply
  pub calls : List Call

abbrev pub progress : Outcome → FlowReply → List Call → Progress
progress o flow calls = record { outcome = o; flow = flow; calls = calls }

-- helper["steps"][step], or {} for a step that it does not have.
abbrev pub step_data : Helper → String → Json
step_data h step = elim (lookup step h.steps) [ none ↦ object done | some data_ ↦ data_ ]

-- Home Assistant's answer to the last of the calls; none is an exception.
abbrev pub Answers : Type 0
Answers = List Call → Option FlowReply

-- The call raises, or the loop goes on with the flow that it answers.
abbrev pub on_reply : Option FlowReply → FlowReply → List Call → (FlowReply → Progress) → Progress
on_reply none flow calls then_ = progress raised flow calls
on_reply (some next) flow calls then_ = then_ next

module _ (answer : Answers) (h : Helper) (dry_run : Bool) where
  -- A `menu` step.
  abbrev pub choose :
      Option String → FlowReply → List Call → (FlowReply → List Call → Progress) → Progress
  choose none flow calls then_ = progress raised flow calls
  choose (some m) flow calls then_ =
      let after = calls ++ choose_menu flow.flow_id m ∷ [] in
      on_reply (answer after) flow after (λ next. then_ next after)

  -- A `form` step.
  abbrev pub fill : Bool → FlowReply → List Call → (FlowReply → List Call → Progress) → Progress
  fill true flow calls then_ = progress dry_run_ok flow calls
  fill false flow calls then_ =
      let after = calls ++ submit_form flow.flow_id (step_data h flow.step_id) ∷ [] in
      on_reply (answer after) flow after
        (λ next. if next.errors then progress form_errors next after else then_ next after)

  -- The body of the loop, by flow["type"].
  abbrev pub round :
      FlowType → FlowReply → List Call → (FlowReply → List Call → Progress) → Progress
  round menu_type flow calls then_ = choose h.menu flow calls then_
  round form_type flow calls then_ = fill dry_run flow calls then_
  round created_type flow calls then_ = progress created flow calls
  round (other_type kind) flow calls then_ = progress unexpected_type flow calls

  -- The loop, with as many rounds as the number says.
  unfoldable pub rounds : ℕ → FlowReply → List Call → Progress
  rounds zero flow calls = progress did_not_converge flow calls
  rounds (suc n) flow calls = round flow.flow_type flow calls (λ next after. rounds n next after)

  -- The `finally` block: in a dry run the flow is aborted, and an exception of that is passed over.
  abbrev pub finish : Progress → Outcome × List Call
  finish p = (p.outcome, if dry_run then p.calls ++ abort_flow p.flow.flow_id ∷ [] else p.calls)

  -- The first call stands before the `try`.
  abbrev pub drive : Option FlowReply → List Call → Outcome × List Call
  drive none calls = (raised, calls)
  drive (some flow) calls = finish (rounds 6 flow calls)

  unfoldable pub drive_flow : List Call → Outcome × List Call
  unfolding rounds
  drive_flow calls = let after = calls ++ start_flow h.handler ∷ [] in drive (answer after) after

-- The loop of `main` over HELPERS: the calls that are made. An exception ends it.
abbrev pub is_raised : Outcome → Bool
is_raised raised = true
is_raised _ = false

unfoldable pub create_missing : Answers → Bool → List String → List Helper → List Call → List Call
unfolding drive_flow
create_missing answer dry_run have [] calls = calls
create_missing answer dry_run have (h ∷ hs) calls =
    let skipped = create_missing answer dry_run have hs calls in
    let driven = drive_flow answer h dry_run calls in
    let later = create_missing answer dry_run have hs driven.1 in
    if elem h.title have then skipped else if is_raised driven.0 then driven.1 else later

-- `main`, where existing_titles comes to the titles or an exception.
unfoldable pub main : Answers → Option (List String) → Bool → List Helper → List Call
unfolding create_missing
main answer none dry_run helpers = list_entries ∷ []
main answer (some have) dry_run helpers =
    create_missing answer dry_run have helpers (list_entries ∷ [])
