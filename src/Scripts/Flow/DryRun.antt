-- ===== src/Scripts/Flow/DryRun.antt =====
-- What the script that creates the weather helpers (ha/weather/helpers.py) calls.
use hass_ai.Prelude.{
  ℕ, zero, suc, String, true, Bool-cases, inl, inr, Option, none, some, List, [], ◌∷◌, ◌++◌, All,
  All-append, elem,
}
use hass_ai.Scripts.Flow.{
  Helper, Call, list_entries, start_flow, choose_menu, submit_form, abort_flow, FlowType, menu_type,
  form_type, created_type, other_type, FlowReply, Progress, Answers, on_reply, choose, round,
  rounds, drive, drive_flow, is_raised, create_missing, main,
}

-- The call does not submit a form, the only call that can make an entry.
abbrev pub IsHarmless : Call → Type 0
IsHarmless (submit_form flow_id data_) = ⊥
IsHarmless _ = Unit

-- What follows a call keeps the calls harmless.
abbrev Keeps : (FlowReply → List Call → Progress) → Type 0
Keeps then_ =
    (next : FlowReply) (after : List Call)
    → All IsHarmless after
    → All IsHarmless (then_ next after).calls

on_reply-IsHarmless :
    (reply : Option FlowReply) (flow : FlowReply) (calls : List Call)
    (then_ : FlowReply → List Call → Progress)
    → Keeps then_
    → All IsHarmless calls
    → All IsHarmless (on_reply reply flow calls (λ next. then_ next calls)).calls
on_reply-IsHarmless none flow calls then_ keep ok = ok
on_reply-IsHarmless (some next) flow calls then_ keep ok = keep next calls ok

module _ (answer : Answers) (h : Helper) where
  choose-IsHarmless :
      (o : Option String) (flow : FlowReply) (calls : List Call)
      (then_ : FlowReply → List Call → Progress)
      → Keeps then_
      → All IsHarmless calls
      → All IsHarmless (choose answer h true o flow calls then_).calls
  choose-IsHarmless none flow calls then_ keep ok = ok
  choose-IsHarmless (some m) flow calls then_ keep ok =
      let after = calls ++ choose_menu flow.flow_id m ∷ [] in
      on_reply-IsHarmless (answer after) flow after then_ keep
        (All-append IsHarmless calls (choose_menu flow.flow_id m ∷ []) ok (tt, tt))

  round-IsHarmless :
      (t : FlowType) (flow : FlowReply) (calls : List Call)
      (then_ : FlowReply → List Call → Progress)
      → Keeps then_
      → All IsHarmless calls
      → All IsHarmless (round answer h true t flow calls then_).calls
  round-IsHarmless menu_type flow calls then_ keep ok =
      choose-IsHarmless h.menu flow calls then_ keep ok
  round-IsHarmless form_type flow calls then_ keep ok = ok
  round-IsHarmless created_type flow calls then_ keep ok = ok
  round-IsHarmless (other_type kind) flow calls then_ keep ok = ok

  rounds-IsHarmless :
      (n : ℕ) (flow : FlowReply) (calls : List Call)
      → All IsHarmless calls
      → All IsHarmless (rounds answer h true n flow calls).calls
  unfolding rounds
  rounds-IsHarmless zero flow calls ok = ok
  rounds-IsHarmless (suc n) flow calls ok =
      round-IsHarmless flow.flow_type flow calls (λ next after. rounds answer h true n next after)
        (λ next after kept. rounds-IsHarmless n next after kept) ok

  drive-IsHarmless :
      (reply : Option FlowReply) (calls : List Call)
      → All IsHarmless calls
      → All IsHarmless (drive answer h true reply calls).1
  drive-IsHarmless none calls ok = ok
  drive-IsHarmless (some flow) calls ok =
      let p = rounds answer h true 6 flow calls in
      All-append IsHarmless p.calls (abort_flow p.flow.flow_id ∷ [])
        (rounds-IsHarmless 6 flow calls ok) (tt, tt)

  pub drive_flow-IsHarmless :
      (calls : List Call) → All IsHarmless calls → All IsHarmless (drive_flow answer h true calls).1
  unfolding drive_flow
  drive_flow-IsHarmless calls ok =
      let after = calls ++ start_flow h.handler ∷ [] in
      drive-IsHarmless (answer after) after
        (All-append IsHarmless calls (start_flow h.handler ∷ []) ok (tt, tt))

create_missing-IsHarmless :
    (answer : Answers) (have : List String) (hs : List Helper) (calls : List Call)
    → All IsHarmless calls
    → All IsHarmless (create_missing answer true have hs calls)
unfolding create_missing
create_missing-IsHarmless answer have [] calls ok = ok
create_missing-IsHarmless answer have (h ∷ hs) calls ok =
    let driven = drive_flow answer h true calls in
    let kept = drive_flow-IsHarmless answer h calls ok in
    elim (Bool-cases (elem h.title have)) [
      | inl there ↦ rw there (create_missing-IsHarmless answer have hs calls ok)
      | inr new ↦ elim (Bool-cases (is_raised driven.0)) [
        | inl stop ↦ rw (new, stop) kept
        | inr go ↦ rw (new, go) (create_missing-IsHarmless answer have hs driven.1 kept)
      ]
    ]

-- Whatever Home Assistant answers, exceptions included, a dry run over any helpers submits no form.
pub main-IsHarmless :
    (answer : Answers) (titles : Option (List String)) (helpers : List Helper)
    → All IsHarmless (main answer titles true helpers)
unfolding main
main-IsHarmless answer none helpers = (tt, tt)
main-IsHarmless answer (some have) helpers =
    create_missing-IsHarmless answer have helpers (list_entries ∷ []) (tt, tt)
