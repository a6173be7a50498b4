-- ===== src/Scripts/Tablet/DryRun.antt =====
-- What a run of ha/basement_tablet/helpers.py changes in Home Assistant.
use hass_ai.Prelude.{
  String, Bool, true, false, Bool-cases, inl, inr, Option, none, some, List, [], ◌∷◌, map, All,
  All-append, elem,
}
use hass_ai.Scripts.Flow.{Helper, Call, list_entries, Answers, drive_flow, is_raised}
use hass_ai.Scripts.Flow.DryRun.{IsHarmless, drive_flow-IsHarmless}
use hass_ai.Scripts.Tablet.{
  Sent, auth, list_input_numbers, create_input_number, flow_call, write_automation, Message,
  auth_ok, other_message, result, await_result, input_number_name, create_unless_listed,
  ensure_input_number, light_groups, create_groups, ensure_light_groups, ensure_automations,
  and_then, main,
}

-- The message creates and writes nothing: no input number, no submitted form, no automation.
abbrev pub IsReading : Sent → Type 0
IsReading auth = Unit
IsReading list_input_numbers = Unit
IsReading create_input_number = ⊥
IsReading (flow_call c) = IsHarmless c
IsReading (write_automation id) = ⊥

create_unless_listed-IsReading :
    (o : Option (List String × List Message)) → All IsReading (create_unless_listed true o).1
create_unless_listed-IsReading none = (tt, (tt, tt))
create_unless_listed-IsReading (some (names, ms)) =
    elim (Bool-cases (elem input_number_name names)) [
      | inl there ↦ rw there (tt, (tt, tt))
      | inr new ↦ rw new (tt, (tt, tt))
    ]

ensure_input_number-IsReading :
    (inbox : Option (List Message)) → All IsReading (ensure_input_number true inbox).1
unfolding ensure_input_number
ensure_input_number-IsReading none = tt
ensure_input_number-IsReading (some []) = tt
ensure_input_number-IsReading (some (m ∷ [])) = (tt, tt)
ensure_input_number-IsReading (some (m ∷ auth_ok ∷ ms)) =
    create_unless_listed-IsReading (await_result 1 ms)
ensure_input_number-IsReading (some (m ∷ other_message ∷ ms)) = (tt, tt)
ensure_input_number-IsReading (some (m ∷ result id success names ∷ ms)) = (tt, tt)

create_groups-IsHarmless :
    (answer : Answers) (have : List String) (hs : List Helper) (calls : List Call)
    → All IsHarmless calls
    → All IsHarmless (create_groups answer true have hs calls).1
unfolding create_groups
create_groups-IsHarmless answer have [] calls ok = ok
create_groups-IsHarmless answer have (h ∷ hs) calls ok =
    let driven = drive_flow answer h true calls in
    let kept = drive_flow-IsHarmless answer h calls ok in
    elim (Bool-cases (elem h.title have)) [
      | inl there ↦ rw there (create_groups-IsHarmless answer have hs calls ok)
      | inr new ↦ elim (Bool-cases (is_raised driven.0)) [
        | inl stop ↦ rw (new, stop) kept
        | inr go ↦ rw (new, go) (create_groups-IsHarmless answer have hs driven.1 kept)
      ]
    ]

ensure_light_groups-IsHarmless :
    (answer : Answers) (titles : Option (List String))
    → All IsHarmless (ensure_light_groups answer true titles).1
unfolding ensure_light_groups
ensure_light_groups-IsHarmless answer none = (tt, tt)
ensure_light_groups-IsHarmless answer (some have) =
    create_groups-IsHarmless answer have light_groups (list_entries ∷ []) (tt, tt)

flow_calls-IsReading :
    (calls : List Call) → All IsHarmless calls → All IsReading (map (λ c. flow_call c) calls)
flow_calls-IsReading [] ok = tt
flow_calls-IsReading (c ∷ cs) ok = (ok.0, flow_calls-IsReading cs ok.1)

and_then-IsReading :
    (first : Bool × List Sent) (later : List Sent)
    → All IsReading first.1
    → All IsReading later
    → All IsReading (and_then first later)
and_then-IsReading (true, sent) later ok rest = All-append IsReading sent later ok rest
and_then-IsReading (false, sent) later ok rest = ok

-- A dry run creates no input number, submits no form and writes no automation, whatever Home Assistant delivers
-- and answers, refusals, exceptions and a lost connection included.
pub main-IsReading :
    (token : Bool) (inbox : Option (List Message)) (answer : Answers)
    (titles : Option (List String)) (accepted : String → Bool)
    → All IsReading (main token true inbox answer titles accepted)
unfolding main ensure_automations
main-IsReading false inbox answer titles accepted = tt
main-IsReading true inbox answer titles accepted =
    let groups = ensure_light_groups answer true titles in
    and_then-IsReading (ensure_input_number true inbox) _ (ensure_input_number-IsReading inbox) (
      and_then-IsReading (groups.0, map (λ c. flow_call c) groups.1) []
        (flow_calls-IsReading groups.1 (ensure_light_groups-IsHarmless answer titles)) tt)
