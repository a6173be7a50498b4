-- ===== src/Scripts/Tablet/Settled.antt =====
-- What a second run of ha/basement_tablet/helpers.py does.
use hass_ai.Prelude.{
  ℕ, String, Bool, true, false, some, List, [], ◌∷◌, ◌++◌, All, elem, ◌≡◌, refl, nat_eq, arith,
}
use hass_ai.Scripts.Flow.{Helper, Call, list_entries, Answers}
use hass_ai.Scripts.Tablet.{
  auth, list_input_numbers, flow_call, write_automation, Message, auth_ok, other_message, result,
  await_result, input_number_name, ensure_input_number, light_groups, create_groups,
  ensure_light_groups, ensure_automations, main,
}

-- Not a result of the call with the id.
abbrev pub IsNoise : ℕ → Message → Type 0
IsNoise n (result id success names) = nat_eq id n ≡ false
IsNoise n _ = Unit

await_result-noise :
    (n : ℕ) (noise : List Message) (names : List String) (ms : List Message)
    → All (IsNoise n) noise
    → await_result n (noise ++ result n true names ∷ ms) ≡ some (names, ms)
unfolding await_result
await_result-noise n [] names ms ok = let same : nat_eq n n ≡ true = ground arith in rw same refl
await_result-noise n (auth_ok ∷ noise) names ms ok = await_result-noise n noise names ms ok.1
await_result-noise n (other_message ∷ noise) names ms ok = await_result-noise n noise names ms ok.1
await_result-noise n (result id success others ∷ noise) names ms ok =
    rw ok.0 (await_result-noise n noise names ms ok.1)

create_groups-settled :
    (answer : Answers) (have : List String) (hs : List Helper) (calls : List Call)
    → All (λ h. elem h.title have ≡ true) hs
    → create_groups answer false have hs calls ≡ (true, calls)
unfolding create_groups
create_groups-settled answer have [] calls there = refl
create_groups-settled answer have (h ∷ hs) calls there =
    rw there.0 (create_groups-settled answer have hs calls there.1)

-- Where the slider is among the input numbers that Home Assistant lists, both groups are among its entries and
-- both automations are accepted, a run creates nothing: it reads the two lists and writes the automations
-- under their fixed ids, whatever other messages come before the list.
pub main-settled :
    (first : Message) (noise ms : List Message) (names have : List String) (answer : Answers)
    (accepted : String → Bool)
    → All (IsNoise 1) noise
    → elem input_number_name names ≡ true
    → All (λ h. elem h.title have ≡ true) light_groups
    → accepted "basement_cans_rows_apply" ≡ true
    → accepted "basement_cans_rows_sync" ≡ true
    → main true false
        (some (first ∷ auth_ok ∷ noise ++ result 1 true names ∷ ms))
        answer
        (some have)
        accepted
      ≡ auth
        ∷ list_input_numbers
        ∷ flow_call list_entries
        ∷ write_automation "basement_cans_rows_apply"
        ∷ write_automation "basement_cans_rows_sync"
        ∷ []
unfolding main ensure_input_number ensure_light_groups ensure_automations
main-settled first noise ms names have answer accepted other listed there apply_ok sync_ok =
    let found = await_result-noise 1 noise names ms other in
    let settled = create_groups-settled answer have light_groups (list_entries ∷ []) there in
    rw (found, listed, settled, apply_ok, sync_ok) refl
