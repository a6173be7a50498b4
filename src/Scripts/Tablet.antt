-- ===== src/Scripts/Tablet.antt =====
-- The script that creates the tablet's helpers and automations: ha/basement_tablet/helpers.py. What Home
-- Assistant answers is a parameter: the messages that the WebSocket delivers until it closes, the answers of
-- Scripts.Flow to the config flows (its drive_flow is that of ha/weather/helpers.py), and whether an
-- automation is accepted. Each part has a Boolean that says whether it ends without an exit or an exception;
-- what is printed is not modelled.
pub mod DryRun
pub mod Settled
use hass_ai.Prelude.{
  ℕ, String, Bool, true, false, Option, none, some, List, [], ◌∷◌, ◌++◌, map, elem, nat_eq, is_some,
  if◌then◌else◌,
}
use hass_ai.Db.Models.{Items, text, boolean, object, array, done, field, end, item}
use hass_ai.Scripts.Flow.{Helper, Call, list_entries, Answers, drive_flow, is_raised}

pub data Sent : Type 0 where
  auth list_input_numbers create_input_number : Sent
  flow_call : Call → Sent
  write_automation : String → Sent

-- A message that is received: one of type auth_ok, a result with its id, its success and the names of the
-- items that it lists, or another.
pub data Message : Type 0 where
  auth_ok other_message : Message
  result : ℕ → Bool → List String → Message

abbrev pub input_number_name : String
input_number_name = "Basement cans rows"

-- The loop of `call`, over the messages that are left: none where the result is refused or the connection ends.
unfoldable pub await_result : ℕ → List Message → Option (List String × List Message)
await_result n [] = none
await_result n (auth_ok ∷ ms) = await_result n ms
await_result n (other_message ∷ ms) = await_result n ms
await_result n (result id success names ∷ ms) =
    let later = await_result n ms in
    if nat_eq id n then (if success then some (names, ms) else none) else later

-- From the answer to input_number/list on.
abbrev pub create_unless_listed : Bool → Option (List String × List Message) → Bool × List Sent
create_unless_listed dry_run none = (false, auth ∷ list_input_numbers ∷ [])
create_unless_listed dry_run (some (names, ms)) =
    if elem input_number_name names
    then (true, auth ∷ list_input_numbers ∷ [])
    else if dry_run
    then (true, auth ∷ list_input_numbers ∷ [])
    else (is_some (await_result 2 ms), auth ∷ list_input_numbers ∷ create_input_number ∷ [])

-- ensure_input_number, where the connection delivers the messages; none where it is not made.
unfoldable pub ensure_input_number : Bool → Option (List Message) → Bool × List Sent
unfolding await_result
ensure_input_number dry_run none = (false, [])
ensure_input_number dry_run (some []) = (false, [])
ensure_input_number dry_run (some (m ∷ [])) = (false, auth ∷ [])
ensure_input_number dry_run (some (m ∷ auth_ok ∷ ms)) =
    create_unless_listed dry_run (await_result 1 ms)
ensure_input_number dry_run (some (m ∷ other_message ∷ ms)) = (false, auth ∷ [])
ensure_input_number dry_run (some (m ∷ result id success names ∷ ms)) = (false, auth ∷ [])

-- A list of entities as JSON.
abbrev items : List String → Items
items [] = end
items (e ∷ es) = item (text e) (items es)

abbrev pub group_flow : String → List String → Helper
group_flow title members = record {
  handler = "group";
  title = title;
  menu = some "light";
  steps =
      (
        "light",
        object (
            field "name" (text title) (
              field "entities" (array (items members))
                (field "hide_members" (boolean false) (field "all" (boolean false) done)))),
      )
      ∷ [];
}

-- LIGHT_GROUPS
abbrev pub light_groups : List Helper
light_groups =
    group_flow "Basement Foyer" ("light.bathroom_foyer_a" ∷ "light.bathroom_foyer_b" ∷ [])
    ∷ group_flow "Game Room Ceiling" ("light.game_ceiling_front" ∷ "light.game_ceiling_rear" ∷ [])
    ∷ []

-- The loop of ensure_light_groups over the groups, with the calls that were made before.
unfoldable pub create_groups :
    Answers → Bool → List String → List Helper → List Call → Bool × List Call
unfolding drive_flow
create_groups answer dry_run have [] calls = (true, calls)
create_groups answer dry_run have (h ∷ hs) calls =
    let skipped = create_groups answer dry_run have hs calls in
    let driven = drive_flow answer h dry_run calls in
    let later = create_groups answer dry_run have hs driven.1 in
    if elem h.title have then skipped else if is_raised driven.0 then (false, driven.1) else later

-- ensure_light_groups, where existing_titles comes to the titles or an exception.
unfoldable pub ensure_light_groups : Answers → Bool → Option (List String) → Bool × List Call
unfolding create_groups
ensure_light_groups answer dry_run none = (false, list_entries ∷ [])
ensure_light_groups answer dry_run (some have) =
    create_groups answer dry_run have light_groups (list_entries ∷ [])

abbrev write_automations : (String → Bool) → List String → List Sent
write_automations accepted [] = []
write_automations accepted (id ∷ ids) =
    let later = write_automations accepted ids in
    write_automation id ∷ (if accepted id then later else [])

-- ensure_automations
unfoldable pub ensure_automations : Bool → (String → Bool) → List Sent
ensure_automations dry_run accepted =
    if dry_run
    then []
    else write_automations accepted ("basement_cans_rows_apply" ∷ "basement_cans_rows_sync" ∷ [])

-- The next part runs where the one before ends.
abbrev pub and_then : Bool × List Sent → List Sent → List Sent
and_then (true, sent) later = sent ++ later
and_then (false, sent) later = sent

-- `main`, by whether HA_TOKEN is set.
unfoldable pub main :
    Bool
    → Bool
    → Option (List Message)
    → Answers
    → Option (List String)
    → (String → Bool)
    → List Sent
unfolding ensure_input_number ensure_light_groups ensure_automations
main token dry_run inbox answer titles accepted =
    let groups = ensure_light_groups answer dry_run titles in
    if token
    then and_then (ensure_input_number dry_run inbox)
        (and_then (groups.0, map (λ c. flow_call c) groups.1) (ensure_automations dry_run accepted))
    else []
