-- ===== src/Tests/Scripting.antt =====
-- The theorems of the scripts, where they are used.
use hass_ai.Prelude.{◌≡◌, refl, true, false, none, some, Option, List, [], ◌∷◌, All, arith, lookup}
use hass_ai.Db.Models.{text, object, done}
use hass_ai.Scripts.Rows.{rendered_value, apply_slider, rendered_value-apply_slider}
use hass_ai.Scripts.Flow.{
  Helper, Call, list_entries, start_flow, choose_menu, submit_form, abort_flow, FlowReply,
  menu_type, form_type, Answers, main,
}
use hass_ai.Scripts.Tablet.{
  other_message, auth_ok, result, auth, list_input_numbers, create_input_number, flow_call,
}
use hass_ai.Scripts.Tablet.{main as tablet_main}
use hass_ai.Scripts.Tablet.DryRun.{IsReading, main-IsReading}
use hass_ai.Scripts.Deploy.{create_dashboard, save_config, deploy_weather}
use hass_ai.Scripts.Deploy.{auth as deploy_auth, list_dashboards}
use hass_ai.Scripts.Discovery.{Config, publish_configs, remove_configs}
use hass_ai.Scripts.Discovery.{main as publish_main}
use hass_ai.Scripts.Discovery.Broker.{remove-publish}

-- All lights are on, and the slider is moved to 2.
rendered_value-apply_slider_example : rendered_value (apply_slider 2 (λ e. true)) ≡ 2
rendered_value-apply_slider_example = rendered_value-apply_slider 2 (λ e. true) (omega arith)

abbrev dewpoint : Helper
dewpoint = record {
  handler = "template";
  title = "Davis dewpoint";
  menu = some "sensor";
  steps = ("sensor", object done) ∷ [];
}

abbrev reply : Call → Option FlowReply
reply (start_flow handler) =
    some (record { flow_id = "f"; flow_type = menu_type; step_id = "user"; errors = false })
reply (choose_menu flow_id choice) =
    some (record { flow_id = "f"; flow_type = form_type; step_id = "sensor"; errors = false })
reply _ = none

-- A menu, then a form.
abbrev wizard : Answers
wizard [] = none
wizard (c ∷ []) = reply c
wizard (c ∷ d ∷ cs) = wizard (d ∷ cs)

-- A state that is announced before the list, one group that exists, and a form for the other.
main-IsReading_example : All IsReading (
    tablet_main true true
      (some (other_message ∷ auth_ok ∷ other_message ∷ result 1 true [] ∷ []))
      wizard
      (some ("Basement Foyer" ∷ []))
      (λ id. true))
main-IsReading_example =
    main-IsReading true (some (other_message ∷ auth_ok ∷ other_message ∷ result 1 true [] ∷ []))
      wizard (some ("Basement Foyer" ∷ [])) (λ id. true)

dry_run_calls :
    main wizard (some ("Davis feels like" ∷ [])) true (dewpoint ∷ [])
    ≡ list_entries ∷ start_flow "template" ∷ choose_menu "f" "sensor" ∷ abort_flow "f" ∷ []
unfolding main
dry_run_calls = refl

-- The same without the option: the slider is created, and the answer to the form never comes.
real_run_sent :
    tablet_main true false
      (some (other_message ∷ auth_ok ∷ result 1 true [] ∷ result 2 true [] ∷ []))
      wizard
      (some ("Basement Foyer" ∷ []))
      (λ id. true)
    ≡ auth
      ∷ list_input_numbers
      ∷ create_input_number
      ∷ flow_call list_entries
      ∷ flow_call (start_flow "group")
      ∷ flow_call (choose_menu "f" "light")
      ∷ flow_call (submit_form "f" (object done))
      ∷ []
unfolding tablet_main lookup
real_run_sent = refl

abbrev two_configs : List Config
two_configs =
    record { topic = "homeassistant/sensor/a/config"; payload = text "a" }
    ∷ record { topic = "homeassistant/sensor/b/config"; payload = text "b" }
    ∷ []

remove-publish_example :
    lookup "other/topic" (
      publish_main
        (λ j. "{}")
        remove_configs
        two_configs
        (publish_main (λ j. "{}") publish_configs two_configs (("other/topic", "kept") ∷ [])))
    ≡ some "kept"
unfolding lookup
remove-publish_example =
    remove-publish (λ j. "{}") "other/topic" two_configs (("other/topic", "kept") ∷ [])

-- The dashboard is missing, and its creation succeeds after another message.
deployed :
    deploy_weather (object done) (
      some (
        other_message
        ∷ auth_ok
        ∷ result 1 true ("energy" ∷ [])
        ∷ other_message
        ∷ result 2 true []
        ∷ []))
    ≡ deploy_auth
      ∷ list_dashboards
      ∷ create_dashboard "weather-station"
      ∷ save_config "weather-station" (object done)
      ∷ []
unfolding deploy_weather
deployed = refl
