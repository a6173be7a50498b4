-- ===== src/Scripts/Deploy.antt =====
-- The scripts that upload the dashboards: ha/weather/deploy_dashboard.py and
-- ha/basement_tablet/deploy_dashboard.py. The messages that the WebSocket delivers are a parameter, as in
-- Scripts.Tablet, whose await_result is the same loop; a result lists the url paths. What is printed, and the
-- reading of dashboard.json, are not modelled.
pub mod Placed
use hass_ai.Prelude.{
  String, Bool, true, false, Option, none, some, List, [], ◌∷◌, ◌++◌, elem, if◌then◌else◌,
}
use hass_ai.Db.Models.{Json}
use hass_ai.Scripts.Tablet.{Message, auth_ok, other_message, result, await_result}

pub data Sent : Type 0 where
  auth list_dashboards : Sent
  create_dashboard : String → Sent
  save_config : String → Json → Sent

-- From the creation on, where the dashboard is missing: the config is saved if its result is a success.
abbrev pub after_create : String → Json → Option (List String × List Message) → List Sent
after_create url config none = create_dashboard url ∷ []
after_create url config (some r) = create_dashboard url ∷ save_config url config ∷ []

-- From the answer to lovelace/dashboards/list on.
abbrev pub after_dashboards : Bool → String → Json → Option (List String × List Message) → List Sent
after_dashboards dry_run url config none = []
after_dashboards dry_run url config (some (urls, ms)) =
    if dry_run
    then []
    else if elem url urls
    then save_config url config ∷ []
    else after_create url config (await_result 2 ms)

-- What `main` sends of the one script and the other.
unfoldable pub deploy : Bool → String → Json → Option (List Message) → List Sent
unfolding await_result
deploy dry_run url config none = []
deploy dry_run url config (some []) = []
deploy dry_run url config (some (m ∷ [])) = auth ∷ []
deploy dry_run url config (some (m ∷ auth_ok ∷ ms)) =
    auth ∷ list_dashboards ∷ after_dashboards dry_run url config (await_result 1 ms)
deploy dry_run url config (some (m ∷ other_message ∷ ms)) = auth ∷ []
deploy dry_run url config (some (m ∷ result id success urls ∷ ms)) = auth ∷ []

-- `main` for the weather station has no option.
unfoldable pub deploy_weather : Json → Option (List Message) → List Sent
unfolding deploy
deploy_weather config inbox = deploy false "weather-station" config inbox

unfoldable pub deploy_tablet : Bool → Json → Option (List Message) → List Sent
unfolding deploy
deploy_tablet dry_run config inbox = deploy dry_run "basement-tablet" config inbox
