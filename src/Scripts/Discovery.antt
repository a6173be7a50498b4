-- ===== src/Scripts/Discovery.antt =====
-- The script that publishes the discovery configs of the weather station: ha/weather/discovery.py. The
-- broker is the retained bodies by topic, as MQTT keeps them: an empty body removes one. `json.dumps` is a
-- parameter; the connection and what is printed are not modelled.
pub mod Sensors
pub mod Broker
use Prim.Native.String.{◌++◌ as append}
use hass_ai.Prelude.{
  ℕ, String, Bool, true, false, not, Option, none, some, List, [], ◌∷◌, ◌++◌, map, filter, any,
  str_eq, Dict, if◌then◌else◌,
}
use hass_ai.Db.Models.{Json, number, text, object, Fields, done, field}
use hass_ai.Scripts.Discovery.Sensors.{
  Sensor, base_topic, discovery_prefix, node_id, expire_after_s, device, sensors, binary_sensors,
}

pub record Config : Type 0 where
  pub topic : String
  pub payload : Json

-- entry.pop("expire_after", EXPIRE_AFTER_S)
abbrev expire_of : Option (Option ℕ) → Option ℕ
expire_of none = some expire_after_s
expire_of (some e) = e

-- The other keys of the entry, then `expire_after` if there is one.
abbrev with_expire : Fields → Option ℕ → Fields
with_expire done none = done
with_expire done (some n) = field "expire_after" (number n) done
with_expire (field k v fs) e = field k v (with_expire fs e)

-- The body of the inner loop.
abbrev pub config_of : String → Sensor → Config
config_of component s = record {
  topic = append discovery_prefix (
      append "/" (
        append component
          (append "/" (append node_id (append "/" (append s.object_id "/config"))))));
  payload = object (
      field "name" (text s.name) (
        field "unique_id" (text s.object_id) (
          field "object_id" (text s.object_id) (
            field "state_topic" (text (append base_topic (append "/" s.topic)))
              (field "device" device (with_expire s.others (expire_of s.expire_after)))))));
}

unfoldable pub build_configs : List Config
build_configs = map (config_of "sensor") sensors ++ map (config_of "binary_sensor") binary_sensors

-- The retained body of a topic after a publish.
unfoldable pub publish : String → String → Dict String → Dict String
publish topic body retained =
    let others = filter (λ entry. not (str_eq entry.0 topic)) retained in
    if str_eq body "" then others else (topic, body) ∷ others

unfoldable pub publish_all : (Json → String) → Bool → List Config → Dict String → Dict String
unfolding publish
publish_all dumps remove [] retained = retained
publish_all dumps remove (c ∷ cs) retained =
    publish_all dumps remove cs (publish c.topic (if remove then "" else dumps c.payload) retained)

-- The arguments, in the order in which `main` reads them.
pub data Mode : Type 0 where
  export_configs dry_run remove_configs publish_configs : Mode

-- The broker after `main`.
unfoldable pub main : (Json → String) → Mode → List Config → Dict String → Dict String
unfolding publish_all
main dumps export_configs configs retained = retained
main dumps dry_run configs retained = retained
main dumps remove_configs configs retained = publish_all dumps true configs retained
main dumps publish_configs configs retained = publish_all dumps false configs retained
