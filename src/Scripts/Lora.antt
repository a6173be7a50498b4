-- ===== src/Scripts/Lora.antt =====
-- The discovery configs of the radio monitor: ha/lora915/sensor_map.py and `build_configs` of
-- ha/lora915/discovery.py.
use Prim.Native.String.{◌++◌ as append}
use hass_ai.Prelude.{String, List, [], ◌∷◌, ◌++◌, map}
use hass_ai.Db.Models.{Json, number, text, array, object, end, item, Fields, done, field}
use hass_ai.Scripts.Discovery.{Config}

-- An entry of the tables; `others` are its other keys.
pub record Detector : Type 0 where
  pub object_id : String
  pub name : String
  pub others : Fields

abbrev detector : String → String → Fields → Detector
detector id name others = record { object_id = id; name = name; others = others }

abbrev pub lora_prefix : String
lora_prefix = "homeassistant"

abbrev pub lora_node : String
lora_node = "lora915"

abbrev pub monitor : Json
monitor = object (
    field "identifiers" (array (item (text "sdr_lora915") end)) (
      field "name" (text "LoRa 915 Monitor") (
        field "manufacturer" (text "sdr-fleet") (
          field "model" (text "lora915 CSS activity detector (RTL-SDR, DAVIS1 @ sdr-indoor)")
            (field "suggested_area" (text "Network") (done))))))

abbrev pub lora_binary_sensors : List Detector
lora_binary_sensors =
    detector "lora915_activity" "LoRa 915 activity" (
      field "state_topic" (text "sdr/lora915/activity") (
        field "value_template" (text "ON") (
          field "off_delay" (number 8) (
            field "json_attributes_topic" (text "sdr/lora915/activity")
              (field "icon" (text "mdi:access-point") (done))))))
    ∷ []

abbrev pub lora_sensors : List Detector
lora_sensors =
    detector "lora915_last_channel" "LoRa 915 last channel" (
      field "state_topic" (text "sdr/lora915/activity") (
        field "value_template" (text "{{ value_json.channel }}")
          (field "icon" (text "mdi:radio-tower") (done))))
    ∷ detector "lora915_last_snr" "LoRa 915 last SNR" (
        field "state_topic" (text "sdr/lora915/activity") (
          field "value_template" (text "{{ value_json.snr_db }}") (
            field "unit_of_measurement" (text "dB") (
              field "state_class" (text "measurement")
                (field "suggested_display_precision" (number 1) (done))))))
    ∷ detector "lora915_last_duration" "LoRa 915 last burst length" (
        field "state_topic" (text "sdr/lora915/activity") (
          field "value_template" (text "{{ value_json.dur_s }}") (
            field "device_class" (text "duration") (
              field "unit_of_measurement" (text "s") (
                field "state_class" (text "measurement")
                  (field "suggested_display_precision" (number 2) (done)))))))
    ∷ detector "lora915_uptime" "LoRa 915 detector uptime" (
        field "state_topic" (text "sdr/lora915/status") (
          field "value_template" (text "{{ value_json.uptime_s }}") (
            field "device_class" (text "duration") (
              field "unit_of_measurement" (text "s") (
                field "state_class" (text "total_increasing") (
                  field "entity_category" (text "diagnostic")
                    (field "expire_after" (number 200) (done))))))))
    ∷ detector "lora915_event_count" "LoRa 915 event count" (
        field "state_topic" (text "sdr/lora915/status") (
          field "value_template" (text "{{ value_json.events }}") (
            field "state_class" (text "total_increasing") (
              field "entity_category" (text "diagnostic")
                (field "expire_after" (number 200) (field "icon" (text "mdi:counter") (done)))))))
    ∷ detector "lora915_noise_floor_906" "LoRa 915 noise floor 906.88" (
        field "state_topic" (text "sdr/lora915/status") (
          field "value_template" (text "{{ value_json.floors_db['906.88'] }}") (
            field "unit_of_measurement" (text "dB") (
              field "state_class" (text "measurement") (
                field "suggested_display_precision" (number 1) (
                  field "entity_category" (text "diagnostic")
                    (field "expire_after" (number 200) (done))))))))
    ∷ detector "lora915_noise_floor_908" "LoRa 915 noise floor 908.40" (
        field "state_topic" (text "sdr/lora915/status") (
          field "value_template" (text "{{ value_json.floors_db['908.40'] }}") (
            field "unit_of_measurement" (text "dB") (
              field "state_class" (text "measurement") (
                field "suggested_display_precision" (number 1) (
                  field "entity_category" (text "diagnostic")
                    (field "expire_after" (number 200) (done))))))))
    ∷ []

-- The body of the inner loop.
abbrev pub lora_config : String → Detector → Config
lora_config component d = record {
  topic = append lora_prefix (
      append "/" (
        append component
          (append "/" (append lora_node (append "/" (append d.object_id "/config"))))));
  payload = object (
      field "name" (text d.name) (
        field "unique_id" (text d.object_id)
          (field "object_id" (text d.object_id) (field "device" monitor d.others))));
}

unfoldable pub lora_configs : List Config
lora_configs =
    map (lora_config "binary_sensor") lora_binary_sensors ++ map (lora_config "sensor") lora_sensors
