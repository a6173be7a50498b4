-- ===== src/Scripts/Discovery/Sensors.antt =====
-- The sensors of the weather station: ha/weather/sensor_map.py.
use hass_ai.Prelude.{ℕ, String, Option, none, some, List, [], ◌∷◌}
use hass_ai.Db.Models.{Json, number, text, array, object, end, item, Fields, done, field}

-- An entry of the tables. `expire_after` may be missing, None or a number; `others` are its other keys.
pub record Sensor : Type 0 where
  pub object_id : String
  pub name : String
  pub topic : String
  pub expire_after : Option (Option ℕ)
  pub others : Fields

abbrev sensor : String → String → String → Option (Option ℕ) → Fields → Sensor
sensor id name topic expire others = record {
  object_id = id;
  name = name;
  topic = topic;
  expire_after = expire;
  others = others;
}

abbrev pub base_topic : String
base_topic = "sdr/davis"

abbrev pub discovery_prefix : String
discovery_prefix = "homeassistant"

abbrev pub node_id : String
node_id = "davis_vantage"

abbrev pub expire_after_s : ℕ
expire_after_s = 300

abbrev pub device : Json
device = object (
    field "identifiers" (array (item (text "davis_vantage_pro2_plus") end)) (
      field "name" (text "Davis Vantage Pro2 Plus") (
        field "manufacturer" (text "Davis Instruments") (
          field "model" (text "Vantage Pro2 Plus (SDR OTA capture)")
            (field "suggested_area" (text "Outside") (done))))))

abbrev pub sensors : List Sensor
sensors =
    sensor "davis_temperature" "Outside temperature" "temperature_f" (none) (
      field "device_class" (text "temperature") (
        field "unit_of_measurement" (text "°F") (
          field "state_class" (text "measurement")
            (field "suggested_display_precision" (number 1) (done)))))
    ∷ sensor "davis_humidity" "Outside humidity" "humidity" (none) (
        field "device_class" (text "humidity") (
          field "unit_of_measurement" (text "%") (
            field "state_class" (text "measurement")
              (field "suggested_display_precision" (number 0) (done)))))
    ∷ sensor "davis_wind_speed" "Wind speed" "wind_speed_mph" (none) (
        field "device_class" (text "wind_speed") (
          field "unit_of_measurement" (text "mph") (
            field "state_class" (text "measurement")
              (field "suggested_display_precision" (number 0) (done)))))
    ∷ sensor "davis_wind_gust" "Wind gust" "wind_gust_mph" (none) (
        field "device_class" (text "wind_speed") (
          field "unit_of_measurement" (text "mph") (
            field "state_class" (text "measurement")
              (field "suggested_display_precision" (number 0) (done)))))
    ∷ sensor "davis_wind_direction" "Wind direction" "wind_dir_deg" (none) (
        field "unit_of_measurement" (text "°") (
          field "state_class" (text "measurement") (
            field "icon" (text "mdi:compass-outline")
              (field "suggested_display_precision" (number 0) (done)))))
    ∷ sensor "davis_rain_rate" "Rain rate" "rain_rate_in_hr" (none) (
        field "device_class" (text "precipitation_intensity") (
          field "unit_of_measurement" (text "in/h") (
            field "state_class" (text "measurement")
              (field "suggested_display_precision" (number 2) (done)))))
    ∷ sensor "davis_rain_tips" "Rain tip counter" "rain_tips" (none) (
        field "state_class" (text "measurement") (
          field "icon" (text "mdi:cup-water") (field "entity_category" (text "diagnostic") (done))))
    ∷ sensor "davis_uv" "UV index" "uv_index" (none) (
        field "unit_of_measurement" (text "UV index") (
          field "state_class" (text "measurement") (
            field "icon" (text "mdi:sun-wireless-outline")
              (field "suggested_display_precision" (number 1) (done)))))
    ∷ sensor "davis_solar_radiation" "Solar radiation" "solar_wm2" (none) (
        field "device_class" (text "irradiance") (
          field "unit_of_measurement" (text "W/m²") (
            field "state_class" (text "measurement")
              (field "suggested_display_precision" (number 0) (done)))))
    ∷ sensor "davis_last_packet" "Last packet" "last_packet_epoch" (some none) (
        field "device_class" (text "timestamp") (
          field "value_template" (text "{{ value | int | as_datetime }}")
            (field "entity_category" (text "diagnostic") (done))))
    ∷ sensor "davis_packets_per_min" "Packets per minute" "health" (some (some 600)) (
        field "value_template" (text "{{ value_json.packets_per_min }}") (
          field "unit_of_measurement" (text "pkts/min") (
            field "state_class" (text "measurement") (
              field "icon" (text "mdi:radio-tower")
                (field "entity_category" (text "diagnostic") (done))))))
    ∷ sensor "davis_missed_packets" "Missed packets" "health" (some (some 600)) (
        field "value_template" (text "{{ (value_json.missed_ratio * 100) | round(2) }}") (
          field "unit_of_measurement" (text "%") (
            field "state_class" (text "measurement") (
              field "icon" (text "mdi:radio-off")
                (field "entity_category" (text "diagnostic") (done))))))
    ∷ []

abbrev pub binary_sensors : List Sensor
binary_sensors =
    sensor "davis_battery" "Transmitter battery" "battery_ok" (none) (
      field "value_template" (text "{{ 'OFF' if value | int == 1 else 'ON' }}") (
        field "device_class" (text "battery") (field "entity_category" (text "diagnostic") (done))))
    ∷ sensor "davis_fhss_locked" "FHSS locked" "health" (some (some 600)) (
        field "value_template" (text "{{ 'ON' if value_json.fhss_locked else 'OFF' }}") (
          field "device_class" (text "connectivity")
            (field "entity_category" (text "diagnostic") (done))))
    ∷ []
