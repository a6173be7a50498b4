-- ===== src/Scripts/Topics.antt =====
-- The topics of the two scripts that publish discovery configs (ha/weather, ha/lora915), on one broker.
use hass_ai.Prelude.{◌≡◌, refl, true, false, String, In, str_eq, Dict, lookup, some}
use hass_ai.Db.Models.{Json}
use hass_ai.Scripts.Discovery.{Config, build_configs, main, publish_configs, remove_configs}
use hass_ai.Scripts.Discovery.Broker.{is_disjoint, main-beside, build_configs-distinct}
use hass_ai.Scripts.Lora.{lora_configs}

topics_apart : is_disjoint build_configs lora_configs ≡ true
unfolding build_configs lora_configs
topics_apart = refl

-- For every broker and every way of writing payloads that writes no empty text: each config of the weather
-- station is retained under its own topic once the script has published, also after the configs of the radio
-- monitor have been published or removed.
pub weather_configs_retained :
    (dumps : Json → String) (retained : Dict String) (c : Config)
    → ((j : Json) → str_eq (dumps j) "" ≡ false)
    → In c build_configs
    → (lookup c.topic (
          main dumps publish_configs lora_configs
            (main dumps publish_configs build_configs retained))
        ≡ some (dumps c.payload))
      × (lookup c.topic (
            main dumps remove_configs lora_configs
              (main dumps publish_configs build_configs retained))
          ≡ some (dumps c.payload))
weather_configs_retained dumps retained c full m =
    main-beside dumps retained c build_configs lora_configs build_configs-distinct topics_apart
      (full c.payload) m
