-- ===== src/Ingest/Filters.antt =====
-- Which entities are behaviour (src/pae/ingest/filters.py). The match of a glob is `fnmatch`, a parameter.
use hass_ai.Prelude.{
  String, Bool, true, false, Option, none, some, List, [], ◌∷◌, any, elem, str_eq, domain_of,
  if◌then◌else◌,
}

-- BEHAVIORAL_DOMAINS
abbrev pub behavioral_domains : List String
behavioral_domains =
    "light" ∷ "switch" ∷ "media_player" ∷ "climate" ∷ "fan" ∷ "scene" ∷ "cover" ∷ "person" ∷ "lock"
    ∷ []

-- OCCUPANCY_DEVICE_CLASSES
abbrev pub occupancy_device_classes : List String
occupancy_device_classes = "motion" ∷ "occupancy" ∷ "presence" ∷ []

-- PERSON_DETECTED_PATTERN
abbrev pub person_detected_pattern : String
person_detected_pattern = "binary_sensor.*person_detected*"

abbrev is_occupancy : Option String → Bool
is_occupancy none = false
is_occupancy (some c) = elem c occupancy_device_classes

-- `fnmatch name glob`
abbrev pub Fnmatch : Type 0
Fnmatch = String → String → Bool

unfoldable pub should_ingest : Fnmatch → String → Option String → List String → Bool
should_ingest fnmatch entity_id device_class denylist =
    if any (fnmatch entity_id) denylist
    then false
    else if elem (domain_of entity_id) behavioral_domains
    then true
    else if str_eq (domain_of entity_id) "binary_sensor"
    then (if is_occupancy device_class then true else fnmatch entity_id person_detected_pattern)
    else false
