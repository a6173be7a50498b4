-- ===== src/Ingest/Registry.antt =====
-- The mirror of the entity registry: src/pae/ingest/registry.py, and `_registry_loop` of
-- src/pae/ingest/service.py. A dict from the registry keeps the keys that the code reads. A statement that
-- names a key twice is refused by the database, and the transaction with it: that is `none`.
pub mod Chunks
pub mod Mirror
use hass_ai.Prelude.{
  ℕ, zero, suc, ◌*◌, String, Bool, true, false, ◌||◌, Option, none, some, List, [], ◌∷◌, map,
  length, take, drop, any, str_eq, truthy, or_text, domain_of, if◌then◌else◌,
}

pub record EntityEntry : Type 0 where
  pub entity_id : String
  pub name : Option String
  pub original_name : Option String
  pub area_id : Option String
  pub device_id : Option String
  pub device_class : Option String
  pub original_device_class : Option String

pub record DeviceEntry : Type 0 where
  pub id : String
  pub area_id : Option String

pub record AreaEntry : Type 0 where
  pub area_id : String
  pub name : Option String

pub record RegistryRow : Type 0 where
  pub entity_id : String
  pub domain : String
  pub friendly_name : Option String
  pub area_id : Option String
  pub area_name : Option String
  pub device_id : Option String
  pub device_class : Option String
  pub updated_at : ℕ

-- Python's `a or b`
abbrev pub or_else : Option String → Option String → Option String
or_else a b = if truthy a then a else b

abbrev first_some : Option (Option String) → Option String → Option String
first_some none d = d
first_some (some a) d = a

-- area_names: the last area with an id gives its name.
unfoldable pub area_names : List AreaEntry → String → Option (Option String)
area_names [] k = none
area_names (a ∷ areas) k = elim (area_names areas k) [
  | none ↦ if str_eq a.area_id k then some a.name else none
  | some n ↦ some n
]

-- device_areas
unfoldable pub device_areas : List DeviceEntry → String → Option (Option String)
device_areas [] k = none
device_areas (d ∷ devices) k = elim (device_areas devices k) [
  | none ↦ if str_eq d.id k then some d.area_id else none
  | some a ↦ some a
]

-- area_names.get(area_id) if area_id else None
abbrev name_of_area : List AreaEntry → Option String → Option String
name_of_area areas none = none
name_of_area areas (some a) = if str_eq a "" then none else first_some (area_names areas a) none

-- The body of the loop.
unfoldable pub row_of : List DeviceEntry → List AreaEntry → ℕ → EntityEntry → RegistryRow
unfolding domain_of area_names device_areas
row_of devices areas now e =
    let area_id =
      or_else e.area_id (first_some (device_areas devices (or_text e.device_id "")) none) in
    record {
      entity_id = e.entity_id;
      domain = domain_of e.entity_id;
      friendly_name = or_else e.name e.original_name;
      area_id = area_id;
      area_name = name_of_area areas area_id;
      device_id = e.device_id;
      device_class = or_else e.device_class e.original_device_class;
      updated_at = now;
    }

abbrev pub build_registry_rows :
    List EntityEntry → List DeviceEntry → List AreaEntry → ℕ → List RegistryRow
build_registry_rows entities devices areas now = map (row_of devices areas now) entities

abbrev pub has_id : String → RegistryRow → Bool
has_id k row = str_eq row.entity_id k

-- Two rows of a statement have the same key.
unfoldable pub is_repeated : List RegistryRow → Bool
is_repeated [] = false
is_repeated (row ∷ rows) = any (has_id row.entity_id) rows || is_repeated rows

-- INSERT ... ON CONFLICT (entity_id) DO UPDATE of every other column, for a row.
unfoldable pub put : RegistryRow → List RegistryRow → List RegistryRow
put row [] = row ∷ []
put row (old ∷ table) =
    let rest = put row table in if has_id row.entity_id old then row ∷ table else old ∷ rest

unfoldable pub put_all : List RegistryRow → List RegistryRow → List RegistryRow
unfolding put
put_all [] table = table
put_all (row ∷ rows) table = put_all rows (put row table)

-- conn.execute(stmt)
unfoldable pub execute : List RegistryRow → List RegistryRow → Option (List RegistryRow)
unfolding is_repeated put_all
execute rows table = if is_repeated rows then none else some (put_all rows table)

-- _CHUNK
abbrev pub chunk : ℕ
chunk = 4000

-- The loop over the chunks, on fuel.
unfoldable pub upsert_chunks : ℕ → List RegistryRow → List RegistryRow → Option (List RegistryRow)
unfolding execute
upsert_chunks zero rows table = some table
upsert_chunks (suc fuel) [] table = some table
upsert_chunks (suc fuel) (row ∷ rows) table = elim (execute (take chunk (row ∷ rows)) table) [
  | none ↦ none
  | some after ↦ upsert_chunks fuel (drop chunk (row ∷ rows)) after
]

-- There are at most as many chunks as rows. After a failure the table is as before.
unfoldable pub upsert_registry : List RegistryRow → List RegistryRow → Option (List RegistryRow)
unfolding upsert_chunks
upsert_registry rows table = upsert_chunks (length rows) rows table

-- What the three calls of a round return; any of them may raise.
pub record Fetched : Type 0 where
  pub entities : Option (List EntityEntry)
  pub devices : Option (List DeviceEntry)
  pub areas : Option (List AreaEntry)

-- The table after a round of `_registry_loop`, and the seconds it sleeps.
abbrev stored : ℕ → List RegistryRow → Option (List RegistryRow) → List RegistryRow × ℕ
stored refresh_hours table none = (table, 300)
stored refresh_hours table (some after) = (after, refresh_hours * 3600)

abbrev mirrored :
    ℕ
    → ℕ
    → List RegistryRow
    → Option (List EntityEntry)
    → Option (List DeviceEntry)
    → Option (List AreaEntry)
    → List RegistryRow × ℕ
mirrored refresh_hours now table (some entities) (some devices) (some areas) =
    stored refresh_hours table
      (upsert_registry (build_registry_rows entities devices areas now) table)
mirrored refresh_hours now table _ _ _ = (table, 300)

unfoldable pub registry_round : ℕ → ℕ → Fetched → List RegistryRow → List RegistryRow × ℕ
unfolding upsert_registry row_of
registry_round refresh_hours now f table =
    mirrored refresh_hours now table f.entities f.devices f.areas
