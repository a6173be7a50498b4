-- ===== src/Tests/Ingesting.antt =====
-- The theorems of the ingester, where they are used.
use hass_ai.Prelude.{
  inr, ◌↔◌, ◌⊎◌, false, ◌⊎◌, Dict, Option, String, List, In, All, str_eq, split_once, if◌then◌else◌,
  some, none,
}
use hass_ai.Prelude.Int.{pos}
use hass_ai.Ha.Rest.{Result, ok, EntityState}
use hass_ai.Ingest.Service.Announced.{
  Incoming, activity, change, handle_all, on_state_changed-announced,
}
use hass_ai.Ingest.Attribution.{get}
use hass_ai.Ingest.Service.{Row, FrameRow, frame_row}
use hass_ai.Ingest.Writer.{Buffer, BatchWriter}
use hass_ai.Ingest.Writer.{Buffer, add as write_row}
use hass_ai.Ingest.Registry.{
  EntityEntry, DeviceEntry, AreaEntry, RegistryRow, row_of, build_registry_rows, is_repeated,
  upsert_registry,
}
use hass_ai.Ingest.Registry.Chunks.{find, overlay}
use hass_ai.Ingest.Registry.Mirror.{upsert_registry-overlay, refresh_found}
use hass_ai.Ingest.Frames.{Surroundings, context_frame, frame_table, write_context_frame}
use hass_ai.Ingest.Frames.Home.{IsFetched, context_frame_whole}
use hass_ai.Prelude.{
  domain_of, split_once, eq_iff, ℕ, String, true, false, none, some, List, [], ◌∷◌, ◌++◌, ◌≡◌, ◌≢◌,
  refl, arith,
}
use hass_ai.Db.Models.{automation}
use hass_ai.Ingest.Attribution.{ContextCache}
use hass_ai.Ingest.Writer.{Buffer, flush_buffer}
use hass_ai.Ingest.Writer.Flush.{
  Operation, add_row, flush_all, perform, perform_exactly_once, flush_buffer-conserves_iff,
}
use hass_ai.Ingest.Writer.Conserves.{waiting, written}
use hass_ai.Ingest.Filters.{should_ingest}
use hass_ai.Ingest.Service.Announced.{
  Incoming, activity, change, handle_all, on_state_changed-announced,
}
use hass_ai.Ingest.Attribution.{get}
use hass_ai.Ingest.Service.{
  Outside, IngestService, HaEvent, StateObject, event_row, event_row_of, event_table, is_behavior,
  on_state_changed, on_automation_activity,
}
use hass_ai.Ingest.Service.Changes.{rows_of, on_state_changed-rows}

abbrev empty_cache : ContextCache
empty_cache = record { ttl = 300; entries = [] }

c2_ne : ◌≢◌ {A = String} "c2" "c1"
c2_ne e = ground (arith, (eq_iff "c2" "c1").1 e)

-- A row, an outage, a second row and a database that is back.
abbrev operations : List (Operation ℕ)
operations =
    add_row "events" 1
    ∷ flush_all (λ table rows. false)
    ∷ add_row "events" 2
    ∷ flush_all (λ table rows. true)
    ∷ []

perform_exactly_once_example :
    let r = perform operations (record { flush_size = 500; buffers = [] }) in
    written "events" r.1 ++ waiting "events" r.0.buffers ≡ 1 ∷ 2 ∷ []
perform_exactly_once_example = perform_exactly_once "events" operations 500

-- A row is added while another one is written.
flush_buffer-conserves_iff_example :
    let b : Buffer ℕ = record { table = "events"; rows = 1 ∷ [] } in
    let arrived : List ℕ = 2 ∷ [] in
    let r = flush_buffer true arrived b in
    (written "events" r.1 ++ r.0.rows ≡ b.rows ++ arrived)
    ↔ ((arrived ≡ []) ⊎ ((true ≡ false) ⊎ (b.rows ≡ [])))
flush_buffer-conserves_iff_example =
    flush_buffer-conserves_iff true (record { table = "events"; rows = 1 ∷ [] }) (2 ∷ [])

-- Globs without wildcards, and texts that are kept as they are.
abbrev outside : Outside
outside = record {
  fnmatch = λ name glob. false;
  parse = λ t. some 77;
  without_suffix = λ t. t;
  collapse_spaces = λ t. t;
  strip = λ t. t;
}

abbrev service : IngestService
service = record {
  denylist = [];
  persons_exclude = [];
  pae_automations = [];
  cache = empty_cache;
  writer = record { flush_size = 500; buffers = [] };
}

abbrev lamp_state : String → StateObject
lamp_state s = record {
  state = some s;
  device_class = none;
  friendly_name = none;
  last_updated = some "t";
}

abbrev switched : HaEvent
switched = record {
  entity_id = "light.hall";
  old_state = some (lamp_state "off");
  new_state = some (lamp_state "on");
  context = record { id = some "c1"; parent_id = none; user_id = none };
  time_fired = none;
}

abbrev triggered : HaEvent
triggered = record {
  entity_id = "automation.hall";
  old_state = none;
  new_state = none;
  context = record { id = some "c1"; parent_id = none; user_id = none };
  time_fired = none;
}

on_state_changed-rows_example :
    let r = on_state_changed outside (λ table rows. true) 30 90 switched service in
    written event_table r.1 ++ waiting event_table r.0.writer.buffers
    ≡ waiting event_table service.writer.buffers
      ++ rows_of outside service 30 switched (lamp_state "off") (lamp_state "on") 77 event_table
unfolding is_behavior should_ingest domain_of split_once
on_state_changed-rows_example =
    on_state_changed-rows outside (λ table rows. true) 30 90 switched (lamp_state "off")
      (lamp_state "on") 77 service event_table tt refl refl refl refl

-- A child of the context with an id of its own, behind another run and another change.
abbrev child_switched : HaEvent
child_switched = record switched {
  context = record { id = some "c2"; parent_id = some "c1"; user_id = none };
}

abbrev other_run : HaEvent
other_run = record triggered {
  context = record { id = some "c9"; parent_id = none; user_id = none };
}

abbrev meanwhile : List Incoming
meanwhile =
    activity 12 other_run
    ∷ change (λ table rows. true) 13 90 (record switched { old_state = none })
    ∷ []

on_state_changed-announced_example :
    let before = handle_all outside meanwhile (on_automation_activity 10 triggered service) in
    let r = on_state_changed outside (λ table rows. true) 30 90 child_switched before in
    written event_table r.1 ++ waiting event_table r.0.writer.buffers
    ≡ waiting event_table before.writer.buffers
      ++ event_row (event_row_of child_switched (lamp_state "off") (lamp_state "on") automation 77)
        ∷ []
unfolding is_behavior should_ingest domain_of split_once on_automation_activity on_state_changed get
on_state_changed-announced_example =
    on_state_changed-announced outside (λ table rows. true) 10 30 90 triggered child_switched "c1"
      meanwhile (lamp_state "off") (lamp_state "on") 77 service refl refl (omega arith)
      ((λ e. cc, omega arith), (tt, tt)) (inr (refl, refl)) tt refl refl refl refl

abbrev hall_entry : EntityEntry
hall_entry = record {
  entity_id = "light.hall";
  name = none;
  original_name = some "Hall";
  area_id = none;
  device_id = some "d1";
  device_class = none;
  original_device_class = none;
}

abbrev hall_devices : List DeviceEntry
hall_devices = record { id = "d1"; area_id = some "hall" } ∷ []

abbrev hall_areas : List AreaEntry
hall_areas = record { area_id = "hall"; name = some "Hall" } ∷ []

abbrev hall_row : RegistryRow
hall_row = row_of hall_devices hall_areas 5 hall_entry

-- The same row from an earlier refresh.
abbrev older_row : RegistryRow
older_row = row_of hall_devices hall_areas 1 hall_entry

upsert_registry-overlay_example :
    (after : List RegistryRow) × (upsert_registry (hall_row ∷ []) (older_row ∷ []) ≡ some after)
    × ((k : String) → find k after ≡ overlay (find k (hall_row ∷ [])) (find k (older_row ∷ [])))
unfolding is_repeated
upsert_registry-overlay_example = upsert_registry-overlay (hall_row ∷ []) (older_row ∷ []) refl

refresh_found_example :
    (after : List RegistryRow) × (upsert_registry
        (build_registry_rows (hall_entry ∷ []) hall_devices hall_areas 5)
        (older_row ∷ [])
      ≡ some after)
    × ((e : EntityEntry)
        → In e (hall_entry ∷ [])
        → find e.entity_id after ≡ some (row_of hall_devices hall_areas 5 e))
refresh_found_example =
    refresh_found hall_devices hall_areas 5 (hall_entry ∷ []) (older_row ∷ []) refl

-- Ann is home, Bob has no state, and it is 12.5 degrees.
abbrev states_of : String → Result (Option EntityState)
states_of e =
    if str_eq e "person.ann"
    then ok (some (record { entity_id = e; state = "home" }))
    else if str_eq e "sensor.outside"
    then ok (some (record { entity_id = e; state = "12.5" }))
    else ok none

abbrev surroundings : Surroundings
surroundings = record {
  now = 77;
  today = 4;
  month = 11;
  us_holidays = λ d. true;
  fetch = states_of;
  parse_float = λ s. some (pos 1250);
  outside_temp_entity = "sensor.outside";
}

abbrev empty_writer : BatchWriter Row
empty_writer = record { flush_size = 100; buffers = [] }

abbrev persons : List String
persons = "person.ann" ∷ "person.bob" ∷ []

context_frame_whole_example :
    (write_context_frame surroundings persons empty_writer ≡ empty_writer)
    ⊎ ((row : FrameRow) × (write_context_frame surroundings persons empty_writer
          ≡ write_row frame_table (frame_row row) empty_writer)
        × All (IsFetched states_of persons) row.persons_home
        × ((entry : String × String)
            → IsFetched states_of persons entry
            → In entry row.persons_home))
context_frame_whole_example = context_frame_whole surroundings persons empty_writer

abbrev home_shown : Option FrameRow → Dict String
home_shown none = []
home_shown (some row) = row.persons_home

ann_home : home_shown (context_frame surroundings persons) ≡ ("ann", "home") ∷ []
unfolding context_frame split_once
ann_home = refl
