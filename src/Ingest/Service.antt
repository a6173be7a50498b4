-- ===== src/Ingest/Service.antt =====
-- The event handlers of src/pae/ingest/service.py, with the presence snapshots of
-- src/pae/ingest/presence.py. Of a state's attributes the model keeps the two that the code reads; the
-- metrics are not modelled. The match of globs, the reading of ISO times and the regular expressions are
-- parameters.
pub mod Changes
pub mod Announced
use hass_ai.Prelude.{
  ℕ, ◌+◌, String, Bool, true, false, not, ◌&&◌, ◌||◌, Option, none, some, List, [], ◌∷◌, ◌++◌,
  opt_eq, str_eq, elem, truthy, or_text, split_once, domain_of, if◌then◌else◌,
}
use hass_ai.Db.Models.{Source, manual, automation, pae}
use hass_ai.Prelude.{Dict}
use hass_ai.Prelude.Int.{ℤ}
use hass_ai.Ingest.Context.{DayType, Season}
use hass_ai.Ingest.Attribution.{ContextCache, attribute, add as announce}
use hass_ai.Ingest.Writer.{BatchWriter, Written, add, needs_flush, flush}
use hass_ai.Ingest.Filters.{Fnmatch, should_ingest, person_detected_pattern}

pub record StateObject : Type 0 where
  pub state : Option String
  pub device_class : Option String
  pub friendly_name : Option String
  pub last_updated : Option String

-- An absent context is one without members.
pub record Context : Type 0 where
  pub id : Option String
  pub parent_id : Option String
  pub user_id : Option String

-- The entity is "" where the event names none.
pub record HaEvent : Type 0 where
  pub entity_id : String
  pub old_state : Option StateObject
  pub new_state : Option StateObject
  pub context : Context
  pub time_fired : Option ℕ

pub record EventRow : Type 0 where
  pub time : ℕ
  pub entity_id : String
  pub domain : String
  pub old_state : Option String
  pub new_state : Option String
  pub context_id : Option String
  pub context_parent_id : Option String
  pub user_id : Option String
  pub triggered_by : Source

pub record PresenceRow : Type 0 where
  pub time : ℕ
  pub person : String
  pub room : Option String
  pub source : String

-- The temperature counts hundredths of a degree; the text of a day type or a season is its constructor.
pub record FrameRow : Type 0 where
  pub time : ℕ
  pub persons_home : Dict String
  pub sun_state : Option String
  pub day_type : DayType
  pub season : Season
  pub outside_temp : Option ℤ

pub data Row : Type 0 where
  event_row : EventRow → Row
  presence_row : PresenceRow → Row
  frame_row : FrameRow → Row

abbrev pub event_table : String
event_table = "events"

abbrev pub presence_table : String
presence_table = "presence_snapshots"

-- What the handlers call outside the program: `parse` is `datetime.fromisoformat`, which may raise.
pub record Outside : Type 0 where
  pub fnmatch : Fnmatch
  pub parse : String → Option ℕ
  pub without_suffix : String → String
  pub collapse_spaces : String → String
  pub strip : String → String

pub record IngestService : Type 0 where
  pub denylist : List String
  pub persons_exclude : List String
  pub pae_automations : List String
  pub cache : ContextCache
  pub writer : BatchWriter Row

unfoldable pub room_from_camera_name : Outside → String → String
room_from_camera_name o friendly_name = o.strip (o.collapse_spaces (o.without_suffix friendly_name))

-- person_object_id: an entity without a dot raises.
abbrev pub person_object_id : String → Option String
person_object_id entity_id = (split_once "." entity_id).1

-- entity_id.startswith("person.")
abbrev starts_person : String → Option String → Bool
starts_person domain none = false
starts_person domain (some _) = str_eq domain "person"

abbrev pub is_person : String → Bool
is_person entity_id = starts_person (domain_of entity_id) (person_object_id entity_id)

abbrev fallback_time : Option ℕ → ℕ → ℕ
fallback_time none now = now
fallback_time (some t) now = t

-- _parse_time, where none is an exception.
abbrev pub parse_time : Outside → Option String → Option ℕ → ℕ → Option ℕ
parse_time o none fallback now = some (fallback_time fallback now)
parse_time o (some raw) fallback now =
    if str_eq raw "" then some (fallback_time fallback now) else o.parse raw

abbrev pub is_down : Option String → Bool
is_down none = false
is_down (some s) = elem s ("unavailable" ∷ "unknown" ∷ [])

-- The guards of `on_state_changed`, and what it filters.
unfoldable pub is_behavior : Outside → List String → String → StateObject → StateObject → Bool
unfolding should_ingest
is_behavior o denylist entity_id old new =
    if str_eq entity_id ""
    then false
    else if opt_eq new.state old.state
    then false
    else if is_down new.state || is_down old.state
    then false
    else should_ingest o.fnmatch entity_id new.device_class denylist

abbrev person_row : Option String → Option String → ℕ → List Row
person_row none room when = []
person_row (some person) room when =
    presence_row (record { time = when; person = person; room = room; source = "person" }) ∷ []

-- The row that `_maybe_presence` adds, if it adds one.
unfoldable pub presence_rows :
    Outside → List String → String → StateObject → StateObject → ℕ → List Row
unfolding room_from_camera_name
presence_rows o excluded entity_id old new when =
    if is_person entity_id && not (elem entity_id excluded)
    then person_row (person_object_id entity_id) new.state when
    else if o.fnmatch entity_id person_detected_pattern
        && (opt_eq old.state (some "off") && opt_eq new.state (some "on"))
    then presence_row (record {
      time = when;
      person = "unknown";
      room = some (room_from_camera_name o (or_text new.friendly_name entity_id));
      source = "unifi";
    })
      ∷ []
    else []

unfoldable pub event_row_of : HaEvent → StateObject → StateObject → Source → ℕ → EventRow
unfolding domain_of
event_row_of ev old new source when = record {
  time = when;
  entity_id = ev.entity_id;
  domain = domain_of ev.entity_id;
  old_state = old.state;
  new_state = new.state;
  context_id = ev.context.id;
  context_parent_id = ev.context.parent_id;
  user_id = ev.context.user_id;
  triggered_by = source;
}

unfoldable add_all : String → List Row → BatchWriter Row → BatchWriter Row
unfolding add
add_all table [] w = w
add_all table (row ∷ rows) w = add_all table rows (add table row w)

-- Whether the database takes the rows of a table.
abbrev pub Database : Type 0
Database = String → List Row → Bool

unfoldable flush_if_full : Database → BatchWriter Row → BatchWriter Row × List (Written Row)
unfolding flush needs_flush
flush_if_full database w = if needs_flush w then flush database w else (w, [])

-- What follows the guards; a time that does not parse raises before anything is stored.
abbrev store_change :
    Outside
    → Database
    → HaEvent
    → StateObject
    → StateObject
    → Source
    → Option ℕ
    → IngestService
    → IngestService × List (Written Row)
store_change o database ev old new source none s = (s, [])
store_change o database ev old new source (some when) s =
    let noted = add event_table (event_row (event_row_of ev old new source when)) s.writer in
    let w =
      add_all presence_table (presence_rows o s.persons_exclude ev.entity_id old new when) noted in
    let r = flush_if_full database w in (record s { writer = r.0 }, r.1)

abbrev state_changed :
    Outside
    → Database
    → ℕ
    → ℕ
    → HaEvent
    → Option StateObject
    → Option StateObject
    → IngestService
    → IngestService × List (Written Row)
state_changed o database clock now ev (some old) (some new) s =
    if is_behavior o s.denylist ev.entity_id old new
    then store_change o database ev old new
        (attribute ev.context.id ev.context.parent_id ev.context.user_id s.cache clock)
        (parse_time o new.last_updated ev.time_fired now) s
    else (s, [])
state_changed o database clock now ev _ _ s = (s, [])

-- `clock` is the monotonic time that the cache reads, `now` the time of day.
unfoldable pub on_state_changed :
    Outside → Database → ℕ → ℕ → HaEvent → IngestService → IngestService × List (Written Row)
unfolding is_behavior presence_rows event_row_of add add_all flush_if_full attribute
on_state_changed o database clock now ev s =
    state_changed o database clock now ev ev.old_state ev.new_state s

abbrev announced : List String → Option String → String → ℕ → ContextCache → ContextCache
announced own none entity_id clock cache = cache
announced own (some ctx) entity_id clock cache =
    if str_eq ctx ""
    then cache
    else announce ctx (if elem entity_id own then pae else automation) clock cache

unfoldable pub on_automation_activity : ℕ → HaEvent → IngestService → IngestService
unfolding announce
on_automation_activity clock ev s = record s {
  cache = announced s.pae_automations ev.context.id ev.entity_id clock s.cache;
}
