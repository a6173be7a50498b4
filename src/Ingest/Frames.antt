-- ===== src/Ingest/Frames.antt =====
-- `_write_context_frame` and the choice of the persons in `run` (src/pae/ingest/service.py). What a request
-- for the state of an entity comes to is a function of the entity; reading a float is a parameter.
pub mod Home
use hass_ai.Prelude.{
  ℕ, String, Bool, true, false, not, ◌&&◌, Option, none, some, List, [], ◌∷◌, map, filter, elem,
  str_eq, Dict, if◌then◌else◌,
}
use hass_ai.Prelude.Int.{ℤ}
use hass_ai.Proposer.Group.{sorted_set}
use hass_ai.Ha.Rest.{Result, ok, raised, EntityState, state_domain}
use hass_ai.Ingest.Context.{day_type, season}
use hass_ai.Ingest.Writer.{BatchWriter, add}
use hass_ai.Ingest.Service.{Row, FrameRow, frame_row, person_object_id, is_down}

-- What a frame reads: the clock and the calendar, the requests, and the settings.
pub record Surroundings : Type 0 where
  pub now : ℕ
  pub today : ℕ
  pub month : ℕ
  pub us_holidays : ℕ → Bool
  pub fetch : String → Result (Option EntityState)
  pub parse_float : String → Option ℤ
  pub outside_temp_entity : String

-- self._person_entities: the ids of the states are different.
abbrev pub person_entities : List String → List EntityState → List String
person_entities excluded states = sorted_set (
    map (λ s. s.entity_id)
      (filter (λ s. str_eq (state_domain s) "person" && not (elem s.entity_id excluded)) states))

-- One round of the loop over the persons; an entity without a dot raises.
abbrev pub add_person : Option (Dict String) → Option String → EntityState → Option (Dict String)
add_person none person state = none
add_person (some home) none state = none
add_person (some home) (some person) state = some ((person, state.state) ∷ home)

abbrev pub note_person :
    String → Result (Option EntityState) → Option (Dict String) → Option (Dict String)
note_person entity_id (raised e) home = none
note_person entity_id (ok none) home = home
note_person entity_id (ok (some state)) home = add_person home (person_object_id entity_id) state

-- persons_home after the loop, where none is an exception. The last person of the list comes first, as the
-- newest binding.
unfoldable pub persons_home :
    (String → Result (Option EntityState))
    → List String
    → Option (Dict String)
    → Option (Dict String)
persons_home fetch [] home = home
persons_home fetch (e ∷ es) home = persons_home fetch es (note_person e (fetch e) home)

-- sun.state if sun else None
abbrev state_text : Option EntityState → Option String
state_text none = none
state_text (some s) = some s.state

abbrev outside_temp : (String → Option ℤ) → Option EntityState → Option ℤ
outside_temp parse_float none = none
outside_temp parse_float (some s) = if is_down (some s.state) then none else parse_float s.state

abbrev pub frame_of :
    Surroundings
    → Option (Dict String)
    → Result (Option EntityState)
    → Result (Option EntityState)
    → Option FrameRow
frame_of w (some home) (ok sun) (ok temp) = some (record {
  time = w.now;
  persons_home = home;
  sun_state = state_text sun;
  day_type = day_type w.us_holidays none w.today;
  season = season w.month;
  outside_temp = outside_temp w.parse_float temp;
})
frame_of w _ _ _ = none

-- The row of a frame, or an exception.
unfoldable pub context_frame : Surroundings → List String → Option FrameRow
unfolding persons_home
context_frame w persons =
    frame_of w (persons_home w.fetch persons (some [])) (w.fetch "sun.sun")
      (w.fetch w.outside_temp_entity)

abbrev pub frame_table : String
frame_table = "context_frames"

abbrev pub store_frame : Option FrameRow → BatchWriter Row → BatchWriter Row
store_frame none writer = writer
store_frame (some row) writer = add frame_table (frame_row row) writer

-- `_write_context_frame` in the loop, which catches every exception.
unfoldable pub write_context_frame : Surroundings → List String → BatchWriter Row → BatchWriter Row
unfolding context_frame add
write_context_frame w persons writer = store_frame (context_frame w persons) writer
