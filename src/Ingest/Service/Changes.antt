-- ===== src/Ingest/Service/Changes.antt =====
-- What `on_state_changed` (src/pae/ingest/service.py) leaves in the writer.
use hass_ai.Prelude.{
  ℕ, ◌≡◌, refl, ap, ◌∙◌, String, true, false, Bool-cases, inl, inr, Option, none, some, List, [],
  ◌∷◌, ◌++◌, append-nil, append_assoc, if◌then◌else◌, str_eq, arith,
}
use hass_ai.Ingest.Attribution.{attribute}
use hass_ai.Ingest.Writer.{BatchWriter, add, flush, needs_flush}
use hass_ai.Ingest.Writer.Conserves.{
  waiting, written, IsDistinct, put_row-IsDistinct, put_row-waiting, flush_from-conserves,
}
use hass_ai.Ingest.Service.{
  Outside, Database, HaEvent, StateObject, Row, event_row, IngestService, event_table,
  presence_table, is_behavior, presence_rows, add_all, flush_if_full, state_changed, event_row_of,
  parse_time, on_state_changed,
}

-- The rows that a behavioural change adds to a table.
abbrev pub rows_of :
    Outside → IngestService → ℕ → HaEvent → StateObject → StateObject → ℕ → String → List Row
rows_of o s clock ev old new when table =
    (if str_eq event_table table
      then event_row (
          event_row_of ev old new
            (attribute ev.context.id ev.context.parent_id ev.context.user_id s.cache clock) when)
        ∷ []
      else [])
    ++ (if str_eq presence_table table
        then presence_rows o s.persons_exclude ev.entity_id old new when
        else [])

add_all-waiting :
    (table other : String) (rows : List Row) (w : BatchWriter Row)
    → IsDistinct w.buffers
    → IsDistinct (add_all table rows w).buffers
      × (waiting other (add_all table rows w).buffers
          ≡ waiting other w.buffers ++ (if str_eq table other then rows else []))
unfolding add_all add
add_all-waiting table other [] w h = (h, ground (arith, append-nil (waiting other w.buffers)))
add_all-waiting table other (row ∷ rows) w h =
    let (distinct, same) =
      add_all-waiting table other rows (add table row w)
        (put_row-IsDistinct table row w.buffers h) in
    (
      distinct,
      same ∙ elim (Bool-cases (str_eq table other)) [
        | inl hit ↦ rw (put_row-waiting table other row w.buffers h, hit, append_assoc) refl
        | inr miss ↦ rw (put_row-waiting table other row w.buffers h, miss, append-nil) refl
      ],
    )

add-waiting :
    (table other : String) (row : Row) (w : BatchWriter Row)
    → IsDistinct w.buffers
    → IsDistinct (add table row w).buffers
      × (waiting other (add table row w).buffers
          ≡ waiting other w.buffers ++ (if str_eq table other then row ∷ [] else []))
unfolding add
add-waiting table other row w h =
    (put_row-IsDistinct table row w.buffers h, put_row-waiting table other row w.buffers h)

flush_if_full-conserves :
    (database : Database) (table : String) (w : BatchWriter Row)
    → IsDistinct w.buffers
    → written table (flush_if_full database w).1
        ++ waiting table (flush_if_full database w).0.buffers
      ≡ waiting table w.buffers
unfolding flush_if_full flush
flush_if_full-conserves database table w h = elim (Bool-cases (needs_flush w)) [
  | inl full ↦ rw full (flush_from-conserves database table w.buffers h)
  | inr room ↦ rw room refl
]

-- A change that passes the guards and whose time parses hands its event row and its presence row to the
-- writer: whether or not the buffers are flushed and whatever the database answers, the rows written to a
-- table and then those waiting for it are those waiting before and then the rows of this change.
pub on_state_changed-rows :
    (o : Outside) (database : Database) (clock now : ℕ) (ev : HaEvent) (old new : StateObject)
    (when : ℕ) (s : IngestService) (table : String)
    → IsDistinct s.writer.buffers
    → ev.old_state ≡ some old
    → ev.new_state ≡ some new
    → is_behavior o s.denylist ev.entity_id old new ≡ true
    → parse_time o new.last_updated ev.time_fired now ≡ some when
    → let r = on_state_changed o database clock now ev s in
      written table r.1 ++ waiting table r.0.writer.buffers
      ≡ waiting table s.writer.buffers ++ rows_of o s clock ev old new when table
unfolding on_state_changed
on_state_changed-rows o database clock now ev old new when s table distinct was is h time =
    let source = attribute ev.context.id ev.context.parent_id ev.context.user_id s.cache clock in
    let row = event_row (event_row_of ev old new source when) in
    let snapshots = presence_rows o s.persons_exclude ev.entity_id old new when in
    let shots = if str_eq presence_table table then snapshots else [] in
    let noted = add event_table row s.writer in
    let noted_ok = add-waiting event_table table row s.writer distinct in
    let (all_ok, all_rows) = add_all-waiting presence_table table snapshots noted noted_ok.0 in
    rw (was, is, h, time)
      (flush_if_full-conserves database table (add_all presence_table snapshots noted) all_ok
        ∙ (all_rows
            ∙ (ap (λ l. l ++ shots) noted_ok.1
                ∙ append_assoc (waiting table s.writer.buffers)
                    (if str_eq event_table table then row ∷ [] else []) shots)))

-- An event of an entity that appears or disappears, and a change that the guards drop, leave the ingester
-- as it is and write nothing.
pub on_state_changed-dropped :
    (o : Outside) (database : Database) (clock now : ℕ) (ev : HaEvent) (s : IngestService)
    → ((old new : StateObject)
        → ev.old_state ≡ some old
        → ev.new_state ≡ some new
        → is_behavior o s.denylist ev.entity_id old new ≡ false)
    → on_state_changed o database clock now ev s ≡ (s, [])
unfolding on_state_changed
on_state_changed-dropped o database clock now ev s h = drop ev.old_state ev.new_state h
  where
    drop :
        (was is : Option StateObject)
        → ((old new : StateObject)
            → was ≡ some old
            → is ≡ some new
            → is_behavior o s.denylist ev.entity_id old new ≡ false)
        → state_changed o database clock now ev was is s ≡ (s, [])
    drop none is h = refl
    drop (some old) none h = refl
    drop (some old) (some new) h = rw (h old new refl refl) refl
