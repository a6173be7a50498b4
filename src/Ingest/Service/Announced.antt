-- ===== src/Ingest/Service/Announced.antt =====
-- What `on_state_changed` (src/pae/ingest/service.py) records of the changes that an automation or a script
-- causes.
use hass_ai.Prelude.{
  sym, ℕ, ◌+◌, ◌≤◌, ◌≡◌, ◌≢◌, refl, ap, ◌∙◌, String, false, Bool-cases, inl, inr, ◌⊎◌, Option, none,
  some, List, [], ◌∷◌, ◌++◌, All, if◌then◌else◌, str_eq, elem,
}
use hass_ai.Db.Models.{Source, pae, automation}
use hass_ai.Ingest.Attribution.{ContextCache, attribute, get, add as remember}
use hass_ai.Ingest.Attribution.Cache.{Announcement, announce, attribute-announce}
use hass_ai.Ingest.Writer.Conserves.{waiting, written, IsDistinct}
use hass_ai.Ingest.Service.{
  true, Outside, Database, HaEvent, StateObject, event_row, IngestService, event_table, is_behavior,
  state_changed, store_change, event_row_of, parse_time, on_state_changed, on_automation_activity,
  announced,
}
use hass_ai.Ingest.Service.Changes.{on_state_changed-rows}

-- What reaches the ingester, with what the clocks show.
pub data Incoming : Type 0 where
  activity : (clock : ℕ) (ev : HaEvent) → Incoming
  change : (database : Database) (clock now : ℕ) (ev : HaEvent) → Incoming

-- The ingester behind the events.
abbrev pub handle_all : Outside → List Incoming → IngestService → IngestService
handle_all o [] s = s
handle_all o (activity clock ev ∷ rest) s = handle_all o rest (on_automation_activity clock ev s)
handle_all o (change database clock now ev ∷ rest) s =
    handle_all o rest (on_state_changed o database clock now ev s).0

-- The event announces no other run of the context, and comes no later than the time.
abbrev pub IsOther : String → ℕ → Incoming → Type 0
IsOther ctx time (activity clock ev) = (ev.context.id ≢ some ctx) × (clock ≤ time)
IsOther ctx time (change database clock now ev) = Unit

-- A change of a state leaves the announcements and the registered automations as they are.
kept-store_change :
    (o : Outside) (database : Database) (ev : HaEvent) (old new : StateObject) (source : Source)
    (when : Option ℕ) (s : IngestService)
    → ((store_change o database ev old new source when s).0.cache ≡ s.cache)
      × ((store_change o database ev old new source when s).0.pae_automations ≡ s.pae_automations)
kept-store_change o database ev old new source none s = (refl, refl)
kept-store_change o database ev old new source (some when) s = (refl, refl)

kept-on_state_changed :
    (o : Outside) (database : Database) (clock now : ℕ) (ev : HaEvent) (s : IngestService)
    → ((on_state_changed o database clock now ev s).0.cache ≡ s.cache)
      × ((on_state_changed o database clock now ev s).0.pae_automations ≡ s.pae_automations)
unfolding on_state_changed
kept-on_state_changed o database clock now ev s = by_states ev.old_state ev.new_state
  where
    by_states :
        (was is : Option StateObject)
        → ((state_changed o database clock now ev was is s).0.cache ≡ s.cache)
          × ((state_changed o database clock now ev was is s).0.pae_automations ≡ s.pae_automations)
    by_states none is = (refl, refl)
    by_states (some old) none = (refl, refl)
    by_states (some old) (some new) =
        elim (Bool-cases (is_behavior o s.denylist ev.entity_id old new)) [
          | inl h ↦ rw h (kept-store_change o database ev old new _ _ s)
          | inr h ↦ rw h (refl, refl)
        ]

-- The announcements among the events.
abbrev announcement : List String → ℕ → String → Option String → List Announcement
announcement own clock entity_id none = []
announcement own clock entity_id (some ctx) =
    if str_eq ctx ""
    then []
    else record {
      context_id = ctx;
      source = if elem entity_id own then pae else automation;
      at = clock;
    }
      ∷ []

abbrev announcements : List String → List Incoming → List Announcement
announcements own [] = []
announcements own (activity clock ev ∷ rest) =
    announcement own clock ev.entity_id ev.context.id ++ announcements own rest
announcements own (change database clock now ev ∷ rest) = announcements own rest

announce-announced :
    (own : List String) (clock : ℕ) (entity_id : String) (o : Option String)
    (rest : List Announcement) (s : IngestService)
    → announce (announcement own clock entity_id o ++ rest) s.cache
      ≡ announce rest (announced own o entity_id clock s.cache)
announce-announced own clock entity_id none rest s = refl
announce-announced own clock entity_id (some ctx) rest s = elim (Bool-cases (str_eq ctx "")) [
  | inl bare ↦ rw bare refl
  | inr full ↦ rw full refl
]

cache-handle_all :
    (o : Outside) (events : List Incoming) (s : IngestService)
    → (handle_all o events s).cache ≡ announce (announcements s.pae_automations events) s.cache
unfolding on_automation_activity
cache-handle_all o [] s = refl
cache-handle_all o (activity clock ev ∷ rest) s =
    cache-handle_all o rest (on_automation_activity clock ev s)
    ∙ sym (
        announce-announced s.pae_automations clock ev.entity_id ev.context.id
          (announcements s.pae_automations rest) s)
cache-handle_all o (change database clock now ev ∷ rest) s =
    let (same, own) = kept-on_state_changed o database clock now ev s in
    rw (cache-handle_all o rest (on_state_changed o database clock now ev s).0, same, own) refl

announcement-IsOther :
    (own : List String) (clock time : ℕ) (entity_id ctx : String) (o : Option String)
    (rest : List Announcement)
    → o ≢ some ctx
    → clock ≤ time
    → All (λ a. (a.context_id ≢ ctx) × (a.at ≤ time)) rest
    → All (λ a. (a.context_id ≢ ctx) × (a.at ≤ time)) (announcement own clock entity_id o ++ rest)
announcement-IsOther own clock time entity_id ctx none rest other early ok = ok
announcement-IsOther own clock time entity_id ctx (some c) rest other early ok =
    elim (Bool-cases (str_eq c "")) [
      | inl bare ↦ rw bare ok
      | inr full ↦ rw full ((λ e. other (ap (λ t. some t) e), early), ok)
    ]

announcements-IsOther :
    (own : List String) (ctx : String) (time : ℕ) (events : List Incoming)
    → All (IsOther ctx time) events
    → All (λ a. (a.context_id ≢ ctx) × (a.at ≤ time)) (announcements own events)
announcements-IsOther own ctx time [] ok = tt
announcements-IsOther own ctx time (activity clock ev ∷ rest) ok =
    announcement-IsOther own clock time ev.entity_id ctx ev.context.id (announcements own rest)
      ok.0.0 ok.0.1 (announcements-IsOther own ctx time rest ok.1)
announcements-IsOther own ctx time (change database clock now ev ∷ rest) ok =
    announcements-IsOther own ctx time rest ok.1

-- The context of the announcement, or a child of it that has no live announcement of its own.
abbrev pub IsCaused : String → ℕ → IngestService → HaEvent → Type 0
IsCaused ctx clock s ev =
    (ev.context.id ≡ some ctx)
    ⊎ ((get ev.context.id clock s.cache ≡ none) × (ev.context.parent_id ≡ some ctx))

attribute-IsCaused :
    (o : Outside) (began clock : ℕ) (act ev : HaEvent) (ctx : String) (between : List Incoming)
    (s : IngestService)
    → act.context.id ≡ some ctx
    → str_eq ctx "" ≡ false
    → clock ≤ began + s.cache.ttl
    → All (IsOther ctx clock) between
    → let before = handle_all o between (on_automation_activity began act s) in
      IsCaused ctx clock before ev
      → attribute ev.context.id ev.context.parent_id ev.context.user_id before.cache clock
        ≡ (if elem act.entity_id s.pae_automations then pae else automation)
unfolding on_automation_activity
attribute-IsCaused o began clock act ev ctx between s named full live others by =
    let source = if elem act.entity_id s.pae_automations then pae else automation in
    let later = announcements s.pae_automations between in
    let first : announced s.pae_automations act.context.id act.entity_id began s.cache
        ≡ remember ctx source began s.cache =
      rw (named, full) refl in
    let cached : (handle_all o between (on_automation_activity began act s)).cache
        ≡ announce later (remember ctx source began s.cache) =
      cache-handle_all o between (on_automation_activity began act s)
      ∙ ap (λ (c : ContextCache). announce later c) first in
    let (own, child) =
      attribute-announce ctx source began clock s.cache later live
        (announcements-IsOther s.pae_automations ctx clock between others) in
    elim by [
      | inl same ↦ rw (cached, same) (own ev.context.parent_id ev.context.user_id)
      | inr (bare, parent) ↦
          rw (cached, parent) (child ev.context.id ev.context.user_id (rw cached at bare))
    ]

pub on_state_changed-announced :
    (o : Outside) (database : Database) (began clock now : ℕ) (act ev : HaEvent) (ctx : String)
    (between : List Incoming) (old new : StateObject) (when : ℕ) (s : IngestService)
    → act.context.id ≡ some ctx
    → str_eq ctx "" ≡ false
    → clock ≤ began + s.cache.ttl
    → All (IsOther ctx clock) between
    → let before = handle_all o between (on_automation_activity began act s) in
      IsCaused ctx clock before ev
      → IsDistinct before.writer.buffers
      → ev.old_state ≡ some old
      → ev.new_state ≡ some new
      → is_behavior o before.denylist ev.entity_id old new ≡ true
      → parse_time o new.last_updated ev.time_fired now ≡ some when
      → let r = on_state_changed o database clock now ev before in
        let source = if elem act.entity_id s.pae_automations then pae else automation in
        written event_table r.1 ++ waiting event_table r.0.writer.buffers
        ≡ waiting event_table before.writer.buffers
          ++ event_row (event_row_of ev old new source when) ∷ []
on_state_changed-announced o database began clock now act ev ctx between old new when s named full
      live others by distinct was is h time =
    let before = handle_all o between (on_automation_activity began act s) in
    on_state_changed-rows o database clock now ev old new when before event_table distinct was is h
      time
    ∙ ap
        (λ source.
          waiting event_table before.writer.buffers
          ++ event_row (event_row_of ev old new source when) ∷ [])
        (attribute-IsCaused o began clock act ev ctx between s named full live others by)
