-- ===== src/Miner/Pairs.antt =====
-- `mine_event_pairs` of src/pae/miner/pairs.py. Times and widths are seconds; a ratio is compared by its
-- numerator and denominator, where the source divides floats. The text of a key is formatted as there; the
-- `isoformat` of a time is the time itself.
pub mod Window
pub mod Hits
pub mod Candidates
use Prim.Native.String.{◌++◌ as append}
use hass_ai.Prelude.{
  ℕ, ◌+◌, ◌-◌, ◌*◌, String, Bool, true, false, not, ◌&&◌, ◌||◌, Option, none, some, List, [], ◌∷◌,
  ◌++◌, length, filter, last_n, elem, ltb, leb, nat_eq, str_eq, opt_eq, truthy, any, sum_by,
  if◌then◌else◌,
}
use hass_ai.Prelude.Distinct.{add_number}
use hass_ai.Prelude.Sort.{sort_by}
use hass_ai.Db.Models.{event_pair, is_manual, Evidence}
use hass_ai.Miner.Ratio.{round_div, ratio_one}
use hass_ai.Miner.Stats.{Zone}
use hass_ai.Miner.Types.{MinedEvent, PatternCandidate, actionable_domains}

-- The keyword arguments of `mine_event_pairs`. A confidence counts its fourth decimal, a lift its second.
pub record PairSettings : Type 0 where
  pub window : ℕ
  pub min_gap : ℕ
  pub min_pairs : ℕ
  pub min_confidence : ℕ
  pub min_lift : ℕ

-- e.new_state and e.new_state != e.old_state
abbrev pub is_transition : MinedEvent → Bool
is_transition e = truthy e.new_state && not (opt_eq e.new_state e.old_state)

unfoldable pub transitions_of : List MinedEvent → List MinedEvent
unfolding sort_by
transitions_of events = filter is_transition (sort_by (λ e. e.time) events)

-- e.triggered_by == "manual" and e.domain in ACTIONABLE_DOMAINS
abbrev pub is_action : MinedEvent → Bool
is_action e = is_manual e.triggered_by && elem e.domain actionable_domains

-- A transition has a state.
abbrev pub state_of : MinedEvent → String
state_of e = elim e.new_state [ none ↦ "" | some s ↦ s ]

-- (e.entity_id, e.new_state) == (entity, state)
abbrev pub has_key : String → String → MinedEvent → Bool
has_key entity state e = str_eq e.entity_id entity && str_eq (state_of e) state

-- Counter(...)[(entity, state)]
abbrev pub count_key : String → String → List MinedEvent → ℕ
count_key entity state es = sum_by (λ e. if has_key entity state e then 1 else 0) es

-- A transition with its position.
pub record Placed : Type 0 where
  pub index : ℕ
  pub happened : MinedEvent

-- (a.entity_id, a.new_state) in seen
abbrev pub is_seen : MinedEvent → List MinedEvent → Bool
is_seen a seen = any (has_key a.entity_id (state_of a)) seen

-- The `while j >= 0` loop over the transitions before `b`, the nearest first: the antecedents of `b`. It
-- stops at the first that is out of the window.
unfoldable pub scan : PairSettings → MinedEvent → List MinedEvent → List Placed → List Placed
scan s b seen [] = []
scan s b seen (a ∷ earlier) =
    let gap = b.time - a.happened.time in
    let skipped = scan s b seen earlier in
    let taken = scan s b (a.happened ∷ seen) earlier in
    if ltb s.window gap
    then []
    else if ltb gap s.min_gap || str_eq a.happened.entity_id b.entity_id
    then skipped
    else if is_seen a.happened seen
    then skipped
    else a ∷ taken

-- A value of `hits` with its key.
pub record Hit : Type 0 where
  pub trigger_entity : String
  pub trigger_state : String
  pub entity : String
  pub state : String
  pub antecedents : List ℕ
  pub days : List ℕ
  pub times : List ℕ

abbrev pub is_hit : MinedEvent → MinedEvent → Hit → Bool
is_hit a b h =
    (str_eq a.entity_id h.trigger_entity && str_eq (state_of a) h.trigger_state)
    && (str_eq b.entity_id h.entity && str_eq (state_of b) h.state)

abbrev pub extend_hit : Zone → Placed → MinedEvent → Hit → Hit
extend_hit tz a b h = record h {
  antecedents = add_number a.index h.antecedents;
  days = add_number (tz.date b.time) h.days;
  times = h.times ++ b.time ∷ [];
}

abbrev pub new_hit : Zone → Placed → MinedEvent → Hit
new_hit tz a b = record {
  trigger_entity = a.happened.entity_id;
  trigger_state = state_of a.happened;
  entity = b.entity_id;
  state = state_of b;
  antecedents = a.index ∷ [];
  days = tz.date b.time ∷ [];
  times = b.time ∷ [];
}

-- hits.setdefault(...), and the three additions.
unfoldable pub record_hit : Zone → MinedEvent → Placed → List Hit → List Hit
record_hit tz b a [] = new_hit tz a b ∷ []
record_hit tz b a (h ∷ hs) =
    let rest = record_hit tz b a hs in
    if is_hit a.happened b h then extend_hit tz a b h ∷ hs else h ∷ rest

unfoldable pub record_hits : Zone → MinedEvent → List Placed → List Hit → List Hit
unfolding record_hit
record_hits tz b [] hits = hits
record_hits tz b (a ∷ antecedents) hits = record_hits tz b antecedents (record_hit tz b a hits)

-- One round of the outer loop.
unfoldable pub collect_one : PairSettings → Zone → List Placed → MinedEvent → List Hit → List Hit
unfolding scan record_hits
collect_one s tz earlier b hits =
    if is_action b then record_hits tz b (scan s b [] earlier) hits else hits

-- The outer loop; `earlier` holds the transitions before, the nearest first.
unfoldable pub collect :
    PairSettings → Zone → ℕ → List Placed → List MinedEvent → List Hit → List Hit
unfolding collect_one
collect s tz i earlier [] hits = hits
collect s tz i earlier (b ∷ bs) hits =
    collect s tz (i + 1) (record { index = i; happened = b } ∷ earlier) bs
      (collect_one s tz earlier b hits)

-- confidence = n_ab / n_a < min_confidence
abbrev pub is_unlikely : PairSettings → ℕ → ℕ → Bool
is_unlikely s n_ab n_a = ltb (n_ab * ratio_one) (s.min_confidence * n_a)

-- lift = confidence / p_b with p_b = n_b * window / span, or 0 where p_b is: its numerator and denominator.
abbrev lift_above : ℕ → ℕ → ℕ
lift_above n_ab span = n_ab * span * 100

abbrev lift_below : PairSettings → ℕ → ℕ → ℕ
lift_below s n_a n_b = n_a * (n_b * s.window)

abbrev lift_of : PairSettings → ℕ → ℕ → ℕ → ℕ → ℕ
lift_of s n_ab n_a n_b span =
    if nat_eq (lift_below s n_a n_b) 0
    then 0
    else round_div (lift_above n_ab span) (lift_below s n_a n_b)

-- lift < min_lift
abbrev pub is_chance : PairSettings → ℕ → ℕ → ℕ → ℕ → Bool
is_chance s n_ab n_a n_b span =
    if nat_eq (lift_below s n_a n_b) 0
    then ltb 0 s.min_lift
    else ltb (lift_above n_ab span) (s.min_lift * lift_below s n_a n_b)

abbrev pub head_or : ℕ → List ℕ → ℕ
head_or d [] = d
head_or d (n ∷ ns) = n

-- PatternCandidate(...) of a pair; `times` are sorted and not empty.
abbrev pair_candidate : PairSettings → ℕ → ℕ → ℕ → ℕ → Hit → List ℕ → PatternCandidate
pair_candidate s days_observed span n_a n_b h times = record {
  kind = event_pair;
  pattern_key = append "pair:" (
      append h.trigger_entity
        (append ":" (append h.trigger_state (append "->" (append h.entity (append ":" h.state))))));
  entity_id = h.entity;
  action = h.state;
  day_type = none;
  trigger_entity_id = some h.trigger_entity;
  trigger_state = some h.trigger_state;
  tod_minutes = none;
  tod_std_minutes = none;
  support = round_div (length h.days * ratio_one) days_observed;
  confidence = round_div (length h.antecedents * ratio_one) n_a;
  lift = lift_of s (length h.antecedents) n_a n_b span;
  temporal_consistency = none;
  occurrences = length h.antecedents;
  days_observed = days_observed;
  suspected_schedule = false;
  evidence = record {
    schedule_anchor = none;
    sun_offset = none;
    sample_times = last_n 10 times;
    n_a = some n_a;
    n_b = some n_b;
  };
  first_seen = head_or 0 times;
  last_seen = head_or 0 (last_n 1 times);
}

-- The body of the last loop; an empty list is its `continue`.
unfoldable pub candidate_of : PairSettings → List MinedEvent → ℕ → ℕ → Hit → List PatternCandidate
unfolding round_div sort_by
candidate_of s ts days_observed span h =
    let n_ab = length h.antecedents in
    let n_a = count_key h.trigger_entity h.trigger_state ts in
    let n_b = count_key h.entity h.state (filter is_action ts) in
    if ltb n_ab s.min_pairs
    then []
    else if is_unlikely s n_ab n_a
    then []
    else if is_chance s n_ab n_a n_b span
    then []
    else pair_candidate s days_observed span n_a n_b h (sort_by (λ t. t) h.times) ∷ []

unfoldable pub candidates_of :
    PairSettings → List MinedEvent → ℕ → ℕ → List Hit → List PatternCandidate
unfolding candidate_of
candidates_of s ts days_observed span [] = []
candidates_of s ts days_observed span (h ∷ hs) =
    candidate_of s ts days_observed span h ++ candidates_of s ts days_observed span hs

unfoldable pub mine_event_pairs :
    PairSettings → Zone → ℕ → ℕ → List MinedEvent → List PatternCandidate
unfolding candidates_of collect transitions_of
mine_event_pairs s tz days_observed span events =
    if leb days_observed 0 || leb span 0
    then []
    else (let ts = transitions_of events in
        candidates_of s ts days_observed span (collect s tz 0 [] ts []))
