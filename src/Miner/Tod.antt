-- ===== src/Miner/Tod.antt =====
-- `mine_time_of_day` of src/pae/miner/tod.py. Times of day, means and deviations are whole seconds, shares
-- are compared by numerator and denominator, and a stored figure keeps the digit that `round` keeps. The
-- trigonometry, `pstdev`, `fmean` and the format `:02d` are parameters.
pub mod Mine
pub mod Once
pub mod Bounds
use hass_ai.Prelude.{
  ℕ, ◌+◌, ◌-◌, ◌*◌, String, Bool, true, false, not, ◌&&◌, ◌||◌, Option, none, some, List, [], ◌∷◌,
  ◌++◌, map, all, sum_by, ltb, leb, nat_eq, str_eq, is_some, if◌then◌else◌, min, max,
}
use hass_ai.Prelude.Int.{ℤ, pos, negsuc, abs, neg}
use hass_ai.Prelude.Distinct.{distinct}
use hass_ai.Db.Models.{SunOffset}
use hass_ai.Miner.Ratio.{round_div}
use hass_ai.Miner.Stats.{Zone, circular_diff}
use hass_ai.Miner.Stats.Clusters.{Timed}
use hass_ai.Miner.Types.{MinedEvent}
use hass_ai.Miner.Pairs.{is_transition, is_action, state_of}

-- The keyword arguments of `mine_time_of_day`. The least support counts its fourth decimal.
pub record TodSettings : Type 0 where
  pub min_support : ℕ
  pub min_occurrences : ℕ
  pub tolerance : ℕ
  pub cluster_gap : ℕ
  pub schedule_std : ℕ
  pub sun_std : ℕ
  pub sun_min_span_days : ℕ

-- circular_mean, circular_std, pstdev, fmean, and the format `:02d`.
pub record Figures : Type 0 where
  pub mean : List ℕ → ℕ
  pub std : List ℕ → ℕ
  pub deviation : List ℤ → ℕ
  pub average : List ℤ → ℤ
  pub two_digits : ℕ → String

-- A value of `groups` with its key.
pub record Habit : Type 0 where
  pub entity_id : String
  pub action : String
  pub day_type : String
  pub events : List MinedEvent

abbrev is_habit : MinedEvent → String → Habit → Bool
is_habit e day_type h =
    str_eq h.entity_id e.entity_id && (str_eq h.action (state_of e) && str_eq h.day_type day_type)

-- groups.setdefault(key, []).append(e)
unfoldable pub add_event : MinedEvent → String → List Habit → List Habit
add_event e day_type [] =
    record { entity_id = e.entity_id; action = state_of e; day_type = day_type; events = e ∷ [] }
    ∷ []
add_event e day_type (h ∷ hs) =
    let rest = add_event e day_type hs in
    if is_habit e day_type h then record h { events = h.events ++ e ∷ [] } ∷ hs else h ∷ rest

-- The first loop.
unfoldable pub group_events : (ℕ → String) → List MinedEvent → List Habit → List Habit
unfolding add_event
group_events day_type_for [] groups = groups
group_events day_type_for (e ∷ es) groups =
    let skipped = group_events day_type_for es groups in
    let added = group_events day_type_for es (add_event e (day_type_for e.time) groups) in
    if not (is_action e) || not (is_transition e) then skipped else added

-- [evs[i] for i in idx_cluster]; an index from the list itself is never out of range.
unfoldable pub nth : ℕ → List MinedEvent → List MinedEvent
nth i [] = []
nth i (e ∷ es) = let rest = nth (i - 1) es in if nat_eq i 0 then e ∷ [] else rest

unfoldable pub pick : List MinedEvent → List Timed → List MinedEvent
unfolding nth
pick evs [] = []
pick evs (t ∷ ts) = nth t.index evs ++ pick evs ts

abbrev pub dates : Zone → List MinedEvent → List ℕ
dates tz es = map (λ e. tz.date e.time) es

-- round(minutes, 1): to a tenth of a minute.
abbrev pub tenth : ℕ → ℕ
tenth m = round_div m 6 * 6

abbrev pub tenth_ℤ : ℤ → ℤ
tenth_ℤ (pos m) = pos (tenth m)
tenth_ℤ (negsuc m) = neg (pos (tenth (m + 1)))

-- max(active_days) - min(active_days)
abbrev largest : List ℕ → ℕ
largest [] = 0
largest (d ∷ ds) = max d (largest ds)

abbrev smallest : List ℕ → ℕ
smallest [] = 0
smallest (d ∷ []) = d
smallest (d ∷ e ∷ ds) = min d (smallest (e ∷ ds))

abbrev span_days : List ℕ → ℕ
span_days ds = largest ds - smallest ds

-- The tuple `best` of the sun rule.
pub record SunFit : Type 0 where
  pub deviation : ℕ
  pub mean : ℤ
  pub anchor : String

-- [sun.sun_minutes(...) for e in cevs], if none of them is None
unfoldable pub sun_days : (ℕ → Option (ℕ × ℕ)) → List ℕ → Option (List (ℕ × ℕ))
sun_days sun [] = some []
sun_days sun (d ∷ ds) = elim (sun d) [
  | none ↦ none
  | some p ↦ elim (sun_days sun ds) [ none ↦ none | some ps ↦ some (p ∷ ps) ]
]

unfoldable pub offsets : ((ℕ × ℕ) → ℕ) → List ℕ → List (ℕ × ℕ) → List ℤ
unfolding circular_diff
offsets side (m ∷ ms) (p ∷ ps) = circular_diff (pos m) (pos (side p)) ∷ offsets side ms ps
offsets side _ _ = []

-- off_std <= sun_std_minutes and off_std < std
abbrev pub fits : TodSettings → ℕ → ℕ → Bool
fits s std off_std = leb off_std s.sun_std && ltb off_std std

-- best is None or off_std < best[0]
abbrev pub is_better : ℕ → Option SunFit → Bool
is_better off_std none = true
is_better off_std (some best) = ltb off_std best.deviation

-- One round of the loop over sunrise and sunset.
abbrev pub try_anchor : TodSettings → Figures → ℕ → String → List ℤ → Option SunFit → Option SunFit
try_anchor s f std name os best =
    if fits s std (f.deviation os) && is_better (f.deviation os) best
    then some (record { deviation = f.deviation os; mean = f.average os; anchor = name })
    else best

unfoldable pub sun_fit : TodSettings → Figures → ℕ → List ℕ → Option (List (ℕ × ℕ)) → Option SunFit
unfolding offsets
sun_fit s f std cmins none = none
sun_fit s f std cmins (some per_day) =
    try_anchor s f std "sunset" (offsets (λ p. p.1) cmins per_day)
      (try_anchor s f std "sunrise" (offsets (λ p. p.0) cmins per_day) none)

-- `suspected`, `anchor` and the offsets, as they are at the end of the loop's body.
pub record Suspicion : Type 0 where
  pub suspected : Bool
  pub anchor : Option String
  pub sun_offset : Option SunOffset

abbrev no_suspicion : Suspicion
no_suspicion = record { suspected = false; anchor = none; sun_offset = none }

abbrev pub no_user : List MinedEvent → Bool
no_user cevs = all (λ e. not (is_some e.user_id)) cevs

abbrev suspect_sun : Option SunFit → Suspicion
suspect_sun none = no_suspicion
suspect_sun (some best) = record {
  suspected = true;
  anchor = some best.anchor;
  sun_offset = some (record { mean = tenth_ℤ best.mean; std = tenth best.deviation });
}

unfoldable pub suspicion :
    TodSettings
    → Figures
    → Zone
    → Option (ℕ → Option (ℕ × ℕ))
    → ℕ
    → List MinedEvent
    → List ℕ
    → Suspicion
unfolding distinct sun_days sun_fit
suspicion s f tz sun std cevs cmins =
    if leb std s.schedule_std && no_user cevs
    then record { suspected = true; anchor = some "clock"; sun_offset = none }
    else elim sun [
      | none ↦ no_suspicion
      | some sun_minutes ↦
          if no_user cevs && leb s.sun_min_span_days (span_days (distinct (dates tz cevs)))
          then suspect_sun (sun_fit s f std cmins (sun_days sun_minutes (dates tz cevs)))
          else no_suspicion
    ]

-- sum(1 for m in cmins if abs(circular_diff(m, mean)) <= tolerance_minutes)
unfoldable pub count_within : ℕ → ℕ → List ℕ → ℕ
unfolding circular_diff
count_within tolerance mean cmins =
    sum_by (λ m. if leb (abs (circular_diff (pos m) (pos mean))) tolerance then 1 else 0) cmins
