-- ===== src/Proposer/Gates/Eligible.antt =====
-- The conditions of an eligible pattern (src/pae/proposer/gates.py), apart from the order of the tests.
use hass_ai.Prelude.{
  ℕ, String, ◌≤◌, ◌≡◌, refl, sym, ap, ◌∙◌, ◌↔◌, In-cons, ◌≢◌, inl, inr, true, false, Option, none,
  some, List, [], ◌∷◌, arith, In, elem, elem→In, In→elem, Bool-cases, eq_iff,
}
use hass_ai.Db.Models.{Kind, time_of_day, event_pair, other_kind, PatternStatus, Pattern}
use hass_ai.Proposer.Gates.{
  missing_or_below, missing_or_above, Thresholds, opt_elem, sched_flagged_entities, passes_kind,
  passes, keep, eligible_patterns,
}

-- No pattern of `patterns` marks the entity as driven by a schedule.
abbrev pub IsUnscheduled : List Pattern → String → Type 0
IsUnscheduled patterns e =
    (q : Pattern)
    → In q patterns
    → q.kind ≡ time_of_day
    → q.suspected_schedule ≡ true
    → q.entity_id ≢ e

-- The conditions of its kind.
abbrev pub MeetsKind : Thresholds → List String → List Pattern → Pattern → Kind → Type 0
MeetsKind t ids patterns p time_of_day =
    ((c : ℕ) × (p.temporal_consistency ≡ some c) × (t.tod_min_consistency ≤ c))
    × ((s : ℕ) × (p.tod_std_minutes ≡ some s) × (s ≤ t.tod_max_std_minutes))
    × (t.tod_min_support ≤ p.support)
    × (t.tod_min_days ≤ p.days_observed)
MeetsKind t ids patterns p event_pair =
    ((e : String) × (p.trigger_entity_id ≡ some e) × In e ids × IsUnscheduled patterns e)
    × (t.pair_min_confidence ≤ p.confidence)
    × (t.pair_min_lift ≤ p.lift)
MeetsKind t ids patterns p (other_kind _) = ⊥

pub record IsEligible (t : Thresholds) (ids : List String) (patterns : List Pattern) (p : Pattern)
    : Type 0 where
  pub no_schedule : p.suspected_schedule ≡ false
  pub not_rejected : p.status ≢ PatternStatus.rejected
  pub unscheduled : IsUnscheduled patterns p.entity_id
  pub registered : In p.entity_id ids
  pub often : t.min_occurrences ≤ p.occurrences
  pub of_kind : MeetsKind t ids patterns p p.kind

flagged_sound :
    (patterns : List Pattern) (e : String)
    → elem e (sched_flagged_entities patterns) ≡ false
    → IsUnscheduled patterns e
unfolding sched_flagged_entities
flagged_sound [] e h q m k s = absurd m
flagged_sound (p ∷ ps) e h q (inl same) k s = λ named. ground (
  arith,
  (eq_iff p.entity_id e).1 (ap (λ (r : Pattern). r.entity_id) (sym same) ∙ named),
  ap (λ (r : Pattern). r.kind) same,
  ap (λ (r : Pattern). r.suspected_schedule) same,
)
flagged_sound (p ∷ ps) e h q (inr m) k s = flagged_sound ps e (ground arith) q m k s

flagged_complete :
    (patterns : List Pattern) (e : String)
    → IsUnscheduled patterns e
    → elem e (sched_flagged_entities patterns) ≡ false
unfolding sched_flagged_entities
flagged_complete [] e h = refl
flagged_complete (p ∷ ps) e h =
    ground (arith, eq_iff p.entity_id e, h p (inl refl), flagged_complete ps e (λ q m. h q (inr m)))

module _ (t : Thresholds) (flagged ids : List String) where
  In-keep :
      (p : Pattern) (ps : List Pattern)
      → In p (keep t flagged ids ps)
      → In p ps × (passes t flagged ids p ≡ true)
  unfolding keep
  In-keep p [] m = absurd m
  In-keep p (q ∷ ps) m = elim (Bool-cases (passes t flagged ids q)) [
    | inl good ↦ elim (In-cons p q (keep t flagged ids ps) (rw good at m)) [
      | inl same ↦ (inl same, ap (passes t flagged ids) same ∙ good)
      | inr later ↦ let (n, g) = In-keep p ps later in (inr n, g)
    ]
    | inr bad ↦ let (n, g) = In-keep p ps (rw bad at m) in (inr n, g)
  ]

  keep-In :
      (p : Pattern) (ps : List Pattern)
      → In p ps
      → passes t flagged ids p ≡ true
      → In p (keep t flagged ids ps)
  unfolding keep
  keep-In p [] m good = absurd m
  keep-In p (q ∷ ps) (inl same) good = rw (ap (passes t flagged ids) (sym same) ∙ good) (inl same)
  keep-In p (q ∷ ps) (inr m) good = elim (Bool-cases (passes t flagged ids q)) [
    | inl b ↦ rw b (inr (keep-In p ps m good))
    | inr b ↦ rw b (keep-In p ps m good)
  ]

reaches :
    (o : Option ℕ) (low : ℕ) → missing_or_below o low ≡ false → (c : ℕ) × (o ≡ some c) × (low ≤ c)
reaches none low h = cc
reaches (some c) low h = (c, refl, ground arith)

stays_below :
    (o : Option ℕ) (high : ℕ)
    → missing_or_above o high ≡ false
    → (s : ℕ) × (o ≡ some s) × (s ≤ high)
stays_below none high h = cc
stays_below (some s) high h = (s, refl, ground arith)

trigger_known :
    (o : Option String) (flagged ids : List String)
    → opt_elem o flagged ≡ false
    → opt_elem o ids ≡ true
    → (e : String) × (o ≡ some e) × (elem e flagged ≡ false) × (elem e ids ≡ true)
trigger_known none flagged ids f k = cc
trigger_known (some e) flagged ids f k = (e, refl, f, k)

module _ (t : Thresholds) (ids : List String) (patterns : List Pattern) where
  abbrev flags : List String
  flags = sched_flagged_entities patterns

  passes_kind_sound :
      (p : Pattern) (k : Kind) → passes_kind t flags ids p k ≡ true → MeetsKind t ids patterns p k
  unfolding passes_kind
  passes_kind_sound p time_of_day h = (
    reaches p.temporal_consistency t.tod_min_consistency (ground arith),
    stays_below p.tod_std_minutes t.tod_max_std_minutes (ground arith),
    ground arith,
    ground arith,
  )
  passes_kind_sound p event_pair h =
      let (e, named, free, known) =
        trigger_known p.trigger_entity_id flags ids (ground arith) (ground arith) in
      ((e, named, elem→In e ids known, flagged_sound patterns e free), ground arith, ground arith)
  passes_kind_sound p (other_kind _) h = cc

  passes_kind_complete :
      (p : Pattern) (k : Kind) → MeetsKind t ids patterns p k → passes_kind t flags ids p k ≡ true
  unfolding passes_kind
  passes_kind_complete p time_of_day h = ground arith
  passes_kind_complete p event_pair ((e, named, m, free), c, l) =
      ground (arith, flagged_complete patterns e free, In→elem e ids m)
  passes_kind_complete p (other_kind _) h = absurd h

  passes_sound : (p : Pattern) → passes t flags ids p ≡ true → IsEligible t ids patterns p
  unfolding passes
  passes_sound p h = record {
    no_schedule = ground arith;
    not_rejected = ground arith;
    unscheduled = flagged_sound patterns p.entity_id (ground arith);
    registered = elem→In p.entity_id ids (ground arith);
    often = ground arith;
    of_kind = passes_kind_sound p p.kind (ground arith);
  }

  passes_complete : (p : Pattern) → IsEligible t ids patterns p → passes t flags ids p ≡ true
  unfolding passes
  passes_complete p h = ground (
    arith,
    flagged_complete patterns p.entity_id h.unscheduled,
    In→elem p.entity_id ids h.registered,
    passes_kind_complete p p.kind h.of_kind,
    h.not_rejected,
  )

-- A pattern is shown to the language model exactly if it was mined and meets every condition: no
-- schedule drives its entity or its trigger, both are registered, nobody rejected it, and its figures
-- reach the thresholds of its kind.
pub In-eligible_patterns_iff :
    (t : Thresholds) (ids : List String) (patterns : List Pattern) (p : Pattern)
    → In p (eligible_patterns t ids patterns) ↔ (In p patterns × IsEligible t ids patterns p)
unfolding eligible_patterns
In-eligible_patterns_iff t ids patterns p = (
  λ m.
      let (n, g) = In-keep t (sched_flagged_entities patterns) ids p patterns m in
      (n, passes_sound t ids patterns p g),
  λ (n, e).
      keep-In t (sched_flagged_entities patterns) ids p patterns n
        (passes_complete t ids patterns p e),
)
