-- ===== src/Miner/Tod/Bounds.antt =====
-- What `mine_time_of_day` (src/pae/miner/tod.py) promises of its candidates.
use hass_ai.Prelude.{
  ℕ, ◌-◌, ◌*◌, ◌≤◌, ◌<◌, ◌≡◌, refl, Bool, true, not, ◌||◌, String, Option, none, some, List, [],
  ◌∷◌, map, length, All, All-append, All-In, In, inl, inr, Bool-cases, arith, ltb, nat_eq, eq_iff,
}
use hass_ai.Prelude.Distinct.{distinct}
use hass_ai.Miner.Ratio.{ratio_one, round_div}
use hass_ai.Miner.Stats.{Zone, local_minute}
use hass_ai.Miner.Stats.Clusters.{Timed, cluster_minutes}
use hass_ai.Miner.Types.{MinedEvent, PatternCandidate}
use hass_ai.Miner.Pairs.{is_action, is_transition, state_of}
use hass_ai.Miner.Tod.{
  TodSettings, Figures, Habit, suspicion, no_user, pick, nth, dates, add_event, group_events,
  is_habit,
}
use hass_ai.Miner.Tod.Once.{IsPart, group_events-IsPart, clusters-IsPart}
use hass_ai.Miner.Tod.Mine.{mine_cluster, mine_clusters, mine_habit, mine_habits, mine_time_of_day}

nth-All {κ} :
    (P : MinedEvent → Type κ) (i : ℕ) (evs : List MinedEvent) → All P evs → All P (nth i evs)
unfolding nth
nth-All P i [] h = tt
nth-All P i (e ∷ es) h = elim (Bool-cases (nat_eq i 0)) [
  | inl here ↦ rw here (h.0, tt)
  | inr later ↦ rw later (nth-All P (i - 1) es h.1)
]

pick-All {κ} :
    (P : MinedEvent → Type κ) (evs : List MinedEvent) (ts : List Timed)
    → All P evs
    → All P (pick evs ts)
unfolding pick
pick-All P evs [] h = tt
pick-All P evs (t ∷ ts) h =
    All-append P (nth t.index evs) (pick evs ts) (nth-All P t.index evs h) (pick-All P evs ts h)

or_right : (a b : Bool) → b ≡ true → (a || b) ≡ true
or_right a b h = ground (arith, h)

suspicion-no_user :
    (s : TodSettings) (f : Figures) (tz : Zone) (sun : Option (ℕ → Option (ℕ × ℕ))) (std : ℕ)
    (cevs : List MinedEvent) (cmins : List ℕ)
    → (not (suspicion s f tz sun std cevs cmins).suspected || no_user cevs) ≡ true
unfolding suspicion
suspicion-no_user s f tz none std cevs cmins = ground arith
suspicion-no_user s f tz (some sun) std cevs cmins = elim (Bool-cases (no_user cevs)) [
  | inl alone ↦
      or_right (not (suspicion s f tz (some sun) std cevs cmins).suspected) (no_user cevs) alone
  | inr user ↦ ground (arith, user)
]

module _ (events : List MinedEvent) (day_type_for : ℕ → String) where
  -- A manual action among the events with an entity, a new state and a type of day.
  abbrev pub IsOf : String → String → String → MinedEvent → Type 0
  IsOf entity action day_type e =
      In e events
      × (is_action e ≡ true)
      × (is_transition e ≡ true)
      × (e.entity_id ≡ entity)
      × (state_of e ≡ action)
      × (day_type_for e.time ≡ day_type)

  abbrev IsGroup : Habit → Type 0
  IsGroup h = All (IsOf h.entity_id h.action h.day_type) h.events

  add_event-IsGroup :
      (e : MinedEvent) (hs : List Habit)
      → In e events
      → is_action e ≡ true
      → is_transition e ≡ true
      → All IsGroup hs
      → All IsGroup (add_event e (day_type_for e.time) hs)
  unfolding add_event
  add_event-IsGroup e [] m a t hs = ((((m, a, t, refl, refl, refl), tt)), tt)
  add_event-IsGroup e (h ∷ rest) m a t hs = elim (Bool-cases (is_habit e (day_type_for e.time) h)) [
    | inl same ↦ rw same (
      All-append (IsOf h.entity_id h.action h.day_type) h.events (e ∷ []) hs.0 (
        (
          m,
          a,
          t,
          ground (arith, same, eq_iff h.entity_id e.entity_id),
          ground (arith, same, eq_iff h.action (state_of e)),
          ground (arith, same, eq_iff h.day_type (day_type_for e.time)),
        ),
        tt,
      ),
      hs.1,
    )
    | inr other ↦ rw other (hs.0, add_event-IsGroup e rest m a t hs.1)
  ]

  group_events-IsGroup :
      (es : List MinedEvent) (hs : List Habit)
      → All (λ e. In e events) es
      → All IsGroup hs
      → All IsGroup (group_events day_type_for es hs)
  unfolding group_events
  group_events-IsGroup [] hs m ok = ok
  group_events-IsGroup (e ∷ es) hs m ok =
      elim (Bool-cases (not (is_action e) || not (is_transition e))) [
        | inl skip ↦ rw skip (group_events-IsGroup es hs m.1 ok)
        | inr keep ↦ rw keep (
            group_events-IsGroup es (add_event e (day_type_for e.time) hs) m.1
              (add_event-IsGroup e hs m.0 (ground (arith, keep)) (ground (arith, keep)) ok))
      ]

-- What stands behind a candidate: manual actions among the events with its entity, its action and its day
-- type, each as often as among the events or less. They are as many as it counts, enough, and on enough days; its support is the share of those days;
-- and where it is suspected to be a schedule none of them has a user.
abbrev pub IsMined :
    TodSettings → Zone → (ℕ → String) → (String → ℕ) → List MinedEvent → PatternCandidate → Type 0
IsMined s tz day_type_for days_observed events c =
    (day_type : String) × (es : List MinedEvent) × (c.day_type ≡ some day_type)
    × All (IsOf events day_type_for c.entity_id c.action day_type) es
    × IsPart es events
    × (c.occurrences ≡ length es)
    × (s.min_occurrences ≤ length es)
    × (0 < days_observed day_type)
    × (s.min_support * days_observed day_type ≤ length (distinct (dates tz es)) * ratio_one)
    × (c.support ≡ round_div (length (distinct (dates tz es)) * ratio_one) (days_observed day_type))
    × (c.confidence ≡ c.support)
    × ((not c.suspected_schedule || no_user es) ≡ true)

module _ (s : TodSettings) (f : Figures) (tz : Zone) (sun : Option (ℕ → Option (ℕ × ℕ)))
    (day_type_for : ℕ → String) (days_observed : String → ℕ) (events : List MinedEvent) where
  mine_cluster-IsMined :
      (h : Habit) (cluster : List Timed)
      → IsGroup events day_type_for h
      → IsPart (pick h.events cluster) events
      → 0 < days_observed h.day_type
      → All
          (IsMined s tz day_type_for days_observed events)
          (mine_cluster s f tz sun h (days_observed h.day_type) cluster)
  unfolding mine_cluster
  mine_cluster-IsMined h cluster ok part seen =
      let cevs = pick h.events cluster in
      let cmins = map (λ t. t.minutes) cluster in
      let active = length (distinct (dates tz cevs)) in
      elim (Bool-cases (ltb (length cevs) s.min_occurrences)) [
        | inl few ↦ rw few tt
        | inr enough ↦
            rw enough
              (elim (Bool-cases
                (ltb (active * ratio_one) (s.min_support * days_observed h.day_type))) [
                  | inl rare ↦ rw rare tt
                  | inr often ↦ rw often (
                    (
                      h.day_type,
                      cevs,
                      refl,
                      pick-All (IsOf events day_type_for h.entity_id h.action h.day_type) h.events
                          cluster ok,
                      part,
                      refl,
                      ground (arith, enough),
                      seen,
                      ground (arith, often),
                      refl,
                      refl,
                      suspicion-no_user s f tz sun (f.std cmins) cevs cmins,
                    ),
                    tt,
                  )
                ])
      ]

  mine_clusters-IsMined :
      (h : Habit) (clusters : List (List Timed))
      → IsGroup events day_type_for h
      → All (λ c. IsPart (pick h.events c) events) clusters
      → 0 < days_observed h.day_type
      → All
          (IsMined s tz day_type_for days_observed events)
          (mine_clusters s f tz sun h (days_observed h.day_type) clusters)
  unfolding mine_clusters
  mine_clusters-IsMined h [] ok parts seen = tt
  mine_clusters-IsMined h (c ∷ cs) ok parts seen =
      All-append (IsMined s tz day_type_for days_observed events)
        (mine_cluster s f tz sun h (days_observed h.day_type) c)
        (mine_clusters s f tz sun h (days_observed h.day_type) cs)
        (mine_cluster-IsMined h c ok parts.0 seen) (mine_clusters-IsMined h cs ok parts.1 seen)

  mine_habit-IsMined :
      (h : Habit)
      → IsGroup events day_type_for h
      → IsPart h.events events
      → All (IsMined s tz day_type_for days_observed events) (mine_habit s f tz sun days_observed h)
  unfolding mine_habit
  mine_habit-IsMined h ok part = elim (Bool-cases (nat_eq (days_observed h.day_type) 0)) [
    | inl unseen ↦ rw unseen tt
    | inr seen ↦ rw seen (
        mine_clusters-IsMined h
          (cluster_minutes s.cluster_gap (map (λ e. local_minute tz e.time) h.events)) ok
          (clusters-IsPart s.cluster_gap (λ e. local_minute tz e.time) events h.events part)
          (ground (arith, seen)))
  ]

  mine_habits-IsMined :
      (hs : List Habit)
      → All (IsGroup events day_type_for) hs
      → All (λ h. IsPart h.events events) hs
      → All
          (IsMined s tz day_type_for days_observed events)
          (mine_habits s f tz sun days_observed hs)
  unfolding mine_habits
  mine_habits-IsMined [] ok parts = tt
  mine_habits-IsMined (h ∷ hs) ok parts =
      All-append (IsMined s tz day_type_for days_observed events)
        (mine_habit s f tz sun days_observed h) (mine_habits s f tz sun days_observed hs)
        (mine_habit-IsMined h ok.0 parts.0) (mine_habits-IsMined hs ok.1 parts.1)

  -- For every list of events, all settings and all observed days, each candidate of the time-of-day miner
  -- stands for manual actions among the events with its entity, action and day type, none of them taken more
  -- often than it stands among the events: as many as it counts and at least the least number, on days whose
  -- share is the support and the confidence and reaches the threshold. Where it is suspected to be a
  -- schedule, none of the actions has a user.
  pub mine_time_of_day-IsMined :
      All
        (IsMined s tz day_type_for days_observed events)
        (mine_time_of_day s f tz sun day_type_for days_observed events)
  unfolding mine_time_of_day
  mine_time_of_day-IsMined =
      mine_habits-IsMined (group_events day_type_for events [])
        (group_events-IsGroup events day_type_for events []
          (All-In (λ e. In e events) events (λ e m. m)) tt)
        (group_events-IsPart day_type_for events)
