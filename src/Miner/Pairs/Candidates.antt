-- ===== src/Miner/Pairs/Candidates.antt =====
-- What `mine_event_pairs` (src/pae/miner/pairs.py) promises of its candidates.
use hass_ai.Prelude.{
  ap, sym, ◌<◌, ℕ, ◌+◌, ◌*◌, ◌≤◌, ◌≡◌, refl, ◌||◌, String, some, List, [], ◌∷◌, length, All,
  All-append, All-In, All-filter, In, inl, inr, Bool-cases, arith, ltb, leb, filter, eq_iff,
}
use hass_ai.Prelude.Distinct.{IsDistinct, IsDistinct-length-le}
use hass_ai.Prelude.Sort.{sort_by, All-sort_by}
use hass_ai.Miner.Ratio.{ratio_one, round_div-le_one}
use hass_ai.Miner.Stats.{Zone}
use hass_ai.Miner.Types.{MinedEvent, PatternCandidate}
use hass_ai.Miner.Pairs.{
  Placed, round_div, PairSettings, Hit, is_action, is_chance, is_unlikely, has_key, state_of,
  count_key, collect, candidate_of, candidates_of, mine_event_pairs, transitions_of, is_transition,
}
use hass_ai.Miner.Pairs.Hits.{
  positions, length-positions, place, IsPlaced, IsHit, IsFounded, IsFollowed, collect-IsHit,
}

place-IsPlaced :
    (s : PairSettings) (tz : Zone) (known : MinedEvent → Type 0) (at : String → String → List ℕ)
    (placed : List Placed) (i : ℕ) (es : List MinedEvent)
    → All known es
    → ((entity state : String) (k : ℕ)
        → In k (positions entity state i es)
        → In k (at entity state))
    → ((p : Placed) → In p (place i es) → In p placed)
    → All (IsPlaced s tz known at placed) (place i es)
unfolding place positions
place-IsPlaced s tz known at placed i [] h sub all_in = tt
place-IsPlaced s tz known at placed i (e ∷ es) h sub all_in = (
  (
    sub e.entity_id (state_of e) i
        (ground (arith, eq_iff e.entity_id e.entity_id, eq_iff (state_of e) (state_of e))),
    h.0,
    all_in (record { index = i; happened = e }) (inl refl),
  ),
  place-IsPlaced s tz known at placed (i + 1) es h.1
      (λ entity state k m. sub entity state k (later entity state k m)) (λ p m. all_in p (inr m)),
)
  where
    later :
        (entity state : String) (k : ℕ)
        → In k (positions entity state (i + 1) es)
        → In k (positions entity state i (e ∷ es))
    later entity state k m = elim (Bool-cases (has_key entity state e)) [
      | inl hit ↦ rw hit (inr m)
      | inr miss ↦ rw miss m
    ]

-- The table of hits of a list of transitions, as the last loop reads it.
abbrev IsHitOf : PairSettings → Zone → List MinedEvent → List MinedEvent → Hit → Type 0
IsHitOf s tz events ts =
    IsHit s tz (λ e. In e events) (λ entity state. positions entity state 0 ts) (place 0 ts)

transitions-In : (events : List MinedEvent) → All (λ e. In e events) (transitions_of events)
unfolding transitions_of
transitions-In events =
    All-filter (λ e. In e events) is_transition (sort_by (λ e. e.time) events)
      (All-sort_by (λ e. e.time) (λ e. In e events) events
        (All-In (λ e. In e events) events (λ e m. m)))

collect-IsHitOf :
    (s : PairSettings) (tz : Zone) (events : List MinedEvent)
    → All
        (IsHitOf s tz events (transitions_of events))
        (collect s tz 0 [] (transitions_of events) [])
collect-IsHitOf s tz events =
    let ts = transitions_of events in
    let at : String → String → List ℕ = λ entity state. positions entity state 0 ts in
    collect-IsHit s tz (λ e. In e events) at (place 0 ts) 0 [] ts [] tt
      (place-IsPlaced s tz (λ e. In e events) at (place 0 ts) 0 ts (transitions-In events)
        (λ entity state k m. m) (λ p m. m))
      tt

-- How many transitions of the entity into the state there are.
abbrev pub transition_count : List MinedEvent → String → String → ℕ
transition_count events entity state =
    length (filter (has_key entity state) (transitions_of events))

-- The counts and the ratios that a candidate for the trigger shows.
abbrev pub IsReliable :
    PairSettings → Zone → List MinedEvent → ℕ → String → String → PatternCandidate → Type 0
IsReliable s tz events days_observed entity state c =
    let n_a = transition_count events entity state in
    (days : List ℕ) × (c.evidence.n_a ≡ some n_a)
    × (s.min_pairs ≤ c.occurrences)
    × (0 < c.occurrences)
    × (c.occurrences ≤ n_a)
    × (s.min_confidence * n_a ≤ c.occurrences * ratio_one)
    × (c.confidence ≡ round_div (c.occurrences * ratio_one) n_a)
    × (c.confidence ≤ ratio_one)
    × IsDistinct days
    × All (λ d. (e : MinedEvent) × In e events × (d ≡ tz.date e.time)) days
    × (c.support ≡ round_div (length days * ratio_one) days_observed)

-- The candidate counts distinct positions among the transitions, at each of which stands a transition of the
-- trigger that a manual action of the pair follows.
abbrev pub IsCounted :
    PairSettings → Zone → List MinedEvent → String → String → PatternCandidate → Type 0
IsCounted s tz events entity state c =
    (antecedents : List ℕ) × IsDistinct antecedents
    × All
        (IsFollowed s tz (λ e. In e events) (λ _ _. []) (place 0 (transitions_of events)) entity
          state c.entity_id c.action)
        antecedents
    × (c.occurrences ≡ length antecedents)

-- The candidate shows right counts for its trigger, and two of the events stand for its pair.
abbrev pub IsObserved : PairSettings → Zone → List MinedEvent → ℕ → PatternCandidate → Type 0
IsObserved s tz events days_observed c =
    (entity : String) × (state : String) × (c.trigger_entity_id ≡ some entity)
    × (c.trigger_state ≡ some state)
    × IsReliable s tz events days_observed entity state c
    × IsCounted s tz events entity state c
    × IsFounded s tz (λ e. In e events) (λ _ _. []) [] entity state c.entity_id c.action

length-filter :
    (entity state : String) (es : List MinedEvent)
    → length (filter (has_key entity state) es) ≡ count_key entity state es
length-filter entity state [] = refl
length-filter entity state (e ∷ es) = ground (arith, length-filter entity state es)

module _ (s : PairSettings) (tz : Zone) (events : List MinedEvent) (days_observed span : ℕ) where
  abbrev ts : List MinedEvent
  ts = transitions_of events

  hit_count-le :
      (h : Hit)
      → IsHitOf s tz events ts h
      → length h.antecedents ≤ count_key h.trigger_entity h.trigger_state ts
  hit_count-le h ok = omega (
    arith,
    IsDistinct-length-le h.antecedents (positions h.trigger_entity h.trigger_state 0 ts) ok.0 ok.1,
    length-positions h.trigger_entity h.trigger_state 0 ts,
  )

  candidate_of-All :
      (h : Hit)
      → IsHitOf s tz events ts h
      → All (IsObserved s tz events days_observed) (candidate_of s ts days_observed span h)
  unfolding candidate_of
  candidate_of-All h ok =
      let n_ab = length h.antecedents in
      let n_a = count_key h.trigger_entity h.trigger_state ts in
      let n_b = count_key h.entity h.state (filter is_action ts) in
      let part : n_ab ≤ n_a = hit_count-le h ok in
      let some_hit : 0 < n_ab = ok.2 in
      let counted : transition_count events h.trigger_entity h.trigger_state ≡ n_a =
        length-filter h.trigger_entity h.trigger_state ts in
      elim (Bool-cases (ltb n_ab s.min_pairs)) [
        | inl few ↦ rw few tt
        | inr enough ↦ rw enough (elim (Bool-cases (is_unlikely s n_ab n_a)) [
          | inl unlikely ↦ rw unlikely tt
          | inr likely ↦ rw likely (elim (Bool-cases (is_chance s n_ab n_a n_b span)) [
            | inl chance ↦ rw chance tt
            | inr above ↦ rw above (
              (
                h.trigger_entity,
                h.trigger_state,
                refl,
                refl,
                (
                  h.days,
                  ap (λ n. some n) (sym counted),
                  ground (arith, enough),
                  some_hit,
                  omega (arith, part, counted),
                  rw counted (ground (arith, likely)),
                  ap (λ n. round_div (n_ab * ratio_one) n) (sym counted),
                  round_div-le_one n_ab n_a part (omega (arith, part, some_hit)),
                  ok.4,
                  ok.5,
                  refl,
                ),
                (h.antecedents, ok.0, ok.6, refl),
                ok.3,
              ),
              tt,
            )
          ])
        ])
      ]

  candidates_of-All :
      (hits : List Hit)
      → All (IsHitOf s tz events ts) hits
      → All (IsObserved s tz events days_observed) (candidates_of s ts days_observed span hits)
  unfolding candidates_of
  candidates_of-All [] ok = tt
  candidates_of-All (h ∷ hits) ok =
      All-append (IsObserved s tz events days_observed) (candidate_of s ts days_observed span h)
        (candidates_of s ts days_observed span hits) (candidate_of-All h ok.0)
        (candidates_of-All hits ok.1)

pub event_pairs_founded :
    (s : PairSettings) (tz : Zone) (days_observed span : ℕ) (events : List MinedEvent)
    → All (IsObserved s tz events days_observed) (mine_event_pairs s tz days_observed span events)
unfolding mine_event_pairs
event_pairs_founded s tz days_observed span events =
    let ts = transitions_of events in
    elim (Bool-cases (leb days_observed 0 || leb span 0)) [
      | inl nothing ↦ rw nothing tt
      | inr observed ↦ rw observed (
          candidates_of-All s tz events days_observed span (collect s tz 0 [] ts [])
            (collect-IsHitOf s tz events))
    ]
