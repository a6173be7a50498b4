-- ===== src/Miner/Pairs/Hits.antt =====
-- The invariant of `hits`, the table that the loops of `mine_event_pairs` (src/pae/miner/pairs.py) build.
use hass_ai.Prelude.{
  ℕ, ◌+◌, ◌-◌, ◌≤◌, ◌<◌, ◌≡◌, refl, subst, true, false, String, List, [], ◌∷◌, length, All, In, inl,
  inr, Bool-cases, arith, str_eq, eq_iff, if◌then◌else◌,
}
use hass_ai.Prelude.Distinct.{IsDistinct, add_number-IsDistinct, add_number-All, add_number-pos}
use hass_ai.Miner.Stats.{Zone}
use hass_ai.Miner.Types.{MinedEvent}
use hass_ai.Miner.Pairs.{
  PairSettings, Placed, Hit, is_action, is_hit, has_key, state_of, count_key, extend_hit, new_hit,
  scan, record_hit, record_hits, collect_one, collect,
}

-- The positions, from `i` on, of the transitions with a key.
unfoldable pub positions : String → String → ℕ → List MinedEvent → List ℕ
positions entity state i [] = []
positions entity state i (e ∷ es) =
    let rest = positions entity state (i + 1) es in
    if has_key entity state e then i ∷ rest else rest

pub length-positions :
    (entity state : String) (i : ℕ) (es : List MinedEvent)
    → length (positions entity state i es) ≡ count_key entity state es
unfolding positions
length-positions entity state i [] = refl
length-positions entity state i (e ∷ es) = ground (arith, length-positions entity state (i + 1) es)

has_key-own : (e : MinedEvent) → has_key e.entity_id (state_of e) e ≡ true
has_key-own e = ground (arith, eq_iff e.entity_id e.entity_id, eq_iff (state_of e) (state_of e))

unfoldable pub place : ℕ → List MinedEvent → List Placed
place i [] = []
place i (e ∷ es) = record { index = i; happened = e } ∷ place (i + 1) es

module _ (s : PairSettings) (tz : Zone) (known : MinedEvent → Type 0)
    (at : String → String → List ℕ) (placed : List Placed) where
  -- A transition that is known and stands in the list, and where its key is listed.
  abbrev pub IsPlaced : Placed → Type 0
  IsPlaced p =
      In p.index (at p.happened.entity_id (state_of p.happened)) × known p.happened × In p placed

  -- `b` follows `a` by at least the shortest gap and within the window.
  abbrev pub Follows : MinedEvent → MinedEvent → Type 0
  Follows a b = (s.min_gap ≤ b.time - a.time) × (b.time - a.time ≤ s.window)

  -- Two known transitions of different entities stand for the pair, the second a manual action.
  abbrev pub IsFounded : String → String → String → String → Type 0
  IsFounded trigger_entity trigger_state entity state =
      (a : MinedEvent) × (b : MinedEvent) × known a
      × known b
      × (has_key trigger_entity trigger_state a ≡ true)
      × (has_key entity state b ≡ true)
      × (is_action b ≡ true)
      × (str_eq a.entity_id b.entity_id ≡ false)
      × Follows a b

  -- At the position stands a transition of the trigger, which a manual action of the pair follows.
  abbrev pub IsFollowed : String → String → String → String → ℕ → Type 0
  IsFollowed trigger_entity trigger_state entity state i =
      (a : Placed) × (b : MinedEvent) × (a.index ≡ i)
      × In a placed
      × (has_key trigger_entity trigger_state a.happened ≡ true)
      × known b
      × (has_key entity state b ≡ true)
      × (is_action b ≡ true)
      × (str_eq a.happened.entity_id b.entity_id ≡ false)
      × Follows a.happened b

  -- The date of a known transition.
  abbrev pub IsDate : ℕ → Type 0
  IsDate d = (e : MinedEvent) × known e × (d ≡ tz.date e.time)

  abbrev pub IsHit : Hit → Type 0
  IsHit h =
      IsDistinct h.antecedents
      × All (λ i. In i (at h.trigger_entity h.trigger_state)) h.antecedents
      × (0 < length h.antecedents)
      × IsFounded h.trigger_entity h.trigger_state h.entity h.state
      × IsDistinct h.days
      × All IsDate h.days
      × All (IsFollowed h.trigger_entity h.trigger_state h.entity h.state) h.antecedents

  -- What the inner loop takes as an antecedent of `b`.
  abbrev pub IsAntecedent : MinedEvent → Placed → Type 0
  IsAntecedent b p =
      IsPlaced p × (str_eq p.happened.entity_id b.entity_id ≡ false) × Follows p.happened b

  pub scan-IsAntecedent :
      (b : MinedEvent) (seen : List MinedEvent) (earlier : List Placed)
      → All IsPlaced earlier
      → All (IsAntecedent b) (scan s b seen earlier)
  unfolding scan
  scan-IsAntecedent b seen [] h = tt
  scan-IsAntecedent b seen (a ∷ earlier) h =
      let skipped = scan-IsAntecedent b seen earlier h.1 in
      let taken = scan-IsAntecedent b (a.happened ∷ seen) earlier h.1 in
      ground (arith, h.0, skipped, taken)

  new_hit-IsHit :
      (b : MinedEvent) (a : Placed)
      → known b
      → is_action b ≡ true
      → IsAntecedent b a
      → IsHit (new_hit tz a b)
  new_hit-IsHit b a kb act h = (
    (refl, tt),
    (h.0.0, tt),
    omega arith,
    (a.happened, b, h.0.1, kb, has_key-own a.happened, has_key-own b, act, h.1, h.2),
    (refl, tt),
    ((b, kb, refl), tt),
    ((a, b, refl, h.0.2, has_key-own a.happened, kb, has_key-own b, act, h.1, h.2), tt),
  )

  extend_hit-IsHit :
      (b : MinedEvent) (a : Placed) (h : Hit)
      → is_hit a.happened b h ≡ true
      → known b
      → is_action b ≡ true
      → IsAntecedent b a
      → IsHit h
      → IsHit (extend_hit tz a b h)
  extend_hit-IsHit b a h same kb act ante old =
      let p = ante.0 in
      let followed : IsFollowed h.trigger_entity h.trigger_state h.entity h.state a.index =
        (a, b, refl, p.2, ground (arith, same), kb, ground (arith, same), act, ante.1, ante.2) in
      let entity : a.happened.entity_id ≡ h.trigger_entity =
        ground (arith, same, eq_iff a.happened.entity_id h.trigger_entity) in
      let state : state_of a.happened ≡ h.trigger_state =
        ground (arith, same, eq_iff (state_of a.happened) h.trigger_state) in
      let there : In a.index (at h.trigger_entity h.trigger_state) =
        subst (λ e. In a.index (at e h.trigger_state)) entity
          (subst (λ q. In a.index (at a.happened.entity_id q)) state p.0) in
      (
        add_number-IsDistinct a.index h.antecedents old.0,
        add_number-All (λ i. In i (at h.trigger_entity h.trigger_state)) a.index h.antecedents there
            old.1,
        add_number-pos a.index h.antecedents old.2,
        old.3,
        add_number-IsDistinct (tz.date b.time) h.days old.4,
        add_number-All IsDate (tz.date b.time) h.days (b, kb, refl) old.5,
        add_number-All (IsFollowed h.trigger_entity h.trigger_state h.entity h.state) a.index
            h.antecedents followed old.6,
      )

  record_hit-IsHit :
      (b : MinedEvent) (a : Placed) (hits : List Hit)
      → known b
      → is_action b ≡ true
      → IsAntecedent b a
      → All IsHit hits
      → All IsHit (record_hit tz b a hits)
  unfolding record_hit
  record_hit-IsHit b a [] kb act ha hs = (new_hit-IsHit b a kb act ha, tt)
  record_hit-IsHit b a (h ∷ hits) kb act ha hs = elim (Bool-cases (is_hit a.happened b h)) [
    | inl same ↦ rw same (extend_hit-IsHit b a h same kb act ha hs.0, hs.1)
    | inr other ↦ rw other (hs.0, record_hit-IsHit b a hits kb act ha hs.1)
  ]

  record_hits-IsHit :
      (b : MinedEvent) (found : List Placed) (hits : List Hit)
      → known b
      → is_action b ≡ true
      → All (IsAntecedent b) found
      → All IsHit hits
      → All IsHit (record_hits tz b found hits)
  unfolding record_hits
  record_hits-IsHit b [] hits kb act hf hs = hs
  record_hits-IsHit b (a ∷ found) hits kb act hf hs =
      record_hits-IsHit b found (record_hit tz b a hits) kb act hf.1
        (record_hit-IsHit b a hits kb act hf.0 hs)

  collect_one-IsHit :
      (earlier : List Placed) (b : MinedEvent) (hits : List Hit)
      → known b
      → All IsPlaced earlier
      → All IsHit hits
      → All IsHit (collect_one s tz earlier b hits)
  unfolding collect_one
  collect_one-IsHit earlier b hits kb he hs = elim (Bool-cases (is_action b)) [
    | inl act ↦ rw act (
        record_hits-IsHit b (scan s b [] earlier) hits kb act (scan-IsAntecedent b [] earlier he)
          hs)
    | inr other ↦ rw other hs
  ]

  pub collect-IsHit :
      (i : ℕ) (earlier : List Placed) (bs : List MinedEvent) (hits : List Hit)
      → All IsPlaced earlier
      → All IsPlaced (place i bs)
      → All IsHit hits
      → All IsHit (collect s tz i earlier bs hits)
  unfolding collect place
  collect-IsHit i earlier [] hits he hb hs = hs
  collect-IsHit i earlier (b ∷ bs) hits he hb hs =
      collect-IsHit (i + 1) (record { index = i; happened = b } ∷ earlier) bs
        (collect_one s tz earlier b hits) (hb.0, he) hb.1
        (collect_one-IsHit earlier b hits hb.0.1 he hs)
