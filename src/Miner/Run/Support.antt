-- ===== src/Miner/Run/Support.antt =====
-- What a run of the miner (src/pae/miner/service.py) keeps true of the stored patterns.
use hass_ai.Prelude.{
  ℕ, ◌-◌, ◌*◌, ◌≤◌, ◌≡◌, sym, subst, inl, inr, Bool, Bool-cases, String, List, [], ◌∷◌, ◌++◌,
  length, filter, any, is_empty, All, In, In-All, All-imp, All-map, In-map, In-filter,
  length-filter_sum, All-append, All-update_where, arith, str_eq, ltb, eq_iff,
}
use hass_ai.Prelude.Distinct.{
  distinct, distinct-IsDistinct, In-distinct, All-distinct, IsDistinct-length-le,
}
use hass_ai.Db.Models.{Pattern}
use hass_ai.Miner.Ratio.{ratio_one, round_div-share}
use hass_ai.Miner.Stats.{Zone, minute}
use hass_ai.Miner.Types.{MinedEvent, PatternCandidate}
use hass_ai.Miner.Pairs.Candidates.{IsObserved, event_pairs_founded}
use hass_ai.Miner.Tod.{dates}
use hass_ai.Miner.Tod.Bounds.{IsOf, IsMined, mine_time_of_day-IsMined}
use hass_ai.Miner.Reconcile.{reconcile_keys, ExistingKey}
use hass_ai.Miner.Reconcile.Adopted.{IsReconciled, reconcile_keys-IsReconciled}
use hass_ai.Miner.Upsert.{
  insert_best, best_of, dedupe_candidates, refresh, as_row, has_pattern_key, upsert_one,
  upsert_patterns,
}
use hass_ai.Miner.Run.{
  MinerSettings, day_type_of, days_by_type, existing_keys, span_of, load_events, mined_tod,
  mined_pairs, mined, run_mining,
}

-- Support and confidence are shares.
abbrev pub IsShare : PatternCandidate → Type 0
IsShare c = (c.support ≤ ratio_one) × (c.confidence ≤ ratio_one)

abbrev pub IsShareRow : Pattern → Type 0
IsShareRow p = (p.support ≤ ratio_one) × (p.confidence ≤ ratio_one)

In-dates :
    (tz : Zone) (e : MinedEvent) (es : List MinedEvent)
    → In e es
    → In (tz.date e.time) (distinct (dates tz es))
In-dates tz e es m =
    In-distinct (tz.date e.time) (dates tz es) (In-map (λ x. tz.date x.time) e es m)

module _ (s : MinerSettings) (events : List MinedEvent) where
  abbrev day_type_at : ℕ → String
  day_type_at t = day_type_of s.us_holidays (s.tz.date t)

  abbrev observed : List ℕ
  observed = distinct (dates s.tz events)

  -- The dates of actions of one type of day are among the observed dates of that type.
  active-le :
      (entity action day_type : String) (es : List MinedEvent)
      → All (IsOf events day_type_at entity action day_type) es
      → length (distinct (dates s.tz es)) ≤ days_by_type s.us_holidays observed day_type
  active-le entity action day_type es h =
      let p : ℕ → Bool = λ d. str_eq (day_type_of s.us_holidays d) day_type in
      let inside : All (λ d. In d (filter p observed)) (distinct (dates s.tz es)) =
        All-distinct (λ d. In d (filter p observed)) (dates s.tz es)
          (All-map (λ e. s.tz.date e.time) (λ d. In d (filter p observed)) es
            (All-imp (IsOf events day_type_at entity action day_type)
              (λ e. In (s.tz.date e.time) (filter p observed)) es
              (λ e k.
                In-filter p (s.tz.date e.time) observed (In-dates s.tz e events k.0)
                  ((eq_iff (day_type_at e.time) day_type).1 k.5))
              h)) in
      omega (
        arith,
        IsDistinct-length-le (distinct (dates s.tz es)) (filter p observed)
            (distinct-IsDistinct (dates s.tz es)) inside,
        length-filter_sum p observed,
      )

  mined_tod-IsShare : All IsShare (mined_tod s events)
  unfolding mined_tod
  mined_tod-IsShare =
      All-imp (IsMined s.tod s.tz day_type_at (days_by_type s.us_holidays observed) events) IsShare
        (mined_tod s events)
        (λ c k.
          let (day_type, es, typed, of, part, counted, enough, seen, often, share, same, alone) =
            k in
          let low =
            round_div-share (length (distinct (dates s.tz es)))
              (days_by_type s.us_holidays observed day_type)
              (active-le c.entity_id c.action day_type es of) in
          (omega (arith, low, share), omega (arith, low, share, same)))
        (mine_time_of_day-IsMined s.tod s.figures s.tz s.sun day_type_at
          (days_by_type s.us_holidays observed) events)

  mined_pairs-IsShare : All IsShare (mined_pairs s events)
  unfolding mined_pairs
  mined_pairs-IsShare =
      All-imp (IsObserved s.pairs s.tz events (length observed)) IsShare (mined_pairs s events)
        (λ c k.
          let (entity, state, of, at, reliable, counted, founded) = k in
          let (
            days, shown, enough, some_there, part, likely, exact, confident, once, dated, share,
          ) =
            reliable in
          let inside : All (λ d. In d observed) days =
            All-imp (λ d. (e : MinedEvent) × In e events × (d ≡ s.tz.date e.time))
              (λ d. In d observed) days
              (λ d w. subst (λ n. In n observed) (sym w.2) (In-dates s.tz w.0 events w.1)) dated in
          let low =
            round_div-share (length days) (length observed)
              (IsDistinct-length-le days observed once inside) in
          (omega (arith, low, share), confident))
        (event_pairs_founded s.pairs s.tz (length observed) (span_of events) events)

-- A candidate that another pattern's key is given keeps its figures.
reconciled-IsShare :
    (tolerance : ℕ) (existing : List ExistingKey) (cs : List PatternCandidate)
    → All IsShare cs
    → All IsShare (reconcile_keys tolerance existing cs)
reconciled-IsShare tolerance existing cs h =
    All-imp (IsReconciled tolerance existing cs) IsShare (reconcile_keys tolerance existing cs)
      (λ c k.
        let (d, m, same) = k in
        let share : IsShare d = In-All d IsShare cs h m in
        elim same [
          | inl e ↦ subst IsShare (sym e) share
          | inr adopted ↦ subst IsShare (sym adopted.2) share
        ])
      (reconcile_keys-IsReconciled tolerance existing cs).0

insert_best-All {κ} :
    (P : PatternCandidate → Type κ) (c : PatternCandidate) (best : List PatternCandidate)
    → P c
    → All P best
    → All P (insert_best c best)
unfolding insert_best
insert_best-All P c [] p h = (p, tt)
insert_best-All P c (d ∷ ds) p h = elim (Bool-cases (str_eq d.pattern_key c.pattern_key)) [
  | inl same ↦ elim (Bool-cases (ltb d.occurrences c.occurrences)) [
    | inl more ↦ rw (same, more) (p, h.1)
    | inr fewer ↦ rw (same, fewer) h
  ]
  | inr other ↦ rw other (h.0, insert_best-All P c ds p h.1)
]

best_of-All {κ} :
    (P : PatternCandidate → Type κ) (best cs : List PatternCandidate)
    → All P best
    → All P cs
    → All P (best_of best cs)
unfolding best_of
best_of-All P best [] h k = h
best_of-All P best (c ∷ cs) h k =
    best_of-All P (insert_best c best) cs (insert_best-All P c best k.0 h) k.1

dedupe_candidates-All {κ} :
    (P : PatternCandidate → Type κ) (cs : List PatternCandidate)
    → All P cs
    → All P (dedupe_candidates cs)
unfolding dedupe_candidates
dedupe_candidates-All P cs h = best_of-All P [] cs tt h

upsert_one-IsShareRow :
    (mined_at : ℕ) (c : PatternCandidate) (ps : List Pattern)
    → IsShare c
    → All IsShareRow ps
    → All IsShareRow (upsert_one mined_at c ps)
unfolding upsert_one
upsert_one-IsShareRow mined_at c ps share h =
    elim (Bool-cases (any (has_pattern_key c.pattern_key) ps)) [
      | inl known ↦ rw known (
          All-update_where IsShareRow (has_pattern_key c.pattern_key) (refresh c mined_at) ps
            (λ p _. share) h)
      | inr fresh ↦ rw fresh (All-append IsShareRow ps (as_row c mined_at ∷ []) h (share, tt))
    ]

upsert_patterns-IsShareRow :
    (mined_at : ℕ) (cs : List PatternCandidate) (ps : List Pattern)
    → All IsShare cs
    → All IsShareRow ps
    → All IsShareRow (upsert_patterns mined_at cs ps)
unfolding upsert_patterns
upsert_patterns-IsShareRow mined_at [] ps share h = h
upsert_patterns-IsShareRow mined_at (c ∷ cs) ps share h =
    upsert_patterns-IsShareRow mined_at cs (upsert_one mined_at c ps) share.1
      (upsert_one-IsShareRow mined_at c ps share.0 h)

mined-IsShare :
    (s : MinerSettings) (events : List MinedEvent) (ps : List Pattern)
    → All IsShare (mined s events ps)
unfolding mined
mined-IsShare s events ps =
    let tod = reconcile_keys s.tod.tolerance (existing_keys ps) (mined_tod s events) in
    dedupe_candidates-All IsShare (tod ++ mined_pairs s events) (
      All-append IsShare tod (mined_pairs s events)
        (reconciled-IsShare s.tod.tolerance (existing_keys ps) (mined_tod s events)
          (mined_tod-IsShare s events))
        (mined_pairs-IsShare s events))

-- If the support and the confidence of every stored pattern are at most 1, then they are so after a run of
-- the miner, for all settings, stored events and times.
pub run_mining-IsShareRow :
    (s : MinerSettings) (now : ℕ) (rows : List MinedEvent) (ps : List Pattern)
    → All IsShareRow ps
    → All IsShareRow (run_mining s now rows ps).0
unfolding run_mining
run_mining-IsShareRow s now rows ps h =
    let events = load_events (now - s.lookback_days * (1440 * minute)) rows in
    elim (Bool-cases (is_empty events)) [
      | inl nothing ↦ rw nothing h
      | inr found ↦
          rw found
            (upsert_patterns-IsShareRow now (mined s events ps) ps (mined-IsShare s events ps) h)
    ]
