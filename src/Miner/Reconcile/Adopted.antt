-- ===== src/Miner/Reconcile/Adopted.antt =====
-- Whose key a candidate may adopt in `reconcile_keys` (src/pae/miner/service.py).
use hass_ai.Prelude.{
  Option-cases, ℕ, ◌≤◌, ◌≡◌, refl, sym, ◌∙◌, String, true, Bool-cases, inl, inr, ◌⊎◌, Option, none,
  some, List, [], ◌∷◌, length, arith, All, In, leb, suc, subst,
}
use hass_ai.Db.Models.{is_time_of_day}
use hass_ai.Miner.Types.{PatternCandidate}
use hass_ai.Miner.Reconcile.{
  elem, ExistingKey, is_same_habit, distance, Best, consider, best_match, Scored, score,
  score_minutes, no_farther, insert_scored, sort_scored, assign, reconcile_keys,
}

-- The key of an earlier pattern for the same entity, action and day type, whose time is near.
pub record IsAdopted (tolerance : ℕ) (existing : List ExistingKey) (c : PatternCandidate)
    (k : String) : Type 0 where
  pub row : ExistingKey
  pub listed : In row existing
  pub same_habit : is_same_habit c row ≡ true
  pub keyed : row.pattern_key ≡ k
  pub minutes : ℕ
  pub mined : ℕ
  pub own_time : c.tod_minutes ≡ some minutes
  pub mined_time : row.tod_minutes ≡ some mined
  pub near : distance minutes mined ≤ tolerance

module _ (tolerance : ℕ) (existing : List ExistingKey) where
  -- A key that is none, or one that may be adopted.
  abbrev IsKey : PatternCandidate → Option String → Type 0
  IsKey c none = Unit
  IsKey c (some k) = IsAdopted tolerance existing c k

  consider-IsKey :
      (c : PatternCandidate) (minutes : ℕ) (row : ExistingKey) (o : Option ℕ) (best : Best)
      → c.tod_minutes ≡ some minutes
      → In row existing
      → row.tod_minutes ≡ o
      → IsKey c best.key
      → best.dist ≤ tolerance
      → let next = consider c minutes row o best in IsKey c next.key × (next.dist ≤ tolerance)
  consider-IsKey c minutes row none best own m e h low = (h, low)
  consider-IsKey c minutes row (some mined) best own m e h low =
      elim (Bool-cases (is_same_habit c row)) [
        | inl same ↦ elim (Bool-cases (leb (distance minutes mined) best.dist)) [
          | inl near ↦
              let close : distance minutes mined ≤ tolerance = ground (arith, near, low) in
              rw (same, near)
                (
                  record {
                    row = row;
                    listed = m;
                    same_habit = same;
                    keyed = refl;
                    minutes = minutes;
                    mined = mined;
                    own_time = own;
                    mined_time = e;
                    near = close;
                  },
                  close,
                )
          | inr far ↦ rw (same, far) (h, low)
        ]
        | inr other ↦ rw other (h, low)
      ]

  best_match-IsKey :
      (c : PatternCandidate) (minutes : ℕ) (rows : List ExistingKey) (best : Best)
      → c.tod_minutes ≡ some minutes
      → ((row : ExistingKey) → In row rows → In row existing)
      → IsKey c best.key
      → best.dist ≤ tolerance
      → IsKey c (best_match c minutes rows best).key
  unfolding best_match
  best_match-IsKey c minutes [] best own sub h low = h
  best_match-IsKey c minutes (row ∷ rows) best own sub h low =
      let (h', low') =
        consider-IsKey c minutes row row.tod_minutes best own (sub row (inl refl)) refl h low in
      best_match-IsKey c minutes rows _ own (λ r m. sub r (inr m)) h' low'

  score_minutes-IsKey :
      (c : PatternCandidate) (o : Option ℕ)
      → c.tod_minutes ≡ o
      → let s = score_minutes tolerance existing c o in IsKey s.candidate s.key × (s.candidate ≡ c)
  score_minutes-IsKey c none own = (tt, refl)
  score_minutes-IsKey c (some minutes) own = elim (Bool-cases (is_time_of_day c.kind)) [
    | inl tod ↦ rw tod (
      best_match-IsKey c minutes existing (record { key = none; dist = tolerance }) own (λ row m. m)
          tt (omega arith),
      refl,
    )
    | inr other ↦ rw other (tt, refl)
  ]

  -- What stands in the sorted list.
  abbrev IsSound : List PatternCandidate → Scored → Type 0
  IsSound candidates s = In s.candidate candidates × IsKey s.candidate s.key

  insert_scored-IsSound :
      (candidates : List PatternCandidate) (s : Scored) (ss : List Scored)
      → IsSound candidates s
      → All (IsSound candidates) ss
      → All (IsSound candidates) (insert_scored s ss)
        × (length (insert_scored s ss) ≡ suc (length ss))
  unfolding insert_scored
  insert_scored-IsSound candidates s [] h hs = ((h, tt), refl)
  insert_scored-IsSound candidates s (t ∷ ts) h hs =
      let (later, n) = insert_scored-IsSound candidates s ts h hs.1 in
      elim (Bool-cases (no_farther s.dist t.dist)) [
        | inl here ↦ rw here ((h, hs), refl)
        | inr there ↦ rw there ((hs.0, later), omega (arith, n))
      ]

  sort_scored-IsSound :
      (candidates cs : List PatternCandidate)
      → ((c : PatternCandidate) → In c cs → In c candidates)
      → All (IsSound candidates) (sort_scored tolerance existing cs)
        × (length (sort_scored tolerance existing cs) ≡ length cs)
  unfolding sort_scored score
  sort_scored-IsSound candidates [] sub = (tt, refl)
  sort_scored-IsSound candidates (c ∷ cs) sub =
      let (later, n) = sort_scored-IsSound candidates cs (λ d m. sub d (inr m)) in
      let (key, own) = score_minutes-IsKey c c.tod_minutes refl in
      let (all_sound, m) =
        insert_scored-IsSound candidates (score tolerance existing c)
          (sort_scored tolerance existing cs)
          (subst (λ d. In d candidates) (sym own) (sub c (inl refl)), key) later in
      (all_sound, omega (arith, m, n))

  -- A candidate of the night as it is, or under the key of an earlier pattern for its habit.
  abbrev pub IsReconciled : List PatternCandidate → PatternCandidate → Type 0
  IsReconciled candidates out =
      (c : PatternCandidate) × In c candidates
      × ((out ≡ c)
          ⊎ ((k : String) × IsAdopted tolerance existing c k
              × (out ≡ record c { pattern_key = k })))

  assign-IsReconciled :
      (candidates : List PatternCandidate) (claimed : List String) (ss : List Scored)
      → All (IsSound candidates) ss
      → All (IsReconciled candidates) (assign claimed ss) × (length (assign claimed ss) ≡ length ss)
  unfolding assign
  assign-IsReconciled candidates claimed [] h = (tt, refl)
  assign-IsReconciled candidates claimed (s ∷ ss) h =
      let (kept, n) = assign-IsReconciled candidates claimed ss h.1 in
      elim (Option-cases s.key) [
        | inl bare ↦ rw bare (((s.candidate, h.0.0, inl refl), kept), omega (arith, n))
        | inr (k, keyed) ↦
            let adopted = subst (IsKey s.candidate) keyed h.0.1 in
            let (moved, m) = assign-IsReconciled candidates (k ∷ claimed) ss h.1 in
            elim (Bool-cases (elem k claimed)) [
              | inl taken ↦
                  rw (keyed, taken) (((s.candidate, h.0.0, inl refl), kept), omega (arith, n))
              | inr free ↦
                  rw (keyed, free)
                    (((s.candidate, h.0.0, inr (k, adopted, refl)), moved), omega (arith, m))
            ]
      ]

-- There are as many candidates as before, and each is one of the night as it is, or under the key of an
-- earlier pattern for the same entity, action and day type whose mean lies within the tolerance: a key is
-- never taken from another habit.
pub reconcile_keys-IsReconciled :
    (tolerance : ℕ) (existing : List ExistingKey) (candidates : List PatternCandidate)
    → All
        (IsReconciled tolerance existing candidates)
        (reconcile_keys tolerance existing candidates)
      × (length (reconcile_keys tolerance existing candidates) ≡ length candidates)
unfolding reconcile_keys
reconcile_keys-IsReconciled tolerance existing candidates =
    let (sound, n) = sort_scored-IsSound tolerance existing candidates candidates (λ c m. m) in
    let (all_ok, m) =
      assign-IsReconciled tolerance existing candidates []
        (sort_scored tolerance existing candidates) sound in
    (all_ok, m ∙ n)
