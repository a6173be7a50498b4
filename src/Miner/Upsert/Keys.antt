-- ===== src/Miner/Upsert/Keys.antt =====
-- The keys of `patterns` under deduplication and upsert (src/pae/miner/service.py).
use hass_ai.Prelude.{
  ltb, subst, ℕ, ◌≤◌, String, ◌≡◌, refl, sym, ap, ◌∙◌, true, false, List, [], ◌∷◌, arith, sum_by,
  sum_by-append, any, update_where, str_eq, eq_iff, if◌then◌else◌, In, inl, inr, ◌⊎◌, Bool-cases,
}
use hass_ai.Db.Models.{Pattern}
use hass_ai.Miner.Types.{PatternCandidate}
use hass_ai.Miner.Upsert.{
  insert_best, best_of, dedupe_candidates, refresh, as_row, has_pattern_key, upsert_one,
  upsert_patterns,
}

-- How many candidates, and how many rows, have the key.
abbrev pub candidate_count : String → List PatternCandidate → ℕ
candidate_count key cs = sum_by (λ c. if str_eq c.pattern_key key then 1 else 0) cs

abbrev pub pattern_count : String → List Pattern → ℕ
pattern_count key ps = sum_by (λ p. if str_eq p.pattern_key key then 1 else 0) ps

insert_best-other :
    (key : String) (c : PatternCandidate) (best : List PatternCandidate)
    → str_eq c.pattern_key key ≡ false
    → candidate_count key (insert_best c best) ≡ candidate_count key best
unfolding insert_best
insert_best-other key c [] h = ground arith
insert_best-other key c (d ∷ ds) h = ground (
  arith,
  insert_best-other key c ds h,
  eq_iff d.pattern_key c.pattern_key,
  eq_iff c.pattern_key key,
  eq_iff d.pattern_key key,
)

insert_best-same :
    (key : String) (c : PatternCandidate) (best : List PatternCandidate)
    → str_eq c.pattern_key key ≡ true
    → candidate_count key best ≤ 1
    → candidate_count key (insert_best c best) ≡ 1
unfolding insert_best
insert_best-same key c [] h once = ground arith
insert_best-same key c (d ∷ ds) h once = ground (
  arith,
  insert_best-same key c ds h,
  eq_iff d.pattern_key c.pattern_key,
  eq_iff c.pattern_key key,
  eq_iff d.pattern_key key,
)

best_of-once :
    (key : String) (best cs : List PatternCandidate)
    → candidate_count key best ≤ 1
    → candidate_count key (best_of best cs) ≤ 1
unfolding best_of
best_of-once key best [] once = once
best_of-once key best (c ∷ cs) once = elim (Bool-cases (str_eq c.pattern_key key)) [
  | inl same ↦
      best_of-once key (insert_best c best) cs
        (omega (arith, insert_best-same key c best same once))
  | inr other ↦
      best_of-once key (insert_best c best) cs (omega (arith, insert_best-other key c best other))
]

-- Behind `dedupe_candidates` a key stands in one candidate at most, so that one INSERT never meets a row
-- twice.
pub dedupe_candidates-once :
    (key : String) (cs : List PatternCandidate) → candidate_count key (dedupe_candidates cs) ≤ 1
unfolding dedupe_candidates
dedupe_candidates-once key cs = best_of-once key [] cs (omega arith)

-- Somewhere in the list stands a candidate of the key, mined at least as often.
abbrev pub IsCovered : PatternCandidate → List PatternCandidate → Type 0
IsCovered c best =
    (d : PatternCandidate) × In d best
    × (d.pattern_key ≡ c.pattern_key)
    × (c.occurrences ≤ d.occurrences)

insert_best-covers :
    (c : PatternCandidate) (best : List PatternCandidate) → IsCovered c (insert_best c best)
unfolding insert_best
insert_best-covers c [] = (c, inl refl, refl, omega arith)
insert_best-covers c (d ∷ ds) = elim (Bool-cases (str_eq d.pattern_key c.pattern_key)) [
  | inl same ↦ elim (Bool-cases (ltb d.occurrences c.occurrences)) [
    | inl more ↦ rw (same, more) (c, inl refl, refl, omega arith)
    | inr fewer ↦
        rw (same, fewer) (d, inl refl, (eq_iff d.pattern_key c.pattern_key).0 same, ground arith)
  ]
  | inr other ↦ let (x, m, k, o) = insert_best-covers c ds in rw other (x, inr m, k, o)
]

insert_best-keeps :
    (c b : PatternCandidate) (best : List PatternCandidate)
    → IsCovered b best
    → IsCovered b (insert_best c best)
unfolding insert_best
insert_best-keeps c b [] (x, m, k, o) = absurd m
insert_best-keeps c b (d ∷ ds) (x, inl e, k, o) =
    let key_d : d.pattern_key ≡ b.pattern_key =
      ap (λ (q : PatternCandidate). q.pattern_key) (sym e) ∙ k in
    let occ : x.occurrences ≡ d.occurrences = ap (λ (q : PatternCandidate). q.occurrences) e in
    elim (Bool-cases (str_eq d.pattern_key c.pattern_key)) [
      | inl same ↦ elim (Bool-cases (ltb d.occurrences c.occurrences)) [
        | inl more ↦
            rw (same, more)
              (c, inl refl, sym ((eq_iff d.pattern_key c.pattern_key).0 same) ∙ key_d, ground arith)
        | inr fewer ↦ rw (same, fewer) (d, inl refl, key_d, omega arith)
      ]
      | inr other ↦ rw other (d, inl refl, key_d, omega arith)
    ]
insert_best-keeps c b (d ∷ ds) (x, inr m, k, o) =
    elim (Bool-cases (str_eq d.pattern_key c.pattern_key)) [
      | inl same ↦ rw same (x, inr m, k, o)
      | inr other ↦
          let (y, n, l, p) = insert_best-keeps c b ds (x, m, k, o) in rw other (y, inr n, l, p)
    ]

best_of-covers :
    (b : PatternCandidate) (best cs : List PatternCandidate)
    → IsCovered b best ⊎ In b cs
    → IsCovered b (best_of best cs)
unfolding best_of
best_of-covers b best [] (inl h) = h
best_of-covers b best [] (inr m) = absurd m
best_of-covers b best (c ∷ cs) (inl h) =
    best_of-covers b (insert_best c best) cs (inl (insert_best-keeps c b best h))
best_of-covers b best (c ∷ cs) (inr (inl e)) =
    best_of-covers b (insert_best c best) cs
      (inl (subst (λ q. IsCovered q (insert_best c best)) (sym e) (insert_best-covers c best)))
best_of-covers b best (c ∷ cs) (inr (inr m)) = best_of-covers b (insert_best c best) cs (inr m)

-- No key is lost, and of the candidates of one key a most frequent one is kept.
pub dedupe_candidates-covers :
    (c : PatternCandidate) (cs : List PatternCandidate)
    → In c cs
    → IsCovered c (dedupe_candidates cs)
unfolding dedupe_candidates
dedupe_candidates-covers c cs m = best_of-covers c [] cs (inr m)

count-refresh :
    (key : String) (c : PatternCandidate) (mined_at : ℕ) (ps : List Pattern)
    → pattern_count key (update_where (has_pattern_key c.pattern_key) (refresh c mined_at) ps)
      ≡ pattern_count key ps
count-refresh key c mined_at [] = omega arith
count-refresh key c mined_at (p ∷ ps) = ground (arith, count-refresh key c mined_at ps)

count-absent :
    (key : String) (ps : List Pattern)
    → any (has_pattern_key key) ps ≡ false
    → pattern_count key ps ≡ 0
count-absent key [] h = omega arith
count-absent key (p ∷ ps) h = ground (arith, count-absent key ps)

upsert_one-once :
    (key : String) (mined_at : ℕ) (c : PatternCandidate) (ps : List Pattern)
    → pattern_count key ps ≤ 1
    → pattern_count key (upsert_one mined_at c ps) ≤ 1
unfolding upsert_one
upsert_one-once key mined_at c ps once =
    elim (Bool-cases (any (has_pattern_key c.pattern_key) ps)) [
      | inl known ↦ rw known (omega (arith, count-refresh key c mined_at ps))
      | inr fresh ↦
          let total =
            sum_by-append (λ (p : Pattern). if str_eq p.pattern_key key then 1 else 0) ps
              (as_row c mined_at ∷ []) in
          elim (Bool-cases (str_eq c.pattern_key key)) [
            | inl same ↦
                let none_yet = count-absent key ps (
                  subst (λ k. any (has_pattern_key k) ps ≡ false)
                    ((eq_iff c.pattern_key key).0 same) fresh) in
                rw fresh (ground (arith, total, none_yet, same))
            | inr other ↦ rw fresh (ground (arith, total, once, other))
          ]
    ]

-- An upsert keeps the unique index: no two rows have one key.
pub upsert_patterns-once :
    (key : String) (mined_at : ℕ) (cs : List PatternCandidate) (ps : List Pattern)
    → pattern_count key ps ≤ 1
    → pattern_count key (upsert_patterns mined_at cs ps) ≤ 1
unfolding upsert_patterns
upsert_patterns-once key mined_at [] ps once = once
upsert_patterns-once key mined_at (c ∷ cs) ps once =
    upsert_patterns-once key mined_at cs (upsert_one mined_at c ps)
      (upsert_one-once key mined_at c ps once)
