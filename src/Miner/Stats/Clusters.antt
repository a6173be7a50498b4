-- ===== src/Miner/Stats/Clusters.antt =====
-- `cluster_minutes` of src/pae/miner/stats.py. A time stands with its index in place of the index alone.
use hass_ai.Prelude.{
  ℕ, ◌+◌, ◌-◌, ◌≡◌, refl, ◌∙◌, inl, inr, Bool-cases, ◌&&◌, List, [], ◌∷◌, ◌++◌, length, sum_by,
  sum_by-append, arith, ltb, leb, if◌then◌else◌,
}
use hass_ai.Prelude.Sort.{sort_by, sort_by-sum}
use hass_ai.Miner.Stats.{day_minutes}

-- minutes[i] with i
pub record Timed : Type 0 where
  pub index : ℕ
  pub minutes : ℕ

unfoldable pub numbered : ℕ → List ℕ → List Timed
numbered i [] = []
numbered i (m ∷ ms) = record { index = i; minutes = m } ∷ numbered (i + 1) ms

-- The loop over the sorted times: `last` is the last time of the last cluster.
unfoldable pub split_at_gaps :
    ℕ → List (List Timed) → List Timed → Timed → List Timed → List (List Timed)
split_at_gaps gap clusters current last [] = clusters ++ current ∷ []
split_at_gaps gap clusters current last (t ∷ ts) =
    let apart = split_at_gaps gap (clusters ++ current ∷ []) (t ∷ []) t ts in
    let joined = split_at_gaps gap clusters (current ++ t ∷ []) t ts in
    if ltb gap (t.minutes - last.minutes) then apart else joined

-- clusters.pop(): the list without its last cluster, and that cluster.
unfoldable pub pop : List (List Timed) → List (List Timed) × List Timed
pop [] = ([], [])
pop (c ∷ []) = ([], c)
pop (c ∷ d ∷ cs) = let rest = pop (d ∷ cs) in (c ∷ rest.0, rest.1)

-- clusters[0] = last + clusters[0]
abbrev pub prepend_to_first : List Timed → List (List Timed) → List (List Timed)
prepend_to_first last [] = []
prepend_to_first last (c ∷ cs) = (last ++ c) ∷ cs

abbrev pub last_minutes : ℕ → List Timed → ℕ
last_minutes m [] = m
last_minutes m (t ∷ ts) = last_minutes t.minutes ts

-- The merge of the first and the last cluster across midnight.
unfoldable pub merge_midnight : ℕ → ℕ → ℕ → List (List Timed) → List (List Timed)
unfolding pop
merge_midnight gap first last clusters =
    let rest = pop clusters in
    if ltb 1 (length clusters) && leb (first + day_minutes - last) gap
    then prepend_to_first rest.1 rest.0
    else clusters

unfoldable pub cluster_sorted : ℕ → List Timed → List (List Timed)
unfolding split_at_gaps merge_midnight
cluster_sorted gap [] = []
cluster_sorted gap (t ∷ ts) =
    merge_midnight gap t.minutes (last_minutes t.minutes ts) (split_at_gaps gap [] (t ∷ []) t ts)

unfoldable pub cluster_minutes : ℕ → List ℕ → List (List Timed)
unfolding sort_by numbered cluster_sorted
cluster_minutes gap ms = cluster_sorted gap (sort_by (λ t. t.minutes) (numbered 0 ms))

module _ (w : Timed → ℕ) where
  -- The sum of a weight over all clusters.
  abbrev pub total : List (List Timed) → ℕ
  total cs = sum_by (λ c. sum_by w c) cs

  total-split_at_gaps :
      (gap : ℕ) (clusters : List (List Timed)) (current : List Timed) (last : Timed)
      (ts : List Timed)
      → total (split_at_gaps gap clusters current last ts)
        ≡ total clusters + sum_by w current + sum_by w ts
  unfolding split_at_gaps
  total-split_at_gaps gap clusters current last [] =
      omega (arith, sum_by-append (λ c. sum_by w c) clusters (current ∷ []))
  total-split_at_gaps gap clusters current last (t ∷ ts) = ground (
    arith,
    total-split_at_gaps gap (clusters ++ current ∷ []) (t ∷ []) t ts,
    total-split_at_gaps gap clusters (current ++ t ∷ []) t ts,
    sum_by-append (λ c. sum_by w c) clusters (current ∷ []),
    sum_by-append w current (t ∷ []),
  )

  total-pop :
      (clusters : List (List Timed))
      → total (pop clusters).0 + sum_by w (pop clusters).1 ≡ total clusters
  unfolding pop
  total-pop [] = omega arith
  total-pop (c ∷ []) = omega arith
  total-pop (c ∷ d ∷ cs) = omega (arith, total-pop (d ∷ cs))

  total-prepend :
      (c d : List Timed) (cs : List (List Timed))
      → total (prepend_to_first (pop (c ∷ d ∷ cs)).1 (pop (c ∷ d ∷ cs)).0) ≡ total (c ∷ d ∷ cs)
  unfolding pop
  total-prepend c d cs = omega (arith, total-pop (d ∷ cs), sum_by-append w (pop (d ∷ cs)).1 c)

  total-merge_midnight :
      (gap first last : ℕ) (clusters : List (List Timed))
      → total (merge_midnight gap first last clusters) ≡ total clusters
  unfolding merge_midnight
  total-merge_midnight gap first last [] = refl
  total-merge_midnight gap first last (c ∷ []) = refl
  total-merge_midnight gap first last (c ∷ d ∷ cs) =
      elim (Bool-cases (ltb 1 (length (c ∷ d ∷ cs)) && leb (first + day_minutes - last) gap)) [
        | inl near ↦ rw near (total-prepend c d cs)
        | inr far ↦ rw far
      ]

  total-cluster_sorted : (gap : ℕ) (ts : List Timed) → total (cluster_sorted gap ts) ≡ sum_by w ts
  unfolding cluster_sorted
  total-cluster_sorted gap [] = refl
  total-cluster_sorted gap (t ∷ ts) = omega (
    arith,
    total-merge_midnight gap t.minutes (last_minutes t.minutes ts)
        (split_at_gaps gap [] (t ∷ []) t ts),
    total-split_at_gaps gap [] (t ∷ []) t ts,
  )

  -- For every weight, gap and list of minutes: the clusters hold each time with its index exactly as often
  -- as the list does, the merge across midnight included.
  pub cluster_minutes-total :
      (gap : ℕ) (ms : List ℕ) → total (cluster_minutes gap ms) ≡ sum_by w (numbered 0 ms)
  unfolding cluster_minutes
  cluster_minutes-total gap ms =
      total-cluster_sorted gap (sort_by (λ t. t.minutes) (numbered 0 ms))
      ∙ sort_by-sum (λ t. t.minutes) w (numbered 0 ms)
