-- ===== src/Proposer/Grouping/Partition.antt =====
-- How the groups of `build_groups` (src/pae/proposer/grouping.py) relate to the eligible patterns.
use hass_ai.Prelude.{
  Bool-cases, inl, inr, any, ap, map, filter, ◌++◌, ℕ, ◌+◌, ◌≡◌, refl, ap, Option, none, some,
  String, List, [], ◌∷◌, ◌++◌, map, filter, any, sum_by, sum_by-append, arith,
}
use hass_ai.Db.Models.{Pattern, is_time_of_day, is_event_pair}
use hass_ai.Proposer.Group.{ProposalGroup}
use hass_ai.Proposer.Grouping.{
  lacks_minutes, minutes_of, Formats, insert_member, sort_members, Bucket, put_member, by_day_type,
  by_trigger, split_clusters, clusters_of, close_tod, tod_groups, pair_group, build_groups,
}

-- The weight of a pattern stands for any way to count: whether it is the pattern in question, or 1.
module _ (w : Pattern → ℕ) where
  abbrev pub grouped : List ProposalGroup → ℕ
  grouped gs = sum_by (λ g. sum_by w g.patterns) gs

  abbrev stored : List Bucket → ℕ
  stored bs = sum_by (λ b. sum_by w b.members) bs

  insert_member-sum :
      (p : Pattern) (ps : List Pattern) → sum_by w (insert_member p ps) ≡ w p + sum_by w ps
  unfolding insert_member
  insert_member-sum p [] = refl
  insert_member-sum p (q ∷ qs) = ground (arith, insert_member-sum p qs)

  sort_members-sum : (ps : List Pattern) → sum_by w (sort_members ps) ≡ sum_by w ps
  unfolding sort_members
  sort_members-sum [] = refl
  sort_members-sum (p ∷ ps) =
      omega (arith, insert_member-sum p (sort_members ps), sort_members-sum ps)

  put_member-sum :
      (k : String) (s : Option String) (p : Pattern) (bs : List Bucket)
      → stored (put_member k s p bs) ≡ w p + stored bs
  unfolding put_member
  put_member-sum k s p [] = omega arith
  put_member-sum k s p (b ∷ bs) = ground (arith, put_member-sum k s p bs)

  by_day_type-sum : (ps : List Pattern) → stored (by_day_type ps) ≡ sum_by w ps
  unfolding by_day_type
  by_day_type-sum [] = refl
  by_day_type-sum (p ∷ ps) =
      omega (arith, put_member-sum _ none p (by_day_type ps), by_day_type-sum ps)

  by_trigger-sum : (ps : List Pattern) → stored (by_trigger ps) ≡ sum_by w ps
  unfolding by_trigger
  by_trigger-sum [] = refl
  by_trigger-sum (p ∷ ps) =
      omega (arith, put_member-sum _ p.trigger_state p (by_trigger ps), by_trigger-sum ps)

  split_clusters-sum :
      (f : Formats) (window : ℕ) (day_type : String) (cluster : List Pattern) (last : ℕ)
      (ps : List Pattern)
      → grouped (split_clusters f window day_type cluster last ps) ≡ sum_by w cluster + sum_by w ps
  unfolding split_clusters close_tod
  split_clusters-sum f window day_type cluster last [] = omega arith
  split_clusters-sum f window day_type cluster last (p ∷ ps) = ground (
    arith,
    split_clusters-sum f window day_type (p ∷ []) (minutes_of p) ps,
    split_clusters-sum f window day_type (cluster ++ p ∷ []) (minutes_of p) ps,
    sum_by-append w cluster (p ∷ []),
  )

  clusters_of-sum :
      (f : Formats) (window : ℕ) (day_type : String) (ps : List Pattern)
      → grouped (clusters_of f window day_type ps) ≡ sum_by w ps
  clusters_of-sum f window day_type [] = refl
  clusters_of-sum f window day_type (p ∷ ps) =
      omega (arith, split_clusters-sum f window day_type (p ∷ []) (minutes_of p) ps)

  tod_groups-sum :
      (f : Formats) (window : ℕ) (bs : List Bucket) → grouped (tod_groups f window bs) ≡ stored bs
  unfolding tod_groups
  tod_groups-sum f window [] = refl
  tod_groups-sum f window (b ∷ bs) = omega (
    arith,
    sum_by-append (λ (g : ProposalGroup). sum_by w g.patterns)
        (clusters_of f window b.key (sort_members b.members)) (tod_groups f window bs),
    clusters_of-sum f window b.key (sort_members b.members),
    sort_members-sum b.members,
    tod_groups-sum f window bs,
  )

  pair_groups-sum : (f : Formats) (bs : List Bucket) → grouped (map (pair_group f) bs) ≡ stored bs
  unfolding pair_group
  pair_groups-sum f [] = refl
  pair_groups-sum f (b ∷ bs) = omega (arith, pair_groups-sum f bs)

-- However patterns are weighed, the groups weigh as much as the eligible patterns of the two kinds: with
-- weight 1 for one pattern, it stands in as many groups as it stands in the list, none is lost in the
-- clustering and none is doubled.
pub build_groups-grouped :
    (w : Pattern → ℕ) (f : Formats) (window : ℕ) (eligible : List Pattern)
    (groups : List ProposalGroup)
    → build_groups f window eligible ≡ some groups
    → grouped w groups
      ≡ sum_by w (filter (λ p. is_time_of_day p.kind) eligible)
        + sum_by w (filter (λ p. is_event_pair p.kind) eligible)
unfolding build_groups
build_groups-grouped w f window eligible groups h = elim (Bool-cases (any lacks_minutes eligible)) [
  | inl lacking ↦ absurd (ground (arith, rw lacking at h))
  | inr complete ↦
      let tods = by_day_type (filter (λ p. is_time_of_day p.kind) eligible) in
      let pairs = by_trigger (filter (λ p. is_event_pair p.kind) eligible) in
      let made : tod_groups f window tods ++ map (pair_group f) pairs ≡ groups =
        ground (arith, rw complete at h) in
      omega (
        arith,
        ap (grouped w) made,
        sum_by-append (λ (g : ProposalGroup). sum_by w g.patterns) (tod_groups f window tods)
            (map (pair_group f) pairs),
        tod_groups-sum w f window tods,
        pair_groups-sum w f pairs,
        by_day_type-sum w (filter (λ p. is_time_of_day p.kind) eligible),
        by_trigger-sum w (filter (λ p. is_event_pair p.kind) eligible),
      )
]
