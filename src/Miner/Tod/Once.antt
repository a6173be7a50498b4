-- ===== src/Miner/Tod/Once.antt =====
-- That `mine_time_of_day` (src/pae/miner/tod.py) counts no event twice: for every weight of events the sum
-- over a cluster is at most that over all events.
use hass_ai.Prelude.{
  ℕ, ◌+◌, ◌≤◌, ◌≡◌, refl, ap, inl, inr, String, List, [], ◌∷◌, ◌++◌, map, length, length-append,
  sum_by, sum_by-append, append_assoc, All, All-In, In, arith,
}
use hass_ai.Miner.Stats.Clusters.{Timed, numbered, cluster_minutes, cluster_minutes-total}
use hass_ai.Miner.Types.{MinedEvent}
use hass_ai.Miner.Tod.{Habit, add_event, group_events, nth, pick}

In-sum : {A : Type 0} (f : A → ℕ) (x : A) (xs : List A) → In x xs → f x ≤ sum_by f xs
In-sum f x [] m = absurd m
In-sum f x (y ∷ ys) (inl e) = omega (arith, ap f e)
In-sum f x (y ∷ ys) (inr m) = omega (arith, In-sum f x ys m)

-- The events of the list are among the others, each as often as there or less.
abbrev pub IsPart : List MinedEvent → List MinedEvent → Type 0
IsPart es events = (w : MinedEvent → ℕ) → sum_by w es ≤ sum_by w events

module _ (w : MinedEvent → ℕ) where
  pick-sum :
      (evs : List MinedEvent) (ts : List Timed)
      → sum_by w (pick evs ts) ≡ sum_by (λ t. sum_by w (nth t.index evs)) ts
  unfolding pick
  pick-sum evs [] = refl
  pick-sum evs (t ∷ ts) =
      omega (arith, sum_by-append w (nth t.index evs) (pick evs ts), pick-sum evs ts)

  nth-append :
      (before : List MinedEvent) (e : MinedEvent) (es : List MinedEvent)
      → sum_by w (nth (length before) (before ++ e ∷ es)) ≡ w e
  unfolding nth
  nth-append [] e es = ground arith
  nth-append (b ∷ before) e es = ground (arith, nth-append before e es)

  numbered-sum :
      (f : MinedEvent → ℕ) (before es : List MinedEvent)
      → sum_by (λ t. sum_by w (nth t.index (before ++ es))) (numbered (length before) (map f es))
        ≡ sum_by w es
  unfolding numbered
  numbered-sum f before [] = refl
  numbered-sum f before (e ∷ es) =
      let rest = numbered-sum f (before ++ e ∷ []) es in
      omega (arith, nth-append before e es, rw (append_assoc, length-append) at rest)

  groups_sum : List Habit → ℕ
  groups_sum hs = sum_by (λ h. sum_by w h.events) hs

  add_event-sum :
      (e : MinedEvent) (day_type : String) (hs : List Habit)
      → groups_sum (add_event e day_type hs) ≡ groups_sum hs + w e
  unfolding add_event groups_sum
  add_event-sum e day_type [] = omega arith
  add_event-sum e day_type (h ∷ hs) =
      ground (arith, add_event-sum e day_type hs, sum_by-append w h.events (e ∷ []))

  group_events-sum :
      (day_type_for : ℕ → String) (es : List MinedEvent) (hs : List Habit)
      → groups_sum (group_events day_type_for es hs) ≤ groups_sum hs + sum_by w es
  unfolding group_events
  group_events-sum day_type_for [] hs = omega arith
  group_events-sum day_type_for (e ∷ es) hs = ground (
    arith,
    group_events-sum day_type_for es hs,
    group_events-sum day_type_for es (add_event e (day_type_for e.time) hs),
    add_event-sum e (day_type_for e.time) hs,
  )

pub group_events-IsPart :
    (day_type_for : ℕ → String) (events : List MinedEvent)
    → All (λ h. IsPart h.events events) (group_events day_type_for events [])
unfolding groups_sum
group_events-IsPart day_type_for events =
    let hs = group_events day_type_for events [] in
    All-In (λ h. IsPart h.events events) hs
      λ h m w.
        omega
          (arith, In-sum (λ g. sum_by w g.events) h hs m, group_events-sum w day_type_for events [])

pub clusters-IsPart :
    (gap : ℕ) (f : MinedEvent → ℕ) (events es : List MinedEvent)
    → IsPart es events
    → All (λ c. IsPart (pick es c) events) (cluster_minutes gap (map f es))
clusters-IsPart gap f events es part =
    let cs = cluster_minutes gap (map f es) in
    All-In (λ c. IsPart (pick es c) events) cs
      λ c m w.
        let v : Timed → ℕ = λ t. sum_by w (nth t.index es) in
        omega (
          arith,
          pick-sum w es c,
          In-sum (λ d. sum_by v d) c cs m,
          cluster_minutes-total v gap (map f es),
          numbered-sum w f [] es,
          part w,
        )
