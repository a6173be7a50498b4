-- ===== src/Miner/Sun.antt =====
-- `SunCalculator` of src/pae/miner/sun.py: sunrise and sunset as times of day, cached by date. The library
-- that knows the sun is a parameter: the two timestamps of a date, or nothing where it raises.
use hass_ai.Prelude.{
  ℕ, ◌≡◌, refl, sym, ◌∙◌, Bool-cases, inl, inr, Option, none, some, List, [], ◌∷◌, All, nat_eq,
  nat_eq_iff, if◌then◌else◌, ap, map, Option-cases,
}
use hass_ai.Miner.Stats.{Zone, local_minute}

module _ (sun : ℕ → Option (ℕ × ℕ)) (tz : Zone) where
  -- What is computed for a date that is not cached.
  abbrev pub anchors : ℕ → Option (ℕ × ℕ)
  anchors d = elim (sun d) [
    | none ↦ none
    | some s ↦ some (local_minute tz s.0, local_minute tz s.1)
  ]

  -- self._cache.get(d): the entry of a date.
  unfoldable pub cached : ℕ → List (ℕ × Option (ℕ × ℕ)) → Option (Option (ℕ × ℕ))
  cached d [] = none
  cached d (entry ∷ cache) =
      let rest = cached d cache in if nat_eq entry.0 d then some entry.1 else rest

  -- The cache after the call, and the result.
  unfoldable pub sun_minutes :
      ℕ → List (ℕ × Option (ℕ × ℕ)) → List (ℕ × Option (ℕ × ℕ)) × Option (ℕ × ℕ)
  unfolding cached
  sun_minutes d cache = elim (cached d cache) [
    | none ↦ ((d, anchors d) ∷ cache, anchors d)
    | some minutes ↦ (cache, minutes)
  ]

  -- A cache that holds only what was computed.
  abbrev pub IsCache : List (ℕ × Option (ℕ × ℕ)) → Type 0
  IsCache cache = All (λ entry. entry.1 ≡ anchors entry.0) cache

  -- A run of calls from a cache: the results in their order.
  unfoldable pub call_all : List ℕ → List (ℕ × Option (ℕ × ℕ)) → List (Option (ℕ × ℕ))
  unfolding sun_minutes
  call_all [] cache = []
  call_all (d ∷ ds) cache = let step = sun_minutes d cache in step.1 ∷ call_all ds step.0

  cached_sound :
      (d : ℕ) (cache : List (ℕ × Option (ℕ × ℕ))) (minutes : Option (ℕ × ℕ))
      → IsCache cache
      → cached d cache ≡ some minutes
      → minutes ≡ anchors d
  unfolding cached
  cached_sound d [] minutes h e = cc
  cached_sound d (entry ∷ cache) minutes h e = elim (Bool-cases (nat_eq entry.0 d)) [
    | inl hit ↦
        let same : ◌≡◌ {A = ℕ} entry.0 d = (nat_eq_iff entry.0 d).0 hit in
        let found : ◌≡◌ {A = Option (Option (ℕ × ℕ))} (some entry.1) (some minutes) =
          sym (ap (λ b. if b then some entry.1 else cached d cache) hit) ∙ e in
        let held : entry.1 ≡ anchors d = h.0 ∙ ap anchors same in cc
    | inr miss ↦
        cached_sound d cache minutes h.1
          (sym (ap (λ b. if b then some entry.1 else cached d cache) miss) ∙ e)
  ]

  pub sun_minutes_lem :
      (d : ℕ) (cache : List (ℕ × Option (ℕ × ℕ)))
      → IsCache cache
      → IsCache (sun_minutes d cache).0 × ((sun_minutes d cache).1 ≡ anchors d)
  unfolding sun_minutes
  sun_minutes_lem d cache h = elim (Option-cases (cached d cache)) [
    | inl miss ↦ rw (miss, sun_minutes) ((refl, h), refl)
    | inr (minutes, hit) ↦ rw (hit, sun_minutes) (h, cached_sound d cache minutes h hit)
  ]

  -- From a cache that holds only what was computed, as the empty one does, every run of calls returns what
  -- it would return without a cache, dates where the sun does not rise or set included.
  pub sun_minutes-uncached :
      (ds : List ℕ) (cache : List (ℕ × Option (ℕ × ℕ)))
      → IsCache cache
      → call_all ds cache ≡ map anchors ds
  unfolding call_all
  sun_minutes-uncached [] cache h = refl
  sun_minutes-uncached (d ∷ ds) cache h =
      let (kept, same) = sun_minutes_lem d cache h in
      let rest = sun_minutes-uncached ds (sun_minutes d cache).0 kept in cc
