-- ===== src/Miner/Pairs/Window.antt =====
-- The antecedents that the loop of `mine_event_pairs` (src/pae/miner/pairs.py) finds in its window.
use hass_ai.Prelude.{
  ℕ, ◌-◌, ◌≤◌, ◌≡◌, refl, Bool, true, Bool-cases, inl, inr, List, [], ◌∷◌, filter, All, arith, leb,
  ltb,
}
use hass_ai.Miner.Types.{MinedEvent}
use hass_ai.Miner.Pairs.{PairSettings, Placed, scan}

-- In the window of `b`.
abbrev pub in_reach : PairSettings → MinedEvent → Placed → Bool
in_reach s b a = leb (b.time - a.happened.time) s.window

-- The nearest come first: each is no later than those before it.
abbrev pub IsLatestFirst : List Placed → Type 0
IsLatestFirst [] = Unit
IsLatestFirst (a ∷ as_) = All (λ c. c.happened.time ≤ a.happened.time) as_ × IsLatestFirst as_

filter-far :
    (s : PairSettings) (b : MinedEvent) (time : ℕ) (earlier : List Placed)
    → All (λ c. c.happened.time ≤ time) earlier
    → ltb s.window (b.time - time) ≡ true
    → filter (in_reach s b) earlier ≡ []
filter-far s b time [] h far = refl
filter-far s b time (a ∷ earlier) h far = ground (arith, h.0, filter-far s b time earlier h.1 far)

-- Stopping at the first transition out of the window loses nothing: the loop finds what it would find
-- among all the earlier transitions that are in the window.
pub scan-filter :
    (s : PairSettings) (b : MinedEvent) (seen : List MinedEvent) (earlier : List Placed)
    → IsLatestFirst earlier
    → scan s b seen earlier ≡ scan s b seen (filter (in_reach s b) earlier)
unfolding scan
scan-filter s b seen [] h = refl
scan-filter s b seen (a ∷ earlier) h = elim (Bool-cases (ltb s.window (b.time - a.happened.time))) [
  | inl far ↦ ground (arith, far, filter-far s b a.happened.time earlier h.0 far)
  | inr near ↦ ground (
    arith,
    near,
    scan-filter s b seen earlier h.1,
    scan-filter s b (a.happened ∷ seen) earlier h.1,
  )
]
