-- ===== src/Proposer/Pages/Bars.antt =====
-- The bars that src/pae/api/viz.py draws.
use hass_ai.Prelude.{ℕ, ◌+◌, ◌*◌, ◌≤◌, ◌<◌, ◌≡◌, min, arith, List, [], ◌∷◌, length, All}
use hass_ai.Db.Models.{ShadowResult}
use hass_ai.Miner.Ratio.{round_div-le_whole}
use hass_ai.Proposer.Pages.{Quotient, Bar, bar_height, bars_from, sparkbar, precision_series}

-- A bar that stands on the lower edge, is at least 1 high and lies inside the picture.
abbrev pub IsInside : ℕ → ℕ → Bar → Type 0
IsInside width height b = (1 ≤ b.height) × (b.y + b.height ≡ height) × (b.x + b.width < width)

bar_height-bound :
    (height : ℕ) (v : Quotient) → 1 ≤ height → 0 < v.below → bar_height height v ≤ height
bar_height-bound height v tall known =
    let part : min v.above v.below ≤ v.below = omega arith in
    let inside = round_div-le_whole (min v.above v.below) v.below height part known tall in
    omega arith

bars_from-IsInside :
    (w height total i : ℕ) (values : List Quotient)
    → 1 ≤ w
    → 1 ≤ height
    → All (λ v. 0 < v.below) values
    → (i + length values) * w ≡ total
    → All (IsInside total height) (bars_from w height i values)
unfolding bars_from
bars_from-IsInside w height total i [] wide tall known whole = tt
bars_from-IsInside w height total i (v ∷ vs) wide tall known whole =
    let fits = bar_height-bound height v tall known.0 in
    let next : (i + 1 + length vs) * w ≡ total = omega (arith, whole) in
    let spread : i * w + w + length vs * w ≡ total = omega (arith, whole) in
    let rest = bars_from-IsInside w height total (i + 1) vs wide tall known.1 next in
    ((omega arith, omega arith, omega arith), rest)

precision_series-known :
    (history : List ShadowResult) → All (λ v. 0 < v.below) (precision_series history)
precision_series-known [] = tt
precision_series-known (h ∷ hs) = (ground arith, precision_series-known hs)

-- In the picture of any shadow history, for every width and height of at least 1, each bar is at least 1
-- high, stands on the lower edge, fits the height and ends before the right edge.
pub precision_series-IsInside :
    (history : List ShadowResult) (w height : ℕ)
    → 1 ≤ w
    → 1 ≤ height
    → let picture = sparkbar (precision_series history) w height in
      All (IsInside picture.width height) picture.bars
unfolding sparkbar
precision_series-IsInside history w height wide tall =
    bars_from-IsInside w height (length (precision_series history) * w) 0 (precision_series history)
      wide tall (precision_series-known history) (omega arith)
