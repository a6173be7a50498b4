-- ===== src/Proposer/Pages.antt =====
-- The figures of the review pages: src/pae/api/viz.py, the helpers of src/pae/api/proposals.py and the
-- window figures of list_proposals in src/pae/proposer/repo.py. A quotient is its numerator and its
-- denominator; the SVG text is the numbers that stand in it.
pub mod Agree
pub mod Bars
use hass_ai.Prelude.{
  ℕ, suc, ◌+◌, ◌-◌, ◌*◌, min, max, Bool, Option, none, some, List, [], ◌∷◌, map, length, last_n,
  is_empty, leb, if◌then◌else◌,
}
use hass_ai.Db.Models.{ShadowResult}
use hass_ai.Miner.Ratio.{round_div}
use hass_ai.Proposer.Repo.{expected_sum, match_sum, total_sum, ready_fetch_limit, shadow_history}

pub record Quotient : Type 0 where
  pub above : ℕ
  pub below : ℕ

-- (num / den) if den > 0 else None
abbrev pub quotient : ℕ → ℕ → Option Quotient
quotient num den = if leb den 0 then none else some (record { above = num; below = den })

-- _rolling of human_matches over a column, given by its sum.
abbrev pub rolling : List ShadowResult → (List ShadowResult → ℕ) → Option Quotient
rolling history column =
    let window = last_n 14 history in quotient (match_sum window) (column window)

-- precision14 and coverage14 of a proposal in list_proposals.
abbrev pub window_figure : List ShadowResult → (List ShadowResult → ℕ) → Option Quotient
window_figure history column =
    let window = last_n 14 history in
    if is_empty window then none else quotient (match_sum window) (column window)

unfoldable pub list_figures : List ShadowResult → ℕ → ℕ → Option Quotient × Option Quotient
unfolding shadow_history ready_fetch_limit
list_figures rows min_days id =
    let history = shadow_history rows id (ready_fetch_limit min_days) in
    (window_figure history expected_sum, window_figure history total_sum)

-- precision and coverage of proposal_detail_page, which fetches 30 rows.
unfoldable pub detail_figures : List ShadowResult → ℕ → Option Quotient × Option Quotient
unfolding shadow_history
detail_figures rows id =
    let history = shadow_history rows id 30 in
    (rolling history expected_sum, rolling history total_sum)

-- _precision_series: 0 where nothing was expected.
abbrev pub precision_of : ShadowResult → Quotient
precision_of h =
    if leb h.expected_fires 0
    then record { above = 0; below = 1 }
    else record { above = h.human_matches; below = h.expected_fires }

abbrev pub precision_series : List ShadowResult → List Quotient
precision_series history = map precision_of history

-- A rect of the SVG.
pub record Bar : Type 0 where
  pub x : ℕ
  pub y : ℕ
  pub width : ℕ
  pub height : ℕ

-- The height of a bar: the value, at most 1, of the whole height, rounded, and at least 1.
abbrev pub bar_height : ℕ → Quotient → ℕ
bar_height height v = max 1 (round_div (min v.above v.below * height) v.below)

abbrev bar : ℕ → ℕ → ℕ → Quotient → Bar
bar width_per_bar height i v = record {
  x = i * width_per_bar;
  y = height - bar_height height v;
  width = width_per_bar - 1;
  height = bar_height height v;
}

unfoldable pub bars_from : ℕ → ℕ → ℕ → List Quotient → List Bar
unfolding round_div
bars_from width_per_bar height i [] = []
bars_from width_per_bar height i (v ∷ vs) =
    bar width_per_bar height i v ∷ bars_from width_per_bar height (i + 1) vs

pub record Spark : Type 0 where
  pub width : ℕ
  pub height : ℕ
  pub bars : List Bar

unfoldable pub sparkbar : List Quotient → ℕ → ℕ → Spark
unfolding bars_from
sparkbar values width_per_bar height = record {
  width = length values * width_per_bar;
  height = height;
  bars = bars_from width_per_bar height 0 values;
}
