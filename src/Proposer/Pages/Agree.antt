-- ===== src/Proposer/Pages/Agree.antt =====
-- How the two review pages (src/pae/api/proposals.py, src/pae/proposer/repo.py) agree.
use hass_ai.Prelude.{
  ℕ, ◌≤◌, ◌≡◌, refl, sym, ap, ◌∙◌, arith, max, none, List, [], ◌∷◌, last_n, last_n-last_n, is_empty,
  if◌then◌else◌,
}
use hass_ai.Db.Models.{ShadowResult}
use hass_ai.Proposer.Repo.{
  own_rows, expected_sum, match_sum, total_sum, ready_fetch_limit, shadow_history,
}
use hass_ai.Proposer.Pages.{quotient, rolling, window_figure, list_figures, detail_figures}

-- An empty window has no quotient.
window_rolling :
    (history : List ShadowResult) (column : List ShadowResult → ℕ)
    → column [] ≡ 0
    → window_figure history column ≡ rolling history column
window_rolling history column none_there = by_window (last_n 14 history)
  where
    by_window :
        (window : List ShadowResult)
        → (if is_empty window then none else quotient (match_sum window) (column window))
          ≡ quotient (match_sum window) (column window)
    by_window [] = ground (arith, none_there)
    by_window (h ∷ hs) = refl

window_last :
    (n : ℕ) (rows : List ShadowResult) (column : List ShadowResult → ℕ)
    → 14 ≤ n
    → rolling (last_n n rows) column ≡ rolling rows column
window_last n rows column enough =
    ap (λ w. quotient (match_sum w) (column w)) (last_n-last_n 14 n rows enough)

-- For every table, proposal and number of days that is configured, the list page and the detail page show
-- the same rolling precision and the same rolling coverage, though they fetch different numbers of rows.
pub list_figures-detail_figures :
    (rows : List ShadowResult) (min_days id : ℕ)
    → list_figures rows min_days id ≡ detail_figures rows id
unfolding list_figures detail_figures shadow_history ready_fetch_limit
list_figures-detail_figures rows min_days id =
    let own = own_rows rows id in
    let n = max min_days 14 in
    let enough : 14 ≤ n = omega arith in
    let thirty : 14 ≤ 30 = omega arith in
    let precision =
      window_rolling (last_n n own) expected_sum refl
      ∙ window_last n own expected_sum enough
      ∙ sym (window_last 30 own expected_sum thirty) in
    let coverage =
      window_rolling (last_n n own) total_sum refl
      ∙ window_last n own total_sum enough
      ∙ sym (window_last 30 own total_sum thirty) in
    ap (λ a. (a, window_figure (last_n n own) total_sum)) precision
    ∙ ap (λ b. (rolling (last_n 30 own) expected_sum, b)) coverage
