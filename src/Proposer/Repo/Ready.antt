-- ===== src/Proposer/Repo/Ready.antt =====
-- When a proposal is ready to graduate (`ready` of src/pae/proposer/repo.py).
use hass_ai.Prelude.{
  max, last_n-last_n, length-last_n, false, ℕ, ◌*◌, ◌≤◌, ◌<◌, ◌≡◌, ◌↔◌, true, List, arith, length,
  last_n,
}
use hass_ai.Db.Models.{ShadowResult}
use hass_ai.Proposer.Repo.{
  own_rows, ready_fetch_limit, shadow_history, list_ready, detail_ready, one, expected_sum,
  match_sum, total_sum, ready,
}

-- A history is ready exactly if it has the days, and over its last 14 rows something was expected,
-- someone acted, and the precision and the coverage reach their thresholds.
pub ready_iff :
    (history : List ShadowResult) (min_days min_precision min_coverage : ℕ)
    → (ready history min_days min_precision min_coverage ≡ true) ↔ (
        (min_days ≤ length history)
        × (0 < expected_sum (last_n 14 history))
        × (0 < total_sum (last_n 14 history))
        × (min_precision * expected_sum (last_n 14 history) ≤ match_sum (last_n 14 history) * one)
        × (min_coverage * total_sum (last_n 14 history) ≤ match_sum (last_n 14 history) * one))
unfolding ready
ready_iff history d p c =
    (λ h. (ground arith, ground arith, ground arith, ground arith, ground arith), λ h. ground arith)

-- The list page fetches enough: it says of a proposal what `ready` says of its whole history, for every
-- configured number of days.
pub list_ready_eq :
    (rows : List ShadowResult) (min_days min_precision min_coverage id : ℕ)
    → list_ready rows min_days min_precision min_coverage id
      ≡ ready (own_rows rows id) min_days min_precision min_coverage
unfolding list_ready shadow_history ready_fetch_limit ready
list_ready_eq rows d p c id =
    let history = own_rows rows id in
    rw (last_n-last_n 14 (max d 14) history (omega arith))
      (ground (arith, length-last_n (max d 14) history))

-- The detail page fetches 30 rows: with more than 30 days configured it never shows a proposal as ready,
-- also where the list page does.
pub detail_ready-false :
    (rows : List ShadowResult) (min_days min_precision min_coverage id : ℕ)
    → 30 < min_days
    → detail_ready rows min_days min_precision min_coverage id ≡ false
unfolding detail_ready shadow_history ready
detail_ready-false rows d p c id h = ground (arith, length-last_n 30 (own_rows rows id))
