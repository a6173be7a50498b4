-- ===== src/Tests/Lifecycles.antt =====
-- The theorems of the proposals' lifecycle and of the review UI, where they are used.
use hass_ai.Prelude.{In, inl, false, some, [], ◌∷◌, ◌≡◌, refl, arith, replicate}
use hass_ai.Proposer.Repo.{detail_ready, reject_proposal}
use hass_ai.Proposer.Pages.{list_figures, detail_figures}
use hass_ai.Proposer.Pages.Agree.{list_figures-detail_figures}
use hass_ai.Proposer.Repo.Ready.{detail_ready-false}
use hass_ai.Proposer.Lifecycle.{mark_stale, ids_of, gone_stale, here, next, reject, run, apply_run}
use hass_ai.Proposer.Lifecycle.Tracks.{Preserves}
use hass_ai.Proposer.Lifecycle.Terminal.{Reach-Preserves}
use hass_ai.Proposer.Lifecycle.Race.{rejected_row, stale_row, single, mark_stale-reject}
use hass_ai.Tests.Samples.{database, lamp_proposal, lamp_pattern, scored_day}

-- A rejection, and a run that took the proposal for a live one.
Reach-Preserves_example : Preserves database (
    apply_run 500 400
      (record {
        live_keys = "tod:weekday:14:a" ∷ [];
        stale_keys = "tod:weekday:14:a" ∷ [];
        inserts = [];
        status_updates = [];
      })
      (reject_proposal 1 (some "no") 60 database))
Reach-Preserves_example =
    Reach-Preserves (omega arith, omega arith)
      (next (next here (reject 1 60 (some "no") database))
        (run 500 400 _ (reject_proposal 1 (some "no") 60 database)))

mark_stale-reject_example :
    let decided = reject_proposal 1 (some "no") 60 (single lamp_proposal (lamp_pattern ∷ []) 2) in
    In (rejected_row (some "no") 60 lamp_proposal) decided.proposals
    × In
        (stale_row 61 (rejected_row (some "no") 60 lamp_proposal))
        (mark_stale 61
          (ids_of (gone_stale 55 (single lamp_proposal (lamp_pattern ∷ []) 2)))
          decided).proposals
mark_stale-reject_example =
    mark_stale-reject (single lamp_proposal (lamp_pattern ∷ []) 2) lamp_proposal (some "no") 60 61
      55 (inl refl) refl (omega arith)

-- Twenty days in the table, and 21 days to be ready.
list_figures-detail_figures_example :
    list_figures (replicate 20 scored_day) 21 1 ≡ detail_figures (replicate 20 scored_day) 1
list_figures-detail_figures_example = list_figures-detail_figures (replicate 20 scored_day) 21 1

detail_ready-false_example : detail_ready (replicate 40 scored_day) 35 8000 5000 1 ≡ false
detail_ready-false_example =
    detail_ready-false (replicate 40 scored_day) 35 8000 5000 1 (omega arith)
