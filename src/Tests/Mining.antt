-- ===== src/Tests/Mining.antt =====
-- The theorems of the miner, where they are used.
use hass_ai.Prelude.{List, [], ◌∷◌, ◌≡◌}
use hass_ai.Prelude.Int.{pos, abs}
use hass_ai.Miner.Types.{PatternCandidate}
use hass_ai.Miner.Stats.{circular_diff}
use hass_ai.Miner.Stats.Circle.{abs-circular_diff_comm}
use hass_ai.Miner.Reconcile.{ExistingKey, reconcile_keys}
use hass_ai.Miner.Reconcile.Adopted.{IsReconciled, reconcile_keys-IsReconciled}
use hass_ai.Prelude.{All, length, some}
use hass_ai.Tests.Samples.{lamp_candidate}

abs-circular_diff_comm_example :
    abs (circular_diff (pos 86100) (pos 300)) ≡ abs (circular_diff (pos 300) (pos 86100))
abs-circular_diff_comm_example = abs-circular_diff_comm (pos 86100) (pos 300)

-- The same key in two clusters, where the second is more frequent.
abbrev twice : List PatternCandidate
twice = lamp_candidate ∷ record lamp_candidate { occurrences = 30 } ∷ []

-- The habit was mined before at 07:29, in the bucket before.
abbrev earlier : ExistingKey
earlier = record {
  pattern_key = "tod:light.hall:on:weekday:13";
  entity_id = "light.hall";
  action = "on";
  day_type = some "weekday";
  tod_minutes = some 26940;
}

reconcile_keys-IsReconciled_example :
    All (IsReconciled 2700 (earlier ∷ []) twice) (reconcile_keys 2700 (earlier ∷ []) twice)
    × (length (reconcile_keys 2700 (earlier ∷ []) twice) ≡ 2)
reconcile_keys-IsReconciled_example = reconcile_keys-IsReconciled 2700 (earlier ∷ []) twice
