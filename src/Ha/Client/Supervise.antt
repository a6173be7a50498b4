-- ===== src/Ha/Client/Supervise.antt =====
-- How `run` of src/pae/ha/client.py ends and how long it waits.
use hass_ai.Prelude.{ℕ, ◌+◌, ◌≤◌, ◌≡◌, refl, List, [], ◌∷◌, ◌++◌, All, arith, length}
use hass_ai.Ha.Client.{
  Round, auth_rejected, unreachable, stopped, lasted, raised_auth_error, run, delay_cap,
  after_round,
}

-- A round after which the client connects again.
abbrev pub IsRetried : Round → Type 0
IsRetried unreachable = Unit
IsRetried (lasted _) = Unit
IsRetried auth_rejected = ⊥
IsRetried stopped = ⊥

-- Through any number of rounds that end in a lost or a missing connection the client tries again, after one
-- delay for each, none above a minute; a rejected token then ends it at once, with the error and without
-- a further attempt, whatever would have come later.
pub run-retries :
    (rounds later : List Round) (attempt : ℕ)
    → All IsRetried rounds
    → let r = run (rounds ++ auth_rejected ∷ later) attempt in
      (length r.0 ≡ length rounds) × (All (λ d. d ≤ 60) r.0) × (r.1 ≡ raised_auth_error)
unfolding run delay_cap
run-retries [] later attempt h = (refl, tt, refl)
run-retries (unreachable ∷ rounds) later attempt h =
    let (n, d, e) = run-retries rounds later (attempt + 1) h.1 in
    (omega (arith, n), (omega arith, d), e)
run-retries (lasted seconds ∷ rounds) later attempt h =
    let (n, d, e) = run-retries rounds later (after_round (lasted seconds) attempt + 1) h.1 in
    (omega (arith, n), (omega arith, d), e)
run-retries (auth_rejected ∷ rounds) later attempt h = absurd h.0
run-retries (stopped ∷ rounds) later attempt h = absurd h.0
