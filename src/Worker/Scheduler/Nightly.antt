-- ===== src/Worker/Scheduler/Nightly.antt =====
-- When the scheduler (src/pae/worker/scheduler.py) wakes, and what it enqueues.
use hass_ai.Prelude.{
  ltb, ◌/◌, take, All, refl, ap, ◌∷◌, [], if◌then◌else◌, ℕ, ◌+◌, ◌*◌, ◌%◌, ◌≤◌, ◌<◌, ◌≡◌, false,
  List, [], ◌++◌, arith, append_assoc, append-nil, sym, ◌∙◌,
}
use hass_ai.Worker.Scheduler.{
  Wait, day_seconds, seconds_until_next, Enqueued, enqueue_nightly_chain, run_round, run_days,
}

-- The delay is positive and at most a day, and it ends at the scheduled hour.
pub seconds_until_next-lands :
    (hour now : ℕ)
    → hour < 24
    → (0 < seconds_until_next hour now)
      × (seconds_until_next hour now ≤ day_seconds)
      × ((now + seconds_until_next hour now) % day_seconds ≡ hour * 3600)
unfolding seconds_until_next
seconds_until_next-lands hour now h = (ground arith, ground arith, ground arith)

-- The day of the first wake-up: today where the hour is still to come.
abbrev pub first_day : ℕ → ℕ → ℕ
first_day hour now =
    let today = now / day_seconds in
    if ltb (now % day_seconds) (hour * 3600) then today else today + 1

first_wake :
    (hour now : ℕ)
    → hour < 24
    → now + seconds_until_next hour now ≡ first_day hour now * day_seconds + hour * 3600
unfolding seconds_until_next
first_wake hour now h = ground arith

next_day :
    (hour day late spent : ℕ)
    → hour < 24
    → late + spent < day_seconds
    → first_day hour (day * day_seconds + hour * 3600 + late + spent) ≡ day + 1
next_day hour day late spent h short = ground arith

-- The wait is not stopped, its jobs are enqueued on its day, and the next wait begins within a day.
abbrev pub IsPrompt : ℕ → Wait → Type 0
IsPrompt hour w =
    (w.stopped ≡ false) × (hour * 3600 + w.late < day_seconds) × (w.late + w.spent < day_seconds)

-- What the waits enqueue, one day after the other.
abbrev pub nights : List Wait → ℕ → List Enqueued
nights [] day = []
nights (w ∷ waits) day =
    take w.enqueued (enqueue_nightly_chain (day * day_seconds) []) ++ nights waits (day + 1)

chain-date :
    (hour day late : ℕ)
    → hour * 3600 + late < day_seconds
    → enqueue_nightly_chain (day * day_seconds + hour * 3600 + late) []
      ≡ enqueue_nightly_chain (day * day_seconds) []
unfolding enqueue_nightly_chain
chain-date hour day late h =
    let date : ◌≡◌ {A = ℕ} ((day * day_seconds + hour * 3600 + late) / day_seconds)
        (day * day_seconds / day_seconds) =
      ground (arith, h) in
    rw date refl

pub run_days-nights :
    (hour : ℕ) (h : hour < 24) (waits : List Wait) (now : ℕ) (queue : List Enqueued)
    → All (IsPrompt hour) waits
    → run_days hour waits now queue ≡ queue ++ nights waits (first_day hour now)
unfolding run_days run_round
run_days-nights hour h [] now queue ok = sym (append-nil queue)
run_days-nights hour h (w ∷ waits) now queue ok =
    let day = first_day hour now in
    let on = first_wake hour now h in
    let chain = take w.enqueued (enqueue_nightly_chain (day * day_seconds) []) in
    let following = next_day hour day w.late w.spent h ok.0.2 in
    let later =
      run_days-nights hour h waits (day * day_seconds + hour * 3600 + w.late + w.spent)
        (queue ++ chain) ok.1 in
    rw (ok.0.0, on, chain-date hour day w.late ok.0.1)
      (later
        ∙ (append_assoc queue chain _ ∙ ap (λ d. queue ++ (chain ++ nights waits d)) following))
