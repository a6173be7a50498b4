-- ===== src/Worker/Scheduler.antt =====
-- The nightly scheduler of src/pae/worker/scheduler.py. A time is a number of seconds in UTC, where a day
-- has 86400 of them; microseconds are not counted.
pub mod Nightly
use hass_ai.Prelude.{
  take, ℕ, ◌+◌, ◌-◌, ◌*◌, ◌/◌, ◌%◌, Bool, true, false, Option, none, some, List, [], ◌∷◌, ◌++◌, leb,
  if◌then◌else◌, any, nat_eq, ◌&&◌,
}

abbrev pub day_seconds : ℕ
day_seconds = 86400

-- now.replace(hour=hour_utc, minute=0, second=0, microsecond=0)
abbrev pub replace_hour : ℕ → ℕ → ℕ
replace_hour hour now = now / day_seconds * day_seconds + hour * 3600

unfoldable pub seconds_until_next : ℕ → ℕ → ℕ
seconds_until_next hour now =
    let target = replace_hour hour now in
    (if leb target now then target + day_seconds else target) - now

pub data Job : Type 0 where
  mine propose shadow : Job

-- A job's identity is its name and its date; `depends_on` is that of the job before it.
pub record Enqueued : Type 0 where
  pub job : Job
  pub date : ℕ
  pub depends_on : Option Job
  pub job_timeout : ℕ

-- enqueue_nightly_chain
unfoldable pub enqueue_nightly_chain : ℕ → List Enqueued → List Enqueued
enqueue_nightly_chain now queue =
    let date = now / day_seconds in
    queue
    ++ record { job = mine; date = date; depends_on = none; job_timeout = 900 }
      ∷ record { job = propose; date = date; depends_on = some mine; job_timeout = 3600 }
      ∷ record { job = shadow; date = date; depends_on = some propose; job_timeout = 900 }
      ∷ []

-- What happens around one wait of `run_daily`: it is stopped, or it ends and the clock is read `late`
-- seconds behind the hour; the enqueueing gets as far as `enqueued` jobs before it raises, which is logged,
-- or to all three; and `spent` seconds later the clock is read for the next wait.
pub record Wait : Type 0 where
  pub stopped : Bool
  pub late : ℕ
  pub enqueued : ℕ
  pub spent : ℕ

-- One round of `run_daily`: the time at its end, whether it returns, and the queue.
unfoldable pub run_round : ℕ → Wait → ℕ → List Enqueued → ℕ × Bool × List Enqueued
unfolding seconds_until_next enqueue_nightly_chain
run_round hour w now queue =
    let woken = now + seconds_until_next hour now + w.late in
    if w.stopped
    then (now, true, queue)
    else (woken + w.spent, false, queue ++ take w.enqueued (enqueue_nightly_chain woken []))

-- `run_daily` over its waits.
unfoldable pub run_days : ℕ → List Wait → ℕ → List Enqueued → List Enqueued
unfolding run_round
run_days hour [] now queue = queue
run_days hour (w ∷ waits) now queue =
    let (time, ended, queue') = run_round hour w now queue in
    let rest = run_days hour waits time queue' in if ended then queue' else rest
