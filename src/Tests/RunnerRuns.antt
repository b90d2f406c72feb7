-- ===== src/Tests/RunnerRuns.antt =====
-- Interleavings of a runner, and the theorems on it at them.
use alib_fetcher.Base.{
  ℕ, ◌+◌, ◌≤◌, ◌<◌, ◌≡◌, ◌≢◌, ◌↔◌, refl, [], ◌∷◌, some, none, true, false, length,
}
use alib_fetcher.Process.Runner.{
  Runner, new_digest_runner, begin_run, try_start_refresh, request_stop, take_lock, try_lock,
  advance, run_startup, refresh, stop, goroutine, act, Reaches, here, step, refreshing,
  startup_begun,
}
use alib_fetcher.Process.Runner.Exclusive.{total, executes, runner-exclusive}
use alib_fetcher.Process.Runner.Stopped.{stop_and_wait-final}
use alib_fetcher.Process.Runner.Progress.{steps_left, runner-progress}

runner_steps : ℕ
unfolding act begin_run try_start_refresh request_stop advance take_lock try_lock
runner_steps = 0

-- A refresh runs, and a start of the service waits behind it.
abbrev busy : Runner
busy = record {
  lock = true;
  stopping = false;
  runs = 1;
  refresh_runs = 1;
  threads = startup_begun ∷ refreshing ∷ [];
}

busy_reached : Reaches new_digest_runner busy
unfolding runner_steps
busy_reached = step refresh refl (step run_startup refl here)

abbrev stopping_runner : Runner
stopping_runner = record busy { stopping = true }

-- The refresh is over.
abbrev refreshed : Runner
refreshed = record {
  lock = false;
  stopping = true;
  runs = 1;
  refresh_runs = 0;
  threads = startup_begun ∷ [];
}

abbrev finished : Runner
finished = record { lock = false; stopping = true; runs = 0; refresh_runs = 0; threads = [] }

stopping_reached : Reaches new_digest_runner stopping_runner
unfolding runner_steps
stopping_reached = step refresh refl (step run_startup refl (step stop refl here))

refreshed_reached : Reaches stopping_runner refreshed
unfolding runner_steps
refreshed_reached = step (goroutine 1) refl (step (goroutine 1) refl here)

finished_reached : Reaches refreshed finished
unfolding runner_steps
finished_reached = step (goroutine 0) refl (step (goroutine 0) refl (step (goroutine 0) refl here))

-- Nothing starts in a runner that has stopped.
refused_refresh : act refresh finished ≡ none
unfolding runner_steps
refused_refresh = refl

runner-exclusive_example :
    (total executes busy.threads ≤ 1)
    × ((total executes busy.threads ≡ 1) ↔ (busy.lock ≡ true))
    × (busy.runs + busy.refresh_runs ≡ length busy.threads)
runner-exclusive_example = runner-exclusive busy busy_reached

stop_and_wait-final_example : finished.threads ≡ []
stop_and_wait-final_example =
    stop_and_wait-final stopping_runner refreshed finished finished stopping_reached refl
      refreshed_reached refl finished_reached refl here

runner-progress_example :
    (busy.threads ≢ [] → (n : ℕ) × (s : Runner) × (act (goroutine n) busy ≡ some s))
    × ((n : ℕ) (s : Runner)
        → act (goroutine n) busy ≡ some s
        → total steps_left s.threads < total steps_left busy.threads)
runner-progress_example = runner-progress busy busy_reached
