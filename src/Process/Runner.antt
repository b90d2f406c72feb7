-- ===== src/Process/Runner.antt =====
-- internal/process/runner.go: the runner of a recipient, as the steps of the goroutines that share
-- its two mutexes and its two wait groups.
pub mod Exclusive
pub mod Stopped
pub mod Progress
use alib_fetcher.Base.{
  ℕ, zero, suc, ◌-◌, ◌+◌, List, [], ◌∷◌, Option, none, some, Bool, true, false, ◌||◌, if◌then◌else◌,
  ◌≡◌,
}

-- Where a goroutine stands: in front of the lock, inside the run, or behind it with its wait group
-- still to be left.
pub data Phase : Type 0 where
  startup_begun scheduled_begun running leaving refreshing refresh_leaving : Phase

-- `lifecycle` is held only within single steps, so it has no field.
pub record Runner : Type 0 where
  pub lock : Bool
  pub stopping : Bool
  pub runs : ℕ
  pub refresh_runs : ℕ
  pub threads : List Phase

abbrev pub new_digest_runner : Runner
new_digest_runner = record {
  lock = false;
  stopping = false;
  runs = 0;
  refresh_runs = 0;
  threads = [];
}

abbrev pub thread_at : ℕ → List Phase → Option Phase
thread_at n [] = none
thread_at zero (t ∷ ts) = some t
thread_at (suc n) (t ∷ ts) = thread_at n ts

abbrev pub replace_at : ℕ → Phase → List Phase → List Phase
replace_at n u [] = []
replace_at zero u (t ∷ ts) = u ∷ ts
replace_at (suc n) u (t ∷ ts) = t ∷ replace_at n u ts

abbrev pub remove_at : ℕ → List Phase → List Phase
remove_at n [] = []
remove_at zero (t ∷ ts) = ts
remove_at (suc n) (t ∷ ts) = t ∷ remove_at n ts

-- `beginRun`, for a goroutine that goes on in that phase.
unfoldable pub begin_run : Phase → Runner → Option Runner
begin_run phase r =
    if r.stopping then none else some (record r { runs = suc r.runs; threads = phase ∷ r.threads })

-- `tryStartRefresh`, with the goroutine that it starts.
unfoldable pub try_start_refresh : Runner → Option Runner
try_start_refresh r =
    if r.stopping || r.lock
    then none
    else some (record r {
      lock = true;
      refresh_runs = suc r.refresh_runs;
      threads = refreshing ∷ r.threads;
    })

unfoldable pub request_stop : Runner → Runner
request_stop r = record r { stopping = true }

-- `lock.Lock()` blocks while the lock is held.
unfoldable pub take_lock : ℕ → Runner → Option Runner
take_lock n r =
    if r.lock
    then none
    else some (record r { lock = true; threads = replace_at n running r.threads })

-- `lock.TryLock()` of a scheduled run: it returns if the lock is held.
unfoldable pub try_lock : ℕ → Runner → Option Runner
try_lock n r =
    if r.lock
    then some (record r { threads = replace_at n leaving r.threads })
    else some (record r { lock = true; threads = replace_at n running r.threads })

-- The next step of a goroutine.
unfoldable pub advance : ℕ → Option Phase → Runner → Option Runner
unfolding take_lock try_lock
advance n none r = none
advance n (some startup_begun) r = take_lock n r
advance n (some scheduled_begun) r = try_lock n r
advance n (some running) r =
    some (record r { lock = false; threads = replace_at n leaving r.threads })
advance n (some leaving) r = some (record r { runs = r.runs - 1; threads = remove_at n r.threads })
advance n (some refreshing) r =
    some (record r { lock = false; threads = replace_at n refresh_leaving r.threads })
advance n (some refresh_leaving) r =
    some (record r { refresh_runs = r.refresh_runs - 1; threads = remove_at n r.threads })

-- What may happen next: a trigger, the request to stop, or a step of one of the goroutines.
pub data Action : Type 0 where
  run_startup run_scheduled refresh stop : Action
  goroutine : ℕ → Action

-- `none` for a trigger that is refused and for a goroutine that is blocked or gone.
unfoldable pub act : Action → Runner → Option Runner
unfolding begin_run try_start_refresh request_stop advance
act run_startup r = begin_run startup_begun r
act run_scheduled r = begin_run scheduled_begun r
act refresh r = try_start_refresh r
act stop r = some (request_stop r)
act (goroutine n) r = advance n (thread_at n r.threads) r

-- Any interleaving of actions.
pub data Reaches : Runner → Runner → Type 0 where
  here : {r : Runner} → Reaches r r
  step : {r s t : Runner} (action : Action) → act action r ≡ some s → Reaches s t → Reaches r t
