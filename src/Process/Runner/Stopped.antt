-- ===== src/Process/Runner/Stopped.antt =====
-- internal/process/runner.go: after `stopAndWait`.
use alib_fetcher.Base.{
  ℕ, ◌≤◌, ◌≡◌, refl, subst, List, [], ◌∷◌, Option, none, some, true, arith, length, inl, inr,
  Bool-cases,
}
use alib_fetcher.Process.Runner.{
  Phase, startup_begun, scheduled_begun, running, leaving, refreshing, refresh_leaving, Runner,
  new_digest_runner, thread_at, begin_run, try_start_refresh, request_stop, take_lock, try_lock,
  advance, Action, run_startup, run_scheduled, refresh, stop, goroutine, act, Reaches, here, step,
}
use alib_fetcher.Process.Runner.Exclusive.{
  some-injective, total-length, Reaches-Consistent, new-Consistent,
}

-- While the runner is stopping it stays so, and no wait group grows.
record Winds (r s : Runner) : Type 0 where
  stopping : s.stopping ≡ true
  runs : s.runs ≤ r.runs
  refresh_runs : s.refresh_runs ≤ r.refresh_runs

advance-Winds :
    (n : ℕ) (t : Option Phase) (r s : Runner)
    → r.stopping ≡ true
    → advance n t r ≡ some s
    → Winds r s
unfolding advance take_lock try_lock
advance-Winds n none r s stopped h = cc h
advance-Winds n (some startup_begun) r s stopped h = elim (Bool-cases r.lock) [
  | inl held ↦ ground (arith, held, h)
  | inr free ↦
      subst (Winds r) (some-injective (rw free at h))
        (record { stopping = stopped; runs = omega arith; refresh_runs = omega arith })
]
advance-Winds n (some scheduled_begun) r s stopped h = elim (Bool-cases r.lock) [
  | inl held ↦
      subst (Winds r) (some-injective (rw held at h))
        (record { stopping = stopped; runs = omega arith; refresh_runs = omega arith })
  | inr free ↦
      subst (Winds r) (some-injective (rw free at h))
        (record { stopping = stopped; runs = omega arith; refresh_runs = omega arith })
]
advance-Winds n (some running) r s stopped h =
    subst (Winds r) (some-injective h)
      (record { stopping = stopped; runs = omega arith; refresh_runs = omega arith })
advance-Winds n (some refreshing) r s stopped h =
    subst (Winds r) (some-injective h)
      (record { stopping = stopped; runs = omega arith; refresh_runs = omega arith })
advance-Winds n (some leaving) r s stopped h =
    subst (Winds r) (some-injective h)
      (record { stopping = stopped; runs = omega arith; refresh_runs = omega arith })
advance-Winds n (some refresh_leaving) r s stopped h =
    subst (Winds r) (some-injective h)
      (record { stopping = stopped; runs = omega arith; refresh_runs = omega arith })

act-Winds : (action : Action) (r s : Runner) → r.stopping ≡ true → act action r ≡ some s → Winds r s
unfolding act begin_run try_start_refresh request_stop
act-Winds run_startup r s stopped h = ground (arith, stopped, h)
act-Winds run_scheduled r s stopped h = ground (arith, stopped, h)
act-Winds refresh r s stopped h = ground (arith, stopped, h)
act-Winds stop r s stopped h =
    subst (Winds r) (some-injective h)
      (record { stopping = refl; runs = omega arith; refresh_runs = omega arith })
act-Winds (goroutine n) r s stopped h = advance-Winds n (thread_at n r.threads) r s stopped h

Reaches-Winds : {r s : Runner} → Reaches r s → r.stopping ≡ true → Winds r s
Reaches-Winds {r} here stopped = record {
  stopping = stopped;
  runs = omega arith;
  refresh_runs = omega arith;
}
Reaches-Winds (step {r = r} {s = s} action moves rest) stopped =
    let first = act-Winds action r s stopped moves in
    let later = Reaches-Winds rest first.stopping in
    record {
      stopping = later.stopping;
      runs = omega (arith, first.runs, later.runs);
      refresh_runs = omega (arith, first.refresh_runs, later.refresh_runs);
    }

empty-threads : (ts : List Phase) → length ts ≡ 0 → ts ≡ []
empty-threads [] h = refl
empty-threads (t ∷ ts) h = absurd (omega arith)

-- `stopAndWait`: once the request to stop is made, the refreshes are seen to be done, and later the
-- other runs are seen to be done, no goroutine of the runner is left, and none is started any more.
pub stop_and_wait-final :
    (requested refreshes_done runs_done later : Runner)
    → Reaches new_digest_runner requested
    → requested.stopping ≡ true
    → Reaches requested refreshes_done
    → refreshes_done.refresh_runs ≡ 0
    → Reaches refreshes_done runs_done
    → runs_done.runs ≡ 0
    → Reaches runs_done later
    → later.threads ≡ []
stop_and_wait-final requested refreshes_done runs_done later from stopped to_refreshes no_refresh
      to_runs no_run to_later =
    let first = Reaches-Winds to_refreshes stopped in
    let second = Reaches-Winds to_runs first.stopping in
    let third = Reaches-Winds to_later second.stopping in
    let c = Reaches-Consistent to_later (
      Reaches-Consistent to_runs
        (Reaches-Consistent to_refreshes (Reaches-Consistent from new-Consistent))) in
    empty-threads later.threads (
      omega (
        arith,
        c.runs,
        c.refresh_runs,
        total-length later.threads,
        second.refresh_runs,
        third.refresh_runs,
        third.runs,
        no_refresh,
        no_run,
      ))
