-- ===== src/Process/Runner/Exclusive.antt =====
-- internal/process/runner.go: one digest run at a time, and none once the runner has stopped.
use alib_fetcher.Base.{
  ℕ, zero, suc, ◌-◌, ◌+◌, ◌≤◌, ◌≡◌, refl, ap, subst, ◌∙◌, List, [], ◌∷◌, Option, none, some, Bool,
  true, false, ◌↔◌, ◌||◌, if◌then◌else◌, arith, length, inl, inr, Bool-cases,
}
use alib_fetcher.Process.Runner.{
  Phase, startup_begun, scheduled_begun, running, leaving, refreshing, refresh_leaving, Runner,
  new_digest_runner, thread_at, replace_at, remove_at, begin_run, try_start_refresh, request_stop,
  take_lock, try_lock, advance, Action, run_startup, run_scheduled, refresh, stop, goroutine, act,
  Reaches, here, step,
}

-- The goroutines that execute a digest run.
abbrev pub executes : Phase → ℕ
executes running = 1
executes refreshing = 1
executes startup_begun = 0
executes scheduled_begun = 0
executes leaving = 0
executes refresh_leaving = 0

-- Those that `runs` counts, and those that `refreshRuns` counts.
abbrev pub is_run : Phase → ℕ
is_run running = 1
is_run refreshing = 0
is_run startup_begun = 1
is_run scheduled_begun = 1
is_run leaving = 1
is_run refresh_leaving = 0

abbrev pub is_refresh : Phase → ℕ
is_refresh running = 0
is_refresh refreshing = 1
is_refresh startup_begun = 0
is_refresh scheduled_begun = 0
is_refresh leaving = 0
is_refresh refresh_leaving = 1

abbrev pub total : (Phase → ℕ) → List Phase → ℕ
total f [] = 0
total f (t ∷ ts) = f t + total f ts

-- Each goroutine is counted by one of the two wait groups.
pub total-length : (ts : List Phase) → total is_run ts + total is_refresh ts ≡ length ts
total-length [] = omega arith
total-length (startup_begun ∷ ts) = omega (arith, total-length ts)
total-length (scheduled_begun ∷ ts) = omega (arith, total-length ts)
total-length (running ∷ ts) = omega (arith, total-length ts)
total-length (leaving ∷ ts) = omega (arith, total-length ts)
total-length (refreshing ∷ ts) = omega (arith, total-length ts)
total-length (refresh_leaving ∷ ts) = omega (arith, total-length ts)

pub total-replace_at :
    (f : Phase → ℕ) (n : ℕ) (t u : Phase) (ts : List Phase)
    → thread_at n ts ≡ some t
    → total f (replace_at n u ts) + f t ≡ total f ts + f u
total-replace_at f n t u [] h = cc h
total-replace_at f zero t u (x ∷ ts) h = let same : x ≡ t = cc h in omega (arith, ap f same)
total-replace_at f (suc n) t u (x ∷ ts) h = omega (arith, total-replace_at f n t u ts h)

pub total-remove_at :
    (f : Phase → ℕ) (n : ℕ) (t : Phase) (ts : List Phase)
    → thread_at n ts ≡ some t
    → total f (remove_at n ts) + f t ≡ total f ts
total-remove_at f n t [] h = cc h
total-remove_at f zero t (x ∷ ts) h = let same : x ≡ t = cc h in omega (arith, ap f same)
total-remove_at f (suc n) t (x ∷ ts) h = omega (arith, total-remove_at f n t ts h)

-- The lock is held by exactly the goroutine that executes a run, and the wait groups count the
-- goroutines.
pub record Consistent (r : Runner) : Type 0 where
  pub holder : total executes r.threads ≡ (if r.lock then 1 else 0)
  pub runs : r.runs ≡ total is_run r.threads
  pub refresh_runs : r.refresh_runs ≡ total is_refresh r.threads

abbrev moved : ℕ → Phase → Bool → Runner → Runner
moved n u locked r = record r { lock = locked; threads = replace_at n u r.threads }

-- A goroutine goes on, and takes or leaves the lock.
moved-Consistent :
    (n : ℕ) (t u : Phase) (locked : Bool) (r : Runner)
    → thread_at n r.threads ≡ some t
    → Consistent r
    → (if locked then 1 else 0) + executes t ≡ (if r.lock then 1 else 0) + executes u
    → is_run t ≡ is_run u
    → is_refresh t ≡ is_refresh u
    → Consistent (moved n u locked r)
moved-Consistent n t u locked r found c lock_moves same_run same_refresh =
    let executing = total-replace_at executes n t u r.threads found in
    let running_ones = total-replace_at is_run n t u r.threads found in
    let refreshing_ones = total-replace_at is_refresh n t u r.threads found in
    record {
      holder = omega (arith, executing, c.holder, lock_moves);
      runs = omega (arith, running_ones, c.runs, same_run);
      refresh_runs = omega (arith, refreshing_ones, c.refresh_runs, same_refresh);
    }

removed-Consistent :
    (n : ℕ) (t : Phase) (runs refresh_runs : ℕ) (r : Runner)
    → thread_at n r.threads ≡ some t
    → Consistent r
    → executes t ≡ 0
    → runs + is_run t ≡ r.runs
    → refresh_runs + is_refresh t ≡ r.refresh_runs
    → Consistent
        (record r { runs = runs; refresh_runs = refresh_runs; threads = remove_at n r.threads })
removed-Consistent n t runs refresh_runs r found c idle run_left refresh_left = record {
  holder = omega (arith, total-remove_at executes n t r.threads found, c.holder, idle);
  runs = omega (arith, total-remove_at is_run n t r.threads found, c.runs, run_left);
  refresh_runs =
      omega (arith, total-remove_at is_refresh n t r.threads found, c.refresh_runs, refresh_left);
}

pub some-injective {ℓ} : {A : Type ℓ} {x y : A} → some x ≡ some y → x ≡ y
some-injective e = cc e

-- A goroutine that executes a run holds the lock.
executing-locked :
    (n : ℕ) (t : Phase) (r : Runner)
    → thread_at n r.threads ≡ some t
    → Consistent r
    → executes t ≡ 1
    → r.lock ≡ true
executing-locked n t r found c busy =
    ground (arith, total-remove_at executes n t r.threads found, c.holder, busy)

advance-Consistent :
    (n : ℕ) (t : Option Phase) (r s : Runner)
    → thread_at n r.threads ≡ t
    → Consistent r
    → advance n t r ≡ some s
    → Consistent s
unfolding advance take_lock try_lock
advance-Consistent n none r s found c h = cc h
advance-Consistent n (some startup_begun) r s found c h = elim (Bool-cases r.lock) [
  | inl held ↦ ground (arith, held, h)
  | inr free ↦
      subst Consistent (some-injective (rw free at h))
        (moved-Consistent n startup_begun running true r found c (rw free refl) refl refl)
]
advance-Consistent n (some scheduled_begun) r s found c h = elim (Bool-cases r.lock) [
  | inl held ↦
      subst Consistent (some-injective (rw held at h))
        (moved-Consistent n scheduled_begun leaving true r found c (rw held refl) refl refl)
  | inr free ↦
      subst Consistent (some-injective (rw free at h))
        (moved-Consistent n scheduled_begun running true r found c (rw free refl) refl refl)
]
advance-Consistent n (some running) r s found c h =
    let held = executing-locked n running r found c refl in
    subst Consistent (some-injective h)
      (moved-Consistent n running leaving false r found c (rw held refl) refl refl)
advance-Consistent n (some refreshing) r s found c h =
    let held = executing-locked n refreshing r found c refl in
    subst Consistent (some-injective h)
      (moved-Consistent n refreshing refresh_leaving false r found c (rw held refl) refl refl)
advance-Consistent n (some leaving) r s found c h = subst Consistent (some-injective h) (
    removed-Consistent n leaving (r.runs - 1) r.refresh_runs r found c refl
      (omega (arith, total-remove_at is_run n leaving r.threads found, c.runs)) (omega arith))
advance-Consistent n (some refresh_leaving) r s found c h = subst Consistent (some-injective h) (
    removed-Consistent n refresh_leaving r.runs (r.refresh_runs - 1) r found c refl (omega arith)
      (omega (arith, total-remove_at is_refresh n refresh_leaving r.threads found, c.refresh_runs)))

begin_run-Consistent :
    (phase : Phase) (r s : Runner)
    → executes phase ≡ 0
    → is_run phase ≡ 1
    → is_refresh phase ≡ 0
    → Consistent r
    → begin_run phase r ≡ some s
    → Consistent s
unfolding begin_run
begin_run-Consistent phase r s idle one none_left c h = elim (Bool-cases r.stopping) [
  | inl stopped ↦ ground (arith, stopped, h)
  | inr live ↦ subst Consistent (some-injective (rw live at h)) (record {
    holder = omega (arith, c.holder, idle);
    runs = omega (arith, c.runs, one);
    refresh_runs = omega (arith, c.refresh_runs, none_left);
  })
]

try_start_refresh-Consistent :
    (r s : Runner) → Consistent r → try_start_refresh r ≡ some s → Consistent s
unfolding try_start_refresh
try_start_refresh-Consistent r s c h = elim (Bool-cases (r.stopping || r.lock)) [
  | inl refused ↦ ground (arith, refused, h)
  | inr free ↦
      let unlocked : r.lock ≡ false = ground (arith, free) in
      let empty : total executes r.threads ≡ 0 = c.holder ∙ rw unlocked refl in
      subst Consistent (some-injective (rw free at h)) (record {
        holder = omega (arith, empty);
        runs = omega (arith, c.runs);
        refresh_runs = omega (arith, c.refresh_runs);
      })
]

act-Consistent :
    (action : Action) (r s : Runner) → Consistent r → act action r ≡ some s → Consistent s
unfolding act request_stop
act-Consistent run_startup r s c h = begin_run-Consistent startup_begun r s refl refl refl c h
act-Consistent run_scheduled r s c h = begin_run-Consistent scheduled_begun r s refl refl refl c h
act-Consistent refresh r s c h = try_start_refresh-Consistent r s c h
act-Consistent stop r s c h =
    subst Consistent (some-injective h)
      (record { holder = c.holder; runs = c.runs; refresh_runs = c.refresh_runs })
act-Consistent (goroutine n) r s c h = advance-Consistent n (thread_at n r.threads) r s refl c h

pub Reaches-Consistent : {r s : Runner} → Reaches r s → Consistent r → Consistent s
Reaches-Consistent here c = c
Reaches-Consistent (step {r = r} {s = s} action moves rest) c =
    Reaches-Consistent rest (act-Consistent action r s c moves)

pub new-Consistent : Consistent new_digest_runner
new-Consistent = record { holder = refl; runs = refl; refresh_runs = refl }

-- Whatever the interleaving of triggers and goroutines, at most one goroutine of a runner executes a
-- digest run at a time, and then it holds the lock; the wait groups count exactly the goroutines
-- that they are to wait for.
pub runner-exclusive :
    (r : Runner)
    → Reaches new_digest_runner r
    → (total executes r.threads ≤ 1)
      × ((total executes r.threads ≡ 1) ↔ (r.lock ≡ true))
      × (r.runs + r.refresh_runs ≡ length r.threads)
runner-exclusive r reached =
    let c = Reaches-Consistent reached new-Consistent in
    (
      ground (arith, c.holder),
      (ground (arith, c.holder), ground (arith, c.holder)),
      omega (arith, c.runs, c.refresh_runs, total-length r.threads),
    )
