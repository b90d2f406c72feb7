-- ===== src/Process/Runner/Progress.antt =====
-- internal/process/runner.go: no deadlock, and an end of the waiting.
use alib_fetcher.Base.{
  ℕ, suc, ◌<◌, ◌≡◌, ◌≢◌, refl, List, [], ◌∷◌, Option, none, some, false, arith, inl, inr,
  Bool-cases,
}
use alib_fetcher.Process.Runner.{
  Phase, startup_begun, scheduled_begun, running, leaving, refreshing, refresh_leaving, Runner,
  new_digest_runner, thread_at, take_lock, try_lock, advance, goroutine, act, Reaches,
}
use alib_fetcher.Process.Runner.Exclusive.{
  Consistent, total, executes, total-replace_at, total-remove_at, Reaches-Consistent,
  new-Consistent,
}

-- The steps that a goroutine has before it.
abbrev pub steps_left : Phase → ℕ
steps_left startup_begun = 3
steps_left scheduled_begun = 3
steps_left running = 2
steps_left refreshing = 2
steps_left leaving = 1
steps_left refresh_leaving = 1

-- A goroutine that executes a run can be found where there is one.
find_executing :
    (ts : List Phase)
    → total executes ts ≢ 0
    → (n : ℕ) × (t : Phase) × (thread_at n ts ≡ some t) × (executes t ≡ 1)
find_executing [] h = absurd (h refl)
find_executing (running ∷ ts) h = (0, running, refl, refl)
find_executing (refreshing ∷ ts) h = (0, refreshing, refl, refl)
find_executing (startup_begun ∷ ts) h =
    let (n, t, found, busy) = find_executing ts (omega (arith, h)) in (suc n, t, found, busy)
find_executing (scheduled_begun ∷ ts) h =
    let (n, t, found, busy) = find_executing ts (omega (arith, h)) in (suc n, t, found, busy)
find_executing (leaving ∷ ts) h =
    let (n, t, found, busy) = find_executing ts (omega (arith, h)) in (suc n, t, found, busy)
find_executing (refresh_leaving ∷ ts) h =
    let (n, t, found, busy) = find_executing ts (omega (arith, h)) in (suc n, t, found, busy)

abbrev CanMove : ℕ → Runner → Type 0
CanMove n r = (s : Runner) × (act (goroutine n) r ≡ some s)

executing-CanMove :
    (n : ℕ) (t : Phase) (r : Runner) → thread_at n r.threads ≡ some t → executes t ≡ 1 → CanMove n r
unfolding act advance
executing-CanMove n running r found busy = rw found (_, refl)
executing-CanMove n refreshing r found busy = rw found (_, refl)
executing-CanMove n startup_begun r found busy = absurd (omega (arith, busy))
executing-CanMove n scheduled_begun r found busy = absurd (omega (arith, busy))
executing-CanMove n leaving r found busy = absurd (omega (arith, busy))
executing-CanMove n refresh_leaving r found busy = absurd (omega (arith, busy))

free-CanMove :
    (n : ℕ) (t : Phase) (r : Runner) → thread_at n r.threads ≡ some t → r.lock ≡ false → CanMove n r
unfolding act advance take_lock try_lock
free-CanMove n startup_begun r found free = rw (found, free) (_, refl)
free-CanMove n scheduled_begun r found free = rw (found, free) (_, refl)
free-CanMove n running r found free = rw found (_, refl)
free-CanMove n refreshing r found free = rw found (_, refl)
free-CanMove n leaving r found free = rw found (_, refl)
free-CanMove n refresh_leaving r found free = rw found (_, refl)

any-CanMove :
    (r : Runner)
    → Consistent r
    → (ts : List Phase) → r.threads ≡ ts
    → ts ≢ []
    → (n : ℕ) × CanMove n r
any-CanMove r c [] same h = absurd (h refl)
any-CanMove r c (t ∷ ts) same h = elim (Bool-cases r.lock) [
  | inl held ↦
      let (n, u, found, busy) = find_executing r.threads (ground (arith, c.holder, held)) in
      (n, executing-CanMove n u r found busy)
  | inr free ↦ (0, free-CanMove 0 t r (rw same refl) free)
]

advance-spends :
    (n : ℕ) (t : Option Phase) (r s : Runner)
    → thread_at n r.threads ≡ t
    → advance n t r ≡ some s
    → total steps_left s.threads < total steps_left r.threads
unfolding advance take_lock try_lock
advance-spends n none r s found h = cc h
advance-spends n (some startup_begun) r s found h =
    ground (arith, h, total-replace_at steps_left n startup_begun running r.threads found)
advance-spends n (some scheduled_begun) r s found h = ground (
  arith,
  h,
  total-replace_at steps_left n scheduled_begun running r.threads found,
  total-replace_at steps_left n scheduled_begun leaving r.threads found,
)
advance-spends n (some running) r s found h =
    ground (arith, h, total-replace_at steps_left n running leaving r.threads found)
advance-spends n (some refreshing) r s found h =
    ground (arith, h, total-replace_at steps_left n refreshing refresh_leaving r.threads found)
advance-spends n (some leaving) r s found h =
    ground (arith, h, total-remove_at steps_left n leaving r.threads found)
advance-spends n (some refresh_leaving) r s found h =
    ground (arith, h, total-remove_at steps_left n refresh_leaving r.threads found)

-- The goroutines of a runner never block each other for good: while one is left, one of them can go
-- on, and every step that one of them takes uses up some of a finite number of steps.
pub runner-progress :
    (r : Runner)
    → Reaches new_digest_runner r
    → (r.threads ≢ [] → (n : ℕ) × (s : Runner) × (act (goroutine n) r ≡ some s))
      × ((n : ℕ) (s : Runner)
          → act (goroutine n) r ≡ some s
          → total steps_left s.threads < total steps_left r.threads)
unfolding act
runner-progress r reached = (
  λ h.
      let (n, moves) = any-CanMove r (Reaches-Consistent reached new-Consistent) r.threads refl h in
      (n, moves.0, moves.1),
  λ n s h. advance-spends n (thread_at n r.threads) r s refl h,
)
