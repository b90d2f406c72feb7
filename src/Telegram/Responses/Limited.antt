-- ===== src/Telegram/Responses/Limited.antt =====
-- internal/telegram/sender.go: no more than the limit is read of a response.
use alib_fetcher.Base.{
  ℕ, ◌+◌, ◌≤◌, ◌≡◌, ◌≢◌, refl, sym, subst, ◌⊎◌, inl, inr, List, [], ◌∷◌, Option, none, some, ◌==◌,
  length, length-append, Bool-cases, ==_iff, arith,
}
use alib_fetcher.Telegram.Responses.{
  ReadProblem, Problem, response_too_large, end_of_file, failure, Reading, Body, LimitBody, smaller,
  probed, passed, read, read_all, followed, wrap_response_read_error,
}

wrap-ne-too_large :
    {E : Type 0} (p : Option (ReadProblem E)) → wrap_response_read_error p ≢ some response_too_large
wrap-ne-too_large none e = cc e
wrap-ne-too_large (some end_of_file) e = cc e
wrap-ne-too_large (some (failure x)) e = cc e

module _ {World E : Type 0} where
  -- What is read counts against the limit, and a refusal comes only when all of it is read.
  abbrev pub Counts : ℕ → Reading (Problem E) × LimitBody World → Type 0
  Counts remaining (r, after) =
      (length r.bytes + after.remaining ≡ remaining)
      × ((r.problem ≢ some response_too_large) ⊎ (length r.bytes ≡ remaining))

  probed-Counts : (r : Reading (ReadProblem E) × World) → Counts 0 (probed 0 r)
  probed-Counts r = (refl, inr refl)

  passed-Counts :
      (remaining size : ℕ) (r : Reading (ReadProblem E) × World)
      → length r.0.bytes ≤ smaller size remaining
      → Counts remaining (passed remaining r)
  passed-Counts remaining size r h = (ground (arith, h), inl (wrap-ne-too_large r.0.problem))

  module _ (body : Body World E)
      (contract : (size : ℕ) (w : World) → length (body size w).0.bytes ≤ size) where
    read-at :
        (size remaining : ℕ) (w : World)
        → Counts remaining (read body size (record { remaining = remaining; world = w }))
    unfolding read
    read-at size remaining w = elim (Bool-cases (remaining == 0)) [
      | inl spent ↦
          subst (λ n. Counts n (read body size (record { remaining = n; world = w })))
            (sym ((==_iff remaining 0).0 spent)) (probed-Counts (body 1 w))
      | inr more ↦ rw more (
          passed-Counts remaining size (body (smaller size remaining) w)
            (contract (smaller size remaining) w))
    ]

    followed-Counts :
        (remaining : ℕ) (bytes : List ℕ) (problem : Option (Problem E)) (after : LimitBody World)
        (rest : Reading (Problem E) × LimitBody World)
        → Counts remaining (record { bytes = bytes; problem = problem }, after)
        → Counts after.remaining rest
        → Counts remaining (followed bytes problem after rest)
    followed-Counts remaining bytes none after (more, last) (a, b) (c, inl fine) =
        (omega (arith, a, c, length-append bytes more.bytes), inl fine)
    followed-Counts remaining bytes none after (more, last) (a, b) (c, inr whole) = (
      omega (arith, a, c, length-append bytes more.bytes),
      inr (omega (arith, a, whole, length-append bytes more.bytes)),
    )
    followed-Counts remaining bytes (some problem) after rest counted r = counted

    -- The bytes that are read of a response and what is left of its limit make up the limit, so no
    -- more is read; that the response is too large is said only once the whole limit was read. This
    -- needs that a read of the body fills no more than its buffer.
    pub read_all-Counts :
        (sizes : List ℕ) (limit : LimitBody World)
        → Counts limit.remaining (read_all body sizes limit)
    unfolding read_all
    read_all-Counts [] limit = (omega arith, inl (λ e. cc e))
    read_all-Counts (size ∷ sizes) limit =
        let first = read body size limit in
        followed-Counts limit.remaining first.0.bytes first.0.problem first.1
          (read_all body sizes first.1) (read-at size limit.remaining limit.world)
          (read_all-Counts sizes first.1)
