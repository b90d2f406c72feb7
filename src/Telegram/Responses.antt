-- ===== src/Telegram/Responses.antt =====
-- internal/telegram/sender.go: the limit on the size of a response, `responseLimitBody`. The body
-- below is a parameter: what a read returns for a buffer of a size.
pub mod Limited
use alib_fetcher.Base.{
  ℕ, zero, suc, ◌+◌, ◌-◌, ◌*◌, ◌≤◌, List, [], ◌∷◌, ◌++◌, Option, none, some, Bool, true, false, ltb,
  leb, ◌==◌, if◌then◌else◌, length,
}

abbrev pub max_api_response_bytes : ℕ
max_api_response_bytes = 1048576

-- The end of the body, another error below, and those that this reader makes.
pub data ReadProblem (E : Type 0) : Type 0 where
  end_of_file : ReadProblem E
  failure : E → ReadProblem E

pub data Problem (E : Type 0) : Type 0 where
  end_of_body : Problem E
  request_failed : E → Problem E
  response_too_large : Problem E

pub record Reading (P : Type 0) : Type 0 where
  pub bytes : List ℕ
  pub problem : Option P

-- `wrapResponseReadError`
abbrev pub wrap_response_read_error : {E : Type 0} → Option (ReadProblem E) → Option (Problem E)
wrap_response_read_error none = none
wrap_response_read_error (some end_of_file) = some end_of_body
wrap_response_read_error (some (failure e)) = some (request_failed e)

abbrev pub smaller : ℕ → ℕ → ℕ
smaller a b = if ltb b a then b else a

module _ (World E : Type 0) where
  -- A reader returns no more than the buffer holds.
  abbrev pub Body : Type 0
  Body = ℕ → World → Reading (ReadProblem E) × World

pub record LimitBody (World : Type 0) : Type 0 where
  pub remaining : ℕ
  pub world : World

module _ {World E : Type 0} where
  abbrev pub probed : ℕ → Reading (ReadProblem E) × World → Reading (Problem E) × LimitBody World
  probed remaining (r, w) = (
    record {
      bytes = [];
      problem =
          if ltb 0 (length r.bytes)
          then some response_too_large
          else wrap_response_read_error r.problem;
    },
    record { remaining = remaining; world = w },
  )

  abbrev pub passed : ℕ → Reading (ReadProblem E) × World → Reading (Problem E) × LimitBody World
  passed remaining (r, w) = (
    record { bytes = r.bytes; problem = wrap_response_read_error r.problem },
    record { remaining = remaining - length r.bytes; world = w },
  )

  unfoldable pub read : Body World E → ℕ → LimitBody World → Reading (Problem E) × LimitBody World
  read body size limit =
      if limit.remaining == 0
      then probed limit.remaining (body 1 limit.world)
      else passed limit.remaining (body (smaller size limit.remaining) limit.world)

  -- The reads go on up to the first error.
  abbrev pub followed :
      List ℕ
      → Option (Problem E)
      → LimitBody World
      → Reading (Problem E) × LimitBody World
      → Reading (Problem E) × LimitBody World
  followed bytes none after (more, last) =
      (record { bytes = bytes ++ more.bytes; problem = more.problem }, last)
  followed bytes (some problem) after rest =
      (record { bytes = bytes; problem = some problem }, after)

  -- Reads with buffers of these sizes.
  unfoldable pub read_all :
      Body World E → List ℕ → LimitBody World → Reading (Problem E) × LimitBody World
  read_all body [] limit = (record { bytes = []; problem = none }, limit)
  read_all body (size ∷ sizes) limit =
      let (r, after) = read body size limit in
      followed r.bytes r.problem after (read_all body sizes after)
