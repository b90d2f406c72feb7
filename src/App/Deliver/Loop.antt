-- ===== src/App/Deliver/Loop.antt =====
-- internal/app/service.go: the loop of `renderAndSend` over the chunks.
use alib_fetcher.Base.{
  any-append, text_eq, ℕ, ◌+◌, ◌≤◌, ◌≡◌, refl, sym, ap, subst, ◌∙◌, List, [], ◌∷◌, ◌++◌, Text, ℤ,
  Option, none, some, not, ◌||◌, length, map, arith, length-append, any,
}
use mathlib.Core.List.{append-nil, append_assoc}
use alib_fetcher.Alib.Book.{Book}
use alib_fetcher.Digest.Chunks.{Chunk}
use alib_fetcher.Digest.Chunks.Books.{acknowledged}
use alib_fetcher.App.Ports.{Attempt, failed, done, Dependencies, ServiceError, mark_failed}
use alib_fetcher.App.Deliver.{Delivery, Sending, is_nil, send, after_mark, acknowledge, deliver}
use alib_fetcher.App.Deliver.Acks.{
  any_listing, some-injective, DeliveryLaws, accepted_of, Sends, send-Sends,
}

abbrev content_of : Chunk → Text
content_of chunk = chunk.content

any_listing-append :
    (xs ys : List Book) (j : Text)
    → any_listing (xs ++ ys) j ≡ (any_listing xs j || any_listing ys j)
any_listing-append xs ys j = any-append (λ (book : Book). text_eq book.buy_url j) xs ys

module _ {World Ctx E : Type 0} (deps : Dependencies World Ctx E) (laws : DeliveryLaws deps) where
  -- How far the loop has come: the chunks that are finished, and the message of the next one, if
  -- it went out but its books could not be marked.
  pub record Delivered (w : World) (chunks : List Chunk) (sent : ℕ) (d : Delivery World E)
      : Type 0 where
    pub finished : List Chunk
    pub unmarked : List Chunk
    pub untouched : List Chunk
    pub split : chunks ≡ finished ++ (unmarked ++ untouched)
    pub at_most_one : length unmarked ≤ 1
    pub complete : d.error ≡ none → unmarked ++ untouched ≡ []
    pub counts : d.sent ≡ sent + length (acknowledged finished)
    pub marks :
        (j : Text)
        → laws.is_sent d.world j ≡ (any_listing (acknowledged finished) j || laws.is_sent w j)
    pub messages : laws.accepted d.world ≡ laws.accepted w ++ map content_of (finished ++ unmarked)

  -- The loop stops in front of a chunk whose message is not accepted.
  Delivered-unsent :
      (w w' : World) (chunk : Chunk) (rest : List Chunk) (sent : ℕ) (e : ServiceError E)
      → Sends deps laws w chunk.content (failed e, w')
      → Delivered w (chunk ∷ rest) sent (record { sent = sent; error = some e; world = w' })
  unfolding Sends accepted_of any
  Delivered-unsent w w' chunk rest sent e sends = record {
    finished = [];
    unmarked = [];
    untouched = chunk ∷ rest;
    split = refl;
    at_most_one = omega arith;
    complete = λ h. cc h;
    counts = omega arith;
    marks = sends.sent;
    messages = sends.accepted;
  }

  -- It stops behind a message whose books cannot be marked.
  Delivered-unmarked :
      (w w' w'' : World) (chunk : Chunk) (rest : List Chunk) (sent : ℕ) (e : ServiceError E)
      → Sends deps laws w chunk.content (done tt, w')
      → ((j : Text) → laws.is_sent w'' j ≡ laws.is_sent w' j)
        × (laws.accepted w'' ≡ laws.accepted w')
      → Delivered w (chunk ∷ rest) sent (record { sent = sent; error = some e; world = w'' })
  unfolding Sends accepted_of any
  Delivered-unmarked w w' w'' chunk rest sent e sends keeps = record {
    finished = [];
    unmarked = chunk ∷ [];
    untouched = rest;
    split = refl;
    at_most_one = omega arith;
    complete = λ h. cc h;
    counts = omega arith;
    marks = λ j. keeps.0 j ∙ sends.sent j;
    messages = keeps.1 ∙ sends.accepted;
  }

  Delivered-cons :
      (w w' w'' : World) (chunk : Chunk) (rest : List Chunk) (sent : ℕ) (d : Delivery World E)
      → Sends deps laws w chunk.content (done tt, w')
      → ((j : Text) → laws.is_sent w'' j ≡ (any_listing chunk.books j || laws.is_sent w' j))
        × (laws.accepted w'' ≡ laws.accepted w')
      → Delivered w'' rest (sent + length chunk.books) d
      → Delivered w (chunk ∷ rest) sent d
  unfolding Sends accepted_of
  Delivered-cons w w' w'' chunk rest sent d sends marked r = record {
    finished = chunk ∷ r.finished;
    unmarked = r.unmarked;
    untouched = r.untouched;
    split = ap (λ cs. chunk ∷ cs) r.split;
    at_most_one = r.at_most_one;
    complete = r.complete;
    counts = omega (arith, r.counts, length-append chunk.books (acknowledged r.finished));
    marks = λ j. ground (
      arith,
      r.marks j,
      marked.0 j,
      sends.sent j,
      any_listing-append chunk.books (acknowledged r.finished) j,
    );
    messages =
        r.messages
        ∙ ap (λ texts. texts ++ map content_of (r.finished ++ r.unmarked))
            (marked.1 ∙ sends.accepted)
        ∙ append_assoc (laws.accepted w) (chunk.content ∷ [])
            (map content_of (r.finished ++ r.unmarked));
  }

  Delivered-nil :
      (w : World) (sent : ℕ) → Delivered w [] sent (record { sent = sent; error = none; world = w })
  unfolding any
  Delivered-nil w sent = record {
    finished = [];
    unmarked = [];
    untouched = [];
    split = refl;
    at_most_one = omega arith;
    complete = λ h. refl;
    counts = omega arith;
    marks = λ j. refl;
    messages = sym (append-nil (laws.accepted w));
  }

  -- The loop goes on behind the chunk in some world with some count.
  Continues : List Chunk → (ℕ → World → Option (Delivery World E)) → Delivery World E → Type 0
  Continues rest continue d =
      (sent : ℕ) (w : World) → continue sent w ≡ some d → Delivered w rest sent d

  after_mark-Delivered :
      (ctx : Ctx) (t : ℤ) (w w' : World) (chunk : Chunk) (rest : List Chunk) (sent : ℕ)
      (marked : Attempt E (Unit {0}) × World) (continue : ℕ → World → Option (Delivery World E))
      (d : Delivery World E)
      → Sends deps laws w chunk.content (done tt, w')
      → deps.mark_sent ctx chunk.books t w' ≡ marked
      → Continues rest continue d
      → after_mark deps sent chunk.books marked continue ≡ some d
      → Delivered w (chunk ∷ rest) sent d
  unfolding after_mark Continues
  after_mark-Delivered ctx t w w' chunk rest sent (failed e, w'') continue d sends marking more h =
      subst (Delivered w (chunk ∷ rest) sent) (some-injective h) (
        Delivered-unmarked w w' w'' chunk rest sent (mark_failed e) sends
          (laws.mark_failed ctx chunk.books t w' w'' e marking))
  after_mark-Delivered ctx t w w' chunk rest sent (done u, w'') continue d sends marking more h =
      Delivered-cons w w' w'' chunk rest sent d sends
        (laws.mark_done ctx chunk.books t w' w'' marking) (more (sent + length chunk.books) w'' h)

  acknowledge-Delivered :
      (ctx : Ctx) (t : ℤ) (w : World) (content : Text) (books : List Book) (rest : List Chunk)
      (sent : ℕ) (sending : Sending deps) (continue : ℕ → World → Option (Delivery World E))
      (d : Delivery World E)
      → ((result : Attempt (ServiceError E) (Unit {0}) × World)
          → sending ≡ some result
          → Sends deps laws w content result)
      → Continues rest continue d
      → acknowledge deps ctx t sent books sending continue ≡ some d
      → Delivered w (record { content = content; books = books } ∷ rest) sent d
  unfolding acknowledge Continues any
  acknowledge-Delivered ctx t w content books rest sent none continue d sends more h = cc h
  acknowledge-Delivered ctx t w content books rest sent (some (failed e, w')) continue d sends more
        h =
      subst (Delivered w (record { content = content; books = books } ∷ rest) sent)
        (some-injective h)
        (Delivered-unsent w w' (record { content = content; books = books }) rest sent e
          (sends (failed e, w') refl))
  acknowledge-Delivered ctx t w content [] rest sent (some (done u, w')) continue d sends more h =
      Delivered-cons w w' w' (record { content = content; books = [] }) rest sent d
        (sends (done tt, w') refl) (λ j. refl, refl)
        (more (sent + 0) w' (subst (λ n. continue n w' ≡ some d) (omega arith) h))
  acknowledge-Delivered ctx t w content (book ∷ books) rest sent (some (done u, w')) continue d
        sends more h =
      after_mark-Delivered (deps.without_cancel ctx) t w w'
        (record { content = content; books = book ∷ books }) rest sent
        (deps.mark_sent (deps.without_cancel ctx) (book ∷ books) t w') continue d
        (sends (done tt, w') refl) refl more h

  -- The loop over the chunks: the chunks that it finishes come first; exactly their books are
  -- marked as sent, and counted; exactly their messages are accepted, and at most one more, behind
  -- which the marking failed. Unless it ends in an error it finishes all chunks.
  pub deliver-Delivered :
      (fuel : ℕ) (ctx : Ctx) (cycle_time : ℤ) (chunks : List Chunk) (sent : ℕ) (w : World)
      (d : Delivery World E)
      → deliver deps fuel ctx cycle_time chunks sent w ≡ some d
      → Delivered w chunks sent d
  unfolding deliver Continues
  deliver-Delivered fuel ctx cycle_time [] sent w d h =
      subst (Delivered w [] sent) (some-injective h) (Delivered-nil w sent)
  deliver-Delivered fuel ctx cycle_time (chunk ∷ rest) sent w d h =
      acknowledge-Delivered ctx cycle_time w chunk.content chunk.books rest sent
        (send deps fuel ctx chunk.content (not (is_nil rest)) (is_nil rest) w)
        (deliver deps fuel ctx cycle_time rest) d
        (send-Sends deps laws fuel ctx chunk.content (not (is_nil rest)) (is_nil rest) w)
        (λ n w'. deliver-Delivered fuel ctx cycle_time rest n w' d) h
