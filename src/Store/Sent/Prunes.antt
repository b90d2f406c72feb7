-- ===== src/Store/Sent/Prunes.antt =====
-- internal/store/store.go: what `Prune` deletes.
use alib_fetcher.Base.{
  ℕ, suc, ◌≡◌, ◌≢◌, sym, ap, subst, ◌∙◌, Text, List, [], ◌∷◌, Option, none, some, Bool, true, false,
  ◌&&◌, ℤ, pos, ◌<ℤ◌, if◌then◌else◌, text_eq, text_lt, text_eq_iff, text_eq-eq_false, arith, ◌⊎◌,
  inl, inr, Bool-cases, All,
}
use alib_fetcher.Store.Record.{
  Value, json, broken, marker, ok, ok-injective, bind-eq-ok, refuse_if, cancelled, decode_record,
  validate_record,
}
use alib_fetcher.Store.Bolt.{Bolt, BoltLaws, IsAscending, Context}
use alib_fetcher.Store.Sent.{is_expired, prune_entry, prune_entries}

-- A record that was sent, at a known time, before the cutoff.
abbrev pub IsExpired : ℤ → Option Value → Type 0
IsExpired before (some (json r)) = (r.sent ≡ true) × (r.sent_at ≢ pos 0) × (r.sent_at <ℤ before)
IsExpired before _ = ⊥

abbrev pub expires : ℤ → Value → Bool
expires before (json r) = is_expired before r
expires before (broken v) = false
expires before (marker v) = false

-- What the key of a visited value holds when it is through.
abbrev pub pruned_value : ℤ → Option Value → Option Value
pruned_value before none = none
pruned_value before (some v) = if expires before v then none else some v

module _ {Bucket : Type 0} (bolt : Bolt Bucket) (laws : BoltLaws bolt) where
  -- A row of entries that the bucket still holds as they are.
  abbrev pub Holds : Bucket → List (Text × Value) → Type 0
  Holds bucket = All (λ entry. bolt.get bucket entry.0 ≡ some entry.1)

  pub prune_entry-get :
      (bucket after : Bucket) (key : Text) (value : Value) (before : ℤ) (deleted : Bool)
      → prune_entry bolt bucket key value before ≡ ok (deleted, after)
      → (deleted ≡ expires before value)
        × ((j : Text)
            → bolt.get after j ≡ (if deleted && text_eq key j then none else bolt.get bucket j))
  unfolding prune_entry decode_record validate_record
  prune_entry-get bucket after key value before deleted h =
      (ground arith, λ j. ground (arith, laws.get-delete bucket after key j))

  pub Holds-after :
      (bucket after : Bucket) (key : Text) (deleted : Bool) (rest : List (Text × Value))
      → ((j : Text)
          → bolt.get after j ≡ (if deleted && text_eq key j then none else bolt.get bucket j))
      → All (λ entry. text_lt key entry.0 ≡ true) rest
      → Holds bucket rest
      → Holds after rest
  Holds-after bucket after key deleted [] same above held = tt
  Holds-after bucket after key deleted ((k, v) ∷ rest) same above held = (
    ground (arith, same k, text_eq-eq_false key k above.0),
    Holds-after bucket after key deleted rest same above.1 held.1,
  )

  -- A key keeps what it holds, or it held an expired record and is gone.
  abbrev pub Kept : ℤ → Option Value → Option Value → Type 0
  Kept before old new = (new ≡ old) ⊎ ((new ≡ none) × IsExpired before old)

  expires→IsExpired : (before : ℤ) (v : Value) → expires before v ≡ true → IsExpired before (some v)
  unfolding is_expired
  expires→IsExpired before (json r) h = ground arith
  expires→IsExpired before (broken v) h = cc
  expires→IsExpired before (marker v) h = cc

  Kept-trans :
      (before : ℤ) (a b c : Option Value) → Kept before a b → Kept before b c → Kept before a c
  Kept-trans before a b c (inl p) q = subst (λ o. Kept before o c) p q
  Kept-trans before a b c (inr (p, e)) (inl q) = inr (q ∙ p, e)
  Kept-trans before a b c (inr (p, e)) (inr (q, f)) = inr (q, e)

  step-Kept :
      (bucket after : Bucket) (key : Text) (value : Value) (before : ℤ) (deleted : Bool)
      → prune_entry bolt bucket key value before ≡ ok (deleted, after)
      → bolt.get bucket key ≡ some value
      → (j : Text) → Kept before (bolt.get bucket j) (bolt.get after j)
  step-Kept bucket after key value before deleted h held j =
      let (is_deleted, values) = prune_entry-get bucket after key value before deleted h in
      elim (Bool-cases (deleted && text_eq key j)) [
        | inr other ↦ inl (values j ∙ rw other)
        | inl hit ↦
            let same : key ≡ j = (text_eq_iff key j).0 (ground arith) in
            inr (
              values j ∙ rw hit,
              subst (λ k. IsExpired before (bolt.get bucket k)) same
                  (subst (IsExpired before) (sym held)
                    (expires→IsExpired before value (ground arith))),
            )
      ]

  pub prune_entries-Kept :
      (ctx : Context) (poll : ℕ) (bucket after : Bucket) (skip : Bool)
      (entries : List (Text × Value)) (before : ℤ) (pruned : ℕ)
      → prune_entries bolt ctx poll bucket skip entries before ≡ ok (pruned, after)
      → Holds bucket entries
      → IsAscending entries
      → (j : Text) → Kept before (bolt.get bucket j) (bolt.get after j)
  unfolding prune_entries
  prune_entries-Kept ctx poll bucket after skip [] before pruned h held ascending j =
      inl (ap (λ (r : ℕ × Bucket). bolt.get r.1 j) (sym (ok-injective h)))
  prune_entries-Kept ctx poll bucket after true (entry ∷ rest) before pruned h held ascending j =
      prune_entries-Kept ctx poll bucket after false rest before pruned h held.1 ascending.1 j
  prune_entries-Kept ctx poll bucket after false ((key, value) ∷ rest) before pruned h held above
        j =
      let (_, _, round) = bind-eq-ok (refuse_if (ctx poll) cancelled) _ h in
      let ((deleted, middle), step, others) =
        bind-eq-ok (prune_entry bolt bucket key value before) _ round in
      let ((n, final), later, done) =
        bind-eq-ok
          (prune_entries bolt ctx (suc poll) middle (deleted && bolt.skips_after_delete bucket key)
            rest before)
          _ others in
      let values = (prune_entry-get bucket middle key value before deleted step).1 in
      subst (λ (r : ℕ × Bucket). Kept before (bolt.get bucket j) (bolt.get r.1 j))
        (ok-injective done)
        (Kept-trans before (bolt.get bucket j) (bolt.get middle j) (bolt.get final j)
          (step-Kept bucket middle key value before deleted step held.0 j)
          (prune_entries-Kept ctx (suc poll) middle final
            (deleted && bolt.skips_after_delete bucket key) rest before n later
            (Holds-after bucket middle key deleted rest values above.0 held.1) above.1 j))
