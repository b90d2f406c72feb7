-- ===== src/Store/Sent/PrunesAll.antt =====
-- internal/store/store.go: `Prune` from the database's own entries.
use alib_fetcher.Base.{
  ℕ, suc, ◌≡◌, refl, sym, subst, ◌∙◌, Text, List, [], ◌∷◌, Option, none, some, Bool, false, ◌&&◌, ℤ,
  if◌then◌else◌, text_eq, text_eq_iff, arith, inl, inr, Bool-cases, All, length, keep,
}
use alib_fetcher.Store.Record.{
  Value, Error, Result, ok, err, ok-injective, bind-eq-ok, refuse_if, cancelled,
}
use alib_fetcher.Store.Bolt.{
  Bolt, BoltLaws, IsAscending, Context, lookup, update, update-ok, update-err,
}
use alib_fetcher.Store.Entries.{Above, lookup-Above, All-found}
use alib_fetcher.Store.Sent.{prune_entry, prune_entries, prune}
use alib_fetcher.Store.Sent.Prunes.{
  expires, pruned_value, Holds, Kept, prune_entry-get, Holds-after, prune_entries-Kept,
}

All-subst :
    (f g : Text → Option Value) (entries : List (Text × Value))
    → ((j : Text) → f j ≡ g j)
    → All (λ entry. f entry.0 ≡ some entry.1) entries
    → All (λ entry. g entry.0 ≡ some entry.1) entries
All-subst f g [] same h = tt
All-subst f g ((k, v) ∷ rest) same h = (sym (same k) ∙ h.0, All-subst f g rest same h.1)

-- What a key holds behind a row of entries that does not skip any.
abbrev outcome : ℤ → Option Value → Option Value → Option Value
outcome before none old = old
outcome before (some v) old = pruned_value before (some v)

outcome-lookup :
    (before : ℤ) (found old : Option Value)
    → found ≡ old
    → outcome before found old ≡ pruned_value before old
outcome-lookup before none old h = rw (← h)
outcome-lookup before (some v) old h = rw (← h)

module _ {Bucket : Type 0} (bolt : Bolt Bucket) (laws : BoltLaws bolt) where
  entries-Holds : (bucket : Bucket) → Holds bolt laws bucket (bolt.entries bucket)
  entries-Holds bucket =
      All-subst (λ j. lookup j (bolt.entries bucket)) (bolt.get bucket) (bolt.entries bucket)
        (laws.lookup-entries bucket)
        (All-found (bolt.entries bucket) (laws.entries-IsAscending bucket))

  Outcome : Bucket → List (Text × Value) → ℤ → ℕ × Bucket → Type 0
  Outcome bucket entries before (pruned, after) =
      (pruned ≡ length (keep (λ entry. expires before entry.1) entries))
      × ((j : Text) → bolt.get after j ≡ outcome before (lookup j entries) (bolt.get bucket j))

  Outcome-cons :
      (bucket middle after : Bucket) (key : Text) (value : Value) (rest : List (Text × Value))
      (before : ℤ) (deleted : Bool) (n : ℕ)
      → (deleted ≡ expires before value)
        × ((j : Text)
            → bolt.get middle j ≡ (if deleted && text_eq key j then none else bolt.get bucket j))
      → bolt.get bucket key ≡ some value
      → Above key rest
      → Outcome middle rest before (n, after)
      → Outcome bucket ((key, value) ∷ rest) before ((if deleted then suc n else n), after)
  unfolding Outcome keep
  Outcome-cons bucket middle after key value rest before deleted n step held above later = (
    ground (arith, step.0, later.0),
    λ j. elim (Bool-cases (text_eq key j)) [
      | inl hit ↦
          let same : bolt.get bucket j ≡ some value =
            subst (λ k. bolt.get bucket k ≡ some value) ((text_eq_iff key j).0 hit) held in
          ground (arith, later.1 j, step.0, step.1 j, lookup-Above key j rest above hit)
      | inr miss ↦ ground (arith, later.1 j, step.1 j)
    ],
  )

  module _ (steady : (b : Bucket) (k : Text) → bolt.skips_after_delete b k ≡ false) where
    prune_entries-Outcome :
        (ctx : Context) (poll : ℕ) (bucket after : Bucket) (entries : List (Text × Value))
        (before : ℤ) (pruned : ℕ)
        → prune_entries bolt ctx poll bucket false entries before ≡ ok (pruned, after)
        → Holds bolt laws bucket entries
        → IsAscending entries
        → Outcome bucket entries before (pruned, after)
    unfolding prune_entries
    prune_entries-Outcome ctx poll bucket after [] before pruned h held ascending =
        subst (Outcome bucket [] before) (ok-injective h) (unfold Outcome keep in (refl, λ j. refl))
    prune_entries-Outcome ctx poll bucket after ((key, value) ∷ rest) before pruned h held above =
        let (_, _, round) = bind-eq-ok (refuse_if (ctx poll) cancelled) _ h in
        let ((deleted, middle), step, others) =
          bind-eq-ok (prune_entry bolt bucket key value before) _ round in
        let skip : Bool = deleted && bolt.skips_after_delete bucket key in
        let ((n, final), later, done) =
          bind-eq-ok (prune_entries bolt ctx (suc poll) middle skip rest before) _ others in
        let values = prune_entry-get bolt laws bucket middle key value before deleted step in
        let no_skip : skip ≡ false = ground (arith, steady bucket key) in
        let rest_outcome =
          prune_entries-Outcome ctx (suc poll) middle final rest before n
            (subst (λ s. prune_entries bolt ctx (suc poll) middle s rest before ≡ ok (n, final))
              no_skip later)
            (Holds-after bolt laws bucket middle key deleted rest values.1 above.0 held.1)
            above.1 in
        subst (Outcome bucket ((key, value) ∷ rest) before) (ok-injective done) (
          Outcome-cons bucket middle final key value rest before deleted n values held.0 above.0
            rest_outcome)

  -- A successful `Prune` removes no record but expired ones, and changes no other; if moreover the
  -- cursor skips no entry, it removes all of these, and the count is their number. After an error
  -- the database is what it was.
  pub prune-Kept :
      (ctx : Context) (bucket : Bucket) (before : ℤ)
      → ((pruned : ℕ)
          → (prune bolt ctx bucket before).0 ≡ ok pruned
          → ((j : Text)
              → Kept bolt laws before
                  (bolt.get bucket j)
                  (bolt.get (prune bolt ctx bucket before).1 j))
            × (((b : Bucket) (k : Text) → bolt.skips_after_delete b k ≡ false)
                → (pruned ≡ length (keep (λ entry. expires before entry.1) (bolt.entries bucket)))
                  × ((j : Text)
                      → bolt.get (prune bolt ctx bucket before).1 j
                        ≡ pruned_value before (bolt.get bucket j))))
        × ((e : Error)
            → (prune bolt ctx bucket before).0 ≡ err e
            → (prune bolt ctx bucket before).1 ≡ bucket)
  unfolding prune
  prune-Kept ctx bucket before = elim (Bool-cases (ctx 0)) [
    | inl done ↦ rw (done, prune) (λ pruned h. cc h, λ e h. refl)
    | inr live ↦
        let entries = bolt.entries bucket in
        let r : Result (ℕ × Bucket) = prune_entries bolt ctx 1 bucket false entries before in
        let after : Bucket = (update bolt bucket r).1 in
        let held = entries-Holds bucket in
        let ascending = laws.entries-IsAscending bucket in
        rw (live, prune)
          (
            λ pruned h.
                let run = update-ok bolt bucket r pruned h in
                (
                  prune_entries-Kept bolt laws ctx 1 bucket after false entries before pruned run
                      held ascending,
                  λ steady.
                      let all =
                        prune_entries-Outcome steady ctx 1 bucket after entries before pruned run
                          held ascending in
                      unfold Outcome in
                      (
                        all.0,
                        λ j.
                            all.1 j
                            ∙ outcome-lookup before (lookup j entries) (bolt.get bucket j)
                                (laws.lookup-entries bucket j),
                      ),
                ),
            λ e h. update-err bolt bucket r e h,
          )
  ]
