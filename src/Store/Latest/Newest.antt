-- ===== src/Store/Latest/Newest.antt =====
-- internal/store/store.go: which records `DeleteLatest` removes.
use alib_fetcher.Base.{
  ℕ, suc, zero, ◌<◌, ◌<ℤ◌, ◌⊎◌, ◌≡◌, refl, sym, ap, subst, ◌+◌, ◌++◌, Text, List, [], ◌∷◌, Bool,
  true, false, ℤ, pos, negsuc, pos_part, ◌≤ℤ◌, if◌then◌else◌, ltb, ◌==◌, eqb_ℤ, text_lt, text_eq,
  sort_stable, arith, All, any, none, some, Option, length, take, drop, All-drop, All-trivial,
  text_lt_negative_trans, text_lt_asym, IsOrder, IsSortedBy, sort_stable-perm,
  sort_stable-IsSortedBy, Perm, Bool-cases, inl, inr,
}
use alib_fetcher.Store.Record.{
  BookRecord, Value, json, broken, marker, Error, Result, ok, err, cancelled, limit_not_positive,
  refuse_if, decode_record, validate_record, bind-eq-ok, ok-injective,
}
use alib_fetcher.Store.Bolt.{Bolt, BoltLaws, Context, or_bolt_failed, update, update-ok, update-err}
use alib_fetcher.Store.Latest.{
  LatestRecord, as_latest, latest_records, latest_record_is_newer, delete_records,
  delete_latest_records, delete_latest_in, delete_latest,
}

-- What `latestRecords` finds in a row of entries.
pub found_records : List (Text × Value) → List LatestRecord
found_records [] = []
found_records ((key, json r) ∷ rest) = as_latest key r ∷ found_records rest
found_records ((key, broken value) ∷ rest) = found_records rest
found_records ((key, marker value) ∷ rest) = found_records rest

newer-IsOrder : IsOrder latest_record_is_newer (λ (r : LatestRecord). Unit {0})
unfolding latest_record_is_newer
newer-IsOrder = record {
  asym = λ x y p q h. ground (arith, text_lt_asym y.key x.key);
  negative_trans = λ x y z p q r h k. ground (arith, text_lt_negative_trans z.key y.key x.key);
}

latest_records-found :
    (ctx : Context) (poll : ℕ) (entries : List (Text × Value)) (records : List LatestRecord)
    → latest_records ctx poll entries ≡ ok records
    → found_records entries ≡ records
unfolding latest_records found_records decode_record validate_record
latest_records-found ctx poll [] records h = ok-injective h
latest_records-found ctx poll ((key, json r) ∷ rest) records h =
    let (_, _, round) = bind-eq-ok (refuse_if (ctx poll) cancelled) _ h in
    let (s, decoded, others) = bind-eq-ok (decode_record key (json r)) _ round in
    let (later, found, done) = bind-eq-ok (latest_records ctx (suc poll) rest) _ others in
    let same : s ≡ r = ground arith in
    rw (latest_records-found ctx (suc poll) rest later found)
      (subst (λ (z : BookRecord). as_latest key z ∷ later ≡ records) same (ok-injective done))
latest_records-found ctx poll ((key, broken value) ∷ rest) records h = ground arith
latest_records-found ctx poll ((key, marker value) ∷ rest) records h = ground arith

abbrev pub has_key : Text → LatestRecord → Bool
has_key j r = text_eq r.key j

take-length :
    (records : List LatestRecord) (limit : ℕ)
    → ltb (length records) limit ≡ true
    → take (length records) records ≡ take limit records
take-length [] zero h = refl
take-length [] (suc limit) h = refl
take-length (r ∷ rest) zero h = ground arith
take-length (r ∷ rest) (suc limit) h = ap (λ rs. r ∷ rs) (take-length rest limit (ground arith))

take-drop :
    (records : List LatestRecord) (limit : ℕ) → take limit records ++ drop limit records ≡ records
take-drop records zero = refl
take-drop [] (suc limit) = refl
take-drop (r ∷ rest) (suc limit) = ap (λ rs. r ∷ rs) (take-drop rest limit)

take-bounded :
    (records : List LatestRecord) (limit : ℕ)
    → take (if ltb (length records) limit then length records else limit) records
      ≡ take limit records
take-bounded records limit = elim (Bool-cases (ltb (length records) limit)) [
  | inl less ↦ rw less (take-length records limit less)
  | inr more ↦ rw more
]

-- No record that is left is newer than one of the first.
IsSortedBy-take :
    (less : LatestRecord → LatestRecord → Bool) (records : List LatestRecord) (limit : ℕ)
    → IsSortedBy less records
    → All (λ x. All (λ y. less y x ≡ false) (drop limit records)) (take limit records)
IsSortedBy-take less records zero s = tt
IsSortedBy-take less [] (suc limit) s = tt
IsSortedBy-take less (x ∷ rest) (suc limit) s =
    (All-drop (λ y. less y x ≡ false) rest limit s.0, IsSortedBy-take less rest limit s.1)

length-take :
    (records : List LatestRecord) (limit : ℕ)
    → length (take limit records) ≡ (if ltb (length records) limit then length records else limit)
length-take records zero = ground arith
length-take [] (suc limit) = ground arith
length-take (r ∷ rest) (suc limit) = ground (arith, length-take rest limit)

-- The order of age: a greater place in the queue is newer, and any place than none, which is zero;
-- then a later time, and last a greater key. This one is at most as new as the other.
pub IsAtMostAsNew : LatestRecord → LatestRecord → Type 0
IsAtMostAsNew r s =
    (r.queue_order < s.queue_order)
    ⊎ ((r.queue_order ≡ s.queue_order)
        × ((r.observed_at <ℤ s.observed_at)
            ⊎ ((r.observed_at ≡ s.observed_at) × (text_lt s.key r.key ≡ false))))

not_newer-IsAtMostAsNew :
    (r s : LatestRecord) → latest_record_is_newer r s ≡ false → IsAtMostAsNew r s
unfolding latest_record_is_newer IsAtMostAsNew
not_newer-IsAtMostAsNew r s h = elim (Bool-cases (r.queue_order == s.queue_order)) [
  | inr other ↦ inl (ground (arith, h, other))
  | inl same ↦ elim (Bool-cases (eqb_ℤ r.observed_at s.observed_at)) [
    | inr later ↦ inr (ground (arith, same), inl (ground (arith, h, same, later)))
    | inl at_once ↦
        inr (ground (arith, same), inr (ground (arith, at_once), ground (arith, h, same, at_once)))
  ]
]

All-not_newer :
    (x : LatestRecord) (left : List LatestRecord)
    → All (λ y. latest_record_is_newer y x ≡ false) left
    → All (λ y. IsAtMostAsNew y x) left
All-not_newer x [] h = tt
All-not_newer x (y ∷ left) h = (not_newer-IsAtMostAsNew y x h.0, All-not_newer x left h.1)

All_All-not_newer :
    (removed left : List LatestRecord)
    → All (λ x. All (λ y. latest_record_is_newer y x ≡ false) left) removed
    → All (λ x. All (λ y. IsAtMostAsNew y x) left) removed
All_All-not_newer [] left h = tt
All_All-not_newer (x ∷ removed) left h =
    (All-not_newer x left h.0, All_All-not_newer removed left h.1)

-- A split of the records: those that are removed, none of which is older than one that is left.
pub record Removal (records : List LatestRecord) (limit : ℕ) : Type 0 where
  pub removed : List LatestRecord
  pub left : List LatestRecord
  pub same_records : Perm (removed ++ left) records
  pub counts :
      length removed
      ≡ (if ltb (length (removed ++ left)) limit then length (removed ++ left) else limit)
  pub newest : All (λ x. All (λ y. IsAtMostAsNew y x) left) removed

sort-Removal : (records : List LatestRecord) (limit : ℕ) → Removal records limit
sort-Removal records limit =
    let row = sort_stable latest_record_is_newer records in
    let whole = take-drop row limit in
    record {
      removed = take limit row;
      left = drop limit row;
      same_records = rw whole (sort_stable-perm latest_record_is_newer records);
      counts = rw whole (length-take row limit);
      newest = All_All-not_newer (take limit row) (drop limit row) (
          IsSortedBy-take latest_record_is_newer row limit (
            sort_stable-IsSortedBy latest_record_is_newer (λ r. Unit {0}) newer-IsOrder records
              (All-trivial records)));
    }

module _ {Bucket : Type 0} (bolt : Bolt Bucket) (laws : BoltLaws bolt) where
  -- What is left of the database without the removed records.
  pub Deleted : Bucket → List LatestRecord → ℕ × Bucket → Type 0
  Deleted bucket removed (deleted, after) =
      (deleted ≡ length removed)
      × ((j : Text)
          → bolt.get after j ≡ (if any (has_key j) removed then none else bolt.get bucket j))

  or_bolt_failed-eq_ok :
      (found : Option Bucket) (after : Bucket)
      → or_bolt_failed found ≡ ok after
      → found ≡ some after
  or_bolt_failed-eq_ok none after h = cc h
  or_bolt_failed-eq_ok (some b) after h = ap some (ok-injective h)

  delete_records-Deleted :
      (ctx : Context) (poll : ℕ) (bucket after : Bucket) (removed : List LatestRecord) (deleted : ℕ)
      → delete_records bolt ctx poll bucket removed ≡ ok (deleted, after)
      → Deleted bucket removed (deleted, after)
  unfolding delete_records Deleted any
  delete_records-Deleted ctx poll bucket after [] deleted h =
      subst (Deleted bucket []) (ok-injective h) (refl, λ j. refl)
  delete_records-Deleted ctx poll bucket after (r ∷ rest) deleted h =
      let (_, _, round) = bind-eq-ok (refuse_if (ctx poll) cancelled) _ h in
      let (middle, step, others) = bind-eq-ok (or_bolt_failed (bolt.delete bucket r.key)) _ round in
      let ((n, final), later, done) =
        bind-eq-ok (delete_records bolt ctx (suc poll) middle rest) _ others in
      let more = delete_records-Deleted ctx (suc poll) middle final rest n later in
      let values : (j : Text)
          → bolt.get middle j ≡ (if text_eq r.key j then none else bolt.get bucket j) =
        λ j.
          laws.get-delete bucket middle r.key j
            (or_bolt_failed-eq_ok (bolt.delete bucket r.key) middle step) in
      subst (Deleted bucket (r ∷ rest)) (ok-injective done)
        (ap suc more.0, λ j. ground (arith, more.1 j, values j))

  delete_latest_in-Deleted :
      (ctx : Context) (bucket after : Bucket) (limit deleted : ℕ)
      → delete_latest_in bolt ctx bucket limit ≡ ok (deleted, after)
      → (removal : Removal (found_records (bolt.entries bucket)) limit) × Deleted bucket
          removal.removed
          (deleted, after)
  unfolding delete_latest_in delete_latest_records sort-Removal
  delete_latest_in-Deleted ctx bucket after limit deleted h =
      let (_, _, round) = bind-eq-ok (refuse_if (ctx 1) cancelled) _ h in
      let (records, found, run) = bind-eq-ok (latest_records ctx 2 (bolt.entries bucket)) _ round in
      let row = sort_stable latest_record_is_newer records in
      let bounded : ℕ = if ltb (length row) limit then length row else limit in
      let poll : ℕ = 2 + length records in
      subst (λ rs. (removal : Removal rs limit) × Deleted bucket removal.removed (deleted, after))
        (sym (latest_records-found ctx 2 (bolt.entries bucket) records found))
        (
          sort-Removal records limit,
          subst (λ rs. Deleted bucket rs (deleted, after)) (take-bounded row limit)
              (delete_records-Deleted ctx poll bucket after (take bounded row) deleted run),
        )

  -- A successful `DeleteLatest` removes the given number of records, or all if there are fewer, and
  -- no record that it leaves is newer than one that it removes; no other key changes, and the count
  -- is the number of the removed records. After an error the database is what it was, and a limit
  -- that is not positive is an error.
  pub delete_latest-Deleted :
      (ctx : Context) (bucket : Bucket) (limit : ℤ)
      → ((deleted : ℕ)
          → (delete_latest bolt ctx bucket limit).0 ≡ ok deleted
          → (removal : Removal (found_records (bolt.entries bucket)) (pos_part limit)) × Deleted
              bucket removal.removed
              (deleted, (delete_latest bolt ctx bucket limit).1))
        × ((e : Error)
            → (delete_latest bolt ctx bucket limit).0 ≡ err e
            → (delete_latest bolt ctx bucket limit).1 ≡ bucket)
        × (limit ≤ℤ pos 0 → (e : Error) × ((delete_latest bolt ctx bucket limit).0 ≡ err e))
  unfolding delete_latest
  delete_latest-Deleted ctx bucket (negsuc n) = elim (Bool-cases (ctx 0)) [
    | inl done ↦ rw (done, delete_latest) (λ deleted h. cc h, λ e h. refl, λ h. (cancelled, refl))
    | inr live ↦
        rw (live, delete_latest) (λ deleted h. cc h, λ e h. refl, λ h. (limit_not_positive, refl))
  ]
  delete_latest-Deleted ctx bucket (pos limit) = elim (Bool-cases (ctx 0)) [
    | inl done ↦ rw (done, delete_latest) (λ deleted h. cc h, λ e h. refl, λ h. (cancelled, refl))
    | inr live ↦ elim (Bool-cases (limit == 0)) [
      | inl zero_limit ↦
          rw (live, zero_limit, delete_latest)
            (λ deleted h. cc h, λ e h. refl, λ h. (limit_not_positive, refl))
      | inr positive ↦
          let r : Result (ℕ × Bucket) = delete_latest_in bolt ctx bucket limit in
          rw (live, positive, delete_latest)
            (
              λ deleted h.
                  delete_latest_in-Deleted ctx bucket (update bolt bucket r).1 limit deleted
                    (update-ok bolt bucket r deleted h),
              λ e h. update-err bolt bucket r e h,
              λ h. ground (arith, positive, h),
            )
    ]
  ]
