-- ===== src/Store/Migrate/Upgrades.antt =====
-- internal/store/store.go: the database after the migration of old markers.
use alib_fetcher.Base.{
  ◌≡◌, refl, sym, ap, subst, ◌∙◌, ◌++◌, Text, List, [], ◌∷◌, Bool, true, false, not, ℤ, pos,
  if◌then◌else◌, text_eq, arith, All, any, none, some, Option, Bool-cases, inl, inr, text_eq_iff,
}
use alib_fetcher.Store.Record.{
  BookRecord, Value, json, broken, marker, Error, Result, ok, err, decode_record, validate_record,
  bind-eq-ok, ok-injective, is_structured_record,
}
use alib_fetcher.Store.Bolt.{Bolt, BoltLaws, IsAscending, lookup, update, update-ok, update-err}
use alib_fetcher.Store.Entries.{Above, lookup-Above}
use alib_fetcher.Store.Discover.{put_record}
use alib_fetcher.Store.Discover.Step.{put_record-eq_ok}
use alib_fetcher.Store.Migrate.{
  LegacyMigration, bare_book, migrated_record, migrate_entry, migrations_of, put_migrations,
  migrate_legacy_markers, initialize,
}

-- A book of which no more is known than its URL, which counts as sent at this time.
abbrev pub sent_book : Text → ℤ → BookRecord
sent_book url sent_at = record {
  book = record {
    title = [];
    bibliography = [];
    content = [];
    seller = [];
    seller_url = [];
    location = [];
    price = [];
    condition = [];
    buy_url = url;
    photos = [];
    publication_year = pos 0;
  };
  observed_at = sent_at;
  sent_at = sent_at;
  queue_order = 0;
  sent = true;
}

-- What a key holds after the migration.
pub upgraded : Text → ℤ → Option Value → Option Value
upgraded j migrated_at none = none
upgraded j migrated_at (some (json r)) = some (json r)
upgraded j migrated_at (some (broken value)) = some (broken value)
upgraded j migrated_at (some (marker value)) = some (json (sent_book j migrated_at))

-- A key holds nothing, or a record that can be read.
pub Readable : Text → Option Value → Type 0
Readable j none = Unit
Readable j (some value) = (r : BookRecord) × (decode_record j value ≡ ok r)

-- The migrations of a row make the records of their keys.
AreMigrations : ℤ → List LegacyMigration → Type 0
AreMigrations migrated_at =
    All (λ (m : LegacyMigration). m.stored ≡ migrated_record m.key migrated_at)

abbrev migrates : List LegacyMigration → Text → Bool
migrates migrations j = any (λ (m : LegacyMigration). text_eq m.key j) migrations

abbrev is_marker : Option Value → Bool
is_marker none = false
is_marker (some value) = not (is_structured_record value)

record Migrations (migrated_at : ℤ) (entries : List (Text × Value))
    (migrations : List LegacyMigration) : Type 0 where
  stored : AreMigrations migrated_at migrations
  keys : (j : Text) → migrates migrations j ≡ is_marker (lookup j entries)
  readable : (j : Text) → is_marker (lookup j entries) ≡ false → Readable j (lookup j entries)

Migrations-nil : (migrated_at : ℤ) → Migrations migrated_at [] []
unfolding AreMigrations any Readable
Migrations-nil migrated_at = record { stored = tt; keys = λ j. refl; readable = λ j h. tt }

-- A record ahead of a row.
Migrations-readable :
    (migrated_at : ℤ) (key : Text) (value : Value) (r : BookRecord) (rest : List (Text × Value))
    (later : List LegacyMigration)
    → Above key rest
    → is_structured_record value ≡ true
    → decode_record key value ≡ ok r
    → Migrations migrated_at rest later
    → Migrations migrated_at ((key, value) ∷ rest) later
unfolding Readable
Migrations-readable migrated_at key value r rest later above structured decoded m = record {
  stored = m.stored;
  keys = λ j. ground (arith, m.keys j, lookup-Above key j rest above);
  readable = λ j h. elim (Bool-cases (text_eq key j)) [
    | inl hit ↦
        rw hit (subst (λ k. Readable k (some value)) ((text_eq_iff key j).0 hit) (r, decoded))
    | inr miss ↦ rw miss (m.readable j (ground arith))
  ];
}

-- A marker ahead of a row.
Migrations-marker :
    (migrated_at : ℤ) (key : Text) (v : Text) (rest : List (Text × Value))
    (later : List LegacyMigration)
    → Migrations migrated_at rest later
    → Migrations migrated_at
        ((key, marker v) ∷ rest)
        (record { key = key; stored = migrated_record key migrated_at } ∷ later)
unfolding AreMigrations any is_structured_record
Migrations-marker migrated_at key v rest later m = record {
  stored = (refl, m.stored);
  keys = λ j. ground (arith, m.keys j);
  readable = λ j h. elim (Bool-cases (text_eq key j)) [
    | inl hit ↦ ground arith
    | inr miss ↦ rw miss (m.readable j (ground arith))
  ];
}

Migrations-cons :
    (migrated_at : ℤ) (key : Text) (value : Value) (rest : List (Text × Value))
    (own later : List LegacyMigration)
    → Above key rest
    → migrate_entry key value migrated_at ≡ ok own
    → Migrations migrated_at rest later
    → Migrations migrated_at ((key, value) ∷ rest) (own ++ later)
unfolding migrate_entry is_structured_record
Migrations-cons migrated_at key (json r) rest own later above h m =
    let (s, decoded, done) = bind-eq-ok (decode_record key (json r)) _ h in
    subst (λ ms. Migrations migrated_at ((key, json r) ∷ rest) (ms ++ later)) (ok-injective done)
      (Migrations-readable migrated_at key (json r) s rest later above refl decoded m)
Migrations-cons migrated_at key (broken v) rest own later above h m =
    let (s, decoded, done) = bind-eq-ok (decode_record key (broken v)) _ h in
    subst (λ ms. Migrations migrated_at ((key, broken v) ∷ rest) (ms ++ later)) (ok-injective done)
      (Migrations-readable migrated_at key (broken v) s rest later above refl decoded m)
Migrations-cons migrated_at key (marker v) rest own later above h m =
    subst (λ ms. Migrations migrated_at ((key, marker v) ∷ rest) (ms ++ later)) (ok-injective h)
      (Migrations-marker migrated_at key v rest later m)

migrations_of-Migrations :
    (entries : List (Text × Value)) (migrated_at : ℤ) (migrations : List LegacyMigration)
    → IsAscending entries
    → migrations_of entries migrated_at ≡ ok migrations
    → Migrations migrated_at entries migrations
unfolding migrations_of
migrations_of-Migrations [] migrated_at migrations ascending h =
    subst (Migrations migrated_at []) (ok-injective h) (Migrations-nil migrated_at)
migrations_of-Migrations ((key, value) ∷ rest) migrated_at migrations ascending h =
    let (own, here, round) = bind-eq-ok (migrate_entry key value migrated_at) _ h in
    let (later, found, done) = bind-eq-ok (migrations_of rest migrated_at) _ round in
    subst (Migrations migrated_at ((key, value) ∷ rest)) (ok-injective done) (
      Migrations-cons migrated_at key value rest own later ascending.0 here
        (migrations_of-Migrations rest migrated_at later ascending.1 found))

-- What a key holds once the migrations are stored.
abbrev replaced : Text → ℤ → Bool → Option Value → Option Value
replaced j migrated_at found old =
    if found then some (json (migrated_record j migrated_at)) else old

replaced-same : (v : Option Value) (found : Bool) → (if found then v else v) ≡ v
replaced-same v true = refl
replaced-same v false = refl

replaced-upgraded :
    (j : Text) (migrated_at : ℤ) (old : Option Value)
    → (is_marker old ≡ false → Readable j old)
    → (is_marker old ≡ true → Readable j (some (json (migrated_record j migrated_at))))
    → (replaced j migrated_at (is_marker old) old ≡ upgraded j migrated_at old)
      × Readable j (upgraded j migrated_at old)
unfolding upgraded Readable is_structured_record migrated_record bare_book
replaced-upgraded j migrated_at none h k = (refl, tt)
replaced-upgraded j migrated_at (some (json r)) h k = (refl, h refl)
replaced-upgraded j migrated_at (some (broken v)) h k = (refl, h refl)
replaced-upgraded j migrated_at (some (marker v)) h k = (refl, k refl)

module _ {Bucket : Type 0} (bolt : Bolt Bucket) (laws : BoltLaws bolt) where
  put_migrations-get :
      (bucket after : Bucket) (migrations : List LegacyMigration) (migrated_at : ℤ)
      → AreMigrations migrated_at migrations
      → put_migrations bolt bucket migrations ≡ ok after
      → (j : Text)
      → bolt.get after j ≡ replaced j migrated_at (migrates migrations j) (bolt.get bucket j)
  unfolding put_migrations AreMigrations any
  put_migrations-get bucket after [] migrated_at made h j =
      ap (λ b. bolt.get b j) (sym (ok-injective h))
  put_migrations-get bucket after (m ∷ rest) migrated_at made h j =
      let (middle, step, others) = bind-eq-ok (put_record bolt bucket m.key m.stored) _ h in
      let put = put_record-eq_ok bolt laws bucket middle m.key m.stored step in
      let value = laws.get-put bucket middle m.key j (json m.stored) put.1 in
      put_migrations-get middle after rest migrated_at made.1 others j
      ∙ elim (Bool-cases (text_eq m.key j)) [
        | inl hit ↦
            let stored : m.stored ≡ migrated_record j migrated_at =
              made.0 ∙ ap (λ k. migrated_record k migrated_at) ((text_eq_iff m.key j).0 hit) in
            rw (value, hit, stored)
              (replaced-same (some (json (migrated_record j migrated_at))) (migrates rest j))
        | inr miss ↦ rw (value, miss) refl
      ]

  put_record-decodes :
      (bucket after : Bucket) (key : Text) (r : BookRecord)
      → put_record bolt bucket key r ≡ ok after
      → decode_record key (json r) ≡ ok r
  unfolding put_record decode_record
  put_record-decodes bucket after key r h =
      let (_, valid, _) = bind-eq-ok (validate_record key r) _ h in rw valid

  put_migrations-Readable :
      (bucket after : Bucket) (migrations : List LegacyMigration) (migrated_at : ℤ)
      → AreMigrations migrated_at migrations
      → put_migrations bolt bucket migrations ≡ ok after
      → (j : Text) → migrates migrations j ≡ true
      → Readable j (some (json (migrated_record j migrated_at)))
  unfolding put_migrations AreMigrations any Readable
  put_migrations-Readable bucket after [] migrated_at made h j found = cc found
  put_migrations-Readable bucket after (m ∷ rest) migrated_at made h j found =
      let (middle, step, others) = bind-eq-ok (put_record bolt bucket m.key m.stored) _ h in
      let decodes = put_record-decodes bucket middle m.key m.stored step in
      elim (Bool-cases (text_eq m.key j)) [
        | inl hit ↦
            subst (λ k. Readable k (some (json (migrated_record k migrated_at))))
              ((text_eq_iff m.key j).0 hit)
              (subst (λ s. Readable m.key (some (json s))) made.0 (m.stored, decodes))
        | inr miss ↦
            put_migrations-Readable middle after rest migrated_at made.1 others j (ground arith)
      ]

  abbrev IsUpgradedTo : Bucket → ℤ → Unit {0} × Bucket → Type 0
  IsUpgradedTo bucket migrated_at (_, after) =
      (j : Text)
      → (bolt.get after j ≡ upgraded j migrated_at (bolt.get bucket j))
        × Readable j (bolt.get after j)

  put_migrations-IsUpgradedTo :
      (bucket after : Bucket) (migrations : List LegacyMigration) (migrated_at : ℤ)
      → Migrations migrated_at (bolt.entries bucket) migrations
      → put_migrations bolt bucket migrations ≡ ok after
      → IsUpgradedTo bucket migrated_at (tt, after)
  put_migrations-IsUpgradedTo bucket after migrations migrated_at m stored j =
      let same = laws.lookup-entries bucket j in
      let keys : migrates migrations j ≡ is_marker (bolt.get bucket j) =
        m.keys j ∙ ap is_marker same in
      let (value, readable) =
        replaced-upgraded j migrated_at (bolt.get bucket j)
          (λ h. subst (Readable j) same (m.readable j (ap is_marker same ∙ h)))
          (λ h.
            put_migrations-Readable bucket after migrations migrated_at m.stored stored j
              (keys ∙ h)) in
      let holds : bolt.get after j ≡ upgraded j migrated_at (bolt.get bucket j) =
        put_migrations-get bucket after migrations migrated_at m.stored stored j
        ∙ ap (λ found. replaced j migrated_at found (bolt.get bucket j)) keys
        ∙ value in
      (holds, subst (Readable j) (sym holds) readable)

  migrate_legacy_markers-IsUpgradedTo :
      (bucket : Bucket) (migrated_at : ℤ) (result : Unit {0} × Bucket)
      → migrate_legacy_markers bolt bucket migrated_at ≡ ok result
      → IsUpgradedTo bucket migrated_at result
  unfolding migrate_legacy_markers
  migrate_legacy_markers-IsUpgradedTo bucket migrated_at result h =
      let (migrations, found, round) =
        bind-eq-ok (migrations_of (bolt.entries bucket) migrated_at) _ h in
      let (after, stored, done) = bind-eq-ok (put_migrations bolt bucket migrations) _ round in
      subst (IsUpgradedTo bucket migrated_at) (ok-injective done) (
        put_migrations-IsUpgradedTo bucket after migrations migrated_at
          (migrations_of-Migrations (bolt.entries bucket) migrated_at migrations
            (laws.entries-IsAscending bucket) found)
          stored)

  -- After `Open` has opened a database every old marker is the record of a book that was sent at the
  -- time of the migration, every other key holds what it held, and every value can be read. After
  -- an error the database is what it was.
  pub initialize-upgraded :
      (bucket : Bucket) (migrated_at : ℤ)
      → ((initialize bolt bucket migrated_at).0 ≡ ok tt
          → (j : Text)
          → (bolt.get (initialize bolt bucket migrated_at).1 j
              ≡ upgraded j migrated_at (bolt.get bucket j))
            × Readable j (bolt.get (initialize bolt bucket migrated_at).1 j))
        × ((e : Error)
            → (initialize bolt bucket migrated_at).0 ≡ err e
            → (initialize bolt bucket migrated_at).1 ≡ bucket)
  unfolding initialize
  initialize-upgraded bucket migrated_at =
      let r : Result (Unit {0} × Bucket) = migrate_legacy_markers bolt bucket migrated_at in
      (
        λ h.
            migrate_legacy_markers-IsUpgradedTo bucket migrated_at (tt, (update bolt bucket r).1)
              (update-ok bolt bucket r tt h),
        λ e h. update-err bolt bucket r e h,
      )
