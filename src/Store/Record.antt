-- ===== src/Store/Record.antt =====
-- internal/store/store.go: the stored records, their validation and their times.
use alib_fetcher.Base.{ℕ, ◌≡◌, refl, Text, ℤ, Bool, true, false, not, is_empty, text_eq}
use alib_fetcher.Alib.Book.{Book}

-- Times are `UnixNano` values, which `encodeRecordTime` and `decodeRecordTime` pass on.
pub record BookRecord : Type 0 where
  pub book : Book
  pub observed_at : ℤ
  pub sent_at : ℤ
  pub queue_order : ℕ
  pub sent : Bool

-- What the program finds out about a stored value: a JSON object that decodes to a record, another
-- value whose first visible byte is a brace, or an old marker.
pub data Value : Type 0 where
  json : BookRecord → Value
  broken : Text → Value
  marker : Text → Value

pub data Error : Type 0 where
  cancelled commit_failed bolt_failed limit_not_positive : Error
  undecodable missing_buy_url key_mismatch missing_record : Text → Error

pub data Result {ℓ} (A : Type ℓ) : Type ℓ where
  err : Error → Result A
  ok : A → Result A

infixl 10 ◌>>=◌ ◌>>◌
abbrev pub ◌>>=◌ {ℓ κ} : {A : Type ℓ} {B : Type κ} → Result A → (A → Result B) → Result B
err problem >>= next = err problem
ok value >>= next = next value

abbrev pub ◌>>◌ {ℓ κ} : {A : Type ℓ} {B : Type κ} → Result A → Result B → Result B
first >> next = first >>= λ ignored. next

-- `if … { return err }`
abbrev pub refuse_if : Bool → Error → Result (Unit {0})
refuse_if false problem = ok tt
refuse_if true problem = err problem

unfoldable pub is_structured_record : Value → Bool
is_structured_record (json r) = true
is_structured_record (broken value) = true
is_structured_record (marker value) = false

unfoldable pub validate_record : Text → BookRecord → Result (Unit {0})
validate_record key r = do
  refuse_if (is_empty r.book.buy_url) (missing_buy_url key)
  refuse_if (not (text_eq r.book.buy_url key)) (key_mismatch key)

unfoldable pub decode_record : Text → Value → Result BookRecord
unfolding validate_record
decode_record key (json r) = do validate_record key r; ok r
decode_record key (broken value) = err (undecodable key)
decode_record key (marker value) = err (undecodable key)

-- Inversion of a chain that succeeds.
pub bind-eq-ok {ℓ κ} :
    {A : Type ℓ} {B : Type κ} (first : Result A) (next : A → Result B) {result : B}
    → (first >>= next) ≡ ok result
    → (value : A) × (first ≡ ok value) × (next value ≡ ok result)
bind-eq-ok (err problem) next h = cc h
bind-eq-ok (ok value) next h = (value, refl, h)

pub ok-injective {ℓ} : {A : Type ℓ} {x y : A} → ok x ≡ ok y → x ≡ y
ok-injective e = cc e
