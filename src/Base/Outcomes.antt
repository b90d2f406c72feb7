-- ===== src/Base/Outcomes.antt =====
-- The result of Go code that returns a value and an error: one or the other.
use mathlib.Core.Path.{◌≡◌, refl}
use mathlib.Core.Bool.{Bool, true, false}

pub data Outcome (E : Type 0) (A : Type 0) : Type 0 where
  done : A → Outcome E A
  refused : E → Outcome E A

module _ {E A B : Type 0} where
  infixl 5 ◌>>=◌
  abbrev pub ◌>>=◌ : Outcome E A → (A → Outcome E B) → Outcome E B
  done a >>= f = f a
  refused e >>= f = refused e

  pub >>=-eq-done :
      (m : Outcome E A) (f : A → Outcome E B) {b : B}
      → (m >>= f) ≡ done b
      → (a : A) × (m ≡ done a) × (f a ≡ done b)
  >>=-eq-done (done a) f h = (a, refl, h)
  >>=-eq-done (refused e) f h = cc h

module _ {E A : Type 0} where
  infixl 5 ◌>>◌
  abbrev pub ◌>>◌ : Outcome E (Unit {0}) → Outcome E A → Outcome E A
  m >> k = m >>= λ _. k

-- `if !test { return err }`
abbrev pub require : {E : Type 0} → Bool → E → Outcome E (Unit {0})
require true e = done tt
require false e = refused e

pub require-eq-done :
    {E A : Type 0} (test : Bool) (e : E) (k : Outcome E A) {a : A}
    → (require test e >> k) ≡ done a
    → (test ≡ true) × (k ≡ done a)
require-eq-done true e k h = (refl, h)
require-eq-done false e k h = cc h

pub done-injective : {E A : Type 0} {a b : A} → ◌≡◌ {A = Outcome E A} (done a) (done b) → a ≡ b
done-injective h = cc h
