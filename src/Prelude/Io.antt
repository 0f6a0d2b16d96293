-- ===== src/Prelude/Io.antt =====
-- Calls that work on a state and can fail, and then leave the state changed too.
use mathlib.Core.Path.{◌≡◌, refl}
use raknet_shim.Prelude.Defs.{Outcome, ok, err, panic, stuck}

abbrev pub Io : Type 0 → Type 0 → Type 0
Io O A = O → Outcome A × O

module _ {O A : Type 0} where
  abbrev pub pure : A → Io O A
  pure a o = (ok a, o)

  -- A value that was computed without the state.
  abbrev pub lift : Outcome A → Io O A
  lift r o = (r, o)

infixl 5 ◌>>=◌
module _ {O A B : Type 0} where
  abbrev pub after : Outcome A → O → (A → Io O B) → Outcome B × O
  after (ok a) o f = f a o
  after (err e) o f = (err e, o)
  after panic o f = (panic, o)
  after stuck o f = (stuck, o)

  abbrev pub ◌>>=◌ : Io O A → (A → Io O B) → Io O B
  ◌>>=◌ m f o = after (m o).0 (m o).1 f

module _ {O A B : Type 0} where
  -- Where a sequence succeeds, its first part did.
  after-returns :
      (r : Outcome A) (o : O) (f : A → Io O B) {b : B} {o' : O}
      → after r o f ≡ (ok b, o')
      → (a : A) × (r ≡ ok a) × (f a o ≡ (ok b, o'))
  after-returns (ok a) o f e = (a, refl, e)
  after-returns (err k) o f e = cc
  after-returns panic o f e = cc
  after-returns stuck o f e = cc

  pub returns-first :
      (m : Io O A) (f : A → Io O B) (o : O) {b : B} {o' : O}
      → (m >>= f) o ≡ (ok b, o')
      → (a : A) × ((m o).0 ≡ ok a) × (f a (m o).1 ≡ (ok b, o'))
  returns-first m f o e = after-returns (m o).0 (m o).1 f e

pub pure-returns : {O A : Type 0} (a b : A) (o o' : O) → pure a o ≡ (ok b, o') → a ≡ b
pure-returns a b o o' e = cc
