-- ===== src/Bits/Read.antt =====
-- Readers in sequence, and the bits that a sequence takes.
use raknet_shim.Prelude.{
  ℕ, ◌<◌, ◌%◌, ◌-◌, length, length-append, length-replicate, drop-append, arith, if◌then◌else◌,
  false, ℕ, ◌≡◌, refl, sym, ap, ◌∙◌, Bool, true, List, [], ◌∷◌, ◌++◌, append-nil, append_assoc,
  arith, Outcome, ok, err, panic,
}
use raknet_shim.Prelude as P
use mathlib.Core.Path.{subst₂}
use raknet_shim.Bits.{BitRead, BitReadLaws, padding, Takes, Reads}

unfoldable pub pure {ℓ} : {A : Type ℓ} {R : Type 0} → A → R → Outcome (A × R)
pure a r = ok (a, r)

-- One read after the other, as `?` joins them.
infixl 5 ◌>>=◌
unfoldable pub ◌>>=◌ {ℓ κ} :
    {A : Type ℓ} {B : Type κ} {R : Type 0}
    → (R → Outcome (A × R))
    → (A → R → Outcome (B × R))
    → R
    → Outcome (B × R)
◌>>=◌ p f r = P.◌>>=◌ (p r) (λ (a, r'). f a r')

-- `assert!` on a value that was read
unfoldable pub assert : {R : Type 0} → Bool → R → Outcome (Unit {0} × R)
assert b r = P.if◌then◌else◌ b (ok (tt, r)) panic

unfoldable pub ◌>>◌ {ℓ κ} :
    {A : Type ℓ} {B : Type κ} {R : Type 0}
    → (R → Outcome (A × R))
    → (R → Outcome (B × R))
    → R
    → Outcome (B × R)
unfolding ◌>>=◌
p >> q = p >>= λ _. q

infixl 5 ◌>>◌
module _ {ℓ κ} {A : Type ℓ} {B : Type κ} {R : Type 0} (rest : R → List Bool) where
  pub Reads->>= :
      {p : R → Outcome (A × R)} (f : A → R → Outcome (B × R)) {a : A} {b : B} {xs ys : List Bool}
      → Reads rest p a xs
      → Reads rest (f a) b ys
      → Reads rest (p >>= f) b (xs ++ ys)
  unfolding ◌>>=◌
  Reads->>= {p} f {a} {b} {xs} {ys} hp hf = record {
    takes = λ more r e.
        let (r', e', left) = hp.takes (ys ++ more) r (e ∙ append_assoc xs ys more) in
        let (r'', e'', left') = hf.takes more r' left in (r'', rw e' e'', left');
  }

module _ {ℓ} {A : Type ℓ} {R : Type 0} (rest : R → List Bool) where
  pub pure-Reads : (a : A) → Reads rest (pure a) a []
  unfolding pure
  pure-Reads a = record { takes = λ more r e. (r, refl, e) }

pub assert-Reads :
    {R : Type 0} {rest : R → List Bool} {b : Bool} → b ≡ true → Reads rest (assert b) tt []
unfolding assert
assert-Reads h = record { takes = λ more r e. (r, rw h, e) }

-- A test on a value that was read.
pub if-Reads {ℓ} :
    {A : Type ℓ} {R : Type 0} (rest : R → List Bool) (b : Bool) {p q : R → Outcome (A × R)}
    {a c : A} {xs ys : List Bool}
    → Reads rest p a xs
    → Reads rest q c ys
    → Reads rest (if b then p else q) (if b then a else c) (if b then xs else ys)
if-Reads rest true hp hq = hp
if-Reads rest false hp hq = hq

pub Reads-cast {ℓ} :
    {A : Type ℓ} {R : Type 0} {rest : R → List Bool} {p : R → Outcome (A × R)} {a b : A}
    {xs ys : List Bool}
    → a ≡ b
    → xs ≡ ys
    → Reads rest p a xs
    → Reads rest p b ys
Reads-cast {rest} {p} e f h = subst₂ (λ x y. Reads rest p x y) e f h

-- One step of a sequence, at a reader that is at hand.
pub Takes->>= {ℓ κ} :
    {A : Type ℓ} {B : Type κ} {R : Type 0} (rest : R → List Bool) (p : R → Outcome (A × R))
    (f : A → R → Outcome (B × R)) (r : R) (a : A) {b : B} {more left : List Bool}
    → Takes rest (p r) a more
    → ((s : R) → rest s ≡ more → Takes rest (f a s) b left)
    → Takes rest ((p >>= f) r) b left
unfolding ◌>>=◌
Takes->>= rest p f r a (s, e, h) k = let (t, e', h') = k s h in (t, rw e e', h')

pub length-padding-lt : (n : ℕ) → length (padding n) < 8
unfolding padding
length-padding-lt n = omega (arith, length-replicate ((8 - n % 8) % 8) false)

-- `align` takes the padding, where whole bytes follow it.
pub align-Takes :
    {R : Type 0} {br : BitRead R} (laws : BitReadLaws br) (n : ℕ) (more : List Bool) (r : R)
    → laws.rest r ≡ padding n ++ more
    → length more % 8 ≡ 0
    → laws.rest (br.align_reader r) ≡ more
align-Takes laws n more r e whole =
    laws.rest-align_reader r
    ∙ rw e (rw skipped (drop-append (length (padding n)) (padding n) more refl))
  where
    skipped : length (padding n ++ more) % 8 ≡ length (padding n)
    skipped = omega (arith, length-append (padding n) more, length-padding-lt n, whole)
