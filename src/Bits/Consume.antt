-- ===== src/Bits/Consume.antt =====
-- How many bits a reader takes off any input, whatever the bits are; a reader of a fixed size ends on
-- every input, with a value or an error.
use raknet_shim.Prelude.{
  ℕ, zero, suc, ◌+◌, ◌*◌, ◌/◌, ◌%◌, ◌^◌, ◌-◌, ◌≤◌, ◌<◌, ◌≡◌, refl, sym, ap, ◌∙◌, subst, inl, inr,
  Bool, true, false, List, [], ◌∷◌, ◌++◌, length, length-append, length-drop, drop, arith, ltb,
  Bool-cases, if◌then◌else◌, Outcome, ok, err, panic, stuck, IsByte, All, ErrorKind,
}
use native.Mathlib.Nat.{pow-suc}
use raknet_shim.Prelude as P
use raknet_shim.Bits.{BitRead, BitReadLaws, Takes}
use raknet_shim.Bits.Digits.{bits_of, le_bits, bytes_bits}
use raknet_shim.Bits.Model.Number.{number, bits_of-number, number_from-lt}
use raknet_shim.Bits.Read.{◌>>=◌, pure, assert}

split_at :
    (n : ℕ) (xs : List Bool)
    → n ≤ length xs
    → (ys zs : List Bool) × (xs ≡ ys ++ zs) × (length ys ≡ n)
split_at zero xs h = ([], xs, refl, refl)
split_at (suc n) [] h = absurd (omega arith)
split_at (suc n) (x ∷ xs) h =
    let (ys, zs, e, l) = split_at n xs (omega arith) in (x ∷ ys, zs, ap (λ t. x ∷ t) e, ap suc l)

-- Any bits are those of a number.
octet_of : (xs : List Bool) → length xs ≡ 8 → (b : ℕ) × IsByte b × (bits_of 8 b ≡ xs)
octet_of xs l =
    let bound = number_from-lt 0 xs in
    let e : 2 ^ length xs ≡ 256 = ap (λ n. 2 ^ n) l in
    (number xs, omega (arith, rw e at bound), bits_of-number xs 8 l)

number_of :
    (k : ℕ) (xs : List Bool) → length xs ≡ 8 * k → (v : ℕ) × (v < 256 ^ k) × (le_bits k v ≡ xs)
unfolding le_bits
number_of zero [] l = (0, omega arith, refl)
number_of zero (x ∷ xs) l = absurd (omega arith)
number_of (suc k) xs l =
    let (ys, zs, e, m) = split_at 8 xs (omega arith) in
    let (b, small, eb) = octet_of ys m in
    let (v, bound, ev) = number_of k zs (omega (arith, ap length e, length-append ys zs)) in
    let low : (b + 256 * v) % 256 ≡ b = omega arith in
    let high : (b + 256 * v) / 256 ≡ v = omega arith in
    (b + 256 * v, omega (arith, pow-suc 256 k), rw (low, high) (rw (eb, ev) (sym e)))

bytes_of_bits :
    (n : ℕ) (xs : List Bool)
    → length xs ≡ 8 * n
    → (bs : List ℕ) × All IsByte bs × (length bs ≡ n) × (bytes_bits bs ≡ xs)
unfolding bytes_bits
bytes_of_bits zero [] l = ([], tt, refl, refl)
bytes_of_bits zero (x ∷ xs) l = absurd (omega arith)
bytes_of_bits (suc n) xs l =
    let (ys, zs, e, m) = split_at 8 xs (omega arith) in
    let (b, small, eb) = octet_of ys m in
    let (bs, all, size, ebs) =
      bytes_of_bits n zs (omega (arith, ap length e, length-append ys zs)) in
    (b ∷ bs, (small, all), ap suc size, rw (eb, ebs) (sym e))

module _ {R : Type 0} (rest : R → List Bool) where
  -- A call that ended, and if it succeeded took `n` bits or more of `m`.
  abbrev pub Within {ℓ} : {A : Type ℓ} → ℕ → ℕ → Outcome (A × R) → Type 0
  Within n m (ok (a, r)) = length (rest r) + n ≤ m
  Within n m (err k) = Unit {0}
  Within n m panic = Unit {0}
  Within n m stuck = ⊥

  pub record Consumes {ℓ} {A : Type ℓ} (n : ℕ) (p : R → Outcome (A × R)) : Type ℓ where
    pub within : (r : R) → Within n (length (rest r)) (p r)

  Within-later :
      {A : Type 0} (n k l m : ℕ) (o : Outcome (A × R))
      → l + n ≤ m
      → Within k l o
      → Within (n + k) m o
  Within-later n k l m (ok (a, r)) h w = omega arith
  Within-later n k l m (err e) h w = tt
  Within-later n k l m panic h w = tt
  Within-later n k l m stuck h w = elim w [ ]

  Within-le : {A : Type 0} (n k m : ℕ) (o : Outcome (A × R)) → k ≤ n → Within n m o → Within k m o
  Within-le n k m (ok (a, r)) h w = omega arith
  Within-le n k m (err e) h w = tt
  Within-le n k m panic h w = tt
  Within-le n k m stuck h w = elim w [ ]

  Within->>= :
      {A B : Type 0} (n k m : ℕ) (o : Outcome (A × R)) (f : A → R → Outcome (B × R))
      → Within n m o
      → ((a : A) → Consumes k (f a))
      → Within (n + k) m (P.◌>>=◌ o (λ (a, r). f a r))
  Within->>= n k m (ok (a, r)) f w c =
      Within-later n k (length (rest r)) m (f a r) w ((c a).within r)
  Within->>= n k m (err e) f w c = tt
  Within->>= n k m panic f w c = tt
  Within->>= n k m stuck f w c = elim w [ ]

  pub Consumes-le :
      {A : Type 0} {p : R → Outcome (A × R)} (n k : ℕ) → k ≤ n → Consumes n p → Consumes k p
  Consumes-le {p} n k h c = record { within = λ r. Within-le n k _ (p r) h (c.within r) }

  pub Consumes->>= :
      {A B : Type 0} {p : R → Outcome (A × R)} (n k : ℕ) (f : A → R → Outcome (B × R))
      → Consumes n p
      → ((a : A) → Consumes k (f a))
      → Consumes (n + k) (p >>= f)
  unfolding ◌>>=◌
  Consumes->>= {p} n k f c d = record { within = λ r. Within->>= n k _ (p r) f (c.within r) d }

  -- One read before others, of which nothing is said how much they take.
  pub any-Consumes :
      {A B : Type 0} {p : R → Outcome (A × R)} (f : A → R → Outcome (B × R)) (n : ℕ)
      → Consumes n p
      → ((a : A) → Consumes 0 (f a))
      → Consumes 0 (p >>= f)
  any-Consumes f n c d = Consumes-le (n + 0) 0 (omega arith) (Consumes->>= n 0 f c d)

  pub pure-Consumes : {A : Type 0} (a : A) → Consumes 0 (pure a)
  unfolding pure
  pure-Consumes a = record { within = λ r. omega arith }

  pub assert-Consumes : (b : Bool) → Consumes 0 (assert b)
  unfolding assert
  assert-Consumes true = record { within = λ r. omega arith }
  assert-Consumes false = record { within = λ r. tt }

  pub if-Consumes :
      {A : Type 0} (n : ℕ) (b : Bool) (p q : R → Outcome (A × R))
      → Consumes n p
      → Consumes n q
      → Consumes n (if b then p else q)
  if-Consumes n true p q c d = c
  if-Consumes n false p q c d = d

  -- A call that takes these bits, or finds the end of the input.
  Takes-Within :
      {A : Type 0} (n m : ℕ) (o : Outcome (A × R)) (a : A) (more : List Bool)
      → Takes rest o a more
      → length more + n ≡ m
      → Within n m o
  Takes-Within n m o a more (r, e, l) h =
      subst (λ x. Within n m x) (sym e) (omega (arith, ap length l))

  fails-Within :
      {A : Type 0} (n m : ℕ) (o : Outcome (A × R)) (k : ErrorKind) → o ≡ err k → Within n m o
  fails-Within n m o k e = subst (λ x. Within n m x) (sym e) tt

module _ {R : Type 0} {br : BitRead R} (laws : BitReadLaws br) where
  pub read_int-Consumes : (k : ℕ) → Consumes laws.rest (8 * k) (br.read_int k)
  read_int-Consumes k = record {
    within = λ r. elim (Bool-cases (ltb (length (laws.rest r)) (8 * k))) [
      | inl short ↦ fails-Within laws.rest _ _ _ _ (laws.read_int_eof k r (ground arith))
      | inr long ↦
          let enough : 8 * k ≤ length (laws.rest r) = ground arith in
          let (ys, zs, e, l) = split_at (8 * k) (laws.rest r) enough in
          let (v, bound, ev) = number_of k ys l in
          Takes-Within laws.rest _ _ _ v zs
            ((laws.read_int-Reads k v bound).takes zs r (e ∙ ap (λ t. t ++ zs) (sym ev)))
            (omega (arith, ap length e, length-append ys zs))
    ];
  }

  pub read_exact-Consumes : (n : ℕ) → Consumes laws.rest (8 * n) (br.read_exact n)
  read_exact-Consumes n = record {
    within = λ r. elim (Bool-cases (ltb (length (laws.rest r)) (8 * n))) [
      | inl short ↦ fails-Within laws.rest _ _ _ _ (laws.read_exact_eof n r (ground arith))
      | inr long ↦
          let enough : 8 * n ≤ length (laws.rest r) = ground arith in
          let (ys, zs, e, l) = split_at (8 * n) (laws.rest r) enough in
          let (bs, all, size, eb) = bytes_of_bits n ys l in
          subst (λ k. Within laws.rest (8 * n) (length (laws.rest r)) (br.read_exact k r)) size
            (Takes-Within laws.rest _ _ _ bs zs
              ((laws.read_exact-Reads bs all).takes zs r (e ∙ ap (λ t. t ++ zs) (sym eb)))
              (omega (arith, ap length e, length-append ys zs)))
    ];
  }

  pub read_bits-Consumes : (n : ℕ) → n ≤ 8 → Consumes laws.rest n (br.read_bits n)
  read_bits-Consumes n h = record {
    within = λ r. elim (Bool-cases (ltb (length (laws.rest r)) n)) [
      | inl short ↦ fails-Within laws.rest _ _ _ _ (laws.read_bits_eof n r h (ground arith))
      | inr long ↦
          let enough : n ≤ length (laws.rest r) = ground arith in
          let (ys, zs, e, l) = split_at n (laws.rest r) enough in
          let bound = number_from-lt 0 ys in
          let size : 2 ^ length ys ≡ 2 ^ n = ap (λ k. 2 ^ k) l in
          let eb = bits_of-number ys n l in
          Takes-Within laws.rest _ _ _ (number ys) zs
            ((laws.read_bits-Reads n (number ys) h (omega (arith, rw size at bound))).takes zs r
              (e ∙ ap (λ t. t ++ zs) (sym eb)))
            (omega (arith, ap length e, length-append ys zs))
    ];
  }

  pub read_bit-Consumes : Consumes laws.rest 1 br.read_bit
  read_bit-Consumes = record { within = λ r. one r (laws.rest r) refl }
    where
      one :
          (r : R) (bs : List Bool)
          → laws.rest r ≡ bs
          → Within laws.rest 1 (length (laws.rest r)) (br.read_bit r)
      one r [] e = fails-Within laws.rest _ _ _ _ (laws.read_bit_eof r e)
      one r (b ∷ bs) e =
          Takes-Within laws.rest _ _ _ b bs ((laws.read_bit-Reads b).takes bs r e)
            (omega (arith, ap length e))
