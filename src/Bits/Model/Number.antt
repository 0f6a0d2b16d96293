-- ===== src/Bits/Model/Number.antt =====
-- Bits as numbers, the highest first.
use raknet_shim.Prelude.{
  ℕ, zero, suc, ◌+◌, ◌*◌, ◌/◌, ◌%◌, ◌^◌, ◌<◌, ◌≡◌, refl, sym, ◌∙◌, Bool, true, false, List, [], ◌∷◌,
  ◌++◌, append-nil, append_assoc, length, arith, ◌==◌,
}
use raknet_shim.Bits.Digits.{bits_of}
use native.Mathlib.Nat.{pow-suc, zero-add}

abbrev pub digit : Bool → ℕ
digit true = 1
digit false = 0

unfoldable pub number_from : ℕ → List Bool → ℕ
number_from acc [] = acc
number_from acc (b ∷ bs) = number_from (2 * acc + digit b) bs

abbrev pub number : List Bool → ℕ
number bs = number_from 0 bs

pub number_from-append :
    (acc : ℕ) (xs : List Bool) (b : Bool)
    → number_from acc (xs ++ (b ∷ [])) ≡ 2 * number_from acc xs + digit b
unfolding number_from
number_from-append acc [] b = refl
number_from-append acc (x ∷ xs) b = number_from-append (2 * acc + digit x) xs b

pub number-bits_of : (n v : ℕ) → v < 2 ^ n → number (bits_of n v) ≡ v
unfolding bits_of
number-bits_of zero v h = unfold number_from in omega arith
number-bits_of (suc n) v h = ground (
  arith,
  pow-suc 2 n,
  number_from-append 0 (bits_of n (v / 2)) (v % 2 == 1),
  number-bits_of n (v / 2) (omega (arith, pow-suc 2 n)),
)

pub halve :
    (acc : ℕ) (b : Bool) → ((2 * acc + digit b) / 2 ≡ acc) × (((2 * acc + digit b) % 2 == 1) ≡ b)
halve acc true = ground arith
halve acc false = ground arith

pub bits_of-number_from :
    (m acc : ℕ) (bs : List Bool)
    → bits_of (length bs + m) (number_from acc bs) ≡ bits_of m acc ++ bs
unfolding number_from
bits_of-number_from m acc [] = rw zero-add (sym (append-nil _))
bits_of-number_from m acc (b ∷ bs) =
    let e : suc (length bs) + m ≡ length bs + suc m = omega arith in
    rw e (
      bits_of-number_from (suc m) (2 * acc + digit b) bs
      ∙ unfold bits_of in
        rw ((halve acc b).0, (halve acc b).1) (append_assoc (bits_of m acc) (b ∷ []) bs))

pub bits_of-number : (bs : List Bool) (n : ℕ) → length bs ≡ n → bits_of n (number bs) ≡ bs
bits_of-number bs n e =
    let f : n ≡ length bs + 0 = omega arith in
    rw f (bits_of-number_from 0 0 bs ∙ unfold bits_of in refl)

pub number_from-lt : (acc : ℕ) (bs : List Bool) → number_from acc bs < (acc + 1) * 2 ^ length bs
unfolding number_from
number_from-lt acc [] = omega arith
number_from-lt acc (true ∷ bs) = rw pow-suc (omega (arith, number_from-lt (2 * acc + 1) bs))
number_from-lt acc (false ∷ bs) = rw pow-suc (omega (arith, number_from-lt (2 * acc + 0) bs))
