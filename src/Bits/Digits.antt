-- ===== src/Bits/Digits.antt =====
-- Numbers as bits: the order in which a bit stream writes them.
use raknet_shim.Prelude.{
  append-nil, IsByte, ℕ, zero, suc, ◌*◌, ◌/◌, ◌%◌, ◌≡◌, refl, Bool, ◌==◌, List, [], ◌∷◌, ◌++◌,
  append_assoc, length, length-append, arith,
}

-- The low `n` bits of `v`, the highest first.
unfoldable pub bits_of : ℕ → ℕ → List Bool
bits_of zero v = []
bits_of (suc n) v = bits_of n (v / 2) ++ ((v % 2 == 1) ∷ [])

-- The bytes of `v`, the lowest first, `k` of them, each the highest bit first.
unfoldable pub le_bits : ℕ → ℕ → List Bool
le_bits zero v = []
le_bits (suc k) v = bits_of 8 (v % 256) ++ le_bits k (v / 256)

unfoldable pub bytes_bits : List ℕ → List Bool
bytes_bits [] = []
bytes_bits (b ∷ bs) = bits_of 8 b ++ bytes_bits bs

pub length-bits_of : (n v : ℕ) → length (bits_of n v) ≡ n
unfolding bits_of
length-bits_of zero v = refl
length-bits_of (suc n) v =
    omega (arith, length-append (bits_of n (v / 2)) ((v % 2 == 1) ∷ []), length-bits_of n (v / 2))

pub length-le_bits : (k v : ℕ) → length (le_bits k v) ≡ 8 * k
unfolding le_bits
length-le_bits zero v = omega arith
length-le_bits (suc k) v = omega (
  arith,
  length-append (bits_of 8 (v % 256)) (le_bits k (v / 256)),
  length-bits_of 8 (v % 256),
  length-le_bits k (v / 256),
)

pub length-bytes_bits : (bs : List ℕ) → length (bytes_bits bs) ≡ 8 * length bs
unfolding bytes_bits
length-bytes_bits [] = omega arith
length-bytes_bits (b ∷ bs) =
    omega
      (arith, length-append (bits_of 8 b) (bytes_bits bs), length-bits_of 8 b, length-bytes_bits bs)

pub bytes_bits-append : (xs ys : List ℕ) → bytes_bits (xs ++ ys) ≡ bytes_bits xs ++ bytes_bits ys
unfolding bytes_bits
bytes_bits-append [] ys = refl
bytes_bits-append (x ∷ xs) ys = simp (bytes_bits-append xs ys, append_assoc)

pub le_bits-one : (b : ℕ) → IsByte b → le_bits 1 b ≡ bits_of 8 b
unfolding le_bits
le_bits-one b h = let e : b % 256 ≡ b = omega arith in rw (e, append-nil)
