-- ===== src/Raknet/Comp/Layout.antt =====
-- The bits that `serialize` of src/raknet/comp.rs writes.
use raknet_shim.Prelude.{
  ◌≤◌, ◌<◌, length, ℕ, zero, suc, ◌+◌, ◌-◌, ◌*◌, ◌/◌, ◌%◌, ◌^◌, ◌≡◌, sym, subst, Bool, List, [],
  ◌∷◌, ◌++◌, arith, ◌==◌, if◌then◌else◌,
}
use raknet_shim.Bits.{BitWrite, BitWriteLaws, Emits}
use raknet_shim.Bits.Digits.{length-le_bits, length-bits_of, le_bits-one, bits_of, le_bits}
use raknet_shim.Bits.Emit.{Emits->>, done-Emits, if-Emits}
use raknet_shim.Raknet.Comp.{byte_at, write_low_bytes, write_lowest, serialize_loop, serialize}
use native.Mathlib.Nat.{div-div-eq-div-mul}
use native.Mathlib.Numerals.{towards_suc}

pub two_pow_byte : (j : ℕ) → 2 ^ (8 * (j + 1)) ≡ 2 ^ (8 * j) * 256
two_pow_byte j =
    let e : 8 * (j + 1) ≡ 8 * j + 8 = omega arith in rw e (simp towards_suc (omega arith))

-- The value from byte `j + 1` on.
pub next_byte : (v j : ℕ) → v / 2 ^ (8 * (j + 1)) ≡ v / 2 ^ (8 * j) / 256
next_byte v j = rw two_pow_byte (sym (div-div-eq-div-mul v (2 ^ (8 * j)) 256))

abbrev pub lowest_bits : ℕ → List Bool
lowest_bits v =
    let is_zero = v / 16 % 16 == 0 in
    (is_zero ∷ []) ++ (if is_zero then bits_of 4 (v % 16) else le_bits 1 (byte_at v 0))

unfoldable pub loop_bits : ℕ → ℕ → ℕ → ℕ → List Bool
loop_bits zero i size v = lowest_bits v
loop_bits (suc rounds) i size v =
    let is_zero = byte_at v (size - 1 - i) == 0 in
    let next = loop_bits rounds (i + 1) size v in
    (is_zero ∷ []) ++ (if is_zero then next else le_bits (size - i) v)

-- What is written for `v`, a number of `size` bytes.
unfoldable pub compressed_bits : ℕ → ℕ → List Bool
compressed_bits size v = loop_bits (size - 1) 0 size v

module _ {W : Type 0} ⦃bw : BitWrite W⦄ (laws : BitWriteLaws bw) where
  open laws use {bits, write_bit-Emits, write_bits-Emits, write_int-Emits}

  write_low_bytes-Emits :
      (n j v : ℕ) → Emits bits (write_low_bytes n j v) (le_bits n (v / 2 ^ (8 * j)))
  unfolding write_low_bytes le_bits
  write_low_bytes-Emits zero j v = done-Emits bits
  write_low_bytes-Emits (suc n) j v =
      Emits->> bits
        (rw (le_bits-one (byte_at v j) (omega arith)) at
          (write_int-Emits 1 (byte_at v j) (omega arith)))
        (rw (next_byte v j) at (write_low_bytes-Emits n (j + 1) v))

  write_lowest-Emits : (v : ℕ) → Emits bits (write_lowest v) (lowest_bits v)
  unfolding write_lowest
  write_lowest-Emits v = Emits->> bits (write_bit-Emits _) (
      if-Emits bits _ (write_bits-Emits (v % 16) 4 (omega arith) (omega arith))
        (write_int-Emits 1 (byte_at v 0) (omega arith)))

  serialize_loop-Emits :
      (rounds i size v : ℕ)
      → Emits bits (serialize_loop rounds i size v) (loop_bits rounds i size v)
  unfolding serialize_loop loop_bits
  serialize_loop-Emits zero i size v = write_lowest-Emits v
  serialize_loop-Emits (suc rounds) i size v = Emits->> bits (write_bit-Emits _) (
      if-Emits bits _ (serialize_loop-Emits rounds (i + 1) size v) (
        subst (λ x. Emits bits (write_low_bytes (size - i) 0 v) (le_bits (size - i) x))
          (omega arith) (write_low_bytes-Emits (size - i) 0 v)))

  pub serialize-Emits : (size v : ℕ) → Emits bits (serialize size v) (compressed_bits size v)
  unfolding serialize compressed_bits
  serialize-Emits size v = serialize_loop-Emits (size - 1) 0 size v

length-lowest_bits : (v : ℕ) → length (lowest_bits v) ≤ 9
length-lowest_bits v = ground (arith, length-bits_of 4 (v % 16), length-le_bits 1 (byte_at v 0))

-- At most one bit more than the bytes that are left.
length-loop_bits :
    (rounds i size v : ℕ)
    → size ≡ suc rounds + i
    → length (loop_bits rounds i size v) ≤ 8 * suc rounds + 1
unfolding loop_bits
length-loop_bits zero i size v e = omega (arith, length-lowest_bits v)
length-loop_bits (suc rounds) i size v e =
    ground (arith, length-le_bits (size - i) v, length-loop_bits rounds (i + 1) size v)

pub length-compressed_bits :
    (size v : ℕ) → 0 < size → length (compressed_bits size v) ≤ 8 * size + 1
unfolding compressed_bits
length-compressed_bits size v h = omega (arith, length-loop_bits (size - 1) 0 size v (omega arith))
