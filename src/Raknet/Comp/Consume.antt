-- ===== src/Raknet/Comp/Consume.antt =====
-- `Compressed` of src/raknet/comp.rs ends on every input.
use raknet_shim.Prelude.{ℕ, zero, suc, ◌+◌, ◌-◌, arith}
use raknet_shim.Bits.{BitRead, BitReadLaws}
use raknet_shim.Bits.Consume.{
  Consumes, Consumes-le, any-Consumes, pure-Consumes, if-Consumes, read_bit-Consumes,
  read_bits-Consumes, read_int-Consumes,
}
use raknet_shim.Raknet.Comp.{read_low_bytes, read_lowest, deserialize_loop, deserialize}

module _ {R : Type 0} ⦃br : BitRead R⦄ (laws : BitReadLaws br) where
  read_low_bytes-Consumes : (n j size res : ℕ) → Consumes laws.rest 0 (read_low_bytes n j size res)
  unfolding read_low_bytes
  read_low_bytes-Consumes zero j size res = pure-Consumes laws.rest res
  read_low_bytes-Consumes (suc n) j size res =
      any-Consumes laws.rest _ 8 (read_int-Consumes laws 1)
        (λ b. read_low_bytes-Consumes n (j + 1) size _)

  read_lowest-Consumes : Consumes laws.rest 0 read_lowest
  unfolding read_lowest
  read_lowest-Consumes = any-Consumes laws.rest _ 1 (read_bit-Consumes laws) (λ small.
      if-Consumes laws.rest 0 small _ _
        (Consumes-le laws.rest 4 0 (omega arith) (read_bits-Consumes laws 4 (omega arith)))
        (Consumes-le laws.rest 8 0 (omega arith) (read_int-Consumes laws 1)))

  deserialize_loop-Consumes :
      (rounds i size : ℕ) → Consumes laws.rest 0 (deserialize_loop rounds i size)
  unfolding deserialize_loop
  deserialize_loop-Consumes zero i size = read_lowest-Consumes
  deserialize_loop-Consumes (suc rounds) i size =
      any-Consumes laws.rest _ 1 (read_bit-Consumes laws) (λ is_zero.
        if-Consumes laws.rest 0 is_zero _ _ (deserialize_loop-Consumes rounds (i + 1) size)
          (read_low_bytes-Consumes (size - i) i size 0))

  pub deserialize-Consumes : (size : ℕ) → Consumes laws.rest 0 (deserialize size)
  unfolding deserialize
  deserialize-Consumes size = deserialize_loop-Consumes (size - 1) 0 size
