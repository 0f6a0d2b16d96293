-- ===== src/Raknet/RangeList/Codec/Consume.antt =====
-- `RangeList::deserialize` of src/raknet/rangelist.rs ends on every input.
use raknet_shim.Prelude.{ℕ, zero, suc, arith}
use raknet_shim.Bits.{BitRead, BitReadLaws}
use raknet_shim.Bits.Consume.{
  Consumes, Consumes-le, any-Consumes, pure-Consumes, if-Consumes, read_bit-Consumes,
  read_int-Consumes,
}
use raknet_shim.Raknet.Comp.Consume.{deserialize-Consumes}
use raknet_shim.Raknet.RangeList.Codec as Codec
use raknet_shim.Raknet.RangeList.Codec.{read_range, read_ranges}

module _ {R : Type 0} ⦃br : BitRead R⦄ (laws : BitReadLaws br) where
  read_range-Consumes : Consumes laws.rest 0 read_range
  unfolding read_range
  read_range-Consumes = any-Consumes laws.rest _ 1 (read_bit-Consumes laws) (λ same.
      any-Consumes laws.rest _ 32 (read_int-Consumes laws 4) (λ min.
        any-Consumes laws.rest _ 0
          (if-Consumes laws.rest 0 same _ _ (pure-Consumes laws.rest min)
            (Consumes-le laws.rest 32 0 (omega arith) (read_int-Consumes laws 4)))
          (λ max. pure-Consumes laws.rest _)))

  read_ranges-Consumes : (n : ℕ) → Consumes laws.rest 0 (read_ranges n)
  unfolding read_ranges
  read_ranges-Consumes zero = pure-Consumes laws.rest _
  read_ranges-Consumes (suc n) =
      any-Consumes laws.rest _ 0 read_range-Consumes
        (λ r. any-Consumes laws.rest _ 0 (read_ranges-Consumes n) (λ rs. pure-Consumes laws.rest _))

  pub ranges-Consumes : Consumes laws.rest 0 Codec.deserialize
  unfolding Codec.deserialize
  ranges-Consumes = any-Consumes laws.rest _ 0 (deserialize-Consumes laws 2) (λ count.
      any-Consumes laws.rest _ 0 (read_ranges-Consumes count) (λ rs. pure-Consumes laws.rest _))
