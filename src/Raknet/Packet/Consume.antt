-- ===== src/Raknet/Packet/Consume.antt =====
-- `RaknetPacket::deserialize` of src/raknet/packet.rs ends on every input, and takes four bytes or more.
use raknet_shim.Prelude.{
  ℕ, zero, suc, ◌/◌, ◌==◌, arith, Bool, true, false, length, length-drop, ap, ◌%◌,
}
use raknet_shim.Bits.{BitRead, BitReadLaws}
use raknet_shim.Bits.Consume.{
  Consumes, Consumes->>=, any-Consumes, pure-Consumes, assert-Consumes, read_bit-Consumes,
  read_bits-Consumes, read_int-Consumes, read_exact-Consumes,
}
use raknet_shim.Raknet.Comp.Consume.{deserialize-Consumes}
use raknet_shim.Raknet.Packet as RakPacket
use raknet_shim.Raknet.Packet.{
  ReliabilityData, RaknetPacket, read_ordering, read_by_id, read_rel_data, read_split_info,
  read_split, align, deserialize,
}

module _ {R : Type 0} ⦃br : BitRead R⦄ (laws : BitReadLaws br) where
  read_ordering-Consumes : (make : ℕ → ReliabilityData) → Consumes laws.rest 0 (read_ordering make)
  unfolding read_ordering
  read_ordering-Consumes make =
      any-Consumes laws.rest _ 5 (read_bits-Consumes laws 5 (omega arith)) (λ channel.
        any-Consumes laws.rest _ 0 (assert-Consumes laws.rest (channel == 0)) (λ _.
          any-Consumes laws.rest _ 32 (read_int-Consumes laws 4)
            (λ ord. pure-Consumes laws.rest (make ord))))

  read_by_id-Consumes : (id : ℕ) → Consumes laws.rest 0 (read_by_id id)
  unfolding read_by_id
  read_by_id-Consumes zero = pure-Consumes laws.rest _
  read_by_id-Consumes (suc zero) = read_ordering-Consumes _
  read_by_id-Consumes (suc (suc zero)) = pure-Consumes laws.rest _
  read_by_id-Consumes (suc (suc (suc zero))) = read_ordering-Consumes _
  read_by_id-Consumes (suc (suc (suc (suc n)))) = record { within = λ r. tt }

  read_split_info-Consumes : Consumes laws.rest 0 read_split_info
  unfolding read_split_info
  read_split_info-Consumes = any-Consumes laws.rest _ 16 (read_int-Consumes laws 2) (λ id.
      any-Consumes laws.rest _ 0 (deserialize-Consumes laws 4) (λ index.
        any-Consumes laws.rest _ 0 (deserialize-Consumes laws 4)
          (λ count. pure-Consumes laws.rest _)))

  read_split-Consumes : (is_split : Bool) → Consumes laws.rest 0 (read_split is_split)
  unfolding read_split
  read_split-Consumes false = pure-Consumes laws.rest _
  read_split-Consumes true =
      any-Consumes laws.rest _ 0 read_split_info-Consumes (λ info. pure-Consumes laws.rest _)

  align-Consumes : Consumes laws.rest 0 align
  unfolding align
  align-Consumes = record {
    within = λ r. omega (
      arith,
      ap length (laws.rest-align_reader r),
      length-drop (length (laws.rest r) % 8) (laws.rest r),
    );
  }

  pub packet-Consumes : Consumes laws.rest 32 RakPacket.deserialize
  unfolding RakPacket.deserialize read_rel_data
  packet-Consumes = Consumes->>= laws.rest 32 0 _ (read_int-Consumes laws 4) (λ number.
      any-Consumes laws.rest _ 0
        (any-Consumes laws.rest _ 3 (read_bits-Consumes laws 3 (omega arith)) read_by_id-Consumes)
        (λ rel. any-Consumes laws.rest _ 1 (read_bit-Consumes laws) (λ is_split.
          any-Consumes laws.rest _ 0 (read_split-Consumes is_split) (λ info.
            any-Consumes laws.rest _ 0 (deserialize-Consumes laws 2) (λ size.
              any-Consumes laws.rest _ 0 align-Consumes (λ _.
                any-Consumes laws.rest _ _ (read_exact-Consumes laws (size / 8))
                  (λ bytes. pure-Consumes laws.rest _)))))))
