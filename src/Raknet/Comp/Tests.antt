-- ===== src/Raknet/Comp/Tests.antt =====
-- The repository's tests of src/raknet/comp.rs, and the theorems at concrete numbers.
use raknet_shim.Prelude.{
  ℕ, ◌≡◌, refl, List, [], ◌∷◌, arith, Outcome, ok, ◌>>=◌, ◌^◌, ◌<◌, ◌≤◌, ◌⊎◌, ◌↔◌,
}
use raknet_shim.Bits.{padding}
use raknet_shim.Bits.Digits.{bits_of, le_bits, bytes_bits}
use raknet_shim.Bits.Emit as Emit
use raknet_shim.Bits.Read as Read
use raknet_shim.Bits.Model.{
  list_write, list_read, list_write_laws, list_read_laws, pack, number_from, take_bit, take_int,
}
use raknet_shim.Raknet.Comp.{
  write_low_bytes, write_lowest, serialize_loop, serialize, read_low_bytes, read_lowest,
  deserialize_loop, deserialize,
}
use raknet_shim.Raknet.Comp.RoundTrip.{
  WrittenReadAs, deserialize-serialize_u16, deserialize-serialize_u32,
}

written : ℕ → ℕ → Outcome (List ℕ)
unfolding serialize serialize_loop write_lowest write_low_bytes bits_of le_bits pack number_from
    padding Emit.◌>>◌ Emit.done
written size v = serialize size v list_write.new_writer >>= λ w. ok (list_write.into_bytes w)

write_comp_u16_small : written 2 14 ≡ ok (0xf8 ∷ [])
unfolding written
write_comp_u16_small = refl

write_comp_u16_large : written 2 47975 ≡ ok (0x33 ∷ 0xdd ∷ 0x80 ∷ [])
unfolding written
write_comp_u16_large = refl

write_comp_u32_large : written 4 3925837394 ≡ ok (0x29 ∷ 0x43 ∷ 0x7f ∷ 0xf4 ∷ 0x80 ∷ [])
unfolding written
write_comp_u32_large = refl

read : ℕ → List ℕ → Outcome ℕ
unfolding deserialize deserialize_loop read_lowest read_low_bytes bits_of bytes_bits number_from
    take_bit take_int Read.◌>>=◌ Read.pure
read size bytes = deserialize size (list_read.new_reader bytes) >>= λ (v, _). ok v

read_comp_u16_large : read 2 (0x33 ∷ 0xdd ∷ 0x80 ∷ []) ≡ ok 47975
unfolding read
read_comp_u16_large = refl

read_comp_u32_small : read 4 (0xfe ∷ []) ≡ ok 14
unfolding read
read_comp_u32_small = refl

-- 256 is written as the bits 1, 1, 0 and two bytes, and comes back as 2 ^ 24.
misread_256 : (written 4 256 >>= read 4) ≡ ok (2 ^ 24)
unfolding written read
misread_256 = refl

deserialize-serialize_u16_example :
    WrittenReadAs list_write_laws.bits list_read_laws.rest
      (serialize 2 47975)
      (deserialize 2)
      47975
      17
deserialize-serialize_u16_example =
    deserialize-serialize_u16 list_write_laws list_read_laws 47975 (omega arith)

deserialize-serialize_u32_example :
    WrittenReadAs list_write_laws.bits list_read_laws.rest
      (serialize 4 256)
      (deserialize 4)
      (2 ^ 24)
      33
    × ((◌≡◌ {A = ℕ} (2 ^ 24) 256) ↔ ((256 < 2 ^ 8) ⊎ (2 ^ 24 ≤ 256)))
deserialize-serialize_u32_example =
    deserialize-serialize_u32 list_write_laws list_read_laws 256 (omega arith)
