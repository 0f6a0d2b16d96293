-- ===== src/Raknet/Packet/Layout.antt =====
-- The bits of a RakNet packet (src/raknet/packet.rs), and the packets that the format can hold.
use raknet_shim.Prelude.{
  ℕ, ◌+◌, ◌^◌, ◌<◌, ◌∙◌, ap, Bool, true, false, Option, none, some, List, [], ◌∷◌, ◌++◌, length,
  length-append, arith, IsByte, IsU16, IsU32, All,
}
use raknet_shim.Bits.{BitWrite, BitWriteLaws, Emits, Adds, padding}
use raknet_shim.Bits.Digits.{bits_of, le_bits, bytes_bits}
use raknet_shim.Bits.Emit.{Emits->>, done-Emits, Adds->>}
use raknet_shim.Raknet.Comp.Layout.{compressed_bits, serialize-Emits}
use raknet_shim.Raknet.Packet.{
  ReliabilityData, unreliable, unreliable_sequenced, reliable, reliable_ordered, SplitPacketInfo,
  RaknetPacket, rel_id, bit_length, write_ordering, write_rel_data, write_split_info, write_split,
  write_head, serialize,
}

unfoldable pub ordering_bits : ReliabilityData → List Bool
ordering_bits (unreliable_sequenced ord) = bits_of 5 0 ++ le_bits 4 ord
ordering_bits (reliable_ordered ord) = bits_of 5 0 ++ le_bits 4 ord
ordering_bits _ = []

unfoldable pub rel_bits : ReliabilityData → List Bool
rel_bits rel = bits_of 3 (rel_id rel) ++ ordering_bits rel

unfoldable pub info_bits : SplitPacketInfo → List Bool
info_bits info = le_bits 2 info.id ++ (compressed_bits 4 info.index ++ compressed_bits 4 info.count)

unfoldable pub split_bits : Option SplitPacketInfo → List Bool
split_bits none = false ∷ []
split_bits (some info) = (true ∷ []) ++ info_bits info

unfoldable pub head_bits : RaknetPacket → List Bool
head_bits p =
    le_bits 4 p.message_number
    ++ (rel_bits p.rel_data
        ++ (split_bits p.split_packet_info ++ compressed_bits 2 (bit_length p.bytes)))

-- The whole packet, where `n` bits stand before it.
unfoldable pub packet_bits : ℕ → RaknetPacket → List Bool
packet_bits n p = head_bits p ++ (padding (n + length (head_bits p)) ++ bytes_bits p.bytes)

abbrev pub OrderFits : ReliabilityData → Type 0
OrderFits (unreliable_sequenced ord) = IsU32 ord
OrderFits (reliable_ordered ord) = IsU32 ord
OrderFits _ = Unit {0}

abbrev pub InfoFits : Option SplitPacketInfo → Type 0
InfoFits none = Unit {0}
InfoFits (some info) = IsU16 info.id × IsU32 info.index × IsU32 info.count

-- The fields are of their types, and the data's length in bits is a `u16`.
pub record Fits (p : RaknetPacket) : Type 0 where
  pub number : IsU32 p.message_number
  pub order : OrderFits p.rel_data
  pub info : InfoFits p.split_packet_info
  pub short : length p.bytes < 2 ^ 13
  pub octets : All IsByte p.bytes

module _ {W : Type 0} ⦃bw : BitWrite W⦄ (laws : BitWriteLaws bw) where
  open laws use {bits, write_bit-Emits, write_bits-Emits, write_int-Emits}

  write_rel_data-Emits :
      (rel : ReliabilityData) → OrderFits rel → Emits bits (write_rel_data rel) (rel_bits rel)
  unfolding write_rel_data write_ordering rel_bits ordering_bits
  write_rel_data-Emits unreliable h =
      Emits->> bits (write_bits-Emits 0 3 (omega arith) (omega arith)) (done-Emits bits)
  write_rel_data-Emits (unreliable_sequenced ord) h =
      Emits->> bits (write_bits-Emits 1 3 (omega arith) (omega arith))
        (Emits->> bits (write_bits-Emits 0 5 (omega arith) (omega arith)) (write_int-Emits 4 ord h))
  write_rel_data-Emits reliable h =
      Emits->> bits (write_bits-Emits 2 3 (omega arith) (omega arith)) (done-Emits bits)
  write_rel_data-Emits (reliable_ordered ord) h =
      Emits->> bits (write_bits-Emits 3 3 (omega arith) (omega arith))
        (Emits->> bits (write_bits-Emits 0 5 (omega arith) (omega arith)) (write_int-Emits 4 ord h))

  write_split-Emits :
      (split : Option SplitPacketInfo)
      → InfoFits split
      → Emits bits (write_split split) (split_bits split)
  unfolding write_split write_split_info split_bits info_bits
  write_split-Emits none h = write_bit-Emits false
  write_split-Emits (some info) h = Emits->> bits (write_bit-Emits true) (
      Emits->> bits (write_int-Emits 2 info.id h.0)
        (Emits->> bits (serialize-Emits laws 4 info.index) (serialize-Emits laws 4 info.count)))

  write_head-Emits : (p : RaknetPacket) → Fits p → Emits bits (write_head p) (head_bits p)
  unfolding write_head head_bits
  write_head-Emits p h = Emits->> bits (write_int-Emits 4 p.message_number h.number) (
      Emits->> bits (write_rel_data-Emits p.rel_data h.order)
        (Emits->> bits (write_split-Emits p.split_packet_info h.info) (serialize-Emits laws 2 _)))

  -- `serialize` writes the packet's bits, wherever it starts.
  pub serialize-Adds :
      (p : RaknetPacket) (w : W)
      → Fits p
      → Adds bits w (serialize p w) (packet_bits (length (bits w)) p)
  unfolding serialize packet_bits
  serialize-Adds p w h = Adds->> bits _ _ w _ _ ((write_head-Emits p h).adds w) λ v e.
      Adds->> bits _ _ v _ _
        (rw (ap length e ∙ length-append (bits w) (head_bits p)) at (laws.align_writer-Adds v))
        λ u _. (laws.write_bytes-Emits p.bytes h.octets).adds u
