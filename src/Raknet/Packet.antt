-- ===== src/Raknet/Packet.antt =====
-- src/raknet/packet.rs: RakNet's packets, and how they are written and read.
pub mod Layout
pub mod RoundTrip
mod Tests
pub mod Consume
use raknet_shim.Prelude.{
  ℕ, zero, suc, ◌+◌, ◌*◌, ◌/◌, ◌%◌, ◌^◌, Bool, true, false, Option, none, some, List, length, ◌==◌,
  Outcome, ok, panic, if◌then◌else◌,
}
use raknet_shim.Bits.{BitWrite, BitRead}
use raknet_shim.Bits.Emit.{◌>>◌, done}
use raknet_shim.Bits.Read.{◌>>=◌, pure, assert}
use raknet_shim.Packet.{Packet, Reliability}
use raknet_shim.Raknet.Comp

pub data ReliabilityData : Type 0 where
  unreliable : ReliabilityData
  unreliable_sequenced : ℕ → ReliabilityData
  reliable : ReliabilityData
  reliable_ordered : ℕ → ReliabilityData

-- `From<ReliabilityData> for Reliability`
unfoldable pub to_reliability : ReliabilityData → Reliability
to_reliability unreliable = Reliability.unreliable
to_reliability (unreliable_sequenced ord) = Reliability.unreliable_sequenced
to_reliability reliable = Reliability.reliable
to_reliability (reliable_ordered ord) = Reliability.reliable_ordered

pub record SplitPacketInfo : Type 0 where
  pub id : ℕ
  pub index : ℕ
  pub count : ℕ

-- `bytes` is the field `data`.
pub record RaknetPacket : Type 0 where
  pub message_number : ℕ
  pub rel_data : ReliabilityData
  pub split_packet_info : Option SplitPacketInfo
  pub bytes : List ℕ

-- `From<RaknetPacket> for Packet`
unfoldable pub to_packet : RaknetPacket → Packet
unfolding to_reliability
to_packet p = record { reliability = to_reliability p.rel_data; bytes = p.bytes }

-- The number of a reliability.
abbrev pub rel_id : ReliabilityData → ℕ
rel_id unreliable = 0
rel_id (unreliable_sequenced ord) = 1
rel_id reliable = 2
rel_id (reliable_ordered ord) = 3

-- `self.data.len() as u16 * 8`, in a build without overflow checks
abbrev pub bit_length : List ℕ → ℕ
bit_length bytes = length bytes % 2 ^ 16 * 8 % 2 ^ 16

module _ {W : Type 0} ⦃bw : BitWrite W⦄ where
  pub write_ordering : ReliabilityData → W → Outcome W
  write_ordering (unreliable_sequenced ord) = bw.write_bits 0 5 >> bw.write_int 4 ord
  write_ordering (reliable_ordered ord) = bw.write_bits 0 5 >> bw.write_int 4 ord
  write_ordering _ = done

  pub write_rel_data : ReliabilityData → W → Outcome W
  write_rel_data rel = bw.write_bits (rel_id rel) 3 >> write_ordering rel

  pub write_split_info : SplitPacketInfo → W → Outcome W
  write_split_info info =
      bw.write_int 2 info.id >> Comp.serialize 4 info.index >> Comp.serialize 4 info.count

  pub write_split : Option SplitPacketInfo → W → Outcome W
  write_split none = bw.write_bit false
  write_split (some info) = bw.write_bit true >> write_split_info info

  -- what stands before the data
  pub write_head : RaknetPacket → W → Outcome W
  write_head p =
      bw.write_int 4 p.message_number
      >> write_rel_data p.rel_data
      >> write_split p.split_packet_info
      >> Comp.serialize 2 (bit_length p.bytes)

  pub serialize : RaknetPacket → W → Outcome W
  serialize p = write_head p >> bw.align_writer >> bw.write_bytes p.bytes

module _ {R : Type 0} ⦃br : BitRead R⦄ where
  pub read_ordering : (ℕ → ReliabilityData) → R → Outcome (ReliabilityData × R)
  read_ordering make = do
    ordering_channel ← br.read_bits 5
    _ ← assert (ordering_channel == 0)
    ord ← br.read_int 4
    pure (make ord)

  -- `match id`
  pub read_by_id : ℕ → R → Outcome (ReliabilityData × R)
  read_by_id zero = pure unreliable
  read_by_id (suc zero) = read_ordering unreliable_sequenced
  read_by_id (suc (suc zero)) = pure reliable
  read_by_id (suc (suc (suc zero))) = read_ordering reliable_ordered
  read_by_id _ = λ r. panic

  pub read_rel_data : R → Outcome (ReliabilityData × R)
  read_rel_data = do id ← br.read_bits 3; read_by_id id

  pub read_split_info : R → Outcome (SplitPacketInfo × R)
  read_split_info = do
    id ← br.read_int 2
    index ← Comp.deserialize 4
    count ← Comp.deserialize 4
    pure (record { id = id; index = index; count = count })

  pub read_split : Bool → R → Outcome (Option SplitPacketInfo × R)
  read_split false = pure none
  read_split true = do info ← read_split_info; pure (some info)

  -- `reader.align()`
  pub align : R → Outcome (Unit {0} × R)
  align r = ok (tt, br.align_reader r)

  pub deserialize : R → Outcome (RaknetPacket × R)
  deserialize = do
    message_number ← br.read_int 4
    rel_data ← read_rel_data
    is_split ← br.read_bit
    split_packet_info ← read_split is_split
    length ← Comp.deserialize 2
    _ ← align
    bytes ← br.read_exact (length / 8)
    pure (record {
      message_number = message_number;
      rel_data = rel_data;
      split_packet_info = split_packet_info;
      bytes = bytes;
    })
