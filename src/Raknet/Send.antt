-- ===== src/Raknet/Send.antt =====
-- src/raknet/send.rs: from the program's packets to RakNet datagrams.
pub mod Chunks
pub mod Layout
pub mod Bounds
pub mod Parts
pub mod Oversized
mod Tests
pub mod Socket
use raknet_shim.Prelude.{
  ℕ, zero, suc, ◌+◌, ◌-◌, ◌*◌, ◌/◌, ◌%◌, ◌^◌, Bool, true, false, not, Option, none, some, List, [],
  ◌∷◌, ◌++◌, length, take, drop, ltb, if◌then◌else◌, Outcome, ok, err, panic, stuck, ◌>>=◌,
  wrapping_add,
}
use raknet_shim.Bits.{BitWrite}
use raknet_shim.Bits.Emit.{◌>>◌, done}
use raknet_shim.Packet.{
  Packet, Reliability, unreliable, unreliable_sequenced, reliable, reliable_ordered,
}
use raknet_shim.Raknet.RangeList
use raknet_shim.Raknet.RangeList.{RangeList}
use raknet_shim.Raknet.Packet as RakPacket
use raknet_shim.Raknet.Packet.{RaknetPacket, ReliabilityData, SplitPacketInfo}

abbrev pub mtu_size : ℕ
mtu_size = 1228

abbrev pub udp_header_size : ℕ
udp_header_size = 28

abbrev pub max_packet_size : ℕ
max_packet_size = mtu_size - udp_header_size

-- The socket and the address stand in `Udp` below.
pub record SendPart : Type 0 where
  pub message_number : ℕ
  pub split_packet_index : ℕ
  pub unrel_seq_index : ℕ
  pub rel_ord_index : ℕ

unfoldable pub new : SendPart
new = record { message_number = 0; split_packet_index = 0; unrel_seq_index = 0; rel_ord_index = 0 }

unfoldable pub message_number : SendPart → ℕ × SendPart
message_number s = (s.message_number, record s { message_number = wrapping_add s.message_number 1 })

unfoldable pub split_packet_index : SendPart → ℕ × SendPart
split_packet_index s =
    (s.split_packet_index, record s { split_packet_index = (s.split_packet_index + 1) % 2 ^ 16 })

unfoldable pub rel_data : Reliability → SendPart → ReliabilityData × SendPart
rel_data unreliable s = (ReliabilityData.unreliable, s)
rel_data unreliable_sequenced s = (
  ReliabilityData.unreliable_sequenced s.unrel_seq_index,
  record s { unrel_seq_index = wrapping_add s.unrel_seq_index 1 },
)
rel_data reliable s = (ReliabilityData.reliable, s)
rel_data reliable_ordered s = (
  ReliabilityData.reliable_ordered s.rel_ord_index,
  record s { rel_ord_index = wrapping_add s.rel_ord_index 1 },
)

-- `rel == UnreliableSequenced || rel == ReliableOrdered`
abbrev pub has_ordering : Reliability → Bool
has_ordering unreliable_sequenced = true
has_ordering reliable_ordered = true
has_ordering _ = false

unfoldable pub header_len : Reliability → Bool → ℕ
header_len rel is_split_packet =
    let len = 32 + 3 in
    let len = if has_ordering rel then len + 5 + 32 else len in
    let len = len + 1 in
    let len = if is_split_packet then len + 16 + 32 + 32 + 16 else len in len / 8 + 1

-- `slice::chunks`, with as many rounds as there are bytes.
unfoldable pub chunks_loop : ℕ → ℕ → List ℕ → List (List ℕ)
chunks_loop rounds n [] = []
chunks_loop zero n (b ∷ bytes) = []
chunks_loop (suc rounds) n (b ∷ bytes) =
    take n (b ∷ bytes) ∷ chunks_loop rounds n (drop n (b ∷ bytes))

unfoldable pub chunks : ℕ → List ℕ → List (List ℕ)
chunks n bytes = chunks_loop (length bytes) n bytes

-- `for (i, chunk) in chunks.enumerate()`
unfoldable pub split_chunks :
    ReliabilityData → ℕ → ℕ → ℕ → List (List ℕ) → SendPart → List RaknetPacket × SendPart
split_chunks rel id count i [] s = ([], s)
split_chunks rel id count i (chunk ∷ rest) s =
    let (number, s₁) = message_number s in
    let (packets, s₂) = split_chunks rel id count (i + 1) rest s₁ in
    (
      record {
        message_number = number;
        rel_data = rel;
        split_packet_info = some (record { id = id; index = i; count = count });
        bytes = chunk;
      }
          ∷ packets,
      s₂,
    )

unfoldable pub split_packet : ReliabilityData → Packet → SendPart → List RaknetPacket × SendPart
split_packet rel p s =
    let (id, s₁) = split_packet_index s in
    let parts = chunks (max_packet_size - header_len p.reliability true) p.bytes in
    split_chunks rel id (length parts % 2 ^ 32) 0 parts s₁

unfoldable pub whole_packet : ReliabilityData → Packet → SendPart → List RaknetPacket × SendPart
whole_packet rel p s =
    let (number, s₁) = message_number s in
    (
      record { message_number = number; rel_data = rel; split_packet_info = none; bytes = p.bytes }
          ∷ [],
      s₁,
    )

-- The body of the loop over `packets`.
unfoldable pub outgoing : Packet → SendPart → List RaknetPacket × SendPart
outgoing p s =
    let (rel, s₁) = rel_data p.reliability s in
    if ltb max_packet_size (header_len p.reliability false + length p.bytes)
    then split_packet rel p s₁
    else whole_packet rel p s₁

unfoldable pub process_outgoing_packets : List Packet → SendPart → List RaknetPacket × SendPart
process_outgoing_packets [] s = ([], s)
process_outgoing_packets (p ∷ ps) s =
    let (first, s₁) = outgoing p s in
    let (rest, s₂) = process_outgoing_packets ps s₁ in (first ++ rest, s₂)

-- `UdpSocket::send_to`, to the client's address: the standard library's socket `S`, which a failed
-- call changes as well.
pub record Udp (S : Type 0) : Type 0 where
  pub send_to : List ℕ → S → Outcome (Unit {0}) × S

module _ {W : Type 0} ⦃bw : BitWrite W⦄ where
  -- The writer, and the acknowledgements that are left: none.
  pub write_acks : RangeList → ℕ → W → Outcome W
  write_acks acks remote_system_time =
      if RangeList.is_empty acks
      then bw.write_bit false
      else (bw.write_bit true
          >> bw.write_int 4 remote_system_time
          >> RangeList.Codec.serialize acks)

module _ (W : Type 0) ⦃bw : BitWrite W⦄ where
  -- The datagram of one packet.
  pub packet_datagram : RaknetPacket → RangeList → ℕ → Outcome (List ℕ)
  packet_datagram p acks remote_system_time =
      (write_acks acks remote_system_time >> bw.write_bit false >> RakPacket.serialize p)
        bw.new_writer
      >>= λ w. ok (bw.into_bytes w)

  pub acks_datagram : RangeList → ℕ → Outcome (List ℕ)
  acks_datagram acks remote_system_time =
      write_acks acks remote_system_time bw.new_writer >>= λ w. ok (bw.into_bytes w)

  -- What a send leaves, whether it failed or not: how it ended, the acknowledgements, the socket.
  abbrev pub Sent : Type 0 → Type 0
  Sent S = Outcome (Unit {0}) × RangeList × S

  module _ {S : Type 0} ⦃udp : Udp S⦄ where
    -- `acks.clear()` stands before the datagram goes out. A write to a vector does not fail.
    unfoldable pub send_datagram : Outcome (List ℕ) → RangeList → S → Sent S
    send_datagram (ok datagram) acks socket =
        let (result, socket') = udp.send_to datagram socket in
        (result, RangeList.clear acks, socket')
    send_datagram (err kind) acks socket = (err kind, acks, socket)
    send_datagram panic acks socket = (panic, acks, socket)
    send_datagram stuck acks socket = (stuck, acks, socket)

    unfoldable pub send_packet : RaknetPacket → RangeList → ℕ → S → Sent S
    send_packet p acks remote_system_time =
        send_datagram (packet_datagram p acks remote_system_time) acks

    unfoldable pub send_acks : RangeList → ℕ → S → Sent S
    send_acks acks remote_system_time socket =
        if RangeList.is_empty acks
        then (ok tt, acks, socket)
        else send_datagram (acks_datagram acks remote_system_time) acks socket

    -- `for rak_packet in rak_packets`, which the first error ends
    unfoldable pub send_each : List RaknetPacket → RangeList → ℕ → S → Sent S
    send_each [] acks remote_system_time socket = (ok tt, acks, socket)
    send_each (p ∷ ps) acks remote_system_time socket =
        let (result, acks', socket') = send_packet p acks remote_system_time socket in
        elim result [
          | ok _ ↦ send_each ps acks' remote_system_time socket'
          | failed ↦ (failed, acks', socket')
        ]

    unfoldable pub send_all : List RaknetPacket → RangeList → ℕ → S → Sent S
    send_all [] = send_acks
    send_all (p ∷ ps) = send_each (p ∷ ps)

    unfoldable pub send_packets :
        List Packet → SendPart → RangeList → ℕ → S → Outcome (Unit {0}) × SendPart × RangeList × S
    send_packets packets s acks remote_system_time socket =
        let (rak_packets, s₁) = process_outgoing_packets packets s in
        let (result, acks', socket') = send_all rak_packets acks remote_system_time socket in
        (result, s₁, acks', socket')
