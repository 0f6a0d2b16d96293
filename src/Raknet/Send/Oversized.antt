-- ===== src/Raknet/Send/Oversized.antt =====
-- The size of a datagram of src/raknet/send.rs, which `header_len` takes for smaller than it is.
use raknet_shim.Prelude.{
  ℕ, ◌+◌, ◌-◌, ◌*◌, ◌/◌, ◌%◌, ◌^◌, ◌≤◌, ◌<◌, ◌≡◌, refl, ap, ◌∙◌, false, none, List, [], ◌∷◌, ◌++◌,
  length, length-append, length-replicate, replicate, ltb, ◌==◌, arith, All, IsByte, IsU32, ok,
}
use raknet_shim.Bits.{BitWrite, BitWriteLaws, padding}
use raknet_shim.Bits.Digits.{
  length-bits_of, length-le_bits, length-bytes_bits, le_bits, bits_of, bytes_bits,
}
use raknet_shim.Packet.{
  Packet, Reliability, unreliable, unreliable_sequenced, reliable, reliable_ordered,
}
use raknet_shim.Raknet.RangeList
use raknet_shim.Raknet.Comp.{byte_at}
use raknet_shim.Raknet.Comp.Layout.{compressed_bits, loop_bits}
use raknet_shim.Raknet.Packet.{RaknetPacket, ReliabilityData, bit_length}
use raknet_shim.Raknet.Packet.Layout.{
  Fits, packet_bits, head_bits, rel_bits, ordering_bits, split_bits,
}
use raknet_shim.Raknet.Send.{
  SendPart, max_packet_size, header_len, message_number, rel_data, whole_packet, outgoing,
  process_outgoing_packets, packet_datagram,
}
use raknet_shim.Raknet.Send.Layout.{acks_bits, datagram_bits, packet_datagram-bits}
use raknet_shim.Raknet.Send.Bounds.{Counts, Bounded, process_outgoing_packets-Bounded}

-- A compressed `u16` that is no byte takes 17 bits.
length-compressed_u16 : (v : ℕ) → 2 ^ 8 ≤ v → v < 2 ^ 16 → length (compressed_bits 2 v) ≡ 17
unfolding compressed_bits loop_bits
length-compressed_u16 v h l =
    let high : (byte_at v 1 == 0) ≡ false = ground arith in
    rw high (omega (arith, length-le_bits 2 v))

-- The bits before the data of a whole packet.
abbrev ordering_size : ReliabilityData → ℕ
ordering_size (ReliabilityData.unreliable_sequenced ord) = 37
ordering_size (ReliabilityData.reliable_ordered ord) = 37
ordering_size _ = 0

length-rel_bits : (rel : ReliabilityData) → length (rel_bits rel) ≡ 3 + ordering_size rel
unfolding rel_bits ordering_bits bits_of
length-rel_bits (ReliabilityData.unreliable) = omega (arith, length-bits_of 3 0)
length-rel_bits (ReliabilityData.unreliable_sequenced ord) = omega (
  arith,
  length-append (bits_of 3 1) (bits_of 5 0 ++ le_bits 4 ord),
  length-append (bits_of 5 0) (le_bits 4 ord),
  length-bits_of 3 1,
  length-bits_of 5 0,
  length-le_bits 4 ord,
)
length-rel_bits (ReliabilityData.reliable) = omega (arith, length-bits_of 3 2)
length-rel_bits (ReliabilityData.reliable_ordered ord) = omega (
  arith,
  length-append (bits_of 3 3) (bits_of 5 0 ++ le_bits 4 ord),
  length-append (bits_of 5 0) (le_bits 4 ord),
  length-bits_of 3 3,
  length-bits_of 5 0,
  length-le_bits 4 ord,
)

length-head_bits :
    (p : RaknetPacket)
    → p.split_packet_info ≡ none
    → 2 ^ 5 ≤ length p.bytes
    → length p.bytes < 2 ^ 13
    → length (head_bits p) ≡ 53 + ordering_size p.rel_data
unfolding head_bits split_bits
length-head_bits p whole long short =
    let size = compressed_bits 2 (bit_length p.bytes) in
    let compressed = length-compressed_u16 (bit_length p.bytes) (omega arith) (omega arith) in
    rw whole (
      omega (
        arith,
        length-append (le_bits 4 p.message_number) (rel_bits p.rel_data ++ ((false ∷ []) ++ size)),
        length-append (rel_bits p.rel_data) ((false ∷ []) ++ size),
        length-le_bits 4 p.message_number,
        length-rel_bits p.rel_data,
        compressed,
      ))

length-packet_bits :
    (n : ℕ) (p : RaknetPacket)
    → p.split_packet_info ≡ none
    → 2 ^ 5 ≤ length p.bytes
    → length p.bytes < 2 ^ 13
    → n + length (packet_bits n p)
      ≡ (n + 53 + ordering_size p.rel_data + 7) / 8 * 8 + 8 * length p.bytes
unfolding packet_bits padding
length-packet_bits n p whole long short =
    let fill = (8 - (n + length (head_bits p)) % 8) % 8 in
    omega (
      arith,
      length-head_bits p whole long short,
      length-append (head_bits p) (replicate fill false ++ bytes_bits p.bytes),
      length-append (replicate fill false) (bytes_bits p.bytes),
      length-replicate fill false,
      length-bytes_bits p.bytes,
    )

-- The datagram, with nothing to acknowledge before the packet.
length-datagram :
    {W : Type 0} ⦃bw : BitWrite W⦄ (ws : BitWriteLaws bw) (p : RaknetPacket) (time : ℕ)
    → Fits p
    → IsU32 time
    → p.split_packet_info ≡ none
    → 2 ^ 5 ≤ length p.bytes
    → (bytes : List ℕ) × (packet_datagram W p RangeList.new time ≡ ok bytes)
      × (length bytes ≡ (62 + ordering_size p.rel_data) / 8 + length p.bytes)
unfolding datagram_bits acks_bits RangeList.new
length-datagram ws p time fits t whole long =
    let (bytes, made, _, all) = packet_datagram-bits ws p RangeList.new time fits (omega arith) t in
    let size = length-packet_bits 2 p whole long fits.short in
    (bytes, made, omega (arith, size, ap length all, length-bytes_bits bytes))

-- The size of the largest packet of a kind that goes whole, and what is in front of its data.
largest_lem :
    (rel : Reliability) (s : SendPart) (n : ℕ)
    → header_len rel false + n ≡ max_packet_size
    → (2 ^ 5 ≤ n) × ((62 + ordering_size (rel_data rel s).0) / 8 + n ≡ max_packet_size + 2)
unfolding header_len rel_data
largest_lem unreliable s n e = omega arith
largest_lem unreliable_sequenced s n e = omega arith
largest_lem reliable s n e = omega arith
largest_lem reliable_ordered s n e = omega arith

module _ {W : Type 0} ⦃bw : BitWrite W⦄ (ws : BitWriteLaws bw) where
  -- Let a packet of bytes be as long as the code allows a packet to be that goes whole. Then it goes
  -- whole, and the datagram of it, even with nothing to acknowledge, has two bytes more than the
  -- largest datagram.
  pub packet_datagram-oversized :
      (p : Packet) (s : SendPart) (time : ℕ)
      → Counts s
      → IsU32 time
      → All IsByte p.bytes
      → header_len p.reliability false + length p.bytes ≡ max_packet_size
      → (x : RaknetPacket) × (bytes : List ℕ) × ((process_outgoing_packets (p ∷ []) s).0 ≡ x ∷ [])
        × (packet_datagram W x RangeList.new time ≡ ok bytes)
        × (length bytes ≡ max_packet_size + 2)
  unfolding process_outgoing_packets outgoing whole_packet
  packet_datagram-oversized p s time c t octets e =
      let whole : ltb max_packet_size (header_len p.reliability false + length p.bytes) ≡ false =
        ground arith in
      let s₁ = (rel_data p.reliability s).1 in
      let x : RaknetPacket = record {
        message_number = (message_number s₁).0;
        rel_data = (rel_data p.reliability s).0;
        split_packet_info = none;
        bytes = p.bytes;
      } in
      let one : (process_outgoing_packets (p ∷ []) s).0 ≡ x ∷ [] = rw whole refl in
      let bounded =
        (process_outgoing_packets-Bounded (p ∷ []) s c ((omega (arith, e), octets), tt)).0 in
      let fits : All Bounded (x ∷ []) = rw one at bounded in
      let (long, size) = largest_lem p.reliability s (length p.bytes) e in
      let (bytes, made, length_lem) = length-datagram ws x time fits.0.fits t refl long in
      (x, bytes, one, made, length_lem ∙ size)
