-- ===== src/Raknet/Transfer/Acknowledged.antt =====
-- What src/raknet/recv.rs takes in is acknowledged in the next datagram of src/raknet/send.rs.
mod Tests
use raknet_shim.Prelude.{
  append_assoc, ℕ, ◌^◌, ◌<◌, ◌≡◌, ◌↔◌, inl, inr, refl, ap, ◌∙◌, Bool, true, false, List, [], ◌∷◌,
  ◌++◌, length, arith, Outcome, ok, IsU32, All, if◌then◌else◌,
}
use raknet_shim.Bits.{BitWrite, BitWriteLaws, BitRead, BitReadLaws, Takes}
use raknet_shim.Bits.Read.{◌>>=◌, pure, Takes->>=}
use raknet_shim.Raknet.RangeList
use raknet_shim.Raknet.RangeList.{Range, RangeList}
use raknet_shim.Raknet.RangeList.Codec.{deserialize-Reads}
use raknet_shim.Raknet.RangeList.Insert.{Covers, Among, AllNew, insert_all_lem}
use raknet_shim.Raknet.RangeList.Written.{insert_all_written}
use raknet_shim.Raknet.Packet.{RaknetPacket}
use raknet_shim.Raknet.Packet.Layout.{Fits}
use raknet_shim.Raknet.Transfer.Listed.{read_listed, read_listed-Takes}
use raknet_shim.Raknet.Recv.{ReceivePart, Receiving, process_incoming_packets}
use raknet_shim.Raknet.Recv.Returns.{SplitFits, QueueFits}
use raknet_shim.Raknet.Recv.Acks.{reliable_numbers, process_incoming_packets-acks}
use raknet_shim.Raknet.Send.{packet_datagram}
use raknet_shim.Raknet.Send.Layout.{AcksFit, listed, acks_bits, datagram_bits, packet_datagram-bits}

module _ {W R : Type 0} ⦃bw : BitWrite W⦄ ⦃br : BitRead R⦄ (ws : BitWriteLaws bw)
    (rs : BitReadLaws br) where
  -- Let packets come in at a connection that has nothing to acknowledge, their reliable ones with
  -- different message numbers below `u32::max_value()` and fewer than 2 ^ 16 of them, and the split
  -- ones announced each with one count for its id, of two or more, that is above the index. Then the
  -- call returns, and the datagram of any packet that fits its fields is made with what is to be
  -- acknowledged then; who reads the start of that datagram gets ranges that cover exactly the
  -- reliable packets' message numbers.
  pub packet_datagram-Acknowledges :
      (count_of : ℕ → ℕ) (ps : List RaknetPacket) (part : ReceivePart) (closed : Bool)
      (p : RaknetPacket) (time : ℕ)
      → All (λ x. SplitFits count_of x.split_packet_info) ps
      → QueueFits count_of part.split_packet_queue
      → AllNew (reliable_numbers ps) []
      → length (reliable_numbers ps) < 2 ^ 16
      → Fits p
      → IsU32 time
      → (t : Receiving) × (bytes : List ℕ) × (acks : RangeList) × (left : R)
        × (process_incoming_packets ps part (listed []) closed ≡ ok t)
        × (packet_datagram W p t.acks time ≡ ok bytes)
        × (read_listed (br.new_reader bytes) ≡ ok (acks, left))
        × ((x : ℕ) → Covers x acks.ranges ↔ Among x (reliable_numbers ps))
  unfolding datagram_bits
  packet_datagram-Acknowledges count_of ps part closed p time split queue new few fits u32 =
      let (t, e, acked) =
        process_incoming_packets-acks count_of ps part (listed []) closed split queue in
      let fit : AcksFit t.acks = rw acked (insert_all_written (reliable_numbers ps) new few) in
      let (bytes, e', octets, all) = packet_datagram-bits ws p t.acks time fits fit u32 in
      let (left, e'', _) =
        read_listed-Takes rs t.acks.ranges time (br.new_reader bytes) _ fit u32
          (rs.rest-new_reader bytes octets ∙ all) in
      let (_, _, covered) = insert_all_lem (reliable_numbers ps) (listed []) tt tt new in
      (
        t,
        bytes,
        t.acks,
        left,
        e,
        e',
        e'',
        λ x. rw acked (
          (λ c. elim ((covered x).0 c) [ inl none_there ↦ absurd none_there | inr a ↦ a ]),
          λ a. (covered x).1 (inr a),
        ),
      )
