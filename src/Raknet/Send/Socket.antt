-- ===== src/Raknet/Send/Socket.antt =====
-- What sending (src/raknet/send.rs) leaves alone of a socket, whether it fails or not.
use raknet_shim.Prelude.{arith, ℕ, ◌≡◌, refl, List, [], ◌∷◌, Outcome, ok, err, panic, stuck}
use raknet_shim.Bits.{BitWrite}
use raknet_shim.Packet.{Packet}
use raknet_shim.Raknet.RangeList.{RangeList}
use raknet_shim.Raknet.Packet.{RaknetPacket}
use raknet_shim.Raknet.Send.{
  process_outgoing_packets, packet_datagram, acks_datagram, Udp, SendPart, send_datagram,
  send_packet, send_acks, send_each, send_all, send_packets,
}

-- `look` is what one sees of the socket, and `send_to` does not change it.
module _ (W : Type 0) ⦃bw : BitWrite W⦄ {S X : Type 0} ⦃udp : Udp S⦄ (look : S → X)
    (kept : (bytes : List ℕ) (s : S) → look (udp.send_to bytes s).1 ≡ look s) where
  send_datagram_look :
      (d : Outcome (List ℕ)) (acks : RangeList) (s : S) → look (send_datagram W d acks s).2 ≡ look s
  unfolding send_datagram
  send_datagram_look (ok d) acks s = kept d s
  send_datagram_look (err k) acks s = refl
  send_datagram_look panic acks s = refl
  send_datagram_look stuck acks s = refl

  send_acks_look : (acks : RangeList) (time : ℕ) (s : S) → look (send_acks W acks time s).2 ≡ look s
  unfolding send_acks
  send_acks_look acks time s = ground (arith, send_datagram_look (acks_datagram W acks time) acks s)

  send_each_look :
      (ps : List RaknetPacket) (acks : RangeList) (time : ℕ) (s : S)
      → look (send_each W ps acks time s).2 ≡ look s
  unfolding send_each send_packet
  send_each_look [] acks time s = refl
  send_each_look (p ∷ ps) acks time s =
      let (r, acks', s') = send_datagram W (packet_datagram W p acks time) acks s in
      let first = send_datagram_look (packet_datagram W p acks time) acks s in
      let rest = send_each_look ps acks' time s' in ground (arith, first, rest)

  send_all_look :
      (ps : List RaknetPacket) (acks : RangeList) (time : ℕ) (s : S)
      → look (send_all W ps acks time s).2 ≡ look s
  unfolding send_all
  send_all_look [] acks time s = send_acks_look acks time s
  send_all_look (p ∷ ps) acks time s = send_each_look (p ∷ ps) acks time s

  pub send_packets_look :
      (ps : List Packet) (part : SendPart) (acks : RangeList) (time : ℕ) (s : S)
      → look (send_packets W ps part acks time s).3 ≡ look s
  unfolding send_packets
  send_packets_look ps part acks time s =
      send_all_look (process_outgoing_packets ps part).0 acks time s
