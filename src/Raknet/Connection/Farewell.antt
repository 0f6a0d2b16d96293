-- ===== src/Raknet/Connection/Farewell.antt =====
-- What dropping a new connection (src/raknet/connection.rs) sends.
use raknet_shim.Prelude.{Outcome, ap, ℕ, ◌≡◌, refl, List, [], ◌∷◌, none, arith, ok}
use raknet_shim.Bits.{BitWrite, BitWriteLaws}
use raknet_shim.Packet.{code, disconnect_notification}
use raknet_shim.Raknet.RangeList
use raknet_shim.Raknet.RangeList.{RangeList}
use raknet_shim.Raknet.Packet.{RaknetPacket, unreliable}
use raknet_shim.Raknet.Send as Send
use raknet_shim.Raknet.Send.{
  Udp, packet_datagram, process_outgoing_packets, outgoing, whole_packet, rel_data, message_number,
  send_packets, send_all, send_each, send_packet, send_datagram, header_len,
}
use raknet_shim.Raknet.Send.Layout.{packet_datagram-bits}
use raknet_shim.Raknet.Connection as RakConn
use raknet_shim.Raknet.Connection.{send, drop, goodbye}

-- The first packet of a connection that says goodbye.
abbrev pub farewell : RaknetPacket
farewell = record {
  message_number = 0;
  rel_data = unreliable;
  split_packet_info = none;
  bytes = code disconnect_notification ∷ [];
}

send_packet-farewell :
    (W : Type 0) ⦃bw : BitWrite W⦄ {S : Type 0} ⦃udp : Udp S⦄ (bytes : List ℕ) (s : S)
    → packet_datagram W farewell RangeList.new 0 ≡ ok bytes
    → (udp.send_to bytes s).0 ≡ ok tt
    → send_packet W farewell RangeList.new 0 s
      ≡ (ok tt, RangeList.clear RangeList.new, (udp.send_to bytes s).1)
unfolding send_packet send_datagram
send_packet-farewell W bytes s e sends = rw (e, send_datagram, sends) refl

drop-sends :
    (W : Type 0) ⦃bw : BitWrite W⦄ {S : Type 0} ⦃udp : Udp S⦄ (bytes : List ℕ) (s : S)
    → packet_datagram W farewell RangeList.new 0 ≡ ok bytes
    → (udp.send_to bytes s).0 ≡ ok tt
    → drop W RakConn.new s ≡ (udp.send_to bytes s).1
unfolding drop send RakConn.new Send.new send_packets process_outgoing_packets outgoing whole_packet
    rel_data message_number send_all send_each header_len
drop-sends W {S} bytes s e sends =
    let sent = send_packet-farewell W bytes s e sends in
    let result = ap (λ (r : Outcome (Unit {0}) × RangeList × S). r.0) sent in
    let socket = ap (λ (r : Outcome (Unit {0}) × RangeList × S). r.2) sent in
    rw (drop, send, send_packets, send_all, send_each, result, socket) refl

-- It sends one datagram, of that packet.
pub drop-new :
    {W : Type 0} ⦃bw : BitWrite W⦄ {S : Type 0} ⦃udp : Udp S⦄ (ws : BitWriteLaws bw) (s : S)
    → (bytes : List ℕ) × (packet_datagram W farewell RangeList.new 0 ≡ ok bytes)
      × (((udp.send_to bytes s).0 ≡ ok tt) → drop W RakConn.new s ≡ (udp.send_to bytes s).1)
unfolding RangeList.new
drop-new {W} ⦃bw⦄ {S} ⦃udp⦄ ws s =
    let (bytes, e, _, _) =
      packet_datagram-bits ws farewell RangeList.new 0
        (record {
          number = omega arith;
          order = tt;
          info = tt;
          short = omega arith;
          octets = omega arith;
        })
        (omega arith) (omega arith) in
    (bytes, e, drop-sends W bytes s e)
