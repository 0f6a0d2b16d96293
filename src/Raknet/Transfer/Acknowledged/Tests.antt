-- ===== src/Raknet/Transfer/Acknowledged/Tests.antt =====
-- Three packets, of which two are reliable, and the acknowledgement of them.
use raknet_shim.Prelude.{ℕ, ◌≡◌, ◌↔◌, Bool, false, List, [], ◌∷◌, none, arith, ok}
use raknet_shim.Bits.Model.{list_write, list_read, list_write_laws, list_read_laws}
use raknet_shim.Prelude.Map.{lookup}
use raknet_shim.Raknet.RangeList.{RangeList}
use raknet_shim.Raknet.RangeList.Insert.{Covers, Among}
use raknet_shim.Raknet.Packet.{
  RaknetPacket, ReliabilityData, unreliable, reliable, reliable_ordered,
}
use raknet_shim.Raknet.Recv.{default, Receiving, process_incoming_packets}
use raknet_shim.Raknet.Recv.Acks.{reliable_numbers}
use raknet_shim.Raknet.Send.{packet_datagram}
use raknet_shim.Raknet.Transfer.Listed.{read_listed}
use raknet_shim.Raknet.Transfer.Acknowledged.{packet_datagram-Acknowledges}

abbrev incoming : ℕ → ReliabilityData → RaknetPacket
incoming number rel = record {
  message_number = number;
  rel_data = rel;
  split_packet_info = none;
  bytes = 83 ∷ 5 ∷ [];
}

abbrev three_packets : List RaknetPacket
three_packets = incoming 4 (reliable_ordered 0) ∷ incoming 5 unreliable ∷ incoming 2 reliable ∷ []

abbrev answer : RaknetPacket
answer = incoming 9 reliable

packet_datagram-Acknowledges_example :
    (t : Receiving) × (bytes : List ℕ) × (acks : RangeList) × (left : List Bool)
    × (process_incoming_packets three_packets default (record { ranges = [] }) false ≡ ok t)
    × (packet_datagram (List Bool) answer t.acks 1000 ≡ ok bytes)
    × (read_listed (list_read.new_reader bytes) ≡ ok (acks, left))
    × ((x : ℕ) → Covers x acks.ranges ↔ Among x (reliable_numbers three_packets))
unfolding default lookup
packet_datagram-Acknowledges_example =
    packet_datagram-Acknowledges list_write_laws list_read_laws (λ _. 2) three_packets default false
      answer 1000 (tt, (tt, (tt, tt))) (λ id ps e. cc)
      (omega arith, (λ c. c), (omega arith, tt), (omega arith, (λ c. c), tt, tt)) (omega arith)
      (record {
        number = omega arith;
        order = tt;
        info = tt;
        short = omega arith;
        octets = omega arith;
      })
      (omega arith)
