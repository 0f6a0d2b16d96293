-- ===== src/Raknet/Transfer/AnyOrder/Tests.antt =====
-- A packet of two parts, of which the second comes first.
use raknet_shim.Prelude.{
  ℕ, refl, none, List, [], ◌∷◌, replicate, length-replicate, get_or, false, arith,
}
use raknet_shim.Prelude.Map.{lookup}
use raknet_shim.Packet.{Packet, reliable_ordered}
use raknet_shim.Raknet.RangeList
use raknet_shim.Raknet.Packet.{RaknetPacket, ReliabilityData}
use raknet_shim.Raknet.Send as Send
use raknet_shim.Raknet.Send.{
  header_len, split_packet, split_packet_index, split_chunks, message_number, chunks, chunks_loop,
}
use raknet_shim.Raknet.Recv as Recv
use raknet_shim.Raknet.Recv.{Receiving, process_all}
use raknet_shim.Raknet.Transfer.AnyOrder.{JoinsOne}
use raknet_shim.Raknet.Transfer.AnyOrder.Split.{split_packet-JoinsOne}

abbrev big : Packet
big = record { reliability = reliable_ordered; bytes = 83 ∷ replicate 2000 5 }

abbrev nobody : RaknetPacket
nobody = record {
  message_number = 0;
  rel_data = ReliabilityData.reliable;
  split_packet_info = none;
  bytes = [];
}

abbrev came : List RaknetPacket
came =
    let sent = (split_packet (ReliabilityData.reliable_ordered 0) big Send.new).0 in
    get_or sent 1 nobody ∷ get_or sent 0 nobody ∷ []

abbrev waiting : Receiving
waiting = record { part = Recv.default; acks = RangeList.new; closed = false; packets = [] }

split_packet-JoinsOne_example :
    JoinsOne 0 (ReliabilityData.reliable_ordered 0) big.bytes waiting (process_all came waiting)
unfolding header_len split_packet split_packet_index split_chunks message_number chunks chunks_loop
    Send.new Recv.default lookup
split_packet-JoinsOne_example =
    split_packet-JoinsOne (ReliabilityData.reliable_ordered 0) big Send.new (1 ∷ 0 ∷ []) came
      waiting (omega (arith, length-replicate {A = ℕ} 2000 5))
      (omega (arith, length-replicate {A = ℕ} 2000 5)) (refl, (refl, tt)) refl
      ((omega arith, tt), (tt, tt)) refl
