-- ===== src/Raknet/Recv/Sequenced/Tests.antt =====
-- Sequenced packets about the wrap-around, of which one comes late and one twice, and an ordered one.
use raknet_shim.Prelude.{ℕ, ◌≡◌, refl, List, [], ◌∷◌, map, none, false, arith, ok}
use raknet_shim.Prelude.Map.{lookup}
use raknet_shim.Prelude.Newest.{newest, Ascending}
use raknet_shim.Raknet.Packet.{RaknetPacket, reliable_ordered}
use raknet_shim.Raknet.Recv.{ReceivePart, Receiving, is_disconnect, process_incoming_packets}
use raknet_shim.Raknet.Recv.Sequenced.{sequenced}
use raknet_shim.Raknet.Recv.Sequenced.Newest.{
  Arrival, update, other, positions, rak_packet, sent_as, process_incoming_packets-newest,
}

abbrev position_bytes : ℕ → List ℕ
position_bytes k = 83 ∷ k ∷ []

abbrev ordered_one : RaknetPacket
ordered_one = record {
  message_number = 4;
  rel_data = reliable_ordered 0;
  split_packet_info = none;
  bytes = 83 ∷ 7 ∷ [];
}

abbrev at_the_end : ReceivePart
at_the_end = record {
  unrel_seq_index = 0xffff_ffff;
  rel_ord_index = 0;
  out_of_order_packets = [];
  split_packet_queue = [];
}

abbrev arrivals : List Arrival
arrivals = update 3 1 ∷ other ordered_one ∷ update 2 0 ∷ update 3 1 ∷ update 5 2 ∷ []

arrivals_kept : newest 0 (positions arrivals) ≡ 1 ∷ 2 ∷ []
unfolding newest
arrivals_kept = refl

process_incoming_packets-newest_example :
    (t : Receiving) × (process_incoming_packets
        (map (rak_packet 0xffff_ffff position_bytes) arrivals)
        at_the_end
        (record { ranges = [] })
        false
      ≡ ok t)
    × (sequenced t.packets
        ≡ map (sent_as 0xffff_ffff position_bytes) (newest 0 (positions arrivals)))
    × Ascending 0 (newest 0 (positions arrivals))
unfolding is_disconnect lookup
process_incoming_packets-newest_example =
    process_incoming_packets-newest position_bytes (λ _. 2) arrivals at_the_end
      (record { ranges = [] }) false
      (
        (omega arith, refl),
        (tt, ((omega arith, refl), ((omega arith, refl), ((omega arith, refl), tt)))),
      )
      (tt, (tt, (tt, (tt, (tt, tt))))) (λ id ps e. cc) (omega arith) (λ j p e. cc)
