-- ===== src/Raknet/Packet/Tests.antt =====
-- The round trip at a concrete packet, and a packet that the compression misreads.
use raknet_shim.Prelude.{◌%◌, ◌≡◌, Bool, List, [], ◌∷◌, ◌++◌, some, length, arith, ok}
use raknet_shim.Bits.{Takes}
use raknet_shim.Bits.Model.{list_write, list_read, list_write_laws, list_read_laws}
use raknet_shim.Raknet.Packet.{RaknetPacket, reliable_ordered, serialize, deserialize}
use raknet_shim.Raknet.Packet.RoundTrip.{split_read_as, deserialize-serialize_packet}

-- The last of 300 parts.
abbrev part_300 : RaknetPacket
part_300 = record {
  message_number = 7;
  rel_data = reliable_ordered 3;
  split_packet_info = some (record { id = 1; index = 299; count = 300 });
  bytes = 83 ∷ 5 ∷ 255 ∷ [];
}

deserialize-serialize_packet_example :
    (w : List Bool) × (bs : List Bool) × (serialize part_300 [] ≡ ok w)
    × (w ≡ [] ++ bs)
    × ((more r : List Bool)
        → r ≡ bs ++ more
        → length more % 8 ≡ 0
        → Takes
            (λ s. s)
            (deserialize r)
            (record part_300 { split_packet_info = split_read_as part_300.split_packet_info })
            more)
unfolding list_write_laws list_read_laws
deserialize-serialize_packet_example =
    deserialize-serialize_packet list_write_laws list_read_laws part_300 [] (omega arith)
