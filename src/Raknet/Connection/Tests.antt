-- ===== src/Raknet/Connection/Tests.antt =====
-- The datagram of a concrete packet, with acknowledgements before it.
use raknet_shim.Prelude.{
  All, Bool, ℕ, ◌<◌, ◌^◌, ◌≡◌, ◌⊎◌, refl, List, [], ◌∷◌, none, some, arith, ok,
}
use raknet_shim.Prelude as P
use raknet_shim.Bits.Model.{list_write, list_read, list_write_laws, list_read_laws}
use raknet_shim.Raknet.RangeList.{RangeList}
use raknet_shim.Raknet.Packet.{RaknetPacket, reliable_ordered}
use raknet_shim.Raknet.Send.{packet_datagram}
use raknet_shim.Raknet.Recv.{process_incoming_packets}
use raknet_shim.Raknet.Connection as Connected
use raknet_shim.Raknet.Connection.{parse_loop, Connection, parse_packets, received, handle_datagram}
use raknet_shim.Prelude.{stuck, panic, inl}
use raknet_shim.Raknet.Connection.BadSplit.{handle_datagram-panics}
use raknet_shim.Prelude.{◌≤◌, ◌++◌, length, map}
use raknet_shim.Raknet.Connection.{parse_packets}
use raknet_shim.Raknet.Packet.{unreliable}
use raknet_shim.Raknet.Connection.Several.{write_all, parse_packets-write_all}
use raknet_shim.Raknet.Connection.Ends.{handle_datagram-returns}
use raknet_shim.Raknet.Connection.Datagram.{as_read, handle_datagram-packet_datagram}

abbrev ordered_packet : RaknetPacket
ordered_packet = record {
  message_number = 7;
  rel_data = reliable_ordered 0;
  split_packet_info = none;
  bytes = 83 ∷ 5 ∷ 255 ∷ [];
}

abbrev some_acks : RangeList
some_acks = record { ranges = record { min = 3; max = 3 } ∷ record { min = 5; max = 9 } ∷ [] }

handle_datagram-packet_datagram_example :
    (bytes : List ℕ) × (packet_datagram (List Bool) ordered_packet some_acks 1000 ≡ ok bytes)
    × (handle_datagram (List Bool) bytes Connected.new
        ≡ P.◌>>=◌
            (process_incoming_packets
              (as_read ordered_packet ∷ [])
              Connected.new.recv
              Connected.new.acks
              Connected.new.closed)
            (λ t. ok (received Connected.new t)))
handle_datagram-packet_datagram_example =
    handle_datagram-packet_datagram list_write_laws list_read_laws ordered_packet some_acks 1000
      Connected.new
      (record {
        number = omega arith;
        order = omega arith;
        info = tt;
        short = omega arith;
        octets = omega arith;
      })
      (omega arith) (omega arith)

-- A datagram that is cut off in its second packet.
handle_datagram-returns_example :
    ¬ handle_datagram (List Bool) (0 ∷ 0 ∷ 0 ∷ 0 ∷ 5 ∷ 255 ∷ 1 ∷ 2 ∷ 3 ∷ []) Connected.new ≡ stuck
handle_datagram-returns_example =
    handle_datagram-returns list_read_laws (0 ∷ 0 ∷ 0 ∷ 0 ∷ 5 ∷ 255 ∷ 1 ∷ 2 ∷ 3 ∷ []) Connected.new
      (omega arith)

-- A split packet of one part.
abbrev lonely : RaknetPacket
lonely = record ordered_packet {
  split_packet_info = some (record { id = 3; index = 0; count = 1 });
}

handle_datagram-panics_example :
    (bytes : List ℕ) × (packet_datagram (List Bool) lonely some_acks 1000 ≡ ok bytes)
    × (handle_datagram (List Bool) bytes Connected.new ≡ panic)
handle_datagram-panics_example =
    handle_datagram-panics list_write_laws list_read_laws lonely
      (record { id = 3; index = 0; count = 1 }) some_acks 1000 Connected.new
      (record {
        number = omega arith;
        order = omega arith;
        info = (omega arith, omega arith, omega arith);
        short = omega arith;
        octets = omega arith;
      })
      refl (omega arith) (omega arith) refl (inl (omega arith))

-- An ordered packet and an unreliable one in one datagram.
abbrev two_packets : List RaknetPacket
two_packets = ordered_packet ∷ record ordered_packet { rel_data = unreliable } ∷ []

parse_packets-write_all_example :
    (w bs : List Bool) × (write_all two_packets [] ≡ ok w)
    × (w ≡ [] ++ bs)
    × ((bytes : List ℕ) (r : List Bool)
        → r ≡ bs
        → 2 ≤ length bytes
        → parse_packets (List Bool) bytes r ≡ ok (map as_read two_packets))
unfolding list_write_laws list_read_laws
parse_packets-write_all_example =
    parse_packets-write_all list_write_laws list_read_laws two_packets [] (omega arith)
