-- ===== src/Raknet/Send/Tests.antt =====
-- A packet that goes whole, and one that is split, from a sender whose counters are about to wrap.
use raknet_shim.Prelude.{
  ◌≡◌, ◌+◌, List, Bool, ok, length, length-replicate, [], ◌∷◌, replicate, arith, All, ℕ, zero, suc,
  IsByte,
}
use raknet_shim.Packet.{Packet, unreliable_sequenced, reliable_ordered}
use raknet_shim.Raknet.Send.{SendPart, process_outgoing_packets}
use raknet_shim.Bits.Model.{list_write, list_write_laws}
use raknet_shim.Raknet.RangeList
use raknet_shim.Raknet.Packet.{RaknetPacket}
use raknet_shim.Raknet.Send.{max_packet_size, header_len, packet_datagram}
use raknet_shim.Packet.{unreliable}
use raknet_shim.Raknet.Send.Oversized.{packet_datagram-oversized}
use raknet_shim.Raknet.Send.Bounds.{Bounded, Counts, process_outgoing_packets-Bounded}

abbrev last_numbers : SendPart
last_numbers = record {
  message_number = 4294967295;
  split_packet_index = 65535;
  unrel_seq_index = 4294967295;
  rel_ord_index = 4294967295;
}

abbrev short_one : Packet
short_one = record { reliability = unreliable_sequenced; bytes = 83 ∷ 1 ∷ [] }

abbrev long_one : Packet
long_one = record { reliability = reliable_ordered; bytes = 83 ∷ replicate 2000 5 }

fives : (n : ℕ) → All IsByte (replicate n 5)
fives zero = tt
fives (suc n) = (omega arith, fives n)

process_outgoing_packets-Bounded_example :
    All Bounded (process_outgoing_packets (short_one ∷ long_one ∷ []) last_numbers).0
    × Counts (process_outgoing_packets (short_one ∷ long_one ∷ []) last_numbers).1
process_outgoing_packets-Bounded_example =
    process_outgoing_packets-Bounded (short_one ∷ long_one ∷ []) last_numbers
      (record {
        number = omega arith;
        split = omega arith;
        sequenced = omega arith;
        ordered = omega arith;
      })
      ((omega arith, omega arith), ((omega arith, (omega arith, fives 2000)), tt))

-- The longest unreliable packet that goes whole.
abbrev longest : Packet
longest = record { reliability = unreliable; bytes = replicate 1195 5 }

packet_datagram-oversized_example :
    (x : RaknetPacket) × (bytes : List ℕ) × ((process_outgoing_packets
        (longest ∷ [])
        last_numbers).0
      ≡ x ∷ [])
    × (packet_datagram (List Bool) x RangeList.new 0 ≡ ok bytes)
    × (length bytes ≡ max_packet_size + 2)
unfolding header_len
packet_datagram-oversized_example =
    packet_datagram-oversized list_write_laws longest last_numbers 0
      (record {
        number = omega arith;
        split = omega arith;
        sequenced = omega arith;
        ordered = omega arith;
      })
      (omega arith) (fives 1195) (omega (arith, length-replicate {A = ℕ} 1195 5))
