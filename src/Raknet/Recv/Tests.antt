-- ===== src/Raknet/Recv/Tests.antt =====
-- The repository's tests of src/raknet/recv.rs, and the theorems at concrete runs.
use raknet_shim.Prelude.{
  ℕ, ◌+◌, ◌%◌, ◌^◌, ◌≡◌, refl, false, none, some, List, [], ◌∷◌, arith, Outcome, ok, ◌>>=◌, map,
}
use raknet_shim.Prelude.Map.{lookup, insert, remove}
use raknet_shim.Packet.{Packet, Reliability}
use raknet_shim.Raknet.RangeList.{RangeList}
use raknet_shim.Raknet.Packet.{RaknetPacket, reliable_ordered, to_packet}
use raknet_shim.Raknet.Recv.{
  ReceivePart, Receiving, default, process_incoming_packets, process_all, process, reassemble,
  join_split, split_entry, put_part, is_ready, assembled, deliver_joined, deliver, is_disconnect,
  dispatch, push, deliver_sequenced, deliver_ordered, release, drain, acknowledge,
}
use raknet_shim.Raknet.RangeList.Insert.{insert_all}
use raknet_shim.Raknet.Recv.Acks.{reliable_numbers, process_incoming_packets-acks}
use raknet_shim.Raknet.Recv.Sent.{ordered, sent}
use raknet_shim.Raknet.Recv.Order.{process_incoming_packets_in_order}

abbrev no_acks : RangeList
no_acks = record { ranges = [] }

rel_ord : ℕ → RaknetPacket
rel_ord index = record {
  message_number = index;
  rel_data = reliable_ordered index;
  split_packet_info = none;
  bytes = index % 256 ∷ [];
}

-- The data of the packets that come out.
passed_on : List RaknetPacket → ReceivePart → Outcome (List (List ℕ))
unfolding process_incoming_packets process_all process reassemble join_split split_entry put_part
    is_ready assembled deliver_joined deliver is_disconnect dispatch push deliver_sequenced
    deliver_ordered release drain acknowledge to_packet lookup insert remove rel_ord default
passed_on ps part =
    process_incoming_packets ps part no_acks false >>= λ s. ok (map (λ p. p.bytes) s.packets)

rel_ord_gap :
    passed_on (rel_ord 5 ∷ rel_ord 1 ∷ rel_ord 0 ∷ []) default ≡ ok ((0 ∷ []) ∷ (1 ∷ []) ∷ [])
unfolding passed_on
rel_ord_gap = refl

rel_ord_overflow_queue_drain :
    passed_on
      (rel_ord 0 ∷ rel_ord 0xffff_ffff ∷ [])
      (record default { rel_ord_index = 0xffff_ffff })
    ≡ ok ((255 ∷ []) ∷ (0 ∷ []) ∷ [])
unfolding passed_on
rel_ord_overflow_queue_drain = refl

abbrev part_of : ℕ → List ℕ → RaknetPacket
part_of i bytes = record {
  message_number = i;
  rel_data = reliable_ordered 0;
  split_packet_info = some (record { id = 0; index = i; count = 2 });
  bytes = bytes;
}

all_split_packets :
    passed_on (part_of 1 (3 ∷ 4 ∷ []) ∷ part_of 0 (0 ∷ 1 ∷ []) ∷ []) default
    ≡ ok ((0 ∷ 1 ∷ 3 ∷ 4 ∷ []) ∷ [])
unfolding passed_on
all_split_packets = refl

start : Receiving
start = record { part = default; acks = no_acks; closed = false; packets = [] }

abbrev source : ℕ → Packet
source k = record { reliability = Reliability.reliable_ordered; bytes = k % 256 ∷ [] }

process_incoming_packets_in_order_example :
    (t : Receiving) × (process_incoming_packets
        (rel_ord 1 ∷ rel_ord 0 ∷ rel_ord 1 ∷ [])
        default
        no_acks
        false
      ≡ ok t)
    × (n : ℕ) × (ordered t.packets ≡ sent source 0 n)
    × (t.part.rel_ord_index ≡ (0 + n) % 2 ^ 32)
    × (lookup t.part.rel_ord_index t.part.out_of_order_packets ≡ none)
unfolding default rel_ord reassemble to_packet lookup
process_incoming_packets_in_order_example =
    process_incoming_packets_in_order source (λ _. 2) (rel_ord 1 ∷ rel_ord 0 ∷ rel_ord 1 ∷ [])
      default no_acks false (λ k. refl) (tt, (tt, (tt, tt))) (λ id ps e. cc)
      (refl, (refl, (refl, tt))) (λ k p e. cc) refl (omega arith)

process_incoming_packets-acks_example :
    (t : Receiving) × (process_incoming_packets
        (rel_ord 5 ∷ rel_ord 1 ∷ rel_ord 5 ∷ [])
        default
        no_acks
        false
      ≡ ok t)
    × (t.acks ≡ insert_all (reliable_numbers (rel_ord 5 ∷ rel_ord 1 ∷ rel_ord 5 ∷ [])) no_acks)
unfolding rel_ord default lookup
process_incoming_packets-acks_example =
    process_incoming_packets-acks (λ _. 2) (rel_ord 5 ∷ rel_ord 1 ∷ rel_ord 5 ∷ []) default no_acks
      false (omega arith) (λ id ps e. cc)
