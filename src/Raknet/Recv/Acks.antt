-- ===== src/Raknet/Recv/Acks.antt =====
-- The acknowledgements that `process_incoming_packets` of src/raknet/recv.rs collects.
use raknet_shim.Prelude.{ℕ, ◌≡◌, refl, ap, ◌∙◌, Bool, List, [], ◌∷◌, All, ok}
use raknet_shim.Raknet.RangeList.{RangeList}
use raknet_shim.Raknet.RangeList.Insert.{insert_all}
use raknet_shim.Raknet.Packet.{
  RaknetPacket, ReliabilityData, unreliable, unreliable_sequenced, reliable, reliable_ordered,
}
use raknet_shim.Raknet.Recv.{
  ReceivePart, Receiving, acknowledge, entered, handled, process_all, process_incoming_packets,
}
use raknet_shim.Raknet.Recv.Returns.{
  SplitFits, QueueFits, reassemble-Returns, deliver_joined-queue, deliver_joined-acks,
  process-handled,
}

-- The message numbers of the reliable packets.
abbrev pub with_number : ReliabilityData → ℕ → List ℕ → List ℕ
with_number reliable n ns = n ∷ ns
with_number (reliable_ordered _) n ns = n ∷ ns
with_number _ n ns = ns

abbrev pub reliable_numbers : List RaknetPacket → List ℕ
reliable_numbers [] = []
reliable_numbers (p ∷ ps) = with_number p.rel_data p.message_number (reliable_numbers ps)

insert_all-acknowledge :
    (p : RaknetPacket) (rel : ReliabilityData) (ns : List ℕ) (acks : RangeList)
    → p.rel_data ≡ rel
    → insert_all ns (acknowledge p acks) ≡ insert_all (with_number rel p.message_number ns) acks
unfolding acknowledge insert_all
insert_all-acknowledge p unreliable ns acks e = rw (e, acknowledge) refl
insert_all-acknowledge p (unreliable_sequenced _) ns acks e = rw (e, acknowledge) refl
insert_all-acknowledge p reliable ns acks e = rw (e, acknowledge) refl
insert_all-acknowledge p (reliable_ordered _) ns acks e = rw (e, acknowledge) refl

process_all-acks :
    (count_of : ℕ → ℕ) (ps : List RaknetPacket) (s : Receiving)
    → All (λ p. SplitFits count_of p.split_packet_info) ps
    → QueueFits count_of s.part.split_packet_queue
    → (t : Receiving) × (process_all ps s ≡ ok t)
      × (t.acks ≡ insert_all (reliable_numbers ps) s.acks)
unfolding process_all insert_all
process_all-acks count_of [] s h q = (s, refl, refl)
process_all-acks count_of (p ∷ ps) s h q =
    let (joined, queue, e, kept) = reassemble-Returns count_of p.split_packet_info p _ refl h.0 q in
    let same = deliver_joined-queue p joined (entered p queue s) in
    let acked = deliver_joined-acks p joined (entered p queue s) in
    let (t, e', more) =
      process_all-acks count_of ps (handled p joined queue s) h.1 (rw same kept) in
    (
      t,
      rw (process-handled p s e) e',
      more
          ∙ ap (insert_all (reliable_numbers ps)) acked
          ∙ insert_all-acknowledge p p.rel_data (reliable_numbers ps) s.acks refl,
    )

-- Let each split packet be announced with one count for its id, of two or more, and let its index be
-- below that. Then the call returns, and the message numbers of all reliable packets have been
-- inserted into the acknowledgements, in the order of the packets, also where a packet is not passed
-- on; and no other number has.
pub process_incoming_packets-acks :
    (count_of : ℕ → ℕ) (ps : List RaknetPacket) (part : ReceivePart) (acks : RangeList)
    (closed : Bool)
    → All (λ p. SplitFits count_of p.split_packet_info) ps
    → QueueFits count_of part.split_packet_queue
    → (t : Receiving) × (process_incoming_packets ps part acks closed ≡ ok t)
      × (t.acks ≡ insert_all (reliable_numbers ps) acks)
unfolding process_incoming_packets
process_incoming_packets-acks count_of ps part acks closed h q = process_all-acks count_of ps _ h q
