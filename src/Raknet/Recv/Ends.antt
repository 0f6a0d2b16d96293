-- ===== src/Raknet/Recv/Ends.antt =====
-- `process_incoming_packets` of src/raknet/recv.rs ends on any packets.
use raknet_shim.Prelude.{
  ℕ, List, [], ◌∷◌, Option, none, some, ltb, length, if◌then◌else◌, Bool, true, false, Outcome,
  panic, replicate,
}
use raknet_shim.Prelude.Ends.{Ends, Ends->>=}
use raknet_shim.Prelude.Map.{Map, lookup}
use raknet_shim.Raknet.RangeList.{RangeList}
use raknet_shim.Raknet.Packet.{RaknetPacket, SplitPacketInfo}
use raknet_shim.Raknet.Recv.{
  Parts, Receiving, ReceivePart, put_part, split_entry, join_split, reassemble, process,
  process_all, process_incoming_packets,
}

or_panic-Ends : {A : Type 0} (b : Bool) (o : Outcome A) → Ends o → Ends (if b then o else panic)
or_panic-Ends true o h = h
or_panic-Ends false o h = tt

put_part-Ends : (index : ℕ) (bytes : List ℕ) (parts : Parts) → Ends (put_part index bytes parts)
unfolding put_part
put_part-Ends index bytes parts = or_panic-Ends (ltb index (length parts)) _ tt

split_entry-Ends :
    (entry : Option Parts) (info : SplitPacketInfo) (bytes : List ℕ) (queue : Map Parts)
    → Ends (split_entry entry info bytes queue)
unfolding split_entry
split_entry-Ends none info bytes queue =
    Ends->>= _ _ (put_part-Ends info.index bytes (replicate info.count none)) (λ parts. tt)
split_entry-Ends (some old) info bytes queue =
    Ends->>= _ _ (put_part-Ends info.index bytes old) (λ parts. tt)

reassemble_split-Ends :
    (split : Option SplitPacketInfo) (p : RaknetPacket) (queue : Map Parts)
    → Ends (reassemble (record p { split_packet_info = split }) queue)
unfolding reassemble join_split
reassemble_split-Ends none p queue = tt
reassemble_split-Ends (some info) p queue =
    or_panic-Ends (ltb 1 info.count) _ (split_entry-Ends (lookup info.id queue) info p.bytes queue)

process_all-Ends : (ps : List RaknetPacket) (s : Receiving) → Ends (process_all ps s)
unfolding process_all process
process_all-Ends [] s = tt
process_all-Ends (p ∷ ps) s =
    Ends->>= (process p s) _
      (Ends->>= (reassemble p s.part.split_packet_queue) _
        (reassemble_split-Ends p.split_packet_info p s.part.split_packet_queue) (λ joined. tt))
      (process_all-Ends ps)

pub process_incoming_packets-Ends :
    (ps : List RaknetPacket) (part : ReceivePart) (acks : RangeList) (closed : Bool)
    → Ends (process_incoming_packets ps part acks closed)
unfolding process_incoming_packets
process_incoming_packets-Ends ps part acks closed = process_all-Ends ps _
