-- ===== src/Raknet/Recv.antt =====
-- src/raknet/recv.rs: from RakNet packets to the packets that the program passes on.
pub mod Returns
pub mod Ends
pub mod Sent
pub mod Acks
pub mod Order
pub mod Joined
pub mod InSync
pub mod Frame
pub mod Sequenced
pub mod Reordered
mod Tests
use raknet_shim.Prelude.{
  ℕ, zero, suc, Bool, true, false, Option, none, some, List, [], ◌∷◌, ◌++◌, length, replicate, set,
  ltb, ◌==◌, if◌then◌else◌, Outcome, ok, panic, ◌>>=◌, wrapping_add, wrapping_sub, half_window,
}
use raknet_shim.Prelude.Map.{Map, lookup, insert, remove}
use raknet_shim.Packet.{Packet, code, disconnect_notification}
use raknet_shim.Raknet.RangeList
use raknet_shim.Raknet.RangeList.{RangeList}
use raknet_shim.Raknet.Packet.{
  RaknetPacket, SplitPacketInfo, ReliabilityData, unreliable_sequenced, reliable, reliable_ordered,
  to_packet,
}

-- The parts of a split packet that have come, each at its index.
abbrev pub Parts : Type 0
Parts = List (Option (List ℕ))

pub record ReceivePart : Type 0 where
  pub unrel_seq_index : ℕ
  pub rel_ord_index : ℕ
  pub out_of_order_packets : Map Packet
  pub split_packet_queue : Map Parts

-- `Default`
unfoldable pub default : ReceivePart
default = record {
  unrel_seq_index = 0;
  rel_ord_index = 0;
  out_of_order_packets = [];
  split_packet_queue = [];
}

-- What `process_incoming_packets` works on: its arguments, and the packets it will return.
pub record Receiving : Type 0 where
  pub part : ReceivePart
  pub acks : RangeList
  pub closed : Bool
  pub packets : List Packet

pub acknowledge : RaknetPacket → RangeList → RangeList
acknowledge p acks = elim p.rel_data [
  | reliable ↦ RangeList.insert p.message_number acks
  | reliable_ordered _ ↦ RangeList.insert p.message_number acks
  | _ ↦ acks
]

-- `parts[index] = Some(data)`
unfoldable pub put_part : ℕ → List ℕ → Parts → Outcome Parts
put_part index bytes parts =
    if ltb index (length parts) then ok (set parts index (some bytes)) else panic

-- `ready`, and the parts in a row
pub is_ready : Parts → Bool
is_ready [] = true
is_ready (none ∷ parts) = false
is_ready (some _ ∷ parts) = is_ready parts

pub assembled : Parts → List ℕ
assembled [] = []
assembled (none ∷ parts) = assembled parts
assembled (some bytes ∷ parts) = bytes ++ assembled parts

-- The entry of the queue. The option is the data to go on with; `none` is the loop's `continue`.
unfoldable pub split_entry :
    Option Parts → SplitPacketInfo → List ℕ → Map Parts → Outcome (Option (List ℕ) × Map Parts)
split_entry none info bytes queue =
    put_part info.index bytes (replicate info.count none) >>= λ parts.
    ok (none, insert info.id parts queue)
split_entry (some old) info bytes queue = put_part info.index bytes old >>= λ parts. ok (
    if is_ready parts
    then (some (assembled parts), remove info.id queue)
    else (none, insert info.id parts queue))

unfoldable pub join_split :
    SplitPacketInfo → List ℕ → Map Parts → Outcome (Option (List ℕ) × Map Parts)
join_split info bytes queue =
    if ltb 1 info.count then split_entry (lookup info.id queue) info bytes queue else panic

pub reassemble : RaknetPacket → Map Parts → Outcome (Option (List ℕ) × Map Parts)
reassemble p queue = elim p.split_packet_info [
  | none ↦ ok (some p.bytes, queue)
  | some info ↦ join_split info p.bytes queue
]

unfoldable pub is_disconnect : List ℕ → Bool
is_disconnect [] = false
is_disconnect (b ∷ bytes) = b == code disconnect_notification

-- The loop that releases what is queued directly behind a packet, with as many rounds as there are
-- entries: the index, the queue and the packets.
pub drain : ℕ → ℕ → Map Packet → List Packet → ℕ × Map Packet × List Packet
drain zero index queue packets = (index, queue, packets)
drain (suc rounds) index queue packets = elim (lookup index queue) [
  | none ↦ (index, queue, packets)
  | some x ↦ drain rounds (wrapping_add index 1) (remove index queue) (packets ++ (x ∷ []))
]

pub push : Packet → Receiving → Receiving
push p s = record s { packets = s.packets ++ (p ∷ []) }

pub deliver_sequenced : ℕ → Packet → Receiving → Receiving
deliver_sequenced ord p s =
    if ltb (wrapping_sub ord s.part.unrel_seq_index) half_window
    then push p (record s { part = record s.part { unrel_seq_index = wrapping_add ord 1 } })
    else s

-- The packet that was waited for, and those behind it.
pub release : Packet → Receiving → Receiving
release p s =
    let (index, queue, packets) =
      drain (length s.part.out_of_order_packets) (wrapping_add s.part.rel_ord_index 1)
        s.part.out_of_order_packets (s.packets ++ (p ∷ [])) in
    record s {
      part = record s.part { rel_ord_index = index; out_of_order_packets = queue };
      packets = packets;
    }

pub deliver_ordered : ℕ → Packet → Receiving → Receiving
deliver_ordered ord p s =
    if ord == s.part.rel_ord_index
    then release p s
    else if ltb (wrapping_sub ord s.part.rel_ord_index) half_window
    then record s {
      part = record s.part { out_of_order_packets = insert ord p s.part.out_of_order_packets };
    }
    else s

pub dispatch : ReliabilityData → Packet → Receiving → Receiving
dispatch (unreliable_sequenced ord) = deliver_sequenced ord
dispatch (reliable_ordered ord) = deliver_ordered ord
dispatch _ = push

-- A whole packet.
pub deliver : RaknetPacket → Receiving → Receiving
deliver p s =
    if is_disconnect p.bytes
    then record s { closed = true }
    else dispatch p.rel_data (to_packet p) s

pub deliver_joined : RaknetPacket → Option (List ℕ) → Receiving → Receiving
deliver_joined p none s = s
deliver_joined p (some bytes) s = deliver (record p { bytes = bytes }) s

-- The state in which a packet is passed on: acknowledged, with its part in the queue.
abbrev pub entered : RaknetPacket → Map Parts → Receiving → Receiving
entered p queue s = record s {
  acks = acknowledge p s.acks;
  part = record s.part { split_packet_queue = queue };
}

-- The state after a packet that was handled without a panic.
abbrev pub handled : RaknetPacket → Option (List ℕ) → Map Parts → Receiving → Receiving
handled p joined queue s = deliver_joined p joined (entered p queue s)

-- The body of the loop over `rak_packets`.
unfoldable pub process : RaknetPacket → Receiving → Outcome Receiving
process p s =
    reassemble p s.part.split_packet_queue >>= λ (joined, queue). ok (handled p joined queue s)

unfoldable pub process_all : List RaknetPacket → Receiving → Outcome Receiving
process_all [] s = ok s
process_all (p ∷ ps) s = process p s >>= process_all ps

unfoldable pub process_incoming_packets :
    List RaknetPacket → ReceivePart → RangeList → Bool → Outcome Receiving
process_incoming_packets ps part acks closed =
    process_all ps (record { part = part; acks = acks; closed = closed; packets = [] })
