-- ===== src/Raknet/Connection/BadSplit.antt =====
-- A split packet whose numbers do not fit what is there (src/raknet/recv.rs) ends the program.
use raknet_shim.Prelude.{
  ℕ, ◌≡◌, ◌≤◌, ◌⊎◌, inl, inr, refl, ◌∙◌, false, Option, none, some, List, length, replicate,
  length-replicate, ltb, arith, ok, panic, IsU32,
}
use raknet_shim.Prelude.Map.{Map, lookup}
use raknet_shim.Bits.{BitWrite, BitWriteLaws, BitRead, BitReadLaws}
use raknet_shim.Raknet.RangeList.{RangeList}
use raknet_shim.Raknet.Packet.{RaknetPacket, SplitPacketInfo}
use raknet_shim.Raknet.Packet.Layout.{Fits}
use raknet_shim.Raknet.Send.{packet_datagram}
use raknet_shim.Raknet.Send.Layout.{AcksFit}
use raknet_shim.Raknet.Send.Parts.{IsReadBack}
use raknet_shim.Raknet.Recv.{
  Parts, put_part, split_entry, join_split, reassemble, process, process_all,
  process_incoming_packets,
}
use raknet_shim.Raknet.Recv.Joined.{reassemble-split}
use raknet_shim.Raknet.Connection.{Connection, handle_datagram}
use raknet_shim.Raknet.Connection.Datagram.{as_read, handle_datagram-packet_datagram}

-- How many parts there is room for: as many as the first part with the id announced.
abbrev pub room_of : Option Parts → SplitPacketInfo → ℕ
room_of none info = info.count
room_of (some parts) info = length parts

-- The count is not that of a split packet, or the index is not below the count that was announced
-- first.
abbrev pub IsBad : SplitPacketInfo → Map Parts → Type 0
IsBad info queue = (info.count ≤ 1) ⊎ (room_of (lookup info.id queue) info ≤ info.index)

le→ltb : (a b : ℕ) → b ≤ a → ltb a b ≡ false
le→ltb a b h = ground arith

abbrev nothing : Option (List ℕ)
nothing = none

split_entry-panics :
    (entry : Option Parts) (info : SplitPacketInfo) (bytes : List ℕ) (queue : Map Parts)
    → room_of entry info ≤ info.index
    → split_entry entry info bytes queue ≡ panic
unfolding split_entry put_part
split_entry-panics none info bytes queue h =
    let out : ltb info.index (length (replicate info.count nothing)) ≡ false =
      le→ltb _ _ (omega (arith, h, length-replicate info.count nothing)) in
    rw out refl
split_entry-panics (some parts) info bytes queue h = rw (le→ltb info.index (length parts) h) refl

join_split-panics :
    (info : SplitPacketInfo) (bytes : List ℕ) (queue : Map Parts)
    → IsBad info queue
    → join_split info bytes queue ≡ panic
unfolding join_split
join_split-panics info bytes queue (inl few) = rw (le→ltb 1 info.count few) refl
join_split-panics info bytes queue (inr out) =
    rw (split_entry-panics (lookup info.id queue) info bytes queue out) (ground arith)

module _ {W R : Type 0} ⦃bw : BitWrite W⦄ ⦃br : BitRead R⦄ (ws : BitWriteLaws bw)
    (rs : BitReadLaws br) where
  -- Let a split packet that fits its fields, with numbers that are read back as they were written,
  -- announce one part or none, or have an index that is not below the number of parts that were
  -- announced first for its id. Then there is a datagram of it, with any acknowledgements before it,
  -- and a connection that handles this datagram panics, whatever state it is in.
  pub handle_datagram-panics :
      (p : RaknetPacket) (info : SplitPacketInfo) (acks : RangeList) (time : ℕ) (c : Connection)
      → Fits p
      → IsReadBack p
      → AcksFit acks
      → IsU32 time
      → p.split_packet_info ≡ some info
      → IsBad info c.recv.split_packet_queue
      → (bytes : List ℕ) × (packet_datagram W p acks time ≡ ok bytes)
        × (handle_datagram R bytes c ≡ panic)
  unfolding process_incoming_packets process_all process
  handle_datagram-panics p info acks time c fits back a t e bad =
      let (bytes, made, handled) = handle_datagram-packet_datagram ws rs p acks time c fits a t in
      let gone : reassemble (as_read p) c.recv.split_packet_queue ≡ panic =
        reassemble-split (as_read p) _ info (back ∙ e)
        ∙ join_split-panics info p.bytes c.recv.split_packet_queue bad in
      (bytes, made, handled ∙ rw gone refl)
