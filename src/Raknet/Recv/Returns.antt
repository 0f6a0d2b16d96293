-- ===== src/Raknet/Recv/Returns.antt =====
-- When `process_incoming_packets` of src/raknet/recv.rs returns: its assertion and its indexing hold.
use raknet_shim.Prelude.{
  ℕ, ◌<◌, ◌≡◌, refl, ap, ◌∙◌, Option, none, some, List, length, length-set, length-replicate,
  replicate, set, arith, Outcome, ok, Bool-cases, inl, inr, lt→ltb,
}
use raknet_shim.Prelude.Map.{Map, lookup, insert, remove, lookup-remove, lookup-insert}
use raknet_shim.Raknet.Packet.{RaknetPacket, SplitPacketInfo}
use raknet_shim.Raknet.Recv.{
  Receiving, Parts, put_part, is_ready, assembled, split_entry, join_split, reassemble, handled,
  process, deliver, deliver_joined, dispatch, push, deliver_sequenced, deliver_ordered, release,
}

-- A split packet is announced with one count for its id, of two or more, and its index is below that.
abbrev pub SplitFits : (ℕ → ℕ) → Option SplitPacketInfo → Type 0
SplitFits count_of none = Unit {0}
SplitFits count_of (some info) =
    (info.count ≡ count_of info.id) × (1 < info.count) × (info.index < info.count)

-- Every entry of the queue has room for that count.
abbrev pub QueueFits : (ℕ → ℕ) → Map Parts → Type 0
QueueFits count_of queue =
    (id : ℕ) (parts : Parts) → lookup id queue ≡ some parts → length parts ≡ count_of id

module _ (count_of : ℕ → ℕ) where
  QueueFits-insert :
      (id : ℕ) (parts : Parts) (queue : Map Parts)
      → length parts ≡ count_of id
      → QueueFits count_of queue
      → QueueFits count_of (insert id parts queue)
  QueueFits-insert id parts queue e h j ps f =
      ground (arith, lookup-insert id j parts queue, h j ps, ap count_of)

  QueueFits-remove :
      (id : ℕ) (queue : Map Parts) → QueueFits count_of queue → QueueFits count_of (remove id queue)
  QueueFits-remove id queue h j ps f = ground (arith, lookup-remove id j queue, h j ps)

  -- A call that returns and leaves such a queue.
  abbrev pub Returns : Outcome (Option (List ℕ) × Map Parts) → Type 0
  Returns o =
      (joined : Option (List ℕ)) × (queue : Map Parts) × (o ≡ ok (joined, queue))
      × QueueFits count_of queue

  put_part-ok :
      (index : ℕ) (bytes : List ℕ) (parts : Parts)
      → index < length parts
      → put_part index bytes parts ≡ ok (set parts index (some bytes))
  unfolding put_part
  put_part-ok index bytes parts h = rw (lt→ltb index (length parts) h)

  split_entry-Returns :
      (entry : Option Parts) (info : SplitPacketInfo) (bytes : List ℕ) (queue : Map Parts)
      → lookup info.id queue ≡ entry
      → SplitFits count_of (some info)
      → QueueFits count_of queue
      → Returns (split_entry entry info bytes queue)
  unfolding split_entry
  split_entry-Returns none info bytes queue e h q =
      let empty : Parts = replicate info.count none in
      let size : length empty ≡ info.count = length-replicate info.count none in
      (
        none,
        insert info.id (set empty info.index (some bytes)) queue,
        rw (put_part-ok info.index bytes empty (omega (arith, size, h.2))),
        QueueFits-insert info.id _ queue (length-set empty info.index (some bytes) ∙ size ∙ h.0) q,
      )
  split_entry-Returns (some old) info bytes queue e h q =
      let parts : Parts = set old info.index (some bytes) in
      let size : length old ≡ count_of info.id = q info.id old e in
      let put = put_part-ok info.index bytes old (omega (arith, size, h.0, h.2)) in
      elim (Bool-cases (is_ready parts)) [
        | inl ready ↦ (
          some (assembled parts),
          remove info.id queue,
          rw (put, ready),
          QueueFits-remove info.id queue q,
        )
        | inr waits ↦ (
          none,
          insert info.id parts queue,
          rw (put, waits),
          QueueFits-insert info.id parts queue (length-set old info.index (some bytes) ∙ size) q,
        )
      ]

  join_split-Returns :
      (info : SplitPacketInfo) (bytes : List ℕ) (queue : Map Parts)
      → SplitFits count_of (some info)
      → QueueFits count_of queue
      → Returns (join_split info bytes queue)
  unfolding join_split
  join_split-Returns info bytes queue h q =
      rw (lt→ltb 1 info.count h.1)
        (split_entry-Returns (lookup info.id queue) info bytes queue refl h q)

  pub reassemble-Returns :
      (split : Option SplitPacketInfo) (p : RaknetPacket) (queue : Map Parts)
      → p.split_packet_info ≡ split
      → SplitFits count_of split
      → QueueFits count_of queue
      → Returns (reassemble p queue)
  unfolding reassemble
  reassemble-Returns none p queue e h q = (some p.bytes, queue, rw (e, reassemble), q)
  reassemble-Returns (some info) p queue e h q =
      rw (e, reassemble) (join_split-Returns info p.bytes queue h q)

-- What `deliver` leaves alone.
pub deliver_joined-queue :
    (p : RaknetPacket) (joined : Option (List ℕ)) (s : Receiving)
    → (deliver_joined p joined s).part.split_packet_queue ≡ s.part.split_packet_queue
unfolding deliver_joined deliver dispatch push deliver_sequenced deliver_ordered release
deliver_joined-queue p none s = refl
deliver_joined-queue p (some bytes) s = ground arith

pub deliver_joined-acks :
    (p : RaknetPacket) (joined : Option (List ℕ)) (s : Receiving)
    → (deliver_joined p joined s).acks ≡ s.acks
unfolding deliver_joined deliver dispatch push deliver_sequenced deliver_ordered release
deliver_joined-acks p none s = refl
deliver_joined-acks p (some bytes) s = ground arith

pub process-handled :
    (p : RaknetPacket) (s : Receiving) {joined : Option (List ℕ)} {queue : Map Parts}
    → reassemble p s.part.split_packet_queue ≡ ok (joined, queue)
    → process p s ≡ ok (handled p joined queue s)
unfolding process
process-handled p s e = rw e
