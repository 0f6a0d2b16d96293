-- ===== src/Raknet/Send/Bounds.antt =====
-- The sizes of what src/raknet/send.rs sends: the packets keep within the datagram's size as the code
-- counts it, and within the fields that they are written in.
use raknet_shim.Prelude.{
  ℕ, zero, suc, ◌+◌, ◌-◌, ◌^◌, ◌≤◌, ◌<◌, ◌≡◌, refl, ap, inl, inr, Bool, true, false, Bool-cases,
  Option, none, some, List, [], ◌∷◌, ◌++◌, length, take, drop, ltb, arith, All, IsByte, IsU16,
  IsU32,
}
use raknet_shim.Packet.{
  Packet, Reliability, unreliable, unreliable_sequenced, reliable, reliable_ordered,
}
use raknet_shim.Raknet.Packet.{RaknetPacket, ReliabilityData, SplitPacketInfo, to_reliability}
use raknet_shim.Raknet.Packet.Layout.{Fits, OrderFits}
use raknet_shim.Raknet.Send.{
  SendPart, max_packet_size, message_number, split_packet_index, rel_data, header_len, chunks,
  chunks_loop, split_chunks, split_packet, whole_packet, outgoing, process_outgoing_packets,
}
use raknet_shim.Raknet.Send.Chunks.{chunks-short, chunks-length}

-- The counters are of their types.
pub record Counts (s : SendPart) : Type 0 where
  pub number : IsU32 s.message_number
  pub split : IsU16 s.split_packet_index
  pub sequenced : IsU32 s.unrel_seq_index
  pub ordered : IsU32 s.rel_ord_index

abbrev is_split : Option SplitPacketInfo → Bool
is_split none = false
is_split (some info) = true

abbrev InRange : Option SplitPacketInfo → Type 0
InRange none = Unit {0}
InRange (some info) = info.index < info.count

-- A packet that can be written, that is no larger than a datagram by the code's count of its header,
-- and whose part is one of those that it announces.
pub record Bounded (q : RaknetPacket) : Type 0 where
  pub fits : Fits q
  pub size :
      header_len (to_reliability q.rel_data) (is_split q.split_packet_info) + length q.bytes
      ≤ max_packet_size
  pub part : InRange q.split_packet_info

module _ {A : Type 0} (P : A → Type 0) where
  All-take : (n : ℕ) (xs : List A) → All P xs → All P (take n xs)
  All-take zero xs h = tt
  All-take (suc n) [] h = tt
  All-take (suc n) (x ∷ xs) h = (h.0, All-take n xs h.1)

  All-drop : (n : ℕ) (xs : List A) → All P xs → All P (drop n xs)
  All-drop zero xs h = h
  All-drop (suc n) [] h = tt
  All-drop (suc n) (x ∷ xs) h = All-drop n xs h.1

  pub All-append : (xs ys : List A) → All P xs → All P ys → All P (xs ++ ys)
  All-append [] ys h k = k
  All-append (x ∷ xs) ys h k = (h.0, All-append xs ys h.1 k)

chunks_loop-IsByte :
    (rounds n : ℕ) (bytes : List ℕ)
    → All IsByte bytes
    → All (λ c. All IsByte c) (chunks_loop rounds n bytes)
unfolding chunks_loop
chunks_loop-IsByte rounds n [] h = tt
chunks_loop-IsByte zero n (b ∷ bytes) h = tt
chunks_loop-IsByte (suc rounds) n (b ∷ bytes) h = (
  All-take IsByte n (b ∷ bytes) h,
  chunks_loop-IsByte rounds n (drop n (b ∷ bytes)) (All-drop IsByte n (b ∷ bytes) h),
)

pub header_len-lt :
    (rel : Reliability)
    → (header_len rel false < header_len rel true) × (header_len rel true < max_packet_size)
unfolding header_len
header_len-lt unreliable = omega arith
header_len-lt unreliable_sequenced = omega arith
header_len-lt reliable = omega arith
header_len-lt reliable_ordered = omega arith

rel_data-Counts :
    (rel : Reliability) (s : SendPart)
    → Counts s
    → OrderFits (rel_data rel s).0
      × (to_reliability (rel_data rel s).0 ≡ rel)
      × Counts (rel_data rel s).1
unfolding rel_data to_reliability
rel_data-Counts unreliable s c = (tt, refl, c)
rel_data-Counts unreliable_sequenced s c = (
  c.sequenced,
  refl,
  record { number = c.number; split = c.split; sequenced = omega arith; ordered = c.ordered },
)
rel_data-Counts reliable s c = (tt, refl, c)
rel_data-Counts reliable_ordered s c = (
  c.ordered,
  refl,
  record { number = c.number; split = c.split; sequenced = c.sequenced; ordered = omega arith },
)

numbered-Counts : (s : SendPart) → Counts s → Counts (message_number s).1
unfolding message_number
numbered-Counts s c = record {
  number = omega arith;
  split = c.split;
  sequenced = c.sequenced;
  ordered = c.ordered;
}

split_chunks-Bounded :
    (rel : ReliabilityData) (id count i : ℕ) (parts : List (List ℕ)) (s : SendPart)
    → Counts s
    → OrderFits rel
    → IsU16 id
    → IsU32 count
    → i + length parts ≤ count
    → All (λ c. length c ≤ max_packet_size - header_len (to_reliability rel) true) parts
    → All (λ c. All IsByte c) parts
    → header_len (to_reliability rel) true ≤ max_packet_size
    → All Bounded (split_chunks rel id count i parts s).0
      × Counts (split_chunks rel id count i parts s).1
unfolding split_chunks message_number
split_chunks-Bounded rel id count i [] s c o u w few short octets room = (tt, c)
split_chunks-Bounded rel id count i (part ∷ parts) s c o u w few short octets room =
    let (all, c') =
      split_chunks-Bounded rel id count (i + 1) parts (message_number s).1 (numbered-Counts s c) o u
        w (omega arith) short.1 octets.1 room in
    (
      (
        record {
          fits = record {
            number = c.number;
            order = o;
            info = (u, omega arith, w);
            short = omega (arith, short.0, room);
            octets = octets.0;
          };
          size = omega (arith, short.0, room);
          part = omega arith;
        },
        all,
      ),
      c',
    )

split_packet-Bounded :
    (rel : ReliabilityData) (p : Packet) (s : SendPart)
    → Counts s
    → OrderFits rel
    → to_reliability rel ≡ p.reliability
    → length p.bytes < 2 ^ 32
    → All IsByte p.bytes
    → All Bounded (split_packet rel p s).0 × Counts (split_packet rel p s).1
unfolding split_packet split_packet_index chunks
split_packet-Bounded rel p s c o e few octets =
    let lens = header_len-lt p.reliability in
    let n = max_packet_size - header_len p.reliability true in
    let size = chunks-length n p.bytes (omega (arith, lens)) in
    let same : header_len (to_reliability rel) true ≡ header_len p.reliability true =
      ap (λ r. header_len r true) e in
    split_chunks-Bounded rel s.split_packet_index _ 0 (chunks n p.bytes) (split_packet_index s).1
      (record {
        number = c.number;
        split = omega arith;
        sequenced = c.sequenced;
        ordered = c.ordered;
      })
      o c.split (omega arith) (omega (arith, size, few)) (rw same (chunks-short n p.bytes))
      (chunks_loop-IsByte (length p.bytes) n p.bytes octets) (omega (arith, same, lens))

whole_packet-Bounded :
    (rel : ReliabilityData) (p : Packet) (s : SendPart)
    → Counts s
    → OrderFits rel
    → to_reliability rel ≡ p.reliability
    → header_len p.reliability false + length p.bytes ≤ max_packet_size
    → All IsByte p.bytes
    → All Bounded (whole_packet rel p s).0 × Counts (whole_packet rel p s).1
unfolding whole_packet message_number
whole_packet-Bounded rel p s c o e room octets =
    let same : header_len (to_reliability rel) false ≡ header_len p.reliability false =
      ap (λ r. header_len r false) e in
    (
      (
        record {
          fits = record {
            number = c.number;
            order = o;
            info = tt;
            short = omega (arith, room);
            octets = octets;
          };
          size = omega (arith, same, room);
          part = tt;
        },
        tt,
      ),
      numbered-Counts s c,
    )

-- A packet of bytes, fewer than 2 ^ 32.
abbrev pub IsSized : Packet → Type 0
IsSized p = (length p.bytes < 2 ^ 32) × All IsByte p.bytes

outgoing-Bounded :
    (p : Packet) (s : SendPart)
    → Counts s
    → IsSized p
    → All Bounded (outgoing p s).0 × Counts (outgoing p s).1
unfolding outgoing
outgoing-Bounded p s c h =
    let (o, e, c') = rel_data-Counts p.reliability s c in
    let (rel, s₁) = rel_data p.reliability s in
    elim (Bool-cases (ltb max_packet_size (header_len p.reliability false + length p.bytes))) [
      | inl long ↦ rw (long, outgoing) (split_packet-Bounded rel p s₁ c' o e h.0 h.1)
      | inr fits ↦ rw (fits, outgoing) (whole_packet-Bounded rel p s₁ c' o e (ground arith) h.1)
    ]

-- Of packets of bytes, fewer than 2 ^ 32 each, and from counters within their types, every RakNet
-- packet that is made fits the fields that it is written in, the length of its data in bits is a
-- `u16`, its data and its header, as the code counts the header, are no longer than the largest
-- datagram, and the index of a part is below the count of the parts. The counters stay within their
-- types.
pub process_outgoing_packets-Bounded :
    (ps : List Packet) (s : SendPart)
    → Counts s
    → All IsSized ps
    → All Bounded (process_outgoing_packets ps s).0 × Counts (process_outgoing_packets ps s).1
unfolding process_outgoing_packets
process_outgoing_packets-Bounded [] s c h = (tt, c)
process_outgoing_packets-Bounded (p ∷ ps) s c h =
    let (first, c₁) = outgoing-Bounded p s c h.0 in
    let (rest, c₂) = process_outgoing_packets-Bounded ps (outgoing p s).1 c₁ h.1 in
    (All-append Bounded _ _ first rest, c₂)
