-- ===== src/Raknet/Send/Parts.antt =====
-- How many parts src/raknet/send.rs makes of a packet, and that a receiver reads their numbers back.
use raknet_shim.Prelude.{
  subst, dec_lt, ℕ, zero, suc, ◌+◌, ◌-◌, ◌*◌, ◌%◌, ◌^◌, ◌≤◌, ◌<◌, ◌≡◌, refl, inl, inr, true, false,
  Bool-cases, List, [], ◌∷◌, length, drop, length-drop, ltb, lt→ltb, arith, All,
}
use raknet_shim.Packet.{
  Packet, Reliability, unreliable, unreliable_sequenced, reliable, reliable_ordered,
}
use raknet_shim.Raknet.Packet.{RaknetPacket, ReliabilityData}
use raknet_shim.Raknet.Packet.RoundTrip.{split_read_as}
use raknet_shim.Raknet.Comp.RoundTrip.{read_as}
use raknet_shim.Raknet.Send.{
  SendPart, max_packet_size, message_number, rel_data, header_len, chunks, chunks_loop,
  split_chunks, split_packet, whole_packet, outgoing, process_outgoing_packets,
}
use raknet_shim.Raknet.Send.Chunks.{chunks_loop-length}
use raknet_shim.Raknet.Send.Bounds.{All-append}

-- All chunks but the last are full.
chunks_loop-few :
    (rounds n : ℕ) (bytes : List ℕ)
    → 0 < n
    → length bytes ≤ rounds
    → length (chunks_loop rounds n bytes) * n < length bytes + n
unfolding chunks_loop
chunks_loop-few rounds n [] pos few = omega arith
chunks_loop-few zero n (b ∷ bytes) pos few = absurd (omega arith)
chunks_loop-few (suc rounds) n (b ∷ bytes) pos few =
    let less : length (drop n (b ∷ bytes)) ≤ rounds = omega (arith, length-drop n (b ∷ bytes)) in
    grind (
      arith,
      length-drop n (b ∷ bytes),
      chunks_loop-few rounds n (drop n (b ∷ bytes)) pos less,
      chunks_loop-length rounds n (drop n (b ∷ bytes)) pos less,
    )

-- A packet that goes in at most 255 parts.
abbrev pub most_bytes : ℕ
most_bytes = 300000

room_lem : (rel : Reliability) → 1178 ≤ max_packet_size - header_len rel true
unfolding header_len
room_lem unreliable = omega arith
room_lem unreliable_sequenced = omega arith
room_lem reliable = omega arith
room_lem reliable_ordered = omega arith

many_parts : (k n size : ℕ) → 1178 ≤ n → size ≤ most_bytes → ¬ (256 + k) * n < size + n
many_parts k n size room few full = grind arith

few_parts :
    (n : ℕ) (bytes : List ℕ)
    → 1178 ≤ n
    → length bytes ≤ most_bytes
    → length (chunks n bytes) < 2 ^ 8
unfolding chunks
few_parts n bytes room few =
    let full = chunks_loop-few (length bytes) n bytes (omega arith) (omega arith) in
    let k = length (chunks_loop (length bytes) n bytes) in few_full k n (length bytes) room few full
  where
    few_full : (k n size : ℕ) → 1178 ≤ n → size ≤ most_bytes → k * n < size + n → k < 2 ^ 8
    few_full k n size room few full = elim (dec_lt k (2 ^ 8)) [
      | yes less ↦ less
      | no more ↦ absurd (
          many_parts (k - 256) n size room few
            (subst (λ (j : ℕ). j * n < size + n) (omega arith) full))
    ]

-- The receiver reads the numbers of a part as they were written.
abbrev pub IsReadBack : RaknetPacket → Type 0
IsReadBack x = split_read_as x.split_packet_info ≡ x.split_packet_info

read_as-small : (v : ℕ) → v < 2 ^ 8 → read_as v ≡ v
read_as-small v h = rw (lt→ltb v (2 ^ 8) h) refl

split_chunks-IsReadBack :
    (rel : ReliabilityData) (id count i : ℕ) (parts : List (List ℕ)) (s : SendPart)
    → count < 2 ^ 8
    → i + length parts ≤ count
    → All IsReadBack (split_chunks rel id count i parts s).0
unfolding split_chunks
split_chunks-IsReadBack rel id count i [] s h few = tt
split_chunks-IsReadBack rel id count i (part ∷ parts) s h few = (
  rw (read_as-small i (omega arith), read_as-small count h) refl,
  split_chunks-IsReadBack rel id count (i + 1) parts (message_number s).1 h (omega arith),
)

outgoing-IsReadBack :
    (p : Packet) (s : SendPart) → length p.bytes ≤ most_bytes → All IsReadBack (outgoing p s).0
unfolding outgoing split_packet whole_packet
outgoing-IsReadBack p s h =
    let rel = (rel_data p.reliability s).0 in
    let s₁ = (rel_data p.reliability s).1 in
    let parts = chunks (max_packet_size - header_len p.reliability true) p.bytes in
    let few =
      few_parts (max_packet_size - header_len p.reliability true) p.bytes (room_lem p.reliability)
        h in
    elim (Bool-cases (ltb max_packet_size (header_len p.reliability false + length p.bytes))) [
      | inl long ↦
          rw (long, outgoing)
            (split_chunks-IsReadBack rel _ (length parts % 2 ^ 32) 0 parts _ (omega (arith, few))
              (omega (arith, few)))
      | inr fits ↦ rw (fits, outgoing) (refl, tt)
    ]

-- Of packets of at most so many bytes, all that is sent is read back as it was written.
pub process_outgoing_packets-IsReadBack :
    (ps : List Packet) (s : SendPart)
    → All (λ p. length p.bytes ≤ most_bytes) ps
    → All IsReadBack (process_outgoing_packets ps s).0
unfolding process_outgoing_packets
process_outgoing_packets-IsReadBack [] s h = tt
process_outgoing_packets-IsReadBack (p ∷ ps) s h =
    All-append IsReadBack (outgoing p s).0 _ (outgoing-IsReadBack p s h.0)
      (process_outgoing_packets-IsReadBack ps (outgoing p s).1 h.1)
