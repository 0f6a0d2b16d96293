-- ===== src/Raknet/Transfer/AnyOrder/Split.antt =====
-- `split_packet` of src/raknet/send.rs, and its parts in any order at src/raknet/recv.rs.
use raknet_shim.Prelude.{
  true, ℕ, zero, suc, ◌+◌, ◌-◌, ◌%◌, ◌^◌, ◌<◌, ◌≡◌, refl, sym, ap, ◌∙◌, false, Option, none, some,
  List, [], ◌∷◌, length, get_elem?, All, arith,
}
use raknet_shim.Prelude.Map.{lookup}
use raknet_shim.Packet.{Packet}
use raknet_shim.Raknet.Packet.{RaknetPacket, ReliabilityData, SplitPacketInfo}
use raknet_shim.Raknet.Send.{
  SendPart, message_number, split_packet_index, header_len, max_packet_size, chunks, split_chunks,
  split_packet,
}
use raknet_shim.Raknet.Send.Chunks.{chunks-flatten, chunks-length}
use raknet_shim.Raknet.Send.Bounds.{header_len-lt}
use raknet_shim.Raknet.Recv.{Receiving, process_all}
use raknet_shim.Raknet.Recv.Reordered.{Distinct}
use raknet_shim.Raknet.Transfer.AnyOrder.{JoinsOne, IsPart, AreParts, every-JoinsOne}
use raknet_shim.Raknet.Transfer.Outgoing.{several_chunks}

-- What has come: of the packets that were sent, those at some positions.
abbrev pub AreAt : List RaknetPacket → List ℕ → List RaknetPacket → Type 0
AreAt sent [] [] = Unit {0}
AreAt sent (i ∷ is) (x ∷ xs) = (get_elem? sent i ≡ some x) × AreAt sent is xs
AreAt sent _ _ = ⊥

length-split_chunks :
    (rel : ReliabilityData) (id count k : ℕ) (cs : List (List ℕ)) (s : SendPart)
    → length (split_chunks rel id count k cs s).0 ≡ length cs
unfolding split_chunks
length-split_chunks rel id count k [] s = refl
length-split_chunks rel id count k (c ∷ cs) s =
    ap suc (length-split_chunks rel id count (k + 1) cs (message_number s).1)

abbrev at_index : ℕ → ℕ → ℕ → Option SplitPacketInfo
at_index id count i = some (record { id = id; index = i; count = count })

split_chunks-part :
    (rel : ReliabilityData) (id count k : ℕ) (cs : List (List ℕ)) (s : SendPart) (i : ℕ)
    (x : RaknetPacket)
    → get_elem? (split_chunks rel id count k cs s).0 i ≡ some x
    → (x.split_packet_info ≡ some (record { id = id; index = k + i; count = count }))
      × (x.rel_data ≡ rel)
      × (get_elem? cs i ≡ some x.bytes)
unfolding split_chunks message_number
split_chunks-part rel id count k [] s i x e = cc
split_chunks-part rel id count k (c ∷ cs) s zero x e =
    let first : RaknetPacket = record {
      message_number = s.message_number;
      rel_data = rel;
      split_packet_info = some (record { id = id; index = k; count = count });
      bytes = c;
    } in
    let same : x ≡ first = cc in
    let n : k ≡ k + 0 = omega arith in
    (
      ap (λ (y : RaknetPacket). y.split_packet_info) same ∙ ap (at_index id count) n,
      ap (λ (y : RaknetPacket). y.rel_data) same,
      ap (λ (y : RaknetPacket). some y.bytes) (sym same),
    )
split_chunks-part rel id count k (c ∷ cs) s (suc i) x e =
    let (info, same, chunk) =
      split_chunks-part rel id count (k + 1) cs (message_number s).1 i x e in
    let n : k + 1 + i ≡ k + suc i = omega arith in (info ∙ ap (at_index id count) n, same, chunk)

get_elem?-lt : {A : Type 0} (xs : List A) (i : ℕ) (x : A) → get_elem? xs i ≡ some x → i < length xs
get_elem?-lt [] i x e = cc
get_elem?-lt (y ∷ ys) zero x e = omega arith
get_elem?-lt (y ∷ ys) (suc i) x e = omega (arith, get_elem?-lt ys i x e)

module _ (rel : ReliabilityData) (id count : ℕ) (cs : List (List ℕ)) (s : SendPart)
    (several : 1 < count) where
  AreAt-AreParts :
      (is : List ℕ) (xs : List RaknetPacket)
      → AreAt (split_chunks rel id count 0 cs s).0 is xs
      → AreParts id count rel cs several is xs × All (λ i. i < length cs) is
  AreAt-AreParts [] [] h = (tt, tt)
  AreAt-AreParts [] (x ∷ xs) h = elim h [ ]
  AreAt-AreParts (i ∷ is) [] h = elim h [ ]
  AreAt-AreParts (i ∷ is) (x ∷ xs) h =
      let (info, same, chunk) = split_chunks-part rel id count 0 cs s i x h.0 in
      let (parts, bounds) = AreAt-AreParts is xs h.1 in
      let n : 0 + i ≡ i = omega arith in
      let part : IsPart id count rel cs several i x = record {
        info = info ∙ ap (at_index id count) n;
        rel_lem = same;
        chunk = chunk;
      } in
      ((part, parts), (omega (arith, get_elem?-lt cs i x.bytes chunk), bounds))

-- Let a packet be so long that it is split, but of fewer than 2 ^ 32 bytes, and let all its parts come,
-- each once, in any order, to a receiver that has no entry for its id. Then the receiver takes them in,
-- and this comes to delivering one packet with all the data, in the state that there was before, but
-- for the acknowledgements and for the entries of the queue, of which the other packets' are kept and
-- none is left for this id.
pub split_packet-JoinsOne :
    (rel : ReliabilityData) (p : Packet) (s : SendPart) (is : List ℕ) (xs : List RaknetPacket)
    (r : Receiving)
    → max_packet_size < header_len p.reliability false + length p.bytes
    → length p.bytes < 2 ^ 32
    → AreAt (split_packet rel p s).0 is xs
    → length is ≡ length (split_packet rel p s).0
    → Distinct is
    → lookup s.split_packet_index r.part.split_packet_queue ≡ none
    → JoinsOne s.split_packet_index rel p.bytes r (process_all xs r)
unfolding split_packet split_packet_index
split_packet-JoinsOne rel p s is xs r long few came each once no_entry =
    let n = max_packet_size - header_len p.reliability true in
    let lens = header_len-lt p.reliability in
    let pos : 0 < n = omega (arith, lens) in
    let cs = chunks n p.bytes in
    let size = chunks-length n p.bytes pos in
    let several : 1 < length cs =
      several_chunks (length cs) n (length p.bytes) size.1 (omega (arith, long, lens)) in
    let whole : length cs % 2 ^ 32 ≡ length cs = omega (arith, size, few) in
    let count = length cs % 2 ^ 32 in
    let several' : 1 < count = omega (arith, whole, several) in
    let id = s.split_packet_index in
    let s₁ = (split_packet_index s).1 in
    let (parts, bounds) = AreAt-AreParts rel id count cs s₁ several' is xs came in
    let total = each ∙ length-split_chunks rel id count 0 cs s₁ in
    rw (chunks-flatten n p.bytes pos) at (
      every-JoinsOne id count rel cs several' is xs r whole (total ∙ sym whole)
        (rw (sym whole) at bounds) once parts no_entry)
