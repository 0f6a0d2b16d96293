-- ===== src/Raknet/Transfer/Parts.antt =====
-- The parts of one packet (`split_chunks` of src/raknet/send.rs), taken in one after the other.
use raknet_shim.Prelude.{
  ℕ, suc, ◌+◌, ◌<◌, ◌≡◌, refl, ap, ◌∙◌, none, some, List, [], ◌∷◌, ◌++◌, append_assoc, length,
  length-append, arith, Outcome, ok,
}
use mathlib.Core.List.{flatten}
use raknet_shim.Prelude.Map.{Map}
use raknet_shim.Raknet.Packet.{RaknetPacket, ReliabilityData, SplitPacketInfo}
use raknet_shim.Raknet.Send.{SendPart, split_chunks, message_number}
use raknet_shim.Raknet.Recv.{Receiving, deliver, entered, reassemble, process_all, Parts}
use raknet_shim.Raknet.Recv.Joined.{
  filled, join_split-first, join_split-next, join_split-last, reassemble-split, process_all-step,
  process_all-nil, deliver_joined-some, deliver_joined-none,
}

-- A run on parts that ends where a joined packet with the data `bytes` is passed on.
pub record Joins (rel : ReliabilityData) (bytes : List ℕ) (r : Receiving) (o : Outcome Receiving)
    : Type 0 where
  pub joined : RaknetPacket
  pub start : Receiving
  pub returns : o ≡ ok (deliver joined start)
  pub joined_rel : joined.rel_data ≡ rel
  pub joined_bytes : joined.bytes ≡ bytes
  pub part : start.part ≡ record r.part { split_packet_queue = [] }
  pub packets : start.packets ≡ r.packets
  pub closed : start.closed ≡ r.closed

module _ (rel : ReliabilityData) (id count : ℕ) (several : 1 < count) where
  abbrev info_of : ℕ → SplitPacketInfo
  info_of i = record { id = id; index = i; count = count }

  abbrev the_part : ℕ → List ℕ → SendPart → RaknetPacket
  the_part i c s = record {
    message_number = s.message_number;
    rel_data = rel;
    split_packet_info = some (info_of i);
    bytes = c;
  }

  abbrev sent_on : SendPart → SendPart
  sent_on s = (message_number s).1

  rest-Joins :
      (cs rest : List (List ℕ)) (c : List ℕ) (i : ℕ) (s : SendPart) (r : Receiving)
      → i ≡ length cs
      → r.part.split_packet_queue ≡ (id, filled cs (suc (length rest))) ∷ []
      → Joins rel
          (flatten (cs ++ (c ∷ rest)))
          r
          (process_all (split_chunks rel id count i (c ∷ rest) s).0 r)
  unfolding split_chunks message_number
  rest-Joins cs [] c i s r e q =
      let p = the_part i c s in
      let now : reassemble p r.part.split_packet_queue ≡ ok (some (flatten (cs ++ (c ∷ []))), []) =
        reassemble-split p _ _ refl ∙ rw q (join_split-last (info_of i) c several cs e) in
      record {
        joined = record p { bytes = flatten (cs ++ (c ∷ [])) };
        start = entered p [] r;
        returns =
            process_all-step p [] r now ∙ process_all-nil _ ∙ ap ok (deliver_joined-some p _ _);
        joined_rel = refl;
        joined_bytes = refl;
        part = refl;
        packets = refl;
        closed = refl;
      }
  rest-Joins cs (d ∷ rest) c i s r e q =
      let p = the_part i c s in
      let parts = filled (cs ++ (c ∷ [])) (suc (length rest)) in
      let queue : Map Parts = (id, parts) ∷ [] in
      let now : reassemble p r.part.split_packet_queue ≡ ok (none, queue) =
        reassemble-split p _ _ refl
        ∙ rw q (join_split-next (info_of i) c several cs e (length rest)) in
      let size : i + 1 ≡ length (cs ++ (c ∷ [])) = omega (arith, e, length-append cs (c ∷ [])) in
      let later =
        rest-Joins (cs ++ (c ∷ [])) rest d (i + 1) (sent_on s) (entered p queue r) size refl in
      record {
        joined = later.joined;
        start = later.start;
        returns =
            process_all-step p _ r now
            ∙ ap (process_all _) (deliver_joined-none p (entered p queue r))
            ∙ later.returns;
        joined_rel = later.joined_rel;
        joined_bytes = later.joined_bytes ∙ ap flatten (append_assoc cs (c ∷ []) (d ∷ rest));
        part = later.part;
        packets = later.packets;
        closed = later.closed;
      }

  -- The first part makes room for the others.
  all-Joins :
      (c d : List ℕ) (rest : List (List ℕ)) (s : SendPart) (r : Receiving)
      → count ≡ suc (suc (length rest))
      → r.part.split_packet_queue ≡ []
      → Joins rel
          (flatten (c ∷ d ∷ rest))
          r
          (process_all (split_chunks rel id count 0 (c ∷ d ∷ rest) s).0 r)
  unfolding split_chunks message_number
  all-Joins c d rest s r n q =
      let p = the_part 0 c s in
      let queue : Map Parts = (id, filled (c ∷ []) (suc (length rest))) ∷ [] in
      let now : reassemble p r.part.split_packet_queue ≡ ok (none, queue) =
        reassemble-split p _ _ refl
        ∙ rw q (join_split-first (info_of 0) c several (suc (length rest)) refl n) in
      let later = rest-Joins (c ∷ []) rest d 1 (sent_on s) (entered p queue r) refl refl in
      record {
        joined = later.joined;
        start = later.start;
        returns =
            process_all-step p _ r now
            ∙ ap (process_all _) (deliver_joined-none p (entered p queue r))
            ∙ later.returns;
        joined_rel = later.joined_rel;
        joined_bytes = later.joined_bytes;
        part = later.part;
        packets = later.packets;
        closed = later.closed;
      }

  -- Two parts or more, as many as announced.
  pub split_chunks-Joins :
      (chunks : List (List ℕ)) (s : SendPart) (r : Receiving)
      → count ≡ length chunks
      → r.part.split_packet_queue ≡ []
      → Joins rel (flatten chunks) r (process_all (split_chunks rel id count 0 chunks s).0 r)
  split_chunks-Joins [] s r n q = absurd (omega (arith, several, n))
  split_chunks-Joins (c ∷ []) s r n q = absurd (omega (arith, several, n))
  split_chunks-Joins (c ∷ d ∷ rest) s r n q = all-Joins c d rest s r n q

-- Only the message number moves.
pub split_chunks-indices :
    (rel : ReliabilityData) (id count i : ℕ) (chunks : List (List ℕ)) (s : SendPart)
    → ((split_chunks rel id count i chunks s).1.unrel_seq_index ≡ s.unrel_seq_index)
      × ((split_chunks rel id count i chunks s).1.rel_ord_index ≡ s.rel_ord_index)
unfolding split_chunks message_number
split_chunks-indices rel id count i [] s = (refl, refl)
split_chunks-indices rel id count i (c ∷ rest) s =
    split_chunks-indices rel id count (i + 1) rest (message_number s).1
