-- ===== src/Raknet/Transfer/AnyOrder.antt =====
-- The parts of a packet (`split_chunks` of src/raknet/send.rs), taken in by src/raknet/recv.rs in any
-- order.
pub mod Split
mod Tests
use raknet_shim.Prelude.{
  ℕ, zero, suc, ◌+◌, ◌<◌, ◌≡◌, ◌≢◌, refl, sym, ap, ◌∙◌, true, false, Bool, Bool-cases, inl, inr,
  Option, none, some, List, [], ◌∷◌, ◌++◌, length, replicate, get_elem?, All, arith, ltb, lt→ltb,
  ◌==◌, ==_iff, if◌then◌else◌, Outcome, ok, ◌>>=◌,
}
use mathlib.Core.List.{flatten}
use raknet_shim.Prelude.Map.{Map, lookup, insert, remove, lookup-insert, lookup-remove}
use raknet_shim.Raknet.Packet.{RaknetPacket, ReliabilityData, SplitPacketInfo}
use raknet_shim.Raknet.Recv.{
  Receiving, Parts, put_part, is_ready, assembled, split_entry, join_split, reassemble, entered,
  deliver, process_all,
}
use raknet_shim.Raknet.Recv.Joined.{
  reassemble-split, process_all-step, process_all-nil, deliver_joined-some, deliver_joined-none,
}
use raknet_shim.Raknet.Recv.Reordered.{
  Matches, missing, Awaited, Distinct, is_ready-missing, is_ready_complete, Matches-none,
  missing-none, Awaited-none, put_part-Matches, no_parts,
}

-- A run on parts that ends where a joined packet with the data `bytes` is passed on, and leaves the
-- other split packets alone.
pub record JoinsOne (id : ℕ) (rel : ReliabilityData) (bytes : List ℕ) (r : Receiving)
    (o : Outcome Receiving) : Type 0 where
  pub joined : RaknetPacket
  pub start : Receiving
  pub returns : o ≡ ok (deliver joined start)
  pub joined_rel : joined.rel_data ≡ rel
  pub joined_bytes : joined.bytes ≡ bytes
  pub sequenced : start.part.unrel_seq_index ≡ r.part.unrel_seq_index
  pub index : start.part.rel_ord_index ≡ r.part.rel_ord_index
  pub ordered : start.part.out_of_order_packets ≡ r.part.out_of_order_packets
  pub no_entry : lookup id start.part.split_packet_queue ≡ none
  pub others :
      (j : ℕ) → id ≢ j → lookup j start.part.split_packet_queue ≡ lookup j r.part.split_packet_queue
  pub packets : start.packets ≡ r.packets
  pub closed : start.closed ≡ r.closed

module _ (id count : ℕ) (rel : ReliabilityData) (cs : List (List ℕ)) (several : 1 < count) where
  -- The part of an index.
  pub record IsPart (i : ℕ) (x : RaknetPacket) : Type 0 where
    pub info : x.split_packet_info ≡ some (record { id = id; index = i; count = count })
    pub rel_lem : x.rel_data ≡ rel
    pub chunk : get_elem? cs i ≡ some x.bytes

  abbrev pub AreParts : List ℕ → List RaknetPacket → Type 0
  AreParts [] [] = Unit {0}
  AreParts (i ∷ is) (x ∷ xs) = IsPart i x × AreParts is xs
  AreParts _ _ = ⊥

  abbrev info_of : ℕ → SplitPacketInfo
  info_of i = record { id = id; index = i; count = count }

  join_split-entry :
      (i : ℕ) (bytes : List ℕ) (queue : Map Parts) (entry : Option Parts)
      → lookup id queue ≡ entry
      → join_split (info_of i) bytes queue ≡ split_entry entry (info_of i) bytes queue
  unfolding join_split
  join_split-entry i bytes queue entry e = rw (lt→ltb 1 count several, e) refl

  -- A part behind which others are still to come, and the last part.
  join_split-waits :
      (i : ℕ) (bytes : List ℕ) (queue : Map Parts) (parts parts' : Parts) (n : ℕ)
      → lookup id queue ≡ some parts
      → put_part i bytes parts ≡ ok parts'
      → missing parts' ≡ suc n
      → join_split (info_of i) bytes queue ≡ ok (none, insert id parts' queue)
  unfolding split_entry
  join_split-waits i bytes queue parts parts' n e put m =
      join_split-entry i bytes queue (some parts) e ∙ rw (put, is_ready-missing parts' n m) refl

  join_split-ends :
      (i : ℕ) (bytes : List ℕ) (queue : Map Parts) (parts parts' : Parts)
      → lookup id queue ≡ some parts
      → put_part i bytes parts ≡ ok parts'
      → Matches parts' cs
      → missing parts' ≡ 0
      → join_split (info_of i) bytes queue ≡ ok (some (flatten cs), remove id queue)
  unfolding split_entry
  join_split-ends i bytes queue parts parts' e put matches m =
      let (ready, all) = is_ready_complete parts' cs matches m in
      join_split-entry i bytes queue (some parts) e ∙ rw (put, ready, all) refl

  found : (v : Parts) (queue : Map Parts) → lookup id (insert id v queue) ≡ some v
  found v queue = lookup-insert id id v queue ∙ rw ((==_iff id id).1 refl) refl

  untouched :
      (v : Parts) (queue : Map Parts) (j : ℕ)
      → id ≢ j
      → lookup j (insert id v queue) ≡ lookup j queue
  untouched v queue j other = ground (arith, lookup-insert id j v queue)

  -- A part that waits for others.
  JoinsOne-behind :
      (x : RaknetPacket) (xs : List RaknetPacket) (parts : Parts) (r : Receiving)
      → reassemble x r.part.split_packet_queue
        ≡ ok (none, insert id parts r.part.split_packet_queue)
      → (let r' = entered x (insert id parts r.part.split_packet_queue) r in
          JoinsOne id rel (flatten cs) r' (process_all xs r'))
      → JoinsOne id rel (flatten cs) r (process_all (x ∷ xs) r)
  JoinsOne-behind x xs parts r now later = record {
    joined = later.joined;
    start = later.start;
    returns =
        process_all-step x xs r now
        ∙ ap (process_all xs)
            (deliver_joined-none x (entered x (insert id parts r.part.split_packet_queue) r))
        ∙ later.returns;
    joined_rel = later.joined_rel;
    joined_bytes = later.joined_bytes;
    sequenced = later.sequenced;
    index = later.index;
    ordered = later.ordered;
    no_entry = later.no_entry;
    others = λ j other. later.others j other ∙ untouched parts r.part.split_packet_queue j other;
    packets = later.packets;
    closed = later.closed;
  }

  -- After the first part.
  rest-JoinsOne :
      (is : List ℕ) (i : ℕ) (xs : List RaknetPacket) (x : RaknetPacket) (parts : Parts)
      (r : Receiving)
      → AreParts (i ∷ is) (x ∷ xs)
      → Distinct (i ∷ is)
      → lookup id r.part.split_packet_queue ≡ some parts
      → Matches parts cs
      → Awaited parts (i ∷ is)
      → missing parts ≡ suc (length is)
      → JoinsOne id rel (flatten cs) r (process_all (x ∷ xs) r)
  rest-JoinsOne [] i (y ∷ xs) x parts r all d e m w n = elim all.1 [ ]
  rest-JoinsOne (j ∷ is) i [] x parts r all d e m w n = elim all.1 [ ]
  rest-JoinsOne [] i [] x parts r all d e m w n =
      let (parts', put, m', _, fewer) = put_part-Matches parts cs i [] x.bytes m all.0.chunk w d in
      let queue = r.part.split_packet_queue in
      let now : reassemble x queue ≡ ok (some (flatten cs), remove id queue) =
        reassemble-split x queue (info_of i) all.0.info
        ∙ join_split-ends i x.bytes queue parts parts' e put m' (omega (arith, n, fewer)) in
      record {
        joined = record x { bytes = flatten cs };
        start = entered x (remove id queue) r;
        returns =
            process_all-step x [] r now
            ∙ process_all-nil _
            ∙ ap ok (deliver_joined-some x (flatten cs) (entered x (remove id queue) r));
        joined_rel = all.0.rel_lem;
        joined_bytes = refl;
        sequenced = refl;
        index = refl;
        ordered = refl;
        no_entry = lookup-remove id id queue ∙ rw ((==_iff id id).1 refl) refl;
        others = λ j other. ground (arith, lookup-remove id j queue);
        packets = refl;
        closed = refl;
      }
  rest-JoinsOne (j ∷ is) i (y ∷ xs) x parts r all d e m w n =
      let (parts', put, m', w', fewer) =
        put_part-Matches parts cs i (j ∷ is) x.bytes m all.0.chunk w d in
      let queue = r.part.split_packet_queue in
      let more : missing parts' ≡ suc (length is) = omega (arith, n, fewer) in
      JoinsOne-behind x (y ∷ xs) parts' r
        (reassemble-split x queue (info_of i) all.0.info
          ∙ join_split-waits i x.bytes queue parts parts' (length is) e put more)
        (rest-JoinsOne is j xs y parts' (entered x (insert id parts' queue) r) all.1 d.1
          (found parts' queue) m' w' more)

  -- All parts, the first of which makes room for the others.
  pub every-JoinsOne :
      (is : List ℕ) (xs : List RaknetPacket) (r : Receiving)
      → count ≡ length cs
      → length is ≡ count
      → All (λ i. i < count) is
      → Distinct is
      → AreParts is xs
      → lookup id r.part.split_packet_queue ≡ none
      → JoinsOne id rel (flatten cs) r (process_all xs r)
  unfolding split_entry
  every-JoinsOne [] xs r n l b d all e = absurd (omega (arith, several, l))
  every-JoinsOne (i ∷ []) xs r n l b d all e = absurd (omega (arith, several, l))
  every-JoinsOne (i ∷ j ∷ is) [] r n l b d all e = elim all [ ]
  every-JoinsOne (i ∷ j ∷ is) (x ∷ []) r n l b d all e = elim all.1 [ ]
  every-JoinsOne (i ∷ j ∷ is) (x ∷ y ∷ xs) r n l b d all e =
      let queue = r.part.split_packet_queue in
      let (parts, put, m, w, fewer) =
        put_part-Matches (no_parts count) cs i (j ∷ is) x.bytes (rw n (Matches-none cs)) all.0.chunk
          (Awaited-none count (i ∷ j ∷ is) b) d in
      let now : reassemble x queue ≡ ok (none, insert id parts queue) =
        reassemble-split x queue (info_of i) all.0.info
        ∙ join_split-entry i x.bytes queue none e
        ∙ rw put refl in
      JoinsOne-behind x (y ∷ xs) parts r now (
        rest-JoinsOne is j xs y parts (entered x (insert id parts queue) r) all.1 d.1
          (found parts queue) m w (omega (arith, missing-none count, fewer, l)))
