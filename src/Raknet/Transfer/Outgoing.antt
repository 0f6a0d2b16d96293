-- ===== src/Raknet/Transfer/Outgoing.antt =====
-- One packet (`outgoing` of src/raknet/send.rs) on its way through src/raknet/recv.rs.
use raknet_shim.Prelude.{
  subst, ℕ, zero, suc, ◌+◌, ◌-◌, ◌*◌, ◌%◌, ◌<◌, ◌≤◌, ◌^◌, ◌≡◌, refl, sym, ap, subst, ◌∙◌, true,
  false, none, [], length, arith, Outcome, ok, IsU32, ltb, Bool-cases, inl, inr, ltb→lt,
}
use raknet_shim.Packet.{Packet, Reliability}
use raknet_shim.Raknet.Packet.{RaknetPacket, ReliabilityData, to_packet, to_reliability}
use raknet_shim.Raknet.Send.{
  SendPart, rel_data, message_number, split_packet_index, header_len, max_packet_size, chunks,
  split_packet, whole_packet, outgoing,
}
use raknet_shim.Raknet.Send.Chunks.{chunks-flatten, chunks-length}
use raknet_shim.Raknet.Recv.{entered, ReceivePart, Receiving, is_disconnect, deliver, process_all}
use raknet_shim.Raknet.Recv.Joined.{
  reassemble-whole, process_all-step, process_all-nil, deliver_joined-some,
}
use raknet_shim.Raknet.Send.Bounds.{header_len-lt}
use raknet_shim.Raknet.Recv.InSync.{Waits, PassesOn, IsNext, next_seq, next_ord, deliver-PassesOn}
use raknet_shim.Raknet.Transfer.Parts.{Joins, split_chunks-Joins, split_chunks-indices}

-- The receiver waits for what the sender will number next.
abbrev pub InStep : SendPart → ReceivePart → Type 0
InStep s part = IsU32 s.unrel_seq_index × Waits s.unrel_seq_index s.rel_ord_index part

-- A run that returns, passes on `p`, and leaves the receiver in step with the sender.
abbrev pub Delivers : Packet → SendPart → Receiving → Outcome Receiving → Type 0
Delivers p s r o = (t : Receiving) × (o ≡ ok t) × PassesOn p s.unrel_seq_index s.rel_ord_index r t

-- The data under which a packet goes, and the indices behind it.
rel_data-IsNext :
    (rel : Reliability) (s : SendPart)
    → IsU32 s.unrel_seq_index
    → IsNext (rel_data rel s).0 s.unrel_seq_index s.rel_ord_index
      × (to_reliability (rel_data rel s).0 ≡ rel)
      × (next_seq (rel_data rel s).0 s.unrel_seq_index ≡ (rel_data rel s).1.unrel_seq_index)
      × (next_ord (rel_data rel s).0 s.rel_ord_index ≡ (rel_data rel s).1.rel_ord_index)
      × IsU32 (rel_data rel s).1.unrel_seq_index
unfolding rel_data to_reliability
rel_data-IsNext Reliability.unreliable s h = (tt, refl, refl, refl, h)
rel_data-IsNext Reliability.unreliable_sequenced s h = ((refl, h), refl, refl, refl, omega arith)
rel_data-IsNext Reliability.reliable s h = (tt, refl, refl, refl, h)
rel_data-IsNext Reliability.reliable_ordered s h = (refl, refl, refl, refl, h)

-- A whole packet goes as one RakNet packet.
whole_packet-Joins :
    (rel : ReliabilityData) (p : Packet) (s : SendPart) (r : Receiving)
    → r.part.split_packet_queue ≡ []
    → Joins rel p.bytes r (process_all (whole_packet rel p s).0 r)
unfolding whole_packet message_number
whole_packet-Joins rel p s r q =
    let x : RaknetPacket = record {
      message_number = s.message_number;
      rel_data = rel;
      split_packet_info = none;
      bytes = p.bytes;
    } in
    record {
      joined = x;
      start = entered x r.part.split_packet_queue r;
      returns =
          process_all-step x [] r (reassemble-whole x _ refl)
          ∙ process_all-nil _
          ∙ ap ok (deliver_joined-some x _ _);
      joined_rel = refl;
      joined_bytes = refl;
      part = rw q refl;
      packets = refl;
      closed = refl;
    }

pub several_chunks : (k n size : ℕ) → size ≤ k * n → n < size → 1 < k
several_chunks zero n size h l = absurd (omega (arith, h, l))
several_chunks (suc zero) n size h l = absurd (omega (arith, h, l))
several_chunks (suc (suc k)) n size h l = omega arith

-- A long packet goes in two parts or more.
split_packet-Joins :
    (rel : ReliabilityData) (p : Packet) (s : SendPart) (r : Receiving)
    → max_packet_size < header_len p.reliability false + length p.bytes
    → length p.bytes < 2 ^ 32
    → r.part.split_packet_queue ≡ []
    → Joins rel p.bytes r (process_all (split_packet rel p s).0 r)
unfolding split_packet split_packet_index
split_packet-Joins rel p s r long few q =
    let n = max_packet_size - header_len p.reliability true in
    let lens = header_len-lt p.reliability in
    let pos : 0 < n = omega (arith, lens) in
    let size = chunks-length n p.bytes pos in
    let several : 1 < length (chunks n p.bytes) =
      several_chunks _ n (length p.bytes) size.1 (omega (arith, long, lens)) in
    let whole : length (chunks n p.bytes) % 2 ^ 32 ≡ length (chunks n p.bytes) =
      omega (arith, size, few) in
    rw (chunks-flatten n p.bytes pos) at (
      split_chunks-Joins rel s.split_packet_index _ (rw whole several) (chunks n p.bytes)
        (split_packet_index s).1 r whole q)

-- What joins is passed on.
Joins-Delivers :
    (rel : ReliabilityData) (p : Packet) (seq ord : ℕ) (r : Receiving) {o : Outcome Receiving}
    → Joins rel p.bytes r o
    → to_reliability rel ≡ p.reliability
    → is_disconnect p.bytes ≡ false
    → IsNext rel seq ord
    → Waits seq ord r.part
    → (t : Receiving) × (o ≡ ok t) × PassesOn p (next_seq rel seq) (next_ord rel ord) r t
unfolding to_packet
Joins-Delivers rel p seq ord r j e stays next w =
    let waits : Waits seq ord j.start.part =
      rw j.part
        (record { sequenced = w.sequenced; index = w.index; ordered = w.ordered; split = refl }) in
    let on =
      deliver-PassesOn j.joined seq ord j.start (rw j.joined_bytes stays) (rw j.joined_rel next)
        waits in
    let same : to_packet j.joined ≡ p = rw (j.joined_rel, j.joined_bytes, e) refl in
    (
      deliver j.joined j.start,
      j.returns,
      record {
        packets = on.packets ∙ rw (j.packets, same) refl;
        closed = on.closed ∙ j.closed;
        waits =
            subst (λ x. Waits (next_seq x seq) (next_ord x ord) (deliver j.joined j.start).part)
              j.joined_rel on.waits;
      },
    )

-- A packet that can be sent: it is not taken for the end of the connection, and its parts can be
-- counted.
abbrev pub Sendable : Packet → Type 0
Sendable p = (is_disconnect p.bytes ≡ false) × (length p.bytes < 2 ^ 32)

outgoing-Joins :
    (p : Packet) (s : SendPart) (r : Receiving)
    → Sendable p
    → r.part.split_packet_queue ≡ []
    → Joins (rel_data p.reliability s).0 p.bytes r (process_all (outgoing p s).0 r)
unfolding outgoing
outgoing-Joins p s r h q =
    elim (Bool-cases (ltb max_packet_size (header_len p.reliability false + length p.bytes))) [
      | inl long ↦ rw long (split_packet-Joins _ p _ r (ltb→lt _ _ long) h.1 q)
      | inr fits ↦ rw fits (whole_packet-Joins _ p _ r q)
    ]

outgoing-indices :
    (p : Packet) (s : SendPart)
    → ((outgoing p s).1.unrel_seq_index ≡ (rel_data p.reliability s).1.unrel_seq_index)
      × ((outgoing p s).1.rel_ord_index ≡ (rel_data p.reliability s).1.rel_ord_index)
unfolding outgoing split_packet whole_packet split_packet_index message_number
outgoing-indices p s =
    elim (Bool-cases (ltb max_packet_size (header_len p.reliability false + length p.bytes))) [
      | inl long ↦ rw long (split_chunks-indices (rel_data p.reliability s).0 _ _ 0 _ _)
      | inr fits ↦ rw fits (refl, refl)
    ]

pub outgoing-Delivers :
    (p : Packet) (s : SendPart) (r : Receiving)
    → Sendable p
    → InStep s r.part
    → Delivers p (outgoing p s).1 r (process_all (outgoing p s).0 r)
      × IsU32 (outgoing p s).1.unrel_seq_index
outgoing-Delivers p s r h w =
    let (next, kind, seq, ord, bound) = rel_data-IsNext p.reliability s w.0 in
    let (seq', ord') = outgoing-indices p s in
    (
      rw (seq', ord', sym seq, sym ord)
          (Joins-Delivers _ p _ _ r (outgoing-Joins p s r h w.1.split) kind h.0 next w.1),
      rw seq' bound,
    )
