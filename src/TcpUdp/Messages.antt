-- ===== src/TcpUdp/Messages.antt =====
-- The messages that `receive_tcp` of src/tcpudp/mod.rs takes from a stream, from one call to the next.
use raknet_shim.Prelude.{
  ℕ, zero, suc, ◌<◌, ◌≡◌, inl, inr, refl, ap, ◌∙◌, List, [], ◌∷◌, ◌++◌, append_assoc, append-nil,
  length, length-append, arith, ok, would_block,
}
use raknet_shim.Packet.{Packet, reliable_ordered}
use raknet_shim.TcpUdp.{Tcp, BufferOffset, receive_tcp, from_le_bytes, emptied}
use raknet_shim.TcpUdp.Framing.{TcpLaws}
use raknet_shim.TcpUdp.Rounds.{partial, IsPartial, partial-shorter, round_lem}

-- The packets, each with its length before it, make up the bytes.
abbrev pub Framed : List Packet → List ℕ → Type 0
Framed [] bytes = bytes ≡ []
Framed (p ∷ ps) bytes =
    (header rest : List ℕ) × (length header ≡ 4)
    × (from_le_bytes header ≡ length p.bytes)
    × (p.reliability ≡ reliable_ordered)
    × (bytes ≡ header ++ (p.bytes ++ rest))
    × Framed ps rest

regroup : (a b c d : List ℕ) → a ++ (b ++ (c ++ d)) ≡ (a ++ (b ++ c)) ++ d
regroup a b c d = simp append_assoc

module _ {T : Type 0} ⦃tcp : Tcp T⦄ (laws : TcpLaws tcp) where
  open laws use {pending}

  -- Let a message have come in part, and let the stream have some bytes to give, in pieces of any
  -- size, before it has none for now. With as many rounds as there are bytes, and one more,
  -- `receive_tcp` ends with `WouldBlock`, and the packets that it adds are exactly those whose
  -- messages, one after the other, make up the bytes that had come before and those that came now,
  -- but for a last message of which something is still missing, and which is kept.
  pub receive_tcp_lem :
      (fuel : ℕ) (p : BufferOffset) (t : T) (packets : List Packet)
      → IsPartial p
      → length (pending t) < fuel
      → (left : BufferOffset) × (after : T) × (new : List Packet) × (messages : List ℕ)
        × (receive_tcp fuel p t packets ≡ ok (would_block, (left, after, packets ++ new)))
        × Framed new messages
        × (partial p ++ pending t ≡ messages ++ partial left)
        × IsPartial left
        × (pending after ≡ [])
  receive_tcp_lem zero p t packets h enough = absurd (omega arith)
  receive_tcp_lem (suc fuel) p t packets h enough = elim (round_lem laws fuel p t packets h) [
    | inr s ↦ (
      s.left,
      s.after,
      [],
      [],
      s.result ∙ rw (append-nil packets) refl,
      refl,
      s.bytes,
      s.is_partial,
      s.rest,
    )
    | inl r ↦
        let shorter =
          partial-shorter p r.left (pending t) _ p.reading_length refl h r.four r.announced
            r.bytes in
        let less : length (pending r.after) < length (pending t) = omega (
          arith,
          shorter,
          r.four,
          ap length r.bytes,
          length-append (partial p) (pending t),
          length-append r.left.length_bytes (r.left.buffer ++ pending r.after),
          length-append r.left.buffer (pending r.after),
        ) in
        let pkt : Packet = record { reliability = reliable_ordered; bytes = r.left.buffer } in
        let (left, after, new, messages, e, framed, bytes, part, rest) =
          receive_tcp_lem fuel (emptied r.left) r.after (packets ++ (pkt ∷ []))
            (record { four = r.four; missing = omega arith }) (omega (arith, less, enough)) in
        (
          left,
          after,
          pkt ∷ new,
          r.left.length_bytes ++ (r.left.buffer ++ messages),
          r.result ∙ e ∙ rw (append_assoc packets (pkt ∷ []) new) refl,
          (r.left.length_bytes, messages, r.four, r.announced, refl, refl, framed),
          r.bytes
              ∙ ap (λ x. r.left.length_bytes ++ (r.left.buffer ++ x)) bytes
              ∙ regroup r.left.length_bytes r.left.buffer messages (partial left),
          part,
          rest,
        )
  ]
