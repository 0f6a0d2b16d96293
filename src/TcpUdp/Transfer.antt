-- ===== src/TcpUdp/Transfer.antt =====
-- `send` and `receive_tcp` of src/tcpudp/mod.rs, at the two ends of a TCP connection.
use raknet_shim.Prelude.{
  true, ℕ, zero, suc, ◌%◌, ◌/◌, ◌^◌, ◌<◌, ◌≡◌, ◌⊎◌, inl, inr, refl, sym, ap, ◌∙◌, List, [], ◌∷◌,
  ◌++◌, append_assoc, append-nil, length, length-append, take, drop, take-append, drop-append,
  arith, All, ok, would_block, map,
}
use native.Mathlib.Nat.{pow-suc}
use raknet_shim.Packet.{Packet, reliable, reliable_ordered}
use raknet_shim.TcpUdp.{
  Tcp, Udp, Connection, BufferOffset, receive_tcp, from_le_bytes, le_bytes, new, send_one, send,
}
use raknet_shim.TcpUdp.Framing.{TcpLaws}
use raknet_shim.TcpUdp.Rounds.{partial, IsPartial, partial-shorter}
use raknet_shim.TcpUdp.Messages.{Framed, receive_tcp_lem}

-- A socket that takes all that it is given; `sent` is what it has taken.
pub record TakesAll {T : Type 0} (tcp : Tcp T) : Type 0 where
  pub sent : T → List ℕ
  pub write_all_lem :
      (bytes : List ℕ) (t : T)
      → (t' : T) × (tcp.write_all bytes t ≡ ok t') × (sent t' ≡ sent t ++ bytes)
  pub write_lem :
      (bytes : List ℕ) (t : T)
      → (t' : T) × (tcp.write bytes t ≡ ok (length bytes, t')) × (sent t' ≡ sent t ++ bytes)

-- What goes over TCP, and how it comes out.
abbrev pub IsTcp : Packet → Type 0
IsTcp p =
    ((p.reliability ≡ reliable) ⊎ (p.reliability ≡ reliable_ordered)) × (length p.bytes < 2 ^ 32)

abbrev pub as_ordered : Packet → Packet
as_ordered p = record { reliability = reliable_ordered; bytes = p.bytes }

frames : List Packet → List ℕ
frames [] = []
frames (p ∷ ps) = le_bytes 4 (length p.bytes) ++ (p.bytes ++ frames ps)

pub from_le_bytes-le_bytes : (k v : ℕ) → v < 256 ^ k → from_le_bytes (le_bytes k v) ≡ v
unfolding from_le_bytes le_bytes
from_le_bytes-le_bytes zero v h = omega arith
from_le_bytes-le_bytes (suc k) v h =
    omega (arith, from_le_bytes-le_bytes k (v / 256) (omega (arith, pow-suc 256 k)))

pub length-le_bytes : (k v : ℕ) → length (le_bytes k v) ≡ k
unfolding le_bytes
length-le_bytes zero v = refl
length-le_bytes (suc k) v = ap suc (length-le_bytes k (v / 256))

-- Bytes are cut into messages in one way only.
Framed-unique :
    (qs ps : List Packet) (messages : List ℕ) (left : BufferOffset)
    → All IsTcp qs
    → Framed ps messages
    → IsPartial left
    → frames qs ≡ messages ++ partial left
    → (ps ≡ map as_ordered qs) × (partial left ≡ [])
unfolding frames
Framed-unique [] [] messages left all framed h e = (refl, rw framed at (sym e))
Framed-unique [] (p ∷ ps) messages left all (header, rest, four, size, rel, bytes, more) h e =
    absurd (
      omega (
        arith,
        ap length e,
        ap length bytes,
        length-append messages (partial left),
        length-append header (p.bytes ++ rest),
      ))
Framed-unique (q ∷ qs) [] messages left all framed h e =
    let header = le_bytes 4 (length q.bytes) in
    let whole : BufferOffset = record {
      reading_length = true;
      offset = 0;
      length_bytes = header;
      buffer = q.bytes;
    } in
    let bytes : header ++ (q.bytes ++ frames qs) ≡ partial left = rw framed at e in
    let shorter =
      partial-shorter left whole [] (q.bytes ++ frames qs) left.reading_length refl h
        (length-le_bytes 4 (length q.bytes))
        (from_le_bytes-le_bytes 4 (length q.bytes) (omega (arith, all.0.1)))
        (append-nil (partial left) ∙ sym bytes) in
    absurd (
      omega (
        arith,
        shorter,
        ap length bytes,
        length-append header (q.bytes ++ frames qs),
        length-append q.bytes (frames qs),
        length-le_bytes 4 (length q.bytes),
      ))
Framed-unique (q ∷ qs) (p ∷ ps) messages left all (header, rest, four, size, rel, bytes, more) h e =
    let announced = le_bytes 4 (length q.bytes) in
    let all_bytes : announced ++ (q.bytes ++ frames qs)
        ≡ header ++ (p.bytes ++ (rest ++ partial left)) =
      e ∙ ap (λ m. m ++ partial left) bytes ∙ simp append_assoc in
    let long = length-le_bytes 4 (length q.bytes) in
    let same_header : announced ≡ header =
      sym (take-append 4 announced _ long) ∙ ap (take 4) all_bytes ∙ take-append 4 header _ four in
    let behind : q.bytes ++ frames qs ≡ p.bytes ++ (rest ++ partial left) =
      sym (drop-append 4 announced _ long) ∙ ap (drop 4) all_bytes ∙ drop-append 4 header _ four in
    let same_size : length p.bytes ≡ length q.bytes =
      sym size
      ∙ ap from_le_bytes (sym same_header)
      ∙ from_le_bytes-le_bytes 4 (length q.bytes) (omega (arith, all.0.1)) in
    let n : ℕ = length q.bytes in
    let same_bytes : p.bytes ≡ q.bytes =
      sym (take-append n p.bytes _ same_size)
      ∙ ap (take n) (sym behind)
      ∙ take-append n q.bytes _ refl in
    let same_rest : frames qs ≡ rest ++ partial left =
      sym (drop-append n q.bytes _ refl) ∙ ap (drop n) behind ∙ drop-append n p.bytes _ same_size in
    let same : p ≡ as_ordered q = λ i. record { reliability = rel i; bytes = same_bytes i } in
    let (others, nothing) = Framed-unique qs ps rest left all.1 more h same_rest in
    (λ i. same i ∷ others i, nothing)

module _ {T U : Type 0} ⦃tcp : Tcp T⦄ ⦃udp : Udp U⦄ (takes : TakesAll tcp) where
  open takes use {sent}

  send_one-sent :
      (p : Packet) (c : Connection) (t : T) (u : U)
      → (p.reliability ≡ reliable) ⊎ (p.reliability ≡ reliable_ordered)
      → length p.bytes < 2 ^ 32
      → (t' : T) × (send_one p c t u ≡ ok (c, t', u))
        × (sent t' ≡ sent t ++ (le_bytes 4 (length p.bytes) ++ p.bytes))
  unfolding send_one
  send_one-sent p c t u kind few =
      let (t₁, e₁, s₁) = takes.write_all_lem (le_bytes 4 (length p.bytes % 2 ^ 32)) t in
      let (t₂, e₂, s₂) = takes.write_lem p.bytes t₁ in
      let size : length p.bytes % 2 ^ 32 ≡ length p.bytes = omega (arith, few) in
      let grown = s₂ ∙ ap (λ x. x ++ p.bytes) s₁ ∙ append_assoc (sent t) _ p.bytes in
      (
        t₂,
        elim kind [
          | inl r ↦ rw (r, send_one) (rw (e₁, e₂) refl)
          | inr r ↦ rw (r, send_one) (rw (e₁, e₂) refl)
        ],
        grown ∙ ap (λ n. sent t ++ (le_bytes 4 n ++ p.bytes)) size,
      )

  send-sent :
      (ps : List Packet) (c : Connection) (t : T) (u : U)
      → All IsTcp ps
      → (t' : T) × (send ps c t u ≡ ok (c, t', u)) × (sent t' ≡ sent t ++ frames ps)
  unfolding send frames
  send-sent [] c t u all = (t, refl, sym (append-nil (sent t)))
  send-sent (p ∷ ps) c t u ((kind, few), all) =
      let (t₁, e₁, s₁) = send_one-sent p c t u kind few in
      let (t₂, e₂, s₂) = send-sent ps c t₁ u all in
      (t₂, rw e₁ e₂, s₂ ∙ ap (λ x. x ++ frames ps) s₁ ∙ simp append_assoc)

  module _ {V : Type 0} ⦃peer : Tcp V⦄ (laws : TcpLaws peer) where
    open laws use {pending}

    -- What one side sends over TCP the other side receives. Let packets go over TCP, which the kinds
    -- `Reliable` and `ReliableOrdered` do, of fewer than 2 ^ 32 bytes each, over a socket that takes all
    -- that it is given. Then the send succeeds and leaves the connection as it was; and a new
    -- connection at the other end that has these bytes to read, in pieces of any size, ends with
    -- `WouldBlock` after it received exactly these packets, in order, as `ReliableOrdered`, with
    -- nothing left over.
    pub receive_tcp-send :
        (ps : List Packet) (c : Connection) (t : T) (u : U)
        → All IsTcp ps
        → (t' : T) × (written : List ℕ) × (send ps c t u ≡ ok (c, t', u))
          × (sent t' ≡ sent t ++ written)
          × ((fuel : ℕ) (v : V)
              → pending v ≡ written
              → length written < fuel
              → (left : BufferOffset) × (after : V) × (receive_tcp fuel new.packet v []
                  ≡ ok (would_block, (left, after, map as_ordered ps)))
                × (partial left ≡ []))
    unfolding new
    receive_tcp-send ps c t u all =
        let (t', e, s) = send-sent ps c t u all in
        (
          t',
          frames ps,
          e,
          s,
          λ fuel v came enough.
              let (left, after, packets, messages, r, framed, bytes, part, _) =
                receive_tcp_lem laws fuel new.packet v []
                  (record { four = refl; missing = omega arith })
                  (omega (arith, ap length came, enough)) in
              let (same, nothing) =
                Framed-unique ps packets messages left all framed part (sym came ∙ bytes) in
              (left, after, r ∙ ap (λ x. ok (would_block, (left, after, x))) same, nothing),
        )
