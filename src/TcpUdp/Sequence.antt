-- ===== src/TcpUdp/Sequence.antt =====
-- Sequenced packets over UDP (`send` and `receive_udp` of src/tcpudp/mod.rs): the network may lose,
-- repeat and reorder the datagrams.
pub mod Receive
pub mod Delivery
mod Tests
use raknet_shim.Prelude.{
  ℕ, zero, suc, ◌+◌, ◌-◌, ◌%◌, ◌^◌, ◌<◌, ◌≤◌, ◌≡◌, refl, sym, ap, ◌∙◌, Bool, true, false, not,
  Bool-cases, inl, inr, List, [], ◌∷◌, ◌++◌, append_assoc, append-nil, map, length, length-append,
  take, drop, take-append, drop-append, ltb, ltb→lt, if◌then◌else◌, All, arith, Outcome, ok,
  would_block, wrapping_add, wrapping_sub, half_window, ◌>>=◌,
}
use raknet_shim.Prelude.Newest.{number, next_number}
use raknet_shim.Packet.{Packet, unreliable_sequenced}
use raknet_shim.TcpUdp.{
  Tcp, Udp, ReadResult, got, failed, Connection, send, send_one, le_bytes, from_le_bytes, read_into,
  slice, receive_sequenced, receive_by_id, receive_udp, Ended,
}
use raknet_shim.Raknet.Send.{max_packet_size}
use raknet_shim.TcpUdp.Transfer.{from_le_bytes-le_bytes, length-le_bytes}

-- The packets with the numbers from `i` on, `n` of them, with their data.
abbrev pub sequenced : (ℕ → List ℕ) → ℕ → Packet
sequenced src k = record { reliability = unreliable_sequenced; bytes = src k }

unfoldable pub range : ℕ → ℕ → List ℕ
range i zero = []
range i (suc n) = i ∷ range (i + 1) n

-- The datagram of a packet.
unfoldable pub datagram : ℕ → (ℕ → List ℕ) → ℕ → List ℕ
datagram base src k = 1 ∷ (le_bytes 4 (number base k) ++ src k)

-- With its five bytes of header the packet is no longer than `BUF`.
abbrev pub FitsBuf : (ℕ → List ℕ) → ℕ → Type 0
FitsBuf src k = 5 + length (src k) ≤ max_packet_size

pub datagram-fits :
    (base : ℕ) (src : ℕ → List ℕ) (k : ℕ)
    → FitsBuf src k
    → length (datagram base src k) ≤ max_packet_size
unfolding datagram
datagram-fits base src k h =
    omega
      (arith, length-le_bytes 4 (number base k), length-append (le_bytes 4 (number base k)) (src k))

-- A datagram socket that sends every datagram that fits `BUF`: `sent` is what it has sent.
pub record SendsAll {U : Type 0} (udp : Udp U) (sent : U → List (List ℕ)) : Type 0 where
  pub send_lem :
      (bytes : List ℕ) (u : U)
      → length bytes ≤ max_packet_size
      → (u' : U) × (udp.send bytes u ≡ ok u') × (sent u' ≡ sent u ++ (bytes ∷ []))

-- A datagram socket that gives what has come, where it fits the buffer: `pending` is what is still to
-- be given. Of a longer datagram nothing is said.
pub record Gives {U : Type 0} (udp : Udp U) (pending : U → List (List ℕ)) : Type 0 where
  pub recv_none :
      (n : ℕ) (u : U) → pending u ≡ [] → (u' : U) × (udp.recv n u ≡ (failed would_block, u'))
  pub recv_some :
      (n : ℕ) (u : U) (d : List ℕ) (ds : List (List ℕ))
      → pending u ≡ d ∷ ds
      → length d ≤ n
      → (u' : U) × (udp.recv n u ≡ (got d, u')) × (pending u' ≡ ds)

abbrev pub waiting : Connection → ℕ → Connection
waiting c x = record c { seq_num_recv = x }

abbrev pub counted : Connection → ℕ → Connection
counted c x = record c { seq_num_send = x }

module _ {T U : Type 0} ⦃tcp : Tcp T⦄ ⦃udp : Udp U⦄ (base : ℕ) (src : ℕ → List ℕ) where
  send_one-datagram :
      (i : ℕ) (c : Connection) (t : T) (u u' : U)
      → c.seq_num_send ≡ number base i
      → udp.send (datagram base src i) u ≡ ok u'
      → send_one (sequenced src i) c t u ≡ ok (counted c (number base (i + 1)), t, u')
  unfolding send_one datagram
  send_one-datagram i c t u u' e sent =
      let leave : ℕ → Outcome U → Outcome (Connection × T × U) =
        λ x o. o >>= λ v. ok (counted c (wrapping_add x 1), t, v) in
      ap (λ (x : ℕ). leave x (udp.send (1 ∷ (le_bytes 4 x ++ src i)) u)) e
      ∙ ap (leave (number base i)) sent
      ∙ ap (λ (x : ℕ). ok (counted c x, t, u')) (next_number base i)

  module _ (sent : U → List (List ℕ)) (sends : SendsAll udp sent) where
    -- What is sent, in order.
    pub send-datagrams :
        (n i : ℕ) (c : Connection) (t : T) (u : U)
        → c.seq_num_send ≡ number base i
        → ((k : ℕ) → k < i + n → FitsBuf src k)
        → (u' : U) × (send (map (sequenced src) (range i n)) c t u
            ≡ ok (counted c (number base (i + n)), t, u'))
          × (sent u' ≡ sent u ++ map (datagram base src) (range i n))
    unfolding send range
    send-datagrams zero i c t u e fits =
        let same : c.seq_num_send ≡ number base (i + 0) = omega (arith, e) in
        (u, ap (λ (x : ℕ). ok (counted c x, t, u)) same, sym (append-nil (sent u)))
    send-datagrams (suc n) i c t u e fits =
        let (u₁, e₁, s₁) =
          sends.send_lem (datagram base src i) u
            (datagram-fits base src i (fits i (omega arith))) in
        let (u₂, e₂, s₂) =
          send-datagrams n (i + 1) (counted c (number base (i + 1))) t u₁ refl
            (λ k h. fits k (omega arith)) in
        let size : i + 1 + n ≡ i + suc n = omega arith in
        let first = send_one-datagram i c t u u₁ e e₁ in
        (
          u₂,
          ap (λ o. o >>= λ (c', t', u'). send (map (sequenced src) (range (i + 1) n)) c' t' u')
                first
              ∙ e₂
              ∙ ap (λ (m : ℕ). ok (counted c (number base m), t, u₂)) size,
          s₂ ∙ rw s₁ (append_assoc (sent u) _ _),
        )
