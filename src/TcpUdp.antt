-- ===== src/TcpUdp.antt =====
-- src/tcpudp/mod.rs: the program's packets over TCP and UDP.
pub mod Framing
pub mod Rounds
pub mod Messages
pub mod Transfer
pub mod Sequence
pub mod Malformed
pub mod Receive
pub mod Connect
pub mod Tls
mod Tests
use raknet_shim.Prelude.{
  ℕ, zero, suc, ◌+◌, ◌-◌, ◌*◌, ◌/◌, ◌%◌, ◌^◌, Bool, true, false, Option, none, some, List, [], ◌∷◌,
  ◌++◌, length, take, drop, replicate, ltb, leb, ◌==◌, if◌then◌else◌, Outcome, ok, err, panic,
  stuck, ◌>>=◌, ErrorKind, would_block, unexpected_eof, wrapping_add, wrapping_sub, half_window,
}
use raknet_shim.Packet.{
  Packet, Reliability, unreliable, unreliable_sequenced, reliable, reliable_ordered,
}

-- What a read of a socket gives: some bytes, or an error.
pub data ReadResult : Type 0 where
  got : List ℕ → ReadResult
  failed : ErrorKind → ReadResult

-- The stream socket of the standard library or of `tls.rs`, which does not block: `read` into a
-- buffer of so many bytes, and `write`, which may take fewer bytes than it is given, and says how
-- many; `write_all` is the loop that `endio` writes integers with.
pub record Tcp (T : Type 0) : Type 0 where
  pub read : ℕ → T → ReadResult × T
  pub write : List ℕ → T → Outcome (ℕ × T)
  pub write_all : List ℕ → T → Outcome T

-- The standard library's connected datagram socket, which does not block: `recv` into a buffer of so
-- many bytes gives what it wrote to the buffer of one datagram.
pub record Udp (U : Type 0) : Type 0 where
  pub recv : ℕ → U → ReadResult × U
  pub send : List ℕ → U → Outcome U

-- `u32::from_le_bytes` and its inverse
unfoldable pub from_le_bytes : List ℕ → ℕ
from_le_bytes [] = 0
from_le_bytes (b ∷ bs) = b + 256 * from_le_bytes bs

unfoldable pub le_bytes : ℕ → ℕ → List ℕ
le_bytes zero v = []
le_bytes (suc k) v = v % 256 ∷ le_bytes k (v / 256)

pub record BufferOffset : Type 0 where
  pub reading_length : Bool
  pub offset : ℕ
  pub length_bytes : List ℕ
  pub buffer : List ℕ

-- The sockets stand beside it, as `T` and `U`.
pub record Connection : Type 0 where
  pub seq_num_recv : ℕ
  pub seq_num_send : ℕ
  pub packet : BufferOffset

unfoldable pub new : Connection
new = record {
  seq_num_recv = 0;
  seq_num_send = 0;
  packet = record { reading_length = true; offset = 0; length_bytes = replicate 4 0; buffer = [] };
}

module _ {T U : Type 0} ⦃tcp : Tcp T⦄ ⦃udp : Udp U⦄ where
  unfoldable pub send_one : Packet → Connection → T → U → Outcome (Connection × T × U)
  send_one p c t u = elim p.reliability [
    | unreliable ↦ udp.send (0 ∷ p.bytes) u >>= λ u'. ok (c, t, u')
    | unreliable_sequenced ↦
        let seq_num = c.seq_num_send in
        udp.send (1 ∷ (le_bytes 4 seq_num ++ p.bytes)) u >>= λ u'.
        ok (record c { seq_num_send = wrapping_add c.seq_num_send 1 }, t, u')
    | _ ↦ tcp.write_all (le_bytes 4 (length p.bytes % 2 ^ 32)) t >>= λ t₁.
        tcp.write p.bytes t₁ >>= λ (written, t₂). ok (c, t₂, u)
  ]

  unfoldable pub send : List Packet → Connection → T → U → Outcome (Connection × T × U)
  send [] c t u = ok (c, t, u)
  send (p ∷ ps) c t u = send_one p c t u >>= λ (c', t', u'). send ps c' t' u'

-- How a loop that fills a buffer ends: with the buffer full, or with an error, where the buffer and
-- the offset are left.
pub data Filled (T : Type 0) : Type 0 where
  full : List ℕ → T → Filled T
  partly : ErrorKind → List ℕ → ℕ → T → Filled T
  starved : Filled T

-- The state after a half of the loop's body: going on, or stopped by an error.
pub data Progress (T : Type 0) : Type 0 where
  ready : BufferOffset → T → Progress T
  halted : ErrorKind → BufferOffset → T → Progress T
  lost : Progress T

-- The buffer after a read behind `offset`.
abbrev pub read_into : List ℕ → ℕ → List ℕ → List ℕ
read_into buffer offset bytes = take offset buffer ++ (bytes ++ drop (offset + length bytes) buffer)

-- What a loop that ends with an error leaves: its kind, and the state.
abbrev pub Ended : Type 0 → Type 0
Ended A = Outcome (ErrorKind × A)

-- Behind a whole message the buffer is taken out.
abbrev pub emptied : BufferOffset → BufferOffset
emptied p = record p { reading_length = true; offset = 0; buffer = [] }

module _ {T : Type 0} ⦃tcp : Tcp T⦄ where
  -- `while self.packet.offset < buffer.len()`, with the rounds left. Each round reads a byte or more.
  unfoldable pub fill : ℕ → List ℕ → ℕ → T → Filled T
  fill zero buffer offset t = if ltb offset (length buffer) then starved else full buffer t
  fill (suc rounds) buffer offset t = elim (ltb offset (length buffer)) [
    | false ↦ full buffer t
    | true ↦
        let (result, t') = tcp.read (length buffer - offset) t in
        elim result [
          | failed kind ↦ partly kind buffer offset t'
          | got bytes ↦ elim bytes [
            | [] ↦ partly would_block buffer offset t'
            | b ∷ bs ↦ fill rounds (read_into buffer offset (b ∷ bs)) (offset + length (b ∷ bs)) t'
          ]
        ]
  ]

  -- The two halves of the loop's body: the length, unless it is there already, and the data.
  unfoldable pub read_length : BufferOffset → T → Progress T
  read_length p t = elim p.reading_length [
    | false ↦ ready p t
    | true ↦ elim (fill 4 p.length_bytes p.offset t) [
      | full bytes t' ↦
          ready
            (record {
              reading_length = false;
              offset = 0;
              length_bytes = bytes;
              buffer = replicate (from_le_bytes bytes) 0;
            })
            t'
      | partly kind bytes offset t' ↦
          halted kind (record p { length_bytes = bytes; offset = offset }) t'
      | starved ↦ lost
    ]
  ]

  pub read_data : BufferOffset → T → Progress T
  read_data p t = elim (fill (length p.buffer) p.buffer p.offset t) [
    | full bytes t' ↦ ready (record p { buffer = bytes }) t'
    | partly kind bytes offset t' ↦ halted kind (record p { buffer = bytes; offset = offset }) t'
    | starved ↦ lost
  ]

  -- The loop of `receive_tcp` on fuel: always an error ends it.
  unfoldable pub receive_tcp :
      ℕ → BufferOffset → T → List Packet → Ended (BufferOffset × T × List Packet)
  receive_tcp zero p t packets = stuck
  receive_tcp (suc fuel) p t packets = elim (read_length p t) [
    | lost ↦ stuck
    | halted kind p₁ t₁ ↦ ok (kind, (p₁, t₁, packets))
    | ready p₁ t₁ ↦ elim (read_data p₁ t₁) [
      | lost ↦ stuck
      | halted kind p₂ t₂ ↦ ok (kind, (p₂, t₂, packets))
      | ready p₂ t₂ ↦
          let pkt : Packet = record { reliability = reliable_ordered; bytes = p₂.buffer } in
          receive_tcp fuel (emptied p₂) t₂ (packets ++ (pkt ∷ []))
    ]
  ]

-- One datagram of `len` bytes in `BUF`, which keeps what older datagrams left behind it: a slice up
-- to `len` panics where it would begin behind its end.
unfoldable pub slice : ℕ → ℕ → List ℕ → Outcome (List ℕ)
slice start len buf = if ltb len start then panic else ok (drop start (take len buf))

unfoldable pub receive_sequenced :
    ℕ → List ℕ → Connection → List Packet → Outcome (Connection × List Packet)
receive_sequenced len buf c packets =
    let seq_num = from_le_bytes (take 4 (drop 1 buf)) in
    if ltb (wrapping_sub seq_num c.seq_num_recv) half_window
    then (slice 5 len buf >>= λ bytes. ok (
      record c { seq_num_recv = wrapping_add seq_num 1 },
      packets ++ (record { reliability = unreliable_sequenced; bytes = bytes } ∷ []),
    ))
    else ok (c, packets)

unfoldable pub receive_by_id :
    List ℕ → ℕ → List ℕ → Connection → List Packet → Outcome (Connection × List Packet)
receive_by_id [] len buf c packets = panic
receive_by_id (zero ∷ _) len buf c packets = slice 1 len buf >>= λ bytes.
    ok (c, packets ++ (record { reliability = unreliable; bytes = bytes } ∷ []))
receive_by_id (suc zero ∷ _) len buf c packets = receive_sequenced len buf c packets
receive_by_id (suc (suc _) ∷ _) len buf c packets = panic

module _ {U : Type 0} ⦃udp : Udp U⦄ where
  -- The loop of `receive_udp` on fuel: always an error ends it. `buf` is `BUF`.
  unfoldable pub receive_udp :
      ℕ → List ℕ → Connection → U → List Packet → Ended (List ℕ × Connection × U × List Packet)
  receive_udp zero buf c u packets = stuck
  receive_udp (suc fuel) buf c u packets =
      let (result, u') = udp.recv (length buf) u in
      elim result [
        | failed kind ↦ ok (kind, (buf, c, u', packets))
        | got bytes ↦
            let buf' = read_into buf 0 bytes in
            receive_by_id buf' (length bytes) buf' c packets >>= λ (c', packets').
            receive_udp fuel buf' c' u' packets'
      ]

-- `err.kind() != WouldBlock`
abbrev pub is_would_block : ErrorKind → Bool
is_would_block would_block = true
is_would_block _ = false

-- What `receive` returns, and `BUF`, which an error leaves changed too.
abbrev pub ReceiveResult : Type 0 → Type 0 → Type 0
ReceiveResult T U = Outcome (List Packet × Connection × T × U) × List ℕ

module _ {T U : Type 0} where
  -- Behind `receive_udp`.
  unfoldable pub end_receive :
      T → List ℕ → Ended (List ℕ × Connection × U × List Packet) → ReceiveResult T U
  end_receive t buf (ok (kind, (buf', c, u, packets))) =
      (if is_would_block kind then ok (packets, c, t, u) else err kind, buf')
  end_receive t buf (err kind) = (err kind, buf)
  end_receive t buf panic = (panic, buf)
  end_receive t buf stuck = (stuck, buf)

module _ {T U : Type 0} ⦃udp : Udp U⦄ where
  -- Behind `receive_tcp`.
  unfoldable pub continue_receive :
      ℕ → List ℕ → Connection → U → Ended (BufferOffset × T × List Packet) → ReceiveResult T U
  continue_receive fuel buf c u (ok (kind, (p, t, packets))) =
      if is_would_block kind
      then end_receive t buf (receive_udp fuel buf (record c { packet = p }) u packets)
      else (err kind, buf)
  continue_receive fuel buf c u (err kind) = (err kind, buf)
  continue_receive fuel buf c u panic = (panic, buf)
  continue_receive fuel buf c u stuck = (stuck, buf)

module _ {T U : Type 0} ⦃tcp : Tcp T⦄ ⦃udp : Udp U⦄ where
  -- `receive`, with the fuel for its two loops. After an error the connection is dropped.
  unfoldable pub receive : ℕ → List ℕ → Connection → T → U → ReceiveResult T U
  receive fuel buf c t u = continue_receive fuel buf c u (receive_tcp fuel c.packet t [])
