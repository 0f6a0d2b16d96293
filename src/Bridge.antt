-- ===== src/Bridge.antt =====
-- `Bridge` of src/bridge.rs: between a RakNet connection and a TcpUdp connection, and `Shim`, its
-- fields and its constructor, of src/main.rs, which the bridge calls.
pub mod Receive
pub mod Upstream
pub mod Patch
pub mod Relay
pub mod Redirect
pub mod Short
pub mod Commands
pub mod Example
mod Tests
use raknet_shim.Prelude.{
  ℕ, zero, suc, ◌+◌, ◌-◌, ◌≡◌, Bool, true, false, ◌&&◌, Option, none, some, List, [], ◌∷◌, ◌++◌,
  length, take, drop, get_or, ltb, leb, ◌==◌, if◌then◌else◌, Outcome, ErrorKind, ok, err, panic,
  stuck,
}
use raknet_shim.Prelude as P
use raknet_shim.Prelude.Io.{Io, pure, lift, ◌>>=◌}
use raknet_shim.Prelude.Table.{Eq, Table, get}
use raknet_shim.Prelude.Text.{bytes_of}
use raknet_shim.Bits.{BitWrite, BitRead}
use raknet_shim.Packet.{Packet}
use raknet_shim.Strings.{Utf8, Write, read_fix, write_fix}
use raknet_shim.Raknet.Send as Send
use raknet_shim.Raknet.Connection as RakConn
use raknet_shim.TcpUdp as TcpUdpConn
use raknet_shim.TcpUdp.Connect.{Network}

-- The standard library's socket addresses: their equality, the port, and how a host and a port, or
-- one text, are made addresses; what `to_socket_addrs().unwrap().next().unwrap()` gives, so that a
-- failure is a panic.
pub record SocketAddrs (A : Type 0) : Type 0 where
  pub eq : Eq A
  pub port : A → ℕ
  pub resolve : List ℕ → ℕ → Outcome A
  pub parse : List ℕ → Outcome A

-- A UDP socket `S` of the standard library that does not block: `recv_from` gives a datagram and its
-- sender, or an error.
pub data Received (A : Type 0) : Type 0 where
  came : List ℕ → A → Received A
  failed : ErrorKind → Received A

pub record UdpSocket (A S : Type 0) : Type 0 where
  pub local_addr : S → Outcome A
  pub recv_from : S → Received A × S
  pub send_to : List ℕ → A → S → Outcome (Unit {0}) × S
  -- whether another handle to the same socket can be had
  pub try_clone : S → Outcome (Unit {0})

-- The sockets that the operating system, `O`, opens for the program: a UDP socket `S` for RakNet, and
-- the two sockets of a TcpUdp connection (`network`).
pub record Sockets (A S T U O : Type 0) : Type 0 where
  pub bind : A → Io O S
  pub set_nonblocking : S → Io O S
  pub network : Network A T U O

-- `endio`'s reads and writes of a `u16` in a slice: the number at its front, and the slice with the
-- number in front.
pub record Shorts : Type 0 where
  pub read_u16 : List ℕ → Outcome ℕ
  pub write_u16 : ℕ → List ℕ → Outcome (List ℕ)

-- `io::Write` of a `&mut [u8]`: what was written, and what of the slice is left. A write is cut where
-- the slice ends.
abbrev pub Slice : Type 0
Slice = List ℕ × List ℕ

abbrev pub write_slice : List ℕ → Slice → Outcome Slice
write_slice bytes (written, rest) =
    ok (written ++ take (length rest) bytes, drop (length bytes) rest)

abbrev pub slice_writer : Write Slice
slice_writer = record { write = write_slice }

-- `address` is the field of the connection's `SendPart`, and `tcp` and `udp` those of the TcpUdp
-- connection.
pub record Bridge (A T U : Type 0) : Type 0 where
  pub address : A
  pub raknet : RakConn.Connection
  pub tcpudp : TcpUdpConn.Connection
  pub tcp : T
  pub udp : U

pub record Shim (A S T U : Type 0) : Type 0 where
  pub connect_addr : A
  pub raknet : S
  pub bridges : Table A (Bridge A T U)

pub data ShimCommand (A S T U : Type 0) : Type 0 where
  new_shim : A → Shim A S T U → ShimCommand A S T U

-- `host == "localhost"`
unfoldable pub equal_bytes : List ℕ → List ℕ → Bool
equal_bytes [] [] = true
equal_bytes (x ∷ xs) (y ∷ ys) = let rest = equal_bytes xs ys in (x == y) && rest
equal_bytes _ _ = false

abbrev pub localhost : List ℕ
localhost = bytes_of "localhost"

abbrev pub loopback : List ℕ
loopback = bytes_of "127.0.0.1"

-- The slices where a packet holds a host and its port: a login response, or a redirection.
pub redirect_at : List ℕ → Option (ℕ × ℕ)
redirect_at bytes =
    let at = λ (i : ℕ). get_or bytes i 0 in
    if ltb 8 (length bytes) && (at 0 == 83) && (at 1 == 5)
    then (if at 3 == 0
        then (if (at 8 == 1) && ltb 413 (length bytes) then some (345, 411) else none)
        else if at 3 == 14
        then some (8, 8 + 33)
        else none)
    else none

-- The bytes after a host was written at a position.
pub write_host : List ℕ → ℕ → List ℕ → Outcome (List ℕ)
write_host host i bytes =
    P.◌>>=◌ (write_fix ⦃io = slice_writer⦄ host (take i bytes, drop i bytes))
      (λ (written, rest). ok (written ++ rest))

module _ ⦃shorts : Shorts⦄ where
  pub write_port : ℕ → ℕ → List ℕ → Outcome (List ℕ)
  write_port port i bytes =
      P.◌>>=◌ (shorts.write_u16 port (drop i bytes)) (λ rest. ok (take i bytes ++ rest))

  module _ ⦃utf8 : Utf8⦄ {A : Type 0} ⦃addresses : SocketAddrs A⦄ where
    -- The address that the packet names, where the host and the port stand at `i` and `j`.
    pub read_addr : ℕ → ℕ → List ℕ → Outcome A
    read_addr i j bytes = P.◌>>=◌ (read_fix (drop i bytes)) (λ (host, _).
        P.◌>>=◌ (shorts.read_u16 (drop j bytes))
          (λ port. addresses.resolve (if equal_bytes host localhost then loopback else host) port))

  module _ {A : Type 0} ⦃addresses : SocketAddrs A⦄ where
    pub write_addr : A → ℕ → ℕ → List ℕ → Outcome (List ℕ)
    write_addr addr i j bytes =
        P.◌>>=◌ (write_host loopback i bytes) (λ bytes'. write_port (addresses.port addr) j bytes')

module _ {A S T U : Type 0} ⦃socket : UdpSocket A S⦄ where
  -- `Shim::local_addr`
  unfoldable pub local_addr : Shim A S T U → Outcome A
  local_addr shim = socket.local_addr shim.raknet

module _ {A S T U O : Type 0} ⦃sockets : Sockets A S T U O⦄ where
  -- `Shim::new`
  unfoldable pub new_listening : A → A → Io O (Shim A S T U)
  new_listening listen_addr connect_addr = sockets.bind listen_addr >>= λ raknet.
      sockets.set_nonblocking raknet >>= λ raknet'.
      pure (record { connect_addr = connect_addr; raknet = raknet'; bridges = [] })

module _ {A S T U O : Type 0} ⦃addresses : SocketAddrs A⦄ ⦃socket : UdpSocket A S⦄
    ⦃sockets : Sockets A S T U O⦄ where
  -- A new shim, as the command for it, and the address where it listens.
  pub new_relay : A → Io O (A × List (ShimCommand A S T U))
  new_relay connect_addr = lift (addresses.parse (bytes_of "127.0.0.1:0")) >>= λ listen_addr.
      new_listening listen_addr connect_addr >>= λ shim.
      lift (local_addr shim) >>= λ addr. pure (addr, new_shim connect_addr shim ∷ [])

  -- The relay for an address: one that is known, or a new one.
  pub relay_for : Table A A → A → Io O (A × List (ShimCommand A S T U))
  relay_for addrs connect_addr = elim (get ⦃eq = addresses.eq⦄ connect_addr addrs) [
    | some addr ↦ pure (addr, [])
    | none ↦ new_relay connect_addr
  ]

  module _ ⦃shorts : Shorts⦄ ⦃utf8 : Utf8⦄ where
    pub redirect : Table A A → ℕ → ℕ → Packet → Io O (Packet × List (ShimCommand A S T U))
    redirect addrs i j packet = lift (read_addr i j packet.bytes) >>= λ connect_addr.
        relay_for addrs connect_addr >>= λ (addr, cmds).
        lift (write_addr addr i j packet.bytes) >>= λ bytes.
        pure (record packet { bytes = bytes }, cmds)

    -- The loop's body.
    pub scan_packet : Table A A → Packet → Io O (Packet × List (ShimCommand A S T U))
    scan_packet addrs packet = elim (redirect_at packet.bytes) [
      | none ↦ pure (packet, [])
      | some (i, j) ↦ redirect addrs i j packet
    ]

    unfoldable pub scan_packets :
        Table A A → List Packet → Io O (List Packet × List (ShimCommand A S T U))
    scan_packets addrs [] = pure ([], [])
    scan_packets addrs (packet ∷ packets) = scan_packet addrs packet >>= λ (packet', cmds).
        scan_packets addrs packets >>= λ (packets', cmds'). pure (packet' ∷ packets', cmds ++ cmds')
