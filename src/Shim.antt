-- ===== src/Shim.antt =====
-- src/main.rs: `Shim`, the RakNet server for the clients of one remote address, and the main loop.
pub mod Face
pub mod Isolation
pub mod Answer
pub mod Open
pub mod Named
pub mod Main
mod Tests
use raknet_shim.Prelude.{
  ℕ, zero, suc, Bool, true, false, ◌&&◌, ◌||◌, Option, none, some, List, [], ◌∷◌, ◌++◌, length,
  take, get_or, leb, ◌==◌, if◌then◌else◌, Outcome, ok, err, panic, stuck, ErrorKind, would_block,
  connection_reset,
}
use raknet_shim.Prelude as P
use raknet_shim.Prelude.Io.{Io, pure, lift, ◌>>=◌}
use raknet_shim.Prelude.Table.{Table, get, insert, remove}
use raknet_shim.Prelude.Text.{bytes_of}
use raknet_shim.Bits.{BitWrite, BitRead}
use raknet_shim.Packet.{
  MessageType, code, open_connection_request, open_connection_reply, no_free_incoming_connections,
}
use raknet_shim.Strings.{Utf8}
use raknet_shim.Raknet.Connection as RakConn
use raknet_shim.TcpUdp as TcpUdpConn
use raknet_shim.TcpUdp.{read_into}
use raknet_shim.TcpUdp.Connect.{connect}
use raknet_shim.Bridge.{
  SocketAddrs, UdpSocket, Received, came, failed, Sockets, Shorts, Bridge, Shim, ShimCommand,
  new_shim, new_listening, local_addr,
}
use raknet_shim.Bridge.Receive as Receive
use raknet_shim.Bridge.Receive.{World, client_socket, tcpudp_receive, drop}

-- The errors that only say that there is nothing more for now.
abbrev pub is_quiet : ErrorKind → Bool
is_quiet would_block = true
is_quiet connection_reset = true
is_quiet _ = false

-- What a call on a shim leaves, whether it failed or not: the shim, `BUF` and the operating system.
pub record Left (A S T U O : Type 0) : Type 0 where
  pub shim : Shim A S T U
  pub buf : List ℕ
  pub os : O

-- `Bridge::new(RakConn::new(..), TcpUdpConn::new(..)?)`
pub new_bridge : {A T U : Type 0} → A → TcpUdpConn.Connection → T → U → Bridge A T U
new_bridge source c t u = record {
  address = source;
  raknet = RakConn.new;
  tcpudp = c;
  tcp = t;
  udp = u;
}

module _ {A S T U O : Type 0} where
  abbrev pub with_socket : S → Left A S T U O → Left A S T U O
  with_socket s l = record l { shim = record l.shim { raknet = s } }

  abbrev pub with_bridges : Table A (Bridge A T U) → Left A S T U O → Left A S T U O
  with_bridges bridges l = record l { shim = record l.shim { bridges = bridges } }

  module _ ⦃socket : UdpSocket A S⦄ where
    -- `self.raknet.send_to(&[response as u8, 0], &source)?`
    pub respond : MessageType → A → Left A S T U O → Outcome (Unit {0}) × Left A S T U O
    respond response source l =
        let (result, s) = socket.send_to (code response ∷ 0 ∷ []) source l.shim.raknet in
        (result, with_socket s l)

    -- Behind `create_bridge`.
    pub answer :
        ⦃addresses : SocketAddrs A⦄
        → A
        → Left A S T U O
        → Outcome (Bridge A T U)
        → Outcome (Unit {0}) × Left A S T U O
    answer ⦃addresses⦄ source l (ok bridge) =
        respond open_connection_reply source
          (with_bridges (insert ⦃eq = addresses.eq⦄ source bridge l.shim.bridges) l)
    answer ⦃addresses⦄ source l (err kind) = respond no_free_incoming_connections source l
    answer ⦃addresses⦄ source l panic = (panic, l)
    answer ⦃addresses⦄ source l stuck = (stuck, l)

    module _ (W : Type 0) ⦃bw : BitWrite W⦄ where
      -- Behind `TcpUdpConn::new`: where it failed, the new RakNet connection is dropped, which sends to
      -- the client. The socket is shared with the handle that was cloned.
      unfoldable pub bridge_or_drop :
          A → S → Outcome (TcpUdpConn.Connection × T × U) × O → Outcome (Bridge A T U) × S × O
      bridge_or_drop source s (ok (c, t, u), os) = (ok (new_bridge source c t u), s, os)
      bridge_or_drop source s (err kind, os) =
          (err kind, RakConn.drop W ⦃udp = client_socket socket source⦄ RakConn.new s, os)
      bridge_or_drop source s (panic, os) = (panic, s, os)
      bridge_or_drop source s (stuck, os) = (stuck, s, os)

      module _ ⦃sockets : Sockets A S T U O⦄ where
        pub create_bridge : A → Shim A S T U → O → Outcome (Bridge A T U) × S × O
        create_bridge source shim os = elim (socket.try_clone shim.raknet) [
          | ok _ ↦
              bridge_or_drop source shim.raknet
                (connect ⦃network = sockets.network⦄ shim.connect_addr os)
          | err kind ↦ (err kind, shim.raknet, os)
          | panic ↦ (panic, shim.raknet, os)
          | stuck ↦ (stuck, shim.raknet, os)
        ]

        -- A datagram of an address that has no bridge.
        pub receive_unknown :
            ⦃addresses : SocketAddrs A⦄
            → ℕ
            → A
            → Left A S T U O
            → Outcome (Unit {0}) × Left A S T U O
        receive_unknown length source l =
            if leb length 2 && (get_or l.buf 0 0 == code open_connection_request)
            then (let (made, s, os) = create_bridge source l.shim l.os in
                answer source (with_socket s (record l { os = os })) made)
            else (ok tt, l)

module _ (W : Type 0) ⦃bw : BitWrite W⦄ {A S T U O : Type 0} ⦃addresses : SocketAddrs A⦄
    ⦃socket : UdpSocket A S⦄ where
  -- Behind `bridge.raknet_receive`: a bridge that failed is removed, and dropped.
  pub keep_or_remove :
      A → Left A S T U O → Outcome (Unit {0}) × Bridge A T U → Outcome (Unit {0}) × Left A S T U O
  keep_or_remove source l (ok _, b) =
      (ok tt, with_bridges (insert ⦃eq = addresses.eq⦄ source b l.shim.bridges) l)
  keep_or_remove source l (err kind, b) = (
    ok tt,
    with_socket (drop W b l.shim.raknet)
        (with_bridges (remove ⦃eq = addresses.eq⦄ source l.shim.bridges) l),
  )
  keep_or_remove source l (panic, b) = (panic, l)
  keep_or_remove source l (stuck, b) = (stuck, l)

  module _ (R : Type 0) ⦃br : BitRead R⦄ ⦃tcp : TcpUdpConn.Tcp T⦄ ⦃udp : TcpUdpConn.Udp U⦄
      ⦃sockets : Sockets A S T U O⦄ where
    -- One datagram of `length` bytes, which stands in `BUF`.
    pub receive_datagram : ℕ → A → Left A S T U O → Outcome (Unit {0}) × Left A S T U O
    receive_datagram length source l = elim (get ⦃eq = addresses.eq⦄ source l.shim.bridges) [
      | none ↦ receive_unknown W length source l
      | some bridge ↦ keep_or_remove source l (Receive.raknet_receive R (take length l.buf) bridge)
    ]

    -- The loop on fuel.
    pub raknet_receive : ℕ → Left A S T U O → Outcome (Unit {0}) × Left A S T U O
    raknet_receive zero l = (stuck, l)
    raknet_receive (suc fuel) l =
        let (result, s) = socket.recv_from l.shim.raknet in
        let l₁ : Left A S T U O = with_socket s l in
        elim result [
          | failed kind ↦ (if is_quiet kind then ok tt else err kind, l₁)
          | came bytes source ↦
              let l₂ : Left A S T U O = record l₁ { buf = read_into l₁.buf 0 bytes } in
              let (outcome, l₃) = receive_datagram (length bytes) source l₂ in
              elim outcome [ ok _ ↦ raknet_receive fuel l₃ | other ↦ (other, l₃) ]
        ]

-- What `retain` leaves of some bridges: the bridges, the commands, and what the bridges share.
abbrev pub Retained : Type 0 → Type 0 → Type 0 → Type 0 → Type 0 → Type 0
Retained A S T U O =
    Outcome (Unit {0}) × Table A (Bridge A T U) × List (ShimCommand A S T U) × World S O

-- What one bridge leaves, and the others behind it: a panic ends the loop.
pub and_retain : {A S T U O : Type 0} → Retained A S T U O → Retained A S T U O → Retained A S T U O
and_retain (ok _, kept, _, _) (rest, kept', cmds, w) = (rest, kept ++ kept', cmds, w)
and_retain (err kind, kept, cmds, w) _ = (err kind, kept, cmds, w)
and_retain (panic, kept, cmds, w) _ = (panic, kept, cmds, w)
and_retain (stuck, kept, cmds, w) _ = (stuck, kept, cmds, w)

module _ (W : Type 0) ⦃bw : BitWrite W⦄ {A S T U O : Type 0} ⦃addresses : SocketAddrs A⦄
    ⦃socket : UdpSocket A S⦄ where
  -- Behind `bridge.tcpudp_receive`: a bridge that failed is not kept, and dropped.
  pub retain_or_drop :
      A
      → List (ShimCommand A S T U)
      → Receive.Received A S T U O
      → Outcome (Unit {0}) × Table A (Bridge A T U) × List (ShimCommand A S T U) × World S O
  retain_or_drop address cmds (ok new, b, w) = (ok tt, (address, b) ∷ [], cmds ++ new, w)
  retain_or_drop address cmds (err kind, b, w) =
      (ok tt, [], cmds, record w { socket = drop W b w.socket })
  retain_or_drop address cmds (panic, b, w) = (panic, [], cmds, w)
  retain_or_drop address cmds (stuck, b, w) = (stuck, [], cmds, w)

  module _ ⦃tcp : TcpUdpConn.Tcp T⦄ ⦃udp : TcpUdpConn.Udp U⦄ ⦃sockets : Sockets A S T U O⦄
      ⦃shorts : Shorts⦄ ⦃utf8 : Utf8⦄ where
    -- `self.bridges.retain`, over the bridges in some order
    pub retain :
        ℕ
        → Table A A
        → Table A (Bridge A T U)
        → List (ShimCommand A S T U)
        → World S O
        → Retained A S T U O
    retain fuel addrs [] cmds w = (ok tt, [], cmds, w)
    retain fuel addrs ((address, bridge) ∷ bridges) cmds w =
        let here : Retained A S T U O =
          retain_or_drop address cmds (tcpudp_receive W fuel addrs bridge w) in
        and_retain here (retain fuel addrs bridges here.2 here.3)

    -- Behind `self.raknet_receive()?`
    pub receive_tcpudp :
        ℕ
        → Table A A
        → List (ShimCommand A S T U)
        → Outcome (Unit {0}) × Left A S T U O
        → Outcome (Unit {0}) × List (ShimCommand A S T U) × Left A S T U O
    receive_tcpudp fuel addrs cmds (ok _, l) =
        let (result, bridges, cmds', w) =
          retain fuel addrs l.shim.bridges cmds
            (record { buf = l.buf; socket = l.shim.raknet; os = l.os }) in
        (
          result,
          cmds',
          record {
            shim = record l.shim { raknet = w.socket; bridges = bridges };
            buf = w.buf;
            os = w.os;
          },
        )
    receive_tcpudp fuel addrs cmds (other, l) = (other, cmds, l)

    module _ (R : Type 0) ⦃br : BitRead R⦄ where
      -- `Shim::step`, with the fuel of its loops
      pub step :
          ℕ
          → Table A A
          → List (ShimCommand A S T U)
          → Left A S T U O
          → Outcome (Unit {0}) × List (ShimCommand A S T U) × Left A S T U O
      step fuel addrs cmds l = receive_tcpudp fuel addrs cmds (raknet_receive W R fuel l)
