-- ===== src/Bridge/Receive.antt =====
-- `Bridge` of src/bridge.rs: what comes in at one end goes out at the other.
pub mod Socket
pub mod Open
pub mod Commands
use raknet_shim.Prelude.{ℕ, List, Outcome, ok, err, panic, stuck, ◌>>=◌}
use raknet_shim.Prelude.Table.{Table}
use raknet_shim.Bits.{BitWrite, BitRead}
use raknet_shim.Packet.{Packet}
use raknet_shim.Strings.{Utf8}
use raknet_shim.Raknet.Send as Send
use raknet_shim.Raknet.Connection as RakConn
use raknet_shim.TcpUdp as TcpUdpConn
use raknet_shim.Bridge.{SocketAddrs, UdpSocket, Sockets, Shorts, Bridge, ShimCommand, scan_packets}

-- The connection's socket, which is the shim's, and its client's address.
abbrev pub client_socket : {A S : Type 0} → UdpSocket A S → A → Send.Udp S
client_socket socket address = record { send_to = λ bytes s. socket.send_to bytes address s }

-- `BUF`, the shim's socket and the operating system, which all bridges share.
pub record World (S O : Type 0) : Type 0 where
  pub buf : List ℕ
  pub socket : S
  pub os : O

module _ {A T U : Type 0} ⦃tcp : TcpUdpConn.Tcp T⦄ ⦃udp : TcpUdpConn.Udp U⦄ where
  -- Behind `handle_datagram`. A TcpUdp connection that failed is dropped with the bridge.
  unfoldable pub pass_on :
      Bridge A T U → Outcome (RakConn.Connection × List Packet) → Outcome (Unit {0}) × Bridge A T U
  pass_on b (ok (c, packets)) =
      let b' : Bridge A T U = record b { raknet = c } in
      elim (TcpUdpConn.send packets b.tcpudp b.tcp b.udp) [
        | ok (c', t, u) ↦ (ok tt, record b' { tcpudp = c'; tcp = t; udp = u })
        | err kind ↦ (err kind, b')
        | panic ↦ (panic, b')
        | stuck ↦ (stuck, b')
      ]
  pass_on b (err kind) = (err kind, b)
  pass_on b panic = (panic, b)
  pass_on b stuck = (stuck, b)

  module _ (R : Type 0) ⦃br : BitRead R⦄ where
    -- A datagram that fails in its header changes nothing in the connection.
    unfoldable pub raknet_receive : List ℕ → Bridge A T U → Outcome (Unit {0}) × Bridge A T U
    raknet_receive bytes b = pass_on b (RakConn.handle_datagram R bytes b.raknet)

module _ (W : Type 0) ⦃bw : BitWrite W⦄ {A S T U : Type 0} ⦃socket : UdpSocket A S⦄ where
  -- `self.raknet.send`
  unfoldable pub send_raknet :
      List Packet → Bridge A T U → S → Outcome (Unit {0}) × Bridge A T U × S
  send_raknet packets b s =
      let (result, c, s') =
        RakConn.send W ⦃udp = client_socket socket b.address⦄ packets b.raknet s in
      (result, record b { raknet = c }, s')

  -- `Drop` of the RakNet connection; `Drop for Bridge` only prints.
  pub drop : Bridge A T U → S → S
  drop b s = RakConn.drop W ⦃udp = client_socket socket b.address⦄ b.raknet s

-- What a call leaves, whether it failed or not.
abbrev pub Received : Type 0 → Type 0 → Type 0 → Type 0 → Type 0 → Type 0
Received A S T U O = Outcome (List (ShimCommand A S T U)) × Bridge A T U × World S O

module _ (W : Type 0) ⦃bw : BitWrite W⦄ {A S T U O : Type 0} ⦃socket : UdpSocket A S⦄ where
  -- Behind `scan_packets`.
  unfoldable pub send_scanned :
      Bridge A T U
      → World S O
      → Outcome (List Packet × List (ShimCommand A S T U))
      → Received A S T U O
  send_scanned b w (ok (packets, cmds)) =
      let (result, b', s) = send_raknet W packets b w.socket in
      (result >>= λ _. ok cmds, b', record w { socket = s })
  send_scanned b w (err kind) = (err kind, b, w)
  send_scanned b w panic = (panic, b, w)
  send_scanned b w stuck = (stuck, b, w)

  module _ ⦃addresses : SocketAddrs A⦄ ⦃sockets : Sockets A S T U O⦄ ⦃shorts : Shorts⦄ ⦃utf8 : Utf8⦄
      ⦃tcp : TcpUdpConn.Tcp T⦄ ⦃udp : TcpUdpConn.Udp U⦄ where
    -- Behind `self.tcpudp.receive`.
    unfoldable pub scan_received :
        Table A A
        → Bridge A T U
        → World S O
        → Outcome (List Packet × TcpUdpConn.Connection × T × U)
        → Received A S T U O
    scan_received addrs b w (ok (packets, c, t, u)) =
        let (scanned, os) = scan_packets addrs packets w.os in
        send_scanned (record b { tcpudp = c; tcp = t; udp = u }) (record w { os = os }) scanned
    scan_received addrs b w (err kind) = (err kind, b, w)
    scan_received addrs b w panic = (panic, b, w)
    scan_received addrs b w stuck = (stuck, b, w)

    -- With the fuel of `receive`.
    unfoldable pub tcpudp_receive : ℕ → Table A A → Bridge A T U → World S O → Received A S T U O
    tcpudp_receive fuel addrs b w =
        let (result, buf) = TcpUdpConn.receive fuel w.buf b.tcpudp b.tcp b.udp in
        scan_received addrs b (record w { buf = buf }) result
