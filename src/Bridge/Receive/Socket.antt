-- ===== src/Bridge/Receive/Socket.antt =====
-- What the calls of `Bridge` in src/bridge.rs leave alone of the shim's socket: everything that one can
-- see of it and `send_to` does not change.
use raknet_shim.Prelude.{ℕ, ◌≡◌, refl, List, Outcome, ok, err, panic, stuck}
use raknet_shim.Prelude.Table.{Table}
use raknet_shim.Bits.{BitWrite}
use raknet_shim.Packet.{Packet}
use raknet_shim.Strings.{Utf8}
use raknet_shim.Raknet.Connection.Socket.{send_look, drop_look}
use raknet_shim.TcpUdp as TcpUdpConn
use raknet_shim.Bridge.{UdpSocket, SocketAddrs, Sockets, Shorts, Bridge, ShimCommand, scan_packets}
use raknet_shim.Bridge.Receive.{
  client_socket, World, send_raknet, drop, send_scanned, scan_received, tcpudp_receive,
}

module _ (W : Type 0) ⦃bw : BitWrite W⦄ {A S T U X : Type 0} ⦃socket : UdpSocket A S⦄ (look : S → X)
    (kept : (bytes : List ℕ) (a : A) (s : S) → look (socket.send_to bytes a s).1 ≡ look s) where
  pub drop-look : (b : Bridge A T U) (s : S) → look (drop W b s) ≡ look s
  unfolding drop
  drop-look b s =
      drop_look W ⦃udp = client_socket socket b.address⦄ look (λ bytes s'. kept bytes b.address s')
        b.raknet s

  send_raknet-look :
      (ps : List Packet) (b : Bridge A T U) (s : S) → look (send_raknet W ps b s).2 ≡ look s
  unfolding send_raknet
  send_raknet-look ps b s =
      send_look W ⦃udp = client_socket socket b.address⦄ look (λ bytes s'. kept bytes b.address s')
        ps b.raknet s

module _ (W : Type 0) ⦃bw : BitWrite W⦄ {A S T U O X : Type 0} ⦃socket : UdpSocket A S⦄
    (look : S → X)
    (kept : (bytes : List ℕ) (a : A) (s : S) → look (socket.send_to bytes a s).1 ≡ look s) where
  send_scanned-look :
      (b : Bridge A T U) (w : World S O) (r : Outcome (List Packet × List (ShimCommand A S T U)))
      → look (send_scanned W b w r).2.socket ≡ look w.socket
  unfolding send_scanned
  send_scanned-look b w (ok (packets, cmds)) = send_raknet-look W look kept packets b w.socket
  send_scanned-look b w (err kind) = refl
  send_scanned-look b w panic = refl
  send_scanned-look b w stuck = refl

  module _ ⦃addresses : SocketAddrs A⦄ ⦃sockets : Sockets A S T U O⦄ ⦃shorts : Shorts⦄ ⦃utf8 : Utf8⦄
      ⦃tcp : TcpUdpConn.Tcp T⦄ ⦃udp : TcpUdpConn.Udp U⦄ where
    scan_received-look :
        (addrs : Table A A) (b : Bridge A T U) (w : World S O)
        (r : Outcome (List Packet × TcpUdpConn.Connection × T × U))
        → look (scan_received W addrs b w r).2.socket ≡ look w.socket
    unfolding scan_received
    scan_received-look addrs b w (ok (packets, c, t, u)) =
        let (scanned, os) = scan_packets addrs packets w.os in
        send_scanned-look (record b { tcpudp = c; tcp = t; udp = u }) (record w { os = os }) scanned
    scan_received-look addrs b w (err kind) = refl
    scan_received-look addrs b w panic = refl
    scan_received-look addrs b w stuck = refl

    pub tcpudp_receive-look :
        (fuel : ℕ) (addrs : Table A A) (b : Bridge A T U) (w : World S O)
        → look (tcpudp_receive W fuel addrs b w).2.socket ≡ look w.socket
    unfolding tcpudp_receive
    tcpudp_receive-look fuel addrs b w =
        let (result, buf) = TcpUdpConn.receive fuel w.buf b.tcpudp b.tcp b.udp in
        scan_received-look addrs b (record w { buf = buf }) result
