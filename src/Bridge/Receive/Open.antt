-- ===== src/Bridge/Receive/Open.antt =====
-- `tcpudp_receive` of src/bridge.rs returns only where its client has not closed the connection.
use raknet_shim.Prelude.{ℕ, ◌≡◌, false, List, Outcome, ok, err, panic, stuck, returned}
use raknet_shim.Prelude.Table.{Table}
use raknet_shim.Bits.{BitWrite}
use raknet_shim.Packet.{Packet}
use raknet_shim.Strings.{Utf8}
use raknet_shim.Raknet.Connection.Open.{send_open}
use raknet_shim.TcpUdp as TcpUdpConn
use raknet_shim.Bridge.{UdpSocket, SocketAddrs, Sockets, Shorts, Bridge, ShimCommand, scan_packets}
use raknet_shim.Bridge.Receive.{
  client_socket, World, send_raknet, send_scanned, scan_received, tcpudp_receive,
}

abbrev pub IsOpen : {A T U : Type 0} → Bridge A T U → Type 0
IsOpen b = b.raknet.closed ≡ false

module _ (W : Type 0) ⦃bw : BitWrite W⦄ {A S T U O : Type 0} ⦃socket : UdpSocket A S⦄ where
  send_scanned-IsOpen :
      (b : Bridge A T U) (w : World S O) (r : Outcome (List Packet × List (ShimCommand A S T U)))
      (cmds : List (ShimCommand A S T U))
      → (send_scanned W b w r).0 ≡ ok cmds
      → IsOpen (send_scanned W b w r).1
  unfolding send_scanned send_raknet
  send_scanned-IsOpen b w (ok (packets, new)) cmds e =
      let (u, _, sent) = returned (send_raknet W packets b w.socket).0 (λ _. ok new) e in
      send_open W ⦃udp = client_socket socket b.address⦄ packets b.raknet w.socket sent
  send_scanned-IsOpen b w (err kind) cmds e = cc
  send_scanned-IsOpen b w panic cmds e = cc
  send_scanned-IsOpen b w stuck cmds e = cc

  module _ ⦃addresses : SocketAddrs A⦄ ⦃sockets : Sockets A S T U O⦄ ⦃shorts : Shorts⦄ ⦃utf8 : Utf8⦄
      ⦃tcp : TcpUdpConn.Tcp T⦄ ⦃udp : TcpUdpConn.Udp U⦄ where
    scan_received-IsOpen :
        (addrs : Table A A) (b : Bridge A T U) (w : World S O)
        (r : Outcome (List Packet × TcpUdpConn.Connection × T × U))
        (cmds : List (ShimCommand A S T U))
        → (scan_received W addrs b w r).0 ≡ ok cmds
        → IsOpen (scan_received W addrs b w r).1
    unfolding scan_received
    scan_received-IsOpen addrs b w (ok (packets, c, t, u)) cmds e =
        let (scanned, os) = scan_packets addrs packets w.os in
        send_scanned-IsOpen (record b { tcpudp = c; tcp = t; udp = u }) (record w { os = os })
          scanned cmds e
    scan_received-IsOpen addrs b w (err kind) cmds e = cc
    scan_received-IsOpen addrs b w panic cmds e = cc
    scan_received-IsOpen addrs b w stuck cmds e = cc

    pub tcpudp_receive-IsOpen :
        (fuel : ℕ) (addrs : Table A A) (b : Bridge A T U) (w : World S O)
        (cmds : List (ShimCommand A S T U))
        → (tcpudp_receive W fuel addrs b w).0 ≡ ok cmds
        → IsOpen (tcpudp_receive W fuel addrs b w).1
    unfolding tcpudp_receive
    tcpudp_receive-IsOpen fuel addrs b w cmds e =
        let (result, buf) = TcpUdpConn.receive fuel w.buf b.tcpudp b.tcp b.udp in
        scan_received-IsOpen addrs b (record w { buf = buf }) result cmds e
