-- ===== src/Bridge/Receive/Commands.antt =====
-- The commands that `tcpudp_receive` of src/bridge.rs gives out.
use raknet_shim.Prelude.{ℕ, ◌≡◌, ap, List, Outcome, ok, err, panic, stuck, returned}
use raknet_shim.Prelude.Table.{Table}
use raknet_shim.Bits.{BitWrite}
use raknet_shim.Packet.{Packet}
use raknet_shim.Strings.{Utf8}
use raknet_shim.TcpUdp as TcpUdpConn
use raknet_shim.Bridge.{UdpSocket, SocketAddrs, Sockets, Shorts, Bridge, ShimCommand, scan_packets}
use raknet_shim.Bridge.Commands.{scan_packets-AllNamed, AllNamed}
use raknet_shim.Bridge.Receive.{World, send_scanned, send_raknet, scan_received, tcpudp_receive}

module _ (W : Type 0) ⦃bw : BitWrite W⦄ {A S T U O : Type 0} ⦃socket : UdpSocket A S⦄ where
  send_scanned-returns :
      (b : Bridge A T U) (w : World S O) (r : Outcome (List Packet × List (ShimCommand A S T U)))
      (cmds : List (ShimCommand A S T U))
      → (send_scanned W b w r).0 ≡ ok cmds
      → (packets : List Packet) × (r ≡ ok (packets, cmds))
  unfolding send_scanned
  send_scanned-returns b w (ok (packets, new)) cmds e =
      let (_, e', _) = returned (send_raknet W packets b w.socket).0 (λ _. ok new) e in
      (packets, cc)
  send_scanned-returns b w (err kind) cmds e = cc
  send_scanned-returns b w panic cmds e = cc
  send_scanned-returns b w stuck cmds e = cc

  module _ ⦃addresses : SocketAddrs A⦄ ⦃sockets : Sockets A S T U O⦄ ⦃shorts : Shorts⦄ ⦃utf8 : Utf8⦄
      ⦃tcp : TcpUdpConn.Tcp T⦄ ⦃udp : TcpUdpConn.Udp U⦄ where
    scan_received-AllNamed :
        (addrs : Table A A) (b : Bridge A T U) (w : World S O)
        (r : Outcome (List Packet × TcpUdpConn.Connection × T × U))
        (cmds : List (ShimCommand A S T U))
        → (scan_received W addrs b w r).0 ≡ ok cmds
        → AllNamed cmds
    unfolding scan_received
    scan_received-AllNamed addrs b w (ok (packets, c, t, u)) cmds e =
        let os = (scan_packets {S = S} {T = T} {U = U} addrs packets w.os).1 in
        let (out, scanned) =
          send_scanned-returns (record b { tcpudp = c; tcp = t; udp = u }) (record w { os = os })
            (scan_packets addrs packets w.os).0 cmds e in
        scan_packets-AllNamed addrs packets out w.os os cmds (ap (λ r. (r, os)) scanned)
    scan_received-AllNamed addrs b w (err kind) cmds e = cc
    scan_received-AllNamed addrs b w panic cmds e = cc
    scan_received-AllNamed addrs b w stuck cmds e = cc

    pub tcpudp_receive-AllNamed :
        (fuel : ℕ) (addrs : Table A A) (b : Bridge A T U) (w : World S O)
        (cmds : List (ShimCommand A S T U))
        → (tcpudp_receive W fuel addrs b w).0 ≡ ok cmds
        → AllNamed cmds
    unfolding tcpudp_receive
    tcpudp_receive-AllNamed fuel addrs b w cmds e =
        let (result, buf) = TcpUdpConn.receive fuel w.buf b.tcpudp b.tcp b.udp in
        scan_received-AllNamed addrs b (record w { buf = buf }) result cmds e
