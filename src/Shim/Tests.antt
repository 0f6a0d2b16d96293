-- ===== src/Shim/Tests.antt =====
-- A step of a shim with two clients, of which one has closed its connection.
use raknet_shim.Prelude.{ℕ, ◌≡◌, refl, true, Bool, List, [], ◌∷◌, replicate, ok}
use raknet_shim.Bits.Model.{list_write, list_read}
use raknet_shim.Raknet.RangeList
use raknet_shim.Raknet.Recv
use raknet_shim.Raknet.Send
use raknet_shim.Raknet.Send.{send_packets, send_all, send_acks, process_outgoing_packets}
use raknet_shim.Raknet.Connection as RakConn
use raknet_shim.TcpUdp as TcpUdpConn
use raknet_shim.TcpUdp.{continue_receive, end_receive, receive_tcp, read_length, fill, receive_udp}
use raknet_shim.Bridge.{Bridge, scan_packets}
use raknet_shim.Bridge.Example.{
  small_addrs, small_socket, small_sockets, small_shorts, all_utf8, silent_tcp, silent_udp, Socket,
}
use raknet_shim.Bridge.Receive.{tcpudp_receive, scan_received, send_scanned, send_raknet}
use raknet_shim.Shim.{
  Left, new_bridge, step, raknet_receive, receive_tcpudp, retain, and_retain, retain_or_drop,
}
use raknet_shim.Shim.Open.{AllOpen, step-AllOpen}

abbrev gone : Bridge ℕ (Unit {0}) (Unit {0})
gone = record (new_bridge 77 TcpUdpConn.new tt tt) { raknet = record RakConn.new { closed = true } }

abbrev two_clients : Left ℕ Socket (Unit {0}) (Unit {0}) ℕ
two_clients = record {
  shim = record {
    connect_addr = 5;
    raknet = record { address = 1001; incoming = [] };
    bridges = (77, gone) ∷ (78, new_bridge 78 TcpUdpConn.new tt tt) ∷ [];
  };
  buf = replicate 8 0;
  os = 7;
}

stepped :
    (step
      (List Bool)
      ⦃addresses = small_addrs⦄
      ⦃socket = small_socket⦄
      ⦃tcp = silent_tcp⦄
      ⦃udp = silent_udp⦄
      ⦃sockets = small_sockets⦄
      ⦃shorts = small_shorts⦄
      ⦃utf8 = all_utf8⦄
      (List Bool)
      100
      []
      []
      two_clients).0
    ≡ ok tt
unfolding step raknet_receive receive_tcpudp retain and_retain retain_or_drop tcpudp_receive
    TcpUdpConn.receive continue_receive end_receive receive_tcp read_length fill receive_udp
    scan_received scan_packets send_scanned send_raknet RakConn.send send_packets send_all send_acks
    RangeList.is_empty process_outgoing_packets new_bridge RakConn.new TcpUdpConn.new Recv.default
    Send.new RangeList.new
stepped = refl

step-AllOpen_example :
    AllOpen
      (step
        (List Bool)
        ⦃addresses = small_addrs⦄
        ⦃socket = small_socket⦄
        ⦃tcp = silent_tcp⦄
        ⦃udp = silent_udp⦄
        ⦃sockets = small_sockets⦄
        ⦃shorts = small_shorts⦄
        ⦃utf8 = all_utf8⦄
        (List Bool)
        100
        []
        []
        two_clients).2.shim.bridges
step-AllOpen_example =
    step-AllOpen (List Bool) ⦃addresses = small_addrs⦄ ⦃socket = small_socket⦄ ⦃tcp = silent_tcp⦄
      ⦃udp = silent_udp⦄ ⦃sockets = small_sockets⦄ ⦃shorts = small_shorts⦄ ⦃utf8 = all_utf8⦄
      (List Bool) 100 [] [] two_clients stepped
