-- ===== src/Shim/Main/Tests.antt =====
-- A run of the program with one client, whose server and whose user have nothing to say.
use raknet_shim.Prelude.{
  ℕ, suc, ◌^◌, ◌%◌, ◌-◌, ◌≡◌, refl, Bool, List, [], ◌∷◌, arith, ok, if◌then◌else◌, ◌==◌, replicate,
  sym, ap, ◌>>=◌,
}
use raknet_shim.Prelude.Table.{get, insert}
use raknet_shim.Prelude.Text.{bytes_of}
use raknet_shim.Bits.Model.{list_write, list_read}
use raknet_shim.Prelude.Table.{remove}
use raknet_shim.Raknet.RangeList
use raknet_shim.Raknet.Recv
use raknet_shim.Raknet.Send
use raknet_shim.Raknet.Send.{
  max_packet_size, send_packets, send_all, send_acks, process_outgoing_packets,
}
use raknet_shim.Raknet.Connection as RakConn
use raknet_shim.TcpUdp as TcpUdpConn
use raknet_shim.TcpUdp.Connect
use raknet_shim.TcpUdp.{continue_receive, end_receive, receive_tcp, read_length, fill, receive_udp}
use raknet_shim.Bridge.{Sockets, equal_bytes, new_listening, scan_packets}
use raknet_shim.Bridge.Receive.{tcpudp_receive, scan_received, send_scanned, send_raknet}
use raknet_shim.Shim.{
  new_bridge, step, raknet_receive, receive_datagram, receive_unknown, bridge_or_drop,
  create_bridge, answer, respond, receive_tcpudp, retain, and_retain, retain_or_drop,
}
use raknet_shim.Bridge.Example.{
  small_addrs, small_socket, small_shorts, all_utf8, silent_tcp, silent_udp, silent_network, Socket,
  receive_next,
}
use raknet_shim.Shim.Main.{Program, start, rounds, round, step_shims, add_shims}
use raknet_shim.Shim.Main.Served.{IsServed}
use raknet_shim.Shim.Main.Start.{start-rounds-IsServed}

-- At the first socket a client has asked for a connection already.
abbrev asked : Sockets ℕ Socket (Unit {0}) (Unit {0}) ℕ
asked = record {
  bind = λ a o.
      (ok (record { address = if a == 0 then o else a; incoming = (9 ∷ 0 ∷ [], 77) ∷ [] }), suc o);
  set_nonblocking = λ s o. (ok s, o);
  network = silent_network;
}

abbrev first : Program ℕ Socket (Unit {0}) (Unit {0}) ℕ
first = record {
  addrs = (152908, 1001) ∷ [];
  shims =
      record {
        connect_addr = 152908;
        raknet = record { address = 1001; incoming = (9 ∷ 0 ∷ [], 77) ∷ [] };
        bridges = [];
      }
      ∷ [];
  buf = replicate max_packet_size 0;
  os = 5001;
}

begun :
    start ⦃addresses = small_addrs⦄ ⦃sockets = asked⦄ (ok (bytes_of "lu")) 5000 ≡ (ok first, 5001)
unfolding start equal_bytes new_listening insert remove
begun = refl

-- The client has its bridge.
abbrev last : Program ℕ Socket (Unit {0}) (Unit {0}) ℕ
last = record first {
  shims =
      record {
        connect_addr = 152908;
        raknet = record { address = 1001; incoming = [] };
        bridges = (77, new_bridge 77 TcpUdpConn.new tt tt) ∷ [];
      }
      ∷ [];
  buf = 9 ∷ 0 ∷ replicate (max_packet_size - 2) 0;
}

ran :
    rounds
      (List Bool)
      (List Bool)
      ⦃addresses = small_addrs⦄
      ⦃socket = small_socket⦄
      ⦃tcp = silent_tcp⦄
      ⦃udp = silent_udp⦄
      ⦃sockets = asked⦄
      ⦃shorts = small_shorts⦄
      ⦃utf8 = all_utf8⦄
      2
      100
      first
    ≡ ok last
unfolding rounds round step_shims add_shims step raknet_receive receive_datagram get receive_unknown
    bridge_or_drop create_bridge answer respond TcpUdpConn.Connect.connect insert remove
    receive_tcpudp retain and_retain retain_or_drop tcpudp_receive TcpUdpConn.receive
    continue_receive end_receive receive_tcp read_length fill receive_udp scan_received scan_packets
    send_scanned send_raknet RakConn.send send_packets send_all send_acks RangeList.is_empty
    process_outgoing_packets new_bridge RakConn.new TcpUdpConn.new Recv.default Send.new
    RangeList.new
ran = refl

asked_bind :
    (a : ℕ) (s : Socket) (o : ℕ)
    → (asked.bind a o).0 ≡ ok s
    → ¬ a % 2 ^ 16 ≡ 0
    → ok s.address ≡ ok a
asked_bind a s o e port =
    let address : ok s.address ≡ ok (if a == 0 then o else a) =
      ap (λ r. ◌>>=◌ r (λ (x : Socket). ok x.address)) (sym e) in
    ground arith

asked_nonblocking :
    (s s' : Socket) (o : ℕ) → (asked.set_nonblocking s o).0 ≡ ok s' → ok s'.address ≡ ok s.address
asked_nonblocking s s' o e = ap (λ r. ◌>>=◌ r (λ (x : Socket). ok x.address)) (sym e)

small_parse : (a : ℕ) → small_addrs.parse (bytes_of "127.0.0.1:1001") ≡ ok a → ¬ a % 2 ^ 16 ≡ 0
unfolding equal_bytes
small_parse a e = let same : ok 1001 ≡ ok a = e in ground arith

small_recv : (s : Socket) → ok (receive_next s).1.address ≡ ok s.address
small_recv s =
    elim s.incoming
      as (λ (l : List (List ℕ × ℕ)).
        ok (receive_next (record s { incoming = l })).1.address ≡ ok s.address) [
          | [] ↦ refl
          | x ∷ xs ↦ refl
        ]

start-rounds-IsServed_example : IsServed ⦃addresses = small_addrs⦄ ⦃socket = small_socket⦄ last
start-rounds-IsServed_example =
    start-rounds-IsServed (List Bool) (List Bool) ⦃addresses = small_addrs⦄ ⦃socket = small_socket⦄
      ⦃tcp = silent_tcp⦄ ⦃udp = silent_udp⦄ ⦃sockets = asked⦄ ⦃shorts = small_shorts⦄
      ⦃utf8 = all_utf8⦄ (record { same_iff = λ j k. ground arith })
      (record { recv_local = small_recv; send_local = λ bytes a s. refl })
      (record {
        bind_local = asked_bind;
        nonblocking_local = asked_nonblocking;
        parse_port = small_parse;
      })
      (ok (bytes_of "lu")) 5000 5001 2 100 first last begun ran
