-- ===== src/Bridge/Tests.antt =====
-- A redirection to an unknown server, scanned, and one that is too short.
use raknet_shim.Prelude.{ℕ, ◌+◌, ◌*◌, ◌^◌, ◌≡◌, refl, [], ◌∷◌, ◌++◌, arith, ok, panic}
use raknet_shim.Prelude.Table.{get}
use raknet_shim.Prelude.Text.{bytes_of}
use raknet_shim.Packet.{Packet, reliable_ordered}
use raknet_shim.Strings.{read_fix, position_zero, read_field, read_text, write_fix}
use raknet_shim.Strings.RoundTrip.{field}
use raknet_shim.TcpUdp.{from_le_bytes, le_bytes}
use raknet_shim.Bridge.{
  read_addr, redirect, redirect_at, scan_packet, new_shim, loopback, scan_packets, ShimCommand,
  equal_bytes, relay_for, new_relay, new_listening, local_addr, write_addr, write_host, write_port,
}
use raknet_shim.Bridge.Example.{
  small_addrs, small_socket, small_sockets, small_shorts, all_utf8, small_shorts_laws,
  small_addr_laws, Socket,
}
use raknet_shim.Bridge.Redirect.{AllScanned, scan_packets-AllScanned}
use raknet_shim.Bridge.Short.{scan_packets-panics}

-- To port 2 of "world".
abbrev redirection : Packet
redirection = record {
  reliability = reliable_ordered;
  bytes = 83 ∷ 5 ∷ 0 ∷ 14 ∷ 0 ∷ 0 ∷ 0 ∷ 0 ∷ (field (bytes_of "world") ++ (2 ∷ 0 ∷ 7 ∷ []));
}

abbrev other : Packet
other = record { reliability = reliable_ordered; bytes = 83 ∷ 4 ∷ [] }

abbrev short_redirection : Packet
short_redirection = record {
  reliability = reliable_ordered;
  bytes = 83 ∷ 5 ∷ 0 ∷ 14 ∷ 0 ∷ 0 ∷ 0 ∷ 0 ∷ 1 ∷ [];
}

scan_packets-panics_example :
    scan_packets ⦃addresses = small_addrs⦄ ⦃socket = small_socket⦄ ⦃sockets = small_sockets⦄
      ⦃shorts = small_shorts⦄ ⦃utf8 = all_utf8⦄ []
      (short_redirection ∷ other ∷ [])
      5000
    ≡ (panic, 5000)
scan_packets-panics_example =
    scan_packets-panics ⦃addresses = small_addrs⦄ ⦃socket = small_socket⦄ ⦃sockets = small_sockets⦄
      ⦃shorts = small_shorts⦄ ⦃utf8 = all_utf8⦄ [] short_redirection (other ∷ []) 0
      (0 ∷ 0 ∷ 0 ∷ 0 ∷ 1 ∷ []) 5000 refl (omega arith) (omega arith)

-- To port 5000 of this machine.
abbrev relayed : Packet
relayed = record {
  reliability = reliable_ordered;
  bytes = 83 ∷ 5 ∷ 0 ∷ 14 ∷ 0 ∷ 0 ∷ 0 ∷ 0 ∷ (field loopback ++ (136 ∷ 19 ∷ 7 ∷ []));
}

abbrev command : ShimCommand ℕ Socket (Unit {0}) (Unit {0})
command = new_shim (5 * 2 ^ 16 + 2) (record {
  connect_addr = 5 * 2 ^ 16 + 2;
  raknet = record { address = 5000; incoming = [] };
  bridges = [];
})

scanned :
    scan_packets ⦃addresses = small_addrs⦄ ⦃socket = small_socket⦄ ⦃sockets = small_sockets⦄
      ⦃shorts = small_shorts⦄ ⦃utf8 = all_utf8⦄ []
      (redirection ∷ other ∷ [])
      5000
    ≡ (ok (relayed ∷ other ∷ [], command ∷ []), 5001)
unfolding scan_packets scan_packet redirect_at redirect read_addr read_fix position_zero read_field
    read_text equal_bytes relay_for new_relay new_listening local_addr write_addr write_host
    write_fix write_port from_le_bytes le_bytes get
scanned = refl

scan_packets-AllScanned_example :
    AllScanned ⦃addresses = small_addrs⦄ ⦃socket = small_socket⦄ ⦃shorts = small_shorts⦄
      ⦃utf8 = all_utf8⦄ []
      (redirection ∷ other ∷ [])
      (relayed ∷ other ∷ [])
      (command ∷ [])
scan_packets-AllScanned_example =
    scan_packets-AllScanned ⦃addresses = small_addrs⦄ ⦃socket = small_socket⦄
      ⦃sockets = small_sockets⦄ ⦃shorts = small_shorts⦄ ⦃utf8 = all_utf8⦄ small_shorts_laws
      small_addr_laws [] (redirection ∷ other ∷ []) (relayed ∷ other ∷ []) 5000 5001 (command ∷ [])
      scanned
