-- ===== src/TcpUdp/Connect/Tests.antt =====
-- A connection over a network that gives out port 49152.
use raknet_shim.Prelude.{ℕ, ◌≡◌, refl, ok}
use raknet_shim.Prelude.Io.{pure}
use raknet_shim.TcpUdp.{new}
use raknet_shim.TcpUdp.Connect.{Network, connect}

-- A socket is its local address, which is a port.
abbrev small_network : Network ℕ ℕ ℕ (Unit {0})
small_network = record {
  connect_tcp = λ a. pure 49152;
  tcp_local_addr = λ t. ok t;
  tcp_set_nonblocking = λ t. pure t;
  bind_udp = λ a. pure a;
  connect_udp = λ a u. pure u;
  udp_set_nonblocking = λ u. pure u;
}

connected : connect ⦃network = small_network⦄ 7 tt ≡ (ok (new, 49152, 49152), tt)
unfolding connect
connected = refl
