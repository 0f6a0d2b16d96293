-- ===== src/TcpUdp/Connect.antt =====
-- `Connection::new` of src/tcpudp/mod.rs: the two sockets of a connection to a server.
mod Tests
use raknet_shim.Prelude.{Outcome}
use raknet_shim.Prelude.Io.{Io, pure, lift, ◌>>=◌}
use raknet_shim.TcpUdp.{Connection, new}

-- `Tcp` of src/tcpudp/tls.rs or of the standard library, a stream `T`, and the standard library's UDP
-- socket `U`, as calls on the operating system `O`.
pub record Network (A T U O : Type 0) : Type 0 where
  pub connect_tcp : A → Io O T
  pub tcp_local_addr : T → Outcome A
  pub tcp_set_nonblocking : T → Io O T
  pub bind_udp : A → Io O U
  pub connect_udp : A → U → Io O U
  pub udp_set_nonblocking : U → Io O U

unfoldable pub connect :
    {A T U O : Type 0} ⦃network : Network A T U O⦄ → A → Io O (Connection × T × U)
connect ⦃network⦄ addr = network.connect_tcp addr >>= λ tcp.
    lift (network.tcp_local_addr tcp) >>= λ local. network.bind_udp local >>= λ udp.
    network.connect_udp addr udp >>= λ udp'. network.tcp_set_nonblocking tcp >>= λ tcp'.
    network.udp_set_nonblocking udp' >>= λ udp''. pure (new, tcp', udp'')
