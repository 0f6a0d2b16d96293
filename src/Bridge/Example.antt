-- ===== src/Bridge/Example.antt =====
-- Small sockets and addresses, which keep what the program relies on: for concrete runs.
use raknet_shim.Prelude.{
  ℕ, suc, ◌+◌, ◌*◌, ◌%◌, ◌<◌, ◌^◌, refl, true, List, [], ◌∷◌, ◌++◌, length, take, drop, ltb, ◌==◌,
  if◌then◌else◌, arith, ok, err, unexpected_eof, would_block,
}
use raknet_shim.Prelude.Io.{pure}
use raknet_shim.Prelude.Table.{Eq}
use raknet_shim.Strings.{Utf8}
use raknet_shim.TcpUdp.{Tcp, Udp, ReadResult, from_le_bytes, le_bytes}
use raknet_shim.TcpUdp.Connect.{Network}
use raknet_shim.Bridge.{
  bytes_of, equal_bytes, SocketAddrs, UdpSocket, Received, came, failed, Sockets, Shorts,
}
use raknet_shim.Bridge.Patch.{ShortsLaws}
use raknet_shim.Bridge.Redirect.{AddrLaws}

abbrev pub numbers : Eq ℕ
numbers = record { same = λ a b. a == b }

-- An address is a number, with the port as its lowest two bytes.
abbrev pub small_addrs : SocketAddrs ℕ
small_addrs = record {
  eq = numbers;
  port = λ a. a % 2 ^ 16;
  resolve = λ host port. ok (length host * 2 ^ 16 + port);
  parse = λ text. ok (if equal_bytes text (bytes_of "127.0.0.1:0") then 0 else 1001);
}

abbrev pub all_utf8 : Utf8
all_utf8 = record { is_utf8 = λ bytes. true }

abbrev pub small_shorts : Shorts
small_shorts = record {
  read_u16 = λ bytes.
      if ltb (length bytes) 2 then err unexpected_eof else ok (from_le_bytes (take 2 bytes));
  write_u16 = λ v bytes. ok (le_bytes 2 v ++ drop 2 bytes);
}

pub small_port : (a : ℕ) → a % 2 ^ 16 < 2 ^ 16
small_port a = omega arith

abbrev pub small_shorts_laws : ShortsLaws small_shorts
small_shorts_laws = record { read_u16_lem = λ bytes. refl; write_u16_lem = λ v bytes _. refl }

abbrev pub small_addr_laws : AddrLaws small_addrs all_utf8
small_addr_laws = record { port-IsU16 = small_port; loopback_valid = refl }

-- A UDP socket is its address and what will come in; what goes out is forgotten.
pub record Socket : Type 0 where
  pub address : ℕ
  pub incoming : List (List ℕ × ℕ)

abbrev pub receive_next : Socket → Received ℕ × Socket
receive_next s = elim s.incoming [
  | [] ↦ (failed would_block, s)
  | (bytes, source) ∷ later ↦ (came bytes source, record s { incoming = later })
]

abbrev pub small_socket : UdpSocket ℕ Socket
small_socket = record {
  local_addr = λ s. ok s.address;
  recv_from = receive_next;
  send_to = λ bytes address s. (ok tt, s);
  try_clone = λ s. ok tt;
}

abbrev pub silent_network : Network ℕ (Unit {0}) (Unit {0}) ℕ
silent_network = record {
  connect_tcp = λ a. pure tt;
  tcp_local_addr = λ t. ok 9;
  tcp_set_nonblocking = λ t. pure t;
  bind_udp = λ a. pure tt;
  connect_udp = λ a u. pure u;
  udp_set_nonblocking = λ u. pure u;
}

-- The operating system counts the ports that it has given out; a connection has nothing to say.
abbrev pub small_sockets : Sockets ℕ Socket (Unit {0}) (Unit {0}) ℕ
small_sockets = record {
  bind = λ a o. (ok (record { address = if a == 0 then o else a; incoming = [] }), suc o);
  set_nonblocking = λ s o. (ok s, o);
  network = silent_network;
}

abbrev pub silent_tcp : Tcp (Unit {0})
silent_tcp = record {
  read = λ n t. (ReadResult.failed would_block, t);
  write = λ bytes t. ok (length bytes, t);
  write_all = λ bytes t. ok t;
}

abbrev pub silent_udp : Udp (Unit {0})
silent_udp = record { recv = λ n u. (ReadResult.failed would_block, u); send = λ bytes u. ok u }
