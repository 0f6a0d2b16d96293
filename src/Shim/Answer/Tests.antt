-- ===== src/Shim/Answer/Tests.antt =====
-- An open request, where the server refuses the connection.
use raknet_shim.Prelude.{
  ℕ, ◌≡◌, ◌≢◌, refl, Bool, List, [], ◌∷◌, ◌++◌, arith, replicate, Outcome, ok, err, other,
  would_block,
}
use raknet_shim.Prelude.Io.{pure}
use raknet_shim.Prelude.Table.{get}
use raknet_shim.Bits.Model.{list_write, list_read, list_write_laws}
use raknet_shim.TcpUdp.Connect.{Network, connect}
use raknet_shim.Bridge.{UdpSocket, Sockets, failed}
use raknet_shim.Bridge.Example.{numbers, small_addrs, silent_tcp, silent_udp}
use raknet_shim.Shim.{Left, receive_datagram}
use raknet_shim.Shim.Answer.{SendsAll, Answered, receive_datagram-Answered}

-- A socket is what it has sent.
abbrev Log : Type 0
Log = List (ℕ × List ℕ)

abbrev recorder : UdpSocket ℕ Log
recorder = record {
  local_addr = λ s. ok 1001;
  recv_from = λ s. (failed would_block, s);
  send_to = λ bytes a s. (ok tt, s ++ ((a, bytes) ∷ []));
  try_clone = λ s. ok tt;
}

abbrev records : SendsAll recorder (λ (s : Log). s)
records = record { sends = λ bytes a s. refl; keeps = λ bytes a s. refl }

abbrev refusing : Network ℕ (Unit {0}) (Unit {0}) ℕ
refusing = record {
  connect_tcp = λ a os. (err other, os);
  tcp_local_addr = λ t. ok 1;
  tcp_set_nonblocking = λ t. pure tt;
  bind_udp = λ a. pure tt;
  connect_udp = λ a u. pure tt;
  udp_set_nonblocking = λ u. pure tt;
}

abbrev refused : Sockets ℕ Log (Unit {0}) (Unit {0}) ℕ
refused = record { bind = λ a. pure []; set_nonblocking = λ s. pure s; network = refusing }

abbrev asked : Left ℕ Log (Unit {0}) (Unit {0}) ℕ
asked = record {
  shim = record { connect_addr = 5; raknet = []; bridges = [] };
  buf = 9 ∷ replicate 7 0;
  os = 7;
}

abbrev handled : Outcome (Unit {0}) × Left ℕ Log (Unit {0}) (Unit {0}) ℕ
handled =
    receive_datagram (List Bool) ⦃addresses = small_addrs⦄ ⦃socket = recorder⦄ (List Bool)
      ⦃tcp = silent_tcp⦄ ⦃udp = silent_udp⦄ ⦃sockets = refused⦄ 2 77 asked

receive_datagram-Answered_example :
    Answered ⦃addresses = small_addrs⦄
      (List Bool)
      (λ (s : Log). s)
      77
      asked
      (connect ⦃network = refusing⦄ 5 7).0
      handled
    × ((k : ℕ)
        → k ≢ 77
        → get ⦃eq = numbers⦄ k handled.1.shim.bridges ≡ get ⦃eq = numbers⦄ k asked.shim.bridges)
unfolding get
receive_datagram-Answered_example =
    receive_datagram-Answered ⦃addresses = small_addrs⦄ (List Bool) (λ (s : Log). s) 77
      ⦃socket = recorder⦄ list_write_laws records (List Bool) ⦃tcp = silent_tcp⦄ ⦃udp = silent_udp⦄
      ⦃sockets = refused⦄ (record { same_iff = λ j k. ground arith }) 2 asked refl (omega arith)
      refl refl
