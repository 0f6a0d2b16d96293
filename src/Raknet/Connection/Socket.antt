-- ===== src/Raknet/Connection/Socket.antt =====
-- What sending and closing (src/raknet/connection.rs) leave alone of the socket.
use raknet_shim.Prelude.{arith, ℕ, ◌≡◌, List, [], ◌∷◌}
use raknet_shim.Bits.{BitWrite}
use raknet_shim.Packet.{Packet}
use raknet_shim.Raknet.Send.{Udp}
use raknet_shim.Raknet.Send.Socket.{send_packets_look}
use raknet_shim.Raknet.Connection.{Connection, send, drop, goodbye}

module _ (W : Type 0) ⦃bw : BitWrite W⦄ {S X : Type 0} ⦃udp : Udp S⦄ (look : S → X)
    (kept : (bytes : List ℕ) (s : S) → look (udp.send_to bytes s).1 ≡ look s) where
  pub send_look : (ps : List Packet) (c : Connection) (s : S) → look (send W ps c s).2 ≡ look s
  unfolding send
  send_look ps c s =
      let sent = send_packets_look W look kept ps c.send c.acks c.remote_system_time s in
      ground (arith, sent)

  pub drop_look : (c : Connection) (s : S) → look (drop W c s) ≡ look s
  unfolding drop
  drop_look c s = send_look (goodbye ∷ []) c s
