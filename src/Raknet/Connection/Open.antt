-- ===== src/Raknet/Connection/Open.antt =====
-- A send of src/raknet/connection.rs succeeds only on a connection that was not closed.
use raknet_shim.Prelude.{◌≡◌, false, Bool-cases, inl, inr, List, ok, err, connection_aborted}
use raknet_shim.Bits.{BitWrite}
use raknet_shim.Packet.{Packet}
use raknet_shim.Raknet.Send.{Udp}
use raknet_shim.Raknet.Connection.{Connection, send}

pub send_open :
    (W : Type 0) ⦃bw : BitWrite W⦄ {S : Type 0} ⦃udp : Udp S⦄ (ps : List Packet) (c : Connection)
    (s : S)
    → (send W ps c s).0 ≡ ok tt
    → (send W ps c s).1.closed ≡ false
unfolding send
send_open W ps c s e = elim (Bool-cases c.closed) [
  | inl closed ↦ let never : err connection_aborted ≡ ok tt = rw (closed, send) at e in cc
  | inr is_open ↦ rw (is_open, send) is_open
]
