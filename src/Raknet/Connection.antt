-- ===== src/Raknet/Connection.antt =====
-- src/raknet/connection.rs, and `parse_packets` of src/raknet/recv.rs.
pub mod Datagram
pub mod Ends
pub mod Socket
pub mod Open
pub mod BadSplit
pub mod Farewell
pub mod Several
mod Tests
use raknet_shim.Prelude.{
  ℕ, zero, suc, ◌+◌, ◌*◌, Bool, true, false, Option, none, some, List, [], ◌∷◌, length,
  if◌then◌else◌, Outcome, ok, err, panic, stuck, connection_aborted,
}
use raknet_shim.Prelude as P
use raknet_shim.Bits.{BitWrite, BitRead}
use raknet_shim.Bits.Read.{◌>>=◌, ◌>>◌, pure}
use raknet_shim.Packet.{Packet, unreliable, code, disconnect_notification}
use raknet_shim.Raknet.RangeList
use raknet_shim.Raknet.RangeList.{RangeList}
use raknet_shim.Raknet.Packet as RakPacket
use raknet_shim.Raknet.Packet.{RaknetPacket}
use raknet_shim.Raknet.Recv
use raknet_shim.Raknet.Recv.{ReceivePart, Receiving, process_incoming_packets}
use raknet_shim.Raknet.Send
use raknet_shim.Raknet.Send.{SendPart, Udp}

pub record Connection : Type 0 where
  pub closed : Bool
  pub remote_system_time : ℕ
  pub acks : RangeList
  pub recv : ReceivePart
  pub send : SendPart

unfoldable pub new : Connection
new = record {
  closed = false;
  remote_system_time = 0;
  acks = RangeList.new;
  recv = Recv.default;
  send = Send.new;
}

-- What `process_incoming_packets` leaves of the connection, and the packets that it returns.
unfoldable pub received : Connection → Receiving → Connection × List Packet
received c t = (record c { recv = t.part; acks = t.acks; closed = t.closed }, t.packets)

-- Behind one read of a packet: the loop ends at the first read that fails.
abbrev pub and_parse :
    {R : Type 0}
    → (R → Outcome (List RaknetPacket))
    → Outcome (RaknetPacket × R)
    → Outcome (List RaknetPacket)
and_parse go_on (ok (packet, reader)) =
    P.◌>>=◌ (go_on reader) (λ rak_packets. ok (packet ∷ rak_packets))
and_parse go_on (err _) = ok []
and_parse go_on panic = panic
and_parse go_on stuck = stuck

module _ {R : Type 0} ⦃br : BitRead R⦄ where
  -- The loop that reads packets until a read fails, on fuel.
  pub parse_loop : ℕ → R → Outcome (List RaknetPacket)
  parse_loop zero reader = stuck
  parse_loop (suc fuel) reader = and_parse (parse_loop fuel) (RakPacket.deserialize reader)

  pub read_acks : Bool → R → Outcome (Unit {0} × R)
  read_acks false = pure tt
  read_acks true = do _old_time ← br.read_int 4; _acks ← RangeList.Codec.deserialize; pure tt

  -- `remote_system_time`, the one that is there or a new one
  pub read_time : ℕ → Bool → R → Outcome (ℕ × R)
  read_time remote_system_time false = pure remote_system_time
  read_time remote_system_time true = br.read_int 4

  pub handle_header : ℕ → R → Outcome (ℕ × R)
  handle_header remote_system_time = do
    has_acks ← br.read_bit
    _ ← read_acks has_acks
    has_remote_system_time ← br.read_bit
    read_time remote_system_time has_remote_system_time

module _ (R : Type 0) ⦃br : BitRead R⦄ where
  -- A packet takes 32 bits at least, so that the fuel is more than there are packets.
  pub parse_packets : List ℕ → R → Outcome (List RaknetPacket)
  parse_packets bytes reader = parse_loop (length bytes + 1) reader

  pub handle_datagram : List ℕ → Connection → Outcome (Connection × List Packet)
  handle_datagram bytes c =
      P.◌>>=◌ (handle_header c.remote_system_time (br.new_reader bytes)) (λ (time, reader).
        P.◌>>=◌ (parse_packets bytes reader) (λ rak_packets.
          P.◌>>=◌ (process_incoming_packets rak_packets c.recv c.acks c.closed)
            (λ t. ok (received (record c { remote_system_time = time }) t))))

abbrev pub goodbye : Packet
goodbye = record { reliability = unreliable; bytes = code disconnect_notification ∷ [] }

module _ (W : Type 0) ⦃bw : BitWrite W⦄ {S : Type 0} ⦃udp : Udp S⦄ where
  -- How the send ends, and what it leaves, whether it failed or not.
  unfoldable pub send : List Packet → Connection → S → Outcome (Unit {0}) × Connection × S
  send packets c socket = elim c.closed [
    | true ↦ (err connection_aborted, c, socket)
    | false ↦
        let (result, s, acks, socket') =
          Send.send_packets W packets c.send c.acks c.remote_system_time socket in
        (result, record c { send = s; acks = acks }, socket')
  ]

  -- `Drop`: what the send returns is ignored.
  pub drop : Connection → S → S
  drop c socket = (send (goodbye ∷ []) c socket).2
