-- ===== src/Raknet/Transfer/Tests.antt =====
-- Packets that go as one RakNet packet, and as two, at a concrete sender and receiver.
use raknet_shim.Prelude.{
  ℕ, zero, suc, ◌++◌, Bool, List, All, IsByte, length-replicate, ◌≡◌, refl, false, [], ◌∷◌,
  replicate, arith, ok,
}
use raknet_shim.Packet.{Packet, unreliable_sequenced, reliable_ordered}
use raknet_shim.Raknet.RangeList
use raknet_shim.Raknet.Send as Send
use raknet_shim.Raknet.Send.{process_outgoing_packets}
use raknet_shim.Raknet.Recv as Recv
use raknet_shim.Raknet.Recv.{is_disconnect, process_incoming_packets, Receiving}
use raknet_shim.Raknet.Transfer.Outgoing.{InStep}
use raknet_shim.Bits.Model.{list_write, list_read, list_write_laws, list_read_laws}
use raknet_shim.Raknet.Send.{Udp}
use raknet_shim.Raknet.Connection as Connected
use raknet_shim.Raknet.Connection.{send}
use raknet_shim.Raknet.Transfer.Wire.{Keeps}
use raknet_shim.Raknet.Transfer.EndToEnd.{IsPlain, Transferred, send-Transferred}
use raknet_shim.Raknet.Transfer.RoundTrip.{process_incoming_packets-process_outgoing_packets}

abbrev short_packet : Packet
short_packet = record { reliability = unreliable_sequenced; bytes = 83 ∷ 1 ∷ [] }

abbrev long_packet : Packet
long_packet = record { reliability = reliable_ordered; bytes = 83 ∷ replicate 2000 5 }

process_incoming_packets-process_outgoing_packets_example :
    (t : Receiving) × (process_incoming_packets
        (process_outgoing_packets (short_packet ∷ long_packet ∷ []) Send.new).0
        Recv.default
        RangeList.new
        false
      ≡ ok t)
    × (t.packets ≡ short_packet ∷ long_packet ∷ [])
    × (t.closed ≡ false)
    × InStep (process_outgoing_packets (short_packet ∷ long_packet ∷ []) Send.new).1 t.part
unfolding is_disconnect Send.new Recv.default
process_incoming_packets-process_outgoing_packets_example =
    process_incoming_packets-process_outgoing_packets (short_packet ∷ long_packet ∷ []) Send.new
      Recv.default RangeList.new ((refl, omega arith), ((refl, omega arith), tt))
      (omega arith, record { sequenced = refl; index = refl; ordered = refl; split = refl })

-- A socket that is the list of what went out.
abbrev recorder : Udp (List (List ℕ))
recorder = record { send_to = λ bytes s. (ok tt, s ++ (bytes ∷ [])) }

abbrev kept : Keeps recorder (λ (s : List (List ℕ)). s)
kept = record { sends = λ bytes s. refl; keeps = λ bytes s. refl }

bytes_lem : (n : ℕ) → All IsByte (replicate n 5)
bytes_lem zero = tt
bytes_lem (suc n) = (omega arith, bytes_lem n)

short-IsPlain : IsPlain short_packet
unfolding is_disconnect
short-IsPlain = (refl, omega arith, omega arith)

long-IsPlain : IsPlain long_packet
unfolding is_disconnect
long-IsPlain = (refl, omega (arith, length-replicate {A = ℕ} 2000 5), (omega arith, bytes_lem 2000))

send-Transferred_example :
    Transferred
      (List Bool)
      (λ (s : List (List ℕ)). s)
      (short_packet ∷ long_packet ∷ [])
      Connected.new
      Connected.new
      []
      (send (List Bool) ⦃udp = recorder⦄ (short_packet ∷ long_packet ∷ []) Connected.new [])
unfolding Connected.new Send.new Recv.default RangeList.new
send-Transferred_example =
    send-Transferred ⦃udp = recorder⦄ list_write_laws list_read_laws (λ (s : List (List ℕ)). s) kept
      short_packet (long_packet ∷ []) Connected.new Connected.new [] refl refl
      (short-IsPlain, (long-IsPlain, tt))
      (record {
        number = omega arith;
        split = omega arith;
        sequenced = omega arith;
        ordered = omega arith;
      })
      (omega arith) (omega arith)
      (omega arith, record { sequenced = refl; index = refl; ordered = refl; split = refl })
