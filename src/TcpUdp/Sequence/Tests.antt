-- ===== src/TcpUdp/Sequence/Tests.antt =====
-- Three packets, of which the network repeats the second, delays the first and loses none.
use raknet_shim.Prelude.{
  ℕ, ◌+◌, ◌≡◌, ◌<◌, refl, List, [], ◌∷◌, ◌++◌, map, length, All, arith, ok, would_block,
}
use raknet_shim.Prelude.{panic, ◌↔◌}
use raknet_shim.TcpUdp.Malformed.{IsMalformed, receive_udp-panics_iff}
use raknet_shim.TcpUdp.{Tcp, Udp, Connection, ReadResult, got, failed, new, send, receive_udp}
use raknet_shim.TcpUdp.Sequence.{sequenced, range, SendsAll, Gives}
use raknet_shim.Prelude.Newest.{newest, Ascending}
use raknet_shim.TcpUdp.{receive}
use raknet_shim.TcpUdp.Tests.{bytewise, bytewise_laws, stream}
use raknet_shim.Prelude.{replicate, length-replicate}
use raknet_shim.Packet.{Packet, unreliable}
use raknet_shim.Raknet.Send.{max_packet_size}
use raknet_shim.TcpUdp.Sequence.Receive.{Arrival, single, update, wire, passed}
use raknet_shim.TcpUdp.Receive.{ReceivesAll, receive-ReceivesAll}
use raknet_shim.TcpUdp.Sequence.Delivery.{picked, receive_udp-send}

abbrev no_tcp : Tcp (Unit {0})
no_tcp = record {
  read = λ n t. (failed would_block, t);
  write = λ bytes t. ok (length bytes, t);
  write_all = λ bytes t. ok t;
}

abbrev take_first : List (List ℕ) → ReadResult × List (List ℕ)
take_first [] = (failed would_block, [])
take_first (d ∷ ds) = (got d, ds)

-- A socket is the list of the datagrams in it.
abbrev mailbox : Udp (List (List ℕ))
mailbox = record { recv = λ n u. take_first u; send = λ bytes u. ok (u ++ (bytes ∷ [])) }

abbrev mailbox_sends : SendsAll mailbox (λ (u : List (List ℕ)). u)
mailbox_sends = record { send_lem = λ bytes u fits. (u ++ (bytes ∷ []), refl, refl) }

mailbox_none : (u : List (List ℕ)) → u ≡ [] → take_first u ≡ (failed would_block, [])
mailbox_none u e = rw e refl

mailbox_some :
    (u : List (List ℕ)) (d : List ℕ) (ds : List (List ℕ)) → u ≡ d ∷ ds → take_first u ≡ (got d, ds)
mailbox_some u d ds e = rw e refl

abbrev mailbox_gives : Gives mailbox (λ (u : List (List ℕ)). u)
mailbox_gives = record {
  recv_none = λ n u e. ([], mailbox_none u e);
  recv_some = λ n u d ds e fits. (ds, mailbox_some u d ds e, refl);
}

abbrev letters : ℕ → List ℕ
letters k = (k + 65) ∷ []

abbrev Delivered : (n : ℕ) → Type 0
Delivered n =
    (c' : Connection) × (u' ds : List (List ℕ)) × (send ⦃tcp = no_tcp⦄ ⦃udp = mailbox⦄
        (map (sequenced letters) (range 0 n)) new tt []
      ≡ ok (c', tt, u'))
    × (u' ≡ [] ++ ds)
    × (length ds ≡ n)
    × ((ks : List ℕ) (fuel : ℕ) (buf : List ℕ) (d : Connection) (v : List (List ℕ))
        → All (λ k. k < n) ks
        → d.seq_num_recv ≡ new.seq_num_send
        → length buf ≡ max_packet_size
        → v ≡ picked ks ds
        → length ks < fuel
        → (buf' : List ℕ) × (d' : Connection) × (v' : List (List ℕ)) × (receive_udp ⦃udp = mailbox⦄
              fuel buf d v []
            ≡ ok (would_block, (buf', d', v', map (sequenced letters) (newest 0 ks))))
          × Ascending 0 (newest 0 ks))

receive_udp-send_example : Delivered 3
unfolding new
receive_udp-send_example =
    receive_udp-send ⦃tcp = no_tcp⦄ ⦃udp = mailbox⦄ (λ (u : List (List ℕ)). u) mailbox_sends
      ⦃peer = mailbox⦄ (λ (u : List (List ℕ)). u) mailbox_gives letters 3 new tt [] (omega arith)
      (omega arith) (λ k h. omega arith)

newest_test : newest 0 (1 ∷ 1 ∷ 0 ∷ 2 ∷ []) ≡ 1 ∷ 2 ∷ []
unfolding newest
newest_test = refl

-- A datagram of three bytes that is taken for a sequenced packet.
receive_udp-panics_iff_example :
    (receive_udp ⦃udp = mailbox⦄ 2 (0 ∷ 0 ∷ 0 ∷ 0 ∷ 0 ∷ []) new ((1 ∷ 2 ∷ 3 ∷ []) ∷ []) [] ≡ panic)
    ↔ IsMalformed 3 (1 ∷ 2 ∷ 3 ∷ 0 ∷ 0 ∷ []) new
receive_udp-panics_iff_example =
    receive_udp-panics_iff ⦃peer = mailbox⦄ (λ (u : List (List ℕ)). u) mailbox_gives 0
      (0 ∷ 0 ∷ 0 ∷ 0 ∷ 0 ∷ []) (1 ∷ 2 ∷ 3 ∷ []) new ((1 ∷ 2 ∷ 3 ∷ []) ∷ []) [] refl (omega arith)

abbrev plain_packet : Packet
plain_packet = record { reliability = unreliable; bytes = 83 ∷ 5 ∷ [] }

-- A message and a half over TCP, an unreliable datagram between sequenced ones, of which one is late.
abbrev mixed : List Arrival
mixed = update 1 ∷ single (83 ∷ 5 ∷ []) ∷ update 0 ∷ []

abbrev empty_buf : List ℕ
empty_buf = replicate max_packet_size 0

receive-ReceivesAll_example :
    ReceivesAll ⦃tcp = bytewise⦄ ⦃udp = mailbox⦄ bytewise_laws
      (λ (u : List (List ℕ)). u)
      mailbox_gives
      0
      letters
      0
      mixed
      new
      stream
      (receive ⦃tcp = bytewise⦄ ⦃udp = mailbox⦄ 9 empty_buf new stream (map (wire 0 letters) mixed))
unfolding new
receive-ReceivesAll_example =
    receive-ReceivesAll ⦃tcp = bytewise⦄ ⦃udp = mailbox⦄ bytewise_laws (λ (u : List (List ℕ)). u)
      mailbox_gives 0 letters mixed 9 0 empty_buf new stream (map (wire 0 letters) mixed)
      (record { four = refl; missing = omega arith })
      ((omega arith, omega arith), (omega arith, ((omega arith, omega arith), tt))) (omega arith)
      refl (length-replicate {A = ℕ} max_packet_size 0) refl (omega arith) (omega arith)

mixed-passed : passed 0 letters 0 mixed ≡ sequenced letters 1 ∷ plain_packet ∷ []
unfolding passed
mixed-passed = refl
