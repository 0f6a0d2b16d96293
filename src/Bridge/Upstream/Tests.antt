-- ===== src/Bridge/Upstream/Tests.antt =====
-- Two packets of a client, through a bridge, to a server that reads one byte at a time.
use raknet_shim.Prelude.{
  ℕ, ◌<◌, ◌≤◌, ◌≢◌, ◌≡◌, refl, Bool, inl, inr, List, [], ◌∷◌, ◌++◌, length, arith, ok, would_block,
}
use raknet_shim.Bits.Model.{list_write, list_read, list_write_laws, list_read_laws}
use raknet_shim.Packet.{Packet, reliable, reliable_ordered}
use raknet_shim.Raknet.RangeList
use raknet_shim.Raknet.Send as Send
use raknet_shim.Raknet.Recv as Recv
use raknet_shim.Raknet.Recv.{is_disconnect}
use raknet_shim.Raknet.Connection as RakConn
use raknet_shim.Raknet.Transfer.Wire.{Keeps}
use raknet_shim.TcpUdp as TcpUdpConn
use raknet_shim.TcpUdp.{Tcp, ReadResult, got, failed}
use raknet_shim.TcpUdp.Framing.{TcpLaws}
use raknet_shim.TcpUdp.Transfer.{TakesAll}
use raknet_shim.Bridge.{Bridge}
use raknet_shim.Bridge.Example.{silent_udp}
use raknet_shim.Bridge.Upstream.{Relayed, send-Relayed}

abbrev outbox : Send.Udp (List (List ℕ))
outbox = record { send_to = λ bytes s. (ok tt, s ++ (bytes ∷ [])) }

abbrev outbox_keeps : Keeps outbox (λ (s : List (List ℕ)). s)
outbox_keeps = record { sends = λ bytes s. refl; keeps = λ bytes s. refl }

abbrev next_byte : List ℕ → ReadResult × List ℕ
next_byte [] = (failed would_block, [])
next_byte (b ∷ bs) = (got (b ∷ []), bs)

abbrev pipe : Tcp (List ℕ)
pipe = record {
  read = λ n t. next_byte t;
  write = λ bytes t. ok (length bytes, t ++ bytes);
  write_all = λ bytes t. ok (t ++ bytes);
}

pipe_none : (t : List ℕ) → t ≡ [] → next_byte t ≡ (failed would_block, [])
pipe_none t e = rw e refl

pipe_some :
    (n : ℕ) (t : List ℕ)
    → 0 < n
    → t ≢ []
    → (b : ℕ) × (bs t' : List ℕ) × (next_byte t ≡ (got (b ∷ bs), t'))
      × (length (b ∷ bs) ≤ n)
      × (t ≡ (b ∷ bs) ++ t')
pipe_some n [] pos some_left = absurd (some_left refl)
pipe_some n (b ∷ t) pos some_left = (b, [], t, refl, omega arith, refl)

abbrev pipe_laws : TcpLaws pipe
pipe_laws = record {
  pending = λ t. t;
  read_none = λ n t e. ([], pipe_none t e, refl);
  read_some = λ n t pos some_left. pipe_some n t pos some_left;
}

abbrev pipe_takes : TakesAll pipe
pipe_takes = record {
  sent = λ t. t;
  write_all_lem = λ bytes t. (t ++ bytes, refl, refl);
  write_lem = λ bytes t. (t ++ bytes, refl, refl);
}

abbrev login : Packet
login = record { reliability = reliable_ordered; bytes = 83 ∷ 1 ∷ 0 ∷ [] }

abbrev ping : Packet
ping = record { reliability = reliable; bytes = 0 ∷ [] }

abbrev the_bridge : Bridge ℕ (List ℕ) (Unit {0})
the_bridge = record {
  address = 77;
  raknet = RakConn.new;
  tcpudp = TcpUdpConn.new;
  tcp = [];
  udp = tt;
}

send-Relayed_example :
    Relayed
      (List Bool)
      ⦃tcp = pipe⦄
      ⦃udp = silent_udp⦄
      (λ (s : List (List ℕ)). s)
      (λ (t : List ℕ). t)
      pipe
      (λ (v : List ℕ). v)
      (login ∷ ping ∷ [])
      the_bridge
      []
      (RakConn.send (List Bool) ⦃udp = outbox⦄ (login ∷ ping ∷ []) RakConn.new [])
unfolding RakConn.new Send.new Recv.default RangeList.new is_disconnect
send-Relayed_example =
    send-Relayed ⦃socket = outbox⦄ ⦃tcp = pipe⦄ ⦃udp = silent_udp⦄ list_write_laws list_read_laws
      (λ (s : List (List ℕ)). s) outbox_keeps pipe_takes ⦃peer = pipe⦄ pipe_laws login (ping ∷ [])
      RakConn.new the_bridge [] refl refl
      ((refl, omega arith, omega arith), ((refl, omega arith, omega arith), tt))
      ((inr refl, omega arith), ((inl refl, omega arith), tt))
      (record {
        number = omega arith;
        split = omega arith;
        sequenced = omega arith;
        ordered = omega arith;
      })
      (omega arith) (omega arith)
      (omega arith, record { sequenced = refl; index = refl; ordered = refl; split = refl })
