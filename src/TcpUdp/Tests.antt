-- ===== src/TcpUdp/Tests.antt =====
-- A stream that gives one byte at a time, with one message and the beginning of another.
use raknet_shim.Prelude.{
  ℕ, ◌<◌, ◌≤◌, ◌≢◌, ◌≡◌, refl, List, [], ◌∷◌, ◌++◌, length, arith, ok, would_block,
}
use raknet_shim.Packet.{Packet, reliable, reliable_ordered}
use raknet_shim.TcpUdp.{Tcp, ReadResult, got, failed, BufferOffset, receive_tcp, new, send, Udp}
use raknet_shim.TcpUdp.Framing.{TcpLaws}
use raknet_shim.TcpUdp.Rounds.{partial, IsPartial}
use raknet_shim.Prelude.{map, inl, inr}
use raknet_shim.TcpUdp.Transfer.{TakesAll, as_ordered, receive_tcp-send}
use raknet_shim.TcpUdp.Messages.{Framed, receive_tcp_lem}

abbrev read_byte : List ℕ → ReadResult × List ℕ
read_byte [] = (failed would_block, [])
read_byte (b ∷ bs) = (got (b ∷ []), bs)

abbrev pub bytewise : Tcp (List ℕ)
bytewise = record {
  read = λ n t. read_byte t;
  write = λ bytes t. ok (length bytes, t);
  write_all = λ bytes t. ok t;
}

pub none_left : (t : List ℕ) → t ≡ [] → read_byte t ≡ (failed would_block, [])
none_left t e = rw e refl

pub one_byte :
    (n : ℕ) (t : List ℕ)
    → 0 < n
    → t ≢ []
    → (b : ℕ) × (bs t' : List ℕ) × (read_byte t ≡ (got (b ∷ bs), t'))
      × (length (b ∷ bs) ≤ n)
      × (t ≡ (b ∷ bs) ++ t')
one_byte n [] pos some_left = absurd (some_left refl)
one_byte n (b ∷ t) pos some_left = (b, [], t, refl, omega arith, refl)

abbrev pub bytewise_laws : TcpLaws bytewise
bytewise_laws = record {
  pending = λ t. t;
  read_none = λ n t e. ([], none_left t e, refl);
  read_some = λ n t pos some_left. one_byte n t pos some_left;
}

abbrev pub stream : List ℕ
stream = 2 ∷ 0 ∷ 0 ∷ 0 ∷ 7 ∷ 8 ∷ 1 ∷ 0 ∷ []

receive_tcp_lem_example :
    (left : BufferOffset) × (after : List ℕ) × (new_packets : List Packet) × (messages : List ℕ)
    × (receive_tcp ⦃tcp = bytewise⦄ 9 new.packet stream []
        ≡ ok (would_block, (left, after, [] ++ new_packets)))
    × Framed new_packets messages
    × (partial new.packet ++ stream ≡ messages ++ partial left)
    × IsPartial left
    × (after ≡ [])
unfolding new
receive_tcp_lem_example =
    receive_tcp_lem ⦃tcp = bytewise⦄ bytewise_laws 9 new.packet stream []
      (record { four = refl; missing = omega arith }) (omega arith)

-- A stream that takes all that is written to it.
abbrev storing : Tcp (List ℕ)
storing = record {
  read = λ n t. read_byte t;
  write = λ bytes t. ok (length bytes, t ++ bytes);
  write_all = λ bytes t. ok (t ++ bytes);
}

abbrev storing_takes : TakesAll storing
storing_takes = record {
  sent = λ t. t;
  write_all_lem = λ bytes t. (t ++ bytes, refl, refl);
  write_lem = λ bytes t. (t ++ bytes, refl, refl);
}

abbrev no_udp : Udp (Unit {0})
no_udp = record { recv = λ n u. (failed would_block, u); send = λ bytes u. ok u }

abbrev two_packets : List Packet
two_packets =
    record { reliability = reliable; bytes = 83 ∷ 5 ∷ [] }
    ∷ record { reliability = reliable_ordered; bytes = [] }
    ∷ []

receive_tcp-send_example :
    (t' written : List ℕ) × (send ⦃tcp = storing⦄ ⦃udp = no_udp⦄ two_packets new [] tt
      ≡ ok (new, t', tt))
    × (t' ≡ [] ++ written)
    × ((fuel : ℕ) (v : List ℕ)
        → v ≡ written
        → length written < fuel
        → (left : BufferOffset) × (after : List ℕ) × (receive_tcp ⦃tcp = bytewise⦄ fuel new.packet v
              []
            ≡ ok (would_block, (left, after, map as_ordered two_packets)))
          × (partial left ≡ []))
receive_tcp-send_example =
    receive_tcp-send ⦃tcp = storing⦄ ⦃udp = no_udp⦄ storing_takes ⦃peer = bytewise⦄ bytewise_laws
      two_packets new [] tt ((inl refl, omega arith), ((inr refl, omega arith), tt))
