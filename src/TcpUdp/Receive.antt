-- ===== src/TcpUdp/Receive.antt =====
-- `Connection::receive` of src/tcpudp/mod.rs as a whole: the stream, and then the datagrams.
use raknet_shim.Prelude.{ℕ, ◌<◌, ◌≤◌, ◌≡◌, refl, List, [], ◌++◌, map, length, All, Outcome, ok}
use raknet_shim.Prelude.Newest.{number, most}
use raknet_shim.Packet.{Packet}
use raknet_shim.Raknet.Send.{max_packet_size}
use raknet_shim.TcpUdp.{Tcp, Udp, Connection, BufferOffset, end_receive, continue_receive, receive}
use raknet_shim.TcpUdp.Framing.{TcpLaws}
use raknet_shim.TcpUdp.Rounds.{partial, IsPartial}
use raknet_shim.TcpUdp.Messages.{Framed, receive_tcp_lem}
use raknet_shim.TcpUdp.Sequence.{Gives}
use raknet_shim.TcpUdp.Sequence.Receive.{Arrival, wire, Expected, passed, receive_udp-passed}

module _ {T U : Type 0} ⦃tcp : Tcp T⦄ ⦃udp : Udp U⦄ (laws : TcpLaws tcp)
    (datagrams : U → List (List ℕ)) (gives : Gives udp datagrams) (base : ℕ)
    (src : ℕ → List ℕ) where
  -- What `receive` gives, where the position `next` was expected and `xs` have come over UDP.
  pub record ReceivesAll (next : ℕ) (xs : List Arrival) (c : Connection) (t : T)
      (r : Outcome (List Packet × Connection × T × U) × List ℕ) : Type 0 where
    pub over_tcp : List Packet
    pub messages : List ℕ
    pub left : BufferOffset
    pub next_left : ℕ
    pub t' : T
    pub u' : U
    pub returns :
        r.0
        ≡ ok (
          over_tcp ++ passed base src next xs,
          record c { packet = left; seq_num_recv = number base next_left },
          t',
          u',
        )
    pub framed : Framed over_tcp messages
    pub bytes : partial c.packet ++ laws.pending t ≡ messages ++ partial left
    pub is_partial : IsPartial left
    pub emptied : laws.pending t' ≡ []
    pub low : next_left ≤ most
    pub buf_size : length r.1 ≡ max_packet_size

  -- Let a message have come in part, let the stream have some bytes to give, in pieces of any size, and
  -- the UDP socket datagrams of unreliable packets and of sequenced ones, lost, repeated and in any
  -- order, none of them longer than `BUF` and of fewer than 2 ^ 31 sequenced ones that were sent, before
  -- both have nothing for now; and let `BUF` have its size. With more rounds for each loop than there
  -- are bytes, and than there are datagrams, `receive` returns: the packets over TCP, whose messages are
  -- the bytes that had come before and those that came now, but for a last message in part, which is
  -- kept, and behind them exactly the unreliable packets and those sequenced ones that were sent later
  -- than all that came before them, in the order in which they came. The same conditions on the
  -- connection and on `BUF` hold for the next call.
  pub receive-ReceivesAll :
      (xs : List Arrival) (fuel next : ℕ) (buf : List ℕ) (c : Connection) (t : T) (u : U)
      → IsPartial c.packet
      → All (Expected base src) xs
      → next ≤ most
      → c.seq_num_recv ≡ number base next
      → length buf ≡ max_packet_size
      → datagrams u ≡ map (wire base src) xs
      → length (laws.pending t) < fuel
      → length xs < fuel
      → ReceivesAll next xs c t (receive fuel buf c t u)
  unfolding receive continue_receive end_receive
  receive-ReceivesAll xs fuel next buf c t u h expected low e full came enough enough' =
      let (left, after, new, messages, e₁, framed, bytes, part, rest) =
        receive_tcp_lem laws fuel c.packet t [] h enough in
      let (buf', n, v, e₂, low', full') =
        receive_udp-passed datagrams gives base src xs fuel next buf (record c { packet = left }) u
          new expected low e full came enough' in
      record {
        over_tcp = new;
        messages = messages;
        left = left;
        next_left = n;
        t' = after;
        u' = v;
        returns = rw (e₁, continue_receive, e₂, end_receive) refl;
        framed = framed;
        bytes = bytes;
        is_partial = part;
        emptied = rest;
        low = low';
        buf_size = rw (e₁, continue_receive, e₂, end_receive) full';
      }
