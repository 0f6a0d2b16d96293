-- ===== src/Shim/Answer.antt =====
-- How `Shim::raknet_receive` of src/main.rs answers an open request.
mod Tests
use raknet_shim.Prelude.{
  ℕ, ◌≡◌, ◌≤◌, ◌≢◌, refl, ap, ◌∙◌, true, append_assoc, List, [], ◌∷◌, ◌++◌, none, leb, get_or, ◌==◌,
  ==_iff, Outcome, ok, err, panic, stuck, arith,
}
use raknet_shim.Prelude.Table.{Table, Eq, EqLaws, get, insert, get-insert}
use raknet_shim.Bits.{BitWrite, BitWriteLaws, BitRead}
use raknet_shim.Packet.{
  code, open_connection_request, open_connection_reply, no_free_incoming_connections,
}
use raknet_shim.Raknet.RangeList
use raknet_shim.Raknet.Send.{packet_datagram}
use raknet_shim.Raknet.Connection as RakConn
use raknet_shim.Raknet.Connection.Farewell.{farewell, drop-new}
use raknet_shim.TcpUdp as TcpUdpConn
use raknet_shim.TcpUdp.Connect.{connect}
use raknet_shim.Bridge.{SocketAddrs, UdpSocket, Sockets, Bridge, Shim}
use raknet_shim.Bridge.Receive.{client_socket}
use raknet_shim.Shim.{
  Left, with_socket, new_bridge, respond, answer, bridge_or_drop, create_bridge, receive_unknown,
  receive_datagram,
}
use raknet_shim.Shim.Isolation.{receive_datagram_other}

-- A socket on which every datagram goes out: `sent` is what it has sent, and to whom.
pub record SendsAll {A S : Type 0} (socket : UdpSocket A S) (sent : S → List (A × List ℕ))
    : Type 0 where
  pub sends : (bytes : List ℕ) (a : A) (s : S) → (socket.send_to bytes a s).0 ≡ ok tt
  pub keeps :
      (bytes : List ℕ) (a : A) (s : S)
      → sent (socket.send_to bytes a s).1 ≡ sent s ++ ((a, bytes) ∷ [])

module _ {A S T U O : Type 0} ⦃addresses : SocketAddrs A⦄ (W : Type 0) ⦃bw : BitWrite W⦄
    (sent : S → List (A × List ℕ)) (source : A) where
  -- The answer, where opening the connection to the server gave `made`.
  abbrev pub Answered :
      Left A S T U O
      → Outcome (TcpUdpConn.Connection × T × U)
      → Outcome (Unit {0}) × Left A S T U O
      → Type 0
  Answered l (ok (c, t, u)) (result, l') =
      (result ≡ ok tt)
      × (l'.shim.bridges
          ≡ insert ⦃eq = addresses.eq⦄ source (new_bridge source c t u) l.shim.bridges)
      × (sent l'.shim.raknet
          ≡ sent l.shim.raknet ++ ((source, code open_connection_reply ∷ 0 ∷ []) ∷ []))
  Answered l (err kind) (result, l') =
      (bytes : List ℕ) × (packet_datagram W farewell RangeList.new 0 ≡ ok bytes)
      × (result ≡ ok tt)
      × (l'.shim.bridges ≡ l.shim.bridges)
      × (sent l'.shim.raknet
          ≡ sent l.shim.raknet
            ++ ((source, bytes) ∷ (source, code no_free_incoming_connections ∷ 0 ∷ []) ∷ []))
  Answered l panic (result, l') = result ≡ panic
  Answered l stuck (result, l') = result ≡ stuck

  module _ ⦃socket : UdpSocket A S⦄ (ws : BitWriteLaws bw) (sends : SendsAll socket sent) where
    bridge_or_drop-Answered :
        (l : Left A S T U O) (r : Outcome (TcpUdpConn.Connection × T × U) × O)
        → Answered l r.0 (
            let (made, s, os) = bridge_or_drop W source l.shim.raknet r in
            answer source (with_socket s (record l { os = os })) made)
    unfolding bridge_or_drop answer respond
    bridge_or_drop-Answered l (ok (c, t, u), os) =
        (sends.sends _ source l.shim.raknet, refl, sends.keeps _ source l.shim.raknet)
    bridge_or_drop-Answered l (err kind, os) =
        let (bytes, e, dropped) = drop-new ⦃udp = client_socket socket source⦄ ws l.shim.raknet in
        let gone = dropped (sends.sends bytes source l.shim.raknet) in
        let s = (socket.send_to bytes source l.shim.raknet).1 in
        (
          bytes,
          e,
          sends.sends _ source _,
          refl,
          sends.keeps _ source _
              ∙ ap
                  (λ (s' : S).
                    sent s' ++ ((source, code no_free_incoming_connections ∷ 0 ∷ []) ∷ []))
                  gone
              ∙ rw (sends.keeps bytes source l.shim.raknet)
                  (append_assoc (sent l.shim.raknet) ((source, bytes) ∷ []) _),
        )
    bridge_or_drop-Answered l (panic, os) = refl
    bridge_or_drop-Answered l (stuck, os) = refl

    -- Let a datagram of at most two bytes that begins with an open request come from an address that
    -- has no bridge, on a socket that can be cloned and on which every datagram goes out. If the
    -- connection to the server can be opened, a new bridge with that connection is in the table under
    -- the address, and one datagram has been sent, to that address: the reply. If it fails with an
    -- error, the bridges are as they were, and two datagrams have been sent, to that address: the
    -- disconnect notification of the RakNet connection that had been made, which is dropped, and the
    -- answer that there is no free connection. Either way the call succeeds, and no bridge of any other
    -- address is added, removed or changed.
    pub receive_datagram-Answered :
        (R : Type 0) ⦃br : BitRead R⦄ ⦃tcp : TcpUdpConn.Tcp T⦄ ⦃udp : TcpUdpConn.Udp U⦄
        ⦃sockets : Sockets A S T U O⦄
        → (eq_laws : EqLaws addresses.eq) (n : ℕ) (l : Left A S T U O)
        → get ⦃eq = addresses.eq⦄ source l.shim.bridges ≡ none
        → n ≤ 2
        → get_or l.buf 0 0 ≡ code open_connection_request
        → socket.try_clone l.shim.raknet ≡ ok tt
        → Answered l
            (connect ⦃network = sockets.network⦄ l.shim.connect_addr l.os).0
            (receive_datagram W R n source l)
          × ((k : A)
              → k ≢ source
              → get ⦃eq = addresses.eq⦄ k (receive_datagram W R n source l).1.shim.bridges
                ≡ get ⦃eq = addresses.eq⦄ k l.shim.bridges)
    unfolding receive_datagram receive_unknown create_bridge
    receive_datagram-Answered R ⦃sockets⦄ eq_laws n l unknown short request cloned =
        let small : leb n 2 ≡ true = ground arith in
        let asks : (get_or l.buf 0 0 == code open_connection_request) ≡ true =
          (==_iff _ _).1 request in
        (
          rw (unknown, receive_datagram, small, asks, receive_unknown, cloned, create_bridge)
              (bridge_or_drop-Answered l
                (connect ⦃network = sockets.network⦄ l.shim.connect_addr l.os)),
          λ k other. receive_datagram_other eq_laws k source other W R n l,
        )
