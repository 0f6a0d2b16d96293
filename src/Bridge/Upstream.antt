-- ===== src/Bridge/Upstream.antt =====
-- The way from a RakNet client through `Bridge::raknet_receive` of src/bridge.rs to the server.
mod Tests
use raknet_shim.Prelude.{
  ℕ, ◌≡◌, ◌<◌, refl, sym, ap, ◌∙◌, Bool, false, List, [], ◌∷◌, ◌++◌, map, length, All, Outcome, ok,
  err, panic, stuck, ◌>>=◌, returned, bind_parts, IsU32, would_block,
}
use raknet_shim.Bits.{BitWrite, BitWriteLaws, BitRead, BitReadLaws}
use raknet_shim.Packet.{Packet}
use raknet_shim.Raknet.Send as Send
use raknet_shim.Raknet.Send.Layout.{AcksFit}
use raknet_shim.Raknet.Send.Bounds.{Counts}
use raknet_shim.Raknet.Connection as RakConn
use raknet_shim.Raknet.Connection.{handle_datagram}
use raknet_shim.Raknet.Transfer.Outgoing.{InStep}
use raknet_shim.Raknet.Transfer.Wire.{Keeps, handle_all}
use raknet_shim.Raknet.Transfer.EndToEnd.{IsPlain, Transferred, send-Transferred}
use raknet_shim.TcpUdp as TcpUdpConn
use raknet_shim.TcpUdp.{send_one, Tcp, Udp, BufferOffset, receive_tcp}
use raknet_shim.TcpUdp.Framing.{TcpLaws}
use raknet_shim.TcpUdp.Rounds.{partial}
use raknet_shim.TcpUdp.Transfer.{TakesAll, IsTcp, as_ordered, receive_tcp-send}
use raknet_shim.Bridge.{Bridge}
use raknet_shim.Bridge.Receive.{pass_on, raknet_receive}

-- One datagram after the other; the first error ends it.
unfoldable pub relay_all :
    (R : Type 0) ⦃br : BitRead R⦄ {A T U : Type 0} ⦃tcp : Tcp T⦄ ⦃udp : Udp U⦄
    → List (List ℕ)
    → Bridge A T U
    → Outcome (Unit {0}) × Bridge A T U
relay_all R [] b = (ok tt, b)
relay_all R (d ∷ ds) b =
    let (result, b') = raknet_receive R d b in
    elim result [ ok _ ↦ relay_all R ds b' | failed ↦ (failed, b') ]

module _ {T U : Type 0} ⦃tcp : Tcp T⦄ ⦃udp : Udp U⦄ where
  send-append :
      (ps qs : List Packet) (c : TcpUdpConn.Connection) (t : T) (u : U)
      → TcpUdpConn.send (ps ++ qs) c t u
        ≡ (TcpUdpConn.send ps c t u >>= λ (c', t', u'). TcpUdpConn.send qs c' t' u')
  unfolding TcpUdpConn.send
  send-append [] qs c t u = refl
  send-append (p ∷ ps) qs c t u =
      bind_parts (send_one p c t u) _ _ _ (λ (c', t', u'). send-append ps qs c' t' u')

  send-split :
      (ps qs : List Packet) (c c' : TcpUdpConn.Connection) (t t' : T) (u u' : U)
      → TcpUdpConn.send (ps ++ qs) c t u ≡ ok (c', t', u')
      → (c₁ : TcpUdpConn.Connection) × (t₁ : T) × (u₁ : U) × (TcpUdpConn.send ps c t u
          ≡ ok (c₁, t₁, u₁))
        × (TcpUdpConn.send qs c₁ t₁ u₁ ≡ ok (c', t', u'))
  send-split ps qs c c' t t' u u' e =
      let ((c₁, t₁, u₁), later, first) =
        returned (TcpUdpConn.send ps c t u) _ (sym (send-append ps qs c t u) ∙ e) in
      (c₁, t₁, u₁, first, later)

module _ (R : Type 0) ⦃br : BitRead R⦄ where
  handle_all-cons :
      (x : List ℕ) (ds : List (List ℕ)) (c d : RakConn.Connection) (ps : List Packet)
      → handle_all R (x ∷ ds) c ≡ ok (d, ps)
      → (d₁ : RakConn.Connection) × (ps₁ qs : List Packet) × (handle_datagram R x c ≡ ok (d₁, ps₁))
        × (handle_all R ds d₁ ≡ ok (d, qs))
        × (ps ≡ ps₁ ++ qs)
  unfolding handle_all
  handle_all-cons x ds c d ps e =
      let ((d₁, ps₁), e₁, h₁) = returned (handle_datagram R x c) _ e in
      let ((d₂, qs), e₂, h₂) = returned (handle_all R ds d₁) _ e₁ in
      let same_d : d₂ ≡ d = cc in
      (d₁, ps₁, qs, h₁, h₂ ∙ ap (λ (y : RakConn.Connection). ok (y, qs)) same_d, cc)

module _ (R : Type 0) ⦃br : BitRead R⦄ {A T U : Type 0} ⦃tcp : Tcp T⦄ ⦃udp : Udp U⦄ where
  raknet_receive-sends :
      (x : List ℕ) (b : Bridge A T U) {d : RakConn.Connection} {ps : List Packet}
      {c : TcpUdpConn.Connection} {t : T} {u : U}
      → handle_datagram R x b.raknet ≡ ok (d, ps)
      → TcpUdpConn.send ps b.tcpudp b.tcp b.udp ≡ ok (c, t, u)
      → raknet_receive R x b ≡ (ok tt, record b { raknet = d; tcpudp = c; tcp = t; udp = u })
  unfolding raknet_receive pass_on
  raknet_receive-sends x b e sent = rw (e, pass_on, sent) refl

  relay_all-step :
      (x : List ℕ) (ds : List (List ℕ)) (b : Bridge A T U) {b' : Bridge A T U}
      → raknet_receive R x b ≡ (ok tt, b')
      → relay_all R (x ∷ ds) b ≡ relay_all R ds b'
  unfolding relay_all
  relay_all-step x ds b e =
      let result = ap (λ (r : Outcome (Unit {0}) × Bridge A T U). r.0) e in
      let left = ap (λ (r : Outcome (Unit {0}) × Bridge A T U). r.1) e in
      rw (result, left, relay_all) refl

  -- What the datagrams bring is sent on, as in one call.
  relay_all-sends :
      (ds : List (List ℕ)) (b : Bridge A T U) (d : RakConn.Connection) (ps : List Packet)
      (c : TcpUdpConn.Connection) (t : T) (u : U)
      → handle_all R ds b.raknet ≡ ok (d, ps)
      → TcpUdpConn.send ps b.tcpudp b.tcp b.udp ≡ ok (c, t, u)
      → relay_all R ds b ≡ (ok tt, record b { raknet = d; tcpudp = c; tcp = t; udp = u })
  unfolding relay_all handle_all TcpUdpConn.send
  relay_all-sends [] b d ps c t u e sent =
      let same_d : b.raknet ≡ d = cc in
      let none : ◌≡◌ {A = List Packet} [] ps = cc in
      let kept : ◌≡◌ {A = Outcome (TcpUdpConn.Connection × T × U)} (ok (b.tcpudp, b.tcp, b.udp))
          (ok (c, t, u)) =
        rw (sym none) at sent in
      let same_c : b.tcpudp ≡ c = cc in
      let same_t : b.tcp ≡ t = cc in
      let same_u : b.udp ≡ u = cc in
      λ i.
        (ok tt, record b { raknet = same_d i; tcpudp = same_c i; tcp = same_t i; udp = same_u i })
  relay_all-sends (x ∷ ds) b d ps c t u e sent =
      let (d₁, ps₁, qs, h₁, h₂, same) = handle_all-cons R x ds b.raknet d ps e in
      let (c₁, t₁, u₁, e₁, e₂) =
        send-split ps₁ qs b.tcpudp c b.tcp t b.udp u
          (ap (λ zs. TcpUdpConn.send zs b.tcpudp b.tcp b.udp) (sym same) ∙ sent) in
      let b₁ : Bridge A T U = record b { raknet = d₁; tcpudp = c₁; tcp = t₁; udp = u₁ } in
      relay_all-step x ds b (raknet_receive-sends x b h₁ e₁)
      ∙ relay_all-sends ds b₁ d qs c t u h₂ e₂

module _ (R : Type 0) ⦃br : BitRead R⦄ {S A T U : Type 0} ⦃tcp : Tcp T⦄ ⦃udp : Udp U⦄ where
  -- The client's datagrams have gone through the bridge: what the bridge has written of them stands
  -- for the packets, at a peer that reads it.
  pub record Relayed (sent : S → List (List ℕ)) (written : T → List ℕ) {V : Type 0} (peer : Tcp V)
      (pending : V → List ℕ) (ps : List Packet) (b : Bridge A T U) (s : S)
      (r : Outcome (Unit {0}) × RakConn.Connection × S) : Type 0 where
    pub datagrams : List (List ℕ)
    pub client : RakConn.Connection
    pub s' : S
    pub b' : Bridge A T U
    pub bytes : List ℕ
    pub sends : r ≡ (ok tt, client, s')
    pub goes_out : sent s' ≡ sent s ++ datagrams
    pub relays : relay_all R datagrams b ≡ (ok tt, b')
    pub writes : written b'.tcp ≡ written b.tcp ++ bytes
    pub in_step : InStep client.send b'.raknet.recv
    pub arrives :
        (fuel : ℕ) (v : V)
        → pending v ≡ bytes
        → length bytes < fuel
        → (left : BufferOffset) × (after : V) × (receive_tcp ⦃tcp = peer⦄ fuel TcpUdpConn.new.packet
              v []
            ≡ ok (would_block, (left, after, map as_ordered ps)))
          × (partial left ≡ [])

module _ {W R S A T U : Type 0} ⦃bw : BitWrite W⦄ ⦃br : BitRead R⦄ ⦃socket : Send.Udp S⦄
    ⦃tcp : Tcp T⦄ ⦃udp : Udp U⦄ where
  module _ (ws : BitWriteLaws bw) (rs : BitReadLaws br) (sent : S → List (List ℕ))
      (keeps : Keeps socket sent) (takes : TakesAll tcp) {V : Type 0} ⦃peer : Tcp V⦄
      (laws : TcpLaws peer) where
    -- Let a client and a bridge be in step, both open, the client's counters, time and acknowledgements
    -- be of their types, and each packet be one of bytes, at most 300,000, of kind `Reliable` or
    -- `ReliableOrdered`, that does not begin with the disconnect message. Then, where every datagram goes
    -- out and the bridge's TCP socket takes all that it is given, the client's `send` of one packet or more
    -- succeeds, the bridge that receives its datagrams in order passes all of them on without an error,
    -- and a server with a new connection that reads what the bridge wrote for them, in pieces of any
    -- size, receives exactly the packets, in order, as `ReliableOrdered`, with nothing left over; the
    -- client and the bridge are left in step.
    pub send-Relayed :
        (p : Packet) (ps : List Packet) (c : RakConn.Connection) (b : Bridge A T U) (s : S)
        → c.closed ≡ false
        → b.raknet.closed ≡ false
        → All IsPlain (p ∷ ps)
        → All IsTcp (p ∷ ps)
        → Counts c.send
        → AcksFit c.acks
        → IsU32 c.remote_system_time
        → InStep c.send b.raknet.recv
        → Relayed R sent takes.sent peer laws.pending (p ∷ ps) b s (RakConn.send W (p ∷ ps) c s)
    send-Relayed p ps c b s open_c open_b plain over_tcp counts acks time step =
        let over =
          send-Transferred ws rs sent keeps p ps c b.raknet s open_c open_b plain counts acks time
            step in
        let (t', bytes, e, wrote, arrives) =
          receive_tcp-send takes laws (p ∷ ps) b.tcpudp b.tcp b.udp over_tcp in
        record {
          datagrams = over.datagrams;
          client = over.c';
          s' = over.s';
          b' = record b { raknet = over.d'; tcp = t' };
          bytes = bytes;
          sends = over.sends;
          goes_out = over.goes_out;
          relays =
              relay_all-sends R over.datagrams b over.d' (p ∷ ps) b.tcpudp t' b.udp over.arrives e;
          writes = wrote;
          in_step = over.in_step;
          arrives = arrives;
        }
