-- ===== src/Raknet/Transfer/EndToEnd.antt =====
-- `Connection::send` of src/raknet/connection.rs on the one side, and `handle_datagram` on the other.
use raknet_shim.Prelude.{
  ℕ, ◌≡◌, ◌≤◌, refl, sym, ap, ◌∙◌, Bool, false, List, [], ◌∷◌, ◌++◌, length, All, Outcome, ok,
  IsU32, IsByte, arith,
}
use raknet_shim.Bits.{BitWrite, BitWriteLaws, BitRead, BitReadLaws}
use raknet_shim.Packet.{Packet}
use raknet_shim.Raknet.RangeList
use raknet_shim.Raknet.RangeList.{RangeList}
use raknet_shim.Raknet.Packet.{RaknetPacket}
use raknet_shim.Raknet.Packet.Layout.{Fits}
use raknet_shim.Raknet.Send.{Udp, process_outgoing_packets, send_all, send_packets}
use raknet_shim.Raknet.Send.Layout.{AcksFit}
use raknet_shim.Raknet.Send.Bounds.{Counts, Bounded, IsSized, process_outgoing_packets-Bounded}
use raknet_shim.Raknet.Send.Parts.{most_bytes, IsReadBack, process_outgoing_packets-IsReadBack}
use raknet_shim.Raknet.Recv.{Receiving, is_disconnect, process_all, process_incoming_packets}
use raknet_shim.Raknet.Recv.Joined.{process_all-nil}
use raknet_shim.Raknet.Connection.{Connection, received, send}
use raknet_shim.Raknet.Transfer.Outgoing.{InStep, Sendable}
use raknet_shim.Raknet.Transfer.RoundTrip.{process_incoming_packets-process_outgoing_packets}
use raknet_shim.Raknet.Transfer.Listed.{Lists}
use raknet_shim.Raknet.Transfer.Wire.{Keeps, handle_all, entering, Arrives, send_each-Arrives}

-- A packet of bytes that does not close the connection, and goes in at most 255 parts.
abbrev pub IsPlain : Packet → Type 0
IsPlain p = (is_disconnect p.bytes ≡ false) × (length p.bytes ≤ most_bytes) × All IsByte p.bytes

IsPlain-Sendable : (ps : List Packet) → All IsPlain ps → All Sendable ps
IsPlain-Sendable [] h = tt
IsPlain-Sendable (p ∷ ps) h = ((h.0.0, omega (arith, h.0.1)), IsPlain-Sendable ps h.1)

IsPlain-IsSized : (ps : List Packet) → All IsPlain ps → All IsSized ps
IsPlain-IsSized [] h = tt
IsPlain-IsSized (p ∷ ps) h = ((omega (arith, h.0.1), h.0.2), IsPlain-IsSized ps h.1)

IsPlain-short : (ps : List Packet) → All IsPlain ps → All (λ p. length p.bytes ≤ most_bytes) ps
IsPlain-short [] h = tt
IsPlain-short (p ∷ ps) h = (h.0.1, IsPlain-short ps h.1)

Bounded-Fits : (xs : List RaknetPacket) → All Bounded xs → All Fits xs
Bounded-Fits [] h = tt
Bounded-Fits (x ∷ xs) h = (h.0.fits, Bounded-Fits xs h.1)

module _ {S : Type 0} (R : Type 0) ⦃br : BitRead R⦄ (sent : S → List (List ℕ)) where
  -- From the state `c` of the sender and `d` of the receiver: the packets have gone over the wire.
  pub record Transferred (ps : List Packet) (c d : Connection) (s : S)
      (r : Outcome (Unit {0}) × Connection × S) : Type 0 where
    pub datagrams : List (List ℕ)
    pub c' : Connection
    pub d' : Connection
    pub s' : S
    pub sends : r ≡ (ok tt, c', s')
    pub goes_out : sent s' ≡ sent s ++ datagrams
    pub arrives : handle_all R datagrams d ≡ ok (d', ps)
    pub stays_open : d'.closed ≡ false
    pub acks_sent : Lists R c.acks datagrams
    pub acks_cleared : c'.acks ≡ RangeList.new
    pub in_step : InStep c'.send d'.recv

-- The sender, where its datagrams went out.
send-sent :
    (W : Type 0) ⦃bw : BitWrite W⦄ {S : Type 0} ⦃udp : Udp S⦄
    → (ps : List Packet) (c : Connection) (s : S) {acks' : RangeList} {s' : S} → c.closed ≡ false
    → send_all W (process_outgoing_packets ps c.send).0 c.acks c.remote_system_time s
      ≡ (ok tt, acks', s')
    → send W ps c s
      ≡ (ok tt, record c { send = (process_outgoing_packets ps c.send).1; acks = acks' }, s')
unfolding send send_packets
send-sent W {S} ps c s {acks'} {s'} open_c e =
    let result = ap (λ (r : Outcome (Unit {0}) × RangeList × S). r.0) e in
    let cleared = ap (λ (r : Outcome (Unit {0}) × RangeList × S). r.1) e in
    let socket = ap (λ (r : Outcome (Unit {0}) × RangeList × S). r.2) e in
    let after : Bool → Outcome (Unit {0}) × Connection × S = λ b. (
      ok tt,
      record c { closed = b; send = (process_outgoing_packets ps c.send).1; acks = acks' },
      s',
    ) in
    rw (open_c, send, result, cleared, socket) (ap after open_c)

module _ {W R S : Type 0} ⦃bw : BitWrite W⦄ ⦃br : BitRead R⦄ ⦃udp : Udp S⦄ (ws : BitWriteLaws bw)
    (rs : BitReadLaws br) (sent : S → List (List ℕ)) (keeps : Keeps udp sent) where
  send_all-Arrives :
      (xs : List RaknetPacket) (acks : RangeList) (time : ℕ) (s : S) (t : Receiving)
      (c : Connection) (p : Packet) (ps : List Packet)
      → process_all xs (entering c) ≡ ok t
      → t.packets ≡ p ∷ ps
      → All Fits xs
      → All IsReadBack xs
      → AcksFit acks
      → IsU32 time
      → Arrives ws rs sent keeps xs acks RangeList.new s (send_all W xs acks time s)
  unfolding send_all
  send_all-Arrives [] acks time s t c p ps e out h back a u =
      let none : ◌≡◌ {A = Outcome Receiving} (ok (entering c)) (ok t) =
        sym (process_all-nil (entering c)) ∙ e in
      let nothing : ◌≡◌ {A = List Packet} [] t.packets = cc in cc
  send_all-Arrives (x ∷ xs) acks time s t c p ps e out h back a u =
      send_each-Arrives ws rs sent keeps x xs acks time s h back a u

  -- Let both sides be open, the sender's counters, time and acknowledgements be of their types, the
  -- receiver wait for the indices that the sender is at, with nothing queued, and each packet be one
  -- of bytes, at most 300,000, that does not begin with the disconnect message. Then over a socket
  -- on which every datagram goes out, a call of `send` with one packet or more succeeds, the first datagram
  -- begins with exactly the sender's acknowledgements, which are cleared, and the receiver that handles the datagrams in their order
  -- gets exactly the packets, in order, stays open, and is left in step with the sender.
  pub send-Transferred :
      (p : Packet) (ps : List Packet) (c d : Connection) (s : S)
      → c.closed ≡ false
      → d.closed ≡ false
      → All IsPlain (p ∷ ps)
      → Counts c.send
      → AcksFit c.acks
      → IsU32 c.remote_system_time
      → InStep c.send d.recv
      → Transferred R sent (p ∷ ps) c d s (send W (p ∷ ps) c s)
  unfolding send send_packets received process_incoming_packets
  send-Transferred p ps c d s open_c open_d plain counts a u step =
      let (xs, part) = process_outgoing_packets (p ∷ ps) c.send in
      let (t, e, out, stays, step') =
        process_incoming_packets-process_outgoing_packets (p ∷ ps) c.send d.recv d.acks
          (IsPlain-Sendable (p ∷ ps) plain) step in
      let (bounded, _) =
        process_outgoing_packets-Bounded (p ∷ ps) c.send counts (IsPlain-IsSized (p ∷ ps) plain) in
      let back =
        process_outgoing_packets-IsReadBack (p ∷ ps) c.send (IsPlain-short (p ∷ ps) plain) in
      let e' : process_all xs (entering d) ≡ ok t = rw open_d e in
      let (ds, s', sends, kept, lists, arrives) =
        send_all-Arrives xs c.acks c.remote_system_time s t d p ps e' out (Bounded-Fits xs bounded)
          back a u in
      record {
        datagrams = ds;
        c' = record c { send = part; acks = RangeList.new };
        d' = (received d t).0;
        s' = s';
        sends = send-sent W (p ∷ ps) c s open_c sends;
        goes_out = kept;
        arrives = arrives d ∙ rw (e', out) refl;
        stays_open = stays;
        acks_sent = lists;
        acks_cleared = refl;
        in_step = step';
      }
