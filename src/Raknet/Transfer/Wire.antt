-- ===== src/Raknet/Transfer/Wire.antt =====
-- Datagrams on their way: what `SendPart::send_packets` of src/raknet/send.rs gives the socket, handled
-- one after the other by the other side (`handle_datagram` of src/raknet/connection.rs).
use raknet_shim.Prelude.{
  ℕ, ◌≡◌, refl, sym, ap, ◌∙◌, List, [], ◌∷◌, ◌++◌, append-nil, append_assoc, All, Outcome, ok, err,
  panic, stuck, ◌>>=◌, IsU32, arith,
}
use raknet_shim.Bits.{BitWrite, BitWriteLaws, BitRead, BitReadLaws}
use raknet_shim.Packet.{Packet}
use raknet_shim.Raknet.RangeList
use raknet_shim.Raknet.RangeList.{RangeList}
use raknet_shim.Raknet.Packet.{RaknetPacket}
use raknet_shim.Raknet.Packet.Layout.{Fits}
use raknet_shim.Raknet.Send.{Udp, send_datagram, send_packet, send_each}
use raknet_shim.Raknet.Transfer.Listed.{Lists, packet_datagram-Lists}
use raknet_shim.Raknet.Send.Layout.{AcksFit}
use raknet_shim.Raknet.Send.Parts.{IsReadBack}
use raknet_shim.Raknet.Recv.{Receiving, process_all, process_incoming_packets}
use raknet_shim.Raknet.Recv.Joined.{process_all-nil, process_all-append}
use raknet_shim.Raknet.Recv.Frame.{behind, process_all-behind}
use raknet_shim.Raknet.Connection as Connected
use raknet_shim.Raknet.Connection.{Connection, received, handle_datagram}
use raknet_shim.Raknet.Connection.Datagram.{handle_datagram-packet_datagram}

-- A socket over which every datagram goes out: `sent` is what has gone out so far.
pub record Keeps {S : Type 0} (udp : Udp S) (sent : S → List (List ℕ)) : Type 0 where
  pub sends : (bytes : List ℕ) (s : S) → (udp.send_to bytes s).0 ≡ ok tt
  pub keeps : (bytes : List ℕ) (s : S) → sent (udp.send_to bytes s).1 ≡ sent s ++ (bytes ∷ [])

-- One datagram after the other, with all packets that they bring.
unfoldable pub handle_all :
    (R : Type 0) ⦃br : BitRead R⦄ → List (List ℕ) → Connection → Outcome (Connection × List Packet)
handle_all R [] c = ok (c, [])
handle_all R (d ∷ ds) c =
    handle_datagram R d c >>= λ (c₁, ps). handle_all R ds c₁ >>= λ (c₂, qs). ok (c₂, ps ++ qs)

-- Behind a packet that was sent.
send_each-step :
    (W : Type 0) ⦃bw : BitWrite W⦄ {S : Type 0} ⦃udp : Udp S⦄
    → (x : RaknetPacket) (xs : List RaknetPacket) (acks : RangeList) (time : ℕ) (s : S)
      {acks' : RangeList} {s' : S}
    → send_packet W x acks time s ≡ (ok tt, acks', s')
    → send_each W (x ∷ xs) acks time s ≡ send_each W xs acks' time s'
unfolding send_each
send_each-step W {S} x xs acks time s e =
    let result = ap (λ (r : Outcome (Unit {0}) × RangeList × S). r.0) e in
    let cleared = ap (λ (r : Outcome (Unit {0}) × RangeList × S). r.1) e in
    let socket = ap (λ (r : Outcome (Unit {0}) × RangeList × S). r.2) e in
    rw (result, cleared, socket, send_each) refl

-- The state in which a connection takes RakNet packets in, and what it makes of a whole list.
abbrev pub entering : Connection → Receiving
entering c = record { part = c.recv; acks = c.acks; closed = c.closed; packets = [] }

abbrev pub taken_in : List RaknetPacket → Connection → Outcome (Connection × List Packet)
taken_in xs c = process_all xs (entering c) >>= λ t. ok (received c t)

-- What the packets of later datagrams add.
further :
    (c : Connection) (t : Receiving) (o : Outcome Receiving)
    → ((o >>= λ u. ok (received (received c t).0 u)) >>= λ (c₂, qs). ok (c₂, t.packets ++ qs))
      ≡ ((o >>= λ u. ok (behind t.packets u)) >>= λ u. ok (received c u))
unfolding received
further c t (ok u) = refl
further c t (err kind) = refl
further c t panic = refl
further c t stuck = refl

entering-received :
    (c : Connection) (t : Receiving) → behind t.packets (entering (received c t).0) ≡ t
unfolding received
entering-received c t = ap (λ (ps : List Packet). record t { packets = ps }) (append-nil t.packets)

module _ (R : Type 0) ⦃br : BitRead R⦄ where
  rest-taken_in :
      (xs : List RaknetPacket) (ds : List (List ℕ)) (c : Connection) (o : Outcome Receiving)
      → ((c' : Connection) → handle_all R ds c' ≡ taken_in xs c')
      → ((o >>= λ t. ok (received c t)) >>= λ (c₁, ps).
          handle_all R ds c₁ >>= λ (c₂, qs). ok (c₂, ps ++ qs))
        ≡ ((o >>= process_all xs) >>= λ t. ok (received c t))
  unfolding received
  rest-taken_in xs ds c (ok t) ih =
      let c' = (received c t).0 in
      let all : process_all xs t ≡ (process_all xs (entering c') >>= λ u. ok (behind t.packets u)) =
        ap (process_all xs) (sym (entering-received c t))
        ∙ process_all-behind xs t.packets (entering c') in
      rw (ih c', all) (further c t (process_all xs (entering c')))
  rest-taken_in xs ds c (err kind) ih = refl
  rest-taken_in xs ds c panic ih = refl
  rest-taken_in xs ds c stuck ih = refl

module _ {W R S : Type 0} ⦃bw : BitWrite W⦄ ⦃br : BitRead R⦄ ⦃udp : Udp S⦄ (ws : BitWriteLaws bw)
    (rs : BitReadLaws br) (sent : S → List (List ℕ)) (keeps : Keeps udp sent) where
  -- One datagram is sent, and the acknowledgements are cleared.
  send_packet_lem :
      (x : RaknetPacket) (acks : RangeList) (time : ℕ) (s : S)
      → Fits x
      → IsReadBack x
      → AcksFit acks
      → IsU32 time
      → (bytes : List ℕ) × (s' : S) × (send_packet W x acks time s
          ≡ (ok tt, RangeList.clear acks, s'))
        × (sent s' ≡ sent s ++ (bytes ∷ []))
        × ((ds : List (List ℕ)) → Lists R acks (bytes ∷ ds))
        × ((c : Connection) → handle_datagram R bytes c ≡ taken_in (x ∷ []) c)
  unfolding send_packet send_datagram process_incoming_packets
  send_packet_lem x acks time s h back a t =
      let (bytes, e, _) = handle_datagram-packet_datagram ws rs x acks time Connected.new h a t in
      (
        bytes,
        (udp.send_to bytes s).1,
        rw (e, send_datagram, keeps.sends bytes s) refl,
        keeps.keeps bytes s,
        λ ds. packet_datagram-Lists ws rs x acks time bytes ds h a t e,
        λ c.
            let (bytes', e', handled) = handle_datagram-packet_datagram ws rs x acks time c h a t in
            let same : ◌≡◌ {A = Outcome (List ℕ)} (ok bytes') (ok bytes) = sym e' ∙ e in
            let same_bytes : bytes' ≡ bytes = cc in
            (rw same_bytes at handled)
            ∙ ap (λ split. taken_in (record x { split_packet_info = split } ∷ []) c) back,
      )

  -- All datagrams are sent, the first with the acknowledgements that there were, and the other side
  -- takes in from them what stands in the packets, whatever state it is in.
  abbrev pub Arrives :
      List RaknetPacket → RangeList → RangeList → S → Outcome (Unit {0}) × RangeList × S → Type 0
  Arrives xs before acks s r =
      (ds : List (List ℕ)) × (s' : S) × (r ≡ (ok tt, acks, s'))
      × (sent s' ≡ sent s ++ ds)
      × Lists R before ds
      × ((c : Connection) → handle_all R ds c ≡ taken_in xs c)

  first-Arrives :
      (x : RaknetPacket) (xs : List RaknetPacket) (acks : RangeList) (time : ℕ) (s : S)
      → Fits x
      → IsReadBack x
      → AcksFit acks
      → IsU32 time
      → ((s' : S)
          → Arrives xs
              (RangeList.clear acks)
              (RangeList.clear acks)
              s'
              (send_each W xs (RangeList.clear acks) time s'))
      → Arrives (x ∷ xs) acks (RangeList.clear acks) s (send_each W (x ∷ xs) acks time s)
  unfolding send_each handle_all
  first-Arrives x xs acks time s h back a t later =
      let (bytes, s', e₁, kept, lists, handled) = send_packet_lem x acks time s h back a t in
      let (ds, s'', e₂, kept', _, rest) = later s' in
      (
        bytes ∷ ds,
        s'',
        send_each-step W x xs acks time s e₁ ∙ e₂,
        kept' ∙ rw kept (append_assoc (sent s) (bytes ∷ []) ds),
        lists ds,
        λ c.
            rw (handled c, process_all-append (x ∷ []) xs (entering c))
              (rest-taken_in R xs ds c (process_all (x ∷ []) (entering c)) rest),
      )

  rest-Arrives :
      (xs : List RaknetPacket) (time : ℕ) (s : S)
      → All Fits xs
      → All IsReadBack xs
      → IsU32 time
      → Arrives xs RangeList.new RangeList.new s (send_each W xs RangeList.new time s)
  unfolding send_each RangeList.clear RangeList.new handle_all received
  rest-Arrives [] time s h back t =
      ([], s, refl, sym (append-nil (sent s)), refl, λ c. rw (process_all-nil (entering c)) refl)
  rest-Arrives (x ∷ xs) time s h back t =
      first-Arrives x xs RangeList.new time s h.0 back.0 (omega arith) t
        (λ s'. rest-Arrives xs time s' h.1 back.1 t)

  pub send_each-Arrives :
      (x : RaknetPacket) (xs : List RaknetPacket) (acks : RangeList) (time : ℕ) (s : S)
      → All Fits (x ∷ xs)
      → All IsReadBack (x ∷ xs)
      → AcksFit acks
      → IsU32 time
      → Arrives (x ∷ xs) acks RangeList.new s (send_each W (x ∷ xs) acks time s)
  unfolding RangeList.clear RangeList.new
  send_each-Arrives x xs acks time s h back a t =
      first-Arrives x xs acks time s h.0 back.0 a t (λ s'. rest-Arrives xs time s' h.1 back.1 t)
