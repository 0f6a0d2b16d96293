-- ===== src/Raknet/Connection/Datagram.antt =====
-- The datagram of one packet (src/raknet/send.rs), handled by the other side
-- (src/raknet/connection.rs).
use raknet_shim.Prelude.{
  ℕ, zero, suc, ◌+◌, ◌%◌, ◌^◌, ◌<◌, ◌≤◌, ◌≡◌, refl, ◌∙◌, sym, ap, Bool, true, false, List, [], ◌∷◌,
  ◌++◌, length, length-append, append-nil, arith, Outcome, ok, err, IsU32, append_assoc,
  unexpected_eof,
}
use raknet_shim.Prelude as P
use raknet_shim.Bits.{BitWrite, BitWriteLaws, BitRead, BitReadLaws, Reads, Takes}
use raknet_shim.Bits.Digits.{length-bytes_bits, le_bits}
use raknet_shim.Bits.Read.{◌>>=◌, Reads->>=, pure-Reads, Takes->>=}
use raknet_shim.Raknet.RangeList.{Range, RangeList}
use raknet_shim.Raknet.RangeList.Codec.{range_list_bits, deserialize-Reads}
use raknet_shim.Raknet.Packet.{RaknetPacket}
use raknet_shim.Raknet.Packet.Layout.{Fits, packet_bits}
use raknet_shim.Raknet.Packet.RoundTrip.{split_read_as, deserialize-Takes, deserialize_eof}
use raknet_shim.Raknet.Send.{packet_datagram}
use raknet_shim.Raknet.Send.Layout.{
  AcksFit, listed, acks_bits, datagram_bits, packet_datagram-bits, length-datagram_bits-pos,
}
use raknet_shim.Raknet.Recv.{process_incoming_packets}
use raknet_shim.Raknet.Connection.{
  Connection, received, parse_loop, parse_packets, read_acks, read_time, handle_header,
  handle_datagram,
}

-- A packet as it is read back.
abbrev pub as_read : RaknetPacket → RaknetPacket
as_read p = record p { split_packet_info = split_read_as p.split_packet_info }

module _ {R : Type 0} ⦃br : BitRead R⦄ (laws : BitReadLaws br) where
  open laws use {rest, read_bit-Reads, read_int-Reads}

  -- The acknowledgements are skipped.
  acks-Takes {ℓ} :
      {B : Type ℓ} (rs : List Range) (time : ℕ) (f : Unit {0} → R → Outcome (B × R)) (r : R) {b : B}
      {more left : List Bool}
      → AcksFit (listed rs)
      → IsU32 time
      → rest r ≡ acks_bits rs time ++ more
      → ((s : R) → rest s ≡ more → Takes rest (f tt s) b left)
      → Takes rest ((br.read_bit >>= λ has_acks. read_acks has_acks >>= f) r) b left
  unfolding acks_bits read_acks
  acks-Takes [] time f r h t e k =
      Takes->>= rest _ _ r false ((read_bit-Reads false).takes _ r e)
        λ s e'. Takes->>= rest _ f s tt ((pure-Reads rest tt).takes _ s e') k
  acks-Takes (x ∷ rs) time f r {b} {more} h t e k =
      Takes->>= rest _ _ r true ((read_bit-Reads true).takes _ r e)
        λ s e'. Takes->>= rest _ f s tt (skipped.takes _ s (e' ∙ ap (λ bs. bs ++ more) (sym all))) k
    where
      skipped :
          Reads rest
            (read_acks true)
            tt
            (le_bits 4 time ++ (range_list_bits (listed (x ∷ rs)) ++ []))
      skipped =
          Reads->>= rest _ (read_int-Reads 4 time t) (
            Reads->>= rest _ (deserialize-Reads laws (listed (x ∷ rs)) h.0 h.1)
              (pure-Reads rest tt))

      all :
          le_bits 4 time ++ (range_list_bits (listed (x ∷ rs)) ++ [])
          ≡ le_bits 4 time ++ range_list_bits (listed (x ∷ rs))
      all = ap (◌++◌ (le_bits 4 time)) (append-nil _)

  handle_header-Takes :
      (rs : List Range) (time now : ℕ) (r : R) {more : List Bool}
      → AcksFit (listed rs)
      → IsU32 time
      → rest r ≡ acks_bits rs time ++ ((false ∷ []) ++ more)
      → Takes rest (handle_header now r) now more
  unfolding handle_header read_time
  handle_header-Takes rs time now r h t e = acks-Takes rs time _ r h t e λ s e'.
      Takes->>= rest _ _ s false ((read_bit-Reads false).takes _ s e')
        λ u f. (pure-Reads rest now).takes _ u f

  parse_loop-one :
      (fuel : ℕ) (p : RaknetPacket) (n : ℕ) (r : R)
      → 1 < fuel
      → Fits p
      → rest r ≡ packet_bits n p
      → parse_loop fuel r ≡ ok (as_read p ∷ [])
  unfolding parse_loop
  parse_loop-one zero p n r h fits e = absurd (omega arith)
  parse_loop-one (suc zero) p n r h fits e = absurd (omega arith)
  parse_loop-one (suc (suc fuel)) p n r h fits e =
      let (s, one, none_left) =
        deserialize-Takes laws p n [] r fits (e ∙ sym (append-nil _)) refl in
      rw (one, parse_loop, deserialize_eof laws s none_left) refl

module _ {W R : Type 0} ⦃bw : BitWrite W⦄ ⦃br : BitRead R⦄ (ws : BitWriteLaws bw)
    (rs : BitReadLaws br) where
  -- Let a packet and the acknowledgements fit their fields. Then the datagram of the packet is made,
  -- and a connection that handles it skips the acknowledgements, keeps its time, and processes
  -- exactly that packet, with the index and the count of a split one as `read_as` gives them.
  pub handle_datagram-packet_datagram :
      (p : RaknetPacket) (acks : RangeList) (time : ℕ) (c : Connection)
      → Fits p
      → AcksFit acks
      → IsU32 time
      → (bytes : List ℕ) × (packet_datagram W p acks time ≡ ok bytes)
        × (handle_datagram R bytes c
            ≡ P.◌>>=◌
                (process_incoming_packets (as_read p ∷ []) c.recv c.acks c.closed)
                (λ t. ok (received c t)))
  unfolding handle_datagram parse_packets datagram_bits
  handle_datagram-packet_datagram p acks time c h a t =
      let (bytes, e, octets, all) = packet_datagram-bits ws p acks time h a t in
      let start = rs.rest-new_reader bytes octets ∙ all in
      let (r, header, left) =
        handle_header-Takes rs acks.ranges time c.remote_system_time _ a t start in
      (
        bytes,
        e,
        rw
            (
              header,
              parse_packets,
              parse_loop-one rs (length bytes + 1) p _ r
                  (omega (
                    arith,
                    length-datagram_bits-pos p acks time,
                    length-bytes_bits bytes,
                    ap length all,
                  ))
                  h left,
            )
            refl,
      )
