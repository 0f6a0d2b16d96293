-- ===== src/Raknet/Connection/Several.antt =====
-- Several packets in one datagram: `parse_packets` of src/raknet/recv.rs reads what `serialize` of
-- src/raknet/packet.rs wrote.
use raknet_shim.Prelude.{
  ℕ, zero, suc, ◌+◌, ◌*◌, ◌%◌, ◌≤◌, ◌<◌, ◌≡◌, refl, sym, ap, ◌∙◌, Bool, List, [], ◌∷◌, ◌++◌, map,
  length, length-append, append-nil, append_assoc, arith, All, Outcome, ok,
}
use raknet_shim.Prelude as P
use raknet_shim.Bits.{BitWrite, BitWriteLaws, BitRead, BitReadLaws}
use raknet_shim.Raknet.Packet.{RaknetPacket, serialize}
use raknet_shim.Raknet.Packet.Layout.{Fits, packet_bits, serialize-Adds}
use raknet_shim.Raknet.Packet.RoundTrip.{deserialize-Takes, deserialize_eof}
use raknet_shim.Raknet.Send.Layout.{packet_bits-whole}
use raknet_shim.Raknet.Connection.{parse_loop, parse_packets}
use raknet_shim.Raknet.Connection.Datagram.{as_read}

-- One packet after the other, as a peer may write them.
unfoldable pub write_all : {W : Type 0} → ⦃bw : BitWrite W⦄ → List RaknetPacket → W → Outcome W
write_all [] w = ok w
write_all (p ∷ ps) w = P.◌>>=◌ (serialize p w) (write_all ps)

-- Their bits, where `n` bits stand before them.
unfoldable all_bits : ℕ → List RaknetPacket → List Bool
all_bits n [] = []
all_bits n (p ∷ ps) = packet_bits n p ++ all_bits (n + length (packet_bits n p)) ps

all_bits-whole : (n : ℕ) (ps : List RaknetPacket) → n % 8 ≡ 0 → length (all_bits n ps) % 8 ≡ 0
unfolding all_bits
all_bits-whole n [] h = refl
all_bits-whole n (p ∷ ps) h = omega (
  arith,
  length-append (packet_bits n p) (all_bits (n + length (packet_bits n p)) ps),
  packet_bits-whole n p,
  all_bits-whole (n + length (packet_bits n p)) ps (packet_bits-whole n p),
)

module _ {W : Type 0} ⦃bw : BitWrite W⦄ (laws : BitWriteLaws bw) where
  write_all-adds :
      (ps : List RaknetPacket) (w : W)
      → All Fits ps
      → (w' : W) × (write_all ps w ≡ ok w')
        × (laws.bits w' ≡ laws.bits w ++ all_bits (length (laws.bits w)) ps)
  unfolding write_all all_bits
  write_all-adds [] w h = (w, refl, sym (append-nil (laws.bits w)))
  write_all-adds (p ∷ ps) w h =
      let (v, e, added) = serialize-Adds laws p w h.0 in
      let (w', e', added') = write_all-adds ps v h.1 in
      let bs = packet_bits (length (laws.bits w)) p in
      let size : length (laws.bits v) ≡ length (laws.bits w) + length bs =
        ap length added ∙ length-append (laws.bits w) bs in
      (
        w',
        rw e e',
        added'
            ∙ ap (λ (n : ℕ). laws.bits v ++ all_bits n ps) size
            ∙ ap (λ t. t ++ all_bits (length (laws.bits w) + length bs) ps) added
            ∙ append_assoc (laws.bits w) bs _,
      )

module _ {R : Type 0} ⦃br : BitRead R⦄ (laws : BitReadLaws br) where
  parse_loop-several :
      (fuel n : ℕ) (ps : List RaknetPacket) (r : R)
      → length ps < fuel
      → All Fits ps
      → laws.rest r ≡ all_bits n ps
      → parse_loop fuel r ≡ ok (map as_read ps)
  unfolding parse_loop all_bits
  parse_loop-several zero n ps r h fits e = absurd (omega arith)
  parse_loop-several (suc fuel) n [] r h fits e = rw (deserialize_eof laws r e) refl
  parse_loop-several (suc fuel) n (p ∷ ps) r h fits e =
      let m = n + length (packet_bits n p) in
      let whole = all_bits-whole m ps (packet_bits-whole n p) in
      let (s, one, left) = deserialize-Takes laws p n (all_bits m ps) r fits.0 e whole in
      rw (one, parse_loop-several fuel m ps s (omega arith) fits.1 left) refl

module _ {W R : Type 0} ⦃bw : BitWrite W⦄ ⦃br : BitRead R⦄ (ws : BitWriteLaws bw)
    (rs : BitReadLaws br) where
  -- Let packets fit: their numbers be below the bounds of their types, and the data of each be bytes,
  -- fewer than 2 ^ 13. Written one after the other, wherever the writer stands, they are parsed as
  -- exactly these packets, in order, with the index and the count of a split one as `read_as` gives
  -- them, by a reader that finds what was added and nothing behind it, where the datagram has more
  -- bytes than there are packets or as many.
  pub parse_packets-write_all :
      (ps : List RaknetPacket) (w : W)
      → All Fits ps
      → (w' : W) × (bs : List Bool) × (write_all ps w ≡ ok w')
        × (ws.bits w' ≡ ws.bits w ++ bs)
        × ((bytes : List ℕ) (r : R)
            → rs.rest r ≡ bs
            → length ps ≤ length bytes
            → parse_packets R bytes r ≡ ok (map as_read ps))
  unfolding parse_packets
  parse_packets-write_all ps w h =
      let (w', e, added) = write_all-adds ws ps w h in
      (
        w',
        all_bits (length (ws.bits w)) ps,
        e,
        added,
        λ bytes r left few.
            parse_loop-several rs (length bytes + 1) (length (ws.bits w)) ps r (omega arith) h left,
      )
