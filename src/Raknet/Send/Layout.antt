-- ===== src/Raknet/Send/Layout.antt =====
-- The bits of a datagram of src/raknet/send.rs: the acknowledgements, no time, and one packet.
use raknet_shim.Prelude.{
  length-replicate, ℕ, ◌-◌, length-replicate, ◌+◌, ◌%◌, ◌^◌, ◌<◌, ◌≡◌, refl, ap, ◌∙◌, Bool, true,
  false, List, [], ◌∷◌, ◌++◌, length, length-append, append-nil, arith, ok, IsU32, IsByte, All,
}
use raknet_shim.Raknet.RangeList
use raknet_shim.Bits.{BitWrite, BitWriteLaws, Emits, Adds, padding}
use raknet_shim.Bits.Digits.{length-bytes_bits, le_bits, bytes_bits}
use raknet_shim.Bits.Emit.{◌>>◌, Emits->>, Adds->>}
use raknet_shim.Raknet.RangeList.{Range, RangeList}
use raknet_shim.Raknet.RangeList.Codec.{AreU32, range_list_bits, serialize-Emits_lem}
use raknet_shim.Raknet.Packet as RakPacket
use raknet_shim.Raknet.Packet.{RaknetPacket}
use raknet_shim.Raknet.Packet.Layout.{Fits, packet_bits, head_bits, serialize-Adds}
use raknet_shim.Raknet.Send.{write_acks, packet_datagram}

-- The list of acknowledgements can be written.
abbrev pub AcksFit : RangeList → Type 0
AcksFit acks = (length acks.ranges < 2 ^ 16) × AreU32 acks.ranges

abbrev pub listed : List Range → RangeList
listed rs = record { ranges = rs }

unfoldable pub acks_bits : List Range → ℕ → List Bool
acks_bits [] time = false ∷ []
acks_bits (r ∷ rs) time = (true ∷ []) ++ (le_bits 4 time ++ range_list_bits (listed (r ∷ rs)))

-- What stands before the packet.
abbrev pub header_size : RangeList → ℕ → ℕ
header_size acks time = length (acks_bits acks.ranges time ++ (false ∷ []))

unfoldable pub datagram_bits : RaknetPacket → RangeList → ℕ → List Bool
datagram_bits p acks time =
    acks_bits acks.ranges time ++ ((false ∷ []) ++ packet_bits (header_size acks time) p)

-- A packet ends on a byte boundary.
pub packet_bits-whole : (n : ℕ) (p : RaknetPacket) → (n + length (packet_bits n p)) % 8 ≡ 0
unfolding packet_bits padding
packet_bits-whole n p = omega (
  arith,
  length-append (head_bits p) (padding (n + length (head_bits p)) ++ bytes_bits p.bytes),
  length-append (padding (n + length (head_bits p))) (bytes_bits p.bytes),
  length-replicate ((8 - (n + length (head_bits p)) % 8) % 8) false,
  length-bytes_bits p.bytes,
)

append-padding : (bs : List Bool) → length bs % 8 ≡ 0 → bs ++ padding (length bs) ≡ bs
unfolding padding
append-padding bs whole = rw whole (append-nil bs)

datagram_bits-whole :
    (p : RaknetPacket) (acks : RangeList) (time : ℕ) → length (datagram_bits p acks time) % 8 ≡ 0
unfolding datagram_bits
datagram_bits-whole p acks time = omega (
  arith,
  length-append (acks_bits acks.ranges time)
      ((false ∷ []) ++ packet_bits (header_size acks time) p),
  length-append (acks_bits acks.ranges time) (false ∷ []),
  packet_bits-whole (header_size acks time) p,
)

pub length-datagram_bits-pos :
    (p : RaknetPacket) (acks : RangeList) (time : ℕ) → 0 < length (datagram_bits p acks time)
unfolding datagram_bits
length-datagram_bits-pos p acks time = omega (
  arith,
  length-append (acks_bits acks.ranges time)
      ((false ∷ []) ++ packet_bits (header_size acks time) p),
)

module _ {W : Type 0} ⦃bw : BitWrite W⦄ (laws : BitWriteLaws bw) where
  open laws use {bits, write_bit-Emits, write_int-Emits}

  write_acks-Emits :
      (rs : List Range) (time : ℕ)
      → AcksFit (listed rs)
      → IsU32 time
      → Emits bits (write_acks (listed rs) time) (acks_bits rs time)
  unfolding write_acks RangeList.is_empty acks_bits
  write_acks-Emits [] time h t = write_bit-Emits false
  write_acks-Emits (r ∷ rs) time h t =
      Emits->> bits (write_bit-Emits true)
        (Emits->> bits (write_int-Emits 4 time t) (serialize-Emits_lem laws (listed (r ∷ rs)) h.1))

  -- The datagram is made, of those bits.
  pub packet_datagram-bits :
      (p : RaknetPacket) (acks : RangeList) (time : ℕ)
      → Fits p
      → AcksFit acks
      → IsU32 time
      → (bytes : List ℕ) × (packet_datagram W p acks time ≡ ok bytes)
        × All IsByte bytes
        × (bytes_bits bytes ≡ datagram_bits p acks time)
  unfolding packet_datagram datagram_bits
  packet_datagram-bits p acks time h a t =
      let (w, e, added) = written in
      let all : bits w ≡ datagram_bits p acks time =
        added ∙ ap (λ bs. bs ++ datagram_bits p acks time) laws.bits-new_writer in
      (
        bw.into_bytes w,
        rw e,
        laws.into_bytes-IsByte w,
        laws.bytes_bits-into_bytes w
            ∙ rw all (append-padding (datagram_bits p acks time) (datagram_bits-whole p acks time)),
      )
    where
      written :
          Adds bits bw.new_writer
            ((write_acks acks time >> bw.write_bit false >> RakPacket.serialize p) bw.new_writer)
            (datagram_bits p acks time)
      written =
          Adds->> bits _ _ bw.new_writer _ _
            ((write_acks-Emits acks.ranges time a t).adds bw.new_writer)
            λ v e. Adds->> bits _ _ v _ _ ((write_bit-Emits false).adds v) λ u f.
              let size : length (bits u) ≡ header_size acks time =
                rw (f, e, laws.bits-new_writer) refl in
              rw size at (serialize-Adds laws p u h)
