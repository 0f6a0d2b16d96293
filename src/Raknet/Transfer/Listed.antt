-- ===== src/Raknet/Transfer/Listed.antt =====
-- The acknowledgements at the start of a datagram of src/raknet/send.rs, as its receiver finds them.
use raknet_shim.Prelude.{
  append_assoc, ℕ, ◌≡◌, refl, sym, subst, ◌∙◌, Bool, true, false, List, [], ◌∷◌, ◌++◌, Outcome, ok,
  IsU32, if◌then◌else◌,
}
use raknet_shim.Bits.{BitWrite, BitWriteLaws, BitRead, BitReadLaws, Takes}
use raknet_shim.Bits.Read.{◌>>=◌, pure, Takes->>=}
use raknet_shim.Raknet.RangeList
use raknet_shim.Raknet.RangeList.{Range, RangeList}
use raknet_shim.Raknet.RangeList.Codec.{deserialize-Reads}
use raknet_shim.Raknet.Packet.{RaknetPacket}
use raknet_shim.Raknet.Packet.Layout.{Fits}
use raknet_shim.Raknet.Send.{packet_datagram}
use raknet_shim.Raknet.Send.Layout.{AcksFit, listed, acks_bits, datagram_bits, packet_datagram-bits}

-- The acknowledgements at the start of a datagram, as `handle_header` reads them, but not dropped.
abbrev pub read_listed : {R : Type 0} → ⦃br : BitRead R⦄ → R → Outcome (RangeList × R)
read_listed ⦃br⦄ = do
  has_acks ← br.read_bit
  if has_acks then (br.read_int 4 >>= λ time. RangeList.Codec.deserialize) else pure (listed [])

module _ {R : Type 0} ⦃br : BitRead R⦄ (laws : BitReadLaws br) where
  open laws use {rest, read_bit-Reads, read_int-Reads}

  pub read_listed-Takes :
      (rs : List Range) (time : ℕ) (r : R) (more : List Bool)
      → AcksFit (listed rs)
      → IsU32 time
      → rest r ≡ acks_bits rs time ++ more
      → Takes rest (read_listed r) (listed rs) more
  unfolding acks_bits pure
  read_listed-Takes [] time r more h t e =
      Takes->>= rest _ _ r false ((read_bit-Reads false).takes _ r e) λ s e'. (s, refl, e')
  read_listed-Takes (x ∷ rs) time r more h t e =
      Takes->>= rest _ _ r true ((read_bit-Reads true).takes _ r e) λ s e'.
        Takes->>= rest _ _ s time ((read_int-Reads 4 time t).takes _ s (e' ∙ append_assoc _ _ more))
          λ u f. (deserialize-Reads laws (listed (x ∷ rs)) h.0 h.1).takes more u f

-- The first of some datagrams lists these acknowledgements; where there is none, there are none.
abbrev pub Lists : (R : Type 0) → ⦃br : BitRead R⦄ → RangeList → List (List ℕ) → Type 0
Lists R acks [] = acks.ranges ≡ []
Lists R ⦃br⦄ acks (d ∷ ds) = (left : R) × (read_listed (br.new_reader d) ≡ ok (acks, left))

pub packet_datagram-Lists :
    {W R : Type 0} ⦃bw : BitWrite W⦄ ⦃br : BitRead R⦄ (ws : BitWriteLaws bw) (rs : BitReadLaws br)
    (p : RaknetPacket) (acks : RangeList) (time : ℕ) (bytes : List ℕ) (ds : List (List ℕ))
    → Fits p
    → AcksFit acks
    → IsU32 time
    → packet_datagram W p acks time ≡ ok bytes
    → Lists R acks (bytes ∷ ds)
unfolding datagram_bits
packet_datagram-Lists {R} ⦃br⦄ ws rs p acks time bytes ds h a t e =
    let (bytes', e', octets, all) = packet_datagram-bits ws p acks time h a t in
    let same : ◌≡◌ {A = Outcome (List ℕ)} (ok bytes') (ok bytes) = sym e' ∙ e in
    let same_bytes : bytes' ≡ bytes = cc in
    let (left, read, _) =
      read_listed-Takes rs acks.ranges time (br.new_reader bytes') _ a t
        (rs.rest-new_reader bytes' octets ∙ all) in
    subst (λ b. Lists R acks (b ∷ ds)) same_bytes (left, read)
