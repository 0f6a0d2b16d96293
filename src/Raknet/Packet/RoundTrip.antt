-- ===== src/Raknet/Packet/RoundTrip.antt =====
-- `Deserialize` of a RakNet packet (src/raknet/packet.rs) on what `Serialize` wrote.
use raknet_shim.Prelude.{
  ok, err, unexpected_eof, ◌/◌, ℕ, ◌+◌, ◌%◌, ◌≡◌, refl, ◌∙◌, Bool, true, false, Option, none, some,
  List, [], ◌++◌, length, length-append, arith, Outcome, IsU32, append_assoc, append-nil,
}
use raknet_shim.Bits.{BitWrite, BitWriteLaws, BitRead, BitReadLaws, Reads, Takes, padding}
use raknet_shim.Bits.Digits.{bits_of, le_bits, bytes_bits, length-bytes_bits}
use raknet_shim.Bits.Read.{
  ◌>>=◌, Reads->>=, pure-Reads, Reads-cast, Takes->>=, assert-Reads, align-Takes,
}
use raknet_shim.Raknet.Comp.Layout.{compressed_bits}
use raknet_shim.Raknet.Comp.RoundTrip.{read_as, deserialize_u16-Reads, deserialize_u32-Reads}
use raknet_shim.Raknet.Packet.{
  serialize, ReliabilityData, unreliable, unreliable_sequenced, reliable, reliable_ordered,
  SplitPacketInfo, RaknetPacket, bit_length, read_ordering, read_by_id, read_rel_data,
  read_split_info, read_split, align, deserialize,
}
use raknet_shim.Raknet.Packet.Layout.{
  serialize-Adds, ordering_bits, rel_bits, info_bits, split_bits, head_bits, packet_bits, OrderFits,
  InfoFits, Fits,
}

-- A split packet is read with its index and count as the compression reads them.
abbrev pub info_read_as : SplitPacketInfo → SplitPacketInfo
info_read_as info = record info { index = read_as info.index; count = read_as info.count }

abbrev pub split_read_as : Option SplitPacketInfo → Option SplitPacketInfo
split_read_as none = none
split_read_as (some info) = some (info_read_as info)

-- The parts in the order in which they are read.
packet_bits-append :
    (n : ℕ) (p : RaknetPacket) (more : List Bool)
    → packet_bits n p ++ more
      ≡ le_bits 4 p.message_number
        ++ (rel_bits p.rel_data
            ++ (split_bits p.split_packet_info
                ++ (compressed_bits 2 (bit_length p.bytes)
                    ++ (padding (n + length (head_bits p)) ++ (bytes_bits p.bytes ++ more)))))
unfolding packet_bits head_bits
packet_bits-append n p more = simp append_assoc

module _ {R : Type 0} ⦃br : BitRead R⦄ (laws : BitReadLaws br) where
  open laws use {rest, read_bit-Reads, read_bits-Reads, read_int-Reads}

  read_ordering-Reads :
      (make : ℕ → ReliabilityData) (ord : ℕ)
      → IsU32 ord
      → Reads rest (read_ordering make) (make ord) (bits_of 5 0 ++ le_bits 4 ord)
  unfolding read_ordering
  read_ordering-Reads make ord h =
      Reads->>= rest _ (read_bits-Reads 5 0 (omega arith) (omega arith)) (
        Reads->>= rest _ (assert-Reads refl) (
          Reads-cast refl (append-nil _)
            (Reads->>= rest _ (read_int-Reads 4 ord h) (pure-Reads rest _))))

  read_rel_data-Reads :
      (rel : ReliabilityData) → OrderFits rel → Reads rest read_rel_data rel (rel_bits rel)
  unfolding read_rel_data read_by_id rel_bits ordering_bits
  read_rel_data-Reads unreliable h =
      Reads->>= rest _ (read_bits-Reads 3 0 (omega arith) (omega arith)) (pure-Reads rest _)
  read_rel_data-Reads (unreliable_sequenced ord) h =
      Reads->>= rest _ (read_bits-Reads 3 1 (omega arith) (omega arith))
        (read_ordering-Reads _ ord h)
  read_rel_data-Reads reliable h =
      Reads->>= rest _ (read_bits-Reads 3 2 (omega arith) (omega arith)) (pure-Reads rest _)
  read_rel_data-Reads (reliable_ordered ord) h =
      Reads->>= rest _ (read_bits-Reads 3 3 (omega arith) (omega arith))
        (read_ordering-Reads _ ord h)

  read_split_info-Reads :
      (info : SplitPacketInfo)
      → InfoFits (some info)
      → Reads rest read_split_info (info_read_as info) (info_bits info)
  unfolding read_split_info info_bits
  read_split_info-Reads info h = Reads->>= rest _ (read_int-Reads 2 info.id h.0) (
      Reads->>= rest _ (deserialize_u32-Reads laws info.index h.1) (
        Reads-cast refl (append-nil _)
          (Reads->>= rest _ (deserialize_u32-Reads laws info.count h.2) (pure-Reads rest _))))

  read_split-Reads :
      (info : SplitPacketInfo)
      → InfoFits (some info)
      → Reads rest (read_split true) (some (info_read_as info)) (info_bits info)
  unfolding read_split
  read_split-Reads info h =
      Reads-cast refl (append-nil _)
        (Reads->>= rest _ (read_split_info-Reads info h) (pure-Reads rest _))

  read_unsplit-Reads : Reads rest (read_split false) none []
  unfolding read_split
  read_unsplit-Reads = pure-Reads rest none

  align_step :
      (n : ℕ) (more : List Bool) (r : R)
      → rest r ≡ padding n ++ more
      → length more % 8 ≡ 0
      → Takes rest (align r) tt more
  unfolding align
  align_step n more r e whole = (br.align_reader r, refl, align-Takes laws n more r e whole)

  -- The bit that tells whether the packet is split, and what it announces.
  split-Takes {ℓ} :
      {B : Type ℓ} (split : Option SplitPacketInfo)
      (f : Option SplitPacketInfo → R → Outcome (B × R)) (r : R) {b : B} {more left : List Bool}
      → InfoFits split
      → rest r ≡ split_bits split ++ more
      → ((s : R) → rest s ≡ more → Takes rest (f (split_read_as split) s) b left)
      → Takes rest ((br.read_bit >>= λ is_split. read_split is_split >>= f) r) b left
  unfolding split_bits
  split-Takes none f r h e k =
      Takes->>= rest _ _ r false ((read_bit-Reads false).takes _ r e)
        λ s e'. Takes->>= rest _ f s none (read_unsplit-Reads.takes _ s e') k
  split-Takes (some info) f r h e k =
      Takes->>= rest _ _ r true ((read_bit-Reads true).takes _ r e)
        λ s e'. Takes->>= rest _ f s _ ((read_split-Reads info h).takes _ s e') k

  -- A packet is read back as it was written, but for the numbers of a split packet that the
  -- compression misreads, if whole bytes follow it.
  pub deserialize-Takes :
      (p : RaknetPacket) (n : ℕ) (more : List Bool) (r : R)
      → Fits p
      → rest r ≡ packet_bits n p ++ more
      → length more % 8 ≡ 0
      → Takes rest
          (deserialize r)
          (record p { split_packet_info = split_read_as p.split_packet_info })
          more
  unfolding deserialize
  deserialize-Takes p n more r h e whole =
      Takes->>= rest _ _ r _
        ((read_int-Reads 4 p.message_number h.number).takes _ r (e ∙ packet_bits-append n p more))
        λ r₁ e₁.
          Takes->>= rest _ _ r₁ _ ((read_rel_data-Reads p.rel_data h.order).takes _ r₁ e₁) λ r₂ e₂.
            split-Takes p.split_packet_info _ r₂ h.info e₂ λ r₃ e₃.
              Takes->>= rest _ _ r₃ _
                ((deserialize_u16-Reads laws (bit_length p.bytes) (omega arith)).takes _ r₃ e₃)
                λ r₄ e₄.
                  Takes->>= rest _ _ r₄ tt
                    (align_step _ (bytes_bits p.bytes ++ more) r₄ e₄ (
                      omega (
                        arith,
                        length-append (bytes_bits p.bytes) more,
                        length-bytes_bits p.bytes,
                        whole,
                      )))
                    λ r₅ e₅. rw size (
                      Takes->>= rest _ _ r₅ p.bytes
                        ((laws.read_exact-Reads p.bytes h.octets).takes more r₅ e₅)
                        λ r₆ e₆. (pure-Reads rest _).takes more r₆ e₆)
    where
      size : bit_length p.bytes / 8 ≡ length p.bytes
      size = omega (arith, h.short)

  -- At the end of the data no packet is read.
  pub deserialize_eof : (r : R) → rest r ≡ [] → deserialize r ≡ err unexpected_eof
  unfolding deserialize ◌>>=◌
  deserialize_eof r e = rw (laws.read_int_eof 4 r (rw e (omega arith))) refl

module _ {W R : Type 0} ⦃bw : BitWrite W⦄ ⦃br : BitRead R⦄ (ws : BitWriteLaws bw)
    (rs : BitReadLaws br) where
  -- Let a packet fit: its numbers be below the bounds of their types, and its data be bytes, fewer
  -- than 2 ^ 13, so that their length in bits is a `u16`. Then writing it succeeds, wherever the writer
  -- stands. A reader that finds what was added, and
  -- whole bytes behind it, gets the packet back and leaves those bytes; of a split packet it gets the
  -- index and the count as `read_as` gives them.
  pub deserialize-serialize_packet :
      (p : RaknetPacket) (w : W)
      → Fits p
      → (w' : W) × (bs : List Bool) × (serialize p w ≡ ok w')
        × (ws.bits w' ≡ ws.bits w ++ bs)
        × ((more : List Bool) (r : R)
            → rs.rest r ≡ bs ++ more
            → length more % 8 ≡ 0
            → Takes rs.rest
                (deserialize r)
                (record p { split_packet_info = split_read_as p.split_packet_info })
                more)
  deserialize-serialize_packet p w h =
      let (w', e, added) = serialize-Adds ws p w h in
      (w', _, e, added, λ more r e' whole. deserialize-Takes rs p _ more r h e' whole)
