-- ===== src/Raknet/RangeList/Codec.antt =====
-- src/raknet/rangelist.rs: `Serialize` and `Deserialize` of `RangeList`, and their round trip.
pub mod Consume
use raknet_shim.Prelude.{
  ℕ, zero, suc, ◌%◌, ◌^◌, ◌<◌, ◌≡◌, refl, Bool, List, [], ◌∷◌, ◌++◌, append-nil, length, arith,
  ◌==◌, ==_iff, if◌then◌else◌, Outcome, IsU32, All, Bool-cases, inl, inr,
}
use raknet_shim.Bits.{BitWrite, BitRead, BitWriteLaws, BitReadLaws, Emits, Reads, RoundTrips}
use raknet_shim.Bits.Digits.{le_bits}
use raknet_shim.Bits.Emit.{◌>>◌, done, Emits->>, done-Emits, if-Emits}
use raknet_shim.Bits.Read.{◌>>=◌, pure, Reads->>=, pure-Reads, Reads-cast}
use raknet_shim.Raknet.Comp
use raknet_shim.Raknet.Comp.Layout.{compressed_bits, serialize-Emits}
use raknet_shim.Raknet.Comp.RoundTrip.{deserialize_u16-Reads}
use raknet_shim.Raknet.RangeList.{Range, RangeList}

module _ {W : Type 0} ⦃bw : BitWrite W⦄ where
  pub write_range : Range → W → Outcome W
  write_range r =
      bw.write_bit (r.min == r.max)
      >> bw.write_int 4 r.min
      >> (if r.min == r.max then done else bw.write_int 4 r.max)

  pub write_ranges : List Range → W → Outcome W
  write_ranges [] = done
  write_ranges (r ∷ rs) = write_range r >> write_ranges rs

  pub serialize : RangeList → W → Outcome W
  serialize l = Comp.serialize 2 (length l.ranges % 2 ^ 16) >> write_ranges l.ranges

module _ {R : Type 0} ⦃br : BitRead R⦄ where
  pub read_range : R → Outcome (Range × R)
  read_range = do
    same ← br.read_bit
    min ← br.read_int 4
    max ← (if same then pure min else br.read_int 4)
    pure (record { min = min; max = max })

  -- `for _ in 0..ranges_count`
  pub read_ranges : ℕ → R → Outcome (List Range × R)
  read_ranges zero = pure []
  read_ranges (suc n) = do r ← read_range; rs ← read_ranges n; pure (r ∷ rs)

  pub deserialize : R → Outcome (RangeList × R)
  deserialize = do
    ranges_count ← Comp.deserialize 2
    ranges ← read_ranges ranges_count
    pure (record { ranges = ranges })

pub range_bits : Range → List Bool
range_bits r =
    let same = r.min == r.max in
    (same ∷ []) ++ (le_bits 4 r.min ++ (if same then [] else le_bits 4 r.max))

pub ranges_bits : List Range → List Bool
ranges_bits [] = []
ranges_bits (r ∷ rs) = range_bits r ++ ranges_bits rs

pub range_list_bits : RangeList → List Bool
range_list_bits l = compressed_bits 2 (length l.ranges % 2 ^ 16) ++ ranges_bits l.ranges

-- The ranges are made of `u32`s.
abbrev pub AreU32 : List Range → Type 0
AreU32 = All (λ r. IsU32 r.min × IsU32 r.max)

module _ {W : Type 0} ⦃bw : BitWrite W⦄ (laws : BitWriteLaws bw) where
  open laws use {bits, write_bit-Emits, write_int-Emits}

  write_range-Emits :
      (r : Range) → IsU32 r.min → IsU32 r.max → Emits bits (write_range r) (range_bits r)
  unfolding write_range range_bits
  write_range-Emits r h k = Emits->> bits (write_bit-Emits _) (
      Emits->> bits (write_int-Emits 4 r.min h)
        (if-Emits bits _ (done-Emits bits) (write_int-Emits 4 r.max k)))

  write_ranges-Emits : (rs : List Range) → AreU32 rs → Emits bits (write_ranges rs) (ranges_bits rs)
  unfolding write_ranges ranges_bits
  write_ranges-Emits [] h = done-Emits bits
  write_ranges-Emits (r ∷ rs) h =
      Emits->> bits (write_range-Emits r h.0.0 h.0.1) (write_ranges-Emits rs h.1)

  pub serialize-Emits_lem :
      (l : RangeList) → AreU32 l.ranges → Emits bits (serialize l) (range_list_bits l)
  unfolding serialize range_list_bits
  serialize-Emits_lem l h = Emits->> bits (serialize-Emits laws 2 _) (write_ranges-Emits l.ranges h)

module _ {R : Type 0} ⦃br : BitRead R⦄ (laws : BitReadLaws br) where
  open laws use {rest, read_bit-Reads, read_int-Reads}

  read_max-Reads :
      (r : Range)
      → IsU32 r.max
      → Reads rest
          (if r.min == r.max then pure r.min else br.read_int 4)
          r.max
          (if r.min == r.max then [] else le_bits 4 r.max)
  read_max-Reads r h = elim (Bool-cases (r.min == r.max)) [
    | inl e ↦ rw e (Reads-cast ((==_iff _ _).0 e) refl (pure-Reads rest r.min))
    | inr e ↦ rw e (read_int-Reads 4 r.max h)
  ]

  read_range-Reads :
      (r : Range) → IsU32 r.min → IsU32 r.max → Reads rest read_range r (range_bits r)
  unfolding read_range range_bits
  read_range-Reads r h k = Reads->>= rest _ (read_bit-Reads _) (
      Reads->>= rest _ (read_int-Reads 4 r.min h) (
        Reads-cast refl (append-nil _) (Reads->>= rest _ (read_max-Reads r k) (pure-Reads rest _))))

  read_ranges-Reads :
      (rs : List Range) → AreU32 rs → Reads rest (read_ranges (length rs)) rs (ranges_bits rs)
  unfolding read_ranges ranges_bits
  read_ranges-Reads [] h = pure-Reads rest []
  read_ranges-Reads (r ∷ rs) h = Reads->>= rest _ (read_range-Reads r h.0.0 h.0.1) (
      Reads-cast refl (append-nil _)
        (Reads->>= rest _ (read_ranges-Reads rs h.1) (pure-Reads rest _)))

  pub deserialize-Reads :
      (l : RangeList)
      → length l.ranges < 2 ^ 16
      → AreU32 l.ranges
      → Reads rest deserialize l (range_list_bits l)
  unfolding deserialize range_list_bits
  deserialize-Reads l few h =
      let e : length l.ranges % 2 ^ 16 ≡ length l.ranges = omega arith in
      rw e (
        Reads->>= rest _ (deserialize_u16-Reads laws (length l.ranges) few) (
          Reads-cast refl (append-nil _)
            (Reads->>= rest _ (read_ranges-Reads l.ranges h) (pure-Reads rest _))))

module _ {W R : Type 0} ⦃bw : BitWrite W⦄ ⦃br : BitRead R⦄ (ws : BitWriteLaws bw)
    (rs : BitReadLaws br) where
  -- A list of fewer than 2 ^ 16 ranges of `u32`s is read back as it was written.
  pub deserialize-serialize_ranges :
      (l : RangeList)
      → length l.ranges < 2 ^ 16
      → AreU32 l.ranges
      → RoundTrips ws.bits rs.rest (serialize l) deserialize l
  deserialize-serialize_ranges l few h =
      (range_list_bits l, serialize-Emits_lem ws l h, deserialize-Reads rs l few h)
