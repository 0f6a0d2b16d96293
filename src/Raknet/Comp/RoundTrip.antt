-- ===== src/Raknet/Comp/RoundTrip.antt =====
-- `deserialize` of src/raknet/comp.rs on what `serialize` wrote.
use Prim.Native.Nat.{bit_or}
use raknet_shim.Prelude.{
  ◌↔◌, ◌⊎◌, Outcome, length, ℕ, zero, suc, ◌+◌, ◌-◌, ◌*◌, ◌/◌, ◌%◌, ◌^◌, ◌≤◌, ◌<◌, ◌≡◌, refl, sym,
  ap, Bool, List, arith, ◌==◌, ==_iff, ltb, if◌then◌else◌, Bool-cases, inl, inr, IsU16, IsU32,
  IsByte,
}
use raknet_shim.Bits.{BitRead, BitReadLaws, BitWrite, BitWriteLaws, Emits, Reads}
use raknet_shim.Bits.Digits.{le_bits, le_bits-one}
use raknet_shim.Bits.Or.{bit_or_disjoint}
use raknet_shim.Bits.Read.{Reads->>=, pure-Reads, if-Reads, Reads-cast}
use raknet_shim.Raknet.Comp.{
  byte_at, read_low_bytes, read_lowest, deserialize_loop, deserialize, serialize,
}
use raknet_shim.Raknet.Comp.Layout.{
  two_pow_byte, lowest_bits, loop_bits, compressed_bits, serialize-Emits, length-compressed_bits,
}
use native.Mathlib.Nat.{
  pow-le-pow_right, mod-eq_of_lt, pow-suc, one-le-pow, div-lt_iff_lt-mul, div-add-mod,
}

-- What `deserialize` makes of the encoding of `v`: after `i` zero bytes it puts the other bytes
-- `i` places too high.
decoded : ℕ → ℕ → ℕ → ℕ → ℕ
decoded zero i size v = v
decoded (suc rounds) i size v =
    let next = decoded rounds (i + 1) size v in
    if byte_at v (size - 1 - i) == 0 then next else v * 2 ^ (8 * i)

split_byte :
    (x j res : ℕ)
    → res + x * 2 ^ (8 * j) ≡ res + x % 256 * 2 ^ (8 * j) + x / 256 * 2 ^ (8 * (j + 1))
split_byte x j res = omega (
  arith,
  ap (λ (t : ℕ). t * 2 ^ (8 * j)) (div-add-mod x 256),
  ap (λ (t : ℕ). x / 256 * t) (two_pow_byte j),
)

next_small : (x j res : ℕ) → res < 2 ^ (8 * j) → res + x % 256 * 2 ^ (8 * j) < 2 ^ (8 * (j + 1))
next_small x j res h = rw two_pow_byte (grind (arith, below))
  where
    below : x % 256 ≤ 255
    below = omega arith

byte_pow : (k : ℕ) → 256 ^ k ≡ 2 ^ (8 * k)
byte_pow zero = refl
byte_pow (suc k) =
    let e : 8 * suc k ≡ 8 * (k + 1) = omega arith in
    rw e (omega (arith, pow-suc 256 k, byte_pow k, two_pow_byte k))

-- A number whose top byte is zero fits in the bytes below.
top_byte_zero : (k v : ℕ) → v < 256 ^ suc k → byte_at v k ≡ 0 → v < 256 ^ k
top_byte_zero k v h e =
    rw (byte_pow k)
      (omega (arith, (div-lt_iff_lt-mul {k = 2 ^ (8 * k)} {x = v} {y = 1} pos).0 none_above))
  where
    pos : 0 < 2 ^ (8 * k)
    pos = one-le-pow (8 * k) 2 (omega arith)

    below : v < 256 * 2 ^ (8 * k)
    below = omega (arith, byte_pow k, pow-suc 256 k)

    none_above : v / 2 ^ (8 * k) < 1
    none_above =
        omega (arith, e, (div-lt_iff_lt-mul {k = 2 ^ (8 * k)} {x = v} {y = 256} pos).1 below)

module _ {R : Type 0} ⦃br : BitRead R⦄ (laws : BitReadLaws br) where
  open laws use {rest, read_bit-Reads, read_bits-Reads, read_int-Reads}

  -- One byte joins the result above the bytes that are there.
  add_byte :
      (j size res b : ℕ)
      → j < size
      → res < 2 ^ (8 * j)
      → IsByte b
      → bit_or res (b * 2 ^ (8 * j) % 2 ^ (8 * size)) ≡ res + b * 2 ^ (8 * j)
  add_byte j size res b h small hb = rw (mod-eq_of_lt room) (bit_or_disjoint (8 * j) res b small)
    where
      whole : 2 ^ (8 * j) * 256 ≤ 2 ^ (8 * size)
      whole =
          rw (two_pow_byte j) at
            (pow-le-pow_right {n = 2} (omega arith) {i = 8 * (j + 1)} {j = 8 * size} (omega arith))

      room : b * 2 ^ (8 * j) < 2 ^ (8 * size)
      room = grind (arith, whole)

  read_low_bytes-Reads :
      (n j size res x : ℕ)
      → j + n ≤ size
      → res < 2 ^ (8 * j)
      → x < 256 ^ n
      → Reads rest (read_low_bytes n j size res) (res + x * 2 ^ (8 * j)) (le_bits n x)
  unfolding read_low_bytes le_bits
  read_low_bytes-Reads zero j size res x h small hx =
      let e : x ≡ 0 = omega arith in Reads-cast (rw e (omega arith)) refl (pure-Reads rest res)
  read_low_bytes-Reads (suc n) j size res x h small hx =
      Reads->>= rest _
        (Reads-cast refl (le_bits-one (x % 256) (omega arith))
          (read_int-Reads 1 (x % 256) (omega arith)))
        (Reads-cast
          (rw (add_byte j size res (x % 256) (omega arith) small (omega arith))
            (sym (split_byte x j res)))
          refl
          (read_low_bytes-Reads n (j + 1) size _ (x / 256) (omega arith)
            (rw (add_byte j size res (x % 256) (omega arith) small (omega arith))
              (next_small x j res small))
            (omega (arith, pow-suc 256 n))))

  read_lowest-Reads : (v : ℕ) → v < 256 → Reads rest read_lowest v (lowest_bits v)
  unfolding read_lowest
  read_lowest-Reads v h = Reads->>= rest _ (read_bit-Reads _) (
      Reads-cast (ground arith) refl (
        if-Reads rest (v / 16 % 16 == 0) (read_bits-Reads 4 (v % 16) (omega arith) (omega arith))
          (read_int-Reads 1 (byte_at v 0) (omega arith))))

  deserialize_loop-Reads :
      (rounds i size v : ℕ)
      → size ≡ suc rounds + i
      → v < 256 ^ suc rounds
      → Reads rest
          (deserialize_loop rounds i size)
          (decoded rounds i size v)
          (loop_bits rounds i size v)
  unfolding deserialize_loop decoded loop_bits
  deserialize_loop-Reads zero i size v e h = read_lowest-Reads v h
  deserialize_loop-Reads (suc rounds) i size v e h =
      elim (Bool-cases (byte_at v (size - 1 - i) == 0)) [
        | inl zero_byte ↦ Reads->>= rest _ (read_bit-Reads _) (
            rw zero_byte (
              deserialize_loop-Reads rounds (i + 1) size v (omega arith)
                (top_byte_zero (suc rounds) v h ((==_iff _ 0).0 (rw at_top at zero_byte)))))
        | inr other ↦ Reads->>= rest _ (read_bit-Reads _) (
            rw other (
              Reads-cast (omega arith) refl (
                read_low_bytes-Reads (size - i) i size 0 v (omega arith)
                  (one-le-pow (8 * i) 2 (omega arith)) (rw width h))))
      ]
    where
      at_top : size - 1 - i ≡ suc rounds
      at_top = omega arith

      width : size - i ≡ suc (suc rounds)
      width = omega arith

-- What a compressed `u32` is read as: with its top byte zero, the bytes above the lowest one that
-- are there go to the top.
abbrev pub read_as : ℕ → ℕ
read_as v =
    if ltb v (2 ^ 8)
    then v
    else if ltb v (2 ^ 16)
    then v * 2 ^ 16
    else if ltb v (2 ^ 24)
    then v * 2 ^ 8
    else v

read_as_iff : (v : ℕ) → (read_as v ≡ v) ↔ ((v < 2 ^ 8) ⊎ (2 ^ 24 ≤ v))
read_as_iff v = ground arith

decoded_u16 : (v : ℕ) → IsU16 v → decoded 1 0 2 v ≡ v
unfolding decoded
decoded_u16 v h = ground arith

decoded_u32 : (v : ℕ) → IsU32 v → decoded 3 0 4 v ≡ read_as v
unfolding decoded
decoded_u32 v h = ground arith

-- A writer and a reader agree on the bits `bs`: the one writes them, the other makes `v` of them.
abbrev pub WrittenReadAs :
    {W R : Type 0}
    → (W → List Bool)
    → (R → List Bool)
    → (W → Outcome W)
    → (R → Outcome (ℕ × R))
    → ℕ
    → ℕ
    → Type 0
WrittenReadAs bits rest p q v most =
    (bs : List Bool) × Emits bits p bs × Reads rest q v bs × (length bs ≤ most)

module _ {R : Type 0} ⦃br : BitRead R⦄ (rs : BitReadLaws br) where
  pub deserialize_u16-Reads :
      (v : ℕ) → IsU16 v → Reads rs.rest (deserialize 2) v (compressed_bits 2 v)
  unfolding deserialize compressed_bits
  deserialize_u16-Reads v h =
      Reads-cast (decoded_u16 v h) refl (deserialize_loop-Reads rs 1 0 2 v (omega arith) h)

  pub deserialize_u32-Reads :
      (v : ℕ) → IsU32 v → Reads rs.rest (deserialize 4) (read_as v) (compressed_bits 4 v)
  unfolding deserialize compressed_bits
  deserialize_u32-Reads v h =
      Reads-cast (decoded_u32 v h) refl (deserialize_loop-Reads rs 3 0 4 v (omega arith) h)

module _ {W R : Type 0} ⦃bw : BitWrite W⦄ ⦃br : BitRead R⦄ (ws : BitWriteLaws bw)
    (rs : BitReadLaws br) where
  -- A compressed `u16` is read back as it was written, from at most 17 bits, wherever it stands in
  -- the stream.
  pub deserialize-serialize_u16 :
      (v : ℕ) → IsU16 v → WrittenReadAs ws.bits rs.rest (serialize 2 v) (deserialize 2) v 17
  deserialize-serialize_u16 v h = (
    compressed_bits 2 v,
    serialize-Emits ws 2 v,
    deserialize_u16-Reads rs v h,
    length-compressed_bits 2 v (omega arith),
  )

  -- A compressed `u32` is written in at most 33 bits and read back as `read_as` says, which is the
  -- number written exactly where that is below 2 ^ 8 or from 2 ^ 24 on.
  pub deserialize-serialize_u32 :
      (v : ℕ)
      → IsU32 v
      → WrittenReadAs ws.bits rs.rest (serialize 4 v) (deserialize 4) (read_as v) 33
        × ((read_as v ≡ v) ↔ ((v < 2 ^ 8) ⊎ (2 ^ 24 ≤ v)))
  deserialize-serialize_u32 v h = (
    (
      compressed_bits 4 v,
      serialize-Emits ws 4 v,
      deserialize_u32-Reads rs v h,
      length-compressed_bits 4 v (omega arith),
    ),
    read_as_iff v,
  )
