-- ===== src/Raknet/Comp.antt =====
-- src/raknet/comp.rs: "compressed" integers. The two `Serialize` impls, of `u16` and of `u32`, are
-- one text; the model has it once, with the size in bytes (2 or 4) as `size`. `Compressed<T>` only
-- wraps its number, so that a value here is the number.
pub mod Layout
pub mod RoundTrip
mod Tests
pub mod Consume
use Prim.Native.Nat.{bit_or}
use raknet_shim.Prelude.{ℕ, zero, suc, ◌+◌, ◌-◌, ◌*◌, ◌/◌, ◌%◌, ◌^◌, ◌==◌, if◌then◌else◌, Outcome}
use raknet_shim.Bits.{BitWrite, BitRead}
use raknet_shim.Bits.Emit.{◌>>◌, done}
use raknet_shim.Bits.Read.{◌>>=◌, pure}

-- `(v >> 8 * j) as u8`, which is also `(v >> 8 * j) & 0xff`
abbrev pub byte_at : ℕ → ℕ → ℕ
byte_at v j = v / 2 ^ (8 * j) % 2 ^ 8

module _ {W : Type 0} ⦃bw : BitWrite W⦄ where
  -- `for j in ..`: `n` bytes of `v` from the `j`-th on
  pub write_low_bytes : ℕ → ℕ → ℕ → W → Outcome W
  write_low_bytes zero j v = done
  write_low_bytes (suc n) j v = bw.write_int 1 (byte_at v j) >> write_low_bytes n (j + 1) v

  -- after the loop: the lowest byte, or its lower half
  pub write_lowest : ℕ → W → Outcome W
  write_lowest v =
      let is_zero = v / 16 % 16 == 0 in
      bw.write_bit is_zero
      >> (if is_zero then bw.write_bits (v % 16) 4 else bw.write_int 1 (byte_at v 0))

  -- `for i in 0..size - 1`, with the rounds left
  pub serialize_loop : ℕ → ℕ → ℕ → ℕ → W → Outcome W
  serialize_loop zero i size v = write_lowest v
  serialize_loop (suc rounds) i size v =
      let is_zero = byte_at v (size - 1 - i) == 0 in
      let next = serialize_loop rounds (i + 1) size v in
      bw.write_bit is_zero >> (if is_zero then next else write_low_bytes (size - i) 0 v)

  pub serialize : ℕ → ℕ → W → Outcome W
  serialize size v = serialize_loop (size - 1) 0 size v

module _ {R : Type 0} ⦃br : BitRead R⦄ where
  -- `for j in i..size { res |= T::from(reader.read::<u8>()?) << T::from(8*j); }`, with the rounds left
  pub read_low_bytes : ℕ → ℕ → ℕ → ℕ → R → Outcome (ℕ × R)
  read_low_bytes zero j size res = pure res
  read_low_bytes (suc n) j size res = do
    b ← br.read_int 1
    read_low_bytes n (j + 1) size (bit_or res (b * 2 ^ (8 * j) % 2 ^ (8 * size)))

  pub read_lowest : R → Outcome (ℕ × R)
  read_lowest = do small ← br.read_bit; if small then br.read_bits 4 else br.read_int 1

  -- `for i in 0..size - 1`, with the rounds left
  pub deserialize_loop : ℕ → ℕ → ℕ → R → Outcome (ℕ × R)
  deserialize_loop zero i size = read_lowest
  deserialize_loop (suc rounds) i size = do
    is_zero ← br.read_bit
    let next = deserialize_loop rounds (i + 1) size
    if is_zero then next else read_low_bytes (size - i) i size 0

  pub deserialize : ℕ → R → Outcome (ℕ × R)
  deserialize size = deserialize_loop (size - 1) 0 size
