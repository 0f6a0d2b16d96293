-- ===== src/Bits.antt =====
-- The bit streams of the crates `endio` and `endio_bit`, which the repository uses and does not
-- hold: an interface of operations, and what their documentation promises of them.
--
-- `BitWrite W` is a `BitWriter` over a `Vec<u8>`, as `raknet/send.rs` makes it, and `BitRead R` is a
-- `BitReader` over a `&[u8]`, as `raknet/connection.rs` makes it. A write does not end within the
-- vector's capacity, so that nothing is promised but its success and the bits that it adds. A
-- number of `size` bytes goes through with its lowest byte first, and a byte with its highest bit
-- first; `align` goes to the next byte boundary of the stream.
pub mod Digits
pub mod Or
pub mod Emit
pub mod Read
pub mod Consume
pub mod Model
use raknet_shim.Prelude.{
  ℕ, ◌-◌, ◌*◌, ◌%◌, ◌+◌, ◌^◌, ◌≡◌, ◌<◌, ◌≤◌, Bool, true, false, List, [], ◌∷◌, ◌++◌, length, drop,
  replicate, arith, IsByte, All, Outcome, ok, err, unexpected_eof,
}
use Digits.{bits_of, le_bits, bytes_bits}

pub record BitWrite (W : Type 0) : Type 0 where
  -- `BitWriter::new` over an empty vector
  pub new_writer : W
  pub write_bit : Bool → W → Outcome W
  -- `write_bits(value, count)`, of a value below 2 ^ count
  pub write_bits : ℕ → ℕ → W → Outcome W
  -- `write` of a `u8`, `u16` or `u32`: the size in bytes, and the value
  pub write_int : ℕ → ℕ → W → Outcome W
  -- `write` of a `&[u8]`
  pub write_bytes : List ℕ → W → Outcome W
  pub align_writer : W → Outcome W
  -- the vector's content when the writer is dropped
  pub into_bytes : W → List ℕ

pub record BitRead (R : Type 0) : Type 0 where
  -- `BitReader::new` over a slice
  pub new_reader : List ℕ → R
  pub read_bit : R → Outcome (Bool × R)
  -- `read_bits(count)`, of at most 8 bits
  pub read_bits : ℕ → R → Outcome (ℕ × R)
  -- `read::<u8>`, `read::<u16>` or `read::<u32>`: the size in bytes
  pub read_int : ℕ → R → Outcome (ℕ × R)
  -- `read_exact` into a buffer of that length
  pub read_exact : ℕ → R → Outcome (List ℕ × R)
  pub align_reader : R → R

-- A call that succeeds and adds the bits `bs` to what was written.
abbrev pub Adds : {W : Type 0} → (W → List Bool) → W → Outcome W → List Bool → Type 0
Adds {W} bits w o bs = (w' : W) × (o ≡ ok w') × (bits w' ≡ bits w ++ bs)

-- A writer that adds `bs` wherever it starts.
pub record Emits {W : Type 0} (bits : W → List Bool) (m : W → Outcome W) (bs : List Bool)
    : Type 0 where
  pub adds : (w : W) → Adds bits w (m w) bs

-- The zero bits that fill `n` bits up to whole bytes.
unfoldable pub padding : ℕ → List Bool
padding n = replicate ((8 - n % 8) % 8) false

pub record BitWriteLaws {W : Type 0} (bw : BitWrite W) : Type 0 where
  -- all bits written so far
  pub bits : W → List Bool
  pub bits-new_writer : bits bw.new_writer ≡ []
  pub write_bit-Emits : (b : Bool) → Emits bits (bw.write_bit b) (b ∷ [])
  pub write_bits-Emits :
      (v n : ℕ) → n ≤ 8 → v < 2 ^ n → Emits bits (bw.write_bits v n) (bits_of n v)
  pub write_int-Emits : (k v : ℕ) → v < 256 ^ k → Emits bits (bw.write_int k v) (le_bits k v)
  pub write_bytes-Emits :
      (bs : List ℕ) → All IsByte bs → Emits bits (bw.write_bytes bs) (bytes_bits bs)
  pub align_writer-Adds : (w : W) → Adds bits w (bw.align_writer w) (padding (length (bits w)))
  pub into_bytes-IsByte : (w : W) → All IsByte (bw.into_bytes w)
  pub bytes_bits-into_bytes :
      (w : W) → bytes_bits (bw.into_bytes w) ≡ bits w ++ padding (length (bits w))

-- A call that succeeds with the value `a` and leaves the bits `more`.
abbrev pub Takes {ℓ} :
    {A : Type ℓ} {R : Type 0} → (R → List Bool) → Outcome (A × R) → A → List Bool → Type ℓ
Takes {A} {R} rest o a more = (r' : R) × (o ≡ ok (a, r')) × (rest r' ≡ more)

-- A reader that takes the bits `bs` off the front of any input, and makes `a` of them.
pub record Reads {ℓ} {A : Type ℓ} {R : Type 0} (rest : R → List Bool) (p : R → Outcome (A × R))
    (a : A) (bs : List Bool) : Type ℓ where
  pub takes : (more : List Bool) (r : R) → rest r ≡ bs ++ more → Takes rest (p r) a more

pub record BitReadLaws {R : Type 0} (br : BitRead R) : Type 0 where
  -- the bits still to be read
  pub rest : R → List Bool
  pub rest-new_reader : (bs : List ℕ) → All IsByte bs → rest (br.new_reader bs) ≡ bytes_bits bs
  pub read_bit-Reads : (b : Bool) → Reads rest br.read_bit b (b ∷ [])
  pub read_bits-Reads : (n v : ℕ) → n ≤ 8 → v < 2 ^ n → Reads rest (br.read_bits n) v (bits_of n v)
  pub read_int-Reads : (k v : ℕ) → v < 256 ^ k → Reads rest (br.read_int k) v (le_bits k v)
  pub read_exact-Reads :
      (bs : List ℕ) → All IsByte bs → Reads rest (br.read_exact (length bs)) bs (bytes_bits bs)
  pub rest-align_reader : (r : R) → rest (br.align_reader r) ≡ drop (length (rest r) % 8) (rest r)
  -- a stream that ends too early
  pub read_bit_eof : (r : R) → rest r ≡ [] → br.read_bit r ≡ err unexpected_eof
  pub read_bits_eof :
      (n : ℕ) (r : R) → n ≤ 8 → length (rest r) < n → br.read_bits n r ≡ err unexpected_eof
  pub read_int_eof :
      (k : ℕ) (r : R) → length (rest r) < 8 * k → br.read_int k r ≡ err unexpected_eof
  pub read_exact_eof :
      (n : ℕ) (r : R) → length (rest r) < 8 * n → br.read_exact n r ≡ err unexpected_eof

-- The writer `p` and the reader `q` agree on some bits: the one writes them, and the other makes `a`
-- of them, wherever they stand.
abbrev pub RoundTrips {ℓ} :
    {A : Type ℓ} {W R : Type 0}
    → (W → List Bool)
    → (R → List Bool)
    → (W → Outcome W)
    → (R → Outcome (A × R))
    → A
    → Type ℓ
RoundTrips bits rest p q a = (bs : List Bool) × Emits bits p bs × Reads rest q a bs
