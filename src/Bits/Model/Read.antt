-- ===== src/Bits/Model/Read.antt =====
-- A reader as the list of the bits that are left.
use raknet_shim.Prelude.{
  ℕ, zero, suc, ◌+◌, ◌*◌, ◌/◌, ◌%◌, ◌^◌, ◌<◌, ◌≤◌, ◌≡◌, refl, Bool, List, [], ◌∷◌, ◌++◌,
  append_assoc, length, length-append, take, drop, arith, ltb, if◌then◌else◌, IsByte, All, Outcome,
  ok, err, unexpected_eof, length-drop, take-append, drop-append, ◌>>=◌,
}
use raknet_shim.Bits.{BitRead, BitReadLaws}
use raknet_shim.Bits.Digits.{bits_of, le_bits, bytes_bits, length-bits_of}
use native.Mathlib.Nat.{pow-suc}
use raknet_shim.Bits.Model.Number.{number, number-bits_of}

-- The reader: the bits that are left.
abbrev pub take_bits : ℕ → List Bool → Outcome (ℕ × List Bool)
take_bits n r = if ltb (length r) n then err unexpected_eof else ok (number (take n r), drop n r)

unfoldable pub take_bit : List Bool → Outcome (Bool × List Bool)
take_bit [] = err unexpected_eof
take_bit (b ∷ r) = ok (b, r)

unfoldable pub take_int : ℕ → List Bool → Outcome (ℕ × List Bool)
take_int zero r = ok (0, r)
take_int (suc k) r = take_bits 8 r >>= λ (b, s). take_int k s >>= λ (v, t). ok (b + 256 * v, t)

unfoldable pub take_bytes : ℕ → List Bool → Outcome (List ℕ × List Bool)
take_bytes zero r = ok ([], r)
take_bytes (suc n) r = take_bits 8 r >>= λ (b, s). take_bytes n s >>= λ (bs, t). ok (b ∷ bs, t)

instance abbrev pub list_read : BitRead (List Bool)
list_read = record {
  new_reader = bytes_bits;
  read_bit = take_bit;
  read_bits = take_bits;
  read_int = take_int;
  read_exact = take_bytes;
  align_reader = λ r. drop (length r % 8) r;
}

pub take_bits-append :
    (n v : ℕ) (more : List Bool) → v < 2 ^ n → take_bits n (bits_of n v ++ more) ≡ ok (v, more)
take_bits-append n v more h =
    rw
      (
        take-append n (bits_of n v) more (length-bits_of n v),
        drop-append n (bits_of n v) more (length-bits_of n v),
        number-bits_of n v h,
      )
      (ground (arith, length-append (bits_of n v) more, length-bits_of n v))

pub take_int-append :
    (k v : ℕ) (more : List Bool) → v < 256 ^ k → take_int k (le_bits k v ++ more) ≡ ok (v, more)
unfolding take_int le_bits
take_int-append zero v more h = let e : v ≡ 0 = omega arith in rw e
take_int-append (suc k) v more h =
    rw
      (
        append_assoc (bits_of 8 (v % 256)) (le_bits k (v / 256)) more,
        take_bits-append 8 (v % 256) (le_bits k (v / 256) ++ more) (omega arith),
        take_int-append k (v / 256) more (omega (arith, pow-suc 256 k)),
      )
      (ground arith)

pub take_bytes-append :
    (bs : List ℕ) (more : List Bool)
    → All IsByte bs
    → take_bytes (length bs) (bytes_bits bs ++ more) ≡ ok (bs, more)
unfolding take_bytes bytes_bits
take_bytes-append [] more h = refl
take_bytes-append (b ∷ bs) more h = rw (
  append_assoc (bits_of 8 b) (bytes_bits bs) more,
  take_bits-append 8 b (bytes_bits bs ++ more) h.0,
  take_bytes-append bs more h.1,
)

pub take_int_eof : (k : ℕ) (r : List Bool) → length r < 8 * k → take_int k r ≡ err unexpected_eof
unfolding take_int
take_int_eof zero r h = absurd (omega arith)
take_int_eof (suc k) r h = ground (arith, take_int_eof k (drop 8 r), length-drop 8 r)

pub take_bytes_eof :
    (n : ℕ) (r : List Bool) → length r < 8 * n → take_bytes n r ≡ err unexpected_eof
unfolding take_bytes
take_bytes_eof zero r h = absurd (omega arith)
take_bytes_eof (suc n) r h = ground (arith, take_bytes_eof n (drop 8 r), length-drop 8 r)

pub take_bit_eof : (r : List Bool) → r ≡ [] → take_bit r ≡ err unexpected_eof
unfolding take_bit
take_bit_eof [] e = refl
take_bit_eof (b ∷ r) e = cc

pub take_bit-cons : (b : Bool) (more r : List Bool) → r ≡ b ∷ more → take_bit r ≡ ok (b, more)
unfolding take_bit
take_bit-cons b more [] e = cc
take_bit-cons b more (x ∷ r) e = cc

pub take_bits_few :
    (n : ℕ) (r : List Bool) → n ≤ 8 → length r < n → take_bits n r ≡ err unexpected_eof
take_bits_few n r _ h = ground arith

unfoldable pub list_read_laws : BitReadLaws list_read
list_read_laws = record {
  rest = λ r. r;
  rest-new_reader = λ bs _. refl;
  read_bit-Reads = λ b. record { takes = λ more r e. (more, take_bit-cons b more r e, refl) };
  read_bits-Reads =
      λ n v _ h. record { takes = λ more r e. (more, rw e (take_bits-append n v more h), refl) };
  read_int-Reads =
      λ k v h. record { takes = λ more r e. (more, rw e (take_int-append k v more h), refl) };
  read_exact-Reads =
      λ bs h. record { takes = λ more r e. (more, rw e (take_bytes-append bs more h), refl) };
  rest-align_reader = λ r. refl;
  read_bit_eof = take_bit_eof;
  read_bits_eof = take_bits_few;
  read_int_eof = take_int_eof;
  read_exact_eof = take_bytes_eof;
}
