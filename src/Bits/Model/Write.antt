-- ===== src/Bits/Model/Write.antt =====
-- A writer as the list of the bits written.
use raknet_shim.Prelude.{
  ℕ, zero, suc, ◌-◌, ◌*◌, ◌/◌, ◌%◌, ◌≡◌, refl, Bool, false, List, [], ◌∷◌, ◌++◌, length,
  length-append, take, drop, arith, IsByte, All, Outcome, ok, length-replicate, length-take,
  length-drop, take-append-drop,
}
use raknet_shim.Bits.{BitWrite, BitWriteLaws, padding}
use raknet_shim.Bits.Digits.{bits_of, le_bits, bytes_bits}
use raknet_shim.Bits.Model.Number.{number, bits_of-number, number_from-lt}

-- The writer: everything written so far.
abbrev pub add : List Bool → List Bool → Outcome (List Bool)
add bs w = ok (w ++ bs)

-- `n` bytes off the front
unfoldable pub pack : ℕ → List Bool → List ℕ
pack zero bs = []
pack (suc n) bs = number (take 8 bs) ∷ pack n (drop 8 bs)

abbrev pub padded : List Bool → List Bool
padded w = w ++ padding (length w)

instance abbrev pub list_write : BitWrite (List Bool)
list_write = record {
  new_writer = [];
  write_bit = λ b. add (b ∷ []);
  write_bits = λ v n. add (bits_of n v);
  write_int = λ k v. add (le_bits k v);
  write_bytes = λ bs. add (bytes_bits bs);
  align_writer = λ w. add (padding (length w)) w;
  into_bytes = λ w. pack (length (padded w) / 8) (padded w);
}

pub length-padded : (w : List Bool) → length (padded w) ≡ length (padded w) / 8 * 8
unfolding padding
length-padded w =
    omega
      (arith, length-append w (padding (length w)), length-replicate ((8 - length w % 8) % 8) false)

pub bytes_bits-pack : (n : ℕ) (bs : List Bool) → length bs ≡ n * 8 → bytes_bits (pack n bs) ≡ bs
unfolding pack bytes_bits
bytes_bits-pack zero [] e = refl
bytes_bits-pack zero (b ∷ bs) e = absurd (omega arith)
bytes_bits-pack (suc n) bs e =
    rw
      (
        bits_of-number (take 8 bs) 8 (omega (arith, length-take 8 bs)),
        bytes_bits-pack n (drop 8 bs) (omega (arith, length-drop 8 bs)),
      )
      (take-append-drop 8 bs)

pub pack-IsByte : (n : ℕ) (bs : List Bool) → length bs ≡ n * 8 → All IsByte (pack n bs)
unfolding pack
pack-IsByte zero bs e = tt
pack-IsByte (suc n) bs e = (
  (let front : length (take 8 bs) ≡ 8 = omega (arith, length-take 8 bs) in
      rw front at (number_from-lt 0 (take 8 bs))),
  pack-IsByte n (drop 8 bs) (omega (arith, length-drop 8 bs)),
)

unfoldable pub list_write_laws : BitWriteLaws list_write
list_write_laws = record {
  bits = λ w. w;
  bits-new_writer = refl;
  write_bit-Emits = λ b. record { adds = λ w. (_, refl, refl) };
  write_bits-Emits = λ v n _ _. record { adds = λ w. (_, refl, refl) };
  write_int-Emits = λ k v _. record { adds = λ w. (_, refl, refl) };
  write_bytes-Emits = λ bs _. record { adds = λ w. (_, refl, refl) };
  align_writer-Adds = λ w. (_, refl, refl);
  into_bytes-IsByte = λ w. pack-IsByte _ (padded w) (length-padded w);
  bytes_bits-into_bytes = λ w. bytes_bits-pack _ (padded w) (length-padded w);
}
