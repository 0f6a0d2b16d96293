-- ===== src/Prelude/Words.antt =====
-- Unsigned machine words as native numbers: the wrapping operations that the program calls.
use Prim.Native.Nat.{ℕ, ◌+◌, ◌-◌, ◌%◌, ◌^◌, ◌<◌}

abbrev pub IsByte : ℕ → Type 0
IsByte b = b < 2 ^ 8

abbrev pub IsU16 : ℕ → Type 0
IsU16 n = n < 2 ^ 16

abbrev pub IsU32 : ℕ → Type 0
IsU32 n = n < 2 ^ 32

-- `u32::wrapping_add` and `u32::wrapping_sub`; `-` on ℕ is truncated, so the modulus goes first.
abbrev pub wrapping_add : ℕ → ℕ → ℕ
wrapping_add a b = (a + b) % 2 ^ 32

abbrev pub wrapping_sub : ℕ → ℕ → ℕ
wrapping_sub a b = (a + 2 ^ 32 - b) % 2 ^ 32

-- `u32::max_value() / 2`
abbrev pub half_window : ℕ
half_window = 0x7fff_ffff
