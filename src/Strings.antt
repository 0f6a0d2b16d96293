-- ===== src/Strings.antt =====
-- src/string.rs: the fixed strings of the game's packets, 33 bytes with a null terminator.
pub mod RoundTrip
mod Tests
use raknet_shim.Prelude.{
  ℕ, zero, suc, ◌+◌, ◌-◌, Bool, true, false, Option, none, some, List, [], ◌∷◌, ◌++◌, length, take,
  drop, replicate, ltb, ◌==◌, if◌then◌else◌, Outcome, ok, err, panic, invalid_data, ◌>>=◌,
}

-- `std::str` of the standard library: which bytes are valid UTF-8. A `&str` is its bytes.
pub record Utf8 : Type 0 where
  pub is_utf8 : List ℕ → Bool

-- `a.iter().position(|&x| x == 0)`
unfoldable pub position_zero : List ℕ → Option ℕ
position_zero [] = none
position_zero (x ∷ xs) =
    let rest = position_zero xs in
    if x == 0 then some 0 else elim rest [ none ↦ none | some i ↦ some (i + 1) ]

module _ ⦃utf8 : Utf8⦄ where
  -- `from_utf8`, and the reader moved past the field where it succeeds
  unfoldable pub read_text : List ℕ → List ℕ → Outcome (List ℕ × List ℕ)
  read_text text rest = if utf8.is_utf8 text then ok (text, rest) else err invalid_data

  unfoldable pub read_field : List ℕ → Option ℕ → List ℕ → Outcome (List ℕ × List ℕ)
  read_field a none b = err invalid_data
  read_field a (some terminator) b = read_text (take terminator a) b

  -- `split_at` panics where the reader is shorter.
  unfoldable pub read_fix : List ℕ → Outcome (List ℕ × List ℕ)
  read_fix reader =
      if ltb (length reader) 33
      then panic
      else read_field (take 33 reader) (position_zero (take 33 reader)) (drop 33 reader)

-- `std::io::Write`, as `write_fix` uses it: what a writer does with some bytes.
pub record Write (W : Type 0) : Type 0 where
  pub write : List ℕ → W → Outcome W

module _ {W : Type 0} ⦃io : Write W⦄ where
  unfoldable pub write_fix : List ℕ → W → Outcome W
  write_fix bytes w =
      let len = length bytes in
      if ltb 32 len
      then err invalid_data
      else (io.write bytes w >>= λ w'. io.write (replicate (33 - len) 0) w')
