-- ===== src/Strings/Tests.antt =====
-- A short string in its field, with an ASCII test in the place of the UTF-8 one.
use raknet_shim.Prelude.{
  All, replicate, ℕ, ◌≡◌, ◌≢◌, ◌+◌, refl, Bool, true, List, [], ◌∷◌, ◌++◌, length, ltb, arith, ok,
  ◌&&◌,
}
use raknet_shim.Strings.{position_zero, read_text, read_field, Utf8, Write, read_fix, write_fix}
use raknet_shim.Strings.RoundTrip.{WriteLaws, read_fix-write_fix, read_fix_sound}

abbrev all_ascii : List ℕ → Bool
all_ascii [] = true
all_ascii (b ∷ bs) = ltb b 128 && all_ascii bs

abbrev ascii : Utf8
ascii = record { is_utf8 = all_ascii }

abbrev to_list : Write (List ℕ)
to_list = record { write = λ bytes w. ok (w ++ bytes) }

abbrev to_list_laws : WriteLaws to_list
to_list_laws = record { content = λ w. w; write_all = λ bytes w. (w ++ bytes, refl, refl) }

-- "short"
abbrev short_text : List ℕ
short_text = 115 ∷ 104 ∷ 111 ∷ 114 ∷ 116 ∷ []

read_fix-write_fix_example :
    (w' : List ℕ) × (written : List ℕ) × (write_fix ⦃io = to_list⦄ short_text (7 ∷ []) ≡ ok w')
    × (w' ≡ (7 ∷ []) ++ written)
    × (length written ≡ 33)
    × ((more : List ℕ) → read_fix ⦃utf8 = ascii⦄ (written ++ more) ≡ ok (short_text, more))
read_fix-write_fix_example =
    read_fix-write_fix ⦃utf8 = ascii⦄ ⦃io = to_list⦄ to_list_laws short_text (7 ∷ []) (omega arith)
      (omega arith) refl

-- "short", a terminator, and 27 bytes that are ignored
abbrev garbage : List ℕ
garbage = short_text ++ (0 ∷ replicate 27 255)

read_fix_sound_example :
    (after : List ℕ) × (garbage ++ (42 ∷ []) ≡ short_text ++ ((0 ∷ after) ++ (42 ∷ [])))
    × (length short_text + length after ≡ 32)
    × All (λ b. b ≢ 0) short_text
    × (all_ascii short_text ≡ true)
unfolding read_fix read_field read_text position_zero
read_fix_sound_example =
    read_fix_sound ⦃utf8 = ascii⦄ (garbage ++ (42 ∷ [])) short_text (42 ∷ []) refl
