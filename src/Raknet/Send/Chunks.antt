-- ===== src/Raknet/Send/Chunks.antt =====
-- `chunks` of src/raknet/send.rs, the standard library's: nothing is lost, and no chunk is too long.
use raknet_shim.Prelude.{
  ◌*◌, ℕ, zero, suc, ◌≤◌, ◌<◌, ◌≡◌, refl, ap, ◌∙◌, List, [], ◌∷◌, ◌++◌, length, take, drop,
  take-append-drop, length-take, length-drop, arith, All,
}
use mathlib.Core.List.{flatten}
use raknet_shim.Raknet.Send.{chunks_loop, chunks}

chunks_loop-flatten :
    (rounds n : ℕ) (bytes : List ℕ)
    → 0 < n
    → length bytes ≤ rounds
    → flatten (chunks_loop rounds n bytes) ≡ bytes
unfolding chunks_loop flatten
chunks_loop-flatten rounds n [] pos few = refl
chunks_loop-flatten zero n (b ∷ bytes) pos few = absurd (omega arith)
chunks_loop-flatten (suc rounds) n (b ∷ bytes) pos few =
    ap (◌++◌ (take n (b ∷ bytes))) (
      chunks_loop-flatten rounds n (drop n (b ∷ bytes)) pos
        (omega (arith, length-drop n (b ∷ bytes))))
    ∙ take-append-drop n (b ∷ bytes)

pub chunks-flatten : (n : ℕ) (bytes : List ℕ) → 0 < n → flatten (chunks n bytes) ≡ bytes
unfolding chunks
chunks-flatten n bytes pos = chunks_loop-flatten (length bytes) n bytes pos (omega arith)

chunks_loop-short :
    (rounds n : ℕ) (bytes : List ℕ) → All (λ c. length c ≤ n) (chunks_loop rounds n bytes)
unfolding chunks_loop flatten
chunks_loop-short rounds n [] = tt
chunks_loop-short zero n (b ∷ bytes) = tt
chunks_loop-short (suc rounds) n (b ∷ bytes) =
    (omega (arith, length-take n (b ∷ bytes)), chunks_loop-short rounds n (drop n (b ∷ bytes)))

pub chunks-short : (n : ℕ) (bytes : List ℕ) → All (λ c. length c ≤ n) (chunks n bytes)
unfolding chunks
chunks-short n bytes = chunks_loop-short (length bytes) n bytes

pub chunks_loop-length :
    (rounds n : ℕ) (bytes : List ℕ)
    → 0 < n
    → length bytes ≤ rounds
    → (length (chunks_loop rounds n bytes) ≤ length bytes)
      × (length bytes ≤ length (chunks_loop rounds n bytes) * n)
unfolding chunks_loop flatten
chunks_loop-length rounds n [] pos few = omega arith
chunks_loop-length zero n (b ∷ bytes) pos few = absurd (omega arith)
chunks_loop-length (suc rounds) n (b ∷ bytes) pos few = grind (
  arith,
  length-drop n (b ∷ bytes),
  chunks_loop-length rounds n (drop n (b ∷ bytes)) pos (omega (arith, length-drop n (b ∷ bytes))),
)

pub chunks-length :
    (n : ℕ) (bytes : List ℕ)
    → 0 < n
    → (length (chunks n bytes) ≤ length bytes) × (length bytes ≤ length (chunks n bytes) * n)
unfolding chunks
chunks-length n bytes pos = chunks_loop-length (length bytes) n bytes pos (omega arith)
