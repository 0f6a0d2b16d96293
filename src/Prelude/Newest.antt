-- ===== src/Prelude/Newest.antt =====
-- Sequence numbers that wrap: which of a run of numbers are newer than all before them, and the test
-- of the program that finds it out (`UnreliableSequenced` in src/raknet/recv.rs and src/tcpudp/mod.rs).
use raknet_shim.Prelude.{
  ℕ, ◌+◌, ◌%◌, ◌^◌, ◌<◌, ◌≤◌, ◌≡◌, not, Bool-cases, inl, inr, List, [], ◌∷◌, ltb, if◌then◌else◌,
  arith, wrapping_add, wrapping_sub, half_window,
}

-- The number of a packet on the wire, where counting began at `base`.
abbrev pub number : ℕ → ℕ → ℕ
number base k = (base + k) % 2 ^ 32

-- Those numbers of a list that are newer than all before them, from `next` on.
unfoldable pub newest : ℕ → List ℕ → List ℕ
newest next [] = []
newest next (k ∷ ks) =
    let rest = newest (if ltb k next then next else k + 1) ks in
    if ltb k next then rest else k ∷ rest

-- So few are sent that an old number is not taken for a new one.
abbrev pub most : ℕ
most = half_window

pub next_number : (base i : ℕ) → wrapping_add (number base i) 1 ≡ number base (i + 1)
next_number base i = omega arith

pub newer_lem :
    (base k next : ℕ)
    → k < most
    → next ≤ most
    → ltb (wrapping_sub (number base k) (number base next)) half_window ≡ not (ltb k next)
newer_lem base k next h j = ground arith

-- Each number is at least `next`, and greater than the one before it.
abbrev pub Ascending : ℕ → List ℕ → Type 0
Ascending next [] = Unit {0}
Ascending next (k ∷ ks) = (next ≤ k) × Ascending (k + 1) ks

pub newest-Ascending : (next : ℕ) (ks : List ℕ) → Ascending next (newest next ks)
unfolding newest
newest-Ascending next [] = tt
newest-Ascending next (k ∷ ks) = elim (Bool-cases (ltb k next)) [
  | inl old ↦ rw (old, newest) (newest-Ascending next ks)
  | inr new ↦ rw (new, newest) (ground arith, newest-Ascending (k + 1) ks)
]
