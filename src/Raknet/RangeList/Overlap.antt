-- ===== src/Raknet/RangeList/Overlap.antt =====
-- `RangeList::insert` of a number that two adjacent ranges already cover.
use raknet_shim.Prelude.{ℕ, ◌+◌, ◌≤◌, ◌<◌, ◌≡◌, inl, inr, List, ◌∷◌, arith}
use raknet_shim.Raknet.RangeList.{Range, RangeList, try_remove, insert_ranges, insert}
use raknet_shim.Raknet.RangeList.Insert.{Covers, IsSorted, Above-gt}

-- Two ranges that touch, as insertion leaves them when it fills the gap between them.
abbrev pub touching : ℕ → ℕ → ℕ → List Range → RangeList
touching a m b rest = record {
  ranges = record { min = a; max = m } ∷ record { min = m + 1; max = b } ∷ rest;
}

-- The first range grows over the start of the second.
insert_overlaps :
    (a m b : ℕ) (rest : List Range)
    → a ≤ m
    → insert_ranges (m + 1) (touching a m b rest).ranges
      ≡ record { min = a; max = m + 1 } ∷ record { min = m + 1; max = b } ∷ rest
unfolding insert_ranges try_remove
insert_overlaps a m b rest h = ground arith

-- The test for the removal now holds of the second range.
insert_removes :
    (a m b : ℕ) (rest : List Range)
    → a ≤ m
    → insert_ranges
        (m + 2)
        (record { min = a; max = m + 1 } ∷ record { min = m + 1; max = b } ∷ rest)
      ≡ record { min = a; max = m + 2 } ∷ rest
unfolding insert_ranges try_remove
insert_removes a m b rest h = ground arith

-- Insertion does not merge ranges that touch. When the first two numbers of the second range come
-- once more, it drops that range, and with it every number behind those two.
pub insert_loses :
    (a m b x : ℕ) (rest : List Range)
    → IsSorted (touching a m b rest).ranges
    → m + 2 < x
    → x ≤ b
    → Covers x (touching a m b rest).ranges
      × ¬ Covers x (insert (m + 2) (insert (m + 1) (touching a m b rest))).ranges
unfolding insert
insert_loses a m b x rest s h k = (
  inr (inl (omega arith, k)),
  λ c. elim (rw (insert_overlaps a m b rest s.0, insert_removes a m b rest s.0) at c) [
    | inl low ↦ omega arith
    | inr later ↦ omega (arith, Above-gt x b rest s.1.2 later)
  ],
)
