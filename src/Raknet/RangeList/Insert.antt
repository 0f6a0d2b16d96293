-- ===== src/Raknet/RangeList/Insert.antt =====
-- `RangeList::insert` and the set of numbers that the ranges cover.
use raknet_shim.Prelude.{
  ◌≢◌, length, ◌^◌, All, All, ℕ, ◌+◌, ◌-◌, ◌≤◌, ◌<◌, ◌≡◌, refl, ◌↔◌, ◌⊎◌, inl, inr, List, [], ◌∷◌,
  arith,
}
use raknet_shim.Raknet.RangeList as Ranges
use raknet_shim.Raknet.RangeList.{Range, RangeList, try_remove, insert_ranges, insert, len_ranges}

abbrev pub In : ℕ → Range → Type 0
In x r = (r.min ≤ x) × (x ≤ r.max)

abbrev pub Covers : ℕ → List Range → Type 0
Covers x [] = ⊥
Covers x (r ∷ rs) = In x r ⊎ Covers x rs

-- All ranges start above `bound`, none is empty, and each starts above the end of the one before.
abbrev pub Above : ℕ → List Range → Type 0
Above bound [] = Unit {0}
Above bound (r ∷ rs) = (bound < r.min) × (r.min ≤ r.max) × Above r.max rs

abbrev pub IsSorted : List Range → Type 0
IsSorted [] = Unit {0}
IsSorted (r ∷ rs) = (r.min ≤ r.max) × Above r.max rs

pub Above-gt : (x bound : ℕ) (rs : List Range) → Above bound rs → Covers x rs → bound < x
Above-gt x bound [] a c = absurd c
Above-gt x bound (r ∷ rs) a (inl c) = omega arith
Above-gt x bound (r ∷ rs) a (inr c) = omega (arith, Above-gt x r.max rs a.2 c)

-- On sorted ranges the test that guards the removal fails.
try_remove_keeps :
    (item : ℕ) (r : Range) (rs : List Range) → Above (item - 1) rs → try_remove item r rs ≡ r ∷ rs
unfolding try_remove
try_remove_keeps item r [] a = refl
try_remove_keeps item r (s ∷ rs) a = ground arith

insert_ranges-Covers_beyond :
    (x item bound : ℕ) (rs : List Range)
    → Above bound rs
    → Covers x (insert_ranges item rs) ↔ (Covers x rs ⊎ (x ≡ item))
unfolding insert_ranges
insert_ranges-Covers_beyond x item bound [] a = ground arith
insert_ranges-Covers_beyond x item bound (r ∷ rs) a = ground (
  arith,
  insert_ranges-Covers_beyond x item r.max rs a.2,
  try_remove_keeps item (record r { max = item }) rs,
)

fresh-Above :
    (item bound : ℕ) (rs : List Range)
    → Above bound rs
    → bound ≡ item - 1
    → ¬ Covers item rs
    → Above item rs
fresh-Above item bound [] a e fresh = tt
fresh-Above item bound (r ∷ rs) a e fresh = ground (arith, λ (t : In item r). fresh (inl t))

insert_ranges-Above :
    (item bound : ℕ) (rs : List Range)
    → bound < item
    → Above bound rs
    → ¬ Covers item rs
    → Above bound (insert_ranges item rs)
unfolding insert_ranges
insert_ranges-Above item bound [] h a fresh = omega arith
insert_ranges-Above item bound (r ∷ rs) h a fresh =
    let later : ¬ Covers item rs = λ t. fresh (inr t) in
    ground (
      arith,
      λ (p : r.max < item). insert_ranges-Above item r.max rs p a.2 later,
      λ (t : In item r). fresh (inl t),
      try_remove_keeps item (record r { max = item }) rs,
      λ (e : r.max ≡ item - 1). fresh-Above item r.max rs a.2 e later,
    )

insert_ranges-Covers :
    (x item : ℕ) (rs : List Range)
    → IsSorted rs
    → Covers x (insert_ranges item rs) ↔ (Covers x rs ⊎ (x ≡ item))
unfolding insert_ranges
insert_ranges-Covers x item [] a = ground arith
insert_ranges-Covers x item (r ∷ rs) a = ground (
  arith,
  insert_ranges-Covers_beyond x item r.max rs a.1,
  try_remove_keeps item (record r { max = item }) rs,
)

insert_ranges-IsSorted :
    (item : ℕ) (rs : List Range) → IsSorted rs → ¬ Covers item rs → IsSorted (insert_ranges item rs)
unfolding insert_ranges
insert_ranges-IsSorted item [] a fresh = omega arith
insert_ranges-IsSorted item (r ∷ rs) a fresh =
    let later : ¬ Covers item rs = λ t. fresh (inr t) in
    ground (
      arith,
      λ (p : r.max < item). insert_ranges-Above item r.max rs p a.1 later,
      λ (t : In item r). fresh (inl t),
      try_remove_keeps item (record r { max = item }) rs,
      λ (e : r.max ≡ item - 1). fresh-Above item r.max rs a.1 e later,
    )

-- No range goes past `u32::max_value() - 1`, so that the length of one does not wrap.
abbrev pub Fits : List Range → Type 0
Fits rs = All (λ r. r.max < 2 ^ 32 - 1) rs

pub insert_ranges-Fits :
    (item : ℕ) (rs : List Range) → item < 2 ^ 32 - 1 → Fits rs → Fits (insert_ranges item rs)
unfolding insert_ranges try_remove
insert_ranges-Fits item [] h a = omega arith
insert_ranges-Fits item (r ∷ []) h a = unfold insert_ranges in ground arith
insert_ranges-Fits item (r ∷ s ∷ rs) h a = ground (arith, insert_ranges-Fits item (s ∷ rs) h a.1)

len_ranges-insert_beyond :
    (item bound : ℕ) (rs : List Range)
    → item < 2 ^ 32 - 1
    → Above bound rs
    → Fits rs
    → ¬ Covers item rs
    → len_ranges (insert_ranges item rs) ≡ len_ranges rs + 1
unfolding insert_ranges len_ranges
len_ranges-insert_beyond item bound [] h a f fresh = omega arith
len_ranges-insert_beyond item bound (r ∷ rs) h a f fresh = ground (
  arith,
  len_ranges-insert_beyond item r.max rs h a.2 f.1 (λ t. fresh (inr t)),
  λ (t : In item r). fresh (inl t),
  try_remove_keeps item (record r { max = item }) rs,
)

len_ranges-insert :
    (item : ℕ) (rs : List Range)
    → item < 2 ^ 32 - 1
    → IsSorted rs
    → Fits rs
    → ¬ Covers item rs
    → len_ranges (insert_ranges item rs) ≡ len_ranges rs + 1
unfolding insert_ranges len_ranges
len_ranges-insert item [] h a f fresh = omega arith
len_ranges-insert item (r ∷ rs) h a f fresh = ground (
  arith,
  len_ranges-insert_beyond item r.max rs h a.1 f.1 (λ t. fresh (inr t)),
  λ (t : In item r). fresh (inl t),
  try_remove_keeps item (record r { max = item }) rs,
)

-- On sorted ranges an insertion adds its number to the set that the ranges cover, and changes
-- nothing else in it, whether or not the number was there.
pub insert-Covers :
    (x item : ℕ) (l : RangeList)
    → IsSorted l.ranges
    → Covers x (insert item l).ranges ↔ (Covers x l.ranges ⊎ (x ≡ item))
unfolding insert
insert-Covers x item l = insert_ranges-Covers x item l.ranges

-- Inserted one after the other.
unfoldable pub insert_all : List ℕ → RangeList → RangeList
insert_all [] l = l
insert_all (x ∷ xs) l = insert_all xs (insert x l)

-- Each number is new to the list and below `u32::max_value()`.
abbrev pub AllNew : List ℕ → List Range → Type 0
AllNew [] rs = Unit {0}
AllNew (x ∷ xs) rs = (x < 2 ^ 32 - 1) × (¬ Covers x rs) × All (λ y. y ≢ x) xs × AllNew xs rs

abbrev pub Among : ℕ → List ℕ → Type 0
Among x [] = ⊥
Among x (y ∷ ys) = (x ≡ y) ⊎ Among x ys

AllNew-insert :
    (x : ℕ) (xs : List ℕ) (rs : List Range)
    → IsSorted rs
    → All (λ y. y ≢ x) xs
    → AllNew xs rs
    → AllNew xs (insert_ranges x rs)
AllNew-insert x [] rs s d n = tt
AllNew-insert x (y ∷ ys) rs s d n = (
  n.0,
  (λ c. elim ((insert_ranges-Covers y x rs s).0 c) [ inl old ↦ n.1 old | inr e ↦ d.0 e ]),
  n.2,
  AllNew-insert x ys rs s d.1 n.3,
)

-- Let ranges be sorted, with every end below `u32::max_value()`, and let numbers be different from each
-- other, covered by no range, and below `u32::max_value()` too. Inserted in any order, they keep the
-- ranges sorted and disjoint; the ranges then cover exactly those numbers and the old ones, and
-- `length` has grown by their count.
pub insert_all_lem :
    (xs : List ℕ) (l : RangeList)
    → IsSorted l.ranges
    → Fits l.ranges
    → AllNew xs l.ranges
    → IsSorted (insert_all xs l).ranges
      × (Ranges.length (insert_all xs l) ≡ Ranges.length l + length xs)
      × ((x : ℕ) → Covers x (insert_all xs l).ranges ↔ (Covers x l.ranges ⊎ Among x xs))
unfolding insert_all insert Ranges.length
insert_all_lem [] l s f n = (s, omega arith, λ x. ground arith)
insert_all_lem (y ∷ ys) l s f n =
    let (sorted, size, covered) =
      insert_all_lem ys (insert y l) (insert_ranges-IsSorted y l.ranges s n.1)
        (insert_ranges-Fits y l.ranges n.0 f) (AllNew-insert y ys l.ranges s n.2 n.3) in
    (
      sorted,
      omega (arith, size, len_ranges-insert y l.ranges n.0 s f n.1),
      λ x. ground (arith, covered x, insert_ranges-Covers x y l.ranges s),
    )
