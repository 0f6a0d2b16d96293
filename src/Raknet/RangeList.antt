-- ===== src/Raknet/RangeList.antt =====
-- src/raknet/rangelist.rs: the list of message numbers to acknowledge, kept as ranges.
pub mod Insert
pub mod Written
pub mod Overlap
pub mod Items
pub mod Codec
mod Tests
use raknet_shim.Prelude.{
  ℕ, zero, suc, ◌+◌, ◌-◌, ◌≡◌, List, [], ◌∷◌, ◌==◌, ltb, leb, if◌then◌else◌, Bool, true, false,
  wrapping_add, wrapping_sub,
}

pub record Range : Type 0 where
  pub min : ℕ
  pub max : ℕ

pub record RangeList : Type 0 where
  pub ranges : List Range

unfoldable pub new : RangeList
new = record { ranges = [] }

abbrev pub single : ℕ → Range
single item = record { min = item; max = item }

-- `u32` arithmetic in a build without overflow checks
pub len_ranges : List Range → ℕ
len_ranges [] = 0
len_ranges (r ∷ rs) = wrapping_add (wrapping_sub r.max r.min) 1 + len_ranges rs

pub length : RangeList → ℕ
length l = len_ranges l.ranges

unfoldable pub is_empty : RangeList → Bool
is_empty l = elim l.ranges [ [] ↦ true | _ ∷ _ ↦ false ]

unfoldable pub clear : RangeList → RangeList
clear l = record { ranges = [] }

-- The range `r` was extended by `item`. `try_remove` is the index behind it, if there is one.
pub try_remove : ℕ → Range → List Range → List Range
try_remove item r [] = r ∷ []
try_remove item r (s ∷ rs) = if s.min == item - 1 then r ∷ rs else r ∷ s ∷ rs

-- The loop over the ranges, from one of them on: a `return` or `break` keeps the ranges behind it,
-- and the end of the list is where the loop ran through. `min - item` and `item - 1` are taken only
-- where they are not negative.
pub insert_ranges : ℕ → List Range → List Range
insert_ranges item [] = single item ∷ []
insert_ranges item (r ∷ rs) =
    if leb r.min item
    then (if leb item r.max
        then r ∷ rs
        else if r.max == item - 1
        then try_remove item (record r { max = item }) rs
        else r ∷ insert_ranges item rs)
    else (if r.min - item == 1 then record r { min = item } ∷ rs else single item ∷ r ∷ rs)

pub insert : ℕ → RangeList → RangeList
insert item l = record { ranges = insert_ranges item l.ranges }
