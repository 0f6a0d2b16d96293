-- ===== src/Raknet/RangeList/Items.antt =====
-- `Items` of src/raknet/rangelist.rs: the numbers of a range list, one after the other.
pub mod Collect
use raknet_shim.Prelude.{
  ℕ, zero, suc, ◌+◌, ◌-◌, ◌^◌, ◌≤◌, ◌<◌, ◌≡◌, ◌⊎◌, ◌↔◌, inl, inr, refl, sym, ap, ◌∙◌, Bool, true,
  false, Option, none, some, List, [], ◌∷◌, ◌++◌, length, ltb, leb, ◌==◌, if◌then◌else◌, Outcome,
  ok, stuck, ◌>>=◌, arith, Bool-cases,
}
use raknet_shim.Raknet.RangeList as Ranges
use raknet_shim.Raknet.RangeList.{Range, RangeList, len_ranges}
use raknet_shim.Raknet.RangeList.Insert.{Covers, In, IsSorted, Above}

-- `std::ops::RangeInclusive<u32>` as an iterator.
pub record RangeInclusive : Type 0 where
  pub start : ℕ
  pub last : ℕ
  pub exhausted : Bool

pub next_in_range : RangeInclusive → Option ℕ × RangeInclusive
next_in_range r =
    if r.exhausted
    then (none, r)
    else (if ltb r.start r.last
        then (some r.start, record r { start = r.start + 1 })
        else if r.start == r.last
        then (some r.start, record r { exhausted = true })
        else (none, r))

pub record Items : Type 0 where
  pub range_iter : List Range
  pub range : Option RangeInclusive

-- The second half of the loop's body, and what the loop's next rounds give.
pub or_next : Option ℕ × RangeInclusive → List Range → Option ℕ × Items → Option ℕ × Items
or_next (some x, range) range_iter rest =
    (some x, record { range_iter = range_iter; range = some range })
or_next (none, range) range_iter rest = rest

-- The loop, where `self.range` is `None`.
pub next_of_ranges : List Range → Option ℕ × Items
next_of_ranges [] = (none, record { range_iter = []; range = none })
next_of_ranges (r ∷ rs) =
    let rest = next_of_ranges rs in
    or_next (next_in_range (record { start = r.min; last = r.max; exhausted = false })) rs rest

-- `Items::next`
pub next : Items → Option ℕ × Items
next it = elim it.range [
  | none ↦ next_of_ranges it.range_iter
  | some range ↦ or_next (next_in_range range) it.range_iter (next_of_ranges it.range_iter)
]

pub into_iter : RangeList → Items
into_iter l = record { range_iter = l.ranges; range = none }

-- One number, unless the iterator has ended, before the others.
pub item_before : Option ℕ → Outcome (List ℕ) → Outcome (List ℕ)
item_before none rest = ok []
item_before (some x) rest = rest >>= λ xs. ok (x ∷ xs)

-- `Iterator::collect` of the standard library, on fuel.
pub collect : ℕ → Items → Outcome (List ℕ)
collect zero it = stuck
collect (suc fuel) it = let (item, it') = next it in item_before item (collect fuel it')
