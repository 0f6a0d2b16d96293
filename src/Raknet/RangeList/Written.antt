-- ===== src/Raknet/RangeList/Written.antt =====
-- Ranges into which numbers were inserted can be written (src/raknet/rangelist.rs).
use raknet_shim.Prelude.{ℕ, suc, ◌+◌, ◌-◌, ◌≤◌, ◌<◌, ◌^◌, List, [], ◌∷◌, length, arith, All}
use raknet_shim.Raknet.RangeList.{Range, RangeList, try_remove, insert_ranges, insert}
use raknet_shim.Raknet.RangeList.Insert.{
  Above, IsSorted, Fits, AllNew, insert_all, insert_all_lem, insert_ranges-Fits,
}
use raknet_shim.Raknet.RangeList.Codec.{AreU32}

length-try_remove :
    (item : ℕ) (r : Range) (rs : List Range) → length (try_remove item r rs) ≤ suc (length rs)
unfolding try_remove
length-try_remove item r [] = omega arith
length-try_remove item r (s ∷ rs) = ground arith

-- An insertion adds one range at most.
length-insert_ranges :
    (item : ℕ) (rs : List Range) → length (insert_ranges item rs) ≤ suc (length rs)
unfolding insert_ranges
length-insert_ranges item [] = omega arith
length-insert_ranges item (r ∷ rs) =
    ground
      (arith, length-insert_ranges item rs, length-try_remove item (record r { max = item }) rs)

Above-AreU32 : (bound : ℕ) (rs : List Range) → Above bound rs → Fits rs → AreU32 rs
Above-AreU32 bound [] s f = tt
Above-AreU32 bound (r ∷ rs) s f = ((omega arith, omega arith), Above-AreU32 r.max rs s.2 f.1)

IsSorted-AreU32 : (rs : List Range) → IsSorted rs → Fits rs → AreU32 rs
IsSorted-AreU32 [] s f = tt
IsSorted-AreU32 (r ∷ rs) s f = ((omega arith, omega arith), Above-AreU32 r.max rs s.1 f.1)

insert_all-Fits :
    (xs : List ℕ) (l : RangeList)
    → All (λ x. x < 2 ^ 32 - 1) xs
    → Fits l.ranges
    → Fits (insert_all xs l).ranges
unfolding insert_all insert
insert_all-Fits [] l h f = f
insert_all-Fits (x ∷ xs) l h f =
    insert_all-Fits xs (insert x l) h.1 (insert_ranges-Fits x l.ranges h.0 f)

length-insert_all :
    (xs : List ℕ) (l : RangeList) → length (insert_all xs l).ranges ≤ length l.ranges + length xs
unfolding insert_all insert
length-insert_all [] l = omega arith
length-insert_all (x ∷ xs) l =
    omega (arith, length-insert_all xs (insert x l), length-insert_ranges x l.ranges)

AllNew-lt : (xs : List ℕ) (rs : List Range) → AllNew xs rs → All (λ x. x < 2 ^ 32 - 1) xs
AllNew-lt [] rs n = tt
AllNew-lt (x ∷ xs) rs n = (n.0, AllNew-lt xs rs n.3)

-- After fewer than 2 ^ 16 insertions into an empty list.
pub insert_all_written :
    (xs : List ℕ)
    → AllNew xs []
    → length xs < 2 ^ 16
    → (length (insert_all xs (record { ranges = [] })).ranges < 2 ^ 16)
      × AreU32 (insert_all xs (record { ranges = [] })).ranges
insert_all_written xs new few =
    let empty : RangeList = record { ranges = [] } in
    (
      omega (arith, length-insert_all xs empty),
      IsSorted-AreU32 _ (insert_all_lem xs empty tt tt new).0
          (insert_all-Fits xs empty (AllNew-lt xs [] new) tt),
    )
