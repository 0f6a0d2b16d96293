-- ===== src/Raknet/RangeList/Tests.antt =====
-- The repository's tests of src/raknet/rangelist.rs, and the theorems at concrete lists.
use raknet_shim.Prelude.{List, ℕ, ◌+◌, ◌≡◌, ◌↔◌, ◌⊎◌, refl, [], ◌∷◌, arith}
use raknet_shim.Bits.{RoundTrips}
use raknet_shim.Bits.Model.{list_write, list_read, list_write_laws, list_read_laws}
use raknet_shim.Raknet.RangeList as Ranges
use raknet_shim.Raknet.RangeList.{
  Range, RangeList, new, insert, insert_ranges, try_remove, len_ranges,
}
use raknet_shim.Raknet.RangeList.Items.{collect, into_iter}
use raknet_shim.Raknet.RangeList.Items.Collect.{Ascends, collect-into_iter}
use raknet_shim.Prelude.{ok, length}
use raknet_shim.Raknet.RangeList.Insert.{
  Covers, IsSorted, Among, insert_all, insert-Covers, insert_all_lem,
}
use raknet_shim.Raknet.RangeList.Overlap.{touching, insert_loses}
use raknet_shim.Raknet.RangeList.Codec.{serialize, deserialize, deserialize-serialize_ranges}

abbrev range : ℕ → ℕ → Range
range a b = record { min = a; max = b }

abbrev multiple_ranges : RangeList
multiple_ranges = record { ranges = range 1 3 ∷ range 5 6 ∷ range 8 8 ∷ range 14 17 ∷ [] }

insert_test : insert_all (1 ∷ 2 ∷ 3 ∷ 5 ∷ 6 ∷ 8 ∷ 14 ∷ 15 ∷ 16 ∷ 17 ∷ []) new ≡ multiple_ranges
unfolding insert_all insert insert_ranges try_remove new
insert_test = refl

length_test : Ranges.length multiple_ranges ≡ 10
unfolding Ranges.length len_ranges
length_test = refl

-- Filling the gap leaves two ranges that touch; the two numbers that come again then drop 7, 8 and 9.
loses_test :
    insert_all (1 ∷ 2 ∷ 3 ∷ 5 ∷ 6 ∷ 7 ∷ 8 ∷ 9 ∷ 4 ∷ 5 ∷ 6 ∷ []) new
    ≡ record { ranges = range 1 6 ∷ [] }
unfolding insert_all insert insert_ranges try_remove new
loses_test = refl

insert-Covers_example :
    Covers 4 (insert 4 multiple_ranges).ranges
    ↔ (Covers 4 multiple_ranges.ranges ⊎ (◌≡◌ {A = ℕ} 4 4))
insert-Covers_example = insert-Covers 4 4 multiple_ranges (omega arith)

insert_all_lem_example :
    IsSorted (insert_all (20 ∷ 4 ∷ []) multiple_ranges).ranges
    × (Ranges.length (insert_all (20 ∷ 4 ∷ []) multiple_ranges) ≡ Ranges.length multiple_ranges + 2)
    × ((x : ℕ)
        → Covers x (insert_all (20 ∷ 4 ∷ []) multiple_ranges).ranges
          ↔ (Covers x multiple_ranges.ranges ⊎ Among x (20 ∷ 4 ∷ [])))
insert_all_lem_example =
    insert_all_lem (20 ∷ 4 ∷ []) multiple_ranges (omega arith) (omega arith) (omega arith)

insert_loses_example :
    Covers 9 (touching 1 4 9 []).ranges
    × ¬ Covers 9 (insert 6 (insert 5 (touching 1 4 9 []))).ranges
insert_loses_example = insert_loses 1 4 9 9 [] (omega arith) (omega arith) (omega arith)

deserialize-serialize_ranges_example :
    RoundTrips list_write_laws.bits list_read_laws.rest
      (serialize multiple_ranges)
      deserialize
      multiple_ranges
deserialize-serialize_ranges_example =
    deserialize-serialize_ranges list_write_laws list_read_laws multiple_ranges (omega arith)
      (omega arith)

collect-into_iter_example :
    (items : List ℕ) × (collect (Ranges.length multiple_ranges + 1) (into_iter multiple_ranges)
      ≡ ok items)
    × (length items ≡ Ranges.length multiple_ranges)
    × Ascends 0 items
    × ((x : ℕ) → Among x items ↔ Covers x multiple_ranges.ranges)
collect-into_iter_example = collect-into_iter multiple_ranges (omega arith) (omega arith)
