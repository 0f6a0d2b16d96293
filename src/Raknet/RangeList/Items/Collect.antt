-- ===== src/Raknet/RangeList/Items/Collect.antt =====
-- All that `Items` gives, and what the ranges cover.
use raknet_shim.Prelude.{
  ℕ, zero, suc, ◌+◌, ◌-◌, ◌≤◌, ◌<◌, ◌≡◌, ◌⊎◌, ◌↔◌, inl, inr, refl, sym, ap, ◌∙◌, false, Option,
  none, some, List, [], ◌∷◌, ◌++◌, length, ltb, ◌==◌, if◌then◌else◌, ok, arith, Bool-cases,
  length-append, subst,
}
use raknet_shim.Raknet.RangeList as Ranges
use raknet_shim.Raknet.RangeList.{Range, RangeList, len_ranges}
use raknet_shim.Raknet.RangeList.Insert.{Among, Fits, Covers, IsSorted, Above}
use raknet_shim.Raknet.RangeList.Items.{
  item_before, RangeInclusive, next_in_range, Items, or_next, next_of_ranges, next, into_iter,
  collect,
}

-- The numbers of an interval, and what is still to come of an iterator.
upto : ℕ → ℕ → List ℕ
upto lo zero = []
upto lo (suc n) = lo ∷ upto (lo + 1) n

range_pending : RangeInclusive → List ℕ
range_pending r = if r.exhausted then [] else upto r.start (r.last + 1 - r.start)

numbers : List Range → List ℕ
numbers [] = []
numbers (r ∷ rs) = upto r.min (r.max + 1 - r.min) ++ numbers rs

pending : Items → List ℕ
pending it = elim it.range [
  | none ↦ numbers it.range_iter
  | some range ↦ range_pending range ++ numbers it.range_iter
]

-- A step takes the first of what is to come.
abbrev RangeStep : Option ℕ × RangeInclusive → List ℕ → Type 0
RangeStep (none, r) xs = xs ≡ []
RangeStep (some x, r) xs = xs ≡ x ∷ range_pending r

abbrev Step : Option ℕ × Items → List ℕ → Type 0
Step (none, it) xs = xs ≡ []
Step (some x, it) xs = xs ≡ x ∷ pending it

upto_suc : (lo hi : ℕ) → lo ≤ hi → upto lo (hi + 1 - lo) ≡ lo ∷ upto (lo + 1) (hi - lo)
unfolding upto
upto_suc lo hi h = let e : hi + 1 - lo ≡ suc (hi - lo) = omega arith in ap (upto lo) e

next_in_range-RangeStep : (r : RangeInclusive) → RangeStep (next_in_range r) (range_pending r)
unfolding next_in_range range_pending upto
next_in_range-RangeStep r = elim (Bool-cases r.exhausted) [
  | inl done ↦ rw (done, next_in_range, range_pending) refl
  | inr going ↦ elim (Bool-cases (ltb r.start r.last)) [
    | inl before ↦
        let some_left : r.start < r.last = ground arith in
        let rest : r.last - r.start ≡ r.last + 1 - (r.start + 1) = omega arith in
        rw (going, before, next_in_range, range_pending)
          (upto_suc r.start r.last (omega arith) ∙ ap (λ n. r.start ∷ upto (r.start + 1) n) rest)
    | inr not_before ↦ elim (Bool-cases (r.start == r.last)) [
      | inl at_last ↦
          let same : r.start ≡ r.last = ground arith in
          let nothing : r.last - r.start ≡ 0 = omega arith in
          rw (going, not_before, at_last, next_in_range, range_pending)
            (upto_suc r.start r.last (omega arith)
              ∙ ap (λ n. r.start ∷ upto (r.start + 1) n) nothing)
      | inr beyond ↦
          let none_left : r.last + 1 - r.start ≡ 0 = ground arith in
          rw (going, not_before, beyond, next_in_range, range_pending) (ap (upto r.start) none_left)
    ]
  ]
]

or_next-Step :
    (r : Option ℕ × RangeInclusive) (rs : List Range) (rest : Option ℕ × Items) (xs : List ℕ)
    → RangeStep r xs
    → Step rest (numbers rs)
    → Step (or_next r rs rest) (xs ++ numbers rs)
unfolding or_next pending
or_next-Step (none, r) rs rest xs e later = rw e later
or_next-Step (some x, r) rs rest xs e later = ap (λ l. l ++ numbers rs) e

next_of_ranges-Step : (rs : List Range) → Step (next_of_ranges rs) (numbers rs)
unfolding next_of_ranges numbers range_pending
next_of_ranges-Step [] = refl
next_of_ranges-Step (r ∷ rs) =
    let range : RangeInclusive = record { start = r.min; last = r.max; exhausted = false } in
    or_next-Step (next_in_range range) rs (next_of_ranges rs) (upto r.min (r.max + 1 - r.min))
      (next_in_range-RangeStep range) (next_of_ranges-Step rs)

next-Step : (it : Items) → Step (next it) (pending it)
unfolding next pending
next-Step it =
    elim it.range
      as (λ range.
        Step (next (record it { range = range })) (pending (record it { range = range }))) [
          | none ↦ next_of_ranges-Step it.range_iter
          | some range ↦
              or_next-Step (next_in_range range) it.range_iter (next_of_ranges it.range_iter)
                (range_pending range) (next_in_range-RangeStep range)
                (next_of_ranges-Step it.range_iter)
        ]

item_before-Step :
    (r : Option ℕ × Items) (xs : List ℕ) (fuel : ℕ)
    → length xs < suc fuel
    → Step r xs
    → (length (pending r.1) < fuel → collect fuel r.1 ≡ ok (pending r.1))
    → item_before r.0 (collect fuel r.1) ≡ ok xs
unfolding item_before
item_before-Step (none, it) xs fuel h e later = ap ok (sym e)
item_before-Step (some x, it) xs fuel h e later =
    let smaller : length (pending it) < fuel = omega (arith, ap length e) in
    rw (later smaller) (ap ok (sym e))

collect-pending :
    (fuel : ℕ) (it : Items) → length (pending it) < fuel → collect fuel it ≡ ok (pending it)
unfolding collect
collect-pending zero it h = absurd (omega arith)
collect-pending (suc fuel) it h =
    item_before-Step (next it) (pending it) fuel h (next-Step it) (collect-pending fuel (next it).1)

length-upto : (lo n : ℕ) → length (upto lo n) ≡ n
unfolding upto
length-upto lo zero = refl
length-upto lo (suc n) = ap suc (length-upto (lo + 1) n)

Above-IsSorted : (bound : ℕ) (rs : List Range) → Above bound rs → IsSorted rs
Above-IsSorted bound [] a = tt
Above-IsSorted bound (r ∷ rs) a = (a.1, a.2)

len_ranges-numbers : (rs : List Range) → IsSorted rs → Fits rs → length (numbers rs) ≡ len_ranges rs
unfolding numbers len_ranges
len_ranges-numbers [] a f = refl
len_ranges-numbers (r ∷ rs) a f = omega (
  arith,
  length-append (upto r.min (r.max + 1 - r.min)) (numbers rs),
  length-upto r.min (r.max + 1 - r.min),
  len_ranges-numbers rs (Above-IsSorted r.max rs a.1) f.1,
)

Among-++ : (x : ℕ) (xs ys : List ℕ) → Among x (xs ++ ys) ↔ (Among x xs ⊎ Among x ys)
Among-++ x [] ys = ground arith
Among-++ x (y ∷ xs) ys = ground (arith, Among-++ x xs ys)

upto-Among : (x lo n : ℕ) → Among x (upto lo n) ↔ ((lo ≤ x) × (x < lo + n))
unfolding upto
upto-Among x lo zero = ground arith
upto-Among x lo (suc n) = ground (arith, upto-Among x (lo + 1) n)

numbers-Among : (x : ℕ) (rs : List Range) → Among x (numbers rs) ↔ Covers x rs
unfolding numbers
numbers-Among x [] = ground arith
numbers-Among x (r ∷ rs) = ground (
  arith,
  Among-++ x (upto r.min (r.max + 1 - r.min)) (numbers rs),
  upto-Among x r.min (r.max + 1 - r.min),
  numbers-Among x rs,
)

-- Strictly ascending, from a bound on.
abbrev pub Ascends : ℕ → List ℕ → Type 0
Ascends b [] = Unit {0}
Ascends b (x ∷ xs) = (b ≤ x) × Ascends (x + 1) xs

Ascends-le : (b c : ℕ) (xs : List ℕ) → b ≤ c → Ascends c xs → Ascends b xs
Ascends-le b c [] h a = tt
Ascends-le b c (x ∷ xs) h a = (omega arith, a.1)

upto-Ascends : (lo n : ℕ) (ys : List ℕ) → Ascends (lo + n) ys → Ascends lo (upto lo n ++ ys)
unfolding upto
upto-Ascends lo zero ys a = Ascends-le lo (lo + 0) ys (omega arith) a
upto-Ascends lo (suc n) ys a =
    let e : lo + suc n ≡ lo + 1 + n = omega arith in
    (omega arith, upto-Ascends (lo + 1) n ys (subst (λ b. Ascends b ys) e a))

range-Ascends :
    (r : Range) (rs : List Range)
    → r.min ≤ r.max
    → Ascends (r.max + 1) (numbers rs)
    → Ascends r.min (numbers (r ∷ rs))
unfolding numbers
range-Ascends r rs h later =
    let e : r.max + 1 ≡ r.min + (r.max + 1 - r.min) = omega arith in
    upto-Ascends r.min (r.max + 1 - r.min) (numbers rs)
      (subst (λ b. Ascends b (numbers rs)) e later)

numbers-Ascends-Above :
    (bound : ℕ) (rs : List Range) → Above bound rs → Ascends (bound + 1) (numbers rs)
unfolding numbers
numbers-Ascends-Above bound [] a = tt
numbers-Ascends-Above bound (r ∷ rs) a =
    Ascends-le (bound + 1) r.min _ (omega arith)
      (range-Ascends r rs a.1 (numbers-Ascends-Above r.max rs a.2))

numbers-Ascends : (rs : List Range) → IsSorted rs → Ascends 0 (numbers rs)
unfolding numbers
numbers-Ascends [] a = tt
numbers-Ascends (r ∷ rs) a =
    Ascends-le 0 r.min _ (omega arith) (range-Ascends r rs a.0 (numbers-Ascends-Above r.max rs a.1))

-- Of sorted ranges, with every end below `u32::max_value()`, the iterator gives exactly the numbers
-- that they cover, each once and in strictly ascending order, and then ends; `length` is how many it
-- gives. One round more than `length` is enough.
pub collect-into_iter :
    (l : RangeList)
    → IsSorted l.ranges
    → Fits l.ranges
    → (items : List ℕ) × (collect (Ranges.length l + 1) (into_iter l) ≡ ok items)
      × (length items ≡ Ranges.length l)
      × Ascends 0 items
      × ((x : ℕ) → Among x items ↔ Covers x l.ranges)
unfolding into_iter pending Ranges.length
collect-into_iter l s f =
    let size = len_ranges-numbers l.ranges s f in
    (
      numbers l.ranges,
      collect-pending (Ranges.length l + 1) (into_iter l) (omega (arith, size)),
      size,
      numbers-Ascends l.ranges s,
      λ x. numbers-Among x l.ranges,
    )
