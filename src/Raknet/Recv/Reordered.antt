-- ===== src/Raknet/Recv/Reordered.antt =====
-- The parts of one split packet as they come in any order (src/raknet/recv.rs, `parts`).
use raknet_shim.Prelude.{
  ℕ, zero, suc, ◌<◌, ◌≡◌, ◌≢◌, refl, ap, ◌∙◌, true, false, Option, none, some, List, [], ◌∷◌, ◌++◌,
  length, replicate, set, get_elem?, get_elem?-set_ne, All, arith, lt→ltb, ok,
}
use mathlib.Core.List.{flatten}
use raknet_shim.Raknet.Recv.{Parts, put_part, is_ready, assembled}

-- Each part that has come is the one that was sent at its index.
abbrev pub Matches : Parts → List (List ℕ) → Type 0
Matches [] [] = Unit {0}
Matches (none ∷ parts) (c ∷ cs) = Matches parts cs
Matches (some bytes ∷ parts) (c ∷ cs) = (bytes ≡ c) × Matches parts cs
Matches _ _ = ⊥

-- How many parts have not come.
unfoldable pub missing : Parts → ℕ
missing [] = 0
missing (none ∷ parts) = suc (missing parts)
missing (some bytes ∷ parts) = missing parts

-- The parts with these indices have not come.
abbrev pub Awaited : Parts → List ℕ → Type 0
Awaited parts is = All (λ i. get_elem? parts i ≡ some none) is

abbrev pub Distinct : List ℕ → Type 0
Distinct [] = Unit {0}
Distinct (i ∷ is) = All (λ j. i ≢ j) is × Distinct is

Matches-set :
    (parts : Parts) (cs : List (List ℕ)) (i : ℕ) (c : List ℕ)
    → Matches parts cs
    → get_elem? cs i ≡ some c
    → Matches (set parts i (some c)) cs
Matches-set [] [] i c m e = m
Matches-set [] (d ∷ cs) i c m e = elim m [ ]
Matches-set (none ∷ parts) [] i c m e = elim m [ ]
Matches-set (some b ∷ parts) [] i c m e = elim m [ ]
Matches-set (none ∷ parts) (d ∷ cs) zero c m e = (cc, m)
Matches-set (some b ∷ parts) (d ∷ cs) zero c m e = (cc, m.1)
Matches-set (none ∷ parts) (d ∷ cs) (suc i) c m e = Matches-set parts cs i c m e
Matches-set (some b ∷ parts) (d ∷ cs) (suc i) c m e = (m.0, Matches-set parts cs i c m.1 e)

missing-set :
    (parts : Parts) (i : ℕ) (c : List ℕ)
    → get_elem? parts i ≡ some none
    → missing parts ≡ suc (missing (set parts i (some c)))
unfolding missing
missing-set [] i c e = cc
missing-set (none ∷ parts) zero c e = refl
missing-set (some b ∷ parts) zero c e = cc
missing-set (none ∷ parts) (suc i) c e = ap suc (missing-set parts i c e)
missing-set (some b ∷ parts) (suc i) c e = missing-set parts i c e

Awaited-set :
    (parts : Parts) (i : ℕ) (is : List ℕ) (v : Option (List ℕ))
    → All (λ j. i ≢ j) is
    → Awaited parts is
    → Awaited (set parts i v) is
Awaited-set parts i [] v d h = tt
Awaited-set parts i (j ∷ is) v d h =
    (get_elem?-set_ne parts v d.0 ∙ h.0, Awaited-set parts i is v d.1 h.1)

pub is_ready-missing : (parts : Parts) (n : ℕ) → missing parts ≡ suc n → is_ready parts ≡ false
unfolding missing is_ready
is_ready-missing [] n e = absurd (omega (arith, e))
is_ready-missing (none ∷ parts) n e = refl
is_ready-missing (some b ∷ parts) n e = is_ready-missing parts n e

pub is_ready_complete :
    (parts : Parts) (cs : List (List ℕ))
    → Matches parts cs
    → missing parts ≡ 0
    → (is_ready parts ≡ true) × (assembled parts ≡ flatten cs)
unfolding missing is_ready assembled flatten
is_ready_complete [] [] m e = (refl, refl)
is_ready_complete [] (c ∷ cs) m e = elim m [ ]
is_ready_complete (none ∷ parts) [] m e = elim m [ ]
is_ready_complete (some b ∷ parts) [] m e = elim m [ ]
is_ready_complete (none ∷ parts) (c ∷ cs) m e = absurd (omega (arith, e))
is_ready_complete (some b ∷ parts) (c ∷ cs) m e =
    let (ready, all) = is_ready_complete parts cs m.1 e in
    (ready, ap (λ x. x ++ assembled parts) m.0 ∙ ap (◌++◌ c) all)

pub Matches-none : (cs : List (List ℕ)) → Matches (replicate (length cs) none) cs
Matches-none [] = tt
Matches-none (c ∷ cs) = Matches-none cs

pub missing-none : (n : ℕ) → missing (replicate n none) ≡ n
unfolding missing
missing-none zero = refl
missing-none (suc n) = ap suc (missing-none n)

abbrev pub no_parts : ℕ → Parts
no_parts n = replicate n none

get_elem?-none : (n i : ℕ) → i < n → get_elem? (no_parts n) i ≡ some none
get_elem?-none zero i h = absurd (omega arith)
get_elem?-none (suc n) zero h = refl
get_elem?-none (suc n) (suc i) h = get_elem?-none n i (omega arith)

pub Awaited-none : (n : ℕ) (is : List ℕ) → All (λ i. i < n) is → Awaited (replicate n none) is
Awaited-none n [] h = tt
Awaited-none n (i ∷ is) h = (get_elem?-none n i h.0, Awaited-none n is h.1)

get_elem?-bound :
    {A : Type 0} (xs : List A) (i : ℕ) (x : A) → get_elem? xs i ≡ some x → i < length xs
get_elem?-bound [] i x e = cc
get_elem?-bound (y ∷ ys) zero x e = omega arith
get_elem?-bound (y ∷ ys) (suc i) x e = omega (arith, get_elem?-bound ys i x e)

-- A part that had not come is taken in.
pub put_part-Matches :
    (parts : Parts) (cs : List (List ℕ)) (i : ℕ) (is : List ℕ) (c : List ℕ)
    → Matches parts cs
    → get_elem? cs i ≡ some c
    → Awaited parts (i ∷ is)
    → Distinct (i ∷ is)
    → (parts' : Parts) × (put_part i c parts ≡ ok parts')
      × Matches parts' cs
      × Awaited parts' is
      × (missing parts ≡ suc (missing parts'))
unfolding put_part
put_part-Matches parts cs i is c m e h d = (
  set parts i (some c),
  rw (lt→ltb i (length parts) (get_elem?-bound parts i none h.0)) refl,
  Matches-set parts cs i c m e,
  Awaited-set parts i is (some c) d.0 h.1,
  missing-set parts i c h.0,
)
