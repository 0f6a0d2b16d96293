-- ===== src/Prelude/Ends.antt =====
-- Calls whose loops do not run out of fuel.
use mathlib.Core.Path.{◌≡◌, subst}
use raknet_shim.Prelude.Defs.{Outcome, ok, err, panic, stuck, ◌>>=◌}

abbrev pub Ends : {A : Type 0} → Outcome A → Type 0
Ends stuck = ⊥
Ends _ = Unit {0}

pub Ends->>= :
    {A B : Type 0} (o : Outcome A) (f : A → Outcome B)
    → Ends o
    → ((a : A) → Ends (f a))
    → Ends (o >>= f)
Ends->>= (ok a) f h k = k a
Ends->>= (err e) f h k = tt
Ends->>= panic f h k = tt
Ends->>= stuck f h k = elim h [ ]

pub Ends-ne : {A : Type 0} (o : Outcome A) → Ends o → ¬ o ≡ stuck
Ends-ne o h e = subst Ends e h
