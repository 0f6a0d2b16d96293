-- ===== src/Prelude/Defs.antt =====
-- What a Rust call can do: return `Ok`, return `Err` of an `io::ErrorKind`, or panic.
use mathlib.Core.Path.{◌≡◌, refl}

-- The kinds of `io::Error` that the program makes or tells apart; `other` stands for the rest.
pub data ErrorKind : Type 0 where
  would_block unexpected_eof invalid_data connection_aborted connection_reset : ErrorKind
  connection_refused other : ErrorKind

-- `stuck` is no behaviour of the program: a loop of the model ran out of fuel.
pub data Outcome {ℓ} (A : Type ℓ) : Type ℓ where
  ok : A → Outcome A
  err : ErrorKind → Outcome A
  panic : Outcome A
  stuck : Outcome A

-- The `?` operator: an error returns early, and a panic unwinds.
infixl 5 ◌>>=◌
abbrev pub ◌>>=◌ {ℓ κ} : {A : Type ℓ} {B : Type κ} → Outcome A → (A → Outcome B) → Outcome B
ok a >>= f = f a
err e >>= f = err e
panic >>= f = panic
stuck >>= f = stuck

infixl 5 ◌>>◌
abbrev pub ◌>>◌ {ℓ κ} : {A : Type ℓ} {B : Type κ} → Outcome A → Outcome B → Outcome B
m >> k = m >>= λ _. k

-- Where `?` let a call go on, there was a value to go on with.
pub returned {ℓ κ} :
    {A : Type ℓ} {B : Type κ} {b : B} (r : Outcome A) (go_on : A → Outcome B)
    → (r >>= go_on) ≡ ok b
    → (a : A) × (go_on a ≡ ok b) × (r ≡ ok a)
returned stuck go_on e = cc
returned panic go_on e = cc
returned (err kind) go_on e = cc
returned (ok a) go_on e = (a, e, refl)

-- Two calls behind a call are one call behind it.
pub bind_parts {ℓ κ μ} :
    {A : Type ℓ} {B : Type κ} {C : Type μ} (o : Outcome A) (f : A → Outcome C) (g : A → Outcome B)
    (h : B → Outcome C)
    → ((a : A) → f a ≡ (g a >>= h))
    → (o >>= f) ≡ ((o >>= g) >>= h)
bind_parts (ok a) f g h e = e a
bind_parts (err k) f g h e = refl
bind_parts panic f g h e = refl
bind_parts stuck f g h e = refl
