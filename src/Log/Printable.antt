-- ===== src/Log/Printable.antt =====
-- What `packet_name` of src/log.rs makes of any packet.
use raknet_shim.Prelude.{
  ℕ, ◌≤◌, ◌<◌, ◌≡◌, zero, suc, refl, Bool, true, false, ◌&&◌, List, [], ◌∷◌, ◌++◌, length,
  if◌then◌else◌, ◌>>=◌, ltb, leb, ◌==◌, ok, arith, All, Outcome,
}
use raknet_shim.Prelude.Text.{bytes_of}
use raknet_shim.Packet.{Packet, Reliability}
use raknet_shim.Log.{
  at, decimal, name_of, system_names, world_names, client_names, numbered, spaced, game_name,
  packet_name,
}

-- No control characters.
abbrev pub IsPrintable : ℕ → Type 0
IsPrintable c = (32 ≤ c) × (c < 127)

abbrev pub IsOctet : ℕ → Type 0
IsOctet b = b < 256

are_printable : List ℕ → Bool
are_printable [] = true
are_printable (c ∷ cs) = let rest = are_printable cs in leb 32 c && (ltb c 127 && rest)

abbrev pub AllPrintable : List ℕ → Type 0
AllPrintable cs = All IsPrintable cs

both : (a b : Bool) → (a && b) ≡ true → (a ≡ true) × (b ≡ true)
both a b e = ground arith

are_printable_lem : (cs : List ℕ) → are_printable cs ≡ true → All IsPrintable cs
unfolding are_printable
are_printable_lem [] e = tt
are_printable_lem (c ∷ cs) e = ground (arith, are_printable_lem cs)

names_printable : List (ℕ × List ℕ) → Bool
names_printable [] = true
names_printable ((k, name) ∷ names) = let rest = names_printable names in are_printable name && rest

if-AllPrintable :
    (b : Bool) (xs ys : List ℕ)
    → AllPrintable xs
    → AllPrintable ys
    → AllPrintable (if b then xs else ys)
if-AllPrintable true xs ys p q = p
if-AllPrintable false xs ys p q = q

append-AllPrintable : (xs ys : List ℕ) → AllPrintable xs → AllPrintable ys → AllPrintable (xs ++ ys)
append-AllPrintable [] ys p q = q
append-AllPrintable (x ∷ xs) ys (p, ps) q = (p, append-AllPrintable xs ys ps q)

name_of-AllPrintable :
    (names : List (ℕ × List ℕ)) (otherwise : List ℕ) (b : ℕ)
    → names_printable names ≡ true
    → AllPrintable otherwise
    → AllPrintable (name_of names otherwise b)
unfolding name_of names_printable
name_of-AllPrintable [] otherwise b e h = h
name_of-AllPrintable ((k, name) ∷ names) otherwise b e h =
    let (first, rest) = both (are_printable name) (names_printable names) e in
    if-AllPrintable (b == k) name (name_of names otherwise b) (are_printable_lem name first)
      (name_of-AllPrintable names otherwise b rest h)

decimal-AllPrintable : (n : ℕ) → IsOctet n → AllPrintable (decimal n)
unfolding decimal
decimal-AllPrintable n h = ground arith

numbered-AllPrintable : (kind id : ℕ) → IsOctet kind → IsOctet id → AllPrintable (numbered kind id)
unfolding numbered
numbered-AllPrintable kind id h k = append-AllPrintable (bytes_of "53-") _ (omega arith) (
    append-AllPrintable (decimal kind) _ (decimal-AllPrintable kind h)
      (append-AllPrintable (bytes_of "-0-") _ (omega arith) (decimal-AllPrintable id k)))

game_name-AllPrintable :
    (kind id : ℕ) → IsOctet kind → IsOctet id → AllPrintable (game_name kind id)
unfolding game_name names_printable are_printable
game_name-AllPrintable kind id h k =
    let plain = numbered-AllPrintable kind id h k in
    let spaced_too : AllPrintable (spaced kind id) = (omega arith, plain) in
    if-AllPrintable (kind == 0) _ _
      (name_of-AllPrintable ((0, bytes_of "Handshake") ∷ []) _ id refl plain)
      (if-AllPrintable (kind == 1) _ _
        (name_of-AllPrintable ((0, bytes_of "LoginRequest") ∷ []) _ id refl spaced_too)
        (if-AllPrintable (kind == 2) _ _
          (name_of-AllPrintable ((1, bytes_of "GeneralChatMessage") ∷ []) _ id refl spaced_too)
          (if-AllPrintable (kind == 4) _ _ (name_of-AllPrintable world_names _ id refl plain) (
            if-AllPrintable (kind == 5) _ _ (name_of-AllPrintable client_names _ id refl plain)
              plain))))

at-IsOctet :
    (bytes : List ℕ) (i : ℕ)
    → i < length bytes
    → All IsOctet bytes
    → (b : ℕ) × (at bytes i ≡ ok b) × IsOctet b
at-IsOctet [] i h octets = absurd (omega arith)
at-IsOctet (b ∷ bytes) zero h octets = (b, refl, octets.0)
at-IsOctet (b ∷ bytes) (suc i) h octets = at-IsOctet bytes i (omega arith) octets.1

-- A call that gives a name, with no control character in it.
abbrev pub Names : Outcome (List ℕ) → Type 0
Names r = (name : List ℕ) × (r ≡ ok name) × AllPrintable name

if-Names :
    (b : Bool) (r s : Outcome (List ℕ))
    → (b ≡ true → Names r)
    → Names s
    → Names (if b then r else s)
if-Names true r s p q = p refl
if-Names false r s p q = q

game-Names :
    (bytes : List ℕ)
    → 8 ≤ length bytes
    → All IsOctet bytes
    → Names (at bytes 1 >>= λ kind. at bytes 3 >>= λ message. ok (game_name kind message))
game-Names bytes h octets =
    let (kind, e, k) = at-IsOctet bytes 1 (omega arith) octets in
    let (message, f, m) = at-IsOctet bytes 3 (omega arith) octets in
    (game_name kind message, rw (e, f) refl, game_name-AllPrintable kind message k m)

bytes-Names :
    (r : Reliability) (bytes : List ℕ)
    → All IsOctet bytes
    → Names (packet_name (record { reliability = r; bytes = bytes }))
unfolding packet_name are_printable names_printable
bytes-Names r [] octets = (bytes_of "<Empty packet>", refl, omega arith)
bytes-Names r (b ∷ bs) octets =
    if-Names (length (b ∷ bs) == 0) _ _ (λ e. (_, refl, omega arith))
      (if-Names (b == 83) _ _
        (λ e.
          if-Names (leb 8 (length (b ∷ bs))) _ _ (λ long. game-Names (b ∷ bs) (ground arith) octets)
            (_, refl, are_printable_lem (bytes_of "LU packet too short!") refl))
        (
          _,
          refl,
          name_of-AllPrintable system_names (decimal b) b refl (decimal-AllPrintable b octets.0),
        ))

-- Every packet whose data are bytes gets a name: no index is out of bounds, and the name has no
-- control character in it, whatever the bytes are.
pub packet_name-Names : (p : Packet) → All IsOctet p.bytes → Names (packet_name p)
packet_name-Names p octets = bytes-Names p.reliability p.bytes octets
