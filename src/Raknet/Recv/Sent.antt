-- ===== src/Raknet/Recv/Sent.antt =====
-- The ordered packets that were sent, and those among the packets that src/raknet/recv.rs passes on.
use raknet_shim.Prelude.{
  ℕ, zero, suc, ◌+◌, ◌%◌, ◌^◌, ◌<◌, ◌≡◌, refl, ap, Bool, true, false, Option, none, some, List, [],
  ◌∷◌, ◌++◌, arith, Outcome, ok, wrapping_add, if◌then◌else◌,
}
use raknet_shim.Prelude.Map.{Map, lookup}
use raknet_shim.Packet.{Packet, Reliability}
use raknet_shim.Raknet.Packet.{RaknetPacket, ReliabilityData, reliable_ordered, to_packet}
use raknet_shim.Raknet.Recv.{Parts, reassemble}

-- `n` steps of the index.
unfoldable pub advance : ℕ → ℕ → ℕ
advance zero i = i
advance (suc n) i = advance n (wrapping_add i 1)

-- The `n` packets that were sent from the index `i` on.
unfoldable pub sent : (ℕ → Packet) → ℕ → ℕ → List Packet
sent src i zero = []
sent src i (suc n) = src i ∷ sent src (wrapping_add i 1) n

pub sent-append :
    (src : ℕ → Packet) (i m n : ℕ) → sent src i (m + n) ≡ sent src i m ++ sent src (advance m i) n
unfolding sent advance
sent-append src i zero n = let e : 0 + n ≡ n = omega arith in rw e
sent-append src i (suc m) n =
    let e : suc m + n ≡ suc (m + n) = omega arith in
    rw (e, sent) (ap (◌∷◌ (src i)) (sent-append src (wrapping_add i 1) m n))

pub advance-add : (m n i : ℕ) → advance (m + n) i ≡ advance n (advance m i)
unfolding advance
advance-add zero n i = let e : 0 + n ≡ n = omega arith in rw e
advance-add (suc m) n i =
    let e : suc m + n ≡ suc (m + n) = omega arith in
    rw (e, advance) (advance-add m n (wrapping_add i 1))

pub advance_lem : (n i : ℕ) → i < 2 ^ 32 → advance n i ≡ (i + n) % 2 ^ 32
unfolding advance
advance_lem zero i h = omega arith
advance_lem (suc n) i h = omega (arith, advance_lem n (wrapping_add i 1) (omega arith))

abbrev pub is_ordered : Packet → Bool
is_ordered p = elim p.reliability [ Reliability.reliable_ordered ↦ true | _ ↦ false ]

-- The ordered packets among those passed on.
unfoldable pub ordered : List Packet → List Packet
ordered [] = []
ordered (p ∷ ps) = if is_ordered p then p ∷ ordered ps else ordered ps

pub ordered-append : (xs ys : List Packet) → ordered (xs ++ ys) ≡ ordered xs ++ ordered ys
unfolding ordered
ordered-append [] ys = refl
ordered-append (x ∷ xs) ys = ground (arith, ordered-append xs ys)

module _ (src : ℕ → Packet) where
  -- Every queued packet was sent under the index at which it is queued.
  abbrev pub QueueFrom : Map Packet → Type 0
  QueueFrom queue = (k : ℕ) (p : Packet) → lookup k queue ≡ some p → p ≡ src k

  -- An ordered packet is the one that was sent under its index.
  abbrev pub CarriesAs : ReliabilityData → Packet → Type 0
  CarriesAs (reliable_ordered ord) p = p ≡ src ord
  CarriesAs _ p = Unit {0}

  abbrev pub Carries : RaknetPacket → Type 0
  Carries p = CarriesAs p.rel_data (to_packet p)

  -- The same of a whole run: each packet is judged by the data with which it is passed on, where it
  -- is passed on.
  abbrev pub CarriesJoined : RaknetPacket → Option (List ℕ) → Type 0
  CarriesJoined p none = Unit {0}
  CarriesJoined p (some bytes) = Carries (record p { bytes = bytes })

  abbrev pub CarriesResult :
      RaknetPacket → Outcome (Option (List ℕ) × Map Parts) → (Map Parts → Type 0) → Type 0
  CarriesResult p (ok (joined, queue)) later = CarriesJoined p joined × later queue
  CarriesResult p _ later = Unit {0}

  abbrev pub AllCarry : List RaknetPacket → Map Parts → Type 0
  AllCarry [] queue = Unit {0}
  AllCarry (p ∷ ps) queue = CarriesResult p (reassemble p queue) (AllCarry ps)
