-- ===== src/TcpUdp/Sequence/Receive.antt =====
-- The receiving side of sequenced packets (`receive_udp` of src/tcpudp/mod.rs).
use raknet_shim.Prelude.{
  ℕ, zero, suc, ◌+◌, ◌<◌, ◌≤◌, ◌≡◌, refl, sym, ap, ◌∙◌, false, Bool-cases, inl, inr, List, [], ◌∷◌,
  ◌++◌, append_assoc, append-nil, map, length, length-append, take, drop, take-append, drop-append,
  ltb, if◌then◌else◌, All, arith, ok, would_block, wrapping_add, wrapping_sub, half_window,
}
use raknet_shim.Prelude.Newest.{number, newest, most, next_number, newer_lem}
use raknet_shim.Packet.{Packet, unreliable, unreliable_sequenced}
use raknet_shim.TcpUdp.{
  Udp, ReadResult, got, failed, Connection, le_bytes, from_le_bytes, read_into, slice,
  receive_sequenced, receive_by_id, receive_udp, Ended,
}
use raknet_shim.TcpUdp.Transfer.{from_le_bytes-le_bytes, length-le_bytes}
use raknet_shim.Raknet.Send.{max_packet_size}
use raknet_shim.TcpUdp.Framing.{length-read_into}
use raknet_shim.TcpUdp.Sequence.{FitsBuf, datagram-fits, sequenced, datagram, Gives, waiting}

le→ltb : (a b : ℕ) → b ≤ a → ltb a b ≡ false
le→ltb a b h = ground arith

receive_sequenced_lem :
    (len : ℕ) (buf : List ℕ) (c : Connection) (packets : List Packet) (seq : ℕ) (bytes : List ℕ)
    → from_le_bytes (take 4 (drop 1 buf)) ≡ seq
    → slice 5 len buf ≡ ok bytes
    → receive_sequenced len buf c packets ≡ (
        if ltb (wrapping_sub seq c.seq_num_recv) half_window
        then ok (
          record c { seq_num_recv = wrapping_add seq 1 },
          packets ++ (record { reliability = unreliable_sequenced; bytes = bytes } ∷ []),
        )
        else ok (c, packets))
unfolding receive_sequenced
receive_sequenced_lem len buf c packets seq bytes num cut = rw (num, cut) refl

-- A datagram that has come, in a buffer with something behind it.
module _ (base : ℕ) (src : ℕ → List ℕ) (k : ℕ) (behind : List ℕ) where
  abbrev landed : List ℕ
  landed = datagram base src k ++ behind

  abbrev size : ℕ
  size = length (datagram base src k)

  number-read : from_le_bytes (take 4 (drop 1 landed)) ≡ number base k
  unfolding datagram
  number-read =
      let four = length-le_bytes 4 (number base k) in
      ap from_le_bytes (
        ap (take 4) (append_assoc (le_bytes 4 (number base k)) (src k) behind)
        ∙ take-append 4 (le_bytes 4 (number base k)) (src k ++ behind) four)
      ∙ from_le_bytes-le_bytes 4 (number base k) (omega arith)

  bytes-read : slice 5 size landed ≡ ok (src k)
  unfolding datagram slice
  bytes-read =
      let four = length-le_bytes 4 (number base k) in
      let long : ltb (suc (length (le_bytes 4 (number base k) ++ src k))) 5 ≡ false =
        le→ltb _ _ (omega (arith, four, length-append (le_bytes 4 (number base k)) (src k))) in
      rw
        (
          long,
          take-append (length (le_bytes 4 (number base k) ++ src k))
              (le_bytes 4 (number base k) ++ src k) behind refl,
          drop-append 4 (le_bytes 4 (number base k)) (src k) four,
        )
        refl

  receive_by_id-datagram :
      (next : ℕ) (c : Connection) (packets : List Packet)
      → k < most
      → next ≤ most
      → c.seq_num_recv ≡ number base next
      → receive_by_id landed size landed c packets ≡ (
          if ltb k next
          then ok (c, packets)
          else ok
              (record c { seq_num_recv = number base (k + 1) }, packets ++ (sequenced src k ∷ [])))
  unfolding receive_by_id receive_sequenced datagram
  receive_by_id-datagram next c packets h j e =
      let newer =
        ap (λ (x : ℕ). ltb (wrapping_sub (number base k) x) half_window) e
        ∙ newer_lem base k next h j in
      let taken =
        receive_sequenced_lem size landed c packets (number base k) (src k) number-read
          bytes-read in
      elim (Bool-cases (ltb k next)) [
        | inl old ↦ taken ∙ rw (newer, old) refl
        | inr new ↦ taken ∙ rw (newer, new, next_number base k) refl
      ]

module _ {V : Type 0} ⦃peer : Udp V⦄ where
  -- A round of the loop.
  pub receive_udp-failed :
      (fuel : ℕ) (buf : List ℕ) (c : Connection) (v v' : V) (packets : List Packet)
      → peer.recv (length buf) v ≡ (failed would_block, v')
      → receive_udp (suc fuel) buf c v packets ≡ ok (would_block, (buf, c, v', packets))
  unfolding receive_udp
  receive_udp-failed fuel buf c v v' packets e =
      let result = ap (λ (r : ReadResult × V). r.0) e in
      let left = ap (λ (r : ReadResult × V). r.1) e in rw (result, left, receive_udp) refl

  pub receive_udp-got :
      (fuel : ℕ) (buf d : List ℕ) (c c' : Connection) (v v' : V) (packets packets' : List Packet)
      → peer.recv (length buf) v ≡ (got d, v')
      → receive_by_id (read_into buf 0 d) (length d) (read_into buf 0 d) c packets
        ≡ ok (c', packets')
      → receive_udp (suc fuel) buf c v packets ≡ receive_udp fuel (read_into buf 0 d) c' v' packets'
  unfolding receive_udp
  receive_udp-got fuel buf d c c' v v' packets packets' e taken =
      let result = ap (λ (r : ReadResult × V). r.0) e in
      let left = ap (λ (r : ReadResult × V). r.1) e in rw (result, left, receive_udp, taken) refl

-- What comes: an unreliable packet, or the sequenced one at a position in the order of sending.
pub data Arrival : Type 0 where
  single : List ℕ → Arrival
  update : ℕ → Arrival

module _ (base : ℕ) (src : ℕ → List ℕ) where
  -- Its datagram.
  unfoldable pub wire : Arrival → List ℕ
  wire (single bytes) = 0 ∷ bytes
  wire (update k) = datagram base src k

  -- It is no longer than `BUF`, and so few are sent that an old number is not taken for a new one.
  abbrev pub Expected : Arrival → Type 0
  Expected (single bytes) = 1 + length bytes ≤ max_packet_size
  Expected (update k) = (k < most) × FitsBuf src k

  -- The unreliable packets, and the sequenced ones that are newer than all before them.
  unfoldable pub passed : ℕ → List Arrival → List Packet
  passed next [] = []
  passed next (single bytes ∷ xs) =
      record { reliability = unreliable; bytes = bytes } ∷ passed next xs
  passed next (update k ∷ xs) =
      let rest = passed (if ltb k next then next else k + 1) xs in
      if ltb k next then rest else sequenced src k ∷ rest

  wire-fits : (x : Arrival) → Expected x → length (wire x) ≤ max_packet_size
  unfolding wire
  wire-fits (single bytes) h = omega (arith, h)
  wire-fits (update k) h = datagram-fits base src k h.1

  -- What a datagram changes: what it adds, and the position that is expected next.
  abbrev added : ℕ → Arrival → List Packet
  added next (single bytes) = record { reliability = unreliable; bytes = bytes } ∷ []
  added next (update k) = if ltb k next then [] else sequenced src k ∷ []

  abbrev after : ℕ → Arrival → ℕ
  after next (single bytes) = next
  after next (update k) = if ltb k next then next else k + 1

  after-le : (next : ℕ) (x : Arrival) → next ≤ most → Expected x → after next x ≤ most
  after-le next (single bytes) low h = low
  after-le next (update k) low h = ground arith

  passed-added :
      (next : ℕ) (x : Arrival) (xs : List Arrival)
      → passed next (x ∷ xs) ≡ added next x ++ passed (after next x) xs
  unfolding passed
  passed-added next (single bytes) xs = refl
  passed-added next (update k) xs = elim (Bool-cases (ltb k next)) [
    | inl old ↦ rw (old, passed) refl
    | inr new ↦ rw (new, passed) refl
  ]

  receive_by_id-wire :
      (x : Arrival) (behind : List ℕ) (next : ℕ) (c : Connection) (packets : List Packet)
      → Expected x
      → next ≤ most
      → c.seq_num_recv ≡ number base next
      → receive_by_id (wire x ++ behind) (length (wire x)) (wire x ++ behind) c packets
        ≡ ok (waiting c (number base (after next x)), packets ++ added next x)
  unfolding wire receive_by_id slice
  receive_by_id-wire (single bytes) behind next c packets h low e =
      rw (le→ltb (suc (length bytes)) 1 (omega arith), take-append (length bytes) bytes behind refl)
        (ap
          (λ (n : ℕ).
            ok (waiting c n, packets ++ (record { reliability = unreliable; bytes = bytes } ∷ [])))
          e)
  receive_by_id-wire (update k) behind next c packets h low e =
      let taken = receive_by_id-datagram base src k behind next c packets h.0 low e in
      elim (Bool-cases (ltb k next)) [
        | inl old ↦
            taken
            ∙ rw old (
                ap (λ (n : ℕ). ok (waiting c n, packets)) e
                ∙ ap (λ ps. ok (waiting c (number base next), ps)) (sym (append-nil packets)))
        | inr new ↦ taken ∙ rw new refl
      ]

module _ {V : Type 0} ⦃peer : Udp V⦄ (pending : V → List (List ℕ)) (gives : Gives peer pending)
    (base : ℕ) (src : ℕ → List ℕ) where
  -- How `receive_udp` ends: with what was to be passed on, and a position that is expected next.
  abbrev pub Passes :
      Connection
      → List Packet
      → Ended (List ℕ × Connection × V × List Packet)
      → List Packet
      → Type 0
  Passes c packets o new =
      (buf : List ℕ) × (n : ℕ) × (v : V) × (o
        ≡ ok (would_block, (buf, waiting c (number base n), v, packets ++ new)))
      × (n ≤ most)
      × (length buf ≡ max_packet_size)

  pub receive_udp-passed :
      (xs : List Arrival) (fuel next : ℕ) (buf : List ℕ) (c : Connection) (v : V)
      (packets : List Packet)
      → All (Expected base src) xs
      → next ≤ most
      → c.seq_num_recv ≡ number base next
      → length buf ≡ max_packet_size
      → pending v ≡ map (wire base src) xs
      → length xs < fuel
      → Passes c packets (receive_udp fuel buf c v packets) (passed base src next xs)
  unfolding passed
  receive_udp-passed xs zero next buf c v packets h low e full came enough = absurd (omega arith)
  receive_udp-passed [] (suc fuel) next buf c v packets h low e full came enough =
      let (v', none) = gives.recv_none (length buf) v came in
      (
        buf,
        next,
        v',
        receive_udp-failed fuel buf c v v' packets none
            ∙ ap (λ (n : ℕ). ok (would_block, (buf, waiting c n, v', packets))) e
            ∙ ap (λ ps. ok (would_block, (buf, waiting c (number base next), v', ps)))
                (sym (append-nil packets)),
        low,
        full,
      )
  receive_udp-passed (x ∷ xs) (suc fuel) next buf c v packets h low e full came enough =
      let d = wire base src x in
      let fits = wire-fits base src x h.0 in
      let (v₁, one, rest) =
        gives.recv_some (length buf) v d (map (wire base src) xs) came
          (omega (arith, fits, full)) in
      let behind = drop (0 + length d) buf in
      let c₁ = waiting c (number base (after base src next x)) in
      let packets₁ = packets ++ added base src next x in
      let taken = receive_by_id-wire base src x behind next c packets h.0 low e in
      let (buf', n, v', later, low', full') =
        receive_udp-passed xs fuel (after base src next x) (d ++ behind) c₁ v₁ packets₁ h.1
          (after-le base src next x low h.0) refl
          (length-read_into buf d 0 (omega (arith, fits, full)) ∙ full) rest (omega arith) in
      (
        buf',
        n,
        v',
        receive_udp-got fuel buf d c c₁ v v₁ packets packets₁ one taken
            ∙ later
            ∙ ap (λ ps. ok (would_block, (buf', waiting c (number base n), v', ps)))
                (append_assoc packets (added base src next x) _
                  ∙ ap (λ ps. packets ++ ps) (sym (passed-added base src next x xs))),
        low',
        full',
      )

-- Where only sequenced ones come.
pub passed-newest :
    (base : ℕ) (src : ℕ → List ℕ) (next : ℕ) (ks : List ℕ)
    → passed base src next (map update ks) ≡ map (sequenced src) (newest next ks)
unfolding passed newest
passed-newest base src next [] = refl
passed-newest base src next (k ∷ ks) = elim (Bool-cases (ltb k next)) [
  | inl old ↦ rw (old, passed, newest) (passed-newest base src next ks)
  | inr new ↦
      rw (new, passed, newest) (ap (λ ps. sequenced src k ∷ ps) (passed-newest base src (k + 1) ks))
]
