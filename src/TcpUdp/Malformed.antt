-- ===== src/TcpUdp/Malformed.antt =====
-- Which datagrams end the program (`receive_udp` of src/tcpudp/mod.rs).
use raknet_shim.Prelude.{
  ◌≤◌, ℕ, zero, suc, ◌≡◌, ◌<◌, ◌↔◌, refl, ap, ◌∙◌, Bool, true, Bool-cases, inl, inr, List, [], ◌∷◌,
  length, take, drop, ltb, ltb→lt, lt→ltb, arith, Outcome, ok, err, panic, stuck, would_block,
  wrapping_sub, half_window, ◌>>=◌,
}
use raknet_shim.Packet.{Packet}
use raknet_shim.TcpUdp.{
  ReadResult, got, failed, Udp, Connection, from_le_bytes, read_into, slice, receive_sequenced,
  receive_by_id, receive_udp,
}
use raknet_shim.TcpUdp.Sequence.{Gives}
use raknet_shim.TcpUdp.Sequence.Receive.{receive_udp-failed, receive_udp-got}

-- The sequence number that `BUF` shows, and whether it is new.
abbrev pub is_new : List ℕ → Connection → Bool
is_new buf c = ltb (wrapping_sub (from_le_bytes (take 4 (drop 1 buf))) c.seq_num_recv) half_window

-- A datagram of so many bytes that stands in `BUF`, with what older ones left behind it: one of no
-- bytes that is taken for an unreliable packet, one of fewer than five that is taken for a sequenced
-- packet and shows a new number, or one that begins with neither 0 nor 1.
abbrev pub IsMalformed : ℕ → List ℕ → Connection → Type 0
IsMalformed len [] c = Unit {0}
IsMalformed len (zero ∷ bs) c = len < 1
IsMalformed len (suc zero ∷ bs) c = (len < 5) × (is_new (1 ∷ bs) c ≡ true)
IsMalformed len (suc (suc b) ∷ bs) c = Unit {0}

-- A call that panics exactly under `P`, and otherwise returns.
abbrev PanicsIf {ℓ} : {A : Type ℓ} → Type 0 → Outcome A → Type 0
PanicsIf P (ok a) = ¬ P
PanicsIf P panic = P
PanicsIf P _ = ⊥

PanicsIf-iff :
    {A : Type 0} (P Q : Type 0) (o : Outcome A) → (P → Q) → (Q → P) → PanicsIf P o → PanicsIf Q o
PanicsIf-iff P Q (ok a) to from h = λ q. h (from q)
PanicsIf-iff P Q panic to from h = to h
PanicsIf-iff P Q (err kind) to from h = h
PanicsIf-iff P Q stuck to from h = h

slice-PanicsIf :
    {A : Type 0} (start len : ℕ) (buf : List ℕ) (f : List ℕ → A)
    → PanicsIf (len < start) (slice start len buf >>= λ bytes. ok (f bytes))
unfolding slice
slice-PanicsIf start len buf f = elim (Bool-cases (ltb len start)) [
  | inl short ↦ rw (short, slice) (ltb→lt len start short)
  | inr long ↦ rw (long, slice) (λ short. ground (arith, lt→ltb len start short))
]

receive_by_id-PanicsIf :
    (len : ℕ) (buf : List ℕ) (c : Connection) (packets : List Packet)
    → PanicsIf (IsMalformed len buf c) (receive_by_id buf len buf c packets)
unfolding receive_by_id receive_sequenced
receive_by_id-PanicsIf len [] c packets = tt
receive_by_id-PanicsIf len (zero ∷ bs) c packets = slice-PanicsIf 1 len (0 ∷ bs) _
receive_by_id-PanicsIf len (suc (suc b) ∷ bs) c packets = tt
receive_by_id-PanicsIf len (suc zero ∷ bs) c packets = elim (Bool-cases (is_new (1 ∷ bs) c)) [
  | inl new ↦
      let cut = slice-PanicsIf 5 len (1 ∷ bs) _ in
      rw (new, receive_sequenced)
        (PanicsIf-iff (len < 5) ((len < 5) × (◌≡◌ {A = Bool} true true)) _ (λ short. (short, refl))
          (λ h. h.0) cut)
  | inr old ↦ rw (old, receive_sequenced) (λ h. cc)
]

receive_udp-panics :
    {V : Type 0} ⦃peer : Udp V⦄ (fuel : ℕ) (buf d : List ℕ) (c : Connection) (v v' : V)
    (packets : List Packet)
    → peer.recv (length buf) v ≡ (got d, v')
    → receive_by_id (read_into buf 0 d) (length d) (read_into buf 0 d) c packets ≡ panic
    → receive_udp (suc fuel) buf c v packets ≡ panic
unfolding receive_udp
receive_udp-panics {V} fuel buf d c v v' packets e bad =
    let result = ap (λ (r : ReadResult × V). r.0) e in rw (result, receive_udp, bad) refl

module _ {V : Type 0} ⦃peer : Udp V⦄ (pending : V → List (List ℕ))
    (gives : Gives peer pending) where
  received_iff :
      (fuel : ℕ) (buf d : List ℕ) (c : Connection) (v v' v'' : V) (packets : List Packet)
      (o : Outcome (Connection × List Packet))
      → peer.recv (length buf) v ≡ (got d, v')
      → peer.recv (length (read_into buf 0 d)) v' ≡ (failed would_block, v'')
      → receive_by_id (read_into buf 0 d) (length d) (read_into buf 0 d) c packets ≡ o
      → PanicsIf (IsMalformed (length d) (read_into buf 0 d) c) o
      → (receive_udp (suc (suc fuel)) buf c v packets ≡ panic)
        ↔ IsMalformed (length d) (read_into buf 0 d) c
  received_iff fuel buf d c v v' v'' packets (ok (c', packets')) one none e h =
      let run =
        receive_udp-got (suc fuel) buf d c c' v v' packets packets' one e
        ∙ receive_udp-failed fuel (read_into buf 0 d) c' v' v'' packets' none in
      (λ p. cc, λ bad. absurd (h bad))
  received_iff fuel buf d c v v' v'' packets panic one none e h =
      (λ p. h, λ bad. receive_udp-panics (suc fuel) buf d c v v' packets one e)
  received_iff fuel buf d c v v' v'' packets (err kind) one none e h = elim h [ ]
  received_iff fuel buf d c v v' v'' packets stuck one none e h = elim h [ ]

  -- A datagram that comes to `receive_udp` and is no longer than `BUF`, with no other behind it, makes
  -- it panic exactly where it is malformed, whatever state the connection is in and whatever stands in `BUF`.
  pub receive_udp-panics_iff :
      (fuel : ℕ) (buf d : List ℕ) (c : Connection) (v : V) (packets : List Packet)
      → pending v ≡ d ∷ []
      → length d ≤ length buf
      → (receive_udp (suc (suc fuel)) buf c v packets ≡ panic)
        ↔ IsMalformed (length d) (read_into buf 0 d) c
  receive_udp-panics_iff fuel buf d c v packets came fits =
      let (v', one, rest) = gives.recv_some (length buf) v d [] came fits in
      let (v'', none) = gives.recv_none _ v' rest in
      received_iff fuel buf d c v v' v'' packets _ one none refl
        (receive_by_id-PanicsIf (length d) (read_into buf 0 d) c packets)
