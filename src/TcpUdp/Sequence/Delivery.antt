-- ===== src/TcpUdp/Sequence/Delivery.antt =====
-- `send` at one end and `receive_udp` at the other (src/tcpudp/mod.rs), over a network that may lose,
-- repeat and reorder the datagrams.
use raknet_shim.Prelude.{
  sym, ℕ, zero, suc, ◌+◌, ◌<◌, ◌≤◌, ◌≡◌, refl, ap, ◌∙◌, List, [], ◌∷◌, ◌++◌, map, length,
  length-map, get_or, All, arith, ok, would_block, IsU32,
}
use raknet_shim.Prelude.Newest.{number, newest, most, Ascending, newest-Ascending}
use raknet_shim.TcpUdp.{Tcp, Udp, Connection, send, receive_udp}
use raknet_shim.TcpUdp.Sequence.{
  max_packet_size, FitsBuf, sequenced, range, datagram, SendsAll, Gives, counted, waiting,
  send-datagrams,
}
use raknet_shim.TcpUdp.Sequence.Receive.{update, wire, Expected, passed-newest, receive_udp-passed}

-- What the network makes of the datagrams: those at some positions, in some order.
abbrev pub picked : List ℕ → List (List ℕ) → List (List ℕ)
picked ks ds = map (λ k. get_or ds k []) ks

length-range : (n i : ℕ) → length (range i n) ≡ n
unfolding range
length-range zero i = refl
length-range (suc n) i = ap suc (length-range n (i + 1))

get_or-range : (f : ℕ → List ℕ) (n i k : ℕ) → k < n → get_or (map f (range i n)) k [] ≡ f (i + k)
unfolding range
get_or-range f zero i k h = absurd (omega arith)
get_or-range f (suc n) i zero h = let e : i ≡ i + 0 = omega arith in ap f e
get_or-range f (suc n) i (suc k) h =
    let e : i + 1 + k ≡ i + suc k = omega arith in get_or-range f n (i + 1) k (omega arith) ∙ ap f e

picked-range :
    (f : ℕ → List ℕ) (n : ℕ) (ks : List ℕ)
    → All (λ k. k < n) ks
    → picked ks (map f (range 0 n)) ≡ map f ks
picked-range f n [] h = refl
picked-range f n (k ∷ ks) h =
    let e : 0 + k ≡ k = omega arith in
    λ i. (get_or-range f n 0 k h.0 ∙ ap f e) i ∷ picked-range f n ks h.1 i

-- Datagrams of sequenced packets, as what comes.
wire-updates :
    (base : ℕ) (src : ℕ → List ℕ) (ks : List ℕ)
    → map (wire base src) (map update ks) ≡ map (datagram base src) ks
unfolding wire
wire-updates base src [] = refl
wire-updates base src (k ∷ ks) = ap (λ t. datagram base src k ∷ t) (wire-updates base src ks)

updates-Expected :
    (base : ℕ) (src : ℕ → List ℕ) (n : ℕ) (ks : List ℕ)
    → n ≤ most
    → ((k : ℕ) → k < n → FitsBuf src k)
    → All (λ k. k < n) ks
    → All (Expected base src) (map update ks)
updates-Expected base src n [] few fits h = tt
updates-Expected base src n (k ∷ ks) few fits h =
    ((omega (arith, h.0), fits k h.0), updates-Expected base src n ks few fits h.1)

module _ {T U V : Type 0} ⦃tcp : Tcp T⦄ ⦃udp : Udp U⦄ (sent : U → List (List ℕ))
    (sends : SendsAll udp sent) ⦃peer : Udp V⦄ (pending : V → List (List ℕ))
    (gives : Gives peer pending) where
  -- Let fewer than 2 ^ 31 sequenced packets be sent in one call, each of which fits `BUF` with its header
  -- of five bytes, over a socket that sends every datagram that fits `BUF`. Then the call succeeds and sends one datagram for each. Let the network lose, repeat and
  -- reorder them in any way, and let a receiver whose `BUF` has its size and whose expected number is the one
  -- that the sender began with read them, with a round for each and one more. It ends with `WouldBlock`, and it has received
  -- exactly those packets that are newer than all that came before them, in the order in which they
  -- came, and so in the order in which they were sent, and none twice.
  pub receive_udp-send :
      (src : ℕ → List ℕ) (n : ℕ) (c : Connection) (t : T) (u : U)
      → n ≤ most
      → IsU32 c.seq_num_send
      → ((k : ℕ) → k < n → FitsBuf src k)
      → (c' : Connection) × (u' : U) × (ds : List (List ℕ)) × (send
            (map (sequenced src) (range 0 n))
            c
            t
            u
          ≡ ok (c', t, u'))
        × (sent u' ≡ sent u ++ ds)
        × (length ds ≡ n)
        × ((ks : List ℕ) (fuel : ℕ) (buf : List ℕ) (d : Connection) (v : V)
            → All (λ k. k < n) ks
            → d.seq_num_recv ≡ c.seq_num_send
            → length buf ≡ max_packet_size
            → pending v ≡ picked ks ds
            → length ks < fuel
            → (buf' : List ℕ) × (d' : Connection) × (v' : V) × (receive_udp fuel buf d v []
                ≡ ok (would_block, (buf', d', v', map (sequenced src) (newest 0 ks))))
              × Ascending 0 (newest 0 ks))
  receive_udp-send src n c t u few small fits =
      let base = c.seq_num_send in
      let (u', e, wrote) =
        send-datagrams base src sent sends n 0 c t u (omega (arith, small))
          (λ k h. fits k (omega arith)) in
      (
        counted c (number base (0 + n)),
        u',
        map (datagram base src) (range 0 n),
        e,
        wrote,
        length-map (range 0 n) (datagram base src) ∙ length-range n 0,
        λ ks fuel buf d v all same full came enough.
            let (buf', m, v', r, _, _) =
              receive_udp-passed pending gives base src (map update ks) fuel 0 buf d v []
                (updates-Expected base src n ks few fits all) (omega arith)
                (omega (arith, same, small)) full
                (came ∙ picked-range (datagram base src) n ks all ∙ sym (wire-updates base src ks))
                (omega (arith, length-map ks update, enough)) in
            (
              buf',
              waiting d (number base m),
              v',
              r
                  ∙ ap (λ ps. ok (would_block, (buf', waiting d (number base m), v', ps)))
                      (passed-newest base src 0 ks),
              newest-Ascending 0 ks,
            ),
      )
