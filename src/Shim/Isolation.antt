-- ===== src/Shim/Isolation.antt =====
-- One datagram in `Shim::raknet_receive` of src/main.rs, and the bridges of the other clients.
use raknet_shim.Prelude.{
  ℕ, ◌≡◌, ◌≢◌, refl, sym, inl, inr, false, Bool-cases, Option-cases, Outcome, ok, err, panic, stuck,
  take, arith,
}
use raknet_shim.Prelude.Table.{Eq, Table, EqLaws, get, insert, remove, get-insert, get-remove}
use raknet_shim.Bits.{BitWrite, BitRead}
use raknet_shim.TcpUdp as TcpUdpConn
use raknet_shim.Bridge.{SocketAddrs, UdpSocket, Sockets, Bridge}
use raknet_shim.Bridge.Receive as Receive
use raknet_shim.Shim.{
  Left, with_socket, respond, answer, create_bridge, receive_unknown, keep_or_remove,
  receive_datagram,
}

distinct :
    {K : Type 0} {eq : Eq K} (eq_laws : EqLaws eq) (k source : K) (other : k ≢ source)
    → eq.same source k ≡ false
distinct {eq} eq_laws k source other = elim (Bool-cases (eq.same source k)) [
  | inl same ↦ absurd (other (sym ((eq_laws.same_iff source k).0 same)))
  | inr different ↦ different
]

module _ {K V : Type 0} ⦃eq : Eq K⦄ (eq_laws : EqLaws eq) (k source : K) (other : k ≢ source) where
  get-insert_other : (v : V) (t : Table K V) → get k (insert source v t) ≡ get k t
  get-insert_other v t = rw (distinct eq_laws k source other) at (get-insert eq_laws source k v t)

  get-remove_other : (t : Table K V) → get k (remove source t) ≡ get k t
  get-remove_other t = rw (distinct eq_laws k source other) at (get-remove eq_laws source k t)

module _ {A S T U O : Type 0} ⦃addresses : SocketAddrs A⦄ ⦃socket : UdpSocket A S⦄
    (eq_laws : EqLaws addresses.eq) (k source : A) (other : k ≢ source) where
  answer_other :
      (l : Left A S T U O) (made : Outcome (Bridge A T U))
      → get ⦃eq = addresses.eq⦄ k (answer source l made).1.shim.bridges
        ≡ get ⦃eq = addresses.eq⦄ k l.shim.bridges
  unfolding answer respond
  answer_other l (ok b) =
      get-insert_other ⦃eq = addresses.eq⦄ eq_laws k source other b l.shim.bridges
  answer_other l (err kind) = refl
  answer_other l panic = refl
  answer_other l stuck = refl

  module _ (W : Type 0) ⦃bw : BitWrite W⦄ where
    receive_unknown_other :
        ⦃sockets : Sockets A S T U O⦄
        → (n : ℕ) (l : Left A S T U O)
        → get ⦃eq = addresses.eq⦄ k (receive_unknown W n source l).1.shim.bridges
          ≡ get ⦃eq = addresses.eq⦄ k l.shim.bridges
    unfolding receive_unknown
    receive_unknown_other n l =
        let (made, s, os) = create_bridge W source l.shim l.os in
        ground (arith, answer_other (with_socket s (record l { os = os })) made)

    keep_or_remove_other :
        (l : Left A S T U O) (r : Outcome (Unit {0}) × Bridge A T U)
        → get ⦃eq = addresses.eq⦄ k (keep_or_remove W source l r).1.shim.bridges
          ≡ get ⦃eq = addresses.eq⦄ k l.shim.bridges
    unfolding keep_or_remove
    keep_or_remove_other l (ok u, b) =
        get-insert_other ⦃eq = addresses.eq⦄ eq_laws k source other b l.shim.bridges
    keep_or_remove_other l (err kind, b) =
        get-remove_other ⦃eq = addresses.eq⦄ eq_laws k source other l.shim.bridges
    keep_or_remove_other l (panic, b) = refl
    keep_or_remove_other l (stuck, b) = refl

    -- A datagram from one address, whatever its bytes are and however its handling ends, leaves the
    -- bridges of all other addresses as they were: none is added, removed or changed.
    pub receive_datagram_other :
        (R : Type 0) ⦃br : BitRead R⦄ ⦃tcp : TcpUdpConn.Tcp T⦄ ⦃udp : TcpUdpConn.Udp U⦄
        ⦃sockets : Sockets A S T U O⦄
        → (n : ℕ) (l : Left A S T U O)
        → get ⦃eq = addresses.eq⦄ k (receive_datagram W R n source l).1.shim.bridges
          ≡ get ⦃eq = addresses.eq⦄ k l.shim.bridges
    unfolding receive_datagram
    receive_datagram_other R n l =
        elim (Option-cases (get ⦃eq = addresses.eq⦄ source l.shim.bridges)) [
          | inl none_known ↦ rw (none_known, receive_datagram) (receive_unknown_other n l)
          | inr (b, known) ↦
              rw (known, receive_datagram)
                (keep_or_remove_other l (Receive.raknet_receive R (take n l.buf) b))
        ]
