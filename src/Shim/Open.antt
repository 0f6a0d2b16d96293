-- ===== src/Shim/Open.antt =====
-- What `Shim::step` of src/main.rs does with the bridges of clients that have closed the connection.
use raknet_shim.Prelude.{ℕ, ◌≡◌, refl, List, [], ◌∷◌, ◌++◌, Outcome, ok, err, panic, stuck, All}
use raknet_shim.Prelude.Table.{Table}
use raknet_shim.Bits.{BitWrite, BitRead}
use raknet_shim.Strings.{Utf8}
use raknet_shim.TcpUdp as TcpUdpConn
use raknet_shim.Bridge.{SocketAddrs, UdpSocket, Sockets, Shorts, Bridge, ShimCommand}
use raknet_shim.Bridge.Receive as Receive
use raknet_shim.Bridge.Receive.{World, tcpudp_receive}
use raknet_shim.Bridge.Receive.Open.{IsOpen, tcpudp_receive-IsOpen}
use raknet_shim.Shim.{
  Left, raknet_receive, Retained, and_retain, retain_or_drop, retain, receive_tcpudp, step,
}

-- No client has closed its connection.
abbrev pub AllOpen : {A T U : Type 0} → Table A (Bridge A T U) → Type 0
AllOpen bridges = All (λ (a, b). IsOpen b) bridges

append-AllOpen :
    {A T U : Type 0}
    → (xs ys : Table A (Bridge A T U)) → AllOpen xs
    → AllOpen ys
    → AllOpen (xs ++ ys)
append-AllOpen [] ys h k = k
append-AllOpen (x ∷ xs) ys h k = (h.0, append-AllOpen xs ys h.1 k)

and_retain-AllOpen :
    {A S T U O : Type 0}
    → (r s : Retained A S T U O) → AllOpen r.1
    → AllOpen s.1
    → AllOpen (and_retain r s).1
unfolding and_retain
and_retain-AllOpen (ok u, kept, cmds, w) (result, kept', cmds', w') h k =
    append-AllOpen kept kept' h k
and_retain-AllOpen (err kind, kept, cmds, w) s h k = h
and_retain-AllOpen (panic, kept, cmds, w) s h k = h
and_retain-AllOpen (stuck, kept, cmds, w) s h k = h

module _ (W : Type 0) ⦃bw : BitWrite W⦄ {A S T U O : Type 0} ⦃addresses : SocketAddrs A⦄
    ⦃socket : UdpSocket A S⦄ where
  retain_or_drop-AllOpen :
      (a : A) (cmds : List (ShimCommand A S T U)) (r : Receive.Received A S T U O)
      → ((new : List (ShimCommand A S T U)) → r.0 ≡ ok new → IsOpen r.1)
      → AllOpen (retain_or_drop W a cmds r).1
  unfolding retain_or_drop
  retain_or_drop-AllOpen a cmds (ok new, b, w) h = (h new refl, tt)
  retain_or_drop-AllOpen a cmds (err kind, b, w) h = tt
  retain_or_drop-AllOpen a cmds (panic, b, w) h = tt
  retain_or_drop-AllOpen a cmds (stuck, b, w) h = tt

  module _ ⦃tcp : TcpUdpConn.Tcp T⦄ ⦃udp : TcpUdpConn.Udp U⦄ ⦃sockets : Sockets A S T U O⦄
      ⦃shorts : Shorts⦄ ⦃utf8 : Utf8⦄ where
    retain-AllOpen :
        (fuel : ℕ) (addrs : Table A A) (bridges : Table A (Bridge A T U))
        (cmds : List (ShimCommand A S T U)) (w : World S O)
        → AllOpen (retain W fuel addrs bridges cmds w).1
    unfolding retain
    retain-AllOpen fuel addrs [] cmds w = tt
    retain-AllOpen fuel addrs ((a, b) ∷ bridges) cmds w =
        let r = tcpudp_receive W fuel addrs b w in
        let here : Retained A S T U O = retain_or_drop W a cmds r in
        and_retain-AllOpen here (retain W fuel addrs bridges here.2 here.3)
          (retain_or_drop-AllOpen a cmds r (λ new e. tcpudp_receive-IsOpen W fuel addrs b w new e))
          (retain-AllOpen fuel addrs bridges here.2 here.3)

    receive_tcpudp-AllOpen :
        (fuel : ℕ) (addrs : Table A A) (cmds : List (ShimCommand A S T U))
        (r : Outcome (Unit {0}) × Left A S T U O)
        → (receive_tcpudp W fuel addrs cmds r).0 ≡ ok tt
        → AllOpen (receive_tcpudp W fuel addrs cmds r).2.shim.bridges
    unfolding receive_tcpudp
    receive_tcpudp-AllOpen fuel addrs cmds (ok u, l) e =
        retain-AllOpen fuel addrs l.shim.bridges cmds
          (record { buf = l.buf; socket = l.shim.raknet; os = l.os })
    receive_tcpudp-AllOpen fuel addrs cmds (err kind, l) e = cc
    receive_tcpudp-AllOpen fuel addrs cmds (panic, l) e = cc
    receive_tcpudp-AllOpen fuel addrs cmds (stuck, l) e = cc

    -- When a step of a shim returns, no bridge is left whose client's connection is closed, whatever
    -- bridges there were before, whatever came in, and whether the connection was closed before the
    -- step or in it.
    pub step-AllOpen :
        (R : Type 0) ⦃br : BitRead R⦄
        → (fuel : ℕ) (addrs : Table A A) (cmds : List (ShimCommand A S T U)) (l : Left A S T U O)
        → (step W R fuel addrs cmds l).0 ≡ ok tt
        → AllOpen (step W R fuel addrs cmds l).2.shim.bridges
    unfolding step
    step-AllOpen R fuel addrs cmds l e =
        receive_tcpudp-AllOpen fuel addrs cmds (raknet_receive W R fuel l) e
