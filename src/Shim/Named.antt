-- ===== src/Shim/Named.antt =====
-- The commands that `Shim::step` of src/main.rs collects: each for a shim that connects to the address
-- under which the command has it.
use raknet_shim.Prelude.{ℕ, ◌≡◌, refl, List, [], ◌∷◌, Outcome, ok, err, panic, stuck}
use raknet_shim.Prelude.Table.{Table}
use raknet_shim.Bits.{BitWrite, BitRead}
use raknet_shim.Strings.{Utf8}
use raknet_shim.TcpUdp as TcpUdpConn
use raknet_shim.Bridge.{SocketAddrs, UdpSocket, Sockets, Shorts, Bridge, ShimCommand}
use raknet_shim.Bridge.Receive as Receive
use raknet_shim.Bridge.Receive.{World, tcpudp_receive}
use raknet_shim.Bridge.Commands.{AllNamed, AllNamed-++}
use raknet_shim.Bridge.Receive.Commands.{tcpudp_receive-AllNamed}
use raknet_shim.Shim.{
  Left, raknet_receive, Retained, and_retain, Retained, and_retain, retain_or_drop, retain,
  receive_tcpudp, step,
}

and_retain-AllNamed :
    {A S T U O : Type 0}
    → (r s : Retained A S T U O) → AllNamed r.2
    → AllNamed s.2
    → AllNamed (and_retain r s).2
unfolding and_retain
and_retain-AllNamed (ok u, kept, cmds, w) (result, kept', cmds', w') n m = m
and_retain-AllNamed (err kind, kept, cmds, w) s n m = n
and_retain-AllNamed (panic, kept, cmds, w) s n m = n
and_retain-AllNamed (stuck, kept, cmds, w) s n m = n

module _ (W : Type 0) ⦃bw : BitWrite W⦄ {A S T U O : Type 0} ⦃addresses : SocketAddrs A⦄
    ⦃socket : UdpSocket A S⦄ where
  retain_or_drop-AllNamed :
      (a : A) (cmds : List (ShimCommand A S T U)) (r : Receive.Received A S T U O)
      → AllNamed cmds
      → ((new : List (ShimCommand A S T U)) → r.0 ≡ ok new → AllNamed new)
      → AllNamed (retain_or_drop W a cmds r).2
  unfolding retain_or_drop
  retain_or_drop-AllNamed a cmds (ok new, b, w) n m = AllNamed-++ cmds new n (m new refl)
  retain_or_drop-AllNamed a cmds (err kind, b, w) n m = n
  retain_or_drop-AllNamed a cmds (panic, b, w) n m = n
  retain_or_drop-AllNamed a cmds (stuck, b, w) n m = n

  module _ ⦃tcp : TcpUdpConn.Tcp T⦄ ⦃udp : TcpUdpConn.Udp U⦄ ⦃sockets : Sockets A S T U O⦄
      ⦃shorts : Shorts⦄ ⦃utf8 : Utf8⦄ where
    retain-AllNamed :
        (fuel : ℕ) (addrs : Table A A) (bridges : Table A (Bridge A T U))
        (cmds : List (ShimCommand A S T U)) (w : World S O)
        → AllNamed cmds
        → AllNamed (retain W fuel addrs bridges cmds w).2
    unfolding retain
    retain-AllNamed fuel addrs [] cmds w n = n
    retain-AllNamed fuel addrs ((a, b) ∷ bridges) cmds w n =
        let r = tcpudp_receive W fuel addrs b w in
        let here : Retained A S T U O = retain_or_drop W a cmds r in
        let named =
          retain_or_drop-AllNamed a cmds r n
            (λ new e. tcpudp_receive-AllNamed W fuel addrs b w new e) in
        let later = retain-AllNamed fuel addrs bridges here.2 here.3 named in
        and_retain-AllNamed here (retain W fuel addrs bridges here.2 here.3) named later

    receive_tcpudp-AllNamed :
        (fuel : ℕ) (addrs : Table A A) (cmds : List (ShimCommand A S T U))
        (r : Outcome (Unit {0}) × Left A S T U O)
        → AllNamed cmds
        → AllNamed (receive_tcpudp W fuel addrs cmds r).1
    unfolding receive_tcpudp
    receive_tcpudp-AllNamed fuel addrs cmds (ok u, l) n =
        retain-AllNamed fuel addrs l.shim.bridges cmds
          (record { buf = l.buf; socket = l.shim.raknet; os = l.os }) n
    receive_tcpudp-AllNamed fuel addrs cmds (err kind, l) n = n
    receive_tcpudp-AllNamed fuel addrs cmds (panic, l) n = n
    receive_tcpudp-AllNamed fuel addrs cmds (stuck, l) n = n

    pub step-AllNamed :
        (R : Type 0) ⦃br : BitRead R⦄
        → (fuel : ℕ) (addrs : Table A A) (cmds : List (ShimCommand A S T U)) (l : Left A S T U O)
        → AllNamed cmds
        → AllNamed (step W R fuel addrs cmds l).1
    unfolding step
    step-AllNamed R fuel addrs cmds l n =
        receive_tcpudp-AllNamed fuel addrs cmds (raknet_receive W R fuel l) n
