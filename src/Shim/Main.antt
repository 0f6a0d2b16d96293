-- ===== src/Shim/Main.antt =====
-- src/main.rs: the main loop, over the shims that run and the table of their addresses.
pub mod Served
pub mod Start
mod Tests
use raknet_shim.Prelude.{
  ℕ, zero, suc, List, [], ◌∷◌, ◌++◌, Outcome, ok, err, panic, stuck, replicate,
}
use raknet_shim.Prelude as P
use raknet_shim.Prelude.Io.{Io, lift, ◌>>=◌}
use raknet_shim.Prelude.Table.{Table, insert}
use raknet_shim.Prelude.Text.{bytes_of}
use raknet_shim.Bits.{BitWrite, BitRead}
use raknet_shim.Strings.{Utf8}
use raknet_shim.Raknet.Send.{max_packet_size}
use raknet_shim.TcpUdp as TcpUdpConn
use raknet_shim.Bridge.{
  SocketAddrs, UdpSocket, Sockets, Shorts, Shim, ShimCommand, new_shim, new_listening, local_addr,
}
use raknet_shim.Shim.{step}

-- The variables of `main`, with `BUF` and the operating system.
pub record Program (A S T U O : Type 0) : Type 0 where
  pub addrs : Table A A
  pub shims : List (Shim A S T U)
  pub buf : List ℕ
  pub os : O

module _ {A S T U O : Type 0} ⦃addresses : SocketAddrs A⦄ ⦃socket : UdpSocket A S⦄ where
  -- `match cmd`
  pub add_shim : ShimCommand A S T U → Program A S T U O → Outcome (Program A S T U O)
  add_shim (new_shim connect_addr shim) m = P.◌>>=◌ (local_addr shim) (λ addr. ok (record m {
    addrs = insert ⦃eq = addresses.eq⦄ connect_addr addr m.addrs;
    shims = m.shims ++ (shim ∷ []);
  }))

  -- `for cmd in cmds`
  pub add_shims : List (ShimCommand A S T U) → Program A S T U O → Outcome (Program A S T U O)
  add_shims [] m = ok m
  add_shims (cmd ∷ cmds) m = P.◌>>=◌ (add_shim cmd m) (λ m'. add_shims cmds m')

-- The domain in the configuration file, or the one that stands in the program.
abbrev pub domain : Outcome (List ℕ) → List ℕ
domain (ok text) = text
domain _ = bytes_of "lu.lcdruniverse.org"

module _ {A S T U O : Type 0} ⦃addresses : SocketAddrs A⦄ ⦃sockets : Sockets A S T U O⦄ where
  -- What stands before the loop, where `config` is what reading the configuration file gave. `BUF`
  -- is zero.
  pub start : Outcome (List ℕ) → Io O (Program A S T U O)
  start config = lift (addresses.parse (bytes_of "127.0.0.1:1001")) >>= λ listen_addr.
      lift (addresses.resolve (domain config) 21836) >>= λ connect_addr.
      new_listening listen_addr connect_addr >>= λ shim. λ os. (
        ok (record {
          addrs = insert ⦃eq = addresses.eq⦄ connect_addr listen_addr [];
          shims = shim ∷ [];
          buf = replicate max_packet_size 0;
          os = os;
        }),
        os,
      )

-- What the loop over the shims leaves.
pub record Stepped (A S T U O : Type 0) : Type 0 where
  pub shims : List (Shim A S T U)
  pub cmds : List (ShimCommand A S T U)
  pub buf : List ℕ
  pub os : O

module _ (W R : Type 0) ⦃bw : BitWrite W⦄ ⦃br : BitRead R⦄ {A S T U O : Type 0}
    ⦃addresses : SocketAddrs A⦄ ⦃socket : UdpSocket A S⦄ ⦃tcp : TcpUdpConn.Tcp T⦄
    ⦃udp : TcpUdpConn.Udp U⦄ ⦃sockets : Sockets A S T U O⦄ ⦃shorts : Shorts⦄ ⦃utf8 : Utf8⦄ where
  -- `for shim in shims.iter_mut()`
  pub step_shims :
      ℕ
      → Table A A
      → List (Shim A S T U)
      → List (ShimCommand A S T U)
      → List ℕ
      → O
      → Outcome (Stepped A S T U O)
  step_shims fuel addrs [] cmds buf os = ok (record { shims = []; cmds = cmds; buf = buf; os = os })
  step_shims fuel addrs (shim ∷ shims) cmds buf os =
      let (result, cmds', l) =
        step W R fuel addrs cmds (record { shim = shim; buf = buf; os = os }) in
      P.◌>>=◌ result (λ _.
        P.◌>>=◌ (step_shims fuel addrs shims cmds' l.buf l.os)
          (λ rest. ok (record rest { shims = l.shim ∷ rest.shims })))

  -- One round of the main loop, with the fuel of the loops in it. An error ends the program.
  pub round : ℕ → Program A S T U O → Outcome (Program A S T U O)
  round fuel m =
      P.◌>>=◌ (step_shims fuel m.addrs m.shims [] m.buf m.os)
        (λ s. add_shims s.cmds (record m { shims = s.shims; buf = s.buf; os = s.os }))

  -- The main loop, for so many rounds.
  pub rounds : ℕ → ℕ → Program A S T U O → Outcome (Program A S T U O)
  rounds zero fuel m = ok m
  rounds (suc n) fuel m = P.◌>>=◌ (round fuel m) (λ m'. rounds n fuel m')
