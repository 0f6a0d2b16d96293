-- ===== src/Shim/Main/Served.antt =====
-- The table of the main loop in src/main.rs, and the shims that run.
use raknet_shim.Prelude.{
  ℕ, zero, suc, ◌≡◌, ◌⊎◌, inl, inr, ◌∙◌, sym, ap, subst, List, [], ◌∷◌, ◌++◌, ok, returned, some,
  Bool-cases,
}
use raknet_shim.Prelude.Table.{Table, EqLaws, get, insert, get-insert}
use raknet_shim.Bits.{BitWrite, BitRead}
use raknet_shim.Strings.{Utf8}
use raknet_shim.TcpUdp as TcpUdpConn
use raknet_shim.Bridge.{
  SocketAddrs, UdpSocket, Sockets, Shorts, Shim, ShimCommand, new_shim, local_addr,
}
use raknet_shim.Bridge.Commands.{IsNamed, AllNamed}
use raknet_shim.Shim.{Left, step}
use raknet_shim.Shim.Face.{SocketLaws, face, step-face}
use raknet_shim.Shim.Named.{step-AllNamed}
use raknet_shim.Shim.Main.{Program, Stepped, add_shim, add_shims, step_shims, round, rounds}

module _ {A S T U : Type 0} ⦃socket : UdpSocket A S⦄ where
  -- Some shim listens at `addr` and connects to `k`.
  abbrev pub Serves : A → A → List (Shim A S T U) → Type 0
  Serves k addr [] = ⊥
  Serves k addr (shim ∷ shims) =
      ((shim.connect_addr ≡ k) × (socket.local_addr shim.raknet ≡ ok addr)) ⊎ Serves k addr shims

  Serves-++ :
      (k addr : A) (shims later : List (Shim A S T U))
      → Serves k addr shims
      → Serves k addr (shims ++ later)
  Serves-++ k addr [] later x = elim x [ ]
  Serves-++ k addr (shim ∷ shims) later (inl here) = inl here
  Serves-++ k addr (shim ∷ shims) later (inr there) = inr (Serves-++ k addr shims later there)

  Serves-last :
      (k addr : A) (shims : List (Shim A S T U)) (shim : Shim A S T U)
      → shim.connect_addr ≡ k
      → socket.local_addr shim.raknet ≡ ok addr
      → Serves k addr (shims ++ (shim ∷ []))
  Serves-last k addr [] shim e f = inl (e, f)
  Serves-last k addr (first ∷ shims) shim e f = inr (Serves-last k addr shims shim e f)

module _ {A S T U : Type 0} ⦃addresses : SocketAddrs A⦄ ⦃socket : UdpSocket A S⦄
    (eq_laws : EqLaws addresses.eq) where
  pub insert-Serves :
      (k addr : A) (addrs : Table A A) (shims : List (Shim A S T U))
      → ((j a : A) → get ⦃eq = addresses.eq⦄ j addrs ≡ some a → Serves j a shims)
      → Serves k addr shims
      → (j a : A) → get ⦃eq = addresses.eq⦄ j (insert ⦃eq = addresses.eq⦄ k addr addrs) ≡ some a
      → Serves j a shims
  insert-Serves k addr addrs shims w serves j a found =
      let found' = sym (get-insert ⦃eq = addresses.eq⦄ eq_laws k j addr addrs) ∙ found in
      elim (Bool-cases (addresses.eq.same k j)) [
        | inl equal ↦
            let added : some addr ≡ some a = rw equal at found' in
            let here : k ≡ j = (eq_laws.same_iff k j).0 equal in
            let there : addr ≡ a = cc in
            subst (λ x. Serves x a shims) here (subst (λ x. Serves k x shims) there serves)
        | inr distinct ↦ w j a (rw distinct at found')
      ]

module _ {A S T U O : Type 0} ⦃addresses : SocketAddrs A⦄ ⦃socket : UdpSocket A S⦄ where
  -- For every address in the table a shim is there that connects to it, and that listens where the
  -- table says.
  pub record IsServed (m : Program A S T U O) : Type 0 where
    pub served :
        (k addr : A) → get ⦃eq = addresses.eq⦄ k m.addrs ≡ some addr → Serves k addr m.shims

  module _ (eq_laws : EqLaws addresses.eq) where
    add_shim-IsServed :
        (cmd : ShimCommand A S T U) (m m' : Program A S T U O)
        → IsNamed cmd
        → IsServed m
        → add_shim cmd m ≡ ok m'
        → IsServed m'
    unfolding add_shim local_addr
    add_shim-IsServed (new_shim k shim) m m' named w e =
        let (addr, e', listens) = returned (local_addr shim) _ e in
        let grown : Program A S T U O = record m {
          addrs = insert ⦃eq = addresses.eq⦄ k addr m.addrs;
          shims = m.shims ++ (shim ∷ []);
        } in
        let made : ok grown ≡ ok m' = e' in
        let same : grown ≡ m' = cc in
        subst IsServed same (record {
          served =
              insert-Serves eq_laws k addr m.addrs (m.shims ++ (shim ∷ []))
                (λ j a found. Serves-++ j a m.shims (shim ∷ []) (w.served j a found))
                (Serves-last k addr m.shims shim named listens);
        })

    add_shims-IsServed :
        (cmds : List (ShimCommand A S T U)) (m m' : Program A S T U O)
        → AllNamed cmds
        → IsServed m
        → add_shims cmds m ≡ ok m'
        → IsServed m'
    unfolding add_shims
    add_shims-IsServed [] m m' n w e = let same : m ≡ m' = cc in subst IsServed same w
    add_shims-IsServed (cmd ∷ cmds) m m' (n, ns) w e =
        let (m₁, e', first) = returned (add_shim cmd m) _ e in
        add_shims-IsServed cmds m₁ m' ns (add_shim-IsServed cmd m m₁ n w first) e'

module _ (W R : Type 0) ⦃bw : BitWrite W⦄ ⦃br : BitRead R⦄ {A S T U O : Type 0}
    ⦃addresses : SocketAddrs A⦄ ⦃socket : UdpSocket A S⦄ ⦃tcp : TcpUdpConn.Tcp T⦄
    ⦃udp : TcpUdpConn.Udp U⦄ ⦃sockets : Sockets A S T U O⦄ ⦃shorts : Shorts⦄ ⦃utf8 : Utf8⦄
    (laws : SocketLaws socket) where
  step-Serves :
      (fuel : ℕ) (addrs : Table A A) (cmds : List (ShimCommand A S T U)) (l : Left A S T U O)
      (k addr : A)
      → l.shim.connect_addr ≡ k
      → socket.local_addr l.shim.raknet ≡ ok addr
      → ((step W R fuel addrs cmds l).2.shim.connect_addr ≡ k)
        × (socket.local_addr (step W R fuel addrs cmds l).2.shim.raknet ≡ ok addr)
  unfolding face local_addr
  step-Serves fuel addrs cmds l k addr e f =
      let same = step-face W laws R fuel addrs cmds l in
      (ap (λ x. x.0) same ∙ e, ap (λ x. x.1) same ∙ f)

  step_shims-Serves :
      (fuel : ℕ) (addrs : Table A A) (shims : List (Shim A S T U))
      (cmds : List (ShimCommand A S T U)) (buf : List ℕ) (os : O) (s : Stepped A S T U O)
      → step_shims W R fuel addrs shims cmds buf os ≡ ok s
      → (AllNamed cmds → AllNamed s.cmds)
        × ((k addr : A) → Serves k addr shims → Serves k addr s.shims)
  unfolding step_shims
  step_shims-Serves fuel addrs [] cmds buf os s e =
      let start : Stepped A S T U O = record { shims = []; cmds = cmds; buf = buf; os = os } in
      let same : start ≡ s = cc in
      (λ n. subst (λ (x : Stepped A S T U O). AllNamed x.cmds) same n, λ k addr x. elim x [ ])
  step_shims-Serves fuel addrs (shim ∷ shims) cmds buf os s e =
      let l : Left A S T U O = record { shim = shim; buf = buf; os = os } in
      let (result, cmds', l') = step W R fuel addrs cmds l in
      let (_, e₁, _) = returned result _ e in
      let (rest, e₂, others) = returned (step_shims W R fuel addrs shims cmds' l'.buf l'.os) _ e₁ in
      let all : Stepped A S T U O = record rest { shims = l'.shim ∷ rest.shims } in
      let made : ok all ≡ ok s = e₂ in
      let same : all ≡ s = cc in
      let (named, serves) = step_shims-Serves fuel addrs shims cmds' l'.buf l'.os rest others in
      (
        λ n.
            subst (λ (x : Stepped A S T U O). AllNamed x.cmds) same
              (named (step-AllNamed W R fuel addrs cmds l n)),
        λ k addr x.
            subst (λ (y : Stepped A S T U O). Serves k addr y.shims) same
              (elim x [
                | inl (f, g) ↦ inl (step-Serves fuel addrs cmds l k addr f g)
                | inr there ↦ inr (serves k addr there)
              ]),
      )

  module _ (eq_laws : EqLaws addresses.eq) where
    round-IsServed :
        (fuel : ℕ) (m m' : Program A S T U O) → IsServed m → round W R fuel m ≡ ok m' → IsServed m'
    unfolding round
    round-IsServed fuel m m' w e =
        let (s, e', stepped) = returned (step_shims W R fuel m.addrs m.shims [] m.buf m.os) _ e in
        let (named, serves) = step_shims-Serves fuel m.addrs m.shims [] m.buf m.os s stepped in
        add_shims-IsServed eq_laws s.cmds (record m { shims = s.shims; buf = s.buf; os = s.os }) m'
          (named tt) (record { served = λ k addr found. serves k addr (w.served k addr found) }) e'

    pub rounds-IsServed :
        (n fuel : ℕ) (m m' : Program A S T U O)
        → IsServed m
        → rounds W R n fuel m ≡ ok m'
        → IsServed m'
    unfolding rounds
    rounds-IsServed zero fuel m m' w e = let same : m ≡ m' = cc in subst IsServed same w
    rounds-IsServed (suc n) fuel m m' w e =
        let (m₁, e', first) = returned (round W R fuel m) _ e in
        rounds-IsServed n fuel m₁ m' (round-IsServed fuel m m₁ w first) e'
