-- ===== src/Shim/Main/Start.antt =====
-- The whole run of src/main.rs: what stands before the loop, and rounds of the loop.
use raknet_shim.Prelude.{
  replicate, ℕ, ◌≡◌, ◌∙◌, sym, ap, subst, inl, List, [], ◌∷◌, Outcome, ok, some, none,
}
use raknet_shim.Prelude.Io.{pure-returns, lift, returns-first}
use raknet_shim.Prelude.Table.{EqLaws, get, insert}
use raknet_shim.Prelude.Text.{bytes_of}
use raknet_shim.Bits.{BitWrite, BitRead}
use raknet_shim.Strings.{Utf8}
use raknet_shim.TcpUdp as TcpUdpConn
use raknet_shim.Bridge.{SocketAddrs, UdpSocket, Sockets, Shorts, Shim, new_listening}
use raknet_shim.Bridge.Relay.{new_listening-connect_addr}
use raknet_shim.Shim.Face.{SocketLaws}
use raknet_shim.Shim.Main.{max_packet_size, Program, domain, start, rounds}
use raknet_shim.Shim.Main.Served.{IsServed, insert-Serves, rounds-IsServed}

-- What the program relies on: a socket that was bound to an address with a port has that address, and
-- keeps it when it is made not to block; and "127.0.0.1:1001" is an address with a port.
pub record BindLaws {A S T U O : Type 0} (addresses : SocketAddrs A) (socket : UdpSocket A S)
    (sockets : Sockets A S T U O) : Type 0 where
  pub bind_local :
      (a : A) (s : S) (o : O)
      → (sockets.bind a o).0 ≡ ok s
      → ¬ addresses.port a ≡ 0
      → socket.local_addr s ≡ ok a
  pub nonblocking_local :
      (s s' : S) (o : O)
      → (sockets.set_nonblocking s o).0 ≡ ok s'
      → socket.local_addr s' ≡ socket.local_addr s
  pub parse_port :
      (a : A) → addresses.parse (bytes_of "127.0.0.1:1001") ≡ ok a → ¬ addresses.port a ≡ 0

module _ {A S T U O : Type 0} ⦃addresses : SocketAddrs A⦄ ⦃socket : UdpSocket A S⦄
    ⦃sockets : Sockets A S T U O⦄ where
  new_listening-local_addr :
      (laws : BindLaws addresses socket sockets) (listen k : A) (o o' : O) (shim : Shim A S T U)
      → ¬ addresses.port listen ≡ 0
      → new_listening listen k o ≡ (ok shim, o')
      → socket.local_addr shim.raknet ≡ ok listen
  unfolding new_listening
  new_listening-local_addr laws listen k o o' shim port e =
      let (s, bound, e₁) = returns-first (sockets.bind listen) _ o e in
      let os = (sockets.bind listen o).1 in
      let (s', unblocked, e₂) = returns-first (sockets.set_nonblocking s) _ os e₁ in
      let made = pure-returns _ shim _ o' e₂ in
      ap (λ (x : Shim A S T U). socket.local_addr x.raknet) (sym made)
      ∙ (laws.nonblocking_local s s' os unblocked ∙ laws.bind_local listen s o bound port)

  start-IsServed :
      (eq_laws : EqLaws addresses.eq) (laws : BindLaws addresses socket sockets)
      (config : Outcome (List ℕ)) (o o' : O) (m : Program A S T U O)
      → start config o ≡ (ok m, o')
      → IsServed m
  unfolding start get
  start-IsServed eq_laws laws config o o' m e =
      let (listen, parsed, e₁) =
        returns-first (lift (addresses.parse (bytes_of "127.0.0.1:1001"))) _ o e in
      let (k, _, e₂) = returns-first (lift (addresses.resolve (domain config) 21836)) _ o e₁ in
      let (shim, made, e₃) = returns-first (new_listening listen k) _ o e₂ in
      let os = (new_listening {T = T} {U = U} listen k o).1 in
      let made' = ap (λ r. (r, os)) made in
      let first : Program A S T U O = record {
        addrs = insert ⦃eq = addresses.eq⦄ k listen [];
        shims = shim ∷ [];
        buf = replicate max_packet_size 0;
        os = os;
      } in
      let same : first ≡ m = pure-returns first m os o' e₃ in
      let listens =
        new_listening-local_addr laws listen k o os shim (laws.parse_port listen parsed) made' in
      let connects = new_listening-connect_addr listen k o os shim made' in
      subst IsServed same (record {
        served =
            insert-Serves eq_laws k listen [] (shim ∷ [])
              (λ j a found. let never : none ≡ some a = found in let no : ⊥ = cc in absurd no)
              (inl (connects, listens));
      })

module _ (W R : Type 0) ⦃bw : BitWrite W⦄ ⦃br : BitRead R⦄ {A S T U O : Type 0}
    ⦃addresses : SocketAddrs A⦄ ⦃socket : UdpSocket A S⦄ ⦃tcp : TcpUdpConn.Tcp T⦄
    ⦃udp : TcpUdpConn.Udp U⦄ ⦃sockets : Sockets A S T U O⦄ ⦃shorts : Shorts⦄ ⦃utf8 : Utf8⦄
    (eq_laws : EqLaws addresses.eq) (laws : SocketLaws socket)
    (bind_laws : BindLaws addresses socket sockets) where
  -- Whatever the configuration, the sockets and the servers give the program, after any number of
  -- rounds of the main loop that did not end it: for every remote address in the table of relays a
  -- shim runs that connects to that address and listens at the local address that the table has for
  -- it. The conditions are that a socket that is bound to an address with a port has that address,
  -- and keeps it, that "127.0.0.1:1001" is an address with a port, and that the equality test of
  -- addresses is their equality.
  pub start-rounds-IsServed :
      (config : Outcome (List ℕ)) (o o' : O) (n fuel : ℕ) (m m' : Program A S T U O)
      → start config o ≡ (ok m, o')
      → rounds W R n fuel m ≡ ok m'
      → IsServed m'
  start-rounds-IsServed config o o' n fuel m m' started ran =
      rounds-IsServed W R laws eq_laws n fuel m m'
        (start-IsServed eq_laws bind_laws config o o' m started) ran
