-- ===== src/Bridge/Commands.antt =====
-- The commands that `scan_packets` of src/bridge.rs gives out: new shims, each under the address that
-- it connects to.
use raknet_shim.Prelude.{ℕ, ◌≡◌, ap, sym, inl, inr, subst, List, [], ◌∷◌, ◌++◌, Option-cases, ok}
use raknet_shim.Prelude.Io.{pure-returns, lift, returns-first}
use raknet_shim.Prelude.Table.{Table}
use raknet_shim.Packet.{Packet}
use raknet_shim.Strings.{Utf8}
use raknet_shim.Bridge.{
  UdpSocket, SocketAddrs, Sockets, Shorts, ShimCommand, new_shim, scan_packets, scan_packet,
  redirect, redirect_at, read_addr, relay_for, write_addr,
}
use raknet_shim.Bridge.Relay.{Relays, relay_for-Relays}

module _ {A S T U : Type 0} where
  abbrev pub IsNamed : ShimCommand A S T U → Type 0
  IsNamed (new_shim k shim) = shim.connect_addr ≡ k

  abbrev pub AllNamed : List (ShimCommand A S T U) → Type 0
  AllNamed [] = Unit {0}
  AllNamed (cmd ∷ cmds) = IsNamed cmd × AllNamed cmds

  pub AllNamed-++ :
      (cs ds : List (ShimCommand A S T U)) → AllNamed cs → AllNamed ds → AllNamed (cs ++ ds)
  AllNamed-++ [] ds n m = m
  AllNamed-++ (c ∷ cs) ds (n, ns) m = (n, AllNamed-++ cs ds ns m)

module _ {A S T U : Type 0} ⦃addresses : SocketAddrs A⦄ ⦃socket : UdpSocket A S⦄ where
  Relays-AllNamed :
      (addrs : Table A A) (k addr : A) (cmds : List (ShimCommand A S T U))
      → Relays addrs k addr cmds
      → AllNamed cmds
  Relays-AllNamed addrs k addr cmds (inl (known, e)) = subst AllNamed (sym e) tt
  Relays-AllNamed addrs k addr cmds (inr (unknown, r)) =
      subst AllNamed (sym r.command) (r.connects, tt)

module _ {A S T U O : Type 0} ⦃addresses : SocketAddrs A⦄ ⦃socket : UdpSocket A S⦄
    ⦃sockets : Sockets A S T U O⦄ ⦃shorts : Shorts⦄ ⦃utf8 : Utf8⦄ where
  redirect-AllNamed :
      (addrs : Table A A) (i j : ℕ) (p p' : Packet) (o o' : O) (cmds : List (ShimCommand A S T U))
      → redirect addrs i j p o ≡ (ok (p', cmds), o')
      → AllNamed cmds
  unfolding redirect
  redirect-AllNamed addrs i j p p' o o' cmds e =
      let (k, _, e₁) = returns-first (lift (read_addr i j p.bytes)) _ o e in
      let ((addr, new), made, e₂) = returns-first (relay_for addrs k) _ o e₁ in
      let (bytes, _, e₃) = returns-first (lift (write_addr addr i j p.bytes)) _ _ e₂ in
      subst (λ x. AllNamed x.1) (pure-returns _ (p', cmds) _ o' e₃)
        (Relays-AllNamed addrs k addr new (
          relay_for-Relays addrs k o _ addr new
            (ap (λ r. (r, (relay_for {S = S} {T = T} {U = U} addrs k o).1)) made)))

  scan_packet-AllNamed :
      (addrs : Table A A) (p p' : Packet) (o o' : O) (cmds : List (ShimCommand A S T U))
      → scan_packet addrs p o ≡ (ok (p', cmds), o')
      → AllNamed cmds
  unfolding scan_packet
  scan_packet-AllNamed addrs p p' o o' cmds e = elim (Option-cases (redirect_at p.bytes)) [
    | inl none_named ↦
        subst (λ x. AllNamed x.1)
          (pure-returns _ (p', cmds) o o' (rw (none_named, scan_packet) at e)) tt
    | inr ((i, j), at) ↦ redirect-AllNamed addrs i j p p' o o' cmds (rw (at, scan_packet) at e)
  ]

  pub scan_packets-AllNamed :
      (addrs : Table A A) (ps out : List Packet) (o o' : O) (cmds : List (ShimCommand A S T U))
      → scan_packets addrs ps o ≡ (ok (out, cmds), o')
      → AllNamed cmds
  unfolding scan_packets
  scan_packets-AllNamed addrs [] out o o' cmds e =
      subst (λ x. AllNamed x.1) (pure-returns _ (out, cmds) o o' e) tt
  scan_packets-AllNamed addrs (p ∷ ps) out o o' cmds e =
      let ((p', new), first, e₁) = returns-first (scan_packet addrs p) _ o e in
      let os = (scan_packet {S = S} {T = T} {U = U} addrs p o).1 in
      let ((rest, later), others, e₂) = returns-first (scan_packets addrs ps) _ os e₁ in
      subst (λ x. AllNamed x.1) (pure-returns _ (out, cmds) _ o' e₂)
        (AllNamed-++ new later (scan_packet-AllNamed addrs p p' o _ new (ap (λ r. (r, os)) first)) (
          scan_packets-AllNamed addrs ps rest os _ later
            (ap (λ r. (r, (scan_packets {S = S} {T = T} {U = U} addrs ps os).1)) others)))
