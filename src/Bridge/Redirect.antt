-- ===== src/Bridge/Redirect.antt =====
-- What `scan_packets` of src/bridge.rs makes of the packets that name a server.
use raknet_shim.Prelude.{
  subst, ℕ, ◌+◌, ◌≤◌, ◌≡◌, inl, inr, refl, ap, sym, ◌∙◌, true, Option, none, some, List, [], ◌∷◌,
  ◌++◌, length, drop, Option-cases, arith, ok, IsU16,
}
use raknet_shim.Prelude.Io.{pure-returns, lift, returns-first}
use raknet_shim.Prelude.Table.{Table}
use raknet_shim.Packet.{Packet}
use raknet_shim.Strings.{Utf8, read_fix}
use raknet_shim.Strings.RoundTrip.{read_fix-field}
use raknet_shim.Bridge.{
  write_addr, Shorts, SocketAddrs, UdpSocket, Sockets, ShimCommand, loopback, redirect_at,
  read_addr, relay_for, redirect, scan_packet, scan_packets,
}
use raknet_shim.Bridge.Patch.{
  length-patched, ShortsLaws, patched, write_addr_lem, drop-patched_host, drop-patched_port,
  read_u16-le_bytes,
}
use raknet_shim.Bridge.Relay.{redirect_at_lem, gap, read_addr-room, Relays, relay_for-Relays}

-- What the code relies on: a port is a `u16`, and "127.0.0.1" is valid UTF-8.
pub record AddrLaws {A : Type 0} (addresses : SocketAddrs A) (utf8 : Utf8) : Type 0 where
  pub port-IsU16 : (a : A) → IsU16 (addresses.port a)
  pub loopback_valid : utf8.is_utf8 loopback ≡ true

module _ {A S T U : Type 0} ⦃addresses : SocketAddrs A⦄ ⦃socket : UdpSocket A S⦄ ⦃shorts : Shorts⦄
    ⦃utf8 : Utf8⦄ where
  -- `p` names an address where the host and the port stand at `i` and `j`; `p'` names a relay for it,
  -- on this machine, and is otherwise the same.
  pub record Redirected (addrs : Table A A) (i j : ℕ) (p p' : Packet)
      (cmds : List (ShimCommand A S T U)) : Type 0 where
    pub named : A
    pub relay : A
    pub names : read_addr i j p.bytes ≡ ok named
    pub relays : Relays addrs named relay cmds
    pub kind : p'.reliability ≡ p.reliability
    pub bytes : p'.bytes ≡ patched loopback (addresses.port relay) i j p.bytes
    pub length_same : length p'.bytes ≡ length p.bytes
    pub behind : List ℕ
    pub host : read_fix (drop i p'.bytes) ≡ ok (loopback, behind)
    pub port : shorts.read_u16 (drop j p'.bytes) ≡ ok (addresses.port relay)

  abbrev pub ScannedAt :
      Option (ℕ × ℕ) → Table A A → Packet → Packet → List (ShimCommand A S T U) → Type 0
  ScannedAt none addrs p p' cmds = (p' ≡ p) × (cmds ≡ [])
  ScannedAt (some (i, j)) addrs p p' cmds = Redirected addrs i j p p' cmds

  -- A packet before and after, and the commands for it.
  abbrev pub Scanned : Table A A → Packet → Packet → List (ShimCommand A S T U) → Type 0
  Scanned addrs p = ScannedAt (redirect_at p.bytes) addrs p

  -- Packet for packet, in order.
  abbrev pub AllScanned :
      Table A A → List Packet → List Packet → List (ShimCommand A S T U) → Type 0
  AllScanned addrs [] out cmds = (out ≡ []) × (cmds ≡ [])
  AllScanned addrs (p ∷ ps) out cmds =
      (p' : Packet) × (rest : List Packet) × (new later : List (ShimCommand A S T U)) × (out
        ≡ p' ∷ rest)
      × (cmds ≡ new ++ later)
      × Scanned addrs p p' new
      × AllScanned addrs ps rest later

module _ {A S T U : Type 0} ⦃addresses : SocketAddrs A⦄ ⦃socket : UdpSocket A S⦄ ⦃shorts : Shorts⦄
    ⦃utf8 : Utf8⦄ (laws : ShortsLaws shorts) (addr_laws : AddrLaws addresses utf8) where
  patched-Redirected :
      (addrs : Table A A) (i m : ℕ) (p : Packet) (k addr : A) (cmds : List (ShimCommand A S T U))
      → i + 33 + m + 2 ≤ length p.bytes
      → read_addr i (i + 33 + m) p.bytes ≡ ok k
      → Relays addrs k addr cmds
      → Redirected addrs i
          (i + 33 + m)
          p
          (record p { bytes = patched loopback (addresses.port addr) i (i + 33 + m) p.bytes })
          cmds
  patched-Redirected addrs i m p k addr cmds room e r =
      let small : length loopback ≤ 32 = omega arith in
      let size = addr_laws.port-IsU16 addr in
      record {
        named = k;
        relay = addr;
        names = e;
        relays = r;
        kind = refl;
        bytes = refl;
        length_same = length-patched loopback (addresses.port addr) i m p.bytes small room;
        behind = _;
        host =
            ap read_fix (drop-patched_host loopback (addresses.port addr) i m p.bytes small room)
            ∙ read_fix-field loopback _ small (omega arith) addr_laws.loopback_valid;
        port =
            ap shorts.read_u16
              (drop-patched_port loopback (addresses.port addr) i m p.bytes small room)
            ∙ read_u16-le_bytes laws (addresses.port addr) _ size;
      }

module _ {A S T U O : Type 0} ⦃addresses : SocketAddrs A⦄ ⦃socket : UdpSocket A S⦄
    ⦃sockets : Sockets A S T U O⦄ ⦃shorts : Shorts⦄ ⦃utf8 : Utf8⦄ (laws : ShortsLaws shorts)
    (addr_laws : AddrLaws addresses utf8) where
  redirect-Redirected :
      (addrs : Table A A) (i m : ℕ) (p p' : Packet) (o o' : O) (cmds : List (ShimCommand A S T U))
      → redirect addrs i (i + 33 + m) p o ≡ (ok (p', cmds), o')
      → Redirected addrs i (i + 33 + m) p p' cmds
  unfolding redirect
  redirect-Redirected addrs i m p p' o o' cmds e =
      let j : ℕ = i + 33 + m in
      let (k, e₀, e₁) = returns-first (lift (read_addr i j p.bytes)) _ o e in
      let ((addr, new), made, e₂) = returns-first (relay_for addrs k) _ o e₁ in
      let (bytes, e₃, e₄) = returns-first (lift (write_addr addr i j p.bytes)) _ _ e₂ in
      let room = read_addr-room laws i j p.bytes k e₀ in
      let out = pure-returns _ (p', cmds) _ o' e₄ in
      let written : ok bytes ≡ ok (patched loopback (addresses.port addr) i j p.bytes) =
        sym e₃ ∙ write_addr_lem laws addr i m p.bytes room in
      let same : bytes ≡ patched loopback (addresses.port addr) i j p.bytes = cc in
      let relays =
        relay_for-Relays addrs k o _ addr new
          (ap (λ r. (r, (relay_for {S = S} {T = T} {U = U} addrs k o).1)) made) in
      subst (λ x. Redirected addrs i j p x.0 x.1)
        (ap (λ x. (record p { bytes = x }, new)) (sym same) ∙ out)
        (patched-Redirected laws addr_laws addrs i m p k addr new room e₀ relays)

  scan_packet-Scanned :
      (addrs : Table A A) (p p' : Packet) (o o' : O) (cmds : List (ShimCommand A S T U))
      → scan_packet addrs p o ≡ (ok (p', cmds), o')
      → Scanned addrs p p' cmds
  unfolding scan_packet
  scan_packet-Scanned addrs p p' o o' cmds e = elim (Option-cases (redirect_at p.bytes)) [
    | inl none_named ↦
        let out = pure-returns _ (p', cmds) o o' (rw (none_named, scan_packet) at e) in
        rw none_named (sym (ap (λ x. x.0) out), sym (ap (λ x. x.1) out))
    | inr ((i, j), at) ↦
        let (m, g) = gap i j (redirect_at_lem p.bytes i j at) in
        rw (at, g) (redirect-Redirected addrs i m p p' o o' cmds (rw (at, scan_packet, g) at e))
  ]

  -- Where the call returns, packet for packet and in order: a packet that names no server is left as
  -- it was. Of a login response or a redirection that names an address, the host field reads
  -- "127.0.0.1" and the port field the port of a relay for that address, which the table knew or for
  -- which there is a command with a new shim that connects there and listens at the relay's address;
  -- all other bytes, the length and the reliability are the same. There are no other commands.
  pub scan_packets-AllScanned :
      (addrs : Table A A) (ps out : List Packet) (o o' : O) (cmds : List (ShimCommand A S T U))
      → scan_packets addrs ps o ≡ (ok (out, cmds), o')
      → AllScanned addrs ps out cmds
  unfolding scan_packets
  scan_packets-AllScanned addrs [] out o o' cmds e =
      let end = pure-returns _ (out, cmds) o o' e in
      (sym (ap (λ x. x.0) end), sym (ap (λ x. x.1) end))
  scan_packets-AllScanned addrs (p ∷ ps) out o o' cmds e =
      let ((p', new), first, e₁) = returns-first (scan_packet addrs p) _ o e in
      let os = (scan_packet {S = S} {T = T} {U = U} addrs p o).1 in
      let ((rest, later), others, e₂) = returns-first (scan_packets addrs ps) _ os e₁ in
      let end = pure-returns _ (out, cmds) _ o' e₂ in
      (
        p',
        rest,
        new,
        later,
        sym (ap (λ x. x.0) end),
        sym (ap (λ x. x.1) end),
        scan_packet-Scanned addrs p p' o _ new
            (ap (λ r. (r, (scan_packet {S = S} {T = T} {U = U} addrs p o).1)) first),
        scan_packets-AllScanned addrs ps rest os _ later
            (ap (λ r. (r, (scan_packets {S = S} {T = T} {U = U} addrs ps os).1)) others),
      )
