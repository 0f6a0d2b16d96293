-- ===== src/Bridge/Short.antt =====
-- Redirections that are too short for `scan_packets` of src/bridge.rs.
use raknet_shim.Prelude.{
  length-drop, ℕ, ◌+◌, ◌<◌, ◌≤◌, ◌≡◌, refl, ap, ◌∙◌, true, List, ◌∷◌, length, drop, ltb, some,
  arith, panic,
}
use raknet_shim.Prelude.Table.{Table}
use raknet_shim.Packet.{Packet}
use raknet_shim.Strings.{Utf8}
use raknet_shim.Strings.RoundTrip.{read_fix_short}
use raknet_shim.Bridge.{
  Shorts, SocketAddrs, UdpSocket, Sockets, redirect_at, read_addr, redirect, scan_packet,
  scan_packets,
}

redirect_at-redirection :
    (x : ℕ) (rest : List ℕ) → 5 ≤ length rest → redirect_at (83 ∷ 5 ∷ x ∷ 14 ∷ rest) ≡ some (8, 41)
unfolding redirect_at
redirect_at-redirection x rest long =
    let more : ltb 8 (length (83 ∷ 5 ∷ x ∷ 14 ∷ rest)) ≡ true = ground arith in rw more refl

module _ {A S T U O : Type 0} ⦃addresses : SocketAddrs A⦄ ⦃socket : UdpSocket A S⦄
    ⦃sockets : Sockets A S T U O⦄ ⦃shorts : Shorts⦄ ⦃utf8 : Utf8⦄ where
  redirect_short :
      (addrs : Table A A) (j : ℕ) (p : Packet) (o : O)
      → length p.bytes < 8 + 33
      → redirect {S = S} {T = T} {U = U} addrs 8 j p o ≡ (panic, o)
  unfolding redirect read_addr
  redirect_short addrs j p o short =
      rw (read_fix_short (drop 8 p.bytes) (omega (arith, length-drop 8 p.bytes, short))) refl

  scan_packet_short :
      (addrs : Table A A) (p : Packet) (o : O)
      → redirect_at p.bytes ≡ some (8, 41)
      → length p.bytes < 8 + 33
      → scan_packet {S = S} {T = T} {U = U} addrs p o ≡ (panic, o)
  unfolding scan_packet
  scan_packet_short addrs p o at short = rw (at, scan_packet) (redirect_short addrs 41 p o short)

  -- A redirection packet of nine bytes or more, but fewer than the 41 up to the end of its host
  -- field, makes the call panic, whatever follows it: no length is tested before the field is cut
  -- out.
  pub scan_packets-panics :
      (addrs : Table A A) (p : Packet) (ps : List Packet) (x : ℕ) (rest : List ℕ) (o : O)
      → p.bytes ≡ 83 ∷ 5 ∷ x ∷ 14 ∷ rest
      → 5 ≤ length rest
      → length rest < 37
      → scan_packets {S = S} {T = T} {U = U} addrs (p ∷ ps) o ≡ (panic, o)
  unfolding scan_packets
  scan_packets-panics addrs p ps x rest o e long short =
      let at : redirect_at p.bytes ≡ some (8, 41) =
        ap redirect_at e ∙ redirect_at-redirection x rest long in
      let first = scan_packet_short addrs p o at (omega (arith, ap length e, short)) in
      rw first refl
