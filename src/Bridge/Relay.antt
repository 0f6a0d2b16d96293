-- ===== src/Bridge/Relay.antt =====
-- The relays that `scan_packets` of src/bridge.rs finds or opens for the addresses that packets name.
use raknet_shim.Prelude.{
  length-drop, unexpected_eof, returned, ℕ, ◌+◌, ◌≤◌, ◌≡◌, ◌⊎◌, inl, inr, ap, sym, ◌∙◌, none, some,
  List, [], ◌∷◌, length, drop, ltb, Bool-cases, Option-cases, arith, ok,
}
use raknet_shim.Prelude.Io.{pure-returns, pure, lift, returns-first}
use raknet_shim.Prelude.Table.{Table, get}
use raknet_shim.Strings.{Utf8, read_fix}
use raknet_shim.Bridge.{
  bytes_of, new_relay, err, Shorts, SocketAddrs, UdpSocket, Sockets, Shim, ShimCommand, new_shim,
  redirect_at, read_addr, relay_for, local_addr, new_listening,
}
use raknet_shim.Bridge.Patch.{ShortsLaws}

-- Where a host and its port stand.
pub redirect_at_lem :
    (bytes : List ℕ) (i j : ℕ)
    → redirect_at bytes ≡ some (i, j)
    → ((i ≡ 345) × (j ≡ 411)) ⊎ ((i ≡ 8) × (j ≡ 41))
unfolding redirect_at
redirect_at_lem bytes i j e = ground arith

pub gap : (i j : ℕ) → ((i ≡ 345) × (j ≡ 411)) ⊎ ((i ≡ 8) × (j ≡ 41)) → (m : ℕ) × (j ≡ i + 33 + m)
gap i j (inl (p, q)) = (33, omega arith)
gap i j (inr (p, q)) = (0, omega arith)

module _ ⦃shorts : Shorts⦄ (laws : ShortsLaws shorts) where
  read_u16-room : (bytes : List ℕ) (v : ℕ) → shorts.read_u16 bytes ≡ ok v → 2 ≤ length bytes
  read_u16-room bytes v e = elim (Bool-cases (ltb (length bytes) 2)) [
    | inl short ↦
        let never : err unexpected_eof ≡ ok v = rw short at (sym (laws.read_u16_lem bytes) ∙ e) in
        cc
    | inr long ↦ ground arith
  ]

  pub read_addr-room :
      ⦃utf8 : Utf8⦄
      → {A : Type 0} → ⦃addresses : SocketAddrs A⦄ → (i j : ℕ) (bytes : List ℕ) (a : A)
      → read_addr i j bytes ≡ ok a
      → j + 2 ≤ length bytes
  unfolding read_addr
  read_addr-room i j bytes a e =
      let (host, e₁, _) = returned (read_fix (drop i bytes)) _ e in
      let (port, _, e₂) = returned (shorts.read_u16 (drop j bytes)) _ e₁ in
      omega (arith, read_u16-room (drop j bytes) port e₂, length-drop j bytes)

module _ {A S T U : Type 0} ⦃addresses : SocketAddrs A⦄ ⦃socket : UdpSocket A S⦄ where
  -- A command for a new shim that relays to `k` and listens at `addr`.
  pub record IsNewRelay (k addr : A) (cmds : List (ShimCommand A S T U)) : Type 0 where
    pub shim : Shim A S T U
    pub command : cmds ≡ new_shim k shim ∷ []
    pub connects : shim.connect_addr ≡ k
    pub listens : local_addr shim ≡ ok addr

  -- `addr` relays to `k`: it was known, or it is that of a new shim.
  abbrev pub Relays : Table A A → A → A → List (ShimCommand A S T U) → Type 0
  Relays addrs k addr cmds =
      ((get ⦃eq = addresses.eq⦄ k addrs ≡ some addr) × (cmds ≡ []))
      ⊎ ((get ⦃eq = addresses.eq⦄ k addrs ≡ none) × IsNewRelay k addr cmds)

module _ {A S T U O : Type 0} ⦃sockets : Sockets A S T U O⦄ where
  pub new_listening-connect_addr :
      (listen k : A) (o o' : O) (shim : Shim A S T U)
      → new_listening listen k o ≡ (ok shim, o')
      → shim.connect_addr ≡ k
  unfolding new_listening
  new_listening-connect_addr listen k o o' shim e =
      let (s, _, e₁) = returns-first (sockets.bind listen) _ o e in
      let (s', _, e₂) = returns-first (sockets.set_nonblocking s) _ _ e₁ in
      let made = pure-returns _ shim _ o' e₂ in ap (λ (x : Shim A S T U). x.connect_addr) (sym made)

module _ {A S T U O : Type 0} ⦃addresses : SocketAddrs A⦄ ⦃socket : UdpSocket A S⦄
    ⦃sockets : Sockets A S T U O⦄ where
  new_relay-IsNewRelay :
      (k : A) (o o' : O) (addr : A) (cmds : List (ShimCommand A S T U))
      → new_relay k o ≡ (ok (addr, cmds), o')
      → IsNewRelay k addr cmds
  unfolding new_relay
  new_relay-IsNewRelay k o o' addr cmds e =
      let (listen, _, e₁) = returns-first (lift (addresses.parse (bytes_of "127.0.0.1:0"))) _ o e in
      let (shim, made, e₂) = returns-first (new_listening listen k) _ o e₁ in
      let (addr', at, e₃) = returns-first (lift (local_addr shim)) _ _ e₂ in
      let relay = pure-returns _ (addr, cmds) _ o' e₃ in
      record {
        shim = shim;
        command = sym (ap (λ x. x.1) relay);
        connects =
            new_listening-connect_addr listen k o _ shim
              (ap (λ r. (r, (new_listening {S = S} {T = T} {U = U} listen k o).1)) made);
        listens = at ∙ ap (λ x. ok x.0) relay;
      }

  pub relay_for-Relays :
      (addrs : Table A A) (k : A) (o o' : O) (addr : A) (cmds : List (ShimCommand A S T U))
      → relay_for addrs k o ≡ (ok (addr, cmds), o')
      → Relays addrs k addr cmds
  unfolding relay_for
  relay_for-Relays addrs k o o' addr cmds e =
      elim (Option-cases (get ⦃eq = addresses.eq⦄ k addrs)) [
        | inr (known, f) ↦
            let r : pure (known, []) o ≡ (ok (addr, cmds), o') = rw (f, relay_for) at e in
            let same : known ≡ addr = cc in
            let none_new : cmds ≡ [] = cc in inl (f ∙ ap some same, none_new)
        | inl f ↦ inr (f, new_relay-IsNewRelay k o o' addr cmds (rw (f, relay_for) at e))
      ]
