-- ===== src/TcpUdp/Tls/Secure.antt =====
-- `Tcp::connect` of src/tcpudp/tls.rs: who is at the other end of a stream that it gives.
use raknet_shim.Prelude.{
  ℕ, zero, suc, ◌≡◌, refl, ap, ◌∙◌, subst, true, false, Bool-cases, inl, inr, List, [], ◌++◌,
  Outcome, ok, err, panic, stuck, ◌>>=◌,
}
use raknet_shim.Prelude.Io as Io
use raknet_shim.Prelude.Io.{Io, lift, returns-first}
use raknet_shim.TcpUdp.{is_would_block}
use raknet_shim.TcpUdp.Tls.{
  Stream, Rustls, Result, connect_domain, retry_or_end, next_or_end, complete, handshake,
  shake_hands, read_domain, config, connect,
}

module _ {A N Q G C K O : Type 0} (rustls : Rustls A N Q G C K O) where
  -- What the documentation of `rustls` says of a client's session. A new configuration trusts nobody,
  -- and anchors that are added are trusted too. A session keeps its configuration and its server's
  -- name; a new one is handshaking. The handshake is complete only when the server has shown a
  -- certificate for that name that one of the configuration's anchors vouches for (`Verified`), which
  -- it has from then on.
  pub record VerifiesServer (Verified : List Q → N → C → Type 0) : Type 0 where
    pub anchors : G → List Q
    pub anchors_new : anchors rustls.new_config ≡ []
    pub anchors_added :
        (qs : List Q) (g : G) → anchors (rustls.add_server_trust_anchors qs g) ≡ anchors g ++ qs
    pub config_of : C → G
    pub server_name : C → N
    pub new_config_of : (g : G) (n : N) → config_of (rustls.new_session g n) ≡ g
    pub new_server_name : (g : G) (n : N) → server_name (rustls.new_session g n) ≡ n
    pub new_handshaking : (g : G) (n : N) → rustls.is_handshaking (rustls.new_session g n) ≡ true
    pub keeps_config :
        (s : Stream C K) (os : O) → config_of (rustls.complete_io s os).1.sess ≡ config_of s.sess
    pub keeps_name :
        (s : Stream C K) (os : O)
        → server_name (rustls.complete_io s os).1.sess ≡ server_name s.sess
    pub verifies :
        (s : Stream C K) (os : O)
        → rustls.is_handshaking s.sess ≡ true
        → rustls.is_handshaking (rustls.complete_io s os).1.sess ≡ false
        → Verified
            (anchors (config_of s.sess))
            (server_name s.sess)
            (rustls.complete_io s os).1.sess
    pub stays_verified :
        (qs : List Q) (n : N) (s : Stream C K) (os : O)
        → rustls.is_handshaking s.sess ≡ false
        → Verified qs n s.sess
        → Verified qs n (rustls.complete_io s os).1.sess

  next_or_end-returns :
      (next : Stream C K → O → Result C K O) (r : Result C K O) (s : Stream C K) (os : O)
      → next_or_end next r ≡ (ok tt, s, os)
      → (s' : Stream C K) × (os' : O) × (r ≡ (ok tt, s', os')) × (next s' os' ≡ (ok tt, s, os))
  unfolding next_or_end
  next_or_end-returns next (ok u, s', os') s os e = (s', os', refl, e)
  next_or_end-returns next (err kind, s', os') s os e = cc
  next_or_end-returns next (panic, s', os') s os e = cc
  next_or_end-returns next (stuck, s', os') s os e = cc

  after_handshake :
      (r : Result C K O) (s' : Stream C K) (os' : O)
      → ◌≡◌ {A = Outcome (Stream C K) × O} (r.0 >>= λ _. ok r.1, r.2) (ok s', os')
      → r ≡ (ok tt, s', os')
  after_handshake (ok u, s, os) s' os' e = cc
  after_handshake (err kind, s, os) s' os' e = cc
  after_handshake (panic, s, os) s' os' e = cc
  after_handshake (stuck, s, os) s' os' e = cc

  shake_hands-returns :
      (fuel rounds : ℕ) (s s' : Stream C K) (os os' : O)
      → shake_hands rustls fuel rounds s os ≡ (ok s', os')
      → handshake rustls fuel rounds s os ≡ (ok tt, s', os')
  unfolding shake_hands
  shake_hands-returns fuel rounds s s' os os' e =
      after_handshake (handshake rustls fuel rounds s os) s' os' e

  module _ {Verified : List Q → N → C → Type 0} (laws : VerifiesServer Verified) (g : G)
      (name : N) where
    -- A session for that configuration and name, whose server was verified if it is not handshaking.
    record IsChecked (sess : C) : Type 0 where
      configured : laws.config_of sess ≡ g
      named : laws.server_name sess ≡ name
      checked : rustls.is_handshaking sess ≡ false → Verified (laws.anchors g) name sess

    complete_io-IsChecked :
        (s : Stream C K) (os : O) → IsChecked s.sess → IsChecked (rustls.complete_io s os).1.sess
    complete_io-IsChecked s os h = record {
      configured = laws.keeps_config s os ∙ h.configured;
      named = laws.keeps_name s os ∙ h.named;
      checked = λ idle. elim (Bool-cases (rustls.is_handshaking s.sess)) [
        | inl busy ↦
            subst (λ n. Verified (laws.anchors g) n (rustls.complete_io s os).1.sess) h.named
              (subst
                (λ c.
                  Verified (laws.anchors c) (laws.server_name s.sess)
                    (rustls.complete_io s os).1.sess)
                h.configured (laws.verifies s os busy idle))
        | inr done ↦ laws.stays_verified (laws.anchors g) name s os done (h.checked done)
      ];
    }

    retry_or_end-IsChecked :
        (retry : Stream C K → O → Result C K O) (r : Result C K O) (s' : Stream C K) (os' : O)
        → IsChecked r.1.sess
        → ((s : Stream C K) (os : O)
            → IsChecked s.sess
            → retry s os ≡ (ok tt, s', os')
            → IsChecked s'.sess)
        → retry_or_end retry r ≡ (ok tt, s', os')
        → IsChecked s'.sess
    unfolding retry_or_end
    retry_or_end-IsChecked retry (ok u, s, os) s' os' h k e =
        let same : s ≡ s' = cc in subst (λ (x : Stream C K). IsChecked x.sess) same h
    retry_or_end-IsChecked retry (err kind, s, os) s' os' h k e =
        elim (Bool-cases (is_would_block kind)) [
          | inl wait ↦ k s os h (rw (wait, retry_or_end) at e)
          | inr fatal ↦
              let bad : ◌≡◌ {A = Result C K O} (err kind, s, os) (ok tt, s', os') =
                rw (fatal, retry_or_end) at e in
              cc
        ]
    retry_or_end-IsChecked retry (panic, s, os) s' os' h k e = cc
    retry_or_end-IsChecked retry (stuck, s, os) s' os' h k e = cc

    complete-IsChecked :
        (fuel : ℕ) (s s' : Stream C K) (os os' : O)
        → IsChecked s.sess
        → complete rustls fuel s os ≡ (ok tt, s', os')
        → IsChecked s'.sess
    unfolding complete
    complete-IsChecked zero s s' os os' h e = cc
    complete-IsChecked (suc fuel) s s' os os' h e =
        retry_or_end-IsChecked (complete rustls fuel) (rustls.complete_io s os) s' os'
          (complete_io-IsChecked s os h) (λ x y i f. complete-IsChecked fuel x s' y os' i f) e

    handshake-checked :
        (fuel rounds : ℕ) (s s' : Stream C K) (os os' : O)
        → IsChecked s.sess
        → handshake rustls fuel rounds s os ≡ (ok tt, s', os')
        → Verified (laws.anchors g) name s'.sess
    unfolding handshake
    handshake-checked fuel zero s s' os os' h e = cc
    handshake-checked fuel (suc rounds) s s' os os' h e =
        elim (Bool-cases (rustls.is_handshaking s.sess)) [
          | inl busy ↦
              let (s₁, os₁, e₁, e') =
                next_or_end-returns (handshake rustls fuel rounds) (complete rustls fuel s os) s'
                  os' (rw (busy, handshake) at e) in
              handshake-checked fuel rounds s₁ s' os₁ os' (complete-IsChecked fuel s s₁ os os₁ h e₁)
                e'
          | inr idle ↦
              let e' : ◌≡◌ {A = Result C K O} (ok tt, s, os) (ok tt, s', os') =
                rw (idle, handshake) at e in
              let same : s ≡ s' = cc in
              subst (λ (x : Stream C K). Verified (laws.anchors g) name x.sess) same
                (h.checked idle)
        ]

  new-IsChecked :
      {Verified : List Q → N → C → Type 0} (laws : VerifiesServer Verified) (g : G) (name : N)
      → IsChecked laws g name (rustls.new_session g name)
  new-IsChecked laws g name =
      let busy = laws.new_handshaking g name in
      record {
        configured = laws.new_config_of g name;
        named = laws.new_server_name g name;
        checked = λ idle. cc;
      }

  anchors-config :
      {Verified : List Q → N → C → Type 0} (laws : VerifiesServer Verified)
      → laws.anchors (config rustls) ≡ rustls.tls_server_roots
  unfolding config
  anchors-config laws =
      laws.anchors_added rustls.tls_server_roots rustls.new_config
      ∙ ap (λ qs. qs ++ rustls.tls_server_roots) laws.anchors_new

  -- Where `Tcp::connect` succeeds, the domain of the configuration file (or the one that stands in for
  -- it) is a name, and at the other end of the stream is a server that has shown a certificate for this
  -- name that one of the roots of `webpki_roots` vouches for. The conditions are that a session of
  -- `rustls` keeps its configuration and its name and completes no handshake without such a
  -- certificate, and that a configuration trusts the anchors that are added to it and no other.
  pub connect-Verified :
      {Verified : List Q → N → C → Type 0}
      → VerifiesServer Verified
      → (fuel rounds : ℕ) (addr : A) (stream : Stream C K) (os os' : O)
      → connect rustls fuel rounds addr os ≡ (ok stream, os')
      → (name : N) × (rustls.dns_name (connect_domain (rustls.read_config os).0) ≡ ok name)
        × Verified rustls.tls_server_roots name stream.sess
  unfolding connect read_domain
  connect-Verified {Verified} laws fuel rounds addr stream os os' e =
      let domain = connect_domain (rustls.read_config os).0 in
      let os₀ = (rustls.read_config os).1 in
      let g = config rustls in
      let finish = λ (name : N) (sock : K).
        shake_hands rustls fuel rounds (record { sess = rustls.new_session g name; sock = sock }) in
      let prepare =
        λ (name : N) (sock : K). Io.◌>>=◌ (rustls.set_nonblocking true sock) (finish name) in
      let open_sock = λ (name : N). Io.◌>>=◌ (rustls.connect addr) (prepare name) in
      let (name, named, e₁) = returns-first (lift (rustls.dns_name domain)) open_sock os₀ e in
      let (sock, _, e₂) = returns-first (rustls.connect addr) (prepare name) os₀ e₁ in
      let os₁ = (rustls.connect addr os₀).1 in
      let (sock', _, e₃) = returns-first (rustls.set_nonblocking true sock) (finish name) os₁ e₂ in
      let os₂ = (rustls.set_nonblocking true sock os₁).1 in
      let s : Stream C K = record { sess = rustls.new_session g name; sock = sock' } in
      let ran = shake_hands-returns fuel rounds s stream os₂ os' e₃ in
      let checked =
        handshake-checked laws g name fuel rounds s stream os₂ os' (new-IsChecked laws g name)
          ran in
      (name, named, subst (λ qs. Verified qs name stream.sess) (anchors-config laws) checked)
