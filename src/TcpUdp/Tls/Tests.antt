-- ===== src/TcpUdp/Tls/Tests.antt =====
-- A handshake for which the server has to be waited for twice.
use raknet_shim.Prelude.{
  ℕ, ◌≡◌, refl, Bool, true, false, List, [], ◌∷◌, ◌++◌, Outcome, ok, err, would_block, other, arith,
  length,
}
use raknet_shim.Prelude.Io.{pure}
use raknet_shim.Prelude.Text.{bytes_of}
use raknet_shim.TcpUdp.{got, failed}
use raknet_shim.TcpUdp.Tls.{
  Stream, Rustls, Result, complete, handshake, retry_or_end, next_or_end, config, connect,
  connect_domain, read_domain, shake_hands,
}
use raknet_shim.TcpUdp.Tls.Handshake.{CompletesHandshake, handshake-answered}
use raknet_shim.TcpUdp.Tls.Secure.{VerifiesServer, connect-Verified}

-- A session is whether it is handshaking, the anchors that it trusts, and its server's name.
record Session : Type 0 where
  busy : Bool
  trusted : List ℕ
  name : List ℕ

-- The operating system is the list of the calls that will block or go on; one fails when none are left.
abbrev small_complete : Bool → List Bool → Outcome (Unit {0}) × Bool × List Bool
small_complete busy [] = (err other, busy, [])
small_complete busy (true ∷ os) = (err would_block, busy, os)
small_complete busy (false ∷ os) = (ok tt, false, os)

abbrev small_rustls : Rustls ℕ (List ℕ) ℕ (List ℕ) Session (Unit {0}) (List Bool)
small_rustls = record {
  read_config = λ os. (got (bytes_of "lu"), os);
  dns_name = λ text. ok text;
  new_config = [];
  tls_server_roots = 17 ∷ 23 ∷ [];
  add_server_trust_anchors = λ qs g. g ++ qs;
  new_session = λ g n. record { busy = true; trusted = g; name = n };
  connect = λ addr. pure tt;
  set_nonblocking = λ nonblocking sock. pure tt;
  local_addr = λ sock. ok 7;
  is_handshaking = λ sess. sess.busy;
  complete_io = λ stream os.
      let (result, busy, os') = small_complete stream.sess.busy os in
      (result, record { sess = record stream.sess { busy = busy }; sock = tt }, os');
  read = λ n stream. (failed would_block, stream);
  write = λ bytes stream. ok (length bytes, stream);
  write_all = λ bytes stream. ok stream;
}

small_completes :
    (s s' : Stream Session (Unit {0})) (os os' : List Bool)
    → ◌≡◌ {A = Result Session (Unit {0}) (List Bool)}
        (small_rustls.complete_io s os)
        (ok tt, s', os')
    → s'.sess.busy ≡ false
small_completes s s' [] os' e = cc
small_completes s s' (true ∷ os) os' e = cc
small_completes s s' (false ∷ os) os' e = let same : ◌≡◌ {A = Bool} false s'.sess.busy = cc in cc

small_handshakes : CompletesHandshake small_rustls
small_handshakes = record { completes = small_completes }

-- The server is verified where the session is not handshaking and trusts those anchors, for that name.
abbrev SmallVerified : List ℕ → List ℕ → Session → Type 0
SmallVerified qs n sess = (sess.busy ≡ false) × (sess.trusted ≡ qs) × (sess.name ≡ n)

small_stays : (busy : Bool) (os : List Bool) → busy ≡ false → (small_complete busy os).1 ≡ false
small_stays busy [] e = e
small_stays busy (true ∷ os) e = e
small_stays busy (false ∷ os) e = refl

small_verifies : VerifiesServer small_rustls SmallVerified
small_verifies = record {
  anchors = λ g. g;
  anchors_new = refl;
  anchors_added = λ qs g. refl;
  config_of = λ sess. sess.trusted;
  server_name = λ sess. sess.name;
  new_config_of = λ g n. refl;
  new_server_name = λ g n. refl;
  new_handshaking = λ g n. refl;
  keeps_config = λ s os. refl;
  keeps_name = λ s os. refl;
  verifies = λ s os busy idle. (idle, refl, refl);
  stays_verified = λ qs n s os idle v. (small_stays s.sess.busy os idle, v.1, v.2);
}

abbrev fresh : Stream Session (Unit {0})
fresh = record { sess = record { busy = true; trusted = 17 ∷ []; name = bytes_of "lu" }; sock = tt }

abbrev completed : Stream Session (Unit {0})
completed = record { sess = record fresh.sess { busy = false }; sock = tt }

handshake-answered_example :
    (handshake small_rustls 3 2 fresh (true ∷ true ∷ false ∷ true ∷ [])
      ≡ (ok tt, completed, true ∷ []))
    × (◌≡◌ {A = Outcome (Unit {0})} (ok tt) (ok tt) → completed.sess.busy ≡ false)
handshake-answered_example =
    handshake-answered small_rustls small_handshakes 2 3 0 fresh (true ∷ true ∷ false ∷ true ∷ [])
      (ok tt, completed, true ∷ []) refl
      (
        would_block,
        fresh,
        true ∷ false ∷ true ∷ [],
        refl,
        refl,
        (would_block, fresh, false ∷ true ∷ [], refl, refl, (refl, tt)),
      )
      (omega arith)

abbrev secured : Stream Session (Unit {0})
secured = record {
  sess = record { busy = false; trusted = 17 ∷ 23 ∷ []; name = bytes_of "lu" };
  sock = tt;
}

connected : connect small_rustls 4 4 9 (true ∷ false ∷ []) ≡ (ok secured, [])
unfolding connect config read_domain shake_hands handshake complete retry_or_end next_or_end
connected = refl

connect-Verified_example :
    (name : List ℕ) × (small_rustls.dns_name (connect_domain (got (bytes_of "lu"))) ≡ ok name)
    × SmallVerified (17 ∷ 23 ∷ []) name secured.sess
connect-Verified_example =
    connect-Verified small_rustls small_verifies 4 4 9 secured (true ∷ false ∷ []) [] connected
