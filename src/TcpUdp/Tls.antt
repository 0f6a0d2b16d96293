-- ===== src/TcpUdp/Tls.antt =====
-- src/tcpudp/tls.rs: the stream that encrypts what goes over TCP.
pub mod Handshake
pub mod Secure
mod Tests
use raknet_shim.Prelude.{
  ℕ, zero, suc, Bool, true, false, List, Outcome, ok, err, panic, stuck, ErrorKind, ◌>>=◌,
}
use raknet_shim.Prelude.Io as Io
use raknet_shim.Prelude.Io.{Io, pure, lift}
use raknet_shim.Prelude.Text.{bytes_of}
use raknet_shim.TcpUdp.{Tcp, ReadResult, got, failed, is_would_block}

-- `rustls::StreamOwned`
pub record Stream (C K : Type 0) : Type 0 where
  pub sess : C
  pub sock : K

-- What the file calls of the crates `rustls`, `webpki` and `webpki_roots` and of the standard library: a
-- session `C` over a TCP socket `K`, for a server's name `N`, of a configuration `G` with trust anchors
-- `Q`. `dns_name` is `try_from_ascii_str(..).unwrap()`, so
-- that a failure is a panic. What `complete_io` changes, it changes also where it fails. Reading and
-- writing a stream decrypts and encrypts.
pub record Rustls (A N Q G C K O : Type 0) : Type 0 where
  pub read_config : O → ReadResult × O
  pub dns_name : List ℕ → Outcome N
  pub new_config : G
  pub tls_server_roots : List Q
  -- on the configuration's `root_store`
  pub add_server_trust_anchors : List Q → G → G
  pub new_session : G → N → C
  pub connect : A → Io O K
  pub set_nonblocking : Bool → K → Io O K
  pub local_addr : K → Outcome A
  pub is_handshaking : C → Bool
  pub complete_io : Stream C K → O → Outcome (Unit {0}) × Stream C K × O
  pub read : ℕ → Stream C K → ReadResult × Stream C K
  pub write : List ℕ → Stream C K → Outcome (ℕ × Stream C K)
  pub write_all : List ℕ → Stream C K → Outcome (Stream C K)

-- The domain in the configuration file, or the one that stands in the program.
abbrev pub connect_domain : ReadResult → List ℕ
connect_domain (got text) = text
connect_domain (failed kind) = bytes_of "lu.lcdruniverse.org"

-- How a loop ends, with the stream and the operating system as it leaves them.
abbrev pub Result : Type 0 → Type 0 → Type 0 → Type 0
Result C K O = Outcome (Unit {0}) × Stream C K × O

module _ {C K O : Type 0} where
  -- Behind a call in the inner loop: `retry` is the loop's next round.
  unfoldable pub retry_or_end : (Stream C K → O → Result C K O) → Result C K O → Result C K O
  retry_or_end retry (ok u, stream, os) = (ok tt, stream, os)
  retry_or_end retry (err kind, stream, os) = elim (is_would_block kind) [
    | true ↦ retry stream os
    | false ↦ (err kind, stream, os)
  ]
  retry_or_end retry (panic, stream, os) = (panic, stream, os)
  retry_or_end retry (stuck, stream, os) = (stuck, stream, os)

  -- Behind the inner loop: `next` is the outer loop's next round.
  unfoldable pub next_or_end : (Stream C K → O → Result C K O) → Result C K O → Result C K O
  next_or_end next (ok u, stream, os) = next stream os
  next_or_end next (err kind, stream, os) = (err kind, stream, os)
  next_or_end next (panic, stream, os) = (panic, stream, os)
  next_or_end next (stuck, stream, os) = (stuck, stream, os)

module _ {A N Q G C K O : Type 0} (rustls : Rustls A N Q G C K O) where
  -- The inner loop on fuel: a call that would block is made again.
  unfoldable pub complete : ℕ → Stream C K → O → Result C K O
  complete zero stream os = (stuck, stream, os)
  complete (suc fuel) stream os = retry_or_end (complete fuel) (rustls.complete_io stream os)

  -- The outer loop, with the fuel of the inner one.
  unfoldable pub handshake : ℕ → ℕ → Stream C K → O → Result C K O
  handshake fuel zero stream os = (stuck, stream, os)
  handshake fuel (suc rounds) stream os = elim (rustls.is_handshaking stream.sess) [
    | false ↦ (ok tt, stream, os)
    | true ↦ next_or_end (handshake fuel rounds) (complete fuel stream os)
  ]

  -- The handshake as a call that gives the stream.
  unfoldable pub shake_hands : ℕ → ℕ → Stream C K → Io O (Stream C K)
  shake_hands fuel rounds stream os =
      let (result, stream', os') = handshake fuel rounds stream os in
      (result >>= λ _. ok stream', os')

  -- Reading the file does not end the call.
  unfoldable pub read_domain : Io O (List ℕ)
  read_domain os = let (config, os') = rustls.read_config os in (ok (connect_domain config), os')

  -- The configuration of the session.
  unfoldable pub config : G
  config = rustls.add_server_trust_anchors rustls.tls_server_roots rustls.new_config

  -- `Tcp::connect`
  unfoldable pub connect : ℕ → ℕ → A → Io O (Stream C K)
  connect fuel rounds addr = Io.◌>>=◌ read_domain (λ domain.
      Io.◌>>=◌ (lift (rustls.dns_name domain)) (λ dns_name.
        let sess = rustls.new_session config dns_name in
        Io.◌>>=◌ (rustls.connect addr) (λ sock.
          Io.◌>>=◌ (rustls.set_nonblocking true sock)
            (λ sock'. shake_hands fuel rounds (record { sess = sess; sock = sock' })))))

  unfoldable pub local_addr : Stream C K → Outcome A
  local_addr stream = rustls.local_addr stream.sock

  unfoldable pub set_nonblocking : Bool → Stream C K → Io O (Stream C K)
  set_nonblocking nonblocking stream =
      Io.◌>>=◌ (rustls.set_nonblocking nonblocking stream.sock)
        (λ sock'. pure (record stream { sock = sock' }))

  -- `Read` and `Write` of the stream.
  unfoldable pub tls_tcp : Tcp (Stream C K)
  tls_tcp = record {
    read = λ n stream. rustls.read n stream;
    write = λ bytes stream. rustls.write bytes stream;
    write_all = λ bytes stream. rustls.write_all bytes stream;
  }
