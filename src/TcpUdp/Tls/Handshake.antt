-- ===== src/TcpUdp/Tls/Handshake.antt =====
-- The two loops of `Tcp::connect` of src/tcpudp/tls.rs: how they end.
use raknet_shim.Prelude.{
  ℕ, zero, suc, ◌<◌, ◌≡◌, refl, true, false, ap, ok, err, panic, stuck, ErrorKind, arith, ◌∙◌,
}
use raknet_shim.TcpUdp.{is_would_block}
use raknet_shim.TcpUdp.Tls.{next_or_end, retry_or_end, Stream, Rustls, Result, complete, handshake}

module _ {A N Q G C K O : Type 0} (rustls : Rustls A N Q G C K O) where
  -- What the documentation of `complete_io` says: of a session that is handshaking, input and output are
  -- performed until the handshake is complete. So a call that succeeds leaves no session handshaking: it
  -- has completed the handshake, or the handshake was complete before, which it stays.
  pub record CompletesHandshake : Type 0 where
    pub completes :
        (s s' : Stream C K) (os os' : O)
        → rustls.complete_io s os ≡ (ok tt, s', os')
        → rustls.is_handshaking s'.sess ≡ false

  -- A result that is not that the call would block.
  abbrev pub IsAnswer : Result C K O → Type 0
  IsAnswer (ok u, s, os) = Unit {0}
  IsAnswer (err kind, s, os) = is_would_block kind ≡ false
  IsAnswer (panic, s, os) = Unit {0}
  IsAnswer (stuck, s, os) = ⊥

  -- The other side lets so many calls of `complete_io` in a row wait, and the next one gives `r`.
  abbrev pub Answers : ℕ → Stream C K → O → Result C K O → Type 0
  Answers zero s os r = (rustls.complete_io s os ≡ r) × IsAnswer r
  Answers (suc n) s os r =
      (kind : ErrorKind) × (s' : Stream C K) × (os' : O) × (rustls.complete_io s os
        ≡ (err kind, s', os'))
      × (is_would_block kind ≡ true)
      × Answers n s' os' r

  retry_or_end-answer :
      (retry : Stream C K → O → Result C K O) (r : Result C K O)
      → IsAnswer r
      → retry_or_end retry r ≡ r
  unfolding retry_or_end
  retry_or_end-answer retry (ok u, s, os) a = refl
  retry_or_end-answer retry (err kind, s, os) a = rw (a, retry_or_end) refl
  retry_or_end-answer retry (panic, s, os) a = refl
  retry_or_end-answer retry (stuck, s, os) a = absurd a

  -- The inner loop waits as long as it must.
  complete-answered :
      (n fuel : ℕ) (s : Stream C K) (os : O) (r : Result C K O)
      → Answers n s os r
      → n < fuel
      → complete rustls fuel s os ≡ r
  unfolding complete retry_or_end
  complete-answered n zero s os r a h = absurd (omega arith)
  complete-answered zero (suc fuel) s os r (e, a) h =
      ap (retry_or_end (complete rustls fuel)) e ∙ retry_or_end-answer (complete rustls fuel) r a
  complete-answered (suc n) (suc fuel) s os r (kind, s', os', e, wait, a) h =
      ap (retry_or_end (complete rustls fuel)) e
      ∙ rw (wait, retry_or_end) (complete-answered n fuel s' os' r a (omega arith))

  -- The outer loop's body ran once.
  once :
      (fuel rounds : ℕ) (r : Result C K O)
      → IsAnswer r
      → (r.0 ≡ ok tt → rustls.is_handshaking r.1.sess ≡ false)
      → next_or_end (handshake rustls fuel (suc rounds)) r ≡ r
  unfolding next_or_end handshake
  once fuel rounds (ok u, s, os) a done = rw (done refl, handshake) refl
  once fuel rounds (err kind, s, os) a done = refl
  once fuel rounds (panic, s, os) a done = refl
  once fuel rounds (stuck, s, os) a done = absurd a

  module _ (laws : CompletesHandshake) where
    completed :
        (s : Stream C K) (os : O) (r : Result C K O)
        → rustls.complete_io s os ≡ r
        → r.0 ≡ ok tt
        → rustls.is_handshaking r.1.sess ≡ false
    completed s os (ok u, s', os') e h = laws.completes s s' os os' e
    completed s os (err kind, s', os') e h = cc
    completed s os (panic, s', os') e h = cc
    completed s os (stuck, s', os') e h = cc

    IsAnswer-completed :
        (n : ℕ) (s : Stream C K) (os : O) (r : Result C K O)
        → Answers n s os r
        → IsAnswer r × (r.0 ≡ ok tt → rustls.is_handshaking r.1.sess ≡ false)
    IsAnswer-completed zero s os r (e, a) = (a, completed s os r e)
    IsAnswer-completed (suc n) s os r (kind, s', os', e, wait, a) = IsAnswer-completed n s' os' r a

    -- Let a session be handshaking, and let the other side make so many calls of `complete_io` wait
    -- before the first that does not. With more rounds of the inner loop than that, and two of the
    -- outer one, the handshake ends with exactly the result of that call, and what it left: it made
    -- the waiting calls and this one, and no other. Where the result is no error, the session is not
    -- handshaking any more. The condition on `complete_io` is that where it succeeds, the handshake is
    -- complete.
    pub handshake-answered :
        (n fuel rounds : ℕ) (s : Stream C K) (os : O) (r : Result C K O)
        → rustls.is_handshaking s.sess ≡ true
        → Answers n s os r
        → n < fuel
        → (handshake rustls fuel (suc (suc rounds)) s os ≡ r)
          × (r.0 ≡ ok tt → rustls.is_handshaking r.1.sess ≡ false)
    unfolding handshake
    handshake-answered n fuel rounds s os r busy a h =
        let (answer, done) = IsAnswer-completed n s os r a in
        (
          rw (busy, handshake)
              (ap (next_or_end (handshake rustls fuel (suc rounds)))
                  (complete-answered n fuel s os r a h)
                ∙ once fuel rounds r answer done),
          done,
        )
