-- ===== src/Bits/Emit.antt =====
-- Writers in sequence, and the bits that a sequence adds.
use raknet_shim.Prelude.{
  ℕ, ◌≡◌, refl, sym, ap, ◌∙◌, Bool, true, false, List, [], ◌∷◌, ◌++◌, append-nil, append_assoc,
  Outcome, ok, err, if◌then◌else◌,
}
use raknet_shim.Prelude as P
use raknet_shim.Bits.{Adds, Emits}

-- One write after the other, as `?` joins them.
infixr 5 ◌>>◌
unfoldable pub ◌>>◌ : {W : Type 0} → (W → Outcome W) → (W → Outcome W) → W → Outcome W
◌>>◌ p q w = P.◌>>=◌ (p w) q

-- no write
unfoldable pub done : {W : Type 0} → W → Outcome W
done w = ok w

module _ {W : Type 0} (bits : W → List Bool) where
  pub Adds->> :
      (p q : W → Outcome W) (w : W) (xs ys : List Bool)
      → Adds bits w (p w) xs
      → ((v : W) → bits v ≡ bits w ++ xs → Adds bits v (q v) ys)
      → Adds bits w ((p >> q) w) (xs ++ ys)
  unfolding ◌>>◌
  Adds->> p q w xs ys (v, e, f) k =
      let (u, g, h) = k v f in (u, rw e g, h ∙ rw f (append_assoc (bits w) xs ys))

  pub Emits->> :
      {p q : W → Outcome W} {xs ys : List Bool}
      → Emits bits p xs
      → Emits bits q ys
      → Emits bits (p >> q) (xs ++ ys)
  Emits->> {p} {q} {xs} {ys} hp hq = record {
    adds = λ w. Adds->> p q w xs ys (hp.adds w) (λ v _. hq.adds v);
  }

  pub done-Emits : Emits bits done []
  unfolding done
  done-Emits = record { adds = λ w. (w, refl, sym (append-nil (bits w))) }

  -- A test on data that the writer and the bits share.
  pub if-Emits :
      (b : Bool) {p q : W → Outcome W} {xs ys : List Bool}
      → Emits bits p xs
      → Emits bits q ys
      → Emits bits (if b then p else q) (if b then xs else ys)
  if-Emits true hp hq = hp
  if-Emits false hp hq = hq
