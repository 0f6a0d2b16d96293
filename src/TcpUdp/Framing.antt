-- ===== src/TcpUdp/Framing.antt =====
-- The messages that `receive_tcp` of src/tcpudp/mod.rs takes from a stream, in whatever pieces it
-- comes.
use raknet_shim.Prelude.{
  ltb→lt, ℕ, zero, suc, ◌+◌, ◌-◌, ◌<◌, ◌≤◌, ◌≡◌, ◌≢◌, ◌⊎◌, inl, inr, refl, sym, ap, ◌∙◌, true,
  false, List, [], ◌∷◌, ◌++◌, append_assoc, append-nil, length, take, drop, ltb, Bool-cases,
  length-append, length-take, length-drop, take-append, arith, would_block,
}
use raknet_shim.TcpUdp.{Tcp, got, failed, Filled, full, partly, fill, read_into}

-- A stream that has some bytes to give, in pieces of any size, and then has none for now.
pub record TcpLaws {T : Type 0} (tcp : Tcp T) : Type 0 where
  pub pending : T → List ℕ
  pub read_none :
      (n : ℕ) (t : T)
      → pending t ≡ []
      → (t' : T) × (tcp.read n t ≡ (failed would_block, t')) × (pending t' ≡ [])
  pub read_some :
      (n : ℕ) (t : T)
      → 0 < n
      → pending t ≢ []
      → (b : ℕ) × (bs : List ℕ) × (t' : T) × (tcp.read n t ≡ (got (b ∷ bs), t'))
        × (length (b ∷ bs) ≤ n)
        × (pending t ≡ (b ∷ bs) ++ pending t')

ltb-ge : (a b : ℕ) → ltb a b ≡ false → b ≤ a
ltb-ge a b h = ground arith

pub List-cases : (xs : List ℕ) → (xs ≡ []) ⊎ (xs ≢ [])
List-cases [] = inl refl
List-cases (x ∷ xs) = inr (λ e. cc)

pub take-all : (xs : List ℕ) (n : ℕ) → length xs ≤ n → take n xs ≡ xs
take-all [] zero h = refl
take-all [] (suc n) h = refl
take-all (x ∷ xs) zero h = absurd (omega arith)
take-all (x ∷ xs) (suc n) h = ap (◌∷◌ x) (take-all xs n (omega arith))

module _ (buffer bytes : List ℕ) (offset : ℕ) (room : offset + length bytes ≤ length buffer) where
  pub length-read_into : length (read_into buffer offset bytes) ≡ length buffer
  length-read_into = omega (
    arith,
    room,
    length-append (take offset buffer) (bytes ++ drop (offset + length bytes) buffer),
    length-append bytes (drop (offset + length bytes) buffer),
    length-take offset buffer,
    length-drop (offset + length bytes) buffer,
  )

  pub take-read_into :
      take (offset + length bytes) (read_into buffer offset bytes) ≡ take offset buffer ++ bytes
  take-read_into =
      ap (take (offset + length bytes))
        (sym (append_assoc (take offset buffer) bytes (drop (offset + length bytes) buffer)))
      ∙ take-append (offset + length bytes) (take offset buffer ++ bytes) _
          (omega (arith, room, length-append (take offset buffer) bytes, length-take offset buffer))

module _ {T : Type 0} ⦃tcp : Tcp T⦄ (laws : TcpLaws tcp) where
  open laws use {pending, read_none, read_some}

  -- The buffer is full.
  pub record Full (buffer : List ℕ) (offset : ℕ) (t : T) (o : Filled T) : Type 0 where
    pub bytes : List ℕ
    pub read : List ℕ
    pub after : T
    pub result : o ≡ full bytes after
    pub size : length bytes ≡ length buffer
    pub content : bytes ≡ take offset buffer ++ read
    pub rest : pending t ≡ read ++ pending after

  -- The stream has nothing more for now.
  pub record Short (buffer : List ℕ) (offset : ℕ) (t : T) (o : Filled T) : Type 0 where
    pub bytes : List ℕ
    pub reached : ℕ
    pub after : T
    pub result : o ≡ partly would_block bytes reached after
    pub size : length bytes ≡ length buffer
    pub below : reached < length buffer
    pub content : take reached bytes ≡ take offset buffer ++ pending t
    pub rest : pending after ≡ []

  fill-Full :
      (rounds : ℕ) (buffer : List ℕ) (offset : ℕ) (t : T)
      → length buffer ≤ offset
      → Full buffer offset t (fill rounds buffer offset t)
  unfolding fill
  fill-Full rounds buffer offset t h = record {
    bytes = buffer;
    read = [];
    after = t;
    result = done rounds;
    size = refl;
    content = sym (append-nil _ ∙ take-all buffer offset h);
    rest = refl;
  }
    where
      past : ltb offset (length buffer) ≡ false
      past = ground arith

      done : (n : ℕ) → fill n buffer offset t ≡ full buffer t
      done zero = rw past refl
      done (suc n) = rw (past, fill) refl

  fill-Short :
      (rounds : ℕ) (buffer : List ℕ) (offset : ℕ) (t : T)
      → ltb offset (length buffer) ≡ true
      → pending t ≡ []
      → Short buffer offset t (fill (suc rounds) buffer offset t)
  unfolding fill
  fill-Short rounds buffer offset t more none_left =
      let (t', e, left) = read_none (length buffer - offset) t none_left in
      record {
        bytes = buffer;
        reached = offset;
        after = t';
        result = rw (more, e, fill, e) refl;
        size = refl;
        below = ltb→lt _ _ more;
        content = sym (ap (◌++◌ (take offset buffer)) none_left ∙ append-nil _);
        rest = left;
      }

  -- What follows a read, seen from before it.
  fill-more :
      (buffer : List ℕ) (offset : ℕ) (t t' : T) (bytes : List ℕ) (o : Filled T) {o' : Filled T}
      → offset + length bytes ≤ length buffer
      → pending t ≡ bytes ++ pending t'
      → o ≡ o'
      → Full (read_into buffer offset bytes) (offset + length bytes) t' o'
        ⊎ Short (read_into buffer offset bytes) (offset + length bytes) t' o'
      → Full buffer offset t o ⊎ Short buffer offset t o
  fill-more buffer offset t t' bytes o room came e (inl f) = inl (record {
    bytes = f.bytes;
    read = bytes ++ f.read;
    after = f.after;
    result = e ∙ f.result;
    size = f.size ∙ length-read_into buffer bytes offset room;
    content =
        f.content
        ∙ ap (λ x. x ++ f.read) (take-read_into buffer bytes offset room)
        ∙ append_assoc (take offset buffer) bytes f.read;
    rest = came ∙ ap (◌++◌ bytes) f.rest ∙ sym (append_assoc bytes f.read (pending f.after));
  })
  fill-more buffer offset t t' bytes o room came e (inr f) = inr (record {
    bytes = f.bytes;
    reached = f.reached;
    after = f.after;
    result = e ∙ f.result;
    size = f.size ∙ length-read_into buffer bytes offset room;
    below = omega (arith, f.below, length-read_into buffer bytes offset room);
    content =
        f.content
        ∙ ap (λ x. x ++ pending t') (take-read_into buffer bytes offset room)
        ∙ append_assoc (take offset buffer) bytes (pending t')
        ∙ sym (ap (◌++◌ (take offset buffer)) came);
    rest = f.rest;
  })

  fill-step :
      (rounds : ℕ) (buffer : List ℕ) (offset : ℕ) (t t' : T) (b : ℕ) (bs : List ℕ)
      → ltb offset (length buffer) ≡ true
      → tcp.read (length buffer - offset) t ≡ (got (b ∷ bs), t')
      → fill (suc rounds) buffer offset t
        ≡ fill rounds (read_into buffer offset (b ∷ bs)) (offset + length (b ∷ bs)) t'
  unfolding fill
  fill-step rounds buffer offset t t' b bs more e =
      rw (more, e, fill)
        (ap (λ x. fill rounds (read_into buffer offset (b ∷ bs)) (offset + length (b ∷ bs)) x.1) e)

  pub fill_lem :
      (rounds : ℕ) (buffer : List ℕ) (offset : ℕ) (t : T)
      → offset ≤ length buffer
      → length buffer ≤ offset + rounds
      → Full buffer offset t (fill rounds buffer offset t)
        ⊎ Short buffer offset t (fill rounds buffer offset t)
  unfolding fill
  fill_lem zero buffer offset t h r = inl (fill-Full zero buffer offset t (omega arith))
  fill_lem (suc rounds) buffer offset t h r = elim (Bool-cases (ltb offset (length buffer))) [
    | inl more ↦ elim (List-cases (pending t)) [
      | inl none_left ↦ inr (fill-Short rounds buffer offset t more none_left)
      | inr some_left ↦
          let room = ltb→lt _ _ more in
          let (b, bs, t', e, fits, came) =
            read_some (length buffer - offset) t (omega (arith, room)) some_left in
          let at_most : offset + length (b ∷ bs) ≤ length buffer = omega (arith, room, fits) in
          let same : length (read_into buffer offset (b ∷ bs)) ≡ length buffer =
            length-read_into buffer (b ∷ bs) offset at_most in
          fill-more buffer offset t t' (b ∷ bs) _ at_most came
            (fill-step rounds buffer offset t t' b bs more e)
            (fill_lem rounds (read_into buffer offset (b ∷ bs)) (offset + length (b ∷ bs)) t'
              (omega (arith, same, at_most)) (omega (arith, same, r)))
    ]
    | inr past ↦ inl (fill-Full (suc rounds) buffer offset t (ltb-ge _ _ past))
  ]
