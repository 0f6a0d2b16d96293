-- ===== src/TcpUdp/Rounds.antt =====
-- One round of `receive_tcp` of src/tcpudp/mod.rs: a whole message comes, or the stream has nothing more.
use raknet_shim.Prelude.{
  take-append, ℕ, suc, ◌+◌, ◌<◌, ◌≤◌, ◌≡◌, ◌⊎◌, inl, inr, refl, sym, ap, ◌∙◌, Bool, true, false,
  List, [], ◌∷◌, ◌++◌, append_assoc, append-nil, length, take, replicate, length-append,
  length-replicate, length-take, arith, ok, would_block,
}
use raknet_shim.Packet.{Packet, reliable_ordered}
use raknet_shim.TcpUdp.{
  Tcp, fill, BufferOffset, Progress, ready, halted, read_length, read_data, receive_tcp,
  from_le_bytes, emptied,
}
use raknet_shim.TcpUdp.Framing.{TcpLaws, Full, Short, fill_lem}

-- The bytes of a message that has come in part.
abbrev pub partial : BufferOffset → List ℕ
partial p = elim p.reading_length [
  | true ↦ take p.offset p.length_bytes
  | false ↦ p.length_bytes ++ take p.offset p.buffer
]

-- Something is still missing, of the length or of the data.
abbrev pub Missing : Bool → BufferOffset → Type 0
Missing true p = p.offset < 4
Missing false p = (p.offset < length p.buffer) × (from_le_bytes p.length_bytes ≡ length p.buffer)

pub record IsPartial (p : BufferOffset) : Type 0 where
  pub four : length p.length_bytes ≡ 4
  pub missing : Missing p.reading_length p

-- The length is known, and the data may be whole.
record KnowsLength (p : BufferOffset) : Type 0 where
  pub mode : p.reading_length ≡ false
  pub four : length p.length_bytes ≡ 4
  pub within : p.offset ≤ length p.buffer
  pub announced : from_le_bytes p.length_bytes ≡ length p.buffer

-- Less has come of a message than the whole of it.
pub partial-shorter :
    (p left : BufferOffset) (xs ys : List ℕ) (mode : Bool)
    → p.reading_length ≡ mode
    → IsPartial p
    → length left.length_bytes ≡ 4
    → from_le_bytes left.length_bytes ≡ length left.buffer
    → partial p ++ xs ≡ left.length_bytes ++ ys
    → length (partial p) < 4 + length left.buffer
partial-shorter p left xs ys true e h four announced same =
    let below : p.offset < 4 = rw e at h.missing in
    rw e (omega (arith, below, length-take p.offset p.length_bytes))
partial-shorter p left xs ys false e h four announced same =
    let missing : Missing false p = rw e at h.missing in
    let same' : (p.length_bytes ++ take p.offset p.buffer) ++ xs ≡ left.length_bytes ++ ys =
      rw e at same in
    let header : p.length_bytes ≡ left.length_bytes =
      sym (take-append 4 p.length_bytes (take p.offset p.buffer ++ xs) h.four)
      ∙ ap (take 4) (sym (append_assoc p.length_bytes (take p.offset p.buffer) xs) ∙ same')
      ∙ take-append 4 left.length_bytes ys four in
    rw e (
      omega (
        arith,
        missing,
        announced,
        h.four,
        ap from_le_bytes header,
        length-append p.length_bytes (take p.offset p.buffer),
        length-take p.offset p.buffer,
      ))

module _ {T : Type 0} ⦃tcp : Tcp T⦄ (laws : TcpLaws tcp) where
  open laws use {pending}

  -- Nothing more comes for now.
  record Halts (p : BufferOffset) (t : T) (o : Progress T) : Type 0 where
    pub left : BufferOffset
    pub after : T
    pub result : o ≡ halted would_block left after
    pub is_partial : IsPartial left
    pub bytes : partial p ++ pending t ≡ partial left
    pub rest : pending after ≡ []

  record KnowsNow (p : BufferOffset) (t : T) (o : Progress T) : Type 0 where
    pub left : BufferOffset
    pub after : T
    pub result : o ≡ ready left after
    pub knows : KnowsLength left
    pub bytes : partial p ++ pending t ≡ partial left ++ pending after

  length-KnowsNow :
      (p : BufferOffset) (t : T)
      → p.reading_length ≡ true
      → Full laws p.length_bytes p.offset t (fill 4 p.length_bytes p.offset t)
      → length p.length_bytes ≡ 4
      → KnowsNow p t (read_length p t)
  unfolding read_length
  length-KnowsNow p t e f four = record {
    left = record {
      reading_length = false;
      offset = 0;
      length_bytes = f.bytes;
      buffer = replicate (from_le_bytes f.bytes) 0;
    };
    after = f.after;
    result = rw (e, read_length, f.result) refl;
    knows = record {
      mode = refl;
      four = f.size ∙ four;
      within = omega arith;
      announced = sym (length-replicate (from_le_bytes f.bytes) 0);
    };
    bytes =
        rw (e, f.rest, append-nil f.bytes)
          (sym (append_assoc (take p.offset p.length_bytes) f.read (pending f.after))
            ∙ ap (λ x. x ++ pending f.after) (sym f.content));
  }

  length-Halts :
      (p : BufferOffset) (t : T)
      → p.reading_length ≡ true
      → Short laws p.length_bytes p.offset t (fill 4 p.length_bytes p.offset t)
      → length p.length_bytes ≡ 4
      → Halts p t (read_length p t)
  unfolding read_length
  length-Halts p t e f four = record {
    left = record p { length_bytes = f.bytes; offset = f.reached };
    after = f.after;
    result = rw (e, read_length, f.result) (rw e refl);
    is_partial = record { four = f.size ∙ four; missing = rw e (omega (arith, f.below, four)) };
    bytes = rw e (sym f.content);
    rest = f.rest;
  }

  read_length_lem :
      (p : BufferOffset) (t : T) (mode : Bool)
      → p.reading_length ≡ mode
      → IsPartial p
      → KnowsNow p t (read_length p t) ⊎ Halts p t (read_length p t)
  unfolding read_length
  read_length_lem p t false e h = inl (record {
    left = p;
    after = t;
    result = rw e refl;
    knows = record {
      mode = e;
      four = h.four;
      within = omega (arith, (rw e at h.missing).0);
      announced = (rw e at h.missing).1;
    };
    bytes = refl;
  })
  read_length_lem p t true e h =
      let below : p.offset < 4 = rw e at h.missing in
      elim (fill_lem laws 4 p.length_bytes p.offset t (omega (arith, below, h.four))
        (omega (arith, h.four))) [
          | inl f ↦ inl (length-KnowsNow p t e f h.four)
          | inr f ↦ inr (length-Halts p t e f h.four)
        ]

  -- A whole message has come.
  record Comes (p : BufferOffset) (t : T) (o : Progress T) : Type 0 where
    pub left : BufferOffset
    pub after : T
    pub result : o ≡ ready left after
    pub four : length left.length_bytes ≡ 4
    pub announced : from_le_bytes left.length_bytes ≡ length left.buffer
    pub bytes : partial p ++ pending t ≡ left.length_bytes ++ (left.buffer ++ pending after)

  read_data_lem :
      (p : BufferOffset) (t : T)
      → KnowsLength p
      → Comes p t (read_data p t) ⊎ Halts p t (read_data p t)
  unfolding read_data
  read_data_lem p t h =
      elim (fill_lem laws (length p.buffer) p.buffer p.offset t h.within (omega arith)) [
        | inl f ↦ inl (record {
          left = record p { buffer = f.bytes };
          after = f.after;
          result = rw (read_data, f.result) refl;
          four = h.four;
          announced = h.announced ∙ sym f.size;
          bytes =
              rw (h.mode, f.rest)
                (append_assoc p.length_bytes (take p.offset p.buffer) (f.read ++ pending f.after)
                  ∙ ap (◌++◌ p.length_bytes) (
                      sym (append_assoc (take p.offset p.buffer) f.read (pending f.after))
                      ∙ ap (λ x. x ++ pending f.after) (sym f.content)));
        })
        | inr f ↦ inr (record {
          left = record p { buffer = f.bytes; offset = f.reached };
          after = f.after;
          result = rw (read_data, f.result) refl;
          is_partial = record {
            four = h.four;
            missing = rw h.mode (omega (arith, f.below, f.size), h.announced ∙ sym f.size);
          };
          bytes = rw h.mode (
              append_assoc p.length_bytes (take p.offset p.buffer) (pending t)
              ∙ ap (◌++◌ p.length_bytes) (sym f.content));
          rest = f.rest;
        })
      ]

  -- One round.
  pub record Round (fuel : ℕ) (p : BufferOffset) (t : T) (packets : List Packet) : Type 0 where
    pub left : BufferOffset
    pub after : T
    pub result :
        receive_tcp (suc fuel) p t packets
        ≡ receive_tcp fuel
            (emptied left)
            after
            (packets ++ (record { reliability = reliable_ordered; bytes = left.buffer } ∷ []))
    pub four : length left.length_bytes ≡ 4
    pub announced : from_le_bytes left.length_bytes ≡ length left.buffer
    pub bytes : partial p ++ pending t ≡ left.length_bytes ++ (left.buffer ++ pending after)

  pub record Stops (fuel : ℕ) (p : BufferOffset) (t : T) (packets : List Packet) : Type 0 where
    pub left : BufferOffset
    pub after : T
    pub result : receive_tcp (suc fuel) p t packets ≡ ok (would_block, (left, after, packets))
    pub is_partial : IsPartial left
    pub bytes : partial p ++ pending t ≡ partial left
    pub rest : pending after ≡ []

  pub round_lem :
      (fuel : ℕ) (p : BufferOffset) (t : T) (packets : List Packet)
      → IsPartial p
      → Round fuel p t packets ⊎ Stops fuel p t packets
  unfolding receive_tcp
  round_lem fuel p t packets h = elim (read_length_lem p t p.reading_length refl h) [
    | inr s ↦ inr (record {
      left = s.left;
      after = s.after;
      result = rw (receive_tcp, s.result) refl;
      is_partial = s.is_partial;
      bytes = s.bytes;
      rest = s.rest;
    })
    | inl k ↦ elim (read_data_lem k.left k.after k.knows) [
      | inl c ↦ inl (record {
        left = c.left;
        after = c.after;
        result = rw (receive_tcp, k.result, c.result) refl;
        four = c.four;
        announced = c.announced;
        bytes = k.bytes ∙ c.bytes;
      })
      | inr s ↦ inr (record {
        left = s.left;
        after = s.after;
        result = rw (receive_tcp, k.result, s.result) refl;
        is_partial = s.is_partial;
        bytes = k.bytes ∙ s.bytes;
        rest = s.rest;
      })
    ]
  ]
