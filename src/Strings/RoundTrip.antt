-- ===== src/Strings/RoundTrip.antt =====
-- `read_fix` on what `write_fix` wrote (src/string.rs), and what `read_fix` does with any bytes.
use raknet_shim.Prelude.{
  sym, subst, ==_iff, drop-append, take-append, ℕ, zero, suc, ◌+◌, ◌-◌, ◌<◌, ◌≤◌, ◌≡◌, ◌≢◌, inl,
  inr, refl, ap, ◌∙◌, true, false, Option, none, some, List, [], ◌∷◌, ◌++◌, append_assoc, length,
  take, drop, replicate, ltb, ◌==◌, All, length-append, length-replicate, length-take,
  take-append-drop, arith, ok, err, panic, invalid_data, Bool-cases, Option-cases,
}
use raknet_shim.Strings.{Utf8, Write, position_zero, read_text, read_field, read_fix, write_fix}

-- No byte is the terminator.
abbrev pub NoNull : List ℕ → Type 0
NoNull = All (λ b. b ≢ 0)

-- A write that takes all the bytes: the writer's content grows by them.
pub record WriteLaws {W : Type 0} (io : Write W) : Type 0 where
  pub content : W → List ℕ
  pub write_all :
      (bytes : List ℕ) (w : W)
      → (w' : W) × (io.write bytes w ≡ ok w') × (content w' ≡ content w ++ bytes)

ltb-false : (a b : ℕ) → ltb a b ≡ false → b ≤ a
ltb-false a b h = ground arith

position_zero-found :
    (bytes more : List ℕ) → NoNull bytes → position_zero (bytes ++ (0 ∷ more)) ≡ some (length bytes)
unfolding position_zero
position_zero-found [] more h = refl
position_zero-found (b ∷ bytes) more h =
    rw (position_zero-found bytes more h.1) (ground (arith, h.0))

-- The byte at `i` is the first null byte.
abbrev FirstNull : List ℕ → ℕ → Type 0
FirstNull bytes i =
    (after : List ℕ) × (bytes ≡ take i bytes ++ (0 ∷ after))
    × NoNull (take i bytes)
    × (i + 1 + length after ≡ length bytes)

FirstNull-cons :
    (b : ℕ) (bytes : List ℕ) (i : ℕ)
    → (b == 0) ≡ false
    → FirstNull bytes i
    → FirstNull (b ∷ bytes) (suc i)
FirstNull-cons b bytes i other (after, e, h, size) =
    (after, ap (◌∷◌ b) e, ((λ z. cc (other, (==_iff b 0).1 z)), h), omega (arith, size))

position_zero-first : (bytes : List ℕ) (i : ℕ) → position_zero bytes ≡ some i → FirstNull bytes i
unfolding position_zero
position_zero-first [] i e = cc
position_zero-first (b ∷ bytes) i e = elim (Bool-cases (b == 0)) [
  | inl null ↦
      let first : some 0 ≡ some i = rw null at e in
      let here : 0 ≡ i = cc in
      subst (FirstNull (b ∷ bytes)) here
        (bytes, ap (λ x. x ∷ bytes) ((==_iff b 0).0 null), tt, omega arith)
  | inr other ↦ elim (Option-cases (position_zero bytes)) [
    | inl nowhere ↦ let never : none ≡ some i = rw (other, nowhere) at e in cc
    | inr (j, f) ↦
        let found : some (j + 1) ≡ some i = rw (other, f) at e in
        let step : j + 1 ≡ i = cc in
        let next : suc j ≡ i = omega (arith, step) in
        subst (FirstNull (b ∷ bytes)) next
          (FirstNull-cons b bytes j other (position_zero-first bytes j f))
  ]
]

-- The 33 bytes of a string.
abbrev pub field : List ℕ → List ℕ
field bytes = bytes ++ replicate (33 - length bytes) 0

pub length-field : (bytes : List ℕ) → length bytes ≤ 32 → length (field bytes) ≡ 33
length-field bytes h = omega (
  arith,
  length-append bytes (replicate (33 - length bytes) 0),
  length-replicate {A = ℕ} (33 - length bytes) 0,
)

position_zero-field :
    (bytes : List ℕ) (n : ℕ)
    → 0 < n
    → NoNull bytes
    → position_zero (bytes ++ replicate n 0) ≡ some (length bytes)
position_zero-field bytes zero pos h = absurd (omega arith)
position_zero-field bytes (suc n) pos h = position_zero-found bytes (replicate n 0) h

module _ ⦃utf8 : Utf8⦄ where
  pub read_fix_short : (reader : List ℕ) → length reader < 33 → read_fix reader ≡ panic
  unfolding read_fix
  read_fix_short reader h =
      let short : ltb (length reader) 33 ≡ true = ground arith in rw short refl

  pub read_fix-field :
      (bytes more : List ℕ)
      → length bytes ≤ 32
      → NoNull bytes
      → utf8.is_utf8 bytes ≡ true
      → read_fix (field bytes ++ more) ≡ ok (bytes, more)
  unfolding read_fix read_field read_text
  read_fix-field bytes more short h valid =
      let size = length-field bytes short in
      let long : ltb (length (field bytes ++ more)) 33 ≡ false =
        ground (arith, length-append (field bytes) more, size) in
      rw
        (
          long,
          take-append 33 (field bytes) more size,
          drop-append 33 (field bytes) more size,
          position_zero-field bytes (33 - length bytes) (omega arith) h,
          read_field,
          take-append 33 (field bytes) more size,
          take-append (length bytes) bytes (replicate (33 - length bytes) 0) refl,
          valid,
        )
        refl

  text_sound :
      (t b text rest : List ℕ)
      → read_text t b ≡ ok (text, rest)
      → (t ≡ text) × (b ≡ rest) × (utf8.is_utf8 text ≡ true)
  unfolding read_text
  text_sound t b text rest e = elim (Bool-cases (utf8.is_utf8 t)) [
    | inl valid ↦
        let same : ok (t, b) ≡ ok (text, rest) = rw valid at e in
        let t_is : t ≡ text = cc in let b_is : b ≡ rest = cc in (t_is, b_is, rw⁻¹ t_is valid)
    | inr invalid ↦ let never : err invalid_data ≡ ok (text, rest) = rw invalid at e in cc
  ]

  field_sound :
      (reader text rest a : List ℕ) (o : Option ℕ)
      → a ++ drop 33 reader ≡ reader
      → length a ≡ 33
      → position_zero a ≡ o
      → read_field a o (drop 33 reader) ≡ ok (text, rest)
      → (after : List ℕ) × (reader ≡ text ++ ((0 ∷ after) ++ rest))
        × (length text + length after ≡ 32)
        × NoNull text
        × (utf8.is_utf8 text ≡ true)
  unfolding read_field
  field_sound reader text rest a none split size o e = cc
  field_sound reader text rest a (some i) split size o e =
      let (t, b, valid) = text_sound (take i a) (drop 33 reader) text rest e in
      let (after, parts, h, count) = position_zero-first a i o in
      (
        after,
        sym split
            ∙ rw b (
                ap (λ x. x ++ rest) (parts ∙ ap (λ x. x ++ (0 ∷ after)) t)
                ∙ append_assoc text (0 ∷ after) rest),
        omega (arith, ap length t, length-take i a, count, size),
        rw t at h,
        valid,
      )

  -- Where reading succeeds, what was read was there: a valid string without a null byte, its
  -- terminator, bytes that are ignored, 33 in all, and then what is left.
  pub read_fix_sound :
      (reader text rest : List ℕ)
      → read_fix reader ≡ ok (text, rest)
      → (after : List ℕ) × (reader ≡ text ++ ((0 ∷ after) ++ rest))
        × (length text + length after ≡ 32)
        × NoNull text
        × (utf8.is_utf8 text ≡ true)
  unfolding read_fix read_field read_text
  read_fix_sound reader text rest e = elim (Bool-cases (ltb (length reader) 33)) [
    | inl short ↦ let never : panic ≡ ok (text, rest) = rw short at e in cc
    | inr long ↦
        field_sound reader text rest (take 33 reader) (position_zero (take 33 reader))
          (take-append-drop 33 reader) (omega (arith, length-take 33 reader, ltb-false _ _ long))
          refl (rw long at e)
  ]

module _ {W : Type 0} ⦃utf8 : Utf8⦄ ⦃io : Write W⦄ (laws : WriteLaws io) where
  -- A valid string of at most 32 bytes without a null byte is written as 33 bytes, and whatever
  -- follows these, it is read back, and what follows is left.
  pub read_fix-write_fix :
      (bytes : List ℕ) (w : W)
      → length bytes ≤ 32
      → NoNull bytes
      → utf8.is_utf8 bytes ≡ true
      → (w' : W) × (written : List ℕ) × (write_fix bytes w ≡ ok w')
        × (laws.content w' ≡ laws.content w ++ written)
        × (length written ≡ 33)
        × ((more : List ℕ) → read_fix (written ++ more) ≡ ok (bytes, more))
  unfolding write_fix
  read_fix-write_fix bytes w short h valid =
      let fits : ltb 32 (length bytes) ≡ false = ground arith in
      let (v, e, added) = laws.write_all bytes w in
      let (u, f, padded) = laws.write_all (replicate (33 - length bytes) 0) v in
      (
        u,
        field bytes,
        rw (fits, e, f) refl,
        padded ∙ rw added (append_assoc (laws.content w) bytes _),
        length-field bytes short,
        λ more. read_fix-field bytes more short h valid,
      )
