-- ===== src/Bridge/Patch.antt =====
-- What `scan_packets` of src/bridge.rs writes into a packet, byte for byte.
use raknet_shim.Prelude.{
  drop-append, ℕ, zero, suc, ◌+◌, ◌-◌, ◌≤◌, ◌≡◌, refl, ap, ◌∙◌, false, List, [], ◌∷◌, ◌++◌,
  append_assoc, length, take, drop, replicate, length-replicate, length-take, length-drop, arith,
  ok, err, unexpected_eof, ltb, if◌then◌else◌, IsU16,
}
use raknet_shim.Strings.{write_fix}
use raknet_shim.Strings.RoundTrip.{length-field, field}
use raknet_shim.TcpUdp.{read_into, from_le_bytes, le_bytes}
use raknet_shim.TcpUdp.Framing.{take-all, length-read_into}
use raknet_shim.Bridge.{Shorts, SocketAddrs, write_host, write_port, write_addr, loopback}

-- Lowest byte first; a slice that is too short cannot be read.
pub record ShortsLaws (shorts : Shorts) : Type 0 where
  pub read_u16_lem :
      (bytes : List ℕ)
      → shorts.read_u16 bytes
        ≡ (if ltb (length bytes) 2 then err unexpected_eof else ok (from_le_bytes (take 2 bytes)))
  pub write_u16_lem :
      (v : ℕ) (bytes : List ℕ)
      → 2 ≤ length bytes
      → shorts.write_u16 v bytes ≡ ok (le_bytes 2 v ++ drop 2 bytes)

drop-drop : (i n : ℕ) (xs : List ℕ) → drop n (drop i xs) ≡ drop (i + n) xs
drop-drop zero n xs = let e : 0 + n ≡ n = omega arith in rw e refl
drop-drop (suc i) zero [] = let e : suc i + 0 ≡ suc i = omega arith in rw e refl
drop-drop (suc i) (suc n) [] = let e : suc i + suc n ≡ suc (i + suc n) = omega arith in rw e refl
drop-drop (suc i) n (x ∷ xs) =
    let e : suc i + n ≡ suc (i + n) = omega arith in rw e (drop-drop i n xs)

-- Behind the place where it is written.
drop-read_into_self :
    (i : ℕ) (xs new : List ℕ)
    → i ≤ length xs
    → drop i (read_into xs i new) ≡ new ++ drop (i + length new) xs
drop-read_into_self i xs new h = drop-append i (take i xs) _ (omega (arith, length-take i xs))

read_into-append :
    (xs rest new : List ℕ) (k : ℕ)
    → read_into (xs ++ rest) (length xs + k) new ≡ xs ++ read_into rest k new
read_into-append [] rest new k = let e : 0 + k ≡ k = omega arith in rw e refl
read_into-append (x ∷ xs) rest new k =
    let e : suc (length xs) + k ≡ suc (length xs + k) = omega arith in
    let f : suc (length xs + k) + length new ≡ suc (length xs + k + length new) = omega arith in
    rw (e, f) (ap (◌∷◌ x) (read_into-append xs rest new k))

drop-read_into :
    (i m : ℕ) (xs new : List ℕ)
    → i ≤ length xs
    → drop i (read_into xs (i + m) new) ≡ read_into (drop i xs) m new
drop-read_into zero m xs new h = let e : 0 + m ≡ m = omega arith in rw e refl
drop-read_into (suc i) m [] new h = absurd (omega arith)
drop-read_into (suc i) m (x ∷ xs) new h =
    let e : suc i + m ≡ suc (i + m) = omega arith in
    let f : suc (i + m) + length new ≡ suc (i + m + length new) = omega arith in
    rw (e, f) (drop-read_into i m xs new (omega arith))

-- A host that is written in a slice with room for it.
write_host_lem :
    (host : List ℕ) (i : ℕ) (bytes : List ℕ)
    → length host ≤ 32
    → i + 33 ≤ length bytes
    → write_host host i bytes ≡ ok (read_into bytes i (field host))
unfolding write_host write_fix
write_host_lem host i bytes short room =
    let fits : ltb 32 (length host) ≡ false = ground arith in
    let zeros : List ℕ = replicate (33 - length host) 0 in
    let many : length zeros ≡ 33 - length host = length-replicate {A = ℕ} (33 - length host) 0 in
    let size : length (field host) ≡ 33 = length-field host short in
    let end : drop (length zeros) (drop (length host) (drop i bytes))
        ≡ drop (i + length (field host)) bytes =
      drop-drop (length host) (length zeros) (drop i bytes)
      ∙ drop-drop i (length host + length zeros) bytes
      ∙ ap (λ n. drop n bytes) (omega (arith, many, size, short)) in
    rw
      (
        fits,
        take-all host (length (drop i bytes)) (omega (arith, length-drop i bytes, room, short)),
        take-all zeros (length (drop (length host) (drop i bytes))) (
            omega (
              arith,
              many,
              length-drop i bytes,
              length-drop (length host) (drop i bytes),
              room,
              short,
            )),
        end,
      )
      (ap ok (
        ap (λ x. x ++ drop (i + length (field host)) bytes) (append_assoc (take i bytes) host zeros)
        ∙ append_assoc (take i bytes) (field host) (drop (i + length (field host)) bytes)))

-- The bytes with another host and another port.
abbrev pub patched : List ℕ → ℕ → ℕ → ℕ → List ℕ → List ℕ
patched host port i j bytes = read_into (read_into bytes i (field host)) j (le_bytes 2 port)

module _ (host : List ℕ) (port i m : ℕ) (bytes : List ℕ) (short : length host ≤ 32)
    (room : i + 33 + m + 2 ≤ length bytes) where
  pub length-patched : length (patched host port i (i + 33 + m) bytes) ≡ length bytes
  length-patched =
      let size = length-field host short in
      let same = length-read_into bytes (field host) i (omega (arith, size, room)) in
      length-read_into (read_into bytes i (field host)) (le_bytes 2 port) (i + 33 + m)
        (unfold le_bytes in omega (arith, same, room))
      ∙ same

  -- The host stands where it was written, and the port behind it.
  pub drop-patched_host :
      drop i (patched host port i (i + 33 + m) bytes)
      ≡ field host ++ read_into (drop (i + 33) bytes) m (le_bytes 2 port)
  drop-patched_host =
      let size = length-field host short in
      let same = length-read_into bytes (field host) i (omega (arith, size, room)) in
      let e : i + 33 + m ≡ i + (length (field host) + m) = omega (arith, size) in
      ap (λ n. drop i (read_into (read_into bytes i (field host)) n (le_bytes 2 port))) e
      ∙ drop-read_into i (length (field host) + m) (read_into bytes i (field host))
          (le_bytes 2 port) (omega (arith, same, room))
      ∙ ap (λ x. read_into x (length (field host) + m) (le_bytes 2 port))
          (drop-read_into_self i bytes (field host) (omega (arith, room)))
      ∙ read_into-append (field host) (drop (i + length (field host)) bytes) (le_bytes 2 port) m
      ∙ ap (λ n. field host ++ read_into (drop (i + n) bytes) m (le_bytes 2 port)) size

  pub drop-patched_port :
      drop (i + 33 + m) (patched host port i (i + 33 + m) bytes)
      ≡ le_bytes 2 port
        ++ drop (i + 33 + m + length (le_bytes 2 port)) (read_into bytes i (field host))
  drop-patched_port =
      let size = length-field host short in
      let same = length-read_into bytes (field host) i (omega (arith, size, room)) in
      drop-read_into_self (i + 33 + m) (read_into bytes i (field host)) (le_bytes 2 port)
        (omega (arith, same, room))

from_le_bytes-le_bytes : (port : ℕ) → IsU16 port → from_le_bytes (le_bytes 2 port) ≡ port
unfolding from_le_bytes le_bytes
from_le_bytes-le_bytes port h = omega arith

module _ ⦃shorts : Shorts⦄ (laws : ShortsLaws shorts) where
  pub read_u16-le_bytes :
      (port : ℕ) (more : List ℕ) → IsU16 port → shorts.read_u16 (le_bytes 2 port ++ more) ≡ ok port
  read_u16-le_bytes port more h =
      laws.read_u16_lem (le_bytes 2 port ++ more)
      ∙ unfold le_bytes in
        (let long : ltb (suc (suc (length more))) 2 ≡ false = ground arith in
          rw long (ap ok (from_le_bytes-le_bytes port h)))

  write_port_lem :
      (port j : ℕ) (bytes : List ℕ)
      → j + 2 ≤ length bytes
      → write_port port j bytes ≡ ok (read_into bytes j (le_bytes 2 port))
  unfolding write_port
  write_port_lem port j bytes room =
      rw
        (
          laws.write_u16_lem port (drop j bytes) (omega (arith, length-drop j bytes, room)),
          drop-drop j 2 bytes,
        )
        (unfold le_bytes in refl)

  module _ {A : Type 0} ⦃addresses : SocketAddrs A⦄ where
    pub write_addr_lem :
        (addr : A) (i m : ℕ) (bytes : List ℕ)
        → i + 33 + m + 2 ≤ length bytes
        → write_addr addr i (i + 33 + m) bytes
          ≡ ok (patched loopback (addresses.port addr) i (i + 33 + m) bytes)
    unfolding write_addr
    write_addr_lem addr i m bytes room =
        let small : length loopback ≤ 32 = omega arith in
        let size = length-field loopback small in
        let same = length-read_into bytes (field loopback) i (omega (arith, size, room)) in
        rw (write_host_lem loopback i bytes small (omega (arith, room)))
          (write_port_lem (addresses.port addr) (i + 33 + m) _ (omega (arith, same, room)))
