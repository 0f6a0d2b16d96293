-- ===== src/Raknet/Connection/Ends.antt =====
-- `handle_datagram` of src/raknet/connection.rs ends on any bytes.
use raknet_shim.Prelude.{
  ℕ, zero, suc, ◌+◌, ◌*◌, ◌<◌, ◌≤◌, ◌≡◌, ap, arith, List, [], ◌∷◌, length, Bool, true, false,
  Outcome, ok, err, panic, stuck, IsByte, All,
}
use raknet_shim.Prelude as P
use raknet_shim.Prelude.Ends.{Ends, Ends->>=, Ends-ne}
use raknet_shim.Bits.{BitRead, BitReadLaws}
use raknet_shim.Bits.Digits.{length-bytes_bits}
use raknet_shim.Bits.Consume.{
  Within, Consumes, Consumes-le, any-Consumes, pure-Consumes, read_bit-Consumes, read_int-Consumes,
}
use raknet_shim.Raknet.RangeList.Codec.Consume.{ranges-Consumes}
use raknet_shim.Raknet.Packet.{RaknetPacket}
use raknet_shim.Raknet.Packet as RakPacket
use raknet_shim.Raknet.Packet.Consume.{packet-Consumes}
use raknet_shim.Raknet.Recv.Ends.{process_incoming_packets-Ends}
use raknet_shim.Raknet.Connection.{
  Connection, and_parse, parse_loop, parse_packets, read_acks, read_time, handle_header,
  handle_datagram,
}

module _ {R : Type 0} ⦃br : BitRead R⦄ (laws : BitReadLaws br) where
  and_parse-Ends :
      (fuel m : ℕ) (go_on : R → Outcome (List RaknetPacket)) (o : Outcome (RaknetPacket × R))
      → m < 32 * suc fuel
      → Within laws.rest 32 m o
      → ((r : R) → length (laws.rest r) < 32 * fuel → Ends (go_on r))
      → Ends (and_parse go_on o)
  and_parse-Ends fuel m go_on (ok (p, r)) h w later =
      Ends->>= (go_on r) _ (later r (omega arith)) (λ ps. tt)
  and_parse-Ends fuel m go_on (err k) h w later = tt
  and_parse-Ends fuel m go_on panic h w later = tt
  and_parse-Ends fuel m go_on stuck h w later = elim w [ ]

  parse_loop-Ends : (fuel : ℕ) (r : R) → length (laws.rest r) < 32 * fuel → Ends (parse_loop fuel r)
  unfolding parse_loop
  parse_loop-Ends zero r h = absurd (omega arith)
  parse_loop-Ends (suc fuel) r h =
      and_parse-Ends fuel (length (laws.rest r)) (parse_loop fuel) (RakPacket.deserialize r) h
        ((packet-Consumes laws).within r) (parse_loop-Ends fuel)

  read_acks-Consumes : (has_acks : Bool) → Consumes laws.rest 0 (read_acks has_acks)
  unfolding read_acks
  read_acks-Consumes false = pure-Consumes laws.rest tt
  read_acks-Consumes true =
      any-Consumes laws.rest _ 32 (read_int-Consumes laws 4)
        (λ _. any-Consumes laws.rest _ 0 (ranges-Consumes laws) (λ _. pure-Consumes laws.rest tt))

  read_time-Consumes : (t : ℕ) (has_time : Bool) → Consumes laws.rest 0 (read_time t has_time)
  unfolding read_time
  read_time-Consumes t false = pure-Consumes laws.rest t
  read_time-Consumes t true = Consumes-le laws.rest 32 0 (omega arith) (read_int-Consumes laws 4)

  handle_header-Consumes : (t : ℕ) → Consumes laws.rest 0 (handle_header t)
  unfolding handle_header
  handle_header-Consumes t = any-Consumes laws.rest _ 1 (read_bit-Consumes laws) (λ has_acks.
      any-Consumes laws.rest _ 0 (read_acks-Consumes has_acks)
        (λ _. any-Consumes laws.rest _ 1 (read_bit-Consumes laws) (read_time-Consumes t)))

  after_header-Ends :
      {A : Type 0} (m : ℕ) (o : Outcome (ℕ × R)) (f : ℕ × R → Outcome A)
      → Within laws.rest 0 m o
      → ((t : ℕ) (r : R) → length (laws.rest r) ≤ m → Ends (f (t, r)))
      → Ends (P.◌>>=◌ o f)
  after_header-Ends m (ok (t, r)) f w h = h t r (omega arith)
  after_header-Ends m (err k) f w h = tt
  after_header-Ends m panic f w h = tt
  after_header-Ends m stuck f w h = elim w [ ]

  handle_datagram-Ends :
      (bytes : List ℕ) (c : Connection) → All IsByte bytes → Ends (handle_datagram R bytes c)
  unfolding handle_datagram parse_packets
  handle_datagram-Ends bytes c octets =
      let size = ap length (laws.rest-new_reader bytes octets) in
      let bits = length-bytes_bits bytes in
      after_header-Ends (length (laws.rest (br.new_reader bytes)))
        (handle_header c.remote_system_time (br.new_reader bytes)) _
        ((handle_header-Consumes c.remote_system_time).within (br.new_reader bytes))
        (λ t r h.
          Ends->>= (parse_loop (length bytes + 1) r) _
            (parse_loop-Ends (length bytes + 1) r (omega (arith, size, bits)))
            (λ ps.
              Ends->>= _ _ (process_incoming_packets-Ends ps c.recv c.acks c.closed) (λ t'. tt)))

  -- Whatever the bytes of a datagram and the state of the connection are, the loop that parses its
  -- packets ends, and with it the handling of the datagram: the model's fuel, one more than there are
  -- bytes, is never used up. The condition is that the bit reader keeps its laws.
  pub handle_datagram-returns :
      (bytes : List ℕ) (c : Connection) → All IsByte bytes → ¬ handle_datagram R bytes c ≡ stuck
  handle_datagram-returns bytes c octets =
      Ends-ne (handle_datagram R bytes c) (handle_datagram-Ends bytes c octets)
