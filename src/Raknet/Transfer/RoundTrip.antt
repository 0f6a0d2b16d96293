-- ===== src/Raknet/Transfer/RoundTrip.antt =====
-- All packets of a call (`process_outgoing_packets` of src/raknet/send.rs), taken in by
-- `process_incoming_packets` of src/raknet/recv.rs.
use raknet_shim.Prelude.{
  ◌≡◌, refl, sym, ap, ◌∙◌, false, List, [], ◌∷◌, ◌++◌, append_assoc, append-nil, Outcome, ok, ◌>>=◌,
  All,
}
use raknet_shim.Packet.{Packet}
use raknet_shim.Raknet.Send.{SendPart, outgoing, process_outgoing_packets}
use raknet_shim.Raknet.Recv.{ReceivePart, Receiving, process_all, process_incoming_packets}
use raknet_shim.Raknet.Recv.Joined.{process_all-nil, process_all-append}
use raknet_shim.Raknet.RangeList.{RangeList}
use raknet_shim.Raknet.Transfer.Outgoing.{InStep, Sendable, outgoing-Delivers}

-- A run that returns, passes on `ps`, and leaves the receiver in step with the sender.
record DeliversAll (ps : List Packet) (s : SendPart) (r : Receiving) (o : Outcome Receiving)
    : Type 0 where
  pub final : Receiving
  pub returns : o ≡ ok final
  pub packets : final.packets ≡ r.packets ++ ps
  pub closed : final.closed ≡ r.closed
  pub in_step : InStep s final.part

sent-DeliversAll :
    (ps : List Packet) (s : SendPart) (r : Receiving)
    → All Sendable ps
    → InStep s r.part
    → DeliversAll ps
        (process_outgoing_packets ps s).1
        r
        (process_all (process_outgoing_packets ps s).0 r)
unfolding process_outgoing_packets
sent-DeliversAll [] s r h w = record {
  final = r;
  returns = process_all-nil r;
  packets = sym (append-nil r.packets);
  closed = refl;
  in_step = w;
}
sent-DeliversAll (p ∷ ps) s r h w =
    let ((t, e, on), bound) = outgoing-Delivers p s r h.0 w in
    let later = sent-DeliversAll ps (outgoing p s).1 t h.1 (bound, on.waits) in
    record {
      final = later.final;
      returns =
          process_all-append (outgoing p s).0 _ r
          ∙ ap (λ o. o >>= process_all (process_outgoing_packets ps (outgoing p s).1).0) e
          ∙ later.returns;
      packets = later.packets ∙ rw on.packets (append_assoc r.packets (p ∷ []) ps);
      closed = later.closed ∙ on.closed;
      in_step = later.in_step;
    }

-- Let the receiver wait for the indices that the sender is at, with nothing queued, and let no packet
-- begin with the disconnect message or have 2 ^ 32 bytes or more. Then whatever the sender makes of
-- the packets, split or whole, the receiver returns exactly these packets, in order, and does not
-- close; and the receiver is left in step with the sender.
pub process_incoming_packets-process_outgoing_packets :
    (ps : List Packet) (s : SendPart) (part : ReceivePart) (acks : RangeList)
    → All Sendable ps
    → InStep s part
    → (t : Receiving) × (process_incoming_packets (process_outgoing_packets ps s).0 part acks false
        ≡ ok t)
      × (t.packets ≡ ps)
      × (t.closed ≡ false)
      × InStep (process_outgoing_packets ps s).1 t.part
unfolding process_incoming_packets
process_incoming_packets-process_outgoing_packets ps s part acks h w =
    let all = sent-DeliversAll ps s _ h w in
    (all.final, all.returns, all.packets, all.closed, all.in_step)
