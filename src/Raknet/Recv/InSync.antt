-- ===== src/Raknet/Recv/InSync.antt =====
-- A whole packet that comes to a receiver in step with the sender (src/raknet/recv.rs).
use raknet_shim.Prelude.{
  ℕ, ◌≡◌, refl, true, false, [], ◌∷◌, ◌++◌, arith, wrapping_add, wrapping_sub, half_window, IsU32,
  ltb, ◌==◌, ==_iff, lt→ltb,
}
use raknet_shim.Packet.{Packet}
use raknet_shim.Raknet.Packet.{
  RaknetPacket, ReliabilityData, unreliable, unreliable_sequenced, reliable, reliable_ordered,
  to_packet,
}
use raknet_shim.Raknet.Recv.{
  ReceivePart, Receiving, is_disconnect, drain, push, release, deliver_sequenced, deliver_ordered,
  dispatch, deliver,
}

-- The receiver waits for the sequence index `seq` and the order index `ord`, and queues nothing.
pub record Waits (seq ord : ℕ) (part : ReceivePart) : Type 0 where
  pub sequenced : part.unrel_seq_index ≡ seq
  pub index : part.rel_ord_index ≡ ord
  pub ordered : part.out_of_order_packets ≡ []
  pub split : part.split_packet_queue ≡ []

-- The indices behind a packet.
abbrev pub next_seq : ReliabilityData → ℕ → ℕ
next_seq (unreliable_sequenced ord) seq = wrapping_add ord 1
next_seq _ seq = seq

abbrev pub next_ord : ReliabilityData → ℕ → ℕ
next_ord (reliable_ordered ord) _ = wrapping_add ord 1
next_ord _ ord = ord

-- The packet carries the index that is waited for.
abbrev pub IsNext : ReliabilityData → ℕ → ℕ → Type 0
IsNext (unreliable_sequenced k) seq ord = (k ≡ seq) × IsU32 k
IsNext (reliable_ordered k) seq ord = k ≡ ord
IsNext _ seq ord = Unit {0}

-- From `s` to `t` one packet is passed on, and the receiver waits for the given indices.
pub record PassesOn (p : Packet) (seq ord : ℕ) (s t : Receiving) : Type 0 where
  pub packets : t.packets ≡ s.packets ++ (p ∷ [])
  pub closed : t.closed ≡ s.closed
  pub waits : Waits seq ord t.part

dispatch-PassesOn :
    (rel : ReliabilityData) (p : Packet) (seq ord : ℕ) (s : Receiving)
    → IsNext rel seq ord
    → Waits seq ord s.part
    → PassesOn p (next_seq rel seq) (next_ord rel ord) s (dispatch rel p s)
unfolding dispatch push deliver_sequenced deliver_ordered release drain
dispatch-PassesOn unreliable p seq ord s h w = record { packets = refl; closed = refl; waits = w }
dispatch-PassesOn reliable p seq ord s h w = record { packets = refl; closed = refl; waits = w }
dispatch-PassesOn (unreliable_sequenced k) p seq ord s h w =
    let new : ltb (wrapping_sub k s.part.unrel_seq_index) half_window ≡ true =
      lt→ltb _ _ (omega (arith, h.1, w.sequenced, h.0)) in
    rw new (record {
      packets = refl;
      closed = refl;
      waits = record { sequenced = refl; index = w.index; ordered = w.ordered; split = w.split };
    })
dispatch-PassesOn (reliable_ordered k) p seq ord s h w =
    let now : (k == s.part.rel_ord_index) ≡ true = (==_iff _ _).1 (omega (arith, w.index, h)) in
    rw (now, w.ordered)
      (record {
        packets = refl;
        closed = refl;
        waits = record {
          sequenced = w.sequenced;
          index = rw (w.index, h) refl;
          ordered = refl;
          split = w.split;
        };
      })

pub deliver-PassesOn :
    (p : RaknetPacket) (seq ord : ℕ) (s : Receiving)
    → is_disconnect p.bytes ≡ false
    → IsNext p.rel_data seq ord
    → Waits seq ord s.part
    → PassesOn (to_packet p) (next_seq p.rel_data seq) (next_ord p.rel_data ord) s (deliver p s)
unfolding deliver
deliver-PassesOn p seq ord s stays h w =
    rw stays (dispatch-PassesOn p.rel_data (to_packet p) seq ord s h w)
