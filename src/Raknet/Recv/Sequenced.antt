-- ===== src/Raknet/Recv/Sequenced.antt =====
-- What src/raknet/recv.rs makes of sequenced packets that come with gaps, repeated and out of order,
-- between packets of other kinds.
pub mod Newest
mod Tests
use raknet_shim.Prelude.{
  ℕ, zero, suc, ◌+◌, ◌<◌, ◌≤◌, ◌≡◌, refl, sym, ap, ◌∙◌, Bool, true, false, not, Bool-cases,
  Option-cases, inl, inr, Option, none, some, List, [], ◌∷◌, ◌++◌, append-nil, append_assoc, map,
  length, All, arith, Outcome, ok, ltb, ◌==◌, if◌then◌else◌, wrapping_add, wrapping_sub,
  half_window,
}
use raknet_shim.Prelude.Map.{Map, lookup, insert, remove, lookup-remove, lookup-insert}
use raknet_shim.Prelude.Newest.{
  number, newest, most, next_number, newer_lem, Ascending, newest-Ascending,
}
use raknet_shim.Packet.{Packet, Reliability}
use raknet_shim.Raknet.RangeList.{RangeList}
use raknet_shim.Raknet.Packet.{
  RaknetPacket, ReliabilityData, unreliable, unreliable_sequenced, reliable, reliable_ordered,
  to_packet, to_reliability,
}
use raknet_shim.Raknet.Recv.{
  ReceivePart, Receiving, drain, push, release, deliver_sequenced, deliver_ordered, dispatch,
  deliver, is_disconnect, entered, handled, process_all, process_incoming_packets,
}
use raknet_shim.Raknet.Recv.Joined.{
  reassemble-whole, deliver_joined-some, process_all-nil, process_all-step,
}

abbrev pub is_sequenced : Packet → Bool
is_sequenced p = elim p.reliability [ Reliability.unreliable_sequenced ↦ true | _ ↦ false ]

-- The sequenced packets among those passed on.
unfoldable pub sequenced : List Packet → List Packet
sequenced [] = []
sequenced (p ∷ ps) = if is_sequenced p then p ∷ sequenced ps else sequenced ps

pub sequenced-append : (xs ys : List Packet) → sequenced (xs ++ ys) ≡ sequenced xs ++ sequenced ys
unfolding sequenced
sequenced-append [] ys = refl
sequenced-append (x ∷ xs) ys = ground (arith, sequenced-append xs ys)

other-sequenced :
    (xs : List Packet) (p : Packet)
    → is_sequenced p ≡ false
    → sequenced (xs ++ (p ∷ [])) ≡ sequenced xs
unfolding sequenced
other-sequenced xs p e = sequenced-append xs (p ∷ []) ∙ rw e (append-nil _)

-- No queued packet is a sequenced one.
abbrev pub NoneQueued : Map Packet → Type 0
NoneQueued queue = (j : ℕ) (p : Packet) → lookup j queue ≡ some p → is_sequenced p ≡ false

NoneQueued-remove : (k : ℕ) (queue : Map Packet) → NoneQueued queue → NoneQueued (remove k queue)
NoneQueued-remove k queue h j p e = ground (arith, lookup-remove k j queue, h j p)

NoneQueued-insert :
    (k : ℕ) (x : Packet) (queue : Map Packet)
    → is_sequenced x ≡ false
    → NoneQueued queue
    → NoneQueued (insert k x queue)
NoneQueued-insert k x queue e h j p f = ground (arith, lookup-insert k j x queue, h j p)

-- From `s` to `t` nothing has happened to sequenced packets.
pub record Same (s t : Receiving) : Type 0 where
  pub passed_on : sequenced t.packets ≡ sequenced s.packets
  pub index : t.part.unrel_seq_index ≡ s.part.unrel_seq_index
  pub queue : NoneQueued t.part.out_of_order_packets

drain-sequenced :
    (rounds i : ℕ) (queue : Map Packet) (ps : List Packet)
    → NoneQueued queue
    → (sequenced (drain rounds i queue ps).2 ≡ sequenced ps)
      × NoneQueued (drain rounds i queue ps).1
unfolding drain
drain-sequenced zero i queue ps h = (refl, h)
drain-sequenced (suc rounds) i queue ps h = elim (Option-cases (lookup i queue)) [
  | inl e ↦ (rw (e, drain) refl, rw (e, drain) h)
  | inr (x, e) ↦
      let (same, left) =
        drain-sequenced rounds (wrapping_add i 1) (remove i queue) (ps ++ (x ∷ []))
          (NoneQueued-remove i queue h) in
      (rw (e, drain) (same ∙ other-sequenced ps x (h i x e)), rw (e, drain) left)
]

release-Same :
    (p : Packet) (s : Receiving)
    → is_sequenced p ≡ false
    → NoneQueued s.part.out_of_order_packets
    → Same s (release p s)
unfolding release
release-Same p s e h =
    let (same, left) =
      drain-sequenced (length s.part.out_of_order_packets) (wrapping_add s.part.rel_ord_index 1)
        s.part.out_of_order_packets (s.packets ++ (p ∷ [])) h in
    record { passed_on = same ∙ other-sequenced s.packets p e; index = refl; queue = left }

deliver_ordered-Same :
    (ord : ℕ) (p : Packet) (s : Receiving)
    → is_sequenced p ≡ false
    → NoneQueued s.part.out_of_order_packets
    → Same s (deliver_ordered ord p s)
unfolding deliver_ordered
deliver_ordered-Same ord p s e h = elim (Bool-cases (ord == s.part.rel_ord_index)) [
  | inl now ↦ rw now (release-Same p s e h)
  | inr other ↦ elim (Bool-cases (ltb (wrapping_sub ord s.part.rel_ord_index) half_window)) [
    | inl early ↦
        rw (other, early)
          (record {
            passed_on = refl;
            index = refl;
            queue = NoneQueued-insert ord p s.part.out_of_order_packets e h;
          })
    | inr late ↦ rw (other, late) (record { passed_on = refl; index = refl; queue = h })
  ]
]

push-Same :
    (p : Packet) (s : Receiving)
    → is_sequenced p ≡ false
    → NoneQueued s.part.out_of_order_packets
    → Same s (push p s)
unfolding push
push-Same p s e h = record { passed_on = other-sequenced s.packets p e; index = refl; queue = h }

abbrev pub NotSequenced : ReliabilityData → Type 0
NotSequenced (unreliable_sequenced ord) = ⊥
NotSequenced _ = Unit {0}

dispatch-Same :
    (rel : ReliabilityData) (p : Packet) (s : Receiving)
    → p.reliability ≡ to_reliability rel
    → NotSequenced rel
    → NoneQueued s.part.out_of_order_packets
    → Same s (dispatch rel p s)
unfolding dispatch to_reliability
dispatch-Same unreliable p s e n h = push-Same p s (rw e refl) h
dispatch-Same (unreliable_sequenced ord) p s e n h = absurd n
dispatch-Same reliable p s e n h = push-Same p s (rw e refl) h
dispatch-Same (reliable_ordered ord) p s e n h = deliver_ordered-Same ord p s (rw e refl) h

pub deliver-Same :
    (p : RaknetPacket) (s : Receiving)
    → NotSequenced p.rel_data
    → NoneQueued s.part.out_of_order_packets
    → Same s (deliver p s)
unfolding deliver
deliver-Same p s n h = elim (Bool-cases (is_disconnect p.bytes)) [
  | inl gone ↦ rw gone (record { passed_on = refl; index = refl; queue = h })
  | inr stays ↦ rw stays (dispatch-Same p.rel_data (to_packet p) s (unfold to_packet in refl) n h)
]
