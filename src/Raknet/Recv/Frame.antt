-- ===== src/Raknet/Recv/Frame.antt =====
-- `process_incoming_packets` of src/raknet/recv.rs only adds to the packets that it returns.
use raknet_shim.Prelude.{
  ℕ, zero, suc, ◌≡◌, refl, ap, Bool-cases, inl, inr, Option, none, some, Option-cases, List, [],
  ◌∷◌, ◌++◌, append_assoc, Outcome, ok, err, panic, stuck, ◌>>=◌, wrapping_add, wrapping_sub,
  half_window, ltb, ◌==◌, length,
}
use raknet_shim.Prelude.Map.{Map, lookup, remove}
use raknet_shim.Packet.{Packet}
use raknet_shim.Raknet.Packet.{
  RaknetPacket, ReliabilityData, unreliable, unreliable_sequenced, reliable, reliable_ordered,
  to_packet,
}
use raknet_shim.Raknet.Recv.{
  handled, Receiving, Parts, drain, push, release, deliver_sequenced, deliver_ordered, dispatch,
  deliver, deliver_joined, is_disconnect, entered, reassemble, process, process_all,
}

-- The same state, where `ps` was returned before.
abbrev pub behind : List Packet → Receiving → Receiving
behind ps r = record r { packets = ps ++ r.packets }

drain-behind :
    (rounds i : ℕ) (queue : Map Packet) (ps qs : List Packet)
    → drain rounds i queue (ps ++ qs) ≡ (
      (drain rounds i queue qs).0,
      (drain rounds i queue qs).1,
      ps ++ (drain rounds i queue qs).2,
    )
unfolding drain
drain-behind zero i queue ps qs = refl
drain-behind (suc rounds) i queue ps qs = elim (Option-cases (lookup i queue)) [
  | inl e ↦ rw (e, drain) refl
  | inr (x, e) ↦
      rw (e, drain, append_assoc ps qs (x ∷ []))
        (drain-behind rounds (wrapping_add i 1) (remove i queue) ps (qs ++ (x ∷ [])))
]

push-behind :
    (p : Packet) (ps : List Packet) (r : Receiving) → push p (behind ps r) ≡ behind ps (push p r)
unfolding push
push-behind p ps r =
    ap (λ (qs : List Packet). record r { packets = qs }) (append_assoc ps r.packets (p ∷ []))

release-behind :
    (p : Packet) (ps : List Packet) (r : Receiving)
    → release p (behind ps r) ≡ behind ps (release p r)
unfolding release
release-behind p ps r =
    rw
      (
        append_assoc ps r.packets (p ∷ []),
        drain-behind (length r.part.out_of_order_packets) (wrapping_add r.part.rel_ord_index 1)
            r.part.out_of_order_packets ps (r.packets ++ (p ∷ [])),
      )
      refl

dispatch-behind :
    (rel : ReliabilityData) (p : Packet) (ps : List Packet) (r : Receiving)
    → dispatch rel p (behind ps r) ≡ behind ps (dispatch rel p r)
unfolding dispatch deliver_sequenced deliver_ordered
dispatch-behind unreliable p ps r = push-behind p ps r
dispatch-behind reliable p ps r = push-behind p ps r
dispatch-behind (unreliable_sequenced k) p ps r =
    elim (Bool-cases (ltb (wrapping_sub k r.part.unrel_seq_index) half_window)) [
      | inl new ↦ rw (new, deliver_sequenced) (push-behind p ps _)
      | inr old ↦ rw (old, deliver_sequenced) refl
    ]
dispatch-behind (reliable_ordered k) p ps r = elim (Bool-cases (k == r.part.rel_ord_index)) [
  | inl now ↦ rw (now, deliver_ordered) (release-behind p ps r)
  | inr other ↦ elim (Bool-cases (ltb (wrapping_sub k r.part.rel_ord_index) half_window)) [
    | inl early ↦ rw (other, early, deliver_ordered) refl
    | inr old ↦ rw (other, old, deliver_ordered) refl
  ]
]

deliver-behind :
    (p : RaknetPacket) (ps : List Packet) (r : Receiving)
    → deliver p (behind ps r) ≡ behind ps (deliver p r)
unfolding deliver
deliver-behind p ps r = elim (Bool-cases (is_disconnect p.bytes)) [
  | inl ends ↦ rw (ends, deliver) refl
  | inr stays ↦ rw (stays, deliver) (dispatch-behind p.rel_data (to_packet p) ps r)
]

deliver_joined-behind :
    (p : RaknetPacket) (joined : Option (List ℕ)) (ps : List Packet) (r : Receiving)
    → deliver_joined p joined (behind ps r) ≡ behind ps (deliver_joined p joined r)
unfolding deliver_joined
deliver_joined-behind p none ps r = refl
deliver_joined-behind p (some bytes) ps r = deliver-behind (record p { bytes = bytes }) ps r

abbrev returned_behind : List Packet → Outcome Receiving → Outcome Receiving
returned_behind ps o = o >>= λ r. ok (behind ps r)

joined-behind :
    (p : RaknetPacket) (ps : List Packet) (r : Receiving)
    (o : Outcome (Option (List ℕ) × Map Parts))
    → (o >>= λ (joined, queue). ok (handled p joined queue (behind ps r)))
      ≡ returned_behind ps (o >>= λ (joined, queue). ok (handled p joined queue r))
joined-behind p ps r (ok (joined, queue)) =
    ap ok (deliver_joined-behind p joined ps (entered p queue r))
joined-behind p ps r (err kind) = refl
joined-behind p ps r panic = refl
joined-behind p ps r stuck = refl

process-behind :
    (p : RaknetPacket) (ps : List Packet) (r : Receiving)
    → process p (behind ps r) ≡ returned_behind ps (process p r)
unfolding process
process-behind p ps r = joined-behind p ps r (reassemble p r.part.split_packet_queue)

go_on-behind :
    (ps : List Packet) (o : Outcome Receiving) (f : Receiving → Outcome Receiving)
    → ((r : Receiving) → f (behind ps r) ≡ returned_behind ps (f r))
    → (returned_behind ps o >>= f) ≡ returned_behind ps (o >>= f)
go_on-behind ps (ok r) f h = h r
go_on-behind ps (err kind) f h = refl
go_on-behind ps panic f h = refl
go_on-behind ps stuck f h = refl

-- What was returned before has no effect on the rest.
pub process_all-behind :
    (xs : List RaknetPacket) (ps : List Packet) (r : Receiving)
    → process_all xs (behind ps r) ≡ (process_all xs r >>= λ t. ok (behind ps t))
unfolding process_all
process_all-behind [] ps r = refl
process_all-behind (x ∷ xs) ps r =
    rw (process-behind x ps r)
      (go_on-behind ps (process x r) (process_all xs) (λ t. process_all-behind xs ps t))
