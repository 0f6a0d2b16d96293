-- ===== src/Raknet/Recv/Order.antt =====
-- Ordered packets leave src/raknet/recv.rs in the order in which they were sent, without gap and
-- without repetition.
use raknet_shim.Prelude.{
  All, Bool-cases, ==_iff, ltb, half_window, wrapping_sub, ℕ, zero, suc, ◌+◌, ◌%◌, ◌^◌, ◌≤◌, ◌<◌,
  ◌≡◌, refl, sym, ap, ◌∙◌, Bool, true, false, Option, none, some, List, [], ◌∷◌, ◌++◌, append-nil,
  append_assoc, length, arith, Outcome, ok, wrapping_add, Option-cases, inl, inr, ◌==◌,
}
use raknet_shim.Prelude.Map.{
  Map, lookup, insert, remove, lookup-remove, lookup-insert, length-remove-lt,
}
use raknet_shim.Packet.{Packet}
use raknet_shim.Raknet.Packet.{
  RaknetPacket, ReliabilityData, unreliable, unreliable_sequenced, reliable, reliable_ordered,
  to_packet, to_reliability,
}
use raknet_shim.Raknet.Recv.Returns.{
  SplitFits, QueueFits, reassemble-Returns, deliver_joined-queue, process-handled,
}
use raknet_shim.Raknet.RangeList.{RangeList}
use raknet_shim.Raknet.Recv.{
  handled, entered, is_disconnect, ReceivePart, Receiving, Parts, drain, push, release,
  deliver_sequenced, deliver_ordered, dispatch, deliver, deliver_joined, process_all,
  process_incoming_packets,
}
use raknet_shim.Raknet.Recv.Sent.{
  advance, sent, sent-append, advance-add, advance_lem, is_ordered, ordered, ordered-append,
  QueueFrom, CarriesAs, Carries, CarriesJoined, AllCarry,
}

module _ (src : ℕ → Packet) (all_ordered : (k : ℕ) → is_ordered (src k) ≡ true) where
  ordered-sent : (i n : ℕ) → ordered (sent src i n) ≡ sent src i n
  unfolding ordered sent
  ordered-sent i zero = refl
  ordered-sent i (suc n) = rw (all_ordered i) (ap (◌∷◌ (src i)) (ordered-sent (wrapping_add i 1) n))

  QueueFrom-remove :
      (k : ℕ) (queue : Map Packet) → QueueFrom src queue → QueueFrom src (remove k queue)
  QueueFrom-remove k queue h j p e = ground (arith, lookup-remove k j queue, h j p)

  QueueFrom-insert :
      (k : ℕ) (x : Packet) (queue : Map Packet)
      → x ≡ src k
      → QueueFrom src queue
      → QueueFrom src (insert k x queue)
  QueueFrom-insert k x queue e h j p f = ground (arith, lookup-insert k j x queue, h j p, ap src)

  -- The loop releases the packets from its index on, and stops at one that is not queued.
  drain_lem :
      (rounds i : ℕ) (queue : Map Packet) (ps : List Packet)
      → QueueFrom src queue
      → length queue ≤ rounds
      → (n : ℕ) × ((drain rounds i queue ps).0 ≡ advance n i)
        × ((drain rounds i queue ps).2 ≡ ps ++ sent src i n)
        × QueueFrom src (drain rounds i queue ps).1
        × (lookup (advance n i) (drain rounds i queue ps).1 ≡ none)
  unfolding drain advance sent
  drain_lem zero i [] ps h few = (0, refl, sym (append-nil ps), h, unfold lookup in refl)
  drain_lem zero i (e ∷ queue) ps h few = absurd (omega arith)
  drain_lem (suc rounds) i queue ps h few = elim (Option-cases (lookup i queue)) [
    | inl e ↦
        (0, rw (e, drain), rw (e, drain) (sym (append-nil ps)), rw (e, drain) h, rw (e, drain) e)
    | inr (x, e) ↦
        let (n, index, out, from, stop) =
          drain_lem rounds (wrapping_add i 1) (remove i queue) (ps ++ (x ∷ []))
            (QueueFrom-remove i queue h) (omega (arith, length-remove-lt i queue x e)) in
        (
          suc n,
          rw (e, drain) index,
          rw (e, drain)
              (out
                ∙ append_assoc ps (x ∷ []) _
                ∙ ap (λ y. ps ++ (y ∷ sent src (wrapping_add i 1) n)) (h i x e)),
          rw (e, drain) from,
          rw (e, drain) stop,
        )
  ]

  -- Whatever is queued was sent so, and the packet that is waited for is not queued.
  pub record Good (s : Receiving) : Type 0 where
    pub from : QueueFrom src s.part.out_of_order_packets
    pub waiting : lookup s.part.rel_ord_index s.part.out_of_order_packets ≡ none

  -- From `s` to `t` the next `count` packets that were sent have been passed on, in order.
  pub record Progress (s t : Receiving) : Type 0 where
    pub count : ℕ
    pub in_order : ordered t.packets ≡ ordered s.packets ++ sent src s.part.rel_ord_index count
    pub index : t.part.rel_ord_index ≡ advance count s.part.rel_ord_index
    pub good : Good t

  Progress-none :
      (s t : Receiving)
      → ordered t.packets ≡ ordered s.packets
      → t.part.rel_ord_index ≡ s.part.rel_ord_index
      → Good t
      → Progress s t
  unfolding sent advance
  Progress-none s t e i g = record {
    count = 0;
    in_order = e ∙ sym (append-nil _);
    index = i;
    good = g;
  }

  Progress-trans : {s t u : Receiving} → Progress s t → Progress t u → Progress s u
  Progress-trans {s} {t} {u} p q = record {
    count = p.count + q.count;
    in_order =
        q.in_order
        ∙ rw (p.in_order, p.index, sent-append src s.part.rel_ord_index p.count q.count)
            (append_assoc (ordered s.packets) _ _);
    index = q.index ∙ rw (p.index) (sym (advance-add p.count q.count s.part.rel_ord_index));
    good = q.good;
  }

  ordered_release :
      (ps : List Packet) (p : Packet) (i n : ℕ)
      → p ≡ src i
      → ordered ((ps ++ (p ∷ [])) ++ sent src (wrapping_add i 1) n)
        ≡ ordered ps ++ sent src i (suc n)
  unfolding sent
  ordered_release ps p i n e =
      rw (e, append_assoc ps (src i ∷ []) (sent src (wrapping_add i 1) n))
        (ordered-append ps _ ∙ ap (◌++◌ (ordered ps)) (ordered-sent i (suc n)))

  release-Progress :
      (p : Packet) (s : Receiving)
      → p ≡ src s.part.rel_ord_index
      → Good s
      → Progress s (release p s)
  unfolding release
  release-Progress p s e g =
      let (n, index, out, from, stop) =
        drain_lem (length s.part.out_of_order_packets) (wrapping_add s.part.rel_ord_index 1)
          s.part.out_of_order_packets (s.packets ++ (p ∷ [])) g.from (omega arith) in
      record {
        count = suc n;
        in_order = ap ordered out ∙ ordered_release s.packets p _ n e;
        index = unfold advance in index;
        good = record { from = from; waiting = rw index stop };
      }

  deliver_ordered-Progress :
      (ord : ℕ) (p : Packet) (s : Receiving)
      → p ≡ src ord
      → Good s
      → Progress s (deliver_ordered ord p s)
  unfolding deliver_ordered
  deliver_ordered-Progress ord p s e g = elim (Bool-cases (ord == s.part.rel_ord_index)) [
    | inl now ↦ rw now (release-Progress p s (e ∙ ap src ((==_iff _ _).0 now)) g)
    | inr other ↦ elim (Bool-cases (ltb (wrapping_sub ord s.part.rel_ord_index) half_window)) [
      | inl early ↦ rw (other, early) (Progress-none s _ refl refl (queued other))
      | inr late ↦ rw (other, late) (Progress-none s s refl refl g)
    ]
  ]
    where
      queued :
          (ord == s.part.rel_ord_index) ≡ false
          → Good (record s {
            part = record s.part {
              out_of_order_packets = insert ord p s.part.out_of_order_packets;
            };
          })
      queued other = record {
        from = QueueFrom-insert ord p s.part.out_of_order_packets e g.from;
        waiting = ground (
          arith,
          lookup-insert ord s.part.rel_ord_index p s.part.out_of_order_packets,
          g.waiting,
        );
      }

  push-Progress :
      (p : Packet) (s : Receiving) → is_ordered p ≡ false → Good s → Progress s (push p s)
  unfolding push
  push-Progress p s e g =
      Progress-none s _ (ordered-append s.packets (p ∷ []) ∙ none_added) refl
        (record { from = g.from; waiting = g.waiting })
    where
      none_added : ordered s.packets ++ ordered (p ∷ []) ≡ ordered s.packets
      none_added = unfold ordered in rw e (append-nil _)

  deliver_sequenced-Progress :
      (ord : ℕ) (p : Packet) (s : Receiving)
      → is_ordered p ≡ false
      → Good s
      → Progress s (deliver_sequenced ord p s)
  unfolding deliver_sequenced
  deliver_sequenced-Progress ord p s e g =
      elim (Bool-cases (ltb (wrapping_sub ord s.part.unrel_seq_index) half_window)) [
        | inl new ↦
            rw new
              (Progress-trans (Progress-none s moved refl refl same) (push-Progress p moved e same))
        | inr old ↦ rw old (Progress-none s s refl refl g)
      ]
    where
      moved : Receiving
      moved = record s { part = record s.part { unrel_seq_index = wrapping_add ord 1 } }

      same : Good moved
      same = record { from = g.from; waiting = g.waiting }

  dispatch-Progress :
      (rel : ReliabilityData) (p : Packet) (s : Receiving)
      → p.reliability ≡ to_reliability rel
      → CarriesAs src rel p
      → Good s
      → Progress s (dispatch rel p s)
  unfolding dispatch to_reliability
  dispatch-Progress unreliable p s e c g = push-Progress p s (rw e) g
  dispatch-Progress (unreliable_sequenced ord) p s e c g =
      deliver_sequenced-Progress ord p s (rw e) g
  dispatch-Progress reliable p s e c g = push-Progress p s (rw e) g
  dispatch-Progress (reliable_ordered ord) p s e c g = deliver_ordered-Progress ord p s c g

  deliver-Progress :
      (p : RaknetPacket) (s : Receiving) → Carries src p → Good s → Progress s (deliver p s)
  unfolding deliver
  deliver-Progress p s c g = elim (Bool-cases (is_disconnect p.bytes)) [
    | inl gone ↦
        rw gone (Progress-none s _ refl refl (record { from = g.from; waiting = g.waiting }))
    | inr stays ↦
        rw stays (dispatch-Progress p.rel_data (to_packet p) s (unfold to_packet in refl) c g)
  ]

  handled-Progress :
      (p : RaknetPacket) (joined : Option (List ℕ)) (queue : Map Parts) (s : Receiving)
      → CarriesJoined src p joined
      → Good s
      → Progress s (handled p joined queue s)
  unfolding deliver_joined
  handled-Progress p none queue s c g =
      Progress-none s _ refl refl (record { from = g.from; waiting = g.waiting })
  handled-Progress p (some bytes) queue s c g =
      Progress-trans (Progress-none s (entered p queue s) refl refl same)
        (deliver-Progress (record p { bytes = bytes }) (entered p queue s) c same)
    where
      same : Good (entered p queue s)
      same = record { from = g.from; waiting = g.waiting }

  -- A run that returns, and makes progress.
  abbrev pub Advances : Receiving → Outcome Receiving → Type 0
  Advances s o = (t : Receiving) × (o ≡ ok t) × Progress s t

  pub process_all-Advances :
      (count_of : ℕ → ℕ) (ps : List RaknetPacket) (s : Receiving)
      → All (λ p. SplitFits count_of p.split_packet_info) ps
      → QueueFits count_of s.part.split_packet_queue
      → AllCarry src ps s.part.split_packet_queue
      → Good s
      → Advances s (process_all ps s)
  unfolding process_all
  process_all-Advances count_of [] s h q c g = (s, refl, Progress-none s s refl refl g)
  process_all-Advances count_of (p ∷ ps) s h q c g =
      let (joined, queue, e, kept) =
        reassemble-Returns count_of p.split_packet_info p _ refl h.0 q in
      let same = deliver_joined-queue p joined (entered p queue s) in
      let carry : CarriesJoined src p joined × AllCarry src ps queue = rw e at c in
      let first = handled-Progress p joined queue s carry.0 g in
      let (t, e', more) =
        process_all-Advances count_of ps (handled p joined queue s) h.1 (rw same kept)
          (rw same carry.1) first.good in
      (t, rw (process-handled p s e) e', Progress-trans first more)

-- Let `src k` be the ordered packet that was sent under the index `k`, and let every ordered packet
-- that arrives, whole or completed by its last part, be the one sent under its index, in any order
-- and as often as one likes; let the same hold of the queue, where the packet waited for is not. Then
-- the call returns, if the announcements of split packets fit, and the ordered packets that it passes
-- on are those sent from `rel_ord_index` on, each once and without gap. The new index counts them,
-- modulo 2 ^ 32, and the packet waited for then is not in the queue.
pub process_incoming_packets_in_order :
    (src : ℕ → Packet) (count_of : ℕ → ℕ) (ps : List RaknetPacket) (part : ReceivePart)
    (acks : RangeList) (closed : Bool)
    → ((k : ℕ) → is_ordered (src k) ≡ true)
    → All (λ p. SplitFits count_of p.split_packet_info) ps
    → QueueFits count_of part.split_packet_queue
    → AllCarry src ps part.split_packet_queue
    → QueueFrom src part.out_of_order_packets
    → lookup part.rel_ord_index part.out_of_order_packets ≡ none
    → part.rel_ord_index < 2 ^ 32
    → (t : Receiving) × (process_incoming_packets ps part acks closed ≡ ok t)
      × (n : ℕ) × (ordered t.packets ≡ sent src part.rel_ord_index n)
      × (t.part.rel_ord_index ≡ (part.rel_ord_index + n) % 2 ^ 32)
      × (lookup t.part.rel_ord_index t.part.out_of_order_packets ≡ none)
unfolding process_incoming_packets ordered sent
process_incoming_packets_in_order src count_of ps part acks closed all_ordered fits room carry from
      waiting bound =
    let (t, e, more) =
      process_all-Advances src all_ordered count_of ps _ fits room carry
        (record { from = from; waiting = waiting }) in
    (
      t,
      e,
      more.count,
      more.in_order,
      more.index ∙ advance_lem more.count _ bound,
      more.good.waiting,
    )
