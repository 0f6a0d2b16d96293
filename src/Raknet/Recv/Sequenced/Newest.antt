-- ===== src/Raknet/Recv/Sequenced/Newest.antt =====
-- A run of `process_incoming_packets` (src/raknet/recv.rs) over sequenced packets and others.
use raknet_shim.Prelude.{
  IsU32, sym, ℕ, ◌+◌, ◌≤◌, ◌<◌, ◌≡◌, refl, ap, ◌∙◌, Bool, false, Bool-cases, inl, inr, Option, none,
  some, List, [], ◌∷◌, ◌++◌, append-nil, append_assoc, map, All, arith, Outcome, ok, ltb,
  if◌then◌else◌, wrapping_sub, half_window,
}
use mathlib.Core.List.{map-append}
use raknet_shim.Prelude.Newest.{
  number, newest, most, next_number, newer_lem, Ascending, newest-Ascending,
}
use raknet_shim.Packet.{Packet, Reliability}
use raknet_shim.Raknet.RangeList.{RangeList}
use raknet_shim.Raknet.Packet.{RaknetPacket, unreliable_sequenced, to_packet, to_reliability}
use raknet_shim.Raknet.Recv.{
  ReceivePart, Receiving, Parts, push, deliver_sequenced, dispatch, deliver, deliver_joined,
  is_disconnect, entered, handled, process_all, process_incoming_packets,
}
use raknet_shim.Prelude.Map.{Map}
use raknet_shim.Raknet.Recv.Returns.{
  SplitFits, QueueFits, reassemble-Returns, deliver_joined-queue, process-handled,
}
use raknet_shim.Raknet.Recv.Sequenced.{
  sequenced, sequenced-append, NoneQueued, NotSequenced, deliver-Same,
}
use raknet_shim.Raknet.Recv.Joined.{reassemble-whole}

-- A packet that comes in: the sequenced one at a position in the order of sending, under some message
-- number, or one of another kind.
pub data Arrival : Type 0 where
  update : ℕ → ℕ → Arrival
  other : RaknetPacket → Arrival

-- The positions of the sequenced ones.
abbrev pub positions : List Arrival → List ℕ
positions [] = []
positions (update m k ∷ xs) = k ∷ positions xs
positions (other p ∷ xs) = positions xs

module _ (base : ℕ) (src : ℕ → List ℕ) where
  abbrev pub whole : ℕ → ℕ → RaknetPacket
  whole m k = record {
    message_number = m;
    rel_data = unreliable_sequenced (number base k);
    split_packet_info = none;
    bytes = src k;
  }

  abbrev pub rak_packet : Arrival → RaknetPacket
  rak_packet (update m k) = whole m k
  rak_packet (other p) = p

  -- So few are sent that the numbers do not run out, and none says goodbye.
  abbrev pub Expected : Arrival → Type 0
  Expected (update m k) = (k < most) × (is_disconnect (src k) ≡ false)
  Expected (other p) = NotSequenced p.rel_data

  abbrev pub sent_as : ℕ → Packet
  sent_as k = record { reliability = Reliability.unreliable_sequenced; bytes = src k }

  -- What has come is passed on, and what is expected next is known.
  record Took (ks : List ℕ) (next : ℕ) (s t : Receiving) : Type 0 where
    passed_on : sequenced t.packets ≡ sequenced s.packets ++ map sent_as ks
    index : t.part.unrel_seq_index ≡ number base next
    queue : NoneQueued t.part.out_of_order_packets

  handled-other :
      (p : RaknetPacket) (joined : Option (List ℕ)) (parts : Map Parts) (next : ℕ) (s : Receiving)
      → NotSequenced p.rel_data
      → s.part.unrel_seq_index ≡ number base next
      → NoneQueued s.part.out_of_order_packets
      → Took [] next s (handled p joined parts s)
  unfolding deliver_joined
  handled-other p none parts next s n e h = record {
    passed_on = sym (append-nil _);
    index = e;
    queue = h;
  }
  handled-other p (some bytes) parts next s n e h =
      let same = deliver-Same (record p { bytes = bytes }) (entered p parts s) n h in
      record {
        passed_on = same.passed_on ∙ sym (append-nil _);
        index = same.index ∙ e;
        queue = same.queue;
      }

  abbrev kept : ℕ → ℕ → List ℕ
  kept k next = if ltb k next then [] else k ∷ []

  abbrev after : ℕ → ℕ → ℕ
  after k next = if ltb k next then next else k + 1

  deliver_sequenced-Took :
      (k next : ℕ) (s : Receiving)
      → k < most
      → next ≤ most
      → s.part.unrel_seq_index ≡ number base next
      → NoneQueued s.part.out_of_order_packets
      → Took (kept k next) (after k next) s (deliver_sequenced (number base k) (sent_as k) s)
  unfolding deliver_sequenced push sequenced
  deliver_sequenced-Took k next s few low e h =
      let newer =
        ap (λ (x : ℕ). ltb (wrapping_sub (number base k) x) half_window) e
        ∙ newer_lem base k next few low in
      elim (Bool-cases (ltb k next)) [
        | inl old ↦
            rw (newer, old) (record { passed_on = sym (append-nil _); index = e; queue = h })
        | inr new ↦
            rw (newer, new)
              (record {
                passed_on = sequenced-append s.packets (sent_as k ∷ []);
                index = next_number base k;
                queue = h;
              })
      ]

  handled-update :
      (m k next : ℕ) (parts : Map Parts) (s : Receiving)
      → k < most
      → next ≤ most
      → is_disconnect (src k) ≡ false
      → s.part.unrel_seq_index ≡ number base next
      → NoneQueued s.part.out_of_order_packets
      → Took (kept k next) (after k next) s (handled (whole m k) (some (src k)) parts s)
  unfolding deliver_joined deliver dispatch to_packet to_reliability
  handled-update m k next parts s few low stays e h =
      let took = deliver_sequenced-Took k next (entered (whole m k) parts s) few low e h in
      rw stays (record { passed_on = took.passed_on; index = took.index; queue = took.queue })

  newest-kept :
      (k next : ℕ) (ks : List ℕ) → newest next (k ∷ ks) ≡ kept k next ++ newest (after k next) ks
  unfolding newest
  newest-kept k next ks = elim (Bool-cases (ltb k next)) [
    | inl old ↦ rw (old, newest) refl
    | inr new ↦ rw (new, newest) refl
  ]

  abbrev PassesOnNewest : ℕ → List Arrival → Receiving → Outcome Receiving → Type 0
  PassesOnNewest next xs s o =
      (t : Receiving) × (o ≡ ok t)
      × (sequenced t.packets ≡ sequenced s.packets ++ map sent_as (newest next (positions xs)))

  append-newest :
      (ps : List Packet) (k next : ℕ) (ks : List ℕ)
      → (ps ++ map sent_as (kept k next)) ++ map sent_as (newest (after k next) ks)
        ≡ ps ++ map sent_as (newest next (k ∷ ks))
  append-newest ps k next ks =
      append_assoc ps _ _
      ∙ ap (λ t. ps ++ t)
          (sym (ap (map sent_as) (newest-kept k next ks) ∙ map-append sent_as (kept k next) _))

  process_all-newest :
      (count_of : ℕ → ℕ) (next : ℕ) (xs : List Arrival) (s : Receiving)
      → All Expected xs
      → All (λ x. SplitFits count_of (rak_packet x).split_packet_info) xs
      → QueueFits count_of s.part.split_packet_queue
      → next ≤ most
      → s.part.unrel_seq_index ≡ number base next
      → NoneQueued s.part.out_of_order_packets
      → PassesOnNewest next xs s (process_all (map rak_packet xs) s)
  unfolding process_all newest
  process_all-newest count_of next [] s w f q low e h = (s, refl, sym (append-nil _))
  process_all-newest count_of next (update m k ∷ xs) s w f q low e h =
      let parts = s.part.split_packet_queue in
      let first = handled-update m k next parts s w.0.0 low w.0.1 e h in
      let same = deliver_joined-queue (whole m k) (some (src k)) (entered (whole m k) parts s) in
      let (t, e', later) =
        process_all-newest count_of (after k next) xs (handled (whole m k) (some (src k)) parts s)
          w.1 f.1 (rw same q) (ground arith) first.index first.queue in
      (
        t,
        rw (process-handled (whole m k) s (reassemble-whole (whole m k) parts refl)) e',
        later
            ∙ ap (λ ps. ps ++ map sent_as (newest (after k next) (positions xs))) first.passed_on
            ∙ append-newest (sequenced s.packets) k next (positions xs),
      )
  process_all-newest count_of next (other p ∷ xs) s w f q low e h =
      let (joined, parts, e₁, fits) =
        reassemble-Returns count_of p.split_packet_info p _ refl f.0 q in
      let first = handled-other p joined parts next s w.0 e h in
      let same = deliver_joined-queue p joined (entered p parts s) in
      let (t, e', later) =
        process_all-newest count_of next xs (handled p joined parts s) w.1 f.1 (rw same fits) low
          first.index first.queue in
      (
        t,
        rw (process-handled p s e₁) e',
        later
            ∙ ap (λ ps. ps ++ map sent_as (newest next (positions xs)))
                (first.passed_on ∙ append-nil _),
      )

-- Let packets come in, in any order, with losses and repetitions: sequenced ones, each in one packet
-- and numbered from `unrel_seq_index` on in the order of sending, fewer than 2 ^ 31 of them and none a
-- disconnect notification, and between them packets of other kinds, split ones too, of which each is
-- announced with one count for its id, of two or more, that is above its index. Let no sequenced
-- packet be queued among the ordered ones. Then the call returns, and the sequenced packets that it
-- passes on are exactly those that were sent later than all that came before them, in the order in
-- which they were sent and none twice.
pub process_incoming_packets-newest :
    (src : ℕ → List ℕ) (count_of : ℕ → ℕ) (xs : List Arrival) (part : ReceivePart)
    (acks : RangeList) (closed : Bool)
    → All (Expected part.unrel_seq_index src) xs
    → All (λ x. SplitFits count_of (rak_packet part.unrel_seq_index src x).split_packet_info) xs
    → QueueFits count_of part.split_packet_queue
    → IsU32 part.unrel_seq_index
    → NoneQueued part.out_of_order_packets
    → (t : Receiving) × (process_incoming_packets
          (map (rak_packet part.unrel_seq_index src) xs)
          part
          acks
          closed
        ≡ ok t)
      × (sequenced t.packets ≡ map (sent_as part.unrel_seq_index src) (newest 0 (positions xs)))
      × Ascending 0 (newest 0 (positions xs))
unfolding process_incoming_packets sequenced
process_incoming_packets-newest src count_of xs part acks closed w f q u32 h =
    let base = part.unrel_seq_index in
    let start : Receiving = record { part = part; acks = acks; closed = closed; packets = [] } in
    let (t, e, out) =
      process_all-newest base src count_of 0 xs start w f q (omega arith) (omega (arith, u32)) h in
    (t, e, out, newest-Ascending 0 (positions xs))
