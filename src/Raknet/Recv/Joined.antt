-- ===== src/Raknet/Recv/Joined.antt =====
-- The parts of one split packet as they come in order (src/raknet/recv.rs, `parts`).
use raknet_shim.Prelude.{
  ℕ, suc, ◌+◌, ltb, ◌<◌, ◌≡◌, refl, ap, true, false, Option, none, some, List, [], ◌∷◌, ◌++◌,
  length, length-replicate, set, replicate, arith, ok, ◌>>=◌, lt→ltb, ==_iff, bind_parts,
}
use mathlib.Core.List.{flatten}
use raknet_shim.Prelude.Map.{Map, lookup, insert, remove}
use raknet_shim.Raknet.Packet.{SplitPacketInfo, RaknetPacket}
use raknet_shim.Raknet.Recv.Returns.{process-handled}
use raknet_shim.Raknet.Recv.{
  Parts, put_part, is_ready, assembled, split_entry, join_split, Receiving, reassemble, process,
  process_all, handled, deliver, deliver_joined,
}

-- The parts that have come, and room for `k` more.
abbrev pub filled : List (List ℕ) → ℕ → Parts
filled [] k = replicate k none
filled (c ∷ cs) k = some c ∷ filled cs k

set-filled :
    (cs : List (List ℕ)) (k : ℕ) (c : List ℕ)
    → set (filled cs (suc k)) (length cs) (some c) ≡ filled (cs ++ (c ∷ [])) k
set-filled [] k c = refl
set-filled (d ∷ cs) k c = ap (◌∷◌ (some d)) (set-filled cs k c)

length-filled : (cs : List (List ℕ)) (k : ℕ) → length (filled cs (suc k)) ≡ suc (length cs + k)
length-filled [] k = omega (arith, length-replicate {A = Option (List ℕ)} k none)
length-filled (d ∷ cs) k = omega (arith, length-filled cs k)

is_ready-waits : (cs : List (List ℕ)) (k : ℕ) → is_ready (filled cs (suc k)) ≡ false
unfolding is_ready
is_ready-waits [] k = refl
is_ready-waits (d ∷ cs) k = is_ready-waits cs k

is_ready-full : (cs : List (List ℕ)) → is_ready (filled cs 0) ≡ true
unfolding is_ready
is_ready-full [] = refl
is_ready-full (d ∷ cs) = is_ready-full cs

assembled-full : (cs : List (List ℕ)) → assembled (filled cs 0) ≡ flatten cs
unfolding assembled flatten
assembled-full [] = refl
assembled-full (d ∷ cs) = ap (◌++◌ d) (assembled-full cs)

lookup-single {ℓ} : {V : Type ℓ} (k : ℕ) (v : V) → lookup k ((k, v) ∷ []) ≡ some v
unfolding lookup
lookup-single k v = rw ((==_iff k k).1 refl) refl

remove-single {ℓ} : {V : Type ℓ} (k : ℕ) (v : V) → remove k ((k, v) ∷ []) ≡ []
unfolding remove
remove-single k v = rw ((==_iff k k).1 refl) refl

insert-single {ℓ} : {V : Type ℓ} (k : ℕ) (v w : V) → insert k w ((k, v) ∷ []) ≡ (k, w) ∷ []
unfolding insert
insert-single k v w = rw (remove-single k v) refl

put_part-filled :
    (index : ℕ) (c : List ℕ) (cs : List (List ℕ)) (k : ℕ)
    → index ≡ length cs
    → put_part index c (filled cs (suc k)) ≡ ok (filled (cs ++ (c ∷ [])) k)
unfolding put_part
put_part-filled index c cs k e =
    let room : ltb (length cs) (length (filled cs (suc k))) ≡ true =
      lt→ltb _ _ (omega (arith, length-filled cs k)) in
    rw (e, room, set-filled cs k c) refl

module _ (info : SplitPacketInfo) (c : List ℕ) (several : 1 < info.count) where
  pub join_split-first :
      (k : ℕ)
      → info.index ≡ 0
      → info.count ≡ suc k
      → join_split info c [] ≡ ok (none, (info.id, filled (c ∷ []) k) ∷ [])
  unfolding join_split split_entry put_part insert remove lookup
  join_split-first k e n =
      rw (lt→ltb 1 info.count several, n, put_part-filled info.index c [] k e) refl

  module _ (cs : List (List ℕ)) (at_end : info.index ≡ length cs) where
    pub join_split-next :
        (k : ℕ)
        → join_split info c ((info.id, filled cs (suc (suc k))) ∷ [])
          ≡ ok (none, (info.id, filled (cs ++ (c ∷ [])) (suc k)) ∷ [])
    unfolding join_split split_entry
    join_split-next k =
        rw
          (
            lt→ltb 1 info.count several,
            lookup-single info.id (filled cs (suc (suc k))),
            split_entry,
            put_part-filled info.index c cs (suc k) at_end,
            is_ready-waits (cs ++ (c ∷ [])) k,
            insert-single info.id (filled cs (suc (suc k))) (filled (cs ++ (c ∷ [])) (suc k)),
          )
          refl

    pub join_split-last :
        join_split info c ((info.id, filled cs 1) ∷ []) ≡ ok (some (flatten (cs ++ (c ∷ []))), [])
    unfolding join_split split_entry
    join_split-last =
        rw
          (
            lt→ltb 1 info.count several,
            lookup-single info.id (filled cs 1),
            split_entry,
            put_part-filled info.index c cs 0 at_end,
            is_ready-full (cs ++ (c ∷ [])),
            assembled-full (cs ++ (c ∷ [])),
            remove-single info.id (filled cs 1),
          )
          refl

pub reassemble-whole :
    (p : RaknetPacket) (queue : Map Parts)
    → p.split_packet_info ≡ none
    → reassemble p queue ≡ ok (some p.bytes, queue)
unfolding reassemble
reassemble-whole p queue e = rw e refl

pub reassemble-split :
    (p : RaknetPacket) (queue : Map Parts) (info : SplitPacketInfo)
    → p.split_packet_info ≡ some info
    → reassemble p queue ≡ join_split info p.bytes queue
unfolding reassemble
reassemble-split p queue info e = rw e refl

pub deliver_joined-none : (p : RaknetPacket) (s : Receiving) → deliver_joined p none s ≡ s
unfolding deliver_joined
deliver_joined-none p s = refl

pub deliver_joined-some :
    (p : RaknetPacket) (bytes : List ℕ) (s : Receiving)
    → deliver_joined p (some bytes) s ≡ deliver (record p { bytes = bytes }) s
unfolding deliver_joined
deliver_joined-some p bytes s = refl

pub process_all-nil : (s : Receiving) → process_all [] s ≡ ok s
unfolding process_all
process_all-nil s = refl

-- One round of the loop.
pub process_all-step :
    (p : RaknetPacket) (ps : List RaknetPacket) (s : Receiving) {joined : Option (List ℕ)}
    {queue : Map Parts}
    → reassemble p s.part.split_packet_queue ≡ ok (joined, queue)
    → process_all (p ∷ ps) s ≡ process_all ps (handled p joined queue s)
unfolding process_all
process_all-step p ps s e = rw (process-handled p s e) refl

pub process_all-append :
    (ps qs : List RaknetPacket) (s : Receiving)
    → process_all (ps ++ qs) s ≡ (process_all ps s >>= process_all qs)
unfolding process_all
process_all-append [] qs s = refl
process_all-append (p ∷ ps) qs s = bind_parts (process p s) _ _ _ (λ t. process_all-append ps qs t)
