-- ===== src/Agent/Neighbors/Topology.antt =====
-- What the neighbour table of vertex/agent/neighbors.py holds after a stream of receptions: the
-- declared topology and the latest packet of each neighbour.
use vertex_testbed.Agent.Neighbors.Streams.{
  contains-observe_all, declared, or_false, arrived-observe_all, map-elem_congr,
  observe_all-neighbor_ids, senders,
}
use vertex_testbed.Wire.Monitor
use vertex_testbed.Common.Dict
use vertex_testbed.Common.{
  sym, ==_refl, inr, ◌==◌, inl, ap, Bool-cases, arith, ◌-◌, ◌+◌, ◌≤◌, refl, ◌∙◌, ◌≡◌, List, [], ◌∷◌,
  ℕ, some,
}
use vertex_testbed.Agent.Neighbors.{
  lookup, record_of, insert, not, setdefault, add, LinkMonitor, contains, neighbor_table, true,
  Bool, missing, filter_by, observe, heard, length, false, elem, map, arrivals, NeighborTable,
  Reception, observe_all,
}

-- `arrivals` after a stream says of each declared neighbour, in the declared order, whether a packet
-- of it was among those received since `arrivals` was last called; and it clears that account, so
-- that read again at once it says of no neighbour that a packet arrived.
arrivals-observe_all :
    (t : NeighborTable) (rs : List Reception)
    → ((arrivals (observe_all (arrivals t).0 rs)).1
        ≡ map (λ id. elem id (senders rs)) t.neighbor_ids)
      × ((arrivals (arrivals t).0).1 ≡ map (λ id. false) t.neighbor_ids)
unfolding arrivals
arrivals-observe_all t rs = (
  rw (observe_all-neighbor_ids rs (record t { arrived = [] })) (
      map-elem_congr _ _ t.neighbor_ids (λ id h.
        arrived-observe_all id rs (record t { arrived = [] }) h ∙ or_false (elem id (senders rs)))),
  refl,
)

filter_by-congr :
    (f g : ℕ → Bool) (ids : List ℕ)
    → ((id : ℕ) → elem id ids ≡ true → f id ≡ g id)
    → filter_by f ids ≡ filter_by g ids
unfolding filter_by
filter_by-congr f g [] h = refl
filter_by-congr f g (i ∷ ids) h =
    rw (h i (rw (==_refl i) refl), filter_by-congr f g ids (λ id k. h id (later id k))) refl
  where
    later : (id : ℕ) → elem id ids ≡ true → elem id (i ∷ ids) ≡ true
    later id k = elim (Bool-cases (id == i)) [ inl e ↦ rw e refl | inr e ↦ rw e k ]

-- A table made new and given a stream: `heard` is the declared neighbours of which the stream has a
-- packet and `missing` those of which it has none, each in the declared order.
heard-observe_all :
    (ids : List ℕ) (age dim : ℕ) (hold : Bool) (m : LinkMonitor) (rs : List Reception)
    → let t = observe_all (neighbor_table ids age dim hold m) rs in
      (heard t ≡ filter_by (λ id. elem id (senders rs)) ids)
      × (missing t ≡ filter_by (λ id. not (elem id (senders rs))) ids)
unfolding heard missing neighbor_table Dict.contains
heard-observe_all ids age dim hold m rs =
    let new = neighbor_table ids age dim hold m in
    let same : (id : ℕ)
        → elem id ids ≡ true
        → contains id (observe_all new rs).records ≡ elem id (senders rs) =
      λ id h. contains-observe_all id rs new h ∙ or_false (elem id (senders rs)) in
    rw (observe_all-neighbor_ids rs new)
      (filter_by-congr _ _ ids same, filter_by-congr _ _ ids (λ id h. ap not (same id h)))

length-declared : (ids : List ℕ) (rs : List Reception) → length (declared ids rs) ≤ length rs
length-declared ids [] = omega arith
length-declared ids (r ∷ rs) = ground (arith, length-declared ids rs)

ignored_of : NeighborTable → ℕ → NeighborTable
ignored_of t k = record t { ignored = k }

-- The table after a packet of a declared neighbour.
abbrev take_in : NeighborTable → Reception → NeighborTable
take_in t r = record t {
  arrived = add r.packet.node_id t.arrived;
  first_seen_us = setdefault r.packet.node_id r.rx_time_us t.first_seen_us;
  monitor = Monitor.observe t.monitor r.packet (some r.rx_time_us);
  records = insert r.packet.node_id (record_of r (lookup r.packet.node_id t.records)) t.records;
}

pub observe-take_in :
    (t : NeighborTable) (r : Reception)
    → elem r.packet.node_id t.neighbor_ids ≡ true
    → (observe t r).0 ≡ take_in t r
unfolding observe
observe-take_in t r e = rw e refl

observe-ignored_of :
    (t : NeighborTable) (r : Reception)
    → elem r.packet.node_id t.neighbor_ids ≡ false
    → (observe t r).0 ≡ ignored_of t (t.ignored + 1)
unfolding observe ignored_of
observe-ignored_of t r e = rw e refl

observe_all-ignored_of :
    (rs : List Reception) (t : NeighborTable) (k : ℕ)
    → observe_all (ignored_of t k) rs
      ≡ ignored_of
          (observe_all t (declared t.neighbor_ids rs))
          (k + (length rs - length (declared t.neighbor_ids rs)))
unfolding observe_all ignored_of
observe_all-ignored_of [] t k = ap (ignored_of t) (omega arith)
observe_all-ignored_of (r ∷ rs) t k = elim (Bool-cases (elem r.packet.node_id t.neighbor_ids)) [
  | inl e ↦ rw e (
      ap (λ u. observe_all u rs) (observe-take_in (ignored_of t k) r e)
      ∙ observe_all-ignored_of rs (take_in t r) k
      ∙ ap
          (λ u.
            ignored_of (observe_all u (declared t.neighbor_ids rs))
              (k + (length rs - length (declared t.neighbor_ids rs))))
          (sym (observe-take_in t r e))
      ∙ ap (ignored_of (observe_all (observe t r).0 (declared t.neighbor_ids rs))) (omega arith))
  | inr e ↦
      rw (e, observe-ignored_of (ignored_of t k) r e)
        (observe_all-ignored_of rs t (k + 1)
          ∙ ap (ignored_of (observe_all t (declared t.neighbor_ids rs)))
              (omega (arith, length-declared t.neighbor_ids rs)))
]

-- What is counted as ignored apart, a stream leaves the table as its packets of declared neighbours
-- alone do, and the count of ignored packets grows by the number of the others.
pub observe_all-declared :
    (rs : List Reception) (t : NeighborTable)
    → observe_all t rs ≡ record (observe_all t (declared t.neighbor_ids rs)) {
      ignored = t.ignored + (length rs - length (declared t.neighbor_ids rs));
    }
unfolding ignored_of
observe_all-declared rs t = observe_all-ignored_of rs t t.ignored
