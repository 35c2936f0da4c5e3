-- ===== src/Agent/Neighbors/Latest.antt =====
-- The record of a neighbour in the table of vertex/agent/neighbors.py after a stream of receptions.
use vertex_testbed.Agent.Neighbors.Topology.{observe-take_in}
use vertex_testbed.Common.Dict.{lookup-insert_self, lookup-insert}
use vertex_testbed.Agent.Neighbors.Streams.{observe_all-neighbor_ids, observe-neighbor_ids, senders}
use vertex_testbed.Common.{
  ap, ◌∙◌, refl, ◌||◌, ==_iff, sym, inr, inl, subst, arith, ◌+◌, Bool-cases, ◌≡◌, ◌++◌, ◌==◌,
  if◌then◌else◌, List, [], ◌∷◌, ℕ, suc, Option, none, some,
}
use vertex_testbed.Agent.Neighbors.{
  record_of, lookup, true, false, elem, observe, NeighborTable, NeighborRecord, Reception,
  observe_all,
}

-- How often `x` stands in a list.
abbrev occurrences : ℕ → List ℕ → ℕ
occurrences x [] = 0
occurrences x (y ∷ ys) = let n = occurrences x ys in if x == y then suc n else n

abbrev updates_of : Option NeighborRecord → ℕ
updates_of none = 0
updates_of (some r) = r.updates

updates_after-updates_of :
    (r : Reception) (o : Option NeighborRecord)
    → updates_of (some (record_of r o)) ≡ updates_of o + 1
updates_after-updates_of r none = refl
updates_after-updates_of r (some o) = refl

module _ (id : ℕ) where
  lookup-observe_other :
      (t : NeighborTable) (r : Reception)
      → (id == r.packet.node_id) ≡ false
      → lookup id (observe t r).0.records ≡ lookup id t.records
  unfolding observe
  lookup-observe_other t r ne = elim (Bool-cases (elem r.packet.node_id t.neighbor_ids)) [
    | inl e ↦
        rw
          (
            e,
            lookup-insert r.packet.node_id id (record_of r (lookup r.packet.node_id t.records))
                t.records,
            flip id r.packet.node_id ne,
          )
          refl
    | inr e ↦ rw e refl
  ]
    where
      flip : (a b : ℕ) → (a == b) ≡ false → (b == a) ≡ false
      flip a b h = ground arith

  lookup-observe_own :
      (t : NeighborTable) (r : Reception)
      → elem id t.neighbor_ids ≡ true
      → id ≡ r.packet.node_id
      → lookup id (observe t r).0.records ≡ some (record_of r (lookup id t.records))
  lookup-observe_own t r h e =
      subst
        (λ i.
          elem i t.neighbor_ids ≡ true
          → lookup i (observe t r).0.records ≡ some (record_of r (lookup i t.records)))
        (sym e) (λ k. rw (observe-take_in t r k) (lookup-insert_self r.packet.node_id _ t.records))
        h

  updates-observe :
      (t : NeighborTable) (r : Reception)
      → elem id t.neighbor_ids ≡ true
      → updates_of (lookup id (observe t r).0.records)
        ≡ updates_of (lookup id t.records) + (if id == r.packet.node_id then 1 else 0)
  updates-observe t r h = elim (Bool-cases (id == r.packet.node_id)) [
    | inl e ↦
        rw (e, lookup-observe_own t r h ((==_iff id r.packet.node_id).0 e))
          (updates_after-updates_of r (lookup id t.records))
    | inr e ↦ rw (e, lookup-observe_other t r e) (omega arith)
  ]

  updates-observe_all :
      (rs : List Reception) (t : NeighborTable)
      → elem id t.neighbor_ids ≡ true
      → updates_of (lookup id (observe_all t rs).records)
        ≡ updates_of (lookup id t.records) + occurrences id (senders rs)
  unfolding observe_all
  updates-observe_all [] t h = omega arith
  updates-observe_all (r ∷ rs) t h =
      let later = updates-observe_all rs (observe t r).0 (rw (observe-neighbor_ids t r) h) in
      ground (arith, later, updates-observe t r h)

  lookup-observe_others :
      (rs : List Reception) (t : NeighborTable)
      → elem id (senders rs) ≡ false
      → lookup id (observe_all t rs).records ≡ lookup id t.records
  unfolding observe_all
  lookup-observe_others [] t h = refl
  lookup-observe_others (r ∷ rs) t h = elim (Bool-cases (id == r.packet.node_id)) [
    | inl e ↦ cc (e, h)
    | inr e ↦
        lookup-observe_others rs (observe t r).0
          (subst (λ b. (b || elem id (senders rs)) ≡ false) e h)
        ∙ lookup-observe_other t r e
  ]

observe_all-append :
    (xs ys : List Reception) (t : NeighborTable)
    → observe_all t (xs ++ ys) ≡ observe_all (observe_all t xs) ys
unfolding observe_all
observe_all-append [] ys t = refl
observe_all-append (x ∷ xs) ys t = observe_all-append xs ys (observe t x).0

-- After a stream that a reception `r` of a declared neighbour is in, and no later packet of that
-- neighbour, the table has for it what the packet of `r` carried and when
-- and how strongly it came, with the number of its packets so far added to
-- the updates that the table had counted.
pub lookup-observe_all_latest :
    (t : NeighborTable) (before after : List Reception) (r : Reception)
    → let id = r.packet.node_id in
      elem id t.neighbor_ids ≡ true
      → elem id (senders after) ≡ false
      → lookup id (observe_all t (before ++ (r ∷ after))).records
        ≡ some (record {
          vstate = r.packet.vstate;
          seq = r.packet.seq;
          tx_time_us = r.packet.tx_time_us;
          rx_time_us = r.rx_time_us;
          sender_enabled = r.packet.enabled;
          rssi = r.rssi;
          updates = updates_of (lookup id t.records) + suc (occurrences id (senders before));
        })
unfolding observe_all
lookup-observe_all_latest t before after r declared last =
    let id = r.packet.node_id in
    let t1 = observe_all t before in
    ap (λ u. lookup id u.records) (observe_all-append before (r ∷ after) t)
    ∙ lookup-observe_others id after (observe t1 r).0 last
    ∙ lookup-observe_own id t1 r (rw (observe_all-neighbor_ids before t) declared) refl
    ∙ ap (λ n. some (record (record_of r none) { updates = n }))
        (omega (
          arith,
          updates_after-updates_of r (lookup id t1.records),
          updates-observe_all id before t declared,
        ))
