-- ===== src/Agent/Neighbors.antt =====
-- `NeighborTable` of vertex/agent/neighbors.py, with `Reception` of vertex/transports/base.py: the
-- latest state of each neighbour.
pub mod Streams
pub mod Topology
pub mod Latest
pub mod Snapshot
use vertex_testbed.Wire.Monitor.{LinkMonitor}
use vertex_testbed.Wire.Packet.{StatePacket}
use vertex_testbed.Common.Dict.{insert, or_default, lookup, Dict, contains}
use vertex_testbed.Common.Int.{◌-ℤ◌, pos, leb_ℤ, ℤ}
use vertex_testbed.Common.{
  length, ◌-◌, ◌||◌, true, ◌&&◌, ◌++◌, false, elem, replicate, take, Bool, not, if◌then◌else◌, ◌+◌,
  map, List, [], ◌∷◌, ℕ, zero, suc, Option, none, some,
}
use vertex_testbed.Wire.Monitor

-- A packet as received. `rssi` is in dBm.
pub record Reception : Type 0 where
  pub packet : StatePacket
  pub rx_time_us : ℤ
  pub rssi : Option ℤ

pub record NeighborRecord : Type 0 where
  pub vstate : List ℤ
  pub seq : ℕ
  pub tx_time_us : ℕ
  pub rx_time_us : ℤ
  pub sender_enabled : Bool
  pub rssi : Option ℤ
  pub updates : ℕ

-- `_arrived` is a set: a list without repetitions.
pub record NeighborTable : Type 0 where
  pub neighbor_ids : List ℕ
  pub max_age_us : ℕ
  pub dim : ℕ
  pub hold : Bool
  pub monitor : LinkMonitor
  pub records : Dict NeighborRecord
  pub arrived : List ℕ
  pub ignored : ℕ
  pub first_seen_us : Dict ℤ

-- The constructor. `max_age_us` is what `round(max_age_s * 1e6)` comes to.
unfoldable pub neighbor_table : List ℕ → ℕ → ℕ → Bool → LinkMonitor → NeighborTable
neighbor_table ids age dim hold monitor = record {
  neighbor_ids = ids;
  max_age_us = age;
  dim = dim;
  hold = hold;
  monitor = monitor;
  records = [];
  arrived = [];
  ignored = 0;
  first_seen_us = [];
}

abbrev age_us : NeighborRecord → ℤ → ℤ
age_us r now = now -ℤ r.rx_time_us

-- `set.add`
unfoldable pub add : ℕ → List ℕ → List ℕ
add x xs = if elem x xs then xs else x ∷ xs

-- `dict.setdefault`, for its effect.
unfoldable pub setdefault : ℕ → ℤ → Dict ℤ → Dict ℤ
setdefault k v d = if contains k d then d else insert k v d

abbrev updates_after : Option NeighborRecord → ℕ
updates_after none = 1
updates_after (some prev) = prev.updates + 1

-- The record that a reception leaves.
abbrev pub record_of : Reception → Option NeighborRecord → NeighborRecord
record_of r prev = record {
  vstate = r.packet.vstate;
  seq = r.packet.seq;
  tx_time_us = r.packet.tx_time_us;
  rx_time_us = r.rx_time_us;
  sender_enabled = r.packet.enabled;
  rssi = r.rssi;
  updates = updates_after prev;
}

unfoldable pub observe : NeighborTable → Reception → NeighborTable × Bool
observe t r =
    let id = r.packet.node_id in
    if not (elem id t.neighbor_ids) then (record t { ignored = t.ignored + 1 }, false) else (
      record t {
        arrived = add id t.arrived;
        first_seen_us = setdefault id r.rx_time_us t.first_seen_us;
        monitor = Monitor.observe t.monitor r.packet (some r.rx_time_us);
        records = insert id (record_of r (lookup id t.records)) t.records;
      },
      true,
    )

-- `list(v[:dim]) + [0] * max(0, dim - len(v))`
abbrev pub padded : ℕ → List ℤ → List ℤ
padded dim v = take dim v ++ replicate (dim - length v) (pos 0)

-- What one neighbour adds to a snapshot.
unfoldable pub entry : NeighborTable → ℤ → Option NeighborRecord → List ℤ × Bool
entry t now none = (replicate t.dim (pos 0), false)
entry t now (some r) =
    (padded t.dim r.vstate, r.sender_enabled && (t.hold || leb_ℤ (age_us r now) (pos t.max_age_us)))

-- The loop of `snapshot` over the neighbours that are left.
unfoldable pub snapshot_of : NeighborTable → ℤ → List ℕ → List ℤ × List Bool
snapshot_of t now [] = ([], [])
snapshot_of t now (id ∷ ids) =
    let (values, usable) = entry t now (lookup id t.records) in
    let (vstates, enabled) = snapshot_of t now ids in (values ++ vstates, usable ∷ enabled)

unfoldable pub snapshot : NeighborTable → ℤ → List ℤ × List Bool
unfolding snapshot_of entry
snapshot t now = snapshot_of t now t.neighbor_ids

abbrev fresh_entry : NeighborTable → ℤ → Option NeighborRecord → Bool
fresh_entry t now none = false
fresh_entry t now (some r) = leb_ℤ (age_us r now) (pos t.max_age_us)

unfoldable pub freshness : NeighborTable → ℤ → List Bool
freshness t now = map (λ id. fresh_entry t now (lookup id t.records)) t.neighbor_ids

abbrev seq_or_0 : Option NeighborRecord → ℕ
seq_or_0 none = 0
seq_or_0 (some r) = r.seq

unfoldable pub last_seq : NeighborTable → List ℕ
last_seq t = map (λ id. seq_or_0 (lookup id t.records)) t.neighbor_ids

abbrev rssi_or_0 : Option NeighborRecord → ℤ
rssi_or_0 none = pos 0
rssi_or_0 (some r) = or_default r.rssi (pos 0)

unfoldable last_rssi : NeighborTable → List ℤ
last_rssi t = map (λ id. rssi_or_0 (lookup id t.records)) t.neighbor_ids

-- Read and clear.
unfoldable pub arrivals : NeighborTable → NeighborTable × List Bool
arrivals t = (record t { arrived = [] }, map (λ id. elem id t.arrived) t.neighbor_ids)

-- `sum` of Booleans.
unfoldable pub count : List Bool → ℕ
count [] = 0
count (b ∷ bs) = if b then suc (count bs) else count bs

unfoldable fresh_count : NeighborTable → ℤ → ℕ
fresh_count t now = count (snapshot t now).1

unfoldable pub filter_by : (ℕ → Bool) → List ℕ → List ℕ
filter_by keep [] = []
filter_by keep (x ∷ xs) = let rest = filter_by keep xs in if keep x then x ∷ rest else rest

unfoldable pub heard : NeighborTable → List ℕ
heard t = filter_by (λ id. contains id t.records) t.neighbor_ids

unfoldable pub missing : NeighborTable → List ℕ
missing t = filter_by (λ id. not (contains id t.records)) t.neighbor_ids

-- Receptions in the order in which the transport delivers them.
unfoldable pub observe_all : NeighborTable → List Reception → NeighborTable
observe_all t [] = t
observe_all t (r ∷ rest) = observe_all (observe t r).0 rest
