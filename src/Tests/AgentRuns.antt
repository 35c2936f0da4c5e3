-- ===== src/Tests/AgentRuns.antt =====
-- The neighbour table (vertex/agent/neighbors.py) on concrete inputs.
use vertex_testbed.Agent.Neighbors.Latest.{lookup-observe_all_latest}
use vertex_testbed.Agent.Neighbors.Snapshot.{
  is_recent, snapshot-freshness, senders_enabled, zip_and,
}
use vertex_testbed.Agent.Neighbors.Topology.{observe_all-declared}
use vertex_testbed.Common.Int.{negsuc, pos}
use vertex_testbed.Wire.Monitor.{link_monitor}
use vertex_testbed.Common.Dict.{lookup}
use vertex_testbed.Agent.Neighbors.{
  freshness, missing, record_of, heard, neighbor_table, NeighborTable, Reception, arrivals,
  filter_by, snapshot,
}
use vertex_testbed.Common.{
  ◌||◌, map, refl, ◌-◌, ◌++◌, ◌+◌, ◌≡◌, List, [], ◌∷◌, ℕ, some, true, false,
}
use vertex_testbed.Agent.Neighbors

-- A table of the neighbours 2 and 3, with values held for half a second at most.
abbrev table : NeighborTable
table = record {
  neighbor_ids = 2 ∷ 3 ∷ [];
  max_age_us = 500000;
  dim = 2;
  hold = false;
  monitor = link_monitor 64;
  records = [];
  arrived = [];
  ignored = 0;
  first_seen_us = [];
}

abbrev reception : ℕ → ℕ → Reception
reception id seq = record {
  packet = record {
    node_id = id;
    vstate = pos seq ∷ [];
    seq = seq;
    tx_time_us = 1;
    enabled = true;
    disturbance_on = false;
  };
  rx_time_us = pos 100;
  rssi = some (negsuc 50);
}

abbrev before_last : List Reception
before_last = reception 2 1 ∷ reception 9 1 ∷ []

abbrev after_last : List Reception
after_last = reception 3 7 ∷ []

lookup-observe_all_latest_example :
    lookup 2 (Neighbors.observe_all table (before_last ++ (reception 2 2 ∷ after_last))).records
    ≡ some (record {
      vstate = (reception 2 2).packet.vstate;
      seq = (reception 2 2).packet.seq;
      tx_time_us = (reception 2 2).packet.tx_time_us;
      rx_time_us = (reception 2 2).rx_time_us;
      sender_enabled = (reception 2 2).packet.enabled;
      rssi = (reception 2 2).rssi;
      updates = 0 + 2;
    })
unfolding lookup
lookup-observe_all_latest_example =
    lookup-observe_all_latest table before_last after_last (reception 2 2) refl refl

observe_all-declared_example :
    Neighbors.observe_all table before_last
    ≡ record (Neighbors.observe_all table (reception 2 1 ∷ [])) { ignored = 0 + (2 - 1) }
observe_all-declared_example = observe_all-declared before_last table

snapshot-freshness_example :
    ((snapshot table (pos 5)).1
      ≡ zip_and
          (senders_enabled table)
          (map (λ fresh. table.hold || fresh) (freshness table (pos 5))))
    × (freshness table (pos 5)
        ≡ map (λ id. is_recent table (pos 5) (lookup id table.records)) table.neighbor_ids)
    × ((snapshot table (pos 5)).0 ≡ (snapshot table (pos 900)).0)
snapshot-freshness_example = snapshot-freshness table (pos 5) (pos 900)
