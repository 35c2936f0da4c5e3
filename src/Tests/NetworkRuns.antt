-- ===== src/Tests/NetworkRuns.antt =====
-- The UDP transport, advertising events and the topology's check on concrete inputs.
use vertex_testbed.Transports.Udp.{UdpTransport, udp_transport, publish, handle}
use vertex_testbed.Transports.Udp.Delivery.{publish-handle, after_send, after_delivery, after_echo}
use vertex_testbed.Wire.Packet.{StatePacket}
use vertex_testbed.Wire.Packet
use vertex_testbed.Radio.Hci.{AdvReport, parse_adv_reports, subevt_adv_report}
use vertex_testbed.Radio.Hci.Reports.{parse_adv_reports-batch, report_bytes, batch}
use vertex_testbed.Topology.Models.{NodeSpec, ExperimentManifest}
use vertex_testbed.Topology.Validate.{Networkx}
use vertex_testbed.Agent.Service.{AgentType}
use vertex_testbed.Common.{
  List, [], ◌∷◌, ℕ, none, some, ok, true, false, ◌++◌, ◌≡◌, ◌==◌, refl, arith, take, inl,
  if◌then◌else◌,
}
use vertex_testbed.Common.Bytes.{Bytes}
use vertex_testbed.Common.Int.{pos, negsuc}

abbrev packet : StatePacket
packet = record {
  node_id = 1;
  vstate = pos 8 ∷ [];
  seq = 3;
  tx_time_us = 77;
  enabled = true;
  disturbance_on = false;
}

packet-IsValid : Packet.IsValid packet
packet-IsValid = record {
  id_low = omega arith;
  id_high = omega arith;
  coordinates = inl refl;
  fits = refl;
  seq_fits = omega arith;
  time_fits = omega arith;
}

abbrev opened : ℕ → UdpTransport
opened node_id = record (udp_transport node_id) { is_open = true; subscribed = true }

publish-handle_example :
    (payload : Bytes) × (publish true (opened 1) packet ≡ ok (after_send (opened 1) payload))
    × (((1 == 2) ≡ false
          → handle (λ r. true) (opened 2) payload 9
            ≡ after_delivery
                (opened 2)
                (record { packet = packet; rx_time_us = pos 9; rssi = none }))
        × ((1 == 2) ≡ true → handle (λ r. true) (opened 2) payload 9 ≡ after_echo (opened 2)))
publish-handle_example =
    publish-handle (opened 1) (opened 2) packet (λ r. true) 9 packet-IsValid refl refl refl

abbrev near : AdvReport
near = record {
  event_type = 3;
  addr_type = 1;
  addr = 1 ∷ 2 ∷ 3 ∷ 4 ∷ 5 ∷ 6 ∷ [];
  data_ = 2 ∷ 1 ∷ 6 ∷ [];
  rssi = negsuc 59;
}

abbrev far : AdvReport
far = record near { data_ = []; rssi = negsuc 90 }

parse_adv_reports-batch_example :
    parse_adv_reports
      (subevt_adv_report ∷ 3 ∷ (batch (near ∷ far ∷ []) ++ take 9 (report_bytes near)))
    ≡ near ∷ far ∷ []
parse_adv_reports-batch_example =
    parse_adv_reports-batch (near ∷ far ∷ []) 3 near 9 ((refl, refl), ((refl, refl), tt))
      (refl, refl) (omega arith) (omega arith)

-- A board that reads a gateway, which is pinned and reads the board.
abbrev gateway : NodeSpec
gateway = record { id = 1; ip = 10; type = AgentType.bridge; enabled = true; neighbors = 2 ∷ [] }

abbrev manifest : ExperimentManifest
manifest = record {
  nodes =
      gateway
      ∷ record { id = 2; ip = 11; type = AgentType.ble; enabled = true; neighbors = 1 ∷ [] }
      ∷ [];
  pinned = some (1 ∷ []);
}

-- What networkx answers for this graph, in which each vertex is at most one edge away.
abbrev successors : ℕ → List (ℕ × ℕ) → List ℕ
successors p [] = []
successors p ((a, b) ∷ es) = if p == a then b ∷ successors p es else successors p es

abbrev networkx : Networkx
networkx = record {
  is_weakly_connected = λ g. true;
  is_strongly_connected = λ g. true;
  descendants = λ g p. successors p g.edges;
}
