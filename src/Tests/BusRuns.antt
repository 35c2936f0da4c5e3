-- ===== src/Tests/BusRuns.antt =====
-- The virtual clock (vertex/clock.py) and the loopback bus (vertex/transports/loopback.py) on
-- concrete inputs.
use vertex_testbed.Common.Int.{pos}
use vertex_testbed.Transports.Broadcast.{broadcast-Heard, Heard}
use vertex_testbed.Wire.Packet.{StatePacket, IsValid}
use vertex_testbed.Clock.Virtual.{advance-IsAhead, IsAhead}
use vertex_testbed.Common.{
  refl, ◌++◌, All, ◌+◌, inl, ◌≤◌, arith, ◌==◌, ◌≡◌, [], ◌∷◌, ok, true, false,
}
use vertex_testbed.Clock.{VirtualClock, sleep, advance}
use vertex_testbed.Transports.Loopback.{Channel, LoopbackBus, broadcast}

-- Two sleepers, the first of them due sooner.
abbrev clock : VirtualClock
clock = record {
  t = 4;
  waiters = record { deadline = 6; order = 1 } ∷ record { deadline = 9; order = 0 } ∷ [];
  counter = 2;
}

advance-IsAhead_example :
    IsAhead (sleep clock 2)
    × IsAhead (advance clock).0
    × (4 ≤ (advance clock).0.t)
    × All (λ w. w.deadline ≤ (advance clock).0.t) (advance clock).1
    × ((advance clock).1 ++ (advance clock).0.waiters ≡ clock.waiters)
advance-IsAhead_example = advance-IsAhead clock 2 (omega arith, (omega arith, tt))

-- Node 3 does not get what node 1 sends.
abbrev channel : Channel
channel = record { loses = λ a b. b == 3; delays = λ a b. false }

abbrev bus : LoopbackBus
bus = record {
  serialise = true;
  subscribers = 1 ∷ 2 ∷ 3 ∷ [];
  sent = 0;
  delivered = 0;
  dropped = 0;
  received = [];
  delayed = [];
}

abbrev sent_packet : StatePacket
sent_packet = record {
  node_id = 1;
  vstate = pos 8 ∷ [];
  seq = 3;
  tx_time_us = 77;
  enabled = true;
  disturbance_on = false;
}

sent_packet-IsValid : IsValid sent_packet
sent_packet-IsValid = record {
  id_low = omega arith;
  id_high = omega arith;
  coordinates = inl refl;
  fits = refl;
  seq_fits = omega arith;
  time_fits = omega arith;
}

broadcast-Heard_example :
    (bus' : LoopbackBus) × (broadcast channel bus 1 sent_packet ≡ ok bus')
    × Heard channel 1 sent_packet (1 ∷ 2 ∷ 3 ∷ []) (record bus { sent = 0 + 1 }) bus'
broadcast-Heard_example = broadcast-Heard channel bus 1 sent_packet sent_packet-IsValid
