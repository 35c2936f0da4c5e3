-- ===== src/Tests/WireRuns.antt =====
-- Packets and their bytes (vertex/wire/codec.py) on concrete inputs.
use vertex_testbed.Wire.RoundTrip.{decode-encode}
use vertex_testbed.Wire.Reencode.{encode-decode}
use vertex_testbed.Common.Int.{negsuc, pos, ℤ}
use vertex_testbed.Common.Bytes.{IsByte, Bytes}
use vertex_testbed.Common.Dict.{lookup}
use vertex_testbed.Wire.Packet.{IsValid, StatePacket}
use vertex_testbed.Wire.InOrder.{stats_of-InOrder, Advanced}
use vertex_testbed.Wire.Accounting.{from_node, observe_all-IsBalanced, counted, IsBalanced}
use vertex_testbed.Wire.Monitor.{link_monitor, link_stats, stats_of, LinkMonitor}
use vertex_testbed.Wire.Codec.{decode_any, decode, encode}
use vertex_testbed.Wire.Total.{decode_any-Decodes, Decodes}
use vertex_testbed.Common.{
  ◌^◌, inl, ◌≤◌, ◌<◌, refl, length, inr, ◌≡◌, arith, All, List, [], ◌∷◌, ℕ, Option, none, some, ok,
  true, false,
}
use vertex_testbed.Wire.Monitor
use vertex_testbed.Wire.Codec.{decode_v1}
use vertex_testbed.Common.Bytes.{unpack_u, unpack_i32, from_le}
use vertex_testbed.Common.Int.{of_word}
use vertex_testbed.Common.Dict.{insert}
use vertex_testbed.Wire.Packet.{state_packet}

-- A packet of a node with two coordinates.
abbrev pq_packet : StatePacket
pq_packet = record {
  node_id = 7;
  vstate = pos 12 ∷ negsuc 4 ∷ [];
  seq = 65535;
  tx_time_us = 1000000;
  enabled = true;
  disturbance_on = false;
}

pq_packet-IsValid : IsValid pq_packet
pq_packet-IsValid = record {
  id_low = omega arith;
  id_high = omega arith;
  coordinates = inr refl;
  fits = refl;
  seq_fits = omega arith;
  time_fits = omega arith;
}

decode-encode_example :
    (out : Bytes) × (encode pq_packet ≡ ok out)
    × (length out ≡ 19)
    × (decode out ≡ ok pq_packet)
    × (decode_any out ≡ ok pq_packet)
decode-encode_example = decode-encode pq_packet pq_packet-IsValid

-- The bytes of a packet with one coordinate, and flags that are defined.
abbrev frame : Bytes
frame = 1 ∷ 3 ∷ 7 ∷ 0 ∷ 5 ∷ 0 ∷ 1 ∷ 0 ∷ 0 ∷ 0 ∷ 9 ∷ 0 ∷ 0 ∷ 0 ∷ 0 ∷ 0 ∷ []

frame-IsByte : All IsByte frame
frame-IsByte = ground arith

abbrev frame_packet : StatePacket
frame_packet = record {
  node_id = 7;
  vstate = pos 1 ∷ [];
  seq = 5;
  tx_time_us = 9;
  enabled = true;
  disturbance_on = true;
}

decode-frame : decode frame ≡ ok frame_packet
unfolding decode decode_v1 unpack_u unpack_i32 from_le state_packet of_word
decode-frame = refl

encode-decode_example : encode frame_packet ≡ ok frame
encode-decode_example = encode-decode frame frame_packet frame-IsByte (omega arith) decode-frame

decode_any-Decodes_example : Decodes (decode frame) × Decodes (decode_any frame)
decode_any-Decodes_example = decode_any-Decodes frame frame-IsByte

abbrev from_seven : ℕ → StatePacket
from_seven seq = record frame_packet { seq = seq }

-- Three packets of one node round the wrap, the second of five lost.
abbrev wrapped : List (StatePacket × Option ℤ)
wrapped = (from_seven 65535, none) ∷ (from_seven 2, none) ∷ []

stats_of-InOrder_example :
    Advanced
      (record link_stats { expected = 1; received = 1 })
      (stats_of (Monitor.observe_all (link_monitor 64) ((from_seven 65534, none) ∷ wrapped)) 7)
      2
      65534
      65538
unfolding from_node
stats_of-InOrder_example =
    stats_of-InOrder 64 (from_seven 65534) none wrapped 65534 65538 (omega arith) refl (
      inl (
        1,
        refl,
        omega arith,
        omega arith,
        refl,
        inl (3, refl, omega arith, omega arith, refl, refl),
      ))

observe_all-IsBalanced_example :
    IsBalanced (stats_of (Monitor.observe_all (link_monitor 64) wrapped) 7)
    × (counted (stats_of (Monitor.observe_all (link_monitor 64) wrapped) 7) ≡ 2)
unfolding from_node
observe_all-IsBalanced_example = observe_all-IsBalanced 64 wrapped 7

abbrev seen : LinkMonitor
seen = Monitor.observe (link_monitor 64) (from_seven 2) none

seen-last : lookup 7 seen.last_seq ≡ some 2
unfolding Monitor.observe lookup Monitor.account insert
seen-last = refl

seen-window : seen.reorder_window ≤ 2 ^ 15
unfolding Monitor.observe
seen-window = omega arith

seen-near : 1 < seen.reorder_window
unfolding Monitor.observe
seen-near = omega arith
