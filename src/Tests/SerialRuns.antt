-- ===== src/Tests/SerialRuns.antt =====
-- Frames, the parser and the payloads (vertex/serial/proto.py) on concrete inputs.
use vertex_testbed.Serial.FrameType.{control}
use vertex_testbed.Common.Int.{negsuc, pos}
use vertex_testbed.Serial.Contains.{feed-Contains, Contains}
use vertex_testbed.Serial.PayloadLen.{built_len, Built-payload_len, accepts}
use vertex_testbed.Serial.Parser.{frame_parser, feed}
use vertex_testbed.Common.Bytes.{le_bytes, to_bytes, pack_u, IsByte, Bytes}
use vertex_testbed.Serial.StateRoundTrip.{
  microgrid, no_neighbour, decode_state-encode_state, neighbour_then, IsSound,
}
use vertex_testbed.Serial.Frame.{Frame, is_known}
use vertex_testbed.Serial.Payload.{payload_len, encode_control}
use vertex_testbed.Serial.StateReport.{decode_state, StateReport, encode_state}
use vertex_testbed.Common.{
  ◌==◌, not, length, ◌≡◌, refl, arith, ◌>>=◌, All, [], ◌∷◌, none, some, ok, true, false,
}
use vertex_testbed.Serial.FrameType
use vertex_testbed.Serial.PayloadLen
use vertex_testbed.Serial.Stream.{feed-build_all, build_all, feed-build_all, Receives, IsSendable}

abbrev ping_frame : Frame
ping_frame = record { type = FrameType.ping; payload = [] }

abbrev state_frame : Frame
state_frame = record { type = FrameType.state; payload = 0x7E ∷ 2 ∷ [] }

frames-IsSendable : All IsSendable (ping_frame ∷ state_frame ∷ [])
unfolding is_known
frames-IsSendable =
    (record { known = refl; fits = omega arith }, (record { known = refl; fits = omega arith }, tt))

feed-build_all_example :
    (bs : Bytes) × (build_all (ping_frame ∷ state_frame ∷ []) ≡ ok bs)
    × Receives frame_parser (ping_frame ∷ state_frame ∷ []) (feed frame_parser bs)
feed-build_all_example =
    feed-build_all (ping_frame ∷ state_frame ∷ []) frame_parser frames-IsSendable refl

-- A start byte in noise, with a type that is not known behind it.
abbrev noise : Bytes
noise = 3 ∷ 0x7E ∷ 0x7E ∷ 255 ∷ []

noise-IsByte : All IsByte noise
noise-IsByte = ground arith

feed-Contains_example : Contains noise (feed frame_parser noise).1
feed-Contains_example = feed-Contains frame_parser noise refl noise-IsByte

-- A report of two neighbours under a microgrid law.
abbrev report : StateReport
report = record {
  t_us = 1500;
  state = pos 3;
  vstate = negsuc 6;
  vartheta = pos 0;
  counter = pos 9;
  neighbor_vstates = pos 1 ∷ negsuc 1 ∷ [];
  neighbor_enabled = true ∷ false ∷ [];
  neighbor_fresh = true ∷ true ∷ [];
  neighbor_seq = 400 ∷ 0 ∷ [];
  neighbor_rssi = negsuc 60 ∷ pos 0 ∷ [];
  state_Q = some (pos 5);
  vstate_Q = some (negsuc 5);
  S1_hat = none;
  S2_hat = none;
}

report-IsSound : IsSound report
report-IsSound = record {
  time = omega arith;
  state_fits = refl;
  vstate_fits = refl;
  vartheta_fits = refl;
  counter_fits = refl;
  few = omega arith;
  rows =
      neighbour_then refl (omega arith) refl (neighbour_then refl (omega arith) refl no_neighbour);
  tail = microgrid refl refl;
}

decode_state-encode_state_example : (encode_state report >>= decode_state) ≡ ok report
decode_state-encode_state_example = decode_state-encode_state report report-IsSound

-- The payload of a CONTROL frame that triggers a run.
abbrev trigger : Bytes
trigger = 1 ∷ 5 ∷ 0 ∷ 0 ∷ 0 ∷ 9 ∷ 0 ∷ 0 ∷ 0 ∷ 0 ∷ 0 ∷ []

trigger-encode_control : encode_control true 5 9 ≡ ok trigger
unfolding encode_control pack_u to_bytes le_bytes
trigger-encode_control = refl

Built-payload_len_example :
    (length trigger ≡ built_len FrameType.control)
    × (accepts (payload_len FrameType.control) (length trigger)
        ≡ not (FrameType.control == FrameType.algorithm))
Built-payload_len_example =
    Built-payload_len FrameType.control trigger
      (PayloadLen.Built.control true 5 9 trigger-encode_control)
