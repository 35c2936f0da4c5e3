-- ===== src/Tests/LinkRuns.antt =====
-- The serial link (vertex/serial/link.py) on concrete inputs.
use vertex_testbed.Serial.Link.Counts.{pump_all-accounted, accounted}
use vertex_testbed.Serial.Link.Gate.{ended_with, request-first_reply, first_reply, heard}
use vertex_testbed.Serial.Parser.{frame_parser}
use vertex_testbed.Common.Bytes.{Bytes}
use vertex_testbed.Serial.Link.Chunks.{join-writes, join}
use vertex_testbed.Serial.Link.{cleared, send, writes, running, pump_all, SerialLink, request}
use vertex_testbed.Common.{
  ◌≤◌, ◌>>=◌, length, ◌⊎◌, All, ◌+◌, ◌≡◌, List, [], ◌∷◌, ℕ, none, some, true, false,
}
use vertex_testbed.Serial.FrameType

abbrev link : SerialLink
link = record {
  is_open = true;
  idle_timeout = 250;
  write_chunk = 2;
  clock = none;
  on_state = true;
  loop = running;
  counters = record {
    frames_in = 0;
    frames_out = 0;
    states = 0;
    unsolicited = 0;
    unknown_frames = 0;
    parse_resets = 0;
  };
  parser = frame_parser;
  reply = some (record { type = FrameType.pong; payload = [] });
  reply_ready = true;
  awaiting = false;
  last_rx = 0;
  written = [];
  handled = [];
}

-- What the port delivers: a PONG frame in two reads.
abbrev delivered : List (Bytes × ℕ)
delivered = (0x7E ∷ 0x70 ∷ [], 10) ∷ (0 ∷ 0 ∷ 0x8E ∷ 0x1D ∷ [], 20) ∷ []

request-first_reply_example :
    let r = request link FrameType.ping [] delivered in
    (r.1 ≡ (
      send (cleared link) FrameType.ping [] >>= λ sent.
      ended_with (first_reply (heard sent delivered))))
    × (r.0.awaiting ≡ false)
request-first_reply_example = request-first_reply link FrameType.ping [] delivered

pump_all-accounted_example :
    ((pump_all link delivered).counters.frames_in
      ≡ link.counters.frames_in + length (heard link delivered))
    × (accounted (pump_all link delivered) ≡ accounted link + length (heard link delivered))
pump_all-accounted_example = pump_all-accounted delivered link

join-writes_example :
    (join (writes 2 (1 ∷ 2 ∷ 3 ∷ [])) ≡ 1 ∷ 2 ∷ 3 ∷ [])
    × All (λ s. (◌≡◌ {A = ℕ} 2 0) ⊎ (length s ≤ 2)) (writes 2 (1 ∷ 2 ∷ 3 ∷ []))
join-writes_example = join-writes 2 (1 ∷ 2 ∷ 3 ∷ [])
