-- ===== src/Agent/Relay.antt =====
-- `assignment_to_frames` and `BleRelay` of vertex/agent/relay.py, for an assignment without the
-- microgrid block. The serial link is a parameter: what the n-th request returns or raises.
pub mod Frames
pub mod Reports
use vertex_testbed.Serial.FrameType
use vertex_testbed.Serial.Frame.{Frame}
use vertex_testbed.Serial.Payload.{
  Algorithm, Disturbance, encode_network, encode_algorithm, encode_disturbance, encode_control,
}
use vertex_testbed.Serial.StateReport.{StateReport, decode_state}
use vertex_testbed.Serial.Stats.{PeerStats, decode_stats}
use vertex_testbed.Common.{
  length, List, [], ◌∷◌, ℕ, zero, suc, Option, none, some, Result, ok, err, true, false, Bool,
  Exception, ◌==◌, if◌then◌else◌, ◌>>=◌, ◌%◌, ◌^◌, ◌++◌,
}
use vertex_testbed.Common.Bytes.{Bytes}
use vertex_testbed.Common.Int.{ℤ, pos}

-- The fields of an `AgentAssignment` that reach the board, with its numbers as `quantize` and the
-- conversions to milliseconds give them.
pub record Assignment : Type 0 where
  pub node_id : ℕ
  pub enabled : Bool
  pub neighbors : List ℕ
  pub algorithm : Algorithm
  pub disturbance : Disturbance
  pub disturbance_seed : ℕ

abbrev pub TypedPayload : Type 0
TypedPayload = ℕ × Bytes

-- `assignment_to_frames`
unfoldable pub trigger_frames : Option Bool → Assignment → ℕ → Result (List TypedPayload)
trigger_frames none a epoch_us = ok []
trigger_frames (some trigger) a epoch_us = do
  payload ← encode_control trigger (a.disturbance_seed % 2 ^ 32) epoch_us
  ok ((FrameType.control, payload) ∷ [])

unfoldable pub assignment_to_frames : Assignment → Option Bool → ℕ → Result (List TypedPayload)
unfolding trigger_frames
assignment_to_frames a trigger epoch_us = do
  network ← encode_network a.enabled a.node_id a.neighbors
  algorithm ← encode_algorithm a.algorithm
  disturbance ← encode_disturbance a.disturbance
  last ← trigger_frames trigger a epoch_us
  ok (
      (FrameType.network, network)
      ∷ (FrameType.algorithm, algorithm)
      ∷ (FrameType.disturbance, disturbance)
      ∷ last)

pub record RelayCounters : Type 0 where
  pub reports : ℕ
  pub malformed : ℕ
  pub rejected : ℕ
  pub frames_sent : ℕ
  pub untimed : ℕ
  pub stats_unavailable : ℕ

-- What `link.request` answers: the count of requests before it, the frame's type and its payload.
abbrev pub RequestLink : Type 0
RequestLink = ℕ → ℕ → Bytes → Result Frame

-- `requests` are the frames requested of the link, in order; `t0` is whether `_t0` is set; `handed_on`
-- is what `on_report` was called with, in order.
pub record BleRelay : Type 0 where
  pub counters : RelayCounters
  pub assignment : Option Assignment
  pub last : Option StateReport
  pub last_rx_time_us : Option ℕ
  pub board_stats : Option PeerStats
  pub t0 : Bool
  pub requests : List TypedPayload
  pub handed_on : List (StateReport × Option ℕ)

-- The constructor.
abbrev pub ble_relay : BleRelay
ble_relay = record {
  counters = record {
    reports = 0;
    malformed = 0;
    rejected = 0;
    frames_sent = 0;
    untimed = 0;
    stats_unavailable = 0;
  };
  assignment = none;
  last = none;
  last_rx_time_us = none;
  board_stats = none;
  t0 = false;
  requests = [];
  handed_on = [];
}

abbrev with_request : BleRelay → TypedPayload → BleRelay
with_request r f = record r { requests = r.requests ++ (f ∷ []) }

unfoldable pub sent_as : BleRelay → Result Frame → BleRelay × Result (Unit {0})
sent_as r (ok frame) = (
  record r { counters = record (r.counters) { frames_sent = suc r.counters.frames_sent } },
  ok tt,
)
sent_as r (err e) = (
  record r { counters = record (r.counters) { rejected = suc r.counters.rejected } },
  err Exception.relay_error,
)

-- `_send`
unfoldable pub send : RequestLink → BleRelay → TypedPayload → BleRelay × Result (Unit {0})
unfolding sent_as
send link r (type, payload) =
    sent_as (with_request r (type, payload)) (link (length r.requests) type payload)

-- A call after one that may have raised.
abbrev pub then_do {ℓ} :
    {R : Type 0} {A : Type ℓ}
    → BleRelay × Result A
    → (BleRelay → BleRelay × Result R)
    → BleRelay × Result R
then_do (r, err e) next = (r, err e)
then_do (r, ok a) next = next r

unfoldable pub send_all : RequestLink → BleRelay → List TypedPayload → BleRelay × Result (Unit {0})
unfolding send
send_all link r [] = (r, ok tt)
send_all link r (f ∷ fs) = then_do (send link r f) λ r'. send_all link r' fs

unfoldable pub noted : BleRelay → Result PeerStats → BleRelay
noted r (ok values) = record r { board_stats = some values }
noted r (err e) = record r {
  board_stats = none;
  counters = record (r.counters) { stats_unavailable = suc r.counters.stats_unavailable };
}

-- `self.board_stats = self.read_stats()`
unfoldable pub read_stats : RequestLink → BleRelay → BleRelay
unfolding noted
read_stats link r =
    let asked : TypedPayload = (FrameType.stats_req, []) in
    noted (with_request r asked)
      (link (length r.requests) FrameType.stats_req [] >>= λ frame. decode_stats frame.payload)

abbrev pub radio_frames : Option TypedPayload → List TypedPayload
radio_frames none = []
radio_frames (some f) = f ∷ []

unfoldable pub push :
    RequestLink
    → BleRelay
    → Assignment
    → Option TypedPayload
    → Result (List TypedPayload)
    → BleRelay × Result (Unit {0})
unfolding send_all read_stats
push link r a radio (err e) = (r, err e)
push link r a radio (ok frames) =
    then_do (send_all link r (frames ++ radio_frames radio))
      λ r'. (read_stats link (record r' { assignment = some a }), ok tt)

-- `configure`
unfoldable pub configure :
    RequestLink → BleRelay → Assignment → Option TypedPayload → BleRelay × Result (Unit {0})
unfolding push assignment_to_frames
configure link r a radio = push link r a radio (assignment_to_frames a none 0)

unfoldable pub send_control : RequestLink → BleRelay → Result Bytes → BleRelay × Result (Unit {0})
unfolding send
send_control link r (err e) = (r, err e)
send_control link r (ok payload) = send link r (FrameType.control, payload)

-- `start`, with the reading of the relay's clock.
unfoldable pub start : RequestLink → BleRelay → ℕ → BleRelay × Result (Unit {0})
unfolding send_control
start link r epoch_us = elim r.assignment [
  | none ↦ (r, err Exception.relay_error)
  | some a ↦
      send_control link (record r { t0 = true })
        (encode_control true (a.disturbance_seed % 2 ^ 32) epoch_us)
]

unfoldable pub stop : RequestLink → BleRelay → BleRelay × Result (Unit {0})
unfolding send_control
stop link r = send_control link r (encode_control false 0 0)

abbrev untimed_of : Option ℕ → ℕ → ℕ
untimed_of none n = suc n
untimed_of (some t) n = n

-- `on_report`: `none`, or a function that returns or raises.
abbrev pub OnReport : Type 0
OnReport = Option (StateReport → Option ℕ → Bool)

unfoldable pub hand_on :
    OnReport → BleRelay → StateReport → Option ℕ → BleRelay × Result (Option StateReport)
hand_on none r report rx_time_us = (r, ok (some report))
hand_on (some returns) r report rx_time_us = (
  record r { handed_on = r.handed_on ++ ((report, rx_time_us) ∷ []) },
  if returns report rx_time_us then ok (some report) else err Exception.runtime_error,
)

unfoldable pub reported :
    OnReport → BleRelay → Option ℕ → Result StateReport → BleRelay × Result (Option StateReport)
unfolding hand_on
reported on_report r rx_time_us (err e) =
    (record r { counters = record (r.counters) { malformed = suc r.counters.malformed } }, ok none)
reported on_report r rx_time_us (ok report) =
    hand_on on_report
      (record r {
        counters = record (r.counters) {
          reports = suc r.counters.reports;
          untimed = untimed_of rx_time_us r.counters.untimed;
        };
        last = some report;
        last_rx_time_us = rx_time_us;
      })
      report rx_time_us

-- `handle_frame`
unfoldable pub handle_frame :
    OnReport → BleRelay → Frame → Option ℕ → BleRelay × Result (Option StateReport)
unfolding reported
handle_frame on_report r frame rx_time_us =
    if frame.type == FrameType.state
    then reported on_report r rx_time_us (decode_state frame.payload)
    else (r, ok none)

-- `status()["running"]`
unfoldable pub is_running : BleRelay → Bool
is_running r = r.t0
