-- ===== src/Serial/Payload.antt =====
-- The payloads of the frames in vertex/serial/proto.py, but for STATE, STATS and the microgrid
-- blocks: what the host builds and what it reads.
use vertex_testbed.Common.Bytes.{to_bytes, unpack_i8, pack_u, unpack_u, pack_i32, Bytes}
use vertex_testbed.Common.Int.{pos, leb_ℤ, ℤ}
use vertex_testbed.Common.{
  drop, take, ◌-◌, ◌^◌, bit_or, length, leb, ◌++◌, Exception, ltb, ◌&&◌, require, not, ◌>>◌, ◌>>=◌,
  ◌==◌, Bool, Result, if◌then◌else◌, List, [], ◌∷◌, ℕ, Option, none, some, ok,
}
use vertex_testbed.Serial.FrameType
use vertex_testbed.Serial.StateReport.{max_neighbors}

abbrev pub max_ad_len : ℕ
max_ad_len = 31

-- `PAYLOAD_LEN`: `some none` is an entry of variable length, `none` no entry.
abbrev pub payload_len : ℕ → Option (Option ℕ)
payload_len t =
    if t == FrameType.network
    then some none
    else if t == FrameType.algorithm
    then some (some 36)
    else if t == FrameType.disturbance
    then some (some 29)
    else if t == FrameType.control
    then some (some 11)
    else if t == FrameType.radio
    then some (some 9)
    else if t == FrameType.ping
    then some (some 0)
    else if t == FrameType.stats_req
    then some (some 0)
    else if t == FrameType.adv_tx
    then some none
    else none

abbrev pub flag_byte : Bool → ℕ
flag_byte on = if on then 1 else 0

-- `bytes(xs)`
abbrev to_byte_string : List ℕ → Result Bytes
to_byte_string [] = ok []
to_byte_string (x ∷ xs) = do
  require (ltb x 256) Exception.value_error
  rest ← to_byte_string xs
  ok (x ∷ rest)

-- `struct.pack("<ki", ...)`
unfoldable pub pack_i32s : List ℤ → Result Bytes
pack_i32s [] = ok []
pack_i32s (v ∷ vs) = do a ← pack_i32 v; rest ← pack_i32s vs; ok (a ++ rest)

unfoldable pub encode_network : Bool → ℕ → List ℕ → Result Bytes
encode_network enabled node_id neighbors = do
  require (leb 1 node_id && leb node_id 255) Exception.proto_error
  require (leb (length neighbors) max_neighbors) Exception.proto_error
  to_byte_string (flag_byte enabled ∷ node_id ∷ neighbors)

-- `v > 0`
abbrev pub is_positive : ℤ → Bool
is_positive v = not (leb_ℤ v (pos 0))

pub record Algorithm : Type 0 where
  pub dt_ms : ℤ
  pub clock_ms : ℤ
  pub state0 : ℤ
  pub vstate0 : ℤ
  pub vartheta0 : ℤ
  pub counter0 : ℤ
  pub gain_ij : ℤ
  pub delta : ℤ
  pub eta : ℤ
  pub alpha : ℤ

-- `encode_algorithm`; the record holds its keyword arguments.
unfoldable pub encode_algorithm : Algorithm → Result Bytes
unfolding pack_i32s
encode_algorithm a = do
  require (is_positive a.dt_ms && is_positive a.clock_ms) Exception.proto_error
  require (is_positive a.alpha) Exception.proto_error
  pack_i32s (
      a.dt_ms ∷ a.clock_ms ∷ a.state0 ∷ a.vstate0 ∷ a.vartheta0 ∷ a.counter0 ∷ a.gain_ij ∷ a.delta
      ∷ a.eta ∷ a.alpha ∷ [])

pub record Disturbance : Type 0 where
  pub active : Bool
  pub sine_amplitude : ℤ
  pub frequency : ℤ
  pub phase : ℤ
  pub noise_amplitude : ℤ
  pub noise_offset : ℤ
  pub beta : ℤ
  pub samples : ℤ

unfoldable pub encode_disturbance : Disturbance → Result Bytes
unfolding pack_i32s
encode_disturbance d = do
  require (is_positive d.samples) Exception.proto_error
  fields ← pack_i32s (
      d.sine_amplitude ∷ d.frequency ∷ d.phase ∷ d.noise_amplitude ∷ d.noise_offset ∷ d.beta
      ∷ d.samples ∷ [])
  ok (flag_byte d.active ∷ fields)

unfoldable pub encode_control : Bool → ℕ → ℕ → Result Bytes
encode_control trigger seed epoch_us = do
  require (leb seed 0xFFFFFFFF) Exception.proto_error
  require (leb epoch_us (2 ^ 48 - 1)) Exception.proto_error
  a ← pack_u 4 seed
  b ← to_bytes 6 epoch_us
  ok (flag_byte trigger ∷ (a ++ b))

unfoldable encode_adv_tx : Bytes → Result Bytes
encode_adv_tx ad = do require (leb (length ad) max_ad_len) Exception.proto_error; ok ad

pub record RadioParams : Type 0 where
  pub adv_min : ℕ
  pub adv_max : ℕ
  pub scan_interval : ℕ
  pub scan_window : ℕ
  pub active_scan : Bool
  pub advertising : Bool

unfoldable encode_radio : RadioParams → Result Bytes
encode_radio r = do
  require (leb r.scan_window r.scan_interval) Exception.proto_error
  require (not (r.scan_interval == 0)) Exception.proto_error
  let flags = bit_or (if r.active_scan then 0x01 else 0) (if r.advertising then 0x02 else 0)
  a ← pack_u 2 r.adv_min
  b ← pack_u 2 r.adv_max
  c ← pack_u 2 r.scan_interval
  d ← pack_u 2 r.scan_window
  e ← pack_u 1 flags
  ok (a ++ (b ++ (c ++ (d ++ e))))

pub record AdvReport : Type 0 where
  pub timestamp_us : ℕ
  pub rssi : ℤ
  pub addr_type : ℕ
  pub addr : Bytes
  pub adv_type : ℕ
  pub ad : Bytes

-- The fields `data` is called `ad` here. `payload[16]` and `payload[17]` are there, as the payload
-- has 18 bytes.
unfoldable decode_adv_report : Bytes → Result AdvReport
decode_adv_report payload = do
  require (leb 18 (length payload)) Exception.proto_error
  (ts, bs1) ← unpack_u 8 payload
  (rssi, bs2) ← unpack_i8 bs1
  (addr_type, bs3) ← unpack_u 1 bs2
  let addr = take 6 bs3
  (adv_type, bs4) ← unpack_u 1 (drop 6 bs3)
  (len, bs5) ← unpack_u 1 bs4
  let ad = take len bs5
  require (length ad == len) Exception.proto_error
  ok (record {
    timestamp_us = ts;
    rssi = rssi;
    addr_type = addr_type;
    addr = addr;
    adv_type = adv_type;
    ad = ad;
  })

unfoldable decode_txat : Bytes → Result (ℕ × ℕ)
decode_txat payload = do
  require (length payload == 10) Exception.proto_error
  (seq, bs) ← unpack_u 2 payload
  (uptime_us, rest) ← unpack_u 8 bs
  ok (seq, uptime_us)

unfoldable decode_pong : Bytes → Result ℕ
decode_pong payload = do
  require (length payload == 8) Exception.proto_error
  (uptime_us, rest) ← unpack_u 8 payload
  ok uptime_us
