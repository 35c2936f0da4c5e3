-- ===== src/Serial/Parser.antt =====
-- `FrameParser` of vertex/serial/proto.py: the state machine over the byte stream.
use vertex_testbed.Common.Bytes.{le_bytes, Bytes}
use vertex_testbed.Common.{
  ltb, ◌^◌, false, length, leb, ◌+◌, not, some, none, true, ◌*◌, ◌==◌, if◌then◌else◌, Option, ◌++◌,
  bit_or, Bool, List, [], ◌∷◌, ℕ,
}
use vertex_testbed.Serial.Frame.{max_payload, crc16, sof, is_known, Frame}

pub data ParserState : Type 0 where
  wait_sof wait_type wait_len_lo wait_len_hi wait_payload wait_crc_lo wait_crc_hi : ParserState

pub record ParserStats : Type 0 where
  pub frames_ok : ℕ
  pub crc_errors : ℕ
  pub len_errors : ℕ
  pub resyncs : ℕ
  pub timeouts : ℕ
  pub bytes_in : ℕ

pub record FrameParser : Type 0 where
  pub state : ParserState
  pub type : ℕ
  pub expected : ℕ
  pub buf : Bytes
  pub crc_rx : ℕ
  pub stats : ParserStats

abbrev parser_stats : ParserStats
parser_stats = record {
  frames_ok = 0;
  crc_errors = 0;
  len_errors = 0;
  resyncs = 0;
  timeouts = 0;
  bytes_in = 0;
}

-- `reset` leaves the statistics.
unfoldable reset : FrameParser → FrameParser
reset p = record p { state = wait_sof; type = 0; expected = 0; buf = []; crc_rx = 0 }

-- `FrameParser()`
abbrev pub frame_parser : FrameParser
frame_parser = record {
  state = wait_sof;
  type = 0;
  expected = 0;
  buf = [];
  crc_rx = 0;
  stats = parser_stats;
}

abbrev is_waiting : ParserState → Bool
is_waiting wait_sof = true
is_waiting _ = false

unfoldable pub in_frame : FrameParser → Bool
in_frame p = not (is_waiting p.state)

unfoldable pub timeout : FrameParser → FrameParser
unfolding reset in_frame
timeout p =
    if in_frame p
    then reset (record p { stats = record (p.stats) { timeouts = p.stats.timeouts + 1 } })
    else p

step_sof : FrameParser → ℕ → FrameParser
step_sof p byte = if byte == sof then record p { state = wait_type } else p

step_type : FrameParser → ℕ → FrameParser
step_type p byte =
    if is_known byte
    then record p { type = byte; state = wait_len_lo }
    else record p { stats = record (p.stats) { resyncs = p.stats.resyncs + 1 }; state = wait_sof }

step_len_lo : FrameParser → ℕ → FrameParser
step_len_lo p byte = record p { expected = byte; state = wait_len_hi }

step_len_hi : FrameParser → ℕ → FrameParser
step_len_hi p byte =
    let expected' = bit_or p.expected (byte * 2 ^ 8) in
    if ltb max_payload expected'
    then record p {
      expected = expected';
      stats = record (p.stats) {
        len_errors = p.stats.len_errors + 1;
        resyncs = p.stats.resyncs + 1;
      };
      state = wait_sof;
    }
    else record p {
      expected = expected';
      buf = [];
      state = if expected' == 0 then wait_crc_lo else wait_payload;
    }

step_payload : FrameParser → ℕ → FrameParser
step_payload p byte =
    let buf' = p.buf ++ (byte ∷ []) in
    record p { buf = buf'; state = if leb p.expected (length buf') then wait_crc_lo else p.state }

step_crc_lo : FrameParser → ℕ → FrameParser
step_crc_lo p byte = record p { crc_rx = byte; state = wait_crc_hi }

-- `struct.pack("<H", self._expected)`; `_expected` is at most `MAX_PAYLOAD` here.
step_crc_hi : FrameParser → ℕ → FrameParser × Option Frame
step_crc_hi p byte =
    let crc_rx' = bit_or p.crc_rx (byte * 2 ^ 8) in
    let head = p.type ∷ le_bytes 2 p.expected in
    let p' = record p { crc_rx = crc_rx'; state = wait_sof } in
    if crc16 (head ++ p.buf) == crc_rx'
    then (
      record p' { stats = record (p.stats) { frames_ok = p.stats.frames_ok + 1 } },
      some (record { type = p.type; payload = p.buf }),
    )
    else (
      record p' {
        stats = record (p.stats) {
          crc_errors = p.stats.crc_errors + 1;
          resyncs = p.stats.resyncs + 1;
        };
      },
      none,
    )

step_in : ParserState → FrameParser → ℕ → FrameParser × Option Frame
step_in wait_sof p byte = (step_sof p byte, none)
step_in wait_type p byte = (step_type p byte, none)
step_in wait_len_lo p byte = (step_len_lo p byte, none)
step_in wait_len_hi p byte = (step_len_hi p byte, none)
step_in wait_payload p byte = (step_payload p byte, none)
step_in wait_crc_lo p byte = (step_crc_lo p byte, none)
step_in wait_crc_hi p byte = step_crc_hi p byte

-- `_step`: the branch on `self._state`.
unfoldable pub step : FrameParser → ℕ → FrameParser × Option Frame
unfolding step_in step_sof step_type step_len_lo step_len_hi step_payload step_crc_lo step_crc_hi
step p byte = step_in p.state p byte

abbrev pub emit : Option Frame → List Frame → List Frame
emit none fs = fs
emit (some f) fs = f ∷ fs

-- `feed`: the frames that the generator yields, in order, and the parser when it is exhausted.
unfoldable pub feed : FrameParser → Bytes → FrameParser × List Frame
feed p [] = (p, [])
feed p (byte ∷ rest) =
    let p1 = record p { stats = record (p.stats) { bytes_in = p.stats.bytes_in + 1 } } in
    let (p2, frame) = step p1 byte in let (p3, frames) = feed p2 rest in (p3, emit frame frames)
