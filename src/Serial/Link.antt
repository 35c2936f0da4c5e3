-- ===== src/Serial/Link.antt =====
-- `SerialLink` of vertex/serial/link.py: the dispatch of frames and the exchange of a request and
-- its reply.
use vertex_testbed.Common.Bytes.{from_le, Bytes}
use vertex_testbed.Common.Int.{of_word, ℤ}
pub mod Chunks
pub mod Gate
pub mod Counts
use vertex_testbed.Common.{
  length, ◌-◌, ltb, ◌>>=◌, ◌||◌, ◌&&◌, ◌^◌, require, drop, elem, ◌>>◌, not, take, ◌==◌, Exception,
  true, ◌++◌, Result, Bool, if◌then◌else◌, ◌+◌, false, List, [], ◌∷◌, ℕ, zero, suc, Option, none,
  some, ok, err,
}
use vertex_testbed.Serial.FrameType
use vertex_testbed.Serial.Frame.{build_frame, Frame}
use vertex_testbed.Serial.Parser.{timeout, in_frame, feed, FrameParser}

-- A frame and the reading of the clock when it was read off the port.
pub record TimedFrame : Type 0 where
  pub frame : Frame
  pub rx_time_us : Option ℤ

-- `_REPLY_TYPES`
abbrev pub reply_types : List ℕ
reply_types = FrameType.ack ∷ FrameType.err ∷ FrameType.pong ∷ FrameType.stats ∷ FrameType.txat ∷ []

pub record LinkCounters : Type 0 where
  pub frames_in : ℕ
  pub frames_out : ℕ
  pub states : ℕ
  pub unsolicited : ℕ
  pub unknown_frames : ℕ
  pub parse_resets : ℕ

-- The event loop that STATE callbacks are put on, if there is one.
pub data EventLoop : Type 0 where
  no_loop running closed : EventLoop

-- `written` is what the port was given, write by write, and `handled` what the STATE callback was
-- given, or the loop for it, in order. `clock` gives the reading at the n-th STATE frame.
pub record SerialLink : Type 0 where
  pub is_open : Bool
  pub idle_timeout : ℕ
  pub write_chunk : ℕ
  pub clock : Option (ℕ → ℤ)
  pub on_state : Bool
  pub loop : EventLoop
  pub counters : LinkCounters
  pub parser : FrameParser
  pub reply : Option Frame
  pub reply_ready : Bool
  pub awaiting : Bool
  pub last_rx : ℕ
  pub written : List Bytes
  pub handled : List TimedFrame

abbrev now_us : Option (ℕ → ℤ) → ℕ → Option ℤ
now_us none n = none
now_us (some clock) n = some (clock n)

-- The STATE branch of `_dispatch` after the count: the callback is called, put on the loop, or the
-- frame is dropped as the loop is closed.
hand_over : EventLoop → SerialLink → TimedFrame → SerialLink
hand_over no_loop l timed = record l { handled = l.handled ++ (timed ∷ []) }
hand_over running l timed = record l { handled = l.handled ++ (timed ∷ []) }
hand_over closed l timed = l

-- `_dispatch`
unfoldable pub dispatch : SerialLink → Frame → SerialLink
unfolding hand_over
dispatch l frame =
    if frame.type == FrameType.state
    then (let l1 = record l { counters = record (l.counters) { states = l.counters.states + 1 } } in
        if not l.on_state
        then l1
        else hand_over l.loop l1
            (record { frame = frame; rx_time_us = now_us l.clock l.counters.states }))
    else if elem frame.type reply_types
    then (if not l.awaiting || l.reply_ready
        then record l {
          counters = record (l.counters) { unsolicited = l.counters.unsolicited + 1 };
        }
        else record l { reply = some frame; reply_ready = true })
    else record l {
      counters = record (l.counters) { unknown_frames = l.counters.unknown_frames + 1 };
    }

-- The body of `pump`'s loop over the frames of the parser.
unfoldable pub dispatch_all : SerialLink → List Frame → SerialLink
dispatch_all l [] = l
dispatch_all l (frame ∷ rest) =
    let l1 = record l { counters = record (l.counters) { frames_in = l.counters.frames_in + 1 } } in
    dispatch_all (dispatch l1 frame) rest

abbrev is_empty : Bytes → Bool
is_empty [] = true
is_empty (b ∷ bs) = false

-- `pump`, with the reading of the monotonic clock.
unfoldable pub pump : SerialLink → Bytes → ℕ → SerialLink
pump l chunk now =
    if not (is_empty chunk)
    then (let (parser', frames) = feed l.parser chunk in
        record (dispatch_all (record l { parser = parser' }) frames) { last_rx = now })
    else if in_frame l.parser && ltb l.idle_timeout (now - l.last_rx)
    then record l {
      parser = timeout l.parser;
      counters = record (l.counters) { parse_resets = l.counters.parse_resets + 1 };
    }
    else l

-- What the reader thread pumps, read by read.
unfoldable pub pump_all : SerialLink → List (Bytes × ℕ) → SerialLink
pump_all l [] = l
pump_all l ((chunk, now) ∷ rest) = pump_all (pump l chunk now) rest

-- The slices `frame[i:i + w]` for `i` in `range(0, len(frame), w)`; `fuel` bounds their number.
unfoldable pub slices : ℕ → ℕ → Bytes → List Bytes
slices zero w frame = []
slices (suc fuel) w [] = []
slices (suc fuel) w (b ∷ bs) = take w (b ∷ bs) ∷ slices fuel w (drop w (b ∷ bs))

-- The writes of `send`.
unfoldable pub writes : ℕ → Bytes → List Bytes
unfolding slices
writes w frame =
    if not (w == 0) && ltb w (length frame) then slices (length frame) w frame else frame ∷ []

unfoldable pub send : SerialLink → ℕ → Bytes → Result SerialLink
unfolding writes
send l frame_type payload = do
  require l.is_open Exception.link_error
  frame ← build_frame frame_type payload
  ok (record l {
    written = l.written ++ writes l.write_chunk frame;
    counters = record (l.counters) { frames_out = l.counters.frames_out + 1 };
  })

-- `decode_ack` of vertex/serial/proto.py: the frame type and the signed status.
unfoldable decode_ack : Bytes → Result (ℕ × ℤ)
decode_ack (frame_type ∷ status ∷ []) = ok (frame_type, of_word (2 ^ 8) status)
decode_ack _ = err Exception.proto_error

refusal : Result (ℕ × ℤ) → Exception
refusal (ok rejected) = Exception.link_rejected
refusal (err e) = Exception.link_error

-- What `request` makes of the reply slot.
unfoldable pub answer : Option Frame → Result Frame
unfolding refusal decode_ack
answer none = err Exception.link_error
answer (some reply) =
    if reply.type == FrameType.err then err (refusal (decode_ack reply.payload)) else ok reply

-- The slot as `request` prepares it.
abbrev pub cleared : SerialLink → SerialLink
cleared l = record l { reply = none; reply_ready = false; awaiting = true }

-- After the frame is sent: what the reader thread pumps until the wait is over, and the reply.
wait : SerialLink → List (Bytes × ℕ) → SerialLink × Result Frame
unfolding answer
wait l pumped =
    let l1 = pump_all l pumped in
    (
      record l1 { awaiting = false },
      if l1.reply_ready then answer l1.reply else err Exception.link_error,
    )

exchange : SerialLink → Result SerialLink → List (Bytes × ℕ) → SerialLink × Result Frame
unfolding wait
exchange l (err e) pumped = (record l { awaiting = false }, err e)
exchange l (ok l1) pumped = wait l1 pumped

-- `request`; `pumped` is what the reader thread reads from the moment that the frame is sent until
-- `_awaiting` is cleared.
unfoldable pub request : SerialLink → ℕ → Bytes → List (Bytes × ℕ) → SerialLink × Result Frame
unfolding exchange
request l frame_type payload pumped =
    exchange (cleared l) (send (cleared l) frame_type payload) pumped

uptime_of : Frame → Result ℕ
uptime_of reply =
    if length reply.payload == 8 then ok (from_le reply.payload) else err Exception.link_error

-- `ping`: the board's uptime in microseconds.
unfoldable pub ping : SerialLink → List (Bytes × ℕ) → SerialLink × Result ℕ
unfolding uptime_of
ping l pumped = let (l1, reply) = request l FrameType.ping [] pumped in (l1, reply >>= uptime_of)
