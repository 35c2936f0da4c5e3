-- ===== src/Serial/Contains.antt =====
-- `feed` of vertex/serial/proto.py on a stream that nothing is known of: where the frames that it
-- yields come from.
use mathlib.Core.List.{append_assoc}
use vertex_testbed.Serial.Stream.{IsSendable}
use vertex_testbed.Serial.Frame.{frame_bytes, Frame}
use vertex_testbed.Serial.Parser.{
  wait_crc_hi, wait_crc_lo, wait_payload, wait_len_hi, wait_len_lo, wait_type, step, wait_sof, feed,
  emit, ParserStats, ParserState, FrameParser,
}
use vertex_testbed.Common.Bytes.{IsByte, Bytes}
use vertex_testbed.Common.{
  ◌∙◌, sym, ap, refl, All, ◌<◌, ◌≡◌, subst, ◌++◌, ◌+◌, List, [], ◌∷◌, ℕ, Option,
}
use vertex_testbed.Serial.Sound.{
  Progress-in, at, IsReady, pending, Progress, extends, drops, completes,
}

-- The frames stand in the bytes one after the other, with anything before, between and after.
pub data Contains : Bytes → List Frame → Type 0 where
  no_frame : {bs : Bytes} → Contains bs []
  frame_then :
      (pre post : Bytes) (f : Frame) (fs : List Frame)
      → IsSendable f
      → Contains post fs
      → Contains (pre ++ (frame_bytes f ++ post)) (f ∷ fs)

Contains-append :
    (pre : Bytes) {bs : Bytes} {fs : List Frame} → Contains bs fs → Contains (pre ++ bs) fs
Contains-append pre no_frame = no_frame
Contains-append pre (frame_then pre' post f rest s c) =
    subst (λ l. Contains l (f ∷ rest)) (append_assoc pre pre' (frame_bytes f ++ post))
      (frame_then (pre ++ pre') post f rest s c)

abbrev counted : FrameParser → FrameParser
counted p = record p { stats = record (p.stats) { bytes_in = p.stats.bytes_in + 1 } }

progress_counted :
    (s : ParserState) (t n : ℕ) (buf : Bytes) (c : ℕ) (st : ParserStats)
    → pending (counted (at s t n buf c st)) ≡ pending (at s t n buf c st)
unfolding pending
progress_counted wait_sof t n buf c st = refl
progress_counted wait_type t n buf c st = refl
progress_counted wait_len_lo t n buf c st = refl
progress_counted wait_len_hi t n buf c st = refl
progress_counted wait_payload t n buf c st = refl
progress_counted wait_crc_lo t n buf c st = refl
progress_counted wait_crc_hi t n buf c st = refl

IsReady-counted :
    (s : ParserState) (t n : ℕ) (buf : Bytes) (c : ℕ) (st : ParserStats)
    → IsReady (at s t n buf c st)
    → IsReady (counted (at s t n buf c st))
IsReady-counted wait_sof t n buf c st h = h
IsReady-counted wait_type t n buf c st h = h
IsReady-counted wait_len_lo t n buf c st h = h
IsReady-counted wait_len_hi t n buf c st h = h
IsReady-counted wait_payload t n buf c st h = h
IsReady-counted wait_crc_lo t n buf c st h = h
IsReady-counted wait_crc_hi t n buf c st h = h

Progress-counted :
    (p : FrameParser) (b : ℕ) → b < 256 → IsReady p → Progress (counted p) b (step (counted p) b)
Progress-counted p b small h =
    Progress-in p.state p.type p.expected p.buf p.crc_rx (counted p).stats b small
      (IsReady-counted p.state p.type p.expected p.buf p.crc_rx p.stats h)

waiting-IsReady : (p : FrameParser) → p.state ≡ wait_sof → IsReady p
waiting-IsReady p e = rw e tt

waiting-pending : (p : FrameParser) → p.state ≡ wait_sof → pending p ≡ []
unfolding pending
waiting-pending p e = rw e refl

-- One step of the induction: what the step yields stands before what the rest yields.
Contains-emit :
    (p : FrameParser) (b : ℕ) (rest : Bytes) (r : FrameParser × Option Frame) (fs : List Frame)
    → Progress p b r
    → Contains (pending r.0 ++ rest) fs
    → Contains (pending p ++ (b ∷ rest)) (emit r.1 fs)
Contains-emit p b rest r fs (extends none_yet joined ready) c =
    rw none_yet (subst (λ l. Contains l fs) (rw joined (append_assoc (pending p) (b ∷ []) rest)) c)
Contains-emit p b rest r fs (drops none_yet waiting) c = rw none_yet (
    Contains-append (pending p) (
      Contains-append (b ∷ [])
        (subst (λ l. Contains (l ++ rest) fs) (waiting-pending r.0 waiting) c)))
Contains-emit p b rest r fs (completes f yields whole sendable waiting) c = rw yields (
    subst (λ l. Contains l (f ∷ fs))
      (ap (λ l. l ++ rest) (sym whole) ∙ append_assoc (pending p) (b ∷ []) rest)
      (frame_then [] rest f fs sendable
        (subst (λ l. Contains (l ++ rest) fs) (waiting-pending r.0 waiting) c)))

Progress-IsReady :
    (p : FrameParser) (b : ℕ) (r : FrameParser × Option Frame) → Progress p b r → IsReady r.0
Progress-IsReady p b r (extends a j ready) = ready
Progress-IsReady p b r (drops a waiting) = waiting-IsReady r.0 waiting
Progress-IsReady p b r (completes f y w s waiting) = waiting-IsReady r.0 waiting

feed-IsReady : (bs : Bytes) (p : FrameParser) → All IsByte bs → IsReady p → IsReady (feed p bs).0
unfolding feed
feed-IsReady [] p bytes h = h
feed-IsReady (b ∷ bs) p (small, bytes) h =
    feed-IsReady bs _ bytes (Progress-IsReady _ b _ (Progress-counted p b small h))

feed-Contains_from :
    (bs : Bytes) (p : FrameParser)
    → All IsByte bs
    → IsReady p
    → Contains (pending p ++ bs) (feed p bs).1
unfolding feed
feed-Contains_from [] p bytes h = no_frame
feed-Contains_from (b ∷ bs) p (small, bytes) h =
    let made = Progress-counted p b small h in
    subst (λ l. Contains (l ++ (b ∷ bs)) (feed p (b ∷ bs)).1)
      (progress_counted p.state p.type p.expected p.buf p.crc_rx p.stats)
      (Contains-emit _ b bs _ _ made (feed-Contains_from bs _ bytes (Progress-IsReady _ b _ made)))

-- Whatever bytes arrive at a parser that is not inside a frame, every frame that it yields stands in
-- those bytes whole, with its start byte, its length and its right checksum, is of a known type and
-- no longer than the maximum, and the frames stand in the order in which they are yielded, none
-- overlapping another.
pub feed-Contains :
    (p : FrameParser) (bs : Bytes) → p.state ≡ wait_sof → All IsByte bs → Contains bs (feed p bs).1
feed-Contains p bs waiting bytes =
    subst (λ l. Contains (l ++ bs) (feed p bs).1) (waiting-pending p waiting)
      (feed-Contains_from bs p bytes (waiting-IsReady p waiting))
