-- ===== src/Serial/Stream.antt =====
-- `FrameParser.feed` of vertex/serial/proto.py on the bytes that `build_frame` writes, and on a
-- stream that arrives in pieces.
use vertex_testbed.Common.Bits.{bit_or-shift}
use vertex_testbed.Common.Bytes.{length-le_bytes, le_bytes, Bytes}
use mathlib.Core.List.{append_assoc}
use vertex_testbed.Common.{
  ◌>>=◌, ok, Result, All, false, ==_refl, ◌*◌, ◌/◌, ◌%◌, sym, bit_or, ap₂, length-append, ◌^◌, ◌∙◌,
  ◌<◌, ap, arith, ◌==◌, if◌then◌else◌, ◌≤◌, refl, none, true, some, length, ◌≡◌, ◌++◌, Option, ◌+◌,
  List, [], ◌∷◌, ℕ, suc,
}
use vertex_testbed.Serial.Frame.{
  is_known-lt, build_frame, build_frame-frame_bytes, frame_bytes, crc16-lt, sof, max_payload,
  is_known, crc16, Frame,
}
use vertex_testbed.Serial.Parser.{
  wait_crc_hi, wait_len_hi, wait_len_lo, wait_type, step, emit, feed, FrameParser, ParserStats,
  ParserState, wait_sof, wait_payload, wait_crc_lo,
}

emit-append : (o : Option Frame) (fs gs : List Frame) → emit o fs ++ gs ≡ emit o (fs ++ gs)
emit-append none fs gs = refl
emit-append (some f) fs gs = refl

-- `self.stats.bytes_in += k`
abbrev read_bytes : ℕ → ParserStats → ParserStats
read_bytes k st = record st { bytes_in = st.bytes_in + k }

abbrev tick : FrameParser → FrameParser
tick p = record p { stats = read_bytes 1 p.stats }

-- Feeding a stream in two pieces yields the frames that feeding it whole yields, and leaves the
-- same parser: `feed` does not care how the serial layer fragments its reads.
pub feed-append :
    (p : FrameParser) (front back : Bytes)
    → let first = feed p front in
      let second = feed first.0 back in feed p (front ++ back) ≡ (second.0, first.1 ++ second.1)
unfolding feed
feed-append p [] back = refl
feed-append p (b ∷ front) back =
    let (q, frame) = step (tick p) b in
    let ih = feed-append q front back in
    ap (λ r. (r.0, emit frame r.1)) ih
    ∙ ap (λ l. ((feed (feed q front).0 back).0, l)) (sym (emit-append frame _ _))

feed-quiet :
    (p q : FrameParser) (b : ℕ) (rest : Bytes)
    → step (tick p) b ≡ (q, none)
    → feed p (b ∷ rest) ≡ feed q rest
unfolding feed
feed-quiet p q b rest e = rw e

feed-frame :
    (p q : FrameParser) (b : ℕ) (f : Frame)
    → step (tick p) b ≡ (q, some f)
    → feed p (b ∷ []) ≡ (q, f ∷ [])
unfolding feed
feed-frame p q b f e = rw e

-- A parser by its fields.
abbrev at : ParserState → ℕ → ℕ → Bytes → ℕ → ParserStats → FrameParser
at s t n buf c st = record { state = s; type = t; expected = n; buf = buf; crc_rx = c; stats = st }

two_bytes : (n : ℕ) → n < 2 ^ 16 → bit_or (n % 256) (n / 256 % 256 * 2 ^ 8) ≡ n
two_bytes n h = bit_or-shift 8 (n % 256) (n / 256 % 256) (omega arith) ∙ omega arith

step_more :
    (b t n : ℕ) (buf : Bytes) (c : ℕ) (st : ParserStats)
    → length buf + 1 < n
    → step (at wait_payload t n buf c st) b ≡ (at wait_payload t n (buf ++ (b ∷ [])) c st, none)
unfolding step
step_more b t n buf c st h = ground (arith, length-append buf (b ∷ []))

step_last :
    (b t n : ℕ) (buf : Bytes) (c : ℕ) (st : ParserStats)
    → length buf + 1 ≡ n
    → step (at wait_payload t n buf c st) b ≡ (at wait_crc_lo t n (buf ++ (b ∷ [])) c st, none)
unfolding step
step_last b t n buf c st h = ground (arith, length-append buf (b ∷ []))

read_bytes-add :
    (j k : ℕ) (st : ParserStats) → read_bytes k (read_bytes j st) ≡ read_bytes (j + k) st
read_bytes-add j k st = ground arith

feed_payload :
    (bs : Bytes) (b t n : ℕ) (buf : Bytes) (c : ℕ) (st : ParserStats)
    → length buf + suc (length bs) ≡ n
    → feed (at wait_payload t n buf c st) (b ∷ bs)
      ≡ (at wait_crc_lo t n (buf ++ (b ∷ bs)) c (read_bytes (1 + length bs) st), [])
feed_payload [] b t n buf c st h =
    feed-quiet _ _ b [] (step_last b t n buf c (read_bytes 1 st) (omega arith))
    ∙ unfold feed in refl
feed_payload (b' ∷ bs) b t n buf c st h =
    feed-quiet _ _ b (b' ∷ bs) (step_more b t n buf c (read_bytes 1 st) (omega arith))
    ∙ feed_payload bs b' t n (buf ++ (b ∷ [])) c (read_bytes 1 st)
        (omega (arith, length-append buf (b ∷ [])))
    ∙ ap₂ (λ l s. (at wait_crc_lo t n l c s, [])) (append_assoc buf (b ∷ []) (b' ∷ bs))
        (read_bytes-add 1 (1 + length bs) st ∙ ap (λ k. read_bytes k st) (omega arith))

step_start :
    (t n c : ℕ) (buf : Bytes) (st : ParserStats)
    → step (at wait_sof t n buf c st) sof ≡ (at wait_type t n buf c st, none)
unfolding step
step_start t n c buf st = refl

step_kind :
    (t t' n c : ℕ) (buf : Bytes) (st : ParserStats)
    → is_known t ≡ true
    → step (at wait_type t' n buf c st) t ≡ (at wait_len_lo t n buf c st, none)
unfolding step
step_kind t t' n c buf st known = rw known

step_low :
    (t n b c : ℕ) (buf : Bytes) (st : ParserStats)
    → step (at wait_len_lo t n buf c st) b ≡ (at wait_len_hi t b buf c st, none)
unfolding step
step_low t n b c buf st = refl

step_high :
    (t n c : ℕ) (buf : Bytes) (st : ParserStats)
    → n ≤ max_payload
    → step (at wait_len_hi t (n % 256) buf c st) (n / 256 % 256)
      ≡ (at (if n == 0 then wait_crc_lo else wait_payload) t n [] c st, none)
unfolding step
step_high t n c buf st small = rw (two_bytes n (omega arith)) (ground arith)

step_check_lo :
    (t n b c : ℕ) (buf : Bytes) (st : ParserStats)
    → step (at wait_crc_lo t n buf c st) b ≡ (at wait_crc_hi t n buf b st, none)
unfolding step
step_check_lo t n b c buf st = refl

abbrev one_frame : ParserStats → ParserStats
one_frame st = record st { frames_ok = st.frames_ok + 1 }

step_check_hi :
    (t n crc : ℕ) (buf : Bytes) (st : ParserStats)
    → crc < 2 ^ 16
    → crc16 ((t ∷ le_bytes 2 n) ++ buf) ≡ crc
    → step (at wait_crc_hi t n buf (crc % 256) st) (crc / 256 % 256)
      ≡ (at wait_sof t n buf crc (one_frame st), some (record { type = t; payload = buf }))
unfolding step
step_check_hi t n crc buf st small e = rw (two_bytes crc small, e, ==_refl crc)

feed_head :
    (t n t' n' c : ℕ) (buf : Bytes) (st : ParserStats)
    → is_known t ≡ true
    → n ≤ max_payload
    → feed (at wait_sof t' n' buf c st) (sof ∷ t ∷ le_bytes 2 n)
      ≡ (at (if n == 0 then wait_crc_lo else wait_payload) t n [] c (read_bytes 4 st), [])
unfolding le_bytes
feed_head t n t' n' c buf st known small =
    feed-quiet _ _ sof _ (step_start t' n' c buf (read_bytes 1 st))
    ∙ feed-quiet _ _ t _ (step_kind t t' n' c buf (read_bytes 1 (read_bytes 1 st)) known)
    ∙ feed-quiet _ _ (n % 256) _ (step_low t n' (n % 256) c buf _)
    ∙ feed-quiet _ _ (n / 256 % 256) [] (step_high t n c buf _ small)
    ∙ unfold feed in ground arith

le_two : (n : ℕ) → le_bytes 2 n ≡ n % 256 ∷ n / 256 % 256 ∷ []
unfolding le_bytes
le_two n = refl

feed_tail :
    (t n : ℕ) (buf : Bytes) (c : ℕ) (st : ParserStats)
    → let crc = crc16 ((t ∷ le_bytes 2 n) ++ buf) in
      feed (at wait_crc_lo t n buf c st) (le_bytes 2 crc) ≡ (
        at wait_sof t n buf crc (one_frame (read_bytes 2 st)),
        record { type = t; payload = buf } ∷ [],
      )
feed_tail t n buf c st = tail (crc16 ((t ∷ le_bytes 2 n) ++ buf)) refl (crc16-lt _)
  where
    tail :
        (crc : ℕ)
        → crc16 ((t ∷ le_bytes 2 n) ++ buf) ≡ crc
        → crc < 2 ^ 16
        → feed (at wait_crc_lo t n buf c st) (le_bytes 2 crc) ≡ (
          at wait_sof t n buf crc (one_frame (read_bytes 2 st)),
          record { type = t; payload = buf } ∷ [],
        )
    tail crc e small =
        ap (feed (at wait_crc_lo t n buf c st)) (le_two crc)
        ∙ feed-quiet _ _ (crc % 256) _ (step_check_lo t n (crc % 256) c buf (read_bytes 1 st))
        ∙ feed-frame _ _ (crc / 256 % 256) _
            (step_check_hi t n crc buf (read_bytes 1 (read_bytes 1 st)) small e)
        ∙ ground arith

-- The frames that `build_frame` can make and the parser knows.
pub record IsSendable (f : Frame) : Type 0 where
  pub known : is_known f.type ≡ true
  pub fits : length f.payload ≤ max_payload

feed_body :
    (bs : Bytes) (t n c : ℕ) (st : ParserStats)
    → length bs ≡ n
    → feed (at (if n == 0 then wait_crc_lo else wait_payload) t n [] c st) bs
      ≡ (at wait_crc_lo t n bs c (read_bytes n st), [])
feed_body [] t n c st h = let e : n ≡ 0 = omega arith in rw e (unfold feed in ground arith)
feed_body (b ∷ bs) t n c st h =
    let e : (n == 0) ≡ false = ground arith in
    rw e (
      feed_payload bs b t n [] c st (omega arith)
      ∙ ap (λ k. (at wait_crc_lo t n (b ∷ bs) c (read_bytes k st), [])) (omega arith))

-- What the parser is after one frame.
abbrev after_frame : FrameParser → Frame → FrameParser
after_frame p f =
    let crc = crc16 ((f.type ∷ le_bytes 2 (length f.payload)) ++ f.payload) in
    at wait_sof f.type (length f.payload) f.payload crc
      (one_frame (read_bytes (length (frame_bytes f)) p.stats))

length-frame_bytes : (f : Frame) → length (frame_bytes f) ≡ length f.payload + 6
length-frame_bytes f =
    let n : ℕ = length f.payload in
    let crc : ℕ = crc16 ((f.type ∷ le_bytes 2 n) ++ f.payload) in
    omega (
      arith,
      length-append (le_bytes 2 n) (f.payload ++ le_bytes 2 crc),
      length-append f.payload (le_bytes 2 crc),
      length-le_bytes 2 n,
      length-le_bytes 2 crc,
    )

all_read :
    (f : Frame) (st : ParserStats)
    → read_bytes 2 (read_bytes (length f.payload) (read_bytes 4 st))
      ≡ read_bytes (length (frame_bytes f)) st
all_read f st =
    ap (read_bytes 2) (read_bytes-add 4 (length f.payload) st)
    ∙ read_bytes-add (4 + length f.payload) 2 st
    ∙ ap (λ k. read_bytes k st) (omega (arith, length-frame_bytes f))

feed-join :
    (p q r : FrameParser) (front back : Bytes) (fs gs : List Frame)
    → feed p front ≡ (q, fs)
    → feed q back ≡ (r, gs)
    → feed p (front ++ back) ≡ (r, fs ++ gs)
feed-join p q r front back fs gs e d =
    feed-append p front back
    ∙ ap (λ first. ((feed first.0 back).0, first.1 ++ (feed first.0 back).1)) e
    ∙ ap (λ second. (second.0, fs ++ second.1)) d

feed_frame :
    (f : Frame) (p : FrameParser)
    → IsSendable f
    → p.state ≡ wait_sof
    → feed p (frame_bytes f) ≡ (after_frame p f, f ∷ [])
feed_frame f p h e =
    let t : ℕ = f.type in
    let n : ℕ = length f.payload in
    let crc : ℕ = crc16 ((t ∷ le_bytes 2 n) ++ f.payload) in
    ap (λ s. feed (record p { state = s }) (frame_bytes f)) e
    ∙ feed-join _ _ _ (sof ∷ t ∷ le_bytes 2 n) (f.payload ++ le_bytes 2 crc) [] (f ∷ [])
        (feed_head t n p.type p.expected p.crc_rx p.buf p.stats h.known h.fits)
        (feed-join _ _ _ f.payload (le_bytes 2 crc) [] (f ∷ [])
          (feed_body f.payload t n p.crc_rx (read_bytes 4 p.stats) refl)
          (feed_tail t n f.payload p.crc_rx (read_bytes n (read_bytes 4 p.stats))))
    ∙ ap (λ st. (at wait_sof t n f.payload crc (one_frame st), f ∷ [])) (all_read f p.stats)

-- The bytes of several frames, one behind the other.
abbrev pub stream_bytes : List Frame → Bytes
stream_bytes [] = []
stream_bytes (f ∷ fs) = frame_bytes f ++ stream_bytes fs

-- What feeding a stream of good frames does to a parser and yields.
pub record Receives (p : FrameParser) (fs : List Frame) (r : FrameParser × List Frame)
    : Type 0 where
  pub frames : r.1 ≡ fs
  pub idle : r.0.state ≡ wait_sof
  pub counted : r.0.stats.frames_ok ≡ p.stats.frames_ok + length fs
  pub same_crc_errors : r.0.stats.crc_errors ≡ p.stats.crc_errors
  pub same_len_errors : r.0.stats.len_errors ≡ p.stats.len_errors
  pub same_resyncs : r.0.stats.resyncs ≡ p.stats.resyncs
  pub bytes : r.0.stats.bytes_in ≡ p.stats.bytes_in + length (stream_bytes fs)

feed-stream_bytes :
    (fs : List Frame) (p : FrameParser)
    → All IsSendable fs
    → p.state ≡ wait_sof
    → Receives p fs (feed p (stream_bytes fs))
feed-stream_bytes [] p h e =
    unfold feed in
    record {
      frames = refl;
      idle = e;
      counted = omega arith;
      same_crc_errors = refl;
      same_len_errors = refl;
      same_resyncs = refl;
      bytes = omega arith;
    }
feed-stream_bytes (f ∷ fs) p h e =
    let ih = feed-stream_bytes fs (after_frame p f) h.1 refl in
    rw (feed-append p (frame_bytes f) (stream_bytes fs), feed_frame f p h.0 e)
      (record {
        frames = ap (λ l. f ∷ l) ih.frames;
        idle = ih.idle;
        counted = omega (arith, ih.counted);
        same_crc_errors = ih.same_crc_errors;
        same_len_errors = ih.same_len_errors;
        same_resyncs = ih.same_resyncs;
        bytes = omega (arith, ih.bytes, length-append (frame_bytes f) (stream_bytes fs));
      })

-- What `build_frame` builds of several frames, one behind the other.
abbrev pub build_all : List Frame → Result Bytes
build_all [] = ok []
build_all (f ∷ fs) = build_frame f.type f.payload >>= λ bs. build_all fs >>= λ rest. ok (bs ++ rest)

build_all-stream_bytes : (fs : List Frame) → All IsSendable fs → build_all fs ≡ ok (stream_bytes fs)
build_all-stream_bytes [] h = refl
build_all-stream_bytes (f ∷ fs) (here, h) =
    rw
      (
        build_frame-frame_bytes f (is_known-lt f.type here.known) here.fits,
        build_all-stream_bytes fs h,
      )
      refl

-- Frames of known types with payloads of the permitted length are built, and a parser between
-- frames that is fed what `build_frame` built of them, one behind the other, yields exactly those
-- frames, in order, ends between frames, and counts them with no error.
pub feed-build_all :
    (fs : List Frame) (p : FrameParser)
    → All IsSendable fs
    → p.state ≡ wait_sof
    → (bs : Bytes) × (build_all fs ≡ ok bs) × Receives p fs (feed p bs)
feed-build_all fs p h e = (stream_bytes fs, build_all-stream_bytes fs h, feed-stream_bytes fs p h e)
