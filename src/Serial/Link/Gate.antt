-- ===== src/Serial/Link/Gate.antt =====
-- The `_awaiting` gate of vertex/serial/link.py: which frame answers a request.
use vertex_testbed.Common.{
  ap, length, ◌∙◌, ◌>>◌, require, Result, ◌+◌, Exception, ◌>>=◌, ◌-◌, ltb, ◌&&◌, inr, inl, subst,
  refl, Bool-cases, arith, ◌++◌, true, false, elem, Bool, ◌==◌, ◌≡◌, if◌then◌else◌, List, [], ◌∷◌,
  ℕ, Option, none, some, ok, err,
}
use vertex_testbed.Serial.FrameType
use vertex_testbed.Serial.Frame.{build_frame, Frame}
use vertex_testbed.Serial.Parser.{feed}
use vertex_testbed.Serial.Link.{
  decode_ack, refusal, exchange, writes, wait, cleared, send, answer, request, in_frame, TimedFrame,
  hand_over, dispatch, pump, reply_types, feed, Bytes, SerialLink, dispatch_all, pump_all,
  EventLoop, no_loop, running, closed,
}

abbrev is_reply : Frame → Bool
is_reply f = elem f.type reply_types

-- The first frame of a reply type.
abbrev pub first_reply : List Frame → Option Frame
first_reply [] = none
first_reply (f ∷ fs) = let rest = first_reply fs in if is_reply f then some f else rest

-- The frames that the parser yields while the reader thread pumps.
unfoldable pub heard : SerialLink → List (Bytes × ℕ) → List Frame
heard l [] = []
heard l ((chunk, now) ∷ rest) = (feed l.parser chunk).1 ++ heard (pump l chunk now) rest

first_of : Option Frame → List Frame → Option Frame
first_of none fs = first_reply fs
first_of (some f) fs = some f

is_some : Option Frame → Bool
is_some none = false
is_some (some f) = true

-- The slot of a link that awaits a reply and holds `o`.
record Slot (l : SerialLink) (o : Option Frame) : Type 0 where
  gate : l.awaiting ≡ true
  held : l.reply ≡ o
  full : l.reply_ready ≡ is_some o

state_reply : (f : Frame) → (f.type == FrameType.state) ≡ true → is_reply f ≡ false
state_reply f e = ground arith

first_of-skip : (o : Option Frame) (f : Frame) → is_reply f ≡ false → first_of o (f ∷ []) ≡ o
unfolding first_of
first_of-skip none f e = rw e refl
first_of-skip (some g) f e = refl

Slot-hand_over :
    (loop : EventLoop) (l : SerialLink) (timed : TimedFrame) (o : Option Frame)
    → Slot l o
    → Slot (hand_over loop l timed) o
unfolding hand_over
Slot-hand_over no_loop l timed o s = record { gate = s.gate; held = s.held; full = s.full }
Slot-hand_over running l timed o s = record { gate = s.gate; held = s.held; full = s.full }
Slot-hand_over closed l timed o s = s

Slot-state :
    (l : SerialLink) (f : Frame) (o : Option Frame)
    → (f.type == FrameType.state) ≡ true
    → Slot l o
    → Slot (dispatch l f) o
unfolding dispatch
Slot-state l f o e s = rw e (elim (Bool-cases l.on_state) [
  | inl h ↦
      rw h (Slot-hand_over l.loop _ _ o (record { gate = s.gate; held = s.held; full = s.full }))
  | inr h ↦ rw h (record { gate = s.gate; held = s.held; full = s.full })
])

Slot-reply :
    (l : SerialLink) (f : Frame) (o : Option Frame)
    → (f.type == FrameType.state) ≡ false
    → is_reply f ≡ true
    → Slot l o
    → Slot (dispatch l f) (first_of o (f ∷ []))
unfolding dispatch first_of is_some
Slot-reply l f none e r s =
    rw (e, r, s.gate, s.full) (record { gate = refl; held = refl; full = refl })
Slot-reply l f (some g) e r s =
    rw (e, r, s.gate, s.full) (record { gate = refl; held = s.held; full = refl })

Slot-other :
    (l : SerialLink) (f : Frame) (o : Option Frame)
    → (f.type == FrameType.state) ≡ false
    → is_reply f ≡ false
    → Slot l o
    → Slot (dispatch l f) o
unfolding dispatch
Slot-other l f o e r s = rw (e, r) (record { gate = s.gate; held = s.held; full = s.full })

Slot-dispatch :
    (l : SerialLink) (f : Frame) (o : Option Frame)
    → Slot l o
    → Slot (dispatch l f) (first_of o (f ∷ []))
Slot-dispatch l f o s = elim (Bool-cases (f.type == FrameType.state)) [
  | inl e ↦ rw (first_of-skip o f (state_reply f e)) (Slot-state l f o e s)
  | inr e ↦ elim (Bool-cases (is_reply f)) [
    | inl r ↦ Slot-reply l f o e r s
    | inr r ↦ rw (first_of-skip o f r) (Slot-other l f o e r s)
  ]
]

first_of-nil : (o : Option Frame) → first_of o [] ≡ o
unfolding first_of
first_of-nil none = refl
first_of-nil (some g) = refl

first_of-cons :
    (o : Option Frame) (f : Frame) (fs : List Frame)
    → first_of (first_of o (f ∷ [])) fs ≡ first_of o (f ∷ fs)
unfolding first_of
first_of-cons none f fs = elim (Bool-cases (is_reply f)) [ inl e ↦ rw e refl | inr e ↦ rw e refl ]
first_of-cons (some g) f fs = refl

first_of-append :
    (o : Option Frame) (fs gs : List Frame) → first_of (first_of o fs) gs ≡ first_of o (fs ++ gs)
unfolding first_of
first_of-append (some g) fs gs = refl
first_of-append none [] gs = refl
first_of-append none (f ∷ fs) gs = elim (Bool-cases (is_reply f)) [
  | inl e ↦ rw e refl
  | inr e ↦ rw e (first_of-append none fs gs)
]

Slot-dispatch_all :
    (fs : List Frame) (l : SerialLink) (o : Option Frame)
    → Slot l o
    → Slot (dispatch_all l fs) (first_of o fs)
unfolding dispatch_all first_of
Slot-dispatch_all [] l none s = s
Slot-dispatch_all [] l (some g) s = s
Slot-dispatch_all (f ∷ fs) l o s = subst (Slot (dispatch_all l (f ∷ fs))) (first_of-cons o f fs) (
    Slot-dispatch_all fs _ (first_of o (f ∷ []))
      (Slot-dispatch _ f o (record { gate = s.gate; held = s.held; full = s.full })))

Slot-pump :
    (l : SerialLink) (chunk : Bytes) (now : ℕ) (o : Option Frame)
    → Slot l o
    → Slot (pump l chunk now) (first_of o (feed l.parser chunk).1)
unfolding pump feed first_of
Slot-pump l [] now o s =
    rw (first_of-nil o)
      (elim (Bool-cases (in_frame l.parser && ltb l.idle_timeout (now - l.last_rx))) [
        | inl e ↦ rw e (record { gate = s.gate; held = s.held; full = s.full })
        | inr e ↦ rw e s
      ])
Slot-pump l (b ∷ bs) now o s =
    let r = feed l.parser (b ∷ bs) in
    let t =
      Slot-dispatch_all r.1 (record l { parser = r.0 }) o
        (record { gate = s.gate; held = s.held; full = s.full }) in
    record { gate = t.gate; held = t.held; full = t.full }

Slot-pump_all :
    (pumped : List (Bytes × ℕ)) (l : SerialLink) (o : Option Frame)
    → Slot l o
    → Slot (pump_all l pumped) (first_of o (heard l pumped))
unfolding pump_all heard
Slot-pump_all [] l o s = rw (first_of-nil o) s
Slot-pump_all ((chunk, now) ∷ rest) l o s =
    subst (Slot (pump_all l ((chunk, now) ∷ rest)))
      (first_of-append o (feed l.parser chunk).1 (heard (pump l chunk now) rest))
      (Slot-pump_all rest (pump l chunk now) _ (Slot-pump l chunk now o s))

answer_full :
    (o : Option Frame) → (if is_some o then answer o else err Exception.link_error) ≡ answer o
unfolding is_some answer
answer_full none = refl
answer_full (some f) = refl

wait-first_reply :
    (l : SerialLink) (pumped : List (Bytes × ℕ))
    → Slot l none
    → (wait l pumped).1 ≡ answer (first_reply (heard l pumped))
unfolding wait first_of
wait-first_reply l pumped s =
    let t = Slot-pump_all pumped l none s in
    rw (t.full, t.held) (answer_full (first_reply (heard l pumped)))

-- The link after the writes of `send`.
abbrev written_out : SerialLink → Bytes → SerialLink
written_out l frame = record l {
  written = l.written ++ writes l.write_chunk frame;
  counters = record (l.counters) { frames_out = l.counters.frames_out + 1 };
}

-- How a request ends that gets a frame, or none: an ERR frame refuses it, and one that is not of
-- two bytes is an error of the link.
abbrev pub ended_with : Option Frame → Result Frame
ended_with none = err Exception.link_error
ended_with (some f) =
    if f.type == FrameType.err
    then err (if length f.payload == 2 then Exception.link_rejected else Exception.link_error)
    else ok f

answer-ended_with : (o : Option Frame) → answer o ≡ ended_with o
unfolding answer
answer-ended_with none = refl
answer-ended_with (some f) =
    ap (λ e. if f.type == FrameType.err then err e else ok f) (by_length f.payload)
  where
    by_length :
        (bs : Bytes)
        → refusal (decode_ack bs)
          ≡ (if length bs == 2 then Exception.link_rejected else Exception.link_error)
    by_length [] = refl
    by_length (a ∷ []) = refl
    by_length (a ∷ b ∷ []) = refl
    by_length (a ∷ b ∷ c ∷ bs) = ground arith

-- A request whose frame is sent ends with the first frame of a reply type that the parser yields
-- while the request waits. When that is an ERR frame it is refused, or a link error if the frame is
-- not of two bytes; when there is none it ends with a link error. A request whose frame is not sent ends with the error of the sending. Whatever the slot held
-- before, and whatever was awaited, has no part in it, and no reply is awaited afterwards.
pub request-first_reply :
    (l : SerialLink) (frame_type : ℕ) (payload : Bytes) (pumped : List (Bytes × ℕ))
    → let r = request l frame_type payload pumped in
      (r.1 ≡ (
        send (cleared l) frame_type payload >>= λ sent.
        ended_with (first_reply (heard sent pumped))))
      × (r.0.awaiting ≡ false)
unfolding request send exchange wait is_some
request-first_reply l frame_type payload pumped = go l.is_open (build_frame frame_type payload)
  where
    Claim : Result SerialLink → Type 0
    Claim sent =
        ((exchange (cleared l) sent pumped).1
          ≡ (sent >>= λ l1. ended_with (first_reply (heard l1 pumped))))
        × ((exchange (cleared l) sent pumped).0.awaiting ≡ false)

    go :
        (is_open : Bool) (built : Result Bytes)
        → Claim (
            require is_open Exception.link_error
            >> (built >>= λ frame. ok (written_out (cleared l) frame)))
    go false built = (refl, refl)
    go true (err e) = (refl, refl)
    go true (ok frame) = (
      wait-first_reply (written_out (cleared l) frame) pumped
            (record { gate = refl; held = refl; full = refl })
          ∙ answer-ended_with (first_reply (heard (written_out (cleared l) frame) pumped)),
      refl,
    )
