-- ===== src/Serial/Link/Counts.antt =====
-- The counters of vertex/serial/link.py.
use vertex_testbed.Serial.Link.Gate.{heard}
use vertex_testbed.Common.{
  ◌∙◌, ◌||◌, not, elem, inr, ◌-◌, ltb, ◌&&◌, inl, length-append, refl, ◌==◌, arith, Bool-cases, ◌≡◌,
  ◌+◌, length, if◌then◌else◌, List, [], ◌∷◌, ℕ,
}
use vertex_testbed.Serial.FrameType
use vertex_testbed.Serial.Frame.{Frame}
use vertex_testbed.Serial.Parser.{feed}
use vertex_testbed.Serial.Link.{
  reply_types, in_frame, TimedFrame, hand_over, Bytes, SerialLink, dispatch, dispatch_all, pump,
  pump_all, EventLoop, no_loop, running, closed,
}

-- The frames that a link has accounted for: the three counters and the reply that it holds.
abbrev pub accounted : SerialLink → ℕ
accounted l =
    l.counters.states
    + l.counters.unsolicited
    + l.counters.unknown_frames
    + (if l.reply_ready then 1 else 0)

-- Every frame read is accounted for once.
record Moves (l l' : SerialLink) (n : ℕ) : Type 0 where
  read : l'.counters.frames_in ≡ l.counters.frames_in + n
  sorted : accounted l' ≡ accounted l + n

hand_over-read :
    (loop : EventLoop) (l : SerialLink) (timed : TimedFrame)
    → (hand_over loop l timed).counters.frames_in ≡ l.counters.frames_in
unfolding hand_over
hand_over-read no_loop l timed = refl
hand_over-read running l timed = refl
hand_over-read closed l timed = refl

hand_over-accounted :
    (loop : EventLoop) (l : SerialLink) (timed : TimedFrame)
    → accounted (hand_over loop l timed) ≡ accounted l
unfolding hand_over
hand_over-accounted no_loop l timed = refl
hand_over-accounted running l timed = refl
hand_over-accounted closed l timed = refl

dispatch-accounted :
    (l : SerialLink) (f : Frame)
    → ((dispatch l f).counters.frames_in ≡ l.counters.frames_in)
      × (accounted (dispatch l f) ≡ accounted l + 1)
unfolding dispatch
dispatch-accounted l f = elim (Bool-cases (f.type == FrameType.state)) [
  | inl e ↦ elim (Bool-cases l.on_state) [
    | inl h ↦ rw (e, h) (hand_over-read l.loop _ _, hand_over-accounted l.loop _ _ ∙ omega arith)
    | inr h ↦ rw (e, h) (refl, omega arith)
  ]
  | inr e ↦ elim (Bool-cases (elem f.type reply_types)) [
    | inl r ↦ elim (Bool-cases (not l.awaiting || l.reply_ready)) [
      | inl h ↦ rw (e, r, h) (refl, omega arith)
      | inr h ↦ rw (e, r, h) (refl, ground arith)
    ]
    | inr r ↦ rw (e, r) (refl, omega arith)
  ]
]

dispatch_all-Moves : (fs : List Frame) (l : SerialLink) → Moves l (dispatch_all l fs) (length fs)
unfolding dispatch_all
dispatch_all-Moves [] l = record { read = omega arith; sorted = omega arith }
dispatch_all-Moves (f ∷ fs) l =
    let l1 = record l { counters = record (l.counters) { frames_in = l.counters.frames_in + 1 } } in
    let (same, one) = dispatch-accounted l1 f in
    let m = dispatch_all-Moves fs (dispatch l1 f) in
    record { read = omega (arith, m.read, same); sorted = omega (arith, m.sorted, one) }

pump-Moves :
    (l : SerialLink) (chunk : Bytes) (now : ℕ)
    → Moves l (pump l chunk now) (length (feed l.parser chunk).1)
unfolding pump feed
pump-Moves l [] now =
    elim (Bool-cases (in_frame l.parser && ltb l.idle_timeout (now - l.last_rx))) [
      | inl e ↦ rw e (record { read = omega arith; sorted = omega arith })
      | inr e ↦ rw e (record { read = omega arith; sorted = omega arith })
    ]
pump-Moves l (b ∷ bs) now =
    let r = feed l.parser (b ∷ bs) in
    let m = dispatch_all-Moves r.1 (record l { parser = r.0 }) in
    record { read = m.read; sorted = m.sorted }

-- Whatever the port delivers, each frame that the parser yields is counted as read and is accounted
-- for exactly once: as a STATE frame, as unsolicited, as unknown, or as the reply in the slot.
pub pump_all-accounted :
    (pumped : List (Bytes × ℕ)) (l : SerialLink)
    → ((pump_all l pumped).counters.frames_in ≡ l.counters.frames_in + length (heard l pumped))
      × (accounted (pump_all l pumped) ≡ accounted l + length (heard l pumped))
unfolding pump_all heard
pump_all-accounted [] l = (omega arith, omega arith)
pump_all-accounted ((chunk, now) ∷ rest) l =
    let m = pump-Moves l chunk now in
    let (read, sorted) = pump_all-accounted rest (pump l chunk now) in
    let sizes = length-append (feed l.parser chunk).1 (heard (pump l chunk now) rest) in
    (omega (arith, m.read, read, sizes), omega (arith, m.sorted, sorted, sizes))
