-- ===== src/Serial/Sound.antt =====
-- What `FrameParser` of vertex/serial/proto.py yields on any bytes at all, and how long it can stay
-- inside one frame.
use vertex_testbed.Common.Bits.{bit_or-shift}
use vertex_testbed.Serial.Stream.{IsSendable}
use vertex_testbed.Common.Bytes.{le_bytes, Bytes}
use mathlib.Core.List.{append_assoc}
use vertex_testbed.Common.{
  leb, length-append, ltb, refl, inr, ==_iff, sym, arith, ap, length, ◌^◌, ap₂, inl, ◌≤◌, ◌*◌, ◌==◌,
  ◌++◌, bit_or, true, Bool-cases, ◌+◌, ◌≡◌, ◌<◌, [], ◌∷◌, ℕ, Option, none, some,
}
use vertex_testbed.Serial.Frame.{crc16, max_payload, frame_bytes, sof, is_known, Frame}
use vertex_testbed.Serial.Parser.{
  step, FrameParser, ParserStats, ParserState, wait_sof, wait_type, wait_len_lo, wait_len_hi,
  wait_payload, wait_crc_lo, wait_crc_hi,
}

-- What the parser's fields satisfy in each state.
abbrev ReadyIn : ParserState → FrameParser → Type 0
ReadyIn wait_sof p = Unit
ReadyIn wait_type p = Unit
ReadyIn wait_len_lo p = is_known p.type ≡ true
ReadyIn wait_len_hi p = (is_known p.type ≡ true) × (p.expected < 256)
ReadyIn wait_payload p =
    (is_known p.type ≡ true) × (p.expected ≤ max_payload) × (length p.buf < p.expected)
ReadyIn wait_crc_lo p =
    (is_known p.type ≡ true) × (p.expected ≤ max_payload) × (length p.buf ≡ p.expected)
ReadyIn wait_crc_hi p =
    (is_known p.type ≡ true)
    × (p.expected ≤ max_payload)
    × (length p.buf ≡ p.expected)
    × (p.crc_rx < 256)

abbrev pub IsReady : FrameParser → Type 0
IsReady p = ReadyIn p.state p

-- The bytes of the frame that is being read.
pending_in : ParserState → FrameParser → Bytes
pending_in wait_sof p = []
pending_in wait_type p = sof ∷ []
pending_in wait_len_lo p = sof ∷ p.type ∷ []
pending_in wait_len_hi p = sof ∷ p.type ∷ p.expected ∷ []
pending_in wait_payload p = sof ∷ ((p.type ∷ le_bytes 2 p.expected) ++ p.buf)
pending_in wait_crc_lo p = sof ∷ ((p.type ∷ le_bytes 2 p.expected) ++ p.buf)
pending_in wait_crc_hi p = sof ∷ ((p.type ∷ le_bytes 2 p.expected) ++ (p.buf ++ (p.crc_rx ∷ [])))

unfoldable pub pending : FrameParser → Bytes
unfolding pending_in
pending p = pending_in p.state p

-- One byte either extends what is pending, or drops it, or completes a frame with it.
pub data Progress (p : FrameParser) (b : ℕ) (r : FrameParser × Option Frame) : Type 0 where
  extends : r.1 ≡ none → pending r.0 ≡ pending p ++ (b ∷ []) → IsReady r.0 → Progress p b r
  drops : r.1 ≡ none → r.0.state ≡ wait_sof → Progress p b r
  completes :
      (f : Frame)
      → r.1 ≡ some f
      → pending p ++ (b ∷ []) ≡ frame_bytes f
      → IsSendable f
      → r.0.state ≡ wait_sof
      → Progress p b r

abbrev pub at : ParserState → ℕ → ℕ → Bytes → ℕ → ParserStats → FrameParser
at s t n buf c st = record { state = s; type = t; expected = n; buf = buf; crc_rx = c; stats = st }

two_bytes : (lo hi : ℕ) → lo < 256 → bit_or lo (hi * 2 ^ 8) ≡ lo + hi * 256
two_bytes lo hi h = bit_or-shift 8 lo hi h

le_bytes_of_two : (lo hi : ℕ) → lo < 256 → hi < 256 → le_bytes 2 (lo + hi * 256) ≡ lo ∷ hi ∷ []
unfolding le_bytes
le_bytes_of_two lo hi h k = ap₂ (λ x y. x ∷ y ∷ []) (omega arith) (omega arith)

completed :
    (t n c b : ℕ) (buf : Bytes)
    → length buf ≡ n
    → crc16 ((t ∷ le_bytes 2 n) ++ buf) ≡ c + b * 256
    → c < 256
    → b < 256
    → sof ∷ t ∷ ((le_bytes 2 n ++ (buf ++ (c ∷ []))) ++ (b ∷ []))
      ≡ frame_bytes (record { type = t; payload = buf })
completed t n c b buf full e low small =
    rw (full, e, le_bytes_of_two c b low small) (simp append_assoc)

Progress-hi :
    (t n : ℕ) (buf : Bytes) (c : ℕ) (st : ParserStats) (b : ℕ)
    → b < 256
    → IsReady (at wait_len_hi t n buf c st)
    → Progress (at wait_len_hi t n buf c st) b (step (at wait_len_hi t n buf c st) b)
unfolding step pending
Progress-hi t n buf c st b small (known, low) =
    rw (two_bytes n b low) (elim (Bool-cases (ltb max_payload (n + b * 256))) [
      | inl e ↦ rw e (drops refl refl)
      | inr e ↦ rw e (elim (Bool-cases (n + b * 256 == 0)) [
        | inl z ↦
            rw z (
              extends refl (rw (le_bytes_of_two n b low small)) (known, ground arith, ground arith))
        | inr z ↦
            rw z (
              extends refl (rw (le_bytes_of_two n b low small)) (known, ground arith, ground arith))
      ])
    ])

Progress-payload :
    (t n : ℕ) (buf : Bytes) (c : ℕ) (st : ParserStats) (b : ℕ)
    → IsReady (at wait_payload t n buf c st)
    → Progress (at wait_payload t n buf c st) b (step (at wait_payload t n buf c st) b)
unfolding step pending
Progress-payload t n buf c st b (known, fits, short) =
    let longer = length-append buf (b ∷ []) in
    let joined = ap (λ l. sof ∷ t ∷ l) (sym (append_assoc (le_bytes 2 n) buf (b ∷ []))) in
    elim (Bool-cases (leb n (length (buf ++ (b ∷ []))))) [
      | inl e ↦ rw e (extends refl joined (known, fits, ground (arith, longer)))
      | inr e ↦ rw e (extends refl joined (known, fits, ground (arith, longer)))
    ]

Progress-crc :
    (t n : ℕ) (buf : Bytes) (c : ℕ) (st : ParserStats) (b : ℕ)
    → b < 256
    → IsReady (at wait_crc_hi t n buf c st)
    → Progress (at wait_crc_hi t n buf c st) b (step (at wait_crc_hi t n buf c st) b)
unfolding step pending
Progress-crc t n buf c st b small (known, fits, full, low) =
    rw (two_bytes c b low) (elim (Bool-cases (crc16 ((t ∷ le_bytes 2 n) ++ buf) == c + b * 256)) [
      | inl e ↦ rw e (
          completes (record { type = t; payload = buf }) refl
            (completed t n c b buf full ((==_iff _ _).0 e) low small)
            (record { known = known; fits = omega arith }) refl)
      | inr e ↦ rw e (drops refl refl)
    ])

pub Progress-in :
    (s : ParserState) (t n : ℕ) (buf : Bytes) (c : ℕ) (st : ParserStats) (b : ℕ)
    → b < 256
    → IsReady (at s t n buf c st)
    → Progress (at s t n buf c st) b (step (at s t n buf c st) b)
unfolding step pending
Progress-in wait_sof t n buf c st b small h = elim (Bool-cases (b == sof)) [
  | inl e ↦ rw e (extends refl (ap (λ x. x ∷ []) (sym ((==_iff b sof).0 e))) tt)
  | inr e ↦ rw e (drops refl refl)
]
Progress-in wait_type t n buf c st b small h = elim (Bool-cases (is_known b)) [
  | inl e ↦ rw e (extends refl refl e)
  | inr e ↦ rw e (drops refl refl)
]
Progress-in wait_len_lo t n buf c st b small h = extends refl refl (h, small)
Progress-in wait_len_hi t n buf c st b small h = Progress-hi t n buf c st b small h
Progress-in wait_payload t n buf c st b small h = Progress-payload t n buf c st b h
Progress-in wait_crc_lo t n buf c st b small (known, fits, full) =
    extends refl (ap (λ l. sof ∷ t ∷ l) (sym (append_assoc (le_bytes 2 n) buf (b ∷ []))))
      (known, fits, full, small)
Progress-in wait_crc_hi t n buf c st b small h = Progress-crc t n buf c st b small h
