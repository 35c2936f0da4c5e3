-- ===== src/Serial/Frame.antt =====
-- Frames, the checksum and `build_frame` of vertex/serial/proto.py.
use vertex_testbed.Common.Bytes.{le_bytes, pack_u, Bytes}
use vertex_testbed.Serial.FrameType
use vertex_testbed.Common.{
  ◌>>=◌, ltb, Exception, leb, require, ◌>>◌, ◌%◌, ok, ◌==◌, ◌||◌, arith, ◌≤◌, ◌++◌, ◌*◌, bit_and,
  ◌^◌, not, length, elem, bit_xor, Result, true, refl, if◌then◌else◌, ◌≡◌, ◌<◌, Bool, List, [], ◌∷◌,
  ℕ, zero, suc,
}

abbrev pub sof : ℕ
sof = 0x7E

abbrev pub max_payload : ℕ
max_payload = 256

-- `tuple(FrameType)`
abbrev frame_types : List ℕ
frame_types =
    FrameType.network ∷ FrameType.algorithm ∷ FrameType.disturbance ∷ FrameType.control
    ∷ FrameType.adv_tx ∷ FrameType.radio ∷ FrameType.ping ∷ FrameType.stats_req ∷ FrameType.mg_plant
    ∷ FrameType.mg_virtual ∷ FrameType.mg_iface ∷ FrameType.txat ∷ FrameType.adv_report
    ∷ FrameType.state ∷ FrameType.ack ∷ FrameType.err ∷ FrameType.pong ∷ FrameType.stats ∷ []

-- The keys of `PAYLOAD_LEN`.
abbrev payload_len_types : List ℕ
payload_len_types =
    FrameType.network ∷ FrameType.algorithm ∷ FrameType.disturbance ∷ FrameType.control
    ∷ FrameType.radio ∷ FrameType.ping ∷ FrameType.stats_req ∷ FrameType.adv_tx ∷ []

-- `byte in PAYLOAD_LEN or byte in tuple(FrameType)`
unfoldable pub is_known : ℕ → Bool
is_known b = elem b payload_len_types || elem b frame_types

pub record Frame : Type 0 where
  pub type : ℕ
  pub payload : Bytes

-- One of the eight rounds of `crc16` over a byte.
crc_round : ℕ → ℕ
crc_round crc =
    if not (bit_and crc 0x8000 == 0) then bit_xor (crc * 2) 0x1021 % 2 ^ 16 else crc * 2 % 2 ^ 16

crc_rounds : ℕ → ℕ → ℕ
unfolding crc_round
crc_rounds zero crc = crc
crc_rounds (suc n) crc = crc_rounds n (crc_round crc)

crc_loop : ℕ → Bytes → ℕ
unfolding crc_rounds
crc_loop crc [] = crc
crc_loop crc (byte ∷ rest) = crc_loop (crc_rounds 8 (bit_xor crc (byte * 2 ^ 8))) rest

-- CRC-16/CCITT-FALSE.
unfoldable pub crc16 : Bytes → ℕ
unfolding crc_loop
crc16 bytes = crc_loop 0xFFFF bytes

-- The check value that the docstring gives.
crc16_check : crc16 (0x31 ∷ 0x32 ∷ 0x33 ∷ 0x34 ∷ 0x35 ∷ 0x36 ∷ 0x37 ∷ 0x38 ∷ 0x39 ∷ []) ≡ 0x29B1
unfolding crc16
crc16_check = refl

crc_round-lt : (crc : ℕ) → crc_round crc < 2 ^ 16
unfolding crc_round
crc_round-lt crc = ground arith

crc_rounds-lt : (n crc : ℕ) → crc < 2 ^ 16 → crc_rounds n crc < 2 ^ 16
unfolding crc_rounds
crc_rounds-lt zero crc h = h
crc_rounds-lt (suc n) crc h = crc_rounds-lt n (crc_round crc) (crc_round-lt crc)

crc_rounds_eight-lt : (crc : ℕ) → crc_rounds 8 crc < 2 ^ 16
unfolding crc_rounds
crc_rounds_eight-lt crc = crc_rounds-lt 7 (crc_round crc) (crc_round-lt crc)

crc_loop-lt : (bs : Bytes) (crc : ℕ) → crc < 2 ^ 16 → crc_loop crc bs < 2 ^ 16
unfolding crc_loop
crc_loop-lt [] crc h = h
crc_loop-lt (b ∷ bs) crc h = crc_loop-lt bs _ (crc_rounds_eight-lt _)

pub crc16-lt : (bs : Bytes) → crc16 bs < 2 ^ 16
unfolding crc16
crc16-lt bs = crc_loop-lt bs 0xFFFF (omega arith)

-- `build_frame`: `bytes([frame_type])` is a `ValueError` for what is no byte.
unfoldable pub build_frame : ℕ → Bytes → Result Bytes
build_frame frame_type payload = do
  require (leb (length payload) max_payload) Exception.proto_error
  require (ltb frame_type 256) Exception.value_error
  len ← pack_u 2 (length payload)
  let head = frame_type ∷ len
  crc ← pack_u 2 (crc16 (head ++ payload))
  ok (sof ∷ (head ++ (payload ++ crc)))

-- The bytes of a frame.
abbrev pub frame_bytes : Frame → Bytes
frame_bytes f =
    let head = f.type ∷ le_bytes 2 (length f.payload) in
    sof ∷ (head ++ (f.payload ++ le_bytes 2 (crc16 (head ++ f.payload))))

pub build_frame-frame_bytes :
    (f : Frame)
    → f.type < 256
    → length f.payload ≤ max_payload
    → build_frame f.type f.payload ≡ ok (frame_bytes f)
unfolding build_frame pack_u
build_frame-frame_bytes f h l =
    ground (arith, crc16-lt ((f.type ∷ le_bytes 2 (length f.payload)) ++ f.payload))

pub is_known-lt : (b : ℕ) → is_known b ≡ true → b < 256
unfolding is_known
is_known-lt b h = ground arith
