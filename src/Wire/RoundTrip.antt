-- ===== src/Wire/RoundTrip.antt =====
-- The frames that `encode` of vertex/wire/codec.py writes, byte by byte, and reading them back.
use vertex_testbed.Common.{
  ◌∙◌, ℕ, ◌^◌, ◌<◌, ◌≡◌, refl, inl, inr, false, [], ◌∷◌, ◌++◌, arith, ◌==◌, if◌then◌else◌, length,
  take, drop, ok,
}
use vertex_testbed.Common.Int.{ℤ, to_word}
use vertex_testbed.Common.Bytes.{
  Bytes, le_bytes, pack_u, pack_i32, to_bytes, unpack_u-append, unpack_i32-append, from_le-le_bytes,
}
use vertex_testbed.Wire.Packet.{
  fits_one, fits_two, vstate_shape, StatePacket, IsValid, state_packet_accepts, payload_size,
  v2_payload_size, flag_enabled, flag_disturbance,
}
use vertex_testbed.Wire.Codec.{
  decode_any, packet_flags, pack_head, pack_head2, encode, decode, decode_v1, decode_v2, has_flag,
}

-- The four bytes of a coordinate.
abbrev coordinate : ℤ → Bytes
coordinate v = le_bytes 4 (to_word (2 ^ 32) v)

abbrev frame_v1 : ℕ → ℕ → ℕ → ℤ → ℕ → Bytes
frame_v1 flags id seq v t =
    le_bytes 1 1
    ++ (le_bytes 1 flags
        ++ (le_bytes 1 id ++ (le_bytes 1 0 ++ (le_bytes 2 seq ++ (coordinate v ++ le_bytes 6 t)))))

abbrev frame_v2 : ℕ → ℕ → ℕ → ℤ → ℤ → ℕ → Bytes
frame_v2 flags id seq v w t =
    le_bytes 1 2
    ++ (le_bytes 1 flags
        ++ (le_bytes 1 id ++ (le_bytes 2 seq ++ (coordinate v ++ (coordinate w ++ le_bytes 6 t)))))

flags_read_back :
    (p : StatePacket)
    → (has_flag (packet_flags p) flag_enabled ≡ p.enabled)
      × (has_flag (packet_flags p) flag_disturbance ≡ p.disturbance_on)
      × (packet_flags p < 4)
unfolding packet_flags
flags_read_back p = ground arith

pub encode-frame_v1 :
    (p : StatePacket) (v : ℤ)
    → p.vstate ≡ v ∷ []
    → IsValid p
    → encode p ≡ ok (frame_v1 (packet_flags p) p.node_id p.seq v p.tx_time_us)
unfolding encode pack_head pack_u pack_i32 to_bytes le_bytes
encode-frame_v1 p v e h = ground (arith, flags_read_back p)

decode_v1-frame :
    (p : StatePacket) (v : ℤ)
    → p.vstate ≡ v ∷ []
    → IsValid p
    → decode_v1 (frame_v1 (packet_flags p) p.node_id p.seq v p.tx_time_us) ≡ ok p
unfolding decode_v1
decode_v1-frame p v e h =
    let (on, off, small) = flags_read_back p in
    rw
      (
        unpack_u-append 1 1 _ (omega arith),
        unpack_u-append 1 (packet_flags p) _ (omega (arith, small)),
        unpack_u-append 1 p.node_id _ (omega arith),
        unpack_u-append 1 0 _ (omega arith),
        unpack_u-append 2 p.seq _ (omega arith),
        unpack_i32-append v (le_bytes 6 p.tx_time_us) (fits_one p v e h),
        tail,
        from_le-le_bytes 6 p.tx_time_us (omega arith),
        on,
        off,
      )
      (rw (nonzero, ← e) (state_packet_accepts p h))
  where
    tail :
        take 6 (drop 10 (frame_v1 (packet_flags p) p.node_id p.seq v p.tx_time_us))
        ≡ le_bytes 6 p.tx_time_us
    tail = unfold le_bytes in refl

    nonzero : (p.node_id == 0) ≡ false
    nonzero = ground arith

pub encode-frame_v2 :
    (p : StatePacket) (v w : ℤ)
    → p.vstate ≡ v ∷ w ∷ []
    → IsValid p
    → encode p ≡ ok (frame_v2 (packet_flags p) p.node_id p.seq v w p.tx_time_us)
unfolding encode pack_head2 pack_u pack_i32 to_bytes le_bytes
encode-frame_v2 p v w e h = ground (arith, flags_read_back p)

decode_v2-frame :
    (p : StatePacket) (v w : ℤ)
    → p.vstate ≡ v ∷ w ∷ []
    → IsValid p
    → decode_v2 (frame_v2 (packet_flags p) p.node_id p.seq v w p.tx_time_us) ≡ ok p
unfolding decode_v2
decode_v2-frame p v w e h =
    let (on, off, small) = flags_read_back p in
    let (fits_v, fits_w) = fits_two p v w e h in
    rw
      (
        unpack_u-append 1 2 _ (omega arith),
        unpack_u-append 1 (packet_flags p) _ (omega (arith, small)),
        unpack_u-append 1 p.node_id _ (omega arith),
        unpack_u-append 2 p.seq _ (omega arith),
        unpack_i32-append v (coordinate w ++ le_bytes 6 p.tx_time_us) fits_v,
        unpack_i32-append w (le_bytes 6 p.tx_time_us) fits_w,
        tail,
        from_le-le_bytes 6 p.tx_time_us (omega arith),
        on,
        off,
      )
      (rw (nonzero, ← e) (state_packet_accepts p h))
  where
    tail :
        take 6 (drop 13 (frame_v2 (packet_flags p) p.node_id p.seq v w p.tx_time_us))
        ≡ le_bytes 6 p.tx_time_us
    tail = unfold le_bytes in refl

    nonzero : (p.node_id == 0) ≡ false
    nonzero = ground arith

decode-frame_v1 :
    (flags id seq : ℕ) (v : ℤ) (t : ℕ)
    → decode (frame_v1 flags id seq v t) ≡ decode_v1 (frame_v1 flags id seq v t)
unfolding decode le_bytes
decode-frame_v1 flags id seq v t = refl

decode-frame_v2 :
    (flags id seq : ℕ) (v w : ℤ) (t : ℕ)
    → decode (frame_v2 flags id seq v w t) ≡ decode_v2 (frame_v2 flags id seq v w t)
unfolding decode le_bytes
decode-frame_v2 flags id seq v w t = refl

decode_any-frame_v1 :
    (flags id seq : ℕ) (v : ℤ) (t : ℕ)
    → decode_any (frame_v1 flags id seq v t) ≡ decode_v1 (frame_v1 flags id seq v t)
unfolding decode_any decode le_bytes
decode_any-frame_v1 flags id seq v t = refl

decode_any-frame_v2 :
    (flags id seq : ℕ) (v w : ℤ) (t : ℕ)
    → decode_any (frame_v2 flags id seq v w t) ≡ decode_v2 (frame_v2 flags id seq v w t)
unfolding decode_any decode le_bytes
decode_any-frame_v2 flags id seq v w t = refl

-- Every valid packet has an encoding, and the encoding is a frame that `decode` and `decode_any`
-- read back as the packet itself; the frame takes 16 bytes for one coordinate and 19 for two.
pub decode-encode :
    (p : StatePacket)
    → IsValid p
    → (out : Bytes) × (encode p ≡ ok out)
      × (length out ≡ (if length p.vstate == 1 then payload_size else v2_payload_size))
      × (decode out ≡ ok p)
      × (decode_any out ≡ ok p)
decode-encode p h = elim (vstate_shape p h) [
  | inl (v, e) ↦
      let out = frame_v1 (packet_flags p) p.node_id p.seq v p.tx_time_us in
      (
        out,
        encode-frame_v1 p v e h,
        rw e (unfold le_bytes in refl),
        decode-frame_v1 _ _ _ v _ ∙ decode_v1-frame p v e h,
        decode_any-frame_v1 _ _ _ v _ ∙ decode_v1-frame p v e h,
      )
  | inr (v, w, e) ↦
      let out = frame_v2 (packet_flags p) p.node_id p.seq v w p.tx_time_us in
      (
        out,
        encode-frame_v2 p v w e h,
        rw e (unfold le_bytes in refl),
        decode-frame_v2 _ _ _ v w _ ∙ decode_v2-frame p v w e h,
        decode_any-frame_v2 _ _ _ v w _ ∙ decode_v2-frame p v w e h,
      )
]
